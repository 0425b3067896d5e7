-- ===== src/RegRouter/Peers.antt =====
-- Which callbacks of the register router claim a transaction.
use mathlib.Core.List.{append_assoc, append-nil}
use mathlib.Core.Path.{subst}
use qbox.Base.{
  ℕ, suc, ◌≤◌, ◌<◌, ◌≡◌, refl, sym, ap, ◌∙◌, ◌⊎◌, inl, inr, true, false, ◌&&◌, List, [], ◌∷◌, ◌++◌,
  arith, All, ltb, ◌==◌, if◌then◌else◌, Bool-cases,
}
use qbox.Router.Target.{Target, claims}
use qbox.RegRouter.{collected, collect, claimants}

-- The targets that claim an address with a given priority number.
unfoldable pub peers : ℕ → ℕ → List Target → List Target
peers addr n [] = []
peers addr n (t ∷ ts) =
    let rest = peers addr n ts in if claims t addr && t.priority == n then t ∷ rest else rest

-- No claim of the address has a lower number.
abbrev pub Least : ℕ → ℕ → List Target → Type 0
Least addr n ts = All (λ u. (claims u addr ≡ false) ⊎ (n ≤ u.priority)) ts

-- What the loop makes of the claimants so far, which have the number `n`.
abbrev Collects : ℕ → ℕ → List Target → List Target → List Target → Type 0
Collects addr n cs ts out =
    (m : ℕ) × (out ≡ (if ltb m n then peers addr m ts else cs ++ peers addr n ts))
    × (m ≤ n)
    × Least addr m ts
    × ((u : Target) × (us : List Target) × (out ≡ u ∷ us))

peers_skip :
    (addr m : ℕ) (t : Target) (ts : List Target)
    → (claims t addr && t.priority == m) ≡ false
    → peers addr m (t ∷ ts) ≡ peers addr m ts
unfolding peers
peers_skip addr m t ts e = ap (λ z. if z then t ∷ peers addr m ts else peers addr m ts) e

peers_take :
    (addr m : ℕ) (t : Target) (ts : List Target)
    → (claims t addr && t.priority == m) ≡ true
    → peers addr m (t ∷ ts) ≡ t ∷ peers addr m ts
unfolding peers
peers_take addr m t ts e = ap (λ z. if z then t ∷ peers addr m ts else peers addr m ts) e

not_peer :
    (addr m : ℕ) (t : Target)
    → (claims t addr ≡ false) ⊎ (m < t.priority)
    → (claims t addr && t.priority == m) ≡ false
not_peer addr m t (inl e) = rw e refl
not_peer addr m t (inr h) = ground arith

-- A target that changes nothing.
keep-Collects :
    (addr n : ℕ) (cs : List Target) (t : Target) (ts out : List Target)
    → (claims t addr ≡ false) ⊎ (n < t.priority)
    → Collects addr n cs ts out
    → Collects addr n cs (t ∷ ts) out
keep-Collects addr n cs t ts out o w = (
  w.0,
  w.1
      ∙ ap (λ z. if ltb w.0 n then z else cs ++ peers addr n ts)
          (sym (peers_skip addr w.0 t ts (not_peer addr w.0 t (below o))))
      ∙ ap (λ z. if ltb w.0 n then peers addr w.0 (t ∷ ts) else cs ++ z)
          (sym (peers_skip addr n t ts (not_peer addr n t o))),
  w.2,
  (least o, w.3),
  w.4,
)
  where
    below :
        (claims t addr ≡ false) ⊎ (n < t.priority) → (claims t addr ≡ false) ⊎ (w.0 < t.priority)
    below (inl e) = inl e
    below (inr h) = inr (omega (arith, h, w.2))

    least :
        (claims t addr ≡ false) ⊎ (n < t.priority) → (claims t addr ≡ false) ⊎ (w.0 ≤ t.priority)
    least (inl e) = inl e
    least (inr h) = inr (omega (arith, h, w.2))

-- One with a lower number takes the place of all.
lower-Collects :
    (addr n : ℕ) (cs : List Target) (t : Target) (ts out : List Target)
    → claims t addr ≡ true
    → t.priority < n
    → Collects addr t.priority (t ∷ []) ts out
    → Collects addr n cs (t ∷ ts) out
lower-Collects addr n cs t ts out e h w =
    let less : ltb w.0 n ≡ true = ground (arith, h, w.2) in
    (
      w.0,
      w.1
          ∙ elim (Bool-cases (ltb w.0 t.priority)) [
            | inl deeper ↦
                let other : (claims t addr && t.priority == w.0) ≡ false = ground (arith, deeper) in
                ap (λ z. if z then peers addr w.0 ts else t ∷ peers addr t.priority ts) deeper
                ∙ sym (peers_skip addr w.0 t ts other)
            | inr level ↦
                let same : w.0 ≡ t.priority = ground (arith, level, w.2) in
                let own : (claims t addr && t.priority == w.0) ≡ true = ground (arith, same, e) in
                ap (λ z. if z then peers addr w.0 ts else t ∷ peers addr t.priority ts) level
                ∙ ap (λ z. t ∷ peers addr z ts) (sym same)
                ∙ sym (peers_take addr w.0 t ts own)
          ]
          ∙ sym (ap (λ z. if z then peers addr w.0 (t ∷ ts) else cs ++ peers addr n (t ∷ ts)) less),
      omega (arith, h, w.2),
      (inr w.2, w.3),
      w.4,
    )

-- One with the same number joins.
join-Collects :
    (addr n : ℕ) (cs : List Target) (t : Target) (ts out : List Target)
    → claims t addr ≡ true
    → t.priority ≡ n
    → Collects addr n (cs ++ (t ∷ [])) ts out
    → Collects addr n cs (t ∷ ts) out
join-Collects addr n cs t ts out e h w = (
  w.0,
  w.1 ∙ elim (Bool-cases (ltb w.0 n)) [
    | inl deeper ↦
        let other : (claims t addr && t.priority == w.0) ≡ false = ground (arith, deeper, h) in
        ap (λ z. if z then peers addr w.0 ts else (cs ++ (t ∷ [])) ++ peers addr n ts) deeper
        ∙ sym (peers_skip addr w.0 t ts other)
        ∙ sym (ap (λ z. if z then peers addr w.0 (t ∷ ts) else cs ++ peers addr n (t ∷ ts)) deeper)
    | inr level ↦
        let own : (claims t addr && t.priority == n) ≡ true = ground (arith, h, e) in
        ap (λ z. if z then peers addr w.0 ts else (cs ++ (t ∷ [])) ++ peers addr n ts) level
        ∙ append_assoc cs (t ∷ []) (peers addr n ts)
        ∙ ap (λ z. cs ++ z) (sym (peers_take addr n t ts own))
        ∙ sym (ap (λ z. if z then peers addr w.0 (t ∷ ts) else cs ++ peers addr n (t ∷ ts)) level)
  ],
  w.2,
  (inr (omega (arith, h, w.2)), w.3),
  w.4,
)

collect-Collects :
    (addr n : ℕ) (c : Target) (cs ts : List Target)
    → Collects addr n (c ∷ cs) ts (collect addr ts (c ∷ cs, n)).0
unfolding collect peers
collect-Collects addr n c cs [] =
    let same : ltb n n ≡ false = ground arith in
    (n, rw same (sym (append-nil (c ∷ cs))), omega arith, tt, (c, cs, refl))
collect-Collects addr n c cs (t ∷ ts) =
    let next : List Target × ℕ → Type 0 =
      λ a. Collects addr n (c ∷ cs) (t ∷ ts) (collect addr ts a).0 in
    elim (Bool-cases (claims t addr)) [
      | inr other ↦
          subst next (sym (ap (λ z. if z then collected t (c ∷ cs) n else (c ∷ cs, n)) other))
            (keep-Collects addr n (c ∷ cs) t ts _ (inl other) (collect-Collects addr n c cs ts))
      | inl claimed ↦
          subst next (sym (ap (λ z. if z then collected t (c ∷ cs) n else (c ∷ cs, n)) claimed))
            (elim (Bool-cases (ltb t.priority n)) [
              | inl lower ↦
                  subst next
                    (sym (
                      ap
                        (λ z.
                          if z
                          then (t ∷ [], t.priority)
                          else if t.priority == n
                          then ((c ∷ cs) ++ (t ∷ []), n)
                          else (c ∷ cs, n))
                        lower))
                    (lower-Collects addr n (c ∷ cs) t ts _ claimed (ground (arith, lower))
                      (collect-Collects addr t.priority t [] ts))
              | inr higher ↦
                  subst next
                    (sym (
                      ap
                        (λ z.
                          if z
                          then (t ∷ [], t.priority)
                          else if t.priority == n
                          then ((c ∷ cs) ++ (t ∷ []), n)
                          else (c ∷ cs, n))
                        higher))
                    (elim (Bool-cases (t.priority == n)) [
                      | inl equal ↦
                          subst next
                            (sym (
                              ap (λ z. if z then ((c ∷ cs) ++ (t ∷ []), n) else (c ∷ cs, n)) equal))
                            (join-Collects addr n (c ∷ cs) t ts _ claimed (ground (arith, equal))
                              (collect-Collects addr n c (cs ++ (t ∷ [])) ts))
                      | inr above ↦
                          subst next
                            (sym (
                              ap (λ z. if z then ((c ∷ cs) ++ (t ∷ []), n) else (c ∷ cs, n)) above))
                            (keep-Collects addr n (c ∷ cs) t ts _
                              (inr (ground (arith, higher, above)))
                              (collect-Collects addr n c cs ts))
                    ])
            ])
    ]

-- The callbacks that a transaction to an address is for, in their order: all claims of the lowest
-- priority number, if there is any claim.
abbrev pub Leads : ℕ → List Target → List Target → Type 0
Leads addr ts out =
    ((out ≡ []) × All (λ u. claims u addr ≡ false) ts)
    ⊎ ((m : ℕ) × (out ≡ peers addr m ts)
        × Least addr m ts
        × ((u : Target) × (us : List Target) × (out ≡ u ∷ us)))

skip-Leads :
    (addr : ℕ) (t : Target) (ts out : List Target)
    → claims t addr ≡ false
    → Leads addr ts out
    → Leads addr (t ∷ ts) out
skip-Leads addr t ts out e (inl h) = inl (h.0, (e, h.1))
skip-Leads addr t ts out e (inr h) =
    inr (h.0, h.1 ∙ sym (peers_skip addr h.0 t ts (not_peer addr h.0 t (inl e))), (inl e, h.2), h.3)

first-Leads :
    (addr : ℕ) (t : Target) (ts out : List Target)
    → claims t addr ≡ true
    → Collects addr t.priority (t ∷ []) ts out
    → Leads addr (t ∷ ts) out
first-Leads addr t ts out e w =
    let v = lower-Collects addr (suc t.priority) [] t ts out e (omega arith) w in
    let less : ltb v.0 (suc t.priority) ≡ true = ground (arith, w.2) in
    inr (
      v.0,
      v.1
          ∙ ap (λ z. if z then peers addr v.0 (t ∷ ts) else peers addr (suc t.priority) (t ∷ ts))
              less,
      v.3,
      v.4,
    )

-- The loop that collects the callbacks finds those that claim the address with the lowest priority
-- number among the claims, all of them and in their order; it finds none only where no callback
-- claims the address.
pub claimants-Leads : (addr : ℕ) (ts : List Target) → Leads addr ts (claimants addr ts)
unfolding collect
claimants-Leads addr [] = inl (refl, tt)
claimants-Leads addr (t ∷ ts) =
    let next : List Target × ℕ → Type 0 = λ a. Leads addr (t ∷ ts) (collect addr ts a).0 in
    elim (Bool-cases (claims t addr)) [
      | inr other ↦
          subst next (sym (ap (λ z. if z then collected t [] 0 else ([], 0)) other))
            (skip-Leads addr t ts _ other (claimants-Leads addr ts))
      | inl claimed ↦
          subst next (sym (ap (λ z. if z then collected t [] 0 else ([], 0)) claimed))
            (first-Leads addr t ts _ claimed (collect-Collects addr t.priority t [] ts))
    ]
