-- ===== src/Monitor/Step.antt =====
-- One transaction through the monitor: `before_b_transport` and `after_b_transport` in terms of
-- who holds which lock.
use mathlib.Core.Path.{subst}
use qbox.Base.{
  ◌≡◌, ◌≢◌, refl, sym, ap, ◌∙◌, ◌⊎◌, inl, inr, Bool, true, false, ◌&&◌, [], ◌∷◌, Option, none, some,
  arith, Option-cases, Bool-cases, some_injective, leb, is_some,
}
use qbox.Tlm.{Command, read, write, ignore, StoreStatus, success, failure, Payload}
use qbox.Monitor.{
  InitiatorId, same_id, is_exact_match, Region, Monitor, Ranges, Stored, region_of, last_address,
  find_region, handle_exclusive_load, handle_exclusive_store, handle_regular_store,
}
use qbox.Monitor.Ids.{same_id_self, same_id_eq}
use qbox.Monitor.Find.{IsProper}
use qbox.Monitor.Locks.{IsValid, no_none}
use qbox.Monitor.Reserve.{Meets, IsClear-find_region, find_region-elem, locks_same}
use qbox.Monitor.Load.{
  IsReserved, IsReleased, handle_exclusive_load-reserves, handle_exclusive_load-Meets,
}
use qbox.Monitor.Store.{
  keep, exact, exact_region, found_own, handle_exclusive_store-owned,
  handle_exclusive_store-refused, handle_regular_store_lem,
}
use qbox.Monitor.Transport.{
  Loaded, stored_regular, before_command, before_store, before_b_transport, loaded, after_load,
  after_command, after_b_transport,
}

-- The two payloads are of one transaction.
abbrev pub IsSame : Payload → Payload → Type 0
IsSame p q =
    (q.command ≡ p.command)
    × (q.address ≡ p.address)
    × (q.data_length ≡ p.data_length)
    × (q.path ≡ p.path)
    × (p.exclusive ≡ none → q.exclusive ≡ none)

-- A lock that is left was there before, and it is clear of the transaction if that is a store that
-- goes on.
abbrev pub IsLeft : Payload → Bool → Monitor → Monitor → Type 0
IsLeft p go s t =
    (j : InitiatorId) (r : Region)
    → t.by_id j ≡ some r
    → (s.by_id j ≡ some r) × (p.command ≡ write → go ≡ true → Meets p r → ⊥)

abbrev pub Before : Payload → Monitor → Stored → Type 0
Before p s o =
    (t : Monitor) × (q : Payload) × (go : Bool) × (o ≡ some (t, q, go))
    × IsValid t
    × IsSame p q
    × IsLeft p go s t

kept_left :
    (p : Payload) (o : Option Region) (r : Region)
    → keep p o ≡ some r
    → (o ≡ some r) × (Meets p r → ⊥)
kept_left p none r h = absurd (no_none h)
kept_left p (some q) r h = elim (Bool-cases (leb q.start (last_address p) && leb p.address q.end)) [
  | inl m ↦ absurd (no_none (rw m at h))
  | inr m ↦
      let e = some_injective (rw m at h) in
      (ap some e, subst (λ x. Meets p x → ⊥) e (λ w. ground (arith, m, w)))
]

module _ (p : Payload) (i : InitiatorId) (s : Monitor) (v : IsValid s) (path : p.path ≡ some i)
    (proper : IsProper p) where
  pub owns : (s.by_id i ≡ some (region_of p i)) ⊎ (s.by_id i ≢ some (region_of p i))
  owns = elim (Option-cases (find_region p s.regions)) [
    | inl e ↦ inr (λ h. no_none (sym e ∙ found_own p i s v path proper h))
    | inr (r, e) ↦ elim (Bool-cases (same_id r.id i)) [
      | inr other ↦ inr (λ h. differs r e other h)
      | inl same ↦ elim (Bool-cases (is_exact_match r p)) [
        | inl matches ↦ inl (holds r e (same_id_eq r.id i same) matches)
        | inr inexact ↦ inr (λ h. unlike r e inexact h)
      ]
    ]
  ]
    where
      own :
          (r : Region)
          → find_region p s.regions ≡ some r
          → s.by_id i ≡ some (region_of p i)
          → region_of p i ≡ r
      own r e h = some_injective (sym (found_own p i s v path proper h) ∙ e)

      differs :
          (r : Region)
          → find_region p s.regions ≡ some r
          → same_id r.id i ≡ false
          → s.by_id i ≡ some (region_of p i)
          → ⊥
      differs r e other h =
          ground (
            arith,
            other,
            subst (λ (x : Region). same_id x.id i ≡ true) (own r e h) (same_id_self i),
          )

      unlike :
          (r : Region)
          → find_region p s.regions ≡ some r
          → is_exact_match r p ≡ false
          → s.by_id i ≡ some (region_of p i)
          → ⊥
      unlike r e inexact h = ground (
        arith,
        inexact,
        subst (λ (x : Region). is_exact_match x p ≡ true) (own r e h) (exact p i s v path),
      )

      holds :
          (r : Region)
          → find_region p s.regions ≡ some r
          → r.id ≡ i
          → is_exact_match r p ≡ true
          → s.by_id i ≡ some (region_of p i)
      holds r e d matches =
          sym (ap s.by_id d)
          ∙ v.listed r (find_region-elem s v p r e).0
          ∙ ap some (exact_region p i s v path r d matches)

  released-IsLeft :
      (t : Monitor) → s.by_id i ≡ some (region_of p i) → IsReleased i s t → IsLeft p true s t
  released-IsLeft t held rel j r h = elim (Bool-cases (same_id i j)) [
    | inl same ↦ absurd (no_none (sym (rw same at (rel j)) ∙ h))
    | inr other ↦
        let k = sym (rw other at (rel j)) ∙ h in (k, λ _ _ m. ground (arith, other, mine j r k m))
  ]
    where
      mine : (j : InitiatorId) (r : Region) → s.by_id j ≡ some r → Meets p r → same_id i j ≡ true
      mine j r k m =
          let o = v.owned j r k in
          let a = v.owned i (region_of p i) held in
          let same = locks_same s v p (region_of p i) r a.1 o.1 m.1 m.0 in
          subst (λ x. same_id i x ≡ true) (ap (λ (x : Region). x.id) same ∙ o.0) (same_id_self i)

  stored : p.exclusive ≢ none → Before p s (handle_exclusive_store p s)
  stored x = elim owns [
    | inl held ↦
        let (t, e, w, rel) = handle_exclusive_store-owned p i s v path proper held in
        (
          t,
          record p { exclusive = some success },
          true,
          e,
          w,
          (refl, refl, refl, refl, λ n. absurd (x n)),
          released-IsLeft t held rel,
        )
    | inr free ↦ (
      s,
      record p { exclusive = some failure },
      false,
      handle_exclusive_store-refused p i s v path free,
      v,
      (refl, refl, refl, refl, λ n. absurd (x n)),
      λ j r h. (h, λ _ n m. ground (arith, n)),
    )
  ]

  regular : Before p s (stored_regular p (handle_regular_store p s))
  regular =
      let (t, e, w, k) = handle_regular_store_lem p s v in
      (
        t,
        p,
        true,
        ap (stored_regular p) e,
        w,
        (refl, refl, refl, refl, λ n. n),
        λ j r h. let l = kept_left p (s.by_id j) r (sym (k j) ∙ h) in (l.0, λ _ _ m. l.1 m),
      )

  store_as_asked : (x : Option StoreStatus) → p.exclusive ≡ x → Before p s (before_store p x s)
  store_as_asked none e = regular
  store_as_asked (some x) e = stored (λ n. ground (arith, e, n))

  passes : p.command ≢ write → Before p s (some (s, p, true))
  passes n = (s, p, true, refl, v, (refl, refl, refl, refl, λ n. n), λ j r h. (h, λ e _ m. n e))

  by_command : (c : Command) → p.command ≡ c → Before p s (before_command p c s)
  by_command write e = store_as_asked p.exclusive refl
  by_command read e = passes (λ w. ground (arith, e, w))
  by_command ignore e = passes (λ w. ground (arith, e, w))

  pub before_b_transport-Before : Before p s (before_b_transport p s)
  unfolding before_b_transport
  before_b_transport-Before = by_command p.command refl

-- The load that a new lock comes from.
abbrev pub IsLoad : Payload → InitiatorId → Region → Type 0
IsLoad p j r = (p.path ≡ some j) × (p.command ≢ write) × (p.exclusive ≢ none) × (r ≡ region_of p j)

-- Every lock was there, or is new from the load.
abbrev pub After : Payload → Monitor → Loaded → Type 0
After p s o =
    (t : Monitor) × (calls : Ranges) × (clear : Bool) × (o ≡ some (t, calls, clear))
    × IsValid t
    × ((j : InitiatorId) (r : Region) → t.by_id j ≡ some r → (s.by_id j ≡ some r) ⊎ IsLoad p j r)

module _ (p : Payload) (i : InitiatorId) (s : Monitor) (v : IsValid s) (path : p.path ≡ some i)
    (proper : IsProper p) where
  unchanged : (calls : Ranges) (clear : Bool) → After p s (some (s, calls, clear))
  unchanged calls clear = (s, calls, clear, refl, v, λ j r h. inl h)

  new_lock :
      (t : Monitor) (j : InitiatorId) (r : Region)
      → p.command ≢ write
      → p.exclusive ≢ none
      → IsReserved p i s t
      → t.by_id j ≡ some r
      → (s.by_id j ≡ some r) ⊎ IsLoad p j r
  new_lock t j r n x res h = elim (Bool-cases (same_id i j)) [
    | inr other ↦ inl (sym (rw other at (res j)) ∙ h)
    | inl same ↦
        let e = same_id_eq i j same in
        inr (
          path ∙ ap some e,
          n,
          x,
          sym (some_injective (sym (rw same at (res j)) ∙ h)) ∙ ap (region_of p) e,
        )
  ]

  load_taken :
      p.command ≢ write → p.exclusive ≢ none → After p s (loaded (handle_exclusive_load p s))
  load_taken n x = elim (Option-cases (find_region p s.regions)) [
    | inl e ↦
        let (t, f, w, res) =
          handle_exclusive_load-reserves p i s v path proper (IsClear-find_region s v p e) in
        (
          t,
          (p.address, last_address p) ∷ [],
          true,
          ap loaded f,
          w,
          λ j r h. new_lock t j r n x res h,
        )
    | inr (r, e) ↦
        let (l, m) = find_region-elem s v p r e in
        subst (After p s)
          (sym (ap loaded (handle_exclusive_load-Meets p i s v path r.id r (v.listed r l) m)))
          (unchanged [] true)
  ]

  load_as_asked :
      (x : Option StoreStatus) → p.exclusive ≡ x → p.command ≢ write → After p s (after_load p x s)
  load_as_asked none e n = unchanged [] (is_some (find_region p s.regions))
  load_as_asked (some x) e n = load_taken n (λ f. ground (arith, e, f))

  After-by_command : (c : Command) → p.command ≡ c → After p s (after_command p c s)
  After-by_command write e = unchanged [] false
  After-by_command read e = load_as_asked p.exclusive refl (λ w. ground (arith, e, w))
  After-by_command ignore e = load_as_asked p.exclusive refl (λ w. ground (arith, e, w))

  pub after_b_transport-After : After p s (after_b_transport p s)
  unfolding after_b_transport
  after_b_transport-After = After-by_command p.command refl
