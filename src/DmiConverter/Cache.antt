-- ===== src/DmiConverter/Cache.antt =====
-- The cache of grants, where the target grants the regions of one fixed division of its addresses.
use mathlib.Core.Path.{subst}
use qbox.Base.{
  ℕ, suc, ◌≤◌, ◌<◌, ◌≡◌, refl, sym, ap, ◌∙◌, ◌⊎◌, inl, inr, true, false, ◌&&◌, [], ◌∷◌, Option,
  none, some, arith, max, ltb, leb, if◌then◌else◌, All, All-drop, drop, Bool-cases,
}
use qbox.Base.OrdMap.{Map, assign, emplace, upper_bound}
use qbox.Base.Intervals.{Chain, Free, locate, locate_below}
use qbox.Base.Intervals.Insert.{emplace-Chain, locate-emplace, emplace-All}
use qbox.Base.Intervals.Sweep.{
  outside, outside_after, outside_skip, start_at, drop-Chain, outside-Chain, outside-Free,
  outside-All,
}
use qbox.Tlm.{Dmi}
use qbox.DmiConverter.{in_cache, clean, cache_clean}

abbrev pub stop : Dmi → ℕ
stop d = suc d.end_address

-- Every region holds its addresses, and is the region of each of them.
pub record IsDivision (region : ℕ → Dmi) : Type 0 where
  pub holds : (a : ℕ) → ((region a).start_address ≤ a) × (a ≤ (region a).end_address)
  pub same :
      (a x : ℕ) → (region a).start_address ≤ x → x ≤ (region a).end_address → region x ≡ region a

-- What the cache keeps of the division.
pub record IsCache (region : ℕ → Dmi) (m : Map Dmi) : Type 0 where
  pub chain : Chain stop 0 m
  pub keys : All (λ p. p.0 ≡ p.1.start_address) m
  pub known : All (λ p. region p.0 ≡ p.1) m

abbrev value : Option (ℕ × Dmi) → Option Dmi
value none = none
value (some e) = some e.1

in_cache-locate :
    (lo a : ℕ) (m : Map Dmi)
    → Chain stop lo m
    → All (λ p. p.0 ≡ p.1.start_address) m
    → in_cache a m ≡ value (locate stop a m)
unfolding in_cache upper_bound locate
in_cache-locate lo a [] c h = refl
in_cache-locate lo a ((k, v) ∷ []) c h = ground (arith, h.0)
in_cache-locate lo a ((k, v) ∷ (j, w) ∷ m) c h = ground (
  arith,
  h.0,
  in_cache-locate (stop v) a ((j, w) ∷ m) c.2 h.1,
  locate_below stop {lo = stop w} a m,
)

-- An invalidation takes out exactly the grants that meet its range.
clean-outside :
    (s e lo : ℕ) (m : Map Dmi)
    → Chain stop lo m
    → All (λ p. p.0 ≡ p.1.start_address) m
    → clean s e m ≡ outside stop s e m
unfolding clean outside
clean-outside s e lo [] c k = refl
clean-outside s e lo ((j, r) ∷ m) c k =
    ground (arith, clean-outside s e (stop r) m c.2 k.1, outside_after stop s e (stop r) m)

module _ (region : ℕ → Dmi) (division : IsDivision region) where
  -- On a cache of regions, an invalidation takes out exactly the grants that meet its range, and
  -- leaves a cache of regions.
  pub cache_clean-outside :
      (s e : ℕ) (m : Map Dmi)
      → IsCache region m
      → (cache_clean s e m ≡ outside stop s e m)
        × IsCache region (outside stop s e m)
        × Free stop s (suc e) (outside stop s e m)
  unfolding cache_clean
  cache_clean-outside s e m v = (
    ground (
      arith,
      outside_skip stop s e 0 m v.chain,
      clean-outside s e 0 (drop (start_at stop s m) m)
          (drop-Chain stop (start_at stop s m) 0 m v.chain)
          (All-drop _ (start_at stop s m) m v.keys),
    ),
    record {
      chain = outside-Chain stop s e 0 m v.chain;
      keys = outside-All stop _ s e m v.keys;
      known = outside-All stop _ s e m v.known;
    },
    outside-Free stop s e m,
  )

  in_entry :
      (k a : ℕ) (d : Dmi) → k ≡ d.start_address → region k ≡ d → k ≤ a → a < stop d → region a ≡ d
  in_entry k a d e g l u =
      let low = ap (λ z. z.start_address) g in
      let high = ap (λ z. z.end_address) g in
      division.same k a (omega (arith, low, e, l)) (omega (arith, high, u)) ∙ g

  -- What the cache has for an address is its region.
  located :
      (a lo : ℕ) (m : Map Dmi)
      → Chain stop lo m
      → All (λ p. p.0 ≡ p.1.start_address) m
      → All (λ p. region p.0 ≡ p.1) m
      → (locate stop a m ≡ none) ⊎ (value (locate stop a m) ≡ some (region a))
  unfolding locate
  located a lo [] c h g = inl refl
  located a lo ((k, d) ∷ m) c h g = elim (Bool-cases (leb k a && ltb a (stop d))) [
    | inl here ↦
        rw here (
          inr
            (ap some (sym (in_entry k a d h.0 g.0 (ground (arith, here)) (ground (arith, here))))))
    | inr elsewhere ↦ rw elsewhere (located a (stop d) m c.2 h.1 g.1)
  ]

  -- The region of an address that is not in the cache meets no entry of it.
  region-Free :
      (a lo : ℕ) (m : Map Dmi)
      → Chain stop lo m
      → All (λ p. p.0 ≡ p.1.start_address) m
      → All (λ p. region p.0 ≡ p.1) m
      → locate stop a m ≡ none
      → Free stop (region a).start_address (stop (region a)) m
  unfolding locate
  region-Free a lo [] c h g n = tt
  region-Free a lo ((k, d) ∷ m) c h g n = elim (Bool-cases (leb k a && ltb a (stop d))) [
    | inl here ↦ absurd (hit here)
    | inr elsewhere ↦ (
      apart elsewhere,
      region-Free a (stop d) m c.2 h.1 g.1
          (sym (ap (λ z. if z then some (k, d) else locate stop a m) elsewhere) ∙ n),
    )
  ]
    where
      hit : (leb k a && ltb a (stop d)) ≡ true → ⊥
      hit here = cc

      apart :
          (leb k a && ltb a (stop d)) ≡ false
          → (stop (region a) ≤ k) ⊎ (stop d ≤ (region a).start_address)
      apart elsewhere =
          elim (Bool-cases (ltb k (stop (region a)) && ltb (region a).start_address (stop d))) [
            | inl meets ↦
                let x = max k (region a).start_address in
                let own =
                  division.same a x (ground (arith, meets))
                    (ground (arith, meets, c.1, division.holds a)) in
                let theirs = in_entry k x d h.0 g.0 (omega arith) (ground (arith, meets, c.1)) in
                let same : region a ≡ d = sym own ∙ theirs in
                let low = ap (λ z. z.start_address) same in
                let high = ap (λ z. z.end_address) same in
                absurd (ground (arith, low, high, division.holds a, h.0, elsewhere))
            | inr outside ↦ ground (arith, outside)
          ]

assign-emplace :
    (s e k lo : ℕ) (v : Dmi) (m : Map Dmi)
    → s ≤ k
    → k < e
    → Free stop s e m
    → Chain stop lo m
    → assign k v m ≡ emplace k v m
unfolding assign emplace
assign-emplace s e k lo v [] h l f c = refl
assign-emplace s e k lo v ((j, w) ∷ m) h l f c =
    ground (arith, assign-emplace s e k (stop w) v m h l f.1 c.2)

module _ (region : ℕ → Dmi) (division : IsDivision region) where
  -- On a cache of regions, an address that is not found is found once its region is added.
  pub cases :
      (a : ℕ) (m : Map Dmi)
      → IsCache region m
      → (in_cache a m ≡ some (region a))
        ⊎ ((in_cache a m ≡ none)
            × IsCache region (assign (region a).start_address (region a) m)
            × (in_cache a (assign (region a).start_address (region a) m) ≡ some (region a)))
  cases a m v = elim (located region division a 0 m v.chain v.keys v.known) [
    | inr there ↦ inl (in_cache-locate 0 a m v.chain v.keys ∙ there)
    | inl missing ↦
        let d = region a in
        let k = d.start_address in
        let h = division.holds a in
        let free = region-Free region division a 0 m v.chain v.keys v.known missing in
        let e = assign-emplace k (stop d) k 0 d m (omega arith) (omega (arith, h)) free v.chain in
        let chain =
          emplace-Chain stop {lo = 0} k d m (omega arith) (omega (arith, h)) free v.chain in
        let keys = emplace-All stop (λ (p : ℕ × Dmi). p.0 ≡ p.1.start_address) k d m refl v.keys in
        let inside : (leb k a && ltb a (stop d)) ≡ true = ground (arith, h) in
        let known =
          emplace-All stop (λ (p : ℕ × Dmi). region p.0 ≡ p.1) k d m
            (division.same a k (omega arith) (omega (arith, h))) v.known in
        inr (
          in_cache-locate 0 a m v.chain v.keys ∙ ap value missing,
          subst (IsCache region) (sym e) (record { chain = chain; keys = keys; known = known }),
          ap (in_cache a) e
              ∙ in_cache-locate 0 a (emplace k d m) chain keys
              ∙ ap value (locate-emplace stop 0 a k d m (omega (arith, h)) free v.chain)
              ∙ ap (λ z. value (if z then some (k, d) else locate stop a m)) inside,
        )
  ]
