-- ===== src/Router/AddressMap/Split.antt =====
-- Steps 1 to 3 of `split_and_resolve`: what leaves the map, what stays, and the intervals.
use qbox.Base.{
  ℕ, ◌≤◌, ◌<◌, ◌≡◌, refl, inl, inr, List, [], ◌∷◌, map, arith, All, Bool-cases, if◌then◌else◌,
}
use qbox.Base.OrdMap.{Map, erase}
use qbox.Base.Intervals.{Chain, Chain-mono, Free}
use qbox.Router.AddressMap.{Region, Interval, interval, overlaps, overlapping, erase_all}
use qbox.Router.AddressMap.Segments.{stop, Entry}
use qbox.Router.AddressMap.Walk.{Fits}

-- The entries that step 2 leaves.
unfoldable pub others : ℕ → ℕ → Map Region → Map Region
others s e [] = []
others s e ((k, r) ∷ m) = if overlaps s e r then others s e m else (k, r) ∷ others s e m

abbrev pub as_interval : ℕ × Region → Interval
as_interval p = interval p.1.start p.1.end p.1.target

module _ (s e : ℕ) where
  pub overlapping-Chain :
      (lo : ℕ) (m : Map Region) → Chain stop lo m → Chain stop lo (overlapping s e m)
  unfolding overlapping
  overlapping-Chain lo [] c = tt
  overlapping-Chain lo ((k, r) ∷ m) c = ground (
    arith,
    overlapping-Chain r.end m c.2,
    Chain-mono stop {lo = r.end} {lo' = lo} (overlapping s e m),
  )

  pub others-Chain : (lo : ℕ) (m : Map Region) → Chain stop lo m → Chain stop lo (others s e m)
  unfolding others
  others-Chain lo [] c = tt
  others-Chain lo ((k, r) ∷ m) c =
      ground
        (arith, others-Chain r.end m c.2, Chain-mono stop {lo = r.end} {lo' = lo} (others s e m))

  pub overlapping-Entry : (m : Map Region) → All Entry m → All Entry (overlapping s e m)
  unfolding overlapping
  overlapping-Entry [] a = tt
  overlapping-Entry (p ∷ m) a = ground (arith, overlapping-Entry m a.1)

  pub others-Entry : (m : Map Region) → All Entry m → All Entry (others s e m)
  unfolding others
  others-Entry [] a = tt
  others-Entry (p ∷ m) a = ground (arith, others-Entry m a.1)

  overlapping_keys :
      (k lo : ℕ) (m : Map Region)
      → k < lo
      → Chain stop lo m
      → All (λ p. k < p.0) (overlapping s e m)
  unfolding overlapping
  overlapping_keys k lo [] h c = tt
  overlapping_keys k lo ((j, r) ∷ m) h c = ground (arith, overlapping_keys k r.end m)

  erase_all_skip :
      (k : ℕ) (r : Region) (ks m : Map Region)
      → All (λ p. k < p.0) ks
      → erase_all ks ((k, r) ∷ m) ≡ (k, r) ∷ erase_all ks m
  unfolding erase_all erase
  erase_all_skip k r [] m h = refl
  erase_all_skip k r ((j, q) ∷ ks) m h = ground (arith, erase_all_skip k r ks (erase j m) h.1)

  pub erase_all-overlapping :
      (lo : ℕ) (m : Map Region) → Chain stop lo m → erase_all (overlapping s e m) m ≡ others s e m
  unfolding overlapping erase_all erase others
  erase_all-overlapping lo [] c = refl
  erase_all-overlapping lo ((k, r) ∷ m) c = ground (
    arith,
    erase_all-overlapping r.end m c.2,
    erase_all_skip k r (overlapping s e m) m (overlapping_keys k r.end m c.1 c.2),
  )

  others_after :
      (a b lo : ℕ) (m : Map Region) → b ≤ lo → Chain stop lo m → Free stop a b (others s e m)
  unfolding others
  others_after a b lo [] h c = tt
  others_after a b lo ((k, r) ∷ m) h c = ground (arith, others_after a b r.end m)

  -- What stays does not meet the new range.
  pub others-Free : (m : Map Region) → All Entry m → Free stop s e (others s e m)
  unfolding others
  others-Free [] a = tt
  others-Free ((k, r) ∷ m) a = ground (arith, others-Free m a.1)

  overlapping_starts :
      (lo : ℕ) (m : Map Region)
      → Chain stop lo m
      → All Entry m
      → All (λ i. lo ≤ i.start) (map as_interval (overlapping s e m))
  unfolding overlapping
  overlapping_starts lo [] c a = tt
  overlapping_starts lo ((k, r) ∷ m) c a =
      let low : All (λ i. lo ≤ i.start) (map as_interval (overlapping s e m)) =
        lower _ (overlapping_starts r.end m c.2 a.1) in
      ground arith
    where
      lower : (is : List Interval) → All (λ i. r.end ≤ i.start) is → All (λ i. lo ≤ i.start) is
      lower [] h = tt
      lower (i ∷ is) h = (omega arith, lower is h.1)

  -- Nor does it meet a range that left.
  pub overlapping-Fits :
      (lo : ℕ) (m : Map Region)
      → Chain stop lo m
      → All Entry m
      → All (Fits (others s e m)) (map as_interval (overlapping s e m))
  unfolding overlapping others
  overlapping-Fits lo [] c a = tt
  overlapping-Fits lo ((k, r) ∷ m) c a = elim (Bool-cases (overlaps s e r)) [
    | inl t ↦
        rw t
          (others_after r.start r.end r.end m (omega arith) c.2, overlapping-Fits r.end m c.2 a.1)
    | inr f ↦
        rw f (extend _ (overlapping_starts r.end m c.2 a.1) (overlapping-Fits r.end m c.2 a.1))
  ]
    where
      extend :
          (is : List Interval)
          → All (λ i. r.end ≤ i.start) is
          → All (Fits (others s e m)) is
          → All (Fits ((k, r) ∷ others s e m)) is
      extend [] h f = tt
      extend (i ∷ is) h f = ((inr h.0, f.0), extend is h.1 f.1)
