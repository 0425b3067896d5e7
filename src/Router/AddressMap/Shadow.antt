-- ===== src/Router/AddressMap/Shadow.antt =====
-- Step 6 of `split_and_resolve`: the regions that are reported as shadowed.
use qbox.Base.{
  ℕ, ◌≤◌, ◌<◌, ◌≡◌, ◌≢◌, inl, inr, true, ◌&&◌, List, [], ◌∷◌, some, arith, All, Bool-cases, ltb,
  leb,
}
use qbox.Base.OrdMap.{Map}
use qbox.Base.Intervals.{locate}
use qbox.Router.Target.{Target, end_address}
use qbox.Router.AddressMap.{
  Region, Interval, completely_shadowed, shadow_warnings, add, add_warnings, intervals, overlapping,
}
use qbox.Router.AddressMap.Segments.{owner, Entry}
use qbox.Router.AddressMap.Resolve.{IsValid}
use qbox.Router.AddressMap.Winner.{add-owner}

-- No address of the interval belongs to its target.
abbrev pub IsLost : Map Region → Interval → Type 0
IsLost m i =
    (x : ℕ) (u : Target) → i.start ≤ x → x < i.end → owner x m ≡ some u → u.ref ≢ i.target.ref

shadowed-IsLost :
    (i : Interval) (m : Map Region) → All Entry m → completely_shadowed i m ≡ true → IsLost m i
unfolding completely_shadowed owner locate
shadowed-IsLost i [] a h x u l k o = absurd (ground (arith, o))
shadowed-IsLost i ((j, r) ∷ m) a h x u l k o = elim (Bool-cases (leb j x && ltb x r.end)) [
  | inl within ↦ ground arith
  | inr outside ↦ shadowed-IsLost i m a.1 (ground arith) x u l k (ground arith)
]

warned-IsLost :
    (s e : ℕ) (t : Target) (is : List Interval) (m : Map Region)
    → All Entry m
    → All (IsLost m) (shadow_warnings s e t is m)
unfolding shadow_warnings
warned-IsLost s e t [] m a = tt
warned-IsLost s e t (i ∷ is) m a = elim (Bool-cases (completely_shadowed i m)) [
  | inl lost ↦ ground (arith, warned-IsLost s e t is m a, shadowed-IsLost i m a lost)
  | inr seen ↦ ground (arith, warned-IsLost s e t is m a)
]

-- Each interval that `add` reports as completely shadowed has no address left in the new map: the
-- target of every address within it is another one.
pub add_warnings-IsLost :
    (t : Target) (m : Map Region) → IsValid m → All (IsLost (add t m)) (add_warnings t m)
unfolding add_warnings
add_warnings-IsLost t m v =
    warned-IsLost t.address (end_address t) t
      (intervals t.address (end_address t) t (overlapping t.address (end_address t) m)) (add t m)
      (add-owner t m 0 v).0.entries
