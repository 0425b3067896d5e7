-- ===== src/Router/AddressMap/Resolve.antt =====
-- `split_and_resolve` and `add` against what they are for: at each address the new target is
-- compared with the one that had the address, and the map stays in order.
use qbox.Base.{
  ℕ, ◌<◌, ◌≡◌, refl, ◌∙◌, inl, inr, Bool, ◌&&◌, List, [], ◌∷◌, map, Option, none, some, arith, All,
  Option-cases, or_else, ltb, leb, if◌then◌else◌,
}
use qbox.Base.OrdMap.{Map}
use qbox.Base.Intervals.{Chain, locate, locate_below}
use qbox.Router.Target.{Target}
use qbox.Router.AddressMap.{
  Region, Interval, overlapping, intervals, insert_boundaries, process, split_and_resolve,
  uint32_max,
}
use qbox.Router.AddressMap.Segments.{stop, owner, Entry, best_at}
use qbox.Router.AddressMap.Walk.{Ranked, process_end, owner-process, owner-Free}
use qbox.Router.AddressMap.Boundaries.{insert_boundaries-IsSorted, insert_boundaries-Ends}
use qbox.Router.AddressMap.Split.{
  as_interval, others, overlapping-Chain, others-Chain, overlapping-Entry, others-Entry,
  erase_all-overlapping, others-Free, overlapping-Fits,
}

-- Regions in order without overlap, keyed by their starts, each with a target that can win.
pub record IsValid (m : Map Region) : Type 0 where
  pub chain : Chain stop 0 m
  pub entries : All Entry m

-- Which target an address gets when `t` comes with the range [s, e): of two the one with the
-- lower number, and `t` if these are equal.
abbrev pub prefer : ℕ → ℕ → Target → ℕ → Option Target → Option Target
prefer s e t x old =
    if (leb s x && ltb x e) && ltb t.priority uint32_max
    then elim old [ none ↦ some t | some u ↦ if ltb u.priority t.priority then some u else some t ]
    else old

abbrev pick : Option Target → Option Target → ℕ → Option Target
pick none best p = best
pick (some u) best p = if ltb u.priority p then some u else best

pub owner_below : (x lo : ℕ) (m : Map Region) → Chain stop lo m → x < lo → owner x m ≡ none
unfolding owner
owner_below x lo m c h = rw (locate_below stop x m c h)

best_at-pick :
    (x lo : ℕ) (h : Map Region) (best : Option Target) (p : ℕ)
    → Chain stop lo h
    → All Entry h
    → best_at (map as_interval h) x best p ≡ pick (owner x h) best p
unfolding best_at owner locate
best_at-pick x lo [] best p c a = refl
best_at-pick x lo ((k, r) ∷ h) best p c a =
    let wins = (leb r.start x && ltb x r.end) && ltb r.target.priority p in
    best_at-pick x r.end h (if wins then some r.target else best)
      (if wins then r.target.priority else p) c.2 a.1
    ∙ ground (arith, locate_below stop {lo = r.end} x h c.2)

owner-split :
    (s e x lo : ℕ) (m : Map Region)
    → Chain stop lo m
    → owner x m ≡ or_else (owner x (overlapping s e m)) (owner x (others s e m))
unfolding owner locate overlapping others
owner-split s e x lo [] c = refl
owner-split s e x lo ((k, r) ∷ m) c = ground (
  arith,
  owner-split s e x r.end m c.2,
  locate_below stop {lo = r.end} x (overlapping s e m) (overlapping-Chain s e r.end m c.2),
)

owner_priority :
    (x : ℕ) (m : Map Region) (u : Target)
    → All Entry m
    → owner x m ≡ some u
    → u.priority < uint32_max
unfolding owner locate
owner_priority x [] u a h = cc
owner_priority x ((k, r) ∷ m) u a h = ground (arith, owner_priority x m u a.1)

ranked : (h : Map Region) → All Ranked (map as_interval h)
ranked [] = tt
ranked (p ∷ h) = (refl, ranked h)

-- The loop over the intervals, then what stayed in the map.
resolved :
    (s e : ℕ) (t : Target) (m : Map Region) (x : ℕ)
    → IsValid m
    → or_else
        (best_at (intervals s e t (overlapping s e m)) x none uint32_max)
        (owner x (others s e m))
      ≡ prefer s e t x (owner x m)
unfolding intervals best_at
resolved s e t m x v = ground (
  arith,
  best_at-pick x 0 hit (if wins then some t else none) (if wins then t.priority else uint32_max)
      (overlapping-Chain s e 0 m v.chain) (overlapping-Entry s e m v.entries),
  owner-split s e x 0 m v.chain,
  low,
  owner-Free x s e (others s e m),
  others-Free s e m v.entries,
)
  where
    hit : Map Region
    hit = overlapping s e m

    wins : Bool
    wins = (leb s x && ltb x e) && ltb t.priority uint32_max

    low : pick (owner x hit) none uint32_max ≡ owner x hit
    low = elim (Option-cases (owner x hit)) [
      | inl n ↦ rw n
      | inr (u, h) ↦
          rw h (ground (arith, owner_priority x hit u (overlapping-Entry s e m v.entries) h))
    ]

module _ (s e : ℕ) (t : Target) (m : Map Region) (v : IsValid m) where
  abbrev all : List Interval
  all = intervals s e t (overlapping s e m)

  pub split_and_resolve-owner :
      (x : ℕ) → owner x (split_and_resolve s e t m) ≡ prefer s e t x (owner x m)
  unfolding split_and_resolve
  split_and_resolve-owner x = rw (erase_all-overlapping s e 0 m v.chain) (
      owner-process all (insert_boundaries all []) (others s e m) x (refl, ranked _)
        (insert_boundaries-IsSorted all [] tt) (insert_boundaries-Ends all [])
        (others-Chain s e 0 m v.chain)
        (others-Free s e m v.entries, overlapping-Fits s e 0 m v.chain v.entries)
        (others-Entry s e m v.entries)
      ∙ resolved s e t m x v)

  ends :
      Chain stop 0 (process all (insert_boundaries all []) (others s e m))
      × All Entry (process all (insert_boundaries all []) (others s e m))
  unfolding intervals
  ends =
      process_end all (insert_boundaries all []) (others s e m) (refl, ranked _)
        (insert_boundaries-IsSorted all [] tt) (others-Chain s e 0 m v.chain)
        (others-Free s e m v.entries, overlapping-Fits s e 0 m v.chain v.entries)
        (others-Entry s e m v.entries)

  pub split_and_resolve-IsValid : IsValid (split_and_resolve s e t m)
  unfolding split_and_resolve
  split_and_resolve-IsValid =
      rw (erase_all-overlapping s e 0 m v.chain) (record { chain = ends.0; entries = ends.1 })
