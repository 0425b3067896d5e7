-- ===== src/Router/AddressMap.antt =====
-- `router::addressMap`: `split_and_resolve`, `add`, `find` and `find_region`.
pub mod Segments
pub mod Walk
pub mod Resolve
pub mod Winner
pub mod Shadow
pub mod Lookup
pub mod Split
pub mod Boundaries
use qbox.Base.{
  ℕ, zero, suc, ◌-◌, Bool, true, false, ◌&&◌, not, List, [], ◌∷◌, map, Option, none, some, ltb,
  get_elem?, leb, ◌==◌, if◌then◌else◌,
}
use qbox.Base.Word.{word_max}
use qbox.Base.OrdMap.{Map, emplace, erase, upper_bound, before, set_insert}
use qbox.Router.Target.{Target, end_address}

-- `Region`: the addresses from `start` up to `end`, which is not among them.
pub record Region : Type 0 where
  pub start : ℕ
  pub end : ℕ
  pub target : Target

-- `Interval`: a region with the priority of its target.
pub record Interval : Type 0 where
  pub start : ℕ
  pub end : ℕ
  pub target : Target
  pub priority : ℕ

abbrev pub interval : ℕ → ℕ → Target → Interval
interval s e t = record { start = s; end = e; target = t; priority = t.priority }

abbrev pub uint32_max : ℕ
uint32_max = 4294967295

abbrev pub overlaps : ℕ → ℕ → Region → Bool
overlaps new_start new_end r = ltb r.start new_end && ltb new_start r.end

-- Step 1: the entries that meet the new range, in the order of the map.
unfoldable pub overlapping : ℕ → ℕ → Map Region → Map Region
overlapping s e [] = []
overlapping s e ((k, r) ∷ m) =
    let rest = overlapping s e m in if overlaps s e r then (k, r) ∷ rest else rest

-- Step 2: those entries leave the map.
unfoldable pub erase_all : Map Region → Map Region → Map Region
erase_all [] m = m
erase_all ((k, r) ∷ ks) m = erase_all ks (erase k m)

-- Step 3: the new range first, then the ranges that it meets.
unfoldable pub intervals : ℕ → ℕ → Target → Map Region → List Interval
intervals s e t m = interval s e t ∷ map (λ p. interval p.1.start p.1.end p.1.target) m

-- Step 4: the ends of the intervals.
unfoldable pub insert_boundaries : List Interval → List ℕ → List ℕ
insert_boundaries [] bs = bs
insert_boundaries (i ∷ is) bs = insert_boundaries is (set_insert i.end (set_insert i.start bs))

-- Step 5: of the intervals that cover a segment the one with the lowest number wins; of equal
-- ones the first. `best` and `priority` are the loop's variables.
abbrev pub covers : ℕ → ℕ → Interval → Bool
covers s e i = leb i.start s && leb e i.end

unfoldable pub best_target : List Interval → ℕ → ℕ → Option Target → ℕ → Option Target
best_target [] s e best priority = best
best_target (i ∷ is) s e best priority =
    let wins = covers s e i && ltb i.priority priority in
    best_target is s e (if wins then some i.target else best)
      (if wins then i.priority else priority)

unfoldable pub add_segment : ℕ → ℕ → Option Target → Map Region → Map Region
add_segment s e none m = m
add_segment s e (some t) m = emplace s (record { start = s; end = e; target = t }) m

-- The walk over the boundaries after `s`.
unfoldable pub add_segments : List Interval → ℕ → List ℕ → Map Region → Map Region
add_segments is s [] m = m
add_segments is s (e ∷ bs) m =
    add_segments is e bs (add_segment s e (best_target is s e none uint32_max) m)

unfoldable pub process : List Interval → List ℕ → Map Region → Map Region
process is [] m = m
process is (b ∷ bs) m = add_segments is b bs m

unfoldable pub split_and_resolve : ℕ → ℕ → Target → Map Region → Map Region
unfolding overlapping erase_all intervals insert_boundaries process
split_and_resolve new_start new_end new_target m =
    let hit = overlapping new_start new_end m in
    let is = intervals new_start new_end new_target hit in
    process is (insert_boundaries is []) (erase_all hit m)

-- Step 6: an interval is reported if no region of the final map that meets it has its target.
unfoldable pub completely_shadowed : Interval → Map Region → Bool
completely_shadowed i [] = true
completely_shadowed i ((k, r) ∷ m) =
    if (r.target.ref == i.target.ref) && overlaps i.start i.end r
    then false
    else completely_shadowed i m

unfoldable pub shadow_warnings : ℕ → ℕ → Target → List Interval → Map Region → List Interval
shadow_warnings s e t [] m = []
shadow_warnings s e t (i ∷ is) m =
    let rest = shadow_warnings s e t is m in
    if (i.start == s) && (i.end == e) && (i.target.ref == t.ref)
    then rest
    else if completely_shadowed i m
    then i ∷ rest
    else rest

-- `add`, without the cache: `end_address` wraps as the code's sum does.
unfoldable pub add : Target → Map Region → Map Region
unfolding split_and_resolve
add t m = split_and_resolve t.address (end_address t) t m

-- The warnings that `add` reports.
unfoldable pub add_warnings : Target → Map Region → List Interval
unfolding add overlapping intervals shadow_warnings
add_warnings t m =
    shadow_warnings t.address (end_address t) t
      (intervals t.address (end_address t) t (overlapping t.address (end_address t) m)) (add t m)

-- `it` stands one past the entry that may hold the address.
abbrev pub search_at : ℕ → Option (ℕ × Region) → Option Target
search_at address none = none
search_at address (some e) =
    if leb e.1.start address && ltb address e.1.end then some e.1.target else none

-- The slow path of `find`.
unfoldable pub search_map : Map Region → ℕ → Option Target
search_map m address = search_at address (before (upper_bound address m) m)

-- The two addresses that `find_region` sets in its `tlm_dmi`.
pub record Bounds : Type 0 where
  pub first : ℕ
  pub last : ℕ

abbrev pub hole_start : ℕ → Option (ℕ × Region) → ℕ
hole_start addr none = 0
hole_start addr (some e) = if leb e.1.end addr then e.1.end else 0

abbrev pub hole_end : Option (ℕ × Region) → ℕ
hole_end none = word_max
hole_end (some e) = e.1.start

abbrev pub hole : ℕ → ℕ → Bounds
hole first end = record { first = first; last = if end == 0 then 0 else end - 1 }

abbrev pub region_at : ℕ → Option (ℕ × Region) → Option (ℕ × Region) → Option Target × Bounds
region_at addr none next = (none, hole 0 (hole_end next))
region_at addr (some e) next =
    if leb e.1.start addr && ltb addr e.1.end
    then (some e.1.target, record { first = e.1.start; last = e.1.end - 1 })
    else (none, hole (hole_start addr (some e)) (hole_end next))

unfoldable pub find_region : Map Region → ℕ → Option Target × Bounds
find_region m addr =
    region_at addr (before (upper_bound addr m) m) (get_elem? m (upper_bound addr m))
