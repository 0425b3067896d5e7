-- ===== src/Router/AddressMap/Segments.antt =====
-- Step 5 of `split_and_resolve`: the segments between the boundaries, and who wins there.
use qbox.Base.{
  ℕ, ◌≤◌, ◌<◌, ◌≡◌, refl, ◌⊎◌, inl, inr, ◌&&◌, List, [], ◌∷◌, Option, none, some, max, arith, All,
  Bool-cases, ltb, leb, if◌then◌else◌,
}
use mathlib.Core.Option
use qbox.Base.OrdMap.{Map}
use qbox.Base.Intervals.{Free, Free-mono, locate}
use qbox.Router.Target.{Target}
use qbox.Router.AddressMap.{Region, Interval, covers, best_target, uint32_max}

abbrev pub stop : Region → ℕ
stop r = r.end

-- The target of the region that holds an address, by a plain search.
unfoldable pub owner : ℕ → Map Region → Option Target
owner x m = Option.map (λ e. e.1.target) (locate stop x m)

-- The entry's key is its region's start, and no target has the number that never wins.
abbrev pub Entry : ℕ × Region → Type 0
Entry p = (p.0 ≡ p.1.start) × (p.1.target.priority < uint32_max)

-- The code's loop over the intervals, for one address instead of a segment.
unfoldable pub best_at : List Interval → ℕ → Option Target → ℕ → Option Target
best_at [] x best priority = best
best_at (i ∷ is) x best priority =
    let wins = (leb i.start x && ltb x i.end) && ltb i.priority priority in
    best_at is x (if wins then some i.target else best) (if wins then i.priority else priority)

pub best_at_outside :
    (is : List Interval) (x : ℕ) (best : Option Target) (p : ℕ)
    → All (λ i. (i.end ≤ x) ⊎ (x < i.start)) is
    → best_at is x best p ≡ best
unfolding best_at
best_at_outside [] x best p h = refl
best_at_outside (i ∷ is) x best p h = ground (arith, best_at_outside is x best p h.1)

-- No interval begins or ends strictly within the segment.
abbrev pub Uncut : ℕ → ℕ → Interval → Type 0
Uncut s e i = ((i.start ≤ s) ⊎ (e ≤ i.start)) × ((i.end ≤ s) ⊎ (e ≤ i.end))

pub best_target-eq-at :
    (is : List Interval) (s e x : ℕ) (best : Option Target) (p : ℕ)
    → s ≤ x
    → x < e
    → All (Uncut s e) is
    → best_target is s e best p ≡ best_at is x best p
unfolding best_target best_at
best_target-eq-at [] s e x best p h k u = refl
best_target-eq-at (i ∷ is) s e x best p h k u =
    let same : (covers s e i && ltb i.priority p)
        ≡ ((leb i.start x && ltb x i.end) && ltb i.priority p) =
      ground arith in
    rw same (best_target-eq-at is s e x _ _ h k u.1)

-- Of each interval the part from `a` on is free in the map.
abbrev pub Room : ℕ → Map Region → Interval → Type 0
Room a m i = Free stop (max a i.start) i.end m

-- A segment that an interval wins is free.
pub best-Free :
    (is : List Interval) (s e : ℕ) (best : Option Target) (p : ℕ) (t : Target) (m : Map Region)
    → (best ≡ none) ⊎ Free stop s e m
    → All (Room s m) is
    → best_target is s e best p ≡ some t
    → Free stop s e m
unfolding best_target
best-Free [] s e best p t m (inl e') r h = absurd (ground arith)
best-Free [] s e best p t m (inr f) r h = f
best-Free (i ∷ is) s e best p t m d r h = elim (Bool-cases (covers s e i && ltb i.priority p)) [
  | inl w ↦
      best-Free is s e (some i.target) i.priority t m
        (inr (Free-mono stop m (ground arith) (ground arith) r.0)) r.1 (rw w at h)
  | inr l ↦ best-Free is s e best p t m d r.1 (rw l at h)
]

-- A winner's priority is below the bound that it had to beat.
pub best_priority :
    (is : List Interval) (s e : ℕ) (best : Option Target) (p : ℕ) (t : Target)
    → All (λ i. i.priority ≡ i.target.priority) is
    → (best ≡ none) ⊎ ((u : Target) × (best ≡ some u) × (u.priority < uint32_max))
    → p ≤ uint32_max
    → best_target is s e best p ≡ some t
    → t.priority < uint32_max
unfolding best_target
best_priority [] s e best p t q (inl e') b h = absurd (ground arith)
best_priority [] s e best p t q (inr (u, e', k)) b h = ground arith
best_priority (i ∷ is) s e best p t q d b h = elim (Bool-cases (covers s e i && ltb i.priority p)) [
  | inl w ↦
      best_priority is s e (some i.target) i.priority t q.1 (inr (i.target, refl, ground arith))
        (ground arith) (rw w at h)
  | inr l ↦ best_priority is s e best p t q.1 d b (rw l at h)
]
