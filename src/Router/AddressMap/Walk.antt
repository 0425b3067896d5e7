-- ===== src/Router/AddressMap/Walk.antt =====
-- The whole walk of step 5, and the set of boundaries of step 4 that it goes along.
use qbox.Base.{
  ℕ, ◌≤◌, ◌<◌, ◌≡◌, refl, sym, ◌∙◌, ◌⊎◌, inl, inr, ◌&&◌, List, [], ◌∷◌, Option, none, some, arith,
  All, Bool-cases, or_else, ltb, leb, if◌then◌else◌,
}
use qbox.Base.OrdMap.{Map, emplace}
use qbox.Base.Intervals.{Chain, Free, Free-mono, locate-Free}
use qbox.Base.Intervals.Insert.{emplace-Chain, emplace-Free, emplace-All, locate-emplace}
use qbox.Router.Target.{Target}
use qbox.Router.AddressMap.{
  Region, Interval, best_target, add_segment, add_segments, process, uint32_max,
}
use qbox.Router.AddressMap.Segments.{
  stop, owner, Entry, best_at, best_at_outside, Uncut, best_target-eq-at, Room, best-Free,
  best_priority,
}

-- What holds of the map when the walk has come to `a`.
pub record Walk (is : List Interval) (a : ℕ) (m : Map Region) : Type 0 where
  pub chain : Chain stop 0 m
  pub room : All (Room a m) is
  pub entries : All Entry m

pub owner-emplace :
    (x s e : ℕ) (t : Target) (m : Map Region)
    → s < e
    → Free stop s e m
    → Chain stop 0 m
    → owner x (emplace s (record { start = s; end = e; target = t }) m)
      ≡ (if leb s x && ltb x e then some t else owner x m)
unfolding owner
owner-emplace x s e t m h f c =
    rw (locate-emplace stop 0 x s (record { start = s; end = e; target = t }) m h f c)
      (ground arith)

pub owner-Free : (x s e : ℕ) (m : Map Region) → s ≤ x → x < e → Free stop s e m → owner x m ≡ none
unfolding owner
owner-Free x s e m h k f = rw (locate-Free stop x s e m h k f)

Room-emplace :
    (is : List Interval) (a b : ℕ) (t : Target) (m : Map Region)
    → a < b
    → All (Room a m) is
    → All (Room b (emplace a (record { start = a; end = b; target = t }) m)) is
Room-emplace [] a b t m h r = tt
Room-emplace (i ∷ is) a b t m h r = (
  emplace-Free stop _ _ a _ m (inr (omega arith))
      (Free-mono stop m (omega arith) (omega arith) r.0),
  Room-emplace is a b t m h r.1,
)

Room-mono :
    (is : List Interval) (a b : ℕ) (m : Map Region) → a ≤ b → All (Room a m) is → All (Room b m) is
Room-mono [] a b m h r = tt
Room-mono (i ∷ is) a b m h r =
    (Free-mono stop m (omega arith) (omega arith) r.0, Room-mono is a b m h r.1)

-- The intervals carry their targets' priorities.
abbrev pub Ranked : Interval → Type 0
Ranked i = i.priority ≡ i.target.priority

-- One segment.
add_segment-Walk :
    (is : List Interval) (a b : ℕ) (best : Option Target) (m : Map Region)
    → best ≡ best_target is a b none uint32_max
    → a < b
    → All Ranked is
    → Walk is a m
    → Walk is b (add_segment a b best m)
unfolding add_segment
add_segment-Walk is a b none m e h q w = record {
  chain = w.chain;
  room = Room-mono is a b m (omega arith) w.room;
  entries = w.entries;
}
add_segment-Walk is a b (some t) m e h q w = record {
  chain = emplace-Chain stop a _ m (omega arith) h free w.chain;
  room = Room-emplace is a b t m h w.room;
  entries =
      emplace-All stop Entry a _ m
        (refl, best_priority is a b none uint32_max t q (inl refl) (omega arith) (sym e)) w.entries;
}
  where
    free : Free stop a b m
    free = best-Free is a b none uint32_max t m (inl refl) w.room (sym e)

owner-add_segment :
    (is : List Interval) (a b : ℕ) (best : Option Target) (m : Map Region) (x : ℕ)
    → best ≡ best_target is a b none uint32_max
    → a < b
    → Walk is a m
    → owner x (add_segment a b best m)
      ≡ (if leb a x && ltb x b then or_else best (owner x m) else owner x m)
unfolding add_segment
owner-add_segment is a b none m x e h w = ground arith
owner-add_segment is a b (some t) m x e h w =
    owner-emplace x a b t m h (best-Free is a b none uint32_max t m (inl refl) w.room (sym e))
      w.chain

-- The boundaries stand in ascending order.
abbrev pub Ascending : ℕ → List ℕ → Type 0
Ascending a [] = Unit
Ascending a (b ∷ bs) = (a < b) × Ascending b bs

abbrev pub In : ℕ → List ℕ → Type 0
In p [] = ⊥
In p (b ∷ bs) = (p ≡ b) ⊎ In p bs

-- Both ends of an interval are passed already, or lie ahead.
abbrev pub Marks : ℕ → List ℕ → Interval → Type 0
Marks a bs i = ((i.start ≤ a) ⊎ In i.start bs) × ((i.end ≤ a) ⊎ In i.end bs)

In-above : (a p : ℕ) (bs : List ℕ) → Ascending a bs → In p bs → a < p
In-above a p [] c h = elim h [ ]
In-above a p (b ∷ bs) c (inl e) = omega arith
In-above a p (b ∷ bs) c (inr h) = omega (arith, In-above b p bs c.1 h)

Marks-Uncut :
    (a b : ℕ) (bs : List ℕ) (is : List Interval)
    → Ascending a (b ∷ bs)
    → All (Marks a (b ∷ bs)) is
    → All (Uncut a b) is × All (Marks b bs) is
Marks-Uncut a b bs [] c h = (tt, tt)
Marks-Uncut a b bs (i ∷ is) c h =
    let rest = Marks-Uncut a b bs is c h.1 in
    (
      ((point i.start h.0.0, point i.end h.0.1), rest.0),
      ((later i.start h.0.0, later i.end h.0.1), rest.1),
    )
  where
    point : (p : ℕ) → (p ≤ a) ⊎ In p (b ∷ bs) → (p ≤ a) ⊎ (b ≤ p)
    point p (inl k) = inl k
    point p (inr (inl e)) = inr (omega arith)
    point p (inr (inr m)) = inr (omega (arith, In-above b p bs c.1 m))

    later : (p : ℕ) → (p ≤ a) ⊎ In p (b ∷ bs) → (p ≤ b) ⊎ In p bs
    later p (inl k) = inl (omega arith)
    later p (inr (inl e)) = inl (omega arith)
    later p (inr (inr m)) = inr m

passed :
    (is : List Interval) (a x : ℕ)
    → a ≤ x
    → All (Marks a []) is
    → All (λ i. (i.end ≤ x) ⊎ (x < i.start)) is
passed [] a x k h = tt
passed (i ∷ is) a x k h = (inl (omega arith), passed is a x k h.1)

-- An address at or after `a` goes to the interval that wins there, and otherwise stays.
Walk-owner :
    (is : List Interval) (a : ℕ) (bs : List ℕ) (m : Map Region) (x : ℕ)
    → All Ranked is
    → Ascending a bs
    → All (Marks a bs) is
    → Walk is a m
    → owner x (add_segments is a bs m)
      ≡ (if leb a x then or_else (best_at is x none uint32_max) (owner x m) else owner x m)
unfolding add_segments
Walk-owner is a [] m x q c h w = elim (Bool-cases (leb a x)) [
  | inl l ↦ rw (l, best_at_outside is x none uint32_max (passed is a x (ground arith) h))
  | inr l ↦ rw l
]
Walk-owner is a (b ∷ bs) m x q c h w =
    Walk-owner is b bs _ x q c.1 split.1 (add_segment-Walk is a b _ m refl c.0 q w) ∙ joined
  where
    split : All (Uncut a b) is × All (Marks b bs) is
    split = Marks-Uncut a b bs is c h

    joined :
        (if leb b x
          then or_else
              (best_at is x none uint32_max)
              (owner x (add_segment a b (best_target is a b none uint32_max) m))
          else owner x (add_segment a b (best_target is a b none uint32_max) m))
        ≡ (if leb a x then or_else (best_at is x none uint32_max) (owner x m) else owner x m)
    joined = ground (
      arith,
      c.0,
      owner-add_segment is a b (best_target is a b none uint32_max) m x refl c.0 w,
      best_target-eq-at is a b x none uint32_max,
      split.0,
    )

Walk-end :
    (is : List Interval) (a : ℕ) (bs : List ℕ) (m : Map Region)
    → All Ranked is
    → Ascending a bs
    → Walk is a m
    → Chain stop 0 (add_segments is a bs m) × All Entry (add_segments is a bs m)
unfolding add_segments
Walk-end is a [] m q c w = (w.chain, w.entries)
Walk-end is a (b ∷ bs) m q c w = Walk-end is b bs _ q c.1 (add_segment-Walk is a b _ m refl c.0 q w)

-- The set of boundaries as a whole, each interval's ends among them.
abbrev pub IsSorted : List ℕ → Type 0
IsSorted [] = Unit
IsSorted (b ∷ bs) = Ascending b bs

abbrev pub Ends : List ℕ → Interval → Type 0
Ends bs i = In i.start bs × In i.end bs

-- Before the walk the map has room for each interval.
abbrev pub Fits : Map Region → Interval → Type 0
Fits m i = Free stop i.start i.end m

Fits-Room : (is : List Interval) (a : ℕ) (m : Map Region) → All (Fits m) is → All (Room a m) is
Fits-Room [] a m r = tt
Fits-Room (i ∷ is) a m r = (Free-mono stop m (omega arith) (omega arith) r.0, Fits-Room is a m r.1)

pub process_end :
    (is : List Interval) (bs : List ℕ) (m : Map Region)
    → All Ranked is
    → IsSorted bs
    → Chain stop 0 m
    → All (Fits m) is
    → All Entry m
    → Chain stop 0 (process is bs m) × All Entry (process is bs m)
unfolding process
process_end is [] m q s c f e = (c, e)
process_end is (b ∷ bs) m q s c f e =
    Walk-end is b bs m q s (record { chain = c; room = Fits-Room is b m f; entries = e })

starts :
    (is : List Interval) (b x : ℕ) (bs : List ℕ)
    → x < b
    → Ascending b bs
    → All (Ends (b ∷ bs)) is
    → All (λ i. (i.end ≤ x) ⊎ (x < i.start)) is
starts [] b x bs h s e = tt
starts (i ∷ is) b x bs h s e = (inr (omega (arith, first e.0.0)), starts is b x bs h s e.1)
  where
    first : In i.start (b ∷ bs) → b ≤ i.start
    first (inl k) = omega arith
    first (inr m) = omega (arith, In-above b i.start bs s m)

empty : (is : List Interval) (x : ℕ) → All (Ends []) is → best_at is x none uint32_max ≡ none
unfolding best_at
empty [] x e = refl
empty (i ∷ is) x e = absurd e.0.0

pub owner-process :
    (is : List Interval) (bs : List ℕ) (m : Map Region) (x : ℕ)
    → All Ranked is
    → IsSorted bs
    → All (Ends bs) is
    → Chain stop 0 m
    → All (Fits m) is
    → All Entry m
    → owner x (process is bs m) ≡ or_else (best_at is x none uint32_max) (owner x m)
unfolding process
owner-process is [] m x q s e c f n = rw (empty is x e)
owner-process is (b ∷ bs) m x q s e c f n =
    Walk-owner is b bs m x q s (marks is e)
      (record { chain = c; room = Fits-Room is b m f; entries = n })
    ∙ elim (Bool-cases (leb b x)) [
      | inl l ↦ rw l
      | inr l ↦ rw (l, best_at_outside is x none uint32_max (starts is b x bs (ground arith) s e))
    ]
  where
    mark : (p : ℕ) → In p (b ∷ bs) → (p ≤ b) ⊎ In p bs
    mark p (inl k) = inl (omega arith)
    mark p (inr k) = inr k

    marks : (js : List Interval) → All (Ends (b ∷ bs)) js → All (Marks b bs) js
    marks [] h = tt
    marks (j ∷ js) h = ((mark j.start h.0.0, mark j.end h.0.1), marks js h.1)
