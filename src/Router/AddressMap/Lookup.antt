-- ===== src/Router/AddressMap/Lookup.antt =====
-- `find` and `find_region` against the plain search through the map.
use qbox.Base.{
  ℕ, zero, suc, ◌+◌, ◌-◌, ◌≤◌, ◌<◌, ◌≡◌, refl, ◌⊎◌, inl, inr, Option, none, some, arith, All,
  All-get, Option-cases, Bool-cases, get_elem?, ltb, ◌∙◌, ap, sym,
}
use mathlib.Core.Option
use mathlib.Core.Path.{subst}
use qbox.Base.Word.{word_max}
use qbox.Base.OrdMap.{Map, upper_bound, before}
use qbox.Base.Intervals.Locate.{
  floor_entry, floor_entry-eq-locate, locate-elem, elem_stop, before_key, next_key, Behind, Ahead,
  locate-gap,
}
use qbox.Router.Target.{Target}
use qbox.Router.AddressMap.{Region, Bounds, hole, hole_end, search_map, find_region, region_at}
use qbox.Router.AddressMap.Segments.{stop, owner, Entry}
use qbox.Router.AddressMap.Resolve.{IsValid}

before_elem :
    (i : ℕ) (m : Map Region) (e : ℕ × Region)
    → before i m ≡ some e
    → (j : ℕ) × (get_elem? m j ≡ some e)
before_elem zero m e g = cc
before_elem (suc i) m e g = (i, g)

before-Entry :
    (i : ℕ) (m : Map Region) (e : ℕ × Region) → All Entry m → before i m ≡ some e → Entry e
before-Entry zero m e a g = cc
before-Entry (suc i) m e a g = All-get Entry m i e a g

search_map-floor :
    (m : Map Region) (a : ℕ)
    → All Entry m
    → search_map m a ≡ Option.map (λ e. e.1.target) (floor_entry stop a m)
unfolding search_map floor_entry
search_map-floor m a h = elim (Option-cases (before (upper_bound a m) m)) [
  | inl n ↦ rw n
  | inr (e, g) ↦ rw (g) (ground (arith, before-Entry (upper_bound a m) m e h g))
]

-- The binary search of `find` returns the target whose region holds the address, and nothing
-- where there is none.
pub search_map-owner : (m : Map Region) (a : ℕ) → IsValid m → search_map m a ≡ owner a m
unfolding owner
search_map-owner m a v =
    search_map-floor m a v.entries ∙ rw (floor_entry-eq-locate stop 0 a m v.chain)

-- What `find_region` answers at a mapped address: bounds within which the target has every
-- address, the one that was asked for among them.
pub record IsSegment (m : Map Region) (addr : ℕ) (t : Target) (b : Bounds) : Type 0 where
  pub lower : b.first ≤ addr
  pub upper : addr ≤ b.last
  pub owned : (x : ℕ) → b.first ≤ x → x ≤ b.last → owner x m ≡ some t

-- And at an unmapped one: bounds without a mapped address, as wide as they can be. Only the
-- greatest address may lie outside them.
pub record IsHole (m : Map Region) (addr : ℕ) (b : Bounds) : Type 0 where
  pub lower : b.first ≤ addr
  pub upper : (addr ≤ b.last) ⊎ (word_max ≤ addr)
  pub unmapped : (x : ℕ) → b.first ≤ x → x ≤ b.last → owner x m ≡ none
  pub widest_down : (b.first ≡ 0) ⊎ ((t : Target) × (owner (b.first - 1) m ≡ some t))
  pub widest_up : (b.last + 1 ≡ word_max) ⊎ ((t : Target) × (owner (b.last + 1) m ≡ some t))

abbrev pub Answers : Map Region → ℕ → Option Target × Bounds → Type 0
Answers m addr (none, b) = IsHole m addr b
Answers m addr (some t, b) = IsSegment m addr t b

module _ (m : Map Region) (addr : ℕ) (v : IsValid m) where
  owner-elem :
      (x j : ℕ) (e : ℕ × Region)
      → get_elem? m j ≡ some e
      → e.0 ≤ x
      → x < e.1.end
      → owner x m ≡ some e.1.target
  unfolding owner
  owner-elem x j e g h k = rw ((locate-elem stop 0 x j m e v.chain g h k).0)

  hole-unmapped :
      (x : ℕ)
      → Behind stop x (before (upper_bound addr m) m)
      → Ahead stop x (get_elem? m (upper_bound addr m))
      → owner x m ≡ none
  unfolding owner
  hole-unmapped x h k = rw (locate-gap stop 0 addr x m v.chain h k)

  -- The bounds of a hole, below and above.
  abbrev Down : ℕ → Type 0
  Down s =
      (s ≤ addr)
      × ((x : ℕ) → s ≤ x → Behind stop x (before (upper_bound addr m) m))
      × ((s ≡ 0) ⊎ ((t : Target) × (owner (s - 1) m ≡ some t)))

  abbrev Up : ℕ → Type 0
  Up h =
      (0 < h)
      × ((addr < h) ⊎ (word_max ≤ addr))
      × ((x : ℕ) → x < h → Ahead stop x (get_elem? m (upper_bound addr m)))
      × ((h ≡ word_max) ⊎ ((t : Target) × (owner h m ≡ some t)))

  Down-none : before (upper_bound addr m) m ≡ none → Down 0
  Down-none n = rw n (omega arith, (λ x h. tt), inl refl)

  Down-some :
      (e : ℕ × Region) → before (upper_bound addr m) m ≡ some e → e.1.end ≤ addr → Down e.1.end
  Down-some e g h =
      let (j, at_j) = before_elem (upper_bound addr m) m e g in
      let w = elem_stop stop 0 j m e v.chain at_j in
      (
        h,
        rw g (λ x k. k),
        inr (e.1.target, owner-elem (e.1.end - 1) j e at_j (omega arith) (omega arith)),
      )

  Up-some : (e : ℕ × Region) → get_elem? m (upper_bound addr m) ≡ some e → Up e.1.start
  Up-some e g =
      let w = elem_stop stop 0 (upper_bound addr m) m e v.chain g in
      let n = next_key stop addr m e g in
      let k = All-get Entry m (upper_bound addr m) e v.entries g in
      (
        omega arith,
        inl (omega arith),
        (λ x h. rw g (omega arith)),
        inr (e.1.target, owner-elem e.1.start (upper_bound addr m) e g (omega arith) (omega arith)),
      )

  up : Up (hole_end (get_elem? m (upper_bound addr m)))
  up = elim (Option-cases (get_elem? m (upper_bound addr m))) [
    | inl n ↦ rw n (omega arith, omega arith, (λ x h. tt), inl refl)
    | inr (e, g) ↦ rw (ap hole_end g) (Up-some e g)
  ]

  is_hole : (s h : ℕ) → Down s → Up h → IsHole m addr (hole s h)
  is_hole s h d u = rw last (record {
    lower = d.0;
    upper = ground (arith, u.0, u.1);
    unmapped = λ x a b. hole-unmapped x (d.1 x a) (u.2 x (omega (arith, u.0)));
    widest_down = d.2;
    widest_up = rw next u.3;
  })
    where
      last : hole s h ≡ record { first = s; last = h - 1 }
      last = ground (arith, u.0)

      next : h - 1 + 1 ≡ h
      next = omega (arith, u.0)

  pub find_region_lem : Answers m addr (find_region m addr)
  unfolding find_region
  find_region_lem = elim (Option-cases (before (upper_bound addr m) m)) [
    | inl n ↦ rw (n, region_at) (is_hole 0 _ (Down-none n) up)
    | inr (e, g) ↦ rw (g, region_at) (split e g)
  ]
    where
      split :
          (e : ℕ × Region)
          → before (upper_bound addr m) m ≡ some e
          → Answers m addr (region_at addr (some e) (get_elem? m (upper_bound addr m)))
      split e g =
          let (j, at_j) = before_elem (upper_bound addr m) m e g in
          let k = All-get Entry m j e v.entries at_j in
          let w = elem_stop stop 0 j m e v.chain at_j in
          let b = before_key stop addr m e g in
          elim (Bool-cases (ltb addr e.1.end)) [
            | inl l ↦
                let inside : region_at addr (some e) (get_elem? m (upper_bound addr m))
                    ≡ (some e.1.target, record { first = e.1.start; last = e.1.end - 1 }) =
                  ground arith in
                subst (Answers m addr) (sym inside) (record {
                  lower = omega arith;
                  upper = ground arith;
                  owned = λ x a c. owner-elem x j e at_j (omega arith) (omega arith);
                })
            | inr l ↦
                let past : region_at addr (some e) (get_elem? m (upper_bound addr m))
                    ≡ (none, hole e.1.end (hole_end (get_elem? m (upper_bound addr m)))) =
                  ground arith in
                subst (Answers m addr) (sym past)
                  (is_hole e.1.end _ (Down-some e g (ground arith)) up)
          ]
