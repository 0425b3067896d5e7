-- ===== src/Router/Cache/Lru/History.antt =====
-- `LRUCache` against a plain memory of what was put: sequences of calls on one cache.
use qbox.Base.{
  ℕ, suc, ◌<◌, ◌≤◌, ◌≡◌, ◌≢◌, ◌⊎◌, refl, sym, ap, ◌∙◌, inl, inr, false, List, [], ◌∷◌, Option, none,
  some, arith, Bool-cases, length, leb, ◌==◌, if◌then◌else◌, some_injective,
}
use mathlib.Core.Path.{subst}
use qbox.Router.Target.{Target}
use qbox.Router.Cache.Lru.{
  Node, LruCache, capacity, pop_back, map_set, evicted, inserted, put, clear, Op, gets, puts,
  clears, answered, then_run, run, new_cache,
}
use qbox.Router.Cache.Lru.Live.{Holds, Looks, get-Looks, put-Holds, clear-Holds}

-- What was put last for each key since the last `clear`.
abbrev pub Puts : Type 0
Puts = ℕ → Option (Option Target)

abbrev pub with_put : ℕ → Option Target → Puts → Puts
with_put key value f k = if k == key then some value else f k

-- An answer for a key, after `n` calls of `put` since the last `clear`, where `last` is the key that
-- was put or hit last: a hit has what was put last; a miss is no call for the key `last`, and if it
-- is one for a key that was put, there were more calls of `put` than the cache has room for.
abbrev pub Answer : Puts → Option ℕ → ℕ → ℕ → Option (Option Target) → Type 0
Answer f last n key (some v) = f key ≡ some v
Answer f last n key none = (last ≢ some key) × ((f key ≡ none) ⊎ (capacity < n))

abbrev pub last_after : Option ℕ → ℕ → Option (Option Target) → Option ℕ
last_after last key none = last
last_after last key (some v) = some key

abbrev pub Answers : Puts → Option ℕ → ℕ → List Op → List (Option (Option Target)) → Type 0
Answers f last n [] [] = Unit
Answers f last n [] (r ∷ rs) = ⊥
Answers f last n (gets key ∷ os) [] = ⊥
Answers f last n (gets key ∷ os) (r ∷ rs) =
    Answer f last n key r × Answers f (last_after last key r) n os rs
Answers f last n (puts key value size ∷ os) rs =
    Answers (with_put key value f) (some key) (suc n) os rs
Answers f last n (clears ∷ os) rs = Answers (λ k. none) none 0 os rs

-- The cache after such calls.
record Follows (f : Puts) (last : Option ℕ) (n : ℕ) (c : LruCache) : Type 0 where
  pub holds : Holds (λ k v. f k ≡ some v) c
  pub short : length c.m_list ≤ n
  pub last_in : (k : ℕ) → last ≡ some k → (i : ℕ) × (c.m_map k ≡ some i)
  pub all_in :
      (k : ℕ) (v : Option Target) → n ≤ capacity → f k ≡ some v → (i : ℕ) × (c.m_map k ≡ some i)

nothing_there : {A B : Type 0} {x : A} → none ≡ some x → B
nothing_there h = absurd (cc)

length-pop_back : (ns : List Node) → length (pop_back ns) ≤ length ns
unfolding pop_back
length-pop_back [] = omega arith
length-pop_back (n ∷ []) = omega arith
length-pop_back (n ∷ m ∷ ns) = omega (arith, length-pop_back (m ∷ ns))

length-evicted :
    (c : LruCache) (ns : List Node) → c.m_list ≡ ns → length (evicted c ns).m_list ≤ length ns
length-evicted c [] e = omega (arith, ap length e)
length-evicted c (n ∷ ns) e = length-pop_back (n ∷ ns)

put_short :
    (key size n : ℕ) (value : Option Target) (c : LruCache)
    → length c.m_list ≤ n
    → length (put key value size c).m_list ≤ suc n
unfolding put
put_short key size n value c h = elim (Bool-cases (leb capacity (length c.m_list))) [
  | inl full ↦ rw full (omega (arith, length-evicted c c.m_list refl, h))
  | inr room ↦ rw room (omega (arith, h))
]

map_set_self : (key k i : ℕ) (m : ℕ → Option ℕ) → key ≡ k → map_set key i m k ≡ some i
map_set_self key k i m e = ground (arith, e)

put_in :
    (key size k : ℕ) (value : Option Target) (c : LruCache)
    → key ≡ k
    → (i : ℕ) × ((put key value size c).m_map k ≡ some i)
unfolding put
put_in key size k value c e = elim (Bool-cases (leb capacity (length c.m_list))) [
  | inl full ↦
      let d = evicted c c.m_list in
      (
        d.next,
        ap (λ z. (inserted key value (if z then d else c)).m_map k) full
            ∙ map_set_self key k d.next d.m_map e,
      )
  | inr room ↦ (
    c.next,
    ap (λ z. (inserted key value (if z then evicted c c.m_list else c)).m_map k) room
        ∙ map_set_self key k c.next c.m_map e,
  )
]

-- Where there is room, the other keys stay.
put_keeps :
    (key size k i : ℕ) (value : Option Target) (c : LruCache)
    → length c.m_list < capacity
    → (k == key) ≡ false
    → c.m_map k ≡ some i
    → (put key value size c).m_map k ≡ some i
unfolding put
put_keeps key size k i value c h other e =
    let room : leb capacity (length c.m_list) ≡ false = ground (arith, h) in
    ap (λ z. (inserted key value (if z then evicted c c.m_list else c)).m_map k) room
    ∙ ap (λ z. if z then some c.next else c.m_map k) other
    ∙ e

put-Follows :
    (key size : ℕ) (value : Option Target) (f : Puts) (last : Option ℕ) (n : ℕ) (c : LruCache)
    → Follows f last n c
    → Follows (with_put key value f) (some key) (suc n) (put key value size c)
put-Follows key size value f last n c h = record {
  holds =
      put-Holds (λ k v. f k ≡ some v) (λ k v. with_put key value f k ≡ some v) key value
        (ground arith) (λ k v other e. ground (arith, other, e)) c size h.holds;
  short = put_short key size n value c h.short;
  last_in = λ k e. put_in key size k value c (some_injective e);
  all_in = λ k v room e. elim (Bool-cases (k == key)) [
    | inl same ↦ put_in key size k value c (ground (arith, same))
    | inr other ↦
        let (i, g) =
          h.all_in k v (omega (arith, room))
            (sym (ap (λ z. if z then some value else f k) other) ∙ e) in
        (i, put_keeps key size k i value c (omega (arith, room, h.short)) other g)
  ];
}

empty-Follows :
    (c : LruCache)
    → Holds (λ k v. none ≡ some v) c
    → length c.m_list ≡ 0
    → Follows (λ k. none) none 0 c
empty-Follows c h e = record {
  holds = h;
  short = omega (arith, e);
  last_in = λ k g. nothing_there g;
  all_in = λ k v room g. nothing_there g;
}

clear-Follows : (c : LruCache) → Follows (λ k. none) none 0 (clear c)
unfolding clear
clear-Follows c = empty-Follows (clear c) (clear-Holds (λ k v. none ≡ some v) c) refl

-- After a `get` with this answer.
look-Follows :
    (f : Puts) (last : Option ℕ) (n key : ℕ) (c : LruCache)
    → Follows f last n c
    → (l : Looks (λ k v. f k ≡ some v) c key)
    → Answer f last n key l.answer × Follows f (last_after last key l.answer) n l.after
look-Follows f last n key c h l = elim l.verdict [
  | inl (missing, e) ↦ (
    subst (Answer f last n key) (sym e) (not_last missing, unless missing (f key) refl),
    subst (λ z. Follows f (last_after last key z) n l.after) (sym e)
        (follows last (λ k g. h.last_in k g)),
  )
  | inr (v, i, present, e, p) ↦ (
    subst (Answer f last n key) (sym e) p,
    subst (λ z. Follows f (last_after last key z) n l.after) (sym e)
        (follows (some key) (λ k g. (i, ap c.m_map (sym (some_injective g)) ∙ present))),
  )
]
  where
    not_last : c.m_map key ≡ none → last ≡ some key → ⊥
    not_last missing e = let (i, g) = h.last_in key e in nothing_there (sym missing ∙ g)

    unless :
        c.m_map key ≡ none
        → (o : Option (Option Target)) → f key ≡ o
        → (f key ≡ none) ⊎ (capacity < n)
    unless missing none e = inl e
    unless missing (some v) e = elim (Bool-cases (leb n capacity)) [
      | inl room ↦
          let (i, g) = h.all_in key v (ground (arith, room)) e in nothing_there (sym missing ∙ g)
      | inr full ↦ inr (ground (arith, full))
    ]

    follows :
        (o : Option ℕ)
        → ((k : ℕ) → o ≡ some k → (i : ℕ) × (c.m_map k ≡ some i))
        → Follows f o n l.after
    follows o g = record {
      holds = l.holds;
      short = omega (arith, l.same_length, h.short);
      last_in = λ k e. let (i, q) = g k e in (i, ap (λ m. m k) l.same_map ∙ q);
      all_in = λ k v room e. let (i, q) = h.all_in k v room e in (i, ap (λ m. m k) l.same_map ∙ q);
    }

run-Follows :
    (os : List Op) (f : Puts) (last : Option ℕ) (n : ℕ) (c : LruCache)
    → Follows f last n c
    → (rs : List (Option (Option Target))) × (c' : LruCache) × (run os c ≡ some (rs, c'))
      × Answers f last n os rs
unfolding run
run-Follows [] f last n c h = ([], c, refl, tt)
run-Follows (gets key ∷ os) f last n c h =
    let l = get-Looks (λ k v. f k ≡ some v) c key h.holds in
    let (a, h') = look-Follows f last n key c h l in
    let (rs, c', e, fits) = run-Follows os f (last_after last key l.answer) n l.after h' in
    (l.answer ∷ rs, c', ap (then_run (run os)) l.runs ∙ ap (answered l.answer) e, (a, fits))
run-Follows (puts key value size ∷ os) f last n c h =
    run-Follows os (with_put key value f) (some key) (suc n) (put key value size c)
      (put-Follows key size value f last n c h)
run-Follows (clears ∷ os) f last n c h =
    run-Follows os (λ k. none) none 0 (clear c) (clear-Follows c)

-- Any sequence of calls on a new cache is defined: no iterator of the map ever leads to an entry that
-- is gone. A lookup that hits returns what was put last for its key since the last clearing; one
-- that misses is not for the key that was put or hit last, and it is for a key that was put only
-- after more insertions since the last clearing than the cache has room for, which is 65536.
pub run-Answers :
    (os : List Op)
    → (rs : List (Option (Option Target))) × (c' : LruCache) × (run os new_cache ≡ some (rs, c'))
      × Answers (λ k. none) none 0 os rs
run-Answers os =
    run-Follows os (λ k. none) none 0 new_cache
      (empty-Follows new_cache
        (record { live = λ k i e. nothing_there e; older = λ k i e. nothing_there e }) refl)
