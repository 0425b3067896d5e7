-- ===== src/Router/Cache/RegionLru.antt =====
-- `RegionLRUCache` of systemc-components/router/include/addrmap_cache_examples.h: the entries from
-- the least to the most recently used.
use qbox.Base.{
  ℕ, suc, ◌+◌, ◌%◌, ◌^◌, ◌≤◌, ◌<◌, ◌≡◌, refl, ap, inl, inr, Bool, ◌&&◌, List, [], ◌∷◌, ◌++◌, Option,
  none, some, arith, Bool-cases, length, drop, ltb, leb, if◌then◌else◌,
}
use qbox.Router.Target.{Target, end_address}
use qbox.Router.Cache.{Cache}

abbrev pub capacity : ℕ
capacity = 8

-- `CacheEntry`. No null pointer is kept.
pub record CacheEntry : Type 0 where
  pub start : ℕ
  pub end : ℕ
  pub target : Target

pub record RegionLruCache : Type 0 where
  pub entries : List CacheEntry
  pub hits : ℕ
  pub misses : ℕ

-- The last entry that holds the key, and the others.
abbrev pub found_in :
    CacheEntry
    → Bool
    → List CacheEntry
    → Option (CacheEntry × List CacheEntry)
    → Option (CacheEntry × List CacheEntry)
found_in e here es none = if here then some (e, es) else none
found_in e here es (some (f, rest)) = some (f, e ∷ rest)

unfoldable pub take_last : ℕ → List CacheEntry → Option (CacheEntry × List CacheEntry)
take_last key [] = none
take_last key (e ∷ es) = found_in e (leb e.start key && ltb key e.end) es (take_last key es)

-- The counters wrap as `uint64_t`.
abbrev pub count : ℕ → ℕ
count n = (n + 1) % 2 ^ 64

abbrev pub get_found :
    RegionLruCache → Option (CacheEntry × List CacheEntry) → Option (Option Target) × RegionLruCache
get_found c none = (none, record c { misses = count c.misses })
get_found c (some (e, es)) =
    (some (some e.target), record c { entries = es ++ e ∷ []; hits = count c.hits })

unfoldable pub get : RegionLruCache → ℕ → Option (Option Target) × RegionLruCache
get c key = get_found c (take_last key c.entries)

unfoldable pub put : ℕ → Option Target → ℕ → RegionLruCache → RegionLruCache
put key none size c = c
put key (some t) size c =
    let room = if leb capacity (length c.entries) then drop 1 c.entries else c.entries in
    record c {
      entries = room ++ record { start = t.address; end = end_address t; target = t } ∷ [];
    }

unfoldable pub clear : RegionLruCache → RegionLruCache
clear c = record c { entries = [] }

abbrev pub region_lru : Cache
region_lru = record { State = RegionLruCache; get = get; put = put; clear = clear }

length-snoc : (es : List CacheEntry) (e : CacheEntry) → length (es ++ e ∷ []) ≡ suc (length es)
length-snoc [] e = refl
length-snoc (x ∷ es) e = ap suc (length-snoc es e)

abbrev Kept : ℕ → List CacheEntry → Option (CacheEntry × List CacheEntry) → Type 0
Kept key es none = Unit
Kept key es (some (f, rest)) = (length es ≡ suc (length rest)) × (f.start ≤ key) × (key < f.end)

found_in-Kept :
    (key : ℕ) (e : CacheEntry) (es : List CacheEntry) (o : Option (CacheEntry × List CacheEntry))
    → Kept key es o
    → Kept key (e ∷ es) (found_in e (leb e.start key && ltb key e.end) es o)
found_in-Kept key e es (some (f, rest)) k = (ap suc k.0, k.1, k.2)
found_in-Kept key e es none k = elim (Bool-cases (leb e.start key && ltb key e.end)) [
  | inl here ↦ rw here (refl, ground arith, ground arith)
  | inr gone ↦ rw gone tt
]

take_last-Kept : (key : ℕ) (es : List CacheEntry) → Kept key es (take_last key es)
unfolding take_last
take_last-Kept key [] = tt
take_last-Kept key (e ∷ es) = found_in-Kept key e es (take_last key es) (take_last-Kept key es)

-- No more entries than the capacity.
abbrev pub IsBounded : RegionLruCache → Type 0
IsBounded c = length c.entries ≤ capacity

get_found-IsBounded :
    (key : ℕ) (c : RegionLruCache) (o : Option (CacheEntry × List CacheEntry))
    → IsBounded c
    → Kept key c.entries o
    → IsBounded (get_found c o).1
get_found-IsBounded key c none b k = b
get_found-IsBounded key c (some (e, es)) b k = let l = length-snoc es e in omega (arith, k.0)

put-IsBounded :
    (key size : ℕ) (v : Option Target) (c : RegionLruCache)
    → IsBounded c
    → IsBounded (put key v size c)
unfolding put
put-IsBounded key size none c b = b
put-IsBounded key size (some t) c b = elim (Bool-cases (leb capacity (length c.entries))) [
  | inl full ↦ rw full (shorter (drop 1 c.entries) (dropped c.entries b (ground arith)))
  | inr room ↦ rw room (shorter c.entries (ground arith))
]
  where
    shorter :
        (es : List CacheEntry)
        → length es < capacity
        → length (es ++ record { start = t.address; end = end_address t; target = t } ∷ [])
          ≤ capacity
    shorter es h =
        let l = length-snoc es (record { start = t.address; end = end_address t; target = t }) in
        omega arith

    dropped :
        (es : List CacheEntry)
        → length es ≤ capacity
        → capacity ≤ length es
        → length (drop 1 es) < capacity
    dropped [] h k = absurd (omega arith)
    dropped (e ∷ es) h k = omega arith

-- From a cache of at most eight entries, every call leaves at most eight: a hit only moves its
-- entry to the end, and an insertion into a full cache drops the first one.
pub region_lru-IsBounded :
    (key size : ℕ) (v : Option Target) (c : RegionLruCache)
    → IsBounded c
    → IsBounded (get c key).1 × IsBounded (put key v size c) × IsBounded (clear c)
unfolding get clear
region_lru-IsBounded key size v c b = (
  get_found-IsBounded key c (take_last key c.entries) b (take_last-Kept key c.entries),
  put-IsBounded key size v c b,
  omega arith,
)
