-- ===== src/Router/Cache/RegionFifo.antt =====
-- `RegionFIFOCache` of systemc-components/router/include/addrmap_cache_examples.h.
use qbox.Base.{
  ℕ, ◌+◌, ◌%◌, ◌^◌, ◌≤◌, ◌<◌, ◌≡◌, ap, ◌∙◌, ◌&&◌, List, [], ◌∷◌, ◌++◌, Option, none, some, arith,
  length, drop, ltb, leb, if◌then◌else◌,
}
use qbox.Base.OrdMap.{Map}
use qbox.Router.Target.{Target, end_address}
use qbox.Router.AddressMap.{Region}
use qbox.Router.AddressMap.Segments.{owner}
use qbox.Router.AddressMap.Resolve.{IsValid}
use qbox.Router.AddressMap.Lookup.{search_map-owner}
use qbox.Router.Cache.{Cache, Cached, find_with, find}

abbrev pub capacity : ℕ
capacity = 8

-- `Entry`. No null pointer is kept.
pub record Entry : Type 0 where
  pub start : ℕ
  pub end : ℕ
  pub value : Target

pub record RegionFifoCache : Type 0 where
  pub entries : List Entry
  pub hits : ℕ
  pub misses : ℕ

unfoldable pub scan : List Entry → ℕ → Option Target
scan [] key = none
scan (e ∷ es) key = if leb e.start key && ltb key e.end then some e.value else scan es key

-- The counters wrap as `uint64_t`.
abbrev pub count : ℕ → ℕ
count n = (n + 1) % 2 ^ 64

unfoldable pub get : RegionFifoCache → ℕ → Option (Option Target) × RegionFifoCache
get c key = elim (scan c.entries key) [
  | some t ↦ (some (some t), record c { hits = count c.hits })
  | none ↦ (none, record c { misses = count c.misses })
]

unfoldable pub put : ℕ → Option Target → ℕ → RegionFifoCache → RegionFifoCache
put key none size c = c
put key (some t) size c =
    let room = if leb capacity (length c.entries) then drop 1 c.entries else c.entries in
    record c { entries = room ++ record { start = t.address; end = end_address t; value = t } ∷ [] }

unfoldable pub clear : RegionFifoCache → RegionFifoCache
clear c = record c { entries = [] }

abbrev pub region_fifo : Cache
region_fifo = record { State = RegionFifoCache; get = get; put = put; clear = clear }

-- The two lookups of a client that first reads at `a` and then at `x`.
abbrev pub second_find : ℕ → ℕ → Cached region_fifo → Option Target
second_find a x am = (find region_fifo x 1 (find region_fifo a 1 am).1).0

abbrev empty : RegionFifoCache
empty = record { entries = []; hits = 0; misses = 0 }

first_find :
    (m : Map Region) (t : Target) (a : ℕ)
    → IsValid m
    → owner a m ≡ some t
    → (find region_fifo a 1 (record { regions = m; cache = empty })).1 ≡ record {
      regions = m;
      cache = record {
        entries = record { start = t.address; end = end_address t; value = t } ∷ [];
        hits = 0;
        misses = 1;
      };
    }
unfolding find find_with get scan put
first_find m t a v o =
    ap (λ r. record { regions = m; cache = put a r 1 (record empty { misses = 1 }) })
      (search_map-owner m a v ∙ o)

hit :
    (m : Map Region) (t : Target) (x : ℕ)
    → t.address ≤ x
    → x < end_address t
    → (find region_fifo x 1 (record {
      regions = m;
      cache = record {
        entries = record { start = t.address; end = end_address t; value = t } ∷ [];
        hits = 0;
        misses = 1;
      };
    })).0
      ≡ some t
unfolding find get scan
hit m t x h k = ground arith

-- The bug: once a lookup at `a` has put `t` into the empty cache, each address of the range that
-- `t` asked for goes to `t`, also one that a target of a lower number has.
pub second_find-steals :
    (m : Map Region) (t : Target) (a x : ℕ)
    → IsValid m
    → owner a m ≡ some t
    → t.address ≤ x
    → x < end_address t
    → second_find a x (record { regions = m; cache = empty }) ≡ some t
second_find-steals m t a x v o h k =
    ap (λ am. (find region_fifo x 1 am).0) (first_find m t a v o) ∙ hit m t x h k
