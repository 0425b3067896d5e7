-- ===== src/Router/Cache/Lru.antt =====
-- `LRUCache` of systemc-components/router/include/addrmap_cache_examples.h: the entries of a list,
-- the most recently used one first, and a hash map from keys to them.
pub mod Live
pub mod History
pub mod Lawful
use qbox.Base.{
  ℕ, suc, ◌+◌, ◌%◌, ◌^◌, List, [], ◌∷◌, Option, none, some, length, leb, ◌==◌, if◌then◌else◌,
}
use qbox.Router.Target.{Target}

abbrev pub capacity : ℕ
capacity = 65536

-- An entry of the list. An iterator is the number of the entry, which no later entry gets.
pub record Node : Type 0 where
  pub number : ℕ
  pub key : ℕ
  pub value : Option Target

-- `m_map` is a function, and `next` the number of the next entry.
pub record LruCache : Type 0 where
  pub m_list : List Node
  pub m_map : ℕ → Option ℕ
  pub next : ℕ
  pub m_hits : ℕ
  pub m_misses : ℕ

abbrev pub count : ℕ → ℕ
count n = (n + 1) % 2 ^ 64

-- `it->second->second`, and `splice` to the front.
unfoldable pub node_at : ℕ → List Node → Option Node
node_at i [] = none
node_at i (n ∷ ns) = if n.number == i then some n else node_at i ns

unfoldable pub without : ℕ → List Node → List Node
without i [] = []
without i (n ∷ ns) = if n.number == i then ns else n ∷ without i ns

-- `get`: the value, where it hits, and the cache. The whole is `none` where the map holds an
-- iterator to an entry that is gone: the code has no defined behaviour there.
abbrev pub Got : Type 0
Got = Option (Option (Option Target) × LruCache)

abbrev pub get_node : LruCache → Option Node → Got
get_node c none = none
get_node c (some n) =
    some
      (some n.value, record c { m_list = n ∷ without n.number c.m_list; m_hits = count c.m_hits })

abbrev pub get_found : LruCache → Option ℕ → Got
get_found c none = some (none, record c { m_misses = count c.m_misses })
get_found c (some i) = get_node c (node_at i c.m_list)

unfoldable pub get : LruCache → ℕ → Got
get c key = get_found c (c.m_map key)

-- `pop_back` and `back`
unfoldable pub pop_back : List Node → List Node
pop_back [] = []
pop_back (n ∷ []) = []
pop_back (n ∷ m ∷ ns) = n ∷ pop_back (m ∷ ns)

unfoldable pub back : Node → List Node → Node
back n [] = n
back n (m ∷ ns) = back m ns

abbrev pub map_erase : ℕ → (ℕ → Option ℕ) → ℕ → Option ℕ
map_erase key m k = if k == key then none else m k

abbrev pub map_set : ℕ → ℕ → (ℕ → Option ℕ) → ℕ → Option ℕ
map_set key i m k = if k == key then some i else m k

abbrev pub evicted : LruCache → List Node → LruCache
evicted c [] = c
evicted c (n ∷ ns) = record c {
  m_list = pop_back (n ∷ ns);
  m_map = map_erase (back n ns).key c.m_map;
}

abbrev pub inserted : ℕ → Option Target → LruCache → LruCache
inserted key value c = record c {
  m_list = record { number = c.next; key = key; value = value } ∷ c.m_list;
  m_map = map_set key c.next c.m_map;
  next = suc c.next;
}

unfoldable pub put : ℕ → Option Target → ℕ → LruCache → LruCache
put key value size c =
    inserted key value (if leb capacity (length c.m_list) then evicted c c.m_list else c)

unfoldable pub clear : LruCache → LruCache
clear c = record c { m_list = []; m_map = λ k. none }

-- Calls on one cache, and the answers of the `get` calls, in order.
pub data Op : Type 0 where
  gets : ℕ → Op
  puts : ℕ → Option Target → ℕ → Op
  clears : Op

abbrev pub Ran : Type 0
Ran = Option (List (Option (Option Target)) × LruCache)

abbrev pub answered : Option (Option Target) → Ran → Ran
answered r none = none
answered r (some (rs, c)) = some (r ∷ rs, c)

abbrev pub then_run : (LruCache → Ran) → Got → Ran
then_run rest none = none
then_run rest (some (r, c)) = answered r (rest c)

unfoldable pub run : List Op → LruCache → Ran
run [] c = some ([], c)
run (gets key ∷ os) c = then_run (run os) (get c key)
run (puts key value size ∷ os) c = run os (put key value size c)
run (clears ∷ os) c = run os (clear c)

-- A new `LRUCache`.
abbrev pub new_cache : LruCache
new_cache = record { m_list = []; m_map = λ k. none; next = 0; m_hits = 0; m_misses = 0 }
