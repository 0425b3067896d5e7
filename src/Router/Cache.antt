-- ===== src/Router/Cache.antt =====
-- `AddrMapCacheBase` as an interface, and `addressMap` with a cache in front of its map:
-- systemc-components/router/include/router.h, and the caches of addrmap_cache_examples.h beside it.
pub mod Lawful
pub mod Lru
pub mod RegionFifo
pub mod RegionLru
use qbox.Base.{◌≡◌, ℕ, List, [], ◌∷◌, Option, none, some}
use qbox.Base.OrdMap.{Map}
use qbox.Router.Target.{Target}
use qbox.Router.AddressMap.{Region, add, search_map}

-- A lookup may change the cache. What is cached is a `shared_ptr`, which may be null.
pub record Cache : Type 1 where
  pub State : Type 0
  pub get : State → ℕ → Option (Option Target) × State
  pub put : ℕ → Option Target → ℕ → State → State
  pub clear : State → State

-- What a cache may promise: as long as all that is put agrees with a function of the addresses,
-- what it returns agrees with it too, and once cleared it agrees with any.
pub record IsLawful (c : Cache) : Type 1 where
  pub Agrees : c.State → (ℕ → Option Target) → Type 0
  pub clear_agrees : (s : c.State) (f : ℕ → Option Target) → Agrees (c.clear s) f
  pub put_agrees :
      (s : c.State) (f : ℕ → Option Target) (a size : ℕ)
      → Agrees s f
      → Agrees (c.put a (f a) size s) f
  pub get_agrees :
      (s : c.State) (f : ℕ → Option Target) (a : ℕ) → Agrees s f → Agrees (c.get s a).1 f
  pub get_right :
      (s : c.State) (f : ℕ → Option Target) (a : ℕ) (r : Option Target)
      → Agrees s f
      → (c.get s a).0 ≡ some r
      → r ≡ f a

-- The calls on an address map.
pub data Call : Type 0 where
  adds : Target → Call
  finds : ℕ → ℕ → Call

module _ (c : Cache) where
  -- `addressMap`
  pub record Cached : Type 0 where
    pub regions : Map Region
    pub cache : c.State

  -- `add`
  unfoldable pub cached_add : Target → Cached → Cached
  cached_add t am = record { regions = add t am.regions; cache = c.clear am.cache }

  -- What `find` does with the answer of the cache.
  unfoldable pub find_with :
      Map Region → ℕ → ℕ → Option (Option Target) × c.State → Option Target × Cached
  find_with m address size (some r, s) = (r, record { regions = m; cache = s })
  find_with m address size (none, s) =
      let r = search_map m address in (r, record { regions = m; cache = c.put address r size s })

  -- `find`
  unfoldable pub find : ℕ → ℕ → Cached → Option Target × Cached
  unfolding find_with
  find address size am = find_with am.regions address size (c.get am.cache address)

  -- The answers of the `find` calls, in order.
  unfoldable pub answers : Cached → List Call → List (Option Target)
  answers am [] = []
  answers am (adds t ∷ cs) = answers (cached_add t am) cs
  answers am (finds a n ∷ cs) = let (r, am') = find a n am in r ∷ answers am' cs
