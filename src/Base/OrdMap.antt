-- ===== src/Base/OrdMap.antt =====
-- `std::map<uint64_t, V>` as the list of its entries in the order of their keys. An iterator is
-- the number of entries in front of it: 0 is `begin()`, and the number of all entries is `end()`.
use Prim.Native.Nat.{ℕ, zero, suc, ◌-◌}
use mathlib.Core.Path.{◌≡◌, refl}
use native.Mathlib.Omega.{arith}
use mathlib.Core.List.{List, [], ◌∷◌}
use mathlib.Core.Option.{Option, none, some}
use qbox.Base.Tests.{ltb, ◌==◌, if◌then◌else◌}
use qbox.Base.Lists.{get_elem?}

abbrev pub Map {ℓ} : Type ℓ → Type ℓ
Map V = List (ℕ × V)

-- `if (it != begin()) it--;`
abbrev pub step_back : ℕ → ℕ
step_back it = it - 1

module _ {ℓ} {V : Type ℓ} where
  -- `find(k)`
  unfoldable pub lookup : ℕ → Map V → Option V
  lookup k [] = none
  lookup k ((j, v) ∷ m) = if j == k then some v else lookup k m

  -- `m[k] = v`
  unfoldable pub assign : ℕ → V → Map V → Map V
  assign k v [] = (k, v) ∷ []
  assign k v ((j, w) ∷ m) =
      if ltb k j then (k, v) ∷ (j, w) ∷ m else if k == j then (k, v) ∷ m else (j, w) ∷ assign k v m

  -- `emplace(k, v)`: an entry that is there stays.
  unfoldable pub emplace : ℕ → V → Map V → Map V
  emplace k v [] = (k, v) ∷ []
  emplace k v ((j, w) ∷ m) =
      if ltb k j then (k, v) ∷ (j, w) ∷ m else if k == j then (j, w) ∷ m else (j, w) ∷ emplace k v m

  -- `erase(k)`
  unfoldable pub erase : ℕ → Map V → Map V
  erase k [] = []
  erase k ((j, w) ∷ m) = if j == k then m else (j, w) ∷ erase k m

  -- The first entry whose key is above `k`.
  unfoldable pub upper_bound : ℕ → Map V → ℕ
  upper_bound k [] = 0
  upper_bound k ((j, w) ∷ m) = if ltb k j then 0 else suc (upper_bound k m)

  -- The first entry whose key is not below `k`.
  unfoldable pub lower_bound : ℕ → Map V → ℕ
  lower_bound k [] = 0
  lower_bound k ((j, w) ∷ m) = if ltb j k then suc (lower_bound k m) else 0

  -- The entry in front of an iterator; `none` at `begin()`.
  abbrev pub before : ℕ → Map V → Option (ℕ × V)
  before zero m = none
  before (suc i) m = get_elem? m i

-- `std::set<uint64_t>::insert`: the elements in ascending order.
unfoldable pub set_insert : ℕ → List ℕ → List ℕ
set_insert p [] = p ∷ []
set_insert p (q ∷ qs) =
    if ltb p q then p ∷ q ∷ qs else if p == q then q ∷ qs else q ∷ set_insert p qs

module _ {ℓ} {V : Type ℓ} where
  pub lookup-assign_self : (k : ℕ) (v : V) (m : Map V) → lookup k (assign k v m) ≡ some v
  unfolding lookup assign
  lookup-assign_self k v [] = ground arith
  lookup-assign_self k v ((j, w) ∷ m) = ground (arith, lookup-assign_self k v m)

  pub lookup-emplace_self :
      (k : ℕ) (v : V) (m : Map V) → lookup k m ≡ none → lookup k (emplace k v m) ≡ some v
  unfolding lookup emplace
  lookup-emplace_self k v [] h = ground arith
  lookup-emplace_self k v ((j, w) ∷ m) h = ground (arith, lookup-emplace_self k v m)

  -- `ground` reads the two laws in this form, whatever the keys.
  pub lookup-assign :
      (j k : ℕ) (v : V) (m : Map V)
      → lookup k (assign j v m) ≡ (if j == k then some v else lookup k m)
  unfolding lookup assign
  lookup-assign j k v [] = refl
  lookup-assign j k v ((i, w) ∷ m) = ground (arith, lookup-assign j k v m)
