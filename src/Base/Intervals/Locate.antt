-- ===== src/Base/Intervals/Locate.antt =====
-- Lookups that go through `upper_bound` and look at one entry, against the plain search.
use Prim.Native.Nat.{ℕ, zero, suc, ◌≤◌, ◌<◌}
use mathlib.Core.Path.{◌≡◌, refl}
use mathlib.Core.Bool.{◌&&◌}
use mathlib.Core.List.{[], ◌∷◌}
use mathlib.Core.Option.{Option, none, some}
use native.Mathlib.Omega.{arith}
use qbox.Base.Tests.{ltb, leb, if◌then◌else◌}
use qbox.Base.Lists.{get_elem?}
use qbox.Base.OrdMap.{Map, upper_bound, before}
use qbox.Base.Intervals.{Chain, locate, locate_below}

module _ {ℓ} {V : Type ℓ} (stop : V → ℕ) where
  abbrev pub holds : ℕ → Option (ℕ × V) → Option (ℕ × V)
  holds a none = none
  holds a (some e) = if leb e.0 a && ltb a (stop e.1) then some e else none

  -- The entry in front of `upper_bound(a)`, if it holds `a`.
  unfoldable pub floor_entry : ℕ → Map V → Option (ℕ × V)
  floor_entry a m = holds a (before (upper_bound a m) m)

  pub floor_entry-eq-locate :
      (lo a : ℕ) (m : Map V) → Chain stop lo m → floor_entry a m ≡ locate stop a m
  unfolding floor_entry upper_bound locate
  floor_entry-eq-locate lo a [] c = refl
  floor_entry-eq-locate lo a ((k, v) ∷ []) c = ground arith
  floor_entry-eq-locate lo a ((k, v) ∷ (j, w) ∷ m) c = ground (
    arith,
    floor_entry-eq-locate (stop v) a ((j, w) ∷ m) c.2,
    locate_below stop {lo = stop w} a m,
  )

  -- An entry of the map is what its own addresses find.
  pub locate-elem :
      (lo x i : ℕ) (m : Map V) (e : ℕ × V)
      → Chain stop lo m
      → get_elem? m i ≡ some e
      → e.0 ≤ x
      → x < stop e.1
      → (locate stop x m ≡ some e) × (lo ≤ e.0)
  unfolding locate
  locate-elem lo x i [] e c g h k = cc
  locate-elem lo x zero ((k, v) ∷ m) e c g h p = ground arith
  locate-elem lo x (suc i) ((k, v) ∷ m) e c g h p =
      ground (arith, locate-elem (stop v) x i m e c.2 g h p)

  pub elem_stop :
      (lo i : ℕ) (m : Map V) (e : ℕ × V)
      → Chain stop lo m
      → get_elem? m i ≡ some e
      → (lo ≤ e.0) × (e.0 < stop e.1)
  elem_stop lo i [] e c g = cc
  elem_stop lo zero ((k, v) ∷ m) e c g = ground arith
  elem_stop lo (suc i) ((k, v) ∷ m) e c g = ground (arith, elem_stop (stop v) i m e c.2 g)

  -- The entry in front of `upper_bound(a)` starts at `a` or below, the one behind above `a`.
  pub before_key : (a : ℕ) (m : Map V) (e : ℕ × V) → before (upper_bound a m) m ≡ some e → e.0 ≤ a
  unfolding upper_bound
  before_key a [] e g = cc
  before_key a ((k, v) ∷ []) e g = ground arith
  before_key a ((k, v) ∷ (j, w) ∷ m) e g = ground (arith, before_key a ((j, w) ∷ m) e)

  pub next_key : (a : ℕ) (m : Map V) (e : ℕ × V) → get_elem? m (upper_bound a m) ≡ some e → a < e.0
  unfolding upper_bound
  next_key a [] e g = cc
  next_key a ((k, v) ∷ m) e g = ground (arith, next_key a m e)

  abbrev pub Behind : ℕ → Option (ℕ × V) → Type 0
  Behind x none = Unit
  Behind x (some e) = stop e.1 ≤ x

  abbrev pub Ahead : ℕ → Option (ℕ × V) → Type 0
  Ahead x none = Unit
  Ahead x (some e) = x < e.0

  Behind-head :
      (a x k : ℕ) (v : V) (m : Map V)
      → Chain stop k ((k, v) ∷ m)
      → Behind x (get_elem? ((k, v) ∷ m) (upper_bound a m))
      → stop v ≤ x
  unfolding upper_bound
  Behind-head a x k v [] c h = h
  Behind-head a x k v ((j, w) ∷ m) c h =
      ground (arith, Behind-head a x j w m (omega arith, c.2.1, c.2.2))

  -- Between the two nothing is mapped.
  pub locate-gap :
      (lo a x : ℕ) (m : Map V)
      → Chain stop lo m
      → Behind x (before (upper_bound a m) m)
      → Ahead x (get_elem? m (upper_bound a m))
      → locate stop x m ≡ none
  unfolding upper_bound locate
  locate-gap lo a x [] c h k = refl
  locate-gap lo a x ((j, v) ∷ []) c h k = ground arith
  locate-gap lo a x ((j, v) ∷ (i, w) ∷ m) c h k = ground (
    arith,
    locate-gap (stop v) a x ((i, w) ∷ m) c.2,
    locate_below stop {lo = stop w} x m,
    Behind-head a x i w m (omega arith, c.2.1, c.2.2),
  )
