-- ===== src/Base/Intervals.antt =====
-- Ordered maps whose entries stand for the address ranges [key, stop value), one after the other.
-- The router's address map, its record of DMI grants and the exclusive monitor's locks are such maps.
pub mod Insert
pub mod Locate
pub mod Sweep
pub mod Erase
use Prim.Native.Nat.{ℕ, zero, suc, ◌+◌, ◌-◌, ◌≤◌, ◌<◌}
use mathlib.Core.Path.{◌≡◌, refl}
use mathlib.Core.Logic.{◌⊎◌, inl, inr}
use mathlib.Core.Bool.{Bool, true, false, ◌&&◌}
use mathlib.Core.List.{List, [], ◌∷◌}
use mathlib.Core.Option.{Option, none, some}
use native.Mathlib.Omega.{arith}
use qbox.Base.Tests.{ltb, leb, ◌==◌, if◌then◌else◌}
use qbox.Base.OrdMap.{Map, lookup}

module _ {ℓ} {V : Type ℓ} (stop : V → ℕ) where
  -- The ranges are not empty, and stand in order from `lo` on without overlap.
  abbrev pub Chain : ℕ → Map V → Type 0
  Chain lo [] = Unit
  Chain lo ((k, v) ∷ m) = (lo ≤ k) × (k < stop v) × Chain (stop v) m

  -- No entry meets [s, e).
  abbrev pub Free : ℕ → ℕ → Map V → Type 0
  Free s e [] = Unit
  Free s e ((k, v) ∷ m) = ((e ≤ k) ⊎ (stop v ≤ s)) × Free s e m

  -- The entry whose range holds an address, by a plain search.
  unfoldable pub locate : ℕ → Map V → Option (ℕ × V)
  locate a [] = none
  locate a ((k, v) ∷ m) = if leb k a && ltb a (stop v) then some (k, v) else locate a m

  pub Chain-mono : {lo lo' : ℕ} (m : Map V) → lo' ≤ lo → Chain lo m → Chain lo' m
  Chain-mono [] h c = tt
  Chain-mono ((k, v) ∷ m) h c = (omega arith, c.1, c.2)

  pub locate_below : {lo : ℕ} (a : ℕ) (m : Map V) → Chain lo m → a < lo → locate a m ≡ none
  unfolding locate
  locate_below a [] c h = refl
  locate_below a ((k, v) ∷ m) c h = ground (arith, locate_below {lo = stop v} a m c.2)

  pub locate-Free : (a s e : ℕ) (m : Map V) → s ≤ a → a < e → Free s e m → locate a m ≡ none
  unfolding locate
  locate-Free a s e [] h k f = refl
  locate-Free a s e ((j, v) ∷ m) h k f = ground (arith, locate-Free a s e m h k f.1)

  pub Free-mono : {s e s' e' : ℕ} (m : Map V) → s ≤ s' → e' ≤ e → Free s e m → Free s' e' m
  Free-mono [] h k f = tt
  Free-mono ((j, v) ∷ m) h k f = (omega arith, Free-mono m h k f.1)

  -- A key within a free range is not in the map.
  pub lookup-Free : (lo s e : ℕ) (m : Map V) → s < e → Free s e m → Chain lo m → lookup s m ≡ none
  unfolding lookup
  lookup-Free lo s e [] h f c = refl
  lookup-Free lo s e ((j, v) ∷ m) h f c = ground (arith, lookup-Free (stop v) s e m h f.1 c.2)
