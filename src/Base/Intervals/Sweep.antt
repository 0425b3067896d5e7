-- ===== src/Base/Intervals/Sweep.antt =====
-- Walks over the entries that meet a range: they start one entry before `upper_bound(s)`, skip what
-- ends before `s` and stop behind `e`.
use qbox.Base.Tests.{ltb, leb, if◌then◌else◌}
use Prim.Native.Nat.{ℕ, zero, suc, ◌<◌}
use mathlib.Core.Path.{◌≡◌, refl}
use mathlib.Core.Bool.{Bool, ◌&&◌}
use mathlib.Core.List.{[], ◌∷◌, ◌++◌}
use native.Mathlib.Omega.{arith}
use qbox.Base.Lists.{All, drop, take}
use qbox.Base.OrdMap.{Map, upper_bound, step_back}
use qbox.Base.Intervals.{Chain, Chain-mono, Free}

module _ {V : Type 0} (stop : V → ℕ) where
  -- [s, e], both ends included, meets the range of the entry.
  abbrev pub meets : ℕ → ℕ → ℕ × V → Bool
  meets s e p = leb p.0 e && ltb s (stop p.1)

  -- The entries that do not meet [s, e], and those that do.
  unfoldable pub outside : ℕ → ℕ → Map V → Map V
  outside s e [] = []
  outside s e (p ∷ m) = if meets s e p then outside s e m else p ∷ outside s e m

  unfoldable pub inside : ℕ → ℕ → Map V → Map V
  inside s e [] = []
  inside s e (p ∷ m) = if meets s e p then p ∷ inside s e m else inside s e m

  -- Behind `e` there is nothing to meet.
  pub outside_after :
      (s e lo : ℕ) (m : Map V)
      → e < lo
      → Chain stop lo m
      → (outside s e m ≡ m) × (inside s e m ≡ [])
  unfolding outside inside
  outside_after s e lo [] h c = (refl, refl)
  outside_after s e lo ((k, v) ∷ m) h c = ground (arith, outside_after s e (stop v) m)

  -- What stands before a place of the chain ends at or before it.
  abbrev pub start_at : ℕ → Map V → ℕ
  start_at s m = step_back (upper_bound s m)

  pub outside_skip :
      (s e lo : ℕ) (m : Map V)
      → Chain stop lo m
      → (outside s e m ≡ take (start_at s m) m ++ outside s e (drop (start_at s m) m))
        × (inside s e m ≡ inside s e (drop (start_at s m) m))
  unfolding outside inside upper_bound
  outside_skip s e lo [] c = (refl, refl)
  outside_skip s e lo ((k, v) ∷ []) c = ground arith
  outside_skip s e lo ((k, v) ∷ (j, w) ∷ m) c =
      ground (arith, outside_skip s e (stop v) ((j, w) ∷ m) c.2)

  pub drop-Chain : (i lo : ℕ) (m : Map V) → Chain stop lo m → Chain stop lo (drop i m)
  drop-Chain zero lo m c = c
  drop-Chain (suc i) lo [] c = tt
  drop-Chain (suc i) lo ((k, v) ∷ m) c =
      Chain-mono stop (drop i m) (omega arith) (drop-Chain i (stop v) m c.2)

  -- Exactly the entries outside stay in order.
  pub outside-Chain : (s e lo : ℕ) (m : Map V) → Chain stop lo m → Chain stop lo (outside s e m)
  unfolding outside
  outside-Chain s e lo [] c = tt
  outside-Chain s e lo ((k, v) ∷ m) c = ground (
    arith,
    outside-Chain s e (stop v) m c.2,
    Chain-mono stop {lo = stop v} {lo' = lo} (outside s e m),
  )

  pub outside-Free : (s e : ℕ) (m : Map V) → Free stop s (suc e) (outside s e m)
  unfolding outside
  outside-Free s e [] = tt
  outside-Free s e ((k, v) ∷ m) = ground (arith, outside-Free s e m)

  pub outside-All {κ} : (P : ℕ × V → Type κ) (s e : ℕ) (m : Map V) → All P m → All P (outside s e m)
  unfolding outside
  outside-All P s e [] a = tt
  outside-All P s e (p ∷ m) a = ground (arith, outside-All P s e m a.1)
