-- ===== src/Base/Intervals/Erase.antt =====
-- `assign` and `erase` on maps of ranges.
use Prim.Native.Nat.{ℕ, suc, ◌≤◌, ◌<◌}
use mathlib.Core.Path.{◌≡◌, refl}
use mathlib.Core.List.{[], ◌∷◌}
use mathlib.Core.Option.{none, some}
use native.Mathlib.Omega.{arith}
use qbox.Base.Tests.{◌==◌, if◌then◌else◌}
use qbox.Base.Lists.{All, length}
use qbox.Base.OrdMap.{Map, lookup, assign, erase}
use qbox.Base.Intervals.{Chain, Chain-mono, Free}

module _ {ℓ} {V : Type ℓ} (stop : V → ℕ) where
  pub erase-Chain : (k lo : ℕ) (m : Map V) → Chain stop lo m → Chain stop lo (erase k m)
  unfolding erase
  erase-Chain k lo [] c = tt
  erase-Chain k lo ((j, w) ∷ m) c =
      ground (arith, erase-Chain k (stop w) m c.2, Chain-mono stop {lo = stop w} {lo' = lo} m)

  lookup_under : (k lo : ℕ) (m : Map V) → Chain stop lo m → k < lo → lookup k m ≡ none
  unfolding lookup
  lookup_under k lo [] c h = refl
  lookup_under k lo ((j, w) ∷ m) c h = ground (arith, lookup_under k (stop w) m c.2)

  pub lookup-erase :
      (j k lo : ℕ) (m : Map V)
      → Chain stop lo m
      → lookup k (erase j m) ≡ (if j == k then none else lookup k m)
  unfolding lookup erase
  lookup-erase j k lo [] c = ground arith
  lookup-erase j k lo ((i, w) ∷ m) c =
      ground (arith, lookup-erase j k (stop w) m c.2, lookup_under k (stop w) m c.2)

  pub erase-Free : (s e k : ℕ) (m : Map V) → Free stop s e m → Free stop s e (erase k m)
  unfolding erase
  erase-Free s e k [] f = tt
  erase-Free s e k ((j, w) ∷ m) f = ground (arith, erase-Free s e k m f.1)

  pub erase-All {κ} : (P : ℕ × V → Type κ) (k : ℕ) (m : Map V) → All P m → All P (erase k m)
  unfolding erase
  erase-All P k [] a = tt
  erase-All P k ((j, w) ∷ m) a = ground (arith, erase-All P k m a.1)

  -- One entry less, if the key is there.
  pub length-erase :
      (k : ℕ) (v : V) (m : Map V) → lookup k m ≡ some v → length m ≡ suc (length (erase k m))
  unfolding lookup erase
  length-erase k v [] h = absurd (ground (arith, h))
  length-erase k v ((j, w) ∷ m) h = ground (arith, length-erase k v m)

  pub assign-Chain :
      (lo k : ℕ) (v : V) (m : Map V)
      → lo ≤ k
      → k < stop v
      → Free stop k (stop v) m
      → Chain stop lo m
      → Chain stop lo (assign k v m)
  unfolding assign
  assign-Chain lo k v [] h p f c = (h, p, tt)
  assign-Chain lo k v ((j, w) ∷ m) h p f c = ground (arith, assign-Chain (stop w) k v m)

  pub assign-All {κ} :
      (P : ℕ × V → Type κ) (k : ℕ) (v : V) (m : Map V) → P (k, v) → All P m → All P (assign k v m)
  unfolding assign
  assign-All P k v [] h a = (h, tt)
  assign-All P k v ((j, w) ∷ m) h a = ground (arith, assign-All P k v m h a.1)
