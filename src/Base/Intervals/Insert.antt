-- ===== src/Base/Intervals/Insert.antt =====
-- `emplace` and `erase` on maps of ranges: order, free space and what an address finds.
use Prim.Native.Nat.{ℕ, ◌≤◌, ◌<◌}
use mathlib.Core.Path.{◌≡◌, refl}
use mathlib.Core.Logic.{◌⊎◌}
use mathlib.Core.Bool.{◌&&◌}
use mathlib.Core.List.{[], ◌∷◌}
use mathlib.Core.Option.{some}
use native.Mathlib.Omega.{arith}
use qbox.Base.Tests.{ltb, leb, if◌then◌else◌}
use qbox.Base.Lists.{All}
use qbox.Base.OrdMap.{Map, emplace}
use qbox.Base.Intervals.{Chain, Free, locate}

module _ {ℓ} {V : Type ℓ} (stop : V → ℕ) where
  pub emplace-Chain :
      {lo : ℕ} (k : ℕ) (v : V) (m : Map V)
      → lo ≤ k
      → k < stop v
      → Free stop k (stop v) m
      → Chain stop lo m
      → Chain stop lo (emplace k v m)
  unfolding emplace
  emplace-Chain k v [] h p f c = (h, p, tt)
  emplace-Chain k v ((j, w) ∷ m) h p f c = ground (arith, emplace-Chain {lo = stop w} k v m)

  pub emplace-Free :
      (s e k : ℕ) (v : V) (m : Map V)
      → (e ≤ k) ⊎ (stop v ≤ s)
      → Free stop s e m
      → Free stop s e (emplace k v m)
  unfolding emplace
  emplace-Free s e k v [] h f = (h, tt)
  emplace-Free s e k v ((j, w) ∷ m) h f = ground (arith, emplace-Free s e k v m h f.1)

  pub locate-emplace :
      (lo a k : ℕ) (v : V) (m : Map V)
      → k < stop v
      → Free stop k (stop v) m
      → Chain stop lo m
      → locate stop a (emplace k v m)
        ≡ (if leb k a && ltb a (stop v) then some (k, v) else locate stop a m)
  unfolding emplace locate
  locate-emplace lo a k v [] p f c = refl
  locate-emplace lo a k v ((j, w) ∷ m) p f c = ground (arith, locate-emplace (stop w) a k v m)

  pub emplace-All {κ} :
      (P : ℕ × V → Type κ) (k : ℕ) (v : V) (m : Map V) → P (k, v) → All P m → All P (emplace k v m)
  unfolding emplace
  emplace-All P k v [] h a = (h, tt)
  emplace-All P k v ((j, w) ∷ m) h a = ground (arith, emplace-All P k v m h a.1)
