-- ===== src/Router/AddressMap/Winner.antt =====
-- The map that a sequence of `add` calls builds, against the rule of priorities that its
-- documentation states.
use qbox.Base.{
  ℕ, ◌≤◌, ◌<◌, ◌≡◌, refl, ap, ◌∙◌, ◌⊎◌, inl, inr, List, [], ◌∷◌, ◌++◌, Option, none, some, arith,
  All,
}
use qbox.Base.OrdMap.{Map}
use qbox.Base.Intervals.{locate}
use qbox.Router.Target.{Target, end_address}
use qbox.Router.AddressMap.{Region, add, uint32_max}
use qbox.Router.AddressMap.Segments.{owner}
use qbox.Router.AddressMap.Resolve.{
  IsValid, prefer, split_and_resolve-owner, split_and_resolve-IsValid,
}

-- The `add` calls of `lazy_initialize`, in order.
unfoldable pub add_targets : List Target → Map Region → Map Region
add_targets [] m = m
add_targets (t ∷ ts) m = add_targets ts (add t m)

-- `t` claims `x`, and its number is one that can win.
abbrev pub Claims : ℕ → Target → Type 0
Claims x t = (t.address ≤ x) × (x < end_address t) × (t.priority < uint32_max)

-- Of `old` and the targets still to come, the one that keeps `x`.
unfoldable pub winner : ℕ → List Target → Option Target → Option Target
winner x [] old = old
winner x (t ∷ ts) old = winner x ts (prefer t.address (end_address t) t x old)

-- Adding a target leaves a valid map, in which each address of the target's range goes to the
-- target if the address was free or its owner's number was not lower, and in which every other
-- address keeps its owner. A target with the highest number takes nothing.
pub add-owner :
    (t : Target) (m : Map Region) (x : ℕ)
    → IsValid m
    → IsValid (add t m) × (owner x (add t m) ≡ prefer t.address (end_address t) t x (owner x m))
unfolding add
add-owner t m x v = (
  split_and_resolve-IsValid t.address (end_address t) t m v,
  split_and_resolve-owner t.address (end_address t) t m v x,
)

add_targets-winner :
    (ts : List Target) (m : Map Region) (x : ℕ)
    → IsValid m
    → IsValid (add_targets ts m) × (owner x (add_targets ts m) ≡ winner x ts (owner x m))
unfolding add_targets winner
add_targets-winner [] m x v = (v, refl)
add_targets-winner (t ∷ ts) m x v =
    let step = add-owner t m x v in
    let rest = add_targets-winner ts (add t m) x step.0 in (rest.0, rw (← step.1) rest.1)

-- A target keeps its place against one that comes later only if its number is lower.
abbrev pub Beats : Option Target → Target → Type 0
Beats none t = ⊥
Beats (some u) t = u.priority < t.priority

abbrev pub NotAbove : Target → Option Target → Type 0
NotAbove w none = Unit
NotAbove w (some u) = w.priority ≤ u.priority

-- Who has `x` in the end: the former owner, which beats all that claim `x`; or one of the targets,
-- with a number not above those before it and below those after it.
pub data Won (x : ℕ) (ts : List Target) (old r : Option Target) : Type 0 where
  kept : r ≡ old → All (λ t. Claims x t → Beats old t) ts → Won x ts old r
  new :
      (w : Target) (pre post : List Target)
      → r ≡ some w
      → ts ≡ pre ++ w ∷ post
      → Claims x w
      → NotAbove w old
      → All (λ t. Claims x t → w.priority ≤ t.priority) pre
      → All (λ t. Claims x t → w.priority < t.priority) post
      → Won x ts old r

prefer_cases :
    (x : ℕ) (t : Target) (old : Option Target)
    → ((prefer t.address (end_address t) t x old ≡ some t) × Claims x t × NotAbove t old)
      ⊎ ((prefer t.address (end_address t) t x old ≡ old) × (Claims x t → Beats old t))
prefer_cases x t none = ground arith
prefer_cases x t (some u) = ground arith

NotAbove-trans :
    (w t : Target) (old : Option Target) → w.priority ≤ t.priority → NotAbove t old → NotAbove w old
NotAbove-trans w t none h k = tt
NotAbove-trans w t (some u) h k = omega arith

Beats-le :
    (w t : Target) (old : Option Target) → NotAbove w old → Beats old t → w.priority ≤ t.priority
Beats-le w t none h b = absurd b
Beats-le w t (some u) h b = omega arith

took :
    (x : ℕ) (t : Target) (ts : List Target) (old r : Option Target)
    → Claims x t
    → NotAbove t old
    → Won x ts (some t) r
    → Won x (t ∷ ts) old r
took x t ts old r c n (kept e a) = new t [] ts e refl c n tt a
took x t ts old r c n (new w pre post e f d m a b) =
    new w (t ∷ pre) post e (ap (◌∷◌ t) f) d (NotAbove-trans w t old m n) ((λ _. m), a) b

passed_by :
    (x : ℕ) (t : Target) (ts : List Target) (old r : Option Target)
    → (Claims x t → Beats old t)
    → Won x ts old r
    → Won x (t ∷ ts) old r
passed_by x t ts old r k (kept e a) = kept e (k, a)
passed_by x t ts old r k (new w pre post e f d m a b) =
    new w (t ∷ pre) post e (ap (◌∷◌ t) f) d m ((λ c. Beats-le w t old m (k c)), a) b

winner-Won : (x : ℕ) (ts : List Target) (old : Option Target) → Won x ts old (winner x ts old)
unfolding winner
winner-Won x [] old = kept refl tt
winner-Won x (t ∷ ts) old = elim (prefer_cases x t old) [
  | inl (e, c, n) ↦ rw e (took x t ts old (winner x ts (some t)) c n (winner-Won x ts (some t)))
  | inr (e, k) ↦ rw e (passed_by x t ts old (winner x ts old) k (winner-Won x ts old))
]

-- The `add` calls for `ts`, from the empty map, leave a valid map. An address that it does not map
-- is claimed by no target; one that it maps to `w` is claimed by `w`, at whose place in `ts` no
-- claim before has a lower number, and every claim after has a higher one. A claim counts if the
-- target's number is below the greatest and its end does not wrap below the address.
pub add_targets-best :
    (ts : List Target) (x : ℕ)
    → IsValid (add_targets ts []) × Won x ts none (owner x (add_targets ts []))
unfolding owner locate
add_targets-best ts x =
    let r = add_targets-winner ts [] x (record { chain = tt; entries = tt }) in
    (r.0, rw r.1 (winner-Won x ts none))

-- A target whose end wraps to its start or below claims nothing: its `add` changes no owner.
pub add_wrapped :
    (t : Target) (m : Map Region) (x : ℕ)
    → end_address t ≤ t.address
    → IsValid m
    → owner x (add t m) ≡ owner x m
add_wrapped t m x h v = (add-owner t m x v).1 ∙ ground arith
