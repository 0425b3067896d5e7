-- ===== src/Monitor/Grant.antt =====
-- `get_direct_mem_ptr` of the monitor: what is left of a grant between the locks.
use qbox.Base.{
  ℕ, suc, ◌+◌, ◌-◌, ◌≤◌, ◌<◌, ◌≡◌, refl, ◌⊎◌, inl, inr, true, ◌&&◌, [], ◌∷◌, Option, none, some,
  arith, Bool-cases, drop, ltb, leb, if◌then◌else◌,
}
use qbox.Base.OrdMap.{Map, upper_bound, step_back}
use qbox.Base.Intervals.{Chain, Free}
use qbox.Tlm.{Dmi, Payload}
use qbox.Monitor.{Region, Monitor}
use qbox.Monitor.Find.{stop, Keyed, Free-after}
use qbox.Monitor.Locks.{IsValid}
use qbox.Monitor.Transport.{fix, fixed, fix_grant, get_direct_mem_ptr}

fix-later :
    (at s e j i : ℕ) (r q : Region) (m : Map Region)
    → s ≤ at
    → at ≤ e
    → j ≡ r.start
    → i ≡ q.start
    → j < stop r
    → stop r ≤ i
    → i < stop q
    → i ≤ at
    → fix at s e ((j, r) ∷ (i, q) ∷ m) ≡ fix at s e ((i, q) ∷ m)
unfolding fix
fix-later at s e j i r q m a b f g h k l n = ground arith

fix_skip :
    (at s e lo : ℕ) (m : Map Region)
    → s ≤ at
    → at ≤ e
    → Chain stop lo m
    → Keyed m
    → fix at s e (drop (step_back (upper_bound at m)) m) ≡ fix at s e m
unfolding upper_bound
fix_skip at s e lo [] a b c k = refl
fix_skip at s e lo ((j, r) ∷ []) a b c k = ground arith
fix_skip at s e lo ((j, r) ∷ (i, q) ∷ m) a b c k = ground (
  arith,
  fix_skip at s e (stop r) ((i, q) ∷ m) a b c.2 k.1,
  fix-later at s e j i r q m a b k.0 k.1.0 c.1 c.2.0 c.2.1,
)

-- A lock holds the address.
abbrev pub IsLocked : ℕ → Map Region → Type 0
IsLocked at [] = ⊥
IsLocked at ((k, r) ∷ m) = ((r.start ≤ at) × (at ≤ r.end)) ⊎ IsLocked at m

-- What is left of a grant is within it, holds the address, and meets no lock.
abbrev pub Window : ℕ → ℕ → ℕ → Map Region → Option (ℕ × ℕ) → Type 0
Window at s e m none = IsLocked at m
Window at s e m (some (s', e')) =
    (s ≤ s') × (s' ≤ at) × (at ≤ e') × (e' ≤ e) × Free stop s' (suc e') m

widen :
    (at s t e k : ℕ) (r : Region) (m : Map Region) (o : Option (ℕ × ℕ))
    → s ≤ t
    → stop r ≤ t
    → Window at t e m o
    → Window at s e ((k, r) ∷ m) o
widen at s t e k r m none h l w = inr w
widen at s t e k r m (some (s', e')) h l w =
    (omega (arith, w.0), w.1, w.2, w.3, (inr (omega (arith, w.0)), w.4))

cut_right :
    (at s e j t : ℕ) (r : Region) (m : Map Region)
    → s ≤ at
    → j ≡ r.start
    → j < stop r
    → Chain stop (stop r) m
    → at < r.start
    → r.start ≤ e
    → t ≡ s
    → Window at s e ((j, r) ∷ m) (some (t, r.start - 1))
cut_right at s e j t r m a k l c h n d = (
  omega arith,
  omega arith,
  omega arith,
  omega arith,
  (inl (omega arith), Free-after t (r.start - 1) (stop r) m (omega arith) c),
)

fix-Window :
    (at s e lo : ℕ) (m : Map Region)
    → s ≤ at
    → at ≤ e
    → Chain stop lo m
    → Keyed m
    → Window at s e m (fix at s e m)
unfolding fix
fix-Window at s e lo [] a b c k = (omega arith, a, b, omega arith, tt)
fix-Window at s e lo ((j, r) ∷ m) a b c k = elim (Bool-cases (ltb r.end s)) [
  | inl skip ↦ rw skip (
      widen at s s e j r m (fix at s e m) (omega arith) (ground arith)
        (fix-Window at s e (stop r) m a b c.2 k.1))
  | inr near ↦ elim (Bool-cases (ltb e r.start)) [
    | inl far ↦
        rw (near, far)
          (
            omega arith,
            a,
            b,
            omega arith,
            (inl (ground (arith, k.0)), Free-after s e (stop r) m (ground arith) c.2),
          )
    | inr meet ↦ elim (Bool-cases (leb r.start at && leb at r.end)) [
      | inl inside ↦ rw (near, meet, inside) (inl (ground arith))
      | inr outside ↦ elim (Bool-cases (ltb at r.start)) [
        | inl right ↦
            rw (near, meet, outside, right)
              (cut_right at s e j (if ltb r.end at then r.end + 1 else s) r m a k.0 c.1 c.2
                (ground arith) (ground arith) (not_left (ground arith)))
        | inr left ↦
            rw (near, meet, outside, left, ended (ground arith))
              (widen at s (r.end + 1) e j r m (fix at (r.end + 1) e m) (ground arith) (omega arith)
                (fix-Window at (r.end + 1) e (stop r) m (ground arith) b c.2 k.1))
      ]
    ]
  ]
]
  where
    not_left : at < r.start → (if ltb r.end at then r.end + 1 else s) ≡ s
    not_left h = ground (arith, c.1, k.0)

    ended : r.end < at → ltb r.end at ≡ true
    ended h = ground arith

-- What comes back of the target's grant `d`.
abbrev pub IsSafe : ℕ → Dmi → Map Region → Option Dmi → Type 0
IsSafe at d m none = IsLocked at m
IsSafe at d m (some g) =
    (g.ptr + d.start_address ≡ d.ptr + g.start_address)
    × Window at d.start_address d.end_address m (some (g.start_address, g.end_address))

fixed-IsSafe :
    (at : ℕ) (d : Dmi) (m : Map Region) (o : Option (ℕ × ℕ))
    → Window at d.start_address d.end_address m o
    → IsSafe at d m (fixed d o)
fixed-IsSafe at d m none w = w
fixed-IsSafe at d m (some (s, e)) w = (omega (arith, w.0), w)

-- When the target grants a range that holds the requested address, the monitor refuses only if a
-- lock holds that address. What it grants otherwise is within the target's grant, points at the
-- same bytes, holds the address, and meets no lock.
pub get_direct_mem_ptr-IsSafe :
    (p : Payload) (d : Dmi) (s : Monitor)
    → IsValid s
    → d.start_address ≤ p.address
    → p.address ≤ d.end_address
    → IsSafe p.address d s.regions (get_direct_mem_ptr p (some d) s)
unfolding get_direct_mem_ptr fix_grant
get_direct_mem_ptr-IsSafe p d s v a b = fixed-IsSafe p.address d s.regions _ (
    rw (fix_skip p.address d.start_address d.end_address 0 s.regions a b v.chain v.keys)
      (fix-Window p.address d.start_address d.end_address 0 s.regions a b v.chain v.keys))
