-- ===== src/Smmu/Walk/Bounds.antt =====
-- The address of a leaf: its bound, and its offset within a page.
use Prim.Native.Nat.{bit_or, ◌∣◌}
use native.Mathlib.Nat.{
  pow-le-pow_right, div-lt_iff_lt-mul, mod-mod_of_dvd, dvd-mul_right, mod-lt, mod-eq_of_lt,
  one-le-pow,
}
use qbox.Base.{
  ℕ, zero, suc, ◌+◌, ◌-◌, ◌*◌, ◌/◌, ◌%◌, ◌^◌, ◌≤◌, ◌<◌, ◌≡◌, ◌⊎◌, refl, sym, ap, ◌∙◌, inl, inr,
  true, Option, some, arith, Bool-cases, if◌then◌else◌, ◌==◌, ==_iff, leb, leb→le, if_both, none,
}
use native.Mathlib.Omega.{pow_step}
use mathlib.Core.Path.{subst}
use qbox.Base.Bits.{bit_or-lt, bit_or-rem, zero-bit_or}
use qbox.Smmu.{pa_bits, check_out_addr, extract64, aligned, aligned-rem}
use qbox.Smmu.Plan.{Grain, granule, stride}

two_pow_add : (a b : ℕ) → 2 ^ (a + b) ≡ 2 ^ a * 2 ^ b
two_pow_add a zero =
    let none_more : a + 0 ≡ a = omega arith in ap (λ n. 2 ^ n) none_more ∙ omega arith
two_pow_add a (suc b) =
    let e = pow_step 2 b in
    let f = pow_step 2 (a + b) in
    let rest = two_pow_add a b in
    let g : 2 ^ a * (2 * 2 ^ b) ≡ 2 * (2 ^ a * 2 ^ b) = omega arith in
    let sums : a + suc b ≡ suc (a + b) = omega arith in
    ap (λ n. 2 ^ n) sums ∙ omega (arith, ap (λ z. 2 ^ a * z) e)

-- A word of `w` bits whose bits from `o` on are zero.
pub extract64-lt : (w o a : ℕ) → o ≤ w → a < 2 ^ w → extract64 a o (w - o) ≡ 0 → a < 2 ^ o
extract64-lt w o a h small e =
    let pos = one-le-pow o 2 (omega arith) in
    let sums : o + (w - o) ≡ w = omega arith in
    let whole : 2 ^ w ≡ 2 ^ o * 2 ^ (w - o) = ap (λ n. 2 ^ n) (sym sums) ∙ two_pow_add o (w - o) in
    let turned : a < 2 ^ (w - o) * 2 ^ o = omega arith in
    let under = (div-lt_iff_lt-mul {k = 2 ^ o} {x = a} {y = 2 ^ (w - o)} pos).1 turned in
    let zero_above : a / 2 ^ o ≡ 0 = sym (mod-eq_of_lt under) ∙ e in
    let under_one : a / 2 ^ o < 1 = omega arith in
    let below = (div-lt_iff_lt-mul {k = 2 ^ o} {x = a} {y = 1} pos).0 under_one in omega arith

pub check_out_addr-lt : (a o : ℕ) → a < 2 ^ 48 → check_out_addr a o ≡ true → a < 2 ^ o
unfolding check_out_addr
check_out_addr-lt a o h e = elim (Bool-cases (leb pa_bits o)) [
  | inl wide ↦ let grown = pow-le-pow_right {n = 2} (omega arith) (leb→le 48 o wide) in omega arith
  | inr narrow ↦
      let small : o ≤ 48 = ground (arith, narrow) in
      extract64-lt 48 o a small h (
        (==_iff (extract64 a o (48 - o)) 0).0
          (sym (ap (λ z. if z then true else extract64 a o (48 - o) == 0) narrow) ∙ e))
]

-- The granules that there are.
Known : Option Grain → Type 0
Known none = Unit
Known (some g) =
    ((g.grainsize ≡ 16) × (g.firstblocklevel ≡ 2))
    ⊎ ((g.grainsize ≡ 14) × (g.firstblocklevel ≡ 2))
    ⊎ ((g.grainsize ≡ 12) × (g.firstblocklevel ≡ 1))

granule_cases :
    (tg : ℕ) (g : Grain)
    → granule tg ≡ some g
    → ((g.grainsize ≡ 16) × (g.firstblocklevel ≡ 2))
      ⊎ ((g.grainsize ≡ 14) × (g.firstblocklevel ≡ 2))
      ⊎ ((g.grainsize ≡ 12) × (g.firstblocklevel ≡ 1))
unfolding granule Known
granule_cases tg g e = subst Known e (
    if_both Known (tg == 1) (λ _. inl (refl, refl))
      λ _.
        if_both Known (tg == 2) (λ _. inr (inl (refl, refl)))
          λ _. if_both Known (tg == 0) (λ _. inr (inr (refl, refl))) λ _. tt)

-- The three granules, and the sizes of what their leaves map.
pub leaf_size :
    (tg level : ℕ) (g : Grain)
    → granule tg ≡ some g
    → level ≤ 3
    → (level ≡ 3) ⊎ (g.firstblocklevel ≤ level)
    → (g.grainsize ≤ stride g.grainsize * (4 - level) + 3)
      × (stride g.grainsize * (4 - level) + 3 ≤ 32)
leaf_size tg level g e l b = elim (granule_cases tg g e) [
  | inl (n, f) ↦ let size = ap (λ z. stride z * (4 - level) + 3) n in (omega arith, omega arith)
  | inr (inl (n, f)) ↦
      let size = ap (λ z. stride z * (4 - level) + 3) n in (omega arith, omega arith)
  | inr (inr (n, f)) ↦
      let size = ap (λ z. stride z * (4 - level) + 3) n in (omega arith, omega arith)
]

module _ (tg level v : ℕ) (g : Grain) where
  -- The offset in a page of the smallest size is that of the input.
  pub leaf_offset :
      (q : ℕ)
      → granule tg ≡ some g
      → level ≤ 3
      → (level ≡ 3) ⊎ (g.firstblocklevel ≤ level)
      → bit_or (aligned g.grainsize q) (v % 2 ^ (stride g.grainsize * (4 - level) + 3))
          % 2 ^ g.grainsize
        ≡ v % 2 ^ g.grainsize
  leaf_offset q e l b =
      let n = g.grainsize in
      let size = stride n * (4 - level) + 3 in
      let sizes = leaf_size tg level g e l b in
      let sums : n + (size - n) ≡ size = omega (arith, sizes.0) in
      let whole : 2 ^ size ≡ 2 ^ n * 2 ^ (size - n) =
        ap (λ z. 2 ^ z) (sym sums) ∙ two_pow_add n (size - n) in
      let divides : 2 ^ n ∣ 2 ^ size =
        subst (λ z. 2 ^ n ∣ z) (sym whole) (dvd-mul_right (2 ^ n) (2 ^ (size - n))) in
      bit_or-rem n (aligned n q) (v % 2 ^ size)
      ∙ ap (λ z. bit_or z (v % 2 ^ size % 2 ^ n)) (aligned-rem n q)
      ∙ zero-bit_or (v % 2 ^ size % 2 ^ n)
      ∙ mod-mod_of_dvd (2 ^ n) v divides

  pub leaf_bound :
      (t o : ℕ)
      → granule tg ≡ some g
      → level ≤ 3
      → (level ≡ 3) ⊎ (g.firstblocklevel ≤ level)
      → 32 ≤ o
      → t < 2 ^ 48
      → check_out_addr t o ≡ true
      → bit_or t (v % 2 ^ (stride g.grainsize * (4 - level) + 3)) < 2 ^ o
  leaf_bound t o e l b h k c =
      let size = stride g.grainsize * (4 - level) + 3 in
      let fits : size ≤ o = omega (arith, (leaf_size tg level g e l b).1) in
      let grown = pow-le-pow_right {n = 2} (omega arith) fits in
      let low : v % 2 ^ size < 2 ^ size = mod-lt v (one-le-pow size 2 (omega arith)) in
      bit_or-lt o t (v % 2 ^ size) (check_out_addr-lt t o k c) (omega arith)
