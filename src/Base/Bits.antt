-- ===== src/Base/Bits.antt =====
-- `|` on words: its lowest digit, its low digits, its bound, and fields that do not overlap.
use Prim.Native.Nat.{
  ℕ, zero, suc, ◌+◌, ◌*◌, ◌/◌, ◌%◌, ◌^◌, ◌≤◌, ◌<◌, max, digits, bit_or, bit_or-bitwise,
}
use mathlib.Core.Path.{◌≡◌, refl, sym, ap, ◌∙◌}
use native.Mathlib.Nat.{one-le-pow, mul-add-mod_self_right, mod-eq_of_lt}
use native.Mathlib.Omega.{arith, pow_step}

abbrev or_digits : ℕ → ℕ → ℕ → ℕ
or_digits n a b = digits (λ b. b) max n a b

or_digits_fuel : (n m a b : ℕ) → a ≤ n → a ≤ m → or_digits n a b ≡ or_digits m a b
or_digits_fuel zero zero a b h k = refl
or_digits_fuel zero (suc m) zero b h k = refl
or_digits_fuel zero (suc m) (suc a) b h k = absurd (omega arith)
or_digits_fuel (suc n) zero zero b h k = refl
or_digits_fuel (suc n) zero (suc a) b h k = absurd (omega arith)
or_digits_fuel (suc n) (suc m) zero b h k = refl
or_digits_fuel (suc n) (suc m) (suc a) b h k =
    omega (arith, or_digits_fuel n m (suc a / 2) (b / 2) (omega arith) (omega arith))

pub zero-bit_or : (b : ℕ) → bit_or 0 b ≡ b
zero-bit_or b = bit_or-bitwise 0 b

pub bit_or_step : (a b : ℕ) → bit_or a b ≡ bit_or (a / 2) (b / 2) * 2 + max (a % 2) (b % 2)
bit_or_step zero b = omega (arith, zero-bit_or b, zero-bit_or (b / 2))
bit_or_step (suc a) b = omega (
  arith,
  bit_or-bitwise (suc a) b,
  bit_or-bitwise (suc a / 2) (b / 2),
  or_digits_fuel a (suc a / 2) (suc a / 2) (b / 2) (omega arith) (omega arith),
)

pub bit_or-lt : (k a b : ℕ) → a < 2 ^ k → b < 2 ^ k → bit_or a b < 2 ^ k
bit_or-lt zero a b h l = ground (arith, zero-bit_or 0)
bit_or-lt (suc k) a b h l =
    let p = pow_step 2 k in
    let rest = bit_or-lt k (a / 2) (b / 2) (omega arith) (omega arith) in
    omega (arith, bit_or_step a b)

-- Digit by digit, the fields above and below `k` are joined apart.
pub bit_or_fields :
    (k p q r t : ℕ)
    → r < 2 ^ k
    → t < 2 ^ k
    → bit_or (p * 2 ^ k + r) (q * 2 ^ k + t) ≡ bit_or p q * 2 ^ k + bit_or r t
bit_or_fields zero p q r t h l = ground (arith, zero-bit_or 0)
bit_or_fields (suc k) p q r t h l =
    let e = pow_step 2 k in
    let a : p * 2 ^ suc k ≡ 2 * (p * 2 ^ k) = omega (arith, ap (λ z. p * z) e) in
    let b : q * 2 ^ suc k ≡ 2 * (q * 2 ^ k) = omega (arith, ap (λ z. q * z) e) in
    let c : bit_or p q * 2 ^ suc k ≡ 2 * (bit_or p q * 2 ^ k) =
      omega (arith, ap (λ z. bit_or p q * z) e) in
    let f : (p * 2 ^ suc k + r) / 2 ≡ p * 2 ^ k + r / 2 = omega arith in
    let g : (q * 2 ^ suc k + t) / 2 ≡ q * 2 ^ k + t / 2 = omega arith in
    let rest = bit_or_fields k p q (r / 2) (t / 2) (omega arith) (omega arith) in
    let step = bit_or_step (p * 2 ^ suc k + r) (q * 2 ^ suc k + t) in
    let here = ap (λ z. bit_or z ((q * 2 ^ suc k + t) / 2)) f ∙ ap (bit_or (p * 2 ^ k + r / 2)) g in
    omega (arith, bit_or_step r t)

-- The low digits of `|` are those of its arguments.
pub bit_or-rem : (k a b : ℕ) → bit_or a b % 2 ^ k ≡ bit_or (a % 2 ^ k) (b % 2 ^ k)
bit_or-rem k a b =
    let pos = one-le-pow k 2 in
    let f : a / 2 ^ k * 2 ^ k + a % 2 ^ k ≡ a = grind arith in
    let g : b / 2 ^ k * 2 ^ k + b % 2 ^ k ≡ b = grind arith in
    let h : a % 2 ^ k < 2 ^ k = grind arith in
    let l : b % 2 ^ k < 2 ^ k = grind arith in
    let low = bit_or-lt k (a % 2 ^ k) (b % 2 ^ k) h l in
    let e =
      ap (λ z. bit_or z b) (sym f)
      ∙ ap (bit_or (a / 2 ^ k * 2 ^ k + a % 2 ^ k)) (sym g)
      ∙ bit_or_fields k (a / 2 ^ k) (b / 2 ^ k) (a % 2 ^ k) (b % 2 ^ k) h l in
    ap (λ z. z % 2 ^ k) e
    ∙ mul-add-mod_self_right (bit_or (a / 2 ^ k) (b / 2 ^ k)) (2 ^ k)
        (bit_or (a % 2 ^ k) (b % 2 ^ k))
    ∙ mod-eq_of_lt low

bit_or-zero_fuel : (n a : ℕ) → a ≤ n → bit_or a 0 ≡ a
bit_or-zero_fuel n zero h = zero-bit_or 0
bit_or-zero_fuel zero (suc a) h = absurd (omega arith)
bit_or-zero_fuel (suc n) (suc a) h =
    omega (arith, bit_or_step (suc a) 0, bit_or-zero_fuel n (suc a / 2) (omega arith))

-- A multiple of `2 ^ k` and a number below it do not overlap.
pub bit_or-aligned : (k q r : ℕ) → r < 2 ^ k → bit_or (q * 2 ^ k) r ≡ q * 2 ^ k + r
bit_or-aligned k q r h =
    let pos = one-le-pow k 2 (omega arith) in
    let left : q * 2 ^ k ≡ q * 2 ^ k + 0 = omega arith in
    let right : r ≡ 0 * 2 ^ k + r = omega arith in
    let whole = bit_or-zero_fuel q q (omega arith) in
    ap (λ z. bit_or z r) left
    ∙ ap (bit_or (q * 2 ^ k + 0)) right
    ∙ bit_or_fields k q 0 0 r (omega arith) h
    ∙ ap (λ z. z * 2 ^ k + bit_or 0 r) whole
    ∙ ap (λ z. q * 2 ^ k + z) (zero-bit_or r)

pub bit_or_same : (k a : ℕ) → a < 2 ^ k → bit_or a a ≡ a
bit_or_same zero a h = ground (arith, zero-bit_or 0)
bit_or_same (suc k) a h =
    let e = pow_step 2 k in
    let rest = bit_or_same k (a / 2) (omega arith) in omega (arith, bit_or_step a a)

bit_or-le_fuel : (n a b : ℕ) → a ≤ n → bit_or a b ≤ a + b
bit_or-le_fuel n zero b h = omega (arith, zero-bit_or b)
bit_or-le_fuel zero (suc a) b h = absurd (omega arith)
bit_or-le_fuel (suc n) (suc a) b h =
    omega (arith, bit_or_step (suc a) b, bit_or-le_fuel n (suc a / 2) (b / 2) (omega arith))

pub bit_or-le : (a b : ℕ) → bit_or a b ≤ a + b
bit_or-le a b = bit_or-le_fuel a a b (omega arith)
