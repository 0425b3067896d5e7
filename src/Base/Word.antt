-- ===== src/Base/Word.antt =====
-- `uint64_t` arithmetic: a word is a native number below 2 ^ 64, and every operation wraps.
use Prim.Native.Nat.{ℕ, ◌+◌, ◌-◌, ◌%◌, ◌^◌, ◌<◌}
use mathlib.Core.Path.{◌≡◌}
use native.Mathlib.Omega.{arith}

abbrev pub word_mod : ℕ
word_mod = 2 ^ 64

-- `std::numeric_limits<uint64_t>::max()`
abbrev pub word_max : ℕ
word_max = 2 ^ 64 - 1

abbrev pub add64 : ℕ → ℕ → ℕ
add64 a b = (a + b) % 2 ^ 64

-- `-` on ℕ stops at 0, so the modulus is added first.
abbrev pub sub64 : ℕ → ℕ → ℕ
sub64 a b = (a + 2 ^ 64 - b) % 2 ^ 64

pub add64-sub64 : (a b : ℕ) → a < 2 ^ 64 → b < 2 ^ 64 → add64 (sub64 a b) b ≡ a
add64-sub64 a b h k = omega arith

pub sub64-add64 : (a b : ℕ) → a < 2 ^ 64 → b < 2 ^ 64 → sub64 (add64 a b) b ≡ a
sub64-add64 a b h k = omega arith
