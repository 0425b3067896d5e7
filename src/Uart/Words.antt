-- ===== src/Uart/Words.antt =====
-- How the UARTs read and write a word of one, two or four bytes at the data pointer: little-endian.
use qbox.Base.{
  ℕ, zero, suc, ◌+◌, ◌*◌, ◌/◌, ◌%◌, Bool, ◌||◌, List, [], ◌∷◌, Option, none, some, ◌==◌,
}

-- The word in the first bytes of a buffer; `none` is a read past its end.
abbrev pub with_low : ℕ → Option ℕ → Option ℕ
with_low b none = none
with_low b (some r) = some (b + 256 * r)

unfoldable pub word_of : ℕ → List ℕ → Option ℕ
word_of zero bs = some 0
word_of (suc n) [] = none
word_of (suc n) (b ∷ bs) = with_low b (word_of n bs)

unfoldable pub bytes_of : ℕ → ℕ → List ℕ
bytes_of zero v = []
bytes_of (suc n) v = v % 256 ∷ bytes_of n (v / 256)

abbrev pub is_size : ℕ → Bool
is_size len = (len == 1) || (len == 2) || (len == 4)
