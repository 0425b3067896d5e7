-- ===== src/Uart/Ibex/Buffer.antt =====
-- The buffer of one character, as an optional value.
use Prim.Native.Nat.{bit_or}
use qbox.Base.{
  ℕ, ◌%◌, ◌≡◌, refl, sym, ◌⊎◌, inl, inr, Bool, true, false, [], ◌∷◌, Option, none, some, ◌==◌,
  if◌then◌else◌, Bool-cases,
}
use mathlib.Core.Path.{subst}
use qbox.Uart.Ibex.{IbexUart, rx_enabled, recv, reg_read, can_receive_more}

-- The status is one of two words: the transmitter is always empty, and the two bits of the receiver
-- change together.
abbrev pub IsValid : IbexUart → Type 0
IsValid s = (s.status ≡ 52) ⊎ (s.status ≡ 4)

-- The character that waits.
abbrev pub pending : IbexUart → Option ℕ
pending s = if s.status == 4 then some s.rdata else none

-- What is left after a character: the one that waited, or the new one if the receiver is on.
abbrev pub joined : Bool → ℕ → Option ℕ → Option ℕ
joined true v none = some (v % 256)
joined false v none = none
joined on v (some c) = some c

abbrev pub Joins : ℕ → IbexUart → Type 0
Joins v s = IsValid (recv v s).0 × (pending (recv v s).0 ≡ joined (rx_enabled s) v (pending s))

empty-Joins : (v : ℕ) (s : IbexUart) → Joins v (record s { status = 52 })
unfolding recv
empty-Joins v s = elim (Bool-cases (rx_enabled s)) [
  | inl on ↦ rw on (inr refl, refl)
  | inr off ↦ rw off (inl refl, refl)
]

full-Joins : (v : ℕ) (s : IbexUart) → Joins v (record s { status = 4 })
unfolding recv
full-Joins v s = elim (Bool-cases (rx_enabled s)) [
  | inl on ↦ rw on (inr refl, refl)
  | inr off ↦ rw off (inr refl, refl)
]

-- From a status that the UART can have, a received character goes into the buffer if that is empty
-- and the receiver is on; otherwise it is dropped, and a character that waits stays.
pub recv-Joins : (v : ℕ) (s : IbexUart) → IsValid s → Joins v s
recv-Joins v s (inl e) = subst (λ k. Joins v (record s { status = k })) (sym e) (empty-Joins v s)
recv-Joins v s (inr e) = subst (λ k. Joins v (record s { status = k })) (sym e) (full-Joins v s)

-- What a read of the data register does to the buffer.
abbrev pub Takes : IbexUart → Type 0
Takes s =
    (t : IbexUart) × (reg_read 20 s ≡ (s.rdata, t, can_receive_more 1 ∷ []))
    × IsValid t
    × (pending t ≡ (if rx_enabled s then none else pending s))

Takes-at :
    (s : IbexUart) (k : ℕ) → (k ≡ 52) ⊎ (k ≡ 4) → bit_or k 48 ≡ 52 → Takes (record s { status = k })
unfolding reg_read
Takes-at s k h e = elim (Bool-cases (rx_enabled s)) [
  | inl on ↦ (record s { status = 52; rdata = 0 }, rw (on, e) refl, inl refl, rw on refl)
  | inr off ↦ (record s { status = k }, rw off refl, h, rw off refl)
]

-- A read of the data register returns the character that waits and leaves the buffer empty, if the
-- receiver is on, and leaves it as it is otherwise; the back end is told that there is room.
pub reg_read-Takes : (s : IbexUart) → IsValid s → Takes s
reg_read-Takes s (inl e) =
    subst (λ k. Takes (record s { status = k })) (sym e) (Takes-at s 52 (inl refl) refl)
reg_read-Takes s (inr e) =
    subst (λ k. Takes (record s { status = k })) (sym e) (Takes-at s 4 (inr refl) refl)
