-- ===== src/Uart/Ibex.antt =====
-- The Ibex UART, systemc-components/uart/uart-ibex/include/uart-ibex.h: a buffer of one character.
pub mod Buffer
mod Tests
use Prim.Native.Nat.{bit_and, bit_or, bit_xor}
use qbox.Base.{
  ℕ, zero, suc, ◌-◌, ◌%◌, ◌^◌, Bool, true, false, not, ◌&&◌, List, [], ◌∷◌, ◌++◌, Option, none,
  some, drop, leb, length, ◌==◌, if◌then◌else◌,
}
use qbox.Tlm.{Command, read, write, ignore, ok, address_error, Payload}
use qbox.Uart.Words.{word_of, bytes_of, is_size}

pub record IbexUart : Type 0 where
  pub it_state : ℕ
  pub it_enable : ℕ
  pub ctrl : ℕ
  pub status : ℕ
  pub rdata : ℕ

-- The state that the constructor leaves.
abbrev pub initial : IbexUart
initial = record { it_state = 0; it_enable = 0; ctrl = 0; status = 52; rdata = 0 }

-- Calls on the back end, and the notification of `update_irqs`.
pub data Call : Type 0 where
  can_receive_more can_receive_set enqueue : ℕ → Call
  update : Call

-- `v & ~m` on 32 bits.
abbrev pub clear_bits : ℕ → ℕ → ℕ
clear_bits v m = bit_and v (bit_xor (m % 2 ^ 32) (2 ^ 32 - 1))

-- `ctrl & FIELD_CTRL_RXENABLE` and `status & FIELD_STATUS_RXEMPTY`
abbrev pub rx_enabled : IbexUart → Bool
rx_enabled s = not (bit_and s.ctrl 2 == 0)

abbrev pub rx_empty : IbexUart → Bool
rx_empty s = not (bit_and s.status 32 == 0)

-- `update_irqs`: what is written to the interrupt line.
unfoldable pub update_irqs : IbexUart → Bool
update_irqs s = not (bit_and (bit_and s.it_state s.it_enable) 2 == 0)

-- `recv`; a character that finds no room is reported and dropped.
unfoldable pub recv : ℕ → IbexUart → IbexUart × List Call
recv value s =
    if rx_enabled s && rx_empty s
    then (
      record s {
        rdata = value % 256;
        status = clear_bits s.status 48;
        it_state = bit_or s.it_state 2;
      },
      update ∷ [],
    )
    else (s, [])

-- `reg_read`
unfoldable pub reg_read : ℕ → IbexUart → ℕ × IbexUart × List Call
reg_read addr s =
    if addr == 0
    then (s.it_state, s, [])
    else if addr == 4
    then (s.it_enable, s, [])
    else if addr == 12
    then (s.ctrl, s, [])
    else if addr == 16
    then (s.status, s, [])
    else if addr == 20
    then (
      s.rdata,
      if rx_enabled s then record s { status = bit_or s.status 48; rdata = 0 } else s,
      can_receive_more 1 ∷ [],
    )
    else (0, s, [])

-- `reg_write`
unfoldable pub reg_write : ℕ → ℕ → IbexUart → IbexUart × List Call
reg_write addr value s =
    if addr == 0
    then (record s { it_state = clear_bits s.it_state value }, update ∷ [])
    else if addr == 4
    then (record s { it_enable = bit_and value 2 }, can_receive_set 1 ∷ update ∷ [])
    else if addr == 12
    then (record s { ctrl = value }, [])
    else if addr == 24
    then (s, enqueue (bit_and value 255) ∷ [])
    else (s, [])

-- A finished access; `none` is the fatal report, or an access past the end of the buffer.
abbrev pub Accessed : Type 0
Accessed = Option (IbexUart × Payload × List Call)

abbrev pub answered : Payload → Payload
answered p = record p { dmi_allowed = false; response = ok }

abbrev pub write_word : Payload → IbexUart → Option ℕ → Accessed
write_word p s none = none
write_word p s (some v) = let (t, calls) = reg_write p.address v s in some (t, answered p, calls)

abbrev pub read_word : Payload → ℕ × IbexUart × List Call → Accessed
read_word p (v, t, calls) =
    if leb p.data_length (length p.bytes)
    then some (
      t,
      answered (record p { bytes = bytes_of p.data_length v ++ drop p.data_length p.bytes }),
      calls,
    )
    else none

abbrev pub access : Payload → Command → IbexUart → Accessed
access p write s =
    if is_size p.data_length then write_word p s (word_of p.data_length p.bytes) else none
access p read s = if is_size p.data_length then read_word p (reg_read p.address s) else none
access p ignore s = some (s, answered p, [])

-- `b_transport`
unfoldable pub b_transport : Payload → IbexUart → Accessed
b_transport p s =
    if bit_and p.address 3 == 0
    then access p p.command s
    else some (s, record p { response = address_error }, [])

-- `receive`; `none` is a read past the end of the buffer.
abbrev pub with_calls : List Call → Option (IbexUart × List Call) → Option (IbexUart × List Call)
with_calls calls none = none
with_calls calls (some (s, more)) = some (s, calls ++ more)

unfoldable pub receive_bytes : ℕ → List ℕ → IbexUart → Option (IbexUart × List Call)
receive_bytes zero bs s = some (s, [])
receive_bytes (suc n) [] s = none
receive_bytes (suc n) (b ∷ bs) s = with_calls (recv b s).1 (receive_bytes n bs (recv b s).0)

unfoldable pub receive : Payload → IbexUart → Option (IbexUart × List Call)
unfolding receive_bytes
receive p s = receive_bytes p.streaming_width p.bytes s
