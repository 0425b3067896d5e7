-- ===== src/Uart/Pl011/Transport.antt =====
-- The transactions of the PL011: register accesses of one, two or four bytes, and the words that the
-- back end sends.
pub mod Receive
use qbox.Base.{
  ℕ, zero, suc, ◌+◌, ◌*◌, ◌/◌, ◌%◌, Bool, true, false, ◌||◌, List, [], ◌∷◌, ◌++◌, Option, none,
  some, drop, leb, length, ◌==◌, if◌then◌else◌,
}
use qbox.Tlm.{Command, read, write, ignore, ok, Payload}
use qbox.Uart.Words.{word_of, bytes_of, is_size}
use qbox.Uart.Pl011.{Pl011, Call, pl011_read, pl011_write, put_fifo}

-- The payload with its answer.
abbrev pub answered : Payload → Payload
answered p = record p { dmi_allowed = false; response = ok }

-- A finished access; `none` is the fatal report, or an access outside of an array.
abbrev pub Accessed : Type 0
Accessed = Option (Pl011 × Payload × List Call)

abbrev pub write_word : Payload → Pl011 → Option ℕ → Accessed
write_word p s none = none
write_word p s (some v) = let (t, calls) = pl011_write p.address v s in some (t, answered p, calls)

abbrev pub read_word : Payload → Option (ℕ × Pl011 × List Call) → Accessed
read_word p none = none
read_word p (some (v, t, calls)) =
    if leb p.data_length (length p.bytes)
    then some (
      t,
      answered (record p { bytes = bytes_of p.data_length v ++ drop p.data_length p.bytes }),
      calls,
    )
    else none

abbrev pub access : Payload → Command → Pl011 → Accessed
access p write s =
    if is_size p.data_length then write_word p s (word_of p.data_length p.bytes) else none
access p read s = if is_size p.data_length then read_word p (pl011_read p.address s) else none
access p ignore s = some (s, answered p, [])

-- `b_transport`
unfoldable pub b_transport : Payload → Pl011 → Accessed
b_transport p s = access p p.command s

-- `pl011_receive`
abbrev pub Received : Type 0
Received = Option (Pl011 × List Call)

abbrev pub with_calls : List Call → Received → Received
with_calls calls none = none
with_calls calls (some (s, more)) = some (s, calls ++ more)

abbrev pub then_receive : (Pl011 → Received) → Received → Received
then_receive rest none = none
then_receive rest (some (s, calls)) = with_calls calls (rest s)

unfoldable pub receive : ℕ → List ℕ → Pl011 → Received
receive zero bs s = some (s, [])
receive (suc n) [] s = none
receive (suc n) (b ∷ bs) s = then_receive (receive n bs) (put_fifo b s)

unfoldable pub pl011_receive : Payload → Pl011 → Received
unfolding receive
pl011_receive p s = receive p.streaming_width p.bytes s
