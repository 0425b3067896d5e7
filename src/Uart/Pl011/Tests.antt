-- ===== src/Uart/Pl011/Tests.antt =====
-- A PL011 that receives three words.
use qbox.Base.{◌≡◌, refl, false, [], ◌∷◌, none, some, arith}
use qbox.Tlm.{write, incomplete, Payload}
use qbox.Uart.Pl011.{Pl011, initial, pl011_read, can_receive_more, update}
use qbox.Uart.Pl011.Fifo.{waiting, queue, IsPlaced, pl011_read-queue}
use qbox.Uart.Pl011.Transport.{pl011_receive}
use qbox.Uart.Pl011.Transport.Receive.{Queues, pl011_receive-Queues}

abbrev sent : Payload
sent = record {
  command = write;
  address = 0;
  bytes = 104 ∷ 105 ∷ 10 ∷ [];
  data_length = 3;
  byte_enable = none;
  streaming_width = 3;
  dmi_allowed = false;
  response = incomplete;
  path = none;
  exclusive = none;
  underlying = none;
}

-- A word at the last place of the array.
abbrev late : Pl011
late = record initial { read_pos = 15; read_count = 2; read_fifo = λ i. i }

late-queue : queue late ≡ 15 ∷ 0 ∷ []
unfolding waiting
late-queue = refl

pl011_read-queue_example :
    (t : Pl011) × (pl011_read 0 late ≡ some (15, t, can_receive_more 1 ∷ update ∷ []))
    × IsPlaced t
    × (queue t ≡ 0 ∷ [])
pl011_read-queue_example =
    pl011_read-queue 0 15 (0 ∷ []) late (omega arith) (omega arith) late-queue

pl011_receive-Queues_example : Queues (104 ∷ 105 ∷ 10 ∷ []) late (pl011_receive sent late)
pl011_receive-Queues_example =
    pl011_receive-Queues sent late (omega arith) (omega arith) (omega arith)
