-- ===== src/Uart/Pl011.antt =====
-- The PL011, systemc-components/uart/uart-pl011/include/uart-pl011.h: its registers and its receive
-- FIFO.
pub mod Fifo
pub mod Transport
mod Tests
use Prim.Native.Nat.{bit_and, bit_or, bit_xor}
use qbox.Base.{
  ℕ, zero, suc, ◌+◌, ◌-◌, ◌*◌, ◌/◌, ◌%◌, ◌^◌, Bool, true, false, not, ◌&&◌, ◌||◌, List, [], ◌∷◌,
  Option, none, some, ltb, leb, get_elem?, ◌==◌, if◌then◌else◌,
}
use qbox.Tlm.{Command, read, write, ignore, ok, Payload}

-- `PL011State`; the array of 16 words is a function of the index.
pub record Pl011 : Type 0 where
  pub flags : ℕ
  pub lcr : ℕ
  pub rsr : ℕ
  pub cr : ℕ
  pub dmacr : ℕ
  pub int_enabled : ℕ
  pub int_level : ℕ
  pub read_fifo : ℕ → ℕ
  pub ilpr : ℕ
  pub ibrd : ℕ
  pub fbrd : ℕ
  pub ifl : ℕ
  pub read_pos : ℕ
  pub read_count : ℕ
  pub read_trigger : ℕ

-- The state that the constructor leaves.
abbrev pub initial : Pl011
initial = record {
  flags = 144;
  lcr = 0;
  rsr = 0;
  cr = 768;
  dmacr = 0;
  int_enabled = 0;
  int_level = 0;
  read_fifo = λ i. 0;
  ilpr = 0;
  ibrd = 0;
  fbrd = 0;
  ifl = 18;
  read_pos = 0;
  read_count = 0;
  read_trigger = 1;
}

-- `PL011_INT_TX`, `PL011_INT_RX`, `PL011_FLAG_RXFF` and `PL011_FLAG_RXFE`
abbrev pub int_tx : ℕ
int_tx = 32

abbrev pub int_rx : ℕ
int_rx = 16

abbrev pub flag_rxff : ℕ
flag_rxff = 64

abbrev pub flag_rxfe : ℕ
flag_rxfe = 16

-- `irqmask[0]`
abbrev pub irq_mask : ℕ
irq_mask = 2047

-- `v & ~m` on 32 bits.
abbrev pub clear_bits : ℕ → ℕ → ℕ
clear_bits v m = bit_and v (bit_xor (m % 2 ^ 32) (2 ^ 32 - 1))

-- Calls on the back end, and the notification of the interrupt method.
pub data Call : Type 0 where
  can_receive_more can_receive_set enqueue : ℕ → Call
  update : Call

-- `pl011_update_sysc`: what is written to the interrupt line, if anything is.
unfoldable pub update_irq : Pl011 → Option Bool
update_irq s =
    if bit_and irq_mask s.int_enabled == 0
    then none
    else some (not (bit_and (bit_and s.int_level s.int_enabled) irq_mask == 0))

-- A read of UARTDR.
abbrev pub next : ℕ → ℕ
next pos = if suc pos == 16 then 0 else suc pos

abbrev pub taken : Pl011 → Pl011
taken s =
    if s.read_count == 0
    then s
    else record s { read_count = s.read_count - 1; read_pos = next s.read_pos }

abbrev pub settled : ℕ → Pl011 → Pl011
settled c s = record s {
  flags = if s.read_count == 0 then bit_or s.flags flag_rxfe else s.flags;
  int_level =
      if suc s.read_count == s.read_trigger then clear_bits s.int_level int_rx else s.int_level;
  rsr = c / 256;
}

unfoldable pub read_data : Pl011 → Option (ℕ × Pl011 × List Call)
read_data s =
    let c = s.read_fifo s.read_pos in
    some (
      c,
      settled c (taken (record s { flags = clear_bits s.flags flag_rxff })),
      if s.read_count == 0 then update ∷ [] else can_receive_more 1 ∷ update ∷ [],
    )

abbrev pub peripheral_id : List ℕ
peripheral_id = 17 ∷ 16 ∷ 20 ∷ 0 ∷ 13 ∷ 240 ∷ 5 ∷ 177 ∷ []

-- A read that changes nothing; `none` is a read outside of the array.
abbrev pub plain : Pl011 → Option ℕ → Option (ℕ × Pl011 × List Call)
plain s none = none
plain s (some r) = some (r, s, [])

abbrev pub read_register : ℕ → ℕ → Pl011 → Option ℕ
read_register reg offset s =
    if reg == 1
    then some s.rsr
    else if reg == 6
    then some s.flags
    else if reg == 8
    then some s.ilpr
    else if reg == 9
    then some s.ibrd
    else if reg == 10
    then some s.fbrd
    else if reg == 11
    then some s.lcr
    else if reg == 12
    then some s.cr
    else if reg == 13
    then some s.ifl
    else if reg == 14
    then some s.int_enabled
    else if reg == 15
    then some s.int_level
    else if reg == 16
    then some (bit_and s.int_level s.int_enabled)
    else if reg == 18
    then some s.dmacr
    else if leb 1016 reg && leb reg 1024
    then get_elem? peripheral_id ((offset - 4064) / 4)
    else some 0

-- `pl011_read`
unfoldable pub pl011_read : ℕ → Pl011 → Option (ℕ × Pl011 × List Call)
unfolding read_data
pl011_read offset s =
    if offset / 4 == 0 then read_data s else plain s (read_register (offset / 4) offset s)

-- `pl011_set_read_trigger`
abbrev pub set_read_trigger : Pl011 → Pl011
set_read_trigger s = record s { read_trigger = 1; read_count = 0 }

abbrev pub reset_fifo : ℕ → Pl011 → Pl011
reset_fifo value s =
    if bit_and (bit_xor s.lcr value) 16 == 0 then s else record s { read_count = 0; read_pos = 0 }

-- `pl011_write`, of a 32-bit value.
unfoldable pub pl011_write : ℕ → ℕ → Pl011 → Pl011 × List Call
pl011_write offset value s =
    let reg = offset / 4 in
    if reg == 0
    then (
      record s { int_level = bit_or s.int_level int_tx },
      enqueue (bit_and value 255) ∷ update ∷ [],
    )
    else if reg == 1
    then (record s { rsr = 0 }, [])
    else if reg == 8
    then (record s { ilpr = value }, [])
    else if reg == 9
    then (record s { ibrd = value }, [])
    else if reg == 10
    then (record s { fbrd = value }, [])
    else if reg == 11
    then (set_read_trigger (record (reset_fifo value s) { lcr = value }), can_receive_set 16 ∷ [])
    else if reg == 12
    then (record s { cr = value }, [])
    else if reg == 13
    then (set_read_trigger (record s { ifl = value }), can_receive_set 16 ∷ [])
    else if reg == 14
    then (record s { int_enabled = value }, update ∷ [])
    else if reg == 17
    then (record s { int_level = clear_bits s.int_level value }, update ∷ [])
    else if reg == 18
    then (record s { dmacr = value }, [])
    else (s, [])

-- `pl011_put_fifo`; `none` is a write outside of the array.
abbrev pub slot_of : ℕ → ℕ → ℕ
slot_of pos count = if leb 16 (pos + count) then pos + count - 16 else pos + count

abbrev pub stored : ℕ → ℕ → Pl011 → Pl011
stored slot value s =
    let full = (bit_and s.lcr 16 == 0) || (suc s.read_count == 16) in
    let flags = clear_bits s.flags flag_rxfe in
    record s {
      read_fifo = λ i. if i == slot then value else s.read_fifo i;
      read_count = suc s.read_count;
      flags = if full then bit_or flags flag_rxff else flags;
      int_level =
          if suc s.read_count == s.read_trigger then bit_or s.int_level int_rx else s.int_level;
    }

unfoldable pub put_fifo : ℕ → Pl011 → Option (Pl011 × List Call)
put_fifo value s =
    if leb 16 (slot_of s.read_pos s.read_count)
    then none
    else some (
      stored (slot_of s.read_pos s.read_count) value s,
      if suc s.read_count == s.read_trigger then update ∷ [] else [],
    )
