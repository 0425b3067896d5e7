-- ===== src/Memory/Storage.antt =====
-- What the memory does with its tree: `read_sub_blocks`, `write_sub_blocks`, `read`, `write`,
-- `doreset` and `before_end_of_elaboration` of systemc-components/gs_memory/include/gs_memory.h.
pub mod Turn
pub mod Loop
pub mod Contents
use qbox.Base.{
  ℕ, zero, suc, ◌+◌, ◌-◌, Bool, true, false, ◌&&◌, Option, none, some, ltb, leb, ◌==◌,
  if◌then◌else◌, is_some,
}
use qbox.Base.Outcomes.{Outcome, done, fatal, no_fuel}
use qbox.Base.Word.{add64}
use qbox.Memory.{
  Bytes, memcpy, memset, Area, Config, Info, Block, block, Slot, empty, full, Subs, four, new_info,
  no_subs, Visitor, access,
}

-- The depth of a tree whose length has 64 bits.
abbrev pub depth : ℕ
depth = 33

-- `read_sub_blocks` and `write_sub_blocks` on the block at `m_address` of length `m_len`: the
-- number of bytes, with the buffer for the former. The buffer is `&data[i]`. An offset outside of
-- the block shows what is not the block's.
abbrev pub remain_len : ℕ → ℕ → ℕ → ℕ → ℕ
remain_len m_address m_len offset len =
    let block_len = m_len - (offset - m_address) in if ltb len block_len then len else block_len

abbrev pub is_inside : ℕ → ℕ → ℕ → Bool
is_inside m_address m_len offset = leb m_address offset && ltb offset (m_address + m_len)

unfoldable pub read_sub_blocks : Bytes → ℕ → ℕ → ℕ → Visitor (ℕ × Bytes)
read_sub_blocks bytes i offset len m_address m_len r =
    let n = remain_len m_address m_len offset len in
    if is_inside m_address m_len offset
    then done ((n, memcpy bytes i r.bytes (offset - m_address) n), r)
    else fatal

unfoldable pub write_sub_blocks : Bytes → ℕ → ℕ → ℕ → Visitor (ℕ × Bytes)
write_sub_blocks bytes i offset len m_address m_len r =
    let n = remain_len m_address m_len offset len in
    if is_inside m_address m_len offset
    then done ((n, bytes), record r { bytes = memcpy r.bytes (offset - m_address) bytes i n })
    else fatal

-- The loop of `read` and of `write`, on fuel: every turn takes a byte at least.
abbrev pub Turn : Type 0
Turn = Bytes → ℕ → ℕ → ℕ → Visitor (ℕ × Bytes)

abbrev pub next_turn :
    (Bytes → ℕ → ℕ → Block → Outcome (Bytes × Block))
    → ℕ
    → ℕ
    → Outcome ((ℕ × Bytes) × Block)
    → Outcome (Bytes × Block)
next_turn rest i len (done ((n, bytes), b)) = rest bytes (i + n) (len - n) b
next_turn rest i len fatal = fatal
next_turn rest i len no_fuel = no_fuel

unfoldable pub each_block : Config → Turn → ℕ → ℕ → Bytes → ℕ → ℕ → Block → Outcome (Bytes × Block)
each_block c f fuel offset bytes i zero b = done (bytes, b)
each_block c f zero offset bytes i (suc len) b = no_fuel
each_block c f (suc fuel) offset bytes i (suc len) b =
    next_turn (each_block c f fuel offset) i (suc len)
      (access c depth (add64 offset i) (f bytes i (add64 offset i) (suc len)) b)

-- The entries of the configuration for one target socket.
pub record Keys : Type 0 where
  pub address : Option ℕ
  pub size : Option ℕ

-- The presets of the broker: the memory's own, those of the socket that the entry `0` names, and
-- the addressing.
pub record Presets : Type 0 where
  pub own : Keys
  pub alias : Option Keys
  pub relative_addresses : Option Bool

-- The members of `gs_memory`.
pub record Memory : Type 0 where
  pub m_size : ℕ
  pub m_address : ℕ
  pub m_address_valid : Bool
  pub m_relative_addresses : Bool
  pub m_sub_block : Option Block

-- `base`, and `size`; the latter ends the simulation where no entry gives the size.
abbrev pub chosen : Option Keys → Keys → Bool → Keys
chosen none own given = own
chosen (some alias) own given = if given then own else alias

abbrev pub value_or : ℕ → Option ℕ → ℕ
value_or d none = d
value_or d (some v) = v

unfoldable pub base : Presets → Memory → ℕ
base p m =
    if m.m_address_valid
    then m.m_address
    else value_or 0 (chosen p.alias p.own (is_some p.own.address)).address

abbrev pub required : Option ℕ → Outcome ℕ
required none = fatal
required (some v) = done v

unfoldable pub size : Presets → Memory → Outcome ℕ
size p m =
    if m.m_size == 0
    then required (chosen p.alias p.own (is_some p.own.size)).size
    else done m.m_size

abbrev pub flag_or : Bool → Option Bool → Bool
flag_or d none = d
flag_or d (some v) = v

abbrev pub elaborated : Presets → Memory → Outcome ℕ → Outcome (Memory × Block)
elaborated p m (done len) =
    let b = block (new_info 0 len) no_subs in
    done (
      record {
        m_size = len;
        m_address = base p m;
        m_address_valid = true;
        m_relative_addresses = flag_or true p.relative_addresses;
        m_sub_block = some b;
      },
      b,
    )
elaborated p m fatal = fatal
elaborated p m no_fuel = no_fuel

-- The memory with its tree, made if it is missing.
abbrev pub elaborate_with : Presets → Memory → Option Block → Outcome (Memory × Block)
elaborate_with p m none = elaborated p m (size p m)
elaborate_with p m (some b) = done (m, b)

unfoldable pub before_end_of_elaboration : Presets → Memory → Outcome (Memory × Block)
before_end_of_elaboration p m = elaborate_with p m m.m_sub_block

-- `read` and `write`: `none` for the result `false`, else the buffer and the memory.
abbrev pub Moved : Type 0
Moved = Outcome (Bool × Bytes × Memory)

abbrev pub store_tree : Memory → Outcome (Bytes × Block) → Moved
store_tree m (done (bytes, b)) = done (true, bytes, record m { m_sub_block = some b })
store_tree m fatal = fatal
store_tree m no_fuel = no_fuel

abbrev pub move_in : Config → Turn → Bytes → ℕ → ℕ → Outcome (Memory × Block) → Moved
move_in c f bytes offset len (done (m, b)) =
    if ltb m.m_size (add64 offset len)
    then done (false, bytes, m)
    else store_tree m (each_block c f len offset bytes 0 len b)
move_in c f bytes offset len fatal = fatal
move_in c f bytes offset len no_fuel = no_fuel

unfoldable pub read : Config → Presets → Bytes → ℕ → ℕ → Memory → Moved
read c p bytes offset len m =
    move_in c read_sub_blocks bytes offset len (before_end_of_elaboration p m)

unfoldable pub write : Config → Presets → Bytes → ℕ → ℕ → Memory → Moved
write c p bytes offset len m =
    move_in c write_sub_blocks bytes offset len (before_end_of_elaboration p m)

-- `SubBlock::doreset`. Its loop goes over `N` sub-blocks, which are 2.
abbrev pub reset_area : Config → ℕ → Option Area → Option Area
reset_area c len none = none
reset_area c len (some r) =
    some (if c.init_mem then record r { bytes = memset r.bytes c.init_mem_val len } else r)

unfoldable mutual
  pub doreset : Config → Block → Block
  doreset c (block i s) = block (record i { area = reset_area c i.len i.area }) (reset_subs c s)

  pub reset_slot : Config → Slot → Slot
  reset_slot c empty = empty
  reset_slot c (full b) = full (doreset c b)

  pub reset_subs : Config → Subs → Subs
  reset_subs c (four w x y z) = four (reset_slot c w) (reset_slot c x) y z
