-- ===== src/Memory/Transport.antt =====
-- The memory's transactions: `b_transport`, `transport_dbg`, `get_direct_mem_ptr` and the reset of
-- systemc-components/gs_memory/include/gs_memory.h. Time and the shared-memory extension are not
-- modelled.
pub mod Whole
pub mod Grant
pub mod Reject
pub mod Enabled
pub mod Reset
use qbox.Base.{
  ℕ, zero, suc, ◌+◌, ◌-◌, ◌%◌, Bool, true, false, List, [], ◌∷◌, Option, none, some, length,
  get_elem?, ltb, leb, ◌==◌, if◌then◌else◌,
}
use qbox.Base.Outcomes.{Outcome, done, fatal, no_fuel}
use qbox.Base.Word.{add64, sub64}
use qbox.Tlm.{
  Command, read, write, ignore, Response, ok, address_error, command_error, Dmi, read_allowed,
  read_write_allowed, Payload,
}
use qbox.Memory.{Bytes, Config, Block, Visitor, access}
use qbox.Memory.Storage
use qbox.Memory.Storage.{Presets, Memory, Moved, depth, doreset}

-- What the data pointer shows, and the same memory after a transfer.
abbrev pub bytes_of : List ℕ → Bytes
bytes_of [] k = 0
bytes_of (x ∷ xs) zero = x
bytes_of (x ∷ xs) (suc k) = bytes_of xs k

abbrev pub list_of : ℕ → Bytes → List ℕ
list_of zero bytes = []
list_of (suc n) bytes = bytes 0 ∷ list_of n (λ k. bytes (suc k))

-- The pointer `&ptr[i]`, and `ptr` after a transfer to `&ptr[i]`.
abbrev pub from_index : ℕ → Bytes → Bytes
from_index i bytes k = bytes (i + k)

abbrev pub back_index : ℕ → Bytes → Bytes → Bytes
back_index i bytes part k = if leb i k then part (k - i) else bytes k

abbrev pub Answer : Type 0
Answer = Outcome (Payload × Memory)

-- The loop over the bytes that are enabled: `n` are left, from `i` on. An index outside of the
-- byte enables, which a length of 0 gives, ends the simulation.
abbrev pub Step : Type 0
Step = Bytes → ℕ → ℕ → Memory → Moved

abbrev pub moved_on :
    (Bytes → Memory → Outcome (Bytes × Memory)) → ℕ → Bytes → Moved → Outcome (Bytes × Memory)
moved_on rest i bytes (done (true, part, m)) = rest (back_index i bytes part) m
moved_on rest i bytes (done (false, part, m)) = fatal
moved_on rest i bytes fatal = fatal
moved_on rest i bytes no_fuel = no_fuel

abbrev pub enabled :
    (Bytes → Memory → Outcome (Bytes × Memory))
    → Step
    → ℕ
    → ℕ
    → Bytes
    → Memory
    → Option ℕ
    → Outcome (Bytes × Memory)
enabled rest f addr i bytes m none = fatal
enabled rest f addr i bytes m (some e) =
    if e == 255
    then moved_on rest i bytes (f (from_index i bytes) (add64 addr i) 1 m)
    else rest bytes m

unfoldable pub each_enabled : Step → List ℕ → ℕ → ℕ → ℕ → Bytes → Memory → Outcome (Bytes × Memory)
each_enabled f byt addr zero i bytes m = done (bytes, m)
each_enabled f byt addr (suc n) i bytes m =
    enabled (each_enabled f byt addr n (suc i)) f addr i bytes m (get_elem? byt (i % length byt))

abbrev pub whole : Moved → Outcome (Bytes × Memory)
whole (done (true, bytes, m)) = done (bytes, m)
whole (done (false, bytes, m)) = fatal
whole fatal = fatal
whole no_fuel = no_fuel

abbrev pub transfer : Step → Option (List ℕ) → ℕ → ℕ → Bytes → Memory → Outcome (Bytes × Memory)
transfer f none addr len bytes m = whole (f bytes addr len m)
transfer f (some byt) addr len bytes m = each_enabled f byt addr len 0 bytes m

abbrev pub completed : Config → Payload → Outcome (Bytes × Memory) → Answer
completed c p (done (bytes, m)) = done (
  record p {
    bytes = list_of (length p.bytes) bytes;
    response = ok;
    dmi_allowed = if c.dmi then true else p.dmi_allowed;
  },
  m,
)
completed c p fatal = fatal
completed c p no_fuel = no_fuel

abbrev pub on_command : Config → Presets → Payload → ℕ → Memory → Command → Answer
on_command c q p addr m read =
    completed c p
      (transfer (Storage.read c q) p.byte_enable addr p.data_length (bytes_of p.bytes) m)
on_command c q p addr m write =
    if c.rom
    then done (record p { response = command_error }, m)
    else completed c p
        (transfer (Storage.write c q) p.byte_enable addr p.data_length (bytes_of p.bytes) m)
on_command c q p addr m ignore = fatal

-- The offset in the memory, where the address is not below it.
abbrev pub offset_of : Memory → ℕ → Option ℕ
offset_of m addr =
    if m.m_relative_addresses
    then some addr
    else if ltb addr m.m_address
    then none
    else some (addr - m.m_address)

abbrev pub at_offset : Config → Presets → Payload → Memory → Option ℕ → Answer
at_offset c q p m none = done (record p { response = address_error }, m)
at_offset c q p m (some addr) =
    if ltb m.m_size (add64 addr p.data_length)
    then done (record p { response = address_error }, m)
    else on_command c q p addr m p.command

unfoldable pub b_transport : Config → Presets → Payload → Memory → Answer
b_transport c q p m =
    if ltb p.streaming_width p.data_length then fatal else at_offset c q p m (offset_of m p.address)

-- The number of bytes, with what `b_transport` leaves.
abbrev pub counted : Answer → Outcome (ℕ × Payload × Memory)
counted (done (p, m)) = done (elim p.response [ ok ↦ p.data_length | _ ↦ 0 ], p, m)
counted fatal = fatal
counted no_fuel = no_fuel

unfoldable pub transport_dbg : Config → Presets → Payload → Memory → Outcome (ℕ × Payload × Memory)
transport_dbg c q p m = counted (b_transport c q p m)

-- `get_direct_mem_ptr`: the descriptor, where it returns `true`.
abbrev pub Granted : Type 0
Granted = Outcome (Option Dmi × Payload × Memory)

abbrev pub descriptor : Config → Memory → ℕ → ℕ → ℕ → Dmi
descriptor c m ptr block_address size =
    let start = if m.m_relative_addresses then block_address else add64 block_address m.m_address in
    record {
      ptr = ptr;
      start_address = start;
      end_address = sub64 (add64 start size) 1;
      access = if c.rom then read_allowed else read_write_allowed;
    }

-- `get_ptr`, `get_len` and `get_address` of the block.
abbrev pub look : Visitor (ℕ × ℕ × ℕ)
look ad ln r = done ((r.ptr, ad, ln), r)

abbrev pub granted : Config → Payload → Memory → Outcome ((ℕ × ℕ × ℕ) × Block) → Granted
granted c p m (done ((ptr, ad, ln), b)) =
    done (some (descriptor c m ptr ad ln), p, record m { m_sub_block = some b })
granted c p m fatal = fatal
granted c p m no_fuel = no_fuel

abbrev pub grant_in : Config → Payload → Memory → ℕ → Option Block → Granted
grant_in c p m addr none = fatal
grant_in c p m addr (some b) = granted c p m (access c depth addr look b)

abbrev pub grant_at : Config → Payload → Memory → Option ℕ → Granted
grant_at c p m none = done (none, record p { response = address_error }, m)
grant_at c p m (some addr) =
    if leb m.m_size addr
    then done (none, record p { response = address_error }, m)
    else grant_in c p m addr m.m_sub_block

unfoldable pub get_direct_mem_ptr : Config → Payload → Memory → Granted
get_direct_mem_ptr c p m =
    if c.dmi then grant_at c p m (offset_of m p.address) else done (none, p, m)

-- A call that the loader makes to write to the memory. What the loader reads is not known here, so
-- that its calls are a parameter.
pub record Chunk : Type 0 where
  pub bytes : Bytes
  pub offset : ℕ
  pub len : ℕ

-- The calls of the loader: a write out of range is a warning.
abbrev pub then_load : (Memory → Outcome Memory) → Moved → Outcome Memory
then_load rest (done (written, bytes, m)) = rest m
then_load rest fatal = fatal
then_load rest no_fuel = no_fuel

unfoldable pub load_all : Config → Presets → List Chunk → Memory → Outcome Memory
load_all c q [] m = done m
load_all c q (k ∷ ks) m = then_load (load_all c q ks) (Storage.write c q k.bytes k.offset k.len m)

-- A change of the reset signal: the tree is reset, and the loader runs again.
abbrev pub reset_tree : Config → Presets → List Chunk → Memory → Option Block → Outcome Memory
reset_tree c q ks m none = fatal
reset_tree c q ks m (some b) = load_all c q ks (record m { m_sub_block = some (doreset c b) })

unfoldable pub reset : Config → Presets → List Chunk → Bool → Memory → Outcome Memory
reset c q ks true m = reset_tree c q ks m m.m_sub_block
reset c q ks false m = done m
