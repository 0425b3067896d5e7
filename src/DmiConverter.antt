-- ===== src/DmiConverter.antt =====
-- The DMI converter, systemc-components/dmi_converter/include/dmi_converter.h: transactions become
-- accesses through the DMI grants that it keeps. The target behind it is a parameter.
mod Tests
pub mod Cache
pub mod Read
pub mod Spin
use qbox.Base.{
  ℕ, zero, suc, ◌+◌, ◌-◌, ◌%◌, ◌^◌, Bool, true, false, not, ◌&&◌, List, [], ◌∷◌, ◌++◌, Option, none,
  some, length, get_elem?, take, drop, ltb, leb, ◌==◌, if◌then◌else◌,
}
use qbox.Base.Outcomes.{Outcome, done, fatal, no_fuel}
use qbox.Base.Word.{add64}
use qbox.Base.OrdMap.{Map, assign, upper_bound, before, step_back}
use qbox.Tlm.{
  Command, read, write, ignore, Response, ok, Access, none_allowed, read_allowed, write_allowed,
  read_write_allowed, Dmi, Payload,
}
use qbox.Memory.{Bytes, memcpy}
use qbox.Memory.Transport.{bytes_of, list_of, from_index, back_index}

-- The target behind an initiator socket. Both calls may change the transaction and what the host's
-- memory holds; the data of a transaction is not in the memory that grants point to.
pub record Port : Type 0 where
  pub get_direct_mem_ptr : Payload → Bytes → Bool × Dmi × Payload × Bytes
  pub b_transport : Payload → Bytes → Payload × Bytes

-- `in_cache`
abbrev pub holding : ℕ → Option (ℕ × Dmi) → Option Dmi
holding a none = none
holding a (some (k, d)) = if leb d.start_address a && leb a d.end_address then some d else none

unfoldable pub in_cache : ℕ → Map Dmi → Option Dmi
in_cache a m = holding a (before (upper_bound a m) m)

-- `cache_clean`: the loop from an iterator on, and the whole.
unfoldable pub clean : ℕ → ℕ → Map Dmi → Map Dmi
clean start end [] = []
clean start end ((k, r) ∷ m) =
    let rest = clean start end m in
    if ltb end r.start_address
    then (k, r) ∷ m
    else if ltb r.end_address start
    then (k, r) ∷ rest
    else rest

unfoldable pub cache_clean : ℕ → ℕ → Map Dmi → Map Dmi
cache_clean start end m =
    let it = step_back (upper_bound start m) in take it m ++ clean start end (drop it m)

-- `is_dmi_access_type_granted`
abbrev pub allows_read : Access → Bool
allows_read none_allowed = false
allows_read read_allowed = true
allows_read write_allowed = false
allows_read read_write_allowed = true

abbrev pub allows_write : Access → Bool
allows_write none_allowed = false
allows_write read_allowed = false
allows_write write_allowed = true
allows_write read_write_allowed = true

abbrev pub is_granted : Dmi → Command → Bool
is_granted d read = allows_read d.access
is_granted d write = allows_write d.access
is_granted d ignore = false

-- `update_byte_enable`: the byte enables that the loop goes on with, and their length as a
-- 32-bit word. Where they are as long as the data, only a copy of the pointer is moved.
abbrev pub rotate : ℕ → List ℕ → List ℕ
rotate k byt = drop k byt ++ take k byt

abbrev pub update_byte_enable :
    Payload → Option (List ℕ) → Option (List ℕ) → ℕ → ℕ → Option (List ℕ) × ℕ
update_byte_enable p none byt left iter_len = (byt, left)
update_byte_enable p (some e) none left iter_len = (none, left)
update_byte_enable p (some e) (some byt) left iter_len =
    if leb p.data_length (length e)
    then (some byt, (length e + 2 ^ 64 - iter_len) % 2 ^ 32)
    else if iter_len % length e == 0
    then (some byt, left)
    else (some (rotate (iter_len % length e) byt), length e)

-- The loop that copies the bytes that are enabled: `n` are left, from `k` on.
abbrev pub set_byte : Bytes → ℕ → ℕ → Bytes
set_byte to i v = λ k. if k == i then v else to k

abbrev pub enabled_byte : List ℕ → ℕ → Bool
enabled_byte byt k = elim (get_elem? byt (k % length byt)) [ some e ↦ e == 255 | none ↦ false ]

unfoldable pub copy_enabled : List ℕ → Bytes → ℕ → Bytes → ℕ → ℕ → ℕ → Bytes
copy_enabled byt to i from j k zero = to
copy_enabled byt to i from j k (suc n) =
    copy_enabled byt (if enabled_byte byt k then set_byte to (i + k) (from (j + k)) else to) i from
      j (suc k) n

abbrev pub copy : Option (List ℕ) → Bytes → ℕ → Bytes → ℕ → ℕ → Bytes
copy none to i from j n = memcpy to i from j n
copy (some byt) to i from j n = copy_enabled byt to i from j 0 n

-- The variables of `b_transport`, the cache, and the memory of the host; `trans_data_ptr` is an
-- index in the data.
pub record Run : Type 0 where
  pub addr : ℕ
  pub remaining_len : ℕ
  pub trans_data_ptr : ℕ
  pub bytes : Bytes
  pub byt : Option (List ℕ)
  pub bel_remaining_len : ℕ
  pub is_cache_used : Bool
  pub cache : Map Dmi
  pub host : Bytes
  pub trans : Payload

-- Whether the loop goes on.
pub data Next : Type 0 where
  continue : Run → Next
  break : Run → Next

-- A block that is in the cache.
abbrev pub iter_len : Dmi → Run → ℕ
iter_len d s =
    let current_block_len = (d.end_address - s.addr + 1) % 2 ^ 64 in
    if ltb current_block_len s.remaining_len then current_block_len else s.remaining_len

abbrev pub finished : Run → Run
finished s =
    if s.remaining_len == 0
    then record s { trans = record s.trans { dmi_allowed = true; response = ok } }
    else s

abbrev pub advance : Run → ℕ → Bytes → Bytes → Run
advance s n bytes host =
    let (byt, left) = update_byte_enable s.trans s.trans.byte_enable s.byt s.bel_remaining_len n in
    finished (record s {
      addr = add64 s.addr n;
      remaining_len = s.remaining_len - n;
      trans_data_ptr = s.trans_data_ptr + n;
      bytes = bytes;
      byt = byt;
      bel_remaining_len = left;
      is_cache_used = true;
      host = host;
    })

abbrev pub use_block : Command → Dmi → Run → Next
use_block ignore d s = break s
use_block write d s = continue (
    advance s (iter_len d s) s.bytes (
      copy s.byt s.host (d.ptr + (s.addr - d.start_address)) s.bytes s.trans_data_ptr
        (iter_len d s)))
use_block read d s = continue (
    advance s (iter_len d s)
      (copy s.byt s.bytes s.trans_data_ptr s.host (d.ptr + (s.addr - d.start_address))
        (iter_len d s))
      s.host)

-- A block that is not: a transaction of its own is made once the cache has been used.
abbrev pub cut : Option (List ℕ) → ℕ → Option (List ℕ)
cut none n = none
cut (some byt) n = some (take n byt)

abbrev pub shown : Run → Payload
shown s = record s.trans { bytes = list_of (length s.trans.bytes) s.bytes }

abbrev pub t_trans : Run → Payload
t_trans s = record s.trans {
  address = s.addr;
  data_length = s.remaining_len;
  bytes = list_of s.remaining_len (from_index s.trans_data_ptr s.bytes);
  byte_enable = cut s.byt s.bel_remaining_len;
}

abbrev pub sent : Run → Payload
sent s = if s.is_cache_used then t_trans s else shown s

abbrev pub answered : Run → Payload × Bytes → Next
answered s (p, host) = break (
    if s.is_cache_used
    then record s {
      bytes = back_index s.trans_data_ptr s.bytes (bytes_of p.bytes);
      host = host;
      trans = record s.trans { dmi_allowed = false; response = p.response };
    }
    else record s {
      bytes = bytes_of p.bytes;
      host = host;
      trans = record p { dmi_allowed = false };
    })

-- `t_trans` is made again in every turn, and so only a transaction of the caller keeps a change.
abbrev pub asked : Port → Run → Bool × Dmi × Payload × Bytes → Next
asked t s (valid, d, p, host) =
    if valid && is_granted d s.trans.command
    then continue (
        if s.is_cache_used
        then record s { cache = assign d.start_address d s.cache; host = host }
        else record s {
          cache = assign d.start_address d s.cache;
          host = host;
          trans = p;
          bytes = bytes_of p.bytes;
        })
    else answered (record s { host = host }) (t.b_transport p host)

abbrev pub cached_turn : Port → Run → Option Dmi → Next
cached_turn t s none = asked t s (t.get_direct_mem_ptr (sent s) s.host)
cached_turn t s (some d) =
    if is_granted d s.trans.command
    then use_block s.trans.command d s
    else asked t s (t.get_direct_mem_ptr (sent s) s.host)

abbrev pub turn : Port → Run → Next
turn t s = cached_turn t s (in_cache s.addr s.cache)

-- The loop, on fuel.
abbrev pub after_turn : (Run → Outcome Run) → Next → Outcome Run
after_turn rest (continue s) = rest s
after_turn rest (break s) = done s

unfoldable pub turns : Port → ℕ → Run → Outcome Run
turns t zero s = if s.remaining_len == 0 then done s else no_fuel
turns t (suc n) s =
    let rest = after_turn (turns t n) (turn t s) in if s.remaining_len == 0 then done s else rest

abbrev pub start : Payload → Map Dmi → Bytes → Run
start p cache host = record {
  addr = p.address;
  remaining_len = p.data_length;
  trans_data_ptr = 0;
  bytes = bytes_of p.bytes;
  byt = p.byte_enable;
  bel_remaining_len = elim p.byte_enable [ none ↦ 0 | some e ↦ length e ];
  is_cache_used = false;
  cache = cache;
  host = host;
  trans = p;
}

-- `b_transport`, on fuel for the number of turns.
abbrev pub started : Port → ℕ → Run → Option (List ℕ) → Outcome Run
started t fuel s none = turns t fuel s
started t fuel s (some []) = fatal
started t fuel s (some (e ∷ es)) = turns t fuel s

abbrev pub returned : Outcome Run → Outcome (Payload × Map Dmi × Bytes)
returned (done s) = done (shown s, s.cache, s.host)
returned fatal = fatal
returned no_fuel = no_fuel

unfoldable pub b_transport :
    Port → ℕ → Payload → Map Dmi → Bytes → Outcome (Payload × Map Dmi × Bytes)
b_transport t fuel p cache host = returned (started t fuel (start p cache host) p.byte_enable)

-- `get_direct_mem_ptr`
abbrev pub is_none_allowed : Access → Bool
is_none_allowed none_allowed = true
is_none_allowed read_allowed = false
is_none_allowed write_allowed = false
is_none_allowed read_write_allowed = false

abbrev pub kept : Map Dmi → Bool × Dmi × Payload × Bytes → Bool × Dmi × Payload × Map Dmi × Bytes
kept cache (valid, d, p, host) =
    (valid, d, p, if valid then assign d.start_address d cache else cache, host)

abbrev pub cached_grant :
    Port → Payload → Map Dmi → Bytes → Option Dmi → Bool × Dmi × Payload × Map Dmi × Bytes
cached_grant t p cache host (some d) = (not (is_none_allowed d.access), d, p, cache, host)
cached_grant t p cache host none = kept cache (t.get_direct_mem_ptr p host)

unfoldable pub get_direct_mem_ptr :
    Port → Payload → Map Dmi → Bytes → Bool × Dmi × Payload × Map Dmi × Bytes
get_direct_mem_ptr t p cache host = cached_grant t p cache host (in_cache p.address cache)

-- `invalidate_direct_mem_ptr`: the cache, and the range for each of `n` target sockets.
abbrev pub calls : ℕ → ℕ → ℕ → List (ℕ × ℕ)
calls zero start end = []
calls (suc n) start end = (start, end) ∷ calls n start end

unfoldable pub invalidate_direct_mem_ptr : ℕ → ℕ → ℕ → Map Dmi → Map Dmi × List (ℕ × ℕ)
invalidate_direct_mem_ptr n start end cache = (cache_clean start end cache, calls n start end)
