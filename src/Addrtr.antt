-- ===== src/Addrtr.antt =====
-- The address translator, systemc-components/addrtr/include/addrtr.h: a window of addresses at the
-- target socket that stands for one of the same size at the initiator socket.
pub mod Window
pub mod Transport
mod Tests
use qbox.Base.{
  ℕ, ◌+◌, ◌-◌, Bool, true, false, ◌&&◌, ◌||◌, Option, none, some, ltb, leb, ◌==◌, if◌then◌else◌,
  is_some,
}
use qbox.Base.Word.{add64, sub64, word_max}
use qbox.Tlm.{Payload, Dmi}

-- `m_base_addr`, `m_mapping_size` and `p_mapped_base_addr`.
pub record Addrtr : Type 0 where
  pub base_addr : ℕ
  pub mapping_size : ℕ
  pub mapped_base_addr : ℕ

-- `range_end`
unfoldable pub range_end : ℕ → ℕ → Option ℕ
range_end start size =
    if (size == 0) || ltb (word_max - (size - 1)) start
    then none
    else some (sub64 (add64 start size) 1)

-- `std::max` and `std::min`
abbrev pub larger : ℕ → ℕ → ℕ
larger a b = if ltb a b then b else a

abbrev pub smaller : ℕ → ℕ → ℕ
smaller a b = if ltb b a then b else a

-- A null pointer, or none that is asked for, is 0.
abbrev pub moved : ℕ → ℕ → ℕ
moved ptr n = if ptr == 0 then 0 else ptr + n

-- `map_window`, from the two ends that `range_end` found: start, end and pointer.
abbrev pub clipped : Addrtr → ℕ → ℕ → ℕ → Option ℕ → Option ℕ → Option (ℕ × ℕ × ℕ)
clipped a ptr start end none t = none
clipped a ptr start end (some m) none = none
clipped a ptr start end (some m) (some t) =
    let clipped_start = larger start a.mapped_base_addr in
    let clipped_end = smaller end m in
    if ltb end start || ltb end a.mapped_base_addr || ltb m start
    then none
    else some (
      add64 a.base_addr (sub64 clipped_start a.mapped_base_addr),
      add64 a.base_addr (sub64 clipped_end a.mapped_base_addr),
      moved ptr (clipped_start - start),
    )

unfoldable pub map_window : Addrtr → ℕ → ℕ → ℕ → Option (ℕ × ℕ × ℕ)
map_window a ptr start end =
    clipped a ptr start end (range_end a.mapped_base_addr a.mapping_size)
      (range_end a.base_addr a.mapping_size)

unfoldable pub addr_fw : Addrtr → ℕ → ℕ
addr_fw a addr = add64 a.mapped_base_addr (sub64 addr a.base_addr)

unfoldable pub addr_bw : Addrtr → ℕ → ℕ
addr_bw a addr = add64 a.base_addr (sub64 addr a.mapped_base_addr)

-- `map_txn_addr`; `none` is the fatal report. The last argument is the end of the transaction.
abbrev pub txn_end : ℕ → ℕ → Option ℕ
txn_end addr len = if len == 0 then some addr else range_end addr len

abbrev pub mapped_to : Addrtr → ℕ → Option ℕ → Option ℕ → Option ℕ → Option ℕ
mapped_to a addr none m e = none
mapped_to a addr (some t) none e = none
mapped_to a addr (some t) (some m) none = none
mapped_to a addr (some t) (some m) (some e) =
    if leb a.base_addr addr && leb e t then some (addr_fw a addr) else none

unfoldable pub map_txn_addr : Addrtr → ℕ → ℕ → Option ℕ
map_txn_addr a addr len =
    mapped_to a addr (range_end a.base_addr a.mapping_size)
      (range_end a.mapped_base_addr a.mapping_size) (txn_end addr len)
