-- ===== src/Addrtr/Tests.antt =====
-- A window of 4 KiB at 0x10000 that stands for one at 0x3000.
use qbox.Base.{ℕ, ◌≤◌, ◌∷◌, [], [], ◌≡◌, refl, Bool, true, false, none, some, arith, if◌then◌else◌}
use qbox.Tlm.{read, ok, incomplete, read_write_allowed, Dmi, Payload}
use qbox.Addrtr.{Addrtr, addr_fw}
use qbox.Addrtr.Window.{IsMapped}
use qbox.Addrtr.Transport.{b_transport, get_direct_mem_ptr, invalidate_direct_mem_ptr}
use qbox.Addrtr.Transport.Grant.{
  fits, IsTranslated, b_transport_lem, get_direct_mem_ptr-IsTranslated,
  invalidate_direct_mem_ptr-IsForwarded,
}

abbrev small : Addrtr
small = record { base_addr = 65536; mapping_size = 4096; mapped_base_addr = 12288 }

small-IsMapped : IsMapped small
small-IsMapped = record {
  not_empty = omega arith;
  base_fits = omega arith;
  mapped_fits = omega arith;
}

abbrev word : Payload
word = record {
  command = read;
  address = 65552;
  bytes = [];
  data_length = 4;
  byte_enable = none;
  streaming_width = 4;
  dmi_allowed = false;
  response = incomplete;
  path = none;
  exclusive = none;
  underlying = none;
}

abbrev answers_ok : Payload → Payload
answers_ok p = record p { response = ok }

abbrev whole : Dmi
whole = record { ptr = 4096; start_address = 0; end_address = 65535; access = read_write_allowed }

abbrev grants_whole : Payload → Dmi → Bool × Dmi × Payload
grants_whole p d = (true, whole, p)

b_transport_lem_example : b_transport answers_ok small word ≡ (
    if fits small 65552 4
    then some (record (answers_ok (record word { address = 12304 })) { address = 65552 })
    else none)
b_transport_lem_example =
    b_transport_lem small small-IsMapped answers_ok word (omega arith) (omega arith)

get_direct_mem_ptr-IsTranslated_example :
    (r : Bool × Dmi) × (get_direct_mem_ptr grants_whole small word whole
      ≡ some (r.0, r.1, record (record word { address = 12304 }) { address = 65552 }))
    × IsTranslated small small-IsMapped 65552 whole r
get_direct_mem_ptr-IsTranslated_example =
    get_direct_mem_ptr-IsTranslated small small-IsMapped grants_whole word whole whole
      (record word { address = 12304 }) (omega arith) (omega arith) refl refl

in_range : (12000 ≤ addr_fw small 65600) × (addr_fw small 65600 ≤ 13000)
unfolding addr_fw
in_range = (omega arith, omega arith)

invalidate_direct_mem_ptr-IsForwarded_example :
    (c : ℕ × ℕ) × (invalidate_direct_mem_ptr small 12000 13000 ≡ c ∷ [])
    × (c.0 ≤ 65600)
    × (65600 ≤ c.1)
invalidate_direct_mem_ptr-IsForwarded_example =
    invalidate_direct_mem_ptr-IsForwarded small small-IsMapped 12000 13000 65600
      (omega arith, omega arith) in_range.0 in_range.1
