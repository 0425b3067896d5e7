-- ===== src/Smmu/Tests/Windows.antt =====
-- Runs of a DMI request to the front end at one input.
use qbox.Base.{some, ◌∷◌, ℕ, ◌≡◌, refl, true, false, none, List, [], arith, ◌+◌, ◌-◌, if◌then◌else◌}
use qbox.Base.Outcomes.{done}
use qbox.Smmu.Tlb.{find, erase, iotlb_insert, iotlb_lookup}
use qbox.Smmu.Request.{compute_iotlb_regime}
use qbox.Smmu.Translate.{smmuv3_translate, by_config}
use qbox.Tlm.{write, ok, read_write_allowed, Dmi, Payload}
use qbox.Smmu.Tbu.{Downstream, Origin, translate, forbids}
use qbox.Smmu.Tbu.Grant.{get_direct_mem_ptr, window}
use qbox.Smmu.Tbu.Grant.Window.{Serves, get_direct_mem_ptr-Serves}
use qbox.Smmu.{rw}
use qbox.Smmu.Plan.{
  granule, select_half, setup, first_level, concat_bits, first_table, base, sized1, with_output,
  with_grain,
}
use qbox.Smmu.Walk.{
  smmuv3_ptw64, ptw64_by, walk, descaddr, resolve, by_type, examine, own_attrs, all_attrs, touch,
  permit1, mapped, conclude,
}
use qbox.Smmu.{check_out_addr}
use qbox.DmiConverter.{Port}
use qbox.Smmu.Access.{Region, DmaState, first_serving, find_dma_dmi, dma_read, dma_write}
use qbox.Smmu.Access.Cached.{dma_write-dma_read}
use qbox.Memory.Storage.Turn.{in_window}
use qbox.Memory.Transport.{bytes_of}
use qbox.Smmu.Tests.{word_at, dma, tables}
use qbox.Smmu.Tests.Cached.{ste1, streams_of, config, entry_at, key1, empty, holding}

-- A memory downstream that grants 64 KiB from 2 ^ 31 on.
abbrev grant : Dmi
grant = record {
  ptr = 5000;
  start_address = 0x7fff8000;
  end_address = 0x80007fff;
  access = read_write_allowed;
}

abbrev memory : Downstream (List (ℕ × ℕ))
memory = record {
  b_transport = λ p m. (p, m);
  transport_dbg = λ p m. (0, p, m);
  get_direct_mem_ptr = λ p m. (true, grant, m);
  stall_and_wait = λ q event level m. (true, m);
  record_pri = λ sid a f m. m;
}

abbrev origin : Origin
origin = record { sid = 3; substream_id = 0; is_secure = false; priqen = false }

abbrev asking : Payload
asking = record {
  command = write;
  address = 0x40201000;
  bytes = [];
  data_length = 0;
  byte_enable = none;
  streaming_width = 0;
  dmi_allowed = true;
  response = ok;
  path = none;
  exclusive = none;
  underlying = none;
}

abbrev page_window : Dmi
page_window = record {
  ptr = 37768;
  start_address = 0x40201000;
  end_address = 0x40201fff;
  access = read_write_allowed;
}

translates_asked :
    translate dma (streams_of ste1) config memory origin asking empty tables
    ≡ done (entry_at 0, holding key1 0, tables)
unfolding smmuv3_translate by_config iotlb_lookup iotlb_insert find erase compute_iotlb_regime
    smmuv3_ptw64 ptw64_by walk descaddr resolve by_type examine own_attrs all_attrs touch permit1
    mapped conclude word_at check_out_addr select_half granule setup first_level concat_bits
    first_table base sized1 with_output with_grain
translates_asked = refl

grants_page :
    get_direct_mem_ptr dma (streams_of ste1) config memory origin asking grant empty tables
    ≡ done ((true, page_window), holding key1 0, tables)
unfolding get_direct_mem_ptr forbids window smmuv3_translate by_config iotlb_lookup iotlb_insert
    find erase compute_iotlb_regime smmuv3_ptw64 ptw64_by walk descaddr resolve by_type examine
    own_attrs all_attrs touch permit1 mapped conclude word_at check_out_addr select_half granule
    setup first_level concat_bits first_table base sized1 with_output with_grain
grants_page = refl

get_direct_mem_ptr-Serves_example :
    (forbids rw write ≡ false) × Serves (entry_at 0) 0x40201000 grant page_window 0x40201234
get_direct_mem_ptr-Serves_example =
    get_direct_mem_ptr-Serves dma (streams_of ste1) config memory origin asking grant grant
      page_window (entry_at 0) empty (holding key1 0) (holding key1 0) tables tables tables tables
      0x40201234 translates_asked refl grants_page (omega arith) (omega arith) (omega arith)

-- A kept region of 4 KiB, and a target that is never called.
abbrev kept_region : Region
kept_region = record { start = 4096; last = 8191; ptr = 100; readable = true; writable = true }

abbrev silent : Port
silent = record {
  get_direct_mem_ptr = λ p host. (false, grant, p, host);
  b_transport = λ p host. (p, host);
}

abbrev accesses : DmaState
accesses = record { regions = kept_region ∷ []; host = λ k. 0 }

serves_write : find_dma_dmi 4100 2 true (kept_region ∷ []) ≡ some kept_region
unfolding find_dma_dmi first_serving
serves_write = refl

serves_read : find_dma_dmi 4100 2 false (kept_region ∷ []) ≡ some kept_region
unfolding find_dma_dmi first_serving
serves_read = refl

dma_write-dma_read_example :
    (s' : DmaState) × (dma_write silent 4100 (7 ∷ 9 ∷ []) accesses ≡ ((true, 7 ∷ 9 ∷ []), s'))
    × (s'.regions ≡ kept_region ∷ [])
    × ((x : ℕ)
        → s'.host x ≡ (
            if in_window (kept_region.ptr + (4100 - kept_region.start)) 2 x
            then bytes_of (7 ∷ 9 ∷ []) (x - (kept_region.ptr + (4100 - kept_region.start)))
            else accesses.host x))
    × (dma_read silent 4100 (0 ∷ 0 ∷ []) s' ≡ ((true, 7 ∷ 9 ∷ []), s'))
dma_write-dma_read_example =
    dma_write-dma_read silent 4100 (7 ∷ 9 ∷ []) (0 ∷ 0 ∷ []) kept_region accesses refl serves_write
      serves_read
