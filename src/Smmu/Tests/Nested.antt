-- ===== src/Smmu/Tests/Nested.antt =====
-- Runs of both stages at one input.
use qbox.Base.{ℕ, ◌-◌, ◌^◌, ◌≡◌, refl, false, List, [], ◌∷◌}
use qbox.Base.Outcomes.{done}
use qbox.Smmu.Tlb.{TlbEntry, Tlb, same_key, find, erase, iotlb_insert, iotlb_lookup}
use qbox.Smmu.Request.{Request, compute_iotlb_regime}
use qbox.Smmu.Translate.{smmuv3_translate, by_config}
use qbox.Smmu.{ro, Ste, new_req, fail}
use qbox.Smmu.Plan.{
  granule, select_half, setup, first_level, start_level, concat_bits, first_table,
  check_s2_startlevel, base, sized1, sized2, with_output, with_grain,
}
use qbox.Smmu.Walk.{
  smmuv3_ptw64, ptw64_by, walk, descaddr, resolve, by_type, examine, own_attrs, all_attrs, touch,
  permit1, permit2, mapped, conclude,
}
use qbox.Smmu.{check_out_addr}
use qbox.Smmu.Tests.{word_at, dma, context}
use qbox.Smmu.Tests.Cached.{ste1, streams_of, config, write_at, entry_at, key1, empty}

-- Nested: the page is read-only for stage 1 and not for stage 2, and the entry allows writes.
abbrev nested_tables : List (ℕ × ℕ)
nested_tables =
    (0x50000, 0x4c1)
    ∷ (0x50010, 0x800004c1)
    ∷ (0x10008, 0x20003)
    ∷ (0x20008, 0x30003)
    ∷ (0x30008, 0x800004c3)
    ∷ []

abbrev ste2 : Ste
ste2 = record ste1 { config = 7; s2ttb = 0x50000 }

abbrev read_at : ℕ → Request
read_at a = record (write_at a) { is_write = false }

abbrev nested_entry : TlbEntry
nested_entry = record (entry_at 0) { descriptor = 0x800004c1; addr_mask = 2 ^ 30 - 1 }

abbrev nested_tlb : Tlb
nested_tlb = record {
  m_iotlb = (record key1 { iova = 0x40000000 }, nested_entry) ∷ [];
  m_iotlb_lru = record key1 { iova = 0x40000000 } ∷ [];
}

nested_grants :
    smmuv3_translate dma (streams_of ste2) config (read_at 0x40201000) empty nested_tables
    ≡ done (nested_entry, nested_tlb, nested_tables)
unfolding smmuv3_translate by_config iotlb_lookup iotlb_insert find erase compute_iotlb_regime
    smmuv3_ptw64 ptw64_by walk descaddr resolve by_type examine own_attrs all_attrs touch permit1
    permit2 mapped conclude word_at check_out_addr select_half granule setup first_level start_level
    check_s2_startlevel concat_bits first_table base sized1 sized2 with_output with_grain
nested_grants = refl

-- Another page of the same gibibyte, which stage 1 does not map, is answered from the cache.
nested_alias :
    smmuv3_translate dma (streams_of ste2) config (read_at 0x40000000) nested_tlb nested_tables
    ≡ done (nested_entry, nested_tlb, nested_tables)
unfolding smmuv3_translate by_config iotlb_lookup iotlb_insert find erase compute_iotlb_regime
    smmuv3_ptw64 ptw64_by walk descaddr resolve by_type examine own_attrs all_attrs touch permit1
    permit2 mapped conclude word_at check_out_addr select_half granule setup first_level start_level
    check_s2_startlevel concat_bits first_table base sized1 sized2 with_output with_grain same_key
nested_alias = refl

nested_unmapped :
    smmuv3_ptw64 dma 48 2
      (record context { iova = 0x40000000 })
      (new_req 0x40000000 ro)
      nested_tables
    ≡ done (
      false,
      record (fail 0x10 2 (new_req 0x40000000 ro)) { leaf_desc_addr = 0x20000 },
      nested_tables,
    )
unfolding smmuv3_translate by_config iotlb_lookup iotlb_insert find erase compute_iotlb_regime
    smmuv3_ptw64 ptw64_by walk descaddr resolve by_type examine own_attrs all_attrs touch permit1
    permit2 mapped conclude word_at check_out_addr select_half granule setup first_level start_level
    check_s2_startlevel concat_bits first_table base sized1 sized2 with_output with_grain
nested_unmapped = refl
