-- ===== src/Smmu/Tests.antt =====
-- Runs of the walk of the SMMU at one input.
mod Cached
mod Windows
mod Nested
use qbox.Base.{
  ℕ, ◌+◌, ◌-◌, ◌%◌, ◌^◌, ◌≡◌, ◌<◌, refl, Bool, true, false, not, Option, none, some, List, [], ◌∷◌,
  ◌==◌, if◌then◌else◌, arith, get_elem?,
}
use qbox.Base.Outcomes.{done}
use qbox.Base.{◌≤◌, if_both}
use qbox.Smmu.Tlb.{
  TlbEntry, TlbKey, Tlb, same_key, find, erase, iotlb_insert, iotlb_lookup, of_asid, of_vmid,
  of_iova, iotlb_inv_asid, iotlb_inv_vmid, iotlb_inv_iova, iotlb_inv_all,
}
use qbox.Smmu.Tlb.Keys.{occurs}
use qbox.Smmu.Tlb.Consistent.{Consistent, Inserted, iotlb_insert-Inserted}
use qbox.Smmu.Tlb.Invalidate.{Swept, iotlb_inv-Swept}
use qbox.Smmu.Request.{Streams, Config, Request, compute_iotlb_regime}
use qbox.Smmu.Translate.{smmuv3_translate, by_config}
use qbox.Smmu.Translate.Again.{IsStage1, IsReady}
use qbox.Tlm.{write, ok, read_write_allowed, Dmi, Payload}
use qbox.Smmu.Tbu.{sent_address, Downstream, Origin, translate, forbids}
use qbox.Smmu.Tbu.Grant.{get_direct_mem_ptr, window}
use qbox.Smmu.Tbu.Grant.Window.{Serves, get_direct_mem_ptr-Serves}
use qbox.Smmu.{Cd, rw, ro, wo, PtwCtx, TransReq, Ste, Dma, new_req, fail, allowed}
use qbox.Smmu.Plan.{
  Grain, granule, select_half, setup, output_sizes, capped, first_level, start_level, concat_bits,
  first_table, check_s2_startlevel, base, sized1, sized2, with_output, with_grain,
}
use qbox.Smmu.Walk.{
  smmuv3_ptw64, ptw64_by, walk, descaddr, resolve, by_type, examine, own_attrs, all_attrs, touch,
  permit1, permit2, mapped, conclude,
}
use qbox.Smmu.{check_out_addr}
use qbox.Smmu.Walk.Result.{smmuv3_ptw64-translates}
use qbox.Smmu.Walk.Total.{smmuv3_ptw64-returns}
use qbox.Smmu.Walk.Upper.{smmuv3_ptw64-upper}

-- A memory of words, zero elsewhere.
word_at : ℕ → List (ℕ × ℕ) → Option ℕ
word_at a [] = some 0
word_at a ((k, v) ∷ m) = if k == a then some v else word_at a m

abbrev dma : Dma (List (ℕ × ℕ))
dma = record { read = λ a m. (word_at a m, m); write = λ a v m. (true, (a, v) ∷ m) }

-- Three tables of 4 KiB, and a page at 2 ^ 31.
abbrev tables : List (ℕ × ℕ)
tables = (0x10008, 0x20003) ∷ (0x20008, 0x30003) ∷ (0x30008, 0x80000443) ∷ []

abbrev context : PtwCtx
context = record {
  ttb = (0x10000, 0);
  tsz = (25, 25);
  tg = (0, 2);
  ips = 5;
  sl0 = 0;
  epd = (false, false);
  stage = 1;
  iova = 0x40201008;
  access = wo;
  s2_enabled = false;
  ste = none;
  affd = false;
  ha = false;
  hd = false;
}

abbrev translated : TransReq
translated = record (new_req 0x40201008 wo) {
  pa = 0x80000008;
  prot = rw;
  page_size = 12;
  descriptor = 0x80000443;
  leaf_desc_addr = 0x30008;
}

translates :
    smmuv3_ptw64 dma 48 2 context (new_req 0x40201008 wo) tables ≡ done (true, translated, tables)
unfolding smmuv3_ptw64 ptw64_by walk descaddr resolve by_type examine own_attrs all_attrs touch
    permit1 mapped conclude word_at check_out_addr select_half granule setup first_level concat_bits
    first_table base sized1 with_output with_grain
translates = refl

smmuv3_ptw64-translates_example :
    (translated.err ≡ false)
    × (allowed translated.prot wo ≡ true)
    × ((g : Grain) × (size : ℕ) × (granule (select_half context).tg ≡ some g)
        × (get_elem? output_sizes 5 ≡ some size)
        × (translated.pa % 2 ^ g.grainsize ≡ 0x40201008 % 2 ^ g.grainsize)
        × (translated.pa < 2 ^ capped 48 size))
smmuv3_ptw64-translates_example =
    smmuv3_ptw64-translates dma 48 0 context (new_req 0x40201008 wo) translated tables tables
      (omega arith) translates

smmuv3_ptw64-returns_example :
    (b : Bool) × (r' : TransReq) × (m' : List (ℕ × ℕ)) × (smmuv3_ptw64 dma 48 1 context
        (new_req 0x40201008 wo)
        tables
      ≡ done (b, r', m'))
    × (b ≡ not r'.err)
smmuv3_ptw64-returns_example =
    smmuv3_ptw64-returns dma 48 0 context (new_req 0x40201008 wo) tables refl refl (omega arith)

abbrev upper : PtwCtx
upper = record context { iova = 2 ^ 64 - 2 ^ 30; ttb = (0x10000, 0x10000) }

smmuv3_ptw64-upper_example :
    (r' : TransReq) × (smmuv3_ptw64 dma 48 1 upper (new_req (2 ^ 64 - 2 ^ 30) wo) tables
      ≡ done (false, r', tables))
    × (r'.err ≡ true)
smmuv3_ptw64-upper_example =
    smmuv3_ptw64-upper dma 48 0 upper (new_req (2 ^ 64 - 2 ^ 30) wo) tables refl (omega arith)
      (omega arith) (omega arith)
