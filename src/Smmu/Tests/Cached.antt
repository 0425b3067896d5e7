-- ===== src/Smmu/Tests/Cached.antt =====
-- Runs of the cache of translations, and of a translation, at one input.
use qbox.Base.{ℕ, ◌+◌, ◌≡◌, refl, true, false, some, List, [], ◌∷◌, arith}
use qbox.Base.Outcomes.{done}
use qbox.Base.{◌≤◌, if_both}
use qbox.Smmu.Tlb.{
  TlbEntry, TlbKey, Tlb, same_key, iotlb_insert, of_asid, of_vmid, of_iova, iotlb_inv_asid,
  iotlb_inv_vmid, iotlb_inv_iova, iotlb_inv_all,
}
use qbox.Smmu.Tlb.Keys.{occurs}
use qbox.Smmu.Tlb.Consistent.{Consistent, Inserted, iotlb_insert-Inserted}
use qbox.Smmu.Tlb.Invalidate.{Swept, iotlb_inv-Swept}
use qbox.Smmu.Request.{Streams, Config, Request}
use qbox.Smmu.Tbu.{sent_address}
use qbox.Smmu.{Cd, rw, Ste}

-- A stream with stage 1 over the same tables.
abbrev pub ste1 : Ste
ste1 = record {
  valid = true;
  config = 5;
  s1contextptr = 0;
  s2ttb = 0;
  s2t0sz = 25;
  s2sl0 = 1;
  s2tg = 0;
  s2ps = 5;
  s1fmt = 0;
  s1stalld = true;
  s1cdmax = 0;
  vmid = 1;
  s2affd = false;
  s2hd = false;
  eats = false;
  strw = 0;
}

abbrev pub cd1 : Cd
cd1 = record {
  valid = true;
  aarch64 = true;
  ttb = (0x10000, 0);
  tsz = (25, 25);
  tg = (0, 2);
  ips = 5;
  asid = 7;
  epd = (false, false);
  affd = false;
  ha = false;
  hd = false;
}

abbrev pub streams_of : Ste → Streams (List (ℕ × ℕ))
streams_of s = record {
  find_ste = λ sid m. (some s, m);
  read_cd = λ sid s ssid m. (some cd1, m);
  record_event = λ e m. m;
}

abbrev pub config : Config
config = record { p_pamax = 48; p_iotlb_size = 1; smmuen = true; e2h = false; abort = true }

abbrev pub write_at : ℕ → Request
write_at a = record { iova = a; is_write = true; sid = 3; substream_id = 0; is_secure = false }

abbrev pub entry_at : ℕ → TlbEntry
entry_at offset = record {
  iova = 0x40201000 + offset;
  translated_addr = 0x80000000 + offset;
  addr_mask = 4095;
  perm = rw;
  descriptor = 0x80000443;
  table_attrs = 0;
  fault_type = 0;
  fault_level = 0;
  stallable_fault = false;
}

abbrev pub key1 : TlbKey
key1 = record {
  vmid = 1;
  asid = 7;
  iova = 0x40201000;
  tg = 0;
  level = 3;
  secure = false;
  regime = 0;
}

abbrev key2 : TlbKey
key2 = record key1 { asid = 8 }

abbrev pub empty : Tlb
empty = record { m_iotlb = []; m_iotlb_lru = [] }

abbrev pub holding : TlbKey → ℕ → Tlb
holding k offset = record { m_iotlb = (k, entry_at offset) ∷ []; m_iotlb_lru = k ∷ [] }

holding-Consistent : (k : TlbKey) (offset : ℕ) → Consistent (holding k offset)
unfolding Consistent occurs
holding-Consistent k offset o =
    (refl, if_both (λ (n : ℕ). n ≤ 1) (same_key o k) (λ _. omega arith) (λ _. omega arith))

-- Another key pushes the only entry out.
iotlb_insert-Inserted_example :
    (t' : Tlb) × (iotlb_insert 1 key2 (entry_at 0) (holding key1 8) ≡ done t')
    × Inserted 1 key2 (entry_at 0) (holding key1 8) t'
iotlb_insert-Inserted_example =
    iotlb_insert-Inserted 1 key2 (entry_at 0) (holding key1 8) (omega arith)
      (holding-Consistent key1 8) (omega arith)

iotlb_inv-Swept_example :
    Swept (of_asid 7) (holding key1 8) (iotlb_inv_asid 7 (holding key1 8))
    × Swept (of_vmid 1) (holding key1 8) (iotlb_inv_vmid 1 (holding key1 8))
    × Swept
        (of_iova 1 7 0x40201000 0 4095)
        (holding key1 8)
        (iotlb_inv_iova 1 7 0x40201000 0 4095 (holding key1 8))
    × Swept (λ k. true) (holding key1 8) (iotlb_inv_all (holding key1 8))
iotlb_inv-Swept_example =
    iotlb_inv-Swept 1 7 0x40201000 0 4095 (holding key1 8) (holding-Consistent key1 8)

-- The address that the second access goes to: offset 4 joined with offset 8.
joined : sent_address (entry_at 8) 0x40201004 ≡ 0x8000000c
unfolding sent_address
joined = refl
