-- ===== src/Smmu/Translate/Again.antt =====
-- A page that was translated is found in the cache from then on.
use qbox.Base.{
  ℕ, ◌-◌, ◌^◌, ◌≤◌, ◌<◌, ◌≡◌, true, false, ◌&&◌, ◌||◌, none, some, length, ltb, leb, ◌==◌,
  if◌then◌else◌,
}
use qbox.Base.Outcomes.{done, fatal, no_fuel}
use qbox.Smmu.{readable, writable, Ste, Cd, Dma, aligned}
use qbox.Smmu.Tlb.{TlbEntry, TlbKey, Tlb, iotlb_lookup}
use qbox.Smmu.Tlb.Consistent.{Consistent}
use qbox.Smmu.Walk.{Answer}
use qbox.Smmu.Request.{Streams, Config, Request, key_of, stage1_ctx, access_of}
use qbox.Smmu.Translate.{Result, nested_walk, ptw, request}

-- An entry of a page of 4 KiB that grants something.
pub record IsPage (e : TlbEntry) : Type 0 where
  pub grants : (readable e.perm || writable e.perm) ≡ true
  pub page : e.addr_mask ≡ 2 ^ 12 - 1

-- A cache that has room, and is in order.
pub record IsReady (c : Config) (t : Tlb) : Type 0 where
  pub size : 0 < c.p_iotlb_size
  pub consistent : Consistent t
  pub bounded : length t.m_iotlb ≤ c.p_iotlb_size

module _ {M : Type 0} (dma : Dma M) (streams : Streams M) (c : Config) (q : Request) (s : Ste)
    (asid tg : ℕ) where
  abbrev key : TlbKey
  key = key_of c q s asid tg (aligned 12 q.iova)

  -- What a result leaves in the cache.
  Leaves : Result dma streams c q → Type 0
  Leaves (done (e, t, m)) = IsPage e → iotlb_lookup key t ≡ some e
  Leaves fatal = Unit
  Leaves no_fuel = Unit

module _ {M : Type 0} (dma : Dma M) (streams : Streams M) (c : Config) (s : Ste) (cd : Cd) where
  -- A stream with translation by stage 1, whose descriptors are found without a change.
  pub record IsStage1 (q : Request) (m : M) : Type 0 where
    pub enabled : c.smmuen ≡ true
    pub stream : streams.find_ste q.sid m ≡ (some s, m)
    pub substream : (ltb 0 s.s1cdmax && leb (2 ^ s.s1cdmax) q.substream_id) ≡ false
    pub config : ((s.config == 5) || (s.config == 7)) ≡ true
    pub context : streams.read_cd q.sid s q.substream_id m ≡ (some cd, m)

  abbrev walked : Request → M → Answer M
  walked q m =
      if s.config == 7
      then nested_walk dma streams c q s (
          ptw dma streams c q (stage1_ctx cd q.iova (access_of q) (some s))
            (request dma streams c q) m)
      else ptw dma streams c q (stage1_ctx cd q.iova (access_of q) none) (request dma streams c q) m
