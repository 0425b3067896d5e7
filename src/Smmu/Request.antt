-- ===== src/Smmu/Request.antt =====
-- What `smmuv3_translate` of systemc-components/smmuv3/include/smmuv3.h is called with, its parameters,
-- and the entries, keys and contexts that it makes of them.
use qbox.Base.{
  ℕ, ◌-◌, ◌%◌, ◌^◌, Bool, true, false, not, ◌&&◌, ◌||◌, Option, none, some, ◌==◌, if◌then◌else◌,
}
use qbox.Smmu.{
  AccessFlags, ro, wo, rw, Ste, Cd, PtwCtx, evt_f_translation, evt_f_addr_size, evt_f_access,
  evt_f_permission,
}
use qbox.Smmu.Tlb.{TlbEntry, TlbKey}

-- What `record_event_full` is called with.
pub record Event : Type 0 where
  pub event_type : ℕ
  pub sid : ℕ
  pub substream_id : ℕ
  pub iova : ℕ
  pub is_write : Bool
  pub event_class : ℕ
  pub level : ℕ

-- `find_ste`, `read_cd` and `record_event_full`, over the state of the memory. A result that is
-- absent or not valid is `none`.
pub record Streams (M : Type 0) : Type 0 where
  pub find_ste : ℕ → M → Option Ste × M
  pub read_cd : ℕ → Ste → ℕ → M → Option Cd × M
  pub record_event : Event → M → M

-- The parameters and the bits of the registers CR0, CR2 and GBPA that are read.
pub record Config : Type 0 where
  pub p_pamax : ℕ
  pub p_iotlb_size : ℕ
  pub smmuen : Bool
  pub e2h : Bool
  pub abort : Bool

-- A transaction: its address, stream and substream, and what its extension says.
pub record Request : Type 0 where
  pub iova : ℕ
  pub is_write : Bool
  pub sid : ℕ
  pub substream_id : ℕ
  pub is_secure : Bool

abbrev pub evt_f_ste_fetch : ℕ
evt_f_ste_fetch = 0x03

abbrev pub evt_c_bad_substreamid : ℕ
evt_c_bad_substreamid = 0x08

abbrev pub evt_f_cd_fetch : ℕ
evt_f_cd_fetch = 0x09

-- `compute_iotlb_regime`
unfoldable pub compute_iotlb_regime : ℕ → Bool → Bool → ℕ
compute_iotlb_regime strw e2h is_secure =
    if is_secure then 3 else if strw % 4 == 2 then if e2h then 2 else 1 else 0

-- The entry that `smmuv3_translate` starts with.
abbrev pub identity : Request → TlbEntry
identity q = record {
  iova = q.iova;
  translated_addr = q.iova;
  addr_mask = 2 ^ 12 - 1;
  perm = rw;
  descriptor = 0;
  table_attrs = 0;
  fault_type = 0;
  fault_level = 0;
  stallable_fault = false;
}

abbrev pub bypass : Request → TlbEntry
bypass q = record (identity q) { addr_mask = 2 ^ 64 - 1 }

abbrev pub access_of : Request → AccessFlags
access_of q = if q.is_write then wo else ro

-- The key by which a translation is looked up, and the one under which it is put in.
abbrev pub key_of : Config → Request → Ste → ℕ → ℕ → ℕ → TlbKey
key_of c q s asid tg page = record {
  vmid = s.vmid;
  asid = asid;
  iova = page;
  tg = tg;
  level = 3;
  secure = q.is_secure;
  regime = compute_iotlb_regime s.strw c.e2h q.is_secure;
}

abbrev pub stage1_ctx : Cd → ℕ → AccessFlags → Option Ste → PtwCtx
stage1_ctx cd a access s = record {
  ttb = cd.ttb;
  tsz = cd.tsz;
  tg = cd.tg;
  ips = cd.ips;
  sl0 = 0;
  epd = cd.epd;
  stage = 1;
  iova = a;
  access = access;
  s2_enabled = elim s [ none ↦ false | some s ↦ true ];
  ste = s;
  affd = cd.affd;
  ha = cd.ha;
  hd = cd.hd;
}

-- The faults that a driver may resume.
abbrev pub stallable : Ste → ℕ → Bool
stallable s event =
    ((event == evt_f_translation)
      || (event == evt_f_permission)
      || (event == evt_f_access)
      || (event == evt_f_addr_size))
    && ((s.config == 5) || (s.config == 7))
    && not s.s1stalld
