-- ===== src/Smmu.antt =====
-- The SMMU of systemc-components/smmuv3/include/smmuv3.h: the data of a translation, and the words
-- that it is made of. Registers, queues and interrupts are left out.
mod Tests
pub mod Tlb
pub mod Access
pub mod Request
pub mod Tables
pub mod Translate
pub mod Tbu
pub mod Walk
pub mod Plan
use Prim.Native.Nat.{bit_or}
use native.Mathlib.Nat.{mod-add-div', mul-mod_left}
use qbox.Base.{
  ◌*◌, ◌≡◌, ap, ◌∙◌, arith, ℕ, ◌+◌, ◌-◌, ◌/◌, ◌%◌, ◌^◌, Bool, true, false, not, ◌&&◌, ◌||◌, Option,
  none, some, leb, ◌==◌, if◌then◌else◌,
}

-- `IOMMUAccessFlags`, as the pair of its bits, and `a & ~b`.
pub data AccessFlags : Type 0 where
  no_access : AccessFlags
  ro : AccessFlags
  wo : AccessFlags
  rw : AccessFlags

abbrev pub readable : AccessFlags → Bool
readable no_access = false
readable ro = true
readable wo = false
readable rw = true

abbrev pub writable : AccessFlags → Bool
writable no_access = false
writable ro = false
writable wo = true
writable rw = true

abbrev pub flags : Bool → Bool → AccessFlags
flags false false = no_access
flags true false = ro
flags false true = wo
flags true true = rw

abbrev pub and_not : AccessFlags → AccessFlags → AccessFlags
and_not a b = flags (readable a && not (readable b)) (writable a && not (writable b))

-- `a == RO` and `a == WO`
abbrev pub is_ro : AccessFlags → Bool
is_ro a = readable a && not (writable a)

abbrev pub is_wo : AccessFlags → Bool
is_wo a = writable a && not (readable a)

-- A grant that covers what an access asks for.
abbrev pub allowed : AccessFlags → AccessFlags → Bool
allowed granted asked =
    (readable granted || not (is_ro asked)) && (writable granted || not (is_wo asked))

-- `(1 << n) & v`, `extract64`, `32`-bit subtraction, and `v & ~(2 ^ n - 1)`
abbrev pub bit : ℕ → ℕ → Bool
bit n v = v / 2 ^ n % 2 == 1

abbrev pub extract64 : ℕ → ℕ → ℕ → ℕ
extract64 v start length = v / 2 ^ start % 2 ^ length

abbrev pub sub32 : ℕ → ℕ → ℕ
sub32 a b = (a + 2 ^ 32 - b) % 2 ^ 32

abbrev pub aligned : ℕ → ℕ → ℕ
aligned n v = v - v % 2 ^ n

abbrev pub pa_bits : ℕ
pa_bits = 48

-- The event types of `smmuv3_ptw64` and `smmuv3_translate`.
abbrev pub evt_c_bad_ste : ℕ
evt_c_bad_ste = 0x04

abbrev pub evt_f_walk_eabt : ℕ
evt_f_walk_eabt = 0x0b

abbrev pub evt_f_translation : ℕ
evt_f_translation = 0x10

abbrev pub evt_f_addr_size : ℕ
evt_f_addr_size = 0x11

abbrev pub evt_f_access : ℕ
evt_f_access = 0x12

abbrev pub evt_f_permission : ℕ
evt_f_permission = 0x13

pub record Ste : Type 0 where
  pub valid : Bool
  pub config : ℕ
  pub s1contextptr : ℕ
  pub s2ttb : ℕ
  pub s2t0sz : ℕ
  pub s2sl0 : ℕ
  pub s2tg : ℕ
  pub s2ps : ℕ
  pub s1fmt : ℕ
  pub s1stalld : Bool
  pub s1cdmax : ℕ
  pub vmid : ℕ
  pub s2affd : Bool
  pub s2hd : Bool
  pub eats : Bool
  pub strw : ℕ

pub record Cd : Type 0 where
  pub valid : Bool
  pub aarch64 : Bool
  pub ttb : ℕ × ℕ
  pub tsz : ℕ × ℕ
  pub tg : ℕ × ℕ
  pub ips : ℕ
  pub asid : ℕ
  pub epd : Bool × Bool
  pub affd : Bool
  pub ha : Bool
  pub hd : Bool

-- `PtwCtx`; a null pointer to the stream table entry is `none`.
pub record PtwCtx : Type 0 where
  pub ttb : ℕ × ℕ
  pub tsz : ℕ × ℕ
  pub tg : ℕ × ℕ
  pub ips : ℕ
  pub sl0 : ℕ
  pub epd : Bool × Bool
  pub stage : ℕ
  pub iova : ℕ
  pub access : AccessFlags
  pub s2_enabled : Bool
  pub ste : Option Ste
  pub affd : Bool
  pub ha : Bool
  pub hd : Bool

-- `TransReq` without the stream, the substream and the descriptors that were found for them, which
-- `smmuv3_ptw64` does not use.
pub record TransReq : Type 0 where
  pub iova : ℕ
  pub access : AccessFlags
  pub pa : ℕ
  pub prot : AccessFlags
  pub page_size : ℕ
  pub err : Bool
  pub event_type : ℕ
  pub tableattrs : ℕ
  pub fault_level : ℕ
  pub descriptor : ℕ
  pub leaf_desc_addr : ℕ

-- `dma_read` and `dma_write` of eight bytes, over a state that they may change. A read that fails
-- is `none`.
pub record Dma (M : Type 0) : Type 0 where
  pub read : ℕ → M → Option ℕ × M
  pub write : ℕ → ℕ → M → Bool × M

abbrev pub new_req : ℕ → AccessFlags → TransReq
new_req a access = record {
  iova = a;
  access = access;
  pa = 0;
  prot = no_access;
  page_size = 0;
  err = false;
  event_type = 0;
  tableattrs = 0;
  fault_level = 0;
  descriptor = 0;
  leaf_desc_addr = 0;
}

-- `event_type`, `fault_level` and `err` are set together.
abbrev pub fail : ℕ → ℕ → TransReq → TransReq
fail event level req = record req { event_type = event; fault_level = level; err = true }

-- `check_out_addr`
unfoldable pub check_out_addr : ℕ → ℕ → Bool
check_out_addr a outputsize =
    if leb pa_bits outputsize then true else extract64 a outputsize (pa_bits - outputsize) == 0

-- The context of a stage 2 walk for an address, with what the stream table entry says.
abbrev pub stage2_ctx : Ste → ℕ → AccessFlags → PtwCtx
stage2_ctx s a access = record {
  ttb = (s.s2ttb, 0);
  tsz = (s.s2t0sz, 0);
  tg = (s.s2tg, 0);
  ips = s.s2ps;
  sl0 = s.s2sl0;
  epd = (false, false);
  stage = 2;
  iova = a;
  access = access;
  s2_enabled = false;
  ste = some s;
  affd = s.s2affd;
  ha = false;
  hd = s.s2hd;
}

pub aligned-multiple : (n v : ℕ) → aligned n v ≡ v / 2 ^ n * 2 ^ n
aligned-multiple n v = omega (arith, mod-add-div' v (2 ^ n))

pub aligned-rem : (n v : ℕ) → aligned n v % 2 ^ n ≡ 0
aligned-rem n v = ap (λ z. z % 2 ^ n) (aligned-multiple n v) ∙ mul-mod_left (v / 2 ^ n) (2 ^ n)
