-- ===== src/Smmu/Tbu.antt =====
-- The front end of a device, `smmuv3_tbu` of systemc-components/smmuv3/include/smmuv3.h. What stands
-- downstream, and the wait for the driver at a stalled fault, are parameters; the extension with
-- the memory attributes is left out.
pub mod Grant
use Prim.Native.Nat.{bit_or}
use qbox.Base.{
  ℕ, zero, suc, ◌+◌, ◌-◌, ◌*◌, ◌/◌, ◌%◌, ◌^◌, Bool, true, false, not, ◌&&◌, ◌||◌, List, [], ◌∷◌,
  Option, none, some, ltb, leb, ◌==◌, if◌then◌else◌,
}
use qbox.Base.Outcomes.{Outcome, done, fatal, no_fuel}
use qbox.Base.Word.{add64, sub64}
use qbox.Tlm.{
  Command, read, write, ignore, ok, address_error, none_allowed, read_allowed, write_allowed, Dmi,
  Payload,
}
use qbox.Smmu.{AccessFlags, no_access, ro, wo, rw, Dma, is_ro, is_wo, readable, writable}
use qbox.Smmu.Tlb.{TlbEntry, TlbKey, TlbMap, Tlb}
use qbox.Smmu.Request.{Streams, Config, Request}
use qbox.Smmu.Translate.{Result, smmuv3_translate}

-- `smmuv3_ats_extension`
pub record Ats : Type 0 where
  pub is_translated : Bool
  pub is_translation_request : Bool
  pub prg_index : ℕ
  pub faulted : Bool
  pub fault_type : ℕ
  pub pa : ℕ
  pub granule_log2 : ℕ
  pub prot : AccessFlags

-- The downstream socket, `stall_and_wait` with the fault's type and level, and `record_pri` with its
-- flags, over the state of the memory. The last two results of the first call are those of
-- `get_direct_mem_ptr`.
pub record Downstream (M : Type 0) : Type 0 where
  pub b_transport : Payload → M → Payload × M
  pub transport_dbg : Payload → M → ℕ × Payload × M
  pub get_direct_mem_ptr : Payload → M → Bool × Dmi × M
  pub stall_and_wait : Request → ℕ → ℕ → M → Bool × M
  pub record_pri : ℕ → ℕ → ℕ → M → M

-- What the extensions of a transaction say, and the bits that enable page requests.
pub record Origin : Type 0 where
  pub sid : ℕ
  pub substream_id : ℕ
  pub is_secure : Bool
  pub priqen : Bool

abbrev pub is_write : Command → Bool
is_write write = true
is_write c = false

abbrev pub is_read : Command → Bool
is_read read = true
is_read c = false

abbrev pub is_none : AccessFlags → Bool
is_none p = not (readable p) && not (writable p)

abbrev pub request_of : Origin → Payload → Request
request_of o p = record {
  iova = p.address;
  is_write = is_write p.command;
  sid = o.sid;
  substream_id = o.substream_id;
  is_secure = o.is_secure;
}

-- The permission does not cover the command.
unfoldable pub forbids : AccessFlags → Command → Bool
forbids perm c = is_none perm || is_write c && is_ro perm || is_read c && is_wo perm

-- `te.translated_addr | (addr & SMMUV3_PAGEMASK)`
unfoldable pub sent_address : TlbEntry → ℕ → ℕ
sent_address te a = bit_or te.translated_addr (a % 2 ^ 12)

-- The mask of an entry is one less than a power of two: `a & addr_mask`.
abbrev pub masked : ℕ → ℕ → ℕ
masked addr_mask a = a % (addr_mask + 1)

-- The loop that halves `m`, which 64 rounds end.
unfoldable pub log2_loop : ℕ → ℕ → ℕ → ℕ
log2_loop zero m g = g
log2_loop (suc n) m g = let rest = log2_loop n (m / 2) (g + 1) in if ltb 1 m then rest else g

module _ {M : Type 0} (dma : Dma M) (streams : Streams M) (c : Config) (d : Downstream M)
    (o : Origin) where
  abbrev pub Answer : Type 0
  Answer = Outcome (Payload × Option Ats × Tlb × M)

  abbrev pub translate : Payload → Tlb → M → Outcome (TlbEntry × Tlb × M)
  translate p = smmuv3_translate dma streams c (request_of o p)

  -- The answer to an ATS translation request.
  abbrev pub reported : TlbEntry → Payload → Ats → Ats
  reported te p a =
      if is_none te.perm
      then record a {
        faulted = true;
        fault_type = te.fault_type;
        pa = 0;
        granule_log2 = 0;
        prot = no_access;
      }
      else record a {
        faulted = false;
        pa = bit_or te.translated_addr (masked te.addr_mask p.address);
        granule_log2 = log2_loop 64 (add64 te.addr_mask 1) 0;
        prot = te.perm;
      }

  abbrev pub pri_recorded : TlbEntry → Payload → Ats → M → M
  pri_recorded te p a m =
      if is_none te.perm && o.priqen
      then d.record_pri o.sid p.address
          (bit_or (if is_write p.command then 2 else 0) (a.prg_index * 2 ^ 16 % 2 ^ 32)) m
      else m

  -- A transaction that is passed on gets its own address back.
  abbrev pub restored : Payload → Payload × M → Payload × M
  restored p (p', m) = (record p' { address = p.address }, m)

  unfoldable pub forward : TlbEntry → Payload → M → Payload × M
  forward te p m =
      if forbids te.perm p.command
      then (record p { response = address_error }, m)
      else restored p (d.b_transport (record p { address = sent_address te p.address }) m)

  abbrev pub with_ats : Option Ats → Tlb → Payload × M → Answer
  with_ats a t (p, m) = done (p, a, t, m)

  abbrev pub settled : TlbEntry → Payload → Option Ats → Tlb → M → Answer
  settled te p none t m = with_ats none t (forward te p m)
  settled te p (some a) t m =
      if a.is_translation_request
      then done (record p { response = ok }, some (reported te p a), t, pri_recorded te p a m)
      else with_ats (some a) t (forward te p m)

  -- The loop at stalled faults. Fuel counts the answers of the driver.
  abbrev pub resumed :
      (Outcome (TlbEntry × Tlb × M) → Answer) → Payload → Option Ats → Tlb → Bool × M → Answer
  resumed again p a t (true, m) = done (record p { response = address_error }, a, t, m)
  resumed again p a t (false, m) = again (translate p t m)

  unfoldable pub stall_loop : ℕ → Payload → Option Ats → Outcome (TlbEntry × Tlb × M) → Answer
  stall_loop zero p a x = no_fuel
  stall_loop (suc n) p a fatal = fatal
  stall_loop (suc n) p a no_fuel = no_fuel
  stall_loop (suc n) p a (done (te, t, m)) =
      if te.stallable_fault
      then resumed (stall_loop n p a) p a t
          (d.stall_and_wait (request_of o p) te.fault_type te.fault_level m)
      else settled te p a t m

  abbrev pub is_translated : Option Ats → Bool
  is_translated none = false
  is_translated (some a) = a.is_translated

  unfoldable pub b_transport : ℕ → Payload → Option Ats → Tlb → M → Answer
  b_transport fuel p a t m =
      if is_translated a
      then with_ats a t (d.b_transport p m)
      else stall_loop fuel p a (translate p t m)

  abbrev pub debugged : Payload → Tlb → ℕ × Payload × M → Outcome (ℕ × Payload × Tlb × M)
  debugged p t (n, p', m) = done (n, record p' { address = p.address }, t, m)

  abbrev pub debug_with : Payload → Outcome (TlbEntry × Tlb × M) → Outcome (ℕ × Payload × Tlb × M)
  debug_with p (done (te, t, m)) =
      debugged p t (d.transport_dbg (record p { address = sent_address te p.address }) m)
  debug_with p fatal = fatal
  debug_with p no_fuel = no_fuel

  unfoldable pub transport_dbg : Payload → Tlb → M → Outcome (ℕ × Payload × Tlb × M)
  transport_dbg p t m = debug_with p (translate p t m)
