-- ===== src/Smmu/Tbu/Grant.antt =====
-- DMI through `smmuv3_tbu`: the windows that it grants, and the ranges that it takes back.
pub mod Window
use Prim.Native.Nat.{bit_or}
use qbox.Base.{
  ℕ, zero, suc, ◌+◌, ◌-◌, ◌*◌, ◌/◌, ◌%◌, ◌^◌, Bool, true, false, not, ◌&&◌, ◌||◌, List, [], ◌∷◌,
  Option, none, some, ltb, leb, ◌==◌, if◌then◌else◌,
}
use qbox.Base.Outcomes.{Outcome, done, fatal, no_fuel}
use qbox.Base.Word.{add64, sub64}
use qbox.Tlm.{
  Command, read, write, ignore, ok, address_error, none_allowed, read_allowed, write_allowed, Dmi,
  Payload,
}
use qbox.Smmu.{AccessFlags, no_access, ro, wo, rw, Dma, is_ro, is_wo, readable, writable}
use qbox.Smmu.Tlb.{TlbEntry, TlbKey, TlbMap, Tlb}
use qbox.Smmu.Request.{Streams, Config, Request}
use qbox.Smmu.Translate.{Result, smmuv3_translate}
use qbox.Smmu.Tbu.{Downstream, Origin, is_none, forbids, masked, translate}

-- The part of a grant that lies in the page of a translation, as addresses of the device.
abbrev pub larger : ℕ → ℕ → ℕ
larger a b = if ltb b a then a else b

abbrev pub smaller : ℕ → ℕ → ℕ
smaller a b = if ltb a b then a else b

abbrev pub granted : AccessFlags → Dmi → Dmi
granted perm g =
    if is_ro perm
    then record g { access = read_allowed }
    else if is_wo perm
    then record g { access = write_allowed }
    else g

unfoldable pub window : TlbEntry → ℕ → Dmi → Bool × Dmi
window te iova g =
    let page_end = bit_or te.translated_addr te.addr_mask in
    let clamp_start = larger te.translated_addr g.start_address in
    let clamp_end = smaller page_end g.end_address in
    let iova_page = iova - masked te.addr_mask iova in
    if ltb clamp_end clamp_start then (false, g) else (
      true,
      granted te.perm (record g {
        ptr = g.ptr + (clamp_start - g.start_address);
        start_address = add64 iova_page (sub64 clamp_start te.translated_addr);
        end_address = add64 iova_page (sub64 clamp_end te.translated_addr);
      }),
    )

module _ {M : Type 0} (dma : Dma M) (streams : Streams M) (c : Config) (d : Downstream M)
    (o : Origin) where
  abbrev pub no_grant : Payload → Dmi → Dmi
  no_grant p g = record g {
    access = none_allowed;
    start_address = p.address;
    end_address = p.address;
  }

  abbrev pub narrowed : TlbEntry → Payload → Tlb → Bool × Dmi × M → Outcome ((Bool × Dmi) × Tlb × M)
  narrowed te p t (false, g, m) = done ((false, g), t, m)
  narrowed te p t (true, g, m) = done (window te p.address g, t, m)

  abbrev pub dmi_with :
      Payload → Dmi → Outcome (TlbEntry × Tlb × M) → Outcome ((Bool × Dmi) × Tlb × M)
  dmi_with p g (done (te, t, m)) =
      if forbids te.perm p.command
      then done ((false, no_grant p g), t, m)
      else narrowed te p t (
          d.get_direct_mem_ptr
            (record p { address = bit_or te.translated_addr (masked te.addr_mask p.address) }) m)
  dmi_with p g fatal = fatal
  dmi_with p g no_fuel = no_fuel

  unfoldable pub get_direct_mem_ptr : Payload → Dmi → Tlb → M → Outcome ((Bool × Dmi) × Tlb × M)
  get_direct_mem_ptr p g t m = dmi_with p g (translate dma streams c d o p t m)

-- The ranges of the device that the initiator is told to drop.
unfoldable pub dropped : ℕ → ℕ → TlbMap → List (ℕ × ℕ)
dropped start end [] = []
dropped start end ((k, e) ∷ m) =
    let rest = dropped start end m in
    if ltb end e.translated_addr || ltb (bit_or e.translated_addr e.addr_mask) start
    then rest
    else (e.iova, bit_or e.iova e.addr_mask) ∷ rest

unfoldable pub invalidate_direct_mem_ptr : ℕ → ℕ → Tlb → List (ℕ × ℕ)
invalidate_direct_mem_ptr start end t = dropped start end t.m_iotlb
