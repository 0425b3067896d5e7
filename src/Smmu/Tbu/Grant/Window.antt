-- ===== src/Smmu/Tbu/Grant/Window.antt =====
-- The window of a DMI grant that `smmuv3_tbu::get_direct_mem_ptr` hands to its device.
use Prim.Native.Nat.{bit_or}
use mathlib.Core.Path.{subst}
use native.Mathlib.Nat.{le_trans}
use qbox.Base.{
  ℕ, ◌+◌, ◌-◌, ◌^◌, ◌≤◌, ◌<◌, ◌≡◌, refl, sym, ap, ◌∙◌, inl, inr, Bool, true, false, arith,
  Bool-cases, ltb, if_both, ltb→le, if◌then◌else◌,
}
use qbox.Base.Bits.{bit_or-le}
use qbox.Base.Word.{add64, sub64}
use qbox.Tlm.{Dmi, Payload}
use qbox.Smmu.{AccessFlags, is_ro, is_wo}
use qbox.Smmu.Tlb.{TlbEntry, Tlb}
use qbox.Smmu.{Dma}
use qbox.Base.Outcomes.{Outcome, done, fatal, no_fuel}
use qbox.Smmu.Request.{Streams, Config}
use qbox.Smmu.Tbu.{Downstream, Origin, translate, forbids, masked}
use qbox.Smmu.Tbu.Grant.{
  get_direct_mem_ptr, dmi_with, narrowed, no_grant, larger, smaller, granted, window,
}

-- The addresses of the window lie in the page of the translation, and each shows the byte of the
-- grant at the address that the page is taken to, moved as far.
pub record Serves (te : TlbEntry) (iova : ℕ) (g g' : Dmi) (a : ℕ) : Type 0 where
  pub from_page : iova - masked te.addr_mask iova ≤ a
  pub to_page : a ≤ iova - masked te.addr_mask iova + te.addr_mask
  pub from_grant : g.start_address ≤ te.translated_addr + (a - (iova - masked te.addr_mask iova))
  pub to_grant : te.translated_addr + (a - (iova - masked te.addr_mask iova)) ≤ g.end_address
  pub shows :
      g'.ptr + (a - g'.start_address)
      ≡ g.ptr + (te.translated_addr + (a - (iova - masked te.addr_mask iova)) - g.start_address)

-- What the permission does to a grant leaves the window alone.
granted-ptr : (p : AccessFlags) (g : Dmi) → (granted p g).ptr ≡ g.ptr
granted-ptr p g =
    if_both (λ (z : Dmi). z.ptr ≡ g.ptr) (is_ro p) (λ _. refl)
      λ _. if_both (λ (z : Dmi). z.ptr ≡ g.ptr) (is_wo p) (λ _. refl) λ _. refl

granted-start : (p : AccessFlags) (g : Dmi) → (granted p g).start_address ≡ g.start_address
granted-start p g =
    if_both (λ (z : Dmi). z.start_address ≡ g.start_address) (is_ro p) (λ _. refl)
      λ _. if_both (λ (z : Dmi). z.start_address ≡ g.start_address) (is_wo p) (λ _. refl) λ _. refl

granted-end : (p : AccessFlags) (g : Dmi) → (granted p g).end_address ≡ g.end_address
granted-end p g =
    if_both (λ (z : Dmi). z.end_address ≡ g.end_address) (is_ro p) (λ _. refl)
      λ _. if_both (λ (z : Dmi). z.end_address ≡ g.end_address) (is_wo p) (λ _. refl) λ _. refl

add64_small : (a b : ℕ) → a + b < 2 ^ 64 → add64 a b ≡ a + b
add64_small a b h = omega arith

sub64_small : (a b : ℕ) → b ≤ a → a - b < 2 ^ 64 → sub64 a b ≡ a - b
sub64_small a b h k = omega arith

module _ (te : TlbEntry) (iova : ℕ) (g : Dmi) where
  abbrev first : ℕ
  first = larger te.translated_addr g.start_address

  abbrev last : ℕ
  last = smaller (bit_or te.translated_addr te.addr_mask) g.end_address

  abbrev page : ℕ
  page = iova - masked te.addr_mask iova

  abbrev cut : Dmi
  cut = record g {
    ptr = g.ptr + (first - g.start_address);
    start_address = add64 page (sub64 first te.translated_addr);
    end_address = add64 page (sub64 last te.translated_addr);
  }

  cut-Serves :
      (a : ℕ)
      → page + te.addr_mask < 2 ^ 64
      → first ≤ last
      → (granted te.perm cut).start_address ≤ a
      → a ≤ (granted te.perm cut).end_address
      → Serves te iova g (granted te.perm cut) a
  cut-Serves a fits order from to =
      let below = bit_or-le te.translated_addr te.addr_mask in
      let f1 : te.translated_addr ≤ first = ground arith in
      let f2 : g.start_address ≤ first = ground arith in
      let l1 : last ≤ bit_or te.translated_addr te.addr_mask = ground arith in
      let l2 : last ≤ g.end_address = ground arith in
      let s : sub64 first te.translated_addr ≡ first - te.translated_addr =
        sub64_small first te.translated_addr f1 (omega arith) in
      let e : sub64 last te.translated_addr ≡ last - te.translated_addr =
        sub64_small last te.translated_addr (le_trans f1 order) (omega arith) in
      let start : (granted te.perm cut).start_address ≡ page + (first - te.translated_addr) =
        granted-start te.perm cut
        ∙ ap (add64 page) s
        ∙ add64_small page (first - te.translated_addr) (omega arith) in
      let end : (granted te.perm cut).end_address ≡ page + (last - te.translated_addr) =
        granted-end te.perm cut
        ∙ ap (add64 page) e
        ∙ add64_small page (last - te.translated_addr) (omega arith) in
      let p = granted-ptr te.perm cut in
      record {
        from_page = omega arith;
        to_page = omega arith;
        from_grant = omega arith;
        to_grant = omega arith;
        shows = omega arith;
      }

  abbrev cut_or : Bool → Bool × Dmi
  cut_or empty = if empty then (false, g) else (true, granted te.perm cut)

  window-Serves :
      (g' : Dmi) (a : ℕ)
      → page + te.addr_mask < 2 ^ 64
      → window te iova g ≡ (true, g')
      → g'.start_address ≤ a
      → a ≤ g'.end_address
      → Serves te iova g g' a
  unfolding window
  window-Serves g' a fits e = elim (Bool-cases (ltb last first)) [
    | inl h ↦
        let both : false ≡ true = sym (ap (λ z. (cut_or z).0) h) ∙ ap (λ z. z.0) e in absurd (cc)
    | inr h ↦
        let same : granted te.perm cut ≡ g' = sym (ap (λ z. (cut_or z).1) h) ∙ ap (λ z. z.1) e in
        subst (λ z. z.start_address ≤ a → a ≤ z.end_address → Serves te iova g z a) same
          (cut-Serves a fits (ltb→le last first h))
  ]

module _ {M : Type 0} (dma : Dma M) (streams : Streams M) (c : Config) (d : Downstream M)
    (o : Origin) where
  abbrev outcome_of : Dmi → Outcome ((Bool × Dmi) × Tlb × M) → Bool × Dmi
  outcome_of g (done (x, t, m)) = x
  outcome_of g fatal = (false, g)
  outcome_of g no_fuel = (false, g)

  abbrev answer_if : TlbEntry → Tlb → M → Payload → Dmi → Bool → Outcome ((Bool × Dmi) × Tlb × M)
  answer_if te t m p g forbidden =
      if forbidden
      then done ((false, no_grant dma streams c d o p g), t, m)
      else narrowed dma streams c d o te p t (
          d.get_direct_mem_ptr
            (record p { address = bit_or te.translated_addr (masked te.addr_mask p.address) }) m)

  -- Where get_direct_mem_ptr grants a window for a translation and a grant from downstream, the
  -- permission allows the command, every address of the window lies in the page of the
  -- translation, and it shows the byte of the grant at the translated address, moved by the offset
  -- in the page; that byte lies in the grant. The page must not reach past the last address.
  pub get_direct_mem_ptr-Serves :
      (p : Payload) (dmi g g' : Dmi) (te : TlbEntry) (t t' t1 : Tlb) (m m' m1 m2 : M) (a : ℕ)
      → translate dma streams c d o p t m ≡ done (te, t1, m1)
      → d.get_direct_mem_ptr
          (record p { address = bit_or te.translated_addr (masked te.addr_mask p.address) })
          m1
        ≡ (true, g, m2)
      → get_direct_mem_ptr dma streams c d o p dmi t m ≡ done ((true, g'), t', m')
      → p.address - masked te.addr_mask p.address + te.addr_mask < 2 ^ 64
      → g'.start_address ≤ a
      → a ≤ g'.end_address
      → (forbids te.perm p.command ≡ false) × Serves te p.address g g' a
  unfolding get_direct_mem_ptr
  get_direct_mem_ptr-Serves p dmi g g' te t t' t1 m m' m1 m2 a h k e fits from to =
      elim (Bool-cases (forbids te.perm p.command)) [
        | inl denied ↦
            let path =
              ap (dmi_with dma streams c d o p dmi) h ∙ ap (answer_if te t1 m1 p dmi) denied in
            let both : false ≡ true = ap (λ x. (outcome_of dmi x).0) (sym path ∙ e) in absurd (cc)
        | inr may ↦
            let path =
              ap (dmi_with dma streams c d o p dmi) h
              ∙ ap (answer_if te t1 m1 p dmi) may
              ∙ ap (narrowed dma streams c d o te p t1) k in
            (
              may,
              window-Serves te p.address g g' a fits (ap (outcome_of dmi) (sym path ∙ e)) from to,
            )
      ]
