-- ===== src/Smmu/Plan/Stage1.antt =====
-- The setup of a walk of stage 1: it never meets what C++ leaves undefined.
use mathlib.Core.Path.{subst}
use qbox.Base.{
  ℕ, zero, suc, ◌+◌, ◌-◌, ◌*◌, ◌≤◌, ◌<◌, ◌≡◌, refl, sym, ap, ◌∙◌, true, false, not, ◌&&◌, ◌||◌,
  Option, none, some, arith, if_both, or_false, and_true, if◌then◌else◌, ◌==◌, get_elem?, ltb,
  ltb→lt, ltb→le, le→ltb,
}
use qbox.Smmu.{PtwCtx, sub32, extract64, check_out_addr, evt_f_addr_size, evt_f_translation}
use qbox.Smmu.Plan.{
  Half, Grain, granule, stride, select_half, setup, Setup, refused, undefined, planned,
  output_sizes, capped, first_level, concat_bits, lower_bound, first_table, base, sized1, sized2,
  start_level, with_output, with_grain,
}

-- The default level reaches down far enough for the least input.
unfoldable pub Reaches : Option Grain → Type 0
Reaches none = Unit
Reaches (some g) = (3 - g.level) * stride g.grainsize + g.grainsize ≤ 28

granule-Reaches : (tg : ℕ) → Reaches (granule tg)
unfolding granule Reaches
granule-Reaches tg =
    if_both Reaches (tg == 1) (λ _. omega arith)
      λ _.
        if_both Reaches (tg == 2) (λ _. omega arith)
          λ _. if_both Reaches (tg == 0) (λ _. omega arith) λ _. tt

first_level-reaches :
    (g : Grain) (i : ℕ)
    → (3 - g.level) * stride g.grainsize + g.grainsize ≤ 28
    → 25 ≤ i
    → (3 - first_level g i) * stride g.grainsize + g.grainsize ≤ 3 + i
unfolding first_level
first_level-reaches g i h l =
    let n = g.grainsize in
    let Q : ℕ → Type 0 = λ z. (3 - z) * stride n + n ≤ 3 + i in
    if_both Q (ltb n 16 && ltb (n + 3 * stride n) i)
      (λ e. let lt = ltb→lt _ _ (and_true (ltb n 16) (ltb (n + 3 * stride n) i) e).1 in omega arith)
      λ _.
        if_both Q (ltb (n + 2 * stride n) i) (λ e. let lt = ltb→lt _ _ e in omega arith)
          λ _.
            if_both Q (ltb (n + stride n) i) (λ e. let lt = ltb→lt _ _ e in omega arith)
              λ _. omega arith

-- A plan or a refusal.
unfoldable pub IsDefined : Setup → Type 0
IsDefined (refused event) = Unit
IsDefined undefined = ⊥
IsDefined (planned p) = Unit

module _ (c : PtwCtx) (o : ℕ) where
  base-IsDefined :
      (g : Grain) (i t l : ℕ)
      → i ≤ 48
      → (3 - l) * stride g.grainsize + g.grainsize ≤ 3 + i
      → IsDefined (base c o g i t l)
  unfolding base IsDefined
  base-IsDefined g i t l h k =
      let n = g.grainsize in
      let concat = concat_bits c.stage n l i in
      let bound = lower_bound n l i in
      let fits : ltb 63 bound ≡ false = le→ltb 63 bound (omega arith) in
      if_both IsDefined (ltb 4 concat) (λ _. tt)
        λ _.
          if_both IsDefined (ltb 63 bound) (λ e. let both : true ≡ false = sym e ∙ fits in cc)
            λ _.
              if_both IsDefined (check_out_addr (first_table n l bound concat c.iova t) o) (λ _. tt)
                λ _. tt

  sized1-IsDefined :
      (g : Grain) (i t : ℕ)
      → (3 - g.level) * stride g.grainsize + g.grainsize ≤ 28
      → IsDefined (sized1 c o g i t)
  unfolding sized1 IsDefined
  sized1-IsDefined g i t h =
      let wrong = ltb i 25 || ltb 48 i || not (extract64 c.iova i (64 - i) == 0) in
      if_both IsDefined wrong (λ _. tt)
        λ e.
          let (sized, _) =
            or_false (ltb i 25 || ltb 48 i) (not (extract64 c.iova i (64 - i) == 0)) e in
          let (low, high) = or_false (ltb i 25) (ltb 48 i) sized in
          base-IsDefined g i t (first_level g i) (ltb→le 48 i high)
            (first_level-reaches g i h (ltb→le i 25 low))

-- An address that the table of output sizes has an entry for.
output_size : (ips : ℕ) → ips < 8 → (size : ℕ) × (get_elem? output_sizes ips ≡ some size)
output_size zero h = (32, refl)
output_size (suc zero) h = (36, refl)
output_size (suc (suc zero)) h = (40, refl)
output_size (suc (suc (suc zero))) h = (42, refl)
output_size (suc (suc (suc (suc zero)))) h = (44, refl)
output_size (suc (suc (suc (suc (suc zero))))) h = (48, refl)
output_size (suc (suc (suc (suc (suc (suc zero)))))) h = (48, refl)
output_size (suc (suc (suc (suc (suc (suc (suc zero))))))) h = (48, refl)
output_size (suc (suc (suc (suc (suc (suc (suc (suc n)))))))) h = absurd (omega arith)

module _ (c : PtwCtx) (pamax : ℕ) (one : (c.stage == 1) ≡ true) (known : c.ips < 8) where
  -- What stage 1 does once the granule is known.
  with_output-stage1 :
      (h : Half) (g : Grain)
      → (P : Setup → Type 0) → ((o : ℕ) → P (sized1 c o g (sub32 64 h.tsz) h.ttbr))
      → P (with_output pamax c h g (get_elem? output_sizes c.ips))
  unfolding with_output
  with_output-stage1 h g P k =
      let (size, e) = output_size c.ips known in
      subst P
        (sym (
          ap (with_output pamax c h g) e
          ∙ ap
              (λ z.
                if z
                then sized1 c (capped pamax size) g (sub32 64 h.tsz) h.ttbr
                else sized2 c (capped pamax size) g (sub32 64 h.tsz) h.ttbr (start_level g c.sl0))
              one))
        (k (capped pamax size))

  with_grain-stage1 :
      (h : Half) (g : Option Grain) (P : Setup → Type 0)
      → ((event : ℕ) → P (refused event))
      → ((x : Grain) → g ≡ some x → (o : ℕ) → P (sized1 c o x (sub32 64 h.tsz) h.ttbr))
      → P (with_grain pamax c h g)
  unfolding with_grain
  with_grain-stage1 h none P f k = f evt_f_addr_size
  with_grain-stage1 h (some g) P f k = with_output-stage1 h g P (k g refl)

  pub setup-stage1 :
      (P : Setup → Type 0)
      → ((event : ℕ) → P (refused event))
      → ((x : Grain) (i t : ℕ) → Reaches (some x) → (o : ℕ) → P (sized1 c o x i t))
      → P (setup pamax c)
  unfolding setup
  setup-stage1 P f k =
      let h = select_half c in
      if_both P h.epd (λ _. f evt_f_translation)
        λ _.
          with_grain-stage1 h (granule h.tg) P f
            λ x e o. k x (sub32 64 h.tsz) h.ttbr (subst Reaches e (granule-Reaches h.tg)) o

  pub setup-IsDefined : IsDefined (setup pamax c)
  unfolding Reaches IsDefined
  setup-IsDefined = setup-stage1 IsDefined (λ _. tt) λ g i t h o. sized1-IsDefined c o g i t h
