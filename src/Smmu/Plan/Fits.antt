-- ===== src/Smmu/Plan/Fits.antt =====
-- What a plan of `smmuv3_ptw64` has taken from its context, and contexts that never get one.
use qbox.Base.{
  ℕ, ◌-◌, ◌≤◌, ◌≡◌, refl, sym, ap, ◌∙◌, inl, inr, not, ◌||◌, Option, none, some, arith, Bool-cases,
  Option-cases, some_injective, if_both, if◌then◌else◌, ◌==◌, ltb, get_elem?,
}
use mathlib.Core.Path.{subst}
use native.Mathlib.Nat.{le_trans}
use qbox.Smmu.{PtwCtx, extract64, sub32, check_out_addr}
use qbox.Smmu.Plan.{
  Half, Grain, granule, stride, select_half, first_level, start_level, minus, concat_bits,
  lower_bound, first_table, check_s2_startlevel, base, sized1, sized2, with_output, with_grain,
  setup, Setup, refused, undefined, planned, output_sizes, capped,
}

Low : Option Grain → Type 0
Low none = Unit
Low (some g) = g.level ≤ 3

granule-level : (tg : ℕ) (g : Grain) → granule tg ≡ some g → g.level ≤ 3
unfolding granule Low
granule-level tg g e = subst Low e (
    if_both Low (tg == 1) (λ _. omega arith)
      λ _.
        if_both Low (tg == 2) (λ _. omega arith)
          λ _. if_both Low (tg == 0) (λ _. omega arith) λ _. tt)

first_level-le :
    (tg : ℕ) (g : Grain) (inputsize : ℕ) → granule tg ≡ some g → first_level g inputsize ≤ 3
unfolding first_level
first_level-le tg g i e = ground (arith, granule-level tg g e)

minus-le : (a b l : ℕ) → minus a b ≡ some l → l ≤ a
minus-le a b l e = elim (Bool-cases (ltb a b)) [
  | inl h ↦
      let absent : none ≡ some l = sym (ap (λ z. if z then none else some (a - b)) h) ∙ e in cc
  | inr h ↦
      let same : a - b ≡ l =
        some_injective (sym (ap (λ z. if z then none else some (a - b)) h) ∙ e) in
      omega arith
]

start_level-le : (g : Grain) (sl0 l : ℕ) → start_level g sl0 ≡ some l → l ≤ 3
unfolding start_level
start_level-le g sl0 l e =
    let top : (if g.grainsize == 12 then 2 else 3) ≤ 3 = ground arith in
    let under = minus-le (if g.grainsize == 12 then 2 else 3) sl0 l e in le_trans under top

module _ (pamax : ℕ) (c : PtwCtx) where
  -- The sizes of a plan are those of a granule and of an output size of the context.
  unfoldable pub Fits : Setup → Type 0
  Fits (planned p) =
      (p.level ≤ 3)
      × ((g : Grain) × (size : ℕ) × (granule (select_half c).tg ≡ some g)
          × (get_elem? output_sizes c.ips ≡ some size)
          × (p.grainsize ≡ g.grainsize)
          × (p.firstblocklevel ≡ g.firstblocklevel)
          × (p.outputsize ≡ capped pamax size))
  Fits (refused event) = Unit
  Fits undefined = Unit

  module _ (g : Grain) (size : ℕ) (e : granule (select_half c).tg ≡ some g)
      (s : get_elem? output_sizes c.ips ≡ some size) where
    base-Fits :
        (inputsize ttbr level : ℕ)
        → level ≤ 3
        → Fits (base c (capped pamax size) g inputsize ttbr level)
    unfolding Fits base
    base-Fits i t l k =
        let n = g.grainsize in
        let concat = concat_bits c.stage n l i in
        let bound = lower_bound n l i in
        if_both Fits (ltb 4 concat) (λ _. tt)
          λ _.
            if_both Fits (ltb 63 bound) (λ _. tt)
              λ _.
                if_both Fits
                  (check_out_addr (first_table n l bound concat c.iova t) (capped pamax size))
                  (λ _. (k, (g, size, e, s, refl, refl, refl))) λ _. tt

    sized2-Fits :
        (inputsize ttbr : ℕ) (level : Option ℕ)
        → ((l : ℕ) → level ≡ some l → l ≤ 3)
        → Fits (sized2 c (capped pamax size) g inputsize ttbr level)
    unfolding sized2 Fits
    sized2-Fits i t none h = tt
    sized2-Fits i t (some l) h =
        if_both Fits (check_s2_startlevel (capped pamax size) l (stride g.grainsize))
          (λ _. base-Fits i t l (h l refl)) λ _. tt

    with_output-Fits : (h : Half) → Fits (with_output pamax c h g (some size))
    unfolding with_output sized1 Fits
    with_output-Fits h =
        let i = sub32 64 h.tsz in
        let wrong = ltb i 25 || ltb 48 i || not (extract64 c.iova i (64 - i) == 0) in
        if_both Fits (c.stage == 1)
          (λ _.
            if_both Fits wrong (λ _. tt)
              λ _. base-Fits i h.ttbr (first_level g i) (first_level-le (select_half c).tg g i e))
          λ _. sized2-Fits i h.ttbr (start_level g c.sl0) (start_level-le g c.sl0)

  with_grain-Fits :
      (h : Half) (g : Option Grain) → granule (select_half c).tg ≡ g → Fits (with_grain pamax c h g)
  unfolding with_grain Fits with_output
  with_grain-Fits h none e = tt
  with_grain-Fits h (some g) e = elim (Option-cases (get_elem? output_sizes c.ips)) [
    | inl past ↦ subst (λ z. Fits (with_output pamax c h g z)) (sym past) tt
    | inr (size, there) ↦
        subst (λ z. Fits (with_output pamax c h g z)) (sym there)
          (with_output-Fits g size e there h)
  ]

  pub setup-Fits : Fits (setup pamax c)
  unfolding setup Fits
  setup-Fits =
      if_both Fits (select_half c).epd (λ _. tt)
        λ _. with_grain-Fits (select_half c) (granule (select_half c).tg) refl
