-- ===== src/Smmu/Walk/Result.antt =====
-- `smmuv3_ptw64` as a whole: it ends, and what it returns.
use Prim.Native.Nat.{bit_or}
use mathlib.Core.Path.{subst}
use qbox.Base.{
  ℕ, suc, ◌+◌, ◌-◌, ◌*◌, ◌%◌, ◌^◌, ◌≤◌, ◌<◌, ◌≡◌, ◌≢◌, ◌⊎◌, refl, sym, ap, ◌∙◌, true, false, ◌&&◌,
  some, arith, ◌==◌, get_elem?, All-get,
}
use qbox.Base.Outcomes.{done, fatal, no_fuel}
use qbox.Smmu.{ro, allowed, PtwCtx, TransReq, Dma, stage2_ctx, aligned, check_out_addr}
use qbox.Smmu.Plan.{
  Grain, granule, stride, select_half, setup, Plan, Setup, refused, undefined, planned,
  output_sizes, capped,
}
use qbox.Smmu.Plan.Fits.{Fits, setup-Fits}
use qbox.Smmu.Walk.{Answer, begun, cleared, ptw64_by, smmuv3_ptw64, walk, ended}
use qbox.Smmu.Walk.Loop.{Ends, Answers, walk-Sound}
use qbox.Smmu.Walk.Verdict.{Correct, ended-Correct}
use qbox.Smmu.Walk.Bounds.{leaf_offset, leaf_bound}

-- Every output size is at least 32.
size-ge : (ips size : ℕ) → get_elem? output_sizes ips ≡ some size → 32 ≤ size
size-ge ips size e =
    All-get (λ z. 32 ≤ z) output_sizes ips size
      (
        omega arith,
        (
          omega arith,
          (
            omega arith,
            (omega arith, (omega arith, (omega arith, (omega arith, (omega arith, tt))))),
          ),
        ),
      )
      e

capped-ge : (pamax size : ℕ) → 32 ≤ pamax → 32 ≤ size → 32 ≤ capped pamax size
capped-ge pamax size h k = ground arith

-- The address of a leaf, by the word of its descriptor.
abbrev leaf_address : ℕ → ℕ → Grain → ℕ → ℕ
leaf_address iova level g q =
    bit_or (aligned g.grainsize q) (iova % 2 ^ (stride g.grainsize * (4 - level) + 3))

module _ {M : Type 0} (dma : Dma M) (nested : PtwCtx → TransReq → M → Answer M) (c : PtwCtx) where
  -- What the answer says, whatever the plan was.
  unfoldable pub Meets : ℕ → Answer M → Type 0
  Meets pamax (done (false, r, m)) = r.err ≡ true
  Meets pamax (done (true, r, m)) =
      (r.err ≡ false)
      × (allowed r.prot c.access ≡ true)
      × ((g : Grain) × (size : ℕ) × (granule (select_half c).tg ≡ some g)
          × (get_elem? output_sizes c.ips ≡ some size)
          × (r.pa % 2 ^ g.grainsize ≡ c.iova % 2 ^ g.grainsize)
          × (32 ≤ pamax → r.pa < 2 ^ capped pamax size))
  Meets pamax fatal = Unit
  Meets pamax no_fuel = ⊥

  Correct-Meets :
      (pamax : ℕ) (p : Plan) (x : Answer M)
      → Fits pamax c (planned p)
      → Correct dma nested c p x
      → Meets pamax x
  unfolding Fits Correct Meets
  Correct-Meets pamax p (done (false, r, m)) f h = h
  Correct-Meets pamax p (done (true, r, m)) (k, (g, size, known, there, n, b, o))
        (e, a, (level, desc, l, at, out, pa)) =
      let q = desc % 2 ^ 48 in
      let tg = (select_half c).tg in
      let here : (level ≡ 3) ⊎ (g.firstblocklevel ≤ level) =
        subst (λ z. (level ≡ 3) ⊎ (z ≤ level)) b at in
      let address : r.pa ≡ leaf_address c.iova level g q =
        pa ∙ ap (λ z. bit_or (aligned z q) (c.iova % 2 ^ (stride z * (4 - level) + 3))) n in
      let fits : check_out_addr (aligned g.grainsize q) (capped pamax size) ≡ true =
        ap (check_out_addr (aligned g.grainsize q)) (sym o)
        ∙ ap (λ z. check_out_addr (aligned z q) p.outputsize) (sym n)
        ∙ out in
      let small : aligned g.grainsize q < 2 ^ 48 = omega arith in
      (
        e,
        a,
        (
          g,
          size,
          known,
          there,
          ap (λ z. z % 2 ^ g.grainsize) address ∙ leaf_offset tg level c.iova g q known l here,
          λ wide.
              subst (λ z. z < 2 ^ capped pamax size) (sym address)
                (leaf_bound tg level c.iova g (aligned g.grainsize q) (capped pamax size) known l
                  here (capped-ge pamax size wide (size-ge c.ips size there)) small fits),
        ),
      )
  Correct-Meets pamax p fatal f h = tt
  Correct-Meets pamax p no_fuel f h = h

  begun-Meets :
      (pamax : ℕ) (r : TransReq) (m : M) (s : Setup)
      → ((c.stage == 1) && c.s2_enabled ≡ true → Answers nested)
      → r.err ≡ false
      → Fits pamax c s
      → Meets pamax (begun dma nested c r m s)
  unfolding Meets Fits
  begun-Meets pamax r m (refused event) h e f = refl
  begun-Meets pamax r m undefined h e f = tt
  begun-Meets pamax r m (planned p) h e f =
      Correct-Meets pamax p (ended dma nested c p (walk dma nested c p 4 p.level p.ttbr r m)) f (
        ended-Correct dma nested c p (walk dma nested c p 4 p.level p.ttbr r m)
          (walk-Sound dma nested c p 4 p.level p.ttbr r m h f.0 (omega arith) e))

module _ {M : Type 0} (dma : Dma M) (pamax : ℕ) where
  ptw64_by-Meets :
      (nested : PtwCtx → TransReq → M → Answer M) (c : PtwCtx) (r : TransReq) (m : M)
      → ((c.stage == 1) && c.s2_enabled ≡ true → Answers nested)
      → Meets dma nested c pamax (ptw64_by dma pamax nested c r m)
  unfolding ptw64_by
  ptw64_by-Meets nested c r m h =
      begun-Meets dma nested c pamax (cleared r) m (setup pamax c) h refl (setup-Fits pamax c)

  Meets-Ends :
      (nested : PtwCtx → TransReq → M → Answer M) (c : PtwCtx) (x : Answer M)
      → Meets dma nested c pamax x
      → Ends x
  unfolding Meets Ends
  Meets-Ends nested c (done x) h = tt
  Meets-Ends nested c fatal h = tt
  Meets-Ends nested c no_fuel h = h

  -- For stage 2 one call is enough, and for stage 1 two.
  stage2-Answers : (depth : ℕ) → Answers (smmuv3_ptw64 dma pamax (suc depth))
  unfolding Answers smmuv3_ptw64
  stage2-Answers depth s a r m =
      let c = stage2_ctx s a ro in
      Meets-Ends (smmuv3_ptw64 dma pamax depth) c
        (ptw64_by dma pamax (smmuv3_ptw64 dma pamax depth) c r m)
        (ptw64_by-Meets (smmuv3_ptw64 dma pamax depth) c r m (λ h. cc))

  pub smmuv3_ptw64-Meets :
      (depth : ℕ) (c : PtwCtx) (r : TransReq) (m : M)
      → Meets dma
          (smmuv3_ptw64 dma pamax (suc depth))
          c
          pamax
          (smmuv3_ptw64 dma pamax (suc (suc depth)) c r m)
  unfolding smmuv3_ptw64
  smmuv3_ptw64-Meets depth c r m =
      ptw64_by-Meets (smmuv3_ptw64 dma pamax (suc depth)) c r m (λ _. stage2-Answers depth)

  pub smmuv3_ptw64-ends :
      (depth : ℕ) (c : PtwCtx) (r : TransReq) (m : M)
      → smmuv3_ptw64 dma pamax (suc (suc depth)) c r m ≢ no_fuel
  unfolding Meets
  smmuv3_ptw64-ends depth c r m e =
      subst (Meets dma (smmuv3_ptw64 dma pamax (suc depth)) c pamax) e
        (smmuv3_ptw64-Meets depth c r m)

  -- Where the function returns true, from memory of whatever contents, no error is set, the grant
  -- covers the access, and the address has the offset of the input in a page of the granule. It
  -- is below two to the power of the output size, if `p_pamax` is 32 or more.
  pub smmuv3_ptw64-translates :
      (depth : ℕ) (c : PtwCtx) (r r' : TransReq) (m m' : M)
      → 32 ≤ pamax
      → smmuv3_ptw64 dma pamax (suc (suc depth)) c r m ≡ done (true, r', m')
      → (r'.err ≡ false)
        × (allowed r'.prot c.access ≡ true)
        × ((g : Grain) × (size : ℕ) × (granule (select_half c).tg ≡ some g)
            × (get_elem? output_sizes c.ips ≡ some size)
            × (r'.pa % 2 ^ g.grainsize ≡ c.iova % 2 ^ g.grainsize)
            × (r'.pa < 2 ^ capped pamax size))
  unfolding Meets
  smmuv3_ptw64-translates depth c r r' m m' wide e =
      let (clear, allows, (g, size, known, there, offset, bound)) =
        subst (Meets dma (smmuv3_ptw64 dma pamax (suc depth)) c pamax) e
          (smmuv3_ptw64-Meets depth c r m) in
      (clear, allows, (g, size, known, there, offset, bound wide))
