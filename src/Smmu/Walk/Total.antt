-- ===== src/Smmu/Walk/Total.antt =====
-- A walk of stage 1 alone always returns.
use qbox.Base.{
  ℕ, suc, ◌<◌, ◌≡◌, refl, sym, ap, ◌∙◌, Bool, true, false, not, ◌&&◌, arith, ==_iff, and_off, ◌==◌,
}
use qbox.Base.Outcomes.{done, fatal, no_fuel}
use qbox.Smmu.{PtwCtx, TransReq, Dma}
use qbox.Smmu.Plan.{setup, Plan, Setup, refused, undefined, planned}
use qbox.Smmu.Plan.Fits.{Fits, setup-Fits}
use qbox.Smmu.Walk.{Answer, begun, cleared, ptw64_by, smmuv3_ptw64, walk, ended}
use qbox.Smmu.Walk.Loop.{walk-Sound}
use qbox.Smmu.Walk.Verdict.{Correct, ended-Correct}
use qbox.Smmu.Plan.Stage1.{IsDefined, setup-IsDefined}

-- A walk that ends with an answer, whose error is set where it returns false.
Returns : {M : Type 0} → Answer M → Type 0
Returns (done (b, r, m)) = b ≡ not r.err
Returns fatal = ⊥
Returns no_fuel = ⊥

module _ {M : Type 0} (dma : Dma M) (nested : PtwCtx → TransReq → M → Answer M) (c : PtwCtx)
    (alone : c.s2_enabled ≡ false) where
  not_nested : ((c.stage == 1) && c.s2_enabled) ≡ false
  not_nested = ap (λ z. (c.stage == 1) && z) alone ∙ and_off (c.stage == 1)

  Correct-Returns : (p : Plan) (x : Answer M) → Correct dma nested c p x → Returns x
  unfolding Correct Returns
  Correct-Returns p (done (false, r, m)) h = sym (ap not h)
  Correct-Returns p (done (true, r, m)) h = sym (ap not h.0)
  Correct-Returns p fatal h = let both : true ≡ false = sym h ∙ not_nested in cc
  Correct-Returns p no_fuel h = h

  begun-Returns :
      (pamax : ℕ) (r : TransReq) (m : M) (s : Setup)
      → r.err ≡ false
      → Fits pamax c s
      → IsDefined s
      → Returns (begun dma nested c r m s)
  unfolding Fits IsDefined Returns
  begun-Returns pamax r m (refused event) e f d = refl
  begun-Returns pamax r m undefined e f d = d
  begun-Returns pamax r m (planned p) e f d =
      let end = walk dma nested c p 4 p.level p.ttbr r m in
      Correct-Returns p (ended dma nested c p end) (
        ended-Correct dma nested c p end (
          walk-Sound dma nested c p 4 p.level p.ttbr r m
            (λ h. let both : true ≡ false = sym h ∙ not_nested in absurd (cc)) f.0 (omega arith) e))

module _ {M : Type 0} (dma : Dma M) (pamax depth : ℕ) (c : PtwCtx) (r : TransReq) (m : M) where
  Returns-answer :
      (x : Answer M)
      → Returns x
      → (b : Bool) × (r' : TransReq) × (m' : M) × (x ≡ done (b, r', m')) × (b ≡ not r'.err)
  unfolding Returns
  Returns-answer (done (b, r, m)) h = (b, r, m, refl, h)
  Returns-answer fatal h = absurd h
  Returns-answer no_fuel h = absurd h

  -- A walk of stage 1 with a valid output size, not behind stage 2, always returns, whatever the
  -- tables in memory are, and it returns false where it has set the error of the request, and true
  -- where it has not.
  pub smmuv3_ptw64-returns :
      c.stage ≡ 1
      → c.s2_enabled ≡ false
      → c.ips < 8
      → (b : Bool) × (r' : TransReq) × (m' : M) × (smmuv3_ptw64 dma pamax (suc depth) c r m
          ≡ done (b, r', m'))
        × (b ≡ not r'.err)
  unfolding smmuv3_ptw64 ptw64_by
  smmuv3_ptw64-returns one alone known = Returns-answer (smmuv3_ptw64 dma pamax (suc depth) c r m) (
      begun-Returns dma (smmuv3_ptw64 dma pamax depth) c alone pamax (cleared r) m (setup pamax c)
        refl (setup-Fits pamax c) (setup-IsDefined c pamax ((==_iff c.stage 1).1 one) known))
