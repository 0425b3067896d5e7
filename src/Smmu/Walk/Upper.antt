-- ===== src/Smmu/Walk/Upper.antt =====
-- A walk of stage 1 fails for every address of the upper half.
use qbox.Base.{
  ℕ, suc, ◌-◌, ◌^◌, ◌≤◌, ◌<◌, ◌≡◌, refl, sym, ap, ◌∙◌, inl, inr, true, false, not, ◌||◌, arith,
  Bool-cases, if_both, ==_iff, or_false, ◌==◌, ltb, ltb→le,
}
use native.Mathlib.Nat.{pow-le-pow_right}
use qbox.Smmu.Walk.Bounds.{extract64-lt}
use qbox.Base.Outcomes.{done}
use qbox.Smmu.{PtwCtx, TransReq, Dma, fail, extract64}
use qbox.Smmu.Plan.{Grain, setup, Setup, refused, undefined, planned, sized1}
use qbox.Smmu.Walk.{begun, cleared, ptw64_by, smmuv3_ptw64}
use qbox.Smmu.Plan.Stage1.{setup-stage1}

-- A setup without a plan, of which every walk fails.
IsRefused : Setup → Type 0
IsRefused (refused event) = Unit
IsRefused undefined = ⊥
IsRefused (planned p) = ⊥

-- No input size lets an address of the upper half through.
upper_size : (i a : ℕ) → 2 ^ 63 ≤ a → a < 2 ^ 64 → i ≤ 48 → (extract64 a i (64 - i) == 0) ≡ false
upper_size i a h k l = elim (Bool-cases (extract64 a i (64 - i) == 0)) [
  | inl e ↦
      let under = extract64-lt 64 i a (omega arith) k ((==_iff (extract64 a i (64 - i)) 0).0 e) in
      let grown = pow-le-pow_right {n = 2} (omega arith) l in absurd (omega arith)
  | inr e ↦ e
]

sized1-IsRefused :
    (c : PtwCtx) (o : ℕ) (g : Grain) (i t : ℕ)
    → 2 ^ 63 ≤ c.iova
    → c.iova < 2 ^ 64
    → IsRefused (sized1 c o g i t)
unfolding sized1 IsRefused
sized1-IsRefused c o g i t h k =
    let wide = not (extract64 c.iova i (64 - i) == 0) in
    let wrong = ltb i 25 || ltb 48 i || wide in
    if_both IsRefused wrong (λ _. tt)
      λ e.
        let (sized, narrow) = or_false (ltb i 25 || ltb 48 i) wide e in
        let (low, high) = or_false (ltb i 25) (ltb 48 i) sized in
        let both : true ≡ false =
          sym (ap not (upper_size i c.iova h k (ltb→le 48 i high))) ∙ narrow in
        absurd (cc)

module _ {M : Type 0} (dma : Dma M) (pamax depth : ℕ) (c : PtwCtx) (r : TransReq) (m : M) where
  begun-refused :
      (s : Setup)
      → IsRefused s
      → (r' : TransReq) × (begun dma (smmuv3_ptw64 dma pamax depth) c (cleared r) m s
          ≡ done (false, r', m))
        × (r'.err ≡ true)
  unfolding IsRefused
  begun-refused (refused event) h = (fail event 0 (cleared r), refl, refl)
  begun-refused undefined h = absurd h
  begun-refused (planned p) h = absurd h

  -- With a valid output size, a walk of stage 1 fails for every address of the upper half of the
  -- address space, and reads no memory.
  pub smmuv3_ptw64-upper :
      c.stage ≡ 1
      → 2 ^ 63 ≤ c.iova
      → c.iova < 2 ^ 64
      → c.ips < 8
      → (r' : TransReq) × (smmuv3_ptw64 dma pamax (suc depth) c r m ≡ done (false, r', m))
        × (r'.err ≡ true)
  unfolding smmuv3_ptw64 ptw64_by IsRefused
  smmuv3_ptw64-upper one h k known = begun-refused (setup pamax c) (
      setup-stage1 c pamax ((==_iff c.stage 1).1 one) known IsRefused (λ _. tt)
        λ g i t _ o. sized1-IsRefused c o g i t h k)
