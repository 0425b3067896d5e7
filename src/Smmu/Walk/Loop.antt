-- ===== src/Smmu/Walk/Loop.antt =====
-- The loop of `smmuv3_ptw64`: how it ends, whatever the memory holds.
use Prim.Native.Nat.{bit_or}
use qbox.Base.{
  ℕ, zero, suc, ◌+◌, ◌%◌, ◌≤◌, ◌<◌, ◌≡◌, ◌⊎◌, refl, inl, inr, Bool, true, false, ◌&&◌, Option, none,
  some, arith, if_both, ltb→le, ==_iff, ltb, ◌==◌,
}
use qbox.Base.Outcomes.{Outcome, done, fatal, no_fuel}
use qbox.Smmu.{ro, extract64, Ste, PtwCtx, TransReq, Dma, check_out_addr, stage2_ctx, new_req}
use qbox.Smmu.Plan.{Plan}
use qbox.Smmu.Walk.{
  Ending, faulted, leaf, Answer, resolved, through_stage2, resolve, next_table, by_type, examine,
  fetched, located, descaddr, walk,
}

-- A call that has an answer, or ends the run, but does not want more fuel.
unfoldable pub Ends : {A : Type 0} → Outcome A → Type 0
Ends (done a) = Unit
Ends fatal = Unit
Ends no_fuel = ⊥

-- A call for stage 2, from stage 1, does not run out of fuel.
unfoldable pub Answers : {M : Type 0} → (PtwCtx → TransReq → M → Answer M) → Type 0
Answers {M = M} nested =
    (s : Ste) (a : ℕ) (r : TransReq) (m : M) → Ends (nested (stage2_ctx s a ro) r m)

module _ {M : Type 0} (dma : Dma M) (nested : PtwCtx → TransReq → M → Answer M) (c : PtwCtx)
    (p : Plan) where
  -- The tables of stage 1 lie behind stage 2.
  abbrev pub is_nested : Bool
  is_nested = (c.stage == 1) && c.s2_enabled

  -- The request has its error set at a fault, and at the last descriptor not, whose address is that
  -- of a table. Only a nested walk may end the run.
  unfoldable pub Sound : Outcome (Ending × M) → Type 0
  Sound (done (faulted r, m)) = r.err ≡ true
  Sound (done (leaf level t desc r, m)) =
      (r.err ≡ false)
      × (level ≤ 3)
      × ((level ≡ 3) ⊎ (p.firstblocklevel ≤ level))
      × (t ≡ next_table dma nested c p desc)
  Sound fatal = is_nested ≡ true
  Sound no_fuel = ⊥

  abbrev pub Next : Type 0
  Next = ℕ → ℕ → TransReq → M → Outcome (Ending × M)

  abbrev Good : Next → ℕ → Type 0
  Good next level = (t : ℕ) (r : TransReq) (m : M) → r.err ≡ false → Sound (next level t r m)

  by_type-Sound :
      (next : Next) (level desc : ℕ) (r : TransReq) (m : M)
      → Good next (suc level)
      → level < 3
      → r.err ≡ false
      → Sound (by_type dma nested c p next level desc r m)
  unfolding by_type Sound
  by_type-Sound next level desc r m g l e =
      if_both Sound (desc % 4 == 1)
        (λ _.
          if_both Sound (ltb level p.firstblocklevel) (λ _. refl)
            (λ h. (e, omega arith, inr (ltb→le level p.firstblocklevel h), refl)))
        (λ _.
          if_both Sound (desc % 4 == 3)
            (λ _.
              if_both Sound (check_out_addr (next_table dma nested c p desc) p.outputsize)
                (λ _.
                  g (next_table dma nested c p desc)
                    (record r { tableattrs = bit_or r.tableattrs (extract64 desc 59 5) }) m e)
                (λ _. refl))
            (λ _. refl))

  examine-Sound :
      (next : Next) (level desc : ℕ) (r : TransReq) (m : M)
      → (level < 3 → Good next (suc level))
      → level ≤ 3
      → r.err ≡ false
      → Sound (examine dma nested c p next level desc r m)
  unfolding examine Sound
  examine-Sound next level desc r m g l e =
      if_both Sound (level == 3)
        (λ h.
          if_both Sound (desc % 4 == 3) (λ _. (e, l, inl ((==_iff level 3).0 h), refl)) (λ _. refl))
        (λ h.
          let under : level < 3 = ground (arith, h, l) in
          by_type-Sound next level desc r m (g under) under e)

  fetched-Sound :
      (next : Next) (level a : ℕ) (r : TransReq) (x : Option ℕ × M)
      → (level < 3 → Good next (suc level))
      → level ≤ 3
      → r.err ≡ false
      → Sound (fetched dma nested c p next level a r x)
  unfolding Sound
  fetched-Sound next level a r (none, m) g l e = refl
  fetched-Sound next level a r (some desc, m) g l e =
      examine-Sound next level desc (record r { leaf_desc_addr = a }) m g l e

  Reached : Outcome (Option ℕ × M) → Type 0
  Reached (done x) = Unit
  Reached fatal = is_nested ≡ true
  Reached no_fuel = ⊥

  resolved-Reached : (x : Answer M) → is_nested ≡ true → Ends x → Reached (resolved dma nested c x)
  unfolding Ends Reached
  resolved-Reached (done (b, r, m)) n h = tt
  resolved-Reached fatal n h = n
  resolved-Reached no_fuel n h = h

  through_stage2-Reached :
      (s : Option Ste) (a : ℕ) (m : M)
      → Answers nested
      → is_nested ≡ true
      → Reached (through_stage2 dma nested c s a m)
  unfolding Answers Reached
  through_stage2-Reached none a m h n = n
  through_stage2-Reached (some s) a m h n =
      resolved-Reached (nested (stage2_ctx s a ro) (record (new_req a ro) { pa = a }) m) n
        (h s a (record (new_req a ro) { pa = a }) m)

  resolve-Reached :
      (a : ℕ) (m : M) → (is_nested ≡ true → Answers nested) → Reached (resolve dma nested c a m)
  unfolding resolve Reached
  resolve-Reached a m h =
      if_both Reached is_nested (λ n. through_stage2-Reached c.ste a m (h n) n) (λ _. tt)

  located-Sound :
      (next : Next) (level : ℕ) (r : TransReq) (x : Outcome (Option ℕ × M))
      → (level < 3 → Good next (suc level))
      → level ≤ 3
      → r.err ≡ false
      → Reached x
      → Sound (located dma nested c p next level r x)
  unfolding Sound Reached
  located-Sound next level r (done (none, m)) g l e h = refl
  located-Sound next level r (done (some a, m)) g l e h =
      fetched-Sound next level a r (dma.read a m) g l e
  located-Sound next level r fatal g l e h = h
  located-Sound next level r no_fuel g l e h = h

  pub walk-Sound :
      (fuel level t : ℕ) (r : TransReq) (m : M)
      → (is_nested ≡ true → Answers nested)
      → level ≤ 3
      → 3 < fuel + level
      → r.err ≡ false
      → Sound (walk dma nested c p fuel level t r m)
  unfolding walk
  walk-Sound zero level t r m h l f e = absurd (omega arith)
  walk-Sound (suc fuel) level t r m h l f e =
      located-Sound (walk dma nested c p fuel) level r
        (resolve dma nested c (descaddr dma nested c p level t) m)
        (λ under t r m. walk-Sound fuel (suc level) t r m h under (omega arith)) l e
        (resolve-Reached (descaddr dma nested c p level t) m h)
