-- ===== src/Smmu/Walk/Verdict.antt =====
-- What `smmuv3_ptw64` concludes from the last descriptor, and the whole function.
use Prim.Native.Nat.{bit_or}
use qbox.Base.{
  ℕ, ◌+◌, ◌-◌, ◌*◌, ◌/◌, ◌%◌, ◌^◌, ◌≤◌, ◌≡◌, ◌⊎◌, refl, sym, ap, ◌∙◌, Bool, true, false, not, ◌&&◌,
  if_both, not-true, ◌==◌, if◌then◌else◌,
}
use mathlib.Core.Path.{subst}
use qbox.Base.Outcomes.{Outcome, done, fatal, no_fuel}
use qbox.Smmu.{
  AccessFlags, ro, wo, rw, is_ro, is_wo, and_not, allowed, bit, PtwCtx, TransReq, Dma,
  check_out_addr,
}
use qbox.Smmu.Plan.{Plan, stride}
use qbox.Smmu.Walk.{
  Ending, faulted, leaf, Answer, dirtied, permit1, permit2, touch, touched, all_attrs, mapped,
  conclude, ended, next_table,
}
use qbox.Smmu.Walk.Loop.{Sound}

-- A write is allowed where nothing but a read is refused, and so on.
allowed-rw : (a : AccessFlags) → allowed rw a ≡ true
allowed-rw a = refl

allowed-ro : (a : AccessFlags) → is_wo a ≡ false → allowed (and_not rw wo) a ≡ true
allowed-ro a h = ap not h

allowed-wo : (a : AccessFlags) → is_ro a ≡ false → allowed (and_not rw ro) a ≡ true
allowed-wo a h = ap (λ z. not z && true) h

module _ {M : Type 0} (dma : Dma M) (nested : PtwCtx → TransReq → M → Answer M) (c : PtwCtx) where
  -- The verdict on a request that the leaf's address has been put into.
  pub Verdict : ℕ → Bool × TransReq × M → Type 0
  Verdict pa (false, r, m) = r.err ≡ true
  Verdict pa (true, r, m) = (r.err ≡ false) × (allowed r.prot c.access ≡ true) × (r.pa ≡ pa)

  dirtied-Verdict :
      (level : ℕ) (r : TransReq) (x : Bool × M)
      → r.err ≡ false
      → r.prot ≡ rw
      → Verdict r.pa (dirtied dma nested c level r x)
  unfolding Verdict
  dirtied-Verdict level r (true, m) e h = (e, ap (λ z. allowed z c.access) h, refl)
  dirtied-Verdict level r (false, m) e h = refl

  permit1-Verdict :
      (level attrs : ℕ) (dbm : Bool) (desc : ℕ) (r : TransReq) (m : M)
      → r.err ≡ false
      → r.prot ≡ rw
      → Verdict r.pa (permit1 dma nested c level attrs dbm desc r m)
  unfolding permit1 Verdict
  permit1-Verdict level attrs dbm desc r m e h =
      let V = Verdict r.pa in
      if_both V (not (bit 4 attrs)) (λ _. refl)
        λ _.
          if_both V (not (bit 5 attrs)) (λ _. (e, ap (λ z. allowed z c.access) h, refl))
            λ _.
              if_both V (not (is_wo c.access))
                (λ k. (
                  e,
                  ap (λ z. allowed (and_not z wo) c.access) h
                      ∙ allowed-ro c.access (not-true (is_wo c.access) k),
                  refl,
                ))
                λ _.
                  if_both V (c.hd && dbm)
                    (λ _.
                      dirtied-Verdict level r
                        (dma.write r.leaf_desc_addr (if bit 7 desc then desc - 2 ^ 7 else desc) m) e
                        h)
                    λ _. refl

  permit2-Verdict :
      (level s2ap : ℕ) (r : TransReq) (m : M)
      → r.err ≡ false
      → r.prot ≡ rw
      → Verdict r.pa (permit2 dma nested c level s2ap r m)
  unfolding permit2 Verdict
  permit2-Verdict level s2ap r m e h =
      let V = Verdict r.pa in
      if_both V (s2ap == 0) (λ _. refl)
        λ _.
          if_both V (s2ap == 1)
            (λ _.
              if_both V (is_wo c.access) (λ _. refl)
                λ k. (e, ap (λ z. allowed (and_not z wo) c.access) h ∙ allowed-ro c.access k, refl))
            λ _.
              if_both V (s2ap == 2)
                (λ _.
                  if_both V (is_ro c.access) (λ _. refl)
                    λ k. (
                      e,
                      ap (λ z. allowed (and_not z ro) c.access) h ∙ allowed-wo c.access k,
                      refl,
                    ))
                λ _. (e, ap (λ z. allowed z c.access) h, refl)

  touched-Verdict :
      (level attrs : ℕ) (dbm : Bool) (r : TransReq) (x : Bool × ℕ × M)
      → r.err ≡ false
      → r.prot ≡ rw
      → Verdict r.pa (touched dma nested c level attrs dbm r x)
  unfolding Verdict
  touched-Verdict level attrs dbm r (false, desc, m) e h = refl
  touched-Verdict level attrs dbm r (true, desc, m) e h =
      if_both (Verdict r.pa) (c.stage == 1) (λ _. permit1-Verdict level attrs dbm desc r m e h)
        λ _. permit2-Verdict level (attrs / 2 ^ 4 % 4) r m e h

  module _ (p : Plan) where
    -- The address that a leaf stands for.
    abbrev pub leaf_pa : ℕ → ℕ → ℕ
    leaf_pa level t = bit_or t (c.iova % 2 ^ (stride p.grainsize * (4 - level) + 3))

    -- The function returns false where the error is set. Otherwise the address is that of a leaf
    -- in the output range, and the grant covers the access.
    unfoldable pub Correct : Answer M → Type 0
    Correct (done (false, r, m)) = r.err ≡ true
    Correct (done (true, r, m)) =
        (r.err ≡ false)
        × (allowed r.prot c.access ≡ true)
        × ((level : ℕ) × (desc : ℕ) × (level ≤ 3)
            × ((level ≡ 3) ⊎ (p.firstblocklevel ≤ level))
            × (check_out_addr (next_table dma nested c p desc) p.outputsize ≡ true)
            × (r.pa ≡ leaf_pa level (next_table dma nested c p desc)))
    Correct fatal = (c.stage == 1) && c.s2_enabled ≡ true
    Correct no_fuel = ⊥

    Verdict-Correct :
        (level desc : ℕ) (x : Bool × TransReq × M)
        → level ≤ 3
        → (level ≡ 3) ⊎ (p.firstblocklevel ≤ level)
        → check_out_addr (next_table dma nested c p desc) p.outputsize ≡ true
        → Verdict (leaf_pa level (next_table dma nested c p desc)) x
        → Correct (done x)
    unfolding Verdict Correct
    Verdict-Correct level desc (false, r, m) l b o v = v
    Verdict-Correct level desc (true, r, m) l b o v = (v.0, v.1, (level, desc, l, b, o, v.2))

    conclude-Correct :
        (level desc : ℕ) (r : TransReq) (m : M)
        → r.err ≡ false
        → level ≤ 3
        → (level ≡ 3) ⊎ (p.firstblocklevel ≤ level)
        → Correct (done (conclude dma nested c p level (next_table dma nested c p desc) desc r m))
    unfolding conclude mapped Correct
    conclude-Correct level desc r m e l b =
        let t = next_table dma nested c p desc in
        let attrs = all_attrs dma nested c r.tableattrs desc in
        let r' = mapped dma nested c p level t desc r in
        if_both (λ x. Correct (done x)) (check_out_addr t p.outputsize)
          (λ o.
            Verdict-Correct level desc
              (touched dma nested c level attrs (bit 51 desc) r'
                (touch dma nested c r.leaf_desc_addr attrs desc m))
              l b o
              (touched-Verdict level attrs (bit 51 desc) r'
                (touch dma nested c r.leaf_desc_addr attrs desc m) e refl))
          λ _. refl

    pub ended-Correct :
        (x : Outcome (Ending × M)) → Sound dma nested c p x → Correct (ended dma nested c p x)
    unfolding Sound Correct
    ended-Correct (done (faulted r, m)) h = h
    ended-Correct (done (leaf level t desc r, m)) (e, l, b, same) =
        subst (λ z. Correct (done (conclude dma nested c p level z desc r m))) (sym same)
          (conclude-Correct level desc r m e l b)
    ended-Correct fatal h = h
    ended-Correct no_fuel h = h
