-- ===== src/Memory/Tree/Ends.antt =====
-- The access to the tree of sub-blocks ends: the depth is at most half the bits of the length.
use native.Mathlib.Omega.{pow_step}
use qbox.Base.{ℕ, zero, suc, ◌+◌, ◌*◌, ◌/◌, ◌^◌, ◌<◌, ◌≡◌, refl, sym, ◌∙◌, Bool, true, false, arith}
use qbox.Base.Outcomes.{Outcome, done, fatal, no_fuel}
use qbox.Memory.{
  Area, Config, Info, Block, block, Subs, child, pick, leaf, node, Settled, settle, sub_index,
  Visitor, keep, attach, enter_sub, enter, access,
}
use qbox.Memory.Tree.{
  IsPlaced, ArePlaced, Settles, settle-Settles, sub_index-Splits, pick-IsPlaced, made-IsPlaced,
}
use qbox.Memory.Tree.Visit.{both}

abbrev pub ends : {A : Type 0} → Outcome A → Bool
ends (done x) = true
ends fatal = true
ends no_fuel = false

module _ {A : Type 0} (c : Config) (a : ℕ) (f : Visitor A)
    (visits : (ad ln : ℕ) (r : Area) → ends (f ad ln r) ≡ true) where
  ends-keep :
      (i : Info) (s : Subs) (o : Outcome (A × Area)) → ends o ≡ true → ends (keep i s o) ≡ true
  ends-keep i s (done x) e = refl
  ends-keep i s fatal e = refl
  ends-keep i s no_fuel e = e

  ends-attach :
      (i : Info) (s : Subs) (k : ℕ) (o : Outcome (A × Block))
      → ends o ≡ true
      → ends (attach i s k o) ≡ true
  ends-attach i s k (done x) e = refl
  ends-attach i s k fatal e = refl
  ends-attach i s k no_fuel e = e

  ends-sub_index : (i : Info) → ends (sub_index c i a) ≡ true
  unfolding sub_index
  ends-sub_index i = ground arith

  ends-enter_sub :
      (i : Info) (s : Subs) (rest : Block → Outcome (A × Block)) (o : Outcome ℕ)
      → ends o ≡ true
      → ((k : ℕ) → o ≡ done k → ends (rest (child i k s)) ≡ true)
      → ends (enter_sub rest i s o) ≡ true
  ends-enter_sub i s rest (done k) e h = ends-attach i s k (rest (child i k s)) (h k refl)
  ends-enter_sub i s rest fatal e h = refl
  ends-enter_sub i s rest no_fuel e h = e

  ends-enter :
      (i : Info) (s : Subs) (rest : Block → Outcome (A × Block)) (t : Settled)
      → Settles c i t
      → ((j : Info) (k : ℕ)
          → j.address ≡ i.address
          → j.len ≡ i.len
          → sub_index c j a ≡ done k
          → ends (rest (child j k s)) ≡ true)
      → ends (enter c rest f a s t) ≡ true
  ends-enter i s rest (leaf j r) w h =
      ends-keep j s (f j.address j.len r) (visits j.address j.len r)
  ends-enter i s rest (node j) w h =
      ends-enter_sub j s rest (sub_index c j a) (ends-sub_index j) (λ k e. h j k w.0 w.1 e)

  -- In a tree whose blocks are in place and whose length is below 4 to the `n`, the access to any
  -- address needs no more than `n + 1` levels, whatever the host answers.
  pub ends-access :
      (n base len : ℕ) (b : Block)
      → IsPlaced base len b
      → len < 4 ^ n
      → ends (access c (suc n) a f b) ≡ true
  unfolding access
  ends-access zero base len (block i s) p l =
      ends-enter i s (access c zero a f) (settle c i) (settle-Settles c i)
        (λ j k e g h. absurd (omega (arith, sub_index-Splits c j a k h, g, p.1, l)))
  ends-access (suc n) base len (block i s) p l =
      ends-enter i s (access c (suc n) a f) (settle c i) (settle-Settles c i) (λ j k e g h.
        let q = sub_index-Splits c j a k h in
        let placed = both (λ x y. ArePlaced x (y / 4) s) (sym (e ∙ p.0)) (sym (g ∙ p.1)) p.2 in
        ends-access n (k * (j.len / 4) + j.address) (j.len / 4) (child j k s)
          (made-IsPlaced (k * (j.len / 4) + j.address) (j.len / 4) (pick k s)
            (pick-IsPlaced k j.address (j.len / 4) s q.1 placed))
          (omega (arith, pow_step 4 n, g, p.1, l)))
