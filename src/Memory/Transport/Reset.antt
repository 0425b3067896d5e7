-- ===== src/Memory/Transport/Reset.antt =====
-- The reset of the tree: `doreset` of systemc-components/gs_memory/include/gs_memory.h.
pub mod Ready
pub mod Reload
use qbox.Base.{
  ℕ, ◌-◌, ◌*◌, ◌/◌, ◌%◌, ◌^◌, ◌≤◌, ◌<◌, ◌≡◌, refl, sym, ap, ◌∙◌, inl, inr, true, false, Option,
  none, some, arith, ltb, if◌then◌else◌, Bool-cases,
}
use qbox.Base.Outcomes.{Outcome, done, fatal, no_fuel}
use qbox.Memory.{
  Area, Config, Info, block, Subs, four, memset, pick, child, leaf, node, obtain, settle_with,
  settle, sub_index,
}
use qbox.Memory.Tree.{Found, found_sub, found_at, locate, Splits, sub_index-Splits}
use qbox.Memory.Tree.Visit.{at_node, own_window, before_window}
use qbox.Memory.Storage.{doreset, reset_area, reset_subs}
use qbox.Memory.Storage.Turn.{byte_of, byte_at}

upper_same : (c : Config) (k : ℕ) (s : Subs) → 2 ≤ k → pick k (reset_subs c s) ≡ pick k s
unfolding reset_subs
upper_same c k (four w x y z) h = ground arith

upper_index : (x s : ℕ) → 0 < s → 2 * s ≤ x → 2 ≤ x / s
upper_index x s h k = elim (Bool-cases (ltb (x / s) 2)) [
  | inl below ↦ absurd (
      omega (
        arith,
        before_window s 2 (x / s) (ground (arith, below)),
        own_window x s (x / s) refl h,
        k,
      ))
  | inr above ↦ ground (arith, above)
]

module _ (c : Config) where
  -- A block that is split stays split, at its place.
  pub split :
      (i : Info) (o : Option Area)
      → i.use_sub_blocks ≡ true
      → settle_with c i o ≡ node (record i { use_sub_blocks = true })
  split i none u = rw u refl
  split i (some r) u = rw u refl

  pub child_same :
      (i j : Info) (k : ℕ) (s t : Subs)
      → j.address ≡ i.address
      → j.len ≡ i.len
      → pick k t ≡ pick k s
      → child j k t ≡ child i k s
  child_same i j k s t e f g = cc

  found_sub-Splits :
      (j : Info) (x v : ℕ) (rest : ℕ → Found) (o : Outcome ℕ)
      → sub_index c j x ≡ o
      → byte_of x (found_sub rest o) ≡ some v
      → Splits c j
  found_sub-Splits j x v rest (done k) e h = (sub_index-Splits c j x k e).0
  found_sub-Splits j x v rest fatal e h = cc
  found_sub-Splits j x v rest no_fuel e h = cc

  -- The upper half of a memory that is split is not reset.
  pub reset_upper :
      (i : Info) (s : Subs) (x v : ℕ)
      → i.address ≡ 0
      → i.use_sub_blocks ≡ true
      → byte_at c x (block i s) ≡ some v
      → 2 * (i.len / 4) ≤ x
      → x < i.len
      → byte_at c x (doreset c (block i s)) ≡ byte_at c x (block i s)
  unfolding byte_at doreset locate settle
  reset_upper i s x v z u e l h =
      let j = record i { use_sub_blocks = true } in
      let i' = record i { area = reset_area c i.len i.area } in
      let j' = record i' { use_sub_blocks = true } in
      let here = split i i.area u in
      let q =
        found_sub-Splits j x v (λ k. locate c 32 x (child j k s)) (sub_index c j x) refl
          (sym (ap (λ t. byte_of x (found_at c (λ j k. locate c 32 x (child j k s)) x t)) here)
            ∙ e) in
      let k = (x - i.address) / (i.len / 4) in
      let two = upper_index (x - i.address) (i.len / 4) q.2 (omega (arith, z, l)) in
      ap (byte_of x) (
        at_node c 32 x i' j' (reset_subs c s) (split i' i'.area u) q (omega (arith, z))
          (omega (arith, z, h))
        ∙ ap (locate c 32 x) (child_same j j' k s (reset_subs c s) refl refl (upper_same c k s two))
        ∙ sym (at_node c 32 x i j s here q (omega (arith, z)) (omega (arith, z, h))))

  pub reset_whole :
      (i : Info) (s : Subs) (r : Area) (x : ℕ)
      → i.area ≡ some r
      → i.use_sub_blocks ≡ false
      → c.init_mem ≡ true
      → i.address ≡ 0
      → x < i.len
      → byte_at c x (doreset c (block i s)) ≡ some (c.init_mem_val % 2 ^ 8)
  unfolding byte_at doreset locate settle
  reset_whole i s r x e u g z h =
      let r' = record r { bytes = memset r.bytes c.init_mem_val i.len } in
      let i' = record i { area = reset_area c i.len i.area } in
      let filled : reset_area c i.len i.area ≡ some r' =
        ap (reset_area c i.len) e ∙ ap (λ t. some (if t then r' else r)) g in
      let settled : settle c i' ≡ leaf i' r' =
        ap (settle_with c i') filled ∙ ap (λ t. if t then obtain c i' else leaf i' r') u in
      let within : ltb (x - i.address) i.len ≡ true = ground (arith, h) in
      ap (λ t. byte_of x (found_at c (λ j k. locate c 32 x (child j k (reset_subs c s))) x t))
        settled
      ∙ ap (λ t. some (if t then c.init_mem_val % 2 ^ 8 else r.bytes (x - i.address))) within
