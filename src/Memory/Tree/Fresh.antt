-- ===== src/Memory/Tree/Fresh.antt =====
-- A tree that nothing has used yet: where the host gives the memory that is asked for, every
-- address has its block.
use qbox.Base.{
  ℕ, zero, suc, ◌+◌, ◌-◌, ◌*◌, ◌/◌, ◌%◌, ◌≤◌, ◌<◌, ◌≡◌, refl, ap, ◌∙◌, ◌⊎◌, inl, inr, true, false,
  Option, none, some, arith, ltb, if◌then◌else◌, Bool-cases,
}
use qbox.Base.Outcomes.{done}
use qbox.Memory.{
  Area, Config, Info, Block, block, empty, new_info, no_subs, pick, made, child, allocated,
  or_shared, or_mapped, settle,
}
use qbox.Memory.Tree.{Found, found_sub, found_at, locate, sub_index_inside}
use qbox.Memory.Tree.Visit.{own_window}

-- The host gives every block that the configuration allows.
abbrev pub Gives : Config → Type 0
Gives c = (a l : ℕ) → l ≤ c.max_block_size → (r : Area) × (c.alloc a l ≡ some r)

-- A length that `n` divisions at most make small enough.
abbrev pub Fits : Config → ℕ → ℕ → Type 0
Fits c zero len = len ≤ c.max_block_size
Fits c (suc n) len =
    (len ≤ c.max_block_size)
    ⊎ ((c.min_block_size ≤ len) × (len % 4 ≡ 0) × (0 < len / 4) × Fits c n (len / 4))

abbrev fresh : ℕ → ℕ → Block
fresh address len = block (new_info address len) no_subs

-- The block is found.
abbrev IsFound : Found → Type 0
IsFound t = (o : ℕ × ℕ × Area) × (t ≡ done o)

module _ (c : Config) (rest : Info → ℕ → Found) (x : ℕ) where
  allocated-IsFound :
      (i : Info) (o : Option Area)
      → (r : Area) × (o ≡ some r)
      → IsFound (found_at c rest x (allocated c i o))
  allocated-IsFound i none g = cc
  allocated-IsFound i (some r) g = (_, refl)

  or_shared-IsFound :
      (i : Info) (o : Option Area)
      → (r : Area) × (c.alloc i.address i.len ≡ some r)
      → IsFound (found_at c rest x (or_shared c i o))
  or_shared-IsFound i none g = allocated-IsFound i (c.alloc i.address i.len) g
  or_shared-IsFound i (some r) g = (_, refl)

  or_mapped-IsFound :
      (i : Info) (o : Option Area)
      → (r : Area) × (c.alloc i.address i.len ≡ some r)
      → IsFound (found_at c rest x (or_mapped c i o))
  or_mapped-IsFound i none g =
      or_shared-IsFound i (if c.shmem then c.map_mem_create i.address i.len else none) g
  or_mapped-IsFound i (some r) g = (_, refl)

child-fresh :
    (i : Info) (k : ℕ) → child i k no_subs ≡ fresh (k * (i.len / 4) + i.address) (i.len / 4)
child-fresh i k = ap (made (k * (i.len / 4) + i.address) (i.len / 4)) none_there
  where
    none_there : pick k no_subs ≡ empty
    none_there = ground arith

module _ (c : Config) (gives : Gives c) where
  small-IsFound :
      (n x base len : ℕ) → len ≤ c.max_block_size → IsFound (locate c (suc n) x (fresh base len))
  unfolding locate settle
  small-IsFound n x base len h =
      let fits : ltb c.max_block_size len ≡ false = ground (arith, h) in
      rw fits (
        or_mapped-IsFound c (λ j k. locate c n x (child j k no_subs)) x (new_info base len)
          (if c.has_map_file then c.map_file base len else none) (gives base len h))

  pub fresh-IsFound :
      (n x base len : ℕ)
      → Fits c n len
      → base ≤ x
      → x < base + len
      → IsFound (locate c (suc n) x (fresh base len))
  unfolding locate settle
  fresh-IsFound zero x base len f l u = small-IsFound zero x base len f
  fresh-IsFound (suc n) x base len (inl f) l u = small-IsFound (suc n) x base len f
  fresh-IsFound (suc n) x base len (inr f) l u =
      let j = record (new_info base len) { use_sub_blocks = true } in
      let k = (x - base) / (len / 4) in
      let d = own_window (x - base) (len / 4) k refl f.2 in
      let rest =
        fresh-IsFound n x (k * (len / 4) + base) (len / 4) f.3 (omega (arith, d.0, l))
          (omega (arith, d.1, l)) in
      elim (Bool-cases (ltb c.max_block_size len)) [
        | inl large ↦ rw large (
          rest.0,
          ap (found_sub (λ k. locate c (suc n) x (child j k no_subs)))
                (sub_index_inside c j x (f.0, f.1, f.2) l u)
              ∙ ap (locate c (suc n) x) (child-fresh j k)
              ∙ rest.1,
        )
        | inr small ↦ small-IsFound (suc n) x base len (ground (arith, small))
      ]
