-- ===== src/Memory/Tree.antt =====
-- The tree of sub-blocks as a map from addresses to the blocks that hold them, and what a visit of
-- one block changes in it.
pub mod Visit
pub mod Ends
pub mod Fresh
use mathlib.Core.Path.{subst}
use qbox.Base.{
  ℕ, zero, suc, ◌+◌, ◌-◌, ◌*◌, ◌/◌, ◌%◌, ◌^◌, ◌≤◌, ◌<◌, ◌≡◌, ◌≢◌, refl, sym, ap, ◌∙◌, ◌⊎◌, inl, inr,
  Bool, true, false, not, ◌&&◌, ◌||◌, Option, none, some, arith, ltb, leb, ◌==◌, if◌then◌else◌,
  Bool-cases, Option-cases,
}
use qbox.Base.Outcomes.{Outcome, done, fatal, no_fuel}
use qbox.Memory.{
  Bytes, Area, Config, Info, Block, block, Slot, empty, full, Subs, four, new_info, no_subs, pick,
  put, made, child, Settled, leaf, node, allocated, or_shared, or_mapped, obtain, settle_with,
  settle, sub_index, Visitor, keep, attach, enter_sub, enter, access,
}

-- The address and the length of a block with its memory.
abbrev pub Found : Type 0
Found = Outcome (ℕ × ℕ × Area)

abbrev pub found_sub : (ℕ → Found) → Outcome ℕ → Found
found_sub rest (done k) = rest k
found_sub rest fatal = fatal
found_sub rest no_fuel = no_fuel

abbrev pub found_at : Config → (Info → ℕ → Found) → ℕ → Settled → Found
found_at c rest address (leaf i r) = done (i.address, i.len, r)
found_at c rest address (node i) = found_sub (rest i) (sub_index c i address)

-- The block that holds an address, or will once the address is used.
unfoldable pub locate : Config → ℕ → ℕ → Block → Found
locate c zero address b = no_fuel
locate c (suc n) address (block i s) =
    found_at c (λ j k. locate c n address (child j k s)) address (settle c i)

-- Blocks lie where their place in the tree says.
abbrev mutual
  pub IsPlaced : ℕ → ℕ → Block → Type 0
  IsPlaced a l (block i s) = (i.address ≡ a) × (i.len ≡ l) × ArePlaced a (l / 4) s

  pub IsPlacedSlot : ℕ → ℕ → Slot → Type 0
  IsPlacedSlot a l empty = Unit {0}
  IsPlacedSlot a l (full b) = IsPlaced a l b

  pub ArePlaced : ℕ → ℕ → Subs → Type 0
  ArePlaced a l (four w x y z) =
      IsPlacedSlot (0 * l + a) l w
      × IsPlacedSlot (1 * l + a) l x
      × IsPlacedSlot (2 * l + a) l y
      × IsPlacedSlot (3 * l + a) l z

-- A settled block keeps its place, and settles in the same way again.
abbrev Settles : Config → Info → Settled → Type 0
Settles c i (leaf j r) = (j.address ≡ i.address) × (j.len ≡ i.len) × (j.use_sub_blocks ≡ false)
Settles c i (node j) = (j.address ≡ i.address) × (j.len ≡ i.len) × (settle c j ≡ node j)

again :
    (c : Config) (i : Info) (o : Option Area)
    → settle_with c (record i { use_sub_blocks = true }) o
      ≡ node (record i { use_sub_blocks = true })
again c i none = refl
again c i (some r) = refl

node-Settles : (c : Config) (i : Info) → Settles c i (node (record i { use_sub_blocks = true }))
unfolding settle
node-Settles c i = (refl, refl, again c i i.area)

allocated-Settles :
    (c : Config) (i : Info) (o : Option Area)
    → i.use_sub_blocks ≡ false
    → Settles c i (allocated c i o)
allocated-Settles c i none u = node-Settles c i
allocated-Settles c i (some r) u = (refl, refl, u)

or_shared-Settles :
    (c : Config) (i : Info) (o : Option Area)
    → i.use_sub_blocks ≡ false
    → Settles c i (or_shared c i o)
or_shared-Settles c i none u = allocated-Settles c i (c.alloc i.address i.len) u
or_shared-Settles c i (some r) u = (refl, refl, u)

or_mapped-Settles :
    (c : Config) (i : Info) (o : Option Area)
    → i.use_sub_blocks ≡ false
    → Settles c i (or_mapped c i o)
or_mapped-Settles c i none u =
    or_shared-Settles c i (if c.shmem then c.map_mem_create i.address i.len else none) u
or_mapped-Settles c i (some r) u = (refl, refl, u)

obtain-Settles : (c : Config) (i : Info) → Settles c i (obtain c i)
obtain-Settles c i = elim (Bool-cases (i.use_sub_blocks || ltb c.max_block_size i.len)) [
  | inl large ↦ rw large (node-Settles c i)
  | inr small ↦ rw small (
      or_mapped-Settles c i (if c.has_map_file then c.map_file i.address i.len else none)
        (ground (arith, small)))
]

settle_with-Settles : (c : Config) (i : Info) (o : Option Area) → Settles c i (settle_with c i o)
settle_with-Settles c i none = obtain-Settles c i
settle_with-Settles c i (some r) = elim (Bool-cases i.use_sub_blocks) [
  | inl yes_sub ↦ rw yes_sub (node-Settles c i)
  | inr no_sub ↦ rw no_sub (refl, refl, refl)
]

settle-Settles : (c : Config) (i : Info) → Settles c i (settle c i)
unfolding settle
settle-Settles c i = settle_with-Settles c i i.area

-- A block that can be split has sub-blocks of equal length.
abbrev pub Splits : Config → Info → Type 0
Splits c i = (c.min_block_size ≤ i.len) × (i.len % 4 ≡ 0) × (0 < i.len / 4)

pub div_bounds : (y s : ℕ) → 0 < s → y < 4 * s → (y / s * s ≤ y) × (y < y / s * s + s) × (y / s < 4)
div_bounds y s h k = (grind arith, grind arith, grind arith)

pub sub_index-Splits :
    (c : Config) (i : Info) (a k : ℕ) → sub_index c i a ≡ done k → Splits c i × (k < 4)
unfolding sub_index
sub_index-Splits c i a k h = ground (arith, h)

sub_index_inside :
    (c : Config) (i : Info) (a : ℕ)
    → Splits c i
    → i.address ≤ a
    → a < i.address + i.len
    → sub_index c i a ≡ done ((a - i.address) / (i.len / 4))
unfolding sub_index
sub_index_inside c i a s l u =
    let d = div_bounds (a - i.address) (i.len / 4) s.2 (omega arith) in
    ground (arith, d.2, s.0, s.1, s.2)

pick-put :
    (j k : ℕ) (b : Block) (s : Subs)
    → j < 4
    → k < 4
    → pick j (put k b s) ≡ (if j == k then full b else pick j s)
pick-put j k b (four w x y z) h l = ground arith

below_four : (P : ℕ → Type 0) → P 0 → P 1 → P 2 → P 3 → (k : ℕ) → k < 4 → P k
below_four P a b c d zero h = a
below_four P a b c d (suc zero) h = b
below_four P a b c d (suc (suc zero)) h = c
below_four P a b c d (suc (suc (suc zero))) h = d
below_four P a b c d (suc (suc (suc (suc k)))) h = absurd (omega arith)

pick-IsPlaced :
    (k a l : ℕ) (s : Subs) → k < 4 → ArePlaced a l s → IsPlacedSlot (k * l + a) l (pick k s)
pick-IsPlaced k a l (four w x y z) h p =
    below_four (λ m. IsPlacedSlot (m * l + a) l (pick m (four w x y z))) p.0 p.1 p.2 p.3 k h

put-ArePlaced :
    (k a l : ℕ) (b : Block) (s : Subs)
    → k < 4
    → IsPlaced (k * l + a) l b
    → ArePlaced a l s
    → ArePlaced a l (put k b s)
put-ArePlaced k a l b (four w x y z) h p q =
    below_four (λ m. IsPlaced (m * l + a) l b → ArePlaced a l (put m b (four w x y z)))
      (λ e. (e, q.1, q.2, q.3)) (λ e. (q.0, e, q.2, q.3)) (λ e. (q.0, q.1, e, q.3))
      (λ e. (q.0, q.1, q.2, e)) k h p

made-IsPlaced : (a l : ℕ) (x : Slot) → IsPlacedSlot a l x → IsPlaced a l (made a l x)
made-IsPlaced a l empty p = (refl, refl, (tt, tt, tt, tt))
made-IsPlaced a l (full b) p = p

-- What a visit of the block [ad, ad + ln), whose memory becomes `r`, changes in a tree.
pub record Changes (c : Config) (n base len ad ln : ℕ) (r : Area) (b b' : Block) : Type 0 where
  pub placed : IsPlaced base len b'
  pub same :
      (x : ℕ)
      → base ≤ x
      → x < base + len
      → locate c n x b' ≡ (if leb ad x && ltb x (ad + ln) then done (ad, ln, r) else locate c n x b)

-- The block that is found holds the address, and lies within the tree.
abbrev pub IsWithin : ℕ → ℕ → ℕ → ℕ → ℕ → Type 0
IsWithin base len a ad ln = (base ≤ ad) × (ad ≤ a) × (a < ad + ln) × (ad + ln ≤ base + len)

module _ {A : Type 0} (c : Config) (a : ℕ) (f : Visitor A) where
  -- What the access does, from the block that is found.
  abbrev pub Visited : ℕ → ℕ → ℕ → Block → Found → Type 0
  Visited n base len b (done (ad, ln, r)) =
      IsWithin base len a ad ln
      × ((x : ℕ) → ad ≤ x → x < ad + ln → locate c n x b ≡ done (ad, ln, r))
      × ((v : A) (r' : Area)
          → f ad ln r ≡ done (v, r')
          → (b' : Block) × (access c n a f b ≡ done (v, b')) × Changes c n base len ad ln r' b b')
  Visited n base len b fatal = access c n a f b ≡ fatal
  Visited n base len b no_fuel = access c n a f b ≡ no_fuel

  leaf-Visited :
      (n base len : ℕ) (i j : Info) (s : Subs) (m : Area)
      → IsPlaced base len (block i s)
      → base ≤ a
      → a < base + len
      → settle c i ≡ leaf j m
      → Settles c i (leaf j m)
      → Visited (suc n) base len (block i s) (done (j.address, j.len, m))
  unfolding access locate settle
  leaf-Visited n base len i j s m p l u e w = (
    (
      omega (arith, w.0, p.0),
      omega (arith, w.0, p.0),
      omega (arith, w.0, w.1, p.0, p.1),
      omega (arith, w.0, w.1, p.0, p.1),
    ),
    (λ x g h. ap (found_at c (λ j' k. locate c n x (child j' k s)) x) e),
    λ v r' run. (
      block (record j { area = some r' }) s,
      ap (enter c (access c n a f) f a s) e ∙ ap (keep j s) run,
      record { placed = (w.0 ∙ p.0, w.1 ∙ p.1, p.2); same = same r' },
    ),
  )
    where
      settled :
          (r' : Area)
          → settle c (record j { area = some r' }) ≡ leaf (record j { area = some r' }) r'
      settled r' =
          ap
            (λ u.
              if u
              then obtain c (record j { area = some r' })
              else leaf (record j { area = some r' }) r')
            w.2

      same :
          (r' : Area) (x : ℕ)
          → base ≤ x
          → x < base + len
          → locate c (suc n) x (block (record j { area = some r' }) s) ≡ (
              if leb j.address x && ltb x (j.address + j.len)
              then done (j.address, j.len, r')
              else locate c (suc n) x (block i s))
      same r' x g h =
          let inside : (leb j.address x && ltb x (j.address + j.len)) ≡ true =
            ground (arith, w.0, w.1, p.0, p.1, g, h) in
          ap (found_at c (λ j' k. locate c n x (child j' k s)) x) (settled r')
          ∙ sym (
              ap (λ u. if u then done (j.address, j.len, r') else locate c (suc n) x (block i s))
                inside)
