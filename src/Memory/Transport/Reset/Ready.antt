-- ===== src/Memory/Transport/Reset/Ready.antt =====
-- The tree after `doreset`: the blocks keep their places, and each address keeps its memory.
use mathlib.Core.Path.{subst}
use qbox.Base.{
  ℕ, zero, suc, ◌+◌, ◌*◌, ◌/◌, ◌≡◌, refl, sym, ap, ◌∙◌, ◌⊎◌, inl, inr, true, Option, none, some,
  ◌==◌, if◌then◌else◌, Bool-cases,
}
use qbox.Base.Outcomes.{Outcome, done, fatal, no_fuel}
use qbox.Memory.{
  Area, Config, Info, Block, block, Slot, empty, full, Subs, four, memset, pick, made, child,
  Settled, leaf, node, obtain, settle_with, settle, sub_index,
}
use qbox.Memory.Tree.{Found, found_sub, found_at, locate, IsPlaced, IsPlacedSlot, ArePlaced}
use qbox.Memory.Storage.{Memory, depth, doreset, reset_slot, reset_subs, reset_area}
use qbox.Memory.Storage.Turn.{byte_of, byte_at}
use qbox.Memory.Storage.Contents.{IsReady, with_tree}
use qbox.Memory.Transport.Reset.{split, child_same}

mutual
  unfolding doreset reset_slot reset_subs

  doreset-IsPlaced :
      (c : Config) (a l : ℕ) (b : Block) → IsPlaced a l b → IsPlaced a l (doreset c b)
  doreset-IsPlaced c a l (block i s) p = (p.0, p.1, reset_subs-ArePlaced c _ _ s p.2)

  reset_slot-IsPlacedSlot :
      (c : Config) (a l : ℕ) (x : Slot) → IsPlacedSlot a l x → IsPlacedSlot a l (reset_slot c x)
  reset_slot-IsPlacedSlot c a l empty p = p
  reset_slot-IsPlacedSlot c a l (full b) p = doreset-IsPlaced c a l b p

  reset_subs-ArePlaced :
      (c : Config) (a l : ℕ) (s : Subs) → ArePlaced a l s → ArePlaced a l (reset_subs c s)
  reset_subs-ArePlaced c a l (four w x y z) p =
      (reset_slot-IsPlacedSlot c _ l w p.0, reset_slot-IsPlacedSlot c _ l x p.1, p.2, p.3)

-- A settled block after the reset: of the same kind, at its place.
abbrev ResetOf : Settled → Settled → Type 0
ResetOf (leaf j r) u =
    (k : Info) × (r' : Area) × (u ≡ leaf k r') × (k.address ≡ j.address) × (k.len ≡ j.len)
ResetOf (node j) u = (k : Info) × (u ≡ node k) × (k.address ≡ j.address) × (k.len ≡ j.len)

unchanged : (t : Settled) → ResetOf t t
unchanged (leaf j r) = (j, r, refl, refl, refl)
unchanged (node j) = (j, refl, refl, refl)

found_done :
    (x v : ℕ) (t : Found)
    → byte_of x t ≡ some v
    → (ad : ℕ) × (ln : ℕ) × (r : Area) × (t ≡ done (ad, ln, r))
found_done x v (done (ad, ln, r)) e = (ad, ln, r, refl)
found_done x v fatal e = absurd (cc)
found_done x v no_fuel e = absurd (cc)

sub_index_same :
    (c : Config) (j k : Info) (x : ℕ)
    → k.address ≡ j.address
    → k.len ≡ j.len
    → sub_index c k x ≡ sub_index c j x
unfolding sub_index
sub_index_same c j k x e f = cc

abbrev here : ℕ → ℕ → Area → Found
here a l r = done (a, l, r)

module _ (c : Config) where
  settle_reset :
      (i : Info) (o : Option Area)
      → i.area ≡ o
      → ResetOf (settle c i) (settle c (record i { area = reset_area c i.len i.area }))
  unfolding settle
  settle_reset i none e =
      let same : record i { area = reset_area c i.len i.area } ≡ i =
        ap (λ z. record i { area = z }) (ap (reset_area c i.len) e ∙ sym e) in
      subst (λ z. ResetOf (settle c i) (settle c z)) (sym same) (unchanged (settle c i))
  settle_reset i (some r) e = elim (Bool-cases i.use_sub_blocks) [
    | inl u ↦
        let i' = record i { area = reset_area c i.len i.area } in
        subst (λ z. ResetOf z (settle c i')) (sym (split c i i.area u))
          (record i' { use_sub_blocks = true }, split c i' i'.area u, refl, refl)
    | inr u ↦
        let r' =
          if c.init_mem then record r { bytes = memset r.bytes c.init_mem_val i.len } else r in
        let i' = record i { area = reset_area c i.len i.area } in
        subst (λ z. ResetOf z (settle c i'))
          (sym (ap (settle_with c i) e ∙ ap (λ z. if z then obtain c i else leaf i r) u))
          (
            i',
            r',
            ap (settle_with c i') (ap (reset_area c i.len) e)
                ∙ ap (λ z. if z then obtain c i' else leaf i' r') u,
            refl,
            refl,
          )
  ]

  pick_reset :
      (k : ℕ) (s : Subs)
      → (pick k (reset_subs c s) ≡ pick k s) ⊎ (pick k (reset_subs c s) ≡ reset_slot c (pick k s))
  unfolding reset_subs
  pick_reset k (four w x y z) = elim (Bool-cases (k == 0)) [
    | inl first ↦ inr (rw first refl)
    | inr other ↦ elim (Bool-cases (k == 1)) [
      | inl second ↦ inr (rw (other, second) refl)
      | inr behind ↦ inl (rw (other, behind) refl)
    ]
  ]

  made_reset :
      (a l : ℕ) (x : Slot)
      → (made a l (reset_slot c x) ≡ made a l x)
        ⊎ (made a l (reset_slot c x) ≡ doreset c (made a l x))
  unfolding reset_slot
  made_reset a l empty = inl refl
  made_reset a l (full b) = inr refl

  child_reset :
      (i j : Info) (k : ℕ) (s : Subs)
      → j.address ≡ i.address
      → j.len ≡ i.len
      → (child j k (reset_subs c s) ≡ child i k s)
        ⊎ (child j k (reset_subs c s) ≡ doreset c (child i k s))
  child_reset i j k s e f =
      let a = k * (i.len / 4) + i.address in
      let l = i.len / 4 in
      let at = child_same c i j k (reset_subs c s) (reset_subs c s) e f refl in
      elim (pick_reset k s) [
        | inl same ↦ inl (at ∙ ap (made a l) same)
        | inr turned ↦ elim (made_reset a l (pick k s)) [
          | inl same ↦ inl (at ∙ ap (made a l) turned ∙ same)
          | inr changed ↦ inr (at ∙ ap (made a l) turned ∙ changed)
        ]
      ]

  module _ (ad ln : ℕ) where
    -- An address whose memory is found in a block at `ad`.
    abbrev FoundHere : Found → Type 0
    FoundHere t = (r : Area) × (t ≡ done (ad, ln, r))

    found_sub_reset :
        (rest rest' : ℕ → Found) (o : Outcome ℕ)
        → ((k : ℕ) → FoundHere (rest k) → FoundHere (rest' k))
        → FoundHere (found_sub rest o)
        → FoundHere (found_sub rest' o)
    found_sub_reset rest rest' (done k) f h = f k h
    found_sub_reset rest rest' fatal f h = h
    found_sub_reset rest rest' no_fuel f h = h

    found_at_reset :
        (rest rest' : Info → ℕ → Found) (x : ℕ) (t u : Settled)
        → ((i j : Info) (k : ℕ)
            → j.address ≡ i.address
            → j.len ≡ i.len
            → FoundHere (rest i k)
            → FoundHere (rest' j k))
        → ResetOf t u
        → FoundHere (found_at c rest x t)
        → FoundHere (found_at c rest' x u)
    found_at_reset rest rest' x (leaf j r) u f (k, r', e, a, l) (q, h) =
        (r', ap (found_at c rest' x) e ∙ moved j k r r' q a l h)
      where
        moved :
            (j k : Info) (r r' q : Area)
            → k.address ≡ j.address
            → k.len ≡ j.len
            → here j.address j.len r ≡ here ad ln q
            → here k.address k.len r' ≡ here ad ln r'
        moved j k r r' q a l h = cc
    found_at_reset rest rest' x (node j) u f (k, e, a, l) h =
        let found = found_sub_reset (rest j) (rest' k) (sub_index c j x) (λ n g. f j k n a l g) h in
        (
          found.0,
          ap (found_at c rest' x) e
              ∙ ap (found_sub (rest' k)) (sub_index_same c j k x a l)
              ∙ found.1,
        )

    locate_reset :
        (n x : ℕ) (b b' : Block)
        → (b' ≡ b) ⊎ (b' ≡ doreset c b)
        → FoundHere (locate c n x b)
        → FoundHere (locate c n x b')
    unfolding locate doreset
    locate_reset n x b b' (inl e) h = subst (λ z. FoundHere (locate c n x z)) (sym e) h
    locate_reset zero x b b' (inr e) h = h
    locate_reset (suc n) x (block i s) b' (inr e) h =
        subst (λ z. FoundHere (locate c (suc n) x z)) (sym e)
          (found_at_reset (λ j k. locate c n x (child j k s))
            (λ j k. locate c n x (child j k (reset_subs c s))) x (settle c i)
            (settle c (record i { area = reset_area c i.len i.area }))
            (λ i' j' k f g.
              locate_reset n x (child i' k s) (child j' k (reset_subs c s))
                (child_reset i' j' k s f g))
            (settle_reset i i.area refl) h)

  byte_reset :
      (x v : ℕ) (b : Block)
      → byte_at c x b ≡ some v
      → (v' : ℕ) × (byte_at c x (doreset c b) ≡ some v')
  unfolding byte_at
  byte_reset x v b e =
      let (ad, ln, r, h) = found_done x v (locate c depth x b) e in
      let (r', h') = locate_reset ad ln depth x b (doreset c b) (inr refl) (r, h) in
      (_, ap (byte_of x) h')

-- A memory with memory for every address still has it after `doreset`.
pub doreset-IsReady :
    (c : Config) (m : Memory) (b : Block)
    → IsReady c m b
    → IsReady c (with_tree m (doreset c b)) (doreset c b)
doreset-IsReady c m b h = record {
  tree = refl;
  usable = record {
    placed = doreset-IsPlaced c 0 m.m_size b h.usable.placed;
    backed = λ x l. let (v, e) = h.usable.backed x l in byte_reset c x v b e;
  };
  bounded = h.bounded;
}
