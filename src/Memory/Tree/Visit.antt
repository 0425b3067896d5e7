-- ===== src/Memory/Tree/Visit.antt =====
-- The access to the tree of sub-blocks against its map from addresses to blocks.
use mathlib.Core.Path.{subst}
use qbox.Base.{
  ℕ, zero, suc, ◌+◌, ◌-◌, ◌*◌, ◌/◌, ◌%◌, ◌≤◌, ◌<◌, ◌≡◌, ◌≢◌, refl, sym, ap, ◌∙◌, inl, inr, Bool,
  true, false, ◌&&◌, arith, ltb, leb, ◌==◌, if◌then◌else◌, Bool-cases,
}
use qbox.Base.Outcomes.{Outcome, done, fatal, no_fuel}
use qbox.Memory.{
  Area, Config, Info, Block, block, Slot, full, Subs, put, child, made, pick, leaf, node, Settled,
  settle, sub_index, Visitor, attach, enter_sub, enter, access,
}
use qbox.Memory.Tree.{
  Found, found_sub, found_at, locate, IsPlaced, ArePlaced, Settles, settle-Settles, Splits,
  div_bounds, sub_index-Splits, sub_index_inside, pick-put, pick-IsPlaced, put-ArePlaced,
  made-IsPlaced, Changes, IsWithin, Visited, leaf-Visited,
}

-- The sub-block of an address.
pub at_node :
    (c : Config) (n x : ℕ) (i j : Info) (s : Subs)
    → settle c i ≡ node j
    → Splits c j
    → j.address ≤ x
    → x < j.address + j.len
    → locate c (suc n) x (block i s) ≡ locate c n x (child j ((x - j.address) / (j.len / 4)) s)
unfolding locate
at_node c n x i j s e p l u =
    ap (found_at c (λ j' k. locate c n x (child j' k s)) x) e
    ∙ ap (found_sub (λ k. locate c n x (child j k s))) (sub_index_inside c j x p l u)

made-if :
    (a l : ℕ) (t : Bool) (b : Block) (x : Slot)
    → made a l (if t then full b else x) ≡ (if t then b else made a l x)
made-if a l true b x = refl
made-if a l false b x = refl

child-put :
    (j : Info) (k m : ℕ) (b : Block) (s : Subs)
    → k < 4
    → m < 4
    → child j m (put k b s) ≡ (if m == k then b else child j m s)
child-put j k m b s h g =
    ap (made (m * (j.len / 4) + j.address) (j.len / 4)) (pick-put m k b s g h)
    ∙ made-if (m * (j.len / 4) + j.address) (j.len / 4) (m == k) b (pick m s)

-- A sub-block holds what lies in its window only.
pub own_window : (y s k : ℕ) → y / s ≡ k → 0 < s → (k * s ≤ y) × (y < k * s + s)
own_window y s k e p = (grind arith, grind arith)

pub before_window : (s k m : ℕ) → m < k → m * s + s ≤ k * s
before_window s k m h = grind arith

other_window :
    (b x s k m ad ln : ℕ)
    → b ≤ x
    → (x - b) / s ≡ m
    → 0 < s
    → m ≢ k
    → k * s + b ≤ ad
    → ad + ln ≤ k * s + b + s
    → (leb ad x && ltb x (ad + ln)) ≡ false
other_window b x s k m ad ln h e p d l u = elim (Bool-cases (ltb m k)) [
  | inl below ↦
      ground
        (arith, before_window s k m (ground (arith, below)), own_window (x - b) s m e p, h, l, u)
  | inr above ↦
      ground
        (arith, before_window s m k (ground (arith, above, d)), own_window (x - b) s m e p, h, l, u)
]

quarters : (len : ℕ) → len % 4 ≡ 0 → len ≡ 4 * (len / 4)
quarters len h = omega arith

within :
    (b s k len a ad ln : ℕ)
    → k < 4
    → len ≡ 4 * s
    → IsWithin (k * s + b) s a ad ln
    → IsWithin b len a ad ln
within b s k len a ad ln h e w =
    let last = before_window s 4 k h in (omega (arith, w.0), w.1, w.2, omega (arith, w.3, last, e))

-- A sub-block that is visited changes its own addresses only.
same :
    (c : Config) (n k a : ℕ) (i j : Info) (s : Subs) (o : ℕ × ℕ × Area) (b : Block)
    → settle c i ≡ node j
    → settle c j ≡ node j
    → Splits c j
    → k < 4
    → IsWithin (k * (j.len / 4) + j.address) (j.len / 4) a o.0 o.1
    → Changes c n (k * (j.len / 4) + j.address) (j.len / 4) o.0 o.1 o.2 (child j k s) b
    → (x : ℕ) → j.address ≤ x
    → x < j.address + j.len
    → locate c (suc n) x (block j (put k b s))
      ≡ (if leb o.0 x && ltb x (o.0 + o.1) then done o else locate c (suc n) x (block i s))
same c n k a i j s o b e e' q h w t x l u =
    let m = (x - j.address) / (j.len / 4) in
    let d = div_bounds (x - j.address) (j.len / 4) q.2 (omega (arith, quarters j.len q.1)) in
    at_node c n x j j (put k b s) e' q l u
    ∙ ap (locate c n x) (child-put j k m b s h d.2)
    ∙ elim (Bool-cases (m == k)) [
      | inl own ↦
          let k' : m ≡ k = ground (arith, own) in
          let at_k = ap (λ z. z * (j.len / 4)) k' in
          ap (λ z. locate c n x (if z then b else child j m s)) own
          ∙ t.same x (omega (arith, d.0, at_k, l)) (omega (arith, d.1, at_k, l))
          ∙ ap (λ z. if leb o.0 x && ltb x (o.0 + o.1) then done o else z)
              (ap (λ z. locate c n x (child j z s)) (sym k') ∙ sym (at_node c n x i j s e q l u))
      | inr other ↦
          ap (λ z. locate c n x (if z then b else child j m s)) other
          ∙ sym (at_node c n x i j s e q l u)
          ∙ sym (
              ap (λ z. if z then done o else locate c (suc n) x (block i s))
                (other_window j.address x (j.len / 4) k m o.0 o.1 l refl q.2 (ground (arith, other))
                  w.0 w.3))
    ]

window_index :
    (x b s k ad ln : ℕ)
    → 0 < s
    → k * s + b ≤ ad
    → ad + ln ≤ k * s + b + s
    → ad ≤ x
    → x < ad + ln
    → (x - b) / s ≡ k
window_index x b s k ad ln p l u g h =
    let m = (x - b) / s in
    let d = own_window (x - b) s m refl p in
    elim (Bool-cases (ltb m k)) [
      | inl below ↦ absurd (omega (arith, before_window s k m (ground (arith, below)), d, l, g))
      | inr above ↦ elim (Bool-cases (ltb k m)) [
        | inl beyond ↦ absurd (omega (arith, before_window s m k (ground (arith, beyond)), d, u, h))
        | inr equal ↦ ground (arith, above, equal)
      ]
    ]

pub both : (P : ℕ → ℕ → Type 0) {x y z w : ℕ} → x ≡ y → z ≡ w → P x z → P y w
both P {x} {y} {z} {w} e f p = subst (λ k. P k w) e (subst (λ k. P x k) f p)

sub_index_window :
    (c : Config) (j : Info) (a k : ℕ)
    → sub_index c j a ≡ done k
    → j.address ≤ a
    → a < j.address + j.len
    → (k * (j.len / 4) + j.address ≤ a) × (a < k * (j.len / 4) + j.address + j.len / 4)
sub_index_window c j a k g l u =
    let q = sub_index-Splits c j a k g in
    let m : done ((a - j.address) / (j.len / 4)) ≡ done k =
      sym (sub_index_inside c j a q.0 l u) ∙ g in
    let d = own_window (a - j.address) (j.len / 4) k (ground (arith, m)) q.0.2 in
    (omega (arith, d.0, l), omega (arith, d.1, l))

module _ {A : Type 0} (c : Config) (a : ℕ) (f : Visitor A) where
  -- From the visit of a sub-block to the visit of the block.
  sub-Visited :
      (n k : ℕ) (i j : Info) (s : Subs) (o : Found)
      → settle c i ≡ node j
      → settle c j ≡ node j
      → sub_index c j a ≡ done k
      → ArePlaced j.address (j.len / 4) s
      → Visited c a f n (k * (j.len / 4) + j.address) (j.len / 4) (child j k s) o
      → Visited c a f (suc n) j.address j.len (block i s) o
  unfolding access
  sub-Visited n k i j s fatal e e' g p v =
      ap (enter c (access c n a f) f a s) e
      ∙ ap (enter_sub (access c n a f) j s) g
      ∙ ap (attach j s k) v
  sub-Visited n k i j s no_fuel e e' g p v =
      ap (enter c (access c n a f) f a s) e
      ∙ ap (enter_sub (access c n a f) j s) g
      ∙ ap (attach j s k) v
  sub-Visited n k i j s (done (ad, ln, m)) e e' g p v =
      let q = sub_index-Splits c j a k g in
      (
        within j.address (j.len / 4) k j.len a ad ln q.1 (quarters j.len q.0.1) v.0,
        (λ x g h.
            let w = within j.address (j.len / 4) k j.len a ad ln q.1 (quarters j.len q.0.1) v.0 in
            at_node c n x i j s e q.0 (omega (arith, w.0, g)) (omega (arith, w.3, h))
            ∙ ap (λ z. locate c n x (child j z s))
                (window_index x j.address (j.len / 4) k ad ln q.0.2 v.0.0 v.0.3 g h)
            ∙ v.1 x g h),
        λ w r' run.
            let t = v.2 w r' run in
            (
              block j (put k t.0 s),
              ap (enter c (access c n a f) f a s) e
                  ∙ ap (enter_sub (access c n a f) j s) g
                  ∙ ap (attach j s k) t.1,
              record {
                placed = (refl, refl, put-ArePlaced k j.address (j.len / 4) t.0 s q.1 t.2.placed p);
                same = same c n k a i j s (ad, ln, r') t.0 e e' q.0 q.1 v.0 t.2;
              },
            ),
      )

  node-Visited :
      (n : ℕ) (i j : Info) (s : Subs) (o : Outcome ℕ)
      → settle c i ≡ node j
      → settle c j ≡ node j
      → sub_index c j a ≡ o
      → ArePlaced j.address (j.len / 4) s
      → ((k : ℕ)
          → sub_index c j a ≡ done k
          → Visited c a f n
              (k * (j.len / 4) + j.address)
              (j.len / 4)
              (child j k s)
              (locate c n a (child j k s)))
      → Visited c a f
          (suc n)
          j.address
          j.len
          (block i s)
          (found_sub (λ k. locate c n a (child j k s)) o)
  unfolding access
  node-Visited n i j s fatal e e' g p v =
      ap (enter c (access c n a f) f a s) e ∙ ap (enter_sub (access c n a f) j s) g
  node-Visited n i j s no_fuel e e' g p v =
      ap (enter c (access c n a f) f a s) e ∙ ap (enter_sub (access c n a f) j s) g
  node-Visited n i j s (done k) e e' g p v =
      sub-Visited n k i j s (locate c n a (child j k s)) e e' g p (v k g)

  abbrev Visits : ℕ → Type 0
  Visits n =
      (base len : ℕ) (b : Block)
      → IsPlaced base len b
      → base ≤ a
      → a < base + len
      → Visited c a f n base len b (locate c n a b)

  settled-Visited :
      (n base len : ℕ) (i : Info) (s : Subs)
      → Visits n
      → IsPlaced base len (block i s)
      → base ≤ a
      → a < base + len
      → (t : Settled) → settle c i ≡ t
      → Settles c i t
      → Visited c a f
          (suc n)
          base
          len
          (block i s)
          (found_at c (λ j k. locate c n a (child j k s)) a t)
  settled-Visited n base len i s rest p l u (leaf j r) e w =
      leaf-Visited c a f n base len i j s r p l u e w
  settled-Visited n base len i s rest p l u (node j) e w =
      let placed = both (λ x y. ArePlaced x (y / 4) s) (sym (w.0 ∙ p.0)) (sym (w.1 ∙ p.1)) p.2 in
      both
        (λ x y.
          Visited c a f (suc n) x y (block i s)
            (found_sub (λ k. locate c n a (child j k s)) (sub_index c j a)))
        (w.0 ∙ p.0) (w.1 ∙ p.1)
        (node-Visited n i j s (sub_index c j a) e w.2 refl placed (λ k g.
          let q = sub_index-Splits c j a k g in
          let d =
            sub_index_window c j a k g (omega (arith, w.0, p.0, l))
              (omega (arith, w.0, p.0, w.1, p.1, u)) in
          rest (k * (j.len / 4) + j.address) (j.len / 4) (child j k s)
            (made-IsPlaced (k * (j.len / 4) + j.address) (j.len / 4) (pick k s)
              (pick-IsPlaced k j.address (j.len / 4) s q.1 placed))
            d.0 d.1))

  pub visited : (n : ℕ) → Visits n
  unfolding access locate
  visited zero base len b p l u = refl
  visited (suc n) base len (block i s) p l u =
      settled-Visited n base len i s (visited n) p l u (settle c i) refl (settle-Settles c i)
