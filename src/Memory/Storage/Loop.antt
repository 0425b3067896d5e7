-- ===== src/Memory/Storage/Loop.antt =====
-- The loops of `read` and `write` end, and treat every byte of their range.
use mathlib.Core.Path.{subst}
use qbox.Base.{
  ℕ, zero, suc, ◌+◌, ◌-◌, ◌^◌, ◌≤◌, ◌<◌, ◌≡◌, refl, sym, ap, ◌∙◌, inl, inr, Option, some, arith,
  if◌then◌else◌, Bool, true, false, Bool-cases,
}
use qbox.Base.Outcomes.{done}
use qbox.Base.Word.{add64}
use qbox.Memory.{Bytes, Config, Block, access}
use qbox.Memory.Storage.{depth, read_sub_blocks, write_sub_blocks, next_turn, each_block}
use qbox.Memory.Storage.Turn.{
  byte_at, IsBacked, IsUsable, Turned, in_window, same_if, write_turn, read_turn,
}

backed_if :
    (t : Bool) (x y : Option ℕ)
    → (v : ℕ) × (x ≡ some v)
    → (v : ℕ) × (y ≡ some v)
    → (v : ℕ) × ((if t then x else y) ≡ some v)
backed_if true x y p q = p
backed_if false x y p q = q

-- The tree is still usable after a turn.
pub Turned-IsUsable :
    (c : Config) (len o n : ℕ) (from : ℕ → Option ℕ) (b b' : Block)
    → IsBacked c len b
    → ((x : ℕ) → x < len → (v : ℕ) × (from x ≡ some v))
    → Turned c len o n from b b'
    → IsUsable c len b'
Turned-IsUsable c len o n from b b' u f t = record {
  placed = t.placed;
  backed = λ x h.
      let w = backed_if (in_window o n x) (from x) (byte_at c x b) (f x h) (u x h) in
      (w.0, t.bytes x h ∙ w.1);
}

pub if_window :
    (o n x : ℕ) (y z w : Option ℕ)
    → (o ≤ x → x < o + n → y ≡ z)
    → (if in_window o n x then y else w) ≡ (if in_window o n x then z else w)
if_window o n x y z w e = elim (Bool-cases (in_window o n x)) [
  | inl inside ↦ rw inside (e (ground (arith, inside)) (ground (arith, inside)))
  | inr outside ↦ rw outside refl
]

-- Two windows, one after the other.
pub in_order :
    (o n m x : ℕ) (y w : Option ℕ)
    → (if in_window (o + n) m x then y else (if in_window o n x then y else w))
      ≡ (if in_window o (n + m) x then y else w)
in_order o n m x y w = elim (Bool-cases (in_window o n x)) [
  | inl first ↦
      let all : in_window o (n + m) x ≡ true = ground (arith, first) in
      let later : in_window (o + n) m x ≡ false = ground (arith, first) in
      rw later (rw first (rw all refl))
  | inr behind ↦ elim (Bool-cases (in_window (o + n) m x)) [
    | inl second ↦
        let all : in_window o (n + m) x ≡ true = ground (arith, second) in rw second (rw all refl)
    | inr after ↦
        let all : in_window o (n + m) x ≡ false = ground (arith, behind, after) in
        rw after (rw behind (rw all refl))
  ]
]

empty_window : (o x : ℕ) (y w : Option ℕ) → w ≡ (if in_window o 0 x then y else w)
empty_window o x y w = let none_in : in_window o 0 x ≡ false = ground arith in rw none_in refl

module _ (c : Config) (len : ℕ) where
  Turned-same :
      (o n : ℕ) (from from' : ℕ → Option ℕ) (b b' : Block)
      → ((x : ℕ) → o ≤ x → x < len → from x ≡ from' x)
      → Turned c len o n from b b'
      → Turned c len o n from' b b'
  Turned-same o n from from' b b' e t = record {
    placed = t.placed;
    bytes =
        λ x h. t.bytes x h ∙ if_window o n x (from x) (from' x) (byte_at c x b) (λ g k. e x g h);
  }

  Turned-after :
      (o n o' m l : ℕ) (from : ℕ → Option ℕ) (b b1 b2 : Block)
      → o + n ≡ o'
      → n + m ≡ l
      → Turned c len o n from b b1
      → Turned c len o' m from b1 b2
      → Turned c len o l from b b2
  Turned-after o n o' m l from b b1 b2 e f s t' =
      let t = subst (λ z. Turned c len z m from b1 b2) (sym e) t' in
      subst (λ z. Turned c len o z from b b2) f
        (record {
          placed = t.placed;
          bytes = λ x h.
              t.bytes x h
              ∙ ap (λ z. if in_window (o + n) m x then from x else z) (s.bytes x h)
              ∙ in_order o n m x (from x) (byte_at c x b);
        })

module _ (c : Config) (len offset : ℕ) where
  pub write_loop :
      (bytes : Bytes) (fuel i l : ℕ) (b : Block)
      → len < 2 ^ 64
      → IsUsable c len b
      → l ≤ fuel
      → offset + i + l ≤ len
      → (b' : Block) × (each_block c write_sub_blocks fuel offset bytes i l b ≡ done (bytes, b'))
        × Turned c len (offset + i) l (λ x. some (bytes (x - offset))) b b'
  unfolding each_block
  write_loop bytes fuel i zero b w u h g = (
    b,
    refl,
    record {
      placed = u.placed;
      bytes = λ x k. empty_window (offset + i) x (some (bytes (x - offset))) (byte_at c x b);
    },
  )
  write_loop bytes zero i (suc l) b w u h g = absurd (omega arith)
  write_loop bytes (suc fuel) i (suc l) b w u h g =
      let from : ℕ → Option ℕ = λ x. some (bytes (x - offset)) in
      let o : add64 offset i ≡ offset + i = omega arith in
      let t = write_turn c len (offset + i) i (suc l) bytes b u (omega arith) (omega arith) in
      let first =
        Turned-same c len (offset + i) t.0 (λ x. some (bytes (i + (x - (offset + i))))) from b t.1
          (λ x e k. ap (λ z. some (bytes z)) (omega arith)) t.5 in
      let rest =
        write_loop bytes fuel (i + t.0) (suc l - t.0) t.1 w
          (Turned-IsUsable c len (offset + i) t.0 from b t.1 u.backed
            (λ x e. (bytes (x - offset), refl)) first)
          (omega (arith, t.3)) (omega (arith, t.4)) in
      (
        rest.0,
        ap
              (λ z.
                next_turn (each_block c write_sub_blocks fuel offset) i (suc l)
                  (access c depth z (write_sub_blocks bytes i z (suc l)) b))
              o
            ∙ ap (next_turn (each_block c write_sub_blocks fuel offset) i (suc l)) t.2
            ∙ rest.1,
        Turned-after c len (offset + i) t.0 (offset + (i + t.0)) (suc l - t.0) (suc l) from b t.1
            rest.0 (omega arith) (omega (arith, t.4)) first rest.2,
      )

  pub read_loop :
      (bytes : Bytes) (fuel i l : ℕ) (b : Block)
      → len < 2 ^ 64
      → IsUsable c len b
      → l ≤ fuel
      → offset + i + l ≤ len
      → (bytes' : Bytes) × (b' : Block) × (each_block c read_sub_blocks fuel offset bytes i l b
          ≡ done (bytes', b'))
        × Turned c len (offset + i) l (λ x. byte_at c x b) b b'
        × ((k : ℕ)
            → some (bytes' k)
              ≡ (if in_window i l k then byte_at c (offset + k) b else some (bytes k)))
  unfolding each_block
  read_loop bytes fuel i zero b w u h g = (
    bytes,
    b,
    refl,
    record {
      placed = u.placed;
      bytes = λ x k. empty_window (offset + i) x (byte_at c x b) (byte_at c x b);
    },
    λ k. empty_window i k (byte_at c (offset + k) b) (some (bytes k)),
  )
  read_loop bytes zero i (suc l) b w u h g = absurd (omega arith)
  read_loop bytes (suc fuel) i (suc l) b w u h g =
      let from : ℕ → Option ℕ = λ x. byte_at c x b in
      let o : add64 offset i ≡ offset + i = omega arith in
      let t = read_turn c len (offset + i) i (suc l) bytes b u (omega arith) (omega arith) in
      let rest =
        read_loop t.1 fuel (i + t.0) (suc l - t.0) t.2 w
          (Turned-IsUsable c len (offset + i) t.0 from b t.2 u.backed (λ x e. u.backed x e) t.7)
          (omega (arith, t.4)) (omega (arith, t.5)) in
      let same : (x : ℕ) → x < len → byte_at c x t.2 ≡ byte_at c x b =
        λ x e. t.7.bytes x e ∙ same_if (in_window (offset + i) t.0 x) (byte_at c x b) in
      (
        rest.0,
        rest.1,
        ap
              (λ z.
                next_turn (each_block c read_sub_blocks fuel offset) i (suc l)
                  (access c depth z (read_sub_blocks bytes i z (suc l)) b))
              o
            ∙ ap (next_turn (each_block c read_sub_blocks fuel offset) i (suc l)) t.3
            ∙ rest.2,
        Turned-after c len (offset + i) t.0 (offset + (i + t.0)) (suc l - t.0) (suc l) from b t.2
            rest.1 (omega arith) (omega (arith, t.5)) t.7
            (Turned-same c len (offset + (i + t.0)) (suc l - t.0) (λ x. byte_at c x t.2) from t.2
              rest.1 (λ x e k. same x k) rest.3),
        λ k.
            rest.4 k
            ∙ if_window (i + t.0) (suc l - t.0) k (byte_at c (offset + k) t.2)
                (byte_at c (offset + k) b) (some (t.1 k))
                (λ e f. same (offset + k) (omega (arith, f, t.5, g)))
            ∙ ap (λ z. if in_window (i + t.0) (suc l - t.0) k then byte_at c (offset + k) b else z)
                (t.8 k
                  ∙ if_window i t.0 k (byte_at c (offset + i + (k - i)) b)
                      (byte_at c (offset + k) b) (some (bytes k))
                      (λ e f. ap (λ z. byte_at c z b) (omega (arith, e))))
            ∙ in_order i t.0 (suc l - t.0) k (byte_at c (offset + k) b) (some (bytes k))
            ∙ ap (λ z. if in_window i z k then byte_at c (offset + k) b else some (bytes k))
                (omega (arith, t.5)),
      )
