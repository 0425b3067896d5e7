-- ===== src/Memory/Storage/Turn.antt =====
-- One turn of the loops of `read` and `write`: what the bytes of the memory are after it.
use qbox.Base.{
  ℕ, ◌+◌, ◌-◌, ◌≤◌, ◌<◌, ◌≡◌, refl, sym, ap, ◌∙◌, inl, inr, Bool, true, false, ◌&&◌, Option, none,
  some, arith, ltb, leb, if◌then◌else◌, Bool-cases,
}
use qbox.Base.Outcomes.{done, fatal, no_fuel}
use qbox.Memory.{Bytes, memcpy, Area, Config, Block, Visitor, access}
use qbox.Memory.Tree.{Found, locate, IsPlaced, IsWithin, Visited}
use qbox.Memory.Tree.Visit.{visited}
use qbox.Memory.Storage.{depth, remain_len, is_inside, read_sub_blocks, write_sub_blocks}

-- The byte at an address, where the address has memory.
abbrev pub byte_of : ℕ → Found → Option ℕ
byte_of x (done (ad, ln, r)) = some (r.bytes (x - ad))
byte_of x fatal = none
byte_of x no_fuel = none

unfoldable pub byte_at : Config → ℕ → Block → Option ℕ
byte_at c x b = byte_of x (locate c depth x b)

-- The address in the host of the byte that an access reads or writes: `m_ptr[block_offset]`.
abbrev pub place_of : ℕ → Found → Option ℕ
place_of x (done (ad, ln, r)) = some (r.ptr + (x - ad))
place_of x fatal = none
place_of x no_fuel = none

unfoldable pub place_at : Config → ℕ → Block → Option ℕ
place_at c x b = place_of x (locate c depth x b)

-- Every address below `len` has memory, or gets it once it is used.
abbrev pub IsBacked : Config → ℕ → Block → Type 0
IsBacked c len b = (x : ℕ) → x < len → (v : ℕ) × (byte_at c x b ≡ some v)

-- A tree of length `len` at address 0, with memory for every address.
pub record IsUsable (c : Config) (len : ℕ) (b : Block) : Type 0 where
  pub placed : IsPlaced 0 len b
  pub backed : IsBacked c len b

-- A visit of the block that holds `o`.
pub record Visit {A : Type 0} (c : Config) (len o : ℕ) (f : Visitor A) (b : Block) : Type 0 where
  pub ad : ℕ
  pub ln : ℕ
  pub area : Area
  pub inside : IsWithin 0 len o ad ln
  pub found : (x : ℕ) → ad ≤ x → x < ad + ln → locate c depth x b ≡ done (ad, ln, area)
  pub bytes : (x : ℕ) → ad ≤ x → x < ad + ln → byte_at c x b ≡ some (area.bytes (x - ad))
  pub run :
      (v : A) (r' : Area)
      → f ad ln area ≡ done (v, r')
      → (b' : Block) × (access c depth o f b ≡ done (v, b'))
        × IsPlaced 0 len b'
        × ((x : ℕ)
            → x < len
            → byte_at c x b'
              ≡ (if leb ad x && ltb x (ad + ln) then some (r'.bytes (x - ad)) else byte_at c x b))

byte_of-if :
    (x : ℕ) (t : Bool) (o : ℕ × ℕ × Area) (u : Found)
    → byte_of x (if t then done o else u) ≡ (if t then some (o.2.bytes (x - o.0)) else byte_of x u)
byte_of-if x true o u = refl
byte_of-if x false o u = refl

module _ {A : Type 0} (c : Config) (len o : ℕ) (f : Visitor A) (b : Block) where
  Found-Visit :
      (t : Found)
      → locate c depth o b ≡ t
      → Visited c o f depth 0 len b t
      → (v : ℕ) × (byte_of o t ≡ some v)
      → Visit c len o f b
  unfolding byte_at
  Found-Visit fatal e w m = cc
  Found-Visit no_fuel e w m = cc
  Found-Visit (done (ad, ln, r)) e w m = record {
    ad = ad;
    ln = ln;
    area = r;
    inside = w.0;
    found = λ x g h. w.1 x g h;
    bytes = λ x g h. ap (byte_of x) (w.1 x g h);
    run = λ v r' k.
        let t = w.2 v r' k in
        (
          t.0,
          t.1,
          t.2.placed,
          λ x h.
              ap (byte_of x) (t.2.same x (omega arith) (omega arith))
              ∙ byte_of-if x (leb ad x && ltb x (ad + ln)) (ad, ln, r') (locate c depth x b),
        );
  }

  pub visit : IsUsable c len b → o < len → Visit c len o f b
  unfolding byte_at
  visit u h =
      Found-Visit (locate c depth o b) refl
        (visited c o f depth 0 len b u.placed (omega arith) (omega arith)) (u.backed o h)

-- What a turn of `read` or `write` at `o` leaves: `n` bytes are done with.
pub record Turned (c : Config) (len o n : ℕ) (from : ℕ → Option ℕ) (b b' : Block) : Type 0 where
  pub placed : IsPlaced 0 len b'
  pub bytes :
      (x : ℕ)
      → x < len
      → byte_at c x b' ≡ (if leb o x && ltb x (o + n) then from x else byte_at c x b)

inside_true :
    (m_address m_len o : ℕ)
    → m_address ≤ o
    → o < m_address + m_len
    → is_inside m_address m_len o ≡ true
inside_true m_address m_len o g h = ground arith

remain_bounds :
    (ad ln o l : ℕ)
    → ad ≤ o
    → o < ad + ln
    → 0 < l
    → (0 < remain_len ad ln o l) × (remain_len ad ln o l ≤ l) × (o + remain_len ad ln o l ≤ ad + ln)
remain_bounds ad ln o l g h k = (ground arith, ground arith, ground arith)

abbrev pub in_window : ℕ → ℕ → ℕ → Bool
in_window a n x = leb a x && ltb x (a + n)

copied :
    (old bytes : Bytes) (ad ln o n i x : ℕ) (y : Option ℕ)
    → ad ≤ o
    → o + n ≤ ad + ln
    → (ad ≤ x → x < ad + ln → y ≡ some (old (x - ad)))
    → (if in_window ad ln x then some (memcpy old (o - ad) bytes i n (x - ad)) else y)
      ≡ (if in_window o n x then some (bytes (i + (x - o))) else y)
copied old bytes ad ln o n i x y l u e = elim (Bool-cases (in_window o n x)) [
  | inl own ↦
      let whole : in_window ad ln x ≡ true = ground (arith, own) in
      let part : in_window (o - ad) n (x - ad) ≡ true = ground (arith, own) in
      let at : i + (x - ad - (o - ad)) ≡ i + (x - o) = ground (arith, own) in
      rw own (
        ap (λ t. if t then some (memcpy old (o - ad) bytes i n (x - ad)) else y) whole
        ∙ ap (λ t. some (if t then bytes (i + (x - ad - (o - ad))) else old (x - ad))) part
        ∙ ap (λ k. some (bytes k)) at)
  | inr other ↦ elim (Bool-cases (in_window ad ln x)) [
    | inl inside ↦
        let part : in_window (o - ad) n (x - ad) ≡ false = ground (arith, other, inside) in
        rw other (
          ap (λ t. if t then some (memcpy old (o - ad) bytes i n (x - ad)) else y) inside
          ∙ ap (λ t. some (if t then bytes (i + (x - ad - (o - ad))) else old (x - ad))) part
          ∙ sym (e (ground (arith, inside)) (ground (arith, inside))))
    | inr outside ↦
        rw other (ap (λ t. if t then some (memcpy old (o - ad) bytes i n (x - ad)) else y) outside)
  ]
]

buffered :
    (old bytes : Bytes) (ad o n i m : ℕ) (y : ℕ → Option ℕ)
    → ad ≤ o
    → ((x : ℕ) → ad ≤ x → x < o + n → y x ≡ some (old (x - ad)))
    → some (memcpy bytes i old (o - ad) n m)
      ≡ (if in_window i n m then y (o + (m - i)) else some (bytes m))
buffered old bytes ad o n i m y l e = elim (Bool-cases (in_window i n m)) [
  | inl own ↦
      let at : o - ad + (m - i) ≡ o + (m - i) - ad = omega arith in
      ap (λ t. some (if t then old (o - ad + (m - i)) else bytes m)) own
      ∙ ap (λ k. some (old k)) at
      ∙ sym (e (o + (m - i)) (omega arith) (ground (arith, own)))
      ∙ (rw own refl)
  | inr other ↦ rw other refl
]

pub kept :
    (ad ln x : ℕ) (old : Bytes) (y : Option ℕ)
    → (ad ≤ x → x < ad + ln → y ≡ some (old (x - ad)))
    → (if in_window ad ln x then some (old (x - ad)) else y) ≡ y
kept ad ln x old y e = elim (Bool-cases (in_window ad ln x)) [
  | inl inside ↦ rw inside (sym (e (ground (arith, inside)) (ground (arith, inside))))
  | inr outside ↦ rw outside refl
]

pub same_if : {A : Type 0} (t : Bool) (x : A) → (if t then x else x) ≡ x
same_if true x = refl
same_if false x = refl

module _ (c : Config) (len o i l : ℕ) (bytes : Bytes) (b : Block) where
  pub write_turn :
      IsUsable c len b
      → o < len
      → 0 < l
      → (n : ℕ) × (b' : Block) × (access c depth o (write_sub_blocks bytes i o l) b
          ≡ done ((n, bytes), b'))
        × (0 < n)
        × (n ≤ l)
        × Turned c len o n (λ x. some (bytes (i + (x - o)))) b b'
  unfolding write_sub_blocks
  write_turn u h g =
      let v = visit c len o (write_sub_blocks bytes i o l) b u h in
      let n = remain_len v.ad v.ln o l in
      let r' = record v.area { bytes = memcpy v.area.bytes (o - v.ad) bytes i n } in
      let k = remain_bounds v.ad v.ln o l v.inside.1 v.inside.2 g in
      let w =
        v.run (n, bytes) r'
          (ap (λ t. if t then done ((n, bytes), r') else fatal)
            (inside_true v.ad v.ln o v.inside.1 v.inside.2)) in
      (
        n,
        w.0,
        w.1,
        k.0,
        k.1,
        record {
          placed = w.2;
          bytes = λ x e.
              w.3 x e
              ∙ copied v.area.bytes bytes v.ad v.ln o n i x (byte_at c x b) v.inside.1 k.2
                  (v.bytes x);
        },
      )

  pub read_turn :
      IsUsable c len b
      → o < len
      → 0 < l
      → (n : ℕ) × (bytes' : Bytes) × (b' : Block) × (access c depth o
            (read_sub_blocks bytes i o l)
            b
          ≡ done ((n, bytes'), b'))
        × (0 < n)
        × (n ≤ l)
        × (o + n ≤ len)
        × Turned c len o n (λ x. byte_at c x b) b b'
        × ((k : ℕ)
            → some (bytes' k)
              ≡ (if leb i k && ltb k (i + n) then byte_at c (o + (k - i)) b else some (bytes k)))
  unfolding read_sub_blocks
  read_turn u h g =
      let v = visit c len o (read_sub_blocks bytes i o l) b u h in
      let n = remain_len v.ad v.ln o l in
      let bytes' = memcpy bytes i v.area.bytes (o - v.ad) n in
      let k = remain_bounds v.ad v.ln o l v.inside.1 v.inside.2 g in
      let w =
        v.run (n, bytes') v.area
          (ap (λ t. if t then done ((n, bytes'), v.area) else fatal)
            (inside_true v.ad v.ln o v.inside.1 v.inside.2)) in
      (
        n,
        bytes',
        w.0,
        w.1,
        k.0,
        k.1,
        omega (arith, k.2, v.inside.3),
        record {
          placed = w.2;
          bytes = λ x e.
              w.3 x e
              ∙ kept v.ad v.ln x v.area.bytes (byte_at c x b) (v.bytes x)
              ∙ sym (same_if (in_window o n x) (byte_at c x b));
        },
        λ m.
            buffered v.area.bytes bytes v.ad o n i m (λ x. byte_at c x b) v.inside.1
              (λ x s t. v.bytes x s (omega (arith, t, k.2))),
      )
