-- ===== src/Memory/Transport/Enabled.antt =====
-- The transactions of the memory with byte enables.
use qbox.Base.{
  ℕ, zero, suc, ◌+◌, ◌-◌, ◌%◌, ◌^◌, ◌≤◌, ◌<◌, ◌≡◌, refl, sym, ap, ◌∙◌, inl, inr, Bool, true, false,
  ◌&&◌, List, [], ◌∷◌, Option, none, some, arith, length, get_elem?, leb, ◌==◌, if◌then◌else◌,
  Bool-cases,
}
use qbox.Base.Outcomes.{done}
use qbox.Base.Word.{add64}
use qbox.Memory.{Bytes, Config, Block}
use qbox.Memory.Storage
use qbox.Memory.Storage.{Presets, Memory}
use qbox.Memory.Storage.Turn.{byte_at, in_window}
use qbox.Memory.Storage.Contents.{IsReady, with_tree, StoredBytes, write-Stores}
use qbox.Tlm.{write, command_error, Payload}
use qbox.Memory.Transport.{
  bytes_of, from_index, back_index, moved_on, enabled, each_enabled, transfer, completed,
  on_command, b_transport,
}
use qbox.Memory.Transport.Whole.{IsInRange, answered, reaches, list_of_same, list_of-bytes_of}

-- Whether the byte enables have the byte `k` of the data, `TLM_BYTE_ENABLED` being 0xff.
abbrev pub is_enabled : Option ℕ → Bool
is_enabled none = false
is_enabled (some e) = e == 255

abbrev pub enables : List ℕ → ℕ → Bool
enables byt k = is_enabled (get_elem? byt (k % length byt))

abbrev pub EnabledBytes : Config → ℕ → ℕ → ℕ → ℕ → List ℕ → Bytes → Block → Block → Type 0
EnabledBytes c size addr i n byt bytes b b' =
    (x : ℕ)
    → x < size
    → byte_at c x b' ≡ (
        if in_window (addr + i) n x && enables byt (x - addr)
        then some (bytes (x - addr))
        else byte_at c x b)

get_some : (byt : List ℕ) (k : ℕ) → k < length byt → (e : ℕ) × (get_elem? byt k ≡ some e)
get_some [] k h = absurd (omega arith)
get_some (x ∷ xs) zero h = (x, refl)
get_some (x ∷ xs) (suc k) h = get_some xs k (omega arith)

mod_below : (k n : ℕ) → 0 < n → k % n < n
mod_below k n h = grind arith

back_same : (i k : ℕ) (bytes : Bytes) → back_index i bytes (from_index i bytes) k ≡ bytes k
back_same i k bytes = elim (Bool-cases (leb i k)) [
  | inl at_least ↦ rw at_least (ap bytes (ground (arith, at_least)))
  | inr below ↦ rw below refl
]

-- The first byte of a window, enabled and not.
step_on :
    (x o n : ℕ) (t : Bool) (y w : Option ℕ)
    → (x ≡ o → t ≡ true)
    → (if in_window (suc o) n x && t then y else (if in_window o 1 x then y else w))
      ≡ (if in_window o (suc n) x && t then y else w)
step_on x o n t y w h = elim (Bool-cases (x == o)) [
  | inl at_first ↦
      let later : in_window (suc o) n x ≡ false = ground (arith, at_first) in
      let now : in_window o 1 x ≡ true = ground (arith, at_first) in
      let all : in_window o (suc n) x ≡ true = ground (arith, at_first) in
      rw later (rw now (rw all (rw (h (ground (arith, at_first))) refl)))
  | inr elsewhere ↦
      let now : in_window o 1 x ≡ false = ground (arith, elsewhere) in
      let same : in_window (suc o) n x ≡ in_window o (suc n) x = ground (arith, elsewhere) in
      rw now (rw same refl)
]

step_off :
    (x o n : ℕ) (t : Bool) (y w : Option ℕ)
    → (x ≡ o → t ≡ false)
    → (if in_window (suc o) n x && t then y else w) ≡ (if in_window o (suc n) x && t then y else w)
step_off x o n t y w h = elim (Bool-cases (x == o)) [
  | inl at_first ↦
      let later : in_window (suc o) n x ≡ false = ground (arith, at_first) in
      let all : in_window o (suc n) x ≡ true = ground (arith, at_first) in
      rw later (rw all (rw (h (ground (arith, at_first))) refl))
  | inr elsewhere ↦
      let same : in_window (suc o) n x ≡ in_window o (suc n) x = ground (arith, elsewhere) in
      rw same refl
]

module _ (c : Config) (q : Presets) (byt : List ℕ) (addr : ℕ) (bytes : Bytes)
    (some_enable : 0 < length byt) where
  -- What the loop leaves from the byte `i` on.
  abbrev Writes : ℕ → ℕ → Bytes → Memory → Block → Type 0
  Writes n i buf m b =
      (buf' : Bytes) × (b' : Block) × (each_enabled (Storage.write c q) byt addr n i buf m
        ≡ done (buf', with_tree m b'))
      × ((k : ℕ) → buf' k ≡ bytes k)
      × IsReady c (with_tree m b') b'
      × EnabledBytes c m.m_size addr i n byt bytes b b'

  first :
      (i x e : ℕ)
      → get_elem? byt (i % length byt) ≡ some e
      → x ≡ addr + i
      → enables byt (x - addr) ≡ (e == 255)
  first i x e g h = ap (λ z. enables byt z) (omega arith) ∙ ap is_enabled g

  one_byte :
      (i x : ℕ) (buf : Bytes) (w : Option ℕ)
      → ((k : ℕ) → buf k ≡ bytes k)
      → (if in_window (addr + i) 1 x then some (from_index i buf (x - (addr + i))) else w)
        ≡ (if in_window (addr + i) 1 x then some (bytes (x - addr)) else w)
  one_byte i x buf w same = elim (Bool-cases (in_window (addr + i) 1 x)) [
    | inl inside ↦
        rw inside (ap some (same (i + (x - (addr + i))) ∙ ap bytes (ground (arith, inside))))
    | inr outside ↦ rw outside refl
  ]

  Writes-on :
      (n i e : ℕ) (buf : Bytes) (m : Memory) (b b1 : Block)
      → get_elem? byt (i % length byt) ≡ some e
      → (e == 255) ≡ true
      → addr + i < 2 ^ 64
      → ((k : ℕ) → buf k ≡ bytes k)
      → Storage.write c q (from_index i buf) (addr + i) 1 m
        ≡ done (true, from_index i buf, with_tree m b1)
      → StoredBytes c m.m_size (addr + i) 1 (from_index i buf) b b1
      → Writes n (suc i) (back_index i buf (from_index i buf)) (with_tree m b1) b1
      → Writes (suc n) i buf m b
  unfolding each_enabled
  Writes-on n i e buf m b b1 g t small same run stored rest =
      let rest_of = each_enabled (Storage.write c q) byt addr n (suc i) in
      let o : add64 addr i ≡ addr + i = omega arith in
      (
        rest.0,
        rest.1,
        ap (enabled rest_of (Storage.write c q) addr i buf m) g
            ∙ ap
                (λ z.
                  if z
                  then moved_on rest_of i buf
                      (Storage.write c q (from_index i buf) (add64 addr i) 1 m)
                  else rest_of buf m)
                t
            ∙ ap (λ z. moved_on rest_of i buf (Storage.write c q (from_index i buf) z 1 m)) o
            ∙ ap (moved_on rest_of i buf) run
            ∙ rest.2,
        rest.3,
        rest.4,
        λ x h.
            rest.5 x h
            ∙ ap
                (λ z.
                  if in_window z n x && enables byt (x - addr)
                  then some (bytes (x - addr))
                  else byte_at c x b1)
                (omega arith)
            ∙ ap
                (λ z.
                  if in_window (suc (addr + i)) n x && enables byt (x - addr)
                  then some (bytes (x - addr))
                  else z)
                (stored x h ∙ one_byte i x buf (byte_at c x b) same)
            ∙ step_on x (addr + i) n (enables byt (x - addr)) (some (bytes (x - addr)))
                (byte_at c x b) (λ k. first i x e g k ∙ t),
      )

  Writes-off :
      (n i e : ℕ) (buf : Bytes) (m : Memory) (b : Block)
      → get_elem? byt (i % length byt) ≡ some e
      → (e == 255) ≡ false
      → Writes n (suc i) buf m b
      → Writes (suc n) i buf m b
  unfolding each_enabled
  Writes-off n i e buf m b g t rest =
      let rest_of = each_enabled (Storage.write c q) byt addr n (suc i) in
      (
        rest.0,
        rest.1,
        ap (enabled rest_of (Storage.write c q) addr i buf m) g
            ∙ ap
                (λ z.
                  if z
                  then moved_on rest_of i buf
                      (Storage.write c q (from_index i buf) (add64 addr i) 1 m)
                  else rest_of buf m)
                t
            ∙ rest.2,
        rest.3,
        rest.4,
        λ x h.
            rest.5 x h
            ∙ ap
                (λ z.
                  if in_window z n x && enables byt (x - addr)
                  then some (bytes (x - addr))
                  else byte_at c x b)
                (omega arith)
            ∙ step_off x (addr + i) n (enables byt (x - addr)) (some (bytes (x - addr)))
                (byte_at c x b) (λ k. first i x e g k ∙ t),
      )

  each_enabled-Writes :
      (n i : ℕ) (buf : Bytes) (m : Memory) (b : Block)
      → IsReady c m b
      → addr + i + n ≤ m.m_size
      → ((k : ℕ) → buf k ≡ bytes k)
      → Writes n i buf m b
  unfolding each_enabled
  each_enabled-Writes zero i buf m b ready h same = (
    buf,
    b,
    ap (λ z. done (buf, record m { m_sub_block = z })) ready.tree,
    same,
    record { tree = refl; usable = ready.usable; bounded = ready.bounded },
    λ x k.
        let none_in : (in_window (addr + i) 0 x && enables byt (x - addr)) ≡ false = ground arith in
        sym (ap (λ z. if z then some (bytes (x - addr)) else byte_at c x b) none_in),
  )
  each_enabled-Writes (suc n) i buf m b ready h same =
      let g = get_some byt (i % length byt) (mod_below i (length byt) some_enable) in
      let t = write-Stores c q (from_index i buf) (addr + i) 1 m b ready (omega (arith, h)) in
      let on_rest =
        each_enabled-Writes n (suc i) (back_index i buf (from_index i buf)) (with_tree m t.0) t.0
          t.2 (omega (arith, h)) (λ k. back_same i k buf ∙ same k) in
      let off_rest = each_enabled-Writes n (suc i) buf m b ready (omega (arith, h)) same in
      elim (Bool-cases (g.0 == 255)) [
        | inl has ↦
            Writes-on n i g.0 buf m b t.0 g.1 has (omega (arith, h, ready.bounded)) same t.1 t.3
              on_rest
        | inr skip ↦ Writes-off n i g.0 buf m b g.1 skip off_rest
      ]

-- A write with byte enables in the range of a memory that is not read-only is answered with `ok`;
-- the memory holds the payload's bytes at the addresses of the range that the byte enables have,
-- which repeat, and its other bytes are as they were.
pub b_transport-StoresEnabled :
    (c : Config) (q : Presets) (m : Memory) (b : Block) (p : Payload) (a : ℕ) (byt : List ℕ)
    → IsReady c m b
    → IsInRange m p a
    → p.command ≡ write
    → c.rom ≡ false
    → p.byte_enable ≡ some byt
    → 0 < length byt
    → (b' : Block) × (b_transport c q p m ≡ done (answered c p p.bytes, with_tree m b'))
      × IsReady c (with_tree m b') b'
      × EnabledBytes c m.m_size a 0 p.data_length byt (bytes_of p.bytes) b b'
b_transport-StoresEnabled c q m b p a byt ready r e f g l =
    let t =
      each_enabled-Writes c q byt a (bytes_of p.bytes) l p.data_length 0 (bytes_of p.bytes) m b
        ready (omega (arith, r.fits)) (λ k. refl) in
    (
      t.1,
      reaches c q m b ready p a r
          ∙ ap (on_command c q p a m) e
          ∙ ap
              (λ z.
                if z
                then done (record p { response = command_error }, m)
                else completed c p (
                    transfer (Storage.write c q) p.byte_enable a p.data_length (bytes_of p.bytes)
                      m))
              f
          ∙ ap
              (λ z.
                completed c p (transfer (Storage.write c q) z a p.data_length (bytes_of p.bytes) m))
              g
          ∙ ap (completed c p) t.2
          ∙ ap (λ z. done (answered c p z, with_tree m t.1))
              (list_of_same (length p.bytes) t.0 (bytes_of p.bytes) (λ k h. t.3 k)
                ∙ list_of-bytes_of p.bytes),
      t.4,
      t.5,
    )
