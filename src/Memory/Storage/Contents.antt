-- ===== src/Memory/Storage/Contents.antt =====
-- `read` and `write` of systemc-components/gs_memory/include/gs_memory.h against a map from
-- addresses to bytes.
use qbox.Base.{
  ℕ, ◌+◌, ◌-◌, ◌^◌, ◌≤◌, ◌<◌, ◌≡◌, refl, ap, ◌∙◌, true, false, none, some, arith, ltb,
  if◌then◌else◌,
}
use qbox.Base.Outcomes.{done}
use qbox.Base.Word.{add64}
use qbox.Memory.{Bytes, Area, Config, Block, block, new_info, no_subs}
use qbox.Memory.Tree.{Found, locate}
use qbox.Memory.Tree.Fresh.{Gives, Fits, fresh-IsFound}
use qbox.Memory.Storage.{
  Presets, Memory, depth, read_sub_blocks, write_sub_blocks, each_block, elaborated, elaborate_with,
  before_end_of_elaboration, size, store_tree, move_in, read, write,
}
use qbox.Memory.Storage.Turn.{byte_of, byte_at, IsUsable, in_window, same_if}
use qbox.Memory.Storage.Loop.{Turned-IsUsable, write_loop, read_loop}

-- A memory after its elaboration, with memory for every address.
pub record IsReady (c : Config) (m : Memory) (b : Block) : Type 0 where
  pub tree : m.m_sub_block ≡ some b
  pub usable : IsUsable c m.m_size b
  pub bounded : m.m_size < 2 ^ 64

abbrev pub with_tree : Memory → Block → Memory
with_tree m b = record m { m_sub_block = some b }

-- The bytes of one memory from those of another.
abbrev pub SameBytes : Config → ℕ → Block → Block → Type 0
SameBytes c len b b' = (x : ℕ) → x < len → byte_at c x b' ≡ byte_at c x b

abbrev pub StoredBytes : Config → ℕ → ℕ → ℕ → Bytes → Block → Block → Type 0
StoredBytes c size offset len bytes b b' =
    (x : ℕ)
    → x < size
    → byte_at c x b' ≡ (if in_window offset len x then some (bytes (x - offset)) else byte_at c x b)

in_front : (len k : ℕ) → in_window 0 len k ≡ ltb k len
in_front len k = ground arith

module _ (c : Config) (q : Presets) (bytes : Bytes) (offset len : ℕ) (m : Memory) (b : Block)
    (ready : IsReady c m b) where
  present : before_end_of_elaboration q m ≡ done (m, b)
  unfolding before_end_of_elaboration
  present = ap (elaborate_with q m) ready.tree

  in_range : offset + len ≤ m.m_size → ltb m.m_size (add64 offset len) ≡ false
  in_range h = ground (arith, h, ready.bounded)

  -- A write in the range of a memory succeeds, stores its bytes in its range, and leaves the other
  -- bytes of the memory as they are.
  pub write-Stores :
      offset + len ≤ m.m_size
      → (b' : Block) × (write c q bytes offset len m ≡ done (true, bytes, with_tree m b'))
        × IsReady c (with_tree m b') b'
        × StoredBytes c m.m_size offset len bytes b b'
  unfolding write
  write-Stores h =
      let t =
        write_loop c m.m_size offset bytes len 0 len b ready.bounded ready.usable (omega arith)
          (omega (arith, h)) in
      (
        t.0,
        ap (move_in c write_sub_blocks bytes offset len) present
            ∙ ap
                (λ z.
                  if z
                  then done (false, bytes, m)
                  else store_tree m (each_block c write_sub_blocks len offset bytes 0 len b))
                (in_range h)
            ∙ ap (store_tree m) t.1,
        record {
          tree = refl;
          usable =
              Turned-IsUsable c m.m_size (offset + 0) len (λ x. some (bytes (x - offset))) b t.0
                ready.usable.backed (λ x e. (bytes (x - offset), refl)) t.2;
          bounded = ready.bounded;
        },
        λ x e.
            t.2.bytes x e
            ∙ ap (λ z. if in_window z len x then some (bytes (x - offset)) else byte_at c x b)
                (omega arith),
      )

  -- A write out of range that does not wrap does nothing.
  pub write-out_of_range :
      m.m_size < offset + len
      → offset + len < 2 ^ 64
      → write c q bytes offset len m ≡ done (false, bytes, m)
  unfolding write
  write-out_of_range h k =
      let out : ltb m.m_size (add64 offset len) ≡ true = ground (arith, h, k) in
      ap (move_in c write_sub_blocks bytes offset len) present
      ∙ ap
          (λ z.
            if z
            then done (false, bytes, m)
            else store_tree m (each_block c write_sub_blocks len offset bytes 0 len b))
          out

  -- A read in the range of a memory succeeds, gives the bytes of its range, and changes no byte of
  -- the memory.
  pub read-Loads :
      offset + len ≤ m.m_size
      → (bytes' : Bytes) × (b' : Block) × (read c q bytes offset len m
          ≡ done (true, bytes', with_tree m b'))
        × IsReady c (with_tree m b') b'
        × ((k : ℕ)
            → some (bytes' k) ≡ (if ltb k len then byte_at c (offset + k) b else some (bytes k)))
        × SameBytes c m.m_size b b'
  unfolding read
  read-Loads h =
      let t =
        read_loop c m.m_size offset bytes len 0 len b ready.bounded ready.usable (omega arith)
          (omega (arith, h)) in
      (
        t.0,
        t.1,
        ap (move_in c read_sub_blocks bytes offset len) present
            ∙ ap
                (λ z.
                  if z
                  then done (false, bytes, m)
                  else store_tree m (each_block c read_sub_blocks len offset bytes 0 len b))
                (in_range h)
            ∙ ap (store_tree m) t.2,
        record {
          tree = refl;
          usable =
              Turned-IsUsable c m.m_size (offset + 0) len (λ x. byte_at c x b) b t.1
                ready.usable.backed (λ x e. ready.usable.backed x e) t.3;
          bounded = ready.bounded;
        },
        λ k.
            t.4 k
            ∙ ap (λ z. if z then byte_at c (offset + k) b else some (bytes k)) (in_front len k),
        λ x e. t.3.bytes x e ∙ same_if (in_window (offset + 0) len x) (byte_at c x b),
      )

byte_of_done :
    (x : ℕ) (o : ℕ × ℕ × Area) (t : Found) → t ≡ done o → (v : ℕ) × (byte_of x t ≡ some v)
byte_of_done x o t e = (o.2.bytes (x - o.0), ap (byte_of x) e)

pub fresh-IsUsable :
    (c : Config) (len : ℕ)
    → Gives c
    → Fits c 32 len
    → IsUsable c len (block (new_info 0 len) no_subs)
unfolding byte_at
fresh-IsUsable c len gives fits = record {
  placed = (refl, refl, (tt, tt, tt, tt));
  backed = λ x h.
      let o = fresh-IsFound c gives 32 x 0 len fits (omega arith) (omega (arith, h)) in
      byte_of_done x o.0 (locate c depth x (block (new_info 0 len) no_subs)) o.1;
}

-- Where the host gives the memory that the configuration allows, and the size divides down to it,
-- the elaboration leaves a memory of the configured size that has memory for every address.
pub elaboration-IsReady :
    (c : Config) (q : Presets) (m : Memory) (len : ℕ)
    → Gives c
    → Fits c 32 len
    → len < 2 ^ 64
    → m.m_sub_block ≡ none
    → size q m ≡ done len
    → (m' : Memory) × (b : Block) × (before_end_of_elaboration q m ≡ done (m', b))
      × IsReady c m' b
      × (m'.m_size ≡ len)
unfolding before_end_of_elaboration
elaboration-IsReady c q m len gives fits bounded fresh sized = (
  _,
  block (new_info 0 len) no_subs,
  ap (elaborate_with q m) fresh ∙ ap (elaborated q m) sized,
  record { tree = refl; usable = fresh-IsUsable c len gives fits; bounded = bounded },
  refl,
)
