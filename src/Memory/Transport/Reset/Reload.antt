-- ===== src/Memory/Transport/Reset/Reload.antt =====
-- The reset of the memory with what the loader writes after it.
use qbox.Base.{
  ℕ, ◌+◌, ◌-◌, ◌*◌, ◌/◌, ◌%◌, ◌^◌, ◌≤◌, ◌<◌, ◌≡◌, Bool, true, false, List, [], ◌∷◌, Option, none,
  some, All, leb, if◌then◌else◌,
}
use qbox.Memory.{Area, Config, Block}
use qbox.Memory.Storage
use qbox.Memory.Storage.{Memory}
use qbox.Memory.Storage.Turn.{byte_at, in_window}
use qbox.Memory.Transport.{Chunk}

-- The byte at an address after the calls of the loader: the last one that is in range and covers the
-- address gives it.
abbrev pub chunk_over : ℕ → Chunk → ℕ → Option ℕ → Option ℕ
chunk_over size k x o =
    if leb (k.offset + k.len) size
    then if in_window k.offset k.len x then some (k.bytes (x - k.offset)) else o
    else o

abbrev pub loaded : ℕ → List Chunk → ℕ → Option ℕ → Option ℕ
loaded size [] x o = o
loaded size (k ∷ ks) x o = loaded size ks x (chunk_over size k x o)

abbrev pub NoWrap : List Chunk → Type 0
NoWrap ks = All (λ k. k.offset + k.len < 2 ^ 64) ks

-- What a reset leaves: `b` is the tree before it, `o` and `t` whether it has its memory in one block
-- and whether it is split.
abbrev pub AfterReset : Config → ℕ → List Chunk → Block → Block → Option Area → Bool → Type 0
AfterReset c len ks b b' (some r) false =
    (x : ℕ) → x < len → byte_at c x b' ≡ loaded len ks x (some (c.init_mem_val % 2 ^ 8))
AfterReset c len ks b b' none false = Unit {0}
AfterReset c len ks b b' o true =
    (x : ℕ) → 2 * (len / 4) ≤ x → x < len → byte_at c x b' ≡ loaded len ks x (byte_at c x b)

-- The bytes after the calls of the loader, from those before.
abbrev LoadedBytes : Config → ℕ → List Chunk → Block → Block → Type 0
LoadedBytes c len ks b b' = (x : ℕ) → x < len → byte_at c x b' ≡ loaded len ks x (byte_at c x b)
