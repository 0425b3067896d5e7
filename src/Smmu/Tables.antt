-- ===== src/Smmu/Tables.antt =====
-- `find_ste` of systemc-components/smmuv3/include/smmuv3.h: a stream's entry of the stream table, from
-- the cache of decoded entries or from memory.
pub mod Kept
use Prim.Native.Nat.{bit_and}
use qbox.Base.{
  ℕ, zero, suc, ◌+◌, ◌*◌, ◌/◌, ◌%◌, ◌^◌, Bool, true, false, not, ◌&&◌, List, [], ◌∷◌, Option, none,
  some, length, drop, take, ltb, leb, ◌==◌, if◌then◌else◌,
}
use qbox.Base.Word.{add64}
use qbox.Smmu.{Ste, extract64, aligned}
use qbox.Smmu.Access.{DmaState, dma_read, word_of, word_bytes}
use qbox.DmiConverter.{Port}

-- The fields of STRTAB_BASE and STRTAB_BASE_CFG.
pub record StreamTable : Type 0 where
  pub base : ℕ
  pub fmt : ℕ
  pub log2size : ℕ
  pub split : ℕ

-- `m_ste_cache` and its list, whether GERROR.SFM_ERR was set, and the memory.
pub record SteState : Type 0 where
  pub m_ste_cache : List (ℕ × Ste)
  pub m_ste_cache_lru : List ℕ
  pub sfm_err : Bool
  pub dma : DmaState

abbrev pub ste_cache_max : ℕ
ste_cache_max = 1024

-- The hash map and the list: `find`, `erase`, `back` and `pop_back`.
unfoldable pub find : ℕ → List (ℕ × Ste) → Option Ste
find sid [] = none
find sid ((k, s) ∷ m) = if k == sid then some s else find sid m

unfoldable pub erase : ℕ → List (ℕ × Ste) → List (ℕ × Ste)
erase sid [] = []
erase sid ((k, s) ∷ m) = let rest = erase sid m in if k == sid then rest else (k, s) ∷ rest

unfoldable pub split_last : ℕ → List ℕ → List ℕ × ℕ
split_last k [] = ([], k)
split_last k (o ∷ l) = let (front, last) = split_last o l in (k ∷ front, last)

-- The entry that goes when the cache is full.
abbrev pub evicted : List ℕ → SteState → SteState
evicted [] s = s
evicted (k ∷ l) s =
    let (front, last) = split_last k l in
    record s { m_ste_cache = erase last s.m_ste_cache; m_ste_cache_lru = front }

unfoldable pub keep : ℕ → Ste → SteState → SteState
keep sid ste s =
    let t = if leb ste_cache_max (length s.m_ste_cache) then evicted s.m_ste_cache_lru s else s in
    record t {
      m_ste_cache = (sid, ste) ∷ erase sid t.m_ste_cache;
      m_ste_cache_lru = sid ∷ t.m_ste_cache_lru;
    }

-- The double word at a place of the buffer, and the entry that the first four make.
abbrev pub dword : ℕ → List ℕ → ℕ
dword i bytes = word_of (take 8 (drop (8 * i) bytes))

abbrev pub flag : ℕ → Bool
flag n = not (n == 0)

unfoldable pub decode : ℕ → ℕ → ℕ → ℕ → Ste
decode dw0 dw1 dw2 dw3 = record {
  valid = flag (extract64 dw0 0 1);
  config = extract64 dw0 1 3;
  s1contextptr = bit_and dw0 0x000fffffffffffc0;
  s2ttb = bit_and dw3 0x000ffffffffffff0;
  s2t0sz = extract64 dw2 32 6;
  s2sl0 = extract64 dw2 38 2;
  s2tg = extract64 dw2 46 2;
  s2ps = extract64 dw2 48 3;
  s1fmt = extract64 dw0 4 2;
  s1stalld = flag (extract64 dw1 27 1);
  s1cdmax = extract64 dw0 59 5;
  vmid = extract64 dw2 0 16;
  s2affd = flag (extract64 dw2 60 1);
  s2hd = flag (extract64 dw2 56 1);
  eats = flag (extract64 dw1 28 2);
  strw = extract64 dw1 30 2;
}

-- The result: the entry, whether it is valid, if there is one.
abbrev pub if_valid : Ste → Option Ste
if_valid ste = if ste.valid then some ste else none

abbrev pub with_dma : SteState → DmaState → SteState
with_dma s d = record s { dma = d }

abbrev pub decoded : ℕ → SteState → (Bool × List ℕ) × DmaState → Option Ste × SteState
decoded sid s ((false, bytes), d) = (none, record s { sfm_err = true; dma = d })
decoded sid s ((true, bytes), d) =
    let ste = decode (dword 0 bytes) (dword 1 bytes) (dword 2 bytes) (dword 3 bytes) in
    (if_valid ste, keep sid ste (with_dma s d))

abbrev pub fetch : Port → ℕ → SteState → ℕ → Option Ste × SteState
fetch t sid s a = decoded sid s (dma_read t a (word_bytes 64 0) s.dma)

-- The second level, by the descriptor of the first.
abbrev pub through_level1 :
    Port → ℕ → ℕ → SteState → (Bool × List ℕ) × DmaState → Option Ste × SteState
through_level1 t sid l2_idx s ((false, bytes), d) = (none, record s { sfm_err = true; dma = d })
through_level1 t sid l2_idx s ((true, bytes), d) =
    let l1std = word_of bytes in
    if l1std % 2 == 0
    then (none, with_dma s d)
    else fetch t sid (with_dma s d) (add64 (aligned 6 l1std) (l2_idx * 64))

abbrev pub shift_of : ℕ → ℕ
shift_of log2size = if ltb 31 log2size then 31 else log2size

unfoldable pub look_up : Port → StreamTable → ℕ → SteState → Option Ste × SteState
look_up t r sid s =
    if r.fmt == 0
    then if leb (2 ^ shift_of r.log2size) sid
      then (none, s)
      else fetch t sid s (add64 r.base (sid * 64))
    else if leb (2 ^ shift_of r.log2size) (sid / 2 ^ r.split)
    then (none, s)
    else through_level1 t sid (sid % 2 ^ r.split) s
        (dma_read t (add64 r.base (sid / 2 ^ r.split * 8)) (word_bytes 8 0) s.dma)

abbrev pub or_look_up : Port → StreamTable → ℕ → SteState → Option Ste → Option Ste × SteState
or_look_up t r sid s none = look_up t r sid s
or_look_up t r sid s (some ste) = (if_valid ste, s)

unfoldable pub find_ste : Port → StreamTable → ℕ → SteState → Option Ste × SteState
find_ste t r sid s = or_look_up t r sid s (find sid s.m_ste_cache)
