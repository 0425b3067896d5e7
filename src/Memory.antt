-- ===== src/Memory.antt =====
-- The memory, systemc-components/gs_memory/include/gs_memory.h: a tree of sub-blocks that are
-- allocated when they are first used. The services of the host are a parameter.

pub mod Tree
mod Tests
pub mod Storage
pub mod Transport
use qbox.Base.{
  ℕ, zero, suc, ◌+◌, ◌-◌, ◌*◌, ◌/◌, ◌%◌, ◌^◌, Bool, true, false, not, ◌&&◌, ◌||◌, Option, none,
  some, ltb, leb, ◌==◌, if◌then◌else◌,
}
use qbox.Base.Outcomes.{Outcome, done, fatal, no_fuel}

-- What a pointer shows.
abbrev pub Bytes : Type 0
Bytes = ℕ → ℕ

-- `memcpy(&to[i], &from[j], n)` and `memset(to, v, n)`
abbrev pub memcpy : Bytes → ℕ → Bytes → ℕ → ℕ → Bytes
memcpy to i from j n = λ k. if leb i k && ltb k (i + n) then from (j + (k - i)) else to k

abbrev pub memset : Bytes → ℕ → ℕ → Bytes
memset to v n = λ k. if ltb k n then v % 2 ^ 8 else to k

-- Memory that the host gives: where it is, and what it holds.
pub record Area : Type 0 where
  pub ptr : ℕ
  pub bytes : Bytes

-- The CCI parameters, and the services of the host. Each block asks a service once at most, so
-- that an answer may depend on the block's address and length.
pub record Config : Type 0 where
  pub rom : Bool
  pub dmi : Bool
  pub max_block_size : ℕ
  pub min_block_size : ℕ
  pub has_map_file : Bool
  pub shmem : Bool
  pub init_mem : Bool
  pub init_mem_val : ℕ
  pub map_file : ℕ → ℕ → Option Area
  pub map_mem_create : ℕ → ℕ → Option Area
  pub alloc : ℕ → ℕ → Option Area

-- The members of a `SubBlock`, but for its array of sub-blocks.
pub record Info : Type 0 where
  pub address : ℕ
  pub len : ℕ
  pub area : Option Area
  pub use_sub_blocks : Bool

-- `SubBlock`, for `N = 2`: four sub-blocks, each of which may be missing.
mutual
  pub data Block : Type 0 where
    block : Info → Subs → Block

  pub data Slot : Type 0 where
    empty : Slot
    full : Block → Slot

  pub data Subs : Type 0 where
    four : Slot → Slot → Slot → Slot → Subs

abbrev pub new_info : ℕ → ℕ → Info
new_info address len = record { address = address; len = len; area = none; use_sub_blocks = false }

abbrev pub no_subs : Subs
no_subs = four empty empty empty empty

abbrev pub pick : ℕ → Subs → Slot
pick k (four a b c d) = if k == 0 then a else if k == 1 then b else if k == 2 then c else d

abbrev pub put : ℕ → Block → Subs → Subs
put k x (four a b c d) =
    four (if k == 0 then full x else a) (if k == 1 then full x else b)
      (if k == 2 then full x else c) (if k == 3 then full x else d)

-- The sub-block `k`, made if it is missing.
abbrev pub made : ℕ → ℕ → Slot → Block
made address len empty = block (new_info address len) no_subs
made address len (full b) = b

abbrev pub child : Info → ℕ → Subs → Block
child i k s = made (k * (i.len / 4) + i.address) (i.len / 4) (pick k s)

-- Whether a block has its memory, or goes on to its sub-blocks.
pub data Settled : Type 0 where
  leaf : Info → Area → Settled
  node : Info → Settled

abbrev pub initialised : Config → Info → Area → Area
initialised c i r =
    if c.init_mem then record r { bytes = memset r.bytes c.init_mem_val i.len } else r

abbrev pub allocated : Config → Info → Option Area → Settled
allocated c i none = node (record i { use_sub_blocks = true })
allocated c i (some r) = leaf (record i { area = some (initialised c i r) }) (initialised c i r)

abbrev pub or_shared : Config → Info → Option Area → Settled
or_shared c i none = allocated c i (c.alloc i.address i.len)
or_shared c i (some r) = leaf (record i { area = some r }) r

abbrev pub or_mapped : Config → Info → Option Area → Settled
or_mapped c i none = or_shared c i (if c.shmem then c.map_mem_create i.address i.len else none)
or_mapped c i (some r) = leaf (record i { area = some r }) r

abbrev pub obtain : Config → Info → Settled
obtain c i =
    if i.use_sub_blocks || ltb c.max_block_size i.len
    then node (record i { use_sub_blocks = true })
    else or_mapped c i (if c.has_map_file then c.map_file i.address i.len else none)

abbrev pub settle_with : Config → Info → Option Area → Settled
settle_with c i none = obtain c i
settle_with c i (some r) = if i.use_sub_blocks then obtain c i else leaf i r

unfoldable pub settle : Config → Info → Settled
settle c i = settle_with c i i.area

-- The index of the sub-block; the checks are the fatal report, the assertion on the length, the
-- division and the bounds of the array. The index is an `int`.
unfoldable pub sub_index : Config → Info → ℕ → Outcome ℕ
sub_index c i address =
    let k = (address - i.address) / (i.len / 4) % 2 ^ 32 in
    if ltb i.len c.min_block_size
    then fatal
    else if not (i.len % 4 == 0) || (i.len / 4 == 0)
    then fatal
    else if ltb k 4
    then done k
    else fatal

-- What the caller does with the block that `access` returns, from its address and its length: it
-- may write to its memory.
abbrev pub Visitor : Type 0 → Type 0
Visitor A = ℕ → ℕ → Area → Outcome (A × Area)

module _ {A : Type 0} where
  abbrev pub keep : Info → Subs → Outcome (A × Area) → Outcome (A × Block)
  keep i s (done (v, r)) = done (v, block (record i { area = some r }) s)
  keep i s fatal = fatal
  keep i s no_fuel = no_fuel

  abbrev pub attach : Info → Subs → ℕ → Outcome (A × Block) → Outcome (A × Block)
  attach i s k (done (v, b)) = done (v, block i (put k b s))
  attach i s k fatal = fatal
  attach i s k no_fuel = no_fuel

  abbrev pub enter_sub :
      (Block → Outcome (A × Block)) → Info → Subs → Outcome ℕ → Outcome (A × Block)
  enter_sub rest i s (done k) = attach i s k (rest (child i k s))
  enter_sub rest i s fatal = fatal
  enter_sub rest i s no_fuel = no_fuel

  abbrev pub enter :
      Config → (Block → Outcome (A × Block)) → Visitor A → ℕ → Subs → Settled → Outcome (A × Block)
  enter c rest f address s (leaf i r) = keep i s (f i.address i.len r)
  enter c rest f address s (node i) = enter_sub rest i s (sub_index c i address)

  -- `SubBlock::access` with the visit of the block that it returns, on fuel for the depth.
  unfoldable pub access : Config → ℕ → ℕ → Visitor A → Block → Outcome (A × Block)
  access c zero address f b = no_fuel
  access c (suc n) address f (block i s) = enter c (access c n address f) f address s (settle c i)
