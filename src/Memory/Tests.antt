-- ===== src/Memory/Tests.antt =====
-- A memory of 64 bytes at 0x1000, in four blocks of 16 bytes.
use qbox.Base.{
  ℕ, ◌+◌, ◌≡◌, refl, true, false, List, [], ◌∷◌, none, some, arith, inl, inr, ltb, if◌then◌else◌,
}
use qbox.Base.Outcomes.{done}
use qbox.Tlm.{read, write, incomplete, address_error, Payload}
use qbox.Memory.{Area, Config, Block, block, new_info, no_subs}
use qbox.Memory.Tree.Fresh.{Gives}
use qbox.Memory.Storage.{Presets, Memory, base, before_end_of_elaboration, size}
use qbox.Memory.Storage.Contents.{IsReady, with_tree, fresh-IsUsable}
use qbox.Memory.Transport.{Chunk, bytes_of, b_transport, transport_dbg}
use qbox.Memory.Transport.Whole.{IsInRange, answered, b_transport-b_transport}
use qbox.Memory.Transport.Enabled.{EnabledBytes, b_transport-StoresEnabled}
use qbox.Memory.Transport.Reject.{beyond, b_transport-Refused}

abbrev host : ℕ → ℕ → Area
host address len = record { ptr = address + 4096; bytes = λ k. 0 }

abbrev config : Config
config = record {
  rom = false;
  dmi = true;
  max_block_size = 16;
  min_block_size = 4;
  has_map_file = false;
  shmem = false;
  init_mem = true;
  init_mem_val = 170;
  map_file = λ a l. none;
  map_mem_create = λ a l. none;
  alloc = λ a l. if ltb 16 l then none else some (host a l);
}

config-Gives : Gives config
config-Gives a l h = let small : ltb 16 l ≡ false = ground (arith, h) in (host a l, rw small refl)

abbrev presets : Presets
presets = record {
  own = record { address = some 4096; size = some 64 };
  alias = none;
  relative_addresses = some false;
}

abbrev unborn : Memory
unborn = record {
  m_size = 0;
  m_address = 0;
  m_address_valid = false;
  m_relative_addresses = false;
  m_sub_block = none;
}

abbrev memory : Memory
memory = record {
  m_size = 64;
  m_address = 4096;
  m_address_valid = true;
  m_relative_addresses = false;
  m_sub_block = some (block (new_info 0 64) no_subs);
}

abbrev tree : Block
tree = block (new_info 0 64) no_subs

elaborated_memory : before_end_of_elaboration presets unborn ≡ done (memory, tree)
unfolding before_end_of_elaboration base size
elaborated_memory = refl

tree-IsReady : IsReady config memory tree
tree-IsReady = record {
  tree = refl;
  usable =
      fresh-IsUsable config 64 config-Gives
        (inr (omega arith, refl, omega arith, inl (omega arith)));
  bounded = omega arith;
}

-- Six bytes over the border of two blocks.
abbrev six : Payload
six = record {
  command = write;
  address = 4108;
  bytes = 1 ∷ 2 ∷ 3 ∷ 4 ∷ 5 ∷ 6 ∷ [];
  data_length = 6;
  byte_enable = none;
  streaming_width = 6;
  dmi_allowed = false;
  response = incomplete;
  path = none;
  exclusive = none;
  underlying = none;
}

abbrev fetch : Payload
fetch = record six { command = read; bytes = 0 ∷ 0 ∷ 0 ∷ 0 ∷ 0 ∷ 0 ∷ [] }

abbrev masked : Payload
masked = record six { byte_enable = some (255 ∷ 0 ∷ []) }

abbrev beyond_end : Payload
beyond_end = record six { address = 4156 }

six-IsInRange : IsInRange memory six 12
six-IsInRange = record { offset = refl; fits = omega arith; streams = omega arith; shown = refl }

fetch-IsInRange : IsInRange memory fetch 12
fetch-IsInRange = record { offset = refl; fits = omega arith; streams = omega arith; shown = refl }

masked-IsInRange : IsInRange memory masked 12
masked-IsInRange = record { offset = refl; fits = omega arith; streams = omega arith; shown = refl }

six_then_fetch :
    (m : Memory) × (m' : Memory) × (b_transport config presets six memory
      ≡ done (answered config six six.bytes, m))
    × (b_transport config presets fetch m ≡ done (answered config fetch six.bytes, m'))
six_then_fetch =
    b_transport-b_transport config presets memory tree six fetch 12 tree-IsReady refl six-IsInRange
      fetch-IsInRange refl refl refl refl refl

masked_stored :
    (b' : Block) × (b_transport config presets masked memory
      ≡ done (answered config masked masked.bytes, with_tree memory b'))
    × IsReady config (with_tree memory b') b'
    × EnabledBytes config 64 12 0 6 (255 ∷ 0 ∷ []) (bytes_of masked.bytes) tree b'
masked_stored =
    b_transport-StoresEnabled config presets memory tree masked 12 (255 ∷ 0 ∷ []) tree-IsReady
      masked-IsInRange refl refl refl (omega arith)

beyond_refused :
    (b_transport config presets beyond_end memory
      ≡ done (record beyond_end { response = address_error }, memory))
    × (transport_dbg config presets beyond_end memory
        ≡ done (0, record beyond_end { response = address_error }, memory))
beyond_refused =
    b_transport-Refused config presets memory beyond_end address_error (omega arith) (omega arith)
      (beyond (omega arith) (omega arith) (omega arith))

-- The tree after its first access is split.
abbrev split_tree : Block
split_tree = block (record (new_info 0 64) { use_sub_blocks = true }) no_subs

-- The loader writes two bytes in the upper half, and one beyond the end.
abbrev chunks : List Chunk
chunks =
    record { bytes = bytes_of (7 ∷ 9 ∷ []); offset = 40; len = 2 }
    ∷ record { bytes = bytes_of (1 ∷ []); offset = 64; len = 1 }
    ∷ []
