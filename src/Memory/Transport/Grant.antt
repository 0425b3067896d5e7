-- ===== src/Memory/Transport/Grant.antt =====
-- The DMI grants of the memory.
use qbox.Base.{ℕ, ◌+◌, ◌-◌, ◌^◌, ◌≤◌, ◌<◌, ◌≡◌, some, arith, if◌then◌else◌}
use qbox.Base.Word.{add64, sub64}
use qbox.Tlm.{read_allowed, read_write_allowed, Dmi}
use qbox.Memory.{Area, Config, Block}
use qbox.Memory.Storage.{Memory}
use qbox.Memory.Storage.Turn.{byte_at, place_at}

-- The first address of the window of a memory that holds the offset 0.
abbrev pub start_of : Memory → ℕ
start_of m = if m.m_relative_addresses then 0 else m.m_address

-- The window of a descriptor lies in the memory, and each of its addresses is shown at the place in
-- the host that an access has its byte from.
pub record Shows (c : Config) (m : Memory) (b : Block) (addr : ℕ) (d : Dmi) (r : Area)
    : Type 0 where
  pub holds : (d.start_address ≤ addr) × (addr ≤ d.end_address)
  pub inside : (start_of m ≤ d.start_address) × (d.end_address < start_of m + m.m_size)
  pub pointer : d.ptr ≡ r.ptr
  pub places :
      (x : ℕ)
      → d.start_address ≤ x
      → x ≤ d.end_address
      → place_at c (x - start_of m) b ≡ some (d.ptr + (x - d.start_address))
  pub rights : d.access ≡ (if c.rom then read_allowed else read_write_allowed)
  pub shown :
      (x : ℕ)
      → d.start_address ≤ x
      → x ≤ d.end_address
      → byte_at c (x - start_of m) b ≡ some (r.bytes (x - d.start_address))

window :
    (ad ln start size : ℕ)
    → ad + ln ≤ size
    → 0 < ln
    → start + size ≤ 2 ^ 64
    → (add64 ad start ≡ ad + start) × (sub64 (add64 (ad + start) ln) 1 ≡ ad + start + ln - 1)
window ad ln start size h k l = (omega arith, omega arith)
