-- ===== src/Smmu/Tlb.antt =====
-- The cache of translations (IOTLB) of systemc-components/smmuv3/include/smmuv3.h: a hash map from
-- keys to entries, and the list of its keys, the one that was inserted last first.
pub mod Keys
pub mod Consistent
pub mod Invalidate
use Prim.Native.Nat.{bit_and, bit_xor}
use qbox.Base.{
  ℕ, ◌-◌, ◌%◌, ◌^◌, Bool, true, false, ◌&&◌, Option, none, some, List, [], ◌∷◌, map, length, leb,
  ◌==◌, if◌then◌else◌,
}
use qbox.Base.Outcomes.{Outcome, done, fatal}
use qbox.Smmu.{AccessFlags}

-- `IOMMUTLBEntry` and `IOTLBKey`
pub record TlbEntry : Type 0 where
  pub iova : ℕ
  pub translated_addr : ℕ
  pub addr_mask : ℕ
  pub perm : AccessFlags
  pub descriptor : ℕ
  pub table_attrs : ℕ
  pub fault_type : ℕ
  pub fault_level : ℕ
  pub stallable_fault : Bool

pub record TlbKey : Type 0 where
  pub vmid : ℕ
  pub asid : ℕ
  pub iova : ℕ
  pub tg : ℕ
  pub level : ℕ
  pub secure : Bool
  pub regime : ℕ

abbrev pub same_bool : Bool → Bool → Bool
same_bool true b = b
same_bool false true = false
same_bool false false = true

-- `operator==`
unfoldable pub same_key : TlbKey → TlbKey → Bool
same_key k o =
    (k.vmid == o.vmid)
    && (k.asid == o.asid)
    && (k.iova == o.iova)
    && (k.tg == o.tg)
    && (k.level == o.level)
    && same_bool k.secure o.secure
    && (k.regime == o.regime)

abbrev pub TlbMap : Type 0
TlbMap = List (TlbKey × TlbEntry)

pub record Tlb : Type 0 where
  pub m_iotlb : TlbMap
  pub m_iotlb_lru : List TlbKey

-- `find`, `erase` and `operator[]` of the map, `remove`, `back` and `pop_back` of the list
unfoldable pub find : TlbKey → TlbMap → Option TlbEntry
find k [] = none
find k ((o, e) ∷ m) = if same_key k o then some e else find k m

unfoldable pub erase : TlbKey → TlbMap → TlbMap
erase k [] = []
erase k ((o, e) ∷ m) = let rest = erase k m in if same_key k o then rest else (o, e) ∷ rest

abbrev pub assign : TlbKey → TlbEntry → TlbMap → TlbMap
assign k e m = (k, e) ∷ erase k m

unfoldable pub remove : TlbKey → List TlbKey → List TlbKey
remove k [] = []
remove k (o ∷ l) = let rest = remove k l in if same_key k o then rest else o ∷ rest

unfoldable pub back : List TlbKey → Option TlbKey
back [] = none
back (k ∷ []) = some k
back (k ∷ o ∷ l) = back (o ∷ l)

unfoldable pub pop_back : List TlbKey → List TlbKey
pop_back [] = []
pop_back (k ∷ []) = []
pop_back (k ∷ o ∷ l) = k ∷ pop_back (o ∷ l)

-- `iotlb_insert`. Without entries `back` is undefined.
abbrev pub has : Option TlbEntry → Bool
has none = false
has (some e) = true

abbrev pub make_room : Option TlbKey → Tlb → Outcome Tlb
make_room none t = fatal
make_room (some k) t =
    done (record { m_iotlb = erase k t.m_iotlb; m_iotlb_lru = pop_back t.m_iotlb_lru })

abbrev pub placed : TlbKey → TlbEntry → Outcome Tlb → Outcome Tlb
placed k e (done t) =
    done (record { m_iotlb = assign k e t.m_iotlb; m_iotlb_lru = k ∷ t.m_iotlb_lru })
placed k e r = r

unfoldable pub iotlb_insert : ℕ → TlbKey → TlbEntry → Tlb → Outcome Tlb
iotlb_insert size k e t = placed k e (
    if has (find k t.m_iotlb)
    then done (record t { m_iotlb_lru = remove k t.m_iotlb_lru })
    else if leb size (length t.m_iotlb)
    then make_room (back t.m_iotlb_lru) t
    else done t)

unfoldable pub iotlb_lookup : TlbKey → Tlb → Option TlbEntry
iotlb_lookup k t = find k t.m_iotlb

unfoldable pub iotlb_inv_all : Tlb → Tlb
iotlb_inv_all t = record { m_iotlb = []; m_iotlb_lru = [] }

-- The loop that the other three invalidations share, by its test.
unfoldable pub sweep : (TlbKey → Bool) → TlbMap → List TlbKey → Tlb
sweep p [] l = record { m_iotlb = []; m_iotlb_lru = l }
sweep p ((k, e) ∷ m) l =
    let gone = sweep p m (remove k l) in
    let rest = sweep p m l in if p k then gone else record rest { m_iotlb = (k, e) ∷ rest.m_iotlb }

unfoldable pub invalidate : (TlbKey → Bool) → Tlb → Tlb
invalidate p t = sweep p t.m_iotlb t.m_iotlb_lru

abbrev pub of_asid : ℕ → TlbKey → Bool
of_asid asid k = k.asid == asid

abbrev pub of_vmid : ℕ → TlbKey → Bool
of_vmid vmid k = k.vmid == vmid

-- `iova & ~addr_mask`
abbrev pub unmasked : ℕ → ℕ → ℕ
unmasked addr_mask iova = bit_and iova (bit_xor addr_mask (2 ^ 64 - 1))

abbrev pub of_iova : ℕ → ℕ → ℕ → ℕ → ℕ → TlbKey → Bool
of_iova vmid asid iova tg addr_mask k =
    (k.vmid == vmid)
    && (k.asid == asid)
    && (unmasked addr_mask k.iova == unmasked addr_mask iova)
    && (k.tg == tg)

unfoldable pub iotlb_inv_asid : ℕ → Tlb → Tlb
iotlb_inv_asid asid = invalidate (of_asid asid)

unfoldable pub iotlb_inv_vmid : ℕ → Tlb → Tlb
iotlb_inv_vmid vmid = invalidate (of_vmid vmid)

unfoldable pub iotlb_inv_iova : ℕ → ℕ → ℕ → ℕ → ℕ → Tlb → Tlb
iotlb_inv_iova vmid asid iova tg addr_mask = invalidate (of_iova vmid asid iova tg addr_mask)
