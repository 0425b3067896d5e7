-- ===== src/Monitor.antt =====
-- The exclusive monitor, systemc-components/exclusive_monitor/include/exclusive-monitor.h: locks on
-- address ranges that exclusive loads take and stores release.

pub mod Ids
pub mod Find
pub mod Locks
pub mod Reserve
pub mod Load
pub mod Store
pub mod Step
pub mod History
pub mod Grant
mod Tests
pub mod Transport
use qbox.Base.{
  ℕ, zero, suc, ◌+◌, ◌-◌, Bool, true, false, not, ◌&&◌, List, [], ◌∷◌, Option, none, some, length,
  drop, ltb, leb, ◌==◌, if◌then◌else◌, is_some,
}
use qbox.Base.Word.{add64, sub64}
use qbox.Base.OrdMap.{Map, lookup, assign, erase, lower_bound, upper_bound, step_back}
use qbox.Tlm.{
  Command, read, write, ignore, Response, ok, incomplete, generic_error, address_error,
  command_error, burst_error, byte_enable_error, Dmi, StoreStatus, success, failure, Payload,
}

-- `InitiatorId`, a vector, and its `operator==`.
abbrev pub InitiatorId : Type 0
InitiatorId = List ℕ

unfoldable pub same_id : InitiatorId → InitiatorId → Bool
same_id [] [] = true
same_id [] (y ∷ ys) = false
same_id (x ∷ xs) [] = false
same_id (x ∷ xs) (y ∷ ys) = (x == y) && same_id xs ys

-- `Region`: both addresses belong to it.
pub record Region : Type 0 where
  pub start : ℕ
  pub end : ℕ
  pub id : InitiatorId

-- The last address of a transaction, in 64 bits.
abbrev pub last_address : Payload → ℕ
last_address p = sub64 (add64 p.address p.data_length) 1

abbrev pub region_of : Payload → InitiatorId → Region
region_of p i = record { start = p.address; end = last_address p; id = i }

unfoldable pub is_exact_match : Region → Payload → Bool
is_exact_match r p = (r.start == p.address) && (r.end == sub64 (add64 r.start p.data_length) 1)

-- `m_regions`, and `m_regions_by_id` as a function, since the code never walks it.
pub record Monitor : Type 0 where
  pub regions : Map Region
  pub by_id : InitiatorId → Option Region

unfoldable pub scan : ℕ → ℕ → Map Region → Option Region
scan start end [] = none
scan start end ((k, r) ∷ m) =
    let rest = scan start end m in
    if ltb r.end start then rest else if ltb end r.start then none else some r

-- `find_region`
unfoldable pub find_region : Payload → Map Region → Option Region
find_region p m = scan p.address (last_address p) (drop (step_back (lower_bound p.address m)) m)

-- The calls of `invalidate_direct_mem_ptr` on the front socket.
abbrev pub Ranges : Type 0
Ranges = List (ℕ × ℕ)

-- `lock_region`; `none` is a failed assertion, here and below.
unfoldable pub lock_region : Payload → InitiatorId → Monitor → Option (Monitor × Ranges)
lock_region p i s =
    if is_some (find_region p s.regions)
    then none
    else some (
      record {
        regions = assign p.address (region_of p i) s.regions;
        by_id = λ j. if same_id i j then some (region_of p i) else s.by_id j;
      },
      (p.address, last_address p) ∷ [],
    )

-- `unlock_region`
unfoldable pub unlock_region : Region → Monitor → Option Monitor
unlock_region r s =
    if is_some (lookup r.start s.regions) && is_some (s.by_id r.id)
    then some (record {
      regions = erase r.start s.regions;
      by_id = λ j. if same_id r.id j then none else s.by_id j;
    })
    else none

-- `unlock_region_by_id`
abbrev pub unlock_found : Option Region → Monitor → Option Monitor
unlock_found none s = some s
unlock_found (some r) s = unlock_region r s

unfoldable pub unlock_region_by_id : InitiatorId → Monitor → Option Monitor
unlock_region_by_id i s = unlock_found (s.by_id i) s

abbrev pub then_lock : Payload → InitiatorId → Option Monitor → Option (Monitor × Ranges)
then_lock p i none = none
then_lock p i (some s) = lock_region p i s

abbrev pub load_of : Payload → InitiatorId → Option Region → Monitor → Option (Monitor × Ranges)
load_of p i (some r) s = some (s, [])
load_of p i none s = then_lock p i (unlock_region_by_id i s)

-- `handle_exclusive_load`; a transaction with no `PathIDExtension` is a null pointer.
abbrev pub load_as : Payload → Option InitiatorId → Monitor → Option (Monitor × Ranges)
load_as p none s = none
load_as p (some i) s = load_of p i (find_region p s.regions) s

unfoldable pub handle_exclusive_load : Payload → Monitor → Option (Monitor × Ranges)
handle_exclusive_load p s = load_as p p.path s

-- The new state, the payload with the outcome, and whether the store goes on.
abbrev pub Stored : Type 0
Stored = Option (Monitor × Payload × Bool)

abbrev pub store_fails : Payload → Monitor → Stored
store_fails p s = some (s, record p { exclusive = some failure }, false)

abbrev pub store_succeeds : Payload → Option Monitor → Stored
store_succeeds p none = none
store_succeeds p (some s) = some (s, record p { exclusive = some success }, true)

abbrev pub store_as : Payload → Option InitiatorId → Region → Monitor → Stored
store_as p none r s = none
store_as p (some i) r s =
    if same_id r.id i
    then if is_exact_match r p then store_succeeds p (unlock_region r s) else store_fails p s
    else store_fails p s

abbrev pub store_to : Payload → Option Region → Monitor → Stored
store_to p none s = store_fails p s
store_to p (some r) s = store_as p p.path r s

-- `handle_exclusive_store`
unfoldable pub handle_exclusive_store : Payload → Monitor → Stored
handle_exclusive_store p s = store_to p (find_region p s.regions) s

-- `handle_regular_store`: the loop on fuel, `none` also if the fuel runs out. Each round erases a
-- region, so one more than there are regions is enough.
abbrev pub continue_with : (Monitor → Option Monitor) → Option Monitor → Option Monitor
continue_with loop none = none
continue_with loop (some s) = loop s

abbrev pub round : (Monitor → Option Monitor) → Monitor → Option Region → Option Monitor
round loop s none = some s
round loop s (some r) = continue_with loop (unlock_region r s)

unfoldable pub unlock_all : ℕ → Payload → Monitor → Option Monitor
unlock_all zero p s = none
unlock_all (suc n) p s = round (unlock_all n p) s (find_region p s.regions)

unfoldable pub handle_regular_store : Payload → Monitor → Option Monitor
handle_regular_store p s = unlock_all (suc (length s.regions)) p s
