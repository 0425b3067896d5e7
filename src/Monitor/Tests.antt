-- ===== src/Monitor/Tests.antt =====
-- Two initiators on the monitor: one takes a lock on eight bytes, and both store there.
use qbox.Base.{List, ℕ, ◌≡◌, ◌≢◌, refl, true, false, [], ◌∷◌, none, some, arith}
use qbox.Base.OrdMap.{lookup, assign, lower_bound}
use qbox.Tlm.{
  read, write, ok, incomplete, not_applicable, success, read_write_allowed, Dmi, Payload,
}
use qbox.Monitor.{
  InitiatorId, same_id, Region, Monitor, region_of, is_exact_match, find_region, scan, lock_region,
  unlock_region, unlock_region_by_id, handle_exclusive_load, handle_exclusive_store,
}
use qbox.Monitor.Find.{IsProper}
use qbox.Monitor.Locks.{IsValid, locked, locked-IsValid}
use qbox.Monitor.Reserve.{IsClear, find_region-clear}
use qbox.Monitor.Load.{IsReserved, IsReleased, handle_exclusive_load-reserves}
use qbox.Monitor.Store.{handle_exclusive_store-owned}
use qbox.Monitor.Transport.{before_b_transport, after_b_transport, b_transport, get_direct_mem_ptr}
use qbox.Monitor.History.{
  goes_on, IsRequest, run, Completes, Reserved, b_transport-Completes, run-Reserved,
  exclusive_store-Reserved,
}
use qbox.Monitor.Grant.{IsSafe, get_direct_mem_ptr-IsSafe}

abbrev load : InitiatorId → ℕ → Payload
load i a = record {
  command = read;
  address = a;
  bytes = [];
  data_length = 8;
  byte_enable = none;
  streaming_width = 8;
  dmi_allowed = false;
  response = incomplete;
  path = some i;
  exclusive = some not_applicable;
  underlying = none;
}

abbrev first : InitiatorId
first = 3 ∷ []

abbrev second : InitiatorId
second = 4 ∷ []

abbrev idle : Monitor
idle = record { regions = []; by_id = λ j. none }

nothing : (r : Region) → lookup r.start idle.regions ≡ some r → none ≡ some r
unfolding lookup
nothing r h = h

idle-IsValid : IsValid idle
idle-IsValid = record {
  chain = tt;
  keys = tt;
  listed = λ r h. absurd (ground (arith, nothing r h));
  owned = λ i r h. absurd (ground (arith, h));
}

idle-IsClear : (p : Payload) → IsClear p idle
idle-IsClear p j r h m = ground (arith, h)

-- The state after `first` has loaded at 4096.
abbrev held : Monitor
held = locked (load first 4096) first idle

proper : IsProper (load first 4096)
proper = (omega arith, omega arith)

held-IsValid : IsValid held
held-IsValid =
    locked-IsValid idle idle-IsValid (load first 4096) first proper
      (find_region-clear idle idle-IsValid (load first 4096) (idle-IsClear (load first 4096))) refl

own_lock : held.by_id first ≡ some (region_of (load first 4096) first)
unfolding same_id
own_lock = refl

no_lock : held.by_id second ≢ some (region_of (load second 4096) second)
unfolding same_id
no_lock e = ground (arith, e)

handle_exclusive_load-reserves_example :
    (t : Monitor) × (handle_exclusive_load (load first 4096) idle ≡ some (t, (4096, 4103) ∷ []))
    × IsValid t
    × IsReserved (load first 4096) first idle t
handle_exclusive_load-reserves_example =
    handle_exclusive_load-reserves (load first 4096) first idle idle-IsValid refl proper
      (idle-IsClear (load first 4096))

handle_exclusive_store-owned_example :
    (t : Monitor) × (handle_exclusive_store (load first 4096) held
      ≡ some (t, record (load first 4096) { exclusive = some success }, true))
    × IsValid t
    × IsReleased first held t
handle_exclusive_store-owned_example =
    handle_exclusive_store-owned (load first 4096) first held held-IsValid refl proper own_lock

abbrev answers_ok : Payload → Payload
answers_ok q = record q { response = ok }

load-IsRequest : IsRequest (load first 4096)
load-IsRequest = ((first, refl), proper)

abbrev one_load : List Payload
one_load = load first 4096 ∷ []

b_transport-Completes_example :
    Completes answers_ok (load first 4096) idle (b_transport answers_ok (load first 4096) idle)
b_transport-Completes_example =
    b_transport-Completes answers_ok (load first 4096) idle idle-IsValid load-IsRequest

run-Reserved_example :
    IsValid (run answers_ok one_load idle)
    × ((j : InitiatorId) (r : Region)
        → (run answers_ok one_load idle).by_id j ≡ some r
        → Reserved answers_ok j r one_load idle)
run-Reserved_example = run-Reserved answers_ok one_load idle idle-IsValid (load-IsRequest, tt)

abbrev store : Payload
store = record (load first 4096) { command = write }

stored : goes_on (before_b_transport store (run answers_ok one_load idle)) ≡ true
unfolding b_transport before_b_transport after_b_transport handle_exclusive_load
    handle_exclusive_store find_region scan lower_bound lock_region unlock_region
    unlock_region_by_id same_id is_exact_match lookup assign
stored = refl

exclusive_store-Reserved_example : Reserved answers_ok first (region_of store first) one_load idle
exclusive_store-Reserved_example =
    exclusive_store-Reserved answers_ok one_load idle store first not_applicable idle-IsValid
      (load-IsRequest, tt) refl proper refl refl stored

abbrev page : Dmi
page = record { ptr = 4096; start_address = 0; end_address = 8191; access = read_write_allowed }

get_direct_mem_ptr-IsSafe_example :
    IsSafe 100 page held.regions (get_direct_mem_ptr (load second 100) (some page) held)
get_direct_mem_ptr-IsSafe_example =
    get_direct_mem_ptr-IsSafe (load second 100) page held held-IsValid (omega arith) (omega arith)
