-- ===== src/Monitor/Transport.antt =====
-- The monitor's transactions: `before_b_transport`, `after_b_transport`, `b_transport` and
-- `get_direct_mem_ptr`. What stands behind the monitor is a parameter.
use qbox.Base.{
  ℕ, ◌+◌, ◌-◌, Bool, true, false, ◌&&◌, [], ◌∷◌, Option, none, some, drop, ltb, leb, if◌then◌else◌,
  is_some,
}
use qbox.Base.OrdMap.{Map, upper_bound, step_back}
use qbox.Tlm.{
  Command, read, write, ignore, Response, ok, incomplete, generic_error, address_error,
  command_error, burst_error, byte_enable_error, Dmi, StoreStatus, Payload,
}
use qbox.Monitor.{
  Region, Monitor, Ranges, Stored, find_region, handle_exclusive_load, handle_exclusive_store,
  handle_regular_store,
}

-- `before_b_transport`
abbrev pub stored_regular : Payload → Option Monitor → Stored
stored_regular p none = none
stored_regular p (some s) = some (s, p, true)

abbrev pub before_store : Payload → Option StoreStatus → Monitor → Stored
before_store p (some x) s = handle_exclusive_store p s
before_store p none s = stored_regular p (handle_regular_store p s)

abbrev pub before_command : Payload → Command → Monitor → Stored
before_command p write s = before_store p p.exclusive s
before_command p read s = some (s, p, true)
before_command p ignore s = some (s, p, true)

unfoldable pub before_b_transport : Payload → Monitor → Stored
before_b_transport p s = before_command p p.command s

-- `after_b_transport`: whether the DMI hint goes away.
abbrev pub Loaded : Type 0
Loaded = Option (Monitor × Ranges × Bool)

abbrev pub loaded : Option (Monitor × Ranges) → Loaded
loaded none = none
loaded (some (s, calls)) = some (s, calls, true)

abbrev pub after_load : Payload → Option StoreStatus → Monitor → Loaded
after_load p none s = some (s, [], is_some (find_region p s.regions))
after_load p (some x) s = loaded (handle_exclusive_load p s)

abbrev pub after_command : Payload → Command → Monitor → Loaded
after_command p write s = some (s, [], false)
after_command p read s = after_load p p.exclusive s
after_command p ignore s = after_load p p.exclusive s

unfoldable pub after_b_transport : Payload → Monitor → Loaded
after_b_transport p s = after_command p p.command s

abbrev pub is_ok : Response → Bool
is_ok ok = true
is_ok incomplete = false
is_ok generic_error = false
is_ok address_error = false
is_ok command_error = false
is_ok burst_error = false
is_ok byte_enable_error = false

-- What `b_transport` leaves: the state, the payload and the calls on the front socket.
abbrev pub Done : Type 0
Done = Option (Monitor × Payload × Ranges)

abbrev pub hint : Payload → Loaded → Done
hint q none = none
hint q (some (s, calls, true)) = some (s, record q { dmi_allowed = false }, calls)
hint q (some (s, calls, false)) = some (s, q, calls)

module _ (target : Payload → Payload) where
  -- `txn_copy` is the payload as it was sent.
  abbrev pub forward : Payload → Monitor → Done
  forward p s =
      if is_ok (target p).response
      then hint (target p) (after_b_transport p s)
      else some (s, target p, [])

  abbrev pub transport_after : Stored → Done
  transport_after none = none
  transport_after (some (s, p, true)) = forward p s
  transport_after (some (s, p, false)) = some (s, record p { response = generic_error }, [])

  -- `b_transport`
  unfoldable pub b_transport : Payload → Monitor → Done
  b_transport p s = transport_after (before_b_transport p s)

-- The loop of `get_direct_mem_ptr` over the locks, from an iterator on; `none` where a lock holds
-- the requested address.
unfoldable pub fix : ℕ → ℕ → ℕ → Map Region → Option (ℕ × ℕ)
fix at start end [] = some (start, end)
fix at start end ((k, r) ∷ m) =
    let skip = fix at start end m in
    let left = fix at (if ltb r.end at then r.end + 1 else start) end m in
    if ltb r.end start
    then skip
    else if ltb end r.start
    then some (start, end)
    else if leb r.start at && leb at r.end
    then none
    else if ltb at r.start
    then some (if ltb r.end at then r.end + 1 else start, r.start - 1)
    else left

abbrev pub fixed : Dmi → Option (ℕ × ℕ) → Option Dmi
fixed d none = none
fixed d (some (s, e)) =
    some (record d { ptr = d.ptr + (s - d.start_address); start_address = s; end_address = e })

-- `get_direct_mem_ptr`, with what the target granted; `none` refuses.
unfoldable pub fix_grant : ℕ → Dmi → Map Region → Option Dmi
unfolding fix
fix_grant at d m =
    fixed d (fix at d.start_address d.end_address (drop (step_back (upper_bound at m)) m))

unfoldable pub get_direct_mem_ptr : Payload → Option Dmi → Monitor → Option Dmi
unfolding fix_grant
get_direct_mem_ptr p none s = none
get_direct_mem_ptr p (some d) s = fix_grant p.address d s.regions
