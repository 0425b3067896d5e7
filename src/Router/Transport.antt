-- ===== src/Router/Transport.antt =====
-- The router's transactions: `b_transport`, `transport_dbg`, `get_direct_mem_ptr` and
-- `invalidate_direct_mem_ptr`, over an address map that is built already and the cache that never
-- keeps anything. What is bound behind the router is a parameter.
pub mod Forward
pub mod Grant
mod Tests
use qbox.Base.{
  ℕ, ◌+◌, ◌-◌, Bool, true, false, List, [], ◌∷◌, Option, none, some, ltb, ◌==◌, if◌then◌else◌,
}
use mathlib.Core.Option
use qbox.Base.Word.{add64, sub64}
use qbox.Base.OrdMap.{Map}
use qbox.Tlm.{
  Dmi, Payload, Response, ok, incomplete, generic_error, address_error, command_error, burst_error,
  byte_enable_error,
}
use qbox.Router.Target.{Target}
use qbox.Router.AddressMap.{Region, Bounds, search_map, find_region}
use qbox.Router.Dmi.{DmiInfo, Invalidation, record_dmi, invalidate_ts}

-- The router's own state. The pool holds path extensions that are out of use.
pub record Router : Type 0 where
  pub regions : Map Region
  pub dmi_info : Map DmiInfo
  pub pool : List (List ℕ)

-- What the targets do, by the index of the socket that they are bound to.
pub record Targets : Type 0 where
  pub transport : ℕ → Payload → Payload
  pub debug : ℕ → Payload → ℕ × Payload
  pub direct : ℕ → Payload → Dmi → Bool × Dmi × Payload

-- `stamp_txn`
abbrev pub stamp_new : ℕ → List (List ℕ) → Payload → List (List ℕ) × Payload
stamp_new id [] p = ([], record p { path = some (id ∷ []) })
stamp_new id (e ∷ es) p = (es, record p { path = some (id ∷ e) })

abbrev pub stamp_path : ℕ → List (List ℕ) → Payload → Option (List ℕ) → List (List ℕ) × Payload
stamp_path id pool p none = stamp_new id pool p
stamp_path id pool p (some e) = (pool, record p { path = some (id ∷ e) })

unfoldable pub stamp_txn : ℕ → List (List ℕ) → Payload → List (List ℕ) × Payload
stamp_txn id pool p = stamp_path id pool p p.path

-- `unstamp_txn`; `none` is a failed assertion.
abbrev pub unstamp_rest : List (List ℕ) → Payload → List ℕ → List (List ℕ) × Payload
unstamp_rest pool p [] = ([] ∷ pool, record p { path = none })
unstamp_rest pool p (x ∷ xs) = (pool, record p { path = some (x ∷ xs) })

abbrev pub unstamp_path :
    ℕ → List (List ℕ) → Payload → Option (List ℕ) → Option (List (List ℕ) × Payload)
unstamp_path id pool p none = none
unstamp_path id pool p (some []) = none
unstamp_path id pool p (some (x ∷ xs)) = if x == id then some (unstamp_rest pool p xs) else none

unfoldable pub unstamp_txn : ℕ → List (List ℕ) → Payload → Option (List (List ℕ) × Payload)
unstamp_txn id pool p = unstamp_path id pool p p.path

-- `get_response_status() >= TLM_INCOMPLETE_RESPONSE`
abbrev pub not_failed : Response → Bool
not_failed ok = true
not_failed incomplete = true
not_failed generic_error = false
not_failed address_error = false
not_failed command_error = false
not_failed burst_error = false
not_failed byte_enable_error = false

-- The address that a target sees.
abbrev pub local_address : Target → ℕ → ℕ
local_address t addr = if t.use_offset then sub64 addr t.address else addr

-- A grant in the addresses of the router; `none` is the failed assertion on its start.
unfoldable pub to_global : Target → Dmi → Option Dmi
to_global t d =
    if t.use_offset
    then if ltb d.start_address t.size
      then some (record d {
        start_address = add64 t.address d.start_address;
        end_address = add64 t.address d.end_address;
      })
      else none
    else some d

-- No grant overspills the bounds of the address map.
abbrev pub clamp_start : Bounds → Dmi → Dmi
clamp_start b d =
    if ltb d.start_address b.first
    then record d { ptr = d.ptr + (b.first - d.start_address); start_address = b.first }
    else d

abbrev pub clamp_end : Bounds → Dmi → Dmi
clamp_end b d = if ltb b.last d.end_address then record d { end_address = b.last } else d

unfoldable pub clamp : Bounds → Dmi → Dmi
clamp b d = clamp_end b (clamp_start b d)

-- What a DMI request leaves: the answer, the descriptor, the payload, the router and its calls.
pub record Reply : Type 0 where
  pub granted : Bool
  pub dmi : Dmi
  pub payload : Payload
  pub router : Router
  pub calls : List Invalidation

-- `add_dmi` on the extension, if there is one.
abbrev pub note_bounds : Bounds → Bool → Payload → Payload
note_bounds b mapped p = record p {
  underlying = Option.map (λ es. (b.first, b.last, mapped) ∷ es) p.underlying;
}

-- `record_dmi` at the end of a grant; `none` is the error that it reports.
unfoldable pub recorded :
    Router → ℕ → Dmi → Payload → Option (Map DmiInfo) × List Invalidation → Option Reply
recorded r id d p (none, calls) = none
recorded r id d p (some m, calls) = some (record {
  granted = true;
  dmi = d;
  payload = p;
  router = record r { dmi_info = m };
  calls = calls;
})

unfoldable pub pass_on : Router → ℕ → Bounds → Payload → Option Dmi → Option Reply
unfolding recorded clamp
pass_on r id b p none = none
pass_on r id b p (some d) = recorded r id (clamp b d) p (record_dmi id (clamp b d) r.dmi_info)

unfoldable pub refused : Router → Dmi → Payload → Option Reply
refused r d p = some (record { granted = false; dmi = d; payload = p; router = r; calls = [] })

-- After the target has answered.
unfoldable pub respond : Router → ℕ → Bounds → Target → Dmi → Payload → Bool → Option Reply
unfolding pass_on refused to_global
respond r id b t d p true = pass_on r id b p (to_global t d)
respond r id b t d p false = refused r d p

abbrev pub finish : Router → Option (List (List ℕ) × Payload) → Option (Router × Payload)
finish r none = none
finish r (some (pool, p)) = some (record r { pool = pool }, p)

module _ (targets : Targets) where
  unfoldable pub forward : Target → Payload → Payload
  forward t p =
      let q = targets.transport t.index (record p { address = local_address t p.address }) in
      if t.use_offset then record q { address = p.address } else q

  -- Nothing is sent where an earlier hop has failed.
  abbrev pub send : Target → Payload → Payload
  send t p = if not_failed p.response then forward t p else p

  unfoldable pub b_transport_to : Router → ℕ → Payload → Option Target → Option (Router × Payload)
  unfolding forward stamp_txn unstamp_txn
  b_transport_to r id p none = some (r, record p { response = address_error })
  b_transport_to r id p (some t) =
      let (pool, q) = stamp_txn id r.pool p in finish r (unstamp_txn id pool (send t q))

  -- `b_transport`
  unfoldable pub b_transport : Router → ℕ → Payload → Option (Router × Payload)
  unfolding b_transport_to
  b_transport r id p = b_transport_to r id p (search_map r.regions p.address)

  unfoldable pub transport_dbg_to : Payload → Option Target → ℕ × Payload
  transport_dbg_to p none = (0, record p { response = address_error })
  transport_dbg_to p (some t) =
      let (n, q) = targets.debug t.index (record p { address = local_address t p.address }) in
      (n, if t.use_offset then record q { address = p.address } else q)

  -- `transport_dbg`, which leaves the router as it is.
  unfoldable pub transport_dbg : Router → ℕ → Payload → ℕ × Payload
  unfolding transport_dbg_to
  transport_dbg r id p = transport_dbg_to p (search_map r.regions p.address)

  unfoldable pub direct_to : Router → ℕ → Payload → Dmi → Option Target × Bounds → Option Reply
  unfolding respond
  direct_to r id p d (none, b) = refused r d (note_bounds b false p)
  direct_to r id p d (some t, b) =
      let p' = note_bounds b true p in
      let (granted, d', q) =
        targets.direct t.index (record p' { address = local_address t p.address }) d in
      respond r id b t d' (if t.use_offset then record q { address = p.address } else q) granted

  -- `get_direct_mem_ptr`
  unfoldable pub get_direct_mem_ptr : Router → ℕ → Payload → Dmi → Option Reply
  unfolding direct_to
  get_direct_mem_ptr r id p d = direct_to r id p d (find_region r.regions p.address)

-- `invalidate_direct_mem_ptr`: the target's addresses become the router's.
unfoldable pub invalidate_direct_mem_ptr : Target → ℕ → ℕ → Router → Router × List Invalidation
invalidate_direct_mem_ptr t start end r =
    let first = if t.use_offset then add64 t.address start else start in
    let last = if t.use_offset then add64 t.address end else end in
    let (m, calls) = invalidate_ts first last r.dmi_info in (record r { dmi_info = m }, calls)
