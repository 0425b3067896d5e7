-- ===== src/RegRouter.antt =====
-- The register router, systemc-components/reg_router/include/reg_router.h: every transaction goes to
-- the callbacks that claim its address and to one target of register memory. What stands behind
-- its sockets is a parameter.
mod Tests
pub mod Decode
pub mod Callbacks
pub mod Peers
pub mod Deliver
use qbox.Base.{
  ℕ, zero, suc, ◌+◌, ◌-◌, ◌*◌, Bool, true, false, not, ◌&&◌, ◌||◌, List, [], ◌∷◌, ◌++◌, Option,
  none, some, ltb, leb, ◌==◌, if◌then◌else◌,
}
use qbox.Base.Outcomes.{Outcome, done, fatal, no_fuel}
use qbox.Base.Word.{add64, sub64}
use qbox.Tlm.{
  Response, ok, incomplete, generic_error, address_error, command_error, burst_error,
  byte_enable_error, Payload,
}
use qbox.Router.Target.{Target, claims}

-- `mem_targets` and `cb_targets`, the latter in the order of their addresses.
pub record RegRouter : Type 0 where
  pub mem_targets : List Target
  pub cb_targets : List Target

-- The order of the response states: what is below `incomplete` is an error.
abbrev pub is_error : Response → Bool
is_error ok = false
is_error incomplete = false
is_error generic_error = true
is_error address_error = true
is_error command_error = true
is_error burst_error = true
is_error byte_enable_error = true

abbrev pub is_ok : Response → Bool
is_ok ok = true
is_ok incomplete = false
is_ok generic_error = false
is_ok address_error = false
is_ok command_error = false
is_ok burst_error = false
is_ok byte_enable_error = false

-- `decode_address`: the loop with the best target so far. Two targets of one priority end the
-- simulation.
abbrev pub better :
    (Option Target → Outcome (Option Target)) → Target → Option Target → Outcome (Option Target)
better rest t none = rest (some t)
better rest t (some b) =
    if ltb t.priority b.priority
    then rest (some t)
    else if (t.priority == b.priority) && not (t.ref == b.ref)
    then fatal
    else rest (some b)

unfoldable pub decode : ℕ → List Target → Option Target → Outcome (Option Target)
decode addr [] best = done best
decode addr (t ∷ ts) best =
    if claims t addr then better (decode addr ts) t best else decode addr ts best

unfoldable pub decode_address : RegRouter → ℕ → Outcome (Option Target)
decode_address r addr = decode addr r.mem_targets none

-- `do_callbacks`: the loop that collects the claimants, with their priority.
abbrev pub collected : Target → List Target → ℕ → List Target × ℕ
collected t [] best_prio = (t ∷ [], t.priority)
collected t (c ∷ cs) best_prio =
    if ltb t.priority best_prio
    then (t ∷ [], t.priority)
    else if t.priority == best_prio
    then ((c ∷ cs) ++ (t ∷ []), best_prio)
    else (c ∷ cs, best_prio)

unfoldable pub collect : ℕ → List Target → List Target × ℕ → List Target × ℕ
collect addr [] acc = acc
collect addr (t ∷ ts) acc = collect addr ts (if claims t addr then collected t acc.0 acc.1 else acc)

abbrev pub claimants : ℕ → List Target → List Target
claimants addr ts = (collect addr ts ([], 0)).0

-- The sockets, and what stands behind them.
module _ {S : Type 0} (send : ℕ → Payload → S → Payload × S) where
  -- A call of one target, at its own address where it uses offsets.
  abbrev pub returned : Target → ℕ → Payload × S → Payload × S
  returned t addr (p, s) = (if t.use_offset then record p { address = addr } else p, s)

  abbrev pub call : Target → ℕ → Payload → S → Payload × S
  call t addr p s =
      returned t addr
        (send t.index (if t.use_offset then record p { address = sub64 addr t.address } else p) s)

  -- The loop over the claimants; an error ends it.
  unfoldable pub fan_out : List Target → ℕ → Payload → S → Payload × S
  fan_out [] addr p s = (p, s)
  fan_out (t ∷ ts) addr p s =
      let out = call t addr p s in
      let rest = fan_out ts addr out.0 out.1 in if is_error out.0.response then out else rest

  unfoldable pub do_callbacks : RegRouter → Payload → S → Payload × S
  do_callbacks r p s = fan_out (claimants p.address r.cb_targets) p.address p s

  -- `b_transport`
  abbrev pub to_memory : Target → ℕ → Payload × S → Payload × S
  to_memory t addr (p, s) = if is_error p.response then (p, s) else call t addr p s

  abbrev pub after_memory : RegRouter → Payload × S → Payload × S
  after_memory r (p, s) = if is_ok p.response then do_callbacks r p s else (p, s)

  abbrev pub without_dmi : RegRouter → Payload × S → Payload × S
  without_dmi r (p, s) = elim r.cb_targets [
    | [] ↦ (p, s)
    | t ∷ ts ↦ (record p { dmi_allowed = false }, s)
  ]

  abbrev pub b_transport_to :
      RegRouter → Payload → S → Outcome (Option Target) → Outcome (Payload × S)
  b_transport_to r p s (done none) = done (record p { response = address_error }, s)
  b_transport_to r p s (done (some t)) =
      done (without_dmi r (after_memory r (to_memory t p.address (do_callbacks r p s))))
  b_transport_to r p s fatal = fatal
  b_transport_to r p s no_fuel = no_fuel

  unfoldable pub b_transport : RegRouter → Payload → S → Outcome (Payload × S)
  b_transport r p s = b_transport_to r p s (decode_address r p.address)

-- `transport_dbg`: register memory only.
module _ {S : Type 0} (send : ℕ → Payload → S → ℕ × Payload × S) where
  abbrev pub debug_returned : Target → ℕ → ℕ × Payload × S → ℕ × Payload × S
  debug_returned t addr (n, p, s) = (n, if t.use_offset then record p { address = addr } else p, s)

  abbrev pub transport_dbg_to : Payload → S → Outcome (Option Target) → Outcome (ℕ × Payload × S)
  transport_dbg_to p s (done none) = done (0, record p { response = address_error }, s)
  transport_dbg_to p s (done (some t)) = done (
      debug_returned t p.address (
        send t.index (if t.use_offset then record p { address = sub64 p.address t.address } else p)
          s))
  transport_dbg_to p s fatal = fatal
  transport_dbg_to p s no_fuel = no_fuel

  unfoldable pub transport_dbg : RegRouter → Payload → S → Outcome (ℕ × Payload × S)
  transport_dbg r p s = transport_dbg_to p s (decode_address r p.address)

-- `lazy_initialize`, over targets whose configuration is read: the overlap tests, and the two
-- containers. The grid of `banks_element_overlap` is walked with the last dimension first, and a
-- count of 0 is as one of 1.
abbrev pub overlaps_range : Target → Target → Bool
overlaps_range t mem =
    (leb mem.address t.address && ltb (t.address - mem.address) mem.size)
    || (ltb t.address mem.address && ltb mem.address (add64 t.address t.size))

unfoldable pub any_byte : Target → ℕ → ℕ → Bool
any_byte b addr zero = false
any_byte b addr (suc n) = claims b addr || any_byte b (add64 addr 1) n

abbrev pub along : (ℕ → Bool) → ℕ → ℕ → ℕ → Bool
along f off stride zero = f off
along f off stride (suc n) = f off || along f (add64 off stride) stride n

unfoldable pub any_element : Target → Target → List (ℕ × ℕ) → ℕ → Bool
any_element a b [] off = any_byte b (add64 a.address off) a.elem_size
any_element a b ((stride, count) ∷ ds) off = along (any_element a b ds) off stride (count - 1)

abbrev pub grid : Target → List (ℕ × ℕ) → List (ℕ × ℕ)
grid a [] = (a.stride, 1) ∷ []
grid a (d ∷ ds) = d ∷ ds

unfoldable pub banks_element_overlap : Target → Target → Bool
banks_element_overlap a b = any_element a b (grid a a.dims) 0

abbrev pub is_gapped : Target → Bool
is_gapped t = not (t.stride == 0) || elim t.dims [ [] ↦ false | d ∷ ds ↦ true ]

abbrev pub warns : Target → Target → Bool
warns t mem =
    overlaps_range t mem
    && (if is_gapped t && is_gapped mem then banks_element_overlap t mem else true)

unfoldable pub warned : Target → List Target → List (Target × Target)
warned t [] = []
warned t (m ∷ ms) = let rest = warned t ms in if warns t m then (t, m) ∷ rest else rest

-- `std::multimap::insert`: behind the entries of the same key.
unfoldable pub insert : Target → List Target → List Target
insert t [] = t ∷ []
insert t (c ∷ cs) = if ltb t.address c.address then t ∷ c ∷ cs else c ∷ insert t cs

unfoldable pub initialize :
    List Target → RegRouter → List (Target × Target) → RegRouter × List (Target × Target)
initialize [] r ws = (r, ws)
initialize (t ∷ ts) r ws =
    if t.is_callback
    then initialize ts (record r { cb_targets = insert t r.cb_targets }) ws
    else initialize ts (record r { mem_targets = r.mem_targets ++ (t ∷ []) })
        (ws ++ warned t r.mem_targets)

abbrev pub lazy_initialize : List Target → RegRouter × List (Target × Target)
lazy_initialize bound_targets =
    initialize bound_targets (record { mem_targets = []; cb_targets = [] }) []
