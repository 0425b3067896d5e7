-- ===== src/Router/Transport/Grant.antt =====
-- DMI through the router: `get_direct_mem_ptr`, the clamping of grants and their record.
use mathlib.Core.Path.{subst}
use qbox.Base.{ℕ, ◌+◌, ◌≤◌, ◌≡◌, refl, sym, Bool, true, false, List, Option, none, some, arith}
use qbox.Base.OrdMap.{Map}
use qbox.Tlm.{Dmi, Payload}
use qbox.Router.Target.{Target}
use qbox.Router.AddressMap.{Bounds, find_region}
use qbox.Router.AddressMap.Segments.{owner}
use qbox.Router.AddressMap.Resolve.{IsValid}
use qbox.Router.AddressMap.Lookup.{Answers, find_region_lem}
use qbox.Router.Dmi.{DmiInfo, Invalidation, record_dmi}
use qbox.Router.Dmi.Invalidate
use qbox.Router.Dmi.Record.{IsRecorded, record_dmi-IsRecorded}
use qbox.Router.Transport.{
  Router, Targets, Reply, note_bounds, recorded, pass_on, refused, to_global, clamp, direct_to,
  get_direct_mem_ptr, respond,
}

-- Clamping moves the pointer as far as the start, and ends within the bounds.
pub clamp_lem :
    (b : Bounds) (d : Dmi)
    → ((clamp b d).ptr + d.start_address ≡ d.ptr + (clamp b d).start_address)
      × (b.first ≤ (clamp b d).start_address)
      × ((clamp b d).end_address ≤ b.last)
unfolding clamp
clamp_lem b d = ground arith

recorded-dmi :
    (r : Router) (id : ℕ) (d : Dmi) (p : Payload) (out : Option (Map DmiInfo) × List Invalidation)
    (reply : Reply)
    → recorded r id d p out ≡ some reply
    → reply.dmi ≡ d
unfolding recorded
recorded-dmi r id d p (none, calls) reply h = absurd (ground (arith, h))
recorded-dmi r id d p (some m, calls) reply h = ground arith

pass_on-dmi :
    (r : Router) (id : ℕ) (b : Bounds) (p : Payload) (o : Option Dmi) (reply : Reply)
    → pass_on r id b p o ≡ some reply
    → (d : Dmi) × (reply.dmi ≡ clamp b d)
unfolding pass_on
pass_on-dmi r id b p none reply h = absurd (ground (arith, h))
pass_on-dmi r id b p (some d) reply h = (d, recorded-dmi r id (clamp b d) p _ reply h)

refused-granted :
    (r : Router) (d : Dmi) (p : Payload) (reply : Reply)
    → refused r d p ≡ some reply
    → reply.granted ≡ false
unfolding refused
refused-granted r d p reply h = ground arith

-- What a granted reply is bound to: one target owns the address and all that is granted.
abbrev pub IsOwned : Router → ℕ → Dmi → Type 0
IsOwned r addr d =
    (t : Target) × (owner addr r.regions ≡ some t)
    × ((x : ℕ) → d.start_address ≤ x → x ≤ d.end_address → owner x r.regions ≡ some t)

respond_within :
    (r : Router) (id : ℕ) (b : Bounds) (t : Target) (d : Dmi) (p : Payload) (granted : Bool)
    (reply : Reply)
    → respond r id b t d p granted ≡ some reply
    → reply.granted ≡ true
    → (b.first ≤ reply.dmi.start_address) × (reply.dmi.end_address ≤ b.last)
unfolding respond
respond_within r id b t d p true reply h g =
    let c = pass_on-dmi r id b p (to_global t d) reply h in
    subst (λ (e : Dmi). (b.first ≤ e.start_address) × (e.end_address ≤ b.last)) (sym c.1)
      ((clamp_lem b c.0).1, (clamp_lem b c.0).2)
respond_within r id b t d p false reply h g = absurd (ground (arith, refused-granted r d p reply h))

module _ (targets : Targets) where
  direct_to-IsOwned :
      (r : Router) (id : ℕ) (p : Payload) (d : Dmi) (f : Option Target × Bounds) (reply : Reply)
      → Answers r.regions p.address f
      → direct_to targets r id p d f ≡ some reply
      → reply.granted ≡ true
      → IsOwned r p.address reply.dmi
  unfolding direct_to
  direct_to-IsOwned r id p d (none, b) reply a h g =
      absurd (ground (arith, refused-granted r d (note_bounds b false p) reply h))
  direct_to-IsOwned r id p d (some t, b) reply a h g =
      let w = respond_within r id b t _ _ _ reply h g in
      (t, a.owned p.address a.lower a.upper, λ x l u. a.owned x (omega arith) (omega arith))

  -- Whatever a target grants, what the router passes on lies within the addresses of the target
  -- that owns the requested one: an initiator never gets direct access to another target.
  pub get_direct_mem_ptr-IsOwned :
      (r : Router) (id : ℕ) (p : Payload) (d : Dmi) (reply : Reply)
      → IsValid r.regions
      → get_direct_mem_ptr targets r id p d ≡ some reply
      → reply.granted ≡ true
      → IsOwned r p.address reply.dmi
  unfolding get_direct_mem_ptr
  get_direct_mem_ptr-IsOwned r id p d reply v h g =
      direct_to-IsOwned r id p d (find_region r.regions p.address) reply
        (find_region_lem r.regions p.address v) h g

recorded-IsRecorded :
    (r : Router) (id : ℕ) (d : Dmi) (p : Payload) (out : Option (Map DmiInfo) × List Invalidation)
    → IsRecorded id d out.0
    → (reply : Reply) × (recorded r id d p out ≡ some reply)
      × (reply.granted ≡ true)
      × (reply.dmi ≡ d)
      × IsRecorded id d (some reply.router.dmi_info)
unfolding recorded
recorded-IsRecorded r id d p (none, calls) h = absurd h
recorded-IsRecorded r id d p (some m, calls) h = (_, refl, refl, refl, h)

-- Once a target has granted a range that meets the segment, the router grants what is left of it
-- within the bounds: the same host bytes, and on record with the initiator. It fails no assertion
-- if the target's start lies within its size.
pub respond-grants :
    (r : Router) (id : ℕ) (b : Bounds) (t : Target) (d g : Dmi) (p : Payload)
    → Invalidate.IsValid r.dmi_info
    → to_global t d ≡ some g
    → (clamp b g).start_address ≤ (clamp b g).end_address
    → (reply : Reply) × (respond r id b t d p true ≡ some reply)
      × (reply.granted ≡ true)
      × (reply.dmi.ptr + g.start_address ≡ g.ptr + reply.dmi.start_address)
      × IsRecorded id reply.dmi (some reply.router.dmi_info)
unfolding respond pass_on
respond-grants r id b t d g p v e o =
    let k =
      recorded-IsRecorded r id (clamp b g) p (record_dmi id (clamp b g) r.dmi_info)
        (record_dmi-IsRecorded id (clamp b g) r.dmi_info o v) in
    (
      k.0,
      rw e k.1,
      k.2,
      rw k.3 (clamp_lem b g).0,
      subst (λ x. IsRecorded id x (some k.0.router.dmi_info)) (sym k.3) k.4,
    )
