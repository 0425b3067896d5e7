-- ===== src/Router/Transport/Forward.antt =====
-- A transaction through the router: `b_transport`, and the path that it stamps and unstamps.
use qbox.Base.{ℕ, ◌≡◌, ◌∙◌, List, [], ◌∷◌, Option, none, some, All, if◌then◌else◌}
use qbox.Tlm.{Payload, address_error}
use qbox.Router.Target.{Target}
use qbox.Router.AddressMap.Segments.{owner}
use qbox.Router.AddressMap.Resolve.{IsValid}
use qbox.Router.AddressMap.Lookup.{search_map-owner}
use qbox.Router.Transport.{Router, Targets, not_failed, forward, b_transport}

-- The extensions in the pool are empty.
abbrev pub PoolIsClean : Router → Type 0
PoolIsClean r = All (λ e. e ≡ []) r.pool

-- What the targets must not touch: the path, and the address where the router does not restore it.
pub record KeepsRoute (targets : Targets) : Type 0 where
  pub path_kept : (i : ℕ) (p : Payload) → (targets.transport i p).path ≡ p.path
  pub address_kept : (i : ℕ) (p : Payload) → (targets.transport i p).address ≡ p.address

abbrev pub ids : Option (List ℕ) → List ℕ
ids none = []
ids (some e) = e

-- The payload as the target sees it, but for its address.
abbrev pub stamped : ℕ → Payload → Payload
stamped id p = record p { path = some (id ∷ ids p.path) }

module _ (targets : Targets) (keeps : KeepsRoute targets) where
  -- What comes back from the target, if the transaction was sent at all.
  abbrev pub answer : ℕ → Target → Payload → Payload
  answer id t p = if not_failed p.response then forward targets t (stamped id p) else stamped id p

  -- An address that nobody owns gets an address error, and nothing else changes.
  pub b_transport-unmapped :
      (r : Router) (id : ℕ) (p : Payload)
      → IsValid r.regions
      → owner p.address r.regions ≡ none
      → b_transport targets r id p ≡ some (r, record p { response = address_error })
  unfolding b_transport
  b_transport-unmapped r id p v o = rw (search_map-owner r.regions p.address v ∙ o)
