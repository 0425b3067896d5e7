-- ===== src/RegRouter/Callbacks.antt =====
-- What the callbacks of the register router make of a transaction.
use qbox.Base.{
  ℕ, ◌≡◌, refl, ap, ◌∙◌, ◌⊎◌, inl, inr, false, List, [], ◌∷◌, Option, none, some, if◌then◌else◌,
  Bool-cases,
}
use qbox.Base.Outcomes.{Outcome, done, fatal, no_fuel}
use qbox.Tlm.{address_error, Payload}
use qbox.Router.Target.{Target}
use qbox.RegRouter.Decode.{Decodes, decode_address-Decodes}
use qbox.RegRouter.{
  RegRouter, is_error, is_ok, decode_address, claimants, call, fan_out, do_callbacks, to_memory,
  after_memory, without_dmi, b_transport_to, b_transport,
}

-- The transaction keeps its address, and there is no DMI hint where a callback may watch it.
abbrev NoHint : List Target → Payload → Type 0
NoHint [] p = Unit {0}
NoHint (t ∷ ts) p = p.dmi_allowed ≡ false

module _ {S : Type 0} (send : ℕ → Payload → S → Payload × S)
    (keeps : (i : ℕ) (p : Payload) (s : S) → (send i p s).0.address ≡ p.address) where
  abbrev pub Comes : RegRouter → ℕ → Outcome (Payload × S) → Type 0
  Comes r addr (done (p, s)) =
      (p.address ≡ addr) × ((p.response ≡ address_error) ⊎ NoHint r.cb_targets p)
  Comes r addr fatal = Unit {0}
  Comes r addr no_fuel = ⊥

  call_keeps :
      (t : Target) (addr : ℕ) (p : Payload) (s : S)
      → p.address ≡ addr
      → (call send t addr p s).0.address ≡ addr
  call_keeps t addr p s h = elim (Bool-cases t.use_offset) [
    | inl offset ↦ rw offset refl
    | inr absolute ↦ rw absolute (keeps t.index p s ∙ h)
  ]

  fan_out_keeps :
      (ts : List Target) (addr : ℕ) (p : Payload) (s : S)
      → p.address ≡ addr
      → (fan_out send ts addr p s).0.address ≡ addr
  unfolding fan_out
  fan_out_keeps [] addr p s h = h
  fan_out_keeps (t ∷ ts) addr p s h =
      let out = call send t addr p s in
      let own = call_keeps t addr p s h in
      let rest = fan_out_keeps ts addr out.0 out.1 own in
      elim (Bool-cases (is_error out.0.response)) [
        | inl failed ↦
            ap (λ z. (if z then out else fan_out send ts addr out.0 out.1).0.address) failed ∙ own
        | inr went_on ↦
            ap (λ z. (if z then out else fan_out send ts addr out.0 out.1).0.address) went_on ∙ rest
      ]

  do_callbacks_keeps :
      (r : RegRouter) (p : Payload) (s : S) → (do_callbacks send r p s).0.address ≡ p.address
  unfolding do_callbacks
  do_callbacks_keeps r p s = fan_out_keeps (claimants p.address r.cb_targets) p.address p s refl

  to_memory_keeps :
      (t : Target) (addr : ℕ) (o : Payload × S)
      → o.0.address ≡ addr
      → (to_memory send t addr o).0.address ≡ addr
  to_memory_keeps t addr (p, s) h = elim (Bool-cases (is_error p.response)) [
    | inl failed ↦ rw failed h
    | inr went_on ↦ rw went_on (call_keeps t addr p s h)
  ]

  after_memory_keeps :
      (r : RegRouter) (addr : ℕ) (o : Payload × S)
      → o.0.address ≡ addr
      → (after_memory send r o).0.address ≡ addr
  after_memory_keeps r addr (p, s) h = elim (Bool-cases (is_ok p.response)) [
    | inl fine ↦ rw fine (do_callbacks_keeps r p s ∙ h)
    | inr failed ↦ rw failed h
  ]

  without_dmi-Comes :
      (ms cs : List Target) (addr : ℕ) (o : Payload × S)
      → o.0.address ≡ addr
      → Comes
          (record { mem_targets = ms; cb_targets = cs })
          addr
          (done (without_dmi send (record { mem_targets = ms; cb_targets = cs }) o))
  without_dmi-Comes ms [] addr (p, s) h = (h, inr tt)
  without_dmi-Comes ms (c ∷ cs) addr (p, s) h = (h, inr refl)

  to_comes :
      (r : RegRouter) (p : Payload) (s : S) (o : Outcome (Option Target))
      → (o ≡ no_fuel → ⊥)
      → Comes r p.address (b_transport_to send r p s o)
  to_comes r p s (done none) h = (refl, inl refl)
  to_comes r p s (done (some t)) h =
      without_dmi-Comes r.mem_targets r.cb_targets p.address
        (after_memory send r (to_memory send t p.address (do_callbacks send r p s)))
        (after_memory_keeps r p.address (to_memory send t p.address (do_callbacks send r p s))
          (to_memory_keeps t p.address (do_callbacks send r p s) (do_callbacks_keeps r p s)))
  to_comes r p s fatal h = tt
  to_comes r p s no_fuel h = h refl

Decodes-ends :
    (addr : ℕ) (ts : List Target) (o : Outcome (Option Target))
    → Decodes addr ts o
    → o ≡ no_fuel
    → ⊥
Decodes-ends addr ts (done x) d e = cc
Decodes-ends addr ts fatal d e = cc
Decodes-ends addr ts no_fuel d e = d

-- Where no target changes the address of a transaction, it comes back with the address that it
-- had, after any callbacks and any offsets. It has no DMI hint if there are callbacks, unless no
-- target claims it.
pub b_transport-Comes :
    {S : Type 0} (send : ℕ → Payload → S → Payload × S)
    → (keeps : (i : ℕ) (p : Payload) (s : S) → (send i p s).0.address ≡ p.address)
    → (r : RegRouter) (p : Payload) (s : S) → Comes send keeps r p.address (b_transport send r p s)
unfolding b_transport
b_transport-Comes send keeps r p s = to_comes send keeps r p s (decode_address r p.address) (
    Decodes-ends p.address r.mem_targets (decode_address r p.address)
      (decode_address-Decodes r p.address))
