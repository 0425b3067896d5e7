-- ===== src/RegRouter/Deliver.antt =====
-- The calls that `do_callbacks` of the register router makes.
use qbox.Base.{
  ℕ, ◌≡◌, refl, sym, ap, ◌∙◌, Bool, true, false, List, [], ◌∷◌, ◌++◌, Bool-cases, inl, inr,
  if◌then◌else◌,
}
use mathlib.Core.Path.{subst}
use mathlib.Core.List.{append_assoc, append-nil}
use qbox.Base.Word.{sub64}
use qbox.Tlm.{Payload}
use qbox.Router.Target.{Target}
use qbox.RegRouter.{RegRouter, is_error, claimants, returned, call, fan_out, do_callbacks}
use qbox.RegRouter.Peers.{Leads, claimants-Leads}

-- Calls on record: the socket, and whether the answer was an error.
abbrev pub Log : Type 0
Log = List (ℕ × Bool)

abbrev logged_answer : {S : Type 0} → ℕ → Log → Payload × S → Payload × (S × Log)
logged_answer i l o = (o.0, (o.1, l ++ (i, is_error o.0.response) ∷ []))

-- What stands behind the sockets, with a record of the calls.
abbrev pub logged :
    {S : Type 0} → (ℕ → Payload → S → Payload × S) → ℕ → Payload → S × Log → Payload × (S × Log)
logged send i p (s, l) = logged_answer i l (send i p s)

-- Each target got a call, in order, up to the first one that answered with an error, or all did.
abbrev pub Delivers : List Target → Log → Type 0
Delivers [] [] = Unit
Delivers [] (e ∷ es) = ⊥
Delivers (t ∷ ts) [] = ⊥
Delivers (t ∷ ts) ((i, true) ∷ es) = (i ≡ t.index) × (es ≡ [])
Delivers (t ∷ ts) ((i, false) ∷ es) = (i ≡ t.index) × Delivers ts es

module _ {S : Type 0} (send : ℕ → Payload → S → Payload × S) where
  returned_error :
      (t : Target) (addr : ℕ) (p : Payload) (o : S × Log)
      → is_error (returned (logged send) t addr (p, o)).0.response ≡ is_error p.response
  returned_error t addr p o = elim (Bool-cases t.use_offset) [
    | inl offset ↦ rw offset refl
    | inr absolute ↦ rw absolute refl
  ]

  fan_out-Delivers :
      (ts : List Target) (addr : ℕ) (p : Payload) (s : S) (l : Log)
      → (es : Log) × ((fan_out (logged send) ts addr p (s, l)).1.1 ≡ l ++ es) × Delivers ts es
  unfolding fan_out
  fan_out-Delivers [] addr p s l = ([], sym (append-nil l), tt)
  fan_out-Delivers (t ∷ ts) addr p s l =
      let own = if t.use_offset then record p { address = sub64 addr t.address } else p in
      let o = send t.index own s in
      let l' = l ++ (t.index, is_error o.0.response) ∷ [] in
      let out = call (logged send) t addr p (s, l) in
      let rest = fan_out (logged send) ts addr out.0 (o.1, l') in
      let ih = fan_out-Delivers ts addr out.0 o.1 l' in
      let same = returned_error t addr o.0 (o.1, l') in
      elim (Bool-cases (is_error o.0.response)) [
        | inl failed ↦ (
          (t.index, true) ∷ [],
          ap (λ z. (if z then out else rest).1.1) (same ∙ failed)
              ∙ ap (λ b. l ++ (t.index, b) ∷ []) failed,
          (refl, refl),
        )
        | inr went_on ↦ (
          (t.index, false) ∷ ih.0,
          ap (λ z. (if z then out else rest).1.1) (same ∙ went_on)
              ∙ ih.1
              ∙ append_assoc l ((t.index, is_error o.0.response) ∷ []) ih.0
              ∙ ap (λ b. l ++ (t.index, b) ∷ ih.0) went_on,
          (refl, ih.2),
        )
      ]

-- `do_callbacks` calls the callbacks that claim the address with the lowest priority number among
-- the claims, each once and in their order, up to the first that answers with an error: it calls
-- that one, and none behind it. Without an error all of them are called. There is none to call only
-- where no callback claims the address.
pub do_callbacks-Delivers :
    {S : Type 0} (send : ℕ → Payload → S → Payload × S) (r : RegRouter) (p : Payload) (s : S)
    → (ts : List Target) × Leads p.address r.cb_targets ts
      × Delivers ts (do_callbacks (logged send) r p (s, [])).1.1
unfolding do_callbacks
do_callbacks-Delivers send r p s =
    let ts = claimants p.address r.cb_targets in
    let (es, e, d) = fan_out-Delivers send ts p.address p s [] in
    (ts, claimants-Leads p.address r.cb_targets, subst (Delivers ts) (sym e) d)
