-- ===== src/Monitor/History.antt =====
-- The monitor over time: sequences of transactions, and where the locks at their end come from.
use mathlib.Core.Path.{subst}
use qbox.Base.{
  ℕ, ◌≡◌, refl, sym, ap, ◌∙◌, ◌⊎◌, inl, inr, Bool, true, false, List, [], ◌∷◌, none, some, arith,
  All, Bool-cases,
}
use qbox.Tlm.{write, generic_error, StoreStatus, Payload}
use qbox.Monitor.{InitiatorId, Region, Monitor, Stored, region_of, handle_exclusive_store}
use qbox.Monitor.Find.{IsProper}
use qbox.Monitor.Locks.{IsValid}
use qbox.Monitor.Reserve.{Meets}
use qbox.Monitor.Store.{same_region, handle_exclusive_store-refused}
use qbox.Monitor.Step.{
  IsSame, IsLeft, IsLoad, owns, before_b_transport-Before, after_b_transport-After,
}
use qbox.Monitor.Transport.{
  before_command, before_store, Done, Loaded, is_ok, hint, forward, transport_after,
  before_b_transport, after_b_transport, b_transport,
}

-- Whether a transaction goes on to the target.
abbrev pub goes_on : Stored → Bool
goes_on none = false
goes_on (some (s, q, go)) = go

-- A store that went on.
abbrev pub IsStored : Payload → Monitor → Type 0
IsStored p s = (p.command ≡ write) × (goes_on (before_b_transport p s) ≡ true)

abbrev pub state_after : Monitor → Done → Monitor
state_after s none = s
state_after s (some (t, q, calls)) = t

-- An initiator's transaction, of at least one byte and not around the end of the address space.
abbrev pub IsRequest : Payload → Type 0
IsRequest p = ((i : InitiatorId) × (p.path ≡ some i)) × IsProper p

module _ (target : Payload → Payload) where
  abbrev pub next : Payload → Monitor → Monitor
  next p s = state_after s (b_transport target p s)

  abbrev pub run : List Payload → Monitor → Monitor
  run [] s = s
  run (p ∷ ps) s = run ps (next p s)

  -- Where a lock comes from.
  abbrev pub Since : Payload → Monitor → InitiatorId → Region → Type 0
  Since p s j r = ((s.by_id j ≡ some r) × (IsStored p s → Meets p r → ⊥)) ⊎ IsLoad p j r

  abbrev pub Completes : Payload → Monitor → Done → Type 0
  Completes p s o =
      (t : Monitor) × (q : Payload) × (calls : List (ℕ × ℕ)) × (o ≡ some (t, q, calls))
      × IsValid t
      × ((j : InitiatorId) (r : Region) → t.by_id j ≡ some r → Since p s j r)

  hint_done :
      (q : Payload) (o : Loaded) (t : Monitor) (calls : List (ℕ × ℕ)) (clear : Bool)
      → o ≡ some (t, calls, clear)
      → (q' : Payload) × (hint q o ≡ some (t, q', calls))
  hint_done q o t calls true e = (record q { dmi_allowed = false }, ap (hint q) e)
  hint_done q o t calls false e = (q, ap (hint q) e)

  same-IsLoad :
      (p q : Payload) (j : InitiatorId) (r : Region) → IsSame p q → IsLoad q j r → IsLoad p j r
  same-IsLoad p q j r e l = (
    sym e.3 ∙ l.0,
    (λ w. l.1 (e.0 ∙ w)),
    (λ n. l.2 (e.4 n)),
    l.3 ∙ same_region (region_of q j) (region_of p j) e.1 (ground (arith, e.1, e.2)) refl,
  )

  forward-Completes :
      (p q : Payload) (i : InitiatorId) (s t : Monitor)
      → q.path ≡ some i
      → IsProper q
      → IsValid t
      → IsSame p q
      → IsLeft p true s t
      → Completes p s (forward target q t)
  forward-Completes p q i s t path proper w same left =
      elim (Bool-cases (is_ok (target q).response)) [
        | inr failed ↦ (
          t,
          target q,
          [],
          rw failed refl,
          w,
          λ j r h. inl ((left j r h).0, λ st m. (left j r h).1 st.0 refl m),
        )
        | inl done ↦
            let (u, calls, clear, f, x, new) = after_b_transport-After q i t w path proper in
            let (q', g) = hint_done (target q) (after_b_transport q t) u calls clear f in
            (u, q', calls, rw done g, x, λ j r h. since j r (new j r h))
      ]
    where
      since : (j : InitiatorId) (r : Region) → (t.by_id j ≡ some r) ⊎ IsLoad q j r → Since p s j r
      since j r (inl h) = inl ((left j r h).0, λ st m. (left j r h).1 st.0 refl m)
      since j r (inr l) = inr (same-IsLoad p q j r same l)

  after-Completes :
      (p q : Payload) (i : InitiatorId) (s t : Monitor) (go : Bool)
      → q.path ≡ some i
      → IsProper q
      → before_b_transport p s ≡ some (t, q, go)
      → IsValid t
      → IsSame p q
      → IsLeft p go s t
      → Completes p s (transport_after target (some (t, q, go)))
  after-Completes p q i s t true path proper e w same left =
      forward-Completes p q i s t path proper w same left
  after-Completes p q i s t false path proper e w same left = (
    t,
    record q { response = generic_error },
    [],
    refl,
    w,
    λ j r h. inl ((left j r h).0, λ st m. ground (arith, st.1, ap goes_on e)),
  )

  -- A transaction of an initiator on valid maps fails no assertion and leaves valid maps. A lock
  -- that is held afterwards was held before, and is clear of the transaction if that is a store
  -- that went on; or the transaction is the exclusive load that took it, with exactly its range.
  pub b_transport-Completes :
      (p : Payload) (s : Monitor) → IsValid s → IsRequest p → Completes p s (b_transport target p s)
  unfolding b_transport
  b_transport-Completes p s v ((i, path), proper) =
      let (t, q, go, e, w, same, left) = before_b_transport-Before p i s v path proper in
      subst (λ x. Completes p s (transport_after target x)) (sym e)
        (after-Completes p q i s t go (same.3 ∙ path)
          (ground (arith, same.2, same.1, proper.0, proper.1)) e w same left)

  -- No store on `r` goes on.
  abbrev pub Untouched : Region → List Payload → Monitor → Type 0
  Untouched r [] s = Unit
  Untouched r (p ∷ ps) s = (IsStored p s → Meets p r → ⊥) × Untouched r ps (next p s)

  -- The lock of `j` on `r` was held at the start, or one of the transactions is the exclusive load
  -- that took it; and no store touched it since.
  pub data Reserved (j : InitiatorId) (r : Region) : List Payload → Monitor → Type 0 where
    held :
        (ps : List Payload) (s : Monitor)
        → s.by_id j ≡ some r
        → Untouched r ps s
        → Reserved j r ps s
    taken :
        (p : Payload) (ps : List Payload) (s : Monitor)
        → IsLoad p j r
        → Untouched r ps (next p s)
        → Reserved j r (p ∷ ps) s
    later :
        (p : Payload) (ps : List Payload) (s : Monitor)
        → Reserved j r ps (next p s)
        → Reserved j r (p ∷ ps) s

  first_step :
      (p : Payload) (ps : List Payload) (s : Monitor) (j : InitiatorId) (r : Region)
      → ((next p s).by_id j ≡ some r → Since p s j r)
      → Reserved j r ps (next p s)
      → Reserved j r (p ∷ ps) s
  first_step p ps s j r k (held _ _ h u) = elim (k h) [
    | inl before ↦ held (p ∷ ps) s before.0 (before.1, u)
    | inr load ↦ taken p ps s load u
  ]
  first_step p ps s j r k (taken q qs _ l u) = later p (q ∷ qs) s (taken q qs (next p s) l u)
  first_step p ps s j r k (later q qs _ h) = later p (q ∷ qs) s (later q qs (next p s) h)

  next-Since :
      (p : Payload) (s : Monitor)
      → IsValid s
      → IsRequest p
      → IsValid (next p s)
        × ((j : InitiatorId) (r : Region) → (next p s).by_id j ≡ some r → Since p s j r)
  next-Since p s v q =
      let (t, _, _, e, w, since) = b_transport-Completes p s v q in
      subst
        (λ x.
          IsValid (state_after s x)
          × ((j : InitiatorId) (r : Region) → (state_after s x).by_id j ≡ some r → Since p s j r))
        (sym e) (w, since)

  -- Along any sequence of transactions from valid maps, a lock that is held at the end is reserved.
  pub run-Reserved :
      (ps : List Payload) (s : Monitor)
      → IsValid s
      → All IsRequest ps
      → IsValid (run ps s)
        × ((j : InitiatorId) (r : Region) → (run ps s).by_id j ≡ some r → Reserved j r ps s)
  run-Reserved [] s v a = (v, λ j r h. held [] s h tt)
  run-Reserved (p ∷ ps) s v a =
      let (w, since) = next-Since p s v a.0 in
      let (x, rest) = run-Reserved ps (next p s) w a.1 in
      (x, λ j r h. first_step p ps s j r (since j r) (rest j r h))

store_goes_on :
    (p : Payload) (s : Monitor) (x : StoreStatus)
    → p.command ≡ write
    → p.exclusive ≡ some x
    → before_b_transport p s ≡ handle_exclusive_store p s
unfolding before_b_transport
store_goes_on p s x c e = ap (λ k. before_command p k s) c ∙ ap (λ k. before_store p k s) e

module _ (target : Payload → Payload) where
  -- After any sequence of transactions from valid maps, an exclusive store goes on to the target
  -- only if its initiator has reserved exactly its range: by an exclusive load in the sequence, or
  -- by a lock held at its start, with no store that went on meeting the range since.
  pub exclusive_store-Reserved :
      (ps : List Payload) (s : Monitor) (p : Payload) (i : InitiatorId) (x : StoreStatus)
      → IsValid s
      → All IsRequest ps
      → p.path ≡ some i
      → IsProper p
      → p.command ≡ write
      → p.exclusive ≡ some x
      → goes_on (before_b_transport p (run target ps s)) ≡ true
      → Reserved target i (region_of p i) ps s
  exclusive_store-Reserved ps s p i x v a path proper c e g =
      let (w, since) = run-Reserved target ps s v a in
      let t = run target ps s in
      elim (owns p i t w path proper) [
        | inl own ↦ since i (region_of p i) own
        | inr free ↦ absurd (
            ground (
              arith,
              g,
              ap goes_on
                  (store_goes_on p t x c e ∙ handle_exclusive_store-refused p i t w path free),
            ))
      ]
