-- ===== src/Monitor/Load.antt =====
-- `handle_exclusive_load` on every branch, in terms of who holds which lock.
use qbox.Base.{
  ◌≡◌, refl, sym, ap, ◌∙◌, inl, inr, [], ◌∷◌, none, some, Option-cases, Bool-cases, if◌then◌else◌,
}
use qbox.Tlm.{Payload}
use qbox.Monitor.{
  InitiatorId, same_id, Region, Monitor, region_of, last_address, find_region, unlock_region_by_id,
  load_as, load_of, handle_exclusive_load,
}
use qbox.Monitor.Ids.{same_id_self, same_id_eq}
use qbox.Monitor.Find.{IsProper}
use qbox.Monitor.Locks.{
  IsValid, no_none, unlocked, unlock_region-eq, unlocked-IsValid, locked, lock_region-eq,
  locked-IsValid,
}
use qbox.Monitor.Reserve.{Meets, IsClear, find_region-clear, IsClear-find_region}

-- The new owner's lock in place, every other initiator's as it was.
abbrev pub IsReserved : Payload → InitiatorId → Monitor → Monitor → Type 0
IsReserved p i s s' =
    (j : InitiatorId) → s'.by_id j ≡ (if same_id i j then some (region_of p i) else s.by_id j)

abbrev pub IsReleased : InitiatorId → Monitor → Monitor → Type 0
IsReleased i s s' = (j : InitiatorId) → s'.by_id j ≡ (if same_id i j then none else s.by_id j)

none-IsReleased : (i : InitiatorId) (s : Monitor) → s.by_id i ≡ none → IsReleased i s s
none-IsReleased i s e j = elim (Bool-cases (same_id i j)) [
  | inl same ↦ rw same (sym (ap s.by_id (same_id_eq i j same)) ∙ e)
  | inr other ↦ rw other refl
]

pub unlocked-IsReleased :
    (i : InitiatorId) (s : Monitor) (r : Region) → r.id ≡ i → IsReleased i s (unlocked r s)
unlocked-IsReleased i s r e j = rw (sym e) refl

release :
    (s : Monitor) (v : IsValid s) (i : InitiatorId)
    → (t : Monitor) × (unlock_region_by_id i s ≡ some t) × IsValid t × IsReleased i s t
unfolding unlock_region_by_id
release s v i = elim (Option-cases (s.by_id i)) [
  | inl e ↦ (s, rw e refl, v, none-IsReleased i s e)
  | inr (r, e) ↦
      let o = v.owned i r e in
      (
        unlocked r s,
        rw e (unlock_region-eq s v r o.1),
        unlocked-IsValid s v r o.1,
        unlocked-IsReleased i s r o.0,
      )
]

-- What a second look at the locks would find stays away after the release.
still-IsClear :
    (i : InitiatorId) (s t : Monitor) (p : Payload) → IsClear p s → IsReleased i s t → IsClear p t
still-IsClear i s t p clear rel j r held m = elim (Bool-cases (same_id i j)) [
  | inl same ↦ no_none (sym (rw same at (rel j)) ∙ held)
  | inr other ↦ clear j r (sym (rw other at (rel j)) ∙ held) m
]

IsReserved-after :
    (p : Payload) (i : InitiatorId) (s t : Monitor)
    → IsReleased i s t
    → IsReserved p i s (locked p i t)
IsReserved-after p i s t rel j = elim (Bool-cases (same_id i j)) [
  | inl same ↦ rw same refl
  | inr other ↦ rw other (rw other at (rel j))
]

module _ (p : Payload) (i : InitiatorId) (s : Monitor) (v : IsValid s)
    (path : p.path ≡ some i) where
  as_owner : handle_exclusive_load p s ≡ load_of p i (find_region p s.regions) s
  unfolding handle_exclusive_load
  as_owner = ap (λ x. load_as p x s) path

  -- An exclusive load that no lock meets passes every assertion and leaves its initiator with
  -- the lock on exactly its range, whatever lock it held before, and every other initiator's
  -- lock as it was. The range is invalidated at the front socket.
  pub handle_exclusive_load-reserves :
      IsProper p
      → IsClear p s
      → (t : Monitor) × (handle_exclusive_load p s ≡ some (t, (p.address, last_address p) ∷ []))
        × IsValid t
        × IsReserved p i s t
  handle_exclusive_load-reserves proper clear =
      let (u, e, w, rel) = release s v i in
      let c = find_region-clear u w p (still-IsClear i s u p clear rel) in
      (
        locked p i u,
        as_owner
            ∙ rw (find_region-clear s v p clear, e)
                (lock_region-eq u w p i proper c (released_none u rel)),
        locked-IsValid u w p i proper c (released_none u rel),
        IsReserved-after p i s u rel,
      )
    where
      released_none : (u : Monitor) → IsReleased i s u → u.by_id i ≡ none
      released_none u rel = rw (same_id_self i) at (rel i)

  -- An exclusive load that meets a lock, its own initiator's included, changes nothing.
  pub handle_exclusive_load-Meets :
      (j : InitiatorId) (r : Region)
      → s.by_id j ≡ some r
      → Meets p r
      → handle_exclusive_load p s ≡ some (s, [])
  handle_exclusive_load-Meets j r held m = elim (Option-cases (find_region p s.regions)) [
    | inl e ↦ absurd (IsClear-find_region s v p e j r held m)
    | inr (q, e) ↦ as_owner ∙ rw e refl
  ]
