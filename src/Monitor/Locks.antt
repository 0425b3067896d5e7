-- ===== src/Monitor/Locks.antt =====
-- The invariant of the monitor's two maps, `lock_region` and `unlock_region`.
use mathlib.Core.Path.{subst}
use qbox.Base.{
  suc, ◌≡◌, ◌≢◌, refl, sym, ap, ◌∙◌, inl, inr, true, false, [], ◌∷◌, none, some, arith, Bool-cases,
  ◌==◌, if◌then◌else◌, some_injective,
}
use qbox.Base.OrdMap.{lookup, assign, erase, lookup-assign, lookup-assign_self}
use qbox.Base.Intervals.{Chain, Free, lookup-Free}
use qbox.Base.Intervals.Erase.{erase-Chain, lookup-erase, erase-All, assign-Chain, assign-All}
use qbox.Tlm.{Payload}
use qbox.Monitor.{
  InitiatorId, same_id, Region, Monitor, region_of, last_address, find_region, lock_region,
  unlock_region,
}
use qbox.Monitor.Ids.{same_id_self, same_id_eq}
use qbox.Monitor.Find.{stop, Keyed, IsProper, Finds, find_region-Finds}

-- Locks in order without overlap; a lock is on the one map exactly if it is on the other.
pub record IsValid (s : Monitor) : Type 0 where
  pub chain : Chain stop 0 s.regions
  pub keys : Keyed s.regions
  pub listed : (r : Region) → lookup r.start s.regions ≡ some r → s.by_id r.id ≡ some r
  pub owned :
      (i : InitiatorId) (r : Region)
      → s.by_id i ≡ some r
      → (r.id ≡ i) × (lookup r.start s.regions ≡ some r)

abbrev pub unlocked : Region → Monitor → Monitor
unlocked r s = record {
  regions = erase r.start s.regions;
  by_id = λ j. if same_id r.id j then none else s.by_id j;
}

other_id : (i j : InitiatorId) → same_id i j ≡ false → i ≢ j
other_id i j h e = cc (subst (λ k. same_id i k ≡ true) e (same_id_self i))

module _ (s : Monitor) (v : IsValid s) (r : Region) (held : lookup r.start s.regions ≡ some r) where
  pub unlock_region-eq : unlock_region r s ≡ some (unlocked r s)
  unfolding unlock_region
  unlock_region-eq = rw (held, v.listed r held)

  after_erase :
      (q : Region)
      → lookup q.start (erase r.start s.regions) ≡ some q
      → (r.start ≢ q.start) × (lookup q.start s.regions ≡ some q)
  after_erase q h = ground (arith, lookup-erase stop r.start q.start 0 s.regions v.chain)

  unlocked-listed :
      (q : Region)
      → lookup q.start (erase r.start s.regions) ≡ some q
      → (if same_id r.id q.id then none else s.by_id q.id) ≡ some q
  unlocked-listed q h = elim (Bool-cases (same_id r.id q.id)) [
    | inl same ↦ absurd (k.0 (ap (λ x. x.start) (same_region same)))
    | inr other ↦ rw other (v.listed q k.1)
  ]
    where
      k : (r.start ≢ q.start) × (lookup q.start s.regions ≡ some q)
      k = after_erase q h

      same_region : same_id r.id q.id ≡ true → r ≡ q
      same_region e =
          some_injective
            (sym (v.listed r held) ∙ ap s.by_id (same_id_eq r.id q.id e) ∙ v.listed q k.1)

  unlocked-owned :
      (i : InitiatorId) (q : Region)
      → (if same_id r.id i then none else s.by_id i) ≡ some q
      → (q.id ≡ i) × (lookup q.start (erase r.start s.regions) ≡ some q)
  unlocked-owned i q h = elim (Bool-cases (same_id r.id i)) [
    | inl same ↦ absurd (ground (arith, h, same))
    | inr other ↦
        let o = v.owned i q (rw other at h) in (o.0, kept o.0 o.1 (distinct other o.0 o.1))
  ]
    where
      distinct :
          same_id r.id i ≡ false → q.id ≡ i → lookup q.start s.regions ≡ some q → r.start ≢ q.start
      distinct other e l d =
          other_id r.id i other
            (ap (λ x. x.id) (some_injective (sym held ∙ ap (λ k. lookup k s.regions) d ∙ l)) ∙ e)

      kept :
          q.id ≡ i
          → lookup q.start s.regions ≡ some q
          → r.start ≢ q.start
          → lookup q.start (erase r.start s.regions) ≡ some q
      kept e l d = ground (arith, lookup-erase stop r.start q.start 0 s.regions v.chain, l, d)

  -- Unlocking a lock that is held passes its assertions and keeps the maps in step.
  pub unlocked-IsValid : IsValid (unlocked r s)
  unlocked-IsValid = record {
    chain = erase-Chain stop r.start 0 s.regions v.chain;
    keys = erase-All stop _ r.start s.regions v.keys;
    listed = unlocked-listed;
    owned = unlocked-owned;
  }

pub no_none : {r : Region} → none ≡ some r → ⊥
no_none e = cc

abbrev pub locked : Payload → InitiatorId → Monitor → Monitor
locked p i s = record {
  regions = assign p.address (region_of p i) s.regions;
  by_id = λ j. if same_id i j then some (region_of p i) else s.by_id j;
}

module _ (s : Monitor) (v : IsValid s) (p : Payload) (i : InitiatorId) (proper : IsProper p)
    (clear : find_region p s.regions ≡ none) (none_held : s.by_id i ≡ none) where
  room : Free stop p.address (suc (last_address p)) s.regions
  room =
      subst (Finds p.address (last_address p) s.regions) clear
        (find_region-Finds p s.regions v.chain v.keys)

  pub lock_region-eq : lock_region p i s ≡ some (locked p i s, (p.address, last_address p) ∷ [])
  unfolding lock_region
  lock_region-eq = rw clear

  empty_place : lookup p.address s.regions ≡ none
  empty_place =
      lookup-Free stop 0 p.address (suc (last_address p)) s.regions (omega arith) room v.chain

  assigned :
      (q : Region)
      → lookup q.start (assign p.address (region_of p i) s.regions) ≡ some q
      → (if p.address == q.start then some (region_of p i) else lookup q.start s.regions) ≡ some q
  assigned q h = sym (lookup-assign p.address q.start (region_of p i) s.regions) ∙ h

  new_listed :
      (q : Region)
      → region_of p i ≡ q
      → (if same_id i q.id then some (region_of p i) else s.by_id q.id) ≡ some q
  new_listed q e =
      subst (λ r. (if same_id i r.id then some (region_of p i) else s.by_id r.id) ≡ some r) e
        (rw (same_id_self i) refl)

  old_listed :
      (q : Region)
      → lookup q.start s.regions ≡ some q
      → (if same_id i q.id then some (region_of p i) else s.by_id q.id) ≡ some q
  old_listed q l = elim (Bool-cases (same_id i q.id)) [
    | inl same ↦
        absurd (no_none (sym none_held ∙ ap s.by_id (same_id_eq i q.id same) ∙ v.listed q l))
    | inr other ↦ rw other (v.listed q l)
  ]

  locked-listed :
      (q : Region)
      → lookup q.start (assign p.address (region_of p i) s.regions) ≡ some q
      → (if same_id i q.id then some (region_of p i) else s.by_id q.id) ≡ some q
  locked-listed q h = elim (Bool-cases (p.address == q.start)) [
    | inl same ↦ new_listed q (some_injective (rw same at (assigned q h)))
    | inr other ↦ old_listed q (rw other at (assigned q h))
  ]

  new_owned :
      (j : InitiatorId) (q : Region)
      → region_of p i ≡ q
      → i ≡ j
      → (q.id ≡ j) × (lookup q.start (assign p.address (region_of p i) s.regions) ≡ some q)
  new_owned j q e d = (
    sym (ap (λ r. r.id) e) ∙ d,
    subst (λ r. lookup r.start (assign p.address (region_of p i) s.regions) ≡ some r) e
        (lookup-assign_self p.address (region_of p i) s.regions),
  )

  old_owned :
      (j : InitiatorId) (q : Region)
      → (q.id ≡ j) × (lookup q.start s.regions ≡ some q)
      → (q.id ≡ j) × (lookup q.start (assign p.address (region_of p i) s.regions) ≡ some q)
  old_owned j q h = (h.0, lookup-assign p.address q.start (region_of p i) s.regions ∙ elsewhere)
    where
      elsewhere :
          (if p.address == q.start then some (region_of p i) else lookup q.start s.regions) ≡ some q
      elsewhere = elim (Bool-cases (p.address == q.start)) [
        | inl same ↦
            absurd (no_none (sym empty_place ∙ ap (λ k. lookup k s.regions) (ground arith) ∙ h.1))
        | inr other ↦ rw other h.1
      ]

  locked-owned :
      (j : InitiatorId) (q : Region)
      → (if same_id i j then some (region_of p i) else s.by_id j) ≡ some q
      → (q.id ≡ j) × (lookup q.start (assign p.address (region_of p i) s.regions) ≡ some q)
  locked-owned j q h = elim (Bool-cases (same_id i j)) [
    | inl same ↦ new_owned j q (some_injective (rw same at h)) (same_id_eq i j same)
    | inr other ↦ old_owned j q (v.owned j q (rw other at h))
  ]

  pub locked-IsValid : IsValid (locked p i s)
  locked-IsValid = record {
    chain =
        assign-Chain stop 0 p.address (region_of p i) s.regions (omega arith) (omega arith) room
          v.chain;
    keys = assign-All stop _ p.address (region_of p i) s.regions refl v.keys;
    listed = locked-listed;
    owned = locked-owned;
  }
