-- ===== src/Monitor/Store.antt =====
-- `handle_exclusive_store` and `handle_regular_store` on every branch, in terms of who holds which
-- lock.
use qbox.Base.{
  ℕ, zero, suc, ◌<◌, ◌≡◌, ◌≢◌, refl, sym, ap, ◌∙◌, inl, inr, true, false, ◌&&◌, Option, none, some,
  arith, Option-cases, Bool-cases, if◌then◌else◌, length, leb,
}
use qbox.Base.OrdMap.{lookup}
use qbox.Base.Intervals.Erase.{length-erase}
use qbox.Tlm.{Payload, success}
use qbox.Monitor.{
  InitiatorId, same_id, Region, Monitor, is_exact_match, region_of, last_address, find_region,
  store_fails, store_as, store_to, handle_exclusive_store, unlock_all, handle_regular_store, round,
  continue_with,
}
use qbox.Monitor.Ids.{same_id_self, same_id_eq}
use qbox.Monitor.Find.{stop, IsProper}
use qbox.Monitor.Locks.{IsValid, unlocked, unlock_region-eq, unlocked-IsValid}
use qbox.Monitor.Reserve.{Meets, IsClear-find_region, find_region-elem, locks_same}
use qbox.Monitor.Load.{IsReleased, unlocked-IsReleased}

pub same_region : (q r : Region) → q.start ≡ r.start → q.end ≡ r.end → q.id ≡ r.id → q ≡ r
same_region q r a b c = λ k. record { start = a k; end = b k; id = c k }

-- What is left of a lock after a regular store.
abbrev pub keep : Payload → Option Region → Option Region
keep p none = none
keep p (some r) = if leb r.start (last_address p) && leb p.address r.end then none else some r

module _ (p : Payload) (i : InitiatorId) (s : Monitor) (v : IsValid s)
    (path : p.path ≡ some i) where
  pub exact : is_exact_match (region_of p i) p ≡ true
  unfolding is_exact_match
  exact = ground arith

  pub exact_region : (r : Region) → r.id ≡ i → is_exact_match r p ≡ true → r ≡ region_of p i
  unfolding is_exact_match
  exact_region r e h = same_region r (region_of p i) at_start (ground (arith, h, at_start)) e
    where
      at_start : r.start ≡ p.address
      at_start = ground (arith, h)

  pub found_own :
      IsProper p → s.by_id i ≡ some (region_of p i) → find_region p s.regions ≡ some (region_of p i)
  found_own proper held = elim (Option-cases (find_region p s.regions)) [
    | inl e ↦ absurd (IsClear-find_region s v p e i (region_of p i) held (omega arith, omega arith))
    | inr (r, e) ↦
        let (l, m) = find_region-elem s v p r e in
        e
        ∙ ap some (locks_same s v p r (region_of p i) l (v.owned i (region_of p i) held).1 m.0 m.1)
  ]

  as_owner :
      (r : Region)
      → find_region p s.regions ≡ some r
      → handle_exclusive_store p s ≡ store_as p (some i) r s
  unfolding handle_exclusive_store
  as_owner r e = ap (λ x. store_to p x s) e ∙ ap (λ x. store_as p x r s) path

  -- An exclusive store whose initiator holds the lock on exactly its range passes every
  -- assertion, reports success and goes on; the lock is gone, the others are as they were.
  pub handle_exclusive_store-owned :
      IsProper p
      → s.by_id i ≡ some (region_of p i)
      → (t : Monitor) × (handle_exclusive_store p s
          ≡ some (t, record p { exclusive = some success }, true))
        × IsValid t
        × IsReleased i s t
  handle_exclusive_store-owned proper held =
      let o = v.owned i (region_of p i) held in
      (
        unlocked (region_of p i) s,
        as_owner (region_of p i) (found_own proper held)
            ∙ rw (same_id_self i, exact, unlock_region-eq s v (region_of p i) o.1) refl,
        unlocked-IsValid s v (region_of p i) o.1,
        unlocked-IsReleased i s (region_of p i) refl,
      )

  not_held :
      (r : Region)
      → find_region p s.regions ≡ some r
      → s.by_id i ≢ some (region_of p i)
      → (same_id r.id i && is_exact_match r p) ≡ false
  not_held r e free = elim (Bool-cases (same_id r.id i)) [
    | inr other ↦ rw other refl
    | inl same ↦ elim (Bool-cases (is_exact_match r p)) [
      | inr differs ↦ rw (same, differs) refl
      | inl matches ↦ absurd (free (holds (same_id_eq r.id i same) matches))
    ]
  ]
    where
      holds : r.id ≡ i → is_exact_match r p ≡ true → s.by_id i ≡ some (region_of p i)
      holds d matches =
          sym (ap s.by_id d)
          ∙ v.listed r (find_region-elem s v p r e).0
          ∙ ap some (exact_region r d matches)

  -- An exclusive store without that lock reports failure, stops and changes no lock.
  pub handle_exclusive_store-refused :
      s.by_id i ≢ some (region_of p i) → handle_exclusive_store p s ≡ store_fails p s
  unfolding handle_exclusive_store
  handle_exclusive_store-refused free = elim (Option-cases (find_region p s.regions)) [
    | inl e ↦ ap (λ x. store_to p x s) e
    | inr (r, e) ↦ as_owner r e ∙ refused r (not_held r e free)
  ]
    where
      refused :
          (r : Region)
          → (same_id r.id i && is_exact_match r p) ≡ false
          → store_as p (some i) r s ≡ store_fails p s
      refused r h = ground (arith, h)

kept_clear :
    (p : Payload) (o : Option Region) → ((r : Region) → o ≡ some r → Meets p r → ⊥) → o ≡ keep p o
kept_clear p none h = refl
kept_clear p (some r) h = elim (Bool-cases (leb r.start (last_address p) && leb p.address r.end)) [
  | inl m ↦ absurd (h r refl (ground (arith, m), ground (arith, m)))
  | inr m ↦ rw m refl
]

kept-Meets : (p : Payload) (r : Region) → Meets p r → keep p (some r) ≡ none
kept-Meets p r m = ground (arith, m.0, m.1)

-- Every lock is as `keep` says.
abbrev pub IsKept : Payload → Monitor → Monitor → Type 0
IsKept p s t = (j : InitiatorId) → t.by_id j ≡ keep p (s.by_id j)

IsKept-after :
    (p : Payload) (r : Region) (s t : Monitor)
    → s.by_id r.id ≡ some r
    → Meets p r
    → IsKept p (unlocked r s) t
    → IsKept p s t
IsKept-after p r s t held m k j = elim (Bool-cases (same_id r.id j)) [
  | inl same ↦
      rw same at (k j)
      ∙ sym (kept-Meets p r m)
      ∙ ap (keep p) (sym held ∙ ap s.by_id (same_id_eq r.id j same))
  | inr other ↦ rw other at (k j)
]

unlock_all_lem :
    (n : ℕ) (p : Payload) (s : Monitor) (v : IsValid s)
    → length s.regions < n
    → (t : Monitor) × (unlock_all n p s ≡ some t) × IsValid t × IsKept p s t
unfolding unlock_all
unlock_all_lem zero p s v h = absurd (omega arith)
unlock_all_lem (suc n) p s v h = elim (Option-cases (find_region p s.regions)) [
  | inl e ↦ (
    s,
    ap (round (unlock_all n p) s) e,
    v,
    λ j. kept_clear p (s.by_id j) (λ r g. IsClear-find_region s v p e j r g),
  )
  | inr (r, e) ↦
      let (l, m) = find_region-elem s v p r e in
      let (t, f, w, k) =
        unlock_all_lem n p (unlocked r s) (unlocked-IsValid s v r l) (shorter r l) in
      (
        t,
        ap (round (unlock_all n p) s) e
            ∙ ap (continue_with (unlock_all n p)) (unlock_region-eq s v r l)
            ∙ f,
        w,
        IsKept-after p r s t (v.listed r l) m k,
      )
]
  where
    shorter : (r : Region) → lookup r.start s.regions ≡ some r → length (unlocked r s).regions < n
    shorter r l = let e = length-erase stop r.start r s.regions l in omega arith

-- A regular store ends, whatever the locks, and passes every assertion; each lock that meets it
-- is released and every other one stays.
pub handle_regular_store_lem :
    (p : Payload) (s : Monitor)
    → IsValid s
    → (t : Monitor) × (handle_regular_store p s ≡ some t) × IsValid t × IsKept p s t
unfolding handle_regular_store
handle_regular_store_lem p s v = unlock_all_lem (suc (length s.regions)) p s v (omega arith)
