-- ===== src/Monitor/Reserve.antt =====
-- What the locks mean to the initiators: which ones a transaction meets.
use qbox.Base.{
  ℕ, suc, ◌≤◌, ◌<◌, ◌≡◌, sym, ap, ◌∙◌, ◌⊎◌, inl, inr, [], ◌∷◌, none, some, arith, Option-cases,
  some_injective,
}
use mathlib.Core.Path.{subst}
use qbox.Base.OrdMap.{Map, lookup}
use qbox.Base.Intervals.{Chain, Free}
use qbox.Tlm.{Payload}
use qbox.Monitor.{InitiatorId, Region, Monitor, last_address, find_region}
use qbox.Monitor.Find.{stop, Finds, find_region-Finds}
use qbox.Monitor.Locks.{IsValid}

-- A lock and a transaction share an address.
abbrev pub Meets : Payload → Region → Type 0
Meets p r = (r.start ≤ last_address p) × (p.address ≤ r.end)

-- No initiator holds a lock that meets the transaction.
abbrev pub IsClear : Payload → Monitor → Type 0
IsClear p s = (j : InitiatorId) (r : Region) → s.by_id j ≡ some r → Meets p r → ⊥

above : (lo k : ℕ) (r : Region) (m : Map Region) → Chain stop lo m → lookup k m ≡ some r → lo ≤ k
unfolding lookup
above lo k r [] c h = absurd (ground (arith, h))
above lo k r ((j, q) ∷ m) c h = ground (arith, above (stop q) k r m c.2)

apart :
    (lo j k : ℕ) (q r : Region) (m : Map Region)
    → Chain stop lo m
    → lookup j m ≡ some q
    → lookup k m ≡ some r
    → j < k
    → q.end < k
unfolding lookup
apart lo j k q r [] c g h l = absurd (ground (arith, h))
apart lo j k q r ((i, t) ∷ m) c g h l =
    ground (arith, apart (stop t) j k q r m c.2, above (stop t) k r m c.2, above (stop t) j q m c.2)

misses :
    (s e k : ℕ) (r : Region) (m : Map Region)
    → Free stop s (suc e) m
    → lookup k m ≡ some r
    → (r.end < s) ⊎ (e < k)
unfolding lookup
misses s e k r [] f h = absurd (ground (arith, h))
misses s e k r ((j, q) ∷ m) f h = ground (arith, misses s e k r m f.1)

module _ (s : Monitor) (v : IsValid s) (p : Payload) where
  found : Finds p.address (last_address p) s.regions (find_region p s.regions)
  found = find_region-Finds p s.regions v.chain v.keys

  pub find_region-clear : IsClear p s → find_region p s.regions ≡ none
  find_region-clear clear = elim (Option-cases (find_region p s.regions)) [
    | inl e ↦ e
    | inr (r, e) ↦
        let f = subst (Finds p.address (last_address p) s.regions) e found in
        absurd (clear r.id r (v.listed r f.0) (f.1, f.2))
  ]

  pub IsClear-find_region : find_region p s.regions ≡ none → IsClear p s
  IsClear-find_region e j r held m =
      let f = subst (Finds p.address (last_address p) s.regions) e found in
      let w = misses p.address (last_address p) r.start r s.regions f (v.owned j r held).1 in
      ground arith

  pub find_region-elem :
      (r : Region)
      → find_region p s.regions ≡ some r
      → (lookup r.start s.regions ≡ some r) × Meets p r
  find_region-elem r e =
      let f = subst (Finds p.address (last_address p) s.regions) e found in (f.0, (f.1, f.2))

  -- Two locks on the map with a common address are the same.
  pub locks_same :
      (q r : Region)
      → lookup q.start s.regions ≡ some q
      → lookup r.start s.regions ≡ some r
      → q.start ≤ r.end
      → r.start ≤ q.end
      → q ≡ r
  locks_same q r g h a b = some_injective (sym g ∙ ap (λ k. lookup k s.regions) same ∙ h)
    where
      same : q.start ≡ r.start
      same =
          let x = apart 0 q.start r.start q r s.regions v.chain g h in
          let y = apart 0 r.start q.start r q s.regions v.chain h g in ground arith
