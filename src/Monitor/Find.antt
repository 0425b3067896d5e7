-- ===== src/Monitor/Find.antt =====
-- `find_region` against the plain question whether a lock meets the transaction.
use qbox.Base.{
  ℕ, suc, ◌+◌, ◌-◌, ◌^◌, ◌≤◌, ◌<◌, ◌≡◌, refl, inl, inr, [], ◌∷◌, Option, none, some, arith, All,
  Bool-cases, drop, ltb,
}
use qbox.Base.OrdMap.{Map, lookup, lower_bound, step_back}
use qbox.Base.Intervals.{Chain, Free}
use qbox.Tlm.{Payload}
use qbox.Monitor.{Region, scan, find_region, last_address}

abbrev pub stop : Region → ℕ
stop r = suc r.end

abbrev pub Keyed : Map Region → Type 0
Keyed m = All (λ p. p.0 ≡ p.1.start) m

-- A transaction of at least one byte that does not wrap around.
abbrev pub IsProper : Payload → Type 0
IsProper p = (0 < p.data_length) × (p.address + p.data_length ≤ 2 ^ 64)

pub last_address_lem : (p : Payload) → IsProper p → last_address p ≡ p.address + p.data_length - 1
last_address_lem p h = omega arith

scan_skip :
    (s e lo : ℕ) (m : Map Region)
    → Chain stop lo m
    → Keyed m
    → scan s e (drop (step_back (lower_bound s m)) m) ≡ scan s e m
unfolding scan lower_bound
scan_skip s e lo [] c k = refl
scan_skip s e lo ((j, r) ∷ []) c k = ground arith
scan_skip s e lo ((j, r) ∷ (i, q) ∷ m) c k =
    ground (arith, scan_skip s e (stop r) ((i, q) ∷ m) c.2 k.1)

-- A lock that is found is on the map and meets the range; if none is found the range is free.
abbrev pub Finds : ℕ → ℕ → Map Region → Option Region → Type 0
Finds s e m none = Free stop s (suc e) m
Finds s e m (some r) = (lookup r.start m ≡ some r) × (r.start ≤ e) × (s ≤ r.end)

pub Free-after : (s e lo : ℕ) (m : Map Region) → e < lo → Chain stop lo m → Free stop s (suc e) m
Free-after s e lo [] h c = tt
Free-after s e lo ((k, r) ∷ m) h c =
    (inl (omega arith), Free-after s e (stop r) m (omega arith) c.2)

lookup_later :
    (k lo : ℕ) (m : Map Region) (r : Region) → Chain stop lo m → lookup k m ≡ some r → lo ≤ k
unfolding lookup
lookup_later k lo [] r c h = absurd (ground (arith, h))
lookup_later k lo ((j, q) ∷ m) r c h = ground (arith, lookup_later k (stop q) m r c.2)

lookup_head :
    (j : ℕ) (r : Region) (m : Map Region) → j ≡ r.start → lookup r.start ((j, r) ∷ m) ≡ some r
unfolding lookup
lookup_head j r m e = ground arith

Finds-later :
    (s e j : ℕ) (r : Region) (m : Map Region) (o : Option Region)
    → r.end < s
    → j < stop r
    → Chain stop (stop r) m
    → Finds s e m o
    → Finds s e ((j, r) ∷ m) o
unfolding lookup
Finds-later s e j r m none h k c f = (inr (omega arith), f)
Finds-later s e j r m (some q) h k c f =
    let l = lookup_later q.start (stop r) m q c f.0 in (ground (arith, f.0, l), f.1, f.2)

scan-Finds : (s e lo : ℕ) (m : Map Region) → Chain stop lo m → Keyed m → Finds s e m (scan s e m)
unfolding scan
scan-Finds s e lo [] c k = tt
scan-Finds s e lo ((j, r) ∷ m) c k = elim (Bool-cases (ltb r.end s)) [
  | inl before ↦ rw before (
      Finds-later s e j r m (scan s e m) (ground arith) c.1 c.2 (scan-Finds s e (stop r) m c.2 k.1))
  | inr after ↦ elim (Bool-cases (ltb e r.start)) [
    | inl behind ↦
        rw (after, behind) (inl (ground arith), Free-after s e (stop r) m (ground arith) c.2)
    | inr meet ↦ rw (after, meet) (lookup_head j r m k.0, ground arith, ground arith)
  ]
]

-- On locks in order `find_region` returns one that meets the transaction, and nothing only if none
-- does.
pub find_region-Finds :
    (p : Payload) (m : Map Region)
    → Chain stop 0 m
    → Keyed m
    → Finds p.address (last_address p) m (find_region p m)
unfolding find_region
find_region-Finds p m c k =
    rw (scan_skip p.address (last_address p) 0 m c k)
      (scan-Finds p.address (last_address p) 0 m c k)
