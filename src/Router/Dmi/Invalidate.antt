-- ===== src/Router/Dmi/Invalidate.antt =====
-- What an invalidation takes out of the record, and whom it tells.
use qbox.Base.{
  ℕ, suc, ◌≤◌, All-drop, ◌<◌, ◌≡◌, ◌⊎◌, inl, inr, refl, List, [], ◌∷◌, map, arith, All, drop,
}
use qbox.Base.OrdMap.{Map, upper_bound}
use qbox.Base.Intervals.{Chain, Free}
use qbox.Base.Intervals.Sweep.{
  outside, inside, outside_after, outside_skip, start_at, drop-Chain, outside-Chain, outside-Free,
  outside-All,
}
use qbox.Router.Dmi.Gather.{
  In, IsHolder, IsAscending, holders, holders-all, holders-only, holders-IsAscending,
}
use qbox.Router.Dmi.{DmiInfo, insert_all, sweep, invalidate_ts}

abbrev pub stop : DmiInfo → ℕ
stop i = suc i.dmi.end_address

-- Grants in order without overlap, keyed by their first address.
pub record IsValid (m : Map DmiInfo) : Type 0 where
  pub chain : Chain stop 0 m
  pub keys : All (λ p. p.0 ≡ p.1.dmi.start_address) m

-- The initiators to call back for a range: the holders of the grants that meet it.
pub record Holders (s e : ℕ) (m : Map DmiInfo) (ts : List ℕ) : Type 0 where
  pub ascending : IsAscending 0 ts
  pub all : (t : ℕ) → IsHolder t (inside stop s e m) → In t ts
  pub only : (t : ℕ) → In t ts → IsHolder t (inside stop s e m)

holders-Holders : (s e : ℕ) (m : Map DmiInfo) → Holders s e m (holders (inside stop s e m) [])
holders-Holders s e m = record {
  ascending = holders-IsAscending (inside stop s e m) [] tt;
  all = λ t h. holders-all t (inside stop s e m) [] (inl h);
  only = λ t i. in_none t (holders-only t (inside stop s e m) [] i);
}
  where
    in_none : (t : ℕ) → IsHolder t (inside stop s e m) ⊎ In t [] → IsHolder t (inside stop s e m)
    in_none t (inl h) = h
    in_none t (inr i) = elim i [ ]

sweep-outside :
    (s e lo : ℕ) (m : Map DmiInfo) (acc : List ℕ)
    → Chain stop lo m
    → All (λ p. p.0 ≡ p.1.dmi.start_address) m
    → sweep s e m acc ≡ (outside stop s e m, holders (inside stop s e m) acc)
unfolding sweep outside inside holders
sweep-outside s e lo [] acc c k = refl
sweep-outside s e lo ((j, r) ∷ m) acc c k = ground (
  arith,
  sweep-outside s e (stop r) m acc c.2 k.1,
  sweep-outside s e (stop r) m (insert_all r.initiators acc) c.2 k.1,
  outside_after stop s e (stop r) m,
)

-- From recorded grants in order without overlap, an invalidation of [s, e] takes out exactly the
-- grants that meet the range, leaves a valid record without a grant there, and calls back, with the
-- range, each initiator that held one of the grants taken out and no other, once, in ascending
-- order.
pub invalidate_ts_lem :
    (s e : ℕ) (m : Map DmiInfo)
    → IsValid m
    → (ts : List ℕ) × ((invalidate_ts s e m).0 ≡ outside stop s e m)
      × ((invalidate_ts s e m).1 ≡ map (λ t. record { initiator = t; start = s; end = e }) ts)
      × Holders s e m ts
      × IsValid (outside stop s e m)
      × Free stop s (suc e) (outside stop s e m)
unfolding invalidate_ts
invalidate_ts_lem s e m v =
    let walk =
      sweep-outside s e 0 (drop (start_at stop s m) m) []
        (drop-Chain stop (start_at stop s m) 0 m v.chain)
        (All-drop _ (start_at stop s m) m v.keys) in
    let skip = outside_skip stop s e 0 m v.chain in
    (
      holders (inside stop s e m) [],
      ground (arith, skip, walk),
      ground (arith, skip, walk),
      holders-Holders s e m,
      record { chain = outside-Chain stop s e 0 m v.chain; keys = outside-All stop _ s e m v.keys },
      outside-Free stop s e m,
    )

-- The bug: where recorded grants do overlap, a grant that holds the whole range is passed over if
-- another one begins later, but not after `s`. It stays, and its initiators are not told of it.
pub invalidate_ts-misses :
    (s e k j : ℕ) (r q : DmiInfo) (m : Map DmiInfo)
    → k < j
    → j ≤ s
    → e ≤ r.dmi.end_address
    → (rest : Map DmiInfo) × ((invalidate_ts s e ((k, r) ∷ (j, q) ∷ m)).0 ≡ (k, r) ∷ rest)
      × ((invalidate_ts s e ((k, r) ∷ (j, q) ∷ m)).1 ≡ (invalidate_ts s e ((j, q) ∷ m)).1)
unfolding invalidate_ts upper_bound
invalidate_ts-misses s e k j r q m h l n =
    ((invalidate_ts s e ((j, q) ∷ m)).0, ground arith, ground arith)
