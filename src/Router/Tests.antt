-- ===== src/Router/Tests.antt =====
-- The theorems on the address map, its caches and the record of grants, at work on the samples.
use qbox.Base.{ℕ, ◌≡◌, refl, List, [], ◌∷◌, map, Option, none, some, arith}
use qbox.Base.OrdMap.{Map}
use qbox.Base.Intervals.{Free}
use qbox.Base.Intervals.Sweep.{outside}
use qbox.Tlm.{read_write_allowed}
use qbox.Router.Target.{Target}
use qbox.Router.AddressMap.{add}
use qbox.Router.AddressMap.Segments.{owner}
use qbox.Router.AddressMap.Resolve.{IsValid}
use qbox.Router.AddressMap.Winner.{Won, add_targets-best, add_wrapped}
use qbox.Router.AddressMap.Lookup.{Answers}
use qbox.Router.Cache.{adds, finds, answers}
use qbox.Router.Cache.Lawful.{owners, answers-owners}
use qbox.Router.Cache.Lru.Lawful.{lru, new_lru, lru-IsLawful}
use qbox.Router.Cache.Lru.{
  LruCache, Op, gets, puts, clears, run, new_cache, put, get, node_at, clear, without,
}
use qbox.Router.Cache.Lru.History
use qbox.Router.Cache.Lru.History.{run-Answers}
use qbox.Router.Cache.RegionFifo.{second_find, second_find-steals}
use qbox.Router.Cache.RegionLru
use qbox.Router.Dmi.{DmiInfo, invalidate_ts}
use qbox.Router.Dmi.Invalidate
use qbox.Router.Dmi.Invalidate.{stop, invalidate_ts_lem, invalidate_ts-misses}
use qbox.Router.Samples.{ram, uart, top, platform, built, built-IsValid, ram-owner}

add_targets-best_example : IsValid built × Won 4112 platform none (owner 4112 built)
add_targets-best_example = add_targets-best platform 4112

add_wrapped_example : owner 18446744073709547776 (add top built) ≡ owner 18446744073709547776 built
add_wrapped_example = add_wrapped top built 18446744073709547776 (omega arith) built-IsValid

answers-owners_example :
    answers lru
      (record { regions = []; cache = lru.clear new_lru })
      (adds ram ∷ finds 4112 1 ∷ adds uart ∷ finds 4112 1 ∷ [])
    ≡ owners [] (adds ram ∷ finds 4112 1 ∷ adds uart ∷ finds 4112 1 ∷ [])
answers-owners_example =
    answers-owners lru lru-IsLawful (adds ram ∷ finds 4112 1 ∷ adds uart ∷ finds 4112 1 ∷ [])
      (record { regions = []; cache = lru.clear new_lru })
      (record { chain = tt; entries = tt }, lru-IsLawful.clear_agrees new_lru (λ a. owner a []))

-- A second value for a key, and a key that is missing after a clearing.
abbrev lookups : List Op
lookups =
    puts 4096 (some ram) 1
    ∷ puts 4096 none 1
    ∷ gets 4096
    ∷ puts 8192 (some uart) 1
    ∷ gets 4096
    ∷ clears
    ∷ gets 8192
    ∷ []

run-Answers_example :
    (rs : List (Option (Option Target))) × (c' : LruCache) × (run lookups new_cache ≡ some (rs, c'))
    × History.Answers (λ k. none) none 0 lookups rs
run-Answers_example = run-Answers lookups

lookups_answered :
    (c' : LruCache) × (run lookups new_cache ≡ some (some none ∷ some none ∷ none ∷ [], c'))
unfolding run put get node_at clear without
lookups_answered = (_, refl)

second_find-steals_example :
    second_find 8192 4112
      (record { regions = built; cache = record { entries = []; hits = 0; misses = 0 } })
    ≡ some ram
second_find-steals_example =
    second_find-steals built ram 8192 4112 built-IsValid ram-owner (omega arith) (omega arith)

abbrev grant : ℕ → ℕ → ℕ → DmiInfo
grant start end who = record {
  initiators = who ∷ [];
  dmi = record { ptr = 0; start_address = start; end_address = end; access = read_write_allowed };
}

abbrev grants : Map DmiInfo
grants = (0, grant 0 4095 5) ∷ (8192, grant 8192 12287 6) ∷ []

grants-IsValid : Invalidate.IsValid grants
grants-IsValid = record { chain = ground arith; keys = (refl, (refl, tt)) }

invalidate_ts_lem_example :
    (ts : List ℕ) × ((invalidate_ts 4000 8200 grants).0 ≡ outside stop 4000 8200 grants)
    × ((invalidate_ts 4000 8200 grants).1
        ≡ map (λ t. record { initiator = t; start = 4000; end = 8200 }) ts)
    × Invalidate.Holders 4000 8200 grants ts
    × Invalidate.IsValid (outside stop 4000 8200 grants)
    × Free stop 4000 8201 (outside stop 4000 8200 grants)
invalidate_ts_lem_example = invalidate_ts_lem 4000 8200 grants grants-IsValid

invalidate_ts-misses_example :
    (rest : Map DmiInfo) × ((invalidate_ts 5000 5000
        ((0, grant 0 65535 5) ∷ (4096, grant 4096 4351 6) ∷ [])).0
      ≡ (0, grant 0 65535 5) ∷ rest)
    × ((invalidate_ts 5000 5000 ((0, grant 0 65535 5) ∷ (4096, grant 4096 4351 6) ∷ [])).1
        ≡ (invalidate_ts 5000 5000 ((4096, grant 4096 4351 6) ∷ [])).1)
invalidate_ts-misses_example =
    invalidate_ts-misses 5000 5000 0 4096 (grant 0 65535 5) (grant 4096 4351 6) [] (omega arith)
      (omega arith) (omega arith)

abbrev one_entry : RegionLru.RegionLruCache
one_entry = record {
  entries = record { start = 0; end = 65536; target = ram } ∷ [];
  hits = 0;
  misses = 0;
}
