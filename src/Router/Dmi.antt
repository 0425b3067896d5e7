-- ===== src/Router/Dmi.antt =====
-- The router's record of the DMI grants that it has passed on: `in_dmi_cache`, `record_dmi` and
-- `invalidate_direct_mem_ptr_ts` of systemc-components/router/include/router.h.
pub mod Gather
pub mod Invalidate
pub mod Record
use qbox.Base.{
  ℕ, Bool, true, false, List, [], ◌∷◌, ◌++◌, map, Option, none, some, ltb, ◌==◌, if◌then◌else◌,
  drop, take,
}
use qbox.Base.OrdMap.{Map, lookup, emplace, assign, upper_bound, step_back, set_insert}
use qbox.Tlm.{Dmi}

-- `dmi_info`: a grant with the set of the initiators that hold it.
pub record DmiInfo : Type 0 where
  pub initiators : List ℕ
  pub dmi : Dmi

-- A call of `invalidate_direct_mem_ptr` on a target socket.
pub record Invalidation : Type 0 where
  pub initiator : ℕ
  pub start : ℕ
  pub end : ℕ

unfoldable pub insert_all : List ℕ → List ℕ → List ℕ
insert_all [] acc = acc
insert_all (t ∷ ts) acc = insert_all ts (set_insert t acc)

-- The loop from an iterator on: what is left behind it, and the initiators that lost a grant.
unfoldable pub sweep : ℕ → ℕ → Map DmiInfo → List ℕ → Map DmiInfo × List ℕ
sweep start end [] acc = ([], acc)
sweep start end ((k, r) ∷ m) acc =
    let stay = sweep start end m acc in
    let gone = sweep start end m (insert_all r.initiators acc) in
    if ltb end r.dmi.start_address
    then ((k, r) ∷ m, acc)
    else if ltb r.dmi.end_address start
    then ((k, r) ∷ stay.0, stay.1)
    else gone

unfoldable pub sweep_from : ℕ → ℕ → ℕ → Map DmiInfo → Map DmiInfo × List ℕ
unfolding sweep
sweep_from it start end m =
    let (rest, initiators) = sweep start end (drop it m) [] in (take it m ++ rest, initiators)

-- `invalidate_direct_mem_ptr_ts`, with the calls that it makes.
unfoldable pub invalidate_ts : ℕ → ℕ → Map DmiInfo → Map DmiInfo × List Invalidation
unfolding sweep_from
invalidate_ts start end m =
    let (left, initiators) = sweep_from (step_back (upper_bound start m)) start end m in
    (left, map (λ t. record { initiator = t; start = start; end = end }) initiators)

-- `in_dmi_cache`; `none` is the error that it reports.
unfoldable pub in_dmi_cache : Dmi → Map DmiInfo → Option (DmiInfo × Map DmiInfo)
in_dmi_cache d m = elim (lookup d.start_address m) [
  | some i ↦ if i.dmi.end_address == d.end_address then some (i, m) else none
  | none ↦ some (
    record { initiators = []; dmi = d },
    emplace d.start_address (record { initiators = []; dmi = d }) m,
  )
]

-- The first part of `record_dmi`: a grant with another end gives way.
unfoldable pub make_way : Dmi → Map DmiInfo → Map DmiInfo × List Invalidation
make_way d m = elim (lookup d.start_address m) [
  | some i ↦
      if i.dmi.end_address == d.end_address
      then (m, [])
      else invalidate_ts d.start_address d.end_address m
  | none ↦ (m, [])
]

abbrev pub add_initiator : ℕ → Dmi → Option (DmiInfo × Map DmiInfo) → Option (Map DmiInfo)
add_initiator id d none = none
add_initiator id d (some (i, m)) =
    some (assign d.start_address (record i { initiators = set_insert id i.initiators }) m)

-- `record_dmi`
unfoldable pub record_dmi : ℕ → Dmi → Map DmiInfo → Option (Map DmiInfo) × List Invalidation
unfolding make_way in_dmi_cache
record_dmi id d m =
    let (m', calls) = make_way d m in (add_initiator id d (in_dmi_cache d m'), calls)
