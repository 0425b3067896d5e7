-- ===== src/Router/Dmi/Record.antt =====
-- `record_dmi` and the guard of `in_dmi_cache`.
use qbox.Base.{
  ℕ, suc, ◌≤◌, ◌≡◌, refl, sym, inl, inr, true, false, [], Option, none, some, arith, Option-cases,
  Bool-cases, ◌==◌,
}
use mathlib.Core.Path.{subst}
use qbox.Base.OrdMap.{Map, lookup, emplace, set_insert, lookup-assign_self}
use qbox.Base.Intervals.{lookup-Free}
use qbox.Base.Intervals.Sweep.{outside}
use qbox.Tlm.{Dmi}
use qbox.Router.Dmi.{DmiInfo, in_dmi_cache, make_way, add_initiator, record_dmi}
use qbox.Router.Dmi.Gather.{In, set_insert-In}
use qbox.Router.Dmi.Invalidate.{stop, IsValid, invalidate_ts_lem}

-- The grant is on record, with the initiator among its holders.
abbrev pub IsRecorded : ℕ → Dmi → Option (Map DmiInfo) → Type 0
IsRecorded id d none = ⊥
IsRecorded id d (some m) =
    (i : DmiInfo) × (lookup d.start_address m ≡ some i)
    × (i.dmi.end_address ≡ d.end_address)
    × In id i.initiators

add_initiator-IsRecorded :
    (id : ℕ) (d : Dmi) (i : DmiInfo) (m : Map DmiInfo)
    → i.dmi.end_address ≡ d.end_address
    → IsRecorded id d (add_initiator id d (some (i, m)))
add_initiator-IsRecorded id d i m e = (
  record i { initiators = set_insert id i.initiators },
  lookup-assign_self d.start_address _ m,
  e,
  set_insert-In id id i.initiators (inl refl),
)

-- After the first part there is no grant with another end.
abbrev Ready : Dmi → Option DmiInfo → Type 0
Ready d none = Unit
Ready d (some i) = i.dmi.end_address ≡ d.end_address

known :
    (d : Dmi) (m : Map DmiInfo) (i : DmiInfo)
    → lookup d.start_address m ≡ some i
    → i.dmi.end_address ≡ d.end_address
    → in_dmi_cache d m ≡ some (i, m)
unfolding in_dmi_cache
known d m i f e = ground arith

unknown :
    (d : Dmi) (m : Map DmiInfo)
    → lookup d.start_address m ≡ none
    → in_dmi_cache d m
      ≡ some (
        record { initiators = []; dmi = d },
        emplace d.start_address (record { initiators = []; dmi = d }) m,
      )
unfolding in_dmi_cache
unknown d m n = rw (n, in_dmi_cache)

Ready-IsRecorded :
    (id : ℕ) (d : Dmi) (m : Map DmiInfo)
    → Ready d (lookup d.start_address m)
    → IsRecorded id d (add_initiator id d (in_dmi_cache d m))
Ready-IsRecorded id d m r = elim (Option-cases (lookup d.start_address m)) [
  | inl n ↦ rw (unknown d m n) (add_initiator-IsRecorded id d _ _ refl)
  | inr (i, f) ↦
      let e = subst (Ready d) f r in rw (known d m i f e) (add_initiator-IsRecorded id d i m e)
]

make_way-Ready :
    (d : Dmi) (m : Map DmiInfo)
    → d.start_address ≤ d.end_address
    → IsValid m
    → Ready d (lookup d.start_address (make_way d m).0)
unfolding make_way
make_way-Ready d m h v = elim (Option-cases (lookup d.start_address m)) [
  | inl n ↦ subst (λ r. Ready d (lookup d.start_address r)) (sym (stays n)) (rw n tt)
  | inr (i, f) ↦ elim (Bool-cases (i.dmi.end_address == d.end_address)) [
    | inl same ↦
        subst (λ r. Ready d (lookup d.start_address r)) (sym (keeps i f same)) (rw f (ground arith))
    | inr other ↦
        subst (λ r. Ready d (lookup d.start_address r)) (sym (clears i f other)) (rw gone tt)
  ]
]
  where
    stays : lookup d.start_address m ≡ none → (make_way d m).0 ≡ m
    stays n = rw (n, make_way)

    keeps :
        (i : DmiInfo)
        → lookup d.start_address m ≡ some i
        → (i.dmi.end_address == d.end_address) ≡ true
        → (make_way d m).0 ≡ m
    keeps i f e = ground (arith, f, e)

    clears :
        (i : DmiInfo)
        → lookup d.start_address m ≡ some i
        → (i.dmi.end_address == d.end_address) ≡ false
        → (make_way d m).0 ≡ outside stop d.start_address d.end_address m
    clears i f e = ground (arith, f, e, (invalidate_ts_lem d.start_address d.end_address m v).1)

    gone : lookup d.start_address (outside stop d.start_address d.end_address m) ≡ none
    gone =
        let l = invalidate_ts_lem d.start_address d.end_address m v in
        lookup-Free stop 0 d.start_address (suc d.end_address) _ (omega arith) l.5 l.4.chain

-- In a valid record `record_dmi` never meets the error of `in_dmi_cache`: it ends with the grant
-- on record, with its own end, and the initiator among its holders.
pub record_dmi-IsRecorded :
    (id : ℕ) (d : Dmi) (m : Map DmiInfo)
    → d.start_address ≤ d.end_address
    → IsValid m
    → IsRecorded id d (record_dmi id d m).0
unfolding record_dmi
record_dmi-IsRecorded id d m h v = Ready-IsRecorded id d (make_way d m).0 (make_way-Ready d m h v)
