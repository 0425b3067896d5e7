-- ===== src/RegRouter/Decode.antt =====
-- Which target of register memory gets a transaction.
use qbox.Base.{
  ℕ, ◌<◌, ◌≡◌, ◌≢◌, refl, ◌⊎◌, inl, inr, true, false, not, ◌&&◌, List, [], ◌∷◌, Option, none, some,
  arith, All, ltb, ◌==◌, Bool-cases,
}
use qbox.Base.Outcomes.{Outcome, done, fatal, no_fuel}
use qbox.Router.Target.{Target, claims}
use qbox.RegRouter.{RegRouter, better, decode, decode_address}

-- A target is one of a list.
abbrev pub IsOf : Target → List Target → Type 0
IsOf t [] = ⊥
IsOf t (u ∷ us) = (t ≡ u) ⊎ IsOf t us

-- `u` does not claim the address, or has a higher priority number, or is the same target.
abbrev pub IsWeaker : ℕ → Target → Target → Type 0
IsWeaker addr t u =
    (claims u addr ≡ false)
    ⊎ (t.priority < u.priority)
    ⊎ ((u.priority ≡ t.priority) × (u.ref ≡ t.ref))

-- What a decoding says of the targets.
abbrev pub Decodes : ℕ → List Target → Outcome (Option Target) → Type 0
Decodes addr ts (done none) = All (λ u. claims u addr ≡ false) ts
Decodes addr ts (done (some t)) = IsOf t ts × (claims t addr ≡ true) × All (IsWeaker addr t) ts
Decodes addr ts fatal =
    (t : Target) × (u : Target) × IsOf t ts
    × IsOf u ts
    × (claims t addr ≡ true)
    × (claims u addr ≡ true)
    × (t.priority ≡ u.priority)
    × (t.ref ≢ u.ref)
Decodes addr ts no_fuel = ⊥

module _ (addr : ℕ) where
  -- The same of the targets that the loop has seen and of those that are left.
  abbrev Either : Target → List Target → List Target → Type 0
  Either t seen ts = IsOf t seen ⊎ IsOf t ts

  abbrev Splits : List Target → List Target → Outcome (Option Target) → Type 0
  Splits seen ts (done none) =
      All (λ u. claims u addr ≡ false) seen × All (λ u. claims u addr ≡ false) ts
  Splits seen ts (done (some t)) =
      Either t seen ts
      × (claims t addr ≡ true)
      × All (IsWeaker addr t) seen
      × All (IsWeaker addr t) ts
  Splits seen ts fatal =
      (t : Target) × (u : Target) × Either t seen ts
      × Either u seen ts
      × (claims t addr ≡ true)
      × (claims u addr ≡ true)
      × (t.priority ≡ u.priority)
      × (t.ref ≢ u.ref)
  Splits seen ts no_fuel = ⊥

  move : (t u : Target) (seen ts : List Target) → Either u (t ∷ seen) ts → Either u seen (t ∷ ts)
  move t u seen ts (inl (inl e)) = inr (inl e)
  move t u seen ts (inl (inr e)) = inl e
  move t u seen ts (inr e) = inr (inr e)

  Splits-move :
      (t : Target) (seen ts : List Target) (o : Outcome (Option Target))
      → Splits (t ∷ seen) ts o
      → Splits seen (t ∷ ts) o
  Splits-move t seen ts (done none) h = (h.0.1, (h.0.0, h.1))
  Splits-move t seen ts (done (some u)) h = (move t u seen ts h.0, h.1, h.2.1, (h.2.0, h.3))
  Splits-move t seen ts fatal h =
      (h.0, h.1, move t h.0 seen ts h.2, move t h.1 seen ts h.3, h.4, h.5, h.6, h.7)
  Splits-move t seen ts no_fuel h = h

  -- The best target so far.
  abbrev BestOf : List Target → Option Target → Type 0
  BestOf seen none = All (λ u. claims u addr ≡ false) seen
  BestOf seen (some t) = IsOf t seen × (claims t addr ≡ true) × All (IsWeaker addr t) seen

  none-IsWeaker :
      (t : Target) (seen : List Target)
      → All (λ u. claims u addr ≡ false) seen
      → All (IsWeaker addr t) seen
  none-IsWeaker t [] h = tt
  none-IsWeaker t (u ∷ us) h = (inl h.0, none-IsWeaker t us h.1)

  IsWeaker-step : (t b u : Target) → t.priority < b.priority → IsWeaker addr b u → IsWeaker addr t u
  IsWeaker-step t b u h (inl e) = inl e
  IsWeaker-step t b u h (inr (inl e)) = inr (inl (omega arith))
  IsWeaker-step t b u h (inr (inr e)) = inr (inl (omega (arith, e.0)))

  all-IsWeaker :
      (t b : Target) (seen : List Target)
      → t.priority < b.priority
      → All (IsWeaker addr b) seen
      → All (IsWeaker addr t) seen
  all-IsWeaker t b [] h a = tt
  all-IsWeaker t b (u ∷ us) h a = (IsWeaker-step t b u h a.0, all-IsWeaker t b us h a.1)

  pass_over :
      (t : Target) (seen : List Target) (best : Option Target)
      → claims t addr ≡ false
      → BestOf seen best
      → BestOf (t ∷ seen) best
  pass_over t seen none e h = (e, h)
  pass_over t seen (some b) e h = (inr h.0, h.1, (inl e, h.2))

  level-IsWeaker :
      (t b : Target)
      → ltb t.priority b.priority ≡ false
      → ((t.priority == b.priority) && not (t.ref == b.ref)) ≡ false
      → IsWeaker addr b t
  level-IsWeaker t b e f = elim (Bool-cases (ltb b.priority t.priority)) [
    | inl above ↦ inr (inl (ground (arith, above)))
    | inr level ↦ inr (inr (ground (arith, e, level), ground (arith, e, f, level)))
  ]

  better-Splits :
      (t : Target) (seen ts : List Target) (best : Option Target)
      (rest : Option Target → Outcome (Option Target))
      → claims t addr ≡ true
      → BestOf seen best
      → ((o : Option Target) → BestOf (t ∷ seen) o → Splits (t ∷ seen) ts (rest o))
      → Splits (t ∷ seen) ts (better rest t best)
  better-Splits t seen ts none rest e h k =
      k (some t) (inl refl, e, (inr (inr (refl, refl)), none-IsWeaker t seen h))
  better-Splits t seen ts (some b) rest e h k = elim (Bool-cases (ltb t.priority b.priority)) [
    | inl lower ↦ rw lower (
        k (some t) (
          inl refl,
          e,
          (inr (inr (refl, refl)), all-IsWeaker t b seen (ground (arith, lower)) h.2),
        ))
    | inr higher ↦ elim (Bool-cases ((t.priority == b.priority) && not (t.ref == b.ref))) [
      | inl clash ↦ rw higher (
          rw clash (
            t,
            b,
            inl (inl refl),
            inl (inr h.0),
            e,
            h.1,
            ground (arith, clash),
            ground (arith, clash),
          ))
      | inr clear ↦
          rw higher (rw clear (k (some b) (inr h.0, h.1, (level-IsWeaker t b higher clear, h.2))))
    ]
  ]

  decode-Splits :
      (seen ts : List Target) (best : Option Target)
      → BestOf seen best
      → Splits seen ts (decode addr ts best)
  unfolding decode
  decode-Splits seen [] none h = (h, tt)
  decode-Splits seen [] (some b) h = (inl h.0, h.1, h.2, tt)
  decode-Splits seen (t ∷ ts) best h = elim (Bool-cases (claims t addr)) [
    | inl claimed ↦ rw claimed (
        Splits-move t seen ts (better (decode addr ts) t best) (
          better-Splits t seen ts best (decode addr ts) claimed h
            (λ o g. decode-Splits (t ∷ seen) ts o g)))
    | inr other ↦ rw other (
        Splits-move t seen ts (decode addr ts best)
          (decode-Splits (t ∷ seen) ts best (pass_over t seen best other h)))
  ]

  from_none : (t : Target) (ts : List Target) → Either t [] ts → IsOf t ts
  from_none t ts (inl e) = absurd e
  from_none t ts (inr e) = e

  Splits-Decodes :
      (ts : List Target) (o : Outcome (Option Target)) → Splits [] ts o → Decodes addr ts o
  Splits-Decodes ts (done none) h = h.1
  Splits-Decodes ts (done (some t)) h = (from_none t ts h.0, h.1, h.3)
  Splits-Decodes ts fatal h =
      (h.0, h.1, from_none h.0 ts h.2, from_none h.1 ts h.3, h.4, h.5, h.6, h.7)
  Splits-Decodes ts no_fuel h = h

-- The decoding of an address: nothing is returned where no target claims it; a target that is
-- returned claims it, with a lower priority number than every other target that does; and the
-- simulation ends only where two targets of one priority claim the address.
pub decode_address-Decodes :
    (r : RegRouter) (addr : ℕ) → Decodes addr r.mem_targets (decode_address r addr)
unfolding decode_address
decode_address-Decodes r addr =
    Splits-Decodes addr r.mem_targets (decode addr r.mem_targets none)
      (decode-Splits addr [] r.mem_targets none tt)
