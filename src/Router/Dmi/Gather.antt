-- ===== src/Router/Dmi/Gather.antt =====
-- The set of initiators that an invalidation gathers from the grants that it takes out.
use qbox.Base.{
  ℕ, suc, ◌≤◌, ◌≡◌, ◌⊎◌, inl, inr, true, List, [], ◌∷◌, arith, ltb, ◌==◌, if_both, ltb→lt,
}
use qbox.Base.OrdMap.{Map, set_insert}
use qbox.Router.Dmi.{DmiInfo, insert_all}

abbrev pub In : ℕ → List ℕ → Type 0
In p [] = ⊥
In p (q ∷ qs) = (p ≡ q) ⊎ In p qs

-- An initiator holds one of some grants.
abbrev pub IsHolder : ℕ → Map DmiInfo → Type 0
IsHolder t [] = ⊥
IsHolder t (p ∷ m) = In t p.1.initiators ⊎ IsHolder t m

-- Numbers in ascending order, each of them once, from `lo` on.
abbrev pub IsAscending : ℕ → List ℕ → Type 0
IsAscending lo [] = Unit
IsAscending lo (t ∷ ts) = (lo ≤ t) × IsAscending (suc t) ts

pub set_insert-In : (t p : ℕ) (ts : List ℕ) → (t ≡ p) ⊎ In t ts → In t (set_insert p ts)
unfolding set_insert
set_insert-In t p [] h = h
set_insert-In t p (q ∷ ts) h =
    if_both (In t) (ltb p q) (λ _. h)
      (λ _. if_both (In t) (p == q) (λ same. joined same h) (λ _. behind (set_insert-In t p ts) h))
  where
    joined : (p == q) ≡ true → (t ≡ p) ⊎ In t (q ∷ ts) → In t (q ∷ ts)
    joined same (inl e) = inl (ground (arith, same, e))
    joined same (inr i) = i

    behind :
        ((t ≡ p) ⊎ In t ts → In t (set_insert p ts))
        → (t ≡ p) ⊎ In t (q ∷ ts)
        → In t (q ∷ set_insert p ts)
    behind f (inl e) = inr (f (inl e))
    behind f (inr (inl e)) = inl e
    behind f (inr (inr i)) = inr (f (inr i))

In-set_insert : (t p : ℕ) (ts : List ℕ) → In t (set_insert p ts) → (t ≡ p) ⊎ In t ts
unfolding set_insert
In-set_insert t p [] h = h
In-set_insert t p (q ∷ ts) i =
    if_both (λ z. In t z → (t ≡ p) ⊎ In t (q ∷ ts)) (ltb p q) (λ _ h. h)
      (λ _.
        if_both (λ z. In t z → (t ≡ p) ⊎ In t (q ∷ ts)) (p == q) (λ _ h. inr h)
          (λ _ h. behind (In-set_insert t p ts) h))
      i
  where
    moved : (t ≡ p) ⊎ In t ts → (t ≡ p) ⊎ In t (q ∷ ts)
    moved (inl e) = inl e
    moved (inr i) = inr (inr i)

    behind :
        (In t (set_insert p ts) → (t ≡ p) ⊎ In t ts)
        → In t (q ∷ set_insert p ts)
        → (t ≡ p) ⊎ In t (q ∷ ts)
    behind f (inl e) = inr (inl e)
    behind f (inr i) = moved (f i)

set_insert-IsAscending :
    (lo p : ℕ) (ts : List ℕ) → lo ≤ p → IsAscending lo ts → IsAscending lo (set_insert p ts)
unfolding set_insert
set_insert-IsAscending lo p [] h a = (h, tt)
set_insert-IsAscending lo p (q ∷ ts) h a =
    if_both (IsAscending lo) (ltb p q) (λ less. (h, (ltb→lt p q less, a.1)))
      (λ less.
        if_both (IsAscending lo) (p == q) (λ _. a)
          (λ other. (a.0, set_insert-IsAscending (suc q) p ts (ground (arith, less, other)) a.1)))

insert_all-In : (t : ℕ) (ns ts : List ℕ) → In t ns ⊎ In t ts → In t (insert_all ns ts)
unfolding insert_all
insert_all-In t [] ts (inl i) = elim i [ ]
insert_all-In t [] ts (inr i) = i
insert_all-In t (n ∷ ns) ts (inl (inl e)) =
    insert_all-In t ns (set_insert n ts) (inr (set_insert-In t n ts (inl e)))
insert_all-In t (n ∷ ns) ts (inl (inr i)) = insert_all-In t ns (set_insert n ts) (inl i)
insert_all-In t (n ∷ ns) ts (inr i) =
    insert_all-In t ns (set_insert n ts) (inr (set_insert-In t n ts (inr i)))

In-insert_all : (t : ℕ) (ns ts : List ℕ) → In t (insert_all ns ts) → In t ns ⊎ In t ts
unfolding insert_all
In-insert_all t [] ts i = inr i
In-insert_all t (n ∷ ns) ts i = sorted (In-insert_all t ns (set_insert n ts) i)
  where
    first : (t ≡ n) ⊎ In t ts → In t (n ∷ ns) ⊎ In t ts
    first (inl e) = inl (inl e)
    first (inr j) = inr j

    sorted : In t ns ⊎ In t (set_insert n ts) → In t (n ∷ ns) ⊎ In t ts
    sorted (inl j) = inl (inr j)
    sorted (inr j) = first (In-set_insert t n ts j)

insert_all-IsAscending : (ns ts : List ℕ) → IsAscending 0 ts → IsAscending 0 (insert_all ns ts)
unfolding insert_all
insert_all-IsAscending [] ts a = a
insert_all-IsAscending (n ∷ ns) ts a =
    insert_all-IsAscending ns (set_insert n ts) (set_insert-IsAscending 0 n ts (omega arith) a)

-- What the walk gathers.
unfoldable pub holders : Map DmiInfo → List ℕ → List ℕ
holders [] acc = acc
holders (p ∷ m) acc = holders m (insert_all p.1.initiators acc)

pub holders-all :
    (t : ℕ) (m : Map DmiInfo) (acc : List ℕ) → IsHolder t m ⊎ In t acc → In t (holders m acc)
unfolding holders
holders-all t [] acc (inl i) = elim i [ ]
holders-all t [] acc (inr i) = i
holders-all t (p ∷ m) acc (inl (inl i)) =
    holders-all t m (insert_all p.1.initiators acc)
      (inr (insert_all-In t p.1.initiators acc (inl i)))
holders-all t (p ∷ m) acc (inl (inr i)) = holders-all t m (insert_all p.1.initiators acc) (inl i)
holders-all t (p ∷ m) acc (inr i) =
    holders-all t m (insert_all p.1.initiators acc)
      (inr (insert_all-In t p.1.initiators acc (inr i)))

pub holders-only :
    (t : ℕ) (m : Map DmiInfo) (acc : List ℕ) → In t (holders m acc) → IsHolder t m ⊎ In t acc
unfolding holders
holders-only t [] acc i = inr i
holders-only t (p ∷ m) acc i = sorted (holders-only t m (insert_all p.1.initiators acc) i)
  where
    first : In t p.1.initiators ⊎ In t acc → IsHolder t (p ∷ m) ⊎ In t acc
    first (inl j) = inl (inl j)
    first (inr j) = inr j

    sorted : IsHolder t m ⊎ In t (insert_all p.1.initiators acc) → IsHolder t (p ∷ m) ⊎ In t acc
    sorted (inl j) = inl (inr j)
    sorted (inr j) = first (In-insert_all t p.1.initiators acc j)

pub holders-IsAscending :
    (m : Map DmiInfo) (acc : List ℕ) → IsAscending 0 acc → IsAscending 0 (holders m acc)
unfolding holders
holders-IsAscending [] acc a = a
holders-IsAscending (p ∷ m) acc a =
    holders-IsAscending m (insert_all p.1.initiators acc)
      (insert_all-IsAscending p.1.initiators acc a)
