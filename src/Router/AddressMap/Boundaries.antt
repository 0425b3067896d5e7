-- ===== src/Router/AddressMap/Boundaries.antt =====
-- Step 4 of `split_and_resolve`: the set of boundaries.
use qbox.Base.{ℕ, ◌<◌, refl, inl, List, [], ◌∷◌, arith, All}
use qbox.Base.OrdMap.{set_insert}
use qbox.Router.AddressMap.{Interval, insert_boundaries}
use qbox.Router.AddressMap.Walk.{Ascending, In, IsSorted, Ends}

set_insert-Ascending :
    (a p : ℕ) (bs : List ℕ) → a < p → Ascending a bs → Ascending a (set_insert p bs)
unfolding set_insert
set_insert-Ascending a p [] h c = (h, tt)
set_insert-Ascending a p (b ∷ bs) h c = ground (arith, set_insert-Ascending b p bs)

set_insert-IsSorted : (p : ℕ) (bs : List ℕ) → IsSorted bs → IsSorted (set_insert p bs)
unfolding set_insert
set_insert-IsSorted p [] c = tt
set_insert-IsSorted p (b ∷ bs) c = ground (arith, set_insert-Ascending b p bs)

set_insert-In : (p : ℕ) (bs : List ℕ) → In p (set_insert p bs)
unfolding set_insert
set_insert-In p [] = inl refl
set_insert-In p (b ∷ bs) = ground (arith, set_insert-In p bs)

set_insert-keeps : (p q : ℕ) (bs : List ℕ) → In q bs → In q (set_insert p bs)
unfolding set_insert
set_insert-keeps p q [] h = absurd h
set_insert-keeps p q (b ∷ bs) h = ground (arith, set_insert-keeps p q bs)

pub insert_boundaries-IsSorted :
    (is : List Interval) (bs : List ℕ) → IsSorted bs → IsSorted (insert_boundaries is bs)
unfolding insert_boundaries
insert_boundaries-IsSorted [] bs c = c
insert_boundaries-IsSorted (i ∷ is) bs c =
    insert_boundaries-IsSorted is _ (set_insert-IsSorted i.end _ (set_insert-IsSorted i.start bs c))

insert_boundaries-keeps :
    (is : List Interval) (q : ℕ) (bs : List ℕ) → In q bs → In q (insert_boundaries is bs)
unfolding insert_boundaries
insert_boundaries-keeps [] q bs h = h
insert_boundaries-keeps (i ∷ is) q bs h =
    insert_boundaries-keeps is q _ (set_insert-keeps i.end q _ (set_insert-keeps i.start q bs h))

pub insert_boundaries-Ends :
    (is : List Interval) (bs : List ℕ) → All (Ends (insert_boundaries is bs)) is
unfolding insert_boundaries
insert_boundaries-Ends [] bs = tt
insert_boundaries-Ends (i ∷ is) bs = (
  (
    insert_boundaries-keeps is i.start _
        (set_insert-keeps i.end i.start _ (set_insert-In i.start bs)),
    insert_boundaries-keeps is i.end _ (set_insert-In i.end _),
  ),
  insert_boundaries-Ends is _,
)
