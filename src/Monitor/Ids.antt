-- ===== src/Monitor/Ids.antt =====
-- `operator==` on identifiers, which are vectors.
use qbox.Base.{◌≡◌, refl, true, [], ◌∷◌, arith}
use qbox.Monitor.{InitiatorId, same_id}

pub same_id_self : (i : InitiatorId) → same_id i i ≡ true
unfolding same_id
same_id_self [] = refl
same_id_self (x ∷ xs) = ground (arith, same_id_self xs)

pub same_id_eq : (i j : InitiatorId) → same_id i j ≡ true → i ≡ j
unfolding same_id
same_id_eq [] [] h = refl
same_id_eq [] (y ∷ ys) h = cc
same_id_eq (x ∷ xs) [] h = cc
same_id_eq (x ∷ xs) (y ∷ ys) h = ground (arith, same_id_eq xs ys)
