-- ===== src/Smmu/Tlb/Keys.antt =====
-- The keys of the map and of the list of the IOTLB, counted.
use qbox.Base.{
  ℕ, suc, ◌+◌, ◌<◌, ◌≡◌, refl, sym, ap, ◌∙◌, inl, inr, Bool, true, false, none, some, List, [], ◌∷◌,
  length, arith, Bool-cases, and_true, ==_iff, ◌==◌, if◌then◌else◌, some_injective,
}
use mathlib.Core.Path.{subst}
use qbox.Smmu.Tlb.{TlbKey, TlbMap, same_bool, same_key, find, erase, remove, back, pop_back, has}

same_bool-eq : (a b : Bool) → same_bool a b ≡ true → a ≡ b
same_bool-eq true b e = sym e
same_bool-eq false true e = cc
same_bool-eq false false e = refl

same_bool_refl : (a : Bool) → same_bool a a ≡ true
same_bool_refl true = refl
same_bool_refl false = refl

pub same_key-eq : (k o : TlbKey) → same_key k o ≡ true → k ≡ o
unfolding same_key
same_key-eq k o e =
    let (e6, regime) = and_true _ (k.regime == o.regime) e in
    let (e5, secure) = and_true _ (same_bool k.secure o.secure) e6 in
    let (e4, level) = and_true _ (k.level == o.level) e5 in
    let (e3, tg) = and_true _ (k.tg == o.tg) e4 in
    let (e2, iova) = and_true _ (k.iova == o.iova) e3 in
    let (vmid, asid) = and_true (k.vmid == o.vmid) (k.asid == o.asid) e2 in
    λ i. record {
      vmid = (==_iff k.vmid o.vmid).0 vmid i;
      asid = (==_iff k.asid o.asid).0 asid i;
      iova = (==_iff k.iova o.iova).0 iova i;
      tg = (==_iff k.tg o.tg).0 tg i;
      level = (==_iff k.level o.level).0 level i;
      secure = same_bool-eq k.secure o.secure secure i;
      regime = (==_iff k.regime o.regime).0 regime i;
    }

pub same_key_refl : (k : TlbKey) → same_key k k ≡ true
unfolding same_key
same_key_refl k = ground (arith, same_bool_refl k.secure)

-- How often a key is in a list.
unfoldable pub occurs : TlbKey → List TlbKey → ℕ
occurs k [] = 0
occurs k (o ∷ l) = let rest = occurs k l in if same_key k o then suc rest else rest

abbrev pub keys : TlbMap → List TlbKey
keys [] = []
keys ((k, e) ∷ m) = k ∷ keys m

pub occurs_same : (k o : TlbKey) → same_key k o ≡ true → (l : List TlbKey) → occurs k l ≡ occurs o l
occurs_same k o e l = ap (λ z. occurs z l) (same_key-eq k o e)

-- Two keys that differ from each other are not both the same as a third one.
pub other_key : (k o x : TlbKey) → same_key k o ≡ false → same_key o x ≡ true → same_key k x ≡ false
other_key k o x h e = subst (λ z. same_key k z ≡ false) (same_key-eq o x e) h

pub occurs-remove :
    (k o : TlbKey) (l : List TlbKey) → same_key k o ≡ false → occurs k (remove o l) ≡ occurs k l
unfolding occurs remove
occurs-remove k o [] h = refl
occurs-remove k o (x ∷ l) h = ground (arith, occurs-remove k o l, other_key k o x)

pub occurs-remove_self : (k : TlbKey) (l : List TlbKey) → occurs k (remove k l) ≡ 0
unfolding occurs remove
occurs-remove_self k [] = refl
occurs-remove_self k (x ∷ l) = ground (arith, occurs-remove_self k l)

keys-erase : (k : TlbKey) (m : TlbMap) → keys (erase k m) ≡ remove k (keys m)
unfolding erase remove
keys-erase k [] = refl
keys-erase k ((o, e) ∷ m) = elim (Bool-cases (same_key k o)) [
  | inl h ↦
      ap (λ z. keys (if z then erase k m else (o, e) ∷ erase k m)) h
      ∙ keys-erase k m
      ∙ sym (ap (λ z. if z then remove k (keys m) else o ∷ remove k (keys m)) h)
  | inr h ↦
      ap (λ z. keys (if z then erase k m else (o, e) ∷ erase k m)) h
      ∙ ap (λ z. o ∷ z) (keys-erase k m)
      ∙ sym (ap (λ z. if z then remove k (keys m) else o ∷ remove k (keys m)) h)
]

pub occurs-erase :
    (k o : TlbKey) (m : TlbMap)
    → same_key k o ≡ false
    → occurs k (keys (erase o m)) ≡ occurs k (keys m)
occurs-erase k o m h = ap (occurs k) (keys-erase o m) ∙ occurs-remove k o (keys m) h

pub occurs-erase_self : (k : TlbKey) (m : TlbMap) → occurs k (keys (erase k m)) ≡ 0
occurs-erase_self k m = ap (occurs k) (keys-erase k m) ∙ occurs-remove_self k (keys m)

pub length-erase : (k : TlbKey) (m : TlbMap) → length (erase k m) + occurs k (keys m) ≡ length m
unfolding erase occurs
length-erase k [] = refl
length-erase k ((o, e) ∷ m) = ground (arith, length-erase k m)

-- A lookup finds the keys that occur.
pub has-find : (k : TlbKey) (m : TlbMap) → has (find k m) ≡ true → 0 < occurs k (keys m)
unfolding find occurs
has-find k [] h = cc
has-find k ((o, e) ∷ m) h = ground (arith, has-find k m)

pub no-find : (k : TlbKey) (m : TlbMap) → has (find k m) ≡ false → occurs k (keys m) ≡ 0
unfolding find occurs
no-find k [] h = refl
no-find k ((o, e) ∷ m) h = ground (arith, no-find k m)

pub find-erase : (k o : TlbKey) (m : TlbMap) → same_key k o ≡ false → find k (erase o m) ≡ find k m
unfolding find erase
find-erase k o [] h = refl
find-erase k o ((x, e) ∷ m) h = ground (arith, find-erase k o m, other_key k o x)

pub find-erase_self : (k : TlbKey) (m : TlbMap) → find k (erase k m) ≡ none
unfolding find erase
find-erase_self k [] = refl
find-erase_self k ((x, e) ∷ m) = ground (arith, find-erase_self k m)

-- The last key of a list, and the others.
pub occurs-pop_back :
    (l : List TlbKey) (b : TlbKey)
    → back l ≡ some b
    → (k : TlbKey) → occurs k (pop_back l) + (if same_key k b then 1 else 0) ≡ occurs k l
unfolding occurs pop_back back
occurs-pop_back [] b e k = cc
occurs-pop_back (x ∷ []) b e k =
    let same : x ≡ b = some_injective e in
    let one : TlbKey → ℕ = λ z. if same_key k z then 1 else 0 in
    let last = ap one same in omega (arith, last)
occurs-pop_back (x ∷ y ∷ l) b e k = ground (arith, occurs-pop_back (y ∷ l) b e k)

back_cons : (x : TlbKey) (l : List TlbKey) → (b : TlbKey) × (back (x ∷ l) ≡ some b)
unfolding back
back_cons x [] = (x, refl)
back_cons x (y ∷ l) = back_cons y l

pub back-occurs : (l : List TlbKey) (k : TlbKey) → 0 < occurs k l → (b : TlbKey) × (back l ≡ some b)
unfolding occurs
back-occurs [] k h = absurd (omega arith)
back-occurs (x ∷ l) k h = back_cons x l

pub first_occurs : (m : TlbMap) → 0 < length m → (k : TlbKey) × (0 < occurs k (keys m))
unfolding occurs
first_occurs [] h = absurd (omega arith)
first_occurs ((k, e) ∷ m) h = (k, ground (arith, same_key_refl k))
