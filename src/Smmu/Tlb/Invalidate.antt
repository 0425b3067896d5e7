-- ===== src/Smmu/Tlb/Invalidate.antt =====
-- The invalidations of the IOTLB: they take away the entries that their test picks, and no other.
use qbox.Base.{
  ℕ, ◌≤◌, ◌<◌, ◌≡◌, refl, sym, ap, ◌∙◌, inl, inr, Bool, true, false, none, List, [], ◌∷◌, length,
  arith, Bool-cases,
}
use qbox.Smmu.Tlb.{
  TlbKey, TlbMap, Tlb, same_key, find, remove, sweep, invalidate, iotlb_lookup, of_asid, of_vmid,
  of_iova, iotlb_inv_all, iotlb_inv_asid, iotlb_inv_vmid, iotlb_inv_iova,
}
use qbox.Smmu.Tlb.Keys.{occurs, keys, same_key-eq, occurs_same, occurs-remove, occurs-remove_self}
use qbox.Smmu.Tlb.Consistent.{Consistent}

-- An invalidation by a test on keys.
pub record Swept (p : TlbKey → Bool) (t t' : Tlb) : Type 0 where
  pub gone : (k : TlbKey) → p k ≡ true → iotlb_lookup k t' ≡ none
  pub kept : (k : TlbKey) → p k ≡ false → iotlb_lookup k t' ≡ iotlb_lookup k t
  pub consistent : Consistent t'
  pub bounded : length t'.m_iotlb ≤ length t.m_iotlb

module _ (p : TlbKey → Bool) where
  -- The same key has the same answer.
  other_answer : (k o : TlbKey) → p k ≡ true → p o ≡ false → same_key k o ≡ false
  other_answer k o h e = elim (Bool-cases (same_key k o)) [
    | inl same ↦ let both : true ≡ false = sym h ∙ ap p (same_key-eq k o same) ∙ e in cc
    | inr differ ↦ differ
  ]

  other_answer' : (k o : TlbKey) → p k ≡ false → p o ≡ true → same_key k o ≡ false
  other_answer' k o h e = elim (Bool-cases (same_key k o)) [
    | inl same ↦ let both : true ≡ false = sym e ∙ sym (ap p (same_key-eq k o same)) ∙ h in cc
    | inr differ ↦ differ
  ]

  sweep-gone :
      (k : TlbKey) (m : TlbMap) (l : List TlbKey) → p k ≡ true → find k (sweep p m l).m_iotlb ≡ none
  unfolding sweep find
  sweep-gone k [] l h = refl
  sweep-gone k ((o, e) ∷ m) l h =
      ground (arith, sweep-gone k m l, sweep-gone k m (remove o l), other_answer k o)

  sweep-kept :
      (k : TlbKey) (m : TlbMap) (l : List TlbKey)
      → p k ≡ false
      → find k (sweep p m l).m_iotlb ≡ find k m
  unfolding sweep find
  sweep-kept k [] l h = refl
  sweep-kept k ((o, e) ∷ m) l h =
      ground (arith, sweep-kept k m l, sweep-kept k m (remove o l), other_answer' k o)

  keys-gone :
      (k : TlbKey) (m : TlbMap) (l : List TlbKey)
      → p k ≡ true
      → occurs k (keys (sweep p m l).m_iotlb) ≡ 0
  unfolding sweep occurs
  keys-gone k [] l h = refl
  keys-gone k ((o, e) ∷ m) l h =
      ground (arith, keys-gone k m l, keys-gone k m (remove o l), other_answer k o)

  keys-kept :
      (k : TlbKey) (m : TlbMap) (l : List TlbKey)
      → p k ≡ false
      → occurs k (keys (sweep p m l).m_iotlb) ≡ occurs k (keys m)
  unfolding sweep occurs
  keys-kept k [] l h = refl
  keys-kept k ((o, e) ∷ m) l h =
      ground (arith, keys-kept k m l, keys-kept k m (remove o l), other_answer' k o)

  lru-kept :
      (k : TlbKey) (m : TlbMap) (l : List TlbKey)
      → p k ≡ false
      → occurs k (sweep p m l).m_iotlb_lru ≡ occurs k l
  unfolding sweep
  lru-kept k [] l h = refl
  lru-kept k ((o, e) ∷ m) l h =
      ground
        (arith, lru-kept k m l, lru-kept k m (remove o l), other_answer' k o, occurs-remove k o l)

  -- The list only gets shorter, and loses the keys of the map that the test picks.
  remove-le : (k o : TlbKey) (l : List TlbKey) → occurs k (remove o l) ≤ occurs k l
  remove-le k o l = elim (Bool-cases (same_key k o)) [
    | inl same ↦ omega (arith, occurs_same k o same (remove o l), occurs-remove_self o l)
    | inr differ ↦ omega (arith, occurs-remove k o l differ)
  ]

  remove_none : (k o : TlbKey) (l : List TlbKey) → same_key k o ≡ true → occurs k (remove o l) ≡ 0
  remove_none k o l same = occurs_same k o same (remove o l) ∙ occurs-remove_self o l

  lru-le :
      (k : TlbKey) (m : TlbMap) (l : List TlbKey) → occurs k (sweep p m l).m_iotlb_lru ≤ occurs k l
  unfolding sweep
  lru-le k [] l = omega arith
  lru-le k ((o, e) ∷ m) l = ground (arith, lru-le k m l, lru-le k m (remove o l), remove-le k o l)

  lru-gone :
      (k : TlbKey) (m : TlbMap) (l : List TlbKey)
      → p k ≡ true
      → 0 < occurs k (keys m)
      → occurs k (sweep p m l).m_iotlb_lru ≡ 0
  unfolding sweep occurs
  lru-gone k [] l h c = absurd (omega arith)
  lru-gone k ((o, e) ∷ m) l h c = ground (
    arith,
    lru-gone k m l h,
    lru-gone k m (remove o l) h,
    lru-le k m (remove o l),
    remove_none k o l,
    other_answer k o h,
  )

  sweep-length : (m : TlbMap) (l : List TlbKey) → length (sweep p m l).m_iotlb ≤ length m
  unfolding sweep
  sweep-length [] l = omega arith
  sweep-length ((o, e) ∷ m) l = ground (arith, sweep-length m l, sweep-length m (remove o l))

  invalidate-Consistent : (t : Tlb) → Consistent t → Consistent (invalidate p t)
  unfolding Consistent invalidate
  invalidate-Consistent t c k = elim (Bool-cases (p k)) [
    | inl h ↦
        let cleared = keys-gone k t.m_iotlb t.m_iotlb_lru h in
        let less = lru-le k t.m_iotlb t.m_iotlb_lru in
        let (same, once) = c k in
        (ground (arith, lru-gone k t.m_iotlb t.m_iotlb_lru h), omega arith)
    | inr h ↦
        let keys_same = keys-kept k t.m_iotlb t.m_iotlb_lru h in
        let list_same = lru-kept k t.m_iotlb t.m_iotlb_lru h in
        let (same, once) = c k in (omega arith, omega arith)
  ]

  invalidate-Swept : (t : Tlb) → Consistent t → Swept p t (invalidate p t)
  unfolding invalidate iotlb_lookup
  invalidate-Swept t c = record {
    gone = λ k h. sweep-gone k t.m_iotlb t.m_iotlb_lru h;
    kept = λ k h. sweep-kept k t.m_iotlb t.m_iotlb_lru h;
    consistent = invalidate-Consistent t c;
    bounded = sweep-length t.m_iotlb t.m_iotlb_lru;
  }

all-Swept : (t : Tlb) → Swept (λ k. true) t (iotlb_inv_all t)
unfolding iotlb_inv_all iotlb_lookup find Consistent occurs
all-Swept t = record {
  gone = λ k h. refl;
  kept = λ k h. cc;
  consistent = λ k. (refl, omega arith);
  bounded = omega arith;
}

-- Of a consistent cache each invalidation takes away the entries whose keys pass its test, all of
-- them, and keeps every other: iotlb_inv_asid those of an asid, iotlb_inv_vmid those of a vmid,
-- iotlb_inv_iova those of an asid, a vmid and a granule in a masked range, and iotlb_inv_all all. The
-- cache stays consistent and gets no longer.
pub iotlb_inv-Swept :
    (vmid asid iova tg addr_mask : ℕ) (t : Tlb)
    → Consistent t
    → Swept (of_asid asid) t (iotlb_inv_asid asid t)
      × Swept (of_vmid vmid) t (iotlb_inv_vmid vmid t)
      × Swept (of_iova vmid asid iova tg addr_mask) t (iotlb_inv_iova vmid asid iova tg addr_mask t)
      × Swept (λ k. true) t (iotlb_inv_all t)
unfolding iotlb_inv_asid iotlb_inv_vmid iotlb_inv_iova
iotlb_inv-Swept vmid asid iova tg addr_mask t c = (
  invalidate-Swept (of_asid asid) t c,
  invalidate-Swept (of_vmid vmid) t c,
  invalidate-Swept (of_iova vmid asid iova tg addr_mask) t c,
  all-Swept t,
)
