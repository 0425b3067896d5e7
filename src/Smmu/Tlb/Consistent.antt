-- ===== src/Smmu/Tlb/Consistent.antt =====
-- The map and the list of the IOTLB stay together, and within the size that is set.
use qbox.Base.{
  ℕ, ◌≤◌, ◌<◌, ◌≡◌, ◌⊎◌, refl, sym, ap, ◌∙◌, inl, inr, Bool, true, false, Option, none, some, ◌∷◌,
  length, arith, Bool-cases, leb, leb→le, if◌then◌else◌,
}
use qbox.Base.Outcomes.{Outcome, done}
use qbox.Smmu.Tlb.{
  TlbKey, TlbEntry, Tlb, same_key, find, erase, assign, remove, back, pop_back, has, make_room,
  placed, iotlb_insert, iotlb_lookup,
}
use qbox.Smmu.Tlb.Keys.{
  occurs, keys, same_key-eq, same_key_refl, occurs_same, occurs-erase, occurs-erase_self,
  length-erase, has-find, no-find, find-erase, find-erase_self, occurs-pop_back, back-occurs,
  first_occurs, occurs-remove, occurs-remove_self,
}

-- Every key is as often in the list as in the map, at most once.
unfoldable pub Consistent : Tlb → Type 0
Consistent t =
    (k : TlbKey)
    → (occurs k t.m_iotlb_lru ≡ occurs k (keys t.m_iotlb)) × (occurs k t.m_iotlb_lru ≤ 1)

-- What `iotlb_insert` has made of the cache before it puts a key in.
record HasRoom (size : ℕ) (k : TlbKey) (t t' : Tlb) : Type 0 where
  pub absent : occurs k t'.m_iotlb_lru ≡ 0
  pub others :
      (o : TlbKey)
      → same_key o k ≡ false
      → (occurs o t'.m_iotlb_lru ≡ occurs o (keys t'.m_iotlb)) × (occurs o t'.m_iotlb_lru ≤ 1)
  pub room : length (erase k t'.m_iotlb) < size
  pub kept :
      (o : TlbKey)
      → same_key o k ≡ false
      → (find o t'.m_iotlb ≡ find o t.m_iotlb)
        ⊎ ((find o t'.m_iotlb ≡ none) × (back t.m_iotlb_lru ≡ some o) × (size ≤ length t.m_iotlb))

-- The result of `iotlb_insert`: the entry is found, and so is every other, but the last of a full
-- cache may be gone.
pub record Inserted (size : ℕ) (k : TlbKey) (e : TlbEntry) (t t' : Tlb) : Type 0 where
  pub found : iotlb_lookup k t' ≡ some e
  pub consistent : Consistent t'
  pub bounded : length t'.m_iotlb ≤ size
  pub kept :
      (o : TlbKey)
      → same_key o k ≡ false
      → (iotlb_lookup o t' ≡ iotlb_lookup o t)
        ⊎ ((iotlb_lookup o t' ≡ none) × (back t.m_iotlb_lru ≡ some o) × (size ≤ length t.m_iotlb))

module _ (size : ℕ) (k : TlbKey) (e : TlbEntry) (t : Tlb) where
  abbrev after : Tlb → Tlb
  after t' = record { m_iotlb = assign k e t'.m_iotlb; m_iotlb_lru = k ∷ t'.m_iotlb_lru }

  after-Inserted : (t' : Tlb) → HasRoom size k t t' → Inserted size k e t (after t')
  unfolding iotlb_lookup Consistent find occurs
  after-Inserted t' h = record {
    found = ap (λ z. if z then some e else find k (erase k t'.m_iotlb)) (same_key_refl k);
    consistent = λ o. elim (Bool-cases (same_key o k)) [
      | inl same ↦
          let here = occurs_same o k same t'.m_iotlb_lru in
          let there = occurs_same o k same (keys (erase k t'.m_iotlb)) in
          let gone = occurs-erase_self k t'.m_iotlb in
          (ground (arith, h.absent), ground (arith, h.absent))
      | inr other ↦
          let both = h.others o other in
          let gone = occurs-erase o k t'.m_iotlb other in
          (ground (arith, both.0), ground (arith, both.1))
    ];
    bounded = omega (arith, h.room);
    kept = λ o other.
        let here : iotlb_lookup o (after t') ≡ find o t'.m_iotlb =
          ap (λ z. if z then some e else find o (erase k t'.m_iotlb)) other
          ∙ find-erase o k t'.m_iotlb other in
        elim (h.kept o other) [
          | inl same ↦ inl (here ∙ same)
          | inr (gone, last, full) ↦ inr (here ∙ gone, last, full)
        ];
  }

  -- The three cases: the key is there, the cache is full, and neither.
  has-HasRoom :
      Consistent t
      → length t.m_iotlb ≤ size
      → has (find k t.m_iotlb) ≡ true
      → HasRoom size k t (record t { m_iotlb_lru = remove k t.m_iotlb_lru })
  unfolding Consistent
  has-HasRoom c b h = record {
    absent = occurs-remove_self k t.m_iotlb_lru;
    others = λ o other.
        let same = occurs-remove o k t.m_iotlb_lru other in
        (same ∙ (c o).0, omega (arith, same, (c o).1));
    room = omega (arith, length-erase k t.m_iotlb, has-find k t.m_iotlb h);
    kept = λ o other. inl refl;
  }

  free-HasRoom :
      Consistent t
      → leb size (length t.m_iotlb) ≡ false
      → has (find k t.m_iotlb) ≡ false
      → HasRoom size k t t
  unfolding Consistent
  free-HasRoom c b h = record {
    absent = (c k).0 ∙ no-find k t.m_iotlb h;
    others = λ o other. c o;
    room =
        let small : length t.m_iotlb < size = ground (arith, b) in
        omega (arith, length-erase k t.m_iotlb);
    kept = λ o other. inl refl;
  }

  full-HasRoom :
      (b : TlbKey)
      → Consistent t
      → length t.m_iotlb ≤ size
      → size ≤ length t.m_iotlb
      → has (find k t.m_iotlb) ≡ false
      → back t.m_iotlb_lru ≡ some b
      → HasRoom size k t
          (record { m_iotlb = erase b t.m_iotlb; m_iotlb_lru = pop_back t.m_iotlb_lru })
  unfolding Consistent
  full-HasRoom b c l f h e =
      let counts = occurs-pop_back t.m_iotlb_lru b e in
      let none_yet = (c k).0 ∙ no-find k t.m_iotlb h in
      let last : 0 < occurs b t.m_iotlb_lru = ground (arith, counts b, same_key_refl b) in
      record {
        absent = omega (arith, counts k);
        others = λ o other. elim (Bool-cases (same_key o b)) [
          | inl same ↦
              let here = occurs_same o b same (keys (erase b t.m_iotlb)) in
              let gone = occurs-erase_self b t.m_iotlb in
              (ground (arith, counts o, (c o).1), ground (arith, counts o, (c o).1))
          | inr differ ↦
              let here = occurs-erase o b t.m_iotlb differ in
              (ground (arith, counts o, (c o).0), ground (arith, counts o, (c o).1))
        ];
        room = omega (arith, length-erase k (erase b t.m_iotlb), length-erase b t.m_iotlb, (c b).0);
        kept = λ o other. elim (Bool-cases (same_key o b)) [
          | inl same ↦ inr (
            ap (λ z. find z (erase b t.m_iotlb)) (same_key-eq o b same)
                ∙ find-erase_self b t.m_iotlb,
            e ∙ ap some (sym (same_key-eq o b same)),
            f,
          )
          | inr differ ↦ inl (find-erase o b t.m_iotlb differ)
        ];
      }

  abbrev picked : Bool → Bool → Option TlbKey → Outcome Tlb
  picked there full last = placed k e (
      if there
      then done (record t { m_iotlb_lru = remove k t.m_iotlb_lru })
      else if full
      then make_room last t
      else done t)

  -- If the size is not zero and the cache is consistent and within it, `iotlb_insert` returns a
  -- cache that is so too, in which a lookup of the key finds the entry, and of every other key what
  -- it found before, but for the key that is last in the list of a cache that was full.
  pub iotlb_insert-Inserted :
      0 < size
      → Consistent t
      → length t.m_iotlb ≤ size
      → (t' : Tlb) × (iotlb_insert size k e t ≡ done t') × Inserted size k e t t'
  unfolding iotlb_insert Consistent
  iotlb_insert-Inserted pos c l =
      let there = has (find k t.m_iotlb) in
      let full = leb size (length t.m_iotlb) in
      elim (Bool-cases there) [
        | inl h ↦
            let t' = record t { m_iotlb_lru = remove k t.m_iotlb_lru } in
            (
              after t',
              ap (λ z. picked z full (back t.m_iotlb_lru)) h,
              after-Inserted t' (has-HasRoom c l h),
            )
        | inr h ↦ elim (Bool-cases full) [
          | inl f ↦
              let most = leb→le size (length t.m_iotlb) f in
              let (o, some_key) = first_occurs t.m_iotlb (omega arith) in
              let (b, last) = back-occurs t.m_iotlb_lru o (omega (arith, (c o).0)) in
              let t' : Tlb = record {
                m_iotlb = erase b t.m_iotlb;
                m_iotlb_lru = pop_back t.m_iotlb_lru;
              } in
              (
                after t',
                ap (λ z. picked z full (back t.m_iotlb_lru)) h
                    ∙ ap (λ z. picked false z (back t.m_iotlb_lru)) f
                    ∙ ap (picked false true) last,
                after-Inserted t' (full-HasRoom b c l most h last),
              )
          | inr f ↦ (
            after t,
            ap (λ z. picked z full (back t.m_iotlb_lru)) h
                ∙ ap (λ z. picked false z (back t.m_iotlb_lru)) f,
            after-Inserted t (free-HasRoom c f h),
          )
        ]
      ]
