-- ===== src/Router/Cache/Lru/Live.antt =====
-- Every iterator of the map of `LRUCache` leads to an entry of the list with its key.
use qbox.Base.{
  ℕ, suc, ◌<◌, ◌≡◌, ◌≢◌, ◌⊎◌, refl, sym, ap, ◌∙◌, inl, inr, true, false, List, [], ◌∷◌, Option,
  none, some, arith, Bool-cases, Option-cases, length, leb, ◌==◌, if◌then◌else◌, some_injective,
}
use mathlib.Core.Path.{subst}
use qbox.Router.Target.{Target}
use qbox.Router.Cache.Lru.{
  Node, LruCache, count, capacity, node_at, without, get_node, get_found, get, pop_back, back,
  map_erase, map_set, evicted, inserted, put, clear,
}

-- The map leads to entries with its keys, whose values are as `P` says.
pub record Holds (P : ℕ → Option Target → Type 0) (c : LruCache) : Type 0 where
  pub live :
      (k i : ℕ)
      → c.m_map k ≡ some i
      → (n : Node) × (node_at i c.m_list ≡ some n) × (n.key ≡ k) × P k n.value
  pub older : (k i : ℕ) → c.m_map k ≡ some i → i < c.next

nothing_there : {A : Type 0} {x : A} → none ≡ some x → ⊥
nothing_there h = cc

node_at_number : (i : ℕ) (ns : List Node) (n : Node) → node_at i ns ≡ some n → n.number ≡ i
unfolding node_at
node_at_number i [] n e = cc
node_at_number i (m ∷ ns) n e = elim (Bool-cases (m.number == i)) [
  | inl here ↦
      let same : m ≡ n =
        some_injective (sym (ap (λ z. if z then some m else node_at i ns) here) ∙ e) in
      sym (ap (λ z. z.number) same) ∙ ground (arith, here)
  | inr behind ↦
      node_at_number i ns n (sym (ap (λ z. if z then some m else node_at i ns) behind) ∙ e)
]

node_at-without : (i j : ℕ) (ns : List Node) → i ≢ j → node_at i (without j ns) ≡ node_at i ns
unfolding node_at without
node_at-without i j [] h = refl
node_at-without i j (m ∷ ns) h = ground (arith, node_at-without i j ns h)

length-without :
    (i : ℕ) (ns : List Node) (n : Node)
    → node_at i ns ≡ some n
    → suc (length (without i ns)) ≡ length ns
unfolding node_at without
length-without i [] n e = cc
length-without i (m ∷ ns) n e = ground (arith, e, length-without i ns n)

-- An entry with another key than the last one stays.
node_at-pop_back :
    (i : ℕ) (m n : Node) (ns : List Node)
    → node_at i (m ∷ ns) ≡ some n
    → n.key ≢ (back m ns).key
    → node_at i (pop_back (m ∷ ns)) ≡ some n
unfolding node_at pop_back back
node_at-pop_back i m n [] e h = elim (Bool-cases (m.number == i)) [
  | inl here ↦
      let same : m ≡ n = some_injective (sym (ap (λ z. if z then some m else none) here) ∙ e) in
      absurd (h (sym (ap (λ z. z.key) same)))
  | inr behind ↦ absurd (nothing_there (sym (ap (λ z. if z then some m else none) behind) ∙ e))
]
node_at-pop_back i m n (p ∷ ns) e h = elim (Bool-cases (m.number == i)) [
  | inl here ↦
      ap (λ z. if z then some m else node_at i (pop_back (p ∷ ns))) here
      ∙ sym (ap (λ z. if z then some m else node_at i (p ∷ ns)) here)
      ∙ e
  | inr behind ↦
      ap (λ z. if z then some m else node_at i (pop_back (p ∷ ns))) behind
      ∙ node_at-pop_back i p n ns
          (sym (ap (λ z. if z then some m else node_at i (p ∷ ns)) behind) ∙ e) h
]

module _ (P : ℕ → Option Target → Type 0) where
  pub clear-Holds : (c : LruCache) → Holds P (clear c)
  unfolding clear
  clear-Holds c = record {
    live = λ k i e. absurd (nothing_there e);
    older = λ k i e. absurd (nothing_there e);
  }

  -- What a `get` does: it is defined, and hits exactly where the map has the key.
  pub record Looks (c : LruCache) (key : ℕ) : Type 0 where
    pub answer : Option (Option Target)
    pub after : LruCache
    pub runs : get c key ≡ some (answer, after)
    pub holds : Holds P after
    pub same_map : after.m_map ≡ c.m_map
    pub same_length : length after.m_list ≡ length c.m_list
    pub verdict :
        ((c.m_map key ≡ none) × (answer ≡ none))
        ⊎ ((v : Option Target) × (i : ℕ) × (c.m_map key ≡ some i) × (answer ≡ some v) × P key v)

  miss-Looks : (c : LruCache) (key : ℕ) → Holds P c → c.m_map key ≡ none → Looks c key
  unfolding get
  miss-Looks c key h e = record {
    answer = none;
    after = record c { m_misses = count c.m_misses };
    runs = ap (get_found c) e;
    holds = record { live = h.live; older = h.older };
    same_map = refl;
    same_length = refl;
    verdict = inl (e, refl);
  }

  moved_up :
      (c : LruCache) (i j : ℕ) (n x : Node)
      → node_at i c.m_list ≡ some n
      → node_at j c.m_list ≡ some x
      → node_at j (n ∷ without n.number c.m_list) ≡ some x
  unfolding node_at
  moved_up c i j n x f g = elim (Bool-cases (n.number == j)) [
    | inl here ↦
        let i_is_j : i ≡ j = sym (node_at_number i c.m_list n f) ∙ ground (arith, here) in
        ap (λ z. if z then some n else node_at j (without n.number c.m_list)) here
        ∙ sym f
        ∙ ap (λ z. node_at z c.m_list) i_is_j
        ∙ g
    | inr behind ↦
        ap (λ z. if z then some n else node_at j (without n.number c.m_list)) behind
        ∙ node_at-without j n.number c.m_list (ground (arith, behind))
        ∙ g
  ]

  hit-Looks : (c : LruCache) (key i : ℕ) → Holds P c → c.m_map key ≡ some i → Looks c key
  unfolding get
  hit-Looks c key i h e =
      let (n, f, own, p) = h.live key i e in
      let number = node_at_number i c.m_list n f in
      record {
        answer = some n.value;
        after = record c { m_list = n ∷ without n.number c.m_list; m_hits = count c.m_hits };
        runs = ap (get_found c) e ∙ ap (get_node c) f;
        holds = record {
          live = λ k j g.
              let (x, at, k_own, q) = h.live k j g in (x, moved_up c i j n x f at, k_own, q);
          older = h.older;
        };
        same_map = refl;
        same_length =
            ap (λ z. suc (length (without z c.m_list))) number ∙ length-without i c.m_list n f;
        verdict = inr (n.value, i, e, refl, p);
      }

  pub get-Looks : (c : LruCache) (key : ℕ) → Holds P c → Looks c key
  get-Looks c key h = elim (Option-cases (c.m_map key)) [
    | inl e ↦ miss-Looks c key h e
    | inr (i, e) ↦ hit-Looks c key i h e
  ]

  kept :
      (m : ℕ → Option ℕ) (gone k i : ℕ) → map_erase gone m k ≡ some i → (m k ≡ some i) × (k ≢ gone)
  kept m gone k i g = elim (Bool-cases (k == gone)) [
    | inl same ↦ absurd (nothing_there (sym (ap (λ z. if z then none else m k) same) ∙ g))
    | inr other ↦ (sym (ap (λ z. if z then none else m k) other) ∙ g, ground (arith, other))
  ]

  evicted-Holds :
      (c : LruCache) (ns : List Node) → c.m_list ≡ ns → Holds P c → Holds P (evicted c ns)
  evicted-Holds c [] e h = h
  evicted-Holds c (m ∷ ns) e h = record {
    live = λ k i g.
        let (g', other) = kept c.m_map (back m ns).key k i g in
        let (n, f, own, p) = h.live k i g' in
        (
          n,
          node_at-pop_back i m n ns (sym (ap (node_at i) e) ∙ f) (λ same. other (sym own ∙ same)),
          own,
          p,
        );
    older = λ k i g. h.older k i (kept c.m_map (back m ns).key k i g).0;
  }

-- An entry that is put takes the place of what its key had; the others may change what they promise.
module _ (P Q : ℕ → Option Target → Type 0) (key : ℕ) (value : Option Target) (own : Q key value)
    (others : (k : ℕ) (v : Option Target) → k ≢ key → P k v → Q k v) where
  pub inserted-Holds : (c : LruCache) → Holds P c → Holds Q (inserted key value c)
  unfolding node_at
  inserted-Holds c h = record { live = live; older = older }
    where
      new : Node
      new = record { number = c.next; key = key; value = value }

      older : (k i : ℕ) → map_set key c.next c.m_map k ≡ some i → i < suc c.next
      older k i g = elim (Bool-cases (k == key)) [
        | inl own ↦
            let e : c.next ≡ i =
              some_injective (sym (ap (λ z. if z then some c.next else c.m_map k) own) ∙ g) in
            omega (arith, e)
        | inr other ↦
            let e = h.older k i (sym (ap (λ z. if z then some c.next else c.m_map k) other) ∙ g) in
            omega (arith, e)
      ]

      live :
          (k i : ℕ)
          → map_set key c.next c.m_map k ≡ some i
          → (n : Node) × (node_at i
                (record { number = c.next; key = key; value = value } ∷ c.m_list)
              ≡ some n)
            × (n.key ≡ k)
            × Q k n.value
      live k i g = elim (Bool-cases (k == key)) [
        | inl same ↦
            let e : c.next ≡ i =
              some_injective (sym (ap (λ z. if z then some c.next else c.m_map k) same) ∙ g) in
            let here : (c.next == i) ≡ true = ground (arith, e) in
            let k_is : key ≡ k = ground (arith, same) in
            (
              record { number = c.next; key = key; value = value },
              ap
                  (λ z.
                    if z
                    then some (record { number = c.next; key = key; value = value })
                    else node_at i c.m_list)
                  here,
              k_is,
              subst (λ z. Q z value) k_is own,
            )
        | inr other ↦
            let there = sym (ap (λ z. if z then some c.next else c.m_map k) other) ∙ g in
            let behind : (c.next == i) ≡ false = ground (arith, h.older k i there) in
            let (n, f, k_own, p) = h.live k i there in
            (
              n,
              ap
                    (λ z.
                      if z
                      then some (record { number = c.next; key = key; value = value })
                      else node_at i c.m_list)
                    behind
                  ∙ f,
              k_own,
              others k n.value (ground (arith, other)) p,
            )
      ]

  pub put-Holds : (c : LruCache) (size : ℕ) → Holds P c → Holds Q (put key value size c)
  unfolding put
  put-Holds c size h = elim (Bool-cases (leb capacity (length c.m_list))) [
    | inl full ↦ rw full (inserted-Holds (evicted c c.m_list) (evicted-Holds P c c.m_list refl h))
    | inr room ↦ rw room (inserted-Holds c h)
  ]
