-- ===== src/Router/Cache/Lru/Lawful.antt =====
-- `LRUCache` as a cache of an address map.
use qbox.Base.{ℕ, ◌≡◌, refl, sym, ap, ◌∙◌, inl, inr, Option, none, some, some_injective}
use mathlib.Core.Path.{subst}
use qbox.Router.Target.{Target}
use qbox.Router.Cache.{Cache, IsLawful}
use qbox.Router.Cache.Lru.{LruCache, new_cache, put, clear}
use qbox.Router.Cache.Lru.Live.{Holds, Looks, get-Looks, put-Holds, clear-Holds}

abbrev Any : ℕ → Option Target → Type 0
Any k v = Unit {0}

-- A cache whose iterators are all good, so that every `get` is defined.
abbrev pub Live : Type 0
Live = (c : LruCache) × Holds Any c

abbrev looked : {c : LruCache} {key : ℕ} → Looks Any c key → Option (Option Target) × Live
looked l = (l.answer, (l.after, l.holds))

abbrev pub lru : Cache
lru = record {
  State = Live;
  get = λ s key. looked (get-Looks Any s.0 key s.1);
  put = λ key value size s.
      (put key value size s.0, put-Holds Any Any key value tt (λ k v h p. tt) s.0 size s.1);
  clear = λ s. (clear s.0, clear-Holds Any s.0);
}

-- A new cache.
abbrev pub new_lru : Live
new_lru = (clear new_cache, clear-Holds Any new_cache)

abbrev Right : (ℕ → Option Target) → ℕ → Option Target → Type 0
Right f k v = v ≡ f k

abbrev result :
    {P : ℕ → Option Target → Type 0} {c : LruCache} {key : ℕ}
    → Looks P c key
    → Option (Option Target) × LruCache
result l = (l.answer, l.after)

same_look :
    (f : ℕ → Option Target) (s : Live) (a : ℕ)
    → (h : Holds (Right f) s.0)
    → result (get-Looks (Right f) s.0 a h) ≡ result (get-Looks Any s.0 a s.1)
same_look f s a h =
    some_injective (sym (get-Looks (Right f) s.0 a h).runs ∙ (get-Looks Any s.0 a s.1).runs)

answer_agrees :
    (f : ℕ → Option Target) (c : LruCache) (a : ℕ) (r : Option Target)
    → (l : Looks (Right f) c a) → l.answer ≡ some r
    → r ≡ f a
answer_agrees f c a r l e = elim l.verdict [
  | inl (missing, n) ↦ absurd (let no_hit : none ≡ some r = sym n ∙ e in cc)
  | inr (v, i, present, m, p) ↦ some_injective (sym e ∙ m) ∙ p
]

-- LRUCache keeps the promises of a cache of addresses: whatever is put for each address, a lookup
-- that hits returns what was put for its address last.
pub lru-IsLawful : IsLawful lru
lru-IsLawful = record {
  Agrees = λ s f. Holds (Right f) s.0;
  clear_agrees = λ s f. clear-Holds (Right f) s.0;
  put_agrees = λ s f a size h. put-Holds (Right f) (Right f) a (f a) refl (λ k v o p. p) s.0 size h;
  get_agrees = λ s f a h.
      subst (λ z. Holds (Right f) z.1) (same_look f s a h) (get-Looks (Right f) s.0 a h).holds;
  get_right = λ s f a r h e.
      answer_agrees f s.0 a r (get-Looks (Right f) s.0 a h) (ap (λ z. z.0) (same_look f s a h) ∙ e);
}
