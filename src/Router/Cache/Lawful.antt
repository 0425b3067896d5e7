-- ===== src/Router/Cache/Lawful.antt =====
-- An address map behind a lawful cache, and `AddrMapNoCache`.
use qbox.Base.{ℕ, ◌≡◌, refl, sym, ap, ◌∙◌, List, [], ◌∷◌, Option, none, some, arith}
use mathlib.Core.Path.{ap₂, subst}
use qbox.Base.OrdMap.{Map}
use qbox.Router.Target.{Target}
use qbox.Router.AddressMap.{Region, add}
use qbox.Router.AddressMap.Segments.{owner}
use qbox.Router.AddressMap.Resolve.{IsValid}
use qbox.Router.AddressMap.Winner.{add-owner}
use qbox.Router.AddressMap.Lookup.{search_map-owner}
use qbox.Router.Cache.{
  Cache, IsLawful, Cached, Call, adds, finds, cached_add, find_with, find, answers,
}

-- The answers that the map alone gives, by the plain search.
unfoldable pub owners : Map Region → List Call → List (Option Target)
owners m [] = []
owners m (adds t ∷ cs) = owners (add t m) cs
owners m (finds a n ∷ cs) = owner a m ∷ owners m cs

module _ (c : Cache) (lawful : IsLawful c) where
  -- The cache agrees with the map behind it.
  abbrev pub Fresh : Cached c → Type 0
  Fresh am = IsValid am.regions × lawful.Agrees am.cache (λ a. owner a am.regions)

  find_fresh :
      (a n : ℕ) (am : Cached c) (r : Option (Option Target)) (s : c.State)
      → IsValid am.regions
      → lawful.Agrees s (λ x. owner x am.regions)
      → ((q : Option Target) → r ≡ some q → q ≡ owner a am.regions)
      → ((find_with c am.regions a n (r, s)).0 ≡ owner a am.regions)
        × ((find_with c am.regions a n (r, s)).1.regions ≡ am.regions)
        × lawful.Agrees (find_with c am.regions a n (r, s)).1.cache (λ x. owner x am.regions)
  unfolding find_with
  find_fresh a n am (some q) s v h k = (k q refl, refl, h)
  find_fresh a n am none s v h k = (
    search_map-owner am.regions a v,
    refl,
    rw (search_map-owner am.regions a v) (lawful.put_agrees s _ a n h),
  )

  -- Whatever calls are made, a lawful cache changes no answer: each `find` returns the owner of
  -- its address in the map that the `add` calls before it have built.
  pub answers-owners :
      (cs : List Call) (am : Cached c) → Fresh am → answers c am cs ≡ owners am.regions cs
  unfolding answers owners cached_add find
  answers-owners [] am h = refl
  answers-owners (adds t ∷ cs) am h =
      answers-owners cs (cached_add c t am)
        ((add-owner t am.regions 0 h.0).0, lawful.clear_agrees am.cache _)
  answers-owners (finds a n ∷ cs) am h =
      let f =
        find_fresh a n am (c.get am.cache a).0 (c.get am.cache a).1 h.0
          (lawful.get_agrees am.cache _ a h.1) (λ q e. lawful.get_right am.cache _ a q h.1 e) in
      ap₂ ◌∷◌ f.0 (
        answers-owners cs (find c a n am).1 (
          subst (λ m. IsValid m) (sym f.1) h.0,
          subst (λ m. lawful.Agrees (find c a n am).1.cache (λ x. owner x m)) (sym f.1) f.2,
        )
        ∙ ap (λ m. owners m cs) f.1)

-- `AddrMapNoCache`: it keeps nothing, and every lookup misses.
abbrev pub no_cache : Cache
no_cache = record {
  State = Unit {0};
  get = λ s key. (none, s);
  put = λ key value size s. s;
  clear = λ s. s;
}

pub no_cache-IsLawful : IsLawful no_cache
no_cache-IsLawful = record {
  Agrees = λ s f. Unit;
  clear_agrees = λ s f. tt;
  put_agrees = λ s f a size h. tt;
  get_agrees = λ s f a h. tt;
  get_right = λ s f a r h e. absurd (ground (arith, e));
}
