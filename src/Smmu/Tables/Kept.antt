-- ===== src/Smmu/Tables/Kept.antt =====
-- The entry of a stream that was found is found again, with no access to memory.
use mathlib.Core.Path.{subst}
use qbox.Base.{
  ℕ, ◌≡◌, refl, sym, ap, ◌∙◌, inl, inr, Bool, true, false, List, Option, none, some, leb, arith,
  Bool-cases, if_both, ◌==◌, if◌then◌else◌,
}
use qbox.DmiConverter.{Port}
use qbox.Base.{◌*◌, ◌/◌, ◌%◌, ◌^◌}
use qbox.Base.Word.{add64}
use qbox.Smmu.{Ste, aligned}
use qbox.Smmu.Access.{DmaState, dma_read, word_bytes, word_of}
use qbox.Smmu.Tables.{
  StreamTable, SteState, find, keep, if_valid, decoded, fetch, through_level1, look_up, decode,
  dword, with_dma, shift_of, or_look_up, find_ste,
}

module _ (t : Port) (r : StreamTable) (sid : ℕ) where
  -- A result that holds an entry leaves that entry in the cache.
  Keeps : Option Ste × SteState → Type 0
  Keeps (none, s) = Unit
  Keeps (some ste, s) = (find sid s.m_ste_cache ≡ some ste) × (ste.valid ≡ true)

  kept-Keeps :
      (ste : Ste) (s : SteState) → find sid s.m_ste_cache ≡ some ste → Keeps (if_valid ste, s)
  unfolding Keeps
  kept-Keeps ste s e = elim (Bool-cases ste.valid) [
    | inl h ↦ subst (λ z. Keeps (if z then some ste else none, s)) (sym h) (e, h)
    | inr h ↦ subst (λ z. Keeps (if z then some ste else none, s)) (sym h) tt
  ]

  keep-finds : (ste : Ste) (s : SteState) → find sid (keep sid ste s).m_ste_cache ≡ some ste
  unfolding keep find
  keep-finds ste s = ground arith

  none-Keeps : (s : SteState) → Keeps (none, s)
  unfolding Keeps
  none-Keeps s = tt

  decoded-Keeps : (s : SteState) (x : (Bool × List ℕ) × DmaState) → Keeps (decoded sid s x)
  decoded-Keeps s ((false, bytes), d) = none-Keeps (record s { sfm_err = true; dma = d })
  decoded-Keeps s ((true, bytes), d) =
      let ste = decode (dword 0 bytes) (dword 1 bytes) (dword 2 bytes) (dword 3 bytes) in
      kept-Keeps ste (keep sid ste (with_dma s d)) (keep-finds ste (with_dma s d))

  fetch-Keeps : (s : SteState) (a : ℕ) → Keeps (fetch t sid s a)
  fetch-Keeps s a = decoded-Keeps s (dma_read t a (word_bytes 64 0) s.dma)

  level1-Keeps :
      (i : ℕ) (s : SteState) (x : (Bool × List ℕ) × DmaState) → Keeps (through_level1 t sid i s x)
  level1-Keeps i s ((false, bytes), d) = none-Keeps (record s { sfm_err = true; dma = d })
  level1-Keeps i s ((true, bytes), d) =
      if_both Keeps (word_of bytes % 2 == 0) (λ _. none-Keeps (with_dma s d))
        (λ _. fetch-Keeps (with_dma s d) (add64 (aligned 6 (word_of bytes)) (i * 64)))

  look_up-Keeps : (s : SteState) → Keeps (look_up t r sid s)
  unfolding look_up
  look_up-Keeps s =
      if_both Keeps (r.fmt == 0)
        (λ _.
          if_both Keeps (leb (2 ^ shift_of r.log2size) sid) (λ _. none-Keeps s)
            (λ _. fetch-Keeps s (add64 r.base (sid * 64))))
        (λ _.
          if_both Keeps (leb (2 ^ shift_of r.log2size) (sid / 2 ^ r.split)) (λ _. none-Keeps s)
            (λ _.
              level1-Keeps (sid % 2 ^ r.split) s
                (dma_read t (add64 r.base (sid / 2 ^ r.split * 8)) (word_bytes 8 0) s.dma)))

  or_look_up-Keeps :
      (s : SteState) (o : Option Ste) → find sid s.m_ste_cache ≡ o → Keeps (or_look_up t r sid s o)
  or_look_up-Keeps s none e = look_up-Keeps s
  or_look_up-Keeps s (some ste) e = kept-Keeps ste s e

  -- Where find_ste gives an entry, from the cache or from memory, the next call for the stream gives
  -- the same entry and changes nothing.
  pub find_ste-again :
      (s s' : SteState) (ste : Ste)
      → find_ste t r sid s ≡ (some ste, s')
      → find_ste t r sid s' ≡ (some ste, s')
  unfolding find_ste Keeps
  find_ste-again s s' ste e =
      let (found, valid) = subst Keeps e (or_look_up-Keeps s (find sid s.m_ste_cache) refl) in
      ap (or_look_up t r sid s') found ∙ ap (λ z. (if z then some ste else none, s')) valid
