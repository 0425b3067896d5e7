-- ===== src/Smmu/Access/Cached.antt =====
-- Accesses through the regions that the SMMU keeps.
use qbox.Base.{
  ℕ, ◌+◌, ◌-◌, ◌^◌, ◌≤◌, ◌<◌, ◌≡◌, ◌⊎◌, refl, sym, ap, ◌∙◌, inl, inr, Bool, true, false, ◌&&◌, ◌||◌,
  List, [], ◌∷◌, Option, none, some, length, arith, Bool-cases, and_true, leb, if_both, lt→ltb,
  leb→le, ltb, ◌==◌, if◌then◌else◌,
}
use mathlib.Core.Path.{subst}
use qbox.Base.Word.{add64}
use qbox.Tlm.{read, write}
use qbox.Memory.{Bytes, memcpy}
use qbox.Memory.Storage.Turn.{in_window}
use qbox.Memory.Transport.{bytes_of, list_of, from_index}
use qbox.Memory.Transport.Whole.{list_of-bytes_of, list_of_same}
use qbox.DmiConverter.{Port}
use qbox.Smmu.Access.{
  Region, DmaState, serves, first_serving, find_dma_dmi, dma_dmi_invalidate, or_asked, read_from,
  write_to, dma_read, dma_write,
}

-- What is copied to a place is found there.
copied :
    (host : Bytes) (i : ℕ) (bytes : List ℕ)
    → list_of (length bytes) (from_index i (memcpy host i (bytes_of bytes) 0 (length bytes)))
      ≡ bytes
copied host i bytes =
    list_of_same (length bytes) (from_index i (memcpy host i (bytes_of bytes) 0 (length bytes)))
      (bytes_of bytes)
      (λ k h.
        let low : leb i (i + k) ≡ true = ground arith in
        let high : ltb (i + k) (i + length bytes) ≡ true =
          lt→ltb (i + k) (i + length bytes) (omega arith) in
        let back : 0 + (i + k - i) ≡ k = omega arith in
        ap
          (λ z.
            if z && ltb (i + k) (i + length bytes)
            then bytes_of bytes (0 + (i + k - i))
            else host (i + k))
          low
        ∙ ap (λ z. if z then bytes_of bytes (0 + (i + k - i)) else host (i + k)) high
        ∙ ap (bytes_of bytes) back)
    ∙ list_of-bytes_of bytes

from_zero : (k : ℕ) → 0 + k ≡ k
from_zero k = omega arith

-- Where one region that is kept serves both writes and reads of a range, dma_write and then dma_read
-- succeed and keep the regions, whatever the target would do: the write changes the memory of the
-- host at the place of the range only, where it puts its bytes, and the read gets these and changes
-- nothing.
pub dma_write-dma_read :
    (t : Port) (a : ℕ) (bytes buffer : List ℕ) (r : Region) (s : DmaState)
    → length buffer ≡ length bytes
    → find_dma_dmi a (length bytes) true s.regions ≡ some r
    → find_dma_dmi a (length bytes) false s.regions ≡ some r
    → (s' : DmaState) × (dma_write t a bytes s ≡ ((true, bytes), s'))
      × (s'.regions ≡ s.regions)
      × ((x : ℕ)
          → s'.host x ≡ (
              if in_window (r.ptr + (a - r.start)) (length bytes) x
              then bytes_of bytes (x - (r.ptr + (a - r.start)))
              else s.host x))
      × (dma_read t a buffer s' ≡ ((true, bytes), s'))
unfolding dma_read dma_write
dma_write-dma_read t a bytes buffer r s same w e =
    let i = r.ptr + (a - r.start) in
    let s' = record s { host = memcpy s.host i (bytes_of bytes) 0 (length bytes) } in
    (
      s',
      ap (λ z. write_to t a bytes (or_asked t a (length bytes) true write s z)) w,
      refl,
      λ x.
          ap (λ k. if in_window i (length bytes) x then bytes_of bytes k else s.host x)
            (from_zero (x - i)),
      ap
            (λ n.
              read_from t a buffer
                (or_asked t a n false read s' (find_dma_dmi a n false s.regions)))
            same
          ∙ ap (λ z. read_from t a buffer (or_asked t a (length bytes) false read s' z)) e
          ∙ ap (λ n. ((true, list_of n (from_index i s'.host)), s')) same
          ∙ ap (λ z. ((true, z), s')) (copied s.host i bytes),
    )

-- A region that is found serves the access, and stands apart from the range that was taken back.
Clear : ℕ → ℕ → ℕ → ℕ → Bool → Option Region → Type 0
Clear start end a last w none = Unit
Clear start end a last w (some r) =
    (serves a last w r ≡ true) × ((ltb r.last start || ltb end r.start) ≡ true)

first_serving-Clear :
    (start end a last : ℕ) (w : Bool) (rs : List Region)
    → Clear start end a last w (first_serving a last w (dma_dmi_invalidate start end rs))
unfolding first_serving dma_dmi_invalidate Clear
first_serving-Clear start end a last w [] = tt
first_serving-Clear start end a last w (r ∷ rs) =
    if_both (λ z. Clear start end a last w (first_serving a last w z))
      (ltb r.last start || ltb end r.start)
      (λ apart.
        if_both (Clear start end a last w) (serves a last w r) (λ h. (h, apart))
          (λ _. first_serving-Clear start end a last w rs))
      (λ _. first_serving-Clear start end a last w rs)

-- A region that serves an access of a range that does not wrap holds the range, and after
-- `dma_dmi_invalidate` no such range meets the one that was taken back.
pub find_dma_dmi-clear :
    (start end a len : ℕ) (for_write : Bool) (rs : List Region) (r : Region)
    → a + len ≤ 2 ^ 64
    → find_dma_dmi a len for_write (dma_dmi_invalidate start end rs) ≡ some r
    → (r.start ≤ a) × (a + len ≤ r.last + 1) × ((a + len ≤ start) ⊎ (end < a))
unfolding find_dma_dmi Clear
find_dma_dmi-clear start end a len w rs r h e = elim (Bool-cases (len == 0)) [
  | inl empty ↦
      let nothing : none ≡ some r =
        sym (
          ap
            (λ z.
              if z
              then none
              else first_serving a (add64 a (len - 1)) w (dma_dmi_invalidate start end rs))
            empty)
        ∙ e in
      cc
  | inr some_bytes ↦
      let found =
        sym (
          ap
            (λ z.
              if z
              then none
              else first_serving a (add64 a (len - 1)) w (dma_dmi_invalidate start end rs))
            some_bytes)
        ∙ e in
      let (serving, apart) =
        subst (Clear start end a (add64 a (len - 1)) w) found
          (first_serving-Clear start end a (add64 a (len - 1)) w rs) in
      let (both, may) = and_true (leb r.start a && leb (add64 a (len - 1)) r.last) _ serving in
      let (low, high) = and_true (leb r.start a) (leb (add64 a (len - 1)) r.last) both in
      let first = leb→le r.start a low in
      let last = leb→le (add64 a (len - 1)) r.last high in
      let pos : 0 < len = ground (arith, some_bytes) in
      let exact : add64 a (len - 1) ≡ a + len - 1 = omega arith in
      (first, omega arith, ground (arith, apart))
]
