-- ===== src/Addrtr/Window.antt =====
-- The window of the translator: the arithmetic of its two sides.
use qbox.Base.{
  ℕ, ◌+◌, ◌-◌, ◌^◌, ◌≤◌, ◌<◌, ◌≡◌, ◌↔◌, refl, true, ◌||◌, Option, none, some, arith, ltb, ◌==◌, inl,
  inr, ◌⊎◌, Bool-cases,
}
use qbox.Addrtr.{Addrtr, larger, smaller, moved, range_end, clipped, map_window, addr_fw, addr_bw}

-- Both windows have an address, and neither wraps around.
pub record IsMapped (a : Addrtr) : Type 0 where
  pub not_empty : 0 < a.mapping_size
  pub base_fits : a.base_addr + a.mapping_size ≤ 2 ^ 64
  pub mapped_fits : a.mapped_base_addr + a.mapping_size ≤ 2 ^ 64

-- An address of the window at the target socket.
abbrev pub IsInside : Addrtr → ℕ → Type 0
IsInside a x = (a.base_addr ≤ x) × (x < a.base_addr + a.mapping_size)

pub range_end_fits :
    (start size : ℕ)
    → 0 < size
    → start + size ≤ 2 ^ 64
    → range_end start size ≡ some (start + size - 1)
unfolding range_end
range_end_fits start size h k = ground arith

module _ (a : Addrtr) (m : IsMapped a) where
  pub addr_fw_lem : (x : ℕ) → IsInside a x → addr_fw a x ≡ a.mapped_base_addr + (x - a.base_addr)
  unfolding addr_fw
  addr_fw_lem x h = omega (arith, m.mapped_fits, m.base_fits)

  -- The two directions undo each other on the window.
  pub addr_bw-addr_fw : (x : ℕ) → IsInside a x → addr_bw a (addr_fw a x) ≡ x
  unfolding addr_bw
  addr_bw-addr_fw x h = rw (addr_fw_lem x h) (omega (arith, m.mapped_fits, m.base_fits))

  window :
      (ptr start end : ℕ)
      → map_window a ptr start end
        ≡ clipped a ptr start end
            (some (a.mapped_base_addr + a.mapping_size - 1))
            (some (a.base_addr + a.mapping_size - 1))
  unfolding map_window
  window ptr start end =
      rw
        (
          range_end_fits a.mapped_base_addr a.mapping_size m.not_empty m.mapped_fits,
          range_end_fits a.base_addr a.mapping_size m.not_empty m.base_fits,
        )
        refl

  -- What the translated range promises of the addresses of the window: those that map into the range.
  abbrev pub Translates : ℕ → ℕ → ℕ → Option (ℕ × ℕ × ℕ) → Type 0
  Translates ptr start end none =
      (x : ℕ) → IsInside a x → start ≤ addr_fw a x → addr_fw a x ≤ end → ⊥
  Translates ptr start end (some (s, e, p)) =
      IsInside a s
      × IsInside a e
      × (s ≤ e)
      × ((ptr ≡ 0) ⊎ (p + start ≡ ptr + addr_fw a s))
      × ((x : ℕ)
          → IsInside a x
          → ((s ≤ x) × (x ≤ e)) ↔ ((start ≤ addr_fw a x) × (addr_fw a x ≤ end)))

  refused_window :
      (ptr start end : ℕ)
      → (ltb end start
          || ltb end a.mapped_base_addr
          || ltb (a.mapped_base_addr + a.mapping_size - 1) start)
        ≡ true
      → Translates ptr start end none
  refused_window ptr start end h x w l u =
      let f = addr_fw_lem x w in ground (arith, h, f, l, u, w.0, w.1)

  granted_window :
      (ptr start end s e : ℕ)
      → start ≤ end
      → a.mapped_base_addr ≤ end
      → start ≤ a.mapped_base_addr + a.mapping_size - 1
      → s ≡ a.base_addr + (larger start a.mapped_base_addr - a.mapped_base_addr)
      → e
        ≡ a.base_addr + (smaller end (a.mapped_base_addr + a.mapping_size - 1) - a.mapped_base_addr)
      → Translates ptr start end (some (s, e, moved ptr (larger start a.mapped_base_addr - start)))
  granted_window ptr start end s e h k l d c = (
    in_s,
    ground (arith, m.not_empty, h, k, l, d, c),
    ground (arith, m.not_empty, h, k, l, d, c),
    pointer,
    λ x w.
        let f = addr_fw_lem x w in
        (
          λ b. (
            ground (arith, m.not_empty, h, k, l, d, c, f, b.0, b.1, w.0, w.1),
            ground (arith, m.not_empty, h, k, l, d, c, f, b.0, b.1, w.0, w.1),
          ),
          λ b. (
            ground (arith, m.not_empty, h, k, l, d, c, f, b.0, b.1, w.0, w.1),
            ground (arith, m.not_empty, h, k, l, d, c, f, b.0, b.1, w.0, w.1),
          ),
        ),
  )
    where
      in_s : IsInside a s
      in_s = ground (arith, m.not_empty, h, k, l, d, c)

      pointer :
          (ptr ≡ 0)
          ⊎ (moved ptr (larger start a.mapped_base_addr - start) + start ≡ ptr + addr_fw a s)
      pointer =
          let f = addr_fw_lem s in_s in
          elim (Bool-cases (ptr == 0)) [
            | inl null ↦ inl (ground arith)
            | inr given ↦ inr (ground (arith, f, given, d))
          ]

  -- On windows that do not wrap, a range that `map_window` refuses holds no address that the
  -- window maps to. One that it translates to [s, e] holds, of those addresses, just the ones that
  -- come from [s, e], which is not empty and within the window; and the pointer, unless it is null,
  -- moves as far as the start.
  pub map_window-Translates :
      (ptr start end : ℕ) → Translates ptr start end (map_window a ptr start end)
  map_window-Translates ptr start end =
      rw (window ptr start end)
        (elim (Bool-cases (
          ltb end start
          || ltb end a.mapped_base_addr
          || ltb (a.mapped_base_addr + a.mapping_size - 1) start)) [
            | inl out ↦ rw out (refused_window ptr start end out)
            | inr meets ↦ rw meets (
                granted_window ptr start end _ _ (ground arith) (ground arith) (ground arith)
                  (ground (arith, m.mapped_fits, m.base_fits, m.not_empty))
                  (ground (arith, m.mapped_fits, m.base_fits, m.not_empty)))
          ])
