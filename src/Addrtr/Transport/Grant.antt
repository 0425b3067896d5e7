-- ===== src/Addrtr/Transport/Grant.antt =====
-- Transactions and DMI through the window.
use qbox.Base.{
  ℕ, ◌+◌, ◌-◌, ◌≤◌, ◌<◌, ◌^◌, ◌≡◌, refl, sym, ap, ◌∙◌, ◌⊎◌, inl, inr, Bool, true, false, ◌&&◌, ◌||◌,
  Option, none, some, arith, ltb, leb, ◌==◌, if◌then◌else◌, Bool-cases, List, [], ◌∷◌,
}
use qbox.Tlm.{Dmi, Payload}
use qbox.Addrtr.{Addrtr, range_end, mapped_to, txn_end, map_txn_addr, map_window, addr_fw}
use qbox.Addrtr.Window.{
  IsMapped, IsInside, Translates, range_end_fits, addr_fw_lem, map_window-Translates,
}
use qbox.Addrtr.Transport.{
  direct_to, get_direct_mem_ptr, sent_to, b_transport, translated, answered, calls_of,
  invalidate_direct_mem_ptr,
}

-- A transaction of `len` bytes at `addr`, or of none there, within the window.
abbrev pub fits : Addrtr → ℕ → ℕ → Bool
fits a addr len =
    leb a.base_addr addr
    && leb (addr + (if len == 0 then 1 else len)) (a.base_addr + a.mapping_size)

end_wraps :
    (addr len : ℕ)
    → 0 < len
    → addr < 2 ^ 64
    → len < 2 ^ 64
    → 2 ^ 64 < addr + len
    → range_end addr len ≡ none
unfolding range_end
end_wraps addr len h k l w = ground arith

txn_end_lem :
    (addr len : ℕ)
    → addr < 2 ^ 64
    → len < 2 ^ 64
    → txn_end addr len ≡ (
        if leb (addr + (if len == 0 then 1 else len)) (2 ^ 64)
        then some (addr + (if len == 0 then 1 else len) - 1)
        else none)
txn_end_lem addr len h k = elim (Bool-cases (len == 0)) [
  | inl none_at_all ↦ rw none_at_all (ground arith)
  | inr some_bytes ↦ rw some_bytes (elim (Bool-cases (leb (addr + len) (2 ^ 64))) [
    | inl within ↦ rw within (range_end_fits addr len (ground arith) (ground arith))
    | inr around ↦ rw around (end_wraps addr len (ground arith) h k (ground arith))
  ])
]

module _ (a : Addrtr) (m : IsMapped a) where
  placed :
      (addr len : ℕ)
      → map_txn_addr a addr len
        ≡ mapped_to a addr
            (some (a.base_addr + a.mapping_size - 1))
            (some (a.mapped_base_addr + a.mapping_size - 1))
            (txn_end addr len)
  unfolding map_txn_addr
  placed addr len =
      rw
        (
          range_end_fits a.base_addr a.mapping_size m.not_empty m.base_fits,
          range_end_fits a.mapped_base_addr a.mapping_size m.not_empty m.mapped_fits,
        )
        refl

  pub map_txn_addr_lem :
      (addr len : ℕ)
      → addr < 2 ^ 64
      → len < 2 ^ 64
      → map_txn_addr a addr len
        ≡ (if fits a addr len then some (a.mapped_base_addr + (addr - a.base_addr)) else none)
  map_txn_addr_lem addr len h k =
      placed addr len
      ∙ ap
          (mapped_to a addr (some (a.base_addr + a.mapping_size - 1))
            (some (a.mapped_base_addr + a.mapping_size - 1)))
          (txn_end_lem addr len h k)
      ∙ by_end (if len == 0 then 1 else len) (ground arith)
    where
      forth :
          a.base_addr ≤ addr
          → addr < a.base_addr + a.mapping_size
          → addr_fw a addr ≡ a.mapped_base_addr + (addr - a.base_addr)
      forth l u = addr_fw_lem a m addr (l, u)

      by_end :
          (n : ℕ)
          → 0 < n
          → mapped_to a addr
              (some (a.base_addr + a.mapping_size - 1))
              (some (a.mapped_base_addr + a.mapping_size - 1))
              (if leb (addr + n) (2 ^ 64) then some (addr + n - 1) else none)
            ≡ (if leb a.base_addr addr && leb (addr + n) (a.base_addr + a.mapping_size)
                then some (a.mapped_base_addr + (addr - a.base_addr))
                else none)
      by_end n w = elim (Bool-cases (leb (addr + n) (2 ^ 64))) [
        | inr around ↦ rw around (ground (arith, around, m.base_fits))
        | inl within ↦
            rw within
              (elim (Bool-cases
                (leb a.base_addr addr && leb (addr + n - 1) (a.base_addr + a.mapping_size - 1))) [
                  | inl inside ↦ rw inside (
                      ap some (forth (ground arith) (ground (arith, m.not_empty)))
                      ∙ ground (arith, m.not_empty))
                  | inr outside ↦ rw outside (ground (arith, m.not_empty))
                ])
      ]

  inside : (addr len : ℕ) → fits a addr len ≡ true → IsInside a addr
  inside addr len f = ground (arith, f)

  -- A transaction whose bytes lie within the window, or that has none and lies within, reaches the
  -- target at the same offset in the other window and comes back with its own address; any other
  -- one ends in the fatal report.
  pub b_transport_lem :
      (target : Payload → Payload) (p : Payload)
      → p.address < 2 ^ 64
      → p.data_length < 2 ^ 64
      → b_transport target a p ≡ (
          if fits a p.address p.data_length
          then some
              (record (target
                (record p { address = a.mapped_base_addr + (p.address - a.base_addr) })) {
                  address = p.address;
                })
          else none)
  unfolding b_transport
  b_transport_lem target p h k =
      ap (sent_to target p) (map_txn_addr_lem p.address p.data_length h k)
      ∙ elim (Bool-cases (fits a p.address p.data_length)) [
        | inl within ↦ rw within refl
        | inr outside ↦ rw outside refl
      ]

  -- What the translator makes of the target's grant `g` for the address `x`: it refuses only a grant
  -- that does not hold the address that `x` maps to; otherwise it grants a range of the window that
  -- holds `x` and maps into `g`, with the pointer at the byte that its start maps to.
  abbrev pub IsTranslated : ℕ → Dmi → Bool × Dmi → Type 0
  IsTranslated x g (false, d) = (addr_fw a x < g.start_address) ⊎ (g.end_address < addr_fw a x)
  IsTranslated x g (true, d) =
      (d.start_address ≤ x)
      × (x ≤ d.end_address)
      × ((g.ptr ≡ 0) ⊎ (d.ptr + g.start_address ≡ g.ptr + addr_fw a d.start_address))
      × ((y : ℕ)
          → d.start_address ≤ y
          → y ≤ d.end_address
          → IsInside a y × (g.start_address ≤ addr_fw a y) × (addr_fw a y ≤ g.end_address))

  translated-IsTranslated :
      (x : ℕ) (g : Dmi) (o : Option (ℕ × ℕ × ℕ))
      → IsInside a x
      → g.start_address ≤ addr_fw a x
      → addr_fw a x ≤ g.end_address
      → Translates a m g.ptr g.start_address g.end_address o
      → IsTranslated x g (translated g o)
  translated-IsTranslated x g none w l u t = absurd (t x w l u)
  translated-IsTranslated x g (some (s, e, p)) w l u t =
      let here = (t.4 x w).1 (l, u) in
      (
        here.0,
        here.1,
        t.3,
        λ y b c. let v = between y b c in let f = (t.4 y v).0 (b, c) in (v, f.0, f.1),
      )
    where
      between : (y : ℕ) → s ≤ y → y ≤ e → IsInside a y
      between y b c = (omega (arith, t.0, t.1), omega (arith, t.0, t.1))

  pub answered-IsTranslated :
      (x : ℕ) (g : Dmi) → IsInside a x → IsTranslated x g (answered a (addr_fw a x) true g)
  unfolding answered
  answered-IsTranslated x g w =
      elim (Bool-cases (ltb (addr_fw a x) g.start_address || ltb g.end_address (addr_fw a x))) [
        | inl misses ↦ rw misses (missed misses)
        | inr holds ↦ rw holds (
            translated-IsTranslated x g _ w (ground (arith, holds)) (ground (arith, holds))
              (map_window-Translates a m g.ptr g.start_address g.end_address))
      ]
    where
      missed :
          (ltb (addr_fw a x) g.start_address || ltb g.end_address (addr_fw a x)) ≡ true
          → (addr_fw a x < g.start_address) ⊎ (g.end_address < addr_fw a x)
      missed h = ground (arith, h)

  -- The calls of an invalidation.
  abbrev pub IsForwarded : ℕ → ℕ → List (ℕ × ℕ) → Type 0
  IsForwarded start end cs =
      (x : ℕ)
      → IsInside a x
      → start ≤ addr_fw a x
      → addr_fw a x ≤ end
      → ((c : ℕ × ℕ) × (cs ≡ c ∷ []) × (c.0 ≤ x) × (x ≤ c.1))

  calls-IsForwarded :
      (start end : ℕ) (o : Option (ℕ × ℕ × ℕ))
      → Translates a m 0 start end o
      → IsForwarded start end (calls_of o)
  calls-IsForwarded start end none t x w l u = absurd (t x w l u)
  calls-IsForwarded start end (some (s, e, p)) t x w l u =
      let here = (t.4 x w).1 (l, u) in ((s, e), refl, here.0, here.1)

  -- An invalidation reaches every address of the window that maps into its range: the one call at
  -- the target socket holds it.
  pub invalidate_direct_mem_ptr-IsForwarded :
      (start end : ℕ) → IsForwarded start end (invalidate_direct_mem_ptr a start end)
  unfolding invalidate_direct_mem_ptr
  invalidate_direct_mem_ptr-IsForwarded start end =
      calls-IsForwarded start end (map_window a 0 start end) (map_window-Translates a m 0 start end)

  -- When the target grants `g` to a transaction within the window, the translator refuses only if
  -- `g` does not hold the address that the transaction maps to. Otherwise it grants a range of the
  -- window that holds the transaction's address and maps into `g`, with the pointer, unless it is
  -- null, at the byte that its start maps to. The payload keeps its address.
  pub get_direct_mem_ptr-IsTranslated :
      (target : Payload → Dmi → Bool × Dmi × Payload) (p : Payload) (d g : Dmi) (q : Payload)
      → p.address < 2 ^ 64
      → p.data_length < 2 ^ 64
      → fits a p.address p.data_length ≡ true
      → target (record p { address = a.mapped_base_addr + (p.address - a.base_addr) }) d
        ≡ (true, g, q)
      → (r : Bool × Dmi) × (get_direct_mem_ptr target a p d
          ≡ some (r.0, r.1, record q { address = p.address }))
        × IsTranslated p.address g r
  unfolding get_direct_mem_ptr
  get_direct_mem_ptr-IsTranslated target p d g q h k f e =
      let w = inside p.address p.data_length f in
      (
        answered a (addr_fw a p.address) true g,
        ap (direct_to target a p d) (map_txn_addr_lem p.address p.data_length h k ∙ reached)
            ∙ ap (answer_at (a.mapped_base_addr + (p.address - a.base_addr))) e
            ∙ ap (λ x. answer_at x (true, g, q)) (sym (addr_fw_lem a m p.address w)),
        answered-IsTranslated p.address g w,
      )
    where
      reached :
          (if fits a p.address p.data_length
            then some (a.mapped_base_addr + (p.address - a.base_addr))
            else none)
          ≡ some (a.mapped_base_addr + (p.address - a.base_addr))
      reached = rw f refl

      answer_at : ℕ → Bool × Dmi × Payload → Option (Bool × Dmi × Payload)
      answer_at x (ret, b, s) =
          let (ret', b') = answered a x ret b in some (ret', b', record s { address = p.address })
