-- ===== src/Memory/Transport/Whole.antt =====
-- The transactions of the memory without byte enables.
use qbox.Base.{
  ℕ, zero, suc, ◌+◌, ◌-◌, ◌≤◌, ◌<◌, ◌≡◌, refl, sym, ap, ◌∙◌, true, false, List, [], ◌∷◌, none, some,
  arith, length, ltb, if◌then◌else◌, some_injective,
}
use qbox.Base.Outcomes.{done, fatal}
use qbox.Base.Word.{add64}
use qbox.Tlm.{read, write, ok, address_error, command_error, Payload}
use qbox.Memory.{Bytes, Config, Block}
use qbox.Memory.Storage
use qbox.Memory.Storage.{Presets, Memory}
use qbox.Memory.Storage.Turn.{byte_at, in_window}
use qbox.Memory.Storage.Contents.{
  IsReady, with_tree, StoredBytes, SameBytes, write-Stores, read-Loads,
}
use qbox.Memory.Transport.{
  bytes_of, list_of, whole, transfer, completed, on_command, offset_of, at_offset, b_transport,
}

pub list_of-bytes_of : (xs : List ℕ) → list_of (length xs) (bytes_of xs) ≡ xs
list_of-bytes_of [] = refl
list_of-bytes_of (x ∷ xs) = ap (λ ys. x ∷ ys) (list_of-bytes_of xs)

pub list_of_same : (n : ℕ) (f g : Bytes) → ((k : ℕ) → k < n → f k ≡ g k) → list_of n f ≡ list_of n g
list_of_same zero f g h = refl
list_of_same (suc n) f g h =
    ap (λ x. x ∷ list_of n (λ k. f (suc k))) (h 0 (omega arith))
    ∙ ap (λ xs. g 0 ∷ xs)
        (list_of_same n (λ k. f (suc k)) (λ k. g (suc k)) (λ k l. h (suc k) (omega arith)))

-- A transaction that the memory can do: it is within the memory.
pub record IsInRange (m : Memory) (p : Payload) (a : ℕ) : Type 0 where
  pub offset : offset_of m p.address ≡ some a
  pub fits : a + p.data_length ≤ m.m_size
  pub streams : p.data_length ≤ p.streaming_width
  pub shown : length p.bytes ≡ p.data_length

abbrev pub answered : Config → Payload → List ℕ → Payload
answered c p bytes = record p {
  bytes = bytes;
  response = ok;
  dmi_allowed = if c.dmi then true else p.dmi_allowed;
}

module _ (c : Config) (q : Presets) (m : Memory) (b : Block) (ready : IsReady c m b) (p : Payload)
    (a : ℕ) (r : IsInRange m p a) where
  pub reaches : b_transport c q p m ≡ on_command c q p a m p.command
  unfolding b_transport
  reaches =
      let wide : ltb p.streaming_width p.data_length ≡ false = ground (arith, r.streams) in
      let within : ltb m.m_size (add64 a p.data_length) ≡ false =
        ground (arith, r.fits, ready.bounded) in
      ap (λ z. if z then fatal else at_offset c q p m (offset_of m p.address)) wide
      ∙ ap (at_offset c q p m) r.offset
      ∙ ap
          (λ z.
            if z
            then done (record p { response = address_error }, m)
            else on_command c q p a m p.command)
          within

  -- A write without byte enables in the range of a memory that is not read-only is answered with `ok`; the memory holds
  -- the payload's bytes in the range, and its other bytes are as they were.
  pub b_transport-Stores :
      p.command ≡ write
      → c.rom ≡ false
      → p.byte_enable ≡ none
      → (b' : Block) × (b_transport c q p m ≡ done (answered c p p.bytes, with_tree m b'))
        × IsReady c (with_tree m b') b'
        × StoredBytes c m.m_size a p.data_length (bytes_of p.bytes) b b'
  b_transport-Stores e f g =
      let t = write-Stores c q (bytes_of p.bytes) a p.data_length m b ready r.fits in
      (
        t.0,
        reaches
            ∙ ap (on_command c q p a m) e
            ∙ ap
                (λ z.
                  if z
                  then done (record p { response = command_error }, m)
                  else completed c p (
                      transfer (Storage.write c q) p.byte_enable a p.data_length (bytes_of p.bytes)
                        m))
                f
            ∙ ap
                (λ z.
                  completed c p
                    (transfer (Storage.write c q) z a p.data_length (bytes_of p.bytes) m))
                g
            ∙ ap (λ z. completed c p (whole z)) t.1
            ∙ ap (λ z. done (answered c p z, with_tree m t.0)) (list_of-bytes_of p.bytes),
        t.2,
        t.3,
      )

  -- A read without byte enables in the range of a memory is answered with `ok` and the bytes of the range, and changes
  -- no byte of the memory.
  pub b_transport-Loads :
      p.command ≡ read
      → p.byte_enable ≡ none
      → (bytes' : Bytes) × (b' : Block) × (b_transport c q p m
          ≡ done (answered c p (list_of p.data_length bytes'), with_tree m b'))
        × IsReady c (with_tree m b') b'
        × ((k : ℕ) → k < p.data_length → some (bytes' k) ≡ byte_at c (a + k) b)
        × SameBytes c m.m_size b b'
  b_transport-Loads e g =
      let t = read-Loads c q (bytes_of p.bytes) a p.data_length m b ready r.fits in
      (
        t.0,
        t.1,
        reaches
            ∙ ap (on_command c q p a m) e
            ∙ ap
                (λ z.
                  completed c p
                    (transfer (Storage.read c q) z a p.data_length (bytes_of p.bytes) m))
                g
            ∙ ap (λ z. completed c p (whole z)) t.2
            ∙ ap (λ z. done (answered c p (list_of z t.0), with_tree m t.1)) r.shown,
        t.3,
        λ k h.
            let there : ltb k p.data_length ≡ true = ground (arith, h) in
            t.4 k ∙ ap (λ z. if z then byte_at c (a + k) b else some (bytes_of p.bytes k)) there,
        t.5,
      )

-- The byte of a stored range.
stored_byte :
    (c : Config) (size a len k : ℕ) (bytes : Bytes) (b b' : Block)
    → StoredBytes c size a len bytes b b'
    → a + len ≤ size
    → k < len
    → byte_at c (a + k) b' ≡ some (bytes k)
stored_byte c size a len k bytes b b' s h l =
    let there : in_window a len (a + k) ≡ true = ground (arith, l) in
    let back : a + k - a ≡ k = omega arith in
    s (a + k) (omega arith)
    ∙ ap (λ z. if z then some (bytes (a + k - a)) else byte_at c (a + k) b) there
    ∙ ap (λ z. some (bytes z)) back

-- With memory for every address and no byte enables, a write of the range of a memory that is not
-- read-only and then a read of the same range are both answered with `ok`, and the read brings back
-- the bytes that were written.
pub b_transport-b_transport :
    (c : Config) (q : Presets) (m : Memory) (b : Block) (w r : Payload) (a : ℕ)
    → IsReady c m b
    → c.rom ≡ false
    → IsInRange m w a
    → IsInRange m r a
    → w.command ≡ write
    → r.command ≡ read
    → w.byte_enable ≡ none
    → r.byte_enable ≡ none
    → w.data_length ≡ r.data_length
    → (m' : Memory) × (m'' : Memory) × (b_transport c q w m ≡ done (answered c w w.bytes, m'))
      × (b_transport c q r m' ≡ done (answered c r w.bytes, m''))
b_transport-b_transport c q m b w r a ready rom fw fr ew er nw nr len =
    let s = b_transport-Stores c q m b ready w a fw ew rom nw in
    let l =
      b_transport-Loads c q (with_tree m s.0) s.0 s.2 r a
        (record { offset = fr.offset; fits = fr.fits; streams = fr.streams; shown = fr.shown }) er
        nr in
    (
      with_tree m s.0,
      with_tree m l.1,
      s.1,
      l.2
          ∙ ap (λ z. done (answered c r z, with_tree m l.1))
              (list_of_same r.data_length l.0 (bytes_of w.bytes) (λ k h. some_injective (
                  l.4 k h
                  ∙ stored_byte c m.m_size a w.data_length k (bytes_of w.bytes) b s.0 s.3 fw.fits
                      (omega (arith, h, len))))
                ∙ ap (λ z. list_of z (bytes_of w.bytes)) (sym (fw.shown ∙ len))
                ∙ list_of-bytes_of w.bytes),
    )
