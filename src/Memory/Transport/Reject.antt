-- ===== src/Memory/Transport/Reject.antt =====
-- The transactions that the memory refuses.
use qbox.Base.{
  ℕ, ◌+◌, ◌-◌, ◌^◌, ◌≤◌, ◌<◌, ◌≡◌, refl, ap, ◌∙◌, true, false, none, some, arith, ltb,
  if◌then◌else◌,
}
use qbox.Base.Outcomes.{done, fatal}
use qbox.Base.Word.{add64}
use qbox.Tlm.{write, Response, address_error, command_error, Payload}
use qbox.Memory.{Config}
use qbox.Memory.Storage
use qbox.Memory.Storage.{Presets, Memory}
use qbox.Memory.Transport.Grant.{start_of}
use qbox.Memory.Transport.{
  bytes_of, transfer, completed, on_command, offset_of, at_offset, counted, b_transport,
  transport_dbg,
}

-- The reasons to refuse a transaction, with the response, by the addresses of the memory's window.
pub data Refused (c : Config) (m : Memory) (p : Payload) : Response → Type 0 where
  below : p.address < start_of m → Refused c m p address_error
  beyond :
      start_of m ≤ p.address
      → start_of m + m.m_size < p.address + p.data_length
      → p.address - start_of m + p.data_length < 2 ^ 64
      → Refused c m p address_error
  read_only :
      start_of m ≤ p.address
      → p.address + p.data_length ≤ start_of m + m.m_size
      → p.command ≡ write
      → c.rom ≡ true
      → Refused c m p command_error

offset_below : (m : Memory) (addr : ℕ) → addr < start_of m → offset_of m addr ≡ none
offset_below m addr h = ground (arith, h)

offset_above :
    (m : Memory) (addr : ℕ) → start_of m ≤ addr → offset_of m addr ≡ some (addr - start_of m)
offset_above m addr h = ground (arith, h)

above : (size a n : ℕ) → size < a + n → a + n < 2 ^ 64 → ltb size (add64 a n) ≡ true
above size a n h k = ground (arith, h, k)

within : (size a n : ℕ) → a + n ≤ size → size < 2 ^ 64 → ltb size (add64 a n) ≡ false
within size a n h k = ground (arith, h, k)

at_offset-Refused :
    (c : Config) (q : Presets) (m : Memory) (p : Payload) (r : Response)
    → m.m_size < 2 ^ 64
    → Refused c m p r
    → at_offset c q p m (offset_of m p.address) ≡ done (record p { response = r }, m)
at_offset-Refused c q m p _ s (below h) = ap (at_offset c q p m) (offset_below m p.address h)
at_offset-Refused c q m p _ s (beyond l h k) =
    let a = p.address - start_of m in
    let out : ltb m.m_size (add64 a p.data_length) ≡ true =
      above m.m_size a p.data_length (omega arith) k in
    ap (at_offset c q p m) (offset_above m p.address l)
    ∙ ap
        (λ z.
          if z
          then done (record p { response = address_error }, m)
          else on_command c q p a m p.command)
        out
at_offset-Refused c q m p _ s (read_only l h w r) =
    let a = p.address - start_of m in
    let inside : ltb m.m_size (add64 a p.data_length) ≡ false =
      within m.m_size a p.data_length (omega arith) s in
    ap (at_offset c q p m) (offset_above m p.address l)
    ∙ ap
        (λ z.
          if z
          then done (record p { response = address_error }, m)
          else on_command c q p a m p.command)
        inside
    ∙ ap (on_command c q p a m) w
    ∙ ap
        (λ z.
          if z
          then done (record p { response = command_error }, m)
          else completed c p
              (transfer (Storage.write c q) p.byte_enable a p.data_length (bytes_of p.bytes) m))
        r

counted-Refused :
    (c : Config) (m : Memory) (p : Payload) (r : Response)
    → Refused c m p r
    → counted (done (record p { response = r }, m)) ≡ done (0, record p { response = r }, m)
counted-Refused c m p _ (below h) = refl
counted-Refused c m p _ (beyond l h k) = refl
counted-Refused c m p _ (read_only l h w r) = refl

-- A transaction whose address is below the window of the memory's addresses, one that starts in or
-- behind it and ends beyond it without a wrap, and a write within the window of a read-only memory
-- get the error response and change nothing else; the debug access transfers no byte. The size of
-- the memory has 64 bits, and the streaming width is at least the data length.
pub b_transport-Refused :
    (c : Config) (q : Presets) (m : Memory) (p : Payload) (r : Response)
    → m.m_size < 2 ^ 64
    → p.data_length ≤ p.streaming_width
    → Refused c m p r
    → (b_transport c q p m ≡ done (record p { response = r }, m))
      × (transport_dbg c q p m ≡ done (0, record p { response = r }, m))
unfolding b_transport transport_dbg
b_transport-Refused c q m p r s w h =
    let wide : ltb p.streaming_width p.data_length ≡ false = ground (arith, w) in
    let e =
      ap (λ z. if z then fatal else at_offset c q p m (offset_of m p.address)) wide
      ∙ at_offset-Refused c q m p r s h in
    (e, ap counted e ∙ counted-Refused c m p r h)
