-- ===== src/DmiConverter/Read/Loop.antt =====
-- A read through the DMI converter ends, with the bytes of its addresses.
use qbox.Base.{
  ℕ, zero, suc, ◌+◌, ◌-◌, ◌*◌, ◌^◌, ◌≤◌, ◌<◌, ◌≡◌, refl, ap, ◌∙◌, ◌⊎◌, inl, inr, true, List, none,
  some, arith, length, if◌then◌else◌, some_injective,
}
use qbox.Base.Outcomes.{done}
use qbox.Base.OrdMap.{Map}
use qbox.Tlm.{read, ok, Dmi, Payload}
use qbox.Memory.{Bytes}
use qbox.Memory.Storage.Turn.{in_window}
use qbox.Memory.Transport.{bytes_of, list_of}
use qbox.Memory.Transport.Whole.{list_of_same}
use qbox.DmiConverter.{
  Port, in_cache, Run, after_turn, turns, start, started, returned, b_transport,
}
use qbox.DmiConverter.Cache.{IsCache, cases}
use qbox.DmiConverter.Read.{Lends, view, IsReading, Reads, turns_on, with_region, miss_turn}
use qbox.DmiConverter.Read.Blocks.{Ends, hit-Ends}

module _ (region : ℕ → Dmi) (t : Port) (lends : Lends region t) where
  -- The loop ends: a turn for the grant and a turn for the bytes, for each block.
  loop-Ends :
      (f : ℕ) (s : Run) (r : IsReading region s)
      → 0 < s.remaining_len
      → (2 * s.remaining_len ≤ f)
        ⊎ ((2 * s.remaining_len ≤ suc f) × (in_cache s.addr s.cache ≡ some (region s.addr)))
      → Ends region t lends s r f
  loop-Ends zero s r h (inl k) = absurd (omega arith)
  loop-Ends zero s r h (inr k) = absurd (omega (arith, k.0))
  loop-Ends (suc f) s r h (inl k) = elim (cases region lends.division s.addr s.cache r.cache) [
    | inl hit ↦
        hit-Ends region t lends s r f hit h
          (λ s1 less more r1. loop-Ends f s1 r1 more (inl (omega (arith, less, k))))
    | inr miss ↦
        let w =
          loop-Ends f (with_region region t lends s r)
            (record {
              reads = r.reads;
              all_enabled = r.all_enabled;
              no_byt = r.no_byt;
              cache = miss.1;
              fits = r.fits;
              used = r.used;
            })
            h (inr (omega (arith, k), miss.2)) in
        (
          w.0,
          turns_on t f s h
              ∙ ap (after_turn (turns t f)) (miss_turn region t lends s r miss.0)
              ∙ w.1,
          record { host = w.2.host; cache = w.2.cache; trans = w.2.trans; bytes = w.2.bytes },
        )
  ]
  loop-Ends (suc f) s r h (inr k) =
      hit-Ends region t lends s r f k.1 h
        (λ s1 less more r1. loop-Ends f s1 r1 more (inl (omega (arith, less, k.0))))

-- The transaction that comes back.
read_back :
    (region : ℕ → Dmi) (p : Payload) (cache : Map Dmi) (host : Bytes) (s' : Run)
    → Reads region (start p cache host) s'
    → length p.bytes ≡ p.data_length
    → returned (done s')
      ≡ done (
        record p {
          bytes = list_of p.data_length (λ k. view region host (p.address + k));
          dmi_allowed = true;
          response = ok;
        },
        s'.cache,
        host,
      )
read_back region p cache host s' w l =
    let back : List ℕ → Payload = λ z. record p { bytes = z; dmi_allowed = true; response = ok } in
    ap
      (λ (z : Payload).
        done (record z { bytes = list_of (length z.bytes) s'.bytes }, s'.cache, s'.host))
      w.trans
    ∙ ap (λ z. done (back (list_of z s'.bytes), s'.cache, s'.host)) l
    ∙ ap (λ z. done (back z, s'.cache, s'.host))
        (list_of_same p.data_length s'.bytes (λ k. view region host (p.address + k))
          (λ k h.
            let there : in_window 0 p.data_length k ≡ true = ground (arith, h) in
            let from_start : p.address + (k - 0) ≡ p.address + k = omega arith in
            some_injective (
              w.bytes k
              ∙ ap
                  (λ z.
                    if z
                    then some (view region host (p.address + (k - 0)))
                    else some (bytes_of p.bytes k))
                  there
              ∙ ap (λ z. some (view region host z)) from_start)))
    ∙ ap
        (λ z.
          done (back (list_of p.data_length (λ k. view region host (p.address + k))), s'.cache, z))
        w.host

-- A read without byte enables, through a converter whose cache holds regions of the target, ends
-- after two turns for each byte at most: it is answered with the bytes that the host's memory has
-- for its addresses, changes nothing of that memory, and leaves a cache of regions.
pub b_transport-views :
    (region : ℕ → Dmi) (t : Port) (p : Payload) (cache : Map Dmi) (host : Bytes)
    → Lends region t
    → IsCache region cache
    → p.command ≡ read
    → p.byte_enable ≡ none
    → length p.bytes ≡ p.data_length
    → 0 < p.data_length
    → p.address + p.data_length ≤ 2 ^ 64
    → (cache' : Map Dmi) × (b_transport t (2 * p.data_length) p cache host
        ≡ done (
          record p {
            bytes = list_of p.data_length (λ k. view region host (p.address + k));
            dmi_allowed = true;
            response = ok;
          },
          cache',
          host,
        ))
      × IsCache region cache'
unfolding b_transport
b_transport-views region t p cache host lends c e n l h k =
    let s = start p cache host in
    let r : IsReading region s = record {
      reads = e;
      all_enabled = n;
      no_byt = n;
      cache = c;
      fits = k;
      used = inr (refl, refl, refl);
    } in
    let w = loop-Ends region t lends (2 * p.data_length) s r h (inl (omega arith)) in
    (
      w.0.cache,
      ap (λ z. returned (started t (2 * p.data_length) s z)) n
          ∙ ap returned w.1
          ∙ read_back region p cache host w.0 w.2 l,
      w.2.cache,
    )
