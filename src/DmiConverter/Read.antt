-- ===== src/DmiConverter/Read.antt =====
-- A read through the DMI converter: the states of its loop, and its turns.
pub mod Blocks
pub mod Loop
use qbox.Base.{
  ℕ, zero, suc, ◌+◌, ◌-◌, ◌*◌, ◌^◌, ◌≤◌, ◌<◌, ◌≡◌, refl, sym, ap, ◌∙◌, ◌⊎◌, inl, inr, true, false,
  List, Option, none, some, arith, length, ◌==◌, if◌then◌else◌, Bool-cases, some_injective,
}
use qbox.Base.Outcomes.{done, no_fuel}
use qbox.Base.Word.{add64}
use qbox.Base.OrdMap.{Map, assign}
use qbox.Tlm.{read, ok, Dmi, Payload}
use qbox.Memory.{Bytes, memcpy}
use qbox.Memory.Storage.Turn.{in_window}
use qbox.Memory.Storage.Loop.{if_window, in_order}
use qbox.Memory.Transport.{bytes_of, list_of}
use qbox.Memory.Transport.Whole.{list_of-bytes_of, list_of_same}
use qbox.DmiConverter.{
  Port, in_cache, allows_read, is_granted, update_byte_enable, copy, Run, continue, iter_len,
  finished, advance, use_block, shown, t_trans, sent, asked, answered, cached_turn, turn,
  after_turn, turns, start, started, returned, b_transport,
}
use qbox.DmiConverter.Cache.{IsDivision, IsCache, cases}

-- A target that grants reads of the regions of a division, and changes nothing by that.
pub record Lends (region : ℕ → Dmi) (t : Port) : Type 0 where
  pub division : IsDivision region
  pub grants :
      (p : Payload) (host : Bytes) → t.get_direct_mem_ptr p host ≡ (true, region p.address, p, host)
  pub readable : (a : ℕ) → allows_read (region a).access ≡ true
  pub bounded : (a : ℕ) → (region a).end_address - (region a).start_address + 1 < 2 ^ 64

-- What the host's memory has for an address of the target.
abbrev pub view : (ℕ → Dmi) → Bytes → Bytes
view region host x = host ((region x).ptr + (x - (region x).start_address))

-- A state of the loop of a read without byte enables.
abbrev Unused : Run → Type 0
Unused s =
    (s.is_cache_used ≡ false) × (s.trans.address ≡ s.addr) × (s.bytes ≡ bytes_of s.trans.bytes)

pub record IsReading (region : ℕ → Dmi) (s : Run) : Type 0 where
  pub reads : s.trans.command ≡ read
  pub all_enabled : s.trans.byte_enable ≡ none
  pub no_byt : s.byt ≡ none
  pub cache : IsCache region s.cache
  pub fits : s.addr + s.remaining_len ≤ 2 ^ 64
  pub used : (s.is_cache_used ≡ true) ⊎ Unused s

-- What the loop does from a state on.
pub record Reads (region : ℕ → Dmi) (s s' : Run) : Type 0 where
  pub host : s'.host ≡ s.host
  pub cache : IsCache region s'.cache
  pub trans : s'.trans ≡ record s.trans { dmi_allowed = true; response = ok }
  pub bytes :
      (k : ℕ)
      → some (s'.bytes k) ≡ (
          if in_window s.trans_data_ptr s.remaining_len k
          then some (view region s.host (s.addr + (k - s.trans_data_ptr)))
          else some (s.bytes k))

pub memcpy_byte :
    (to from : Bytes) (i j n k : ℕ)
    → some (memcpy to i from j n k)
      ≡ (if in_window i n k then some (from (j + (k - i))) else some (to k))
memcpy_byte to from i j n k = elim (Bool-cases (in_window i n k)) [
  | inl inside ↦ rw inside refl
  | inr outside ↦ rw outside refl
]

pub turns_end : (t : Port) (f : ℕ) (s : Run) → s.remaining_len ≡ 0 → turns t f s ≡ done s
unfolding turns
turns_end t zero s e = ap (λ z. if z == 0 then done s else no_fuel) e
turns_end t (suc f) s e = ap (λ z. if z == 0 then done s else after_turn (turns t f) (turn t s)) e

pub turns_on :
    (t : Port) (f : ℕ) (s : Run)
    → 0 < s.remaining_len
    → turns t (suc f) s ≡ after_turn (turns t f) (turn t s)
unfolding turns
turns_on t f s h =
    let left : (s.remaining_len == 0) ≡ false = ground (arith, h) in
    ap (λ z. if z then done s else after_turn (turns t f) (turn t s)) left

-- The state after a block of the cache.
abbrev pub read_block : Dmi → Run → Run
read_block d s = record s {
  addr = add64 s.addr (iter_len d s);
  remaining_len = s.remaining_len - iter_len d s;
  trans_data_ptr = s.trans_data_ptr + iter_len d s;
  bytes =
      memcpy s.bytes s.trans_data_ptr s.host (d.ptr + (s.addr - d.start_address)) (iter_len d s);
  is_cache_used = true;
}

module _ (region : ℕ → Dmi) (t : Port) (lends : Lends region t) (s : Run)
    (r : IsReading region s) where
  granted : is_granted (region s.addr) s.trans.command ≡ true
  granted = ap (is_granted (region s.addr)) r.reads ∙ lends.readable s.addr

  pub hit_turn :
      in_cache s.addr s.cache ≡ some (region s.addr)
      → turn t s ≡ continue (finished (read_block (region s.addr) s))
  hit_turn e =
      let d = region s.addr in
      let n = iter_len d s in
      let from = d.ptr + (s.addr - d.start_address) in
      ap (cached_turn t s) e
      ∙ ap
          (λ z.
            if z
            then use_block s.trans.command d s
            else asked t s (t.get_direct_mem_ptr (sent s) s.host))
          granted
      ∙ ap (λ z. use_block z d s) r.reads
      ∙ ap (λ z. continue (advance s n (copy z s.bytes s.trans_data_ptr s.host from n) s.host))
          r.no_byt
      ∙ ap
          (λ (z : Option (List ℕ) × ℕ).
            continue (finished (record (read_block d s) { byt = z.0; bel_remaining_len = z.1 })))
          (ap (λ z. update_byte_enable s.trans z s.byt s.bel_remaining_len n) r.all_enabled)

  shown_same : s.bytes ≡ bytes_of s.trans.bytes → shown s ≡ s.trans
  shown_same e =
      ap (λ z. record s.trans { bytes = list_of (length s.trans.bytes) z }) e
      ∙ ap (λ z. record s.trans { bytes = z }) (list_of-bytes_of s.trans.bytes)

  abbrev pub with_region : Run
  with_region = record s { cache = assign (region s.addr).start_address (region s.addr) s.cache }

  -- What the target is asked leads to the region of the address.
  asked_region :
      (p : Payload) (next : Run)
      → sent s ≡ p
      → p.address ≡ s.addr
      → (if s.is_cache_used
          then with_region
          else record with_region { trans = p; bytes = bytes_of p.bytes })
        ≡ next
      → asked t s (t.get_direct_mem_ptr (sent s) s.host) ≡ continue next
  asked_region p next e f g =
      let d = region s.addr in
      ap (λ z. asked t s (t.get_direct_mem_ptr z s.host)) e
      ∙ ap (asked t s) (lends.grants p s.host)
      ∙ ap (λ z. asked t s (true, region z, p, s.host)) f
      ∙ ap
          (λ z.
            if z
            then continue (
                if s.is_cache_used
                then with_region
                else record with_region { trans = p; bytes = bytes_of p.bytes })
            else answered s (t.b_transport p s.host))
          granted
      ∙ ap continue g

  pub miss_turn : in_cache s.addr s.cache ≡ none → turn t s ≡ continue with_region
  miss_turn e = ap (cached_turn t s) e ∙ elim r.used [
    | inl u ↦
        asked_region (t_trans s) with_region (ap (λ z. if z then t_trans s else shown s) u) refl (
          ap
            (λ z.
              if z
              then with_region
              else record with_region { trans = t_trans s; bytes = bytes_of (t_trans s).bytes })
            u)
    | inr u ↦
        asked_region s.trans with_region
          (ap (λ z. if z then t_trans s else shown s) u.0 ∙ shown_same u.2) u.1
          (ap
              (λ z.
                if z
                then with_region
                else record with_region { trans = s.trans; bytes = bytes_of s.trans.bytes })
              u.0
            ∙ ap (λ z. record with_region { bytes = z }) (sym u.2))
  ]
