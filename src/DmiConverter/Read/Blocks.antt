-- ===== src/DmiConverter/Read/Blocks.antt =====
-- The blocks of a read through the DMI converter: what one turn adds to the data.
use qbox.Base.{
  ℕ, suc, ◌+◌, ◌-◌, ◌≤◌, ◌<◌, ◌≡◌, refl, sym, ap, ◌∙◌, inl, inr, true, some, arith, ◌==◌,
  if◌then◌else◌, Bool-cases,
}
use qbox.Base.Outcomes.{done}
use qbox.Base.Word.{add64}
use qbox.Tlm.{ok, Dmi}
use qbox.Memory.{memcpy}
use qbox.Memory.Storage.Turn.{in_window}
use qbox.Memory.Storage.Loop.{if_window, in_order}
use qbox.DmiConverter.{Port, in_cache, Run, iter_len, after_turn, turns}
use qbox.DmiConverter.Read.{
  Lends, view, IsReading, Reads, memcpy_byte, turns_end, turns_on, read_block, hit_turn,
}

module _ (region : ℕ → Dmi) (t : Port) (lends : Lends region t) (s : Run)
    (r : IsReading region s) where
  iter_bounds :
      0 < s.remaining_len
      → (0 < iter_len (region s.addr) s)
        × (iter_len (region s.addr) s ≤ s.remaining_len)
        × (s.addr + iter_len (region s.addr) s ≤ suc (region s.addr).end_address)
  iter_bounds h =
      let b = lends.bounded s.addr in
      let d = lends.division.holds s.addr in
      (ground (arith, b, d, h), ground (arith, b, d, h), ground (arith, b, d, h))

  -- The bytes of a block.
  block_byte :
      (n k : ℕ)
      → s.addr + n ≤ suc (region s.addr).end_address
      → some (
          memcpy s.bytes s.trans_data_ptr s.host
            ((region s.addr).ptr + (s.addr - (region s.addr).start_address))
            n
            k)
        ≡ (if in_window s.trans_data_ptr n k
            then some (view region s.host (s.addr + (k - s.trans_data_ptr)))
            else some (s.bytes k))
  block_byte n k h =
      let d = region s.addr in
      let b = lends.division.holds s.addr in
      memcpy_byte s.bytes s.host s.trans_data_ptr (d.ptr + (s.addr - d.start_address)) n k
      ∙ if_window s.trans_data_ptr n k
          (some (s.host (d.ptr + (s.addr - d.start_address) + (k - s.trans_data_ptr))))
          (some (view region s.host (s.addr + (k - s.trans_data_ptr)))) (some (s.bytes k))
          (λ l u.
            let x = s.addr + (k - s.trans_data_ptr) in
            let own : region x ≡ d =
              lends.division.same s.addr x (omega (arith, b)) (omega (arith, h, l, u)) in
            let at : d.ptr + (s.addr - d.start_address) + (k - s.trans_data_ptr)
                ≡ d.ptr + (x - d.start_address) =
              omega (arith, b) in
            ap (λ z. some (s.host z)) at
            ∙ ap (λ (z : Dmi). some (s.host (z.ptr + (x - z.start_address)))) (sym own))

  last_block :
      iter_len (region s.addr) s ≡ s.remaining_len
      → 0 < s.remaining_len
      → Reads region s (record (read_block (region s.addr) s) {
        trans = record s.trans { dmi_allowed = true; response = ok };
      })
  last_block e h =
      let b = iter_bounds h in
      record {
        host = refl;
        cache = r.cache;
        trans = refl;
        bytes = λ k.
            block_byte (iter_len (region s.addr) s) k b.2
            ∙ ap
                (λ z.
                  if in_window s.trans_data_ptr z k
                  then some (view region s.host (s.addr + (k - s.trans_data_ptr)))
                  else some (s.bytes k))
                e;
      }

  next_block :
      iter_len (region s.addr) s < s.remaining_len → IsReading region (read_block (region s.addr) s)
  next_block h =
      let b = iter_bounds (omega arith) in
      record {
        reads = r.reads;
        all_enabled = r.all_enabled;
        no_byt = r.no_byt;
        cache = r.cache;
        fits = omega (arith, b.1, r.fits, h);
        used = inl refl;
      }

  then_block :
      (s' : Run)
      → iter_len (region s.addr) s < s.remaining_len
      → Reads region (read_block (region s.addr) s) s'
      → Reads region s s'
  then_block s' h w = record {
    host = w.host;
    cache = w.cache;
    trans = w.trans;
    bytes = λ k.
        let d = region s.addr in
        let n = iter_len d s in
        let b = iter_bounds (omega arith) in
        let i = s.trans_data_ptr in
        let y = some (view region s.host (s.addr + (k - i))) in
        let a : add64 s.addr n ≡ s.addr + n = omega (arith, r.fits, h) in
        w.bytes k
        ∙ if_window (i + n) (s.remaining_len - n) k
            (some (view region s.host (add64 s.addr n + (k - (i + n))))) y
            (some ((read_block d s).bytes k))
            (λ l u. ap (λ z. some (view region s.host z)) (omega (arith, a, l)))
        ∙ ap (λ z. if in_window (i + n) (s.remaining_len - n) k then y else z) (block_byte n k b.2)
        ∙ in_order i n (s.remaining_len - n) k y (some (s.bytes k))
        ∙ ap (λ z. if in_window i z k then y else some (s.bytes k)) (omega (arith, h));
  }

  -- What a turn that finds its block leads to.
  abbrev pub Ends : ℕ → Type 0
  Ends f = (s' : Run) × (turns t f s ≡ done s') × Reads region s s'

  pub hit-Ends :
      (f : ℕ)
      → in_cache s.addr s.cache ≡ some (region s.addr)
      → 0 < s.remaining_len
      → ((s1 : Run)
          → s1.remaining_len < s.remaining_len
          → 0 < s1.remaining_len
          → IsReading region s1
          → (s' : Run) × (turns t f s1 ≡ done s') × Reads region s1 s')
      → Ends (suc f)
  hit-Ends f e h rest =
      let d = region s.addr in
      let n = iter_len d s in
      let s1 = read_block d s in
      let last = record s1 { trans = record s1.trans { dmi_allowed = true; response = ok } } in
      let b = iter_bounds h in
      let go = turns_on t f s h ∙ ap (after_turn (turns t f)) (hit_turn region t lends s r e) in
      elim (Bool-cases (s.remaining_len - n == 0)) [
        | inl all ↦ (
          last,
          go
              ∙ ap (λ z. turns t f (if z then last else s1)) all
              ∙ turns_end t f last (ground (arith, all)),
          last_block (ground (arith, all, b.1)) h,
        )
        | inr more ↦
            let w =
              rest s1 (omega (arith, b)) (ground (arith, more))
                (next_block (ground (arith, more))) in
            (
              w.0,
              go ∙ ap (λ z. turns t f (if z then last else s1)) more ∙ w.1,
              then_block w.0 (ground (arith, more)) w.2,
            )
      ]
