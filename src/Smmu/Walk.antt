-- ===== src/Smmu/Walk.antt =====
-- `smmuv3_ptw64` of systemc-components/smmuv3/include/smmuv3.h: the walk through the levels, and what
-- the last descriptor allows. The memory, which the walk may write to, is a parameter.
pub mod Loop
pub mod Verdict
pub mod Bounds
pub mod Result
pub mod Total
pub mod Upper
use Prim.Native.Nat.{bit_or}
use qbox.Base.{
  ℕ, zero, suc, ◌+◌, ◌-◌, ◌*◌, ◌/◌, ◌%◌, ◌^◌, Bool, true, false, not, ◌&&◌, ◌||◌, Option, none,
  some, ltb, ◌==◌, if◌then◌else◌,
}
use qbox.Base.Outcomes.{Outcome, done, fatal, no_fuel}
use qbox.Smmu.{
  ro, wo, rw, and_not, is_ro, is_wo, bit, extract64, aligned, pa_bits, Ste, PtwCtx, TransReq, Dma,
  new_req, fail, check_out_addr, stage2_ctx, evt_f_walk_eabt, evt_f_translation, evt_f_addr_size,
  evt_f_access, evt_f_permission,
}
use qbox.Smmu.Plan.{Plan, stride, Setup, refused, undefined, planned, setup}

-- The end of the loop: a fault, or the level, the address and the word of the last descriptor.
pub data Ending : Type 0 where
  faulted : TransReq → Ending
  leaf : ℕ → ℕ → ℕ → TransReq → Ending

-- What the function returns, the request as it leaves it, and the memory.
abbrev pub Answer : Type 0 → Type 0
Answer M = Outcome (Bool × TransReq × M)

module _ {M : Type 0} (dma : Dma M) (nested : PtwCtx → TransReq → M → Answer M) (c : PtwCtx) where
  -- The place of the descriptor in the table at `ttbr`.
  unfoldable pub descaddr : Plan → ℕ → ℕ → ℕ
  descaddr p level ttbr =
      let bottom = (3 - level) * stride p.grainsize + p.grainsize in
      bit_or ttbr (aligned 3 (c.iova / 2 ^ (bottom - 3) % 2 ^ p.grainsize))

  -- The place of a descriptor through stage 2; `none` is a fault.
  abbrev pub resolved : Answer M → Outcome (Option ℕ × M)
  resolved (done (b, r, m)) = done (if not b || r.err then none else some r.pa, m)
  resolved fatal = fatal
  resolved no_fuel = no_fuel

  abbrev pub through_stage2 : Option Ste → ℕ → M → Outcome (Option ℕ × M)
  through_stage2 none a m = fatal
  through_stage2 (some s) a m =
      resolved (nested (stage2_ctx s a ro) (record (new_req a ro) { pa = a }) m)

  unfoldable pub resolve : ℕ → M → Outcome (Option ℕ × M)
  resolve a m =
      if (c.stage == 1) && c.s2_enabled then through_stage2 c.ste a m else done (some a, m)

  module _ (p : Plan) where
    -- `ttbr` as the loop leaves it
    abbrev pub next_table : ℕ → ℕ
    next_table desc = aligned p.grainsize (desc % 2 ^ pa_bits)

    -- A descriptor above the last level, by its type.
    unfoldable pub by_type :
        (ℕ → ℕ → TransReq → M → Outcome (Ending × M)) → ℕ → ℕ → TransReq → M → Outcome (Ending × M)
    by_type next level desc req m =
        let t = next_table desc in
        let deeper = record req { tableattrs = bit_or req.tableattrs (extract64 desc 59 5) } in
        let below = next (suc level) t deeper m in
        if desc % 4 == 1
        then if ltb level p.firstblocklevel
          then done (faulted (fail evt_f_translation level req), m)
          else done (leaf level t desc req, m)
        else if desc % 4 == 3
        then if check_out_addr t p.outputsize
          then below
          else done (faulted (fail evt_f_addr_size level deeper), m)
        else done (faulted (fail evt_f_translation level req), m)

    unfoldable pub examine :
        (ℕ → ℕ → TransReq → M → Outcome (Ending × M)) → ℕ → ℕ → TransReq → M → Outcome (Ending × M)
    examine next level desc req m =
        if level == 3
        then if desc % 4 == 3
          then done (leaf level (next_table desc) desc req, m)
          else done (faulted (fail evt_f_translation level req), m)
        else by_type next level desc req m

    abbrev pub fetched :
        (ℕ → ℕ → TransReq → M → Outcome (Ending × M))
        → ℕ
        → ℕ
        → TransReq
        → Option ℕ × M
        → Outcome (Ending × M)
    fetched next level a req (none, m) = done (faulted (fail evt_f_walk_eabt level req), m)
    fetched next level a req (some desc, m) =
        examine next level desc (record req { leaf_desc_addr = a }) m

    abbrev pub located :
        (ℕ → ℕ → TransReq → M → Outcome (Ending × M))
        → ℕ
        → TransReq
        → Outcome (Option ℕ × M)
        → Outcome (Ending × M)
    located next level req (done (none, m)) = done (faulted (fail evt_f_translation level req), m)
    located next level req (done (some a, m)) = fetched next level a req (dma.read a m)
    located next level req fatal = fatal
    located next level req no_fuel = no_fuel

    -- The loop. Fuel counts descriptors.
    unfoldable pub walk : ℕ → ℕ → ℕ → TransReq → M → Outcome (Ending × M)
    walk zero level ttbr req m = no_fuel
    walk (suc fuel) level ttbr req m =
        located (walk fuel) level req (resolve (descaddr p level ttbr) m)

  -- The attributes of the last descriptor, with what the tables add in stage 1.
  unfoldable pub own_attrs : ℕ → ℕ
  own_attrs desc = bit_or (extract64 desc 2 10) (extract64 desc 52 12 * 2 ^ 10)

  unfoldable pub all_attrs : ℕ → ℕ → ℕ
  all_attrs tableattrs desc =
      if c.stage == 1
      then bit_or (bit_or (own_attrs desc) (extract64 tableattrs 0 2 * 2 ^ 11))
          (extract64 tableattrs 3 1 * 2 ^ 5)
      else own_attrs desc

  -- The access flag: whether the walk goes on, the word of the descriptor now, and the memory.
  abbrev pub ste_flag : (Ste → Bool) → Option Ste → Bool
  ste_flag f none = false
  ste_flag f (some s) = f s

  abbrev pub tolerated : Bool
  tolerated = if c.stage == 1 then c.affd else ste_flag (λ s. s.s2affd) c.ste

  abbrev pub updates_af : Bool
  updates_af = if c.stage == 1 then c.ha else (c.stage == 2) && ste_flag (λ s. s.s2hd) c.ste

  abbrev pub af_written : ℕ → Bool × M → Bool × ℕ × M
  af_written desc (true, m) = (true, bit_or desc (2 ^ 10), m)
  af_written desc (false, m) = (tolerated, desc, m)

  unfoldable pub touch : ℕ → ℕ → ℕ → M → Bool × ℕ × M
  touch a attrs desc m =
      if bit 8 attrs
      then (true, desc, m)
      else if updates_af
      then af_written desc (dma.write a (bit_or desc (2 ^ 10)) m)
      else (tolerated, desc, m)

  abbrev pub denied : ℕ → TransReq → M → Bool × TransReq × M
  denied level req m = (false, fail evt_f_permission level req, m)

  -- Permissions of stage 1. A write to a page that is read-only may make it writable.
  abbrev pub dirtied : ℕ → TransReq → Bool × M → Bool × TransReq × M
  dirtied level req (true, m) = (true, req, m)
  dirtied level req (false, m) = denied level req m

  unfoldable pub permit1 : ℕ → ℕ → Bool → ℕ → TransReq → M → Bool × TransReq × M
  permit1 level attrs dbm desc req m =
      if not (bit 4 attrs)
      then denied level req m
      else if not (bit 5 attrs)
      then (true, req, m)
      else if not (is_wo c.access)
      then (true, record req { prot = and_not req.prot wo }, m)
      else if c.hd && dbm
      then dirtied level req
          (dma.write req.leaf_desc_addr (if bit 7 desc then desc - 2 ^ 7 else desc) m)
      else denied level req m

  -- Permissions of stage 2.
  unfoldable pub permit2 : ℕ → ℕ → TransReq → M → Bool × TransReq × M
  permit2 level s2ap req m =
      if s2ap == 0
      then denied level req m
      else if s2ap == 1
      then if is_wo c.access
        then denied level req m
        else (true, record req { prot = and_not req.prot wo }, m)
      else if s2ap == 2
      then if is_ro c.access
        then denied level req m
        else (true, record req { prot = and_not req.prot ro }, m)
      else (true, req, m)

  abbrev pub touched : ℕ → ℕ → Bool → TransReq → Bool × ℕ × M → Bool × TransReq × M
  touched level attrs dbm req (false, desc, m) = (false, fail evt_f_access level req, m)
  touched level attrs dbm req (true, desc, m) =
      if c.stage == 1
      then permit1 level attrs dbm desc req m
      else permit2 level (attrs / 2 ^ 4 % 4) req m

  -- The address, and the permissions.
  unfoldable pub mapped : Plan → ℕ → ℕ → ℕ → TransReq → TransReq
  mapped p level t desc req =
      let size = stride p.grainsize * (4 - level) + 3 in
      record req {
        page_size = size;
        pa = bit_or t (c.iova % 2 ^ size);
        descriptor = desc;
        prot = rw;
      }

  unfoldable pub conclude : Plan → ℕ → ℕ → ℕ → TransReq → M → Bool × TransReq × M
  conclude p level t desc req m =
      let attrs = all_attrs req.tableattrs desc in
      if check_out_addr t p.outputsize
      then touched level attrs (bit 51 desc) (mapped p level t desc req)
          (touch req.leaf_desc_addr attrs desc m)
      else (false, fail evt_f_addr_size level req, m)

  abbrev pub ended : Plan → Outcome (Ending × M) → Answer M
  ended p (done (faulted r, m)) = done (false, r, m)
  ended p (done (leaf level t desc r, m)) = done (conclude p level t desc r m)
  ended p fatal = fatal
  ended p no_fuel = no_fuel

  abbrev pub begun : TransReq → M → Setup → Answer M
  begun req m (refused event) = done (false, fail event 0 req, m)
  begun req m undefined = fatal
  begun req m (planned p) = ended p (walk p 4 p.level p.ttbr req m)

-- `req.err`, `req.tableattrs` and `req.fault_level` are reset first.
abbrev pub cleared : TransReq → TransReq
cleared req = record req { err = false; tableattrs = 0; fault_level = 0 }

-- The function calls itself from stage 1 for stage 2 alone, where it does not.
module _ {M : Type 0} (dma : Dma M) (pamax : ℕ) where
  unfoldable pub ptw64_by : (PtwCtx → TransReq → M → Answer M) → PtwCtx → TransReq → M → Answer M
  ptw64_by nested c req m = begun dma nested c (cleared req) m (setup pamax c)

  unfoldable pub smmuv3_ptw64 : ℕ → PtwCtx → TransReq → M → Answer M
  smmuv3_ptw64 zero c req m = no_fuel
  smmuv3_ptw64 (suc depth) c req m = ptw64_by (smmuv3_ptw64 depth) c req m
