-- ===== src/Smmu/Plan.antt =====
-- The checks that `smmuv3_ptw64` of systemc-components/smmuv3/include/smmuv3.h makes before it reads a
-- table, and the sizes that come of them. `p_pamax` is a parameter. A shift by 64 or more and a place past the end of
-- `OUTPUT_SIZE_MAP`, which C++ leaves undefined, end the run.
pub mod Fits
pub mod Stage1
use Prim.Native.Nat.{bit_or}
use qbox.Base.{
  ℕ, zero, suc, ◌+◌, ◌-◌, ◌*◌, ◌/◌, ◌%◌, ◌^◌, Bool, true, false, not, ◌&&◌, ◌||◌, List, [], ◌∷◌,
  Option, none, some, get_elem?, ltb, leb, ◌==◌, if◌then◌else◌,
}
use qbox.Base.Outcomes.{Outcome, done, fatal, no_fuel}
use qbox.Smmu.{
  AccessFlags, ro, wo, rw, and_not, is_ro, is_wo, bit, extract64, sub32, aligned, pa_bits, Ste,
  PtwCtx, TransReq, Dma, new_req, fail, check_out_addr, stage2_ctx, evt_f_walk_eabt,
  evt_f_translation, evt_f_addr_size, evt_f_access, evt_f_permission,
}

-- The table, the size code and the granule code of the half of the address space in use.
pub record Half : Type 0 where
  pub ttbr : ℕ
  pub tsz : ℕ
  pub tg : ℕ
  pub epd : Bool

-- The granule of the second half has a code of its own; 0xff is none.
abbrev pub upper_tg : ℕ → ℕ
upper_tg n = if n == 1 then 2 else if n == 2 then 0 else if n == 3 then 1 else 0xff

abbrev pub lower_half : PtwCtx → Half
lower_half c = record { ttbr = c.ttb.0; tsz = c.tsz.0; tg = c.tg.0; epd = c.epd.0 }

abbrev pub upper_half : PtwCtx → Half
upper_half c = record { ttbr = c.ttb.1; tsz = c.tsz.1; tg = upper_tg c.tg.1; epd = c.epd.1 }

unfoldable pub select_half : PtwCtx → Half
select_half c = if (c.stage == 1) && bit 63 c.iova then upper_half c else lower_half c

-- The size of a page as a power of two, the level to start from if the input is small, and the
-- first level that may hold a block.
pub record Grain : Type 0 where
  pub grainsize : ℕ
  pub level : ℕ
  pub firstblocklevel : ℕ

unfoldable pub granule : ℕ → Option Grain
granule tg =
    if tg == 1
    then some (record { grainsize = 16; level = 3; firstblocklevel = 2 })
    else if tg == 2
    then some (record { grainsize = 14; level = 3; firstblocklevel = 2 })
    else if tg == 0
    then some (record { grainsize = 12; level = 2; firstblocklevel = 1 })
    else none

-- `OUTPUT_SIZE_MAP`, and the lesser of its entry and `p_pamax`
abbrev pub output_sizes : List ℕ
output_sizes = 32 ∷ 36 ∷ 40 ∷ 42 ∷ 44 ∷ 48 ∷ 48 ∷ 48 ∷ []

abbrev pub capped : ℕ → ℕ → ℕ
capped pamax size = if ltb pamax size then pamax else size

-- What the checks before the loop settle: the sizes of the walk and the first table.
pub record Plan : Type 0 where
  pub outputsize : ℕ
  pub grainsize : ℕ
  pub firstblocklevel : ℕ
  pub level : ℕ
  pub ttbr : ℕ

-- `grainsize - STRIDE_OFFSET`
abbrev pub stride : ℕ → ℕ
stride grainsize = grainsize - 3

pub data Setup : Type 0 where
  refused : ℕ → Setup
  undefined : Setup
  planned : Plan → Setup

-- The start level of stage 1 by the width of the input.
unfoldable pub first_level : Grain → ℕ → ℕ
first_level g inputsize =
    let n = g.grainsize in
    if ltb n 16 && ltb (n + 3 * stride n) inputsize
    then 0
    else if ltb (n + 2 * stride n) inputsize
    then 1
    else if ltb (n + stride n) inputsize
    then 2
    else g.level

-- The start level of stage 2 by `sl0`; a negative one is `none`.
abbrev pub minus : ℕ → ℕ → Option ℕ
minus a b = if ltb a b then none else some (a - b)

unfoldable pub start_level : Grain → ℕ → Option ℕ
start_level g sl0 = minus (if g.grainsize == 12 then 2 else 3) sl0

unfoldable pub check_s2_startlevel : ℕ → ℕ → ℕ → Bool
check_s2_startlevel pamax level stride =
    if stride == 13
    then not ((level == 0) || (level == 1) && leb pamax 42)
    else if stride == 11
    then not ((level == 0) || (level == 1) && leb pamax 40)
    else if stride == 9
    then not ((level == 0) && leb pamax 42)
    else false

-- `level_coverage`, `concat_bits`, `baselowerbound`, and the table in use among concatenated ones
abbrev pub coverage : ℕ → ℕ → ℕ
coverage n level = n + (3 - level + 1) * stride n

unfoldable pub concat_bits : ℕ → ℕ → ℕ → ℕ → ℕ
concat_bits stage n level inputsize =
    if (stage == 2) && ltb (coverage n level) inputsize then inputsize - coverage n level else 0

abbrev pub lower_bound : ℕ → ℕ → ℕ → ℕ
lower_bound n level inputsize = sub32 (3 + inputsize) ((3 - level) * stride n + n)

unfoldable pub first_table : ℕ → ℕ → ℕ → ℕ → ℕ → ℕ → ℕ
first_table n level bound concat iova ttbr =
    let t = aligned bound (ttbr % 2 ^ pa_bits) in
    if ltb 0 concat
    then bit_or t (extract64 iova (coverage n level) concat * 2 ^ (n + stride n))
    else t

-- The base of the first table.
unfoldable pub base : PtwCtx → ℕ → Grain → ℕ → ℕ → ℕ → Setup
base c o g inputsize ttbr level =
    let n = g.grainsize in
    let concat = concat_bits c.stage n level inputsize in
    let bound = lower_bound n level inputsize in
    let t = first_table n level bound concat c.iova ttbr in
    let b = g.firstblocklevel in
    let plan : Plan = record {
      outputsize = o;
      grainsize = n;
      firstblocklevel = b;
      level = level;
      ttbr = t;
    } in
    if ltb 4 concat
    then refused evt_f_addr_size
    else if ltb 63 bound
    then undefined
    else if check_out_addr t o
    then planned plan
    else refused evt_f_addr_size

-- The checks of the input size, and the start level.
unfoldable pub sized1 : PtwCtx → ℕ → Grain → ℕ → ℕ → Setup
sized1 c o g inputsize ttbr =
    if ltb inputsize 25
      || ltb 48 inputsize
      || not (extract64 c.iova inputsize (64 - inputsize) == 0)
    then refused evt_f_addr_size
    else base c o g inputsize ttbr (first_level g inputsize)

unfoldable pub sized2 : PtwCtx → ℕ → Grain → ℕ → ℕ → Option ℕ → Setup
sized2 c o g inputsize ttbr none = refused evt_f_addr_size
sized2 c o g inputsize ttbr (some level) =
    if check_s2_startlevel o level (stride g.grainsize)
    then base c o g inputsize ttbr level
    else refused evt_f_addr_size

unfoldable pub with_output : ℕ → PtwCtx → Half → Grain → Option ℕ → Setup
with_output pamax c h g none = undefined
with_output pamax c h g (some size) =
    let o = capped pamax size in
    let inputsize = sub32 64 h.tsz in
    if c.stage == 1
    then sized1 c o g inputsize h.ttbr
    else sized2 c o g inputsize h.ttbr (start_level g c.sl0)

unfoldable pub with_grain : ℕ → PtwCtx → Half → Option Grain → Setup
with_grain pamax c h none = refused evt_f_addr_size
with_grain pamax c h (some g) = with_output pamax c h g (get_elem? output_sizes c.ips)

unfoldable pub setup : ℕ → PtwCtx → Setup
setup pamax c =
    let h = select_half c in
    if h.epd then refused evt_f_translation else with_grain pamax c h (granule h.tg)
