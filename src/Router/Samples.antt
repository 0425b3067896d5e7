-- ===== src/Router/Samples.antt =====
-- A small platform for the tests: a RAM of 64 KiB, and a UART that lies over a part of it with a
-- lower priority number.
use qbox.Base.{ℕ, ◌≡◌, refl, true, false, List, [], ◌∷◌, some}
use qbox.Base.OrdMap.{Map, emplace, erase, set_insert}
use qbox.Base.Intervals.{locate}
use qbox.Router.Target.{Target}
use qbox.Router.AddressMap.{
  Region, overlapping, erase_all, intervals, insert_boundaries, best_target, add_segment,
  add_segments, process, split_and_resolve, add,
}
use qbox.Router.AddressMap.Segments.{owner}
use qbox.Router.AddressMap.Resolve.{IsValid}
use qbox.Router.AddressMap.Winner.{add_targets, add_targets-best}

abbrev pub device : ℕ → ℕ → ℕ → ℕ → Target
device index address size priority = record {
  ref = index;
  index = index;
  name = "device";
  address = address;
  size = size;
  priority = priority;
  use_offset = true;
  is_callback = false;
  chained = false;
  shortname = "device";
  stride = 0;
  elem_size = 0;
  dims = [];
}

abbrev pub ram : Target
ram = device 0 0 65536 1

abbrev pub uart : Target
uart = device 1 4096 256 0

-- Its end wraps around to 0.
abbrev pub top : Target
top = device 2 18446744073709547520 4096 0

abbrev pub platform : List Target
platform = ram ∷ uart ∷ []

abbrev pub built : Map Region
built = add_targets platform []

pub built-IsValid : IsValid built
built-IsValid = (add_targets-best platform 0).0

pub uart-owner : owner 4112 built ≡ some uart
unfolding owner locate add_targets add split_and_resolve overlapping erase_all intervals
    insert_boundaries process add_segments add_segment best_target emplace erase set_insert
uart-owner = refl

pub ram-owner : owner 8192 built ≡ some ram
unfolding owner locate add_targets add split_and_resolve overlapping erase_all intervals
    insert_boundaries process add_segments add_segment best_target emplace erase set_insert
ram-owner = refl
