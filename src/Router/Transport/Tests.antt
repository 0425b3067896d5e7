-- ===== src/Router/Transport/Tests.antt =====
-- The theorems on transactions and DMI, with targets that answer and grant everything.
use qbox.Base.{ℕ, ◌≤◌, ◌≡◌, refl, true, false, [], ◌∷◌, none, some, arith}
use qbox.Base.OrdMap.{lookup, assign, upper_bound, emplace, erase, set_insert}
use qbox.Tlm.{read, ok, incomplete, read_write_allowed, Dmi, Payload}
use qbox.Router.AddressMap.{
  find_region, overlapping, erase_all, intervals, insert_boundaries, best_target, add_segment,
  add_segments, process, split_and_resolve, add,
}
use qbox.Router.AddressMap.Winner.{add_targets}
use qbox.Base.Intervals.{locate}
use qbox.Router.AddressMap.Segments.{owner}
use qbox.Router.Dmi.{record_dmi, make_way, in_dmi_cache}
use qbox.Router.Dmi.Invalidate
use qbox.Router.Transport.{
  Router, Targets, Reply, get_direct_mem_ptr, direct_to, respond, pass_on, recorded, clamp,
  to_global,
}
use qbox.Router.Transport.Grant.{IsOwned, get_direct_mem_ptr-IsOwned}
use qbox.Router.Samples.{ram, built, built-IsValid}

abbrev host : Dmi
host = record { ptr = 4096; start_address = 0; end_address = 65535; access = read_write_allowed }

abbrev devices : Targets
devices = record {
  transport = λ i p. record p { response = ok };
  debug = λ i p. (p.data_length, p);
  direct = λ i p d. (true, host, p);
}

abbrev fetch : ℕ → Payload
fetch a = record {
  command = read;
  address = a;
  bytes = [];
  data_length = 4;
  byte_enable = none;
  streaming_width = 4;
  dmi_allowed = false;
  response = incomplete;
  path = some (3 ∷ []);
  exclusive = none;
  underlying = none;
}

abbrev router : Router
router = record { regions = built; dmi_info = []; pool = [] ∷ [] }

nobody : owner 65536 built ≡ none
unfolding owner locate add_targets add split_and_resolve overlapping erase_all intervals
    insert_boundaries process add_segments add_segment best_target emplace erase set_insert
nobody = refl

abbrev clipped : Dmi
clipped = record {
  ptr = 8448;
  start_address = 4352;
  end_address = 65535;
  access = read_write_allowed;
}

abbrev reply : Reply
reply = record {
  granted = true;
  dmi = clipped;
  payload = fetch 8192;
  router = record router { dmi_info = (4352, record { initiators = 7 ∷ []; dmi = clipped }) ∷ [] };
  calls = [];
}

replied : get_direct_mem_ptr devices router 7 (fetch 8192) host ≡ some reply
unfolding get_direct_mem_ptr direct_to respond pass_on recorded clamp to_global find_region
    upper_bound record_dmi make_way in_dmi_cache lookup assign locate add_targets add
    split_and_resolve overlapping erase_all intervals insert_boundaries process add_segments
    add_segment best_target emplace erase set_insert
replied = refl

get_direct_mem_ptr-IsOwned_example : IsOwned router 8192 reply.dmi
get_direct_mem_ptr-IsOwned_example =
    get_direct_mem_ptr-IsOwned devices router 7 (fetch 8192) host reply built-IsValid replied refl

no_grants : Invalidate.IsValid (router).dmi_info
no_grants = record { chain = tt; keys = tt }

as_asked : to_global ram host ≡ some host
unfolding to_global
as_asked = refl

not_empty :
    (clamp (record { first = 4352; last = 65535 }) host).start_address
    ≤ (clamp (record { first = 4352; last = 65535 }) host).end_address
unfolding clamp
not_empty = omega arith
