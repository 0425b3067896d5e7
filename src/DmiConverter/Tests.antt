-- ===== src/DmiConverter/Tests.antt =====
-- A target of 16-byte blocks at twice their address in the host's memory.
use qbox.Base.{ℕ, ◌+◌, ◌*◌, ◌/◌, ◌≡◌, refl, ap, true, false, [], ◌∷◌, none, arith}
use qbox.Base.Outcomes.{done, no_fuel}
use qbox.Base.OrdMap.{Map, assign, upper_bound}
use qbox.Base.Intervals.{Free}
use qbox.Base.Intervals.Sweep.{outside}
use qbox.Tlm.{read, write, ok, incomplete, read_allowed, read_write_allowed, Dmi, Payload}
use qbox.Memory.{Bytes}
use qbox.Memory.Transport.{list_of}
use qbox.DmiConverter.{Port, in_cache, cache_clean, b_transport}
use qbox.DmiConverter.Cache.{stop, IsDivision, IsCache, cache_clean-outside}
use qbox.DmiConverter.Read.{Lends, view}
use qbox.DmiConverter.Read.Loop.{b_transport-views}
use qbox.DmiConverter.Spin.{b_transport-spins}

abbrev region : ℕ → Dmi
region a = record {
  ptr = 32 * (a / 16);
  start_address = 16 * (a / 16);
  end_address = 16 * (a / 16) + 15;
  access = read_write_allowed;
}

abbrev target : Port
target = record {
  get_direct_mem_ptr = λ p host. (true, region p.address, p, host);
  b_transport = λ p host. (p, host);
}

region-IsDivision : IsDivision region
region-IsDivision = record {
  holds = λ a. (omega arith, omega arith);
  same = λ a x l u.
      let block : x / 16 ≡ a / 16 = omega arith in
      ap
        (λ z. record {
          ptr = 32 * z;
          start_address = 16 * z;
          end_address = 16 * z + 15;
          access = read_write_allowed;
        })
        block;
}

target-Lends : Lends region target
target-Lends = record {
  division = region-IsDivision;
  grants = λ p host. refl;
  readable = λ a. refl;
  bounded = λ a. omega arith;
}

abbrev host : Bytes
host k = k

-- The second block is in the cache.
abbrev cache : Map Dmi
cache = (16, region 16) ∷ []

cache-IsCache : IsCache region cache
cache-IsCache = record {
  chain = (omega arith, omega arith, tt);
  keys = (refl, tt);
  known = (refl, tt);
}

abbrev across : Payload
across = record {
  command = read;
  address = 14;
  bytes = 0 ∷ 0 ∷ 0 ∷ 0 ∷ [];
  data_length = 4;
  byte_enable = none;
  streaming_width = 4;
  dmi_allowed = false;
  response = incomplete;
  path = none;
  exclusive = none;
  underlying = none;
}

across_viewed :
    (cache' : Map Dmi) × (b_transport target 8 across cache host
      ≡ done (
        record across {
          bytes = list_of 4 (λ k. view region host (14 + k));
          dmi_allowed = true;
          response = ok;
        },
        cache',
        host,
      ))
    × IsCache region cache'
across_viewed =
    b_transport-views region target across cache host target-Lends cache-IsCache refl refl refl
      (omega arith) (omega arith)

-- The two bytes of the first block and of the second.
across_bytes : list_of 4 (λ k. view region host (14 + k)) ≡ 14 ∷ 15 ∷ 32 ∷ 33 ∷ []
across_bytes = refl

cleaned :
    (cache_clean 20 24 cache ≡ outside stop 20 24 cache)
    × IsCache region (outside stop 20 24 cache)
    × Free stop 20 25 (outside stop 20 24 cache)
cleaned = cache_clean-outside region region-IsDivision 20 24 cache cache-IsCache

-- A page that was granted for reads only lies within a block that is granted for writes too.
abbrev page : Dmi
page = record { ptr = 256; start_address = 256; end_address = 511; access = read_allowed }

abbrev whole : Dmi
whole = record { ptr = 0; start_address = 0; end_address = 4095; access = read_write_allowed }

abbrev lender : Port
lender = record { get_direct_mem_ptr = λ p h. (true, whole, p, h); b_transport = λ p h. (p, h) }

abbrev poke : Payload
poke = record across { command = write; address = 300 }

poke_spins : b_transport lender 100 poke ((0, whole) ∷ (256, page) ∷ []) host ≡ no_fuel
unfolding in_cache upper_bound assign
poke_spins =
    b_transport-spins lender poke ((0, whole) ∷ (256, page) ∷ []) host page whole 100 refl refl refl
      refl refl (omega arith) refl
