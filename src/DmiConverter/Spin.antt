-- ===== src/DmiConverter/Spin.antt =====
-- A transaction of the DMI converter that never ends.
use qbox.Base.{ℕ, zero, suc, ◌<◌, ◌≡◌, ap, ◌∙◌, true, false, none, some, arith, ◌==◌, if◌then◌else◌}
use qbox.Base.Outcomes.{done, no_fuel}
use qbox.Base.OrdMap.{Map, assign}
use qbox.Tlm.{Dmi, Payload}
use qbox.Memory.{Bytes}
use qbox.Memory.Transport.Whole.{list_of-bytes_of}
use qbox.DmiConverter.{
  Port, in_cache, is_granted, continue, use_block, sent, asked, answered, cached_turn, turn,
  after_turn, turns, start, started, returned, b_transport,
}

module _ (t : Port) (p : Payload) (cache : Map Dmi) (host : Bytes) (d d' : Dmi) where
  spin_turn :
      in_cache p.address cache ≡ some d
      → is_granted d p.command ≡ false
      → t.get_direct_mem_ptr p host ≡ (true, d', p, host)
      → is_granted d' p.command ≡ true
      → assign d'.start_address d' cache ≡ cache
      → turn t (start p cache host) ≡ continue (start p cache host)
  spin_turn e f g h k =
      let s = start p cache host in
      ap (cached_turn t s) e
      ∙ ap
          (λ z.
            if z then use_block p.command d s else asked t s (t.get_direct_mem_ptr (sent s) host))
          f
      ∙ ap (λ z. asked t s (t.get_direct_mem_ptr (record p { bytes = z }) host))
          (list_of-bytes_of p.bytes)
      ∙ ap (asked t s) g
      ∙ ap
          (λ z.
            if z
            then continue (record s { cache = assign d'.start_address d' cache })
            else answered s (t.b_transport p host))
          h
      ∙ ap (λ z. continue (start p z host)) k

  spins :
      (fuel : ℕ)
      → 0 < p.data_length
      → turn t (start p cache host) ≡ continue (start p cache host)
      → turns t fuel (start p cache host) ≡ no_fuel
  unfolding turns
  spins zero h e =
      let left : (p.data_length == 0) ≡ false = ground (arith, h) in
      ap (λ z. if z then done (start p cache host) else no_fuel) left
  spins (suc fuel) h e =
      let left : (p.data_length == 0) ≡ false = ground (arith, h) in
      ap
        (λ z.
          if z
          then done (start p cache host)
          else after_turn (turns t fuel) (turn t (start p cache host)))
        left
      ∙ ap (after_turn (turns t fuel)) e
      ∙ spins fuel h e

  -- Where the grant that the cache finds for an address does not allow the command, and the target
  -- grants it by one that the cache has too, under another start, a transaction without byte
  -- enables runs out of any fuel.
  pub b_transport-spins :
      (fuel : ℕ)
      → in_cache p.address cache ≡ some d
      → is_granted d p.command ≡ false
      → t.get_direct_mem_ptr p host ≡ (true, d', p, host)
      → is_granted d' p.command ≡ true
      → assign d'.start_address d' cache ≡ cache
      → 0 < p.data_length
      → p.byte_enable ≡ none
      → b_transport t fuel p cache host ≡ no_fuel
  unfolding b_transport
  b_transport-spins fuel e f g h k l n =
      ap (λ z. returned (started t fuel (start p cache host) z)) n
      ∙ ap returned (spins fuel l (spin_turn e f g h k))
