-- ===== src/Smmu/Translate.antt =====
-- `smmuv3_translate` of systemc-components/smmuv3/include/smmuv3.h: from the stream to the cache of
-- translations and the walks. The tables of streams and contexts and the queue of events are an
-- interface.
pub mod Again
use qbox.Base.{
  ℕ, ◌-◌, ◌%◌, ◌^◌, Bool, true, false, not, ◌&&◌, ◌||◌, Option, none, some, ltb, leb, ◌==◌,
  if◌then◌else◌,
}
use qbox.Base.Outcomes.{Outcome, done, fatal, no_fuel}
use qbox.Smmu.{
  AccessFlags, no_access, ro, wo, rw, Ste, Cd, PtwCtx, TransReq, Dma, new_req, stage2_ctx, aligned,
  evt_c_bad_ste, evt_f_translation, evt_f_addr_size, evt_f_access, evt_f_permission,
}
use qbox.Smmu.Tlb.{TlbEntry, TlbKey, Tlb, iotlb_insert, iotlb_lookup}
use qbox.Smmu.Walk.{Answer, smmuv3_ptw64}
use qbox.Smmu.Request.{
  Event, Streams, Config, Request, evt_f_ste_fetch, evt_c_bad_substreamid, evt_f_cd_fetch,
  compute_iotlb_regime, identity, bypass, access_of, key_of, stage1_ctx, stallable,
}

module _ {M : Type 0} (dma : Dma M) (streams : Streams M) (c : Config) (q : Request) where
  abbrev pub Result : Type 0
  Result = Outcome (TlbEntry × Tlb × M)

  -- A fault that is recorded, and returned.
  abbrev pub refuse : ℕ → ℕ → Tlb → M → Result
  refuse event event_class t m = done (
    record (identity q) { perm = no_access; fault_type = event },
    t,
    streams.record_event
        (record {
          event_type = event;
          sid = q.sid;
          substream_id = q.substream_id;
          iova = q.iova;
          is_write = q.is_write;
          event_class = event_class;
          level = 0;
        })
        m,
  )

  -- The end: a fault of the walk, or an entry, which is put into the cache.
  abbrev pub faulted : Ste → TransReq → Tlb → M → Result
  faulted s r t m =
      let stalls = stallable s r.event_type in
      done (
        record (identity q) {
          perm = no_access;
          fault_type = r.event_type;
          fault_level = r.fault_level;
          stallable_fault = stalls;
        },
        t,
        if stalls
            then m
            else streams.record_event
                (record {
                  event_type = r.event_type;
                  sid = q.sid;
                  substream_id = q.substream_id;
                  iova = q.iova;
                  is_write = q.is_write;
                  event_class = if s.config == 6 then 1 else 0;
                  level = r.fault_level;
                })
                m,
      )

  abbrev pub entry_of : TransReq → TlbEntry
  entry_of r = record (identity q) {
    translated_addr = r.pa;
    perm = r.prot;
    addr_mask = 2 ^ r.page_size - 1;
    descriptor = r.descriptor;
    table_attrs = r.tableattrs;
  }

  abbrev pub kept : TlbEntry → M → Outcome Tlb → Result
  kept e m (done t) = done (e, t, m)
  kept e m fatal = fatal
  kept e m no_fuel = no_fuel

  abbrev pub concluded : Ste → ℕ → ℕ → Tlb → Answer M → Result
  concluded s asid tg t (done (b, r, m)) =
      if r.err
      then faulted s r t m
      else kept (entry_of r) m (
          iotlb_insert c.p_iotlb_size (key_of c q s asid tg (aligned r.page_size q.iova))
            (entry_of r) t)
  concluded s asid tg t fatal = fatal
  concluded s asid tg t no_fuel = no_fuel

  -- The walks of the three modes, two calls deep at most.
  abbrev pub ptw : PtwCtx → TransReq → M → Answer M
  ptw = smmuv3_ptw64 dma c.p_pamax 2

  abbrev pub nested_walk : Ste → Answer M → Answer M
  nested_walk s (done (b, r, m)) =
      if r.err then done (b, r, m) else ptw (stage2_ctx s r.pa (access_of q)) r m
  nested_walk s fatal = fatal
  nested_walk s no_fuel = no_fuel

  -- The cache, and the walk on a miss.
  abbrev pub looked_up : Ste → ℕ → ℕ → Tlb → M → Answer M → Option TlbEntry → Result
  looked_up s asid tg t m walked (some e) = done (e, t, m)
  looked_up s asid tg t m walked none = concluded s asid tg t walked

  abbrev pub lookup : Ste → ℕ → ℕ → Tlb → M → Answer M → Result
  lookup s asid tg t m walked =
      looked_up s asid tg t m walked (iotlb_lookup (key_of c q s asid tg (aligned 12 q.iova)) t)

  abbrev pub request : TransReq
  request = new_req q.iova (access_of q)

  abbrev pub by_context : Ste → Tlb → (Option Cd × M) → Result
  by_context s t (none, m) = refuse evt_f_cd_fetch 2 t m
  by_context s t (some cd, m) = lookup s cd.asid cd.tg.0 t m (
      if s.config == 7
      then nested_walk s (ptw (stage1_ctx cd q.iova (access_of q) (some s)) request m)
      else ptw (stage1_ctx cd q.iova (access_of q) none) request m)

  unfoldable pub by_config : Ste → Tlb → M → Result
  by_config s t m =
      if s.config == 0
      then refuse evt_c_bad_ste 0 t m
      else if s.config == 4
      then done (bypass q, t, m)
      else if (s.config == 5) || (s.config == 7)
      then by_context s t (streams.read_cd q.sid s q.substream_id m)
      else if s.config == 6
      then lookup s 0 s.s2tg t m (ptw (stage2_ctx s q.iova (access_of q)) request m)
      else refuse evt_c_bad_ste 0 t m

  abbrev pub by_stream : Tlb → Option Ste × M → Result
  by_stream t (none, m) = if c.abort then refuse evt_f_ste_fetch 0 t m else done (bypass q, t, m)
  by_stream t (some s, m) =
      if ltb 0 s.s1cdmax && leb (2 ^ s.s1cdmax) q.substream_id
      then refuse evt_c_bad_substreamid 0 t m
      else by_config s t m

  unfoldable pub smmuv3_translate : Tlb → M → Result
  smmuv3_translate t m =
      if c.smmuen then by_stream t (streams.find_ste q.sid m) else done (bypass q, t, m)
