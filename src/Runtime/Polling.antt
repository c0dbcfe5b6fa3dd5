-- ===== src/Runtime/Polling.antt =====
-- src/rtmem.cpp: the manual clock and polling.
use programmable_retention_t.Prelude.{
  ℕ, ◌+◌, ◌-◌, none, some, ltb, if◌then◌else◌, infinite, add64, lookup, Entries, List, [], ◌∷◌,
}
use programmable_retention_t.Runtime.Types.{
  Status, success, invalid_argument, unsupported, manual, monotonic, Runtime, Region, Backend,
  TraceSink, set_error, now_locked,
}
use programmable_retention_t.Runtime.Maintenance.{succeeded, maintain_locked}

abbrev pub first_status : Status → Status → Status
first_status first status = if succeeded first then status else first

module _ {B A W : Type 0} ⦃be : Backend B A⦄ ⦃tr : TraceSink W⦄ where
  unfoldable pub rt_runtime_advance : Runtime B A W → ℕ → Runtime B A W × Status
  rt_runtime_advance rt ticks = elim rt.options.clock_mode [
    | monotonic ↦ set_error rt unsupported "manual advance requires RT_CLOCK_MANUAL"
    | manual ↦
        if ltb (infinite - ticks) rt.manual_tick
        then set_error rt invalid_argument "manual clock overflow"
        else (record rt { manual_tick = rt.manual_tick + ticks }, success)
  ]

  -- The loop over the buffers of a region.
  unfoldable pub poll_buffers : Runtime B A W → List ℕ → ℕ → Status → Runtime B A W × Status
  unfolding maintain_locked
  poll_buffers rt [] now first = (rt, first)
  poll_buffers rt (h ∷ hs) now first = elim (lookup h rt.heap) [
    | none ↦ poll_buffers rt hs now first
    | some b ↦
        let (rt', status) = maintain_locked rt h b now in
        poll_buffers rt' hs now (first_status first status)
  ]

  -- The loop over the regions; maintenance neither adds nor removes one.
  unfoldable pub poll_regions : Runtime B A W → Entries Region → ℕ → Status → Runtime B A W × Status
  unfolding poll_buffers
  poll_regions rt [] now first = (rt, first)
  poll_regions rt ((key, r) ∷ rest) now first =
      let (rt', first') =
        if r.is_active then poll_buffers rt r.buffers now first else (rt, first) in
      poll_regions rt' rest now first'

  unfoldable pub rt_runtime_poll : Runtime B A W → Runtime B A W × Status
  unfolding poll_regions now_locked
  rt_runtime_poll rt =
      let counted = record rt {
        stats = record rt.stats { poll_calls = add64 rt.stats.poll_calls 1 };
      } in
      poll_regions counted rt.regions (now_locked rt) success
