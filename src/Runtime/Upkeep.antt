-- ===== src/Runtime/Upkeep.antt =====
-- src/rtmem.cpp: what polling does with a buffer that is near its deadline.
use programmable_retention_t.Prelude.{
  ℕ, ◌+◌, ◌≤◌, ◌<◌, some, ◌≡◌, ◌≢◌, arith, infinite, lookup, lookup-insert, at,
}
use programmable_retention_t.Runtime.Types.{
  success, Buffer, Runtime, active, expiry_refresh, Backend, TraceSink, deadline_locked,
}
use programmable_retention_t.Runtime.Maintenance.{touched, act_on_expiry, maintain_locked}

module _ {B A W : Type 0} ⦃be : Backend B A⦄ ⦃tr : TraceSink W⦄ where
  -- The maintenance at a tick below the largest machine word, before its finite deadline and within the
  -- guard time, of an active unmapped buffer that refreshes on expiry, in a class with a positive
  -- retention, succeeds and records a write of the buffer at that tick, so that its new deadline is
  -- ahead of that tick.
  pub maintain_locked-refreshes :
      (rt : Runtime B A W) (h : ℕ) (b : Buffer A) (now : ℕ)
      → b.state ≡ active
      → b.map_count ≡ 0
      → b.on_expiry ≡ expiry_refresh
      → now < deadline_locked rt b
      → deadline_locked rt b ≢ infinite
      → deadline_locked rt b ≤ now + rt.options.poll_guard_ticks
      → now < infinite
      → 0 < at b.retention_class rt.options.class_retention_ticks
      → ((maintain_locked rt h b now).1 ≡ success)
        × (lookup h (maintain_locked rt h b now).0.heap ≡ some (touched b now))
        × (now < deadline_locked (maintain_locked rt h b now).0 (touched b now))
  unfolding maintain_locked act_on_expiry deadline_locked
  maintain_locked-refreshes rt h b now live free refreshes ahead finite near word positive =
      ground (arith, lookup-insert h h (touched b now) rt.heap)
