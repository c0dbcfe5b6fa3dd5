-- ===== src/Runtime/Expiry.antt =====
-- src/rtmem.cpp: the manual clock.
use programmable_retention_t.Prelude.{ℕ, ◌+◌, ◌≤◌, true, false, ◌≡◌, ◌↔◌, arith, infinite}
use programmable_retention_t.Runtime.Types.{Runtime, Backend, TraceSink, manual}
use programmable_retention_t.Runtime.Maintenance.{succeeded}
use programmable_retention_t.Runtime.Polling.{rt_runtime_advance}

module _ {B A W : Type 0} ⦃be : Backend B A⦄ ⦃tr : TraceSink W⦄ where
  -- Advancing a manual clock by a machine word succeeds exactly when the sum is a machine word; it then
  -- moves the clock by exactly the given number of ticks, and otherwise leaves it where it was.
  pub rt_runtime_advance-exact :
      (rt : Runtime B A W) (ticks : ℕ)
      → rt.options.clock_mode ≡ manual
      → ticks ≤ infinite
      → ((succeeded (rt_runtime_advance rt ticks).1 ≡ true) ↔ (rt.manual_tick + ticks ≤ infinite))
        × (succeeded (rt_runtime_advance rt ticks).1 ≡ true
            → (rt_runtime_advance rt ticks).0.manual_tick ≡ rt.manual_tick + ticks)
        × (succeeded (rt_runtime_advance rt ticks).1 ≡ false
            → (rt_runtime_advance rt ticks).0.manual_tick ≡ rt.manual_tick)
  unfolding rt_runtime_advance
  rt_runtime_advance-exact rt ticks mode word = ground arith
