-- ===== src/Runtime/Deadlines.antt =====
-- src/rtmem.cpp: a buffer that was written, some ticks of the manual clock later.
use programmable_retention_t.Prelude.{
  ℕ, ◌+◌, ◌-◌, ◌≤◌, ◌<◌, ◌⊎◌, true, false, some, ◌≡◌, refl, arith, inl, inr, infinite, lookup,
  lookup-insert, at, ltb, Bool-cases,
}
use programmable_retention_t.Prelude.Exceptions.{returned}
use programmable_retention_t.Runtime.Types.{
  success, expired, Buffer, Runtime, active, expired_state, Backend, TraceSink, now_locked,
  deadline_locked, manual,
}
use programmable_retention_t.Runtime.Storage.{
  set_buffer, region_active, released_buffer, release_storage_locked, validate_active_locked,
}
use programmable_retention_t.Runtime.Maintenance.{touched, maintain_locked}
use programmable_retention_t.Runtime.Buffers.{
  rt_buffer_mark_written, mark_written_locked, mark_written_active,
}
use programmable_retention_t.Runtime.Polling.{rt_runtime_advance}

module _ {B A W : Type 0} ⦃be : Backend B A⦄ ⦃tr : TraceSink W⦄ where
  -- The retention of the buffer's class.
  abbrev pub retention_of : Runtime B A W → Buffer A → ℕ
  retention_of rt b = at b.retention_class rt.options.class_retention_ticks

  -- The runtime with the buffer written at the manual clock's tick, and the clock moved on.
  abbrev pub written_and_later : Runtime B A W → ℕ → Buffer A → ℕ → Runtime B A W
  written_and_later rt h b ticks = record (set_buffer rt h (touched b rt.manual_tick)) {
    manual_tick = rt.manual_tick + ticks;
  }

  -- What the success of `rt_buffer_mark_written` says.
  record HasEffect (rt written : Runtime B A W) (h : ℕ) (b : Buffer A) : Type 0 where
    result : written ≡ set_buffer rt h (touched b rt.manual_tick)
    live : b.state ≡ active
    on : region_active rt b.region ≡ true

  mark_written-HasEffect :
      (rt written : Runtime B A W) (h : ℕ) (b : Buffer A)
      → rt.options.clock_mode ≡ manual
      → lookup h rt.heap ≡ some b
      → rt_buffer_mark_written rt (some h) ≡ returned (written, success)
      → HasEffect rt written h b
  unfolding rt_buffer_mark_written mark_written_locked mark_written_active validate_active_locked
      now_locked
  mark_written-HasEffect rt written h b mode found run = record {
    result = ground arith;
    live = ground arith;
    on = ground arith;
  }

  advance_later :
      (rt : Runtime B A W) (ticks : ℕ)
      → rt.options.clock_mode ≡ manual
      → rt.manual_tick + ticks ≤ infinite
      → (rt_runtime_advance rt ticks).0 ≡ record rt { manual_tick = rt.manual_tick + ticks }
  unfolding rt_runtime_advance
  advance_later rt ticks mode small =
      let fits : ltb (infinite - ticks) rt.manual_tick ≡ false = ground arith in
      rw (mode, fits) refl

  -- The state that the theorems are about.
  reached :
      (rt written : Runtime B A W) (h : ℕ) (b : Buffer A) (ticks : ℕ)
      → rt.options.clock_mode ≡ manual
      → rt.manual_tick + ticks < infinite
      → HasEffect rt written h b
      → (rt_runtime_advance written ticks).0 ≡ written_and_later rt h b ticks
  reached rt written h b ticks mode small w =
      rw w.result (
        advance_later (set_buffer rt h (touched b rt.manual_tick)) ticks mode
          (omega (arith, small)))

  -- A second write, in time or too late.
  abbrev pub WritesAgain : Runtime B A W → ℕ → Type 0
  WritesAgain later h =
      (again : Runtime B A W) × (rt_buffer_mark_written later (some h) ≡ returned (again, success))

  abbrev pub FindsExpired : Runtime B A W → ℕ → Buffer A → Type 0
  FindsExpired later h b =
      (gone : Runtime B A W) × (rt_buffer_mark_written later (some h) ≡ returned (gone, expired))
      × (lookup h gone.heap ≡ some (released_buffer b expired_state))

  found_later :
      (rt : Runtime B A W) (h : ℕ) (b : Buffer A) (ticks : ℕ)
      → lookup h (written_and_later rt h b ticks).heap ≡ some (touched b rt.manual_tick)
  found_later rt h b ticks = ground (arith, lookup-insert h h (touched b rt.manual_tick) rt.heap)

  module _ (rt : Runtime B A W) (h : ℕ) (b : Buffer A) (ticks : ℕ)
      (mode : rt.options.clock_mode ≡ manual) (small : rt.manual_tick + ticks < infinite)
      (live : b.state ≡ active) where
    passes :
        region_active rt b.region ≡ true
        → ticks < retention_of rt b
        → validate_active_locked (written_and_later rt h b ticks) h (touched b rt.manual_tick)
          ≡ (written_and_later rt h b ticks, success)
    unfolding validate_active_locked now_locked deadline_locked
    passes on early = ground arith

    fails :
        region_active rt b.region ≡ true
        → retention_of rt b ≤ ticks
        → ((validate_active_locked (written_and_later rt h b ticks) h (touched b rt.manual_tick)).1
            ≡ expired)
          × (lookup h
                (validate_active_locked
                  (written_and_later rt h b ticks)
                  h
                  (touched b rt.manual_tick)).0.heap
              ≡ some (released_buffer (touched b rt.manual_tick) expired_state))
    unfolding validate_active_locked now_locked deadline_locked release_storage_locked
    fails on late = ground (
      arith,
      lookup-insert h h (released_buffer (touched b rt.manual_tick) expired_state)
          (written_and_later rt h b ticks).heap,
    )

  mark_written_passes :
      (rt : Runtime B A W) (h : ℕ) (b : Buffer A)
      → lookup h rt.heap ≡ some b
      → validate_active_locked rt h b ≡ (rt, success)
      → rt_buffer_mark_written rt (some h)
        ≡ returned (set_buffer rt h (touched b (now_locked rt)), success)
  unfolding rt_buffer_mark_written mark_written_locked mark_written_active
  mark_written_passes rt h b found passed = ground arith

  locked_fails :
      (rt : Runtime B A W) (h : ℕ) (b : Buffer A)
      → (validate_active_locked rt h b).1 ≡ expired
      → mark_written_locked rt h b ≡ ((validate_active_locked rt h b).0, expired)
  unfolding mark_written_locked
  locked_fails rt h b failed = ground arith

  mark_written_fails :
      (rt : Runtime B A W) (h : ℕ) (b : Buffer A)
      → lookup h rt.heap ≡ some b
      → (validate_active_locked rt h b).1 ≡ expired
      → rt_buffer_mark_written rt (some h) ≡ returned ((validate_active_locked rt h b).0, expired)
  unfolding rt_buffer_mark_written
  mark_written_fails rt h b found failed = ground (arith, locked_fails rt h b failed)

  -- A buffer was written under a manual clock, and the clock was advanced by `ticks` to a tick below
  -- the largest machine word. If `ticks` is below the retention of the buffer's class, the next
  -- write of it succeeds. Otherwise the write says that the buffer expired, and leaves it expired,
  -- without storage and unmapped.
  pub mark_written-advance-mark_written :
      (rt written : Runtime B A W) (h : ℕ) (b : Buffer A) (ticks : ℕ)
      → rt.options.clock_mode ≡ manual
      → lookup h rt.heap ≡ some b
      → rt_buffer_mark_written rt (some h) ≡ returned (written, success)
      → rt.manual_tick + ticks < infinite
      → ((ticks < retention_of rt b) × WritesAgain (rt_runtime_advance written ticks).0 h)
        ⊎ ((retention_of rt b ≤ ticks)
            × FindsExpired (rt_runtime_advance written ticks).0 h (touched b rt.manual_tick))
  mark_written-advance-mark_written rt written h b ticks mode found run small =
      let w = mark_written-HasEffect rt written h b mode found run in
      let later = written_and_later rt h b ticks in
      let b' = touched b rt.manual_tick in
      let there = found_later rt h b ticks in
      rw (reached rt written h b ticks mode small w)
        (elim (Bool-cases (ltb ticks (retention_of rt b))) [
          | inl early ↦
              let passed = passes rt h b ticks mode small w.live w.on (ground arith) in
              inl (
                ground arith,
                (
                  set_buffer later h (touched b' (now_locked later)),
                  mark_written_passes later h b' there passed,
                ),
              )
          | inr late ↦
              let (failed, gone) = fails rt h b ticks mode small w.live w.on (ground arith) in
              inr (
                ground arith,
                (
                  (validate_active_locked later h b').0,
                  mark_written_fails later h b' there failed,
                  gone,
                ),
              )
        ])

  -- The three answers of the maintenance of a buffer.
  abbrev pub IsDropped : Runtime B A W → ℕ → Buffer A → ℕ → Type 0
  IsDropped rt h b now =
      ((maintain_locked rt h b now).1 ≡ expired)
      × (lookup h (maintain_locked rt h b now).0.heap ≡ some (released_buffer b expired_state))
