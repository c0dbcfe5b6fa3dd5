-- ===== src/Workload/Clocks.antt =====
-- sim/workload_trace.cpp: `replay_events`: no event takes a stream's ready cycle back.
use programmable_retention_t.Prelude.{
  ℕ, zero, suc, ◌+◌, ◌-◌, ◌≤◌, max, Bool, true, false, not, ◌||◌, List, [], ◌∷◌, ◌≡◌, refl, arith,
  inl, inr, ltb, Bool-cases, Option-cases, Entries, lookup, insert, lookup-insert, add64,
}
use programmable_retention_t.Prelude.Exceptions.{
  returned, WhenReturned, WhenReturned->>=, WhenReturned_known, WhenReturned-if, WhenReturned-mono,
}
use programmable_retention_t.RetentionModel.{Platform, line_bytes}
use programmable_retention_t.EvidenceModel.Types.{EvidenceMemory, EvidenceOperation}
use programmable_retention_t.EvidenceModel.Memory.{read, write}
use programmable_retention_t.Workload.Events.{
  Event, EventKind, allocate_event, free_event, hint_event, access_event, compute_event,
  phase_event, barrier_event,
}
use programmable_retention_t.Workload.Counters.{ReplayPolicy, Allocation, bump, mul64}
use programmable_retention_t.Workload.Ranges.{stream_key, line_range}
use programmable_retention_t.Workload.Oracle.{or_zero}
use programmable_retention_t.Workload.Placement.{Moved}
use programmable_retention_t.Workload.Maintenance.{ensure_retained}
use programmable_retention_t.Workload.Lifecycle.{ReplayState}
use programmable_retention_t.Workload.Access.{
  check_operation, access_line, access_lines, access_allocation, replay_access,
}
use programmable_retention_t.Workload.Replay.{
  set_ready, replay_phase, replay_kind, replay_event, replay_loop,
}
use programmable_retention_t.Workload.Onward.{
  Grows, ReadyBy, Onward, Grows-refl, Grows-trans, Grows-insert, or_zero_least, replay_free-Onward,
  replay_compute-Onward, replay_barrier-Onward, replay_allocation-Onward, replay_hint-Onward,
}

module _ {D G : Type 0} ⦃p : Platform D G⦄ where
  -- No line of an access takes its stream's ready cycle back.
  check_operation-completion :
      (moved : Moved D G) (m : EvidenceMemory D G) (operation : EvidenceOperation)
      → moved.completion ≤ (check_operation moved m operation).completion
  unfolding check_operation
  check_operation-completion moved m operation = ground arith

  access_line-completion :
      (moved : Moved D G) (address : ℕ) (writes : Bool) (policy : ReplayPolicy) (guard_cycles : ℕ)
      → WhenReturned
          (access_line moved address writes policy guard_cycles)
          (λ t. moved.completion ≤ t.completion)
  unfolding access_line
  access_line-completion moved address true policy guard_cycles =
      WhenReturned->>=
        (write moved.memory address moved.allocation.retention_class moved.completion) _ _
        λ r _. check_operation-completion moved r.0 r.1
  access_line-completion moved address false policy guard_cycles =
      WhenReturned->>=
        (ensure_retained moved.memory moved.allocation address moved.completion policy guard_cycles
          moved.replay)
        _ _
        λ kept _. elim (Bool-cases kept.success) [
          | inr e ↦ rw e (omega arith)
          | inl e ↦ rw e (
              WhenReturned->>= (read kept.memory address (max moved.completion kept.completion)) _ _
                λ r _. omega (
                  arith,
                  check_operation-completion
                      (record kept { completion = max moved.completion kept.completion }) r.0 r.1,
                ))
        ]

  access_lines-completion :
      (left line : ℕ) (moved : Moved D G) (writes : Bool) (policy : ReplayPolicy) (guard_cycles : ℕ)
      → WhenReturned
          (access_lines left line moved writes policy guard_cycles)
          (λ t. moved.completion ≤ t.completion)
  unfolding access_lines
  access_lines-completion zero line moved writes policy guard_cycles = omega arith
  access_lines-completion (suc left) line moved writes policy guard_cycles =
      WhenReturned->>=
        (access_line moved (add64 moved.allocation.base (mul64 line line_bytes)) writes policy
          guard_cycles)
        _ _
        λ next e.
          let first =
            WhenReturned_known _ next (λ t. moved.completion ≤ t.completion)
              (access_line-completion moved (add64 moved.allocation.base (mul64 line line_bytes))
                writes policy guard_cycles)
              e in
          elim (Bool-cases next.success) [
            | inr e' ↦ rw e' first
            | inl e' ↦ rw e' (
                WhenReturned-mono (access_lines left (line + 1) next writes policy guard_cycles) _ _
                  (access_lines-completion left (line + 1) next writes policy guard_cycles)
                  λ t later. omega (arith, first, later))
          ]

  access_allocation-Onward :
      (s : ReplayState D G) (event : Event) (policy : ReplayPolicy) (guard_cycles key ready : ℕ)
      (allocation : Allocation)
      → ReadyBy s.stream_ready key ready
      → Onward s (access_allocation s event policy guard_cycles key ready allocation)
  unfolding access_allocation
  access_allocation-Onward s event policy guard_cycles key ready allocation by =
      WhenReturned->>= (line_range event) _ _ λ range _.
        let first : Moved D G = record {
          memory = s.memory;
          allocation = allocation;
          completion = ready;
          replay = s.replay;
          success = true;
        } in
        WhenReturned->>=
          (access_lines (range.1 + 1 - range.0) range.0 first event.write policy guard_cycles) _ _
          λ moved e.
            let later =
              WhenReturned_known _ moved (λ t. ready ≤ t.completion)
                (access_lines-completion (range.1 + 1 - range.0) range.0 first event.write policy
                  guard_cycles)
                e in
            Grows-insert s.stream_ready key _ λ old h. omega (arith, by old h, later)

  replay_access-Onward :
      (s : ReplayState D G) (event : Event) (policy : ReplayPolicy) (guard_cycles key ready : ℕ)
      → ReadyBy s.stream_ready key ready
      → Onward s (replay_access s event policy guard_cycles key ready)
  unfolding replay_access
  replay_access-Onward s event policy guard_cycles key ready by =
      elim (Option-cases (lookup event.buffer s.allocations)) [
        | inl e ↦ rw (e, replay_access) tt
        | inr (allocation, e) ↦
            rw (e, replay_access)
              (WhenReturned-if
                (ltb allocation.size event.offset
                  || ltb (allocation.size - event.offset) event.size)
                _ _ _ tt
                (WhenReturned-if (not allocation.resident) _ _ _ (Grows-refl s.stream_ready) (
                  access_allocation-Onward
                    (record s {
                      replay = record s.replay { access_events = bump s.replay.access_events };
                    })
                    event policy guard_cycles key ready allocation by)))
      ]

  replay_kind-Onward :
      (kind : EventKind) (s : ReplayState D G) (event : Event) (policy : ReplayPolicy)
      (guard_cycles : ℕ) (ages : Entries ℕ) (key ready : ℕ)
      → event.kind ≡ kind
      → ReadyBy s.stream_ready key ready
      → Onward s (replay_kind s event policy guard_cycles ages key ready)
  unfolding replay_kind replay_phase
  replay_kind-Onward allocate_event s event policy guard_cycles ages key ready e by =
      rw (e, replay_kind) (replay_allocation-Onward s event policy ages)
  replay_kind-Onward free_event s event policy guard_cycles ages key ready e by =
      rw (e, replay_kind) (replay_free-Onward s event ready)
  replay_kind-Onward hint_event s event policy guard_cycles ages key ready e by =
      rw (e, replay_kind) (replay_hint-Onward s event policy key ready by)
  replay_kind-Onward access_event s event policy guard_cycles ages key ready e by =
      rw (e, replay_kind) (replay_access-Onward s event policy guard_cycles key ready by)
  replay_kind-Onward compute_event s event policy guard_cycles ages key ready e by =
      rw (e, replay_kind) (replay_compute-Onward s event key ready by)
  replay_kind-Onward phase_event s event policy guard_cycles ages key ready e by =
      rw (e, replay_kind) (Grows-refl s.stream_ready)
  replay_kind-Onward barrier_event s event policy guard_cycles ages key ready e by =
      rw (e, replay_kind) (replay_barrier-Onward s event ready)

  replay_event-Onward :
      (s : ReplayState D G) (event : Event) (policy : ReplayPolicy) (guard_cycles : ℕ)
      (ages : Entries ℕ)
      → Onward s (replay_event s event policy guard_cycles ages)
  unfolding replay_event
  replay_event-Onward s event policy guard_cycles ages =
      let key = stream_key event.thread event.stream in
      let ready = max (or_zero (lookup key s.stream_ready)) event.tick in
      let started =
        Grows-insert s.stream_ready key ready (or_zero_least s.stream_ready key event.tick) in
      WhenReturned-mono
        (replay_kind (set_ready s key ready) event policy guard_cycles ages key ready) _ _
        (replay_kind-Onward event.kind (set_ready s key ready) event policy guard_cycles ages key
          ready refl λ old h. ground (arith, lookup-insert key key ready s.stream_ready, h))
        λ t later.
          Grows-trans s.stream_ready (insert key ready s.stream_ready) t.stream_ready started later

  replay_loop-Onward :
      (s : ReplayState D G) (events : List Event) (policy : ReplayPolicy) (guard_cycles : ℕ)
      (ages : Entries ℕ)
      → Onward s (replay_loop s events policy guard_cycles ages)
  unfolding replay_loop
  replay_loop-Onward s [] policy guard_cycles ages = Grows-refl s.stream_ready
  replay_loop-Onward s (event ∷ rest) policy guard_cycles ages =
      WhenReturned->>= (replay_event s event policy guard_cycles ages) _ _ λ next e.
        let first =
          WhenReturned_known _ next (λ t. Grows s.stream_ready t.stream_ready)
            (replay_event-Onward s event policy guard_cycles ages) e in
        WhenReturned-mono (replay_loop next rest policy guard_cycles ages) _ _
          (replay_loop-Onward next rest policy guard_cycles ages)
          λ t later. Grows-trans s.stream_ready next.stream_ready t.stream_ready first later

  -- When the replay of some events returned, every stream that was known before is known after, and
  -- is ready no earlier than before.
  pub replay_loop-Grows :
      (s t : ReplayState D G) (events : List Event) (policy : ReplayPolicy) (guard_cycles : ℕ)
      (ages : Entries ℕ)
      → replay_loop s events policy guard_cycles ages ≡ returned t
      → Grows s.stream_ready t.stream_ready
  replay_loop-Grows s t events policy guard_cycles ages =
      WhenReturned_known (replay_loop s events policy guard_cycles ages) t
        (λ t. Grows s.stream_ready t.stream_ready)
        (replay_loop-Onward s events policy guard_cycles ages)
