-- ===== src/Workload/Access.antt =====
-- sim/workload_trace.cpp: `replay_events`:
-- its handlers of hints and accesses.
use programmable_retention_t.Prelude.{
  ℕ, zero, suc, ◌+◌, ◌-◌, max, Bool, true, false, not, ◌&&◌, ◌||◌, none, some, ltb, if◌then◌else◌,
  lookup, insert, add64, same_class, at,
}
use programmable_retention_t.Prelude.Exceptions.{Attempt, returned, thrown, ◌>>=◌}
use programmable_retention_t.RetentionModel.{Platform, line_bytes}
use programmable_retention_t.EvidenceModel.Types.{EvidenceMemory, EvidenceOperation}
use programmable_retention_t.EvidenceModel.Memory.{read, write}
use programmable_retention_t.Workload.Events.{Event}
use programmable_retention_t.Workload.Counters.{
  ReplayPolicy, hint_policy, ephemeral_policy, epoch_policy, durable_policy, oracle_policy,
  refresh_policy, adaptive_policy, Allocation, ReplayStatistics, bump, mul64, with_class,
  with_structure, mark_class, record_failure,
}
use programmable_retention_t.Workload.Placement.{Moved, migrate_allocation}
use programmable_retention_t.Workload.Maintenance.{ensure_retained}
use programmable_retention_t.Workload.Ranges.{line_range}
use programmable_retention_t.Workload.Lifecycle.{ReplayState}

-- The accounts of an access whose lines were all served.
abbrev pub count_access : ReplayStatistics → Allocation → Bool → ℕ → ReplayStatistics
count_access replay allocation true size =
    let statistics = at allocation.retention_class replay.classes in
    let counted =
      with_class (record replay { write_bytes = add64 replay.write_bytes size })
        allocation.retention_class
        (record statistics { write_bytes = add64 statistics.write_bytes size }) in
    with_structure counted allocation.name (λ s.
      let marked = mark_class allocation.retention_class s in
      record marked { write_bytes = add64 marked.write_bytes size })
count_access replay allocation false size =
    let statistics = at allocation.retention_class replay.classes in
    let counted =
      with_class (record replay { read_bytes = add64 replay.read_bytes size })
        allocation.retention_class
        (record statistics { read_bytes = add64 statistics.read_bytes size }) in
    with_structure counted allocation.name (λ s.
      let marked = mark_class allocation.retention_class s in
      record marked { read_bytes = add64 marked.read_bytes size })

-- `policy == Hint || policy == Refresh || policy == Adaptive`
abbrev pub follows_hints : ReplayPolicy → Bool
follows_hints hint_policy = true
follows_hints refresh_policy = true
follows_hints adaptive_policy = true
follows_hints ephemeral_policy = false
follows_hints epoch_policy = false
follows_hints durable_policy = false
follows_hints oracle_policy = false

module _ {D G : Type 0} where
  -- The allocation of `buffer` and the rest, as an access or a migration leaves them.
  abbrev pub put_back : ReplayState D G → ℕ → ℕ → Moved D G → ReplayState D G
  put_back s buffer key moved = record s {
    memory = moved.memory;
    allocations = insert buffer moved.allocation s.allocations;
    stream_ready = insert key moved.completion s.stream_ready;
    replay = moved.replay;
  }

module _ {D G : Type 0} ⦃p : Platform D G⦄ where
  unfoldable pub migrate_on_hint :
      ReplayState D G → Event → ℕ → ℕ → Allocation → Attempt (ReplayState D G)
  unfolding migrate_allocation
  migrate_on_hint s event key ready allocation =
      migrate_allocation s.memory allocation event.hint ready s.replay false >>= λ moved. returned (
        put_back s event.buffer key (record moved {
          completion = if moved.success then max ready moved.completion else ready;
        }))

  unfoldable pub replay_hint :
      ReplayState D G → Event → ReplayPolicy → ℕ → ℕ → Attempt (ReplayState D G)
  unfolding migrate_on_hint
  replay_hint s event policy key ready = elim (lookup event.buffer s.allocations) [
    | none ↦ thrown "hint references unknown buffer"
    | some allocation ↦
        if follows_hints policy
          && allocation.resident
          && not (same_class allocation.retention_class event.hint)
        then migrate_on_hint s event key ready allocation
        else returned s
  ]

  -- The answer of a read or a write of one line.
  unfoldable pub check_operation : Moved D G → EvidenceMemory D G → EvidenceOperation → Moved D G
  unfolding record_failure
  check_operation moved m operation =
      if not operation.success
      then record moved {
        memory = m;
        replay = record_failure moved.replay operation.failure false false;
        success = false;
      }
      else record moved { memory = m; completion = max moved.completion operation.completion_cycle }

  -- One line of an access; `completion` is the stream's ready cycle, `success` is `access_ok`.
  unfoldable pub access_line : Moved D G → ℕ → Bool → ReplayPolicy → ℕ → Attempt (Moved D G)
  unfolding ensure_retained check_operation
  access_line moved address true policy guard_cycles =
      write moved.memory address moved.allocation.retention_class moved.completion >>= λ r.
      returned (check_operation moved r.0 r.1)
  access_line moved address false policy guard_cycles =
      ensure_retained moved.memory moved.allocation address moved.completion policy guard_cycles
        moved.replay
      >>= λ kept. elim kept.success [
        | false ↦ returned (record kept { completion = moved.completion })
        | true ↦
            let ready = max moved.completion kept.completion in
            read kept.memory address ready >>= λ r.
            returned (check_operation (record kept { completion = ready }) r.0 r.1)
      ]

  unfoldable pub access_lines : ℕ → ℕ → Moved D G → Bool → ReplayPolicy → ℕ → Attempt (Moved D G)
  unfolding access_line
  access_lines zero line moved write policy guard_cycles = returned moved
  access_lines (suc left) line moved write policy guard_cycles =
      access_line moved (add64 moved.allocation.base (mul64 line line_bytes)) write policy
        guard_cycles
      >>= λ next. elim next.success [
        | false ↦ returned next
        | true ↦ access_lines left (line + 1) next write policy guard_cycles
      ]

  unfoldable pub access_allocation :
      ReplayState D G → Event → ReplayPolicy → ℕ → ℕ → ℕ → Allocation → Attempt (ReplayState D G)
  unfolding access_lines line_range
  access_allocation s event policy guard_cycles key ready allocation = line_range event >>= λ range.
      access_lines (range.1 + 1 - range.0) range.0
        (record {
          memory = s.memory;
          allocation = allocation;
          completion = ready;
          replay = s.replay;
          success = true;
        })
        event.write policy guard_cycles
      >>= λ moved. returned (
          put_back s event.buffer key (record moved {
            replay =
                if moved.success
                then count_access moved.replay moved.allocation event.write event.size
                else moved.replay;
          }))

  unfoldable pub replay_access :
      ReplayState D G → Event → ReplayPolicy → ℕ → ℕ → ℕ → Attempt (ReplayState D G)
  unfolding access_allocation
  replay_access s event policy guard_cycles key ready = elim (lookup event.buffer s.allocations) [
    | none ↦ thrown "access references unknown buffer or exceeds bounds"
    | some allocation ↦
        if ltb allocation.size event.offset || ltb (allocation.size - event.offset) event.size
        then thrown "access references unknown buffer or exceeds bounds"
        else (let counted = record s.replay { access_events = bump s.replay.access_events } in
            if not allocation.resident
            then returned (record s {
              replay = record counted {
                unsafe_accesses = bump counted.unsafe_accesses;
                failures = record counted.failures {
                  rejected_access_events = bump counted.failures.rejected_access_events;
                };
              };
            })
            else access_allocation (record s { replay = counted }) event policy guard_cycles key
                ready allocation)
  ]
