-- ===== src/Workload/Maintenance.antt =====
-- sim/workload_trace.cpp: `ensure_retained`, which keeps a line alive for a read that is to come.
use programmable_retention_t.Prelude.{
  ℕ, zero, suc, ◌-◌, max, Bool, true, false, not, ◌&&◌, ◌||◌, none, some, ◌==◌, ltb, if◌then◌else◌,
  infinite,
}
use programmable_retention_t.Prelude.Exceptions.{Attempt, returned, thrown, ◌>>=◌}
use programmable_retention_t.RetentionModel.{Platform}
use programmable_retention_t.EvidenceModel.Types.{
  EvidenceMemory, EvidenceLineStatus, EvidenceOperation, expired,
}
use programmable_retention_t.EvidenceModel.Memory.{refresh}
use programmable_retention_t.EvidenceModel.Queries.{line_status, earliest_start_cycle}
use programmable_retention_t.Workload.Counters.{
  ReplayPolicy, hint_policy, ephemeral_policy, epoch_policy, durable_policy, oracle_policy,
  refresh_policy, adaptive_policy, Allocation, ReplayStatistics, record_failure,
}
use programmable_retention_t.Workload.Placement.{
  is_adaptive, is_durable, Moved, next_class, migrate_allocation,
}

-- `policy == Refresh || policy == Adaptive`
abbrev pub maintains : ReplayPolicy → Bool
maintains refresh_policy = true
maintains adaptive_policy = true
maintains hint_policy = false
maintains ephemeral_policy = false
maintains epoch_policy = false
maintains durable_policy = false
maintains oracle_policy = false

-- How one round of the loop ends: with `return` or with the next round.
pub data Round (D G : Type 0) : Type 0 where
  finish : Moved D G → Round D G
  again : Moved D G → Round D G

-- When the maintenance of a line starts.
unfoldable pub maintenance_start : EvidenceLineStatus → ℕ → ℕ
maintenance_start status guard_cycles =
    if ltb guard_cycles status.deadline_cycle
    then status.deadline_cycle - guard_cycles
    else status.last_write_cycle

module _ {D G : Type 0} ⦃p : Platform D G⦄ where
  -- The answer of `refresh`, which may come too late.
  unfoldable pub check_refreshed :
      Moved D G → EvidenceLineStatus → EvidenceMemory D G → EvidenceOperation → Round D G
  unfolding record_failure
  check_refreshed moved status m refreshed =
      if not refreshed.success || ltb status.deadline_cycle refreshed.completion_cycle
      then finish (record moved {
        memory = m;
        replay =
            record_failure moved.replay (if refreshed.success then expired else refreshed.failure)
              true false;
        success = false;
      })
      else again (record moved {
        memory = m;
        completion = max moved.completion refreshed.completion_cycle;
      })

  unfoldable pub refresh_round : Moved D G → ℕ → EvidenceLineStatus → ℕ → Attempt (Round D G)
  unfolding check_refreshed maintenance_start
  refresh_round moved byte_address status guard_cycles =
      refresh moved.memory byte_address (maintenance_start status guard_cycles) >>= λ r.
      returned (check_refreshed moved status r.0 r.1)

  -- The line's deadline is passed before an access can start: its allocation moves to the next class
  -- under the adaptive policy; else, or when there is no room, the line is refreshed.
  unfoldable pub maintain_line :
      Moved D G → ℕ → EvidenceLineStatus → ReplayPolicy → ℕ → Attempt (Round D G)
  unfolding migrate_allocation refresh_round maintenance_start next_class
  maintain_line moved byte_address status policy guard_cycles =
      elim (is_adaptive policy && not (is_durable status.retention_class)) [
        | false ↦ refresh_round moved byte_address status guard_cycles
        | true ↦
            migrate_allocation moved.memory moved.allocation (next_class status.retention_class)
              (maintenance_start status guard_cycles) moved.replay true
            >>= λ r. elim r.success [
              | true ↦
                  returned (again (record r { completion = max moved.completion r.completion }))
              | false ↦
                  refresh_round
                    (record r { completion = moved.completion; success = moved.success })
                    byte_address status guard_cycles
            ]
      ]

  -- The deadline of an initialised line against the earliest start of an access.
  unfoldable pub check_deadline :
      Moved D G → ℕ → EvidenceLineStatus → ReplayPolicy → ℕ → Attempt (Round D G)
  unfolding maintain_line earliest_start_cycle
  check_deadline moved byte_address status policy guard_cycles =
      earliest_start_cycle moved.memory status.retention_class moved.completion
      >>= λ observation_cycle.
          if ltb observation_cycle status.deadline_cycle
          then returned (finish moved)
          else maintain_line moved byte_address status policy guard_cycles

  -- One round of the loop.
  unfoldable pub maintenance_round : Moved D G → ℕ → ReplayPolicy → ℕ → Attempt (Round D G)
  unfolding check_deadline line_status
  maintenance_round moved byte_address policy guard_cycles =
      elim (line_status moved.memory byte_address) [
        | none ↦ returned (finish moved)
        | some status ↦
            if not status.initialized || status.deadline_cycle == infinite
            then returned (finish moved)
            else check_deadline moved byte_address status policy guard_cycles
      ]

  -- The loop, with the rounds it has left.
  unfoldable pub maintenance_rounds : ℕ → Moved D G → ℕ → ReplayPolicy → ℕ → Attempt (Moved D G)
  unfolding maintenance_round
  maintenance_rounds zero moved byte_address policy guard_cycles =
      thrown "maintenance iteration limit exceeded"
  maintenance_rounds (suc attempts) moved byte_address policy guard_cycles =
      maintenance_round moved byte_address policy guard_cycles >>= λ r. elim r [
        | finish result ↦ returned result
        | again next ↦ maintenance_rounds attempts next byte_address policy guard_cycles
      ]

  unfoldable pub ensure_retained :
      EvidenceMemory D G
      → Allocation
      → ℕ
      → ℕ
      → ReplayPolicy
      → ℕ
      → ReplayStatistics
      → Attempt (Moved D G)
  unfolding maintenance_rounds
  ensure_retained m allocation byte_address needed_cycle policy guard_cycles replay =
      let moved : Moved D G = record {
        memory = m;
        allocation = allocation;
        completion = needed_cycle;
        replay = replay;
        success = true;
      } in
      if not (maintains policy)
      then returned moved
      else maintenance_rounds 100000 moved byte_address policy guard_cycles
