-- ===== src/Workload/Upkeep.antt =====
-- `ensure_retained` keeps the accounts of the memory and of the live bytes.
use programmable_retention_t.Prelude.{
  ℕ, zero, suc, true, not, ◌&&◌, ◌||◌, inl, inr, ◌==◌, ltb, Bool-cases, Option-cases,
  RetentionClass, infinite, at,
}
use programmable_retention_t.Prelude.Exceptions.{
  Attempt, returned, Ensures, Ensures->>=, Ensures-if,
}
use programmable_retention_t.RetentionModel.{Platform}
use programmable_retention_t.EvidenceModel.Types.{
  EvidenceMemory, EvidenceOperation, EvidenceLineStatus,
}
use programmable_retention_t.EvidenceModel.Memory.{refresh}
use programmable_retention_t.EvidenceModel.Queries.{line_status, earliest_start_cycle}
use programmable_retention_t.EvidenceModel.Schedule.{min_element}
use programmable_retention_t.EvidenceModel.Accounting.{IsAccounted}
use programmable_retention_t.EvidenceModel.Accesses.{refresh-Accounts}
use programmable_retention_t.Workload.Counters.{ReplayPolicy, Allocation, ReplayStatistics}
use programmable_retention_t.Workload.Placement.{
  is_adaptive, is_durable, Moved, next_class, migrate_allocation,
}
use programmable_retention_t.Workload.Maintenance.{
  maintains, Round, finish, again, maintenance_start, check_refreshed, refresh_round, maintain_line,
  check_deadline, maintenance_round, maintenance_rounds, ensure_retained,
}
use programmable_retention_t.Workload.Balance.{IsHeld, migrate_allocation-IsHeld}

-- `earliest_start_cycle` may throw, and is never undefined.
earliest_start_cycle-Ensures :
    {D G : Type 0} (m : EvidenceMemory D G) (c : RetentionClass) (issue_cycle : ℕ)
    → Ensures (earliest_start_cycle m c issue_cycle) (λ _. Unit {0})
unfolding earliest_start_cycle
earliest_start_cycle-Ensures m c issue_cycle =
    elim (Option-cases (min_element (at c m.banks).channel_ready)) [
      | inl e ↦ rw (e, earliest_start_cycle) tt
      | inr (x, e) ↦ rw (e, earliest_start_cycle) tt
    ]

module _ {D G : Type 0} ⦃p : Platform D G⦄ (rest : RetentionClass → ℕ) where
  -- What a round hands on.
  abbrev RoundIsHeld : Round D G → Type 0
  RoundIsHeld (finish moved) = IsHeld rest moved
  RoundIsHeld (again moved) = IsHeld rest moved

  check_refreshed-RoundIsHeld :
      (moved : Moved D G) (status : EvidenceLineStatus) (m : EvidenceMemory D G)
      (refreshed : EvidenceOperation)
      → IsHeld rest moved
      → IsAccounted m
      → RoundIsHeld (check_refreshed moved status m refreshed)
  unfolding check_refreshed
  check_refreshed-RoundIsHeld moved status m refreshed held v =
      elim (Bool-cases
        (not refreshed.success || ltb status.deadline_cycle refreshed.completion_cycle)) [
          | inl late ↦
              rw late (record { accounted = v; resident = held.resident; balance = held.balance })
          | inr kept ↦
              rw kept (record { accounted = v; resident = held.resident; balance = held.balance })
        ]

  refresh_round-RoundIsHeld :
      (moved : Moved D G) (byte_address : ℕ) (status : EvidenceLineStatus) (guard_cycles : ℕ)
      → IsHeld rest moved
      → Ensures (refresh_round moved byte_address status guard_cycles) RoundIsHeld
  unfolding refresh_round
  refresh_round-RoundIsHeld moved byte_address status guard_cycles held =
      Ensures->>= (refresh moved.memory byte_address (maintenance_start status guard_cycles)) _ _ _
        (refresh-Accounts moved.memory byte_address (maintenance_start status guard_cycles)
          held.accounted)
        λ r v. check_refreshed-RoundIsHeld moved status r.0 r.1 held v

  maintain_line-RoundIsHeld :
      (moved : Moved D G) (byte_address : ℕ) (status : EvidenceLineStatus) (policy : ReplayPolicy)
      (guard_cycles : ℕ)
      → IsHeld rest moved
      → Ensures (maintain_line moved byte_address status policy guard_cycles) RoundIsHeld
  unfolding maintain_line
  maintain_line-RoundIsHeld moved byte_address status policy guard_cycles held =
      elim (Bool-cases (is_adaptive policy && not (is_durable status.retention_class))) [
        | inr plain ↦
            rw (plain, maintain_line)
              (refresh_round-RoundIsHeld moved byte_address status guard_cycles held)
        | inl upward ↦
            rw (upward, maintain_line)
              (Ensures->>=
                (migrate_allocation moved.memory moved.allocation
                  (next_class status.retention_class) (maintenance_start status guard_cycles)
                  moved.replay true)
                _ _ _
                (migrate_allocation-IsHeld rest moved.memory moved.allocation
                  (next_class status.retention_class) (maintenance_start status guard_cycles)
                  moved.replay true
                  (record {
                    accounted = held.accounted;
                    resident = held.resident;
                    balance = held.balance;
                  }))
                λ r after. elim (Bool-cases r.success) [
                  | inl done ↦ rw done (record {
                    accounted = after.accounted;
                    resident = after.resident;
                    balance = after.balance;
                  })
                  | inr stuck ↦ rw stuck (
                      refresh_round-RoundIsHeld
                        (record r { completion = moved.completion; success = moved.success })
                        byte_address status guard_cycles
                        (record {
                          accounted = after.accounted;
                          resident = after.resident;
                          balance = after.balance;
                        }))
                ])
      ]

  maintenance_round-RoundIsHeld :
      (moved : Moved D G) (byte_address : ℕ) (policy : ReplayPolicy) (guard_cycles : ℕ)
      → IsHeld rest moved
      → Ensures (maintenance_round moved byte_address policy guard_cycles) RoundIsHeld
  unfolding maintenance_round check_deadline
  maintenance_round-RoundIsHeld moved byte_address policy guard_cycles held =
      elim (Option-cases (line_status moved.memory byte_address)) [
        | inl absent ↦ rw (absent, maintenance_round) held
        | inr (status, e) ↦
            rw (e, maintenance_round)
              (Ensures-if (not status.initialized || status.deadline_cycle == infinite) _ _ _ held (
                Ensures->>=
                  (earliest_start_cycle moved.memory status.retention_class moved.completion) _
                  (λ _. Unit {0}) _
                  (earliest_start_cycle-Ensures moved.memory status.retention_class
                    moved.completion)
                  λ start _.
                    Ensures-if (ltb start status.deadline_cycle) _ _ _ held (
                      maintain_line-RoundIsHeld moved byte_address status policy guard_cycles
                        held)))
      ]

  after_round :
      (continue : Moved D G → Attempt (Moved D G))
      → ((next : Moved D G) → IsHeld rest next → Ensures (continue next) (IsHeld rest))
      → (r : Round D G) → RoundIsHeld r
      → Ensures
          (elim r [ finish result ↦ returned result | again next ↦ continue next ])
          (IsHeld rest)
  after_round continue h (finish result) after = after
  after_round continue h (again next) after = h next after

  maintenance_rounds-IsHeld :
      (attempts : ℕ) (moved : Moved D G) (byte_address : ℕ) (policy : ReplayPolicy)
      (guard_cycles : ℕ)
      → IsHeld rest moved
      → Ensures (maintenance_rounds attempts moved byte_address policy guard_cycles) (IsHeld rest)
  unfolding maintenance_rounds
  maintenance_rounds-IsHeld zero moved byte_address policy guard_cycles held = tt
  maintenance_rounds-IsHeld (suc attempts) moved byte_address policy guard_cycles held =
      Ensures->>= (maintenance_round moved byte_address policy guard_cycles) _ _ _
        (maintenance_round-RoundIsHeld moved byte_address policy guard_cycles held)
        (after_round (λ next. maintenance_rounds attempts next byte_address policy guard_cycles)
          (λ next after.
            maintenance_rounds-IsHeld attempts next byte_address policy guard_cycles after))

  pub ensure_retained-IsHeld :
      (m : EvidenceMemory D G) (allocation : Allocation) (byte_address needed_cycle : ℕ)
      (policy : ReplayPolicy) (guard_cycles : ℕ) (replay : ReplayStatistics)
      → IsHeld rest (record {
        memory = m;
        allocation = allocation;
        completion = needed_cycle;
        replay = replay;
        success = true;
      })
      → Ensures
          (ensure_retained m allocation byte_address needed_cycle policy guard_cycles replay)
          (IsHeld rest)
  unfolding ensure_retained
  ensure_retained-IsHeld m allocation byte_address needed_cycle policy guard_cycles replay held =
      Ensures-if (not (maintains policy)) _ _ _ held
        (maintenance_rounds-IsHeld 100000 _ byte_address policy guard_cycles held)
