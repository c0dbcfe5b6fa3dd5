-- ===== src/Workload/Books.antt =====
-- Every event of a replay keeps the accounts of the memory and of the live bytes.
use programmable_retention_t.Prelude.{
  ℕ, zero, suc, ◌+◌, ◌-◌, Bool, true, false, not, ◌&&◌, ◌||◌, some, ◌≡◌, ◌∙◌, arith, inl, inr, ltb,
  if◌then◌else◌, Bool-cases, Option-cases, RetentionClass, max, add64, lookup, erase, Entries,
  IsUnique, total, insert-IsUnique, total-insert_present, total-erase, same_class,
}
use programmable_retention_t.Prelude.Exceptions.{Ensures, Ensures->>=, Ensures-either, Ensures-if}
use programmable_retention_t.RetentionModel.{Platform, line_bytes}
use programmable_retention_t.EvidenceModel.Types.{EvidenceMemory, EvidenceOperation}
use programmable_retention_t.EvidenceModel.Memory.{read, write}
use programmable_retention_t.EvidenceModel.Accounting.{IsAccounted}
use programmable_retention_t.EvidenceModel.Accesses.{read-Accounts, write-Accounts}
use programmable_retention_t.Workload.Events.{Event}
use programmable_retention_t.Workload.Counters.{ReplayPolicy, Allocation, ReplayStatistics, mul64}
use programmable_retention_t.Workload.Placement.{Moved, migrate_allocation}
use programmable_retention_t.Workload.Maintenance.{ensure_retained}
use programmable_retention_t.Workload.Ranges.{line_range}
use programmable_retention_t.Workload.Lifecycle.{ReplayState}
use programmable_retention_t.Workload.Access.{
  check_operation, access_line, access_lines, access_allocation, replay_access, migrate_on_hint,
  replay_hint, count_access, put_back, follows_hints,
}
use programmable_retention_t.Workload.Balance.{live_weight, live, IsHeld, migrate_allocation-IsHeld}
use programmable_retention_t.Workload.Upkeep.{ensure_retained-IsHeld}

-- The memory is accounted for, and the live bytes of each class are the sizes of the allocations
-- that are recorded as resident in it.
pub record IsBalanced {D G : Type 0} (s : ReplayState D G) : Type 0 where
  pub accounted : IsAccounted s.memory
  pub unique : IsUnique s.allocations
  pub balance : (c : RetentionClass) → live s.replay c ≡ total (live_weight c) s.allocations

-- The live bytes of the others.
abbrev rest_of : Entries Allocation → ℕ → RetentionClass → ℕ
rest_of allocations buffer c = total (live_weight c) (erase buffer allocations)

counted-live :
    (served : Bool) (replay : ReplayStatistics) (allocation : Allocation) (write : Bool) (size : ℕ)
    (c : RetentionClass)
    → live (if served then count_access replay allocation write size else replay) c ≡ live replay c
counted-live served replay allocation write size c = ground arith

line_range-Ensures : (event : Event) → Ensures (line_range event) (λ _. Unit {0})
unfolding line_range
line_range-Ensures event = ground arith

module _ {D G : Type 0} ⦃p : Platform D G⦄ where
  module _ (rest : RetentionClass → ℕ) where
    check_operation-IsHeld :
        (moved : Moved D G) (m : EvidenceMemory D G) (operation : EvidenceOperation)
        → IsHeld rest moved
        → IsAccounted m
        → IsHeld rest (check_operation moved m operation)
    unfolding check_operation
    check_operation-IsHeld moved m operation held v = elim (Bool-cases operation.success) [
      | inl done ↦
          rw done (record { accounted = v; resident = held.resident; balance = held.balance })
      | inr failed ↦
          rw failed (record { accounted = v; resident = held.resident; balance = held.balance })
    ]

    access_line-IsHeld :
        (moved : Moved D G) (address : ℕ) (write : Bool) (policy : ReplayPolicy) (guard_cycles : ℕ)
        → IsHeld rest moved
        → Ensures (access_line moved address write policy guard_cycles) (IsHeld rest)
    unfolding access_line
    access_line-IsHeld moved address true policy guard_cycles held =
        Ensures->>= (write moved.memory address moved.allocation.retention_class moved.completion) _
          _ _
          (write-Accounts moved.memory address moved.allocation.retention_class moved.completion
            held.accounted)
          λ r v. check_operation-IsHeld moved r.0 r.1 held v
    access_line-IsHeld moved address false policy guard_cycles held =
        Ensures->>=
          (ensure_retained moved.memory moved.allocation address moved.completion policy
            guard_cycles moved.replay)
          _ _ _
          (ensure_retained-IsHeld rest moved.memory moved.allocation address moved.completion policy
            guard_cycles moved.replay
            (record {
              accounted = held.accounted;
              resident = held.resident;
              balance = held.balance;
            }))
          λ kept after. elim (Bool-cases kept.success) [
            | inr lost ↦ rw lost (record {
              accounted = after.accounted;
              resident = after.resident;
              balance = after.balance;
            })
            | inl alive ↦ rw alive (
                Ensures->>= (read kept.memory address (max moved.completion kept.completion)) _ _ _
                  (read-Accounts kept.memory address (max moved.completion kept.completion)
                    after.accounted)
                  λ r v.
                    check_operation-IsHeld
                      (record kept { completion = max moved.completion kept.completion }) r.0 r.1
                      (record {
                        accounted = after.accounted;
                        resident = after.resident;
                        balance = after.balance;
                      })
                      v)
          ]

    access_lines-IsHeld :
        (left line : ℕ) (moved : Moved D G) (write : Bool) (policy : ReplayPolicy)
        (guard_cycles : ℕ)
        → IsHeld rest moved
        → Ensures (access_lines left line moved write policy guard_cycles) (IsHeld rest)
    unfolding access_lines
    access_lines-IsHeld zero line moved write policy guard_cycles held = held
    access_lines-IsHeld (suc left) line moved write policy guard_cycles held =
        Ensures->>=
          (access_line moved (add64 moved.allocation.base (mul64 line line_bytes)) write policy
            guard_cycles)
          _ _ _
          (access_line-IsHeld moved (add64 moved.allocation.base (mul64 line line_bytes)) write
            policy guard_cycles held)
          λ next after. elim (Bool-cases next.success) [
            | inr failed ↦ rw failed after
            | inl served ↦
                rw served (access_lines-IsHeld left (line + 1) next write policy guard_cycles after)
          ]

  -- A resident allocation, taken out of the books and put back into them.
  opened :
      (s : ReplayState D G) (buffer : ℕ) (allocation : Allocation) (completion : ℕ)
      → IsBalanced s
      → lookup buffer s.allocations ≡ some allocation
      → allocation.resident ≡ true
      → IsHeld (rest_of s.allocations buffer) (record {
        memory = s.memory;
        allocation = allocation;
        completion = completion;
        replay = s.replay;
        success = true;
      })
  opened s buffer allocation completion b found resident = record {
    accounted = b.accounted;
    resident = resident;
    balance = λ c.
        b.balance c
        ∙ omega (arith, total-erase (live_weight c) buffer allocation s.allocations b.unique found);
  }

  closed :
      (s : ReplayState D G) (buffer key : ℕ) (allocation : Allocation) (moved : Moved D G)
      → IsBalanced s
      → lookup buffer s.allocations ≡ some allocation
      → IsHeld (rest_of s.allocations buffer) moved
      → IsBalanced (put_back s buffer key moved)
  closed s buffer key allocation moved b found held = record {
    accounted = held.accounted;
    unique = insert-IsUnique buffer moved.allocation s.allocations b.unique;
    balance = λ c.
        held.balance c
        ∙ omega (
          arith,
          total-insert_present (live_weight c) buffer moved.allocation allocation s.allocations
              found,
          total-erase (live_weight c) buffer allocation s.allocations b.unique found,
        );
  }

  access_allocation-IsBalanced :
      (s : ReplayState D G) (event : Event) (policy : ReplayPolicy) (guard_cycles key ready : ℕ)
      (allocation : Allocation)
      → IsBalanced s
      → lookup event.buffer s.allocations ≡ some allocation
      → allocation.resident ≡ true
      → Ensures (access_allocation s event policy guard_cycles key ready allocation) IsBalanced
  unfolding access_allocation
  access_allocation-IsBalanced s event policy guard_cycles key ready allocation b found resident =
      Ensures->>= (line_range event) _ (λ _. Unit {0}) _ (line_range-Ensures event)
        λ range _.
          Ensures->>=
            (access_lines (range.1 + 1 - range.0) range.0
              (record {
                memory = s.memory;
                allocation = allocation;
                completion = ready;
                replay = s.replay;
                success = true;
              })
              event.write policy guard_cycles)
            _ _ _
            (access_lines-IsHeld (rest_of s.allocations event.buffer) (range.1 + 1 - range.0)
              range.0 _ event.write policy guard_cycles
              (opened s event.buffer allocation ready b found resident))
            λ moved held.
              closed s event.buffer key allocation
                (record moved {
                  replay =
                      if moved.success
                      then count_access moved.replay moved.allocation event.write event.size
                      else moved.replay;
                })
                b found
                (record {
                  accounted = held.accounted;
                  resident = held.resident;
                  balance = λ c.
                      counted-live moved.success moved.replay moved.allocation event.write
                        event.size c
                      ∙ held.balance c;
                })

  pub replay_access-IsBalanced :
      (s : ReplayState D G) (event : Event) (policy : ReplayPolicy) (guard_cycles key ready : ℕ)
      → IsBalanced s
      → Ensures (replay_access s event policy guard_cycles key ready) IsBalanced
  unfolding replay_access
  replay_access-IsBalanced s event policy guard_cycles key ready b =
      elim (Option-cases (lookup event.buffer s.allocations)) [
        | inl e ↦ rw (e, replay_access) tt
        | inr (allocation, e) ↦
            rw (e, replay_access)
              (Ensures-if
                (ltb allocation.size event.offset
                  || ltb (allocation.size - event.offset) event.size)
                _ _ _ tt
                (Ensures-either (not allocation.resident) _ _ _
                  (λ _. record { accounted = b.accounted; unique = b.unique; balance = b.balance })
                  (λ holds.
                    access_allocation-IsBalanced _ event policy guard_cycles key ready allocation
                      (record { accounted = b.accounted; unique = b.unique; balance = b.balance }) e
                      (ground arith))))
      ]

  pub replay_hint-IsBalanced :
      (s : ReplayState D G) (event : Event) (policy : ReplayPolicy) (key ready : ℕ)
      → IsBalanced s
      → Ensures (replay_hint s event policy key ready) IsBalanced
  unfolding replay_hint migrate_on_hint
  replay_hint-IsBalanced s event policy key ready b =
      elim (Option-cases (lookup event.buffer s.allocations)) [
        | inl e ↦ rw (e, replay_hint) tt
        | inr (allocation, e) ↦
            rw (e, replay_hint)
              (Ensures-either
                (follows_hints policy
                  && allocation.resident
                  && not (same_class allocation.retention_class event.hint))
                _ _ _
                (λ moves.
                  Ensures->>=
                    (migrate_allocation s.memory allocation event.hint ready s.replay false) _ _ _
                    (migrate_allocation-IsHeld (rest_of s.allocations event.buffer) s.memory
                      allocation event.hint ready s.replay false
                      (opened s event.buffer allocation ready b e (ground arith)))
                    λ moved held.
                      closed s event.buffer key allocation
                        (record moved {
                          completion = if moved.success then max ready moved.completion else ready;
                        })
                        b e
                        (record {
                          accounted = held.accounted;
                          resident = held.resident;
                          balance = held.balance;
                        }))
                (λ _. b))
      ]
