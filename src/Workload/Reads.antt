-- ===== src/Workload/Reads.antt =====
-- The read that follows `ensure_retained` does not find its line expired.
use programmable_retention_t.Prelude.{
  ℕ, ◌-◌, ◌⊎◌, ◌≤◌, ◌<◌, Bool, true, false, not, some, ◌≡◌, refl, sym, ap, ◌∙◌, arith, inl, inr,
  ltb, if_false, Option-cases, RetentionClass, infinite, max, at, subst, lookup, add64,
}
use programmable_retention_t.Prelude.Exceptions.{
  returned, checked_add, WhenReturned, WhenReturned->>=, WhenReturned_known,
}
use programmable_retention_t.RetentionModel.{Platform, deterministic, BankConfig}
use programmable_retention_t.EvidenceModel.Types.{
  EvidenceMemory, EvidenceOperation, EvidenceLineStatus, Line, Scheduled, logical_line,
}
use programmable_retention_t.EvidenceModel.Schedule.{
  min_element, schedule, retention_failed, completed,
}
use programmable_retention_t.EvidenceModel.Memory.{read, read_line, begin_access}
use programmable_retention_t.EvidenceModel.Queries.{deadline, line_status, earliest_start_cycle}
use programmable_retention_t.Workload.Counters.{ReplayPolicy, Allocation, ReplayStatistics}
use programmable_retention_t.Workload.Placement.{Moved}
use programmable_retention_t.Workload.Maintenance.{maintains, ensure_retained}
use programmable_retention_t.Workload.Safety.{StartsInTime, IsRetained, ensure_retained-IsRetained}

returned_injective : {A : Type 0} (a b : A) → returned a ≡ returned b → a ≡ b
returned_injective a b h = ground (h, arith)

-- What a schedule that returns leaves as it is, and when the access starts.
record Keeps {D G : Type 0} (m : EvidenceMemory D G) (c : RetentionClass) (issue latency : ℕ)
    (r : EvidenceMemory D G × Scheduled) : Type 0 where
  start : earliest_start_cycle m c issue ≡ returned r.1.start
  fits : ltb (infinite - latency) r.1.start ≡ false
  mode : r.0.error_mode ≡ m.error_mode

module _ {D G : Type 0} where
  starts :
      (m : EvidenceMemory D G) (c : RetentionClass) (issue selected ready : ℕ)
      → min_element (at c m.banks).channel_ready ≡ some (selected, ready)
      → earliest_start_cycle m c issue ≡ returned (max issue ready)
  unfolding earliest_start_cycle
  starts m c issue selected ready e = rw (e, earliest_start_cycle) refl

  schedule-Keeps :
      (m : EvidenceMemory D G) (c : RetentionClass) (issue latency : ℕ)
      → WhenReturned (schedule m c issue latency) (Keeps m c issue latency)
  unfolding schedule
  schedule-Keeps m c issue latency =
      elim (Option-cases (min_element (at c m.banks).channel_ready)) [
        | inl e ↦ rw (e, schedule) tt
        | inr ((selected, ready), e) ↦
            rw (e, schedule)
              (WhenReturned->>= (checked_add (max issue ready) latency _) _ _ λ completion a.
                WhenReturned->>=
                  (checked_add m.stats.queue_delay_cycles (max issue ready - issue) _) _ _
                  λ delay _.
                    WhenReturned->>= (checked_add (at c m.stats.bank_busy_cycles) latency _) _ _
                      λ busy _. record {
                        start = starts m c issue selected ready e;
                        fits = ground (arith, a);
                        mode = refl;
                      })
      ]

-- A line in place, as `line_status` shows it, and an access that starts in time.
module _ {D G : Type 0} ⦃p : Platform D G⦄ where
  still_alive :
      (m : EvidenceMemory D G) (line : Line) (config : BankConfig D) (observed : ℕ)
      → m.error_mode ≡ deterministic
      → line.failed ≡ false
      → (observed < deadline config.retention_cycles line.last_write_cycle)
        ⊎ ((deadline config.retention_cycles line.last_write_cycle ≡ infinite)
            × (observed < infinite))
      → WhenReturned (retention_failed m line config observed) (λ r. r.0 ≡ false)
  unfolding retention_failed deadline
  still_alive m line config observed mode alive soon = ground arith

  -- The line starts its access while its data is there.
  module _ (m : EvidenceMemory D G) (byte_address : ℕ) (line : Line) (cycle : ℕ)
      (mode : m.error_mode ≡ deterministic)
      (found : lookup (logical_line byte_address) m.lines ≡ some line)
      (filled : line.initialized ≡ true) (alive : line.failed ≡ false)
      (slow : 1 ≤ (at line.retention_class m.profile.banks).read_cycles)
      (safe : IsRetained m byte_address cycle) where
    own_status : EvidenceLineStatus
    own_status = record {
      present = true;
      initialized = line.initialized;
      failed = line.failed;
      retention_class = line.retention_class;
      last_write_cycle = line.last_write_cycle;
      deadline_cycle =
          deadline (at line.retention_class m.profile.banks).retention_cycles line.last_write_cycle;
    }

    own_status_lem : line_status m byte_address ≡ some own_status
    unfolding line_status own_status
    own_status_lem = rw (found, line_status) refl

    soon_enough :
        (start : ℕ)
        → earliest_start_cycle m line.retention_class cycle ≡ returned start
        → start < infinite
        → StartsInTime m cycle own_status
        → (start < own_status.deadline_cycle)
          ⊎ ((own_status.deadline_cycle ≡ infinite) × (start < infinite))
    unfolding own_status
    soon_enough start e small (inl blank) = absurd (ground (arith, filled, blank))
    soon_enough start e small (inr (inl forever)) = inr (forever, small)
    soon_enough start e small (inr (inr (other, e', early))) = inl (
        subst (λ x. x < own_status.deadline_cycle) (returned_injective other start (sym e' ∙ e))
          early)

    begin_access-Alive :
        WhenReturned
          (begin_access m
            (logical_line byte_address)
            line
            cycle
            (at line.retention_class m.profile.banks).read_cycles)
          (λ (r : EvidenceMemory D G × Line × Bool × ℕ × ℕ). r.2 ≡ false)
    unfolding begin_access own_status
    begin_access-Alive =
        let config = at line.retention_class m.profile.banks in
        WhenReturned->>= (schedule m line.retention_class cycle config.read_cycles) _ _ λ q e.
          let k =
            WhenReturned_known _ q _
              (schedule-Keeps m line.retention_class cycle config.read_cycles) e in
          let small : q.1.start < infinite = ground (arith, k.fits, slow) in
          WhenReturned->>= (retention_failed q.0 line config q.1.start) _ _ λ t e'.
            WhenReturned_known _ t _
              (still_alive q.0 line config q.1.start (k.mode ∙ mode) alive
                (soon_enough q.1.start k.start small (safe own_status own_status_lem)))
              e'

    read_line-Alive :
        WhenReturned
          (read_line m (logical_line byte_address) line cycle)
          (λ (r : EvidenceMemory D G × EvidenceOperation). r.1.success ≡ true)
    unfolding read_line completed
    read_line-Alive =
        let config = at line.retention_class m.profile.banks in
        subst
          (λ q. WhenReturned q (λ (r : EvidenceMemory D G × EvidenceOperation). r.1.success ≡ true))
          (sym (if_false (not line.initialized) _ _ (ap not filled)))
          (WhenReturned->>=
            (begin_access m (logical_line byte_address) line cycle config.read_cycles) _ _
            λ r begun. let kept = WhenReturned_known _ r _ begin_access-Alive begun in rw kept refl)

  abbrev count_read : EvidenceMemory D G → EvidenceMemory D G
  count_read m = record m {
    stats = record m.stats { read_attempts = add64 m.stats.read_attempts 1 };
  }

  read_found :
      (m : EvidenceMemory D G) (byte_address : ℕ) (line : Line) (cycle : ℕ)
      → lookup (logical_line byte_address) m.lines ≡ some line
      → read m byte_address cycle ≡ read_line (count_read m) (logical_line byte_address) line cycle
  unfolding read
  read_found m byte_address line cycle found = rw (found, read) refl

  -- With deterministic expiry and reads of at least one cycle, under a policy that maintains its
  -- lines: when `ensure_retained` returned true for a line that holds data and is not marked as
  -- failed, the read from the cycle it computed succeeds if it returns, so that the line is not found
  -- expired.
  pub ensure_retained-read :
      (m : EvidenceMemory D G) (allocation : Allocation) (byte_address needed_cycle : ℕ)
      (policy : ReplayPolicy) (guard_cycles : ℕ) (replay : ReplayStatistics) (after : Moved D G)
      (line : Line) (n : EvidenceMemory D G) (operation : EvidenceOperation)
      → maintains policy ≡ true
      → ensure_retained m allocation byte_address needed_cycle policy guard_cycles replay
        ≡ returned after
      → after.success ≡ true
      → after.memory.error_mode ≡ deterministic
      → lookup (logical_line byte_address) after.memory.lines ≡ some line
      → line.initialized ≡ true
      → line.failed ≡ false
      → 1 ≤ (at line.retention_class after.memory.profile.banks).read_cycles
      → read after.memory byte_address after.completion ≡ returned (n, operation)
      → operation.success ≡ true
  unfolding line_status earliest_start_cycle
  ensure_retained-read m allocation byte_address needed_cycle policy guard_cycles replay after line
        n operation active run kept mode found filled alive slow reads =
      let safe =
        ensure_retained-IsRetained byte_address m allocation needed_cycle policy guard_cycles replay
          after active run kept in
      WhenReturned_known _ (n, operation)
        (λ (r : EvidenceMemory D G × EvidenceOperation). r.1.success ≡ true)
        (read_line-Alive (count_read after.memory) byte_address line after.completion mode found
          filled alive slow safe)
        (sym (read_found after.memory byte_address line after.completion found) ∙ reads)
