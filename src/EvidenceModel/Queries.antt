-- ===== src/EvidenceModel/Queries.antt =====
-- sim/evidence_model.cpp: what `EvidenceMemory` reports without changing.
use programmable_retention_t.Prelude.{
  ℕ, ◌+◌, ◌-◌, max, String, true, ◌||◌, List, [], ◌∷◌, Option, none, some, ◌==◌, ltb, if◌then◌else◌,
  infinite, lookup, RetentionClass, at,
}
use programmable_retention_t.Prelude.Exceptions.{Attempt, returned, thrown}
use programmable_retention_t.RetentionModel.{Platform}
use programmable_retention_t.EvidenceModel.Types.{
  EvidenceFailure, no_failure, capacity, missing, uninitialized, expired, EvidenceMemory,
  EvidenceLineStatus, EvidenceEnergy, logical_line,
}
use programmable_retention_t.EvidenceModel.Schedule.{min_element}

-- The deadline of a line under a retention, at most `kInfinite`.
unfoldable pub deadline : ℕ → ℕ → ℕ
deadline retention last_write =
    if retention == infinite || ltb (infinite - retention) last_write
    then infinite
    else last_write + retention

module _ {D G : Type 0} where
  unfoldable pub line_status : EvidenceMemory D G → ℕ → Option EvidenceLineStatus
  unfolding deadline
  line_status m byte_address = elim (lookup (logical_line byte_address) m.lines) [
    | none ↦ none
    | some line ↦ some (record {
      present = true;
      initialized = line.initialized;
      failed = line.failed;
      retention_class = line.retention_class;
      last_write_cycle = line.last_write_cycle;
      deadline_cycle =
          deadline (at line.retention_class m.profile.banks).retention_cycles line.last_write_cycle;
    })
  ]

  unfoldable pub earliest_start_cycle : EvidenceMemory D G → RetentionClass → ℕ → Attempt ℕ
  unfolding min_element
  earliest_start_cycle m c issue_cycle = elim (min_element (at c m.banks).channel_ready) [
    | none ↦ thrown "retention bank has no channels"
    | some (selected, ready) ↦ returned (max issue_cycle ready)
  ]

-- The inner loop of `bank_ready_cycle`.
unfoldable pub latest : ℕ → List ℕ → ℕ
latest result [] = result
latest result (ready ∷ rest) = latest (max result ready) rest

module _ {D G : Type 0} where
  unfoldable pub bank_ready_cycle : EvidenceMemory D G → ℕ
  unfolding latest
  bank_ready_cycle m =
      latest (latest (latest 0 m.banks.of_ephemeral.channel_ready) m.banks.of_epoch.channel_ready)
        m.banks.of_durable.channel_ready

module _ {D G : Type 0} ⦃p : Platform D G⦄ where
  unfoldable pub final_energy : EvidenceMemory D G → ℕ → EvidenceEnergy D
  final_energy m makespan =
      let power =
        p.add
          (p.add (p.add p.zero_double m.profile.static_power_mw.of_ephemeral)
            m.profile.static_power_mw.of_epoch)
          m.profile.static_power_mw.of_durable in
      record m.stats.energy {
        static_pj = p.mul (p.mul power (p.of_uint64 makespan)) m.profile.tick_ns;
      }

abbrev pub failure_name : EvidenceFailure → String
failure_name no_failure = "none"
failure_name capacity = "capacity"
failure_name missing = "missing"
failure_name uninitialized = "uninitialized"
failure_name expired = "expired"
