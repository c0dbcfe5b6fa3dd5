-- ===== src/EvidenceModel/Migration.antt =====
-- sim/evidence_model.cpp: the migrations of `EvidenceMemory`.
use programmable_retention_t.Prelude.{
  ℕ, true, false, not, none, some, if◌then◌else◌, add64, lookup, insert, RetentionClass, same_class,
  at,
}
use programmable_retention_t.Prelude.Exceptions.{Attempt, returned, ◌>>=◌, checked_add}
use programmable_retention_t.RetentionModel.{Platform}
use programmable_retention_t.EvidenceModel.Types.{
  capacity, missing, expired, EvidenceOperation, EvidenceMemory, Line, logical_line, rewritten,
}
use programmable_retention_t.EvidenceModel.Schedule.{failure, completed, schedule}
use programmable_retention_t.EvidenceModel.Capacity.{can_fit, transfer_used}
use programmable_retention_t.EvidenceModel.Memory.{
  account_control, count_expiry, count_missing, begin_access, refresh,
}

module _ {D G : Type 0} ⦃p : Platform D G⦄ where
  -- The copy of an initialised line into another class.
  unfoldable pub migrate_initialized :
      EvidenceMemory D G
      → ℕ
      → Line
      → RetentionClass
      → ℕ
      → Attempt (EvidenceMemory D G × EvidenceOperation)
  unfolding begin_access schedule account_control failure completed
  migrate_initialized m key line destination issue_cycle = do
    let source_config = at line.retention_class m.profile.banks
    let destination_config = at destination m.profile.banks
    (m', checked, failed, start, copied) ←
        begin_access m key line issue_cycle source_config.read_cycles
    if failed then returned (count_expiry m', failure expired start) else (do
      destination_issue ←
          checked_add copied m.profile.migration_setup_cycles "migration setup overflow"
      (n, scheduled) ← schedule m' destination destination_issue destination_config.write_cycles
      returned (
        account_control
            (record n {
              banks = transfer_used n line.retention_class destination;
              lines = insert key (rewritten checked destination scheduled.completion) n.lines;
              stats = record n.stats {
                migrations = add64 n.stats.migrations 1;
                energy = record n.stats.energy {
                  migration_pj = p.add n.stats.energy.migration_pj (
                      p.add (p.add source_config.read_energy_pj destination_config.write_energy_pj)
                        m.profile.migration_setup_pj);
                };
              };
            })
            true true,
        completed start scheduled.completion,
      ))

  -- A line without data changes its class at once.
  unfoldable pub migrate_reserved :
      EvidenceMemory D G → ℕ → Line → RetentionClass → ℕ → EvidenceMemory D G × EvidenceOperation
  unfolding completed
  migrate_reserved m key line destination issue_cycle = (
    record m {
      banks = transfer_used m line.retention_class destination;
      lines = insert key (record line { retention_class = destination; failed = false }) m.lines;
      stats = record m.stats {
        energy = record m.stats.energy {
          controller_pj = p.add m.stats.energy.controller_pj m.profile.controller_access_pj;
          metadata_pj = p.add m.stats.energy.metadata_pj m.profile.metadata_access_pj;
        };
      };
    },
    completed issue_cycle issue_cycle,
  )

  unfoldable pub migrate :
      EvidenceMemory D G → ℕ → RetentionClass → ℕ → Attempt (EvidenceMemory D G × EvidenceOperation)
  unfolding migrate_initialized migrate_reserved failure can_fit
  migrate m byte_address destination issue_cycle =
      let key = logical_line byte_address in
      elim (lookup key m.lines) [
        | none ↦ returned (count_missing m, failure missing issue_cycle)
        | some line ↦
            if same_class line.retention_class destination
            then refresh m byte_address issue_cycle
            else (if not (can_fit m destination 1)
                then returned (
                  record m {
                    stats = record m.stats {
                      capacity_failures = add64 m.stats.capacity_failures 1;
                    };
                  },
                  failure capacity issue_cycle,
                )
                else (if not line.initialized
                    then returned (migrate_reserved m key line destination issue_cycle)
                    else migrate_initialized m key line destination issue_cycle))
      ]
