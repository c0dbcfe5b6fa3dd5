-- ===== src/EvidenceModel/Memory.antt =====
-- sim/evidence_model.cpp: the accesses of `EvidenceMemory`.
use programmable_retention_t.Prelude.{
  ℕ, Bool, true, false, not, none, some, if◌then◌else◌, add64, lookup, insert, RetentionClass,
  same_class, at,
}
use programmable_retention_t.Prelude.Exceptions.{Attempt, returned, thrown, ◌>>=◌, checked_add}
use programmable_retention_t.RetentionModel.{Platform}
use programmable_retention_t.EvidenceModel.Types.{
  missing, uninitialized, expired, EvidenceOperation, EvidenceMemory, Line, logical_line, rewritten,
}
use programmable_retention_t.EvidenceModel.Schedule.{failure, completed, schedule, retention_failed}

module _ {D G : Type 0} ⦃p : Platform D G⦄ where
  -- `account_control`
  unfoldable pub account_control : EvidenceMemory D G → Bool → Bool → EvidenceMemory D G
  account_control m read_part write_part = record m {
    stats = record m.stats {
      energy = record m.stats.energy {
        controller_pj = p.add m.stats.energy.controller_pj m.profile.controller_access_pj;
        metadata_pj = p.add m.stats.energy.metadata_pj m.profile.metadata_access_pj;
        ecc_pj =
            let after_read =
              if read_part
              then p.add m.stats.energy.ecc_pj m.profile.ecc_read_pj
              else m.stats.energy.ecc_pj in
            if write_part then p.add after_read m.profile.ecc_write_pj else after_read;
      };
    };
  }

  abbrev pub count_expiry : EvidenceMemory D G → EvidenceMemory D G
  count_expiry m = record m { stats = record m.stats { expirations = add64 m.stats.expirations 1 } }

  abbrev pub count_missing : EvidenceMemory D G → EvidenceMemory D G
  count_missing m = record m {
    stats = record m.stats { missing_accesses = add64 m.stats.missing_accesses 1 };
  }

  -- The scheduled access to an initialised line, up to the retention check in place.
  unfoldable pub begin_access :
      EvidenceMemory D G → ℕ → Line → ℕ → ℕ → Attempt (EvidenceMemory D G × Line × Bool × ℕ × ℕ)
  unfolding schedule retention_failed
  begin_access m key line issue_cycle latency = do
    (scheduled_m, scheduled) ← schedule m line.retention_class issue_cycle latency
    (failed, checked, rng) ←
        retention_failed scheduled_m line (at line.retention_class m.profile.banks) scheduled.start
    returned (
      record scheduled_m { lines = insert key checked scheduled_m.lines; rng = rng },
      checked,
      failed,
      scheduled.start,
      scheduled.completion,
    )

  unfoldable pub read_line :
      EvidenceMemory D G → ℕ → Line → ℕ → Attempt (EvidenceMemory D G × EvidenceOperation)
  unfolding begin_access account_control failure completed
  read_line m key line issue_cycle =
      let config = at line.retention_class m.profile.banks in
      if not line.initialized
      then returned (
        record m {
          stats = record m.stats { uninitialized_reads = add64 m.stats.uninitialized_reads 1 };
        },
        failure uninitialized issue_cycle,
      )
      else (do
        (m', checked, failed, start, completion) ←
            begin_access m key line issue_cycle config.read_cycles
        if failed
            then returned (count_expiry m', failure expired start)
            else returned (
              account_control
                  (record m' {
                    stats = record m'.stats {
                      useful_reads = add64 m'.stats.useful_reads 1;
                      energy = record m'.stats.energy {
                        useful_read_pj = p.add m'.stats.energy.useful_read_pj config.read_energy_pj;
                      };
                    };
                  })
                  true false,
              completed start completion,
            ))

  unfoldable pub read :
      EvidenceMemory D G → ℕ → ℕ → Attempt (EvidenceMemory D G × EvidenceOperation)
  unfolding read_line
  read m byte_address issue_cycle =
      let counted = record m {
        stats = record m.stats { read_attempts = add64 m.stats.read_attempts 1 };
      } in
      let key = logical_line byte_address in
      elim (lookup key m.lines) [
        | none ↦ returned (count_missing counted, failure missing issue_cycle)
        | some line ↦ read_line counted key line issue_cycle
      ]

  unfoldable pub write_line :
      EvidenceMemory D G
      → ℕ
      → Line
      → RetentionClass
      → ℕ
      → Attempt (EvidenceMemory D G × EvidenceOperation)
  unfolding schedule account_control completed
  write_line m key line c issue_cycle =
      let config = at c m.profile.banks in
      if not (same_class line.retention_class c)
      then thrown "write class disagrees with reserved line"
      else (do
        (m', scheduled) ← schedule m c issue_cycle config.write_cycles
        returned (
          account_control
              (record m' {
                lines =
                    insert key (rewritten line line.retention_class scheduled.completion) m'.lines;
                stats = record m'.stats {
                  useful_writes = add64 m'.stats.useful_writes 1;
                  energy = record m'.stats.energy {
                    useful_write_pj = p.add m'.stats.energy.useful_write_pj config.write_energy_pj;
                  };
                };
              })
              false true,
          completed scheduled.start scheduled.completion,
        ))

  unfoldable pub write :
      EvidenceMemory D G → ℕ → RetentionClass → ℕ → Attempt (EvidenceMemory D G × EvidenceOperation)
  unfolding write_line failure
  write m byte_address c issue_cycle =
      let counted = record m {
        stats = record m.stats { write_attempts = add64 m.stats.write_attempts 1 };
      } in
      let key = logical_line byte_address in
      elim (lookup key m.lines) [
        | none ↦ returned (count_missing counted, failure missing issue_cycle)
        | some line ↦ write_line counted key line c issue_cycle
      ]

  unfoldable pub refresh_line :
      EvidenceMemory D G → ℕ → Line → ℕ → Attempt (EvidenceMemory D G × EvidenceOperation)
  unfolding begin_access account_control failure completed
  refresh_line m key line issue_cycle =
      let config = at line.retention_class m.profile.banks in
      if not line.initialized then returned (m, completed issue_cycle issue_cycle) else (do
        latency ← checked_add config.read_cycles config.write_cycles "refresh latency overflow"
        (m', checked, failed, start, completion) ← begin_access m key line issue_cycle latency
        if failed
            then returned (count_expiry m', failure expired start)
            else returned (
              account_control
                  (record m' {
                    lines =
                        insert key (rewritten checked checked.retention_class completion) m'.lines;
                    stats = record m'.stats {
                      refreshes = add64 m'.stats.refreshes 1;
                      energy = record m'.stats.energy {
                        refresh_pj =
                            p.add m'.stats.energy.refresh_pj
                              (p.add config.read_energy_pj config.write_energy_pj);
                      };
                    };
                  })
                  true true,
              completed start completion,
            ))

  unfoldable pub refresh :
      EvidenceMemory D G → ℕ → ℕ → Attempt (EvidenceMemory D G × EvidenceOperation)
  unfolding refresh_line
  refresh m byte_address issue_cycle =
      let key = logical_line byte_address in
      elim (lookup key m.lines) [
        | none ↦ returned (count_missing m, failure missing issue_cycle)
        | some line ↦ refresh_line m key line issue_cycle
      ]
