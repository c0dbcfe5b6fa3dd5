-- ===== src/Workload/Placement.antt =====
-- sim/workload_trace.cpp: the class that a policy gives an allocation, and its migration.
use programmable_retention_t.Prelude.{
  ℕ, zero, suc, ◌+◌, max, Bool, true, false, not, ltb, if◌then◌else◌, add64, lookup, Entries,
  RetentionClass, ephemeral, epoch, durable, same_class,
}
use programmable_retention_t.Prelude.Exceptions.{Attempt, returned, ◌>>=◌}
use programmable_retention_t.RetentionModel.{Platform, line_bytes}
use programmable_retention_t.EvidenceModel.Types.{EvidenceMemory, DeviceProfile}
use programmable_retention_t.EvidenceModel.Capacity.{can_fit, reserve_range}
use programmable_retention_t.EvidenceModel.Migration.{migrate}
use programmable_retention_t.Workload.Events.{Event}
use programmable_retention_t.Workload.Oracle.{or_zero}
use programmable_retention_t.Workload.Counters.{
  ReplayPolicy, Allocation, ReplayStatistics, bump, mul64, with_structure, mark_class,
  add_live_bytes, remove_live_bytes, record_failure, hint_policy, ephemeral_policy, epoch_policy,
  durable_policy, oracle_policy, refresh_policy, adaptive_policy,
}

unfoldable pub next_class : RetentionClass → RetentionClass
next_class ephemeral = epoch
next_class epoch = durable
next_class durable = durable

abbrev pub is_durable : RetentionClass → Bool
is_durable c = same_class c durable

abbrev pub is_adaptive : ReplayPolicy → Bool
is_adaptive adaptive_policy = true
is_adaptive hint_policy = false
is_adaptive ephemeral_policy = false
is_adaptive epoch_policy = false
is_adaptive durable_policy = false
is_adaptive oracle_policy = false
is_adaptive refresh_policy = false

unfoldable pub oracle_class : {D : Type 0} → ℕ → DeviceProfile D → RetentionClass
oracle_class age profile =
    if ltb age profile.banks.of_ephemeral.retention_cycles
    then ephemeral
    else (if ltb age profile.banks.of_epoch.retention_cycles then epoch else durable)

unfoldable pub selected_class :
    {D : Type 0} → ReplayPolicy → Event → Entries ℕ → DeviceProfile D → RetentionClass
unfolding oracle_class
selected_class hint_policy allocation ages profile = allocation.hint
selected_class refresh_policy allocation ages profile = allocation.hint
selected_class adaptive_policy allocation ages profile = allocation.hint
selected_class ephemeral_policy allocation ages profile = ephemeral
selected_class epoch_policy allocation ages profile = epoch
selected_class durable_policy allocation ages profile = durable
selected_class oracle_policy allocation ages profile =
    oracle_class (or_zero (lookup allocation.buffer ages)) profile

module _ {D G : Type 0} where
  -- The `while` loop of `reserve_with_policy`. It makes at most two rounds, since a class has at most
  -- two stronger ones.
  unfoldable pub reserve_stronger :
      ℕ
      → EvidenceMemory D G
      → ℕ
      → ℕ
      → RetentionClass
      → Attempt (EvidenceMemory D G × RetentionClass × Bool)
  unfolding reserve_range next_class
  reserve_stronger zero m base line_count selected = returned (m, selected, false)
  reserve_stronger (suc rounds) m base line_count selected = elim (is_durable selected) [
    | true ↦ returned (m, selected, false)
    | false ↦ reserve_range m base line_count (next_class selected) >>= λ r. elim r.1 [
      | true ↦ returned (r.0, next_class selected, true)
      | false ↦ reserve_stronger rounds r.0 base line_count (next_class selected)
    ]
  ]

  unfoldable pub reserve_with_policy :
      EvidenceMemory D G
      → ReplayPolicy
      → RetentionClass
      → ℕ
      → ℕ
      → Attempt (EvidenceMemory D G × RetentionClass × Bool)
  unfolding reserve_stronger
  reserve_with_policy m policy requested base line_count =
      reserve_range m base line_count requested >>= λ r.
      if r.1
      then returned (r.0, requested, true)
      else (if not (is_adaptive policy)
          then returned (r.0, requested, false)
          else reserve_stronger 2 r.0 base line_count requested)

-- What `migrate_allocation` and `ensure_retained` change: the memory, the allocation, the completion
-- cycle and the counters; and their result.
pub record Moved (D G : Type 0) : Type 0 where
  pub memory : EvidenceMemory D G
  pub allocation : Allocation
  pub completion : ℕ
  pub replay : ReplayStatistics
  pub success : Bool

module _ {D G : Type 0} ⦃p : Platform D G⦄ where
  -- The loop over the lines of an allocation, with the lines left and the current line.
  unfoldable pub migrate_lines :
      ℕ
      → ℕ
      → EvidenceMemory D G
      → Allocation
      → RetentionClass
      → ℕ
      → ReplayStatistics
      → Bool
      → Attempt (Moved D G)
  unfolding migrate record_failure
  migrate_lines zero line m allocation destination completion replay maintenance =
      returned (record {
        memory = m;
        allocation = allocation;
        completion = completion;
        replay = replay;
        success = true;
      })
  migrate_lines (suc left) line m allocation destination completion replay maintenance =
      migrate m (add64 allocation.base (mul64 line line_bytes)) destination completion >>= λ r.
      elim r.1.success [
        | true ↦
            migrate_lines left (line + 1) r.0 allocation destination
              (max completion r.1.completion_cycle) replay maintenance
        | false ↦ returned (record {
          memory = r.0;
          allocation = allocation;
          completion = completion;
          replay = record_failure replay r.1.failure maintenance true;
          success = false;
        })
      ]

  -- The bookkeeping behind a loop that moved every line.
  unfoldable pub finish_move : RetentionClass → Moved D G → Attempt (Moved D G)
  unfolding remove_live_bytes add_live_bytes
  finish_move destination moved =
      remove_live_bytes moved.replay moved.allocation.retention_class moved.allocation.size
      >>= λ lowered. add_live_bytes lowered destination moved.allocation.size >>= λ raised.
          returned (record moved {
            allocation = record moved.allocation { retention_class = destination };
            replay = with_structure raised moved.allocation.name (mark_class destination);
          })

  unfoldable pub migrate_allocation :
      EvidenceMemory D G
      → Allocation
      → RetentionClass
      → ℕ
      → ReplayStatistics
      → Bool
      → Attempt (Moved D G)
  unfolding migrate_lines finish_move can_fit
  migrate_allocation m allocation destination issue_cycle replay maintenance =
      let unmoved : Moved D G = record {
        memory = m;
        allocation = allocation;
        completion = issue_cycle;
        replay = replay;
        success = true;
      } in
      if same_class allocation.retention_class destination
      then returned unmoved
      else (if not (can_fit m destination allocation.line_count)
          then returned (record unmoved {
            replay = if maintenance then replay else record replay {
              unsafe_accesses = bump replay.unsafe_accesses;
              failures = record replay.failures {
                migration_failures = bump replay.failures.migration_failures;
              };
            };
            success = false;
          })
          else (migrate_lines allocation.line_count 0 m allocation destination issue_cycle replay
                maintenance
              >>= λ moved. if moved.success then finish_move destination moved else returned moved))
