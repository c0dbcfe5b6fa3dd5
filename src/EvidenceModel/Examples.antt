-- ===== src/EvidenceModel/Examples.antt =====
-- A small profile with two ephemeral channels, tests of the operations, and the theorems of this
-- component at inputs that meet their hypotheses.
use programmable_retention_t.Prelude.{
  Bool, ◌+◌, ◌<◌, ◌⊎◌, erase, ℕ, suc, ◌^◌, ◌≤◌, add64, true, false, List, [], ◌∷◌, ◌≡◌, refl, arith,
  RetentionClass, ephemeral, epoch, durable, at, set, lookup, insert,
}
use programmable_retention_t.Prelude.Exceptions.{Attempt, returned, thrown, undefined, Ensures}
use programmable_retention_t.RetentionModel.{deterministic}
use programmable_retention_t.RetentionModel.Examples.{counting, small_configs}
use programmable_retention_t.EvidenceModel.Types.{
  EvidenceMemory, EvidenceLineStatus, Line, Scheduled, DeviceProfile, make_evidence, logical_line,
}
use programmable_retention_t.EvidenceModel.Schedule.{schedule, retention_failed}
use programmable_retention_t.EvidenceModel.Capacity.{reserve_range, release_range, emplace}
use programmable_retention_t.EvidenceModel.Queries.{line_status, earliest_start_cycle}
use programmable_retention_t.EvidenceModel.Accounting.{IsAccounted, used, capacity_of}
use programmable_retention_t.EvidenceModel.Memory.{write}
use programmable_retention_t.EvidenceModel.Reservations.{reserve_range-IsAccounted}
use programmable_retention_t.EvidenceModel.Restoring.{reserve_range-release_range}
use programmable_retention_t.EvidenceModel.Ranges.{
  HasReserved, HasReleased, reserve_range-HasReserved, release_range-HasReleased,
}
use programmable_retention_t.EvidenceModel.Timing.{
  IsLeast, earliest_start_cycle-schedule, retention_failed-deadline,
}
use programmable_retention_t.EvidenceModel.Histories.{
  Call, reserves, releases, reads, writes, migrates, IsUsable, run, make_evidence-IsAccounted,
  run-make_evidence-IsAccounted,
}

abbrev pub two_channels : DeviceProfile ℕ
two_channels = record {
  version = 2;
  profile_id = "example";
  source = "example";
  fingerprint = "builtin";
  tick_ns = 1;
  profile_line_bytes = 64;
  controller_access_pj = 1;
  metadata_access_pj = 1;
  ecc_read_pj = 1;
  ecc_write_pj = 1;
  migration_setup_pj = 1;
  migration_setup_cycles = 3;
  banks = small_configs;
  static_power_mw = record { of_ephemeral = 1; of_epoch = 1; of_durable = 1 };
  channels = record { of_ephemeral = 2; of_epoch = 1; of_durable = 1 };
}

pub two_channels-IsUsable : IsUsable two_channels
two_channels-IsUsable = record { has_channels = channels; word_capacity = words }
  where
    channels : (c : RetentionClass) → 1 ≤ at c two_channels.channels
    channels ephemeral = omega arith
    channels epoch = omega arith
    channels durable = omega arith

    words : (c : RetentionClass) → suc (at c two_channels.banks).capacity_lines ≤ 2 ^ 64
    words ephemeral = omega arith
    words epoch = omega arith
    words durable = omega arith

abbrev idle : EvidenceMemory ℕ ℕ
idle = make_evidence counting two_channels deterministic 1

idle-IsAccounted : IsAccounted idle
idle-IsAccounted = make_evidence-IsAccounted two_channels deterministic 1 two_channels-IsUsable

abbrev calls : List Call
calls =
    reserves 0 2 ephemeral
    ∷ writes 64 ephemeral 0
    ∷ reads 64 5
    ∷ migrates 64 durable 20
    ∷ releases 0 1
    ∷ []

run-make_evidence-IsAccounted_example : Ensures (run idle calls) IsAccounted
run-make_evidence-IsAccounted_example =
    run-make_evidence-IsAccounted ℕ two_channels deterministic 1 calls two_channels-IsUsable

or_idle : Attempt (EvidenceMemory ℕ ℕ) → EvidenceMemory ℕ ℕ
or_idle (returned m) = m
or_idle (thrown message) = idle
or_idle undefined = idle

-- The lines and the usage after a call that returned.
after : {B : Type 0} → Attempt (EvidenceMemory ℕ ℕ × B) → EvidenceMemory ℕ ℕ
after (returned (m, b)) = m
after (thrown message) = idle
after undefined = idle

reserved : EvidenceMemory ℕ ℕ
unfolding reserve_range make_evidence after
reserved = after (reserve_range idle 64 2 ephemeral)

written : EvidenceMemory ℕ ℕ
unfolding reserved write
written = after (write reserved 64 ephemeral 7)

reserve-test : (at ephemeral reserved.banks).used_lines ≡ 2
unfolding reserved logical_line lookup emplace add64 insert
reserve-test = refl

abbrev two : ℕ
two = 2

reserve_range-HasReserved_example :
    (after : EvidenceMemory ℕ ℕ) × (granted : Bool) × (reserve_range idle 64 2 ephemeral
      ≡ returned (after, granted))
    × (((granted ≡ true)
          × (0 < 2)
          × (used idle ephemeral + 2 ≤ capacity_of idle ephemeral)
          × HasReserved idle after (logical_line 64) 2 ephemeral)
        ⊎ ((granted ≡ false)
            × ((two ≡ 0) ⊎ (capacity_of idle ephemeral < used idle ephemeral + 2))
            × (after.lines ≡ idle.lines)
            × (after.banks ≡ idle.banks)))
unfolding lookup make_evidence
reserve_range-HasReserved_example =
    reserve_range-HasReserved idle 64 2 ephemeral idle-IsAccounted (λ j lo hi. refl)

reserved-IsAccounted : IsAccounted reserved
unfolding reserved make_evidence after reserve_range logical_line lookup emplace add64 insert
reserved-IsAccounted = (reserve_range-IsAccounted idle 64 2 ephemeral idle-IsAccounted).0

-- The range holds the second of the two reserved lines.
release_range-HasReleased_example :
    (after : EvidenceMemory ℕ ℕ) × (release_range reserved 128 3 ≡ returned after)
    × HasReleased reserved after (logical_line 128) 0 3
release_range-HasReleased_example = release_range-HasReleased reserved 128 3 reserved-IsAccounted

reserve_range-release_range_example :
    (after : EvidenceMemory ℕ ℕ) × (release_range reserved 64 2 ≡ returned after)
    × ((key : ℕ) → lookup key after.lines ≡ lookup key idle.lines)
    × ((d : RetentionClass) → used after d ≡ used idle d)
unfolding reserved make_evidence after reserve_range logical_line lookup emplace add64 insert
reserve_range-release_range_example =
    reserve_range-release_range idle reserved 64 2 ephemeral idle-IsAccounted (λ j lo hi. refl) refl

-- One of the two lines is left in the class.
release-test : (at ephemeral (or_idle (release_range reserved 128 3)).banks).used_lines ≡ 1
unfolding or_idle reserved logical_line lookup emplace add64 insert erase release_range
release-test = refl

earliest_start_cycle-schedule_example :
    (n : EvidenceMemory ℕ ℕ) × (r : Scheduled) × (selected ready : ℕ) × (schedule idle ephemeral 7 2
      ≡ returned (n, r))
    × (r.start ≡ 7)
    × (7 ≤ 7)
    × (r.completion ≡ 9)
    × IsLeast (at ephemeral idle.banks).channel_ready selected ready
    × ((at ephemeral n.banks).channel_ready
        ≡ set (at ephemeral idle.banks).channel_ready selected r.completion)
unfolding make_evidence earliest_start_cycle
earliest_start_cycle-schedule_example =
    earliest_start_cycle-schedule idle ephemeral 7 2 7 refl (omega arith) (omega arith)
      (omega arith)

abbrev written_line : Line
written_line = record {
  initialized = true;
  failed = false;
  retention_class = ephemeral;
  last_write_cycle = 9;
  last_retention_check = 9;
}

abbrev written_status : EvidenceLineStatus
written_status = record {
  present = true;
  initialized = true;
  failed = false;
  retention_class = ephemeral;
  last_write_cycle = 9;
  deadline_cycle = 137;
}

retention_failed-deadline_example :
    retention_failed written written_line (at ephemeral written.profile.banks) 137
    ≡ returned (true, record written_line { failed = true }, written.rng)
unfolding written logical_line lookup emplace add64 insert line_status
retention_failed-deadline_example =
    retention_failed-deadline written 64 137 written_line written_status refl refl refl refl refl
      (omega arith) (omega arith)
