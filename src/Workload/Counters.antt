-- ===== src/Workload/Counters.antt =====
-- sim/workload_trace.cpp: the policies, the allocations and the counters of a replay. `std::map` with
-- names for keys is a list of names and values.
use Prim.Native.Nat.{bit_or}
use programmable_retention_t.Prelude.{
  ℕ, ◌+◌, ◌-◌, ◌*◌, ◌%◌, max, Bool, List, [], ◌∷◌, ltb, if◌then◌else◌, add64, u64_mod, infinite,
  RetentionClass, ephemeral, epoch, durable, PerClass, at, put,
}
use programmable_retention_t.Prelude.Exceptions.{Attempt, returned, thrown}
use programmable_retention_t.EvidenceModel.Types.{
  EvidenceFailure, no_failure, capacity, missing, uninitialized, expired,
}
use programmable_retention_t.Workload.Text.{Text, same_text}

pub data ReplayPolicy : Type 0 where
  hint_policy ephemeral_policy epoch_policy durable_policy oracle_policy refresh_policy
        adaptive_policy :
      ReplayPolicy

pub record Allocation : Type 0 where
  pub base : ℕ
  pub size : ℕ
  pub line_count : ℕ
  pub retention_class : RetentionClass
  pub name : Text
  pub resident : Bool

pub record ClassStatistics : Type 0 where
  pub allocations : ℕ
  pub allocated_bytes : ℕ
  pub live_bytes : ℕ
  pub peak_live_bytes : ℕ
  pub read_bytes : ℕ
  pub write_bytes : ℕ

pub record StructureStatistics : Type 0 where
  pub allocations : ℕ
  pub allocated_bytes : ℕ
  pub read_bytes : ℕ
  pub write_bytes : ℕ
  pub class_mask : ℕ

pub record FailureStatistics : Type 0 where
  pub allocation_failures : ℕ
  pub capacity_overflow_bytes : ℕ
  pub expired_accesses : ℕ
  pub uninitialized_reads : ℕ
  pub missing_accesses : ℕ
  pub migration_failures : ℕ
  pub maintenance_failures : ℕ
  pub rejected_access_events : ℕ

pub record ReplayStatistics : Type 0 where
  pub allocations : ℕ
  pub frees : ℕ
  pub access_events : ℕ
  pub read_bytes : ℕ
  pub write_bytes : ℕ
  pub compute_cycles : ℕ
  pub phases : ℕ
  pub barriers : ℕ
  pub invalidated_lines : ℕ
  pub unsafe_accesses : ℕ
  pub failures : FailureStatistics
  pub classes : PerClass ClassStatistics
  pub structures : List (Text × StructureStatistics)

abbrev pub empty_class : ClassStatistics
empty_class = record {
  allocations = 0;
  allocated_bytes = 0;
  live_bytes = 0;
  peak_live_bytes = 0;
  read_bytes = 0;
  write_bytes = 0;
}

abbrev pub empty_statistics : ReplayStatistics
empty_statistics = record {
  allocations = 0;
  frees = 0;
  access_events = 0;
  read_bytes = 0;
  write_bytes = 0;
  compute_cycles = 0;
  phases = 0;
  barriers = 0;
  invalidated_lines = 0;
  unsafe_accesses = 0;
  failures = record {
    allocation_failures = 0;
    capacity_overflow_bytes = 0;
    expired_accesses = 0;
    uninitialized_reads = 0;
    missing_accesses = 0;
    migration_failures = 0;
    maintenance_failures = 0;
    rejected_access_events = 0;
  };
  classes = record { of_ephemeral = empty_class; of_epoch = empty_class; of_durable = empty_class };
  structures = [];
}

-- `++counter`
abbrev pub bump : ℕ → ℕ
bump n = add64 n 1

abbrev pub mul64 : ℕ → ℕ → ℕ
mul64 a b = a * b % u64_mod

abbrev pub class_bit : RetentionClass → ℕ
class_bit ephemeral = 1
class_bit epoch = 2
class_bit durable = 4

abbrev pub new_structure : StructureStatistics
new_structure = record {
  allocations = 0;
  allocated_bytes = 0;
  read_bytes = 0;
  write_bytes = 0;
  class_mask = 0;
}

-- An update of `structures[name]`, which makes a new entry if there is none.
unfoldable pub update_structure :
    Text
    → (StructureStatistics → StructureStatistics)
    → List (Text × StructureStatistics)
    → List (Text × StructureStatistics)
update_structure name change [] = (name, change new_structure) ∷ []
update_structure name change ((other, s) ∷ rest) =
    let later = update_structure name change rest in
    if same_text other name then (other, change s) ∷ rest else (other, s) ∷ later

abbrev pub with_class : ReplayStatistics → RetentionClass → ClassStatistics → ReplayStatistics
with_class replay c statistics = record replay { classes = put c statistics replay.classes }

abbrev pub with_structure :
    ReplayStatistics → Text → (StructureStatistics → StructureStatistics) → ReplayStatistics
with_structure replay name change = record replay {
  structures = update_structure name change replay.structures;
}

-- `class_mask |= class_bit(c)`
abbrev pub mark_class : RetentionClass → StructureStatistics → StructureStatistics
mark_class c s = record s { class_mask = bit_or s.class_mask (class_bit c) }

unfoldable pub add_live_bytes : ReplayStatistics → RetentionClass → ℕ → Attempt ReplayStatistics
add_live_bytes replay c bytes =
    let statistics = at c replay.classes in
    if ltb (infinite - bytes) statistics.live_bytes
    then thrown "retention-class live-byte overflow"
    else returned (
        with_class replay c (record statistics {
          live_bytes = statistics.live_bytes + bytes;
          peak_live_bytes = max statistics.peak_live_bytes (statistics.live_bytes + bytes);
        }))

unfoldable pub remove_live_bytes : ReplayStatistics → RetentionClass → ℕ → Attempt ReplayStatistics
remove_live_bytes replay c bytes =
    let statistics = at c replay.classes in
    if ltb statistics.live_bytes bytes
    then thrown "retention-class live-byte underflow"
    else returned
        (with_class replay c (record statistics { live_bytes = statistics.live_bytes - bytes }))

abbrev pub count_failure : EvidenceFailure → FailureStatistics → FailureStatistics
count_failure no_failure f = f
count_failure capacity f = f
count_failure missing f = record f { missing_accesses = bump f.missing_accesses }
count_failure uninitialized f = record f { uninitialized_reads = bump f.uninitialized_reads }
count_failure expired f = record f { expired_accesses = bump f.expired_accesses }

unfoldable pub record_failure : ReplayStatistics → EvidenceFailure → Bool → Bool → ReplayStatistics
record_failure replay failure maintenance migration =
    let f = replay.failures in
    let f' =
      if maintenance then record f { maintenance_failures = bump f.maintenance_failures } else f in
    let f'' =
      if migration then record f' { migration_failures = bump f'.migration_failures } else f' in
    record replay {
      unsafe_accesses = bump replay.unsafe_accesses;
      failures = count_failure failure f'';
    }
