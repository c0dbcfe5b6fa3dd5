-- ===== src/EvidenceModel/Types.antt =====
-- sim/evidence_model.hpp and sim/device_profile.hpp: profiles, lines, channels and counters.
use programmable_retention_t.Prelude.{
  ℕ, ◌/◌, String, Bool, true, false, List, [], replicate, RetentionClass, PerClass, Entries,
}
use programmable_retention_t.RetentionModel.{Platform, ErrorMode, BankConfig, line_bytes}

pub record DeviceProfile (D : Type 0) : Type 0 where
  pub version : ℕ
  pub profile_id : String
  pub source : String
  pub fingerprint : String
  pub tick_ns : D
  pub profile_line_bytes : ℕ
  pub controller_access_pj : D
  pub metadata_access_pj : D
  pub ecc_read_pj : D
  pub ecc_write_pj : D
  pub migration_setup_pj : D
  pub migration_setup_cycles : ℕ
  pub banks : PerClass (BankConfig D)
  pub static_power_mw : PerClass D
  pub channels : PerClass ℕ

pub data EvidenceFailure : Type 0 where
  no_failure capacity missing uninitialized expired : EvidenceFailure

pub record EvidenceOperation : Type 0 where
  pub success : Bool
  pub failure : EvidenceFailure
  pub start_cycle : ℕ
  pub completion_cycle : ℕ

pub record EvidenceLineStatus : Type 0 where
  pub present : Bool
  pub initialized : Bool
  pub failed : Bool
  pub retention_class : RetentionClass
  pub last_write_cycle : ℕ
  pub deadline_cycle : ℕ

pub record EvidenceEnergy (D : Type 0) : Type 0 where
  pub useful_read_pj : D
  pub useful_write_pj : D
  pub refresh_pj : D
  pub migration_pj : D
  pub controller_pj : D
  pub metadata_pj : D
  pub ecc_pj : D
  pub static_pj : D

pub record EvidenceModelStatistics (D : Type 0) : Type 0 where
  pub read_attempts : ℕ
  pub write_attempts : ℕ
  pub useful_reads : ℕ
  pub useful_writes : ℕ
  pub refreshes : ℕ
  pub migrations : ℕ
  pub expirations : ℕ
  pub uninitialized_reads : ℕ
  pub missing_accesses : ℕ
  pub capacity_failures : ℕ
  pub queue_delay_cycles : ℕ
  pub bank_busy_cycles : PerClass ℕ
  pub energy : EvidenceEnergy D

pub record Line : Type 0 where
  pub initialized : Bool
  pub failed : Bool
  pub retention_class : RetentionClass
  pub last_write_cycle : ℕ
  pub last_retention_check : ℕ

-- A line as `reserve_range` makes it.
abbrev pub reserved_line : RetentionClass → Line
reserved_line c = record {
  initialized = false;
  failed = false;
  retention_class = c;
  last_write_cycle = 0;
  last_retention_check = 0;
}

-- The line after a completed write.
abbrev pub rewritten : Line → RetentionClass → ℕ → Line
rewritten line c completion = record line {
  initialized = true;
  failed = false;
  retention_class = c;
  last_write_cycle = completion;
  last_retention_check = completion;
}

pub record BankState : Type 0 where
  pub used_lines : ℕ
  pub channel_ready : List ℕ

pub record Scheduled : Type 0 where
  pub start : ℕ
  pub completion : ℕ

pub record EvidenceMemory (D G : Type 0) : Type 0 where
  pub profile : DeviceProfile D
  pub error_mode : ErrorMode
  pub rng : G
  pub banks : PerClass BankState
  pub lines : Entries Line
  pub stats : EvidenceModelStatistics D
  pub makespan_cycles : ℕ

unfoldable pub logical_line : ℕ → ℕ
logical_line byte_address = byte_address / line_bytes

module _ {D : Type 0} where
  abbrev pub zero_energy : D → EvidenceEnergy D
  zero_energy zero = record {
    useful_read_pj = zero;
    useful_write_pj = zero;
    refresh_pj = zero;
    migration_pj = zero;
    controller_pj = zero;
    metadata_pj = zero;
    ecc_pj = zero;
    static_pj = zero;
  }

  abbrev pub zero_statistics : D → EvidenceModelStatistics D
  zero_statistics zero = record {
    read_attempts = 0;
    write_attempts = 0;
    useful_reads = 0;
    useful_writes = 0;
    refreshes = 0;
    migrations = 0;
    expirations = 0;
    uninitialized_reads = 0;
    missing_accesses = 0;
    capacity_failures = 0;
    queue_delay_cycles = 0;
    bank_busy_cycles = record { of_ephemeral = 0; of_epoch = 0; of_durable = 0 };
    energy = zero_energy zero;
  }

abbrev pub idle_bank : ℕ → BankState
idle_bank channels = record { used_lines = 0; channel_ready = replicate channels 0 }

-- The constructor `EvidenceMemory(profile, error_mode, seed)`.
unfoldable pub make_evidence :
    {D G : Type 0} → Platform D G → DeviceProfile D → ErrorMode → ℕ → EvidenceMemory D G
make_evidence p profile mode seed = record {
  profile = profile;
  error_mode = mode;
  rng = p.seeded seed;
  banks = record {
    of_ephemeral = idle_bank profile.channels.of_ephemeral;
    of_epoch = idle_bank profile.channels.of_epoch;
    of_durable = idle_bank profile.channels.of_durable;
  };
  lines = [];
  stats = zero_statistics p.zero_double;
  makespan_cycles = 0;
}
