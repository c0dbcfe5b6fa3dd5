-- ===== src/RetentionModel/Types.antt =====
-- sim/retention_model.hpp: the banks, their lines, the directory and the counters, and what the
-- model takes from the C++ library.
use programmable_retention_t.Prelude.{
  ℕ, ◌/◌, String, Bool, true, false, List, [], replicate, RetentionClass, ephemeral, epoch, durable,
  PerClass, Option, none, some, if◌then◌else◌, ◌||◌,
}
use text.Mathlib.Text.{◌==◌ as str_eq}

-- `double`, `std::exp`, and the engine with the distribution behind `uniform_(rng_)`.
pub record Platform (D G : Type 0) : Type 0 where
  pub zero_double : D
  pub one_double : D
  pub add : D → D → D
  pub sub : D → D → D
  pub mul : D → D → D
  pub div : D → D → D
  pub negate : D → D
  pub exp : D → D
  pub of_uint64 : ℕ → D
  pub less : D → D → Bool
  pub seeded : ℕ → G
  pub uniform : G → D × G

pub data ErrorMode : Type 0 where
  deterministic stochastic : ErrorMode

pub record BankConfig (D : Type 0) : Type 0 where
  pub name : String
  pub capacity_lines : ℕ
  pub retention_cycles : ℕ
  pub read_cycles : ℕ
  pub write_cycles : ℕ
  pub read_energy_pj : D
  pub write_energy_pj : D

-- `Result`, named for the operations that return it.
pub record Outcome : Type 0 where
  pub success : Bool
  pub expired : Bool
  pub value : ℕ
  pub latency_cycles : ℕ
  pub message : String

pub record Statistics (D : Type 0) : Type 0 where
  pub reads : ℕ
  pub read_hits : ℕ
  pub read_misses : ℕ
  pub writes : ℕ
  pub refreshes : ℕ
  pub migrations : ℕ
  pub invalidations : ℕ
  pub expirations : ℕ
  pub capacity_failures : ℕ
  pub energy_pj : D

pub record Line : Type 0 where
  pub valid : Bool
  pub retention_failed : Bool
  pub logical_line : ℕ
  pub value : ℕ
  pub last_write_cycle : ℕ
  pub last_retention_check : ℕ

-- `Line{}`
abbrev pub empty_line : Line
empty_line = record {
  valid = false;
  retention_failed = false;
  logical_line = 0;
  value = 0;
  last_write_cycle = 0;
  last_retention_check = 0;
}

-- A line as a completed write leaves it.
abbrev pub fresh_line : ℕ → ℕ → ℕ → Line
fresh_line line_address value cycle = record {
  valid = true;
  retention_failed = false;
  logical_line = line_address;
  value = value;
  last_write_cycle = cycle;
  last_retention_check = cycle;
}

pub record Bank (D : Type 0) : Type 0 where
  pub config : BankConfig D
  pub lines : List Line

pub record Location : Type 0 where
  pub retention_class : RetentionClass
  pub slot : ℕ

pub record RetentionMemory (D G : Type 0) : Type 0 where
  pub banks : PerClass (Bank D)
  pub directory : List (ℕ × Location)
  pub error_mode : ErrorMode
  pub rng : G
  pub now : ℕ
  pub stats : Statistics D

-- `kLineBytes`
abbrev pub line_bytes : ℕ
line_bytes = 64

unfoldable pub logical_line : ℕ → ℕ
logical_line byte_address = byte_address / line_bytes

abbrev pub class_name : RetentionClass → String
class_name ephemeral = "EPHEMERAL"
class_name epoch = "EPOCH"
class_name durable = "DURABLE"

-- `parse_retention_class`; `none` is `std::invalid_argument`.
unfoldable pub parse_retention_class : String → Option RetentionClass
parse_retention_class text =
    if str_eq text "EPHEMERAL" || str_eq text "FAST"
    then some ephemeral
    else (if str_eq text "EPOCH" || str_eq text "MEDIUM"
        then some epoch
        else (if str_eq text "DURABLE" || str_eq text "PERSISTENT" then some durable else none))

-- `Statistics{}`
abbrev pub empty_statistics : {D : Type 0} → D → Statistics D
empty_statistics zero_energy = record {
  reads = 0;
  read_hits = 0;
  read_misses = 0;
  writes = 0;
  refreshes = 0;
  migrations = 0;
  invalidations = 0;
  expirations = 0;
  capacity_failures = 0;
  energy_pj = zero_energy;
}

unfoldable pub make_bank : {D : Type 0} → BankConfig D → Bank D
make_bank config = record { config = config; lines = replicate config.capacity_lines empty_line }

unfoldable pub make_banks : {D : Type 0} → PerClass (BankConfig D) → PerClass (Bank D)
unfolding make_bank
make_banks configs = record {
  of_ephemeral = make_bank configs.of_ephemeral;
  of_epoch = make_bank configs.of_epoch;
  of_durable = make_bank configs.of_durable;
}

-- The constructor `RetentionMemory(configs, mode, seed)`.
unfoldable pub make_memory :
    {D G : Type 0} → Platform D G → PerClass (BankConfig D) → ErrorMode → ℕ → RetentionMemory D G
unfolding make_banks
make_memory p configs mode seed = record {
  banks = make_banks configs;
  directory = [];
  error_mode = mode;
  rng = p.seeded seed;
  now = 0;
  stats = empty_statistics p.zero_double;
}
