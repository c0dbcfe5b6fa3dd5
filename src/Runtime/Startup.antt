-- ===== src/Runtime/Startup.antt =====
-- src/rtmem.cpp: creating a runtime, and what a program can ask of one. A structure of the caller gives its
-- size; an enumeration's value outside its range is `none`, and so is a null pointer.
use programmable_retention_t.Prelude.{
  ℕ, String, Bool, true, not, ◌||◌, Option, none, some, ◌==◌, ltb, if◌then◌else◌, lookup, PerClass,
}
use programmable_retention_t.Prelude.Exceptions.{Attempt, returned, undefined}
use text.Mathlib.Text.{◌==◌ as str_eq}
use programmable_retention_t.Runtime.Types.{
  Status, success, invalid_argument, no_memory, unsupported, backend_error, ClockMode,
  RuntimeOptions, RuntimeStats, RegionStats, Runtime, Reply, reply, bad_alloc, exception,
}
use programmable_retention_t.Runtime.Creation.{default_options, make_runtime}

-- `rt_backend`
pub data BackendKind : Type 0 where
  host_emulated xrt avalon : BackendKind

-- An `rt_runtime_options` as the caller fills it in.
pub record OptionsArgument : Type 0 where
  pub struct_size : ℕ
  pub api_version : ℕ
  pub backend : Option BackendKind
  pub clock_mode : Option ClockMode
  pub tick_ns : ℕ
  pub poll_guard_ticks : ℕ
  pub class_retention_ticks : PerClass ℕ
  pub class_capacity_bytes : PerClass ℕ

-- An `rt_xrt_options`, as far as it is checked.
pub record XrtArgument : Type 0 where
  pub struct_size : ℕ
  pub xclbin_path : Option String
  pub migration_kernel_name : Option String

-- `sizeof(rt_runtime_options)`, `sizeof(rt_xrt_options)`, `RTMEM_API_VERSION`
abbrev pub options_bytes : ℕ
options_bytes = 88

abbrev pub xrt_options_bytes : ℕ
xrt_options_bytes = 40

abbrev pub api_version_now : ℕ
api_version_now = 0x0001_0000

abbrev pub is_missing : Option String → Bool
is_missing none = true
is_missing (some text) = str_eq text ""

-- The checks on the structure of the options.
abbrev pub bad_options : OptionsArgument → Bool
bad_options o =
    ltb o.struct_size options_bytes || not (o.api_version == api_version_now) || o.tick_ns == 0

abbrev pub bad_xrt_options : Option XrtArgument → Bool
bad_xrt_options none = true
bad_xrt_options (some x) =
    ltb x.struct_size xrt_options_bytes
    || is_missing x.xclbin_path
    || is_missing x.migration_kernel_name

-- `rt_runtime_options_init` on the caller's structure.
abbrev pub default_argument : OptionsArgument
default_argument = record {
  struct_size = options_bytes;
  api_version = api_version_now;
  backend = some host_emulated;
  clock_mode = some default_options.clock_mode;
  tick_ns = default_options.tick_ns;
  poll_guard_ticks = default_options.poll_guard_ticks;
  class_retention_ticks = default_options.class_retention_ticks;
  class_capacity_bytes = default_options.class_capacity_bytes;
}

abbrev pub options_of : OptionsArgument → ClockMode → RuntimeOptions
options_of o clock_mode = record {
  clock_mode = clock_mode;
  tick_ns = o.tick_ns;
  poll_guard_ticks = o.poll_guard_ticks;
  class_retention_ticks = o.class_retention_ticks;
  class_capacity_bytes = o.class_capacity_bytes;
}

-- `make_host` and `make_xrt` are what making the backends gives.
module _ {B A W : Type 0} (make_host make_xrt : Reply B) where
  abbrev pub start_on : RuntimeOptions → Reply B → Status × Option (Runtime B A W)
  start_on options (reply backend) = (success, some (make_runtime options backend))
  start_on options bad_alloc = (no_memory, none)
  start_on options (exception message) = (backend_error, none)

  -- The checks on the modes, and the backend.
  unfoldable pub start_runtime :
      OptionsArgument
      → Option ClockMode
      → Option BackendKind
      → Option XrtArgument
      → Status × Option (Runtime B A W)
  unfolding make_runtime
  start_runtime o none backend x = (invalid_argument, none)
  start_runtime o (some clock_mode) none x = (unsupported, none)
  start_runtime o (some clock_mode) (some avalon) x = (unsupported, none)
  start_runtime o (some clock_mode) (some host_emulated) x =
      start_on (options_of o clock_mode) make_host
  start_runtime o (some clock_mode) (some xrt) x =
      if bad_xrt_options x
      then (invalid_argument, none)
      else start_on (options_of o clock_mode) make_xrt

  unfoldable pub create_runtime :
      Option OptionsArgument → Option XrtArgument → Status × Option (Runtime B A W)
  unfolding start_runtime default_options
  create_runtime none x =
      start_runtime default_argument default_argument.clock_mode default_argument.backend x
  create_runtime (some o) x =
      if bad_options o then (invalid_argument, none) else start_runtime o o.clock_mode o.backend x

  unfoldable pub rt_runtime_create : Option OptionsArgument → Status × Option (Runtime B A W)
  unfolding create_runtime
  rt_runtime_create options = create_runtime options none

  unfoldable pub rt_runtime_create_xrt :
      Option OptionsArgument → Option XrtArgument → Status × Option (Runtime B A W)
  unfolding create_runtime default_options
  rt_runtime_create_xrt none x =
      create_runtime (some (record default_argument { backend = some xrt })) x
  rt_runtime_create_xrt (some o) x =
      if bad_options o
      then (invalid_argument, none)
      else create_runtime (some (record o { backend = some xrt })) x

-- `sizeof(rt_runtime_stats)` and `sizeof(rt_region_stats)`
abbrev pub stats_bytes : ℕ
stats_bytes = 128

abbrev pub region_stats_bytes : ℕ
region_stats_bytes = 40

module _ {B A W : Type 0} where
  -- The size is that of the caller's structure, `none` for a null pointer.
  unfoldable pub rt_runtime_get_stats : Runtime B A W → Option ℕ → Status × Option RuntimeStats
  rt_runtime_get_stats rt none = (invalid_argument, none)
  rt_runtime_get_stats rt (some size) =
      if ltb size stats_bytes then (invalid_argument, none) else (success, some rt.stats)

  unfoldable pub rt_region_get_stats :
      Runtime B A W → Option ℕ → Option ℕ → Attempt (Status × Option RegionStats)
  rt_region_get_stats rt none size = returned (invalid_argument, none)
  rt_region_get_stats rt (some key) none = returned (invalid_argument, none)
  rt_region_get_stats rt (some key) (some size) =
      if ltb size region_stats_bytes
      then returned (invalid_argument, none)
      else elim (lookup key rt.regions) [
        | none ↦ undefined
        | some r ↦ returned (success, some r.stats)
      ]
