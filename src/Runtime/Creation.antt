-- ===== src/Runtime/Creation.antt =====
-- src/rtmem.cpp: the default options and policy, the texts of the statuses, and new regions. The
-- allocation of a region object is assumed to succeed.
use programmable_retention_t.Prelude.{
  ℕ, ◌+◌, String, Bool, true, false, ◌&&◌, Option, none, some, ltb, leb, if◌then◌else◌, infinite,
  RetentionClass, epoch, durable, class_index, [], ◌∷◌, ◌++◌,
}
use programmable_retention_t.Runtime.Types.{
  Status, success, invalid_argument, no_memory, capacity, expired, invalid_state, unsupported, busy,
  backend_error, manual, Guarantee, required, Policy, RuntimeOptions, ExpiryAction, expiry_error,
  expiry_invalidate, expiry_refresh, expiry_promote, Runtime, now_locked,
}

-- `rt_runtime_options_init`
unfoldable pub default_options : RuntimeOptions
default_options = record {
  clock_mode = manual;
  tick_ns = 1;
  poll_guard_ticks = 8;
  class_retention_ticks = record { of_ephemeral = 128; of_epoch = 4096; of_durable = infinite };
  class_capacity_bytes = record { of_ephemeral = 0; of_epoch = 0; of_durable = 0 };
}

-- `rt_policy_init`
unfoldable pub default_policy : RetentionClass → Policy
default_policy c = record {
  retention_class = c;
  guarantee = required;
  on_expiry = expiry_refresh;
  promotion_target = durable;
}

unfoldable pub rt_status_string : Status → String
rt_status_string success = "success"
rt_status_string invalid_argument = "invalid argument"
rt_status_string no_memory = "out of memory"
rt_status_string capacity = "retention class capacity exceeded"
rt_status_string expired = "retention deadline expired"
rt_status_string invalid_state = "invalid state"
rt_status_string unsupported = "unsupported operation"
rt_status_string busy = "resource busy"
rt_status_string backend_error = "backend error"

-- An `rt_policy` as the caller fills it in: an enumeration's value outside its range is `none`, and
-- `rate_in_range` says that `maximum_bit_error_rate` is neither below 0 nor above 1.
pub record PolicyArgument : Type 0 where
  pub struct_size : ℕ
  pub retention_class : Option RetentionClass
  pub guarantee : Option Guarantee
  pub on_expiry : Option ExpiryAction
  pub promotion_target : Option RetentionClass
  pub rate_in_range : Bool

-- `sizeof(rt_policy)`
abbrev pub policy_bytes : ℕ
policy_bytes = 32

-- The test on the ranges of a policy's fields.
unfoldable pub checked_fields :
    Option RetentionClass
    → Option Guarantee
    → Option ExpiryAction
    → Option RetentionClass
    → Option Policy
checked_fields (some c) (some g) (some action) (some target) =
    some
      (record { retention_class = c; guarantee = g; on_expiry = action; promotion_target = target })
checked_fields _ _ _ _ = none

unfoldable pub checked_policy : PolicyArgument → Option Policy
unfolding checked_fields
checked_policy p =
    if p.rate_in_range
    then checked_fields p.retention_class p.guarantee p.on_expiry p.promotion_target
    else none

abbrev pub promotes : ExpiryAction → Bool
promotes expiry_promote = true
promotes expiry_error = false
promotes expiry_invalidate = false
promotes expiry_refresh = false

module _ {B A W : Type 0} where
  unfoldable pub rt_runtime_now : Runtime B A W → ℕ
  unfolding now_locked
  rt_runtime_now rt = now_locked rt

  unfoldable pub add_region : Runtime B A W → Policy → String → Runtime B A W × Status × Option ℕ
  add_region rt policy debug_name =
      if promotes policy.on_expiry
        && leb (class_index policy.promotion_target) (class_index policy.retention_class)
      then (
        record rt { last_error = "promotion target must be a stronger class" },
        invalid_argument,
        none,
      )
      else (
        record rt {
          regions =
              rt.regions
              ++ (
                rt.next_handle,
                record {
                  policy = policy;
                  debug_name = debug_name;
                  is_active = true;
                  buffers = [];
                  stats = record {
                    allocations = 0;
                    active_buffers = 0;
                    active_bytes = 0;
                    peak_active_bytes = 0;
                  };
                },
              )
                ∷ [];
          next_handle = rt.next_handle + 1;
        },
        success,
        some rt.next_handle,
      )

  -- The answer of the test on the policy.
  unfoldable pub after_check :
      Runtime B A W → String → Option Policy → Runtime B A W × Status × Option ℕ
  unfolding add_region
  after_check rt debug_name none =
      (record rt { last_error = "invalid retention policy" }, invalid_argument, none)
  after_check rt debug_name (some policy) = add_region rt policy debug_name

  unfoldable pub rt_region_create :
      Runtime B A W → Option PolicyArgument → String → Runtime B A W × Status × Option ℕ
  unfolding after_check checked_policy default_policy
  rt_region_create rt none debug_name = add_region rt (default_policy epoch) debug_name
  rt_region_create rt (some argument) debug_name =
      if ltb argument.struct_size policy_bytes
      then (rt, invalid_argument, none)
      else after_check rt debug_name (checked_policy argument)

-- The runtime that `create_runtime` returns for options that it accepts.
unfoldable pub make_runtime : {B A W : Type 0} → RuntimeOptions → B → Runtime B A W
make_runtime options backend = record {
  options = options;
  backend = backend;
  elapsed_ns = 0;
  manual_tick = 0;
  trace = none;
  regions = [];
  heap = [];
  stats = record {
    allocations = 0;
    active_buffers = 0;
    active_bytes = record { of_ephemeral = 0; of_epoch = 0; of_durable = 0 };
    peak_active_bytes = 0;
    map_calls = 0;
    refreshes = 0;
    promotions = 0;
    demotions = 0;
    invalidations = 0;
    expiry_events = 0;
    poll_calls = 0;
    bytes_migrated = 0;
    allocation_failures = 0;
  };
  last_error = "";
  next_handle = 1;
  next_trace_id = 1;
}
