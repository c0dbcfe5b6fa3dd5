-- ===== src/Runtime/Types.antt =====
-- include/rtmem/rtmem.h, src/backend.hpp and the objects of src/rtmem.cpp. Pointers to regions and
-- buffers are numbers, and the objects stand in maps; `none` is the null pointer. A retention class
-- that an argument gives is `none` if its value is outside the enumeration.
use programmable_retention_t.Prelude.{
  ℕ, ◌+◌, ◌/◌, String, Bool, true, false, List, Option, if◌then◌else◌, ◌||◌, ◌==◌, ltb, infinite,
  at, RetentionClass, PerClass, Entries, ◌-◌,
}

-- `rt_status`
pub data Status : Type 0 where
  success invalid_argument no_memory capacity expired invalid_state unsupported busy backend_error :
      Status

pub data ClockMode : Type 0 where
  manual monotonic : ClockMode

pub data Guarantee : Type 0 where
  required preferred approximate : Guarantee

pub data ExpiryAction : Type 0 where
  expiry_error expiry_invalidate expiry_refresh expiry_promote : ExpiryAction

pub data BufferState : Type 0 where
  active invalid expired_state : BufferState

pub record RuntimeOptions : Type 0 where
  pub clock_mode : ClockMode
  pub tick_ns : ℕ
  pub poll_guard_ticks : ℕ
  pub class_retention_ticks : PerClass ℕ
  pub class_capacity_bytes : PerClass ℕ

pub record Policy : Type 0 where
  pub retention_class : RetentionClass
  pub guarantee : Guarantee
  pub on_expiry : ExpiryAction
  pub promotion_target : RetentionClass

pub record RegionStats : Type 0 where
  pub allocations : ℕ
  pub active_buffers : ℕ
  pub active_bytes : ℕ
  pub peak_active_bytes : ℕ

pub record RuntimeStats : Type 0 where
  pub allocations : ℕ
  pub active_buffers : ℕ
  pub active_bytes : PerClass ℕ
  pub peak_active_bytes : ℕ
  pub map_calls : ℕ
  pub refreshes : ℕ
  pub promotions : ℕ
  pub demotions : ℕ
  pub invalidations : ℕ
  pub expiry_events : ℕ
  pub poll_calls : ℕ
  pub bytes_migrated : ℕ
  pub allocation_failures : ℕ

-- `A` is the type of the backend's allocations.
pub record Buffer (A : Type 0) : Type 0 where
  pub region : ℕ
  pub allocation : Option A
  pub exposed_pointer : Option ℕ
  pub size_bytes : ℕ
  pub alignment : ℕ
  pub retention_class : RetentionClass
  pub guarantee : Guarantee
  pub on_expiry : ExpiryAction
  pub promotion_target : RetentionClass
  pub state : BufferState
  pub map_count : ℕ
  pub map_flags : ℕ
  pub created_tick : ℕ
  pub last_write_tick : ℕ
  pub generation : ℕ
  pub trace_id : ℕ
  pub trace_live : Bool

pub record Region : Type 0 where
  pub policy : Policy
  pub debug_name : String
  pub is_active : Bool
  pub buffers : List ℕ
  pub stats : RegionStats

-- `B`, `A` and `W` are the types of the backend, its allocations and the trace writer. The reading of
-- the steady clock since the start, in nanoseconds, is that of the call; it stays the same while the
-- call holds the lock. `next_handle` is an address that the allocator has not given out,
-- and `next_trace_id` the counter that the runtimes of a process share.
pub record Runtime (B A W : Type 0) : Type 0 where
  pub options : RuntimeOptions
  pub backend : B
  pub elapsed_ns : ℕ
  pub manual_tick : ℕ
  pub trace : Option W
  pub regions : Entries Region
  pub heap : Entries (Buffer A)
  pub stats : RuntimeStats
  pub last_error : String
  pub next_handle : ℕ
  pub next_trace_id : ℕ

-- What a backend call does: it returns, or throws `std::bad_alloc` or another exception.
pub data Reply {ℓ} (A : Type ℓ) : Type ℓ where
  reply : A → Reply A
  bad_alloc : Reply A
  exception : String → Reply A

-- `rtmem::internal::backend`, and the destructor of its allocations. `load` and `store` are `memcpy` from
-- and to a pointer that a mapping gave, at an offset.
pub record Backend (B A : Type 0) : Type 0 where
  pub allocate : B → RetentionClass → ℕ → ℕ → B × Reply A
  pub map_allocation : B → A → ℕ → ℕ → B × Reply (Option ℕ)
  pub unmap_allocation : B → A → ℕ → ℕ → B × Reply (Unit {0})
  pub device_address : B → A → Reply ℕ
  pub host_coherent : B → Bool
  pub load : B → ℕ → ℕ → ℕ → List ℕ
  pub store : B → ℕ → ℕ → List ℕ → B
  pub migrate : B → A → RetentionClass → RetentionClass → ℕ → ℕ → B × Reply (Option A)
  pub flush : B → A → ℕ → B × Reply (Unit {0})
  pub destroy : B → A → B

-- `rtmem::internal::trace_writer`, as far as the runtime calls it: each call says whether the event
-- was written.
pub record TraceSink (W : Type 0) : Type 0 where
  pub trace_allocation : W → ℕ → ℕ → ℕ → ℕ → RetentionClass → String → W × Bool
  pub trace_free : W → ℕ → ℕ → W × Bool
  pub trace_hint : W → ℕ → ℕ → RetentionClass → W × Bool
  pub trace_access : W → ℕ → ℕ → Bool → ℕ → ℕ → ℕ → W × Bool
  pub trace_phase : W → ℕ → String → W × Bool
  pub trace_compute : W → ℕ → ℕ → ℕ → W × Bool
  pub trace_barrier : W → ℕ → ℕ → ℕ → W × Bool
  pub flush_writer : W → W × Bool
  pub writer_error : W → String

module _ {B A W : Type 0} where
  -- `set_error`, for messages below the 255 characters that `last_error` keeps.
  abbrev pub set_error : Runtime B A W → Status → String → Runtime B A W × Status
  set_error rt status message = (record rt { last_error = message }, status)

  -- The steady clock is read once for a call, where the source reads it at each use.
  unfoldable pub now_locked : Runtime B A W → ℕ
  now_locked rt = elim rt.options.clock_mode [
    | manual ↦ rt.manual_tick
    | monotonic ↦ rt.elapsed_ns / rt.options.tick_ns
  ]

  unfoldable pub deadline_locked : Runtime B A W → Buffer A → ℕ
  deadline_locked rt b =
      let retention = at b.retention_class rt.options.class_retention_ticks in
      if retention == infinite || ltb (infinite - retention) b.last_write_tick
      then infinite
      else b.last_write_tick + retention

abbrev pub is_live : BufferState → Bool
is_live active = true
is_live invalid = false
is_live expired_state = false
