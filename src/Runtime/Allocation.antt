-- ===== src/Runtime/Allocation.antt =====
-- src/rtmem.cpp: `rt_alloc`.
use Prim.Native.Nat.{bit_and}
use programmable_retention_t.Prelude.{
  ℕ, ◌+◌, ◌-◌, max, Bool, true, not, ◌&&◌, ◌||◌, Option, none, some, ◌==◌, leb, if◌then◌else◌,
  add64, lookup, insert, RetentionClass, at, put, PerClass, [], ◌∷◌, ◌++◌,
}
use programmable_retention_t.Prelude.Exceptions.{Attempt, returned, undefined}
use programmable_retention_t.Runtime.Types.{
  Status, success, invalid_argument, no_memory, invalid_state, backend_error, active, Runtime,
  RuntimeStats, Buffer, Region, Backend, TraceSink, reply, bad_alloc, exception, now_locked, Reply,
  reply, bad_alloc, exception,
}
use programmable_retention_t.Runtime.Storage.{destroy_allocation, capacity_check_locked}
use programmable_retention_t.Runtime.Maintenance.{succeeded}

abbrev pub total_active_bytes : PerClass ℕ → ℕ
total_active_bytes bytes =
    add64 (add64 (add64 0 bytes.of_ephemeral) bytes.of_epoch) bytes.of_durable

-- The statistics of a region and of the runtime after an allocation.
abbrev pub grown_region : Region → ℕ → ℕ → Region
grown_region r h size = record r {
  buffers = r.buffers ++ h ∷ [];
  stats = record r.stats {
    allocations = add64 r.stats.allocations 1;
    active_buffers = add64 r.stats.active_buffers 1;
    active_bytes = add64 r.stats.active_bytes size;
    peak_active_bytes = max r.stats.peak_active_bytes (add64 r.stats.active_bytes size);
  };
}

abbrev pub grown_stats : RuntimeStats → RetentionClass → ℕ → RuntimeStats
grown_stats stats c size =
    let bytes = put c (add64 (at c stats.active_bytes) size) stats.active_bytes in
    record stats {
      allocations = add64 stats.allocations 1;
      active_buffers = add64 stats.active_buffers 1;
      active_bytes = bytes;
      peak_active_bytes = max stats.peak_active_bytes (total_active_bytes bytes);
    }

module _ {B A W : Type 0} ⦃be : Backend B A⦄ ⦃tr : TraceSink W⦄ where
  abbrev pub count_failure : Runtime B A W → Runtime B A W
  count_failure rt = record rt {
    stats = record rt.stats { allocation_failures = add64 rt.stats.allocation_failures 1 };
  }

  -- The buffer object that `rt_alloc` fills in.
  unfoldable pub new_buffer : Runtime B A W → ℕ → Region → A → ℕ → ℕ → Buffer A
  unfolding now_locked
  new_buffer rt key r allocation size alignment = record {
    region = key;
    allocation = some allocation;
    exposed_pointer = none;
    size_bytes = size;
    alignment = alignment;
    retention_class = r.policy.retention_class;
    guarantee = r.policy.guarantee;
    on_expiry = r.policy.on_expiry;
    promotion_target = r.policy.promotion_target;
    state = active;
    map_count = 0;
    map_flags = 0;
    created_tick = now_locked rt;
    last_write_tick = now_locked rt;
    generation = 0;
    trace_id = rt.next_trace_id;
    trace_live = true;
  }

  -- The end of `rt_alloc`, once the trace has the event.
  unfoldable pub commit_buffer : Runtime B A W → ℕ → Region → Buffer A → Runtime B A W
  commit_buffer rt key r b = record rt {
    heap = insert rt.next_handle b rt.heap;
    regions = insert key (grown_region r rt.next_handle b.size_bytes) rt.regions;
    stats = grown_stats rt.stats b.retention_class b.size_bytes;
    next_handle = rt.next_handle + 1;
  }

  -- The trace event of an allocation, and the roll-back if it cannot be written.
  unfoldable pub trace_and_commit :
      Runtime B A W → ℕ → Region → Buffer A → Runtime B A W × Status × Option ℕ
  unfolding commit_buffer
  trace_and_commit rt key r b = elim rt.trace [
    | none ↦ (commit_buffer rt key r b, success, some rt.next_handle)
    | some w ↦
        let (w', written) =
          tr.trace_allocation w b.created_tick b.trace_id b.size_bytes b.alignment b.retention_class
            r.debug_name in
        let rt' = record rt { trace = some w' } in
        if written then (commit_buffer rt' key r b, success, some rt.next_handle) else (
          count_failure (record rt' {
            backend = destroy_allocation rt'.backend b.allocation;
            last_error = tr.writer_error w';
          }),
          backend_error,
          none,
        )
  ]

  -- The answer of `backend->allocate`.
  unfoldable pub after_allocate :
      Runtime B A W → ℕ → Region → ℕ → ℕ → B × Reply A → Runtime B A W × Status × Option ℕ
  unfolding new_buffer trace_and_commit
  after_allocate rt key r size alignment (backend, bad_alloc) = (
    count_failure (record rt { backend = backend; last_error = "cannot allocate buffer metadata" }),
    no_memory,
    none,
  )
  after_allocate rt key r size alignment (backend, exception message) =
      (count_failure (record rt { backend = backend; last_error = message }), backend_error, none)
  after_allocate rt key r size alignment (backend, reply allocation) =
      let used = record rt { backend = backend } in
      trace_and_commit (record used { next_trace_id = add64 used.next_trace_id 1 }) key r
        (new_buffer used key r allocation size alignment)

  unfoldable pub alloc_locked :
      Runtime B A W → ℕ → Region → ℕ → ℕ → Runtime B A W × Status × Option ℕ
  unfolding capacity_check_locked after_allocate
  alloc_locked rt key r size alignment =
      if not r.is_active
      then (record rt { last_error = "cannot allocate from an ended region" }, invalid_state, none)
      else (let (rt', status) = capacity_check_locked rt r.policy.retention_class size in
          if not (succeeded status)
          then (count_failure rt', status, none)
          else after_allocate rt' key r size alignment
              (be.allocate rt'.backend r.policy.retention_class size alignment))

-- `sizeof(void*)` of the 64-bit hosts.
abbrev pub pointer_bytes : ℕ
pointer_bytes = 8

unfoldable pub valid_alignment : ℕ → Bool
valid_alignment alignment = leb pointer_bytes alignment && bit_and alignment (alignment - 1) == 0

module _ {B A W : Type 0} ⦃be : Backend B A⦄ ⦃tr : TraceSink W⦄ where
  unfoldable pub rt_alloc :
      Runtime B A W → Option ℕ → ℕ → ℕ → Attempt (Runtime B A W × Status × Option ℕ)
  unfolding alloc_locked valid_alignment
  rt_alloc rt none size alignment = returned (rt, invalid_argument, none)
  rt_alloc rt (some key) size alignment =
      if size == 0 || not (valid_alignment alignment)
      then returned (rt, invalid_argument, none)
      else elim (lookup key rt.regions) [
        | none ↦ undefined
        | some r ↦ returned (alloc_locked rt key r size alignment)
      ]
