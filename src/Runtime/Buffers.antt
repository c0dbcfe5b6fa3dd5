-- ===== src/Runtime/Buffers.antt =====
-- src/rtmem.cpp: the calls of the C ABI on one buffer. A call on a pointer to no object is undefined.
use programmable_retention_t.Prelude.{
  ℕ, Bool, true, not, ◌&&◌, Option, none, some, ◌==◌, leb, if◌then◌else◌, add64, lookup, insert,
  RetentionClass, class_index, List, [], ◌∷◌,
}
use programmable_retention_t.Prelude.Exceptions.{Attempt, returned, undefined}
use programmable_retention_t.Runtime.Types.{
  Status, success, invalid_argument, busy, backend_error, invalid, Runtime, Buffer, Backend,
  TraceSink, Reply, reply, bad_alloc, exception, set_error, now_locked,
}
use programmable_retention_t.Runtime.Storage.{
  set_buffer, release_storage_locked, validate_active_locked, trace_free_locked, trace_error,
}
use programmable_retention_t.Runtime.Maintenance.{
  succeeded, touched, refreshed, count_invalidation, reclassify_locked,
}

abbrev pub map_read : ℕ
map_read = 1

abbrev pub map_write : ℕ
map_write = 2

-- `(flags & (READ | WRITE)) != 0 && (flags & ~(READ | WRITE)) == 0`
abbrev pub valid_flags : ℕ → Bool
valid_flags flags = not (flags == 0) && leb flags 3

-- `(flags & RT_MAP_WRITE) != 0`, for flags that are valid.
abbrev pub writes_back : ℕ → Bool
writes_back flags = leb map_write flags

-- `std::find` and `erase` on a vector of pointers.
unfoldable pub remove_first : ℕ → List ℕ → List ℕ
remove_first h [] = []
remove_first h (x ∷ xs) = if x == h then xs else x ∷ remove_first h xs

-- The buffer while it is mapped.
abbrev pub mapped_buffer : {A : Type 0} → Buffer A → ℕ → ℕ → Buffer A
mapped_buffer b flags pointer = record b {
  map_count = 1;
  map_flags = flags;
  exposed_pointer = some pointer;
}

module _ {B A W : Type 0} where
  -- The common frame of the calls: a null buffer is an invalid argument.
  abbrev pub on_buffer :
      Runtime B A W
      → Option ℕ
      → (ℕ → Buffer A → Runtime B A W × Status)
      → Attempt (Runtime B A W × Status)
  on_buffer rt none body = returned (rt, invalid_argument)
  on_buffer rt (some h) body = elim (lookup h rt.heap) [
    | none ↦ undefined
    | some b ↦ returned (body h b)
  ]

module _ {B A W : Type 0} ⦃be : Backend B A⦄ ⦃tr : TraceSink W⦄ where
  -- The part of a call behind the check that the buffer is active.
  unfoldable pub mark_written_active : Runtime B A W → ℕ → Buffer A → Runtime B A W × Status
  unfolding now_locked
  mark_written_active rt h b = (set_buffer rt h (touched b (now_locked rt)), success)

  unfoldable pub mark_written_locked : Runtime B A W → ℕ → Buffer A → Runtime B A W × Status
  unfolding validate_active_locked mark_written_active
  mark_written_locked rt h b =
      let (rt', status) = validate_active_locked rt h b in
      if succeeded status then mark_written_active rt' h b else (rt', status)

  unfoldable pub rt_buffer_mark_written :
      Runtime B A W → Option ℕ → Attempt (Runtime B A W × Status)
  unfolding mark_written_locked
  rt_buffer_mark_written rt buffer = on_buffer rt buffer (mark_written_locked rt)

  unfoldable pub refresh_active : Runtime B A W → ℕ → Buffer A → Runtime B A W × Status
  unfolding now_locked
  refresh_active rt h b =
      if not (b.map_count == 0)
      then set_error rt busy "cannot refresh a mapped buffer"
      else (refreshed rt h b (now_locked rt), success)

  unfoldable pub refresh_locked : Runtime B A W → ℕ → Buffer A → Runtime B A W × Status
  unfolding validate_active_locked refresh_active
  refresh_locked rt h b =
      let (rt', status) = validate_active_locked rt h b in
      if succeeded status then refresh_active rt' h b else (rt', status)

  unfoldable pub rt_buffer_refresh : Runtime B A W → Option ℕ → Attempt (Runtime B A W × Status)
  unfolding refresh_locked
  rt_buffer_refresh rt buffer = on_buffer rt buffer (refresh_locked rt)

  unfoldable pub rt_buffer_reclassify :
      Runtime B A W → Option ℕ → Option RetentionClass → Attempt (Runtime B A W × Status)
  rt_buffer_reclassify rt buffer destination =
      on_buffer rt buffer (λ h b. reclassify_locked rt h b destination true)

  unfoldable pub promote_locked :
      Runtime B A W → RetentionClass → ℕ → Buffer A → Runtime B A W × Status
  promote_locked rt destination h b =
      if leb (class_index destination) (class_index b.retention_class)
      then set_error rt invalid_argument "promotion target must be a stronger class"
      else reclassify_locked rt h b (some destination) true

  unfoldable pub rt_buffer_promote :
      Runtime B A W → Option ℕ → Option RetentionClass → Attempt (Runtime B A W × Status)
  unfolding promote_locked
  rt_buffer_promote rt buffer none = returned (rt, invalid_argument)
  rt_buffer_promote rt buffer (some destination) =
      on_buffer rt buffer (promote_locked rt destination)

  unfoldable pub invalidate_active : Runtime B A W → ℕ → Buffer A → Runtime B A W × Status
  unfolding trace_free_locked release_storage_locked
  invalidate_active rt h b =
      if not (b.map_count == 0)
      then set_error rt busy "cannot invalidate a mapped buffer"
      else (let (freed, b', written) = trace_free_locked rt h b in
          if written
          then (count_invalidation (release_storage_locked freed h b' invalid), success)
          else set_error freed backend_error (trace_error freed))

  unfoldable pub invalidate_locked : Runtime B A W → ℕ → Buffer A → Runtime B A W × Status
  unfolding validate_active_locked invalidate_active
  invalidate_locked rt h b =
      let (rt', status) = validate_active_locked rt h b in
      if succeeded status then invalidate_active rt' h b else (rt', status)

  unfoldable pub rt_buffer_invalidate : Runtime B A W → Option ℕ → Attempt (Runtime B A W × Status)
  unfolding invalidate_locked
  rt_buffer_invalidate rt buffer = on_buffer rt buffer (invalidate_locked rt)

  -- `backend->map(*allocation, ...)`. For an active buffer without an allocation it stands for a null
  -- answer; the source would follow a null pointer there.
  abbrev pub call_map : Runtime B A W → Buffer A → ℕ → B × Reply (Option ℕ)
  call_map rt b flags = elim b.allocation [
    | none ↦ (rt.backend, reply none)
    | some a ↦ be.map_allocation rt.backend a flags b.size_bytes
  ]

  -- The answer to that call, with the pointer that is written to `*output_pointer`.
  unfoldable pub after_map :
      Runtime B A W → ℕ → ℕ → Buffer A → B × Reply (Option ℕ) → (Runtime B A W × Status) × Option ℕ
  after_map rt flags h b (backend, reply none) = (
    set_error (record rt { backend = backend }) backend_error "backend returned a null mapping",
    none,
  )
  after_map rt flags h b (backend, reply (some pointer)) = (
    (
      record rt {
        backend = backend;
        heap = insert h (mapped_buffer b flags pointer) rt.heap;
        stats = record rt.stats { map_calls = add64 rt.stats.map_calls 1 };
      },
      success,
    ),
    some pointer,
  )
  after_map rt flags h b (backend, bad_alloc) =
      (set_error (record rt { backend = backend }) backend_error "std::bad_alloc", none)
  after_map rt flags h b (backend, exception message) =
      (set_error (record rt { backend = backend }) backend_error message, none)

  unfoldable pub map_locked : Runtime B A W → ℕ → ℕ → Buffer A → (Runtime B A W × Status) × Option ℕ
  unfolding validate_active_locked after_map
  map_locked rt flags h b =
      let (rt', status) = validate_active_locked rt h b in
      if not (succeeded status)
      then ((rt', status), none)
      else (if not (b.map_count == 0)
          then (set_error rt' busy "buffer is already mapped", none)
          else after_map rt' flags h b (call_map rt' b flags))

  unfoldable pub rt_buffer_map :
      Runtime B A W → Option ℕ → ℕ → Attempt ((Runtime B A W × Status) × Option ℕ)
  unfolding map_locked
  rt_buffer_map rt none flags = returned ((rt, invalid_argument), none)
  rt_buffer_map rt (some h) flags =
      if not (valid_flags flags)
      then returned ((rt, invalid_argument), none)
      else elim (lookup h rt.heap) [
        | none ↦ undefined
        | some b ↦ returned (map_locked rt flags h b)
      ]
