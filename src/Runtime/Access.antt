-- ===== src/Runtime/Access.antt =====
-- src/rtmem.cpp: unmapping, flushing, tracing, inspecting and freeing a buffer.
use programmable_retention_t.Prelude.{
  ℕ, ◌-◌, Bool, not, ◌||◌, Option, none, some, ◌==◌, ltb, if◌then◌else◌, lookup, insert, erase,
}
use programmable_retention_t.Prelude.Exceptions.{Attempt, returned, undefined}
use programmable_retention_t.Runtime.Types.{
  Status, success, invalid_argument, invalid_state, backend_error, invalid, is_live, Runtime,
  Buffer, Backend, TraceSink, Reply, reply, bad_alloc, exception, set_error, now_locked,
}
use programmable_retention_t.Runtime.Storage.{
  set_buffer, destroy_allocation, release_storage_locked, validate_active_locked, trace_free_locked,
}
use programmable_retention_t.Runtime.Maintenance.{succeeded, touched}
use programmable_retention_t.Runtime.Buffers.{writes_back, on_buffer, remove_first}

-- A call that the backend answers with no value, and the error that a throw becomes.
abbrev pub after_reply :
    {B A W X : Type 0}
    → Runtime B A W × Reply X
    → (Runtime B A W → Runtime B A W)
    → Runtime B A W × Status
after_reply (rt, reply x) done = (done rt, success)
after_reply (rt, bad_alloc) done = set_error rt backend_error "std::bad_alloc"
after_reply (rt, exception message) done = set_error rt backend_error message

abbrev pub unmapped_buffer : {A : Type 0} → Buffer A → ℕ → Buffer A
unmapped_buffer b now =
    let written = if writes_back b.map_flags then touched b now else b in
    record written { map_count = 0; map_flags = 0 }

module _ {B A W : Type 0} ⦃be : Backend B A⦄ ⦃tr : TraceSink W⦄ where
  -- `backend->unmap(*allocation, ...)`, which does nothing for a buffer without an allocation; the
  -- source would follow a null pointer there.
  abbrev pub call_unmap : Runtime B A W → Buffer A → Runtime B A W × Reply (Unit {0})
  call_unmap rt b = elim b.allocation [
    | none ↦ (rt, reply tt)
    | some a ↦
        let (backend, answer) = be.unmap_allocation rt.backend a b.map_flags b.size_bytes in
        (record rt { backend = backend }, answer)
  ]

  unfoldable pub unmap_locked : Runtime B A W → ℕ → Buffer A → Runtime B A W × Status
  unfolding now_locked
  unmap_locked rt h b =
      if not (is_live b.state) || b.map_count == 0
      then set_error rt invalid_state "buffer is not actively mapped"
      else after_reply (call_unmap rt b)
          (λ rt'. set_buffer rt' h (unmapped_buffer b (now_locked rt')))

  unfoldable pub rt_buffer_unmap : Runtime B A W → Option ℕ → Attempt (Runtime B A W × Status)
  unfolding unmap_locked
  rt_buffer_unmap rt buffer = on_buffer rt buffer (unmap_locked rt)

  -- `backend->flush(*allocation, ...)`, likewise.
  abbrev pub call_flush : Runtime B A W → Buffer A → Runtime B A W × Reply (Unit {0})
  call_flush rt b = elim b.allocation [
    | none ↦ (rt, reply tt)
    | some a ↦
        let (backend, answer) = be.flush rt.backend a b.size_bytes in
        (record rt { backend = backend }, answer)
  ]

  unfoldable pub flush_locked : Runtime B A W → ℕ → Buffer A → Runtime B A W × Status
  unfolding validate_active_locked
  flush_locked rt h b =
      let (rt', status) = validate_active_locked rt h b in
      if succeeded status
      then after_reply (call_flush rt' b) (λ flushed. flushed)
      else (rt', status)

  unfoldable pub rt_buffer_flush : Runtime B A W → Option ℕ → Attempt (Runtime B A W × Status)
  unfolding flush_locked
  rt_buffer_flush rt buffer = on_buffer rt buffer (flush_locked rt)

  -- The record of one access in the trace, `is_read` for `RT_TRACE_ACCESS_READ`.
  unfoldable pub record_access :
      Runtime B A W → Buffer A → Bool → ℕ → ℕ → ℕ → Runtime B A W × Status
  unfolding now_locked
  record_access rt b is_read offset size stream = elim rt.trace [
    | none ↦ (rt, success)
    | some w ↦
        let (w', written) =
          tr.trace_access w (now_locked rt) stream is_read b.trace_id offset size in
        let rt' = record rt { trace = some w' } in
        if written then (rt', success) else set_error rt' backend_error (tr.writer_error w')
  ]

  unfoldable pub trace_access_active :
      Runtime B A W → Bool → ℕ → ℕ → ℕ → Buffer A → Runtime B A W × Status
  unfolding record_access
  trace_access_active rt is_read offset size stream b =
      if ltb b.size_bytes offset || ltb (b.size_bytes - offset) size
      then set_error rt invalid_argument "traced access exceeds buffer bounds"
      else record_access rt b is_read offset size stream

  unfoldable pub trace_access_locked :
      Runtime B A W → Bool → ℕ → ℕ → ℕ → ℕ → Buffer A → Runtime B A W × Status
  unfolding validate_active_locked trace_access_active
  trace_access_locked rt is_read offset size stream h b =
      let (rt', status) = validate_active_locked rt h b in
      if succeeded status
      then trace_access_active rt' is_read offset size stream b
      else (rt', status)

  unfoldable pub rt_buffer_trace_access :
      Runtime B A W → Option ℕ → Bool → ℕ → ℕ → ℕ → Attempt (Runtime B A W × Status)
  unfolding trace_access_locked
  rt_buffer_trace_access rt buffer is_read offset size stream =
      if size == 0
      then returned (rt, invalid_argument)
      else on_buffer rt buffer (trace_access_locked rt is_read offset size stream)

  -- `erase_buffer_locked(region, buffer); delete buffer;`
  abbrev pub delete_buffer : Runtime B A W → ℕ → Buffer A → Runtime B A W
  delete_buffer rt h b = record rt {
    backend = destroy_allocation rt.backend b.allocation;
    heap = erase h rt.heap;
    regions = elim (lookup b.region rt.regions) [
      | none ↦ rt.regions
      | some r ↦ insert b.region (record r { buffers = remove_first h r.buffers }) rt.regions
    ];
  }

  -- The trace is told, a failure of which is ignored, and the object goes.
  unfoldable pub delete_released : Runtime B A W → ℕ → Runtime B A W
  unfolding trace_free_locked remove_first
  delete_released rt h = elim (lookup h rt.heap) [
    | none ↦ rt
    | some b ↦ let (freed, b', written) = trace_free_locked rt h b in delete_buffer freed h b'
  ]

  unfoldable pub free_locked : Runtime B A W → ℕ → Buffer A → Runtime B A W
  unfolding release_storage_locked delete_released
  free_locked rt h b =
      delete_released (if is_live b.state then release_storage_locked rt h b invalid else rt) h

  unfoldable pub rt_buffer_free : Runtime B A W → Option ℕ → Attempt (Runtime B A W)
  unfolding free_locked
  rt_buffer_free rt none = returned rt
  rt_buffer_free rt (some h) = elim (lookup h rt.heap) [
    | none ↦ undefined
    | some b ↦ returned (free_locked rt h b)
  ]
