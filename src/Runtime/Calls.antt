-- ===== src/Runtime/Calls.antt =====
-- The calls of the C interface (src/rtmem.cpp) as data, and the sequences of calls on one runtime.
use programmable_retention_t.Prelude.{
  ℕ, ◌+◌, List, Bool, true, Option, some, is_some, ◌≡◌, String, RetentionClass, lookup,
}
use programmable_retention_t.Prelude.Exceptions.{Attempt, returned, ◌>>=◌}
use programmable_retention_t.Runtime.Types.{Runtime, Backend, TraceSink}
use programmable_retention_t.Runtime.Buffers.{
  rt_buffer_mark_written, rt_buffer_refresh, rt_buffer_reclassify, rt_buffer_promote,
  rt_buffer_invalidate, rt_buffer_map,
}
use programmable_retention_t.Runtime.Access.{
  rt_buffer_unmap, rt_buffer_flush, rt_buffer_trace_access, rt_buffer_free,
}
use programmable_retention_t.Runtime.Allocation.{rt_alloc}
use programmable_retention_t.Runtime.Tracing.{
  rt_runtime_attach_trace, rt_runtime_detach_trace, rt_runtime_fence, rt_runtime_trace_phase,
  rt_runtime_trace_compute, rt_runtime_trace_barrier,
}
use programmable_retention_t.Runtime.Pointers.{
  rt_buffer_device_address, rt_region_free_pointer, rt_region_malloc, rt_buffer_read_bytes,
  rt_buffer_write_bytes,
}
use programmable_retention_t.Runtime.Polling.{rt_runtime_advance, rt_runtime_poll}
use programmable_retention_t.Runtime.Regions.{rt_region_end, rt_region_refresh}
use programmable_retention_t.Runtime.Inspection.{rt_region_reclassify}
use programmable_retention_t.Runtime.Creation.{PolicyArgument, rt_region_create}

-- The calls with their arguments, and the passing of time. `rt_region_destroy`, `rt_buffer_get_info` and
-- the calls that leave the runtime as it is are not among them.
pub data Call (W : Type 0) : Type 0 where
  waits advances : ℕ → Call W
  polls : Call W
  creates : Option PolicyArgument → String → Call W
  ends refreshes_region : ℕ → Call W
  reclassifies_region : ℕ → Option RetentionClass → Call W
  allocates : ℕ → ℕ → ℕ → Call W
  frees unmaps flushes marks refreshes invalidates : ℕ → Call W
  maps : ℕ → ℕ → Call W
  reclassifies promotes_to : ℕ → Option RetentionClass → Call W
  accesses : ℕ → Bool → ℕ → ℕ → ℕ → Call W
  attaches : W → Call W
  detaches fences : Call W
  traces_phase : Option String → Call W
  traces_compute traces_barrier : ℕ → ℕ → Call W
  asks_address : ℕ → Call W
  frees_pointer : ℕ → Option ℕ → Call W
  mallocs : ℕ → ℕ → ℕ → Call W
  reads_bytes : ℕ → ℕ → ℕ → ℕ → Call W
  writes_bytes : ℕ → ℕ → List ℕ → ℕ → Call W

module _ {B A W : Type 0} where
  abbrev pub state_of {ℓ} : {X : Type ℓ} → Attempt (Runtime B A W × X) → Attempt (Runtime B A W)
  state_of r = r >>= λ s. returned s.0

  -- The pointer that the call gets points to an object.
  unfoldable pub points : Runtime B A W → Call W → Bool
  points rt (waits n) = true
  points rt (advances n) = true
  points rt polls = true
  points rt (creates p s) = true
  points rt (ends key) = is_some (lookup key rt.regions)
  points rt (refreshes_region key) = is_some (lookup key rt.regions)
  points rt (reclassifies_region key d) = is_some (lookup key rt.regions)
  points rt (allocates key size alignment) = is_some (lookup key rt.regions)
  points rt (frees h) = is_some (lookup h rt.heap)
  points rt (unmaps h) = is_some (lookup h rt.heap)
  points rt (flushes h) = is_some (lookup h rt.heap)
  points rt (marks h) = is_some (lookup h rt.heap)
  points rt (refreshes h) = is_some (lookup h rt.heap)
  points rt (invalidates h) = is_some (lookup h rt.heap)
  points rt (maps h flags) = is_some (lookup h rt.heap)
  points rt (reclassifies h d) = is_some (lookup h rt.heap)
  points rt (promotes_to h d) = is_some (lookup h rt.heap)
  points rt (accesses h r offset size stream) = is_some (lookup h rt.heap)
  points rt (attaches w) = true
  points rt detaches = true
  points rt fences = true
  points rt (traces_phase name) = true
  points rt (traces_compute stream cycles) = true
  points rt (traces_barrier stream barrier) = true
  points rt (asks_address h) = is_some (lookup h rt.heap)
  points rt (frees_pointer key pointer) = is_some (lookup key rt.regions)
  points rt (mallocs key size alignment) = is_some (lookup key rt.regions)
  points rt (reads_bytes h offset size stream) = is_some (lookup h rt.heap)
  points rt (writes_bytes h offset bytes stream) = is_some (lookup h rt.heap)

module _ {B A W : Type 0} ⦃be : Backend B A⦄ ⦃tr : TraceSink W⦄ where
  unfoldable pub perform : Runtime B A W → Call W → Attempt (Runtime B A W)
  unfolding rt_runtime_advance rt_runtime_poll rt_region_create rt_region_end rt_region_refresh
      rt_region_reclassify rt_alloc rt_buffer_free rt_buffer_unmap rt_buffer_flush
      rt_buffer_mark_written rt_buffer_refresh rt_buffer_invalidate rt_buffer_map
      rt_buffer_reclassify rt_buffer_promote rt_buffer_trace_access rt_runtime_attach_trace
      rt_runtime_detach_trace rt_runtime_fence rt_runtime_trace_phase rt_runtime_trace_compute
      rt_runtime_trace_barrier rt_buffer_device_address rt_region_free_pointer rt_region_malloc
      rt_buffer_read_bytes rt_buffer_write_bytes
  perform rt (waits n) = returned (record rt { elapsed_ns = rt.elapsed_ns + n })
  perform rt (advances n) = returned (rt_runtime_advance rt n).0
  perform rt polls = returned (rt_runtime_poll rt).0
  perform rt (creates p s) = returned (rt_region_create rt p s).0
  perform rt (ends key) = state_of (rt_region_end rt (some key))
  perform rt (refreshes_region key) = state_of (rt_region_refresh rt (some key))
  perform rt (reclassifies_region key d) = state_of (rt_region_reclassify rt (some key) d)
  perform rt (allocates key size alignment) =
      rt_alloc rt (some key) size alignment >>= λ s. returned s.0
  perform rt (frees h) = rt_buffer_free rt (some h)
  perform rt (unmaps h) = state_of (rt_buffer_unmap rt (some h))
  perform rt (flushes h) = state_of (rt_buffer_flush rt (some h))
  perform rt (marks h) = state_of (rt_buffer_mark_written rt (some h))
  perform rt (refreshes h) = state_of (rt_buffer_refresh rt (some h))
  perform rt (invalidates h) = state_of (rt_buffer_invalidate rt (some h))
  perform rt (maps h flags) = rt_buffer_map rt (some h) flags >>= λ s. returned s.0.0
  perform rt (reclassifies h d) = state_of (rt_buffer_reclassify rt (some h) d)
  perform rt (promotes_to h d) = state_of (rt_buffer_promote rt (some h) d)
  perform rt (accesses h r offset size stream) =
      state_of (rt_buffer_trace_access rt (some h) r offset size stream)
  perform rt (attaches w) = returned (rt_runtime_attach_trace rt w).0.0
  perform rt detaches = returned (rt_runtime_detach_trace rt).0.0
  perform rt fences = returned (rt_runtime_fence rt).0
  perform rt (traces_phase name) = returned (rt_runtime_trace_phase rt name).0
  perform rt (traces_compute stream cycles) = returned (rt_runtime_trace_compute rt stream cycles).0
  perform rt (traces_barrier stream barrier) =
      returned (rt_runtime_trace_barrier rt stream barrier).0
  perform rt (asks_address h) = rt_buffer_device_address rt (some h) >>= λ s. returned s.0.0
  perform rt (frees_pointer key pointer) = state_of (rt_region_free_pointer rt (some key) pointer)
  perform rt (mallocs key size alignment) =
      rt_region_malloc rt (some key) size alignment >>= λ s. returned s.0.0
  perform rt (reads_bytes h offset size stream) =
      rt_buffer_read_bytes rt (some h) offset size stream >>= λ s. returned s.0.0
  perform rt (writes_bytes h offset bytes stream) =
      state_of (rt_buffer_write_bytes rt (some h) offset bytes stream)

  -- The states that calls on valid pointers lead to.
  pub data Reaches (start : Runtime B A W) : Runtime B A W → Type 0 where
    nothing : Reaches start start
    then_call :
        (rt rt' : Runtime B A W) (call : Call W)
        → Reaches start rt
        → points rt call ≡ true
        → perform rt call ≡ returned rt'
        → Reaches start rt'
