-- ===== src/Runtime/Frames.antt =====
-- src/rtmem.cpp: the accounts of a class under tracing, the fence and the calls on pointers.
use programmable_retention_t.Prelude.{
  ℕ, String, Bool, true, false, not, Option, none, some, List, [], ◌∷◌, ◌≡◌, refl, subst, arith,
  inl, inr, ◌==◌, if◌then◌else◌, Bool-cases, Option-cases, lookup, RetentionClass,
}
use text.Mathlib.Text.{◌==◌ as str_eq}
use programmable_retention_t.Runtime.Types.{
  Status, invalid, is_live, Buffer, Runtime, Backend, TraceSink, Reply, reply, bad_alloc, exception,
  now_locked,
}
use programmable_retention_t.Runtime.Storage.{
  validate_active_locked, trace_free_locked, release_storage_locked, released_buffer,
}
use programmable_retention_t.Runtime.Maintenance.{succeeded}
use programmable_retention_t.Runtime.Tracing.{
  after_event, rt_runtime_trace_phase, rt_runtime_trace_compute, rt_runtime_trace_barrier,
  announce_regions, after_announcement, rt_runtime_attach_trace, retire_regions, after_flush,
  after_retirement, rt_runtime_detach_trace, flush_regions, after_fence, rt_runtime_fence,
}
use programmable_retention_t.Runtime.Pointers.{
  after_address, call_address, address_locked, find_pointer, delete_found, free_pointer_locked,
}
use programmable_retention_t.Runtime.Moves.{IsWithin, validate-IsWithin, release-IsWithin}
use programmable_retention_t.Runtime.Preservation.{
  either, trace_free-IsWithin, trace_free-lookup, delete-IsWithin, release-lookup,
}

module _ {B A W : Type 0} ⦃be : Backend B A⦄ ⦃tr : TraceSink W⦄ (c : RetentionClass)
    (rt : Runtime B A W) (v : IsWithin c rt) where
  after_event-IsWithin : (answer : W × Bool) → IsWithin c (after_event rt answer).0
  after_event-IsWithin (w, true) = v
  after_event-IsWithin (w, false) = v

  pub trace_phase-IsWithin : (name : Option String) → IsWithin c (rt_runtime_trace_phase rt name).0
  unfolding rt_runtime_trace_phase
  trace_phase-IsWithin none = v
  trace_phase-IsWithin (some name) =
      either (λ (x : Runtime B A W × Status). IsWithin c x.0) (str_eq name "") _ _ (λ _. v)
        λ _. elim (Option-cases rt.trace) [
          | inl e ↦ rw e v
          | inr (w, e) ↦ rw e (after_event-IsWithin (tr.trace_phase w (now_locked rt) name))
        ]

  pub trace_compute-IsWithin :
      (stream cycles : ℕ) → IsWithin c (rt_runtime_trace_compute rt stream cycles).0
  unfolding rt_runtime_trace_compute
  trace_compute-IsWithin stream cycles = elim (Option-cases rt.trace) [
    | inl e ↦ rw (e, rt_runtime_trace_compute) v
    | inr (w, e) ↦
        rw (e, rt_runtime_trace_compute)
          (after_event-IsWithin (tr.trace_compute w (now_locked rt) stream cycles))
  ]

  pub trace_barrier-IsWithin :
      (stream barrier : ℕ) → IsWithin c (rt_runtime_trace_barrier rt stream barrier).0
  unfolding rt_runtime_trace_barrier
  trace_barrier-IsWithin stream barrier = elim (Option-cases rt.trace) [
    | inl e ↦ rw (e, rt_runtime_trace_barrier) v
    | inr (w, e) ↦
        rw (e, rt_runtime_trace_barrier)
          (after_event-IsWithin (tr.trace_barrier w (now_locked rt) stream barrier))
  ]

  after_announcement-IsWithin : (answer : W × Bool) → IsWithin c (after_announcement rt answer).0.0
  after_announcement-IsWithin (w, true) = v
  after_announcement-IsWithin (w, false) = v

  pub attach_trace-IsWithin : (w : W) → IsWithin c (rt_runtime_attach_trace rt w).0.0
  unfolding rt_runtime_attach_trace
  attach_trace-IsWithin w = elim (Option-cases rt.trace) [
    | inl e ↦
        rw (e, rt_runtime_attach_trace)
          (after_announcement-IsWithin (announce_regions w rt.heap rt.regions))
    | inr (attached, e) ↦ rw (e, rt_runtime_attach_trace) v
  ]

  after_flush-IsWithin : (answer : W × Bool) → IsWithin c (after_flush rt answer).0.0
  after_flush-IsWithin (w, true) = v
  after_flush-IsWithin (w, false) = v

  after_retirement-IsWithin : (answer : W × Bool) → IsWithin c (after_retirement rt answer).0.0
  after_retirement-IsWithin (w, true) = after_flush-IsWithin (tr.flush_writer w)
  after_retirement-IsWithin (w, false) = v

  pub detach_trace-IsWithin : IsWithin c (rt_runtime_detach_trace rt).0.0
  unfolding rt_runtime_detach_trace
  detach_trace-IsWithin = elim (Option-cases rt.trace) [
    | inl e ↦ rw (e, rt_runtime_detach_trace) v
    | inr (w, e) ↦
        rw (e, rt_runtime_detach_trace)
          (after_retirement-IsWithin (retire_regions w rt.heap (now_locked rt) rt.regions))
  ]

  after_fence-IsWithin : (answer : B × Reply (Unit {0})) → IsWithin c (after_fence rt answer).0
  after_fence-IsWithin (backend, reply done) = v
  after_fence-IsWithin (backend, bad_alloc) = v
  after_fence-IsWithin (backend, exception message) = v

  pub fence-IsWithin : IsWithin c (rt_runtime_fence rt).0
  unfolding rt_runtime_fence
  fence-IsWithin = after_fence-IsWithin (flush_regions rt.backend rt.heap rt.regions)

  after_address-IsWithin : (answer : Reply ℕ) → IsWithin c (after_address rt answer).0.0
  after_address-IsWithin (reply address) = v
  after_address-IsWithin bad_alloc = v
  after_address-IsWithin (exception message) = v

module _ {B A W : Type 0} ⦃be : Backend B A⦄ ⦃tr : TraceSink W⦄ (c : RetentionClass)
    (rt : Runtime B A W) (h : ℕ) (b : Buffer A) (e : lookup h rt.heap ≡ some b)
    (v : IsWithin c rt) where
  pub address-IsWithin : IsWithin c (address_locked rt h b).0.0
  unfolding address_locked
  address-IsWithin =
      either (λ (x : (Runtime B A W × Status) × Option ℕ). IsWithin c x.0.0)
        (succeeded (validate_active_locked rt h b).1) _ _
        (λ _.
          after_address-IsWithin c (validate_active_locked rt h b).0
            (validate-IsWithin c rt h b e v) (call_address (validate_active_locked rt h b).0 b))
        (λ _. validate-IsWithin c rt h b e v)

  delete_found-IsWithin : is_live b.state ≡ false → IsWithin c (delete_found rt h)
  unfolding delete_found
  delete_found-IsWithin gone = rw (e, delete_found) (delete-IsWithin c rt h b e v gone)

module _ {B A W : Type 0} ⦃be : Backend B A⦄ ⦃tr : TraceSink W⦄ (c : RetentionClass)
    (rt : Runtime B A W) (h : ℕ) (b : Buffer A) (e : lookup h rt.heap ≡ some b)
    (v : IsWithin c rt) where
  released_found-IsWithin :
      IsWithin c
        (delete_found (if is_live b.state then release_storage_locked rt h b invalid else rt) h)
  released_found-IsWithin =
      either (λ x. IsWithin c (delete_found x h)) (is_live b.state) _ _
        (λ live.
          delete_found-IsWithin c (release_storage_locked rt h b invalid) h
            (released_buffer b invalid) (release-lookup c rt h b invalid live)
            (release-IsWithin c rt h b invalid e refl v) refl)
        (λ gone. delete_found-IsWithin c rt h b e v gone)

module _ {B A W : Type 0} ⦃be : Backend B A⦄ ⦃tr : TraceSink W⦄ (c : RetentionClass)
    (rt : Runtime B A W) (h : ℕ) (b : Buffer A) (e : lookup h rt.heap ≡ some b)
    (v : IsWithin c rt) where
  pub free_pointer-IsWithin : IsWithin c (free_pointer_locked rt h b).0
  unfolding free_pointer_locked
  free_pointer-IsWithin =
      let freed = trace_free_locked rt h b in
      either (λ (x : Runtime B A W × Status). IsWithin c x.0) (not (b.map_count == 0)) _ _ (λ _. v)
        λ _.
          either (λ (x : Runtime B A W × Status). IsWithin c x.0) (not freed.2) _ _
            (λ _. trace_free-IsWithin c rt h b e v)
            (λ _.
              released_found-IsWithin c freed.0 h freed.1 (trace_free-lookup c rt h b e v)
                (trace_free-IsWithin c rt h b e v))

module _ {B A W : Type 0} ⦃be : Backend B A⦄ ⦃tr : TraceSink W⦄ where
  -- What `find_pointer` finds is in the heap.
  pub find_pointer-lookup :
      (rt : Runtime B A W) (pointer : ℕ) (hs : List ℕ) (h : ℕ) (b : Buffer A)
      → find_pointer rt pointer hs ≡ some (h, b)
      → lookup h rt.heap ≡ some b
  unfolding find_pointer
  find_pointer-lookup rt pointer [] h b e = ground (e, arith)
  find_pointer-lookup rt pointer (x ∷ hs) h b e =
      let later = find_pointer-lookup rt pointer hs h b in
      elim (Option-cases (lookup x rt.heap)) [
        | inl absent ↦ ground (e, arith, later)
        | inr (b', there) ↦ elim (Option-cases b'.exposed_pointer) [
          | inl hidden ↦ ground (e, arith, later)
          | inr (exposed, shown) ↦ elim (Bool-cases (exposed == pointer)) [
            | inr other ↦ ground (e, arith, later)
            | inl same ↦
                let first : (x, b') ≡ (h, b) = ground (e, arith, there, shown, same) in
                subst (λ (q : ℕ × Buffer A). lookup q.0 rt.heap ≡ some q.1) first there
          ]
        ]
      ]
