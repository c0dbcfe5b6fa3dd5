-- ===== src/Runtime/Preservation.antt =====
-- src/rtmem.cpp: the accounts of a class under the calls on one buffer.
use programmable_retention_t.Prelude.{
  ℕ, Bool, true, false, Option, none, some, ◌≡◌, refl, arith, if◌then◌else◌, RetentionClass, lookup,
  inl, inr, Bool-cases, Option-cases, lookup-insert,
}
use programmable_retention_t.Runtime.Types.{
  Status, BufferState, invalid, Buffer, Runtime, is_live, Backend, TraceSink, Reply, reply,
  bad_alloc, exception, now_locked,
}
use programmable_retention_t.Runtime.Storage.{
  set_buffer, release_storage_locked, released_buffer, validate_active_locked, trace_free_locked,
}
use programmable_retention_t.Runtime.Maintenance.{succeeded, touched}
use programmable_retention_t.Runtime.Buffers.{
  mark_written_active, mark_written_locked, refresh_active, refresh_locked, promote_locked,
  invalidate_active, invalidate_locked, map_locked, after_map, mapped_buffer, call_map,
}
use programmable_retention_t.Runtime.Access.{
  after_reply, unmapped_buffer, call_unmap, unmap_locked, call_flush, flush_locked, record_access,
  trace_access_active, trace_access_locked, delete_buffer, delete_released, free_locked,
}
use programmable_retention_t.Runtime.Accounts.{weight, update-Fits, erase-Fits}
use programmable_retention_t.Runtime.Moves.{
  IsWithin, guarded, release-IsWithin, validate-ok, validate-IsWithin, refreshed-IsWithin,
  reclassify-IsWithin,
}

-- A property of either branch is one of the conditional.
pub either :
    {X : Type 0} (P : X → Type 0) (test : Bool) (x y : X)
    → (test ≡ true → P x)
    → (test ≡ false → P y)
    → P (if test then x else y)
either P true x y h k = h refl
either P false x y h k = k refl

after_reply-IsWithin :
    {B A W X : Type 0} (c : RetentionClass) (r : Runtime B A W × Reply X)
    (done : Runtime B A W → Runtime B A W)
    → IsWithin c r.0
    → IsWithin c (done r.0)
    → IsWithin c (after_reply r done).0
after_reply-IsWithin c (rt, reply x) done v w = w
after_reply-IsWithin c (rt, bad_alloc) done v w = v
after_reply-IsWithin c (rt, exception message) done v w = v

unmapped-weight :
    {A : Type 0} (c : RetentionClass) (b : Buffer A) (now : ℕ)
    → weight c b ≡ weight c (unmapped_buffer b now)
unmapped-weight c b now = ground arith

module _ {B A W : Type 0} ⦃be : Backend B A⦄ ⦃tr : TraceSink W⦄ (c : RetentionClass) where
  call_unmap-backend :
      (rt : Runtime B A W) (b : Buffer A)
      → (x : B) × ((call_unmap rt b).0 ≡ record rt { backend = x })
  call_unmap-backend rt b = elim (Option-cases b.allocation) [
    | inl e ↦ (rt.backend, rw e refl)
    | inr (a, e) ↦ ((be.unmap_allocation rt.backend a b.map_flags b.size_bytes).0, rw e refl)
  ]

  call_flush-backend :
      (rt : Runtime B A W) (b : Buffer A)
      → (x : B) × ((call_flush rt b).0 ≡ record rt { backend = x })
  call_flush-backend rt b = elim (Option-cases b.allocation) [
    | inl e ↦ (rt.backend, rw e refl)
    | inr (a, e) ↦ ((be.flush rt.backend a b.size_bytes).0, rw e refl)
  ]

  module _ (rt : Runtime B A W) (h : ℕ) (b : Buffer A) (e : lookup h rt.heap ≡ some b)
      (v : IsWithin c rt) where
    update-IsWithin : (b' : Buffer A) → weight c b ≡ weight c b' → IsWithin c (set_buffer rt h b')
    update-IsWithin b' k = update-Fits c _ _ rt.heap _ h b b' e k v

    pub validated :
        (body : Runtime B A W → Runtime B A W × Status)
        → (is_live b.state ≡ true → IsWithin c (body rt).0)
        → IsWithin c
            (if succeeded (validate_active_locked rt h b).1
              then body (validate_active_locked rt h b).0
              else validate_active_locked rt h b).0
    validated body k =
        guarded (IsWithin c) (validate_active_locked rt h b) rt body
          (validate-IsWithin c rt h b e v) (λ ok. (validate-ok c rt h b ok).0)
          (λ ok. k (validate-ok c rt h b ok).1)

    pub mark_written-IsWithin : IsWithin c (mark_written_locked rt h b).0
    unfolding mark_written_locked
    mark_written-IsWithin =
        validated (λ rt'. mark_written_active rt' h b)
          (λ live. update-IsWithin (touched b (now_locked rt)) refl)

    refresh_active-IsWithin : IsWithin c (refresh_active rt h b).0
    unfolding refresh_active
    refresh_active-IsWithin = ground (arith, v, refreshed-IsWithin c rt h b (now_locked rt) e v)

    pub refresh-IsWithin : IsWithin c (refresh_locked rt h b).0
    unfolding refresh_locked
    refresh-IsWithin = validated (λ rt'. refresh_active rt' h b) (λ live. refresh_active-IsWithin)

    pub promote_locked-IsWithin : (d : RetentionClass) → IsWithin c (promote_locked rt d h b).0
    unfolding promote_locked
    promote_locked-IsWithin d = ground (arith, v, reclassify-IsWithin c rt h b (some d) true e v)

    pub trace_free-IsWithin : IsWithin c (trace_free_locked rt h b).0
    unfolding trace_free_locked
    trace_free-IsWithin = ground (arith, v, update-IsWithin (record b { trace_live = false }) refl)

    pub trace_free-lookup :
        lookup h (trace_free_locked rt h b).0.heap ≡ some (trace_free_locked rt h b).1
    unfolding trace_free_locked
    trace_free-lookup =
        ground (arith, e, lookup-insert h h (record b { trace_live = false }) rt.heap)

    pub trace_free-state : (trace_free_locked rt h b).1.state ≡ b.state
    unfolding trace_free_locked
    trace_free-state = ground arith

    freed-IsWithin :
        IsWithin c (
          release_storage_locked
            (trace_free_locked rt h b).0
            h
            (trace_free_locked rt h b).1
            invalid)
    freed-IsWithin =
        release-IsWithin c (trace_free_locked rt h b).0 h (trace_free_locked rt h b).1 invalid
          trace_free-lookup refl trace_free-IsWithin

    invalidate_active-IsWithin : IsWithin c (invalidate_active rt h b).0
    unfolding invalidate_active
    invalidate_active-IsWithin = ground (arith, v, freed-IsWithin, trace_free-IsWithin)

    pub invalidate-IsWithin : IsWithin c (invalidate_locked rt h b).0
    unfolding invalidate_locked
    invalidate-IsWithin =
        validated (λ rt'. invalidate_active rt' h b) (λ live. invalidate_active-IsWithin)

    after_map-IsWithin :
        (flags : ℕ) (answer : B × Reply (Option ℕ)) → IsWithin c (after_map rt flags h b answer).0.0
    unfolding after_map
    after_map-IsWithin flags (backend, reply none) = v
    after_map-IsWithin flags (backend, reply (some pointer)) =
        update-IsWithin (mapped_buffer b flags pointer) refl
    after_map-IsWithin flags (backend, bad_alloc) = v
    after_map-IsWithin flags (backend, exception message) = v

    pub map-IsWithin : (flags : ℕ) → IsWithin c (map_locked rt flags h b).0.0
    unfolding map_locked
    map-IsWithin flags = elim (Bool-cases (succeeded (validate_active_locked rt h b).1)) [
      | inl ok ↦
          rw (ok, (validate-ok c rt h b ok).0)
            (ground (arith, v, after_map-IsWithin flags (call_map rt b flags)))
      | inr failed ↦ rw failed (validate-IsWithin c rt h b e v)
    ]

    pub unmap-IsWithin : IsWithin c (unmap_locked rt h b).0
    unfolding unmap_locked
    unmap-IsWithin =
        let (x, called) = call_unmap-backend rt b in
        let stored : IsWithin c (
            set_buffer (call_unmap rt b).0 h (unmapped_buffer b (now_locked (call_unmap rt b).0))) =
          rw called (
            update-IsWithin (unmapped_buffer b (now_locked rt))
              (unmapped-weight c b (now_locked rt))) in
        let answered =
          after_reply-IsWithin c (call_unmap rt b)
            (λ rt'. set_buffer rt' h (unmapped_buffer b (now_locked rt'))) (rw called v) stored in
        ground (arith, v, answered)

    pub flush-IsWithin : IsWithin c (flush_locked rt h b).0
    unfolding flush_locked
    flush-IsWithin =
        let (x, called) = call_flush-backend rt b in
        validated (λ rt'. after_reply (call_flush rt' b) (λ flushed. flushed))
          (λ live.
            after_reply-IsWithin c (call_flush rt b) (λ flushed. flushed) (rw called v)
              (rw called v))

    trace_access_active-IsWithin :
        (r : Bool) (offset size stream : ℕ)
        → IsWithin c (trace_access_active rt r offset size stream b).0
    unfolding trace_access_active record_access
    trace_access_active-IsWithin r offset size stream = ground (arith, v)

    pub trace_access-IsWithin :
        (r : Bool) (offset size stream : ℕ)
        → IsWithin c (trace_access_locked rt r offset size stream h b).0
    unfolding trace_access_locked
    trace_access-IsWithin r offset size stream =
        validated (λ rt'. trace_access_active rt' r offset size stream b)
          (λ live. trace_access_active-IsWithin r offset size stream)

    pub delete-IsWithin : is_live b.state ≡ false → IsWithin c (delete_buffer rt h b)
    delete-IsWithin gone = erase-Fits c _ _ rt.heap _ h b e (rw gone refl) v

  -- `rt_buffer_free` behind the release of the storage.
  freed_dead-IsWithin :
      (rt : Runtime B A W) (h : ℕ) (b : Buffer A) (e : lookup h rt.heap ≡ some b)
      → is_live b.state ≡ false
      → IsWithin c rt
      → IsWithin c (delete_buffer (trace_free_locked rt h b).0 h (trace_free_locked rt h b).1)
  freed_dead-IsWithin rt h b e gone v =
      delete-IsWithin (trace_free_locked rt h b).0 h (trace_free_locked rt h b).1
        (trace_free-lookup rt h b e v) (trace_free-IsWithin rt h b e v)
        (rw (trace_free-state rt h b e v) gone)

  delete_released-IsWithin :
      (rt : Runtime B A W) (h : ℕ) (b : Buffer A) (e : lookup h rt.heap ≡ some b)
      → is_live b.state ≡ false
      → IsWithin c rt
      → IsWithin c (delete_released rt h)
  unfolding delete_released
  delete_released-IsWithin rt h b e gone v =
      rw (delete_released, e) (freed_dead-IsWithin rt h b e gone v)

  pub release-lookup :
      (rt : Runtime B A W) (h : ℕ) (b : Buffer A) (s : BufferState)
      → is_live b.state ≡ true
      → lookup h (release_storage_locked rt h b s).heap ≡ some (released_buffer b s)
  unfolding release_storage_locked
  release-lookup rt h b s = ground (arith, lookup-insert h h (released_buffer b s) rt.heap)

  pub free-IsWithin :
      (rt : Runtime B A W) (h : ℕ) (b : Buffer A)
      → lookup h rt.heap ≡ some b
      → IsWithin c rt
      → IsWithin c (free_locked rt h b)
  unfolding free_locked
  free-IsWithin rt h b e v =
      either (λ x. IsWithin c (delete_released x h)) (is_live b.state)
        (release_storage_locked rt h b invalid) rt
        (λ live.
          delete_released-IsWithin (release_storage_locked rt h b invalid) h
            (released_buffer b invalid) (release-lookup rt h b invalid live) refl
            (release-IsWithin c rt h b invalid e refl v))
        (λ gone. delete_released-IsWithin rt h b e gone v)
