-- ===== src/Runtime/Histories.antt =====
-- Sequences of calls of the C ABI (src/rtmem.cpp) on one runtime, from its creation on.
use programmable_retention_t.Prelude.{
  ℕ, not, ◌||◌, add64, ◌==◌, ◌<◌, ◌≤◌, true, Option, none, some, is_some, ◌≡◌, arith, String,
  Option-cases, inl, inr, RetentionClass, at, subst, total, lookup, infinite, epoch,
}
use programmable_retention_t.Prelude.Exceptions.{returned, undefined, ◌>>=◌, Ensures, Ensures->>=}
use programmable_retention_t.Runtime.Types.{
  Policy, Status, success, invalid_argument, Buffer, Region, Runtime, RuntimeOptions, Backend,
  TraceSink, now_locked,
}
use programmable_retention_t.Runtime.Buffers.{
  on_buffer, valid_flags, map_locked, mark_written_locked, refresh_locked, promote_locked,
  invalidate_locked,
}
use programmable_retention_t.Runtime.Access.{
  free_locked, unmap_locked, flush_locked, trace_access_locked,
}
use programmable_retention_t.Runtime.Allocation.{valid_alignment, alloc_locked}
use programmable_retention_t.Runtime.Regions.{end_region_locked, region_refresh_locked}
use programmable_retention_t.Runtime.Inspection.{region_reclassify_locked}
use programmable_retention_t.Runtime.Creation.{
  PolicyArgument, add_region, after_check, checked_policy, default_policy, rt_region_create,
  make_runtime,
}
use programmable_retention_t.Runtime.Maintenance.{reclassify_locked}
use programmable_retention_t.Runtime.Accounts.{later-Fits}
use programmable_retention_t.Runtime.Moves.{IsWithin, reclassify-IsWithin}
use programmable_retention_t.Runtime.Preservation.{
  either, mark_written-IsWithin, refresh-IsWithin, promote_locked-IsWithin, invalidate-IsWithin,
  map-IsWithin, unmap-IsWithin, flush-IsWithin, trace_access-IsWithin, free-IsWithin,
}
use programmable_retention_t.Runtime.Frames.{
  attach_trace-IsWithin, detach_trace-IsWithin, fence-IsWithin, trace_phase-IsWithin,
  trace_compute-IsWithin, trace_barrier-IsWithin, address-IsWithin, free_pointer-IsWithin,
  find_pointer-lookup,
}
use programmable_retention_t.Runtime.Pointers.{
  address_locked, find_pointer, free_pointer_in, rt_region_free_pointer, rt_region_malloc,
  rt_buffer_read_bytes, rt_buffer_write_bytes,
}
use programmable_retention_t.Runtime.Composites.{
  found, malloc-IsWithin, read_bytes-IsWithin, write_bytes-IsWithin,
}
use programmable_retention_t.Runtime.Sweeps.{alloc-IsWithin, poll_regions-IsWithin}
use programmable_retention_t.Runtime.RegionSweeps.{
  end_region-IsWithin, region_refresh-IsWithin, region_reclassify-IsWithin,
}
use programmable_retention_t.Runtime.Calls.{
  Call, waits, advances, polls, creates, ends, refreshes_region, reclassifies_region, allocates,
  attaches, detaches, fences, traces_phase, traces_compute, traces_barrier, asks_address,
  frees_pointer, mallocs, reads_bytes, writes_bytes, frees, unmaps, flushes, marks, refreshes,
  invalidates, maps, reclassifies, promotes_to, accesses, state_of, points, perform, Reaches,
  nothing, then_call,
}

module _ {B A W : Type 0} ⦃be : Backend B A⦄ ⦃tr : TraceSink W⦄ where
  module _ (c : RetentionClass) (rt : Runtime B A W) (v : IsWithin c rt) where
    -- A call on a buffer that exists.
    on_buffer-Keeps :
        (h : ℕ) (body : ℕ → Buffer A → Runtime B A W × Status)
        → is_some (lookup h rt.heap) ≡ true
        → ((b : Buffer A) → lookup h rt.heap ≡ some b → IsWithin c (body h b).0)
        → Ensures (state_of (on_buffer rt (some h) body)) (IsWithin c)
    on_buffer-Keeps h body there k =
        Ensures->>= (on_buffer rt (some h) body) (λ s. returned s.0) (λ s. IsWithin c s.0)
          (IsWithin c)
          (found (lookup h rt.heap) (λ b. returned (body h b)) (λ s. IsWithin c s.0) there k)
          (λ s w. w)

    -- A call on a region that exists.
    on_region-Keeps :
        {X : Type 0} (key : ℕ) (body : Region → Runtime B A W × X)
        → is_some (lookup key rt.regions) ≡ true
        → ((r : Region) → IsWithin c (body r).0)
        → Ensures
            (state_of
              (elim (lookup key rt.regions) [ none ↦ undefined | some r ↦ returned (body r) ]))
            (IsWithin c)
    on_region-Keeps key body there k =
        Ensures->>= (elim (lookup key rt.regions) [ none ↦ undefined | some r ↦ returned (body r) ])
          (λ s. returned s.0) (λ s. IsWithin c s.0) (IsWithin c)
          (found (lookup key rt.regions) (λ r. returned (body r)) (λ s. IsWithin c s.0) there
            (λ r e. k r))
          (λ s w. w)

    add_region-IsWithin : (p : Policy) (s : String) → IsWithin c (add_region rt p s).0
    unfolding add_region
    add_region-IsWithin p s = ground (arith, v, later-Fits c _ _ rt.heap _ v)

    after_check-IsWithin : (s : String) (p : Option Policy) → IsWithin c (after_check rt s p).0
    unfolding after_check
    after_check-IsWithin s none = v
    after_check-IsWithin s (some p) = add_region-IsWithin p s

    creates-IsWithin :
        (p : Option PolicyArgument) (s : String) → IsWithin c (rt_region_create rt p s).0
    unfolding rt_region_create
    creates-IsWithin none s = add_region-IsWithin (default_policy epoch) s
    creates-IsWithin (some p) s = ground (arith, v, after_check-IsWithin s (checked_policy p))

    maps-IsWithin :
        (h flags : ℕ)
        → is_some (lookup h rt.heap) ≡ true
        → Ensures (perform rt (maps h flags)) (IsWithin c)
    unfolding perform
    maps-IsWithin h flags there =
        either (λ x. Ensures (x >>= λ s. returned s.0.0) (IsWithin c)) (not (valid_flags flags))
          (returned ((rt, invalid_argument), none))
          (elim (lookup h rt.heap) [
            | none ↦ undefined
            | some b ↦ returned (map_locked rt flags h b)
          ])
          (λ bad. v)
          (λ good.
            Ensures->>=
              (elim (lookup h rt.heap) [
                | none ↦ undefined
                | some b ↦ returned (map_locked rt flags h b)
              ])
              (λ s. returned s.0.0) (λ s. IsWithin c s.0.0) (IsWithin c)
              (found (lookup h rt.heap) (λ b. returned (map_locked rt flags h b))
                (λ s. IsWithin c s.0.0) there (λ b e. map-IsWithin c rt h b e v flags))
              (λ s w. w))

    allocates-IsWithin :
        (key size alignment : ℕ)
        → is_some (lookup key rt.regions) ≡ true
        → Ensures (perform rt (allocates key size alignment)) (IsWithin c)
    unfolding perform
    allocates-IsWithin key size alignment there =
        either (λ x. Ensures (x >>= λ s. returned s.0) (IsWithin c))
          (size == 0 || not (valid_alignment alignment)) (returned (rt, invalid_argument, none))
          (elim (lookup key rt.regions) [
            | none ↦ undefined
            | some r ↦ returned (alloc_locked rt key r size alignment)
          ])
          (λ bad. v)
          (λ good.
            Ensures->>=
              (elim (lookup key rt.regions) [
                | none ↦ undefined
                | some r ↦ returned (alloc_locked rt key r size alignment)
              ])
              (λ s. returned s.0) (λ s. IsWithin c s.0) (IsWithin c)
              (found (lookup key rt.regions) (λ r. returned (alloc_locked rt key r size alignment))
                (λ s. IsWithin c s.0) there (λ r e. alloc-IsWithin c rt key r size alignment v))
              (λ s w. w))

    asks_address-IsWithin :
        (h : ℕ)
        → is_some (lookup h rt.heap) ≡ true
        → Ensures (perform rt (asks_address h)) (IsWithin c)
    unfolding perform
    asks_address-IsWithin h there =
        Ensures->>=
          (elim (lookup h rt.heap) [ none ↦ undefined | some b ↦ returned (address_locked rt h b) ])
          (λ s. returned s.0.0) (λ s. IsWithin c s.0.0) (IsWithin c)
          (found (lookup h rt.heap) (λ b. returned (address_locked rt h b)) (λ s. IsWithin c s.0.0)
            there (λ b e. address-IsWithin c rt h b e v))
          (λ s w. w)

    free_pointer_found :
        (pointer : ℕ) (r : Region) → Ensures (free_pointer_in rt pointer r) (λ s. IsWithin c s.0)
    free_pointer_found pointer r = elim (Option-cases (find_pointer rt pointer r.buffers)) [
      | inl e ↦ rw (e, free_pointer_in) v
      | inr ((h, b), e) ↦
          rw (e, free_pointer_in)
            (free_pointer-IsWithin c rt h b (find_pointer-lookup rt pointer r.buffers h b e) v)
    ]

    -- A call on valid pointers returns, and the accounts of the class are right after it.
    perform-IsWithin :
        (call : Call W) → points rt call ≡ true → Ensures (perform rt call) (IsWithin c)
    unfolding points perform
    perform-IsWithin (waits n) there = v
    perform-IsWithin (advances n) there = ground (arith, v)
    perform-IsWithin polls there =
        poll_regions-IsWithin c
          (record rt { stats = record rt.stats { poll_calls = add64 rt.stats.poll_calls 1 } })
          rt.regions (now_locked rt) success v
    perform-IsWithin (creates p s) there = creates-IsWithin p s
    perform-IsWithin (ends key) there =
        on_region-Keeps key (λ r. (end_region_locked rt key r, success)) there
          (λ r. end_region-IsWithin c rt key r v)
    perform-IsWithin (refreshes_region key) there =
        on_region-Keeps key (λ r. region_refresh_locked rt r) there
          (λ r. region_refresh-IsWithin c rt r v)
    perform-IsWithin (reclassifies_region key none) there = v
    perform-IsWithin (reclassifies_region key (some d)) there =
        on_region-Keeps key (λ r. region_reclassify_locked rt r d) there
          (λ r. region_reclassify-IsWithin c rt r d v)
    perform-IsWithin (allocates key size alignment) there =
        allocates-IsWithin key size alignment there
    perform-IsWithin (frees h) there =
        found (lookup h rt.heap) (λ b. returned (free_locked rt h b)) (IsWithin c) there
          (λ b e. free-IsWithin c rt h b e v)
    perform-IsWithin (unmaps h) there =
        on_buffer-Keeps h (unmap_locked rt) there (λ b e. unmap-IsWithin c rt h b e v)
    perform-IsWithin (flushes h) there =
        on_buffer-Keeps h (flush_locked rt) there (λ b e. flush-IsWithin c rt h b e v)
    perform-IsWithin (marks h) there =
        on_buffer-Keeps h (mark_written_locked rt) there (λ b e. mark_written-IsWithin c rt h b e v)
    perform-IsWithin (refreshes h) there =
        on_buffer-Keeps h (refresh_locked rt) there (λ b e. refresh-IsWithin c rt h b e v)
    perform-IsWithin (invalidates h) there =
        on_buffer-Keeps h (invalidate_locked rt) there (λ b e. invalidate-IsWithin c rt h b e v)
    perform-IsWithin (maps h flags) there = maps-IsWithin h flags there
    perform-IsWithin (reclassifies h d) there =
        on_buffer-Keeps h (λ k b. reclassify_locked rt k b d true) there
          (λ b e. reclassify-IsWithin c rt h b d true e v)
    perform-IsWithin (promotes_to h none) there = v
    perform-IsWithin (promotes_to h (some d)) there =
        on_buffer-Keeps h (promote_locked rt d) there
          (λ b e. promote_locked-IsWithin c rt h b e v d)
    perform-IsWithin (accesses h r offset size stream) there =
        either (λ x. Ensures (state_of x) (IsWithin c)) (size == 0)
          (returned (rt, invalid_argument))
          (on_buffer rt (some h) (trace_access_locked rt r offset size stream)) (λ empty. v)
          (λ some_bytes.
            on_buffer-Keeps h (trace_access_locked rt r offset size stream) there
              (λ b e. trace_access-IsWithin c rt h b e v r offset size stream))
    perform-IsWithin (attaches w) there = attach_trace-IsWithin c rt v w
    perform-IsWithin detaches there = detach_trace-IsWithin c rt v
    perform-IsWithin fences there = fence-IsWithin c rt v
    perform-IsWithin (traces_phase name) there = trace_phase-IsWithin c rt v name
    perform-IsWithin (traces_compute stream cycles) there =
        trace_compute-IsWithin c rt v stream cycles
    perform-IsWithin (traces_barrier stream barrier) there =
        trace_barrier-IsWithin c rt v stream barrier
    perform-IsWithin (asks_address h) there = asks_address-IsWithin h there
    perform-IsWithin (mallocs key size alignment) there =
        Ensures->>= (rt_region_malloc rt (some key) size alignment) (λ s. returned s.0.0)
          (λ s. IsWithin c s.0.0) (IsWithin c) (malloc-IsWithin c rt key size alignment v there)
          (λ s w. w)
    perform-IsWithin (reads_bytes h offset size stream) there =
        Ensures->>= (rt_buffer_read_bytes rt (some h) offset size stream) (λ s. returned s.0.0)
          (λ s. IsWithin c s.0.0) (IsWithin c)
          (read_bytes-IsWithin c rt h offset size stream v there) (λ s w. w)
    perform-IsWithin (writes_bytes h offset bytes stream) there =
        Ensures->>= (rt_buffer_write_bytes rt (some h) offset bytes stream) (λ s. returned s.0)
          (λ s. IsWithin c s.0) (IsWithin c)
          (write_bytes-IsWithin c rt h offset bytes stream v there) (λ s w. w)
    perform-IsWithin (frees_pointer key none) there = v
    perform-IsWithin (frees_pointer key (some pointer)) there =
        Ensures->>= (rt_region_free_pointer rt (some key) (some pointer)) (λ s. returned s.0)
          (λ s. IsWithin c s.0) (IsWithin c)
          (found (lookup key rt.regions) (free_pointer_in rt pointer) (λ s. IsWithin c s.0) there
            (λ r e. free_pointer_found pointer r))
          (λ s w. w)

  Reaches-IsWithin :
      (c : RetentionClass) (start rt : Runtime B A W)
      → Reaches start rt
      → IsWithin c start
      → IsWithin c rt
  Reaches-IsWithin c start _ nothing v = v
  Reaches-IsWithin c start _ (then_call rt rt' call before there done) v =
      subst (λ r. Ensures r (IsWithin c)) done
        (perform-IsWithin c rt (Reaches-IsWithin c start rt before v) call there)

  -- From the creation of a runtime on, whatever calls of `Call` are made on valid pointers and whatever the
  -- backend and the trace writer answer, the counter of active bytes of a class with a capacity is the
  -- number of bytes that its active buffers hold, and never above the capacity.
  pub Reaches-make_runtime-IsWithin :
      (c : RetentionClass) (options : RuntimeOptions) (backend : B) (rt : Runtime B A W)
      → 0 < at c options.class_capacity_bytes
      → at c options.class_capacity_bytes ≤ infinite
      → Reaches (make_runtime options backend) rt
      → IsWithin c rt
  unfolding make_runtime total
  Reaches-make_runtime-IsWithin c options backend rt limited word reached =
      Reaches-IsWithin c (make_runtime options backend) rt reached (record {
        unique = tt;
        below = tt;
        counted = ground arith;
        within = ground arith;
        word = word;
        limited = limited;
      })
