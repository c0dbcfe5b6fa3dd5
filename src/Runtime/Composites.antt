-- ===== src/Runtime/Composites.antt =====
-- src/rtmem.cpp: the accounts of a class under the calls that are made of other calls.
use programmable_retention_t.Prelude.{
  ℕ, add64, Bool, true, false, not, Option, none, some, is_some, List, length, ◌≡◌, refl, arith,
  inl, inr, ◌||◌, ◌==◌, Option-cases, lookup, RetentionClass,
}
use programmable_retention_t.Prelude.Exceptions.{
  Attempt, returned, undefined, Ensures, Ensures->>=, Ensures-if,
}
use programmable_retention_t.Runtime.Types.{
  Status, Buffer, Region, Runtime, Backend, TraceSink, Reply, reply, bad_alloc, exception,
}
use programmable_retention_t.Runtime.Storage.{capacity_check_locked}
use programmable_retention_t.Runtime.Maintenance.{succeeded}
use programmable_retention_t.Runtime.Buffers.{valid_flags, map_write, map_locked, rt_buffer_map}
use programmable_retention_t.Runtime.Access.{
  unmap_locked, rt_buffer_unmap, trace_access_locked, rt_buffer_trace_access, free_locked,
  rt_buffer_free,
}
use programmable_retention_t.Runtime.Allocation.{
  alloc_locked, after_allocate, trace_and_commit, commit_buffer, new_buffer, valid_alignment,
  rt_alloc,
}
use programmable_retention_t.Runtime.Pointers.{
  map_read, map_both, finish_malloc, expose_pointer, after_alloc, rt_region_malloc, finish_bytes,
  outside, after_read_map, rt_buffer_read_bytes, after_write_map, rt_buffer_write_bytes,
}
use programmable_retention_t.Runtime.Moves.{IsWithin}
use programmable_retention_t.Runtime.Preservation.{
  either, map-IsWithin, unmap-IsWithin, trace_access-IsWithin, free-IsWithin,
}
use programmable_retention_t.Runtime.Presence.{IsThere, insert_there, map-IsThere, unmap-IsThere}
use programmable_retention_t.Runtime.Sweeps.{alloc-IsWithin}

-- The result for a key that is there.
pub found :
    {V X : Type 0} (o : Option V) (f : V → Attempt X) (P : X → Type 0)
    → is_some o ≡ true
    → ((x : V) → o ≡ some x → Ensures (f x) P)
    → Ensures (elim o [ none ↦ undefined | some x ↦ f x ]) P
found none f P there k = ground (arith, there)
found (some x) f P there k = k x refl

module _ {B A W : Type 0} ⦃be : Backend B A⦄ ⦃tr : TraceSink W⦄ (c : RetentionClass) where
  -- The accounts are right, and the buffer is there.
  abbrev IsKept : ℕ → Runtime B A W → Type 0
  IsKept h rt = IsWithin c rt × IsThere h rt

  map_call :
      (rt : Runtime B A W) (h flags : ℕ)
      → IsKept h rt
      → Ensures (rt_buffer_map rt (some h) flags) (λ s. IsKept h s.0.0)
  unfolding rt_buffer_map
  map_call rt h flags (v, there) =
      Ensures-if (not (valid_flags flags)) _ _ _ (v, there)
        (found (lookup h rt.heap) (λ b. returned (map_locked rt flags h b)) _ there
          (λ b e. (map-IsWithin c rt h b e v flags, map-IsThere rt flags h b there)))

  unmap_call :
      (rt : Runtime B A W) (h : ℕ)
      → IsKept h rt
      → Ensures (rt_buffer_unmap rt (some h)) (λ s. IsKept h s.0)
  unfolding rt_buffer_unmap
  unmap_call rt h (v, there) =
      found (lookup h rt.heap) (λ b. returned (unmap_locked rt h b)) _ there
        (λ b e. (unmap-IsWithin c rt h b e v, unmap-IsThere rt h b there))

  free_call :
      (rt : Runtime B A W) (h : ℕ) → IsKept h rt → Ensures (rt_buffer_free rt (some h)) (IsWithin c)
  unfolding rt_buffer_free
  free_call rt h (v, there) =
      found (lookup h rt.heap) (λ b. returned (free_locked rt h b)) _ there
        (λ b e. free-IsWithin c rt h b e v)

  trace_access_call :
      (rt : Runtime B A W) (h : ℕ) (is_read : Bool) (offset size stream : ℕ)
      → IsKept h rt
      → Ensures
          (rt_buffer_trace_access rt (some h) is_read offset size stream)
          (λ s. IsWithin c s.0)
  unfolding rt_buffer_trace_access
  trace_access_call rt h is_read offset size stream (v, there) = Ensures-if (size == 0) _ _ _ v (
      found (lookup h rt.heap)
        (λ b. returned (trace_access_locked rt is_read offset size stream h b)) _ there
        (λ b e. trace_access-IsWithin c rt h b e v is_read offset size stream))

  finish_malloc-IsWithin :
      (h : ℕ) (pointer : Option ℕ) (r : Runtime B A W × Status)
      → IsKept h r.0
      → Ensures (finish_malloc h pointer r) (λ s. IsWithin c s.0.0)
  unfolding finish_malloc
  finish_malloc-IsWithin h pointer (rt, status) k =
      Ensures-if (succeeded status) _ _ _ k.0
        (Ensures->>= (rt_buffer_free rt (some h)) _ _ _ (free_call rt h k) (λ freed v. v))

  expose_pointer-IsWithin :
      (h : ℕ) (rt : Runtime B A W)
      → IsKept h rt
      → Ensures (expose_pointer h rt) (λ s. IsWithin c s.0.0)
  unfolding expose_pointer
  expose_pointer-IsWithin h rt k =
      Ensures->>= (rt_buffer_map rt (some h) map_both) _ _ _ (map_call rt h map_both k) λ mapped m.
        Ensures-if (succeeded mapped.0.1) _ _ _
          (Ensures->>= (rt_buffer_unmap mapped.0.0 (some h)) _ _ _ (unmap_call mapped.0.0 h m)
            (λ unmapped u. finish_malloc-IsWithin h mapped.1 unmapped u))
          (finish_malloc-IsWithin h none mapped.0 m)

  finish_bytes-IsWithin :
      (rt : Runtime B A W) (h : ℕ) (is_read : Bool) (offset size stream : ℕ)
      → IsKept h rt
      → Ensures (finish_bytes rt h is_read offset size stream) (λ s. IsWithin c s.0)
  unfolding finish_bytes
  finish_bytes-IsWithin rt h is_read offset size stream k =
      Ensures->>= (rt_buffer_unmap rt (some h)) _ _ _ (unmap_call rt h k) λ unmapped u.
        Ensures-if (succeeded unmapped.1) _ _ _
          (trace_access_call unmapped.0 h is_read offset size stream u) u.0

  after_read_map-IsWithin :
      (h offset size stream : ℕ) (r : (Runtime B A W × Status) × Option ℕ)
      → IsKept h r.0.0
      → Ensures (after_read_map h offset size stream r) (λ s. IsWithin c s.0.0)
  after_read_map-IsWithin h offset size stream ((rt, status), none) k = k.0
  after_read_map-IsWithin h offset size stream ((rt, status), some pointer) k =
      Ensures->>= (finish_bytes rt h true offset size stream) _ _ _
        (finish_bytes-IsWithin rt h true offset size stream k) (λ r v. v)

  pub read_bytes-IsWithin :
      (rt : Runtime B A W) (h offset size stream : ℕ)
      → IsWithin c rt
      → IsThere h rt
      → Ensures (rt_buffer_read_bytes rt (some h) offset size stream) (λ s. IsWithin c s.0.0)
  unfolding rt_buffer_read_bytes
  read_bytes-IsWithin rt h offset size stream v there = found (lookup h rt.heap) _ _ there λ b e.
      Ensures-if (outside b offset size) _ _ _ v (
        Ensures->>= (rt_buffer_map rt (some h) map_read) _ _ _ (map_call rt h map_read (v, there))
          (λ r k. after_read_map-IsWithin h offset size stream r k))

  after_write_map-IsWithin :
      (h offset : ℕ) (bytes : List ℕ) (stream : ℕ) (r : (Runtime B A W × Status) × Option ℕ)
      → IsKept h r.0.0
      → Ensures (after_write_map h offset bytes stream r) (λ s. IsWithin c s.0)
  after_write_map-IsWithin h offset bytes stream ((rt, status), none) k = k.0
  after_write_map-IsWithin h offset bytes stream ((rt, status), some pointer) k =
      finish_bytes-IsWithin (record rt { backend = be.store rt.backend pointer offset bytes }) h
        false offset (length bytes) stream (k.0, k.1)

  pub write_bytes-IsWithin :
      (rt : Runtime B A W) (h offset : ℕ) (bytes : List ℕ) (stream : ℕ)
      → IsWithin c rt
      → IsThere h rt
      → Ensures (rt_buffer_write_bytes rt (some h) offset bytes stream) (λ s. IsWithin c s.0)
  unfolding rt_buffer_write_bytes
  write_bytes-IsWithin rt h offset bytes stream v there = found (lookup h rt.heap) _ _ there λ b e.
      Ensures-if (outside b offset (length bytes)) _ _ _ v (
        Ensures->>= (rt_buffer_map rt (some h) map_write) _ _ _ (map_call rt h map_write (v, there))
          (λ r k. after_write_map-IsWithin h offset bytes stream r k))

module _ {B A W : Type 0} ⦃be : Backend B A⦄ ⦃tr : TraceSink W⦄ where
  -- A new buffer is in the heap.
  abbrev IsAllocated : Runtime B A W × Status × Option ℕ → Type 0
  IsAllocated (rt, status, none) = Unit {0}
  IsAllocated (rt, status, some h) = IsThere h rt

  commit-IsThere :
      (rt : Runtime B A W) (key : ℕ) (r : Region) (b : Buffer A)
      → IsThere rt.next_handle (commit_buffer rt key r b)
  unfolding commit_buffer
  commit-IsThere rt key r b = insert_there rt.next_handle b rt.heap

  trace_and_commit-IsAllocated :
      (rt : Runtime B A W) (key : ℕ) (r : Region) (b : Buffer A)
      → IsAllocated (trace_and_commit rt key r b)
  unfolding trace_and_commit
  trace_and_commit-IsAllocated rt key r b = elim (Option-cases rt.trace) [
    | inl e ↦ rw (e, trace_and_commit) (commit-IsThere (record rt { trace = none }) key r b)
    | inr (w, e) ↦
        rw (e, trace_and_commit)
          (let answer =
              tr.trace_allocation w b.created_tick b.trace_id b.size_bytes b.alignment
                b.retention_class r.debug_name in
            either IsAllocated answer.1 _ _
              (λ _. commit-IsThere (record rt { trace = some answer.0 }) key r b) (λ _. tt))
  ]

  after_allocate-IsAllocated :
      (rt : Runtime B A W) (key : ℕ) (r : Region) (size alignment : ℕ) (answer : B × Reply A)
      → IsAllocated (after_allocate rt key r size alignment answer)
  unfolding after_allocate
  after_allocate-IsAllocated rt key r size alignment (backend, reply allocation) =
      let used = record rt { backend = backend } in
      trace_and_commit-IsAllocated (record used { next_trace_id = add64 used.next_trace_id 1 }) key
        r (new_buffer used key r allocation size alignment)
  after_allocate-IsAllocated rt key r size alignment (backend, bad_alloc) = tt
  after_allocate-IsAllocated rt key r size alignment (backend, exception message) = tt

  alloc-IsAllocated :
      (rt : Runtime B A W) (key : ℕ) (r : Region) (size alignment : ℕ)
      → IsAllocated (alloc_locked rt key r size alignment)
  unfolding alloc_locked
  alloc-IsAllocated rt key r size alignment =
      let checked = capacity_check_locked rt r.policy.retention_class size in
      either IsAllocated (not r.is_active) _ _ (λ _. tt)
        λ _.
          either IsAllocated (not (succeeded checked.1)) _ _ (λ _. tt)
            (λ _. after_allocate-IsAllocated checked.0 key r size alignment _)

  after_alloc-IsWithin :
      (c : RetentionClass) (s : Runtime B A W × Status × Option ℕ)
      → IsWithin c s.0
      → IsAllocated s
      → Ensures (after_alloc s) (λ t. IsWithin c t.0.0)
  after_alloc-IsWithin c (rt, status, none) v there = v
  after_alloc-IsWithin c (rt, status, some h) v there = expose_pointer-IsWithin c h rt (v, there)

  pub malloc-IsWithin :
      (c : RetentionClass) (rt : Runtime B A W) (key size alignment : ℕ)
      → IsWithin c rt
      → is_some (lookup key rt.regions) ≡ true
      → Ensures (rt_region_malloc rt (some key) size alignment) (λ s. IsWithin c s.0.0)
  unfolding rt_region_malloc rt_alloc
  malloc-IsWithin c rt key size alignment v there =
      Ensures-if (not (be.host_coherent rt.backend)) _ _ _ v (
        Ensures->>= (rt_alloc rt (some key) size alignment) _ (λ s. IsWithin c s.0 × IsAllocated s)
          _
          (Ensures-if (size == 0 || not (valid_alignment alignment)) _ _ _ (v, tt)
            (found (lookup key rt.regions) (λ r. returned (alloc_locked rt key r size alignment)) _
              there
              (λ r e. (
                alloc-IsWithin c rt key r size alignment v,
                alloc-IsAllocated rt key r size alignment,
              ))))
          (λ s k. after_alloc-IsWithin c s k.0 k.1))
