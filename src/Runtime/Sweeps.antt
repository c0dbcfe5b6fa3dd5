-- ===== src/Runtime/Sweeps.antt =====
-- src/rtmem.cpp: the accounts of a class under allocations and polls.
use programmable_retention_t.Prelude.{
  ℕ, ◌+◌, ◌≤◌, true, not, List, [], ◌∷◌, none, ◌≡◌, refl, arith, if◌then◌else◌, RetentionClass, at,
  lookup, Entries, inl, inr, Bool-cases, Option-cases,
}
use programmable_retention_t.Runtime.Types.{
  Status, Buffer, Region, Runtime, is_live, Backend, TraceSink, Reply, reply, bad_alloc, exception,
}
use programmable_retention_t.Runtime.Storage.{capacity_check_locked}
use programmable_retention_t.Runtime.Maintenance.{succeeded, maintain_locked}
use programmable_retention_t.Runtime.Allocation.{
  count_failure, new_buffer, commit_buffer, trace_and_commit, after_allocate, alloc_locked,
}
use programmable_retention_t.Runtime.Polling.{first_status, poll_buffers, poll_regions}
use programmable_retention_t.Runtime.Accounts.{add-Fits}
use programmable_retention_t.Runtime.Moves.{
  IsWithin, maintain-IsWithin, capacity-ok, capacity-IsWithin,
}
use programmable_retention_t.Runtime.Preservation.{either}

module _ {B A W : Type 0} ⦃be : Backend B A⦄ ⦃tr : TraceSink W⦄ (c : RetentionClass) where
  HasRoom : Runtime B A W → Buffer A → Type 0
  HasRoom rt b =
      b.retention_class ≡ c
      → at c rt.stats.active_bytes + b.size_bytes ≤ at c rt.options.class_capacity_bytes

  commit-IsWithin :
      (rt : Runtime B A W) (key : ℕ) (r : Region) (b : Buffer A)
      → is_live b.state ≡ true
      → HasRoom rt b
      → IsWithin c rt
      → IsWithin c (commit_buffer rt key r b)
  unfolding commit_buffer HasRoom
  commit-IsWithin rt key r b live room v = add-Fits c _ _ rt.heap _ b live room v

  trace_and_commit-IsWithin :
      (rt : Runtime B A W) (key : ℕ) (r : Region) (b : Buffer A)
      → is_live b.state ≡ true
      → HasRoom rt b
      → IsWithin c rt
      → IsWithin c (trace_and_commit rt key r b).0
  unfolding trace_and_commit commit_buffer
  trace_and_commit-IsWithin rt key r b live room v =
      ground (arith, v, commit-IsWithin rt key r b live room v)

  after_allocate-IsWithin :
      (rt : Runtime B A W) (key : ℕ) (r : Region) (size alignment : ℕ) (answer : B × Reply A)
      → (r.policy.retention_class ≡ c
          → at c rt.stats.active_bytes + size ≤ at c rt.options.class_capacity_bytes)
      → IsWithin c rt
      → IsWithin c (after_allocate rt key r size alignment answer).0
  unfolding after_allocate HasRoom
  after_allocate-IsWithin rt key r size alignment (backend, bad_alloc) room v = v
  after_allocate-IsWithin rt key r size alignment (backend, exception message) room v = v
  after_allocate-IsWithin rt key r size alignment (backend, reply allocation) room v =
      trace_and_commit-IsWithin _ key r
        (new_buffer (record rt { backend = backend }) key r allocation size alignment) refl room v

  pub alloc-IsWithin :
      (rt : Runtime B A W) (key : ℕ) (r : Region) (size alignment : ℕ)
      → IsWithin c rt
      → IsWithin c (alloc_locked rt key r size alignment).0
  unfolding alloc_locked
  alloc-IsWithin rt key r size alignment v =
      let size_ok = capacity-ok c rt r.policy.retention_class size in
      let checked : IsWithin c
          (if not (succeeded (capacity_check_locked rt r.policy.retention_class size).1)
            then (
              count_failure (capacity_check_locked rt r.policy.retention_class size).0,
              (capacity_check_locked rt r.policy.retention_class size).1,
              none,
            )
            else after_allocate (capacity_check_locked rt r.policy.retention_class size).0 key r
                size alignment
                (be.allocate (capacity_check_locked rt r.policy.retention_class size).0.backend
                  r.policy.retention_class size alignment)).0 =
        elim (Bool-cases (succeeded (capacity_check_locked rt r.policy.retention_class size).1)) [
          | inl ok ↦
              rw (ok, (size_ok ok).0)
                (after_allocate-IsWithin rt key r size alignment
                  (be.allocate rt.backend r.policy.retention_class size alignment)
                  (λ same. (size_ok ok).1 same v) v)
          | inr failed ↦ rw failed (capacity-IsWithin c rt r.policy.retention_class size v)
        ] in
      ground (arith, v, checked)

  pub poll_buffers-IsWithin :
      (rt : Runtime B A W) (hs : List ℕ) (now : ℕ) (first : Status)
      → IsWithin c rt
      → IsWithin c (poll_buffers rt hs now first).0
  unfolding poll_buffers
  poll_buffers-IsWithin rt [] now first v = v
  poll_buffers-IsWithin rt (h ∷ hs) now first v = elim (Option-cases (lookup h rt.heap)) [
    | inl e ↦ rw (poll_buffers, e) (poll_buffers-IsWithin rt hs now first v)
    | inr (b, e) ↦
        rw (poll_buffers, e)
          (poll_buffers-IsWithin (maintain_locked rt h b now).0 hs now
            (first_status first (maintain_locked rt h b now).1)
            (maintain-IsWithin c rt h b now e v))
  ]

  pub poll_regions-IsWithin :
      (rt : Runtime B A W) (rs : Entries Region) (now : ℕ) (first : Status)
      → IsWithin c rt
      → IsWithin c (poll_regions rt rs now first).0
  unfolding poll_regions
  poll_regions-IsWithin rt [] now first v = v
  poll_regions-IsWithin rt ((key, r) ∷ rest) now first v =
      either (λ s. IsWithin c (poll_regions s.0 rest now s.1).0) r.is_active
        (poll_buffers rt r.buffers now first) (rt, first)
        (λ on.
          poll_regions-IsWithin (poll_buffers rt r.buffers now first).0 rest now
            (poll_buffers rt r.buffers now first).1
            (poll_buffers-IsWithin rt r.buffers now first v))
        (λ off. poll_regions-IsWithin rt rest now first v)
