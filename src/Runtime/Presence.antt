-- ===== src/Runtime/Presence.antt =====
-- src/rtmem.cpp: a buffer stays in the heap until it is deleted.
use programmable_retention_t.Prelude.{
  ℕ, true, not, Option, none, some, is_some, ◌||◌, ◌≡◌, refl, ap, ◌∙◌, arith, inl, inr, ◌==◌,
  Option-cases, lookup, insert, lookup-insert, Entries,
}
use programmable_retention_t.Runtime.Types.{
  Status, Buffer, BufferState, Runtime, Backend, TraceSink, Reply, reply, bad_alloc, exception,
  now_locked, is_live, expired_state,
}
use programmable_retention_t.Runtime.Storage.{
  set_buffer, validate_active_locked, release_storage_locked, released_buffer,
}
use programmable_retention_t.Runtime.Preservation.{either}
use programmable_retention_t.Runtime.Maintenance.{succeeded}
use programmable_retention_t.Runtime.Buffers.{map_locked, after_map, call_map, mapped_buffer}
use programmable_retention_t.Runtime.Access.{unmap_locked, after_reply, call_unmap, unmapped_buffer}

pub insert_there :
    {V : Type 0} (h : ℕ) (x : V) (entries : Entries V)
    → is_some (lookup h (insert h x entries)) ≡ true
insert_there h x entries = rw (lookup-insert h h x entries) (ground arith)

module _ {B A W : Type 0} ⦃be : Backend B A⦄ ⦃tr : TraceSink W⦄ where
  abbrev pub IsThere : ℕ → Runtime B A W → Type 0
  IsThere h rt = is_some (lookup h rt.heap) ≡ true

  pub release-IsThere :
      (rt : Runtime B A W) (h : ℕ) (b : Buffer A) (s : BufferState)
      → IsThere h rt
      → IsThere h (release_storage_locked rt h b s)
  unfolding release_storage_locked
  release-IsThere rt h b s there =
      either (IsThere h) (not (is_live b.state)) _ _
        (λ _. insert_there h (record b { state = s }) rt.heap)
        (λ _. insert_there h (released_buffer b s) rt.heap)

  pub validate-IsThere :
      (rt : Runtime B A W) (h : ℕ) (b : Buffer A)
      → IsThere h rt
      → IsThere h (validate_active_locked rt h b).0
  unfolding validate_active_locked
  validate-IsThere rt h b there = ground (arith, there, release-IsThere rt h b expired_state there)

  after_map-IsThere :
      (rt : Runtime B A W) (flags h : ℕ) (b : Buffer A) (answer : B × Reply (Option ℕ))
      → IsThere h rt
      → IsThere h (after_map rt flags h b answer).0.0
  unfolding after_map
  after_map-IsThere rt flags h b (backend, reply none) there = there
  after_map-IsThere rt flags h b (backend, reply (some pointer)) there =
      insert_there h (mapped_buffer b flags pointer) rt.heap
  after_map-IsThere rt flags h b (backend, bad_alloc) there = there
  after_map-IsThere rt flags h b (backend, exception message) there = there

  pub map-IsThere :
      (rt : Runtime B A W) (flags h : ℕ) (b : Buffer A)
      → IsThere h rt
      → IsThere h (map_locked rt flags h b).0.0
  unfolding map_locked
  map-IsThere rt flags h b there =
      let checked = validate_active_locked rt h b in
      let kept = validate-IsThere rt h b there in
      either (λ (x : (Runtime B A W × Status) × Option ℕ). IsThere h x.0.0)
        (not (succeeded checked.1)) _ _ (λ _. kept)
        λ _.
          either (λ (x : (Runtime B A W × Status) × Option ℕ). IsThere h x.0.0)
            (not (b.map_count == 0)) _ _ (λ _. kept)
            (λ _. after_map-IsThere checked.0 flags h b (call_map checked.0 b flags) kept)

  after_reply-IsThere :
      {X : Type 0} (h : ℕ) (r : Runtime B A W × Reply X) (done : Runtime B A W → Runtime B A W)
      → IsThere h r.0
      → IsThere h (done r.0)
      → IsThere h (after_reply r done).0
  after_reply-IsThere h (rt, reply x) done there k = k
  after_reply-IsThere h (rt, bad_alloc) done there k = there
  after_reply-IsThere h (rt, exception message) done there k = there

  call_unmap-heap : (rt : Runtime B A W) (b : Buffer A) → (call_unmap rt b).0.heap ≡ rt.heap
  call_unmap-heap rt b = elim (Option-cases b.allocation) [
    | inl e ↦ rw e refl
    | inr (a, e) ↦ rw e refl
  ]

  pub unmap-IsThere :
      (rt : Runtime B A W) (h : ℕ) (b : Buffer A) → IsThere h rt → IsThere h (unmap_locked rt h b).0
  unfolding unmap_locked
  unmap-IsThere rt h b there =
      let called = call_unmap rt b in
      either (λ (x : Runtime B A W × Status). IsThere h x.0)
        (not (is_live b.state) || b.map_count == 0) _ _ (λ _. there)
        (λ _.
          after_reply-IsThere h called
            (λ rt'. set_buffer rt' h (unmapped_buffer b (now_locked rt')))
            (ap (λ heap. is_some (lookup h heap)) (call_unmap-heap rt b) ∙ there)
            (insert_there h (unmapped_buffer b (now_locked called.0)) called.0.heap))
