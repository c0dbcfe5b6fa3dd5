-- ===== src/Runtime/Moves.antt =====
-- src/rtmem.cpp: the accounts of a class under the operations on one buffer.
use programmable_retention_t.Prelude.{
  ℕ, ◌+◌, ◌≤◌, Bool, true, false, Option, none, some, ◌≡◌, refl, arith, if◌then◌else◌,
  RetentionClass, same_class, at, lookup, inl, inr, ap, ◌∙◌, Bool-cases, Option-cases,
}
use programmable_retention_t.Runtime.Types.{
  Status, BufferState, invalid, expired_state, Buffer, Runtime, is_live, Backend, TraceSink, Reply,
  reply, bad_alloc, exception, now_locked,
}
use programmable_retention_t.Runtime.Storage.{
  release_storage_locked, released_buffer, validate_active_locked, capacity_check_locked,
  trace_hint_locked,
}
use programmable_retention_t.Runtime.Maintenance.{
  succeeded, no_room, touched, refreshed, moved_buffer, finish_migration, after_migrate,
  call_migrate, migrate_locked, change_class, reclassify_active, reclassify_locked,
  promote_or_refresh, act_on_expiry, maintain_locked,
}
use programmable_retention_t.Runtime.Accounts.{Fits, update-Fits, release-Fits, move-Fits}

-- The accounts of the class `c` are right.
abbrev pub IsWithin : {B A W : Type 0} → RetentionClass → Runtime B A W → Type 0
IsWithin c rt = Fits c rt.options.class_capacity_bytes rt.stats.active_bytes rt.heap rt.next_handle

-- A call whose guard either fails or leaves the runtime alone.
pub guarded :
    {B A W : Type 0} (P : Runtime B A W → Type 0) (r : Runtime B A W × Status) (rt : Runtime B A W)
    (body : Runtime B A W → Runtime B A W × Status)
    → P r.0
    → (succeeded r.1 ≡ true → r.0 ≡ rt)
    → (succeeded r.1 ≡ true → P (body rt).0)
    → P (if succeeded r.1 then body r.0 else r).0
guarded P r rt body h same k = elim (Bool-cases (succeeded r.1)) [
  | inl ok ↦ rw (ok, same ok) (k ok)
  | inr failed ↦ rw failed h
]

module _ {B A W : Type 0} ⦃be : Backend B A⦄ ⦃tr : TraceSink W⦄ (c : RetentionClass) where
  pub release-IsWithin :
      (rt : Runtime B A W) (h : ℕ) (b : Buffer A) (s : BufferState)
      → lookup h rt.heap ≡ some b
      → is_live s ≡ false
      → IsWithin c rt
      → IsWithin c (release_storage_locked rt h b s)
  unfolding release_storage_locked
  release-IsWithin rt h b s e dead v = elim (Bool-cases (is_live b.state)) [
    | inl live ↦ rw live (release-Fits c _ _ rt.heap _ h b (released_buffer b s) e live dead v)
    | inr gone ↦
        rw gone
          (update-Fits c _ _ rt.heap _ h b (record b { state = s }) e (rw (gone, dead) refl) v)
  ]

  pub validate-ok :
      (rt : Runtime B A W) (h : ℕ) (b : Buffer A)
      → succeeded (validate_active_locked rt h b).1 ≡ true
      → ((validate_active_locked rt h b).0 ≡ rt) × (is_live b.state ≡ true)
  unfolding validate_active_locked
  validate-ok rt h b = ground arith

  pub validate-IsWithin :
      (rt : Runtime B A W) (h : ℕ) (b : Buffer A)
      → lookup h rt.heap ≡ some b
      → IsWithin c rt
      → IsWithin c (validate_active_locked rt h b).0
  unfolding validate_active_locked
  validate-IsWithin rt h b e v = ground (arith, v, release-IsWithin rt h b expired_state e refl v)

  pub refreshed-IsWithin :
      (rt : Runtime B A W) (h : ℕ) (b : Buffer A) (now : ℕ)
      → lookup h rt.heap ≡ some b
      → IsWithin c rt
      → IsWithin c (refreshed rt h b now)
  refreshed-IsWithin rt h b now e v = update-Fits c _ _ rt.heap _ h b (touched b now) e refl v

  pub capacity-IsWithin :
      (rt : Runtime B A W) (d : RetentionClass) (n : ℕ)
      → IsWithin c rt
      → IsWithin c (capacity_check_locked rt d n).0
  unfolding capacity_check_locked
  capacity-IsWithin rt d n v = ground (arith, v)

  pub capacity-ok :
      (rt : Runtime B A W) (d : RetentionClass) (n : ℕ)
      → succeeded (capacity_check_locked rt d n).1 ≡ true
      → ((capacity_check_locked rt d n).0 ≡ rt)
        × (d ≡ c
            → IsWithin c rt
            → at c rt.stats.active_bytes + n ≤ at c rt.options.class_capacity_bytes)
  unfolding capacity_check_locked
  capacity-ok rt d n = ground arith

  finish_migration-IsWithin :
      (rt : Runtime B A W) (h : ℕ) (b : Buffer A) (d : RetentionClass) (migrated : Option A)
      → lookup h rt.heap ≡ some b
      → is_live b.state ≡ true
      → (d ≡ c → at c rt.stats.active_bytes + b.size_bytes ≤ at c rt.options.class_capacity_bytes)
      → IsWithin c rt
      → IsWithin c (finish_migration rt h b d migrated)
  unfolding finish_migration
  finish_migration-IsWithin rt h b d none e live room v =
      move-Fits c _ _ rt.heap _ h b (moved_buffer b d none (now_locked rt)) d e live live refl refl
        room v
  finish_migration-IsWithin rt h b d (some a) e live room v =
      move-Fits c _ _ rt.heap _ h b (moved_buffer b d (some a) (now_locked rt)) d e live live refl
        refl room v

  after_migrate-IsWithin :
      (rt : Runtime B A W) (h : ℕ) (b : Buffer A) (d : RetentionClass)
      (answer : B × Reply (Option A))
      → lookup h rt.heap ≡ some b
      → is_live b.state ≡ true
      → (d ≡ c → at c rt.stats.active_bytes + b.size_bytes ≤ at c rt.options.class_capacity_bytes)
      → IsWithin c rt
      → IsWithin c (after_migrate rt h b d answer).0
  unfolding after_migrate
  after_migrate-IsWithin rt h b d (backend, bad_alloc) e live room v = v
  after_migrate-IsWithin rt h b d (backend, exception message) e live room v = v
  after_migrate-IsWithin rt h b d (backend, reply migrated) e live room v =
      finish_migration-IsWithin (record rt { backend = backend }) h b d migrated e live room v

  change_class-IsWithin :
      (rt : Runtime B A W) (h : ℕ) (b : Buffer A) (d : RetentionClass)
      → lookup h rt.heap ≡ some b
      → is_live b.state ≡ true
      → IsWithin c rt
      → IsWithin c (change_class rt h b d).0
  unfolding change_class migrate_locked
  change_class-IsWithin rt h b d e live v =
      let moves : IsWithin c
          (if succeeded (capacity_check_locked rt d b.size_bytes).1
            then migrate_locked (capacity_check_locked rt d b.size_bytes).0 h b d
            else capacity_check_locked rt d b.size_bytes).0 =
        guarded (IsWithin c) (capacity_check_locked rt d b.size_bytes) rt
          (λ rt'. migrate_locked rt' h b d) (capacity-IsWithin rt d b.size_bytes v)
          (λ ok. (capacity-ok rt d b.size_bytes ok).0)
          (λ ok.
            after_migrate-IsWithin rt h b d (call_migrate rt b d) e live
              (λ same. (capacity-ok rt d b.size_bytes ok).1 same v) v) in
      elim (Bool-cases (same_class d b.retention_class)) [
        | inl same ↦ rw same (refreshed-IsWithin rt h b (now_locked rt) e v)
        | inr other ↦ rw other moves
      ]

  pub trace_hint-trace :
      (rt : Runtime B A W) (b : Buffer A) (d : RetentionClass)
      → (t : Option W) × ((trace_hint_locked rt b d).0 ≡ record rt { trace = t })
  unfolding trace_hint_locked
  trace_hint-trace rt b d = elim (Option-cases rt.trace) [
    | inl e ↦ (rt.trace, rw e refl)
    | inr (w, e) ↦ (some (tr.trace_hint w (now_locked rt) b.trace_id d).0, rw e refl)
  ]

  reclassify_active-IsWithin :
      (rt : Runtime B A W) (h : ℕ) (b : Buffer A) (d : Option RetentionClass) (hint : Bool)
      → lookup h rt.heap ≡ some b
      → is_live b.state ≡ true
      → IsWithin c rt
      → IsWithin c (reclassify_active rt h b d hint).0
  unfolding reclassify_active
  reclassify_active-IsWithin rt h b none hint e live v = v
  reclassify_active-IsWithin rt h b (some d) hint e live v =
      let (t, traced) = trace_hint-trace rt b d in
      let hinted : IsWithin c (change_class (trace_hint_locked rt b d).0 h b d).0 =
        rw traced (change_class-IsWithin (record rt { trace = t }) h b d e live v) in
      let noted : IsWithin c (trace_hint_locked rt b d).0 = rw traced v in
      ground (arith, v, hinted, noted, change_class-IsWithin rt h b d e live v)

  pub reclassify-IsWithin :
      (rt : Runtime B A W) (h : ℕ) (b : Buffer A) (d : Option RetentionClass) (hint : Bool)
      → lookup h rt.heap ≡ some b
      → IsWithin c rt
      → IsWithin c (reclassify_locked rt h b d hint).0
  unfolding reclassify_locked
  reclassify-IsWithin rt h b d hint e v =
      guarded (IsWithin c) (validate_active_locked rt h b) rt
        (λ rt'. reclassify_active rt' h b d hint) (validate-IsWithin rt h b e v)
        (λ ok. (validate-ok rt h b ok).0)
        (λ ok. reclassify_active-IsWithin rt h b d hint e (validate-ok rt h b ok).1 v)

  after_migrate-room :
      (rt : Runtime B A W) (h : ℕ) (b : Buffer A) (d : RetentionClass)
      (answer : B × Reply (Option A))
      → no_room (after_migrate rt h b d answer).1 ≡ false
  unfolding after_migrate
  after_migrate-room rt h b d (backend, bad_alloc) = refl
  after_migrate-room rt h b d (backend, exception message) = refl
  after_migrate-room rt h b d (backend, reply migrated) = refl

  change_class-no_room :
      (rt : Runtime B A W) (h : ℕ) (b : Buffer A) (d : RetentionClass)
      → no_room (change_class rt h b d).1 ≡ true
      → (change_class rt h b d).0.heap ≡ rt.heap
  unfolding change_class migrate_locked capacity_check_locked
  change_class-no_room rt h b d = ground (arith, after_migrate-room rt h b d (call_migrate rt b d))

  trace_hint-heap :
      (rt : Runtime B A W) (b : Buffer A) (d : RetentionClass)
      → (trace_hint_locked rt b d).0.heap ≡ rt.heap
  trace_hint-heap rt b d = ap (λ x. x.heap) (trace_hint-trace rt b d).1

  reclassify_active-no_room :
      (rt : Runtime B A W) (h : ℕ) (b : Buffer A) (d : Option RetentionClass) (hint : Bool)
      → no_room (reclassify_active rt h b d hint).1 ≡ true
      → (reclassify_active rt h b d hint).0.heap ≡ rt.heap
  unfolding reclassify_active
  reclassify_active-no_room rt h b none hint = ground arith
  reclassify_active-no_room rt h b (some d) hint = ground (
    arith,
    change_class-no_room rt h b d,
    change_class-no_room (trace_hint_locked rt b d).0 h b d,
    trace_hint-heap rt b d,
  )

  validate-room :
      (rt : Runtime B A W) (h : ℕ) (b : Buffer A)
      → no_room (validate_active_locked rt h b).1 ≡ false
  unfolding validate_active_locked
  validate-room rt h b = ground arith

  -- A reclassification for which there is no room leaves the buffers as they are.
  pub reclassify-no_room :
      (rt : Runtime B A W) (h : ℕ) (b : Buffer A) (d : Option RetentionClass) (hint : Bool)
      → no_room (reclassify_locked rt h b d hint).1 ≡ true
      → (reclassify_locked rt h b d hint).0.heap ≡ rt.heap
  unfolding reclassify_locked
  reclassify-no_room rt h b d hint =
      elim (Bool-cases (succeeded (validate_active_locked rt h b).1)) [
        | inl ok ↦ rw (ok, (validate-ok rt h b ok).0) (reclassify_active-no_room rt h b d hint)
        | inr failed ↦ rw (failed, validate-room rt h b) (ground arith)
      ]

  promote-IsWithin :
      (rt : Runtime B A W) (h : ℕ) (b : Buffer A) (now : ℕ)
      → lookup h rt.heap ≡ some b
      → IsWithin c rt
      → IsWithin c (promote_or_refresh rt h b now).0
  unfolding promote_or_refresh
  promote-IsWithin rt h b now e v =
      let moved = reclassify-IsWithin rt h b (some b.promotion_target) false e v in
      let there = reclassify-no_room rt h b (some b.promotion_target) false in
      elim (Bool-cases (no_room (reclassify_locked rt h b (some b.promotion_target) false).1)) [
        | inl full ↦
            let stays : IsWithin c
                (refreshed (reclassify_locked rt h b (some b.promotion_target) false).0 h b now) =
              refreshed-IsWithin (reclassify_locked rt h b (some b.promotion_target) false).0 h b
                now (ap (lookup h) (there full) ∙ e) moved in
            ground (arith, moved, stays)
        | inr room ↦ rw room moved
      ]

  act-IsWithin :
      (rt : Runtime B A W) (h : ℕ) (b : Buffer A) (now : ℕ)
      → lookup h rt.heap ≡ some b
      → IsWithin c rt
      → IsWithin c (act_on_expiry rt h b now).0
  unfolding act_on_expiry
  act-IsWithin rt h b now e v = ground (
    arith,
    v,
    release-IsWithin rt h b invalid e refl v,
    refreshed-IsWithin rt h b now e v,
    promote-IsWithin rt h b now e v,
  )

  pub maintain-IsWithin :
      (rt : Runtime B A W) (h : ℕ) (b : Buffer A) (now : ℕ)
      → lookup h rt.heap ≡ some b
      → IsWithin c rt
      → IsWithin c (maintain_locked rt h b now).0
  unfolding maintain_locked
  maintain-IsWithin rt h b now e v =
      ground (arith, v, release-IsWithin rt h b expired_state e refl v, act-IsWithin rt h b now e v)
