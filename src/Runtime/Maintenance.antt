-- ===== src/Runtime/Maintenance.antt =====
-- src/rtmem.cpp: moving a buffer to another class, and the maintenance of one buffer.
use programmable_retention_t.Prelude.{
  ℕ, ◌-◌, Bool, true, false, not, ◌&&◌, ◌||◌, Option, none, some, ◌==◌, ltb, leb, if◌then◌else◌,
  infinite, add64, sub64, insert, RetentionClass, class_index, same_class, at, put, PerClass,
}
use programmable_retention_t.Runtime.Types.{
  Status, success, invalid_argument, no_memory, capacity, expired, busy, backend_error, invalid,
  expired_state, is_live, expiry_error, expiry_invalidate, expiry_refresh, expiry_promote,
  Guarantee, required, preferred, approximate, Runtime, Buffer, Backend, TraceSink, Reply, reply,
  bad_alloc, exception, set_error, now_locked, deadline_locked,
}
use programmable_retention_t.Runtime.Storage.{
  destroy_allocation, count_expiry, release_storage_locked, validate_active_locked,
  capacity_check_locked, trace_hint_locked, trace_error,
}

abbrev pub succeeded : Status → Bool
succeeded success = true
succeeded _ = false

abbrev pub is_required : Guarantee → Bool
is_required required = true
is_required preferred = false
is_required approximate = false

-- A write or a refresh at the tick `now`.
abbrev pub touched : {A : Type 0} → Buffer A → ℕ → Buffer A
touched b now = record b { last_write_tick = now; generation = add64 b.generation 1 }

abbrev pub moved_bytes : PerClass ℕ → RetentionClass → RetentionClass → ℕ → PerClass ℕ
moved_bytes bytes source destination size =
    let lowered = put source (sub64 (at source bytes) size) bytes in
    put destination (add64 (at destination lowered) size) lowered

-- The buffer after a migration: a null result means that its allocation stays in place.
abbrev pub moved_buffer : {A : Type 0} → Buffer A → RetentionClass → Option A → ℕ → Buffer A
moved_buffer b c none now = touched (record b { retention_class = c }) now
moved_buffer b c (some a) now =
    touched (record b { retention_class = c; allocation = some a; exposed_pointer = none }) now

abbrev pub no_room : Status → Bool
no_room capacity = true
no_room _ = false

module _ {B A W : Type 0} ⦃be : Backend B A⦄ ⦃tr : TraceSink W⦄ where
  -- A refresh of the buffer's deadline.
  abbrev pub refreshed : Runtime B A W → ℕ → Buffer A → ℕ → Runtime B A W
  refreshed rt h b now = record rt {
    heap = insert h (touched b now) rt.heap;
    stats = record rt.stats { refreshes = add64 rt.stats.refreshes 1 };
  }

  abbrev pub count_invalidation : Runtime B A W → Runtime B A W
  count_invalidation rt = record rt {
    stats = record rt.stats { invalidations = add64 rt.stats.invalidations 1 };
  }

  -- The bookkeeping behind a backend migration that returned.
  unfoldable pub finish_migration :
      Runtime B A W → ℕ → Buffer A → RetentionClass → Option A → Runtime B A W
  unfolding now_locked
  finish_migration rt h b c migrated =
      let stronger = ltb (class_index b.retention_class) (class_index c) in
      record rt {
        backend = elim migrated [
          | none ↦ rt.backend
          | some a ↦ destroy_allocation rt.backend b.allocation
        ];
        heap = insert h (moved_buffer b c migrated (now_locked rt)) rt.heap;
        stats = record rt.stats {
          active_bytes = moved_bytes rt.stats.active_bytes b.retention_class c b.size_bytes;
          bytes_migrated = add64 rt.stats.bytes_migrated b.size_bytes;
          promotions = if stronger then add64 rt.stats.promotions 1 else rt.stats.promotions;
          demotions = if stronger then rt.stats.demotions else add64 rt.stats.demotions 1;
        };
      }

  -- `backend->migrate(*allocation, ...)`. For an active buffer without an allocation it stands for a
  -- migration in place; the source would follow a null pointer there.
  abbrev pub call_migrate : Runtime B A W → Buffer A → RetentionClass → B × Reply (Option A)
  call_migrate rt b c = elim b.allocation [
    | none ↦ (rt.backend, reply none)
    | some a ↦ be.migrate rt.backend a b.retention_class c b.size_bytes b.alignment
  ]

  -- The answer to that call.
  unfoldable pub after_migrate :
      Runtime B A W → ℕ → Buffer A → RetentionClass → B × Reply (Option A) → Runtime B A W × Status
  unfolding finish_migration
  after_migrate rt h b c (backend, bad_alloc) =
      set_error (record rt { backend = backend }) no_memory "backend migration allocation failed"
  after_migrate rt h b c (backend, exception message) =
      set_error (record rt { backend = backend }) backend_error message
  after_migrate rt h b c (backend, reply migrated) =
      (finish_migration (record rt { backend = backend }) h b c migrated, success)

  unfoldable pub migrate_locked :
      Runtime B A W → ℕ → Buffer A → RetentionClass → Runtime B A W × Status
  unfolding after_migrate
  migrate_locked rt h b c = after_migrate rt h b c (call_migrate rt b c)

  -- The part of `reclassify_locked` behind its guards and the trace hint.
  unfoldable pub change_class :
      Runtime B A W → ℕ → Buffer A → RetentionClass → Runtime B A W × Status
  unfolding capacity_check_locked migrate_locked now_locked
  change_class rt h b c =
      if same_class c b.retention_class
      then (refreshed rt h b (now_locked rt), success)
      else (let (rt', status) = capacity_check_locked rt c b.size_bytes in
          if succeeded status then migrate_locked rt' h b c else (rt', status))

  unfoldable pub reclassify_active :
      Runtime B A W → ℕ → Buffer A → Option RetentionClass → Bool → Runtime B A W × Status
  unfolding change_class trace_hint_locked
  reclassify_active rt h b none record_hint =
      set_error rt invalid_argument "invalid destination retention class"
  reclassify_active rt h b (some c) record_hint =
      if not (b.map_count == 0)
      then set_error rt busy "cannot reclassify a mapped buffer"
      else (if record_hint
          then (let (rt', written) = trace_hint_locked rt b c in
              if written
              then change_class rt' h b c
              else set_error rt' backend_error (trace_error rt'))
          else change_class rt h b c)

  unfoldable pub reclassify_locked :
      Runtime B A W → ℕ → Buffer A → Option RetentionClass → Bool → Runtime B A W × Status
  unfolding validate_active_locked reclassify_active
  reclassify_locked rt h b destination record_hint =
      let (rt', status) = validate_active_locked rt h b in
      if succeeded status then reclassify_active rt' h b destination record_hint else (rt', status)

  -- The promotion at the end of a retention period, which falls back to a refresh if the stronger
  -- class is full and the guarantee allows it.
  unfoldable pub promote_or_refresh : Runtime B A W → ℕ → Buffer A → ℕ → Runtime B A W × Status
  unfolding reclassify_locked
  promote_or_refresh rt h b now =
      let (rt', status) = reclassify_locked rt h b (some b.promotion_target) false in
      if no_room status && not (is_required b.guarantee)
      then (record (refreshed rt' h b now) { last_error = "" }, success)
      else (rt', status)

  unfoldable pub act_on_expiry : Runtime B A W → ℕ → Buffer A → ℕ → Runtime B A W × Status
  unfolding release_storage_locked promote_or_refresh
  act_on_expiry rt h b now = elim b.on_expiry [
    | expiry_error ↦ (rt, success)
    | expiry_invalidate ↦ (count_invalidation (release_storage_locked rt h b invalid), success)
    | expiry_refresh ↦ (refreshed rt h b now, success)
    | expiry_promote ↦ promote_or_refresh rt h b now
  ]

  unfoldable pub maintain_locked : Runtime B A W → ℕ → Buffer A → ℕ → Runtime B A W × Status
  unfolding act_on_expiry deadline_locked
  maintain_locked rt h b now =
      let deadline = deadline_locked rt b in
      if not (is_live b.state) || not (b.map_count == 0)
      then (rt, success)
      else (if deadline == infinite
          then (rt, success)
          else (if leb deadline now
              then set_error (count_expiry (release_storage_locked rt h b expired_state)) expired
                  "buffer expired before maintenance"
              else (if ltb rt.options.poll_guard_ticks (deadline - now)
                  then (rt, success)
                  else act_on_expiry rt h b now)))
