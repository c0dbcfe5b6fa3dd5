-- ===== src/Runtime/Storage.antt =====
-- src/rtmem.cpp: releasing storage, checking that a buffer is active, and the capacity check.
use programmable_retention_t.Prelude.{
  ℕ, ◌-◌, String, Bool, true, false, not, ◌&&◌, ◌||◌, Option, none, some, ◌==◌, ltb, leb,
  if◌then◌else◌, infinite, add64, sub64, lookup, insert, RetentionClass, at, put, Entries,
}
use programmable_retention_t.Runtime.Types.{
  Status, success, capacity, expired, invalid_state, BufferState, active, invalid, expired_state,
  is_live, Runtime, Buffer, Region, Backend, TraceSink, set_error, now_locked, deadline_locked,
}

-- `region->stats.active_buffers--; region->stats.active_bytes -= size`
abbrev pub shrink_region : Entries Region → ℕ → ℕ → Entries Region
shrink_region regions key size = elim (lookup key regions) [
  | none ↦ regions
  | some r ↦
      insert key
        (record r {
          stats = record r.stats {
            active_buffers = sub64 r.stats.active_buffers 1;
            active_bytes = sub64 r.stats.active_bytes size;
          };
        })
        regions
]

abbrev pub released_buffer : {A : Type 0} → Buffer A → BufferState → Buffer A
released_buffer b new_state = record b {
  allocation = none;
  exposed_pointer = none;
  state = new_state;
  map_count = 0;
  map_flags = 0;
}

abbrev pub destroy_allocation : {B A : Type 0} ⦃be : Backend B A⦄ → B → Option A → B
destroy_allocation backend none = backend
destroy_allocation ⦃be⦄ backend (some a) = be.destroy backend a

module _ {B A W : Type 0} ⦃be : Backend B A⦄ ⦃tr : TraceSink W⦄ where
  -- An assignment to the object behind a buffer pointer, or a region pointer.
  abbrev pub set_buffer : Runtime B A W → ℕ → Buffer A → Runtime B A W
  set_buffer rt h b = record rt { heap = insert h b rt.heap }

  abbrev pub region_active : Runtime B A W → ℕ → Bool
  region_active rt key = elim (lookup key rt.regions) [ none ↦ false | some r ↦ r.is_active ]

  unfoldable pub release_storage_locked : Runtime B A W → ℕ → Buffer A → BufferState → Runtime B A W
  release_storage_locked rt h b new_state =
      if not (is_live b.state)
      then set_buffer rt h (record b { state = new_state })
      else record rt {
        backend = destroy_allocation rt.backend b.allocation;
        regions = shrink_region rt.regions b.region b.size_bytes;
        heap = insert h (released_buffer b new_state) rt.heap;
        stats = record rt.stats {
          active_buffers = sub64 rt.stats.active_buffers 1;
          active_bytes =
              put b.retention_class
                (sub64 (at b.retention_class rt.stats.active_bytes) b.size_bytes)
                rt.stats.active_bytes;
        };
      }

  abbrev pub count_expiry : Runtime B A W → Runtime B A W
  count_expiry rt = record rt {
    stats = record rt.stats { expiry_events = add64 rt.stats.expiry_events 1 };
  }

  unfoldable pub validate_active_locked : Runtime B A W → ℕ → Buffer A → Runtime B A W × Status
  unfolding release_storage_locked deadline_locked now_locked
  validate_active_locked rt h b =
      let deadline = deadline_locked rt b in
      elim b.state [
        | invalid ↦ set_error rt invalid_state "buffer or owning region is inactive"
        | expired_state ↦
            if not (region_active rt b.region)
            then set_error rt invalid_state "buffer or owning region is inactive"
            else set_error rt expired "buffer retention guarantee has expired"
        | active ↦
            if not (region_active rt b.region)
            then set_error rt invalid_state "buffer or owning region is inactive"
            else (if not (deadline == infinite) && leb deadline (now_locked rt)
                then set_error (count_expiry (release_storage_locked rt h b expired_state)) expired
                    "buffer retention deadline was missed"
                else (rt, success))
      ]

  unfoldable pub capacity_check_locked : Runtime B A W → RetentionClass → ℕ → Runtime B A W × Status
  capacity_check_locked rt c bytes =
      let limit = at c rt.options.class_capacity_bytes in
      if not (limit == 0) && (ltb limit bytes || ltb (limit - bytes) (at c rt.stats.active_bytes))
      then set_error rt capacity "retention class capacity exceeded"
      else (rt, success)

  -- The buffer is handed on as the call leaves it.
  unfoldable pub trace_free_locked : Runtime B A W → ℕ → Buffer A → Runtime B A W × Buffer A × Bool
  unfolding now_locked
  trace_free_locked rt h b =
      let freed = record b { trace_live = false } in
      if not b.trace_live then (rt, b, true) else elim rt.trace [
        | none ↦ (set_buffer rt h freed, freed, true)
        | some w ↦
            let (w', written) = tr.trace_free w (now_locked rt) b.trace_id in
            let rt' = record rt { trace = some w' } in
            if written then (set_buffer rt' h freed, freed, true) else (rt', b, false)
      ]

  unfoldable pub trace_hint_locked :
      Runtime B A W → Buffer A → RetentionClass → Runtime B A W × Bool
  unfolding now_locked
  trace_hint_locked rt b c = elim rt.trace [
    | none ↦ (rt, true)
    | some w ↦
        let (w', written) = tr.trace_hint w (now_locked rt) b.trace_id c in
        (record rt { trace = some w' }, written)
  ]

  -- `runtime->trace->last_error()`
  abbrev pub trace_error : Runtime B A W → String
  trace_error rt = elim rt.trace [ none ↦ "" | some w ↦ tr.writer_error w ]
