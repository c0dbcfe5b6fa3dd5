-- ===== src/Runtime/Regions.antt =====
-- src/rtmem.cpp: the life of a region.
use programmable_retention_t.Prelude.{
  ℕ, String, false, not, Option, none, some, ◌==◌, if◌then◌else◌, lookup, insert, erase, Entries,
  List, [], ◌∷◌,
}
use programmable_retention_t.Prelude.Exceptions.{Attempt, returned, undefined}
use programmable_retention_t.Runtime.Types.{
  Status, success, invalid_argument, invalid_state, busy, invalid, is_live, Runtime, Region,
  Backend, TraceSink, set_error, now_locked,
}
use programmable_retention_t.Runtime.Storage.{
  destroy_allocation, release_storage_locked, validate_active_locked, trace_free_locked,
}
use programmable_retention_t.Runtime.Maintenance.{succeeded, refreshed, count_invalidation}

module _ {B A W : Type 0} ⦃be : Backend B A⦄ ⦃tr : TraceSink W⦄ where
  -- The loop of `end_region_locked`. A handle without an object is passed over; the source would
  -- follow it.
  unfoldable pub end_buffers : Runtime B A W → List ℕ → Runtime B A W
  unfolding trace_free_locked release_storage_locked
  end_buffers rt [] = rt
  end_buffers rt (h ∷ hs) = elim (lookup h rt.heap) [
    | none ↦ end_buffers rt hs
    | some b ↦
        let (freed, b', written) = trace_free_locked rt h b in
        let ended =
          if is_live b'.state
          then count_invalidation (release_storage_locked freed h b' invalid)
          else freed in
        end_buffers ended hs
  ]

  unfoldable pub end_region_locked : Runtime B A W → ℕ → Region → Runtime B A W
  unfolding end_buffers
  end_region_locked rt key r =
      if not r.is_active
      then rt
      else (let ended = end_buffers rt r.buffers in
          elim (lookup key ended.regions) [
            | none ↦ ended
            | some r' ↦ record ended {
              regions = insert key (record r' { is_active = false }) ended.regions;
            }
          ])

  unfoldable pub rt_region_end : Runtime B A W → Option ℕ → Attempt (Runtime B A W × Status)
  unfolding end_region_locked
  rt_region_end rt none = returned (rt, invalid_argument)
  rt_region_end rt (some key) = elim (lookup key rt.regions) [
    | none ↦ undefined
    | some r ↦ returned (end_region_locked rt key r, success)
  ]

  -- `erase_region_locked` and the deletion of the region with its buffers.
  unfoldable pub delete_buffers : Runtime B A W → List ℕ → Runtime B A W
  delete_buffers rt [] = rt
  delete_buffers rt (h ∷ hs) =
      delete_buffers
        (record rt {
          heap = erase h rt.heap;
          backend = elim (lookup h rt.heap) [
            | none ↦ rt.backend
            | some b ↦ destroy_allocation rt.backend b.allocation
          ];
        })
        hs

  unfoldable pub rt_region_destroy : Runtime B A W → Option ℕ → Attempt (Runtime B A W)
  unfolding end_region_locked delete_buffers
  rt_region_destroy rt none = returned rt
  rt_region_destroy rt (some key) = elim (lookup key rt.regions) [
    | none ↦ undefined
    | some r ↦
        let deleted = delete_buffers (end_region_locked rt key r) r.buffers in
        returned (record deleted { regions = erase key deleted.regions })
  ]

  -- The loop of `rt_runtime_destroy`.
  unfoldable pub destroy_regions : Runtime B A W → Entries Region → Runtime B A W
  unfolding end_region_locked delete_buffers
  destroy_regions rt [] = rt
  destroy_regions rt ((key, r) ∷ rest) =
      destroy_regions (delete_buffers (end_region_locked rt key r) r.buffers) rest

  -- What is left of the runtime in front of its own deletion.
  unfoldable pub rt_runtime_destroy : Runtime B A W → Runtime B A W
  unfolding destroy_regions
  rt_runtime_destroy rt = record (destroy_regions rt rt.regions) { regions = [] }

  -- The first loop of `rt_region_refresh`: every buffer is active and unmapped.
  unfoldable pub check_unmapped : Runtime B A W → List ℕ → String → Runtime B A W × Status
  unfolding validate_active_locked
  check_unmapped rt [] message = (rt, success)
  check_unmapped rt (h ∷ hs) message = elim (lookup h rt.heap) [
    | none ↦ check_unmapped rt hs message
    | some b ↦
        let (rt', status) = validate_active_locked rt h b in
        let rest = check_unmapped rt' hs message in
        if not (succeeded status)
        then (rt', status)
        else (if not (b.map_count == 0) then set_error rt' busy message else rest)
  ]

  -- The second loop.
  unfoldable pub refresh_buffers : Runtime B A W → List ℕ → ℕ → Runtime B A W
  refresh_buffers rt [] now = rt
  refresh_buffers rt (h ∷ hs) now = elim (lookup h rt.heap) [
    | none ↦ refresh_buffers rt hs now
    | some b ↦ refresh_buffers (refreshed rt h b now) hs now
  ]

  unfoldable pub region_refresh_locked : Runtime B A W → Region → Runtime B A W × Status
  unfolding check_unmapped refresh_buffers now_locked
  region_refresh_locked rt r =
      if not r.is_active
      then set_error rt invalid_state "cannot refresh an ended region"
      else (let (rt', status) =
            check_unmapped rt r.buffers "cannot refresh a region with mapped buffers" in
          if succeeded status
          then (refresh_buffers rt' r.buffers (now_locked rt'), success)
          else (rt', status))

  unfoldable pub rt_region_refresh : Runtime B A W → Option ℕ → Attempt (Runtime B A W × Status)
  unfolding region_refresh_locked
  rt_region_refresh rt none = returned (rt, invalid_argument)
  rt_region_refresh rt (some key) = elim (lookup key rt.regions) [
    | none ↦ undefined
    | some r ↦ returned (region_refresh_locked rt r)
  ]
