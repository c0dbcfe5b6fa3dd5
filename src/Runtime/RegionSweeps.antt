-- ===== src/Runtime/RegionSweeps.antt =====
-- src/rtmem.cpp: the accounts of a class under the calls on all buffers of a region.
use programmable_retention_t.Prelude.{
  ℕ, ◌+◌, true, List, [], ◌∷◌, some, refl, arith, if◌then◌else◌, String, RetentionClass, same_class,
  lookup, inl, inr, Option-cases,
}
use programmable_retention_t.Runtime.Types.{
  invalid, Region, Runtime, is_live, Backend, TraceSink, now_locked,
}
use programmable_retention_t.Runtime.Storage.{
  release_storage_locked, validate_active_locked, trace_free_locked, capacity_check_locked,
}
use programmable_retention_t.Runtime.Maintenance.{
  succeeded, count_invalidation, refreshed, reclassify_locked,
}
use programmable_retention_t.Runtime.Regions.{
  end_buffers, end_region_locked, check_unmapped, refresh_buffers, region_refresh_locked,
}
use programmable_retention_t.Runtime.Inspection.{
  bytes_to_destination, reclassify_buffers, region_reclassify_locked,
}
use programmable_retention_t.Runtime.Moves.{
  IsWithin, release-IsWithin, validate-IsWithin, refreshed-IsWithin, reclassify-IsWithin,
  capacity-IsWithin,
}
use programmable_retention_t.Runtime.Preservation.{either, trace_free-IsWithin, trace_free-lookup}

module _ {B A W : Type 0} ⦃be : Backend B A⦄ ⦃tr : TraceSink W⦄ (c : RetentionClass) where
  end_buffers-IsWithin :
      (rt : Runtime B A W) (hs : List ℕ) → IsWithin c rt → IsWithin c (end_buffers rt hs)
  unfolding end_buffers
  end_buffers-IsWithin rt [] v = v
  end_buffers-IsWithin rt (h ∷ hs) v = elim (Option-cases (lookup h rt.heap)) [
    | inl e ↦ rw (end_buffers, e) (end_buffers-IsWithin rt hs v)
    | inr (b, e) ↦
        let freed = trace_free-IsWithin c rt h b e v in
        rw (end_buffers, e)
          (either (λ x. IsWithin c (end_buffers x hs)) (is_live (trace_free_locked rt h b).1.state)
            (count_invalidation (
              release_storage_locked (trace_free_locked rt h b).0 h (trace_free_locked rt h b).1
                invalid))
            (trace_free_locked rt h b).0
            (λ live.
              end_buffers-IsWithin
                (count_invalidation (
                  release_storage_locked (trace_free_locked rt h b).0 h (trace_free_locked rt h b).1
                    invalid))
                hs
                (release-IsWithin c (trace_free_locked rt h b).0 h (trace_free_locked rt h b).1
                  invalid (trace_free-lookup c rt h b e v) refl freed))
            (λ gone. end_buffers-IsWithin (trace_free_locked rt h b).0 hs freed))
  ]

  pub end_region-IsWithin :
      (rt : Runtime B A W) (key : ℕ) (r : Region)
      → IsWithin c rt
      → IsWithin c (end_region_locked rt key r)
  unfolding end_region_locked
  end_region-IsWithin rt key r v = ground (arith, v, end_buffers-IsWithin rt r.buffers v)

  check_unmapped-IsWithin :
      (rt : Runtime B A W) (hs : List ℕ) (message : String)
      → IsWithin c rt
      → IsWithin c (check_unmapped rt hs message).0
  unfolding check_unmapped
  check_unmapped-IsWithin rt [] message v = v
  check_unmapped-IsWithin rt (h ∷ hs) message v = elim (Option-cases (lookup h rt.heap)) [
    | inl e ↦ rw (check_unmapped, e) (check_unmapped-IsWithin rt hs message v)
    | inr (b, e) ↦
        let valid = validate-IsWithin c rt h b e v in
        rw (check_unmapped, e)
          (ground (
            arith,
            valid,
            check_unmapped-IsWithin (validate_active_locked rt h b).0 hs message valid,
          ))
  ]

  refresh_buffers-IsWithin :
      (rt : Runtime B A W) (hs : List ℕ) (now : ℕ)
      → IsWithin c rt
      → IsWithin c (refresh_buffers rt hs now)
  unfolding refresh_buffers
  refresh_buffers-IsWithin rt [] now v = v
  refresh_buffers-IsWithin rt (h ∷ hs) now v = elim (Option-cases (lookup h rt.heap)) [
    | inl e ↦ rw (refresh_buffers, e) (refresh_buffers-IsWithin rt hs now v)
    | inr (b, e) ↦
        rw (refresh_buffers, e)
          (refresh_buffers-IsWithin (refreshed rt h b now) hs now
            (refreshed-IsWithin c rt h b now e v))
  ]

  pub region_refresh-IsWithin :
      (rt : Runtime B A W) (r : Region) → IsWithin c rt → IsWithin c (region_refresh_locked rt r).0
  unfolding region_refresh_locked
  region_refresh-IsWithin rt r v =
      let checked =
        check_unmapped-IsWithin rt r.buffers "cannot refresh a region with mapped buffers" v in
      let run = check_unmapped rt r.buffers "cannot refresh a region with mapped buffers" in
      ground
        (arith, v, checked, refresh_buffers-IsWithin run.0 r.buffers (now_locked run.0) checked)

  bytes-IsWithin :
      (rt : Runtime B A W) (hs : List ℕ) (d : RetentionClass) (bytes : ℕ)
      → IsWithin c rt
      → IsWithin c (bytes_to_destination rt hs d bytes).0
  unfolding bytes_to_destination
  bytes-IsWithin rt [] d bytes v = v
  bytes-IsWithin rt (h ∷ hs) d bytes v = elim (Option-cases (lookup h rt.heap)) [
    | inl e ↦ rw (bytes_to_destination, e) (bytes-IsWithin rt hs d bytes v)
    | inr (b, e) ↦
        let valid = validate-IsWithin c rt h b e v in
        rw (bytes_to_destination, e)
          (ground (
            arith,
            valid,
            bytes-IsWithin (validate_active_locked rt h b).0 hs d
                (if same_class b.retention_class d then bytes else bytes + b.size_bytes) valid,
          ))
  ]

  reclassify_buffers-IsWithin :
      (rt : Runtime B A W) (hs : List ℕ) (d : RetentionClass)
      → IsWithin c rt
      → IsWithin c (reclassify_buffers rt hs d).0
  unfolding reclassify_buffers
  reclassify_buffers-IsWithin rt [] d v = v
  reclassify_buffers-IsWithin rt (h ∷ hs) d v = elim (Option-cases (lookup h rt.heap)) [
    | inl e ↦ rw (reclassify_buffers, e) (reclassify_buffers-IsWithin rt hs d v)
    | inr (b, e) ↦
        let moved = reclassify-IsWithin c rt h b (some d) true e v in
        rw (reclassify_buffers, e)
          (either (λ s. IsWithin c s.0) (succeeded (reclassify_locked rt h b (some d) true).1)
            (reclassify_buffers (reclassify_locked rt h b (some d) true).0 hs d)
            (reclassify_locked rt h b (some d) true)
            (λ ok.
              reclassify_buffers-IsWithin (reclassify_locked rt h b (some d) true).0 hs d moved)
            (λ failed. moved))
  ]

  pub region_reclassify-IsWithin :
      (rt : Runtime B A W) (r : Region) (d : RetentionClass)
      → IsWithin c rt
      → IsWithin c (region_reclassify_locked rt r d).0
  unfolding region_reclassify_locked
  region_reclassify-IsWithin rt r d v =
      let summed = bytes-IsWithin rt r.buffers d 0 v in
      let run = bytes_to_destination rt r.buffers d 0 in
      let fitting = capacity-IsWithin c run.0 d run.2 summed in
      ground (
        arith,
        v,
        summed,
        fitting,
        reclassify_buffers-IsWithin (capacity_check_locked run.0 d run.2).0 r.buffers d fitting,
      )
