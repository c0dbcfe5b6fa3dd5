-- ===== src/Runtime/Inspection.antt =====
-- src/rtmem.cpp: reclassifying a region, the fence, and what a caller can ask of a buffer.
use programmable_retention_t.Prelude.{
  ℕ, ◌+◌, ◌-◌, Bool, true, false, not, ◌&&◌, ◌||◌, Option, none, some, ◌==◌, ltb, if◌then◌else◌,
  infinite, lookup, RetentionClass, same_class, List, [], ◌∷◌,
}
use programmable_retention_t.Prelude.Exceptions.{Attempt, returned, undefined}
use programmable_retention_t.Runtime.Types.{
  Status, success, invalid_argument, capacity, expired, invalid_state, busy, backend_error,
  BufferState, is_live, Guarantee, Runtime, Buffer, Region, Backend, TraceSink, Reply, reply,
  bad_alloc, exception, set_error, deadline_locked,
}
use programmable_retention_t.Runtime.Storage.{validate_active_locked, capacity_check_locked}
use programmable_retention_t.Runtime.Maintenance.{succeeded, reclassify_locked}

pub record BufferInfo : Type 0 where
  pub size_bytes : ℕ
  pub alignment : ℕ
  pub retention_class : RetentionClass
  pub guarantee : Guarantee
  pub state : BufferState
  pub map_count : ℕ
  pub created_tick : ℕ
  pub last_write_tick : ℕ
  pub deadline_tick : ℕ
  pub generation : ℕ
  pub device_address : ℕ

abbrev pub is_expired : Status → Bool
is_expired expired = true
is_expired _ = false

module _ {B A W : Type 0} ⦃be : Backend B A⦄ ⦃tr : TraceSink W⦄ where
  -- The loop of `rt_region_reclassify` that checks the buffers and adds up the bytes to move.
  unfoldable pub bytes_to_destination :
      Runtime B A W → List ℕ → RetentionClass → ℕ → Runtime B A W × Status × ℕ
  unfolding validate_active_locked
  bytes_to_destination rt [] c bytes = (rt, success, bytes)
  bytes_to_destination rt (h ∷ hs) c bytes = elim (lookup h rt.heap) [
    | none ↦ bytes_to_destination rt hs c bytes
    | some b ↦
        let (rt', status) = validate_active_locked rt h b in
        let stays = same_class b.retention_class c in
        let rest = bytes_to_destination rt' hs c (if stays then bytes else bytes + b.size_bytes) in
        if not (succeeded status)
        then (rt', status, bytes)
        else (if not (b.map_count == 0)
            then (
              record rt' { last_error = "cannot reclassify a region with mapped buffers" },
              busy,
              bytes,
            )
            else (if not stays && ltb (infinite - b.size_bytes) bytes
                then (record rt' { last_error = "region size overflow" }, capacity, bytes)
                else rest))
  ]

  -- The loop that reclassifies them.
  unfoldable pub reclassify_buffers :
      Runtime B A W → List ℕ → RetentionClass → Runtime B A W × Status
  unfolding reclassify_locked
  reclassify_buffers rt [] c = (rt, success)
  reclassify_buffers rt (h ∷ hs) c = elim (lookup h rt.heap) [
    | none ↦ reclassify_buffers rt hs c
    | some b ↦
        let (rt', status) = reclassify_locked rt h b (some c) true in
        let rest = reclassify_buffers rt' hs c in if succeeded status then rest else (rt', status)
  ]

  unfoldable pub region_reclassify_locked :
      Runtime B A W → Region → RetentionClass → Runtime B A W × Status
  unfolding bytes_to_destination reclassify_buffers capacity_check_locked
  region_reclassify_locked rt r c =
      if not r.is_active
      then set_error rt invalid_state "cannot reclassify an ended region"
      else (let (checked, status, bytes) = bytes_to_destination rt r.buffers c 0 in
          if not (succeeded status)
          then (checked, status)
          else (let (fitting, room) = capacity_check_locked checked c bytes in
              if succeeded room then reclassify_buffers fitting r.buffers c else (fitting, room)))

  unfoldable pub rt_region_reclassify :
      Runtime B A W → Option ℕ → Option RetentionClass → Attempt (Runtime B A W × Status)
  unfolding region_reclassify_locked
  rt_region_reclassify rt none destination = returned (rt, invalid_argument)
  rt_region_reclassify rt (some key) none = returned (rt, invalid_argument)
  rt_region_reclassify rt (some key) (some c) = elim (lookup key rt.regions) [
    | none ↦ undefined
    | some r ↦ returned (region_reclassify_locked rt r c)
  ]

  -- `backend->device_address(*allocation)`
  abbrev pub call_device_address : Runtime B A W → Buffer A → Reply ℕ
  call_device_address rt b = elim b.allocation [
    | none ↦ reply 0
    | some a ↦ be.device_address rt.backend a
  ]

  -- The fields that `rt_buffer_get_info` copies, from the buffer as the check on it leaves it. The
  -- caller's structure keeps what is written before a failure, which is not part of the model.
  unfoldable pub info_of : Runtime B A W → Buffer A → Runtime B A W × Status × Option BufferInfo
  unfolding deadline_locked
  info_of rt b = elim (call_device_address rt b) [
    | reply address ↦ (
      rt,
      success,
      some (record {
        size_bytes = b.size_bytes;
        alignment = b.alignment;
        retention_class = b.retention_class;
        guarantee = b.guarantee;
        state = b.state;
        map_count = b.map_count;
        created_tick = b.created_tick;
        last_write_tick = b.last_write_tick;
        deadline_tick = deadline_locked rt b;
        generation = b.generation;
        device_address = address;
      }),
    )
    | bad_alloc ↦ (record rt { last_error = "std::bad_alloc" }, backend_error, none)
    | exception message ↦ (record rt { last_error = message }, backend_error, none)
  ]

  unfoldable pub get_info_locked :
      Runtime B A W → ℕ → Buffer A → Runtime B A W × Status × Option BufferInfo
  unfolding validate_active_locked info_of
  get_info_locked rt h b =
      if not (is_live b.state)
      then info_of rt b
      else (let (rt', status) = validate_active_locked rt h b in
          if succeeded status || is_expired status
          then elim (lookup h rt'.heap) [ none ↦ (rt', status, none) | some b' ↦ info_of rt' b' ]
          else (rt', status, none))

  unfoldable pub rt_buffer_get_info :
      Runtime B A W → Option ℕ → Attempt (Runtime B A W × Status × Option BufferInfo)
  unfolding get_info_locked
  rt_buffer_get_info rt none = returned (rt, invalid_argument, none)
  rt_buffer_get_info rt (some h) = elim (lookup h rt.heap) [
    | none ↦ undefined
    | some b ↦ returned (get_info_locked rt h b)
  ]
