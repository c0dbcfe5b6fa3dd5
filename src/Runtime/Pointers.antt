-- ===== src/Runtime/Pointers.antt =====
-- src/rtmem.cpp: the device's address, and the calls that are made of other calls: pointers as buffers,
-- and the reading and writing of bytes. A call that is made of others takes the lock for each.
use programmable_retention_t.Prelude.{
  ℕ, ◌-◌, Bool, true, false, not, ◌||◌, Option, none, some, List, [], ◌∷◌, ◌==◌, ltb, if◌then◌else◌,
  lookup, length,
}
use programmable_retention_t.Prelude.Exceptions.{Attempt, returned, undefined, ◌>>=◌}
use programmable_retention_t.Runtime.Types.{
  Status, success, invalid_argument, unsupported, busy, backend_error, invalid, is_live, Runtime,
  Buffer, Region, Backend, TraceSink, Reply, reply, bad_alloc, exception, set_error,
}
use programmable_retention_t.Runtime.Storage.{
  release_storage_locked, validate_active_locked, trace_free_locked, trace_error,
}
use programmable_retention_t.Runtime.Maintenance.{succeeded}
use programmable_retention_t.Runtime.Buffers.{map_write, rt_buffer_map}
use programmable_retention_t.Runtime.Access.{
  rt_buffer_unmap, rt_buffer_trace_access, rt_buffer_free, delete_buffer,
}
use programmable_retention_t.Runtime.Allocation.{rt_alloc}

-- `RT_MAP_READ`, and both flags
abbrev pub map_read : ℕ
map_read = 1

abbrev pub map_both : ℕ
map_both = 3

-- The test of both calls on their arguments.
abbrev pub outside : {A : Type 0} → Buffer A → ℕ → ℕ → Bool
outside b offset size = size == 0 || ltb b.size_bytes offset || ltb (b.size_bytes - offset) size

module _ {B A W : Type 0} ⦃be : Backend B A⦄ ⦃tr : TraceSink W⦄ where
  -- The address, which a call that does not succeed leaves out.
  abbrev pub after_address : Runtime B A W → Reply ℕ → (Runtime B A W × Status) × Option ℕ
  after_address rt (reply address) = ((rt, success), some address)
  after_address rt bad_alloc = (set_error rt backend_error "std::bad_alloc", none)
  after_address rt (exception message) = (set_error rt backend_error message, none)

  -- `*allocation` of an active buffer, which has one.
  abbrev pub call_address : Runtime B A W → Buffer A → Reply ℕ
  call_address rt b = elim b.allocation [
    | none ↦ exception ""
    | some a ↦ be.device_address rt.backend a
  ]

  unfoldable pub address_locked : Runtime B A W → ℕ → Buffer A → (Runtime B A W × Status) × Option ℕ
  unfolding validate_active_locked
  address_locked rt h b =
      let (rt', status) = validate_active_locked rt h b in
      if succeeded status then after_address rt' (call_address rt' b) else ((rt', status), none)

  unfoldable pub rt_buffer_device_address :
      Runtime B A W → Option ℕ → Attempt ((Runtime B A W × Status) × Option ℕ)
  unfolding address_locked
  rt_buffer_device_address rt none = returned ((rt, invalid_argument), none)
  rt_buffer_device_address rt (some h) = elim (lookup h rt.heap) [
    | none ↦ undefined
    | some b ↦ returned (address_locked rt h b)
  ]

  -- The end of `rt_region_malloc`: a failure frees the buffer again.
  unfoldable pub finish_malloc :
      ℕ → Option ℕ → Runtime B A W × Status → Attempt ((Runtime B A W × Status) × Option ℕ)
  unfolding rt_buffer_free
  finish_malloc h pointer (rt, status) =
      if succeeded status
      then returned ((rt, status), pointer)
      else (rt_buffer_free rt (some h) >>= λ freed. returned ((freed, status), none))

  -- The buffer of `rt_region_malloc` is mapped for its pointer and unmapped again.
  unfoldable pub expose_pointer : ℕ → Runtime B A W → Attempt ((Runtime B A W × Status) × Option ℕ)
  unfolding rt_buffer_map rt_buffer_unmap finish_malloc
  expose_pointer h rt = rt_buffer_map rt (some h) map_both >>= λ mapped.
      if succeeded mapped.0.1
      then (rt_buffer_unmap mapped.0.0 (some h) >>= λ unmapped. finish_malloc h mapped.1 unmapped)
      else finish_malloc h none mapped.0

  abbrev pub after_alloc :
      Runtime B A W × Status × Option ℕ → Attempt ((Runtime B A W × Status) × Option ℕ)
  after_alloc (rt, status, none) = returned ((rt, status), none)
  after_alloc (rt, status, some h) = expose_pointer h rt

  unfoldable pub rt_region_malloc :
      Runtime B A W → Option ℕ → ℕ → ℕ → Attempt ((Runtime B A W × Status) × Option ℕ)
  unfolding rt_alloc expose_pointer
  rt_region_malloc rt none size alignment = returned ((rt, invalid_argument), none)
  rt_region_malloc rt (some key) size alignment =
      if not (be.host_coherent rt.backend)
      then returned (
        set_error rt unsupported
            "pointer allocator requires a host-coherent backend; use rt_buffer_map with XRT",
        none,
      )
      else (rt_alloc rt (some key) size alignment >>= after_alloc)

  -- `std::find_if`: the first buffer of the region that gave out the pointer.
  unfoldable pub find_pointer : Runtime B A W → ℕ → List ℕ → Option (ℕ × Buffer A)
  find_pointer rt pointer [] = none
  find_pointer rt pointer (h ∷ hs) = elim (lookup h rt.heap) [
    | none ↦ find_pointer rt pointer hs
    | some b ↦ elim b.exposed_pointer [
      | none ↦ find_pointer rt pointer hs
      | some exposed ↦ elim (exposed == pointer) [
        | true ↦ some (h, b)
        | false ↦ find_pointer rt pointer hs
      ]
    ]
  ]

  unfoldable pub delete_found : Runtime B A W → ℕ → Runtime B A W
  delete_found rt h = elim (lookup h rt.heap) [ none ↦ rt | some b ↦ delete_buffer rt h b ]

  unfoldable pub free_pointer_locked : Runtime B A W → ℕ → Buffer A → Runtime B A W × Status
  unfolding trace_free_locked release_storage_locked delete_found
  free_pointer_locked rt h b =
      if not (b.map_count == 0)
      then set_error rt busy "cannot free a mapped pointer"
      else (let (freed, b', written) = trace_free_locked rt h b in
          if not written then set_error freed backend_error (trace_error freed) else (
            delete_found
                (if is_live b'.state then release_storage_locked freed h b' invalid else freed) h,
            success,
          ))

  abbrev pub free_pointer_in : Runtime B A W → ℕ → Region → Attempt (Runtime B A W × Status)
  free_pointer_in rt pointer r = elim (find_pointer rt pointer r.buffers) [
    | none ↦ returned (set_error rt invalid_argument "pointer does not belong to the region")
    | some found ↦ returned (free_pointer_locked rt found.0 found.1)
  ]

  unfoldable pub rt_region_free_pointer :
      Runtime B A W → Option ℕ → Option ℕ → Attempt (Runtime B A W × Status)
  unfolding find_pointer free_pointer_locked
  rt_region_free_pointer rt none pointer = returned (rt, invalid_argument)
  rt_region_free_pointer rt (some key) none = returned (rt, invalid_argument)
  rt_region_free_pointer rt (some key) (some pointer) = elim (lookup key rt.regions) [
    | none ↦ undefined
    | some r ↦ free_pointer_in rt pointer r
  ]

  -- The bytes through the mapping, and the end of the two calls below.
  unfoldable pub finish_bytes :
      Runtime B A W → ℕ → Bool → ℕ → ℕ → ℕ → Attempt (Runtime B A W × Status)
  unfolding rt_buffer_unmap rt_buffer_trace_access
  finish_bytes rt h is_read offset size stream = rt_buffer_unmap rt (some h) >>= λ unmapped.
      if succeeded unmapped.1
      then rt_buffer_trace_access unmapped.0 (some h) is_read offset size stream
      else returned unmapped

  -- `none` where the bytes of the mapping are not there to be read.
  abbrev pub after_read_map :
      ℕ
      → ℕ
      → ℕ
      → ℕ
      → (Runtime B A W × Status) × Option ℕ
      → Attempt ((Runtime B A W × Status) × List ℕ)
  after_read_map h offset size stream ((rt, status), none) = returned ((rt, status), [])
  after_read_map h offset size stream ((rt, status), some pointer) =
      let bytes = be.load rt.backend pointer offset size in
      finish_bytes rt h true offset size stream >>= λ r. returned (r, bytes)

  unfoldable pub rt_buffer_read_bytes :
      Runtime B A W → Option ℕ → ℕ → ℕ → ℕ → Attempt ((Runtime B A W × Status) × List ℕ)
  unfolding rt_buffer_map finish_bytes
  rt_buffer_read_bytes rt none offset size stream = returned ((rt, invalid_argument), [])
  rt_buffer_read_bytes rt (some h) offset size stream = elim (lookup h rt.heap) [
    | none ↦ undefined
    | some b ↦
        if outside b offset size
        then returned ((rt, invalid_argument), [])
        else (rt_buffer_map rt (some h) map_read >>= after_read_map h offset size stream)
  ]

  abbrev pub after_write_map :
      ℕ → ℕ → List ℕ → ℕ → (Runtime B A W × Status) × Option ℕ → Attempt (Runtime B A W × Status)
  after_write_map h offset bytes stream ((rt, status), none) = returned (rt, status)
  after_write_map h offset bytes stream ((rt, status), some pointer) =
      finish_bytes (record rt { backend = be.store rt.backend pointer offset bytes }) h false offset
        (length bytes) stream

  unfoldable pub rt_buffer_write_bytes :
      Runtime B A W → Option ℕ → ℕ → List ℕ → ℕ → Attempt (Runtime B A W × Status)
  unfolding rt_buffer_map finish_bytes
  rt_buffer_write_bytes rt none offset bytes stream = returned (rt, invalid_argument)
  rt_buffer_write_bytes rt (some h) offset bytes stream = elim (lookup h rt.heap) [
    | none ↦ undefined
    | some b ↦
        if outside b offset (length bytes)
        then returned (rt, invalid_argument)
        else (rt_buffer_map rt (some h) map_write >>= after_write_map h offset bytes stream)
  ]
