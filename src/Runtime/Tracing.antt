-- ===== src/Runtime/Tracing.antt =====
-- src/rtmem.cpp: attaching and detaching a trace, the events that a program traces itself, the fence and
-- the inspection of a runtime. A writer is one object that the trace and the runtime share; while it is
-- attached it stands in the runtime, and a call that takes it off gives it back.
use programmable_retention_t.Prelude.{
  ℕ, String, Bool, true, false, Option, none, some, List, [], ◌∷◌, if◌then◌else◌, lookup, Entries,
}
use text.Mathlib.Text.{◌==◌ as str_eq}
use programmable_retention_t.Runtime.Types.{
  Status, success, invalid_argument, busy, backend_error, is_live, Runtime, Buffer, Region, Backend,
  TraceSink, Reply, reply, bad_alloc, exception, set_error, now_locked,
}

module _ {A W : Type 0} ⦃tr : TraceSink W⦄ where
  -- The events of the live buffers of one region, up to the first that cannot be written.
  unfoldable pub announce_buffers : W → Entries (Buffer A) → String → List ℕ → W × Bool
  announce_buffers w heap debug_name [] = (w, true)
  announce_buffers w heap debug_name (h ∷ hs) = elim (lookup h heap) [
    | none ↦ announce_buffers w heap debug_name hs
    | some b ↦ elim b.trace_live [
      | false ↦ announce_buffers w heap debug_name hs
      | true ↦
          let answer =
            tr.trace_allocation w b.created_tick b.trace_id b.size_bytes b.alignment
              b.retention_class debug_name in
          elim answer.1 [ true ↦ announce_buffers answer.0 heap debug_name hs | false ↦ answer ]
    ]
  ]

  unfoldable pub announce_regions : W → Entries (Buffer A) → Entries Region → W × Bool
  unfolding announce_buffers
  announce_regions w heap [] = (w, true)
  announce_regions w heap ((key, r) ∷ rest) =
      let answer = announce_buffers w heap r.debug_name r.buffers in
      elim answer.1 [ true ↦ announce_regions answer.0 heap rest | false ↦ answer ]

  -- The same for the end of their trace.
  unfoldable pub retire_buffers : W → Entries (Buffer A) → ℕ → List ℕ → W × Bool
  retire_buffers w heap now [] = (w, true)
  retire_buffers w heap now (h ∷ hs) = elim (lookup h heap) [
    | none ↦ retire_buffers w heap now hs
    | some b ↦ elim b.trace_live [
      | false ↦ retire_buffers w heap now hs
      | true ↦
          let answer = tr.trace_free w now b.trace_id in
          elim answer.1 [ true ↦ retire_buffers answer.0 heap now hs | false ↦ answer ]
    ]
  ]

  unfoldable pub retire_regions : W → Entries (Buffer A) → ℕ → Entries Region → W × Bool
  unfolding retire_buffers
  retire_regions w heap now [] = (w, true)
  retire_regions w heap now ((key, r) ∷ rest) =
      let answer = retire_buffers w heap now r.buffers in
      elim answer.1 [ true ↦ retire_regions answer.0 heap now rest | false ↦ answer ]

module _ {B A : Type 0} ⦃be : Backend B A⦄ where
  -- The loops of the fence, up to the first buffer whose flush throws.
  unfoldable pub flush_buffers : B → Entries (Buffer A) → List ℕ → B × Reply (Unit {0})
  flush_buffers backend heap [] = (backend, reply tt)
  flush_buffers backend heap (h ∷ hs) = elim (lookup h heap) [
    | none ↦ flush_buffers backend heap hs
    | some b ↦ elim b.allocation [
      | none ↦ flush_buffers backend heap hs
      | some a ↦ elim (is_live b.state) [
        | false ↦ flush_buffers backend heap hs
        | true ↦
            let answer = be.flush backend a b.size_bytes in
            elim answer.1 [
              | reply done ↦ flush_buffers answer.0 heap hs
              | bad_alloc ↦ answer
              | exception message ↦ answer
            ]
      ]
    ]
  ]

  unfoldable pub flush_regions : B → Entries (Buffer A) → Entries Region → B × Reply (Unit {0})
  unfolding flush_buffers
  flush_regions backend heap [] = (backend, reply tt)
  flush_regions backend heap ((key, r) ∷ rest) =
      let answer = flush_buffers backend heap r.buffers in
      elim answer.1 [
        | reply done ↦ flush_regions answer.0 heap rest
        | bad_alloc ↦ answer
        | exception message ↦ answer
      ]

module _ {B A W : Type 0} ⦃tr : TraceSink W⦄ where
  -- What the writer answers to one event.
  abbrev pub after_event : Runtime B A W → W × Bool → Runtime B A W × Status
  after_event rt (w, true) = (record rt { trace = some w }, success)
  after_event rt (w, false) =
      set_error (record rt { trace = some w }) backend_error (tr.writer_error w)

  unfoldable pub rt_runtime_trace_phase : Runtime B A W → Option String → Runtime B A W × Status
  unfolding now_locked
  rt_runtime_trace_phase rt none = (rt, invalid_argument)
  rt_runtime_trace_phase rt (some name) =
      if str_eq name "" then (rt, invalid_argument) else elim rt.trace [
        | none ↦ (rt, success)
        | some w ↦ after_event rt (tr.trace_phase w (now_locked rt) name)
      ]

  unfoldable pub rt_runtime_trace_compute : Runtime B A W → ℕ → ℕ → Runtime B A W × Status
  unfolding now_locked
  rt_runtime_trace_compute rt stream cycles = elim rt.trace [
    | none ↦ (rt, success)
    | some w ↦ after_event rt (tr.trace_compute w (now_locked rt) stream cycles)
  ]

  unfoldable pub rt_runtime_trace_barrier : Runtime B A W → ℕ → ℕ → Runtime B A W × Status
  unfolding now_locked
  rt_runtime_trace_barrier rt stream barrier = elim rt.trace [
    | none ↦ (rt, success)
    | some w ↦ after_event rt (tr.trace_barrier w (now_locked rt) stream barrier)
  ]

  abbrev pub after_announcement : Runtime B A W → W × Bool → (Runtime B A W × Status) × W
  after_announcement rt (w, true) = ((record rt { trace = some w }, success), w)
  after_announcement rt (w, false) =
      (set_error (record rt { trace = none }) backend_error (tr.writer_error w), w)

  unfoldable pub rt_runtime_attach_trace : Runtime B A W → W → (Runtime B A W × Status) × W
  unfolding announce_regions
  rt_runtime_attach_trace rt w = elim rt.trace [
    | some attached ↦ (set_error rt busy "runtime already has an attached trace", w)
    | none ↦ after_announcement rt (announce_regions w rt.heap rt.regions)
  ]

  -- The answers of the loops and of `flush`; a trace that fails stays attached.
  abbrev pub after_flush : Runtime B A W → W × Bool → (Runtime B A W × Status) × Option W
  after_flush rt (w, true) = ((record rt { trace = none }, success), some w)
  after_flush rt (w, false) =
      (set_error (record rt { trace = some w }) backend_error (tr.writer_error w), none)

  abbrev pub after_retirement : Runtime B A W → W × Bool → (Runtime B A W × Status) × Option W
  after_retirement rt (w, true) = after_flush rt (tr.flush_writer w)
  after_retirement rt (w, false) =
      (set_error (record rt { trace = some w }) backend_error (tr.writer_error w), none)

  unfoldable pub rt_runtime_detach_trace : Runtime B A W → (Runtime B A W × Status) × Option W
  unfolding retire_regions now_locked
  rt_runtime_detach_trace rt = elim rt.trace [
    | none ↦ ((rt, success), none)
    | some w ↦ after_retirement rt (retire_regions w rt.heap (now_locked rt) rt.regions)
  ]

module _ {B A W : Type 0} ⦃be : Backend B A⦄ where
  abbrev pub after_fence : Runtime B A W → B × Reply (Unit {0}) → Runtime B A W × Status
  after_fence rt (backend, reply done) = (record rt { backend = backend }, success)
  after_fence rt (backend, bad_alloc) =
      set_error (record rt { backend = backend }) backend_error "std::bad_alloc"
  after_fence rt (backend, exception message) =
      set_error (record rt { backend = backend }) backend_error message

  unfoldable pub rt_runtime_fence : Runtime B A W → Runtime B A W × Status
  unfolding flush_regions
  rt_runtime_fence rt = after_fence rt (flush_regions rt.backend rt.heap rt.regions)

  unfoldable pub rt_runtime_is_host_coherent : Runtime B A W → Bool
  rt_runtime_is_host_coherent rt = be.host_coherent rt.backend
