-- ===== src/Workload/Log.antt =====
-- The calls of the trace writer (src/trace_writer.cpp) as data, what each leaves in the file, and the
-- event (sim/workload_trace.cpp) that it stands for.
use programmable_retention_t.Prelude.{
  ℕ, ◌≤◌, Bool, true, false, not, List, [], ◌∷◌, ◌≡◌, infinite, RetentionClass, if◌then◌else◌, ◌==◌,
}
use programmable_retention_t.Workload.Text.{Text, codes}
use programmable_retention_t.Workload.Events.{
  Event, blank_event, allocate_event, free_event, hint_event, access_event, compute_event,
  phase_event, barrier_event, is_power_of_two,
}
use programmable_retention_t.Workload.Writer.{
  OutputStream, TraceWriter, decimal, class_text, safe_name, write_allocation, write_free,
  write_hint, write_access, write_compute, write_phase, write_barrier,
}

pub data LogCall : Type 0 where
  logs_allocation : (tick buffer_id size_bytes alignment : ℕ) → RetentionClass → Text → LogCall
  logs_free : (tick buffer_id : ℕ) → LogCall
  logs_hint : (tick buffer_id : ℕ) → RetentionClass → LogCall
  logs_access : (tick stream_id : ℕ) → Bool → (buffer_id offset_bytes size_bytes : ℕ) → LogCall
  logs_compute : (tick stream_id cycles : ℕ) → LogCall
  logs_phase : ℕ → Text → LogCall
  logs_barrier : (tick stream_id barrier_id : ℕ) → LogCall

module _ {O : Type 0} ⦃out : OutputStream O⦄ where
  unfoldable pub log : TraceWriter O → ℕ → LogCall → TraceWriter O × Bool
  unfolding write_allocation write_free write_hint write_access write_compute write_phase
      write_barrier
  log w thread (logs_allocation tick b size alignment c name) =
      write_allocation w thread tick b size alignment c name
  log w thread (logs_free tick b) = write_free w thread tick b
  log w thread (logs_hint tick b c) = write_hint w thread tick b c
  log w thread (logs_access tick stream r b offset size) =
      write_access w thread tick stream r b offset size
  log w thread (logs_compute tick stream cycles) = write_compute w thread tick stream cycles
  log w thread (logs_phase tick name) = write_phase w thread tick name
  log w thread (logs_barrier tick stream barrier) = write_barrier w thread tick stream barrier

  -- A sequence of calls, each with the thread that makes it.
  unfoldable pub log_all : TraceWriter O → List (ℕ × LogCall) → TraceWriter O
  unfolding log
  log_all w [] = w
  log_all w ((thread, call) ∷ rest) = log_all (log w thread call).0 rest

-- The event that a call stands for, with its sequence number and the number of its thread.
unfoldable pub event_of : ℕ → ℕ → LogCall → Event
event_of sequence id (logs_allocation tick b size alignment c name) =
    record (blank_event sequence tick id) {
      kind = allocate_event;
      buffer = b;
      size = size;
      alignment = alignment;
      hint = c;
      name = safe_name name;
    }
event_of sequence id (logs_free tick b) = record (blank_event sequence tick id) {
  kind = free_event;
  buffer = b;
}
event_of sequence id (logs_hint tick b c) = record (blank_event sequence tick id) {
  kind = hint_event;
  buffer = b;
  hint = c;
}
event_of sequence id (logs_access tick stream r b offset size) =
    record (blank_event sequence tick id) {
      kind = access_event;
      stream = stream;
      write = not r;
      buffer = b;
      offset = offset;
      size = size;
    }
event_of sequence id (logs_compute tick stream cycles) = record (blank_event sequence tick id) {
  kind = compute_event;
  stream = stream;
  cycles = cycles;
}
event_of sequence id (logs_phase tick name) = record (blank_event sequence tick id) {
  kind = phase_event;
  name = safe_name name;
}
event_of sequence id (logs_barrier tick stream barrier) = record (blank_event sequence tick id) {
  kind = barrier_event;
  stream = stream;
  barrier = barrier;
}

-- The arguments fit their C types, and an allocation or an access is one that a reader accepts.
abbrev pub IsLoggable : LogCall → Type 0
IsLoggable (logs_allocation tick b size alignment c name) =
    (tick ≤ infinite)
    × (b ≤ infinite)
    × (size ≤ infinite)
    × (alignment ≤ infinite)
    × ((size == 0) ≡ false)
    × (is_power_of_two alignment ≡ true)
IsLoggable (logs_free tick b) = (tick ≤ infinite) × (b ≤ infinite)
IsLoggable (logs_hint tick b c) = (tick ≤ infinite) × (b ≤ infinite)
IsLoggable (logs_access tick stream r b offset size) =
    (tick ≤ infinite)
    × (stream ≤ 0xffff_ffff)
    × (b ≤ infinite)
    × (offset ≤ infinite)
    × (size ≤ infinite)
    × ((size == 0) ≡ false)
IsLoggable (logs_compute tick stream cycles) =
    (tick ≤ infinite) × (stream ≤ 0xffff_ffff) × (cycles ≤ infinite)
IsLoggable (logs_phase tick name) = tick ≤ infinite
IsLoggable (logs_barrier tick stream barrier) =
    (tick ≤ infinite) × (stream ≤ 0xffff_ffff) × (barrier ≤ infinite)

abbrev pub AreLoggable : List (ℕ × LogCall) → Type 0
AreLoggable [] = Unit {0}
AreLoggable ((thread, call) ∷ rest) = IsLoggable call × AreLoggable rest

-- The name, the tick and the fields of a row.
abbrev pub row_kind : LogCall → Text
row_kind (logs_allocation tick b size alignment c name) = codes "ALLOC"
row_kind (logs_free tick b) = codes "FREE"
row_kind (logs_hint tick b c) = codes "HINT"
row_kind (logs_access tick stream r b offset size) = codes "ACCESS"
row_kind (logs_compute tick stream cycles) = codes "COMPUTE"
row_kind (logs_phase tick name) = codes "PHASE"
row_kind (logs_barrier tick stream barrier) = codes "BARRIER"

abbrev pub row_tick : LogCall → ℕ
row_tick (logs_allocation tick b size alignment c name) = tick
row_tick (logs_free tick b) = tick
row_tick (logs_hint tick b c) = tick
row_tick (logs_access tick stream r b offset size) = tick
row_tick (logs_compute tick stream cycles) = tick
row_tick (logs_phase tick name) = tick
row_tick (logs_barrier tick stream barrier) = tick

abbrev pub row_fields : LogCall → List Text
row_fields (logs_allocation tick b size alignment c name) =
    decimal b ∷ decimal size ∷ decimal alignment ∷ class_text c ∷ safe_name name ∷ []
row_fields (logs_free tick b) = decimal b ∷ []
row_fields (logs_hint tick b c) = decimal b ∷ class_text c ∷ []
row_fields (logs_access tick stream r b offset size) =
    decimal stream
    ∷ (if r then codes "R" else codes "W")
    ∷ decimal b
    ∷ decimal offset
    ∷ decimal size
    ∷ []
row_fields (logs_compute tick stream cycles) = decimal stream ∷ decimal cycles ∷ []
row_fields (logs_phase tick name) = safe_name name ∷ []
row_fields (logs_barrier tick stream barrier) = decimal stream ∷ decimal barrier ∷ []

abbrev pub row : ℕ → ℕ → LogCall → List Text
row sequence id call =
    row_kind call ∷ decimal sequence ∷ decimal (row_tick call) ∷ decimal id ∷ row_fields call
