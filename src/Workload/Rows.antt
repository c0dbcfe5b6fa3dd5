-- ===== src/Workload/Rows.antt =====
-- One row of a trace, written by src/trace_writer.cpp and read by sim/workload_trace.cpp.
use programmable_retention_t.Prelude.{
  ℕ, ◌≤◌, Bool, true, false, Option, ◌≡◌, refl, arith, infinite, RetentionClass, ephemeral, epoch,
  durable, if◌then◌else◌,
}
use programmable_retention_t.Prelude.Exceptions.{returned}
use programmable_retention_t.Workload.Text.{codes, is_space}
use programmable_retention_t.Workload.Events.{
  next_sequence, parse_class, parse_event, parse_row, blank_event,
}
use programmable_retention_t.Workload.Writer.{class_text}
use programmable_retention_t.Workload.Log.{
  LogCall, logs_allocation, logs_free, logs_hint, logs_access, logs_compute, logs_phase,
  logs_barrier, event_of, IsLoggable, row, row_kind, row_tick, row_fields,
}
use programmable_retention_t.Workload.Numbers.{number-decimal, number32-decimal}
use programmable_retention_t.Workload.Tokens.{
  IsWord, AreWords, decimal-IsWord, class_text-IsWord, safe_name-IsWord,
}

parse_class-class_text : (c : RetentionClass) → parse_class (class_text c) ≡ returned c
unfolding parse_class
parse_class-class_text ephemeral = refl
parse_class-class_text epoch = refl
parse_class-class_text durable = refl

direction-IsWord : (r : Bool) → IsWord (if r then codes "R" else codes "W")
unfolding is_space
direction-IsWord true = ground arith
direction-IsWord false = ground arith

kind-IsWord : (call : LogCall) → IsWord (row_kind call)
unfolding is_space
kind-IsWord (logs_allocation tick b size alignment c name) = ground arith
kind-IsWord (logs_free tick b) = ground arith
kind-IsWord (logs_hint tick b c) = ground arith
kind-IsWord (logs_access tick stream r b offset size) = ground arith
kind-IsWord (logs_compute tick stream cycles) = ground arith
kind-IsWord (logs_phase tick name) = ground arith
kind-IsWord (logs_barrier tick stream barrier) = ground arith

fields-AreWords : (call : LogCall) → AreWords (row_fields call)
fields-AreWords (logs_allocation tick b size alignment c name) = (
  decimal-IsWord b,
  (
    decimal-IsWord size,
    (decimal-IsWord alignment, (class_text-IsWord c, (safe_name-IsWord name, tt))),
  ),
)
fields-AreWords (logs_free tick b) = (decimal-IsWord b, tt)
fields-AreWords (logs_hint tick b c) = (decimal-IsWord b, (class_text-IsWord c, tt))
fields-AreWords (logs_access tick stream r b offset size) = (
  decimal-IsWord stream,
  (direction-IsWord r, (decimal-IsWord b, (decimal-IsWord offset, (decimal-IsWord size, tt)))),
)
fields-AreWords (logs_compute tick stream cycles) =
    (decimal-IsWord stream, (decimal-IsWord cycles, tt))
fields-AreWords (logs_phase tick name) = (safe_name-IsWord name, tt)
fields-AreWords (logs_barrier tick stream barrier) =
    (decimal-IsWord stream, (decimal-IsWord barrier, tt))

pub row-AreWords : (sequence id : ℕ) (call : LogCall) → AreWords (row sequence id call)
row-AreWords sequence id call = (
  kind-IsWord call,
  (
    decimal-IsWord sequence,
    (decimal-IsWord (row_tick call), (decimal-IsWord id, fields-AreWords call)),
  ),
)

tick-le : (call : LogCall) → IsLoggable call → row_tick call ≤ infinite
tick-le (logs_allocation tick b size alignment c name) h = h.0
tick-le (logs_free tick b) h = h.0
tick-le (logs_hint tick b c) h = h.0
tick-le (logs_access tick stream r b offset size) h = h.0
tick-le (logs_compute tick stream cycles) h = h.0
tick-le (logs_phase tick name) h = h
tick-le (logs_barrier tick stream barrier) h = h.0

-- The fields behind the thread.
parse_row-fields :
    (sequence id : ℕ) (call : LogCall)
    → IsLoggable call
    → parse_row (row_kind call) (blank_event sequence (row_tick call) id) (row_fields call)
      ≡ returned (event_of sequence id call)
unfolding parse_row event_of
parse_row-fields sequence id (logs_allocation tick b size alignment c name) h = ground (
  arith,
  number-decimal b "buffer" h.1,
  number-decimal size "size" h.2,
  number-decimal alignment "alignment" h.3,
  parse_class-class_text c,
  h.4,
  h.5,
)
parse_row-fields sequence id (logs_free tick b) h = ground (arith, number-decimal b "buffer" h.1)
parse_row-fields sequence id (logs_hint tick b c) h =
    ground (arith, number-decimal b "buffer" h.1, parse_class-class_text c)
parse_row-fields sequence id (logs_access tick stream r b offset size) h = ground (
  arith,
  number32-decimal stream "stream" h.1,
  number-decimal b "buffer" h.2,
  number-decimal offset "offset" h.3,
  number-decimal size "size" h.4,
  h.5,
)
parse_row-fields sequence id (logs_compute tick stream cycles) h =
    ground (arith, number32-decimal stream "stream" h.1, number-decimal cycles "cycles" h.2)
parse_row-fields sequence id (logs_phase tick name) h = refl
parse_row-fields sequence id (logs_barrier tick stream barrier) h =
    ground (arith, number32-decimal stream "stream" h.1, number-decimal barrier "barrier" h.2)

-- A row that the writer prints for a call is read as the event that the call stands for.
pub parse_event-row :
    (previous : Option ℕ) (sequence id : ℕ) (call : LogCall)
    → sequence ≡ next_sequence previous
    → sequence ≤ infinite
    → id ≤ 0xffff_ffff
    → IsLoggable call
    → parse_event previous (row sequence id call) ≡ returned (event_of sequence id call)
unfolding parse_event
parse_event-row previous sequence id call follows word small h = ground (
  arith,
  number-decimal sequence "sequence" word,
  number-decimal (row_tick call) "tick" (tick-le call h),
  number32-decimal id "thread" small,
  parse_row-fields sequence id call h,
)
