-- ===== src/Workload/Writer.antt =====
-- src/trace_writer.hpp and src/trace_writer.cpp: the writer of a trace. Each call gets the identity of
-- the thread that makes it; the lock makes a call one step.
use programmable_retention_t.Prelude.{
  ℕ, zero, suc, ◌+◌, ◌/◌, ◌%◌, ◌^◌, not, Bool, true, false, ◌||◌, List, [], ◌∷◌, ◌++◌, map, none,
  some, ◌==◌, ltb, if◌then◌else◌, add64, String, lookup, insert, Entries, RetentionClass, ephemeral,
  epoch, durable,
}
use programmable_retention_t.Prelude.Exceptions.{Attempt, returned, thrown}
use text.Mathlib.Text.{◌==◌ as str_eq}
use programmable_retention_t.Workload.Text.{Text, codes, is_empty, is_space}

-- `std::ofstream`, as far as the writer uses it.
pub record OutputStream (O : Type 0) : Type 0 where
  pub put : O → Text → O
  pub flush : O → O
  pub good : O → Bool

pub record TraceWriter (O : Type 0) : Type 0 where
  pub output : O
  pub threads : Entries ℕ
  pub sequence : ℕ
  pub next_thread_id : ℕ
  pub flush_each_event : Bool
  pub last_error : String

-- `output << n`: the decimal digits, the last one first in the recursion. `n + 1` rounds are enough.
unfoldable pub decimal_digits : ℕ → ℕ → Text
decimal_digits zero n = []
decimal_digits (suc rounds) n =
    let front = decimal_digits rounds (n / 10) in
    if ltb n 10 then (b'0' + n) ∷ [] else front ++ (b'0' + n % 10) ∷ []

unfoldable pub decimal : ℕ → Text
unfolding decimal_digits
decimal n = decimal_digits (suc n) n

-- The fields of a row with a space between two of them.
unfoldable pub spaced : List Text → Text
spaced [] = []
spaced (field ∷ []) = field
spaced (field ∷ next ∷ rest) = field ++ 32 ∷ spaced (next ∷ rest)

abbrev pub class_text : RetentionClass → Text
class_text ephemeral = codes "EPHEMERAL"
class_text epoch = codes "EPOCH"
class_text durable = codes "DURABLE"

abbrev pub is_control : ℕ → Bool
is_control c = ltb c 32 || c == 127

unfoldable pub safe_byte : ℕ → ℕ
unfolding is_space
safe_byte c = if is_space c || is_control c || c == b'#' then b'_' else c

unfoldable pub safe_name : Text → Text
unfolding safe_byte
safe_name name = if is_empty name then codes "unnamed" else map safe_byte name

module _ {O : Type 0} ⦃out : OutputStream O⦄ where
  -- The constructor, with the stream that opening the path gave.
  unfoldable pub make_writer : O → Bool → Attempt (TraceWriter O)
  make_writer output flush_each_event =
      let started = out.put output (
        codes "RTTRACE 2"
        ++ 10 ∷ codes "# Events are policy-independent and byte addressed."
        ++ 10 ∷ []) in
      if not (out.good output)
      then thrown "cannot open workload trace output"
      else (if not (out.good started)
          then thrown "cannot write workload trace header"
          else returned (record {
            output = started;
            threads = [];
            sequence = 0;
            next_thread_id = 0;
            flush_each_event = flush_each_event;
            last_error = "";
          }))

module _ {O : Type 0} where
  unfoldable pub thread_id_locked : TraceWriter O → ℕ → TraceWriter O × ℕ
  thread_id_locked w thread = elim (lookup thread w.threads) [
    | some assigned ↦ (w, assigned)
    | none ↦ (
      record w {
        threads = insert thread w.next_thread_id w.threads;
        next_thread_id = (w.next_thread_id + 1) % 2 ^ 32;
      },
      w.next_thread_id,
    )
  ]

  -- The first error stays.
  unfoldable pub fail_locked : TraceWriter O → String → TraceWriter O
  fail_locked w message = if str_eq w.last_error "" then record w { last_error = message } else w

module _ {O : Type 0} ⦃out : OutputStream O⦄ where
  unfoldable pub finish_event_locked : TraceWriter O → TraceWriter O × Bool
  unfolding fail_locked
  finish_event_locked w =
      let ended = out.put w.output (10 ∷ []) in
      let output = if w.flush_each_event then out.flush ended else ended in
      let w' = record w { output = output } in
      if out.good output
      then (w', true)
      else (fail_locked w' "cannot write workload trace event", false)

  -- What every event has in common: its name, the sequence number, the tick and the thread, in front of
  -- its own fields.
  unfoldable pub write_event : TraceWriter O → ℕ → Text → ℕ → List Text → TraceWriter O × Bool
  unfolding thread_id_locked finish_event_locked spaced decimal
  write_event w thread kind tick fields =
      let (w', id) = thread_id_locked w thread in
      finish_event_locked (record w' {
        output =
            out.put w'.output
              (spaced (kind ∷ decimal w.sequence ∷ decimal tick ∷ decimal id ∷ fields));
        sequence = add64 w.sequence 1;
      })

  unfoldable pub write_allocation :
      TraceWriter O → ℕ → ℕ → ℕ → ℕ → ℕ → RetentionClass → Text → TraceWriter O × Bool
  unfolding write_event safe_name
  write_allocation w thread tick buffer_id size_bytes alignment hint region_name =
      write_event w thread (codes "ALLOC") tick (
        decimal buffer_id
        ∷ decimal size_bytes
        ∷ decimal alignment
        ∷ class_text hint
        ∷ safe_name region_name
        ∷ [])

  unfoldable pub write_free : TraceWriter O → ℕ → ℕ → ℕ → TraceWriter O × Bool
  unfolding write_event
  write_free w thread tick buffer_id =
      write_event w thread (codes "FREE") tick (decimal buffer_id ∷ [])

  unfoldable pub write_hint : TraceWriter O → ℕ → ℕ → ℕ → RetentionClass → TraceWriter O × Bool
  unfolding write_event
  write_hint w thread tick buffer_id c =
      write_event w thread (codes "HINT") tick (decimal buffer_id ∷ class_text c ∷ [])

  unfoldable pub write_access : TraceWriter O → ℕ → ℕ → ℕ → Bool → ℕ → ℕ → ℕ → TraceWriter O × Bool
  unfolding write_event
  write_access w thread tick stream_id is_read buffer_id offset_bytes size_bytes =
      write_event w thread (codes "ACCESS") tick (
        decimal stream_id
        ∷ (if is_read then codes "R" else codes "W")
        ∷ decimal buffer_id
        ∷ decimal offset_bytes
        ∷ decimal size_bytes
        ∷ [])

  unfoldable pub write_compute : TraceWriter O → ℕ → ℕ → ℕ → ℕ → TraceWriter O × Bool
  unfolding write_event
  write_compute w thread tick stream_id cycles =
      write_event w thread (codes "COMPUTE") tick (decimal stream_id ∷ decimal cycles ∷ [])

  unfoldable pub write_phase : TraceWriter O → ℕ → ℕ → Text → TraceWriter O × Bool
  unfolding write_event safe_name
  write_phase w thread tick name = write_event w thread (codes "PHASE") tick (safe_name name ∷ [])

  unfoldable pub write_barrier : TraceWriter O → ℕ → ℕ → ℕ → ℕ → TraceWriter O × Bool
  unfolding write_event
  write_barrier w thread tick stream_id barrier_id =
      write_event w thread (codes "BARRIER") tick (decimal stream_id ∷ decimal barrier_id ∷ [])

  unfoldable pub flush_trace : TraceWriter O → TraceWriter O × Bool
  unfolding fail_locked
  flush_trace w =
      let w' = record w { output = out.flush w.output } in
      if out.good w'.output
      then (w', str_eq w'.last_error "")
      else (fail_locked w' "cannot flush workload trace", false)

  -- The destructor.
  unfoldable pub close_trace : TraceWriter O → TraceWriter O
  close_trace w = record w { output = out.flush w.output }
