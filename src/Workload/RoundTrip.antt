-- ===== src/Workload/RoundTrip.antt =====
-- A whole trace, written by src/trace_writer.cpp and read by sim/workload_trace.cpp.
use programmable_retention_t.Prelude.{
  ℕ, ◌≤◌, Bool, true, List, [], ◌∷◌, ◌++◌, Option, none, some, ◌≡◌, refl, sym, ap, ◌∙◌, arith,
  infinite, add64, add64-lt, Entries, lookup, insert, Option-cases, inl, inr,
}
use mathlib.Core.List.{append_assoc, append-nil}
use programmable_retention_t.Prelude.Exceptions.{returned}
use programmable_retention_t.Workload.Text.{Text, codes, tokens, text_lines}
use programmable_retention_t.Workload.Events.{
  Event, next_sequence, parse_event, parse_events, parse_header, load_events,
}
use programmable_retention_t.Workload.Writer.{
  OutputStream, TraceWriter, decimal, make_writer, thread_id_locked, write_event,
  finish_event_locked, spaced,
}
use programmable_retention_t.Workload.Log.{
  LogCall, log, log_all, event_of, AreLoggable, row, row_kind, row_tick, row_fields,
  logs_allocation, logs_free, logs_hint, logs_access, logs_compute, logs_phase, logs_barrier,
}
use programmable_retention_t.Workload.Tokens.{tokens-spaced, spaced-IsRow, text_lines-row}
use programmable_retention_t.Workload.Rows.{row-AreWords, parse_event-row}

-- A stream that keeps what it gets.
instance abbrev pub in_memory : OutputStream Text
in_memory = record { put = λ o s. o ++ s; flush = λ o. o; good = λ o. true }

-- The number of the calling thread.
abbrev pub caller : TraceWriter Text → ℕ → ℕ
caller w thread = (thread_id_locked w thread).1

-- The events of a sequence of calls, in order, numbered from the writer's counter on.
unfoldable pub logged_events : TraceWriter Text → List (ℕ × LogCall) → List Event
unfolding log event_of thread_id_locked
logged_events w [] = []
logged_events w ((thread, call) ∷ rest) =
    event_of w.sequence (caller w thread) call ∷ logged_events (log w thread call).0 rest

-- The rows of a sequence of calls.
rows : TraceWriter Text → List (ℕ × LogCall) → Text
rows w [] = []
rows w ((thread, call) ∷ rest) =
    spaced (row w.sequence (caller w thread) call) ++ 10 ∷ rows (log w thread call).0 rest

-- What a call leaves: its row, the next sequence number, and the table of threads.
log-write_event :
    (w : TraceWriter Text) (thread : ℕ) (call : LogCall)
    → log w thread call ≡ write_event w thread (row_kind call) (row_tick call) (row_fields call)
unfolding log
log-write_event w thread (logs_allocation tick b size alignment c name) = refl
log-write_event w thread (logs_free tick b) = refl
log-write_event w thread (logs_hint tick b c) = refl
log-write_event w thread (logs_access tick stream r b offset size) = refl
log-write_event w thread (logs_compute tick stream cycles) = refl
log-write_event w thread (logs_phase tick name) = refl
log-write_event w thread (logs_barrier tick stream barrier) = refl

thread_id_locked-keeps :
    (w : TraceWriter Text) (thread : ℕ)
    → ((thread_id_locked w thread).0.output ≡ w.output)
      × ((thread_id_locked w thread).0.sequence ≡ w.sequence)
unfolding thread_id_locked
thread_id_locked-keeps w thread = ground arith

write_event-output :
    (w : TraceWriter Text) (thread tick : ℕ) (kind : Text) (fields : List Text)
    → (write_event w thread kind tick fields).0.output
      ≡ (w.output
          ++ spaced (kind ∷ decimal w.sequence ∷ decimal tick ∷ decimal (caller w thread) ∷ fields))
        ++ 10 ∷ []
unfolding write_event finish_event_locked
write_event-output w thread tick kind fields = ground (arith, thread_id_locked-keeps w thread)

write_event-state :
    (w : TraceWriter Text) (thread tick : ℕ) (kind : Text) (fields : List Text)
    → ((write_event w thread kind tick fields).0.sequence ≡ add64 w.sequence 1)
      × ((write_event w thread kind tick fields).0.threads ≡ (thread_id_locked w thread).0.threads)
      × ((write_event w thread kind tick fields).0.next_thread_id
          ≡ (thread_id_locked w thread).0.next_thread_id)
unfolding write_event finish_event_locked
write_event-state w thread tick kind fields = ground (arith, thread_id_locked-keeps w thread)

-- The counters fit their C types.
abbrev AreSmall : Entries ℕ → Type 0
AreSmall [] = Unit {0}
AreSmall ((thread, id) ∷ rest) = (id ≤ 0xffff_ffff) × AreSmall rest

abbrev IsStarted : TraceWriter Text → Type 0
IsStarted w = (w.sequence ≤ infinite) × (w.next_thread_id ≤ 0xffff_ffff) × AreSmall w.threads

lookup-AreSmall :
    (threads : Entries ℕ) (thread id : ℕ)
    → AreSmall threads
    → lookup thread threads ≡ some id
    → id ≤ 0xffff_ffff
unfolding lookup
lookup-AreSmall [] thread id h e = ground arith
lookup-AreSmall ((t, i) ∷ rest) thread id h e =
    ground (arith, e, lookup-AreSmall rest thread id h.1)

insert-AreSmall :
    (threads : Entries ℕ) (thread id : ℕ)
    → id ≤ 0xffff_ffff
    → AreSmall threads
    → AreSmall (insert thread id threads)
unfolding insert
insert-AreSmall [] thread id k h = (k, tt)
insert-AreSmall ((t, i) ∷ rest) thread id k h = ground (arith, insert-AreSmall rest thread id k h.1)

caller-le : (w : TraceWriter Text) (thread : ℕ) → IsStarted w → caller w thread ≤ 0xffff_ffff
unfolding thread_id_locked
caller-le w thread v = elim (Option-cases (lookup thread w.threads)) [
  | inl e ↦ rw (caller, thread_id_locked, e) v.1
  | inr (id, e) ↦ rw (caller, thread_id_locked, e) (lookup-AreSmall w.threads thread id v.2 e)
]

thread_id_locked-IsStarted :
    (w : TraceWriter Text) (thread : ℕ) → IsStarted w → IsStarted (thread_id_locked w thread).0
unfolding thread_id_locked
thread_id_locked-IsStarted w thread v = elim (Option-cases (lookup thread w.threads)) [
  | inl e ↦
      rw (e, thread_id_locked)
        (v.0, omega arith, insert-AreSmall w.threads thread w.next_thread_id v.1 v.2)
  | inr (id, e) ↦ rw (e, thread_id_locked) v
]

log-IsStarted :
    (w : TraceWriter Text) (thread : ℕ) (call : LogCall)
    → IsStarted w
    → IsStarted (log w thread call).0
log-IsStarted w thread call v =
    let state = write_event-state w thread (row_tick call) (row_kind call) (row_fields call) in
    let threads = thread_id_locked-IsStarted w thread v in
    rw (log-write_event w thread call)
      (omega (arith, state.0, add64-lt w.sequence 1), rw state.2 threads.1, rw state.1 threads.2)

log-sequence :
    (w : TraceWriter Text) (thread : ℕ) (call : LogCall)
    → (log w thread call).0.sequence ≡ add64 w.sequence 1
log-sequence w thread call =
    ap (λ r. r.0.sequence) (log-write_event w thread call)
    ∙ (write_event-state w thread (row_tick call) (row_kind call) (row_fields call)).0

log-output :
    (w : TraceWriter Text) (thread : ℕ) (call : LogCall)
    → (log w thread call).0.output
      ≡ w.output ++ (spaced (row w.sequence (caller w thread) call) ++ 10 ∷ [])
log-output w thread call =
    ap (λ r. r.0.output) (log-write_event w thread call)
    ∙ write_event-output w thread (row_tick call) (row_kind call) (row_fields call)
    ∙ append_assoc w.output (spaced (row w.sequence (caller w thread) call)) (10 ∷ [])

log_all-output :
    (w : TraceWriter Text) (calls : List (ℕ × LogCall))
    → (log_all w calls).output ≡ w.output ++ rows w calls
unfolding log_all rows
log_all-output w [] = sym (append-nil w.output)
log_all-output w ((thread, call) ∷ rest) =
    log_all-output (log w thread call).0 rest
    ∙ ap (λ o. o ++ rows (log w thread call).0 rest) (log-output w thread call)
    ∙ append_assoc w.output (spaced (row w.sequence (caller w thread) call) ++ 10 ∷ [])
        (rows (log w thread call).0 rest)
    ∙ ap (λ t. w.output ++ t)
        (append_assoc (spaced (row w.sequence (caller w thread) call)) (10 ∷ [])
          (rows (log w thread call).0 rest))

event_of-sequence :
    (sequence id : ℕ) (call : LogCall) → (event_of sequence id call).sequence ≡ sequence
unfolding event_of
event_of-sequence sequence id (logs_allocation tick b size alignment c name) = refl
event_of-sequence sequence id (logs_free tick b) = refl
event_of-sequence sequence id (logs_hint tick b c) = refl
event_of-sequence sequence id (logs_access tick stream r b offset size) = refl
event_of-sequence sequence id (logs_compute tick stream cycles) = refl
event_of-sequence sequence id (logs_phase tick name) = refl
event_of-sequence sequence id (logs_barrier tick stream barrier) = refl

parse_events-cons :
    (previous : Option ℕ) (line field : Text) (fields lines : List Text) (event : Event)
    (events : List Event)
    → tokens line ≡ field ∷ fields
    → parse_event previous (field ∷ fields) ≡ returned event
    → parse_events (some event.sequence) lines ≡ returned events
    → parse_events previous (line ∷ lines) ≡ returned (event ∷ events)
unfolding parse_events tokens
parse_events-cons previous line field fields lines event events e f g = ground (arith, e, f, g)

parse_events-nil : (previous : Option ℕ) → parse_events previous (text_lines [] []) ≡ returned []
unfolding parse_events text_lines
parse_events-nil previous = refl

-- Reading the rows, after the event before them if there is one.
parse_events-rows :
    (previous : Option ℕ) (w : TraceWriter Text) (calls : List (ℕ × LogCall))
    → w.sequence ≡ next_sequence previous
    → IsStarted w
    → AreLoggable calls
    → parse_events previous (text_lines [] (rows w calls)) ≡ returned (logged_events w calls)
unfolding rows logged_events
parse_events-rows previous w [] follows v h = parse_events-nil previous
parse_events-rows previous w ((thread, call) ∷ rest) follows v h =
    let fields = row w.sequence (caller w thread) call in
    let words = row-AreWords w.sequence (caller w thread) call in
    let event = event_of w.sequence (caller w thread) call in
    let w' = (log w thread call).0 in
    let later : parse_events (some event.sequence) (text_lines [] (rows w' rest))
        ≡ returned (logged_events w' rest) =
      parse_events-rows (some event.sequence) w' rest
        (log-sequence w thread call
          ∙ ap (λ n. add64 n 1) (sym (event_of-sequence w.sequence (caller w thread) call)))
        (log-IsStarted w thread call v) h.1 in
    ap (parse_events previous)
      (text_lines-row (spaced fields) (rows w' rest) (spaced-IsRow fields words))
    ∙ parse_events-cons previous (spaced fields) (row_kind call)
        (decimal w.sequence ∷ decimal (row_tick call) ∷ decimal (caller w thread) ∷ row_fields call)
        (text_lines [] (rows w' rest)) event (logged_events w' rest) (tokens-spaced fields words)
        (parse_event-row previous w.sequence (caller w thread) call follows v.0
          (caller-le w thread v) h.0)
        later

-- The header, and the remark behind it.
abbrev pub preamble : Text
preamble =
    codes "RTTRACE 2" ++ 10 ∷ codes "# Events are policy-independent and byte addressed." ++ 10 ∷ []

abbrev pub new_writer : Bool → TraceWriter Text
new_writer flush_each_event = record {
  output = preamble;
  threads = [];
  sequence = 0;
  next_thread_id = 0;
  flush_each_event = flush_each_event;
  last_error = "";
}

parse_header-preamble :
    (s : Text) → parse_header (text_lines [] (preamble ++ s)) ≡ parse_events none (text_lines [] s)
unfolding parse_header text_lines
parse_header-preamble s = refl

-- What the writer leaves in a file that takes every byte, for calls from any number of threads whose
-- arguments fit their C types, whose allocations and accesses are not empty and whose alignments are
-- powers of two, is read back as exactly the events of those calls, in order.
pub load_events-log_all :
    (flush_each_event : Bool) (calls : List (ℕ × LogCall))
    → AreLoggable calls
    → (make_writer [] flush_each_event ≡ returned (new_writer flush_each_event))
      × (load_events (log_all (new_writer flush_each_event) calls).output
          ≡ returned (logged_events (new_writer flush_each_event) calls))
unfolding load_events make_writer
load_events-log_all flush_each_event calls h = (
  refl,
  ap (λ t. parse_header (text_lines [] t)) (log_all-output (new_writer flush_each_event) calls)
      ∙ parse_header-preamble (rows (new_writer flush_each_event) calls)
      ∙ parse_events-rows none (new_writer flush_each_event) calls refl
          (omega arith, omega arith, tt) h,
)
