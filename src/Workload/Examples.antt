-- ===== src/Workload/Examples.antt =====
-- A trace of two threads, its replay on a small profile, and the theorems at these inputs.
use programmable_retention_t.Prelude.{
  IsUnique, sub64, ℕ, Option, ◌∷◌, [], List, true, false, none, some, ◌≡◌, ◌≤◌, refl, arith, erase,
  lookup, insert, add64, ephemeral, epoch, durable,
}
use programmable_retention_t.Prelude.Exceptions.{Attempt, returned, thrown, undefined, Ensures}
use programmable_retention_t.RetentionModel.{deterministic}
use programmable_retention_t.RetentionModel.Examples.{counting}
use programmable_retention_t.EvidenceModel.Types.{
  EvidenceMemory, EvidenceOperation, no_failure, reserved_line, Line, make_evidence, logical_line,
}
use programmable_retention_t.EvidenceModel.Memory.{read, write, refresh}
use programmable_retention_t.EvidenceModel.Migration.{migrate}
use programmable_retention_t.EvidenceModel.Examples.{two_channels, two_channels-IsUsable}
use programmable_retention_t.Workload.Text.{codes}
use programmable_retention_t.Workload.Events.{Event, load_events}
use programmable_retention_t.Workload.Writer.{make_writer, safe_name}
use programmable_retention_t.Workload.Log.{
  LogCall, logs_allocation, logs_free, logs_hint, logs_access, logs_compute, logs_phase,
  logs_barrier, log_all, AreLoggable, event_of,
}
use programmable_retention_t.Workload.RoundTrip.{
  in_memory, logged_events, new_writer, load_events-log_all,
}
use programmable_retention_t.Workload.Counters.{
  hint_policy, refresh_policy, adaptive_policy, Allocation, empty_statistics,
}
use programmable_retention_t.Workload.Placement.{Moved, selected_class}
use programmable_retention_t.Workload.Maintenance.{ensure_retained}
use programmable_retention_t.Workload.Lifecycle.{ReplayState, replay_free}
use programmable_retention_t.Workload.Replay.{replay_loop, replay_start, replay_barrier}
use programmable_retention_t.Workload.Books.{IsBalanced}
use programmable_retention_t.Workload.Runs.{
  replay_loop-replay_start-IsBalanced, replay_free-replay_loop,
}
use programmable_retention_t.Workload.Reads.{ensure_retained-read}
use programmable_retention_t.Workload.Onward.{Grows}
use programmable_retention_t.Workload.Clocks.{replay_loop-Grows}
use programmable_retention_t.Workload.Streams.{IsPast, replay_barrier-IsPast}

abbrev session : List (ℕ × LogCall)
session =
    (70, logs_allocation 0 1 100 64 ephemeral (codes "tile #1"))
    ∷ (70, logs_access 3 0 false 1 0 100)
    ∷ (90, logs_access 5 2 true 1 40 30)
    ∷ (70, logs_hint 7 1 durable)
    ∷ (90, logs_compute 9 2 11)
    ∷ (70, logs_phase 12 (codes "done"))
    ∷ (90, logs_barrier 13 2 0)
    ∷ []

session-AreLoggable : AreLoggable session
session-AreLoggable = ground arith

load_events-log_all_example :
    (make_writer [] true ≡ returned (new_writer true))
    × (load_events (log_all (new_writer true) session).output
        ≡ returned (logged_events (new_writer true) session))
load_events-log_all_example = load_events-log_all true session session-AreLoggable

session_events : List Event
unfolding logged_events
session_events = logged_events (new_writer true) session

replay_loop-replay_start-IsBalanced_example :
    Ensures
      (replay_loop
        (replay_start (make_evidence counting two_channels deterministic 1))
        session_events
        adaptive_policy
        16
        [])
      IsBalanced
replay_loop-replay_start-IsBalanced_example =
    replay_loop-replay_start-IsBalanced ℕ two_channels deterministic 1 session_events
      adaptive_policy 16 [] two_channels-IsUsable

-- The replay's state after a run that returned.
state_after : Attempt (ReplayState ℕ ℕ) → ReplayState ℕ ℕ
state_after (returned s) = s
state_after (thrown message) = replay_start (make_evidence counting two_channels deterministic 1)
state_after undefined = replay_start (make_evidence counting two_channels deterministic 1)

abbrev short_trace : List Event
short_trace =
    event_of 0 0 (logs_allocation 0 1 100 64 ephemeral (codes "tile"))
    ∷ event_of 1 0 (logs_access 3 0 false 1 0 100)
    ∷ event_of 2 0 (logs_access 200 0 true 1 40 30)
    ∷ []

replayed : ReplayState ℕ ℕ
unfolding replay_loop make_evidence state_after event_of
replayed = state_after (
    replay_loop (replay_start (make_evidence counting two_channels deterministic 1)) short_trace
      refresh_policy 16 [])

-- Both lines of the tile are refreshed before they are read.
replayed-test :
    (replayed.replay.read_bytes ≡ 30)
    × (replayed.replay.unsafe_accesses ≡ 0)
    × (replayed.memory.stats.refreshes ≡ 2)
unfolding replayed lookup insert add64 sub64 logical_line selected_class write refresh read
replayed-test = (refl, refl, refl)

-- A barrier of the second thread, at cycle 300.
abbrev meeting : Event
meeting = event_of 3 1 (logs_barrier 300 0 0)

replayed-IsUnique : IsUnique replayed.stream_ready
unfolding replayed lookup insert add64 sub64 logical_line selected_class write refresh read
replayed-IsUnique = ground arith

replay_barrier-IsPast_example :
    (fence : ℕ) × IsPast replayed meeting 250 fence
    × ((bound : ℕ) → IsPast replayed meeting 250 bound → fence ≤ bound)
    × ((stream r : ℕ)
        → lookup stream replayed.stream_ready ≡ some r
        → lookup stream (replay_barrier replayed meeting 250).stream_ready ≡ some fence)
replay_barrier-IsPast_example = replay_barrier-IsPast replayed meeting 250 replayed-IsUnique

-- A computation of the first thread, and then the barrier.
abbrev late_trace : List Event
late_trace = event_of 3 0 (logs_compute 210 0 40) ∷ meeting ∷ []

replayed_later : ReplayState ℕ ℕ
unfolding replay_loop replayed state_after event_of
replayed_later = state_after (replay_loop replayed late_trace refresh_policy 16 [])

replay_loop-late_trace :
    replay_loop replayed late_trace refresh_policy 16 [] ≡ returned replayed_later
unfolding replay_loop replayed replayed_later event_of lookup insert add64 sub64 logical_line
    selected_class write refresh read
replay_loop-late_trace = refl

replay_loop-Grows_example : Grows replayed.stream_ready replayed_later.stream_ready
replay_loop-Grows_example =
    replay_loop-Grows replayed replayed_later late_trace refresh_policy 16 [] replay_loop-late_trace

abbrev tile : Allocation
tile = record {
  base = 0;
  size = 100;
  line_count = 2;
  retention_class = ephemeral;
  name = codes "tile";
  resident = true;
}

abbrev frees_tile : Event
frees_tile = event_of 3 0 (logs_free 210 1)

replay_free-replay_loop_example :
    (t : ReplayState ℕ ℕ) × (replay_free replayed frees_tile 210 ≡ returned t)
    × (t.allocations ≡ erase 1 replayed.allocations)
unfolding replayed lookup insert add64 sub64 logical_line selected_class write refresh read event_of
    safe_name
replay_free-replay_loop_example =
    replay_free-replay_loop ℕ two_channels deterministic 1 short_trace refresh_policy 16 [] replayed
      frees_tile 210 tile two_channels-IsUsable refl refl

-- The outcome of a call that returned.
moved_after : Attempt (Moved ℕ ℕ) → Moved ℕ ℕ
moved_after (returned moved) = moved
moved_after (thrown message) = record {
  memory = replayed.memory;
  allocation = tile;
  completion = 0;
  replay = empty_statistics;
  success = false;
}
moved_after undefined = record {
  memory = replayed.memory;
  allocation = tile;
  completion = 0;
  replay = empty_statistics;
  success = false;
}

kept : Moved ℕ ℕ
unfolding moved_after ensure_retained replayed
kept = moved_after (ensure_retained replayed.memory tile 64 400 refresh_policy 16 replayed.replay)

read_after :
    Attempt (EvidenceMemory ℕ ℕ × EvidenceOperation) → EvidenceMemory ℕ ℕ × EvidenceOperation
read_after (returned r) = r
read_after (thrown message) = (
  replayed.memory,
  record { success = false; failure = no_failure; start_cycle = 0; completion_cycle = 0 },
)
read_after undefined = (
  replayed.memory,
  record { success = false; failure = no_failure; start_cycle = 0; completion_cycle = 0 },
)

found_line : Option Line → Line
found_line none = reserved_line ephemeral
found_line (some line) = line

kept_line : Line
unfolding kept
kept_line = found_line (lookup 1 kept.memory.lines)

read_back : EvidenceMemory ℕ ℕ × EvidenceOperation
unfolding kept read_after
read_back = read_after (read kept.memory 64 kept.completion)

ensure_retained-read_example : read_back.1.success ≡ true
unfolding kept kept_line read_back found_line replayed lookup insert add64 sub64 logical_line
    selected_class write refresh read ensure_retained
ensure_retained-read_example =
    ensure_retained-read replayed.memory tile 64 400 refresh_policy 16 replayed.replay kept
      kept_line read_back.0 read_back.1 refl refl refl refl refl refl refl (omega arith) refl

-- A hint whose migration fails at the second line, which has expired, leaves the first line in the
-- new class and the allocation in the old one; the next write of the first line throws.
abbrev torn_trace : List Event
torn_trace =
    event_of 0 0 (logs_allocation 0 1 128 64 ephemeral (codes "tile"))
    ∷ event_of 1 0 (logs_access 0 0 false 1 64 64)
    ∷ event_of 2 0 (logs_access 200 0 false 1 0 64)
    ∷ event_of 3 0 (logs_hint 210 1 epoch)
    ∷ event_of 4 0 (logs_access 300 0 false 1 0 64)
    ∷ []

torn-test :
    replay_loop
      (replay_start (make_evidence counting two_channels deterministic 1))
      torn_trace
      hint_policy
      8
      []
    ≡ thrown "write class disagrees with reserved line"
unfolding replay_loop make_evidence event_of lookup insert add64 sub64 logical_line selected_class
    write refresh read migrate
torn-test = refl
