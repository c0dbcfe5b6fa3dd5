-- ===== src/Workload/Events.antt =====
-- sim/workload_trace.cpp: the events of a trace and how they are read. An exception's message is
-- modelled without the path and the line number in front of it.
use Prim.Native.Nat.{bit_and}
use programmable_retention_t.Prelude.{
  ℕ, ◌-◌, Bool, false, ◌&&◌, ◌||◌, not, List, [], ◌∷◌, Option, none, some, ◌==◌, if◌then◌else◌,
  add64, RetentionClass, ephemeral, epoch, durable,
}
use programmable_retention_t.Prelude.Exceptions.{Attempt, returned, thrown, ◌>>=◌}
use programmable_retention_t.Workload.Text.{
  Text, codes, same_text, tokens, text_lines, number, number32,
}

pub data EventKind : Type 0 where
  allocate_event free_event hint_event access_event compute_event phase_event barrier_event :
      EventKind

pub record Event : Type 0 where
  pub kind : EventKind
  pub sequence : ℕ
  pub tick : ℕ
  pub thread : ℕ
  pub stream : ℕ
  pub buffer : ℕ
  pub size : ℕ
  pub alignment : ℕ
  pub offset : ℕ
  pub cycles : ℕ
  pub barrier : ℕ
  pub hint : RetentionClass
  pub write : Bool
  pub name : Text

-- `Event{}` with the three fields that every row has.
abbrev pub blank_event : ℕ → ℕ → ℕ → Event
blank_event sequence tick thread = record {
  kind = phase_event;
  sequence = sequence;
  tick = tick;
  thread = thread;
  stream = 0;
  buffer = 0;
  size = 0;
  alignment = 0;
  offset = 0;
  cycles = 0;
  barrier = 0;
  hint = epoch;
  write = false;
  name = [];
}

-- `parse_retention_class` on the bytes of a token.
unfoldable pub parse_class : Text → Attempt RetentionClass
parse_class text =
    if same_text text (codes "EPHEMERAL") || same_text text (codes "FAST")
    then returned ephemeral
    else (if same_text text (codes "EPOCH") || same_text text (codes "MEDIUM")
        then returned epoch
        else (if same_text text (codes "DURABLE") || same_text text (codes "PERSISTENT")
            then returned durable
            else thrown "unknown retention class"))

abbrev pub wrong_row : {A : Type 0} → Attempt A
wrong_row = thrown "unknown event or wrong field count"

abbrev pub is_power_of_two : ℕ → Bool
is_power_of_two n = not (n == 0) && bit_and n (n - 1) == 0

-- The rows, from the fifth field on.
unfoldable pub parse_allocation : Event → List Text → Attempt Event
unfolding number parse_class
parse_allocation e (buffer ∷ size ∷ alignment ∷ hint ∷ name ∷ []) = do
  buffer ← number buffer "buffer"
  size ← number size "size"
  alignment ← number alignment "alignment"
  hint ← parse_class hint
  if size == 0
      then thrown "zero-sized allocation"
      else (if not (is_power_of_two alignment)
          then thrown "allocation alignment must be a power of two"
          else returned (record e {
            kind = allocate_event;
            buffer = buffer;
            size = size;
            alignment = alignment;
            hint = hint;
            name = name;
          }))
parse_allocation e _ = wrong_row

unfoldable pub parse_free : Event → List Text → Attempt Event
unfolding number
parse_free e (buffer ∷ []) = do
  buffer ← number buffer "buffer"
  returned (record e { kind = free_event; buffer = buffer })
parse_free e _ = wrong_row

unfoldable pub parse_hint : Event → List Text → Attempt Event
unfolding number parse_class
parse_hint e (buffer ∷ hint ∷ []) = do
  buffer ← number buffer "buffer"
  hint ← parse_class hint
  returned (record e { kind = hint_event; buffer = buffer; hint = hint })
parse_hint e _ = wrong_row

unfoldable pub parse_access : Event → List Text → Attempt Event
unfolding number number32
parse_access e (stream ∷ direction ∷ buffer ∷ offset ∷ size ∷ []) = do
  stream ← number32 stream "stream"
  if not (same_text direction (codes "R")) && not (same_text direction (codes "W"))
      then thrown "access must be R or W"
      else do
        buffer ← number buffer "buffer"
        offset ← number offset "offset"
        size ← number size "size"
        if size == 0
            then thrown "zero-sized access"
            else returned (record e {
              kind = access_event;
              stream = stream;
              write = same_text direction (codes "W");
              buffer = buffer;
              offset = offset;
              size = size;
            })
parse_access e _ = wrong_row

unfoldable pub parse_compute : Event → List Text → Attempt Event
unfolding number number32
parse_compute e (stream ∷ cycles ∷ []) = do
  stream ← number32 stream "stream"
  cycles ← number cycles "cycles"
  returned (record e { kind = compute_event; stream = stream; cycles = cycles })
parse_compute e _ = wrong_row

unfoldable pub parse_phase : Event → List Text → Attempt Event
parse_phase e (name ∷ []) = returned (record e { kind = phase_event; name = name })
parse_phase e _ = wrong_row

unfoldable pub parse_barrier : Event → List Text → Attempt Event
unfolding number number32
parse_barrier e (stream ∷ barrier ∷ []) = do
  stream ← number32 stream "stream"
  barrier ← number barrier "barrier"
  returned (record e { kind = barrier_event; stream = stream; barrier = barrier })
parse_barrier e _ = wrong_row

-- The chain of `else if` over the first field; a known event with a wrong number of fields falls
-- through to the last branch.
unfoldable pub parse_row : Text → Event → List Text → Attempt Event
unfolding parse_allocation parse_free parse_hint parse_access parse_compute parse_phase
    parse_barrier
parse_row kind e fields =
    if same_text kind (codes "ALLOC")
    then parse_allocation e fields
    else (if same_text kind (codes "FREE")
        then parse_free e fields
        else (if same_text kind (codes "HINT")
            then parse_hint e fields
            else (if same_text kind (codes "ACCESS")
                then parse_access e fields
                else (if same_text kind (codes "COMPUTE")
                    then parse_compute e fields
                    else (if same_text kind (codes "PHASE")
                        then parse_phase e fields
                        else (if same_text kind (codes "BARRIER")
                            then parse_barrier e fields
                            else wrong_row))))))

-- The sequence number that the next event must have, after the last one if there is one.
abbrev pub next_sequence : Option ℕ → ℕ
next_sequence none = 0
next_sequence (some previous) = add64 previous 1

-- One row behind the header.
unfoldable pub parse_event : Option ℕ → List Text → Attempt Event
unfolding number number32 parse_row
parse_event previous (kind ∷ sequence ∷ tick ∷ thread ∷ fields) = do
  sequence ← number sequence "sequence"
  tick ← number tick "tick"
  thread ← number32 thread "thread"
  if not (sequence == next_sequence previous)
      then thrown "event sequence must start at zero and be contiguous"
      else parse_row kind (blank_event sequence tick thread) fields
parse_event previous _ = thrown "trace event is too short"

unfoldable pub is_header : List Text → Bool
is_header (magic ∷ version ∷ []) =
    same_text magic (codes "RTTRACE") && same_text version (codes "2")
is_header _ = false

-- The loop over the lines behind the header.
unfoldable pub parse_events : Option ℕ → List Text → Attempt (List Event)
unfolding tokens parse_event
parse_events previous [] = returned []
parse_events previous (line ∷ rest) = elim (tokens line) [
  | [] ↦ parse_events previous rest
  | field ∷ fields ↦ parse_event previous (field ∷ fields) >>= λ event.
      parse_events (some event.sequence) rest >>= λ events. returned (event ∷ events)
]

-- The loop up to the header.
unfoldable pub parse_header : List Text → Attempt (List Event)
unfolding tokens parse_events is_header
parse_header [] = thrown "empty workload trace"
parse_header (line ∷ rest) = elim (tokens line) [
  | [] ↦ parse_header rest
  | field ∷ fields ↦
      if is_header (field ∷ fields)
      then parse_events none rest
      else thrown "expected RTTRACE 2 header"
]

-- `load_events` on the contents of the file.
unfoldable pub load_events : Text → Attempt (List Event)
unfolding text_lines parse_header
load_events contents = parse_header (text_lines [] contents)
