-- ===== src/Workload/Oracle.antt =====
-- sim/workload_trace.cpp: `oracle_ages`, the longest time from a write to a read of each buffer.
use programmable_retention_t.Prelude.{
  ℕ, zero, suc, ◌+◌, ◌-◌, max, sub64, Bool, true, false, ◌||◌, List, [], ◌∷◌, Option, none, some,
  ltb, if◌then◌else◌, Entries, lookup, insert, erase, get_elem?, set, replicate,
}
use programmable_retention_t.Prelude.Exceptions.{Attempt, returned, thrown, ◌>>=◌, checked_add}
use programmable_retention_t.EvidenceModel.Types.{DeviceProfile}
use programmable_retention_t.Workload.Events.{
  Event, allocate_event, free_event, hint_event, access_event, compute_event, phase_event,
  barrier_event,
}
use programmable_retention_t.Workload.Ranges.{line_range, aligned_lines}

pub record AgeState : Type 0 where
  pub size : ℕ
  pub last_write : List ℕ
  pub initialized : List Bool

-- The loop's variables: `states`, `result` and `cycle`.
pub record Oracle : Type 0 where
  pub states : Entries AgeState
  pub ages : Entries ℕ
  pub cycle : ℕ

abbrev pub or_zero : Option ℕ → ℕ
or_zero none = 0
or_zero (some n) = n

-- `std::vector::at`
abbrev pub vector_at : {A : Type 0} → List A → ℕ → Attempt A
vector_at xs i = elim (get_elem? xs i) [
  | none ↦ thrown "vector::_M_range_check"
  | some x ↦ returned x
]

-- The slowest read and the slowest write of a profile.
unfoldable pub maximum_read_cycles : {D : Type 0} → DeviceProfile D → ℕ
maximum_read_cycles profile =
    max (max profile.banks.of_ephemeral.read_cycles profile.banks.of_epoch.read_cycles)
      profile.banks.of_durable.read_cycles

unfoldable pub maximum_write_cycles : {D : Type 0} → DeviceProfile D → ℕ
maximum_write_cycles profile =
    max (max profile.banks.of_ephemeral.write_cycles profile.banks.of_epoch.write_cycles)
      profile.banks.of_durable.write_cycles

-- The ages after a read of a line, initialised or not.
unfoldable pub read_age : Oracle → ℕ → ℕ → AgeState → Bool → Attempt (Entries ℕ)
read_age oracle buffer line state false = returned oracle.ages
read_age oracle buffer line state true = vector_at state.last_write line >>= λ written. returned (
    insert buffer (max (or_zero (lookup buffer oracle.ages)) (sub64 oracle.cycle written))
      oracle.ages)

-- One line of an access.
unfoldable pub age_line : ℕ → ℕ → Bool → ℕ → ℕ → AgeState → Oracle → Attempt (AgeState × Oracle)
unfolding read_age
age_line read_cycles write_cycles true buffer line state oracle =
    checked_add oracle.cycle write_cycles "oracle cycle overflow" >>= λ cycle.
    vector_at state.last_write line >>= λ _. vector_at state.initialized line >>= λ _. returned (
      record state {
        last_write = set state.last_write line cycle;
        initialized = set state.initialized line true;
      },
      record oracle { cycle = cycle },
    )
age_line read_cycles write_cycles false buffer line state oracle =
    vector_at state.initialized line >>= λ initialized.
    read_age oracle buffer line state initialized >>= λ ages.
    checked_add oracle.cycle read_cycles "oracle cycle overflow" >>= λ cycle.
    returned (state, record oracle { ages = ages; cycle = cycle })

unfoldable pub age_lines :
    ℕ → ℕ → Bool → ℕ → ℕ → ℕ → AgeState → Oracle → Attempt (AgeState × Oracle)
unfolding age_line
age_lines read_cycles write_cycles write buffer zero line state oracle = returned (state, oracle)
age_lines read_cycles write_cycles write buffer (suc left) line state oracle =
    age_line read_cycles write_cycles write buffer line state oracle >>= λ r.
    age_lines read_cycles write_cycles write buffer left (line + 1) r.0 r.1

unfoldable pub age_access : ℕ → ℕ → Event → AgeState → Oracle → Attempt Oracle
unfolding age_lines line_range
age_access read_cycles write_cycles event state oracle =
    if ltb state.size event.offset || ltb (state.size - event.offset) event.size
    then thrown "access references invalid allocation"
    else (line_range event >>= λ range.
        age_lines read_cycles write_cycles event.write event.buffer (range.1 + 1 - range.0) range.0
          state oracle
        >>= λ r. returned (record r.1 { states = insert event.buffer r.0 r.1.states }))

-- One event of the trace.
unfoldable pub age_event : ℕ → ℕ → Oracle → Event → Attempt Oracle
unfolding aligned_lines age_access
age_event read_cycles write_cycles oracle event = elim event.kind [
  | allocate_event ↦ aligned_lines event.size >>= λ lines. returned (record oracle {
    states =
        insert event.buffer
          (record {
            size = event.size;
            last_write = replicate lines 0;
            initialized = replicate lines false;
          })
          oracle.states;
  })
  | access_event ↦ elim (lookup event.buffer oracle.states) [
    | none ↦ thrown "access references invalid allocation"
    | some state ↦ age_access read_cycles write_cycles event state oracle
  ]
  | compute_event ↦ checked_add oracle.cycle event.cycles "oracle cycle overflow" >>= λ cycle.
      returned (record oracle { cycle = cycle })
  | free_event ↦ returned (record oracle { states = erase event.buffer oracle.states })
  | hint_event ↦ returned oracle
  | phase_event ↦ returned oracle
  | barrier_event ↦ returned oracle
]

unfoldable pub age_events : ℕ → ℕ → Oracle → List Event → Attempt Oracle
unfolding age_event
age_events read_cycles write_cycles oracle [] = returned oracle
age_events read_cycles write_cycles oracle (event ∷ rest) =
    age_event read_cycles write_cycles oracle event >>= λ next.
    age_events read_cycles write_cycles next rest

unfoldable pub oracle_ages : {D : Type 0} → List Event → DeviceProfile D → Attempt (Entries ℕ)
unfolding age_events maximum_read_cycles maximum_write_cycles
oracle_ages events profile =
    age_events (maximum_read_cycles profile) (maximum_write_cycles profile)
      (record { states = []; ages = []; cycle = 0 }) events
    >>= λ oracle. returned oracle.ages
