-- ===== src/Workload/Replay.antt =====
-- sim/workload_trace.cpp: `replay_events`: its handlers of the other events, and the loop.
use programmable_retention_t.Prelude.{ℕ, max, List, [], ◌∷◌, Entries, lookup, insert}
use programmable_retention_t.Prelude.Exceptions.{Attempt, returned, ◌>>=◌, checked_add}
use programmable_retention_t.RetentionModel.{Platform, ErrorMode}
use programmable_retention_t.EvidenceModel.Types.{
  EvidenceMemory, EvidenceEnergy, EvidenceModelStatistics, DeviceProfile, make_evidence,
}
use programmable_retention_t.EvidenceModel.Queries.{bank_ready_cycle, final_energy}
use programmable_retention_t.Workload.Events.{
  Event, allocate_event, free_event, hint_event, access_event, compute_event, phase_event,
  barrier_event,
}
use programmable_retention_t.Workload.Counters.{
  ReplayPolicy, ReplayStatistics, bump, empty_statistics,
}
use programmable_retention_t.Workload.Ranges.{stream_key, all_streams_ready, set_all}
use programmable_retention_t.Workload.Oracle.{or_zero, oracle_ages}
use programmable_retention_t.Workload.Lifecycle.{ReplayState, replay_allocation, replay_free}
use programmable_retention_t.Workload.Access.{replay_hint, replay_access}

module _ {D G : Type 0} where
  abbrev pub set_ready : ReplayState D G → ℕ → ℕ → ReplayState D G
  set_ready s key ready = record s { stream_ready = insert key ready s.stream_ready }

  unfoldable pub replay_compute : ReplayState D G → Event → ℕ → ℕ → Attempt (ReplayState D G)
  replay_compute s event key ready =
      checked_add ready event.cycles "stream compute cycle overflow" >>= λ later.
      checked_add s.replay.compute_cycles event.cycles "compute counter overflow" >>= λ cycles.
      returned
        (set_ready (record s { replay = record s.replay { compute_cycles = cycles } }) key later)

  unfoldable pub replay_phase : ReplayState D G → ReplayState D G
  replay_phase s = record s { replay = record s.replay { phases = bump s.replay.phases } }

  unfoldable pub replay_barrier : ReplayState D G → Event → ℕ → ReplayState D G
  unfolding all_streams_ready set_all bank_ready_cycle
  replay_barrier s event ready =
      let fence =
        max (max (max ready (all_streams_ready s.stream_ready)) (bank_ready_cycle s.memory))
          event.tick in
      record s {
        stream_ready = set_all fence s.stream_ready;
        replay = record s.replay { barriers = bump s.replay.barriers };
      }

module _ {D G : Type 0} ⦃p : Platform D G⦄ where
  -- The handler of an event whose stream's ready cycle is up to date.
  unfoldable pub replay_kind :
      ReplayState D G → Event → ReplayPolicy → ℕ → Entries ℕ → ℕ → ℕ → Attempt (ReplayState D G)
  unfolding replay_allocation replay_free replay_hint replay_access replay_compute replay_phase
      replay_barrier
  replay_kind s event policy guard_cycles ages key ready = elim event.kind [
    | allocate_event ↦ replay_allocation s event policy ages
    | free_event ↦ replay_free s event ready
    | hint_event ↦ replay_hint s event policy key ready
    | access_event ↦ replay_access s event policy guard_cycles key ready
    | compute_event ↦ replay_compute s event key ready
    | phase_event ↦ returned (replay_phase s)
    | barrier_event ↦ returned (replay_barrier s event ready)
  ]

  unfoldable pub replay_event :
      ReplayState D G → Event → ReplayPolicy → ℕ → Entries ℕ → Attempt (ReplayState D G)
  unfolding replay_kind stream_key
  replay_event s event policy guard_cycles ages =
      let key = stream_key event.thread event.stream in
      let ready = max (or_zero (lookup key s.stream_ready)) event.tick in
      replay_kind (set_ready s key ready) event policy guard_cycles ages key ready

  unfoldable pub replay_loop :
      ReplayState D G → List Event → ReplayPolicy → ℕ → Entries ℕ → Attempt (ReplayState D G)
  unfolding replay_event
  replay_loop s [] policy guard_cycles ages = returned s
  replay_loop s (event ∷ rest) policy guard_cycles ages =
      replay_event s event policy guard_cycles ages >>= λ next.
      replay_loop next rest policy guard_cycles ages

-- The report, without the fingerprint of the trace's file.
pub record ReplayReport (D : Type 0) : Type 0 where
  pub replay : ReplayStatistics
  pub model : EvidenceModelStatistics D
  pub makespan_cycles : ℕ
  pub energy : EvidenceEnergy D

module _ {D G : Type 0} ⦃p : Platform D G⦄ where
  abbrev pub replay_start : EvidenceMemory D G → ReplayState D G
  replay_start m = record {
    memory = m;
    allocations = [];
    stream_ready = [];
    replay = empty_statistics;
    next_base = 0;
  }

  unfoldable pub make_report : ReplayState D G → ReplayReport D
  unfolding all_streams_ready final_energy
  make_report s =
      let makespan = max (all_streams_ready s.stream_ready) s.memory.makespan_cycles in
      record {
        replay = s.replay;
        model = s.memory.stats;
        makespan_cycles = makespan;
        energy = final_energy s.memory makespan;
      }

unfoldable pub replay_events :
    {D : Type 0} (G : Type 0) ⦃p : Platform D G⦄
    → List Event
    → ReplayPolicy
    → ErrorMode
    → ℕ
    → DeviceProfile D
    → ℕ
    → Attempt (ReplayReport D)
unfolding make_evidence oracle_ages replay_loop make_report
replay_events G ⦃p⦄ events policy mode seed profile guard_cycles =
    oracle_ages events profile >>= λ ages.
    replay_loop (replay_start (make_evidence p profile mode seed)) events policy guard_cycles ages
    >>= λ s. returned (make_report s)
