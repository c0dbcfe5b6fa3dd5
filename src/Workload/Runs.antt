-- ===== src/Workload/Runs.antt =====
-- A whole replay, from its start: the accounts after any events.
use programmable_retention_t.Prelude.{
  ℕ, List, [], ◌∷◌, some, ◌≡◌, refl, arith, inl, inr, Option-cases, max, lookup, Entries, total,
  erase, subst,
}
use programmable_retention_t.Prelude.Exceptions.{returned, checked_add, Ensures, Ensures->>=}
use programmable_retention_t.RetentionModel.{Platform, ErrorMode}
use programmable_retention_t.EvidenceModel.Types.{DeviceProfile, make_evidence}
use programmable_retention_t.EvidenceModel.Accounting.{checked_add_returns}
use programmable_retention_t.EvidenceModel.Histories.{IsUsable, make_evidence-IsAccounted}
use programmable_retention_t.Workload.Events.{
  Event, EventKind, allocate_event, free_event, hint_event, access_event, compute_event,
  phase_event, barrier_event,
}
use programmable_retention_t.Workload.Counters.{ReplayPolicy, Allocation}
use programmable_retention_t.Workload.Ranges.{stream_key}
use programmable_retention_t.Workload.Oracle.{or_zero}
use programmable_retention_t.Workload.Lifecycle.{ReplayState, replay_free}
use programmable_retention_t.Workload.Replay.{
  set_ready, replay_compute, replay_phase, replay_barrier, replay_kind, replay_event, replay_loop,
  replay_start,
}
use programmable_retention_t.Workload.Books.{
  IsBalanced, replay_access-IsBalanced, replay_hint-IsBalanced,
}
use programmable_retention_t.Workload.Ledger.{replay_allocation-IsBalanced, replay_free-Returns}

module _ {D G : Type 0} where
  replay_free-IsBalanced :
      (s : ReplayState D G) (event : Event) (ready : ℕ)
      → IsBalanced s
      → Ensures (replay_free s event ready) IsBalanced
  unfolding replay_free
  replay_free-IsBalanced s event ready b = elim (Option-cases (lookup event.buffer s.allocations)) [
    | inl e ↦ rw (e, replay_free) tt
    | inr (allocation, e) ↦
        let (t, same, after, _) = replay_free-Returns s event ready allocation b e in rw same after
  ]

  replay_compute-IsBalanced :
      (s : ReplayState D G) (event : Event) (key ready : ℕ)
      → IsBalanced s
      → Ensures (replay_compute s event key ready) IsBalanced
  unfolding replay_compute
  replay_compute-IsBalanced s event key ready b =
      Ensures->>= (checked_add ready event.cycles _) _ _ _
        (checked_add_returns ready event.cycles _)
        λ later _.
          Ensures->>= (checked_add s.replay.compute_cycles event.cycles _) _ _ _
            (checked_add_returns s.replay.compute_cycles event.cycles _)
            λ cycles _. record { accounted = b.accounted; unique = b.unique; balance = b.balance }

module _ {D G : Type 0} ⦃p : Platform D G⦄ where
  replay_kind-IsBalanced :
      (kind : EventKind) (s : ReplayState D G) (event : Event) (policy : ReplayPolicy)
      (guard_cycles : ℕ) (ages : Entries ℕ) (key ready : ℕ)
      → event.kind ≡ kind
      → IsBalanced s
      → Ensures (replay_kind s event policy guard_cycles ages key ready) IsBalanced
  unfolding replay_kind replay_phase replay_barrier
  replay_kind-IsBalanced allocate_event s event policy guard_cycles ages key ready e b =
      rw (e, replay_kind) (replay_allocation-IsBalanced s event policy ages b)
  replay_kind-IsBalanced free_event s event policy guard_cycles ages key ready e b =
      rw (e, replay_kind) (replay_free-IsBalanced s event ready b)
  replay_kind-IsBalanced hint_event s event policy guard_cycles ages key ready e b =
      rw (e, replay_kind) (replay_hint-IsBalanced s event policy key ready b)
  replay_kind-IsBalanced access_event s event policy guard_cycles ages key ready e b =
      rw (e, replay_kind) (replay_access-IsBalanced s event policy guard_cycles key ready b)
  replay_kind-IsBalanced compute_event s event policy guard_cycles ages key ready e b =
      rw (e, replay_kind) (replay_compute-IsBalanced s event key ready b)
  replay_kind-IsBalanced phase_event s event policy guard_cycles ages key ready e b =
      rw (e, replay_kind)
        (record { accounted = b.accounted; unique = b.unique; balance = b.balance })
  replay_kind-IsBalanced barrier_event s event policy guard_cycles ages key ready e b =
      rw (e, replay_kind)
        (record { accounted = b.accounted; unique = b.unique; balance = b.balance })

  replay_event-IsBalanced :
      (s : ReplayState D G) (event : Event) (policy : ReplayPolicy) (guard_cycles : ℕ)
      (ages : Entries ℕ)
      → IsBalanced s
      → Ensures (replay_event s event policy guard_cycles ages) IsBalanced
  unfolding replay_event
  replay_event-IsBalanced s event policy guard_cycles ages b =
      let key = stream_key event.thread event.stream in
      let ready = max (or_zero (lookup key s.stream_ready)) event.tick in
      replay_kind-IsBalanced event.kind (set_ready s key ready) event policy guard_cycles ages key
        ready refl (record { accounted = b.accounted; unique = b.unique; balance = b.balance })

  replay_loop-IsBalanced :
      (s : ReplayState D G) (events : List Event) (policy : ReplayPolicy) (guard_cycles : ℕ)
      (ages : Entries ℕ)
      → IsBalanced s
      → Ensures (replay_loop s events policy guard_cycles ages) IsBalanced
  unfolding replay_loop
  replay_loop-IsBalanced s [] policy guard_cycles ages b = b
  replay_loop-IsBalanced s (event ∷ rest) policy guard_cycles ages b =
      Ensures->>= (replay_event s event policy guard_cycles ages) _ _ _
        (replay_event-IsBalanced s event policy guard_cycles ages b)
        λ next after. replay_loop-IsBalanced next rest policy guard_cycles ages after

module _ {D : Type 0} (G : Type 0) ⦃p : Platform D G⦄ where
  -- From a usable profile, whatever the events, the policy, the guard and the ages, a replay does
  -- nothing undefined; and when it does not throw, the memory's usage counters agree with its lines
  -- and the capacities, no buffer stands twice among the live ones, and the live bytes of each class
  -- are the sizes of the live allocations whose own record says that they are resident in that class.
  -- This is not about where the lines of an allocation are: a migration that fails on the way leaves
  -- some of them in the destination class, and the record in the source class.
  pub replay_loop-replay_start-IsBalanced :
      (profile : DeviceProfile D) (mode : ErrorMode) (seed : ℕ) (events : List Event)
      (policy : ReplayPolicy) (guard_cycles : ℕ) (ages : Entries ℕ)
      → IsUsable profile
      → Ensures
          (replay_loop
            (replay_start (make_evidence p profile mode seed))
            events
            policy
            guard_cycles
            ages)
          IsBalanced
  unfolding total
  replay_loop-replay_start-IsBalanced profile mode seed events policy guard_cycles ages usable =
      replay_loop-IsBalanced _ events policy guard_cycles ages (record {
        accounted = make_evidence-IsAccounted profile mode seed usable;
        unique = tt;
        balance = λ c. ground arith;
      })

  -- From a usable profile, after any events that did not throw, the free of a buffer that is live
  -- does not throw, and of the live buffers it takes away that one alone.
  pub replay_free-replay_loop :
      (profile : DeviceProfile D) (mode : ErrorMode) (seed : ℕ) (events : List Event)
      (policy : ReplayPolicy) (guard_cycles : ℕ) (ages : Entries ℕ) (s : ReplayState D G)
      (event : Event) (ready : ℕ) (allocation : Allocation)
      → IsUsable profile
      → replay_loop
          (replay_start (make_evidence p profile mode seed))
          events
          policy
          guard_cycles
          ages
        ≡ returned s
      → lookup event.buffer s.allocations ≡ some allocation
      → (t : ReplayState D G) × (replay_free s event ready ≡ returned t)
        × (t.allocations ≡ erase event.buffer s.allocations)
  replay_free-replay_loop profile mode seed events policy guard_cycles ages s event ready allocation
        usable run live =
      let b : Ensures (returned s) IsBalanced =
        subst (λ r. Ensures r IsBalanced) run
          (replay_loop-replay_start-IsBalanced profile mode seed events policy guard_cycles ages
            usable) in
      let (t, e, _, gone) = replay_free-Returns s event ready allocation b live in (t, e, gone)
