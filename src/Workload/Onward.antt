-- ===== src/Workload/Onward.antt =====
-- sim/workload_trace.cpp: `replay_events`: the ready cycles of the streams, after the handlers of
-- events that are not accesses.
use programmable_retention_t.Prelude.{
  ℕ, ◌-◌, ◌≤◌, max, false, not, ◌&&◌, ◌||◌, some, ◌≡◌, ap, ◌∙◌, arith, inl, inr, ◌==◌, ltb,
  if◌then◌else◌, is_some, Bool-cases, Option-cases, Entries, lookup, insert, lookup-insert,
  same_class, infinite, ◌/◌,
}
use programmable_retention_t.Prelude.Exceptions.{
  Attempt, returned, checked_add, WhenReturned, WhenReturned->>=, WhenReturned_known,
  WhenReturned-if,
}
use programmable_retention_t.RetentionModel.{Platform, line_bytes}
use programmable_retention_t.EvidenceModel.Capacity.{release_range}
use programmable_retention_t.Workload.Events.{Event}
use programmable_retention_t.Workload.Counters.{ReplayPolicy, mul64, remove_live_bytes}
use programmable_retention_t.Workload.Ranges.{all_streams_ready, set_all, aligned_lines, align_up}
use programmable_retention_t.Workload.Oracle.{or_zero}
use programmable_retention_t.Workload.Placement.{
  selected_class, reserve_with_policy, migrate_allocation,
}
use programmable_retention_t.Workload.Lifecycle.{
  ReplayState, new_allocation, count_placement, place_allocation, replay_allocation,
  release_allocation, replay_free,
}
use programmable_retention_t.Workload.Access.{follows_hints, migrate_on_hint, replay_hint}
use programmable_retention_t.Workload.Replay.{replay_compute, replay_barrier}
use programmable_retention_t.Workload.Streams.{lookup-all_streams_ready, lookup-set_all}

-- Every stream that is known stays known, and is ready no earlier.
abbrev pub Grows : Entries ℕ → Entries ℕ → Type 0
Grows before after =
    (stream r : ℕ)
    → lookup stream before ≡ some r
    → (q : ℕ) × (lookup stream after ≡ some q) × (r ≤ q)

pub Grows-refl : (e : Entries ℕ) → Grows e e
Grows-refl e stream r h = (r, h, omega arith)

pub Grows-trans : (a b c : Entries ℕ) → Grows a b → Grows b c → Grows a c
Grows-trans a b c f g stream r h =
    let (q, k, le) = f stream r h in
    let (q', k', le') = g stream q k in (q', k', omega (arith, le, le'))

Grows-set_all :
    (e : Entries ℕ) (ready : ℕ) → all_streams_ready e ≤ ready → Grows e (set_all ready e)
Grows-set_all e ready late stream r h = (
  ready,
  lookup-set_all e ready stream r h,
  omega (arith, late, lookup-all_streams_ready e stream r h),
)

-- The stream `key` is ready no later than `ready`, if it is known.
abbrev pub ReadyBy : Entries ℕ → ℕ → ℕ → Type 0
ReadyBy e key ready = (old : ℕ) → lookup key e ≡ some old → old ≤ ready

pub Grows-insert :
    (e : Entries ℕ) (key ready : ℕ) → ReadyBy e key ready → Grows e (insert key ready e)
Grows-insert e key ready later stream r h = elim (Bool-cases (key == stream)) [
  | inr other ↦ (r, lookup-insert key stream ready e ∙ ground (arith, h), omega arith)
  | inl same ↦
      let here : key ≡ stream = ground arith in
      (
        ready,
        lookup-insert key stream ready e ∙ ground arith,
        later r (ap (λ k. lookup k e) here ∙ h),
      )
]

pub or_zero_least :
    (e : Entries ℕ) (key tick : ℕ) → ReadyBy e key (max (or_zero (lookup key e)) tick)
or_zero_least e key tick old h = rw h (omega arith)

-- What an event that returned leaves of the streams.
abbrev pub Onward : {D G : Type 0} → ReplayState D G → Attempt (ReplayState D G) → Type 0
Onward s r = WhenReturned r (λ t. Grows s.stream_ready t.stream_ready)

module _ {D G : Type 0} where
  pub replay_free-Onward :
      (s : ReplayState D G) (event : Event) (ready : ℕ) → Onward s (replay_free s event ready)
  unfolding replay_free release_allocation
  replay_free-Onward s event ready = elim (Option-cases (lookup event.buffer s.allocations)) [
    | inl e ↦ rw (e, replay_free) tt
    | inr (allocation, e) ↦
        rw (e, replay_free)
          (WhenReturned->>=
            (if allocation.resident then release_allocation s ready allocation else returned s) _ _
            λ t same.
              WhenReturned_known _ t (λ t. Grows s.stream_ready t.stream_ready)
                (WhenReturned-if allocation.resident (release_allocation s ready allocation)
                  (returned s) _
                  (WhenReturned->>= (release_range s.memory allocation.base allocation.line_count) _
                    _
                    λ m _.
                      WhenReturned->>=
                        (remove_live_bytes s.replay allocation.retention_class allocation.size) _ _
                        λ lowered _. Grows-set_all s.stream_ready _ (omega arith))
                  (Grows-refl s.stream_ready))
                same)
  ]

  pub replay_compute-Onward :
      (s : ReplayState D G) (event : Event) (key ready : ℕ)
      → ReadyBy s.stream_ready key ready
      → Onward s (replay_compute s event key ready)
  unfolding replay_compute
  replay_compute-Onward s event key ready by =
      WhenReturned->>= (checked_add ready event.cycles _) _ _ λ later e.
        WhenReturned->>= (checked_add s.replay.compute_cycles event.cycles _) _ _
          λ cycles _. Grows-insert s.stream_ready key later λ old h. ground (arith, e, by old h)

  pub replay_barrier-Onward :
      (s : ReplayState D G) (event : Event) (ready : ℕ)
      → Onward s (returned (replay_barrier s event ready))
  unfolding replay_barrier
  replay_barrier-Onward s event ready = Grows-set_all s.stream_ready _ (omega arith)

module _ {D G : Type 0} ⦃p : Platform D G⦄ where
  pub replay_allocation-Onward :
      (s : ReplayState D G) (event : Event) (policy : ReplayPolicy) (ages : Entries ℕ)
      → Onward s (replay_allocation s event policy ages)
  unfolding replay_allocation place_allocation
  replay_allocation-Onward s event policy ages =
      WhenReturned-if (is_some (lookup event.buffer s.allocations)) _ _ _ tt (
        WhenReturned->>= (aligned_lines event.size) _ _ λ line_count _.
          WhenReturned->>= (align_up s.next_base (max event.alignment line_bytes)) _ _ λ base _.
            WhenReturned-if
              (ltb (infinite / line_bytes) line_count
                || ltb (infinite - mul64 line_count line_bytes) base)
              _ _ _ tt
              (WhenReturned->>=
                (reserve_with_policy s.memory policy
                  (selected_class policy event ages s.memory.profile) base line_count)
                _ _
                λ r _.
                  WhenReturned->>=
                    (count_placement s.replay (new_allocation event base line_count r.1 r.2)) _ _
                    λ counted _. Grows-refl s.stream_ready))

  pub replay_hint-Onward :
      (s : ReplayState D G) (event : Event) (policy : ReplayPolicy) (key ready : ℕ)
      → ReadyBy s.stream_ready key ready
      → Onward s (replay_hint s event policy key ready)
  unfolding replay_hint migrate_on_hint
  replay_hint-Onward s event policy key ready by =
      elim (Option-cases (lookup event.buffer s.allocations)) [
        | inl e ↦ rw (e, replay_hint) tt
        | inr (allocation, e) ↦
            rw (e, replay_hint)
              (WhenReturned-if
                (follows_hints policy
                  && allocation.resident
                  && not (same_class allocation.retention_class event.hint))
                _ _ _
                (WhenReturned->>=
                  (migrate_allocation s.memory allocation event.hint ready s.replay false) _ _
                  λ moved _. Grows-insert s.stream_ready key _ λ old h. ground (arith, by old h))
                (Grows-refl s.stream_ready))
      ]
