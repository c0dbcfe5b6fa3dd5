-- ===== src/Workload/Lifecycle.antt =====
-- sim/workload_trace.cpp: what `replay_events` keeps, and its handlers of allocations and frees.
use programmable_retention_t.Prelude.{
  ℕ, ◌+◌, ◌-◌, ◌*◌, ◌/◌, max, Bool, not, ◌||◌, none, some, ltb, if◌then◌else◌, is_some, infinite,
  Entries, lookup, insert, erase, add64, RetentionClass, at,
}
use programmable_retention_t.Prelude.Exceptions.{Attempt, returned, thrown, ◌>>=◌, checked_add}
use programmable_retention_t.RetentionModel.{line_bytes}
use programmable_retention_t.EvidenceModel.Types.{EvidenceMemory}
use programmable_retention_t.EvidenceModel.Capacity.{release_range}
use programmable_retention_t.EvidenceModel.Queries.{bank_ready_cycle}
use programmable_retention_t.Workload.Events.{Event}
use programmable_retention_t.Workload.Counters.{
  ReplayPolicy, Allocation, ReplayStatistics, bump, mul64, with_class, with_structure, mark_class,
  add_live_bytes, remove_live_bytes,
}
use programmable_retention_t.Workload.Placement.{selected_class, reserve_with_policy}
use programmable_retention_t.Workload.Ranges.{aligned_lines, align_up, all_streams_ready, set_all}

-- The variables of the loop over the events.
pub record ReplayState (D G : Type 0) : Type 0 where
  pub memory : EvidenceMemory D G
  pub allocations : Entries Allocation
  pub stream_ready : Entries ℕ
  pub replay : ReplayStatistics
  pub next_base : ℕ

abbrev pub new_allocation : Event → ℕ → ℕ → RetentionClass → Bool → Allocation
new_allocation event base line_count c resident = record {
  base = base;
  size = event.size;
  line_count = line_count;
  retention_class = c;
  name = event.name;
  resident = resident;
}

-- The counters of a class and of a structure that an allocation raises.
abbrev pub count_class_allocation : ReplayStatistics → RetentionClass → ℕ → ReplayStatistics
count_class_allocation replay c size =
    let statistics = at c replay.classes in
    with_class replay c (record statistics {
      allocations = bump statistics.allocations;
      allocated_bytes = add64 statistics.allocated_bytes size;
    })

abbrev pub count_structure_allocation : ReplayStatistics → Allocation → ReplayStatistics
count_structure_allocation replay allocation = with_structure replay allocation.name (λ s.
    let counted = record s {
      allocations = bump s.allocations;
      allocated_bytes = add64 s.allocated_bytes allocation.size;
    } in
    if allocation.resident then mark_class allocation.retention_class counted else counted)

-- The counters of an allocation that got its lines, or did not.
unfoldable pub count_placement : ReplayStatistics → Allocation → Attempt ReplayStatistics
unfolding add_live_bytes
count_placement replay allocation =
    if not allocation.resident
    then (checked_add replay.failures.capacity_overflow_bytes allocation.size
          "capacity-overflow counter overflow"
        >>= λ bytes. returned (record replay {
          unsafe_accesses = bump replay.unsafe_accesses;
          failures = record replay.failures {
            allocation_failures = bump replay.failures.allocation_failures;
            capacity_overflow_bytes = bytes;
          };
        }))
    else add_live_bytes (count_class_allocation replay allocation.retention_class allocation.size)
        allocation.retention_class allocation.size

module _ {D G : Type 0} where
  -- `allocations.emplace` and what is counted with it.
  abbrev pub enter_allocation :
      ReplayState D G → ℕ → EvidenceMemory D G → Allocation → ReplayStatistics → ReplayState D G
  enter_allocation s buffer m allocation counted =
      let named = count_structure_allocation counted allocation in
      record s {
        memory = m;
        allocations = insert buffer allocation s.allocations;
        replay = record named { allocations = bump named.allocations };
        next_base = allocation.base + allocation.line_count * line_bytes;
      }

  -- The placement of an allocation whose base and lines are known.
  unfoldable pub place_allocation :
      ReplayState D G → Event → ReplayPolicy → RetentionClass → ℕ → ℕ → Attempt (ReplayState D G)
  unfolding reserve_with_policy count_placement
  place_allocation s event policy requested base line_count =
      reserve_with_policy s.memory policy requested base line_count >>= λ r.
      let allocation = new_allocation event base line_count r.1 r.2 in
      count_placement s.replay allocation >>= λ counted.
      returned (enter_allocation s event.buffer r.0 allocation counted)

  unfoldable pub replay_allocation :
      ReplayState D G → Event → ReplayPolicy → Entries ℕ → Attempt (ReplayState D G)
  unfolding aligned_lines align_up place_allocation
  replay_allocation s event policy ages =
      if is_some (lookup event.buffer s.allocations)
      then thrown "duplicate live buffer id"
      else (aligned_lines event.size >>= λ line_count.
          align_up s.next_base (max event.alignment line_bytes) >>= λ base.
          if ltb (infinite / line_bytes) line_count
            || ltb (infinite - mul64 line_count line_bytes) base
          then thrown "logical address overflow"
          else place_allocation s event policy (selected_class policy event ages s.memory.profile)
              base line_count)

  -- Every stream waits until all that runs has ended, and the lines are gone.
  abbrev pub released_state :
      ReplayState D G → ℕ → Allocation → EvidenceMemory D G → ReplayStatistics → ReplayState D G
  released_state s ready allocation m lowered = record s {
    memory = m;
    stream_ready =
        set_all (max (max ready (all_streams_ready s.stream_ready)) (bank_ready_cycle s.memory))
          s.stream_ready;
    replay = record lowered {
      invalidated_lines = add64 lowered.invalidated_lines allocation.line_count;
    };
  }

  -- The release of an allocation that got its lines.
  unfoldable pub release_allocation : ReplayState D G → ℕ → Allocation → Attempt (ReplayState D G)
  unfolding release_range remove_live_bytes
  release_allocation s ready allocation =
      release_range s.memory allocation.base allocation.line_count >>= λ m.
      remove_live_bytes s.replay allocation.retention_class allocation.size >>= λ lowered.
      returned (released_state s ready allocation m lowered)

  -- `allocations.erase(found)` and the count of frees.
  abbrev pub forget_allocation : ReplayState D G → ℕ → ReplayState D G
  forget_allocation s buffer = record s {
    allocations = erase buffer s.allocations;
    replay = record s.replay { frees = bump s.replay.frees };
  }

  unfoldable pub replay_free : ReplayState D G → Event → ℕ → Attempt (ReplayState D G)
  unfolding release_allocation
  replay_free s event ready = elim (lookup event.buffer s.allocations) [
    | none ↦ thrown "free references unknown buffer"
    | some allocation ↦
        (if allocation.resident then release_allocation s ready allocation else returned s)
        >>= λ released. returned (forget_allocation released event.buffer)
  ]
