-- ===== src/Workload/Ledger.antt =====
-- Every run of a replay keeps the accounts, and the free of a known buffer never fails.
use programmable_retention_t.Prelude.{
  ℕ, zero, suc, ◌+◌, ◌-◌, ◌/◌, ◌≤◌, true, not, ◌||◌, none, some, ◌≡◌, refl, ◌∙◌, arith, inl, inr,
  ltb, if◌then◌else◌, if_true, if_false, Bool-cases, RetentionClass, infinite, max, lookup, erase,
  Entries, insert-IsUnique, erase-IsUnique, total-insert_absent, total-erase, same_class,
  same_class_iff, ap, at, is_some,
}
use programmable_retention_t.Prelude.Exceptions.{
  Attempt, returned, ◌>>=◌, checked_add, Ensures, Ensures->>=, Ensures-mono, Ensures-either,
  Ensures-if,
}
use programmable_retention_t.RetentionModel.{line_bytes}
use programmable_retention_t.EvidenceModel.Types.{EvidenceMemory}
use programmable_retention_t.EvidenceModel.Capacity.{reserve_range}
use programmable_retention_t.EvidenceModel.Accounting.{IsAccounted, checked_add_returns}
use programmable_retention_t.EvidenceModel.Reservations.{
  reserve_range-IsAccounted, release_range-ReleasesTo,
}
use programmable_retention_t.Workload.Events.{Event}
use programmable_retention_t.Workload.Counters.{
  ReplayPolicy, Allocation, ReplayStatistics, with_class, mul64, add_live_bytes,
}
use programmable_retention_t.Workload.Placement.{
  is_durable, is_adaptive, next_class, reserve_stronger, reserve_with_policy, selected_class,
}
use programmable_retention_t.Workload.Ranges.{aligned_lines, align_up}
use programmable_retention_t.Workload.Lifecycle.{
  ReplayState, new_allocation, enter_allocation, count_class_allocation, count_placement,
  place_allocation, replay_allocation, released_state, release_allocation, forget_allocation,
  replay_free,
}
use programmable_retention_t.Workload.Balance.{
  live_weight, live, remove_live_bytes_enough, add_live_bytes-Adds,
}
use programmable_retention_t.Workload.Books.{IsBalanced}

aligned_lines-Ensures : (size : ℕ) → Ensures (aligned_lines size) (λ _. Unit {0})
unfolding aligned_lines
aligned_lines-Ensures size = ground arith

align_up-Ensures : (value alignment : ℕ) → Ensures (align_up value alignment) (λ _. Unit {0})
unfolding align_up
align_up-Ensures value alignment = ground arith

module _ {D G : Type 0} where
  reserve_stronger-IsAccounted :
      (rounds : ℕ) (m : EvidenceMemory D G) (base line_count : ℕ) (selected : RetentionClass)
      → IsAccounted m
      → Ensures (reserve_stronger rounds m base line_count selected) (λ r. IsAccounted r.0)
  unfolding reserve_stronger
  reserve_stronger-IsAccounted zero m base line_count selected v = v
  reserve_stronger-IsAccounted (suc rounds) m base line_count selected v =
      elim (Bool-cases (is_durable selected)) [
        | inl strongest ↦ rw (strongest, reserve_stronger) v
        | inr weaker ↦
            rw (weaker, reserve_stronger)
              (Ensures->>= (reserve_range m base line_count (next_class selected)) _ _ _
                (reserve_range-IsAccounted m base line_count (next_class selected) v)
                λ r after. elim (Bool-cases r.1) [
                  | inl fits ↦ rw fits after.0
                  | inr full ↦ rw full (
                      reserve_stronger-IsAccounted rounds r.0 base line_count (next_class selected)
                        after.0)
                ])
      ]

  reserve_with_policy-IsAccounted :
      (m : EvidenceMemory D G) (policy : ReplayPolicy) (requested : RetentionClass)
      (base line_count : ℕ)
      → IsAccounted m
      → Ensures (reserve_with_policy m policy requested base line_count) (λ r. IsAccounted r.0)
  unfolding reserve_with_policy
  reserve_with_policy-IsAccounted m policy requested base line_count v =
      Ensures->>= (reserve_range m base line_count requested) _ _ _
        (reserve_range-IsAccounted m base line_count requested v)
        λ r after. Ensures-if r.1 _ _ _ after.0 (
          Ensures-if (not (is_adaptive policy)) _ _ _ after.0
            (reserve_stronger-IsAccounted 2 r.0 base line_count requested after.0))

counted_class-live :
    (replay : ReplayStatistics) (c d : RetentionClass) (size : ℕ)
    → live (count_class_allocation replay c size) d ≡ live replay d
counted_class-live replay c d size = ground arith

-- The live bytes count an allocation that got its lines, and no other.
count_placement-live :
    (replay : ReplayStatistics) (allocation : Allocation)
    → Ensures (count_placement replay allocation) (λ counted.
      (c : RetentionClass) → live counted c ≡ live_weight c allocation + live replay c)
unfolding count_placement
count_placement-live replay allocation =
    Ensures-either (not allocation.resident) _ _ _
      (λ lost.
        Ensures->>= (checked_add replay.failures.capacity_overflow_bytes allocation.size _) _ _ _
          (checked_add_returns replay.failures.capacity_overflow_bytes allocation.size _)
          λ bytes _. λ c. ground arith)
      (λ holds.
        Ensures-mono
          (add_live_bytes (count_class_allocation replay allocation.retention_class allocation.size)
            allocation.retention_class allocation.size)
          _ _
          (add_live_bytes-Adds
            (count_class_allocation replay allocation.retention_class allocation.size)
            allocation.retention_class allocation.size)
          λ raised added c.
            let before = counted_class-live replay allocation.retention_class c allocation.size in
            added c ∙ ground arith)

-- The counters once an allocation's bytes are no longer live.
abbrev lowered_statistics : ReplayStatistics → Allocation → ReplayStatistics
lowered_statistics replay allocation =
    with_class replay allocation.retention_class
      (record (at allocation.retention_class replay.classes) {
        live_bytes = live replay allocation.retention_class - allocation.size;
      })

lowered-live :
    (replay : ReplayStatistics) (allocation : Allocation) (c : RetentionClass)
    → allocation.size ≤ live replay allocation.retention_class
    → allocation.resident ≡ true
    → live (lowered_statistics replay allocation) c + live_weight c allocation ≡ live replay c
lowered-live replay allocation c own resident =
    elim (Bool-cases (same_class allocation.retention_class c)) [
      | inl here ↦
          ground (arith, ap (live replay) ((same_class_iff allocation.retention_class c).0 here))
      | inr away ↦ ground arith
    ]

module _ {D G : Type 0} where
  place_allocation-IsBalanced :
      (s : ReplayState D G) (event : Event) (policy : ReplayPolicy) (requested : RetentionClass)
      (base line_count : ℕ)
      → IsBalanced s
      → lookup event.buffer s.allocations ≡ none
      → Ensures (place_allocation s event policy requested base line_count) IsBalanced
  unfolding place_allocation
  place_allocation-IsBalanced s event policy requested base line_count b absent =
      Ensures->>= (reserve_with_policy s.memory policy requested base line_count) _ _ _
        (reserve_with_policy-IsAccounted s.memory policy requested base line_count b.accounted)
        λ r v.
          let allocation = new_allocation event base line_count r.1 r.2 in
          Ensures->>= {B = ReplayState D G} (count_placement s.replay allocation)
            (λ counted. returned (enter_allocation s event.buffer r.0 allocation counted)) _
            IsBalanced (count_placement-live s.replay allocation)
            λ counted added. record {
              accounted = v;
              unique = insert-IsUnique event.buffer allocation s.allocations b.unique;
              balance = λ c. omega (
                arith,
                added c,
                b.balance c,
                total-insert_absent (live_weight c) event.buffer allocation s.allocations absent,
              );
            }

  pub replay_allocation-IsBalanced :
      (s : ReplayState D G) (event : Event) (policy : ReplayPolicy) (ages : Entries ℕ)
      → IsBalanced s
      → Ensures (replay_allocation s event policy ages) IsBalanced
  unfolding replay_allocation
  replay_allocation-IsBalanced s event policy ages b =
      Ensures-either (is_some (lookup event.buffer s.allocations)) _ _ _ (λ _. tt)
        λ fresh.
          Ensures->>= (aligned_lines event.size) _ (λ _. Unit {0}) _
            (aligned_lines-Ensures event.size)
            λ line_count _.
              Ensures->>= (align_up s.next_base (max event.alignment line_bytes)) _ (λ _. Unit {0})
                _ (align_up-Ensures s.next_base (max event.alignment line_bytes))
                λ base _.
                  Ensures-if
                    (ltb (infinite / line_bytes) line_count
                      || ltb (infinite - mul64 line_count line_bytes) base)
                    _ _ _ tt
                    (place_allocation-IsBalanced s event policy
                      (selected_class policy event ages s.memory.profile) base line_count b
                      (ground arith))

  -- The release of a held allocation returns, and takes its bytes out of the live ones.
  release_allocation-Returns :
      (s : ReplayState D G) (ready : ℕ) (allocation : Allocation)
      → IsAccounted s.memory
      → allocation.size ≤ live s.replay allocation.retention_class
      → allocation.resident ≡ true
      → (t : ReplayState D G) × (release_allocation s ready allocation ≡ returned t)
        × IsAccounted t.memory
        × (t.allocations ≡ s.allocations)
        × ((c : RetentionClass) → live t.replay c + live_weight c allocation ≡ live s.replay c)
  unfolding release_allocation
  release_allocation-Returns s ready allocation v own resident =
      let (m, e, w) = release_range-ReleasesTo s.memory allocation.base allocation.line_count v in
      let lowered = lowered_statistics s.replay allocation in
      (
        released_state s ready allocation m lowered,
        rw (e, remove_live_bytes_enough s.replay allocation.retention_class allocation.size own)
            refl,
        w,
        refl,
        λ c. lowered-live s.replay allocation c own resident,
      )

  freed_by :
      (s : ReplayState D G) (event : Event) (ready : ℕ) (allocation : Allocation)
      (released : ReplayState D G)
      → lookup event.buffer s.allocations ≡ some allocation
      → (if allocation.resident then release_allocation s ready allocation else returned s)
        ≡ returned released
      → replay_free s event ready ≡ returned (forget_allocation released event.buffer)
  unfolding replay_free
  freed_by s event ready allocation released found e =
      rw (found, replay_free)
        (ap
          (λ (r : Attempt (ReplayState D G)).
            r >>= λ released. returned (forget_allocation released event.buffer))
          e)

  -- The free of a known buffer returns: neither the count of used lines nor that of live bytes
  -- underflows.
  pub replay_free-Returns :
      (s : ReplayState D G) (event : Event) (ready : ℕ) (allocation : Allocation)
      → IsBalanced s
      → lookup event.buffer s.allocations ≡ some allocation
      → (t : ReplayState D G) × (replay_free s event ready ≡ returned t)
        × IsBalanced t
        × (t.allocations ≡ erase event.buffer s.allocations)
  replay_free-Returns s event ready allocation b found = elim (Bool-cases allocation.resident) [
    | inr lost ↦ (
      forget_allocation s event.buffer,
      freed_by s event ready allocation _ found (if_false allocation.resident _ _ lost),
      record {
        accounted = b.accounted;
        unique = erase-IsUnique event.buffer s.allocations b.unique;
        balance = λ c. ground (
          arith,
          b.balance c,
          total-erase (live_weight c) event.buffer allocation s.allocations b.unique found,
        );
      },
      refl,
    )
    | inl resident ↦
        let own : allocation.size ≤ live s.replay allocation.retention_class = ground (
          arith,
          b.balance allocation.retention_class,
          total-erase (live_weight allocation.retention_class) event.buffer allocation s.allocations
              b.unique found,
        ) in
        let (t, e, v, same, lower) =
          release_allocation-Returns s ready allocation b.accounted own resident in
        (
          forget_allocation t event.buffer,
          freed_by s event ready allocation _ found (if_true allocation.resident _ _ resident ∙ e),
          record {
            accounted = v;
            unique = rw same (erase-IsUnique event.buffer s.allocations b.unique);
            balance = λ c. rw same (
                omega (
                  arith,
                  lower c,
                  b.balance c,
                  total-erase (live_weight c) event.buffer allocation s.allocations b.unique found,
                ));
          },
          ap (erase event.buffer) same,
        )
  ]
