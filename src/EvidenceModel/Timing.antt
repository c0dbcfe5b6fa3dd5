-- ===== src/EvidenceModel/Timing.antt =====
-- When accesses start and end, and when lines expire.
use programmable_retention_t.Prelude.{
  ℕ, zero, suc, ◌+◌, ◌-◌, ◌≤◌, ◌<◌, max, true, false, List, [], ◌∷◌, none, some, ◌≡◌, refl, ap,
  arith, inl, inr, ltb, leb, Option-cases, Bool-cases, get_elem?, set, subst₂, infinite, lookup,
  RetentionClass, at, at-put_self,
}
use programmable_retention_t.Prelude.Exceptions.{returned}
use programmable_retention_t.RetentionModel.{Platform, deterministic}
use programmable_retention_t.EvidenceModel.Types.{
  EvidenceMemory, EvidenceLineStatus, Line, BankState, Scheduled, logical_line,
}
use programmable_retention_t.EvidenceModel.Schedule.{min_element, schedule, retention_failed}
use programmable_retention_t.EvidenceModel.Queries.{line_status, earliest_start_cycle}
use programmable_retention_t.EvidenceModel.Accounting.{after_schedule}

empty_of_min : (zs : List ℕ) (j y : ℕ) → min_element zs ≡ none → get_elem? zs j ≡ some y → ⊥
unfolding min_element
empty_of_min [] j y h e = ground arith
empty_of_min (z ∷ zs) j y h e = ground arith

abbrev pub IsLeast : List ℕ → ℕ → ℕ → Type 0
IsLeast xs i x = (get_elem? xs i ≡ some x) × ((j y : ℕ) → get_elem? xs j ≡ some y → x ≤ y)

relabel : (xs : List ℕ) (a b x y : ℕ) → a ≡ b → x ≡ y → IsLeast xs a x → IsLeast xs b y
relabel xs a b x y p q = subst₂ (IsLeast xs) p q

IsLeast-head :
    (z : ℕ) (zs : List ℕ) → ((j y : ℕ) → get_elem? zs j ≡ some y → z ≤ y) → IsLeast (z ∷ zs) 0 z
IsLeast-head z zs h = (refl, bound)
  where
    bound : (j y : ℕ) → get_elem? (z ∷ zs) j ≡ some y → z ≤ y
    bound zero y e = ground arith
    bound (suc j) y e = h j y e

IsLeast-tail : (z : ℕ) (zs : List ℕ) (i x : ℕ) → x ≤ z → IsLeast zs i x → IsLeast (z ∷ zs) (suc i) x
IsLeast-tail z zs i x le h = (h.0, bound)
  where
    bound : (j y : ℕ) → get_elem? (z ∷ zs) j ≡ some y → x ≤ y
    bound zero y e = ground arith
    bound (suc j) y e = h.1 j y e

-- `min_element` finds a least entry.
pub min_element-IsLeast : (xs : List ℕ) (i x : ℕ) → min_element xs ≡ some (i, x) → IsLeast xs i x
unfolding min_element
min_element-IsLeast [] i x h = ground arith
min_element-IsLeast (z ∷ zs) i x h = elim (Option-cases (min_element zs)) [
  | inl e ↦
      relabel (z ∷ zs) 0 i z x (ground arith) (ground arith)
        (IsLeast-head z zs (λ j y q. absurd (empty_of_min zs j y e q)))
  | inr ((k, y), e) ↦
      let ih = min_element-IsLeast zs k y e in
      elim (Bool-cases (leb z y)) [
        | inl le ↦
            relabel (z ∷ zs) 0 i z x (ground arith) (ground arith)
              (IsLeast-head z zs (λ j w q. let b = ih.1 j w q in ground arith))
        | inr gt ↦
            relabel (z ∷ zs) (suc k) i y x (ground arith) (ground arith)
              (IsLeast-tail z zs k y (ground arith) ih)
      ]
]

module _ {D G : Type 0} where
  schedule_returns :
      (m : EvidenceMemory D G) (c : RetentionClass) (issue latency selected ready : ℕ)
      → min_element (at c m.banks).channel_ready ≡ some (selected, ready)
      → max issue ready + latency ≤ infinite
      → m.stats.queue_delay_cycles + (max issue ready - issue) ≤ infinite
      → at c m.stats.bank_busy_cycles + latency ≤ infinite
      → schedule m c issue latency
        ≡ returned (
          after_schedule m c selected
              (max issue ready + latency)
              (m.stats.queue_delay_cycles + (max issue ready - issue))
              (at c m.stats.bank_busy_cycles + latency),
          record { start = max issue ready; completion = max issue ready + latency },
        )
  unfolding schedule
  schedule_returns m c issue latency selected ready e a b d =
      let fits : ltb (infinite - latency) (max issue ready) ≡ false = ground arith in
      let delay_fits : ltb (infinite - (max issue ready - issue)) m.stats.queue_delay_cycles
          ≡ false =
        ground arith in
      let busy_fits : ltb (infinite - latency) (at c m.stats.bank_busy_cycles) ≡ false =
        ground arith in
      rw (e, schedule) (rw (fits, delay_fits, busy_fits) refl)

  -- If the cycle counters do not overflow, `schedule` returns. The access then starts at the cycle
  -- that `earliest_start_cycle` predicts, not before it was issued, ends after its latency, occupies
  -- from then on a channel that was the first to be ready, and leaves the other channels as they were.
  pub earliest_start_cycle-schedule :
      (m : EvidenceMemory D G) (c : RetentionClass) (issue latency start : ℕ)
      → earliest_start_cycle m c issue ≡ returned start
      → start + latency ≤ infinite
      → m.stats.queue_delay_cycles + (start - issue) ≤ infinite
      → at c m.stats.bank_busy_cycles + latency ≤ infinite
      → (n : EvidenceMemory D G) × (r : Scheduled) × (selected ready : ℕ) × (schedule m c issue
            latency
          ≡ returned (n, r))
        × (r.start ≡ start)
        × (issue ≤ start)
        × (r.completion ≡ start + latency)
        × IsLeast (at c m.banks).channel_ready selected ready
        × ((at c n.banks).channel_ready ≡ set (at c m.banks).channel_ready selected r.completion)
  unfolding earliest_start_cycle
  earliest_start_cycle-schedule m c issue latency start h a b d =
      elim (Option-cases (min_element (at c m.banks).channel_ready)) [
        | inl e ↦ absurd (ground arith)
        | inr ((selected, ready), e) ↦
            let known : max issue ready ≡ start = ground arith in
            (
              _,
              _,
              selected,
              ready,
              schedule_returns m c issue latency selected ready e (rw known a) (rw known b) d,
              known,
              ground arith,
              ap (λ (x : ℕ). x + latency) known,
              min_element-IsLeast (at c m.banks).channel_ready selected ready e,
              ap (λ (k : BankState). k.channel_ready) (at-put_self c _ m.banks),
            )
      ]

module _ {D G : Type 0} ⦃p : Platform D G⦄ where
  -- With deterministic expiry, at a cycle that is not before the line's last write and below the
  -- largest machine word: an initialised line that has not failed is found expired exactly when the
  -- deadline that `line_status` reports is not after that cycle. The line is then marked as failed,
  -- and nothing else of it changes, nor does the random generator.
  pub retention_failed-deadline :
      (m : EvidenceMemory D G) (byte_address observed : ℕ) (line : Line)
      (status : EvidenceLineStatus)
      → m.error_mode ≡ deterministic
      → lookup (logical_line byte_address) m.lines ≡ some line
      → line_status m byte_address ≡ some status
      → line.initialized ≡ true
      → line.failed ≡ false
      → line.last_write_cycle ≤ observed
      → observed < infinite
      → retention_failed m line (at line.retention_class m.profile.banks) observed
        ≡ returned (
          leb status.deadline_cycle observed,
          record line { failed = leb status.deadline_cycle observed },
          m.rng,
        )
  unfolding retention_failed line_status
  retention_failed-deadline m byte_address observed line status mode found st ready fine after
        small =
      ground arith
