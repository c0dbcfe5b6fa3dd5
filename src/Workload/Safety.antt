-- ===== src/Workload/Safety.antt =====
-- What `ensure_retained` promises the read that follows it.
use programmable_retention_t.Prelude.{
  ℕ, zero, suc, ◌<◌, true, false, not, ◌&&◌, ◌||◌, none, some, ◌≡◌, refl, sym, ap, ◌∙◌, arith, inl,
  inr, ◌⊎◌, ◌==◌, ltb, if_false, Bool-cases, Option-cases, infinite, subst,
}
use programmable_retention_t.Prelude.Exceptions.{Attempt, returned, WhenReturned, WhenReturned->>=}
use programmable_retention_t.RetentionModel.{Platform}
use programmable_retention_t.EvidenceModel.Types.{
  EvidenceMemory, EvidenceOperation, EvidenceLineStatus,
}
use programmable_retention_t.EvidenceModel.Memory.{refresh}
use programmable_retention_t.EvidenceModel.Queries.{line_status, earliest_start_cycle}
use programmable_retention_t.Workload.Counters.{ReplayPolicy, Allocation, ReplayStatistics}
use programmable_retention_t.Workload.Placement.{
  is_adaptive, is_durable, Moved, next_class, migrate_allocation,
}
use programmable_retention_t.Workload.Maintenance.{
  maintains, Round, finish, again, maintenance_start, check_refreshed, refresh_round, maintain_line,
  check_deadline, maintenance_round, maintenance_rounds, ensure_retained,
}

module _ {D G : Type 0} where
  -- Whatever the status, an access from `cycle` on starts before the deadline, if there is one.
  abbrev pub StartsInTime : EvidenceMemory D G → ℕ → EvidenceLineStatus → Type 0
  StartsInTime m cycle status =
      (status.initialized ≡ false)
      ⊎ ((status.deadline_cycle ≡ infinite)
          ⊎ ((start : ℕ) × (earliest_start_cycle m status.retention_class cycle ≡ returned start)
              × (start < status.deadline_cycle)))

  -- A line of which an access from `cycle` on finds the data.
  abbrev pub IsRetained : EvidenceMemory D G → ℕ → ℕ → Type 0
  IsRetained m byte_address cycle =
      (status : EvidenceLineStatus)
      → line_status m byte_address ≡ some status
      → StartsInTime m cycle status

some_injective : {A : Type 0} (a b : A) → some a ≡ some b → a ≡ b
some_injective a b h = ground (h, arith)

none-some : {A : Type 0} (a : A) → none ≡ some a → ⊥
none-some a h = ground (h, arith)

needs_nothing :
    {D G : Type 0} (m : EvidenceMemory D G) (cycle : ℕ) (status : EvidenceLineStatus)
    → (not status.initialized || status.deadline_cycle == infinite) ≡ true
    → StartsInTime m cycle status
needs_nothing m cycle status safe = elim (Bool-cases status.initialized) [
  | inr blank ↦ inl blank
  | inl filled ↦ inr (inl (ground arith))
]

module _ {D G : Type 0} ⦃p : Platform D G⦄ (byte_address : ℕ) where
  -- A round that ends the loop well leaves the line retained.
  abbrev RoundIsRetained : Round D G → Type 0
  RoundIsRetained (finish moved) =
      moved.success ≡ true → IsRetained moved.memory byte_address moved.completion
  RoundIsRetained (again moved) = Unit {0}

  check_refreshed-RoundIsRetained :
      (moved : Moved D G) (status : EvidenceLineStatus) (m : EvidenceMemory D G)
      (refreshed : EvidenceOperation)
      → RoundIsRetained (check_refreshed moved status m refreshed)
  unfolding check_refreshed
  check_refreshed-RoundIsRetained moved status m refreshed =
      elim (Bool-cases
        (not refreshed.success || ltb status.deadline_cycle refreshed.completion_cycle)) [
          | inl late ↦ rw late (λ h. ground (h, arith))
          | inr kept ↦ rw kept tt
        ]

  refresh_round-RoundIsRetained :
      (moved : Moved D G) (status : EvidenceLineStatus) (guard_cycles : ℕ)
      → WhenReturned (refresh_round moved byte_address status guard_cycles) RoundIsRetained
  unfolding refresh_round
  refresh_round-RoundIsRetained moved status guard_cycles =
      WhenReturned->>= (refresh moved.memory byte_address (maintenance_start status guard_cycles)) _
        _ λ r _. check_refreshed-RoundIsRetained moved status r.0 r.1

  maintain_line-RoundIsRetained :
      (moved : Moved D G) (status : EvidenceLineStatus) (policy : ReplayPolicy) (guard_cycles : ℕ)
      → WhenReturned (maintain_line moved byte_address status policy guard_cycles) RoundIsRetained
  unfolding maintain_line
  maintain_line-RoundIsRetained moved status policy guard_cycles =
      elim (Bool-cases (is_adaptive policy && not (is_durable status.retention_class))) [
        | inr plain ↦
            rw (plain, maintain_line) (refresh_round-RoundIsRetained moved status guard_cycles)
        | inl upward ↦
            rw (upward, maintain_line)
              (WhenReturned->>=
                (migrate_allocation moved.memory moved.allocation
                  (next_class status.retention_class) (maintenance_start status guard_cycles)
                  moved.replay true)
                _ _
                λ r _. elim (Bool-cases r.success) [
                  | inl done ↦ rw done tt
                  | inr stuck ↦ rw stuck (
                      refresh_round-RoundIsRetained
                        (record r { completion = moved.completion; success = moved.success }) status
                        guard_cycles)
                ])
      ]

  check_deadline-RoundIsRetained :
      (moved : Moved D G) (status : EvidenceLineStatus) (policy : ReplayPolicy) (guard_cycles : ℕ)
      → line_status moved.memory byte_address ≡ some status
      → WhenReturned (check_deadline moved byte_address status policy guard_cycles) RoundIsRetained
  unfolding check_deadline
  check_deadline-RoundIsRetained moved status policy guard_cycles known =
      WhenReturned->>= (earliest_start_cycle moved.memory status.retention_class moved.completion) _
        _
        λ start e. elim (Bool-cases (ltb start status.deadline_cycle)) [
          | inl soon ↦ rw soon (λ _ other same.
              subst (StartsInTime moved.memory moved.completion)
                (some_injective status other (sym known ∙ same))
                (inr (inr (start, e, ground arith))))
          | inr late ↦ rw late (maintain_line-RoundIsRetained moved status policy guard_cycles)
        ]

  maintenance_round-RoundIsRetained :
      (moved : Moved D G) (policy : ReplayPolicy) (guard_cycles : ℕ)
      → WhenReturned (maintenance_round moved byte_address policy guard_cycles) RoundIsRetained
  unfolding maintenance_round
  maintenance_round-RoundIsRetained moved policy guard_cycles =
      elim (Option-cases (line_status moved.memory byte_address)) [
        | inl absent ↦
            rw (absent, maintenance_round)
              (λ _ status same. absurd (none-some status (sym absent ∙ same)))
        | inr (status, e) ↦
            rw (e, maintenance_round)
              (elim (Bool-cases (not status.initialized || status.deadline_cycle == infinite)) [
                | inl safe ↦ rw safe (λ _ other same.
                    subst (StartsInTime moved.memory moved.completion)
                      (some_injective status other (sym e ∙ same))
                      (needs_nothing moved.memory moved.completion status safe))
                | inr watched ↦
                    rw watched (check_deadline-RoundIsRetained moved status policy guard_cycles e)
              ])
      ]

  after_round :
      (continue : Moved D G → Attempt (Moved D G)) (P : Moved D G → Type 0)
      → ((next : Moved D G) → WhenReturned (continue next) P)
      → (r : Round D G) → ((moved : Moved D G) → r ≡ finish moved → P moved)
      → WhenReturned (elim r [ finish result ↦ returned result | again next ↦ continue next ]) P
  after_round continue P h (finish result) k = k result refl
  after_round continue P h (again next) k = h next

  maintenance_rounds-IsRetained :
      (attempts : ℕ) (moved : Moved D G) (policy : ReplayPolicy) (guard_cycles : ℕ)
      → WhenReturned
          (maintenance_rounds attempts moved byte_address policy guard_cycles)
          (λ after. after.success ≡ true → IsRetained after.memory byte_address after.completion)
  unfolding maintenance_rounds
  maintenance_rounds-IsRetained zero moved policy guard_cycles = tt
  maintenance_rounds-IsRetained (suc attempts) moved policy guard_cycles =
      WhenReturned->>= (maintenance_round moved byte_address policy guard_cycles) _ _ λ r e.
        after_round (λ next. maintenance_rounds attempts next byte_address policy guard_cycles) _
          (λ next. maintenance_rounds-IsRetained attempts next policy guard_cycles) r
          (λ after done.
            subst (λ q. WhenReturned q RoundIsRetained) (e ∙ ap returned done)
              (maintenance_round-RoundIsRetained moved policy guard_cycles))

  -- Under a policy that maintains its lines, when `ensure_retained` returns true, the line is
  -- unknown, or holds no data, or never expires, or the read that follows starts before its deadline.
  pub ensure_retained-IsRetained :
      (m : EvidenceMemory D G) (allocation : Allocation) (needed_cycle : ℕ) (policy : ReplayPolicy)
      (guard_cycles : ℕ) (replay : ReplayStatistics) (after : Moved D G)
      → maintains policy ≡ true
      → ensure_retained m allocation byte_address needed_cycle policy guard_cycles replay
        ≡ returned after
      → after.success ≡ true
      → IsRetained after.memory byte_address after.completion
  unfolding ensure_retained
  ensure_retained-IsRetained m allocation needed_cycle policy guard_cycles replay after active run
        kept =
      subst
        (λ q.
          WhenReturned q (λ a. a.success ≡ true → IsRetained a.memory byte_address a.completion))
        (sym (if_false (not (maintains policy)) _ _ (ap not active)) ∙ run)
        (maintenance_rounds-IsRetained 100000 _ policy guard_cycles) kept
