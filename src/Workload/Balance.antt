-- ===== src/Workload/Balance.antt =====
-- The live bytes of each class are the sizes of the allocations that are recorded as resident in it:
-- the migration of one allocation.
use programmable_retention_t.Prelude.{
  ℕ, zero, suc, ◌+◌, Bool, true, false, not, ◌&&◌, ◌≡◌, refl, ◌∙◌, arith, inl, inr, if◌then◌else◌,
  Bool-cases, RetentionClass, same_class, same_class_iff, ap, at, add64, max, ◌-◌, ◌≤◌,
}
use programmable_retention_t.Prelude.Exceptions.{returned, Ensures, Ensures->>=, Ensures-if}
use programmable_retention_t.RetentionModel.{Platform, line_bytes}
use programmable_retention_t.EvidenceModel.Types.{EvidenceMemory, EvidenceFailure}
use programmable_retention_t.EvidenceModel.Capacity.{can_fit}
use programmable_retention_t.EvidenceModel.Migration.{migrate}
use programmable_retention_t.EvidenceModel.Accounting.{IsAccounted}
use programmable_retention_t.EvidenceModel.Transfers.{migrate-Accounts}
use programmable_retention_t.Workload.Counters.{
  Allocation, ReplayStatistics, mul64, with_class, record_failure, add_live_bytes,
  remove_live_bytes,
}
use programmable_retention_t.Workload.Placement.{
  Moved, migrate_lines, finish_move, migrate_allocation,
}

-- What an allocation adds to the live bytes of a class, by its own record of its class.
abbrev pub live_weight : RetentionClass → Allocation → ℕ
live_weight c allocation =
    if allocation.resident && same_class allocation.retention_class c then allocation.size else 0

abbrev pub live : ReplayStatistics → RetentionClass → ℕ
live replay c = (at c replay.classes).live_bytes

-- The live bytes beside those of `rest` are those of one allocation that is recorded as resident.
pub record IsHeld {D G : Type 0} (rest : RetentionClass → ℕ) (moved : Moved D G) : Type 0 where
  pub accounted : IsAccounted moved.memory
  pub resident : moved.allocation.resident ≡ true
  pub balance : (c : RetentionClass) → live moved.replay c ≡ live_weight c moved.allocation + rest c

pub record_failure-live :
    (replay : ReplayStatistics) (f : EvidenceFailure) (maintenance migration : Bool)
    (c : RetentionClass)
    → live (record_failure replay f maintenance migration) c ≡ live replay c
unfolding record_failure
record_failure-live replay f maintenance migration c = refl

-- What is there can be taken away: the underflow exception is not thrown.
pub remove_live_bytes_enough :
    (replay : ReplayStatistics) (c : RetentionClass) (bytes : ℕ)
    → bytes ≤ live replay c
    → remove_live_bytes replay c bytes
      ≡ returned (
          with_class replay c (record (at c replay.classes) { live_bytes = live replay c - bytes }))
unfolding remove_live_bytes
remove_live_bytes_enough replay c bytes h = ground (arith, h)

live-with_class :
    (replay : ReplayStatistics) (c d : RetentionClass) (n : ℕ)
    → live (with_class replay c (record (at c replay.classes) { live_bytes = n })) d
      ≡ (if same_class c d then n else live replay d)
live-with_class replay c d n = ground arith

-- The balance of an allocation that leaves its class for another one.
lowered_balance :
    (replay : ReplayStatistics) (allocation : Allocation) (destination c : RetentionClass)
    (rest : ℕ)
    → allocation.resident ≡ true
    → same_class allocation.retention_class destination ≡ false
    → allocation.size ≤ live replay allocation.retention_class
    → live replay c ≡ live_weight c allocation + rest
    → (if same_class destination c then allocation.size else 0)
        + live
            (with_class replay allocation.retention_class
              (record (at allocation.retention_class replay.classes) {
                live_bytes = live replay allocation.retention_class - allocation.size;
              }))
            c
      ≡ live_weight c (record allocation { retention_class = destination }) + rest
lowered_balance replay allocation destination c rest resident apart own balance =
    elim (Bool-cases (same_class allocation.retention_class c)) [
      | inl here ↦
          ground (arith, ap (live replay) ((same_class_iff allocation.retention_class c).0 here))
      | inr away ↦ ground arith
    ]

pub add_live_bytes-Adds :
    (replay : ReplayStatistics) (c : RetentionClass) (bytes : ℕ)
    → Ensures (add_live_bytes replay c bytes) (λ raised.
      (d : RetentionClass) → live raised d ≡ (if same_class c d then bytes else 0) + live replay d)
unfolding add_live_bytes
add_live_bytes-Adds replay c bytes = ground arith

module _ {D G : Type 0} ⦃p : Platform D G⦄ (rest : RetentionClass → ℕ) where
  migrate_lines-IsHeld :
      (left line : ℕ) (m : EvidenceMemory D G) (allocation : Allocation)
      (destination : RetentionClass) (completion : ℕ) (replay : ReplayStatistics)
      (maintenance : Bool)
      → IsHeld rest (record {
        memory = m;
        allocation = allocation;
        completion = completion;
        replay = replay;
        success = true;
      })
      → Ensures
          (migrate_lines left line m allocation destination completion replay maintenance)
          (λ moved. IsHeld rest moved × (moved.allocation ≡ allocation))
  unfolding migrate_lines
  migrate_lines-IsHeld zero line m allocation destination completion replay maintenance held =
      (held, refl)
  migrate_lines-IsHeld (suc left) line m allocation destination completion replay maintenance held =
      Ensures->>= (migrate m (add64 allocation.base (mul64 line line_bytes)) destination completion)
        _ _ _
        (migrate-Accounts m (add64 allocation.base (mul64 line line_bytes)) destination completion
          held.accounted)
        λ r v. elim (Bool-cases r.1.success) [
          | inl done ↦ rw done (
              migrate_lines-IsHeld left (line + 1) r.0 allocation destination
                (max completion r.1.completion_cycle) replay maintenance
                (record { accounted = v; resident = held.resident; balance = held.balance }))
          | inr failed ↦
              rw failed
                (record { accounted = v; resident = held.resident; balance = held.balance }, refl)
        ]

  finish_move-IsHeld :
      (destination : RetentionClass) (moved : Moved D G)
      → IsHeld rest moved
      → same_class moved.allocation.retention_class destination ≡ false
      → Ensures (finish_move destination moved) (IsHeld rest)
  unfolding finish_move
  finish_move-IsHeld destination moved held apart =
      let own : moved.allocation.size ≤ live moved.replay moved.allocation.retention_class =
        ground (arith, held.balance moved.allocation.retention_class, held.resident) in
      rw
        (remove_live_bytes_enough moved.replay moved.allocation.retention_class
          moved.allocation.size own)
        (Ensures->>= (add_live_bytes _ destination moved.allocation.size) _ _ _
          (add_live_bytes-Adds _ destination moved.allocation.size)
          λ raised added. record {
            accounted = held.accounted;
            resident = held.resident;
            balance = λ c.
                added c
                ∙ lowered_balance moved.replay moved.allocation destination c (rest c) held.resident
                    apart own (held.balance c);
          })

  pub migrate_allocation-IsHeld :
      (m : EvidenceMemory D G) (allocation : Allocation) (destination : RetentionClass)
      (issue_cycle : ℕ) (replay : ReplayStatistics) (maintenance : Bool)
      → IsHeld rest (record {
        memory = m;
        allocation = allocation;
        completion = issue_cycle;
        replay = replay;
        success = true;
      })
      → Ensures
          (migrate_allocation m allocation destination issue_cycle replay maintenance)
          (IsHeld rest)
  unfolding migrate_allocation
  migrate_allocation-IsHeld m allocation destination issue_cycle replay maintenance held =
      elim (Bool-cases (same_class allocation.retention_class destination)) [
        | inl same ↦ rw same held
        | inr apart ↦ rw apart (
            Ensures-if (not (can_fit m destination allocation.line_count)) _ _ _
              (record {
                accounted = held.accounted;
                resident = held.resident;
                balance = λ c. ground (arith, held.balance c);
              })
              (Ensures->>=
                (migrate_lines allocation.line_count 0 m allocation destination issue_cycle replay
                  maintenance)
                _ _ _
                (migrate_lines-IsHeld allocation.line_count 0 m allocation destination issue_cycle
                  replay maintenance held)
                λ moved (after, same).
                  Ensures-if moved.success _ _ _
                    (finish_move-IsHeld destination moved after (
                      ap (λ (a : Allocation). same_class a.retention_class destination) same
                      ∙ apart))
                    after))
      ]
