-- ===== src/EvidenceModel/Transfers.antt =====
-- `migrate` keeps the capacity accounts.
use programmable_retention_t.Prelude.{
  ℕ, ◌+◌, ◌≤◌, true, false, not, some, ◌≡◌, refl, sym, ◌∙◌, ◌≢◌, arith, inl, inr, if◌then◌else◌,
  Option-cases, Bool-cases, add64, sub64, lookup, insert, subst, insert-IsUnique,
  total-insert_present, RetentionClass, same_class, same_class_iff, at,
}
use programmable_retention_t.Prelude.Exceptions.{checked_add, Ensures->>=, Ensures-if}
use programmable_retention_t.RetentionModel.{Platform}
use programmable_retention_t.EvidenceModel.Types.{EvidenceMemory, Line}
use programmable_retention_t.EvidenceModel.Schedule.{schedule}
use programmable_retention_t.EvidenceModel.Capacity.{can_fit, transfer_used}
use programmable_retention_t.EvidenceModel.Accounting.{
  class_weight, class_lines, used, capacity_of, has_channel, IsAccounted, SameUsage,
  SameUsage-IsAccounted, schedule-SameUsage, checked_add_returns,
}
use programmable_retention_t.EvidenceModel.Memory.{account_control}
use programmable_retention_t.EvidenceModel.Types.{logical_line, rewritten}
use programmable_retention_t.EvidenceModel.Migration.{
  migrate_initialized, migrate_reserved, migrate,
}
use programmable_retention_t.EvidenceModel.Accesses.{
  Accounts, recount, begin_access-Accounts, refresh-Accounts,
}

class_weight_lem :
    (c : RetentionClass) (line : Line)
    → class_weight c line ≡ (if same_class c line.retention_class then 1 else 0)
class_weight_lem c line = ground arith

module _ {D G : Type 0} where
  transfer_used-usage :
      (m : EvidenceMemory D G) (s d c : RetentionClass)
      → s ≢ d
      → (at c (transfer_used m s d)).used_lines ≡ (
          if same_class c d
          then add64 (used m d) 1
          else (if same_class c s then sub64 (used m s) 1 else used m c))
  transfer_used-usage m s d c h = ground arith

  transfer_used-channels :
      (m : EvidenceMemory D G) (s d c : RetentionClass)
      → has_channel (at c (transfer_used m s d)) ≡ has_channel (at c m.banks)
  transfer_used-channels m s d c = ground arith

  -- A line that changes its class takes its place in the accounts along.
  module _ (m : EvidenceMemory D G) (key : ℕ) (old new : Line) (v : IsAccounted m)
      (found : lookup key m.lines ≡ some old) (apart : old.retention_class ≢ new.retention_class)
      (fits : can_fit m new.retention_class 1 ≡ true) where
    -- The count of each class before and after.
    recounted :
        (c : RetentionClass)
        → class_lines c (insert key new m.lines) + class_weight c old
          ≡ class_weight c new + used m c
    recounted c = rw (v.counted c) (total-insert_present (class_weight c) key new old m.lines found)

    moved_usage :
        (c : RetentionClass)
        → (at c (transfer_used m old.retention_class new.retention_class)).used_lines
            + class_weight c old
          ≡ class_weight c new + used m c
    unfolding add64 sub64 can_fit
    moved_usage c =
        let step = transfer_used-usage m old.retention_class new.retention_class c apart in
        let total = recounted c in ground (arith, v.fits c, v.word c)

    moved_fits :
        (c : RetentionClass)
        → (at c (transfer_used m old.retention_class new.retention_class)).used_lines
          ≤ capacity_of m c
    unfolding can_fit
    moved_fits c = elim (Bool-cases (same_class new.retention_class c)) [
      | inl here ↦
          let room : used m c + 1 ≤ capacity_of m c =
            subst (λ d. used m d + 1 ≤ capacity_of m d)
              ((same_class_iff new.retention_class c).0 here) (ground arith) in
          let total = moved_usage c in ground arith
      | inr away ↦ let total = moved_usage c in ground (arith, v.fits c)
    ]

    pub transfer-IsAccounted : IsAccounted (record m {
      banks = transfer_used m old.retention_class new.retention_class;
      lines = insert key new m.lines;
    })
    unfolding can_fit
    transfer-IsAccounted = record {
      unique = insert-IsUnique key new m.lines v.unique;
      counted = λ c. omega (arith, recounted c, moved_usage c);
      fits = moved_fits;
      channels =
          λ c. transfer_used-channels m old.retention_class new.retention_class c ∙ v.channels c;
      word = v.word;
    }

module _ {D G : Type 0} ⦃p : Platform D G⦄ where
  can_fit_same :
      (m n : EvidenceMemory D G) (c : RetentionClass) (k : ℕ)
      → used n c ≡ used m c
      → n.profile ≡ m.profile
      → can_fit n c k ≡ can_fit m c k
  unfolding can_fit
  can_fit_same m n c k u e = rw (u, e) refl

  migrate_initialized-Accounts :
      (m : EvidenceMemory D G) (key : ℕ) (line : Line) (destination : RetentionClass) (issue : ℕ)
      → IsAccounted m
      → lookup key m.lines ≡ some line
      → line.retention_class ≢ destination
      → can_fit m destination 1 ≡ true
      → Accounts (migrate_initialized m key line destination issue)
  unfolding migrate_initialized account_control
  migrate_initialized-Accounts m key line destination issue v found apart room =
      begin_access-Accounts m key line issue (at line.retention_class m.profile.banks).read_cycles _
        v found
        λ r b. Ensures-if r.2 _ _ _ (recount r.0 _ b.accounted refl refl refl) (
          Ensures->>= (checked_add r.4 m.profile.migration_setup_cycles _) _
            (λ x. x ≡ r.4 + m.profile.migration_setup_cycles) _
            (checked_add_returns r.4 m.profile.migration_setup_cycles _)
            λ at_destination _.
              Ensures->>=
                (schedule r.0 destination at_destination
                  (at destination m.profile.banks).write_cycles)
                _ (λ q. SameUsage r.0 q.0) _
                (schedule-SameUsage r.0 destination at_destination _ b.accounted)
                λ q s.
                  let room' : can_fit q.0 destination 1 ≡ true =
                    can_fit_same m q.0 destination 1 (s.usage destination ∙ b.usage destination)
                      (s.profile ∙ b.profile)
                    ∙ room in
                  let moved =
                    transfer-IsAccounted q.0 key r.1 (rewritten r.1 destination q.1.completion)
                      (SameUsage-IsAccounted r.0 q.0 s b.accounted) (rw s.lines b.found)
                      (λ e. apart (sym b.same ∙ e)) room' in
                  recount
                    (record q.0 {
                      banks = transfer_used q.0 line.retention_class destination;
                      lines = insert key (rewritten r.1 destination q.1.completion) q.0.lines;
                    })
                    _
                    (subst
                      (λ c. IsAccounted (record q.0 {
                        banks = transfer_used q.0 c destination;
                        lines = insert key (rewritten r.1 destination q.1.completion) q.0.lines;
                      }))
                      b.same moved)
                    refl refl refl)

  migrate_reserved-IsAccounted :
      (m : EvidenceMemory D G) (key : ℕ) (line : Line) (destination : RetentionClass) (issue : ℕ)
      → IsAccounted m
      → lookup key m.lines ≡ some line
      → line.retention_class ≢ destination
      → can_fit m destination 1 ≡ true
      → IsAccounted (migrate_reserved m key line destination issue).0
  unfolding migrate_reserved
  migrate_reserved-IsAccounted m key line destination issue v found apart room =
      recount _ _
        (transfer-IsAccounted m key line
          (record line { retention_class = destination; failed = false }) v found apart room)
        refl refl refl

  pub migrate-Accounts :
      (m : EvidenceMemory D G) (byte_address : ℕ) (destination : RetentionClass) (issue : ℕ)
      → IsAccounted m
      → Accounts (migrate m byte_address destination issue)
  unfolding migrate
  migrate-Accounts m byte_address destination issue v =
      elim (Option-cases (lookup (logical_line byte_address) m.lines)) [
        | inl e ↦ rw (e, migrate) (recount m _ v refl refl refl)
        | inr (line, e) ↦
            rw (e, migrate)
              (elim (Bool-cases (same_class line.retention_class destination)) [
                | inl same ↦ rw same (refresh-Accounts m byte_address issue v)
                | inr other ↦ rw other (elim (Bool-cases (can_fit m destination 1)) [
                  | inr crowded ↦ rw crowded (recount m _ v refl refl refl)
                  | inl room ↦ rw room (
                      Ensures-if (not line.initialized) _ _ _
                        (migrate_reserved-IsAccounted m (logical_line byte_address) line destination
                          issue v e (λ q. ground arith) room)
                        (migrate_initialized-Accounts m (logical_line byte_address) line destination
                          issue v e (λ q. ground arith) room))
                ])
              ])
      ]
