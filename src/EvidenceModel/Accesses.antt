-- ===== src/EvidenceModel/Accesses.antt =====
-- The accesses of `EvidenceMemory` keep the capacity accounts.
use programmable_retention_t.Prelude.{
  ℕ, ◌+◌, Bool, not, some, ◌≡◌, refl, ◌∙◌, ap, arith, inl, inr, if◌then◌else◌, Option-cases, lookup,
  insert, lookup-insert, insert-IsUnique, total-insert_present, RetentionClass, same_class, at,
}
use programmable_retention_t.Prelude.Exceptions.{
  Attempt, ◌>>=◌, checked_add, Ensures, Ensures->>=, Ensures-if,
}
use programmable_retention_t.RetentionModel.{Platform, BankConfig}
use programmable_retention_t.EvidenceModel.Types.{EvidenceMemory, Line, EvidenceOperation}
use programmable_retention_t.EvidenceModel.Schedule.{schedule, retention_failed}
use programmable_retention_t.EvidenceModel.Memory.{begin_access}
use programmable_retention_t.EvidenceModel.Accounting.{
  class_weight, used, IsAccounted, SameUsage, SameUsage-IsAccounted, schedule-SameUsage,
  checked_add_returns,
}
use programmable_retention_t.EvidenceModel.Memory.{
  read_line, read, write_line, write, refresh_line, refresh, account_control,
}
use programmable_retention_t.EvidenceModel.Types.{logical_line}

module _ {D G : Type 0} where
  -- A line that is updated and keeps its class.
  pub update-IsAccounted :
      (m : EvidenceMemory D G) (key : ℕ) (old new : Line)
      → IsAccounted m
      → lookup key m.lines ≡ some old
      → new.retention_class ≡ old.retention_class
      → IsAccounted (record m { lines = insert key new m.lines })
  update-IsAccounted m key old new v found same = record {
    unique = insert-IsUnique key new m.lines v.unique;
    counted = λ c.
        let totals = total-insert_present (class_weight c) key new old m.lines found in
        let weights : class_weight c new ≡ class_weight c old =
          ap (λ (x : RetentionClass). if same_class x c then 1 else 0) same in
        v.counted c ∙ omega (arith, totals, weights);
    fits = v.fits;
    channels = v.channels;
    word = v.word;
  }

  -- The accounts look at the profile, the banks and the lines alone.
  pub recount :
      (m n : EvidenceMemory D G)
      → IsAccounted m
      → n.profile ≡ m.profile
      → n.banks ≡ m.banks
      → n.lines ≡ m.lines
      → IsAccounted n
  recount m n v a b c =
      SameUsage-IsAccounted m n
        (record { profile = a; lines = c; usage = λ d. rw b refl; channels = λ d. rw b refl }) v

module _ {D G : Type 0} ⦃p : Platform D G⦄ where
  retention_failed_class :
      (m : EvidenceMemory D G) (line : Line) (config : BankConfig D) (observed : ℕ)
      → Ensures
          (retention_failed m line config observed)
          (λ r. r.1.retention_class ≡ line.retention_class)
  unfolding retention_failed
  retention_failed_class m line config observed = ground arith

  -- What the accounts know after the scheduled part of an access.
  pub record Begun (m : EvidenceMemory D G) (key : ℕ) (line : Line) (n : EvidenceMemory D G)
      (checked : Line) : Type 0 where
    pub accounted : IsAccounted n
    pub found : lookup key n.lines ≡ some checked
    pub same : checked.retention_class ≡ line.retention_class
    pub profile : n.profile ≡ m.profile
    pub usage : (c : RetentionClass) → used n c ≡ used m c

  pub begin_access-Begun :
      (m : EvidenceMemory D G) (key : ℕ) (line : Line) (issue latency : ℕ)
      → IsAccounted m
      → lookup key m.lines ≡ some line
      → Ensures (begin_access m key line issue latency) (λ r. Begun m key line r.0 r.1)
  unfolding begin_access
  begin_access-Begun m key line issue latency v found =
      Ensures->>= (schedule m line.retention_class issue latency) _ (λ r. SameUsage m r.0) _
        (schedule-SameUsage m line.retention_class issue latency v)
        (λ r s.
          Ensures->>=
            (retention_failed r.0 line (at line.retention_class m.profile.banks) r.1.start) _
            (λ q. q.1.retention_class ≡ line.retention_class) _
            (retention_failed_class r.0 line (at line.retention_class m.profile.banks) r.1.start)
            (λ q same.
              let updated =
                update-IsAccounted r.0 key line q.1 (SameUsage-IsAccounted m r.0 s v)
                  (rw s.lines found) same in
              record {
                accounted = record {
                  unique = updated.unique;
                  counted = updated.counted;
                  fits = updated.fits;
                  channels = updated.channels;
                  word = updated.word;
                };
                found = ground (arith, lookup-insert key key q.1 r.0.lines);
                same = same;
                profile = s.profile;
                usage = s.usage;
              }))

  -- The memory after an operation keeps the accounts; the operation may throw, but is never undefined.
  abbrev pub Accounts : Attempt (EvidenceMemory D G × EvidenceOperation) → Type 0
  Accounts r = Ensures r (λ s. IsAccounted s.0)

  -- An access whose continuation keeps the accounts on both outcomes of the check.
  pub begin_access-Accounts :
      (m : EvidenceMemory D G) (key : ℕ) (line : Line) (issue latency : ℕ)
      (f : EvidenceMemory D G × Line × Bool × ℕ × ℕ
        → Attempt (EvidenceMemory D G × EvidenceOperation))
      → IsAccounted m
      → lookup key m.lines ≡ some line
      → ((r : EvidenceMemory D G × Line × Bool × ℕ × ℕ) → Begun m key line r.0 r.1 → Accounts (f r))
      → Accounts (begin_access m key line issue latency >>= f)
  begin_access-Accounts m key line issue latency f v found k =
      Ensures->>= (begin_access m key line issue latency) f (λ r. Begun m key line r.0 r.1)
        (λ s. IsAccounted s.0) (begin_access-Begun m key line issue latency v found) k

  read_line-Accounts :
      (m : EvidenceMemory D G) (key : ℕ) (line : Line) (issue : ℕ)
      → IsAccounted m
      → lookup key m.lines ≡ some line
      → Accounts (read_line m key line issue)
  unfolding read_line account_control
  read_line-Accounts m key line issue v found =
      Ensures-if (not line.initialized) _ _ _ (recount m _ v refl refl refl) (
        begin_access-Accounts m key line issue _ _ v found λ r b.
          Ensures-if r.2 _ _ _ (recount r.0 _ b.accounted refl refl refl)
            (recount r.0 _ b.accounted refl refl refl))

  pub read-Accounts :
      (m : EvidenceMemory D G) (byte_address issue : ℕ)
      → IsAccounted m
      → Accounts (read m byte_address issue)
  unfolding read
  read-Accounts m byte_address issue v =
      elim (Option-cases (lookup (logical_line byte_address) m.lines)) [
        | inl e ↦ rw (e, read) (recount m _ v refl refl refl)
        | inr (line, e) ↦
            rw (e, read)
              (read_line-Accounts _ (logical_line byte_address) line issue
                (recount m _ v refl refl refl) e)
      ]

  write_line-Accounts :
      (m : EvidenceMemory D G) (key : ℕ) (line : Line) (c : RetentionClass) (issue : ℕ)
      → IsAccounted m
      → lookup key m.lines ≡ some line
      → Accounts (write_line m key line c issue)
  unfolding write_line account_control
  write_line-Accounts m key line c issue v found =
      Ensures-if (not (same_class line.retention_class c)) _ _ _ tt (
        Ensures->>= (schedule m c issue _) _ (λ r. SameUsage m r.0) _
          (schedule-SameUsage m c issue _ v)
          λ r s.
            recount _ _
              (update-IsAccounted r.0 key line _ (SameUsage-IsAccounted m r.0 s v)
                (rw s.lines found) refl)
              refl refl refl)

  pub write-Accounts :
      (m : EvidenceMemory D G) (byte_address : ℕ) (c : RetentionClass) (issue : ℕ)
      → IsAccounted m
      → Accounts (write m byte_address c issue)
  unfolding write
  write-Accounts m byte_address c issue v =
      elim (Option-cases (lookup (logical_line byte_address) m.lines)) [
        | inl e ↦ rw (e, write) (recount m _ v refl refl refl)
        | inr (line, e) ↦
            rw (e, write)
              (write_line-Accounts _ (logical_line byte_address) line c issue
                (recount m _ v refl refl refl) e)
      ]

  refresh_line-Accounts :
      (m : EvidenceMemory D G) (key : ℕ) (line : Line) (issue : ℕ)
      → IsAccounted m
      → lookup key m.lines ≡ some line
      → Accounts (refresh_line m key line issue)
  unfolding refresh_line account_control
  refresh_line-Accounts m key line issue v found = Ensures-if (not line.initialized) _ _ _ v (
      let config = at line.retention_class m.profile.banks in
      Ensures->>= (checked_add config.read_cycles config.write_cycles _) _
        (λ x. x ≡ config.read_cycles + config.write_cycles) _
        (checked_add_returns config.read_cycles config.write_cycles _)
        λ latency _. begin_access-Accounts m key line issue latency _ v found λ r b.
          Ensures-if r.2 _ _ _ (recount r.0 _ b.accounted refl refl refl) (
            recount _ _ (update-IsAccounted r.0 key r.1 _ b.accounted b.found refl) refl refl refl))

  pub refresh-Accounts :
      (m : EvidenceMemory D G) (byte_address issue : ℕ)
      → IsAccounted m
      → Accounts (refresh m byte_address issue)
  unfolding refresh
  refresh-Accounts m byte_address issue v =
      elim (Option-cases (lookup (logical_line byte_address) m.lines)) [
        | inl e ↦ rw (e, refresh) (recount m _ v refl refl refl)
        | inr (line, e) ↦
            rw (e, refresh) (refresh_line-Accounts m (logical_line byte_address) line issue v e)
      ]
