-- ===== src/RetentionModel/Deadlines.antt =====
-- The retention deadline of `RetentionMemory` in the deterministic error mode.
use programmable_retention_t.Prelude.{
  ℕ, ◌<◌, Bool, true, false, not, ◌&&◌, some, ◌≡◌, refl, ◌∙◌, arith, inl, inr, Option-cases,
  Bool-cases, add64, sub64, sub64-add64, leb, infinite, lookup, RetentionClass, at, if◌then◌else◌,
  ◌==◌, u64_mod, subst,
}
use programmable_retention_t.RetentionModel.Types.{
  Platform, BankConfig, deterministic, Line, Location, RetentionMemory, Outcome, fresh_line,
  logical_line,
}
use programmable_retention_t.RetentionModel.Banks.{
  line_at, expire, retention_failed, done, missing_result,
}
use programmable_retention_t.RetentionModel.Memory.{
  target_slot, write_slot, write, read_located, read, advance,
}
use programmable_retention_t.RetentionModel.Slots.{release-some, line_at-store_line_self}
use programmable_retention_t.RetentionModel.Preservation.{
  IsValid, Returns, KeepsValid, observed, observe-some, retention_failed_keeps, advance-IsValid,
}
use programmable_retention_t.RetentionModel.Placement.{write-IsValid}
use programmable_retention_t.RetentionModel.Contents.{content, stored}
use programmable_retention_t.RetentionModel.Writes.{Stores, write-Stores}

-- The deadline has passed at `age` cycles after the write.
abbrev pub missed : {D : Type 0} → BankConfig D → ℕ → Bool
missed config age = not (config.retention_cycles == infinite) && leb config.retention_cycles age

abbrev pub read_outcome : {D : Type 0} → BankConfig D → ℕ → ℕ → Outcome
read_outcome config age value =
    if missed config age
    then missing_result "retention deadline exceeded" true
    else done value config.read_cycles "read hit"

module _ {D G : Type 0} ⦃p : Platform D G⦄ (m : RetentionMemory D G) (v : IsValid m) where
  -- A stored line, traced back to its slot.
  stored_slot :
      (a : ℕ) (c : RetentionClass) (line : Line)
      → stored m a ≡ some (c, line)
      → (l : Location) × (lookup a m.directory ≡ some l)
        × (line_at m.banks l ≡ some line)
        × (l.retention_class ≡ c)
        × (line.valid ≡ true)
  unfolding stored content
  stored_slot a c line h = elim (Option-cases (lookup a m.directory)) [
    | inl missing ↦ absurd (ground arith)
    | inr (l, found) ↦
        let (line', held, valid, logical) = v.consistent.indexed a l found in
        (l, found, ground arith, ground arith, ground arith)
  ]

  retention_failed_deterministic :
      (line : Line) (config : BankConfig D)
      → m.error_mode ≡ deterministic
      → line.valid ≡ true
      → line.retention_failed ≡ false
      → (retention_failed m line config).0 ≡ missed config (sub64 m.now line.last_write_cycle)
  unfolding retention_failed
  retention_failed_deterministic line config mode valid fine = ground arith

  read_located-outcome :
      (a : ℕ) (l : Location) (line : Line)
      → line_at m.banks l ≡ some line
      → m.error_mode ≡ deterministic
      → line.valid ≡ true
      → line.retention_failed ≡ false
      → Returns (read_located m a l) (λ _ o.
        o
        ≡ read_outcome
            (at l.retention_class m.banks).config
            (sub64 m.now line.last_write_cycle)
            line.value)
  unfolding read_located expire
  read_located-outcome a l line found mode valid fine =
      let config = (at l.retention_class m.banks).config in
      let age = sub64 m.now line.last_write_cycle in
      let test = retention_failed_deterministic line config mode valid fine in
      let keeps = retention_failed_keeps m line config in
      rw (observe-some m l line found) (elim (Bool-cases (missed config age)) [
        | inl late ↦
            rw
              (
                test ∙ late,
                late,
                release-some (observed m l line).banks l
                    (line_at-store_line_self m.banks l (retention_failed m line config).1 found),
              )
              refl
        | inr safe ↦ rw (test ∙ safe, safe, keeps.2) refl
      ])

module _ {D G : Type 0} ⦃p : Platform D G⦄ (m : RetentionMemory D G) (v : IsValid m) where
  -- In a valid memory with deterministic errors, `read` returns for every stored line that is not
  -- marked as failed: a hit with the stored value if the class is unlimited or the age of the line
  -- is below its retention, and otherwise the deadline error.
  pub read-stored :
      (byte_address : ℕ) (c : RetentionClass) (line : Line)
      → m.error_mode ≡ deterministic
      → stored m (logical_line byte_address) ≡ some (c, line)
      → line.retention_failed ≡ false
      → Returns (read m byte_address) (λ _ o.
        o ≡ read_outcome (at c m.banks).config (sub64 m.now line.last_write_cycle) line.value)
  unfolding read
  read-stored byte_address c line mode held fine =
      let (l, found, kept, same, valid) = stored_slot m v (logical_line byte_address) c line held in
      rw (found, ← same, read)
        (read_located-outcome
          (record m { stats = record m.stats { reads = add64 m.stats.reads 1 } })
          (record { consistent = v.consistent; clock = v.clock }) (logical_line byte_address) l line
          kept mode valid fine)

module _ {D G : Type 0} ⦃p : Platform D G⦄ where
  write_slot-error_mode :
      (m m' : RetentionMemory D G) (a slot : ℕ) (c : RetentionClass) (value : ℕ) (o : Outcome)
      → write_slot m a c value slot ≡ some (m', o)
      → m'.error_mode ≡ m.error_mode
  unfolding write_slot
  write_slot-error_mode m m' a slot c value o h = ground arith

  write-error_mode :
      (m m' : RetentionMemory D G) (byte_address : ℕ) (c : RetentionClass) (value : ℕ) (o : Outcome)
      → write m byte_address c value ≡ some (m', o)
      → m'.error_mode ≡ m.error_mode
  unfolding write
  write-error_mode m m' byte_address c value o h =
      elim (Option-cases (target_slot m (lookup (logical_line byte_address) m.directory) c)) [
        | inl none_free ↦ ground arith
        | inr (slot, chosen) ↦
            write_slot-error_mode m m' (logical_line byte_address) slot c value o
              (rw (chosen, write) at h)
      ]

  write_value :
      (m m' : RetentionMemory D G) (byte_address : ℕ) (c : RetentionClass) (value : ℕ) (o : Outcome)
      → IsValid m
      → write m byte_address c value ≡ some (m', o)
      → o.success ≡ true
      → stored m' (logical_line byte_address)
        ≡ some (c, fresh_line (logical_line byte_address) value m'.now)
  write_value m m' byte_address c value o v h ok =
      let spec : Stores m v (logical_line byte_address) c value m' o =
        subst (λ r. Returns r (Stores m v (logical_line byte_address) c value)) h
          (write-Stores m v byte_address c value) in
      let here = spec (logical_line byte_address) in ground arith

  -- With deterministic errors, a value that was written is read back `cycles` later (up to the range
  -- of the counter, which may wrap in between) if the class is unlimited or `cycles` is below its
  -- retention; otherwise the read reports the missed deadline. The read returns in both cases.
  pub read-advance-write :
      (m m' : RetentionMemory D G) (byte_address : ℕ) (c : RetentionClass) (value cycles : ℕ)
      (o : Outcome)
      → IsValid m
      → m.error_mode ≡ deterministic
      → write m byte_address c value ≡ some (m', o)
      → o.success ≡ true
      → cycles < u64_mod
      → Returns
          (read (advance m' cycles) byte_address)
          (λ _ out. out ≡ read_outcome (at c m'.banks).config cycles value)
  unfolding advance stored
  read-advance-write m m' byte_address c value cycles o v mode h ok small =
      let v' : IsValid m' = subst KeepsValid h (write-IsValid m v byte_address c value) in
      subst
        (λ age.
          Returns (read (advance m' cycles) byte_address)
            (λ _ out. out ≡ read_outcome (at c m'.banks).config age value))
        (sub64-add64 m'.now cycles v'.clock small)
        (read-stored (advance m' cycles) (advance-IsValid m' cycles v') byte_address c
          (fresh_line (logical_line byte_address) value m'.now)
          (write-error_mode m m' byte_address c value o h ∙ mode)
          (write_value m m' byte_address c value o v h ok) refl)
