-- ===== src/RetentionModel/Histories.antt =====
-- Sequences of operations on a `RetentionMemory`, from its construction on.
use programmable_retention_t.Prelude.{
  ℕ, List, [], ◌∷◌, Option, none, some, ◌≡◌, refl, arith, lookup, RetentionClass, ephemeral, epoch,
  durable, PerClass, at, ◌>>=◌, get_elem?-replicate, length-replicate, length,
}
use programmable_retention_t.RetentionModel.Types.{
  Platform, BankConfig, ErrorMode, Line, RetentionMemory, Outcome, empty_line, make_banks,
  make_memory,
}
use programmable_retention_t.RetentionModel.Banks.{line_at}
use programmable_retention_t.RetentionModel.Memory.{
  write, read, refresh, migrate, invalidate, advance,
}
use programmable_retention_t.RetentionModel.Preservation.{
  IsValid, KeepsValid, read-IsValid, refresh-IsValid, invalidate-IsValid, advance-IsValid,
}
use programmable_retention_t.RetentionModel.Placement.{write-IsValid, migrate-IsValid}

-- The public operations that change the state.
pub data Call : Type 0 where
  writes : ℕ → RetentionClass → ℕ → Call
  reads refreshes invalidates : ℕ → Call
  migrates : ℕ → RetentionClass → Call
  advances : ℕ → Call

module _ {D : Type 0} (configs : PerClass (BankConfig D)) where
  make_banks-sized :
      (c : RetentionClass)
      → length (at c (make_banks configs)).lines ≡ (at c (make_banks configs)).config.capacity_lines
  unfolding make_banks
  make_banks-sized ephemeral = length-replicate configs.of_ephemeral.capacity_lines empty_line
  make_banks-sized epoch = length-replicate configs.of_epoch.capacity_lines empty_line
  make_banks-sized durable = length-replicate configs.of_durable.capacity_lines empty_line

  make_banks-empty :
      (slot : ℕ) (c : RetentionClass) (line : Line)
      → line_at (make_banks configs) (record { retention_class = c; slot = slot }) ≡ some line
      → line ≡ empty_line
  unfolding make_banks line_at
  make_banks-empty slot ephemeral line h =
      get_elem?-replicate configs.of_ephemeral.capacity_lines slot empty_line h
  make_banks-empty slot epoch line h =
      get_elem?-replicate configs.of_epoch.capacity_lines slot empty_line h
  make_banks-empty slot durable line h =
      get_elem?-replicate configs.of_durable.capacity_lines slot empty_line h

module _ {D G : Type 0} ⦃p : Platform D G⦄ where
  abbrev state_of : Option (RetentionMemory D G × Outcome) → Option (RetentionMemory D G)
  state_of r = r >>= λ s. some s.0

  -- The memory after a call; `none` if it throws.
  unfoldable pub step : RetentionMemory D G → Call → Option (RetentionMemory D G)
  step m (writes a c value) = state_of (write m a c value)
  step m (reads a) = state_of (read m a)
  step m (refreshes a) = state_of (refresh m a)
  step m (migrates a c) = state_of (migrate m a c)
  step m (invalidates a) = state_of (invalidate m a)
  step m (advances cycles) = some (advance m cycles)

  unfoldable pub run : RetentionMemory D G → List Call → Option (RetentionMemory D G)
  unfolding step
  run m [] = some m
  run m (c ∷ cs) = step m c >>= λ m'. run m' cs

  abbrev ValidAfter : Option (RetentionMemory D G) → Type 0
  ValidAfter none = ⊥
  ValidAfter (some m) = IsValid m

  state_of-ValidAfter :
      (r : Option (RetentionMemory D G × Outcome)) → KeepsValid r → ValidAfter (state_of r)
  state_of-ValidAfter none h = h
  state_of-ValidAfter (some (m, o)) h = h

  step-ValidAfter : (m : RetentionMemory D G) (c : Call) → IsValid m → ValidAfter (step m c)
  unfolding step
  step-ValidAfter m (writes a c value) v = state_of-ValidAfter _ (write-IsValid m v a c value)
  step-ValidAfter m (reads a) v = state_of-ValidAfter _ (read-IsValid m a v)
  step-ValidAfter m (refreshes a) v = state_of-ValidAfter _ (refresh-IsValid m a v)
  step-ValidAfter m (migrates a c) v = state_of-ValidAfter _ (migrate-IsValid m v a c)
  step-ValidAfter m (invalidates a) v = state_of-ValidAfter _ (invalidate-IsValid m a v)
  step-ValidAfter m (advances cycles) v = advance-IsValid m cycles v

  run-ValidAfter : (m : RetentionMemory D G) (cs : List Call) → IsValid m → ValidAfter (run m cs)
  unfolding run
  run-ValidAfter m [] v = v
  run-ValidAfter m (c ∷ cs) v =
      continue (λ m'. run-ValidAfter m' cs) (step m c) (step-ValidAfter m c v)
    where
      continue :
          ((m' : RetentionMemory D G) → IsValid m' → ValidAfter (run m' cs))
          → (r : Option (RetentionMemory D G)) → ValidAfter r
          → ValidAfter (r >>= λ m'. run m' cs)
      continue rest none h = h
      continue rest (some m') h = rest m' h

  pub make_memory-IsValid :
      (configs : PerClass (BankConfig D)) (mode : ErrorMode) (seed : ℕ)
      → IsValid (make_memory p configs mode seed)
  unfolding make_memory lookup
  make_memory-IsValid configs mode seed = record {
    consistent = record {
      sized = make_banks-sized configs;
      indexed = λ a l h. ground arith;
      listed = λ l line h valid.
          absurd (ground (arith, make_banks-empty configs l.slot l.retention_class line h));
    };
    clock = omega arith;
  }

  -- Whatever the configuration, the error mode and the calls, no call throws, and afterwards the
  -- directory and the valid lines of the banks still describe one another slot by slot, with every
  -- bank at its configured size.
  pub run-make_memory-IsValid :
      (configs : PerClass (BankConfig D)) (mode : ErrorMode) (seed : ℕ) (cs : List Call)
      → (m : RetentionMemory D G) × (run (make_memory p configs mode seed) cs ≡ some m) × IsValid m
  run-make_memory-IsValid configs mode seed cs =
      finish (run (make_memory p configs mode seed) cs)
        (run-ValidAfter _ cs (make_memory-IsValid configs mode seed))
    where
      finish :
          (r : Option (RetentionMemory D G))
          → ValidAfter r
          → (m : RetentionMemory D G) × (r ≡ some m) × IsValid m
      finish none h = absurd h
      finish (some m) h = (m, refl, h)
