-- ===== src/EvidenceModel/Histories.antt =====
-- Sequences of calls on an `EvidenceMemory`, from its construction on.
use programmable_retention_t.Prelude.{
  ℕ, suc, ◌≤◌, ◌<◌, true, List, [], ◌∷◌, ◌≡◌, refl, arith, replicate, total, RetentionClass,
  ephemeral, epoch, durable, at, u64_mod, zero,
}
use programmable_retention_t.Prelude.Exceptions.{Attempt, returned, ◌>>=◌, Ensures, Ensures->>=}
use programmable_retention_t.RetentionModel.{Platform, ErrorMode}
use programmable_retention_t.EvidenceModel.Types.{
  EvidenceMemory, EvidenceOperation, DeviceProfile, make_evidence,
}
use programmable_retention_t.EvidenceModel.Capacity.{reserve_range, release_range}
use programmable_retention_t.EvidenceModel.Memory.{read, write, refresh}
use programmable_retention_t.EvidenceModel.Migration.{migrate}
use programmable_retention_t.EvidenceModel.Accounting.{nonempty, has_channel, IsAccounted}
use programmable_retention_t.EvidenceModel.Accesses.{
  Accounts, read-Accounts, write-Accounts, refresh-Accounts,
}
use programmable_retention_t.EvidenceModel.Transfers.{migrate-Accounts}
use programmable_retention_t.EvidenceModel.Reservations.{
  reserve_range-IsAccounted, release_range-ReleasesTo,
}

-- The public operations that change the state, with their arguments.
pub data Call : Type 0 where
  reserves : ℕ → ℕ → RetentionClass → Call
  releases : ℕ → ℕ → Call
  reads refreshes : ℕ → ℕ → Call
  writes migrates : ℕ → RetentionClass → ℕ → Call

-- A profile that the loader accepts: each class has a channel, and its capacity is a machine word.
pub record IsUsable {D : Type 0} (profile : DeviceProfile D) : Type 0 where
  pub has_channels : (c : RetentionClass) → 1 ≤ at c profile.channels
  pub word_capacity : (c : RetentionClass) → (at c profile.banks).capacity_lines < u64_mod

idle_channels : (n : ℕ) → 1 ≤ n → nonempty (replicate n 0) ≡ true
idle_channels zero h = absurd (omega arith)
idle_channels (suc n) h = refl

module _ {D G : Type 0} ⦃p : Platform D G⦄ where
  abbrev state_of {ℓ} :
      {B : Type ℓ} → Attempt (EvidenceMemory D G × B) → Attempt (EvidenceMemory D G)
  state_of r = r >>= λ s. returned s.0

  unfoldable pub step : EvidenceMemory D G → Call → Attempt (EvidenceMemory D G)
  step m (reserves a n c) = state_of (reserve_range m a n c)
  step m (releases a n) = release_range m a n
  step m (reads a issue) = state_of (read m a issue)
  step m (refreshes a issue) = state_of (refresh m a issue)
  step m (writes a c issue) = state_of (write m a c issue)
  step m (migrates a c issue) = state_of (migrate m a c issue)

  unfoldable pub run : EvidenceMemory D G → List Call → Attempt (EvidenceMemory D G)
  unfolding step
  run m [] = returned m
  run m (c ∷ cs) = step m c >>= λ m'. run m' cs

  abbrev Accounted : Attempt (EvidenceMemory D G) → Type 0
  Accounted r = Ensures r IsAccounted

  state_of-Accounted :
      (r : Attempt (EvidenceMemory D G × EvidenceOperation)) → Accounts r → Accounted (state_of r)
  state_of-Accounted r h = Ensures->>= r _ (λ s. IsAccounted s.0) IsAccounted h (λ s k. k)

  step-Accounted : (m : EvidenceMemory D G) (c : Call) → IsAccounted m → Accounted (step m c)
  unfolding step
  step-Accounted m (reserves a n c) v =
      Ensures->>= (reserve_range m a n c) _ _ IsAccounted (reserve_range-IsAccounted m a n c v)
        (λ s k. k.0)
  step-Accounted m (releases a n) v = let (m', e, w) = release_range-ReleasesTo m a n v in rw e w
  step-Accounted m (reads a issue) v =
      state_of-Accounted (read m a issue) (read-Accounts m a issue v)
  step-Accounted m (refreshes a issue) v =
      state_of-Accounted (refresh m a issue) (refresh-Accounts m a issue v)
  step-Accounted m (writes a c issue) v =
      state_of-Accounted (write m a c issue) (write-Accounts m a c issue v)
  step-Accounted m (migrates a c issue) v =
      state_of-Accounted (migrate m a c issue) (migrate-Accounts m a c issue v)

  run-Accounted : (m : EvidenceMemory D G) (cs : List Call) → IsAccounted m → Accounted (run m cs)
  unfolding run
  run-Accounted m [] v = v
  run-Accounted m (c ∷ cs) v =
      Ensures->>= (step m c) _ IsAccounted IsAccounted (step-Accounted m c v)
        (λ m' w. run-Accounted m' cs w)

  pub make_evidence-IsAccounted :
      (profile : DeviceProfile D) (mode : ErrorMode) (seed : ℕ)
      → IsUsable profile
      → IsAccounted (make_evidence p profile mode seed)
  unfolding make_evidence total
  make_evidence-IsAccounted profile mode seed usable = record {
    unique = tt;
    counted = λ c. ground arith;
    fits = λ c. ground arith;
    channels = idle;
    word = usable.word_capacity;
  }
    where
      idle :
          (c : RetentionClass) → has_channel (at c (make_evidence p profile mode seed).banks) ≡ true
      idle ephemeral = idle_channels profile.channels.of_ephemeral (usable.has_channels ephemeral)
      idle epoch = idle_channels profile.channels.of_epoch (usable.has_channels epoch)
      idle durable = idle_channels profile.channels.of_durable (usable.has_channels durable)

module _ {D : Type 0} (G : Type 0) ⦃p : Platform D G⦄ where
  -- From a usable profile, whatever calls are made, nothing undefined happens, and as long as no call
  -- throws, each class's usage counter is the number of lines reserved in that class, within its
  -- capacity, and no line is reserved twice.
  pub run-make_evidence-IsAccounted :
      (profile : DeviceProfile D) (mode : ErrorMode) (seed : ℕ) (cs : List Call)
      → IsUsable profile
      → Ensures (run (make_evidence p profile mode seed) cs) IsAccounted
  run-make_evidence-IsAccounted profile mode seed cs usable =
      run-Accounted (make_evidence p profile mode seed) cs
        (make_evidence-IsAccounted profile mode seed usable)
