-- ===== src/RetentionModel/Examples.antt =====
-- Concrete memories: the default banks of sim/retention_model.cpp with small capacities, tests of the
-- operations, and the theorems of this component at inputs that meet their hypotheses.
use programmable_retention_t.Prelude.{
  ℕ, ◌+◌, ◌*◌, ◌-◌, true, List, [], ◌∷◌, Option, none, some, ◌≡◌, refl, arith, ltb, ephemeral,
  durable, PerClass, if◌then◌else◌, ◌==◌, infinite, add64, sub64, lookup, insert,
}
use programmable_retention_t.RetentionModel.Types.{
  Platform, BankConfig, deterministic, RetentionMemory, Outcome, fresh_line, logical_line,
  make_memory,
}
use programmable_retention_t.RetentionModel.Banks.{done, missing_result}
use programmable_retention_t.RetentionModel.Memory.{write, read, invalidate, advance}
use programmable_retention_t.RetentionModel.Preservation.{IsValid, Returns}
use programmable_retention_t.RetentionModel.Histories.{
  Call, writes, reads, invalidates, migrates, advances, run, make_memory-IsValid,
  run-make_memory-IsValid,
}
use programmable_retention_t.RetentionModel.Placement.{write-IsValid}
use programmable_retention_t.RetentionModel.Contents.{stored}
use programmable_retention_t.RetentionModel.Writes.{Stores, write-Stores, invalidate-stored}
use programmable_retention_t.RetentionModel.Deadlines.{read-stored, read-advance-write}

-- Energies in tenths of a picojoule; the random engine is a counter.
instance abbrev pub counting : Platform ℕ ℕ
counting = record {
  zero_double = 0;
  one_double = 10;
  add = λ a b. a + b;
  sub = λ a b. a - b;
  mul = λ a b. a * b;
  div = λ a b. a;
  negate = λ a. a;
  exp = λ a. 9;
  of_uint64 = λ n. n;
  less = ltb;
  seeded = λ n. n;
  uniform = λ n. (n, n + 1);
}

abbrev pub small_configs : PerClass (BankConfig ℕ)
small_configs = record {
  of_ephemeral = record {
    name = "EPHEMERAL";
    capacity_lines = 2;
    retention_cycles = 128;
    read_cycles = 2;
    write_cycles = 2;
    read_energy_pj = 10;
    write_energy_pj = 20;
  };
  of_epoch = record {
    name = "EPOCH";
    capacity_lines = 2;
    retention_cycles = 4096;
    read_cycles = 3;
    write_cycles = 4;
    read_energy_pj = 14;
    write_energy_pj = 45;
  };
  of_durable = record {
    name = "DURABLE";
    capacity_lines = 1;
    retention_cycles = infinite;
    read_cycles = 4;
    write_cycles = 12;
    read_energy_pj = 20;
    write_energy_pj = 120;
  };
}

abbrev small : RetentionMemory ℕ ℕ
small = make_memory counting small_configs deterministic 1

small-IsValid : IsValid small
small-IsValid = make_memory-IsValid small_configs deterministic 1

-- The memory after a call that returned.
after : Option (RetentionMemory ℕ ℕ × Outcome) → RetentionMemory ℕ ℕ
after none = small
after (some (m, o)) = m

written : RetentionMemory ℕ ℕ
unfolding write make_memory after
written = after (write small 130 ephemeral 7)

history : List Call
history =
    writes 0 ephemeral 5
    ∷ writes 64 ephemeral 6
    ∷ writes 128 ephemeral 7
    ∷ migrates 0 durable
    ∷ advances 200
    ∷ reads 64
    ∷ reads 0
    ∷ invalidates 0
    ∷ []

write-test : write small 130 ephemeral 7 ≡ some (written, done 7 2 "write complete")
unfolding written write make_memory after done lookup
write-test = refl

run-make_memory-IsValid_example :
    (m : RetentionMemory ℕ ℕ) × (run small history ≡ some m) × IsValid m
run-make_memory-IsValid_example = run-make_memory-IsValid small_configs deterministic 1 history

write-Stores_example :
    Returns (write small 130 ephemeral 7) (Stores small small-IsValid 2 ephemeral 7)
unfolding logical_line
write-Stores_example = write-Stores small small-IsValid 130 ephemeral 7

read-advance-write_example :
    Returns
      (read (advance written 128) 130)
      (λ _ out. out ≡ missing_result "retention deadline exceeded" true)
unfolding written write make_memory after done lookup
read-advance-write_example =
    read-advance-write small written 130 ephemeral 7 128 (done 7 2 "write complete") small-IsValid
      refl write-test refl (omega arith)

written-IsValid : IsValid written
unfolding written write make_memory after done lookup
written-IsValid = write-IsValid small small-IsValid 130 ephemeral 7

read-stored_example : Returns (read written 130) (λ _ out. out ≡ done 7 2 "read hit")
unfolding written write make_memory after done lookup stored insert sub64 logical_line add64
read-stored_example =
    read-stored written written-IsValid 130 ephemeral (fresh_line 2 7 2) refl refl refl

invalidate-stored_example : Returns (invalidate written 130) (λ m' o.
    ((b : ℕ) → stored m' b ≡ (if 2 == b then none else stored written b)) × (o.success ≡ true))
unfolding written write make_memory after done lookup stored insert logical_line
invalidate-stored_example = invalidate-stored written written-IsValid 130
