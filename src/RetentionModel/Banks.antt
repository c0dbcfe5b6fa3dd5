-- ===== src/RetentionModel/Banks.antt =====
-- sim/retention_model.cpp: the slots of the banks, and the retention check. `none` is an exception that a
-- bounds-checked access (`lines.at`) throws.
use programmable_retention_t.Prelude.{
  ℕ, suc, String, Bool, true, false, ◌||◌, not, List, [], ◌∷◌, Option, none, some, ◌==◌, leb,
  if◌then◌else◌, ◌>>=◌, get_elem?, set, add64, sub64, infinite, erase, RetentionClass, PerClass, at,
  put,
}
use programmable_retention_t.RetentionModel.Types.{
  Platform, deterministic, stochastic, BankConfig, Outcome, Line, Bank, Location, RetentionMemory,
  empty_line,
}

-- The first invalid line, counted from `index`.
unfoldable pub first_free : ℕ → List Line → Option ℕ
first_free index [] = none
first_free index (line ∷ lines) = if line.valid then first_free (suc index) lines else some index

unfoldable pub missing_result : String → Bool → Outcome
missing_result message expired = record {
  success = false;
  expired = expired;
  value = 0;
  latency_cycles = 0;
  message = message;
}

unfoldable pub done : ℕ → ℕ → String → Outcome
done value latency message = record {
  success = true;
  expired = false;
  value = value;
  latency_cycles = latency;
  message = message;
}

module _ {D : Type 0} where
  -- `banks_.at(class_index(c)).lines.at(slot)`
  unfoldable pub line_at : PerClass (Bank D) → Location → Option Line
  line_at banks location = get_elem? (at location.retention_class banks).lines location.slot

  -- An assignment to that line.
  unfoldable pub store_line : PerClass (Bank D) → Location → Line → PerClass (Bank D)
  store_line banks location line =
      put location.retention_class (record bank { lines = set bank.lines location.slot line }) banks
    where
      bank : Bank D
      bank = at location.retention_class banks

  unfoldable pub allocate_slot : PerClass (Bank D) → RetentionClass → Option ℕ
  unfolding first_free
  allocate_slot banks c = first_free 0 (at c banks).lines

  unfoldable pub release : PerClass (Bank D) → Location → Option (PerClass (Bank D))
  unfolding line_at store_line
  release banks location = do
    _ ← line_at banks location
    some (store_line banks location empty_line)

module _ {D G : Type 0} ⦃p : Platform D G⦄ where
  -- The result, with the line and the random engine as the call leaves them.
  unfoldable pub retention_failed : RetentionMemory D G → Line → BankConfig D → Bool × Line × G
  retention_failed m line config =
      if not line.valid || line.retention_failed || config.retention_cycles == infinite
      then (line.retention_failed, line, m.rng)
      else elim m.error_mode [
        | deterministic ↦
            let failed = leb config.retention_cycles (sub64 m.now line.last_write_cycle) in
            (failed, record line { retention_failed = failed }, m.rng)
        | stochastic ↦
            let elapsed = sub64 m.now line.last_retention_check in
            let checked = record line { last_retention_check = m.now } in
            let probability = p.sub p.one_double (
              p.exp
                (p.div (p.negate (p.of_uint64 elapsed)) (p.of_uint64 config.retention_cycles))) in
            let (drawn, rng) = p.uniform m.rng in
            let failed = p.less drawn probability in
            if elapsed == 0
            then (false, checked, m.rng)
            else (failed, record checked { retention_failed = failed }, rng)
      ]

  -- The shared part of an operation on a line that is no longer safe: count the expiry, drop the
  -- directory entry, and release the slot.
  unfoldable pub expire :
      RetentionMemory D G → ℕ → Location → String → Option (RetentionMemory D G × Outcome)
  unfolding release missing_result
  expire m line_address location message = do
    banks ← release m.banks location
    some (
      record m {
        banks = banks;
        directory = erase line_address m.directory;
        stats = record m.stats { expirations = add64 m.stats.expirations 1 };
      },
      missing_result message true,
    )

  -- Reads the line at a location that the directory gave, and runs `retention_failed` on it in place.
  unfoldable pub observe :
      RetentionMemory D G → Location → Option (Bool × Line × RetentionMemory D G)
  unfolding line_at store_line retention_failed
  observe m location = do
    line ← line_at m.banks location
    let (failed, checked, rng) =
        retention_failed m line (at location.retention_class m.banks).config
    some (failed, checked, record m { banks = store_line m.banks location checked; rng = rng })
