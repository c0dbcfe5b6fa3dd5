-- ===== src/EvidenceModel/Schedule.antt =====
-- sim/evidence_model.cpp: the channels of a bank and the retention check.
use programmable_retention_t.Prelude.{
  ℕ, suc, ◌-◌, max, Bool, true, false, ◌||◌, not, List, [], ◌∷◌, Option, none, some, ◌==◌, ltb, leb,
  if◌then◌else◌, set, infinite, sub64, RetentionClass, at, put,
}
use programmable_retention_t.Prelude.Exceptions.{
  Attempt, returned, thrown, undefined, ◌>>=◌, checked_add,
}
use programmable_retention_t.RetentionModel.{Platform, deterministic, stochastic, BankConfig}
use programmable_retention_t.EvidenceModel.Types.{
  EvidenceFailure, EvidenceOperation, EvidenceMemory, Line, BankState, Scheduled,
}

-- `std::min_element`: the position and the value of the first least entry.
unfoldable pub min_element : List ℕ → Option (ℕ × ℕ)
min_element [] = none
min_element (x ∷ xs) = elim (min_element xs) [
  | none ↦ some (0, x)
  | some (i, y) ↦ if leb x y then some (0, x) else some (suc i, y)
]

unfoldable pub failure : EvidenceFailure → ℕ → EvidenceOperation
failure selected cycle = record {
  success = false;
  failure = selected;
  start_cycle = cycle;
  completion_cycle = cycle;
}

unfoldable pub completed : ℕ → ℕ → EvidenceOperation
completed start completion = record {
  success = true;
  failure = EvidenceFailure.no_failure;
  start_cycle = start;
  completion_cycle = completion;
}

module _ {D G : Type 0} where
  -- The bank `c` after one of its channels took an access; dereferencing the end iterator of a bank
  -- without channels is undefined.
  unfoldable pub schedule :
      EvidenceMemory D G → RetentionClass → ℕ → ℕ → Attempt (EvidenceMemory D G × Scheduled)
  unfolding min_element
  schedule m c issue_cycle latency_cycles = elim (min_element (at c m.banks).channel_ready) [
    | none ↦ undefined
    | some (selected, ready) ↦ do
      let start = max issue_cycle ready
      completion ← checked_add start latency_cycles "scheduled cycle overflow"
      delay ←
          checked_add m.stats.queue_delay_cycles (start - issue_cycle)
            "queue-delay counter overflow"
      busy ← checked_add (at c m.stats.bank_busy_cycles) latency_cycles "bank-busy counter overflow"
      let bank : BankState = record {
        used_lines = (at c m.banks).used_lines;
        channel_ready = set (at c m.banks).channel_ready selected completion;
      }
      returned (
        record m {
          banks = put c bank m.banks;
          stats = record m.stats {
            queue_delay_cycles = delay;
            bank_busy_cycles = put c busy m.stats.bank_busy_cycles;
          };
          makespan_cycles = max m.makespan_cycles completion;
        },
        record { start = start; completion = completion },
      )
  ]

module _ {D G : Type 0} ⦃p : Platform D G⦄ where
  -- The result, with the line and the random engine as the call leaves them.
  unfoldable pub retention_failed :
      EvidenceMemory D G → Line → BankConfig D → ℕ → Attempt (Bool × Line × G)
  retention_failed m line config observed =
      if not line.initialized || line.failed || config.retention_cycles == infinite
      then returned (line.failed, line, m.rng)
      else (if ltb observed line.last_write_cycle
          then thrown "retention observation precedes write"
          else elim m.error_mode [
            | deterministic ↦
                let failed = leb config.retention_cycles (observed - line.last_write_cycle) in
                returned (failed, record line { failed = failed }, m.rng)
            | stochastic ↦
                let elapsed =
                  sub64 observed (max line.last_retention_check line.last_write_cycle) in
                let checked = record line { last_retention_check = observed } in
                let probability = p.sub p.one_double (
                  p.exp (
                    p.div (p.negate (p.of_uint64 elapsed))
                      (p.of_uint64 config.retention_cycles))) in
                let (drawn, rng) = p.uniform m.rng in
                let failed = p.less drawn probability in
                if elapsed == 0
                then returned (false, checked, m.rng)
                else returned (failed, record checked { failed = failed }, rng)
          ])
