-- ===== src/EvidenceModel/Accounting.antt =====
-- The capacity accounts of `EvidenceMemory`: the usage counter of a bank counts the reserved lines of
-- its class.
use programmable_retention_t.Prelude.{
  ℕ, zero, suc, ◌+◌, ◌-◌, ◌≤◌, ◌<◌, max, String, Bool, true, false, List, [], ◌∷◌, none, some, ◌≡◌,
  refl, sym, ◌∙◌, ap, arith, inl, inr, if◌then◌else◌, Option-cases, set, subst, Entries, IsUnique,
  total, RetentionClass, same_class, at, put, u64_mod,
}
use programmable_retention_t.Prelude.Exceptions.{checked_add, Ensures, Ensures->>=, Ensures-mono}
use programmable_retention_t.EvidenceModel.Types.{EvidenceMemory, Line, BankState}
use programmable_retention_t.EvidenceModel.Schedule.{min_element, schedule}

abbrev pub class_weight : RetentionClass → Line → ℕ
class_weight c line = if same_class line.retention_class c then 1 else 0

-- The number of reserved lines of a class.
abbrev pub class_lines : RetentionClass → Entries Line → ℕ
class_lines c = total (class_weight c)

abbrev pub nonempty : List ℕ → Bool
nonempty [] = false
nonempty (x ∷ xs) = true

abbrev pub has_channel : BankState → Bool
has_channel bank = nonempty bank.channel_ready

nonempty-set : (xs : List ℕ) (i v : ℕ) → nonempty (set xs i v) ≡ nonempty xs
nonempty-set [] i v = refl
nonempty-set (x ∷ xs) zero v = refl
nonempty-set (x ∷ xs) (suc i) v = refl

pub min_element-none : (xs : List ℕ) → min_element xs ≡ none → nonempty xs ≡ false
unfolding min_element
min_element-none [] h = refl
min_element-none (x ∷ xs) h = ground arith

pub checked_add_returns :
    (a b : ℕ) (message : String) → Ensures (checked_add a b message) (λ x. x ≡ a + b)
checked_add_returns a b message = ground arith

module _ {D G : Type 0} where
  abbrev pub used : EvidenceMemory D G → RetentionClass → ℕ
  used m c = (at c m.banks).used_lines

  abbrev pub capacity_of : EvidenceMemory D G → RetentionClass → ℕ
  capacity_of m c = (at c m.profile.banks).capacity_lines

  pub record IsAccounted (m : EvidenceMemory D G) : Type 0 where
    pub unique : IsUnique m.lines
    pub counted : (c : RetentionClass) → used m c ≡ class_lines c m.lines
    pub fits : (c : RetentionClass) → used m c ≤ capacity_of m c
    pub channels : (c : RetentionClass) → has_channel (at c m.banks) ≡ true
    pub word : (c : RetentionClass) → capacity_of m c < u64_mod

  -- The changes that the accounts do not see.
  pub record SameUsage (m n : EvidenceMemory D G) : Type 0 where
    pub profile : n.profile ≡ m.profile
    pub lines : n.lines ≡ m.lines
    pub usage : (c : RetentionClass) → used n c ≡ used m c
    pub channels : (c : RetentionClass) → has_channel (at c n.banks) ≡ has_channel (at c m.banks)

  pub SameUsage-IsAccounted :
      (m n : EvidenceMemory D G) → SameUsage m n → IsAccounted m → IsAccounted n
  SameUsage-IsAccounted m n s v = record {
    unique = rw s.lines v.unique;
    counted = λ c. s.usage c ∙ v.counted c ∙ ap (class_lines c) (sym s.lines);
    fits = λ c. rw (s.usage c, s.profile) (v.fits c);
    channels = λ c. s.channels c ∙ v.channels c;
    word = λ c. rw s.profile (v.word c);
  }

  -- The memory after a schedule on the channel `selected`.
  abbrev pub after_schedule :
      EvidenceMemory D G → RetentionClass → ℕ → ℕ → ℕ → ℕ → EvidenceMemory D G
  after_schedule m c selected completion delay busy = record m {
    banks =
        put c
          (record {
            used_lines = (at c m.banks).used_lines;
            channel_ready = set (at c m.banks).channel_ready selected completion;
          })
          m.banks;
    stats = record m.stats {
      queue_delay_cycles = delay;
      bank_busy_cycles = put c busy m.stats.bank_busy_cycles;
    };
    makespan_cycles = max m.makespan_cycles completion;
  }

  after_schedule-SameUsage :
      (m : EvidenceMemory D G) (c : RetentionClass) (selected completion delay busy : ℕ)
      → SameUsage m (after_schedule m c selected completion delay busy)
  after_schedule-SameUsage m c selected completion delay busy = record {
    profile = refl;
    lines = refl;
    usage = λ d. ground arith;
    channels = λ d. ground (arith, nonempty-set (at c m.banks).channel_ready selected completion);
  }

  -- A bound schedule either throws on a counter overflow or returns what this memory says.
  pub schedule_cases :
      (m : EvidenceMemory D G) (c : RetentionClass) (issue latency : ℕ)
      → has_channel (at c m.banks) ≡ true
      → Ensures (schedule m c issue latency) (λ r.
        (selected : ℕ) × (ready : ℕ) × (delay : ℕ) × (busy : ℕ) × (min_element
            (at c m.banks).channel_ready
          ≡ some (selected, ready))
        × (r.1.start ≡ max issue ready)
        × (r.1.completion ≡ r.1.start + latency)
        × (r.0 ≡ after_schedule m c selected r.1.completion delay busy))
  unfolding schedule
  schedule_cases m c issue latency h =
      elim (Option-cases (min_element (at c m.banks).channel_ready)) [
        | inl e ↦ absurd (ground (arith, min_element-none (at c m.banks).channel_ready))
        | inr ((selected, ready), e) ↦
            rw (e, schedule)
              (Ensures->>= (checked_add (max issue ready) latency _) _
                (λ x. x ≡ max issue ready + latency) _
                (checked_add_returns (max issue ready) latency _)
                (λ completion q.
                  Ensures->>= (checked_add m.stats.queue_delay_cycles (max issue ready - issue) _) _
                    (λ x. x ≡ m.stats.queue_delay_cycles + (max issue ready - issue)) _
                    (checked_add_returns m.stats.queue_delay_cycles (max issue ready - issue) _)
                    (λ delay _.
                      Ensures->>= (checked_add (at c m.stats.bank_busy_cycles) latency _) _
                        (λ x. x ≡ at c m.stats.bank_busy_cycles + latency) _
                        (checked_add_returns (at c m.stats.bank_busy_cycles) latency _)
                        (λ busy _. (selected, ready, delay, busy, refl, refl, q, refl)))))
      ]

  pub schedule-SameUsage :
      (m : EvidenceMemory D G) (c : RetentionClass) (issue latency : ℕ)
      → IsAccounted m
      → Ensures (schedule m c issue latency) (λ r. SameUsage m r.0)
  schedule-SameUsage m c issue latency v =
      Ensures-mono (schedule m c issue latency) _ _
        (schedule_cases m c issue latency (v.channels c))
        (λ r (selected, ready, delay, busy, e, a, b, q).
          subst (SameUsage m) (sym q)
            (after_schedule-SameUsage m c selected r.1.completion delay busy))
