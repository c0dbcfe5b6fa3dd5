-- ===== src/EvidenceModel/Capacity.antt =====
-- sim/evidence_model.cpp: reserving and releasing ranges of lines.
use programmable_retention_t.Prelude.{
  ℕ, zero, suc, ◌-◌, Bool, true, false, ◌&&◌, ◌||◌, not, none, some, ◌==◌, leb, if◌then◌else◌,
  is_some, add64, sub64, lookup, insert, erase, Entries, RetentionClass, PerClass, at, put,
}
use programmable_retention_t.Prelude.Exceptions.{Attempt, returned, thrown, ◌>>=◌}
use programmable_retention_t.EvidenceModel.Types.{
  EvidenceMemory, Line, BankState, reserved_line, logical_line,
}

module _ {D G : Type 0} where
  unfoldable pub can_fit : EvidenceMemory D G → RetentionClass → ℕ → Bool
  can_fit m c additional =
      let capacity = (at c m.profile.banks).capacity_lines in
      leb additional capacity && leb (at c m.banks).used_lines (capacity - additional)

  abbrev pub with_used : EvidenceMemory D G → RetentionClass → ℕ → PerClass BankState
  with_used m c used = put c (record (at c m.banks) { used_lines = used }) m.banks

  -- One line less in the class `source`, one more in `destination`; they differ at each call.
  abbrev pub transfer_used :
      EvidenceMemory D G → RetentionClass → RetentionClass → PerClass BankState
  transfer_used m source destination =
      let lowered = record m {
        banks = with_used m source (sub64 (at source m.banks).used_lines 1);
      } in
      with_used lowered destination (add64 (at destination lowered.banks).used_lines 1)

-- `lines_.emplace`, which keeps an entry that is there.
unfoldable pub emplace : ℕ → Line → Entries Line → Entries Line
emplace key line entries = if is_some (lookup key entries) then entries else insert key line entries

-- Some line of the range `first + offset`, of the given length, is reserved already.
unfoldable pub overlaps : ℕ → ℕ → ℕ → Entries Line → Bool
overlaps first offset zero entries = false
overlaps first offset (suc remaining) entries =
    let later = overlaps first (suc offset) remaining entries in
    is_some (lookup (add64 first offset) entries) || later

unfoldable pub emplace_range : ℕ → ℕ → ℕ → Line → Entries Line → Entries Line
unfolding emplace
emplace_range first offset zero line entries = entries
emplace_range first offset (suc remaining) line entries =
    emplace_range first (suc offset) remaining line (emplace (add64 first offset) line entries)

module _ {D G : Type 0} where
  unfoldable pub reserve_range :
      EvidenceMemory D G → ℕ → ℕ → RetentionClass → Attempt (EvidenceMemory D G × Bool)
  unfolding can_fit overlaps emplace_range
  reserve_range m byte_address line_count c =
      let first = logical_line byte_address in
      if line_count == 0 || not (can_fit m c line_count)
      then returned (
        record m {
          stats = record m.stats { capacity_failures = add64 m.stats.capacity_failures 1 };
        },
        false,
      )
      else (if overlaps first 0 line_count m.lines
          then thrown "overlapping logical allocation"
          else returned (
            record m {
              lines = emplace_range first 0 line_count (reserved_line c) m.lines;
              banks = with_used m c (add64 (at c m.banks).used_lines line_count);
            },
            true,
          ))

  -- One round of the loop of `release_range`.
  unfoldable pub release_line : EvidenceMemory D G → ℕ → Attempt (EvidenceMemory D G)
  release_line m key = elim (lookup key m.lines) [
    | none ↦ returned m
    | some line ↦
        let used = (at line.retention_class m.banks).used_lines in
        if used == 0
        then thrown "bank usage underflow"
        else returned (record m {
          banks = with_used m line.retention_class (used - 1);
          lines = erase key m.lines;
        })
  ]

  unfoldable pub release_from : EvidenceMemory D G → ℕ → ℕ → ℕ → Attempt (EvidenceMemory D G)
  unfolding release_line
  release_from m first offset zero = returned m
  release_from m first offset (suc remaining) =
      release_line m (add64 first offset) >>= λ m'. release_from m' first (suc offset) remaining

  unfoldable pub release_range : EvidenceMemory D G → ℕ → ℕ → Attempt (EvidenceMemory D G)
  unfolding release_from
  release_range m byte_address line_count = release_from m (logical_line byte_address) 0 line_count
