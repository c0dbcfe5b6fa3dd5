-- ===== src/EvidenceModel/Ranges.antt =====
-- sim/evidence_model.cpp: which lines a reservation adds, and which ones a release takes away.
use programmable_retention_t.Prelude.{
  ℕ, zero, suc, ◌+◌, ◌≤◌, ◌<◌, true, false, ◌||◌, not, none, some, ◌==◌, ◌≡◌, ◌≢◌, ◌⊎◌, refl, ◌∙◌,
  ap, arith, inl, inr, if◌then◌else◌, Option-cases, Bool-cases, add64, add64_injective, add64-eq,
  lookup, insert, ℕ_discrete, Entries, lookup-insert, lookup-erase, RetentionClass, u64_mod, Bool,
}
use programmable_retention_t.Prelude.Exceptions.{returned}
use programmable_retention_t.EvidenceModel.Types.{EvidenceMemory, Line, logical_line, reserved_line}
use programmable_retention_t.EvidenceModel.Capacity.{
  can_fit, with_used, emplace, overlaps, emplace_range, reserve_range, release_line, release_from,
  release_range,
}
use programmable_retention_t.EvidenceModel.Accounting.{used, capacity_of, IsAccounted}
use programmable_retention_t.EvidenceModel.Reservations.{
  IsFree, emplace_free, emplace_range-insert, in_use, released-IsAccounted,
}

-- No offset of the range leads to the address `key`.
abbrev pub IsOutside : ℕ → ℕ → ℕ → ℕ → Type 0
IsOutside first offset remaining key =
    (j : ℕ) → offset ≤ j → j < offset + remaining → add64 first j ≢ key

overlaps_free :
    (first offset remaining : ℕ) (entries : Entries Line)
    → IsFree first offset remaining entries
    → overlaps first offset remaining entries ≡ false
unfolding overlaps
overlaps_free first offset zero entries free = refl
overlaps_free first offset (suc remaining) entries free =
    rw (free offset (omega arith) (omega arith)) (
      overlaps_free first (suc offset) remaining entries
        (λ j lo hi. free j (omega arith) (omega arith)))

emplace_range_outside :
    (first offset remaining key : ℕ) (line : Line) (entries : Entries Line)
    → IsOutside first offset remaining key
    → lookup key (emplace_range first offset remaining line entries) ≡ lookup key entries
unfolding emplace_range emplace
emplace_range_outside first offset zero key line entries out = refl
emplace_range_outside first offset (suc remaining) key line entries out =
    emplace_range_outside first (suc offset) remaining key line
      (emplace (add64 first offset) line entries) (λ j lo hi. out j (omega arith) (omega arith))
    ∙ ground (
      arith,
      out offset (omega arith) (omega arith),
      lookup-insert (add64 first offset) key line entries,
    )

emplace_range_inside :
    (first offset remaining j : ℕ) (line : Line) (entries : Entries Line)
    → offset + remaining ≤ u64_mod
    → IsFree first offset remaining entries
    → offset ≤ j
    → j < offset + remaining
    → lookup (add64 first j) (emplace_range first offset remaining line entries) ≡ some line
unfolding emplace_range
emplace_range_inside first offset zero j line entries word free lo hi = absurd (omega arith)
emplace_range_inside first offset (suc remaining) j line entries word free lo hi =
    rw (emplace_free (add64 first offset) line entries (free offset (omega arith) (omega arith)))
      (elim (ℕ_discrete offset j) [
        | yes here ↦
            emplace_range_outside first (suc offset) remaining (add64 first j) line
              (insert (add64 first offset) line entries)
              (λ k low high e.
                absurd (omega (arith, add64_injective first k j (omega arith) (omega arith) e)))
            ∙ ground (
              arith,
              ap (add64 first) here,
              lookup-insert (add64 first offset) (add64 first j) line entries,
            )
        | no later ↦
            emplace_range_inside first (suc offset) remaining j line
              (insert (add64 first offset) line entries) (omega arith)
              (emplace_range-insert first offset remaining line entries word free) (omega arith)
              (omega arith)
      ])

module _ {D G : Type 0} where
  -- The memory `after` has `n` more lines of the class `c` than `m`, those of the range.
  pub record HasReserved (m after : EvidenceMemory D G) (first n : ℕ) (c : RetentionClass)
      : Type 0 where
    pub usage : used after c ≡ used m c + n
    pub inside : (j : ℕ) → j < n → lookup (add64 first j) after.lines ≡ some (reserved_line c)
    pub outside : (key : ℕ) → IsOutside first 0 n key → lookup key after.lines ≡ lookup key m.lines

  can_fit_room :
      (m : EvidenceMemory D G) (c : RetentionClass) (n : ℕ)
      → can_fit m c n ≡ true
      → used m c + n ≤ capacity_of m c
  unfolding can_fit
  can_fit_room m c n h = ground arith

  can_fit_full :
      (m : EvidenceMemory D G) (c : RetentionClass) (n : ℕ)
      → can_fit m c n ≡ false
      → capacity_of m c < used m c + n
  unfolding can_fit
  can_fit_full m c n h = ground arith

  reserved-HasReserved :
      (m : EvidenceMemory D G) (first n : ℕ) (c : RetentionClass)
      → IsAccounted m
      → used m c + n ≤ capacity_of m c
      → IsFree first 0 n m.lines
      → HasReserved m
          (record m {
            lines = emplace_range first 0 n (reserved_line c) m.lines;
            banks = with_used m c (add64 (used m c) n);
          })
          first
          n
          c
  reserved-HasReserved m first n c v room free = record {
    usage = ground (arith, add64-eq (used m c) n (omega (arith, room, v.word c)));
    inside = λ j small.
        emplace_range_inside first 0 n j (reserved_line c) m.lines (omega (arith, room, v.word c))
          free (omega arith) (omega (arith, small));
    outside = λ key out. emplace_range_outside first 0 n key (reserved_line c) m.lines out;
  }

  -- What a refusal changes.
  abbrev count_failure : EvidenceMemory D G → EvidenceMemory D G
  count_failure m = record m {
    stats = record m.stats { capacity_failures = add64 m.stats.capacity_failures 1 };
  }

  -- The memory with the range.
  abbrev with_range : EvidenceMemory D G → ℕ → ℕ → RetentionClass → EvidenceMemory D G
  with_range m first n c = record m {
    lines = emplace_range first 0 n (reserved_line c) m.lines;
    banks = with_used m c (add64 (used m c) n);
  }

  -- In an accounted memory, where no line of the range is reserved, `reserve_range` returns. Either
  -- it grants the range, which is then of at least one line and fits into what the class has left:
  -- the usage counter is raised by its length, the lines of the range are reserved in the class, and
  -- all other lines are as they were. Or it refuses: the range is empty or exceeds what is left, and
  -- lines and counters are as they were.
  pub reserve_range-HasReserved :
      (m : EvidenceMemory D G) (byte_address n : ℕ) (c : RetentionClass)
      → IsAccounted m
      → IsFree (logical_line byte_address) 0 n m.lines
      → (after : EvidenceMemory D G) × (granted : Bool) × (reserve_range m byte_address n c
          ≡ returned (after, granted))
        × (((granted ≡ true)
              × (0 < n)
              × (used m c + n ≤ capacity_of m c)
              × HasReserved m after (logical_line byte_address) n c)
            ⊎ ((granted ≡ false)
                × ((n ≡ 0) ⊎ (capacity_of m c < used m c + n))
                × (after.lines ≡ m.lines)
                × (after.banks ≡ m.banks)))
  unfolding reserve_range
  reserve_range-HasReserved m byte_address n c v free = elim (ℕ_discrete n 0) [
    | yes empty ↦
        let refused : (n == 0 || not (can_fit m c n)) ≡ true = ground arith in
        (count_failure m, false, rw refused refl, inr (refl, inl empty, refl, refl))
    | no some_line ↦ elim (Bool-cases (can_fit m c n)) [
      | inr full ↦
          let refused : (n == 0 || not (can_fit m c n)) ≡ true = ground arith in
          (
            count_failure m,
            false,
            rw refused refl,
            inr (refl, inr (can_fit_full m c n full), refl, refl),
          )
      | inl fits ↦
          let granted : (n == 0 || not (can_fit m c n)) ≡ false = ground arith in
          let room = can_fit_room m c n fits in
          (
            with_range m (logical_line byte_address) n c,
            true,
            rw (granted, overlaps_free (logical_line byte_address) 0 n m.lines free) refl,
            inl (
              refl,
              omega (arith, some_line),
              room,
              reserved-HasReserved m (logical_line byte_address) n c v room free,
            ),
          )
    ]
  ]

  -- What a release of a range makes of a memory.
  pub record HasReleased (m after : EvidenceMemory D G) (first offset remaining : ℕ) : Type 0 where
    pub accounted : IsAccounted after
    pub inside :
        (j : ℕ) → offset ≤ j → j < offset + remaining → lookup (add64 first j) after.lines ≡ none
    pub outside :
        (key : ℕ)
        → IsOutside first offset remaining key
        → lookup key after.lines ≡ lookup key m.lines
    pub absent : (key : ℕ) → lookup key m.lines ≡ none → lookup key after.lines ≡ none

  release_line-erases :
      (m : EvidenceMemory D G) (key : ℕ)
      → IsAccounted m
      → (after : EvidenceMemory D G) × (release_line m key ≡ returned after)
        × IsAccounted after
        × ((j : ℕ) → lookup j after.lines ≡ (if key == j then none else lookup j m.lines))
  unfolding release_line
  release_line-erases m key v = elim (Option-cases (lookup key m.lines)) [
    | inl e ↦
        (m, rw (e, release_line) refl, v, λ j. ground (arith, e, ap (λ (k : ℕ). lookup k m.lines)))
    | inr (line, e) ↦
        let busy : (used m line.retention_class == 0) ≡ false =
          ground (arith, in_use m key line v e) in
        (
          _,
          rw (e, busy, release_line) refl,
          released-IsAccounted m key line v e,
          λ j. lookup-erase key j m.lines,
        )
  ]

  release_from-HasReleased :
      (m : EvidenceMemory D G) (first offset remaining : ℕ)
      → IsAccounted m
      → (after : EvidenceMemory D G) × (release_from m first offset remaining ≡ returned after)
        × HasReleased m after first offset remaining
  unfolding release_from
  release_from-HasReleased m first offset zero v = (
    m,
    refl,
    record {
      accounted = v;
      inside = λ j lo hi. absurd (omega arith);
      outside = λ key out. refl;
      absent = λ key none_there. none_there;
    },
  )
  release_from-HasReleased m first offset (suc remaining) v =
      let (next, e, w, erased) = release_line-erases m (add64 first offset) v in
      let (after, e', h) = release_from-HasReleased next first (suc offset) remaining w in
      (
        after,
        rw e e',
        record {
          accounted = h.accounted;
          inside = λ j lo hi. elim (ℕ_discrete offset j) [
            | yes here ↦
                h.absent (add64 first j)
                  (erased (add64 first j) ∙ ground (arith, ap (add64 first) here))
            | no later ↦ h.inside j (omega arith) (omega arith)
          ];
          outside = λ key out.
              h.outside key (λ j lo hi. out j (omega arith) (omega arith))
              ∙ erased key
              ∙ ground (arith, out offset (omega arith) (omega arith));
          absent = λ key gone. h.absent key (erased key ∙ ground (arith, gone));
        },
      )

  -- In an accounted memory `release_range` returns, so that the underflow exception is not thrown;
  -- afterwards no line of the range is reserved, every line outside it is as it was, and the
  -- accounts are kept, so that each usage counter is the number of lines left in its class.
  pub release_range-HasReleased :
      (m : EvidenceMemory D G) (byte_address n : ℕ)
      → IsAccounted m
      → (after : EvidenceMemory D G) × (release_range m byte_address n ≡ returned after)
        × HasReleased m after (logical_line byte_address) 0 n
  unfolding release_range
  release_range-HasReleased m byte_address n v =
      release_from-HasReleased m (logical_line byte_address) 0 n v
