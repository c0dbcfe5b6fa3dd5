-- ===== src/EvidenceModel/Reservations.antt =====
-- `reserve_range` and `release_range` keep the capacity accounts, and releasing never throws.
use programmable_retention_t.Prelude.{
  ℕ, zero, suc, ◌+◌, ◌-◌, ◌≤◌, ◌<◌, true, false, ◌&&◌, ◌||◌, not, none, some, ◌==◌, ◌≡◌, refl, sym,
  ◌∙◌, ap, arith, inl, inr, if◌then◌else◌, Option-cases, Bool-cases, add64, add64_injective,
  add64-eq, lookup, insert, erase, subst, ◌*◌, ℕ_discrete, Entries, IsUnique, total, lookup-insert,
  insert-IsUnique, erase-IsUnique, total-insert_absent, total-erase, RetentionClass, same_class,
  same_class_iff, at, u64_mod,
}
use programmable_retention_t.Prelude.Exceptions.{Attempt, returned, Ensures}
use programmable_retention_t.EvidenceModel.Types.{EvidenceMemory, Line}
use programmable_retention_t.EvidenceModel.Capacity.{
  can_fit, with_used, emplace, overlaps, emplace_range, reserve_range, release_line, release_from,
  release_range,
}
use programmable_retention_t.EvidenceModel.Accounting.{
  class_weight, class_lines, used, capacity_of, IsAccounted,
}
use programmable_retention_t.EvidenceModel.Types.{logical_line, reserved_line}
use programmable_retention_t.EvidenceModel.Accesses.{recount}

-- No address of the range is reserved.
abbrev pub IsFree : ℕ → ℕ → ℕ → Entries Line → Type 0
IsFree first offset remaining entries =
    (j : ℕ) → offset ≤ j → j < offset + remaining → lookup (add64 first j) entries ≡ none

overlaps-IsFree :
    (first offset remaining : ℕ) (entries : Entries Line)
    → overlaps first offset remaining entries ≡ false
    → IsFree first offset remaining entries
unfolding overlaps
overlaps-IsFree first offset zero entries h j lo hi = absurd (omega arith)
overlaps-IsFree first offset (suc remaining) entries h j lo hi = elim (ℕ_discrete offset j) [
  | yes here ↦ ground (arith, ap (λ (x : ℕ). lookup (add64 first x) entries) here)
  | no later ↦
      overlaps-IsFree first (suc offset) remaining entries (ground arith) j (omega arith)
        (omega arith)
]

pub emplace_free :
    (key : ℕ) (line : Line) (entries : Entries Line)
    → lookup key entries ≡ none
    → emplace key line entries ≡ insert key line entries
unfolding emplace
emplace_free key line entries h = rw h

pub emplace_range-insert :
    (first offset remaining : ℕ) (line : Line) (entries : Entries Line)
    → offset + suc remaining ≤ u64_mod
    → IsFree first offset (suc remaining) entries
    → IsFree first (suc offset) remaining (insert (add64 first offset) line entries)
emplace_range-insert first offset remaining line entries h free j lo hi = ground (
  arith,
  lookup-insert (add64 first offset) (add64 first j) line entries,
  free j,
  add64_injective first offset j,
)

emplace_range-total :
    (weight : Line → ℕ) (first offset remaining : ℕ) (line : Line) (entries : Entries Line)
    → offset + remaining ≤ u64_mod
    → IsFree first offset remaining entries
    → total weight (emplace_range first offset remaining line entries)
      ≡ remaining * weight line + total weight entries
unfolding emplace_range
emplace_range-total weight first offset zero line entries h free = omega arith
emplace_range-total weight first offset (suc remaining) line entries h free =
    let here = free offset (omega arith) (omega arith) in
    rw (emplace_free (add64 first offset) line entries here) (
      omega (
        arith,
        emplace_range-total weight first (suc offset) remaining line
            (insert (add64 first offset) line entries) (omega arith)
            (emplace_range-insert first offset remaining line entries h free),
        total-insert_absent weight (add64 first offset) line entries here,
      ))

emplace-IsUnique :
    (key : ℕ) (line : Line) (entries : Entries Line)
    → IsUnique entries
    → IsUnique (emplace key line entries)
unfolding emplace
emplace-IsUnique key line entries u = ground (arith, insert-IsUnique key line entries u)

emplace_range-IsUnique :
    (first offset remaining : ℕ) (line : Line) (entries : Entries Line)
    → IsUnique entries
    → IsUnique (emplace_range first offset remaining line entries)
unfolding emplace_range
emplace_range-IsUnique first offset zero line entries u = u
emplace_range-IsUnique first offset (suc remaining) line entries u =
    emplace_range-IsUnique first (suc offset) remaining line
      (emplace (add64 first offset) line entries)
      (emplace-IsUnique (add64 first offset) line entries u)

module _ {D G : Type 0} where
  with_used-usage :
      (m : EvidenceMemory D G) (c d : RetentionClass) (u : ℕ)
      → (at d (with_used m c u)).used_lines ≡ (if same_class c d then u else used m d)
  with_used-usage m c d u = ground arith

  -- Facts on a range that fits and is free.
  module _ (m : EvidenceMemory D G) (first n : ℕ) (c : RetentionClass) (v : IsAccounted m)
      (room : can_fit m c n ≡ true) (clear : overlaps first 0 n m.lines ≡ false) where
    room_left : used m c + n ≤ capacity_of m c
    unfolding can_fit
    room_left = ground (arith, v.fits c)

    raised : add64 (used m c) n ≡ used m c + n
    raised = add64-eq (used m c) n (omega (arith, room_left, v.word c))

    reserved_total :
        (d : RetentionClass)
        → class_lines d (emplace_range first 0 n (reserved_line c) m.lines)
          ≡ n * class_weight d (reserved_line c) + used m d
    reserved_total d =
        emplace_range-total (class_weight d) first 0 n (reserved_line c) m.lines
          (omega (arith, room_left, v.word c)) (overlaps-IsFree first 0 n m.lines clear)
        ∙ ap (λ (x : ℕ). n * class_weight d (reserved_line c) + x) (sym (v.counted d))

    reserved_usage :
        (d : RetentionClass)
        → (at d (with_used m c (add64 (used m c) n))).used_lines
          ≡ n * class_weight d (reserved_line c) + used m d
    reserved_usage d = elim (Bool-cases (same_class c d)) [
      | inl same ↦
          rw (with_used-usage m c d (add64 (used m c) n), raised, same)
            (omega (arith, ap (used m) ((same_class_iff c d).0 same)))
      | inr other ↦ rw (with_used-usage m c d (add64 (used m c) n), other) (omega arith)
    ]

    reserved_fits :
        (d : RetentionClass)
        → (at d (with_used m c (add64 (used m c) n))).used_lines ≤ capacity_of m d
    reserved_fits d = elim (Bool-cases (same_class c d)) [
      | inl same ↦
          rw (with_used-usage m c d (add64 (used m c) n), raised, same)
            (subst (λ e. used m c + n ≤ capacity_of m e) ((same_class_iff c d).0 same) room_left)
      | inr other ↦ rw (with_used-usage m c d (add64 (used m c) n), other) (v.fits d)
    ]

    reserved-IsAccounted : IsAccounted (record m {
      lines = emplace_range first 0 n (reserved_line c) m.lines;
      banks = with_used m c (add64 (used m c) n);
    })
    reserved-IsAccounted = record {
      unique = emplace_range-IsUnique first 0 n (reserved_line c) m.lines v.unique;
      counted = λ d. reserved_usage d ∙ sym (reserved_total d);
      fits = reserved_fits;
      channels = λ d. ground (arith, v.channels d);
      word = v.word;
    }

  -- A reservation that returns keeps the accounts, and is granted exactly when it asks for at least
  -- one line and the class has room for all of them; it is never undefined.
  pub reserve_range-IsAccounted :
      (m : EvidenceMemory D G) (byte_address n : ℕ) (c : RetentionClass)
      → IsAccounted m
      → Ensures
          (reserve_range m byte_address n c)
          (λ r. IsAccounted r.0 × (r.1 ≡ not (n == 0) && can_fit m c n))
  unfolding reserve_range
  reserve_range-IsAccounted m byte_address n c v =
      elim (Bool-cases (n == 0 || not (can_fit m c n))) [
        | inl refused ↦ rw refused (recount m _ v refl refl refl, ground arith)
        | inr granted ↦
            rw granted (elim (Bool-cases (overlaps (logical_line byte_address) 0 n m.lines)) [
              | inl clash ↦ rw clash tt
              | inr clear ↦ rw clear (
                recount _ _
                    (reserved-IsAccounted m (logical_line byte_address) n c v (ground arith) clear)
                    refl refl refl,
                ground arith,
              )
            ])
      ]

  abbrev pub ReleasesTo : EvidenceMemory D G → Attempt (EvidenceMemory D G) → Type 0
  ReleasesTo m r = (n : EvidenceMemory D G) × (r ≡ returned n) × IsAccounted n

  -- A line that is released leaves its place in the accounts.
  module _ (m : EvidenceMemory D G) (key : ℕ) (line : Line) (v : IsAccounted m)
      (found : lookup key m.lines ≡ some line) where
    pub in_use : 1 ≤ used m line.retention_class
    in_use =
        let own : class_weight line.retention_class line ≡ 1 = ground arith in
        omega (
          arith,
          v.counted line.retention_class,
          total-erase (class_weight line.retention_class) key line m.lines v.unique found,
        )

    lowered_usage :
        (d : RetentionClass)
        → (at d (with_used m line.retention_class (used m line.retention_class - 1))).used_lines
            + class_weight d line
          ≡ used m d
    lowered_usage d = elim (Bool-cases (same_class line.retention_class d)) [
      | inl same ↦
          rw (with_used-usage m line.retention_class d (used m line.retention_class - 1), same)
            (omega (arith, in_use, ap (used m) ((same_class_iff line.retention_class d).0 same)))
      | inr other ↦
          rw (with_used-usage m line.retention_class d (used m line.retention_class - 1), other)
            (omega arith)
    ]

    pub released-IsAccounted : IsAccounted (record m {
      banks = with_used m line.retention_class (used m line.retention_class - 1);
      lines = erase key m.lines;
    })
    released-IsAccounted = record {
      unique = erase-IsUnique key m.lines v.unique;
      counted = λ d. omega (
        arith,
        v.counted d,
        lowered_usage d,
        total-erase (class_weight d) key line m.lines v.unique found,
      );
      fits = λ d. omega (arith, v.fits d, lowered_usage d);
      channels = λ d. ground (arith, v.channels d);
      word = v.word;
    }

  release_line-ReleasesTo :
      (m : EvidenceMemory D G) (key : ℕ) → IsAccounted m → ReleasesTo m (release_line m key)
  unfolding release_line
  release_line-ReleasesTo m key v = elim (Option-cases (lookup key m.lines)) [
    | inl e ↦ (m, rw (e, release_line), v)
    | inr (line, e) ↦
        let busy : (used m line.retention_class == 0) ≡ false =
          ground (arith, in_use m key line v e) in
        (_, rw (e, busy, release_line), released-IsAccounted m key line v e)
  ]

  release_from-ReleasesTo :
      (m : EvidenceMemory D G) (first offset remaining : ℕ)
      → IsAccounted m
      → ReleasesTo m (release_from m first offset remaining)
  unfolding release_from
  release_from-ReleasesTo m first offset zero v = (m, refl, v)
  release_from-ReleasesTo m first offset (suc remaining) v =
      let (n, e, w) = release_line-ReleasesTo m (add64 first offset) v in
      rw e (release_from-ReleasesTo n first (suc offset) remaining w)

  -- Releasing a range always returns, so that the underflow exception is never thrown, and keeps the
  -- accounts.
  pub release_range-ReleasesTo :
      (m : EvidenceMemory D G) (byte_address n : ℕ)
      → IsAccounted m
      → ReleasesTo m (release_range m byte_address n)
  unfolding release_range
  release_range-ReleasesTo m byte_address n v =
      release_from-ReleasesTo m (logical_line byte_address) 0 n v
