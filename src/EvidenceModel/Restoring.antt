-- ===== src/EvidenceModel/Restoring.antt =====
-- sim/evidence_model.cpp: a reservation and its release, one after the other.
use programmable_retention_t.Prelude.{
  ℕ, zero, suc, ◌+◌, ◌≤◌, ◌<◌, true, some, ◌==◌, not, ◌&&◌, ◌≡◌, ◌⊎◌, refl, sym, ◌∙◌, ap, arith,
  inl, inr, add64, lookup, erase, ℕ_discrete, Entries, IsUnique, total, total-erase, lookup-erase,
  RetentionClass, [], ◌∷◌, subst, erase-IsUnique,
}
use programmable_retention_t.Prelude.Exceptions.{returned, Ensures}
use programmable_retention_t.EvidenceModel.Types.{EvidenceMemory, logical_line}
use programmable_retention_t.EvidenceModel.Capacity.{can_fit, reserve_range, release_range}
use programmable_retention_t.EvidenceModel.Accounting.{class_weight, used, IsAccounted}
use programmable_retention_t.EvidenceModel.Reservations.{IsFree, reserve_range-IsAccounted}
use programmable_retention_t.EvidenceModel.Ranges.{
  IsOutside, HasReserved, HasReleased, reserve_range-HasReserved, release_range-HasReleased,
}

-- A sum over a map depends on what is found in it alone.
total_same :
    {V : Type 0} (weight : V → ℕ) (xs ys : Entries V)
    → IsUnique xs
    → IsUnique ys
    → ((k : ℕ) → lookup k xs ≡ lookup k ys)
    → total weight xs ≡ total weight ys
unfolding total lookup
total_same weight [] [] u w h = refl
total_same weight [] ((key, value) ∷ rest) u w h = absurd (ground (arith, h key))
total_same weight ((key, value) ∷ rest) ys u w h =
    let here : lookup key ys ≡ some value = ground (arith, h key) in
    let others : total weight rest ≡ total weight (erase key ys) =
      total_same weight rest (erase key ys) u.1 (erase-IsUnique key ys w)
        (λ k. ground (arith, h k, u.0, lookup-erase key k ys, ap (λ (j : ℕ). lookup j rest))) in
    omega (arith, others, total-erase weight key value ys w here)

-- An address belongs to a range or does not.
range_cases :
    (first offset remaining key : ℕ)
    → ((j : ℕ) × (offset ≤ j) × (j < offset + remaining) × (add64 first j ≡ key))
      ⊎ IsOutside first offset remaining key
range_cases first offset zero key = inr (λ j lo hi. absurd (omega arith))
range_cases first offset (suc remaining) key = elim (ℕ_discrete (add64 first offset) key) [
  | yes here ↦ inl (offset, omega arith, omega arith, here)
  | no other ↦ elim (range_cases first (suc offset) remaining key) [
    | inl (j, lo, hi, e) ↦ inl (j, omega (arith, lo), omega (arith, hi), e)
    | inr out ↦ inr (λ j lo hi e. elim (ℕ_discrete offset j) [
      | yes same ↦ other (ap (add64 first) same ∙ e)
      | no later ↦ out j (omega arith) (omega arith) e
    ])
  ]
]

module _ {D G : Type 0} where
  -- What a granted reservation is.
  granted-HasReserved :
      (m held : EvidenceMemory D G) (byte_address n : ℕ) (c : RetentionClass)
      → IsAccounted m
      → IsFree (logical_line byte_address) 0 n m.lines
      → reserve_range m byte_address n c ≡ returned (held, true)
      → HasReserved m held (logical_line byte_address) n c
  granted-HasReserved m held byte_address n c v free run =
      let (after, granted, e, answer) = reserve_range-HasReserved m byte_address n c v free in
      let same : after ≡ held = ground (arith, run, e) in
      let yes_granted : granted ≡ true = ground (arith, run, e) in
      elim answer [
        | inl (_, _, _, held_lines) ↦
            subst (λ t. HasReserved m t (logical_line byte_address) n c) same held_lines
        | inr (refused, _, _, _) ↦ absurd (ground (arith, refused, yes_granted))
      ]

  granted-IsAccounted :
      (m held : EvidenceMemory D G) (byte_address n : ℕ) (c : RetentionClass)
      → IsAccounted m
      → reserve_range m byte_address n c ≡ returned (held, true)
      → IsAccounted held
  granted-IsAccounted m held byte_address n c v run =
      (subst (λ q. Ensures q (λ r. IsAccounted r.0 × (r.1 ≡ not (n == 0) && can_fit m c n))) run
        (reserve_range-IsAccounted m byte_address n c v)).0

  restored :
      (m held after : EvidenceMemory D G) (first n : ℕ) (c : RetentionClass)
      → IsFree first 0 n m.lines
      → HasReserved m held first n c
      → HasReleased held after first 0 n
      → (key : ℕ) → lookup key after.lines ≡ lookup key m.lines
  restored m held after first n c free taken given key = elim (range_cases first 0 n key) [
    | inl (j, lo, hi, e) ↦
        ap (λ k. lookup k after.lines) (sym e)
        ∙ given.inside j lo hi
        ∙ sym (free j lo hi)
        ∙ ap (λ k. lookup k m.lines) e
    | inr out ↦ given.outside key out ∙ taken.outside key out
  ]

  -- In an accounted memory, the release of a range that `reserve_range` has just granted, and of which
  -- no line was reserved before, returns. Afterwards every line is found as before the reservation,
  -- and the usage counter of each class is what it was.
  pub reserve_range-release_range :
      (m held : EvidenceMemory D G) (byte_address n : ℕ) (c : RetentionClass)
      → IsAccounted m
      → IsFree (logical_line byte_address) 0 n m.lines
      → reserve_range m byte_address n c ≡ returned (held, true)
      → (after : EvidenceMemory D G) × (release_range held byte_address n ≡ returned after)
        × ((key : ℕ) → lookup key after.lines ≡ lookup key m.lines)
        × ((d : RetentionClass) → used after d ≡ used m d)
  reserve_range-release_range m held byte_address n c v free run =
      let first = logical_line byte_address in
      let (after, e, given) =
        release_range-HasReleased held byte_address n
          (granted-IsAccounted m held byte_address n c v run) in
      let same =
        restored m held after first n c free
          (granted-HasReserved m held byte_address n c v free run) given in
      (
        after,
        e,
        same,
        λ d.
            given.accounted.counted d
            ∙ total_same (class_weight d) after.lines m.lines given.accounted.unique v.unique same
            ∙ sym (v.counted d),
      )
