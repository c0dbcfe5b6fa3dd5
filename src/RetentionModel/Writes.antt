-- ===== src/RetentionModel/Writes.antt =====
-- What `write`, `migrate` and `invalidate` store, seen as a map from logical lines.
use programmable_retention_t.Prelude.{
  ℕ, false, ◌&&◌, none, some, ◌≡◌, refl, ◌∙◌, ap, ◌≢◌, arith, inl, inr, Option-cases, Bool-cases,
  same_class_iff, same_class, lookup, RetentionClass, if◌then◌else◌, ◌==◌, subst, is_some,
}
use programmable_retention_t.RetentionModel.Types.{
  Platform, Line, Location, RetentionMemory, Outcome, empty_line, fresh_line, logical_line,
}
use programmable_retention_t.RetentionModel.Banks.{line_at, store_line, done, missing_result}
use programmable_retention_t.RetentionModel.Memory.{target_slot, write_slot, write, invalidate}
use programmable_retention_t.RetentionModel.Slots.{
  location, release-some, allocate_slot_free, line_at-store_line_ne,
}
use programmable_retention_t.RetentionModel.Preservation.{IsValid, Returns}
use programmable_retention_t.RetentionModel.Contents.{
  content, stored, content-place, content-drop, content-rehome,
}

module _ {D G : Type 0} ⦃p : Platform D G⦄ (m : RetentionMemory D G) (v : IsValid m) where
  -- A write that succeeds stores a fresh line and touches no other; one that fails touches none.
  abbrev pub Stores : ℕ → RetentionClass → ℕ → RetentionMemory D G → Outcome → Type 0
  Stores a c value m' o =
      (b : ℕ)
      → stored m' b
        ≡ (if o.success && (a == b) then some (c, fresh_line a value m'.now) else stored m b)

  write_slot_same-Stores :
      (a : ℕ) (l : Location) (c : RetentionClass) (value : ℕ)
      → lookup a m.directory ≡ some l
      → l.retention_class ≡ c
      → Returns (write_slot m a c value l.slot) (Stores a c value)
  unfolding write_slot stored done
  write_slot_same-Stores a l c value h e =
      let (line, found, valid, logical) = v.consistent.indexed a l h in
      let here = location c l.slot in
      let found' : line_at m.banks here ≡ some line =
        subst (λ x. line_at m.banks x ≡ some line) (ap (λ x. location x l.slot) e) found in
      rw (h, (same_class_iff l.retention_class c).1 e, found', write_slot)
        (content-place m.directory m.banks a here line _ v.consistent found' (λ _. logical))

  write_slot_new-Stores :
      (a slot : ℕ) (c : RetentionClass) (value : ℕ) (old : Line)
      → lookup a m.directory ≡ none
      → line_at m.banks (location c slot) ≡ some old
      → old.valid ≡ false
      → Returns (write_slot m a c value slot) (Stores a c value)
  unfolding write_slot stored done
  write_slot_new-Stores a slot c value old h found free =
      rw (h, found, write_slot)
        (content-place m.directory m.banks a (location c slot) old _ v.consistent found
          (λ valid. ground arith))

  write_slot_move-Stores :
      (a slot : ℕ) (k : Location) (c : RetentionClass) (value : ℕ) (old : Line)
      → lookup a m.directory ≡ some k
      → k.retention_class ≢ c
      → line_at m.banks (location c slot) ≡ some old
      → old.valid ≡ false
      → Returns (write_slot m a c value slot) (Stores a c value)
  unfolding write_slot stored done
  write_slot_move-Stores a slot k c value old h apart found free =
      let (line, held, valid, logical) = v.consistent.indexed a k h in
      let l = location c slot in
      let other : same_class k.retention_class c ≡ false = ground arith in
      let found' : line_at (store_line m.banks k empty_line) l ≡ some old =
        line_at-store_line_ne m.banks k l empty_line
          (λ q. apart (ap (λ (x : Location). x.retention_class) q))
        ∙ found in
      rw (h, other, release-some m.banks k held, found', write_slot)
        (content-rehome m.directory m.banks a k l old _ v.consistent h apart found free)

  write_slot-Stores :
      (a slot : ℕ) (c : RetentionClass) (value : ℕ)
      → target_slot m (lookup a m.directory) c ≡ some slot
      → Returns (write_slot m a c value slot) (Stores a c value)
  write_slot-Stores a slot c value h = elim (Option-cases (lookup a m.directory)) [
    | inl missing ↦
        let (old, found, free) =
          allocate_slot_free m.banks c slot
            (subst (λ o. target_slot m o c ≡ some slot) missing h) in
        write_slot_new-Stores a slot c value old missing found free
    | inr (k, held) ↦
        let h' : target_slot m (some k) c ≡ some slot =
          subst (λ o. target_slot m o c ≡ some slot) held h in
        elim (Bool-cases (same_class k.retention_class c)) [
          | inl same ↦
              subst (λ s. Returns (write_slot m a c value s) (Stores a c value)) (ground arith)
                (write_slot_same-Stores a k c value held
                  ((same_class_iff k.retention_class c).0 same))
          | inr other ↦
              let (old, found, free) = allocate_slot_free m.banks c slot (ground arith) in
              write_slot_move-Stores a slot k c value old held (λ q. ground arith) found free
        ]
  ]

  -- In a valid memory `write` returns. If it succeeds, the addressed logical line holds the value in
  -- the requested class with the new time as its write time, wherever it was before, and every other
  -- line is as it was; if it fails, every line is as it was.
  pub write-Stores :
      (byte_address : ℕ) (c : RetentionClass) (value : ℕ)
      → Returns (write m byte_address c value) (Stores (logical_line byte_address) c value)
  unfolding write missing_result stored
  write-Stores byte_address c value =
      elim (Option-cases (target_slot m (lookup (logical_line byte_address) m.directory) c)) [
        | inl none_free ↦ rw (none_free, write) (λ b. refl)
        | inr (slot, chosen) ↦
            rw (chosen, write) (write_slot-Stores (logical_line byte_address) slot c value chosen)
      ]

  -- In a valid memory `invalidate` returns, forgets the addressed logical line, and leaves every
  -- other line as it was; it succeeds exactly when the line was stored.
  pub invalidate-stored :
      (byte_address : ℕ)
      → Returns (invalidate m byte_address) (λ m' o.
        ((b : ℕ) → stored m' b ≡ (if logical_line byte_address == b then none else stored m b))
        × (o.success ≡ is_some (stored m (logical_line byte_address))))
  unfolding invalidate stored content missing_result done
  invalidate-stored byte_address =
      elim (Option-cases (lookup (logical_line byte_address) m.directory)) [
        | inl missing ↦
            rw (missing, invalidate)
              ((λ b. ground (arith, ap (λ (x : ℕ). lookup x m.directory))), refl)
        | inr (l, found) ↦
            let (line, held, valid, logical) = v.consistent.indexed _ l found in
            rw (found, release-some m.banks l held, invalidate)
              (
                (λ b. unfold content in content-drop m.directory m.banks _ l v.consistent found b),
                rw held refl,
              )
      ]
