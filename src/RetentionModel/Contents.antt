-- ===== src/RetentionModel/Contents.antt =====
-- The abstract view of a `RetentionMemory`: a map from logical lines to a class and a line. Slots
-- and banks are forgotten.
use programmable_retention_t.Prelude.{
  ℕ, true, false, List, Option, none, some, ◌≡◌, ◌∙◌, ap, ◌≢◌, arith, inl, inr, Option-cases,
  Bool-cases, lookup, insert, erase, lookup-insert, lookup-erase, RetentionClass, PerClass,
  if◌then◌else◌, ◌==◌, ◌>>=◌,
}
use programmable_retention_t.RetentionModel.Types.{
  Line, Bank, Location, RetentionMemory, empty_line,
}
use programmable_retention_t.RetentionModel.Banks.{line_at, store_line}
use programmable_retention_t.RetentionModel.Slots.{line_at-store_line_self, line_at-store_line_ne}
use programmable_retention_t.RetentionModel.Consistency.{
  IsConsistent, drop-IsConsistent, line_at-store_line,
}

module _ {D : Type 0} where
  -- What is stored for a logical line.
  unfoldable pub content :
      List (ℕ × Location) → PerClass (Bank D) → ℕ → Option (RetentionClass × Line)
  content directory banks a =
      lookup a directory >>= λ l. line_at banks l >>= λ line. some (l.retention_class, line)

  pub content-some :
      (directory : List (ℕ × Location)) (banks : PerClass (Bank D)) (a : ℕ) (l : Location)
      (line : Line)
      → lookup a directory ≡ some l
      → line_at banks l ≡ some line
      → content directory banks a ≡ some (l.retention_class, line)
  unfolding content
  content-some directory banks a l line h e = rw (h, e)

  pub content-lookup :
      (directory directory' : List (ℕ × Location)) (banks : PerClass (Bank D)) (a : ℕ)
      → lookup a directory' ≡ lookup a directory
      → content directory' banks a ≡ content directory banks a
  unfolding content
  content-lookup directory directory' banks a h = rw h

  -- A store at a slot that does not hold `b` leaves `b` as it was.
  pub content-store_line :
      (directory : List (ℕ × Location)) (banks : PerClass (Bank D)) (l : Location) (old v : Line)
      (b : ℕ)
      → IsConsistent directory banks
      → line_at banks l ≡ some old
      → (old.valid ≡ true → old.logical_line ≢ b)
      → content directory (store_line banks l v) b ≡ content directory banks b
  unfolding content
  content-store_line directory banks l old v b w e other =
      elim (Option-cases (lookup b directory)) [
        | inl missing ↦ rw missing
        | inr (k, held) ↦
            let (line, found, valid, logical) = w.indexed b k held in
            elim (line_at-store_line banks l k v e) [
              | inl (q, here) ↦
                  let same : line ≡ old = ground (arith, ap (line_at banks) q) in
                  absurd (other (ground arith) (ground arith))
              | inr (q, there) ↦ rw (held, there)
            ]
      ]

  -- A line put into a slot that was free or its own.
  pub content-place :
      (directory : List (ℕ × Location)) (banks : PerClass (Bank D)) (a : ℕ) (l : Location)
      (old v : Line)
      → IsConsistent directory banks
      → line_at banks l ≡ some old
      → (old.valid ≡ true → old.logical_line ≡ a)
      → (b : ℕ)
      → content (insert a l directory) (store_line banks l v) b
        ≡ (if a == b then some (l.retention_class, v) else content directory banks b)
  content-place directory banks a l old v w e own b = elim (Bool-cases (a == b)) [
    | inl same ↦ rw same (
        content-some (insert a l directory) (store_line banks l v) b l v
          (ground (arith, lookup-insert a b l directory)) (line_at-store_line_self banks l v e))
    | inr other ↦ rw other (
        content-lookup directory (insert a l directory) (store_line banks l v) b
          (ground (arith, lookup-insert a b l directory))
        ∙ content-store_line directory banks l old v b w e
            (λ valid q. let q' = own valid in ground arith))
  ]

  pub content-drop :
      (directory : List (ℕ × Location)) (banks : PerClass (Bank D)) (a : ℕ) (l : Location)
      → IsConsistent directory banks
      → lookup a directory ≡ some l
      → (b : ℕ)
      → content (erase a directory) (store_line banks l empty_line) b
        ≡ (if a == b then none else content directory banks b)
  unfolding content
  content-drop directory banks a l w h b = elim (Bool-cases (a == b)) [
    | inl same ↦
        let gone : lookup b (erase a directory) ≡ none =
          ground (arith, lookup-erase a b directory) in
        rw (same, gone)
    | inr other ↦
        let (line, found, valid, logical) = w.indexed a l h in
        rw other (
          content-lookup directory (erase a directory) (store_line banks l empty_line) b
            (ground (arith, lookup-erase a b directory))
          ∙ content-store_line directory banks l line empty_line b w found (λ _ q. ground arith))
  ]

  content-erase-insert :
      (directory : List (ℕ × Location)) (banks : PerClass (Bank D)) (a : ℕ) (l : Location) (b : ℕ)
      → content (insert a l directory) banks b ≡ content (insert a l (erase a directory)) banks b
  content-erase-insert directory banks a l b =
      content-lookup (insert a l (erase a directory)) (insert a l directory) banks b (
        ground (
          arith,
          lookup-insert a b l directory,
          lookup-insert a b l (erase a directory),
          lookup-erase a b directory,
        ))

  -- A line that moves to a free slot of another class.
  pub content-rehome :
      (directory : List (ℕ × Location)) (banks : PerClass (Bank D)) (a : ℕ) (k l : Location)
      (old v : Line)
      → IsConsistent directory banks
      → lookup a directory ≡ some k
      → k.retention_class ≢ l.retention_class
      → line_at banks l ≡ some old
      → old.valid ≡ false
      → (b : ℕ)
      → content (insert a l directory) (store_line (store_line banks k empty_line) l v) b
        ≡ (if a == b then some (l.retention_class, v) else content directory banks b)
  content-rehome directory banks a k l old v w h apart e free b =
      content-erase-insert directory (store_line (store_line banks k empty_line) l v) a l b
      ∙ content-place (erase a directory) (store_line banks k empty_line) a l old v
          (drop-IsConsistent w a k h)
          (line_at-store_line_ne banks k l empty_line
              (λ q. apart (ap (λ (x : Location). x.retention_class) q))
            ∙ e)
          (λ valid. ground arith) b
      ∙ ground (arith, content-drop directory banks a k w h b)

module _ {D G : Type 0} where
  -- The line stored for the logical line `a`, with its class.
  unfoldable pub stored : RetentionMemory D G → ℕ → Option (RetentionClass × Line)
  unfolding content
  stored m a = content m.directory m.banks a
