-- ===== src/RetentionModel/Consistency.antt =====
-- The invariant of `RetentionMemory`: the directory and the valid lines of the banks describe one
-- another, slot by slot.
use programmable_retention_t.Prelude.{
  ℕ, true, false, List, none, some, ◌≡◌, sym, ◌∙◌, ap, ◌≢◌, arith, length, lookup, insert, erase,
  lookup-insert, lookup-erase, RetentionClass, PerClass, at, ◌⊎◌, inl, inr, subst, ℕ_discrete,
}
use programmable_retention_t.RetentionModel.Types.{Line, Bank, Location, empty_line}
use programmable_retention_t.RetentionModel.Banks.{line_at, store_line}
use programmable_retention_t.RetentionModel.Slots.{
  Location-discrete, line_at-store_line_self, line_at-store_line_ne, length-store_line,
  config-store_line,
}

abbrev Directory : Type 0
Directory = List (ℕ × Location)

module _ {D : Type 0} where
  -- `location` holds the valid copy of the logical line `a`.
  abbrev pub Holds : PerClass (Bank D) → Location → ℕ → Type 0
  Holds banks location a =
      (line : Line) × (line_at banks location ≡ some line)
      × (line.valid ≡ true)
      × (line.logical_line ≡ a)

  pub record IsConsistent (directory : List (ℕ × Location)) (banks : PerClass (Bank D))
      : Type 0 where
    pub sized :
        (c : RetentionClass) → length (at c banks).lines ≡ (at c banks).config.capacity_lines
    pub indexed : (a : ℕ) (l : Location) → lookup a directory ≡ some l → Holds banks l a
    pub listed :
        (l : Location) (line : Line)
        → line_at banks l ≡ some line
        → line.valid ≡ true
        → lookup line.logical_line directory ≡ some l

  store-sized :
      (banks : PerClass (Bank D)) (l : Location) (v : Line)
      → ((c : RetentionClass) → length (at c banks).lines ≡ (at c banks).config.capacity_lines)
      → (c : RetentionClass)
      → length (at c (store_line banks l v)).lines
        ≡ (at c (store_line banks l v)).config.capacity_lines
  store-sized banks l v h c =
      length-store_line banks l c v
      ∙ h c
      ∙ sym (ap (λ b. b.capacity_lines) (config-store_line banks l c v))

  -- What a store leaves at each location.
  pub line_at-store_line :
      (banks : PerClass (Bank D)) (l k : Location) (v : Line) {old : Line}
      → line_at banks l ≡ some old
      → ((k ≡ l) × (line_at (store_line banks l v) k ≡ some v))
        ⊎ ((k ≢ l) × (line_at (store_line banks l v) k ≡ line_at banks k))
  line_at-store_line banks l k v e = elim (Location-discrete k l) [
    | yes p ↦ inl (p, rw p (line_at-store_line_self banks l v e))
    | no p ↦ inr (p, line_at-store_line_ne banks l k v (λ q. p (sym q)))
  ]

  -- An update of a line in place.
  module _ {directory : List (ℕ × Location)} {banks : PerClass (Bank D)}
      (w : IsConsistent directory banks) (l : Location) (old v : Line)
      (e : line_at banks l ≡ some old) where
    update_indexed :
        v.valid ≡ old.valid
        → v.logical_line ≡ old.logical_line
        → (a : ℕ) (k : Location) → lookup a directory ≡ some k
        → Holds (store_line banks l v) k a
    update_indexed same_valid same_line a k h =
        let (line, found, valid, logical) = w.indexed a k h in
        elim (line_at-store_line banks l k v e) [
          | inl (p, here) ↦
              let same : line ≡ old = ground (arith, ap (line_at banks) p) in
              (v, here, ground arith, ground arith)
          | inr (p, there) ↦ (line, there ∙ found, valid, logical)
        ]

    update_listed :
        v.valid ≡ old.valid
        → v.logical_line ≡ old.logical_line
        → (k : Location) (line : Line) → line_at (store_line banks l v) k ≡ some line
        → line.valid ≡ true
        → lookup line.logical_line directory ≡ some k
    update_listed same_valid same_line k line h valid = elim (line_at-store_line banks l k v e) [
      | inl (p, here) ↦
          let same : line ≡ v = ground arith in
          rw (p, ap (λ (x : Line). x.logical_line) same, same_line)
            (w.listed l old e (ground arith))
      | inr (p, there) ↦ w.listed k line (sym there ∙ h) valid
    ]

    pub update-IsConsistent :
        v.valid ≡ old.valid
        → v.logical_line ≡ old.logical_line
        → IsConsistent directory (store_line banks l v)
    update-IsConsistent same_valid same_line = record {
      sized = store-sized banks l v w.sized;
      indexed = update_indexed same_valid same_line;
      listed = update_listed same_valid same_line;
    }

  -- A line that is dropped: its entry is erased, its slot is emptied.
  module _ {directory : List (ℕ × Location)} {banks : PerClass (Bank D)}
      (w : IsConsistent directory banks) (a : ℕ) (l : Location)
      (held : lookup a directory ≡ some l) where
    drop_indexed :
        (b : ℕ) (k : Location)
        → lookup b (erase a directory) ≡ some k
        → Holds (store_line banks l empty_line) k b
    drop_indexed b k h =
        let (line, found, valid, logical) = w.indexed a l held in
        let kept : lookup b directory ≡ some k = ground (arith, lookup-erase a b directory) in
        let (line', found', valid', logical') = w.indexed b k kept in
        elim (line_at-store_line banks l k empty_line found) [
          | inl (p, here) ↦
              let same : line' ≡ line = ground (arith, ap (line_at banks) p) in
              absurd (ground (arith, lookup-erase a b directory))
          | inr (p, there) ↦ (line', there ∙ found', valid', logical')
        ]

    drop_listed :
        (k : Location) (line : Line)
        → line_at (store_line banks l empty_line) k ≡ some line
        → line.valid ≡ true
        → lookup line.logical_line (erase a directory) ≡ some k
    drop_listed k line h valid =
        let (line', found, valid', logical) = w.indexed a l held in
        elim (line_at-store_line banks l k empty_line found) [
          | inl (p, here) ↦ absurd (ground arith)
          | inr (p, there) ↦
              let old : lookup line.logical_line directory ≡ some k =
                w.listed k line (sym there ∙ h) valid in
              ground (
                arith,
                lookup-erase a line.logical_line directory,
                ap (λ (x : ℕ). lookup x directory),
              )
        ]

    pub drop-IsConsistent : IsConsistent (erase a directory) (store_line banks l empty_line)
    drop-IsConsistent = record {
      sized = store-sized banks l empty_line w.sized;
      indexed = drop_indexed;
      listed = drop_listed;
    }

  -- A new line in a free slot.
  module _ {directory : List (ℕ × Location)} {banks : PerClass (Bank D)}
      (w : IsConsistent directory banks) (l : Location) (old v : Line)
      (e : line_at banks l ≡ some old) (free : old.valid ≡ false) (valid : v.valid ≡ true)
      (absent : lookup v.logical_line directory ≡ none) where
    place_indexed :
        (b : ℕ) (k : Location)
        → lookup b (insert v.logical_line l directory) ≡ some k
        → Holds (store_line banks l v) k b
    place_indexed b k h = elim (ℕ_discrete v.logical_line b) [
      | yes p ↦
          let same : l ≡ k = ground (arith, lookup-insert v.logical_line b l directory) in
          subst (λ x. Holds (store_line banks l v) x b) same
            (v, line_at-store_line_self banks l v e, valid, p)
      | no p ↦
          let kept : lookup b directory ≡ some k =
            ground (arith, lookup-insert v.logical_line b l directory) in
          let (line, found, used, logical) = w.indexed b k kept in
          elim (line_at-store_line banks l k v e) [
            | inl (q, here) ↦
                let same : line ≡ old = ground (arith, ap (line_at banks) q) in
                absurd (ground arith)
            | inr (q, there) ↦ (line, there ∙ found, used, logical)
          ]
    ]

    place_listed :
        (k : Location) (line : Line)
        → line_at (store_line banks l v) k ≡ some line
        → line.valid ≡ true
        → lookup line.logical_line (insert v.logical_line l directory) ≡ some k
    place_listed k line h used = elim (line_at-store_line banks l k v e) [
      | inl (p, here) ↦ ground (arith, lookup-insert v.logical_line line.logical_line l directory)
      | inr (p, there) ↦
          let old : lookup line.logical_line directory ≡ some k =
            w.listed k line (sym there ∙ h) used in
          ground (arith, lookup-insert v.logical_line line.logical_line l directory)
    ]

    pub place-IsConsistent : IsConsistent (insert v.logical_line l directory) (store_line banks l v)
    place-IsConsistent = record {
      sized = store-sized banks l v w.sized;
      indexed = place_indexed;
      listed = place_listed;
    }

  -- Consistency depends only on what the directory and the banks answer.
  pub transfer-IsConsistent :
      {directory directory' : List (ℕ × Location)} {banks banks' : PerClass (Bank D)}
      → IsConsistent directory banks
      → ((c : RetentionClass) → length (at c banks').lines ≡ (at c banks').config.capacity_lines)
      → ((a : ℕ) → lookup a directory' ≡ lookup a directory)
      → ((l : Location) → line_at banks' l ≡ line_at banks l)
      → IsConsistent directory' banks'
  transfer-IsConsistent w sized same_lookup same_line = record {
    sized = sized;
    indexed = λ a l h.
        let (line, found, valid, logical) = w.indexed a l (sym (same_lookup a) ∙ h) in
        (line, same_line l ∙ found, valid, logical);
    listed = λ l line h valid.
        same_lookup line.logical_line ∙ w.listed l line (sym (same_line l) ∙ h) valid;
  }
