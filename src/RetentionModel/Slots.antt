-- ===== src/RetentionModel/Slots.antt =====
-- Laws of the slots: what `store_line`, `release` and `allocate_slot` read and change.
use programmable_retention_t.Prelude.{
  ℕ, zero, suc, ◌+◌, true, false, List, [], ◌∷◌, none, some, ◌≡◌, refl, subst, ◌≢◌, arith, length,
  get_elem?, set, get_elem?-set_self, get_elem?-set_ne, length-set, RetentionClass, PerClass, at,
  at-put_self, at-put_ne, ℕ_discrete, Bool-cases, inl, inr,
}
use programmable_retention_t.RetentionModel.Types.{Line, Bank, Location, empty_line}
use programmable_retention_t.RetentionModel.Banks.{
  first_free, line_at, store_line, allocate_slot, release,
}

pub Location-discrete : Discrete Location
Location-discrete = hlevel ℕ_discrete

abbrev pub location : RetentionClass → ℕ → Location
location c slot = record { retention_class = c; slot = slot }

module _ {D : Type 0} where
  pub at-store_line_ne :
      (banks : PerClass (Bank D)) (l : Location) (c : RetentionClass) (v : Line)
      → l.retention_class ≢ c
      → at c (store_line banks l v) ≡ at c banks
  unfolding store_line
  at-store_line_ne banks l c v h = at-put_ne l.retention_class c _ banks h

  pub lines-store_line :
      (banks : PerClass (Bank D)) (l : Location) (v : Line)
      → (at l.retention_class (store_line banks l v)).lines
        ≡ set (at l.retention_class banks).lines l.slot v
  unfolding store_line
  lines-store_line banks l v = rw (at-put_self l.retention_class) refl

  pub config-store_line :
      (banks : PerClass (Bank D)) (l : Location) (c : RetentionClass) (v : Line)
      → (at c (store_line banks l v)).config ≡ (at c banks).config
  unfolding store_line
  config-store_line banks l c v = ground arith

  pub length-store_line :
      (banks : PerClass (Bank D)) (l : Location) (c : RetentionClass) (v : Line)
      → length (at c (store_line banks l v)).lines ≡ length (at c banks).lines
  unfolding store_line
  length-store_line banks l c v =
      ground (arith, length-set (at l.retention_class banks).lines l.slot v)

  pub line_at-store_line_self :
      (banks : PerClass (Bank D)) (l : Location) (v : Line) {old : Line}
      → line_at banks l ≡ some old
      → line_at (store_line banks l v) l ≡ some v
  unfolding line_at
  line_at-store_line_self banks l v h =
      rw (lines-store_line banks l v)
        (get_elem?-set_self (at l.retention_class banks).lines l.slot v h)

  pub line_at-store_line_ne :
      (banks : PerClass (Bank D)) (l k : Location) (v : Line)
      → l ≢ k
      → line_at (store_line banks l v) k ≡ line_at banks k
  unfolding line_at store_line
  line_at-store_line_ne banks l k v h =
      ground (arith, get_elem?-set_ne (at l.retention_class banks).lines l.slot k.slot v)

  pub release-some :
      (banks : PerClass (Bank D)) (l : Location) {old : Line}
      → line_at banks l ≡ some old
      → release banks l ≡ some (store_line banks l empty_line)
  unfolding release
  release-some banks l h = rw h

first_free_sound :
    (index : ℕ) (lines : List Line) (slot : ℕ)
    → first_free index lines ≡ some slot
    → (i : ℕ) × (line : Line) × (slot ≡ index + i)
      × (get_elem? lines i ≡ some line)
      × (line.valid ≡ false)
unfolding first_free
first_free_sound index [] slot h = ground arith
first_free_sound index (line ∷ lines) slot h = elim (Bool-cases line.valid) [
  | inl used ↦
      let (i, found, e, at_i, free) = first_free_sound (suc index) lines slot (ground arith) in
      (suc i, found, omega arith, at_i, free)
  | inr free ↦ (0, line, ground arith, refl, free)
]

first_free-none :
    (index : ℕ) (lines : List Line)
    → first_free index lines ≡ none
    → (i : ℕ) (line : Line) → get_elem? lines i ≡ some line
    → line.valid ≡ true
unfolding first_free
first_free-none index [] h i line e = ground arith
first_free-none index (x ∷ lines) h zero line e = ground arith
first_free-none index (x ∷ lines) h (suc i) line e =
    first_free-none (suc index) lines (ground arith) i line e

module _ {D : Type 0} (banks : PerClass (Bank D)) (c : RetentionClass) where
  -- The slot that is handed out exists and is free.
  pub allocate_slot_free :
      (slot : ℕ)
      → allocate_slot banks c ≡ some slot
      → (line : Line) × (line_at banks (location c slot) ≡ some line) × (line.valid ≡ false)
  unfolding allocate_slot line_at
  allocate_slot_free slot h =
      let (i, line, e, found, free) = first_free_sound 0 (at c banks).lines slot h in
      (line, subst (λ s. get_elem? (at c banks).lines s ≡ some line) (omega arith) found, free)

  -- A refusal means that every line of the bank is in use.
  pub allocate_slot-none :
      (slot : ℕ) (line : Line)
      → allocate_slot banks c ≡ none
      → line_at banks (location c slot) ≡ some line
      → line.valid ≡ true
  unfolding allocate_slot line_at
  allocate_slot-none slot line h e = first_free-none 0 (at c banks).lines h slot line e
