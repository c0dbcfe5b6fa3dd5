-- ===== src/RetentionModel/Placement.antt =====
-- `write` and `migrate` return, and keep the directory and the banks consistent; so does every
-- sequence of operations.
use programmable_retention_t.Prelude.{
  ℕ, true, false, List, none, some, ◌≡◌, refl, sym, ◌∙◌, ap, ◌≢◌, arith, inl, inr, Option-cases,
  Bool-cases, same_class_iff, same_class, add64, add64-lt, lookup, insert, erase, lookup-insert,
  lookup-erase, RetentionClass, PerClass, at, subst,
}
use programmable_retention_t.RetentionModel.Types.{
  Platform, Line, Bank, Location, RetentionMemory, empty_line, fresh_line, logical_line,
}
use programmable_retention_t.RetentionModel.Banks.{
  line_at, store_line, retention_failed, allocate_slot,
}
use programmable_retention_t.RetentionModel.Memory.{
  target_slot, write_slot, write, move_line, migrate_located, migrate,
}
use programmable_retention_t.RetentionModel.Slots.{
  location, release-some, allocate_slot_free, line_at-store_line_ne,
}
use programmable_retention_t.RetentionModel.Consistency.{
  IsConsistent, update-IsConsistent, drop-IsConsistent, place-IsConsistent, transfer-IsConsistent,
}
use programmable_retention_t.RetentionModel.Preservation.{
  IsValid, KeepsValid, observed, observe-some, observed-IsValid, expire-IsValid, refresh-IsValid,
}

module _ {D : Type 0} where
  -- Stores into banks of different classes do not meet.
  store_line_comm :
      (banks : PerClass (Bank D)) (k l : Location) (v w : Line)
      → k.retention_class ≢ l.retention_class
      → store_line (store_line banks k v) l w ≡ store_line (store_line banks l w) k v
  unfolding store_line
  store_line_comm banks k l v w h = ground arith

  -- A line that moves: its old slot is emptied, and its new slot was free.
  rehome-IsConsistent :
      (directory : List (ℕ × Location)) (banks : PerClass (Bank D)) (a : ℕ) (k l : Location)
      (old v : Line)
      → IsConsistent directory banks
      → lookup a directory ≡ some k
      → k.retention_class ≢ l.retention_class
      → line_at banks l ≡ some old
      → old.valid ≡ false
      → v.valid ≡ true
      → v.logical_line ≡ a
      → IsConsistent (insert a l directory) (store_line (store_line banks k empty_line) l v)
  rehome-IsConsistent directory banks a k l old v w held apart e free valid logical =
      let dropped = drop-IsConsistent w a k held in
      let e' : line_at (store_line banks k empty_line) l ≡ some old =
        line_at-store_line_ne banks k l empty_line
          (λ q. apart (ap (λ (x : Location). x.retention_class) q))
        ∙ e in
      let absent : lookup v.logical_line (erase a directory) ≡ none =
        ground (arith, lookup-erase a v.logical_line directory) in
      let placed = place-IsConsistent dropped l old v e' free valid absent in
      transfer-IsConsistent placed placed.sized
        (λ b. ground (
          arith,
          lookup-insert a b l directory,
          lookup-insert v.logical_line b l (erase a directory),
          lookup-erase a b directory,
        ))
        (λ _. refl)

module _ {D G : Type 0} ⦃p : Platform D G⦄ (m : RetentionMemory D G) (v : IsValid m) where
  -- A slot of the class where the line already lives is overwritten in place.
  write_slot_same :
      (a : ℕ) (l : Location) (c : RetentionClass) (value : ℕ)
      → lookup a m.directory ≡ some l
      → l.retention_class ≡ c
      → KeepsValid (write_slot m a c value l.slot)
  unfolding write_slot
  write_slot_same a l c value h e =
      let (line, found, valid, logical) = v.consistent.indexed a l h in
      let config = (at c m.banks).config in
      let here : location c l.slot ≡ l = ap (λ x. location x l.slot) (sym e) in
      let found' : line_at m.banks (location c l.slot) ≡ some line =
        subst (λ x. line_at m.banks x ≡ some line) (sym here) found in
      let updated =
        update-IsConsistent v.consistent (location c l.slot) line
          (fresh_line a value (add64 m.now config.write_cycles)) found' (sym valid) (sym logical) in
      rw (h, (same_class_iff l.retention_class c).1 e, found', write_slot)
        (record {
          consistent =
              transfer-IsConsistent updated updated.sized
                (λ b. ground (
                  arith,
                  lookup-insert a b (location c l.slot) m.directory,
                  ap (λ (x : ℕ). lookup x m.directory),
                ))
                (λ _. refl);
          clock = add64-lt m.now config.write_cycles;
        })

  -- A line that has no slot yet takes a free one.
  write_slot_new :
      (a slot : ℕ) (c : RetentionClass) (value : ℕ) (old : Line)
      → lookup a m.directory ≡ none
      → line_at m.banks (location c slot) ≡ some old
      → old.valid ≡ false
      → KeepsValid (write_slot m a c value slot)
  unfolding write_slot
  write_slot_new a slot c value old h found free =
      let config = (at c m.banks).config in
      rw (h, found, write_slot)
        (record {
          consistent =
              place-IsConsistent v.consistent (location c slot) old
                (fresh_line a value (add64 m.now config.write_cycles)) found free refl h;
          clock = add64-lt m.now config.write_cycles;
        })

  -- A line that changes its class leaves its slot.
  write_slot_move :
      (a slot : ℕ) (k : Location) (c : RetentionClass) (value : ℕ) (old : Line)
      → lookup a m.directory ≡ some k
      → k.retention_class ≢ c
      → line_at m.banks (location c slot) ≡ some old
      → old.valid ≡ false
      → KeepsValid (write_slot m a c value slot)
  unfolding write_slot
  write_slot_move a slot k c value old h apart found free =
      let (line, held, valid, logical) = v.consistent.indexed a k h in
      let banks = store_line m.banks k empty_line in
      let config = (at c banks).config in
      let l = location c slot in
      let other : same_class k.retention_class c ≡ false = ground arith in
      let found' : line_at banks l ≡ some old =
        line_at-store_line_ne m.banks k l empty_line
          (λ q. apart (ap (λ (x : Location). x.retention_class) q))
        ∙ found in
      rw (h, other, release-some m.banks k held, found', write_slot)
        (record {
          consistent =
              rehome-IsConsistent m.directory m.banks a k l old
                (fresh_line a value (add64 m.now config.write_cycles)) v.consistent h apart found
                free refl refl;
          clock = add64-lt m.now config.write_cycles;
        })

  write_slot-IsValid :
      (a slot : ℕ) (c : RetentionClass) (value : ℕ)
      → target_slot m (lookup a m.directory) c ≡ some slot
      → KeepsValid (write_slot m a c value slot)
  write_slot-IsValid a slot c value h = elim (Option-cases (lookup a m.directory)) [
    | inl missing ↦
        let (old, found, free) =
          allocate_slot_free m.banks c slot
            (subst (λ o. target_slot m o c ≡ some slot) missing h) in
        write_slot_new a slot c value old missing found free
    | inr (k, held) ↦
        let h' : target_slot m (some k) c ≡ some slot =
          subst (λ o. target_slot m o c ≡ some slot) held h in
        elim (Bool-cases (same_class k.retention_class c)) [
          | inl same ↦
              subst (λ s. KeepsValid (write_slot m a c value s)) (ground arith)
                (write_slot_same a k c value held ((same_class_iff k.retention_class c).0 same))
          | inr other ↦
              let (old, found, free) = allocate_slot_free m.banks c slot (ground arith) in
              write_slot_move a slot k c value old held (λ q. ground arith) found free
        ]
  ]

  pub write-IsValid :
      (byte_address : ℕ) (c : RetentionClass) (value : ℕ)
      → KeepsValid (write m byte_address c value)
  unfolding write
  write-IsValid byte_address c value =
      elim (Option-cases (target_slot m (lookup (logical_line byte_address) m.directory) c)) [
        | inl none_free ↦
            rw (none_free, write) (record { consistent = v.consistent; clock = v.clock })
        | inr (slot, chosen) ↦
            rw (chosen, write) (write_slot-IsValid (logical_line byte_address) slot c value chosen)
      ]

  move_line-IsValid :
      (a value : ℕ) (k l : Location) (old : Line)
      → lookup a m.directory ≡ some k
      → k.retention_class ≢ l.retention_class
      → line_at m.banks l ≡ some old
      → old.valid ≡ false
      → KeepsValid (move_line m a k value l)
  unfolding move_line
  move_line-IsValid a value k l old h apart found free =
      let (line, held, valid, logical) = v.consistent.indexed a k h in
      let latency =
        add64 (at k.retention_class m.banks).config.read_cycles
          (at l.retention_class m.banks).config.write_cycles in
      let copy = fresh_line a value (add64 m.now latency) in
      let held' : line_at (store_line m.banks l copy) k ≡ some line =
        line_at-store_line_ne m.banks l k copy
          (λ q. apart (ap (λ (x : Location). x.retention_class) (sym q)))
        ∙ held in
      rw (found, release-some (store_line m.banks l copy) k held', move_line)
        (record {
          consistent = rw (store_line_comm m.banks l k copy empty_line (λ q. apart (sym q))) (
              rehome-IsConsistent m.directory m.banks a k l old copy v.consistent h apart found free
                refl refl);
          clock = add64-lt m.now latency;
        })

module _ {D G : Type 0} ⦃p : Platform D G⦄ (m : RetentionMemory D G) (v : IsValid m) where
  migrate_located-IsValid :
      (a : ℕ) (k : Location) (c : RetentionClass)
      → lookup a m.directory ≡ some k
      → k.retention_class ≢ c
      → KeepsValid (migrate_located m a k c)
  unfolding migrate_located
  migrate_located-IsValid a k c h apart =
      let (line, found, valid, logical) = v.consistent.indexed a k h in
      let m' = observed m k line in
      let v' = observed-IsValid m k line v found in
      rw (observe-some m k line found)
        (elim (Bool-cases (retention_failed m line (at k.retention_class m.banks).config).0) [
          | inl failed ↦ rw failed (expire-IsValid m' a k _ v' h)
          | inr safe ↦ rw safe (elim (Option-cases (allocate_slot m'.banks c)) [
            | inl none_free ↦ rw none_free (record { consistent = v'.consistent; clock = v'.clock })
            | inr (slot, chosen) ↦
                let (old, stored, free) = allocate_slot_free m'.banks c slot chosen in
                rw chosen (move_line-IsValid m' v' a _ k (location c slot) old h apart stored free)
          ])
        ])

  pub migrate-IsValid :
      (byte_address : ℕ) (c : RetentionClass) → KeepsValid (migrate m byte_address c)
  unfolding migrate
  migrate-IsValid byte_address c =
      elim (Option-cases (lookup (logical_line byte_address) m.directory)) [
        | inl missing ↦ rw (missing, migrate) v
        | inr (k, held) ↦
            rw (held, migrate)
              (elim (Bool-cases (same_class k.retention_class c)) [
                | inl same ↦ rw same (refresh-IsValid m byte_address v)
                | inr other ↦ rw other (
                    migrate_located-IsValid (logical_line byte_address) k c held
                      (λ q. ground arith))
              ])
      ]
