-- ===== src/RetentionModel/Preservation.antt =====
-- Every operation of `RetentionMemory` returns, and keeps the directory and the banks consistent.
use programmable_retention_t.Prelude.{
  ℕ, ◌<◌, Option, none, some, ◌≡◌, refl, arith, inl, inr, Option-cases, Bool-cases, add64, add64-lt,
  lookup, at, u64_mod,
}
use programmable_retention_t.RetentionModel.Types.{
  Platform, BankConfig, Line, Location, RetentionMemory, Outcome, logical_line,
}
use programmable_retention_t.RetentionModel.Banks.{
  line_at, store_line, observe, expire, retention_failed,
}
use programmable_retention_t.RetentionModel.Memory.{
  count_miss, read_located, read, refresh_located, refresh, invalidate, advance,
}
use programmable_retention_t.RetentionModel.Slots.{release-some, line_at-store_line_self}
use programmable_retention_t.RetentionModel.Consistency.{
  IsConsistent, update-IsConsistent, drop-IsConsistent,
}

module _ {D G : Type 0} where
  pub record IsValid (m : RetentionMemory D G) : Type 0 where
    pub consistent : IsConsistent m.directory m.banks
    pub clock : m.now < u64_mod

  -- The call returns, with no exception, and its result satisfies `P`.
  abbrev pub Returns :
      Option (RetentionMemory D G × Outcome) → (RetentionMemory D G → Outcome → Type 0) → Type 0
  Returns none P = ⊥
  Returns (some (m, o)) P = P m o

  abbrev pub KeepsValid : Option (RetentionMemory D G × Outcome) → Type 0
  KeepsValid r = Returns r (λ m _. IsValid m)

module _ {D G : Type 0} ⦃p : Platform D G⦄ where
  pub retention_failed_keeps :
      (m : RetentionMemory D G) (line : Line) (config : BankConfig D)
      → ((retention_failed m line config).1.valid ≡ line.valid)
        × ((retention_failed m line config).1.logical_line ≡ line.logical_line)
        × ((retention_failed m line config).1.value ≡ line.value)
  unfolding retention_failed
  retention_failed_keeps m line config = ground arith

  -- The memory after `observe`.
  abbrev pub observed : RetentionMemory D G → Location → Line → RetentionMemory D G
  observed m l line =
      let checked = retention_failed m line (at l.retention_class m.banks).config in
      record m { banks = store_line m.banks l checked.1; rng = checked.2 }

  pub observe-some :
      (m : RetentionMemory D G) (l : Location) (line : Line)
      → line_at m.banks l ≡ some line
      → observe m l
        ≡ some (
          (retention_failed m line (at l.retention_class m.banks).config).0,
          (retention_failed m line (at l.retention_class m.banks).config).1,
          observed m l line,
        )
  unfolding observe
  observe-some m l line h = ground arith

  pub observed-IsValid :
      (m : RetentionMemory D G) (l : Location) (line : Line)
      → IsValid m
      → line_at m.banks l ≡ some line
      → IsValid (observed m l line)
  observed-IsValid m l line v h =
      let keeps = retention_failed_keeps m line (at l.retention_class m.banks).config in
      record {
        consistent = update-IsConsistent v.consistent l line _ h keeps.0 keeps.1;
        clock = v.clock;
      }

  pub expire-IsValid :
      (m : RetentionMemory D G) (a : ℕ) (l : Location) (message : _)
      → IsValid m
      → lookup a m.directory ≡ some l
      → KeepsValid (expire m a l message)
  unfolding expire
  expire-IsValid m a l message v h =
      let (line, found, valid, logical) = v.consistent.indexed a l h in
      rw (release-some m.banks l found)
        (record { consistent = drop-IsConsistent v.consistent a l h; clock = v.clock })

  -- `IsValid` looks at the directory, the banks and the clock alone.
  pub relabel-IsValid :
      (m n : RetentionMemory D G)
      → IsValid m
      → n.directory ≡ m.directory
      → n.banks ≡ m.banks
      → n.now < u64_mod
      → IsValid n
  relabel-IsValid m n v d b t = record { consistent = rw (d, b) v.consistent; clock = t }

  read_located-IsValid :
      (m : RetentionMemory D G) (a : ℕ) (l : Location)
      → IsValid m
      → lookup a m.directory ≡ some l
      → KeepsValid (read_located m a l)
  unfolding read_located
  read_located-IsValid m a l v h =
      let (line, found, valid, logical) = v.consistent.indexed a l h in
      let v' = observed-IsValid m l line v found in
      let config = (at l.retention_class m.banks).config in
      rw (observe-some m l line found) (elim (Bool-cases (retention_failed m line config).0) [
        | inl failed ↦ rw failed (
            expire-IsValid (count_miss (observed m l line)) a l _
              (record { consistent = v'.consistent; clock = v'.clock }) h)
        | inr safe ↦
            rw safe
              (record { consistent = v'.consistent; clock = add64-lt m.now config.read_cycles })
      ])

  pub read-IsValid :
      (m : RetentionMemory D G) (byte_address : ℕ) → IsValid m → KeepsValid (read m byte_address)
  unfolding read
  read-IsValid m byte_address v =
      elim (Option-cases (lookup (logical_line byte_address) m.directory)) [
        | inl missing ↦ rw (missing, read) (record { consistent = v.consistent; clock = v.clock })
        | inr (l, found) ↦
            rw (found, read)
              (read_located-IsValid _ _ l (record { consistent = v.consistent; clock = v.clock })
                found)
      ]

  refresh_located-IsValid :
      (m : RetentionMemory D G) (a : ℕ) (l : Location)
      → IsValid m
      → lookup a m.directory ≡ some l
      → KeepsValid (refresh_located m a l)
  unfolding refresh_located
  refresh_located-IsValid m a l v h =
      let (line, found, valid, logical) = v.consistent.indexed a l h in
      let v' = observed-IsValid m l line v found in
      let config = (at l.retention_class m.banks).config in
      let latency = add64 config.read_cycles config.write_cycles in
      let checked = (retention_failed m line config).1 in
      rw (observe-some m l line found) (elim (Bool-cases (retention_failed m line config).0) [
        | inl failed ↦ rw failed (expire-IsValid (observed m l line) a l _ v' h)
        | inr safe ↦ rw safe (record {
          consistent =
              update-IsConsistent v'.consistent l checked _
                (line_at-store_line_self m.banks l checked found) refl refl;
          clock = add64-lt m.now latency;
        })
      ])

  pub refresh-IsValid :
      (m : RetentionMemory D G) (byte_address : ℕ) → IsValid m → KeepsValid (refresh m byte_address)
  unfolding refresh
  refresh-IsValid m byte_address v =
      elim (Option-cases (lookup (logical_line byte_address) m.directory)) [
        | inl missing ↦ rw (missing, refresh) v
        | inr (l, found) ↦ rw (found, refresh) (refresh_located-IsValid m _ l v found)
      ]

  pub invalidate-IsValid :
      (m : RetentionMemory D G) (byte_address : ℕ)
      → IsValid m
      → KeepsValid (invalidate m byte_address)
  unfolding invalidate
  invalidate-IsValid m byte_address v =
      elim (Option-cases (lookup (logical_line byte_address) m.directory)) [
        | inl missing ↦ rw (missing, invalidate) v
        | inr (l, found) ↦
            let (line, stored, valid, logical) = v.consistent.indexed _ l found in
            rw (found, release-some m.banks l stored, invalidate)
              (record { consistent = drop-IsConsistent v.consistent _ l found; clock = v.clock })
      ]

  pub advance-IsValid :
      (m : RetentionMemory D G) (cycles : ℕ) → IsValid m → IsValid (advance m cycles)
  unfolding advance
  advance-IsValid m cycles v = record { consistent = v.consistent; clock = add64-lt m.now cycles }
