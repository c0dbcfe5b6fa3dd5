-- ===== src/RetentionModel/Memory.antt =====
-- sim/retention_model.cpp: the operations of `RetentionMemory`. `none` is an exception that a
-- bounds-checked access (`lines.at`) throws.
use programmable_retention_t.Prelude.{
  ℕ, false, Option, none, some, if◌then◌else◌, ◌>>=◌, add64, lookup, insert, erase, RetentionClass,
  same_class, PerClass, at,
}
use programmable_retention_t.RetentionModel.Types.{
  Platform, Outcome, Bank, Location, RetentionMemory, fresh_line, logical_line,
}
use programmable_retention_t.RetentionModel.Banks.{
  missing_result, done, line_at, store_line, allocate_slot, release, expire, observe,
}

module _ {D G : Type 0} ⦃p : Platform D G⦄ where
  abbrev pub target_slot : RetentionMemory D G → Option Location → RetentionClass → Option ℕ
  target_slot m none requested = allocate_slot m.banks requested
  target_slot m (some location) requested =
      if same_class location.retention_class requested
      then some location.slot
      else allocate_slot m.banks requested

  -- The old slot is given up when the write moves the line to another class.
  abbrev pub release_other :
      RetentionMemory D G → Option Location → RetentionClass → Option (PerClass (Bank D))
  release_other m none requested = some m.banks
  release_other m (some location) requested =
      if same_class location.retention_class requested
      then some m.banks
      else release m.banks location

  abbrev pub full : RetentionMemory D G → RetentionMemory D G × Outcome
  full m = (
    record m { stats = record m.stats { capacity_failures = add64 m.stats.capacity_failures 1 } },
    missing_result "destination bank is full" false,
  )

  -- The tail of `write`, once a slot is chosen.
  unfoldable pub write_slot :
      RetentionMemory D G → ℕ → RetentionClass → ℕ → ℕ → Option (RetentionMemory D G × Outcome)
  unfolding line_at store_line release done
  write_slot m line_address requested value slot = do
    banks ← release_other m (lookup line_address m.directory) requested
    let config = (at requested banks).config
    let now = add64 m.now config.write_cycles
    let location : Location = record { retention_class = requested; slot = slot }
    _ ← line_at banks location
    some (
      record m {
        banks = store_line banks location (fresh_line line_address value now);
        directory = insert line_address location m.directory;
        now = now;
        stats = record m.stats {
          writes = add64 m.stats.writes 1;
          energy_pj = p.add m.stats.energy_pj config.write_energy_pj;
        };
      },
      done value config.write_cycles "write complete",
    )

  unfoldable pub write :
      RetentionMemory D G → ℕ → RetentionClass → ℕ → Option (RetentionMemory D G × Outcome)
  unfolding write_slot missing_result allocate_slot
  write m byte_address requested value =
      let line_address = logical_line byte_address in
      elim (target_slot m (lookup line_address m.directory) requested) [
        | none ↦ some (full m)
        | some slot ↦ write_slot m line_address requested value slot
      ]

  abbrev pub count_miss : RetentionMemory D G → RetentionMemory D G
  count_miss m = record m { stats = record m.stats { read_misses = add64 m.stats.read_misses 1 } }

  -- The part of `read` behind the directory.
  unfoldable pub read_located :
      RetentionMemory D G → ℕ → Location → Option (RetentionMemory D G × Outcome)
  unfolding observe expire done
  read_located m line_address location = do
    (failed, line, m') ← observe m location
    let config = (at location.retention_class m.banks).config
    if failed
        then expire (count_miss m') line_address location "retention deadline exceeded"
        else some (
          record m' {
            now = add64 m'.now config.read_cycles;
            stats = record m'.stats {
              read_hits = add64 m'.stats.read_hits 1;
              energy_pj = p.add m'.stats.energy_pj config.read_energy_pj;
            };
          },
          done line.value config.read_cycles "read hit",
        )

  unfoldable pub read : RetentionMemory D G → ℕ → Option (RetentionMemory D G × Outcome)
  unfolding read_located missing_result
  read m byte_address =
      let line_address = logical_line byte_address in
      let m' = record m { stats = record m.stats { reads = add64 m.stats.reads 1 } } in
      elim (lookup line_address m.directory) [
        | none ↦ some (count_miss m', missing_result "line is not allocated" false)
        | some location ↦ read_located m' line_address location
      ]

  unfoldable pub refresh_located :
      RetentionMemory D G → ℕ → Location → Option (RetentionMemory D G × Outcome)
  unfolding observe expire done store_line
  refresh_located m line_address location = do
    (failed, line, m') ← observe m location
    let config = (at location.retention_class m.banks).config
    let latency = add64 config.read_cycles config.write_cycles
    let now = add64 m'.now latency
    if failed
        then expire m' line_address location "line expired before refresh"
        else some (
          record m' {
            banks =
                store_line m'.banks location
                  (record line { last_write_cycle = now; last_retention_check = now });
            now = now;
            stats = record m'.stats {
              refreshes = add64 m'.stats.refreshes 1;
              energy_pj =
                  p.add m'.stats.energy_pj (p.add config.read_energy_pj config.write_energy_pj);
            };
          },
          done line.value latency "refresh complete",
        )

  unfoldable pub refresh : RetentionMemory D G → ℕ → Option (RetentionMemory D G × Outcome)
  unfolding refresh_located missing_result
  refresh m byte_address =
      let line_address = logical_line byte_address in
      elim (lookup line_address m.directory) [
        | none ↦ some (m, missing_result "cannot refresh an unallocated line" false)
        | some location ↦ refresh_located m line_address location
      ]

  -- The tail of `migrate`: the copy into the slot that was found.
  unfoldable pub move_line :
      RetentionMemory D G → ℕ → Location → ℕ → Location → Option (RetentionMemory D G × Outcome)
  unfolding line_at store_line release done
  move_line m line_address source value destination = do
    let source_config = (at source.retention_class m.banks).config
    let destination_config = (at destination.retention_class m.banks).config
    let latency = add64 source_config.read_cycles destination_config.write_cycles
    let now = add64 m.now latency
    _ ← line_at m.banks destination
    banks ← release (store_line m.banks destination (fresh_line line_address value now)) source
    some (
      record m {
        banks = banks;
        directory = insert line_address destination m.directory;
        now = now;
        stats = record m.stats {
          migrations = add64 m.stats.migrations 1;
          energy_pj =
              p.add m.stats.energy_pj
                (p.add source_config.read_energy_pj destination_config.write_energy_pj);
        };
      },
      done value latency "migration complete",
    )

  unfoldable pub migrate_located :
      RetentionMemory D G → ℕ → Location → RetentionClass → Option (RetentionMemory D G × Outcome)
  unfolding observe expire move_line allocate_slot missing_result
  migrate_located m line_address source destination_class = do
    (failed, line, m') ← observe m source
    if failed
        then expire m' line_address source "line expired before migration"
        else elim (allocate_slot m'.banks destination_class) [
          | none ↦ some (full m')
          | some slot ↦
              move_line m' line_address source line.value
                (record { retention_class = destination_class; slot = slot })
        ]

  unfoldable pub migrate :
      RetentionMemory D G → ℕ → RetentionClass → Option (RetentionMemory D G × Outcome)
  unfolding migrate_located missing_result
  migrate m byte_address destination_class =
      let line_address = logical_line byte_address in
      elim (lookup line_address m.directory) [
        | none ↦ some (m, missing_result "cannot migrate an unallocated line" false)
        | some source ↦
            if same_class source.retention_class destination_class
            then refresh m byte_address
            else migrate_located m line_address source destination_class
      ]

  unfoldable pub invalidate : RetentionMemory D G → ℕ → Option (RetentionMemory D G × Outcome)
  unfolding release missing_result done
  invalidate m byte_address =
      let line_address = logical_line byte_address in
      elim (lookup line_address m.directory) [
        | none ↦ some (m, missing_result "line is already invalid" false)
        | some location ↦ do
          banks ← release m.banks location
          some (
            record m {
              banks = banks;
              directory = erase line_address m.directory;
              stats = record m.stats { invalidations = add64 m.stats.invalidations 1 };
            },
            done 0 0 "line invalidated",
          )
      ]

  unfoldable pub advance : RetentionMemory D G → ℕ → RetentionMemory D G
  advance m cycles = record m { now = add64 m.now cycles }
