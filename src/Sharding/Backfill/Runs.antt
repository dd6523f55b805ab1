-- ===== src/Sharding/Backfill/Runs.antt =====
-- ecat-data-sharding/src/migrate/backfill.rs: runs of the backfill of a move, one after another, each
-- of which may be cut off anywhere.
use e_cat.Prelude.{ℕ, ◌<◌, ◌≡◌, ◌≢◌, refl, false, Option, none, some, List, [], ◌∷◌, length, arith}
use text.Mathlib.Text.{◌==◌ as str_eq}
use e_cat.Prelude.Result.{Result, ok, err}
use e_cat.Sharding.Plan.{ShardMove}
use e_cat.Sharding.Migrate.{JobState, Answer, find_job}
use e_cat.Sharding.Backfill.{
  Table, World, Failure, failed, out_of_fuel, MigrationReport, Migrator, insert_job, load_job,
  or_vanished, or_insert, ensure_job,
}
use e_cat.Sharding.Backfill.Copy.{backfill_move}
use e_cat.Sharding.Backfill.Rows.{IsSorted}
use e_cat.Sharding.Backfill.Rule.{
  Pred, Ends, Meets, chain, pure-Meets, raise-Meets, reads-Meets, writes-Meets,
}
use e_cat.Sharding.Backfill.Copied.{target, Copied, Counts, chosen, Inv, Inv-insert}
use e_cat.Sharding.Backfill.Loop.{Finished}
use e_cat.Sharding.Backfill.Resume.{resume-Meets}

module _ (m : Migrator) (mv : ShardMove) (source : Table) where
  -- With the stored job.
  abbrev At : Option JobState → Pred
  At o rows jobs = Inv m mv source rows jobs × (find_job (m.move_id mv) jobs ≡ o)

  load-Meets : Meets (Inv m mv source) (load_job m mv) At (Inv m mv source)
  unfolding load_job
  load-Meets = reads-Meets (λ w. find_job (m.move_id mv) w.jobs) (λ w h. ((h, refl), h))

  or_vanished-Meets :
      (o : Option JobState)
      → Meets (At o) (or_vanished m o) (λ job. At (some job)) (Inv m mv source)
  or_vanished-Meets none = raise-Meets _ (λ rows jobs h. h.0)
  or_vanished-Meets (some job) = pure-Meets job (λ rows jobs h. h)

  or_insert-Meets :
      (o : Option JobState)
      → Meets (At o) (or_insert m mv o) (λ job. At (some job)) (Inv m mv source)
  or_insert-Meets (some job) = pure-Meets job (λ rows jobs h. h)
  or_insert-Meets none =
      chain
        (writes-Meets
          (λ w. record w {
            jobs = insert_job (m.move_id mv) (find_job (m.move_id mv) w.jobs) w.jobs;
          })
          (λ w h. let kept = Inv-insert m mv source w.rows w.jobs h.0 in (kept, kept, h.0)))
        (λ _. chain load-Meets or_vanished-Meets)

  ensure-Meets : Meets (Inv m mv source) (ensure_job m mv) (λ job. At (some job)) (Inv m mv source)
  unfolding ensure_job
  ensure-Meets = chain load-Meets or_insert-Meets

  module _ (sorted : IsSorted (chosen m mv source)) (apart : str_eq mv.from mv.to ≡ false)
      (chunky : 0 < m.chunk_size) (reread : (pk : ℕ) → m.decode (m.encode pk) ≡ some pk) (fuel : ℕ)
      (enough : length (chosen m mv source) < fuel) where
    move-Meets :
        (report : MigrationReport)
        → Meets
            (Inv m mv source)
            (backfill_move m fuel mv report)
            (λ _. Finished m mv source sorted apart)
            (Inv m mv source)
    unfolding backfill_move
    move-Meets report =
        chain ensure-Meets
          (λ job. resume-Meets m mv source sorted apart chunky reread fuel enough job report)

abbrev pub no_report : MigrationReport
no_report = record { moved_rows = 0; chunks = 0 }

module _ (m : Migrator) (mv : ShardMove) (fuel : ℕ) where
  abbrev pub run : List Answer → World → Result Failure MigrationReport × World
  run answers w = backfill_move m fuel mv no_report (record w { answers = answers })

  -- One run after another, each with its own answers.
  unfoldable pub runs : List (List Answer) → World → World
  unfolding backfill_move
  runs [] w = w
  runs (answers ∷ rest) w = runs rest (run answers w).1

  module _ (w : World) where
    abbrev pub given : Table
    given = w.rows mv.from mv.table

    module _ (sorted : IsSorted (chosen m mv given)) (apart : str_eq mv.from mv.to ≡ false)
        (chunky : 0 < m.chunk_size) (reread : (pk : ℕ) → m.decode (m.encode pk) ≡ some pk)
        (enough : length (chosen m mv given) < fuel)
        (new : find_job (m.move_id mv) w.jobs ≡ none) where
      abbrev Kept : World → Type 0
      Kept v = Inv m mv given v.rows v.jobs

      kept_after :
          (r : Result Failure MigrationReport × World)
          → Ends (λ _. Finished m mv given sorted apart) (Inv m mv given) r
          → Kept r.1
      kept_after (ok a, v) h = h.0
      kept_after (err (failed e), v) h = h
      kept_after (err out_of_fuel, v) h = absurd h

      run-Ends :
          (answers : List Answer) (v : World)
          → Kept v
          → Ends (λ _. Finished m mv given sorted apart) (Inv m mv given) (run answers v)
      run-Ends answers v h =
          (move-Meets m mv given sorted apart chunky reread fuel enough no_report).at
            (record v { answers = answers }) h

      runs-Kept : (all : List (List Answer)) (v : World) → Kept v → Kept (runs all v)
      unfolding runs
      runs-Kept [] v h = h
      runs-Kept (answers ∷ rest) v h =
          runs-Kept rest (run answers v).1 (kept_after (run answers v) (run-Ends answers v h))

      at_first : Kept w
      at_first = (refl, λ job e. absurd (ground (arith, new)))

      -- After any runs, each cut off or refused anywhere, a run that returns Ok leaves every row that
      -- the move takes in the target as it is in the source, and the stored job has the number of these
      -- rows and the XOR of their checksums. The source has its rows in order of the primary key and
      -- does not change, it is another shard than the target, no job was there at first, and nothing else
      -- writes to the target. A chunk has a row at least, the text of a primary key is read back as that
      -- key, and the fuel is more than the rows that the move's range selects.
      pub backfill_copies :
          (before : List (List Answer)) (answers : List Answer) (report : MigrationReport)
          → (run answers (runs before w)).0 ≡ ok report
          → Copied m mv (chosen m mv given) (target m mv (run answers (runs before w)).1.rows)
            × ((job : JobState) × (find_job (m.move_id mv) (run answers (runs before w)).1.jobs
                  ≡ some job)
                × Counts m mv (chosen m mv given) job)
      backfill_copies before answers report e =
          finished (run answers (runs before w))
            (run-Ends answers (runs before w) (runs-Kept before w at_first)) e
        where
          finished :
              (r : Result Failure MigrationReport × World)
              → Ends (λ _. Finished m mv given sorted apart) (Inv m mv given) r
              → r.0 ≡ ok report
              → Copied m mv (chosen m mv given) (target m mv r.1.rows)
                × ((job : JobState) × (find_job (m.move_id mv) r.1.jobs ≡ some job)
                    × Counts m mv (chosen m mv given) job)
          finished (ok a, v) h e = (h.1, h.2)
          finished (err x, v) h e = absurd (ground arith)

      -- No run, whatever was answered before and in it, runs out of the fuel of the loop over the chunks,
      -- if that is more than the rows that the move's range selects, and on the other conditions of
      -- `backfill_copies`.
      pub backfill_move_ends :
          (before : List (List Answer)) (answers : List Answer)
          → (run answers (runs before w)).0 ≢ err out_of_fuel
      backfill_move_ends before answers e =
          stuck (run answers (runs before w))
            (run-Ends answers (runs before w) (runs-Kept before w at_first)) e
        where
          stuck :
              (r : Result Failure MigrationReport × World)
              → Ends (λ _. Finished m mv given sorted apart) (Inv m mv given) r
              → r.0 ≡ err out_of_fuel
              → ⊥
          stuck (ok a, v) h e = ground arith
          stuck (err (failed x), v) h e = ground arith
          stuck (err out_of_fuel, v) h e = h
