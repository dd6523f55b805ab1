-- ===== src/Sharding/Verify/Groups.antt =====
-- ecat-data-sharding/src/migrate/verify.rs: all groups of a migration, one after another.
use e_cat.Prelude.{ℕ, ◌<◌, String, ◌≡◌, refl, ◌⊎◌, inl, inr, Bool, true, some, List, [], ◌∷◌, All}
use e_cat.Prelude.Result.{Result, ok, err}
use e_cat.Sharding.Error.{ShardError}
use e_cat.Sharding.Plan.{ShardMove}
use e_cat.Sharding.Migrate.{JobState, Jobs, preflight_schema}
use e_cat.Sharding.Backfill.{Table, World, Failure, failed, out_of_fuel, Migrator}
use e_cat.Sharding.Backfill.Rule.{Pred, Ends, Meets, chain, pure-Meets, lifted-Meets, adapt}
use e_cat.Sharding.Backfill.Loop.{known}
use e_cat.Sharding.Verify.{all_settled, Groups, grouped, verify_group, verify_groups, verify}
use e_cat.Sharding.Verify.Trace.{jobs_of, Traced, first-Traced}
use e_cat.Sharding.Verify.Agree.{SourcesOk, Scannable, Agreed, group-Meets}

module _ (m : Migrator) (chunky : 0 < m.chunk_size) (rows₀ : String → String → Table) (first : Jobs)
    (fuel : ℕ) where
  abbrev pub GroupOk : (String × String) × List ShardMove → Type 0
  GroupOk ((table, shard), moves) =
      SourcesOk m fuel rows₀ moves × Scannable m fuel (rows₀ shard table)

  -- All jobs of the group were settled at first, or had the numbers of the sources and the target.
  abbrev pub GroupPassed : (String × String) × List ShardMove → Type 0
  GroupPassed ((table, shard), moves) =
      (js : List JobState) × (jobs_of m moves first ≡ some js)
      × ((all_settled js ≡ true) ⊎ Agreed m rows₀ table shard moves js)

  abbrev Here : Pred
  Here rows jobs = (rows ≡ rows₀) × Traced m first jobs

  here-Meets :
      (table shard : String) (moves : List ShardMove)
      → GroupOk ((table, shard), moves)
      → Meets Here
          (verify_group m fuel table shard moves)
          (λ _ rows jobs. Here rows jobs × GroupPassed ((table, shard), moves))
          (λ _ _. Unit)
  here-Meets table shard moves good = record {
    at = λ w h.
        (adapt {Q' = λ _ rows jobs. Here rows jobs × GroupPassed ((table, shard), moves)}
            (λ u rows jobs p. ((p.0, p.1), p.2))
            (group-Meets m chunky rows₀ w.jobs fuel first h.1 table shard moves good.0 good.1)).at
          w (h.0, refl);
  }

  groups-Meets :
      (groups : Groups m)
      → All GroupOk groups
      → Meets Here
          (verify_groups m fuel groups)
          (λ _ rows jobs. Here rows jobs × All GroupPassed groups)
          (λ _ _. Unit)
  unfolding verify_groups
  groups-Meets [] good = pure-Meets tt (λ rows jobs h. (h, tt))
  groups-Meets (((table, shard), moves) ∷ rest) good =
      chain (here-Meets table shard moves good.0) (λ _.
        known (λ passed. adapt (λ u rows jobs h. (h.0, (passed, h.1))) (groups-Meets rest good.1)))

-- A verify either returns an error of the crate, or returns Ok and has found the jobs of every group of
-- moves; in the second case, where not all jobs of a group were done or rolled back, the whole sources, the
-- jobs and the rows of the whole target that are in the scope of one of the moves had the same number of
-- rows and the same XOR. It does not run out of fuel, whatever is answered. The tables have their rows in
-- order of the primary key, a chunk has a row at least, and the fuel is more than each table has.
pub verify_agrees :
    (m : Migrator) (w : World) (fuel : ℕ) (binary_column : String → String → Result ShardError Bool)
    (clients : List String) (before : String × String → String × String → Bool)
    (moves : List ShardMove) (chunky : 0 < m.chunk_size)
    → All (GroupOk m chunky w.rows w.jobs fuel) (grouped m before moves [])
    → ((e : ShardError) × ((verify m binary_column clients before fuel moves w).0 ≡ err (failed e)))
      ⊎ (((verify m binary_column clients before fuel moves w).0 ≡ ok tt)
          × All (GroupPassed m chunky w.rows w.jobs fuel) (grouped m before moves []))
unfolding verify
verify_agrees m w fuel binary_column clients before moves chunky good =
    result (verify m binary_column clients before fuel moves w) (
      (chain
          (lifted-Meets {P = Here m chunky w.rows w.jobs fuel}
            (preflight_schema binary_column clients moves) (λ u rows jobs e h. h)
            (λ rows jobs h. tt))
          (λ _. groups-Meets m chunky w.rows w.jobs fuel (grouped m before moves []) good)).at
        w (refl, first-Traced m w.jobs))
  where
    result :
        (r : Result Failure (Unit {0}) × World)
        → Ends
            (λ _ rows jobs.
              Here m chunky w.rows w.jobs fuel rows jobs
              × All (GroupPassed m chunky w.rows w.jobs fuel) (grouped m before moves []))
            (λ _ _. Unit)
            r
        → ((e : ShardError) × (r.0 ≡ err (failed e)))
          ⊎ ((r.0 ≡ ok tt)
              × All (GroupPassed m chunky w.rows w.jobs fuel) (grouped m before moves []))
    result (ok tt, v) h = inr (refl, h.1)
    result (err (failed x), v) h = inl (x, refl)
    result (err out_of_fuel, v) h = absurd h
