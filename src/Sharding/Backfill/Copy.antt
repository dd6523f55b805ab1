-- ===== src/Sharding/Backfill/Copy.antt =====
-- ecat-data-sharding/src/migrate/backfill.rs: the loop over the chunks of a move, and the runs.
use e_cat.Prelude.{
  ℕ, zero, suc, ◌+◌, ◌^◌, ltb, String, Bool, true, false, Option, none, some, List, [], ◌∷◌,
  if◌then◌else◌,
}
use Prim.Native.Nat.{bit_xor}
use e_cat.Prelude.Result.{Result, ok, err, ◌>>=◌ as and_then}
use e_cat.Prelude.Exec.{◌>>=◌, ◌>>◌, pure, raise}
use e_cat.Sharding.Error.{ShardError, config, database}
use e_cat.Sharding.Catalog.{find_table, or_unknown}
use e_cat.Sharding.Plan.{ShardMove}
use e_cat.Sharding.Migrate.{backfilling, JobState, preflight_schema}
use e_cat.Sharding.Backfill.{
  Migrator, Row, Failure, M, lifted, reads, asks_lock, MigrationReport, row_checksum, last_pk,
  is_settled, is_rolled_back, saturated, save_job, ensure_job, scan_chunk, routes_to, upsert_row,
  failed, out_of_fuel,
}

module _ (m : Migrator) where
  -- `job.rows` and `job.checksum` after one more row, and the rows of the chunk.
  abbrev pub count_row : Row → JobState × ℕ → Result ShardError (JobState × ℕ)
  count_row row (job, copied) =
      if ltb (suc job.rows) (2 ^ 64)
      then and_then (row_checksum row) (λ sum.
        ok (record job { rows = suc job.rows; checksum = bit_xor job.checksum sum }, suc copied))
      else err database

  abbrev pub copy_row : ShardMove → Row → JobState × ℕ → Bool → M (JobState × ℕ)
  copy_row mv row st false = pure st
  copy_row mv row st true = upsert_row m mv row >> lifted (count_row row st)

  unfoldable pub copy_rows : ShardMove → List Row → JobState × ℕ → M (JobState × ℕ)
  unfolding upsert_row routes_to row_checksum ◌>>=◌ pure raise
  copy_rows mv [] st = pure st
  copy_rows mv (row ∷ rest) st = do
    routed ← lifted (routes_to m mv row)
    st' ← copy_row mv row st routed
    copy_rows mv rest st'

  -- `renew` of the lock, if there is one.
  unfoldable pub check_fence : M (Unit {0})
  unfolding asks_lock pure
  check_fence = if m.fenced then asks_lock else pure tt

  abbrev pub at_cursor : ℕ → JobState → JobState
  at_cursor pk job = record job { cursor = some (m.encode pk); phase = backfilling }

  abbrev pub count_chunk : ℕ → MigrationReport → MigrationReport
  count_chunk copied r = record r {
    moved_rows = saturated (r.moved_rows + copied);
    chunks = suc r.chunks;
  }

  abbrev pub by_last :
      (JobState → ℕ → MigrationReport → M MigrationReport)
      → ShardMove
      → List Row
      → JobState
      → MigrationReport
      → Option ℕ
      → M MigrationReport
  by_last again mv batch job report none = pure report
  by_last again mv batch job report (some pk) = do
    st ← copy_rows mv batch (job, 0)
    let job' = at_cursor pk st.0
    save_job m mv job'
    again job' pk (count_chunk st.1 report)

  unfoldable pub copy_chunks :
      ℕ → ShardMove → JobState → Option ℕ → MigrationReport → M MigrationReport
  unfolding check_fence scan_chunk copy_rows save_job ◌>>=◌ pure raise
  copy_chunks zero mv job cursor report = raise out_of_fuel
  copy_chunks (suc fuel) mv job cursor report = do
    check_fence
    batch ← scan_chunk m mv.from mv.table mv.key_range cursor
    by_last (λ job' pk r. copy_chunks fuel mv job' (some pk) r) mv batch job report (last_pk batch)

  abbrev pub parse_cursor : Option String → Result ShardError (Option ℕ)
  parse_cursor none = ok none
  parse_cursor (some text) = elim (m.decode text) [ none ↦ err database | some pk ↦ ok (some pk) ]

  abbrev pub known_table : ShardMove → M (Unit {0})
  known_table mv =
      lifted (and_then (or_unknown mv.table (find_table m.catalog mv.table)) (λ t. ok tt))

  abbrev pub restart : ShardMove → JobState → M JobState
  restart mv job =
      if is_rolled_back job.phase
      then save_job m mv (record job { phase = backfilling })
        >> pure (record job { phase = backfilling })
      else pure job

  unfoldable pub resume : ℕ → ShardMove → MigrationReport → JobState → M MigrationReport
  unfolding copy_chunks save_job ◌>>=◌ pure raise
  resume fuel mv report job = if is_settled job.phase then pure report else (do
    job' ← restart mv job
    known_table mv
    cursor ← lifted (parse_cursor job'.cursor)
    copy_chunks fuel mv job' cursor report)

  unfoldable pub backfill_move : ℕ → ShardMove → MigrationReport → M MigrationReport
  unfolding ensure_job resume ◌>>=◌
  backfill_move fuel mv report = do job ← ensure_job m mv; resume fuel mv report job

  unfoldable pub run_backfill : ℕ → List ShardMove → MigrationReport → M MigrationReport
  unfolding backfill_move ◌>>=◌ pure
  run_backfill fuel [] report = pure report
  run_backfill fuel (mv ∷ rest) report = do
    report' ← backfill_move fuel mv report
    run_backfill fuel rest report'

  unfoldable pub acquire_fence : M (Unit {0})
  unfolding asks_lock ◌>>=◌ pure raise
  acquire_fence =
      if m.fenced then asks_lock >> (if m.held then raise (failed config) else pure tt) else pure tt

  unfoldable pub release_fence : M (Unit {0})
  unfolding asks_lock pure
  release_fence = if m.fenced then asks_lock else pure tt

  -- What an action comes to, as a value.
  abbrev pub outcome : {A : Type 0} → M A → M (Result Failure A)
  outcome action w = let r = action w in (ok r.0, r.1)

  abbrev pub propagated : {A : Type 0} → Result Failure A → M A
  propagated result w = (result, w)

  -- `ensure_schema` is a request.
  unfoldable pub backfill :
      (String → String → Result ShardError Bool)
      → List String
      → ℕ
      → List ShardMove
      → M MigrationReport
  unfolding preflight_schema reads acquire_fence release_fence run_backfill ◌>>=◌
  backfill binary_column clients fuel moves = do
    lifted (preflight_schema binary_column clients moves)
    reads (λ w. tt)
    acquire_fence
    result ← outcome (run_backfill fuel moves (record { moved_rows = 0; chunks = 0 }))
    released ← outcome release_fence
    report ← propagated result
    propagated released
    propagated (ok report)
