-- ===== src/Sharding/Verify/Tests.antt =====
-- The verification after a backfill, and after a write to both topologies between the two.
use e_cat.Prelude.{String, Bool, ◌≡◌, ◌⊎◌, ◌≡◌, refl, true, false, [], ◌∷◌, All, arith}
use e_cat.Prelude.Exec.{after, ◌>>=◌, pure, raise}
use e_cat.Prelude.Result.{Result, ok, err}
use e_cat.Sharding.Error.{ShardError, config}
use e_cat.Sharding.Catalog.{shard_for, check_algorithm, index_in, stable_hash64, fnv1a64, fnv_from}
use e_cat.Sharding.Backfill.{
  Row, World, Failure, failed, upsert_in, ensure_job, load_job, reads, writes, asks_lock,
  scan_chunk, upsert_row, routes_to, row_checksum, save_job,
}
use e_cat.Sharding.Backfill.Copy.{backfill_move, resume, copy_chunks, check_fence, copy_rows}
use e_cat.Sharding.Backfill.Runs.{run}
use e_cat.Sharding.Backfill.Tests.{migrator, move, user, world, all_answered}
use e_cat.Sharding.Verify.{
  grouped, verify, all_settled, job_stats, tally_rows, row_in_any_scope, scan_stats,
  scan_move_stats, scan_target_stats, load_jobs, scan_sources, save_verified, check_group,
  verify_group,
}
use e_cat.Sharding.Verify.Groups.{GroupPassed, verify_agrees}
use e_cat.Sharding.Verify.Agree.{SourcesOk, Scannable}

-- After the backfill, with answers again.
abbrev copied : World
copied = record (run migrator move 6 all_answered world).1 { answers = all_answered }

-- User 2 with another JSON text, in both tables.
abbrev changed : Row
changed = record (user 2) { bytes = 9 ∷ [] }

abbrev updated : World
updated = record copied { rows = λ shard table. upsert_in changed (copied.rows shard table) }

abbrev verified_group : World → Result Failure (Unit {0}) × World
verified_group w = verify_group migrator 6 "users" "s1" (move ∷ []) w

passes : (verified_group copied).0 ≡ ok tt
unfolding backfill_move ensure_job load_job reads writes resume copy_chunks check_fence asks_lock
    scan_chunk copy_rows upsert_row routes_to shard_for check_algorithm index_in stable_hash64
    fnv1a64 fnv_from row_checksum save_job ◌>>=◌ after pure raise verify_group load_jobs all_settled
    check_group scan_sources scan_move_stats scan_target_stats scan_stats tally_rows
    row_in_any_scope job_stats save_verified
passes = refl

-- A row that was copied is updated on both sides, as a dual write does: the source and the target agree,
-- but the job has counted the old row.
not_verified_again : (verified_group updated).0 ≡ err (failed config)
unfolding backfill_move ensure_job load_job reads writes resume copy_chunks check_fence asks_lock
    scan_chunk copy_rows upsert_row routes_to shard_for check_algorithm index_in stable_hash64
    fnv1a64 fnv_from row_checksum save_job ◌>>=◌ after pure raise verify_group load_jobs all_settled
    check_group scan_sources scan_move_stats scan_target_stats scan_stats tally_rows
    row_in_any_scope job_stats save_verified
not_verified_again = refl

-- Nor does another backfill count it again.
still_not_verified :
    (verified_group
      (record (run migrator move 6 all_answered updated).1 { answers = all_answered })).0
    ≡ err (failed config)
unfolding backfill_move ensure_job load_job reads writes resume copy_chunks check_fence asks_lock
    scan_chunk copy_rows upsert_row routes_to shard_for check_algorithm index_in stable_hash64
    fnv1a64 fnv_from row_checksum save_job ◌>>=◌ after pure raise verify_group load_jobs all_settled
    check_group scan_sources scan_move_stats scan_target_stats scan_stats tally_rows
    row_in_any_scope job_stats save_verified
still_not_verified = refl

sources_ok : SourcesOk migrator 6 copied.rows (move ∷ [])
unfolding backfill_move ensure_job load_job reads writes resume copy_chunks check_fence asks_lock
    scan_chunk copy_rows upsert_row routes_to shard_for check_algorithm index_in stable_hash64
    fnv1a64 fnv_from row_checksum save_job ◌>>=◌ after pure raise verify_group load_jobs all_settled
    check_group scan_sources scan_move_stats scan_target_stats scan_stats tally_rows
    row_in_any_scope job_stats save_verified
sources_ok = (
  (
    (
      (refl, (refl, (refl, (refl, tt)))),
      ((refl, (refl, (refl, tt))), ((refl, (refl, tt)), ((refl, tt), (tt, tt)))),
    ),
    omega arith,
  ),
  tt,
)

target_ok : Scannable migrator 6 (copied.rows "s1" "users")
unfolding backfill_move ensure_job load_job reads writes resume copy_chunks check_fence asks_lock
    scan_chunk copy_rows upsert_row routes_to shard_for check_algorithm index_in stable_hash64
    fnv1a64 fnv_from row_checksum save_job ◌>>=◌ after pure raise verify_group load_jobs all_settled
    check_group scan_sources scan_move_stats scan_target_stats scan_stats tally_rows
    row_in_any_scope job_stats save_verified
target_ok = (((refl, tt), (tt, tt)), omega arith)

abbrev no_binary : String → String → Result ShardError Bool
no_binary shard table = ok false

abbrev in_order : String × String → String × String → Bool
in_order a b = true

verify_agrees_example :
    ((e : ShardError) × ((verify migrator no_binary
          ("s0" ∷ "s1" ∷ [])
          in_order
          6
          (move ∷ [])
          copied).0
        ≡ err (failed e)))
    ⊎ (((verify migrator no_binary ("s0" ∷ "s1" ∷ []) in_order 6 (move ∷ []) copied).0 ≡ ok tt)
        × All
            (GroupPassed migrator (omega arith) copied.rows copied.jobs 6)
            (grouped migrator in_order (move ∷ []) []))
verify_agrees_example =
    verify_agrees migrator copied 6 no_binary ("s0" ∷ "s1" ∷ []) in_order (move ∷ []) (omega arith)
      ((sources_ok, target_ok), tt)
