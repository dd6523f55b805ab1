-- ===== src/Sharding/Verify.antt =====
-- ecat-data-sharding/src/migrate/verify.rs: the rows of each move on its source and on its target are
-- counted and compared, with what the jobs have counted. Databases are those of the backfill.
pub mod Scan
pub mod Trace
pub mod Agree
pub mod Groups
mod Tests
use e_cat.Prelude.{
  ℕ, zero, suc, ◌+◌, ◌==◌, String, Bool, true, false, ◌&&◌, Option, none, some, List, [], ◌∷◌, ◌++◌,
  if◌then◌else◌,
}
use Prim.Native.Nat.{bit_xor}
use text.Mathlib.Text.{◌==◌ as str_eq}
use e_cat.Prelude.Result.{Result, ok, err, ◌>>=◌ as and_then}
use e_cat.Prelude.Int.{ℤ}
use e_cat.Prelude.Exec.{◌>>=◌, ◌>>◌, pure, raise}
use e_cat.Sharding.Error.{ShardError, config, database}
use e_cat.Sharding.Catalog.{Key, null, string, int, big, other}
use e_cat.Sharding.Plan.{KeyRange, ShardMove}
use e_cat.Sharding.Plan.Taken.{from_bound, below_bound}
use e_cat.Sharding.Migrate.{Phase, verified, done, rolled_back, JobState, preflight_schema}
use e_cat.Sharding.Backfill.{
  Row, M, failed, out_of_fuel, lifted, reads, row_checksum, last_pk, saturated, Migrator, load_job,
  save_job, scan_chunk, routes_to,
}
use e_cat.Sharding.Backfill.Copy.{known_table}

abbrev pub int_key : Option Key → Result ShardError ℤ
int_key (some (int z bytes)) = ok z
int_key _ = err database

abbrev pub settled : Phase → Bool
settled done = true
settled rolled_back = true
settled _ = false

unfoldable pub all_settled : List JobState → Bool
all_settled [] = true
all_settled (job ∷ rest) = settled job.phase && all_settled rest

-- Numbers of rows with the XOR of their checksums.
abbrev pub Stats : Type 0
Stats = ℕ × ℕ

abbrev pub joined : Stats → Stats → Stats
joined a b = (saturated (a.0 + b.0), bit_xor a.1 b.1)

unfoldable pub job_stats : List JobState → Stats → Stats
job_stats [] st = st
job_stats (job ∷ rest) st = job_stats rest (joined st (job.rows, job.checksum))

abbrev pub same_stats : Stats → Stats → Bool
same_stats a b = a.0 == b.0 && a.1 == b.1

abbrev pub compared : Stats → Stats → Result ShardError (Unit {0})
compared a b = if same_stats a b then ok tt else err config

unfoldable pub tally_rows :
    (Row → Result ShardError Bool) → List Row → Stats → Result ShardError Stats
unfolding row_checksum
tally_rows keep [] st = ok st
tally_rows keep (row ∷ rest) st = and_then (keep row) (λ b.
    if b
    then and_then (row_checksum row)
        (λ sum. tally_rows keep rest (saturated (suc st.0), bit_xor st.1 sum))
    else tally_rows keep rest st)

module _ (m : Migrator) where
  abbrev pub in_scope : ShardMove → Option KeyRange → Row → Result ShardError Bool
  in_scope mv none row = routes_to m mv row
  in_scope mv (some r) row =
      and_then (int_key row.key) (λ z. ok (from_bound r.low z && below_bound r.high z))

  unfoldable pub row_in_any_scope : List ShardMove → Row → Result ShardError Bool
  unfolding routes_to
  row_in_any_scope [] row = ok false
  row_in_any_scope (mv ∷ rest) row =
      and_then (in_scope mv mv.key_range row)
        (λ b. if b then ok true else row_in_any_scope rest row)

  abbrev pub after_batch :
      (ℕ → Stats → M Stats) → (Row → Result ShardError Bool) → List Row → Stats → Option ℕ → M Stats
  after_batch again keep batch st none = pure st
  after_batch again keep batch st (some pk) = do
    st' ← lifted (tally_rows keep batch st)
    again pk st'

  -- The loop of `scan_move_stats` and of `scan_target_stats`.
  unfoldable pub scan_stats :
      (Row → Result ShardError Bool)
      → String
      → String
      → Option KeyRange
      → ℕ
      → Option ℕ
      → Stats
      → M Stats
  unfolding scan_chunk tally_rows ◌>>=◌ pure raise
  scan_stats keep shard table range zero cursor st = raise out_of_fuel
  scan_stats keep shard table range (suc fuel) cursor st = do
    batch ← scan_chunk m shard table range cursor
    after_batch (λ pk st'. scan_stats keep shard table range fuel (some pk) st') keep batch st
        (last_pk batch)

  unfoldable pub scan_move_stats : ℕ → ShardMove → M Stats
  unfolding scan_stats routes_to
  scan_move_stats fuel mv =
      scan_stats (routes_to m mv) mv.from mv.table mv.key_range fuel none (0, 0)

  unfoldable pub scan_target_stats : ℕ → String → String → List ShardMove → M Stats
  unfolding scan_stats row_in_any_scope
  scan_target_stats fuel shard table moves =
      scan_stats (row_in_any_scope moves) shard table none fuel none (0, 0)

  abbrev pub or_no_job : Option JobState → M JobState
  or_no_job none = raise (failed config)
  or_no_job (some job) = pure job

  unfoldable pub load_jobs : List ShardMove → M (List JobState)
  unfolding load_job ◌>>=◌ pure raise
  load_jobs [] = pure []
  load_jobs (mv ∷ rest) = do
    found ← load_job m mv
    job ← or_no_job found
    jobs ← load_jobs rest
    pure (job ∷ jobs)

  unfoldable pub scan_sources : ℕ → List ShardMove → Stats → M Stats
  unfolding scan_move_stats ◌>>=◌ pure
  scan_sources fuel [] st = pure st
  scan_sources fuel (mv ∷ rest) st = do
    one ← scan_move_stats fuel mv
    scan_sources fuel rest (joined st one)

  unfoldable pub save_verified : List ShardMove → List JobState → M (Unit {0})
  unfolding save_job ◌>>=◌ pure
  save_verified (mv ∷ moves) (job ∷ jobs) = do
    save_job m mv (record job { phase = verified })
    save_verified moves jobs
  save_verified _ _ = pure tt

  unfoldable pub check_group : ℕ → String → String → List ShardMove → List JobState → M (Unit {0})
  unfolding scan_sources scan_target_stats job_stats save_verified ◌>>=◌
  check_group fuel table shard moves jobs = do
    source ← scan_sources fuel moves (0, 0)
    target ← scan_target_stats fuel shard table moves
    lifted (compared source (job_stats jobs (0, 0)))
    lifted (compared source target)
    save_verified moves jobs

  -- The moves of one table to one shard.
  unfoldable pub verify_group : ℕ → String → String → List ShardMove → M (Unit {0})
  unfolding load_jobs all_settled check_group ◌>>=◌ pure raise
  verify_group fuel table shard moves = do
    known_table m (record { table = table; from = shard; to = shard; key_range = none })
    jobs ← load_jobs moves
    if all_settled jobs then pure tt else check_group fuel table shard moves jobs

  abbrev pub Groups : Type 0
  Groups = List ((String × String) × List ShardMove)

  -- `entry(key).or_default().push(mv)`; `before` is the order of the map.
  abbrev pub enter : (String × String → String × String → Bool) → ShardMove → Groups → Groups
  enter before mv [] = ((mv.table, mv.to), mv ∷ []) ∷ []
  enter before mv ((k, moves) ∷ rest) =
      let later = enter before mv rest in
      if str_eq k.0 mv.table && str_eq k.1 mv.to
      then (k, moves ++ mv ∷ []) ∷ rest
      else if before (mv.table, mv.to) k
      then ((mv.table, mv.to), mv ∷ []) ∷ (k, moves) ∷ rest
      else (k, moves) ∷ later

  abbrev pub grouped : (String × String → String × String → Bool) → List ShardMove → Groups → Groups
  grouped before [] groups = groups
  grouped before (mv ∷ rest) groups = grouped before rest (enter before mv groups)

  unfoldable pub verify_groups : ℕ → Groups → M (Unit {0})
  unfolding verify_group ◌>>=◌ pure
  verify_groups fuel [] = pure tt
  verify_groups fuel (((table, shard), moves) ∷ rest) = do
    verify_group fuel table shard moves
    verify_groups fuel rest

  unfoldable pub verify :
      (String → String → Result ShardError Bool)
      → List String
      → (String × String → String × String → Bool)
      → ℕ
      → List ShardMove
      → M (Unit {0})
  unfolding preflight_schema verify_groups ◌>>=◌
  verify binary_column clients before fuel moves = do
    lifted (preflight_schema binary_column clients moves)
    verify_groups fuel (grouped before moves [])
