-- ===== src/Sharding/Migrate.antt =====
-- ecat-data-sharding/src/migrate: mod.rs, schema.rs and cutover.rs, the jobs of a migration and the switch of
-- the router to the new catalogue. The table of jobs is keyed by `move_id`.
pub mod Cutover
use e_cat.Prelude.{
  ℕ, ◌^◌, ltb, suc, String, Bool, true, false, not, ◌&&◌, ◌||◌, Option, none, some, List, [], ◌∷◌,
  if◌then◌else◌,
}
use Prim.Native.String.{◌++◌}
use text.Mathlib.Text.{◌==◌ as str_eq}
use e_cat.Prelude.Result.{Result, ok, err, ◌>>=◌ as and_then, ◌>>◌ as and_also}
use e_cat.Prelude.Int.{ℤ}
use e_cat.Prelude.Exec.{Exec, ◌>>=◌, ◌>>◌, pure, raise}
use e_cat.Sharding.Error.{ShardError, config, database}
use e_cat.Sharding.Catalog.{ShardTable, ShardCatalog, contains, find_table, or_unknown, validate}
use e_cat.Sharding.Router.{ShardRouter, validate_clients}
use e_cat.Sharding.Plan.{KeyRange, ShardMove}

pub data Phase : Type 0 where
  pending backfilling verified cutover_begun done rolled_back : Phase

pub record JobState : Type 0 where
  pub phase : Phase
  pub cursor : Option String
  pub rows : ℕ
  pub checksum : ℕ

abbrev pub Jobs : Type 0
Jobs = List (String × JobState)

-- The checks of `ShardMigrator::new` on one move.
unfoldable pub check_move :
    ShardCatalog → ShardCatalog → List String → ShardMove → Result ShardError (Unit {0})
check_move old new clients mv =
    and_then (or_unknown mv.table (find_table old mv.table)) (λ old_table.
      and_then (or_unknown mv.table (find_table new mv.table)) (λ new_table.
        if not (str_eq old_table.key new_table.key) || not (str_eq old_table.pk new_table.pk)
        then err config
        else if not (contains old_table.shards mv.from)
        then err config
        else if not (contains new_table.shards mv.to)
        then err config
        else if contains clients mv.from && contains clients mv.to
        then ok tt
        else err config))

unfoldable pub check_moves :
    ShardCatalog → ShardCatalog → List String → List ShardMove → Result ShardError (Unit {0})
unfolding check_move
check_moves old new clients [] = ok tt
check_moves old new clients (mv ∷ rest) =
    and_also (check_move old new clients mv) (check_moves old new clients rest)

-- `ShardMigrator::new`; what it makes of the checked parts is left to the caller.
unfoldable pub check_migration :
    (String → Bool)
    → ShardCatalog
    → ShardCatalog
    → List String
    → List ShardMove
    → Result ShardError (Unit {0})
unfolding validate check_moves
check_migration is_blank old new clients moves =
    and_also (validate is_blank old)
      (and_also (validate is_blank new) (check_moves old new clients moves))

-- `binary_column shard table` asks the shard's database whether a column of the table is binary;
-- a question that was asked before, which the source leaves out, has the same answer.
unfoldable pub preflight_schema :
    (String → String → Result ShardError Bool)
    → List String
    → List ShardMove
    → Result ShardError (Unit {0})
preflight_schema binary_column clients [] = ok tt
preflight_schema binary_column clients (mv ∷ rest) =
    if contains clients mv.from
    then and_then (binary_column mv.from mv.table)
        (λ binary. if binary then err config else preflight_schema binary_column clients rest)
    else err config

module _ (show : ℤ → String) where
  abbrev pub bound_text : Option ℤ → String
  bound_text none = "*"
  bound_text (some b) = show b

  abbrev pub range_text : Option KeyRange → String
  range_text none = "none"
  range_text (some r) = bound_text r.low ++ (":" ++ bound_text r.high)

  unfoldable pub move_id : ShardMove → String
  move_id mv =
      mv.table ++ ("|" ++ (mv.from ++ ("|" ++ (mv.to ++ ("|" ++ range_text mv.key_range)))))

-- The database of the jobs, the router, and what is still answered: each request takes an answer.
pub data Answer : Type 0 where
  answered refused lost : Answer

pub record World : Type 0 where
  pub jobs : Jobs
  pub router : ShardRouter
  pub answers : List Answer

abbrev pub M : Type 0 → Type 0
M A = Exec World ShardError A

abbrev pub find_job : String → Jobs → Option JobState
find_job id [] = none
find_job id ((k, job) ∷ rest) = if str_eq k id then some job else find_job id rest

abbrev pub write_job : String → JobState → Jobs → Jobs
write_job id job [] = []
write_job id job ((k, old) ∷ rest) =
    let later = write_job id job rest in if str_eq k id then (k, job) ∷ later else (k, old) ∷ later

-- With no answer left the database is gone.
abbrev pub loaded :
    Option JobState → World → List Answer → Result ShardError (Option JobState) × World
loaded job w [] = (err database, w)
loaded job w (answered ∷ rest) = (ok job, record w { answers = rest })
loaded job w (_ ∷ rest) = (err database, record w { answers = rest })

unfoldable pub load_job : String → M (Option JobState)
load_job id w = loaded (find_job id w.jobs) w w.answers

abbrev pub saved : Jobs → World → List Answer → Result ShardError (Unit {0}) × World
saved jobs w [] = (err database, w)
saved jobs w (answered ∷ rest) = (ok tt, record w { jobs = jobs; answers = rest })
saved jobs w (refused ∷ rest) = (err database, record w { answers = rest })
saved jobs w (lost ∷ rest) = (err database, record w { jobs = jobs; answers = rest })

-- The count is stored as an i64.
unfoldable pub save_job : String → JobState → M (Unit {0})
save_job id job w =
    if ltb job.rows (2 ^ 63) then saved (write_job id job w.jobs) w w.answers else (err database, w)

abbrev pub is_ready : Phase → Bool
is_ready verified = true
is_ready done = true
is_ready _ = false

abbrev pub require_ready : Option JobState → M (Unit {0})
require_ready none = raise config
require_ready (some job) = if is_ready job.phase then pure tt else raise config

abbrev pub switched :
    Result ShardError (Unit {0}) → ShardCatalog → World → Result ShardError (Unit {0}) × World
switched (err e) catalog w = (err e, w)
switched (ok _) catalog w = (ok tt, record w { router = record w.router { catalog = catalog } })

module _ (show : ℤ → String) (is_blank : String → Bool) where
  unfoldable pub check_ready : List ShardMove → M (Unit {0})
  unfolding load_job ◌>>=◌ pure raise move_id
  check_ready [] = pure tt
  check_ready (mv ∷ rest) = do job ← load_job (move_id show mv); require_ready job; check_ready rest

  -- `router.reload(catalog)?`
  unfoldable pub reload_router : ShardCatalog → M (Unit {0})
  unfolding validate validate_clients
  reload_router catalog w =
      switched (and_also (validate is_blank catalog) (validate_clients catalog w.router.clients))
        catalog w

  abbrev pub save_phase : Phase → ShardMove → Option JobState → M (Unit {0})
  save_phase phase mv none = pure tt
  save_phase phase mv (some job) = save_job (move_id show mv) (record job { phase = phase })

  unfoldable pub mark_jobs : Phase → List ShardMove → M (Unit {0})
  unfolding load_job save_job ◌>>=◌ pure move_id
  mark_jobs phase [] = pure tt
  mark_jobs phase (mv ∷ rest) = do
    job ← load_job (move_id show mv)
    save_phase phase mv job
    mark_jobs phase rest

  abbrev pub lift : Result ShardError (Unit {0}) → M (Unit {0})
  lift result w = (result, w)

  unfoldable pub cutover :
      (String → String → Result ShardError Bool)
      → List String
      → List ShardMove
      → ShardCatalog
      → M (Unit {0})
  unfolding preflight_schema check_ready reload_router mark_jobs ◌>>=◌
  cutover binary_column clients moves catalog = do
    lift (preflight_schema binary_column clients moves)
    check_ready moves
    reload_router catalog
    mark_jobs done moves

  unfoldable pub rollback : List ShardMove → ShardCatalog → M (Unit {0})
  unfolding reload_router mark_jobs ◌>>=◌
  rollback moves old_catalog = do reload_router old_catalog; mark_jobs rolled_back moves
