-- ===== src/Sharding/Backfill.antt =====
-- ecat-data-sharding/src/migrate: backfill.rs, with the jobs of mod.rs: the rows of each move are
-- copied in chunks by primary key. A database is its tables, listed by primary key, which is the
-- number of its place in the database's order; it answers, refuses, or takes effect and loses the
-- answer, each time as the list of answers says. Dialects are left out.
pub mod Copy
pub mod Rows
pub mod Rule
pub mod Copied
pub mod Loop
pub mod Resume
pub mod Runs
pub mod Tests
use e_cat.Prelude.{
  ℕ, zero, suc, ◌+◌, ◌-◌, ◌^◌, max, ltb, ◌==◌, String, Bool, true, false, not, ◌&&◌, Option, none,
  some, List, [], ◌∷◌, get_elem?, take, if◌then◌else◌,
}
use Prim.Native.Nat.{bit_xor}
use text.Mathlib.Text.{◌==◌ as str_eq}
use e_cat.Prelude.Result.{Result, ok, err, ◌>>=◌ as and_then, ◌>>◌ as and_also}
use e_cat.Prelude.Exec.{Exec, ◌>>=◌, ◌>>◌, pure, raise}
use e_cat.Sharding.Error.{ShardError, config, database}
use e_cat.Sharding.Catalog.{
  ShardTable, ShardCatalog, Key, other, find_table, or_unknown, stable_hash64, shard_for,
}
use e_cat.Sharding.Plan.{KeyRange, ShardMove}
use e_cat.Sharding.Migrate.{
  Phase, pending, backfilling, verified, cutover_begun, done, rolled_back, JobState, Jobs, find_job,
  write_job, Answer, answered, refused, lost, preflight_schema,
}

-- `bytes` is the JSON text of the row, with its columns in order; `key` is the column of the key.
pub record Row : Type 0 where
  pub pk : ℕ
  pub key : Option Key
  pub bytes : List ℕ

abbrev pub Table : Type 0
Table = List Row

abbrev pub upsert_in : Row → Table → Table
upsert_in row [] = row ∷ []
upsert_in row (x ∷ xs) =
    let later = upsert_in row xs in
    if ltb row.pk x.pk then row ∷ x ∷ xs else if row.pk == x.pk then row ∷ xs else x ∷ later

-- `rows shard table`: the table on the shard.
pub record World : Type 0 where
  pub rows : String → String → Table
  pub jobs : Jobs
  pub answers : List Answer

abbrev pub with_rows : String → String → Table → (String → String → Table) → String → String → Table
with_rows shard table new rows s t = if str_eq s shard && str_eq t table then new else rows s t

-- `out_of_fuel` is of the model's loop alone.
pub data Failure : Type 0 where
  failed : ShardError → Failure
  out_of_fuel : Failure

abbrev pub M : Type 0 → Type 0
M A = Exec World Failure A

abbrev pub lifted : {A : Type 0} → Result ShardError A → M A
lifted (ok a) = pure a
lifted (err e) = raise (failed e)

-- What a request that would bring `new` about does. With no answer left the database is gone.
abbrev pub replied :
    {A : Type 0} → ShardError → A → World → World → List Answer → Result Failure A × World
replied e a new w [] = (err (failed e), w)
replied e a new w (answered ∷ rest) = (ok a, record new { answers = rest })
replied e a new w (refused ∷ rest) = (err (failed e), record w { answers = rest })
replied e a new w (lost ∷ rest) = (err (failed e), record new { answers = rest })

unfoldable pub reads : {A : Type 0} → (World → A) → M A
reads f w = replied database (f w) w w w.answers

unfoldable pub writes : (World → World) → M (Unit {0})
writes f w = replied database tt (f w) w w.answers

-- A request to the lock.
unfoldable pub asks_lock : M (Unit {0})
asks_lock w = replied config tt w w w.answers

pub record MigrationReport : Type 0 where
  pub moved_rows : ℕ
  pub chunks : ℕ

unfoldable pub row_checksum : Row → Result ShardError ℕ
unfolding stable_hash64
row_checksum row = stable_hash64 (other row.bytes)

abbrev pub after : Option ℕ → Row → Bool
after none row = true
after (some cursor) row = ltb cursor row.pk

abbrev pub filter_rows : (Row → Bool) → Table → Table
filter_rows test [] = []
filter_rows test (r ∷ rest) = if test r then r ∷ filter_rows test rest else filter_rows test rest

abbrev pub last_pk : List Row → Option ℕ
last_pk [] = none
last_pk (r ∷ []) = some r.pk
last_pk (r ∷ s ∷ rest) = last_pk (s ∷ rest)

abbrev pub is_settled : Phase → Bool
is_settled verified = true
is_settled cutover_begun = true
is_settled done = true
is_settled _ = false

abbrev pub is_rolled_back : Phase → Bool
is_rolled_back rolled_back = true
is_rolled_back _ = false

abbrev pub saturated : ℕ → ℕ
saturated n = if ltb n (2 ^ 64) then n else 2 ^ 64 - 1

abbrev pub new_job : JobState
new_job = record { phase = pending; cursor = none; rows = 0; checksum = 0 }

-- The insert leaves a job that is there alone.
abbrev pub insert_job : String → Option JobState → Jobs → Jobs
insert_job id none jobs = (id, new_job) ∷ jobs
insert_job id (some job) jobs = jobs

-- The parameters: the text of a move, the JSON text of a primary key and its reading, which rows
-- the SQL of a key range selects, the size of a chunk, and the fence.
pub record Migrator : Type 0 where
  pub catalog : ShardCatalog
  pub move_id : ShardMove → String
  pub encode : ℕ → String
  pub decode : String → Option ℕ
  pub selects : KeyRange → Row → Bool
  pub chunk_size : ℕ
  pub fenced : Bool
  pub held : Bool  -- by another migration

abbrev pub with_chunk_size : Migrator → ℕ → Migrator
with_chunk_size m n = record m { chunk_size = max n 1 }

module _ (m : Migrator) where
  unfoldable pub load_job : ShardMove → M (Option JobState)
  unfolding reads
  load_job mv = reads (λ w. find_job (m.move_id mv) w.jobs)

  -- The count is stored as an i64.
  unfoldable pub save_job : ShardMove → JobState → M (Unit {0})
  unfolding writes raise
  save_job mv job =
      if ltb job.rows (2 ^ 63)
      then writes (λ w. record w { jobs = write_job (m.move_id mv) job w.jobs })
      else raise (failed database)

  abbrev pub or_vanished : Option JobState → M JobState
  or_vanished none = raise (failed database)
  or_vanished (some job) = pure job

  abbrev pub or_insert : ShardMove → Option JobState → M JobState
  or_insert mv (some job) = pure job
  or_insert mv none = do
    writes
        (λ w. record w { jobs = insert_job (m.move_id mv) (find_job (m.move_id mv) w.jobs) w.jobs })
    again ← load_job mv
    or_vanished again

  unfoldable pub ensure_job : ShardMove → M JobState
  unfolding load_job writes ◌>>=◌ pure raise
  ensure_job mv = do job ← load_job mv; or_insert mv job

  abbrev pub selected : Option KeyRange → Table → Table
  selected none rows = rows
  selected (some range) rows = filter_rows (m.selects range) rows

  unfoldable pub scan_chunk : String → String → Option KeyRange → Option ℕ → M (List Row)
  unfolding reads
  scan_chunk shard table range cursor =
      reads
        (λ w. take m.chunk_size (filter_rows (after cursor) (selected range (w.rows shard table))))

  abbrev pub or_missing : Option Key → Result ShardError Key
  or_missing none = err database
  or_missing (some key) = ok key

  -- An index out of bounds would panic, and the checks of the lookup exclude it.
  abbrev pub names_shard : String → Option String → Bool
  names_shard to none = false
  names_shard to (some name) = str_eq name to

  unfoldable pub routes_to : ShardMove → Row → Result ShardError Bool
  unfolding shard_for
  routes_to mv row = elim mv.key_range [
    | some range ↦ ok true
    | none ↦ and_then (or_unknown mv.table (find_table m.catalog mv.table)) (λ t.
        and_then (or_missing row.key) (λ key.
          and_then (shard_for m.catalog mv.table key)
            (λ index. ok (names_shard mv.to (get_elem? t.shards index)))))
  ]

  unfoldable pub upsert_row : ShardMove → Row → M (Unit {0})
  unfolding writes
  upsert_row mv row = writes (λ w. record w {
    rows = with_rows mv.to mv.table (upsert_in row (w.rows mv.to mv.table)) w.rows;
  })
