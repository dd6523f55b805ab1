-- ===== src/Sharding/Backfill/Tests.antt =====
-- A table that is copied to a new shard, in two runs of which the first is cut off.
use e_cat.Prelude.{
  ℕ, zero, suc, ◌+◌, String, ◌≡◌, ◌≢◌, refl, ap, true, false, Option, none, some, List, [], ◌∷◌,
  if◌then◌else◌, arith,
}
use text.Mathlib.Text.{◌==◌ as str_eq}
use e_cat.Prelude.Exec.{after, ◌>>=◌, pure, raise}
use e_cat.Prelude.Result.{Result, ok, err}
use e_cat.Prelude.Int.{pos}
use e_cat.Sharding.Catalog.{
  ShardTable, int, hash_mod, shard_for, check_algorithm, index_in, stable_hash64, fnv1a64, fnv_from,
}
use e_cat.Sharding.Plan.{ShardMove}
use e_cat.Sharding.Migrate.{JobState, Answer, answered, lost, find_job}
use e_cat.Sharding.Backfill.{
  Row, Table, World, Migrator, out_of_fuel, Failure, MigrationReport, ensure_job, load_job, reads,
  writes, asks_lock, scan_chunk, upsert_row, routes_to, row_checksum, save_job,
}
use e_cat.Sharding.Backfill.Copy.{backfill_move, resume, copy_chunks, check_fence, copy_rows}
use e_cat.Sharding.Backfill.Rows.{IsSorted}
use e_cat.Sharding.Backfill.Copied.{target, Copied, Counts, chosen}
use e_cat.Sharding.Backfill.Runs.{run, runs, given, backfill_copies, backfill_move_ends}

-- A number in strokes.
abbrev pub strokes : ℕ → String
strokes zero = String.[]
strokes (suc n) = String.◌∷◌ "i" (strokes n)

abbrev more : Option ℕ → Option ℕ
more none = none
more (some n) = some (suc n)

abbrev pub stroke_count : String → Option ℕ
stroke_count String.[] = some 0
stroke_count (String.◌∷◌ c s) = more (stroke_count s)

reread : (pk : ℕ) → stroke_count (strokes pk) ≡ some pk
reread zero = refl
reread (suc n) = ap more (reread n)

abbrev pub pks : Table → List ℕ
pks [] = []
pks (r ∷ t) = r.pk ∷ pks t

abbrev pub users : ShardTable
users = record {
  name = "users";
  key = "id";
  pk = "id";
  algorithm = hash_mod 2;
  shards = "s0" ∷ "s1" ∷ [];
}

abbrev pub migrator : Migrator
migrator = record {
  catalog = users ∷ [];
  move_id = λ mv. mv.to;
  encode = strokes;
  decode = stroke_count;
  selects = λ range row. true;
  chunk_size = 2;
  fenced = true;
  held = false;
}

abbrev pub move : ShardMove
move = record { table = "users"; from = "s0"; to = "s1"; key_range = none }

abbrev pub user : ℕ → Row
user n = record { pk = n; key = some (int (pos n) ((b'0' + n) ∷ [])); bytes = n ∷ [] }

abbrev pub rows : String → String → Table
rows shard table = if str_eq shard "s0" then user 1 ∷ user 2 ∷ user 3 ∷ user 4 ∷ user 5 ∷ [] else []

abbrev pub world : World
world = record { rows = rows; jobs = []; answers = [] }

abbrev pub all_answered : List Answer
all_answered =
    answered ∷ answered ∷ answered ∷ answered ∷ answered ∷ answered ∷ answered ∷ answered ∷ answered
    ∷ answered ∷ answered ∷ answered ∷ answered ∷ answered ∷ answered ∷ answered ∷ answered
    ∷ answered ∷ answered ∷ answered ∷ []

-- The cursor of the first chunk is written, but its answer is lost.
abbrev pub cut_off : List Answer
cut_off = answered ∷ answered ∷ answered ∷ answered ∷ answered ∷ answered ∷ lost ∷ []

abbrev pub cut : World
cut = runs migrator move 6 (cut_off ∷ []) world

abbrev pub again : Result Failure MigrationReport × World
again = run migrator move 6 all_answered cut

cut_copied : pks (cut.rows "s1" "users") ≡ 2 ∷ []
unfolding runs backfill_move ensure_job load_job reads writes resume copy_chunks check_fence
    asks_lock scan_chunk copy_rows upsert_row routes_to shard_for check_algorithm index_in
    stable_hash64 fnv1a64 fnv_from row_checksum save_job ◌>>=◌ after pure raise
cut_copied = refl

resumed : again.0 ≡ ok (record { moved_rows = 1; chunks = 2 })
unfolding runs backfill_move ensure_job load_job reads writes resume copy_chunks check_fence
    asks_lock scan_chunk copy_rows upsert_row routes_to shard_for check_algorithm index_in
    stable_hash64 fnv1a64 fnv_from row_checksum save_job ◌>>=◌ after pure raise
resumed = refl

world-IsSorted : IsSorted (chosen migrator move (given migrator move 6 world))
world-IsSorted = (
  (refl, (refl, (refl, (refl, tt)))),
  ((refl, (refl, (refl, tt))), ((refl, (refl, tt)), ((refl, tt), (tt, tt)))),
)

backfill_copies_example :
    Copied migrator move
      (chosen migrator move (given migrator move 6 world))
      (target migrator move again.1.rows)
    × ((job : JobState) × (find_job "s1" again.1.jobs ≡ some job)
        × Counts migrator move (chosen migrator move (given migrator move 6 world)) job)
backfill_copies_example =
    backfill_copies migrator move 6 world world-IsSorted refl (omega arith) reread (omega arith)
      refl (cut_off ∷ []) all_answered (record { moved_rows = 1; chunks = 2 }) resumed

backfill_move_ends_example : (run migrator move 6 cut_off cut).0 ≢ err out_of_fuel
backfill_move_ends_example =
    backfill_move_ends migrator move 6 world world-IsSorted refl (omega arith) reread (omega arith)
      refl (cut_off ∷ []) cut_off
