-- ===== src/Sharding/Plan.antt =====
-- ecat-data-sharding/src/migrate/plan.rs: the moves that lead from one catalogue to another. An i64
-- is an integer no less than `min_i64`.
pub mod Taken
pub mod Cuts
pub mod Sorted
pub mod OneInterval
pub mod Cover
pub mod Routes
use e_cat.Prelude.{
  ℕ, zero, suc, ◌^◌, String, Bool, true, false, not, ◌&&◌, ◌||◌, Option, none, some, List, [], ◌∷◌,
  ◌++◌, ◌+◌, map, reverse, get_elem?, ◌==◌, if◌then◌else◌,
}
use text.Mathlib.Text.{◌==◌ as str_eq}
use e_cat.Prelude.Result.{Result, ok, err, ◌>>=◌, ◌>>◌}
use e_cat.Prelude.Int.{ℤ, pos, negsuc, pos_part, neg_part, ltb_ℤ, ◌-ℤ◌}
use e_cat.Sharding.Error.{ShardError, config, shard_count_mismatch}
use e_cat.Sharding.Catalog.{
  ShardAlgorithm, hash_mod, range, ShardTable, ShardCatalog, find_table, partition_point, validate,
}

-- `low` is in the range and `high` is not; `none` is no bound.
pub record KeyRange : Type 0 where
  pub low : Option ℤ
  pub high : Option ℤ

-- With no range, the whole table is copied.
pub record ShardMove : Type 0 where
  pub table : String
  pub from : String
  pub to : String
  pub key_range : Option KeyRange

abbrev pub min_i64 : ℤ
min_i64 = negsuc 0x7fffffffffffffff

abbrev pub eq_ℤ : ℤ → ℤ → Bool
eq_ℤ a b = pos_part a + neg_part b == pos_part b + neg_part a

abbrev pub same_bound : Option ℤ → Option ℤ → Bool
same_bound none none = true
same_bound (some a) (some b) = eq_ℤ a b
same_bound _ _ = false

abbrev pub same_names : List String → List String → Bool
same_names [] [] = true
same_names (x ∷ xs) (y ∷ ys) = str_eq x y && same_names xs ys
same_names _ _ = false

-- `same_shard_names`
unfoldable pub same_shard_names : ShardTable → ShardTable → Bool
same_shard_names a b = same_names a.shards b.shards

abbrev pub copies_from : String → String → List String → List ShardMove
copies_from table from targets =
    map (λ to. record { table = table; from = from; to = to; key_range = none }) targets

abbrev pub copies : String → List String → List String → List ShardMove
copies table [] targets = []
copies table (from ∷ rest) targets = copies_from table from targets ++ copies table rest targets

unfoldable pub full_copy_moves : ShardTable → ShardTable → List ShardMove
full_copy_moves old new = copies old.name old.shards new.shards

-- `sort_unstable` of integers; any sort of them gives this list.
abbrev pub insert_sorted : ℤ → List ℤ → List ℤ
insert_sorted a [] = a ∷ []
insert_sorted a (b ∷ rest) = if ltb_ℤ b a then b ∷ insert_sorted a rest else a ∷ b ∷ rest

abbrev pub sort : List ℤ → List ℤ
sort [] = []
sort (a ∷ rest) = insert_sorted a (sort rest)

abbrev pub keep_new : ℤ → List ℤ → List ℤ
keep_new a [] = a ∷ []
keep_new a (b ∷ rest) = if eq_ℤ a b then b ∷ rest else a ∷ b ∷ rest

-- `dedup`, which removes the repetitions that stand side by side.
abbrev pub dedup : List ℤ → List ℤ
dedup [] = []
dedup (a ∷ rest) = keep_new a (dedup rest)

unfoldable pub range_index : ShardAlgorithm → ℤ → Result ShardError ℕ
range_index (range boundaries) key = ok (partition_point boundaries key)
range_index (hash_mod shards) key = err config

-- `(low, high, representative key)`
pub record Interval : Type 0 where
  pub low : Option ℤ
  pub high : Option ℤ
  pub key : ℤ

abbrev pub unwrap_or : Option ℤ → ℤ → ℤ
unwrap_or none d = d
unwrap_or (some a) d = a

-- The intervals from `low` on, cut at the boundaries.
unfoldable pub intervals : Option ℤ → List ℤ → List Interval
unfolding ◌-ℤ◌
intervals low [] = record { low = low; high = none; key = unwrap_or low (pos 0) } ∷ []
intervals low (boundary ∷ rest) =
    let later = intervals (some boundary) rest in
    if ltb_ℤ min_i64 boundary
    then record { low = low; high = some boundary; key = boundary -ℤ pos 1 } ∷ later
    else later

abbrev pub get_shard : List String → ℕ → Result ShardError String
get_shard [] i = err shard_count_mismatch
get_shard (name ∷ rest) zero = ok name
get_shard (name ∷ rest) (suc i) = get_shard rest i

-- The `let` chain on `last_mut`: whether the move `m` goes on where the range of `last` ends.
abbrev pub continues : ShardMove → ShardMove → Option ℤ → Option KeyRange → Bool
continues last m low none = false
continues last m low (some r) =
    str_eq last.from m.from && str_eq last.to m.to && same_bound r.high low

abbrev pub extended : Option ℤ → Option KeyRange → Option KeyRange
extended high none = none
extended high (some r) = some (record r { high = high })

-- `m` moves the keys of the interval; the last move is the first of the list.
unfoldable pub push_move : List ShardMove → ShardMove → Interval → List ShardMove
push_move [] m i = m ∷ []
push_move (last ∷ rest) m i =
    if continues last m i.low last.key_range
    then record last { key_range = extended i.high last.key_range } ∷ rest
    else m ∷ last ∷ rest

unfoldable pub move_interval :
    ShardTable → ShardTable → List ShardMove → Interval → Result ShardError (List ShardMove)
unfolding range_index push_move
move_interval old new moves i = do
  old_index ← range_index old.algorithm i.key
  new_index ← range_index new.algorithm i.key
  from ← get_shard old.shards old_index
  to ← get_shard new.shards new_index
  let m : ShardMove = record {
    table = old.name;
    from = from;
    to = to;
    key_range = some (record { low = i.low; high = i.high });
  }
  if str_eq from to then ok moves else ok (push_move moves m i)

unfoldable pub move_intervals :
    ShardTable → ShardTable → List ShardMove → List Interval → Result ShardError (List ShardMove)
unfolding move_interval
move_intervals old new moves [] = ok moves
move_intervals old new moves (i ∷ rest) = do
  moves' ← move_interval old new moves i
  move_intervals old new moves' rest

abbrev pub moves_between :
    ShardTable → ShardTable → List ℤ → List ℤ → Result ShardError (List ShardMove)
moves_between old new olds news = do
  moves ← move_intervals old new [] (intervals none (dedup (sort (olds ++ news))))
  ok (reverse moves)

abbrev pub range_moves_by :
    ShardTable → ShardTable → ShardAlgorithm → ShardAlgorithm → Result ShardError (List ShardMove)
range_moves_by old new (range olds) (range news) = moves_between old new olds news
range_moves_by old new _ _ = err config

unfoldable pub range_moves : ShardTable → ShardTable → Result ShardError (List ShardMove)
unfolding intervals move_intervals
range_moves old new = range_moves_by old new old.algorithm new.algorithm

-- By the two algorithms.
abbrev pub moves_by :
    ShardTable → ShardTable → ShardAlgorithm → ShardAlgorithm → Result ShardError (List ShardMove)
moves_by old new (range _) (range _) = range_moves old new
moves_by old new (hash_mod _) (hash_mod _) =
    if same_shard_names old new then ok [] else ok (full_copy_moves old new)
moves_by old new _ _ = ok (full_copy_moves old new)

-- The moves of one table of the new catalogue.
unfoldable pub table_moves : Option ShardTable → ShardTable → Result ShardError (List ShardMove)
unfolding range_moves same_shard_names full_copy_moves
table_moves none new = ok []
table_moves (some old) new =
    if not (str_eq old.key new.key) || not (str_eq old.pk new.pk)
    then err config
    else moves_by old new old.algorithm new.algorithm

unfoldable pub diff_each : ShardCatalog → ShardCatalog → Result ShardError (List ShardMove)
unfolding table_moves
diff_each old [] = ok []
diff_each old (t ∷ rest) = do
  moves ← table_moves (find_table old t.name) t
  later ← diff_each old rest
  ok (moves ++ later)

unfoldable pub diff :
    (String → Bool) → ShardCatalog → ShardCatalog → Result ShardError (List ShardMove)
unfolding validate diff_each
diff is_blank old new = do validate is_blank old; validate is_blank new; diff_each old new
