-- ===== src/Sharding/Scatter.antt =====
-- ecat-data-sharding/src/scatter.rs: one query to all shards of a table, and the merge of the rows.
-- Texts of JSON are their bytes; serde_json's numbers and texts are a parameter.
pub mod Sorting
pub mod Merging
pub mod Whole
mod Tests
use e_cat.Prelude.{
  ℕ, zero, suc, String, ltb, ◌==◌, Bool, true, false, not, ◌&&◌, ◌||◌, Option, none, some, List, [],
  ◌∷◌, ◌++◌, take, drop, if◌then◌else◌,
}
use Prim.Native.Nat.{Ordering, compare}
use text.Mathlib.Text.{◌==◌ as str_eq}
use e_cat.Prelude.Result.{Result, ok, err, ◌>>=◌, ◌>>◌}
use e_cat.Prelude.Int.{ℤ, ltb_ℤ}
use e_cat.Sharding.Error.{ShardError, config, partial_failure}
use e_cat.Sharding.Catalog.{ShardTable, is_empty, contains, find_table, or_unknown}
use e_cat.Sharding.Router.{ShardRouter, check_endpoints}

-- `compare_f64` is that of `as_f64`, with equality for what cannot be compared.
pub record Numbers : Type 1 where
  pub Number : Type 0
  pub as_i64 : Number → Option ℤ
  pub compare_f64 : Number → Number → Ordering
  pub number_text : Number → List ℕ
  pub quote : List ℕ → List ℕ

-- An array or an object by its text.
pub data Value (N : Type 0) : Type 0 where
  null : Value N
  bool : Bool → Value N
  number : N → Value N
  string : (bytes : List ℕ) → Value N
  array : (text : List ℕ) → Value N
  object : (text : List ℕ) → Value N

-- `Ordering::then`
abbrev pub then_by : Ordering → Ordering → Ordering
then_by Ordering.eq o = o
then_by Ordering.lt o = Ordering.lt
then_by Ordering.gt o = Ordering.gt

abbrev pub compare_bytes : List ℕ → List ℕ → Ordering
compare_bytes [] [] = Ordering.eq
compare_bytes [] (b ∷ bs) = Ordering.lt
compare_bytes (a ∷ as') [] = Ordering.gt
compare_bytes (a ∷ as') (b ∷ bs) = then_by (compare a b) (compare_bytes as' bs)

abbrev pub compare_bool : Bool → Bool → Ordering
compare_bool false true = Ordering.lt
compare_bool true false = Ordering.gt
compare_bool _ _ = Ordering.eq

abbrev pub compare_ℤ : ℤ → ℤ → Ordering
compare_ℤ a b = if ltb_ℤ a b then Ordering.lt else if ltb_ℤ b a then Ordering.gt else Ordering.eq

abbrev pub is_gt : Ordering → Bool
is_gt Ordering.gt = true
is_gt _ = false

abbrev pub same_bytes : List ℕ → List ℕ → Bool
same_bytes [] [] = true
same_bytes (a ∷ as') (b ∷ bs) = a == b && same_bytes as' bs
same_bytes _ _ = false

abbrev pub has : List (List ℕ) → List ℕ → Bool
has [] t = false
has (s ∷ seen) t = same_bytes s t || has seen t

abbrev pub or_config : {A : Type 0} → Option A → Result ShardError A
or_config none = err config
or_config (some a) = ok a

module _ (n : Numbers) where
  abbrev pub Json : Type 0
  Json = Value (Numbers.Number n)

  abbrev pub Row : Type 0
  Row = List (String × Json)

  abbrev pub get : String → Row → Option Json
  get column [] = none
  get column ((k, v) ∷ rest) = if str_eq k column then some v else get column rest

  abbrev pub not_null : Option Json → Option Json
  not_null none = none
  not_null (some null) = none
  not_null (some v) = some v

  -- Bytes of "null", "true" and "false".
  abbrev pub value_text : Json → List ℕ
  value_text null = b'n' ∷ b'u' ∷ b'l' ∷ b'l' ∷ []
  value_text (bool true) = b't' ∷ b'r' ∷ b'u' ∷ b'e' ∷ []
  value_text (bool false) = b'f' ∷ b'a' ∷ b'l' ∷ b's' ∷ b'e' ∷ []
  value_text (number x) = n.number_text x
  value_text (string bytes) = n.quote bytes
  value_text (array text) = text
  value_text (object text) = text

  abbrev pub value_rank : Json → ℕ
  value_rank null = 0
  value_rank (bool b) = 1
  value_rank (number x) = 2
  value_rank (string bytes) = 3
  value_rank (array text) = 4
  value_rank (object text) = 5

  abbrev pub by_i64 : Option ℤ → Option ℤ → Ordering → Ordering
  by_i64 (some a) (some b) o = compare_ℤ a b
  by_i64 _ _ o = o

  abbrev pub compare_numbers : n.Number → n.Number → Ordering
  compare_numbers a b = by_i64 (n.as_i64 a) (n.as_i64 b) (n.compare_f64 a b)

  abbrev pub compare_kinds : Json → Json → Ordering
  compare_kinds a b =
      then_by (compare (value_rank a) (value_rank b)) (compare_bytes (value_text a) (value_text b))

  unfoldable pub compare_values : Json → Json → Ordering
  compare_values null null = Ordering.eq
  compare_values (bool a) (bool b) = compare_bool a b
  compare_values (number a) (number b) =
      then_by (compare_numbers a b) (compare_bytes (n.number_text a) (n.number_text b))
  compare_values (string a) (string b) = compare_bytes a b
  compare_values a b = compare_kinds a b

  -- A row with the value that it is sorted by and the index of its shard.
  abbrev pub Entry : Type 0
  Entry = Json × ℕ × Row

  abbrev pub compare_entries : Entry → Entry → Ordering
  compare_entries a b = then_by (compare_values a.0 b.0) (compare a.1 b.1)

  -- `sort_by` is stable, and so is this.
  abbrev pub insert_by : Entry → List Entry → List Entry
  insert_by e [] = e ∷ []
  insert_by e (x ∷ xs) = if is_gt (compare_entries e x) then x ∷ insert_by e xs else e ∷ x ∷ xs

  unfoldable pub sort_by : List Entry → List Entry
  unfolding compare_values
  sort_by [] = []
  sort_by (e ∷ es) = insert_by e (sort_by es)

  unfoldable pub order_rows : String → ℕ → List Row → Result ShardError (List Entry)
  order_rows order_by index [] = ok []
  order_rows order_by index (row ∷ rest) = do
    value ← or_config (not_null (get order_by row))
    entries ← order_rows order_by index rest
    ok ((value, index, row) ∷ entries)

  unfoldable pub order_shards :
      String → ℕ → List (Option (List Row)) → Result ShardError (List Entry)
  unfolding order_rows
  order_shards order_by index [] = ok []
  order_shards order_by index (none ∷ rest) = err config
  order_shards order_by index (some rows ∷ rest) = do
    entries ← order_rows order_by index rows
    others ← order_shards order_by (suc index) rest
    ok (entries ++ others)

  unfoldable pub keep_first : String → List (List ℕ) → List Entry → Result ShardError (List Row)
  keep_first pk seen [] = ok []
  keep_first pk seen ((value, index, row) ∷ rest) = do
    pk_value ← or_config (not_null (get pk row))
    let text = value_text pk_value
    rows ← keep_first pk (if has seen text then seen else text ∷ seen) rest
    ok (if has seen text then rows else row ∷ rows)

  unfoldable pub merge :
      String → String → ℕ → ℕ → List (Option (List Row)) → Result ShardError (List Row)
  unfolding order_shards sort_by keep_first
  merge order_by pk offset limit results = do
    ordered ← order_shards order_by 0 results
    merged ← keep_first pk [] (sort_by ordered)
    ok (take limit (drop offset merged))

  pub record ScatterRequest : Type 0 where
    pub table : String
    pub order_by : String
    pub limit : ℕ
    pub offset : ℕ
    pub max_concurrency : ℕ

  -- What a shard's task has come to when the gathering ends.
  pub data Outcome : Type 0 where
    answered : List Row → Outcome
    failed unfinished panicked : Outcome

  abbrev pub rows_of : List Outcome → List (Option (List Row))
  rows_of [] = []
  rows_of (answered rows ∷ rest) = some rows ∷ rows_of rest
  rows_of (o ∷ rest) = none ∷ rows_of rest

  abbrev pub has_panicked : List Outcome → Bool
  has_panicked [] = false
  has_panicked (panicked ∷ rest) = true
  has_panicked (o ∷ rest) = has_panicked rest

  abbrev pub failed_names : List String → List Outcome → List String
  failed_names (s ∷ shards) (failed ∷ rest) = s ∷ failed_names shards rest
  failed_names (s ∷ shards) (o ∷ rest) = failed_names shards rest
  failed_names _ _ = []

  -- The names of the shards that the time was too short for.
  abbrev pub unfinished_names : List String → List String → List Outcome → List String
  unfinished_names names (s ∷ shards) (unfinished ∷ rest) =
      unfinished_names (if contains names s then names else names ++ s ∷ []) shards rest
  unfinished_names names (s ∷ shards) (o ∷ rest) = unfinished_names names shards rest
  unfinished_names names _ _ = names

  -- `sort` is that of texts.
  unfoldable pub gathered :
      (List String → List String)
      → ScatterRequest
      → ShardTable
      → List Outcome
      → Result ShardError (List Row)
  unfolding merge
  gathered sort req t outcomes =
      let names = unfinished_names (failed_names t.shards outcomes) t.shards outcomes in
      if has_panicked outcomes
      then err config
      else if is_empty names
      then merge req.order_by t.pk req.offset req.limit (rows_of outcomes)
      else err (partial_failure (sort names))

  unfoldable pub scatter :
      (List String → List String)
      → ShardRouter
      → ScatterRequest
      → List Outcome
      → Result ShardError (List Row)
  unfolding gathered check_endpoints
  scatter sort r req outcomes = if req.max_concurrency == 0 then err config else (do
    t ← or_unknown req.table (find_table r.catalog req.table)
    check_endpoints r.clients t.shards
    gathered sort req t outcomes)
