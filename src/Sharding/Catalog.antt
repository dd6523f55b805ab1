-- ===== src/Sharding/Catalog.antt =====
-- ecat-data-sharding/src/catalog.rs: the checks of a catalogue and the lookup of a key's shard. A
-- JSON value is outside; `Key` is what the lookup asks of one, with the text that a value other
-- than a string is written as.
pub mod Lookup
use e_cat.Prelude.{
  ℕ, zero, suc, ◌+◌, ◌*◌, ◌%◌, ◌^◌, String, Bool, true, false, not, ◌&&◌, ◌||◌, Option, none, some,
  List, [], ◌∷◌, length, ltb, ◌==◌, if◌then◌else◌,
}
use Prim.Native.Nat.{bit_xor}
use text.Mathlib.Text.{◌==◌ as str_eq}
use e_cat.Prelude.Result.{Result, ok, err, ◌>>=◌, ◌>>◌}
use e_cat.Prelude.Int.{ℤ, ltb_ℤ}
use e_cat.Sharding.Error.{
  ShardError, config, missing_key, shard_count_mismatch, unknown_table, id_out_of_range,
}

pub data ShardAlgorithm : Type 0 where
  hash_mod : (shards : ℕ) → ShardAlgorithm
  range : (boundaries : List ℤ) → ShardAlgorithm

pub record ShardTable : Type 0 where
  pub name : String
  pub key : String
  pub pk : String
  pub algorithm : ShardAlgorithm
  pub shards : List String  -- the endpoints' names

abbrev pub ShardCatalog : Type 0
ShardCatalog = List ShardTable

-- A number that is an i64, one that is only a u64, and any other value, each with its bytes.
pub data Key : Type 0 where
  null : Key
  string : (bytes : List ℕ) → Key
  int : ℤ → (bytes : List ℕ) → Key
  big other : (bytes : List ℕ) → Key

unfoldable pub fnv_from : ℕ → List ℕ → ℕ
fnv_from hash [] = hash
fnv_from hash (byte ∷ bytes) = fnv_from (bit_xor hash byte * 0x100000001b3 % 2 ^ 64) bytes

unfoldable pub fnv1a64 : List ℕ → ℕ
unfolding fnv_from
fnv1a64 bytes = fnv_from 0xcbf29ce484222325 bytes

unfoldable pub stable_hash64 : Key → Result ShardError ℕ
unfolding fnv1a64
stable_hash64 null = err missing_key
stable_hash64 (string bytes) = ok (fnv1a64 bytes)
stable_hash64 (int z bytes) = ok (fnv1a64 bytes)
stable_hash64 (big bytes) = ok (fnv1a64 bytes)
stable_hash64 (other bytes) = ok (fnv1a64 bytes)

-- `windows(2).any(|pair| pair[0] >= pair[1])` is its negation.
abbrev pub increasing : List ℤ → Bool
increasing [] = true
increasing (a ∷ []) = true
increasing (a ∷ b ∷ rest) = ltb_ℤ a b && increasing (b ∷ rest)

abbrev pub contains : List String → String → Bool
contains [] name = false
contains (x ∷ xs) name = str_eq x name || contains xs name

abbrev has_duplicate : List String → List String → Bool
has_duplicate seen [] = false
has_duplicate seen (name ∷ names) = contains seen name || has_duplicate (name ∷ seen) names

abbrev pub is_empty : List String → Bool
is_empty [] = true
is_empty (_ ∷ _) = false

unfoldable pub check_algorithm : ShardAlgorithm → ℕ → Result ShardError (Unit {0})
check_algorithm (hash_mod shards) endpoints =
    if shards == 0 || not (shards == endpoints) then err shard_count_mismatch else ok tt
check_algorithm (range boundaries) endpoints =
    if not (length boundaries + 1 == endpoints)
    then err shard_count_mismatch
    else if increasing boundaries
    then ok tt
    else err config

abbrev pub find_table : ShardCatalog → String → Option ShardTable
find_table [] name = none
find_table (t ∷ rest) name = if str_eq t.name name then some t else find_table rest name

abbrev pub or_unknown : String → Option ShardTable → Result ShardError ShardTable
or_unknown name none = err (unknown_table name)
or_unknown name (some t) = ok t

-- `partition_point(|boundary| *boundary <= id)`, a binary search, on boundaries that increase.
abbrev pub partition_point : List ℤ → ℤ → ℕ
partition_point [] id = 0
partition_point (b ∷ rest) id = if ltb_ℤ id b then 0 else suc (partition_point rest id)

-- The tests of `check_algorithm` exclude a divisor of 0.
unfoldable pub index_in : ShardAlgorithm → Key → Result ShardError ℕ
index_in algorithm null = err missing_key
index_in (hash_mod zero) key = err shard_count_mismatch
index_in (hash_mod (suc n)) key = do hash ← stable_hash64 key; ok (hash % suc n)
index_in (range boundaries) (int id bytes) = ok (partition_point boundaries id)
index_in (range boundaries) (big bytes) = err id_out_of_range
index_in (range boundaries) key = err config

unfoldable pub shard_for : ShardCatalog → String → Key → Result ShardError ℕ
unfolding check_algorithm index_in
shard_for catalog name key = do
  t ← or_unknown name (find_table catalog name)
  check_algorithm t.algorithm (length t.shards)
  index_in t.algorithm key

-- `is_blank`: whether `str::trim` leaves nothing.
module _ (is_blank : String → Bool) where
  unfoldable pub check_table : List String → ShardTable → Result ShardError (Unit {0})
  unfolding check_algorithm
  check_table seen t =
      if is_blank t.name || is_blank t.key || is_blank t.pk
      then err config
      else if contains seen t.name
      then err config
      else if is_empty t.shards
      then err config
      else if has_duplicate [] t.shards
      then err config
      else check_algorithm t.algorithm (length t.shards)

  unfoldable pub validate_from : List String → ShardCatalog → Result ShardError (Unit {0})
  unfolding check_table
  validate_from seen [] = ok tt
  validate_from seen (t ∷ rest) = do check_table seen t; validate_from (t.name ∷ seen) rest

  unfoldable pub validate : ShardCatalog → Result ShardError (Unit {0})
  unfolding validate_from
  validate catalog = validate_from [] catalog
