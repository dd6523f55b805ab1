-- ===== src/Sharding/Catalog/Lookup.antt =====
-- ecat-data-sharding/src/catalog.rs: what a lookup finds, and that a checked catalogue finds it.
use e_cat.Prelude.{
  ℕ, zero, suc, ◌<◌, ◌≤◌, String, ◌≡◌, refl, subst, ◌⊎◌, inl, inr, Bool, true, false, Option, none,
  some, List, [], ◌∷◌, length, get_elem?, if◌then◌else◌, arith,
}
use text.Mathlib.Text.{◌==◌ as str_eq}
use e_cat.Prelude.Result.{Result, ok, err, ◌>>=◌, ◌>>◌}
use e_cat.Prelude.Int.{ℤ, ltb_ℤ, ◌≤ℤ◌}
use e_cat.Sharding.Error.{ShardError}
use e_cat.Sharding.Catalog.{
  ShardAlgorithm, hash_mod, range, ShardTable, ShardCatalog, Key, null, string, int, big, other,
  stable_hash64, check_algorithm, find_table, or_unknown, partition_point, index_in, shard_for,
  check_table, validate_from, validate,
}

-- The boundary before the shard is no more than the key, and the boundary after it is more.
abbrev pub LowerOk : List ℤ → ℕ → ℤ → Type 0
LowerOk boundaries zero id = Unit {0}
LowerOk boundaries (suc i) id = (b : ℤ) → get_elem? boundaries i ≡ some b → b ≤ℤ id

abbrev pub UpperOk : List ℤ → ℕ → ℤ → Type 0
UpperOk boundaries i id = (b : ℤ) → get_elem? boundaries i ≡ some b → ltb_ℤ id b ≡ true

pub partition_bounded : (bs : List ℤ) (id : ℤ) → partition_point bs id ≤ length bs
partition_bounded [] id = omega arith
partition_bounded (b ∷ bs) id = ground (arith, partition_bounded bs id)

index_bounded :
    (a : ShardAlgorithm) (n : ℕ) (key : Key) (i : ℕ)
    → check_algorithm a n ≡ ok tt
    → index_in a key ≡ ok i
    → i < n
unfolding check_algorithm index_in stable_hash64
index_bounded (hash_mod zero) n key i c e = ground arith
index_bounded (hash_mod (suc m)) n key i c e = ground arith
index_bounded (range bs) n (int id bytes) i c e = ground (arith, partition_bounded bs id)
index_bounded (range bs) n null i c e = ground arith
index_bounded (range bs) n (string bytes) i c e = ground arith
index_bounded (range bs) n (big bytes) i c e = ground arith
index_bounded (range bs) n (other bytes) i c e = ground arith

pub checked :
    {A : Type 0} (r : Result ShardError (Unit {0})) (k : Result ShardError A) (i : A)
    → (r >> k) ≡ ok i
    → (r ≡ ok tt) × (k ≡ ok i)
checked (ok _) k i e = (refl, e)
checked (err x) k i e = absurd (ground arith)

found_bounded :
    (name : String) (key : Key) (i : ℕ) (o : Option ShardTable)
    → (do
      t ← or_unknown name o
      check_algorithm t.algorithm (length t.shards)
      index_in t.algorithm key)
      ≡ ok i
    → (t : ShardTable) × (o ≡ some t) × (i < length t.shards)
found_bounded name key i none e = absurd (ground arith)
found_bounded name key i (some t) e =
    let (c, x) =
      checked (check_algorithm t.algorithm (length t.shards)) (index_in t.algorithm key) i e in
    (t, refl, index_bounded t.algorithm (length t.shards) key i c x)

-- Whatever the catalogue, checked or not: an index that the lookup of a key returns is below the
-- number of endpoints of the table of that name.
pub shard_for_bounded :
    (catalog : ShardCatalog) (name : String) (key : Key) (i : ℕ)
    → shard_for catalog name key ≡ ok i
    → (t : ShardTable) × (find_table catalog name ≡ some t) × (i < length t.shards)
unfolding shard_for
shard_for_bounded catalog name key i e = found_bounded name key i (find_table catalog name) e

lower_suc :
    (b : ℤ) (bs : List ℤ) (id : ℤ) (p : ℕ) → b ≤ℤ id → LowerOk bs p id → LowerOk (b ∷ bs) (suc p) id
lower_suc b bs id zero h low c e = ground arith
lower_suc b bs id (suc p) h low c e = low c e

lower_test :
    (b : ℤ) (bs : List ℤ) (id : ℤ) (t : Bool)
    → ltb_ℤ id b ≡ t
    → LowerOk bs (partition_point bs id) id
    → LowerOk (b ∷ bs) (if t then 0 else suc (partition_point bs id)) id
lower_test b bs id true e low = tt
lower_test b bs id false e low = lower_suc b bs id (partition_point bs id) (ground arith) low

lower : (bs : List ℤ) (id : ℤ) → LowerOk bs (partition_point bs id) id
lower [] id = tt
lower (b ∷ bs) id = lower_test b bs id (ltb_ℤ id b) refl (lower bs id)

upper_test :
    (b : ℤ) (bs : List ℤ) (id : ℤ) (t : Bool)
    → ltb_ℤ id b ≡ t
    → UpperOk bs (partition_point bs id) id
    → UpperOk (b ∷ bs) (if t then 0 else suc (partition_point bs id)) id
upper_test b bs id true e up c f = ground arith
upper_test b bs id false e up c f = up c f

upper : (bs : List ℤ) (id : ℤ) → UpperOk bs (partition_point bs id) id
upper [] id = λ b e. absurd (ground arith)
upper (b ∷ bs) id = upper_test b bs id (ltb_ℤ id b) refl (upper bs id)

-- A range table sends an i64 key to the interval that holds it: the boundary before the shard, if
-- any, is no more than the key, and the boundary after it, if any, is more.
index_in-Interval :
    (boundaries : List ℤ) (id : ℤ) (bytes : List ℕ) (i : ℕ)
    → index_in (range boundaries) (int id bytes) ≡ ok i
    → LowerOk boundaries i id × UpperOk boundaries i id
unfolding index_in
index_in-Interval boundaries id bytes i e =
    subst (λ j. LowerOk boundaries j id × UpperOk boundaries j id) (ground arith)
      (lower boundaries id, upper boundaries id)

index_found :
    (a : ShardAlgorithm) (n : ℕ) (id : ℤ) (bytes : List ℕ)
    → check_algorithm a n ≡ ok tt
    → (i : ℕ) × (index_in a (int id bytes) ≡ ok i)
unfolding check_algorithm index_in stable_hash64
index_found (hash_mod zero) n id bytes c = absurd (ground arith)
index_found (hash_mod (suc m)) n id bytes c = (_, refl)
index_found (range bs) n id bytes c = (_, refl)

pub first_found :
    (u t : ShardTable) (b : Bool) (o : Option ShardTable)
    → (if b then some u else o) ≡ some t
    → (u ≡ t) ⊎ (o ≡ some t)
first_found u t true o e = inl (ground arith)
first_found u t false o e = inr e

module _ (is_blank : String → Bool) where
  table_checked :
      (seen : List String) (t : ShardTable)
      → check_table is_blank seen t ≡ ok tt
      → check_algorithm t.algorithm (length t.shards) ≡ ok tt
  unfolding check_table
  table_checked seen t e = ground arith

  found_checked :
      (seen : List String) (catalog : ShardCatalog) (name : String) (t : ShardTable)
      → validate_from is_blank seen catalog ≡ ok tt
      → find_table catalog name ≡ some t
      → check_algorithm t.algorithm (length t.shards) ≡ ok tt
  unfolding validate_from
  found_checked seen [] name t v e = absurd (ground arith)
  found_checked seen (u ∷ rest) name t v e =
      let (head, tail) =
        checked (check_table is_blank seen u) (validate_from is_blank (u.name ∷ seen) rest) tt v in
      elim (first_found u t (str_eq u.name name) (find_table rest name) e) [
        | inl same ↦
            subst (λ x. check_algorithm x.algorithm (length x.shards) ≡ ok tt) same
              (table_checked seen u head)
        | inr later ↦ found_checked (u.name ∷ seen) rest name t tail later
      ]

  -- A catalogue that passes `validate` routes every i64 key of each of its tables to one of the table's
  -- shards: the lookup returns an index, and it is below the number of the table's endpoints.
  pub validate-shard_for :
      (catalog : ShardCatalog) (name : String) (t : ShardTable) (id : ℤ) (bytes : List ℕ)
      → validate is_blank catalog ≡ ok tt
      → find_table catalog name ≡ some t
      → (i : ℕ) × (shard_for catalog name (int id bytes) ≡ ok i) × (i < length t.shards)
  unfolding validate shard_for
  validate-shard_for catalog name t id bytes v e =
      let c = found_checked [] catalog name t v e in
      let (i, x) = index_found t.algorithm (length t.shards) id bytes c in
      (i, rw (e, c) x, index_bounded t.algorithm (length t.shards) (int id bytes) i c x)
