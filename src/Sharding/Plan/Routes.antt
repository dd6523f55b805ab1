-- ===== src/Sharding/Plan/Routes.antt =====
-- ecat-data-sharding/src: migrate/plan.rs and router.rs, together: a key that a plan does not take
-- is routed as before.
use e_cat.Prelude.{
  ℕ, zero, suc, String, ◌≡◌, refl, sym, ap, ◌∙◌, false, some, List, [], ◌∷◌, length, get_elem?,
  Bool-cases, inl, inr, arith,
}
use text.Mathlib.Text.{◌==◌ as str_eq}
use text.Mathlib.TextEquality.{eq_iff}
use e_cat.Prelude.Result.{Result, ok}
use e_cat.Prelude.Int.{ℤ, ltb_ℤ}
use e_cat.Sharding.Error.{ShardError}
use e_cat.Sharding.Catalog.{
  range, ShardTable, ShardCatalog, int, check_algorithm, index_in, partition_point, find_table,
  shard_for,
}
use e_cat.Sharding.Catalog.Lookup.{partition_bounded}
use e_cat.Sharding.Router.{ShardRouter, client_of, endpoint, route, for_key_with_shard}
use e_cat.Sharding.Plan.{ShardMove, min_i64, get_shard, range_moves}
use e_cat.Sharding.Plan.Taken.{taken}
use e_cat.Sharding.Plan.OneInterval.{shard_of, to_take, changed, get_found, shard_of_range}
use e_cat.Sharding.Plan.Cover.{enough_shards, range_moves_cover}

get_elem-get_shard :
    (shards : List String) (i : ℕ) (n : String)
    → get_shard shards i ≡ ok n
    → get_elem? shards i ≡ some n
get_elem-get_shard [] i n e = absurd (ground arith)
get_elem-get_shard (x ∷ xs) zero n e = ground arith
get_elem-get_shard (x ∷ xs) (suc i) n e = get_elem-get_shard xs i n e

nothing_to_take : (from to : String) → to_take from to ≡ [] → from ≡ to
nothing_to_take from to h = elim (Bool-cases (str_eq from to)) [
  | inl e ↦ (eq_iff from to).0 e
  | inr e ↦ absurd (ground arith)
]

index_at :
    (catalog : ShardCatalog) (name : String) (t : ShardTable) (bs : List ℤ) (key : ℤ)
    (bytes : List ℕ)
    → find_table catalog name ≡ some t
    → t.algorithm ≡ range bs
    → check_algorithm (range bs) (length t.shards) ≡ ok tt
    → shard_for catalog name (int key bytes) ≡ ok (partition_point bs key)
unfolding shard_for index_in
index_at catalog name t bs key bytes found algorithm checked = rw (found, algorithm, checked) refl

routed_at :
    (r : ShardRouter) (name : String) (t : ShardTable) (bs : List ℤ) (key : ℤ) (bytes : List ℕ)
    (n : String)
    → find_table r.catalog name ≡ some t
    → t.algorithm ≡ range bs
    → check_algorithm (range bs) (length t.shards) ≡ ok tt
    → get_shard t.shards (partition_point bs key) ≡ ok n
    → for_key_with_shard r name (int key bytes) ≡ client_of r.clients (some n)
unfolding for_key_with_shard route endpoint
routed_at r name t bs key bytes n found algorithm checked at =
    rw
      (
        index_at r.catalog name t bs key bytes found algorithm checked,
        found,
        get_elem-get_shard t.shards (partition_point bs key) n at,
      )
      refl

plan_inj :
    (a b : List ShardMove) (r : Result ShardError (List ShardMove)) → r ≡ ok a → r ≡ ok b → a ≡ b
plan_inj a b r e f = ground arith

shard_found :
    (t : ShardTable) (bs : List ℤ) (key : ℤ)
    → check_algorithm (range bs) (length t.shards) ≡ ok tt
    → (n : String) × (get_shard t.shards (partition_point bs key) ≡ ok n)
shard_found t bs key c =
    let enough = enough_shards bs (length t.shards) c in
    get_found t.shards (partition_point bs key) (omega (arith, partition_bounded bs key))

-- An i64 key that no move of the plan of its range table takes is routed to the same endpoint, or
-- refused for the same reason, by the router with the old catalogue and by the one with the new.
pub untaken_key_routes :
    (r : ShardRouter) (new_catalog : ShardCatalog) (name : String) (old new : ShardTable)
    (olds news : List ℤ) (key : ℤ) (bytes : List ℕ) (moves : List ShardMove)
    → find_table r.catalog name ≡ some old
    → find_table new_catalog name ≡ some new
    → old.algorithm ≡ range olds
    → new.algorithm ≡ range news
    → check_algorithm (range olds) (length old.shards) ≡ ok tt
    → check_algorithm (range news) (length new.shards) ≡ ok tt
    → ltb_ℤ key min_i64 ≡ false
    → range_moves old new ≡ ok moves
    → taken key moves ≡ []
    → for_key_with_shard r name (int key bytes)
      ≡ for_key_with_shard (record r { catalog = new_catalog }) name (int key bytes)
untaken_key_routes r new_catalog name old new olds news key bytes moves fo fn eo en co cn domain
      made none_taken =
    let (from, at_old) = shard_found old olds key co in
    let (to, at_new) = shard_found new news key cn in
    let (moves', made', covered) = range_moves_cover old new olds news key eo en co cn domain in
    let one_plan : moves' ≡ moves = plan_inj moves' moves (range_moves old new) made' made in
    let shards : changed (shard_of old key) (shard_of new key) ≡ to_take from to =
      ap (λ (x : Result ShardError String). changed x (shard_of new key))
        (shard_of_range old olds key eo ∙ at_old)
      ∙ ap (λ (y : Result ShardError String). changed (ok from) y)
          (shard_of_range new news key en ∙ at_new) in
    let same : from ≡ to =
      nothing_to_take from to (sym shards ∙ sym covered ∙ ap (taken key) one_plan ∙ none_taken) in
    routed_at r name old olds key bytes from fo eo co at_old
    ∙ ap (λ n. client_of r.clients (some n)) same
    ∙ sym
        (routed_at (record r { catalog = new_catalog }) name new news key bytes to fn en cn at_new)
