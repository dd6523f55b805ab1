-- ===== src/Sharding/Tests.antt =====
-- A catalogue with a range table and a hash table, and the theorems on the lookup at it.
use e_cat.Prelude.{ℕ, ◌<◌, false, none, ◌⊎◌, String, ◌≡◌, refl, Bool, true, some, List, [], ◌∷◌}
use text.Mathlib.Text.{◌==◌ as str_eq}
use e_cat.Prelude.Result.{Result, ok}
use e_cat.Prelude.Int.{ℤ, pos, negsuc}
use e_cat.Sharding.Catalog.{
  hash_mod, range, ShardTable, ShardCatalog, int, fnv_from, fnv1a64, check_algorithm, index_in,
  shard_for, check_table, validate_from, validate, contains,
}
use e_cat.Sharding.Catalog.Lookup.{validate-shard_for}
use e_cat.Sharding.Error.{ShardError}
use e_cat.Sharding.Plan.{ShardMove, range_moves}
use e_cat.Sharding.Plan.Taken.{taken}
use e_cat.Sharding.Plan.OneInterval.{shard_of, changed}
use e_cat.Sharding.Plan.Cover.{range_moves_cover}
use e_cat.Sharding.Plan.Routes.{untaken_key_routes}
use e_cat.Sharding.Migrate.{verified, answered, World, cutover}
use e_cat.Sharding.Migrate.Cutover.{AllReady, cutover_verified}
use e_cat.Sharding.Router.{
  ShardRouter, check_endpoints, validate_clients, routed, for_key_with_shard, new_router, reload,
  reload_all, replaced, for_key_routes,
}

abbrev bounds : List ℤ
bounds = negsuc 9 ∷ pos 100 ∷ []

abbrev orders : ShardTable
orders = record {
  name = "orders";
  key = "user";
  pk = "id";
  algorithm = range bounds;
  shards = "s0" ∷ "s1" ∷ "s2" ∷ [];
}

abbrev users : ShardTable
users = record {
  name = "users";
  key = "id";
  pk = "id";
  algorithm = hash_mod 2;
  shards = "s0" ∷ "s1" ∷ [];
}

abbrev catalog : ShardCatalog
catalog = orders ∷ users ∷ []

abbrev never_blank : String → Bool
never_blank s = str_eq s ""

hash_of_a : fnv1a64 (97 ∷ []) ≡ 0xaf63dc4c8601ec8c
unfolding fnv1a64 fnv_from
hash_of_a = refl

at_a_boundary : shard_for catalog "orders" (int (pos 100) []) ≡ ok 2
unfolding shard_for check_algorithm index_in
at_a_boundary = refl

below_all : index_in (range bounds) (int (negsuc 10) []) ≡ ok 0
unfolding index_in
below_all = refl

valid : validate never_blank catalog ≡ ok tt
unfolding validate validate_from check_table check_algorithm
valid = refl

validate-shard_for_example :
    (i : ℕ) × (shard_for catalog "orders" (int (pos 5) []) ≡ ok i) × (i < 3)
validate-shard_for_example =
    validate-shard_for never_blank catalog "orders" orders (pos 5) [] valid refl

abbrev router : ShardRouter
router = record { catalog = catalog; clients = "s0" ∷ "s1" ∷ "s2" ∷ [] }

made : new_router never_blank catalog router.clients ≡ ok router
unfolding new_router validate validate_from check_table check_algorithm validate_clients
    check_endpoints
made = refl

-- The reload to a table with an endpoint that has no client fails.
abbrev orphan : ShardCatalog
orphan = record users { shards = "s0" ∷ "s9" ∷ [] } ∷ []

still_routed :
    shard_for (reload_all never_blank router (orphan ∷ [])).catalog "orders" (int (pos 100) [])
    ≡ ok 2
unfolding reload_all reload replaced validate validate_from check_table check_algorithm
    validate_clients check_endpoints shard_for index_in
still_routed = refl

for_key_routes_example :
    (shard : String) × (for_key_with_shard
        (reload_all never_blank router (orphan ∷ []))
        "orders"
        (int (pos 100) [])
      ≡ routed (ok shard))
    × (contains (reload_all never_blank router (orphan ∷ [])).clients shard ≡ true)
for_key_routes_example =
    for_key_routes never_blank catalog router.clients router (orphan ∷ []) "orders"
      (int (pos 100) []) 2 made still_routed

-- The same table with its first boundary at 0, and with the last shard under another name.
abbrev orders_moved : ShardTable
orders_moved = record orders {
  algorithm = range (pos 0 ∷ pos 100 ∷ []);
  shards = "s0" ∷ "s1" ∷ "s3" ∷ [];
}

to_new_shard :
    changed (shard_of orders (pos 100)) (shard_of orders_moved (pos 100)) ≡ (("s2", "s3") ∷ [])
unfolding index_in
to_new_shard = refl

range_moves_cover_example :
    (moves : List ShardMove) × (range_moves orders orders_moved ≡ ok moves)
    × (taken (pos 100) moves
        ≡ changed (shard_of orders (pos 100)) (shard_of orders_moved (pos 100)))
unfolding check_algorithm
range_moves_cover_example =
    range_moves_cover orders orders_moved bounds (pos 0 ∷ pos 100 ∷ []) (pos 100) refl refl refl
      refl refl

abbrev orders_plan : List ShardMove
orders_plan =
    record {
      table = "orders";
      from = "s1";
      to = "s0";
      key_range = some (record { low = some (negsuc 9); high = some (pos 0) });
    }
    ∷ record {
      table = "orders";
      from = "s2";
      to = "s3";
      key_range = some (record { low = some (pos 100); high = none });
    }
    ∷ []

orders_planned : range_moves orders orders_moved ≡ ok orders_plan
unfolding range_moves
orders_planned = refl

abbrev old_router : ShardRouter
old_router = record { catalog = orders ∷ []; clients = "s0" ∷ "s1" ∷ "s2" ∷ "s3" ∷ [] }

untaken_key_routes_example :
    for_key_with_shard old_router "orders" (int (pos 5) [])
    ≡ for_key_with_shard
        (record old_router { catalog = orders_moved ∷ [] })
        "orders"
        (int (pos 5) [])
unfolding check_algorithm
untaken_key_routes_example =
    untaken_key_routes old_router (orders_moved ∷ []) "orders" orders orders_moved bounds
      (pos 0 ∷ pos 100 ∷ []) (pos 5) [] orders_plan refl refl refl refl refl refl refl
      orders_planned refl

abbrev no_text : ℤ → String
no_text z = ""

abbrev one_move : ShardMove
one_move = record { table = "orders"; from = "s2"; to = "s3"; key_range = none }

abbrev before_cutover : World
before_cutover = record {
  jobs =
      ("orders|s2|s3|none", record { phase = verified; cursor = none; rows = 4; checksum = 9 })
      ∷ [];
  router = record { catalog = orders ∷ []; clients = "s0" ∷ "s1" ∷ "s2" ∷ "s3" ∷ [] };
  answers = answered ∷ answered ∷ answered ∷ [];
}

abbrev all_text : String → String → Result ShardError Bool
all_text shard table = ok false

cutover_returns :
    (cutover no_text never_blank all_text
      ("s2" ∷ "s3" ∷ [])
      (one_move ∷ [])
      (orders_moved ∷ [])
      before_cutover).0
    ≡ ok tt
unfolding cutover
cutover_returns = refl

cutover_verified_example :
    ((cutover no_text never_blank all_text
          ("s2" ∷ "s3" ∷ [])
          (one_move ∷ [])
          (orders_moved ∷ [])
          before_cutover).1.router
        ≡ before_cutover.router
      ⊎ ((cutover no_text never_blank all_text
            ("s2" ∷ "s3" ∷ [])
            (one_move ∷ [])
            (orders_moved ∷ [])
            before_cutover).1.router
          ≡ record before_cutover.router { catalog = orders_moved ∷ [] })
        × AllReady no_text never_blank before_cutover.jobs (one_move ∷ []))
    × ((cutover no_text never_blank all_text
            ("s2" ∷ "s3" ∷ [])
            (one_move ∷ [])
            (orders_moved ∷ [])
            before_cutover).0
          ≡ ok tt
        → ((cutover no_text never_blank all_text
              ("s2" ∷ "s3" ∷ [])
              (one_move ∷ [])
              (orders_moved ∷ [])
              before_cutover).1.router
            ≡ record before_cutover.router { catalog = orders_moved ∷ [] })
          × AllReady no_text never_blank before_cutover.jobs (one_move ∷ []))
cutover_verified_example =
    cutover_verified no_text never_blank all_text ("s2" ∷ "s3" ∷ []) (one_move ∷ [])
      (orders_moved ∷ []) before_cutover
