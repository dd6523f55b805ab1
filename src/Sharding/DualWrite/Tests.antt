-- ===== src/Sharding/DualWrite/Tests.antt =====
-- Two topologies of a range table: the keys from 50 to 99 move, the others keep their client.
use e_cat.Prelude.{
  ℕ, ◌==◌, String, ◌≡◌, refl, Bool, true, false, List, [], ◌∷◌, length, if◌then◌else◌, arith,
}
use mathlib.Core.List.{Sublist}
use mathlib.Core.List.Sublist
use text.Mathlib.Text.{◌==◌ as str_eq}
use e_cat.Prelude.Result.{ok}
use e_cat.Prelude.Int.{ℤ, pos}
use e_cat.Sharding.Catalog.{range, ShardTable, Key, int, check_algorithm, index_in, shard_for}
use e_cat.Sharding.Router.{client_of, endpoint, route, routed, for_key_with_shard}
use e_cat.Sharding.DualWrite.{
  Topology, DualWrite, before_cutover, assume_distinct, for_key, Request, execute_with,
  execute_then_query, Statement, Log, Fate, replied, refused, mirrored, send, replay, request, Call,
  all_calls,
}
use e_cat.Sharding.DualWrite.Mirror.{held}
use e_cat.Sharding.DualWrite.Calls.{mirror_behind, mirror_level}

abbrev users : List ℤ → List String → ShardTable
users boundaries shards = record {
  name = "users";
  key = "id";
  pk = "id";
  algorithm = range boundaries;
  shards = shards;
}

abbrev old_side : Topology
old_side = record {
  router = record {
    catalog = users (pos 100 ∷ []) ("s0" ∷ "s1" ∷ []) ∷ [];
    clients = "s0" ∷ "s1" ∷ [];
  };
  address = λ name. if str_eq name "s0" then 0 else 1;
}

abbrev new_side : Topology
new_side = record {
  router = record {
    catalog = users (pos 50 ∷ pos 100 ∷ []) ("n0" ∷ "n1" ∷ "n2" ∷ []) ∷ [];
    clients = "n0" ∷ "n1" ∷ "n2" ∷ [];
  };
  address = λ name. if str_eq name "n0" then 0 else if str_eq name "n1" then 2 else 1;
}

abbrev dual : DualWrite
dual = assume_distinct (before_cutover old_side new_side)

abbrev key_of : ℕ → Key
key_of id = int (pos id) []

-- An answer is a count; the first parameter is the key's number.
abbrev on_70 : Statement ℕ ℕ → Bool
on_70 (sql, []) = false
on_70 (sql, id ∷ params) = id == 70

abbrev answers : Log ℕ ℕ → ℕ → Request ℕ ℕ → Fate ℕ ℕ
answers log c q = replied 1

-- The new client of the moved keys does not answer after its first statement.
abbrev breaks : Log ℕ ℕ → ℕ → Request ℕ ℕ → Fate ℕ ℕ
breaks log c q = if c == 2 then (if length log == 1 then replied 1 else refused) else replied 1

abbrev set_age : (fate : Log ℕ ℕ → ℕ → Request ℕ ℕ → Fate ℕ ℕ) → ℕ → ℕ → Call ℕ ℕ fate
set_age fate id age = record {
  table = "users";
  key = key_of id;
  asked = execute_with "UPDATE users SET age = ?2 WHERE id = ?1" (id ∷ age ∷ []);
}

abbrev insert : (fate : Log ℕ ℕ → ℕ → Request ℕ ℕ → Fate ℕ ℕ) → ℕ → Call ℕ ℕ fate
insert fate id = record {
  table = "users";
  key = key_of id;
  asked = execute_then_query "INSERT INTO users (id) VALUES (?)" (id ∷ []) "SELECT ROW_COUNT()";
}

abbrev calls : (fate : Log ℕ ℕ → ℕ → Request ℕ ℕ → Fate ℕ ℕ) → List (Call ℕ ℕ fate)
calls fate = insert fate 70 ∷ set_age fate 7 30 ∷ set_age fate 70 31 ∷ []

old_shard : for_key_with_shard old_side.router "users" (key_of 70) ≡ routed (ok "s0")
unfolding for_key_with_shard route endpoint client_of shard_for check_algorithm index_in
old_shard = refl

new_shard : for_key_with_shard new_side.router "users" (key_of 70) ≡ routed (ok "n1")
unfolding for_key_with_shard route endpoint client_of shard_for check_algorithm index_in
new_shard = refl

all_answered : (all_calls ℕ ℕ answers dual (calls answers) []).0 ≡ true
unfolding all_calls for_key for_key_with_shard route endpoint client_of shard_for check_algorithm
    index_in request replay mirrored send
all_answered = refl

left_behind :
    held ℕ ℕ breaks on_70 2 (all_calls ℕ ℕ breaks dual (calls breaks) []).1
    ≡ ("INSERT INTO users (id) VALUES (?)", 70 ∷ []) ∷ []
unfolding all_calls for_key for_key_with_shard route endpoint client_of shard_for check_algorithm
    index_in request replay mirrored send
left_behind = refl

mirror_behind_example :
    Sublist
      (held ℕ ℕ breaks on_70 2 (all_calls ℕ ℕ breaks dual (calls breaks) []).1)
      (held ℕ ℕ breaks on_70 0 (all_calls ℕ ℕ breaks dual (calls breaks) []).1)
mirror_behind_example =
    mirror_behind ℕ ℕ breaks on_70 dual "users" (key_of 70) "s0" "n1" (calls breaks) [] old_shard
      new_shard (λ _. (refl, refl), (λ e. absurd (ground arith), (λ _. (refl, refl), tt)))
      (Sublist.refl [])

mirror_level_example :
    held ℕ ℕ answers on_70 2 (all_calls ℕ ℕ answers dual (calls answers) []).1
    ≡ held ℕ ℕ answers on_70 0 (all_calls ℕ ℕ answers dual (calls answers) []).1
mirror_level_example =
    mirror_level ℕ ℕ answers on_70 dual "users" (key_of 70) "s0" "n1" (calls answers) [] old_shard
      new_shard (λ _. (refl, refl), (λ e. absurd (ground arith), (λ _. (refl, refl), tt)))
      (λ e. absurd (ground arith)) all_answered refl
