-- ===== src/Sharding/DualWrite.antt =====
-- ecat-data-sharding/src/migrate/dual_write.rs, with `KeyedClient` of client.rs: writes that go to
-- two topologies while keys move. A client is known by its address, which `Arc::ptr_eq` compares;
-- what it answers is a parameter. Texts of messages and transactions, which are those of the
-- primary alone, are left out.
pub mod Mirror
pub mod Calls
mod Tests
use e_cat.Prelude.{
  ℕ, String, ◌==◌, ◌≡◌, Bool, true, false, ◌&&◌, Option, none, some, List, [], ◌∷◌, if◌then◌else◌,
}
use e_cat.Prelude.Result.{Result, ok, err}
use e_cat.Sharding.Error.{ShardError, config}
use e_cat.Sharding.Catalog.{Key}
use e_cat.Sharding.Router.{ShardRouter, Routed, routed, for_key_with_shard}

pub data IdentityPolicy : Type 0 where
  error write_both primary_only : IdentityPolicy

-- A router, with the address of the client behind each of its names.
pub record Topology : Type 0 where
  pub router : ShardRouter
  pub address : String → ℕ

pub record DualWrite : Type 0 where
  pub primary : Topology
  pub mirror : Topology
  pub identity : IdentityPolicy

abbrev pub before_cutover : Topology → Topology → DualWrite
before_cutover old new = record { primary = old; mirror = new; identity = error }

abbrev pub after_cutover : Topology → Topology → DualWrite
after_cutover new old = record { primary = new; mirror = old; identity = error }

abbrev pub assume_distinct : DualWrite → DualWrite
assume_distinct d = record d { identity = write_both }

abbrev pub assume_same : DualWrite → DualWrite
assume_same d = record d { identity = primary_only }

-- `KeyedClient` without its table, which only messages name.
abbrev pub KeyedClient : Type 0
KeyedClient = ℕ

pub record DualWriteClient : Type 0 where
  pub primary : KeyedClient
  pub mirror : Option KeyedClient

pub data Keyed : Type 0 where
  panicked : Keyed
  keyed : Result ShardError DualWriteClient → Keyed

abbrev pub by_identity :
    IdentityPolicy → KeyedClient → KeyedClient → Result ShardError DualWriteClient
by_identity error p m = err config
by_identity write_both p m = ok (record { primary = p; mirror = some m })
by_identity primary_only p m = ok (record { primary = p; mirror = none })

abbrev pub pair_clients :
    IdentityPolicy → KeyedClient → KeyedClient → Result ShardError DualWriteClient
pair_clients identity p m =
    if p == m then ok (record { primary = p; mirror = none }) else by_identity identity p m

abbrev pub both_sides : DualWrite → Routed → Routed → Keyed
both_sides d Routed.panicked mirror = panicked
both_sides d (routed (err e)) mirror = keyed (err e)
both_sides d (routed (ok p)) Routed.panicked = panicked
both_sides d (routed (ok p)) (routed (err e)) = keyed (err e)
both_sides d (routed (ok p)) (routed (ok m)) =
    keyed (pair_clients d.identity (d.primary.address p) (d.mirror.address m))

unfoldable pub for_key : DualWrite → String → Key → Keyed
unfolding for_key_with_shard
for_key d table key =
    both_sides d (for_key_with_shard d.primary.router table key)
      (for_key_with_shard d.mirror.router table key)

-- `V`: a parameter's value, `R`: the rows or the count that a client returns.
module _ (V R : Type 0) where
  pub data Request : Type 0 where
    execute query : (sql : String) → Request
    execute_with query_with query_write : (sql : String) (params : List V) → Request
    execute_then_query : (first : String) (first_params : List V) (second : String) → Request

  -- A statement that a database has carried out, if it is one that writes.
  abbrev pub Statement : Type 0
  Statement = String × List V

  abbrev pub statement : Request → Option Statement
  statement (execute sql) = some (sql, [])
  statement (query sql) = none
  statement (execute_with sql params) = some (sql, params)
  statement (query_with sql params) = none
  statement (query_write sql params) = some (sql, params)
  statement (execute_then_query first first_params second) = some (first, first_params)

  -- What the mirror is sent.
  unfoldable pub mirrored : Request → Option Request
  mirrored (execute sql) = some (execute sql)
  mirrored (query sql) = none
  mirrored (execute_with sql params) = some (execute_with sql params)
  mirrored (query_with sql params) = none
  mirrored (query_write sql params) = some (query_write sql params)
  mirrored (execute_then_query first first_params second) = some (execute_with first first_params)

  -- What the clients have carried out, the last first.
  abbrev pub Log : Type 0
  Log = List (ℕ × Statement)

  -- Carried out and answered, refused, or carried out with an error for an answer.
  pub data Fate : Type 0 where
    replied : R → Fate
    refused unanswered : Fate

  pub data WriteError : Type 0 where
    by_client mirror_failed : WriteError

  abbrev pub carried_out : ℕ → Option Statement → Log → Log
  carried_out c none log = log
  carried_out c (some s) log = (c, s) ∷ log

  abbrev pub settled : ℕ → Request → Log → Fate → Result WriteError R × Log
  settled c q log (replied r) = (ok r, carried_out c (statement q) log)
  settled c q log refused = (err by_client, log)
  settled c q log unanswered = (err by_client, carried_out c (statement q) log)

  abbrev pub mirror_failure : R → Result WriteError R × Log → Result WriteError R × Log
  mirror_failure r (ok _, log) = (ok r, log)
  mirror_failure r (err _, log) = (err mirror_failed, log)

  abbrev pub is_ok : Result WriteError R → Bool
  is_ok (ok r) = true
  is_ok (err e) = false

  module _ (fate : Log → ℕ → Request → Fate) where
    -- `KeyedClient` passes every request on.
    unfoldable pub send : KeyedClient → Request → Log → Result WriteError R × Log
    send c q log = settled c q log (fate log c q)

    unfoldable pub replay :
        Option KeyedClient → Option Request → Result WriteError R × Log → Result WriteError R × Log
    unfolding send
    replay m q (err e, log) = (err e, log)
    replay none q (ok r, log) = (ok r, log)
    replay (some m) none (ok r, log) = (ok r, log)
    replay (some m) (some q) (ok r, log) = mirror_failure r (send m q log)

    -- The methods of `DualWriteClient`.
    unfoldable pub request : DualWriteClient → Request → Log → Result WriteError R × Log
    unfolding replay mirrored
    request w q log = replay w.mirror (mirrored q) (send w.primary q log)

    pub record Call : Type 0 where
      pub table : String
      pub key : Key
      pub asked : Request

    -- Whether the call has succeeded, with the log after it.
    abbrev pub call_keyed : Keyed → Request → Log → Bool × Log
    call_keyed panicked q log = (false, log)
    call_keyed (keyed (err e)) q log = (false, log)
    call_keyed (keyed (ok w)) q log = let r = request w q log in (is_ok r.0, r.1)

    -- `for_key` and a request of the client that it returns, call after call.
    unfoldable pub all_calls : DualWrite → List Call → Log → Bool × Log
    unfolding for_key request
    all_calls d [] log = (true, log)
    all_calls d (c ∷ cs) log =
        let r = call_keyed (for_key d c.table c.key) c.asked log in
        let rest = all_calls d cs r.1 in (r.0 && rest.0, rest.1)
