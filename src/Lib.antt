-- ===== src/Lib.antt =====
-- Verification of the core of ecat, a Rust framework for services: the parts whose correctness
-- rests on their own state machines, and not on the servers that they talk to.
--
-- Breaker (ecat-circuit-breaker/src: breaker.rs, window.rs, tower.rs). A call of
-- `Breaker::call` is two critical sections around an await, `admit` and `settle`, and the
-- drop of a probe permit, `drop_permit`. Breaker/Window has the sliding window, Breaker/Layer the
-- builder of the tower layer, Breaker/System the concurrent calls as steps between the sections.
-- Floating point is a record of operations, `Floats`, and the clock an argument.
--
-- Sharding/Snowflake (ecat-data-sharding/src/id.rs). The packed atomic word, one round of the
-- loop up to its exchange (`attempt`), and `next_id` over a list of rounds, which bounds the loop: each
-- has a reading of the clock, and the word that other threads publish before the exchange, which
-- then fails. Progress shows which rounds are enough. Threads lets any number of threads take
-- their rounds in any order. The subtraction of the epoch is one of integers without bounds.
--
-- Sharding/Catalog, Sharding/Router (ecat-data-sharding/src: catalog.rs, router.rs). The checks of a
-- catalogue, the shard of a key, and the router with its reloads. A JSON key is given by its kind
-- and its bytes, `str::trim` by `is_blank`.
--
-- Sharding/Plan (ecat-data-sharding/src/migrate/plan.rs). `ShardPlan::diff` with the moves of range
-- tables and the full copies of the others. An i64 is an integer from `min_i64` on; the moves are
-- in a list with the last one first, which is reversed at the end. Plan/Taken says which keys a list
-- of moves takes, Plan/Cuts and Plan/Sorted what holds between two boundaries, Plan/OneInterval what
-- the move of one interval does, Plan/Cover follows the loop over them, and Plan/Routes joins a plan
-- with the routers of its two catalogues.
--
-- Sharding/Migrate (ecat-data-sharding/src/migrate: mod.rs, schema.rs, cutover.rs). The checks of a
-- migrator, the table of its jobs, the cutover and the rollback, as actions on the jobs and the
-- router; each request to the database of the jobs takes the next of a list of answers, and where
-- none is left the database is gone.
--
-- Sharding/Backfill (ecat-data-sharding/src/migrate: backfill.rs, mod.rs). The copy of each move in
-- chunks by primary key, with its jobs and the fence. A database is its tables, each a list in the
-- order of the primary key, and what it answers is a list of answers. The loop over the chunks runs on
-- fuel: one more than the rows of the source is enough. Backfill/Copy has the loop and the runs,
-- Backfill/Rows tables and cursors, Backfill/Rule the rules for actions, Backfill/Copied what a job
-- has copied, Backfill/Loop and Backfill/Resume follow a run, Backfill/Runs any number of them. The
-- moves of a plan run one after another; the theorems are on one move, beside which nothing writes.
--
-- Sharding/Verify (ecat-data-sharding/src/migrate/verify.rs). The two scans, with the tables of the
-- backfill, the groups of moves, and their comparison with the jobs; Verify/Scan has a scan in chunks,
-- Verify/Trace the jobs, Verify/Agree a group, Verify/Groups all groups. The SQL texts,
-- the dialects and the schema of the jobs are not modelled.
--
-- Sharding/DualWrite (ecat-data-sharding/src: migrate/dual_write.rs, client.rs). The client of a key
-- in two topologies and its requests. A client is its address; what it answers is an argument, which
-- sees all that the clients have carried out, and it may leave a statement that it has carried out
-- unanswered. Transactions are left out: they write to the primary alone. DualWrite/Mirror has one
-- request, DualWrite/Calls any calls for any keys.
--
-- Sharding/Outbox (ecat-data-sharding/src: outbox.rs, outbox/relay.rs). The table as a list of rows,
-- with each operation of the store as a step on it; the database answers, refuses, or takes effect and
-- loses the answer (`Reply`), at each operation anew. A claim is one transaction and takes the rows in
-- the order of the database's texts, `id_before`; skipped locks are left out, since the transactions
-- follow one another. Times are numbers, up to the last date `max_time`; the encodings of a payload
-- and of a time are not modelled, nor is a negative duration of a lease or a retry. Outbox/Keys has the
-- primary key, Outbox/Life the life of a record, Outbox/Runs any sequence of operations, Outbox/Steps
-- what each does to a status, Outbox/Refines that it does so, Outbox/Lease a claim beside leased
-- records, Outbox/Claimed the rows of a claim, Outbox/Relay a round of the relay, Outbox/Becomes and
-- Outbox/Marks what it makes of the records.
--
-- Sharding/Scatter (ecat-data-sharding/src/scatter.rs). One query to all shards: what the tasks have
-- come to when the gathering ends is an argument, and `merge` sorts the rows, drops repeated primary
-- keys and takes a page. The sort is an insertion that keeps equal rows in place, as `sort_by` does.
-- serde_json's numbers and texts are the record `Numbers`. Scatter/Sorting has the sort,
-- Scatter/Merging the rows that are kept, Scatter/Whole the outcomes.
--
-- Graphql (ecat-graphql/src: parser/mod.rs, parser/strings.rs, validation.rs). A query is the list
-- of its bytes, a position the list of the bytes that are left, a text its UTF-8 bytes, and a JSON
-- or hash map a list of entries. Graphql/Scan has the functions that skip, Graphql/Literal the string
-- literals, Graphql/Args the values and arguments, Graphql/Query fields, selections, the query and
-- the budget of nodes. serde_json is the parameter `from_slice`. The depth is counted downwards from
-- `MAX_DEPTH + 1`, which makes the recursion structural; every other loop runs on as much fuel as
-- there are bytes left where it starts, and one more, and each round of it reads a byte at least.
-- The executor and the schema of the crate are left out.
--
-- TwoPhase (ecat-data-2pc/src: coordinator.rs, recovery.rs). `begin`, `execute`, `commit` and
-- `rollback` in TwoPhase and TwoPhase/Begin, the recovery of one transaction in TwoPhase/Recovery,
-- each as an action on the log's row and on the list of requests made. Participants, database and
-- fence lock are outside the repository: an `Env` answers each request, done, lost or refused, from
-- all requests before it, and a lost request took effect. A crash of the coordinator is an `Env` that
-- refuses all until a recovery begins. Several rows in one run of recovery, the SQL texts and the
-- pinned connections of xa.rs are left out.
--
-- Saga (ecat-saga/src: saga.rs, state.rs). `run` and `resume` on one saga, over a store that keeps
-- what `MemorySagaStateStore` keeps. An `Env` says which calls of the store fail, and what a step
-- does; `encode` and `decode` stand for the JSON of a context. The SQL store is left out.
--
-- Routing (ecat-data/src/routing.rs). The endpoint that a read takes, over the breakers of Breaker.
-- The counter is a usize of 64 bits that wraps around, as in a release build. All endpoints are
-- asked at one reading of the clock, and what the probe of a lag answers is a field.
--
-- Archive (ecat-data-tiering/src/state.rs): the phases of an archived chunk and `advance`, whose
-- comparison and write are one statement. Archive/Run (ecat-data-tiering/src: archive.rs, sink/s3.rs)
-- has the store and the requests of a run, Archive/Run/Partition `archive_partition` with `run_once`
-- around it, Archive/Run/Chunks the chunks into which the rows fall, Archive/Run/Loop and
-- Archive/Run/Safety the invariant of the loop and of many runs, Archive/Run/Calm and
-- Archive/Run/Ending the end of the loop. Rows are their ids; a run works on one partition, and each
-- request takes the next of a list of replies, which says whether it is answered, lost or refused and
-- when. The loop has a round for each reply and one more, and a round that goes on takes one at least.
-- The throttle, the release of the lock and the ClickHouse sink are left out.
--
-- Retry (ecat-middleware/src/retry.rs): the delays and the
-- retry policy. RateLimit (ecat-middleware/src/ratelimit.rs): the store of the rate limiter.
--
-- Prelude holds the shared names, lists and tests over native numbers, integers, results, bits,
-- loops on fuel, and actions that change a state and may fail, with the rules by which they are
-- proved.
-- The other crates are clients of external stores, brokers and schedulers, glue to web and metric
-- libraries, generated code and examples, and are not modelled.
pub mod Prelude
pub mod Breaker
pub mod Sharding
pub mod TwoPhase
pub mod Saga
pub mod Archive
pub mod Retry
pub mod RateLimit
pub mod Graphql
pub mod Routing
