-- ===== src/Sharding/Outbox.antt =====
-- ecat-data-sharding/src/outbox.rs and outbox/relay.rs: the table of the outbox, the operations of
-- its store and the relay. A statement works on the rows as SQL says; a transaction is one step.
-- A time is a number of nanoseconds from the first date; the columns hold what the store writes.
pub mod Keys
pub mod Life
pub mod Runs
pub mod Lease
pub mod Backoff
pub mod Claimed
pub mod Relay
pub mod Becomes
pub mod Marks
pub mod Steps
pub mod Refines
mod Tests
use e_cat.Prelude.{
  ℕ, zero, suc, ◌+◌, ◌-◌, ◌*◌, ◌^◌, min, String, Bool, true, false, not, ◌&&◌, ◌||◌, Option, none,
  some, List, [], ◌∷◌, ◌++◌, map, length, take, ltb, leb, ◌==◌, if◌then◌else◌,
}
use text.Mathlib.Text.{◌==◌ as str_eq}
use e_cat.Prelude.Result.{Result, ok, err}
use e_cat.Sharding.Error.{ShardError, config, database}

pub data OutboxStatus : Type 0 where
  pending processing done failed : OutboxStatus

unfoldable pub as_str : OutboxStatus → String
as_str pending = "pending"
as_str processing = "processing"
as_str done = "done"
as_str failed = "failed"

unfoldable pub parse : String → Result ShardError OutboxStatus
parse s =
    if str_eq s "pending"
    then ok pending
    else if str_eq s "processing"
    then ok processing
    else if str_eq s "done"
    then ok done
    else if str_eq s "failed"
    then ok failed
    else err database

-- A row; without `claimed_at` it is the `OutboxRecord` that is read from it.
pub record OutboxRow : Type 0 where
  pub id : String
  pub aggregate : String
  pub payload : List ℕ
  pub status : OutboxStatus
  pub attempts : ℕ
  pub next_attempt_at : ℕ
  pub claimed_at : Option ℕ

abbrev pub Table : Type 0
Table = List OutboxRow

-- What the database does with a statement or a commit: `lost` is an error after the effect.
pub data Reply : Type 0 where
  answered refused lost : Reply

abbrev pub second : ℕ
second = 1000000000

abbrev pub stale_backoff : ℕ
stale_backoff = 30 * second

abbrev pub is_pending : OutboxStatus → Bool
is_pending pending = true
is_pending _ = false

abbrev pub is_processing : OutboxStatus → Bool
is_processing processing = true
is_processing _ = false

abbrev pub is_waiting : OutboxStatus → Bool
is_waiting pending = true
is_waiting failed = true
is_waiting _ = false

abbrev pub is_done : OutboxStatus → Bool
is_done done = true
is_done _ = false

abbrev pub claimed_before : ℕ → Option ℕ → Bool
claimed_before cutoff none = false
claimed_before cutoff (some t) = ltb t cutoff

unfoldable pub has_id : String → Table → Bool
has_id id [] = false
has_id id (row ∷ rest) = str_eq row.id id || has_id id rest

abbrev pub executed : {A : Type 0} → Reply → A → Table → Table → Result ShardError A × Table
executed answered value old new = (ok value, new)
executed refused value old new = (err database, old)
executed lost value old new = (err database, new)

-- The insertion of an `id` that is there is refused.
unfoldable pub append : Reply → OutboxRow → Table → Result ShardError (Unit {0}) × Table
unfolding has_id
append reply r db =
    if not (is_pending r.status)
    then (err config, db)
    else if has_id r.id db
    then (err database, db)
    else executed reply tt db (db ++ (record r { claimed_at = none } ∷ []))

-- The row whose lease is over waits again.
unfoldable pub reclaim : ℕ → ℕ → OutboxRow → OutboxRow
reclaim cutoff stale_next row =
    if is_processing row.status && claimed_before cutoff row.claimed_at
    then record row {
      status = pending;
      claimed_at = none;
      attempts = row.attempts + 1;
      next_attempt_at = stale_next;
    }
    else row

abbrev pub is_due : ℕ → OutboxRow → Bool
is_due now row = is_waiting row.status && leb row.next_attempt_at now

abbrev pub due_rows : ℕ → Table → Table
due_rows now [] = []
due_rows now (row ∷ rest) =
    let later = due_rows now rest in if is_due now row then row ∷ later else later

-- `from_row` refuses a count that is no u32.
abbrev pub readable : Table → Bool
readable [] = true
readable (row ∷ rest) = ltb row.attempts (2 ^ 32) && readable rest

unfoldable pub lease_row : ℕ → Table → OutboxRow → OutboxRow
unfolding has_id
lease_row now chosen row =
    if has_id row.id chosen then record row { status = processing; claimed_at = some now } else row

abbrev pub as_processing : OutboxRow → OutboxRow
as_processing row = record row { status = processing }

-- `id_before` is the order of the texts in the database, and `max_time` the last date.
module _ (id_before : String → String → Bool) where
  abbrev pub row_before : OutboxRow → OutboxRow → Bool
  row_before a b =
      ltb a.next_attempt_at b.next_attempt_at
      || a.next_attempt_at == b.next_attempt_at && id_before a.id b.id

  abbrev pub insert_row : OutboxRow → Table → Table
  insert_row row [] = row ∷ []
  insert_row row (other ∷ rest) =
      if row_before other row then other ∷ insert_row row rest else row ∷ other ∷ rest

  -- `ORDER BY next_attempt_at, id`
  abbrev pub ordered : Table → Table
  ordered [] = []
  ordered (row ∷ rest) = insert_row row (ordered rest)

  abbrev pub chosen_rows : ℕ → ℕ → Table → Table
  chosen_rows limit now db = take limit (ordered (due_rows now db))

  -- With no row chosen the second update, which the source leaves out, changes nothing.
  abbrev pub claim_chosen : Reply → ℕ → Table → Table → Table → Result ShardError Table × Table
  claim_chosen reply now chosen old swept =
      if readable chosen
      then executed reply (map as_processing chosen) old (map (lease_row now chosen) swept)
      else (err database, old)

  unfoldable pub claim : ℕ → Reply → ℕ → ℕ → ℕ → Table → Result ShardError Table × Table
  unfolding reclaim lease_row
  claim max_time reply limit lease now db =
      let swept = map (reclaim (now - lease) (now + stale_backoff)) db in
      if limit == 0
      then (ok [], db)
      else if ltb now lease || ltb max_time (now + stale_backoff)
      then (err config, db)
      else claim_chosen reply now (chosen_rows limit now swept) db swept

unfoldable pub finish : String → OutboxRow → OutboxRow
finish id row =
    if str_eq row.id id && is_processing row.status then record row { status = done } else row

unfoldable pub mark_done : Reply → String → Table → Result ShardError (Unit {0}) × Table
unfolding finish
mark_done reply id db = executed reply tt db (map (finish id) db)

unfoldable pub fail : String → ℕ → OutboxRow → OutboxRow
fail id next row =
    if str_eq row.id id && is_processing row.status
    then record row {
      status = failed;
      attempts = row.attempts + 1;
      next_attempt_at = next;
      claimed_at = none;
    }
    else row

unfoldable pub mark_failed :
    ℕ → Reply → String → ℕ → ℕ → Table → Result ShardError (Unit {0}) × Table
unfolding fail
mark_failed max_time reply id retry_after now db =
    if ltb max_time (now + retry_after)
    then (err config, db)
    else executed reply tt db (map (fail id (now + retry_after)) db)

unfoldable pub pending_count : Table → ℕ
pending_count [] = 0
pending_count (row ∷ rest) = (if is_done row.status then 0 else 1) + pending_count rest

abbrev pub max_backoff : ℕ
max_backoff = 3600 * second

-- `checked_mul` of a duration by a factor of at most 2^20 does not overflow.
unfoldable pub backoff : ℕ → ℕ
backoff attempts = min (second * 2 ^ min attempts 20) max_backoff
