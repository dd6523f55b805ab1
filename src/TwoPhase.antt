-- ===== src/TwoPhase.antt =====
-- ecat-data-2pc/src/coordinator.rs and recovery.rs: two-phase commit over XA, for one transaction.
-- Participants and the log's database are outside: `Env` chooses how each request ends from all
-- that was asked before, so a theorem for every `Env` holds for every failure pattern, a crash
-- (no request takes effect until a recovery begins) included.
pub mod Begin
pub mod Recovery
pub mod Trace
pub mod Atomicity
pub mod Vote
pub mod Start
pub mod Replay
pub mod Life
pub mod Completion
pub mod Resolve
mod Tests
use e_cat.Prelude.{
  ℕ, String, Bool, true, false, ◌&&◌, ◌||◌, not, Option, none, some, List, [], ◌∷◌, reverse, map,
  if◌then◌else◌,
}
use text.Mathlib.Text.{◌==◌ as str_eq}
use mathlib.Core.Option
use e_cat.Prelude.Result.{Result, ok, err}
use e_cat.Prelude.Exec.{Exec, ◌>>=◌, ◌>>◌, pure, raise, ignore, or_else}

-- The texts of the messages are left out.
pub data XaError : Type 0 where
  unsupported_dialect unknown_participant unknown_xid state database lock : XaError

-- The column `status`, a text in the table.
pub data TxStatus : Type 0 where
  started prepared committing committed rolling_back rolled_back : TxStatus

pub data Decision : Type 0 where
  to_commit to_rollback : Decision

pub record LogRow : Type 0 where
  pub status : TxStatus
  pub participants : List String
  pub decision : Option Decision

pub data Event : Type 0 where
  xa_start xa_end xa_prepare xa_commit xa_rollback xa_recover xa_execute : (name : String) → Event
  create_table read_status read_logs acquire_fence release_fence : Event
  insert_row : LogRow → Event
  update_row : TxStatus → Option Decision → Event

-- How a request ends. `lost`: it took effect, and the caller sees an error all the same.
pub data Reply : Type 0 where
  done lost refused : Reply

pub record World : Type 0 where
  pub row : Option LogRow
  pub trace : List (Event × Reply)  -- every request made, the newest first

-- `in_doubt` is what `XA RECOVER` lists: whether the participant still holds the transaction.
pub record Env : Type 0 where
  pub reply : List (Event × Reply) → Event → Reply
  pub in_doubt : List (Event × Reply) → String → Bool

abbrev pub M : Type 0 → Type 0
M A = Exec World XaError A

abbrev pub log_event : Event → Reply → World → World
log_event e r w = record w { trace = (e, r) ∷ w.trace }

abbrev pub set_row : TxStatus → Option Decision → Option LogRow → Option LogRow
set_row status decision none = none
set_row status decision (some row) = some (record row { status = status; decision = decision })

module _ (env : Env) where
  abbrev pub answer : XaError → Reply → World → Result XaError (Unit {0}) × World
  answer e done w = (ok tt, w)
  answer e lost w = (err e, w)
  answer e refused w = (err e, w)

  -- A request that does not touch the log's row.
  unfoldable pub request : Event → XaError → M (Unit {0})
  request e error w = let r = env.reply w.trace e in answer error r (log_event e r w)

  abbrev pub write :
      (Option LogRow → Option LogRow) → Reply → World → Result XaError (Unit {0}) × World
  write f done w = (ok tt, record w { row = f w.row })
  write f lost w = (err database, record w { row = f w.row })
  write f refused w = (err database, w)

  unfoldable pub insert_log : TxStatus → List String → Option Decision → M (Unit {0})
  insert_log status participants decision w =
      let row : LogRow = record {
        status = status;
        participants = participants;
        decision = decision;
      } in
      let r = env.reply w.trace (insert_row row) in
      write (λ _. some row) r (log_event (insert_row row) r w)

  -- `UPDATE … WHERE id = …`: without a row nothing is changed.
  unfoldable pub set_log : TxStatus → Option Decision → M (Unit {0})
  set_log status decision w =
      let e = update_row status decision in
      let r = env.reply w.trace e in write (set_row status decision) r (log_event e r w)

  unfoldable pub current : M (Option TxStatus)
  current w = (ok (Option.map (λ (r : LogRow). r.status) w.row), w)

  unfoldable pub read : M (Option TxStatus)
  read = do request read_status database; current

  unfoldable pub for_all : (String → Event) → List String → M (Unit {0})
  for_all event [] = pure tt
  for_all event (name ∷ names) = do request (event name) state; for_all event names

  -- `xa_end` may fail, `xa_rollback` must not. The callers hand the names over reversed.
  unfoldable pub rollback_each : List String → M (Unit {0})
  rollback_each [] = pure tt
  rollback_each (name ∷ names) = do
    ignore (request (xa_end name) state)
    request (xa_rollback name) state
    rollback_each names

  -- `DistributedTx::abort`; both of its errors are `XaError::State`.
  unfoldable pub abort : List String → M (Unit {0})
  abort names = do
    set_log rolling_back (some to_rollback)
    rollback_each (reverse names)
    set_log rolled_back (some to_rollback)
    raise state

  unfoldable pub commit_prepared : List String → M (Unit {0})
  commit_prepared names = do
    set_log prepared none
    set_log committing (some to_commit)
    for_all xa_commit names
    set_log committed (some to_commit)

  unfoldable pub two_phases : List String → M (Unit {0})
  two_phases names =
      or_else (for_all xa_end names) (abort names)
        λ _. or_else (for_all xa_prepare names) (abort names) λ _. commit_prepared names

  unfoldable pub commit_from : List String → Option TxStatus → M (Unit {0})
  commit_from names (some committed) = pure tt
  commit_from names (some rolled_back) = raise state
  commit_from names _ = two_phases names

  -- `DistributedTx::commit`
  unfoldable pub commit : List String → M (Unit {0})
  commit names = do status ← read; commit_from names status

  unfoldable pub rollback_all : List String → M (Unit {0})
  rollback_all names = do
    set_log rolling_back (some to_rollback)
    rollback_each (reverse names)
    set_log rolled_back (some to_rollback)

  unfoldable pub rollback_from : List String → Option TxStatus → M (Unit {0})
  rollback_from names (some rolled_back) = pure tt
  rollback_from names (some committed) = raise state
  rollback_from names _ = rollback_all names

  -- `DistributedTx::rollback`
  unfoldable pub rollback : List String → M (Unit {0})
  rollback names = do status ← read; rollback_from names status
