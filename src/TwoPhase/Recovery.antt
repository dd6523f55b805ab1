-- ===== src/TwoPhase/Recovery.antt =====
-- ecat-data-2pc/src/recovery.rs: the recovery of the transaction, from its log row.
use e_cat.Prelude.{
  String, Bool, true, false, Option, none, some, List, [], ◌∷◌, if◌then◌else◌, not, ◌&&◌, reverse,
}
use e_cat.Prelude.Result.{Result, ok, err}
use e_cat.Prelude.Exec.{◌>>=◌, ◌>>◌, pure, ignore, or_else}
use e_cat.TwoPhase.{
  XaError, state, database, lock, TxStatus, started, prepared, committing, committed, rolling_back,
  rolled_back, Decision, to_rollback, to_commit, LogRow, Event, xa_end, xa_rollback, xa_commit,
  xa_recover, read_logs, acquire_fence, release_fence, create_table, World, Env, M, request,
  set_log,
}
use e_cat.TwoPhase.Begin.{contains}

unfoldable pub decided : TxStatus → Option Decision → Bool
decided started _ = false
decided rolling_back _ = false
decided prepared (some to_rollback) = false
decided prepared _ = true
decided committing _ = true
decided _ _ = false

unfoldable pub should_commit : LogRow → Bool
should_commit row = decided row.status row.decision

-- The row's status is one of the four that `recoverable_logs` asks for.
abbrev pub is_recoverable : TxStatus → Bool
is_recoverable committed = false
is_recoverable rolled_back = false
is_recoverable _ = true

abbrev pub is_cross_checked : TxStatus → Bool
is_cross_checked prepared = true
is_cross_checked committing = true
is_cross_checked _ = false

pub record RecoveryReport : Type 0 where
  pub recovered : Bool
  pub failed : Bool

abbrev pub counted : Bool → Bool → RecoveryReport
counted recovered failed = record { recovered = recovered; failed = failed }

abbrev pub all_registered : List String → List String → Bool
all_registered registered [] = true
all_registered registered (name ∷ names) =
    contains registered name && all_registered registered names

module _ (env : Env) where
  unfoldable pub resolved_by : String → M Bool
  resolved_by name w = (ok (not (env.in_doubt w.trace name)), w)

  -- A participant that does not answer is taken for unresolved.
  unfoldable pub already_resolved : String → M Bool
  already_resolved name =
      or_else (request env (xa_recover name) state) (pure false) λ _. resolved_by name

  unfoldable pub is_resolved : Bool → String → M Bool
  is_resolved false name = pure false
  is_resolved true name = already_resolved name

  unfoldable pub commit_unless : Bool → String → M (Unit {0})
  commit_unless true name = pure tt
  commit_unless false name = request env (xa_commit name) state

  unfoldable pub commit_each : Bool → List String → M (Unit {0})
  commit_each cross_check [] = pure tt
  commit_each cross_check (name ∷ names) = do
    resolved ← is_resolved cross_check name
    commit_unless resolved name
    commit_each cross_check names

  unfoldable pub recover_commit : List String → Bool → M (Unit {0})
  recover_commit names cross_check = do
    commit_each cross_check names
    set_log env committed (some to_commit)

  unfoldable pub rollback_unless : Bool → String → M (Unit {0})
  rollback_unless true name = pure tt
  rollback_unless false name = do
    ignore (request env (xa_end name) state)
    request env (xa_rollback name) state

  unfoldable pub undo_each : Bool → List String → M (Unit {0})
  undo_each cross_check [] = pure tt
  undo_each cross_check (name ∷ names) = do
    resolved ← is_resolved cross_check name
    rollback_unless resolved name
    undo_each cross_check names

  unfoldable pub recover_rollback : List String → Bool → M (Unit {0})
  recover_rollback names cross_check = do
    undo_each cross_check (reverse names)
    set_log env rolled_back (some to_rollback)

  unfoldable pub replay : LogRow → M (Unit {0})
  replay row =
      if should_commit row
      then recover_commit row.participants (is_cross_checked row.status)
      else recover_rollback row.participants (is_cross_checked row.status)

  unfoldable pub recover_row : List String → Option LogRow → M RecoveryReport
  recover_row registered none = pure (counted false false)
  recover_row registered (some row) =
      if is_recoverable row.status
      then (if all_registered registered row.participants
          then or_else (replay row) (pure (counted false true)) (λ _. pure (counted true false))
          else pure (counted false true))
      else pure (counted false false)

  unfoldable pub recover_current : List String → M RecoveryReport
  recover_current registered w = recover_row registered w.row w

  unfoldable pub recover_locked : List String → M RecoveryReport
  recover_locked registered = do request env read_logs database; recover_current registered

  unfoldable pub fence : Bool → Event → M (Unit {0})
  fence false event = pure tt
  fence true event = request env event lock

  -- The fence is released on both outcomes; a failure to release matters on success only.
  unfoldable pub released :
      Bool → Result XaError RecoveryReport × World → Result XaError RecoveryReport × World
  released fenced (ok report, w) = (do fence fenced release_fence; pure report) w
  released fenced (err e, w) = (err e, (fence fenced release_fence w).1)

  unfoldable pub guarded : Bool → List String → M RecoveryReport
  guarded fenced registered w = released fenced (recover_locked registered w)

  -- `fenced`: whether a fence is configured; it may be held by another recovery.
  unfoldable pub recover : Bool → List String → M RecoveryReport
  recover fenced registered = do
    request env create_table database
    fence fenced acquire_fence
    guarded fenced registered
