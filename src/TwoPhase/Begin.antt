-- ===== src/TwoPhase/Begin.antt =====
-- ecat-data-2pc/src/coordinator.rs: `TwoPhaseCoordinator::begin` and `DistributedTx::execute`.
use text.Mathlib.Text.{◌==◌ as str_eq}
use e_cat.Prelude.{
  String, Bool, true, false, none, some, List, [], ◌∷◌, if◌then◌else◌, ◌||◌, not, ◌&&◌,
}
use e_cat.Prelude.Exec.{◌>>◌, pure, raise, ignore, or_else}
use e_cat.TwoPhase.{
  state, database, unknown_participant, started, rolled_back, to_rollback, xa_start, xa_end,
  xa_rollback, xa_execute, create_table, Env, M, request, insert_log, set_log, rollback_each,
}

abbrev pub contains : List String → String → Bool
contains [] name = false
contains (x ∷ xs) name = str_eq x name || contains xs name

-- The loop over the names that are asked for, with the set of those seen.
unfoldable pub check_names : List String → List String → List String → Bool
check_names registered seen [] = true
check_names registered seen (name ∷ names) =
    not (contains seen name)
    && contains registered name
    && check_names registered (name ∷ seen) names

abbrev pub is_empty : List String → Bool
is_empty [] = true
is_empty (_ ∷ _) = false

module _ (env : Env) where
  -- Both rollbacks, and the row, only if those that had started could be rolled back.
  unfoldable pub start_failed : String → List String → List String → M (List String)
  start_failed name begun names = do
    ignore (request env (xa_end name) state)
    ignore (request env (xa_rollback name) state)
    or_else (rollback_each env begun) (raise state)
        λ _. (do ignore (set_log env rolled_back (some to_rollback)); raise state)

  -- `begun` holds the participants that have started, the newest first.
  unfoldable pub start_each : List String → List String → List String → M (List String)
  start_each names begun [] = pure names
  start_each names begun (name ∷ rest) =
      or_else (request env (xa_start name) state) (start_failed name begun names)
        λ _. start_each names (name ∷ begun) rest

  unfoldable pub begin : List String → List String → M (List String)
  begin registered names =
      if is_empty names
      then raise state
      else if check_names registered [] names
      then (do
        request env create_table database
        insert_log env started names none
        start_each names [] names)
      else raise state

  unfoldable pub execute : List String → String → M (Unit {0})
  execute names name =
      if contains names name
      then request env (xa_execute name) database
      else raise unknown_participant
