-- ===== src/TwoPhase/Start.antt =====
-- ecat-data-2pc/src/coordinator.rs: `begin` and `execute` leave a transaction undecided, or undone.
use e_cat.Prelude.{String, ◌≡◌, refl, false, none, List, [], ◌∷◌, arith}
use e_cat.Prelude.Exec.{pure}
use e_cat.TwoPhase.{
  XaError, state, database, unknown_participant, started, rolled_back, Event, create_table,
  xa_start, xa_end, xa_rollback, xa_execute, World, Env, request, insert_log,
}
use e_cat.Prelude.Triple.{
  Pred, Triple, Keeps, Keeps-Triple, Triple-raise, Triple-if, Keeps-raise, Keeps-ignore, Keeps-if,
  bind, catch, conseq,
}
use e_cat.TwoPhase.Trace.{has, is_commit, is_rollback, NoCommit, Live}
use e_cat.TwoPhase.Atomicity.{
  request-NoCommit, request-Live, set_log-NoCommit, rollback_each-NoCommit,
}
use e_cat.TwoPhase.Vote.{Live-NoCommit}
use e_cat.TwoPhase.Begin.{contains, check_names, is_empty, start_failed, start_each, begin, execute}

-- No row was written, and nothing was asked that decides.
abbrev pub Fresh : World → Type 0
Fresh w = (w.row ≡ none) × (has is_commit w.trace ≡ false) × (has is_rollback w.trace ≡ false)

Fresh-NoCommit : (w : World) → Fresh w → NoCommit w
Fresh-NoCommit w h = ground arith

module _ (env : Env) where
  -- It never returns.
  start_failed-NoCommit :
      {Q : List String → Pred World} (name : String) (begun names : List String)
      → Triple NoCommit (start_failed env name begun names) Q NoCommit
  unfolding start_failed
  start_failed-NoCommit name begun names =
      bind (Keeps-Triple (Keeps-ignore (request-NoCommit env (xa_end name) state refl))) λ _.
        bind (Keeps-Triple (Keeps-ignore (request-NoCommit env (xa_rollback name) state refl))) λ _.
          catch (Keeps-Triple (rollback_each-NoCommit env begun)) (Triple-raise state) λ _.
            bind (Keeps-Triple (Keeps-ignore (set_log-NoCommit env rolled_back _ refl)))
              λ _. Triple-raise state

  start_each-Live :
      (names begun rest : List String)
      → Triple
          (Live names)
          (start_each env names begun rest)
          (λ tx w. (tx ≡ names) × Live names w)
          NoCommit
  unfolding start_each pure
  start_each-Live names begun [] = record { at = λ w h. (refl, h) }
  start_each-Live names begun (name ∷ rest) =
      catch (Keeps-Triple (request-Live env names (xa_start name) state refl refl))
        (conseq (Live-NoCommit names) (λ _ w h. h) (λ w h. h)
          (start_failed-NoCommit name begun names))
        λ _. start_each-Live names (name ∷ begun) rest

  insert_log-Live :
      (names : List String)
      → Triple Fresh (insert_log env started names none) (λ _. Live names) NoCommit
  unfolding insert_log
  insert_log-Live names = record { at = λ w h. ground arith }

  request-Fresh :
      (e : Event) (error : XaError)
      → is_commit e ≡ false
      → is_rollback e ≡ false
      → Keeps Fresh (request env e error)
  unfolding request
  request-Fresh e error neutral quiet = record { at = λ w h. ground arith }

  -- A transaction that `begin` returns is undecided; otherwise none is committed.
  pub begin-Live :
      (registered names : List String)
      → Triple Fresh (begin env registered names) (λ tx w. (tx ≡ names) × Live names w) NoCommit
  unfolding begin
  begin-Live registered names =
      let refused_names = conseq (λ w h. h) (λ _ w h. h) Fresh-NoCommit (Triple-raise state) in
      Triple-if (is_empty names) refused_names (
        Triple-if (check_names registered [] names)
          (bind
            (conseq (λ w h. h) (λ _ w h. h) Fresh-NoCommit
              (Keeps-Triple (request-Fresh create_table database refl refl)))
            λ _. bind (insert_log-Live names) λ _. start_each-Live names [] names)
          refused_names)

  pub execute-Live :
      (names : List String) (name : String) → Keeps (Live names) (execute env names name)
  unfolding execute
  execute-Live names name =
      Keeps-if (contains names name) _ _
        (request-Live env names (xa_execute name) database refl refl)
        (Keeps-raise unknown_participant)
