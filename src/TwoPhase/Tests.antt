-- ===== src/TwoPhase/Tests.antt =====
-- Runs of two-phase commit with two participants, and the theorems at them.
use e_cat.Prelude.{String, ◌≡◌, refl, Bool, true, false, not, ◌&&◌, none, some, List, [], ◌∷◌}
use text.Mathlib.Text.{◌==◌ as str_eq}
use e_cat.Prelude.Result.{ok}
use e_cat.Prelude.Exec.{after, ◌>>=◌, branch, or_else, pure, raise, ignore}
use e_cat.TwoPhase.{
  started, prepared, committed, Event, xa_commit, xa_prepare, read_logs, Reply, done, lost, World,
  Env, LogRow, to_commit, request, insert_log, set_log, for_all, rollback_each, abort,
  commit_prepared, two_phases, current, read, commit_from, commit,
}
use e_cat.TwoPhase.Begin.{check_names, start_failed, start_each, begin, execute}
use e_cat.TwoPhase.Recovery.{
  counted, decided, should_commit, already_resolved, resolved_by, is_resolved, commit_unless,
  commit_each, recover_commit, replay, recover_row, recover_current, recover_locked, fence,
  released, guarded, recover,
}
use e_cat.TwoPhase.Trace.{has, is_commit, is_rollback, DidAll}
use e_cat.TwoPhase.Life.{
  Script, execute_each, recover_each, use_tx, transact, life, atomic, commit_needs_votes,
}
use e_cat.TwoPhase.Completion.{commit-Committed, Committed}
use e_cat.TwoPhase.Resolve.{recover-Resolved, Final}

-- Everyone answers.
abbrev calm : Env
calm = record { reply = λ t e. done; in_doubt = λ t n. true }

abbrev is_b : Event → Bool
is_b (xa_commit name) = str_eq name "b"
is_b _ = false

abbrev is_read_logs : Event → Bool
is_read_logs read_logs = true
is_read_logs _ = false

abbrev lost_if : Bool → Reply
lost_if true = lost
lost_if false = done

-- The answer of `b` to its commit is lost, until a recovery runs.
abbrev flaky : Env
flaky = record {
  reply = λ t e. lost_if (is_b e && not (has is_read_logs t));
  in_doubt = λ t n. not (str_eq n "b");
}

abbrev two : List String
two = "a" ∷ "b" ∷ []

abbrev empty : World
empty = record { row = none; trace = [] }

abbrev script : Script
script = record {
  registered = two;
  names = two;
  statements = "a" ∷ [];
  commits = true;
  recoveries = (true, two) ∷ [];
}

flaky_finishes :
    (life flaky script empty).1.row
    ≡ some (record { status = committed; participants = two; decision = some to_commit })
unfolding after ◌>>=◌ branch or_else pure raise ignore request insert_log set_log for_all
    rollback_each abort commit_prepared two_phases current read commit_from commit check_names
    start_failed start_each begin execute decided should_commit already_resolved resolved_by
    is_resolved commit_unless commit_each recover_commit replay recover_row recover_current
    recover_locked fence released guarded recover execute_each recover_each use_tx transact life
flaky_finishes = refl

atomic_example : ¬ (
    (has is_commit (life flaky script empty).1.trace ≡ true)
    × (has is_rollback (life flaky script empty).1.trace ≡ true))
atomic_example = atomic flaky script empty (refl, refl, refl)

asked_to_commit : has is_commit (life flaky script empty).1.trace ≡ true
unfolding after ◌>>=◌ branch or_else pure raise ignore request insert_log set_log for_all
    rollback_each abort commit_prepared two_phases current read commit_from commit check_names
    start_failed start_each begin execute decided should_commit already_resolved resolved_by
    is_resolved commit_unless commit_each recover_commit replay recover_row recover_current
    recover_locked fence released guarded recover execute_each recover_each use_tx transact life
asked_to_commit = refl

commit_needs_votes_example : DidAll xa_prepare two (life flaky script empty).1.trace
commit_needs_votes_example =
    commit_needs_votes flaky script empty (refl, refl, refl) asked_to_commit

abbrev begun : World
begun = record {
  row = some (record { status = started; participants = two; decision = none });
  trace = [];
}

returns : (commit calm two begun).0 ≡ ok tt
unfolding after ◌>>=◌ branch or_else pure raise ignore request set_log for_all rollback_each abort
    commit_prepared two_phases current read commit_from commit
returns = refl

commit-Committed_example : Committed two (commit calm two begun).1
commit-Committed_example = commit-Committed calm two begun ((refl, refl), refl, refl) returns

abbrev prepared_row : LogRow
prepared_row = record { status = prepared; participants = two; decision = none }

recover-Resolved_example :
    ((recover calm true two (record { row = some prepared_row; trace = [] })).0
      ≡ ok (counted true false))
    × Final prepared_row
        (recover calm true two (record { row = some prepared_row; trace = [] })).1.row
recover-Resolved_example =
    recover-Resolved calm (λ t e. refl) prepared_row true two
      (record { row = some prepared_row; trace = [] }) refl refl refl
