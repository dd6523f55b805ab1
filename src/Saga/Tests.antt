-- ===== src/Saga/Tests.antt =====
-- Runs of sagas with two steps, and the theorems at them.
use e_cat.Prelude.{
  ℕ, String, ◌≡◌, refl, Bool, true, not, ◌||◌, ◌==◌, Option, none, some, List, [], ◌∷◌, reverse,
  take, length, arith,
}
use text.Mathlib.Text.{◌==◌ as str_eq}
use e_cat.Prelude.Result.{ok}
use e_cat.Prelude.Exec.{after, ◌>>=◌, pure, raise}
use e_cat.Saga.{
  compensating, compensated, step_done, SagaState, Call, execute, World, Env, lift, stored,
  save_state, set_step, found, step_status, act, save_with, result_of, after_undo, undo_step,
  compensate_each, compensate_before, fail_step, finish_step, after_step, try_step, forward,
  continue_as, continue_state, saved_state, start_or_continue, run, continue_found, resume, lookup,
}
use e_cat.Saga.Order.{in_order}
use e_cat.Saga.Attempts.{attempt, attempt_all, attempt_all-in_order}
use e_cat.Saga.Undo.{Calm, ledger, undo_all, saved_status, resume-Finished}

abbrev two : List String
two = "a" ∷ "b" ∷ []

-- The step `b` fails. Of the store's calls, the sixth and the thirteenth fail.
abbrev succeeds : Call ℕ → Bool
succeeds (execute name) = not (str_eq name "b")
succeeds _ = true

abbrev faulty : Env ℕ ℕ
faulty = record {
  answers = λ t c. not (length t == 5 || length t == 12);
  acts = λ t c ctx. (succeeds c, ctx);
  encode = λ ctx. some ctx;
  decode = λ v. some v;
}

abbrev unstarted : World ℕ
unstarted = record { saved = none; steps = []; calls = [] }

abbrev three_calls : List (Option ℕ)
three_calls = some 7 ∷ none ∷ none ∷ []

-- The first call ends between the two writes of step `a`, the second between the failure of `b`
-- and the compensation of `a`; the third reports success with `a` still done.
left_done :
    (lookup (attempt_all faulty two three_calls unstarted).steps "a" ≡ step_done)
    × (saved_status (attempt_all faulty two three_calls unstarted).saved ≡ some compensated)
unfolding after ◌>>=◌ pure raise lift stored save_state set_step found step_status act save_with
    result_of after_undo undo_step compensate_each compensate_before fail_step finish_step
    after_step try_step forward continue_as continue_state saved_state start_or_continue run
    continue_found resume attempt attempt_all
left_done = (refl, refl)

attempt_all-in_order_example : in_order (attempt_all faulty two three_calls unstarted).calls ≡ true
attempt_all-in_order_example = attempt_all-in_order faulty two three_calls unstarted refl refl

-- Everything succeeds.
abbrev quiet : Env ℕ ℕ
quiet = record {
  answers = λ t c. true;
  acts = λ t c ctx. (true, ctx);
  encode = λ ctx. some ctx;
  decode = λ v. some v;
}

quiet-Calm : Calm quiet
quiet-Calm = record {
  answered = λ t c. refl;
  undone = λ t name ctx. refl;
  written = λ ctx. (ctx, refl);
}

abbrev interrupted : SagaState ℕ
interrupted = record { status = compensating; current_step = 1; context = 7 }

abbrev both_done : World ℕ
both_done = record {
  saved = some interrupted;
  steps = ("a", step_done) ∷ ("b", step_done) ∷ [];
  calls = [];
}

resume-Finished_example :
    ((resume quiet two both_done).0 ≡ ok tt)
    × (saved_status (resume quiet two both_done).1.saved ≡ some compensated)
    × (ledger (resume quiet two both_done).1 ≡ undo_all (reverse (take 1 two)) (ledger both_done))
resume-Finished_example =
    resume-Finished quiet quiet-Calm two interrupted 7 both_done refl refl (omega arith) refl
