-- ===== src/Saga.antt =====
-- ecat-saga/src: saga.rs and state.rs. One saga over a store of its state and of its steps'
-- statuses. The steps' effects and the store's failures are outside: `Env` answers each call from
-- all calls before it. Steps are their names, which the store keys them by.
pub mod Undo
pub mod Order
pub mod Attempts
mod Tests
use e_cat.Prelude.{
  ℕ, suc, String, ◌≡◌, refl, Bool, true, false, Option, none, some, List, [], ◌∷◌, reverse, length,
  take, drop, ltb, if◌then◌else◌,
}
use text.Mathlib.Text.{◌==◌ as str_eq}
use e_cat.Prelude.Result.{Result, ok, err}
use e_cat.Prelude.Exec.{Exec, ◌>>=◌, ◌>>◌, pure, raise}

pub data SagaStatus : Type 0 where
  running compensating completed compensated failed : SagaStatus

pub data StepStatus : Type 0 where
  step_pending step_done step_compensated step_failed : StepStatus

-- `SagaStatus::as_str` and `SagaStatus::parse`
unfoldable as_str : SagaStatus → String
as_str running = "running"
as_str compensating = "compensating"
as_str completed = "completed"
as_str compensated = "compensated"
as_str failed = "failed"

unfoldable parse : String → Option SagaStatus
parse text =
    if str_eq text "running"
    then some running
    else if str_eq text "compensating"
    then some compensating
    else if str_eq text "completed"
    then some completed
    else if str_eq text "compensated"
    then some compensated
    else if str_eq text "failed"
    then some failed
    else none

-- Every status that the store writes is read back as it was.
parse-as_str : (s : SagaStatus) → parse (as_str s) ≡ some s
unfolding parse as_str
parse-as_str running = refl
parse-as_str compensating = refl
parse-as_str completed = refl
parse-as_str compensated = refl
parse-as_str failed = refl

-- The texts of the messages are left out.
pub data SagaError : Type 0 where
  step_error : (step : String) → SagaError
  compensation_error : (step : String) → SagaError
  not_found : SagaError
  invalid_state : SagaStatus → SagaError
  state_error context_error : SagaError

pub record SagaState (V : Type 0) : Type 0 where
  pub status : SagaStatus
  pub current_step : ℕ
  pub context : V

-- `Inner` of the in-memory store, for one saga: a missing step is pending.
abbrev pub lookup : List (String × StepStatus) → String → StepStatus
lookup [] name = step_pending
lookup ((key, status) ∷ rest) name = if str_eq key name then status else lookup rest name

pub data Call (V : Type 0) : Type 0 where
  load get_step : Call V
  save : SagaState V → Call V
  put_step : String → StepStatus → Call V
  execute : String → Call V
  compensate : String → Call V

pub record World (V : Type 0) : Type 0 where
  pub saved : Option (SagaState V)
  pub steps : List (String × StepStatus)
  pub calls : List (Call V)  -- the newest first

-- `answers` is whether a call of the store succeeds, `acts` whether a step does and the context it
-- leaves; a context is written as a value of type `V`, and the writing and reading may fail.
pub record Env (C V : Type 0) : Type 0 where
  pub answers : List (Call V) → Call V → Bool
  pub acts : List (Call V) → Call V → C → Bool × C
  pub encode : C → Option V
  pub decode : V → Option C

abbrev pub M : Type 0 → Type 0 → Type 0
M V A = Exec (World V) SagaError A

unfoldable pub lift : {V A : Type 0} → Option A → M V A
lift none = raise context_error
lift (some a) = pure a

abbrev pub is_done : StepStatus → Bool
is_done step_done = true
is_done _ = false

module _ {C V : Type 0} (env : Env C V) where
  -- A call of the store, and what it changes where it succeeds.
  unfoldable pub stored : Call V → (World V → World V) → M V (Unit {0})
  stored c f w =
      let w' : World V = record w { calls = c ∷ w.calls } in
      if env.answers w.calls c then (ok tt, f w') else (err state_error, w')

  unfoldable pub save_state : SagaState V → M V (Unit {0})
  save_state st = stored (save st) λ w. record w { saved = some st }

  unfoldable pub set_step : String → StepStatus → M V (Unit {0})
  set_step name s = stored (put_step name s) λ w. record w { steps = (name, s) ∷ w.steps }

  unfoldable pub found : String → M V StepStatus
  found name w = (ok (lookup w.steps name), w)

  unfoldable pub step_status : String → M V StepStatus
  step_status name = do stored get_step (λ w. w); found name

  unfoldable pub act : Call V → C → M V (Bool × C)
  act c ctx w = (ok (env.acts w.calls c ctx), record w { calls = c ∷ w.calls })

  -- The state with its context written anew.
  unfoldable pub save_with : SagaStatus → ℕ → C → M V (Unit {0})
  save_with status current ctx = do
    v ← lift (env.encode ctx)
    save_state (record { status = status; current_step = current; context = v })

  unfoldable pub result_of : Option SagaError → M V (Unit {0})
  result_of none = pure tt
  result_of (some cause) = raise cause

  -- What follows a compensation, by whether it succeeded.
  unfoldable pub after_undo : ℕ → String → Bool × C → M V C
  after_undo current name (true, ctx) = do
    set_step name step_compensated
    save_with compensating current ctx
    pure ctx
  after_undo current name (false, ctx) = do
    set_step name step_failed
    save_with failed current ctx
    raise (compensation_error name)

  -- The body of the loop in `compensate`, by whether the step is done.
  unfoldable pub undo_step : ℕ → C → String → Bool → M V C
  undo_step current ctx name false = pure ctx
  undo_step current ctx name true = do
    result ← act (compensate name) ctx
    after_undo current name result

  -- `Saga::compensate`, on the steps before `before`, the last first.
  unfoldable pub compensate_each : ℕ → List String → C → Option SagaError → M V (Unit {0})
  compensate_each current [] ctx cause = do save_with compensated current ctx; result_of cause
  compensate_each current (name ∷ names) ctx cause = do
    s ← step_status name
    ctx' ← undo_step current ctx name (is_done s)
    compensate_each current names ctx' cause

  unfoldable pub compensate_before : List String → ℕ → ℕ → C → Option SagaError → M V (Unit {0})
  compensate_before names before current = compensate_each current (reverse (take before names))

  -- `Saga::forward`, on the steps from `index` on. `current` is the state's `current_step`, which
  -- a step found done does not move.
  unfoldable pub fail_step : List String → ℕ → ℕ → String → C → M V (Unit {0})
  fail_step names index current name ctx = do
    set_step name step_failed
    save_with compensating current ctx
    compensate_before names index current ctx (some (step_error name))

  unfoldable pub finish_step : ℕ → String → C → M V (Unit {0})
  finish_step index name ctx = do set_step name step_done; save_with running (suc index) ctx

  unfoldable pub after_step :
      List String → ℕ → ℕ → String → (C → M V (Unit {0})) → Bool × C → M V (Unit {0})
  after_step names index current name next (true, ctx) = do finish_step index name ctx; next ctx
  after_step names index current name next (false, ctx) = fail_step names index current name ctx

  unfoldable pub try_step :
      List String → ℕ → ℕ → String → C → (ℕ → C → M V (Unit {0})) → Bool → M V (Unit {0})
  try_step names index current name ctx next true = next current ctx
  try_step names index current name ctx next false = do
    result ← act (execute name) ctx
    after_step names index current name (next (suc index)) result

  unfoldable pub forward : List String → ℕ → List String → ℕ → C → M V (Unit {0})
  forward names index [] current ctx = save_with completed current ctx
  forward names index (name ∷ rest) current ctx = do
    s ← step_status name
    try_step names index current name ctx (forward names (suc index) rest) (is_done s)

  -- `Saga::continue_state`, by the status.
  unfoldable pub continue_as : List String → SagaState V → SagaStatus → M V (Unit {0})
  continue_as names st completed = pure tt
  continue_as names st compensated = pure tt
  continue_as names st failed = raise (invalid_state failed)
  continue_as names st compensating = do
    ctx ← lift (env.decode st.context)
    compensate_before names st.current_step st.current_step ctx none
  continue_as names st running = do
    ctx ← lift (env.decode st.context)
    forward names st.current_step (drop st.current_step names) st.current_step ctx

  unfoldable pub continue_state : List String → SagaState V → M V (Unit {0})
  continue_state names st =
      if ltb (length names) st.current_step
      then raise state_error
      else continue_as names st st.status

  unfoldable pub saved_state : M V (Option (SagaState V))
  saved_state w = (ok w.saved, w)

  unfoldable pub start_or_continue : List String → C → Option (SagaState V) → M V (Unit {0})
  start_or_continue names ctx (some st) = continue_state names st
  start_or_continue names ctx none = do save_with running 0 ctx; forward names 0 names 0 ctx

  -- `Saga::run`
  unfoldable pub run : List String → C → M V (Unit {0})
  run names ctx = do stored load (λ w. w); st ← saved_state; start_or_continue names ctx st

  unfoldable pub continue_found : List String → Option (SagaState V) → M V (Unit {0})
  continue_found names none = raise not_found
  continue_found names (some st) = continue_state names st

  -- `Saga::resume`
  unfoldable pub resume : List String → M V (Unit {0})
  resume names = do stored load (λ w. w); st ← saved_state; continue_found names st
