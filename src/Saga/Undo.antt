-- ===== src/Saga/Undo.antt =====
-- ecat-saga/src/saga.rs: what a compensation that nothing interrupts leaves in the store.
use e_cat.Prelude.{
  ℕ, ◌≤◌, String, ◌≡◌, refl, sym, ap, subst, Bool, true, false, Option, none, some, List, [], ◌∷◌,
  reverse, length, take, ltb, if◌then◌else◌, arith,
}
use e_cat.Prelude.Result.{Result, ok, err}
use e_cat.Prelude.Exec.{pure, raise}
use e_cat.Prelude.Triple.{Pred, Post, Triple, bind}
use e_cat.Saga.{
  SagaStatus, running, compensating, completed, compensated, failed, state_error, StepStatus,
  step_compensated, is_done, lookup, SagaError, SagaState, Call, load, get_step, save, put_step,
  compensate, World, Env, M, lift, stored, save_state, set_step, found, step_status, act, save_with,
  result_of, after_undo, undo_step, compensate_each, compensate_before, continue_as, continue_state,
  saved_state, continue_found, resume,
}

-- The compensations among the calls, in the order of the calls.
abbrev pub undone_names : {V : Type 0} → List (Call V) → List String
undone_names [] = []
undone_names (compensate name ∷ rest) = name ∷ undone_names rest
undone_names (_ ∷ rest) = undone_names rest

-- The statuses of the steps, and the steps whose compensation was called, the newest first.
abbrev Ledger : Type 0
Ledger = List (String × StepStatus) × List String

abbrev pub ledger : {V : Type 0} → World V → Ledger
ledger w = (w.steps, undone_names w.calls)

abbrev marked : Bool → String → Ledger → Ledger
marked true name (steps, undone) = ((name, step_compensated) ∷ steps, name ∷ undone)
marked false name l = l

-- Those of `names` that are done are compensated once each, in that order, and then marked.
abbrev pub undo_all : List String → Ledger → Ledger
undo_all [] l = l
undo_all (name ∷ names) l = undo_all names (marked (is_done (lookup l.0 name)) name l)

abbrev pub saved_status : {V : Type 0} → Option (SagaState V) → Option SagaStatus
saved_status none = none
saved_status (some st) = some st.status

-- Nothing fails: the store answers, every compensation succeeds, and contexts can be written.
pub record Calm {C V : Type 0} (env : Env C V) : Type 0 where
  pub answered : (t : List (Call V)) (c : Call V) → env.answers t c ≡ true
  pub undone :
      (t : List (Call V)) (name : String) (ctx : C) → (env.acts t (compensate name) ctx).0 ≡ true
  pub written : (ctx : C) → (v : V) × (env.encode ctx ≡ some v)

not_beyond : (m n : ℕ) → n ≤ m → ltb m n ≡ false
not_beyond m n h = ground arith

module _ {C V : Type 0} (env : Env C V) (calm : Calm env) where
  abbrev Never : Pred (World V)
  Never w = ⊥

  abbrev Steps : Ledger → Pred (World V)
  Steps l w = ledger w ≡ l

  abbrev Finished : Ledger → Pred (World V)
  Finished l w = (ledger w ≡ l) × (saved_status w.saved ≡ some compensated)

  stored-Post :
      (c : Call V) (f : World V → World V) {P Q : Pred (World V)}
      → ((w : World V) → P w → Q (f (record w { calls = c ∷ w.calls })))
      → Triple P (stored env c f) (λ _. Q) Never
  unfolding stored
  stored-Post c f step = record { at = λ w h. ground (arith, calm.answered w.calls c, step w h) }

  lift_written : (ctx : C) {P : Pred (World V)} → Triple P (lift (env.encode ctx)) (λ _. P) Never
  unfolding lift pure
  lift_written ctx = record { at = λ w h. rw ((calm.written ctx).1) h }

  save_with-Steps :
      (s : SagaStatus) (n : ℕ) (ctx : C) (l : Ledger)
      → Triple
          (Steps l)
          (save_with env s n ctx)
          (λ _ w. (ledger w ≡ l) × (saved_status w.saved ≡ some s))
          Never
  unfolding save_with save_state
  save_with-Steps s n ctx l = bind (lift_written ctx) λ v. stored-Post (save _) _ λ w h. (h, refl)

  after_undo-Steps :
      (n : ℕ) (name : String) (l : Ledger) (r : Bool × C)
      → Triple
          (λ w. (r.0 ≡ true) × Steps (l.0, name ∷ l.1) w)
          (after_undo env n name r)
          (λ _. Steps (marked true name l))
          Never
  unfolding after_undo set_step pure
  after_undo-Steps n name l (true, ctx) =
      bind
        (stored-Post (put_step name step_compensated) _ {Q = Steps (marked true name l)}
          λ w h. ap (λ x. ((name, step_compensated) ∷ x.0, x.1)) h.1)
        λ _.
          bind (save_with-Steps compensating n ctx (marked true name l))
            λ _. record { at = λ w h. h.0 }
  after_undo-Steps n name l (false, ctx) = record { at = λ w h. absurd (ground arith) }

  undo_step-Steps :
      (n : ℕ) (ctx : C) (name : String) (l : Ledger) (b : Bool)
      → Triple (Steps l) (undo_step env n ctx name b) (λ _. Steps (marked b name l)) Never
  unfolding undo_step act pure
  undo_step-Steps n ctx name l false = record { at = λ w h. h }
  undo_step-Steps n ctx name l true =
      bind {Q = λ r w. (r.0 ≡ true) × Steps (l.0, name ∷ l.1) w}
        (record { at = λ w h. (calm.undone w.calls name ctx, ap (λ x. (x.0, name ∷ x.1)) h) })
        λ r. after_undo-Steps n name l r

  step_status-Steps :
      (name : String) (l : Ledger)
      → Triple (Steps l) (step_status env name) (λ s w. (s ≡ lookup l.0 name) × Steps l w) Never
  unfolding step_status found
  step_status-Steps name l =
      bind (stored-Post get_step (λ w. w) {P = Steps l} {Q = Steps l} λ w h. h)
        λ _. record { at = λ w h. (ap (λ x. lookup x.0 name) h, h) }

  compensate_each-Finished :
      (n : ℕ) (names : List String) (ctx : C) (l : Ledger)
      → Triple
          (Steps l)
          (compensate_each env n names ctx none)
          (λ _. Finished (undo_all names l))
          Never
  unfolding compensate_each result_of pure
  compensate_each-Finished n [] ctx l =
      bind (save_with-Steps compensated n ctx l) λ _. record { at = λ w h. h }
  compensate_each-Finished n (name ∷ names) ctx l =
      let rest = λ (ctx' : C).
        compensate_each-Finished n names ctx' (marked (is_done (lookup l.0 name)) name l) in
      bind (step_status-Steps name l) λ s.
        bind {Q = λ _. Steps (marked (is_done (lookup l.0 name)) name l)}
          (record {
            at = λ w h.
                (subst
                    (λ s'.
                      Triple (Steps l) (undo_step env n ctx name (is_done s'))
                        (λ _. Steps (marked (is_done (lookup l.0 name)) name l)) Never)
                    (sym h.0) (undo_step-Steps n ctx name l (is_done (lookup l.0 name)))).at
                  w h.1;
          })
          rest

  returned_ok :
      (Q : Pred (World V)) (r : Result SagaError (Unit {0}) × World V)
      → Post (λ _. Q) Never r
      → (r.0 ≡ ok tt) × Q r.1
  returned_ok Q (ok _, w) h = (refl, h)
  returned_ok Q (err e, w) h = absurd h

  module _ (names : List String) (st : SagaState V) (ctx : C) (going : st.status ≡ compensating)
      (within : st.current_step ≤ length names) (read : env.decode st.context ≡ some ctx)
      (l : Ledger) where
    abbrev Undoes : M V (Unit {0}) → Type 0
    Undoes m =
        Triple (Steps l) m (λ _. Finished (undo_all (reverse (take st.current_step names)) l)) Never

    lift_read :
        Triple (Steps l) (lift {V = V} (env.decode st.context)) (λ c w. (c ≡ ctx) × Steps l w) Never
    unfolding lift pure
    lift_read = record { at = λ w h. rw read (refl, h) }

    continue_as-Undoes : (s : SagaStatus) → s ≡ compensating → Undoes (continue_as env names st s)
    unfolding continue_as compensate_before
    continue_as-Undoes compensating e = bind lift_read λ c. record {
      at = λ w h.
          (compensate_each-Finished st.current_step (reverse (take st.current_step names)) c l).at w
            h.1;
    }
    continue_as-Undoes running e = absurd (ground arith)
    continue_as-Undoes completed e = absurd (ground arith)
    continue_as-Undoes compensated e = absurd (ground arith)
    continue_as-Undoes failed e = absurd (ground arith)

    continue_state-Undoes : Undoes (continue_state env names st)
    unfolding continue_state
    continue_state-Undoes =
        subst (λ b. Undoes (if b then raise state_error else continue_as env names st st.status))
          (sym (not_beyond (length names) st.current_step within))
          (continue_as-Undoes st.status going)

    resume-Undoes :
        Triple
          (λ w. (w.saved ≡ some st) × Steps l w)
          (resume env names)
          (λ _. Finished (undo_all (reverse (take st.current_step names)) l))
          Never
    unfolding resume saved_state continue_found
    resume-Undoes =
        bind {Q = λ _ w. (w.saved ≡ some st) × Steps l w} (stored-Post load (λ w. w) λ w h. h) λ _.
          bind {Q = λ o w. (o ≡ some st) × Steps l w} (record { at = λ w h. h })
            λ o. record {
              at = λ w h.
                  (subst (λ o'. Undoes (continue_found env names o')) (sym h.0)
                      continue_state-Undoes).at
                    w h.1;
            }

  -- `resume` of a saga that is being compensated, where nothing fails: it returns Ok with the
  -- status compensated; it has called the compensation of exactly those steps that are done and whose
  -- position is below the saved `current_step`, once each and the last first, and has marked exactly
  -- these as compensated. A done step from that position on is neither compensated nor marked.
  pub resume-Finished :
      (names : List String) (st : SagaState V) (ctx : C) (w : World V)
      → w.saved ≡ some st
      → st.status ≡ compensating
      → st.current_step ≤ length names
      → env.decode st.context ≡ some ctx
      → ((resume env names w).0 ≡ ok tt)
        × (saved_status (resume env names w).1.saved ≡ some compensated)
        × (ledger (resume env names w).1
            ≡ undo_all (reverse (take st.current_step names)) (ledger w))
  resume-Finished names st ctx w e going within read =
      let (came, (steps, status)) =
        returned_ok _ (resume env names w)
          ((resume-Undoes names st ctx going within read (ledger w)).at w (e, refl)) in
      (came, status, steps)
