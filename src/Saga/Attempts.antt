-- ===== src/Saga/Attempts.antt =====
-- ecat-saga/src/saga.rs: any number of calls of `run` and `resume` on one saga.
use e_cat.Prelude.{
  String, ◌≡◌, refl, inl, inr, true, false, Option, none, some, List, [], ◌∷◌, length, drop, ltb,
  arith,
}
use e_cat.Prelude.Triple.{
  Triple, Keeps, Keeps-pure, Keeps-raise, Keeps-Triple, Triple-if, bind, conseq, merged,
}
use e_cat.Saga.{
  SagaStatus, running, compensating, completed, compensated, failed, SagaState, load, World, Env, M,
  stored, continue_as, continue_state, saved_state, start_or_continue, run, continue_found, resume,
}
use e_cat.Saga.Order.{
  Forth, Back, Sided, is_back, in_order, stored-Forth, stored-Back, lift-Keeps, save_with-Forth,
  forth, undo-Sided, forward-Works,
}

module _ {C V : Type 0} (env : Env C V) (names : List String) where
  -- What was loaded is what is saved.
  abbrev Loaded : Option (SagaState V) → World V → Type 0
  Loaded st w = (w.saved ≡ st) × Sided w

  ends :
      {m : M V (Unit {0})} {P : World V → Type 0}
      → ((w : World V) → P w → Sided w)
      → Keeps P m
      → Triple P m (λ _. Sided) Sided
  ends side k = conseq (λ w h. h) (λ _. side) side (Keeps-Triple k)

  turned : (st : SagaState V) (w : World V) → is_back st.status ≡ true → Loaded (some st) w → Back w
  turned st w back (e, inl h) = ground arith
  turned st w back (e, inr h) = h

  unturned :
      (st : SagaState V) (w : World V) → is_back st.status ≡ false → Loaded (some st) w → Forth w
  unturned st w onward (e, inl h) = h
  unturned st w onward (e, inr h) = ground arith

  continue_as-Sided :
      (st : SagaState V) (s : SagaStatus)
      → st.status ≡ s
      → Triple (Loaded (some st)) (continue_as env names st s) (λ _. Sided) Sided
  unfolding continue_as
  continue_as-Sided st completed e = ends (λ w h. h.1) (Keeps-pure tt)
  continue_as-Sided st compensated e = ends (λ w h. h.1) (Keeps-pure tt)
  continue_as-Sided st failed e = ends (λ w h. h.1) (Keeps-raise _)
  continue_as-Sided st compensating e =
      bind
        (conseq (λ w h. turned st w (ground arith) h) (λ _ w h. h) (λ w h. inr h)
          (Keeps-Triple (lift-Keeps env (env.decode st.context))))
        λ ctx. undo-Sided env names st.current_step st.current_step ctx none
  continue_as-Sided st running e =
      bind
        (conseq (λ w h. unturned st w (ground arith) h) (λ _ w h. h) (λ w h. inl h)
          (Keeps-Triple (lift-Keeps env (env.decode st.context))))
        λ ctx.
          forward-Works env names st.current_step (drop st.current_step names) st.current_step ctx

  continue_state-Sided :
      (st : SagaState V)
      → Triple (Loaded (some st)) (continue_state env names st) (λ _. Sided) Sided
  unfolding continue_state
  continue_state-Sided st =
      Triple-if (ltb (length names) st.current_step) (ends (λ w h. h.1) (Keeps-raise _))
        (continue_as-Sided st st.status refl)

  load-Sided : Keeps Sided (stored env load (λ w. w))
  load-Sided = record {
    at = λ w h. elim h [
      | inl side ↦ inl ((stored-Forth env load (λ w. w) refl λ w. refl).at w side)
      | inr side ↦ inr ((stored-Back env load (λ w. w) refl (λ w. refl) λ w b. b).at w side)
    ];
  }

  unsaved : (w : World V) → Loaded none w → Forth w
  unsaved w (e, inl h) = h
  unsaved w (e, inr h) = ground arith

  start-Sided :
      (ctx : C) (st : Option (SagaState V))
      → Triple (Loaded st) (start_or_continue env names ctx st) (λ _. Sided) Sided
  unfolding start_or_continue
  start-Sided ctx (some st) = continue_state-Sided st
  start-Sided ctx none =
      bind
        (conseq (λ w h. unsaved w h) (λ _ w h. h) (λ w h. h)
          (forth env (save_with-Forth env running 0 ctx)))
        λ _. forward-Works env names 0 names 0 ctx

  found-Sided :
      (st : Option (SagaState V))
      → Triple (Loaded st) (continue_found env names st) (λ _. Sided) Sided
  unfolding continue_found
  found-Sided (some st) = continue_state-Sided st
  found-Sided none = ends (λ w h. h.1) (Keeps-raise _)

  run-Sided : (ctx : C) → Triple Sided (run env names ctx) (λ _. Sided) Sided
  unfolding run saved_state
  run-Sided ctx =
      bind (ends (λ w h. h) load-Sided)
        λ _. bind {Q = Loaded} (record { at = λ w h. (refl, h) }) (start-Sided ctx)

  resume-Sided : Triple Sided (resume env names) (λ _. Sided) Sided
  unfolding resume saved_state
  resume-Sided =
      bind (ends (λ w h. h) load-Sided)
        λ _. bind {Q = Loaded} (record { at = λ w h. (refl, h) }) found-Sided

  -- A call of the saga, and the state it leaves, whatever it returns: `some` context is `run`.
  unfoldable pub attempt : Option C → World V → World V
  attempt none w = (resume env names w).1
  attempt (some ctx) w = (run env names ctx w).1

  unfoldable pub attempt_all : List (Option C) → World V → World V
  attempt_all [] w = w
  attempt_all (a ∷ rest) w = attempt_all rest (attempt a w)

  attempt-Sided : (a : Option C) (w : World V) → Sided w → Sided (attempt a w)
  unfolding attempt
  attempt-Sided none w h = merged resume-Sided w h
  attempt-Sided (some ctx) w h = merged (run-Sided ctx) w h

  attempt_all-Sided :
      (calls : List (Option C)) (w : World V) → Sided w → Sided (attempt_all calls w)
  unfolding attempt_all
  attempt_all-Sided [] w h = h
  attempt_all-Sided (a ∷ rest) w h = attempt_all-Sided rest (attempt a w) (attempt-Sided a w h)

  -- Over any number of runs and resumes of one saga that is new to the store, whichever calls of
  -- the store, of the steps and of the codec fail, no step is executed after the first
  -- compensation.
  pub attempt_all-in_order :
      (calls : List (Option C)) (w : World V)
      → w.saved ≡ none
      → w.calls ≡ []
      → in_order (attempt_all calls w).calls ≡ true
  attempt_all-in_order calls w unsaved_yet uncalled =
      elim (attempt_all-Sided calls w (inl (ground arith))) [ inl h ↦ h.1 | inr h ↦ h.1 ]
