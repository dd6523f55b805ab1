-- ===== src/Saga/Order.antt =====
-- ecat-saga/src/saga.rs: work before compensation, over any number of runs and resumes.
use e_cat.Prelude.{
  ℕ, suc, String, ◌≡◌, refl, ◌⊎◌, inl, inr, Bool, true, false, not, ◌&&◌, Option, none, some, List,
  [], ◌∷◌, reverse, take, arith,
}
use e_cat.Prelude.Triple.{
  Pred, Triple, Keeps, Keeps-pure, Keeps-raise, Keeps-bind, Keeps-then, Keeps-Triple, bind, conseq,
}
use e_cat.Saga.{
  SagaStatus, running, compensating, completed, compensated, failed, StepStatus, step_done,
  step_compensated, step_failed, is_done, SagaError, SagaState, Call, get_step, save, put_step,
  execute, compensate, World, Env, M, lift, stored, save_state, set_step, found, step_status, act,
  save_with, result_of, after_undo, undo_step, compensate_each, compensate_before, fail_step,
  finish_step, after_step, try_step, forward,
}

abbrev pub is_back : SagaStatus → Bool
is_back running = false
is_back completed = false
is_back _ = true

module _ {V : Type 0} where
  abbrev pub has_undo : List (Call V) → Bool
  has_undo [] = false
  has_undo (compensate _ ∷ cs) = true
  has_undo (_ ∷ cs) = has_undo cs

  -- No step was executed after a compensation; the newest call is the first.
  abbrev pub in_order : List (Call V) → Bool
  in_order [] = true
  in_order (execute _ ∷ cs) = not (has_undo cs) && in_order cs
  in_order (_ ∷ cs) = in_order cs

  abbrev pub saved_back : Option (SagaState V) → Bool
  saved_back none = false
  saved_back (some st) = is_back st.status

  -- Nothing was compensated.
  abbrev pub Forth : World V → Type 0
  Forth w = (has_undo w.calls ≡ false) × (in_order w.calls ≡ true)

  -- The saved status says that the saga is being undone, or was.
  abbrev pub Back : World V → Type 0
  Back w = (saved_back w.saved ≡ true) × (in_order w.calls ≡ true)

  abbrev pub Sided : World V → Type 0
  Sided w = Forth w ⊎ Back w

  abbrev is_act : Call V → Bool
  is_act (execute _) = true
  is_act (compensate _) = true
  is_act _ = false

module _ {C V : Type 0} (env : Env C V) where
  pub stored-Forth :
      (c : Call V) (f : World V → World V)
      → is_act c ≡ false
      → ((w : World V) → (f w).calls ≡ w.calls)
      → Keeps Forth (stored env c f)
  unfolding stored
  stored-Forth c f quiet same = record {
    at = λ w h. ground (arith, same (record w { calls = c ∷ w.calls }));
  }

  pub stored-Back :
      (c : Call V) (f : World V → World V)
      → is_act c ≡ false
      → ((w : World V) → (f w).calls ≡ w.calls)
      → ((w : World V) → saved_back w.saved ≡ true → saved_back (f w).saved ≡ true)
      → Keeps Back (stored env c f)
  unfolding stored
  stored-Back c f quiet same back = record {
    at = λ w h.
        ground
          (arith, same (record w { calls = c ∷ w.calls }), back (record w { calls = c ∷ w.calls }));
  }

  pub lift-Keeps : {A : Type 0} {P : Pred (World V)} (o : Option A) → Keeps P (lift o)
  unfolding lift
  lift-Keeps none = Keeps-raise _
  lift-Keeps (some a) = Keeps-pure a

  pub save_with-Forth : (s : SagaStatus) (n : ℕ) (ctx : C) → Keeps Forth (save_with env s n ctx)
  unfolding save_with save_state
  save_with-Forth s n ctx =
      Keeps-bind (lift-Keeps (env.encode ctx)) λ v. stored-Forth (save _) _ refl λ w. refl

  save_with-Back :
      (s : SagaStatus) (n : ℕ) (ctx : C) → is_back s ≡ true → Keeps Back (save_with env s n ctx)
  unfolding save_with save_state
  save_with-Back s n ctx back =
      Keeps-bind (lift-Keeps (env.encode ctx))
        λ v. stored-Back (save _) _ refl (λ w. refl) λ w h. back

  act-execute-Forth : (name : String) (ctx : C) → Keeps Forth (act env (execute name) ctx)
  unfolding act
  act-execute-Forth name ctx = record { at = λ w h. ground arith }

  act_undo-Back : (name : String) (ctx : C) → Keeps Back (act env (compensate name) ctx)
  unfolding act
  act_undo-Back name ctx = record { at = λ w h. h }

  set_step-Forth : (name : String) (s : StepStatus) → Keeps Forth (set_step env name s)
  unfolding set_step
  set_step-Forth name s = stored-Forth (put_step name s) _ refl λ w. refl

  set_step-Back : (name : String) (s : StepStatus) → Keeps Back (set_step env name s)
  unfolding set_step
  set_step-Back name s = stored-Back (put_step name s) _ refl (λ w. refl) λ w h. h

  step_status-Forth : (name : String) → Keeps Forth (step_status env name)
  unfolding step_status found
  step_status-Forth name =
      Keeps-then (stored-Forth get_step _ refl λ w. refl) (record { at = λ w h. h })

  step_status-Back : (name : String) → Keeps Back (step_status env name)
  unfolding step_status found
  step_status-Back name =
      Keeps-then (stored-Back get_step _ refl (λ w. refl) λ w h. h) (record { at = λ w h. h })

  after_undo-Back : (n : ℕ) (name : String) (r : Bool × C) → Keeps Back (after_undo env n name r)
  unfolding after_undo
  after_undo-Back n name (true, ctx) =
      Keeps-then (set_step-Back name step_compensated)
        (Keeps-then (save_with-Back compensating n ctx refl) (Keeps-pure ctx))
  after_undo-Back n name (false, ctx) =
      Keeps-then (set_step-Back name step_failed)
        (Keeps-then (save_with-Back failed n ctx refl) (Keeps-raise _))

  undo_step-Back :
      (n : ℕ) (ctx : C) (name : String) (b : Bool) → Keeps Back (undo_step env n ctx name b)
  unfolding undo_step
  undo_step-Back n ctx name false = Keeps-pure ctx
  undo_step-Back n ctx name true = Keeps-bind (act_undo-Back name ctx) λ r. after_undo-Back n name r

  result_of-Back : (cause : Option SagaError) → Keeps Back (result_of env cause)
  unfolding result_of
  result_of-Back none = Keeps-pure tt
  result_of-Back (some e) = Keeps-raise e

  compensate_each-Back :
      (n : ℕ) (names : List String) (ctx : C) (cause : Option SagaError)
      → Keeps Back (compensate_each env n names ctx cause)
  unfolding compensate_each
  compensate_each-Back n [] ctx cause =
      Keeps-then (save_with-Back compensated n ctx refl) (result_of-Back cause)
  compensate_each-Back n (name ∷ names) ctx cause = Keeps-bind (step_status-Back name) λ s.
      Keeps-bind (undo_step-Back n ctx name (is_done s))
        λ ctx'. compensate_each-Back n names ctx' cause

  pub undo-Sided :
      (names : List String) (before n : ℕ) (ctx : C) (cause : Option SagaError)
      → Triple Back (compensate_before env names before n ctx cause) (λ _. Sided) Sided
  unfolding compensate_before
  undo-Sided names before n ctx cause =
      conseq (λ w h. h) (λ _ w h. inr h) (λ w h. inr h)
        (Keeps-Triple (compensate_each-Back n (reverse (take before names)) ctx cause))

  pub forth : {A : Type 0} {m : M V A} → Keeps Forth m → Triple Forth m (λ _. Forth) Sided
  forth k = conseq (λ w h. h) (λ _ w h. h) (λ w h. inl h) (Keeps-Triple k)

  turns :
      (st : SagaState V)
      → is_back st.status ≡ true
      → Triple Forth (save_state env st) (λ _. Back) Sided
  unfolding save_state stored
  turns st back = record { at = λ w h. ground arith }

  -- Where the state could be saved, the saga is on its way back.
  save_compensating :
      (n : ℕ) (ctx : C) → Triple Forth (save_with env compensating n ctx) (λ _. Back) Sided
  unfolding save_with save_state
  save_compensating n ctx =
      bind (forth (lift-Keeps (env.encode ctx)))
        λ v. turns (record { status = compensating; current_step = n; context = v }) refl

  fail_step-Sided :
      (names : List String) (index n : ℕ) (name : String) (ctx : C)
      → Triple Forth (fail_step env names index n name ctx) (λ _. Sided) Sided
  unfolding fail_step
  fail_step-Sided names index n name ctx =
      bind (forth (set_step-Forth name step_failed))
        λ _. bind (save_compensating n ctx) λ _. undo-Sided names index n ctx _

  abbrev pub Works : M V (Unit {0}) → Type 0
  Works m = Triple Forth m (λ _. Sided) Sided

  after_step-Works :
      (names : List String) (index n : ℕ) (name : String) (next : C → M V (Unit {0})) (r : Bool × C)
      → ((ctx : C) → Works (next ctx))
      → Works (after_step env names index n name next r)
  unfolding after_step finish_step
  after_step-Works names index n name next (true, ctx) go =
      bind
        (forth
          (Keeps-then (set_step-Forth name step_done) (save_with-Forth running (suc index) ctx)))
        λ _. go ctx
  after_step-Works names index n name next (false, ctx) go = fail_step-Sided names index n name ctx

  try_step-Works :
      (names : List String) (index n : ℕ) (name : String) (ctx : C) (next : ℕ → C → M V (Unit {0}))
      (b : Bool)
      → ((n' : ℕ) (ctx' : C) → Works (next n' ctx'))
      → Works (try_step env names index n name ctx next b)
  unfolding try_step
  try_step-Works names index n name ctx next true go = go n ctx
  try_step-Works names index n name ctx next false go =
      bind (forth (act-execute-Forth name ctx))
        λ r. after_step-Works names index n name (next (suc index)) r (go (suc index))

  pub forward-Works :
      (names : List String) (index : ℕ) (rest : List String) (n : ℕ) (ctx : C)
      → Works (forward env names index rest n ctx)
  unfolding forward
  forward-Works names index [] n ctx =
      conseq (λ w h. h) (λ _ w h. inl h) (λ w h. h) (forth (save_with-Forth completed n ctx))
  forward-Works names index (name ∷ rest) n ctx = bind (forth (step_status-Forth name)) λ s.
      try_step-Works names index n name ctx (forward env names (suc index) rest) (is_done s)
        (forward-Works names (suc index) rest)
