-- ===== src/Sharding/Migrate/Cutover.antt =====
-- ecat-data-sharding/src/migrate/cutover.rs: the router is switched after every move is verified.
use e_cat.Prelude.{
  String, ◌≡◌, refl, sym, ap, ◌⊎◌, ltb, ◌^◌, either_way, inl, inr, Bool, true, false, Option, none,
  some, List, [], ◌∷◌, if◌then◌else◌, arith,
}
use e_cat.Prelude.Result.{Result, ok, err, ◌>>◌ as and_also}
use e_cat.Prelude.Int.{ℤ}
use e_cat.Prelude.Exec.{pure, raise}
use e_cat.Prelude.Triple.{
  Pred, Post, Triple, Keeps, Keeps-pure, Keeps-bind, Keeps-Triple, bind, conseq,
}
use e_cat.Sharding.Error.{ShardError, config}
use e_cat.Sharding.Catalog.{ShardCatalog, validate}
use e_cat.Sharding.Router.{ShardRouter, validate_clients}
use e_cat.Sharding.Plan.{ShardMove}
use e_cat.Sharding.Migrate.{
  Phase, done, JobState, Jobs, move_id, Answer, answered, refused, lost, World, M, find_job,
  write_job, loaded, load_job, saved, save_job, is_ready, require_ready, switched, check_ready,
  reload_router, save_phase, mark_jobs, preflight_schema, lift, cutover,
}

-- A part of the precondition that speaks of no state.
known :
    {A F : Type 0} {P E : Pred World} {m : M A} {Q : A → Pred World}
    → (F → Triple P m Q E)
    → Triple (λ w. P w × F) m Q E
known t = record { at = λ w h. (t h.1).at w h.0 }

module _ (show : ℤ → String) (is_blank : String → Bool) where
  -- The job of every move says that it is verified, or done by an earlier cutover.
  abbrev pub AllReady : Jobs → List ShardMove → Type 0
  AllReady jobs [] = Unit
  AllReady jobs (mv ∷ rest) =
      ((job : JobState) × (find_job (move_id show mv) jobs ≡ some job)
        × (is_ready job.phase ≡ true))
      × AllReady jobs rest

  module _ (jobs : Jobs) (router : ShardRouter) where
    -- Nothing but answers was taken.
    abbrev Same : Pred World
    Same w = (w.jobs ≡ jobs) × (w.router ≡ router)

    loaded-Triple :
        (id : String) → Triple Same (load_job id) (λ job w. Same w × (job ≡ find_job id jobs)) Same
    unfolding load_job
    loaded-Triple id = record { at = λ w h. by_answer w w.answers h }
      where
        by_answer :
            (w : World) (answers : List Answer)
            → Same w
            → Post
                (λ job v. Same v × (job ≡ find_job id jobs))
                Same
                (loaded (find_job id w.jobs) w answers)
        by_answer w [] h = h
        by_answer w (answered ∷ rest) h = (h, rw h.0)
        by_answer w (refused ∷ rest) h = h
        by_answer w (lost ∷ rest) h = h

    abbrev JobReady : ShardMove → Type 0
    JobReady mv =
        (job : JobState) × (find_job (move_id show mv) jobs ≡ some job)
        × (is_ready job.phase ≡ true)

    require-Triple :
        (mv : ShardMove) (o : Option JobState)
        → Triple
            (λ w. Same w × (o ≡ find_job (move_id show mv) jobs))
            (require_ready o)
            (λ _ w. Same w × JobReady mv)
            Same
    unfolding pure raise
    require-Triple mv none = record { at = λ w h. h.0 }
    require-Triple mv (some job) = record { at = λ w h. by_phase w h (is_ready job.phase) refl }
      where
        by_phase :
            (w : World)
            → Same w × (some job ≡ find_job (move_id show mv) jobs)
            → (b : Bool) → is_ready job.phase ≡ b
            → Post
                (λ _ v. Same v × JobReady mv)
                Same
                ((if b then pure tt else raise {A = Unit {0}} config) w)
        by_phase w h true e = (h.0, (job, sym h.1, e))
        by_phase w h false e = h.0

    ready-Triple :
        (moves : List ShardMove)
        → Triple Same (check_ready show is_blank moves) (λ _ w. Same w × AllReady jobs moves) Same
    unfolding check_ready pure
    ready-Triple [] = record { at = λ w h. (h, tt) }
    ready-Triple (mv ∷ rest) = bind (loaded-Triple (move_id show mv)) (λ job.
        bind (require-Triple mv job) (λ _. known (λ ready.
          conseq (λ w h. h) (λ _ w h. (h.0, (ready, h.1))) (λ w h. h) (ready-Triple rest))))

    module _ (moves : List ShardMove) (catalog : ShardCatalog) where
      abbrev Switched : Pred World
      Switched w = (w.router ≡ record router { catalog = catalog }) × AllReady jobs moves

      abbrev Safe : Pred World
      Safe w = (w.router ≡ router) ⊎ Switched w

      reload-Triple :
          Triple
            (λ w. Same w × AllReady jobs moves)
            (reload_router show is_blank catalog)
            (λ _. Switched)
            Safe
      unfolding reload_router
      reload-Triple = record {
        at = λ w h.
            by_check w h
              (and_also (validate is_blank catalog) (validate_clients catalog w.router.clients));
      }
        where
          by_check :
              (w : World)
              → Same w × AllReady jobs moves
              → (r : Result ShardError (Unit {0}))
              → Post (λ _. Switched) Safe (switched r catalog w)
          by_check w h (err e) = inl h.0.1
          by_check w h (ok _) =
              (ap (λ (x : ShardRouter). record x { catalog = catalog }) h.0.1, h.1)

      load-Switched : (id : String) → Keeps Switched (load_job id)
      unfolding load_job
      load-Switched id = record { at = λ w h. by_answer w w.answers h }
        where
          by_answer :
              (w : World) (answers : List Answer)
              → Switched w
              → Switched (loaded (find_job id w.jobs) w answers).1
          by_answer w [] h = h
          by_answer w (answered ∷ rest) h = h
          by_answer w (refused ∷ rest) h = h
          by_answer w (lost ∷ rest) h = h

      save-Switched : (id : String) (job : JobState) → Keeps Switched (save_job id job)
      unfolding save_job
      save-Switched id job = record {
        at = λ w h.
            either_way (λ (x : Result ShardError (Unit {0}) × World). Switched x.1)
              (ltb job.rows (2 ^ 63)) (by_answer w w.answers h) h;
      }
        where
          by_answer :
              (w : World) (answers : List Answer)
              → Switched w
              → Switched (saved (write_job id job w.jobs) w answers).1
          by_answer w [] h = h
          by_answer w (answered ∷ rest) h = h
          by_answer w (refused ∷ rest) h = h
          by_answer w (lost ∷ rest) h = h

      phase-Switched :
          (phase : Phase) (mv : ShardMove) (o : Option JobState)
          → Keeps Switched (save_phase show is_blank phase mv o)
      phase-Switched phase mv none = Keeps-pure tt
      phase-Switched phase mv (some job) =
          save-Switched (move_id show mv) (record job { phase = phase })

      mark-Switched :
          (phase : Phase) (mvs : List ShardMove)
          → Keeps Switched (mark_jobs show is_blank phase mvs)
      unfolding mark_jobs
      mark-Switched phase [] = Keeps-pure tt
      mark-Switched phase (mv ∷ rest) =
          Keeps-bind (load-Switched (move_id show mv))
            (λ job. Keeps-bind (phase-Switched phase mv job) (λ _. mark-Switched phase rest))

      lift-Triple :
          (r : Result ShardError (Unit {0})) → Triple Same (lift show is_blank r) (λ _. Same) Same
      lift-Triple (ok _) = record { at = λ w h. h }
      lift-Triple (err e) = record { at = λ w h. h }

      unsafe :
          {P : Pred World} {A : Type 0} {m : M A} {Q : A → Pred World}
          → Triple P m Q Same
          → Triple P m Q Safe
      unsafe t = conseq (λ w h. h) (λ a w h. h) (λ w h. inl h.1) t

      cutover-Triple :
          (binary_column : String → String → Result ShardError Bool) (clients : List String)
          → Triple Same
              (cutover show is_blank binary_column clients moves catalog)
              (λ _. Switched)
              Safe
      unfolding cutover
      cutover-Triple binary_column clients =
          bind (unsafe (lift-Triple (preflight_schema binary_column clients moves))) (λ _.
            bind (unsafe (ready-Triple moves)) (λ _. bind reload-Triple (λ _.
              conseq (λ w h. h) (λ _ w h. h) (λ w h. inr h)
                (Keeps-Triple (mark-Switched done moves)))))

outcome :
    {Q E : Pred World} (x : Result ShardError (Unit {0}) × World)
    → Post (λ _. Q) E x
    → ((w : World) → Q w → E w)
    → E x.1 × (x.0 ≡ ok tt → Q x.1)
outcome (ok a, w) h k = (k w h, λ e. h)
outcome (err x, w) h k = (h, λ e. absurd (ground arith))

-- Whatever the database answers, `cutover` leaves the router alone, or it puts the new catalogue
-- in it and every move of the plan had a verified or done job; a cutover that returns Ok has done
-- the latter.
pub cutover_verified :
    (show : ℤ → String) (is_blank : String → Bool)
    (binary_column : String → String → Result ShardError Bool) (clients : List String)
    (moves : List ShardMove) (catalog : ShardCatalog) (w : World)
    → ((cutover show is_blank binary_column clients moves catalog w).1.router ≡ w.router
        ⊎ ((cutover show is_blank binary_column clients moves catalog w).1.router
            ≡ record w.router { catalog = catalog })
          × AllReady show is_blank w.jobs moves)
      × ((cutover show is_blank binary_column clients moves catalog w).0 ≡ ok tt
          → ((cutover show is_blank binary_column clients moves catalog w).1.router
              ≡ record w.router { catalog = catalog })
            × AllReady show is_blank w.jobs moves)
cutover_verified show is_blank binary_column clients moves catalog w =
    outcome (cutover show is_blank binary_column clients moves catalog w)
      ((cutover-Triple show is_blank w.jobs w.router moves catalog binary_column clients).at w
        (refl, refl))
      (λ v h. inr h)
