-- ===== src/TwoPhase/Completion.antt =====
-- ecat-data-2pc: what a returned `commit` has done, and that recovery comes to an end when the
-- participants and the database answer.
use e_cat.Prelude.{
  String, ◌≡◌, refl, sym, subst, Bool, true, false, Option, none, some, List, [], ◌∷◌, arith,
}
use e_cat.Prelude.Result.{Result, ok, err}
use e_cat.Prelude.Exec.{pure}
use e_cat.TwoPhase.{
  XaError, state, database, TxStatus, started, prepared, committing, committed, Decision, to_commit,
  LogRow, Event, read_status, xa_commit, xa_end, xa_prepare, update_row, World, Env, M, request,
  set_log, for_all, abort, commit_prepared, two_phases, current, read, commit_from, commit,
}
use e_cat.Prelude.Triple.{Pred, Post, Triple, Keeps-Triple, Triple-raise, bind, catch, conseq}
use e_cat.TwoPhase.Trace.{DidAll, DidAll-push, Live}
use e_cat.TwoPhase.Atomicity.{request-Live}

abbrev True : Pred World
True w = Unit {0}

abbrev has_row : Option LogRow → Bool
has_row none = false
has_row (some row) = true

abbrev StatusIs : TxStatus → Option LogRow → Type 0
StatusIs s none = ⊥
StatusIs s (some row) = row.status ≡ s

abbrev HasRow : Pred World
HasRow w = has_row w.row ≡ true

-- The log has the transaction, and each of `names` did what `event` asks.
abbrev Doing : (String → Event) → List String → World → Type 0
Doing event names w = (has_row w.row ≡ true) × DidAll event names w.trace

abbrev pub Committed : List String → World → Type 0
Committed names w = StatusIs committed w.row × DidAll xa_commit names w.trace

Post-True : {A : Type 0} (r : Result XaError A × World) → Post (λ _. True) True r
Post-True (ok a, w) = tt
Post-True (err e, w) = tt

ran : {A : Type 0} {P : Pred World} {m : M A} → Triple P m (λ _. True) True
ran {m} = record { at = λ w h. Post-True (m w) }

returned_post :
    (Q : Pred World) (r : Result XaError (Unit {0}) × World)
    → r.0 ≡ ok tt
    → Post (λ _. Q) True r
    → Q r.1
returned_post Q (ok _, w) e h = h
returned_post Q (err x, w) e h = absurd (ground arith)

module _ (env : Env) (event : String → Event) where
  request-Doing :
      (seen : List String) (name : String)
      → Triple
          (Doing event seen)
          (request env (event name) state)
          (λ _. Doing event (name ∷ seen))
          True
  unfolding request
  request-Doing seen name = record {
    at = λ w h.
        ground
          (arith, DidAll-push event seen (event name) (env.reply w.trace (event name)) w.trace h.1);
  }

  for_all-Doing :
      (seen rest : List String)
      → Triple
          (Doing event seen)
          (for_all env event rest)
          (λ _ w. Doing event seen w × DidAll event rest w.trace)
          True
  unfolding for_all pure
  for_all-Doing seen [] = record { at = λ w h. (h, tt) }
  for_all-Doing seen (name ∷ rest) = bind (request-Doing seen name) λ _.
      conseq (λ w h. h) (λ _ w h. ((h.0.0, h.0.1.1), (h.0.1.0, h.1))) (λ w h. h)
        (for_all-Doing (name ∷ seen) rest)

module _ (env : Env) where
  set_log-Doing :
      (event : String → Event) (names : List String) (s : TxStatus) (d : Option Decision)
      → Triple
          (Doing event names)
          (set_log env s d)
          (λ _ w. StatusIs s w.row × Doing event names w)
          True
  unfolding set_log
  set_log-Doing event names s d = record {
    at = λ w h. ground (
      arith,
      DidAll-push event names (update_row s d) (env.reply w.trace (update_row s d)) w.trace h.1,
    );
  }

  abort_never :
      {P : Pred World} {Q : Unit {0} → Pred World} (names : List String)
      → Triple P (abort env names) Q True
  unfolding abort
  abort_never names = bind ran λ _. bind ran λ _. bind ran λ _. Triple-raise state

  logged : (s : TxStatus) (d : Option Decision) → Triple HasRow (set_log env s d) (λ _. HasRow) True
  logged s d =
      conseq (λ w h. (h, tt)) (λ _ w h. h.1.0) (λ w h. h) (set_log-Doing (λ n. xa_commit n) [] s d)

  each :
      (event : String → Event) (names : List String)
      → Triple HasRow (for_all env event names) (λ _. Doing event names) True
  each event names =
      conseq (λ w h. (h, tt)) (λ _ w h. (h.0.0, h.1)) (λ w h. h) (for_all-Doing env event [] names)

  commit_prepared-Committed :
      (names : List String) → Triple HasRow (commit_prepared env names) (λ _. Committed names) True
  unfolding commit_prepared
  commit_prepared-Committed names = bind (logged prepared none) λ _.
      bind (logged committing (some to_commit)) λ _. bind (each xa_commit names) λ _.
        conseq (λ w h. h) (λ _ w h. (h.0, h.1.1)) (λ w h. h)
          (set_log-Doing xa_commit names committed (some to_commit))

  two_phases-Committed :
      (names : List String) → Triple HasRow (two_phases env names) (λ _. Committed names) True
  unfolding two_phases
  two_phases-Committed names = catch (each xa_end names) (abort_never names) λ _.
      catch (conseq (λ w h. h.0) (λ _ w h. h) (λ w h. h) (each xa_prepare names))
        (abort_never names)
        λ _. conseq (λ w h. h.0) (λ _ w h. h) (λ w h. h) (commit_prepared-Committed names)

  read_started :
      (names : List String)
      → Triple (Live names) (read env) (λ s w. (s ≡ some started) × HasRow w) True
  unfolding read current
  read_started names =
      bind
        (conseq (λ w h. h) (λ _ w h. h) (λ w h. tt)
          (Keeps-Triple (request-Live env names read_status database refl refl)))
        λ _. record { at = λ w h. ground arith }

  from_started :
      (names : List String)
      → Triple HasRow (commit_from env names (some started)) (λ _. Committed names) True
  unfolding commit_from
  from_started names = two_phases-Committed names

  commit-Triple :
      (names : List String) → Triple (Live names) (commit env names) (λ _. Committed names) True
  unfolding commit
  commit-Triple names = bind (read_started names) λ status. record {
    at = λ w h.
        (subst (λ s. Triple HasRow (commit_from env names s) (λ _. Committed names) True) (sym h.0)
            (from_started names)).at
          w h.1;
  }

  -- Where `commit` of a transaction that was begun returns without an error, every participant
  -- was asked to commit and did, and the log has it as committed.
  pub commit-Committed :
      (names : List String) (w : World)
      → Live names w
      → (commit env names w).0 ≡ ok tt
      → Committed names (commit env names w).1
  commit-Committed names w h returned =
      returned_post (Committed names) (commit env names w) returned ((commit-Triple names).at w h)
