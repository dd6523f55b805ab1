-- ===== src/TwoPhase/Vote.antt =====
-- ecat-data-2pc/src/coordinator.rs: how a transaction that was begun comes to one of its two sides.
use e_cat.Prelude.{String, refl, inl, inr, Option, none, some, List, [], ◌∷◌, arith}
use e_cat.Prelude.Exec.{pure}
use e_cat.TwoPhase.{
  TxStatus, started, prepared, committing, committed, rolling_back, rolled_back, update_row,
  read_status, xa_prepare, Reply, done, lost, refused, World, Env, M, write, log_event, set_row,
  request, set_log, for_all, commit_prepared, two_phases, current, read, commit_from, commit,
  rollback_from, rollback, state, database,
}
use e_cat.Prelude.Triple.{
  Post, Triple, Keeps, Keeps-Triple, Keeps-pure, Keeps-raise, Keeps-bind, bind, catch, conseq,
}
use e_cat.TwoPhase.Trace.{DidAll, DidAll-push, NoCommit, Voted, Live, OneSided}
use e_cat.TwoPhase.Atomicity.{
  request-Live, for_all_end-Live, abort-NoCommit, committing-Voted, rollback_all-NoCommit,
}

-- Nothing was decided, and those in `seen` have prepared.
abbrev pub Voting : List String → List String → World → Type 0
Voting names seen w = Live names w × DidAll xa_prepare seen w.trace

pub Live-NoCommit : (names : List String) (w : World) → Live names w → NoCommit w
Live-NoCommit names w h = ground arith

module _ (env : Env) where
  request_prepare :
      (names seen : List String) (name : String)
      → Triple
          (Voting names seen)
          (request env (xa_prepare name) state)
          (λ _. Voting names (name ∷ seen))
          (Live names)
  unfolding request
  request_prepare names seen name = record {
    at = λ w h. ground (
      arith,
      DidAll-push xa_prepare seen (xa_prepare name) (env.reply w.trace (xa_prepare name)) w.trace
          h.1,
    );
  }

  prepare_each :
      (names seen rest : List String)
      → Triple
          (Voting names seen)
          (for_all env xa_prepare rest)
          (λ _ w. Voting names seen w × DidAll xa_prepare rest w.trace)
          (Live names)
  unfolding for_all pure
  prepare_each names seen [] = record { at = λ w h. (h, tt) }
  prepare_each names seen (name ∷ rest) = bind (request_prepare names seen name) λ _.
      conseq (λ w h. h) (λ _ w h. ((h.0.0, h.0.1.1), (h.0.1.0, h.1))) (λ w h. h)
        (prepare_each names (name ∷ seen) rest)

  voted :
      (names : List String) (r : Reply) (w : World)
      → Voting names names w
      → Voted names (record {
        row = set_row prepared none w.row;
        trace = (update_row prepared none, r) ∷ w.trace;
      })
  voted names r w h =
      ground (arith, DidAll-push xa_prepare names (update_row prepared none) r w.trace h.1)

  write_prepared :
      (names : List String) (r : Reply) (w : World)
      → Voting names names w
      → Post
          (λ _. Voted names)
          (OneSided names)
          (write env (set_row prepared none) r (log_event (update_row prepared none) r w))
  write_prepared names done w h = voted names done w h
  write_prepared names lost w h = inr (voted names lost w h)
  write_prepared names refused w h = inl (Live-NoCommit names w h.0)

  set_log_prepared :
      (names : List String)
      → Triple (Voting names names) (set_log env prepared none) (λ _. Voted names) (OneSided names)
  unfolding set_log
  set_log_prepared names = record {
    at = λ w h. write_prepared names (env.reply w.trace (update_row prepared none)) w h;
  }

  commit_prepared-OneSided :
      (names : List String)
      → Triple
          (Voting names names)
          (commit_prepared env names)
          (λ _. OneSided names)
          (OneSided names)
  unfolding commit_prepared
  commit_prepared-OneSided names = bind (set_log_prepared names) λ _.
      conseq (λ w h. h) (λ _ w h. inr h) (λ w h. inr h) (Keeps-Triple (committing-Voted env names))

  two_phases-OneSided :
      (names : List String)
      → Triple (Live names) (two_phases env names) (λ _. OneSided names) (OneSided names)
  unfolding two_phases
  two_phases-OneSided names =
      let undone =
        conseq (λ w h. Live-NoCommit names w h) (λ _ w h. inl h) (λ w h. inl h)
          (Keeps-Triple (abort-NoCommit env names)) in
      catch (Keeps-Triple (for_all_end-Live env names names)) undone λ _.
        catch
          (conseq (λ w h. (h, tt)) (λ _ w h. (h.0.0, h.1)) (λ w h. h) (prepare_each names [] names))
          undone λ _. commit_prepared-OneSided names

  pub read-Live : (names : List String) → Keeps (Live names) (read env)
  unfolding read current
  read-Live names =
      Keeps-bind (request-Live env names read_status database refl refl)
        λ _. record { at = λ w h. h }

  undecided :
      {m : M (Unit {0})} (names : List String)
      → Keeps (Live names) m
      → Triple (Live names) m (λ _. OneSided names) (OneSided names)
  undecided names k =
      let side = λ (w : World) (h : Live names w). inl (Live-NoCommit names w h) in
      conseq (λ w h. h) (λ _. side) side (Keeps-Triple k)

  commit_from-OneSided :
      (names : List String) (s : Option TxStatus)
      → Triple (Live names) (commit_from env names s) (λ _. OneSided names) (OneSided names)
  unfolding commit_from
  commit_from-OneSided names none = two_phases-OneSided names
  commit_from-OneSided names (some started) = two_phases-OneSided names
  commit_from-OneSided names (some prepared) = two_phases-OneSided names
  commit_from-OneSided names (some committing) = two_phases-OneSided names
  commit_from-OneSided names (some rolling_back) = two_phases-OneSided names
  commit_from-OneSided names (some committed) = undecided names (Keeps-pure tt)
  commit_from-OneSided names (some rolled_back) = undecided names (Keeps-raise state)

  rollback_from-NoCommit :
      (names : List String) (s : Option TxStatus) → Keeps NoCommit (rollback_from env names s)
  unfolding rollback_from
  rollback_from-NoCommit names none = rollback_all-NoCommit env names
  rollback_from-NoCommit names (some started) = rollback_all-NoCommit env names
  rollback_from-NoCommit names (some prepared) = rollback_all-NoCommit env names
  rollback_from-NoCommit names (some committing) = rollback_all-NoCommit env names
  rollback_from-NoCommit names (some rolling_back) = rollback_all-NoCommit env names
  rollback_from-NoCommit names (some committed) = Keeps-raise state
  rollback_from-NoCommit names (some rolled_back) = Keeps-pure tt

  -- `commit` ends on one of the two sides, however the requests end.
  pub commit-OneSided :
      (names : List String)
      → Triple (Live names) (commit env names) (λ _. OneSided names) (OneSided names)
  unfolding commit
  commit-OneSided names =
      bind
        (conseq (λ w h. h) (λ _ w h. h) (λ w h. inl (Live-NoCommit names w h))
          (Keeps-Triple (read-Live names)))
        (commit_from-OneSided names)

  -- `rollback` asks no participant to commit.
  pub rollback-NoCommit :
      (names : List String) → Triple (Live names) (rollback env names) (λ _. NoCommit) NoCommit
  unfolding rollback
  rollback-NoCommit names =
      bind
        (conseq (λ w h. h) (λ _ w h. Live-NoCommit names w h) (λ w h. Live-NoCommit names w h)
          (Keeps-Triple (read-Live names)))
        λ status. Keeps-Triple (rollback_from-NoCommit names status)
