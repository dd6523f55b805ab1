-- ===== src/TwoPhase/Atomicity.antt =====
-- ecat-data-2pc: what each operation keeps of the two sides that a transaction can be on.
use e_cat.Prelude.{String, ◌≡◌, refl, true, false, Option, some, List, [], ◌∷◌, reverse, arith}
use e_cat.Prelude.Exec.{◌>>◌}
use e_cat.TwoPhase.{
  XaError, TxStatus, committing, committed, rolling_back, rolled_back, Decision, to_commit, Event,
  update_row, xa_commit, xa_rollback, xa_prepare, xa_end, Env, request, set_log, for_all,
  rollback_each, abort, rollback_all, state,
}
use e_cat.Prelude.Triple.{Keeps, Keeps-pure, Keeps-raise, Keeps-then, Keeps-ignore}
use e_cat.TwoPhase.Trace.{
  is_commit, is_rollback, DidAll-push, on_rollback_side, is_to_rollback, NoCommit, Voted, Live,
}

module _ (env : Env) where
  pub request-NoCommit :
      (e : Event) (error : XaError) → is_commit e ≡ false → Keeps NoCommit (request env e error)
  unfolding request
  request-NoCommit e error neutral = record { at = λ w h. ground arith }

  pub request-Voted :
      (names : List String) (e : Event) (error : XaError)
      → is_rollback e ≡ false
      → Keeps (Voted names) (request env e error)
  unfolding request
  request-Voted names e error neutral = record {
    at = λ w h. ground (arith, DidAll-push xa_prepare names e (env.reply w.trace e) w.trace h.2);
  }

  pub request-Live :
      (names : List String) (e : Event) (error : XaError)
      → is_commit e ≡ false
      → is_rollback e ≡ false
      → Keeps (Live names) (request env e error)
  unfolding request
  request-Live names e error neutral quiet = record { at = λ w h. ground arith }

  pub set_log-NoCommit :
      (s : TxStatus) (d : Option Decision)
      → on_rollback_side s ≡ true
      → Keeps NoCommit (set_log env s d)
  unfolding set_log
  set_log-NoCommit s d side = record { at = λ w h. ground arith }

  pub set_log-Voted :
      (names : List String) (s : TxStatus) (d : Option Decision)
      → on_rollback_side s ≡ false
      → is_to_rollback d ≡ false
      → Keeps (Voted names) (set_log env s d)
  unfolding set_log
  set_log-Voted names s d side forward = record {
    at = λ w h. ground (
      arith,
      DidAll-push xa_prepare names (update_row s d) (env.reply w.trace (update_row s d)) w.trace
          h.2,
    );
  }

  pub for_all_end-Live : (names rest : List String) → Keeps (Live names) (for_all env xa_end rest)
  unfolding for_all
  for_all_end-Live names [] = Keeps-pure tt
  for_all_end-Live names (name ∷ rest) =
      Keeps-then (request-Live names (xa_end name) state refl refl) (for_all_end-Live names rest)

  pub for_all_commit-Voted :
      (names rest : List String) → Keeps (Voted names) (for_all env xa_commit rest)
  unfolding for_all
  for_all_commit-Voted names [] = Keeps-pure tt
  for_all_commit-Voted names (name ∷ rest) =
      Keeps-then (request-Voted names (xa_commit name) state refl) (for_all_commit-Voted names rest)

  pub rollback_each-NoCommit : (rest : List String) → Keeps NoCommit (rollback_each env rest)
  unfolding rollback_each
  rollback_each-NoCommit [] = Keeps-pure tt
  rollback_each-NoCommit (name ∷ rest) =
      Keeps-then (Keeps-ignore (request-NoCommit (xa_end name) state refl))
        (Keeps-then (request-NoCommit (xa_rollback name) state refl) (rollback_each-NoCommit rest))

  pub rollback_all-NoCommit : (names : List String) → Keeps NoCommit (rollback_all env names)
  unfolding rollback_all
  rollback_all-NoCommit names =
      Keeps-then (set_log-NoCommit rolling_back _ refl)
        (Keeps-then (rollback_each-NoCommit (reverse names)) (set_log-NoCommit rolled_back _ refl))

  pub abort-NoCommit : (names : List String) → Keeps NoCommit (abort env names)
  unfolding abort
  abort-NoCommit names = Keeps-then (set_log-NoCommit rolling_back _ refl) (
      Keeps-then (rollback_each-NoCommit (reverse names))
        (Keeps-then (set_log-NoCommit rolled_back _ refl) (Keeps-raise state)))

  pub committing-Voted :
      (names : List String)
      → Keeps (Voted names) (do
        set_log env committing (some to_commit)
        for_all env xa_commit names
        set_log env committed (some to_commit))
  committing-Voted names =
      Keeps-then (set_log-Voted names committing _ refl refl)
        (Keeps-then (for_all_commit-Voted names names) (set_log-Voted names committed _ refl refl))
