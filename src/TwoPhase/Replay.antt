-- ===== src/TwoPhase/Replay.antt =====
-- ecat-data-2pc/src/recovery.rs: recovery keeps the side that the transaction is on.
use e_cat.Prelude.{
  String, ◌≡◌, refl, subst, inl, inr, Bool, true, false, Option, none, some, List, [], ◌∷◌, reverse,
  arith,
}
use e_cat.Prelude.Result.{Result, ok, err}
use e_cat.TwoPhase.{
  XaError, state, database, lock, committed, rolled_back, LogRow, Event, create_table, read_logs,
  acquire_fence, release_fence, xa_commit, xa_rollback, xa_end, xa_recover, World, Env, request,
}
use e_cat.TwoPhase.Recovery.{
  RecoveryReport, counted, should_commit, decided, is_recoverable, is_cross_checked, all_registered,
  already_resolved, resolved_by, is_resolved, commit_unless, commit_each, recover_commit,
  rollback_unless, undo_each, recover_rollback, replay, recover_row, recover_current,
  recover_locked, fence, released, guarded, recover,
}
use e_cat.Prelude.Triple.{
  Pred, Keeps, Keeps-pure, Keeps-if, Keeps-if_known, Keeps-then, Keeps-bind, Keeps-or_else,
  Keeps-ignore,
}
use e_cat.TwoPhase.Trace.{
  is_commit, is_rollback, on_rollback_side, is_to_rollback, NotCommitted, Decided, NoCommit, Voted,
  OneSided,
}
use e_cat.TwoPhase.Atomicity.{request-NoCommit, request-Voted, set_log-NoCommit, set_log-Voted}

-- What the steps of a recovery keep, for a side `P` that the requests they share keep.
module _ (env : Env) (P : Pred World)
    (shared : (e : Event) (error : XaError)
      → is_commit e ≡ false
      → is_rollback e ≡ false
      → Keeps P (request env e error)) where
  already_resolved-Keeps : (name : String) → Keeps P (already_resolved env name)
  unfolding already_resolved resolved_by
  already_resolved-Keeps name =
      Keeps-or_else (shared (xa_recover name) state refl refl) (Keeps-pure false)
        λ _. record { at = λ w h. h }

  pub is_resolved-Keeps : (b : Bool) (name : String) → Keeps P (is_resolved env b name)
  unfolding is_resolved
  is_resolved-Keeps false name = Keeps-pure false
  is_resolved-Keeps true name = already_resolved-Keeps name

  fence-Keeps :
      (fenced : Bool) (e : Event)
      → is_commit e ≡ false
      → is_rollback e ≡ false
      → Keeps P (fence env fenced e)
  unfolding fence
  fence-Keeps false e neutral quiet = Keeps-pure tt
  fence-Keeps true e neutral quiet = shared e lock neutral quiet

  released-Keeps :
      (fenced : Bool) (r : Result XaError RecoveryReport × World)
      → P r.1
      → P (released env fenced r).1
  unfolding released
  released-Keeps fenced (ok report, w) h =
      (Keeps-then (fence-Keeps fenced release_fence refl refl) (Keeps-pure report)).at w h
  released-Keeps fenced (err e, w) h = (fence-Keeps fenced release_fence refl refl).at w h

  -- Recovery keeps the side, if what it does for a row found there keeps it.
  pub recover-Keeps :
      (fenced : Bool) (registered : List String)
      → ((w : World) → P w → P (recover_row env registered w.row w).1)
      → Keeps P (recover env fenced registered)
  unfolding recover guarded recover_locked recover_current
  recover-Keeps fenced registered step = Keeps-then (shared create_table database refl refl) (
      Keeps-then (fence-Keeps fenced acquire_fence refl refl) (record {
        at = λ w h. released-Keeps fenced _ (
            (Keeps-then {n = recover_current env registered} (shared read_logs database refl refl)
                (record { at = step })).at
              w h);
      }))

pub bool_clash : {b : Bool} → b ≡ true → b ≡ false → ⊥
bool_clash p q = ground arith

row_steps :
    {P : Pred World} (env : Env) (registered : List String) (row : LogRow)
    → (is_recoverable row.status ≡ true → Keeps P (replay env row))
    → Keeps P (recover_row env registered (some row))
unfolding recover_row
row_steps env registered row k =
    Keeps-if_known (is_recoverable row.status)
      (λ open_row.
        Keeps-if (all_registered registered row.participants) _ _
          (Keeps-or_else (k open_row) (Keeps-pure _) λ _. Keeps-pure _) (Keeps-pure _))
      λ _. Keeps-pure _

module _ (env : Env) where
  neutral-NoCommit :
      (e : Event) (error : XaError)
      → is_commit e ≡ false
      → is_rollback e ≡ false
      → Keeps NoCommit (request env e error)
  neutral-NoCommit e error neutral quiet = request-NoCommit env e error neutral

  rollback_unless-NoCommit :
      (b : Bool) (name : String) → Keeps NoCommit (rollback_unless env b name)
  unfolding rollback_unless
  rollback_unless-NoCommit true name = Keeps-pure tt
  rollback_unless-NoCommit false name =
      Keeps-then (Keeps-ignore (request-NoCommit env (xa_end name) state refl))
        (request-NoCommit env (xa_rollback name) state refl)

  undo_each-NoCommit : (b : Bool) (names : List String) → Keeps NoCommit (undo_each env b names)
  unfolding undo_each
  undo_each-NoCommit b [] = Keeps-pure tt
  undo_each-NoCommit b (name ∷ names) =
      Keeps-bind (is_resolved-Keeps env NoCommit neutral-NoCommit b name)
        λ resolved. Keeps-then (rollback_unless-NoCommit resolved name) (undo_each-NoCommit b names)

  recover_rollback-NoCommit :
      (names : List String) (b : Bool) → Keeps NoCommit (recover_rollback env names b)
  unfolding recover_rollback
  recover_rollback-NoCommit names b =
      Keeps-then (undo_each-NoCommit b (reverse names)) (set_log-NoCommit env rolled_back _ refl)

  not_to_commit : (row : LogRow) → on_rollback_side row.status ≡ true → should_commit row ≡ false
  unfolding should_commit decided
  not_to_commit row h = ground arith

  replay-NoCommit :
      (row : LogRow) → on_rollback_side row.status ≡ true → Keeps NoCommit (replay env row)
  unfolding replay
  replay-NoCommit row h =
      Keeps-if_known (should_commit row) (λ e. absurd (bool_clash e (not_to_commit row h)))
        λ _. recover_rollback-NoCommit row.participants (is_cross_checked row.status)

  row-NoCommit :
      (registered : List String) (row : Option LogRow) (w : World)
      → w.row ≡ row
      → NoCommit w
      → NoCommit (recover_row env registered row w).1
  unfolding recover_row
  row-NoCommit registered none w e h = (Keeps-pure {P = NoCommit} (counted false false)).at w h
  row-NoCommit registered (some row) w e h =
      let side = subst NotCommitted e h.0 in
      (row_steps env registered row λ _. replay-NoCommit row side).at w h

  pub recover-NoCommit :
      (fenced : Bool) (registered : List String) → Keeps NoCommit (recover env fenced registered)
  recover-NoCommit fenced registered =
      recover-Keeps env NoCommit neutral-NoCommit fenced registered
        λ w h. row-NoCommit registered w.row w refl h

module _ (env : Env) (names : List String) where
  neutral-Voted :
      (e : Event) (error : XaError)
      → is_commit e ≡ false
      → is_rollback e ≡ false
      → Keeps (Voted names) (request env e error)
  neutral-Voted e error neutral quiet = request-Voted env names e error quiet

  commit_unless-Voted : (b : Bool) (name : String) → Keeps (Voted names) (commit_unless env b name)
  unfolding commit_unless
  commit_unless-Voted true name = Keeps-pure tt
  commit_unless-Voted false name = request-Voted env names (xa_commit name) state refl

  commit_each-Voted : (b : Bool) (rest : List String) → Keeps (Voted names) (commit_each env b rest)
  unfolding commit_each
  commit_each-Voted b [] = Keeps-pure tt
  commit_each-Voted b (name ∷ rest) =
      Keeps-bind (is_resolved-Keeps env (Voted names) neutral-Voted b name)
        λ resolved. Keeps-then (commit_unless-Voted resolved name) (commit_each-Voted b rest)

  to_be_committed :
      (row : LogRow)
      → on_rollback_side row.status ≡ false
      → is_to_rollback row.decision ≡ false
      → is_recoverable row.status ≡ true
      → should_commit row ≡ true
  unfolding should_commit decided
  to_be_committed row side forward recoverable = ground arith

  recover_commit-Voted :
      (rest : List String) (b : Bool) → Keeps (Voted names) (recover_commit env rest b)
  unfolding recover_commit
  recover_commit-Voted rest b =
      Keeps-then (commit_each-Voted b rest) (set_log-Voted env names committed _ refl refl)

  replay-Voted :
      (row : LogRow)
      → Decided names (some row)
      → is_recoverable row.status ≡ true
      → Keeps (Voted names) (replay env row)
  unfolding replay
  replay-Voted row h recoverable =
      Keeps-if_known (should_commit row)
        (λ _. recover_commit-Voted row.participants (is_cross_checked row.status))
        λ e. absurd (bool_clash (to_be_committed row h.0 h.1 recoverable) e)

  row-Voted :
      (registered : List String) (row : Option LogRow) (w : World)
      → w.row ≡ row
      → Voted names w
      → Voted names (recover_row env registered row w).1
  unfolding recover_row
  row-Voted registered none w e h = (Keeps-pure {P = Voted names} (counted false false)).at w h
  row-Voted registered (some row) w e h =
      (row_steps env registered row (replay-Voted row (subst (Decided names) e h.0))).at w h

  pub recover-Voted :
      (fenced : Bool) (registered : List String)
      → Keeps (Voted names) (recover env fenced registered)
  recover-Voted fenced registered =
      recover-Keeps env (Voted names) neutral-Voted fenced registered
        λ w h. row-Voted registered w.row w refl h

  pub recover-OneSided :
      (fenced : Bool) (registered : List String)
      → Keeps (OneSided names) (recover env fenced registered)
  recover-OneSided fenced registered = record {
    at = λ w h. elim h [
      | inl side ↦ inl ((recover-NoCommit env fenced registered).at w side)
      | inr side ↦ inr ((recover-Voted fenced registered).at w side)
    ];
  }
