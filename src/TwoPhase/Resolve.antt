-- ===== src/TwoPhase/Resolve.antt =====
-- ecat-data-2pc/src/recovery.rs: recovery comes to an end where every request is answered.
use e_cat.Prelude.{
  String, ◌≡◌, refl, sym, subst, ap, ◌∙◌, ◌⊎◌, inl, inr, Bool, true, false, Option, none, some,
  List, [], ◌∷◌, if◌then◌else◌, reverse, arith,
}
use e_cat.Prelude.Result.{Result, ok, err}
use e_cat.Prelude.Exec.{pure, ignore}
use e_cat.TwoPhase.{
  XaError, state, database, lock, TxStatus, started, prepared, committing, committed, rolling_back,
  rolled_back, Decision, to_commit, to_rollback, LogRow, Event, create_table, read_logs,
  acquire_fence, release_fence, xa_commit, xa_end, xa_rollback, xa_recover, update_row, Reply, done,
  World, Env, M, request, set_log,
}
use e_cat.TwoPhase.Recovery.{
  RecoveryReport, counted, decided, should_commit, is_recoverable, is_cross_checked, all_registered,
  already_resolved, resolved_by, is_resolved, commit_unless, commit_each, recover_commit,
  rollback_unless, undo_each, recover_rollback, replay, recover_row, recover_current,
  recover_locked, fence, released, guarded, recover,
}
use e_cat.Prelude.Triple.{Pred, Post, Triple, Triple-if_true, bind, catch}

abbrev Never : Pred World
Never w = ⊥

abbrev RowIs : LogRow → Pred World
RowIs row w = w.row ≡ some row

-- The row that a finished recovery leaves.
abbrev resolved_row : LogRow → LogRow
resolved_row row =
    if should_commit row
    then record row { status = committed; decision = some to_commit }
    else record row { status = rolled_back; decision = some to_rollback }

-- What recovery does of a row, by the row's status and decision: a row that is prepared is rolled back
-- only if its decision is to roll back.
pub data Resolves : TxStatus → Option Decision → TxStatus → Decision → Type 0 where
  logged_commit : {d : Option Decision} → Resolves committing d committed to_commit
  prepared_undecided : Resolves prepared none committed to_commit
  prepared_to_commit : Resolves prepared (some to_commit) committed to_commit
  prepared_to_rollback : Resolves prepared (some to_rollback) rolled_back to_rollback
  unprepared : {d : Option Decision} → Resolves started d rolled_back to_rollback
  logged_rollback : {d : Option Decision} → Resolves rolling_back d rolled_back to_rollback

decided-Resolves :
    (s : TxStatus) (d : Option Decision)
    → is_recoverable s ≡ true
    → ((decided s d ≡ true) × Resolves s d committed to_commit)
      ⊎ ((decided s d ≡ false) × Resolves s d rolled_back to_rollback)
unfolding decided
decided-Resolves committing d h = inl (refl, logged_commit)
decided-Resolves prepared none h = inl (refl, prepared_undecided)
decided-Resolves prepared (some to_commit) h = inl (refl, prepared_to_commit)
decided-Resolves prepared (some to_rollback) h = inr (refl, prepared_to_rollback)
decided-Resolves started d h = inr (refl, unprepared)
decided-Resolves rolling_back d h = inr (refl, logged_rollback)
decided-Resolves committed d h = absurd (ground arith)
decided-Resolves rolled_back d h = absurd (ground arith)

-- The row with the status and the decision that it comes to.
abbrev pub Final : LogRow → Option LogRow → Type 0
Final row left =
    (s : TxStatus) × (d : Decision) × Resolves row.status row.decision s d
    × (left ≡ some (record row { status = s; decision = some d }))

resolved_row-Final :
    (row : LogRow) → is_recoverable row.status ≡ true → Final row (some (resolved_row row))
unfolding should_commit
resolved_row-Final row h = elim (decided-Resolves row.status row.decision h) [
  | inl (e, r) ↦ (committed, to_commit, r, rw e refl)
  | inr (e, r) ↦ (rolled_back, to_rollback, r, rw e refl)
]

dropped : (P : Pred World) (r : Result XaError (Unit {0}) × World) → Post (λ _. P) Never r → P r.1
dropped P (ok a, w) h = h
dropped P (err e, w) h = absurd h

module _ (env : Env) (answers : (t : List (Event × Reply)) (e : Event) → env.reply t e ≡ done) where
  answered :
      (row : LogRow) (e : Event) (error : XaError)
      → Triple (RowIs row) (request env e error) (λ _. RowIs row) Never
  unfolding request
  answered row e error = record { at = λ w h. ground (arith, answers w.trace e) }

  set_to :
      (row : LogRow) (s : TxStatus) (d : Option Decision)
      → Triple
          (RowIs row)
          (set_log env s d)
          (λ _. RowIs (record row { status = s; decision = d }))
          Never
  unfolding set_log
  set_to row s d = record { at = λ w h. ground (arith, answers w.trace (update_row s d)) }

  module _ (row : LogRow) where
    abbrev Stays : {A : Type 0} → M A → Type 0
    Stays m = Triple (RowIs row) m (λ _. RowIs row) Never

    still : {A : Type 0} (a : A) → Stays (pure a)
    unfolding pure
    still a = record { at = λ w h. h }

    unanswered : {A : Type 0} {m : M A} → Triple Never m (λ _. RowIs row) Never
    unanswered = record { at = λ w h. absurd h }

    ignored : {m : M (Unit {0})} → Stays m → Stays (ignore m)
    unfolding ignore
    ignored {m} t = record { at = λ w h. dropped (RowIs row) (m w) (t.at w h) }

    is_resolved-Stays : (b : Bool) (name : String) → Stays (is_resolved env b name)
    unfolding is_resolved already_resolved resolved_by
    is_resolved-Stays false name = still false
    is_resolved-Stays true name =
        catch (answered row (xa_recover name) state) unanswered λ _. record { at = λ w h. h }

    commit_unless-Stays : (b : Bool) (name : String) → Stays (commit_unless env b name)
    unfolding commit_unless
    commit_unless-Stays true name = still tt
    commit_unless-Stays false name = answered row (xa_commit name) state

    rollback_unless-Stays : (b : Bool) (name : String) → Stays (rollback_unless env b name)
    unfolding rollback_unless
    rollback_unless-Stays true name = still tt
    rollback_unless-Stays false name =
        bind (ignored (answered row (xa_end name) state)) λ _. answered row (xa_rollback name) state

    commit_each-Stays : (b : Bool) (names : List String) → Stays (commit_each env b names)
    unfolding commit_each
    commit_each-Stays b [] = still tt
    commit_each-Stays b (name ∷ names) =
        bind (is_resolved-Stays b name)
          λ resolved. bind (commit_unless-Stays resolved name) λ _. commit_each-Stays b names

    undo_each-Stays : (b : Bool) (names : List String) → Stays (undo_each env b names)
    unfolding undo_each
    undo_each-Stays b [] = still tt
    undo_each-Stays b (name ∷ names) =
        bind (is_resolved-Stays b name)
          λ resolved. bind (rollback_unless-Stays resolved name) λ _. undo_each-Stays b names

    replay_resolves : Triple (RowIs row) (replay env row) (λ _. RowIs (resolved_row row)) Never
    unfolding replay recover_commit recover_rollback
    replay_resolves =
        elim (should_commit row)
          as (λ b.
            Triple (RowIs row)
              (if b
                then recover_commit env row.participants (is_cross_checked row.status)
                else recover_rollback env row.participants (is_cross_checked row.status))
              (λ _. RowIs (
                if b
                then record row { status = committed; decision = some to_commit }
                else record row { status = rolled_back; decision = some to_rollback }))
              Never) [
                | true ↦
                    bind (commit_each-Stays _ row.participants)
                      λ _. set_to row committed (some to_commit)
                | false ↦
                    bind (undo_each-Stays _ (reverse row.participants))
                      λ _. set_to row rolled_back (some to_rollback)
              ]

    abbrev Resolved : RecoveryReport → Pred World
    Resolved report w = (report ≡ counted true false) × RowIs (resolved_row row) w

    row_resolves :
        (registered : List String)
        → is_recoverable row.status ≡ true
        → all_registered registered row.participants ≡ true
        → Triple (RowIs row) (recover_row env registered (some row)) Resolved Never
    unfolding recover_row pure
    row_resolves registered recoverable known =
        Triple-if_true (is_recoverable row.status) _ recoverable (
          Triple-if_true (all_registered registered row.participants) _ known (
            catch replay_resolves (record { at = λ w h. absurd h })
              λ _. record { at = λ w h. (refl, h) }))

    current_resolves :
        (registered : List String)
        → is_recoverable row.status ≡ true
        → all_registered registered row.participants ≡ true
        → Triple (RowIs row) (recover_current env registered) Resolved Never
    unfolding recover_current
    current_resolves registered recoverable known = record {
      at = λ w h.
          subst (λ found. Post Resolved Never (recover_row env registered found w)) (sym h)
            ((row_resolves registered recoverable known).at w h);
    }

    fence-Stays : (fenced : Bool) (e : Event) → Stays (fence env fenced e)
    unfolding fence
    fence-Stays false e = still tt
    fence-Stays true e = answered row e lock

  released_resolves :
      (row : LogRow) (fenced : Bool) (r : Result XaError RecoveryReport × World)
      → Post (Resolved row) Never r
      → Post (Resolved row) Never (released env fenced r)
  unfolding released pure
  released_resolves row fenced (ok report, w) h =
      (bind (fence-Stays (resolved_row row) fenced release_fence)
          λ _. record { at = λ w' h'. (h.0, h') }).at
        w h.1
  released_resolves row fenced (err e, w) h = absurd h

  recover-Triple :
      (row : LogRow) (fenced : Bool) (registered : List String)
      → is_recoverable row.status ≡ true
      → all_registered registered row.participants ≡ true
      → Triple (RowIs row) (recover env fenced registered) (Resolved row) Never
  unfolding recover guarded recover_locked
  recover-Triple row fenced registered recoverable known =
      bind (answered row create_table database) λ _.
        bind (fence-Stays row fenced acquire_fence) λ _. record {
          at = λ w h. released_resolves row fenced _ (
              (bind (answered row read_logs database)
                  λ _. current_resolves row registered recoverable known).at
                w h);
        }

  returned :
      (Q : RecoveryReport → Pred World) (r : Result XaError RecoveryReport × World)
      → Post Q Never r
      → (report : RecoveryReport) × (r.0 ≡ ok report) × Q report r.1
  returned Q (ok report, w) h = (report, refl, h)
  returned Q (err e, w) h = absurd h

  -- Where every request is answered and the participants of an unfinished row are registered,
  -- `recover` returns, counts one recovered transaction, and leaves the row committed with the decision
  -- to commit if its status was committing, or prepared without a decision to roll back; and rolled back
  -- with the decision to roll back if it was started, rolling back, or prepared with that decision.
  pub recover-Resolved :
      (row : LogRow) (fenced : Bool) (registered : List String) (w : World)
      → w.row ≡ some row
      → is_recoverable row.status ≡ true
      → all_registered registered row.participants ≡ true
      → ((recover env fenced registered w).0 ≡ ok (counted true false))
        × Final row (recover env fenced registered w).1.row
  recover-Resolved row fenced registered w e recoverable known =
      let (report, came, (counts, left)) =
        returned (Resolved row) (recover env fenced registered w)
          ((recover-Triple row fenced registered recoverable known).at w e) in
      (came ∙ ap ok counts, subst (Final row) (sym left) (resolved_row-Final row recoverable))
