-- ===== src/TwoPhase/Life.antt =====
-- ecat-data-2pc: the whole life of a transaction, from `begin` through any number of recoveries.
use e_cat.Prelude.{String, ◌≡◌, sym, subst, inl, inr, Bool, true, List, [], ◌∷◌, if◌then◌else◌}
use e_cat.Prelude.Result.{ok}
use e_cat.Prelude.Exec.{after, ◌>>=◌, ◌>>◌, pure, ignore}
use e_cat.TwoPhase.{xa_prepare, World, Env, M, commit, rollback}
use e_cat.TwoPhase.Begin.{begin, execute}
use e_cat.TwoPhase.Recovery.{recover}
use e_cat.Prelude.Triple.{
  Triple, Keeps, Keeps-pure, Keeps-then, Keeps-ignore, Keeps-Triple, Triple-if, bind, conseq,
  merged,
}
use e_cat.TwoPhase.Trace.{has, is_commit, is_rollback, DidAll, Live, OneSided}
use e_cat.TwoPhase.Vote.{commit-OneSided, rollback-NoCommit, Live-NoCommit}
use e_cat.TwoPhase.Start.{Fresh, begin-Live, execute-Live}
use e_cat.TwoPhase.Replay.{recover-OneSided, bool_clash}

-- What the application does with a transaction. A recovery has its own fence and registrations.
pub record Script : Type 0 where
  pub registered : List String
  pub names : List String
  pub statements : List String
  pub commits : Bool
  pub recoveries : List (Bool × List String)

module _ (env : Env) where
  unfoldable pub execute_each : List String → List String → M (Unit {0})
  execute_each tx [] = pure tt
  execute_each tx (name ∷ rest) = do ignore (execute env tx name); execute_each tx rest

  unfoldable pub recover_each : List (Bool × List String) → M (Unit {0})
  recover_each [] w = (ok tt, w)
  recover_each ((fenced, registered) ∷ rest) w =
      recover_each rest (recover env fenced registered w).1

  unfoldable pub use_tx : Script → List String → M (Unit {0})
  use_tx s tx = do
    execute_each tx s.statements
    if s.commits then commit env tx else rollback env tx

  unfoldable pub transact : Script → M (Unit {0})
  transact s = do tx ← begin env s.registered s.names; use_tx s tx

  unfoldable pub life : Script → M (Unit {0})
  life s = do ignore (transact s); recover_each s.recoveries

  execute_each-Live : (names rest : List String) → Keeps (Live names) (execute_each names rest)
  unfolding execute_each
  execute_each-Live names [] = Keeps-pure tt
  execute_each-Live names (name ∷ rest) =
      Keeps-then (Keeps-ignore (execute-Live env names name)) (execute_each-Live names rest)

  recover_each-OneSided :
      (names : List String) (rs : List (Bool × List String))
      → Keeps (OneSided names) (recover_each rs)
  unfolding recover_each
  recover_each-OneSided names [] = record { at = λ w h. h }
  recover_each-OneSided names ((fenced, registered) ∷ rest) = record {
    at = λ w h.
        (recover_each-OneSided names rest).at (recover env fenced registered w).1
          ((recover-OneSided env names fenced registered).at w h);
  }

  end-OneSided :
      (names : List String) (commits : Bool)
      → Triple
          (Live names)
          (if commits then commit env names else rollback env names)
          (λ _. OneSided names)
          (OneSided names)
  end-OneSided names commits =
      Triple-if commits (commit-OneSided env names)
        (conseq (λ w h. h) (λ _ w h. inl h) (λ w h. inl h) (rollback-NoCommit env names))

  use_tx-OneSided :
      (s : Script)
      → Triple (Live s.names) (use_tx s s.names) (λ _. OneSided s.names) (OneSided s.names)
  unfolding use_tx
  use_tx-OneSided s =
      bind
        (conseq (λ w h. h) (λ _ w h. h) (λ w h. inl (Live-NoCommit s.names w h))
          (Keeps-Triple (execute_each-Live s.names s.statements)))
        λ _. end-OneSided s.names s.commits

  transact-OneSided :
      (s : Script) → Triple Fresh (transact s) (λ _. OneSided s.names) (OneSided s.names)
  unfolding transact
  transact-OneSided s =
      bind (conseq (λ w h. h) (λ tx w h. h) (λ w h. inl h) (begin-Live env s.registered s.names))
        λ tx. record {
          at = λ w h.
              (subst
                  (λ (names : List String).
                    Triple (Live s.names) (use_tx s names) (λ _. OneSided s.names)
                      (OneSided s.names))
                  (sym h.0) (use_tx-OneSided s)).at
                w h.1;
        }

  life-OneSided : (s : Script) (w : World) → Fresh w → OneSided s.names (life s w).1
  unfolding life ignore ◌>>=◌ after
  life-OneSided s w h =
      (recover_each-OneSided s.names s.recoveries).at (transact s w).1
        (merged (transact-OneSided s) w h)

  -- However the requests of a transaction's life end (those of its beginning, of its statements,
  -- of `commit` or `rollback` and of any number of recoveries), it is never the case that one
  -- participant was asked to commit and one to roll back.
  pub atomic :
      (s : Script) (w : World)
      → Fresh w
      → ¬ ((has is_commit (life s w).1.trace ≡ true) × (has is_rollback (life s w).1.trace ≡ true))
  atomic s w h (c, r) = elim (life-OneSided s w h) [
    | inl side ↦ bool_clash c side.1
    | inr side ↦ bool_clash r side.1
  ]

  -- However the requests of a transaction's life end, from its beginning through any number of
  -- recoveries: if a participant was asked to commit, by `commit` or by a recovery, then
  -- every participant of the transaction was asked to prepare and did.
  pub commit_needs_votes :
      (s : Script) (w : World)
      → Fresh w
      → has is_commit (life s w).1.trace ≡ true
      → DidAll xa_prepare s.names (life s w).1.trace
  commit_needs_votes s w h c = elim (life-OneSided s w h) [
    | inl side ↦ absurd (bool_clash c side.1)
    | inr side ↦ side.2
  ]
