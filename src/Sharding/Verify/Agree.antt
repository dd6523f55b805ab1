-- ===== src/Sharding/Verify/Agree.antt =====
-- ecat-data-sharding/src/migrate/verify.rs: what a group of moves that passes has in common.
use e_cat.Prelude.{
  ℕ, ◌^◌, ◌<◌, ltb, String, ◌≡◌, refl, sym, ap, subst, ◌∙◌, ◌⊎◌, inl, inr, Bool, true, false,
  Option, none, some, List, [], ◌∷◌, length, All, Bool-cases, if◌then◌else◌, arith,
}
use e_cat.Prelude.Result.{Result, ok, err, ◌>>=◌ as and_then}
use e_cat.Prelude.Exec.{◌>>=◌, pure}
use e_cat.Sharding.Error.{ShardError, config, database}
use e_cat.Sharding.Plan.{ShardMove}
use e_cat.Sharding.Migrate.{JobState, Jobs, find_job, verified, write_job}
use e_cat.Sharding.Backfill.{Table, Migrator, selected, routes_to, load_job, save_job}
use e_cat.Sharding.Backfill.Rows.{IsSorted}
use e_cat.Sharding.Backfill.Rule.{
  Pred, Meets, chain, pure-Meets, raise-Meets, lifted-Meets, reads-Meets, writes-Meets, weaken,
  adapt,
}
use e_cat.Sharding.Backfill.Loop.{known}
use e_cat.Sharding.Verify.{
  Stats, joined, job_stats, all_settled, same_stats, compared, tally_rows, row_in_any_scope,
  or_no_job, load_jobs, scan_move_stats, scan_target_stats, scan_sources, save_verified,
  check_group, verify_group,
}
use e_cat.Sharding.Verify.Trace.{jobs_of, Traced, Traces, write-Traced, all-Traces, first_jobs}
use e_cat.Sharding.Verify.Scan.{Same, scan_stats-Meets}

compared_same : (a b : Stats) (u : Unit {0}) → compared a b ≡ ok u → a ≡ b
compared_same a b u e = by_test (same_stats a b) refl e
  where
    by_test : (t : Bool) → same_stats a b ≡ t → (if t then ok tt else err config) ≡ ok u → a ≡ b
    by_test true s e = let n : a.0 ≡ b.0 = ground arith in let x : a.1 ≡ b.1 = ground arith in cc
    by_test false s e = absurd (ground arith)

module _ (m : Migrator) where
  -- What the moves take from their whole sources, with no chunks.
  unfoldable pub source_stats :
      (String → String → Table) → List ShardMove → Stats → Result ShardError Stats
  unfolding tally_rows routes_to
  source_stats rows [] st = ok st
  source_stats rows (mv ∷ rest) st =
      and_then
        (tally_rows (routes_to m mv) (selected m mv.key_range (rows mv.from mv.table)) (0, 0))
        (λ one. source_stats rows rest (joined st one))

  unfoldable pub target_stats :
      (String → String → Table) → String → String → List ShardMove → Result ShardError Stats
  unfolding tally_rows row_in_any_scope
  target_stats rows shard table moves =
      tally_rows (row_in_any_scope m moves) (rows shard table) (0, 0)

  -- The tables have their rows in order of the primary key, and the fuel is more than they have.
  abbrev pub Scannable : ℕ → Table → Type 0
  Scannable fuel t = IsSorted t × (length t < fuel)

  abbrev pub SourcesOk : ℕ → (String → String → Table) → List ShardMove → Type 0
  SourcesOk fuel rows moves =
      All (λ mv. Scannable fuel (selected m mv.key_range (rows mv.from mv.table))) moves

  -- The sources, the jobs and the target have the same number and XOR.
  abbrev pub Agreed :
      (String → String → Table) → String → String → List ShardMove → List JobState → Type 0
  Agreed rows table shard moves js =
      (source_stats rows moves (0, 0) ≡ ok (job_stats js (0, 0)))
      × (target_stats rows shard table moves ≡ ok (job_stats js (0, 0)))

  module _ (chunky : 0 < m.chunk_size) (rows₀ : String → String → Table) (jobs₀ : Jobs) (fuel : ℕ)
      (first : Jobs) (traced : Traced m first jobs₀) where
    abbrev Same₀ : Pred
    Same₀ = Same m chunky rows₀ jobs₀

    load_jobs-Meets :
        (moves : List ShardMove)
        → Meets Same₀
            (load_jobs m moves)
            (λ js rows jobs. Same₀ rows jobs × (jobs_of m moves jobs₀ ≡ some js))
            Same₀
    unfolding load_jobs load_job
    load_jobs-Meets [] = pure-Meets [] (λ rows jobs h. (h, refl))
    load_jobs-Meets (mv ∷ rest) =
        chain
          (reads-Meets (λ w. find_job (m.move_id mv) w.jobs)
            (λ w h. ((h, ap (find_job (m.move_id mv)) (sym h.1)), h)))
          (λ o. known (λ e. by_found o (load_jobs-Meets rest) e))
      where
        by_found :
            (o : Option JobState)
            → Meets Same₀
                (load_jobs m rest)
                (λ js rows jobs. Same₀ rows jobs × (jobs_of m rest jobs₀ ≡ some js))
                Same₀
            → find_job (m.move_id mv) jobs₀ ≡ o
            → Meets Same₀
                (or_no_job m o >>= λ job. load_jobs m rest >>= λ js. pure (job ∷ js))
                (λ js rows jobs. Same₀ rows jobs × (jobs_of m (mv ∷ rest) jobs₀ ≡ some js))
                Same₀
        by_found none later e =
            chain {Q = λ _ _ _. ⊥} {f = λ job. load_jobs m rest >>= λ js. pure (job ∷ js)}
              (raise-Meets config (λ rows jobs h. h)) (λ job. record { at = λ w h. absurd h })
        by_found (some job) later e =
            chain {Q = λ j rows jobs. Same₀ rows jobs × (j ≡ job)}
              (pure-Meets job (λ rows jobs h. (h, refl)))
              (λ j. known (λ same. chain later (λ js.
                known (λ f. pure-Meets (j ∷ js) (λ rows jobs h. (h, rw (e, f, same) refl))))))

    scan_sources-Meets :
        (moves : List ShardMove) (st : Stats)
        → SourcesOk fuel rows₀ moves
        → Meets Same₀
            (scan_sources m fuel moves st)
            (λ total rows jobs. Same₀ rows jobs × (source_stats rows₀ moves st ≡ ok total))
            Same₀
    unfolding scan_sources scan_move_stats source_stats
    scan_sources-Meets [] st good = pure-Meets st (λ rows jobs h. (h, refl))
    scan_sources-Meets (mv ∷ rest) st good =
        chain
          (scan_stats-Meets m chunky rows₀ jobs₀ (routes_to m mv) mv.from mv.table mv.key_range fuel
            good.0.0 good.0.1)
          (λ one. known (λ e. rw e (scan_sources-Meets rest (joined st one) good.1)))

    abbrev pub Unmoved : Type 0 → Pred
    Unmoved F rows jobs = (rows ≡ rows₀) × Traced m first jobs × F

    -- Once the group is known to agree, the rest is writing to the jobs.
    save_verified-Meets :
        (F : Type 0) (moves : List ShardMove) (js : List JobState)
        → Traces m first moves js
        → Meets (Unmoved F) (save_verified m moves js) (λ _. Unmoved F) (λ _ _. Unit)
    unfolding save_verified save_job
    save_verified-Meets F [] js t = pure-Meets tt (λ rows jobs h. h)
    save_verified-Meets F (mv ∷ moves) [] t = pure-Meets tt (λ rows jobs h. h)
    save_verified-Meets F (mv ∷ moves) (job ∷ js) t =
        chain saved (λ _. save_verified-Meets F moves js t.1)
      where
        saved :
            Meets
              (Unmoved F)
              (save_job m mv (record job { phase = verified }))
              (λ _. Unmoved F)
              (λ _ _. Unit)
        saved = elim (Bool-cases (ltb job.rows (2 ^ 63))) [
          | inl e ↦ rw e (
              writes-Meets
                (λ w. record w {
                  jobs = write_job (m.move_id mv) (record job { phase = verified }) w.jobs;
                })
                (λ w h.
                  ((h.0, write-Traced m first (m.move_id mv) job w.jobs t.0 h.1, h.2), tt, tt)))
          | inr e ↦ rw e (raise-Meets database (λ rows jobs h. tt))
        ]

    check_group-Meets :
        (table shard : String) (moves : List ShardMove) (js : List JobState)
        → SourcesOk fuel rows₀ moves
        → Scannable fuel (rows₀ shard table)
        → Traces m first moves js
        → Meets Same₀
            (check_group m fuel table shard moves js)
            (λ _. Unmoved (Agreed rows₀ table shard moves js))
            (λ _ _. Unit)
    unfolding check_group scan_target_stats target_stats
    check_group-Meets table shard moves js sources there t =
        chain (weaken (λ rows jobs h. tt) (scan_sources-Meets moves (0, 0) sources)) (λ source.
          known (λ e.
            chain
              (weaken (λ rows jobs h. tt)
                (scan_stats-Meets m chunky rows₀ jobs₀ (row_in_any_scope m moves) shard table none
                  fuel there.0 there.1))
              (λ total. known (λ f.
                chain {Q = λ _. Unmoved (source ≡ job_stats js (0, 0))}
                  (lifted-Meets (compared source (job_stats js (0, 0)))
                    (λ u rows jobs g h. (
                      h.0,
                      subst (Traced m first) (sym h.1) traced,
                      compared_same source (job_stats js (0, 0)) u g,
                    ))
                    (λ rows jobs h. tt))
                  (λ _.
                    chain {Q = λ _. Unmoved (Agreed rows₀ table shard moves js)}
                      (lifted-Meets (compared source total)
                        (λ u rows jobs g h. (
                          h.0,
                          h.1,
                          (e ∙ ap ok h.2, f ∙ ap ok (sym (compared_same source total u g) ∙ h.2)),
                        ))
                        (λ rows jobs h. tt))
                      (λ _. save_verified-Meets (Agreed rows₀ table shard moves js) moves js t))))))

    -- What a group that passes is, by the first jobs.
    abbrev pub Passed : String → String → List ShardMove → Type 0
    Passed table shard moves =
        (is : List JobState) × (jobs_of m moves first ≡ some is)
        × ((all_settled is ≡ true) ⊎ Agreed rows₀ table shard moves is)

    pub group-Meets :
        (table shard : String) (moves : List ShardMove)
        → SourcesOk fuel rows₀ moves
        → Scannable fuel (rows₀ shard table)
        → Meets Same₀
            (verify_group m fuel table shard moves)
            (λ _. Unmoved (Passed table shard moves))
            (λ _ _. Unit)
    unfolding verify_group
    group-Meets table shard moves sources there =
        chain (lifted-Meets _ (λ u rows jobs e h. h) (λ rows jobs h. tt)) (λ _.
          chain (weaken (λ rows jobs h. tt) (load_jobs-Meets moves))
            (λ js. known (λ found. by_settled js found (all_settled js) refl)))
      where
        traces : (js : List JobState) → jobs_of m moves jobs₀ ≡ some js → Traces m first moves js
        traces js found = all-Traces m first moves js jobs₀ traced found

        by_settled :
            (js : List JobState)
            → jobs_of m moves jobs₀ ≡ some js
            → (b : Bool) → all_settled js ≡ b
            → Meets Same₀
                (if b then pure tt else check_group m fuel table shard moves js)
                (λ _. Unmoved (Passed table shard moves))
                (λ _ _. Unit)
        by_settled js found true e =
            let (is, there, same, all) = first_jobs m first moves js (traces js found) in
            pure-Meets tt (λ rows jobs h.
              (h.0, subst (Traced m first) (sym h.1) traced, (is, there, inl (all e))))
        by_settled js found false e =
            let (is, there', same, all) = first_jobs m first moves js (traces js found) in
            adapt
              (λ u rows jobs h. (
                h.0,
                h.1,
                (is, there', inr (h.2.0 ∙ ap ok (same (0, 0)), h.2.1 ∙ ap ok (same (0, 0)))),
              ))
              (check_group-Meets table shard moves js sources there (traces js found))
