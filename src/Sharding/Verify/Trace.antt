-- ===== src/Sharding/Verify/Trace.antt =====
-- ecat-data-sharding/src/migrate/verify.rs: what the jobs that verify writes have of the first ones.
use e_cat.Prelude.{
  String, ◌≡◌, refl, subst, ◌⊎◌, inl, inr, Bool, true, ◌&&◌, Option, none, some, List, [], ◌∷◌,
  arith,
}
use text.Mathlib.TextEquality.{eq_iff}
use e_cat.Sharding.Plan.{ShardMove}
use e_cat.Sharding.Migrate.{JobState, Jobs, find_job, write_job, verified}
use e_cat.Sharding.Backfill.{Migrator}
use e_cat.Sharding.Verify.{Stats, joined, job_stats, settled, all_settled}

abbrev cons_job : Option JobState → Option (List JobState) → Option (List JobState)
cons_job (some job) (some js) = some (job ∷ js)
cons_job _ _ = none

both_found :
    (o : Option JobState) (p : Option (List JobState)) (job : JobState) (js : List JobState)
    → cons_job o p ≡ some (job ∷ js)
    → (o ≡ some job) × (p ≡ some js)
both_found none p job js e = absurd (ground arith)
both_found (some i) none job js e = absurd (ground arith)
both_found (some i) (some is) job js e = ground arith

not_none : (o : Option JobState) (p : Option (List JobState)) → cons_job o p ≡ some [] → ⊥
not_none none p e = ground arith
not_none (some i) none e = ground arith
not_none (some i) (some is) e = ground arith

both_true : (a b : Bool) → a && b ≡ true → (a ≡ true) × (b ≡ true)
both_true a b e = ground arith

find-write_any :
    (k id : String) (job j : JobState) (jobs : Jobs)
    → find_job k (write_job id job jobs) ≡ some j
    → ((id ≡ k) × (job ≡ j)) ⊎ (find_job k jobs ≡ some j)
find-write_any k id job j [] e = absurd (ground arith)
find-write_any k id job j ((a, old) ∷ rest) e =
    ground (arith, eq_iff a k, eq_iff a id, find-write_any k id job j rest)

module _ (m : Migrator) where
  -- The jobs of the moves, if all are there.
  abbrev pub jobs_of : List ShardMove → Jobs → Option (List JobState)
  jobs_of [] jobs = some []
  jobs_of (mv ∷ rest) jobs = cons_job (find_job (m.move_id mv) jobs) (jobs_of rest jobs)

  module _ (first : Jobs) where
    -- A job has counted what the first one has, and is settled only if that was.
    abbrev pub Trace : String → JobState → Type 0
    Trace id job =
        (i : JobState) × (find_job id first ≡ some i)
        × (job.rows ≡ i.rows)
        × (job.checksum ≡ i.checksum)
        × (settled job.phase ≡ true → settled i.phase ≡ true)

    abbrev pub Traced : Jobs → Type 0
    Traced jobs = (id : String) (job : JobState) → find_job id jobs ≡ some job → Trace id job

    abbrev pub Traces : List ShardMove → List JobState → Type 0
    Traces (mv ∷ moves) (job ∷ js) = Trace (m.move_id mv) job × Traces moves js
    Traces [] [] = Unit
    Traces _ _ = ⊥

    pub first-Traced : Traced first
    first-Traced id job e = (job, e, refl, refl, λ h. h)

    pub write-Traced :
        (id : String) (job : JobState) (jobs : Jobs)
        → Trace id job
        → Traced jobs
        → Traced (write_job id (record job { phase = verified }) jobs)
    write-Traced id job jobs (i, e, n, x, s) h k j f =
        elim (find-write_any k id (record job { phase = verified }) j jobs f) [
          | inl same ↦
              subst (λ l. Trace l j) same.0
                (subst (Trace id) same.1 (i, e, n, x, λ t. absurd (ground arith)))
          | inr kept ↦ h k j kept
        ]

    pub all-Traces :
        (moves : List ShardMove) (js : List JobState) (jobs : Jobs)
        → Traced jobs
        → jobs_of moves jobs ≡ some js
        → Traces moves js
    all-Traces [] [] jobs h e = tt
    all-Traces [] (job ∷ js) jobs h e = absurd (ground arith)
    all-Traces (mv ∷ moves) [] jobs h e =
        absurd (not_none (find_job (m.move_id mv) jobs) (jobs_of moves jobs) e)
    all-Traces (mv ∷ moves) (job ∷ js) jobs h e =
        let (one, rest) = both_found (find_job (m.move_id mv) jobs) (jobs_of moves jobs) job js e in
        (h (m.move_id mv) job one, all-Traces moves js jobs h rest)

    -- The first jobs of the moves, which have the same numbers.
    pub first_jobs :
        (moves : List ShardMove) (js : List JobState)
        → Traces moves js
        → (is : List JobState) × (jobs_of moves first ≡ some is)
          × ((st : Stats) → job_stats js st ≡ job_stats is st)
          × (all_settled js ≡ true → all_settled is ≡ true)
    unfolding job_stats all_settled
    first_jobs [] [] h = ([], refl, λ st. refl, λ e. e)
    first_jobs [] (job ∷ js) h = elim h [ ]
    first_jobs (mv ∷ moves) [] h = elim h [ ]
    first_jobs (mv ∷ moves) (job ∷ js) ((i, e, n, x, s), rest) =
        let (is, f, same, all) = first_jobs moves js rest in
        (
          i ∷ is,
          rw (e, f) refl,
          λ st. rw (n, x) (same (joined st (i.rows, i.checksum))),
          λ t.
              let (a, b) = both_true (settled job.phase) (all_settled js) t in rw (s a, all b) refl,
        )
