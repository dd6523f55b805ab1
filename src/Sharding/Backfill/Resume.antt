-- ===== src/Sharding/Backfill/Resume.antt =====
-- ecat-data-sharding/src/migrate/backfill.rs: a backfill ends, and one that is resumed completes it.
use e_cat.Prelude.{
  ℕ, zero, suc, ◌<◌, ◌≡◌, refl, sym, ap, subst, ◌∙◌, inl, inr, false, Option, none, some, List,
  ◌++◌, length, length-append, take, drop, take-append-drop, In, In-append_left, In-append_right,
  Bool-cases, if◌then◌else◌, arith,
}
use mathlib.Core.List.{append_assoc, append-nil}
use text.Mathlib.Text.{◌==◌ as str_eq}
use e_cat.Prelude.Result.{ok}
use e_cat.Prelude.Exec.{◌>>=◌, pure}
use e_cat.Sharding.Plan.{ShardMove}
use e_cat.Sharding.Migrate.{backfilling, JobState, find_job}
use e_cat.Sharding.Backfill.{
  Row, Table, MigrationReport, last_pk, Migrator, lifted, is_settled, is_rolled_back,
}
use e_cat.Sharding.Backfill.Copy.{
  at_cursor, count_chunk, by_last, copy_chunks, parse_cursor, restart, known_table, resume,
}
use e_cat.Sharding.Backfill.Rows.{IsSorted, last_pk-append, last_pk-none}
use e_cat.Sharding.Backfill.Rule.{Meets, chain, pure-Meets, lifted-Meets}
use e_cat.Sharding.Backfill.Copied.{target, Copied, cursor_text, Counts, JobIs, chosen, Inv}
use e_cat.Sharding.Backfill.Loop.{
  Held, Inside, Finished, known, copy_rows-Meets, save-Meets, fence-Meets, scan-Meets,
}
use e_cat.Sharding.Backfill.Rows.{In-take, none_left, some_taken}

module _ (m : Migrator) (mv : ShardMove) (source : Table) (sorted : IsSorted (chosen m mv source))
    (apart : str_eq mv.from mv.to ≡ false) (chunky : 0 < m.chunk_size)
    (reread : (pk : ℕ) → m.decode (m.encode pk) ≡ some pk) where
  abbrev Chunks : ℕ → Type 0
  Chunks fuel =
      (done todo : List Row) (job : JobState) (cursor : Option ℕ) (report : MigrationReport)
      → done ++ todo ≡ chosen m mv source
      → JobIs m mv done job
      → last_pk done ≡ cursor
      → length todo < fuel
      → Meets (Held m mv source sorted apart done job) (copy_chunks m fuel mv job cursor report)
          (λ _. Finished m mv source sorted apart) (Inv m mv source)

  by_last-Meets :
      (fuel : ℕ)
      → Chunks fuel
      → (done todo batch : List Row) (job : JobState) (report : MigrationReport) (o : Option ℕ)
      → done ++ todo ≡ chosen m mv source
      → JobIs m mv done job
      → length todo < suc fuel
      → batch ≡ take m.chunk_size todo
      → last_pk batch ≡ o
      → Meets
          (Held m mv source sorted apart done job)
          (by_last m (λ job' pk r. copy_chunks m fuel mv job' (some pk) r) mv batch job report o)
          (λ _. Finished m mv source sorted apart)
          (Inv m mv source)
  by_last-Meets fuel again done todo batch job report none all is less e at =
      pure-Meets report (λ rows jobs h. (
        h.0,
        subst (λ l. Copied m mv l (target m mv rows)) whole h.1,
        (job, h.2, subst (λ l. Counts m mv l job) whole is.1),
      ))
    where
      whole : done ≡ chosen m mv source
      whole =
          let empty = none_left m.chunk_size todo chunky (sym e ∙ last_pk-none batch at) in
          sym (append-nil done) ∙ ap (λ l. done ++ l) (sym empty) ∙ all
  by_last-Meets fuel again done todo batch job report (some pk) all is less e at =
      chain (copy_rows-Meets m mv source sorted apart batch done job (job, 0) in_batch inside is.1)
        (λ st. known (λ c.
          chain
            (save-Meets m mv source sorted apart (done ++ batch) (drop m.chunk_size todo) job
              (at_cursor m pk st.0) whole (cursor_is, c, refl))
            (λ _.
              again (done ++ batch) (drop m.chunk_size todo) (at_cursor m pk st.0) (some pk)
                (count_chunk m st.1 report) whole (cursor_is, c, refl) last_is
                (some_taken m.chunk_size todo fuel pk chunky (ap last_pk (sym e) ∙ at) less))))
    where
      last_is : last_pk (done ++ batch) ≡ some pk
      last_is = last_pk-append done batch pk at

      cursor_is : some (m.encode pk) ≡ cursor_text m mv (last_pk (done ++ batch))
      cursor_is = ap (cursor_text m mv) (sym last_is)

      whole : (done ++ batch) ++ drop m.chunk_size todo ≡ chosen m mv source
      whole =
          append_assoc done batch (drop m.chunk_size todo)
          ∙ ap (λ l. done ++ (l ++ drop m.chunk_size todo)) e
          ∙ ap (λ l. done ++ l) (take-append-drop m.chunk_size todo)
          ∙ all

      inside : Inside m mv source sorted apart done
      inside r o = subst (In r) all (In-append_left r done todo o)

      in_batch : (r : Row) → In r batch → In r (chosen m mv source)
      in_batch r o =
          subst (In r) all
            (In-append_right r done todo (In-take r m.chunk_size todo (subst (In r) e o)))

  Chunks-Meets : (fuel : ℕ) → Chunks fuel
  unfolding copy_chunks
  Chunks-Meets zero done todo job cursor report all is at less = absurd (omega arith)
  Chunks-Meets (suc fuel) done todo job cursor report all is at less =
      chain (fence-Meets m mv source sorted apart done job) (λ _.
        chain (scan-Meets m mv source sorted apart done todo job cursor all at) (λ batch.
          known (λ e.
            by_last-Meets fuel (Chunks-Meets fuel) done todo batch job report (last_pk batch) all is
              less e refl)))

  parsed :
      (done : List Row) (job : JobState) (cursor : Option ℕ)
      → job.cursor ≡ cursor_text m mv (last_pk done)
      → parse_cursor m job.cursor ≡ ok cursor
      → last_pk done ≡ cursor
  parsed done job cursor e f =
      by_last (last_pk done) cursor (subst (λ c. parse_cursor m c ≡ ok cursor) e f)
    where
      by_last : (o cursor : Option ℕ) → parse_cursor m (cursor_text m mv o) ≡ ok cursor → o ≡ cursor
      by_last none cursor e = ground arith
      by_last (some pk) cursor e = ground (arith, reread pk)

  module _ (fuel : ℕ) (enough : length (chosen m mv source) < fuel) where
    restart-Meets :
        (done todo : List Row) (job : JobState)
        → done ++ todo ≡ chosen m mv source
        → JobIs m mv done job
        → Meets
            (Held m mv source sorted apart done job)
            (restart m mv job)
            (λ job' rows jobs.
              Held m mv source sorted apart done job' rows jobs × JobIs m mv done job')
            (Inv m mv source)
    restart-Meets done todo job all is = elim (Bool-cases (is_rolled_back job.phase)) [
      | inl e ↦ rw e (
          chain
            (save-Meets m mv source sorted apart done todo job (record job { phase = backfilling })
              all (is.0, is.1, refl))
            (λ _.
              pure-Meets (record job { phase = backfilling })
                (λ rows jobs h. (h, (is.0, is.1, refl)))))
      | inr e ↦ rw e (pure-Meets job (λ rows jobs h. (h, is)))
    ]

    fits : (done todo : List Row) → done ++ todo ≡ chosen m mv source → length todo < fuel
    fits done todo all =
        let sum = ap length (sym all) ∙ length-append done todo in omega (arith, sum)

    pub resume-Meets :
        (job : JobState) (report : MigrationReport)
        → Meets
            (λ rows jobs. Inv m mv source rows jobs × (find_job (m.move_id mv) jobs ≡ some job))
            (resume m fuel mv report job)
            (λ _. Finished m mv source sorted apart)
            (Inv m mv source)
    unfolding resume
    resume-Meets job report = record {
      at = λ w h.
          let (done, todo, all, is, copied) = h.0.1 job h.1 in
          (begun done todo all is).at w (h.0, copied, h.1);
    }
      where
        begun :
            (done todo : List Row)
            → done ++ todo ≡ chosen m mv source
            → JobIs m mv done job
            → Meets
                (Held m mv source sorted apart done job)
                (if is_settled job.phase
                  then pure report
                  else (restart m mv job >>= λ job'. known_table m mv >>= λ _.
                      lifted (parse_cursor m job'.cursor) >>= λ cursor.
                      copy_chunks m fuel mv job' cursor report))
                (λ _. Finished m mv source sorted apart)
                (Inv m mv source)
        begun done todo all is = rw is.2 (
            chain (restart-Meets done todo job all is) (λ job'. known (λ is'.
              chain (lifted-Meets _ (λ a rows jobs e h. h) (λ rows jobs h. h.0)) (λ _.
                chain
                  (lifted-Meets (parse_cursor m job'.cursor)
                    (λ c rows jobs e h. (h, parsed done job' c is'.0 e)) (λ rows jobs h. h.0))
                  (λ cursor. known (λ at.
                    Chunks-Meets fuel done todo job' cursor report all is' at
                      (fits done todo all)))))))
