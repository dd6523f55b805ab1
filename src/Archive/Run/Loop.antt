-- ===== src/Archive/Run/Loop.antt =====
-- Each round of `archive_partition` keeps the invariant of the loop, or ends the run in a good store.
use e_cat.Prelude.{
  ℕ, suc, ◌-◌, ◌<◌, ◌≡◌, refl, sym, ap, subst, ◌∙◌, ◌⊎◌, inl, inr, ◌==◌, leb, length, String,
  by_test, Bool, true, false, ◌&&◌, Option, none, some, List, if◌then◌else◌, arith,
}
use text.Mathlib.Text.{◌==◌ as str_eq}
use e_cat.Prelude.Result.{Result, ok, err}
use e_cat.Prelude.Triple.{Post}
use e_cat.Prelude.Exec.{pure}
use e_cat.Archive.{
  ArchivePhase, pending, copied, verified, dropped, TieringError, no_checksum, ArchiveJobState,
  Advance, advance,
}
use e_cat.Archive.Run.{
  ArchiveJob, Store, load, upsert, advance_job, id_bounds, read, read_chunk, write_chunk,
  compare_object, update, verify_chunk, Walk, Round, gone, broke, on, past, later,
}
use e_cat.Archive.Run.Partition.{
  skip, required, mark_verified, check_chunk, recheck, seed, write_rows, by_bounds, copy_chunk,
  by_phase, by_job, round, count_chunk,
}
use e_cat.Archive.Run.Request.{
  Yields, request-Yields, chain, adapt, given, now-Yields, tally-Yields, pure-Yields, Yields-if,
  raise-Yields, advance_row,
}
use e_cat.Archive.Run.Chunks.{cursor_at, chunk_at, cursor_at-suc}
use e_cat.Archive.Run.Coverage.{
  ObjectOk, PhaseOk, RowOk, Inv, ColdAt, Good, Walking, Walking-Good, Inv-row, written-Cold,
  written-Inv, marked-Cold, written, marked, marked-Inv, Walking-next,
}

module _ (c : ArchiveJob) where
  -- What the loop may come to after a round.
  abbrev pub Rested : Round → Store → Type 0
  Rested gone s = Good c s × (s.is_dropped ≡ false)
  Rested (on st) s = Walking c st s
  Rested (broke st) s =
      Inv c s
      × (s.is_dropped ≡ false)
      × (st.complete ≡ true → id_bounds (chunk_at c st.chunk) ≡ none)
      × (st.all_verified ≡ true → c.dry_run ≡ false → (j : ℕ) → j < st.chunk → ColdAt c s j)

  either_result :
      {A : Type 0} (B : Store → Type 0) (r : Result TieringError A) (s : Store)
      → ((v : Store) → B v → Good c v)
      → B s
      → Post (λ _. B) (Good c) (r, s)
  either_result B (ok a) s good h = h
  either_result B (err e) s good h = good s h

  -- `advance` keeps what does not depend on the rows, where the new phase is right.
  pub advance_keeps :
      (k : ℕ) (to : ArchivePhase) (sum : Option String) (B : Store → Type 0)
      → ((s : Store) → B s → Inv c s)
      → ((s : Store) → B s → PhaseOk c k to (s.objects k) (s.checked k))
      → ((s : Store) (jobs : ℕ → Option ArchiveJobState)
          → B s
          → Inv c (record s { jobs = jobs })
          → B (record s { jobs = jobs }))
      → ((s : Store) → B s → Good c s)
      → Yields B (advance_job k to sum) (λ _. B) (Good c)
  unfolding advance_job
  advance_keeps k to sum B inv right stable good =
      request-Yields _
        (λ r s h.
          let a : Advance = record { to = to; sum = sum; now = r.at; answered = true } in
          let RowAt : Option ArchiveJobState → Type 0 =
            λ row. RowOk c k row (s.objects k) (s.checked k) in
          let moved : RowAt (advance a (s.jobs k)).1 =
            advance_row RowAt a (s.jobs k) (inv s h k).1
              (λ job e. ((subst RowAt e (inv s h k).1).0, right s h)) in
          either_result B (advance a (s.jobs k)).0 _ good (
            stable s (update s.jobs k (advance a (s.jobs k)).1) h
              (Inv-row c s k (advance a (s.jobs k)).1 (inv s h) moved)))
        good (λ o s h. good s h)

  module _ (st : Walk) where
    load_walking :
        (k : ℕ) → Yields (Walking c st) (load k) (λ o s. Walking c st s × (o ≡ s.jobs k)) (Good c)
    unfolding load
    load_walking k =
        request-Yields (λ r s. (ok (s.jobs k), s)) (λ r s h. (h, refl)) (Walking-Good c st)
          (λ o s h. Walking-Good c st s h.0)

    read_walking :
        Yields
          (Walking c st)
          (read_chunk c st.cursor)
          (λ rows s. Walking c st s × (rows ≡ chunk_at c st.chunk))
          (Good c)
    unfolding read_chunk
    read_walking =
        request-Yields (λ r s. (ok (read c st.cursor), s)) (λ r s h. (h, ap (read c) h.2))
          (Walking-Good c st) (λ o s h. Walking-Good c st s h.0)

    -- A row that becomes a right one.
    row_walking :
        (s : Store) (k : ℕ) (row : Option ArchiveJobState)
        → Walking c st s
        → RowOk c k row (s.objects k) (s.checked k)
        → Walking c st (record s { jobs = λ j. if k == j then row else s.jobs j })
    row_walking s k row h new =
        Walking-next c st s (record s { jobs = λ j. if k == j then row else s.jobs j }) h
          (Inv-row c s k row h.0 new) h.1 (λ j x. x)

    upsert_walking :
        (k : ℕ) (job : ArchiveJobState)
        → job.phase ≡ pending
        → job.high_id ≡ cursor_at c (suc k)
        → Yields (Walking c st) (upsert k job) (λ _. Walking c st) (Good c)
    unfolding upsert
    upsert_walking k job e high =
        request-Yields _
          (λ r s h.
            row_walking s k (some job) h
              (high, subst (λ p. PhaseOk c k p (s.objects k) (s.checked k)) (sym e) tt))
          (Walking-Good c st) (λ o s h. Walking-Good c st s h)

    cold_advance :
        Yields
          (λ s. Walking c st s × ColdAt c s st.chunk)
          (advance_job st.chunk verified none)
          (λ _ s. Walking c st s × ColdAt c s st.chunk)
          (Good c)
    cold_advance =
        advance_keeps st.chunk verified none (λ s. Walking c st s × ColdAt c s st.chunk)
          (λ s h. h.0.0) (λ s h. h.1)
          (λ s jobs h inv.
            (Walking-next c st s (record s { jobs = jobs }) h.0 inv h.0.1 (λ j x. x), h.1))
          (λ s h. Walking-Good c st s h.0)

    copied_advance :
        (sum : String)
        → Yields
            (Walking c st)
            (advance_job st.chunk copied (some sum))
            (λ _. Walking c st)
            (Good c)
    copied_advance sum =
        advance_keeps st.chunk copied (some sum) (Walking c st) (λ s h. h.0) (λ s h. tt)
          (λ s jobs h inv. Walking-next c st s (record s { jobs = jobs }) h inv h.1 (λ j x. x))
          (Walking-Good c st)

    write_walking :
        (rows : List ℕ)
        → rows ≡ chunk_at c st.chunk
        → Yields (Walking c st) (write_chunk c st.chunk rows) (λ _. Walking c st) (Good c)
    unfolding write_chunk
    write_walking rows e =
        request-Yields _
          (λ r s h.
            Walking-next c st s (written c s st.chunk rows) h (written-Inv c s st.chunk rows e h.0)
              h.1 (written-Cold c s st.chunk rows))
          (Walking-Good c st) (λ o s h. Walking-Good c st s h)

    verify_walking :
        (sum : String)
        → Yields
            (Walking c st)
            (verify_chunk c st.chunk sum)
            (λ good s. Walking c st s × (good ≡ true → ColdAt c s st.chunk))
            (Good c)
    unfolding verify_chunk
    verify_walking sum =
        request-Yields _ (λ r s h. by_object s r.sample_ok (s.objects st.chunk) refl h)
          (Walking-Good c st) (λ o s h. Walking-Good c st s h.0)
      where
        by_object :
            (s : Store) (sample : Bool) (o : Option (List ℕ))
            → s.objects st.chunk ≡ o
            → Walking c st s
            → Post
                (λ good v. Walking c st v × (good ≡ true → ColdAt c v st.chunk))
                (Good c)
                (compare_object c st.chunk sum sample s o)
        by_object s sample none e h = Walking-Good c st s h
        by_object s sample (some rows) e h =
            by_test (Post (λ good v. Walking c st v × (good ≡ true → ColdAt c v st.chunk)) (Good c))
              (str_eq (c.digest rows) sum && sample)
              (λ right. (
                Walking-next c st s (marked c s st.chunk) h (marked-Inv c s st.chunk h.0) h.1
                    (marked-Cold c s st.chunk),
                λ _. (e ∙ ap some (subst (ObjectOk c st.chunk) e (h.0 st.chunk).0), ground arith),
              ))
              (λ wrong. (h, λ t. absurd (ground arith)))

    -- What is left of the round once the chunk has been looked at.
    abbrev Looked : Walk → Store → Type 0
    Looked st' s =
        (high rows : ℕ) → high ≡ cursor_at c (suc st.chunk) → Walking c (past high rows st') s

    not_verified : (s : Store) → Walking c st s → Looked (record st { all_verified = false }) s
    not_verified s h high rows e = (h.0, h.1, e, h.3, λ v d j less. absurd (ground arith))

    -- A chunk that is in the cold store joins those before it.
    joined :
        (s : Store) (t : Option ℕ)
        → Walking c st s
        → ColdAt c s st.chunk
        → Looked (record st { verified_at = t }) s
    joined s t h cold high rows e = (
      h.0,
      h.1,
      e,
      h.3,
      λ v d j less.
          let side : (j < st.chunk) ⊎ (j ≡ st.chunk) = omega arith in
          elim side [
            | inl before ↦ h.4 v d j before
            | inr here ↦ subst (ColdAt c s) (sym here) cold
          ],
    )

    mark-Looked :
        (good : Bool)
        → Yields
            (λ s. Walking c st s × (good ≡ true → ColdAt c s st.chunk))
            (mark_verified c st good)
            Looked
            (Good c)
    mark-Looked false = pure-Yields _ (λ s h. not_verified s h.0)
    mark-Looked true =
        chain (adapt (λ s h. (h.0, h.1 refl)) (λ a s h. h) cold_advance)
          (λ _. chain now-Yields (λ now. pure-Yields _ (λ s h. joined s (some now) h.0 h.1)))

    check-Looked : (sum : String) → Yields (Walking c st) (check_chunk c sum st) Looked (Good c)
    unfolding check_chunk
    check-Looked sum = chain (verify_walking sum) mark-Looked

    on-Looked :
        (st' : Walk) (high rows : ℕ)
        → high ≡ cursor_at c (suc st.chunk)
        → Yields (Looked st') (pure (on (past high rows st'))) Rested (Good c)
    on-Looked st' high rows e = pure-Yields _ (λ s h. h high rows e)

    resting : (r : Round) (s : Store) → Rested r s → Good c s
    resting gone s h = h.0
    resting (on st') s h = Walking-Good c st' s h
    resting (broke st') s h = (h.0, λ e. absurd (ground arith))

    recheck_rests :
        (job : ArchiveJobState)
        → job.high_id ≡ cursor_at c (suc st.chunk)
        → Yields (Walking c st) (recheck c job st) Rested (Good c)
    unfolding recheck
    recheck_rests job e =
        chain (required_walking job.checksum)
          (λ sum. chain (check-Looked sum) (λ st'. on-Looked st' job.high_id job.rows e))
      where
        required_walking :
            (o : Option String) → Yields (Walking c st) (required o) (λ _. Walking c st) (Good c)
        required_walking none = raise-Yields no_checksum (Walking-Good c st)
        required_walking (some sum) = pure-Yields sum (λ s h. h)

    seed_walking :
        (known : Bool) (job : ArchiveJobState)
        → job.phase ≡ pending
        → job.high_id ≡ cursor_at c (suc st.chunk)
        → Yields (Walking c st) (seed c known st.chunk job) (λ _. Walking c st) (Good c)
    seed_walking true job e high = pure-Yields tt (λ s h. h)
    seed_walking false job e high = upsert_walking st.chunk job e high

    write_rests :
        (known : Bool) (rows : List ℕ) (low high : ℕ)
        → rows ≡ chunk_at c st.chunk
        → high ≡ cursor_at c (suc st.chunk)
        → Yields (Walking c st) (write_rows c known rows low high st) Rested (Good c)
    unfolding write_rows
    write_rests known rows low high e top = chain (write_walking rows e) (λ sum.
        chain now-Yields (λ now. chain (seed_walking known _ refl top) (λ _.
          chain (copied_advance sum) (λ _. chain (check-Looked sum) (λ st'.
            chain (tally-Yields (count_chunk (length rows)) (λ s h. h))
              (λ _. on-Looked st' high (length rows) top))))))

    -- A dry run has nothing to show for a chunk.
    skipped :
        (s : Store) (high : ℕ)
        → c.dry_run ≡ true
        → high ≡ cursor_at c (suc st.chunk)
        → Walking c st s
        → Walking c (skip high st) s
    skipped s high dry e h = (h.0, h.1, e, h.3, λ v d j less. absurd (ground arith))

    bounds_rest :
        (known : Bool) (rows : List ℕ) (o : Option (ℕ × ℕ))
        → id_bounds rows ≡ o
        → Yields
            (λ s. Walking c st s × (rows ≡ chunk_at c st.chunk))
            (by_bounds c known st rows o)
            Rested
            (Good c)
    bounds_rest known rows none e =
        pure-Yields _ (λ s h. (h.0.0, h.0.1, λ _. ap id_bounds (sym h.1) ∙ e, h.0.4))
    bounds_rest known rows (some (low, high)) e = given (λ same.
        let top : high ≡ cursor_at c (suc st.chunk) =
          sym (cursor_at-suc c st.chunk (ap id_bounds (sym same) ∙ e)) in
        Yields-if c.dry_run
          (λ dry.
            chain (tally-Yields (count_chunk (length rows)) (λ s h. h))
              (λ _. pure-Yields _ (λ s h. skipped s high dry top h)))
          (λ _. write_rests known rows low high same top))

    copy_rests : (known : Bool) → Yields (Walking c st) (copy_chunk c known st) Rested (Good c)
    unfolding copy_chunk
    copy_rests known = chain read_walking (λ rows. bounds_rest known rows (id_bounds rows) refl)

    abbrev Found : Option ArchiveJobState → Store → Type 0
    Found o s = Walking c st s × (o ≡ s.jobs st.chunk)

    row_of_Found :
        (job : ArchiveJobState) (s : Store)
        → Found (some job) s
        → RowOk c st.chunk (some job) (s.objects st.chunk) (s.checked st.chunk)
    row_of_Found job s h =
        subst (λ o. RowOk c st.chunk o (s.objects st.chunk) (s.checked st.chunk)) (sym h.1)
          (h.0.0 st.chunk).1

    phase_rests :
        (p : ArchivePhase) (job : ArchiveJobState)
        → job.phase ≡ p
        → Yields (Found (some job)) (by_phase c p job st) Rested (Good c)
    phase_rests pending job e = adapt (λ s h. h.0) (λ r s h. h) (copy_rests true)
    phase_rests copied job e =
        adapt (λ s h. (h.0, (row_of_Found job s h).0)) (λ r s h. h)
          (given (λ top.
            Yields-if c.dry_run (λ dry. pure-Yields _ (λ s h. skipped s job.high_id dry top h))
              (λ _. recheck_rests job top)))
    phase_rests verified job e = pure-Yields _ (λ s h.
        let row = row_of_Found job s h in
        let cold =
          subst (λ p. PhaseOk c st.chunk p (s.objects st.chunk) (s.checked st.chunk)) e row.1 in
        joined s (some (later st.verified_at job.updated_at)) h.0 cold job.high_id job.rows row.0)
    phase_rests dropped job e = pure-Yields _ (λ s h. (Walking-Good c st s h.0, h.0.1))

    job_rests : (o : Option ArchiveJobState) → Yields (Found o) (by_job c st o) Rested (Good c)
    job_rests none = adapt (λ s h. h.0) (λ r s h. h) (copy_rests false)
    job_rests (some job) = phase_rests job.phase job refl

    pub round_rests : (started : ℕ) → Yields (Walking c st) (round c started st) Rested (Good c)
    unfolding round
    round_rests started = chain now-Yields (λ now.
        Yields-if (leb c.run_timeout (now - started))
          (λ _. pure-Yields _ (λ s h. (h.0, h.1, λ t. absurd (ground arith), h.4)))
          (λ _. chain (load_walking st.chunk) job_rests))
