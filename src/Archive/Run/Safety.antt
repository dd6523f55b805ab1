-- ===== src/Archive/Run/Safety.antt =====
-- ecat-data-tiering/src/archive.rs: what is in the cold store when a partition is dropped.
use e_cat.Prelude.{
  ◌/◌, ◌%◌, ℕ, zero, suc, ◌+◌, ◌≤◌, ◌<◌, ◌≡◌, refl, sym, subst, ltb, ◌==◌, by_test, length, Bool,
  true, false, Option, none, some, List, [], ◌∷◌, arith,
}
use e_cat.Prelude.Result.{Result, ok, err}
use e_cat.Prelude.Triple.{Post}
use e_cat.Archive.{TieringError, dropped, config, out_of_fuel}
use e_cat.Archive.Run.{
  ArchiveJob, Store, Reply, World, M, total_rows, drop_partition, Walk, Round, gone, broke, on,
  begun,
}
use e_cat.Archive.Run.Partition.{
  is_none, follow, walk, droppable, mark_dropped, drop_if, finish, archive_partition, hot_rows,
  archive_tables, window_allows, acquire, if_free, new_report, skip_run, run_once, next_run,
  run_each,
}
use e_cat.Archive.Run.Request.{
  Yields, request-Yields, chain, adapt, now-Yields, tally-Yields, pure-Yields, Yields-if,
  raise-Yields,
}
use e_cat.Archive.Run.Chunks.{Occurs, cursor_at, Ascending, chunk_at, all_chunks}
use e_cat.Archive.Run.Coverage.{ObjectOk, RowOk, Inv, ColdAt, AllCold, Good, Walking, Walking-Good}
use e_cat.Archive.Run.Loop.{Rested, advance_keeps, round_rests}

none_of_is_none : (f : Option (ℕ → Bool)) → is_none f ≡ true → f ≡ none
none_of_is_none none e = refl
none_of_is_none (some f) e = absurd (ground arith)

module _ (c : ArchiveJob) where
  abbrev Ended : Option Walk → Store → Type 0
  Ended none s = Rested c gone s
  Ended (some st) s = Rested c (broke st) s

  follow_ends :
      (again : Walk → M (Option Walk))
      → ((st : Walk) → Yields (Walking c st) (again st) Ended (Good c))
      → (r : Round) → Yields (Rested c r) (follow c again r) Ended (Good c)
  follow_ends again goes gone = pure-Yields none (λ s h. h)
  follow_ends again goes (broke st) = pure-Yields (some st) (λ s h. h)
  follow_ends again goes (on st) = goes st

  walk_ends :
      (started fuel : ℕ) (st : Walk) → Yields (Walking c st) (walk c started fuel st) Ended (Good c)
  unfolding walk
  walk_ends started zero st = raise-Yields out_of_fuel (Walking-Good c st)
  walk_ends started (suc fuel) st =
      chain (round_rests c st started) (follow_ends (walk c started fuel) (walk_ends started fuel))

  -- While the chunks of a partition that is gone are marked.
  abbrev Dropping : ℕ → Store → Type 0
  Dropping n s = Inv c s × AllCold c s × ((j : ℕ) → j < n → ColdAt c s j)

  Dropping-Good : (n : ℕ) (s : Store) → Dropping n s → Good c s
  Dropping-Good n s h = (h.0, λ _. h.1)

  mark_keeps :
      (n k left : ℕ)
      → k + left ≤ n
      → Yields (Dropping n) (mark_dropped c k left) (λ _. Dropping n) (Good c)
  unfolding mark_dropped
  mark_keeps n k zero h = pure-Yields tt (λ s d. d)
  mark_keeps n k (suc left) h =
      chain
        (advance_keeps c k dropped none (Dropping n) (λ s d. d.0) (λ s d. d.2 k (omega arith))
          (λ s jobs d inv. (inv, d.1, d.2)) (Dropping-Good n))
        (λ _. mark_keeps n (suc k) left (omega arith))

  abbrev Covered : ℕ → Store → Type 0
  Covered n s = Dropping n s × (s.is_dropped ≡ false)

  Covered-Good : (n : ℕ) (s : Store) → Covered n s → Good c s
  Covered-Good n s h = Dropping-Good n s h.0

  dropped_goes : (n : ℕ) → Yields (Covered n) (drop_partition c) (λ _. Dropping n) (Good c)
  unfolding drop_partition
  dropped_goes n = request-Yields _ (λ r s h. h.0) (Covered-Good n) (λ o s h. Dropping-Good n s h)

  total-Covered : (n : ℕ) → Yields (Covered n) (total_rows c) (λ _. Covered n) (Good c)
  unfolding total_rows
  total-Covered n = request-Yields _ (λ r s h. h) (Covered-Good n) (λ o s h. Covered-Good n s h)

  drop-Good :
      (b : Bool) (st : Walk) → Yields (Covered st.chunk) (drop_if c b st) (λ _. Good c) (Good c)
  drop-Good false st = adapt (Covered-Good st.chunk) (λ a s h. h) (tally-Yields _ (λ s h. h))
  drop-Good true st = chain (dropped_goes st.chunk) (λ _.
      chain (mark_keeps st.chunk 0 st.chunk (omega arith))
        (λ _. adapt (Dropping-Good st.chunk) (λ a s h. h) (tally-Yields _ (λ s h. h))))

  module _ (ascending : Ascending c.hot) (some_rows : 0 < c.batch_size) where
    covered :
        (now : ℕ) (st : Walk) (s : Store)
        → droppable c now st ≡ true
        → Rested c (broke st) s
        → Covered st.chunk s
    covered now st s e h =
        let complete : st.complete ≡ true = ground arith in
        let verified : st.all_verified ≡ true = ground arith in
        let wet : c.dry_run ≡ false = ground arith in
        let plain : is_none c.filter ≡ true = ground arith in
        let cold = h.3 verified wet in
        let all_cold : AllCold c s = λ x above o.
          let (j, less, found) =
            all_chunks c (none_of_is_none c.filter plain) ascending st.chunk x some_rows
              (h.2 complete) above o in
          (j, chunk_at c j, (cold j less).0, found, (cold j less).1) in
        ((h.0, all_cold, cold), h.1)

    finish-Good : (o : Option Walk) → Yields (Ended o) (finish c o) (λ _. Good c) (Good c)
    finish-Good none = pure-Yields tt (λ s h. h.0)
    finish-Good (some st) = chain now-Yields (λ now.
        Yields-if (droppable c now st)
          (λ e.
            adapt (λ s h. covered now st s e h) (λ a s h. h)
              (chain (total-Covered st.chunk) (λ total. drop-Good (total == st.archived_rows) st)))
          (λ e. pure-Yields tt (λ s h. (h.0, λ t. absurd (ground arith)))))

    archive-Good :
        (started : ℕ)
        → Yields
            (λ s. Inv c s × (s.is_dropped ≡ false))
            (archive_partition c started)
            (λ _. Good c)
            (Good c)
    unfolding archive_partition cursor_at
    archive-Good started = record {
      at = λ w h.
          (chain (walk_ends started (suc (length w.replies)) begun) finish-Good).at w
            (h.0, h.1, refl, refl, λ v d j less. absurd (omega arith));
    }

  between :
      {A : Type 0} (P : Store → Type 0) (r : Result TieringError A × World)
      → Post (λ _ v. P v.store) (λ v. P v.store) r
      → P r.1.store
  between P (ok a, w) h = h
  between P (err e, w) h = h

  abbrev Open : Store → Type 0
  Open s = Inv c s × (s.is_dropped ≡ false)

  Open-Good : (s : Store) → Open s → Good c s
  Open-Good s h = (h.0, λ e. absurd (ground arith))

  module _ (ascending : Ascending c.hot) where
    hot-Open : Yields Open (hot_rows c) (λ _. Open) (Good c)
    unfolding hot_rows
    hot-Open = request-Yields _ (λ r s h. h) Open-Good (λ o s h. Open-Good s h)

    tables-Good :
        0 < c.batch_size
        → (started : ℕ) → Yields Open (archive_tables c started) (λ _. Good c) (Good c)
    unfolding archive_tables
    tables-Good b started = chain hot-Open (λ n.
        Yields-if (ltb 0 n) (λ h. pure-Yields tt Open-Good) (λ h. archive-Good ascending b started))

    skip-Good : Yields Open (skip_run c) (λ _. Good c) (Good c)
    skip-Good = adapt (λ s h. h) (λ _ s h. Open-Good s h) (tally-Yields _ (λ s h. h))

    free-Good :
        0 < c.batch_size → (free : Bool) → Yields Open (if_free c free) (λ _. Good c) (Good c)
    free-Good b false = skip-Good
    free-Good b true = chain now-Yields (tables-Good b)

    acquire-Open : Yields Open (acquire c) (λ _. Open) (Good c)
    unfolding acquire
    acquire-Open = request-Yields _ (λ r s h. h) Open-Good (λ o s h. Open-Good s h)

    once-Good : Yields Open (run_once c) (λ _. Good c) (Good c)
    unfolding run_once
    once-Good =
        Yields-if (c.batch_size == 0) (λ e. raise-Yields config Open-Good)
          (λ e. chain (tally-Yields (λ _. new_report c) (λ s h. h)) (λ _. chain now-Yields (λ now.
            Yields-if (window_allows c.window (now / 60 % 1440))
              (λ _.
                Yields-if c.has_lock (λ _. chain acquire-Open (free-Good (ground arith)))
                  (λ _. free-Good (ground arith) true))
              (λ _. skip-Good))))

    run-Good :
        (now : ℕ) (replies : List Reply) (w : World)
        → Good c w.store
        → Good c (next_run c now replies w).store
    run-Good now replies w h =
        let start = record w { now = now; replies = replies } in
        by_test (λ (v : World). Good c v.store) w.store.is_dropped (λ e. h)
          (λ e. between (Good c) (run_once c start) (once-Good.at start (h.0, e)))

    runs-Good :
        (runs : List (ℕ × List Reply)) (w : World)
        → Good c w.store
        → Good c (run_each c runs w).store
    unfolding run_each
    runs-Good [] w h = h
    runs-Good ((now, replies) ∷ rest) w h =
        runs-Good rest (next_run c now replies w) (run-Good now replies w h)

-- Nothing has been archived yet.
abbrev pub Fresh : Store → Type 0
Fresh s = ((k : ℕ) → s.jobs k ≡ none) × ((k : ℕ) → s.objects k ≡ none) × (s.is_dropped ≡ false)

Fresh-Good : (c : ArchiveJob) (s : Store) → Fresh s → Good c s
Fresh-Good c s h = (
  λ k. (
    subst (ObjectOk c k) (sym (h.1 k)) tt,
    subst (λ o. RowOk c k o (s.objects k) (s.checked k)) (sym (h.0 k)) tt,
  ),
  λ e. absurd (ground arith),
)

-- Over any number of runs, each cut off or refused at any request: if the partition, whose rows do not change
-- meanwhile, has been dropped, then every row of it is in an object of the cold store that a verification
-- has found to be right. The row with the least i64 as its identifier is left out.
pub dropped_archived :
    (c : ArchiveJob)
    → Ascending c.hot
    → (runs : List (ℕ × List Reply)) (w : World) → Fresh w.store
    → (run_each c runs w).store.is_dropped ≡ true
    → (x : ℕ) → 0 < x
    → Occurs x c.hot
    → (k : ℕ) × (rows : List ℕ) × ((run_each c runs w).store.objects k ≡ some rows)
      × Occurs x rows
      × ((run_each c runs w).store.checked k ≡ true)
dropped_archived c ascending runs w fresh =
    (runs-Good c ascending runs w (Fresh-Good c w.store fresh)).1
