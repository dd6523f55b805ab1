-- ===== src/Archive/Run/Tests.antt =====
-- Runs on a partition of three rows, and the theorem at them.
use e_cat.Prelude.{
  ◌++◌, ℕ, ◌≡◌, refl, String, true, false, Option, none, some, List, [], ◌∷◌, replicate, inl, inr,
  arith,
}
use Prim.Native.String.{◌++◌ as append}
use e_cat.Archive.{ArchivePhase, copied, ArchiveJobState}
use e_cat.Archive.Run.{ArchiveJob, answered, lost, Reply, World}
use e_cat.Archive.Run.Chunks.{Occurs}
use e_cat.Archive.Run.Partition.{next_run, run_each}
use e_cat.Archive.Run.Safety.{Fresh, dropped_archived}

abbrev marks : List ℕ → String
marks [] = ""
marks (x ∷ xs) = append "#" (marks xs)

abbrev on_rows : List ℕ → ArchiveJob
on_rows ids = record {
  hot = ids;
  filter = none;
  hot_rows = λ now. 0;
  batch_size = 2;
  run_timeout = 300;
  retain_s3_days = 1;
  dry_run = false;
  window = some (1380, 70);
  has_lock = true;
  digest = marks;
}

abbrev partition : ArchiveJob
partition = on_rows (3 ∷ 5 ∷ 9 ∷ [])

abbrev empty : World
empty = record {
  store = record {
    jobs = λ k. none;
    objects = λ k. none;
    checked = λ k. false;
    is_dropped = false;
    report = record {
      chunks = 0;
      rows = 0;
      dropped_partitions = 0;
      skipped_drops = 0;
      dry_run = false;
      skipped = false;
    };
  };
  now = 0;
  replies = [];
}

abbrev replies_at : ℕ → ℕ → List Reply
replies_at n now =
    replicate n (record { answer = answered; at = now; sample_ok = true; lock_free = true })

abbrev lost_at : ℕ → Reply
lost_at now = record { answer = lost; at = now; sample_ok = true; lock_free = true }

-- The first run loses the answer to its first upsert, the second verifies all, and the third comes a
-- day later.
abbrev three_runs : List (ℕ × List Reply)
three_runs =
    (10, replies_at 5 10 ++ lost_at 11 ∷ [])
    ∷ (100, replies_at 40 100)
    ∷ (90000, replies_at 40 90000)
    ∷ []

is_dropped_in_the_end : (run_each partition three_runs empty).store.is_dropped ≡ true
unfolding run_each
is_dropped_in_the_end = refl

nothing_archived : Fresh empty.store
nothing_archived = (λ k. refl, λ k. refl, refl)

dropped_archived_example :
    (k : ℕ) × (rows : List ℕ) × ((run_each partition three_runs empty).store.objects k ≡ some rows)
    × Occurs 5 rows
    × ((run_each partition three_runs empty).store.checked k ≡ true)
dropped_archived_example =
    dropped_archived partition ((omega arith, (omega arith, tt)), ((omega arith, tt), (tt, tt)))
      three_runs empty nothing_archived is_dropped_in_the_end 5 (omega arith) (inr (inl refl))

abbrev phase_of : Option ArchiveJobState → Option ArchivePhase
phase_of none = none
phase_of (some job) = some job.phase

-- A run is cut off after it has stored a chunk of one row; a second row comes in. The next run
-- takes the checksum of the two rows, and leaves the object of one row as it is: no later run can
-- verify it.
abbrev after_late_row : World
after_late_row =
    next_run (on_rows (3 ∷ 5 ∷ [])) 100 (replies_at 40 100)
      (next_run (on_rows (3 ∷ [])) 10 (replies_at 5 10) empty)

late_row :
    (after_late_row.store.objects 0 ≡ some (3 ∷ []))
    × (phase_of (after_late_row.store.jobs 0) ≡ some copied)
    × (phase_of (
          (next_run (on_rows (3 ∷ 5 ∷ [])) 90000 (replies_at 40 90000) after_late_row).store.jobs 0)
        ≡ some copied)
unfolding run_each
late_row = (refl, refl, refl)
