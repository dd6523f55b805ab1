-- ===== src/Archive/Run/Partition.antt =====
-- ecat-data-tiering/src/archive.rs: `archive_partition`, round by round, and the runs that reach it.
use e_cat.Prelude.{
  ◌/◌, ◌%◌, ◌||◌, ℕ, zero, suc, ◌+◌, ◌-◌, ◌*◌, ltb, leb, ◌==◌, length, String, Bool, true, false,
  not, ◌&&◌, Option, none, some, List, [], ◌∷◌, if◌then◌else◌,
}
use e_cat.Prelude.Result.{ok}
use e_cat.Prelude.Exec.{◌>>=◌, ◌>>◌, pure, raise}
use e_cat.Archive.{
  ArchivePhase, pending, copied, verified, dropped, no_checksum, config, out_of_fuel,
  ArchiveJobState,
}
use e_cat.Archive.Run.{
  ArchiveJob, ArchiveReport, World, Reply, M, request, now_utc, tally, load, upsert, advance_job,
  id_bounds, Walk, Round, gone, broke, on, begun, past, later, seconds_per_day, read_chunk,
  write_chunk, verify_chunk, total_rows, drop_partition,
}

abbrev pub is_none : Option (ℕ → Bool) → Bool
is_none none = true
is_none (some f) = false

-- Dry runs count what they would write.
abbrev pub count_chunk : ℕ → ArchiveReport → ArchiveReport
count_chunk n r = record r { chunks = r.chunks + 1; rows = r.rows + n }

abbrev pub required : Option String → M String
required none = raise no_checksum
required (some sum) = pure sum

abbrev pub skip : ℕ → Walk → Walk
skip high st = record st { cursor = high; chunk = suc st.chunk }

-- A window whose end is not after its start goes over midnight.
abbrev pub in_window : ℕ → ℕ → ℕ → Bool
in_window start end minute =
    if ltb start end then leb start minute && ltb minute end else leb start minute || ltb minute end

unfoldable pub window_allows : Option (ℕ × ℕ) → ℕ → Bool
window_allows none minute = true
window_allows (some (start, end)) minute = in_window start end minute

module _ (c : ArchiveJob) where
  abbrev pub mark_verified : Walk → Bool → M Walk
  mark_verified st false = pure (record st { all_verified = false })
  mark_verified st true = do
    advance_job st.chunk verified none
    now ← now_utc
    pure (record st { verified_at = some now })

  -- The verification of a chunk, as both branches have it.
  unfoldable pub check_chunk : String → Walk → M Walk
  unfolding verify_chunk ◌>>=◌ pure
  check_chunk sum st = do good ← verify_chunk c st.chunk sum; mark_verified st good

  unfoldable pub recheck : ArchiveJobState → Walk → M Round
  unfolding check_chunk ◌>>=◌ pure raise
  recheck job st = do
    sum ← required job.checksum
    st' ← check_chunk sum st
    pure (on (past job.high_id job.rows st'))

  -- `upsert` makes a new row; a row that is there changes by `advance` only.
  abbrev pub seed : Bool → ℕ → ArchiveJobState → M (Unit {0})
  seed true k job = pure tt
  seed false k job = upsert k job

  unfoldable pub write_rows : Bool → List ℕ → ℕ → ℕ → Walk → M Round
  unfolding write_chunk check_chunk upsert advance_job now_utc tally ◌>>=◌ pure
  write_rows known rows low high st = do
    sum ← write_chunk c st.chunk rows
    now ← now_utc
    seed known st.chunk (record {
      low_id = low;
      high_id = high;
      rows = length rows;
      checksum = some sum;
      phase = pending;
      updated_at = now;
    })
    advance_job st.chunk copied (some sum)
    st' ← check_chunk sum st
    tally (count_chunk (length rows))
    pure (on (past high (length rows) st'))

  abbrev pub by_bounds : Bool → Walk → List ℕ → Option (ℕ × ℕ) → M Round
  by_bounds known st rows none = pure (broke (record st { complete = true }))
  by_bounds known st rows (some (low, high)) =
      if c.dry_run
      then tally (count_chunk (length rows)) >> pure (on (skip high st))
      else write_rows known rows low high st

  unfoldable pub copy_chunk : Bool → Walk → M Round
  unfolding read_chunk id_bounds write_rows tally ◌>>=◌ pure
  copy_chunk known st = do rows ← read_chunk c st.cursor; by_bounds known st rows (id_bounds rows)

  abbrev pub by_phase : ArchivePhase → ArchiveJobState → Walk → M Round
  by_phase dropped job st = pure gone
  by_phase verified job st = pure (
      on (
        past job.high_id job.rows
          (record st { verified_at = some (later st.verified_at job.updated_at) })))
  by_phase copied job st = if c.dry_run then pure (on (skip job.high_id st)) else recheck job st
  by_phase pending job st = copy_chunk true st

  abbrev pub by_job : Walk → Option ArchiveJobState → M Round
  by_job st none = copy_chunk false st
  by_job st (some job) = by_phase job.phase job st

  -- One round of the loop; `elapsed` is counted from the start of the run.
  unfoldable pub round : ℕ → Walk → M Round
  unfolding now_utc load copy_chunk recheck ◌>>=◌ pure
  round started st = do
    now ← now_utc
    if leb c.run_timeout (now - started) then pure (broke st) else (load st.chunk >>= by_job st)

  abbrev pub follow : (Walk → M (Option Walk)) → Round → M (Option Walk)
  follow again gone = pure none
  follow again (broke st) = pure (some st)
  follow again (on st) = again st

  unfoldable pub walk : ℕ → ℕ → Walk → M (Option Walk)
  unfolding round ◌>>=◌ raise
  walk started zero st = raise out_of_fuel
  walk started (suc fuel) st = do r ← round started st; follow (walk started fuel) r

  abbrev pub retention_passed : ℕ → Option ℕ → Bool
  retention_passed now none = false
  retention_passed now (some t) = leb (t + c.retain_s3_days * seconds_per_day) now

  abbrev pub droppable : ℕ → Walk → Bool
  droppable now st =
      st.complete
      && st.all_verified
      && st.copied_any
      && is_none c.filter
      && not c.dry_run
      && retention_passed now st.verified_at

  -- `for n in 0..chunk`, with `left` rounds to go.
  unfoldable pub mark_dropped : ℕ → ℕ → M (Unit {0})
  unfolding advance_job ◌>>=◌ pure
  mark_dropped n zero = pure tt
  mark_dropped n (suc left) = do advance_job n dropped none; mark_dropped (suc n) left

  abbrev pub drop_if : Bool → Walk → M (Unit {0})
  drop_if false st = tally (λ r. record r { skipped_drops = r.skipped_drops + 1 })
  drop_if true st = do
    drop_partition c
    mark_dropped 0 st.chunk
    tally (λ r. record r { dropped_partitions = r.dropped_partitions + 1 })

  abbrev pub finish : Option Walk → M (Unit {0})
  finish none = pure tt
  finish (some st) = do
    now ← now_utc
    if droppable now st
        then (total_rows c >>= λ total. drop_if (total == st.archived_rows) st)
        else pure tt

  -- Each round takes a reply, or it is the last one.
  unfoldable pub archive_partition : ℕ → M (Unit {0})
  unfolding walk mark_dropped total_rows drop_partition tally now_utc ◌>>=◌ pure
  archive_partition started w = (do o ← walk started (suc (length w.replies)) begun; finish o) w

  unfoldable pub hot_rows : M ℕ
  unfolding request
  hot_rows = request (λ r s. (ok (c.hot_rows r.at), s))

  abbrev pub unless_hot : ℕ → ℕ → M (Unit {0})
  unless_hot started n = if ltb 0 n then pure tt else archive_partition started

  -- Of all partitions this one, which is passed over while some of its rows are hot.
  unfoldable pub archive_tables : ℕ → M (Unit {0})
  unfolding hot_rows archive_partition ◌>>=◌ pure
  archive_tables started = do n ← hot_rows; unless_hot started n

  -- The release of the lock at the end changes nothing here.
  unfoldable pub acquire : M Bool
  unfolding request
  acquire = request (λ r s. (ok r.lock_free, s))

  abbrev pub new_report : ArchiveReport
  new_report = record {
    chunks = 0;
    rows = 0;
    dropped_partitions = 0;
    skipped_drops = 0;
    dry_run = c.dry_run;
    skipped = false;
  }

  abbrev pub skip_run : M (Unit {0})
  skip_run = tally (λ r. record r { skipped = true })

  abbrev pub if_free : Bool → M (Unit {0})
  if_free false = skip_run
  if_free true = now_utc >>= archive_tables

  abbrev pub with_lock : M (Unit {0})
  with_lock = if c.has_lock then (acquire >>= if_free) else if_free true

  abbrev pub in_time : ℕ → M (Unit {0})
  in_time now = if window_allows c.window (now / 60 % 1440) then with_lock else skip_run

  unfoldable pub run_once : M (Unit {0})
  unfolding window_allows archive_tables acquire now_utc tally ◌>>=◌ pure raise
  run_once =
      if c.batch_size == 0
      then raise config
      else (do tally (λ _. new_report); now ← now_utc; in_time now)

  -- A run has the time at which it begins and its replies, and leaves the store to the next one. A
  -- partition that is gone is not listed again.
  abbrev pub next_run : ℕ → List Reply → World → World
  next_run now replies w =
      let start = record w { now = now; replies = replies } in
      if w.store.is_dropped then start else (run_once start).1

  unfoldable pub run_each : List (ℕ × List Reply) → World → World
  unfolding run_once
  run_each [] w = w
  run_each ((now, replies) ∷ rest) w = run_each rest (next_run now replies w)
