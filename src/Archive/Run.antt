-- ===== src/Archive/Run.antt =====
-- ecat-data-tiering/src: archive.rs and sink/s3.rs, a run of the archive on one partition. Rows are
-- their ids; an i64 is its distance from i64::MIN.
pub mod Request
pub mod Partition
pub mod Chunks
pub mod Coverage
pub mod Loop
pub mod Safety
pub mod Calm
pub mod Ending
mod Tests
use e_cat.Prelude.{
  ℕ, zero, suc, ◌+◌, ◌-◌, ◌*◌, ◌^◌, min, max, ltb, leb, ◌==◌, length, take, String, Bool, true,
  false, not, ◌&&◌, Option, none, some, List, [], ◌∷◌, if◌then◌else◌,
}
use text.Mathlib.Text.{◌==◌ as str_eq}
use e_cat.Prelude.Result.{Result, ok, err}
use e_cat.Prelude.Exec.{Exec, ◌>>=◌, ◌>>◌, pure, raise}
use e_cat.Archive.{
  ArchivePhase, pending, copied, verified, dropped, TieringError, no_answer, no_checksum, config,
  out_of_fuel, ArchiveJobState, advance,
}

-- What the table, the configuration and the hash function are.
pub record ArchiveJob : Type 0 where
  pub hot : List ℕ  -- the rows of the partition, in the order of their ids
  pub filter : Option (ℕ → Bool)
  pub hot_rows : ℕ → ℕ  -- how many of them are still hot at a time
  pub batch_size : ℕ
  pub run_timeout : ℕ
  pub retain_s3_days : ℕ
  pub dry_run : Bool
  pub window : Option (ℕ × ℕ)  -- minutes of the day
  pub has_lock : Bool
  pub digest : List ℕ → String

pub record ArchiveReport : Type 0 where
  pub chunks : ℕ
  pub rows : ℕ
  pub dropped_partitions : ℕ
  pub skipped_drops : ℕ
  pub dry_run : Bool
  pub skipped : Bool

-- The table of states, the objects of the cold store, which of them a verification has found to be
-- right, and whether the partition is gone.
pub record Store : Type 0 where
  pub jobs : ℕ → Option ArchiveJobState
  pub objects : ℕ → Option (List ℕ)
  pub checked : ℕ → Bool
  pub is_dropped : Bool
  pub report : ArchiveReport

pub data Answer : Type 0 where
  answered refused lost : Answer

-- Each request takes one; a lost one has its effect. `sample_ok` is what a sample
-- shows, `lock_free` whether the lock of all runs is free.
pub record Reply : Type 0 where
  pub answer : Answer
  pub at : ℕ
  pub sample_ok : Bool
  pub lock_free : Bool

pub record World : Type 0 where
  pub store : Store
  pub now : ℕ
  pub replies : List Reply

abbrev pub M : Type 0 → Type 0
M A = Exec World TieringError A

abbrev pub settle :
    {A : Type 0} → Answer → Result TieringError A × Store → Store → Result TieringError A × Store
settle answered done before = done
settle lost done before = (err no_answer, done.1)
settle refused done before = (err no_answer, before)

abbrev pub Act : Type 0 → Type 0
Act A = Reply → Store → Result TieringError A × Store

-- With no reply left the process is gone.
unfoldable pub request_with :
    {A : Type 0} → Act A → World → List Reply → Result TieringError A × World
request_with act w [] = (err no_answer, w)
request_with act w (reply ∷ rest) =
    let (r, s) = settle reply.answer (act reply w.store) w.store in
    (r, record { store = s; now = reply.at; replies = rest })

unfoldable pub request : {A : Type 0} → Act A → M A
unfolding request_with
request act w = request_with act w w.replies

-- `OffsetDateTime::now_utc`
unfoldable pub now_utc : M ℕ
now_utc w = (ok w.now, w)

-- A change of the report.
unfoldable pub tally : (ArchiveReport → ArchiveReport) → M (Unit {0})
tally f w = (ok tt, record w { store = record w.store { report = f w.store.report } })

abbrev pub update : {A : Type 0} → (ℕ → A) → ℕ → A → ℕ → A
update f k a j = if k == j then a else f j

unfoldable pub load : ℕ → M (Option ArchiveJobState)
unfolding request
load k = request (λ r s. (ok (s.jobs k), s))

unfoldable pub upsert : ℕ → ArchiveJobState → M (Unit {0})
unfolding request
upsert k job = request (λ r s. (ok tt, record s { jobs = update s.jobs k (some job) }))

unfoldable pub advance_job : ℕ → ArchivePhase → Option String → M (Unit {0})
unfolding request advance
advance_job k to sum = request λ r s.
    let (result, row) =
      advance (record { to = to; sum = sum; now = r.at; answered = true }) (s.jobs k) in
    (result, record s { jobs = update s.jobs k row })

abbrev pub passes : Option (ℕ → Bool) → ℕ → Bool
passes none id = true
passes (some test) id = test id

abbrev pub above : Option (ℕ → Bool) → ℕ → List ℕ → List ℕ
above filter cursor [] = []
above filter cursor (id ∷ rest) =
    let others = above filter cursor rest in
    if ltb cursor id && passes filter id then id ∷ others else others

abbrev pub bounds_with : Option (ℕ × ℕ) → ℕ → Option (ℕ × ℕ)
bounds_with none id = some (id, id)
bounds_with (some (low, high)) id = some (min low id, max high id)

abbrev pub bounds_from : Option (ℕ × ℕ) → List ℕ → Option (ℕ × ℕ)
bounds_from bounds [] = bounds
bounds_from bounds (id ∷ rest) = bounds_from (bounds_with bounds id) rest

unfoldable pub id_bounds : List ℕ → Option (ℕ × ℕ)
id_bounds rows = bounds_from none rows

-- An object that is there is not written again.
abbrev pub put_new : Option (List ℕ) → List ℕ → Option (List ℕ)
put_new none rows = some rows
put_new (some old) rows = some old

-- The state of the loop of `archive_partition`.
pub record Walk : Type 0 where
  pub cursor : ℕ
  pub chunk : ℕ
  pub all_verified : Bool
  pub verified_at : Option ℕ
  pub copied_any : Bool
  pub archived_rows : ℕ
  pub complete : Bool

-- What a round comes to: the function returns, the loop ends, or it goes on.
pub data Round : Type 0 where
  gone : Round
  broke : Walk → Round
  on : Walk → Round

abbrev pub begun : Walk
begun = record {
  cursor = 0;
  chunk = 0;
  all_verified = true;
  verified_at = none;
  copied_any = false;
  archived_rows = 0;
  complete = false;
}

-- Past a chunk that is in the cold store.
abbrev pub past : ℕ → ℕ → Walk → Walk
past high rows st = record st {
  cursor = high;
  chunk = suc st.chunk;
  copied_any = true;
  archived_rows = min (st.archived_rows + rows) (2 ^ 64 - 1);
}

abbrev pub later : Option ℕ → ℕ → ℕ
later none t = t
later (some u) t = max u t

abbrev pub seconds_per_day : ℕ
seconds_per_day = 86400

module _ (c : ArchiveJob) where
  unfoldable pub read : ℕ → List ℕ
  read cursor = take c.batch_size (above c.filter cursor c.hot)

  unfoldable pub read_chunk : ℕ → M (List ℕ)
  unfolding request read
  read_chunk cursor = request (λ r s. (ok (read cursor), s))

  unfoldable pub write_chunk : ℕ → List ℕ → M String
  unfolding request
  write_chunk k rows = request λ r s.
      (ok (c.digest rows), record s { objects = update s.objects k (put_new (s.objects k) rows) })

  abbrev pub compare_object :
      ℕ → String → Bool → Store → Option (List ℕ) → Result TieringError Bool × Store
  compare_object k sum sample_ok s none = (err no_answer, s)
  compare_object k sum sample_ok s (some rows) =
      if str_eq (c.digest rows) sum && sample_ok
      then (ok true, record s { checked = update s.checked k true })
      else (ok false, s)

  unfoldable pub verify_chunk : ℕ → String → M Bool
  unfolding request
  verify_chunk k sum = request (λ r s. compare_object k sum r.sample_ok s (s.objects k))

  unfoldable pub total_rows : M ℕ
  unfolding request
  total_rows = request (λ r s. (ok (length c.hot), s))

  unfoldable pub drop_partition : M (Unit {0})
  unfolding request
  drop_partition = request (λ r s. (ok tt, record s { is_dropped = true }))
