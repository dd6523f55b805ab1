-- ===== src/Archive/Run/Calm.antt =====
-- ecat-data-tiering/src/archive.rs: what the parts of a round do about replies and errors.
use e_cat.Prelude.{
  ℕ, zero, suc, ◌≤◌, ◌≢◌, ◌==◌, length, String, Bool, true, false, Option, none, some, List, [],
  ◌∷◌, if◌then◌else◌, either_way, arith, ◌&&◌,
}
use text.Mathlib.Text.{◌==◌ as str_eq}
use e_cat.Prelude.Result.{Result, ok, err}
use e_cat.Prelude.Exec.{after, ◌>>=◌, pure, raise}
use e_cat.Archive.{
  ArchivePhase, pending, copied, verified, dropped, TieringError, no_answer, out_of_fuel,
  phase_text, predecessor, ArchiveJobState, update_where, update_from, Advance, advance,
}
use e_cat.Archive.Run.{
  ArchiveJob, ArchiveReport, Store, Answer, answered, refused, lost, Reply, World, M, settle, Act,
  request_with, request, now_utc, tally, upsert, advance_job, id_bounds, Walk, on, past, read_chunk,
  write_chunk, compare_object, verify_chunk, total_rows, drop_partition,
}
use e_cat.Archive.Run.Partition.{
  count_chunk, skip, required, mark_verified, check_chunk, recheck, seed, write_rows, by_bounds,
  copy_chunk, by_phase, by_job, droppable, mark_dropped, drop_if, finish,
}

abbrev pub NotMore : {A : Type 0} → ℕ → Result TieringError A × World → Type 0
NotMore n (ok a, v) = length v.replies ≤ n
NotMore n (err e, v) = (e ≢ out_of_fuel)

-- An action that makes no replies, and fails by something else than fuel.
pub record Calm {A : Type 0} (m : M A) : Type 0 where
  pub at : (w : World) → NotMore (length w.replies) (m w)

abbrev pub Other : {A : Type 0} → Result TieringError A → Type 0
Other (ok a) = Unit
Other (err e) = (e ≢ out_of_fuel)

pub no_answer-ne : no_answer ≢ out_of_fuel
no_answer-ne e = ground arith

NotMore-le :
    {A : Type 0} (r : Result TieringError A × World) (m n : ℕ) → NotMore m r → m ≤ n → NotMore n r
NotMore-le (ok a, v) m n h le = omega arith
NotMore-le (err e, v) m n h le = h

settle-Other :
    {A : Type 0} (a : Answer) (done : Result TieringError A × Store) (before : Store)
    → Other done.0
    → Other (settle a done before).0
settle-Other answered done before h = h
settle-Other lost done before h = no_answer-ne
settle-Other refused done before h = no_answer-ne

replied :
    {A : Type 0} (r : Result TieringError A) (v : World) (n : ℕ)
    → Other r
    → length v.replies ≤ n
    → NotMore n (r, v)
replied (ok a) v n h le = le
replied (err e) v n h le = h

-- A request takes a reply.
pub request_takes :
    {A : Type 0} (act : Act A)
    → ((r : Reply) (s : Store) → Other (act r s).0)
    → (w : World) (replies : List Reply) (n : ℕ) → length replies ≤ suc n
    → NotMore n (request_with act w replies)
unfolding request_with
request_takes act other w [] n h = no_answer-ne
request_takes act other w (r ∷ rest) n h =
    replied (settle r.answer (act r w.store) w.store).0 _ n
      (settle-Other r.answer (act r w.store) w.store (other r w.store)) (omega arith)

Calm-request :
    {A : Type 0} (act : Act A) → ((r : Reply) (s : Store) → Other (act r s).0) → Calm (request act)
unfolding request
Calm-request act other = record {
  at = λ w. request_takes act other w w.replies (length w.replies) (omega arith);
}

module _ {A B : Type 0} where
  after-NotMore :
      (f : A → M B) (n : ℕ) (r : Result TieringError A × World)
      → NotMore n r
      → ((a : A) → Calm (f a))
      → NotMore n (after f r)
  unfolding after
  after-NotMore f n (ok a, v) h k = NotMore-le (f a v) (length v.replies) n ((k a).at v) h
  after-NotMore f n (err e, v) h k = h

  Calm-bind : {m : M A} {f : A → M B} → Calm m → ((a : A) → Calm (f a)) → Calm (m >>= f)
  unfolding ◌>>=◌
  Calm-bind {m} {f} h k = record { at = λ w. after-NotMore f (length w.replies) (m w) (h.at w) k }

module _ {A : Type 0} where
  Calm-pure : (a : A) → Calm (pure a)
  unfolding pure
  Calm-pure a = record { at = λ w. omega arith }

  Calm-if : (b : Bool) {m n : M A} → Calm m → Calm n → Calm (if b then m else n)
  Calm-if true hm hn = hm
  Calm-if false hm hn = hn

Calm-now : Calm now_utc
unfolding now_utc
Calm-now = record { at = λ w. omega arith }

Calm-tally : (f : ArchiveReport → ArchiveReport) → Calm (tally f)
unfolding tally
Calm-tally f = record { at = λ w. omega arith }

Calm-required : (o : Option String) → Calm (required o)
unfolding raise
Calm-required none = record { at = λ w e. ground arith }
Calm-required (some sum) = Calm-pure sum

Calm-upsert : (k : ℕ) (job : ArchiveJobState) → Calm (upsert k job)
unfolding upsert
Calm-upsert k job = Calm-request _ (λ r s. tt)

update-Other :
    (t : Bool) (to : ArchivePhase) (sum : Option String) (now : ℕ) (job : ArchiveJobState)
    → Other (update_where t to sum now job).0
unfolding update_where
update-Other true to sum now job = tt
update-Other false to sum now job = λ e. ground arith

from-Other :
    (o : Option ArchivePhase) (to : ArchivePhase) (sum : Option String) (now : ℕ)
    (row : Option ArchiveJobState)
    → Other (update_from o to sum now row).0
unfolding update_from
from-Other none to sum now row = λ e. ground arith
from-Other (some before) to sum now none = λ e. ground arith
from-Other (some before) to sum now (some job) =
    update-Other (str_eq (phase_text job.phase) (phase_text before)) to sum now job

advance-Other : (a : Advance) (row : Option ArchiveJobState) → Other (advance a row).0
unfolding advance
advance-Other a row =
    either_way (λ (x : Result TieringError (Unit {0}) × Option ArchiveJobState). Other x.0)
      a.answered (from-Other (predecessor a.to) a.to a.sum a.now row) no_answer-ne

Calm-advance : (k : ℕ) (to : ArchivePhase) (sum : Option String) → Calm (advance_job k to sum)
unfolding advance_job
Calm-advance k to sum =
    Calm-request _
      (λ r s. advance-Other (record { to = to; sum = sum; now = r.at; answered = true }) (s.jobs k))

module _ (c : ArchiveJob) where
  Calm-read : (cursor : ℕ) → Calm (read_chunk c cursor)
  unfolding read_chunk
  Calm-read cursor = Calm-request _ (λ r s. tt)

  Calm-write : (k : ℕ) (rows : List ℕ) → Calm (write_chunk c k rows)
  unfolding write_chunk
  Calm-write k rows = Calm-request _ (λ r s. tt)

  compare-Other :
      (k : ℕ) (sum : String) (sample : Bool) (s : Store) (o : Option (List ℕ))
      → Other (compare_object c k sum sample s o).0
  compare-Other k sum sample s none = no_answer-ne
  compare-Other k sum sample s (some rows) =
      either_way (λ (x : Result TieringError Bool × Store). Other x.0)
        (str_eq (c.digest rows) sum && sample) tt tt

  Calm-verify : (k : ℕ) (sum : String) → Calm (verify_chunk c k sum)
  unfolding verify_chunk
  Calm-verify k sum = Calm-request _ (λ r s. compare-Other k sum r.sample_ok s (s.objects k))

  Calm-mark : (st : Walk) (good : Bool) → Calm (mark_verified c st good)
  Calm-mark st false = Calm-pure _
  Calm-mark st true =
      Calm-bind (Calm-advance st.chunk verified none) (λ _. Calm-bind Calm-now (λ now. Calm-pure _))

  Calm-check : (sum : String) (st : Walk) → Calm (check_chunk c sum st)
  unfolding check_chunk
  Calm-check sum st = Calm-bind (Calm-verify st.chunk sum) (Calm-mark st)

  Calm-recheck : (job : ArchiveJobState) (st : Walk) → Calm (recheck c job st)
  unfolding recheck
  Calm-recheck job st =
      Calm-bind (Calm-required job.checksum)
        (λ sum. Calm-bind (Calm-check sum st) (λ st'. Calm-pure _))

  Calm-seed : (known : Bool) (k : ℕ) (job : ArchiveJobState) → Calm (seed c known k job)
  Calm-seed true k job = Calm-pure tt
  Calm-seed false k job = Calm-upsert k job

  Calm-write_rows :
      (known : Bool) (rows : List ℕ) (low high : ℕ) (st : Walk)
      → Calm (write_rows c known rows low high st)
  unfolding write_rows
  Calm-write_rows known rows low high st = Calm-bind (Calm-write st.chunk rows) (λ sum.
      Calm-bind Calm-now (λ now. Calm-bind (Calm-seed known st.chunk _) (λ _.
        Calm-bind (Calm-advance st.chunk copied (some sum)) (λ _.
          Calm-bind (Calm-check sum st) (λ st'.
            Calm-bind (Calm-tally (count_chunk (length rows)))
              (λ _. Calm-pure (on (past high (length rows) st'))))))))

  Calm-bounds :
      (known : Bool) (st : Walk) (rows : List ℕ) (o : Option (ℕ × ℕ))
      → Calm (by_bounds c known st rows o)
  Calm-bounds known st rows none = Calm-pure _
  Calm-bounds known st rows (some (low, high)) =
      Calm-if c.dry_run
        (Calm-bind (Calm-tally (count_chunk (length rows))) (λ _. Calm-pure (on (skip high st))))
        (Calm-write_rows known rows low high st)

  Calm-copy : (known : Bool) (st : Walk) → Calm (copy_chunk c known st)
  unfolding copy_chunk
  Calm-copy known st =
      Calm-bind (Calm-read st.cursor) (λ rows. Calm-bounds known st rows (id_bounds rows))

  Calm-phase : (p : ArchivePhase) (job : ArchiveJobState) (st : Walk) → Calm (by_phase c p job st)
  Calm-phase pending job st = Calm-copy true st
  Calm-phase copied job st = Calm-if c.dry_run (Calm-pure _) (Calm-recheck job st)
  Calm-phase verified job st = Calm-pure _
  Calm-phase dropped job st = Calm-pure _

  pub Calm-job : (st : Walk) (o : Option ArchiveJobState) → Calm (by_job c st o)
  Calm-job st none = Calm-copy false st
  Calm-job st (some job) = Calm-phase job.phase job st

  Calm-total : Calm (total_rows c)
  unfolding total_rows
  Calm-total = Calm-request _ (λ r s. tt)

  Calm-drop : Calm (drop_partition c)
  unfolding drop_partition
  Calm-drop = Calm-request _ (λ r s. tt)

  Calm-marks : (n left : ℕ) → Calm (mark_dropped c n left)
  unfolding mark_dropped
  Calm-marks n zero = Calm-pure tt
  Calm-marks n (suc left) = Calm-bind (Calm-advance n dropped none) (λ _. Calm-marks (suc n) left)

  Calm-drop_if : (b : Bool) (st : Walk) → Calm (drop_if c b st)
  Calm-drop_if false st = Calm-tally _
  Calm-drop_if true st =
      Calm-bind Calm-drop (λ _. Calm-bind (Calm-marks 0 st.chunk) (λ _. Calm-tally _))

  pub Calm-finish : (o : Option Walk) → Calm (finish c o)
  Calm-finish none = Calm-pure tt
  Calm-finish (some st) = Calm-bind Calm-now (λ now.
      Calm-if (droppable c now st)
        (Calm-bind Calm-total (λ total. Calm-drop_if (total == st.archived_rows) st))
        (Calm-pure tt))
