-- ===== src/Archive.antt =====
-- ecat-data-tiering/src/state.rs: the phases of an archived chunk, and `advance`, whose comparison
-- and write are one UPDATE. One row; a statement may fail, which leaves the row as it was.
pub mod Once
pub mod Run
mod Tests
use e_cat.Prelude.{
  ℕ, String, ◌≡◌, refl, Bool, true, false, Option, none, some, List, if◌then◌else◌, ◌==◌,
}
use text.Mathlib.Text.{◌==◌ as str_eq}
use e_cat.Prelude.Result.{Result, ok, err}

pub data ArchivePhase : Type 0 where
  pending copied verified dropped : ArchivePhase

pub data TieringError : Type 0 where
  no_predecessor not_a_job invalid_transition no_answer no_checksum config out_of_fuel :
      TieringError

unfoldable pub phase_text : ArchivePhase → String
phase_text pending = "pending"
phase_text copied = "copied"
phase_text verified = "verified"
phase_text dropped = "dropped"

unfoldable pub parse_phase : String → Option ArchivePhase
parse_phase s =
    if str_eq s "pending"
    then some pending
    else if str_eq s "copied"
    then some copied
    else if str_eq s "verified"
    then some verified
    else if str_eq s "dropped"
    then some dropped
    else none

-- The phase is compared as the text in its column.
parse_phase-phase_text : (p : ArchivePhase) → parse_phase (phase_text p) ≡ some p
unfolding parse_phase phase_text
parse_phase-phase_text pending = refl
parse_phase-phase_text copied = refl
parse_phase-phase_text verified = refl
parse_phase-phase_text dropped = refl

unfoldable pub predecessor : ArchivePhase → Option ArchivePhase
predecessor pending = none
predecessor copied = some pending
predecessor verified = some copied
predecessor dropped = some verified

-- The row of one chunk; the table, the partition and the chunk are its key.
pub record ArchiveJobState : Type 0 where
  pub low_id : ℕ  -- an i64, as its distance from i64::MIN
  pub high_id : ℕ
  pub rows : ℕ
  pub checksum : Option String
  pub phase : ArchivePhase
  pub updated_at : ℕ

-- `COALESCE`
abbrev pub coalesce : Option String → Option String → Option String
coalesce none old = old
coalesce (some new) old = some new

-- Whether the UPDATE matched a row decides between success and the errors.
unfoldable pub update_where :
    Bool
    → ArchivePhase
    → Option String
    → ℕ
    → ArchiveJobState
    → Result TieringError (Unit {0}) × Option ArchiveJobState
update_where true to sum now job = (
  ok tt,
  some (record job { phase = to; checksum = coalesce sum job.checksum; updated_at = now }),
)
update_where false to sum now job = (err invalid_transition, some job)

unfoldable pub update_from :
    Option ArchivePhase
    → ArchivePhase
    → Option String
    → ℕ
    → Option ArchiveJobState
    → Result TieringError (Unit {0}) × Option ArchiveJobState
unfolding update_where phase_text
update_from none to sum now row = (err no_predecessor, row)
update_from (some before) to sum now none = (err not_a_job, none)
update_from (some before) to sum now (some job) =
    update_where (str_eq (phase_text job.phase) (phase_text before)) to sum now job

-- A call of `advance`; `answered` is whether its statement succeeds.
pub record Advance : Type 0 where
  pub to : ArchivePhase
  pub sum : Option String
  pub now : ℕ
  pub answered : Bool

unfoldable pub advance :
    Advance → Option ArchiveJobState → Result TieringError (Unit {0}) × Option ArchiveJobState
unfolding update_from predecessor
advance a row =
    if a.answered then update_from (predecessor a.to) a.to a.sum a.now row else (err no_answer, row)

abbrev pub same_phase : ArchivePhase → ArchivePhase → Bool
same_phase pending pending = true
same_phase copied copied = true
same_phase verified verified = true
same_phase dropped dropped = true
same_phase _ _ = false
