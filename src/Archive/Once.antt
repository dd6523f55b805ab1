-- ===== src/Archive/Once.antt =====
-- ecat-data-tiering/src/state.rs: phases are entered in order, each of them once.
use e_cat.Prelude.{
  ℕ, zero, suc, ◌+◌, ◌≤◌, String, ◌≡◌, refl, sym, ◌∙◌, if◌then◌else◌, ◌*◌, Bool, true, false,
  Option, none, some, List, [], ◌∷◌, arith,
}
use text.Mathlib.Text.{◌==◌ as str_eq}
use e_cat.Prelude.Result.{Result, ok, err}
use e_cat.Archive.{
  ArchivePhase, pending, copied, verified, dropped, no_answer, TieringError, phase_text,
  predecessor, ArchiveJobState, update_where, update_from, Advance, advance, same_phase,
}

abbrev pub rank : ArchivePhase → ℕ
rank pending = 0
rank copied = 1
rank verified = 2
rank dropped = 3

abbrev pub row_rank : Option ArchiveJobState → ℕ
row_rank none = 0
row_rank (some job) = rank job.phase

abbrev pub succeeded : Result TieringError (Unit {0}) → ℕ
succeeded (ok _) = 1
succeeded (err e) = 0

abbrev pub enters : ArchivePhase → Advance → ℕ
enters p a = elim (same_phase a.to p) [ true ↦ 1 | false ↦ 0 ]

-- How many of the calls that ask for the phase succeed, one after another.
unfoldable pub entries : ArchivePhase → List Advance → Option ArchiveJobState → ℕ
entries p [] row = 0
entries p (a ∷ rest) row =
    let (r, row') = advance a row in succeeded r * enters p a + entries p rest row'

same_text : (a b : ArchivePhase) → str_eq (phase_text a) (phase_text b) ≡ same_phase a b
unfolding phase_text
same_text pending pending = refl
same_text pending copied = refl
same_text pending verified = refl
same_text pending dropped = refl
same_text copied pending = refl
same_text copied copied = refl
same_text copied verified = refl
same_text copied dropped = refl
same_text verified pending = refl
same_text verified copied = refl
same_text verified verified = refl
same_text verified dropped = refl
same_text dropped pending = refl
same_text dropped copied = refl
same_text dropped verified = refl
same_text dropped dropped = refl

same_rank : (a b : ArchivePhase) → same_phase a b ≡ true → rank a ≡ rank b
same_rank a b e = ground arith

-- What a call does to the rank of the row's phase.
abbrev Moves : ArchivePhase → ℕ → Result TieringError (Unit {0}) × Option ArchiveJobState → Type 0
Moves to before o =
    (row_rank o.1 ≡ before + succeeded o.0) × (succeeded o.0 ≡ 1 → rank to ≡ before + 1)

update_where-Moves :
    (t : Bool) (to : ArchivePhase) (sum : Option String) (now : ℕ) (job : ArchiveJobState)
    → (t ≡ true → rank to ≡ rank job.phase + 1)
    → Moves to (rank job.phase) (update_where t to sum now job)
unfolding update_where
update_where-Moves true to sum now job h = (h refl, λ _. h refl)
update_where-Moves false to sum now job h = (omega arith, λ e. absurd (omega arith))

update_from-Moves :
    (to before : ArchivePhase) (sum : Option String) (now : ℕ) (row : Option ArchiveJobState)
    → rank to ≡ rank before + 1
    → Moves to (row_rank row) (update_from (some before) to sum now row)
unfolding update_from
update_from-Moves to before sum now none h = (omega arith, λ e. absurd (omega arith))
update_from-Moves to before sum now (some job) h =
    update_where-Moves (str_eq (phase_text job.phase) (phase_text before)) to sum now job
      λ e. omega (arith, same_rank job.phase before (sym (same_text job.phase before) ∙ e))

predecessor-Moves :
    (to : ArchivePhase) (sum : Option String) (now : ℕ) (row : Option ArchiveJobState)
    → Moves to (row_rank row) (update_from (predecessor to) to sum now row)
unfolding predecessor update_from
predecessor-Moves pending sum now row = (omega arith, λ e. absurd (omega arith))
predecessor-Moves copied sum now row = update_from-Moves copied pending sum now row refl
predecessor-Moves verified sum now row = update_from-Moves verified copied sum now row refl
predecessor-Moves dropped sum now row = update_from-Moves dropped verified sum now row refl

advance-Moves :
    (a : Advance) (row : Option ArchiveJobState) → Moves a.to (row_rank row) (advance a row)
unfolding advance
advance-Moves a row =
    elim a.answered
      as (λ b.
        Moves a.to (row_rank row) (
          if b
          then update_from (predecessor a.to) a.to a.sum a.now row
          else (err no_answer, row))) [
            | true ↦ predecessor-Moves a.to a.sum a.now row
            | false ↦ (omega arith, λ e. absurd (omega arith))
          ]

-- A call that succeeds moves the row from the phase before the one asked for into that one, and a
-- call that fails leaves the phase: `advance` raises the rank of the phase by one or by nothing.
advance_steps :
    (a : Advance) (row : Option ArchiveJobState)
    → row_rank (advance a row).1 ≡ row_rank row + succeeded (advance a row).0
advance_steps a row = (advance-Moves a row).0

entered : (p : ArchivePhase) (a : Advance) → enters p a ≡ 1 → rank a.to ≡ rank p
entered p a e = ground (arith, same_rank a.to p)

succeeded_bit : (r : Result TieringError (Unit {0})) → succeeded r ≤ 1
succeeded_bit (ok _) = omega arith
succeeded_bit (err e) = omega arith

enters_bit : (p : ArchivePhase) (a : Advance) → enters p a ≤ 1
enters_bit p a = ground arith

mul_zero : (n : ℕ) → zero * n ≡ 0
mul_zero n = omega arith

-- One more call, with the facts about it as numbers.
one_more :
    (s n e r r' t p : ℕ)
    → s ≤ 1
    → n ≤ 1
    → r' ≡ r + s
    → (s ≡ 1 → t ≡ r + 1)
    → (n ≡ 1 → t ≡ p)
    → e ≤ 1
    → (p ≤ r' → e ≡ 0)
    → (s * n + e ≤ 1) × (p ≤ r → s * n + e ≡ 0)
one_more zero n e r r' t p _ _ moved to_next to_p small none_left =
    (omega (arith, mul_zero n), λ h. omega (arith, mul_zero n, none_left (omega arith)))
one_more (suc zero) zero e r r' t p _ _ moved to_next to_p small none_left =
    (omega arith, λ h. omega (arith, none_left (omega arith)))
one_more (suc zero) (suc zero) e r r' t p _ _ moved to_next to_p small none_left =
    let next = to_next refl in
    let here = to_p refl in
    let none_after = none_left (omega arith) in (omega arith, λ h. absurd (omega arith))
one_more (suc (suc s)) n e r r' t p h _ moved to_next to_p small none_left = absurd (omega arith)
one_more (suc zero) (suc (suc n)) e r r' t p _ h moved to_next to_p small none_left =
    absurd (omega arith)

entries_from :
    (p : ArchivePhase) (calls : List Advance) (row : Option ArchiveJobState)
    → (entries p calls row ≤ 1) × (rank p ≤ row_rank row → entries p calls row ≡ 0)
unfolding entries
entries_from p [] row = (omega arith, λ h. refl)
entries_from p (a ∷ rest) row =
    let moves = advance-Moves a row in
    let later = entries_from p rest (advance a row).1 in
    one_more (succeeded (advance a row).0) (enters p a) (entries p rest (advance a row).1)
      (row_rank row) (row_rank (advance a row).1) (rank a.to) (rank p)
      (succeeded_bit (advance a row).0) (enters_bit p a) moves.0 moves.1 (entered p a) later.0
      later.1

-- Of any sequence of calls of `advance` on one chunk, by any number of processes and starting from
-- any row, at most one that asks for a given phase succeeds.
pub entries_once :
    (p : ArchivePhase) (calls : List Advance) (row : Option ArchiveJobState)
    → entries p calls row ≤ 1
entries_once p calls row = (entries_from p calls row).0
