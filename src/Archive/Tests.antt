-- ===== src/Archive/Tests.antt =====
-- A chunk that two processes advance, and the theorems at it.
use e_cat.Prelude.{◌≤◌, ◌≡◌, refl, true, Option, none, some, List, [], ◌∷◌}
use e_cat.Archive.{
  pending, copied, phase_text, ArchiveJobState, predecessor, update_where, update_from, Advance,
  advance,
}
use e_cat.Archive.Once.{entries, entries_once}

abbrev job : Option ArchiveJobState
job =
    some (record {
      low_id = 1;
      high_id = 9;
      rows = 4;
      checksum = none;
      phase = pending;
      updated_at = 0;
    })

abbrev to_copied : Advance
to_copied = record { to = copied; sum = some "9f"; now = 7; answered = true }

abbrev racing : List Advance
racing = to_copied ∷ to_copied ∷ []

one_wins : entries copied racing job ≡ 1
unfolding entries advance update_from update_where predecessor phase_text
one_wins = refl

entries_once_example : entries copied racing job ≤ 1
entries_once_example = entries_once copied racing job
