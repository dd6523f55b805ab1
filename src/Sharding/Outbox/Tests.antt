-- ===== src/Sharding/Outbox/Tests.antt =====
-- A table with a record that is leased, one that is done and one that waits, and the theorems on it.
use e_cat.Prelude.{ℕ, String, ◌≡◌, refl, Bool, false, none, some, List, [], ◌∷◌, arith}
use e_cat.Prelude.Result.{ok}
use e_cat.Sharding.Outbox.{
  OutboxRow, pending, processing, done, failed, Table, answered, lost, has_id, claim, as_str, parse,
}
use e_cat.Sharding.Outbox.Keys.{find_row, status_of, UniqueIds}
use e_cat.Sharding.Outbox.Steps.{Steps}
use e_cat.Sharding.Outbox.Refines.{run_all-Steps}
use e_cat.Sharding.Outbox.Runs.{run, Op, claims, marks_done, marks_failed, run_all, run_all_done}
use e_cat.Sharding.Outbox.Lease.{claim_respects_lease}
use e_cat.Sharding.Outbox.Relay.{RelayReport, Delivery}

abbrev by_length : String → String → Bool
by_length a b = false

abbrev row : OutboxRow
row = record {
  id = "a";
  aggregate = "orders";
  payload = 1 ∷ [];
  status = processing;
  attempts = 0;
  next_attempt_at = 10;
  claimed_at = some 100;
}

abbrev table : Table
table =
    row
    ∷ record row { id = "b"; status = done }
    ∷ record row { id = "c"; status = pending; claimed_at = none }
    ∷ []

abbrev far : ℕ
far = 1000000000000000

table-UniqueIds : UniqueIds table
unfolding has_id
table-UniqueIds = (refl, (refl, (refl, tt)))

abbrev some_ops : List Op
some_ops = claims answered 5 20 200 ∷ marks_failed lost "b" 1 201 ∷ marks_done answered "a" ∷ []

run_all-Steps_example :
    UniqueIds (run_all by_length far some_ops table)
    × Steps far "a" some_ops
        (status_of "a" table)
        (status_of "a" (run_all by_length far some_ops table))
run_all-Steps_example = run_all-Steps by_length far "a" some_ops table table-UniqueIds

run_all_done_example : status_of "b" (run_all by_length far some_ops table) ≡ some done
run_all_done_example = run_all_done by_length far "b" some_ops table table-UniqueIds refl

claim_respects_lease_example :
    (find_row "a" (claim by_length far answered 5 50 120 table).1 ≡ some row)
    × ((rows : Table)
        → (claim by_length far answered 5 50 120 table).0 ≡ ok rows
        → has_id "a" rows ≡ false)
claim_respects_lease_example =
    claim_respects_lease by_length far "a" answered 5 50 120 100 table row table-UniqueIds refl refl
      refl (omega arith)

abbrev refusing : OutboxRow → Delivery
refusing r = record { handled = false; reply = answered; now = 130 }

abbrev one_failed : RelayReport
one_failed = record { claimed = 1; done = 0; failed = 1 }

abbrev leased_again : List Op
leased_again = claims answered 5 20 200 ∷ claims answered 5 20 30000000300 ∷ []

-- The lease of "a" ended, and another relay has leased it again.
second_lease : status_of "a" (run_all by_length far leased_again table) ≡ some processing
unfolding run_all run
second_lease = refl

-- A late failure of the first relay takes the record from the second.
late_failure :
    status_of "a" (
      run by_length far
        (marks_failed answered "a" 1 30000000301)
        (run_all by_length far leased_again table))
    ≡ some failed
unfolding run_all run
late_failure = refl

status_read_back : parse (as_str failed) ≡ ok failed
unfolding as_str parse
status_read_back = refl
