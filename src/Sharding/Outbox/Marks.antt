-- ===== src/Sharding/Outbox/Marks.antt =====
-- ecat-data-sharding/src/outbox/relay.rs: what a round of the relay makes of the records it claims.
use e_cat.Prelude.{ℕ, ◌+◌, String, ◌≡◌, Bool, false, some, [], ◌∷◌, length, if◌then◌else◌, All}
use e_cat.Prelude.Result.{Result, ok}
use e_cat.Prelude.Exec.{Exec, after}
use e_cat.Prelude.Triple.{Pred}
use e_cat.Sharding.Outbox.{OutboxStatus, done, failed, OutboxRow, Table, Reply, has_id, claim}
use e_cat.Sharding.Outbox.Keys.{find_row, status_of}
use e_cat.Sharding.Outbox.Claimed.{Claimed}
use e_cat.Sharding.Outbox.Relay.{RelayReport, Delivery}
use e_cat.Sharding.Outbox.Becomes.{Becomes}

module _ (id_before : String → String → Bool) (max_time : ℕ) (delivery : OutboxRow → Delivery) where
  abbrev pub outcome : OutboxRow → OutboxStatus
  outcome r = if (delivery r).handled then done else failed

  abbrev pub handled_in : Table → ℕ
  handled_in [] = 0
  handled_in (r ∷ rest) = (if (delivery r).handled then 1 else 0) + handled_in rest

  -- Each record has the status that the handler's answer asks for.
  abbrev pub Marked : Table → Table → Type 0
  Marked rows db = All (λ r. status_of r.id db ≡ some (outcome r)) rows

  -- What a delivery of `rows` has made of the table, and added to the report.
  abbrev Delivered : Table → RelayReport → Table → RelayReport → Pred Table
  Delivered rows before db after db' =
      Marked rows db'
      × ((other : String) → has_id other rows ≡ false → find_row other db' ≡ find_row other db)
      × (after.done ≡ before.done + handled_in rows)
      × (after.done + after.failed ≡ before.done + before.failed + length rows)
      × (after.claimed ≡ before.claimed)

  -- The claims are those of the claim, and the report and the marks are of the same records.
  abbrev pub RelayRound : ℕ → ℕ → Reply → ℕ → Table → RelayReport → Table → Type 0
  RelayRound batch lease reply now db report db' =
      (rows : Table) × (claimed : Table) × (claim id_before max_time reply batch lease now db
        ≡ (ok rows, claimed))
      × (report.claimed ≡ length rows)
      × (report.done ≡ handled_in rows)
      × (report.done + report.failed ≡ length rows)
      × Marked rows db'
      × ((other : String) → has_id other rows ≡ false → find_row other db' ≡ find_row other claimed)
