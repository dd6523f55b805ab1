-- ===== src/Sharding/Outbox/Relay.antt =====
-- ecat-data-sharding/src/outbox/relay.rs: one round of the relay. What the handler answers for a
-- record, and the clock and the database at its mark, are given.
use e_cat.Prelude.{ℕ, ◌+◌, ◌-◌, ◌^◌, min, String, Bool, ◌||◌, [], ◌∷◌, length, ◌==◌, if◌then◌else◌}
use e_cat.Prelude.Exec.{Exec, ◌>>=◌, ◌>>◌, pure, raise}
use e_cat.Sharding.Error.{ShardError, config}
use e_cat.Sharding.Outbox.{OutboxRow, Table, Reply, claim, mark_done, mark_failed, backoff}

pub record RelayReport : Type 0 where
  pub claimed : ℕ
  pub done : ℕ
  pub failed : ℕ

pub record Delivery : Type 0 where
  pub handled : Bool
  pub reply : Reply
  pub now : ℕ

abbrev pub max_u32 : ℕ
max_u32 = 2 ^ 32 - 1

module _ (id_before : String → String → Bool) (max_time : ℕ) (delivery : OutboxRow → Delivery) where
  unfoldable pub deliver_each : Table → RelayReport → Exec Table ShardError RelayReport
  unfolding mark_done mark_failed backoff ◌>>=◌ pure
  deliver_each [] report = pure report
  deliver_each (r ∷ rest) report =
      let d = delivery r in
      let later_done = deliver_each rest (record report { done = report.done + 1 }) in
      let later_failed = deliver_each rest (record report { failed = report.failed + 1 }) in
      if d.handled
      then (do mark_done d.reply r.id; later_done)
      else (do mark_failed max_time d.reply r.id (backoff r.attempts) d.now; later_failed)

  unfoldable pub run_once : ℕ → ℕ → Reply → ℕ → Exec Table ShardError RelayReport
  unfolding claim deliver_each ◌>>=◌ raise
  run_once batch lease reply now = if batch == 0 || lease == 0 then raise config else do
    records ← claim id_before max_time reply batch lease now
    deliver_each records (record { claimed = min (length records) max_u32; done = 0; failed = 0 })
