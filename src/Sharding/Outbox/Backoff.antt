-- ===== src/Sharding/Outbox/Backoff.antt =====
-- ecat-data-sharding/src/outbox/relay.rs: the delay before the next attempt.
use e_cat.Prelude.{ℕ, ◌*◌, ◌^◌, min}
use e_cat.Sharding.Outbox.{second, max_backoff}

-- The delay by its exponent.
abbrev delay : ℕ → ℕ
delay k = min (second * 2 ^ k) max_backoff
