-- ===== src/Sharding/Snowflake/Order.antt =====
-- ecat-data-sharding/src/id.rs: the fields of an identifier, and what one round of the loop does.
use e_cat.Prelude.{ℕ, ◌+◌, ◌*◌, ◌/◌, ◌%◌, ◌^◌, ◌<◌, ◌≤◌, ◌≡◌, ◌⊎◌, arith}
use e_cat.Prelude.Bits.{bit_or-shift}
use e_cat.Prelude.Int.{ℤ}
use e_cat.Sharding.Snowflake.{
  publish, attempt, pack, compose_id, max_sequence, max_worker_id, max_timestamp, state_unset,
}

pub pack_as_sum : (t q : ℕ) → q ≤ max_sequence → pack t q ≡ t * 4096 + q
unfolding pack
pack_as_sum t q h = omega (arith, bit_or-shift 12 t q (omega arith))

pub compose_id_as_sum :
    (t w q : ℕ)
    → w ≤ max_worker_id
    → q ≤ max_sequence
    → compose_id t w q ≡ t * 4194304 + w * 4096 + q
unfolding compose_id
compose_id_as_sum t w q hw hq = ground (
  arith,
  bit_or-shift 22 t (w * 4096) (omega arith),
  bit_or-shift 12 (t * 1024 + w) q (omega arith),
)

-- The three fields can be read back from an identifier, and it fits a non-negative i64, if the
-- worker and the sequence fit their 10 and 12 bits and the timestamp its 41.
pub compose_id_fields :
    (t w q : ℕ)
    → t ≤ max_timestamp
    → w ≤ max_worker_id
    → q ≤ max_sequence
    → (compose_id t w q / 2 ^ 22 ≡ t)
      × (compose_id t w q / 2 ^ 12 % 2 ^ 10 ≡ w)
      × (compose_id t w q % 2 ^ 12 ≡ q)
      × (compose_id t w q < 2 ^ 63)
compose_id_fields t w q ht hw hq = omega (arith, compose_id_as_sum t w q hw hq)

-- What one round publishes is in range, and later than what the state word holds.
pub record Published (state t q : ℕ) : Type 0 where
  pub timed : t ≤ max_timestamp
  pub counted : q ≤ max_sequence
  pub newer : (state ≡ state_unset) ⊎ (state < t * 4096 + q)

pub attempt-Published :
    (epoch reading : ℤ) (state t q : ℕ)
    → attempt epoch state reading ≡ publish t q
    → Published state t q
unfolding attempt
attempt-Published epoch reading state t q e = ground arith
