-- ===== src/Sharding/Snowflake.antt =====
-- ecat-data-sharding/src/id.rs: the Snowflake generator. The state word packs
-- `(relative millisecond << 12) | last sequence`; the clock is outside, and each round of the loop
-- is handed one reading of it. A mask of k ones is a remainder by 2^k, and `>> k` a quotient.
pub mod Order
pub mod Threads
pub mod Progress
mod Tests
use Prim.Native.Nat.{bit_or}
use e_cat.Prelude.{
  ℕ, zero, suc, ◌+◌, ◌-◌, ◌/◌, ◌%◌, ◌^◌, ◌<◌, ◌≤◌, ◌≡◌, Bool, true, false, Option, none, some, List,
  [], ◌∷◌, ltb, leb, ◌==◌, if◌then◌else◌,
}
use e_cat.Prelude.Bits.{◌<<◌}
use e_cat.Prelude.Int.{ℤ, pos, negsuc, ◌-ℤ◌, ltb_ℤ, pos_part}
use e_cat.Prelude.Result.{Result, ok, err}
use e_cat.Sharding.Error.{ShardError, clock_rollback, id_out_of_range}

abbrev pub worker_bits : ℕ
worker_bits = 10

abbrev pub max_worker_id : ℕ
max_worker_id = 2 ^ worker_bits - 1

abbrev pub sequence_bits : ℕ
sequence_bits = 12

abbrev pub max_sequence : ℕ
max_sequence = 2 ^ sequence_bits - 1

abbrev pub max_timestamp : ℕ
max_timestamp = 2 ^ 41 - 1

abbrev pub state_unset : ℕ
state_unset = 2 ^ 64 - 1

pub record Snowflake : Type 0 where
  pub worker_id : ℕ
  pub epoch_ms : ℤ
  pub state : ℕ

-- `div_euclid` by a positive divisor rounds down.
abbrev pub div_euclid : ℤ → ℕ → ℤ
div_euclid (pos n) d = pos (n / d)
div_euclid (negsuc n) d = negsuc (n / d)

abbrev pub in_i64 : ℤ → Bool
in_i64 (pos n) = ltb n (2 ^ 63)
in_i64 (negsuc n) = ltb n (2 ^ 63)

-- `epoch` in nanoseconds, as `unix_timestamp_nanos` gives it.
unfoldable pub with_clock : ℕ → ℤ → Result ShardError Snowflake
with_clock worker_id epoch =
    if ltb max_worker_id worker_id
    then err id_out_of_range
    else let epoch_ms = div_euclid epoch 1_000_000 in
      if in_i64 epoch_ms
      then ok (record { worker_id = worker_id; epoch_ms = epoch_ms; state = state_unset })
      else err id_out_of_range

unfoldable pub compose_id : ℕ → ℕ → ℕ → ℕ
compose_id timestamp worker_id sequence =
    bit_or (bit_or (timestamp << (worker_bits + sequence_bits)) (worker_id << sequence_bits))
      sequence

unfoldable pub last_ms : ℕ → Option ℕ
last_ms state = if state == state_unset then none else some (state / 2 ^ sequence_bits)

-- One round of the loop, up to the exchange.
pub data Attempt : Type 0 where
  failed : ShardError → Attempt
  spin : Attempt
  publish : (timestamp sequence : ℕ) → Attempt

abbrev is_before : ℤ → Option ℕ → Bool
is_before now none = false
is_before now (some last) = ltb_ℤ now (pos last)

abbrev in_range : ℤ → Bool
in_range (pos n) = leb n max_timestamp
in_range (negsuc n) = false

after_sequence : ℕ → ℕ → Attempt
after_sequence now sequence = if sequence == max_sequence then spin else publish now (sequence + 1)

next_sequence : ℕ → ℕ → Option ℕ → Attempt
unfolding after_sequence
next_sequence state now none = publish now 0
next_sequence state now (some last) =
    if now == last then after_sequence now (state % 2 ^ sequence_bits) else publish now 0

unfoldable pub attempt : ℤ → ℕ → ℤ → Attempt
unfolding next_sequence last_ms ◌-ℤ◌
attempt epoch_ms state reading =
    let now = reading -ℤ epoch_ms in
    let last = last_ms state in
    if is_before now last
    then failed clock_rollback
    else if in_range now
    then next_sequence state (pos_part now) last
    else failed id_out_of_range

-- `((now as u64) << SEQUENCE_BITS) | sequence`
unfoldable pub pack : ℕ → ℕ → ℕ
pack timestamp sequence = bit_or (timestamp << sequence_bits) sequence

-- What a round of the loop meets: a reading of the clock, and the word that other threads have
-- published between the round's load and its exchange, if any.
pub record LoopRound : Type 0 where
  pub reading : ℤ
  pub meanwhile : Option ℕ

abbrev pub shared : Option ℕ → Snowflake → Snowflake
shared none g = g
shared (some word) g = record g { state = word }

-- `next_id` of one thread among others, a round for each element of the list. The exchange fails if the
-- word is no longer the one that was loaded; `none` means that the rounds ran out while the loop still
-- waits for the next millisecond or for its exchange.
unfoldable pub next_id : List LoopRound → Snowflake → Option (Result ShardError ℕ × Snowflake)
unfolding attempt pack compose_id
next_id [] g = none
next_id (r ∷ later) g =
    let now = shared r.meanwhile g in
    elim (attempt g.epoch_ms g.state r.reading) [
      | failed e ↦ some (err e, now)
      | spin ↦ next_id later now
      | publish timestamp sequence ↦ elim (now.state == g.state) [
        | true ↦ some (
          ok (compose_id timestamp g.worker_id sequence),
          record g { state = pack timestamp sequence },
        )
        | false ↦ next_id later now
      ]
    ]
