-- ===== src/Sharding/Snowflake/Tests.antt =====
-- Runs of the generator, and its theorems at concrete inputs.
use e_cat.Prelude.{
  ◌+◌, ◌*◌, ◌/◌, ◌%◌, ◌^◌, ◌<◌, ◌≡◌, refl, inl, inr, List, [], ◌∷◌, none, some, arith,
}
use e_cat.Prelude.Int.{ℤ, pos, ◌-ℤ◌}
use e_cat.Prelude.Result.{ok, err}
use e_cat.Sharding.Error.{clock_rollback}
use e_cat.Sharding.Snowflake.{Snowflake, LoopRound, next_id, compose_id, last_ms, attempt, pack}
use e_cat.Sharding.Snowflake.Order.{compose_id_fields}
use e_cat.Sharding.Snowflake.Threads.{
  Shared, Decreasing, Reach, boot, next, load, try, finish, Reach-Decreasing,
}
use e_cat.Sharding.Snowflake.Progress.{Returns, next_id-Returns}

compose_id_fields_example :
    (compose_id 5 7 9 / 2 ^ 22 ≡ 5)
    × (compose_id 5 7 9 / 2 ^ 12 % 2 ^ 10 ≡ 7)
    × (compose_id 5 7 9 % 2 ^ 12 ≡ 9)
    × (compose_id 5 7 9 < 2 ^ 63)
compose_id_fields_example = compose_id_fields 5 7 9 (omega arith) (omega arith) (omega arith)

-- The last of the 4096 identifiers of millisecond 5 is issued.
abbrev exhausted : Snowflake
exhausted = record { worker_id = 7; epoch_ms = pos 1000; state = 5 * 4096 + 4095 }

abbrev quiet_round : ℤ → LoopRound
quiet_round reading = record { reading = reading; meanwhile = none }

waits_for_the_next :
    next_id (quiet_round (pos 1005) ∷ quiet_round (pos 1006) ∷ []) exhausted
    ≡ some (ok (6 * 4194304 + 7 * 4096), record exhausted { state = 6 * 4096 })
unfolding next_id
waits_for_the_next = refl

rollback_is_an_error :
    next_id (quiet_round (pos 1004) ∷ []) exhausted ≡ some (err clock_rollback, exhausted)
unfolding next_id
rollback_is_an_error = refl

-- The round waits, then another thread wins the exchange, then the next sequence is taken.
abbrev contended : List LoopRound
contended =
    quiet_round (pos 1005)
    ∷ record { reading = pos 1006; meanwhile = some (6 * 4096) }
    ∷ quiet_round (pos 1006)
    ∷ quiet_round (pos 1007)
    ∷ []

goes_round_again :
    next_id contended exhausted
    ≡ some (ok (6 * 4194304 + 7 * 4096 + 1), record exhausted { state = 6 * 4096 + 1 })
unfolding next_id
goes_round_again = refl

next_id-Returns_example : Returns exhausted contended (next_id contended exhausted)
unfolding last_ms ◌-ℤ◌
next_id-Returns_example =
    next_id-Returns contended exhausted (inr (inr (inr (inl (refl, ground arith)))))

-- Two threads load the same word; the first exchange wins, the other thread goes round again.
abbrev raced : (s : Shared) × Reach 7 (pos 0) s
unfolding finish attempt
raced = (
  _,
  next
      (next
        (next (next (next (next boot (load 0)) (load 1)) (try 0 (pos 5) _ refl))
          (try 1 (pos 5) _ refl))
        (load 1))
      (try 1 (pos 5) _ refl),
)

raced_ids : raced.0.issued ≡ compose_id 5 7 1 ∷ compose_id 5 7 0 ∷ []
unfolding finish attempt compose_id pack
raced_ids = refl

Reach-Decreasing_example : Decreasing raced.0.issued
Reach-Decreasing_example = Reach-Decreasing 7 (pos 0) (omega arith) raced.1
