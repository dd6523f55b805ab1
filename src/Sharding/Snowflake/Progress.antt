-- ===== src/Sharding/Snowflake/Progress.antt =====
-- ecat-data-sharding/src/id.rs: when `next_id` returns, and with what.
use e_cat.Prelude.{
  ℕ, ◌≤◌, ◌≡◌, ◌≢◌, ◌⊎◌, inl, inr, refl, Bool, true, false, ◌==◌, Option, none, some, List, [], ◌∷◌,
  arith,
}
use e_cat.Prelude.Int.{ℤ, ◌-ℤ◌, pos_part}
use e_cat.Prelude.Result.{Result, ok, err}
use e_cat.Sharding.Error.{ShardError, clock_rollback, id_out_of_range}
use e_cat.Sharding.Snowflake.Order.{attempt-Published}
use e_cat.Sharding.Snowflake.{
  Snowflake, LoopRound, shared, Attempt, failed, spin, publish, attempt, pack, compose_id, next_id,
  last_ms, max_sequence, max_timestamp,
}

-- In some round nothing is published meanwhile, and the reading lies in another millisecond than the
-- last identifier at that time.
abbrev pub Moves : Snowflake → List LoopRound → Type 0
Moves g [] = ⊥
Moves g (r ∷ later) =
    ((r.meanwhile ≡ none) × (some (pos_part (r.reading -ℤ g.epoch_ms)) ≢ last_ms g.state))
    ⊎ Moves (shared r.meanwhile g) later

-- What the other threads have made of the generator after one of the rounds.
abbrev pub LeftByOthers : Snowflake → List LoopRound → Snowflake → Type 0
LeftByOthers g [] g' = ⊥
LeftByOthers g (r ∷ later) g' =
    (g' ≡ shared r.meanwhile g) ⊎ LeftByOthers (shared r.meanwhile g) later g'

abbrev pub Returns : Snowflake → List LoopRound → Option (Result ShardError ℕ × Snowflake) → Type 0
Returns g rounds none = ⊥
Returns g rounds (some (err e, g')) =
    LeftByOthers g rounds g' × ((e ≡ clock_rollback) ⊎ (e ≡ id_out_of_range))
Returns g rounds (some (ok id, g')) =
    (t : ℕ) × (q : ℕ) × (id ≡ compose_id t g.worker_id q)
    × (g' ≡ record g { state = pack t q })
    × (t ≤ max_timestamp)
    × (q ≤ max_sequence)

spin_same_ms :
    (g : Snowflake) (reading : ℤ)
    → attempt g.epoch_ms g.state reading ≡ spin
    → some (pos_part (reading -ℤ g.epoch_ms)) ≡ last_ms g.state
unfolding attempt ◌-ℤ◌
spin_same_ms g reading h = ground arith

attempt_error :
    (g : Snowflake) (reading : ℤ) (e : ShardError)
    → attempt g.epoch_ms g.state reading ≡ failed e
    → (e ≡ clock_rollback) ⊎ (e ≡ id_out_of_range)
unfolding attempt
attempt_error g reading e h = ground arith

-- A result of the later rounds is one of all rounds.
later-Returns :
    (m : Option ℕ) (reading : ℤ) (later : List LoopRound) (g : Snowflake)
    (x : Option (Result ShardError ℕ × Snowflake))
    → Returns (shared m g) later x
    → Returns g (record { reading = reading; meanwhile = m } ∷ later) x
later-Returns m reading later g none h = h
later-Returns m reading later g (some (err e, g')) h = (inr h.0, h.1)
later-Returns none reading later g (some (ok id, g')) h = h
later-Returns (some word) reading later g (some (ok id, g')) h = h

module _ (later : List LoopRound) (g : Snowflake) where
  exchanged :
      (m : Option ℕ) (reading : ℤ) (t q : ℕ) (b : Bool)
      → ((shared m g).state == g.state) ≡ b
      → attempt g.epoch_ms g.state reading ≡ publish t q
      → ((m ≡ none) × (some (pos_part (reading -ℤ g.epoch_ms)) ≢ last_ms g.state))
        ⊎ Moves (shared m g) later
      → (Moves (shared m g) later → Returns (shared m g) later (next_id later (shared m g)))
      → Returns g
          (record { reading = reading; meanwhile = m } ∷ later)
          (next_id (record { reading = reading; meanwhile = m } ∷ later) g)
  unfolding next_id
  exchanged m reading t q true b h moved rest =
      let p = attempt-Published g.epoch_ms reading g.state t q h in
      rw (h, b, Returns) (t, q, refl, refl, p.timed, p.counted)
  exchanged m reading t q false b h (inl (alone, other)) rest = absurd (ground arith)
  exchanged m reading t q false b h (inr moved) rest =
      rw (h, b, Returns) (later-Returns m reading later g (next_id later (shared m g)) (rest moved))

  next_id-step :
      (m : Option ℕ) (reading : ℤ) (a : Attempt)
      → attempt g.epoch_ms g.state reading ≡ a
      → ((m ≡ none) × (some (pos_part (reading -ℤ g.epoch_ms)) ≢ last_ms g.state))
        ⊎ Moves (shared m g) later
      → (Moves (shared m g) later → Returns (shared m g) later (next_id later (shared m g)))
      → Returns g
          (record { reading = reading; meanwhile = m } ∷ later)
          (next_id (record { reading = reading; meanwhile = m } ∷ later) g)
  unfolding next_id
  next_id-step m reading (failed e) h moved rest =
      rw (h, Returns) (inl refl, attempt_error g reading e h)
  next_id-step m reading spin h (inl (alone, other)) rest =
      absurd (other (spin_same_ms g reading h))
  next_id-step m reading spin h (inr moved) rest =
      rw (h, Returns) (later-Returns m reading later g (next_id later (shared m g)) (rest moved))
  next_id-step m reading (publish t q) h moved rest =
      exchanged m reading t q ((shared m g).state == g.state) refl h moved rest

-- If in one of its rounds the clock shows another millisecond than the last identifier's, and no other
-- thread publishes between the load and the exchange of that round, the loop ends, whatever other
-- threads publish in the other rounds: it returns an identifier of the generator's worker with a timestamp
-- and a sequence in range, and leaves exactly these packed in the state word; or it reports a clock
-- that went back or a time out of range, and leaves the generator as the other threads have left it.
pub next_id-Returns :
    (rounds : List LoopRound) (g : Snowflake) → Moves g rounds → Returns g rounds (next_id rounds g)
next_id-Returns [] g moved = absurd moved
next_id-Returns (r ∷ later) g moved =
    next_id-step later g r.meanwhile r.reading (attempt g.epoch_ms g.state r.reading) refl moved
      (next_id-Returns later (shared r.meanwhile g))
