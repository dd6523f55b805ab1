-- ===== src/Breaker/Counting.antt =====
-- ecat-circuit-breaker/src/breaker.rs: `opened_total` against a count of the openings themselves.
use e_cat.Prelude.{ℕ, ◌+◌, ◌%◌, ◌^◌, ◌<◌, ◌≡◌, List, [], ◌∷◌, arith}
use e_cat.Breaker.{
  Floats, BreakerConfig, Inner, BreakerState, opened, Outcome, init, admit, settle, drop_permit,
}

-- What can happen to the breaker's state: a critical section of some call, or a cancelled probe.
pub data Event : Type 0 where
  admits : (now : ℕ) → Event
  settles : (now : ℕ) → Outcome → Event
  drops : Event

abbrev pub is_opening : BreakerState → BreakerState → ℕ
is_opening opened _ = 0
is_opening _ opened = 1
is_opening _ _ = 0

module _ (fl : Floats) (c : BreakerConfig fl.F64) where
  unfoldable pub apply : Event → Inner → Inner
  apply (admits now) i = (admit fl c now i).0
  apply (settles now o) i = settle fl c now o i
  apply drops i = drop_permit i

  unfoldable pub run : List Event → Inner → Inner
  unfolding apply admit settle drop_permit
  run [] i = i
  run (e ∷ es) i = run es (apply e i)

  -- How often the state turned from another state to `Open`.
  unfoldable pub openings : List Event → Inner → ℕ
  openings [] i = 0
  openings (e ∷ es) i = is_opening i.state (apply e i).state + openings es (apply e i)

  opened_total-apply :
      (e : Event) (i : Inner)
      → i.opened_total < 2 ^ 64
      → (apply e i).opened_total ≡ (i.opened_total + is_opening i.state (apply e i).state) % 2 ^ 64
  unfolding apply admit settle drop_permit
  opened_total-apply (admits now) i h = ground arith
  opened_total-apply (settles now o) i h = ground arith
  opened_total-apply drops i h = ground arith

  opened_total-run_from :
      (es : List Event) (i : Inner)
      → i.opened_total < 2 ^ 64
      → (run es i).opened_total ≡ (i.opened_total + openings es i) % 2 ^ 64
  unfolding run openings
  opened_total-run_from [] i h = omega arith
  opened_total-run_from (e ∷ es) i h = omega (
    arith,
    opened_total-apply e i h,
    opened_total-run_from es (apply e i) (omega (arith, opened_total-apply e i h)),
  )

  -- From a new breaker, after any sequence of critical sections and cancellations, `opened_total`
  -- is the number of times that the state turned to open, modulo 2^64: the first opening, each
  -- reopening by a failed probe, and nothing else.
  pub opened_total-run :
      (start : ℕ) (es : List Event)
      → (run es (init fl c start)).opened_total ≡ openings es (init fl c start) % 2 ^ 64
  unfolding init
  opened_total-run start es =
      omega (arith, opened_total-run_from es (init fl c start) (omega arith))
