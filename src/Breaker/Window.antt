-- ===== src/Breaker/Window.antt =====
-- ecat-circuit-breaker/src/window.rs: the counters of one time window. An `Instant` is the number
-- of nanoseconds since some origin, a `Duration` a number of nanoseconds, and `now` the clock's
-- reading in the critical section that makes the call; `elapsed()` saturates at 0, as `-` does.
-- The counters are u64 and wrap.
use e_cat.Prelude.{ℕ, ◌+◌, ◌-◌, ◌%◌, ◌^◌, Bool, leb, if◌then◌else◌}

pub record SlidingWindow : Type 0 where
  pub successes : ℕ
  pub failures : ℕ
  pub window_start : ℕ
  pub window : ℕ

unfoldable pub new : ℕ → ℕ → SlidingWindow
new now window = record { successes = 0; failures = 0; window_start = now; window = window }

abbrev pub u64_add : ℕ → ℕ → ℕ
u64_add a b = (a + b) % 2 ^ 64

unfoldable pub rotate : ℕ → SlidingWindow → SlidingWindow
rotate now w =
    if leb w.window (now - w.window_start)
    then (record w { successes = 0; failures = 0; window_start = now })
    else w

unfoldable pub count : Bool → SlidingWindow → SlidingWindow
count success w =
    if success
    then (record w { successes = u64_add w.successes 1 })
    else (record w { failures = u64_add w.failures 1 })

unfoldable pub record_outcome : ℕ → Bool → SlidingWindow → SlidingWindow
unfolding rotate count
record_outcome now success w = count success (rotate now w)

-- `total` and `failure_ratio` take `&mut self`: they rotate the window first. A caller goes on
-- with `rotate now w`.
unfoldable pub total : ℕ → SlidingWindow → ℕ
unfolding rotate
total now w = let r = rotate now w in u64_add r.successes r.failures

unfoldable pub clear : ℕ → SlidingWindow → SlidingWindow
clear now w = record w { successes = 0; failures = 0; window_start = now }
