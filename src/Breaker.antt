-- ===== src/Breaker.antt =====
-- ecat-circuit-breaker/src/breaker.rs: the breaker as the two critical sections of `call` (before
-- and after the awaited downstream call), the drop of a cancelled call's permit, and `state`.
-- Between its two sections a call is in flight, and any other call may run: Breaker/System has
-- those interleavings. Each critical section reads the clock once, as `now`.
pub mod Window
pub mod Layer
pub mod System
pub mod Recovery
pub mod Counting
mod Tests
use e_cat.Prelude.{
  ℕ, ◌+◌, ◌-◌, ◌%◌, ◌^◌, Bool, true, false, not, ◌&&◌, Option, none, some, leb, ◌==◌, if◌then◌else◌,
}
use Window.{SlidingWindow, record_outcome, rotate, total, clear, u64_add}
use Window

pub data BreakerState : Type 0 where
  closed opened half_open : BreakerState

-- The metric's encoding of a state.
unfoldable pub code : BreakerState → ℕ
code closed = 0
code opened = 1
code half_open = 2

-- `f64` is not modelled: what the code does with it is given.
pub record Floats : Type 1 where
  pub F64 : Type 0
  pub zero_f64 : F64
  pub one_f64 : F64
  pub half_f64 : F64
  pub from_u64 : ℕ → F64
  pub div_f64 : F64 → F64 → F64
  pub ge_f64 : F64 → F64 → Bool
  pub clamp_f64 : F64 → F64 → F64 → F64

pub record BreakerConfig (F : Type 0) : Type 0 where
  pub failure_ratio : F
  pub window : ℕ
  pub half_open_probes : ℕ  -- u32
  pub open_duration : ℕ

pub record Inner : Type 0 where
  pub state : BreakerState
  pub window : SlidingWindow
  pub opened_at : Option ℕ
  pub half_open_count : ℕ  -- u32
  pub opened_total : ℕ  -- u64

pub data BreakerError (E : Type 0) : Type 0 where
  rejected_open : BreakerError E
  probes_exhausted : BreakerError E
  inner_error : E → BreakerError E

-- What the first critical section decides: `admitted true` holds a `ProbePermit`.
pub data Admission : Type 0 where
  refused_open : Admission
  refused_probes : Admission
  admitted : (permit : Bool) → Admission

-- What the second critical section reads of the awaited result: for `Ok`, the verdict of the
-- `classify` callback on the response, if there is a callback.
pub data Outcome : Type 0 where
  ok_response : (classified : Option Bool) → Outcome
  err_response : Outcome

abbrev pub is_ok : Outcome → Bool
is_ok (ok_response _) = true
is_ok err_response = false

-- `self.classify.as_ref().is_some_and(|c| c(resp))`, and `Err` counts as a failure.
abbrev pub is_failure : Outcome → Bool
is_failure (ok_response (some verdict)) = verdict
is_failure (ok_response none) = false
is_failure err_response = true

module _ (fl : Floats) where
  open fl use {F64, zero_f64, from_u64, div_f64, ge_f64}

  unfoldable pub init : BreakerConfig F64 → ℕ → Inner
  unfolding Window.new
  init c now = record {
    state = closed;
    window = Window.new now c.window;
    opened_at = none;
    half_open_count = 0;
    opened_total = 0;
  }

  unfoldable pub failure_ratio : ℕ → SlidingWindow → F64
  unfolding rotate total
  failure_ratio now w =
      let sum = total now w in
      if sum == 0 then zero_f64 else div_f64 (from_u64 (rotate now w).failures) (from_u64 sum)

  -- `opened_at.elapsed() >= self.config.open_duration`
  abbrev pub cooled_down : BreakerConfig F64 → ℕ → ℕ → Bool
  cooled_down c now opened_at = leb c.open_duration (now - opened_at)

  -- The `Open` arm, on `opened_at`.
  admit_open : BreakerConfig F64 → ℕ → Option ℕ → Inner → Inner × Admission
  admit_open c now none i = (i, admitted false)
  admit_open c now (some opened_at) i =
      if cooled_down c now opened_at
      then (record i { state = half_open; half_open_count = 0 }, admitted false)
      else (i, refused_open)

  admit_half_open : BreakerConfig F64 → Inner → Inner × Admission
  admit_half_open c i =
      if leb c.half_open_probes i.half_open_count
      then (i, refused_probes)
      else (record i { half_open_count = (i.half_open_count + 1) % 2 ^ 32 }, admitted true)

  admit_in : BreakerState → BreakerConfig F64 → ℕ → Inner → Inner × Admission
  unfolding admit_open admit_half_open
  admit_in opened c now i = admit_open c now i.opened_at i
  admit_in half_open c now i = admit_half_open c i
  admit_in closed c now i = (i, admitted false)

  -- The critical section before `f().await`.
  unfoldable pub admit : BreakerConfig F64 → ℕ → Inner → Inner × Admission
  unfolding admit_in
  admit c now i = admit_in i.state c now i

  trip : ℕ → Inner → Inner
  trip now i = record i {
    state = opened;
    opened_at = some now;
    opened_total = u64_add i.opened_total 1;
  }

  settle_closed : BreakerConfig F64 → ℕ → Inner → Inner
  unfolding trip total rotate failure_ratio
  settle_closed c now i =
      let r = record i { window = rotate now i.window } in
      if leb 5 (total now i.window) && ge_f64 (failure_ratio now i.window) c.failure_ratio
      then trip now r
      else r

  settle_half_open : ℕ → Outcome → Inner → Inner
  unfolding trip clear
  settle_half_open now o i =
      if is_ok o
      then (record i { state = closed; opened_at = none; window = clear now i.window })
      else trip now i

  settle_in : BreakerState → BreakerConfig F64 → ℕ → Outcome → Inner → Inner
  unfolding settle_closed settle_half_open
  settle_in closed c now o i = settle_closed c now i
  settle_in half_open c now o i = settle_half_open now o i
  settle_in opened c now o i = i

  -- The critical section after `f().await`: the outcome is recorded, then the state moves on. The
  -- caller disarms its permit.
  unfoldable pub settle : BreakerConfig F64 → ℕ → Outcome → Inner → Inner
  unfolding settle_in record_outcome
  settle c now o i =
      settle_in i.state c now o
        (record i { window = record_outcome now (not (is_failure o)) i.window })

  effective : BreakerState → Bool → BreakerState
  effective opened true = half_open
  effective s _ = s

  cooled : BreakerConfig F64 → ℕ → Option ℕ → Bool
  cooled c now none = false
  cooled c now (some t) = cooled_down c now t

  -- `Breaker::state`
  unfoldable pub effective_state : BreakerConfig F64 → ℕ → Inner → BreakerState
  unfolding effective cooled
  effective_state c now i = effective i.state (cooled c now i.opened_at)

-- `ProbePermit::drop` on an armed permit: `saturating_sub(1)`.
unfoldable pub drop_permit : Inner → Inner
drop_permit i = record i { half_open_count = i.half_open_count - 1 }
