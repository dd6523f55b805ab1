-- ===== src/Retry.antt =====
-- ecat-middleware/src/retry.rs: the delays and the number of retries. Durations are nanoseconds,
-- and a rule is given by what it says of each result.
mod Tests
use e_cat.Prelude.{
  ℕ, suc, ◌+◌, ◌-◌, ◌*◌, ◌%◌, ◌^◌, ◌≤◌, ◌<◌, min, ◌≡◌, Bool, true, false, Option, none, some, List,
  [], ◌∷◌, leb, if◌then◌else◌, arith, dec_lt,
}
use native.Mathlib.Nat.{pow-le-pow_right, mul-le-mul_left}

-- `saturating_mul` on u128, then the cut to a u64 of nanoseconds.
unfoldable pub exponential_backoff : ℕ → ℕ → ℕ → ℕ
exponential_backoff base max_delay retry_number =
    min (min (min (base * 2 ^ min (retry_number - 1) 127) (2 ^ 128 - 1)) (2 ^ 64 - 1)) max_delay

pub record RetryPolicy : Type 0 where
  pub max_attempts : ℕ
  pub base_delay : ℕ
  pub max_delay : ℕ
  pub attempts : ℕ

-- `Policy::retry`: the delay before the next try, if there is one, and the policy after it.
unfoldable pub retry : RetryPolicy → Bool → Option ℕ × RetryPolicy
unfolding exponential_backoff
retry p should_retry =
    let q = record p { attempts = (p.attempts + 1) % 2 ^ 32 } in
    if leb q.max_attempts q.attempts
    then (none, q)
    else if should_retry
    then (some (exponential_backoff q.base_delay q.max_delay q.attempts), q)
    else (none, q)

abbrev count_if : Option ℕ → ℕ → ℕ
count_if none rest = 0
count_if (some delay) rest = suc rest

-- The retries of one request over the results of its tries.
unfoldable pub retries : RetryPolicy → List Bool → ℕ
unfolding retry
retries p [] = 0
retries p (flag ∷ flags) =
    let rest = retries (retry p flag).1 flags in count_if (retry p flag).0 rest

retry_keeps :
    (p : RetryPolicy) (flag : Bool)
    → ((retry p flag).1.max_attempts ≡ p.max_attempts)
      × ((retry p flag).1.attempts ≡ (p.attempts + 1) % 2 ^ 32)
unfolding retry
retry_keeps p flag = ground arith

granted_below :
    (p : RetryPolicy) (flag : Bool) (n : ℕ)
    → count_if (retry p flag).0 n ≤ n + 1
      × (p.max_attempts ≤ (p.attempts + 1) % 2 ^ 32 → count_if (retry p flag).0 n ≡ 0)
unfolding retry
granted_below p flag n = ground arith

-- A policy that has made `attempts` tries makes at most `max_attempts - 1 - attempts` retries,
-- none if this is below 0, whatever the results are; the limit is a u32, and the number of tries
-- below the largest one.
pub retries_bounded :
    (p : RetryPolicy) (flags : List Bool)
    → p.max_attempts < 2 ^ 32
    → p.attempts + 1 < 2 ^ 32
    → retries p flags ≤ p.max_attempts - 1 - p.attempts
unfolding retries
retries_bounded p [] small started = omega arith
retries_bounded p (flag ∷ flags) small started =
    let q = (retry p flag).1 in
    let (same, next) = retry_keeps p flag in
    let (one, stop) = granted_below p flag (retries q flags) in
    elim (dec_lt (p.attempts + 1) p.max_attempts) [
      | yes more ↦
          let rest = retries_bounded q flags (omega (arith, same)) (omega (arith, next)) in
          omega (arith, rest, same, next, one)
      | no last ↦ omega (arith, stop (omega arith))
    ]

-- A later retry never waits less than an earlier one, and no retry more than `max_delay`.
backoff_grows :
    (base max_delay m n : ℕ)
    → (exponential_backoff base max_delay m ≤ exponential_backoff base max_delay (m + n))
      × (exponential_backoff base max_delay m ≤ max_delay)
unfolding exponential_backoff
backoff_grows base max_delay m n =
    let factor : 2 ^ min (m - 1) 127 ≤ 2 ^ min (m + n - 1) 127 =
      pow-le-pow_right (omega arith) (omega arith) in
    let product = mul-le-mul_left base factor in (omega (arith, product), omega arith)
