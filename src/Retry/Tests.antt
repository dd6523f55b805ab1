-- ===== src/Retry/Tests.antt =====
-- Retries and delays of a policy with four tries.
use e_cat.Prelude.{◌-◌, ◌≤◌, ◌≡◌, refl, true, [], ◌∷◌, arith}
use e_cat.Retry.{exponential_backoff, RetryPolicy, retry, retries, retries_bounded}

abbrev four : RetryPolicy
four = record { max_attempts = 4; base_delay = 100; max_delay = 250; attempts = 0 }

all_failing : retries four (true ∷ true ∷ true ∷ true ∷ true ∷ []) ≡ 3
unfolding retries retry
all_failing = refl

delays : exponential_backoff 100 250 2 ≡ 200
unfolding exponential_backoff
delays = refl

retries_bounded_example : retries four (true ∷ true ∷ true ∷ true ∷ true ∷ []) ≤ 4 - 1 - 0
retries_bounded_example =
    retries_bounded four (true ∷ true ∷ true ∷ true ∷ true ∷ []) (omega arith) (omega arith)
