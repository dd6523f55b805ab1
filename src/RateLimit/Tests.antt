-- ===== src/RateLimit/Tests.antt =====
-- A key with a limit of two requests in ten seconds, and the theorem at it.
use e_cat.Prelude.{ℕ, ◌-◌, ◌≤◌, ◌≡◌, refl, true, some, List, [], ◌∷◌, arith}
use e_cat.RateLimit.{
  MemoryStore, nanos, sweep, count_in, insert, check, let_through, let_through_bounded,
}

abbrev one_bucket : MemoryStore
one_bucket = record { buckets = λ k. some (1, nanos 100); last_sweep = nanos 90 }

abbrev requests : List ℕ
requests = nanos 101 ∷ nanos 105 ∷ nanos 110 ∷ []

one_left : let_through 2 10 "k" requests one_bucket ≡ 1
unfolding let_through check sweep count_in insert
one_left = refl

-- With a limit of 0 a request that finds its window over is let through.
zero_limit_passes : (check 0 10 "k" (nanos 111) one_bucket).1 ≡ true
unfolding check sweep count_in insert
zero_limit_passes = refl

let_through_bounded_example : let_through 2 10 "k" requests one_bucket ≤ 2 - 1
let_through_bounded_example =
    let_through_bounded 2 10 "k" requests 1 (nanos 100) one_bucket refl
      (omega arith, (omega arith, (omega arith, tt))) (omega arith) (omega arith)
