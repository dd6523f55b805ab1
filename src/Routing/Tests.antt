-- ===== src/Routing/Tests.antt =====
-- A router of two replicas, the first of them with an open breaker, and its theorem at it. Ratios
-- are per mille.
use e_cat.Prelude.{ℕ, ◌*◌, ◌/◌, ◌≡◌, refl, min, max, true, none, some, [], ◌∷◌, leb, arith}
use e_cat.Breaker.{Floats, BreakerConfig, opened, init, effective_state}
use e_cat.Routing.{
  Endpoint, RdbmsRouting, replica, is_available, pick_from, pick_replica, read_target,
}
use e_cat.Routing.Reads.{ReadOk, read_target_complete}

abbrev per_mille : Floats
per_mille = record {
  F64 = ℕ;
  zero_f64 = 0;
  one_f64 = 1000;
  half_f64 = 500;
  from_u64 = λ n. n;
  div_f64 = λ a b. a * 1000 / b;
  ge_f64 = λ a b. leb b a;
  clamp_f64 = λ x lo hi. min (max x lo) hi;
}

abbrev config : BreakerConfig ℕ
config = record { failure_ratio = 500; window = 100; half_open_probes = 1; open_duration = 10 }

abbrev healthy : Endpoint
healthy = record { breaker = init per_mille config 0; replica_lag = some 3 }

abbrev broken : Endpoint
broken = record {
  breaker = record (init per_mille config 0) { state = opened; opened_at = some 5 };
  replica_lag = none;
}

abbrev router : RdbmsRouting
router = record {
  primary = healthy;
  replicas = broken ∷ healthy ∷ [];
  next = 2;
  fallback_to_primary = true;
  max_replica_lag = some 4;
}

-- The broken replica is passed over at 14 and taken again at 15, when it has cooled down.
cooled_down :
    (read_target per_mille config 14 router ≡ replica 1)
    × (read_target per_mille config 15 router ≡ replica 0)
unfolding effective_state is_available pick_from pick_replica read_target init
cooled_down = (refl, refl)

read_target_complete_example :
    ReadOk per_mille config 14 router (read_target per_mille config 14 router)
read_target_complete_example = read_target_complete per_mille config 14 router (omega arith)
