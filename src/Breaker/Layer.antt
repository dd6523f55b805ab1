-- ===== src/Breaker/Layer.antt =====
-- ecat-circuit-breaker/src/tower.rs: the builder of `CircuitBreakerLayer`, and the default
-- configuration of breaker.rs. Durations are in nanoseconds.
use e_cat.Prelude.{ℕ, ◌*◌, ◌^◌, ◌<◌, ◌≡◌, max, List, [], ◌∷◌, Bool, true, Option, none, some, arith}
use e_cat.Breaker.{
  Floats, BreakerConfig, admit, admitted, half_open, Outcome, ok_response, err_response,
}
use e_cat.Breaker.System.{System, Reach}
use e_cat.Breaker.Recovery.{half_open_admits}

abbrev pub seconds : ℕ → ℕ
seconds n = n * 1_000_000_000

unfoldable pub default_config : (fl : Floats) → BreakerConfig fl.F64
default_config fl = record {
  failure_ratio = fl.half_f64;
  window = seconds 30;
  half_open_probes = 3;
  open_duration = seconds 10;
}

-- `T` is the type of the downstream response.
pub record CircuitBreakerLayer (F T : Type 0) : Type 0 where
  pub config : BreakerConfig F
  pub classify : Option (T → Bool)

-- A call of a builder method. `half_open_probes` takes a u32.
pub data Setting (F T : Type 0) : Type 0 where
  classify_by : (T → Bool) → Setting F T
  failure_ratio : F → Setting F T
  window : ℕ → Setting F T
  half_open_probes : (n : ℕ) → n < 2 ^ 32 → Setting F T
  open_duration : ℕ → Setting F T

module _ (fl : Floats) {T : Type 0} where
  unfoldable pub layer_new : CircuitBreakerLayer fl.F64 T
  unfolding default_config
  layer_new = record { config = default_config fl; classify = none }

  unfoldable pub build :
      Setting fl.F64 T → CircuitBreakerLayer fl.F64 T → CircuitBreakerLayer fl.F64 T
  build (classify_by f) l = record l { classify = some f }
  build (failure_ratio r) l = record l {
    config = record l.config { failure_ratio = fl.clamp_f64 r fl.zero_f64 fl.one_f64 };
  }
  build (window d) l = record l { config = record l.config { window = d } }
  build (half_open_probes n _) l = record l {
    config = record l.config { half_open_probes = max n 1 };
  }
  build (open_duration d) l = record l { config = record l.config { open_duration = d } }

  unfoldable pub build_all :
      List (Setting fl.F64 T) → CircuitBreakerLayer fl.F64 T → CircuitBreakerLayer fl.F64 T
  build_all [] l = l
  build_all (s ∷ ss) l = build_all ss (build s l)

  -- How the service reads the result that it awaited: `Ok` through the callback.
  unfoldable pub outcome_of : Option (T → Bool) → Option T → Outcome
  outcome_of _ none = err_response
  outcome_of none (some response) = ok_response none
  outcome_of (some f) (some response) = ok_response (some (f response))

  abbrev HasProbes : CircuitBreakerLayer fl.F64 T → Type 0
  HasProbes l = (0 < l.config.half_open_probes) × (l.config.half_open_probes < 2 ^ 32)

  build-HasProbes :
      (s : Setting fl.F64 T) (l : CircuitBreakerLayer fl.F64 T)
      → HasProbes l
      → HasProbes (build s l)
  unfolding build
  build-HasProbes (classify_by f) l h = h
  build-HasProbes (failure_ratio r) l h = h
  build-HasProbes (window d) l h = h
  build-HasProbes (half_open_probes n small) l h = omega arith
  build-HasProbes (open_duration d) l h = h

  build_all-HasProbes :
      (ss : List (Setting fl.F64 T)) (l : CircuitBreakerLayer fl.F64 T)
      → HasProbes l
      → HasProbes (build_all ss l)
  unfolding build_all
  build_all-HasProbes [] l h = h
  build_all-HasProbes (s ∷ ss) l h = build_all-HasProbes ss (build s l) (build-HasProbes s l h)

  -- However a layer is configured by its builder methods, a service of it is never locked out: a
  -- reachable half-open breaker with no permit in flight lets the next call through.
  pub built_layer_admits :
      (ss : List (Setting fl.F64 T)) (s : System) (now : ℕ)
      → Reach fl (build_all ss layer_new).config s
      → s.inner.state ≡ half_open
      → s.permits ≡ 0
      → (admit fl (build_all ss layer_new).config now s.inner).1 ≡ admitted true
  built_layer_admits ss s now r e none_out =
      let (pos, small) = build_all-HasProbes ss layer_new fresh in
      half_open_admits fl (build_all ss layer_new).config s now pos small r e none_out
    where
      fresh : HasProbes layer_new
      fresh = unfold layer_new in omega arith
