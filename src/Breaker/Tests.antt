-- ===== src/Breaker/Tests.antt =====
-- Runs of the breaker, and its theorems at concrete inputs. Ratios are per mille.
use mathlib.Core.Logic.{dite}
use e_cat.Prelude.{
  ℕ, ◌*◌, ◌/◌, ◌%◌, ◌^◌, ◌≡◌, ◌↔◌, refl, min, max, true, List, [], ◌∷◌, ◌++◌, some, leb, arith,
  dec_lt,
}
use e_cat.Breaker.{
  Floats, BreakerConfig, Inner, Outcome, ok_response, err_response, opened, closed, half_open,
  refused_open, admitted, init, admit, settle, drop_permit, effective_state,
}
use e_cat.Breaker.System.{
  System, Reach, boot, next, start, finish_plain, cancel_probe, enter, Inv, Reach-Inv,
}
use e_cat.Breaker.Recovery.{
  half_open_admits, effective_state-opened_iff, settle_all, settle_all_after_probe,
}
use e_cat.Breaker.Counting.{Event, admits, settles, drops, run, openings, opened_total-run}
use e_cat.Breaker.Layer.{build, Setting, layer_new, build_all, built_layer_admits}

abbrev per_mille : Floats
per_mille = record {
  F64 = ℕ;
  zero_f64 = 0;
  one_f64 = 1000;
  half_f64 = 500;
  from_u64 = λ n. n;
  div_f64 = λ a b. a * 1000 / b;
  ge_f64 = λ a b. leb b a;
  clamp_f64 = λ x lo hi. min (max x lo) hi;
}

abbrev config : BreakerConfig ℕ
config = record { failure_ratio = 500; window = 100; half_open_probes = 1; open_duration = 10 }

data Action : Type 0 where
  begin fail_plain cancel : (now : ℕ) → Action

module _ (c : BreakerConfig ℕ) where
  record Run : Type 0 where
    last : System
    reach : Reach per_mille c last

  turn : Action → Run → Run
  unfolding dec_lt
  turn (begin now) r = record { last = _; reach = next r.reach (start now) }
  turn (fail_plain now) r =
      dite (dec_lt 0 r.last.plain)
        (λ h. record { last = _; reach = next r.reach (finish_plain now err_response h) }) (λ _. r)
  turn (cancel now) r =
      dite (dec_lt 0 r.last.permits)
        (λ h. record { last = _; reach = next r.reach (cancel_probe h) }) (λ _. r)

  drive : List Action → Run → Run
  unfolding turn
  drive [] r = r
  drive (a ∷ rest) r = drive rest (turn a r)

  boot_run : Run
  boot_run = record { last = _; reach = boot 0 }

-- Five failed calls open the breaker at 5; the call at 15 finds it cooled down.
abbrev to_half_open : List Action
to_half_open =
    begin 1
    ∷ fail_plain 1
    ∷ begin 2
    ∷ fail_plain 2
    ∷ begin 3
    ∷ fail_plain 3
    ∷ begin 4
    ∷ fail_plain 4
    ∷ begin 5
    ∷ fail_plain 5
    ∷ begin 15
    ∷ []

-- A probe is borrowed and cancelled.
abbrev cancelled : Run config
cancelled = drive config (to_half_open ++ begin 16 ∷ cancel 17 ∷ []) (boot_run config)

abbrev probing : Run config
probing = drive config (to_half_open ++ begin 16 ∷ []) (boot_run config)

cancelled_state : cancelled.last.inner.state ≡ half_open
unfolding drive boot_run enter admit settle init drop_permit
cancelled_state = refl

half_open_admits_example : (admit per_mille config 18 cancelled.last.inner).1 ≡ admitted true
unfolding drive boot_run enter admit settle init drop_permit
half_open_admits_example =
    half_open_admits per_mille config cancelled.last 18 (omega arith) (omega arith) cancelled.reach
      refl refl

Reach-Inv_example : Inv per_mille config probing.last
Reach-Inv_example = Reach-Inv per_mille config (omega arith) probing.reach

effective_state-opened_iff_example :
    (effective_state per_mille config 17 probing.last.inner ≡ opened)
    ↔ ((admit per_mille config 17 probing.last.inner).1 ≡ refused_open)
effective_state-opened_iff_example =
    effective_state-opened_iff per_mille config probing.last 17 (omega arith) probing.reach

abbrev tripped : Inner
tripped = record {
  state = opened;
  window = record { successes = 0; failures = 5; window_start = 0; window = 100 };
  opened_at = some 5;
  half_open_count = 0;
  opened_total = 1;
}

abbrev trial : Inner
trial = record tripped { state = half_open }

-- A response that `classify` calls a failure closes the half-open breaker.
failure_closes : (settle per_mille config 20 (ok_response (some true)) trial).state ≡ closed
unfolding settle
failure_closes = refl

abbrev history : List Event
history =
    admits 1
    ∷ settles 1 err_response
    ∷ settles 2 err_response
    ∷ settles 3 err_response
    ∷ settles 4 err_response
    ∷ settles 5 err_response
    ∷ admits 20
    ∷ admits 21
    ∷ drops
    ∷ settles 22 err_response
    ∷ []

opened_twice : (run per_mille config history (init per_mille config 0)).opened_total ≡ 2
unfolding run init
opened_twice = refl

opened_total-run_example :
    (run per_mille config history (init per_mille config 0)).opened_total
    ≡ openings per_mille config history (init per_mille config 0) % 2 ^ 64
opened_total-run_example = opened_total-run per_mille config 0 history

abbrev four_errors : List (ℕ × Outcome)
four_errors = (21, err_response) ∷ (22, err_response) ∷ (23, err_response) ∷ (24, err_response) ∷ []

settle_all_after_probe_example :
    (settle_all per_mille config four_errors
      (settle per_mille config 20 (ok_response (some true)) trial)).state
    ≡ closed
settle_all_after_probe_example =
    settle_all_after_probe per_mille config trial 20 (some true) four_errors refl (omega arith)

abbrev settings : List (Setting ℕ ℕ)
settings = Setting.half_open_probes 0 (omega arith) ∷ Setting.open_duration 10 ∷ []

abbrev cancelled_layer : Run (build_all per_mille settings (layer_new per_mille)).config
cancelled_layer = drive _ (to_half_open ++ begin 16 ∷ cancel 17 ∷ []) (boot_run _)

built_layer_admits_example :
    (admit per_mille
      (build_all per_mille settings (layer_new per_mille)).config
      18
      cancelled_layer.last.inner).1
    ≡ admitted true
unfolding drive boot_run enter admit settle init drop_permit build_all layer_new build
built_layer_admits_example =
    built_layer_admits per_mille settings cancelled_layer.last 18 cancelled_layer.reach refl refl
