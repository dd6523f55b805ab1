-- ===== src/Breaker/Recovery.antt =====
-- ecat-circuit-breaker/src/breaker.rs: a breaker that opened can always be left again.
use e_cat.Prelude.{
  ℕ, suc, ◌+◌, ◌-◌, ◌^◌, ◌≤◌, ◌<◌, ◌≡◌, ◌↔◌, Bool, true, false, Option, some, List, [], ◌∷◌, arith,
  length,
}
use e_cat.Breaker.{
  Floats, BreakerConfig, Inner, closed, opened, half_open, admitted, refused_open, refused_probes,
  Outcome, ok_response, admit, settle, effective_state,
}
use e_cat.Breaker.Window.{clear}
use e_cat.Breaker.System.{System, Reach, Reach-Inv}

module _ (fl : Floats) (c : BreakerConfig fl.F64) where
  -- No lockout: of a reachable breaker that is half-open and has a probe limit from 1 to the
  -- largest u32, the next call is let through with a permit as soon as no permit is in flight,
  -- however many probes were cancelled before.
  pub half_open_admits :
      (s : System) (now : ℕ)
      → 0 < c.half_open_probes
      → c.half_open_probes < 2 ^ 32
      → Reach fl c s
      → s.inner.state ≡ half_open
      → s.permits ≡ 0
      → (admit fl c now s.inner).1 ≡ admitted true
  unfolding admit
  half_open_admits s now pos small r e none_out = ground (arith, Reach-Inv fl c small r)

  -- A call is refused for want of probes only while some other call holds a permit, provided that
  -- the probe limit is from 1 to the largest u32.
  refused_probes_waits :
      (s : System) (now : ℕ)
      → 0 < c.half_open_probes
      → c.half_open_probes < 2 ^ 32
      → Reach fl c s
      → (admit fl c now s.inner).1 ≡ refused_probes
      → (s.inner.state ≡ half_open) × (0 < s.permits)
  unfolding admit
  refused_probes_waits s now pos small r e = ground (arith, Reach-Inv fl c small r)

  -- In every reachable state `state()` reports open exactly when a call made at the same instant
  -- would be refused as open: a caller that skips the endpoints reported open skips no endpoint
  -- that would let it through.
  pub effective_state-opened_iff :
      (s : System) (now : ℕ)
      → c.half_open_probes < 2 ^ 32
      → Reach fl c s
      → (effective_state fl c now s.inner ≡ opened) ↔ ((admit fl c now s.inner).1 ≡ refused_open)
  unfolding effective_state admit
  effective_state-opened_iff s now small r = ground (arith, Reach-Inv fl c small r)

  -- An open breaker refuses every call before `open_duration` has passed and stays as it is; from
  -- then on the next call is let through, without a permit, and leaves the breaker half-open with
  -- no probe counted.
  opened_cooldown :
      (i : Inner) (now opened_at : ℕ)
      → i.state ≡ opened
      → i.opened_at ≡ some opened_at
      → (now - opened_at < c.open_duration → admit fl c now i ≡ (i, refused_open))
        × (c.open_duration ≤ now - opened_at
            → admit fl c now i
              ≡ (record i { state = half_open; half_open_count = 0 }, admitted false))
  unfolding admit
  opened_cooldown i now opened_at e t = (λ h. ground arith, λ h. ground arith)

  pub settle_all : List (ℕ × Outcome) → Inner → Inner
  settle_all [] i = i
  settle_all ((now, o) ∷ os) i = settle_all os (settle fl c now o i)

  abbrev recorded : Inner → ℕ
  recorded i = i.window.successes + i.window.failures

  settle_below_five :
      (i : Inner) (now : ℕ) (o : Outcome) (n : ℕ)
      → i.state ≡ closed
      → recorded i + suc n < 5
      → ((settle fl c now o i).state ≡ closed) × (recorded (settle fl c now o i) + n < 5)
  unfolding settle
  settle_below_five i now o n e h = ground arith

  settle_all_below_five :
      (os : List (ℕ × Outcome)) (i : Inner)
      → i.state ≡ closed
      → recorded i + length os < 5
      → (settle_all os i).state ≡ closed
  unfolding settle_all
  settle_all_below_five [] i e h = e
  settle_all_below_five ((now, o) ∷ os) i e h =
      let (still, fewer) = settle_below_five i now o (length os) e h in
      settle_all_below_five os (settle fl c now o i) still fewer

  settle_probe_ok :
      (i : Inner) (now : ℕ) (verdict : Option Bool)
      → i.state ≡ half_open
      → ((settle fl c now (ok_response verdict) i).state ≡ closed)
        × (recorded (settle fl c now (ok_response verdict) i) ≡ 0)
  unfolding settle clear
  settle_probe_ok i now verdict e = ground arith

  -- After a probe that returned `Ok` closed a half-open breaker, no four further results reopen
  -- it, whatever they are, whenever they come and whatever failure ratio is configured: the window
  -- was cleared, and a window trips from five results on.
  pub settle_all_after_probe :
      (i : Inner) (now : ℕ) (verdict : Option Bool) (os : List (ℕ × Outcome))
      → i.state ≡ half_open
      → length os < 5
      → (settle_all os (settle fl c now (ok_response verdict) i)).state ≡ closed
  settle_all_after_probe i now verdict os e h =
      let (shut, clean) = settle_probe_ok i now verdict e in
      settle_all_below_five os (settle fl c now (ok_response verdict) i) shut (omega (arith, clean))
