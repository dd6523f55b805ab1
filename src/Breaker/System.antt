-- ===== src/Breaker/System.antt =====
-- ecat-circuit-breaker/src/breaker.rs: any number of concurrent `Breaker::call`s. A call in flight
-- awaits its downstream future; it stands only for the permit that it may hold, so the calls in
-- flight are two numbers.
use e_cat.Prelude.{ℕ, ◌+◌, ◌-◌, ◌^◌, ◌≤◌, ◌<◌, ◌≡◌, true, false, Option, none, some, arith}
use e_cat.Breaker.{
  Floats, BreakerConfig, Inner, BreakerState, closed, half_open, Admission, admitted, refused_open,
  refused_probes, Outcome, init, admit, settle, drop_permit,
}

pub record System : Type 0 where
  pub inner : Inner
  pub permits : ℕ  -- calls in flight that hold an armed `ProbePermit`
  pub plain : ℕ  -- calls in flight without one

after_admission : System → Inner × Admission → System
after_admission s (i, refused_open) = record s { inner = i }
after_admission s (i, refused_probes) = record s { inner = i }
after_admission s (i, admitted true) = record s { inner = i; permits = s.permits + 1 }
after_admission s (i, admitted false) = record s { inner = i; plain = s.plain + 1 }

module _ (fl : Floats) (c : BreakerConfig fl.F64) where
  unfoldable pub enter : ℕ → System → System
  unfolding after_admission
  enter now s = after_admission s (admit fl c now s.inner)

  -- A call starts, returns from its downstream call, or is cancelled by dropping its future.
  pub data Step (s : System) : System → Type 0 where
    start : (now : ℕ) → Step s (enter now s)
    finish_probe :
        (now : ℕ) (o : Outcome)
        → 0 < s.permits
        → Step s (record s { inner = settle fl c now o s.inner; permits = s.permits - 1 })
    finish_plain :
        (now : ℕ) (o : Outcome)
        → 0 < s.plain
        → Step s (record s { inner = settle fl c now o s.inner; plain = s.plain - 1 })
    cancel_probe :
        0 < s.permits → Step s (record s { inner = drop_permit s.inner; permits = s.permits - 1 })
    cancel_plain : 0 < s.plain → Step s (record s { plain = s.plain - 1 })

  abbrev pub fresh : ℕ → System
  fresh now = record { inner = init fl c now; permits = 0; plain = 0 }

  pub data Reach : System → Type 0 where
    boot : (now : ℕ) → Reach (fresh now)
    next : {s t : System} → Reach s → Step s t → Reach t

  abbrev pub WasOpened : Option ℕ → BreakerState → Type 0
  WasOpened none s = s ≡ closed
  WasOpened (some _) s = Unit {0}

  pub record Inv (s : System) : Type 0 where
    pub dated : WasOpened s.inner.opened_at s.inner.state
    pub borrowed : s.inner.state ≡ half_open → s.inner.half_open_count ≤ s.permits
    pub capped : s.inner.half_open_count ≤ c.half_open_probes

  fresh-Inv : (now : ℕ) → Inv (fresh now)
  unfolding init
  fresh-Inv now = ground arith

  enter-Inv : (now : ℕ) (s : System) → c.half_open_probes < 2 ^ 32 → Inv s → Inv (enter now s)
  unfolding enter admit
  enter-Inv now s small v = ground arith

  finish_probe-Inv :
      (now : ℕ) (o : Outcome) (s : System)
      → Inv s
      → Inv (record s { inner = settle fl c now o s.inner; permits = s.permits - 1 })
  unfolding settle
  finish_probe-Inv now o s v = ground arith

  finish_plain-Inv :
      (now : ℕ) (o : Outcome) (s : System)
      → Inv s
      → Inv (record s { inner = settle fl c now o s.inner; plain = s.plain - 1 })
  unfolding settle
  finish_plain-Inv now o s v = ground arith

  cancel_probe-Inv :
      (s : System) → Inv s → Inv (record s { inner = drop_permit s.inner; permits = s.permits - 1 })
  unfolding drop_permit
  cancel_probe-Inv s v = ground arith

  Step-Inv : {s t : System} → c.half_open_probes < 2 ^ 32 → Step s t → Inv s → Inv t
  Step-Inv {s} small (start now) v = enter-Inv now s small v
  Step-Inv {s} small (finish_probe now o h) v = finish_probe-Inv now o s v
  Step-Inv {s} small (finish_plain now o h) v = finish_plain-Inv now o s v
  Step-Inv {s} small (cancel_probe h) v = cancel_probe-Inv s v
  Step-Inv {s} small (cancel_plain h) v = ground arith

  -- In every state that concurrent calls can reach, for a probe limit that is a u32: only a closed
  -- breaker may lack the time of its opening; while half-open, the probes that are counted are no
  -- more than the permits in flight; and the count never passes the configured limit.
  pub Reach-Inv : {s : System} → c.half_open_probes < 2 ^ 32 → Reach s → Inv s
  Reach-Inv small (boot now) = fresh-Inv now
  Reach-Inv small (next r st) = Step-Inv small st (Reach-Inv small r)
