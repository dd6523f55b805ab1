-- ===== src/Archive/Run/Request.antt =====
-- What the requests of an archive run guarantee.
use e_cat.Prelude.{
  ℕ, ◌≡◌, refl, Bool, true, false, Option, none, some, List, [], ◌∷◌, if◌then◌else◌,
}
use text.Mathlib.Text.{◌==◌ as str_eq}
use e_cat.Prelude.Result.{Result, ok, err}
use e_cat.Prelude.Exec.{◌>>=◌, pure, raise}
use e_cat.Prelude.Triple.{Post, bind, conseq}
use e_cat.Archive.{
  ArchivePhase, TieringError, no_answer, phase_text, predecessor, coalesce, ArchiveJobState,
  update_where, update_from, Advance, advance,
}
use e_cat.Archive.Run.{
  ArchiveReport, Store, Answer, answered, refused, lost, Reply, World, M, settle, Act, request_with,
  request, now_utc, tally,
}

-- A `Triple` whose conditions speak of the store alone.
pub record Yields {A : Type 0} (P : Store → Type 0) (m : M A) (Q : A → Store → Type 0)
    (E : Store → Type 0) : Type 0 where
  pub at : (w : World) → P w.store → Post (λ a v. Q a v.store) (λ v. E v.store) (m w)

module _ {A B : Type 0} {P E : Store → Type 0} {Q : A → Store → Type 0}
    {R : B → Store → Type 0} where
  pub chain :
      {m : M A} {f : A → M B}
      → Yields P m Q E
      → ((a : A) → Yields (Q a) (f a) R E)
      → Yields P (m >>= f) R E
  chain {m} {f} first rest = record {
    at =
        (bind {Q = λ a w. Q a w.store} {R = λ b w. R b w.store} {E = λ w. E w.store}
          {P = λ w. P w.store} (record { at = first.at }) (λ a. record { at = (rest a).at })).at;
  }

module _ {A : Type 0} {P P' E : Store → Type 0} {Q Q' : A → Store → Type 0} {m : M A} where
  pub adapt :
      ((s : Store) → P' s → P s)
      → ((a : A) (s : Store) → Q a s → Q' a s)
      → Yields P m Q E
      → Yields P' m Q' E
  adapt pre post t = record {
    at =
        (conseq {E = λ w. E w.store} {E' = λ w. E w.store} {Q = λ a w. Q a w.store}
          {Q' = λ a w. Q' a w.store} {P = λ w. P w.store} {P' = λ w. P' w.store}
          (λ w h. pre w.store h) (λ a w h. post a w.store h) (λ w h. h) (record { at = t.at })).at;
  }

-- A part of the precondition that speaks of no store.
pub given :
    {A F : Type 0} {P E : Store → Type 0} {Q : A → Store → Type 0} {m : M A}
    → (F → Yields P m Q E)
    → Yields (λ s. P s × F) m Q E
given t = record { at = λ w h. (t h.1).at w h.0 }

settle-Post :
    {A : Type 0} (Q : A → Store → Type 0) (E : Store → Type 0) (a : Answer)
    (done : Result TieringError A × Store) (before : Store)
    → Post Q E done
    → E before
    → ((x : A) (s : Store) → Q x s → E s)
    → Post Q E (settle a done before)
settle-Post Q E answered done before h k out = h
settle-Post Q E lost (ok x, s) before h k out = out x s h
settle-Post Q E lost (err e, s) before h k out = h
settle-Post Q E refused done before h k out = k

placed :
    {A : Type 0} (Q : A → Store → Type 0) (E : Store → Type 0) (now : ℕ) (rest : List Reply)
    (o : Result TieringError A × Store)
    → Post Q E o
    → Post {S = World}
        (λ a v. Q a v.store)
        (λ v. E v.store)
        (o.0, record { store = o.1; now = now; replies = rest })
placed Q E now rest (ok a, s) h = h
placed Q E now rest (err e, s) h = h

pub request-Yields :
    {A : Type 0} {P E : Store → Type 0} {Q : A → Store → Type 0} (act : Act A)
    → ((r : Reply) (s : Store) → P s → Post Q E (act r s))
    → ((s : Store) → P s → E s)
    → ((a : A) (s : Store) → Q a s → E s)
    → Yields P (request act) Q E
unfolding request request_with
request-Yields {A} {P} {E} {Q} act step before after_it = record {
  at = λ w h. by_reply w w.replies h;
}
  where
    by_reply :
        (w : World) (replies : List Reply)
        → P w.store
        → Post (λ a v. Q a v.store) (λ v. E v.store) (request_with act w replies)
    by_reply w [] h = before w.store h
    by_reply w (r ∷ rest) h = placed Q E r.at rest (settle r.answer (act r w.store) w.store) (
        settle-Post Q E r.answer (act r w.store) w.store (step r w.store h) (before w.store h)
          after_it)

module _ {P E : Store → Type 0} where
  pub now-Yields : Yields P now_utc (λ _. P) E
  unfolding now_utc
  now-Yields = record { at = λ w h. h }

  pub tally-Yields :
      (f : ArchiveReport → ArchiveReport)
      → ((s : Store) → P s → P (record s { report = f s.report }))
      → Yields P (tally f) (λ _. P) E
  unfolding tally
  tally-Yields f keep = record { at = λ w h. keep w.store h }

module _ {A : Type 0} {P E : Store → Type 0} {Q : A → Store → Type 0} where
  pub pure-Yields : (a : A) → ((s : Store) → P s → Q a s) → Yields P (pure a) Q E
  unfolding pure
  pure-Yields a h = record { at = λ w p. h w.store p }

  pub raise-Yields : (e : TieringError) → ((s : Store) → P s → E s) → Yields P (raise e) Q E
  unfolding raise
  raise-Yields e h = record { at = λ w p. h w.store p }

pub Yields-if :
    {A : Type 0} {P E : Store → Type 0} {Q : A → Store → Type 0} {m n : M A} (b : Bool)
    → (b ≡ true → Yields P m Q E)
    → (b ≡ false → Yields P n Q E)
    → Yields P (if b then m else n) Q E
Yields-if true km kn = km refl
Yields-if false km kn = kn refl

-- `advance` leaves the row, or it changes nothing but the phase, the checksum and the time.
pub advance_row :
    (P : Option ArchiveJobState → Type 0) (a : Advance) (row : Option ArchiveJobState)
    → P row
    → ((job : ArchiveJobState)
        → row ≡ some job
        → P (
            some (record job {
              phase = a.to;
              checksum = coalesce a.sum job.checksum;
              updated_at = a.now;
            })))
    → P (advance a row).1
unfolding advance update_from update_where
advance_row P a row h k = by_answer a.answered
  where
    by_match :
        (job : ArchiveJobState) (t : Bool)
        → row ≡ some job
        → P (some job)
        → P (update_where t a.to a.sum a.now job).1
    by_match job true e p = k job e
    by_match job false e p = p

    by_row :
        (before : ArchivePhase) (o : Option ArchiveJobState)
        → row ≡ o
        → P o
        → P (update_from (some before) a.to a.sum a.now o).1
    by_row before none e p = p
    by_row before (some job) e p =
        by_match job (str_eq (phase_text job.phase) (phase_text before)) e p

    by_predecessor : (o : Option ArchivePhase) → P (update_from o a.to a.sum a.now row).1
    by_predecessor none = h
    by_predecessor (some before) = by_row before row refl h

    by_answer :
        (b : Bool)
        → P
            (if b
              then update_from (predecessor a.to) a.to a.sum a.now row
              else (err no_answer, row)).1
    by_answer true = by_predecessor (predecessor a.to)
    by_answer false = h
