-- ===== src/Sharding/Backfill/Rule.antt =====
-- What the actions of a backfill guarantee, stated of the tables and the jobs.
use e_cat.Prelude.{◌≡◌, refl, String, List, [], ◌∷◌}
use e_cat.Prelude.Result.{Result, ok, err}
use e_cat.Prelude.Exec.{after, ◌>>=◌, pure, raise}
use e_cat.Sharding.Error.{ShardError, config, database}
use e_cat.Sharding.Migrate.{Jobs, Answer, answered, refused, lost}
use e_cat.Sharding.Backfill.{
  Table, World, Failure, failed, out_of_fuel, M, replied, reads, writes, asks_lock, lifted,
}

abbrev pub Pred : Type 1
Pred = (String → String → Table) → Jobs → Type 0

-- An error leaves `E`, and no loop has run out of its fuel.
abbrev pub Ends : {A : Type 0} → (A → Pred) → Pred → Result Failure A × World → Type 0
Ends Q E (ok a, w) = Q a w.rows w.jobs
Ends Q E (err (failed e), w) = E w.rows w.jobs
Ends Q E (err out_of_fuel, w) = ⊥

pub record Meets {A : Type 0} (P : Pred) (m : M A) (Q : A → Pred) (E : Pred) : Type 0 where
  pub at : (w : World) → P w.rows w.jobs → Ends Q E (m w)

module _ {A B : Type 0} {E : Pred} {Q : A → Pred} {R : B → Pred} where
  after-Ends :
      (f : A → M B)
      → ((a : A) → Meets (Q a) (f a) R E)
      → (r : Result Failure A × World) → Ends Q E r
      → Ends R E (after f r)
  unfolding after
  after-Ends f step (ok a, w) h = (step a).at w h
  after-Ends f step (err (failed e), w) h = h
  after-Ends f step (err out_of_fuel, w) h = h

  pub chain :
      {P : Pred} {m : M A} {f : A → M B}
      → Meets P m Q E
      → ((a : A) → Meets (Q a) (f a) R E)
      → Meets P (m >>= f) R E
  unfolding ◌>>=◌
  chain {m} {f} first rest = record { at = λ w h. after-Ends f rest (m w) (first.at w h) }

module _ {A : Type 0} where
  replied-Ends :
      (E : Pred) (Q : A → Pred) (e : ShardError) (a : A) (new w : World) (answers : List Answer)
      → Q a new.rows new.jobs
      → E new.rows new.jobs
      → E w.rows w.jobs
      → Ends Q E (replied e a new w answers)
  replied-Ends E Q e a new w [] q n o = o
  replied-Ends E Q e a new w (answered ∷ rest) q n o = q
  replied-Ends E Q e a new w (refused ∷ rest) q n o = o
  replied-Ends E Q e a new w (lost ∷ rest) q n o = n

module _ {A : Type 0} {P E : Pred} {Q : A → Pred} where
  pub pure-Meets :
      (a : A)
      → ((rows : String → String → Table) (jobs : Jobs) → P rows jobs → Q a rows jobs)
      → Meets P (pure a) Q E
  unfolding pure
  pure-Meets a h = record { at = λ w p. h w.rows w.jobs p }

  pub raise-Meets :
      (e : ShardError)
      → ((rows : String → String → Table) (jobs : Jobs) → P rows jobs → E rows jobs)
      → Meets P (raise (failed e)) Q E
  unfolding raise
  raise-Meets e h = record { at = λ w p. h w.rows w.jobs p }

  pub lifted-Meets :
      (r : Result ShardError A)
      → ((a : A) (rows : String → String → Table) (jobs : Jobs)
          → r ≡ ok a
          → P rows jobs
          → Q a rows jobs)
      → ((rows : String → String → Table) (jobs : Jobs) → P rows jobs → E rows jobs)
      → Meets P (lifted r) Q E
  lifted-Meets (ok a) h k = pure-Meets a (λ rows jobs. h a rows jobs refl)
  lifted-Meets (err e) h k = raise-Meets e k

  pub reads-Meets :
      (f : World → A)
      → ((w : World) → P w.rows w.jobs → Q (f w) w.rows w.jobs × E w.rows w.jobs)
      → Meets P (reads f) Q E
  unfolding reads
  reads-Meets f h = record {
    at = λ w p. replied-Ends E Q database (f w) w w w.answers (h w p).0 (h w p).1 (h w p).1;
  }

module _ {P E : Pred} {Q : Unit {0} → Pred} where
  pub writes-Meets :
      (f : World → World)
      → ((w : World)
          → P w.rows w.jobs
          → Q tt (f w).rows (f w).jobs × E (f w).rows (f w).jobs × E w.rows w.jobs)
      → Meets P (writes f) Q E
  unfolding writes
  writes-Meets f h = record {
    at = λ w p. replied-Ends E Q database tt (f w) w w.answers (h w p).0 (h w p).1 (h w p).2;
  }

  pub lock-Meets :
      ((rows : String → String → Table) (jobs : Jobs) → P rows jobs → Q tt rows jobs × E rows jobs)
      → Meets P asks_lock Q E
  unfolding asks_lock
  lock-Meets h = record {
    at = λ w p.
        replied-Ends E Q config tt w w w.answers (h w.rows w.jobs p).0 (h w.rows w.jobs p).1
          (h w.rows w.jobs p).1;
  }

module _ {A : Type 0} {E E' : Pred} where
  weaker :
      (Q : A → Pred)
      → ((rows : String → String → Table) (jobs : Jobs) → E rows jobs → E' rows jobs)
      → (r : Result Failure A × World) → Ends Q E r
      → Ends Q E' r
  weaker Q k (ok a, w) h = h
  weaker Q k (err (failed e), w) h = k w.rows w.jobs h
  weaker Q k (err out_of_fuel, w) h = h

  pub weaken :
      {P : Pred} {Q : A → Pred} {a : M A}
      → ((rows : String → String → Table) (jobs : Jobs) → E rows jobs → E' rows jobs)
      → Meets P a Q E
      → Meets P a Q E'
  weaken {Q} {a} k t = record { at = λ w h. weaker Q k (a w) (t.at w h) }

module _ {A : Type 0} {Q Q' : A → Pred} where
  adapted :
      (E : Pred)
      → ((a : A) (rows : String → String → Table) (jobs : Jobs) → Q a rows jobs → Q' a rows jobs)
      → (r : Result Failure A × World) → Ends Q E r
      → Ends Q' E r
  adapted E k (ok a, w) h = k a w.rows w.jobs h
  adapted E k (err (failed e), w) h = h
  adapted E k (err out_of_fuel, w) h = h

  pub adapt :
      {P E : Pred} {a : M A}
      → ((a : A) (rows : String → String → Table) (jobs : Jobs) → Q a rows jobs → Q' a rows jobs)
      → Meets P a Q E
      → Meets P a Q' E
  adapt {E} {a} k t = record { at = λ w h. adapted E k (a w) (t.at w h) }
