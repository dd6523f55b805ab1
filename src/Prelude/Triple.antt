-- ===== src/Prelude/Triple.antt =====
-- What an action guarantees from a state in which its precondition holds: `Triple` has one
-- predicate for a normal return and one for an error, `Keeps` one invariant for both.
use e_cat.Prelude.{◌≡◌, refl, arith, Bool, true, false, if◌then◌else◌}
use e_cat.Prelude.Result.{Result, ok, err}
use e_cat.Prelude.Exec.{Exec, after, branch, ◌>>=◌, ◌>>◌, or_else, ignore, pure, raise}

abbrev pub Pred : Type 0 → Type 1
Pred S = S → Type 0

abbrev pub Post : {S X A : Type 0} → (A → Pred S) → Pred S → Result X A × S → Type 0
Post Q E (ok a, w) = Q a w
Post Q E (err e, w) = E w

pub record Triple {S X A : Type 0} (P : Pred S) (m : Exec S X A) (Q : A → Pred S) (E : Pred S)
    : Type 0 where
  pub at : (w : S) → P w → Post Q E (m w)

pub record Keeps {S X A : Type 0} (P : Pred S) (m : Exec S X A) : Type 0 where
  pub at : (w : S) → P w → P (m w).1

module _ {S X A B : Type 0} {Q : A → Pred S} {R : B → Pred S} {E : Pred S} where
  after-Post :
      (f : A → Exec S X B)
      → ((a : A) → Triple (Q a) (f a) R E)
      → (r : Result X A × S) → Post Q E r
      → Post R E (after f r)
  unfolding after
  after-Post f step (ok a, w) h = (step a).at w h
  after-Post f step (err e, w) h = h

  branch-Post :
      {F : Pred S} (f : A → Exec S X B) (handler : Exec S X B)
      → ((a : A) → Triple (Q a) (f a) R E)
      → Triple F handler R E
      → (r : Result X A × S) → Post Q F r
      → Post R E (branch f handler r)
  unfolding branch
  branch-Post f handler step caught (ok a, w) h = (step a).at w h
  branch-Post f handler step caught (err e, w) h = caught.at w h

  pub bind :
      {P : Pred S} {m : Exec S X A} {f : A → Exec S X B}
      → Triple P m Q E
      → ((a : A) → Triple (Q a) (f a) R E)
      → Triple P (m >>= f) R E
  unfolding ◌>>=◌
  bind {m} {f} first rest = record { at = λ w h. after-Post f rest (m w) (first.at w h) }

  pub catch :
      {P F : Pred S} {m : Exec S X A} {handler : Exec S X B} {k : A → Exec S X B}
      → Triple P m Q F
      → Triple F handler R E
      → ((a : A) → Triple (Q a) (k a) R E)
      → Triple P (or_else m handler k) R E
  unfolding or_else
  catch {m} {handler} {k} first caught rest = record {
    at = λ w h. branch-Post k handler rest caught (m w) (first.at w h);
  }

module _ {S X A : Type 0} (P : Pred S) where
  Keeps-both : (r : Result X A × S) → P r.1 → Post (λ _. P) P r
  Keeps-both (ok a, w) h = h
  Keeps-both (err e, w) h = h

  Keeps-either : (r : Result X A × S) → Post (λ _. P) P r → P r.1
  Keeps-either (ok a, w) h = h
  Keeps-either (err e, w) h = h

module _ {S X A : Type 0} {P : Pred S} {m : Exec S X A} where
  pub Keeps-Triple : Keeps P m → Triple P m (λ _. P) P
  Keeps-Triple k = record { at = λ w h. Keeps-both P (m w) (k.at w h) }

  pub Triple-Keeps : Triple P m (λ _. P) P → Keeps P m
  Triple-Keeps k = record { at = λ w h. Keeps-either P (m w) (k.at w h) }

module _ {S X A : Type 0} {P : Pred S} where
  pub Keeps-pure : (a : A) → Keeps {X = X} P (pure a)
  unfolding pure
  Keeps-pure a = record { at = λ w h. h }

  pub Keeps-raise : (e : X) → Keeps P (raise {A = A} e)
  unfolding raise
  Keeps-raise e = record { at = λ w h. h }

  pub Keeps-if :
      (b : Bool) (m n : Exec S X A) → Keeps P m → Keeps P n → Keeps P (if b then m else n)
  Keeps-if true m n km kn = km
  Keeps-if false m n km kn = kn

  pub Keeps-if_known :
      (b : Bool) {m n : Exec S X A}
      → (b ≡ true → Keeps P m)
      → (b ≡ false → Keeps P n)
      → Keeps P (if b then m else n)
  Keeps-if_known true km kn = km refl
  Keeps-if_known false km kn = kn refl

module _ {S X A : Type 0} {P : Pred S} {Q : A → Pred S} where
  pub Triple-raise : (e : X) → Triple P (raise e) Q P
  unfolding raise
  Triple-raise e = record { at = λ w h. h }

  pub Triple-if :
      {E : Pred S} (b : Bool) {m n : Exec S X A}
      → Triple P m Q E
      → Triple P n Q E
      → Triple P (if b then m else n) Q E
  Triple-if true tm tn = tm
  Triple-if false tm tn = tn

  pub Triple-if_true :
      {E : Pred S} (b : Bool) {m : Exec S X A} (n : Exec S X A)
      → b ≡ true
      → Triple P m Q E
      → Triple P (if b then m else n) Q E
  Triple-if_true true n e tm = tm
  Triple-if_true false n e tm = absurd (ground arith)

module _ {S X A B : Type 0} {P : Pred S} where
  pub Keeps-bind :
      {m : Exec S X A} {f : A → Exec S X B}
      → Keeps P m
      → ((a : A) → Keeps P (f a))
      → Keeps P (m >>= f)
  Keeps-bind km kf = Triple-Keeps (bind (Keeps-Triple km) λ a. Keeps-Triple (kf a))

  pub Keeps-or_else :
      {m : Exec S X A} {handler : Exec S X B} {k : A → Exec S X B}
      → Keeps P m
      → Keeps P handler
      → ((a : A) → Keeps P (k a))
      → Keeps P (or_else m handler k)
  Keeps-or_else km kh kk =
      Triple-Keeps (catch (Keeps-Triple km) (Keeps-Triple kh) λ a. Keeps-Triple (kk a))

module _ {S X : Type 0} {P : Pred S} {m : Exec S X (Unit {0})} where
  pub Keeps-then : {B : Type 0} {n : Exec S X B} → Keeps P m → Keeps P n → Keeps P (m >> n)
  Keeps-then km kn = Keeps-bind km λ _. kn

  pub Keeps-ignore : Keeps P m → Keeps P (ignore m)
  unfolding ignore
  Keeps-ignore k = record { at = λ w h. k.at w h }

module _ {S X A : Type 0} {E E' : Pred S} {Q Q' : A → Pred S} where
  Post-map :
      ((a : A) (w : S) → Q a w → Q' a w)
      → ((w : S) → E w → E' w)
      → (r : Result X A × S) → Post Q E r
      → Post Q' E' r
  Post-map good bad (ok a, w) h = good a w h
  Post-map good bad (err e, w) h = bad w h

  pub conseq :
      {P P' : Pred S} {m : Exec S X A}
      → ((w : S) → P' w → P w)
      → ((a : A) (w : S) → Q a w → Q' a w)
      → ((w : S) → E w → E' w)
      → Triple P m Q E
      → Triple P' m Q' E'
  conseq {m} pre good bad t = record { at = λ w h. Post-map good bad (m w) (t.at w (pre w h)) }

-- The code goes on when the error is dropped.
pub merged :
    {S X A : Type 0} {P Q : Pred S} {m : Exec S X A}
    → Triple P m (λ _. Q) Q
    → (w : S) → P w
    → Q (m w).1
merged {Q} {m} t w h = Keeps-either Q (m w) (t.at w h)
