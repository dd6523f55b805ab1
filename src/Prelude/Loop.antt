-- ===== src/Prelude/Loop.antt =====
-- Code that may run out of the fuel of its loops, and loops as repeated steps.
use e_cat.Prelude.{
  ℕ, zero, suc, ◌<◌, ◌≢◌, ◌≡◌, refl, subst, arith, Bool, true, false, if◌then◌else◌,
}

pub data Run (E A : Type 0) : Type 0 where
  returned : A → Run E A
  failed : E → Run E A
  out_of_fuel : Run E A

infixl 5 ◌>>=◌
abbrev pub ◌>>=◌ : {E A B : Type 0} → Run E A → (A → Run E B) → Run E B
returned a >>= f = f a
failed e >>= f = failed e
out_of_fuel >>= f = out_of_fuel

-- What one round comes to.
pub data Step (E S A : Type 0) : Type 0 where
  stop : Run E A → Step E S A
  again : S → Step E S A

unfoldable pub loop : {E S A : Type 0} → (S → Step E S A) → ℕ → S → Run E A
loop step zero s = out_of_fuel
loop step (suc fuel) s = elim (step s) [ stop o ↦ o | again s' ↦ loop step fuel s' ]

-- The fuel suffices, and a result has the property.
pub data Ensures {E A : Type 0} (Q : A → Type 0) : Run E A → Type 0 where
  holds : {a : A} → Q a → Ensures Q (returned a)
  rejected : {e : E} → Ensures Q (failed e)

module _ {E A : Type 0} {Q : A → Type 0} where
  pub Ensures-returned : {o : Run E A} {a : A} → Ensures Q o → o ≡ returned a → Q a
  Ensures-returned (holds {a = b} q) e = subst Q (ground arith) q
  Ensures-returned rejected e = absurd (ground arith)

  pub Ensures-ne : {o : Run E A} → Ensures Q o → o ≢ out_of_fuel
  Ensures-ne (holds q) e = ground arith
  Ensures-ne rejected e = ground arith

  pub Ensures-if :
      {m n : Run E A} (b : Bool)
      → (b ≡ true → Ensures Q m)
      → (b ≡ false → Ensures Q n)
      → Ensures Q (if b then m else n)
  Ensures-if true km kn = km refl
  Ensures-if false km kn = kn refl

pub Ensures-bind :
    {E A B : Type 0} {P : A → Type 0} {Q : B → Type 0} {m : Run E A} {f : A → Run E B}
    → Ensures P m
    → ((a : A) → P a → Ensures Q (f a))
    → Ensures Q (m >>= f)
Ensures-bind (holds {a} p) k = k a p
Ensures-bind rejected k = rejected

pub Ensures-map :
    {E A : Type 0} {P Q : A → Type 0} {m : Run E A}
    → ((a : A) → P a → Q a)
    → Ensures P m
    → Ensures Q m
Ensures-map k (holds {a} p) = holds (k a p)
Ensures-map k rejected = rejected

-- What a round must come to, from a state that satisfies the invariant.
abbrev pub RoundOk :
    {E S A : Type 0} → (S → Type 0) → (A → Type 0) → (S → ℕ) → ℕ → Step E S A → Type 0
RoundOk P Q measure bound (stop o) = Ensures Q o
RoundOk P Q measure bound (again s) = P s × (measure s < bound)

pub loop-Ensures :
    {E S A : Type 0} (P : S → Type 0) {Q : A → Type 0} (measure : S → ℕ) (step : S → Step E S A)
    → ((s : S) → P s → RoundOk P Q measure (measure s) (step s))
    → (fuel : ℕ) (s : S) → measure s < fuel
    → P s
    → Ensures Q (loop step fuel s)
unfolding loop
loop-Ensures P measure step round zero s enough h = absurd (omega arith)
loop-Ensures P {Q} measure step round (suc fuel) s enough h =
    let next = round s h in
    elim (step s)
        as (λ t.
          RoundOk P Q measure (measure s) t
          → Ensures Q (elim t [ stop o ↦ o | again s' ↦ loop step fuel s' ])) [
            | stop o ↦ λ done. done
            | again s' ↦ λ (p, less). loop-Ensures P measure step round fuel s' (omega arith) p
          ]
      next
