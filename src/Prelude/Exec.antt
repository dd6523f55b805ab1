-- ===== src/Prelude/Exec.antt =====
-- Code that changes a state and may fail, as actions for `do` blocks. The connectives stay shut:
-- tests open them, and proofs go by one rule for each, of Prelude/Triple.
use e_cat.Prelude.Result.{Result, ok, err}

abbrev pub Exec : Type 0 → Type 0 → Type 0 → Type 0
Exec S E A = S → Result E A × S

module _ {S E A B : Type 0} where
  unfoldable pub after : (A → Exec S E B) → Result E A × S → Result E B × S
  after f (ok a, w) = f a w
  after f (err e, w) = (err e, w)

  infixl 5 ◌>>=◌
  unfoldable pub ◌>>=◌ : Exec S E A → (A → Exec S E B) → Exec S E B
  unfolding after
  ◌>>=◌ m f w = after f (m w)

  unfoldable pub branch : (A → Exec S E B) → Exec S E B → Result E A × S → Result E B × S
  branch f handler (ok a, w) = f a w
  branch f handler (err e, w) = handler w

  -- `if let Err(error) = m.await { return handler }`, and `k` goes on.
  unfoldable pub or_else : Exec S E A → Exec S E B → (A → Exec S E B) → Exec S E B
  unfolding branch
  or_else m handler k w = branch k handler (m w)

infixl 5 ◌>>◌
abbrev pub ◌>>◌ : {S E B : Type 0} → Exec S E (Unit {0}) → Exec S E B → Exec S E B
m >> k = m >>= λ _. k

module _ {S E A : Type 0} where
  unfoldable pub pure : A → Exec S E A
  pure a w = (ok a, w)

  unfoldable pub raise : E → Exec S E A
  raise e w = (err e, w)

-- `let _ = m.await`
unfoldable pub ignore : {S E : Type 0} → Exec S E (Unit {0}) → Exec S E (Unit {0})
ignore m w = (ok tt, (m w).1)
