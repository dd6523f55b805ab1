-- ===== src/Sharding/Plan/Taken.antt =====
-- ecat-data-sharding/src/migrate/plan.rs: which keys a list of moves takes, and how a new move
-- changes that.
use e_cat.Prelude.{
  String, ◌≡◌, refl, ap, ◌∙◌, Bool, true, false, not, ◌&&◌, Option, none, some, List, [], ◌∷◌,
  if◌then◌else◌, either_way, by_test, arith,
}
use text.Mathlib.TextEquality.{eq_iff}
use e_cat.Prelude.Int.{ℤ, ltb_ℤ}
use e_cat.Sharding.Catalog.{ShardTable}
use e_cat.Sharding.Plan.{KeyRange, ShardMove, same_bound, Interval, continues, extended, push_move}

-- Whether a key is on the inner side of a lower and of an upper bound.
abbrev pub from_bound : Option ℤ → ℤ → Bool
from_bound none key = true
from_bound (some low) key = not (ltb_ℤ key low)

abbrev pub below_bound : Option ℤ → ℤ → Bool
below_bound none key = true
below_bound (some high) key = ltb_ℤ key high

abbrev pub in_range : Option KeyRange → ℤ → Bool
in_range none key = true
in_range (some r) key = from_bound r.low key && below_bound r.high key

-- From where to where the moves take a key.
abbrev pub taken : ℤ → List ShardMove → List (String × String)
taken key [] = []
taken key (m ∷ rest) =
    let later = taken key rest in if in_range m.key_range key then (m.from, m.to) ∷ later else later

-- A range that starts at `start` starts no later than the interval that starts at `low`.
abbrev pub Starts : Option ℤ → Option ℤ → Type 0
Starts start none = ⊥
Starts start (some low) = (from_bound start low ≡ true)

abbrev pub LastStarts : Option ℤ → Option KeyRange → Type 0
LastStarts low none = ⊥
LastStarts low (some r) = Starts r.low low

abbrev pub Apart : Option ℤ → List ShardMove → Type 0
Apart low [] = Unit
Apart low (m ∷ rest) = LastStarts low m.key_range

-- The interval is not empty.
abbrev pub Before : Option ℤ → Option ℤ → Type 0
Before none high = Unit
Before (some low) none = Unit
Before (some low) (some high) = (ltb_ℤ low high ≡ true)

-- A range that ends where an interval starts, with the interval added.
extended_range :
    (key low : ℤ) (start end high : Option ℤ)
    → from_bound start low ≡ true
    → Before (some low) high
    → same_bound end (some low) ≡ true
    → (from_bound start key && below_bound high key) ≡ (
        if from_bound (some low) key && below_bound high key
        then true
        else from_bound start key && below_bound end key)
extended_range key low none none none s b e = absurd (ground arith)
extended_range key low none (some end) none s b e = ground arith
extended_range key low start none high s b e = absurd (ground arith)
extended_range key low none (some end) (some high) s b e = ground arith
extended_range key low (some start) (some end) none s b e = ground arith
extended_range key low (some start) (some end) (some high) s b e = ground arith

abbrev pub within : ℤ → Option ℤ → Option ℤ → Bool
within key low high = from_bound low key && below_bound high key

continues-same :
    (last m : ShardMove) (low : Option ℤ) (o : Option KeyRange)
    → continues last m low o ≡ true
    → (last.from ≡ m.from) × (last.to ≡ m.to)
continues-same last m low none e = absurd (ground arith)
continues-same last m low (some r) e =
    ((eq_iff last.from m.from).0 (ground arith), (eq_iff last.to m.to).0 (ground arith))

extended_covers :
    (key : ℤ) (last m : ShardMove) (low high : Option ℤ) (o : Option KeyRange)
    → LastStarts low o
    → Before low high
    → continues last m low o ≡ true
    → in_range (extended high o) key ≡ (if within key low high then true else in_range o key)
extended_covers key last m low high none s b e = absurd (ground arith)
extended_covers key last m none high (some r) s b e = elim s [ ]
extended_covers key last m (some low) high (some r) s b e =
    extended_range key low r.low r.high high s b (ground arith)

taken_rest :
    (key : ℤ) (m : ShardMove) (rest : List ShardMove)
    → taken key (m ∷ rest) ≡ []
    → taken key rest ≡ []
taken_rest key m rest h = ground arith

-- A key outside the interval is taken as before.
pub push-outside :
    (key : ℤ) (moves : List ShardMove) (m : ShardMove) (i : Interval)
    → Apart i.low moves
    → Before i.low i.high
    → in_range m.key_range key ≡ within key i.low i.high
    → within key i.low i.high ≡ false
    → taken key (push_move moves m i) ≡ taken key moves
unfolding push_move
push-outside key [] m i s b r out = ground arith
push-outside key (last ∷ rest) m i s b r out =
    by_test (λ ms. taken key ms ≡ taken key (last ∷ rest)) (continues last m i.low last.key_range)
      (λ e.
        let covers = extended_covers key last m i.low i.high last.key_range s b e in
        let kept = covers ∙ ap (λ t. if t then true else in_range last.key_range key) out in
        ap (λ t. if t then (last.from, last.to) ∷ taken key rest else taken key rest) kept)
      (λ e. rw (r ∙ out))

-- A key of the interval that was taken nowhere is taken by the new move.
pub push-inside :
    (key : ℤ) (moves : List ShardMove) (m : ShardMove) (i : Interval)
    → Apart i.low moves
    → Before i.low i.high
    → in_range m.key_range key ≡ within key i.low i.high
    → within key i.low i.high ≡ true
    → taken key moves ≡ []
    → taken key (push_move moves m i) ≡ ((m.from, m.to) ∷ [])
unfolding push_move
push-inside key [] m i s b r inside h = ground arith
push-inside key (last ∷ rest) m i s b r inside h =
    by_test (λ ms. taken key ms ≡ ((m.from, m.to) ∷ [])) (continues last m i.low last.key_range)
      (λ e.
        let covers = extended_covers key last m i.low i.high last.key_range s b e in
        let same = continues-same last m i.low last.key_range e in
        let new = covers ∙ ap (λ t. if t then true else in_range last.key_range key) inside in
        rw (new, same.0, same.1, taken_rest key last rest h))
      (λ e. rw (r ∙ inside, h))

apart-later :
    (low : Option ℤ) (high : ℤ) (o : Option KeyRange)
    → Before low (some high)
    → LastStarts low o
    → LastStarts (some high) o
apart-later low high none h s = elim s [ ]
apart-later none high (some r) h s = elim s [ ]
apart-later (some low) high (some r) h s = later r.low s
  where
    later : (start : Option ℤ) → from_bound start low ≡ true → from_bound start high ≡ true
    later none e = refl
    later (some start) e = ground arith

pub Apart-later :
    (low : Option ℤ) (high : ℤ) (moves : List ShardMove)
    → Before low (some high)
    → Apart low moves
    → Apart (some high) moves
Apart-later low high [] h s = tt
Apart-later low high (m ∷ rest) h s = apart-later low high m.key_range h s

extended-LastStarts :
    (high : ℤ) (end : Option ℤ) (o : Option KeyRange)
    → LastStarts (some high) o
    → LastStarts (some high) (extended end o)
extended-LastStarts high end none h = h
extended-LastStarts high end (some r) h = h

pub Before-from_bound :
    (low : Option ℤ) (high : ℤ) → Before low (some high) → from_bound low high ≡ true
Before-from_bound none high h = refl
Before-from_bound (some low) high h = ground arith

-- The move of an interval.
abbrev pub move_of : ShardTable → String → String → Interval → ShardMove
move_of old from to i = record {
  table = old.name;
  from = from;
  to = to;
  key_range = some (record { low = i.low; high = i.high });
}

pub push-Apart :
    (old : ShardTable) (from to : String) (moves : List ShardMove) (i : Interval) (high : ℤ)
    → Before i.low (some high)
    → Apart i.low moves
    → Apart (some high) (push_move moves (move_of old from to i) i)
unfolding push_move
push-Apart old from to [] i high b s = Before-from_bound i.low high b
push-Apart old from to (last ∷ rest) i high b s =
    either_way (Apart (some high)) (continues last (move_of old from to i) i.low last.key_range)
      (extended-LastStarts high i.high last.key_range (apart-later i.low high last.key_range b s))
      (Before-from_bound i.low high b)
