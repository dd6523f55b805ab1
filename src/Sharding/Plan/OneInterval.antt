-- ===== src/Sharding/Plan/OneInterval.antt =====
-- ecat-data-sharding/src/migrate/plan.rs: what the move of one interval does to a key.
use e_cat.Prelude.{
  ℕ, zero, suc, ◌<◌, String, ◌≡◌, refl, sym, ap, ◌∙◌, inl, inr, Bool, true, false, Option, none,
  some, List, [], ◌∷◌, length, if◌then◌else◌, Bool-cases, either_way, by_test, arith,
}
use text.Mathlib.Text.{◌==◌ as str_eq}
use e_cat.Prelude.Result.{Result, ok, ◌>>=◌}
use e_cat.Prelude.Int.{ℤ, pos, ◌-ℤ◌, -ℤ_parts}
use e_cat.Sharding.Error.{ShardError}
use e_cat.Sharding.Catalog.{range, ShardTable, int, index_in, partition_point}
use e_cat.Sharding.Plan.{ShardMove, Interval, unwrap_or, get_shard, push_move, move_interval}
use e_cat.Sharding.Plan.Taken.{
  from_bound, taken, Apart, Before, within, push-outside, push-inside, Apart-later, move_of,
  push-Apart,
}

-- The shard of a key, as the catalogue looks it up.
abbrev pub shard_of : ShardTable → ℤ → Result ShardError String
shard_of t key = do i ← index_in t.algorithm (int key []); get_shard t.shards i

-- What has to be done with a key: nothing, where both shards have one name.
abbrev pub to_take : String → String → List (String × String)
to_take from to = if str_eq from to then [] else ((from, to) ∷ [])

abbrev pub changed : Result ShardError String → Result ShardError String → List (String × String)
changed (ok from) (ok to) = to_take from to
changed _ _ = []

-- Every key before `low` is taken where it has to be, and the others are not yet taken.
abbrev pub Done : ℤ → List (String × String) → Option ℤ → List ShardMove → Type 0
Done key want low moves =
    (from_bound low key ≡ false → taken key moves ≡ want)
    × (from_bound low key ≡ true → taken key moves ≡ [])
    × Apart low moves

-- What the tables are after the move of an interval from `from` to `to`.
abbrev pub next_moves : ShardTable → String → String → List ShardMove → Interval → List ShardMove
next_moves old from to moves i =
    if str_eq from to then moves else push_move moves (move_of old from to i) i

next_moves-inside :
    (key : ℤ) (old : ShardTable) (from to : String) (moves : List ShardMove) (i : Interval)
    → Before i.low i.high
    → Apart i.low moves
    → within key i.low i.high ≡ true
    → taken key moves ≡ []
    → taken key (next_moves old from to moves i) ≡ to_take from to
next_moves-inside key old from to moves i b s inside empty =
    let m = move_of old from to i in
    let pushed = push-inside key moves m i s b refl inside empty in
    by_test (λ ms. taken key ms ≡ to_take from to) (str_eq from to)
      (λ e. empty ∙ sym (ap (λ t. if t then [] else ((from, to) ∷ [])) e))
      (λ e. pushed ∙ sym (ap (λ t. if t then [] else ((from, to) ∷ [])) e))

next_moves-outside :
    (key : ℤ) (old : ShardTable) (from to : String) (moves : List ShardMove) (i : Interval)
    → Before i.low i.high
    → Apart i.low moves
    → within key i.low i.high ≡ false
    → taken key (next_moves old from to moves i) ≡ taken key moves
next_moves-outside key old from to moves i b s outside =
    either_way (λ ms. taken key ms ≡ taken key moves) (str_eq from to) refl
      (push-outside key moves (move_of old from to i) i s b refl outside)

reached :
    (low : Option ℤ) (c key : ℤ)
    → Before low (some c)
    → from_bound (some c) key ≡ true
    → from_bound low key ≡ true
reached none c key b h = refl
reached (some low) c key b h = ground arith

next_moves-Apart :
    (old : ShardTable) (from to : String) (moves : List ShardMove) (i : Interval) (c : ℤ)
    → Before i.low (some c)
    → Apart i.low moves
    → Apart (some c) (next_moves old from to moves i)
next_moves-Apart old from to moves i c b s =
    either_way (Apart (some c)) (str_eq from to) (Apart-later i.low c moves b s)
      (push-Apart old from to moves i c b s)

-- The interval before the boundary `c` is done.
pub Done-step :
    (key : ℤ) (old : ShardTable) (from to : String) (moves : List ShardMove) (low : Option ℤ)
    (c r : ℤ) (want : List (String × String))
    → Before low (some c)
    → Done key want low moves
    → (within key low (some c) ≡ true → to_take from to ≡ want)
    → Done key want
        (some c)
        (next_moves old from to moves (record { low = low; high = some c; key = r }))
Done-step key old from to moves low c r want b (before, after, apart) agrees =
    let i : Interval = record { low = low; high = some c; key = r } in
    let inside = next_moves-inside key old from to moves i b apart in
    let outside = next_moves-outside key old from to moves i b apart in
    (
      (λ h. elim (Bool-cases (from_bound low key)) [
        | inl e ↦ inside (ground arith) (after e) ∙ agrees (ground arith)
        | inr e ↦ outside (ground arith) ∙ before e
      ]),
      (λ h. outside (ground arith) ∙ after (reached low c key b h)),
      next_moves-Apart old from to moves i c b apart,
    )

-- The interval after the last boundary ends the work.
pub Done-last :
    (key : ℤ) (old : ShardTable) (from to : String) (moves : List ShardMove) (low : Option ℤ)
    (r : ℤ) (want : List (String × String))
    → Done key want low moves
    → (from_bound low key ≡ true → to_take from to ≡ want)
    → taken key (next_moves old from to moves (record { low = low; high = none; key = r })) ≡ want
Done-last key old from to moves low r want (before, after, apart) agrees =
    let i : Interval = record { low = low; high = none; key = r } in
    elim (Bool-cases (from_bound low key)) [
      | inl e ↦
          next_moves-inside key old from to moves i (endless low) apart (ground arith) (after e)
          ∙ agrees e
      | inr e ↦
          next_moves-outside key old from to moves i (endless low) apart (ground arith) ∙ before e
    ]
  where
    endless : (low : Option ℤ) → Before low none
    endless none = tt
    endless (some low) = tt

pub get_found :
    (shards : List String) (i : ℕ)
    → i < length shards
    → (name : String) × (get_shard shards i ≡ ok name)
get_found [] i h = absurd (omega arith)
get_found (name ∷ rest) zero h = (name, refl)
get_found (name ∷ rest) (suc i) h = get_found rest i (omega arith)

if_ok :
    (b : Bool) (x y : List ShardMove) (r : Result ShardError (List ShardMove))
    → (if b then ok x else ok y) ≡ r
    → ok (if b then x else y) ≡ r
if_ok true x y r h = h
if_ok false x y r h = h

pub move_interval_lem :
    (old new : ShardTable) (olds news : List ℤ) (moves : List ShardMove) (i : Interval)
    (from to : String)
    → old.algorithm ≡ range olds
    → new.algorithm ≡ range news
    → get_shard old.shards (partition_point olds i.key) ≡ ok from
    → get_shard new.shards (partition_point news i.key) ≡ ok to
    → move_interval old new moves i ≡ ok (next_moves old from to moves i)
unfolding move_interval
move_interval_lem old new olds news moves i from to eo en ef et = sym (
    if_ok (str_eq from to) moves (push_move moves (move_of old from to i) i)
      (move_interval old new moves i) (rw (eo, en, ef, et)))

pub shard_of_range :
    (t : ShardTable) (bs : List ℤ) (key : ℤ)
    → t.algorithm ≡ range bs
    → shard_of t key ≡ get_shard t.shards (partition_point bs key)
unfolding index_in
shard_of_range t bs key e = ap (λ a. do i ← index_in a (int key []); get_shard t.shards i) e

pub unwrap_or_from : (low : Option ℤ) → from_bound low (unwrap_or low (pos 0)) ≡ true
unwrap_or_from none = refl
unwrap_or_from (some low) = ground arith

pub within-pred :
    (low : Option ℤ) (c : ℤ) → Before low (some c) → within (c -ℤ pos 1) low (some c) ≡ true
within-pred none c b = ground (arith, -ℤ_parts c (pos 1))
within-pred (some low) c b = ground (arith, -ℤ_parts c (pos 1))

-- A boundary that no key is below is passed with nothing to do.
pub Done-skip :
    (key c : ℤ) (low : Option ℤ) (moves : List ShardMove) (want : List (String × String))
    → Before low (some c)
    → from_bound (some c) key ≡ true
    → Done key want low moves
    → Done key want (some c) moves
Done-skip key c low moves want b h (before, after, apart) = (
  (λ no. absurd (ground arith)),
  (λ yes. after (reached low c key b h)),
  Apart-later low c moves b apart,
)
