-- ===== src/Sharding/Plan/Cover.antt =====
-- ecat-data-sharding/src/migrate/plan.rs: the moves of a range table cover the keys whose shard
-- changes, and no others.
use e_cat.Prelude.{
  ℕ, ◌<◌, String, ◌≡◌, refl, sym, ap, subst, ◌∙◌, Bool, true, false, Option, none, some, List, [],
  ◌∷◌, ◌++◌, reverse, length, if◌then◌else◌, either_way, by_test, arith,
}
use text.Mathlib.Text.{◌==◌ as str_eq}
use mathlib.Core.List.{reverse_aux}
use e_cat.Prelude.Result.{Result, ok, err, ◌>>=◌}
use e_cat.Prelude.Int.{ℤ, pos, ltb_ℤ, ◌-ℤ◌}
use e_cat.Sharding.Error.{ShardError}
use e_cat.Sharding.Catalog.{range, ShardTable, check_algorithm, partition_point}
use e_cat.Sharding.Catalog.Lookup.{partition_bounded}
use e_cat.Sharding.Plan.{
  ShardMove, min_i64, sort, dedup, Interval, unwrap_or, intervals, get_shard, move_interval,
  move_intervals, range_moves, moves_between,
}
use e_cat.Sharding.Plan.Taken.{from_bound, in_range, taken, within}
use e_cat.Sharding.Plan.Cuts.{Cut, Ascending, partition_same, test_same, test_last, Cut-pass}
use e_cat.Sharding.Plan.Sorted.{cuts-Ascending, cuts-Cut}
use e_cat.Sharding.Plan.OneInterval.{
  shard_of, to_take, changed, Done, next_moves, Done-step, Done-last, Done-skip, get_found,
  move_interval_lem, shard_of_range, unwrap_or_from, within-pred,
}

-- The result is a list of moves that takes the key where it has to be.
abbrev Takes : ℤ → List (String × String) → Result ShardError (List ShardMove) → Type 0
Takes key want (err e) = ⊥
Takes key want (ok moves) = taken key moves ≡ want

module _ (old new : ShardTable) (olds news : List ℤ) (eo : old.algorithm ≡ range olds)
    (en : new.algorithm ≡ range news) (lo : length olds < length old.shards)
    (ln : length news < length new.shards) (key : ℤ) where
  abbrev wanted : List (String × String)
  wanted = changed (shard_of old key) (shard_of new key)

  -- The shards of the representative key are those of the key.
  agreed :
      (r : ℤ) (from to : String)
      → get_shard old.shards (partition_point olds r) ≡ ok from
      → get_shard new.shards (partition_point news r) ≡ ok to
      → partition_point olds key ≡ partition_point olds r
      → partition_point news key ≡ partition_point news r
      → to_take from to ≡ wanted
  agreed r from to ef et so sn =
      let fo = shard_of_range old olds key eo ∙ ap (get_shard old.shards) so ∙ ef in
      let fn = shard_of_range new news key en ∙ ap (get_shard new.shards) sn ∙ et in
      sym (
        ap (λ (x : Result ShardError String). changed x (shard_of new key)) fo
        ∙ ap (λ (y : Result ShardError String). changed (ok from) y) fn)

  -- One interval, from its result on.
  one_interval :
      (moves : List ShardMove) (i : Interval)
      → (from : String) × (to : String) × (get_shard old.shards (partition_point olds i.key)
          ≡ ok from)
        × (get_shard new.shards (partition_point news i.key) ≡ ok to)
        × (move_interval old new moves i ≡ ok (next_moves old from to moves i))
  one_interval moves i =
      let (from, ef) =
        get_found old.shards (partition_point olds i.key)
          (omega (arith, partition_bounded olds i.key)) in
      let (to, et) =
        get_found new.shards (partition_point news i.key)
          (omega (arith, partition_bounded news i.key)) in
      (from, to, ef, et, move_interval_lem old new olds news moves i from to eo en ef et)

  walk :
      (low : Option ℤ) (cuts : List ℤ) (moves : List ShardMove)
      → ltb_ℤ key min_i64 ≡ false
      → Ascending low cuts
      → Cut low cuts olds
      → Cut low cuts news
      → Done key wanted low moves
      → Takes key wanted (move_intervals old new moves (intervals low cuts))
  unfolding move_intervals intervals
  walk low [] moves domain a co cn done =
      let r = unwrap_or low (pos 0) in
      let (from, to, ef, et, em) =
        one_interval moves (record { low = low; high = none; key = r }) in
      let same = λ (bs : List ℤ) (cut : Cut low [] bs) (e : from_bound low key ≡ true).
        partition_same low [] bs key r cut
          (λ b p. test_last low key r b e (unwrap_or_from low) p) in
      subst (λ x. Takes key wanted (x >>= (λ ms. ok ms))) (sym em)
        (Done-last key old from to moves low r wanted done
          (λ e. agreed r from to ef et (same olds co e) (same news cn e)))
  walk low (c ∷ cs) moves domain (b, a) co cn done =
      let r = c -ℤ pos 1 in
      let later = λ (ms : List ShardMove).
        walk (some c) cs ms domain a (Cut-pass low c cs olds b co) (Cut-pass low c cs news b cn) in
      let (from, to, ef, et, em) =
        one_interval moves (record { low = low; high = some c; key = r }) in
      let same = λ (bs : List ℤ) (cut : Cut low (c ∷ cs) bs) (e : within key low (some c) ≡ true).
        partition_same low (c ∷ cs) bs key r cut
          (λ x p. test_same low c cs key r x (b, a) e (within-pred low c b) p) in
      by_test (λ is. Takes key wanted (move_intervals old new moves is)) (ltb_ℤ min_i64 c)
        (λ big.
          subst
            (λ x.
              Takes key wanted (x >>= (λ ms. move_intervals old new ms (intervals (some c) cs))))
            (sym em)
            (later (next_moves old from to moves (record { low = low; high = some c; key = r })) (
              Done-step key old from to moves low c r wanted b done
                (λ e. agreed r from to ef et (same olds co e) (same news cn e)))))
        (λ small. later moves (Done-skip key c low moves wanted b (ground arith) done))

reverse_if :
    {A : Type 0} (b : Bool) (x : A) (xs ys : List A)
    → reverse_aux xs (if b then x ∷ ys else ys) ≡ reverse_aux (if b then x ∷ xs else xs) ys
reverse_if true x xs ys = refl
reverse_if false x xs ys = refl

taken-reverse_aux :
    (key : ℤ) (xs ys : List ShardMove)
    → taken key (reverse_aux xs ys) ≡ reverse_aux (taken key xs) (taken key ys)
taken-reverse_aux key [] ys = refl
taken-reverse_aux key (x ∷ xs) ys =
    taken-reverse_aux key xs (x ∷ ys)
    ∙ reverse_if (in_range x.key_range key) (x.from, x.to) (taken key xs) (taken key ys)

reverse-changed : (x y : Result ShardError String) → reverse_aux (changed x y) [] ≡ changed x y
reverse-changed (err e) y = refl
reverse-changed (ok from) (err e) = refl
reverse-changed (ok from) (ok to) =
    either_way (λ (l : List (String × String)). reverse_aux l [] ≡ l) (str_eq from to) refl refl

Takes-reverse :
    (key : ℤ) (want : List (String × String)) (r : Result ShardError (List ShardMove))
    → Takes key want r
    → reverse_aux want [] ≡ want
    → (moves : List ShardMove) × ((do ms ← r; ok (reverse ms)) ≡ ok moves)
      × (taken key moves ≡ want)
Takes-reverse key want (err e) h w = elim h [ ]
Takes-reverse key want (ok ms) h w =
    (reverse ms, refl, taken-reverse_aux key ms [] ∙ ap (λ l. reverse_aux l []) h ∙ w)

pub enough_shards : (bs : List ℤ) (n : ℕ) → check_algorithm (range bs) n ≡ ok tt → length bs < n
unfolding check_algorithm
enough_shards bs n h = ground arith

range_moves_lem :
    (old new : ShardTable) (olds news : List ℤ)
    → old.algorithm ≡ range olds
    → new.algorithm ≡ range news
    → range_moves old new ≡ moves_between old new olds news
unfolding range_moves
range_moves_lem old new olds news eo en = rw (eo, en)

-- For two range tables of checked catalogues `range_moves` returns a plan, and of every i64 key
-- the plan takes: nothing, where the old and the new shard of the key have one name; else exactly
-- one of its moves holds the key, and it goes from the key's old shard to its new one.
pub range_moves_cover :
    (old new : ShardTable) (olds news : List ℤ) (key : ℤ)
    → old.algorithm ≡ range olds
    → new.algorithm ≡ range news
    → check_algorithm (range olds) (length old.shards) ≡ ok tt
    → check_algorithm (range news) (length new.shards) ≡ ok tt
    → ltb_ℤ key min_i64 ≡ false
    → (moves : List ShardMove) × (range_moves old new ≡ ok moves)
      × (taken key moves ≡ changed (shard_of old key) (shard_of new key))
range_moves_cover old new olds news key eo en co cn domain =
    let cuts = dedup (sort (olds ++ news)) in
    let (cut_old, cut_new) = cuts-Cut olds news in
    let want = changed (shard_of old key) (shard_of new key) in
    let walked =
      walk old new olds news eo en (enough_shards olds (length old.shards) co)
        (enough_shards news (length new.shards) cn) key none cuts [] domain
        (cuts-Ascending (olds ++ news)) cut_old cut_new
        ((λ no. absurd (ground arith)), (λ yes. refl), tt) in
    let (moves, e, h) =
      Takes-reverse key want (move_intervals old new [] (intervals none cuts)) walked
        (reverse-changed (shard_of old key) (shard_of new key)) in
    (moves, range_moves_lem old new olds news eo en ∙ e, h)
