-- ===== src/Sharding/Plan/Sorted.antt =====
-- ecat-data-sharding/src/migrate/plan.rs: the boundaries of both tables, sorted and without
-- repetitions, ascend and hold every boundary.
use e_cat.Prelude.{◌≡◌, ◌⊎◌, inl, inr, false, none, List, [], ◌∷◌, ◌++◌, either_way, by_test, arith}
use e_cat.Prelude.Int.{ℤ, ltb_ℤ}
use e_cat.Sharding.Plan.{eq_ℤ, insert_sorted, sort, keep_new, dedup}
use e_cat.Sharding.Plan.Cuts.{Listed, Cut, Ascending}

-- No number of the list is below `a`.
abbrev AllFrom : ℤ → List ℤ → Type 0
AllFrom a [] = Unit
AllFrom a (b ∷ bs) = (ltb_ℤ b a ≡ false) × AllFrom a bs

abbrev Sorted : List ℤ → Type 0
Sorted [] = Unit
Sorted (a ∷ rest) = AllFrom a rest × Sorted rest

from_trans : (a b : ℤ) (xs : List ℤ) → ltb_ℤ b a ≡ false → AllFrom b xs → AllFrom a xs
from_trans a b [] h k = tt
from_trans a b (x ∷ xs) h (k, ks) = (ground arith, from_trans a b xs h ks)

insert-AllFrom :
    (a x : ℤ) (xs : List ℤ) → ltb_ℤ x a ≡ false → AllFrom a xs → AllFrom a (insert_sorted x xs)
insert-AllFrom a x [] h k = (h, tt)
insert-AllFrom a x (y ∷ ys) h (k, ks) =
    either_way (AllFrom a) (ltb_ℤ y x) (k, insert-AllFrom a x ys h ks) (h, (k, ks))

insert-Sorted : (x : ℤ) (xs : List ℤ) → Sorted xs → Sorted (insert_sorted x xs)
insert-Sorted x [] s = (tt, tt)
insert-Sorted x (y ∷ ys) (k, s) =
    by_test Sorted (ltb_ℤ y x) (λ e. (insert-AllFrom y x ys (ground arith) k, insert-Sorted x ys s))
      (λ e. ((e, from_trans x y ys e k), (k, s)))

sort-Sorted : (xs : List ℤ) → Sorted (sort xs)
sort-Sorted [] = tt
sort-Sorted (x ∷ xs) = insert-Sorted x (sort xs) (sort-Sorted xs)

keep-AllFrom :
    (a x : ℤ) (xs : List ℤ) → ltb_ℤ x a ≡ false → AllFrom a xs → AllFrom a (keep_new x xs)
keep-AllFrom a x [] h k = (h, tt)
keep-AllFrom a x (y ∷ ys) h k = either_way (AllFrom a) (eq_ℤ x y) k (h, k)

dedup-AllFrom : (a : ℤ) (xs : List ℤ) → AllFrom a xs → AllFrom a (dedup xs)
dedup-AllFrom a [] h = tt
dedup-AllFrom a (x ∷ xs) (h, hs) = keep-AllFrom a x (dedup xs) h (dedup-AllFrom a xs hs)

keep-Ascending :
    (x : ℤ) (xs : List ℤ) → AllFrom x xs → Ascending none xs → Ascending none (keep_new x xs)
keep-Ascending x [] h a = (tt, tt)
keep-Ascending x (y ∷ ys) (h, hs) a =
    by_test (Ascending none) (eq_ℤ x y) (λ e. a) (λ e. (tt, (ground arith, a.1)))

dedup-Ascending : (xs : List ℤ) → Sorted xs → Ascending none (dedup xs)
dedup-Ascending [] s = tt
dedup-Ascending (x ∷ xs) (h, s) =
    keep-Ascending x (dedup xs) (dedup-AllFrom x xs h) (dedup-Ascending xs s)

pub cuts-Ascending : (xs : List ℤ) → Ascending none (dedup (sort xs))
cuts-Ascending xs = dedup-Ascending (sort xs) (sort-Sorted xs)

insert-Listed : (b x : ℤ) (xs : List ℤ) → Listed b (x ∷ xs) → Listed b (insert_sorted x xs)
insert-Listed b x [] l = l
insert-Listed b x (y ∷ ys) (inl e) =
    either_way (Listed b) (ltb_ℤ y x) (inr (insert-Listed b x ys (inl e))) (inl e)
insert-Listed b x (y ∷ ys) (inr (inl e)) = either_way (Listed b) (ltb_ℤ y x) (inl e) (inr (inl e))
insert-Listed b x (y ∷ ys) (inr (inr l)) =
    either_way (Listed b) (ltb_ℤ y x) (inr (insert-Listed b x ys (inr l))) (inr (inr l))

keep-Listed : (b x : ℤ) (xs : List ℤ) → Listed b (x ∷ xs) → Listed b (keep_new x xs)
keep-Listed b x [] l = l
keep-Listed b x (y ∷ ys) (inl e) =
    by_test (Listed b) (eq_ℤ x y) (λ same. inl (ground arith)) (λ other. inl e)
keep-Listed b x (y ∷ ys) (inr l) = either_way (Listed b) (eq_ℤ x y) l (inr l)

sort-Listed : (b : ℤ) (xs : List ℤ) → Listed b xs → Listed b (sort xs)
sort-Listed b [] l = l
sort-Listed b (x ∷ xs) (inl e) = insert-Listed b x (sort xs) (inl e)
sort-Listed b (x ∷ xs) (inr l) = insert-Listed b x (sort xs) (inr (sort-Listed b xs l))

dedup-Listed : (b : ℤ) (xs : List ℤ) → Listed b xs → Listed b (dedup xs)
dedup-Listed b [] l = l
dedup-Listed b (x ∷ xs) (inl e) = keep-Listed b x (dedup xs) (inl e)
dedup-Listed b (x ∷ xs) (inr l) = keep-Listed b x (dedup xs) (inr (dedup-Listed b xs l))

append-Listed : (b : ℤ) (xs ys : List ℤ) → Listed b xs ⊎ Listed b ys → Listed b (xs ++ ys)
append-Listed b [] ys (inl l) = elim l [ ]
append-Listed b [] ys (inr l) = l
append-Listed b (x ∷ xs) ys (inl (inl e)) = inl e
append-Listed b (x ∷ xs) ys (inl (inr l)) = inr (append-Listed b xs ys (inl l))
append-Listed b (x ∷ xs) ys (inr l) = inr (append-Listed b xs ys (inr l))

all-Cut : (bs cuts : List ℤ) → ((b : ℤ) → Listed b bs → Listed b cuts) → Cut none cuts bs
all-Cut [] cuts h = tt
all-Cut (b ∷ bs) cuts h = (inr (h b (inl (ground arith))), all-Cut bs cuts (λ c l. h c (inr l)))

pub cuts-Cut :
    (olds news : List ℤ)
    → Cut none (dedup (sort (olds ++ news))) olds × Cut none (dedup (sort (olds ++ news))) news
cuts-Cut olds news =
    let listed : (b : ℤ) → Listed b olds ⊎ Listed b news → Listed b (dedup (sort (olds ++ news))) =
      λ b l.
        dedup-Listed b (sort (olds ++ news))
          (sort-Listed b (olds ++ news) (append-Listed b olds news l)) in
    (all-Cut olds _ (λ b l. listed b (inl l)), all-Cut news _ (λ b l. listed b (inr l)))
