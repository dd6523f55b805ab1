-- ===== src/Sharding/Backfill/Rows.antt =====
-- ecat-data-sharding/src/migrate/backfill.rs: tables by primary key, and a cursor in a sorted one.
use e_cat.Prelude.{
  ℕ, suc, ltb, ◌==◌, ◌≡◌, refl, ap, subst, inl, inr, Bool, true, false, Option, none, some, List,
  [], ◌∷◌, ◌++◌, length, length-drop, zero, ◌<◌, take, drop, In, All, All-In, if◌then◌else◌,
  by_test, either_way, arith,
}
use e_cat.Sharding.Backfill.{Row, Table, upsert_in, after, filter_rows, last_pk}

unfoldable pub lookup : ℕ → Table → Option Row
lookup p [] = none
lookup p (x ∷ xs) = if x.pk == p then some x else lookup p xs

same : (a : ℕ) → (a == a) ≡ true
same a = ground arith

pub lookup-upsert_same : (r : Row) (t : Table) → lookup r.pk (upsert_in r t) ≡ some r
unfolding lookup
lookup-upsert_same r [] = rw (same r.pk) refl
lookup-upsert_same r (x ∷ xs) =
    by_test (λ t. lookup r.pk t ≡ some r) (ltb r.pk x.pk) (λ _. rw (same r.pk) refl)
      (λ less.
        by_test (λ t. lookup r.pk t ≡ some r) (r.pk == x.pk) (λ _. rw (same r.pk) refl)
          (λ ne. ground (arith, lookup-upsert_same r xs)))

pub lookup-upsert_other :
    (p : ℕ) (r : Row) (t : Table) → (r.pk == p) ≡ false → lookup p (upsert_in r t) ≡ lookup p t
unfolding lookup
lookup-upsert_other p r [] ne = rw ne refl
lookup-upsert_other p r (x ∷ xs) ne =
    by_test (λ t. lookup p t ≡ lookup p (x ∷ xs)) (ltb r.pk x.pk) (λ _. rw ne refl)
      (λ less.
        by_test (λ t. lookup p t ≡ lookup p (x ∷ xs)) (r.pk == x.pk) (λ e. ground arith)
          (λ _. rw (lookup-upsert_other p r xs ne) refl))

-- In the order of the primary keys, each of them once.
abbrev pub IsSorted : Table → Type 0
IsSorted [] = Unit
IsSorted (r ∷ rest) = All (λ s. ltb r.pk s.pk ≡ true) rest × IsSorted rest

All-filter :
    (P : Row → Type 0) (test : Row → Bool) (t : Table) → All P t → All P (filter_rows test t)
All-filter P test [] h = tt
All-filter P test (r ∷ rest) h =
    either_way (All P) (test r) (h.0, All-filter P test rest h.1) (All-filter P test rest h.1)

pub filter-IsSorted : (test : Row → Bool) (t : Table) → IsSorted t → IsSorted (filter_rows test t)
filter-IsSorted test [] h = tt
filter-IsSorted test (r ∷ rest) h =
    either_way IsSorted (test r)
      (All-filter (λ s. ltb r.pk s.pk ≡ true) test rest h.0, filter-IsSorted test rest h.1)
      (filter-IsSorted test rest h.1)

pub lookup-In : (r : Row) (t : Table) → IsSorted t → In r t → lookup r.pk t ≡ some r
unfolding lookup
lookup-In r [] h o = elim o [ ]
lookup-In r (x ∷ xs) h (inl e) = rw (e, same x.pk) refl
lookup-In r (x ∷ xs) h (inr o) =
    let less = All-In (λ s. ltb x.pk s.pk ≡ true) r xs h.0 o in ground (arith, lookup-In r xs h.1 o)

All-after :
    (c : ℕ) (t : Table) → All (λ s. ltb c s.pk ≡ true) t → filter_rows (after (some c)) t ≡ t
All-after c [] h = refl
All-after c (r ∷ rest) h = rw (h.0, All-after c rest h.1) refl

all_new : (t : Table) → filter_rows (after none) t ≡ t
all_new [] = refl
all_new (r ∷ rest) = ap (λ l. r ∷ l) (all_new rest)

skip_done :
    (d : Row) (done todo : Table) (c : ℕ)
    → IsSorted ((d ∷ done) ++ todo)
    → last_pk (d ∷ done) ≡ some c
    → (ltb c d.pk ≡ false) × (filter_rows (after (some c)) ((d ∷ done) ++ todo) ≡ todo)
skip_done d [] todo c h e =
    let at : d.pk ≡ c = ground arith in
    let here : ltb c d.pk ≡ false = ground arith in
    let all = subst (λ a. All (λ s. ltb a s.pk ≡ true) todo) at h.0 in
    (here, rw here (All-after c todo all))
skip_done d (x ∷ done) todo c h e =
    let (less, rest) = skip_done x done todo c h.1 e in
    let below = h.0.0 in let here : ltb c d.pk ≡ false = ground arith in (here, rw here rest)

pub last_pk-none : (t : List Row) → last_pk t ≡ none → t ≡ []
last_pk-none [] e = refl
last_pk-none (r ∷ []) e = absurd (ground arith)
last_pk-none (r ∷ s ∷ rest) e = absurd (ground (arith, last_pk-none (s ∷ rest) e))

-- What is after the last row that was read is what was not read.
pub after-last :
    (done todo : Table)
    → IsSorted (done ++ todo)
    → filter_rows (after (last_pk done)) (done ++ todo) ≡ todo
after-last [] todo h = all_new todo
after-last (d ∷ done) todo h = by_last (last_pk (d ∷ done)) refl
  where
    by_last :
        (o : Option ℕ) → last_pk (d ∷ done) ≡ o → filter_rows (after o) ((d ∷ done) ++ todo) ≡ todo
    by_last none e = absurd (ground (arith, last_pk-none (d ∷ done) e))
    by_last (some c) e = (skip_done d done todo c h e).1

pub last_pk-append :
    (done batch : List Row) (c : ℕ) → last_pk batch ≡ some c → last_pk (done ++ batch) ≡ some c
last_pk-append [] batch c e = e
last_pk-append (d ∷ []) [] c e = absurd (ground arith)
last_pk-append (d ∷ []) (b ∷ batch) c e = e
last_pk-append (d ∷ x ∷ done) batch c e = last_pk-append (x ∷ done) batch c e

pub In-take : (r : Row) (n : ℕ) (t : List Row) → In r (take n t) → In r t
In-take r zero t o = elim o [ ]
In-take r (suc n) [] o = elim o [ ]
In-take r (suc n) (x ∷ t) (inl e) = inl e
In-take r (suc n) (x ∷ t) (inr o) = inr (In-take r n t o)

pub none_left : (n : ℕ) (t : List Row) → 0 < n → take n t ≡ [] → t ≡ []
none_left zero t h e = absurd (omega arith)
none_left (suc n) [] h e = refl
none_left (suc n) (x ∷ t) h e = absurd (ground arith)

pub some_taken :
    (n : ℕ) (t : List Row) (fuel c : ℕ)
    → 0 < n
    → last_pk (take n t) ≡ some c
    → length t < suc fuel
    → length (drop n t) < fuel
some_taken zero t fuel c h e less = absurd (omega arith)
some_taken (suc n) [] fuel c h e less = absurd (ground arith)
some_taken (suc n) (x ∷ t) fuel c h e less = omega (arith, length-drop n t)
