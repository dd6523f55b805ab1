-- ===== src/Sharding/Plan/Cuts.antt =====
-- ecat-data-sharding/src/migrate/plan.rs: between two neighbouring cuts no key changes its shard.
use e_cat.Prelude.{◌≡◌, refl, ◌⊎◌, inl, inr, true, false, Option, none, some, List, [], ◌∷◌, arith}
use e_cat.Prelude.Int.{ℤ, ltb_ℤ}
use e_cat.Sharding.Catalog.{partition_point}
use e_cat.Sharding.Plan.{eq_ℤ}
use e_cat.Sharding.Plan.Taken.{from_bound, within, Before}

-- The boundary is no later than `low`, or it is one of the cuts that are left.
abbrev pub Listed : ℤ → List ℤ → Type 0
Listed b [] = ⊥
Listed b (c ∷ cs) = (eq_ℤ b c ≡ true) ⊎ Listed b cs

abbrev pub Passed : Option ℤ → ℤ → Type 0
Passed none b = ⊥
Passed (some low) b = (ltb_ℤ low b ≡ false)

abbrev pub Cut : Option ℤ → List ℤ → List ℤ → Type 0
Cut low cuts [] = Unit
Cut low cuts (b ∷ bs) = (Passed low b ⊎ Listed b cuts) × Cut low cuts bs

abbrev pub Ascending : Option ℤ → List ℤ → Type 0
Ascending low [] = Unit
Ascending low (c ∷ cs) = Before low (some c) × Ascending (some c) cs

Listed-after :
    (low : ℤ) (cuts : List ℤ) (b : ℤ)
    → Ascending (some low) cuts
    → Listed b cuts
    → ltb_ℤ low b ≡ true
Listed-after low [] b a l = elim l [ ]
Listed-after low (c ∷ cs) b a (inl e) = ground arith
Listed-after low (c ∷ cs) b a (inr l) = let later = Listed-after c cs b a.1 l in ground arith

-- Where no boundary lies between two keys, they have the same shard.
pub partition_same :
    (low : Option ℤ) (cuts bs : List ℤ) (k r : ℤ)
    → Cut low cuts bs
    → ((b : ℤ) → Passed low b ⊎ Listed b cuts → ltb_ℤ k b ≡ ltb_ℤ r b)
    → partition_point bs k ≡ partition_point bs r
partition_same low cuts [] k r c h = refl
partition_same low cuts (b ∷ bs) k r c h =
    let rest = partition_same low cuts bs k r c.1 h in rw (h b c.0, rest)

-- Both keys are in the interval between `low` and the first cut.
pub test_same :
    (low : Option ℤ) (c : ℤ) (cs : List ℤ) (k r b : ℤ)
    → Ascending low (c ∷ cs)
    → within k low (some c) ≡ true
    → within r low (some c) ≡ true
    → Passed low b ⊎ Listed b (c ∷ cs)
    → ltb_ℤ k b ≡ ltb_ℤ r b
test_same none c cs k r b a x y (inl p) = elim p [ ]
test_same (some low) c cs k r b a x y (inl p) = ground arith
test_same low c cs k r b a x y (inr (inl e)) = ground arith
test_same low c cs k r b a x y (inr (inr l)) = let later = Listed-after c cs b a.1 l in ground arith

-- After the last cut.
pub test_last :
    (low : Option ℤ) (k r b : ℤ)
    → from_bound low k ≡ true
    → from_bound low r ≡ true
    → Passed low b ⊎ Listed b []
    → ltb_ℤ k b ≡ ltb_ℤ r b
test_last none k r b x y (inl p) = elim p [ ]
test_last (some low) k r b x y (inl p) = ground arith
test_last low k r b x y (inr l) = elim l [ ]

pass-one :
    (low : Option ℤ) (c b : ℤ) (cs : List ℤ)
    → Before low (some c)
    → Passed low b ⊎ Listed b (c ∷ cs)
    → Passed (some c) b ⊎ Listed b cs
pass-one none c b cs h (inl p) = elim p [ ]
pass-one (some low) c b cs h (inl p) = inl (ground arith)
pass-one low c b cs h (inr (inl e)) = inl (ground arith)
pass-one low c b cs h (inr (inr l)) = inr l

pub Cut-pass :
    (low : Option ℤ) (c : ℤ) (cs bs : List ℤ)
    → Before low (some c)
    → Cut low (c ∷ cs) bs
    → Cut (some c) cs bs
Cut-pass low c cs [] h k = tt
Cut-pass low c cs (b ∷ bs) h (l, k) = (pass-one low c b cs h l, Cut-pass low c cs bs h k)
