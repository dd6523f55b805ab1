-- ===== src/Sharding/Scatter/Tests.antt =====
-- Two shards whose rows are merged, and three values that no order has.
use e_cat.Prelude.{
  ℕ, ◌+◌, ◌-◌, ◌*◌, ◌/◌, ◌^◌, ◌≡◌, refl, List, [], ◌∷◌, ◌++◌, Option, none, some, ltb, take, drop,
  if◌then◌else◌,
}
use Prim.Native.Nat.{Ordering}
use e_cat.Prelude.Result.{ok, err}
use e_cat.Prelude.Int.{ℤ, pos, negsuc}
use e_cat.Sharding.Error.{partial_failure}
use e_cat.Sharding.Catalog.{ShardTable, hash_mod}
use e_cat.Sharding.Router.{ShardRouter}
use e_cat.Sharding.Scatter.{
  Numbers, Value, number, compare_ℤ, compare_values, Row, merge, ScatterRequest, Outcome, answered,
  failed, unfinished, scatter, rows_of,
}
use e_cat.Sharding.Scatter.Merging.{all_rows, IsMerged, merge_exact}
use e_cat.Sharding.Scatter.Whole.{AllAnswered, scatter_whole}

-- An i64, or a double with an integer value, with its text.
data Sample : Type 0 where
  whole double : ℤ → (text : List ℕ) → Sample

-- The double at an i64, up to 2 ^ 54: from 2 ^ 53 on doubles are even.
abbrev double_at : ℕ → ℕ
double_at m = if ltb m (2 ^ 53) then m else m / 2 * 2

abbrev as_f64 : Sample → ℤ
as_f64 (whole (pos m) text) = pos (double_at m)
as_f64 (whole (negsuc m) text) = negsuc (double_at (m + 1) - 1)
as_f64 (double z text) = z

abbrev i64_of : Sample → Option ℤ
i64_of (whole z text) = some z
i64_of (double z text) = none

abbrev text_of_sample : Sample → List ℕ
text_of_sample (whole z text) = text
text_of_sample (double z text) = text

abbrev samples : Numbers
samples = record {
  Number = Sample;
  as_i64 = i64_of;
  compare_f64 = λ a b. compare_ℤ (as_f64 a) (as_f64 b);
  number_text = text_of_sample;
  quote = λ bytes. b'"' ∷ bytes ++ b'"' ∷ [];
}

-- "-900719925474099" and two more digits or so.
abbrev long_number : List ℕ → List ℕ
long_number rest =
    b'-' ∷ b'9' ∷ b'0' ∷ b'0' ∷ b'7' ∷ b'1' ∷ b'9' ∷ b'9' ∷ b'2' ∷ b'5' ∷ b'4' ∷ b'7' ∷ b'4' ∷ b'0'
    ∷ b'9' ∷ b'9' ∷ rest

-- -2 ^ 53 - 1, -2 ^ 53, and the double -2 ^ 53.
abbrev below : Value Sample
below = number (whole (negsuc (2 ^ 53)) (long_number (b'3' ∷ [])))

abbrev even : Value Sample
even = number (whole (negsuc (2 ^ 53 - 1)) (long_number (b'2' ∷ [])))

abbrev double_even : Value Sample
double_even = number (double (negsuc (2 ^ 53 - 1)) (long_number (b'2' ∷ b'.' ∷ b'0' ∷ [])))

-- Each is less than the next, and the last less than the first.
in_a_circle :
    (compare_values samples below even ≡ Ordering.lt)
    × (compare_values samples even double_even ≡ Ordering.lt)
    × (compare_values samples double_even below ≡ Ordering.lt)
unfolding compare_values
in_a_circle = (refl, refl, refl)

abbrev digit : ℕ → Value Sample
digit d = number (whole (pos d) ((b'0' + d) ∷ []))

abbrev row : ℕ → ℕ → Row samples
row id at = ("id", digit id) ∷ ("at", digit at) ∷ []

abbrev outcomes : List (Outcome samples)
outcomes = answered (row 1 5 ∷ row 2 7 ∷ []) ∷ answered (row 3 6 ∷ row 2 9 ∷ []) ∷ []

abbrev results : List (Option (List (Row samples)))
results = rows_of samples outcomes

second_page : merge samples "at" "id" 1 5 results ≡ ok (row 3 6 ∷ row 2 7 ∷ [])
unfolding merge
second_page = refl

merge_exact_example :
    (rows : List (Row samples)) × IsMerged samples "at" "id"
      (all_rows samples "at" "id" results)
      rows
    × ((offset limit : ℕ)
        → merge samples "at" "id" offset limit results ≡ ok (take limit (drop offset rows)))
merge_exact_example = merge_exact samples "at" "id" results (
  (((pos 5, refl), (digit 1, refl)), (((pos 7, refl), (digit 2, refl)), tt)),
  ((((pos 6, refl), (digit 3, refl)), (((pos 9, refl), (digit 2, refl)), tt)), tt),
)

abbrev table : ShardTable
table = record {
  name = "users";
  key = "id";
  pk = "id";
  algorithm = hash_mod 2;
  shards = "s0" ∷ "s1" ∷ [];
}

abbrev router : ShardRouter
router = record { catalog = table ∷ []; clients = "s0" ∷ "s1" ∷ [] }

abbrev request : ScatterRequest samples
request = record { table = "users"; order_by = "at"; limit = 5; offset = 1; max_concurrency = 4 }

partial :
    scatter samples (λ names. names) router request (unfinished ∷ failed ∷ [])
    ≡ err (partial_failure ("s1" ∷ "s0" ∷ []))
unfolding scatter
partial = refl

scattered : scatter samples (λ names. names) router request outcomes ≡ ok (row 3 6 ∷ row 2 7 ∷ [])
unfolding scatter
scattered = refl

scatter_whole_example :
    AllAnswered samples outcomes
    × (merge samples "at" "id" 1 5 results ≡ ok (row 3 6 ∷ row 2 7 ∷ []))
scatter_whole_example =
    scatter_whole samples (λ names. names) router request table outcomes (row 3 6 ∷ row 2 7 ∷ [])
      refl refl scattered
