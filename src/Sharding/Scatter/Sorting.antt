-- ===== src/Sharding/Scatter/Sorting.antt =====
-- ecat-data-sharding/src/scatter.rs: the sort, where the values to sort by are integers.
use e_cat.Prelude.{
  ◌≡◌, sym, ap, ◌∙◌, ◌⊎◌, inl, inr, String, by_test, true, false, Option, none, some, List, [], ◌∷◌,
  In, All, arith,
}
use Prim.Native.Nat.{Ordering, compare}
use e_cat.Prelude.Int.{ℤ, ◌≤ℤ◌}
use e_cat.Sharding.Scatter.{
  Numbers, null, bool, number, string, array, object, then_by, compare_bytes, compare_ℤ, is_gt,
  Json, Row, get, compare_values, Entry, compare_entries, insert_by, sort_by,
}

-- The first of two comparisons decides.
ints_decide :
    (x y : ℤ) (o p : Ordering)
    → (is_gt (then_by (then_by (compare_ℤ x y) o) p) ≡ false → x ≤ℤ y)
      × (is_gt (then_by (then_by (compare_ℤ x y) o) p) ≡ true → y ≤ℤ x)
ints_decide x y o p = (λ e. ground arith, λ e. ground arith)

module _ (n : Numbers) (order_by : String) where
  abbrev pub int_of : Option (Json n) → Option ℤ
  int_of (some (number x)) = n.as_i64 x
  int_of _ = none

  abbrev pub order_int : Row n → Option ℤ
  order_int row = int_of (get n order_by row)

  -- The one row may stand before the other.
  abbrev pub NotAfter : Row n → Row n → Type 0
  NotAfter a b = (x y : ℤ) → order_int a ≡ some x → order_int b ≡ some y → x ≤ℤ y

  abbrev pub Ascending : List (Row n) → Type 0
  Ascending [] = Unit
  Ascending (r ∷ rest) = All (NotAfter r) rest × Ascending rest

  -- An entry has the value of its row, which is an integer.
  abbrev pub EntryOk : Entry n → Type 0
  EntryOk e = (get n order_by e.2 ≡ some e.0) × ((z : ℤ) × (int_of (some e.0) ≡ some z))

  int_order :
      (u v : Json n) (p : Ordering) (x y : ℤ)
      → int_of (some u) ≡ some x
      → int_of (some v) ≡ some y
      → (is_gt (then_by (compare_values n u v) p) ≡ false → x ≤ℤ y)
        × (is_gt (then_by (compare_values n u v) p) ≡ true → y ≤ℤ x)
  unfolding compare_values
  int_order (number a) (number b) p x y e f =
      rw (e, f) (ints_decide x y (compare_bytes (n.number_text a) (n.number_text b)) p)
  int_order null v p x y e f = absurd (ground arith)
  int_order (bool a) v p x y e f = absurd (ground arith)
  int_order (string a) v p x y e f = absurd (ground arith)
  int_order (array a) v p x y e f = absurd (ground arith)
  int_order (object a) v p x y e f = absurd (ground arith)
  int_order (number a) null p x y e f = absurd (ground arith)
  int_order (number a) (bool b) p x y e f = absurd (ground arith)
  int_order (number a) (string b) p x y e f = absurd (ground arith)
  int_order (number a) (array b) p x y e f = absurd (ground arith)
  int_order (number a) (object b) p x y e f = absurd (ground arith)

  -- What a comparison of two entries says of their rows.
  entry_order :
      (a b : Entry n)
      → EntryOk a
      → EntryOk b
      → (is_gt (compare_entries n a b) ≡ false → NotAfter a.2 b.2)
        × (is_gt (compare_entries n a b) ≡ true → NotAfter b.2 a.2)
  entry_order a b h k = (λ e x y f g. (order x y f g).0 e, λ e y x g f. (order x y f g).1 e)
    where
      order :
          (x y : ℤ)
          → order_int a.2 ≡ some x
          → order_int b.2 ≡ some y
          → (is_gt (compare_entries n a b) ≡ false → x ≤ℤ y)
            × (is_gt (compare_entries n a b) ≡ true → y ≤ℤ x)
      order x y f g =
          int_order a.0 b.0 (compare a.1 b.1) x y (sym (ap int_of h.0) ∙ f)
            (sym (ap int_of k.0) ∙ g)

  abbrev pub rows_in : List (Entry n) → List (Row n)
  rows_in [] = []
  rows_in (e ∷ es) = e.2 ∷ rows_in es

  insert-All :
      (P : Row n → Type 0) (e : Entry n) (es : List (Entry n))
      → P e.2
      → All P (rows_in es)
      → All P (rows_in (insert_by n e es))
  insert-All P e [] p h = (p, tt)
  insert-All P e (x ∷ xs) p h =
      by_test (λ l. All P (rows_in l)) (is_gt (compare_entries n e x))
        (λ _. (h.0, insert-All P e xs p h.1)) (λ _. (p, h))

  before-All :
      (a b : Entry n) (rest : List (Row n))
      → EntryOk b
      → NotAfter a.2 b.2
      → All (NotAfter b.2) rest
      → All (NotAfter a.2) rest
  before-All a b [] h k l = tt
  before-All a b (r ∷ rest) h k l = (
    λ x y f g.
        let (z, e) = h.1 in
        let here = ap int_of h.0 ∙ e in
        let low = k x z f here in let high = l.0 z y here g in omega arith,
    before-All a b rest h k l.1,
  )

  insert-Ascending :
      (e : Entry n) (es : List (Entry n))
      → EntryOk e
      → All EntryOk es
      → Ascending (rows_in es)
      → Ascending (rows_in (insert_by n e es))
  insert-Ascending e [] h k s = (tt, tt)
  insert-Ascending e (x ∷ xs) h k s =
      let order = entry_order e x h k.0 in
      by_test (λ l. Ascending (rows_in l)) (is_gt (compare_entries n e x))
        (λ gt. (insert-All (NotAfter x.2) e xs (order.1 gt) s.0, insert-Ascending e xs h k.1 s.1))
        (λ le. ((order.0 le, before-All e x (rows_in xs) k.0 (order.0 le) s.0), s))

  insert_entries :
      (P : Entry n → Type 0) (e : Entry n) (es : List (Entry n))
      → P e
      → All P es
      → All P (insert_by n e es)
  insert_entries P e [] p h = (p, tt)
  insert_entries P e (x ∷ xs) p h =
      by_test (All P) (is_gt (compare_entries n e x)) (λ _. (h.0, insert_entries P e xs p h.1))
        (λ _. (p, h))

  insert-In :
      (r : Row n) (e : Entry n) (es : List (Entry n))
      → (r ≡ e.2) ⊎ In r (rows_in es)
      → In r (rows_in (insert_by n e es))
  insert-In r e [] h = h
  insert-In r e (x ∷ xs) (inl same) =
      by_test (λ l. In r (rows_in l)) (is_gt (compare_entries n e x))
        (λ _. inr (insert-In r e xs (inl same))) (λ _. inl same)
  insert-In r e (x ∷ xs) (inr (inl same)) =
      by_test (λ l. In r (rows_in l)) (is_gt (compare_entries n e x)) (λ _. inl same)
        (λ _. inr (inl same))
  insert-In r e (x ∷ xs) (inr (inr o)) =
      by_test (λ l. In r (rows_in l)) (is_gt (compare_entries n e x))
        (λ _. inr (insert-In r e xs (inr o))) (λ _. inr (inr o))

  pub sort_entries : (P : Entry n → Type 0) (es : List (Entry n)) → All P es → All P (sort_by n es)
  unfolding sort_by
  sort_entries P [] h = tt
  sort_entries P (e ∷ es) h = insert_entries P e (sort_by n es) h.0 (sort_entries P es h.1)

  pub sort-All :
      (P : Row n → Type 0) (es : List (Entry n))
      → All P (rows_in es)
      → All P (rows_in (sort_by n es))
  unfolding sort_by
  sort-All P [] h = tt
  sort-All P (e ∷ es) h = insert-All P e (sort_by n es) h.0 (sort-All P es h.1)

  pub sort-In :
      (r : Row n) (es : List (Entry n)) → In r (rows_in es) → In r (rows_in (sort_by n es))
  unfolding sort_by
  sort-In r [] h = h
  sort-In r (e ∷ es) (inl same) = insert-In r e (sort_by n es) (inl same)
  sort-In r (e ∷ es) (inr o) = insert-In r e (sort_by n es) (inr (sort-In r es o))

  -- The sort puts the rows in the order of their integers.
  pub sort-Ascending : (es : List (Entry n)) → All EntryOk es → Ascending (rows_in (sort_by n es))
  unfolding sort_by
  sort-Ascending [] h = tt
  sort-Ascending (e ∷ es) h =
      insert-Ascending e (sort_by n es) h.0 (sort_entries EntryOk es h.1) (sort-Ascending es h.1)
