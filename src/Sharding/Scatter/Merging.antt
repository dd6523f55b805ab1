-- ===== src/Sharding/Scatter/Merging.antt =====
-- ecat-data-sharding/src/scatter.rs: the rows that `merge` keeps, and what it returns.
use e_cat.Prelude.{
  ℕ, suc, ◌≡◌, ◌≢◌, refl, sym, ap, subst, ◌∙◌, ◌⊎◌, inl, inr, String, Bool, true, false, ◌||◌,
  Option, none, some, List, [], ◌∷◌, ◌++◌, take, drop, Bool-cases, In, All, All-In, All-by,
  All-append, arith,
}
use e_cat.Prelude.Result.{ok}
use e_cat.Prelude.Int.{ℤ}
use e_cat.Sharding.Scatter.{
  Numbers, null, bool, number, string, array, object, same_bytes, has, Json, Row, get, not_null,
  value_text, Entry, sort_by, order_rows, order_shards, keep_first, merge,
}
use e_cat.Sharding.Scatter.Sorting.{
  int_of, order_int, NotAfter, Ascending, EntryOk, rows_in, sort-All, sort-In, sort-Ascending,
}

same_bytes_self : (t : List ℕ) → same_bytes t t ≡ true
same_bytes_self [] = refl
same_bytes_self (a ∷ rest) = ground (arith, same_bytes_self rest)

same_bytes-eq : (s t : List ℕ) → same_bytes s t ≡ true → s ≡ t
same_bytes-eq [] [] e = refl
same_bytes-eq [] (b ∷ t) e = absurd (ground arith)
same_bytes-eq (a ∷ s) [] e = absurd (ground arith)
same_bytes-eq (a ∷ s) (b ∷ t) e = ground (arith, same_bytes-eq s t)

some_eq : {A : Type 0} {a b : A} → some a ≡ some b → a ≡ b
some_eq e = cc

or_false : (a b : Bool) → a || b ≡ false → b ≡ false
or_false a b h = ground arith

or_true : (a b : Bool) → a || b ≡ true → (a ≡ true) ⊎ (b ≡ true)
or_true true b h = inl refl
or_true false b h = inr h

module _ (n : Numbers) (order_by pk : String) where
  -- The text of the primary key, by which rows are told apart.
  abbrev pub text_of : Option (Json n) → Option (List ℕ)
  text_of none = none
  text_of (some v) = some (value_text n v)

  abbrev pub pk_text : Row n → Option (List ℕ)
  pk_text row = text_of (not_null n (get n pk row))

  -- A row with an integer to sort by and a primary key.
  abbrev pub RowOk : Row n → Type 0
  RowOk row =
      ((z : ℤ) × (order_int n order_by row ≡ some z))
      × ((v : Json n) × (not_null n (get n pk row) ≡ some v))

  abbrev pub Distinct : List (Row n) → Type 0
  Distinct [] = Unit
  Distinct (r ∷ rest) = All (λ s. pk_text s ≢ pk_text r) rest × Distinct rest

  abbrev HasPk : Row n → Type 0
  HasPk row = (v : Json n) × (not_null n (get n pk row) ≡ some v)

  -- What is kept of rows that come after those with the texts `seen`.
  record Kept (seen : List (List ℕ)) (es : List (Entry n)) (rows : List (Row n)) : Type 0 where
    found : keep_first n pk seen es ≡ ok rows
    from : (r : Row n) → In r rows → In r (rows_in n order_by es)
    fresh : (r : Row n) → In r rows → (t : List ℕ) → pk_text r ≡ some t → has seen t ≡ false
    distinct : Distinct rows
    listed :
        (r : Row n)
        → In r (rows_in n order_by es)
        → (t : List ℕ) → pk_text r ≡ some t
        → (has seen t ≡ true) ⊎ ((s : Row n) × In s rows × (pk_text s ≡ some t))
    ascending : Ascending n order_by (rows_in n order_by es) → Ascending n order_by rows

  Kept-nil : (seen : List (List ℕ)) → Kept seen [] []
  unfolding keep_first
  Kept-nil seen = record {
    found = refl;
    from = λ r o. o;
    fresh = λ r o. elim o [ ];
    distinct = tt;
    listed = λ r o. elim o [ ];
    ascending = λ a. a;
  }

  module _ (seen : List (List ℕ)) (e : Entry n) (es : List (Entry n)) (v : Json n)
      (key : not_null n (get n pk e.2) ≡ some v) where
    abbrev text : List ℕ
    text = value_text n v

    text_here : pk_text e.2 ≡ some text
    text_here = ap text_of key

    same_text : (r : Row n) (t : List ℕ) → r ≡ e.2 → pk_text r ≡ some t → text ≡ t
    same_text r t same p = some_eq (sym text_here ∙ sym (ap pk_text same) ∙ p)

    other_text : has (text ∷ seen) text ≡ false → ⊥
    other_text h = ground (arith, same_bytes_self text)

    listed_after :
        (rows : List (Row n)) (r : Row n) (t : List ℕ)
        → (has (text ∷ seen) t ≡ true) ⊎ ((s : Row n) × In s rows × (pk_text s ≡ some t))
        → (has seen t ≡ true) ⊎ ((s : Row n) × In s (e.2 ∷ rows) × (pk_text s ≡ some t))
    listed_after rows r t (inl h) = elim (or_true (same_bytes text t) (has seen t) h) [
      | inl here ↦ inr (e.2, inl refl, text_here ∙ ap some (same_bytes-eq text t here))
      | inr before ↦ inl before
    ]
    listed_after rows r t (inr (s, o, q)) = inr (s, inr o, q)

    -- A row whose key has been seen is left out.
    skipped :
        (rows : List (Row n)) → has seen text ≡ true → Kept seen es rows → Kept seen (e ∷ es) rows
    unfolding keep_first
    skipped rows old k = record {
      found = rw (key, old, k.found) refl;
      from = λ r o. inr (k.from r o);
      fresh = k.fresh;
      distinct = k.distinct;
      listed = λ r o t p. elim o [
        | inl same ↦ inl (subst (λ x. has seen x ≡ true) (same_text r t same p) old)
        | inr later ↦ k.listed r later t p
      ];
      ascending = λ a. k.ascending a.1;
    }

    kept_new :
        (rows : List (Row n))
        → has seen text ≡ false
        → Kept (text ∷ seen) es rows
        → Kept seen (e ∷ es) (e.2 ∷ rows)
    unfolding keep_first
    kept_new rows new k = record {
      found = rw (key, new, k.found) refl;
      from = λ r o. elim o [ inl same ↦ inl same | inr later ↦ inr (k.from r later) ];
      fresh = λ r o t p. elim o [
        | inl same ↦ subst (λ x. has seen x ≡ false) (same_text r t same p) new
        | inr later ↦ or_false (same_bytes text t) (has seen t) (k.fresh r later t p)
      ];
      distinct = (
        All-by (λ s. pk_text s ≢ pk_text e.2) rows
            (λ r o e. other_text (k.fresh r o text (e ∙ text_here))),
        k.distinct,
      );
      listed = λ r o t p. elim o [
        | inl same ↦ inr (e.2, inl refl, sym (ap pk_text same) ∙ p)
        | inr later ↦ listed_after rows r t (k.listed r later t p)
      ];
      ascending = λ a. (
        All-by (NotAfter n order_by e.2) rows
            (λ s o. All-In (NotAfter n order_by e.2) s (rows_in n order_by es) a.0 (k.from s o)),
        k.ascending a.1,
      );
    }

  keep_all :
      (seen : List (List ℕ)) (es : List (Entry n))
      → All HasPk (rows_in n order_by es)
      → (rows : List (Row n)) × Kept seen es rows
  keep_all seen [] h = ([], Kept-nil seen)
  keep_all seen (e ∷ es) h =
      let (v, key) = h.0 in
      let (old_rows, old) = keep_all seen es h.1 in
      let (new_rows, new) = keep_all (value_text n v ∷ seen) es h.1 in
      elim (Bool-cases (has seen (value_text n v))) [
        | inl found ↦ (old_rows, skipped seen e es v key old_rows found old)
        | inr free ↦ (e.2 ∷ new_rows, kept_new seen e es v key new_rows free new)
      ]

  -- The rows of shards that have all answered.
  abbrev pub all_rows : List (Option (List (Row n))) → List (Row n)
  all_rows [] = []
  all_rows (none ∷ rest) = all_rows rest
  all_rows (some rows ∷ rest) = rows ++ all_rows rest

  -- Every shard has answered, with right rows.
  abbrev pub Complete : List (Option (List (Row n))) → Type 0
  Complete [] = Unit
  Complete (none ∷ rest) = ⊥
  Complete (some rows ∷ rest) = All RowOk rows × Complete rest

  abbrev Ordered : List (Row n) → List (Entry n) → Type 0
  Ordered rows es = (rows_in n order_by es ≡ rows) × All (EntryOk n order_by) es

  int_value :
      (o : Option (Json n)) (z : ℤ)
      → int_of n order_by o ≡ some z
      → (v : Json n) × (o ≡ some v) × (not_null n o ≡ some v)
  int_value none z e = absurd (ground arith)
  int_value (some null) z e = absurd (ground arith)
  int_value (some (number x)) z e = (number x, refl, refl)
  int_value (some (bool b)) z e = absurd (ground arith)
  int_value (some (string b)) z e = absurd (ground arith)
  int_value (some (array b)) z e = absurd (ground arith)
  int_value (some (object b)) z e = absurd (ground arith)

  order_rows-All :
      (index : ℕ) (rows : List (Row n))
      → All RowOk rows
      → (es : List (Entry n)) × (order_rows n order_by index rows ≡ ok es) × Ordered rows es
  unfolding order_rows
  order_rows-All index [] h = ([], refl, (refl, tt))
  order_rows-All index (row ∷ rest) h =
      let (z, int) = h.0.0 in
      let (v, here, kept) = int_value (get n order_by row) z int in
      let (es, found, (same, right)) = order_rows-All index rest h.1 in
      (
        (v, index, row) ∷ es,
        rw (kept, found) refl,
        (ap (λ l. row ∷ l) same, ((here, (z, sym (ap (int_of n order_by) here) ∙ int)), right)),
      )

  rows_in-append :
      (a b : List (Entry n))
      → rows_in n order_by (a ++ b) ≡ rows_in n order_by a ++ rows_in n order_by b
  rows_in-append [] b = refl
  rows_in-append (e ∷ a) b = ap (λ l. e.2 ∷ l) (rows_in-append a b)

  order_shards-all :
      (index : ℕ) (results : List (Option (List (Row n))))
      → Complete results
      → (es : List (Entry n)) × (order_shards n order_by index results ≡ ok es)
        × Ordered (all_rows results) es
  unfolding order_shards
  order_shards-all index [] h = ([], refl, (refl, tt))
  order_shards-all index (none ∷ rest) h = elim h [ ]
  order_shards-all index (some rows ∷ rest) h =
      let (es, found, here) = order_rows-All index rows h.0 in
      let (others, more, there) = order_shards-all (suc index) rest h.1 in
      (
        es ++ others,
        rw (found, more) refl,
        (
          rows_in-append es others
              ∙ ap (λ l. l ++ rows_in n order_by others) here.0
              ∙ ap (λ l. rows ++ l) there.0,
          All-append (EntryOk n order_by) es others here.1 there.1,
        ),
      )

  Complete-HasPk :
      (results : List (Option (List (Row n)))) → Complete results → All HasPk (all_rows results)
  Complete-HasPk [] h = tt
  Complete-HasPk (none ∷ rest) h = elim h [ ]
  Complete-HasPk (some rows ∷ rest) h =
      All-append HasPk rows (all_rows rest)
        (All-by HasPk rows (λ r o. (All-In RowOk r rows h.0 o).1)) (Complete-HasPk rest h.1)

  -- `rows` is what all shards have, in order and with each primary key once.
  abbrev pub IsMerged : List (Row n) → List (Row n) → Type 0
  IsMerged given rows =
      Ascending n order_by rows
      × Distinct rows
      × ((r : Row n) → In r rows → In r given)
      × ((r : Row n)
          → In r given
          → (t : List ℕ) → pk_text r ≡ some t
          → (s : Row n) × In s rows × (pk_text s ≡ some t))

  listed_all :
      (es : List (Entry n)) (rows : List (Row n))
      → Kept [] es rows
      → (r : Row n) → In r (rows_in n order_by es)
      → (t : List ℕ) → pk_text r ≡ some t
      → (s : Row n) × In s rows × (pk_text s ≡ some t)
  listed_all es rows k r o t p = elim (k.listed r o t p) [
    | inl h ↦ absurd (ground arith)
    | inr found ↦ found
  ]

  -- If every shard has answered, and every row has an integer in the column to sort by and a
  -- primary key, then `merge` returns a page of one list whatever the offset and the limit: that list is
  -- ascending in the integer, has no primary key twice, and has the primary keys of all rows of all shards.
  pub merge_exact :
      (results : List (Option (List (Row n))))
      → Complete results
      → (rows : List (Row n)) × IsMerged (all_rows results) rows
        × ((offset limit : ℕ)
            → merge n order_by pk offset limit results ≡ ok (take limit (drop offset rows)))
  unfolding merge
  merge_exact results h =
      let (es, found, (same, right)) = order_shards-all 0 results h in
      let Given : Row n → Type 0 = λ r. In r (rows_in n order_by es) in
      let sorted = sort_by n es in
      let has_pks =
        sort-All n order_by HasPk es (subst (All HasPk) (sym same) (Complete-HasPk results h)) in
      let (rows, k) = keep_all [] sorted has_pks in
      let given = sort-All n order_by Given es (All-by Given (rows_in n order_by es) (λ r o. o)) in
      (
        rows,
        (
          k.ascending (sort-Ascending n order_by es right),
          k.distinct,
          λ r o. subst (In r) same (All-In Given r (rows_in n order_by sorted) given (k.from r o)),
          λ r o. listed_all sorted rows k r (sort-In n order_by r es (subst (In r) (sym same) o)),
        ),
        λ offset limit. rw (found, k.found) refl,
      )
