-- ===== src/Sharding/Scatter/Whole.antt =====
-- ecat-data-sharding/src/scatter.rs: rows are returned only if all shards have answered.
use e_cat.Prelude.{
  ◌≡◌, refl, String, ◌==◌, Bool, true, false, Option, some, List, [], ◌∷◌, ◌++◌, length,
  if◌then◌else◌, either_way, subst, arith,
}
use e_cat.Prelude.Result.{Result, ok, err, ◌>>=◌, ◌>>◌}
use e_cat.Sharding.Error.{ShardError, config, partial_failure}
use e_cat.Sharding.Catalog.{ShardTable, is_empty, contains, find_table, or_unknown}
use e_cat.Sharding.Router.{ShardRouter, check_endpoints}
use e_cat.Sharding.Scatter.{
  Numbers, Row, merge, ScatterRequest, Outcome, answered, failed, unfinished, panicked, rows_of,
  has_panicked, failed_names, unfinished_names, gathered, scatter,
}

module _ (n : Numbers) where
  abbrev pub AllAnswered : List (Outcome n) → Type 0
  AllAnswered [] = Unit
  AllAnswered (answered rows ∷ rest) = AllAnswered rest
  AllAnswered (o ∷ rest) = ⊥

  joined :
      (names : List String) (s : String)
      → is_empty (if contains names s then names else names ++ s ∷ []) ≡ false
  joined [] s = refl
  joined (x ∷ names) s = either_way (λ l. is_empty l ≡ false) (contains (x ∷ names) s) refl refl

  names_stay :
      (names shards : List String) (outcomes : List (Outcome n))
      → is_empty names ≡ false
      → is_empty (unfinished_names n names shards outcomes) ≡ false
  names_stay names [] outcomes h = h
  names_stay names (s ∷ shards) [] h = h
  names_stay names (s ∷ shards) (answered rows ∷ rest) h = names_stay names shards rest h
  names_stay names (s ∷ shards) (failed ∷ rest) h = names_stay names shards rest h
  names_stay names (s ∷ shards) (panicked ∷ rest) h = names_stay names shards rest h
  names_stay names (s ∷ shards) (unfinished ∷ rest) h =
      names_stay (if contains names s then names else names ++ s ∷ []) shards rest (joined names s)

  none_named :
      (shards : List String) (outcomes : List (Outcome n))
      → length outcomes ≡ length shards
      → has_panicked n outcomes ≡ false
      → is_empty (unfinished_names n (failed_names n shards outcomes) shards outcomes) ≡ true
      → AllAnswered outcomes
  none_named [] [] e p h = tt
  none_named [] (o ∷ outcomes) e p h = absurd (omega arith)
  none_named (s ∷ shards) [] e p h = tt
  none_named (s ∷ shards) (answered rows ∷ rest) e p h = none_named shards rest (omega arith) p h
  none_named (s ∷ shards) (panicked ∷ rest) e p h = absurd (ground arith)
  none_named (s ∷ shards) (failed ∷ rest) e p h =
      absurd (ground (arith, names_stay (s ∷ failed_names n shards rest) shards rest refl))
  none_named (s ∷ shards) (unfinished ∷ rest) e p h =
      let names = failed_names n shards rest in
      let more =
        names_stay (if contains names s then names else names ++ s ∷ []) shards rest
          (joined names s) in
      absurd (ground arith)

  gathered_whole :
      (sort : List String → List String) (req : ScatterRequest n) (t : ShardTable)
      (outcomes : List (Outcome n)) (rows : List (Row n))
      → length outcomes ≡ length t.shards
      → gathered n sort req t outcomes ≡ ok rows
      → AllAnswered outcomes
        × (merge n req.order_by t.pk req.offset req.limit (rows_of n outcomes) ≡ ok rows)
  unfolding gathered
  gathered_whole sort req t outcomes rows e h =
      by_outcome (has_panicked n outcomes) (is_empty names) refl refl h
    where
      names : List String
      names = unfinished_names n (failed_names n t.shards outcomes) t.shards outcomes

      by_outcome :
          (b d : Bool)
          → has_panicked n outcomes ≡ b
          → is_empty names ≡ d
          → (if b
              then err config
              else if d
              then merge n req.order_by t.pk req.offset req.limit (rows_of n outcomes)
              else err (partial_failure (sort names)))
            ≡ ok rows
          → AllAnswered outcomes
            × (merge n req.order_by t.pk req.offset req.limit (rows_of n outcomes) ≡ ok rows)
      by_outcome true d p q h = absurd (ground arith)
      by_outcome false true p q h = (none_named t.shards outcomes e p q, h)
      by_outcome false false p q h = absurd (ground arith)

  -- A scatter that returns rows has had an answer of every shard of the table, and returns what the merge
  -- of all of them comes to: there is no partial result. `outcomes` has one for each shard.
  pub scatter_whole :
      (sort : List String → List String) (r : ShardRouter) (req : ScatterRequest n) (t : ShardTable)
      (outcomes : List (Outcome n)) (rows : List (Row n))
      → find_table r.catalog req.table ≡ some t
      → length outcomes ≡ length t.shards
      → scatter n sort r req outcomes ≡ ok rows
      → AllAnswered outcomes
        × (merge n req.order_by t.pk req.offset req.limit (rows_of n outcomes) ≡ ok rows)
  unfolding scatter
  scatter_whole sort r req t outcomes rows found e h = by_limit (req.max_concurrency == 0) h
    where
      by_clients :
          (c : Result ShardError (Unit {0}))
          → (c >> gathered n sort req t outcomes) ≡ ok rows
          → AllAnswered outcomes
            × (merge n req.order_by t.pk req.offset req.limit (rows_of n outcomes) ≡ ok rows)
      by_clients (ok _) h = gathered_whole sort req t outcomes rows e h
      by_clients (err x) h = absurd (ground arith)

      by_limit :
          (b : Bool)
          → (if b
              then err config
              else or_unknown req.table (find_table r.catalog req.table) >>= λ t'.
                  check_endpoints r.clients t'.shards >> gathered n sort req t' outcomes)
            ≡ ok rows
          → AllAnswered outcomes
            × (merge n req.order_by t.pk req.offset req.limit (rows_of n outcomes) ≡ ok rows)
      by_limit true h = absurd (ground arith)
      by_limit false h = by_clients (check_endpoints r.clients t.shards) (
          subst
            (λ (o : Option ShardTable).
              (or_unknown req.table o >>= λ t'.
              check_endpoints r.clients t'.shards >> gathered n sort req t' outcomes)
              ≡ ok rows)
            found h)
