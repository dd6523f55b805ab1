-- ===== src/Graphql/Tests.antt =====
-- Runs of the parser, and the theorems on it at queries.
use e_cat.Prelude.{◌+◌, ◌≤◌, ◌≡◌, refl, ◌≢◌, Option, none, some, [], ◌∷◌, length}
use e_cat.Prelude.Loop.{returned, failed, out_of_fuel}
use e_cat.Graphql.{
  Bytes, Value, null, string, array, item, no_item, entry, no_entry, leaf, branch, field, no_field,
  query, ParsedField, max_depth, missing_variable,
}
use e_cat.Graphql.Query.{node, parse_query, complexity}
use e_cat.Graphql.Query.Sets.{height_node}
use e_cat.Graphql.Query.Bounds.{parse_query_terminates, parse_query_bounds}

-- serde_json, as one that knows no literal.
abbrev no_literal : Bytes → Option Value
no_literal token = none

-- `query Q @d { a(x: 's', y: [A B]) { b # c` and, on the next line, `d @k(z: 1) { e } } }`
abbrev sample : Bytes
sample =
    113 ∷ 117 ∷ 101 ∷ 114 ∷ 121 ∷ 32 ∷ 81 ∷ 32 ∷ 64 ∷ 100 ∷ 32 ∷ 123 ∷ 32 ∷ 97 ∷ 40 ∷ 120 ∷ 58 ∷ 32
    ∷ 39 ∷ 115 ∷ 39 ∷ 44 ∷ 32 ∷ 121 ∷ 58 ∷ 32 ∷ 91 ∷ 65 ∷ 32 ∷ 66 ∷ 93 ∷ 41 ∷ 32 ∷ 123 ∷ 32 ∷ 98
    ∷ 32 ∷ 35 ∷ 32 ∷ 99 ∷ 10 ∷ 100 ∷ 32 ∷ 64 ∷ 107 ∷ 40 ∷ 122 ∷ 58 ∷ 32 ∷ 49 ∷ 41 ∷ 32 ∷ 123 ∷ 32
    ∷ 101 ∷ 32 ∷ 125 ∷ 32 ∷ 125 ∷ 32 ∷ 125 ∷ []

abbrev sample_field : ParsedField
sample_field = record {
  operation = query;
  name = 97 ∷ [];
  args =
      entry (120 ∷ []) (string (115 ∷ []))
        (entry (121 ∷ []) (array (item (string (65 ∷ [])) no_item)) no_entry);
  selection = some (
      field (98 ∷ []) (leaf no_entry)
        (field (100 ∷ []) (branch no_entry (field (101 ∷ []) (leaf no_entry) no_field)) no_field));
}

sample_parsed : parse_query no_literal null sample ≡ returned sample_field
unfolding parse_query
sample_parsed = refl

parse_query_terminates_example : parse_query no_literal null sample ≢ out_of_fuel
parse_query_terminates_example = parse_query_terminates no_literal null sample

parse_query_bounds_example :
    (complexity sample_field.selection + 3 ≤ length sample)
    × (height_node (node sample_field) ≤ max_depth + 1)
parse_query_bounds_example = parse_query_bounds no_literal null sample sample_field sample_parsed

-- The argument of `{a(x:)}` has no value, and is read as the empty string.
left_out :
    parse_query no_literal null (123 ∷ 97 ∷ 40 ∷ 120 ∷ 58 ∷ 41 ∷ 125 ∷ [])
    ≡ returned (record {
      operation = query;
      name = 97 ∷ [];
      args = entry (120 ∷ []) (string []) no_entry;
      selection = none;
    })
unfolding parse_query
left_out = refl

-- `{a(x: $n)}` names a variable that is not given.
missing_variable_run :
    parse_query no_literal null (123 ∷ 97 ∷ 40 ∷ 120 ∷ 58 ∷ 32 ∷ 36 ∷ 110 ∷ 41 ∷ 125 ∷ [])
    ≡ failed (missing_variable (110 ∷ []))
unfolding parse_query
missing_variable_run = refl
