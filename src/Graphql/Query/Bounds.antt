-- ===== src/Graphql/Query/Bounds.antt =====
-- ecat-graphql/src/parser/mod.rs and validation.rs: every query is parsed or refused within the
-- fuel, and what is parsed is no larger than the query and no deeper than the limit.
use e_cat.Prelude.{
  ℕ, zero, suc, ◌+◌, ◌≤◌, ◌≡◌, ◌≢◌, refl, not, ◌&&◌, ◌||◌, Option, none, some, List, [], ◌∷◌,
  length, drop, ◌==◌, either_way, by_test, arith,
}
use e_cat.Prelude.Loop.{
  returned, out_of_fuel, loop-Ensures, Ensures, holds, rejected, Ensures-returned, Ensures-ne,
  Ensures-bind, Ensures-map,
}
use e_cat.Graphql.{Bytes, Value, Entries, SelectionSet, Operation, query, ParsedField, max_depth}
use e_cat.Graphql.Scan.{
  byte_colon, byte_dot, open_round, open_curly, close_curly, starts_with, is_ident_byte, at, upto,
  span_ident, skip_ws,
}
use e_cat.Graphql.Scan.Shorter.{skip_ws-le, length-span, drop-le, skip_parens-Ensures}
use e_cat.Graphql.Args.{is_empty}
use e_cat.Graphql.Args.Total.{is_empty-length, parse_args-Ensures}
use e_cat.Graphql.Query.{
  FieldParser, node_with, node, arguments_of, selection_of, field_after, parse_field, keyword,
  keywords, ends_keyword, skip_name, header_round, after_field, top_selection, parse_query,
  complexity_node, complexity,
}
use e_cat.Graphql.Query.Sets.{
  height_node, FieldFits, header_round-SkipOk, skip_directives-Ensures, parse_selection_set-Ensures,
}

keyword-le : (words : List (Bytes × Operation)) (b : Bytes) → length (keyword words b).1 ≤ length b
unfolding keyword
keyword-le [] b = omega arith
keyword-le ((kw, operation) ∷ more) b =
    let further = keyword-le more b in
    either_way (λ (r : Operation × Bytes). length r.1 ≤ length b)
      (starts_with kw b && ends_keyword (drop (length kw) b)) (drop-le (length kw) b) further

skip_name-le : (b : Bytes) → length (skip_name b) ≤ length b
unfolding skip_name span_ident
skip_name-le b =
    let named = span_ident b in
    let further : length (skip_ws named.1) ≤ length b =
      omega (arith, skip_ws-le named.1, length-span is_ident_byte b) in
    let none_read : length b ≤ length b = omega arith in
    either_way (λ (r : Bytes). length r ≤ length b) (is_empty named.0) none_read further

of_selection :
    (args : Entries) (o : Option SelectionSet)
    → complexity_node (node_with args o) ≡ complexity o + 1
unfolding complexity_node complexity
of_selection args none = refl
of_selection args (some set) = omega arith

pub complexity_of_node : (f : ParsedField) → complexity_node (node f) ≡ complexity f.selection + 1
complexity_of_node f = of_selection f.args f.selection

module _ (from_slice : Bytes → Option Value) (variables : Value) where
  arguments_of-Ensures :
      (levels : ℕ) (b : Bytes)
      → Ensures (λ r. length r.1 ≤ length b) (arguments_of from_slice variables levels b)
  unfolding arguments_of
  arguments_of-Ensures levels b =
      either_way (Ensures (λ r. length r.1 ≤ length b)) (at open_round b)
        (Ensures-bind (skip_parens-Ensures b) (λ rest less.
          Ensures-bind (parse_args-Ensures from_slice variables levels (upto b rest))
            (λ args h. holds (omega (arith, skip_ws-le rest)))))
        (holds (omega arith))

  -- A selection that is absent, or fits.
  abbrev SelectionFits : ℕ → ℕ → Option SelectionSet × Bytes → Type 0
  SelectionFits levels size (selection, rest) =
      (args : Entries)
      → FieldFits (suc levels) (suc size)
          (record { operation = query; name = []; args = args; selection = selection }, rest)

  selection_of-Ensures :
      (levels : ℕ) (parse : FieldParser)
      → ((b : Bytes) → Ensures (FieldFits levels (length b)) (parse b))
      → (b : Bytes)
      → Ensures (SelectionFits levels (length b)) (selection_of from_slice variables levels parse b)
  unfolding complexity_node height_node
  selection_of-Ensures levels parse fits b =
      by_test (Ensures (SelectionFits levels (length b))) (at open_curly b)
        (λ e.
          Ensures-bind (parse_selection_set-Ensures levels parse fits b e)
            (λ r h. holds (λ args. (omega arith, omega arith))))
        (λ e. holds (λ args. (omega arith, omega arith)))

  field_after-Ensures :
      (levels : ℕ) (parse : FieldParser) (operation : Operation) (name b : Bytes)
      → ((c : Bytes) → Ensures (FieldFits levels (length c)) (parse c))
      → Ensures
          (FieldFits (suc levels) (suc (length b)))
          (field_after from_slice variables levels parse operation name b)
  unfolding field_after
  field_after-Ensures levels parse operation name b fits =
      Ensures-bind (arguments_of-Ensures (suc levels) b) (λ a after_args.
        Ensures-bind (skip_directives-Ensures a.1) (λ rest after_directives.
          Ensures-bind (selection_of-Ensures levels parse fits rest)
            (λ s h. holds (omega (arith, (h a.0).0), (h a.0).1))))

  parse_field-Ensures :
      (levels : ℕ) (operation : Operation) (b : Bytes)
      → Ensures (FieldFits levels (length b)) (parse_field from_slice variables levels operation b)
  unfolding parse_field span_ident
  parse_field-Ensures zero operation b = rejected
  parse_field-Ensures (suc levels) operation b =
      let nested = parse_field from_slice variables levels query in
      let named = span_ident (skip_ws b) in
      let rest = skip_ws named.1 in
      let Ok = Ensures (FieldFits (suc levels) (length b)) in
      by_test Ok (is_empty named.0) (λ e. rejected)
        (λ e. either_way Ok (at byte_colon rest) rejected (
          Ensures-map
            (λ r h. (
              omega (
                arith,
                skip_ws-le b,
                skip_ws-le named.1,
                is_empty-length named.0 e,
                length-span is_ident_byte (skip_ws b),
              ),
              h.1,
            ))
            (field_after-Ensures levels nested operation named.0 rest
              (parse_field-Ensures levels query))))

  -- The two braces of the query are not of the field.
  abbrev pub QueryFits : ℕ → ParsedField → Type 0
  QueryFits size f = (complexity_node (node f) + 2 ≤ size) × (height_node (node f) ≤ suc max_depth)

  after_field-Ensures :
      (f : ParsedField) (rest : Bytes) (size : ℕ)
      → FieldFits (suc max_depth) size (f, rest)
      → Ensures (QueryFits (suc size)) (after_field f rest)
  after_field-Ensures f [] size h = rejected
  after_field-Ensures f (c ∷ rest) size h =
      let Ok = Ensures (QueryFits (suc size)) in
      either_way Ok (c == close_curly) (holds (omega arith, h.1))
        (either_way Ok (c == byte_dot) rejected rejected)

  top_selection-Ensures :
      (operation : Operation) (b : Bytes)
      → Ensures (QueryFits (length b)) (top_selection from_slice variables operation b)
  unfolding top_selection
  top_selection-Ensures operation [] = rejected
  top_selection-Ensures operation (c ∷ b) =
      let start = skip_ws b in
      let Ok = Ensures (QueryFits (suc (length b))) in
      either_way Ok (not (c == open_curly)) rejected (
        either_way Ok (is_empty start || at close_curly start) rejected (
          either_way Ok (at byte_dot start) rejected (
            Ensures-bind (parse_field-Ensures (suc max_depth) operation start) (λ r h.
              after_field-Ensures r.0 (skip_ws r.1) (length b)
                (omega (arith, skip_ws-le b, skip_ws-le r.1), h.1)))))

  pub parse_query-Ensures :
      (b : Bytes) → Ensures (QueryFits (length b)) (parse_query from_slice variables b)
  unfolding parse_query
  parse_query-Ensures b =
      let kept = keyword keywords (skip_ws b) in
      let start = skip_name (skip_ws kept.1) in
      let header =
        loop-Ensures (λ (s : Bytes). length s ≤ length start) length header_round
          (header_round-SkipOk (length start)) (suc (length start)) start (omega arith)
          (omega arith) in
      Ensures-bind header (λ rest less.
        Ensures-map
          (λ f h. (
            omega (
              arith,
              skip_ws-le b,
              keyword-le keywords (skip_ws b),
              skip_ws-le kept.1,
              skip_name-le (skip_ws kept.1),
            ),
            h.1,
          ))
          (top_selection-Ensures kept.0 rest))

  -- Every query, whatever its bytes, is parsed or refused with a message: none runs out of the fuel
  -- of a loop, which is the number of the bytes that the loop starts at.
  pub parse_query_terminates : (b : Bytes) → parse_query from_slice variables b ≢ out_of_fuel
  parse_query_terminates b = Ensures-ne (parse_query-Ensures b)

  -- What `parse_query` returns has two nodes less than the query has bytes, at most, as `validate`
  -- counts them, and at most `MAX_DEPTH + 1` levels of fields.
  pub parse_query_bounds :
      (b : Bytes) (f : ParsedField)
      → parse_query from_slice variables b ≡ returned f
      → (complexity f.selection + 3 ≤ length b) × (height_node (node f) ≤ max_depth + 1)
  parse_query_bounds b f e =
      let (small, low) : QueryFits (length b) f = Ensures-returned (parse_query-Ensures b) e in
      (omega (arith, complexity_of_node f), omega arith)
