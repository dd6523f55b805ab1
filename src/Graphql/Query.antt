-- ===== src/Graphql/Query.antt =====
-- ecat-graphql/src/parser/mod.rs and validation.rs: the fields of a query, the query, and the
-- budget of its nodes. The depth is what is left of it, as in Graphql/Args.
pub mod Sets
pub mod Bounds
use e_cat.Prelude.{
  ℕ, zero, suc, ◌+◌, ◌-◌, Bool, true, false, ◌&&◌, ◌||◌, not, Option, none, some, List, [], ◌∷◌,
  length, take, drop, ltb, ◌==◌, if◌then◌else◌,
}
use e_cat.Prelude.Loop.{Run, returned, failed, out_of_fuel, Step, stop, again, loop, ◌>>=◌}
use e_cat.Graphql.{
  Bytes, Value, Entries, no_entry, FieldNode, leaf, branch, SelectionSet, no_field, field,
  set_field, Operation, query, mutation, subscription, ParsedField, ParseError, expected_selection,
  empty_selection, fragments_unsupported, expected_close, too_many_fields, too_deep,
  expected_field_name, aliases_unsupported, over_budget, max_depth,
}
use e_cat.Graphql.Scan.{
  byte_colon, byte_dot, byte_at, open_round, open_curly, close_curly, is_whitespace, is_ident_byte,
  at, starts_with, upto, span_ident, skip_ws, skip_parens, skip_directive,
}
use e_cat.Graphql.Args.{is_empty, parse_args}

abbrev pub FieldParser : Type 0
FieldParser = Bytes → Run ParseError (ParsedField × Bytes)

abbrev pub SelectionState : Type 0
SelectionState = SelectionSet × Bytes

-- `FieldNode { args: f.args, selection: f.selection }`
abbrev pub node_with : Entries → Option SelectionSet → FieldNode
node_with args none = leaf args
node_with args (some set) = branch args set

abbrev pub node : ParsedField → FieldNode
node f = node_with f.args f.selection

-- A round of a loop that skips, after the piece that it skips.
unfoldable pub skipped : Run ParseError Bytes → Step ParseError Bytes Bytes
unfolding skip_ws
skipped (returned rest) = again (skip_ws rest)
skipped (failed e) = stop (failed e)
skipped out_of_fuel = stop out_of_fuel

-- One directive, if there is one at the position.
unfoldable pub directive_round : Bytes → Step ParseError Bytes Bytes
unfolding skip_directive skipped
directive_round b = if at byte_at b then skipped (skip_directive b) else stop (returned b)

unfoldable pub skip_directives : Bytes → Run ParseError Bytes
unfolding directive_round loop
skip_directives b = loop directive_round (suc (length b)) b

-- What a round of the selection set does with the field that it read.
abbrev pub with_field :
    SelectionSet
    → Run ParseError (ParsedField × Bytes)
    → Step ParseError SelectionState (SelectionSet × Bytes)
with_field set (failed e) = stop (failed e)
with_field set out_of_fuel = stop out_of_fuel
with_field set (returned (f, rest)) = again (set_field f.name (node f) set, skip_ws rest)

-- `parse` reads a field at the depth of the set.
unfoldable pub selection_round :
    FieldParser → SelectionState → Step ParseError SelectionState (SelectionSet × Bytes)
unfolding skip_ws set_field
selection_round parse (set, []) = stop (failed expected_close)
selection_round parse (set, c ∷ rest) =
    if c == close_curly
    then stop (returned (set, rest))
    else if c == byte_dot
    then stop (failed fragments_unsupported)
    else with_field set (parse (c ∷ rest))

-- The position is at the `{`. Each round reads a field's name, so that the length is fuel enough.
unfoldable pub parse_selection_set : ℕ → FieldParser → Bytes → Run ParseError (SelectionSet × Bytes)
unfolding skip_ws selection_round loop
parse_selection_set zero parse b = failed too_deep
parse_selection_set (suc levels) parse b =
    let start = skip_ws (drop 1 b) in
    if is_empty start || at close_curly start
    then failed empty_selection
    else loop (selection_round parse) (suc (length start)) (no_field, start)

-- The keyword is taken only where a word ends.
abbrev pub ends_keyword : Bytes → Bool
ends_keyword [] = true
ends_keyword (c ∷ rest) = is_whitespace c || c == open_round || c == open_curly

unfoldable pub keyword : List (Bytes × Operation) → Bytes → Operation × Bytes
unfolding is_whitespace
keyword [] b = (query, b)
keyword ((kw, operation) ∷ more) b =
    let next = drop (length kw) b in
    if starts_with kw b && ends_keyword next then (operation, next) else keyword more b

abbrev pub keywords : List (Bytes × Operation)
keywords =
    (113 ∷ 117 ∷ 101 ∷ 114 ∷ 121 ∷ [], query)
    ∷ (109 ∷ 117 ∷ 116 ∷ 97 ∷ 116 ∷ 105 ∷ 111 ∷ 110 ∷ [], mutation)
    ∷ (115 ∷ 117 ∷ 98 ∷ 115 ∷ 99 ∷ 114 ∷ 105 ∷ 112 ∷ 116 ∷ 105 ∷ 111 ∷ 110 ∷ [], subscription)
    ∷ []

-- The operation's name, if it has one.
unfoldable pub skip_name : Bytes → Bytes
unfolding span_ident skip_ws
skip_name b = let (name, rest) = span_ident b in if is_empty name then b else skip_ws rest

-- One definition of variables, or one directive.
unfoldable pub header_round : Bytes → Step ParseError Bytes Bytes
unfolding skip_parens skipped directive_round
header_round b = if at open_round b then skipped (skip_parens b) else directive_round b

abbrev pub after_field : ParsedField → Bytes → Run ParseError ParsedField
after_field f [] = failed expected_close
after_field f (c ∷ rest) =
    if c == close_curly
    then returned f
    else if c == byte_dot
    then failed fragments_unsupported
    else failed too_many_fields

module _ (from_slice : Bytes → Option Value) (variables : Value) where
  -- The arguments, if there are any, and the position after them.
  unfoldable pub arguments_of : ℕ → Bytes → Run ParseError (Entries × Bytes)
  unfolding skip_parens parse_args skip_ws
  arguments_of levels b =
      if at open_round b
      then (do
        rest ← skip_parens b
        args ← parse_args from_slice variables levels (upto b rest)
        returned (args, skip_ws rest))
      else returned (no_entry, b)

  abbrev pub selection_of : ℕ → FieldParser → Bytes → Run ParseError (Option SelectionSet × Bytes)
  selection_of levels parse b =
      if at open_curly b
      then (do (set, rest) ← parse_selection_set levels parse b; returned (some set, rest))
      else returned (none, b)

  -- A field after its name; `parse` reads a field one level deeper.
  unfoldable pub field_after :
      ℕ → FieldParser → Operation → Bytes → Bytes → Run ParseError (ParsedField × Bytes)
  unfolding arguments_of skip_directives parse_selection_set
  field_after levels parse operation name b = do
    (args, after_args) ← arguments_of (suc levels) b
    after_directives ← skip_directives after_args
    (selection, rest) ← selection_of levels parse after_directives
    returned
        (record { operation = operation; name = name; args = args; selection = selection }, rest)

  unfoldable pub parse_field : ℕ → Operation → Bytes → Run ParseError (ParsedField × Bytes)
  unfolding skip_ws span_ident field_after
  parse_field zero operation b = failed too_deep
  parse_field (suc levels) operation b =
      let nested = parse_field levels query in
      let (name, after_name) = span_ident (skip_ws b) in
      let rest = skip_ws after_name in
      if is_empty name
      then failed expected_field_name
      else if at byte_colon rest
      then failed aliases_unsupported
      else field_after levels nested operation name rest

  -- The selection of the query, from the `{` on.
  unfoldable pub top_selection : Operation → Bytes → Run ParseError ParsedField
  unfolding skip_ws parse_field
  top_selection operation b =
      let start = skip_ws (drop 1 b) in
      if not (at open_curly b)
      then failed expected_selection
      else if is_empty start || at close_curly start
      then failed empty_selection
      else if at byte_dot start
      then failed fragments_unsupported
      else do (f, rest) ← parse_field (suc max_depth) operation start; after_field f (skip_ws rest)

  unfoldable pub parse_query : Bytes → Run ParseError ParsedField
  unfolding keyword skip_ws skip_name header_round top_selection loop
  parse_query b =
      let (operation, after_keyword) = keyword keywords (skip_ws b) in
      let start = skip_name (skip_ws after_keyword) in
      do rest ← loop header_round (suc (length start)) start; top_selection operation rest

unfoldable mutual
  pub complexity_node : FieldNode → ℕ
  complexity_node (leaf args) = 1
  complexity_node (branch args set) = 1 + complexity_set set

  pub complexity_set : SelectionSet → ℕ
  complexity_set no_field = 0
  complexity_set (field name n rest) = complexity_node n + complexity_set rest

unfoldable pub complexity : Option SelectionSet → ℕ
unfolding complexity_set
complexity none = 0
complexity (some set) = complexity_set set

unfoldable pub validate : ParsedField → ℕ → Run ParseError (Unit {0})
unfolding complexity
validate f max_complexity =
    let n = complexity f.selection + 1 in
    if ltb max_complexity n then failed (over_budget n max_complexity) else returned tt
