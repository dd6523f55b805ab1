-- ===== src/Graphql/Args.antt =====
-- ecat-graphql/src/parser/mod.rs: the values and the arguments of a field. The depth is what is
-- left of it: `levels` is `MAX_DEPTH + 1 - depth`.
pub mod Strings
pub mod Total
use e_cat.Prelude.{
  ℕ, zero, suc, ◌+◌, ◌-◌, Bool, true, false, ◌&&◌, ◌||◌, not, Option, none, some, List, [], ◌∷◌,
  length, take, drop, ◌==◌, if◌then◌else◌,
}
use e_cat.Prelude.Loop.{Run, returned, failed, out_of_fuel, Step, stop, again, loop, ◌>>=◌}
use e_cat.Graphql.{
  Bytes, Value, string, array, object, Items, no_item, item, Entries, no_entry, entry, get,
  contains_key, insert_entry, ParseError, too_deep, expected_args, expected_args_close,
  expected_argument_name, expected_value, expected_colon, duplicate_argument, missing_variable,
  invalid_value, block_string, unterminated_string, quoted_field_name, expected_object_name,
}
use e_cat.Graphql.Scan.{
  byte_comma, byte_colon, byte_dollar, byte_quote, byte_apostrophe, open_round, close_round,
  open_square, close_square, open_curly, close_curly, is_digit, is_quote, is_whitespace,
  is_ident_byte, at, starts_with, upto, span, span_ident, skip_ws, skip_string, skip_balanced,
  skip_parens, split_top_level,
}
use e_cat.Graphql.Literal.{inner, parse_string_literal}

-- `token.iter().all(test)`
abbrev pub all : (ℕ → Bool) → Bytes → Bool
all p [] = true
all p (c ∷ rest) = p c && all p rest

abbrev pub first_is_digit : Bytes → Bool
first_is_digit [] = false
first_is_digit (c ∷ rest) = is_digit c

abbrev pub is_empty : Bytes → Bool
is_empty [] = true
is_empty (c ∷ rest) = false

-- A byte of a literal token.
unfoldable pub in_token : ℕ → Bool
unfolding is_whitespace
in_token c =
    not (is_whitespace c)
    && not (c == byte_comma || c == close_round || c == close_square || c == close_curly)

-- `(value, rest)`: the value read, and the position after it.
abbrev pub Parser : Type 0
Parser = Bytes → Run ParseError (Value × Bytes)

abbrev pub parsed_string : Run ParseError Value → Bool × Bytes → Run ParseError (Value × Bytes)
parsed_string value (true, rest) = do v ← value; returned (v, rest)
parsed_string value (false, rest) = failed unterminated_string

-- The group is skipped, and its bytes are parsed.
abbrev pub grouped : Run ParseError Bytes → (Bytes → Run ParseError Value) → Parser
grouped skipped parse b = do rest ← skipped; v ← parse (upto b rest); returned (v, rest)

-- The position after the comma, if there is one.
abbrev pub skip_comma : Bytes → Bytes
skip_comma b = if at byte_comma b then drop 1 b else b

-- What a round does with the value that it read.
abbrev pub with_argument :
    Entries → Bytes → Run ParseError (Value × Bytes) → Step ParseError (Entries × Bytes) Entries
with_argument args name (failed e) = stop (failed e)
with_argument args name out_of_fuel = stop out_of_fuel
with_argument args name (returned (v, rest)) =
    if contains_key name args
    then stop (failed (duplicate_argument name))
    else again (insert_entry name v args, skip_comma (skip_ws rest))

module _ (from_slice : Bytes → Option Value) (variables : Value) where
  unfoldable pub parse_string : Parser
  unfolding skip_string parse_string_literal
  parse_string b =
      let skipped = skip_string b in
      parsed_string (parse_string_literal from_slice (upto b skipped.1)) skipped

  abbrev found : Bytes → Option Value → Run ParseError Value
  found name none = failed (missing_variable name)
  found name (some v) = returned v

  abbrev lookup_variable : Value → Bytes → Run ParseError Value
  lookup_variable (object entries) name = found name (get name entries)
  lookup_variable other name = failed (missing_variable name)

  unfoldable pub parse_variable : Parser
  unfolding span_ident get
  parse_variable b =
      let (name, rest) = span_ident (drop 1 b) in
      do v ← lookup_variable variables name; returned (v, rest)

  -- What serde_json rejects may be a bare identifier, an enumeration's value.
  unfoldable pub token_value : Bytes → Option Value → Run ParseError Value
  unfolding is_ident_byte
  token_value token (some v) = returned v
  token_value token none =
      if all is_ident_byte token && not (first_is_digit token)
      then returned (string token)
      else failed (invalid_value token)

  unfoldable pub parse_token : Parser
  unfolding span in_token token_value
  parse_token b =
      let (token, rest) = span in_token b in
      do v ← token_value token (from_slice token); returned (v, rest)

  -- `value` reads a value one level deeper.
  module _ (value : Parser) where
    unfoldable pub parse_items : List Bytes → Run ParseError Items
    unfolding is_whitespace
    parse_items [] = returned no_item
    parse_items (part ∷ parts) =
        if all is_whitespace part
        then parse_items parts
        else do (v, rest) ← value part; vs ← parse_items parts; returned (item v vs)

    unfoldable pub parse_list : Bytes → Run ParseError Value
    unfolding split_top_level parse_items
    parse_list raw = do
      parts ← split_top_level (inner raw)
      items ← parse_items parts
      returned (array items)

    -- An `insert` of a key that is not there.
    unfoldable pub add_new : Bytes → Value → Entries → Run ParseError Entries
    unfolding contains_key insert_entry
    add_new name v map =
        if contains_key name map
        then failed (duplicate_argument name)
        else returned (insert_entry name v map)

    unfoldable pub parse_entry : Bytes → Entries → Run ParseError Entries
    unfolding skip_ws span_ident add_new is_quote
    parse_entry part map =
        let start = skip_ws part in
        let (name, after_name) = span_ident start in
        let rest = skip_ws after_name in
        if is_empty name
        then (if at byte_quote start || at byte_apostrophe start
            then failed quoted_field_name
            else failed expected_object_name)
        else if not (at byte_colon rest)
        then failed (expected_colon name)
        else do (v, after_value) ← value (drop 1 rest); add_new name v map

    unfoldable pub parse_entries : List Bytes → Entries → Run ParseError Entries
    unfolding parse_entry is_whitespace
    parse_entries [] map = returned map
    parse_entries (part ∷ parts) map =
        if all is_whitespace part
        then parse_entries parts map
        else do map' ← parse_entry part map; parse_entries parts map'

    unfoldable pub parse_input_object : Bytes → Run ParseError Value
    unfolding split_top_level parse_entries
    parse_input_object raw = do
      parts ← split_top_level (inner raw)
      map ← parse_entries parts no_entry
      returned (object map)

    -- A value that begins with the byte `c`, by that byte.
    unfoldable pub value_at : ℕ → Parser
    unfolding parse_string parse_list parse_input_object parse_variable parse_token is_quote
        skip_balanced
    value_at c b =
        if is_quote c
        then (if starts_with (c ∷ c ∷ c ∷ []) b then failed block_string else parse_string b)
        else if c == open_square
        then grouped (skip_balanced open_square close_square b) parse_list b
        else if c == open_curly
        then grouped (skip_balanced open_curly close_curly b) parse_input_object b
        else if c == byte_dollar
        then parse_variable b
        else parse_token b

    abbrev value_here : Parser
    value_here [] = failed expected_value
    value_here (c ∷ rest) = value_at c (c ∷ rest)

  unfoldable pub parse_value : ℕ → Parser
  unfolding value_at skip_ws
  parse_value zero b = failed too_deep
  parse_value (suc levels) b = value_here (parse_value levels) (skip_ws b)

  -- One round of `parse_args`, after the argument's name.
  unfoldable pub argument_at :
      ℕ → Entries → Bytes × Bytes → Step ParseError (Entries × Bytes) Entries
  unfolding skip_ws parse_value contains_key insert_entry
  argument_at levels args (name, after_name) =
      let rest = skip_ws after_name in
      if is_empty name
      then stop (failed expected_argument_name)
      else if not (at byte_colon rest)
      then stop (failed (expected_colon name))
      else with_argument args name (parse_value levels (skip_ws (drop 1 rest)))

  abbrev pub argument_here : ℕ → Entries → Bytes → Step ParseError (Entries × Bytes) Entries
  argument_here levels args [] = stop (failed expected_args_close)
  argument_here levels args (c ∷ rest) =
      if c == close_round
      then stop (returned args)
      else argument_at levels args (span_ident (c ∷ rest))

  unfoldable pub argument_round : ℕ → Entries × Bytes → Step ParseError (Entries × Bytes) Entries
  unfolding argument_at skip_ws span_ident
  argument_round levels (args, b) = argument_here levels args (skip_ws b)

  -- Each round reads a name, so that the length is fuel enough.
  unfoldable pub parse_args : ℕ → Bytes → Run ParseError Entries
  unfolding skip_ws argument_round loop
  parse_args levels raw =
      let b = skip_ws raw in
      if not (at open_round b)
      then failed expected_args
      else loop (argument_round levels) (suc (length b)) (no_entry, drop 1 b)
