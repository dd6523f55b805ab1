-- ===== src/Graphql/Args/Total.antt =====
-- ecat-graphql/src/parser/mod.rs and strings.rs: a value and a list of arguments are read or
-- refused within the fuel.
use e_cat.Prelude.{
  ℕ, zero, suc, ◌≤◌, ◌<◌, ◌≡◌, refl, false, not, ◌&&◌, ◌||◌, Option, none, some, List, [], ◌∷◌,
  length, drop, ◌==◌, either_way, by_test, arith,
}
use e_cat.Prelude.Loop.{
  Run, returned, failed, out_of_fuel, Step, stop, again, loop-Ensures, RoundOk, Ensures, holds,
  rejected, Ensures-returned, Ensures-ne, Ensures-bind, Ensures-map, ◌>>=◌,
}
use e_cat.Graphql.{Bytes, Value, object, Entries, no_entry, ParseError, get, contains_key}
use e_cat.Graphql.Scan.{
  byte_quote, byte_apostrophe, byte_colon, byte_dollar, open_round, close_round, open_square,
  close_square, open_curly, close_curly, is_quote, is_whitespace, is_ident_byte, at, starts_with,
  upto, span, span_ident, skip_ws, skip_string,
}
use e_cat.Graphql.Scan.Shorter.{
  skip_ws-le, length-span, skip_string-lt, drop-le, skip_balanced-Ensures, split_top_level-Ensures,
}
use e_cat.Graphql.Literal.{inner, parse_string_literal}
use e_cat.Graphql.Args.{
  all, in_token, Parser, is_empty, parse_string, lookup_variable, found, value_here, parse_variable,
  token_value, parse_token, parse_items, parse_list, add_new, parse_entry, parse_entries,
  parse_input_object, value_at, parse_value, first_is_digit, with_argument, argument_at,
  argument_here, argument_round, parse_args,
}
use e_cat.Graphql.Args.Strings.{
  Any, parse_string_literal-Ensures, Reads, parsed_string-Ensures, grouped-Ensures, skip_comma-le,
}

pub is_empty-length : (b : Bytes) → is_empty b ≡ false → 0 < length b
is_empty-length [] e = absurd (ground arith)
is_empty-length (c ∷ rest) e = omega arith

abbrev ArgumentOk : ℕ → Step ParseError (Entries × Bytes) Entries → Type 0
ArgumentOk bound = RoundOk Any Any (λ s. length s.1) bound

weaken :
    (low high : ℕ) (step : Step ParseError (Entries × Bytes) Entries)
    → low ≤ high
    → ArgumentOk low step
    → ArgumentOk high step
weaken low high (stop o) h done = done
weaken low high (again s) h (_, less) = (tt, omega arith)

-- What a round does with the value.
argument-ArgumentOk :
    (args : Entries) (name b : Bytes) (bound : ℕ) (m : Run ParseError (Value × Bytes))
    → Ensures (Reads b) m
    → length b < bound
    → ArgumentOk bound (with_argument args name m)
argument-ArgumentOk args name b bound (failed e) h k = rejected
argument-ArgumentOk args name b bound out_of_fuel h k = absurd (Ensures-ne h refl)
argument-ArgumentOk args name b bound (returned (v, after_value)) h k =
    let read = Ensures-returned h refl in
    either_way (ArgumentOk bound) (contains_key name args) rejected
      (tt, omega (arith, skip_comma-le (skip_ws after_value), skip_ws-le after_value))

abbrev read_to : Bytes → Run ParseError Value → Run ParseError (Value × Bytes)
read_to b value = do v ← value; returned (v, b)

module _ (from_slice : Bytes → Option Value) (variables : Value) where
  parse_string-Ensures :
      (c : ℕ) (b : Bytes) → Ensures (Reads (c ∷ b)) (parse_string from_slice variables (c ∷ b))
  unfolding parse_string
  parse_string-Ensures c b =
      let skipped = skip_string (c ∷ b) in
      parsed_string-Ensures (c ∷ b) (parse_string_literal from_slice (upto (c ∷ b) skipped.1))
        skipped (parse_string_literal-Ensures from_slice (upto (c ∷ b) skipped.1))
        (omega (arith, skip_string-lt c b))

  found-Ensures :
      (name : Bytes) (o : Option Value) → Ensures Any (found from_slice variables name o)
  found-Ensures name none = rejected
  found-Ensures name (some v) = holds tt

  lookup_variable-Ensures :
      (v : Value) (name : Bytes) → Ensures Any (lookup_variable from_slice variables v name)
  lookup_variable-Ensures (object entries) name = found-Ensures name (get name entries)
  lookup_variable-Ensures _ name = rejected

  parse_variable-Ensures : (b : Bytes) → Ensures (Reads b) (parse_variable from_slice variables b)
  unfolding parse_variable span_ident
  parse_variable-Ensures b =
      let named = span_ident (drop 1 b) in
      Ensures-bind (lookup_variable-Ensures variables named.0)
        (λ v h. holds (omega (arith, length-span is_ident_byte (drop 1 b), drop-le 1 b)))

  token_value-Ensures :
      (token : Bytes) (o : Option Value) → Ensures Any (token_value from_slice variables token o)
  unfolding token_value
  token_value-Ensures token (some v) = holds tt
  token_value-Ensures token none =
      either_way (Ensures Any) (all is_ident_byte token && not (first_is_digit token)) (holds tt)
        rejected

  parse_token-Ensures : (b : Bytes) → Ensures (Reads b) (parse_token from_slice variables b)
  unfolding parse_token
  parse_token-Ensures b =
      let token = span in_token b in
      Ensures-bind (token_value-Ensures token.0 (from_slice token.0))
        (λ v h. holds (omega (arith, length-span in_token b)))

  module _ (value : Parser) (total : (b : Bytes) → Ensures (Reads b) (value b)) where
    parse_items-Ensures :
        (parts : List Bytes) → Ensures Any (parse_items from_slice variables value parts)
    unfolding parse_items
    parse_items-Ensures [] = holds tt
    parse_items-Ensures (part ∷ parts) =
        let later = parse_items-Ensures parts in
        either_way (Ensures Any) (all is_whitespace part) later
          (Ensures-bind (total part) (λ v h. Ensures-bind later (λ vs k. holds tt)))

    parse_list-Ensures : (raw : Bytes) → Ensures Any (parse_list from_slice variables value raw)
    unfolding parse_list
    parse_list-Ensures raw =
        Ensures-bind (split_top_level-Ensures (inner raw))
          (λ parts h. Ensures-bind (parse_items-Ensures parts) (λ items k. holds tt))

    add_new-Ensures :
        (name : Bytes) (v : Value) (map : Entries)
        → Ensures Any (add_new from_slice variables value name v map)
    unfolding add_new
    add_new-Ensures name v map =
        either_way (Ensures Any) (contains_key name map) rejected (holds tt)

    parse_entry-Ensures :
        (part : Bytes) (map : Entries)
        → Ensures Any (parse_entry from_slice variables value part map)
    unfolding parse_entry
    parse_entry-Ensures part map =
        let start = skip_ws part in
        let named = span_ident start in
        let rest = skip_ws named.1 in
        either_way (Ensures Any) (is_empty named.0)
          (either_way (Ensures Any) (at byte_quote start || at byte_apostrophe start) rejected
            rejected)
          (either_way (Ensures Any) (not (at byte_colon rest)) rejected
            (Ensures-bind (total (drop 1 rest)) (λ r h. add_new-Ensures named.0 r.0 map)))

    parse_entries-Ensures :
        (parts : List Bytes) (map : Entries)
        → Ensures Any (parse_entries from_slice variables value parts map)
    unfolding parse_entries
    parse_entries-Ensures [] map = holds tt
    parse_entries-Ensures (part ∷ parts) map =
        either_way (Ensures Any) (all is_whitespace part) (parse_entries-Ensures parts map)
          (Ensures-bind (parse_entry-Ensures part map) (λ map' h. parse_entries-Ensures parts map'))

    parse_input_object-Ensures :
        (raw : Bytes) → Ensures Any (parse_input_object from_slice variables value raw)
    unfolding parse_input_object
    parse_input_object-Ensures raw =
        Ensures-bind (split_top_level-Ensures (inner raw))
          (λ parts h. Ensures-bind (parse_entries-Ensures parts no_entry) (λ map k. holds tt))

    value_at-Ensures :
        (c : ℕ) (rest : Bytes)
        → Ensures (Reads (c ∷ rest)) (value_at from_slice variables value c (c ∷ rest))
    unfolding value_at
    value_at-Ensures c rest =
        let b = c ∷ rest in
        let Ok = Ensures (Reads b) in
        either_way Ok (is_quote c)
          (either_way Ok (starts_with (c ∷ c ∷ c ∷ []) b) rejected (parse_string-Ensures c rest))
          (either_way Ok (c == open_square)
            (grouped-Ensures b (parse_list from_slice variables value)
              (skip_balanced-Ensures open_square close_square b) parse_list-Ensures)
            (either_way Ok (c == open_curly)
              (grouped-Ensures b (parse_input_object from_slice variables value)
                (skip_balanced-Ensures open_curly close_curly b) parse_input_object-Ensures)
              (either_way Ok (c == byte_dollar) (parse_variable-Ensures b)
                (parse_token-Ensures b))))

    value_here-Ensures : (b : Bytes) → Ensures (Reads b) (value_here from_slice variables value b)
    value_here-Ensures [] = rejected
    value_here-Ensures (c ∷ rest) = value_at-Ensures c rest

  pub parse_value-Ensures :
      (levels : ℕ) (b : Bytes) → Ensures (Reads b) (parse_value from_slice variables levels b)
  unfolding parse_value
  parse_value-Ensures zero b = rejected
  parse_value-Ensures (suc levels) b =
      let deeper = parse_value-Ensures levels in
      Ensures-map (λ r h. omega (arith, skip_ws-le b))
        (value_here-Ensures (parse_value from_slice variables levels) deeper (skip_ws b))

  argument_at-ArgumentOk :
      (levels : ℕ) (args : Entries) (b : Bytes)
      → ArgumentOk (length b) (argument_at from_slice variables levels args (span_ident b))
  unfolding argument_at span_ident
  argument_at-ArgumentOk levels args b =
      let named = span_ident b in
      let rest = skip_ws named.1 in
      let start = skip_ws (drop 1 rest) in
      let Ok = ArgumentOk (length b) in
      let left = length-span is_ident_byte b in
      by_test Ok (is_empty named.0) (λ e. rejected)
        (λ e. either_way Ok (not (at byte_colon rest)) rejected (
          argument-ArgumentOk args named.0 start (length b)
            (parse_value from_slice variables levels start) (parse_value-Ensures levels start)
            (omega (
              arith,
              is_empty-length named.0 e,
              skip_ws-le (drop 1 rest),
              drop-le 1 rest,
              skip_ws-le named.1,
            ))))

  argument_here-ArgumentOk :
      (levels : ℕ) (args : Entries) (b : Bytes)
      → ArgumentOk (length b) (argument_here from_slice variables levels args b)
  argument_here-ArgumentOk levels args [] = rejected
  argument_here-ArgumentOk levels args (c ∷ rest) =
      either_way (ArgumentOk (length (c ∷ rest))) (c == close_round) (holds tt)
        (argument_at-ArgumentOk levels args (c ∷ rest))

  argument_round-RoundOk :
      (levels : ℕ) (s : Entries × Bytes)
      → ArgumentOk (length s.1) (argument_round from_slice variables levels s)
  unfolding argument_round
  argument_round-RoundOk levels (args, b) =
      weaken (length (skip_ws b)) (length b)
        (argument_here from_slice variables levels args (skip_ws b)) (skip_ws-le b)
        (argument_here-ArgumentOk levels args (skip_ws b))

  pub parse_args-Ensures :
      (levels : ℕ) (raw : Bytes) → Ensures Any (parse_args from_slice variables levels raw)
  unfolding parse_args
  parse_args-Ensures levels raw =
      let b = skip_ws raw in
      either_way (Ensures Any) (not (at open_round b)) rejected (
        loop-Ensures Any (λ s. length s.1) (argument_round from_slice variables levels)
          (λ s h. argument_round-RoundOk levels s) (suc (length b)) (no_entry, drop 1 b)
          (omega (arith, drop-le 1 b)) tt)
