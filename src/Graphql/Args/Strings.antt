-- ===== src/Graphql/Args/Strings.antt =====
-- ecat-graphql/src/parser/mod.rs and strings.rs: the string literals among the values.
use e_cat.Prelude.{
  ℕ, suc, ◌≤◌, ◌<◌, Bool, true, false, not, Option, none, some, [], ◌∷◌, length, take, drop, ◌==◌,
  either_way, arith,
}
use e_cat.Prelude.Result.{Result, ok, err}
use e_cat.Prelude.Loop.{Run, Step, loop-Ensures, RoundOk, Ensures, holds, rejected, Ensures-bind}
use e_cat.Graphql.{Bytes, Value, ParseError}
use e_cat.Graphql.Scan.{byte_backslash, byte_quote, byte_comma, at}
use e_cat.Graphql.Scan.Shorter.{drop-le}
use e_cat.Graphql.Literal.{
  inner, after_escape, after_unicode, unicode, escape, decode_round, as_string,
  parse_string_literal,
}
use e_cat.Graphql.Args.{parsed_string, grouped, skip_comma}

abbrev pub Any : {A : Type 0} → A → Type 0
Any a = Unit {0}

abbrev DecodeOk : ℕ → Step ParseError (Bytes × Bytes) Bytes → Type 0
DecodeOk bound = RoundOk Any Any (λ s. length s.1) bound

after_escape-DecodeOk :
    (out rest : Bytes) (bound : ℕ) (o : Option ℕ)
    → length rest < bound
    → DecodeOk bound (after_escape out rest o)
after_escape-DecodeOk out rest bound none h = rejected
after_escape-DecodeOk out rest bound (some c) h = (tt, h)

after_unicode-DecodeOk :
    (out rest : Bytes) (bound : ℕ) (r : Result ParseError Bytes)
    → length rest < bound
    → DecodeOk bound (after_unicode out rest r)
after_unicode-DecodeOk out rest bound (err e) h = rejected
after_unicode-DecodeOk out rest bound (ok c) h = (tt, h)

decode_round-DecodeOk : (s : Bytes × Bytes) → DecodeOk (length s.1) (decode_round s)
unfolding decode_round
decode_round-DecodeOk (out, []) = holds tt
decode_round-DecodeOk (out, c ∷ []) =
    either_way (DecodeOk 1) (not (c == byte_backslash)) (tt, omega arith) rejected
decode_round-DecodeOk (out, c ∷ d ∷ rest) =
    let bound = length (c ∷ d ∷ rest) in
    either_way (DecodeOk bound) (not (c == byte_backslash)) (tt, omega arith)
      (either_way (DecodeOk bound) (d == 117)
        (after_unicode-DecodeOk out (drop 4 rest) bound (unicode (take 4 rest))
          (omega (arith, drop-le 4 rest)))
        (after_escape-DecodeOk out rest bound (escape d) (omega arith)))

as_string-Ensures : (o : Option Value) → Ensures Any (as_string o)
as_string-Ensures none = rejected
as_string-Ensures (some v) = holds tt

pub parse_string_literal-Ensures :
    (from_slice : Bytes → Option Value) (token : Bytes)
    → Ensures Any (parse_string_literal from_slice token)
unfolding parse_string_literal
parse_string_literal-Ensures from_slice token =
    either_way (Ensures Any) (at byte_quote token) (as_string-Ensures (from_slice token)) (
      Ensures-bind
        (loop-Ensures Any (λ s. length s.1) decode_round (λ s h. decode_round-DecodeOk s)
          (suc (length (inner token))) ([], inner token) (omega arith) tt)
        (λ out h. holds tt))

-- The position after a value is not before the value.
abbrev pub Reads : Bytes → Value × Bytes → Type 0
Reads b r = length r.1 ≤ length b

pub parsed_string-Ensures :
    (b : Bytes) (m : Run ParseError Value) (skipped : Bool × Bytes)
    → Ensures Any m
    → length skipped.1 ≤ length b
    → Ensures (Reads b) (parsed_string m skipped)
parsed_string-Ensures b m (true, rest) total h = Ensures-bind total (λ v k. holds h)
parsed_string-Ensures b m (false, rest) total h = rejected

pub grouped-Ensures :
    (b : Bytes) {skipped : Run ParseError Bytes} (parse : Bytes → Run ParseError Value)
    → Ensures (λ rest. length rest < length b) skipped
    → ((raw : Bytes) → Ensures Any (parse raw))
    → Ensures (Reads b) (grouped skipped parse b)
grouped-Ensures b parse forward total =
    Ensures-bind forward (λ rest less. Ensures-bind (total _) (λ v k. holds (omega arith)))

pub skip_comma-le : (b : Bytes) → length (skip_comma b) ≤ length b
skip_comma-le b =
    either_way (λ r. length r ≤ length b) (at byte_comma b) (drop-le 1 b) (omega arith)
