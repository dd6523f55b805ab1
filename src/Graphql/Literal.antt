-- ===== src/Graphql/Literal.antt =====
-- ecat-graphql/src/parser/strings.rs: the value of a string literal. serde_json, which decodes a
-- literal in double quotes, is a parameter; the text of its error is not kept.
use e_cat.Prelude.{
  ℕ, suc, ◌+◌, ◌-◌, ◌*◌, ◌/◌, ◌%◌, Bool, ◌&&◌, ◌||◌, not, Option, none, some, [], ◌∷◌, ◌++◌, length,
  take, drop, leb, ltb, ◌==◌, if◌then◌else◌,
}
use e_cat.Prelude.Result.{Result, ok, err}
use e_cat.Prelude.Loop.{Run, returned, failed, Step, stop, again, loop, ◌>>=◌}
use e_cat.Graphql.{
  Bytes, Value, string, ParseError, invalid_string_literal, invalid_unicode_escape, invalid_escape,
}
use e_cat.Graphql.Scan.{byte_quote, byte_apostrophe, byte_backslash, within, is_digit, at}

-- A digit of `from_str_radix(_, 16)`.
abbrev pub hex_digit : ℕ → Option ℕ
hex_digit c =
    if is_digit c
    then some (c - 48)
    else if within 97 102 c
    then some (c - 87)
    else if within 65 70 c
    then some (c - 55)
    else none

abbrev pub with_digit : ℕ → Option ℕ → Option ℕ
with_digit acc none = none
with_digit acc (some d) = some (acc * 16 + d)

abbrev pub hex_from : Option ℕ → Bytes → Option ℕ
hex_from acc [] = acc
hex_from none (c ∷ rest) = none
hex_from (some acc) (c ∷ rest) = hex_from (with_digit acc (hex_digit c)) rest

-- `u32::from_str_radix(hex, 16)` on four characters, which a leading `+` may be one of; four
-- digits do not overflow.
unfoldable pub hex_value : Bytes → Option ℕ
hex_value [] = none
hex_value (c ∷ rest) =
    if c == 43 && not (length rest == 0)
    then hex_from (some 0) rest
    else hex_from (some 0) (c ∷ rest)

-- `char::from_u32`: no surrogate.
abbrev pub is_char : ℕ → Bool
is_char code = ltb code 0xD800 || leb 0xE000 code && ltb code 0x110000

-- `char::encode_utf8`
unfoldable pub encode_utf8 : ℕ → Bytes
encode_utf8 code =
    if ltb code 0x80
    then code ∷ []
    else if ltb code 0x800
    then (0xC0 + code / 64) ∷ (0x80 + code % 64) ∷ []
    else if ltb code 0x10000
    then (0xE0 + code / 4096) ∷ (0x80 + code / 64 % 64) ∷ (0x80 + code % 64) ∷ []
    else (0xF0 + code / 262144)
      ∷ (0x80 + code / 4096 % 64)
      ∷ (0x80 + code / 64 % 64)
      ∷ (0x80 + code % 64)
      ∷ []

-- A byte of the Rust `String` that collects `*c as char` is two bytes of text from 0x80 on.
abbrev pub utf8_length : Bytes → ℕ
utf8_length [] = 0
utf8_length (c ∷ rest) = (if ltb c 0x80 then 1 else 2) + utf8_length rest

unfoldable pub unicode : Bytes → Result ParseError Bytes
unfolding hex_value encode_utf8
unicode hex =
    if not (utf8_length hex == 4) then err invalid_unicode_escape else elim (hex_value hex) [
      | none ↦ err invalid_unicode_escape
      | some code ↦ if is_char code then ok (encode_utf8 code) else err invalid_unicode_escape
    ]

-- The byte that a letter after a backslash stands for.
unfoldable pub escape : ℕ → Option ℕ
escape c =
    if c == byte_backslash || c == byte_quote || c == byte_apostrophe
    then some c
    else if c == 110
    then some 10
    else if c == 116
    then some 9
    else if c == 114
    then some 13
    else if c == 98
    then some 8
    else if c == 102
    then some 12
    else none

abbrev pub after_escape : Bytes → Bytes → Option ℕ → Step ParseError (Bytes × Bytes) Bytes
after_escape out rest none = stop (failed invalid_escape)
after_escape out rest (some c) = again (out ++ (c ∷ []), rest)

abbrev pub after_unicode :
    Bytes → Bytes → Result ParseError Bytes → Step ParseError (Bytes × Bytes) Bytes
after_unicode out rest (err e) = stop (failed e)
after_unicode out rest (ok bytes) = again (out ++ bytes, rest)

-- One round: what is decoded so far, and what the iterator has left.
unfoldable pub decode_round : Bytes × Bytes → Step ParseError (Bytes × Bytes) Bytes
unfolding unicode escape
decode_round (out, []) = stop (returned out)
decode_round (out, c ∷ []) =
    if not (c == byte_backslash) then again (out ++ (c ∷ []), []) else stop (failed invalid_escape)
decode_round (out, c ∷ d ∷ rest) =
    if not (c == byte_backslash)
    then again (out ++ (c ∷ []), d ∷ rest)
    else if d == 117
    then after_unicode out (drop 4 rest) (unicode (take 4 rest))
    else after_escape out rest (escape d)

abbrev pub as_string : Option Value → Run ParseError Value
as_string none = failed invalid_string_literal
as_string (some v) = returned v

-- The bytes between the first and the last.
abbrev pub inner : Bytes → Bytes
inner token = take (length token - 2) (drop 1 token)

module _ (from_slice : Bytes → Option Value) where
  unfoldable pub parse_string_literal : Bytes → Run ParseError Value
  unfolding decode_round loop
  parse_string_literal token = if at byte_quote token then as_string (from_slice token) else do
    out ← loop decode_round (suc (length (inner token))) ([], inner token)
    returned (string out)
