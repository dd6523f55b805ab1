-- ===== src/Graphql/Scan.antt =====
-- ecat-graphql/src/parser/mod.rs and strings.rs: the functions that move the position over a
-- piece of the query. Each takes the bytes from the position on and returns those that are left.
pub mod Shorter
use e_cat.Prelude.{
  ℕ, zero, suc, ◌+◌, ◌-◌, Bool, true, false, not, ◌&&◌, ◌||◌, List, [], ◌∷◌, ◌++◌, length, take,
  drop, leb, ◌==◌, if◌then◌else◌,
}
use e_cat.Prelude.Loop.{Run, returned, failed, Step, stop, again, loop, ◌>>=◌}
use e_cat.Graphql.{Bytes, ParseError, unterminated_string, unbalanced_group, unbalanced_parentheses}

abbrev pub byte_quote : ℕ
byte_quote = 34

abbrev pub byte_apostrophe : ℕ
byte_apostrophe = 39

abbrev pub byte_backslash : ℕ
byte_backslash = 92

abbrev pub byte_newline : ℕ
byte_newline = 10

abbrev pub byte_hash : ℕ
byte_hash = 35

abbrev pub byte_comma : ℕ
byte_comma = 44

abbrev pub byte_colon : ℕ
byte_colon = 58

abbrev pub byte_dot : ℕ
byte_dot = 46

abbrev pub byte_at : ℕ
byte_at = 64

abbrev pub byte_dollar : ℕ
byte_dollar = 36

abbrev pub open_round : ℕ
open_round = 40

abbrev pub close_round : ℕ
close_round = 41

abbrev pub open_square : ℕ
open_square = 91

abbrev pub close_square : ℕ
close_square = 93

abbrev pub open_curly : ℕ
open_curly = 123

abbrev pub close_curly : ℕ
close_curly = 125

abbrev pub within : ℕ → ℕ → ℕ → Bool
within low high c = leb low c && leb c high

-- `is_ascii_digit`, `is_ascii_whitespace`
abbrev pub is_digit : ℕ → Bool
is_digit c = within 48 57 c

unfoldable pub is_whitespace : ℕ → Bool
is_whitespace c = c == 32 || c == 9 || c == 10 || c == 12 || c == 13

unfoldable pub is_ident_byte : ℕ → Bool
is_ident_byte c = is_digit c || within 65 90 c || within 97 122 c || c == 95

unfoldable pub is_quote : ℕ → Bool
is_quote c = c == byte_quote || c == byte_apostrophe

-- The bytes from the position `b` up to the position `rest`.
abbrev pub upto : Bytes → Bytes → Bytes
upto b rest = take (length b - length rest) b

-- Whether the byte at the position is `c`.
abbrev pub at : ℕ → Bytes → Bool
at c [] = false
at c (x ∷ rest) = x == c

abbrev pub starts_with : Bytes → Bytes → Bool
starts_with [] b = true
starts_with (k ∷ ks) [] = false
starts_with (k ∷ ks) (x ∷ rest) = k == x && starts_with ks rest

-- The two loops, as one with a flag for the inside of a comment. The newline that ends a comment
-- is white space.
unfoldable pub skip_from : Bool → Bytes → Bytes
unfolding is_whitespace
skip_from comment [] = []
skip_from true (c ∷ rest) = skip_from (not (c == byte_newline)) rest
skip_from false (c ∷ rest) =
    if is_whitespace c || c == byte_hash then skip_from (c == byte_hash) rest else c ∷ rest

unfoldable pub skip_ws : Bytes → Bytes
unfolding skip_from
skip_ws b = skip_from false b

-- A loop that stops at the first byte that fails the test: the bytes it went over, and the rest.
unfoldable pub span : (ℕ → Bool) → Bytes → Bytes × Bytes
span p [] = ([], [])
span p (c ∷ rest) =
    let (taken, left) = span p rest in if p c then (c ∷ taken, left) else ([], c ∷ rest)

-- `span is_ident_byte`
unfoldable pub span_ident : Bytes → Bytes × Bytes
unfolding span is_ident_byte
span_ident b = span is_ident_byte b

-- A string is skipped with a success or a failure; a failure leaves a position too.
unfoldable pub skip_block : ℕ → Bytes → Bool × Bytes
skip_block quote [] = (false, [])
skip_block quote (c ∷ rest) =
    let further = skip_block quote rest in
    if c == quote && starts_with (quote ∷ quote ∷ []) rest then (true, drop 2 rest) else further

unfoldable pub skip_quoted : ℕ → Bytes → Bool × Bytes
skip_quoted quote [] = (false, [])
skip_quoted quote (c ∷ []) =
    if c == byte_backslash then (false, c ∷ []) else if c == quote then (true, []) else (false, [])
skip_quoted quote (c ∷ d ∷ rest) = elim (c == byte_backslash) [
  | true ↦ skip_quoted quote rest
  | false ↦ elim (c == quote) [ true ↦ (true, d ∷ rest) | false ↦ skip_quoted quote (d ∷ rest) ]
]

unfoldable pub skip_string : Bytes → Bool × Bytes
unfolding skip_block skip_quoted
skip_string [] = (false, [])
skip_string (quote ∷ rest) =
    if starts_with (quote ∷ quote ∷ []) rest
    then skip_block quote (drop 2 rest)
    else skip_quoted quote rest

-- `skip_string(b, i)?` as the last thing that a round does.
abbrev pub continue_at : {A : Type 0} → ℕ → Bool × Bytes → Step ParseError (ℕ × Bytes) A
continue_at depth (true, rest) = again (depth, rest)
continue_at depth (false, rest) = stop (failed unterminated_string)

-- One byte of a group: the depth so far, and the position.
unfoldable pub group_round : ℕ → ℕ → ParseError → ℕ × Bytes → Step ParseError (ℕ × Bytes) Bytes
unfolding skip_string is_quote
group_round open_byte close_byte e (depth, []) = stop (failed e)
group_round open_byte close_byte e (depth, c ∷ rest) =
    if c == open_byte
    then again (suc depth, rest)
    else if c == close_byte
    then (if depth - 1 == 0 then stop (returned rest) else again (depth - 1, rest))
    else if is_quote c
    then continue_at depth (skip_string (c ∷ rest))
    else again (depth, rest)

-- Each round moves the position on, so that the length is fuel enough.
unfoldable pub skip_group : ℕ → ℕ → ParseError → Bytes → Run ParseError Bytes
unfolding group_round loop
skip_group open_byte close_byte e b =
    loop (group_round open_byte close_byte e) (suc (length b)) (0, b)

unfoldable pub skip_balanced : ℕ → ℕ → Bytes → Run ParseError Bytes
unfolding skip_group
skip_balanced open_byte close_byte b = skip_group open_byte close_byte unbalanced_group b

-- The depth is at least 1 at a `)`, since the position is at a `(` in the beginning.
unfoldable pub skip_parens : Bytes → Run ParseError Bytes
unfolding skip_group
skip_parens b = skip_group open_round close_round unbalanced_parentheses b

-- The position is at the `@`.
unfoldable pub skip_directive : Bytes → Run ParseError Bytes
unfolding span_ident skip_ws skip_parens
skip_directive b =
    let rest = skip_ws (span_ident (drop 1 b)).1 in
    if at open_round rest then skip_parens rest else returned rest

-- The state of `split_top_level`: the parts, the rest from where the open part starts, the depths.
pub record Split : Type 0 where
  pub parts : List Bytes
  pub start : Bytes
  pub round : ℕ
  pub square : ℕ
  pub curly : ℕ
  pub rest : Bytes

-- The state `s` at the byte `c`, with `rest` after it.
unfoldable pub split_at : Split → ℕ → Bytes → Split
unfolding skip_string is_quote
split_at s c rest =
    let next = record s { rest = rest } in
    if is_quote c
    then record s { rest = (skip_string (c ∷ rest)).1 }
    else if c == open_round
    then record next { round = s.round + 1 }
    else if c == close_round
    then record next { round = s.round - 1 }
    else if c == open_square
    then record next { square = s.square + 1 }
    else if c == close_square
    then record next { square = s.square - 1 }
    else if c == open_curly
    then record next { curly = s.curly + 1 }
    else if c == close_curly
    then record next { curly = s.curly - 1 }
    else if c == byte_comma && s.round == 0 && s.square == 0 && s.curly == 0
    then record next { parts = s.parts ++ (upto s.start (c ∷ rest) ∷ []); start = rest }
    else next

abbrev pub split_next : {E : Type 0} → Split → Bytes → Step E Split (List Bytes)
split_next s [] = stop (returned (s.parts ++ (s.start ∷ [])))
split_next s (c ∷ rest) = again (split_at s c rest)

unfoldable pub split_round : {E : Type 0} → Split → Step E Split (List Bytes)
unfolding split_at
split_round s = split_next s s.rest

unfoldable pub split_top_level : {E : Type 0} → Bytes → Run E (List Bytes)
unfolding split_round loop
split_top_level raw =
    loop split_round (suc (length raw))
      (record { parts = []; start = raw; round = 0; square = 0; curly = 0; rest = raw })
