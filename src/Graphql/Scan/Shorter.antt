-- ===== src/Graphql/Scan/Shorter.antt =====
-- ecat-graphql/src/parser/mod.rs: the position never moves back, and a loop over it ends.
use e_cat.Prelude.{
  ℕ, suc, ◌+◌, ◌-◌, ◌≤◌, ◌<◌, ◌≡◌, refl, Bool, true, false, not, ◌&&◌, [], ◌∷◌, length, drop,
  length-drop, ◌==◌, either_way, arith,
}
use e_cat.Prelude.Loop.{Step, again, loop-Ensures, RoundOk, Ensures, holds, rejected, Ensures-map}
use e_cat.Graphql.{Bytes, ParseError, unbalanced_group, unbalanced_parentheses}
use e_cat.Graphql.Scan.{
  is_quote, is_ident_byte, at, skip_from, skip_ws, span, span_ident, skip_block, skip_quoted,
  skip_string, continue_at, group_round, skip_group, skip_balanced, skip_parens, skip_directive,
  Split, split_at, split_next, split_round, split_top_level, open_round, close_round, open_square,
  close_square, open_curly, close_curly, byte_comma,
}

pub skip_from-le : (comment : Bool) (b : Bytes) → length (skip_from comment b) ≤ length b
unfolding skip_from
skip_from-le true [] = omega arith
skip_from-le false [] = omega arith
skip_from-le true (c ∷ rest) = omega (arith, skip_from-le (not (c == 10)) rest)
skip_from-le false (c ∷ rest) = let further = skip_from-le (c == 35) rest in ground arith

pub skip_ws-le : (b : Bytes) → length (skip_ws b) ≤ length b
unfolding skip_ws
skip_ws-le b = skip_from-le false b

pub length-span : (p : ℕ → Bool) (b : Bytes) → length (span p b).0 + length (span p b).1 ≡ length b
unfolding span
length-span p [] = refl
length-span p (c ∷ rest) = let further = length-span p rest in ground arith

skip_block-le : (q : ℕ) (b : Bytes) → length (skip_block q b).1 ≤ length b
unfolding skip_block
skip_block-le q [] = omega arith
skip_block-le q (c ∷ rest) =
    let further = skip_block-le q rest in ground (arith, length-drop 2 rest)

skip_quoted-le : (q : ℕ) (b : Bytes) → length (skip_quoted q b).1 ≤ length b
unfolding skip_quoted
skip_quoted-le q [] = omega arith
skip_quoted-le q (c ∷ []) = ground arith
skip_quoted-le q (c ∷ d ∷ rest) =
    let skipped = skip_quoted-le q rest in let next = skip_quoted-le q (d ∷ rest) in ground arith

pub skip_string-lt : (c : ℕ) (b : Bytes) → length (skip_string (c ∷ b)).1 < length (c ∷ b)
unfolding skip_string
skip_string-lt c b =
    let block = skip_block-le c (drop 2 b) in
    let plain = skip_quoted-le c b in ground (arith, length-drop 2 b)

pub at-length : (c : ℕ) (b : Bytes) → at c b ≡ true → 0 < length b
at-length c [] h = absurd (ground arith)
at-length c (x ∷ rest) h = omega arith

pub drop-le : (n : ℕ) (b : Bytes) → length (drop n b) ≤ length b
drop-le n b = omega (arith, length-drop n b)

module _ (n : ℕ) where
  -- The position is before `n`, and a round moves it on.
  abbrev GroupOk : ℕ → Step ParseError (ℕ × Bytes) Bytes → Type 0
  GroupOk bound = RoundOk (λ s. length s.1 ≤ n) (λ rest. length rest < n) (λ s. length s.1) bound

  continue_at-GroupOk :
      (depth : ℕ) (bound : ℕ) (skipped : Bool × Bytes)
      → length skipped.1 < bound
      → bound ≤ n
      → GroupOk bound (continue_at depth skipped)
  continue_at-GroupOk depth bound (true, rest) h k = (omega arith, h)
  continue_at-GroupOk depth bound (false, rest) h k = rejected

  group_round-GroupOk :
      (l r : ℕ) (e : ParseError) (s : ℕ × Bytes)
      → length s.1 ≤ n
      → GroupOk (length s.1) (group_round l r e s)
  unfolding group_round
  group_round-GroupOk l r e (depth, []) h = rejected
  group_round-GroupOk l r e (depth, c ∷ rest) h =
      let Ok = GroupOk (length (c ∷ rest)) in
      let moved : GroupOk (length (c ∷ rest)) (again (depth, rest)) = (omega arith, omega arith) in
      either_way Ok (c == l) moved (
        either_way Ok (c == r) (either_way Ok (depth - 1 == 0) (holds h) moved) (
          either_way Ok (is_quote c)
            (continue_at-GroupOk depth (length (c ∷ rest)) (skip_string (c ∷ rest))
              (skip_string-lt c rest) h)
            moved))

pub skip_group-Ensures :
    (l r : ℕ) (e : ParseError) (b : Bytes)
    → Ensures (λ rest. length rest < length b) (skip_group l r e b)
unfolding skip_group
skip_group-Ensures l r e b =
    loop-Ensures (λ (s : ℕ × Bytes). length s.1 ≤ length b) (λ s. length s.1) (group_round l r e)
      (group_round-GroupOk (length b) l r e) (suc (length b)) (0, b) (omega arith) (omega arith)

pub skip_balanced-Ensures :
    (l r : ℕ) (b : Bytes) → Ensures (λ rest. length rest < length b) (skip_balanced l r b)
unfolding skip_balanced
skip_balanced-Ensures l r b = skip_group-Ensures l r unbalanced_group b

pub skip_parens-Ensures : (b : Bytes) → Ensures (λ rest. length rest < length b) (skip_parens b)
unfolding skip_parens
skip_parens-Ensures b = skip_group-Ensures open_round close_round unbalanced_parentheses b

pub skip_directive-Ensures :
    (b : Bytes) → 0 < length b → Ensures (λ rest. length rest < length b) (skip_directive b)
unfolding skip_directive span_ident
skip_directive-Ensures b h =
    let named = span_ident (drop 1 b) in
    let rest = skip_ws named.1 in
    let back : length rest < length b =
      omega (arith, skip_ws-le named.1, length-span is_ident_byte (drop 1 b), length-drop 1 b) in
    either_way (Ensures (λ r. length r < length b)) (at open_round rest)
      (Ensures-map (λ r k. omega arith) (skip_parens-Ensures rest)) (holds back)

-- A split advances by a byte or by a string.
split_at-lt :
    (s : Split) (c : ℕ) (rest : Bytes) → length (split_at s c rest).rest < length (c ∷ rest)
unfolding split_at
split_at-lt s c rest =
    let one : length rest < length (c ∷ rest) = omega arith in
    let Back = λ (t : Split). length t.rest < length (c ∷ rest) in
    either_way Back (is_quote c) (skip_string-lt c rest) (
      either_way Back (c == open_round) one (
        either_way Back (c == close_round) one (
          either_way Back (c == open_square) one (
            either_way Back (c == close_square) one (
              either_way Back (c == open_curly) one (
                either_way Back (c == close_curly) one (
                  either_way Back (c == byte_comma && s.round == 0 && s.square == 0 && s.curly == 0)
                    one one)))))))

split_next-RoundOk :
    (E : Type 0) (s : Split) (rest : Bytes)
    → RoundOk {E = E}
        (λ _. Unit {0})
        (λ _. Unit {0})
        (λ t. length t.rest)
        (length rest)
        (split_next s rest)
split_next-RoundOk E s [] = holds tt
split_next-RoundOk E s (c ∷ rest) = (tt, split_at-lt s c rest)

pub split_top_level-Ensures :
    {E : Type 0} (raw : Bytes) → Ensures {E = E} (λ _. Unit {0}) (split_top_level raw)
unfolding split_top_level
split_top_level-Ensures raw =
    loop-Ensures (λ (s : Split). Unit {0}) (λ s. length s.rest) split_round
      (λ s h. split_next-RoundOk _ s s.rest) (suc (length raw))
      (record { parts = []; start = raw; round = 0; square = 0; curly = 0; rest = raw })
      (omega arith) tt
