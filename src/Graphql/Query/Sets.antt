-- ===== src/Graphql/Query/Sets.antt =====
-- ecat-graphql/src/parser/mod.rs: the loop of a selection set, and the size of what it reads.
use e_cat.Prelude.{
  ℕ, zero, suc, ◌+◌, ◌≤◌, ◌<◌, max, ◌≡◌, refl, true, ◌||◌, [], ◌∷◌, length, drop, length-drop, ◌==◌,
  either_way, by_test, arith,
}
use e_cat.Prelude.Loop.{
  Run, returned, failed, out_of_fuel, Step, loop, loop-Ensures, RoundOk, Ensures, holds, rejected,
  Ensures-returned, Ensures-ne, Ensures-map,
}
use e_cat.Graphql.{
  Bytes, FieldNode, leaf, branch, SelectionSet, no_field, field, set_field, same_bytes, ParsedField,
  ParseError,
}
use e_cat.Graphql.Scan.{
  byte_dot, byte_at, open_round, open_curly, close_curly, at, skip_ws, skip_parens, skip_directive,
}
use e_cat.Graphql.Scan.Shorter.{skip_ws-le, at-length, skip_parens-Ensures, skip_directive-Ensures}
use e_cat.Graphql.Args.{is_empty}
use e_cat.Graphql.Query.{
  FieldParser, SelectionState, node, skipped, directive_round, skip_directives, with_field,
  selection_round, parse_selection_set, header_round, complexity_node, complexity_set,
}

-- The height of a tree of fields.
unfoldable mutual
  pub height_node : FieldNode → ℕ
  height_node (leaf args) = 1
  height_node (branch args set) = 1 + height_set set

  pub height_set : SelectionSet → ℕ
  height_set no_field = 0
  height_set (field name n rest) = max (height_node n) (height_set rest)

complexity-set_field :
    (key : Bytes) (n : FieldNode) (set : SelectionSet)
    → complexity_set (set_field key n set) ≤ complexity_set set + complexity_node n
unfolding complexity_set set_field
complexity-set_field key n no_field = omega arith
complexity-set_field key n (field k m rest) =
    let further = complexity-set_field key n rest in
    either_way (λ s. complexity_set s ≤ complexity_set (field k m rest) + complexity_node n)
      (same_bytes k key) (omega arith) (omega arith)

height-set_field :
    (key : Bytes) (n : FieldNode) (set : SelectionSet) (limit : ℕ)
    → height_set set ≤ limit
    → height_node n ≤ limit
    → height_set (set_field key n set) ≤ limit
unfolding height_set set_field
height-set_field key n no_field limit h k = omega arith
height-set_field key n (field l m rest) limit h k =
    let further = height-set_field key n rest limit (omega arith) k in
    either_way (λ s. height_set s ≤ limit) (same_bytes l key) (omega arith) (omega arith)

complexity_node-pos : (n : FieldNode) → 0 < complexity_node n
unfolding complexity_node
complexity_node-pos (leaf args) = omega arith
complexity_node-pos (branch args set) = omega arith

-- A tree of at most `levels` levels that, with the bytes that are left, is no larger than `b`.
abbrev SetFits : ℕ → ℕ → SelectionState → Type 0
SetFits levels size (set, rest) =
    (complexity_set set + length rest ≤ size) × (height_set set ≤ levels)

abbrev pub FieldFits : ℕ → ℕ → ParsedField × Bytes → Type 0
FieldFits levels size (f, rest) =
    (complexity_node (node f) + length rest ≤ size) × (height_node (node f) ≤ levels)

module _ (size : ℕ) where
  -- What a round of skipping comes to.
  abbrev SkipOk : ℕ → Step ParseError Bytes Bytes → Type 0
  SkipOk bound = RoundOk (λ b. length b ≤ size) (λ b. length b ≤ size) length bound

  skipped-SkipOk :
      (bound : ℕ) (m : Run ParseError Bytes)
      → Ensures (λ rest. length rest < bound) m
      → bound ≤ size
      → SkipOk bound (skipped m)
  unfolding skipped
  skipped-SkipOk bound (returned rest) h k =
      let less = Ensures-returned h refl in
      (omega (arith, skip_ws-le rest), omega (arith, skip_ws-le rest))
  skipped-SkipOk bound (failed e) h k = rejected
  skipped-SkipOk bound out_of_fuel h k = absurd (Ensures-ne h refl)

  directive_round-SkipOk : (b : Bytes) → length b ≤ size → SkipOk (length b) (directive_round b)
  unfolding directive_round
  directive_round-SkipOk b h =
      by_test (SkipOk (length b)) (at byte_at b)
        (λ e.
          skipped-SkipOk (length b) (skip_directive b)
            (skip_directive-Ensures b (at-length byte_at b e)) h)
        (λ e. holds h)

  pub header_round-SkipOk : (b : Bytes) → length b ≤ size → SkipOk (length b) (header_round b)
  unfolding header_round
  header_round-SkipOk b h =
      either_way (SkipOk (length b)) (at open_round b)
        (skipped-SkipOk (length b) (skip_parens b) (skip_parens-Ensures b) h)
        (directive_round-SkipOk b h)

pub skip_directives-Ensures :
    (b : Bytes) → Ensures (λ rest. length rest ≤ length b) (skip_directives b)
unfolding skip_directives
skip_directives-Ensures b =
    loop-Ensures (λ (s : Bytes). length s ≤ length b) length directive_round
      (directive_round-SkipOk (length b)) (suc (length b)) b (omega arith) (omega arith)

module _ (levels : ℕ) (parse : FieldParser)
    (fits : (b : Bytes) → Ensures (FieldFits levels (length b)) (parse b)) where
  abbrev SelectionOk : ℕ → ℕ → Step ParseError SelectionState (SelectionSet × Bytes) → Type 0
  SelectionOk size bound =
      RoundOk (SetFits levels size) (SetFits levels size) (λ s. length s.1) bound

  with_field-SelectionOk :
      (size : ℕ) (set : SelectionSet) (b : Bytes) (m : Run ParseError (ParsedField × Bytes))
      → Ensures (FieldFits levels (length b)) m
      → SetFits levels size (set, b)
      → SelectionOk size (length b) (with_field set m)
  with_field-SelectionOk size set b (failed e) h k = rejected
  with_field-SelectionOk size set b out_of_fuel h k = absurd (Ensures-ne h refl)
  with_field-SelectionOk size set b (returned (f, rest)) h k =
      let grown = complexity-set_field f.name (node f) set in
      let (small, low) : FieldFits levels (length b) (f, rest) = Ensures-returned h refl in
      (
        (omega (arith, skip_ws-le rest), height-set_field f.name (node f) set levels k.1 low),
        omega (arith, skip_ws-le rest, complexity_node-pos (node f)),
      )

  selection_round-SelectionOk :
      (size : ℕ) (s : SelectionState)
      → SetFits levels size s
      → SelectionOk size (length s.1) (selection_round parse s)
  unfolding selection_round
  selection_round-SelectionOk size (set, []) h = rejected
  selection_round-SelectionOk size (set, c ∷ rest) h =
      let Ok = SelectionOk size (length (c ∷ rest)) in
      either_way Ok (c == close_curly) (holds (omega arith, h.1)) (
        either_way Ok (c == byte_dot) rejected
          (with_field-SelectionOk size set (c ∷ rest) (parse (c ∷ rest)) (fits (c ∷ rest)) h))

  selections-Ensures :
      (b : Bytes)
      → Ensures
          (SetFits levels (length b))
          (loop (selection_round parse) (suc (length b)) (no_field, b))
  unfolding complexity_set height_set
  selections-Ensures b =
      loop-Ensures (SetFits levels (length b)) (λ s. length s.1) (selection_round parse)
        (selection_round-SelectionOk (length b)) (suc (length b)) (no_field, b) (omega arith)
        (omega arith, omega arith)

pub parse_selection_set-Ensures :
    (levels : ℕ) (parse : FieldParser)
    → ((b : Bytes) → Ensures (FieldFits levels (length b)) (parse b))
    → (b : Bytes) → at open_curly b ≡ true
    → Ensures
        (λ r. (complexity_set r.0 + length r.1 < length b) × (height_set r.0 ≤ levels))
        (parse_selection_set levels parse b)
unfolding parse_selection_set
parse_selection_set-Ensures zero parse fits b e = rejected
parse_selection_set-Ensures (suc levels) parse fits b e =
    let start = skip_ws (drop 1 b) in
    either_way
      (Ensures (λ r. (complexity_set r.0 + length r.1 < length b) × (height_set r.0 ≤ suc levels)))
      (is_empty start || at close_curly start) rejected
      (Ensures-map
        (λ r h.
          (omega (arith, skip_ws-le (drop 1 b), length-drop 1 b, at-length open_curly b e), h.1))
        (selections-Ensures (suc levels) parse fits start))
