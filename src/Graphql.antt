-- ===== src/Graphql.antt =====
-- ecat-graphql/src/parser/mod.rs: what the parser reads and what it makes. A query is the list of
-- its bytes, and a position in it is the list of the bytes that are left. A text is the list of
-- its UTF-8 bytes, on which `from_utf8_lossy` changes nothing.
pub mod Scan
pub mod Literal
pub mod Args
pub mod Query
mod Tests
use e_cat.Prelude.{
  ℕ, suc, ◌+◌, ◌-◌, max, Bool, true, false, ◌&&◌, ◌||◌, Option, none, some, List, [], ◌∷◌, length,
  take, leb, ◌==◌, if◌then◌else◌,
}

abbrev pub Bytes : Type 0
Bytes = List ℕ

-- serde_json's `Value`; a number by its text, and the maps as lists of entries.
mutual
  pub data Value : Type 0 where
    null : Value
    bool : Bool → Value
    number string : Bytes → Value
    array : Items → Value
    object : Entries → Value

  pub data Items : Type 0 where
    no_item : Items
    item : Value → Items → Items

  pub data Entries : Type 0 where
    no_entry : Entries
    entry : Bytes → Value → Entries → Entries

-- `leaf` has no selection.
mutual
  pub data FieldNode : Type 0 where
    leaf : (args : Entries) → FieldNode
    branch : (args : Entries) → (selection : SelectionSet) → FieldNode

  pub data SelectionSet : Type 0 where
    no_field : SelectionSet
    field : Bytes → FieldNode → SelectionSet → SelectionSet

pub data Operation : Type 0 where
  query mutation subscription : Operation

pub record ParsedField : Type 0 where
  pub operation : Operation
  pub name : Bytes
  pub args : Entries
  pub selection : Option SelectionSet

-- The messages.
pub data ParseError : Type 0 where
  expected_selection empty_selection fragments_unsupported expected_close too_many_fields :
      ParseError
  too_deep expected_field_name aliases_unsupported : ParseError
  expected_args expected_args_close expected_argument_name expected_value : ParseError
  expected_colon duplicate_argument missing_variable invalid_value : Bytes → ParseError
  block_string unterminated_string unbalanced_group unbalanced_parentheses : ParseError
  quoted_field_name expected_object_name : ParseError
  invalid_string_literal invalid_unicode_escape invalid_escape : ParseError
  over_budget : ℕ → ℕ → ParseError

abbrev pub max_depth : ℕ
max_depth = 32

abbrev pub same_bytes : Bytes → Bytes → Bool
same_bytes [] [] = true
same_bytes [] (y ∷ ys) = false
same_bytes (x ∷ xs) [] = false
same_bytes (x ∷ xs) (y ∷ ys) = x == y && same_bytes xs ys

-- `Map::get`
unfoldable pub get : Bytes → Entries → Option Value
get key no_entry = none
get key (entry k v rest) = if same_bytes k key then some v else get key rest

unfoldable pub contains_key : Bytes → Entries → Bool
contains_key key no_entry = false
contains_key key (entry k v rest) = same_bytes k key || contains_key key rest

-- `Map::insert`, which replaces the value of a key that is there.
unfoldable pub insert_entry : Bytes → Value → Entries → Entries
insert_entry key value no_entry = entry key value no_entry
insert_entry key value (entry k v rest) =
    if same_bytes k key then entry k value rest else entry k v (insert_entry key value rest)

-- `HashMap::insert`
unfoldable pub set_field : Bytes → FieldNode → SelectionSet → SelectionSet
set_field key node no_field = field key node no_field
set_field key node (field k n rest) =
    if same_bytes k key then field k node rest else field k n (set_field key node rest)
