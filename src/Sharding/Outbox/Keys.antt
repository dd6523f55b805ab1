-- ===== src/Sharding/Outbox/Keys.antt =====
-- ecat-data-sharding/src/outbox.rs: the rows by their primary key, and the rows that are due.
use e_cat.Prelude.{
  ℕ, zero, suc, String, ◌≡◌, refl, sym, ap, subst, ◌∙◌, Bool, true, false, ◌||◌, Option, none, some,
  [], ◌∷◌, ◌++◌, map, take, if◌then◌else◌, Bool-cases, ◌⊎◌, inl, inr, either_way, by_test, arith,
}
use text.Mathlib.Text.{◌==◌ as str_eq}
use text.Mathlib.TextEquality.{eq_iff}
use e_cat.Sharding.Outbox.{
  OutboxStatus, OutboxRow, Table, Reply, answered, refused, lost, has_id, executed, is_due,
  due_rows, row_before, insert_row, ordered,
}

abbrev pub find_row : String → Table → Option OutboxRow
find_row id [] = none
find_row id (row ∷ rest) = if str_eq row.id id then some row else find_row id rest

abbrev pub status_in : Option OutboxRow → Option OutboxStatus
status_in none = none
status_in (some row) = some row.status

abbrev pub status_of : String → Table → Option OutboxStatus
status_of id db = status_in (find_row id db)

-- The primary key.
abbrev pub UniqueIds : Table → Type 0
UniqueIds [] = Unit
UniqueIds (row ∷ rest) = (has_id row.id rest ≡ false) × UniqueIds rest

pub str_eq_sym : (a b : String) → str_eq a b ≡ false → str_eq b a ≡ false
str_eq_sym a b h = elim (Bool-cases (str_eq b a)) [
  | inl e ↦ let same = (eq_iff a b).1 (sym ((eq_iff b a).0 e)) in absurd (ground arith)
  | inr e ↦ e
]

has_id-append :
    (id : String) (db : Table) (r : OutboxRow)
    → has_id id (db ++ (r ∷ [])) ≡ (has_id id db || str_eq r.id id)
unfolding has_id
has_id-append id [] r = ground arith
has_id-append id (row ∷ rest) r = let further = has_id-append id rest r in ground arith

pub UniqueIds-append :
    (db : Table) (r : OutboxRow)
    → has_id r.id db ≡ false
    → UniqueIds db
    → UniqueIds (db ++ (r ∷ []))
unfolding has_id
UniqueIds-append [] r h u = (refl, tt)
UniqueIds-append (row ∷ rest) r h (u, us) =
    let other = str_eq_sym row.id r.id (ground arith) in
    let listed = has_id-append row.id rest r in
    (ground arith, UniqueIds-append rest r (ground arith) us)

module _ (f : OutboxRow → OutboxRow) (keeps : (r : OutboxRow) → (f r).id ≡ r.id) where
  pub has_id-map : (id : String) (db : Table) → has_id id (map f db) ≡ has_id id db
  unfolding has_id
  has_id-map id [] = refl
  has_id-map id (row ∷ rest) = rw (keeps row, has_id-map id rest)

  pub UniqueIds-map : (db : Table) → UniqueIds db → UniqueIds (map f db)
  UniqueIds-map [] u = tt
  UniqueIds-map (row ∷ rest) (u, us) =
      (rw (keeps row, has_id-map row.id rest, u), UniqueIds-map rest us)

  abbrev pub updated : Option OutboxRow → Option OutboxRow
  updated none = none
  updated (some row) = some (f row)

  pub find_row-map : (id : String) (db : Table) → find_row id (map f db) ≡ updated (find_row id db)
  find_row-map id [] = refl
  find_row-map id (row ∷ rest) =
      let further = find_row-map id rest in
      let same = ap (λ x. str_eq x id) (keeps row) in
      ap (λ b. if b then some (f row) else find_row id (map f rest)) same
      ∙ by_test
          (λ o. (if str_eq row.id id then some (f row) else find_row id (map f rest)) ≡ updated o)
          (str_eq row.id id) (λ e. rw e) (λ e. rw (e, further))

-- The row that a key finds has that key.
pub find_row-id : (id : String) (db : Table) (r : OutboxRow) → find_row id db ≡ some r → r.id ≡ id
find_row-id id [] r e = absurd (ground arith)
find_row-id id (row ∷ rest) r e = elim (Bool-cases (str_eq row.id id)) [
  | inl b ↦
      let same : row ≡ r = ground arith in subst (λ x. x.id ≡ id) same ((eq_iff row.id id).0 b)
  | inr b ↦ find_row-id id rest r (ground arith)
]

pub executed-table :
    (P : Table → Type 0) {A : Type 0} (reply : Reply) (value : A) (old new : Table)
    → P old
    → P new
    → P (executed reply value old new).1
executed-table P answered value old new h k = k
executed-table P refused value old new h k = h
executed-table P lost value old new h k = k

-- Of a row that may have been put before the others.
has_id-kept :
    (id : String) (b : Bool) (row : OutboxRow) (rows : Table)
    → has_id id (if b then row ∷ rows else rows) ≡ true
    → ((b ≡ true) × (str_eq row.id id ≡ true)) ⊎ (has_id id rows ≡ true)
unfolding has_id
has_id-kept id true row rows h = elim (Bool-cases (str_eq row.id id)) [
  | inl e ↦ inl (refl, e)
  | inr e ↦ inr (ground arith)
]
has_id-kept id false row rows h = inr h

pub has_id-due_rows :
    (id : String) (now : ℕ) (db : Table) → has_id id (due_rows now db) ≡ true → has_id id db ≡ true
unfolding has_id
has_id-due_rows id now [] h = absurd (ground arith)
has_id-due_rows id now (row ∷ rest) h =
    elim (has_id-kept id (is_due now row) row (due_rows now rest) h) [
      | inl (d, e) ↦ rw e
      | inr later ↦ let further = has_id-due_rows id now rest later in ground arith
    ]

-- With a primary key, the row of an id that is due is due.
pub due_row :
    (id : String) (now : ℕ) (db : Table) (r : OutboxRow)
    → UniqueIds db
    → has_id id (due_rows now db) ≡ true
    → find_row id db ≡ some r
    → is_due now r ≡ true
unfolding has_id
due_row id now [] r u h e = absurd (ground arith)
due_row id now (row ∷ rest) r (u, us) h e =
    elim (has_id-kept id (is_due now row) row (due_rows now rest) h) [
      | inl (d, b) ↦ let same : row ≡ r = ground arith in subst (λ x. is_due now x ≡ true) same d
      | inr later ↦ elim (Bool-cases (str_eq row.id id)) [
        | inl b ↦
            let alone : has_id id rest ≡ false =
              subst (λ x. has_id x rest ≡ false) ((eq_iff row.id id).0 b) u in
            let inside = has_id-due_rows id now rest later in absurd (ground arith)
        | inr b ↦ due_row id now rest r us later (ground arith)
      ]
    ]

module _ (id_before : String → String → Bool) where
  pub has_id-insert_row :
      (id : String) (row : OutboxRow) (rows : Table)
      → has_id id (insert_row id_before row rows) ≡ (str_eq row.id id || has_id id rows)
  unfolding has_id
  has_id-insert_row id row [] = refl
  has_id-insert_row id row (other ∷ rest) =
      let further = has_id-insert_row id row rest in
      either_way (λ l. has_id id l ≡ (str_eq row.id id || has_id id (other ∷ rest)))
        (row_before id_before other row)
        (ap (λ b. str_eq other.id id || b) further
          ∙ swap_or (str_eq other.id id) (str_eq row.id id) (has_id id rest))
        refl
    where
      swap_or : (a b c : Bool) → (a || (b || c)) ≡ (b || (a || c))
      swap_or a b c = ground arith

  pub has_id-ordered :
      (id : String) (rows : Table) → has_id id (ordered id_before rows) ≡ has_id id rows
  unfolding has_id
  has_id-ordered id [] = refl
  has_id-ordered id (row ∷ rest) =
      has_id-insert_row id row (ordered id_before rest)
      ∙ ap (λ b. str_eq row.id id || b) (has_id-ordered id rest)

pub has_id-take :
    (id : String) (n : ℕ) (rows : Table) → has_id id (take n rows) ≡ true → has_id id rows ≡ true
unfolding has_id
has_id-take id zero rows h = absurd (ground arith)
has_id-take id (suc n) [] h = absurd (ground arith)
has_id-take id (suc n) (row ∷ rest) h = let further = has_id-take id n rest in ground arith
