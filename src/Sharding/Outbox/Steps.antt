-- ===== src/Sharding/Outbox/Steps.antt =====
-- ecat-data-sharding/src/outbox.rs: each operation as a step on the status of one record, from the
-- arguments of the operation and what the database does.
use e_cat.Prelude.{
  ℕ, ◌+◌, String, ◌≡◌, refl, sym, subst, ◌⊎◌, inl, Bool, true, false, not, ◌&&◌, Option, none, some,
  List, [], ◌∷◌, map, ltb, if◌then◌else◌, arith,
}
use text.Mathlib.Text.{◌==◌ as str_eq}
use e_cat.Sharding.Outbox.{
  OutboxStatus, pending, processing, done, failed, OutboxRow, Table, Reply, refused, is_pending,
  is_waiting, finish, fail,
}
use e_cat.Sharding.Outbox.Keys.{find_row, status_in, status_of, updated, find_row-map, find_row-id}
use e_cat.Sharding.Outbox.Life.{finish-id, fail-id}
use e_cat.Sharding.Outbox.Runs.{Op, appends, claims, marks_done, marks_failed}

-- Whether the statement takes effect, also where its answer is lost.
abbrev pub takes_effect : Reply → Bool
takes_effect refused = false
takes_effect _ = true

abbrev pub inserted : Option OutboxStatus → Option OutboxStatus
inserted none = some pending
inserted (some s) = some s

-- Only a lease can end.
abbrev pub ended : OutboxStatus → Option OutboxStatus → Option OutboxStatus
ended s (some processing) = some s
ended s o = o

-- A claim that takes effect returns a lease to the queue, or leases what waits; one that does not leaves
-- the record as it is.
abbrev pub ClaimStep : Bool → Option OutboxStatus → Option OutboxStatus → Type 0
ClaimStep effect none p = (p ≡ none)
ClaimStep effect (some s) none = ⊥
ClaimStep effect (some s) (some t) =
    (t ≡ s)
    ⊎ ((effect ≡ true)
        × (((s ≡ processing) × (t ≡ pending)) ⊎ ((is_waiting s ≡ true) × (t ≡ processing))))

pub ClaimStep-refl : (effect : Bool) (o : Option OutboxStatus) → ClaimStep effect o o
ClaimStep-refl effect none = refl
ClaimStep-refl effect (some s) = inl refl

module _ (max_time : ℕ) (id : String) where
  abbrev pub Step : Op → Option OutboxStatus → Option OutboxStatus → Type 0
  Step (appends reply r) o p =
      (p
        ≡ (if takes_effect reply && (is_pending r.status && str_eq r.id id) then inserted o else o))
  Step (claims reply limit lease now) o p = ClaimStep (takes_effect reply) o p
  Step (marks_done reply key) o p =
      (p ≡ (if takes_effect reply && str_eq id key then ended done o else o))
  Step (marks_failed reply key retry_after now) o p =
      (p ≡ (
        if takes_effect reply && (not (ltb max_time (now + retry_after)) && str_eq id key)
        then ended failed o
        else o))

  -- One step for each operation, in their order.
  abbrev pub Steps : List Op → Option OutboxStatus → Option OutboxStatus → Type 0
  Steps [] o p = (p ≡ o)
  Steps (op ∷ ops) o p = (q : Option OutboxStatus) × Step op o q × Steps ops q p

module _ (f : OutboxRow → OutboxRow) (keeps : (r : OutboxRow) → (f r).id ≡ r.id) where
  -- An update of each row, by what it does to the row of `id`.
  map-Status :
      (R : Option OutboxStatus → Option OutboxStatus → Type 0) (id : String) (db : Table)
      → R none none
      → ((r : OutboxRow)
          → find_row id db ≡ some r
          → r.id ≡ id
          → R (some r.status) (some (f r).status))
      → R (status_of id db) (status_of id (map f db))
  map-Status R id db absent there =
      subst (λ o. R (status_of id db) (status_in o)) (sym (find_row-map f keeps id db))
        (by_row (find_row id db) refl)
    where
      by_row :
          (o : Option OutboxRow)
          → find_row id db ≡ o
          → R (status_in o) (status_in (updated f keeps o))
      by_row none e = absent
      by_row (some r) e = there r e (find_row-id id db r e)

finish-status :
    (key id : String) (r : OutboxRow)
    → r.id ≡ id
    → some (finish key r).status
      ≡ (if str_eq id key then ended done (some r.status) else some r.status)
unfolding finish
finish-status key id r e = rw (sym e) (ground arith)

fail-status :
    (key id : String) (next : ℕ) (r : OutboxRow)
    → r.id ≡ id
    → some (fail key next r).status
      ≡ (if str_eq id key then ended failed (some r.status) else some r.status)
unfolding fail
fail-status key id next r e = rw (sym e) (ground arith)

pub finished-Status :
    (key id : String) (db : Table)
    → status_of id (map (finish key) db)
      ≡ (if str_eq id key then ended done (status_of id db) else status_of id db)
finished-Status key id db =
    map-Status (finish key) (finish-id key) (λ o p. p ≡ (if str_eq id key then ended done o else o))
      id db (ground arith) (λ r e n. finish-status key id r n)

pub failed-Status :
    (key id : String) (next : ℕ) (db : Table)
    → status_of id (map (fail key next) db)
      ≡ (if str_eq id key then ended failed (status_of id db) else status_of id db)
failed-Status key id next db =
    map-Status (fail key next) (fail-id key next)
      (λ o p. p ≡ (if str_eq id key then ended failed o else o)) id db (ground arith)
      (λ r e n. fail-status key id next r n)
