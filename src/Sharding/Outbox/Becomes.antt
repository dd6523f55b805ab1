-- ===== src/Sharding/Outbox/Becomes.antt =====
-- ecat-data-sharding/src/outbox/relay.rs: what a mark makes of a record that is leased.
use e_cat.Prelude.{
  ℕ, String, ◌≡◌, refl, sym, ap, subst, ◌∙◌, true, false, Option, none, some, ◌∷◌, map, Bool-cases,
  inl, inr, arith,
}
use text.Mathlib.Text.{◌==◌ as str_eq}
use text.Mathlib.TextEquality.{eq_iff}
use e_cat.Prelude.Result.{Result, ok, err}
use e_cat.Prelude.Exec.{Exec, after}
use e_cat.Prelude.Triple.{Pred, Post}
use e_cat.Sharding.Error.{ShardError}
use e_cat.Sharding.Outbox.{
  OutboxStatus, processing, done, failed, OutboxRow, Table, Reply, answered, refused, lost, has_id,
  executed, finish, fail,
}
use e_cat.Sharding.Outbox.Keys.{
  find_row, status_in, status_of, updated, find_row-map, find_row-id, str_eq_sym,
}
use e_cat.Sharding.Outbox.Life.{finish-id, fail-id}
use e_cat.Sharding.Outbox.Claimed.{Held, Any}
use e_cat.Sharding.Outbox.Relay.{RelayReport}

-- The row of `id` has the status `s`, and every other row is as before.
abbrev pub Becomes : String → OutboxStatus → Table → Table → Type 0
Becomes id s db db' =
    (status_of id db' ≡ some s)
    × ((other : String) → str_eq id other ≡ false → find_row other db' ≡ find_row other db)

module _ (f : OutboxRow → OutboxRow) (keeps : (r : OutboxRow) → (f r).id ≡ r.id) (id : String)
    (s : OutboxStatus)
    (here : (r : OutboxRow) → r.id ≡ id → r.status ≡ processing → (f r).status ≡ s)
    (elsewhere : (r : OutboxRow) → str_eq r.id id ≡ false → f r ≡ r) where
  updated_here :
      (o : Option OutboxRow)
      → ((r : OutboxRow) → o ≡ some r → r.id ≡ id)
      → status_in o ≡ some processing
      → status_in (updated f keeps o) ≡ some s
  updated_here none named e = absurd (ground arith)
  updated_here (some r) named e = ap (λ x. some x) (here r (named r refl) (ground arith))

  updated_elsewhere :
      (o : Option OutboxRow)
      → ((r : OutboxRow) → o ≡ some r → str_eq r.id id ≡ false)
      → updated f keeps o ≡ o
  updated_elsewhere none named = refl
  updated_elsewhere (some r) named = ap (λ x. some x) (elsewhere r (named r refl))

  map-Becomes : (db : Table) → status_of id db ≡ some processing → Becomes id s db (map f db)
  map-Becomes db e = (
    ap status_in (find_row-map f keeps id db)
        ∙ updated_here (find_row id db) (λ r h. find_row-id id db r h) e,
    λ other differs.
        find_row-map f keeps other db
        ∙ updated_elsewhere (find_row other db) (λ r h.
          subst (λ x. str_eq x id ≡ false) (sym (find_row-id other db r h))
            (str_eq_sym id other differs)),
  )

str_eq_refl : (id : String) → str_eq id id ≡ true
str_eq_refl id = (eq_iff id id).1 refl

pub finish-Becomes :
    (id : String) (db : Table)
    → status_of id db ≡ some processing
    → Becomes id done db (map (finish id) db)
unfolding finish
finish-Becomes id db e =
    map-Becomes (finish id) (finish-id id) id done (λ r n p. rw (n, p, str_eq_refl id) refl)
      (λ r n. rw n refl) db e

pub fail-Becomes :
    (id : String) (next : ℕ) (db : Table)
    → status_of id db ≡ some processing
    → Becomes id failed db (map (fail id next) db)
unfolding fail
fail-Becomes id next db e =
    map-Becomes (fail id next) (fail-id id next) id failed (λ r n p. rw (n, p, str_eq_refl id) refl)
      (λ r n. rw n refl) db e

pub executed-Post :
    (P : Pred Table) (reply : Reply) (old new : Table)
    → P new
    → Post (λ (u : Unit {0}). P) Any (executed reply tt old new)
executed-Post P answered old new h = h
executed-Post P refused old new h = tt
executed-Post P lost old new h = tt

-- After a mark that succeeded.
pub marked_first :
    (P : Pred Table) (R : RelayReport → Pred Table) (f : Exec Table ShardError RelayReport)
    (x : Result ShardError (Unit {0}) × Table)
    → Post (λ _. P) Any x
    → ((mid : Table) → P mid → Post R Any (f mid))
    → Post R Any (after (λ _. f) x)
unfolding after
marked_first P R f (ok u, w) h k = k w h
marked_first P R f (err e, w) h k = tt

pub Post-weaken :
    (R R' : RelayReport → Pred Table) (r : Result ShardError RelayReport × Table)
    → ((a : RelayReport) (w : Table) → R a w → R' a w)
    → Post R Any r
    → Post R' Any r
Post-weaken R R' (ok a, w) k h = k a w h
Post-weaken R R' (err e, w) k h = tt

-- Rows other than `r` that are leased stay so.
pub Held-kept :
    (r : OutboxRow) (rest db db' : Table) (s : OutboxStatus)
    → has_id r.id rest ≡ false
    → Held (r ∷ rest) db
    → Becomes r.id s db db'
    → Held rest db'
unfolding has_id
Held-kept r rest db db' s fresh held b id h = elim (Bool-cases (str_eq r.id id)) [
  | inl e ↦
      let same = subst (λ x. has_id x rest ≡ false) ((eq_iff r.id id).0 e) fresh in
      absurd (ground arith)
  | inr e ↦ ap status_in (b.1 id e) ∙ held id (ground arith)
]

pub head-Held :
    (r : OutboxRow) (rest db : Table) → Held (r ∷ rest) db → status_of r.id db ≡ some processing
unfolding has_id
head-Held r rest db held = held r.id (rw (str_eq_refl r.id) refl)
