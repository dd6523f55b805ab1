-- ===== src/Sharding/Outbox/Refines.antt =====
-- ecat-data-sharding/src/outbox.rs: every operation takes a record by its step.
use e_cat.Prelude.{
  ℕ, ◌+◌, ◌-◌, String, ◌≡◌, refl, sym, ap, subst, ◌∙◌, ◌⊎◌, inl, inr, Bool, true, false, not, ◌&&◌,
  ◌||◌, Option, none, some, List, [], ◌∷◌, ◌++◌, map, ltb, ◌==◌, if◌then◌else◌, Bool-cases,
  either_way, by_test, arith,
}
use text.Mathlib.Text.{◌==◌ as str_eq}
use text.Mathlib.TextEquality.{eq_iff}
use e_cat.Prelude.Result.{Result, err}
use e_cat.Sharding.Error.{ShardError, config}
use e_cat.Sharding.Outbox.{
  OutboxStatus, pending, processing, done, failed, OutboxRow, Table, Reply, answered, refused, lost,
  stale_backoff, is_pending, is_waiting, has_id, executed, append, reclaim, readable, lease_row,
  as_processing, chosen_rows, claim, finish, mark_done, fail, mark_failed,
}
use e_cat.Sharding.Outbox.Keys.{
  find_row, status_in, status_of, UniqueIds, UniqueIds-map, updated, find_row-map,
}
use e_cat.Sharding.Outbox.Life.{reclaim-id, lease-id}
use e_cat.Sharding.Outbox.Claimed.{found}
use e_cat.Sharding.Outbox.Runs.{
  Op, appends, claims, marks_done, marks_failed, run, run_all, run-Grows, chosen-waiting,
}
use e_cat.Sharding.Outbox.Steps.{
  takes_effect, inserted, ended, ClaimStep, ClaimStep-refl, Step, Steps, finished-Status,
  failed-Status,
}

append-Status :
    (id : String) (r : OutboxRow) (db : Table)
    → r.status ≡ pending
    → status_of id (db ++ (r ∷ []))
      ≡ (if str_eq r.id id then inserted (status_of id db) else status_of id db)
append-Status id r [] e =
    by_test (λ o. status_in o ≡ (if str_eq r.id id then some pending else none)) (str_eq r.id id)
      (λ t. rw (t, e) refl) (λ t. rw t refl)
append-Status id r (row ∷ rest) e = elim (Bool-cases (str_eq row.id id)) [
  | inl t ↦ rw t (ground arith)
  | inr t ↦ rw t (append-Status id r rest e)
]

there_already :
    (id key : String) (db : Table)
    → has_id key db ≡ true
    → status_of id db ≡ (if str_eq key id then inserted (status_of id db) else status_of id db)
there_already id key db h = elim (Bool-cases (str_eq key id)) [
  | inl t ↦
      let (r, f) = found id db (subst (λ x. has_id x db ≡ true) ((eq_iff key id).0 t) h) in
      rw (t, f) refl
  | inr t ↦ rw t refl
]

unchanged :
    (b c : Bool) (o q : Option OutboxStatus)
    → o ≡ (if c then q else o)
    → o ≡ (if b && c then q else o)
unchanged true c o q e = e
unchanged false c o q e = refl

executed-Status :
    {A : Type 0} (id : String) (reply : Reply) (value : A) (old new : Table) (c : Bool)
    (q : Option OutboxStatus)
    → status_of id new ≡ (if c then q else status_of id old)
    → status_of id (executed reply value old new).1
      ≡ (if takes_effect reply && c then q else status_of id old)
executed-Status id answered value old new c q e = e
executed-Status id refused value old new c q e = refl
executed-Status id lost value old new c q e = e

refused_first :
    {A : Type 0} (id : String) (reply : Reply) (e : ShardError) (value : A) (old new : Table)
    (b c : Bool) (q : Option OutboxStatus)
    → status_of id new ≡ (if c then q else status_of id old)
    → status_of id (if b then (err e, old) else executed reply value old new).1
      ≡ (if takes_effect reply && (not b && c) then q else status_of id old)
refused_first id reply e value old new true c q h = ground arith
refused_first id reply e value old new false c q h = executed-Status id reply value old new c q h

executed-Claim :
    {A : Type 0} (id : String) (reply : Reply) (value : A) (old new : Table)
    → ClaimStep true (status_of id old) (status_of id new)
    → ClaimStep
        (takes_effect reply)
        (status_of id old)
        (status_of id (executed reply value old new).1)
executed-Claim id answered value old new h = h
executed-Claim id refused value old new h = ClaimStep-refl false (status_of id old)
executed-Claim id lost value old new h = h

updated_twice :
    (f g : OutboxRow → OutboxRow) (fk : (r : OutboxRow) → (f r).id ≡ r.id)
    (gk : (r : OutboxRow) → (g r).id ≡ r.id) (o : Option OutboxRow)
    → ((r : OutboxRow) → o ≡ some r → ClaimStep true (some r.status) (some (g (f r)).status))
    → ClaimStep true (status_in o) (status_in (updated g gk (updated f fk o)))
updated_twice f g fk gk none h = refl
updated_twice f g fk gk (some r) h = h r refl

pending_status : (s : OutboxStatus) → is_pending s ≡ true → s ≡ pending
pending_status s e = ground arith

module _ (id_before : String → String → Bool) (max_time : ℕ) (id : String) where
  append-Step :
      (reply : Reply) (r : OutboxRow) (db : Table)
      → Step max_time id (appends reply r) (status_of id db) (status_of id (append reply r db).1)
  unfolding append
  append-Step reply r db =
      let new : OutboxRow = record r { claimed_at = none } in
      elim (Bool-cases (is_pending r.status)) [
        | inr e ↦ rw e (ground arith)
        | inl e ↦ elim (Bool-cases (has_id r.id db)) [
          | inl there ↦
              rw (e, there)
                (unchanged (takes_effect reply) (str_eq r.id id) (status_of id db)
                  (inserted (status_of id db)) (there_already id r.id db there))
          | inr fresh ↦
              rw (e, fresh)
                (executed-Status id reply tt db (db ++ (new ∷ [])) (str_eq r.id id)
                  (inserted (status_of id db))
                  (append-Status id new db (pending_status r.status e)))
        ]
      ]

  swept_status :
      (cutoff next : ℕ) (r : OutboxRow)
      → ((reclaim cutoff next r).status ≡ r.status)
        ⊎ ((r.status ≡ processing) × ((reclaim cutoff next r).status ≡ pending))
  unfolding reclaim
  swept_status cutoff next r = ground arith

  leased_status :
      (now : ℕ) (chosen : Table) (r : OutboxRow)
      → (has_id r.id chosen ≡ true → is_waiting r.status ≡ true)
      → ((lease_row now chosen r).status ≡ r.status)
        ⊎ ((is_waiting r.status ≡ true) × ((lease_row now chosen r).status ≡ processing))
  unfolding lease_row
  leased_status now chosen r h = elim (Bool-cases (has_id r.id chosen)) [
    | inl e ↦ inr (h e, rw e refl)
    | inr e ↦ inl (rw e refl)
  ]

  swept_leased :
      (s t u : OutboxStatus)
      → (t ≡ s) ⊎ ((s ≡ processing) × (t ≡ pending))
      → (u ≡ t) ⊎ ((is_waiting t ≡ true) × (u ≡ processing))
      → ClaimStep true (some s) (some u)
  swept_leased s t u h k = ground arith

  claim-Step :
      (reply : Reply) (limit lease now : ℕ) (db : Table)
      → UniqueIds db
      → ClaimStep
          (takes_effect reply)
          (status_of id db)
          (status_of id (claim id_before max_time reply limit lease now db).1)
  unfolding claim
  claim-Step reply limit lease now db u =
      let next = now + stale_backoff in
      let sweep = reclaim (now - lease) next in
      let keep = λ (r : OutboxRow). reclaim-id (now - lease) next r in
      let swept = map sweep db in
      let unique = UniqueIds-map sweep keep db u in
      let chosen = chosen_rows id_before limit now swept in
      let lease_one = lease_row now chosen in
      let stay = ClaimStep-refl (takes_effect reply) (status_of id db) in
      let there : find_row id swept ≡ updated sweep keep (find_row id db) =
        find_row-map sweep keep id db in
      let leased : ClaimStep true (status_of id db) (status_of id (map lease_one swept)) =
        subst (λ o. ClaimStep true (status_of id db) (status_in o))
          (sym (find_row-map lease_one (lease-id now chosen) id swept))
          (subst
            (λ o.
              ClaimStep true (status_of id db)
                (status_in (updated lease_one (lease-id now chosen) o)))
            (sym there)
            (updated_twice sweep lease_one keep (lease-id now chosen) (find_row id db) (λ r e.
              let here : find_row id swept ≡ some (sweep r) = there ∙ ap (updated sweep keep) e in
              swept_leased r.status (sweep r).status (lease_one (sweep r)).status
                (swept_status (now - lease) next r)
                (leased_status now chosen (sweep r) (
                  chosen-waiting id_before max_time id limit now swept (sweep r) unique here))))) in
      let P = λ (x : Result ShardError Table × Table).
        ClaimStep (takes_effect reply) (status_of id db) (status_of id x.1) in
      either_way P (limit == 0) stay (
        either_way P (ltb now lease || ltb max_time next) stay (
          either_way P (readable chosen)
            (executed-Claim id reply (map as_processing chosen) db (map lease_one swept) leased)
            stay))

  run-Step :
      (op : Op) (db : Table)
      → UniqueIds db
      → Step max_time id op (status_of id db) (status_of id (run id_before max_time op db))
  unfolding run mark_done mark_failed
  run-Step (appends reply r) db u = append-Step reply r db
  run-Step (claims reply limit lease now) db u = claim-Step reply limit lease now db u
  run-Step (marks_done reply key) db u =
      executed-Status id reply tt db (map (finish key) db) (str_eq id key)
        (ended done (status_of id db)) (finished-Status key id db)
  run-Step (marks_failed reply key retry_after now) db u =
      let next = now + retry_after in
      refused_first id reply config tt db (map (fail key next) db) (ltb max_time next)
        (str_eq id key) (ended failed (status_of id db)) (failed-Status key id next db)

  -- Over any operations of any relays, in any order and with any faults of the database, each operation
  -- takes the record of `id` by one step of `Step`, in the order of the operations, and the ids stay
  -- unique: an insertion with the status pending that takes effect makes it pending if it was not
  -- there, a mark of this id that takes effect ends a lease as done or as failed and changes no record
  -- that is not leased, and a claim returns a lease to the queue, leases what waits, or leaves the
  -- record as it is.
  pub run_all-Steps :
      (ops : List Op) (db : Table)
      → UniqueIds db
      → UniqueIds (run_all id_before max_time ops db)
        × Steps max_time id ops (status_of id db) (status_of id (run_all id_before max_time ops db))
  unfolding run_all
  run_all-Steps [] db u = (u, refl)
  run_all-Steps (op ∷ ops) db u =
      let unique = (run-Grows id_before max_time id op db u).0 in
      let (unique', rest) = run_all-Steps ops (run id_before max_time op db) unique in
      (unique', (status_of id (run id_before max_time op db), run-Step op db u, rest))
