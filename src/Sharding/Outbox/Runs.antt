-- ===== src/Sharding/Outbox/Runs.antt =====
-- ecat-data-sharding/src/outbox.rs: what the operations do to a record, over any sequence of them.
use e_cat.Prelude.{
  ℕ, ◌+◌, ◌-◌, String, ◌≡◌, refl, sym, ap, subst, ◌∙◌, Bool, true, false, not, ◌||◌, Option, none,
  some, List, [], ◌∷◌, ◌++◌, map, ltb, ◌==◌, if◌then◌else◌, either_way, by_test, arith,
}
use text.Mathlib.Text.{◌==◌ as str_eq}
use e_cat.Prelude.Result.{Result}
use e_cat.Sharding.Error.{ShardError}
use e_cat.Sharding.Outbox.{
  OutboxStatus, pending, processing, done, failed, OutboxRow, Table, Reply, stale_backoff,
  is_pending, is_waiting, has_id, append, reclaim, due_rows, readable, lease_row, as_processing,
  ordered, chosen_rows, claim, finish, mark_done, fail, mark_failed,
}
use e_cat.Sharding.Outbox.Keys.{
  find_row, status_in, status_of, UniqueIds, UniqueIds-append, UniqueIds-map, find_row-id, due_row,
  has_id-ordered, has_id-take, executed-table,
}
use e_cat.Sharding.Outbox.Life.{
  Life, stay, done-Final, Lives, Lives-refl, Lives-trans, map-Lives, reclaim-Life, finish-Life,
  fail-Life, lease-Life, reclaim-id, finish-id, fail-id, lease-id,
}

Lives-test :
    (b : Bool) (row : OutboxRow) (o p : Option OutboxRow)
    → Lives (status_in o) (status_in p)
    → Lives (status_in (if b then some row else o)) (status_in (if b then some row else p))
Lives-test true row o p h = stay
Lives-test false row o p h = h

-- What holds of a table before and after an operation.
abbrev Grows : String → Table → Table → Type 0
Grows id db db' = UniqueIds db' × Lives (status_of id db) (status_of id db')

-- The operations of the store, with the clock and what the database does.
pub data Op : Type 0 where
  appends : Reply → OutboxRow → Op
  claims : Reply → (limit lease now : ℕ) → Op
  marks_done : Reply → String → Op
  marks_failed : Reply → String → (retry_after now : ℕ) → Op

module _ (id_before : String → String → Bool) (max_time : ℕ) where
  unfoldable pub run : Op → Table → Table
  unfolding append claim mark_done mark_failed
  run (appends reply r) db = (append reply r db).1
  run (claims reply limit lease now) db = (claim id_before max_time reply limit lease now db).1
  run (marks_done reply id) db = (mark_done reply id db).1
  run (marks_failed reply id retry_after now) db =
      (mark_failed max_time reply id retry_after now db).1

  unfoldable pub run_all : List Op → Table → Table
  unfolding run
  run_all [] db = db
  run_all (op ∷ ops) db = run_all ops (run op db)

  pub chosen-waiting :
      (id : String) (limit now : ℕ) (db : Table) (r : OutboxRow)
      → UniqueIds db
      → find_row id db ≡ some r
      → has_id r.id (chosen_rows id_before limit now db) ≡ true
      → is_waiting r.status ≡ true
  chosen-waiting id limit now db r u e h =
      let same = find_row-id id db r e in
      let listed = has_id-take r.id limit (ordered id_before (due_rows now db)) h in
      let due : has_id r.id (due_rows now db) ≡ true =
        sym (has_id-ordered id_before r.id (due_rows now db)) ∙ listed in
      let fit = due_row id now db r u (subst (λ x. has_id x (due_rows now db) ≡ true) same due) e in
      ground arith

  Grows-refl : (id : String) (db : Table) → UniqueIds db → Grows id db db
  Grows-refl id db u = (u, Lives-refl (status_of id db))

  claim-Grows :
      (id : String) (reply : Reply) (limit lease now : ℕ) (db : Table)
      → UniqueIds db
      → Grows id db (claim id_before max_time reply limit lease now db).1
  unfolding claim
  claim-Grows id reply limit lease now db u =
      let sweep = reclaim (now - lease) (now + stale_backoff) in
      let swept = map sweep db in
      let chosen = chosen_rows id_before limit now swept in
      let keep = λ (r : OutboxRow). reclaim-id (now - lease) (now + stale_backoff) r in
      let unique = UniqueIds-map sweep keep db u in
      let first =
        map-Lives sweep keep id db (λ r e. reclaim-Life (now - lease) (now + stale_backoff) r) in
      let second =
        map-Lives (lease_row now chosen) (lease-id now chosen) id swept
          (λ r e. lease-Life now chosen r (chosen-waiting id limit now swept r unique e)) in
      let after = map (lease_row now chosen) swept in
      let grown : Grows id db after = (
        UniqueIds-map (lease_row now chosen) (lease-id now chosen) swept unique,
        Lives-trans (status_of id db) (status_of id swept) (status_of id after) first second,
      ) in
      let P = λ (x : Result ShardError Table × Table). Grows id db x.1 in
      either_way P (limit == 0) (Grows-refl id db u) (
        either_way P (ltb now lease || ltb max_time (now + stale_backoff)) (Grows-refl id db u) (
          either_way P (readable chosen)
            (executed-table (Grows id db) reply (map as_processing chosen) db after
              (Grows-refl id db u) grown)
            (Grows-refl id db u)))

  pending-Life : (s : OutboxStatus) → is_pending s ≡ true → Life pending s
  pending-Life pending e = stay
  pending-Life processing e = absurd (ground arith)
  pending-Life done e = absurd (ground arith)
  pending-Life failed e = absurd (ground arith)

  appended-Lives :
      (id : String) (db : Table) (r : OutboxRow)
      → is_pending r.status ≡ true
      → Lives (status_of id db) (status_of id (db ++ (r ∷ [])))
  appended-Lives id [] r p =
      either_way (λ (o : Option OutboxRow). Lives none (status_in o)) (str_eq r.id id)
        (pending-Life r.status p) tt
  appended-Lives id (row ∷ rest) r p =
      Lives-test (str_eq row.id id) row (find_row id rest) (find_row id (rest ++ (r ∷ [])))
        (appended-Lives id rest r p)

  append-Grows :
      (id : String) (reply : Reply) (r : OutboxRow) (db : Table)
      → UniqueIds db
      → Grows id db (append reply r db).1
  unfolding append
  append-Grows id reply r db u =
      let same = Grows-refl id db u in
      let P = λ (x : Result ShardError (Unit {0}) × Table). Grows id db x.1 in
      let new : OutboxRow = record r { claimed_at = none } in
      by_test P (not (is_pending r.status)) (λ e. same)
        (λ e.
          by_test P (has_id r.id db) (λ there. same)
            (λ fresh.
              executed-table (Grows id db) reply tt db (db ++ (new ∷ [])) same
                (UniqueIds-append db new fresh u, appended-Lives id db new (ground arith))))

  pub run-Grows : (id : String) (op : Op) (db : Table) → UniqueIds db → Grows id db (run op db)
  unfolding run mark_done mark_failed
  run-Grows id (appends reply r) db u = append-Grows id reply r db u
  run-Grows id (claims reply limit lease now) db u = claim-Grows id reply limit lease now db u
  run-Grows id (marks_done reply key) db u =
      executed-table (Grows id db) reply tt db (map (finish key) db) (Grows-refl id db u) (
        UniqueIds-map (finish key) (finish-id key) db u,
        map-Lives (finish key) (finish-id key) id db (λ r e. finish-Life key r),
      )
  run-Grows id (marks_failed reply key retry_after now) db u =
      let next = now + retry_after in
      either_way (λ (x : Result ShardError (Unit {0}) × Table). Grows id db x.1) (ltb max_time next)
        (Grows-refl id db u)
        (executed-table (Grows id db) reply tt db (map (fail key next) db) (Grows-refl id db u) (
          UniqueIds-map (fail key next) (fail-id key next) db u,
          map-Lives (fail key next) (fail-id key next) id db (λ r e. fail-Life key next r),
        ))

  run_all-Lives :
      (id : String) (ops : List Op) (db : Table)
      → UniqueIds db
      → UniqueIds (run_all ops db) × Lives (status_of id db) (status_of id (run_all ops db))
  unfolding run_all
  run_all-Lives id [] db u = Grows-refl id db u
  run_all-Lives id (op ∷ ops) db u =
      let (unique, first) = run-Grows id op db u in
      let (unique', rest) = run_all-Lives id ops (run op db) unique in
      (
        unique',
        Lives-trans (status_of id db) (status_of id (run op db))
            (status_of id (run_all ops (run op db))) first rest,
      )

  some-done : (o : Option OutboxStatus) → Lives (some done) o → o ≡ some done
  some-done none h = elim h [ ]
  some-done (some t) h = ap (λ s. some s) (done-Final h refl)

  -- A record that is done stays done over any operations: a late failure, a late lease or a
  -- repeated insertion does not put it back into the queue.
  pub run_all_done :
      (id : String) (ops : List Op) (db : Table)
      → UniqueIds db
      → status_of id db ≡ some done
      → status_of id (run_all ops db) ≡ some done
  run_all_done id ops db u e =
      some-done (status_of id (run_all ops db))
        (subst (λ o. Lives o (status_of id (run_all ops db))) e (run_all-Lives id ops db u).1)
