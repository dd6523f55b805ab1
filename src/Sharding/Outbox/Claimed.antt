-- ===== src/Sharding/Outbox/Claimed.antt =====
-- ecat-data-sharding/src/outbox.rs: the rows that a claim hands out.
use e_cat.Prelude.{
  ℕ, zero, suc, ◌+◌, ◌-◌, ◌≤◌, String, ◌≡◌, refl, sym, ap, subst, ◌∙◌, Bool, true, false, ◌||◌,
  some, [], ◌∷◌, map, take, length, length-take, length-map, ltb, ◌==◌, Bool-cases, inl, inr,
  either_way, arith,
}
use text.Mathlib.Text.{◌==◌ as str_eq}
use e_cat.Prelude.Triple.{Pred, Post}
use e_cat.Sharding.Outbox.{
  processing, OutboxRow, Table, Reply, answered, refused, lost, stale_backoff, has_id, executed,
  reclaim, due_rows, is_due, readable, lease_row, as_processing, row_before, insert_row, ordered,
  chosen_rows, claim,
}
use e_cat.Sharding.Outbox.Keys.{
  find_row, status_in, status_of, UniqueIds, UniqueIds-map, has_id-map, updated, find_row-map,
  find_row-id, has_id-due_rows, has_id-insert_row, has_id-ordered, has_id-take, str_eq_sym,
}
use e_cat.Sharding.Outbox.Life.{reclaim-id, lease-id}

-- Every listed row is leased in the table.
abbrev pub Held : Table → Table → Type 0
Held rows db = (id : String) → has_id id rows ≡ true → status_of id db ≡ some processing

not_true : (b c : Bool) → (b ≡ true → c ≡ true) → c ≡ false → b ≡ false
not_true true c h e = absurd (ground (arith, h refl))
not_true false c h e = refl

UniqueIds-due_rows : (now : ℕ) (db : Table) → UniqueIds db → UniqueIds (due_rows now db)
UniqueIds-due_rows now [] u = tt
UniqueIds-due_rows now (row ∷ rest) (u, us) =
    let later = UniqueIds-due_rows now rest us in
    either_way UniqueIds (is_due now row)
      (
        not_true (has_id row.id (due_rows now rest)) (has_id row.id rest)
            (has_id-due_rows row.id now rest) u,
        later,
      )
      later

UniqueIds-take : (n : ℕ) (rows : Table) → UniqueIds rows → UniqueIds (take n rows)
UniqueIds-take zero rows u = tt
UniqueIds-take (suc n) [] u = tt
UniqueIds-take (suc n) (row ∷ rest) (u, us) = (
  not_true (has_id row.id (take n rest)) (has_id row.id rest) (has_id-take row.id n rest) u,
  UniqueIds-take n rest us,
)

pub found :
    (id : String) (db : Table) → has_id id db ≡ true → (r : OutboxRow) × (find_row id db ≡ some r)
unfolding has_id
found id [] h = absurd (ground arith)
found id (row ∷ rest) h = elim (Bool-cases (str_eq row.id id)) [
  | inl e ↦ (row, rw e refl)
  | inr e ↦ let (r, f) = found id rest (ground arith) in (r, rw (e, f) refl)
]

leased :
    (now : ℕ) (chosen : Table) (r : OutboxRow)
    → has_id r.id chosen ≡ true
    → (lease_row now chosen r).status ≡ processing
unfolding lease_row
leased now chosen r e = rw e refl

abbrev pub Any : Pred Table
Any w = Unit {0}

-- At most `limit` rows with different ids, all of them leased.
pub record Claimed (limit : ℕ) (rows db : Table) : Type 0 where
  pub few : length rows ≤ limit
  pub unique : UniqueIds rows
  pub held : Held rows db

module _ (id_before : String → String → Bool) where
  UniqueIds-insert_row :
      (row : OutboxRow) (rows : Table)
      → has_id row.id rows ≡ false
      → UniqueIds rows
      → UniqueIds (insert_row id_before row rows)
  unfolding has_id
  UniqueIds-insert_row row [] h u = (refl, tt)
  UniqueIds-insert_row row (other ∷ rest) h (u, us) =
      let differs = str_eq_sym other.id row.id (ground arith) in
      let listed = has_id-insert_row id_before other.id row rest in
      either_way UniqueIds (row_before id_before other row)
        (ground arith, UniqueIds-insert_row row rest (ground arith) us) (h, (u, us))

  UniqueIds-ordered : (rows : Table) → UniqueIds rows → UniqueIds (ordered id_before rows)
  UniqueIds-ordered [] u = tt
  UniqueIds-ordered (row ∷ rest) (u, us) =
      UniqueIds-insert_row row (ordered id_before rest) (has_id-ordered id_before row.id rest ∙ u)
        (UniqueIds-ordered rest us)

  leased-Held :
      (now limit : ℕ) (db : Table)
      → Held
          (map as_processing (chosen_rows id_before limit now db))
          (map (lease_row now (chosen_rows id_before limit now db)) db)
  leased-Held now limit db id h =
      let chosen = chosen_rows id_before limit now db in
      let listed : has_id id chosen ≡ true =
        sym (has_id-map as_processing (λ r. refl) id chosen) ∙ h in
      let due : has_id id (due_rows now db) ≡ true =
        sym (has_id-ordered id_before id (due_rows now db))
        ∙ has_id-take id limit (ordered id_before (due_rows now db)) listed in
      let (r, f) = found id db (has_id-due_rows id now db due) in
      ap status_in (
        find_row-map (lease_row now chosen) (lease-id now chosen) id db
        ∙ ap (updated (lease_row now chosen) (lease-id now chosen)) f)
      ∙ ap (λ s. some s)
          (leased now chosen r
            (subst (λ x. has_id x chosen ≡ true) (sym (find_row-id id db r f)) listed))

  executed-Claimed :
      (limit : ℕ) (reply : Reply) (rows old new : Table)
      → Claimed limit rows new
      → Post (Claimed limit) Any (executed reply rows old new)
  executed-Claimed limit answered rows old new h = h
  executed-Claimed limit refused rows old new h = tt
  executed-Claimed limit lost rows old new h = tt

  pub claim-Claimed :
      (max_time : ℕ) (reply : Reply) (limit lease now : ℕ) (db : Table)
      → UniqueIds db
      → Post (Claimed limit) Any (claim id_before max_time reply limit lease now db)
  unfolding claim has_id
  claim-Claimed max_time reply limit lease now db u =
      let sweep = reclaim (now - lease) (now + stale_backoff) in
      let swept = map sweep db in
      let chosen = chosen_rows id_before limit now swept in
      let unique =
        UniqueIds-map sweep (λ r. reclaim-id (now - lease) (now + stale_backoff) r) db u in
      let order = ordered id_before (due_rows now swept) in
      let claimed : Claimed limit (map as_processing chosen) (map (lease_row now chosen) swept) =
        record {
          few = omega (arith, length-map chosen as_processing, length-take limit order);
          unique =
              UniqueIds-map as_processing (λ r. refl) chosen
                (UniqueIds-take limit order
                  (UniqueIds-ordered (due_rows now swept) (UniqueIds-due_rows now swept unique)));
          held = leased-Held now limit swept;
        } in
      let P = Post (Claimed limit) Any in
      either_way P (limit == 0)
        (record { few = omega arith; unique = tt; held = λ id h. absurd (ground arith) })
        (either_way P (ltb now lease || ltb max_time (now + stale_backoff)) tt (
          either_way P (readable chosen)
            (executed-Claimed limit reply (map as_processing chosen) db
              (map (lease_row now chosen) swept) claimed)
            tt))
