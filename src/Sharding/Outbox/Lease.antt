-- ===== src/Sharding/Outbox/Lease.antt =====
-- ecat-data-sharding/src/outbox.rs: a claim and the records that are leased already.
use e_cat.Prelude.{
  ℕ, ◌+◌, ◌-◌, ◌≤◌, String, ◌≡◌, refl, sym, ap, subst, ◌∙◌, Bool, false, ◌&&◌, ◌||◌, some, [], map,
  ltb, ◌==◌, Bool-cases, inl, inr, either_way, by_test, arith,
}
use e_cat.Prelude.Result.{Result, ok, err}
use e_cat.Sharding.Error.{ShardError, config, database}
use e_cat.Sharding.Outbox.{
  processing, OutboxRow, Table, Reply, answered, refused, lost, stale_backoff, is_processing,
  is_waiting, claimed_before, has_id, executed, reclaim, readable, lease_row, as_processing,
  chosen_rows, claim,
}
use e_cat.Sharding.Outbox.Keys.{
  find_row, UniqueIds, UniqueIds-map, has_id-map, updated, find_row-map, find_row-id,
}
use e_cat.Sharding.Outbox.Life.{reclaim-id, lease-id}
use e_cat.Sharding.Outbox.Runs.{chosen-waiting}

module _ (id_before : String → String → Bool) (max_time : ℕ) where
  not_chosen :
      (id : String) (limit now : ℕ) (db : Table) (r : OutboxRow)
      → UniqueIds db
      → find_row id db ≡ some r
      → r.status ≡ processing
      → has_id r.id (chosen_rows id_before limit now db) ≡ false
  not_chosen id limit now db r u e es =
      elim (Bool-cases (has_id r.id (chosen_rows id_before limit now db))) [
        | inl h ↦
            let waits =
              sym (ap is_waiting es) ∙ chosen-waiting id_before max_time id limit now db r u e h in
            absurd (ground arith)
        | inr h ↦ h
      ]

  kept-lease :
      (now : ℕ) (chosen : Table) (r : OutboxRow)
      → has_id r.id chosen ≡ false
      → lease_row now chosen r ≡ r
  unfolding lease_row
  kept-lease now chosen r h =
      by_test (λ x. x ≡ r) (has_id r.id chosen) (λ e. absurd (ground arith)) (λ e. refl)

  no_rows : (id : String) → has_id id [] ≡ false
  unfolding has_id
  no_rows id = refl

  -- The row of `id` is still `r`, and it is not among the rows that are handed out.
  abbrev LeftAlone : String → OutboxRow → Result ShardError Table × Table → Type 0
  LeftAlone id r x =
      (find_row id x.1 ≡ some r) × ((rows : Table) → x.0 ≡ ok rows → has_id id rows ≡ false)

  refused-LeftAlone :
      (id : String) (r : OutboxRow) (e : ShardError) (db : Table)
      → find_row id db ≡ some r
      → LeftAlone id r (err e, db)
  refused-LeftAlone id r e db h = (h, λ rows x. absurd (ground arith))

  executed-LeftAlone :
      (id : String) (r : OutboxRow) (reply : Reply) (rows old new : Table)
      → find_row id old ≡ some r
      → find_row id new ≡ some r
      → has_id id rows ≡ false
      → LeftAlone id r (executed reply rows old new)
  executed-LeftAlone id r answered rows old new h k n =
      (k, λ rows' e. subst (λ x. has_id id x ≡ false) (ground arith) n)
  executed-LeftAlone id r refused rows old new h k n = (h, λ rows' e. absurd (ground arith))
  executed-LeftAlone id r lost rows old new h k n = (k, λ rows' e. absurd (ground arith))

  kept-reclaim :
      (lease now t next : ℕ) (r : OutboxRow)
      → r.claimed_at ≡ some t
      → now ≤ t + lease
      → reclaim (now - lease) next r ≡ r
  unfolding reclaim
  kept-reclaim lease now t next r et h =
      let early : claimed_before (now - lease) r.claimed_at ≡ false =
        ap (claimed_before (now - lease)) et ∙ not_before (now - lease) t (omega arith) in
      by_test (λ x. x ≡ r) (is_processing r.status && claimed_before (now - lease) r.claimed_at)
        (λ e. absurd (ground arith)) (λ e. refl)
    where
      not_before : (cutoff t : ℕ) → cutoff ≤ t → ltb t cutoff ≡ false
      not_before cutoff t h = ground arith

  -- A record whose lease runs is left alone by a claim with that lease: it is not handed out, and
  -- its row stays as it is.
  pub claim_respects_lease :
      (id : String) (reply : Reply) (limit lease now t : ℕ) (db : Table) (r : OutboxRow)
      → UniqueIds db
      → find_row id db ≡ some r
      → r.status ≡ processing
      → r.claimed_at ≡ some t
      → now ≤ t + lease
      → (find_row id (claim id_before max_time reply limit lease now db).1 ≡ some r)
        × ((rows : Table)
            → (claim id_before max_time reply limit lease now db).0 ≡ ok rows
            → has_id id rows ≡ false)
  unfolding claim
  claim_respects_lease id reply limit lease now t db r u e es et h =
      let next = now + stale_backoff in
      let sweep = reclaim (now - lease) next in
      let keep = λ (row : OutboxRow). reclaim-id (now - lease) next row in
      let swept = map sweep db in
      let chosen = chosen_rows id_before limit now swept in
      let there : find_row id swept ≡ some r =
        find_row-map sweep keep id db
        ∙ ap (updated sweep keep) e
        ∙ ap (λ x. some x) (kept-reclaim lease now t next r et h) in
      let left = not_chosen id limit now swept r (UniqueIds-map sweep keep db u) there es in
      let after : find_row id (map (lease_row now chosen) swept) ≡ some r =
        find_row-map (lease_row now chosen) (lease-id now chosen) id swept
        ∙ ap (updated (lease_row now chosen) (lease-id now chosen)) there
        ∙ ap (λ x. some x) (kept-lease now chosen r left) in
      let unlisted : has_id id (map as_processing chosen) ≡ false =
        has_id-map as_processing (λ row. refl) id chosen
        ∙ subst (λ x. has_id x chosen ≡ false) (find_row-id id swept r there) left in
      either_way (LeftAlone id r) (limit == 0)
        (
          e,
          λ rows x.
              let empty : [] ≡ rows = ground arith in
              subst (λ l. has_id id l ≡ false) empty (no_rows id),
        )
        (either_way (LeftAlone id r) (ltb now lease || ltb max_time next)
          (refused-LeftAlone id r config db e)
          (either_way (LeftAlone id r) (readable chosen)
            (executed-LeftAlone id r reply (map as_processing chosen) db
              (map (lease_row now chosen) swept) e after unlisted)
            (refused-LeftAlone id r database db e)))
