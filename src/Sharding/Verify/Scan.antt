-- ===== src/Sharding/Verify/Scan.antt =====
-- ecat-data-sharding/src/migrate/verify.rs: a scan in chunks tallies every row that is selected, once.
use e_cat.Prelude.{
  ℕ, zero, suc, ◌<◌, String, ◌≡◌, refl, sym, ap, subst, ◌∙◌, Bool, true, false, Option, none, some,
  List, [], ◌∷◌, ◌++◌, length, take, drop, take-append-drop, if◌then◌else◌, arith,
}
use mathlib.Core.List.{append_assoc, append-nil}
use Prim.Native.Nat.{bit_xor}
use e_cat.Prelude.Result.{Result, ok, err, ◌>>=◌ as and_then}
use e_cat.Sharding.Error.{ShardError}
use e_cat.Sharding.Catalog.{fnv1a64, stable_hash64}
use e_cat.Sharding.Plan.{KeyRange}
use e_cat.Sharding.Migrate.{Jobs}
use e_cat.Sharding.Backfill.{
  Row, Table, World, after, filter_rows, last_pk, saturated, row_checksum, Migrator, selected,
  scan_chunk,
}
use e_cat.Sharding.Backfill.Rows.{
  IsSorted, after-last, last_pk-append, last_pk-none, none_left, some_taken,
}
use e_cat.Sharding.Backfill.Rule.{Pred, Meets, chain, pure-Meets, lifted-Meets, reads-Meets}
use e_cat.Sharding.Backfill.Loop.{known}
use e_cat.Sharding.Verify.{Stats, tally_rows, after_batch, scan_stats}

module _ (keep : Row → Result ShardError Bool) where
  tally_rows-append :
      (a b : List Row) (st mid : Stats)
      → tally_rows keep a st ≡ ok mid
      → tally_rows keep (a ++ b) st ≡ tally_rows keep b mid
  unfolding tally_rows row_checksum stable_hash64
  tally_rows-append [] b st mid e = ap (tally_rows keep b) (ground arith)
  tally_rows-append (r ∷ a) b st mid e = by_keep (keep r) (λ s. tally_rows-append a b s mid) e
    where
      counted : Stats
      counted = (saturated (suc st.0), bit_xor st.1 (fnv1a64 r.bytes))

      by_keep :
          (k : Result ShardError Bool)
          → ((s : Stats)
              → tally_rows keep a s ≡ ok mid
              → tally_rows keep (a ++ b) s ≡ tally_rows keep b mid)
          → and_then k (λ c. if c then tally_rows keep a counted else tally_rows keep a st) ≡ ok mid
          → and_then k
              (λ c. if c then tally_rows keep (a ++ b) counted else tally_rows keep (a ++ b) st)
            ≡ tally_rows keep b mid
      by_keep (ok true) later e = later counted e
      by_keep (ok false) later e = later st e
      by_keep (err x) later e = absurd (ground arith)

module _ (m : Migrator) (chunky : 0 < m.chunk_size) (rows₀ : String → String → Table)
    (jobs₀ : Jobs) where
  -- Nothing has changed.
  abbrev pub Same : Pred
  Same rows jobs = (rows ≡ rows₀) × (jobs ≡ jobs₀)

  module _ (keep : Row → Result ShardError Bool) (shard table : String)
      (range : Option KeyRange) where
    abbrev pub whole : Table
    whole = selected m range (rows₀ shard table)

    chunk-Meets :
        (done todo : List Row) (cursor : Option ℕ)
        → IsSorted whole
        → done ++ todo ≡ whole
        → last_pk done ≡ cursor
        → Meets Same
            (scan_chunk m shard table range cursor)
            (λ batch rows jobs. Same rows jobs × (batch ≡ take m.chunk_size todo))
            Same
    unfolding scan_chunk
    chunk-Meets done todo cursor sorted all at =
        reads-Meets
          (λ w.
            take m.chunk_size (filter_rows (after cursor) (selected m range (w.rows shard table))))
          (λ w h. ((h, found w h.0), h))
      where
        left : filter_rows (after cursor) whole ≡ todo
        left =
            subst (λ t. filter_rows (after cursor) t ≡ todo) all
              (subst (λ c. filter_rows (after c) (done ++ todo) ≡ todo) at
                (after-last done todo (subst IsSorted (sym all) sorted)))

        found :
            (w : World)
            → w.rows ≡ rows₀
            → take m.chunk_size (filter_rows (after cursor) (selected m range (w.rows shard table)))
              ≡ take m.chunk_size todo
        found w e = rw (e, left) refl

    module _ (sorted : IsSorted whole) (first : Stats) where
      -- The scan of the rows that are left ends, with the tally of all.
      abbrev Scans : ℕ → Type 0
      Scans fuel =
          (done todo : List Row) (cursor : Option ℕ) (st : Stats)
          → done ++ todo ≡ whole
          → last_pk done ≡ cursor
          → tally_rows keep done first ≡ ok st
          → length todo < fuel
          → Meets Same (scan_stats m keep shard table range fuel cursor st)
              (λ total rows jobs. Same rows jobs × (tally_rows keep whole first ≡ ok total)) Same

      batch-Meets :
          (fuel : ℕ)
          → Scans fuel
          → (done todo batch : List Row) (st : Stats) (o : Option ℕ) → done ++ todo ≡ whole
          → tally_rows keep done first ≡ ok st
          → length todo < suc fuel
          → batch ≡ take m.chunk_size todo
          → last_pk batch ≡ o
          → Meets Same
              (after_batch m
                (λ pk st'. scan_stats m keep shard table range fuel (some pk) st')
                keep
                batch
                st
                o)
              (λ total rows jobs. Same rows jobs × (tally_rows keep whole first ≡ ok total))
              Same
      batch-Meets fuel again done todo batch st none all sum less e at =
          pure-Meets st (λ rows jobs h. (h, subst (λ t. tally_rows keep t first ≡ ok st) ended sum))
        where
          ended : done ≡ whole
          ended =
              let empty = none_left m.chunk_size todo chunky (sym e ∙ last_pk-none batch at) in
              sym (append-nil done) ∙ ap (λ l. done ++ l) (sym empty) ∙ all
      batch-Meets fuel again done todo batch st (some pk) all sum less e at =
          chain
            (lifted-Meets (tally_rows keep batch st) (λ st' rows jobs f h. (h, f))
              (λ rows jobs h. h))
            (λ st'. known (λ f.
              again (done ++ batch) (drop m.chunk_size todo) (some pk) st' split
                (last_pk-append done batch pk at)
                (tally_rows-append keep done batch first st sum ∙ f)
                (some_taken m.chunk_size todo fuel pk chunky (ap last_pk (sym e) ∙ at) less)))
        where
          split : (done ++ batch) ++ drop m.chunk_size todo ≡ whole
          split =
              append_assoc done batch (drop m.chunk_size todo)
              ∙ ap (λ l. done ++ (l ++ drop m.chunk_size todo)) e
              ∙ ap (λ l. done ++ l) (take-append-drop m.chunk_size todo)
              ∙ all

      Scans-Meets : (fuel : ℕ) → Scans fuel
      unfolding scan_stats
      Scans-Meets zero done todo cursor st all at sum less = absurd (omega arith)
      Scans-Meets (suc fuel) done todo cursor st all at sum less =
          chain (chunk-Meets done todo cursor sorted all at) (λ batch. known (λ e.
            batch-Meets fuel (Scans-Meets fuel) done todo batch st (last_pk batch) all sum less e
              refl))

    pub scan_stats-Meets :
        (fuel : ℕ)
        → IsSorted whole
        → length whole < fuel
        → Meets Same
            (scan_stats m keep shard table range fuel none (0, 0))
            (λ total rows jobs. Same rows jobs × (tally_rows keep whole (0, 0) ≡ ok total))
            Same
    unfolding tally_rows
    scan_stats-Meets fuel sorted enough =
        Scans-Meets sorted (0, 0) fuel [] whole none (0, 0) refl refl refl enough
