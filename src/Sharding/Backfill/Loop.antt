-- ===== src/Sharding/Backfill/Loop.antt =====
-- ecat-data-sharding/src/migrate/backfill.rs: the loop over the chunks, whatever is answered.
use e_cat.Prelude.{
  ℕ, suc, ◌^◌, ltb, String, ◌≡◌, refl, sym, ap, subst, inl, inr, Bool, true, false, Option, some,
  List, [], ◌∷◌, ◌++◌, take, In, In-append, Bool-cases, if◌then◌else◌, arith,
}
use Prim.Native.Nat.{bit_xor}
use mathlib.Core.List.{append_assoc, append-nil}
use text.Mathlib.Text.{◌==◌ as str_eq}
use e_cat.Prelude.Result.{ok, err}
use e_cat.Prelude.Exec.{pure}
use e_cat.Sharding.Error.{database}
use e_cat.Sharding.Catalog.{fnv1a64, stable_hash64}
use e_cat.Sharding.Plan.{ShardMove}
use e_cat.Sharding.Migrate.{JobState, Jobs, find_job, write_job}
use e_cat.Sharding.Backfill.{
  Row, Table, World, M, upsert_in, with_rows, after, filter_rows, last_pk, Migrator, selected,
  routes_to, asks_lock, upsert_row, row_checksum, scan_chunk, save_job,
}
use e_cat.Sharding.Backfill.Copy.{count_row, copy_row, copy_rows, check_fence}
use e_cat.Sharding.Backfill.Rows.{IsSorted, after-last}
use e_cat.Sharding.Backfill.Rule.{
  Pred, Meets, chain, pure-Meets, raise-Meets, lifted-Meets, reads-Meets, writes-Meets, lock-Meets,
}
use e_cat.Sharding.Backfill.Copied.{
  is_true, is_routed, counted-append, target, Copied, Counts, JobIs, chosen, Inv, Copied-upsert,
  Copied-one_more, Copied-passed, Inv-upsert, target-with_rows, find-write_there, Inv-write,
}

-- A part of the precondition that speaks of no state.
pub known :
    {A F : Type 0} {P E : Pred} {m : M A} {Q : A → Pred}
    → (F → Meets P m Q E)
    → Meets (λ rows jobs. P rows jobs × F) m Q E
known t = record { at = λ w h. (t h.1).at w h.0 }

module _ (m : Migrator) (mv : ShardMove) (source : Table) (sorted : IsSorted (chosen m mv source))
    (apart : str_eq mv.from mv.to ≡ false) where
  -- The run has copied these rows, and the stored job is still this one.
  abbrev pub Held : List Row → JobState → (String → String → Table) → Jobs → Type 0
  Held done stored rows jobs =
      Inv m mv source rows jobs
      × Copied m mv done (target m mv rows)
      × (find_job (m.move_id mv) jobs ≡ some stored)

  abbrev pub Inside : List Row → Type 0
  Inside done = (r : Row) → In r done → In r (chosen m mv source)

  one-Inside :
      (row : Row) (done : List Row)
      → In row (chosen m mv source)
      → Inside done
      → Inside (done ++ row ∷ [])
  one-Inside row done o inside r p = elim (In-append r done (row ∷ []) p) [
    | inl q ↦ inside r q
    | inr (inl e) ↦ subst (λ x. In x (chosen m mv source)) (sym e) o
    | inr (inr n) ↦ elim n [ ]
  ]

  upsert-Meets :
      (row : Row) (done : List Row) (stored : JobState)
      → In row (chosen m mv source)
      → Inside done
      → Meets
          (Held done stored)
          (upsert_row m mv row)
          (λ _. Held (done ++ row ∷ []) stored)
          (Inv m mv source)
  unfolding upsert_row
  upsert-Meets row done stored o inside =
      writes-Meets
        (λ w. record w {
          rows = with_rows mv.to mv.table (upsert_in row (w.rows mv.to mv.table)) w.rows;
        })
        (λ w h.
          let kept = Inv-upsert m mv source sorted row w.rows w.jobs apart o h.0 in
          let old = Copied-upsert m mv source sorted row done (target m mv w.rows) o inside h.1 in
          let new = Copied-one_more m mv source sorted row done (target m mv w.rows) old in
          (
            (
              kept,
              subst (Copied m mv (done ++ row ∷ []))
                  (sym (target-with_rows m mv source (upsert_in row (target m mv w.rows)) w.rows))
                  new,
              h.2,
            ),
            kept,
            h.0,
          ))

  count_row-Counts :
      (row : Row) (done : List Row) (st st' : JobState × ℕ)
      → is_routed m mv row ≡ true
      → Counts m mv done st.0
      → count_row m row st ≡ ok st'
      → Counts m mv (done ++ row ∷ []) st'.0
  unfolding row_checksum stable_hash64
  count_row-Counts row done (job, copied) (job', copied') routed h e =
      let (n, x) = by_room (ltb (suc job.rows) (2 ^ 64)) e in
      rw (counted-append m mv done (row ∷ []) (0, 0), routed, sym h, n, x) refl
    where
      more : JobState × ℕ
      more = (
        record job { rows = suc job.rows; checksum = bit_xor job.checksum (fnv1a64 row.bytes) },
        suc copied,
      )

      by_room :
          (b : Bool)
          → (if b then ok more else err database) ≡ ok (job', copied')
          → (job'.rows ≡ suc job.rows) × (job'.checksum ≡ bit_xor job.checksum (fnv1a64 row.bytes))
      by_room true e = ground arith
      by_room false e = absurd (ground arith)

  copy_row-Meets :
      (row : Row) (done : List Row) (stored : JobState) (st : JobState × ℕ) (routed : Bool)
      → is_routed m mv row ≡ routed
      → In row (chosen m mv source)
      → Inside done
      → Counts m mv done st.0
      → Meets
          (Held done stored)
          (copy_row m mv row st routed)
          (λ st' rows jobs.
            Held (done ++ row ∷ []) stored rows jobs × Counts m mv (done ++ row ∷ []) st'.0)
          (Inv m mv source)
  copy_row-Meets row done stored st false e o inside c = pure-Meets st (λ rows jobs h. (
    (h.0, Copied-passed m mv source sorted row done (target m mv rows) e h.1, h.2),
    rw (counted-append m mv done (row ∷ []) (0, 0), e) c,
  ))
  copy_row-Meets row done stored st true e o inside c =
      chain (upsert-Meets row done stored o inside) (λ _.
        lifted-Meets (count_row m row st)
          (λ st' rows jobs f h. (h, count_row-Counts row done st st' e c f)) (λ rows jobs h. h.0))

  pub copy_rows-Meets :
      (rest done : List Row) (stored : JobState) (st : JobState × ℕ)
      → ((r : Row) → In r rest → In r (chosen m mv source))
      → Inside done
      → Counts m mv done st.0
      → Meets
          (Held done stored)
          (copy_rows m mv rest st)
          (λ st' rows jobs. Held (done ++ rest) stored rows jobs × Counts m mv (done ++ rest) st'.0)
          (Inv m mv source)
  unfolding copy_rows
  copy_rows-Meets [] done stored st o inside c = pure-Meets st (λ rows jobs h.
      subst (λ l. Held l stored rows jobs × Counts m mv l st.0) (sym (append-nil done)) (h, c))
  copy_rows-Meets (row ∷ rest) done stored st o inside c =
      chain
        (lifted-Meets (routes_to m mv row) (λ b rows jobs f h. (h, ap is_true f))
          (λ rows jobs h. h.0))
        (λ b. known (λ e.
          chain (copy_row-Meets row done stored st b e (o row (inl refl)) inside c) (λ st'.
            known (λ c'.
              subst
                (λ l.
                  Meets (Held (done ++ row ∷ []) stored) (copy_rows m mv rest st')
                    (λ st₂ rows jobs. Held l stored rows jobs × Counts m mv l st₂.0)
                    (Inv m mv source))
                (append_assoc done (row ∷ []) rest)
                (copy_rows-Meets rest (done ++ row ∷ []) stored st' (λ r p. o r (inr p))
                  (one-Inside row done (o row (inl refl)) inside) c')))))

  -- The end of the loop: all rows of the move are in the target, and the stored job has counted them.
  abbrev pub Finished : (String → String → Table) → Jobs → Type 0
  Finished rows jobs =
      Inv m mv source rows jobs
      × Copied m mv (chosen m mv source) (target m mv rows)
      × ((job : JobState) × (find_job (m.move_id mv) jobs ≡ some job)
          × Counts m mv (chosen m mv source) job)

  pub save-Meets :
      (done todo : List Row) (stored job : JobState)
      → done ++ todo ≡ chosen m mv source
      → JobIs m mv done job
      → Meets (Held done stored) (save_job m mv job) (λ _. Held done job) (Inv m mv source)
  unfolding save_job
  save-Meets done todo stored job all is = elim (Bool-cases (ltb job.rows (2 ^ 63))) [
    | inl e ↦ rw e (
        writes-Meets (λ w. record w { jobs = write_job (m.move_id mv) job w.jobs })
          (λ w h.
            let kept = Inv-write m mv source job w.rows w.jobs (done, todo, all, is, h.1) h.0 in
            (
              (kept, h.1, find-write_there m mv source (m.move_id mv) job stored w.jobs h.2),
              kept,
              h.0,
            )))
    | inr e ↦ rw e (raise-Meets _ (λ rows jobs h. h.0))
  ]

  pub fence-Meets :
      (done : List Row) (stored : JobState)
      → Meets (Held done stored) (check_fence m) (λ _. Held done stored) (Inv m mv source)
  unfolding check_fence
  fence-Meets done stored = by_fence m.fenced
    where
      by_fence :
          (b : Bool)
          → Meets
              (Held done stored)
              (if b then asks_lock else pure tt)
              (λ _. Held done stored)
              (Inv m mv source)
      by_fence true = lock-Meets (λ rows jobs h. (h, h.0))
      by_fence false = pure-Meets tt (λ rows jobs h. h)

  pub scan-Meets :
      (done todo : List Row) (stored : JobState) (cursor : Option ℕ)
      → done ++ todo ≡ chosen m mv source
      → last_pk done ≡ cursor
      → Meets
          (Held done stored)
          (scan_chunk m mv.from mv.table mv.key_range cursor)
          (λ batch rows jobs. Held done stored rows jobs × (batch ≡ take m.chunk_size todo))
          (Inv m mv source)
  unfolding scan_chunk
  scan-Meets done todo stored cursor all at =
      reads-Meets
        (λ w.
          take m.chunk_size
            (filter_rows (after cursor) (selected m mv.key_range (w.rows mv.from mv.table))))
        (λ w h. ((h, found w h.0.0), h.0))
    where
      left : filter_rows (after cursor) (chosen m mv source) ≡ todo
      left =
          subst (λ t. filter_rows (after cursor) t ≡ todo) all
            (subst (λ c. filter_rows (after c) (done ++ todo) ≡ todo) at
              (after-last done todo (subst IsSorted (sym all) sorted)))

      found :
          (w : World)
          → w.rows mv.from mv.table ≡ source
          → take m.chunk_size
              (filter_rows (after cursor) (selected m mv.key_range (w.rows mv.from mv.table)))
            ≡ take m.chunk_size todo
      found w e = rw (e, left) refl
