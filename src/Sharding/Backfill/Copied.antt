-- ===== src/Sharding/Backfill/Copied.antt =====
-- ecat-data-sharding/src/migrate/backfill.rs: what a job has copied and counted so far.
use e_cat.Prelude.{
  ℕ, suc, ◌==◌, String, ◌≡◌, refl, sym, ap, subst, ◌∙◌, ◌⊎◌, inl, inr, Bool, true, false, Option,
  none, some, List, [], ◌∷◌, ◌++◌, In, In-append, In-append_left, Bool-cases, if◌then◌else◌, arith,
}
use Prim.Native.Nat.{bit_xor}
use text.Mathlib.Text.{◌==◌ as str_eq}
use text.Mathlib.TextEquality.{eq_iff}
use e_cat.Prelude.Result.{Result, ok, err}
use e_cat.Sharding.Error.{ShardError}
use e_cat.Sharding.Catalog.{fnv1a64}
use e_cat.Sharding.Plan.{ShardMove}
use e_cat.Sharding.Migrate.{JobState, Jobs, find_job, write_job}
use e_cat.Sharding.Backfill.{
  Row, Table, upsert_in, with_rows, last_pk, is_settled, new_job, insert_job, Migrator, selected,
  routes_to,
}
use e_cat.Sharding.Backfill.Rows.{
  lookup, lookup-upsert_same, lookup-upsert_other, IsSorted, lookup-In,
}

abbrev pub is_true : Result ShardError Bool → Bool
is_true (ok b) = b
is_true (err e) = false

same_text : (s : String) → str_eq s s ≡ true
same_text s = (eq_iff s s).1 refl

module _ (m : Migrator) (mv : ShardMove) where
  abbrev pub is_routed : Row → Bool
  is_routed row = is_true (routes_to m mv row)

  abbrev pub counted : List Row → ℕ × ℕ → ℕ × ℕ
  counted [] st = st
  counted (r ∷ rest) st =
      counted rest (if is_routed r then (suc st.0, bit_xor st.1 (fnv1a64 r.bytes)) else st)

  pub counted-append :
      (a b : List Row) (st : ℕ × ℕ) → counted (a ++ b) st ≡ counted b (counted a st)
  counted-append [] b st = refl
  counted-append (r ∷ a) b st =
      counted-append a b (if is_routed r then (suc st.0, bit_xor st.1 (fnv1a64 r.bytes)) else st)

  abbrev pub target : (String → String → Table) → Table
  target rows = rows mv.to mv.table

  -- The rows of the move among these are in the table as they are.
  abbrev pub Copied : List Row → Table → Type 0
  Copied done t = (r : Row) → In r done → is_routed r ≡ true → lookup r.pk t ≡ some r

  abbrev pub cursor_text : Option ℕ → Option String
  cursor_text none = none
  cursor_text (some pk) = some (m.encode pk)

  abbrev pub Counts : List Row → JobState → Type 0
  Counts done job = (job.rows, job.checksum) ≡ counted done (0, 0)

  abbrev pub JobIs : List Row → JobState → Type 0
  JobIs done job =
      (job.cursor ≡ cursor_text (last_pk done)) × Counts done job × (is_settled job.phase ≡ false)

  module _ (source : Table) where
    -- The rows of the source that the move's range selects.
    abbrev pub chosen : Table
    chosen = selected m mv.key_range source

    abbrev pub JobOk : Table → JobState → Type 0
    JobOk t job =
        (done : List Row) × (todo : List Row) × (done ++ todo ≡ chosen)
        × JobIs done job
        × Copied done t

    -- The source is as it was, and the stored job is right.
    abbrev pub Inv : (String → String → Table) → Jobs → Type 0
    Inv rows jobs =
        (rows mv.from mv.table ≡ source)
        × ((job : JobState) → find_job (m.move_id mv) jobs ≡ some job → JobOk (target rows) job)

    module _ (sorted : IsSorted chosen) where
      same_row : (r s : Row) → In r chosen → In s chosen → (r.pk == s.pk) ≡ true → r ≡ s
      same_row r s o p e =
          let at : r.pk ≡ s.pk = ground arith in
          let here = lookup-In r chosen sorted o in
          let there = lookup-In s chosen sorted p in
          some_row (sym here ∙ ap (λ k. lookup k chosen) at ∙ there)
        where
          some_row : some r ≡ some s → r ≡ s
          some_row h = cc

      pub Copied-upsert :
          (row : Row) (done : List Row) (t : Table)
          → In row chosen
          → ((r : Row) → In r done → In r chosen)
          → Copied done t
          → Copied done (upsert_in row t)
      Copied-upsert row done t o inside h r p routed = elim (Bool-cases (row.pk == r.pk)) [
        | inl e ↦ rw (sym (same_row row r o (inside r p) e)) (lookup-upsert_same row t)
        | inr e ↦ lookup-upsert_other r.pk row t e ∙ h r p routed
      ]

      pub Copied-one_more :
          (row : Row) (done : List Row) (t : Table)
          → Copied done (upsert_in row t)
          → Copied (done ++ row ∷ []) (upsert_in row t)
      Copied-one_more row done t h r p routed = elim (In-append r done (row ∷ []) p) [
        | inl o ↦ h r o routed
        | inr (inl e) ↦ rw e (lookup-upsert_same row t)
        | inr (inr n) ↦ elim n [ ]
      ]

      pub Copied-passed :
          (row : Row) (done : List Row) (t : Table)
          → is_routed row ≡ false
          → Copied done t
          → Copied (done ++ row ∷ []) t
      Copied-passed row done t e h r p routed = elim (In-append r done (row ∷ []) p) [
        | inl o ↦ h r o routed
        | inr (inl s) ↦ absurd (ground (arith, ap is_routed s))
        | inr (inr n) ↦ elim n [ ]
      ]

      pub JobOk-upsert :
          (row : Row) (t : Table) (job : JobState)
          → In row chosen
          → JobOk t job
          → JobOk (upsert_in row t) job
      JobOk-upsert row t job o (done, todo, all, is, copied) = (
        done,
        todo,
        all,
        is,
        Copied-upsert row done t o (λ r p. subst (In r) all (In-append_left r done todo p)) copied,
      )

      -- The write of a row to the target leaves the source and the job as they are.
      pub Inv-upsert :
          (row : Row) (rows : String → String → Table) (jobs : Jobs)
          → str_eq mv.from mv.to ≡ false
          → In row chosen
          → Inv rows jobs
          → Inv (with_rows mv.to mv.table (upsert_in row (rows mv.to mv.table)) rows) jobs
      Inv-upsert row rows jobs apart o h = (
        rw apart h.0,
        λ job e.
            rw (same_text mv.to, same_text mv.table)
              (JobOk-upsert row (target rows) job o (h.1 job e)),
      )

    pub target-with_rows :
        (new : Table) (rows : String → String → Table)
        → target (with_rows mv.to mv.table new rows) ≡ new
    target-with_rows new rows = rw (same_text mv.to, same_text mv.table) refl

    find-write :
        (id : String) (job j : JobState) (jobs : Jobs)
        → find_job id (write_job id job jobs) ≡ some j
        → job ≡ j
    find-write id job j [] e = absurd (ground arith)
    find-write id job j ((k, old) ∷ rest) e = ground (arith, find-write id job j rest)

    pub find-write_there :
        (id : String) (job old : JobState) (jobs : Jobs)
        → find_job id jobs ≡ some old
        → find_job id (write_job id job jobs) ≡ some job
    find-write_there id job old [] e = absurd (ground arith)
    find-write_there id job old ((k, x) ∷ rest) e = ground (arith, find-write_there id job old rest)

    -- A new state of the job that is right, and a new job.
    pub Inv-write :
        (job : JobState) (rows : String → String → Table) (jobs : Jobs)
        → JobOk (target rows) job
        → Inv rows jobs
        → Inv rows (write_job (m.move_id mv) job jobs)
    Inv-write job rows jobs right h =
        (h.0, λ j e. subst (JobOk (target rows)) (find-write (m.move_id mv) job j jobs e) right)

    new_job-JobOk : (t : Table) → JobOk t new_job
    new_job-JobOk t = ([], chosen, refl, (refl, refl, refl), λ r o routed. elim o [ ])

    find-insert :
        (id : String) (o : Option JobState) (j : JobState) (jobs : Jobs)
        → find_job id jobs ≡ o
        → find_job id (insert_job id o jobs) ≡ some j
        → (j ≡ new_job) ⊎ (find_job id jobs ≡ some j)
    find-insert id none j jobs e f = inl (ground (arith, same_text id))
    find-insert id (some old) j jobs e f = inr f

    pub Inv-insert :
        (rows : String → String → Table) (jobs : Jobs)
        → Inv rows jobs
        → Inv rows (insert_job (m.move_id mv) (find_job (m.move_id mv) jobs) jobs)
    Inv-insert rows jobs h = (
      h.0,
      λ j e. elim (find-insert (m.move_id mv) (find_job (m.move_id mv) jobs) j jobs refl e) [
        | inl new ↦ rw new (new_job-JobOk (target rows))
        | inr old ↦ h.1 j old
      ],
    )
