-- ===== src/Archive/Run/Coverage.antt =====
-- The invariant of the store: objects are chunks of the partition, and a chunk whose row says that it is
-- verified was verified.
use e_cat.Prelude.{
  ℕ, suc, ◌<◌, ◌≡◌, refl, sym, subst, ◌==◌, ==_iff, by_test, either_way, Bool, true, false, Option,
  none, some, List, arith,
}
use e_cat.Archive.{ArchivePhase, pending, copied, verified, dropped, ArchiveJobState}
use e_cat.Archive.Run.{ArchiveJob, Store, update, put_new, Walk}
use e_cat.Archive.Run.Chunks.{Occurs, cursor_at, chunk_at}

module _ (c : ArchiveJob) where
  abbrev pub ObjectOk : ℕ → Option (List ℕ) → Type 0
  ObjectOk k none = Unit
  ObjectOk k (some rows) = (rows ≡ chunk_at c k)

  -- The chunk is an object, and a verification has found it to be right.
  abbrev pub Cold : ℕ → Option (List ℕ) → Bool → Type 0
  Cold k object checked = (object ≡ some (chunk_at c k)) × (checked ≡ true)

  abbrev pub PhaseOk : ℕ → ArchivePhase → Option (List ℕ) → Bool → Type 0
  PhaseOk k verified object checked = Cold k object checked
  PhaseOk k dropped object checked = Cold k object checked
  PhaseOk k pending object checked = Unit
  PhaseOk k copied object checked = Unit

  abbrev pub RowOk : ℕ → Option ArchiveJobState → Option (List ℕ) → Bool → Type 0
  RowOk k none object checked = Unit
  RowOk k (some job) object checked =
      (job.high_id ≡ cursor_at c (suc k)) × PhaseOk k job.phase object checked

  abbrev pub Inv : Store → Type 0
  Inv s = (k : ℕ) → ObjectOk k (s.objects k) × RowOk k (s.jobs k) (s.objects k) (s.checked k)

  abbrev pub ColdAt : Store → ℕ → Type 0
  ColdAt s k = Cold k (s.objects k) (s.checked k)

  -- Every row of the partition is in an object that was found to be right.
  abbrev pub AllCold : Store → Type 0
  AllCold s =
      (x : ℕ)
      → 0 < x
      → Occurs x c.hot
      → (k : ℕ) × (rows : List ℕ) × (s.objects k ≡ some rows) × Occurs x rows × (s.checked k ≡ true)

  -- What holds between two runs, whichever way the first has ended.
  abbrev pub Good : Store → Type 0
  Good s = Inv s × (s.is_dropped ≡ true → AllCold s)

  -- What holds in the loop.
  abbrev pub Walking : Walk → Store → Type 0
  Walking st s =
      Inv s
      × (s.is_dropped ≡ false)
      × (st.cursor ≡ cursor_at c st.chunk)
      × (st.complete ≡ false)
      × (st.all_verified ≡ true → c.dry_run ≡ false → (j : ℕ) → j < st.chunk → ColdAt s j)

  pub Walking-Good : (st : Walk) (s : Store) → Walking st s → Good s
  Walking-Good st s h = (h.0, λ e. absurd (ground arith))

  -- Of the invariant at one chunk.
  PhaseOk-mono :
      (k : ℕ) (p : ArchivePhase) (o o' : Option (List ℕ)) (b b' : Bool)
      → (Cold k o b → Cold k o' b')
      → PhaseOk k p o b
      → PhaseOk k p o' b'
  PhaseOk-mono k verified o o' b b' f h = f h
  PhaseOk-mono k dropped o o' b b' f h = f h
  PhaseOk-mono k pending o o' b b' f h = tt
  PhaseOk-mono k copied o o' b b' f h = tt

  RowOk-mono :
      (k : ℕ) (row : Option ArchiveJobState) (o o' : Option (List ℕ)) (b b' : Bool)
      → (Cold k o b → Cold k o' b')
      → RowOk k row o b
      → RowOk k row o' b'
  RowOk-mono k none o o' b b' f h = tt
  RowOk-mono k (some job) o o' b b' f h = (h.0, PhaseOk-mono k job.phase o o' b b' f h.1)

  -- A change of one entry.
  at_key :
      {A : Type 0} (P : ℕ → A → Type 0) (f : ℕ → A) (k : ℕ) (a : A)
      → ((j : ℕ) → P j (f j))
      → P k a
      → (j : ℕ) → P j (update f k a j)
  at_key P f k a h new j =
      by_test (P j) (k == j) (λ e. subst (λ x. P x a) ((==_iff k j).0 e) new) (λ e. h j)

  -- A row may be replaced by one that is right.
  pub Inv-row :
      (s : Store) (k : ℕ) (row : Option ArchiveJobState)
      → Inv s
      → RowOk k row (s.objects k) (s.checked k)
      → Inv (record s { jobs = update s.jobs k row })
  Inv-row s k row h new j = (
    (h j).0,
    at_key (λ i x. RowOk i x (s.objects i) (s.checked i)) s.jobs k row (λ i. (h i).1) new j,
  )

  abbrev pub written : Store → ℕ → List ℕ → Store
  written s k rows = record s { objects = update s.objects k (put_new (s.objects k) rows) }

  put-Cold :
      (k : ℕ) (o : Option (List ℕ)) (rows : List ℕ) (b : Bool)
      → Cold k o b
      → Cold k (put_new o rows) b
  put-Cold k none rows b h = absurd (ground arith)
  put-Cold k (some old) rows b h = h

  put-ObjectOk :
      (k : ℕ) (o : Option (List ℕ)) (rows : List ℕ)
      → rows ≡ chunk_at c k
      → ObjectOk k o
      → ObjectOk k (put_new o rows)
  put-ObjectOk k none rows e h = e
  put-ObjectOk k (some old) rows e h = h

  -- What is in the cold store stays there.
  pub written-Cold :
      (s : Store) (k : ℕ) (rows : List ℕ) (j : ℕ) → ColdAt s j → ColdAt (written s k rows) j
  written-Cold s k rows j h =
      by_test (λ o. Cold j o (s.checked j)) (k == j)
        (λ e.
          subst (λ i. Cold j (put_new (s.objects i) rows) (s.checked j)) (sym ((==_iff k j).0 e))
            (put-Cold j (s.objects j) rows (s.checked j) h))
        (λ e. h)

  pub written-Inv :
      (s : Store) (k : ℕ) (rows : List ℕ) → rows ≡ chunk_at c k → Inv s → Inv (written s k rows)
  written-Inv s k rows e h j = (
    at_key (λ i o. ObjectOk i o) s.objects k (put_new (s.objects k) rows) (λ i. (h i).0)
        (put-ObjectOk k (s.objects k) rows e (h k).0) j,
    RowOk-mono j (s.jobs j) (s.objects j) ((written s k rows).objects j) (s.checked j) (s.checked j)
        (written-Cold s k rows j) (h j).1,
  )

  abbrev pub marked : Store → ℕ → Store
  marked s k = record s { checked = update s.checked k true }

  pub marked-Cold : (s : Store) (k j : ℕ) → ColdAt s j → ColdAt (marked s k) j
  marked-Cold s k j h = (h.0, either_way (λ b. b ≡ true) (k == j) refl h.1)

  pub marked-Inv : (s : Store) (k : ℕ) → Inv s → Inv (marked s k)
  marked-Inv s k h j = (
    (h j).0,
    RowOk-mono j (s.jobs j) (s.objects j) (s.objects j) (s.checked j) ((marked s k).checked j)
        (marked-Cold s k j) (h j).1,
  )

  -- The invariant of the loop after a step that loses nothing.
  pub Walking-next :
      (st : Walk) (s s' : Store)
      → Walking st s
      → Inv s'
      → s'.is_dropped ≡ false
      → ((j : ℕ) → ColdAt s j → ColdAt s' j)
      → Walking st s'
  Walking-next st s s' h inv same keep =
      (inv, same, h.2, h.3, λ v d j less. keep j (h.4 v d j less))
