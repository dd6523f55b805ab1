-- ===== src/Sharding/Snowflake/Threads.antt =====
-- ecat-data-sharding/src/id.rs: `next_id` called by any number of threads on one generator. A
-- thread loads the state word, later reads the clock and tries the exchange; what other threads do
-- in between is arbitrary, and so are the clock's readings.
use e_cat.Prelude.{
  Bool-cases, ==_iff, subst, sym, ℕ, ◌+◌, ◌*◌, ◌<◌, ◌≤◌, ◌≡◌, inl, inr, refl, Option, none, some,
  List, [], ◌∷◌, ◌==◌, if◌then◌else◌, arith,
}
use e_cat.Prelude.Int.{ℤ}
use e_cat.Sharding.Snowflake.{
  Attempt, failed, spin, publish, attempt, pack, compose_id, max_sequence, max_worker_id,
  max_timestamp, state_unset,
}
use e_cat.Sharding.Snowflake.Order.{Published, attempt-Published, pack_as_sum, compose_id_as_sum}

pub record Shared : Type 0 where
  pub state : ℕ
  pub loaded : ℕ → Option ℕ  -- by thread: the state word that it works from
  pub issued : List ℕ  -- the identifiers returned so far, the newest first

abbrev pub update : (ℕ → Option ℕ) → ℕ → Option ℕ → ℕ → Option ℕ
update f i v j = if i == j then v else f j

abbrev pub Decreasing : List ℕ → Type 0
Decreasing [] = Unit {0}
Decreasing (x ∷ []) = Unit {0}
Decreasing (x ∷ y ∷ xs) = (y < x) × Decreasing (y ∷ xs)

module _ (worker_id : ℕ) (epoch_ms : ℤ) where
  -- `compare_exchange(state, next)`; a thread that loses goes round the loop again.
  exchange : ℕ → ℕ → ℕ → ℕ → Shared → Shared
  exchange i old timestamp sequence s =
      if s.state == old
      then (record s {
        state = pack timestamp sequence;
        loaded = update s.loaded i none;
        issued = compose_id timestamp worker_id sequence ∷ s.issued;
      })
      else (record s { loaded = update s.loaded i none })

  -- An error is returned, and a spin goes round the loop: either way the loaded word is given up.
  unfoldable pub finish : ℕ → ℕ → Attempt → Shared → Shared
  unfolding exchange
  finish i old (failed e) s = record s { loaded = update s.loaded i none }
  finish i old spin s = record s { loaded = update s.loaded i none }
  finish i old (publish timestamp sequence) s = exchange i old timestamp sequence s

  pub data Step (s : Shared) : Shared → Type 0 where
    load : (i : ℕ) → Step s (record s { loaded = update s.loaded i (some s.state) })
    try :
        (i : ℕ) (reading : ℤ) (old : ℕ)
        → s.loaded i ≡ some old
        → Step s (finish i old (attempt epoch_ms old reading) s)

  abbrev pub fresh : Shared
  fresh = record { state = state_unset; loaded = λ _. none; issued = [] }

  pub data Reach : Shared → Type 0 where
    boot : Reach fresh
    next : {s t : Shared} → Reach s → Step s t → Reach t

  -- The newest identifier is the one that the state word stands for.
  abbrev pub Newest : ℕ → List ℕ → Type 0
  Newest state [] = state ≡ state_unset
  Newest state (x ∷ xs) =
      (t : ℕ) × (q : ℕ) × (t ≤ max_timestamp)
      × (q ≤ max_sequence)
      × (state ≡ t * 4096 + q)
      × (x ≡ t * 4194304 + worker_id * 4096 + q)

  pub record Inv (s : Shared) : Type 0 where
    pub newest : Newest s.state s.issued
    pub descending : Decreasing s.issued

  Decreasing-publish :
      (state t q : ℕ) (ids : List ℕ)
      → worker_id ≤ max_worker_id
      → Newest state ids
      → Decreasing ids
      → Published state t q
      → Decreasing ((t * 4194304 + worker_id * 4096 + q) ∷ ids)
  Decreasing-publish state t q [] w n d p = tt
  Decreasing-publish state t q (x ∷ ids) w (t', q', ht, hq, e, ex) d p = (ground arith, d)

  publish-Inv :
      (t q : ℕ) (s : Shared) (loaded : ℕ → Option ℕ)
      → worker_id ≤ max_worker_id
      → Published s.state t q
      → Inv s
      → Inv (record {
        state = pack t q;
        loaded = loaded;
        issued = compose_id t worker_id q ∷ s.issued;
      })
  publish-Inv t q s loaded w p v =
      rw (pack_as_sum t q p.counted, compose_id_as_sum t worker_id q w p.counted)
        (record {
          newest = (t, q, p.timed, p.counted, refl, refl);
          descending = Decreasing-publish s.state t q s.issued w v.newest v.descending p;
        })

  exchange-Inv :
      (i old t q : ℕ) (s : Shared)
      → worker_id ≤ max_worker_id
      → Published old t q
      → Inv s
      → Inv (exchange i old t q s)
  unfolding exchange
  exchange-Inv i old t q s w p v = elim (Bool-cases (s.state == old)) [
    | inl same ↦ rw same (
        publish-Inv t q s (update s.loaded i none) w
          (subst (λ x. Published x t q) (sym ((==_iff s.state old).0 same)) p) v)
    | inr other ↦ rw other (record { newest = v.newest; descending = v.descending })
  ]

  finish-Inv :
      (i old : ℕ) (reading : ℤ) (s : Shared)
      → worker_id ≤ max_worker_id
      → Inv s
      → (a : Attempt) → attempt epoch_ms old reading ≡ a
      → Inv (finish i old a s)
  unfolding finish
  finish-Inv i old reading s w v (failed e) h = record {
    newest = v.newest;
    descending = v.descending;
  }
  finish-Inv i old reading s w v spin h = record { newest = v.newest; descending = v.descending }
  finish-Inv i old reading s w v (publish t q) h =
      exchange-Inv i old t q s w (attempt-Published epoch_ms reading old t q h) v

  Step-Inv : {s t : Shared} → worker_id ≤ max_worker_id → Step s t → Inv s → Inv t
  Step-Inv w (load i) v = record { newest = v.newest; descending = v.descending }
  Step-Inv {s} w (try i reading old h) v =
      finish-Inv i old reading s w v (attempt epoch_ms old reading) refl

  Reach-Inv : {s : Shared} → worker_id ≤ max_worker_id → Reach s → Inv s
  Reach-Inv w boot = record { newest = refl; descending = tt }
  Reach-Inv w (next r st) = Step-Inv w st (Reach-Inv w r)

  -- With a worker number that `with_clock` accepts, and whatever the threads' schedule and the
  -- clock's readings are, each identifier that a generator issues is greater than every one that
  -- it issued before, so no two are equal.
  pub Reach-Decreasing : {s : Shared} → worker_id ≤ max_worker_id → Reach s → Decreasing s.issued
  Reach-Decreasing w r = (Reach-Inv w r).descending
