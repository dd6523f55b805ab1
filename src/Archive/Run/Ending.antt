-- ===== src/Archive/Run/Ending.antt =====
-- ecat-data-tiering/src/archive.rs: the loop ends before its fuel does.
use e_cat.Prelude.{
  ℕ, zero, suc, ◌≤◌, ◌<◌, ◌≢◌, leb, ◌-◌, length, Option, List, [], ◌∷◌, either_way, arith,
}
use e_cat.Prelude.Result.{Result, ok, err}
use e_cat.Prelude.Exec.{after, ◌>>=◌, pure}
use e_cat.Archive.{TieringError, out_of_fuel}
use e_cat.Archive.Run.{
  ArchiveJob, Store, Reply, World, M, Act, request_with, request, now_utc, load, Walk, Round, gone,
  broke, on, begun,
}
use e_cat.Archive.Run.Partition.{by_job, round, follow, walk, finish, archive_partition}
use e_cat.Archive.Run.Calm.{
  NotMore, Calm, Other, no_answer-ne, request_takes, Calm-job, Calm-finish,
}

module _ (c : ArchiveJob) where
  -- A round that goes on has taken a reply.
  abbrev Taken : ℕ → Result TieringError Round × World → Type 0
  Taken n (ok (on st), v) = length v.replies < n
  Taken n (ok _, v) = Unit
  Taken n (err e, v) = (e ≢ out_of_fuel)

  NotMore-Taken :
      (m n : ℕ) (r : Result TieringError Round × World) → NotMore m r → m ≤ n → Taken (suc n) r
  NotMore-Taken m n (ok gone, v) h le = tt
  NotMore-Taken m n (ok (broke st), v) h le = tt
  NotMore-Taken m n (ok (on st), v) h le = omega arith
  NotMore-Taken m n (err e, v) h le = h

  after-Taken :
      {A : Type 0} (f : A → M Round) (n : ℕ) (r : Result TieringError A × World)
      → ((a : A) → Calm (f a))
      → NotMore n r
      → Taken (suc n) (after f r)
  unfolding after
  after-Taken f n (ok a, v) k h = NotMore-Taken (length v.replies) n (f a v) ((k a).at v) h
  after-Taken f n (err e, v) k h = h

  request-Taken :
      {A : Type 0} (act : Act A) (f : A → M Round)
      → ((r : Reply) (s : Store) → Other (act r s).0)
      → ((a : A) → Calm (f a))
      → (w : World) (replies : List Reply)
      → Taken (length replies) (after f (request_with act w replies))
  unfolding request_with after
  request-Taken act f other k w [] = no_answer-ne
  request-Taken act f other k w (r ∷ rest) =
      after-Taken f (length rest) (request_with act w (r ∷ rest)) k
        (request_takes act other w (r ∷ rest) (length rest) (omega arith))

  load-Taken :
      (st : Walk) (w : World) → Taken (length w.replies) ((load st.chunk >>= by_job c st) w)
  unfolding load request ◌>>=◌
  load-Taken st w =
      request-Taken (λ r s. (ok (s.jobs st.chunk), s)) (by_job c st) (λ r s. tt) (Calm-job c st) w
        w.replies

  round-Taken :
      (started : ℕ) (st : Walk) (w : World) → Taken (length w.replies) (round c started st w)
  unfolding round now_utc ◌>>=◌ after pure
  round-Taken started st w =
      either_way (λ (m : M Round). Taken (length w.replies) (m w))
        (leb c.run_timeout (w.now - started)) tt (load-Taken st w)

  abbrev Ended : {A : Type 0} → Result TieringError A × World → Type 0
  Ended r = Other r.0

  follow-Other :
      (again : Walk → M (Option Walk)) (n : ℕ)
      → ((st : Walk) (v : World) → length v.replies < n → Other (again st v).0)
      → (r : Result TieringError Round × World) → Taken n r
      → Other (after (follow c again) r).0
  unfolding after pure
  follow-Other again n k (ok gone, v) h = tt
  follow-Other again n k (ok (broke st), v) h = tt
  follow-Other again n k (ok (on st), v) h = k st v h
  follow-Other again n k (err e, v) h = h

  walk-Other :
      (started fuel : ℕ) (st : Walk) (w : World)
      → length w.replies < fuel
      → Other (walk c started fuel st w).0
  unfolding walk ◌>>=◌
  walk-Other started zero st w h = absurd (omega arith)
  walk-Other started (suc fuel) st w h =
      follow-Other (walk c started fuel) (length w.replies)
        (λ st' v less. walk-Other started fuel st' v (omega arith)) (round c started st w)
        (round-Taken started st w)

  NotMore-Other : {A : Type 0} (n : ℕ) (r : Result TieringError A × World) → NotMore n r → Other r.0
  NotMore-Other n (ok a, v) h = tt
  NotMore-Other n (err e, v) h = h

  finish-Other :
      (r : Result TieringError (Option Walk) × World) → Other r.0 → Other (after (finish c) r).0
  unfolding after
  finish-Other (ok o, v) h =
      NotMore-Other (length v.replies) (finish c o v) ((Calm-finish c o).at v)
  finish-Other (err e, v) h = h

  Other-ne : {A : Type 0} (r : Result TieringError A) → Other r → r ≢ err out_of_fuel
  Other-ne (ok a) h e = ground arith
  Other-ne (err x) h e = h (ground arith)

  -- The fuel that `archive_partition` gives its loop is enough: whatever is answered, and however many
  -- chunks there are, the run ends by returning or by an error of the code.
  archive_partition_ends :
      (started : ℕ) (w : World) → (archive_partition c started w).0 ≢ err out_of_fuel
  unfolding archive_partition ◌>>=◌
  archive_partition_ends started w = Other-ne (archive_partition c started w).0 (
      finish-Other (walk c started (suc (length w.replies)) begun w)
        (walk-Other started (suc (length w.replies)) begun w (omega arith)))
