-- ===== src/Sharding/DualWrite/Mirror.antt =====
-- ecat-data-sharding/src/migrate/dual_write.rs: what the two topologies hold of a key.
use e_cat.Prelude.{
  ℕ, ◌==◌, ◌≡◌, refl, sym, ◌∙◌, ap, Bool, true, false, ◌&&◌, Option, none, some, List, [], ◌∷◌,
  if◌then◌else◌, either_way, arith,
}
use mathlib.Core.List.{Sublist}
use mathlib.Core.List.Sublist
use e_cat.Prelude.Result.{Result, ok, err}
use e_cat.Sharding.DualWrite.{
  DualWriteClient, Request, execute, query, execute_with, query_with, query_write,
  execute_then_query, Statement, statement, mirrored, Log, Fate, replied, refused, unanswered,
  carried_out, WriteError, settled, mirror_failure, is_ok, send, replay, request,
}

module _ (V R : Type 0) (fate : Log V R → ℕ → Request V R → Fate V R)
    (touches : Statement V R → Bool) where
  -- The statements that a client has carried out, of those that `touches` is true of.
  abbrev pub held : ℕ → Log V R → List (Statement V R)
  held c [] = []
  held c ((a, s) ∷ log) = if a == c && touches s then s ∷ held c log else held c log

  abbrev grown : Option (Statement V R) → List (Statement V R) → List (Statement V R)
  grown none l = l
  grown (some s) l = if touches s then s ∷ l else l

  abbrev pub touching : Option (Statement V R) → Bool
  touching none = false
  touching (some s) = touches s

  same : (a : ℕ) → (a == a) ≡ true
  same a = ground arith

  held-own :
      (c : ℕ) (st : Option (Statement V R)) (log : Log V R)
      → held c (carried_out V R c st log) ≡ grown st (held c log)
  held-own c none log = refl
  held-own c (some s) log = rw (same c) refl

  held-other :
      (a c : ℕ) (st : Option (Statement V R)) (log : Log V R)
      → (a == c) ≡ false
      → held c (carried_out V R a st log) ≡ held c log
  held-other a c none log e = refl
  held-other a c (some s) log e = rw e refl

  held-untouched :
      (a c : ℕ) (st : Option (Statement V R)) (log : Log V R)
      → touching st ≡ false
      → held c (carried_out V R a st log) ≡ held c log
  held-untouched a c none log e = refl
  held-untouched a c (some s) log e = by_address (a == c)
    where
      by_address : (b : Bool) → (if b && touches s then s ∷ held c log else held c log) ≡ held c log
      by_address true = rw e refl
      by_address false = refl

  grown-Sublist :
      (st : Option (Statement V R)) (l k : List (Statement V R))
      → Sublist l k
      → Sublist l (grown st k)
  grown-Sublist none l k h = h
  grown-Sublist (some s) l k h = either_way (Sublist l) (touches s) (Sublist.cons s h) h

  grown-both :
      (st : Option (Statement V R)) (l k : List (Statement V R))
      → Sublist l k
      → Sublist (grown st l) (grown st k)
  grown-both none l k h = h
  grown-both (some s) l k h = by_touch (touches s)
    where
      by_touch : (b : Bool) → Sublist (if b then s ∷ l else l) (if b then s ∷ k else k)
      by_touch true = Sublist.cons-cons s h
      by_touch false = h

  abbrev Matches : Option (Request V R) → Option (Statement V R) → Type 0
  Matches none st = st ≡ none
  Matches (some q) st = statement V R q ≡ st

  mirrored-Matches : (q : Request V R) → Matches (mirrored V R q) (statement V R q)
  unfolding mirrored
  mirrored-Matches (execute sql) = refl
  mirrored-Matches (query sql) = refl
  mirrored-Matches (execute_with sql params) = refl
  mirrored-Matches (query_with sql params) = refl
  mirrored-Matches (query_write sql params) = refl
  mirrored-Matches (execute_then_query first first_params second) = refl

  settled_untouched :
      (c a : ℕ) (q : Request V R) (log : Log V R) (f : Fate V R)
      → touching (statement V R q) ≡ false
      → held c (settled V R a q log f).1 ≡ held c log
  settled_untouched c a q log (replied r) e = held-untouched a c (statement V R q) log e
  settled_untouched c a q log refused e = refl
  settled_untouched c a q log unanswered e = held-untouched a c (statement V R q) log e

  failure_log : (r : R) (x : Result (WriteError V R) R × Log V R) → (mirror_failure V R r x).1 ≡ x.1
  failure_log r (ok s, log) = refl
  failure_log r (err x, log) = refl

  replay_untouched :
      (c : ℕ) (mirror : Option ℕ) (again : Option (Request V R)) (st : Option (Statement V R))
      (x : Result (WriteError V R) R × Log V R)
      → Matches again st
      → touching st ≡ false
      → held c (replay V R fate mirror again x).1 ≡ held c x.1
  unfolding replay send
  replay_untouched c mirror again st (err x, log) a e = refl
  replay_untouched c none again st (ok r, log) a e = refl
  replay_untouched c (some m) none st (ok r, log) a e = refl
  replay_untouched c (some m) (some q) st (ok r, log) a e =
      ap (held c) (failure_log r (settled V R m q log (fate log m q)))
      ∙ settled_untouched c m q log (fate log m q) (ap touching a ∙ e)

  -- A request leaves alone what a client holds, if its statement is not one of them.
  pub request_untouched :
      (c : ℕ) (w : DualWriteClient) (q : Request V R) (log : Log V R)
      → touching (statement V R q) ≡ false
      → held c (request V R fate w q log).1 ≡ held c log
  unfolding request send replay
  request_untouched c w q log e =
      replay_untouched c w.mirror (mirrored V R q) (statement V R q)
        (settled V R w.primary q log (fate log w.primary q)) (mirrored-Matches q) e
      ∙ settled_untouched c w.primary q log (fate log w.primary q) e

  module _ (p m : ℕ) (distinct : (p == m) ≡ false) where
    abbrev pub Behind : Log V R → Type 0
    Behind log = Sublist (held m log) (held p log)

    abbrev pub Level : Log V R → Type 0
    Level log = held m log ≡ held p log

    distinct_back : (m == p) ≡ false
    distinct_back = ground arith

    ahead :
        (st : Option (Statement V R)) (log : Log V R)
        → Behind log
        → Behind (carried_out V R p st log)
    ahead st log h =
        rw (held-own p st log, held-other p m st log distinct)
          (grown-Sublist st (held m log) (held p log) h)

    evened_own :
        (st : Option (Statement V R)) (log : Log V R)
        → held p (carried_out V R m st (carried_out V R p st log)) ≡ grown st (held p log)
    evened_own st log =
        held-other m p st (carried_out V R p st log) distinct_back ∙ held-own p st log

    evened_other :
        (st : Option (Statement V R)) (log : Log V R)
        → held m (carried_out V R m st (carried_out V R p st log)) ≡ grown st (held m log)
    evened_other st log =
        held-own m st (carried_out V R p st log) ∙ ap (grown st) (held-other p m st log distinct)

    evened :
        (st : Option (Statement V R)) (log : Log V R)
        → Behind log
        → Behind (carried_out V R m st (carried_out V R p st log))
    evened st log h =
        rw (evened_own st log, evened_other st log) (grown-both st (held m log) (held p log) h)

    evened-Level :
        (st : Option (Statement V R)) (log : Log V R)
        → Level log
        → Level (carried_out V R m st (carried_out V R p st log))
    evened-Level st log h = evened_other st log ∙ ap (grown st) h ∙ sym (evened_own st log)

    -- What a call keeps: the mirror is behind, and if the call succeeds it stays level.
    abbrev pub Follows : Log V R → Result (WriteError V R) R × Log V R → Type 0
    Follows log r = Behind r.1 × (is_ok V R r.0 ≡ true → Level log → Level r.1)

    mirror-Follows :
        (r : R) (st : Option (Statement V R)) (q : Request V R) (log : Log V R) (f : Fate V R)
        → statement V R q ≡ st
        → Behind log
        → Follows log (mirror_failure V R r (settled V R m q (carried_out V R p st log) f))
    mirror-Follows r st q log (replied s) e h = rw e (evened st log h, λ _. evened-Level st log)
    mirror-Follows r st q log refused e h = (ahead st log h, λ x. absurd (ground arith))
    mirror-Follows r st q log unanswered e h = rw e (evened st log h, λ x. absurd (ground arith))

    -- A client with the mirror, and one without.
    replay-Follows :
        (again : Option (Request V R)) (st : Option (Statement V R)) (r : R) (log : Log V R)
        → Matches again st
        → Behind log
        → Follows log (replay V R fate (some m) again (ok r, carried_out V R p st log))
    unfolding replay send
    replay-Follows none st r log e h = rw e (h, λ _ l. l)
    replay-Follows (some q) st r log e h =
        mirror-Follows r st q log (fate (carried_out V R p st log) m q) e h

    pub both_follow :
        (q : Request V R) (log : Log V R)
        → Behind log
        → Follows log (request V R fate (record { primary = p; mirror = some m }) q log)
    unfolding request replay send
    both_follow q log h = by_fate (fate log p q)
      where
        by_fate :
            (f : Fate V R)
            → Follows log (replay V R fate (some m) (mirrored V R q) (settled V R p q log f))
        by_fate (replied r) =
            replay-Follows (mirrored V R q) (statement V R q) r log (mirrored-Matches q) h
        by_fate refused = (h, λ x. absurd (ground arith))
        by_fate unanswered = (ahead (statement V R q) log h, λ x. absurd (ground arith))

    pub one_follows :
        (q : Request V R) (log : Log V R)
        → Behind log
        → Behind (request V R fate (record { primary = p; mirror = none }) q log).1
    unfolding request replay send
    one_follows q log h = by_fate (fate log p q)
      where
        by_fate :
            (f : Fate V R)
            → Behind (replay V R fate none (mirrored V R q) (settled V R p q log f)).1
        by_fate (replied r) = ahead (statement V R q) log h
        by_fate refused = h
        by_fate unanswered = ahead (statement V R q) log h
