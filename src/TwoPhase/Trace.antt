-- ===== src/TwoPhase/Trace.antt =====
-- What was asked of the participants, read off the trace, and the two sides that a transaction
-- can be on.
use e_cat.Prelude.{String, ◌≡◌, ◌⊎◌, inr, Bool, true, false, Option, none, some, List, [], ◌∷◌}
use e_cat.TwoPhase.{
  TxStatus, started, rolling_back, rolled_back, Decision, to_rollback, LogRow, Event, xa_commit,
  xa_rollback, xa_prepare, Reply, done, World,
}

abbrev pub is_commit : Event → Bool
is_commit (xa_commit _) = true
is_commit _ = false

abbrev pub is_rollback : Event → Bool
is_rollback (xa_rollback _) = true
is_rollback _ = false

abbrev pub has : (Event → Bool) → List (Event × Reply) → Bool
has p [] = false
has p ((e, r) ∷ t) = elim (p e) [ true ↦ true | false ↦ has p t ]

-- The request was made, and was answered without an error.
abbrev pub Did : Event → List (Event × Reply) → Type 0
Did e [] = ⊥
Did e ((e', r) ∷ t) = ((e' ≡ e) × (r ≡ done)) ⊎ Did e t

-- Every one of the participants did what was asked of it.
abbrev pub DidAll : (String → Event) → List String → List (Event × Reply) → Type 0
DidAll event [] t = Unit {0}
DidAll event (name ∷ names) t = Did (event name) t × DidAll event names t

pub DidAll-push :
    (event : String → Event) (names : List String) (e : Event) (r : Reply)
    (t : List (Event × Reply))
    → DidAll event names t
    → DidAll event names ((e, r) ∷ t)
DidAll-push event [] e r t h = tt
DidAll-push event (name ∷ names) e r t h = (inr h.0, DidAll-push event names e r t h.1)

abbrev pub on_rollback_side : TxStatus → Bool
on_rollback_side started = true
on_rollback_side rolling_back = true
on_rollback_side rolled_back = true
on_rollback_side _ = false

abbrev pub is_to_rollback : Option Decision → Bool
is_to_rollback (some to_rollback) = true
is_to_rollback _ = false

abbrev pub NotCommitted : Option LogRow → Type 0
NotCommitted none = Unit {0}
NotCommitted (some row) = on_rollback_side row.status ≡ true

abbrev pub Started : List String → Option LogRow → Type 0
Started names none = ⊥
Started names (some row) = (row.status ≡ started) × (row.participants ≡ names)

abbrev pub Decided : List String → Option LogRow → Type 0
Decided names none = ⊥
Decided names (some row) =
    (on_rollback_side row.status ≡ false)
    × (is_to_rollback row.decision ≡ false)
    × (row.participants ≡ names)

-- No commit was asked of any participant, and the log does not say that one may be.
abbrev pub NoCommit : World → Type 0
NoCommit w = NotCommitted w.row × (has is_commit w.trace ≡ false)

-- Every participant has prepared, the log says so, and no rollback was asked of any.
abbrev pub Voted : List String → World → Type 0
Voted names w =
    Decided names w.row × (has is_rollback w.trace ≡ false) × DidAll xa_prepare names w.trace

-- Begun, and nothing was decided.
abbrev pub Live : List String → World → Type 0
Live names w =
    Started names w.row × (has is_commit w.trace ≡ false) × (has is_rollback w.trace ≡ false)

abbrev pub OneSided : List String → World → Type 0
OneSided names w = NoCommit w ⊎ Voted names w
