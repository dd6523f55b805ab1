-- ===== src/Sharding/DualWrite/Calls.antt =====
-- ecat-data-sharding/src/migrate/dual_write.rs: calls for any keys, one after another.
use e_cat.Prelude.{
  ℕ, String, ◌==◌, ◌≡◌, ◌≢◌, refl, sym, ◌∙◌, ap, inl, inr, Bool, true, false, List, [], ◌∷◌,
  Bool-cases, arith,
}
use mathlib.Core.List.{Sublist}
use mathlib.Core.List.Sublist
use e_cat.Prelude.Result.{ok, err}
use e_cat.Sharding.Catalog.{Key}
use e_cat.Sharding.Router.{routed, for_key_with_shard}
use e_cat.Sharding.DualWrite.{
  IdentityPolicy, error, write_both, primary_only, DualWrite, Keyed, keyed, panicked, by_identity,
  for_key, Request, Statement, statement, Log, Fate, Call, call_keyed, all_calls,
}
use e_cat.Sharding.DualWrite.Mirror.{
  held, touching, request_untouched, Behind, Level, both_follow, one_follows,
}

module _ (V R : Type 0) (fate : Log V R → ℕ → Request V R → Fate V R)
    (touches : Statement V R → Bool) where
  -- Calls whose statement `touches` is true of are for this key of this table.
  abbrev pub OwnedBy : String → Key → List (Call V R fate) → Type 0
  OwnedBy table key [] = Unit
  OwnedBy table key (c ∷ cs) =
      (touching V R fate touches (statement V R c.asked) ≡ true → (c.table ≡ table) × (c.key ≡ key))
      × OwnedBy table key cs

  call_untouched :
      (c : ℕ) (w : Keyed) (q : Request V R) (log : Log V R)
      → touching V R fate touches (statement V R q) ≡ false
      → held V R fate touches c (call_keyed V R fate w q log).1 ≡ held V R fate touches c log
  call_untouched c panicked q log e = refl
  call_untouched c (keyed (err x)) q log e = refl
  call_untouched c (keyed (ok w)) q log e = request_untouched V R fate touches c w q log e

  module _ (p m : ℕ) (distinct : (p == m) ≡ false) (identity : IdentityPolicy) where
    abbrev Trails : Log V R → Bool × Log V R → Type 0
    Trails log r =
        Behind V R fate touches p m distinct r.1
        × (identity ≢ primary_only
            → r.0 ≡ true
            → Level V R fate touches p m distinct log
            → Level V R fate touches p m distinct r.1)

    own_call :
        (i : IdentityPolicy) (q : Request V R) (log : Log V R)
        → identity ≡ i
        → Behind V R fate touches p m distinct log
        → Trails log (call_keyed V R fate (keyed (by_identity i p m)) q log)
    own_call error q log e h = (h, λ _ x. absurd (ground arith))
    own_call write_both q log e h =
        let (behind, level) = both_follow V R fate touches p m distinct q log h in
        (behind, λ _. level)
    own_call primary_only q log e h =
        (one_follows V R fate touches p m distinct q log h, λ ne. absurd (ne e))

    other_call :
        (w : Keyed) (q : Request V R) (log : Log V R)
        → touching V R fate touches (statement V R q) ≡ false
        → Behind V R fate touches p m distinct log
        → Trails log (call_keyed V R fate w q log)
    other_call w q log e h =
        let at_p = call_untouched p w q log e in
        let at_m = call_untouched m w q log e in (rw (at_p, at_m) h, λ _ _ l. at_m ∙ l ∙ sym at_p)

    module _ (d : DualWrite) (table : String) (key : Key) (policy : d.identity ≡ identity)
        (sides : for_key d table key ≡ keyed (by_identity identity p m)) where
      one_call :
          (c : Call V R fate) (log : Log V R)
          → (touching V R fate touches (statement V R c.asked) ≡ true
              → (c.table ≡ table) × (c.key ≡ key))
          → Behind V R fate touches p m distinct log
          → Trails log (call_keyed V R fate (for_key d c.table c.key) c.asked log)
      one_call c log own h = elim (Bool-cases (touching V R fate touches (statement V R c.asked))) [
        | inl e ↦ rw ((own e).0, (own e).1, sides) (own_call identity c.asked log refl h)
        | inr e ↦ other_call (for_key d c.table c.key) c.asked log e h
      ]

      calls_trail :
          (cs : List (Call V R fate)) (log : Log V R)
          → OwnedBy table key cs
          → Behind V R fate touches p m distinct log
          → Trails log (all_calls V R fate d cs log)
      unfolding all_calls
      calls_trail [] log own h = (h, λ _ _ l. l)
      calls_trail (c ∷ cs) log own h =
          let first = one_call c log own.0 h in
          let later =
            calls_trail cs (call_keyed V R fate (for_key d c.table c.key) c.asked log).1 own.1
              first.0 in
          (later.0, λ ne e l. later.1 ne (ground arith) (first.1 ne (ground arith) l))

  sides_of :
      (d : DualWrite) (table : String) (key : Key) (sp sm : String)
      → for_key_with_shard d.primary.router table key ≡ routed (ok sp)
      → for_key_with_shard d.mirror.router table key ≡ routed (ok sm)
      → (d.primary.address sp == d.mirror.address sm) ≡ false
      → for_key d table key
        ≡ keyed (by_identity d.identity (d.primary.address sp) (d.mirror.address sm))
  unfolding for_key
  sides_of d table key sp sm e f distinct = rw (e, f, distinct) refl

  module _ (d : DualWrite) (table : String) (key : Key) (sp sm : String) (cs : List (Call V R fate))
      (log : Log V R) where
    abbrev at_primary : Log V R → List (Statement V R)
    at_primary l = held V R fate touches (d.primary.address sp) l

    abbrev at_mirror : Log V R → List (Statement V R)
    at_mirror l = held V R fate touches (d.mirror.address sm) l

    same_client :
        (l : Log V R)
        → (d.primary.address sp == d.mirror.address sm) ≡ true
        → at_mirror l ≡ at_primary l
    same_client l e = ap (λ c. held V R fate touches c l) (ground arith)

    -- Over any calls for any keys, each refused or left unanswered anywhere, what the mirror's shard of
    -- a key has carried out of the statements on that key is a sublist of what the primary's shard has,
    -- if it was before: a write is never at the mirror alone. `touches` tells the statements on the key,
    -- which only calls for the key may have.
    pub mirror_behind :
        for_key_with_shard d.primary.router table key ≡ routed (ok sp)
        → for_key_with_shard d.mirror.router table key ≡ routed (ok sm)
        → OwnedBy table key cs
        → Sublist (at_mirror log) (at_primary log)
        → Sublist
            (at_mirror (all_calls V R fate d cs log).1)
            (at_primary (all_calls V R fate d cs log).1)
    mirror_behind e f own h = elim (Bool-cases (d.primary.address sp == d.mirror.address sm)) [
      | inl eq ↦
          rw (same_client (all_calls V R fate d cs log).1 eq)
            (Sublist.refl (at_primary (all_calls V R fate d cs log).1))
      | inr ne ↦
          (calls_trail (d.primary.address sp) (d.mirror.address sm) ne d.identity d table key refl
            (sides_of d table key sp sm e f ne) cs log own h).0
    ]

    -- If every call succeeds and the policy is not that of `assume_same`, the two shards of a key have
    -- carried out the same statements on it in the same order, if they had before. `touches` tells the
    -- statements on the key, which only calls for the key may have.
    pub mirror_level :
        for_key_with_shard d.primary.router table key ≡ routed (ok sp)
        → for_key_with_shard d.mirror.router table key ≡ routed (ok sm)
        → OwnedBy table key cs
        → d.identity ≢ primary_only
        → (all_calls V R fate d cs log).0 ≡ true
        → at_mirror log ≡ at_primary log
        → at_mirror (all_calls V R fate d cs log).1 ≡ at_primary (all_calls V R fate d cs log).1
    mirror_level e f own policy done h =
        elim (Bool-cases (d.primary.address sp == d.mirror.address sm)) [
          | inl eq ↦ same_client (all_calls V R fate d cs log).1 eq
          | inr ne ↦
              (calls_trail (d.primary.address sp) (d.mirror.address sm) ne d.identity d table key
                  refl (sides_of d table key sp sm e f ne) cs log own
                  (rw h (Sublist.refl (at_primary log)))).1
                policy done h
        ]
