-- ===== src/Sharding/Router.antt =====
-- ecat-data-sharding/src/router.rs: `ShardRouter`. A client is known by its endpoint's name; the
-- lock that guards the catalogue is left out, since each operation takes it once.
use e_cat.Prelude.{
  ℕ, zero, suc, ◌<◌, String, ◌≡◌, refl, subst, inl, inr, Bool, true, Option, none, some, List, [],
  ◌∷◌, length, get_elem?, if◌then◌else◌, arith,
}
use text.Mathlib.Text.{◌==◌ as str_eq}
use e_cat.Prelude.Result.{Result, ok, err, ◌>>◌}
use e_cat.Sharding.Error.{ShardError, config}
use e_cat.Sharding.Catalog.{
  ShardTable, ShardCatalog, Key, contains, find_table, or_unknown, shard_for, validate,
}
use e_cat.Sharding.Catalog.Lookup.{checked, first_found, shard_for_bounded}

pub record ShardRouter : Type 0 where
  pub catalog : ShardCatalog
  pub clients : List String

unfoldable pub check_endpoints : List String → List String → Result ShardError (Unit {0})
check_endpoints clients [] = ok tt
check_endpoints clients (shard ∷ shards) =
    if contains clients shard then check_endpoints clients shards else err config

unfoldable pub validate_clients : ShardCatalog → List String → Result ShardError (Unit {0})
unfolding check_endpoints
validate_clients [] clients = ok tt
validate_clients (t ∷ rest) clients = do
  check_endpoints clients t.shards
  validate_clients rest clients

-- What a call comes to: an index out of bounds panics.
pub data Routed : Type 0 where
  panicked : Routed
  routed : Result ShardError String → Routed

unfoldable pub client_of : List String → Option String → Routed
client_of clients none = panicked
client_of clients (some shard) =
    if contains clients shard then routed (ok shard) else routed (err config)

unfoldable pub endpoint : List String → ℕ → Result ShardError ShardTable → Routed
unfolding client_of
endpoint clients i (err e) = routed (err e)
endpoint clients i (ok t) = client_of clients (get_elem? t.shards i)

unfoldable pub route : ShardRouter → String → Result ShardError ℕ → Routed
unfolding endpoint
route r name (err e) = routed (err e)
route r name (ok i) = endpoint r.clients i (or_unknown name (find_table r.catalog name))

-- The shard's name and its client, which bears that name.
unfoldable pub for_key_with_shard : ShardRouter → String → Key → Routed
unfolding route
for_key_with_shard r name key = route r name (shard_for r.catalog name key)

result_inj : (a b : ShardRouter) (s : Result ShardError ShardRouter) → s ≡ ok a → s ≡ ok b → a ≡ b
result_inj a b s e f = ground arith

module _ (is_blank : String → Bool) where
  unfoldable pub new_router : ShardCatalog → List String → Result ShardError ShardRouter
  unfolding validate_clients
  new_router catalog clients = do
    validate is_blank catalog
    validate_clients catalog clients
    ok (record { catalog = catalog; clients = clients })

  unfoldable pub replaced : ShardRouter → ShardCatalog → Result ShardError (Unit {0}) → ShardRouter
  replaced r catalog (ok _) = record r { catalog = catalog }
  replaced r catalog (err e) = r

  -- The router after `reload`, whether it returned an error or not.
  unfoldable pub reload : ShardRouter → ShardCatalog → ShardRouter
  unfolding replaced validate_clients
  reload r catalog =
      replaced r catalog (do validate is_blank catalog; validate_clients catalog r.clients)

  unfoldable pub reload_all : ShardRouter → List ShardCatalog → ShardRouter
  unfolding reload
  reload_all r [] = r
  reload_all r (c ∷ cs) = reload_all (reload r c) cs

  abbrev Ready : ShardRouter → Type 0
  Ready r = validate_clients r.catalog r.clients ≡ ok tt

  new_router-Ready :
      (catalog : ShardCatalog) (clients : List String) (r : ShardRouter)
      → new_router catalog clients ≡ ok r
      → Ready r
  unfolding new_router
  new_router-Ready catalog clients r e =
      let made : ShardRouter = record { catalog = catalog; clients = clients } in
      let (_, rest) =
        checked (validate is_blank catalog) (validate_clients catalog clients >> ok made) r e in
      let (ready, same) = checked (validate_clients catalog clients) (ok made) r rest in
      subst Ready (result_inj made r (ok made) refl same) ready

  replaced-Ready :
      (r : ShardRouter) (catalog : ShardCatalog) (v c : Result ShardError (Unit {0}))
      → validate_clients catalog r.clients ≡ c
      → Ready r
      → Ready (replaced r catalog (v >> c))
  unfolding replaced
  replaced-Ready r catalog (ok _) (ok _) e h = e
  replaced-Ready r catalog (ok _) (err x) e h = h
  replaced-Ready r catalog (err x) c e h = h

  reload_all-Ready : (r : ShardRouter) (cs : List ShardCatalog) → Ready r → Ready (reload_all r cs)
  unfolding reload_all reload
  reload_all-Ready r [] h = h
  reload_all-Ready r (c ∷ cs) h =
      reload_all-Ready (reload r c) cs (replaced-Ready r c (validate is_blank c) _ refl h)

endpoint_held :
    (clients shards : List String) (i : ℕ)
    → check_endpoints clients shards ≡ ok tt
    → i < length shards
    → (shard : String) × (get_elem? shards i ≡ some shard) × (contains clients shard ≡ true)
unfolding check_endpoints
endpoint_held clients [] i c h = absurd (omega arith)
endpoint_held clients (s ∷ shards) zero c h = (s, refl, ground arith)
endpoint_held clients (s ∷ shards) (suc i) c h =
    endpoint_held clients shards i (ground arith) (omega arith)

found_held :
    (clients : List String) (catalog : ShardCatalog) (name : String) (t : ShardTable)
    → validate_clients catalog clients ≡ ok tt
    → find_table catalog name ≡ some t
    → check_endpoints clients t.shards ≡ ok tt
unfolding validate_clients
found_held clients [] name t v e = absurd (ground arith)
found_held clients (u ∷ rest) name t v e =
    let (head, tail) =
      checked (check_endpoints clients u.shards) (validate_clients rest clients) tt v in
    elim (first_found u t (str_eq u.name name) (find_table rest name) e) [
      | inl same ↦ subst (λ x. check_endpoints clients x.shards ≡ ok tt) same head
      | inr later ↦ found_held clients rest name t tail later
    ]

-- A router that `new` returned, after any sequence of reloads, some of which may have failed:
-- where the current catalogue gives a key a shard index, `for_key` neither panics nor misses a
-- client; it returns an endpoint that has a client.
pub for_key_routes :
    (is_blank : String → Bool) (catalog : ShardCatalog) (clients : List String) (r : ShardRouter)
    (cs : List ShardCatalog) (name : String) (key : Key) (i : ℕ)
    → new_router is_blank catalog clients ≡ ok r
    → shard_for (reload_all is_blank r cs).catalog name key ≡ ok i
    → (shard : String) × (for_key_with_shard (reload_all is_blank r cs) name key
        ≡ routed (ok shard))
      × (contains (reload_all is_blank r cs).clients shard ≡ true)
unfolding for_key_with_shard route endpoint client_of
for_key_routes is_blank catalog clients r cs name key i made e =
    let now = reload_all is_blank r cs in
    let (t, found, within) = shard_for_bounded now.catalog name key i e in
    let ready = reload_all-Ready is_blank r cs (new_router-Ready is_blank catalog clients r made) in
    let (shard, at, held) =
      endpoint_held now.clients t.shards i (found_held now.clients now.catalog name t ready found)
        within in
    (shard, rw (e, found, at, held) refl, held)
