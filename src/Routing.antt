-- ===== src/Routing.antt =====
-- ecat-data/src/routing.rs: the endpoint that a read takes. Each endpoint has a breaker of its own,
-- of Breaker; what the probe of a replica's lag answers is a field. One statement reads the clock as
-- `now`.
pub mod Reads
mod Tests
use e_cat.Prelude.{
  ℕ, zero, suc, ◌+◌, ◌%◌, ◌^◌, Bool, true, false, Option, none, some, List, length, get_elem?, leb,
  ◌==◌, if◌then◌else◌,
}
use e_cat.Breaker.{Floats, BreakerConfig, BreakerState, opened, Inner, effective_state}

pub record Endpoint : Type 0 where
  pub breaker : Inner
  pub replica_lag : Option ℕ

pub record RdbmsRouting : Type 0 where
  pub primary : Endpoint
  pub replicas : List Endpoint
  pub next : ℕ  -- usize
  pub fallback_to_primary : Bool
  pub max_replica_lag : Option ℕ

-- Where a read goes: a replica by its index, the primary, or `NoAvailableReplica`.
pub data ReadTarget : Type 0 where
  replica : ℕ → ReadTarget
  to_primary : ReadTarget
  no_available_replica : ReadTarget

abbrev pub is_opened : BreakerState → Bool
is_opened opened = true
is_opened _ = false

abbrev pub within_lag : Option ℕ → Option ℕ → Bool
within_lag none lag = true
within_lag (some bound) none = true
within_lag (some bound) (some lag) = leb lag bound

module _ (fl : Floats) (c : BreakerConfig (Floats.F64 fl)) (now : ℕ) where
  unfoldable pub is_available : Option ℕ → Endpoint → Bool
  unfolding effective_state
  is_available max_lag ep =
      if is_opened (effective_state fl c now ep.breaker)
      then false
      else within_lag max_lag ep.replica_lag

  abbrev pub available_at : Option ℕ → Option Endpoint → Bool
  available_at max_lag none = false
  available_at max_lag (some ep) = is_available max_lag ep

  -- The rounds of the loop that are left, from the round `i` on. The sum wraps around.
  unfoldable pub pick_from : Option ℕ → List Endpoint → ℕ → ℕ → ℕ → Option ℕ
  unfolding is_available
  pick_from max_lag eps start zero i = none
  pick_from max_lag eps start (suc left) i =
      let later = pick_from max_lag eps start left (suc i) in
      let k = (start + i) % 2 ^ 64 % length eps in
      if available_at max_lag (get_elem? eps k) then some k else later

  -- The replica, if any, and the counter after `fetch_add(1)`.
  unfoldable pub pick_replica : RdbmsRouting → Option ℕ × RdbmsRouting
  unfolding pick_from
  pick_replica r =
      let n = length r.replicas in
      (
        (if n == 0 then none else pick_from r.max_replica_lag r.replicas r.next n 0),
        (if n == 0 then r else record r { next = (r.next + 1) % 2 ^ 64 }),
      )

  abbrev pub target : Bool → Option ℕ → ReadTarget
  target fallback (some k) = replica k
  target true none = to_primary
  target false none = no_available_replica

  -- `query`, `query_with`
  unfoldable pub read_target : RdbmsRouting → ReadTarget
  unfolding pick_replica
  read_target r = target r.fallback_to_primary (pick_replica r).0
