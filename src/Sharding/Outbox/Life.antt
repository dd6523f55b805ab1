-- ===== src/Sharding/Outbox/Life.antt =====
-- ecat-data-sharding/src/outbox.rs: the life of a record under any sequence of operations.
use e_cat.Prelude.{
  ℕ, String, ◌≡◌, refl, sym, subst, true, ◌&&◌, Option, none, some, map, either_way, by_test, arith,
}
use text.Mathlib.Text.{◌==◌ as str_eq}
use e_cat.Sharding.Outbox.{
  OutboxStatus, pending, processing, done, failed, OutboxRow, Table, is_processing, is_waiting,
  claimed_before, has_id, reclaim, lease_row, finish, fail,
}
use e_cat.Sharding.Outbox.Keys.{find_row, status_in, status_of, updated, find_row-map}

-- The steps of a record, none or more: it is leased while it waits, and a lease ends with a return
-- to the queue, a failure or the end.
pub data Life : OutboxStatus → OutboxStatus → Type 0 where
  stay : {s : OutboxStatus} → Life s s
  leased : {s t : OutboxStatus} → is_waiting s ≡ true → Life processing t → Life s t
  requeued : {t : OutboxStatus} → Life pending t → Life processing t
  failing : {t : OutboxStatus} → Life failed t → Life processing t
  finished : {t : OutboxStatus} → Life done t → Life processing t

Life-trans : {s t u : OutboxStatus} → Life s t → Life t u → Life s u
Life-trans stay k = k
Life-trans (leased w h) k = leased w (Life-trans h k)
Life-trans (requeued h) k = requeued (Life-trans h k)
Life-trans (failing h) k = failing (Life-trans h k)
Life-trans (finished h) k = finished (Life-trans h k)

pub done-Final : {s t : OutboxStatus} → Life s t → s ≡ done → t ≡ done
done-Final stay e = e
done-Final (leased {s} w h) e = absurd (ground arith)
done-Final (requeued h) e = absurd (ground arith)
done-Final (failing h) e = absurd (ground arith)
done-Final (finished h) e = absurd (ground arith)

-- A record that is not there begins as pending, and no record goes away.
abbrev pub Lives : Option OutboxStatus → Option OutboxStatus → Type 0
Lives none none = Unit
Lives none (some t) = Life pending t
Lives (some s) none = ⊥
Lives (some s) (some t) = Life s t

pub Lives-refl : (o : Option OutboxStatus) → Lives o o
Lives-refl none = tt
Lives-refl (some s) = stay

pub Lives-trans : (o p q : Option OutboxStatus) → Lives o p → Lives p q → Lives o q
Lives-trans none none q h k = k
Lives-trans none (some t) none h k = elim k [ ]
Lives-trans none (some t) (some u) h k = Life-trans h k
Lives-trans (some s) none q h k = elim h [ ]
Lives-trans (some s) (some t) none h k = elim k [ ]
Lives-trans (some s) (some t) (some u) h k = Life-trans h k

module _ (f : OutboxRow → OutboxRow) (keeps : (r : OutboxRow) → (f r).id ≡ r.id) where
  found-Lives :
      (o : Option OutboxRow)
      → ((r : OutboxRow) → o ≡ some r → Life r.status (f r).status)
      → Lives (status_in o) (status_in (updated f keeps o))
  found-Lives none h = tt
  found-Lives (some r) h = h r refl

  -- An update of each row for itself.
  pub map-Lives :
      (id : String) (db : Table)
      → ((r : OutboxRow) → find_row id db ≡ some r → Life r.status (f r).status)
      → Lives (status_of id db) (status_of id (map f db))
  map-Lives id db h =
      subst (λ o. Lives (status_of id db) (status_in o)) (sym (find_row-map f keeps id db))
        (found-Lives (find_row id db) h)

from_processing :
    (s : OutboxStatus) {t : OutboxStatus} → is_processing s ≡ true → Life processing t → Life s t
from_processing processing e h = h
from_processing pending e h = absurd (ground arith)
from_processing done e h = absurd (ground arith)
from_processing failed e h = absurd (ground arith)

pub reclaim-Life : (cutoff next : ℕ) (r : OutboxRow) → Life r.status (reclaim cutoff next r).status
unfolding reclaim
reclaim-Life cutoff next r =
    by_test (λ (x : OutboxRow). Life r.status x.status)
      (is_processing r.status && claimed_before cutoff r.claimed_at)
      (λ e. from_processing r.status (ground arith) (requeued stay)) (λ e. stay)

pub finish-Life : (id : String) (r : OutboxRow) → Life r.status (finish id r).status
unfolding finish
finish-Life id r =
    by_test (λ (x : OutboxRow). Life r.status x.status) (str_eq r.id id && is_processing r.status)
      (λ e. from_processing r.status (ground arith) (finished stay)) (λ e. stay)

pub fail-Life : (id : String) (next : ℕ) (r : OutboxRow) → Life r.status (fail id next r).status
unfolding fail
fail-Life id next r =
    by_test (λ (x : OutboxRow). Life r.status x.status) (str_eq r.id id && is_processing r.status)
      (λ e. from_processing r.status (ground arith) (failing stay)) (λ e. stay)

pub lease-Life :
    (now : ℕ) (chosen : Table) (r : OutboxRow)
    → (has_id r.id chosen ≡ true → is_waiting r.status ≡ true)
    → Life r.status (lease_row now chosen r).status
unfolding lease_row
lease-Life now chosen r h =
    by_test (λ (x : OutboxRow). Life r.status x.status) (has_id r.id chosen)
      (λ e. leased (h e) stay) (λ e. stay)

pub reclaim-id : (cutoff next : ℕ) (r : OutboxRow) → (reclaim cutoff next r).id ≡ r.id
unfolding reclaim
reclaim-id cutoff next r =
    either_way (λ (x : OutboxRow). x.id ≡ r.id)
      (is_processing r.status && claimed_before cutoff r.claimed_at) refl refl

pub finish-id : (id : String) (r : OutboxRow) → (finish id r).id ≡ r.id
unfolding finish
finish-id id r =
    either_way (λ (x : OutboxRow). x.id ≡ r.id) (str_eq r.id id && is_processing r.status) refl refl

pub fail-id : (id : String) (next : ℕ) (r : OutboxRow) → (fail id next r).id ≡ r.id
unfolding fail
fail-id id next r =
    either_way (λ (x : OutboxRow). x.id ≡ r.id) (str_eq r.id id && is_processing r.status) refl refl

pub lease-id : (now : ℕ) (chosen : Table) (r : OutboxRow) → (lease_row now chosen r).id ≡ r.id
unfolding lease_row
lease-id now chosen r = either_way (λ (x : OutboxRow). x.id ≡ r.id) (has_id r.id chosen) refl refl
