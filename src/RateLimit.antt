-- ===== src/RateLimit.antt =====
-- ecat-middleware/src/ratelimit.rs: `MemoryStore`. Instants and durations are nanoseconds; the map
-- of buckets is a function of the key.
mod Tests
use e_cat.Prelude.{
  ℕ, suc, ◌+◌, ◌-◌, ◌*◌, ◌%◌, ◌^◌, ◌≤◌, ◌<◌, String, ◌≡◌, refl, Bool, true, false, Option, none,
  some, List, [], ◌∷◌, length, ltb, leb, if◌then◌else◌, Bool-cases, lt→ltb, inl, inr, arith,
}
use text.Mathlib.Text.{◌==◌ as str_eq}
use text.Mathlib.TextPositions.{eq_refl}

abbrev pub nanos : ℕ → ℕ
nanos secs = secs * 1000000000

abbrev pub sweep_interval : ℕ
sweep_interval = nanos 60

abbrev pub max_idle : ℕ
max_idle = nanos 86400

-- A bucket has its count and the start of its window, which the source calls `last_touched`.
pub record MemoryStore : Type 0 where
  pub buckets : String → Option (ℕ × ℕ)
  pub last_sweep : ℕ

abbrev pub retained : ℕ → Option (ℕ × ℕ) → Option (ℕ × ℕ)
retained now none = none
retained now (some (count, start)) =
    if ltb now (start + max_idle) then some (count, start) else none

unfoldable pub sweep : ℕ → MemoryStore → MemoryStore
sweep now s =
    if leb sweep_interval (now - s.last_sweep)
    then record { buckets = λ k. retained now (s.buckets k); last_sweep = now }
    else s

abbrev pub entry_or : ℕ → Option (ℕ × ℕ) → ℕ × ℕ
entry_or now none = (0, now)
entry_or now (some e) = e

-- The entry afterwards, and whether the request is let through.
unfoldable pub count_in : ℕ → ℕ → ℕ → ℕ × ℕ → (ℕ × ℕ) × Bool
count_in max window_secs now (count, start) =
    if ltb (nanos window_secs) (now - start)
    then ((1, now), true)
    else (((count + 1) % 2 ^ 32, start), leb ((count + 1) % 2 ^ 32) max)

unfoldable pub insert : String → ℕ × ℕ → MemoryStore → MemoryStore
insert key e s = record s { buckets = λ k. if str_eq k key then some e else s.buckets k }

-- `RateLimitStore::check`
unfoldable pub check : ℕ → ℕ → String → ℕ → MemoryStore → MemoryStore × Bool
unfolding sweep count_in insert
check max window_secs key now s =
    let swept = sweep now s in
    let (e, admitted) = count_in max window_secs now (entry_or now (swept.buckets key)) in
    (insert key e swept, admitted)

abbrev pub one_if : Bool → ℕ
one_if true = 1
one_if false = 0

-- How many of the requests for one key are let through, at these times.
unfoldable pub let_through : ℕ → ℕ → String → List ℕ → MemoryStore → ℕ
let_through max window_secs key [] s = 0
let_through max window_secs key (now ∷ times) s =
    let (s', admitted) = check max window_secs key now s in
    one_if admitted + let_through max window_secs key times s'

abbrev pub AllWithin : ℕ → ℕ → List ℕ → Type 0
AllWithin start span [] = Unit {0}
AllWithin start span (now ∷ times) = (now - start ≤ span) × AllWithin start span times

swept_kept :
    (s : MemoryStore) (key : String) (now count start : ℕ)
    → s.buckets key ≡ some (count, start)
    → now - start < max_idle
    → (sweep now s).buckets key ≡ some (count, start)
unfolding sweep
swept_kept s key now count start held recent =
    elim (Bool-cases (leb sweep_interval (now - s.last_sweep))) [
      | inl e ↦ rw (e, held, lt→ltb now (start + max_idle) (omega arith)) refl
      | inr e ↦ rw e held
    ]

count_within :
    (max window_secs now count start : ℕ)
    → now - start ≤ nanos window_secs
    → count + 1 < 2 ^ 32
    → count_in max window_secs now (count, start) ≡ ((count + 1, start), leb (count + 1) max)
unfolding count_in
count_within max window_secs now count start within room = ground arith

same_key : (key : String) → str_eq key key ≡ true
same_key key = eq_refl key

-- A request in the window of a bucket: it is let through if the count stays within the limit.
check_within :
    (max window_secs : ℕ) (key : String) (now count start : ℕ) (s : MemoryStore)
    → s.buckets key ≡ some (count, start)
    → now - start ≤ nanos window_secs
    → nanos window_secs < max_idle
    → count + 1 < 2 ^ 32
    → ((check max window_secs key now s).0.buckets key ≡ some (count + 1, start))
      × ((check max window_secs key now s).1 ≡ leb (count + 1) max)
unfolding check count_in insert
check_within max window_secs key now count start s held within short room =
    let kept = swept_kept s key now count start held (omega arith) in
    let counted = count_within max window_secs now count start within room in
    (rw (same_key key, kept, counted) refl, rw (kept, counted) refl)

-- Of the requests for one key that come within the window of the key's bucket, `max - count` at
-- most are let through, provided that the window is shorter than the time after which sweeps drop
-- a bucket, and that the count stays below 2^32.
pub let_through_bounded :
    (max window_secs : ℕ) (key : String) (times : List ℕ) (count start : ℕ) (s : MemoryStore)
    → s.buckets key ≡ some (count, start)
    → AllWithin start (nanos window_secs) times
    → nanos window_secs < max_idle
    → count + length times < 2 ^ 32
    → let_through max window_secs key times s ≤ max - count
unfolding let_through
let_through_bounded max window_secs key [] count start s held within short room = omega arith
let_through_bounded max window_secs key (now ∷ times) count start s held within short room =
    let (held', admitted) =
      check_within max window_secs key now count start s held within.0 short (omega arith) in
    let rest =
      let_through_bounded max window_secs key times (count + 1) start
        (check max window_secs key now s).0 held' within.1 short (omega arith) in
    ground (arith, rest, admitted)
