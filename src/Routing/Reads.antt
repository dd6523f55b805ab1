-- ===== src/Routing/Reads.antt =====
-- ecat-data/src/routing.rs: which endpoint a read takes.
use e_cat.Prelude.{
  ℕ, zero, suc, ◌+◌, ◌-◌, ◌*◌, ◌/◌, ◌%◌, ◌^◌, ◌≤◌, ◌<◌, ◌≡◌, refl, sym, ap, subst, ◌∙◌, ◌⊎◌, inl,
  inr, Bool, true, false, ◌||◌, Option, none, some, List, [], ◌∷◌, length, get_elem?, ◌==◌,
  if◌then◌else◌, Bool-cases, arith,
}
use native.Mathlib.Nat.{mod-eq_of_lt, mul-add-mod_self_right, add-mod_right, div-add-mod', mod-lt}
use e_cat.Breaker.{Floats, BreakerConfig}
use e_cat.Routing.{
  Endpoint, RdbmsRouting, ReadTarget, replica, to_primary, no_available_replica, is_available,
  available_at, pick_from, pick_replica, target, read_target,
}

some_if :
    (b : Bool) (j : ℕ) (later : Option ℕ) (k : ℕ)
    → (if b then some j else later) ≡ some k
    → ((b ≡ true) × (j ≡ k)) ⊎ (later ≡ some k)
some_if true j later k e = inl (refl, ground arith)
some_if false j later k e = inr e

none_if :
    (b : Bool) (j : ℕ) (later : Option ℕ)
    → (if b then some j else later) ≡ none
    → (b ≡ false) × (later ≡ none)
none_if true j later e = absurd (ground arith)
none_if false j later e = (refl, e)

-- Every index is reached within one turn from any start.
turn : (n start k : ℕ) → k < n → (j : ℕ) × (j < n) × ((start + j) % n ≡ k)
turn n start k h =
    let s = start % n in
    let whole = div-add-mod' start n in
    let small = mod-lt start {m = n} (omega arith) in
    let side : (s ≤ k) ⊎ (k < s) = omega arith in
    elim side [
      | inl le ↦
          let sum : start + (k - s) ≡ start / n * n + k = omega arith in
          (
            k - s,
            omega arith,
            ap (λ x. x % n) sum ∙ mul-add-mod_self_right (start / n) n k ∙ mod-eq_of_lt h,
          )
      | inr gt ↦
          let sum : start + (k + n - s) ≡ start / n * n + (k + n) = omega arith in
          (
            k + n - s,
            omega arith,
            ap (λ x. x % n) sum
                ∙ mul-add-mod_self_right (start / n) n (k + n)
                ∙ add-mod_right k n
                ∙ mod-eq_of_lt h,
          )
    ]

module _ (fl : Floats) (c : BreakerConfig (Floats.F64 fl)) (now : ℕ) where
  pick_from-available :
      (max_lag : Option ℕ) (eps : List Endpoint) (start left i k : ℕ)
      → pick_from fl c now max_lag eps start left i ≡ some k
      → available_at fl c now max_lag (get_elem? eps k) ≡ true
  unfolding pick_from
  pick_from-available max_lag eps start zero i k e = absurd (ground arith)
  pick_from-available max_lag eps start (suc left) i k e =
      let j = (start + i) % 2 ^ 64 % length eps in
      elim (some_if (available_at fl c now max_lag (get_elem? eps j)) j
        (pick_from fl c now max_lag eps start left (suc i)) k e) [
          | inl (free, same) ↦
              subst (λ x. available_at fl c now max_lag (get_elem? eps x) ≡ true) same free
          | inr later ↦ pick_from-available max_lag eps start left (suc i) k later
        ]

  pick_from-none :
      (max_lag : Option ℕ) (eps : List Endpoint) (start left i j : ℕ)
      → pick_from fl c now max_lag eps start left i ≡ none
      → i ≤ j
      → j < i + left
      → available_at fl c now max_lag (get_elem? eps ((start + j) % 2 ^ 64 % length eps)) ≡ false
  unfolding pick_from
  pick_from-none max_lag eps start zero i j e h k = absurd (omega arith)
  pick_from-none max_lag eps start (suc left) i j e h k =
      let here = (start + i) % 2 ^ 64 % length eps in
      let (busy, later) =
        none_if (available_at fl c now max_lag (get_elem? eps here)) here
          (pick_from fl c now max_lag eps start left (suc i)) e in
      let at_first : (i ≡ j) ⊎ (suc i ≤ j) = omega arith in
      elim at_first [
        | inl same ↦
            subst
              (λ x.
                available_at fl c now max_lag (get_elem? eps ((start + x) % 2 ^ 64 % length eps))
                ≡ false)
              same busy
        | inr after ↦ pick_from-none max_lag eps start left (suc i) j later after (omega arith)
      ]

  abbrev pub any_available : Option ℕ → List Endpoint → Bool
  any_available max_lag [] = false
  any_available max_lag (ep ∷ rest) = is_available fl c now max_lag ep || any_available max_lag rest

  none_available :
      (max_lag : Option ℕ) (eps : List Endpoint)
      → ((k : ℕ) → k < length eps → available_at fl c now max_lag (get_elem? eps k) ≡ false)
      → any_available max_lag eps ≡ false
  none_available max_lag [] h = refl
  none_available max_lag (ep ∷ rest) h =
      ap (λ b. b || any_available max_lag rest) (h 0 (omega arith))
      ∙ none_available max_lag rest (λ k l. h (suc k) (omega arith))

  -- The pick of a router.
  abbrev picked : RdbmsRouting → Option ℕ
  picked r = pick_from fl c now r.max_replica_lag r.replicas r.next (length r.replicas) 0

  pick-some : (r : RdbmsRouting) (k : ℕ) → (pick_replica fl c now r).0 ≡ some k → picked r ≡ some k
  unfolding pick_replica
  pick-some r k e = elim (Bool-cases (length r.replicas == 0)) [
    | inl z ↦ absurd (ground arith)
    | inr nz ↦ sym (ap (λ b. (if b then none else picked r)) nz) ∙ e
  ]

  busy_from :
      (r : RdbmsRouting)
      → r.next + length r.replicas ≤ 2 ^ 64
      → picked r ≡ none
      → (k : ℕ) → k < length r.replicas
      → available_at fl c now r.max_replica_lag (get_elem? r.replicas k) ≡ false
  busy_from r h e k l =
      let n = length r.replicas in
      let (j, less, there) = turn n r.next k l in
      let plain : (r.next + j) % 2 ^ 64 ≡ r.next + j = mod-eq_of_lt (omega arith) in
      subst (λ x. available_at fl c now r.max_replica_lag (get_elem? r.replicas x) ≡ false)
        (ap (λ x. x % n) plain ∙ there)
        (pick_from-none r.max_replica_lag r.replicas r.next n 0 j e (omega arith) (omega arith))

  pick-none :
      (r : RdbmsRouting)
      → r.next + length r.replicas ≤ 2 ^ 64
      → (pick_replica fl c now r).0 ≡ none
      → any_available r.max_replica_lag r.replicas ≡ false
  unfolding pick_replica
  pick-none r h e = none_available r.max_replica_lag r.replicas (λ k l.
      elim (Bool-cases (length r.replicas == 0)) [
        | inl z ↦ absurd (ground arith)
        | inr nz ↦ busy_from r h (sym (ap (λ b. (if b then none else picked r)) nz) ∙ e) k l
      ])

  -- A replica that is there and available; or else none of them is, and the fallback decides.
  abbrev pub ReadOk : RdbmsRouting → ReadTarget → Type 0
  ReadOk r (replica k) = (available_at fl c now r.max_replica_lag (get_elem? r.replicas k) ≡ true)
  ReadOk r to_primary =
      (r.fallback_to_primary ≡ true) × (any_available r.max_replica_lag r.replicas ≡ false)
  ReadOk r no_available_replica =
      (r.fallback_to_primary ≡ false) × (any_available r.max_replica_lag r.replicas ≡ false)

  read_by :
      (r : RdbmsRouting)
      → r.next + length r.replicas ≤ 2 ^ 64
      → (fallback : Bool) (o : Option ℕ) → r.fallback_to_primary ≡ fallback
      → (pick_replica fl c now r).0 ≡ o
      → ReadOk r (target fl c now fallback o)
  read_by r h fallback (some k) f e =
      pick_from-available r.max_replica_lag r.replicas r.next (length r.replicas) 0 k
        (pick-some r k e)
  read_by r h true none f e = (f, pick-none r h e)
  read_by r h false none f e = (f, pick-none r h e)

  -- A read goes to a replica that is there and available; it goes to the primary only if that
  -- fallback is on and no replica is available, and it is refused only if the fallback is off and
  -- no replica is available. The counter must not be about to wrap around.
  pub read_target_complete :
      (r : RdbmsRouting) → r.next + length r.replicas ≤ 2 ^ 64 → ReadOk r (read_target fl c now r)
  unfolding read_target
  read_target_complete r h = read_by r h r.fallback_to_primary (pick_replica fl c now r).0 refl refl
