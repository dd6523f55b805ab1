-- ===== src/Archive/Run/Chunks.antt =====
-- The chunks into which a partition falls, and that every row is in one of them.
use e_cat.Prelude.{
  ℕ, zero, suc, ◌≤◌, ◌<◌, ◌≡◌, refl, ap, subst, ◌⊎◌, inl, inr, min, max, take, leb, ltb, true,
  false, ◌&&◌, Option, none, some, List, [], ◌∷◌, Option-cases, either_way, lt→ltb, arith, tests,
}
use e_cat.Archive.Run.{ArchiveJob, above, bounds_from, id_bounds, read}

abbrev pub All : (ℕ → Type 0) → List ℕ → Type 0
All P [] = Unit
All P (x ∷ xs) = P x × All P xs

abbrev pub Occurs : ℕ → List ℕ → Type 0
Occurs x [] = ⊥
Occurs x (y ∷ ys) = (x ≡ y) ⊎ Occurs x ys

abbrev pub Ascending : List ℕ → Type 0
Ascending [] = Unit
Ascending (x ∷ xs) = All (λ y. x < y) xs × Ascending xs

All-Occurs : (P : ℕ → Type 0) (x : ℕ) (xs : List ℕ) → All P xs → Occurs x xs → P x
All-Occurs P x [] h o = elim o [ ]
All-Occurs P x (y ∷ ys) h (inl e) = rw e h.0
All-Occurs P x (y ∷ ys) h (inr o) = All-Occurs P x ys h.1 o

-- A prefix of an ascending list has a member of it, or ends below that.
in_prefix :
    (n x : ℕ) (xs : List ℕ)
    → Ascending xs
    → Occurs x xs
    → Occurs x (take n xs) ⊎ All (λ y. y < x) (take n xs)
in_prefix zero x xs s o = inr tt
in_prefix (suc n) x [] s o = elim o [ ]
in_prefix (suc n) x (y ∷ ys) s (inl e) = inl (inl e)
in_prefix (suc n) x (y ∷ ys) s (inr o) = elim (in_prefix n x ys s.1 o) [
  | inl found ↦ inl (inr found)
  | inr below ↦ inr (All-Occurs (λ z. y < z) x ys s.0 o, below)
]

nil_of_take : (n : ℕ) (xs : List ℕ) → 0 < n → take n xs ≡ [] → xs ≡ []
nil_of_take zero xs h e = absurd (omega arith)
nil_of_take (suc n) [] h e = refl
nil_of_take (suc n) (x ∷ xs) h e = absurd (ground arith)

All-above : (P : ℕ → Type 0) (cursor : ℕ) (xs : List ℕ) → All P xs → All P (above none cursor xs)
All-above P cursor [] h = tt
All-above P cursor (y ∷ ys) h =
    let rest = All-above P cursor ys h.1 in
    either_way (All P) (ltb cursor y && true) (h.0, rest) rest

Ascending-above : (cursor : ℕ) (xs : List ℕ) → Ascending xs → Ascending (above none cursor xs)
Ascending-above cursor [] h = tt
Ascending-above cursor (y ∷ ys) h =
    let rest = Ascending-above cursor ys h.1 in
    either_way Ascending (ltb cursor y && true) (All-above (λ z. y < z) cursor ys h.0, rest) rest

Occurs-above :
    (cursor x : ℕ) (xs : List ℕ) → cursor < x → Occurs x xs → Occurs x (above none cursor xs)
Occurs-above cursor x [] h o = o
Occurs-above cursor x (y ∷ ys) h (inl e) = rw (lt→ltb cursor y (omega arith)) (inl e)
Occurs-above cursor x (y ∷ ys) h (inr o) =
    let rest = Occurs-above cursor x ys h o in
    either_way (Occurs x) (ltb cursor y && true) (inr rest) rest

-- The highest identifier is one of the rows'.
bounds_from-high :
    (low high : ℕ) (xs : List ℕ) {l h : ℕ}
    → bounds_from (some (low, high)) xs ≡ some (l, h)
    → (h ≡ high) ⊎ Occurs h xs
bounds_from-high low high [] e = inl (ground arith)
bounds_from-high low high (x ∷ xs) {h} e = elim (bounds_from-high (min low x) (max high x) xs e) [
  | inr o ↦ inr (inr o)
  | inl top ↦
      elim (leb high x) as (λ b. leb high x ≡ b → (h ≡ high) ⊎ Occurs h (x ∷ xs)) [
        | true ↦ λ t. inr (inl (omega (tests)))
        | false ↦ λ t. inl (ground arith)
      ]
        refl
]

bounds_from-some : (low high : ℕ) (xs : List ℕ) → bounds_from (some (low, high)) xs ≡ none → ⊥
bounds_from-some low high [] e = absurd (ground arith)
bounds_from-some low high (x ∷ xs) e = bounds_from-some (min low x) (max high x) xs e

id_bounds-high : (xs : List ℕ) {l h : ℕ} → id_bounds xs ≡ some (l, h) → Occurs h xs
unfolding id_bounds
id_bounds-high [] e = absurd (ground arith)
id_bounds-high (x ∷ xs) e = bounds_from-high x x xs e

id_bounds-none : (xs : List ℕ) → id_bounds xs ≡ none → xs ≡ []
unfolding id_bounds
id_bounds-none [] e = refl
id_bounds-none (x ∷ xs) e = absurd (bounds_from-some x x xs e)

abbrev pub high_or : ℕ → Option (ℕ × ℕ) → ℕ
high_or d none = d
high_or d (some (low, high)) = high

module _ (c : ArchiveJob) where
  -- The cursor after so many chunks, and the chunk there.
  unfoldable pub cursor_at : ℕ → ℕ
  cursor_at zero = 0
  cursor_at (suc n) = high_or (cursor_at n) (id_bounds (read c (cursor_at n)))

  abbrev pub chunk_at : ℕ → List ℕ
  chunk_at n = read c (cursor_at n)

  pub cursor_at-suc :
      (n : ℕ) {low high : ℕ} → id_bounds (chunk_at n) ≡ some (low, high) → cursor_at (suc n) ≡ high
  unfolding cursor_at
  cursor_at-suc n e = ap (high_or (cursor_at n)) e

  cursor_at-def : (n : ℕ) → cursor_at (suc n) ≡ high_or (cursor_at n) (id_bounds (chunk_at n))
  unfolding cursor_at
  cursor_at-def n = refl

  module _ (unfiltered : c.filter ≡ none) (ascending : Ascending c.hot) where
    -- A row above the cursor is in the chunk that is read there, or the chunk ends below it.
    in_chunk :
        (cursor x : ℕ)
        → cursor < x
        → Occurs x c.hot
        → Occurs x (read c cursor) ⊎ All (λ y. y < x) (read c cursor)
    unfolding read
    in_chunk cursor x h o = rw unfiltered (
        in_prefix c.batch_size x (above none cursor c.hot) (Ascending-above cursor c.hot ascending)
          (Occurs-above cursor x c.hot h o))

    read-nil : (cursor : ℕ) → 0 < c.batch_size → read c cursor ≡ [] → above none cursor c.hot ≡ []
    unfolding read
    read-nil cursor b e =
        nil_of_take c.batch_size (above none cursor c.hot) b
          (subst (λ f. take c.batch_size (above f cursor c.hot) ≡ []) unfiltered e)

    next_chunk :
        (n x : ℕ) → cursor_at n < x → x ≤ cursor_at (suc n) → Occurs x c.hot → Occurs x (chunk_at n)
    next_chunk n x h k o = elim (in_chunk (cursor_at n) x h o) [
      | inl found ↦ found
      | inr below ↦ elim (Option-cases (id_bounds (chunk_at n))) [
        | inl empty ↦
            let same = ap (high_or (cursor_at n)) empty in
            absurd (omega (arith, cursor_at-def n, same))
        | inr ((low, high), e) ↦
            let top =
              All-Occurs (λ y. y < x) high (chunk_at n) below (id_bounds-high (chunk_at n) e) in
            absurd (omega (arith, cursor_at-suc n e))
      ]
    ]

    -- Every row up to a cursor is in a chunk before it.
    pub up_to_cursor :
        (n x : ℕ)
        → 0 < x
        → x ≤ cursor_at n
        → Occurs x c.hot
        → (j : ℕ) × (j < n) × Occurs x (chunk_at j)
    unfolding cursor_at
    up_to_cursor zero x h k o = absurd (omega arith)
    up_to_cursor (suc n) x h k o =
        let side : (cursor_at n < x) ⊎ (x ≤ cursor_at n) = omega arith in
        elim side [
          | inl gt ↦ (n, omega arith, next_chunk n x gt k o)
          | inr le ↦ let (j, less, found) = up_to_cursor n x h le o in (j, omega arith, found)
        ]

    -- Where a chunk is empty every row is in one before it.
    pub all_chunks :
        (n x : ℕ)
        → 0 < c.batch_size
        → id_bounds (chunk_at n) ≡ none
        → 0 < x
        → Occurs x c.hot
        → (j : ℕ) × (j < n) × Occurs x (chunk_at j)
    all_chunks n x b e h o =
        let side : (cursor_at n < x) ⊎ (x ≤ cursor_at n) = omega arith in
        elim side [
          | inl gt ↦ absurd (
              subst (Occurs x) (read-nil (cursor_at n) b (id_bounds-none (chunk_at n) e))
                (Occurs-above (cursor_at n) x c.hot gt o))
          | inr le ↦ up_to_cursor n x h le o
        ]
