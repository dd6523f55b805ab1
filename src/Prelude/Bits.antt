-- ===== src/Prelude/Bits.antt =====
-- `x << k` as a product, and `|` of a shifted word with a word that fits the freed bits as a sum.
use Prim.Native.Nat.{
  ℕ, zero, suc, ◌+◌, ◌*◌, ◌/◌, ◌%◌, ◌^◌, ◌≤◌, ◌<◌, max, digits, bit_or, bit_or-bitwise,
}
use mathlib.Core.Path.{◌≡◌, refl, ap}
use native.Mathlib.Nat.{pow-suc}
use native.Mathlib.Omega.{arith}

infixl 60 ◌<<◌
abbrev pub ◌<<◌ : ℕ → ℕ → ℕ
x << k = x * 2 ^ k

abbrev or_within : ℕ → ℕ → ℕ → ℕ
or_within room = digits (λ y. y) max room

-- Room beyond the first word's digits changes nothing.
or_within_enough :
    (x y room more : ℕ) → x ≤ room → x ≤ more → or_within room x y ≡ or_within more x y
or_within_enough zero y zero zero p q = refl
or_within_enough zero y zero (suc more) p q = refl
or_within_enough zero y (suc room) zero p q = refl
or_within_enough zero y (suc room) (suc more) p q = refl
or_within_enough (suc x) y zero more p q = absurd (omega arith)
or_within_enough (suc x) y (suc room) zero p q = absurd (omega arith)
or_within_enough (suc x) y (suc room) (suc more) p q =
    let rest = or_within_enough (suc x / 2) (y / 2) room more (omega arith) (omega arith) in
    omega (arith, rest)

or_halves : (x y : ℕ) → bit_or x y ≡ bit_or (x / 2) (y / 2) * 2 + max (x % 2) (y % 2)
or_halves zero y = omega (arith, bit_or-bitwise 0 y, bit_or-bitwise 0 (y / 2))
or_halves (suc x) y =
    let shrink = or_within_enough (suc x / 2) (y / 2) x (suc x / 2) (omega arith) (omega arith) in
    omega (arith, shrink, bit_or-bitwise (suc x) y, bit_or-bitwise (suc x / 2) (y / 2))

or_nothing : (x room : ℕ) → x ≤ room → bit_or x 0 ≡ x
or_nothing zero room h = refl
or_nothing (suc x) zero h = absurd (omega arith)
or_nothing (suc x) (suc room) h =
    omega (arith, or_halves (suc x) 0, or_nothing (suc x / 2) room (omega arith))

pub bit_or-shift : (k x y : ℕ) → y < 2 ^ k → bit_or (x << k) y ≡ x * 2 ^ k + y
bit_or-shift zero x zero h = omega (arith, or_nothing (x * 1) (x * 1) (omega arith))
bit_or-shift zero x (suc y) h = absurd (omega arith)
bit_or-shift (suc k) x y h =
    let doubled = ap (λ (t : ℕ). x * t) (pow-suc 2 k) in
    let power = pow-suc 2 k in
    ground
      (arith, doubled, power, or_halves (x * 2 ^ suc k) y, bit_or-shift k x (y / 2) (omega arith))
