-- ===== src/Prelude/Bits.antt =====
-- `|` of a number with bits below its lowest set bit is their sum.
use Prim.Native.Nat.{
  ℕ, zero, suc, ◌+◌, ◌*◌, ◌/◌, ◌%◌, ◌^◌, ◌≤◌, ◌<◌, max, digits, bit_or, bit_or-bitwise,
}
use mathlib.Core.Path.{◌≡◌, refl, ap}
use native.Mathlib.Nat.{pow-suc, div-add-mod}
use native.Mathlib.Omega.{arith}

abbrev or_digits : ℕ → ℕ → ℕ → ℕ
or_digits n a b = digits (λ y. y) max n a b

-- Two counts of digits that both suffice give one result.
or_digits_enough : (n m a b : ℕ) → a ≤ n → a ≤ m → or_digits n a b ≡ or_digits m a b
or_digits_enough zero zero a b h k = refl
or_digits_enough zero (suc m) zero b h k = refl
or_digits_enough (suc n) zero zero b h k = refl
or_digits_enough (suc n) (suc m) zero b h k = refl
or_digits_enough zero (suc m) (suc a) b h k = absurd (omega arith)
or_digits_enough (suc n) zero (suc a) b h k = absurd (omega arith)
or_digits_enough (suc n) (suc m) (suc a) b h k =
    omega (arith, or_digits_enough n m (suc a / 2) (b / 2) (omega arith) (omega arith))

-- The lowest digit of `a | b`, and the rest.
bit_or-digit : (a b : ℕ) → bit_or a b ≡ bit_or (a / 2) (b / 2) * 2 + max (a % 2) (b % 2)
bit_or-digit zero b = omega (arith, bit_or-bitwise 0 b, bit_or-bitwise 0 (b / 2))
bit_or-digit (suc a) b = omega (
  arith,
  bit_or-bitwise (suc a) b,
  bit_or-bitwise (suc a / 2) (b / 2),
  or_digits_enough a (suc a / 2) (suc a / 2) (b / 2) (omega arith) (omega arith),
)

or_zero_within : (n a : ℕ) → a ≤ n → bit_or a 0 ≡ a
or_zero_within zero zero h = refl
or_zero_within zero (suc a) h = absurd (omega arith)
or_zero_within (suc n) zero h = refl
or_zero_within (suc n) (suc a) h =
    omega (arith, bit_or-digit (suc a) 0, or_zero_within n (suc a / 2) (omega arith))

pub bit_or_sum : (k q b : ℕ) → b < 2 ^ k → bit_or (q * 2 ^ k) b ≡ q * 2 ^ k + b
bit_or_sum zero q b h = ground (arith, or_zero_within q q)
bit_or_sum (suc k) q b h = ground (
  arith,
  bit_or-digit (q * 2 ^ suc k) b,
  ap (λ (t : ℕ). q * t) (pow-suc 2 k),
  pow-suc 2 k,
  bit_or_sum k q (b / 2) (omega (arith, pow-suc 2 k)),
)

-- The same with the lower bound of the set bits as a remainder.
pub bit_or_above : (k a b : ℕ) → a % 2 ^ k ≡ 0 → b < 2 ^ k → bit_or a b ≡ a + b
bit_or_above k a b z h =
    let e : a ≡ a / 2 ^ k * 2 ^ k = grind (arith, div-add-mod a (2 ^ k)) in
    rw e (bit_or_sum k (a / 2 ^ k) b h)
