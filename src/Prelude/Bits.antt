-- ===== src/Prelude/Bits.antt =====
-- The bit operations at variables: a disjoint `|` is a sum, by the digit recursion.
use Prim.Native.Nat.{
  ℕ, zero, suc, ◌+◌, ◌*◌, ◌/◌, ◌^◌, ◌≤◌, ◌<◌, max, bit_or, digits, bit_or-bitwise,
}
use mathlib.Core.Path.{◌≡◌, ◌∙◌}
use native.Mathlib.Omega.{arith}
use native.Mathlib.Nat.{pow-suc}

disjoint_digits :
    (n k a b : ℕ) → a ≤ n → a < 2 ^ k → digits (λ c. c) max n a (b * 2 ^ k) ≡ a + b * 2 ^ k
disjoint_digits zero k zero b h lt = omega arith
disjoint_digits zero k (suc a) b h lt = absurd (omega arith)
disjoint_digits (suc n) k zero b h lt = omega arith
disjoint_digits (suc n) zero (suc a) b h lt = absurd (omega arith)
disjoint_digits (suc n) (suc k) (suc a) b h lt =
    let twice : b * 2 ^ suc k ≡ b * 2 ^ k * 2 = rw (pow-suc 2 k) (omega arith) in
    let halved : b * 2 ^ suc k / 2 ≡ b * 2 ^ k = omega (arith, twice) in
    rw halved (
      omega (
        arith,
        twice,
        pow-suc 2 k,
        disjoint_digits n k (suc a / 2) b (omega arith) (omega (arith, pow-suc 2 k)),
      ))

-- Fields that do not overlap join by addition.
pub bit_or-disjoint : (k a b : ℕ) → a < 2 ^ k → bit_or a (b * 2 ^ k) ≡ a + b * 2 ^ k
bit_or-disjoint k a b h = bit_or-bitwise a (b * 2 ^ k) ∙ disjoint_digits a k a b (omega arith) h

le_digits : (n a b : ℕ) → a ≤ n → a ≤ digits (λ c. c) max n a b
le_digits zero a b h = omega arith
le_digits (suc n) zero b h = omega arith
le_digits (suc n) (suc a) b h = omega (arith, le_digits n (suc a / 2) (b / 2) (omega arith))

-- `|` clears no bit.
pub le-bit_or : (a b : ℕ) → a ≤ bit_or a b
le-bit_or a b = rw (bit_or-bitwise a b) (le_digits a a b (omega arith))
