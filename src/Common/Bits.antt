-- ===== src/Common/Bits.antt =====
-- `|` of fields that share no bit is their sum.
use Prim.Native.Nat.{
  ℕ, zero, suc, ◌+◌, ◌*◌, ◌/◌, ◌%◌, ◌^◌, ◌≤◌, ◌<◌, max, bit_or, digits, bit_or-bitwise,
}
use mathlib.Core.Path.{◌≡◌, refl, ap, ◌∙◌, sym}
use native.Mathlib.Nat.{pow-suc}
use native.Mathlib.Omega.{arith}

-- The native `bit_or` means this recursion on binary digits, with the first number as its fuel.
abbrev or_with : ℕ → ℕ → ℕ → ℕ
or_with fuel x y = digits (λ rest. rest) max fuel x y

or_with_enough : (f g x y : ℕ) → x ≤ f → x ≤ g → or_with f x y ≡ or_with g x y
or_with_enough zero zero x y p q = refl
or_with_enough zero (suc g) zero y p q = refl
or_with_enough zero (suc g) (suc x) y p q = absurd (omega arith)
or_with_enough (suc f) zero zero y p q = refl
or_with_enough (suc f) zero (suc x) y p q = absurd (omega arith)
or_with_enough (suc f) (suc g) zero y p q = refl
or_with_enough (suc f) (suc g) (suc x) y p q =
    omega (arith, or_with_enough f g (suc x / 2) (y / 2) (omega arith) (omega arith))

zero-bit_or : (y : ℕ) → bit_or 0 y ≡ y
zero-bit_or y = bit_or-bitwise 0 y

bit_or_low : (x y : ℕ) → bit_or x y ≡ bit_or (x / 2) (y / 2) * 2 + max (x % 2) (y % 2)
bit_or_low zero y = omega (arith, zero-bit_or y, zero-bit_or (y / 2))
bit_or_low (suc x) y = omega (
  arith,
  bit_or-bitwise (suc x) y,
  bit_or-bitwise (suc x / 2) (y / 2),
  or_with_enough x (suc x / 2) (suc x / 2) (y / 2) (omega arith) (omega arith),
)

bit_or-zero_below : (bound x : ℕ) → x ≤ bound → bit_or x 0 ≡ x
bit_or-zero_below bound zero h = zero-bit_or 0
bit_or-zero_below zero (suc x) h = absurd (omega arith)
bit_or-zero_below (suc bound) (suc x) h =
    omega (arith, bit_or_low (suc x) 0, bit_or-zero_below bound (suc x / 2) (omega arith))

shifted-suc : (q k : ℕ) → q * 2 ^ suc k ≡ 2 * (q * 2 ^ k)
shifted-suc q k = omega (arith, ap (λ (t : ℕ). q * t) (pow-suc 2 k))

bit_or-add : (k q r : ℕ) → r < 2 ^ k → bit_or (q * 2 ^ k) r ≡ q * 2 ^ k + r
bit_or-add zero q r h = ground (arith, bit_or-zero_below q q)
bit_or-add (suc k) q r h = ground (
  arith,
  bit_or_low (q * 2 ^ suc k) r,
  shifted-suc q k,
  bit_or-add k q (r / 2) (omega (arith, pow-suc 2 k)),
)

-- The form for a left operand that is a sum: `q` is what it is shifted from.
pub bit_or_eq_add : (k q x r : ℕ) → x ≡ q * 2 ^ k → r < 2 ^ k → bit_or x r ≡ x + r
bit_or_eq_add k q x r e h = ap (λ y. bit_or y r) e ∙ bit_or-add k q r h ∙ ap (λ y. y + r) (sym e)
