-- ===== src/Base/Bits.antt =====
-- Masks: `bit_and` with a mask of ones keeps the low digits.
use Prim.Native.Nat.{ℕ, zero, suc, ◌+◌, ◌*◌, ◌/◌, ◌%◌, ◌≤◌, min, bit_and, digits, bit_and-bitwise}
use mathlib.Core.Path.{◌≡◌, refl, sym, ◌∙◌}
use native.Mathlib.Omega.{arith}

-- The mask of `k` ones, and the number of the lowest `k` digits.
abbrev mask : ℕ → ℕ
mask zero = 0
mask (suc k) = mask k * 2 + 1

abbrev low : ℕ → ℕ → ℕ
low zero a = 0
low (suc k) a = low k (a / 2) * 2 + a % 2

low-zero : (k : ℕ) → low k 0 ≡ 0
low-zero zero = refl
low-zero (suc k) = omega (arith, low-zero k)

half-mask : (k : ℕ) → mask (suc k) / 2 ≡ mask k
half-mask k = omega arith

digits-mask : (k n a : ℕ) → a ≤ n → digits (λ b. zero) min n a (mask k) ≡ low k a
digits-mask k zero zero h = sym (low-zero k)
digits-mask k zero (suc a) h = absurd (omega arith)
digits-mask k (suc n) zero h = sym (low-zero k)
digits-mask zero (suc n) (suc a) h = omega (arith, digits-mask zero n (suc a / 2) (omega arith))
digits-mask (suc k) (suc n) (suc a) h =
    rw (half-mask k) (omega (arith, digits-mask k n (suc a / 2) (omega arith)))

bit_and-mask : (k a : ℕ) → bit_and a (mask k) ≡ low k a
bit_and-mask k a = bit_and-bitwise a (mask k) ∙ digits-mask k a a (omega arith)

pub bit_and-1023 : (a : ℕ) → bit_and a 1023 ≡ a % 1024
bit_and-1023 a = omega (arith, bit_and-mask 10 a)
