-- ===== src/Prelude/Bits.antt =====
-- Masks: `h & mask` is no larger than `mask`, and `n & (n - 1)` is 0 at the powers of two.
use Prim.Native.Nat.{ℕ, zero, suc, ◌-◌, ◌*◌, ◌/◌, ◌≤◌, ◌<◌, min, bit_and, digits, bit_and-bitwise}
use mathlib.Core.Path.{◌≡◌, refl}
use native.Mathlib.Omega.{arith}

-- The digitwise conjunction, on a count of digits.
abbrev conj : ℕ → ℕ → ℕ → ℕ
conj k a b = digits (λ _. 0) min k a b

conj-le : (k a b : ℕ) → conj k a b ≤ b
conj-le zero a b = omega arith
conj-le (suc k) zero b = omega arith
conj-le (suc k) (suc a) b = omega (arith, conj-le k (suc a / 2) (b / 2))

pub bit_and-le : (a b : ℕ) → bit_and a b ≤ b
bit_and-le a b = omega (arith, bit_and-bitwise a b, conj-le a a b)

-- `n` is a power of two, as the bit trick sees it: it has no digit in common with `n - 1`.
abbrev pub IsPowTwo : ℕ → Type 0
IsPowTwo n = (0 < n) × ((k : ℕ) → digits (λ _. 0) min k n (n - 1) ≡ 0)

pub IsPowTwo-one : IsPowTwo 1
IsPowTwo-one = (omega arith, none_in_common)
  where
    none_in_common : (k : ℕ) → conj k 1 0 ≡ 0
    none_in_common zero = refl
    none_in_common (suc zero) = refl
    none_in_common (suc (suc k)) = refl

pub IsPowTwo-double : (n : ℕ) → IsPowTwo n → IsPowTwo (n * 2)
IsPowTwo-double zero p = absurd (omega arith)
IsPowTwo-double (suc n) p = (omega arith, λ k. at (suc n * 2) k (omega arith))
  where
    at : (m k : ℕ) → m ≡ suc n * 2 → conj k m (m - 1) ≡ 0
    at m zero e = refl
    at zero (suc k) e = refl
    at (suc m) (suc k) e =
        let half : suc m / 2 ≡ suc n = omega arith in
        let below : (suc m - 1) / 2 ≡ suc n - 1 = omega arith in
        let rest : conj k (suc m / 2) ((suc m - 1) / 2) ≡ 0 = rw (half, below) (p.1 k) in
        omega arith

pub IsPowTwo-bit_and : (n : ℕ) → IsPowTwo n → bit_and n (n - 1) ≡ 0
IsPowTwo-bit_and n p = omega (arith, bit_and-bitwise n (n - 1), p.1 n)
