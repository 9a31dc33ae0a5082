-- ===== src/Prelude/Bytes.antt =====
-- Bytes in memory: what `memcpy` between an integer and a buffer reads and writes. The machines that
-- the program is built for are little-endian.
use redis_database_basic_imp.Prelude.Lists.{length}
use Prim.Native.Nat.{ℕ, ◌+◌, ◌*◌, ◌/◌, ◌%◌, ◌^◌, ◌<◌}
use mathlib.Core.Path.{◌≡◌, refl}
use mathlib.Core.Bool.{Bool, true, false, ◌&&◌}
use redis_database_basic_imp.Prelude.Tests.{◌==◌}
use mathlib.Core.List.{List, [], ◌∷◌, ◌++◌}
use mathlib.Core.Option.{Option, none, some}
use native.Mathlib.Omega.{arith}

abbrev pub Bytes : Type 0
Bytes = List ℕ

abbrev pub same_bytes : Bytes → Bytes → Bool
same_bytes [] [] = true
same_bytes [] (y ∷ ys) = false
same_bytes (x ∷ xs) [] = false
same_bytes (x ∷ xs) (y ∷ ys) = (x == y) && same_bytes xs ys

-- The four bytes of a `uint32_t`, and the read of four bytes that may not all be there.
unfoldable pub le32 : ℕ → Bytes
le32 n = (n % 256) ∷ (n / 256 % 256) ∷ (n / 65536 % 256) ∷ (n / 16777216 % 256) ∷ []

unfoldable pub load32 : Bytes → Option ℕ
load32 (a ∷ b ∷ c ∷ d ∷ rest) = some (a + 256 * b + 65536 * c + 16777216 * d)
load32 rest = none

-- The eight bytes of a `uint64_t` after `htobe64`, and their value after `be64toh`.
unfoldable pub be64 : ℕ → Bytes
be64 n =
    (n / 2 ^ 56 % 256)
    ∷ (n / 2 ^ 48 % 256)
    ∷ (n / 2 ^ 40 % 256)
    ∷ (n / 2 ^ 32 % 256)
    ∷ (n / 2 ^ 24 % 256)
    ∷ (n / 2 ^ 16 % 256)
    ∷ (n / 2 ^ 8 % 256)
    ∷ (n % 256)
    ∷ []

unfoldable pub load64 : Bytes → Option ℕ
load64 (a ∷ b ∷ c ∷ d ∷ e ∷ f ∷ g ∷ h ∷ rest) =
    some
      (a * 2 ^ 56 + b * 2 ^ 48 + c * 2 ^ 40 + d * 2 ^ 32 + e * 2 ^ 24 + f * 2 ^ 16 + g * 2 ^ 8 + h)
load64 rest = none

pub length-le32 : (n : ℕ) → length (le32 n) ≡ 4
unfolding le32
length-le32 n = refl

pub length-be64 : (n : ℕ) → length (be64 n) ≡ 8
unfolding be64
length-be64 n = refl

pub load32-le32 : (n : ℕ) (rest : Bytes) → n < 2 ^ 32 → load32 (le32 n ++ rest) ≡ some n
unfolding load32 le32
load32-le32 n rest h = ground arith

pub load64-be64 : (n : ℕ) (rest : Bytes) → n < 2 ^ 64 → load64 (be64 n ++ rest) ≡ some n
unfolding load64 be64
load64-be64 n rest h = ground arith
