-- ===== src/Prelude/Doubles.antt =====
-- The comparisons of two `double`s, from their 64-bit patterns.
use redis_database_basic_imp.Prelude.Tests.{ltb, leb, ◌==◌, if◌then◌else◌}
use Prim.Native.Nat.{ℕ, zero, suc, ◌+◌, ◌-◌, ◌*◌, ◌/◌, ◌%◌, ◌^◌}
use mathlib.Core.Bool.{Bool, not, ◌&&◌, ◌||◌}

-- The exponent is all ones and the fraction is not zero.
unfoldable pub is_nan : ℕ → Bool
is_nan a = ltb (2047 * 2 ^ 52) (a % 2 ^ 63)

-- A number that grows with the value of the double; both zeros have the same one.
unfoldable pub rank : ℕ → ℕ
rank a = if leb (2 ^ 63) a then 2 ^ 63 - a % 2 ^ 63 else 2 ^ 63 + a

abbrev pub both_numbers : ℕ → ℕ → Bool
both_numbers a b = not (is_nan a) && not (is_nan b)

unfoldable pub dbl_eq : ℕ → ℕ → Bool
dbl_eq a b = both_numbers a b && (rank a == rank b)

unfoldable pub dbl_lt : ℕ → ℕ → Bool
dbl_lt a b = both_numbers a b && ltb (rank a) (rank b)

-- How many times `mag` is halved until it fits 53 bits, `k` bits being gone already.
abbrev pub excess : ℕ → ℕ → ℕ → ℕ
excess zero k mag = k
excess (suc fuel) k mag =
    let more = excess fuel (k + 1) mag in if ltb (mag / 2 ^ k) (2 ^ 53) then k else more

-- `mag` to the nearest number of 53 bits and zeros, a tie to the even one.
abbrev pub round_mag : ℕ → ℕ
round_mag mag =
    let k = excess 11 0 mag in
    let q = mag / 2 ^ k in
    let r = mag % 2 ^ k in
    let up = ltb (2 ^ k) (2 * r) || ((2 ^ k == 2 * r) && (q % 2 == 1)) in
    if up then (q + 1) * 2 ^ k else q * 2 ^ k

-- The value of `(double)n` plus 2^63, for the `int64_t` of value `n - 2 ^ 63`.
unfoldable pub to_double : ℕ → ℕ
to_double n =
    if leb (2 ^ 63) n then 2 ^ 63 + round_mag (n - 2 ^ 63) else 2 ^ 63 - round_mag (2 ^ 63 - n)
