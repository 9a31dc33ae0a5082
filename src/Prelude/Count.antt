-- ===== src/Prelude/Count.antt =====
-- How many entries of a list pass a test. Counting by every test is the multiset of the entries,
-- with no equality of entries needed.
use mathlib.Core.Path.{◌≡◌}
use mathlib.Core.Bool.{Bool, true, false}
use mathlib.Core.List.{List, [], ◌∷◌, ◌++◌}
use Prim.Native.Nat.{ℕ, zero, suc, ◌+◌, ◌<◌}
use native.Mathlib.Omega.{arith}
use redis_database_basic_imp.Prelude.Lists.{length, set, get_or}

abbrev pub to_nat : Bool → ℕ
to_nat true = 1
to_nat false = 0

abbrev pub anything {ℓ} : {A : Type ℓ} → A → Bool
anything x = true

module _ {ℓ} {A : Type ℓ} where
  unfoldable pub count_in : (A → Bool) → List A → ℕ
  count_in p [] = 0
  count_in p (x ∷ xs) = to_nat (p x) + count_in p xs

module _ {ℓ} {A : Type ℓ} (p : A → Bool) where
  pub count_in-append : (xs ys : List A) → count_in p (xs ++ ys) ≡ count_in p xs + count_in p ys
  unfolding count_in
  count_in-append [] ys = omega arith
  count_in-append (x ∷ xs) ys = omega (arith, count_in-append xs ys)

  -- A write trades the old entry for the new one.
  pub count_in-set :
      (xs : List A) (i : ℕ) (v d : A)
      → i < length xs
      → count_in p (set xs i v) + to_nat (p (get_or xs i d)) ≡ count_in p xs + to_nat (p v)
  unfolding count_in
  count_in-set [] i v d h = elim h [ ]
  count_in-set (x ∷ xs) zero v d h = omega arith
  count_in-set (x ∷ xs) (suc i) v d h = omega (arith, count_in-set xs i v d (omega arith))
