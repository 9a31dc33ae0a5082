-- ===== src/HashTable/Count.antt =====
-- How many nodes of a chain, or of all the chains, pass a test. Counting by every test is the
-- multiset of the nodes, with no equality of nodes needed.
use redis_database_basic_imp.Prelude.{
  ℕ, zero, suc, ◌+◌, ◌≤◌, ◌<◌, ◌≡◌, ◌≢◌, refl, Bool, List, [], ◌∷◌, some, arith, length, get_elem?,
  get_or, set, replicate,
}
use redis_database_basic_imp.HashTable.{remove_at}
unfoldable pub use redis_database_basic_imp.Prelude.Count.{to_nat, anything, count_in}

module _ {ℓ} {A : Type ℓ} where
  unfoldable pub count : (A → Bool) → List (List A) → ℕ
  unfolding count_in
  count p [] = 0
  count p (b ∷ bs) = count_in p b + count p bs

module _ {ℓ} {A : Type ℓ} (p : A → Bool) where
  pub count-set :
      (bs : List (List A)) (i : ℕ) (c : List A)
      → i < length bs
      → count p (set bs i c) + count_in p (get_or bs i []) ≡ count p bs + count_in p c
  unfolding count
  count-set [] i c h = elim h [ ]
  count-set (b ∷ bs) zero c h = omega arith
  count-set (b ∷ bs) (suc i) c h = omega (arith, count-set bs i c (omega arith))

  pub count-replicate : (n : ℕ) → count p (replicate n []) ≡ 0
  unfolding count
  count-replicate zero = refl
  count-replicate (suc n) = omega (arith, count-replicate n)

  pub count-eq-zero :
      (bs : List (List A)) → ((i : ℕ) → count_in p (get_or bs i []) ≡ 0) → count p bs ≡ 0
  unfolding count
  count-eq-zero [] h = refl
  count-eq-zero (b ∷ bs) h = omega (arith, h 0, count-eq-zero bs (λ i. h (suc i)))

  -- All the nodes that pass are in one bucket.
  pub count_only :
      (bs : List (List A)) (j : ℕ)
      → ((i : ℕ) → i ≢ j → count_in p (get_or bs i []) ≡ 0)
      → count p bs ≡ count_in p (get_or bs j [])
  unfolding count
  count_only [] j h = refl
  count_only (b ∷ bs) zero h = omega (arith, count-eq-zero bs (λ i. h (suc i) (omega arith)))
  count_only (b ∷ bs) (suc j) h =
      omega (arith, h 0 (omega arith), count_only bs j (λ i n. h (suc i) (omega arith)))

  pub count-moved :
      (bs : List (List A)) (pos : ℕ)
      → ((i : ℕ) → i < pos → get_or bs i [] ≡ [])
      → length bs ≤ pos
      → count p bs ≡ 0
  unfolding count
  count-moved [] pos h l = refl
  count-moved (b ∷ bs) zero h l = absurd (omega arith)
  count-moved (b ∷ bs) (suc pos) h l =
      let none_here : b ≡ [] = h 0 (omega arith) in
      rw none_here
        (omega (arith, count-moved bs pos (λ i q. h (suc i) (omega arith)) (omega arith)))

  pub count_in-le : (xs : List A) → count_in p xs ≤ count_in anything xs
  unfolding count_in
  count_in-le [] = omega arith
  count_in-le (x ∷ xs) = ground (arith, count_in-le xs)

  pub count_in-remove_at :
      (xs : List A) (i : ℕ) (x : A)
      → get_elem? xs i ≡ some x
      → count_in p (remove_at xs i) + to_nat (p x) ≡ count_in p xs
  unfolding count_in remove_at
  count_in-remove_at [] i x h = absurd (ground arith)
  count_in-remove_at (y ∷ xs) zero x h = ground arith
  count_in-remove_at (y ∷ xs) (suc i) x h = ground (arith, count_in-remove_at xs i x h)

  -- A node that stands in a bucket is counted.
  pub get_elem?-counted :
      (xs : List A) (i : ℕ) (x : A) → get_elem? xs i ≡ some x → to_nat (p x) ≤ count_in p xs
  get_elem?-counted xs i x h = omega (arith, count_in-remove_at xs i x h)

  pub bucket-le-count : (bs : List (List A)) (i : ℕ) → count_in p (get_or bs i []) ≤ count p bs
  unfolding count
  bucket-le-count [] i = omega arith
  bucket-le-count (b ∷ bs) zero = omega arith
  bucket-le-count (b ∷ bs) (suc i) = omega (arith, bucket-le-count bs i)

  pub count-le : (bs : List (List A)) → count p bs ≤ count anything bs
  unfolding count
  count-le [] = omega arith
  count-le (b ∷ bs) = omega (arith, count_in-le b, count-le bs)
