-- ===== src/HashTable/Only.antt =====
-- Lookups where the nodes with the key are known.
use redis_database_basic_imp.Prelude.{
  ℕ, ◌≤◌, ◌<◌, ◌≡◌, refl, Bool, true, not, ◌&&◌, Option, none, some, List, [], ◌∷◌, arith,
}
use redis_database_basic_imp.Prelude.Count.{to_nat, count_in}
use redis_database_basic_imp.Prelude.Run.{Returns}
use redis_database_basic_imp.HashTable.{HMap, hm_lookup}
use redis_database_basic_imp.HashTable.Count.{count}
use redis_database_basic_imp.HashTable.Valid.{IsValid, nodes, SameNodes}
use redis_database_basic_imp.HashTable.Lookup.{wanted, IsFound, missing, found, hm_lookup-LookedUp}

count_in-less {ℓ} :
    {A : Type ℓ} (p q : A → Bool)
    → ((x : A) → to_nat (p x) ≤ to_nat (q x))
    → (xs : List A) → count_in p xs ≤ count_in q xs
unfolding count_in
count_in-less p q h [] = omega arith
count_in-less p q h (x ∷ xs) = omega (arith, h x, count_in-less p q h xs)

pub count-less {ℓ} :
    {A : Type ℓ} (p q : A → Bool)
    → ((x : A) → to_nat (p x) ≤ to_nat (q x))
    → (bs : List (List A)) → count p bs ≤ count q bs
unfolding count
count-less p q h [] = omega arith
count-less p q h (b ∷ bs) = omega (arith, count_in-less p q h b, count-less p q h bs)

module _ {ℓ} {A : Type ℓ} (hcode : A → ℕ) (eq : A → A → Bool) (key : A) where
  none_found :
      (m : HMap A) (node : Option A)
      → IsFound hcode eq key m node
      → nodes (wanted hcode eq key) m ≡ 0
      → node ≡ none
  none_found m _ (missing z) h = refl
  none_found m _ (found fits among) h =
      let f = among (wanted hcode eq key) h in absurd (ground (arith, f, fits))

  pub record Absent (m : HMap A) (r : Option A × HMap A) : Type ℓ where
    pub nothing : r.0 ≡ none
    pub valid : IsValid hcode r.1
    pub same : SameNodes m r.1

  -- Where no node has the key.
  pub hm_lookup-Absent :
      (m : HMap A)
      → IsValid hcode m
      → nodes (wanted hcode eq key) m ≡ 0
      → Returns (Absent m) (hm_lookup hcode m key eq)
  hm_lookup-Absent m v h =
      let (r, run, l) = hm_lookup-LookedUp hcode eq key m v in
      (r, run, record { nothing = none_found m r.0 l.answer h; valid = l.valid; same = l.same })

  -- A node with the key that passes the test is found.
  abbrev pub IsGood : (A → Bool) → Option A × HMap A → Type ℓ
  IsGood good r = (x : A) × (r.0 ≡ some x) × (good x ≡ true)

  good_found :
      (m : HMap A) (node : Option A) (good : A → Bool)
      → IsFound hcode eq key m node
      → 0 < nodes (wanted hcode eq key) m
      → nodes (λ x. wanted hcode eq key x && not (good x)) m ≡ 0
      → (x : A) × (node ≡ some x) × (good x ≡ true)
  good_found m _ good (missing z) some_node none_bad = absurd (omega (arith, z, some_node))
  good_found m _ good (found {x = x} fits among) some_node none_bad =
      let f = among (λ y. wanted hcode eq key y && not (good y)) none_bad in
      (x, refl, ground (arith, f, fits))

  -- Where a node has the key, and all that have it pass the test.
  pub hm_lookup-IsGood :
      (m : HMap A) (good : A → Bool)
      → IsValid hcode m
      → 0 < nodes (wanted hcode eq key) m
      → nodes (λ x. wanted hcode eq key x && not (good x)) m ≡ 0
      → Returns (IsGood good) (hm_lookup hcode m key eq)
  hm_lookup-IsGood m good v some_node none_bad =
      let (r, run, l) = hm_lookup-LookedUp hcode eq key m v in
      (r, run, good_found m r.0 good l.answer some_node none_bad)
