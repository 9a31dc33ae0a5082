-- ===== src/HashTable/Valid.antt =====
-- The invariant of a table and of a map.
use Prim.Native.Nat.{bit_and}
use redis_database_basic_imp.Prelude.{ℕ, ◌+◌, ◌^◌, ◌<◌, ◌≡◌, ◌⊎◌, Bool, [], length, get_or, All}
use redis_database_basic_imp.Prelude.Bits.{IsPowTwo}
use redis_database_basic_imp.HashTable.{HTab, HMap}
use redis_database_basic_imp.HashTable.Count.{count, anything}

-- `tab` has `mask + 1` buckets, a power of two.
abbrev pub IsTable {ℓ} : {A : Type ℓ} → HTab A → Type 0
IsTable t = (length t.tab ≡ t.mask + 1) × IsPowTwo (t.mask + 1)

pub IsTable-same {ℓ} :
    {A : Type ℓ} (t t' : HTab A)
    → IsTable t
    → t'.mask ≡ t.mask
    → length t'.tab ≡ length t.tab
    → IsTable t'
IsTable-same t t' s e w = rw (w, e) s

abbrev pub IsNull {ℓ} : {A : Type ℓ} → HTab A → Type ℓ
IsNull t = t.tab ≡ []

module _ {ℓ} {A : Type ℓ} (hcode : A → ℕ) where
  -- A node stands in the bucket that its hash code names.
  abbrev pub IsPlaced : HTab A → Type 0
  IsPlaced t = (i : ℕ) → All (λ n. bit_and (hcode n) t.mask ≡ i) (get_or t.tab i [])

  -- The counter is right, and every node is in its place.
  pub record IsCounted (t : HTab A) : Type 0 where
    pub counted : t.size ≡ count anything t.tab
    pub placed : IsPlaced t

  -- Either no table was made yet, or the newer table is there and the older one may be. The buckets
  -- of the older table below `resizing_pos` have been emptied.
  pub record IsValid (m : HMap A) : Type ℓ where
    pub newer : IsCounted m.ht1
    pub older : IsCounted m.ht2
    pub begun : (IsNull m.ht1 × IsNull m.ht2) ⊎ IsTable m.ht1
    pub shape : IsNull m.ht2 ⊎ IsTable m.ht2
    pub moved : (i : ℕ) → i < m.resizing_pos → get_or m.ht2.tab i [] ≡ []
    pub room : m.ht1.size + m.ht2.size < 2 ^ 64

-- The nodes of the map that pass a test.
abbrev pub nodes {ℓ} : {A : Type ℓ} → (A → Bool) → HMap A → ℕ
nodes p m = count p m.ht1.tab + count p m.ht2.tab

-- The two maps hold the same nodes, as often.
abbrev pub SameNodes {ℓ} : {A : Type ℓ} → HMap A → HMap A → Type ℓ
SameNodes {A = A} m m' = (p : A → Bool) → nodes p m' ≡ nodes p m
