-- ===== src/HashTable/Place.antt =====
-- `hinsert` and `h_detach` on one table: they do not fault, and what they do to the nodes.
use Prim.Native.Nat.{bit_and}
use native.Mathlib.Decide.{ℕ_discrete}
use redis_database_basic_imp.Prelude.{
  ◌≢◌, ℕ, zero, suc, ◌+◌, ◌^◌, ◌<◌, ◌≡◌, refl, Bool, true, false, List, [], ◌∷◌, some, arith, ◌==◌,
  length, get_elem?, get_or, set, length-set, get_or-set, get_elem?-get_or, All,
}
use redis_database_basic_imp.Prelude.Bits.{bit_and-le}
use redis_database_basic_imp.Prelude.Run.{◌>>=◌, ok, Returns}
use redis_database_basic_imp.HashTable.{HTab, hinsert, unlink, remove_at, size_inc}
use redis_database_basic_imp.HashTable.Count.{
  count, count_in, count-set, count_in-remove_at, anything, to_nat,
}
use redis_database_basic_imp.HashTable.Valid.{IsTable, IsPlaced, IsCounted}

All-set {ℓ κ} :
    {A : Type ℓ} (P : ℕ → A → Type κ) (tab : List (List A)) (i : ℕ) (c : List A)
    → ((j : ℕ) → All (P j) (get_or tab j []))
    → i < length tab
    → All (P i) c
    → (j : ℕ) → All (P j) (get_or (set tab i c) j [])
All-set P tab i c h l new j = elim (ℕ_discrete i j) [
  | yes e ↦
      let here : (i == j) ≡ true = ground arith in
      rw (get_or-set tab i j c [] l, here) (rw e at new)
  | no n ↦
      let apart : (i == j) ≡ false = ground arith in rw (get_or-set tab i j c [] l, apart) (h j)
]

All-remove_at {ℓ κ} :
    {A : Type ℓ} (P : A → Type κ) (xs : List A) (i : ℕ) → All P xs → All P (remove_at xs i)
unfolding remove_at
All-remove_at P [] i h = tt
All-remove_at P (x ∷ xs) zero h = h.1
All-remove_at P (x ∷ xs) (suc i) h = (h.0, All-remove_at P xs i h.1)

-- The bucket of a hash code is a bucket of the table.
pub index-lt {ℓ} :
    {A : Type ℓ} (t : HTab A) (h : ℕ) → length t.tab ≡ t.mask + 1 → bit_and h t.mask < length t.tab
index-lt t h e = omega (arith, bit_and-le h t.mask)

module _ {ℓ} {A : Type ℓ} (hcode : A → ℕ) (t : HTab A) where
  abbrev pub home : A → ℕ
  home n = bit_and (hcode n) t.mask

  -- `t'` is `t` with one more node, at the head of its bucket.
  pub record Added (node : A) (t' : HTab A) : Type ℓ where
    pub valid : IsCounted hcode t'
    pub mask : t'.mask ≡ t.mask
    pub width : length t'.tab ≡ length t.tab
    pub size : t'.size ≡ t.size + 1
    pub gains : (p : A → Bool) → count p t'.tab ≡ count p t.tab + to_nat (p node)
    pub front : get_or t'.tab (home node) [] ≡ node ∷ get_or t.tab (home node) []

  pub hinsert-Added :
      (node : A)
      → IsCounted hcode t
      → IsTable t
      → t.size + 1 < 2 ^ 64
      → Returns (Added node) (hinsert hcode t node)
  unfolding hinsert count_in
  hinsert-Added node v s r =
      let i = home node in
      let l = index-lt t (hcode node) s.0 in
      (
        record t { tab = set t.tab i (node ∷ get_or t.tab i []); size = size_inc t.size },
        rw (get_elem?-get_or t.tab i [] l),
        record {
          valid = record {
            counted =
                omega (arith, v.counted, count-set anything t.tab i (node ∷ get_or t.tab i []) l);
            placed = All-set _ t.tab i _ v.placed l (refl, v.placed i);
          };
          mask = refl;
          width = length-set t.tab i _;
          size = omega arith;
          gains = λ p. omega (arith, count-set p t.tab i (node ∷ get_or t.tab i []) l);
          front = ground (arith, get_or-set t.tab i i (node ∷ get_or t.tab i []) [] l);
        },
      )

  -- `t'` is `t` without `x`, its counter not yet changed.
  pub record Removed (bucket : ℕ) (x : A) (t' : HTab A) : Type ℓ where
    pub placed : IsPlaced hcode t'
    pub mask : t'.mask ≡ t.mask
    pub width : length t'.tab ≡ length t.tab
    pub size : t'.size ≡ t.size
    pub others : (i : ℕ) → i ≢ bucket → get_or t'.tab i [] ≡ get_or t.tab i []
    pub loses : (p : A → Bool) → count p t'.tab + to_nat (p x) ≡ count p t.tab

  pub unlink-Removed :
      (bucket offset : ℕ) (x : A)
      → IsPlaced hcode t
      → bucket < length t.tab
      → get_elem? (get_or t.tab bucket []) offset ≡ some x
      → (t' : HTab A) × (unlink t bucket offset ≡ ok (x, t')) × Removed bucket x t'
  unfolding unlink
  unlink-Removed bucket offset x v l e =
      let c = get_or t.tab bucket [] in
      (
        record t { tab = set t.tab bucket (remove_at c offset) },
        rw (get_elem?-get_or t.tab bucket [] l, ◌>>=◌, e),
        record {
          placed = All-set _ t.tab bucket _ v l (All-remove_at _ c offset (v bucket));
          mask = refl;
          width = length-set t.tab bucket _;
          size = refl;
          others = λ i n. ground (arith, get_or-set t.tab bucket i (remove_at c offset) [] l);
          loses = λ p. omega (
            arith,
            count-set p t.tab bucket (remove_at c offset) l,
            count_in-remove_at p c offset x e,
          );
        },
      )
