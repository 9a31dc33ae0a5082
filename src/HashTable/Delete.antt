-- ===== src/HashTable/Delete.antt =====
-- `hm_delete` where the node stands in the newer table, or the older one is gone after the help.
use redis_database_basic_imp.Prelude.{
  ℕ, ◌+◌, ◌≤◌, ◌≡◌, refl, inl, inr, ap, ◌∙◌, Bool, Option, none, some, arith, length,
}
use redis_database_basic_imp.Prelude.Run.{ok, ◌>>=◌, Returns}
use redis_database_basic_imp.HashTable.{
  HTab, HMap, newer, older, h_detach, size_dec, hm_delete, k_resizing_work,
}
use redis_database_basic_imp.HashTable.Count.{anything, to_nat}
use redis_database_basic_imp.HashTable.Valid.{IsTable, IsValid, nodes, IsTable-same}
use redis_database_basic_imp.HashTable.Place.{Removed, unlink-Removed}
use redis_database_basic_imp.HashTable.Resize.{hm_help_resizing-Advanced}
use redis_database_basic_imp.HashTable.Lookup.{
  wanted, from_at, Hit, Hit-counted, absent, in_newer, in_older, lookup_both-Located, IsFound,
  missing, found,
}

-- How many of the nodes that a deletion returns pass the test.
abbrev pub taken {ℓ} : {A : Type ℓ} → (A → Bool) → Option A → ℕ
taken p none = 0
taken p (some x) = to_nat (p x)

module _ {ℓ} {A : Type ℓ} (hcode : A → ℕ) (eq : A → A → Bool) (key : A) where
  -- `r` is what a deletion from `m` returns, and the map afterwards.
  pub record Deleted (m : HMap A) (r : Option A × HMap A) : Type ℓ where
    pub valid : IsValid hcode r.1
    pub answer : IsFound hcode eq key m r.0
    pub loses : (p : A → Bool) → nodes p r.1 + taken p r.0 ≡ nodes p m
    pub few : r.1.ht2.size ≤ m.ht2.size

  -- The map with the newer table `t` counted down.
  abbrev without : HMap A → HTab A → HMap A
  without m t = record m { ht1 = record t { size = size_dec t.size } }

  without-IsValid :
      (m : HMap A) (bucket : ℕ) (x : A) (t : HTab A)
      → IsValid hcode m
      → IsTable m.ht1
      → Removed hcode m.ht1 bucket x t
      → IsValid hcode (without m t)
  without-IsValid m bucket x t v s r = record {
    newer = record {
      counted = omega (arith, r.loses anything, v.newer.counted, v.room);
      placed = r.placed;
    };
    older = v.older;
    begun = inr (IsTable-same m.ht1 (without m t).ht1 s r.mask r.width);
    shape = v.shape;
    moved = v.moved;
    room = omega (arith, r.loses anything, v.newer.counted, v.room);
  }

  -- The newer table of a hit was made.
  hit_table :
      (m : HMap A) (k : ℕ) (x : A) → IsValid hcode m → Hit hcode eq key m newer k x → IsTable m.ht1
  hit_table m k x v h = elim v.begun [
    | inl n ↦ absurd (omega (arith, h.inside, ap length n.0))
    | inr s ↦ s
  ]

  detach_newer :
      (m : HMap A) (k : ℕ) (x : A)
      → IsValid hcode m
      → Hit hcode eq key m newer k x
      → (m' : HMap A) × (h_detach m newer (from_at hcode eq key m newer k) ≡ ok (x, m'))
        × IsValid hcode m'
        × ((p : A → Bool) → nodes p m' + to_nat (p x) ≡ nodes p m)
        × (m'.ht2 ≡ m.ht2)
  unfolding h_detach
  detach_newer m k x v h =
      let (t, cut, r) = unlink-Removed hcode m.ht1 _ k x v.newer.placed h.inside h.here in
      (
        without m t,
        rw cut,
        without-IsValid m _ x t v (hit_table m k x v h) r,
        (λ p. omega (arith, r.loses p)),
        refl,
      )

  -- `hm_delete` on a valid map whose older table has at most `k_resizing_work` nodes left ends
  -- without a fault; it returns a wanted node and takes just that one out of the map, or null, with
  -- the same nodes left, exactly if there is none; and the map stays valid.
  pub hm_delete-Deleted :
      (m : HMap A)
      → IsValid hcode m
      → m.ht2.size ≤ k_resizing_work
      → Returns (Deleted m) (hm_delete hcode m key eq)
  unfolding hm_delete
  hm_delete-Deleted m v few =
      let (m', helps, a) = hm_help_resizing-Advanced hcode m v in
      elim (lookup_both-Located hcode eq key m' a.valid) [
        | absent run z ↦ (
          (none, m'),
          rw (helps, ◌>>=◌, run),
          record {
            valid = a.valid;
            answer = missing (omega (arith, a.same (wanted hcode eq key)));
            loses = λ p. omega (arith, a.same p);
            few = omega (arith, a.size);
          },
        )
        | in_newer k x run h ↦
            let (r, cut, v', loses, same) = detach_newer m' k x a.valid h in
            (
              (some x, r),
              rw (helps, ◌>>=◌, run, cut),
              record {
                valid = v';
                answer =
                    found h.fits
                      (λ p z. ground (arith, a.same p, Hit-counted hcode eq key m' newer k x p h));
                loses = λ p. loses p ∙ a.same p;
                few = omega (arith, ap (λ (t : HTab A). t.size) same, a.size);
              },
            )
        | in_older k x run z h ↦
            let one = Hit-counted hcode eq key m' older k x anything h in
            absurd (omega (arith, one, a.size, a.valid.older.counted))
      ]
