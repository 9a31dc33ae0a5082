-- ===== src/Zset/First.antt =====
-- `zset_add` of the first node of a set.
use redis_database_basic_imp.Prelude.{
  ◌∙◌, ◌&&◌, not, some, ℕ, suc, ◌≡◌, refl, inl, Bool, true, false, arith, ◌==◌,
}
use redis_database_basic_imp.Prelude.Bytes.{Bytes, same_bytes}
use redis_database_basic_imp.Prelude.Count.{to_nat}
use redis_database_basic_imp.Prelude.Run.{ok, Returns}
use redis_database_basic_imp.HashTable.{empty_map}
use redis_database_basic_imp.HashTable.Count.{count}
use redis_database_basic_imp.HashTable.Valid.{IsValid, nodes}
use redis_database_basic_imp.HashTable.Lookup.{wanted}
use redis_database_basic_imp.HashTable.Only.{hm_lookup-IsGood}
use redis_database_basic_imp.HashTable.Insert.{hm_insert-Inserted}
use redis_database_basic_imp.Avl.{
  Ptr, null, Mem, is_null, set_parent, avl_update, rebalance, avl_fix,
}
use redis_database_basic_imp.Zset.{
  hkey, hcmp, ZSet, Store, hcode_of, HNode, empty_set, znode_new, find_slot, tree_add, zset_add,
  zset_lookup,
}

-- A tree of one node.
pub record IsOnly (m : Mem) (p : Ptr) : Type 0 where
  pub left : (m p).left ≡ null
  pub right : (m p).right ≡ null
  pub parent : (m p).parent ≡ null

-- `avl_fix` of a node without neighbours returns it.
rebalance-only :
    (m : Mem) (p : Ptr) → is_null p ≡ false → IsOnly m p → rebalance m p ≡ ok (p, avl_update m p)
unfolding rebalance avl_update
rebalance-only m p real only =
    let self : (p == p) ≡ true = ground arith in rw (real, self, only.left, only.right) refl

avl_fix-only :
    (fuel : ℕ) (m : Mem) (p : Ptr)
    → is_null p ≡ false
    → IsOnly m p
    → avl_fix (suc fuel) m p ≡ ok (p, avl_update m p)
unfolding avl_fix
avl_fix-only fuel m p real only = rw (rebalance-only m p real only, only.parent) refl

-- `avl_update` sets no link.
avl_update-IsOnly : (m : Mem) (p : Ptr) → IsOnly m p → IsOnly (avl_update m p) p
unfolding avl_update
avl_update-IsOnly m p only =
    let self : (p == p) ≡ true = ground arith in
    record { left = rw self only.left; right = rw self only.right; parent = rw self only.parent }

-- The first node goes to the root.
tree_add-first :
    (fuel : ℕ) (s : Store) (z : ZSet) (p : Ptr)
    → is_null p ≡ false
    → z.tree ≡ null
    → (s.tnodes p).left ≡ null
    → (s.tnodes p).right ≡ null
    → tree_add (suc fuel) s z p
      ≡ ok (record s { tnodes = avl_update (set_parent s.tnodes p null) p }, record z { tree = p })
unfolding tree_add find_slot
tree_add-first fuel s z p real empty left right =
    let self : (p == p) ≡ true = ground arith in
    let only : IsOnly (set_parent s.tnodes p null) p = record {
      left = rw self left;
      right = rw self right;
      parent = rw self refl;
    } in
    rw (empty, avl_fix-only fuel (set_parent s.tnodes p null) p real only) refl

pub record IsFirst (s : Store) (name : Bytes) (score : ℕ) (r : Bool × (Store × ZSet)) : Type 0 where
  pub added : r.0 ≡ true
  pub root : r.1.1.tree ≡ s.fresh
  pub score_there : (r.1.0.znodes s.fresh).score ≡ score
  pub valid : IsValid hcode_of r.1.1.hmap
  pub only_node : (p : HNode → Bool) → nodes p r.1.1.hmap ≡ to_nat (p (znode_new s name score).0)
  pub only_tree : IsOnly r.1.0.tnodes s.fresh

empty_map-IsValid : IsValid {A = HNode} hcode_of empty_map
unfolding count
empty_map-IsValid = record {
  newer = record { counted = refl; placed = λ i. tt };
  older = record { counted = refl; placed = λ i. tt };
  begun = inl (refl, refl);
  shape = inl refl;
  moved = λ i h. refl;
  room = omega arith;
}

-- The first node of a set.
pub zset_add-IsFirst :
    (fuel : ℕ) (s : Store) (name : Bytes) (score : ℕ)
    → is_null s.fresh ≡ false
    → Returns (IsFirst s name score) (zset_add (suc fuel) s empty_set name score)
unfolding zset_add zset_lookup znode_new count
zset_add-IsFirst fuel s name score real =
    let (node, s') = znode_new s name score in
    let (hmap, run, i) =
      hm_insert-Inserted hcode_of empty_map node empty_map-IsValid (omega arith) in
    let self : (s.fresh == s.fresh) ≡ true = ground arith in
    let tree =
      tree_add-first fuel s' (record { tree = null; hmap = hmap }) s.fresh real refl (rw self refl)
        (rw self refl) in
    (
      (
        true,
        (
          record s' { tnodes = avl_update (set_parent s'.tnodes s.fresh null) s.fresh },
          record { tree = s.fresh; hmap = hmap },
        ),
      ),
      rw (run, tree) refl,
      record {
        added = refl;
        root = refl;
        score_there = rw self refl;
        valid = i.valid;
        only_node = λ p. omega (arith, i.gains p);
        only_tree =
            avl_update-IsOnly (set_parent s'.tnodes s.fresh null) s.fresh
              (record { left = rw self refl; right = rw self refl; parent = rw self refl });
      },
    )

-- The table of a set whose only name is `name`, of the node `p`.
pub record HasOnly (z : ZSet) (name : Bytes) (p : Ptr) : Type 0 where
  pub tree : is_null z.tree ≡ false
  pub names : IsValid hcode_of z.hmap
  pub only_name :
      (q : HNode → Bool)
      → nodes q z.hmap ≡ to_nat (q (record { owner = p; hcode = (hkey name).hcode; name = name }))

-- The lookup of the name finds the node.
pub zset_lookup-HasOnly :
    (z : ZSet) (name : Bytes) (p : Ptr)
    → same_bytes name name ≡ true
    → HasOnly z name p
    → Returns (λ r. (x : HNode) × (r.0 ≡ some x) × (x.owner ≡ p)) (zset_lookup z name)
unfolding zset_lookup
zset_lookup-HasOnly z name p same h =
    let good : HNode → Bool = λ x. x.owner == p in
    let key = hkey name in
    let self : (p == p) ≡ true = ground arith in
    let hash : (key.hcode == key.hcode) ≡ true = ground arith in
    let one : nodes (wanted hcode_of hcmp key) z.hmap ≡ 1 =
      h.only_name (wanted hcode_of hcmp key) ∙ rw (hash, same) refl in
    let none_bad : nodes (λ x. wanted hcode_of hcmp key x && not (good x)) z.hmap ≡ 0 =
      h.only_name (λ x. wanted hcode_of hcmp key x && not (good x)) ∙ rw (hash, same, self) refl in
    let (r, run, (x, at, is_p)) =
      hm_lookup-IsGood hcode_of hcmp key z.hmap good h.names (omega (arith, one)) none_bad in
    ((r.0, record z { hmap = r.1 }), rw (h.tree, run) refl, (x, at, ground (arith, is_p)))
