-- ===== src/Zset/Pop.antt =====
-- `zset_pop` of the only member of a set.
use redis_database_basic_imp.Prelude.{
  ℕ, suc, ◌≤◌, ◌≡◌, refl, sym, ap, ◌∙◌, Bool, true, false, not, Option, none, some, arith, ◌==◌,
}
use redis_database_basic_imp.Prelude.Bytes.{Bytes}
use redis_database_basic_imp.Prelude.Run.{ok, Returns}
use redis_database_basic_imp.HashTable.{HMap, k_resizing_work}
use redis_database_basic_imp.HashTable.Count.{anything}
use redis_database_basic_imp.HashTable.Valid.{IsValid, nodes}
use redis_database_basic_imp.HashTable.Lookup.{LookedUp, wanted, missing, found, hm_lookup-LookedUp}
use redis_database_basic_imp.HashTable.Delete.{Deleted, hm_delete-Deleted}
use redis_database_basic_imp.Avl.{Ptr, Mem, null, is_null, del_top, avl_del}
use redis_database_basic_imp.Db.Keys.{same_bytes_refl}
use redis_database_basic_imp.Zset.{
  HNode, ZSet, Store, RawEq, hcode_of, hcmp, hkey, zset_lookup, pop_found, zset_pop,
}
use redis_database_basic_imp.Zset.First.{IsOnly, HasOnly}

-- The tree of one node is empty without it.
avl_del-only :
    (fuel : ℕ) (m : Mem) (p : Ptr)
    → is_null p ≡ false
    → IsOnly m p
    → avl_del (suc fuel) (suc fuel) m p ≡ ok (null, m)
unfolding avl_del del_top
avl_del-only fuel m p real only =
    rw (avl_del, real, only.right, del_top, only.parent, only.left) refl

-- A node of the set `p` was taken out, and the set is empty.
pub record Emptied (p : Ptr) (r : Option HNode × (Store × ZSet)) : Type 0 where
  pub node : HNode
  pub popped : r.0 ≡ some node
  pub owner : node.owner ≡ p
  pub tree : r.1.1.tree ≡ null
  pub names : IsValid hcode_of r.1.1.hmap
  pub none_left : nodes anything r.1.1.hmap ≡ 0

module _ (raw_eq : RawEq) (same : (s : Store) (x : HNode) → raw_eq s x x ≡ true) (fuel : ℕ)
    (s : Store) (z : ZSet) (p : Ptr) (real : is_null p ≡ false) (only : IsOnly s.tnodes p)
    (v : IsValid hcode_of z.hmap) (one : nodes anything z.hmap ≡ 1) where
  left_none :
      (n : HNode) (node : Option HNode) (hmap : HMap HNode)
      → ((q : HNode → Bool) → nodes q z.hmap ≡ 0 → q n ≡ false)
      → Deleted hcode_of (raw_eq s) n z.hmap (node, hmap)
      → nodes anything hmap ≡ 0
  left_none n (some x) hmap among d = omega (arith, d.loses anything, one)
  left_none n none hmap among d = elim d.answer [
    | missing none_wanted ↦
        let hash : (n.hcode == n.hcode) ≡ true = ground arith in
        let self : wanted hcode_of (raw_eq s) n n ≡ true = rw (hash, same s n) refl in
        absurd (ground (arith, among (wanted hcode_of (raw_eq s) n) none_wanted, self))
  ]

  pop_found-Emptied :
      (n : HNode)
      → n.owner ≡ p
      → ((q : HNode → Bool) → nodes q z.hmap ≡ 0 → q n ≡ false)
      → Returns (Emptied p) (pop_found raw_eq (suc fuel) s (some n, z))
  unfolding pop_found
  pop_found-Emptied n mine among =
      let few : z.hmap.ht2.size ≤ k_resizing_work = omega (arith, one, v.older.counted) in
      let ((gone, hmap), run, d) = hm_delete-Deleted hcode_of (raw_eq s) n z.hmap v few in
      let cut : avl_del (suc fuel) (suc fuel) s.tnodes n.owner ≡ ok (null, s.tnodes) =
        ap (avl_del (suc fuel) (suc fuel) s.tnodes) mine ∙ avl_del-only fuel s.tnodes p real only in
      (
        (some n, (s, record z { tree = null; hmap = hmap })),
        rw (cut, run) refl,
        record {
          node = n;
          popped = refl;
          owner = mine;
          tree = refl;
          names = d.valid;
          none_left = left_none n gone hmap among d;
        },
      )

-- The set of one name, which the node `p` has, is emptied.
module _ (raw_eq : RawEq) (same : (s : Store) (x : HNode) → raw_eq s x x ≡ true) (fuel : ℕ)
    (s : Store) (z : ZSet) (name : Bytes) (p : Ptr) (real : is_null p ≡ false)
    (only : IsOnly s.tnodes p) (h : HasOnly z name p) where
  looked_up :
      (node : Option HNode) (hmap : HMap HNode)
      → LookedUp hcode_of hcmp (hkey name) z.hmap (node, hmap)
      → Returns (Emptied p) (pop_found raw_eq (suc fuel) s (node, record z { hmap = hmap }))
  looked_up none hmap l = elim l.answer [
    | missing none_wanted ↦
        let key = hkey name in
        let hash : (key.hcode == key.hcode) ≡ true = ground arith in
        let one : nodes (wanted hcode_of hcmp key) z.hmap ≡ 1 =
          h.only_name (wanted hcode_of hcmp key) ∙ rw (hash, same_bytes_refl name) refl in
        absurd (omega (arith, one, none_wanted))
  ]
  looked_up (some n) hmap l = elim l.answer [
    | found fits among ↦
        let self : (p == p) ≡ true = ground arith in
        let others : nodes (λ x. not (x.owner == p)) z.hmap ≡ 0 =
          h.only_name (λ x. not (x.owner == p)) ∙ rw self refl in
        let mine = among (λ x. not (x.owner == p)) others in
        pop_found-Emptied raw_eq same fuel s (record z { hmap = hmap }) p real only l.valid
          (l.same anything ∙ h.only_name anything) n (ground (arith, mine))
          λ q none_there. among q (sym (l.same q) ∙ none_there)
  ]

  pub zset_pop-Emptied : Returns (Emptied p) (zset_pop raw_eq (suc fuel) s z name)
  unfolding zset_pop zset_lookup
  zset_pop-Emptied =
      let ((node, hmap), run, l) = hm_lookup-LookedUp hcode_of hcmp (hkey name) z.hmap h.names in
      let (r, ran, e) = looked_up node hmap l in (r, rw (h.tree, run) ran, e)
