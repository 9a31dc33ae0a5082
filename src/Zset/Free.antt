-- ===== src/Zset/Free.antt =====
-- `free_avl_nodes`: every node of the tree is freed, once.
use redis_database_basic_imp.Prelude.{
  ℕ, zero, suc, ◌<◌, ◌≡◌, refl, Bool, List, [], ◌∷◌, ◌++◌, arith,
}
use redis_database_basic_imp.Prelude.Count.{count_in, count_in-append}
use redis_database_basic_imp.Prelude.Run.{Returns}
use redis_database_basic_imp.Avl.{Ptr, Mem}
use redis_database_basic_imp.Avl.Tree.{Tree, leaf, fork, root, height, inorder, IsTree}
use redis_database_basic_imp.Zset.Walk.{free_avl_nodes}

-- The freed nodes are those of the tree, each as often.
abbrev pub SameCounts : Tree → List Ptr → Type 0
SameCounts t freed = (p : Ptr → Bool) → count_in p freed ≡ count_in p (inorder t)

-- The destructor of a tree in the memory ends, with fuel above its height, and frees its nodes, each
-- as often as it stands in the tree.
pub free_avl_nodes-SameCounts :
    (m : Mem) (parent : Ptr) (t : Tree) (fuel : ℕ)
    → IsTree m parent t
    → height t < fuel
    → Returns (SameCounts t) (free_avl_nodes fuel m (root t))
unfolding free_avl_nodes count_in
free_avl_nodes-SameCounts m parent t zero h l = absurd (omega (arith, l))
free_avl_nodes-SameCounts m parent leaf (suc fuel) h l = ([], refl, λ p. refl)
free_avl_nodes-SameCounts m parent (fork n l r) (suc fuel) (node, measured, hl, hr) enough =
    let (ls, runl, cl) = free_avl_nodes-SameCounts m n l fuel hl (omega (arith, enough)) in
    let (rs, runr, cr) = free_avl_nodes-SameCounts m n r fuel hr (omega (arith, enough)) in
    (
      ls ++ (rs ++ (n ∷ [])),
      rw (node.real, node.left, node.right, runl, runr) refl,
      λ p. omega (
        arith,
        count_in-append p ls (rs ++ (n ∷ [])),
        count_in-append p rs (n ∷ []),
        cl p,
        cr p,
        count_in-append p (inorder l) (n ∷ inorder r),
      ),
    )
