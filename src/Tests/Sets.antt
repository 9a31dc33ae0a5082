-- ===== src/Tests/Sets.antt =====
-- A sorted set with the names a, b and c, all of the score 0, in a tree of three nodes.
use redis_database_basic_imp.Prelude.{
  ℕ, length, ◌≡◌, refl, true, not, [], ◌∷◌, arith, ◌==◌, if◌then◌else◌,
}
use redis_database_basic_imp.Prelude.Bytes.{Bytes}
use redis_database_basic_imp.Prelude.Doubles.{dbl_eq, dbl_lt, is_nan, rank}
use redis_database_basic_imp.Prelude.Run.{Run, ◌>>=◌, ok, Returns}
use redis_database_basic_imp.Avl.{
  avl_fix, rebalance, avl_update, avl_fix_left, avl_fix_right, rot_left, rot_right, relink_left,
  relink_right, Ptr, AvlNode, Mem,
}
use redis_database_basic_imp.Avl.Tree.{Tree, leaf, fork, has, IsTree}
use redis_database_basic_imp.HashTable.{program}
use redis_database_basic_imp.Zset.{
  zset_add, zset_lookup, znode_new, tree_add, find_slot, empty_set, ZNode, ZSet, Store, zless,
  query_loop,
}
use redis_database_basic_imp.Zset.Less.{zless-not}
use redis_database_basic_imp.Zset.Query.{first_not_less, IsSorted, query_loop-first_not_less}
use redis_database_basic_imp.Zset.Walk.{free_avl_nodes}
use redis_database_basic_imp.Zset.Free.{SameCounts, free_avl_nodes-SameCounts}

abbrev at_zero : Bytes → ZNode
at_zero name = record { score = 0; name = name }

abbrev leaf_node : Ptr → AvlNode
leaf_node p = record { depth = 1; count = 1; left = 0; right = 0; parent = p }

-- 2 stands above 1 and 3.
abbrev links : Mem
links p =
    if p == 2 then record { depth = 2; count = 3; left = 1; right = 3; parent = 0 } else leaf_node 2

abbrev three : Store
three = record {
  tnodes = links;
  znodes = λ p.
      if p == 1
      then at_zero (b'a' ∷ [])
      else (if p == 2 then at_zero (b'b' ∷ []) else at_zero (b'c' ∷ []));
  fresh = 4;
}

abbrev shape : Tree
shape = fork 2 (fork 1 leaf leaf) (fork 3 leaf leaf)

shape-IsTree : IsTree links 0 shape
shape-IsTree = (
  record { real = refl; left = refl; right = refl; up = refl },
  record { depth = refl; count = refl },
  (
    record { real = refl; left = refl; right = refl; up = refl },
    record { depth = refl; count = refl },
    tt,
    tt,
  ),
  (
    record { real = refl; left = refl; right = refl; up = refl },
    record { depth = refl; count = refl },
    tt,
    tt,
  ),
)

only : (n q : Ptr) → has q (fork n leaf leaf) ≡ true → q ≡ n
only n q h = ground arith

shape-IsSorted : IsSorted three shape
unfolding zless dbl_eq dbl_lt is_nan rank
shape-IsSorted = (
  (λ q h. rw (only 1 q h) refl),
  (λ q h. rw (only 3 q h) refl),
  ((λ q h. absurd cc), (λ q h. absurd cc), tt, tt),
  ((λ q h. absurd cc), (λ q h. absurd cc), tt, tt),
)

zless-not_example :
    zless (at_zero (b'a' ∷ [])) (at_zero (b'b' ∷ []))
    ≡ not (zless (at_zero (b'b' ∷ [])) (at_zero (b'a' ∷ [])))
unfolding is_nan
zless-not_example = zless-not (at_zero (b'a' ∷ [])) (at_zero (b'b' ∷ [])) refl refl refl

query_loop-first_not_less_example :
    query_loop 3 three (at_zero (b'b' ∷ [])) 2 0
    ≡ ok (first_not_less three (at_zero (b'b' ∷ [])) (1 ∷ 2 ∷ 3 ∷ []) 0)
query_loop-first_not_less_example =
    query_loop-first_not_less three (at_zero (b'b' ∷ [])) 0 shape 3 0 shape-IsTree shape-IsSorted
      (omega arith)

free_avl_nodes-SameCounts_example : Returns (SameCounts shape) (free_avl_nodes 3 links 2)
free_avl_nodes-SameCounts_example =
    free_avl_nodes-SameCounts links 0 shape 3 shape-IsTree (omega arith)

-- The names of one letter in `letters`, added one after the other with the score 0.
abbrev added : Bytes → Run (Store × ZSet) → Run (Store × ZSet)
added [] r = r
added (c ∷ cs) r = added cs (r >>= λ (s, z). zset_add 9 s z (c ∷ []) 0 >>= λ (new, sz). ok sz)

abbrev no_nodes : Store
no_nodes = record { tnodes = λ p. leaf_node 0; znodes = λ p. at_zero []; fresh = 1 }

-- How many nodes the destructor frees.
abbrev freed : Bytes → Run ℕ
freed letters = added letters (ok (no_nodes, empty_set)) >>= λ (s, z).
    free_avl_nodes 9 s.tnodes z.tree >>= λ ps. ok (length ps)

three_freed : freed (b'a' ∷ b'b' ∷ b'c' ∷ []) ≡ ok 3
unfolding zset_add zset_lookup znode_new tree_add find_slot zless dbl_eq dbl_lt is_nan rank avl_fix
    rebalance avl_update avl_fix_left avl_fix_right rot_left rot_right relink_left relink_right
    program free_avl_nodes
three_freed = refl

-- The turn below the root takes two of five names out of the tree.
five_freed : freed (b'a' ∷ b'b' ∷ b'c' ∷ b'd' ∷ b'e' ∷ []) ≡ ok 3
unfolding zset_add zset_lookup znode_new tree_add find_slot zless dbl_eq dbl_lt is_nan rank avl_fix
    rebalance avl_update avl_fix_left avl_fix_right rot_left rot_right relink_left relink_right
    program free_avl_nodes
five_freed = refl
