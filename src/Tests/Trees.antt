-- ===== src/Tests/Trees.antt =====
-- Turns in small trees: three nodes in a chain below the node 9.
use redis_database_basic_imp.Prelude.{refl, arith, ◌==◌, if◌then◌else◌}
use redis_database_basic_imp.Prelude.Run.{Run, ok, Returns}
use redis_database_basic_imp.Avl.{
  Ptr, AvlNode, Mem, rot_left, rot_right, avl_fix_left, avl_fix_right, avl_update, relink_left,
  relink_right, rebalance,
}
use redis_database_basic_imp.Avl.Tree.{
  Tree, leaf, fork, Apart, IsDistinct, IsNode, IsTree, IsBalanced, Fixed, Turned,
}
use redis_database_basic_imp.Avl.RotateLeft.{rot_left-Turned}
use redis_database_basic_imp.Avl.Rebalance.{rebalance-Fixed}

abbrev single : Ptr → AvlNode
single p = record { depth = 1; count = 1; left = 0; right = 0; parent = p }

-- 9 → 1 → 2 → 3, where 1 is the left child of 9, and 2 and 3 are right children.
abbrev chain : Mem
chain a =
    if a == 1
    then record { depth = 1; count = 1; left = 0; right = 2; parent = 9 }
    else (if a == 2
        then record { depth = 2; count = 2; left = 0; right = 3; parent = 1 }
        else (if a == 3
            then single 2
            else record { depth = 1; count = 1; left = 1; right = 0; parent = 0 }))

nowhere : (t : Tree) → Apart leaf t
nowhere t a i = absurd cc

three-IsNode : IsNode chain 9 1 leaf (fork 2 leaf (fork 3 leaf leaf))
three-IsNode = record { real = refl; left = refl; right = refl; up = refl }

two-IsTree : IsTree chain 1 (fork 2 leaf (fork 3 leaf leaf))
two-IsTree = (
  record { real = refl; left = refl; right = refl; up = refl },
  record { depth = refl; count = refl },
  tt,
  (
    record { real = refl; left = refl; right = refl; up = refl },
    record { depth = refl; count = refl },
    tt,
    tt,
  ),
)

chain-IsDistinct : IsDistinct (fork 1 leaf (fork 2 leaf (fork 3 leaf leaf)))
chain-IsDistinct = (
  refl,
  refl,
  nowhere (fork 2 leaf (fork 3 leaf leaf)),
  tt,
  (refl, refl, nowhere (fork 3 leaf leaf), tt, (refl, refl, nowhere leaf, tt, tt)),
)

two-IsBalanced : IsBalanced (fork 2 leaf (fork 3 leaf leaf))
two-IsBalanced = (omega arith, omega arith, tt, (omega arith, omega arith, tt, tt))

rot_left-Turned_example :
    Returns (Turned chain 9 (fork 2 (fork 1 leaf leaf) (fork 3 leaf leaf))) (rot_left chain 1)
rot_left-Turned_example =
    rot_left-Turned chain 9 1 2 leaf leaf (fork 3 leaf leaf) chain-IsDistinct three-IsNode tt
      two-IsTree (omega arith)

rebalance-Fixed_example :
    Returns (Fixed chain 9 (fork 1 leaf (fork 2 leaf (fork 3 leaf leaf)))) (rebalance chain 1)
rebalance-Fixed_example =
    rebalance-Fixed chain 9 1 leaf (fork 2 leaf (fork 3 leaf leaf)) three-IsNode tt two-IsTree
      chain-IsDistinct (omega arith) tt two-IsBalanced (omega arith, omega arith)

abbrev value : Run (Ptr × Mem) → Ptr × Mem
value (ok r) = r
value _ = (0, chain)

-- What the round leaves.
abbrev turned : Ptr × Mem
unfolding rebalance avl_fix_left avl_fix_right rot_left rot_right avl_update relink_left
    relink_right
turned = value (rebalance chain 1)
