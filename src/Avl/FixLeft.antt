-- ===== src/Avl/FixLeft.antt =====
-- `avl_fix_left`: a node whose left subtree is too high by one.
use mathlib.Core.List.{append_assoc}
use redis_database_basic_imp.Prelude.{
  ◌+◌, ◌^◌, ◌<◌, ◌≡◌, sym, ap, ◌∙◌, inl, inr, Bool-cases, true, false, ◌∷◌, arith, ltb, ltb-false,
  ltb→lt, ◌==◌,
}
use redis_database_basic_imp.Prelude.Run.{Returns}
use redis_database_basic_imp.Avl.{Ptr, AvlNode, Mem, set_left, rot_right, avl_fix_left}
use redis_database_basic_imp.Avl.Tree.{
  Tree, leaf, fork, height, size, inorder, has, IsDistinct, IsNode, IsTree, IsBalanced,
  IsTree-frame, IsTree-write, root_depth, Turned, Fixed, write_self,
}
use redis_database_basic_imp.Avl.Distinct.{flip, Apart-sym, IsDistinct-turn_left}
use redis_database_basic_imp.Avl.RotateLeft.{rot_left-Turned}
use redis_database_basic_imp.Avl.RotateRight.{rot_right-Turned}

-- The case of one turn.
module _ (m : Mem) (parent n x : Ptr) (c b r : Tree)
    (tree : IsTree m parent (fork n (fork x c b) r)) (distinct : IsDistinct (fork n (fork x c b) r))
    (small : size (fork n (fork x c b) r) < 2 ^ 32) (bal : IsBalanced (fork x c b))
    (balr : IsBalanced r) (two : height (fork x c b) ≡ height r + 2) where
  left_once :
      ltb (height c) (height b) ≡ false
      → Returns (Fixed m parent (fork n (fork x c b) r)) (avl_fix_left m n)
  unfolding avl_fix_left
  left_once deep =
      let le = ltb-false (height c) (height b) deep in
      let dc = root_depth m x c tree.2.2 in
      let db = root_depth m x b tree.2.3 in
      let (res, run, t) = rot_right-Turned m parent n x r b c distinct tree.0 tree.3 tree.2 small in
      (
        res,
        rw (tree.0.left, tree.0.real, tree.2.0.real, tree.2.0.left, tree.2.0.right, dc, db, deep)
            run,
        record {
          fixed = fork x c (fork n b r);
          turned = t;
          balanced = (
            omega (arith, le, two, bal.0, bal.1),
            omega (arith, le, two, bal.0, bal.1),
            bal.2,
            (
              omega (arith, le, two, bal.0, bal.1),
              omega (arith, le, two, bal.0, bal.1),
              bal.3,
              balr,
            ),
          );
          order = sym (append_assoc (inorder c) (x ∷ inorder b) (n ∷ inorder r));
        },
      )

outside_parts :
    (q x y n : Ptr) (c d e r : Tree)
    → has q (fork y (fork x c d) (fork n e r)) ≡ false
    → ((q == n) ≡ false) × (has q (fork y (fork x c d) e) ≡ false)
outside_parts q x y n c d e r h = (ground arith, ground arith)

-- The case of two turns: the subtree is turned first.
module _ (m : Mem) (parent n x y : Ptr) (c d e r : Tree)
    (tree : IsTree m parent (fork n (fork x c (fork y d e)) r))
    (distinct : IsDistinct (fork n (fork x c (fork y d e)) r))
    (small : size (fork n (fork x c (fork y d e)) r) < 2 ^ 32)
    (bal : IsBalanced (fork x c (fork y d e))) (balr : IsBalanced r)
    (two : height (fork x c (fork y d e)) ≡ height r + 2) where
  IsDistinct-turned : IsDistinct (fork n (fork y (fork x c d) e) r)
  IsDistinct-turned = (
    ground (arith, distinct.0),
    distinct.1,
    (λ q i. distinct.2 q (ground arith)),
    IsDistinct-turn_left x y c d e distinct.3,
    distinct.4,
  )

  module _ (p : Ptr × Mem) (t : Turned m n (fork y (fork x c d) e) p) where
    relink : Mem
    relink = set_left p.1 n p.0

    n_kept : p.1 n ≡ m n
    n_kept = t.outside n IsDistinct-turned.0

    n-IsNode : IsNode relink parent n (fork y (fork x c d) e) r
    unfolding relink
    n-IsNode =
        let here = write_self p.1 n (record (p.1 n) { left = p.0 }) in
        record {
          real = tree.0.real;
          left = ap (λ (z : AvlNode). z.left) here ∙ t.at_root;
          right =
              ap (λ (z : AvlNode). z.right) here
              ∙ ap (λ (z : AvlNode). z.right) n_kept
              ∙ tree.0.right;
          up =
              ap (λ (z : AvlNode). z.parent) here
              ∙ ap (λ (z : AvlNode). z.parent) n_kept
              ∙ tree.0.up;
        }

    l-IsTree : IsTree relink n (fork y (fork x c d) e)
    unfolding relink
    l-IsTree = IsTree-write p.1 n _ n (fork y (fork x c d) e) IsDistinct-turned.0 t.tree

    r-IsTree : IsTree relink n r
    unfolding relink
    r-IsTree = IsTree-write p.1 n _ n r distinct.1 (
        IsTree-frame m p.1 n r
          (λ q i. t.outside q (Apart-sym (fork y (fork x c d) e) r IsDistinct-turned.2 q i)) tree.3)

    outside_relink : (q : Ptr) → has q (fork y (fork x c d) (fork n e r)) ≡ false → relink q ≡ m q
    unfolding relink
    outside_relink q h =
        let (hn, ht) = outside_parts q x y n c d e r h in rw (flip q n hn) (t.outside q ht)

    second :
        ltb (height c) (height (fork y d e)) ≡ true
        → Returns (Fixed m parent (fork n (fork x c (fork y d e)) r)) (rot_right relink n)
    second deep =
        let lt = ltb→lt (height c) (height (fork y d e)) deep in
        let (res, run, u) =
          rot_right-Turned relink parent n y r e (fork x c d) IsDistinct-turned n-IsNode r-IsTree
            l-IsTree (omega (arith, small)) in
        (
          res,
          run,
          record {
            fixed = fork y (fork x c d) (fork n e r);
            turned = record {
              at_root = u.at_root;
              tree = u.tree;
              outside = λ q h. u.outside q h ∙ outside_relink q h;
            };
            balanced = (
              omega (arith, lt, two, bal.0, bal.1, bal.3.0, bal.3.1),
              omega (arith, lt, two, bal.0, bal.1, bal.3.0, bal.3.1),
              (
                omega (arith, lt, two, bal.0, bal.1, bal.3.0, bal.3.1),
                omega (arith, lt, two, bal.0, bal.1, bal.3.0, bal.3.1),
                bal.2,
                bal.3.2,
              ),
              (
                omega (arith, lt, two, bal.0, bal.1, bal.3.0, bal.3.1),
                omega (arith, lt, two, bal.0, bal.1, bal.3.0, bal.3.1),
                bal.3.3,
                balr,
              ),
            );
            order = simp append_assoc;
          },
        )

  left_twice :
      ltb (height c) (height (fork y d e)) ≡ true
      → Returns (Fixed m parent (fork n (fork x c (fork y d e)) r)) (avl_fix_left m n)
  unfolding avl_fix_left relink
  left_twice deep =
      let dc = root_depth m x c tree.2.2 in
      let db = root_depth m x (fork y d e) tree.2.3 in
      let (p, run, t) =
        rot_left-Turned m n x y c d e distinct.3 tree.2.0 tree.2.2 tree.2.3
          (omega (arith, small)) in
      let (res', run', f) = second p t deep in
      (
        res',
        rw
            (
              tree.0.left, tree.0.real, tree.2.0.real, tree.2.0.left, tree.2.0.right, dc, db, deep,
              run,
            )
            run',
        f,
      )

-- `avl_fix_left` at a node whose left subtree is too high by one: the tree is balanced again.
pub avl_fix_left-Fixed :
    (m : Mem) (parent n : Ptr) (l r : Tree)
    → IsTree m parent (fork n l r)
    → IsDistinct (fork n l r)
    → size (fork n l r) < 2 ^ 32
    → IsBalanced l
    → IsBalanced r
    → height l ≡ height r + 2
    → Returns (Fixed m parent (fork n l r)) (avl_fix_left m n)
avl_fix_left-Fixed m parent n leaf r tree distinct small bal balr two = absurd (omega (arith, two))
avl_fix_left-Fixed m parent n (fork x c leaf) r tree distinct small bal balr two =
    left_once m parent n x c leaf r tree distinct small bal balr two (ground arith)
avl_fix_left-Fixed m parent n (fork x c (fork y d e)) r tree distinct small bal balr two =
    elim (Bool-cases (ltb (height c) (height (fork y d e)))) [
      | inr deep ↦ left_once m parent n x c (fork y d e) r tree distinct small bal balr two deep
      | inl deep ↦ left_twice m parent n x y c d e r tree distinct small bal balr two deep
    ]
