-- ===== src/Avl/FixRight.antt =====
-- `avl_fix_right`: a node whose right subtree is too high by one.
use mathlib.Core.List.{append_assoc}
use redis_database_basic_imp.Prelude.{
  ◌+◌, ◌^◌, ◌<◌, ◌≡◌, ap, ◌∙◌, inl, inr, Bool-cases, true, false, ◌∷◌, arith, ltb, ltb-false,
  ltb→lt, ◌==◌,
}
use redis_database_basic_imp.Prelude.Run.{Returns}
use redis_database_basic_imp.Avl.{Ptr, AvlNode, Mem, set_right, rot_left, avl_fix_right}
use redis_database_basic_imp.Avl.Tree.{
  Tree, leaf, fork, height, size, inorder, has, IsDistinct, IsNode, IsTree, IsBalanced,
  IsTree-frame, IsTree-write, root_depth, Turned, Fixed, write_self,
}
use redis_database_basic_imp.Avl.Distinct.{flip, IsDistinct-turn_right}
use redis_database_basic_imp.Avl.RotateRight.{rot_right-Turned}
use redis_database_basic_imp.Avl.RotateLeft.{rot_left-Turned}

-- The case of one turn.
module _ (m : Mem) (parent n x : Ptr) (c b r : Tree)
    (tree : IsTree m parent (fork n r (fork x b c))) (distinct : IsDistinct (fork n r (fork x b c)))
    (small : size (fork n r (fork x b c)) < 2 ^ 32) (bal : IsBalanced (fork x b c))
    (balr : IsBalanced r) (two : height (fork x b c) ≡ height r + 2) where
  right_once :
      ltb (height c) (height b) ≡ false
      → Returns (Fixed m parent (fork n r (fork x b c))) (avl_fix_right m n)
  unfolding avl_fix_right
  right_once deep =
      let le = ltb-false (height c) (height b) deep in
      let dc = root_depth m x c tree.3.3 in
      let db = root_depth m x b tree.3.2 in
      let (res, run, t) = rot_left-Turned m parent n x r b c distinct tree.0 tree.2 tree.3 small in
      (
        res,
        rw (tree.0.right, tree.0.real, tree.3.0.real, tree.3.0.right, tree.3.0.left, dc, db, deep)
            run,
        record {
          fixed = fork x (fork n r b) c;
          turned = t;
          balanced = (
            omega (arith, le, two, bal.1, bal.0),
            omega (arith, le, two, bal.1, bal.0),
            (
              omega (arith, le, two, bal.1, bal.0),
              omega (arith, le, two, bal.1, bal.0),
              balr,
              bal.2,
            ),
            bal.3,
          );
          order = append_assoc (inorder r) (n ∷ inorder b) (x ∷ inorder c);
        },
      )

outside_parts :
    (q x y n : Ptr) (c d e r : Tree)
    → has q (fork y (fork n r e) (fork x d c)) ≡ false
    → ((q == n) ≡ false) × (has q (fork y e (fork x d c)) ≡ false)
outside_parts q x y n c d e r h = (ground arith, ground arith)

-- The case of two turns: the subtree is turned first.
module _ (m : Mem) (parent n x y : Ptr) (c d e r : Tree)
    (tree : IsTree m parent (fork n r (fork x (fork y e d) c)))
    (distinct : IsDistinct (fork n r (fork x (fork y e d) c)))
    (small : size (fork n r (fork x (fork y e d) c)) < 2 ^ 32)
    (bal : IsBalanced (fork x (fork y e d) c)) (balr : IsBalanced r)
    (two : height (fork x (fork y e d) c) ≡ height r + 2) where
  IsDistinct-turned : IsDistinct (fork n r (fork y e (fork x d c)))
  IsDistinct-turned = (
    distinct.0,
    ground (arith, distinct.1),
    (λ q i. let h = distinct.2 q i in ground arith),
    distinct.3,
    IsDistinct-turn_right x y c d e distinct.4,
  )

  module _ (p : Ptr × Mem) (t : Turned m n (fork y e (fork x d c)) p) where
    relink : Mem
    relink = set_right p.1 n p.0

    n_kept : p.1 n ≡ m n
    n_kept = t.outside n IsDistinct-turned.1

    n-IsNode : IsNode relink parent n r (fork y e (fork x d c))
    unfolding relink
    n-IsNode =
        let here = write_self p.1 n (record (p.1 n) { right = p.0 }) in
        record {
          real = tree.0.real;
          right = ap (λ (z : AvlNode). z.right) here ∙ t.at_root;
          left =
              ap (λ (z : AvlNode). z.left) here ∙ ap (λ (z : AvlNode). z.left) n_kept ∙ tree.0.left;
          up =
              ap (λ (z : AvlNode). z.parent) here
              ∙ ap (λ (z : AvlNode). z.parent) n_kept
              ∙ tree.0.up;
        }

    l-IsTree : IsTree relink n (fork y e (fork x d c))
    unfolding relink
    l-IsTree = IsTree-write p.1 n _ n (fork y e (fork x d c)) IsDistinct-turned.1 t.tree

    r-IsTree : IsTree relink n r
    unfolding relink
    r-IsTree =
        IsTree-write p.1 n _ n r distinct.0
          (IsTree-frame m p.1 n r (λ q i. t.outside q (IsDistinct-turned.2 q i)) tree.2)

    outside_relink : (q : Ptr) → has q (fork y (fork n r e) (fork x d c)) ≡ false → relink q ≡ m q
    unfolding relink
    outside_relink q h =
        let (hn, ht) = outside_parts q x y n c d e r h in rw (flip q n hn) (t.outside q ht)

    second :
        ltb (height c) (height (fork y e d)) ≡ true
        → Returns (Fixed m parent (fork n r (fork x (fork y e d) c))) (rot_left relink n)
    second deep =
        let lt = ltb→lt (height c) (height (fork y e d)) deep in
        let (res, run, u) =
          rot_left-Turned relink parent n y r e (fork x d c) IsDistinct-turned n-IsNode r-IsTree
            l-IsTree (omega (arith, small)) in
        (
          res,
          run,
          record {
            fixed = fork y (fork n r e) (fork x d c);
            turned = record {
              at_root = u.at_root;
              tree = u.tree;
              outside = λ q h. u.outside q h ∙ outside_relink q h;
            };
            balanced = (
              omega (arith, lt, two, bal.1, bal.0, bal.2.1, bal.2.0),
              omega (arith, lt, two, bal.1, bal.0, bal.2.1, bal.2.0),
              (
                omega (arith, lt, two, bal.1, bal.0, bal.2.1, bal.2.0),
                omega (arith, lt, two, bal.1, bal.0, bal.2.1, bal.2.0),
                balr,
                bal.2.2,
              ),
              (
                omega (arith, lt, two, bal.1, bal.0, bal.2.1, bal.2.0),
                omega (arith, lt, two, bal.1, bal.0, bal.2.1, bal.2.0),
                bal.2.3,
                bal.3,
              ),
            );
            order = simp append_assoc;
          },
        )

  right_twice :
      ltb (height c) (height (fork y e d)) ≡ true
      → Returns (Fixed m parent (fork n r (fork x (fork y e d) c))) (avl_fix_right m n)
  unfolding avl_fix_right relink
  right_twice deep =
      let dc = root_depth m x c tree.3.3 in
      let db = root_depth m x (fork y e d) tree.3.2 in
      let (p, run, t) =
        rot_right-Turned m n x y c d e distinct.4 tree.3.0 tree.3.3 tree.3.2
          (omega (arith, small)) in
      let (res', run', f) = second p t deep in
      (
        res',
        rw
            (
              tree.0.right, tree.0.real, tree.3.0.real, tree.3.0.right, tree.3.0.left, dc, db, deep,
              run,
            )
            run',
        f,
      )

-- `avl_fix_right` at a node whose right subtree is too high by one: the tree is balanced again.
pub avl_fix_right-Fixed :
    (m : Mem) (parent n : Ptr) (l r : Tree)
    → IsTree m parent (fork n l r)
    → IsDistinct (fork n l r)
    → size (fork n l r) < 2 ^ 32
    → IsBalanced l
    → IsBalanced r
    → height r ≡ height l + 2
    → Returns (Fixed m parent (fork n l r)) (avl_fix_right m n)
avl_fix_right-Fixed m parent n r leaf tree distinct small balr bal two = absurd (omega (arith, two))
avl_fix_right-Fixed m parent n r (fork x leaf c) tree distinct small balr bal two =
    right_once m parent n x c leaf r tree distinct small bal balr two (ground arith)
avl_fix_right-Fixed m parent n r (fork x (fork y e d) c) tree distinct small balr bal two =
    elim (Bool-cases (ltb (height c) (height (fork y e d)))) [
      | inr deep ↦ right_once m parent n x c (fork y e d) r tree distinct small bal balr two deep
      | inl deep ↦ right_twice m parent n x y c d e r tree distinct small bal balr two deep
    ]
