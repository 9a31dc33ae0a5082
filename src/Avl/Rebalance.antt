-- ===== src/Avl/Rebalance.antt =====
-- `rebalance`, a round of `avl_fix`: what it gains at a node, and what it breaks above it.
use redis_database_basic_imp.Prelude.{
  ◌+◌, ◌%◌, ◌^◌, ◌≤◌, ◌<◌, ◌≡◌, refl, sym, ap, ◌∙◌, inl, inr, Bool-cases, false, arith, ◌==◌, ◌∷◌,
}
use redis_database_basic_imp.Prelude.Members.{in_list, in_list-append}
use redis_database_basic_imp.Prelude.Run.{Returns}
use redis_database_basic_imp.Avl.{Ptr, Mem, avl_depth, avl_update, rebalance}
use redis_database_basic_imp.Avl.Tree.{
  Tree, leaf, fork, height, size, inorder, has, IsDistinct, IsNode, IsTree, IsBalanced, root_depth,
  avl_update-IsTree, height-le-size, Fixed,
}
use redis_database_basic_imp.Avl.Distinct.{flip}
use redis_database_basic_imp.Avl.FixLeft.{avl_fix_left-Fixed}
use redis_database_basic_imp.Avl.FixRight.{avl_fix_right-Fixed}

has-inorder : (q : Ptr) (t : Tree) → has q t ≡ in_list q (inorder t)
has-inorder q leaf = refl
has-inorder q (fork n l r) =
    ground (arith, in_list-append q (inorder l) (n ∷ inorder r), has-inorder q l, has-inorder q r)

-- Two trees with the same list of nodes have the same nodes.
pub same_nodes : (q : Ptr) (t t' : Tree) → inorder t ≡ inorder t' → has q t ≡ has q t'
same_nodes q t t' h = has-inorder q t ∙ ap (in_list q) h ∙ sym (has-inorder q t')

module _ (m : Mem) (parent n : Ptr) (l r : Tree) (node : IsNode m parent n l r) (hl : IsTree m n l)
    (hr : IsTree m n r) (distinct : IsDistinct (fork n l r))
    (small : size (fork n l r) + 2 < 2 ^ 32) (ball : IsBalanced l) (balr : IsBalanced r)
    (near : (height l ≤ height r + 2) × (height r ≤ height l + 2)) where
  abbrev measured : Mem
  measured = avl_update m n

  whole : IsTree measured parent (fork n l r)
  whole = avl_update-IsTree m parent n l r (omega (arith, small)) distinct.0 distinct.1 node hl hr

  outside : (q : Ptr) → has q (fork n l r) ≡ false → measured q ≡ m q
  unfolding avl_update
  outside q h = let hn : (q == n) ≡ false = ground arith in rw (flip q n hn) refl

  dl : avl_depth measured (measured n).left ≡ height l
  dl = ap (avl_depth measured) whole.0.left ∙ root_depth measured n l whole.2

  dr : avl_depth measured (measured n).right ≡ height r
  dr = ap (avl_depth measured) whole.0.right ∙ root_depth measured n r whole.3

  no_wrap_l : (height l + 2) % 2 ^ 32 ≡ height l + 2
  no_wrap_l = omega (arith, small, height-le-size l)

  no_wrap_r : (height r + 2) % 2 ^ 32 ≡ height r + 2
  no_wrap_r = omega (arith, small, height-le-size r)

  -- The node outside the tree are those of `m`.
  from_measured :
      (res : Ptr × Mem) → Fixed measured parent (fork n l r) res → Fixed m parent (fork n l r) res
  from_measured res f = record {
    fixed = f.fixed;
    turned = record {
      at_root = f.turned.at_root;
      tree = f.turned.tree;
      outside = λ q h.
          f.turned.outside q h ∙ outside q (sym (same_nodes q f.fixed (fork n l r) f.order) ∙ h);
    };
    balanced = f.balanced;
    order = f.order;
  }

  -- A round of `avl_fix` at a node whose subtrees are balanced, with heights that differ by two at
  -- most, gives a balanced tree with the same nodes in the same order; its depths, counts and parent
  -- links are right, and no node outside it is changed.
  pub rebalance-Fixed : Returns (Fixed m parent (fork n l r)) (rebalance m n)
  unfolding rebalance
  rebalance-Fixed = elim (Bool-cases (height l == height r + 2)) [
    | inl high ↦
        let (res, run, f) =
          avl_fix_left-Fixed measured parent n l r whole distinct (omega (arith, small)) ball balr
            (ground arith) in
        (res, rw (node.real, dl, dr, no_wrap_r, high) run, from_measured res f)
    | inr not_left ↦ elim (Bool-cases (height l + 2 == height r)) [
      | inl high ↦
          let (res, run, f) =
            avl_fix_right-Fixed measured parent n l r whole distinct (omega (arith, small)) ball
              balr (ground arith) in
          (
            res,
            rw (node.real, dl, dr, no_wrap_r, no_wrap_l, not_left, high) run,
            from_measured res f,
          )
      | inr not_right ↦ (
        (n, measured),
        rw (node.real, dl, dr, no_wrap_r, no_wrap_l, not_left, not_right) refl,
        record {
          fixed = fork n l r;
          turned = record { at_root = refl; tree = whole; outside = outside };
          balanced = (ground (arith, near.0), ground (arith, near.1), ball, balr);
          order = refl;
        },
      )
    ]
  ]
