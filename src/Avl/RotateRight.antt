-- ===== src/Avl/RotateRight.antt =====
-- `rot_right` turns a tree to the right, and keeps the order of its nodes.
use redis_database_basic_imp.Prelude.{◌^◌, ◌<◌, ◌≡◌, refl, ap, ◌∙◌, false, arith, ◌==◌}
use redis_database_basic_imp.Prelude.Run.{ok, Returns}
use redis_database_basic_imp.Avl.{
  Ptr, AvlNode, Mem, adopt, avl_update, relink_right, rot_right, rot_right,
}
use redis_database_basic_imp.Avl.Tree.{
  Tree, fork, root, size, has, Apart, IsDistinct, IsNode, IsTree, IsTree-frame, IsTree-write,
  IsTree-adopt, avl_update-IsTree, IsNode-write, Turned, adopt_other,
}
use redis_database_basic_imp.Avl.Distinct.{differs, self, flip, Apart-sym}

-- The writes of `rot_right`, in any memory.
module _ (m : Mem) (n x : Ptr) (other : (n == x) ≡ false) where
  relink_right_n : relink_right m n x n ≡ record (m n) { left = (m x).right; parent = x }
  unfolding relink_right
  relink_right_n = rw (other, flip n x other, self n) refl

  relink_right_x : relink_right m n x x ≡ record (m x) { right = n; parent = (m n).parent }
  unfolding relink_right
  relink_right_x = rw (other, flip n x other, self n, self x) refl

  relink_right_other : (q : Ptr) → (q == n) ≡ false → (q == x) ≡ false → relink_right m n x q ≡ m q
  unfolding relink_right
  relink_right_other q hn hx = rw (flip q n hn, flip q x hx) refl

module _ (m : Mem) (parent n x : Ptr) (a b c : Tree) (distinct : IsDistinct (fork n (fork x c b) a))
    (nn : IsNode m parent n (fork x c b) a) (ha : IsTree m n a) (hx : IsTree m n (fork x c b))
    (small : size (fork n (fork x c b) a) < 2 ^ 32) where
  out_n_b : has n b ≡ false
  out_n_b = ground (arith, distinct.0)

  out_x_b : has x b ≡ false
  out_x_b = ground (arith, distinct.3)

  other : (n == x) ≡ false
  other = ground (arith, distinct.0)

  -- The subtree `b` moves below `n`.
  with_b : Mem
  with_b = adopt m (m x).right n

  relinked : Mem
  unfolding with_b
  relinked = relink_right with_b n x

  with_b-root : with_b ≡ adopt m (root b) n
  unfolding with_b
  with_b-root = ap (λ p. adopt m p n) hx.0.right

  with_b_other : (q : Ptr) → has q b ≡ false → with_b q ≡ m q
  with_b_other q h = ap (λ (m' : Mem). m' q) with_b-root ∙ adopt_other m b n q h

  relinked_other : (q : Ptr) → (q == n) ≡ false → (q == x) ≡ false → relinked q ≡ with_b q
  unfolding relinked
  relinked_other q hn hx = relink_right_other with_b n x other q hn hx

  n_after : relinked n ≡ record (m n) { left = (m x).right; parent = x }
  unfolding relinked
  n_after =
      relink_right_n with_b n x other
      ∙ ap (λ (y : AvlNode). record y { left = (with_b x).right; parent = x })
          (with_b_other n out_n_b)
      ∙ ap (λ (y : AvlNode). record (m n) { left = y.right; parent = x }) (with_b_other x out_x_b)

  x_after : relinked x ≡ record (m x) { right = n; parent = (m n).parent }
  unfolding relinked
  x_after =
      relink_right_x with_b n x other
      ∙ ap (λ (y : AvlNode). record y { right = n; parent = (with_b n).parent })
          (with_b_other x out_x_b)
      ∙ ap (λ (y : AvlNode). record (m x) { right = n; parent = y.parent }) (with_b_other n out_n_b)

  keeps :
      (t : Tree) (p : Ptr)
      → has n t ≡ false
      → has x t ≡ false
      → Apart t b
      → IsTree m p t
      → IsTree relinked p t
  keeps t p hn hx apart h =
      IsTree-frame m relinked p t
        (λ q i.
          relinked_other q (differs n q t hn i) (differs x q t hx i) ∙ with_b_other q (apart q i))
        h

  rot_right_run : rot_right m n ≡ ok (x, avl_update (avl_update relinked n) x)
  unfolding rot_right relinked with_b
  rot_right_run = rw (nn.left, nn.real, hx.0.real) refl

  n-IsNode : IsNode relinked x n b a
  n-IsNode = record {
    real = nn.real;
    right = ap (λ (y : AvlNode). y.right) n_after ∙ nn.right;
    left = ap (λ (y : AvlNode). y.left) n_after ∙ hx.0.right;
    up = ap (λ (y : AvlNode). y.parent) n_after;
  }

  x-IsNode : IsNode relinked parent x c (fork n b a)
  x-IsNode = record {
    real = hx.0.real;
    right = ap (λ (y : AvlNode). y.right) x_after;
    left = ap (λ (y : AvlNode). y.left) x_after ∙ hx.0.left;
    up = ap (λ (y : AvlNode). y.parent) x_after ∙ nn.up;
  }

  b-IsTree : IsTree relinked n b
  b-IsTree =
      IsTree-frame (adopt m (root b) n) relinked n b
        (λ q i.
          relinked_other q (differs n q b out_n_b i) (differs x q b out_x_b i)
          ∙ ap (λ (m' : Mem). m' q) with_b-root)
        (IsTree-adopt m x n b distinct.3.4 hx.3)

  out_x_a : has x a ≡ false
  out_x_a = let e = self x in distinct.2 x (ground arith)

  out_n_c : has n c ≡ false
  out_n_c = ground (arith, distinct.0)

  out_x_n_a-b : has x (fork n b a) ≡ false
  out_x_n_a-b = ground (arith, flip n x other, out_x_a, out_x_b)

  IsNode-kept : IsNode (avl_update relinked n) parent x c (fork n b a)
  unfolding avl_update
  IsNode-kept = IsNode-write relinked n _ parent x c (fork n b a) other x-IsNode

  n-IsTree : IsTree (avl_update relinked n) x (fork n b a)
  n-IsTree =
      avl_update-IsTree relinked x n b a (omega (arith, small)) out_n_b distinct.1 n-IsNode b-IsTree
        (keeps a n distinct.1 out_x_a
          (λ q i. let out = Apart-sym (fork x c b) a distinct.2 q i in ground arith) ha)

  c-IsTree : IsTree (avl_update relinked n) x c
  unfolding avl_update
  c-IsTree =
      IsTree-write relinked n _ x c out_n_c (keeps c x out_n_c distinct.3.0 distinct.3.2 hx.2)

  all : IsTree (avl_update (avl_update relinked n) x) parent (fork x c (fork n b a))
  all =
      avl_update-IsTree (avl_update relinked n) parent x c (fork n b a) (omega (arith, small))
        distinct.3.0 out_x_n_a-b IsNode-kept c-IsTree n-IsTree

  untouched :
      (q : Ptr)
      → has q (fork x c (fork n b a)) ≡ false
      → avl_update (avl_update relinked n) x q ≡ m q
  unfolding avl_update
  untouched q h =
      let hn : (q == n) ≡ false = ground arith in
      let hx' : (q == x) ≡ false = ground arith in
      rw (flip q x hx', flip q n hn) (relinked_other q hn hx' ∙ with_b_other q (ground arith))

  -- `rot_right` at a node with a left child returns that child, and leaves the tree turned to the right,
  -- with the same nodes in the same order, the measures right, and nothing else changed.
  pub rot_right-Turned : Returns (Turned m parent (fork x c (fork n b a))) (rot_right m n)
  rot_right-Turned = (
    (x, avl_update (avl_update relinked n) x),
    rot_right_run,
    record { at_root = refl; tree = all; outside = untouched },
  )
