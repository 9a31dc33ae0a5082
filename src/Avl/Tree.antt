-- ===== src/Avl/Tree.antt =====
-- Trees in the memory: what the pointers of AVL.cpp stand for.
use Prim.Native.Nat.{max}
use mathlib.Core.Path.{subst}
use redis_database_basic_imp.Prelude.{
  ℕ, ◌+◌, ◌%◌, ◌^◌, ◌≤◌, ◌<◌, ◌≡◌, refl, ap, ◌∙◌, Bool, true, false, ◌||◌, List, [], ◌∷◌, ◌++◌,
  arith, ◌==◌,
}
use redis_database_basic_imp.Avl.{
  Ptr, null, AvlNode, Mem, write, is_null, set_parent, adopt, avl_depth, avl_count, avl_update,
}

-- The shape of a tree, with the pointers to its nodes.
pub data Tree : Type 0 where
  leaf : Tree
  fork : Ptr → Tree → Tree → Tree

abbrev pub root : Tree → Ptr
root leaf = null
root (fork n l r) = n

abbrev pub height : Tree → ℕ
height leaf = 0
height (fork n l r) = 1 + max (height l) (height r)

abbrev pub size : Tree → ℕ
size leaf = 0
size (fork n l r) = 1 + size l + size r

-- The nodes from left to right.
abbrev pub inorder : Tree → List Ptr
inorder leaf = []
inorder (fork n l r) = inorder l ++ (n ∷ inorder r)

abbrev pub has : Ptr → Tree → Bool
has a leaf = false
has a (fork n l r) = (a == n) || (has a l || has a r)

abbrev pub Apart : Tree → Tree → Type 0
Apart l r = (a : Ptr) → has a l ≡ true → has a r ≡ false

-- No node stands twice in the tree.
abbrev pub IsDistinct : Tree → Type 0
IsDistinct leaf = Unit
IsDistinct (fork n l r) =
    (has n l ≡ false) × (has n r ≡ false) × Apart l r × IsDistinct l × IsDistinct r

-- What the node `n` of a tree holds: its links, and the measures of the tree.
pub record IsNode (m : Mem) (parent n : Ptr) (l r : Tree) : Type 0 where
  pub real : is_null n ≡ false
  pub left : (m n).left ≡ root l
  pub right : (m n).right ≡ root r
  pub up : (m n).parent ≡ parent

pub record IsMeasured (m : Mem) (n : Ptr) (l r : Tree) : Type 0 where
  pub depth : (m n).depth ≡ height (fork n l r)
  pub count : (m n).count ≡ size (fork n l r)

-- The memory holds the tree below the node `parent`, and its depths and counts.
abbrev pub IsTree : Mem → Ptr → Tree → Type 0
IsTree m parent leaf = Unit
IsTree m parent (fork n l r) =
    IsNode m parent n l r × IsMeasured m n l r × IsTree m n l × IsTree m n r

-- The difference of the heights is at most one at every node.
abbrev pub IsBalanced : Tree → Type 0
IsBalanced leaf = Unit
IsBalanced (fork n l r) =
    (height l ≤ 1 + height r) × (height r ≤ 1 + height l) × IsBalanced l × IsBalanced r

pub IsTree-frame :
    (m m' : Mem) (parent : Ptr) (t : Tree)
    → ((a : Ptr) → has a t ≡ true → m' a ≡ m a)
    → IsTree m parent t
    → IsTree m' parent t
IsTree-frame m m' parent leaf same h = tt
IsTree-frame m m' parent (fork n l r) same (node, measured, hl, hr) =
    let here = same n (ground arith) in
    (
      record {
        real = node.real;
        left = rw here node.left;
        right = rw here node.right;
        up = rw here node.up;
      },
      record { depth = rw here measured.depth; count = rw here measured.count },
      IsTree-frame m m' n l (λ a i. same a (ground arith)) hl,
      IsTree-frame m m' n r (λ a i. same a (ground arith)) hr,
    )

-- A write elsewhere.
pub IsTree-write :
    (m : Mem) (p : Ptr) (x : AvlNode) (parent : Ptr) (t : Tree)
    → has p t ≡ false
    → IsTree m parent t
    → IsTree (write m p x) parent t
IsTree-write m p x parent t out h = IsTree-frame m (write m p x) parent t (λ a i. ground arith) h

pub write_self : (m : Mem) (p : Ptr) (x : AvlNode) → write m p x p ≡ x
write_self m p x = let self : (p == p) ≡ true = ground arith in rw self refl

set_parent-IsTree :
    (m : Mem) (parent new n : Ptr) (l r : Tree)
    → has n l ≡ false
    → has n r ≡ false
    → IsTree m parent (fork n l r)
    → IsTree (set_parent m n new) new (fork n l r)
set_parent-IsTree m parent new n l r nl nr (node, measured, hl, hr) =
    let here = write_self m n (record (m n) { parent = new }) in
    (
      record {
        real = node.real;
        left = ap (λ (x : AvlNode). x.left) here ∙ node.left;
        right = ap (λ (x : AvlNode). x.right) here ∙ node.right;
        up = ap (λ (x : AvlNode). x.parent) here;
      },
      record {
        depth = ap (λ (x : AvlNode). x.depth) here ∙ measured.depth;
        count = ap (λ (x : AvlNode). x.count) here ∙ measured.count;
      },
      IsTree-write m n _ n l nl hl,
      IsTree-write m n _ n r nr hr,
    )

-- The tree under another node.
pub IsTree-adopt :
    (m : Mem) (parent new : Ptr) (t : Tree)
    → IsDistinct t
    → IsTree m parent t
    → IsTree (adopt m (root t) new) new t
IsTree-adopt m parent new leaf d h = tt
IsTree-adopt m parent new (fork n l r) (nl, nr, apart, dl, dr) (node, measured, hl, hr) =
    let e : set_parent m n new ≡ adopt m n new = rw (node.real) refl in
    subst (λ (m' : Mem). IsTree m' new (fork n l r)) e
      (set_parent-IsTree m parent new n l r nl nr (node, measured, hl, hr))

pub root_depth :
    (m : Mem) (parent : Ptr) (t : Tree) → IsTree m parent t → avl_depth m (root t) ≡ height t
root_depth m parent leaf h = refl
root_depth m parent (fork n l r) (node, measured, hl, hr) = rw (node.real) measured.depth

pub root_count :
    (m : Mem) (parent : Ptr) (t : Tree) → IsTree m parent t → avl_count m (root t) ≡ size t
root_count m parent leaf h = refl
root_count m parent (fork n l r) (node, measured, hl, hr) = rw (node.real) measured.count

pub height-le-size : (t : Tree) → height t ≤ size t
height-le-size leaf = omega arith
height-le-size (fork n l r) = omega (arith, height-le-size l, height-le-size r)

-- `avl_update` measures a node whose subtrees are measured.
pub avl_update-IsTree :
    (m : Mem) (parent n : Ptr) (l r : Tree)
    → size (fork n l r) < 2 ^ 32
    → has n l ≡ false
    → has n r ≡ false
    → IsNode m parent n l r
    → IsTree m n l
    → IsTree m n r
    → IsTree (avl_update m n) parent (fork n l r)
unfolding avl_update
avl_update-IsTree m parent n l r small nl nr node hl hr =
    let here = write_self m n (record (m n) {
      depth = (1 + max (avl_depth m (m n).left) (avl_depth m (m n).right)) % 2 ^ 32;
      count = (1 + avl_count m (m n).left + avl_count m (m n).right) % 2 ^ 32;
    }) in
    let dl = ap (avl_depth m) node.left ∙ root_depth m n l hl in
    let dr = ap (avl_depth m) node.right ∙ root_depth m n r hr in
    let cl = ap (avl_count m) node.left ∙ root_count m n l hl in
    let cr = ap (avl_count m) node.right ∙ root_count m n r hr in
    (
      record {
        real = node.real;
        left = ap (λ (x : AvlNode). x.left) here ∙ node.left;
        right = ap (λ (x : AvlNode). x.right) here ∙ node.right;
        up = ap (λ (x : AvlNode). x.parent) here ∙ node.up;
      },
      record {
        depth =
            ap (λ (x : AvlNode). x.depth) here
            ∙ omega (arith, dl, dr, height-le-size l, height-le-size r, small);
        count = ap (λ (x : AvlNode). x.count) here ∙ omega (arith, cl, cr, small);
      },
      IsTree-write m n _ n l nl hl,
      IsTree-write m n _ n r nr hr,
    )

-- The links of a node after a write to another one.
pub IsNode-write :
    (m : Mem) (p : Ptr) (x : AvlNode) (parent n : Ptr) (l r : Tree)
    → (p == n) ≡ false
    → IsNode m parent n l r
    → IsNode (write m p x) parent n l r
IsNode-write m p x parent n l r other node = record {
  real = node.real;
  left = rw other node.left;
  right = rw other node.right;
  up = rw other node.up;
}

-- The memory `m'` holds the tree `t`, and is `m` outside it.
pub record Turned (m : Mem) (parent : Ptr) (t : Tree) (r : Ptr × Mem) : Type 0 where
  pub at_root : r.0 ≡ root t
  pub tree : IsTree r.1 parent t
  pub outside : (a : Ptr) → has a t ≡ false → r.1 a ≡ m a

pub adopt_other :
    (m : Mem) (t : Tree) (new q : Ptr) → has q t ≡ false → adopt m (root t) new q ≡ m q
adopt_other m leaf new q h = refl
adopt_other m (fork n l r) new q h = ground arith

-- The tree `t` is balanced, has the nodes of `t0` in the same order, and stands in the memory.
pub record Fixed (m : Mem) (parent : Ptr) (t0 : Tree) (r : Ptr × Mem) : Type 0 where
  pub fixed : Tree
  pub turned : Turned m parent fixed r
  pub balanced : IsBalanced fixed
  pub order : inorder fixed ≡ inorder t0
