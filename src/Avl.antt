-- ===== src/Avl.antt =====
-- AVL.h and AVL.cpp: the balanced tree with parent links.
--
-- A pointer is a number, 0 is the null pointer, and the memory gives the node at every other number;
-- following a null pointer is a fault. `depth` and `count` are `uint32_t`.
pub mod Tree
pub mod Distinct
pub mod RotateLeft
pub mod RotateRight
pub mod FixLeft
pub mod FixRight
pub mod Rebalance
pub mod Torn
use Prim.Native.Nat.{max}
use redis_database_basic_imp.Prelude.{
  ℕ, zero, suc, ◌+◌, ◌%◌, ◌^◌, Bool, true, false, not, ◌&&◌, ◌||◌, ltb, leb, ◌==◌, if◌then◌else◌,
}
use redis_database_basic_imp.Prelude.Run.{Run, ok, out_of_fuel, check, ◌>>=◌, ◌>>◌}

abbrev pub Ptr : Type 0
Ptr = ℕ

abbrev pub null : Ptr
null = 0

pub record AvlNode : Type 0 where
  pub depth : ℕ
  pub count : ℕ
  pub left : Ptr
  pub right : Ptr
  pub parent : Ptr

abbrev pub Mem : Type 0
Mem = Ptr → AvlNode

abbrev pub write : Mem → Ptr → AvlNode → Mem
write m p n a = if p == a then n else m a

abbrev pub is_null : Ptr → Bool
is_null p = p == null

abbrev pub set_left : Mem → Ptr → Ptr → Mem
set_left m p q = write m p (record (m p) { left = q })

abbrev pub set_right : Mem → Ptr → Ptr → Mem
set_right m p q = write m p (record (m p) { right = q })

abbrev pub set_parent : Mem → Ptr → Ptr → Mem
set_parent m p q = write m p (record (m p) { parent = q })

-- `if (p) p->parent = q;`
abbrev pub adopt : Mem → Ptr → Ptr → Mem
adopt m p q = if is_null p then m else set_parent m p q

-- A pointer that is followed.
abbrev pub deref : Ptr → Run (Unit {0})
deref p = check (not (is_null p))

abbrev pub avl_init : Mem → Ptr → Mem
avl_init m p = write m p (record { depth = 1; count = 1; left = null; right = null; parent = null })

abbrev pub avl_depth : Mem → Ptr → ℕ
avl_depth m p = if is_null p then 0 else (m p).depth

abbrev pub avl_count : Mem → Ptr → ℕ
avl_count m p = if is_null p then 0 else (m p).count

unfoldable pub avl_update : Mem → Ptr → Mem
avl_update m p = write m p (record (m p) {
  depth = (1 + max (avl_depth m (m p).left) (avl_depth m (m p).right)) % 2 ^ 32;
  count = (1 + avl_count m (m p).left + avl_count m (m p).right) % 2 ^ 32;
})

-- The writes of `rot_left` to the two nodes, but those of the measures.
unfoldable pub relink_left : Mem → Ptr → Ptr → Mem
relink_left m1 node new_node =
    let m2 = set_right m1 node (m1 new_node).left in
    let m3 = set_left m2 new_node node in
    let m4 = set_parent m3 new_node (m3 node).parent in set_parent m4 node new_node

unfoldable pub rot_left : Mem → Ptr → Run (Ptr × Mem)
rot_left m node =
    let new_node = (m node).right in
    let turned = relink_left (adopt m (m new_node).left node) node new_node in
    deref node >> deref new_node >> ok (new_node, avl_update (avl_update turned node) new_node)

-- The writes of `rot_right` to the two nodes, but those of the measures.
unfoldable pub relink_right : Mem → Ptr → Ptr → Mem
relink_right m1 node new_node =
    let m2 = set_left m1 node (m1 new_node).right in
    let m3 = set_right m2 new_node node in
    let m4 = set_parent m3 new_node (m3 node).parent in set_parent m4 node new_node

unfoldable pub rot_right : Mem → Ptr → Run (Ptr × Mem)
rot_right m node =
    let new_node = (m node).left in
    let turned = relink_right (adopt m (m new_node).right node) node new_node in
    deref node >> deref new_node >> ok (new_node, avl_update (avl_update turned node) new_node)

unfoldable pub avl_fix_left : Mem → Ptr → Run (Ptr × Mem)
avl_fix_left m root = do
  let l = (m root).left
  deref root >> deref l
  let twice : Run (Ptr × Mem) = rot_left m l >>= λ (n, m'). rot_right (set_left m' root n) root
  if ltb (avl_depth m (m l).left) (avl_depth m (m l).right) then twice else rot_right m root

unfoldable pub avl_fix_right : Mem → Ptr → Run (Ptr × Mem)
avl_fix_right m root = do
  let r = (m root).right
  deref root >> deref r
  let twice : Run (Ptr × Mem) = rot_right m r >>= λ (n, m'). rot_left (set_right m' root n) root
  if ltb (avl_depth m (m r).right) (avl_depth m (m r).left) then twice else rot_left m root

-- A round of the loop of `avl_fix` up to the test of the parent.
unfoldable pub rebalance : Mem → Ptr → Run (Ptr × Mem)
rebalance m node = do
  deref node
  let m' = avl_update m node
  let l = avl_depth m' (m' node).left
  let r = avl_depth m' (m' node).right
  if l == (r + 2) % 2 ^ 32
      then avl_fix_left m' node
      else (if (l + 2) % 2 ^ 32 == r then avl_fix_right m' node else ok (node, m'))

-- The loop of `avl_fix`. The parent that is tested was read before the rotation.
unfoldable pub avl_fix : ℕ → Mem → Ptr → Run (Ptr × Mem)
avl_fix zero m node = out_of_fuel
avl_fix (suc fuel) m node = rebalance m node >>= λ (n, m').
    let next = avl_fix fuel m' (m' n).parent in if is_null (m node).parent then ok (n, m') else next

-- `(parent->left == node ? parent->left : parent->right) = to`
abbrev pub replace_child : Mem → Ptr → Ptr → Ptr → Mem
replace_child m parent node to =
    if (m parent).left == node then set_left m parent to else set_right m parent to

-- `avl_del` of a node with no right subtree.
unfoldable pub del_top : ℕ → Mem → Ptr → Run (Ptr × Mem)
del_top fuel m node =
    let parent = (m node).parent in
    let left = (m node).left in
    let m' = adopt m left parent in
    if is_null parent
    then ok (left, m')
    else avl_fix fuel (replace_child m' parent node left) parent

-- The leftmost node below `victim`.
unfoldable pub leftmost : ℕ → Mem → Ptr → Run Ptr
leftmost zero m victim = out_of_fuel
leftmost (suc fuel) m victim =
    let rest = leftmost fuel m (m victim).left in
    if is_null (m victim).left then ok victim else rest

-- `depth` bounds the nesting of the calls: the victim may have a right subtree in turn.
unfoldable pub avl_del : ℕ → ℕ → Mem → Ptr → Run (Ptr × Mem)
avl_del zero fuel m node = out_of_fuel
avl_del (suc depth) fuel m node =
    let swap : Run (Ptr × Mem) = do
      victim ← leftmost fuel m (m node).right
      (root, m1) ← avl_del depth fuel m victim
      let m2 = write m1 victim (m1 node)
      let m3 = adopt m2 (m2 victim).left victim
      let m4 = adopt m3 (m3 victim).right victim
      let parent = (m4 node).parent
      if is_null parent then ok (victim, m4) else ok (root, replace_child m4 parent node victim)
    in deref node >> (if is_null (m node).right then del_top fuel m node else swap)
