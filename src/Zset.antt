-- ===== src/Zset.antt =====
-- zset.h and zset.cpp: the sorted set, a tree by score and name beside a table by name.
--
-- All nodes stand in one store: the links of `tnode` are in the memory of the tree, and a `ZNode` holds
-- the rest; `fresh` is the next address that `malloc` gives. What stands in the table for a node is its
-- address with the name and the hash code. A score is the 64-bit pattern of the `double`. A loop or a
-- call that follows pointers runs on fuel.
pub mod Walk
pub mod Less
pub mod Query
pub mod Free
pub mod First
pub mod Pop
use redis_database_basic_imp.Prelude.{
  ℕ, zero, suc, ◌+◌, ◌-◌, ◌*◌, ◌%◌, ◌^◌, Bool, true, false, not, ◌&&◌, ◌||◌, Option, none, some,
  List, [], ◌∷◌, ◌++◌, ltb, leb, ◌==◌, if◌then◌else◌, length,
}
use redis_database_basic_imp.Prelude.Bytes.{Bytes, same_bytes}
use redis_database_basic_imp.Prelude.Doubles.{dbl_eq, dbl_lt}
use redis_database_basic_imp.Prelude.Run.{Run, ok, fault, out_of_fuel, check, ◌>>=◌, ◌>>◌}
use redis_database_basic_imp.Avl.{
  Ptr, null, AvlNode, Mem, write, is_null, set_left, set_right, set_parent, deref, avl_init,
  avl_count, avl_fix, avl_del,
}
use redis_database_basic_imp.HashTable.{HMap, empty_map, hm_insert, hm_lookup, hm_delete}
use redis_database_basic_imp.Hash.{str_hash}

-- `len` is the length of the name.
pub record ZNode : Type 0 where
  pub score : ℕ
  pub name : Bytes

-- A `hnode`, and the node that it stands in; or the `node` of an `HKey`.
pub record HNode : Type 0 where
  pub owner : Ptr
  pub hcode : ℕ
  pub name : Bytes

pub record ZSet : Type 0 where
  pub tree : Ptr
  pub hmap : HMap HNode

pub record Store : Type 0 where
  pub tnodes : Mem
  pub znodes : Ptr → ZNode
  pub fresh : Ptr

-- The sets, by number; `fresh_set` is the number of the next one.
pub record ZSets : Type 0 where
  pub sets : ℕ → ZSet
  pub fresh_set : ℕ
  pub store : Store

-- `ZSet{}`
abbrev pub empty_set : ZSet
empty_set = record { tree = null; hmap = empty_map }

abbrev pub hcode_of : HNode → ℕ
hcode_of n = n.hcode

pub data Cmp : Type 0 where
  less same more : Cmp

-- `memcmp` of the first `n` bytes.
abbrev pub memcmp : ℕ → Bytes → Bytes → Cmp
memcmp zero a b = same
memcmp (suc n) [] b = same
memcmp (suc n) (x ∷ xs) [] = same
memcmp (suc n) (x ∷ xs) (y ∷ ys) =
    if x == y then memcmp n xs ys else (if ltb x y then less else more)

-- What follows `memcmp` in `zless`.
abbrev pub by_cmp : Cmp → Bytes → Bytes → Bool
by_cmp less a b = true
by_cmp same a b = ltb (length a) (length b)
by_cmp more a b = false

abbrev pub min_len : Bytes → Bytes → ℕ
min_len a b = if ltb (length a) (length b) then length a else length b

unfoldable pub zless : ZNode → ZNode → Bool
zless za zb =
    let cmp = memcmp (min_len za.name zb.name) za.name zb.name in
    if dbl_eq za.score zb.score then by_cmp cmp za.name zb.name else dbl_lt za.score zb.score

-- `malloc`, and the fields of the new node.
unfoldable pub znode_new : Store → Bytes → ℕ → HNode × Store
znode_new s name score = (
  record { owner = s.fresh; hcode = str_hash name; name = name },
  record {
    tnodes = avl_init s.tnodes s.fresh;
    znodes = λ p. if s.fresh == p then record { score = score; name = name } else s.znodes p;
    fresh = s.fresh + 1;
  },
)

abbrev pub hcmp : HNode → HNode → Bool
hcmp node key = same_bytes node.name key.name

abbrev pub hkey : Bytes → HNode
hkey name = record { owner = null; hcode = str_hash name; name = name }

abbrev pub owner_of : Option HNode → Ptr
owner_of none = null
owner_of (some n) = n.owner

-- The node that is found, or null, and the set with the table that the lookup leaves.
unfoldable pub zset_lookup : ZSet → Bytes → Run (Option HNode × ZSet)
zset_lookup z name =
    let search : Run (Option HNode × ZSet) =
      hm_lookup hcode_of z.hmap (hkey name) hcmp >>= λ (found, hmap).
      ok (found, record z { hmap = hmap }) in
    if is_null z.tree then ok (none, z) else search

-- An `AVLNode **`: the root of the tree, or a child pointer of a node.
pub data Slot : Type 0 where
  at_tree : Slot
  left_of right_of : Ptr → Slot

-- `*from`
abbrev pub load_slot : ZSet → Mem → Slot → Ptr
load_slot z m at_tree = z.tree
load_slot z m (left_of p) = (m p).left
load_slot z m (right_of p) = (m p).right

-- The links after `*from = node`. The root is set anew by `tree_add`.
abbrev pub store_slot : Mem → Slot → Ptr → Mem
store_slot m at_tree node = m
store_slot m (left_of p) node = set_left m p node
store_slot m (right_of p) node = set_right m p node

-- The loop of `tree_add`: the node `cur` below which `node` goes, and the slot.
unfoldable pub find_slot : ℕ → Store → ZSet → ZNode → Ptr → Slot → Run (Ptr × Slot)
find_slot zero s z node cur from = out_of_fuel
find_slot (suc fuel) s z node cur from =
    let next = load_slot z s.tnodes from in
    let below = if zless node (s.znodes next) then left_of next else right_of next in
    let rest = find_slot fuel s z node next below in if is_null next then ok (cur, from) else rest

unfoldable pub tree_add : ℕ → Store → ZSet → Ptr → Run (Store × ZSet)
tree_add fuel s z node = do
  (cur, from) ← find_slot fuel s z (s.znodes node) null at_tree
  let m = set_parent (store_slot s.tnodes from node) node cur
  (root, m') ← avl_fix fuel m node
  ok (record s { tnodes = m' }, record z { tree = root })

abbrev pub set_score : Store → Ptr → ℕ → Store
set_score s node score = record s {
  znodes = λ p. if node == p then record (s.znodes node) { score = score } else s.znodes p;
}

unfoldable pub zset_update : ℕ → Store → ZSet → Ptr → ℕ → Run (Store × ZSet)
zset_update fuel s z node score =
    let move : Run (Store × ZSet) = do
      (root, m) ← avl_del fuel fuel s.tnodes node
      let s' = set_score (record s { tnodes = avl_init m node }) node score
      tree_add fuel s' (record z { tree = root }) node
    in if dbl_eq (s.znodes node).score score then ok (s, z) else move

-- Whether the name is new, and the set and the nodes afterwards.
unfoldable pub zset_add : ℕ → Store → ZSet → Bytes → ℕ → Run (Bool × (Store × ZSet))
zset_add fuel s z name score = zset_lookup z name >>= λ (node, z'). elim node [
  | some n ↦ zset_update fuel s z' n.owner score >>= λ r. ok (false, r)
  | none ↦ do
    let (node, s') = znode_new s name score
    hmap ← hm_insert hcode_of z'.hmap node
    r ← tree_add fuel s' (record z' { hmap = hmap }) s.fresh
    ok (true, r)
]

-- What `entry_eq` gives for two nodes in the table of a set, with the nodes as they are. It takes them
-- for `Entry` objects, which they are not: it reads the score, the length and the name of a `ZNode` as
-- a `std::string`. The language does not say what that gives, so it is a parameter.
abbrev pub RawEq : Type 0
RawEq = Store → HNode → HNode → Bool

-- What follows the lookup in `zset_pop`.
unfoldable pub pop_found :
    RawEq → ℕ → Store → Option HNode × ZSet → Run (Option HNode × (Store × ZSet))
pop_found raw_eq fuel s (none, z) = ok (none, (s, z))
pop_found raw_eq fuel s (some n, z) = do
  (root, m) ← avl_del fuel fuel s.tnodes n.owner
  let s' = record s { tnodes = m }
  (gone, hmap) ← hm_delete hcode_of z.hmap n (raw_eq s')
  ok (some n, (s', record z { tree = root; hmap = hmap }))

-- The node that is taken out, or null.
unfoldable pub zset_pop : RawEq → ℕ → Store → ZSet → Bytes → Run (Option HNode × (Store × ZSet))
zset_pop raw_eq fuel s z name = zset_lookup z name >>= λ r. pop_found raw_eq fuel s r

-- The loop of `zset_query`.
unfoldable pub query_loop : ℕ → Store → ZNode → Ptr → Ptr → Run Ptr
query_loop zero s temp cur found = out_of_fuel
query_loop (suc fuel) s temp cur found =
    let up = query_loop fuel s temp (s.tnodes cur).right found in
    let down = query_loop fuel s temp (s.tnodes cur).left cur in
    if is_null cur then ok found else (if zless (s.znodes cur) temp then up else down)

-- `temp` has no room for a name: `memcpy` of the name writes past its end.
unfoldable pub zset_query : ℕ → Store → ZSet → ℕ → Bytes → Run Ptr
zset_query fuel s z score name =
    check (length name == 0)
    >> query_loop fuel s (record { score = score; name = name }) z.tree null
