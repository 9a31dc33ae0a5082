-- ===== src/Zset/Walk.antt =====
-- zset.cpp: the walk from a node to the one at an offset from it, and the destructor of a set.
use redis_database_basic_imp.Prelude.{
  ℕ, zero, suc, ◌+◌, ◌-◌, ◌%◌, ◌^◌, Bool, ◌&&◌, List, [], ◌∷◌, ◌++◌, ltb, leb, ◌==◌, if◌then◌else◌,
}
use redis_database_basic_imp.Prelude.Doubles.{to_double}
use redis_database_basic_imp.Prelude.Run.{Run, ok, out_of_fuel, ◌>>=◌, ◌>>◌}
use redis_database_basic_imp.Avl.{Ptr, null, Mem, is_null, deref, avl_count}
use redis_database_basic_imp.Zset.{ZSet}

-- A position is an `int64_t` plus 2^63, as is an offset, which is a `double`.
abbrev pub pos_zero : ℕ
pos_zero = 2 ^ 63

abbrev pub pos_add : ℕ → ℕ → ℕ
pos_add pos n = (pos + n) % 2 ^ 64

abbrev pub pos_sub : ℕ → ℕ → ℕ
pos_sub pos n = (pos + 2 ^ 64 - n) % 2 ^ 64

-- `(pos < offset) & (pos + avl_count(right) >= offset)`
abbrev pub is_in_right : ℕ → ℕ → ℕ → Bool
is_in_right pos count offset =
    ltb (to_double pos) offset && leb offset (to_double (pos_add pos count))

-- `(pos > offset) & (pos - avl_count(left) <= offset)`
abbrev pub is_in_left : ℕ → ℕ → ℕ → Bool
is_in_left pos count offset =
    ltb offset (to_double pos) && leb (to_double (pos_sub pos count)) offset

-- The loop of `avl_offset`, from the position `pos` on.
unfoldable pub offset_loop : ℕ → Mem → ℕ → ℕ → Ptr → Run Ptr
offset_loop zero m offset pos node = out_of_fuel
offset_loop (suc fuel) m offset pos node =
    let l = (m node).left in
    let r = (m node).right in
    let p = (m node).parent in
    let lefts = avl_count m l + 1 in
    let rights = avl_count m r + 1 in
    let to_right =
      deref r >> offset_loop fuel m offset (pos_add pos (avl_count m (m r).left + 1)) r in
    let to_left =
      deref l >> offset_loop fuel m offset (pos_sub pos (avl_count m (m l).right + 1)) l in
    let pos' = if (m p).right == node then pos_sub pos lefts else pos_add pos rights in
    let up = offset_loop fuel m offset pos' p in
    let to_parent = if is_null p then ok null else up in
    let inner = if is_in_left pos (avl_count m l) offset then to_left else to_parent in
    let step = if is_in_right pos (avl_count m r) offset then to_right else inner in
    let from_node = deref node >> step in if to_double pos == offset then ok node else from_node

unfoldable pub avl_offset : ℕ → Mem → Ptr → ℕ → Run Ptr
unfolding offset_loop
avl_offset fuel m node offset = offset_loop fuel m offset pos_zero node

-- `offset` is an `int64_t` plus 2^63.
unfoldable pub znode_offset : ℕ → Mem → Ptr → ℕ → Run Ptr
unfolding avl_offset
znode_offset fuel m node offset =
    let walk = avl_offset fuel m node (to_double offset) in if is_null node then ok null else walk

-- The nodes that are freed, in the order of the calls of `free`.
unfoldable pub free_avl_nodes : ℕ → Mem → Ptr → Run (List Ptr)
free_avl_nodes zero m node = out_of_fuel
free_avl_nodes (suc fuel) m node =
    let both : Run (List Ptr) = do
      ls ← free_avl_nodes fuel m (m node).left
      rs ← free_avl_nodes fuel m (m node).right
      ok (ls ++ (rs ++ (node ∷ [])))
    in if is_null node then ok [] else both

-- The destructor of a set.
unfoldable pub zset_free : ℕ → Mem → ZSet → Run (List Ptr × ZSet)
zset_free fuel m z = free_avl_nodes fuel m z.tree >>= λ freed. ok (freed, record z { tree = null })
