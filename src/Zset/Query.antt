-- ===== src/Zset/Query.antt =====
-- The loop of `zset_query` against a scan of the nodes in order.
use redis_database_basic_imp.Prelude.{
  ℕ, zero, suc, ◌<◌, ◌≡◌, refl, ap, sym, ◌∙◌, inl, inr, true, Bool-cases, List, [], ◌∷◌, ◌++◌,
  if◌then◌else◌, arith,
}
use redis_database_basic_imp.Prelude.Run.{ok}
use redis_database_basic_imp.Avl.{Ptr}
use redis_database_basic_imp.Avl.Tree.{Tree, leaf, fork, root, height, inorder, has, IsTree}
use redis_database_basic_imp.Zset.{ZNode, Store, zless, query_loop}
use redis_database_basic_imp.Zset.Less.{zless_trans}

-- The first node of a list that is not less than `temp`, or `found` if there is none.
abbrev pub first_not_less : Store → ZNode → List Ptr → Ptr → Ptr
first_not_less s temp [] found = found
first_not_less s temp (p ∷ ps) found =
    let rest = first_not_less s temp ps found in if zless (s.znodes p) temp then rest else p

-- At every node, those to the left are less, and those to the right more.
abbrev pub IsSorted : Store → Tree → Type 0
IsSorted s leaf = Unit
IsSorted s (fork n l r) =
    ((q : Ptr) → has q l ≡ true → zless (s.znodes q) (s.znodes n) ≡ true)
    × ((q : Ptr) → has q r ≡ true → zless (s.znodes n) (s.znodes q) ≡ true)
    × IsSorted s l
    × IsSorted s r

module _ (s : Store) (temp : ZNode) where
  first_not_less-append :
      (ps qs : List Ptr) (found : Ptr)
      → first_not_less s temp (ps ++ qs) found
        ≡ first_not_less s temp ps (first_not_less s temp qs found)
  first_not_less-append [] qs found = refl
  first_not_less-append (p ∷ ps) qs found = rw (first_not_less-append ps qs found) refl

  -- A scan of nodes that are all less finds none of them.
  first_not_less-inorder :
      (t : Tree) (found : Ptr)
      → ((q : Ptr) → has q t ≡ true → zless (s.znodes q) temp ≡ true)
      → first_not_less s temp (inorder t) found ≡ found
  first_not_less-inorder leaf found h = refl
  first_not_less-inorder (fork n l r) found h =
      let here : zless (s.znodes n) temp ≡ true = h n (ground arith) in
      first_not_less-append (inorder l) (n ∷ inorder r) found
      ∙ first_not_less-inorder l _ (λ q i. h q (ground arith))
      ∙ rw here (first_not_less-inorder r found (λ q i. h q (ground arith)))

  -- On a tree whose nodes are sorted, the loop of `zset_query` ends within as many rounds as the tree
  -- is high, and one more, and finds what a scan of all the nodes from the least one on finds: the
  -- first node that is not less than `temp`.
  pub query_loop-first_not_less :
      (parent : Ptr) (t : Tree) (fuel : ℕ) (found : Ptr)
      → IsTree s.tnodes parent t
      → IsSorted s t
      → height t < fuel
      → query_loop fuel s temp (root t) found ≡ ok (first_not_less s temp (inorder t) found)
  unfolding query_loop
  query_loop-first_not_less parent t zero found h sorted l = absurd (omega (arith, l))
  query_loop-first_not_less parent leaf (suc fuel) found h sorted l = refl
  query_loop-first_not_less parent (fork n l r) (suc fuel) found (node, measured, hl, hr)
        (sl, sr, sortl, sortr) enough =
      let joined = first_not_less-append (inorder l) (n ∷ inorder r) found in
      elim (Bool-cases (zless (s.znodes n) temp)) [
        | inl lt ↦
            let up : query_loop fuel s temp (root r) found
                ≡ ok (first_not_less s temp (inorder r) found) =
              query_loop-first_not_less n r fuel found hr sortr (omega (arith, enough)) in
            let skip =
              first_not_less-inorder l (first_not_less s temp (inorder r) found)
                (λ q i. zless_trans (s.znodes q) (s.znodes n) temp (sl q i) lt) in
            rw (node.real, lt, node.right, up) (ap ok (sym (joined ∙ rw lt skip)))
        | inr ge ↦
            let down : query_loop fuel s temp (root l) n
                ≡ ok (first_not_less s temp (inorder l) n) =
              query_loop-first_not_less n l fuel n hl sortl (omega (arith, enough)) in
            rw (node.real, ge, node.left, down) (ap ok (sym (joined ∙ rw ge refl)))
      ]
