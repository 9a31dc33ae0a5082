-- ===== src/Server/Table.antt =====
-- `conn_put`: the table of the connections by descriptor.
use redis_database_basic_imp.Prelude.{
  ℕ, zero, suc, ◌+◌, ◌-◌, ◌≤◌, ◌≡◌, refl, ap, ◌∙◌, inl, inr, Bool-cases, List, [], ◌∷◌, ◌++◌, leb,
  ◌==◌, if◌then◌else◌, length, length-append, length-replicate, get_or, get_or-set, replicate,
  arith,
}
use redis_database_basic_imp.Server.{resize, conn_put}

get_or-replicate : (k i d : ℕ) → get_or (replicate k d) i d ≡ d
get_or-replicate zero i d = refl
get_or-replicate (suc k) zero d = refl
get_or-replicate (suc k) (suc i) d = get_or-replicate k i d

get_or-padded : (xs : List ℕ) (k i d : ℕ) → get_or (xs ++ replicate k d) i d ≡ get_or xs i d
get_or-padded [] k i d = get_or-replicate k i d
get_or-padded (x ∷ xs) k zero d = refl
get_or-padded (x ∷ xs) k (suc i) d = get_or-padded xs k i d

length-padded :
    (xs : List ℕ) (n d : ℕ) → length xs ≤ n → length (xs ++ replicate (n - length xs) d) ≡ n
length-padded xs n d h =
    omega
      (arith, length-append xs (replicate (n - length xs) d), length-replicate (n - length xs) d)

-- `conn_put` changes the entry of the descriptor and no other, where what lies beyond the end of the
-- table counts as null.
pub conn_put-get_or :
    (fd2conn : List ℕ) (fd conn i : ℕ)
    → get_or (conn_put fd2conn fd conn) i 0 ≡ (if fd == i then conn else get_or fd2conn i 0)
unfolding conn_put
conn_put-get_or fd2conn fd conn i = elim (Bool-cases (leb (length fd2conn) fd)) [
  | inl short ↦
      let wide = length-padded fd2conn (fd + 1) 0 (ground (arith, short)) in
      rw short (
        get_or-set (resize fd2conn (fd + 1)) fd i conn 0 (omega (arith, wide))
        ∙ ap (λ x. if fd == i then conn else x)
            (get_or-padded fd2conn (fd + 1 - length fd2conn) i 0))
  | inr fits ↦ rw fits (get_or-set fd2conn fd i conn 0 (ground (arith, fits)))
]
