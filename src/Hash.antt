-- ===== src/Hash.antt =====
-- utils.cpp, `str_hash`: the hash code of a string.
use Prim.Native.Nat.{bit_xor}
use redis_database_basic_imp.Prelude.{ℕ, ◌*◌, ◌%◌, ◌^◌, [], ◌∷◌}
use redis_database_basic_imp.Prelude.Bytes.{Bytes}

abbrev pub hash_from : ℕ → Bytes → ℕ
hash_from hash [] = hash
hash_from hash (b ∷ rest) = hash_from (bit_xor hash b * 1099511628211 % 2 ^ 64) rest

abbrev pub str_hash : Bytes → ℕ
str_hash mem = hash_from 14695981039346656037 mem
