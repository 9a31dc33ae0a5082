-- ===== src/Serialisation.antt =====
-- serialisation.h and serialisation.cpp: the writers of a reply. Each appends to the string `out`.
--
-- An `int64_t` and a `double` are their 64-bit patterns, which is what the writers copy: `int64`
-- below gives the pattern of an integer. The debug prints are left out.
use redis_database_basic_imp.Prelude.{ℕ, ◌%◌, ◌^◌, [], ◌∷◌, ◌++◌, length}
use redis_database_basic_imp.Prelude.Bytes.{Bytes, le32, be64}

abbrev pub ser_nil : ℕ
ser_nil = 0

abbrev pub ser_err : ℕ
ser_err = 1

abbrev pub ser_str : ℕ
ser_str = 2

abbrev pub ser_int : ℕ
ser_int = 3

abbrev pub ser_arr : ℕ
ser_arr = 4

abbrev pub ser_double : ℕ
ser_double = 5

unfoldable pub out_nil : Bytes → Bytes
out_nil out = out ++ (ser_nil ∷ [])

unfoldable pub out_str : Bytes → Bytes → Bytes
out_str out val = let len = length val % 2 ^ 32 in ((out ++ (ser_str ∷ [])) ++ le32 len) ++ val

unfoldable pub out_int : Bytes → ℕ → Bytes
out_int out val = (out ++ (ser_int ∷ [])) ++ be64 val

unfoldable pub out_dbl : Bytes → ℕ → Bytes
out_dbl out val = (out ++ (ser_double ∷ [])) ++ be64 val

unfoldable pub out_err : Bytes → ℕ → Bytes → Bytes
out_err out code msg =
    let len = length msg % 2 ^ 32 in (((out ++ (ser_err ∷ [])) ++ le32 code) ++ le32 len) ++ msg

unfoldable pub out_arr : Bytes → ℕ → Bytes
out_arr out n = (out ++ (ser_arr ∷ [])) ++ le32 n
