-- ===== src/Request/Format.antt =====
-- The bytes of a request, as the format has them.
use redis_database_basic_imp.Prelude.{
  ℕ, ◌+◌, ◌^◌, ◌<◌, ◌≡◌, refl, List, [], ◌∷◌, ◌++◌, arith, length, length-append, All,
}
use redis_database_basic_imp.Prelude.Bytes.{Bytes, le32, length-le32}

-- Each argument after its length.
unfoldable pub encode_args : List Bytes → Bytes
encode_args [] = []
encode_args (arg ∷ cmd) = le32 (length arg) ++ (arg ++ encode_args cmd)

-- The body of the frame.
unfoldable pub encode_body : List Bytes → Bytes
unfolding encode_args
encode_body cmd = le32 (length cmd) ++ encode_args cmd

-- Each argument is shorter than 2 GiB.
abbrev pub AreShort : List Bytes → Type 0
AreShort = All (λ arg. length arg < 2 ^ 31)

abbrev pub total : List Bytes → ℕ
total [] = 0
total (arg ∷ cmd) = 4 + length arg + total cmd

pub length-encode_args : (cmd : List Bytes) → length (encode_args cmd) ≡ total cmd
unfolding encode_args
length-encode_args [] = refl
length-encode_args (arg ∷ cmd) = omega (
  arith,
  length-append (le32 (length arg)) (arg ++ encode_args cmd),
  length-le32 (length arg),
  length-append arg (encode_args cmd),
  length-encode_args cmd,
)

pub length-encode_body : (cmd : List Bytes) → length (encode_body cmd) ≡ 4 + total cmd
unfolding encode_body
length-encode_body cmd = omega (
  arith,
  length-append (le32 (length cmd)) (encode_args cmd),
  length-le32 (length cmd),
  length-encode_args cmd,
)
