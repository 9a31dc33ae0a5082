-- ===== src/Tests/Sockets.antt =====
-- A response that arrives one byte at a time.
use redis_database_basic_imp.Prelude.{ℕ, zero, suc, ◌%◌, refl, List, [], ◌∷◌, arith, length}
use redis_database_basic_imp.Prelude.Bytes.{Bytes}
use redis_database_basic_imp.Prelude.Run.{Returns}
use redis_database_basic_imp.Connection.{Io, done, would_block, Kernel}
use redis_database_basic_imp.Connection.Step.{IsKernel, HasRead}
use redis_database_basic_imp.SocketIo.{read_resp}
use redis_database_basic_imp.SocketIo.Whole.{IsFront, IsResponse, read_resp-IsResponse}

abbrev trickle_read : ℕ → List ℕ → Io Bytes × List ℕ
trickle_read cap [] = (would_block, [])
trickle_read zero (x ∷ xs) = (would_block, x ∷ xs)
trickle_read (suc cap) (x ∷ xs) = (done (x % 256 ∷ []), xs)

abbrev trickle : Kernel (List ℕ)
trickle = record { sys_read = trickle_read; sys_write = λ buf w. (would_block, w) }

abbrev bytes_left : List ℕ → ℕ
bytes_left w = length w

abbrev coming : List ℕ → Bytes
coming [] = []
coming (x ∷ xs) = x % 256 ∷ coming xs

trickle_read-law :
    (cap : ℕ) (w : List ℕ)
    → HasRead cap (bytes_left w) (trickle_read cap w).0 (bytes_left (trickle_read cap w).1)
trickle_read-law cap [] = omega arith
trickle_read-law zero (x ∷ xs) = omega arith
trickle_read-law (suc cap) (x ∷ xs) = (omega arith, (omega arith, tt), omega arith)

trickle-IsKernel : IsKernel trickle bytes_left
trickle-IsKernel = record { read_law = trickle_read-law; write_law = λ buf w. omega arith }

trickle-order :
    (cap : ℕ) (w : List ℕ)
    → IsFront (coming w) (trickle_read cap w).0 (coming (trickle_read cap w).1)
trickle-order cap [] = tt
trickle-order zero (x ∷ xs) = tt
trickle-order (suc cap) (x ∷ xs) = refl

-- A null value.
abbrev reply_nil : List ℕ
reply_nil = 1 ∷ 0 ∷ 0 ∷ 0 ∷ 0 ∷ []

read_resp-IsResponse_example :
    Returns
      (IsResponse trickle bytes_left trickle-IsKernel coming trickle-order (coming reply_nil))
      (read_resp trickle 6 reply_nil)
read_resp-IsResponse_example =
    read_resp-IsResponse trickle bytes_left trickle-IsKernel coming trickle-order 6 reply_nil
      (omega arith)
