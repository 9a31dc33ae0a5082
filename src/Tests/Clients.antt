-- ===== src/Tests/Clients.antt =====
-- A client that sends a command, and gets a null value, byte by byte.
use redis_database_basic_imp.Prelude.{
  ℕ, zero, suc, ◌+◌, ◌%◌, ◌≤◌, ◌≡◌, refl, sym, ap, List, [], ◌∷◌, ◌++◌, arith, length,
}
use redis_database_basic_imp.Prelude.Bytes.{Bytes, le32}
use redis_database_basic_imp.Prelude.Run.{Returns}
use redis_database_basic_imp.Connection.{Io, done, would_block, Kernel}
use redis_database_basic_imp.Connection.Step.{IsKernel, HasRead, HasWritten}
use redis_database_basic_imp.SocketIo.Whole.{IsFront, take-length}
use redis_database_basic_imp.Serialisation.{out_nil}
use redis_database_basic_imp.Request.{k_max_msg}
use redis_database_basic_imp.SocketIo.Sent.{IsSocket, IsSent}
use redis_database_basic_imp.Client.Replies.{write_item, nil}
use redis_database_basic_imp.Client.Main.{client_main}
use redis_database_basic_imp.Client.Exit.{IsRefused, client_main-IsRefused}

-- What is to be read, what was sent, and the writes that are left.
abbrev Socket : Type 0
Socket = List ℕ × (Bytes × ℕ)

abbrev next_byte : ℕ → Socket → Io Bytes × Socket
next_byte cap ([], s) = (would_block, ([], s))
next_byte zero (x ∷ xs, s) = (would_block, (x ∷ xs, s))
next_byte (suc cap) (x ∷ xs, s) = (done (x % 256 ∷ []), (xs, s))

abbrev take_all : Bytes → Socket → Io ℕ × Socket
take_all buf (xs, (out, zero)) = (would_block, (xs, (out, zero)))
take_all buf (xs, (out, suc k)) = (done (length buf), (xs, (out ++ buf, k)))

abbrev socket_kernel : Kernel Socket
socket_kernel = record { sys_read = next_byte; sys_write = take_all }

abbrev calls : Socket → ℕ
calls w = length w.0 + w.1.1

abbrev to_read : List ℕ → Bytes
to_read [] = []
to_read (x ∷ xs) = x % 256 ∷ to_read xs

abbrev unread : Socket → Bytes
unread w = to_read w.0

abbrev sent_bytes : Socket → Bytes
sent_bytes w = w.1.0

next_byte-law :
    (cap : ℕ) (w : Socket) → HasRead cap (calls w) (next_byte cap w).0 (calls (next_byte cap w).1)
next_byte-law cap ([], s) = omega arith
next_byte-law zero (x ∷ xs, s) = omega arith
next_byte-law (suc cap) (x ∷ xs, s) = (omega arith, (omega arith, tt), omega arith)

take_all-law :
    (buf : Bytes) (w : Socket)
    → HasWritten (length buf) (calls w) (take_all buf w).0 (calls (take_all buf w).1)
take_all-law buf (xs, (out, zero)) = omega arith
take_all-law buf (xs, (out, suc k)) = (omega arith, omega arith)

socket_kernel-IsKernel : IsKernel socket_kernel calls
socket_kernel-IsKernel = record { read_law = next_byte-law; write_law = take_all-law }

next_byte-order :
    (cap : ℕ) (w : Socket) → IsFront (unread w) (next_byte cap w).0 (unread (next_byte cap w).1)
next_byte-order cap ([], s) = tt
next_byte-order zero (x ∷ xs, s) = tt
next_byte-order (suc cap) (x ∷ xs, s) = refl

take_all-order :
    (buf : Bytes) (w : Socket)
    → IsSent buf (sent_bytes w) (take_all buf w).0 (sent_bytes (take_all buf w).1)
take_all-order buf (xs, (out, zero)) = tt
take_all-order buf (xs, (out, suc k)) = ap (λ x. out ++ x) (sym (take-length buf))

take_all-apart : (buf : Bytes) (w : Socket) → unread (take_all buf w).1 ≡ unread w
take_all-apart buf (xs, (out, zero)) = refl
take_all-apart buf (xs, (out, suc k)) = refl

socket_kernel-IsSocket : IsSocket socket_kernel sent_bytes unread
socket_kernel-IsSocket = record { in_order = take_all-order; apart = take_all-apart }

-- Nothing stands behind the body.
abbrev no_bytes : ℕ → Bytes
no_bytes n = []

abbrev cmd_keys : List Bytes
cmd_keys = (b'k' ∷ b'e' ∷ b'y' ∷ b's' ∷ []) ∷ []

abbrev answered_nil : Socket
answered_nil = (1 ∷ 0 ∷ 0 ∷ 0 ∷ 0 ∷ [], ([], 1))

nil_front : unread answered_nil ≡ le32 (length (write_item [] nil)) ++ (write_item [] nil ++ [])
unfolding write_item out_nil le32
nil_front = refl

nil_short : length (write_item [] nil) ≤ k_max_msg
unfolding write_item out_nil
nil_short = omega arith

client_main-IsRefused_example :
    Returns
      (IsRefused socket_kernel calls socket_kernel-IsKernel sent_bytes unread socket_kernel-IsSocket
        next_byte-order no_bytes 7 0 cmd_keys answered_nil nil)
      (client_main socket_kernel no_bytes 7 1 cmd_keys answered_nil)
client_main-IsRefused_example =
    client_main-IsRefused socket_kernel calls socket_kernel-IsKernel sent_bytes unread
      socket_kernel-IsSocket next_byte-order no_bytes 7 0 cmd_keys answered_nil nil [] tt nil_short
      nil_front (omega arith)
