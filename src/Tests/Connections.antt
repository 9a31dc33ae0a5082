-- ===== src/Tests/Connections.antt =====
-- A connection whose kernel gives one byte at a time and takes a whole response at a time.
use mathlib.Core.Option
use redis_database_basic_imp.Prelude.{
  ℕ, zero, suc, ◌+◌, ◌%◌, ◌≡◌, ◌≢◌, refl, true, some, List, [], ◌∷◌, ◌++◌, arith, length,
}
use redis_database_basic_imp.Prelude.Bytes.{Bytes, le32}
use redis_database_basic_imp.Prelude.Run.{Run, ok}
use redis_database_basic_imp.Serialisation.{out_str, out_nil}
use redis_database_basic_imp.Request.{send_req}
use redis_database_basic_imp.DList.{Links}
use redis_database_basic_imp.Connection.{
  state_req, state_end, Conn, Io, done, would_block, Kernel, one_request, res_ok,
}
use redis_database_basic_imp.Connection.Step.{IsKernel, IsConn, HasRead, HasWritten}
use redis_database_basic_imp.Connection.Frame.{one_request-send_req}

abbrev read_byte : ℕ → List ℕ → Io Bytes × List ℕ
read_byte cap [] = (would_block, [])
read_byte zero (x ∷ xs) = (done [], xs)
read_byte (suc cap) (x ∷ xs) = (done (x % 256 ∷ []), xs)

abbrev write_whole : Bytes → List ℕ → Io ℕ × List ℕ
write_whole buf [] = (would_block, [])
write_whole buf (x ∷ xs) = (done (length buf), xs)

abbrev pub bytewise : Kernel (List ℕ)
bytewise = record { sys_read = read_byte; sys_write = write_whole }

abbrev pub calls_left : List ℕ → ℕ
calls_left w = length w

read_byte-law :
    (cap : ℕ) (w : List ℕ)
    → HasRead cap (calls_left w) (read_byte cap w).0 (calls_left (read_byte cap w).1)
read_byte-law cap [] = omega arith
read_byte-law zero (x ∷ xs) = (omega arith, tt, omega arith)
read_byte-law (suc cap) (x ∷ xs) = (omega arith, (omega arith, tt), omega arith)

write_whole-law :
    (buf : Bytes) (w : List ℕ)
    → HasWritten
        (length buf)
        (calls_left w)
        (write_whole buf w).0
        (calls_left (write_whole buf w).1)
write_whole-law buf [] = omega arith
write_whole-law buf (x ∷ xs) = (omega arith, omega arith)

pub bytewise-IsKernel : IsKernel bytewise calls_left
bytewise-IsKernel = record { read_law = read_byte-law; write_law = write_whole-law }

-- Every request is answered with its first word.
abbrev pub echo : List Bytes → Bytes → ℕ → Run (ℕ × (Bytes × ℕ))
echo [] out g = ok (res_ok, (out_nil out, g + 1))
echo (name ∷ args) out g = ok (res_ok, (out_str out name, g + 1))

abbrev pub conn : Conn
conn = record {
  fd = 5;
  state = state_req;
  rbuf = [];
  wbuf = [];
  wbuf_sent = 0;
  idle_start = 0;
  idle_list = 1;
}

abbrev pub links : Links
links = record { prev = λ n. n; next = λ n. n }

pub conn-IsConn : IsConn conn
conn-IsConn = record {
  bytes = tt;
  read = omega arith;
  written = omega arith;
  sent = omega arith;
  idle = λ _. refl;
}

pub req-not_end : state_req ≢ state_end
req-not_end e = absurd (grind arith)

abbrev cmd_a : List Bytes
cmd_a = (b'a' ∷ []) ∷ []

abbrev frame_a : Bytes
frame_a = 9 ∷ 0 ∷ 0 ∷ 0 ∷ 1 ∷ 0 ∷ 0 ∷ 0 ∷ 1 ∷ 0 ∷ 0 ∷ 0 ∷ b'a' ∷ []

send_a : send_req cmd_a ≡ some frame_a
unfolding send_req le32 Option.bind
send_a = refl

-- The request is there with the first byte of the next.
abbrev full : Conn
full = record conn { rbuf = frame_a ++ (3 ∷ []) }

abbrev reply_a : Bytes
reply_a = 2 ∷ 1 ∷ 0 ∷ 0 ∷ 0 ∷ b'a' ∷ []

reply_a-echo : echo cmd_a [] 0 ≡ ok (res_ok, (reply_a, 1))
unfolding out_str le32
reply_a-echo = refl

one_request-send_req_example :
    one_request bytewise echo 1 full 0 (0 ∷ [])
    ≡ ok (
      true,
      (record full { state = state_req; rbuf = 3 ∷ []; wbuf = []; wbuf_sent = 0 }, (1, [])),
    )
unfolding le32
one_request-send_req_example =
    one_request-send_req bytewise echo 0 full 0 1 (0 ∷ []) [] cmd_a frame_a (3 ∷ []) reply_a
      (omega arith, tt) (omega arith) send_a refl refl reply_a-echo (omega arith) refl
