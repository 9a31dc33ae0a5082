-- ===== src/Client/Main.antt =====
-- client.cpp: `main` from the connection on, the whole of `read_resp`, and `query`, which nothing calls.
-- Parameters are the kernel, the arguments of the program, and what stands in the buffer of `read_resp`
-- behind the bytes that it read.
use redis_database_basic_imp.Prelude.{
  ℕ, ◌^◌, ◌%◌, Option, none, some, List, [], ◌++◌, ltb, ◌==◌, if◌then◌else◌, length, take,
}
use redis_database_basic_imp.Prelude.Bytes.{Bytes, le32}
use redis_database_basic_imp.Prelude.Run.{Run, ok, ◌>>=◌}
use redis_database_basic_imp.Request.{send_req, k_max_msg}
use redis_database_basic_imp.Connection.{Kernel}
use redis_database_basic_imp.SocketIo.{write_all, read_resp}
use redis_database_basic_imp.Client.{Response, Printed, refuse, on_response, until_nul}

-- How the program ends: its exit code, and the lines that `on_response` printed.
pub record Exit : Type 0 where
  pub code : ℕ
  pub lines : List Printed

-- `if (err)` behind `read_resp`, whose result is an `int32_t`.
abbrev pub exit_code : Option ℕ → ℕ
exit_code none = 1
exit_code (some rv) = if rv % 2 ^ 32 == 0 then 0 else 1

module _ {W : Type 0} (kernel : Kernel W) (behind : ℕ → Bytes) (fuel depth : ℕ) where
  -- The call of `on_response` on the body that was read.
  abbrev pub response_of : Option Bytes × W → Run (Response × W)
  response_of (none, w) = ok (refuse, w)
  response_of (some body, w) =
      on_response depth (body ++ behind (length body)) (length body) >>= λ a. ok (a, w)

  unfoldable pub read_response : W → Run (Response × W)
  read_response w = read_resp kernel fuel w >>= λ r. response_of r

  -- What follows the sending.
  abbrev pub after_send : Option (Unit {0}) × W → Run (Exit × W)
  after_send (none, w) = ok (record { code = 1; lines = [] }, w)
  after_send (some _, w) =
      read_response w >>= λ (a, w'). ok (record { code = exit_code a.rv; lines = a.printed }, w')

  -- What follows the framing of the arguments.
  abbrev pub send_frame : Option Bytes → W → Run (Exit × W)
  send_frame none w = ok (record { code = 1; lines = [] }, w)
  send_frame (some frame) w = write_all kernel fuel frame w >>= λ r. after_send r

  unfoldable pub client_main : List Bytes → W → Run (Exit × W)
  client_main cmd w = send_frame (send_req cmd) w

  -- What follows the sending of a text.
  abbrev pub after_text : Option (Unit {0}) × W → Run (Response × W)
  after_text (none, w) = ok (refuse, w)
  after_text (some _, w) = read_response w

  unfoldable pub query : Bytes → W → Run (Response × W)
  query text w =
      let s = until_nul text in
      let len = length s % 2 ^ 32 in
      let send = write_all kernel fuel (le32 len ++ take len s) w >>= λ r. after_text r in
      if ltb k_max_msg len then ok (refuse, w) else send
