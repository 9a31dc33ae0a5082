-- ===== src/Connection/Step.antt =====
-- What the connection code relies on in the kernel, and the invariant of a connection.
use redis_database_basic_imp.Prelude.{ℕ, ◌≤◌, ◌<◌, ◌≡◌, ◌⊎◌, length}
use redis_database_basic_imp.Prelude.Bytes.{Bytes}
use redis_database_basic_imp.Request.Sound.{AreBytes}
use redis_database_basic_imp.Connection.{
  state_req, state_end, Conn, buf_cap, Io, done, interrupted, would_block, failed, Kernel,
}

-- A call of `read` with room for `cap` bytes, with `b` calls that can still make progress before it
-- and `b'` after it.
abbrev pub HasRead : ℕ → ℕ → Io Bytes → ℕ → Type 0
HasRead cap b (done bs) b' = (length bs ≤ cap) × AreBytes bs × (b' < b)
HasRead cap b interrupted b' = b' < b
HasRead cap b would_block b' = b' ≤ b
HasRead cap b failed b' = b' ≤ b

-- A call of `write` with `len` bytes.
abbrev pub HasWritten : ℕ → ℕ → Io ℕ → ℕ → Type 0
HasWritten len b (done n) b' = (n ≤ len) × (b' < b)
HasWritten len b interrupted b' = b' < b
HasWritten len b would_block b' = b' ≤ b
HasWritten len b failed b' = b' ≤ b

-- The counts stay within what was asked for, what is read are bytes, and `budget` bounds the calls
-- that return data or are interrupted before the kernel says `EAGAIN` or fails.
pub record IsKernel {W : Type 0} (kernel : Kernel W) (budget : W → ℕ) : Type 0 where
  pub read_law :
      (cap : ℕ) (w : W) → let r = kernel.sys_read cap w in HasRead cap (budget w) r.0 (budget r.1)
  pub write_law :
      (buf : Bytes) (w : W)
      → let r = kernel.sys_write buf w in HasWritten (length buf) (budget w) r.0 (budget r.1)

-- The counts of a connection are within its buffers, and nothing is pending when it awaits requests.
pub record IsConn (c : Conn) : Type 0 where
  pub bytes : AreBytes c.rbuf
  pub read : length c.rbuf ≤ buf_cap
  pub written : length c.wbuf ≤ buf_cap
  pub sent : c.wbuf_sent ≤ length c.wbuf
  pub idle : c.state ≡ state_req → c.wbuf_sent ≡ 0

-- There is room to read into, which is what `try_fill_buffer` asserts.
abbrev pub HasRoom : Conn → Type 0
HasRoom c = (c.state ≡ state_end) ⊎ (length c.rbuf < buf_cap)
