-- ===== src/SocketIo.antt =====
-- common.cpp, `read_full` and `write_all`, and client.cpp, `read_resp`: the blocking reads and writes
-- of whole messages. `read` and `write` are the kernel's, as for a connection; here a call that would
-- block fails.
pub mod Whole
pub mod Sent
use redis_database_basic_imp.Prelude.{
  ℕ, zero, suc, ◌+◌, ◌-◌, Option, none, some, [], ◌∷◌, ◌++◌, ltb, leb, ◌==◌, if◌then◌else◌, length,
  drop,
}
use redis_database_basic_imp.Prelude.Bytes.{Bytes, load32}
use redis_database_basic_imp.Prelude.Run.{Run, ok, out_of_fuel, check, or_fault, ◌>>=◌, ◌>>◌}
use redis_database_basic_imp.Request.{k_max_msg}
use redis_database_basic_imp.Connection.{Io, done, interrupted, would_block, failed, Kernel}

module _ {W : Type 0} (kernel : Kernel W) where
  -- What follows a `read` for `len` bytes more; `loop` is the next round.
  abbrev pub read_next :
      (Bytes → ℕ → W → Run (Option Bytes × W)) → Bytes → ℕ → Io Bytes × W → Run (Option Bytes × W)
  read_next loop buf len (done [], w) = ok (none, w)
  read_next loop buf len (done (b ∷ bs), w) =
      check (leb (length (b ∷ bs)) len) >> loop (buf ++ (b ∷ bs)) (len - length (b ∷ bs)) w
  read_next loop buf len (interrupted, w) = loop buf len w
  read_next loop buf len (would_block, w) = ok (none, w)
  read_next loop buf len (failed, w) = ok (none, w)

  -- `buf` is what was read so far; `none` is -1.
  unfoldable pub read_full : ℕ → Bytes → ℕ → W → Run (Option Bytes × W)
  read_full zero buf len w = out_of_fuel
  read_full (suc fuel) buf len w =
      let next = read_next (read_full fuel) buf len (kernel.sys_read len w) in
      if len == 0 then ok (some buf, w) else next

  abbrev pub write_next :
      (Bytes → W → Run (Option (Unit {0}) × W)) → Bytes → Io ℕ × W → Run (Option (Unit {0}) × W)
  write_next loop buf (done zero, w) = ok (none, w)
  write_next loop buf (done (suc n), w) =
      check (leb (suc n) (length buf)) >> loop (drop (suc n) buf) w
  write_next loop buf (interrupted, w) = loop buf w
  write_next loop buf (would_block, w) = ok (none, w)
  write_next loop buf (failed, w) = ok (none, w)

  -- `buf` is what is left to write.
  unfoldable pub write_all : ℕ → Bytes → W → Run (Option (Unit {0}) × W)
  write_all zero buf w = out_of_fuel
  write_all (suc fuel) buf w =
      let next = write_next (write_all fuel) buf (kernel.sys_write buf w) in
      if length buf == 0 then ok (some tt, w) else next

  -- The body of a response, which `read_resp` hands to `on_response`; `none` where it returns -1.
  abbrev pub checked : Option Bytes × W → Run (Option Bytes × W)
  checked (none, w) = ok (none, w)
  checked (some resp, w) = if ltb (length resp) 1 then ok (none, w) else ok (some resp, w)

  abbrev pub read_body : ℕ → Option Bytes × W → Run (Option Bytes × W)
  read_body fuel (none, w) = ok (none, w)
  read_body fuel (some head, w) = do
    len ← or_fault (load32 head)
    let body = read_full fuel [] len w >>= λ r. checked r
    if ltb k_max_msg len then ok (none, w) else body

  unfoldable pub read_resp : ℕ → W → Run (Option Bytes × W)
  read_resp fuel w = read_full fuel [] 4 w >>= λ r. read_body fuel r
