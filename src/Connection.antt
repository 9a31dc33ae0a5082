-- ===== src/Connection.antt =====
-- utils.cpp: the buffers of a connection and the state machine that fills, parses, runs and flushes.
--
-- `rbuf` and `wbuf` are the first `rbuf_size` and `wbuf_size` bytes of the two arrays, each of
-- `buf_cap` bytes, and those two fields are their lengths. `read` and `write` are the kernel's, a
-- parameter, as is `do_request`, which this file uses and another models. The idle list's links are
-- those of DList.antt. The prints are left out.
pub mod Step
pub mod Flush
pub mod Request
pub mod Fill
pub mod Frame
pub mod Identity
pub mod Noting
pub mod Refine
use redis_database_basic_imp.Prelude.{
  ℕ, zero, suc, ◌+◌, ◌-◌, ◌%◌, ◌^◌, Bool, true, false, Option, none, some, List, [], ◌∷◌, ◌++◌, ltb,
  leb, ◌==◌, if◌then◌else◌, length, drop,
}
use redis_database_basic_imp.Prelude.Bytes.{Bytes, le32, load32}
use redis_database_basic_imp.Prelude.Run.{Run, ok, fault, out_of_fuel, check, or_fault, ◌>>=◌, ◌>>◌}
use redis_database_basic_imp.Serialisation.{out_err}
use redis_database_basic_imp.Request.{slice, parse_req, k_max_msg}
use redis_database_basic_imp.DList.{Links, dlist_detach, list_insert_before}

pub data State : Type 0 where
  state_req state_res state_end : State

abbrev pub in_req : State → Bool
in_req state_req = true
in_req state_res = false
in_req state_end = false

-- `idle_list` is the number of the connection's node.
pub record Conn : Type 0 where
  pub fd : ℕ
  pub state : State
  pub rbuf : Bytes
  pub wbuf : Bytes
  pub wbuf_sent : ℕ
  pub idle_start : ℕ
  pub idle_list : ℕ

abbrev pub res_ok : ℕ
res_ok = 0

abbrev pub res_err : ℕ
res_err = 1

abbrev pub res_nx : ℕ
res_nx = 2

abbrev pub err_2big : ℕ
err_2big = 1001

-- `sizeof(conn->rbuf)`, and of `wbuf`
abbrev pub buf_cap : ℕ
buf_cap = 4 + k_max_msg

abbrev pub too_big : Bytes
too_big =
    b'r' ∷ b'e' ∷ b's' ∷ b'p' ∷ b'o' ∷ b'n' ∷ b's' ∷ b'e' ∷ b' ' ∷ b'i' ∷ b's' ∷ b' ' ∷ b't' ∷ b'o'
    ∷ b'o' ∷ b' ' ∷ b'b' ∷ b'i' ∷ b'g' ∷ []

-- How `read` or `write` returns: with a count that is not negative, or with -1 and `EINTR`, `EAGAIN`
-- or any other `errno`.
pub data Io (A : Type 0) : Type 0 where
  done : A → Io A
  interrupted would_block failed : Io A

-- `read` is given the room that there is and returns the bytes; `write` is given the bytes and
-- returns how many it took.
pub record Kernel (W : Type 0) : Type 0 where
  pub sys_read : ℕ → W → Io Bytes × W
  pub sys_write : Bytes → W → Io ℕ × W

abbrev pub resume : {W : Type 0} {A : Type 0} → Io A × W → (W → Run (Io A × W)) → Run (Io A × W)
resume (interrupted, w) again = again w
resume (done n, w) again = ok (done n, w)
resume (would_block, w) again = ok (would_block, w)
resume (failed, w) again = ok (failed, w)

abbrev pub limited : Bytes → Bytes
limited out = if ltb k_max_msg (4 + length out) then out_err [] err_2big too_big else out

-- The connection with the response `out` in `wbuf` and the request of `len` bytes dropped.
abbrev pub answered : Conn → ℕ → Bytes → Conn
answered c len out = record c {
  wbuf = le32 (length out % 2 ^ 32) ++ out;
  rbuf = drop (4 + len) c.rbuf;
  state = state_res;
}

module _ {W : Type 0} (kernel : Kernel W) where
  -- `do { ... } while (rv < 0 && errno == EINTR)`
  unfoldable pub write_retry : ℕ → Bytes → W → Run (Io ℕ × W)
  write_retry zero buf w = out_of_fuel
  write_retry (suc fuel) buf w = resume (kernel.sys_write buf w) (λ w'. write_retry fuel buf w')

  unfoldable pub read_retry : ℕ → ℕ → W → Run (Io Bytes × W)
  read_retry zero cap w = out_of_fuel
  read_retry (suc fuel) cap w = resume (kernel.sys_read cap w) (λ w'. read_retry fuel cap w')

  -- What follows the write.
  abbrev pub flushed : Conn → Io ℕ × W → Run (Bool × (Conn × W))
  flushed c (would_block, w) = ok (false, (c, w))
  flushed c (interrupted, w) = ok (false, (record c { state = state_end }, w))
  flushed c (failed, w) = ok (false, (record c { state = state_end }, w))
  flushed c (done n, w) =
      let wbuf_sent = c.wbuf_sent + n in
      check (leb wbuf_sent (length c.wbuf))
      >> (if wbuf_sent == length c.wbuf
          then ok (false, (record c { state = state_req; wbuf = []; wbuf_sent = 0 }, w))
          else ok (true, (record c { wbuf_sent = wbuf_sent }, w)))

  unfoldable pub try_flush_buffer : ℕ → Conn → W → Run (Bool × (Conn × W))
  try_flush_buffer fuel c w = do
    buf ← slice c.wbuf c.wbuf_sent (length c.wbuf - c.wbuf_sent)
    r ← write_retry fuel buf w
    flushed c r

  unfoldable pub stateres : ℕ → Conn → W → Run (Conn × W)
  stateres zero c w = out_of_fuel
  stateres (suc fuel) c w = do
    (again, (c', w')) ← try_flush_buffer (suc fuel) c w
    let rest = stateres fuel c' w'
    if again then rest else ok (c', w')

  module _ {G : Type 0} (do_request : List Bytes → Bytes → G → Run (ℕ × (Bytes × G))) where
    -- From the call of `do_request` on.
    unfoldable pub run_request : ℕ → Conn → ℕ → List Bytes → G → W → Run (Bool × (Conn × (G × W)))
    run_request fuel c len cmd g w = do
      (err, (reply, g')) ← do_request cmd [] g
      let out = limited reply
      let write =
          check (leb (4 + length out) buf_cap)
          >> (stateres fuel (answered c len out) w >>= λ (c', w').
              ok (in_req c'.state, (c', (g', w'))))
      if err == res_ok then write else ok (false, (record c { state = state_end }, (g', w)))

    -- What follows the parsing of a request of `len` bytes.
    abbrev pub parsed : ℕ → Conn → ℕ → G → W → Option (List Bytes) → Run (Bool × (Conn × (G × W)))
    parsed fuel c len g w none = ok (false, (record c { state = state_end }, (g, w)))
    parsed fuel c len g w (some cmd) = run_request fuel c len cmd g w

    unfoldable pub one_request : ℕ → Conn → G → W → Run (Bool × (Conn × (G × W)))
    one_request fuel c g w =
        let ended = ok (false, (record c { state = state_end }, (g, w))) in
        let request = (do
          len ← or_fault (load32 c.rbuf)
          let parse = parse_req (drop 4 c.rbuf) len >>= λ cmd. parsed fuel c len g w cmd
          if ltb k_max_msg len
              then ended
              else (if ltb (length c.rbuf) (4 + len) then ok (false, (c, (g, w))) else parse)) in
        if ltb (length c.rbuf) 4 then ok (false, (c, (g, w))) else request

    -- `while (one_request(conn)) {}`
    unfoldable pub request_loop : ℕ → Conn → G → W → Run (Conn × (G × W))
    request_loop zero c g w = out_of_fuel
    request_loop (suc fuel) c g w = do
      (again, (c', (g', w'))) ← one_request (suc fuel) c g w
      let rest = request_loop fuel c' g' w'
      if again then rest else ok (c', (g', w'))

    -- What follows the read.
    abbrev pub filled : ℕ → Conn → G → Io Bytes × W → Run (Bool × (Conn × (G × W)))
    filled fuel c g (would_block, w) = ok (false, (c, (g, w)))
    filled fuel c g (interrupted, w) = ok (false, (record c { state = state_end }, (g, w)))
    filled fuel c g (failed, w) = ok (false, (record c { state = state_end }, (g, w)))
    filled fuel c g (done [], w) = ok (false, (record c { state = state_end }, (g, w)))
    filled fuel c g (done (b ∷ bs), w) =
        let more = record c { rbuf = c.rbuf ++ (b ∷ bs) } in
        check (leb (length more.rbuf) buf_cap)
        >> (request_loop fuel more g w >>= λ (c', r). ok (in_req c'.state, (c', r)))

    unfoldable pub try_fill_buffer : ℕ → Conn → G → W → Run (Bool × (Conn × (G × W)))
    try_fill_buffer fuel c g w = do
      check (ltb (length c.rbuf) buf_cap)
      r ← read_retry fuel (buf_cap - length c.rbuf) w
      filled fuel c g r

    unfoldable pub statereq : ℕ → Conn → G → W → Run (Conn × (G × W))
    statereq zero c g w = out_of_fuel
    statereq (suc fuel) c g w = do
      (again, (c', (g', w'))) ← try_fill_buffer (suc fuel) c g w
      let rest = statereq fuel c' g' w'
      if again then rest else ok (c', (g', w'))

    abbrev pub by_state : State → ℕ → Conn → G → W → Run (Conn × (G × W))
    by_state state_req fuel c g w = statereq fuel c g w
    by_state state_res fuel c g w = stateres fuel c w >>= λ (c', w'). ok (c', (g, w'))
    by_state state_end fuel c g w = fault

    -- `now` is the clock's reading and `head` the node of `g_data.idle_list`.
    unfoldable pub connection_io : ℕ → ℕ → ℕ → Links → Conn → G → W → Run (Links × (Conn × (G × W)))
    connection_io fuel now head l c g w =
        let c' = record c { idle_start = now } in
        let l' = list_insert_before (dlist_detach l c.idle_list) head c.idle_list in
        by_state c.state fuel c' g w >>= λ r. ok (l', r)
