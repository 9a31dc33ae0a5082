-- ===== src/Connection/Fill.antt =====
-- `try_fill_buffer`, `statereq` and `connection_io`: the loops end, no assertion fails, and the
-- connection is left valid, with room for the next read.
use redis_database_basic_imp.Prelude.{
  ℕ, zero, suc, ◌-◌, ◌≤◌, ◌<◌, ◌≡◌, lt→ltb, ◌≢◌, refl, sym, ◌∙◌, inl, inr, Bool, true, false,
  Bool-cases, List, [], ◌∷◌, ◌++◌, arith, leb, if◌then◌else◌, length, length-append,
}
use redis_database_basic_imp.Prelude.Bytes.{Bytes}
use redis_database_basic_imp.Prelude.Run.{Run, ok, Returns, Returns-bind}
use redis_database_basic_imp.DList.{Links, dlist_detach, list_insert_before}
use redis_database_basic_imp.Connection.{
  State, state_req, state_res, state_end, in_req, Conn, buf_cap, Io, done, interrupted, would_block,
  failed, Kernel, resume, read_retry, request_loop, filled, try_fill_buffer, statereq, by_state,
  connection_io,
}
use redis_database_basic_imp.Connection.Step.{HasRead, IsKernel, IsConn, HasRoom}
use redis_database_basic_imp.Connection.Request.{
  Rested, Served, ended-Rested, one_request-Served, All-append,
}
use redis_database_basic_imp.Connection.Flush.{stateres-Stopped}

end≢req : state_end ≢ state_req
end≢req e = absurd (grind arith)

in_req-state_req : (s : State) → in_req s ≡ true → s ≡ state_req
in_req-state_req state_req e = refl
in_req-state_req state_res e = absurd (grind arith)
in_req-state_req state_end e = absurd (grind arith)

module _ {W : Type 0} (kernel : Kernel W) (budget : W → ℕ) (law : IsKernel kernel budget)
    {G : Type 0} (do_request : List Bytes → Bytes → G → Run (ℕ × (Bytes × G))) (IsGood : G → Type 0)
    (serves : (cmd : List Bytes) (g : G)
      → IsGood g
      → Returns (λ r. IsGood r.1.1) (do_request cmd [] g)) where
  abbrev pub IsRested : ℕ → Conn × (G × W) → Type 0
  IsRested = Rested kernel budget law do_request IsGood serves

  abbrev IsServed : ℕ → Bool × (Conn × (G × W)) → Type 0
  IsServed = Served kernel budget law do_request IsGood serves

  Rested-later : (b c : ℕ) (r : Conn × (G × W)) → b ≤ c → IsRested b r → IsRested c r
  Rested-later b c r l s = record {
    conn = s.conn;
    room = s.room;
    good = s.good;
    less = omega (arith, s.less, l);
  }

  -- One more round of a loop, or its end.
  next_round :
      (b : ℕ) (loop : Conn → G → W → Run (Conn × (G × W))) (a : Bool × (Conn × (G × W)))
      → ((c : Conn) (g : G) (w : W)
          → IsConn c
          → c.state ≡ state_req
          → IsGood g
          → budget w < b
          → Returns (IsRested (budget w)) (loop c g w))
      → IsServed b a
      → Returns (IsRested b) (if a.0 then loop a.1.0 a.1.1.0 a.1.1.1 else ok a.1)
  next_round b loop (false, r) ih s = (r, refl, s)
  next_round b loop (true, r) ih s =
      let (r', run, t) = ih r.0 r.1.0 r.1.1 s.conn s.req s.good s.less in
      (r', run, Rested-later (budget r.1.1) b r' (omega (arith, s.less)) t)

  request_loop-Rested :
      (fuel : ℕ) (c : Conn) (g : G) (w : W)
      → IsConn c
      → c.state ≡ state_req
      → IsGood g
      → budget w < fuel
      → Returns (IsRested (budget w)) (request_loop kernel do_request fuel c g w)
  unfolding request_loop
  request_loop-Rested zero c g w v e good l = absurd (omega (arith, l))
  request_loop-Rested (suc fuel) c g w v e good l =
      Returns-bind
        (one_request-Served kernel budget law do_request IsGood serves (suc fuel) c g w v e good l)
        λ a s.
          next_round (budget w) (request_loop kernel do_request fuel) a
            (λ c' g' w' v' e' good' l'.
              request_loop-Rested fuel c' g' w' v' e' good' (omega (arith, l, l')))
            s

  abbrev Read : ℕ → ℕ → Io Bytes × W → Type 0
  Read cap b (r, w) = HasRead cap b r (budget w)

  HasRead-less : (cap b c b' : ℕ) (r : Io Bytes) → b ≤ c → HasRead cap b r b' → HasRead cap c r b'
  HasRead-less cap b c b' (done bs) l h = (h.0, h.1, omega (arith, l, h.2))
  HasRead-less cap b c b' interrupted l h = omega (arith, l, h)
  HasRead-less cap b c b' would_block l h = omega (arith, l, h)
  HasRead-less cap b c b' failed l h = omega (arith, l, h)

  again_lem :
      (cap b : ℕ) (again : W → Run (Io Bytes × W)) (r : Io Bytes × W)
      → ((w : W) → budget w < b → Returns (Read cap (budget w)) (again w))
      → HasRead cap b r.0 (budget r.1)
      → Returns (Read cap b) (resume r again)
  again_lem cap b again (done bs, w) ih h = ((done bs, w), refl, h)
  again_lem cap b again (would_block, w) ih h = ((would_block, w), refl, h)
  again_lem cap b again (failed, w) ih h = ((failed, w), refl, h)
  again_lem cap b again (interrupted, w) ih h =
      let (r, run, p) = ih w h in
      (r, run, HasRead-less cap (budget w) b (budget r.1) r.0 (omega (arith, h)) p)

  read_retry_lem :
      (fuel cap : ℕ) (w : W)
      → budget w < fuel
      → Returns (Read cap (budget w)) (read_retry kernel fuel cap w)
  unfolding read_retry
  read_retry_lem zero cap w l = absurd (omega (arith, l))
  read_retry_lem (suc fuel) cap w l =
      again_lem cap (budget w) (λ w'. read_retry kernel fuel cap w') (kernel.sys_read cap w)
        (λ w' l'. read_retry_lem fuel cap w' (omega (arith, l, l'))) (law.read_law cap w)

  rested_on :
      (b : ℕ) (r : Conn × (G × W))
      → IsRested b r
      → budget r.1.1 < b
      → IsServed b (in_req r.0.state, r)
  rested_on b r s l = elim (Bool-cases (in_req r.0.state)) [
    | inr stop ↦ rw stop s
    | inl on ↦
        rw on
          (record { conn = s.conn; req = in_req-state_req r.0.state on; good = s.good; less = l })
  ]

  -- A round of filling also leaves room for the next.
  abbrev IsFilled : ℕ → Bool × (Conn × (G × W)) → Type 0
  IsFilled b a = IsServed b a × HasRoom a.1.0

  filled-Served :
      (fuel : ℕ) (c : Conn) (g : G) (b : ℕ) (r : Io Bytes × W)
      → IsConn c
      → c.state ≡ state_req
      → IsGood g
      → length c.rbuf < buf_cap
      → b < fuel
      → HasRead (buf_cap - length c.rbuf) b r.0 (budget r.1)
      → Returns (IsFilled b) (filled kernel do_request fuel c g r)
  filled-Served fuel c g b (would_block, w) v e good room l h =
      (_, refl, (record { conn = v; room = inr room; good = good; less = h }, inr room))
  filled-Served fuel c g b (interrupted, w) v e good room l h = (
    _,
    refl,
    (
      ended-Rested kernel budget law do_request IsGood serves c b g w v good (omega (arith, h)),
      inl refl,
    ),
  )
  filled-Served fuel c g b (failed, w) v e good room l h = (
    _,
    refl,
    (ended-Rested kernel budget law do_request IsGood serves c b g w v good h, inl refl),
  )
  filled-Served fuel c g b (done [], w) v e good room l h = (
    _,
    refl,
    (
      ended-Rested kernel budget law do_request IsGood serves c b g w v good (omega (arith, h.2)),
      inl refl,
    ),
  )
  filled-Served fuel c g b (done (x ∷ xs), w) v e good room l h =
      let c' = record c { rbuf = c.rbuf ++ (x ∷ xs) } in
      let size : length c'.rbuf ≤ buf_cap =
        omega (arith, length-append c.rbuf (x ∷ xs), h.0, room) in
      let fits : leb (length c'.rbuf) buf_cap ≡ true = ground arith in
      let v' : IsConn c' = record {
        bytes = All-append (λ b. b < 256) c.rbuf (x ∷ xs) v.bytes h.1;
        read = size;
        written = v.written;
        sent = v.sent;
        idle = v.idle;
      } in
      let (r, run, s) = request_loop-Rested fuel c' g w v' e good (omega (arith, l, h.2)) in
      (
        (in_req r.0.state, r),
        rw (fits, run) refl,
        (
          rested_on b r (Rested-later (budget w) b r (omega (arith, h.2)) s)
              (omega (arith, s.less, h.2)),
          s.room,
        ),
      )

  try_fill_buffer-Served :
      (fuel : ℕ) (c : Conn) (g : G) (w : W)
      → IsConn c
      → c.state ≡ state_req
      → IsGood g
      → length c.rbuf < buf_cap
      → budget w < fuel
      → Returns (IsFilled (budget w)) (try_fill_buffer kernel do_request fuel c g w)
  unfolding try_fill_buffer
  try_fill_buffer-Served fuel c g w v e good room l =
      let (r, run, h) = read_retry_lem fuel (buf_cap - length c.rbuf) w l in
      let (r', run', s) = filled-Served fuel c g (budget w) r v e good room l h in
      (r', rw (lt→ltb (length c.rbuf) buf_cap room, run) run', s)

  room_in_req : (c : Conn) → c.state ≡ state_req → HasRoom c → length c.rbuf < buf_cap
  room_in_req c e (inl end) = absurd (end≢req (sym end ∙ e))
  room_in_req c e (inr room) = room

  next_fill :
      (b : ℕ) (loop : Conn → G → W → Run (Conn × (G × W))) (a : Bool × (Conn × (G × W)))
      → ((c : Conn) (g : G) (w : W)
          → IsConn c
          → c.state ≡ state_req
          → IsGood g
          → length c.rbuf < buf_cap
          → budget w < b
          → Returns (IsRested (budget w)) (loop c g w))
      → IsFilled b a
      → Returns (IsRested b) (if a.0 then loop a.1.0 a.1.1.0 a.1.1.1 else ok a.1)
  next_fill b loop (false, r) ih s = (r, refl, s.0)
  next_fill b loop (true, r) ih s =
      let q = s.0 in
      let (r', run, t) =
        ih r.0 r.1.0 r.1.1 q.conn q.req q.good (room_in_req r.0 q.req s.1) q.less in
      (r', run, Rested-later (budget r.1.1) b r' (omega (arith, q.less)) t)

  statereq-Rested :
      (fuel : ℕ) (c : Conn) (g : G) (w : W)
      → IsConn c
      → c.state ≡ state_req
      → IsGood g
      → length c.rbuf < buf_cap
      → budget w < fuel
      → Returns (IsRested (budget w)) (statereq kernel do_request fuel c g w)
  unfolding statereq
  statereq-Rested zero c g w v e good room l = absurd (omega (arith, l))
  statereq-Rested (suc fuel) c g w v e good room l =
      Returns-bind (try_fill_buffer-Served (suc fuel) c g w v e good room l) λ a s.
        next_fill (budget w) (statereq kernel do_request fuel) a
          (λ c' g' w' v' e' good' room' l'.
            statereq-Rested fuel c' g' w' v' e' good' room' (omega (arith, l, l')))
          s

  by_state-Rested :
      (fuel : ℕ) (s : State) (c : Conn) (g : G) (w : W)
      → c.state ≡ s
      → s ≢ state_end
      → IsConn c
      → IsGood g
      → length c.rbuf < buf_cap
      → budget w < fuel
      → Returns (IsRested (budget w)) (by_state kernel do_request s fuel c g w)
  by_state-Rested fuel state_req c g w e n v good room l =
      statereq-Rested fuel c g w v e good room l
  by_state-Rested fuel state_end c g w e n v good room l = absurd (n refl)
  by_state-Rested fuel state_res c g w e n v good room l =
      Returns-bind (stateres-Stopped kernel budget law fuel c w v e l) λ r s. (
        (r.0, (g, r.1)),
        refl,
        record { conn = s.conn; room = inr (rw s.kept room); good = good; less = s.less },
      )

  -- On a valid connection that is not marked for deletion and has room to read into, `connection_io`
  -- returns: none of its loops runs on, no assertion fails, and no access leaves a buffer. The
  -- connection it leaves is valid, and has room to read into again unless it is marked for deletion.
  -- That holds for a kernel within its bounds, with fuel above the calls that it lets make progress,
  -- and for a `do_request` that returns and keeps the server's state good from a good one.
  pub connection_io-Rested :
      (fuel now head : ℕ) (l : Links) (c : Conn) (g : G) (w : W)
      → c.state ≢ state_end
      → IsConn c
      → IsGood g
      → length c.rbuf < buf_cap
      → budget w < fuel
      → Returns
          (λ r. IsRested (budget w) r.1)
          (connection_io kernel do_request fuel now head l c g w)
  unfolding connection_io
  connection_io-Rested fuel now head l c g w n v good room few =
      let c' = record c { idle_start = now } in
      let v' : IsConn c' = record {
        bytes = v.bytes;
        read = v.read;
        written = v.written;
        sent = v.sent;
        idle = v.idle;
      } in
      let (r, run, s) = by_state-Rested fuel c.state c' g w refl n v' good room few in
      ((list_insert_before (dlist_detach l c.idle_list) head c.idle_list, r), rw run refl, s)
