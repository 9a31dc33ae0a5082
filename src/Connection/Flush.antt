-- ===== src/Connection/Flush.antt =====
-- `try_flush_buffer` and `stateres`: the write loop ends, with the counts in bounds.
use redis_database_basic_imp.Prelude.{
  ℕ, zero, suc, ◌+◌, ◌-◌, ◌≤◌, ◌<◌, ◌≡◌, refl, sym, ◌∙◌, [], inl, inr, ◌≢◌, Bool, true, false,
  Bool-cases, arith, ltb, leb, if◌then◌else◌, ◌==◌, length, length-take, length-drop, take, drop,
}
use redis_database_basic_imp.Prelude.Bytes.{Bytes}
use redis_database_basic_imp.Prelude.Run.{Run, ok, Returns, Returns-bind}
use redis_database_basic_imp.Request.{slice}
use redis_database_basic_imp.Connection.{
  state_req, state_res, state_end, Conn, Io, done, interrupted, would_block, failed, Kernel, resume,
  write_retry, flushed, try_flush_buffer, stateres,
}
use redis_database_basic_imp.Connection.Step.{HasWritten, IsKernel, IsConn}

leb→le : (a b : ℕ) → leb a b ≡ true → a ≤ b
leb→le a b h = ground arith

req≢res : state_req ≢ state_res
req≢res e = absurd (grind arith)

req≢end : state_end ≢ state_req
req≢end e = absurd (grind arith)

module _ {W : Type 0} (kernel : Kernel W) (budget : W → ℕ) (law : IsKernel kernel budget) where
  abbrev Wrote : ℕ → ℕ → Io ℕ × W → Type 0
  Wrote len b (r, w) = HasWritten len b r (budget w)

  HasWritten-less :
      (len b c b' : ℕ) (r : Io ℕ) → b ≤ c → HasWritten len b r b' → HasWritten len c r b'
  HasWritten-less len b c b' (done n) l h = (h.0, omega (arith, l, h.1))
  HasWritten-less len b c b' interrupted l h = omega (arith, l, h)
  HasWritten-less len b c b' would_block l h = omega (arith, l, h)
  HasWritten-less len b c b' failed l h = omega (arith, l, h)

  retry_lem :
      (len b : ℕ) (again : W → Run (Io ℕ × W)) (r : Io ℕ × W)
      → ((w : W) → budget w < b → Returns (Wrote len (budget w)) (again w))
      → HasWritten len b r.0 (budget r.1)
      → Returns (Wrote len b) (resume r again)
  retry_lem len b again (done n, w) ih h = ((done n, w), refl, h)
  retry_lem len b again (would_block, w) ih h = ((would_block, w), refl, h)
  retry_lem len b again (failed, w) ih h = ((failed, w), refl, h)
  retry_lem len b again (interrupted, w) ih h =
      let (r, run, p) = ih w h in
      (r, run, HasWritten-less len (budget w) b (budget r.1) r.0 (omega (arith, h)) p)

  write_retry_lem :
      (fuel : ℕ) (buf : Bytes) (w : W)
      → budget w < fuel
      → Returns (Wrote (length buf) (budget w)) (write_retry kernel fuel buf w)
  unfolding write_retry
  write_retry_lem zero buf w l = absurd (omega (arith, l))
  write_retry_lem (suc fuel) buf w l =
      retry_lem (length buf) (budget w) (λ w'. write_retry kernel fuel buf w')
        (kernel.sys_write buf w) (λ w' l'. write_retry_lem fuel buf w' (omega (arith, l, l')))
        (law.write_law buf w)

  -- Where the flushing of `c` stops.
  pub record Stopped (c : Conn) (b : ℕ) (r : Conn × W) : Type 0 where
    pub conn : IsConn r.0
    pub kept : r.0.rbuf ≡ c.rbuf
    pub less : budget r.1 ≤ b
    pub paid : r.0.state ≡ state_req → budget r.1 < b

  pub record Flushing (c : Conn) (b : ℕ) (r : Conn × W) : Type 0 where
    pub conn : IsConn r.0
    pub res : r.0.state ≡ state_res
    pub kept : r.0.rbuf ≡ c.rbuf
    pub less : budget r.1 < b

  abbrev Flushed : Conn → ℕ → Bool × (Conn × W) → Type 0
  Flushed c b (true, r) = Flushing c b r
  Flushed c b (false, r) = Stopped c b r

  slice_rest :
      (buf : Bytes) (pos : ℕ)
      → pos ≤ length buf
      → Returns (λ xs. length xs ≡ length buf - pos) (slice buf pos (length buf - pos))
  unfolding slice
  slice_rest buf pos l =
      let inside : ltb (length buf) (pos + (length buf - pos)) ≡ false = ground arith in
      (
        take (length buf - pos) (drop pos buf),
        rw inside refl,
        omega (arith, length-take (length buf - pos) (drop pos buf), length-drop pos buf),
      )

  ended-Stopped :
      (c : Conn) (b : ℕ) (w : W)
      → IsConn c
      → budget w ≤ b
      → Stopped c b (record c { state = state_end }, w)
  ended-Stopped c b w v l = record {
    conn = record {
      bytes = v.bytes;
      read = v.read;
      written = v.written;
      sent = v.sent;
      idle = λ e. absurd (req≢end e);
    };
    kept = refl;
    less = l;
    paid = λ e. absurd (req≢end e);
  }

  sent-leb :
      (c : Conn) (n : ℕ)
      → IsConn c
      → n ≤ length c.wbuf - c.wbuf_sent
      → leb (c.wbuf_sent + n) (length c.wbuf) ≡ true
  sent-leb c n v h = ground (arith, v.sent)

  flushed_lem :
      (c : Conn) (b : ℕ) (r : Io ℕ × W)
      → IsConn c
      → c.state ≡ state_res
      → HasWritten (length c.wbuf - c.wbuf_sent) b r.0 (budget r.1)
      → Returns (Flushed c b) (flushed kernel c r)
  flushed_lem c b (would_block, w) v e h = (
    _,
    refl,
    record { conn = v; kept = refl; less = h; paid = λ q. absurd (req≢res (sym q ∙ e)) },
  )
  flushed_lem c b (interrupted, w) v e h = (_, refl, ended-Stopped c b w v (omega (arith, h)))
  flushed_lem c b (failed, w) v e h = (_, refl, ended-Stopped c b w v h)
  flushed_lem c b (done n, w) v e h = elim (Bool-cases (c.wbuf_sent + n == length c.wbuf)) [
    | inl all ↦ (
      (false, (record c { state = state_req; wbuf = []; wbuf_sent = 0 }, w)),
      rw (sent-leb c n v h.0, all) refl,
      record {
        conn = record {
          bytes = v.bytes;
          read = v.read;
          written = omega arith;
          sent = omega arith;
          idle = λ _. refl;
        };
        kept = refl;
        less = omega (arith, h.1);
        paid = λ _. h.1;
      },
    )
    | inr more ↦ (
      (true, (record c { wbuf_sent = c.wbuf_sent + n }, w)),
      rw (sent-leb c n v h.0, more) refl,
      record {
        conn = record {
          bytes = v.bytes;
          read = v.read;
          written = v.written;
          sent = leb→le (c.wbuf_sent + n) (length c.wbuf) (sent-leb c n v h.0);
          idle = λ q. absurd (req≢res (sym q ∙ e));
        };
        res = e;
        kept = refl;
        less = h.1;
      },
    )
  ]

  try_flush_buffer-Flushed :
      (fuel : ℕ) (c : Conn) (w : W)
      → IsConn c
      → c.state ≡ state_res
      → budget w < fuel
      → Returns (Flushed c (budget w)) (try_flush_buffer kernel fuel c w)
  unfolding try_flush_buffer
  try_flush_buffer-Flushed fuel c w v e l =
      Returns-bind (slice_rest c.wbuf c.wbuf_sent v.sent) λ buf len.
        Returns-bind (write_retry_lem fuel buf w l)
          λ r wrote. flushed_lem c (budget w) r v e (rw (sym len) wrote)

  Stopped-after :
      (c c' : Conn) (b b' : ℕ) (r : Conn × W)
      → c'.rbuf ≡ c.rbuf
      → b' ≤ b
      → Stopped c' b' r
      → Stopped c b r
  Stopped-after c c' b b' r e l s = record {
    conn = s.conn;
    kept = s.kept ∙ e;
    less = omega (arith, s.less, l);
    paid = λ q. omega (arith, s.paid q, l);
  }

  after_flush :
      (c : Conn) (b : ℕ) (loop : Conn → W → Run (Conn × W)) (a : Bool × (Conn × W))
      → ((c' : Conn) (w' : W)
          → IsConn c'
          → c'.state ≡ state_res
          → budget w' < b
          → Returns (Stopped c' (budget w')) (loop c' w'))
      → Flushed c b a
      → Returns (Stopped c b) (if a.0 then loop a.1.0 a.1.1 else ok a.1)
  after_flush c b loop (false, r) ih f = (r, refl, f)
  after_flush c b loop (true, r) ih f =
      let (r', run, s) = ih r.0 r.1 f.conn f.res f.less in
      (r', run, Stopped-after c r.0 b (budget r.1) r' f.kept (omega (arith, f.less)) s)

  -- From a valid connection with a response to send, `stateres` ends within the calls that the
  -- kernel answers, leaves the read buffer alone, and returns to the request state only after a write.
  pub stateres-Stopped :
      (fuel : ℕ) (c : Conn) (w : W)
      → IsConn c
      → c.state ≡ state_res
      → budget w < fuel
      → Returns (Stopped c (budget w)) (stateres kernel fuel c w)
  unfolding stateres
  stateres-Stopped zero c w v e l = absurd (omega (arith, l))
  stateres-Stopped (suc fuel) c w v e l =
      Returns-bind (try_flush_buffer-Flushed (suc fuel) c w v e l) λ a f.
        after_flush c (budget w) (stateres kernel fuel) a
          (λ c' w' v' e' l'. stateres-Stopped fuel c' w' v' e' (omega (arith, l, l'))) f
