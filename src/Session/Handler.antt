-- ===== src/Session/Handler.antt =====
-- The handler of a connection, `connection_io` of utils.cpp, and of an event of a client, in server.cpp,
-- with the `do_request` of common.cpp.
use redis_database_basic_imp.Prelude.{
  ℕ, ◌≡◌, ◌≢◌, ◌<◌, ◌≤◌, ◌⊎◌, inl, inr, refl, List, [], ◌∷◌, List-cases, length, All, arith, get_or,
  leb, ◌==◌,
}
use redis_database_basic_imp.Prelude.Bytes.{Bytes}
use redis_database_basic_imp.Prelude.Run.{Run, ok, fault, out_of_fuel, Returns, Ensures-ok}
use redis_database_basic_imp.DList.{Links}
use redis_database_basic_imp.Connection.{state_end, Conn, buf_cap, Kernel, connection_io, res_err}
use redis_database_basic_imp.Connection.Step.{IsKernel, IsConn, HasRoom}
use redis_database_basic_imp.Connection.Fill.{connection_io-Rested}
use redis_database_basic_imp.Connection.Noting.{
  Noted, note_result, noting, connection_io-Follows, whole, whole_notes, Follows, Follows-ok,
  Follows-if, Follows-bind, Follows-then,
}
use redis_database_basic_imp.Server.{Server, served, client_event, after_io, with_conn}
use redis_database_basic_imp.Server.Held.{IsServer}
use redis_database_basic_imp.Server.Client.{client_event-Serves}
use redis_database_basic_imp.Db.{GlobalData, Strtoll}
use redis_database_basic_imp.Zset.{RawEq}
use redis_database_basic_imp.Db.Sets.{Stod, Stoll}
use redis_database_basic_imp.Db.Dispatch.{do_request}

module _ {G : Type 0} (serve : List Bytes → Bytes → G → Run (ℕ × (Bytes × G))) where
  -- The call of `serve` does not return.
  abbrev pub Stops : List Bytes × G → Type 0
  Stops (cmd, g) = (serve cmd [] g ≡ fault) ⊎ (serve cmd [] g ≡ out_of_fuel)

  note_result-Stops :
      (cmd : List Bytes) (n : Noted G) (r : Run (ℕ × (Bytes × G)))
      → serve cmd [] n.0 ≡ r
      → All Stops n.1
      → Returns (λ a. All Stops a.1.1.1) (note_result cmd n r)
  note_result-Stops cmd n (ok (code, (out, g))) e h = ((code, (out, (g, n.1))), refl, h)
  note_result-Stops cmd n fault e h = ((res_err, ([], (n.0, (cmd, n.0) ∷ n.1))), refl, (inl e, h))
  note_result-Stops cmd n out_of_fuel e h =
      ((res_err, ([], (n.0, (cmd, n.0) ∷ n.1))), refl, (inr e, h))

  abbrev pub AreStops : Noted G → Type 0
  AreStops n = All Stops n.1

  pub noting-Stops :
      (cmd : List Bytes) (n : Noted G)
      → AreStops n
      → Returns (λ a. AreStops a.1.1) (noting serve cmd [] n)
  noting-Stops cmd n h = note_result-Stops cmd n (serve cmd [] n.0) refl h

-- What the handler ends in, `r`, where `run` is the handler with `serve` itself: the connection is valid
-- and has room to read into, unless it is marked for deletion; each noted call is one that does not
-- return; and unless there is one, `run` ends the same.
pub record Settled {W G : Type 0} (serve : List Bytes → Bytes → G → Run (ℕ × (Bytes × G)))
    (budget : W → ℕ) (b : ℕ) (run : Run (Links × (Conn × (G × W))))
    (r : Links × (Conn × (Noted G × W))) : Type 0 where
  pub conn : IsConn r.1.0
  pub room : HasRoom r.1.0
  pub less : budget r.1.1.1 ≤ b
  pub stops : All (Stops serve) r.1.1.0.1
  pub same : (r.1.1.0.1 ≢ []) ⊎ (run ≡ ok (r.0, (r.1.0, (r.1.1.0.0, r.1.1.1))))

-- What an event of a client ends in, likewise: the server's invariant holds.
pub record Handled {W G : Type 0} (serve : List Bytes → Bytes → G → Run (ℕ × (Bytes × G)))
    (budget : W → ℕ) (head b : ℕ) (run : Run (Server × (G × W))) (r : Server × (Noted G × W))
    : Type 0 where
  pub ns : List ℕ
  pub server : IsServer head r.0 ns
  pub less : budget r.1.1 ≤ b
  pub stops : All (Stops serve) r.1.0.1
  pub same : (r.1.0.1 ≢ []) ⊎ (run ≡ ok (r.0, (r.1.0.0, r.1.1)))

cons≢nil : {N : Type 0} (l : List N) (x : N) (xs : List N) → l ≡ x ∷ xs → l ≢ []
cons≢nil l x xs e z = absurd (grind arith)

module _ {W : Type 0} (kernel : Kernel W) (budget : W → ℕ) (law : IsKernel kernel budget)
    (strtoll : Strtoll) (stod : Stod) (stoll : Stoll) (raw_eq : RawEq) (zfuel clock : ℕ)
    (fuel now head : ℕ) where
  abbrev serve : List Bytes → Bytes → GlobalData → Run (ℕ × (Bytes × GlobalData))
  serve = do_request strtoll stod stoll raw_eq zfuel clock

  -- On a valid connection that is not marked for deletion and has room to read into, `connection_io` with
  -- a `do_request` that notes and refuses the commands from which it would not return, ends: none of its
  -- loops runs on, no assertion fails, and no access leaves a buffer. The connection it leaves is valid,
  -- and has room to read into again unless it is marked for deletion. Unless a command was noted,
  -- `connection_io` with the `do_request` itself ends the same: so only a call of `do_request` keeps it
  -- from ending. That holds for a kernel within its bounds, with fuel above the calls that it lets
  -- make progress.
  pub connection_io-Settled :
      (l : Links) (c : Conn) (g : GlobalData) (w : W)
      → c.state ≢ state_end
      → IsConn c
      → length c.rbuf < buf_cap
      → budget w < fuel
      → Returns
          (Settled (do_request strtoll stod stoll raw_eq zfuel clock) budget (budget w) (
            connection_io kernel
              (do_request strtoll stod stoll raw_eq zfuel clock)
              fuel
              now
              head
              l
              c
              g
              w))
          (connection_io kernel
            (noting (do_request strtoll stod stoll raw_eq zfuel clock))
            fuel
            now
            head
            l
            c
            (g, [])
            w)
  connection_io-Settled l c g w n v room few =
      let (r, run, rested) =
        connection_io-Rested kernel budget law (noting serve) (AreStops serve) (noting-Stops serve)
          fuel now head l c (g, []) w n v tt room few in
      let follows =
        Ensures-ok _ _ r (connection_io-Follows kernel serve fuel now head l c (g, []) w) run in
      (
        r,
        run,
        record {
          conn = rested.conn;
          room = rested.room;
          less = rested.less;
          stops = rested.good;
          same = elim (List-cases r.1.1.0.1) [
            | inl z ↦ inr (follows z).1
            | inr (x, xs, e) ↦ inl (cons≢nil r.1.1.0.1 x xs e)
          ];
        },
      )

  abbrev unnoted_event : Server × (Noted GlobalData × W) → Server × (GlobalData × W)
  unnoted_event r = (r.0, (r.1.0.0, r.1.1))

  abbrev event_notes : Server × (Noted GlobalData × W) → List (List Bytes × GlobalData)
  event_notes r = r.1.0.1

  served-Follows :
      (conn : ℕ) (s : Server) (n : Noted GlobalData) (w : W)
      → Follows n.1 unnoted_event event_notes
          (served kernel serve fuel head conn now s n.0 w)
          (served kernel (noting serve) fuel head conn now s n w)
  served-Follows conn s n w =
      Follows-bind (whole kernel serve) (whole_notes kernel serve) unnoted_event event_notes n.1
        (connection_io kernel serve fuel now head s.net.links (s.conns conn) n.0 w)
        (connection_io kernel (noting serve) fuel now head s.net.links (s.conns conn) n w) _ _
        (connection_io-Follows kernel serve fuel now head s.net.links (s.conns conn) n w)
        λ a.
          let s' : Server = record {
            conns = with_conn s.conns conn a.1.0;
            net = record s.net { links = a.0 };
          } in
          Follows-then unnoted_event event_notes a.1.1.0.1 (after_io a.1.0.state conn a.1.0.fd s') _
            _ λ t. Follows-ok unnoted_event event_notes (t, (a.1.1.0, a.1.1.1))

  -- The event's handler with `serve`, and with the `do_request` that notes: where that notes none.
  client_event-Follows :
      (client_fd : ℕ) (s : Server) (n : Noted GlobalData) (w : W)
      → Follows n.1 unnoted_event event_notes
          (client_event kernel serve fuel head client_fd now s n.0 w)
          (client_event kernel (noting serve) fuel head client_fd now s n w)
  unfolding client_event
  client_event-Follows client_fd s n w =
      let conn = get_or s.net.fd2conn client_fd 0 in
      let same = Follows-ok unnoted_event event_notes (s, (n, w)) in
      Follows-if unnoted_event event_notes n.1 (leb (length s.net.fd2conn) client_fd) _ _ _ _ same (
        Follows-if unnoted_event event_notes n.1 (conn == 0) _ _ _ _ same
          (served-Follows conn s n w))

  -- From a state of the server's invariant, an event of a client, whatever descriptor it names, ends with
  -- a `do_request` that notes and refuses the commands from which it would not return: no assertion
  -- fails, no access leaves its object, and no loop runs on. It leads to a state of the invariant, for
  -- the connections that are left. Unless a command was noted, the event with the `do_request` itself
  -- ends the same. That holds for a kernel within its bounds, with fuel above the calls that it lets
  -- make progress.
  pub client_event-Handled :
      (client_fd : ℕ) (s : Server) (ns : List ℕ) (g : GlobalData) (w : W)
      → IsServer head s ns
      → budget w < fuel
      → Returns
          (Handled (do_request strtoll stod stoll raw_eq zfuel clock) budget head (budget w) (
            client_event kernel
              (do_request strtoll stod stoll raw_eq zfuel clock)
              fuel
              head
              client_fd
              now
              s
              g
              w))
          (client_event kernel
            (noting (do_request strtoll stod stoll raw_eq zfuel clock))
            fuel
            head
            client_fd
            now
            s
            (g, [])
            w)
  client_event-Handled client_fd s ns g w v few =
      let (r, run, served) =
        client_event-Serves kernel budget law (noting serve) (AreStops serve) (noting-Stops serve)
          fuel head client_fd now s ns (g, []) w v tt few in
      let follows = Ensures-ok _ _ r (client_event-Follows client_fd s (g, []) w) run in
      (
        r,
        run,
        record {
          ns = served.ns;
          server = served.server;
          less = served.less;
          stops = served.good;
          same = elim (List-cases r.1.0.1) [
            | inl z ↦ inr (follows z).1
            | inr (x, xs, e) ↦ inl (cons≢nil r.1.0.1 x xs e)
          ];
        },
      )
