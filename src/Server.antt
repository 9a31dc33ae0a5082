-- ===== src/Server.antt =====
-- Server.cpp and `conn_put` of utils.cpp: the table of the connections and a round of the server's loop.
--
-- Parameters of a round are what `accept`, `malloc`, `poll` and the clock give; the set-up of the
-- listening socket is left out. A connection is the number of its node in the idle list, which is also
-- its address, and `fd2conn` holds these numbers, 0 for null. A descriptor is not negative.
pub mod Table
pub mod Held
pub mod Accept
pub mod Client
pub mod Keeps
pub mod Sweep
pub mod Timers
pub mod Loop
use redis_database_basic_imp.Prelude.{
  ℕ, zero, suc, ◌+◌, ◌-◌, ◌^◌, Bool, Option, none, some, List, [], ◌∷◌, ◌++◌, ltb, leb, ◌==◌,
  if◌then◌else◌, length, get_or, set, replicate,
}
use redis_database_basic_imp.Prelude.Bytes.{Bytes}
use redis_database_basic_imp.Prelude.Run.{Run, ok, ◌>>=◌}
use redis_database_basic_imp.DList.{Links, d_list_init, list_insert_before}
use redis_database_basic_imp.Connection.{
  Conn, Kernel, State, state_req, state_res, state_end, in_req, connection_io,
}
use redis_database_basic_imp.Timer.Process.{Conns, drop_conn}

abbrev pub resize : List ℕ → ℕ → List ℕ
resize xs n = xs ++ replicate (n - length xs) 0

unfoldable pub conn_put : List ℕ → ℕ → ℕ → List ℕ
conn_put fd2conn fd conn =
    if leb (length fd2conn) fd then set (resize fd2conn (fd + 1)) fd conn else set fd2conn fd conn

-- `conns` are the objects at the addresses, and `net` is the table with the idle list.
pub record Server : Type 0 where
  pub conns : ℕ → Conn
  pub net : Conns

-- The server when its loop starts: `dList_init` of the head of the idle list, and an empty table.
-- `conns` and `links` are what is in the memory.
abbrev pub start_server : (ℕ → Conn) → Links → ℕ → Server
start_server conns links head = record {
  conns = conns;
  net = record { links = d_list_init links head; fd2conn = []; closed = [] };
}

-- The `int32_t` of value -1.
abbrev pub minus_one : ℕ
minus_one = 2 ^ 32 - 1

-- The connection that `accept_new_connection` fills.
abbrev pub new_conn : ℕ → ℕ → ℕ → Conn
new_conn new_fd conn now = record {
  fd = new_fd;
  state = state_req;
  rbuf = [];
  wbuf = [];
  wbuf_sent = 0;
  idle_start = now;
  idle_list = conn;
}

abbrev pub with_conn : (ℕ → Conn) → ℕ → Conn → ℕ → Conn
with_conn conns p c q = if p == q then c else conns q

-- What follows an `accept` that gave `new_fd`; `conn` is what `malloc` returns.
unfoldable pub accepted : ℕ → ℕ → ℕ → ℕ → Server → ℕ × Server
accepted head now conn new_fd s =
    let failed : Server = record s { net = record s.net { closed = new_fd ∷ s.net.closed } } in
    let links = list_insert_before (d_list_init s.net.links conn) head conn in
    let added : Server = record {
      conns = with_conn s.conns conn (new_conn new_fd conn now);
      net = record s.net { links = links; fd2conn = conn_put s.net.fd2conn new_fd conn };
    } in
    if conn == 0 then (minus_one, failed) else (0, added)

-- `accept` gives a descriptor, or fails.
unfoldable pub accept_new_connection : ℕ → ℕ → ℕ → Option ℕ → Server → ℕ × Server
accept_new_connection head now conn none s = (minus_one, s)
accept_new_connection head now conn (some new_fd) s = accepted head now conn new_fd s

-- What `poll` is asked for a client: its descriptor, and whether it waits to read.
abbrev pub poll_args : (ℕ → Conn) → List ℕ → List (ℕ × Bool)
poll_args conns [] = []
poll_args conns (p ∷ ps) =
    let rest = poll_args conns ps in
    if p == 0 then rest else ((conns p).fd, in_req (conns p).state) ∷ rest

-- An entry of `poll_args` with `revents`: the listening socket, with what `accept`, `malloc` and the
-- clock give, or a client, with the clock.
pub data Event : Type 0 where
  listening : Option ℕ → ℕ → ℕ → Event
  client : ℕ → ℕ → Event

-- What follows `connection_io`.
abbrev pub after_io : State → ℕ → ℕ → Server → Run Server
after_io state_req conn fd s = ok s
after_io state_res conn fd s = ok s
after_io state_end conn fd s = drop_conn s.net conn fd >>= λ net. ok (record s { net = net })

module _ {W G : Type 0} (kernel : Kernel W)
    (do_request : List Bytes → Bytes → G → Run (ℕ × (Bytes × G))) (fuel head : ℕ) where
  -- The connection `conn` is served.
  abbrev pub served : ℕ → ℕ → Server → G → W → Run (Server × (G × W))
  served conn now s g w = do
    (links, (c, (g', w'))) ←
        connection_io kernel do_request fuel now head s.net.links (s.conns conn) g w
    let s' : Server = record {
      conns = with_conn s.conns conn c;
      net = record s.net { links = links };
    }
    s'' ← after_io c.state conn c.fd s'
    ok (s'', (g', w'))

  -- An event of a client.
  unfoldable pub client_event : ℕ → ℕ → Server → G → W → Run (Server × (G × W))
  client_event client_fd now s g w =
      let conn = get_or s.net.fd2conn client_fd 0 in
      let serve = served conn now s g w in
      if leb (length s.net.fd2conn) client_fd
      then ok (s, (g, w))
      else (if conn == 0 then ok (s, (g, w)) else serve)

  -- The loop over the events.
  unfoldable pub handle_events : List Event → Server → G → W → Run (Server × (G × W))
  handle_events [] s g w = ok (s, (g, w))
  handle_events (listening new_fd conn now ∷ es) s g w =
      handle_events es (accept_new_connection head now conn new_fd s).1 g w
  handle_events (client fd now ∷ es) s g w =
      client_event fd now s g w >>= λ (s', (g', w')). handle_events es s' g' w'
