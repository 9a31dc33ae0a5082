-- ===== src/Tests/Loops.antt =====
-- The loop of the server, from its start: a client connects, sends a byte, and is dropped when it was idle.
use redis_database_basic_imp.Prelude.{
  ℕ, suc, ◌≡◌, refl, inr, some, List, [], ◌∷◌, get_or, length, arith,
}
use redis_database_basic_imp.Prelude.Run.{ok}
use redis_database_basic_imp.DList.{Links, dlist_detach, list_insert_before}
use redis_database_basic_imp.Connection.{
  Conn, connection_io, statereq, try_fill_buffer, read_retry, request_loop, one_request,
}
use redis_database_basic_imp.Timer.Process.{
  Conns, drop_conn, idle_loop, expire_loop, process_timers,
}
use redis_database_basic_imp.Server.{
  Server, start_server, accept_new_connection, accepted, conn_put, client_event, new_conn,
  with_conn,
}
use redis_database_basic_imp.Server.Held.{IsServer}
use redis_database_basic_imp.Server.Loop.{
  World, LoopReach, starts, goes_on, accepts, answers, sweeps, LoopReach-IsServer,
}
use redis_database_basic_imp.Prelude.Bytes.{load32}
use redis_database_basic_imp.Db.Dispatch.{do_request}
use redis_database_basic_imp.Tests.Connections.{bytewise, bytewise-IsKernel, calls_left}
use redis_database_basic_imp.Tests.Databases.{no_data}
use redis_database_basic_imp.Tests.Sessions.{no_strtoll, no_stod, no_stoll, no_raw_eq}

abbrev pub no_conns : ℕ → Conn
no_conns p = new_conn 0 0 0

abbrev pub no_links : Links
no_links = record { prev = λ n. 0; next = λ n. 0 }

abbrev pub begun : Server
begun = start_server no_conns no_links 1

abbrev connected : Server
connected = (accept_new_connection 1 100 2 (some 3) begun).1

abbrev Reached : World (List ℕ) → Type 0
Reached = LoopReach bytewise no_strtoll no_stod no_stoll no_raw_eq 0 9 1 (begun, (no_data, 7 ∷ []))

nothing_open : (fd : ℕ) → some 3 ≡ some fd → get_or begun.net.fd2conn fd 0 ≡ 0
nothing_open fd e = refl

connected-Reached : Reached (connected, (no_data, 7 ∷ []))
connected-Reached =
    goes_on (begun, (no_data, 7 ∷ [])) (connected, (no_data, 7 ∷ [])) starts
      (accepts 100 2 (some 3) begun (no_data, 7 ∷ []) (inr (refl, λ fd. refl)) nothing_open)

-- The byte is in the buffer.
abbrev buffered : Server
buffered = record {
  conns = with_conn connected.conns 2 (record (new_conn 3 2 200) { rbuf = 7 ∷ [] });
  net = record connected.net {
    links = list_insert_before (dlist_detach connected.net.links 2) 1 2;
  };
}

byte_read :
    client_event bytewise
      (do_request no_strtoll no_stod no_stoll no_raw_eq 0 0)
      9
      1
      3
      200
      connected
      no_data
      (7 ∷ [])
    ≡ ok (buffered, (no_data, []))
unfolding client_event accept_new_connection accepted conn_put connection_io statereq
    try_fill_buffer read_retry request_loop one_request load32
byte_read = refl

buffered-Reached : Reached (buffered, (no_data, []))
buffered-Reached =
    goes_on (connected, (no_data, 7 ∷ [])) (buffered, (no_data, [])) connected-Reached
      (answers 3 200 0 connected no_data (7 ∷ []) (buffered, (no_data, [])) byte_read)

abbrev swept : Server
swept = record buffered {
  net = record {
    links = dlist_detach buffered.net.links 2;
    fd2conn = 0 ∷ 0 ∷ 0 ∷ 0 ∷ [];
    closed = 3 ∷ [];
  };
}

idle_closed :
    process_timers 2 1 buffered.conns 1000000000 buffered.net no_data ≡ ok (swept.net, no_data)
unfolding process_timers idle_loop expire_loop drop_conn accept_new_connection accepted conn_put
idle_closed = refl

LoopReach-IsServer_example :
    (ns : List ℕ) × IsServer 1 swept ns
    × ((now : ℕ)
        → (net : Conns) × (idle_loop 1 swept.conns now (suc (length ns)) swept.net ≡ ok net))
LoopReach-IsServer_example =
    LoopReach-IsServer bytewise calls_left bytewise-IsKernel no_strtoll no_stod no_stoll no_raw_eq 0
      9 1 refl no_conns no_links no_data (7 ∷ []) (swept, (no_data, [])) (omega arith)
      (goes_on (buffered, (no_data, [])) (swept, (no_data, [])) buffered-Reached
        (sweeps 2 1000000000 buffered no_data no_data [] swept.net idle_closed))
