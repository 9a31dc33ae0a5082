-- ===== src/Tests/Handlers.antt =====
-- The handlers with the `do_request` of the program, on the bytes of the command `keys`.
use redis_database_basic_imp.Prelude.{ℕ, List, [], ◌∷◌, arith}
use redis_database_basic_imp.Prelude.Run.{Returns}
use redis_database_basic_imp.Connection.{connection_io}
use redis_database_basic_imp.Connection.Noting.{noting}
use redis_database_basic_imp.Server.{client_event}
use redis_database_basic_imp.Db.Dispatch.{do_request}
use redis_database_basic_imp.Session.Handler.{
  Settled, Handled, connection_io-Settled, client_event-Handled,
}
use redis_database_basic_imp.Tests.Connections.{
  bytewise, bytewise-IsKernel, calls_left, conn, links, conn-IsConn, req-not_end,
}
use redis_database_basic_imp.Tests.Servers.{two_server, two_server-IsServer}
use redis_database_basic_imp.Tests.Databases.{no_data}
use redis_database_basic_imp.Tests.Sessions.{no_strtoll, no_stod, no_stoll, no_raw_eq}

-- The frame, and a call of `write`.
abbrev script : List ℕ
script = 12 ∷ 0 ∷ 0 ∷ 0 ∷ 1 ∷ 0 ∷ 0 ∷ 0 ∷ 4 ∷ 0 ∷ 0 ∷ 0 ∷ b'k' ∷ b'e' ∷ b'y' ∷ b's' ∷ 0 ∷ []

connection_io-Settled_example :
    Returns
      (Settled
        (do_request no_strtoll no_stod no_stoll no_raw_eq 9 0)
        calls_left
        (calls_left script)
        (connection_io bytewise
          (do_request no_strtoll no_stod no_stoll no_raw_eq 9 0)
          18
          7
          2
          links
          conn
          no_data
          script))
      (connection_io bytewise
        (noting (do_request no_strtoll no_stod no_stoll no_raw_eq 9 0))
        18
        7
        2
        links
        conn
        (no_data, [])
        script)
connection_io-Settled_example =
    connection_io-Settled bytewise calls_left bytewise-IsKernel no_strtoll no_stod no_stoll
      no_raw_eq 9 0 18 7 2 links conn no_data script req-not_end conn-IsConn (omega arith)
      (omega arith)

client_event-Handled_example :
    Returns
      (Handled
        (do_request no_strtoll no_stod no_stoll no_raw_eq 9 0)
        calls_left
        1
        (calls_left script)
        (client_event bytewise
          (do_request no_strtoll no_stod no_stoll no_raw_eq 9 0)
          18
          1
          5
          7
          two_server
          no_data
          script))
      (client_event bytewise
        (noting (do_request no_strtoll no_stod no_stoll no_raw_eq 9 0))
        18
        1
        5
        7
        two_server
        (no_data, [])
        script)
client_event-Handled_example =
    client_event-Handled bytewise calls_left bytewise-IsKernel no_strtoll no_stod no_stoll no_raw_eq
      9 0 18 7 1 5 two_server (2 ∷ 3 ∷ []) no_data script two_server-IsServer (omega arith)
