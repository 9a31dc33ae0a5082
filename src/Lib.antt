-- ===== src/Lib.antt =====
-- A small Redis-like server and its client (C++), modelled function by function.
--
-- The server accepts connections, each with a read and a write buffer. A request is a framed list of
-- strings; it is parsed, dispatched to a command on the global map, and answered with a framed value.
-- The map is a pair of chained hash tables, of which the older is emptied a few nodes at a time.
-- Entries with a time to live stand in a binary heap that knows where each of them is.
--
-- Which file models which part:
--   HashTable      hashtable.h, hashtable.cpp: HTab, HMap, hm_insert, hm_lookup, hm_delete, h_scan
--   Heap           heap.h, heap.cpp: heap_update, heap_up, heap_down
--   Serialisation  serialisation.h, serialisation.cpp: out_nil, out_str, out_int, out_dbl, out_err, out_arr
--   Request        common.cpp, parse_req; client.cpp, send_req
--   Client         client.cpp: on_response, and in Client.Main read_resp, main and query
--   DList          DList.h, DList.cpp: the idle list
--   Connection     common.h, Conn; utils.cpp: try_flush_buffer, one_request, try_fill_buffer, connection_io
--   Db             common.h, Entry and GlobalData; common.cpp: do_get, do_set, do_del, do_keys,
--                  do_expire, do_ttl, entry_set_ttl, do_request, threaded_zset_destructor
--   SocketIo       common.cpp: read_full, write_all; client.cpp, read_resp
--   Timer          timer.cpp: get_monotonic_usec, next_timer_ms, process_timers
--   Server         Server.cpp: accept_new_connection and the loop of main; utils.cpp, conn_put
--   ThreadPool     thread.h, thread.cpp: worker, thread_pool_init, thread_pool_queue
--   Zset           zset.h, zset.cpp: zless, zset_lookup, tree_add, zset_add, zset_pop, zset_query,
--                  avl_offset, free_avl_nodes; Db.Sets: do_zadd, do_zscore, do_zrem, do_query
--   Hash           utils.cpp, str_hash
--   Avl            AVL.h, AVL.cpp: avl_update, rot_left, rot_right, avl_fix, avl_del
-- Session has no code of its own: it puts Request, Connection, Db, Timer and Server together.
-- A function keeps its name, in lower case. The children of a module hold its proofs, and Tests runs
-- the models and applies the theorems at concrete inputs.
--
-- A call returns a Run: a value, a fault (a failed assertion or an access outside an object), or
-- no fuel left. State is passed explicitly. A chain of nodes is the list of the nodes; an entry is a
-- value with a number for its address; the nodes of the AVL tree stand in a memory of numbered nodes;
-- the threads of the pool are a step relation, and so is the loop of the server's main (Server.Loop); a
-- size_t is a natural number whose wrap-around is written out where it can happen. The back pointers of
-- the heap and the links of the idle list are maps.
--
-- Fuel: hm_help_resizing runs with one round for each bucket and each node that it may move, the
-- heap loops with the position or the length, and the loops around read and write with any number
-- above the calls that the kernel lets make progress; the theorems show that this is enough. The
-- walks in a tree run with any number above its height.
--
-- Parameters: read and write of the kernel, with the bounds on their counts as hypotheses; strtoll,
-- std::stod, std::stoll, what entry_eq gives for two nodes of a sorted set, which it reads as entries
-- (zset_pop), and what accept, malloc, poll and the clock give. Which client poll reports is
-- any descriptor; all commands of one event read the clock once.
--
-- Not modelled: the debug prints, the set-up of sockets (also fd_set_nb of utils.cpp) at the start of
-- the two main functions, die, and the test programs. What freed memory holds is not modelled:
-- process_timers faults on an entry that the map does not hold any more, which entry_del freed or gave
-- to the thread pool to free.
mod Prelude
pub mod HashTable
pub mod Serialisation
pub mod Request
pub mod Client
pub mod Heap
pub mod DList
pub mod Connection
pub mod Db
pub mod SocketIo
pub mod Timer
pub mod ThreadPool
pub mod Avl
pub mod Hash
pub mod Zset
pub mod Server
pub mod Session
mod Tests
