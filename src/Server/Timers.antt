-- ===== src/Server/Timers.antt =====
-- `process_timers` on the whole state: the idle connections and the keys whose time has come.
use redis_database_basic_imp.Prelude.{ℕ, ◌+◌, ◌<◌, refl, List, arith, length}
use redis_database_basic_imp.Prelude.Run.{Returns, Ensures-ok}
use redis_database_basic_imp.Timer.Process.{Conns, k_max_works, process_timers}
use redis_database_basic_imp.Timer.Idle.{kept}
use redis_database_basic_imp.Timer.Entries.{IsTimed}
use redis_database_basic_imp.Timer.Expire.{Expired, expire_loop-Expired}
use redis_database_basic_imp.Db.{GlobalData}
use redis_database_basic_imp.Server.{Server}
use redis_database_basic_imp.Server.Held.{IsServer}
use redis_database_basic_imp.Server.Sweep.{idle_loop-keeps, idle_loop-Returns}

-- What `process_timers` leaves: the invariant for the connections that may still wait, and the keys that
-- are not due.
pub record Processed (head now : ℕ) (s : Server) (ns : List ℕ) (g : GlobalData)
    (r : Conns × GlobalData) : Type 0 where
  pub server : IsServer head (record s { net = r.0 }) (kept head s.conns now ns)
  pub expired : Expired now 0 g r.1

-- From a state of the server's invariant `process_timers` ends without a fault: its first loop within
-- one round more than there are connections, its second within `k_max_works + 1`, where no key and no
-- address is in the map twice, no long resize is under way, each item of the ordered and linked heap is
-- of an entry in the map, and each entry knows where its item is. It leaves a state of the invariant, with the connections from the first one on that may
-- still wait. It deletes the entries of the items that it takes out, which are due, and leaves all
-- other entries and items; afterwards no item is due, or it has deleted `k_max_works + 1` entries. The
-- map and the heap are again as they have to be.
pub process_timers-Processed :
    (rounds head now : ℕ) (s : Server) (ns : List ℕ) (g : GlobalData)
    → IsServer head s ns
    → IsTimed g.db g.heap
    → length ns < rounds
    → Returns (Processed head now s ns g) (process_timers rounds head s.conns now s.net g)
unfolding process_timers
process_timers-Processed rounds head now s ns g v t enough =
    let (net, run) = idle_loop-Returns head now rounds s ns v enough in
    let k = Ensures-ok _ _ net (idle_loop-keeps head now rounds s ns v) run in
    let (g', ran, x) =
      expire_loop-Expired now (k_max_works + 1) 0 g t (omega arith) (omega arith) in
    ((net, g'), rw (run, ran) refl, record { server = k; expired = x })
