-- ===== src/Server/Loop.antt =====
-- The loop of `main` in Server.cpp, as the steps that it takes one after another: a new connection, an
-- event of a client, and `process_timers`. Parameters are the kernel, the functions of the C and C++
-- libraries that read numbers, and the clock's readings, one for the commands of an event.
use redis_database_basic_imp.Prelude.{
  ℕ, suc, ◌+◌, ◌<◌, ◌≡◌, refl, inl, inr, ◌⊎◌, true, false, Bool-cases, Option, some, List, [], ◌∷◌,
  ◌++◌, ◌==◌, length, get_or, arith,
}
use redis_database_basic_imp.Prelude.Members.{in_list}
use redis_database_basic_imp.Prelude.Run.{ok, Ensures, Ensures-ok, Ensures-bind, Ensures-then}
use redis_database_basic_imp.DList.{Links}
use redis_database_basic_imp.Connection.{Conn, Kernel}
use redis_database_basic_imp.Connection.Step.{IsKernel}
use redis_database_basic_imp.Timer.Process.{
  Conns, idle_loop, expire_loop, k_max_works, process_timers,
}
use redis_database_basic_imp.Timer.Idle.{kept}
use redis_database_basic_imp.Db.{GlobalData, Strtoll}
use redis_database_basic_imp.Zset.{RawEq}
use redis_database_basic_imp.Db.Sets.{Stod, Stoll}
use redis_database_basic_imp.Db.Dispatch.{do_request}
use redis_database_basic_imp.Server.{Server, start_server, accept_new_connection, client_event}
use redis_database_basic_imp.Server.Held.{IsServer}
use redis_database_basic_imp.Server.Accept.{accept_new_connection-IsAccepted}
use redis_database_basic_imp.Server.Client.{Serves}
use redis_database_basic_imp.Server.Keeps.{IsAny, client_event-keeps}
use redis_database_basic_imp.Server.Sweep.{idle_loop-keeps, idle_loop-Returns}

-- `malloc` gives null, or an address where no connection and not the head of the idle list stands.
abbrev pub IsFresh : ℕ → Server → ℕ → Type 0
IsFresh head s conn =
    (conn ≡ 0)
    ⊎ (((conn == head) ≡ false) × ((fd : ℕ) → (get_or s.net.fd2conn fd 0 == conn) ≡ false))

-- `accept` gives a descriptor of no other connection, if it gives one.
abbrev pub IsFree : Server → Option ℕ → Type 0
IsFree s new_fd = (fd : ℕ) → new_fd ≡ some fd → get_or s.net.fd2conn fd 0 ≡ 0

-- The server, the database, and what is left to the kernel.
abbrev pub World : Type 0 → Type 0
World W = Server × (GlobalData × W)

module _ {W : Type 0} (kernel : Kernel W) (strtoll : Strtoll) (stod : Stod) (stoll : Stoll)
    (raw_eq : RawEq) (zfuel fuel head : ℕ) where
  -- A step of the loop.
  pub data LoopStep : World W → World W → Type 0 where
    accepts :
        (now conn : ℕ) (new_fd : Option ℕ) (s : Server) (x : GlobalData × W)
        → IsFresh head s conn
        → IsFree s new_fd
        → LoopStep (s, x) ((accept_new_connection head now conn new_fd s).1, x)
    answers :
        (client_fd now clock : ℕ) (s : Server) (g : GlobalData) (w : W) (r : World W)
        → client_event kernel
            (do_request strtoll stod stoll raw_eq zfuel clock)
            fuel
            head
            client_fd
            now
            s
            g
            w
          ≡ ok r
        → LoopStep (s, (g, w)) r
    sweeps :
        (rounds now : ℕ) (s : Server) (g g' : GlobalData) (w : W) (net : Conns)
        → process_timers rounds head s.conns now s.net g ≡ ok (net, g')
        → LoopStep (s, (g, w)) (record s { net = net }, (g', w))

  pub data LoopReach (a : World W) : World W → Type 0 where
    starts : LoopReach a a
    goes_on : (b c : World W) → LoopReach a b → LoopStep b c → LoopReach a c

pub start_server-IsServer :
    (conns : ℕ → Conn) (links : Links) (head : ℕ) → IsServer head (start_server conns links head) []
start_server-IsServer conns links head =
    let self : (head == head) ≡ true = ground arith in
    record {
      table = record {
        ring = record { linked = (rw self refl, rw self refl); distinct = (refl, tt) };
        held = λ n i. absurd cc;
        listed = λ fd. inl refl;
      };
      ready = λ n i. absurd cc;
    }

-- A fresh address is that of no connection.
fresh_out :
    (head : ℕ) (s : Server) (ns : List ℕ) (conn : ℕ)
    → (head == 0) ≡ false
    → IsServer head s ns
    → IsFresh head s conn
    → in_list conn (head ∷ ns) ≡ false
fresh_out head s ns conn real v fresh = elim (Bool-cases (in_list conn ns)) [
  | inr out ↦ elim fresh [
    | inl null ↦ ground (arith, out, real, null)
    | inr (other, away) ↦ ground (arith, out, other)
  ]
  | inl i ↦
      let h = v.table.held conn i in
      elim fresh [
        | inl null ↦ absurd (ground (arith, h.real, null))
        | inr (other, away) ↦ let f = away (s.conns conn).fd in absurd (ground (arith, f, h.there))
      ]
]

-- `process_timers` does to the table and the idle list what its first loop does.
process_timers-keeps :
    (rounds head now : ℕ) (s : Server) (g : GlobalData) (ns : List ℕ)
    → IsServer head s ns
    → Ensures
        (λ r. IsServer head (record s { net = r.0 }) (kept head s.conns now ns))
        (process_timers rounds head s.conns now s.net g)
unfolding process_timers
process_timers-keeps rounds head now s g ns v =
    let P : Conns → Type 0 =
      λ net. IsServer head (record s { net = net }) (kept head s.conns now ns) in
    Ensures-bind P (λ r. P r.0) (idle_loop head s.conns now rounds s.net) _
      (idle_loop-keeps head now rounds s ns v)
      λ net k. Ensures-then (λ r. P r.0) (expire_loop now (k_max_works + 1) 0 g) _ λ g'. k

module _ {W : Type 0} (kernel : Kernel W) (budget : W → ℕ) (law : IsKernel kernel budget)
    (strtoll : Strtoll) (stod : Stod) (stoll : Stoll) (raw_eq : RawEq) (zfuel fuel head : ℕ)
    (real : (head == 0) ≡ false) where
  -- The invariant, with no more than `b` calls left to make.
  abbrev Serving : ℕ → World W → Type 0
  Serving = Serves budget IsAny head

  LoopStep-Serves :
      (b : ℕ) (a c : World W)
      → b < fuel
      → Serving b a
      → LoopStep kernel strtoll stod stoll raw_eq zfuel fuel head a c
      → Serving b c
  LoopStep-Serves b _ _ few v (accepts now conn new_fd s x fresh free) =
      let out = fresh_out head s v.ns conn real v.server fresh in
      elim (accept_new_connection-IsAccepted head now conn new_fd s v.ns v.server out free) [
        | inl (failed, k) ↦ record { ns = v.ns; server = k; good = tt; less = v.less }
        | inr (added, k) ↦ record { ns = v.ns ++ (conn ∷ []); server = k; good = tt; less = v.less }
      ]
  LoopStep-Serves b _ _ few v (answers client_fd now clock s g w r run) =
      let serve = do_request strtoll stod stoll raw_eq zfuel clock in
      let kept =
        client_event-keeps kernel budget law serve fuel head client_fd now s v.ns g w v.server
          (omega (arith, v.less, few)) in
      let k = Ensures-ok (Serving (budget w)) _ r kept run in
      record { ns = k.ns; server = k.server; good = tt; less = omega (arith, k.less, v.less) }
  LoopStep-Serves b _ _ few v (sweeps rounds now s g g' w net run) = record {
    ns = kept head s.conns now v.ns;
    server = Ensures-ok _ _ (net, g') (process_timers-keeps rounds head now s g v.ns v.server) run;
    good = tt;
    less = v.less;
  }

  LoopReach-Serves :
      (b : ℕ) (a c : World W)
      → b < fuel
      → Serving b a
      → LoopReach kernel strtoll stod stoll raw_eq zfuel fuel head a c
      → Serving b c
  LoopReach-Serves b a _ few v starts = v
  LoopReach-Serves b a _ few v (goes_on c d path last) =
      LoopStep-Serves b c d few (LoopReach-Serves b a c few v path) last

  -- In every state that the loop of `main` reaches from its start, the idle list is the
  -- ring of some connections, `fd2conn` holds them and no others, each at its own descriptor, and each
  -- is valid, not marked for deletion, and has room to read into. The loop over the idle list ends
  -- from there. That holds for any requests, with a kernel within its bounds and fuel above the calls
  -- that it lets make progress, where `accept` gives no descriptor of an open connection, `malloc` gives
  -- no address in use, and the head of the idle list is not at the address null.
  pub LoopReach-IsServer :
      (conns : ℕ → Conn) (links : Links) (g : GlobalData) (w : W) (r : World W)
      → budget w < fuel
      → LoopReach kernel strtoll stod stoll raw_eq zfuel fuel head
          (start_server conns links head, (g, w))
          r
      → (ns : List ℕ) × IsServer head r.0 ns
        × ((now : ℕ)
            → (net : Conns) × (idle_loop head r.0.conns now (suc (length ns)) r.0.net ≡ ok net))
  LoopReach-IsServer conns links g w r few path =
      let s = start_server conns links head in
      let v = start_server-IsServer conns links head in
      let start : Serving (budget w) (s, (g, w)) = record {
        ns = [];
        server = v;
        good = tt;
        less = omega arith;
      } in
      let k = LoopReach-Serves (budget w) (s, (g, w)) r few start path in
      (
        k.ns,
        k.server,
        λ now. idle_loop-Returns head now (suc (length k.ns)) r.0 k.ns k.server (omega arith),
      )
