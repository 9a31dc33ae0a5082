-- ===== src/Server/Client.antt =====
-- `client_event`: an event of a client keeps the server's invariant, and never ends in a fault.
use mathlib.Core.Path.{subst}
use mathlib.Core.List.{append-nil}
use redis_database_basic_imp.Prelude.{
  ℕ, ◌≤◌, ◌<◌, ◌≡◌, ◌≢◌, refl, sym, ap, ◌∙◌, inl, inr, ◌⊎◌, true, false, Bool-cases, List, [], ◌∷◌,
  ◌++◌, ◌==◌, leb, length, get_or, arith,
}
use redis_database_basic_imp.Prelude.Bytes.{Bytes}
use redis_database_basic_imp.Prelude.Members.{
  in_list, in_list-append, in_list-differs, in_list-without, in_list-split, in_list-here,
}
use redis_database_basic_imp.Prelude.Run.{Run, ok, ◌>>=◌, Returns, Returns-bind, Ensures-ok}
use redis_database_basic_imp.DList.{dlist_detach, list_insert_before}
use redis_database_basic_imp.DList.Ring.{refresh-IsRing}
use redis_database_basic_imp.Connection.{
  Conn, Kernel, State, state_req, state_res, state_end, buf_cap,
}
use redis_database_basic_imp.Connection.Step.{IsKernel, IsConn, HasRoom}
use redis_database_basic_imp.Connection.Fill.{connection_io-Rested}
use redis_database_basic_imp.Connection.Identity.{IsSame, connection_io-IsRefreshed}
use redis_database_basic_imp.Timer.Process.{drop_conn}
use redis_database_basic_imp.Server.{Server, with_conn, after_io, served, client_event}
use redis_database_basic_imp.Server.Held.{
  IsReady, IsHeld, IsListed, IsTable, IsServer, drop_conn-IsTable,
}

-- A connection is marked for deletion, or goes on.
State-cases :
    (t : State)
    → ((t ≢ state_end) × ((n fd : ℕ) (s : Server) → after_io t n fd s ≡ ok s))
      ⊎ ((n fd : ℕ) (s : Server) → after_io t n fd s ≡ after_io state_end n fd s)
State-cases state_req = inl (λ e. absurd (grind arith), λ n fd s. refl)
State-cases state_res = inl (λ e. absurd (grind arith), λ n fd s. refl)
State-cases state_end = inr λ n fd s. refl

-- The server after `connection_io` of the connection `n`, which may be marked for deletion.
module _ (head n : ℕ) (s : Server) (xs ys : List ℕ) (v : IsServer head s (xs ++ (n ∷ ys)))
    (mine : IsHeld s n) (c : Conn) (same : IsSame (s.conns n) c) where
  abbrev moved : List ℕ
  moved = (xs ++ ys) ++ (n ∷ [])

  abbrev after : Server
  after = record {
    conns = with_conn s.conns n c;
    net = record s.net { links = list_insert_before (dlist_detach s.net.links n) head n };
  }

  self : (n == n) ≡ true
  self = ground arith

  before : (m : ℕ) → in_list m moved ≡ in_list m (xs ++ (n ∷ ys))
  before m = ground (
    arith,
    in_list-append m (xs ++ ys) (n ∷ []),
    in_list-append m xs ys,
    in_list-append m xs (n ∷ ys),
  )

  moved-IsHeld : (m : ℕ) → in_list m moved ≡ true → IsHeld after m
  moved-IsHeld m i = elim (Bool-cases (n == m)) [
    | inl e ↦
        let z : n ≡ m = ground arith in
        subst (IsHeld after) z (record {
          real = mine.real;
          there = rw self (rw same.0 mine.there);
          self = rw self (same.1 ∙ mine.self);
        })
    | inr f ↦
        let h = v.table.held m (sym (before m) ∙ i) in
        record { real = h.real; there = rw f h.there; self = rw f h.self }
  ]

  moved-IsListed : (fd : ℕ) → IsListed after moved fd
  moved-IsListed fd =
      let m = get_or s.net.fd2conn fd 0 in
      elim (v.table.listed fd) [
        | inl z ↦ inl z
        | inr (i, at) ↦ inr (
          before m ∙ i,
          elim (Bool-cases (n == m)) [
            | inl e ↦
                let z : m ≡ n = ground arith in
                rw e (same.0 ∙ ap (λ k. (s.conns k).fd) (sym z) ∙ at)
            | inr f ↦ rw f at
          ],
        )
      ]

  moved-IsTable : IsTable head after moved
  moved-IsTable = record {
    ring = refresh-IsRing s.net.links head n xs ys v.table.ring;
    held = moved-IsHeld;
    listed = moved-IsListed;
  }

  moved-IsServer : IsReady c → IsServer head after moved
  moved-IsServer ready = record {
    table = moved-IsTable;
    ready = λ m i. elim (Bool-cases (n == m)) [
      | inl e ↦ rw e ready
      | inr f ↦ rw f (v.ready m (sym (before m) ∙ i))
    ];
  }

  gone : in_list n (xs ++ ys) ≡ false
  gone = in_list-without xs ys n v.table.ring.distinct.1

  ended-IsServer :
      Returns
        (λ r. IsServer head r (xs ++ ys))
        (drop_conn after.net n c.fd >>= λ net. ok (record after { net = net }))
  ended-IsServer =
      let at : (after.conns n).fd ≡ c.fd = rw self refl in
      let dropped =
        subst
          (λ fd.
            Returns (λ net. IsTable head (record after { net = net }) ((xs ++ ys) ++ []))
              (drop_conn after.net n fd))
          at (drop_conn-IsTable head n after (xs ++ ys) [] moved-IsTable) in
      Returns-bind dropped λ net t. (
        record after { net = net },
        refl,
        record {
          table = subst (IsTable head (record after { net = net })) (append-nil (xs ++ ys)) t;
          ready = λ m i.
              let other : (n == m) ≡ false = in_list-differs n m (xs ++ ys) gone i in
              let there : in_list m moved ≡ true =
                ground (arith, in_list-append m (xs ++ ys) (n ∷ []), i) in
              rw other (v.ready m (sym (before m) ∙ there));
        },
      )

  -- What follows `connection_io` keeps the invariant.
  pub after_io-IsServer :
      IsConn c
      → HasRoom c
      → Returns (λ r. (ns : List ℕ) × IsServer head r ns) (after_io c.state n c.fd after)
  after_io-IsServer valid room = elim (State-cases c.state) [
    | inl alive ↦
        let fits : length c.rbuf < buf_cap = elim room [
          | inl end ↦ absurd (alive.0 end)
          | inr fits ↦ fits
        ] in
        (
          after,
          alive.1 n c.fd after,
          (moved, moved-IsServer (record { valid = valid; alive = alive.0; room = fits })),
        )
    | inr end ↦ let (r, run, k) = ended-IsServer in (r, end n c.fd after ∙ run, (xs ++ ys, k))
  ]

-- What an event of a client leaves: the invariant for some connections `ns`, the state of `do_request`
-- good, and no more calls to make.
pub record Serves {W G : Type 0} (budget : W → ℕ) (IsGood : G → Type 0) (head b : ℕ)
    (r : Server × (G × W)) : Type 0 where
  pub ns : List ℕ
  pub server : IsServer head r.0 ns
  pub good : IsGood r.1.0
  pub less : budget r.1.1 ≤ b

module _ {W : Type 0} (kernel : Kernel W) (budget : W → ℕ) (law : IsKernel kernel budget)
    {G : Type 0} (do_request : List Bytes → Bytes → G → Run (ℕ × (Bytes × G))) (IsGood : G → Type 0)
    (serves : (cmd : List Bytes) (g : G)
      → IsGood g
      → Returns (λ r. IsGood r.1.1) (do_request cmd [] g))
    (fuel head : ℕ) where
  -- The connection `n` of the ring is served.
  served-Serves :
      (n now : ℕ) (s : Server) (xs ys : List ℕ) (g : G) (w : W)
      → IsServer head s (xs ++ (n ∷ ys))
      → IsGood g
      → budget w < fuel
      → Returns
          (Serves budget IsGood head (budget w))
          (served kernel do_request fuel head n now s g w)
  served-Serves n now s xs ys g w v good few =
      let here = in_list-here n xs ys in
      let mine = v.table.held n here in
      let r = v.ready n here in
      let (a, run, rested) =
        connection_io-Rested kernel budget law do_request IsGood serves fuel now head s.net.links
          (s.conns n) g w r.alive r.valid good r.room few in
      let (linked, same) =
        Ensures-ok _ _ a
          (connection_io-IsRefreshed kernel do_request fuel now head s.net.links (s.conns n) g w)
          run in
      let at : a.0 ≡ list_insert_before (dlist_detach s.net.links n) head n =
        linked ∙ ap (λ k. list_insert_before (dlist_detach s.net.links k) head k) mine.self in
      let (r', ran, (ns, k)) =
        after_io-IsServer head n s xs ys v mine a.1.0 same rested.conn rested.room in
      (
        (r', a.1.1),
        rw (run, at, ran) refl,
        record { ns = ns; server = k; good = rested.good; less = rested.less },
      )

  -- From a state of the invariant, an event of a client, whatever descriptor it names, ends: no
  -- assertion fails, no access leaves its object, and no loop runs on. It leads to a state of the
  -- invariant, for the connections that are left. That holds for a kernel within its bounds, with fuel
  -- above the calls that it lets make progress, and for a `do_request` that returns and keeps its
  -- state good from a good one.
  pub client_event-Serves :
      (client_fd now : ℕ) (s : Server) (ns : List ℕ) (g : G) (w : W)
      → IsServer head s ns
      → IsGood g
      → budget w < fuel
      → Returns
          (Serves budget IsGood head (budget w))
          (client_event kernel do_request fuel head client_fd now s g w)
  unfolding client_event
  client_event-Serves client_fd now s ns g w v good few =
      let n = get_or s.net.fd2conn client_fd 0 in
      let same : Serves budget IsGood head (budget w) (s, (g, w)) = record {
        ns = ns;
        server = v;
        good = good;
        less = omega arith;
      } in
      elim (Bool-cases (leb (length s.net.fd2conn) client_fd)) [
        | inl outside ↦ ((s, (g, w)), rw outside refl, same)
        | inr inside ↦ elim (v.table.listed client_fd) [
          | inl null ↦ ((s, (g, w)), rw (inside, null) refl, same)
          | inr (there, at) ↦
              let (xs, ys, e) = in_list-split n ns there in
              let (r, run, k) =
                served-Serves n now s xs ys g w (subst (IsServer head s) e v) good few in
              (r, rw (inside, (v.table.held n there).real) run, k)
        ]
      ]
