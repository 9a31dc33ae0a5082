-- ===== src/Server/Held.antt =====
-- The invariant of the server, and how it ends a connection.
use mathlib.Core.Path.{subst}
use redis_database_basic_imp.Prelude.{
  ℕ, ◌<◌, ◌≡◌, ◌≢◌, refl, sym, ap, ◌∙◌, inl, inr, ◌⊎◌, true, false, Bool-cases, List, [], ◌∷◌, ◌++◌,
  ◌==◌, ltb, ltb→lt, length, get_or, get_or-set, set, if◌then◌else◌, zero, suc, arith,
}
use redis_database_basic_imp.Prelude.Members.{
  in_list, in_list-here, in_list-append, in_list-differs, in_list-without,
}
use redis_database_basic_imp.Prelude.Run.{Returns}
use redis_database_basic_imp.DList.{dlist_detach}
use redis_database_basic_imp.DList.Ring.{IsRing, dlist_detach-IsRing}
use redis_database_basic_imp.Connection.{Conn, state_end, buf_cap}
use redis_database_basic_imp.Connection.Step.{IsConn}
use redis_database_basic_imp.Timer.Process.{drop_conn}
use redis_database_basic_imp.Server.{Server}

-- A connection that `poll` is asked about: valid, not marked for deletion, with room to read into.
pub record IsReady (c : Conn) : Type 0 where
  pub valid : IsConn c
  pub alive : c.state ≢ state_end
  pub room : length c.rbuf < buf_cap

-- The connection `n` stands in the table at its descriptor.
pub record IsHeld (s : Server) (n : ℕ) : Type 0 where
  pub real : (n == 0) ≡ false
  pub there : get_or s.net.fd2conn (s.conns n).fd 0 ≡ n
  pub self : (s.conns n).idle_list ≡ n

-- What stands in the table at `fd` is null, or a connection of `ns` with that descriptor.
abbrev pub IsListed : Server → List ℕ → ℕ → Type 0
IsListed s ns fd =
    let n = get_or s.net.fd2conn fd 0 in
    ((n == 0) ≡ true) ⊎ ((in_list n ns ≡ true) × ((s.conns n).fd ≡ fd))

-- The idle list is the ring of the connections `ns`, and the table holds them and no others.
pub record IsTable (head : ℕ) (s : Server) (ns : List ℕ) : Type 0 where
  pub ring : IsRing s.net.links head ns
  pub held : (n : ℕ) → in_list n ns ≡ true → IsHeld s n
  pub listed : (fd : ℕ) → IsListed s ns fd

-- The state of the server between two events: the connections are in the idle list and in the table,
-- and ready.
pub record IsServer (head : ℕ) (s : Server) (ns : List ℕ) : Type 0 where
  pub table : IsTable head s ns
  pub ready : (n : ℕ) → in_list n ns ≡ true → IsReady (s.conns n)

-- What is read from the table, other than null, is read inside it.
inside_table : (xs : List ℕ) (i d : ℕ) → (get_or xs i d == d) ≡ false → ltb i (length xs) ≡ true
inside_table [] i d h = absurd (ground arith)
inside_table (x ∷ xs) zero d h = ground arith
inside_table (x ∷ xs) (suc i) d h = ground (arith, inside_table xs i d h)

-- The end of a connection of the ring: it is taken out of the ring and of the table.
module _ (head n : ℕ) (s : Server) (xs ys : List ℕ) (v : IsTable head s (xs ++ (n ∷ ys))) where
  here : in_list n (xs ++ (n ∷ ys)) ≡ true
  here = in_list-here n xs ys

  mine : IsHeld s n
  mine = v.held n here

  abbrev pub without : Server
  without = record s {
    net = record {
      links = dlist_detach s.net.links n;
      fd2conn = set s.net.fd2conn (s.conns n).fd 0;
      closed = (s.conns n).fd ∷ s.net.closed;
    };
  }

  fits : ltb (s.conns n).fd (length s.net.fd2conn) ≡ true
  fits = inside_table s.net.fd2conn (s.conns n).fd 0 (rw mine.there mine.real)

  other : (m : ℕ) → in_list m (xs ++ ys) ≡ true → (n == m) ≡ false
  other m i = in_list-differs n m (xs ++ ys) (in_list-without xs ys n v.ring.distinct.1) i

  still : (m : ℕ) → in_list m (xs ++ ys) ≡ true → in_list m (xs ++ (n ∷ ys)) ≡ true
  still m i = ground (arith, in_list-append m xs ys, in_list-append m xs (n ∷ ys), i)

  remains :
      (m : ℕ) → in_list m (xs ++ (n ∷ ys)) ≡ true → (m == n) ≡ false → in_list m (xs ++ ys) ≡ true
  remains m i f = ground (arith, in_list-append m xs ys, in_list-append m xs (n ∷ ys), i, f)

  -- A node with another descriptor is another node.
  by_fd : (m fd : ℕ) → (s.conns m).fd ≡ fd → ((s.conns n).fd == fd) ≡ false → (m == n) ≡ false
  by_fd m fd at f = elim (Bool-cases (m == n)) [
    | inr g ↦ g
    | inl e ↦
        let z : m ≡ n = ground arith in
        let same : (s.conns n).fd ≡ fd = ap (λ k. (s.conns k).fd) (sym z) ∙ at in
        absurd (ground (arith, same, f))
  ]

  table_after :
      (fd : ℕ)
      → get_or without.net.fd2conn fd 0
        ≡ (if (s.conns n).fd == fd then 0 else get_or s.net.fd2conn fd 0)
  table_after fd = get_or-set s.net.fd2conn (s.conns n).fd fd 0 0 (ltb→lt _ _ fits)

  -- Another connection has another descriptor.
  away : (m : ℕ) → in_list m (xs ++ ys) ≡ true → ((s.conns n).fd == (s.conns m).fd) ≡ false
  away m i = elim (Bool-cases ((s.conns n).fd == (s.conns m).fd)) [
    | inr f ↦ f
    | inl e ↦
        let z : (s.conns n).fd ≡ (s.conns m).fd = ground arith in
        let same : n ≡ m =
          sym mine.there ∙ ap (λ k. get_or s.net.fd2conn k 0) z ∙ (v.held m (still m i)).there in
        let f = other m i in absurd (ground (arith, same, f))
  ]

  kept-IsHeld : (m : ℕ) → in_list m (xs ++ ys) ≡ true → IsHeld without m
  kept-IsHeld m i =
      let h = v.held m (still m i) in
      record {
        real = h.real;
        there = table_after (s.conns m).fd ∙ rw (away m i) h.there;
        self = h.self;
      }

  kept-IsListed : (fd : ℕ) → IsListed without (xs ++ ys) fd
  kept-IsListed fd = elim (Bool-cases ((s.conns n).fd == fd)) [
    | inl e ↦ inl (rw (table_after fd, e) refl)
    | inr f ↦
        let same : get_or without.net.fd2conn fd 0 ≡ get_or s.net.fd2conn fd 0 =
          table_after fd ∙ rw f refl in
        subst (λ k. ((k == 0) ≡ true) ⊎ ((in_list k (xs ++ ys) ≡ true) × ((s.conns k).fd ≡ fd)))
          (sym same)
          (elim (v.listed fd) [
            | inl z ↦ inl z
            | inr (i, at) ↦ inr (
              remains (get_or s.net.fd2conn fd 0) i (by_fd (get_or s.net.fd2conn fd 0) fd at f),
              at,
            )
          ])
  ]

  pub drop_conn-IsTable :
      Returns
        (λ net. IsTable head (record s { net = net }) (xs ++ ys))
        (drop_conn s.net n (s.conns n).fd)
  unfolding drop_conn
  drop_conn-IsTable = (
    without.net,
    rw fits refl,
    record {
      ring = dlist_detach-IsRing s.net.links head n xs ys v.ring;
      held = kept-IsHeld;
      listed = kept-IsListed;
    },
  )
