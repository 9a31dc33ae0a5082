-- ===== src/Server/Accept.antt =====
-- `accept_new_connection`: the table and the idle list hold the same connections.
use mathlib.Core.Path.{subst}
use redis_database_basic_imp.Prelude.{
  ℕ, ◌≡◌, refl, sym, ◌∙◌, inl, inr, ◌⊎◌, true, false, Bool-cases, Option, none, some, List, [], ◌∷◌,
  ◌++◌, ◌==◌, get_or, arith,
}
use redis_database_basic_imp.Prelude.Members.{in_list, in_list-append, in_list-differs}
use redis_database_basic_imp.DList.{Links, d_list_init, list_insert_before}
use redis_database_basic_imp.DList.Ring.{IsRing, IsLinked-frame, list_insert_before-IsRing}
use redis_database_basic_imp.Server.{
  Server, conn_put, minus_one, new_conn, with_conn, accepted, accept_new_connection,
}
use redis_database_basic_imp.Server.Held.{IsReady, IsHeld, IsListed, IsServer}
use redis_database_basic_imp.Server.Table.{conn_put-get_or}

pub new_conn-IsReady : (new_fd conn now : ℕ) → IsReady (new_conn new_fd conn now)
new_conn-IsReady new_fd conn now = record {
  valid = record {
    bytes = tt;
    read = omega arith;
    written = omega arith;
    sent = omega arith;
    idle = λ e. refl;
  };
  alive = λ e. absurd (grind arith);
  room = omega arith;
}

-- `dList_init` of a node outside a ring.
d_list_init-IsRing :
    (l : Links) (head n : ℕ) (ns : List ℕ)
    → in_list n (head ∷ ns) ≡ false
    → IsRing l head ns
    → IsRing (d_list_init l n) head ns
d_list_init-IsRing l head n ns out r = record {
  linked =
      IsLinked-frame l (d_list_init l n) head head ns
        (λ q i. rw (in_list-differs n q (head ∷ ns) out i) refl)
        (λ q i. rw (in_list-differs n q (head ∷ ns) out i) refl) r.linked;
  distinct = r.distinct;
}

-- The outcome: nothing is added, or the connection `conn` at the end of the ring.
abbrev pub IsAccepted : (head conn : ℕ) (ns : List ℕ) → ℕ × Server → Type 0
IsAccepted head conn ns r =
    ((r.0 ≡ minus_one) × IsServer head r.1 ns) ⊎ ((r.0 ≡ 0) × IsServer head r.1 (ns ++ (conn ∷ [])))

-- The connections after the new one was put into the table, whatever its links are.
module _ (conn new_fd now : ℕ) (s : Server) (real : (conn == 0) ≡ false) where
  abbrev with_new : Links → Server
  with_new links = record {
    conns = with_conn s.conns conn (new_conn new_fd conn now);
    net = record s.net { links = links; fd2conn = conn_put s.net.fd2conn new_fd conn };
  }

  new-IsHeld : (links : Links) → IsHeld (with_new links) conn
  new-IsHeld links =
      let e : (conn == conn) ≡ true = ground arith in
      let f : (new_fd == new_fd) ≡ true = ground arith in
      record {
        real = real;
        there = rw e (conn_put-get_or s.net.fd2conn new_fd conn new_fd ∙ rw f refl);
        self = rw e refl;
      }

  old-IsHeld :
      (links : Links) (n : ℕ)
      → (conn == n) ≡ false
      → get_or s.net.fd2conn new_fd 0 ≡ 0
      → IsHeld s n
      → IsHeld (with_new links) n
  old-IsHeld links n other free h =
      let away : (new_fd == (s.conns n).fd) ≡ false = elim (Bool-cases (new_fd == (s.conns n).fd)) [
        | inr f ↦ f
        | inl e ↦
            let z : new_fd ≡ (s.conns n).fd = ground arith in
            let nothing : n ≡ 0 = sym h.there ∙ rw (sym z) free in absurd (ground (arith, h.real))
      ] in
      record {
        real = h.real;
        there =
            rw other (conn_put-get_or s.net.fd2conn new_fd conn (s.conns n).fd ∙ rw away h.there);
        self = rw other h.self;
      }

  after-IsHeld :
      (links : Links) (ns : List ℕ)
      → get_or s.net.fd2conn new_fd 0 ≡ 0
      → ((n : ℕ) → in_list n ns ≡ true → IsHeld s n)
      → (n : ℕ) → in_list n (ns ++ (conn ∷ [])) ≡ true
      → IsHeld (with_new links) n
  after-IsHeld links ns free held n i = elim (Bool-cases (conn == n)) [
    | inl e ↦
        let z : conn ≡ n = ground arith in subst (IsHeld (with_new links)) z (new-IsHeld links)
    | inr f ↦
        let here : in_list n ns ≡ true = ground (arith, in_list-append n ns (conn ∷ []), i) in
        old-IsHeld links n f free (held n here)
  ]

  after-IsReady :
      (ns : List ℕ)
      → ((n : ℕ) → in_list n ns ≡ true → IsReady (s.conns n))
      → (n : ℕ) → in_list n (ns ++ (conn ∷ [])) ≡ true
      → IsReady (with_conn s.conns conn (new_conn new_fd conn now) n)
  after-IsReady ns ready n i = elim (Bool-cases (conn == n)) [
    | inl e ↦ rw e (new_conn-IsReady new_fd conn now)
    | inr f ↦
        let here : in_list n ns ≡ true = ground (arith, in_list-append n ns (conn ∷ []), i) in
        rw f (ready n here)
  ]

  after-IsListed :
      (links : Links) (ns : List ℕ)
      → in_list conn ns ≡ false
      → ((fd : ℕ) → IsListed s ns fd)
      → (fd : ℕ) → IsListed (with_new links) (ns ++ (conn ∷ [])) fd
  after-IsListed links ns out listed fd =
      let self : (conn == conn) ≡ true = ground arith in
      let table = conn_put-get_or s.net.fd2conn new_fd conn fd in
      let P : ℕ → Type 0 = λ k.
        ((k == 0) ≡ true)
        ⊎ ((in_list k (ns ++ (conn ∷ [])) ≡ true) × (((with_new links).conns k).fd ≡ fd)) in
      elim (Bool-cases (new_fd == fd)) [
        | inl e ↦
            let z : new_fd ≡ fd = ground arith in
            let last : in_list conn (ns ++ (conn ∷ [])) ≡ true =
              in_list-append conn ns (conn ∷ []) ∙ rw (out, self) refl in
            subst P (sym (table ∙ rw e refl)) (inr (last, rw self z))
        | inr f ↦ subst P (sym (table ∙ rw f refl)) (elim (listed fd) [
          | inl z ↦ inl z
          | inr (i, at) ↦
              let m = get_or s.net.fd2conn fd 0 in
              let other : (conn == m) ≡ false = in_list-differs conn m ns out i in
              inr (ground (arith, in_list-append m ns (conn ∷ []), i), rw other at)
        ])
      ]

module _ (head now conn : ℕ) (s : Server) (ns : List ℕ) (v : IsServer head s ns)
    (out : in_list conn (head ∷ ns) ≡ false) where
  accepted-IsAccepted :
      (new_fd : ℕ)
      → get_or s.net.fd2conn new_fd 0 ≡ 0
      → IsAccepted head conn ns (accepted head now conn new_fd s)
  unfolding accepted
  accepted-IsAccepted new_fd free =
      let t = v.table in
      elim (Bool-cases (conn == 0)) [
        | inl null ↦ rw null (
            inl (
              refl,
              record {
                table = record {
                  ring = t.ring;
                  held = λ n i.
                      let h = t.held n i in
                      record { real = h.real; there = h.there; self = h.self };
                  listed = t.listed;
                };
                ready = v.ready;
              },
            ))
        | inr real ↦ rw real (
            inr (
              refl,
              record {
                table = record {
                  ring =
                      list_insert_before-IsRing (d_list_init s.net.links conn) head conn ns
                        (d_list_init-IsRing s.net.links head conn ns out t.ring) out;
                  held = λ n i. after-IsHeld conn new_fd now s real _ ns free t.held n i;
                  listed =
                      after-IsListed conn new_fd now s real
                        (list_insert_before (d_list_init s.net.links conn) head conn) ns
                        (ground (arith, out)) t.listed;
                };
                ready = λ n i. after-IsReady conn new_fd now s real ns v.ready n i;
              },
            ))
      ]

-- With a descriptor from `accept` that is not in the table, and a node from `malloc` that is not in the
-- idle list, `accept_new_connection` keeps the idle list a ring of the connections in the table: with
-- the new one at its end, or, where a call fails, as it was.
pub accept_new_connection-IsAccepted :
    (head now conn : ℕ) (new_fd : Option ℕ) (s : Server) (ns : List ℕ)
    → IsServer head s ns
    → in_list conn (head ∷ ns) ≡ false
    → ((fd : ℕ) → new_fd ≡ some fd → get_or s.net.fd2conn fd 0 ≡ 0)
    → IsAccepted head conn ns (accept_new_connection head now conn new_fd s)
unfolding accept_new_connection
accept_new_connection-IsAccepted head now conn none s ns v out free = inl (refl, v)
accept_new_connection-IsAccepted head now conn (some fd) s ns v out free =
    accepted-IsAccepted head now conn s ns v out fd (free fd refl)
