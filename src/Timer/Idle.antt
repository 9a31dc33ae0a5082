-- ===== src/Timer/Idle.antt =====
-- The loop of `process_timers` over the idle list: which connections it closes.
use redis_database_basic_imp.Prelude.{
  ℕ, zero, suc, ◌<◌, ◌≡◌, refl, sym, ◌∙◌, inl, inr, Bool, true, false, Bool-cases, List, [], ◌∷◌,
  ltb, ◌==◌, if◌then◌else◌, length, arith, set, length-set, All,
}
use mathlib.Core.Path.{subst}
use redis_database_basic_imp.Prelude.Run.{Returns}
use redis_database_basic_imp.DList.{d_list_empty, dlist_detach}
use redis_database_basic_imp.DList.Ring.{IsRing, dlist_detach-IsRing}
use redis_database_basic_imp.Connection.{Conn}
use redis_database_basic_imp.Timer.{idle_deadline}
use redis_database_basic_imp.Timer.Process.{Conns, drop_conn, idle_loop}

module _ (head : ℕ) (conns : ℕ → Conn) (now_us : ℕ) where
  abbrev pub waits : ℕ → Bool
  waits n = ltb now_us (idle_deadline (conns n).idle_start)

  -- The connections from the first one on that may still wait.
  abbrev pub kept : List ℕ → List ℕ
  kept [] = []
  kept (n ∷ ns) = let rest = kept ns in if waits n then n ∷ ns else rest

  -- The descriptors of those before it, the last one first, onto `fds`.
  abbrev pub dropped : List ℕ → List ℕ → List ℕ
  dropped [] fds = fds
  dropped (n ∷ ns) fds = let rest = dropped ns ((conns n).fd ∷ fds) in if waits n then fds else rest

  pub record Swept (s : Conns) (ns : List ℕ) (s' : Conns) : Type 0 where
    pub ring : IsRing s'.links head (kept ns)
    pub closed : s'.closed ≡ dropped ns s.closed
    pub width : length s'.fd2conn ≡ length s.fd2conn

  abbrev pub IsOpen : ℕ → ℕ → Type 0
  IsOpen width n = ((n == 0) ≡ false) × ((conns n).fd < width)

  -- On an idle list that is a ring of connections, each with a descriptor inside `fd2conn`, the first
  -- loop of `process_timers` ends within one round more than there are connections. It closes just
  -- the connections before the first one that may still wait, and leaves the ring of the others.
  pub idle_loop-Swept :
      (fuel : ℕ) (s : Conns) (ns : List ℕ)
      → IsRing s.links head ns
      → All (IsOpen (length s.fd2conn)) ns
      → length ns < fuel
      → Returns (Swept s ns) (idle_loop head conns now_us fuel s)
  unfolding idle_loop drop_conn
  idle_loop-Swept zero s ns r ops enough = absurd (omega (arith, enough))
  idle_loop-Swept (suc fuel) s [] r ops enough =
      let empty : d_list_empty s.links head ≡ true = rw (r.linked.0) (ground arith) in
      (s, rw empty refl, record { ring = r; closed = refl; width = refl })
  idle_loop-Swept (suc fuel) s (n ∷ ns) r (here, ops) enough =
      let first : s.links.next head ≡ n = r.linked.0 in
      let some_conn : d_list_empty s.links head ≡ false =
        rw (first) (ground (arith, r.distinct.0, here.0)) in
      elim (Bool-cases (waits n)) [
        | inl w ↦ (
          s,
          rw (some_conn, first, w) refl,
          record { ring = rw w r; closed = rw w refl; width = refl },
        )
        | inr w ↦
            let s1 : Conns = record {
              links = dlist_detach s.links n;
              fd2conn = set s.fd2conn (conns n).fd 0;
              closed = (conns n).fd ∷ s.closed;
            } in
            let wide = length-set s.fd2conn (conns n).fd 0 in
            let inside : ltb (conns n).fd (length s.fd2conn) ≡ true = ground (arith, here.1) in
            let (s', run, swept) =
              idle_loop-Swept fuel s1 ns (dlist_detach-IsRing s.links head n [] ns r)
                (subst (λ k. All (IsOpen k) ns) (sym wide) ops) (omega (arith, enough)) in
            (
              s',
              rw (some_conn, first, w, inside) run,
              record {
                ring = rw w swept.ring;
                closed = rw w swept.closed;
                width = swept.width ∙ wide;
              },
            )
      ]
