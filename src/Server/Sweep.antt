-- ===== src/Server/Sweep.antt =====
-- The loop of `process_timers` over the idle list keeps the server's invariant.
use redis_database_basic_imp.Prelude.{
  ℕ, zero, suc, ◌<◌, ◌≡◌, ◌∙◌, refl, inl, inr, true, false, Bool-cases, List, [], ◌∷◌, length,
  arith,
}
use redis_database_basic_imp.Prelude.Members.{in_list-first}
use redis_database_basic_imp.Prelude.Run.{ok, Ensures}
use redis_database_basic_imp.DList.{d_list_empty}
use redis_database_basic_imp.Timer.Process.{Conns, idle_loop}
use redis_database_basic_imp.Timer.Idle.{waits, kept}
use redis_database_basic_imp.Server.{Server}
use redis_database_basic_imp.Server.Held.{IsServer, drop_conn-IsTable}

module _ (head now_us : ℕ) where
  -- Without connections the loop ends at once.
  idle_loop-none :
      (fuel : ℕ) (s : Server)
      → IsServer head s []
      → idle_loop head s.conns now_us (suc fuel) s.net ≡ ok s.net
  unfolding idle_loop
  idle_loop-none fuel s v =
      let empty : d_list_empty s.net.links head ≡ true = rw v.table.ring.linked.0 (ground arith) in
      rw empty refl

  module _ (fuel : ℕ) (s : Server) (n : ℕ) (ns : List ℕ) (v : IsServer head s (n ∷ ns)) where
    first : s.net.links.next head ≡ n
    first = v.table.ring.linked.0

    not_empty : d_list_empty s.net.links head ≡ false
    not_empty =
        let mine = v.table.held n (in_list-first n ns) in
        let d = v.table.ring.distinct in rw first (ground (arith, d.0, mine.real))

    -- It ends at a connection that may still wait.
    idle_loop-waits :
        waits head s.conns now_us n ≡ true
        → idle_loop head s.conns now_us (suc fuel) s.net ≡ ok s.net
    unfolding idle_loop
    idle_loop-waits w = rw (not_empty, first, w) refl

    -- It takes out one that may not, and goes on.
    idle_loop-drops :
        waits head s.conns now_us n ≡ false
        → (net : Conns) × (idle_loop head s.conns now_us (suc fuel) s.net
            ≡ idle_loop head s.conns now_us fuel net)
          × IsServer head (record s { net = net }) ns
    unfolding idle_loop
    idle_loop-drops w =
        let (net, drop, t) = drop_conn-IsTable head n s [] ns v.table in
        (
          net,
          rw (not_empty, first, w, drop) refl,
          record { table = t; ready = λ m i. v.ready m (ground (arith, i)) },
        )

  -- Where the loop ends, in a state of the invariant.
  pub idle_loop-keeps :
      (fuel : ℕ) (s : Server) (ns : List ℕ)
      → IsServer head s ns
      → Ensures
          (λ net. IsServer head (record s { net = net }) (kept head s.conns now_us ns))
          (idle_loop head s.conns now_us fuel s.net)
  unfolding idle_loop
  idle_loop-keeps zero s ns v = tt
  idle_loop-keeps (suc fuel) s [] v = rw (idle_loop-none fuel s v) v
  idle_loop-keeps (suc fuel) s (n ∷ ns) v = elim (Bool-cases (waits head s.conns now_us n)) [
    | inl w ↦ rw (idle_loop-waits fuel s n ns v w, w) v
    | inr w ↦
        let (net, go, k) = idle_loop-drops fuel s n ns v w in
        rw (go, w) (idle_loop-keeps fuel (record s { net = net }) ns k)
  ]

  -- The loop ends within one round more than there are connections.
  pub idle_loop-Returns :
      (fuel : ℕ) (s : Server) (ns : List ℕ)
      → IsServer head s ns
      → length ns < fuel
      → (net : Conns) × (idle_loop head s.conns now_us fuel s.net ≡ ok net)
  idle_loop-Returns zero s ns v enough = absurd (omega (arith, enough))
  idle_loop-Returns (suc fuel) s [] v enough = (s.net, idle_loop-none fuel s v)
  idle_loop-Returns (suc fuel) s (n ∷ ns) v enough =
      elim (Bool-cases (waits head s.conns now_us n)) [
        | inl w ↦ (s.net, idle_loop-waits fuel s n ns v w)
        | inr w ↦
            let (net, go, k) = idle_loop-drops fuel s n ns v w in
            let (net', run) =
              idle_loop-Returns fuel (record s { net = net }) ns k (omega (arith, enough)) in
            (net', go ∙ run)
      ]
