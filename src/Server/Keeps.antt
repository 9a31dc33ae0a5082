-- ===== src/Server/Keeps.antt =====
-- `client_event` with any `do_request`, one that may fault or not end too: where the event ends, the
-- server's invariant still holds.
use redis_database_basic_imp.Prelude.{ℕ, ◌<◌, refl, List, [], length, get_or, leb, ◌==◌}
use redis_database_basic_imp.Prelude.Bytes.{Bytes}
use redis_database_basic_imp.Prelude.Run.{
  Run, ok, fault, out_of_fuel, Returns, Ensures, Refines, Refines-refl, Refines-bind, Refines-if,
  Refines-Ensures,
}
use redis_database_basic_imp.Connection.{Kernel, connection_io, res_err}
use redis_database_basic_imp.Connection.Step.{IsKernel}
use redis_database_basic_imp.Connection.Refine.{connection_io-Refines}
use redis_database_basic_imp.Server.{Server, served, client_event}
use redis_database_basic_imp.Server.Held.{IsServer}
use redis_database_basic_imp.Server.Client.{Serves, client_event-Serves}

-- A call that always returns, and returns the same where `do_request` returns.
abbrev or_refused : {G : Type 0} → G → Run (ℕ × (Bytes × G)) → Run (ℕ × (Bytes × G))
or_refused g (ok r) = ok r
or_refused g fault = ok (res_err, ([], g))
or_refused g out_of_fuel = ok (res_err, ([], g))

or_refused-Refines : {G : Type 0} (g : G) (r : Run (ℕ × (Bytes × G))) → Refines r (or_refused g r)
or_refused-Refines g (ok r) = refl
or_refused-Refines g fault = tt
or_refused-Refines g out_of_fuel = tt

or_refused-Returns :
    {G : Type 0} (g : G) (r : Run (ℕ × (Bytes × G))) → Returns (λ a. Unit {0}) (or_refused g r)
or_refused-Returns g (ok r) = (r, refl, tt)
or_refused-Returns g fault = (_, refl, tt)
or_refused-Returns g out_of_fuel = (_, refl, tt)

-- Nothing is asked of the state of `do_request`.
abbrev pub IsAny {ℓ} : {G : Type ℓ} → G → Type 0
IsAny g = Unit {0}

module _ {W G : Type 0} (kernel : Kernel W) (budget : W → ℕ) (law : IsKernel kernel budget)
    (do_request : List Bytes → Bytes → G → Run (ℕ × (Bytes × G))) (fuel head : ℕ) where
  abbrev refusing : List Bytes → Bytes → G → Run (ℕ × (Bytes × G))
  refusing cmd out g = or_refused g (do_request cmd out g)

  served-Refines :
      (n now : ℕ) (s : Server) (g : G) (w : W)
      → Refines
          (served kernel do_request fuel head n now s g w)
          (served kernel refusing fuel head n now s g w)
  served-Refines n now s g w =
      Refines-bind (connection_io kernel do_request fuel now head s.net.links (s.conns n) g w)
        (connection_io kernel refusing fuel now head s.net.links (s.conns n) g w) _ _
        (connection_io-Refines kernel do_request refusing
          (λ cmd out g'. or_refused-Refines g' (do_request cmd out g')) fuel now head s.net.links
          (s.conns n) g w)
        λ a. Refines-refl _

  client_event-Refines :
      (client_fd now : ℕ) (s : Server) (g : G) (w : W)
      → Refines
          (client_event kernel do_request fuel head client_fd now s g w)
          (client_event kernel refusing fuel head client_fd now s g w)
  unfolding client_event
  client_event-Refines client_fd now s g w =
      let n = get_or s.net.fd2conn client_fd 0 in
      Refines-if (leb (length s.net.fd2conn) client_fd) _ _ _ _ refl
        (Refines-if (n == 0) _ _ _ _ refl (served-Refines n now s g w))

  pub client_event-keeps :
      (client_fd now : ℕ) (s : Server) (ns : List ℕ) (g : G) (w : W)
      → IsServer head s ns
      → budget w < fuel
      → Ensures
          (Serves budget IsAny head (budget w))
          (client_event kernel do_request fuel head client_fd now s g w)
  client_event-keeps client_fd now s ns g w v few =
      Refines-Ensures (Serves budget IsAny head (budget w)) _
        (client_event kernel refusing fuel head client_fd now s g w)
        (client_event-Refines client_fd now s g w)
        (client_event-Serves kernel budget law refusing IsAny
          (λ cmd g' _. or_refused-Returns g' (do_request cmd [] g')) fuel head client_fd now s ns g
          w v tt few)
