-- ===== src/Tests/Servers.antt =====
-- An idle list with the connections 2 and 3, of the descriptors 5 and 6, below the node 1.
use redis_database_basic_imp.Prelude.{
  ℕ, zero, suc, ◌≡◌, ◌⊎◌, refl, inl, inr, true, [], ◌∷◌, arith, ◌==◌, if◌then◌else◌, Bool-cases,
}
use redis_database_basic_imp.Prelude.Members.{in_list}
use redis_database_basic_imp.DList.{Links}
use redis_database_basic_imp.DList.Ring.{IsRing}
use redis_database_basic_imp.Connection.{Conn}
use redis_database_basic_imp.Timer.Process.{Conns}
use redis_database_basic_imp.Server.{Server, new_conn}
use redis_database_basic_imp.Server.Held.{IsListed, IsServer}
use redis_database_basic_imp.Server.Accept.{new_conn-IsReady}

abbrev two_links : Links
two_links = record {
  next = λ n. if n == 1 then 2 else (if n == 2 then 3 else 1);
  prev = λ n. if n == 1 then 3 else (if n == 2 then 1 else 2);
}

two-IsRing : IsRing two_links 1 (2 ∷ 3 ∷ [])
two-IsRing = record {
  linked = (refl, refl, (refl, refl, (refl, refl)));
  distinct = (refl, (refl, (refl, tt)));
}

-- 2 was active at 1000, and 3 at 9000000.
abbrev two_conns : ℕ → Conn
two_conns n = if n == 2 then new_conn 5 2 1000 else new_conn 6 3 9000000

abbrev two_open : Conns
two_open = record { links = two_links; fd2conn = 0 ∷ 0 ∷ 0 ∷ 0 ∷ 0 ∷ 2 ∷ 3 ∷ []; closed = [] }

abbrev pub two_server : Server
two_server = record { conns = two_conns; net = two_open }

one_of_two : (n : ℕ) → in_list n (2 ∷ 3 ∷ []) ≡ true → (n ≡ 2) ⊎ (n ≡ 3)
one_of_two n i = elim (Bool-cases (n == 2)) [
  | inl e ↦ inl (ground arith)
  | inr f ↦ inr (ground (arith, i))
]

two-IsListed : (fd : ℕ) → IsListed two_server (2 ∷ 3 ∷ []) fd
two-IsListed zero = inl refl
two-IsListed (suc zero) = inl refl
two-IsListed (suc (suc zero)) = inl refl
two-IsListed (suc (suc (suc zero))) = inl refl
two-IsListed (suc (suc (suc (suc zero)))) = inl refl
two-IsListed (suc (suc (suc (suc (suc zero))))) = inr (refl, refl)
two-IsListed (suc (suc (suc (suc (suc (suc zero)))))) = inr (refl, refl)
two-IsListed (suc (suc (suc (suc (suc (suc (suc fd))))))) = inl refl

pub two_server-IsServer : IsServer 1 two_server (2 ∷ 3 ∷ [])
two_server-IsServer = record {
  table = record {
    ring = two-IsRing;
    held = λ n i. elim (one_of_two n i) [
      | inl z ↦ rw z (record { real = refl; there = refl; self = refl })
      | inr z ↦ rw z (record { real = refl; there = refl; self = refl })
    ];
    listed = two-IsListed;
  };
  ready = λ n i. elim (one_of_two n i) [
    | inl z ↦ rw z (new_conn-IsReady 5 2 1000)
    | inr z ↦ rw z (new_conn-IsReady 6 3 9000000)
  ];
}
