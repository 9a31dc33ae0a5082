-- ===== src/Tests/Expiry.antt =====
-- A key whose time has come at 9000, and a server without connections.
use redis_database_basic_imp.Prelude.{
  ℕ, zero, suc, ◌≤◌, ◌<◌, ◌≡◌, ◌≢◌, List, refl, sym, false, inl, inr, not, none, [], ◌∷◌, arith,
  ◌==◌, if◌then◌else◌,
}
use redis_database_basic_imp.Prelude.Bits.{IsPowTwo-one}
use redis_database_basic_imp.Prelude.Run.{Returns, ok, fault, ◌>>=◌}
use redis_database_basic_imp.HashTable.{HMap}
use redis_database_basic_imp.HashTable.Count.{count, count_in}
use redis_database_basic_imp.HashTable.Valid.{IsValid, IsPlaced, nodes}
use redis_database_basic_imp.Heap.{Heap}
use redis_database_basic_imp.Heap.Order.{at, IsLinked}
use redis_database_basic_imp.Db.{Entry, GlobalData, str_hash, hcode_of, no_idx}
use redis_database_basic_imp.Timer.Process.{process_timers}
use redis_database_basic_imp.Timer.Entries.{IsIn, IsTimed, has_id}
use redis_database_basic_imp.Server.Loop.{start_server-IsServer}
use redis_database_basic_imp.Server.Timers.{Processed, process_timers-Processed}
use redis_database_basic_imp.Prelude.Bytes.{Bytes}
use redis_database_basic_imp.Serialisation.{out_int}
use redis_database_basic_imp.Connection.{res_ok, res_nx}
use redis_database_basic_imp.Db.{Strtoll, do_expire, do_get, do_del, do_ttl}
use redis_database_basic_imp.Db.Keys.{has_key, too_long}
use redis_database_basic_imp.Session.Expiry.{expire-gone}
use redis_database_basic_imp.Session.Remaining.{IsTtl, expire-IsTtl}
use redis_database_basic_imp.Session.Dangling.{Dangling, do_del-dangles}
use redis_database_basic_imp.Tests.Sessions.{no_strtoll}
use redis_database_basic_imp.Tests.Databases.{no_data, a, b}
use redis_database_basic_imp.Tests.Loops.{begun, no_conns, no_links}

abbrev due_entry : Entry
due_entry = record { id = 0; hcode = str_hash a; key = a; val = b; kind = 0; zset = none }

abbrev one_entry : HMap Entry
one_entry = record {
  ht1 = record { tab = (due_entry ∷ []) ∷ []; size = 1; mask = 0 };
  ht2 = record { tab = []; size = 0; mask = 0 };
  resizing_pos = 0;
}

abbrev due_heap : Heap
due_heap = record {
  items = record { val = 9000; ref = 0 } ∷ [];
  idx = λ e. if e == 0 then 0 else no_idx;
}

one_entry-IsValid : IsValid hcode_of one_entry
unfolding count
one_entry-IsValid = record {
  newer = record { counted = refl; placed = placed };
  older = record { counted = refl; placed = λ i. tt };
  begun = inr (refl, IsPowTwo-one);
  shape = inl refl;
  moved = λ i h. refl;
  room = omega arith;
}
  where
    placed : IsPlaced hcode_of one_entry.ht1
    placed zero = (refl, tt)
    placed (suc i) = tt

only_id : (e : Entry) → IsIn one_entry e → e.id ≡ 0
unfolding count count_in
only_id e i = let z = i (λ x. not (x.id == 0)) refl in ground (arith, z)

due_held : (i : ℕ) → i < 1 → 0 < nodes (has_id (at due_heap.items i).ref) one_entry
unfolding count count_in
due_held zero l = omega arith
due_held (suc i) l = absurd (omega arith)

one_id : nodes (has_id 0) one_entry ≤ 1
unfolding count count_in
one_id = omega arith

due-IsTimed : IsTimed one_entry due_heap
due-IsTimed = record {
  valid = one_entry-IsValid;
  few = omega arith;
  unique = λ e x i j w. let p = only_id e i in let q = only_id x j in omega (arith, p, q);
  order = λ c p l. absurd (omega (arith, p, l));
  links = links;
  ids = λ e i. rw (only_id e i) one_id;
  marked = λ e i. rw (only_id e i) (inr (omega arith, refl));
  held = due_held;
}
  where
    links : IsLinked due_heap
    links zero l = refl
    links (suc i) l = absurd (omega (arith, l))

abbrev due_data : GlobalData
due_data = record no_data { db = one_entry; heap = due_heap }

process_timers-Processed_example :
    Returns
      (Processed 1 10000 begun [] due_data)
      (process_timers 1 1 begun.conns 10000 begun.net due_data)
process_timers-Processed_example =
    process_timers-Processed 1 1 10000 begun [] due_data (start_server-IsServer no_conns no_links 1)
      due-IsTimed (omega arith)

-- `expire` of the key with 0 milliseconds: the number is the empty string, which the parameter reads.
abbrev expire_a : List Bytes
expire_a = [] ∷ a ∷ [] ∷ []

abbrev two_ms : Strtoll
two_ms s = (2, (0, false))

abbrev get_a : List Bytes
get_a = [] ∷ a ∷ []

key_there : nodes (has_key a) one_entry ≢ 0
unfolding count count_in
key_there e = absurd (omega (arith, e))

none_long : nodes too_long one_entry ≡ 0
unfolding count count_in
none_long = refl

expire-gone_example :
    Returns
      (λ r. (r.0 ≡ res_nx) × (r.1.0 ≡ out_int [] res_nx))
      (do_expire no_strtoll 1000 expire_a [] due_data >>= λ r.
        process_timers 1 1 begun.conns 2000 begun.net r.1.1 >>= λ r'. do_get get_a [] r'.1)
expire-gone_example =
    expire-gone no_strtoll 1000 2000 0 1 1 expire_a get_a begun [] due_data
      (start_server-IsServer no_conns no_links 1) (omega arith) due-IsTimed none_long key_there refl
      refl refl (omega arith) (omega arith)

abbrev del_a : List Bytes
del_a = [] ∷ a ∷ []

do_del-dangles_example :
    (g1 : GlobalData) × (do_del del_a [] due_data ≡ ok (res_ok, (out_int [] 1, g1)))
    × Dangling due_data g1
    × (process_timers 1 1 begun.conns 10000 begun.net g1 ≡ fault)
do_del-dangles_example =
    do_del-dangles 10000 1 1 del_a begun [] due_data (start_server-IsServer no_conns no_links 1)
      (omega arith) due-IsTimed key_there (omega arith) (λ e i fits. sym (only_id e i))
      (omega arith)

-- Two milliseconds are set at 1000, of which 1500 microseconds are left at 1500.
expire-IsTtl_example :
    Returns
      (λ r. (n : ℕ) × (r.0 ≡ res_ok) × (r.1.0 ≡ out_int [] n) × IsTtl 1500 3000 n)
      (do_expire two_ms 1000 expire_a [] due_data >>= λ r. do_ttl 1500 get_a [] r.1.1)
expire-IsTtl_example =
    expire-IsTtl two_ms 1000 1500 2 expire_a get_a due_data due-IsTimed key_there refl refl refl
      (omega arith)
