-- ===== src/Db/Sets.antt =====
-- common.cpp: the commands on sorted sets.
--
-- Parameters are `std::stod` and `std::stoll`, which give nothing where they throw: no code catches the
-- exception, so the process ends. An `int64_t` is its 64-bit pattern.
use redis_database_basic_imp.Prelude.{
  ℕ, zero, suc, ◌+◌, ◌%◌, ◌^◌, Bool, ◌||◌, Option, none, some, List, [], ◌∷◌, leb, ◌==◌,
  if◌then◌else◌, length,
}
use redis_database_basic_imp.Prelude.Bytes.{Bytes}
use redis_database_basic_imp.Prelude.Run.{Run, ok, fault, out_of_fuel, or_fault, ◌>>=◌}
use redis_database_basic_imp.Serialisation.{out_nil, out_str, out_int, out_dbl, out_err}
use redis_database_basic_imp.Connection.{res_ok, res_err, res_nx}
use redis_database_basic_imp.HashTable.{hm_insert}
use redis_database_basic_imp.Heap.{write_ref}
use redis_database_basic_imp.Avl.{Ptr, is_null}
use redis_database_basic_imp.Zset.{
  ZSet, Store, HNode, empty_set, zset_lookup, zset_add, zset_pop, zset_query, RawEq,
}
use redis_database_basic_imp.Zset.Walk.{pos_zero, znode_offset}
use redis_database_basic_imp.Db.{Entry, GlobalData, Outcome, hcode_of, str_hash, no_idx, find, word}

abbrev pub Stod : Type 0
Stod = Bytes → Option ℕ

abbrev pub Stoll : Type 0
Stoll = Bytes → Option ℕ

abbrev pub zadd_usage : Bytes
zadd_usage =
    b'U' ∷ b's' ∷ b'a' ∷ b'g' ∷ b'e' ∷ b':' ∷ b' ' ∷ b'z' ∷ b'a' ∷ b'd' ∷ b'd' ∷ b' ' ∷ b'<' ∷ b'k'
    ∷ b'e' ∷ b'y' ∷ b'>' ∷ b' ' ∷ b'<' ∷ b's' ∷ b'c' ∷ b'o' ∷ b'r' ∷ b'e' ∷ b'>' ∷ b' ' ∷ b'<'
    ∷ b'n' ∷ b'a' ∷ b'm' ∷ b'e' ∷ b'>' ∷ []

abbrev pub zscore_usage : Bytes
zscore_usage =
    b'U' ∷ b's' ∷ b'a' ∷ b'g' ∷ b'e' ∷ b':' ∷ b' ' ∷ b'z' ∷ b's' ∷ b'c' ∷ b'o' ∷ b'r' ∷ b'e' ∷ b' '
    ∷ b'<' ∷ b'k' ∷ b'e' ∷ b'y' ∷ b'>' ∷ b' ' ∷ b'<' ∷ b'n' ∷ b'a' ∷ b'm' ∷ b'e' ∷ b'>' ∷ []

abbrev pub zrem_usage : Bytes
zrem_usage =
    b'U' ∷ b's' ∷ b'a' ∷ b'g' ∷ b'e' ∷ b':' ∷ b' ' ∷ b'z' ∷ b'r' ∷ b'e' ∷ b'm' ∷ b' ' ∷ b'<' ∷ b'k'
    ∷ b'e' ∷ b'y' ∷ b'>' ∷ b' ' ∷ b'<' ∷ b'n' ∷ b'a' ∷ b'm' ∷ b'e' ∷ b'>' ∷ []

abbrev pub zquery_usage : Bytes
zquery_usage =
    b'U' ∷ b's' ∷ b'a' ∷ b'g' ∷ b'e' ∷ b':' ∷ b' ' ∷ b'z' ∷ b'q' ∷ b'u' ∷ b'e' ∷ b'r' ∷ b'y' ∷ b' '
    ∷ b'<' ∷ b'k' ∷ b'e' ∷ b'y' ∷ b'>' ∷ b' ' ∷ b'<' ∷ b's' ∷ b'c' ∷ b'o' ∷ b'r' ∷ b'e' ∷ b'>'
    ∷ b' ' ∷ b'<' ∷ b'n' ∷ b'a' ∷ b'm' ∷ b'e' ∷ b'>' ∷ b' ' ∷ b'<' ∷ b'o' ∷ b'f' ∷ b'f' ∷ b's'
    ∷ b'e' ∷ b't' ∷ b'>' ∷ b' ' ∷ b'<' ∷ b'l' ∷ b'i' ∷ b'm' ∷ b'i' ∷ b't' ∷ b'>' ∷ []

-- The answer to a command with too few or too many words.
abbrev pub usage : Bytes → Bytes → GlobalData → Outcome
usage msg out g = ok (res_err, (out_err out res_err msg, g))

-- The set `i` and the nodes change.
abbrev pub with_set : GlobalData → ℕ → Store → ZSet → GlobalData
with_set g i s z = record g {
  zsets = record g.zsets { sets = λ j. if i == j then z else g.zsets.sets j; store = s };
}

-- `entry->zset` if the entry is a set.
abbrev pub set_of : Entry → Option ℕ
set_of e = if e.kind == 1 then e.zset else none

abbrev pub int_of : Bool → ℕ
int_of b = if b then 1 else 0

-- `new Entry` with `new ZSet`.
abbrev pub new_set_entry : GlobalData → Bytes → Entry
new_set_entry g k = record {
  id = g.fresh;
  hcode = str_hash k;
  key = k;
  val = [];
  kind = 1;
  zset = some g.zsets.fresh_set;
}

-- What the two calls of `new` leave, but for the map.
abbrev pub with_new_set : GlobalData → GlobalData
with_new_set g = record g {
  fresh = g.fresh + 1;
  heap = record { items = g.heap.items; idx = write_ref g.heap.idx g.fresh no_idx };
  zsets = record g.zsets {
    sets = λ j. if g.zsets.fresh_set == j then empty_set else g.zsets.sets j;
    fresh_set = g.zsets.fresh_set + 1;
  };
}

-- `zset_add(entry->zset, ...)` and the reply. `zset_add` follows the pointer, which may be null.
unfoldable pub add_to : ℕ → Bytes → ℕ → Bytes → Option ℕ → GlobalData → Outcome
add_to fuel name score out none g = fault
add_to fuel name score out (some i) g =
    zset_add fuel g.zsets.store (g.zsets.sets i) name score >>= λ (added, (s, z)).
    ok (res_ok, (out_int out (int_of added), with_set g i s z))

-- What follows the lookup of the key in `do_zadd`.
unfoldable pub zadd_found : ℕ → Bytes → Bytes → ℕ → Bytes → Option Entry × GlobalData → Outcome
zadd_found fuel k name score out (some e, g) = add_to fuel name score out e.zset g
zadd_found fuel k name score out (none, g) = hm_insert hcode_of g.db (new_set_entry g k) >>= λ db.
    add_to fuel name score out (some g.zsets.fresh_set) (record (with_new_set g) { db = db })

unfoldable pub do_zadd : Stod → ℕ → List Bytes → Bytes → GlobalData → Outcome
do_zadd stod fuel cmd out g =
    let run : Outcome = or_fault (stod (word cmd 2)) >>= λ score.
    find g (word cmd 1) >>= λ r. zadd_found fuel (word cmd 1) (word cmd 3) score out r in
    if length cmd == 4 then run else usage zadd_usage out g

-- The set of the entry that was found.
abbrev pub found_set : Option Entry → Option ℕ
found_set none = none
found_set (some e) = set_of e

-- The reply of `zscore`, with the set as the lookup leaves it.
unfoldable pub score_reply : Bytes → GlobalData → ℕ → Option HNode × ZSet → Outcome
score_reply out g i (none, z) = ok (res_nx, (out_nil out, with_set g i g.zsets.store z))
score_reply out g i (some n, z) =
    ok (res_ok, (out_dbl out (g.zsets.store.znodes n.owner).score, with_set g i g.zsets.store z))

unfoldable pub zscore_in : Bytes → Bytes → Option ℕ → GlobalData → Outcome
zscore_in name out none g = ok (res_nx, (out_nil out, g))
zscore_in name out (some i) g = zset_lookup (g.zsets.sets i) name >>= λ r. score_reply out g i r

unfoldable pub do_zscore : List Bytes → Bytes → GlobalData → Outcome
do_zscore cmd out g =
    let run : Outcome =
      find g (word cmd 1) >>= λ (node, g'). zscore_in (word cmd 2) out (found_set node) g' in
    if length cmd == 3 then run else usage zscore_usage out g

-- The reply of `zrem`.
abbrev pub rem_reply : Bytes → GlobalData → ℕ → Option HNode × (Store × ZSet) → Outcome
rem_reply out g i (none, (s, z)) = ok (res_ok, (out_int out 0, with_set g i s z))
rem_reply out g i (some n, (s, z)) = ok (res_ok, (out_int out 1, with_set g i s z))

unfoldable pub zrem_in : RawEq → ℕ → Bytes → Bytes → Option ℕ → GlobalData → Outcome
zrem_in raw_eq fuel name out none g = ok (res_ok, (out_int out 0, g))
zrem_in raw_eq fuel name out (some i) g =
    zset_pop raw_eq fuel g.zsets.store (g.zsets.sets i) name >>= λ r. rem_reply out g i r

unfoldable pub do_zrem : RawEq → ℕ → List Bytes → Bytes → GlobalData → Outcome
do_zrem raw_eq fuel cmd out g =
    let run : Outcome = find g (word cmd 1) >>= λ (node, g').
    zrem_in raw_eq fuel (word cmd 2) out (found_set node) g' in
    if length cmd == 3 then run else usage zrem_usage out g

-- The loop of `do_query`: the nodes from `node` on, up to `limit` of them.
unfoldable pub emit : ℕ → Store → ℕ → ℕ → Ptr → Bytes → Run Bytes
emit zero s limit n node out = out_of_fuel
emit (suc fuel) s limit n node out =
    let z = s.znodes node in
    let rest = znode_offset fuel s.tnodes node (pos_zero + 1) >>= λ next.
    emit fuel s limit (n + 1) next (out_dbl (out_str out z.name) z.score) in
    if is_null node || leb limit n then ok out else rest

unfoldable pub query_in : Stod → Stoll → ℕ → List Bytes → Bytes → Option ℕ → GlobalData → Outcome
query_in stod stoll fuel cmd out none g = ok (res_nx, (out, g))
query_in stod stoll fuel cmd out (some i) g = do
  score ← or_fault (stod (word cmd 2))
  offset ← or_fault (stoll (word cmd 4))
  limit ← or_fault (stoll (word cmd 5))
  let s = g.zsets.store
  first ← zset_query fuel s (g.zsets.sets i) score (word cmd 3)
  node ← znode_offset fuel s.tnodes first ((offset + pos_zero) % 2 ^ 64)
  out' ← emit fuel s (limit % 2 ^ 32) 0 node out
  ok (res_ok, (out', g))

unfoldable pub do_query : Stod → Stoll → ℕ → List Bytes → Bytes → GlobalData → Outcome
do_query stod stoll fuel cmd out g =
    let run : Outcome =
      find g (word cmd 1) >>= λ (node, g'). query_in stod stoll fuel cmd out (found_set node) g' in
    if length cmd == 6 then run else usage zquery_usage out g
