-- ===== src/Db.antt =====
-- common.h and common.cpp: the entries, their times to live and the string commands of the server;
-- with `str_hash` of utils.cpp and `cb_scan` of hashtable.cpp.
--
-- An entry is a value with a number, which stands for its address; `heap_idx` of all entries is a map
-- from the numbers, in the heap. `new` takes the next number. Parameters of the commands are the
-- clock's reading and `strtoll`. An `int64_t` is its 64-bit pattern. The debug prints are left out.
pub mod Keys
pub mod Del
pub mod Sets
pub mod Scores
pub mod Members
pub mod Dispatch
pub mod Deadline
pub mod Destroy
pub mod Ttl
pub mod Persist
use mathlib.Core.Option
use redis_database_basic_imp.Prelude.{
  ℕ, zero, suc, ◌+◌, ◌-◌, ◌*◌, ◌/◌, ◌%◌, ◌^◌, Bool, true, false, not, ◌&&◌, ◌||◌, Option, none,
  some, List, [], ◌∷◌, ◌++◌, ltb, leb, ◌==◌, if◌then◌else◌, length, take, get_or, set,
}
pub use redis_database_basic_imp.Prelude.Bytes.{same_bytes}
pub use redis_database_basic_imp.Hash.{str_hash}
use redis_database_basic_imp.Prelude.Bytes.{Bytes}
use redis_database_basic_imp.Prelude.Run.{Run, ok, fault, check, or_fault, ◌>>=◌, ◌>>◌}
use redis_database_basic_imp.Serialisation.{out_str, out_int, out_err, out_arr}
use redis_database_basic_imp.Request.{k_max_msg}
use redis_database_basic_imp.Connection.{res_ok, res_err, res_nx}
use redis_database_basic_imp.HashTable.{HMap, hm_insert, hm_lookup, hm_delete, hm_size, h_scan}
use redis_database_basic_imp.Zset.{ZSets}
use redis_database_basic_imp.Heap.{Heap, HeapItem, load, place, write_ref, heap_update}

-- `hcode` is `node.hcode`; `zset` is the number of a set, if there is one.
pub record Entry : Type 0 where
  pub id : ℕ
  pub hcode : ℕ
  pub key : Bytes
  pub val : Bytes
  pub kind : ℕ
  pub zset : Option ℕ

-- `fresh` is the number of the next entry; `queued` are the entries handed to the thread pool, to be
-- freed there; `freed` are those that `entry_del` frees itself, the last one first.
pub record GlobalData : Type 0 where
  pub db : HMap Entry
  pub heap : Heap
  pub fresh : ℕ
  pub queued : List Entry
  pub freed : List Entry
  pub zsets : ZSets

-- `(size_t)-1`
abbrev pub no_idx : ℕ
no_idx = 2 ^ 64 - 1

abbrev pub entry_eq : Entry → Entry → Bool
entry_eq le re = same_bytes le.key re.key

abbrev pub cb_scan : Entry → Bytes → Bytes
cb_scan node out = out_str out node.key

-- The entry on the stack that a command looks up.
abbrev pub lookup_key : Bytes → Entry
lookup_key k = record { id = no_idx; hcode = str_hash k; key = k; val = []; kind = 0; zset = none }

abbrev pub hcode_of : Entry → ℕ
hcode_of e = e.hcode

abbrev pub find : GlobalData → Bytes → Run (Option Entry × GlobalData)
find g k = hm_lookup hcode_of g.db (lookup_key k) entry_eq >>= λ (node, db).
    ok (node, record g { db = db })

-- What a handler returns, its response, and the state after it.
abbrev pub Outcome : Type 0
Outcome = Run (ℕ × (Bytes × GlobalData))

-- `cmd[i]`
abbrev pub word : List Bytes → ℕ → Bytes
word cmd i = get_or cmd i []

-- `heap.pop_back()`
abbrev pub pop_back : Heap → Run Heap
pop_back h =
    if length h.items == 0
    then fault
    else ok (record h { items = take (length h.items - 1) h.items })

-- The item at `pos` is replaced by the last one, which then finds its place.
unfoldable pub heap_remove : Heap → ℕ → Run Heap
unfolding place load
heap_remove h pos =
    let last = length h.items - 1 in
    let move = load h last >>= λ item. place h pos item in
    do
      moved ← if pos == last then ok h else move
      popped ← pop_back moved
      if ltb pos (length popped.items)
          then heap_update popped pos (length popped.items)
          else ok popped

-- `ttl_ms < 0`
abbrev pub is_negative : ℕ → Bool
is_negative n = leb (2 ^ 63) n

unfoldable pub set_deadline : Heap → ℕ → ℕ → Run Heap
unfolding load
set_deadline h pos at = do
  item ← load h pos
  let armed = record h { items = set h.items pos (record item { val = at }) }
  heap_update armed pos (length h.items)

-- `now` is what `get_monotonic_usec` returns.
unfoldable pub entry_set_ttl : ℕ → Heap → ℕ → ℕ → Run Heap
unfolding heap_remove set_deadline
entry_set_ttl now h ent ttl_ms =
    let pos = h.idx ent in
    let at = (now + ttl_ms * 1000 % 2 ^ 64) % 2 ^ 64 in
    let n = length h.items in
    let item : HeapItem = record { val = 0; ref = ent } in
    let pushed : Heap = record { items = h.items ++ (item ∷ []); idx = write_ref h.idx ent n } in
    let persist =
      heap_remove h pos >>= λ h'. ok (record h' { idx = write_ref h'.idx ent no_idx }) in
    let arm = if pos == no_idx then set_deadline pushed n at else set_deadline h pos at in
    if is_negative ttl_ms then (if pos == no_idx then ok h else persist) else arm

-- A pointer that is not null.
abbrev pub is_set : Option ℕ → Bool
is_set none = false
is_set (some p) = true

unfoldable pub entry_del : GlobalData → Entry → GlobalData
entry_del g ent =
    if (ent.kind == 1) && is_set ent.zset
    then record g { queued = ent ∷ g.queued }
    else record g { freed = ent ∷ g.freed }

-- What follows the lookup.
abbrev pub get_reply : Bytes → Option Entry × GlobalData → Outcome
get_reply out (none, g) = ok (res_nx, (out_int out res_nx, g))
get_reply out (some e, g) =
    check (leb (length e.val) k_max_msg) >> ok (res_ok, (out_str out e.val, g))

unfoldable pub do_get : List Bytes → Bytes → GlobalData → Outcome
do_get cmd out g = find g (word cmd 1) >>= λ r. get_reply out r

-- `new Entry`, filled.
abbrev pub new_entry : GlobalData → Bytes → Bytes → Entry
new_entry g k v = record {
  id = g.fresh;
  hcode = str_hash k;
  key = k;
  val = v;
  kind = 0;
  zset = none;
}

unfoldable pub do_set : List Bytes → Bytes → GlobalData → Outcome
do_set cmd out g = do
  db ← hm_insert hcode_of g.db (new_entry g (word cmd 1) (word cmd 2))
  ok (
    res_ok,
    (
      out_int out res_ok,
      record g {
        db = db;
        fresh = g.fresh + 1;
        heap = record { items = g.heap.items; idx = write_ref g.heap.idx g.fresh no_idx };
      },
    ),
  )

-- What follows the deletion from the map.
abbrev pub del_reply : Bytes → GlobalData → Option Entry × HMap Entry → Outcome
del_reply out g (none, db) = ok (res_ok, (out_int out 0, record g { db = db }))
del_reply out g (some e, db) = ok (res_ok, (out_int out 1, entry_del (record g { db = db }) e))

unfoldable pub do_del : List Bytes → Bytes → GlobalData → Outcome
do_del cmd out g =
    hm_delete hcode_of g.db (lookup_key (word cmd 1)) entry_eq >>= λ r. del_reply out g r

unfoldable pub do_keys : List Bytes → Bytes → GlobalData → Outcome
do_keys cmd out g = do
  let head = out_arr out (hm_size g.db % 2 ^ 32)
  first ← h_scan cb_scan g.db.ht1 head
  both ← h_scan cb_scan g.db.ht2 first
  ok (res_ok, (both, g))

-- What `strtoll` of the C library returns on a string up to its end: the value, the number of bytes
-- it read, and whether it set `errno`.
abbrev pub Strtoll : Type 0
Strtoll = Bytes → ℕ × (ℕ × Bool)

abbrev pub c_str : Bytes → Bytes
c_str [] = []
c_str (b ∷ rest) = if b == 0 then [] else b ∷ c_str rest

abbrev pub str2int : Strtoll → Bytes → Option ℕ
str2int strtoll s =
    let (val, (end, errno)) = strtoll (c_str s) in
    if errno || not (end == length s) then none else some val

abbrev pub expect_int : Bytes
expect_int = b'e' ∷ b'x' ∷ b'p' ∷ b'e' ∷ b'c' ∷ b't' ∷ b' ' ∷ b'i' ∷ b'n' ∷ b't' ∷ b'6' ∷ b'4' ∷ []

unfoldable pub do_expire : Strtoll → ℕ → List Bytes → Bytes → GlobalData → Outcome
unfolding entry_set_ttl
do_expire strtoll now cmd out g =
    let run : ℕ → Outcome = λ ttl_ms. find g (word cmd 1) >>= λ (node, g'). elim node [
      | none ↦ ok (res_ok, (out_int out 0, g'))
      | some e ↦ entry_set_ttl now g'.heap e.id ttl_ms >>= λ h.
          ok (res_ok, (out_int out 1, record g' { heap = h }))
    ] in
    elim (str2int strtoll (word cmd 2)) [
      | none ↦ ok (res_err, (out_err out res_err expect_int, g))
      | some ttl_ms ↦ run ttl_ms
    ]

-- The time left in milliseconds.
abbrev pub ttl_left : ℕ → ℕ → ℕ
ttl_left now expire_at = if ltb now expire_at then (expire_at - now) / 1000 else 0

unfoldable pub do_ttl : ℕ → List Bytes → Bytes → GlobalData → Outcome
unfolding load
do_ttl now cmd out g = find g (word cmd 1) >>= λ (node, g'). elim node [
  | none ↦ ok (res_ok, (out_int out (2 ^ 64 - 2), g'))
  | some e ↦
      let pos = g'.heap.idx e.id in
      let left =
        load g'.heap pos >>= λ item. ok (res_ok, (out_int out (ttl_left now item.val), g')) in
      if pos == no_idx then ok (res_ok, (out_int out (2 ^ 64 - 1), g')) else left
]
