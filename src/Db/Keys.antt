-- ===== src/Db/Keys.antt =====
-- The commands `get` and `set` of common.cpp: what they answer and what they leave stored.
use redis_database_basic_imp.Prelude.{
  ℕ, ◌+◌, ◌≤◌, ◌<◌, ◌≡◌, refl, ap, ◌∙◌, ◌^◌, inl, inr, Bool, true, false, not, ◌&&◌, Bool-cases,
  Option, List, [], ◌∷◌, arith, ltb, leb, ◌==◌, length,
}
use redis_database_basic_imp.Prelude.Bytes.{Bytes}
use redis_database_basic_imp.Prelude.Count.{to_nat}
use redis_database_basic_imp.Prelude.Run.{Returns, Returns-bind, ◌>>=◌}
use redis_database_basic_imp.Serialisation.{out_int, out_str}
use redis_database_basic_imp.Request.{k_max_msg}
use redis_database_basic_imp.Connection.{res_ok, res_nx}
use redis_database_basic_imp.HashTable.{HMap}
use redis_database_basic_imp.HashTable.Valid.{IsValid, nodes}
use redis_database_basic_imp.HashTable.Insert.{hm_insert-Inserted}
use redis_database_basic_imp.HashTable.Lookup.{IsFound, missing, found, wanted, hm_lookup-LookedUp}
use redis_database_basic_imp.HashTable.Only.{count-less}
use redis_database_basic_imp.Heap.{write_ref}
use redis_database_basic_imp.Db.{
  Entry, GlobalData, same_bytes, entry_eq, lookup_key, hcode_of, word, new_entry, do_get, do_set,
  no_idx, get_reply,
}

-- The entries with the key `k`.
abbrev pub has_key : Bytes → Entry → Bool
has_key k = wanted hcode_of entry_eq (lookup_key k)

abbrev pub too_long : Entry → Bool
too_long e = ltb k_max_msg (length e.val)

-- The map is valid and no value is longer than a message.
pub record IsDb (g : GlobalData) : Type 0 where
  pub valid : IsValid hcode_of g.db
  pub short : nodes too_long g.db ≡ 0

pub same_bytes-eq : (xs ys : Bytes) → same_bytes xs ys ≡ true → xs ≡ ys
same_bytes-eq [] [] h = refl
same_bytes-eq [] (y ∷ ys) h = absurd (grind arith)
same_bytes-eq (x ∷ xs) [] h = absurd (grind arith)
same_bytes-eq (x ∷ xs) (y ∷ ys) h = elim (Bool-cases (x == y)) [
  | inr n ↦ let e = rw n at h in absurd (grind (arith, e))
  | inl y' ↦ let e = rw y' at h in grind (arith, same_bytes-eq xs ys e)
]

pub same_bytes_refl : (xs : Bytes) → same_bytes xs xs ≡ true
same_bytes_refl [] = refl
same_bytes_refl (x ∷ xs) = let e : (x == x) ≡ true = ground arith in rw e (same_bytes_refl xs)

-- What `get` may answer for the key `k`: nothing, or the value of an entry with the key.
pub data IsAnswer (g : GlobalData) (k out : Bytes) : ℕ → Bytes → Type 0 where
  not_there : nodes (has_key k) g.db ≡ 0 → IsAnswer g k out res_nx (out_int out res_nx)
  there :
      (e : Entry)
      → has_key k e ≡ true
      → ((p : Entry → Bool) → nodes p g.db ≡ 0 → p e ≡ false)
      → IsAnswer g k out res_ok (out_str out e.val)

-- The answer for a key that no entry has.
pub answer_nx :
    (g : GlobalData) (k out : Bytes) (code : ℕ) (reply : Bytes)
    → nodes (has_key k) g.db ≡ 0
    → IsAnswer g k out code reply
    → (code ≡ res_nx) × (reply ≡ out_int out res_nx)
answer_nx g k out _ _ z (not_there _) = (refl, refl)
answer_nx g k out _ _ z (there e fits among) =
    let f = among (has_key k) z in absurd (ground (arith, f, fits))

-- The answer, and a state with the same entries.
pub record Got (g : GlobalData) (k out : Bytes) (r : ℕ × (Bytes × GlobalData)) : Type 0 where
  pub answer : IsAnswer g k out r.0 r.1.0
  pub data_kept : IsDb r.1.1
  pub same : (p : Entry → Bool) → nodes p r.1.1.db ≡ nodes p g.db

get_reply-Got :
    (g : GlobalData) (k out : Bytes) (node : Option Entry) (db : HMap Entry)
    → IsDb g
    → IsValid hcode_of db
    → ((p : Entry → Bool) → nodes p db ≡ nodes p g.db)
    → IsFound hcode_of entry_eq (lookup_key k) g.db node
    → Returns (Got g k out) (get_reply out (node, record g { db = db }))
get_reply-Got g k out _ db d v same (missing z) = (
  _,
  refl,
  record {
    answer = not_there z;
    data_kept = record { valid = v; short = same too_long ∙ d.short };
    same = same;
  },
)
get_reply-Got g k out _ db d v same (found {x = e} fits among) =
    let fine : leb (length e.val) k_max_msg ≡ true = ground (arith, among too_long d.short) in
    (
      (res_ok, (out_str out e.val, record g { db = db })),
      rw fine refl,
      record {
        answer = there e fits among;
        data_kept = record { valid = v; short = same too_long ∙ d.short };
        same = same;
      },
    )

-- `get` on a valid state returns, and keeps the state valid and its entries: with the value of an
-- entry that has the key, or, exactly if there is none, with `RES_NX`.
pub do_get-Got :
    (g : GlobalData) (cmd : List Bytes) (out : Bytes)
    → IsDb g
    → Returns (Got g (word cmd 1) out) (do_get cmd out g)
unfolding do_get
do_get-Got g cmd out d =
    let k = word cmd 1 in
    let ((node, db), run, l) = hm_lookup-LookedUp hcode_of entry_eq (lookup_key k) g.db d.valid in
    rw run (get_reply-Got g k out node db d l.valid l.same l.answer)

-- The entry that `set` makes is stored beside the others.
pub record Stored (g : GlobalData) (k v : Bytes) (g' : GlobalData) : Type 0 where
  pub kept : IsDb g'
  pub gains : (p : Entry → Bool) → nodes p g'.db ≡ nodes p g.db + to_nat (p (new_entry g k v))

-- `set` on a valid state that is not full returns `RES_OK`, keeps the state valid, and adds just the
-- new entry, also beside an entry that has the key already, for a value no longer than a message.
pub do_set-Stored :
    (g : GlobalData) (cmd : List Bytes) (out : Bytes)
    → IsDb g
    → length (word cmd 2) ≤ k_max_msg
    → g.db.ht1.size + g.db.ht2.size + 1 < 2 ^ 64
    → Returns
        (λ r.
          (r.0 ≡ res_ok) × (r.1.0 ≡ out_int out res_ok) × Stored g (word cmd 1) (word cmd 2) r.1.1)
        (do_set cmd out g)
unfolding do_set
do_set-Stored g cmd out d short room =
    let k = word cmd 1 in
    let v = word cmd 2 in
    let (db, run, i) = hm_insert-Inserted hcode_of g.db (new_entry g k v) d.valid room in
    let fits : too_long (new_entry g k v) ≡ false = ground arith in
    let g' : GlobalData = record g {
      db = db;
      fresh = g.fresh + 1;
      heap = record { items = g.heap.items; idx = write_ref g.heap.idx g.fresh no_idx };
    } in
    (
      (res_ok, (out_int out res_ok, g')),
      rw run refl,
      (
        refl,
        refl,
        record {
          kept = record { valid = i.valid; short = rw (i.gains too_long, d.short, fits) refl };
          gains = i.gains;
        },
      ),
    )

abbrev other_value : Bytes → Bytes → Entry → Bool
other_value k v e = has_key k e && not (same_bytes e.val v)

other_value-less : (k v : Bytes) (e : Entry) → to_nat (other_value k v e) ≤ to_nat (has_key k e)
other_value-less k v e = ground arith

value_same :
    (k v : Bytes) (e : Entry)
    → has_key k e ≡ true
    → other_value k v e ≡ false
    → same_bytes e.val v ≡ true
value_same k v e h n = elim (Bool-cases (same_bytes e.val v)) [
  | inl y' ↦ y'
  | inr no_match ↦ let n' = rw (h, no_match) at n in absurd (grind (arith, n'))
]

new_entry-value : (g : GlobalData) (k v : Bytes) → to_nat (other_value k v (new_entry g k v)) ≡ 0
new_entry-value g k v = rw (same_bytes_refl v) (ground arith)

new_entry-key : (g : GlobalData) (k v : Bytes) → has_key k (new_entry g k v) ≡ true
new_entry-key g k v = rw (same_bytes_refl k) (ground arith)

first_value :
    (g g' : GlobalData) (k v out : Bytes) (code : ℕ) (reply : Bytes)
    → Stored g k v g'
    → nodes (has_key k) g.db ≡ 0
    → IsAnswer g' k out code reply
    → (code ≡ res_ok) × (reply ≡ out_str out v)
first_value g g' k v out _ _ s absent (not_there z) =
    absurd (omega (arith, s.gains (has_key k), z, ap to_nat (new_entry-key g k v)))
first_value g g' k v out _ _ s absent (there e fits among) =
    let none_other : nodes (other_value k v) g'.db ≡ 0 = omega (
      arith,
      s.gains (other_value k v),
      new_entry-value g k v,
      count-less (other_value k v) (has_key k) (other_value-less k v) g.db.ht1.tab,
      count-less (other_value k v) (has_key k) (other_value-less k v) g.db.ht2.tab,
      absent,
    ) in
    let this : same_bytes e.val v ≡ true =
      value_same k v e fits (among (other_value k v) none_other) in
    (refl, ap (out_str out) (same_bytes-eq e.val v this))

-- On a valid state that is not full and has no entry with the key, a `set` and a `get` of the key
-- return, and the `get` answers with the value that was set, for a value no longer than a message.
pub do_set-do_get :
    (g : GlobalData) (set get k v out : Bytes)
    → IsDb g
    → nodes (has_key k) g.db ≡ 0
    → length v ≤ k_max_msg
    → g.db.ht1.size + g.db.ht2.size + 1 < 2 ^ 64
    → Returns
        (λ r. (r.0 ≡ res_ok) × (r.1.0 ≡ out_str out v))
        (do_set (set ∷ k ∷ v ∷ []) [] g >>= λ s. do_get (get ∷ k ∷ []) out s.1.1)
do_set-do_get g set get k v out d absent short room =
    Returns-bind (do_set-Stored g (set ∷ k ∷ v ∷ []) [] d short room) λ s (_, _, stored).
      let (r, run, got) = do_get-Got s.1.1 (get ∷ k ∷ []) out stored.kept in
      (r, run, first_value g s.1.1 k v out r.0 r.1.0 stored absent got.answer)
