-- ===== src/Session/Remaining.antt =====
-- `expire` and then `ttl` of a key: `do_expire` and `do_ttl` of common.cpp.
use redis_database_basic_imp.Prelude.{
  ℕ, ◌+◌, ◌*◌, ◌%◌, ◌^◌, ◌≤◌, ◌<◌, ◌≡◌, ◌≢◌, ◌⊎◌, inl, inr, ltb, Bool-cases, refl, sym, ap, ◌∙◌,
  true, false, Option, none, some, List, [], arith, length, ◌==◌,
}
use redis_database_basic_imp.Prelude.Bytes.{Bytes}
use redis_database_basic_imp.Prelude.Run.{ok, Returns, Returns-bind, ◌>>=◌}
use redis_database_basic_imp.Serialisation.{out_int}
use redis_database_basic_imp.Connection.{res_ok}
use redis_database_basic_imp.HashTable.{HMap, hm_lookup}
use redis_database_basic_imp.HashTable.Valid.{nodes}
use redis_database_basic_imp.HashTable.Lookup.{LookedUp, missing, found, hm_lookup-LookedUp}
use redis_database_basic_imp.Heap.{HeapItem}
use redis_database_basic_imp.Heap.Order.{at, load-at}
use redis_database_basic_imp.Db.{
  Entry, GlobalData, Strtoll, str2int, is_negative, no_idx, word, hcode_of, entry_eq, lookup_key,
  do_expire, do_ttl, ttl_left,
}
use redis_database_basic_imp.Db.Keys.{has_key}
use redis_database_basic_imp.Timer.Entries.{IsIn, IsTimed}
use redis_database_basic_imp.Session.Expiry.{Timed, deadline, do_expire-Timed, wanted_by}

-- The whole milliseconds from `now` to `t`, and 0 from `t` on.
abbrev pub IsTtl : ℕ → ℕ → ℕ → Type 0
IsTtl now t n =
    ((now < t) × (now + n * 1000 ≤ t) × (t < now + (n + 1) * 1000)) ⊎ ((t ≤ now) × (n ≡ 0))

ttl_left-IsTtl : (now t : ℕ) → IsTtl now t (ttl_left now t)
ttl_left-IsTtl now t = elim (Bool-cases (ltb now t)) [
  | inl ahead ↦
      let later : now < t = ground arith in
      rw ahead (inl (later, omega (arith, later), omega (arith, later)))
  | inr passed ↦ rw passed (inr (ground arith, refl))
]

-- `ttl` of a key whose entry has the deadline `t`.
module _ (k : Bytes) (t code now : ℕ) (out : Bytes) (g g1 : GlobalData)
    (m : Timed k t g (code, (out, g1))) (few : length g.heap.items + 1 < no_idx) (cmd : List Bytes)
    (same : word cmd 1 ≡ k) where
  abbrev IsLeft : ℕ × (Bytes × GlobalData) → Type 0
  IsLeft r = (n : ℕ) × (r.0 ≡ res_ok) × (r.1.0 ≡ out_int [] n) × IsTtl now t n

  -- The entry that the lookup finds.
  ttl_found :
      (e : Entry) (db : HMap Entry)
      → hm_lookup hcode_of g1.db (lookup_key (word cmd 1)) entry_eq ≡ ok (some e, db)
      → has_key (word cmd 1) e ≡ true
      → IsIn g1.db e
      → Returns IsLeft (do_ttl now cmd [] g1)
  unfolding do_ttl
  ttl_found e db run fits there =
      let fits' : has_key k e ≡ true = ap (λ w. has_key w e) (sym same) ∙ fits in
      let mine : e.id ≡ m.entry.id =
        m.timed.unique m.entry e m.there there (wanted_by k m.entry e m.fits fits') in
      let pos = g1.heap.idx m.entry.id in
      let set : (pos == no_idx) ≡ false = ground (arith, m.item, m.size, few) in
      let val : (at g1.heap.items pos).val ≡ t = ap (λ (x : HeapItem). x.val) m.armed in
      (
        (res_ok, (out_int [] (ttl_left now t), record g1 { db = db })),
        rw (do_ttl, run, mine, set, load-at g1.heap pos m.item, val) refl,
        (ttl_left now t, refl, refl, ttl_left-IsTtl now t),
      )

  do_ttl-IsLeft : Returns IsLeft (do_ttl now cmd [] g1)
  do_ttl-IsLeft =
      let (r, run, l) =
        hm_lookup-LookedUp hcode_of entry_eq (lookup_key (word cmd 1)) g1.db m.timed.valid in
      by_answer r run l
    where
      by_answer :
          (r : Option Entry × HMap Entry)
          → hm_lookup hcode_of g1.db (lookup_key (word cmd 1)) entry_eq ≡ ok r
          → LookedUp hcode_of entry_eq (lookup_key (word cmd 1)) g1.db r
          → Returns IsLeft (do_ttl now cmd [] g1)
      by_answer (none, db) run l = elim l.answer [
        | missing z ↦
            let out = m.there (has_key k) (ap (λ w. nodes (has_key w) g1.db) (sym same) ∙ z) in
            absurd (ground (arith, out, m.fits))
      ]
      by_answer (some e, db) run l = elim l.answer [
        | found fits among ↦ ttl_found e db run fits among
      ]

-- After `expire` of a key with a number that is not negative, on a state that holds the key, `ttl` of it
-- answers RES_OK and a number: the whole milliseconds from the clock's reading to the deadline, which
-- are the milliseconds that were set, in 64 bits, after the first reading, and 0 from the deadline on. No
-- key and no address is in the map twice, no long resize is under way, the heap is ordered and linked
-- with room, each of its items is of an entry in the map, and each entry knows where its item is.
pub expire-IsTtl :
    (strtoll : Strtoll) (now now' ms : ℕ) (cmd ttl_cmd : List Bytes) (g : GlobalData)
    → IsTimed g.db g.heap
    → nodes (has_key (word cmd 1)) g.db ≢ 0
    → str2int strtoll (word cmd 2) ≡ some ms
    → is_negative ms ≡ false
    → word ttl_cmd 1 ≡ word cmd 1
    → length g.heap.items + 1 < no_idx
    → Returns
        (λ r.
          (n : ℕ) × (r.0 ≡ res_ok)
          × (r.1.0 ≡ out_int [] n)
          × IsTtl now' ((now + ms * 1000 % 2 ^ 64) % 2 ^ 64) n)
        (do_expire strtoll now cmd [] g >>= λ r. do_ttl now' ttl_cmd [] r.1.1)
expire-IsTtl strtoll now now' ms cmd ttl_cmd g timed some_key parsed positive same few =
    Returns-bind
      (do_expire-Timed strtoll now ms cmd [] g timed some_key parsed positive (omega (arith, few)))
      λ (code, (out, g1)) m.
        do_ttl-IsLeft (word cmd 1) (deadline now ms) code now' out g g1 m few ttl_cmd same
