-- ===== src/Session/Expiry.antt =====
-- A key with a time to live, over `do_expire` and `do_get` of common.cpp and `process_timers` of
-- timer.cpp.
use redis_database_basic_imp.Prelude.{
  ℕ, ◌+◌, ◌*◌, ◌%◌, ◌^◌, ◌≤◌, ◌<◌, ◌≡◌, ◌≢◌, ◌⊎◌, refl, sym, ap, ◌∙◌, inl, inr, Bool, true, false,
  if◌then◌else◌, Bool-cases, Option, none, some, List, [], arith, length, ◌==◌,
}
use redis_database_basic_imp.Prelude.Bytes.{Bytes}
use redis_database_basic_imp.Prelude.Run.{ok, Returns, Returns-bind, ◌>>=◌}
use redis_database_basic_imp.Serialisation.{out_int}
use redis_database_basic_imp.Connection.{res_ok, res_nx}
use redis_database_basic_imp.HashTable.{HMap, hm_lookup}
use redis_database_basic_imp.HashTable.Valid.{nodes}
use redis_database_basic_imp.HashTable.Lookup.{LookedUp, missing, found, wanted, hm_lookup-LookedUp}
use redis_database_basic_imp.Heap.{Heap, HeapItem}
use redis_database_basic_imp.Heap.Order.{at, key}
use redis_database_basic_imp.Db.{
  Entry, GlobalData, Strtoll, str2int, is_negative, no_idx, word, hcode_of, entry_eq, lookup_key,
  do_expire, do_get,
}
use redis_database_basic_imp.Db.Keys.{
  same_bytes-eq, same_bytes_refl, answer_nx, IsDb, has_key, too_long, do_get-Got,
}
use redis_database_basic_imp.Db.Deadline.{counted_at, at_counted, is_item, item_eq}
use redis_database_basic_imp.Db.Ttl.{entry_set_ttl-Armed}
use redis_database_basic_imp.Timer.Process.{k_max_works, process_timers}
use redis_database_basic_imp.Timer.Entries.{IsIn, IsTimed, IsMarked, has_id, some-IsIn}
use redis_database_basic_imp.Timer.Arm.{IsIn-counted, LookedUp-IsTimed, Armed-IsTimed}
use redis_database_basic_imp.Timer.Expire.{Expired}
use redis_database_basic_imp.Server.{Server}
use redis_database_basic_imp.Server.Held.{IsServer}
use redis_database_basic_imp.Server.Timers.{process_timers-Processed}

-- The deadline that `entry_set_ttl` computes.
abbrev pub deadline : ℕ → ℕ → ℕ
deadline now ms = (now + ms * 1000 % 2 ^ 64) % 2 ^ 64

-- What `expire` of the key `k` leaves: the same entries, one of them with the key and the deadline `t`.
pub record Timed (k : Bytes) (t : ℕ) (g : GlobalData) (r : ℕ × (Bytes × GlobalData)) : Type 0 where
  pub timed : IsTimed r.1.1.db r.1.1.heap
  pub short : nodes too_long r.1.1.db ≡ nodes too_long g.db
  pub entry : Entry
  pub fits : has_key k entry ≡ true
  pub there : IsIn r.1.1.db entry
  pub item : r.1.1.heap.idx entry.id < length r.1.1.heap.items
  pub armed : at r.1.1.heap.items (r.1.1.heap.idx entry.id) ≡ record { val = t; ref = entry.id }
  pub size : length r.1.1.heap.items ≤ length g.heap.items + 1

at_most : (b : Bool) (n : ℕ) → (if b then n + 1 else n) ≤ n + 1
at_most true n = omega arith
at_most false n = omega arith

IsMarked-ready :
    (h : Heap) (id : ℕ)
    → IsMarked h id
    → (h.idx id ≡ no_idx) ⊎ ((h.idx id < length h.items) × ((at h.items (h.idx id)).ref ≡ id))
IsMarked-ready h id (inl (unset, out)) = inl unset
IsMarked-ready h id (inr m) = inr m

pub do_expire-Timed :
    (strtoll : Strtoll) (now ms : ℕ) (cmd : List Bytes) (out : Bytes) (g : GlobalData)
    → IsTimed g.db g.heap
    → nodes (has_key (word cmd 1)) g.db ≢ 0
    → str2int strtoll (word cmd 2) ≡ some ms
    → is_negative ms ≡ false
    → length g.heap.items < no_idx
    → Returns (Timed (word cmd 1) (deadline now ms) g) (do_expire strtoll now cmd out g)
unfolding do_expire
do_expire-Timed strtoll now ms cmd out g v some_key parsed positive few =
    let k = word cmd 1 in
    let (r, run, l) = hm_lookup-LookedUp hcode_of entry_eq (lookup_key k) g.db v.valid in
    by_answer r run l
  where
    by_answer :
        (r : Option Entry × HMap Entry)
        → hm_lookup hcode_of g.db (lookup_key (word cmd 1)) entry_eq ≡ ok r
        → LookedUp hcode_of entry_eq (lookup_key (word cmd 1)) g.db r
        → Returns (Timed (word cmd 1) (deadline now ms) g) (do_expire strtoll now cmd out g)
    by_answer (none, db) run l = elim l.answer [ missing z ↦ absurd (some_key z) ]
    by_answer (some e, db) run l = elim l.answer [
      | found fits among ↦
          let v' = LookedUp-IsTimed (lookup_key (word cmd 1)) g.db g.heap (some e, db) l v in
          let here : IsIn db e = λ p z. among p (sym (l.same p) ∙ z) in
          let (h, armed_run, a) =
            entry_set_ttl-Armed now g.heap e.id ms v.order v.links few positive
              (IsMarked-ready g.heap e.id (v'.marked e here)) in
          (
            (res_ok, (out_int out 1, record g { db = db; heap = h })),
            rw (do_expire, parsed, run, armed_run) refl,
            record {
              timed = Armed-IsTimed db g.heap h e (deadline now ms) _ v' here a;
              short = l.same too_long;
              entry = e;
              fits = fits;
              there = here;
              item = a.deadline.0;
              armed = a.deadline.1;
              size =
                  omega (arith, a.size, at_most (g.heap.idx e.id == no_idx) (length g.heap.items));
            },
          )
    ]

-- Two entries with one key.
pub wanted_by :
    (k : Bytes) (e y : Entry)
    → has_key k e ≡ true
    → has_key k y ≡ true
    → wanted hcode_of entry_eq e y ≡ true
wanted_by k e y he hy =
    let code : (y.hcode == e.hcode) ≡ true = ground (arith, he, hy) in
    let ke : e.key ≡ k = same_bytes-eq e.key k (ground (arith, he)) in
    let ky : y.key ≡ k = same_bytes-eq y.key k (ground (arith, hy)) in
    rw (code, ke, ky) (same_bytes_refl k)

module _ (k : Bytes) (t now code : ℕ) (out : Bytes) (g g1 g' : GlobalData)
    (m : Timed k t g (code, (out, g1))) (due : t < now) (few : length g.heap.items < k_max_works)
    (x : Expired now 0 g1 g') where
  -- The rounds were enough.
  none_due : (j : ℕ) → j < length g'.heap.items → now ≤ key g'.heap.items j
  none_due j l = elim x.done [
    | inl late ↦ late j l
    | inr used ↦ absurd (omega (arith, used, m.size, few))
  ]

  -- The item of the entry is gone.
  no_item_left : (j : ℕ) → j < length g'.heap.items → (at g'.heap.items j).ref ≢ m.entry.id
  no_item_left j l e =
      let y = at g'.heap.items j in
      let is = is_item y.ref y.val in
      let late = none_due j l in
      let here : is y ≡ true = ground arith in
      let out : (z : HeapItem) → z.val < now → is z ≡ false =
        λ z soon. ground (arith, late, soon) in
      let (i, li, one) =
        counted_at is g1.heap.items
          (omega (arith, x.items is out, at_counted is g'.heap.items j l here)) in
      let same = item_eq (at g1.heap.items i) y.ref y.val one in
      let ref : (at g1.heap.items i).ref ≡ m.entry.id = ap (λ (z : HeapItem). z.ref) same ∙ e in
      let pos : g1.heap.idx m.entry.id ≡ i = ap g1.heap.idx (sym ref) ∙ m.timed.links i li in
      let val : y.val ≡ t =
        ap (λ (z : HeapItem). z.val)
          (sym same ∙ ap (λ n. at g1.heap.items n) (sym pos) ∙ m.armed) in
      absurd (omega (arith, val, late, due))

  -- The entry is gone, and with it the key.
  key_gone : nodes (has_key k) g'.db ≡ 0
  key_gone = elim (Bool-cases (nodes (has_key k) g'.db == 0)) [
    | inl z ↦ ground arith
    | inr some_left ↦
        let (y, fits, i) = some-IsIn g'.db (has_key k) (ground (arith, some_left)) in
        let before : IsIn g1.db y = λ p z. i p (omega (arith, z, x.less p)) in
        let same = m.timed.unique m.entry y m.there before (wanted_by k m.entry y m.fits fits) in
        let ref : (at g1.heap.items (g1.heap.idx m.entry.id)).ref ≡ m.entry.id =
          ap (λ (z : HeapItem). z.ref) m.armed in
        let out = x.gone (g1.heap.idx m.entry.id) m.item λ j l e. no_item_left j l (e ∙ ref) in
        let none_left : nodes (has_id m.entry.id) g'.db ≡ 0 =
          ap (λ n. nodes (has_id n) g'.db) (sym ref) ∙ out in
        let mine : has_id m.entry.id y ≡ true = ground (arith, same) in
        absurd (omega (arith, none_left, IsIn-counted g'.db y (has_id m.entry.id) i mine))
  ]

-- A `get` of a key that was given a time to live is answered with `RES_NX` once `process_timers` ran
-- after the deadline: `expire` with a number that is not negative, on a state that holds the key, then
-- `process_timers`, and then `get` of the key end without a fault, with that answer. No key and no
-- address is in the map twice, no long resize is under way, the heap is ordered and linked with fewer
-- than `k_max_works` items, each of an entry in the map, each entry knows where its item is, no value is
-- longer than a message, and the connections are in the server's invariant.
pub expire-gone :
    (strtoll : Strtoll) (now now' ms rounds head : ℕ) (cmd get_cmd : List Bytes) (s : Server)
    (ns : List ℕ) (g : GlobalData)
    → IsServer head s ns
    → length ns < rounds
    → IsTimed g.db g.heap
    → nodes too_long g.db ≡ 0
    → nodes (has_key (word cmd 1)) g.db ≢ 0
    → str2int strtoll (word cmd 2) ≡ some ms
    → is_negative ms ≡ false
    → word get_cmd 1 ≡ word cmd 1
    → deadline now ms < now'
    → length g.heap.items < k_max_works
    → Returns
        (λ r. (r.0 ≡ res_nx) × (r.1.0 ≡ out_int [] res_nx))
        (do_expire strtoll now cmd [] g >>= λ r.
          process_timers rounds head s.conns now' s.net r.1.1 >>= λ r'. do_get get_cmd [] r'.1)
expire-gone strtoll now now' ms rounds head cmd get_cmd s ns g v enough timed short some_key parsed
      positive same due few =
    Returns-bind
      (do_expire-Timed strtoll now ms cmd [] g timed some_key parsed positive (omega (arith, few)))
      λ (code, (out, g1)) m.
        Returns-bind (process_timers-Processed rounds head now' s ns g1 v m.timed enough)
          λ (net, g') p.
            let x = p.expired in
            let none_left =
              key_gone (word cmd 1) (deadline now ms) now' code out g g1 g' m due few x in
            let d : IsDb g' = record {
              valid = x.timed.valid;
              short = omega (arith, x.less too_long, m.short, short);
            } in
            let (r, run, got) = do_get-Got g' get_cmd [] d in
            (r, run, answer_nx g' (word get_cmd 1) [] r.0 r.1.0 (rw same none_left) got.answer)
