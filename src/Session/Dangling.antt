-- ===== src/Session/Dangling.antt =====
-- A key with a time to live that is deleted: `do_del` of common.cpp, then `process_timers` of timer.cpp.
use redis_database_basic_imp.Prelude.{
  ℕ, suc, ◌<◌, ◌≡◌, ◌≢◌, ◌⊎◌, ◌∷◌, ◌&&◌, ◌==◌, Bool-cases, sym, refl, ap, inl, inr, true, Option,
  none, some, List, [], arith, ltb, length,
}
use redis_database_basic_imp.Prelude.Bytes.{Bytes}
use redis_database_basic_imp.Prelude.Count.{to_nat}
use redis_database_basic_imp.Prelude.Run.{ok, fault}
use redis_database_basic_imp.Serialisation.{out_int}
use redis_database_basic_imp.Connection.{res_ok}
use redis_database_basic_imp.HashTable.{HMap, hm_delete}
use redis_database_basic_imp.HashTable.Valid.{nodes}
use redis_database_basic_imp.HashTable.Lookup.{missing, found}
use redis_database_basic_imp.HashTable.Delete.{Deleted, hm_delete-Deleted}
use redis_database_basic_imp.Heap.Order.{at, key}
use redis_database_basic_imp.Db.{
  Entry, GlobalData, word, hcode_of, entry_eq, lookup_key, entry_del, do_del, is_set,
}
use redis_database_basic_imp.Db.Keys.{has_key}
use redis_database_basic_imp.Timer.Process.{
  k_max_works, entry_at, expire_top, expire_loop, process_timers,
}
use redis_database_basic_imp.Timer.Entries.{IsIn, IsTimed, has_id, entry_at-gone}
use redis_database_basic_imp.Timer.Drop.{entry_del-same}
use redis_database_basic_imp.Timer.Expire.{first_item}
use redis_database_basic_imp.Server.{Server}
use redis_database_basic_imp.Server.Held.{IsServer}
use redis_database_basic_imp.Server.Sweep.{idle_loop-Returns}

-- The entry is freed, or handed to the thread pool.
entry_del-frees :
    (g : GlobalData) (e : Entry)
    → ((entry_del g e).freed ≡ e ∷ g.freed) ⊎ ((entry_del g e).queued ≡ e ∷ g.queued)
unfolding entry_del
entry_del-frees g e = elim (Bool-cases ((e.kind == 1) && is_set e.zset)) [
  | inl queued ↦ rw queued (inr refl)
  | inr freed ↦ rw freed (inl refl)
]

-- The first item is due, and there is no entry at its address.
expire_loop-dangling :
    (now fuel : ℕ) (g : GlobalData)
    → 0 < length g.heap.items
    → key g.heap.items 0 < now
    → nodes (has_id (at g.heap.items 0).ref) g.db ≡ 0
    → expire_loop now (suc fuel) 0 g ≡ fault
unfolding expire_loop expire_top
expire_loop-dangling now fuel g l due gone = elim (first_item g.heap.items) [
  | inl (empty, _) ↦ absurd (omega (arith, l, empty))
  | inr (_, top) ↦
      let soon : ltb (key g.heap.items 0) now ≡ true = ground (arith, due) in
      rw (expire_loop, top, soon, entry_at-gone g (at g.heap.items 0).ref gone) refl
]

-- What `del` leaves: the heap as it was, no entry in the map at the address of its first item, and
-- the entry of that address freed, or handed to the thread pool to be freed.
pub record Dangling (g g1 : GlobalData) : Type 0 where
  pub heap : g1.heap ≡ g.heap
  pub gone : entry_at g1 (at g1.heap.items 0).ref ≡ none
  pub entry : Entry
  pub there : IsIn g.db entry
  pub pointed : entry.id ≡ (at g1.heap.items 0).ref
  pub deleted : (g1.freed ≡ entry ∷ g.freed) ⊎ (g1.queued ≡ entry ∷ g.queued)

module _ (now rounds head : ℕ) (cmd : List Bytes) (s : Server) (ns : List ℕ) (g : GlobalData)
    (v : IsServer head s ns) (enough : length ns < rounds) (timed : IsTimed g.db g.heap)
    (some_key : nodes (has_key (word cmd 1)) g.db ≢ 0) (some_item : 0 < length g.heap.items)
    (first : (e : Entry)
      → IsIn g.db e
      → has_key (word cmd 1) e ≡ true
      → (at g.heap.items 0).ref ≡ e.id)
    (due : key g.heap.items 0 < now) where
  Deleted-dangling :
      (e : Entry) (db : HMap Entry)
      → Deleted hcode_of entry_eq (lookup_key (word cmd 1)) g.db (some e, db)
      → has_key (word cmd 1) e ≡ true
      → IsIn g.db e
      → nodes (has_id (at g.heap.items 0).ref) db ≡ 0
  Deleted-dangling e db d fits there =
      let z = first e there fits in
      let self : has_id e.id e ≡ true = ground arith in
      rw z (omega (arith, d.loses (has_id e.id), timed.ids e there, ap to_nat self))

  timers_fault :
      (g1 : GlobalData)
      → g1.heap ≡ g.heap
      → nodes (has_id (at g.heap.items 0).ref) g1.db ≡ 0
      → process_timers rounds head s.conns now s.net g1 ≡ fault
  unfolding process_timers
  timers_fault g1 same gone =
      let (net, run) = idle_loop-Returns head now rounds s ns v enough in
      let stuck =
        expire_loop-dangling now k_max_works g1 (rw same some_item) (rw same due) (rw same gone) in
      rw (run, stuck) refl

  entry_del-Dangling :
      (e : Entry) (db : HMap Entry)
      → IsIn g.db e
      → (at g.heap.items 0).ref ≡ e.id
      → nodes (has_id (at g.heap.items 0).ref) db ≡ 0
      → Dangling g (entry_del (record g { db = db }) e)
  entry_del-Dangling e db there here gone =
      let (same_db, same_heap) = entry_del-same (record g { db = db }) e in
      let g1 = entry_del (record g { db = db }) e in
      record {
        heap = same_heap;
        gone = entry_at-gone g1 (at g1.heap.items 0).ref (rw (same_db, same_heap) gone);
        entry = e;
        there = there;
        pointed = rw same_heap (sym here);
        deleted = entry_del-frees (record g { db = db }) e;
      }

  -- On a state where the key is there and the first item of the heap is that of its entry, and due, `del`
  -- of the key returns RES_OK and 1. It frees the entry, or hands it to the thread pool to be freed, and
  -- takes it out of the map, but leaves the item with its address at the front of the heap; and
  -- `process_timers`, which takes the entry to be there, ends in a fault. The connections are in the
  -- server's invariant; no key and no address is in the map twice, no long resize is under way, each item
  -- of the ordered and linked heap is of an entry in the map, and each entry knows where its item is.
  pub do_del-dangles :
      (g1 : GlobalData) × (do_del cmd [] g ≡ ok (res_ok, (out_int [] 1, g1)))
      × Dangling g g1
      × (process_timers rounds head s.conns now s.net g1 ≡ fault)
  unfolding do_del
  do_del-dangles =
      let (r, run, d) =
        hm_delete-Deleted hcode_of entry_eq (lookup_key (word cmd 1)) g.db timed.valid timed.few in
      by_answer r run d
    where
      by_answer :
          (r : Option Entry × HMap Entry)
          → hm_delete hcode_of g.db (lookup_key (word cmd 1)) entry_eq ≡ ok r
          → Deleted hcode_of entry_eq (lookup_key (word cmd 1)) g.db r
          → (g1 : GlobalData) × (do_del cmd [] g ≡ ok (res_ok, (out_int [] 1, g1)))
            × Dangling g g1
            × (process_timers rounds head s.conns now s.net g1 ≡ fault)
      by_answer (none, db) run d = elim d.answer [ missing z ↦ absurd (some_key z) ]
      by_answer (some e, db) run d = elim d.answer [
        | found fits among ↦
            let (same_db, same_heap) = entry_del-same (record g { db = db }) e in
            let gone = Deleted-dangling e db d fits among in
            let g1 = entry_del (record g { db = db }) e in
            (
              g1,
              rw run refl,
              entry_del-Dangling e db among (first e among fits) gone,
              timers_fault g1 same_heap (rw same_db gone),
            )
      ]
