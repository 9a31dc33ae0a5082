-- ===== src/Timer/Drop.antt =====
-- A round of the loop of `process_timers` over the heap: the entry of the first item is deleted.
use redis_database_basic_imp.Prelude.{
  ℕ, ◌+◌, ◌≤◌, ◌<◌, ◌≡◌, ◌≢◌, refl, sym, ap, ◌∙◌, inl, inr, Bool, true, false, Bool-cases, Option,
  none, some, List, arith, ◌==◌, ◌&&◌, length,
}
use redis_database_basic_imp.Prelude.Count.{to_nat, count_in}
use redis_database_basic_imp.Prelude.Run.{ok, Returns}
use redis_database_basic_imp.HashTable.{HMap, hm_delete}
use redis_database_basic_imp.HashTable.Valid.{nodes}
use redis_database_basic_imp.HashTable.Lookup.{wanted, missing, found}
use redis_database_basic_imp.HashTable.Delete.{Deleted, hm_delete-Deleted}
use redis_database_basic_imp.Heap.{Heap, HeapItem, write_ref}
use redis_database_basic_imp.Heap.Order.{at, IsLinked}
use redis_database_basic_imp.Db.{Entry, GlobalData, entry_eq, entry_del, hcode_of, no_idx, is_set}
use redis_database_basic_imp.Db.Keys.{same_bytes_refl}
use redis_database_basic_imp.Db.Deadline.{counted_at, at_counted, is_item, item_eq}
use redis_database_basic_imp.Db.Persist.{Cut, heap_remove-Cut}
use redis_database_basic_imp.Timer.Process.{is_node, expire_top}
use redis_database_basic_imp.Timer.Entries.{IsIn, IsTimed, IsMarked, has_id, entry_at-found}

pub entry_del-same :
    (g : GlobalData) (e : Entry) → ((entry_del g e).db ≡ g.db) × ((entry_del g e).heap ≡ g.heap)
unfolding entry_del
entry_del-same g e = elim (Bool-cases ((e.kind == 1) && is_set e.zset)) [
  | inl queued ↦ rw queued (refl, refl)
  | inr freed ↦ rw freed (refl, refl)
]

wanted_self : (e : Entry) → wanted hcode_of entry_eq e e ≡ true
wanted_self e =
    let code : (e.hcode == e.hcode) ≡ true = ground arith in rw code (same_bytes_refl e.key)

-- The entry itself is what a deletion with it takes out.
module _ (db : HMap Entry) (heap : Heap) (v : IsTimed db heap) (e : Entry) (there : IsIn db e) where
  -- `db'` is the map without the entry `x` at the address of `e`.
  pub record Without (x : Entry) (db' : HMap Entry) : Type 0 where
    pub run : hm_delete hcode_of db e entry_eq ≡ ok (some x, db')
    pub same : x.id ≡ e.id
    pub was : IsIn db x
    pub deleted : Deleted hcode_of entry_eq e db (some x, db')

  hm_delete-Without : (x : Entry) × (db' : HMap Entry) × Without x db'
  hm_delete-Without =
      let (r, run, d) = hm_delete-Deleted hcode_of entry_eq e db v.valid v.few in by_answer r run d
    where
      by_answer :
          (r : Option Entry × HMap Entry)
          → hm_delete hcode_of db e entry_eq ≡ ok r
          → Deleted hcode_of entry_eq e db r
          → (x : Entry) × (db' : HMap Entry) × Without x db'
      by_answer (none, db') run d = elim d.answer [
        | missing z ↦
            let out = there (wanted hcode_of entry_eq e) z in
            absurd (ground (arith, out, wanted_self e))
      ]
      by_answer (some x, db') run d = elim d.answer [
        | found fits among ↦ (
          x,
          db',
          record { run = run; same = v.unique e x there among fits; was = among; deleted = d },
        )
      ]

-- An item of the one array stands in the other too.
pub item_from :
    (a b : List HeapItem)
    → ((p : HeapItem → Bool) → count_in p a ≤ count_in p b)
    → (i : ℕ) → i < length a
    → (j : ℕ) × (j < length b) × (at b j ≡ at a i)
item_from a b less i l =
    let x = at a i in
    let same = is_item x.ref x.val in
    let here : same x ≡ true = ground arith in
    let (j, lj, t) = counted_at same b (omega (arith, less same, at_counted same a i l here)) in
    (j, lj, item_eq (at b j) x.ref x.val t)

-- Where one item is taken out of an array, the items of other entries are still there.
pub item_stays :
    (a b : List HeapItem) (t : HeapItem)
    → ((p : HeapItem → Bool) → count_in p b + to_nat (p t) ≡ count_in p a)
    → (i : ℕ) → i < length a
    → (at a i).ref ≢ t.ref
    → (j : ℕ) × (j < length b) × (at b j ≡ at a i)
item_stays a b t loses i l n =
    let x = at a i in
    let is = is_item x.ref x.val in
    let here : is x ≡ true = ground arith in
    let other : is t ≡ false = ground (arith, n) in
    let (j, lj, one) =
      counted_at is b (omega (arith, loses is, ap to_nat other, at_counted is a i l here)) in
    (j, lj, item_eq (at b j) x.ref x.val one)

-- `g'` is `g` without the entry of the first item and without that item.
pub record Dropped (g g' : GlobalData) : Type 0 where
  pub timed : IsTimed g'.db g'.heap
  pub entry : Entry
  pub same : entry.id ≡ (at g.heap.items 0).ref
  pub was : IsIn g.db entry
  pub loses : (p : Entry → Bool) → nodes p g'.db + to_nat (p entry) ≡ nodes p g.db
  pub items :
      (p : HeapItem → Bool)
      → count_in p g'.heap.items + to_nat (p (at g.heap.items 0)) ≡ count_in p g.heap.items
  pub size : length g'.heap.items + 1 ≡ length g.heap.items
  pub gone : nodes (has_id (at g.heap.items 0).ref) g'.db ≡ 0

module _ (db : HMap Entry) (heap : Heap) (v : IsTimed db heap) (l : 0 < length heap.items) where
  abbrev id : ℕ
  id = (at heap.items 0).ref

  abbrev unset : Heap → Heap
  unset h = record h { idx = write_ref h.idx id no_idx }

  unset-IsLinked : (h : Heap) → Cut heap 0 h → IsLinked (unset h)
  unset-IsLinked h c i li =
      let other : (id == (at h.items i).ref) ≡ false = ground (arith, c.gone i li) in
      rw other (c.linked i li)

  -- The entries that are left are at other addresses.
  apart :
      (x : Entry) (db' : HMap Entry)
      → ((p : Entry → Bool) → nodes p db' + to_nat (p x) ≡ nodes p db)
      → (y : Entry) → IsIn db' y
      → x.id ≡ id
      → IsIn db x
      → y.id ≢ id
  apart x db' loses y i mine was e =
      let here : has_id x.id x ≡ true = ground arith in
      let none : nodes (has_id x.id) db' ≡ 0 =
        omega (arith, loses (has_id x.id), v.ids x was, ap to_nat here) in
      let out = i (has_id x.id) none in absurd (ground (arith, out, e, mine))

  left-IsMarked :
      (h : Heap) → Cut heap 0 h → (y : ℕ) → y ≢ id → IsMarked heap y → IsMarked (unset h) y
  left-IsMarked h c y n m =
      let other : (id == y) ≡ false = ground (arith, n) in
      elim m [
        | inl (unset_before, out) ↦ inl (
          rw other (c.kept y out ∙ unset_before),
          λ i li e.
              let less : (p : HeapItem → Bool) → count_in p h.items ≤ count_in p heap.items =
                λ p. omega (arith, c.loses p) in
              let (j, lj, z) = item_from h.items heap.items less i li in
              out j lj (ap (λ (k : HeapItem). k.ref) z ∙ e),
        )
        | inr (lt, mine) ↦
            let (j, lj, z) =
              item_stays heap.items h.items (at heap.items 0) c.loses (heap.idx y) lt
                (λ e. n (sym mine ∙ e)) in
            let ref : (at h.items j).ref ≡ y = ap (λ (k : HeapItem). k.ref) z ∙ mine in
            let pos : h.idx y ≡ j = ap h.idx (sym ref) ∙ c.linked j lj in
            inr (rw (other, pos) lj, rw (other, pos) ref)
      ]

  -- What is left is a map with a heap of its entries.
  left-IsTimed :
      (e x : Entry) (db' : HMap Entry) (h : Heap) (there : IsIn db e)
      → e.id ≡ id
      → Without db heap v e there x db'
      → Cut heap 0 h
      → IsTimed db' (unset h)
  left-IsTimed e x db' h there mine w c =
      let loses = w.deleted.loses in
      let still : (y : Entry) → IsIn db' y → IsIn db y =
        λ y i p z. i p (omega (arith, loses p, z)) in
      record {
        valid = w.deleted.valid;
        few = omega (arith, w.deleted.few, v.few);
        unique = λ y z iy iz. v.unique y z (still y iy) (still z iz);
        order = c.heap;
        links = unset-IsLinked h c;
        ids = λ y i. omega (arith, loses (has_id y.id), v.ids y (still y i));
        marked = λ y i.
            left-IsMarked h c y.id (apart x db' loses y i (w.same ∙ mine) w.was)
              (v.marked y (still y i));
        held = λ i li.
            let r = (at h.items i).ref in
            let less : (p : HeapItem → Bool) → count_in p h.items ≤ count_in p heap.items =
              λ p. omega (arith, c.loses p) in
            let (j, lj, z) = item_from h.items heap.items less i li in
            let before : 0 < nodes (has_id r) db =
              rw (sym (ap (λ (y : HeapItem). y.ref) z)) (v.held j lj) in
            let other : has_id r x ≡ false = ground (arith, c.gone i li, w.same, mine) in
            omega (arith, loses (has_id r), before, ap to_nat other);
      }

-- A round of the loop deletes the entry of the first item.
pub expire_top-Dropped :
    (g : GlobalData)
    → IsTimed g.db g.heap
    → 0 < length g.heap.items
    → Returns (Dropped g) (expire_top g (at g.heap.items 0).ref)
unfolding expire_top
expire_top-Dropped g v l =
    let top = (at g.heap.items 0).ref in
    let (e, at_e, mine, there) = entry_at-found g top (v.held 0 l) in
    let (x, db', w) = hm_delete-Without g.db g.heap v e there in
    let (h, cut, c) = heap_remove-Cut g.heap 0 v.order v.links l in
    let is : is_node (some x) e ≡ true = ground (arith, w.same) in
    let g1 : GlobalData = record g { db = db'; heap = unset g.db g.heap v l h } in
    let (same_db, same_heap) = entry_del-same g1 e in
    (
      entry_del g1 e,
      rw (at_e, w.run, is, v.links 0 l, cut) refl,
      record {
        timed = rw (same_db, same_heap) (left-IsTimed g.db g.heap v l e x db' h there mine w c);
        entry = x;
        same = w.same ∙ mine;
        was = w.was;
        loses = λ p. rw same_db (w.deleted.loses p);
        items = λ p. rw same_heap (c.loses p);
        size = rw same_heap c.size;
        gone =
            let here : has_id top x ≡ true = ground (arith, w.same, mine) in
            let one : nodes (has_id top) g.db ≤ 1 = rw (sym (w.same ∙ mine)) (v.ids x w.was) in
            rw same_db (omega (arith, w.deleted.loses (has_id top), one, ap to_nat here));
      },
    )
