-- ===== src/Timer/Arm.antt =====
-- What `expire` does to the map and the heap that `process_timers` works on.
use redis_database_basic_imp.Prelude.{
  ℕ, ◌<◌, ◌≡◌, ◌≢◌, sym, ap, ◌∙◌, inl, inr, Bool, true, false, Bool-cases, Option, List, arith,
  ◌==◌, length,
}
use redis_database_basic_imp.Prelude.Count.{count_in}
use redis_database_basic_imp.HashTable.{HMap}
use redis_database_basic_imp.HashTable.Valid.{nodes}
use redis_database_basic_imp.HashTable.Lookup.{LookedUp}
use redis_database_basic_imp.Heap.{Heap, HeapItem}
use redis_database_basic_imp.Heap.Order.{at}
use redis_database_basic_imp.Db.{Entry, entry_eq, hcode_of}
use redis_database_basic_imp.Db.Deadline.{Armed, counted_at, at_counted, is_item, item_eq}
use redis_database_basic_imp.Timer.Entries.{IsIn, IsTimed, IsMarked, has_id}

-- A test that an entry of the map passes.
pub IsIn-counted :
    (db : HMap Entry) (e : Entry) (p : Entry → Bool) → IsIn db e → p e ≡ true → 0 < nodes p db
IsIn-counted db e p i t = elim (Bool-cases (nodes p db == 0)) [
  | inl z ↦ let out = i p (ground arith) in absurd (ground (arith, out, t))
  | inr n ↦ ground arith
]

-- A lookup leaves the entries, and less of a resize to do.
pub LookedUp-IsTimed :
    (key : Entry) (db : HMap Entry) (heap : Heap) (r : Option Entry × HMap Entry)
    → LookedUp hcode_of entry_eq key db r
    → IsTimed db heap
    → IsTimed r.1 heap
LookedUp-IsTimed key db heap r l v =
    let back : (e : Entry) → IsIn r.1 e → IsIn db e = λ e i p z. i p (l.same p ∙ z) in
    record {
      valid = l.valid;
      few = omega (arith, l.few, v.few);
      unique = λ e x i j. v.unique e x (back e i) (back x j);
      order = v.order;
      links = v.links;
      ids = λ e i. omega (arith, l.same (has_id e.id), v.ids e (back e i));
      marked = λ e i. v.marked e (back e i);
      held = λ i li. omega (arith, l.same (has_id (at heap.items i).ref), v.held i li);
    }

-- Where the items of other entries than `ent` are the same, one of them stands in both arrays.
item_same :
    (ent : ℕ) (a b : List HeapItem)
    → ((p : HeapItem → Bool)
        → ((x : HeapItem) → x.ref ≡ ent → p x ≡ false)
        → count_in p b ≡ count_in p a)
    → (i : ℕ) → i < length a
    → (at a i).ref ≢ ent
    → (j : ℕ) × (j < length b) × (at b j ≡ at a i)
item_same ent a b same i l n =
    let x = at a i in
    let is = is_item x.ref x.val in
    let here : is x ≡ true = ground arith in
    let out : (y : HeapItem) → y.ref ≡ ent → is y ≡ false = λ y e. ground (arith, n, e) in
    let (j, lj, one) = counted_at is b (omega (arith, same is out, at_counted is a i l here)) in
    (j, lj, item_eq (at b j) x.ref x.val one)

module _ (db : HMap Entry) (heap h : Heap) (e : Entry) (t n : ℕ) (v : IsTimed db heap)
    (there : IsIn db e) (a : Armed e.id t n heap h) where
  back :
      (i : ℕ)
      → i < length h.items
      → (at h.items i).ref ≢ e.id
      → (j : ℕ) × (j < length heap.items) × (at heap.items j ≡ at h.items i)
  back = item_same e.id h.items heap.items λ p out. sym (a.others p out)

  armed-IsMarked : (y : ℕ) → IsMarked heap y → IsMarked h y
  armed-IsMarked y m = elim (Bool-cases (y == e.id)) [
    | inl s ↦
        let z : y ≡ e.id = ground arith in
        rw z (inr (a.deadline.0, ap (λ (x : HeapItem). x.ref) a.deadline.1))
    | inr f ↦
        let other : y ≢ e.id = λ z. absurd (ground (arith, f, z)) in
        elim m [
          | inl (unset, out) ↦ inl (
            a.kept y other out ∙ unset,
            λ i li z.
                let (j, lj, same) = back i li (λ q. other (sym z ∙ q)) in
                out j lj (ap (λ (x : HeapItem). x.ref) same ∙ z),
          )
          | inr (lt, mine) ↦
              let (j, lj, same) =
                item_same e.id heap.items h.items a.others (heap.idx y) lt
                  (λ q. other (sym mine ∙ q)) in
              let ref : (at h.items j).ref ≡ y = ap (λ (x : HeapItem). x.ref) same ∙ mine in
              let pos : h.idx y ≡ j = ap h.idx (sym ref) ∙ a.linked j lj in
              inr (rw pos lj, rw pos ref)
        ]
  ]

  pub Armed-IsTimed : IsTimed db h
  Armed-IsTimed = record {
    valid = v.valid;
    few = v.few;
    unique = v.unique;
    order = a.heap;
    links = a.linked;
    ids = v.ids;
    marked = λ y i. armed-IsMarked y.id (v.marked y i);
    held = λ i li. elim (Bool-cases ((at h.items i).ref == e.id)) [
      | inl s ↦
          let z : (at h.items i).ref ≡ e.id = ground arith in
          let self : has_id e.id e ≡ true = ground arith in
          rw z (IsIn-counted db e (has_id e.id) there self)
      | inr f ↦
          let (j, lj, same) = back i li (λ z. absurd (ground (arith, f, z))) in
          rw (sym (ap (λ (x : HeapItem). x.ref) same)) (v.held j lj)
    ];
  }
