-- ===== src/Db/Deadline.antt =====
-- `entry_set_ttl` of common.cpp: an item of the heap gets a deadline.
use redis_database_basic_imp.Prelude.{
  ℕ, zero, suc, ◌<◌, ◌≡◌, ◌≢◌, refl, sym, ap, ◌∙◌, inl, inr, Bool, true, false, ◌&&◌, Bool-cases,
  List, [], ◌∷◌, ◌++◌, arith, ◌==◌, length, length-append, length-set, set,
}
use redis_database_basic_imp.Prelude.Count.{to_nat, count_in, count_in-set}
use redis_database_basic_imp.Prelude.Run.{Returns}
use redis_database_basic_imp.Heap.{HeapItem, Heap, heap_parent}
use redis_database_basic_imp.Heap.Order.{at, key, no_item, IsHeap, IsLinked, load-at, at-set}
use redis_database_basic_imp.Heap.Update.{IsHeapBut, Updated, heap_update-Updated}
use redis_database_basic_imp.Db.{set_deadline}

abbrev pub is_item : ℕ → ℕ → HeapItem → Bool
is_item ent t i = (i.ref == ent) && (i.val == t)

pub at-append :
    (a : List HeapItem) (t : HeapItem) (i : ℕ) → i < length a → at (a ++ (t ∷ [])) i ≡ at a i
at-append [] t i h = elim h [ ]
at-append (x ∷ a) t zero h = refl
at-append (x ∷ a) t (suc i) h = at-append a t i (omega (arith, h))

pub at-last : (a : List HeapItem) (t : HeapItem) → at (a ++ (t ∷ [])) (length a) ≡ t
at-last [] t = refl
at-last (x ∷ a) t = at-last a t

pub counted_at :
    (p : HeapItem → Bool) (a : List HeapItem)
    → 0 < count_in p a
    → (i : ℕ) × (i < length a) × (p (at a i) ≡ true)
unfolding count_in
counted_at p [] h = absurd (omega (arith, h))
counted_at p (x ∷ a) h = elim (Bool-cases (p x)) [
  | inl t ↦ (0, omega arith, t)
  | inr f ↦
      let rest : 0 < count_in p a = omega (arith, h, ap to_nat f) in
      let (i, l, t) = counted_at p a rest in (suc i, omega (arith, l), t)
]

pub at-set_other :
    (a : List HeapItem) (pos i : ℕ) (t : HeapItem)
    → pos < length a
    → i ≢ pos
    → at (set a pos t) i ≡ at a i
at-set_other a pos i t l n =
    let other : (pos == i) ≡ false = ground arith in at-set a pos i t l ∙ rw other refl

pub key-set :
    (a : List HeapItem) (pos i : ℕ) (t : HeapItem)
    → pos < length a
    → i ≢ pos
    → key (set a pos t) i ≡ key a i
key-set a pos i t l n = ap (λ x. x.val) (at-set_other a pos i t l n)

key-append :
    (a : List HeapItem) (t : HeapItem) (i : ℕ) → i < length a → key (a ++ (t ∷ [])) i ≡ key a i
key-append a t i h = ap (λ x. x.val) (at-append a t i h)

pub IsHeap-but : (a : List HeapItem) (pos : ℕ) → pos < length a → IsHeap a → IsHeapBut pos a
IsHeap-but a pos l h = record {
  edges = λ c p lc _ _. h c p lc;
  over = λ c p lc e up. ground (arith, h c p lc, h pos up l, ap (key a) e);
}

IsHeapBut-set :
    (a : List HeapItem) (pos : ℕ) (t : HeapItem)
    → pos < length a
    → IsHeapBut pos a
    → IsHeapBut pos (set a pos t)
IsHeapBut-set a pos t l v = record {
  edges = λ c p lc n m. omega (
    arith,
    length-set a pos t,
    v.edges c p (omega (arith, lc, length-set a pos t)) n m,
    key-set a pos c t l n,
    key-set a pos (heap_parent c) t l m,
  );
  over = λ c p lc e up. omega (
    arith,
    v.over c p (omega (arith, lc, length-set a pos t)) e up,
    key-set a pos c t l (λ q. absurd (omega (arith, q, e, p))),
    key-set a pos (heap_parent pos) t l (λ q. absurd (omega (arith, q, up))),
  );
}

pub IsHeapBut-append :
    (a : List HeapItem) (t : HeapItem) → IsHeap a → IsHeapBut (length a) (a ++ (t ∷ []))
IsHeapBut-append a t h = record {
  edges = λ c p lc n m.
      let inside : c < length a = omega (arith, lc, n, length-append a (t ∷ [])) in
      omega (
        arith,
        key-append a t c inside,
        key-append a t (heap_parent c) (omega (arith, inside)),
        h c p inside,
      );
  over = λ c p lc e up. absurd (omega (arith, lc, e, length-append a (t ∷ [])));
}

pub at_counted :
    (p : HeapItem → Bool) (a : List HeapItem) (i : ℕ)
    → i < length a
    → p (at a i) ≡ true
    → 0 < count_in p a
unfolding count_in
at_counted p [] i h t = elim h [ ]
at_counted p (x ∷ a) zero h t = omega (arith, ap to_nat t)
at_counted p (x ∷ a) (suc i) h t = omega (arith, at_counted p a i (omega (arith, h)) t)

pub item_eq :
    (x : HeapItem) (ent t : ℕ) → is_item ent t x ≡ true → x ≡ record { val = t; ref = ent }
item_eq x ent t h =
    let r : x.ref ≡ ent = ground arith in
    let v : x.val ≡ t = ground arith in
    ap (λ n. record { val = n; ref = x.ref }) v ∙ ap (λ n. record { val = t; ref = n }) r

-- The heap `h` is a linked heap of `n` items, and the item of `ent` has the deadline `t`. The items of
-- other entries are those of `h0`, and the positions of other entries without an item too.
pub record Armed (ent t n : ℕ) (h0 h : Heap) : Type 0 where
  pub heap : IsHeap h.items
  pub linked : IsLinked h
  pub size : length h.items ≡ n
  pub deadline :
      (h.idx ent < length h.items) × (at h.items (h.idx ent) ≡ record { val = t; ref = ent })
  pub others :
      (p : HeapItem → Bool)
      → ((x : HeapItem) → x.ref ≡ ent → p x ≡ false)
      → count_in p h.items ≡ count_in p h0.items
  pub kept :
      (e : ℕ)
      → e ≢ ent
      → ((i : ℕ) → i < length h0.items → (at h0.items i).ref ≢ e)
      → h.idx e ≡ h0.idx e

module _ (h : Heap) (pos ent t : ℕ) (l : pos < length h.items)
    (mine : (at h.items pos).ref ≡ ent) where
  abbrev armed : Heap
  armed = record h { items = set h.items pos (record { val = t; ref = ent }) }

  armed-IsLinked : IsLinked h → IsLinked armed
  armed-IsLinked links i li = elim (Bool-cases (pos == i)) [
    | inl here ↦
        let e : i ≡ pos = ground arith in
        rw (at-set h.items pos i (record { val = t; ref = ent }) l, here)
          (ap h.idx (sym mine) ∙ links pos l ∙ sym e)
    | inr other ↦
        let n : i ≢ pos = λ q. absurd (ground arith) in
        rw (at-set_other h.items pos i (record { val = t; ref = ent }) l n)
          (links i (omega (arith, li, length-set h.items pos (record { val = t; ref = ent }))))
  ]

  armed-counted : 0 < count_in (is_item ent t) armed.items
  armed-counted =
      let item : HeapItem = record { val = t; ref = ent } in
      let here : (pos == pos) ≡ true = ground arith in
      let is : is_item ent t item ≡ true = ground arith in
      at_counted (is_item ent t) armed.items pos (omega (arith, l, length-set h.items pos item))
        (ap (is_item ent t) (at-set h.items pos pos item l ∙ rw here refl) ∙ is)

  Updated-Armed : (h' : Heap) → Updated armed h' → Armed ent t (length h.items) h h'
  Updated-Armed h' u =
      let (i, li, is) =
        counted_at (is_item ent t) h'.items
          (omega (arith, u.same (is_item ent t), armed-counted)) in
      let eq = item_eq (at h'.items i) ent t is in
      let found = ap h'.idx (sym (ap (λ (x : HeapItem). x.ref) eq)) ∙ u.linked i li in
      record {
        heap = u.heap;
        linked = u.linked;
        size = u.size ∙ length-set h.items pos (record { val = t; ref = ent });
        deadline = (omega (arith, found, li), ap (at h'.items) found ∙ eq);
        others = λ p out. omega (
          arith,
          u.same p,
          count_in-set p h.items pos (record { val = t; ref = ent }) no_item l,
          ap to_nat (out (at h.items pos) mine),
          ap to_nat (out (record { val = t; ref = ent }) refl),
        );
        kept = λ e n free. u.kept e λ j lj. elim (Bool-cases (j == pos)) [
          | inl here ↦
              let z : j ≡ pos = ground arith in
              let self : (pos == pos) ≡ true = ground arith in
              rw (z, at-set h.items pos pos (record { val = t; ref = ent }) l, self)
                (λ q. n (sym q))
          | inr other ↦
              let m : j ≢ pos = λ q. absurd (ground (arith, other, q)) in
              rw (at-set_other h.items pos j (record { val = t; ref = ent }) l m)
                (free j (omega (arith, lj, length-set h.items pos (record { val = t; ref = ent }))))
        ];
      }

  pub set_deadline-Armed :
      IsLinked h
      → IsHeapBut pos h.items
      → Returns (Armed ent t (length h.items) h) (set_deadline h pos t)
  unfolding set_deadline
  set_deadline-Armed links v =
      let item : HeapItem = record { val = t; ref = ent } in
      let size = length-set h.items pos item in
      let (h', run, u) =
        heap_update-Updated armed pos (omega (arith, l, size)) (armed-IsLinked links)
          (length h.items) (sym size) (IsHeapBut-set h.items pos item l v) in
      (h', rw (load-at h pos l, mine) run, Updated-Armed h' u)
