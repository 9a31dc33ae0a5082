-- ===== src/Db/Persist.antt =====
-- `heap_remove`, and `entry_set_ttl` with a negative time to live: the item of an entry is taken out.
use redis_database_basic_imp.Prelude.{
  ℕ, zero, suc, ◌+◌, ◌-◌, ◌<◌, ◌≡◌, ◌≢◌, ◌⊎◌, refl, sym, ap, ◌∙◌, inl, inr, Bool, true, false,
  Bool-cases, List, [], ◌∷◌, arith, ltb, ◌==◌, length, length-set, take, length-take,
}
use redis_database_basic_imp.Prelude.Count.{to_nat, count_in, count_in-set}
use redis_database_basic_imp.Prelude.Run.{Returns}
use redis_database_basic_imp.Heap.{HeapItem, Heap, heap_parent, write_ref}
use redis_database_basic_imp.Heap.Order.{
  at, key, no_item, IsHeap, IsLinked, load-at, at-set, place-placed, placed,
}
use redis_database_basic_imp.Heap.Update.{IsHeapBut, Updated, heap_update-Updated}
use redis_database_basic_imp.Db.{no_idx, is_negative, heap_remove, entry_set_ttl}
use redis_database_basic_imp.Db.Deadline.{at-set_other, counted_at, at_counted}

at-take : (a : List HeapItem) (k i : ℕ) → i < k → at (take k a) i ≡ at a i
at-take [] zero i l = refl
at-take [] (suc k) i l = refl
at-take (x ∷ a) zero i l = absurd (omega (arith, l))
at-take (x ∷ a) (suc k) zero l = refl
at-take (x ∷ a) (suc k) (suc i) l = at-take a k i (omega (arith, l))

-- What is cut off when the last item is popped.
count_in-pop :
    (p : HeapItem → Bool) (a : List HeapItem) (k : ℕ)
    → length a ≡ k + 1
    → count_in p (take k a) + to_nat (p (at a k)) ≡ count_in p a
unfolding count_in
count_in-pop p [] k l = absurd (omega (arith, l))
count_in-pop p (x ∷ []) zero l = omega arith
count_in-pop p (x ∷ (y ∷ a)) zero l = absurd (omega (arith, l))
count_in-pop p (x ∷ a) (suc k) l = omega (arith, count_in-pop p a k (omega (arith, l)))

-- `h'` is a linked heap of the items of `h` but the one at `pos`. The positions of other entries that
-- have no item were not written.
pub record Cut (h : Heap) (pos : ℕ) (h' : Heap) : Type 0 where
  pub heap : IsHeap h'.items
  pub linked : IsLinked h'
  pub loses :
      (p : HeapItem → Bool) → count_in p h'.items + to_nat (p (at h.items pos)) ≡ count_in p h.items
  pub size : length h'.items + 1 ≡ length h.items
  pub gone : (i : ℕ) → i < length h'.items → (at h'.items i).ref ≢ (at h.items pos).ref
  pub kept : (e : ℕ) → ((i : ℕ) → i < length h.items → (at h.items i).ref ≢ e) → h'.idx e ≡ h.idx e

module _ (h : Heap) (pos last : ℕ) (l : pos < length h.items) (el : length h.items ≡ last + 1)
    (order : IsHeap h.items) (links : IsLinked h) where
  -- Two items are of different entries.
  apart : (i : ℕ) → i < length h.items → i ≢ pos → (at h.items i).ref ≢ (at h.items pos).ref
  apart i li n e = n (ground (arith, links i li, links pos l, ap h.idx e))

  -- The last item is taken out.
  abbrev shorter : Heap
  shorter = record h { items = take last h.items }

  length-shorter : length shorter.items ≡ last
  length-shorter = omega (arith, length-take last h.items, el)

  shorter-Cut : pos ≡ last → Cut h pos shorter
  shorter-Cut z = record {
    heap = λ c p lc.
        let lc' : c < last = omega (arith, lc, length-shorter) in
        omega (
          arith,
          ap (λ (x : HeapItem). x.val) (at-take h.items last c lc'),
          ap (λ (x : HeapItem). x.val) (at-take h.items last (heap_parent c) (omega (arith, lc'))),
          order c p (omega (arith, lc', el)),
        );
    linked = λ i li.
        let li' : i < last = omega (arith, li, length-shorter) in
        rw (at-take h.items last i li') (links i (omega (arith, li', el)));
    loses = λ p. rw z (count_in-pop p h.items last el);
    size = omega (arith, length-shorter, el);
    gone = λ i li.
        let li' : i < last = omega (arith, li, length-shorter) in
        rw (at-take h.items last i li')
          (apart i (omega (arith, li', el)) λ e. absurd (omega (arith, e, z, li')));
    kept = λ e n. refl;
  }

  -- The last item takes the place of another one.
  module _ (n : pos ≢ last) where
    inner : pos < last
    inner = omega (arith, l, el, n)

    ll : last < length h.items
    ll = omega (arith, el)

    abbrev filled : Heap
    filled = placed h pos (at h.items last)

    abbrev moved : Heap
    moved = record filled { items = take last filled.items }

    length-moved : length moved.items ≡ last
    length-moved =
        omega (arith, length-take last filled.items, length-set h.items pos (at h.items last), el)

    at-moved : (i : ℕ) → i < last → i ≢ pos → at moved.items i ≡ at h.items i
    at-moved i li ni =
        at-take filled.items last i li ∙ at-set_other h.items pos i (at h.items last) l ni

    at-moved_here : at moved.items pos ≡ at h.items last
    at-moved_here =
        let self : (pos == pos) ≡ true = ground arith in
        at-take filled.items last pos inner
        ∙ at-set h.items pos pos (at h.items last) l
        ∙ rw self refl

    moved-IsLinked : IsLinked moved
    moved-IsLinked i li = elim (Bool-cases (i == pos)) [
      | inl e ↦
          let z : i ≡ pos = ground arith in
          let self : ((at h.items last).ref == (at h.items last).ref) ≡ true = ground arith in
          rw (z, at-moved_here, self) refl
      | inr f ↦
          let ni : i ≢ pos = λ z. absurd (ground (arith, f, z)) in
          let li' : i < last = omega (arith, li, length-moved) in
          let here = links i (omega (arith, li', el)) in
          let other : ((at h.items last).ref == (at h.items i).ref) ≡ false =
            elim (Bool-cases ((at h.items last).ref == (at h.items i).ref)) [
              | inr g ↦ g
              | inl g ↦
                  let z : (at h.items last).ref ≡ (at h.items i).ref = ground arith in
                  absurd (omega (arith, links last ll, here, ap h.idx z, li'))
            ] in
          rw (at-moved i li' ni, other) here
    ]

    moved-IsHeapBut : IsHeapBut pos moved.items
    moved-IsHeapBut = record {
      edges = λ c p lc nc np.
          let lc' : c < last = omega (arith, lc, length-moved) in
          omega (
            arith,
            ap (λ (x : HeapItem). x.val) (at-moved c lc' nc),
            ap (λ (x : HeapItem). x.val) (at-moved (heap_parent c) (omega (arith, lc')) np),
            order c p (omega (arith, lc', el)),
          );
      over = λ c p lc e up.
          let lc' : c < last = omega (arith, lc, length-moved) in
          omega (
            arith,
            ap (λ (x : HeapItem). x.val) (at-moved c lc' (λ q. absurd (omega (arith, q, e, p)))),
            ap (λ (x : HeapItem). x.val)
                (at-moved (heap_parent pos) (omega (arith, inner))
                  (λ q. absurd (omega (arith, q, up)))),
            order c p (omega (arith, lc', el)),
            ap (key h.items) e,
            order pos up l,
          );
    }

    moved-loses :
        (p : HeapItem → Bool)
        → count_in p moved.items + to_nat (p (at h.items pos)) ≡ count_in p h.items
    moved-loses p =
        let size = length-set h.items pos (at h.items last) in
        omega (
          arith,
          count_in-pop p filled.items last (omega (arith, size, el)),
          ap (λ x. to_nat (p x))
              (at-set_other h.items pos last (at h.items last) l (λ q. n (sym q))),
          count_in-set p h.items pos (at h.items last) no_item l,
        )

    moved-gone : (i : ℕ) → i < last → (at moved.items i).ref ≢ (at h.items pos).ref
    moved-gone i li = elim (Bool-cases (i == pos)) [
      | inl e ↦
          let z : i ≡ pos = ground arith in rw (z, at-moved_here) (apart last ll λ q. n (sym q))
      | inr f ↦
          let ni : i ≢ pos = λ z. absurd (ground (arith, f, z)) in
          rw (at-moved i li ni) (apart i (omega (arith, li, el)) ni)
    ]

    Updated-Cut : (h' : Heap) → Updated moved h' → Cut h pos h'
    Updated-Cut h' u = record {
      heap = u.heap;
      linked = u.linked;
      loses = λ p. omega (arith, u.same p, moved-loses p);
      size = omega (arith, u.size, length-moved, el);
      gone = λ i li e.
          let r = (at h.items pos).ref in
          let mine : ((at h'.items i).ref == r) ≡ true = ground (arith, e) in
          let some_moved = at_counted (λ x. x.ref == r) h'.items i li mine in
          let (j, lj, t) =
            counted_at (λ x. x.ref == r) moved.items
              (omega (arith, u.same (λ x. x.ref == r), some_moved)) in
          moved-gone j (omega (arith, lj, length-moved)) (ground (arith, t));
      kept = λ e none.
          let out : ((at h.items last).ref == e) ≡ false = ground (arith, none last ll) in
          u.kept e (λ i li. elim (Bool-cases (i == pos)) [
            | inl f ↦ let z : i ≡ pos = ground arith in rw (z, at-moved_here) (none last ll)
            | inr f ↦
                let ni : i ≢ pos = λ z. absurd (ground (arith, f, z)) in
                let li' : i < last = omega (arith, li, length-moved) in
                rw (at-moved i li' ni) (none i (omega (arith, li', el)))
          ])
          ∙ rw out refl;
    }

-- On a linked heap `heap_remove` of an item takes just that one out and leaves a linked heap, with no
-- item of the same entry.
pub heap_remove-Cut :
    (h : Heap) (pos : ℕ)
    → IsHeap h.items
    → IsLinked h
    → pos < length h.items
    → Returns (Cut h pos) (heap_remove h pos)
unfolding heap_remove
heap_remove-Cut h pos order links l =
    let last = length h.items - 1 in
    let el : length h.items ≡ last + 1 = omega (arith, l) in
    let some_item : (length h.items == 0) ≡ false = ground (arith, l) in
    elim (Bool-cases (pos == last)) [
      | inl z ↦
          let e : pos ≡ last = ground arith in
          let short : ltb pos (length (shorter h pos last l el order links).items) ≡ false =
            ground (arith, length-shorter h pos last l el order links, e) in
          (
            shorter h pos last l el order links,
            rw (z, some_item, short) refl,
            shorter-Cut h pos last l el order links e,
          )
      | inr f ↦
          let n : pos ≢ last = λ e. absurd (ground (arith, f, e)) in
          let s = moved h pos last l el order links n in
          let size = length-moved h pos last l el order links n in
          let long : ltb pos (length s.items) ≡ true = ground (arith, size, l, el, f) in
          let (h', run, u) =
            heap_update-Updated s pos (omega (arith, size, inner h pos last l el order links n))
              (moved-IsLinked h pos last l el order links n) (length s.items) refl
              (moved-IsHeapBut h pos last l el order links n) in
          (
            h',
            rw
                (
                  f,
                  load-at h last (omega (arith, el)),
                  place-placed h pos (at h.items last) l,
                  length-set h.items pos (at h.items last),
                  some_item,
                  long,
                )
                run,
            Updated-Cut h pos last l el order links n h' u,
          )
    ]

-- The heap `h'` after the item of `ent` was taken out of `h`, if it had one, and marked as not there.
pub record Persisted (ent : ℕ) (h h' : Heap) : Type 0 where
  pub heap : IsHeap h'.items
  pub linked : IsLinked h'
  pub unset : h'.idx ent ≡ no_idx
  pub gone : (i : ℕ) → i < length h'.items → (at h'.items i).ref ≢ ent
  pub others :
      (p : HeapItem → Bool)
      → ((x : HeapItem) → x.ref ≡ ent → p x ≡ false)
      → count_in p h'.items ≡ count_in p h.items

-- The position of the entry of the item at `pos` is written over.
pub Cut-Persisted :
    (h : Heap) (pos ent : ℕ) (h' : Heap)
    → (at h.items pos).ref ≡ ent
    → Cut h pos h'
    → Persisted ent h (record h' { idx = write_ref h'.idx ent no_idx })
Cut-Persisted h pos ent h' mine c =
    let self : (ent == ent) ≡ true = ground arith in
    record {
      heap = c.heap;
      linked = λ i l.
          let other : (ent == (at h'.items i).ref) ≡ false = ground (arith, c.gone i l, mine) in
          rw other (c.linked i l);
      unset = rw self refl;
      gone = λ i l e. c.gone i l (e ∙ sym mine);
      others = λ p out. omega (arith, c.loses p, ap to_nat (out (at h.items pos) mine));
    }

-- A negative time to live, for an entry that has no item in the heap or knows where its item is, leaves
-- a linked heap without an item of the entry, with all items of other entries and no others, and the
-- entry marked as one without an item.
pub entry_set_ttl-Persisted :
    (now : ℕ) (h : Heap) (ent ttl_ms : ℕ)
    → IsHeap h.items
    → IsLinked h
    → length h.items < no_idx
    → is_negative ttl_ms ≡ true
    → (h.idx ent ≡ no_idx) ⊎ ((h.idx ent < length h.items) × ((at h.items (h.idx ent)).ref ≡ ent))
    → Returns (Persisted ent h) (entry_set_ttl now h ent ttl_ms)
unfolding entry_set_ttl
entry_set_ttl-Persisted now h ent ttl_ms heap links few negative (inl none) =
    let unset : (h.idx ent == no_idx) ≡ true = ground arith in
    (
      h,
      rw (negative, unset) refl,
      record {
        heap = heap;
        linked = links;
        unset = none;
        gone = λ i l e. absurd (omega (arith, ap h.idx e, links i l, none, l, few));
        others = λ p out. refl;
      },
    )
entry_set_ttl-Persisted now h ent ttl_ms heap links few negative (inr (l, mine)) =
    let there : (h.idx ent == no_idx) ≡ false = ground (arith, l, few) in
    let (h', run, c) = heap_remove-Cut h (h.idx ent) heap links l in
    (_, rw (negative, there, run) refl, Cut-Persisted h (h.idx ent) ent h' mine c)
