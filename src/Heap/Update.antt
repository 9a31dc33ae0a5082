-- ===== src/Heap/Update.antt =====
-- `heap_update` restores the heap after the item at one position was replaced or changed.
use redis_database_basic_imp.Prelude.{
  ℕ, zero, suc, ◌≤◌, ◌<◌, ◌≡◌, ◌≢◌, sym, ap, ◌∙◌, inl, inr, Bool, Bool-cases, List, arith, ltb,
  length,
}
use redis_database_basic_imp.Prelude.Count.{count_in, count_in-set}
use redis_database_basic_imp.Prelude.Run.{Returns}
use redis_database_basic_imp.Heap.{HeapItem, Heap, heap_parent, heap_up, heap_down, heap_update}
use redis_database_basic_imp.Heap.Order.{
  at, key, no_item, IsHeap, IsLinked, HasHole, Settled, load-at,
}
use redis_database_basic_imp.Heap.Up.{heap_up-Settled}
use redis_database_basic_imp.Heap.Down.{heap_down-Settled}

-- The order may fail only between `pos` and its parent and children.
pub record IsHeapBut (pos : ℕ) (a : List HeapItem) : Type 0 where
  pub edges :
      (c : ℕ)
      → 0 < c
      → c < length a
      → c ≢ pos
      → heap_parent c ≢ pos
      → key a (heap_parent c) ≤ key a c
  pub over :
      (c : ℕ)
      → 0 < c
      → c < length a
      → heap_parent c ≡ pos
      → 0 < pos
      → key a (heap_parent pos) ≤ key a c

-- `h'` is a linked heap of the items of `h`; the position of an entry with no item was not written.
pub record Updated (h h' : Heap) : Type 0 where
  pub heap : IsHeap h'.items
  pub linked : IsLinked h'
  pub same : (p : HeapItem → Bool) → count_in p h'.items ≡ count_in p h.items
  pub size : length h'.items ≡ length h.items
  pub kept : (e : ℕ) → ((i : ℕ) → i < length h.items → (at h.items i).ref ≢ e) → h'.idx e ≡ h.idx e

module _ (h : Heap) (pos : ℕ) (l : pos < length h.items) (links : IsLinked h) where
  item_hole : HasHole h pos (at h.items pos)
  item_hole = record {
    inside = l;
    linked = λ i li n. (links i li, λ e. n (ground (arith, links i li, links pos l, ap h.idx e)));
  }

  Settled-Updated : (h' : Heap) → Settled h pos (at h.items pos) h' → Updated h h'
  Settled-Updated h' s = record {
    heap = s.heap;
    linked = s.linked;
    same = λ p. s.same p ∙ omega (arith, count_in-set p h.items pos (at h.items pos) no_item l);
    size = s.size;
    kept = λ e n. s.kept e (λ r. n pos l (sym r)) (λ i li ni. n i li);
  }

  module _ (len : ℕ) (el : len ≡ length h.items) (v : IsHeapBut pos h.items) where
    update_up :
        0 < pos
        → key h.items pos < key h.items (heap_parent pos)
        → Returns (Updated h) (heap_up h pos)
    update_up up less =
        let (h', run, s) = heap_up-Settled h pos item_hole (record {
          edges = v.edges;
          over = v.over;
          below = λ c p lc e. omega (arith, v.over c p lc e up);
        }) in
        (h', run, Settled-Updated h' s)

    update_down :
        (0 < pos → key h.items (heap_parent pos) ≤ key h.items pos)
        → Returns (Updated h) (heap_down h pos len)
    update_down above =
        let (h', run, s) =
          heap_down-Settled h pos len el item_hole
            (record { edges = v.edges; over = v.over; above = above }) in
        (h', run, Settled-Updated h' s)

    -- On a linked array whose order may fail only around `pos`, `heap_update` returns a linked heap
    -- of the same items, and writes the position of no entry that has no item.
    pub heap_update-Updated : Returns (Updated h) (heap_update h pos len)
    unfolding heap_update
    heap_update-Updated = elim (Bool-cases (ltb 0 pos)) [
      | inr root ↦ rw root (update_down (λ p. absurd (ground arith)))
      | inl up ↦
          let q = heap_parent pos in
          let lq : q < length h.items = omega (arith, l) in
          elim (Bool-cases (ltb (key h.items pos) (key h.items q))) [
            | inl less ↦
                let (h', run, u) = update_up (ground arith) (ground arith) in
                (h', rw (up, load-at h q lq, load-at h pos l, less) run, u)
            | inr fits ↦
                let (h', run, u) = update_down (λ _. ground arith) in
                (h', rw (up, load-at h q lq, load-at h pos l, fits) run, u)
          ]
    ]

root_least_below :
    (k : ℕ) (a : List HeapItem) (i : ℕ) → IsHeap a → i < k → i < length a → key a 0 ≤ key a i
root_least_below zero a i h f l = absurd (omega arith)
root_least_below (suc k) a zero h f l = omega arith
root_least_below (suc k) a (suc i) h f l = omega (
  arith,
  h (suc i) (omega arith) l,
  root_least_below k a (heap_parent (suc i)) h (omega arith) (omega arith),
)

-- The first item of a heap expires no later than any other.
pub root_least : (a : List HeapItem) (i : ℕ) → IsHeap a → i < length a → key a 0 ≤ key a i
root_least a i h l = root_least_below (suc i) a i h (omega arith) l
