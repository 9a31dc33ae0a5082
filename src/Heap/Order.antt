-- ===== src/Heap/Order.antt =====
-- The heap order, the back pointers, and the moves that both loops of the heap make.
use redis_database_basic_imp.Prelude.{
  ℕ, ◌≤◌, ◌<◌, ◌≡◌, ◌≢◌, refl, ap, ◌∙◌, Bool, List, arith, ◌==◌, if◌then◌else◌, length, get_or, set,
  get_elem?-get_or, get_or-set, length-set,
}
use redis_database_basic_imp.Prelude.Count.{to_nat, count_in, count_in-set}
use redis_database_basic_imp.Prelude.Run.{ok}
use redis_database_basic_imp.Heap.{HeapItem, Heap, heap_parent, load, place, write_ref}

-- What a read outside the array would give; no theorem below reads there.
abbrev pub no_item : HeapItem
no_item = record { val = 0; ref = 0 }

abbrev pub at : List HeapItem → ℕ → HeapItem
at a i = get_or a i no_item

abbrev pub key : List HeapItem → ℕ → ℕ
key a i = (at a i).val

-- No item expires before its parent.
abbrev pub IsHeap : List HeapItem → Type 0
IsHeap a = (c : ℕ) → 0 < c → c < length a → key a (heap_parent c) ≤ key a c

-- The entry of each item knows the item's position.
abbrev pub IsLinked : Heap → Type 0
IsLinked h = (i : ℕ) → i < length h.items → h.idx (at h.items i).ref ≡ i

-- The heap with `t` in hand and a hole at `pos`: the other items are linked, and are of other entries.
pub record HasHole (h : Heap) (pos : ℕ) (t : HeapItem) : Type 0 where
  pub inside : pos < length h.items
  pub linked :
      (i : ℕ)
      → i < length h.items
      → i ≢ pos
      → (h.idx (at h.items i).ref ≡ i) × ((at h.items i).ref ≢ t.ref)

-- `h'` is a linked heap of `t` and the other items, and no other entry's position was written.
pub record Settled (h : Heap) (pos : ℕ) (t : HeapItem) (h' : Heap) : Type 0 where
  pub heap : IsHeap h'.items
  pub linked : IsLinked h'
  pub same : (p : HeapItem → Bool) → count_in p h'.items ≡ count_in p (set h.items pos t)
  pub size : length h'.items ≡ length h.items
  pub kept :
      (e : ℕ)
      → e ≢ t.ref
      → ((i : ℕ) → i < length h.items → i ≢ pos → (at h.items i).ref ≢ e)
      → h'.idx e ≡ h.idx e

pub load-at : (h : Heap) (i : ℕ) → i < length h.items → load h i ≡ ok (at h.items i)
unfolding load
load-at h i l = rw (get_elem?-get_or h.items i no_item l)

-- What `place` leaves.
abbrev pub placed : Heap → ℕ → HeapItem → Heap
placed h pos t = record { items = set h.items pos t; idx = write_ref h.idx t.ref pos }

pub place-placed :
    (h : Heap) (pos : ℕ) (t : HeapItem) → pos < length h.items → place h pos t ≡ ok (placed h pos t)
unfolding place
place-placed h pos t l = rw (load-at h pos l)

pub at-set :
    (a : List HeapItem) (pos i : ℕ) (t : HeapItem)
    → pos < length a
    → at (set a pos t) i ≡ (if pos == i then t else at a i)
at-set a pos i t l = get_or-set a pos i t no_item l

module _ (h : Heap) (pos : ℕ) (t : HeapItem) (v : HasHole h pos t) where
  -- Filling the hole.
  pub placed-Settled : IsHeap (set h.items pos t) → Settled h pos t (placed h pos t)
  placed-Settled ordered = record {
    heap = ordered;
    linked = λ i l.
        ground (arith, at-set h.items pos i t v.inside, v.linked i, length-set h.items pos t);
    same = λ p. refl;
    size = length-set h.items pos t;
    kept = λ e n others. ground arith;
  }

  module _ (q : ℕ) (l : q < length h.items) (n : q ≢ pos) where
    -- The item at `q` fills the hole, and the hole moves to `q`.
    abbrev pub shifted : Heap
    shifted = placed h pos (at h.items q)

    pub shifted-HasHole : HasHole shifted q t
    shifted-HasHole = record {
      inside = omega (arith, length-set h.items pos (at h.items q));
      linked = λ i li ni. ground (
        arith,
        at-set h.items pos i (at h.items q) v.inside,
        v.linked i,
        v.linked q l n,
        length-set h.items pos (at h.items q),
      );
    }

    shifted-at : at (set h.items pos (at h.items q)) q ≡ at h.items q
    shifted-at = ground (arith, at-set h.items pos q (at h.items q) v.inside)

    shifted-same :
        (p : HeapItem → Bool)
        → count_in p (set (set h.items pos (at h.items q)) q t) ≡ count_in p (set h.items pos t)
    shifted-same p =
        let b = set h.items pos (at h.items q) in
        omega (
          arith,
          count_in-set p b q t no_item (omega (arith, length-set h.items pos (at h.items q))),
          ap (λ x. to_nat (p x)) shifted-at,
          count_in-set p h.items pos (at h.items q) no_item v.inside,
          count_in-set p h.items pos t no_item v.inside,
        )

    shifted-others :
        (e : ℕ)
        → ((i : ℕ) → i < length h.items → i ≢ pos → (at h.items i).ref ≢ e)
        → (i : ℕ) → i < length (set h.items pos (at h.items q))
        → i ≢ q
        → (at (set h.items pos (at h.items q)) i).ref ≢ e
    shifted-others e others i li ni r = ground (
      arith,
      at-set h.items pos i (at h.items q) v.inside,
      others i,
      others q l n,
      length-set h.items pos (at h.items q),
    )

    pub shifted-Settled : (h' : Heap) → Settled shifted q t h' → Settled h pos t h'
    shifted-Settled h' s = record {
      heap = s.heap;
      linked = s.linked;
      same = λ p. s.same p ∙ shifted-same p;
      size = s.size ∙ length-set h.items pos (at h.items q);
      kept = λ e ne others. s.kept e ne (shifted-others e others) ∙ ground (arith, others q l n);
    }
