-- ===== src/Heap/Up.antt =====
-- `heap_up` restores the order where only the hole's item may be less than its parent.
use redis_database_basic_imp.Prelude.{
  ℕ, zero, suc, ◌+◌, ◌≤◌, ◌<◌, ◌≡◌, ◌≢◌, inl, inr, Bool-cases, arith, ltb, length, length-set,
}
use redis_database_basic_imp.Prelude.Run.{◌>>=◌, Returns}
use redis_database_basic_imp.Heap.{HeapItem, Heap, heap_parent, up_loop, heap_up}
use redis_database_basic_imp.Heap.Order.{
  at, key, HasHole, Settled, load-at, placed, place-placed, at-set, placed-Settled, shifted,
  shifted-HasHole, shifted-Settled,
}

-- The order holds away from the hole, over the hole, and below `t` in the hole.
pub record UpInv (h : Heap) (pos : ℕ) (t : HeapItem) : Type 0 where
  pub edges :
      (c : ℕ)
      → 0 < c
      → c < length h.items
      → c ≢ pos
      → heap_parent c ≢ pos
      → key h.items (heap_parent c) ≤ key h.items c
  pub over :
      (c : ℕ)
      → 0 < c
      → c < length h.items
      → heap_parent c ≡ pos
      → 0 < pos
      → key h.items (heap_parent pos) ≤ key h.items c
  pub below : (c : ℕ) → 0 < c → c < length h.items → heap_parent c ≡ pos → t.val ≤ key h.items c

module _ (h : Heap) (pos : ℕ) (t : HeapItem) (hole : HasHole h pos t) (v : UpInv h pos t) where
  up_stop : (0 < pos → key h.items (heap_parent pos) ≤ t.val) → Settled h pos t (placed h pos t)
  up_stop top = placed-Settled h pos t hole λ c p l. ground (
    arith,
    length-set h.items pos t,
    at-set h.items pos c t hole.inside,
    at-set h.items pos (heap_parent c) t hole.inside,
    v.edges c,
    v.below c,
    top,
  )

  up_step :
      (up : 0 < pos)
      → (l : heap_parent pos < length h.items) → (n : heap_parent pos ≢ pos)
      → t.val < key h.items (heap_parent pos)
      → UpInv (shifted h pos t hole (heap_parent pos) l n) (heap_parent pos) t
  up_step up l n less =
      let q = heap_parent pos in
      let size = length-set h.items pos (at h.items q) in
      let moved = λ (i : ℕ). at-set h.items pos i (at h.items q) hole.inside in
      record {
        edges = λ c p lc nc nq.
            ground (arith, size, moved c, moved (heap_parent c), v.edges c, v.over c);
        over = λ c p lc e pq.
            ground (arith, size, moved c, moved (heap_parent q), v.edges c, v.edges q);
        below = λ c p lc e. ground (arith, size, moved c, v.edges c);
      }

up_loop-Settled :
    (fuel : ℕ) (h : Heap) (pos : ℕ) (t : HeapItem)
    → pos < fuel
    → HasHole h pos t
    → UpInv h pos t
    → Returns (Settled h pos t) (up_loop fuel t h pos)
unfolding up_loop
up_loop-Settled zero h pos t f hole v = absurd (omega arith)
up_loop-Settled (suc fuel) h pos t f hole v = elim (Bool-cases (ltb 0 pos)) [
  | inr root ↦ (
    placed h pos t,
    rw (root, place-placed h pos t hole.inside),
    up_stop h pos t hole v (λ p. ground arith),
  )
  | inl up ↦
      let q = heap_parent pos in
      let pos_up : 0 < pos = ground arith in
      let l : q < length h.items = omega (arith, hole.inside) in
      let n : q ≢ pos = omega arith in
      elim (Bool-cases (ltb t.val (key h.items q))) [
        | inr settled ↦ (
          placed h pos t,
          rw (up, load-at h q l, settled, place-placed h pos t hole.inside),
          up_stop h pos t hole v (λ p. ground arith),
        )
        | inl less ↦
            let (h', run, s) =
              up_loop-Settled fuel (shifted h pos t hole q l n) q t (omega arith)
                (shifted-HasHole h pos t hole q l n)
                (up_step h pos t hole v pos_up l n (ground arith)) in
            (
              h',
              rw (up, load-at h q l, ◌>>=◌, less, place-placed h pos (at h.items q) hole.inside)
                  run,
              shifted-Settled h pos t hole q l n h' s,
            )
      ]
]

-- `heap_up` at `pos` returns, and settles the item that stands there.
pub heap_up-Settled :
    (h : Heap) (pos : ℕ)
    → HasHole h pos (at h.items pos)
    → UpInv h pos (at h.items pos)
    → Returns (Settled h pos (at h.items pos)) (heap_up h pos)
unfolding heap_up
heap_up-Settled h pos hole v =
    rw (load-at h pos hole.inside)
      (up_loop-Settled (pos + 1) h pos (at h.items pos) (omega arith) hole v)
