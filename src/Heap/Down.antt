-- ===== src/Heap/Down.antt =====
-- `heap_down` restores the order where only the hole's item may be greater than its children.
use native.Mathlib.Decide.{ℕ_discrete}
use redis_database_basic_imp.Prelude.{
  ℕ, zero, suc, ◌+◌, ◌-◌, ◌≤◌, ◌<◌, ◌≡◌, ◌≢◌, ◌⊎◌, refl, inl, inr, true, false, Bool-cases, arith,
  ltb, ◌==◌, if◌then◌else◌, length, length-set,
}
use redis_database_basic_imp.Prelude.Run.{ok, ◌>>=◌, Returns}
use redis_database_basic_imp.Heap.{
  HeapItem, Heap, heap_parent, heap_left, heap_right, min_child, down_loop, heap_down,
}
use redis_database_basic_imp.Heap.Order.{
  at, key, HasHole, Settled, load-at, placed, place-placed, at-set, placed-Settled, shifted,
  shifted-HasHole, shifted-Settled,
}

-- The order holds away from the hole, over the hole, and above `t` in the hole.
pub record DownInv (h : Heap) (pos : ℕ) (t : HeapItem) : Type 0 where
  pub edges :
      (c : ℕ)
      → 0 < c
      → c < length h.items
      → c ≢ pos
      → heap_parent c ≢ pos
      → key h.items (heap_parent c) ≤ key h.items c
  pub over :
      (c : ℕ)
      → 0 < c
      → c < length h.items
      → heap_parent c ≡ pos
      → 0 < pos
      → key h.items (heap_parent pos) ≤ key h.items c
  pub above : 0 < pos → key h.items (heap_parent pos) ≤ t.val

-- `m` is the position and value of `t` in the hole, or of a smaller child; no child has a smaller value.
record IsLeast (h : Heap) (pos : ℕ) (t : HeapItem) (m : ℕ × ℕ) : Type 0 where
  least : (c : ℕ) → 0 < c → c < length h.items → heap_parent c ≡ pos → m.1 ≤ key h.items c
  which :
      ((m.0 ≡ pos) × (m.1 ≡ t.val))
      ⊎ ((pos < m.0)
          × (m.0 < length h.items)
          × (heap_parent m.0 ≡ pos)
          × (key h.items m.0 ≡ m.1)
          × (m.1 < t.val))

module _ (h : Heap) (pos : ℕ) (t : HeapItem) where
  -- The two comparisons, with the values of the children at hand.
  best_left : ℕ × ℕ
  best_left =
      let a = at h.items (heap_left pos) in
      if ltb a.val t.val then (heap_left pos, a.val) else (pos, t.val)

  best_right : ℕ × ℕ
  best_right =
      let a = at h.items (heap_right pos) in
      if ltb a.val best_left.1 then (heap_right pos, a.val) else best_left

  child_cases : (c : ℕ) → 0 < c → heap_parent c ≡ pos → (c ≡ heap_left pos) ⊎ (c ≡ heap_right pos)
  child_cases c p e = elim (ℕ_discrete c (heap_left pos)) [
    | yes y ↦ inl y
    | no n ↦ inr (omega arith)
  ]

  min_child-IsLeast : Returns (IsLeast h pos t) (min_child t h pos (length h.items))
  unfolding min_child best_left best_right
  min_child-IsLeast = elim (Bool-cases (ltb (heap_left pos) (length h.items))) [
    | inr leaf ↦
        let leaf' : ltb (heap_right pos) (length h.items) ≡ false = ground arith in
        (
          (pos, t.val),
          rw (leaf, leaf'),
          record { least = λ c p l e. absurd (ground arith); which = inl (refl, refl) },
        )
    | inl left ↦ elim (Bool-cases (ltb (heap_right pos) (length h.items))) [
      | inr single ↦ (
        best_left,
        rw (left, single, load-at h (heap_left pos) (ground arith)),
        record {
          least = λ c p l e. elim (child_cases c p e) [
            | inl y ↦ rw y (ground arith)
            | inr y ↦ absurd (ground arith)
          ];
          which = ground arith;
        },
      )
      | inl right ↦ (
        best_right,
        rw (
          left,
          right,
          load-at h (heap_left pos) (ground arith),
          load-at h (heap_right pos) (ground arith),
        ),
        record {
          least = λ c p l e. elim (child_cases c p e) [
            | inl y ↦ rw y (ground arith)
            | inr y ↦ rw y (ground arith)
          ];
          which = ground arith;
        },
      )
    ]
  ]

module _ (h : Heap) (pos : ℕ) (t : HeapItem) (hole : HasHole h pos t) (v : DownInv h pos t) where
  down_stop :
      ((c : ℕ) → 0 < c → c < length h.items → heap_parent c ≡ pos → t.val ≤ key h.items c)
      → Settled h pos t (placed h pos t)
  down_stop below = placed-Settled h pos t hole λ c p l. ground (
    arith,
    length-set h.items pos t,
    at-set h.items pos c t hole.inside,
    at-set h.items pos (heap_parent c) t hole.inside,
    v.edges c,
    v.above,
    below c,
  )

  down_step :
      (q : ℕ) (l : q < length h.items) (n : q ≢ pos)
      → heap_parent q ≡ pos
      → pos < q
      → key h.items q < t.val
      → ((c : ℕ) → 0 < c → c < length h.items → heap_parent c ≡ pos → key h.items q ≤ key h.items c)
      → DownInv (shifted h pos t hole q l n) q t
  down_step q l n e lower less least =
      let size = length-set h.items pos (at h.items q) in
      let moved = λ (i : ℕ). at-set h.items pos i (at h.items q) hole.inside in
      record {
        edges = λ c p lc nc nq.
            ground (arith, size, moved c, moved (heap_parent c), v.edges c, v.over q, least c);
        over = λ c p lc ec pq. ground (arith, size, moved c, moved (heap_parent q), v.edges c);
        above = λ p. ground (arith, moved (heap_parent q));
      }

down_loop-Settled :
    (fuel : ℕ) (h : Heap) (pos len : ℕ) (t : HeapItem)
    → len ≡ length h.items
    → len - pos < fuel
    → HasHole h pos t
    → DownInv h pos t
    → Returns (Settled h pos t) (down_loop fuel t h pos len)
unfolding down_loop
down_loop-Settled zero h pos len t el f hole v = absurd (omega arith)
down_loop-Settled (suc fuel) h pos len t el f hole v =
    let (m, picks, i) = min_child-IsLeast h pos t in
    let picks' : min_child t h pos len ≡ ok m = rw el picks in
    elim i.which [
      | inl (here, value) ↦
          let same : (m.0 == pos) ≡ true = ground arith in
          (
            placed h pos t,
            rw (picks', ◌>>=◌, same, place-placed h pos t hole.inside),
            down_stop h pos t hole v (λ c p lc ec. omega (arith, i.least c p lc ec)),
          )
      | inr (lower, l, e, value, less) ↦
          let n : m.0 ≢ pos = omega arith in
          let other : (m.0 == pos) ≡ false = ground arith in
          let size = length-set h.items pos (at h.items m.0) in
          let v' =
            down_step h pos t hole v m.0 l n e lower (omega arith)
              (λ c p lc ec. omega (arith, i.least c p lc ec)) in
          let (h', run, s) =
            down_loop-Settled fuel (shifted h pos t hole m.0 l n) m.0 len t (omega (arith, size))
              (omega arith) (shifted-HasHole h pos t hole m.0 l n) v' in
          (
            h',
            rw
                (
                  picks',
                  ◌>>=◌,
                  other,
                  load-at h m.0 l,
                  place-placed h pos (at h.items m.0) hole.inside,
                )
                run,
            shifted-Settled h pos t hole m.0 l n h' s,
          )
    ]

-- `heap_down` at `pos` returns, and settles the item that stands there.
pub heap_down-Settled :
    (h : Heap) (pos len : ℕ)
    → len ≡ length h.items
    → HasHole h pos (at h.items pos)
    → DownInv h pos (at h.items pos)
    → Returns (Settled h pos (at h.items pos)) (heap_down h pos len)
unfolding heap_down
heap_down-Settled h pos len el hole v =
    rw (load-at h pos hole.inside)
      (down_loop-Settled (len + 1) h pos len (at h.items pos) el (omega arith) hole v)
