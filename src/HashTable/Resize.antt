-- ===== src/HashTable/Resize.antt =====
-- `hm_help_resizing`: the loop ends without a fault and moves up to `k_resizing_work` nodes.
use native.Mathlib.Decide.{dec_lt}
use redis_database_basic_imp.Prelude.{
  ℕ, zero, suc, ◌+◌, ◌-◌, ◌≤◌, ◌<◌, ◌≡◌, inl, inr, refl, ap, ◌∙◌, ap, List, [], ◌∷◌, arith,
  Bool-cases, ltb, ◌==◌, ◌&&◌, not, length, get_or, get_elem?-get_or, List-cases,
}
use redis_database_basic_imp.Prelude.Run.{◌>>=◌, Returns}
use redis_database_basic_imp.HashTable.{
  HTab, HMap, h_detach, move_first, help_loop, drop_empty, hm_help_resizing, size_dec,
  k_resizing_work, is_null,
}
use redis_database_basic_imp.HashTable.Count.{count, count-moved, count-le, anything}
use redis_database_basic_imp.HashTable.Valid.{IsTable, IsTable-same, IsValid, SameNodes}
use redis_database_basic_imp.HashTable.Place.{Added, hinsert-Added, Removed, unlink-Removed}

module _ {ℓ} {A : Type ℓ} (hcode : A → ℕ) where
  -- What moving `x` leaves: `t2` has lost it, its counter counted down, and `t1` has gained it.
  moved_map : HMap A → HTab A → HTab A → HMap A
  moved_map m t1 t2 = record {
    ht1 = t1;
    ht2 = record t2 { size = size_dec t2.size };
    resizing_pos = m.resizing_pos;
  }

  -- `m'` is `m` after one node moved.
  record Moved (m m' : HMap A) : Type ℓ where
    valid : IsValid hcode m'
    table : IsTable m'.ht1
    same : SameNodes m m'
    size : m'.ht2.size + 1 ≡ m.ht2.size
    width : length m'.ht2.tab ≡ length m.ht2.tab
    pos : m'.resizing_pos ≡ m.resizing_pos

  module _ (m : HMap A) (x : A) (v : IsValid hcode m) (s : IsTable m.ht1)
      (filled : 0 < m.ht2.size) where
    table_of_filled : IsTable m.ht2
    unfolding count
    table_of_filled = elim v.shape [
      | inr t ↦ t
      | inl n ↦ absurd (omega (arith, v.older.counted, ap (count anything) n))
    ]

    moved_map-Moved :
        (t1 t2 : HTab A)
        → Added hcode m.ht1 x t1
        → Removed hcode m.ht2 m.resizing_pos x t2
        → Moved m (moved_map m t1 t2)
    unfolding moved_map
    moved_map-Moved t1 t2 a r = record {
      valid = record {
        newer = a.valid;
        older = record {
          counted = omega (arith, r.loses anything, v.older.counted);
          placed = r.placed;
        };
        begun = inr (IsTable-same m.ht1 t1 s a.mask a.width);
        shape = inr (IsTable-same m.ht2 (moved_map m t1 t2).ht2 table_of_filled r.mask r.width);
        moved = λ i h. r.others i (omega arith) ∙ v.moved i h;
        room = omega arith;
      };
      table = IsTable-same m.ht1 t1 s a.mask a.width;
      same = λ p. omega (arith, a.gains p, r.loses p);
      size = omega arith;
      width = r.width;
      pos = refl;
    }

    move_first-Moved :
        (rest : List A)
        → m.resizing_pos < length m.ht2.tab
        → get_or m.ht2.tab m.resizing_pos [] ≡ x ∷ rest
        → Returns (Moved m) (move_first hcode m)
    unfolding move_first h_detach moved_map
    move_first-Moved rest l e =
        let (t2, cut, r) = unlink-Removed hcode m.ht2 m.resizing_pos 0 x v.older.placed l (rw e) in
        let (t1, put, a) = hinsert-Added hcode m.ht1 x v.newer s (omega arith) in
        (moved_map m t1 t2, rw (cut, put), moved_map-Moved t1 t2 a r)

  -- `m'` is `m` after the loop, which had moved `nwork` nodes before.
  pub record Helped (nwork : ℕ) (m m' : HMap A) : Type ℓ where
    pub valid : IsValid hcode m'
    pub same : SameNodes m m'
    pub size : m'.ht2.size ≡ m.ht2.size - (k_resizing_work - nwork)
    pub table : IsTable m.ht1 → IsTable m'.ht1
    pub width : length m'.ht2.tab ≡ length m.ht2.tab

  skip-Helped :
      (nwork : ℕ) (m m' : HMap A)
      → Helped nwork (record m { resizing_pos = m.resizing_pos + 1 }) m'
      → Helped nwork m m'
  skip-Helped nwork m m' h = record {
    valid = h.valid;
    same = h.same;
    size = h.size;
    table = h.table;
    width = h.width;
  }

  move-Helped :
      (nwork : ℕ) (m m' m'' : HMap A)
      → Moved m m'
      → nwork < k_resizing_work
      → Helped (nwork + 1) m' m''
      → Helped nwork m m''
  move-Helped nwork m m' m'' v l h = record {
    valid = h.valid;
    same = λ p. h.same p ∙ v.same p;
    size = omega (arith, h.size, v.size);
    table = λ _. h.table v.table;
    width = h.width ∙ v.width;
  }

  -- Nodes are left, so the position is a bucket.
  pos-lt : (m : HMap A) → IsValid hcode m → 0 < m.ht2.size → m.resizing_pos < length m.ht2.tab
  pos-lt m v filled = elim (dec_lt m.resizing_pos (length m.ht2.tab)) [
    | yes l ↦ l
    | no n ↦ absurd (
        omega (
          arith,
          v.older.counted,
          count-moved anything m.ht2.tab m.resizing_pos v.moved (omega arith),
        ))
  ]

  skip-IsValid :
      (m : HMap A)
      → IsValid hcode m
      → get_or m.ht2.tab m.resizing_pos [] ≡ []
      → IsValid hcode (record m { resizing_pos = m.resizing_pos + 1 })
  skip-IsValid m v e = record {
    newer = v.newer;
    older = v.older;
    begun = v.begun;
    shape = v.shape;
    moved = λ i h. elim (dec_lt i m.resizing_pos) [
      | yes l ↦ v.moved i l
      | no n ↦ let here : i ≡ m.resizing_pos = omega arith in rw here e
    ];
    room = v.room;
  }

  -- With nodes left in the older table, the newer one is there.
  newer_table : (m : HMap A) → IsValid hcode m → 0 < m.ht2.size → IsTable m.ht1
  unfolding count
  newer_table m v filled = elim v.begun [
    | inl n ↦ absurd (omega (arith, v.older.counted, ap (count anything) n.1))
    | inr s ↦ s
  ]

  pub help_loop-Helped :
      (fuel nwork : ℕ) (m : HMap A)
      → IsValid hcode m
      → nwork ≤ k_resizing_work
      → (length m.ht2.tab - m.resizing_pos) + (k_resizing_work - nwork) < fuel
      → Returns (Helped nwork m) (help_loop hcode fuel nwork m)
  unfolding help_loop
  help_loop-Helped zero nwork m v w f = absurd (omega arith)
  help_loop-Helped (suc fuel) nwork m v w f =
      elim (Bool-cases (ltb nwork k_resizing_work && ltb 0 m.ht2.size)) [
        | inl more ↦
            let l = pos-lt m v (ground arith) in
            rw (more, get_elem?-get_or m.ht2.tab m.resizing_pos [] l)
              (elim (List-cases (get_or m.ht2.tab m.resizing_pos [])) [
                | inl e ↦
                    let (m', run, h) =
                      help_loop-Helped fuel nwork _ (skip-IsValid m v e) w (omega arith) in
                    (m', rw (◌>>=◌, e) run, skip-Helped nwork m m' h)
                | inr (x, rest, e) ↦
                    let filled : 0 < m.ht2.size = ground arith in
                    let below : nwork < k_resizing_work = ground arith in
                    let (m', moves, t) =
                      move_first-Moved m x v (newer_table m v filled) filled rest l e in
                    let (m'', run, h) =
                      help_loop-Helped fuel (nwork + 1) m' t.valid (omega arith) (omega arith) in
                    (m'', rw (◌>>=◌, e, moves) run, move-Helped nwork m m' m'' t below h)
              ])
        | inr done ↦ rw done (
          m,
          refl,
          record { valid = v; same = λ p. refl; size = ground arith; table = λ t. t; width = refl },
        )
      ]

  -- `m'` is `m` after a call of `hm_help_resizing`.
  pub record Advanced (m m' : HMap A) : Type ℓ where
    pub valid : IsValid hcode m'
    pub same : SameNodes m m'
    pub size : m'.ht2.size ≡ m.ht2.size - k_resizing_work
    pub table : IsTable m.ht1 → IsTable m'.ht1

  drop_empty-Advanced : (m m' : HMap A) → Helped 0 m m' → Advanced m (drop_empty m')
  unfolding count
  drop_empty-Advanced m m' h = elim (Bool-cases ((m'.ht2.size == 0) && not (is_null m'.ht2.tab))) [
    | inr keep ↦ rw keep (record { valid = h.valid; same = h.same; size = h.size; table = h.table })
    | inl gone ↦
        let empty : m'.ht2.size ≡ 0 = ground arith in
        rw gone (record {
          valid = record {
            newer = h.valid.newer;
            older = record { counted = refl; placed = λ i. tt };
            begun = elim h.valid.begun [ inl n ↦ inl (n.0, refl) | inr s ↦ inr s ];
            shape = inl refl;
            moved = λ i l. refl;
            room = omega (arith, h.valid.room);
          };
          same = λ p. omega (arith, h.same p, h.valid.older.counted, count-le p m'.ht2.tab);
          size = omega (arith, h.size);
          table = h.table;
        })
  ]

  -- `hm_help_resizing` on a valid map ends without a fault, keeps the map valid and every node in it,
  -- and moves as many nodes as are left in the older table, up to `k_resizing_work`.
  pub hm_help_resizing-Advanced :
      (m : HMap A) → IsValid hcode m → Returns (Advanced m) (hm_help_resizing hcode m)
  unfolding hm_help_resizing
  hm_help_resizing-Advanced m v =
      let (m', run, h) =
        help_loop-Helped (length m.ht2.tab + k_resizing_work + 1) 0 m v (omega arith)
          (omega arith) in
      (drop_empty m', rw run, drop_empty-Advanced m m' h)
