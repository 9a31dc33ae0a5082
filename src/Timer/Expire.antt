-- ===== src/Timer/Expire.antt =====
-- The loop of `process_timers` over the heap: which entries it deletes.
use redis_database_basic_imp.Prelude.{
  ℕ, zero, suc, ◌+◌, ◌≤◌, ◌<◌, ◌≡◌, ◌==◌, ◌≢◌, ◌⊎◌, refl, sym, ap, ◌∙◌, inl, inr, Bool, true, false,
  Bool-cases, none, some, List, [], ◌∷◌, arith, ltb, leb, length, get_elem?,
}
use redis_database_basic_imp.Prelude.Count.{to_nat, count_in, anything}
use redis_database_basic_imp.Prelude.Run.{Returns}
use redis_database_basic_imp.HashTable.Valid.{nodes}
use redis_database_basic_imp.Heap.{HeapItem}
use redis_database_basic_imp.Heap.Order.{at, key}
use redis_database_basic_imp.Heap.Update.{root_least}
use redis_database_basic_imp.Db.{Entry, GlobalData}
use redis_database_basic_imp.Timer.Process.{k_max_works, expire_loop}
use redis_database_basic_imp.Timer.Drop.{Dropped, item_from, item_stays, expire_top-Dropped}
use redis_database_basic_imp.Timer.Entries.{IsIn, IsTimed, has_id}

-- `g'` is what the loop leaves of `g`, when it is entered after `nworks` rounds: no item is due any
-- more, or the rounds are used up; the items that were not due are all there, as many entries are gone
-- as items, and none but entries of items that were due; the entry of an item that is gone is too.
pub record Expired (now nworks : ℕ) (g g' : GlobalData) : Type 0 where
  pub timed : IsTimed g'.db g'.heap
  pub done :
      ((i : ℕ) → i < length g'.heap.items → now ≤ key g'.heap.items i)
      ⊎ (length g.heap.items + nworks ≡ length g'.heap.items + (k_max_works + 1))
  pub items :
      (p : HeapItem → Bool)
      → ((x : HeapItem) → x.val < now → p x ≡ false)
      → count_in p g'.heap.items ≡ count_in p g.heap.items
  pub entries :
      nodes anything g'.db + length g.heap.items ≡ nodes anything g.db + length g'.heap.items
  pub kept :
      (p : Entry → Bool)
      → ((e : Entry)
          → IsIn g.db e
          → p e ≡ true
          → (i : ℕ) → i < length g.heap.items
          → key g.heap.items i < now
          → (at g.heap.items i).ref ≢ e.id)
      → nodes p g'.db ≡ nodes p g.db
  pub less : (p : Entry → Bool) → nodes p g'.db ≤ nodes p g.db
  pub gone :
      (i : ℕ)
      → i < length g.heap.items
      → ((j : ℕ) → j < length g'.heap.items → (at g'.heap.items j).ref ≢ (at g.heap.items i).ref)
      → nodes (has_id (at g.heap.items i).ref) g'.db ≡ 0

-- The first item, if there is one.
pub first_item :
    (a : List HeapItem)
    → ((length a ≡ 0) × (get_elem? a 0 ≡ none)) ⊎ ((0 < length a) × (get_elem? a 0 ≡ some (at a 0)))
first_item [] = inl (refl, refl)
first_item (x ∷ a) = inr (omega arith, refl)

module _ (now : ℕ) where
  -- Nothing is taken out.
  stopped :
      (nworks : ℕ) (g : GlobalData)
      → IsTimed g.db g.heap
      → (0 < length g.heap.items → now ≤ key g.heap.items 0)
      → Expired now nworks g g
  stopped nworks g v late = record {
    timed = v;
    done = inl λ i l. omega (arith, late (omega (arith, l)), root_least g.heap.items i v.order l);
    items = λ p out. refl;
    entries = refl;
    kept = λ p out. refl;
    less = λ p. omega arith;
    gone = λ i l out. absurd (out i l refl);
  }

  module _ (nworks : ℕ) (g g1 : GlobalData) (d : Dropped g g1)
      (due : key g.heap.items 0 < now) where
    dropped_items :
        (p : HeapItem → Bool)
        → ((x : HeapItem) → x.val < now → p x ≡ false)
        → count_in p g1.heap.items ≡ count_in p g.heap.items
    dropped_items p out = omega (arith, d.items p, ap to_nat (out (at g.heap.items 0) due))

    abbrev SparesDue : GlobalData → (Entry → Bool) → Type 0
    SparesDue h p =
        (e : Entry)
        → IsIn h.db e
        → p e ≡ true
        → (i : ℕ) → i < length h.heap.items
        → key h.heap.items i < now
        → (at h.heap.items i).ref ≢ e.id

    dropped_kept :
        (p : Entry → Bool) → 0 < length g.heap.items → SparesDue g p → nodes p g1.db ≡ nodes p g.db
    dropped_kept p l out = elim (Bool-cases (p d.entry)) [
      | inl t ↦ absurd (out d.entry d.was t 0 l due (sym d.same))
      | inr f ↦ omega (arith, d.loses p, ap to_nat f)
    ]

    dropped_spares : (p : Entry → Bool) → SparesDue g p → SparesDue g1 p
    dropped_spares p out e there t i l soon =
        let less : (q : HeapItem → Bool) → count_in q g1.heap.items ≤ count_in q g.heap.items =
          λ q. omega (arith, d.items q) in
        let (j, lj, z) = item_from g1.heap.items g.heap.items less i l in
        let was : IsIn g.db e = λ q y. there q (omega (arith, d.loses q, y)) in
        let early : key g.heap.items j < now = rw (ap (λ (x : HeapItem). x.val) z) soon in
        λ r. out e was t j lj early (ap (λ (x : HeapItem). x.ref) z ∙ r)

    -- An item of another entry than the first is still there.
    dropped_stays :
        (i : ℕ)
        → i < length g.heap.items
        → (at g.heap.items i).ref ≢ (at g.heap.items 0).ref
        → (j : ℕ) × (j < length g1.heap.items) × (at g1.heap.items j ≡ at g.heap.items i)
    dropped_stays = item_stays g.heap.items g1.heap.items (at g.heap.items 0) d.items

    dropped_gone :
        (i : ℕ)
        → i < length g.heap.items
        → ((j : ℕ) → j < length g1.heap.items → (at g1.heap.items j).ref ≢ (at g.heap.items i).ref)
        → nodes (has_id (at g.heap.items i).ref) g1.db ≡ 0
    dropped_gone i li out = elim (Bool-cases ((at g.heap.items i).ref == (at g.heap.items 0).ref)) [
      | inl e ↦
          let z : (at g.heap.items i).ref ≡ (at g.heap.items 0).ref = ground arith in rw z d.gone
      | inr f ↦
          let (j, lj, z) = dropped_stays i li (λ e. absurd (ground (arith, f, e))) in
          absurd (out j lj (ap (λ (x : HeapItem). x.ref) z))
    ]

    Dropped-Expired :
        (g' : GlobalData)
        → 0 < length g.heap.items
        → Expired now (nworks + 1) g1 g'
        → Expired now nworks g g'
    Dropped-Expired g' l x = record {
      timed = x.timed;
      done = elim x.done [ inl late ↦ inl late | inr used ↦ inr (omega (arith, used, d.size)) ];
      items = λ p out. x.items p out ∙ dropped_items p out;
      entries = omega (arith, x.entries, d.loses anything, d.size);
      kept = λ p out. x.kept p (dropped_spares p out) ∙ dropped_kept p l out;
      less = λ p. omega (arith, x.less p, d.loses p);
      gone = λ i li out. elim (Bool-cases ((at g.heap.items i).ref == (at g.heap.items 0).ref)) [
        | inl e ↦
            let z : (at g.heap.items i).ref ≡ (at g.heap.items 0).ref = ground arith in
            rw z (omega (arith, x.less (has_id (at g.heap.items 0).ref), d.gone))
        | inr f ↦
            let (j, lj, z) = dropped_stays i li (λ e. absurd (ground (arith, f, e))) in
            let same : (at g1.heap.items j).ref ≡ (at g.heap.items i).ref =
              ap (λ (y : HeapItem). y.ref) z in
            rw (sym same) (x.gone j lj λ k lk e. out k lk (e ∙ same))
      ];
    }

    -- The last round that is allowed.
    Dropped-used : 0 < length g.heap.items → nworks ≡ k_max_works → Expired now nworks g g1
    Dropped-used l used = record {
      timed = d.timed;
      done = inr (omega (arith, used, d.size));
      items = dropped_items;
      entries = omega (arith, d.loses anything, d.size);
      kept = λ p out. dropped_kept p l out;
      less = λ p. omega (arith, d.loses p);
      gone = dropped_gone;
    }

  -- Where no key and no address is in the map twice, no long resize is under way, each item of the
  -- ordered and linked heap is of an entry in the map, and each entry knows where its item is, the loop
  -- over the heap ends without a fault within the rounds that are left of `k_max_works + 1`, as `Expired`
  -- says.
  pub expire_loop-Expired :
      (fuel nworks : ℕ) (g : GlobalData)
      → IsTimed g.db g.heap
      → nworks ≤ k_max_works
      → k_max_works < fuel + nworks
      → Returns (Expired now nworks g) (expire_loop now fuel nworks g)
  unfolding expire_loop
  expire_loop-Expired zero nworks g v few enough = absurd (omega (arith, few, enough))
  expire_loop-Expired (suc fuel) nworks g v few enough = elim (first_item g.heap.items) [
    | inl (empty, top) ↦
        (g, rw (expire_loop, top) refl, stopped nworks g v λ l. absurd (omega (arith, l, empty)))
    | inr (l, top) ↦ elim (Bool-cases (ltb (key g.heap.items 0) now)) [
      | inr late ↦
          (g, rw (expire_loop, top, late) refl, stopped nworks g v λ _. ground (arith, late))
      | inl soon ↦
          let due : key g.heap.items 0 < now = ground (arith, soon) in
          let (g1, run, d) = expire_top-Dropped g v l in
          elim (Bool-cases (leb k_max_works nworks)) [
            | inl used ↦ (
              g1,
              rw (expire_loop, top, soon, run, used) refl,
              Dropped-used nworks g g1 d due l (ground (arith, used, few)),
            )
            | inr more ↦
                let (g', ran, x) =
                  expire_loop-Expired fuel (nworks + 1) g1 d.timed (ground (arith, more))
                    (omega (arith, enough)) in
                (
                  g',
                  rw (expire_loop, top, soon, run, more) ran,
                  Dropped-Expired nworks g g1 d due g' l x,
                )
          ]
    ]
  ]
