-- ===== src/Db/Ttl.antt =====
-- `entry_set_ttl` of common.cpp with a time to live: the heap stays ordered and linked, and the
-- entry's item has the new deadline.
use redis_database_basic_imp.Prelude.{
  ℕ, ◌+◌, ◌*◌, ◌%◌, ◌^◌, ◌<◌, ◌≡◌, ◌≢◌, refl, sym, ap, ◌∙◌, inl, inr, ◌⊎◌, Bool, true, false,
  Bool-cases, [], ◌∷◌, ◌++◌, arith, ◌==◌, if◌then◌else◌, length, length-append,
}
use redis_database_basic_imp.Prelude.Count.{to_nat, count_in, count_in-append}
use redis_database_basic_imp.Prelude.Run.{Returns}
use redis_database_basic_imp.Heap.{HeapItem, Heap, write_ref}
use redis_database_basic_imp.Heap.Order.{at, IsHeap, IsLinked}
use redis_database_basic_imp.Db.{no_idx, is_negative, entry_set_ttl}
use redis_database_basic_imp.Db.Deadline.{
  Armed, at-append, at-last, IsHeap-but, IsHeapBut-append, set_deadline-Armed,
}

-- The heap with an item for `ent` pushed.
abbrev pushed : Heap → ℕ → Heap
pushed h ent = record {
  items = h.items ++ (record { val = 0; ref = ent } ∷ []);
  idx = write_ref h.idx ent (length h.items);
}

length-pushed : (h : Heap) (ent : ℕ) → length (pushed h ent).items ≡ length h.items + 1
length-pushed h ent = length-append h.items (record { val = 0; ref = ent } ∷ [])

pushed-IsLinked :
    (h : Heap) (ent : ℕ)
    → IsLinked h
    → length h.items < no_idx
    → h.idx ent ≡ no_idx
    → IsLinked (pushed h ent)
pushed-IsLinked h ent links few new i li =
    let item : HeapItem = record { val = 0; ref = ent } in
    elim (Bool-cases (i == length h.items)) [
      | inl last ↦
          let e : i ≡ length h.items = ground arith in
          let mine : (ent == ent) ≡ true = ground arith in rw (e, at-last h.items item, mine) refl
      | inr n ↦
          let inside : i < length h.items = ground (arith, li, length-pushed h ent) in
          let linked = links i inside in
          let not_mine : (ent == (at h.items i).ref) ≡ false = other_ref i inside linked in
          rw (at-append h.items item i inside, not_mine) linked
    ]
  where
    other_ref :
        (i : ℕ)
        → i < length h.items
        → h.idx (at h.items i).ref ≡ i
        → (ent == (at h.items i).ref) ≡ false
    other_ref i inside linked = elim (Bool-cases (ent == (at h.items i).ref)) [
      | inr f ↦ f
      | inl t ↦
          let e : ent ≡ (at h.items i).ref = ground arith in
          absurd (omega (arith, sym linked ∙ ap h.idx (sym e) ∙ new, inside, few))
    ]

pushed_count :
    (h : Heap) (ent : ℕ) (p : HeapItem → Bool)
    → p (record { val = 0; ref = ent }) ≡ false
    → count_in p (pushed h ent).items ≡ count_in p h.items
unfolding count_in
pushed_count h ent p out =
    omega (arith, count_in-append p h.items (record { val = 0; ref = ent } ∷ []), ap to_nat out)

pushed_idx : (h : Heap) (ent e : ℕ) → e ≢ ent → (pushed h ent).idx e ≡ h.idx e
pushed_idx h ent e m = let f : (ent == e) ≡ false = ground (arith, m) in rw f refl

pushed_free :
    (h : Heap) (ent e : ℕ)
    → e ≢ ent
    → ((i : ℕ) → i < length h.items → (at h.items i).ref ≢ e)
    → (i : ℕ) → i < length (pushed h ent).items
    → (at (pushed h ent).items i).ref ≢ e
pushed_free h ent e m free i l = elim (Bool-cases (i == length h.items)) [
  | inl last ↦
      let z : i ≡ length h.items = ground arith in
      rw (z, at-last h.items (record { val = 0; ref = ent })) (λ q. m (sym q))
  | inr n ↦
      let inside : i < length h.items = ground (arith, l, length-pushed h ent) in
      rw (at-append h.items (record { val = 0; ref = ent }) i inside) (free i inside)
]

-- Pushing an item of `ent` changes nothing of the others.
pushed-Armed :
    (h : Heap) (ent t n : ℕ) (h' : Heap) → Armed ent t n (pushed h ent) h' → Armed ent t n h h'
pushed-Armed h ent t n h' a =
    let item : HeapItem = record { val = 0; ref = ent } in
    record {
      heap = a.heap;
      linked = a.linked;
      size = a.size;
      deadline = a.deadline;
      others = λ p out. a.others p out ∙ pushed_count h ent p (out item refl);
      kept = λ e m free. a.kept e m (pushed_free h ent e m free) ∙ pushed_idx h ent e m;
    }

-- On a linked heap with room, a time to live that is not negative, for an entry that has no item in the heap or knows where its
-- item is, leaves a linked heap: with one more item if the entry had none, and with the deadline
-- `now + ttl_ms * 1000`, in 64 bits, in the item of the entry. The items of other entries are the same,
-- and nothing is written to those without an item.
pub entry_set_ttl-Armed :
    (now : ℕ) (h : Heap) (ent ttl_ms : ℕ)
    → IsHeap h.items
    → IsLinked h
    → length h.items < no_idx
    → is_negative ttl_ms ≡ false
    → (h.idx ent ≡ no_idx) ⊎ ((h.idx ent < length h.items) × ((at h.items (h.idx ent)).ref ≡ ent))
    → Returns
        (Armed ent
          ((now + ttl_ms * 1000 % 2 ^ 64) % 2 ^ 64)
          (if h.idx ent == no_idx then length h.items + 1 else length h.items)
          h)
        (entry_set_ttl now h ent ttl_ms)
unfolding entry_set_ttl
entry_set_ttl-Armed now h ent ttl_ms heap links few positive (inr (l, mine)) =
    let there : (h.idx ent == no_idx) ≡ false = ground arith in
    rw (positive, there)
      (set_deadline-Armed h (h.idx ent) ent _ l mine links (IsHeap-but h.items (h.idx ent) l heap))
entry_set_ttl-Armed now h ent ttl_ms heap links few positive (inl new) =
    let fresh : (h.idx ent == no_idx) ≡ true = ground arith in
    let size = length-pushed h ent in
    let item : HeapItem = record { val = 0; ref = ent } in
    let (h', run, a) =
      set_deadline-Armed (pushed h ent) (length h.items) ent _ (omega (arith, size))
        (ap (λ (x : HeapItem). x.ref) (at-last h.items item)) (pushed-IsLinked h ent links few new)
        (IsHeapBut-append h.items item heap) in
    rw (positive, fresh, sym size) (h', run, pushed-Armed h ent _ _ h' a)
