-- ===== src/Tests/Heaps.antt =====
-- heap.cpp at a concrete array.
use redis_database_basic_imp.Prelude.{ℕ, zero, suc, ◌≤◌, ◌<◌, ◌≡◌, refl, [], ◌∷◌, arith}
use redis_database_basic_imp.Prelude.Run.{ok, ◌>>=◌, Returns}
use redis_database_basic_imp.Heap
use redis_database_basic_imp.Heap.{HeapItem, Heap, heap_update}
use redis_database_basic_imp.Heap.Order.{IsHeap, IsLinked}
use redis_database_basic_imp.Heap.Update.{IsHeapBut, Updated, heap_update-Updated}

abbrev item : ℕ → ℕ → HeapItem
item val ref = record { val = val; ref = ref }

-- The last item was given an early time.
abbrev changed : Heap
changed = record { items = item 10 0 ∷ item 20 1 ∷ item 30 2 ∷ item 5 3 ∷ []; idx = λ e. e }

changed-IsLinked : IsLinked changed
changed-IsLinked zero l = refl
changed-IsLinked (suc zero) l = refl
changed-IsLinked (suc (suc zero)) l = refl
changed-IsLinked (suc (suc (suc zero))) l = refl
changed-IsLinked (suc (suc (suc (suc i)))) l = absurd (omega arith)

changed-IsHeapBut : IsHeapBut 3 changed.items
changed-IsHeapBut = record { edges = edges; over = λ c p l e q. absurd (omega arith) }
  where
    edges :
        (c : ℕ)
        → 0 < c
        → c < 4
        → ¬ (c ≡ 3)
        → ¬ (Heap.heap_parent c ≡ 3)
        → Heap.Order.key changed.items (Heap.heap_parent c) ≤ Heap.Order.key changed.items c
    edges zero p l n m = absurd (omega arith)
    edges (suc zero) p l n m = omega arith
    edges (suc (suc zero)) p l n m = omega arith
    edges (suc (suc (suc c))) p l n m = absurd (omega arith)

heap_update-Updated_example : Returns (Updated changed) (heap_update changed 3 4)
heap_update-Updated_example =
    heap_update-Updated changed 3 (omega arith) changed-IsLinked 4 refl changed-IsHeapBut

-- The early item rises to the root.
changed_root : (heap_update changed 3 4 >>= λ h. ok (Heap.Order.at h.items 0)) ≡ ok (item 5 3)
unfolding Heap.program
changed_root = refl
