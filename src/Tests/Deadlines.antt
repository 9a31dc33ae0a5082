-- ===== src/Tests/Deadlines.antt =====
-- `entry_set_ttl` on a heap of one item.
use redis_database_basic_imp.Prelude.{
  zero, suc, ◌-◌, ◌^◌, refl, inl, inr, [], ◌∷◌, arith, ◌==◌, if◌then◌else◌,
}
use redis_database_basic_imp.Prelude.Run.{Returns}
use redis_database_basic_imp.Heap.{Heap}
use redis_database_basic_imp.Heap.Order.{IsLinked, IsHeap}
use redis_database_basic_imp.Db.{entry_set_ttl, no_idx}
use redis_database_basic_imp.Db.Deadline.{Armed}
use redis_database_basic_imp.Db.Ttl.{entry_set_ttl-Armed}
use redis_database_basic_imp.Db.Persist.{Persisted, entry_set_ttl-Persisted}

abbrev one_item : Heap
one_item = record {
  items = record { val = 9000; ref = 0 } ∷ [];
  idx = λ e. if e == 0 then 0 else no_idx;
}

one_item-IsLinked : IsLinked one_item
one_item-IsLinked zero l = refl
one_item-IsLinked (suc i) l = absurd (omega arith)

one_item-IsHeap : IsHeap one_item.items
one_item-IsHeap c p l = absurd (omega arith)

-- Two milliseconds from 1000 on the entry 1 expires before the other.
entry_set_ttl-Armed_example : Returns (Armed 1 3000 2 one_item) (entry_set_ttl 1000 one_item 1 2)
entry_set_ttl-Armed_example =
    entry_set_ttl-Armed 1000 one_item 1 2 one_item-IsHeap one_item-IsLinked (omega arith) refl
      (inl refl)

-- The time to live of the entry 0 is taken off.
entry_set_ttl-Persisted_example :
    Returns (Persisted 0 one_item) (entry_set_ttl 1000 one_item 0 (2 ^ 64 - 1))
entry_set_ttl-Persisted_example =
    entry_set_ttl-Persisted 1000 one_item 0 (2 ^ 64 - 1) one_item-IsHeap one_item-IsLinked
      (omega arith) refl (inr (omega arith, refl))
