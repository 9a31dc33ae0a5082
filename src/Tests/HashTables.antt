-- ===== src/Tests/HashTables.antt =====
-- hashtable.cpp at concrete maps: a node is a number, which is its own hash code.
use redis_database_basic_imp.Prelude.{
  ℕ, zero, suc, ◌<◌, ◌≡◌, refl, Bool, List, [], ◌∷◌, inl, inr, arith, ◌==◌, replicate, get_or, All,
}
use Prim.Native.Nat.{bit_and}
use redis_database_basic_imp.Prelude.Bits.{IsPowTwo, IsPowTwo-one, IsPowTwo-double}
use redis_database_basic_imp.Prelude.Run.{Returns}
use redis_database_basic_imp.HashTable
use redis_database_basic_imp.HashTable.{
  HTab, HMap, empty_map, hm_insert, hm_lookup, hm_delete, hm_help_resizing,
}
use redis_database_basic_imp.HashTable.Count.{count}
use redis_database_basic_imp.HashTable.Valid.{IsValid, IsPlaced}
use redis_database_basic_imp.HashTable.Resize.{Advanced, hm_help_resizing-Advanced}
use redis_database_basic_imp.HashTable.Insert.{fresh-IsCounted, Inserted, hm_insert-Inserted}
use redis_database_basic_imp.HashTable.Lookup.{LookedUp, hm_lookup-LookedUp}
use redis_database_basic_imp.HashTable.Delete.{Deleted, hm_delete-Deleted}
use redis_database_basic_imp.HashTable.Older.{Stuck, hm_delete-older_fault}

abbrev code : ℕ → ℕ
code n = n

abbrev same : ℕ → ℕ → Bool
same a b = a == b

abbrev no_nodes : HMap ℕ
no_nodes = empty_map

no_nodes-IsValid : IsValid code no_nodes
unfolding count
no_nodes-IsValid = record {
  newer = record { counted = refl; placed = λ i. tt };
  older = record { counted = refl; placed = λ i. tt };
  begun = inl (refl, refl);
  shape = inl refl;
  moved = λ i h. refl;
  room = omega arith;
}

hm_insert-Inserted_example : Returns (Inserted code no_nodes 5) (hm_insert code no_nodes 5)
hm_insert-Inserted_example = hm_insert-Inserted code no_nodes 5 no_nodes-IsValid (omega arith)

-- The first three buckets of an older table that a resize empties, and one node behind them.
abbrev crowd : List ℕ
crowd = replicate 128 0

abbrev half_moved : HMap ℕ
half_moved = record {
  ht1 = record { tab = replicate 8 []; size = 0; mask = 7 };
  ht2 = record { tab = crowd ∷ [] ∷ [] ∷ (3 ∷ []) ∷ []; size = 129; mask = 3 };
  resizing_pos = 0;
}

-- What `hm_help_resizing` leaves of it.
abbrev one_left : HMap ℕ
one_left = record {
  ht1 = record { tab = crowd ∷ replicate 7 []; size = 128; mask = 7 };
  ht2 = record { tab = [] ∷ [] ∷ [] ∷ (3 ∷ []) ∷ []; size = 1; mask = 3 };
  resizing_pos = 0;
}

IsPowTwo-eight : IsPowTwo 8
IsPowTwo-eight = IsPowTwo-double 4 (IsPowTwo-double 2 (IsPowTwo-double 1 IsPowTwo-one))

IsPowTwo-four : IsPowTwo 4
IsPowTwo-four = IsPowTwo-double 2 (IsPowTwo-double 1 IsPowTwo-one)

All-replicate {ℓ κ} : {A : Type ℓ} (P : A → Type κ) (n : ℕ) (a : A) → P a → All P (replicate n a)
All-replicate P zero a h = tt
All-replicate P (suc n) a h = (h, All-replicate P n a h)

older-IsPlaced : IsPlaced code half_moved.ht2
older-IsPlaced zero = All-replicate (λ (n : ℕ). bit_and (code n) 3 ≡ 0) 128 0 refl
older-IsPlaced (suc zero) = tt
older-IsPlaced (suc (suc zero)) = tt
older-IsPlaced (suc (suc (suc zero))) = (refl, tt)
older-IsPlaced (suc (suc (suc (suc i)))) = tt

half_moved-IsValid : IsValid code half_moved
unfolding count
half_moved-IsValid = record {
  newer = fresh-IsCounted code 8;
  older = record { counted = refl; placed = older-IsPlaced };
  begun = inr (refl, IsPowTwo-eight);
  shape = inr (refl, IsPowTwo-four);
  moved = λ i h. absurd (omega arith);
  room = omega arith;
}

hm_help_resizing-Advanced_example :
    Returns (Advanced code half_moved) (hm_help_resizing code half_moved)
hm_help_resizing-Advanced_example = hm_help_resizing-Advanced code half_moved half_moved-IsValid

hm_lookup-LookedUp_example :
    Returns (LookedUp code same 3 half_moved) (hm_lookup code half_moved 3 same)
hm_lookup-LookedUp_example = hm_lookup-LookedUp code same 3 half_moved half_moved-IsValid

hm_delete-older_fault_example : Returns (Stuck code same 3) (hm_delete code half_moved 3 same)
unfolding HashTable.program count
hm_delete-older_fault_example =
    hm_delete-older_fault code same 3 half_moved one_left half_moved-IsValid refl refl (omega arith)
      (omega arith)

-- A map in the midst of a resize that the next call ends.
abbrev nearly_done : HMap ℕ
nearly_done = record {
  ht1 = record { tab = replicate 8 []; size = 0; mask = 7 };
  ht2 = record { tab = [] ∷ (5 ∷ []) ∷ [] ∷ (3 ∷ []) ∷ []; size = 2; mask = 3 };
  resizing_pos = 1;
}

nearly_done-IsValid : IsValid code nearly_done
unfolding count
nearly_done-IsValid = record {
  newer = fresh-IsCounted code 8;
  older = record { counted = refl; placed = placed };
  begun = inr (refl, IsPowTwo-eight);
  shape = inr (refl, IsPowTwo-four);
  moved = moved;
  room = omega arith;
}
  where
    placed : IsPlaced code nearly_done.ht2
    placed zero = tt
    placed (suc zero) = (refl, tt)
    placed (suc (suc zero)) = tt
    placed (suc (suc (suc zero))) = (refl, tt)
    placed (suc (suc (suc (suc i)))) = tt

    moved : (i : ℕ) → i < 1 → get_or nearly_done.ht2.tab i [] ≡ []
    moved zero h = refl
    moved (suc i) h = absurd (omega arith)

hm_delete-Deleted_example :
    Returns (Deleted code same 3 nearly_done) (hm_delete code nearly_done 3 same)
hm_delete-Deleted_example =
    hm_delete-Deleted code same 3 nearly_done nearly_done-IsValid (omega arith)
