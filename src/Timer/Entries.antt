-- ===== src/Timer/Entries.antt =====
-- The loop of `process_timers` over the heap: the map and the heap that it works on, and the entry at
-- an address.
use redis_database_basic_imp.Prelude.{
  ℕ, ◌≤◌, ◌<◌, ◌≡◌, ◌≢◌, ◌⊎◌, refl, ap, ◌∙◌, inl, inr, Bool, true, false, Bool-cases, none, some,
  List, [], ◌∷◌, ◌++◌, arith, ◌==◌, length,
}
use redis_database_basic_imp.Prelude.Count.{to_nat, count_in, count_in-append}
use redis_database_basic_imp.HashTable.{HMap, k_resizing_work}
use redis_database_basic_imp.HashTable.Count.{count}
use redis_database_basic_imp.HashTable.Valid.{IsValid, nodes}
use redis_database_basic_imp.HashTable.Lookup.{wanted}
use redis_database_basic_imp.Heap.{Heap}
use redis_database_basic_imp.Heap.Order.{at, IsHeap, IsLinked}
use redis_database_basic_imp.Db.{Entry, GlobalData, entry_eq, hcode_of, no_idx}
use redis_database_basic_imp.Timer.Process.{entry_in, all_in, entry_at}

-- The map holds the entry: no test that all of its entries fail passes it.
abbrev pub IsIn : HMap Entry → Entry → Type 0
IsIn db e = (p : Entry → Bool) → nodes p db ≡ 0 → p e ≡ false

abbrev pub has_id : ℕ → Entry → Bool
has_id id e = e.id == id

-- The heap has no item of the entry at `id`, and its position says so, or it is the item's.
abbrev pub IsMarked : Heap → ℕ → Type 0
IsMarked heap id =
    ((heap.idx id ≡ no_idx) × ((i : ℕ) → i < length heap.items → (at heap.items i).ref ≢ id))
    ⊎ ((heap.idx id < length heap.items) × ((at heap.items (heap.idx id)).ref ≡ id))

-- The map is valid, with no long resize under way, no key twice, and no two entries at
-- an address. The heap is ordered and linked, its items are of entries in the map, and each entry knows
-- where its item is.
pub record IsTimed (db : HMap Entry) (heap : Heap) : Type 0 where
  pub valid : IsValid hcode_of db
  pub few : db.ht2.size ≤ k_resizing_work
  pub unique :
      (e x : Entry) → IsIn db e → IsIn db x → wanted hcode_of entry_eq e x ≡ true → x.id ≡ e.id
  pub order : IsHeap heap.items
  pub links : IsLinked heap
  pub ids : (e : Entry) → IsIn db e → nodes (has_id e.id) db ≤ 1
  pub marked : (e : Entry) → IsIn db e → IsMarked heap e.id
  pub held : (i : ℕ) → i < length heap.items → 0 < nodes (has_id (at heap.items i).ref) db

count-all_in : (p : Entry → Bool) (cs : List (List Entry)) → count p cs ≡ count_in p (all_in cs)
unfolding count count_in
count-all_in p [] = refl
count-all_in p (c ∷ cs) = omega (arith, count-all_in p cs, count_in-append p c (all_in cs))

entry_in-found :
    (id : ℕ) (es : List Entry)
    → 0 < count_in (has_id id) es
    → (e : Entry) × (entry_in id es ≡ some e)
      × (e.id ≡ id)
      × ((p : Entry → Bool) → count_in p es ≡ 0 → p e ≡ false)
unfolding count_in
entry_in-found id [] h = absurd (omega (arith, h))
entry_in-found id (e ∷ es) h = elim (Bool-cases (e.id == id)) [
  | inl t ↦ (e, rw t refl, ground arith, λ p z. ground (arith, z))
  | inr f ↦
      let (x, run, same, among) = entry_in-found id es (omega (arith, h, ap to_nat f)) in
      (x, rw f run, same, λ p z. among p (omega (arith, z)))
]

some_in_list :
    (p : Entry → Bool) (es : List Entry)
    → 0 < count_in p es
    → (e : Entry) × (p e ≡ true) × ((q : Entry → Bool) → count_in q es ≡ 0 → q e ≡ false)
unfolding count_in
some_in_list p [] h = absurd (omega (arith, h))
some_in_list p (e ∷ es) h = elim (Bool-cases (p e)) [
  | inl t ↦ (e, t, λ q z. ground (arith, z))
  | inr f ↦
      let (x, t, among) = some_in_list p es (omega (arith, h, ap to_nat f)) in
      (x, t, λ q z. among q (omega (arith, z)))
]

count-both :
    (db : HMap Entry) (p : Entry → Bool)
    → count_in p (all_in db.ht1.tab ++ all_in db.ht2.tab) ≡ nodes p db
count-both db p = omega (
  arith,
  count_in-append p (all_in db.ht1.tab) (all_in db.ht2.tab),
  count-all_in p db.ht1.tab,
  count-all_in p db.ht2.tab,
)

-- An entry of the map that passes a test.
pub some-IsIn :
    (db : HMap Entry) (p : Entry → Bool) → 0 < nodes p db → (e : Entry) × (p e ≡ true) × IsIn db e
some-IsIn db p h =
    let (e, t, among) =
      some_in_list p (all_in db.ht1.tab ++ all_in db.ht2.tab) (omega (arith, h, count-both db p)) in
    (e, t, λ q z. among q (count-both db q ∙ z))

-- The entry at the address of an item.
pub entry_at-found :
    (g : GlobalData) (id : ℕ)
    → 0 < nodes (has_id id) g.db
    → (e : Entry) × (entry_at g id ≡ some e) × (e.id ≡ id) × IsIn g.db e
entry_at-found g id h =
    let es = all_in g.db.ht1.tab ++ all_in g.db.ht2.tab in
    let (e, run, same, among) =
      entry_in-found id es (omega (arith, h, count-both g.db (has_id id))) in
    (e, run, same, λ p z. among p (count-both g.db p ∙ z))

entry_in-gone : (id : ℕ) (es : List Entry) → count_in (has_id id) es ≡ 0 → entry_in id es ≡ none
unfolding count_in
entry_in-gone id [] z = refl
entry_in-gone id (e ∷ es) z =
    let f : (e.id == id) ≡ false = ground (arith, z) in
    rw f (entry_in-gone id es (omega (arith, z)))

-- Nothing is at the address of an entry that is not in the map any more.
pub entry_at-gone : (g : GlobalData) (id : ℕ) → nodes (has_id id) g.db ≡ 0 → entry_at g id ≡ none
entry_at-gone g id z =
    entry_in-gone id (all_in g.db.ht1.tab ++ all_in g.db.ht2.tab) (count-both g.db (has_id id) ∙ z)
