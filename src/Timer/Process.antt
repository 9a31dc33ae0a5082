-- ===== src/Timer/Process.antt =====
-- timer.cpp, `process_timers`: the connections that were idle too long are closed, and the keys whose
-- time has come are deleted.
--
-- A connection is the number of its node in the idle list, and `fd2conn` holds these numbers, 0 for null.
use redis_database_basic_imp.Prelude.{
  ℕ, zero, suc, ◌+◌, Bool, false, Option, none, some, List, [], ◌∷◌, ◌++◌, ltb, leb, ◌==◌,
  if◌then◌else◌, length, get_elem?, set,
}
use redis_database_basic_imp.Prelude.Run.{Run, ok, out_of_fuel, check, or_fault, ◌>>=◌, ◌>>◌}
use redis_database_basic_imp.DList.{Links, d_list_empty, dlist_detach}
use redis_database_basic_imp.Connection.{Conn}
use redis_database_basic_imp.HashTable.{hm_delete}
use redis_database_basic_imp.Heap.{write_ref}
use redis_database_basic_imp.Db.{
  Entry, GlobalData, entry_eq, hcode_of, no_idx, heap_remove, entry_del,
}
use redis_database_basic_imp.Timer.{idle_deadline}

-- `closed` are the descriptors that were closed, the last one first.
pub record Conns : Type 0 where
  pub links : Links
  pub fd2conn : List ℕ
  pub closed : List ℕ

-- The end of a connection: out of `fd2conn`, closed, and out of the idle list.
unfoldable pub drop_conn : Conns → ℕ → ℕ → Run Conns
drop_conn s node fd =
    check (ltb fd (length s.fd2conn))
    >> ok (record {
      links = dlist_detach s.links node;
      fd2conn = set s.fd2conn fd 0;
      closed = fd ∷ s.closed;
    })

module _ (head : ℕ) (conns : ℕ → Conn) (now_us : ℕ) where
  unfoldable pub idle_loop : ℕ → Conns → Run Conns
  idle_loop zero s = out_of_fuel
  idle_loop (suc fuel) s =
      let next = s.links.next head in
      let drop = drop_conn s next (conns next).fd >>= λ s'. idle_loop fuel s' in
      let body = if ltb now_us (idle_deadline (conns next).idle_start) then ok s else drop in
      if d_list_empty s.links head then ok s else body

abbrev pub k_max_works : ℕ
k_max_works = 2000

abbrev pub entry_in : ℕ → List Entry → Option Entry
entry_in id [] = none
entry_in id (e ∷ es) = let rest = entry_in id es in if e.id == id then some e else rest

abbrev pub all_in : List (List Entry) → List Entry
all_in [] = []
all_in (c ∷ cs) = c ++ all_in cs

-- The entry at the address `id`. One that is not in the map any more went through `entry_del`.
abbrev pub entry_at : GlobalData → ℕ → Option Entry
entry_at g id = entry_in id (all_in g.db.ht1.tab ++ all_in g.db.ht2.tab)

-- `node == &ent->node`
abbrev pub is_node : Option Entry → Entry → Bool
is_node none ent = false
is_node (some e) ent = e.id == ent.id

-- A round of the loop over the heap, for the entry at its top.
unfoldable pub expire_top : GlobalData → ℕ → Run GlobalData
expire_top g id = do
  ent ← or_fault (entry_at g id)
  (node, db) ← hm_delete hcode_of g.db ent entry_eq
  check (is_node node ent)
  heap ← heap_remove g.heap (g.heap.idx id)
  let cleared = record heap { idx = write_ref heap.idx id no_idx }
  ok (entry_del (record g { db = db; heap = cleared }) ent)

module _ (now_us : ℕ) where
  -- A reading of the top that is not there says that the heap is empty.
  unfoldable pub expire_loop : ℕ → ℕ → GlobalData → Run GlobalData
  expire_loop zero nworks g = out_of_fuel
  expire_loop (suc fuel) nworks g = elim (get_elem? g.heap.items 0) [
    | none ↦ ok g
    | some top ↦
        let go = expire_top g top.ref >>= λ g'.
        let rest = expire_loop fuel (nworks + 1) g' in
        if leb k_max_works nworks then ok g' else rest in
        if ltb top.val now_us then go else ok g
  ]

unfoldable pub process_timers :
    ℕ → ℕ → (ℕ → Conn) → ℕ → Conns → GlobalData → Run (Conns × GlobalData)
process_timers fuel head conns now_us s g = do
  s' ← idle_loop head conns now_us fuel s
  g' ← expire_loop now_us (k_max_works + 1) 0 g
  ok (s', g')
