-- ===== src/Heap.antt =====
-- heap.h and heap.cpp: the binary heap of expiry times, with the position of each item written back
-- to the entry that the item is of.
pub mod Order
pub mod Up
pub mod Down
pub mod Update
use redis_database_basic_imp.Prelude.{
  ℕ, zero, suc, ◌+◌, ◌-◌, ◌*◌, ◌/◌, Bool, ◌&&◌, List, Option, ltb, ◌==◌, if◌then◌else◌, length,
  get_elem?, set,
}
use redis_database_basic_imp.Prelude.Run.{Run, ok, fault, out_of_fuel, or_fault, ◌>>=◌}

-- `ref` points at the `heap_idx` of an entry; the entries are numbered.
pub record HeapItem : Type 0 where
  pub val : ℕ
  pub ref : ℕ

-- The array and the `heap_idx` of every entry.
pub record Heap : Type 0 where
  pub items : List HeapItem
  pub idx : ℕ → ℕ

abbrev pub heap_parent : ℕ → ℕ
heap_parent i = (i + 1) / 2 - 1

abbrev pub heap_left : ℕ → ℕ
heap_left i = i * 2 + 1

abbrev pub heap_right : ℕ → ℕ
heap_right i = i * 2 + 2

-- `a[i]`
unfoldable pub load : Heap → ℕ → Run HeapItem
load h i = or_fault (get_elem? h.items i)

-- `*ref = pos`
abbrev pub write_ref : (ℕ → ℕ) → ℕ → ℕ → ℕ → ℕ
write_ref idx r pos e = if r == e then pos else idx e

-- `a[pos] = t; *a[pos].ref = pos;`
unfoldable pub place : Heap → ℕ → HeapItem → Run Heap
unfolding load
place h pos t =
    load h pos >>= λ _. ok (record { items = set h.items pos t; idx = write_ref h.idx t.ref pos })

-- The loop of `heap_up`, with the item `t` in hand and a hole at `pos`.
unfoldable pub up_loop : ℕ → HeapItem → Heap → ℕ → Run Heap
up_loop zero t h pos = out_of_fuel
up_loop (suc fuel) t h pos =
    let rise : Run Heap = do
      p ← load h (heap_parent pos)
      let up = place h pos p >>= λ h'. up_loop fuel t h' (heap_parent pos)
      if ltb t.val p.val then up else place h pos t
    in if ltb 0 pos then rise else place h pos t

-- The position falls in each round.
unfoldable pub heap_up : Heap → ℕ → Run Heap
heap_up h pos = load h pos >>= λ t. up_loop (pos + 1) t h pos

-- The least of the item in hand and the children of `pos`: its position and its value.
unfoldable pub min_child : HeapItem → Heap → ℕ → ℕ → Run (ℕ × ℕ)
min_child t h pos len = do
  m ←
      if ltb (heap_left pos) len
      then (load h (heap_left pos) >>= λ a.
          ok (if ltb a.val t.val then (heap_left pos, a.val) else (pos, t.val)))
      else ok (pos, t.val)
  if ltb (heap_right pos) len
      then (load h (heap_right pos) >>= λ a.
          ok (if ltb a.val m.1 then (heap_right pos, a.val) else m))
      else ok m

unfoldable pub down_loop : ℕ → HeapItem → Heap → ℕ → ℕ → Run Heap
down_loop zero t h pos len = out_of_fuel
down_loop (suc fuel) t h pos len = do
  m ← min_child t h pos len
  let sink : Run Heap = do a ← load h m.0; h' ← place h pos a; down_loop fuel t h' m.0 len
  if m.0 == pos then place h pos t else sink

-- The position grows in each round that does not end the loop, and stays below `len`.
unfoldable pub heap_down : Heap → ℕ → ℕ → Run Heap
heap_down h pos len = load h pos >>= λ t. down_loop (len + 1) t h pos len

-- `pos > 0` guards the read of the parent.
unfoldable pub heap_update : Heap → ℕ → ℕ → Run Heap
heap_update h pos len =
    let test : Run Heap = do
      p ← load h (heap_parent pos)
      a ← load h pos
      if ltb a.val p.val then heap_up h pos else heap_down h pos len
    in if ltb 0 pos then test else heap_down h pos len

-- What a run of the heap on a concrete input computes with.
unfoldable pub program : Unit {0}
unfolding load place up_loop heap_up min_child down_loop heap_down heap_update
program = tt
