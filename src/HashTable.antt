-- ===== src/HashTable.antt =====
-- hashtable.h and hashtable.cpp: the chained table, and the map that moves its entries from an older
-- table to a newer one a few at a time.
--
-- The table is intrusive: a node carries its link and its hash code. Here a chain is the list of its
-- nodes in the order of the links, `tab` is the list of the chains, and a null `tab` is the empty
-- list, since `hinit` never makes a table without a bucket. A `HNode **from` is the table, the bucket
-- and the offset in the chain that it points into.
pub mod Count
pub mod Valid
pub mod Place
pub mod Resize
pub mod Insert
pub mod Lookup
pub mod Delete
pub mod Older
pub mod Only
use Prim.Native.Nat.{bit_and}
use mathlib.Core.Option
use redis_database_basic_imp.Prelude.{
  ℕ, zero, suc, ◌+◌, ◌-◌, ◌*◌, ◌/◌, ◌%◌, ◌^◌, Bool, true, false, not, ◌&&◌, Option, none, some,
  List, [], ◌∷◌, ltb, ◌==◌, if◌then◌else◌, length, get_elem?, set, replicate,
}
use redis_database_basic_imp.Prelude.Run.{Run, ok, out_of_fuel, check, or_fault, ◌>>=◌, ◌>>◌}

-- `tab` is null before `hinit`.
pub record HTab {ℓ} (A : Type ℓ) : Type ℓ where
  pub tab : List (List A)
  pub size : ℕ
  pub mask : ℕ

pub record HMap {ℓ} (A : Type ℓ) : Type ℓ where
  pub ht1 : HTab A
  pub ht2 : HTab A
  pub resizing_pos : ℕ

pub data Side : Type 0 where
  newer older : Side

-- A `HNode **` into the chains of a map.
pub record From : Type 0 where
  pub side : Side
  pub bucket : ℕ
  pub offset : ℕ

abbrev pub k_max_load_factor : ℕ
k_max_load_factor = 8

abbrev pub k_resizing_work : ℕ
k_resizing_work = 128

-- `size++` and `size--` on a `size_t`.
abbrev pub size_inc : ℕ → ℕ
size_inc n = (n + 1) % 2 ^ 64

abbrev pub size_dec : ℕ → ℕ
size_dec n = (n + (2 ^ 64 - 1)) % 2 ^ 64

abbrev pub is_null {ℓ} : {A : Type ℓ} → List A → Bool
is_null [] = true
is_null (x ∷ xs) = false

module _ {ℓ} {A : Type ℓ} where
  -- `HTab{}`
  abbrev pub no_table : HTab A
  no_table = record { tab = []; size = 0; mask = 0 }

  abbrev pub empty_map : HMap A
  empty_map = record { ht1 = no_table; ht2 = no_table; resizing_pos = 0 }

  abbrev pub table : HMap A → Side → HTab A
  table m newer = m.ht1
  table m older = m.ht2

  abbrev pub with_table : HMap A → Side → HTab A → HMap A
  with_table m newer t = record m { ht1 = t }
  with_table m older t = record m { ht2 = t }

  unfoldable pub hinit : ℕ → Run (HTab A)
  hinit size =
      check (ltb 0 size && (bit_and size (size - 1) == 0))
      >> ok (record { tab = replicate size []; size = 0; mask = size - 1 })

  -- `*from = node->next`
  unfoldable pub remove_at : List A → ℕ → List A
  remove_at [] i = []
  remove_at (x ∷ xs) zero = xs
  remove_at (x ∷ xs) (suc i) = x ∷ remove_at xs i

  -- `*from`
  unfoldable pub node_at : HMap A → From → Option A
  node_at m from =
      Option.bind (get_elem? (table m from.side).tab from.bucket) λ c. get_elem? c from.offset

  unfoldable pub unlink : HTab A → ℕ → ℕ → Run (A × HTab A)
  unlink t bucket offset = do
    chain ← or_fault (get_elem? t.tab bucket)
    node ← or_fault (get_elem? chain offset)
    ok (node, record t { tab = set t.tab bucket (remove_at chain offset) })

  -- `h_detach(htab, from)` unlinks at `from`, wherever it points, and counts down `htab`.
  unfoldable pub h_detach : HMap A → Side → From → Run (A × HMap A)
  h_detach m htab from = do
    (node, t) ← unlink (table m from.side) from.bucket from.offset
    let m' = with_table m from.side t
    let counted = table m' htab
    ok (node, with_table m' htab (record counted { size = size_dec counted.size }))

  unfoldable pub hm_start_resizing : HMap A → Run (HMap A)
  hm_start_resizing m = do
    check (is_null m.ht2.tab)
    fresh ← hinit ((m.ht1.mask + 1) * 2)
    ok (record { ht1 = fresh; ht2 = m.ht1; resizing_pos = 0 })

  abbrev pub grown : HMap A → Run (HMap A)
  grown m =
      if ltb k_max_load_factor (m.ht1.size / (m.ht1.mask + 1)) then hm_start_resizing m else ok m

  abbrev pub drop_empty : HMap A → HMap A
  drop_empty m =
      if (m.ht2.size == 0) && not (is_null m.ht2.tab) then record m { ht2 = no_table } else m

module _ {ℓ} {A : Type ℓ} (hcode : A → ℕ) where
  unfoldable pub hinsert : HTab A → A → Run (HTab A)
  hinsert ht node = do
    let index = bit_and (hcode node) ht.mask
    next ← or_fault (get_elem? ht.tab index)
    ok (record ht { tab = set ht.tab index (node ∷ next); size = size_inc ht.size })

  -- The test of the lookup loop.
  abbrev pub matches : (A → A → Bool) → A → A → Bool
  matches eq key cur = (hcode cur == hcode key) && eq cur key

  unfoldable pub chain_lookup : (A → A → Bool) → A → List A → Option ℕ
  chain_lookup eq key [] = none
  chain_lookup eq key (cur ∷ rest) =
      if matches eq key cur then some 0 else Option.map suc (chain_lookup eq key rest)

  unfoldable pub hlookup : HMap A → Side → A → (A → A → Bool) → Run (Option From)
  hlookup m side key eq =
      let pos = bit_and (hcode key) (table m side).mask in
      let scan : Run (Option From) = do
        chain ← or_fault (get_elem? (table m side).tab pos)
        let found = chain_lookup eq key chain
        ok (Option.map (λ k. record { side = side; bucket = pos; offset = k }) found)
      in if is_null (table m side).tab then ok none else scan

  -- One non-empty bucket of the older table gives its first node to the newer one.
  unfoldable pub move_first : HMap A → Run (HMap A)
  move_first m = do
    (node, m') ← h_detach m older (record { side = older; bucket = m.resizing_pos; offset = 0 })
    ht1 ← hinsert m'.ht1 node
    ok (record m' { ht1 = ht1 })

  unfoldable pub help_loop : ℕ → ℕ → HMap A → Run (HMap A)
  help_loop zero nwork m = out_of_fuel
  help_loop (suc fuel) nwork m =
      let skip = help_loop fuel nwork (record m { resizing_pos = m.resizing_pos + 1 }) in
      let move = move_first m >>= λ m'. help_loop fuel (nwork + 1) m' in
      let body =
        or_fault (get_elem? m.ht2.tab m.resizing_pos) >>= λ c. if is_null c then skip else move in
      if ltb nwork k_resizing_work && ltb 0 m.ht2.size then body else ok m

  unfoldable pub hm_help_resizing : HMap A → Run (HMap A)
  hm_help_resizing m =
      help_loop (length m.ht2.tab + k_resizing_work + 1) 0 m >>= λ m'. ok (drop_empty m')

  unfoldable pub hm_insert : HMap A → A → Run (HMap A)
  hm_insert m node = do
    first ← if is_null m.ht1.tab then hinit 4 else ok m.ht1
    ht1 ← hinsert first node
    let m' = record m { ht1 = ht1 }
    resized ← if is_null m'.ht2.tab then grown m' else ok m'
    hm_help_resizing resized

  -- Both tables in turn: `from ? from : hlookup(&hmap->ht2, key, eq)`.
  unfoldable pub lookup_both : HMap A → A → (A → A → Bool) → Run (Option From)
  lookup_both m key eq =
      hlookup m newer key eq >>= elim [ some from ↦ ok (some from) | none ↦ hlookup m older key eq ]

  -- A null result is `none`.
  unfoldable pub hm_lookup : HMap A → A → (A → A → Bool) → Run (Option A × HMap A)
  hm_lookup m key eq = do
    m' ← hm_help_resizing m
    from ← lookup_both m' key eq
    elim from [ none ↦ ok (none, m') | some f ↦ or_fault (node_at m' f) >>= λ n. ok (some n, m') ]

  -- `eq` is `entry_eq`. The node is unlinked where it is found, and `ht1` is counted down.
  unfoldable pub hm_delete : HMap A → A → (A → A → Bool) → Run (Option A × HMap A)
  hm_delete m key eq = do
    m' ← hm_help_resizing m
    from ← lookup_both m' key eq
    elim from [ none ↦ ok (none, m') | some f ↦ h_detach m' newer f >>= λ (n, r). ok (some n, r) ]

module _ {ℓ κ} {A : Type ℓ} {S : Type κ} (f : A → S → S) where
  unfoldable pub scan_chain : List A → S → S
  scan_chain [] arg = arg
  scan_chain (node ∷ next) arg = scan_chain next (f node arg)

  -- The buckets from `i` on, of which `n` are left.
  unfoldable pub scan_from : ℕ → ℕ → List (List A) → S → Run S
  scan_from zero i tab arg = ok arg
  scan_from (suc n) i tab arg =
      or_fault (get_elem? tab i) >>= λ c. scan_from n (i + 1) tab (scan_chain c arg)

  unfoldable pub h_scan : HTab A → S → Run S
  h_scan t arg = if t.size == 0 then ok arg else scan_from (t.mask + 1) 0 t.tab arg

abbrev pub hm_size {ℓ} : {A : Type ℓ} → HMap A → ℕ
hm_size m = (m.ht1.size + m.ht2.size) % 2 ^ 64

-- What a run of the map on a concrete input computes with.
unfoldable pub program : Unit {0}
unfolding hinit remove_at node_at unlink h_detach hinsert chain_lookup hlookup hm_start_resizing
    move_first help_loop hm_help_resizing hm_insert lookup_both hm_lookup hm_delete scan_chain
    scan_from h_scan
program = tt
