-- ===== src/HashTable/Older.antt =====
-- `hm_delete` of a node that still stands in the older table. The call counts down `ht1.size`, so
-- `ht2.size` stays one too large; once the older table is empty the resize walks past its end.
use Prim.Native.Nat.{bit_and}
use native.Mathlib.Decide.{dec_lt}
use redis_database_basic_imp.Prelude.{
  ℕ, zero, suc, ◌+◌, ◌-◌, ◌≤◌, ◌<◌, ◌≡◌, inl, inr, refl, ap, ◌^◌, ◌&&◌, Bool, true, List, [], ◌∷◌,
  Option, none, some, arith, length, get_elem?, get_or, ltb, List-cases, get_elem?-get_or, set,
  length-set,
}
use redis_database_basic_imp.Prelude.Run.{ok, fault, ◌>>=◌, Returns}
use redis_database_basic_imp.HashTable.{
  HTab, HMap, newer, older, h_detach, hinsert, move_first, help_loop, hm_help_resizing, hm_lookup,
  size_inc, size_dec, hm_delete, k_resizing_work,
}
use redis_database_basic_imp.HashTable.Count.{count, anything}
use redis_database_basic_imp.HashTable.Valid.{IsTable, IsPlaced, IsValid, IsTable-same}
use redis_database_basic_imp.HashTable.Place.{unlink-Removed, index-lt}
use redis_database_basic_imp.HashTable.Resize.{hm_help_resizing-Advanced}
use redis_database_basic_imp.HashTable.Lookup.{
  wanted, from_at, Hit, Hit-counted, absent, in_newer, in_older, lookup_both-Located,
}

get_elem?-none {ℓ} : {A : Type ℓ} (xs : List A) (i : ℕ) → length xs ≤ i → get_elem? xs i ≡ none
get_elem?-none [] i h = refl
get_elem?-none (x ∷ xs) zero h = absurd (omega arith)
get_elem?-none (x ∷ xs) (suc i) h = get_elem?-none xs i (omega arith)

module _ {ℓ} {A : Type ℓ} (hcode : A → ℕ) where
  -- Both tables are there, and the older one counts one node more than it has.
  pub record IsOvercounted (m : HMap A) : Type ℓ where
    pub newer : IsTable m.ht1
    pub older : IsTable m.ht2
    pub placed : IsPlaced hcode m.ht2
    pub over : m.ht2.size ≡ count anything m.ht2.tab + 1
    pub small : m.ht2.size < 2 ^ 64

  -- `hinsert` needs the table alone, not the counter.
  hinsert_any :
      (t : HTab A) (n : A) → IsTable t → (t' : HTab A) × (hinsert hcode t n ≡ ok t') × IsTable t'
  unfolding hinsert
  hinsert_any t n s =
      let i = bit_and (hcode n) t.mask in
      let t' : HTab A = record t {
        tab = set t.tab i (n ∷ get_or t.tab i []);
        size = size_inc t.size;
      } in
      (
        t',
        rw (get_elem?-get_or t.tab i [] (index-lt t (hcode n) s.0)),
        IsTable-same t t' s refl (length-set t.tab i (n ∷ get_or t.tab i [])),
      )

  move_first-IsOvercounted :
      (m : HMap A) (x : A) (rest : List A)
      → IsOvercounted m
      → m.resizing_pos < length m.ht2.tab
      → get_or m.ht2.tab m.resizing_pos [] ≡ x ∷ rest
      → (m' : HMap A) × (move_first hcode m ≡ ok m')
        × IsOvercounted m'
        × (m'.ht2.size + 1 ≡ m.ht2.size)
        × (length m'.ht2.tab ≡ length m.ht2.tab)
        × (m'.resizing_pos ≡ m.resizing_pos)
  unfolding move_first h_detach
  move_first-IsOvercounted m x rest v l e =
      let (t2, cut, r) = unlink-Removed hcode m.ht2 m.resizing_pos 0 x v.placed l (rw e) in
      let (t1, put, s1) = hinsert_any m.ht1 x v.newer in
      let m' : HMap A = record {
        ht1 = t1;
        ht2 = record t2 { size = size_dec t2.size };
        resizing_pos = m.resizing_pos;
      } in
      let down : m'.ht2.size + 1 ≡ m.ht2.size = omega (arith, v.over, v.small, r.size) in
      (
        m',
        rw (cut, put),
        record {
          newer = s1;
          older = IsTable-same m.ht2 m'.ht2 v.older r.mask r.width;
          placed = r.placed;
          over = omega (arith, r.loses anything, v.over, down);
          small = omega (arith, v.small);
        },
        down,
        r.width,
        refl,
      )

  help_loop-fault :
      (fuel nwork : ℕ) (m : HMap A)
      → IsOvercounted m
      → m.ht2.size + nwork ≤ k_resizing_work
      → (length m.ht2.tab - m.resizing_pos) + (k_resizing_work - nwork) < fuel
      → help_loop hcode fuel nwork m ≡ fault
  unfolding help_loop
  help_loop-fault zero nwork m v w f = absurd (omega arith)
  help_loop-fault (suc fuel) nwork m v w f =
      let more : (ltb nwork k_resizing_work && ltb 0 m.ht2.size) ≡ true = ground (arith, v.over) in
      elim (dec_lt m.resizing_pos (length m.ht2.tab)) [
        | no n ↦ rw (more, get_elem?-none m.ht2.tab m.resizing_pos (omega arith))
        | yes l ↦
            rw (more, get_elem?-get_or m.ht2.tab m.resizing_pos [] l)
              (elim (List-cases (get_or m.ht2.tab m.resizing_pos [])) [
                | inl e ↦
                    let still : IsOvercounted (record m { resizing_pos = m.resizing_pos + 1 }) =
                      record {
                        newer = v.newer;
                        older = v.older;
                        placed = v.placed;
                        over = v.over;
                        small = v.small;
                      } in
                    rw (◌>>=◌, e) (help_loop-fault fuel nwork _ still w (omega arith))
                | inr (x, rest, e) ↦
                    let (m', moves, v', down, width, pos) =
                      move_first-IsOvercounted m x rest v l e in
                    rw (◌>>=◌, e, moves)
                      (help_loop-fault fuel (nwork + 1) m' v' (omega arith) (omega arith))
              ])
      ]

  pub hm_help_resizing-fault :
      (m : HMap A)
      → IsOvercounted m
      → m.ht2.size ≤ k_resizing_work
      → hm_help_resizing hcode m ≡ fault
  unfolding hm_help_resizing
  hm_help_resizing-fault m v few =
      rw
        (help_loop-fault (length m.ht2.tab + k_resizing_work + 1) 0 m v (omega arith) (omega arith))

  module _ (eq : A → A → Bool) (key : A) where
    detach_older :
        (m : HMap A) (k : ℕ) (x : A)
        → IsValid hcode m
        → IsTable m.ht1
        → IsTable m.ht2
        → Hit hcode eq key m older k x
        → (m' : HMap A) × (h_detach m newer (from_at hcode eq key m older k) ≡ ok (x, m'))
          × IsOvercounted m'
          × (m'.ht2.size ≡ m.ht2.size)
    unfolding h_detach
    detach_older m k x v s1 s2 h =
        let (t, cut, r) = unlink-Removed hcode m.ht2 _ k x v.older.placed h.inside h.here in
        let m' : HMap A = record m {
          ht1 = record (m.ht1) { size = size_dec m.ht1.size };
          ht2 = t;
        } in
        (
          m',
          rw cut,
          record {
            newer = s1;
            older = IsTable-same m.ht2 t s2 r.mask r.width;
            placed = r.placed;
            over = omega (arith, r.loses anything, v.older.counted, r.size);
            small = omega (arith, v.room, r.size);
          },
          r.size,
        )

    -- The tables of a map with a node in the older one.
    older_tables :
        (m : HMap A) (k : ℕ) (x : A)
        → IsValid hcode m
        → Hit hcode eq key m older k x
        → IsTable m.ht1 × IsTable m.ht2
    older_tables m k x v h = (
      elim v.begun [ inl n ↦ absurd (omega (arith, h.inside, ap length n.1)) | inr s ↦ s ],
      elim v.shape [ inl n ↦ absurd (omega (arith, h.inside, ap length n)) | inr s ↦ s ],
    )

    -- What such a deletion leaves: the next lookup, insertion or deletion, of any key, faults.
    pub record Stuck (r : Option A × HMap A) : Type ℓ where
      pub over : IsOvercounted r.1
      pub lookup : (q : A) → hm_lookup hcode r.1 q eq ≡ fault
      pub delete : (q : A) → hm_delete hcode r.1 q eq ≡ fault

    stuck :
        (x : A) (m : HMap A) → IsOvercounted m → m.ht2.size ≤ k_resizing_work → Stuck (some x, m)
    unfolding hm_lookup hm_delete
    stuck x m v few = record {
      over = v;
      lookup = λ q. rw (hm_help_resizing-fault m v few);
      delete = λ q. rw (hm_help_resizing-fault m v few);
    }

    -- Take a valid map for which `hm_help_resizing` leaves `m'`, where the key is in the older table
    -- and not in the newer one, and where at most `k_resizing_work` nodes are left in the older one.
    -- Then `hm_delete` returns, with a counter of the older table that is one too large, and the next
    -- lookup or deletion reads past the end of that table.
    pub hm_delete-older_fault :
        (m m' : HMap A)
        → IsValid hcode m
        → hm_help_resizing hcode m ≡ ok m'
        → count (wanted hcode eq key) m'.ht1.tab ≡ 0
        → 0 < count (wanted hcode eq key) m'.ht2.tab
        → m'.ht2.size ≤ k_resizing_work
        → Returns Stuck (hm_delete hcode m key eq)
    unfolding hm_delete
    hm_delete-older_fault m m' v e miss hit few =
        let (m₀, helps, a) = hm_help_resizing-Advanced hcode m v in
        let v' : IsValid hcode m' = let same : m₀ ≡ m' = cc in rw same at (a.valid) in
        elim (lookup_both-Located hcode eq key m' v') [
          | absent run z ↦ absurd (omega arith)
          | in_newer k x run h ↦ absurd (
              ground (
                arith,
                h.fits,
                miss,
                Hit-counted hcode eq key m' newer k x (wanted hcode eq key) h,
              ))
          | in_older k x run z h ↦
              let (s1, s2) = older_tables m' k x v' h in
              let (r, cut, over, size) = detach_older m' k x v' s1 s2 h in
              ((some x, r), rw (e, ◌>>=◌, run, cut), stuck x r over (omega arith))
        ]
