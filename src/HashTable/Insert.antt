-- ===== src/HashTable/Insert.antt =====
-- `hm_insert`: the first table, the start of a resize, and what an insertion does to the nodes.
use redis_database_basic_imp.Prelude.{
  ℕ, zero, suc, ◌+◌, ◌-◌, ◌*◌, ◌/◌, ◌^◌, ◌<◌, ◌≡◌, inl, inr, refl, ap, ◌∙◌, Bool, true, false, List,
  [], arith, Bool-cases, List-cases, ltb, if◌then◌else◌, get_or, replicate, length-replicate,
}
use redis_database_basic_imp.Prelude.Bits.{
  IsPowTwo, IsPowTwo-one, IsPowTwo-double, IsPowTwo-bit_and,
}
use redis_database_basic_imp.Prelude.Run.{Run, ok, ◌>>=◌, Returns}
use redis_database_basic_imp.HashTable.{
  HTab, HMap, hinit, hinsert, hm_start_resizing, grown, hm_help_resizing, hm_insert,
  k_max_load_factor, is_null,
}
use redis_database_basic_imp.HashTable.Count.{count, anything, to_nat, count-replicate}
use redis_database_basic_imp.HashTable.Valid.{
  IsTable, IsNull, IsCounted, IsValid, nodes, SameNodes, IsTable-same,
}
use redis_database_basic_imp.HashTable.Place.{hinsert-Added}
use redis_database_basic_imp.HashTable.Resize.{hm_help_resizing-Advanced}

get_or-replicate {ℓ} : {A : Type ℓ} (n i : ℕ) → get_or (replicate {A = List A} n []) i [] ≡ []
get_or-replicate zero i = refl
get_or-replicate (suc n) zero = refl
get_or-replicate (suc n) (suc i) = get_or-replicate n i

-- What `hinit` makes.
abbrev pub fresh {ℓ} : {A : Type ℓ} → ℕ → HTab A
fresh n = record { tab = replicate n []; size = 0; mask = n - 1 }

pub fresh-IsTable {ℓ} : (A : Type ℓ) (n : ℕ) → IsPowTwo n → IsTable (fresh {A = A} n)
fresh-IsTable A n p =
    let e : n - 1 + 1 ≡ n = omega arith in
    (omega (arith, length-replicate {A = List A} n []), rw e p)

module _ {ℓ} {A : Type ℓ} where
  pub hinit-fresh : (n : ℕ) → IsPowTwo n → hinit {A = A} n ≡ ok (fresh n)
  unfolding hinit
  hinit-fresh n p = ground (arith, IsPowTwo-bit_and n p)

  module _ (hcode : A → ℕ) where
    pub fresh-IsCounted : (n : ℕ) → IsCounted hcode (fresh n)
    fresh-IsCounted n = record {
      counted = omega (arith, count-replicate {A = A} anything n);
      placed = λ i. rw (get_or-replicate {A = A} n i) tt;
    }

    -- `m'` is valid and has a table, and its nodes are those of `m` and `node`.
    pub record Inserted (m : HMap A) (node : A) (m' : HMap A) : Type ℓ where
      pub valid : IsValid hcode m'
      pub table : IsTable m'.ht1
      pub gains : (p : A → Bool) → nodes p m' ≡ nodes p m + to_nat (p node)

    put_node :
        (m : HMap A) (node : A)
        → IsValid hcode m
        → IsTable m.ht1
        → m.ht1.size + m.ht2.size + 1 < 2 ^ 64
        → (t : HTab A) × (hinsert hcode m.ht1 node ≡ ok t) × Inserted m node (record m { ht1 = t })
    put_node m node v s r =
        let (t, run, a) = hinsert-Added hcode m.ht1 node v.newer s (omega arith) in
        let s' = IsTable-same m.ht1 t s a.mask a.width in
        (
          t,
          run,
          record {
            valid = record {
              newer = a.valid;
              older = v.older;
              begun = inr s';
              shape = v.shape;
              moved = v.moved;
              room = omega (arith, a.size);
            };
            table = s';
            gains = λ p. omega (arith, a.gains p);
          },
        )

    IsPowTwo-four : IsPowTwo 4
    IsPowTwo-four = IsPowTwo-double 2 (IsPowTwo-double 1 IsPowTwo-one)

    -- The map with its first table.
    started : HMap A → HMap A
    started m = record m { ht1 = fresh 4 }

    started-IsValid :
        (m : HMap A)
        → IsValid hcode m
        → IsNull m.ht1
        → IsValid hcode (started m) × SameNodes m (started m)
    unfolding started count
    started-IsValid m v n = (
      record {
        newer = fresh-IsCounted 4;
        older = v.older;
        begun = inr (fresh-IsTable A 4 IsPowTwo-four);
        shape = v.shape;
        moved = v.moved;
        room = omega (arith, v.room);
      },
      λ p. rw n refl,
    )

    resizing :
        (m : HMap A)
        → IsValid hcode m
        → IsTable m.ht1
        → IsNull m.ht2
        → (m' : HMap A) × (hm_start_resizing m ≡ ok m')
          × IsValid hcode m'
          × SameNodes m m'
          × IsTable m'.ht1
    unfolding hm_start_resizing count
    resizing m v s n =
        let p = IsPowTwo-double (m.ht1.mask + 1) s.1 in
        (
          record { ht1 = fresh ((m.ht1.mask + 1) * 2); ht2 = m.ht1; resizing_pos = 0 },
          rw (n, hinit-fresh ((m.ht1.mask + 1) * 2) p),
          (record {
            newer = fresh-IsCounted _;
            older = v.newer;
            begun = inr (fresh-IsTable A ((m.ht1.mask + 1) * 2) p);
            shape = inr s;
            moved = λ i h. absurd (omega arith);
            room = omega (arith, v.room);
          }),
          (λ q. omega (arith, count-replicate q ((m.ht1.mask + 1) * 2), ap (count q) n)),
          fresh-IsTable A ((m.ht1.mask + 1) * 2) p,
        )

    -- A resize starts at most when the older table is gone.
    grown-IsValid :
        (m : HMap A)
        → IsValid hcode m
        → IsTable m.ht1
        → (m' : HMap A) × ((if is_null m.ht2.tab then grown m else ok m) ≡ ok m')
          × IsValid hcode m'
          × SameNodes m m'
          × IsTable m'.ht1
    grown-IsValid m v s = elim (List-cases m.ht2.tab) [
      | inr (b, bs, e) ↦ (m, rw e, v, (λ p. refl), s)
      | inl n ↦
          let nn : is_null m.ht2.tab ≡ true = rw n in
          let large = ltb k_max_load_factor (m.ht1.size / (m.ht1.mask + 1)) in
          elim (Bool-cases large) [
            | inl l ↦
                let (m', run, v', same, s') = resizing m v s n in (m', rw (nn, l) run, v', same, s')
            | inr l ↦ (m, rw (nn, l), v, (λ p. refl), s)
          ]
    ]

    -- `hm_insert` once the first table is made.
    abbrev insert_rest : HMap A → A → Run (HMap A)
    insert_rest m node = hinsert hcode m.ht1 node >>= λ ht1.
        (let m' = record m { ht1 = ht1 } in if is_null m'.ht2.tab then grown m' else ok m')
        >>= hm_help_resizing hcode

    hm_insert_made :
        (m : HMap A) (node : A)
        → is_null m.ht1.tab ≡ false
        → hm_insert hcode m node ≡ insert_rest m node
    unfolding hm_insert
    hm_insert_made m node h = rw h

    hm_insert_first :
        (m : HMap A) (node : A)
        → is_null m.ht1.tab ≡ true
        → hm_insert hcode m node ≡ insert_rest (started m) node
    unfolding hm_insert started
    hm_insert_first m node h = rw (h, hinit-fresh 4 IsPowTwo-four)

    -- With its table made, the map takes the node, may start a resize, and helps it along.
    insert_into :
        (m : HMap A) (node : A)
        → IsValid hcode m
        → IsTable m.ht1
        → m.ht1.size + m.ht2.size + 1 < 2 ^ 64
        → Returns (Inserted m node) (insert_rest m node)
    insert_into m node v s r =
        let (t, put, i) = put_node m node v s r in
        let (m', grows, v', same, s') = grown-IsValid (record m { ht1 = t }) i.valid i.table in
        let (m'', helps, a) = hm_help_resizing-Advanced hcode m' v' in
        (
          m'',
          rw (put, ◌>>=◌, grows) helps,
          record {
            valid = a.valid;
            table = a.table s';
            gains = λ p. a.same p ∙ same p ∙ i.gains p;
          },
        )

    -- `hm_insert` on a valid map with room for a node ends without a fault, and the map is valid and
    -- holds the node and what it held.
    pub hm_insert-Inserted :
        (m : HMap A) (node : A)
        → IsValid hcode m
        → m.ht1.size + m.ht2.size + 1 < 2 ^ 64
        → Returns (Inserted m node) (hm_insert hcode m node)
    unfolding started
    hm_insert-Inserted m node v r = elim (List-cases m.ht1.tab) [
      | inr (b, bs, e) ↦
          let s : IsTable m.ht1 = elim v.begun [ inl n ↦ absurd (cc (e, n.0)) | inr s ↦ s ] in
          rw (hm_insert_made m node (rw e)) (insert_into m node v s r)
      | inl n ↦
          let (v', same) = started-IsValid m v n in
          let (m', run, i) =
            insert_into (started m) node v' (fresh-IsTable A 4 IsPowTwo-four) (omega arith) in
          (
            m',
            hm_insert_first m node (rw n) ∙ run,
            record {
              valid = i.valid;
              table = i.table;
              gains = λ p. omega (arith, i.gains p, same p);
            },
          )
    ]
