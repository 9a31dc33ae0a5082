-- ===== src/Db/Scores.antt =====
-- `zadd` and `zscore`: the score of a name in a set that `zadd` makes.
use redis_database_basic_imp.Prelude.{
  ℕ, suc, ◌+◌, ◌≤◌, ◌<◌, ◌≡◌, refl, ap, ◌∙◌, ◌^◌, Bool, true, false, not, ◌&&◌, Option, none, some,
  [], ◌∷◌, arith, ◌==◌,
}
use redis_database_basic_imp.Prelude.Bytes.{Bytes}
use redis_database_basic_imp.Prelude.Count.{to_nat}
use redis_database_basic_imp.Prelude.Run.{ok, Returns, Returns-bind, ◌>>=◌}
use redis_database_basic_imp.Serialisation.{out_int, out_dbl}
use redis_database_basic_imp.Connection.{res_ok}
use redis_database_basic_imp.HashTable.Count.{anything}
use redis_database_basic_imp.HashTable.Valid.{IsValid, nodes}
use redis_database_basic_imp.HashTable.Insert.{hm_insert-Inserted}
use redis_database_basic_imp.HashTable.Only.{count-less, hm_lookup-Absent, hm_lookup-IsGood}
use redis_database_basic_imp.Avl.{Ptr, is_null}
use redis_database_basic_imp.Zset.{znode_new, zset_lookup}
use redis_database_basic_imp.Zset.First.{HasOnly, IsOnly, zset_add-IsFirst, zset_lookup-HasOnly}
use redis_database_basic_imp.Db.{Entry, GlobalData, entry_eq, lookup_key, hcode_of}
use redis_database_basic_imp.Db.Keys.{has_key, same_bytes_refl}
use redis_database_basic_imp.Db.Sets.{
  Stod, int_of, set_of, found_set, new_set_entry, with_new_set, with_set, add_to, zadd_found,
  do_zadd, score_reply, zscore_in, do_zscore,
}

-- The entry is the set `i`.
abbrev pub is_some : Option ℕ → ℕ → Bool
is_some none i = false
is_some (some j) i = j == i

abbrev pub is_set_of : ℕ → Entry → Bool
is_set_of i e = is_some (set_of e) i

pub is_some-eq : (o : Option ℕ) (i : ℕ) → is_some o i ≡ true → o ≡ some i
is_some-eq none i h = absurd cc
is_some-eq (some j) i h = let z : j ≡ i = ground arith in ap some z

-- A state in which `zset_add` has put the name into the set of the key.
pub record HasScore (g : GlobalData) (k name : Bytes) (score : ℕ) : Type 0 where
  pub set : ℕ
  pub node : Ptr
  pub entries : IsValid hcode_of g.db
  pub some_entry : 0 < nodes (has_key k) g.db
  pub only_entry : nodes (λ e. has_key k e && not (is_set_of set e)) g.db ≡ 0
  pub only_name : HasOnly (g.zsets.sets set) name node
  pub there : (g.zsets.store.znodes node).score ≡ score
  pub real : is_null node ≡ false
  pub only_tree : IsOnly g.zsets.store.tnodes node

-- `zscore` in such a state.
do_zscore-HasScore :
    (g : GlobalData) (zscore k name out : Bytes) (score : ℕ)
    → HasScore g k name score
    → Returns
        (λ r. (r.0 ≡ res_ok) × (r.1.0 ≡ out_dbl out score))
        (do_zscore (zscore ∷ k ∷ name ∷ []) out g)
unfolding do_zscore zscore_in zset_lookup score_reply
do_zscore-HasScore g zscore k name out score h =
    let i = h.set in
    let ((node, db), run, (e, at, is_i)) =
      hm_lookup-IsGood hcode_of entry_eq (lookup_key k) g.db (is_set_of i) h.entries h.some_entry
        h.only_entry in
    let found : found_set node ≡ some i = ap found_set at ∙ is_some-eq (set_of e) i is_i in
    let g' : GlobalData = record g { db = db } in
    let (r', run', (x, at', own)) =
      zset_lookup-HasOnly (g.zsets.sets i) name h.node (same_bytes_refl name) h.only_name in
    let looked : do_zscore (zscore ∷ k ∷ name ∷ []) out g ≡ zscore_in name out (found_set node) g' =
      rw run refl in
    let in_set : zscore_in name out (some i) g' ≡ score_reply out g' i r' = rw run' refl in
    (
      _,
      looked
          ∙ ap (λ o. zscore_in name out o g') found
          ∙ in_set
          ∙ ap (λ o. score_reply out g' i (o, r'.1)) at',
      (refl, ap (out_dbl out) (ap (λ p. (g.zsets.store.znodes p).score) own ∙ h.there)),
    )

has_key-new : (g : GlobalData) (k : Bytes) → has_key k (new_set_entry g k) ≡ true
has_key-new g k = rw (same_bytes_refl k) (ground arith)

is_set_of-new :
    (g : GlobalData) (k : Bytes) → is_set_of g.zsets.fresh_set (new_set_entry g k) ≡ true
is_set_of-new g k = ground arith

bad-less :
    (k : Bytes) (i : ℕ) (e : Entry)
    → to_nat (has_key k e && not (is_set_of i e)) ≤ to_nat (has_key k e)
bad-less k i e = ground arith

-- `zadd` where there is no entry with the key.
pub do_zadd-HasScore :
    (stod : Stod) (fuel : ℕ) (g : GlobalData) (zadd k text name : Bytes) (score : ℕ)
    → IsValid hcode_of g.db
    → nodes (has_key k) g.db ≡ 0
    → g.db.ht1.size + g.db.ht2.size + 1 < 2 ^ 64
    → is_null g.zsets.store.fresh ≡ false
    → stod text ≡ some score
    → Returns
        (λ r. (r.0 ≡ res_ok) × (r.1.0 ≡ out_int [] 1) × HasScore r.1.1 k name score)
        (do_zadd stod (suc fuel) (zadd ∷ k ∷ text ∷ name ∷ []) [] g)
unfolding do_zadd zadd_found add_to znode_new
do_zadd-HasScore stod fuel g zadd k text name score v absent room real parsed =
    let ((node, db1), run1, a) = hm_lookup-Absent hcode_of entry_eq (lookup_key k) g.db v absent in
    let g1 : GlobalData = record g { db = db1 } in
    let new = new_set_entry g1 k in
    let fits : db1.ht1.size + db1.ht2.size + 1 < 2 ^ 64 = omega (
      arith,
      room,
      a.same anything,
      a.valid.newer.counted,
      a.valid.older.counted,
      v.newer.counted,
      v.older.counted,
    ) in
    let (db2, run2, ins) = hm_insert-Inserted hcode_of db1 new a.valid fits in
    let (r, run3, first) = zset_add-IsFirst fuel g.zsets.store name score real in
    let i = g.zsets.fresh_set in
    let self : (i == i) ≡ true = ground arith in
    let g2 : GlobalData = record (with_new_set g1) { db = db2 } in
    let looked : do_zadd stod (suc fuel) (zadd ∷ k ∷ text ∷ name ∷ []) [] g
        ≡ zadd_found (suc fuel) k name score [] (node, g1) =
      rw (parsed, run1) refl in
    let inserted : zadd_found (suc fuel) k name score [] (none, g1)
        ≡ add_to (suc fuel) name score [] (some i) g2 =
      rw run2 refl in
    let added : add_to (suc fuel) name score [] (some i) g2
        ≡ ok (res_ok, (out_int [] (int_of r.0), with_set g2 i r.1.0 r.1.1)) =
      rw (self, run3) refl in
    let bad : Entry → Bool = λ e. has_key k e && not (is_set_of i e) in
    let new_bad : to_nat (bad new) ≡ 0 = rw (has_key-new g1 k, is_set_of-new g1 k) refl in
    let none_bad : nodes bad db2 ≡ 0 = omega (
      arith,
      ins.gains bad,
      new_bad,
      count-less bad (has_key k) (bad-less k i) db1.ht1.tab,
      count-less bad (has_key k) (bad-less k i) db1.ht2.tab,
      a.same (has_key k),
      absent,
    ) in
    let only : HasOnly r.1.1 name g.zsets.store.fresh = record {
      tree = ap is_null first.root ∙ real;
      names = first.valid;
      only_name = first.only_node;
    } in
    (
      (res_ok, (out_int [] (int_of r.0), with_set g2 i r.1.0 r.1.1)),
      looked ∙ ap (λ o. zadd_found (suc fuel) k name score [] (o, g1)) a.nothing ∙ inserted ∙ added,
      (
        refl,
        ap (λ b. out_int [] (int_of b)) first.added,
        record {
          set = i;
          node = g.zsets.store.fresh;
          entries = ins.valid;
          some_entry = omega (arith, ins.gains (has_key k), ap to_nat (has_key-new g1 k));
          only_entry = none_bad;
          only_name = rw self only;
          there = first.score_there;
          real = real;
          only_tree = first.only_tree;
        },
      ),
    )

-- Where there is no entry with the key and the map is not full, `zadd` with a score that `std::stod`
-- reads and `zscore` of the same key and name return, and `zscore` answers that score; one unit of fuel
-- is enough.
pub do_zadd-do_zscore :
    (stod : Stod) (fuel : ℕ) (g : GlobalData) (zadd zscore k text name out : Bytes) (score : ℕ)
    → IsValid hcode_of g.db
    → nodes (has_key k) g.db ≡ 0
    → g.db.ht1.size + g.db.ht2.size + 1 < 2 ^ 64
    → is_null g.zsets.store.fresh ≡ false
    → stod text ≡ some score
    → Returns
        (λ r. (r.0 ≡ res_ok) × (r.1.0 ≡ out_dbl out score))
        (do_zadd stod (suc fuel) (zadd ∷ k ∷ text ∷ name ∷ []) [] g >>= λ s.
          do_zscore (zscore ∷ k ∷ name ∷ []) out s.1.1)
do_zadd-do_zscore stod fuel g zadd zscore k text name out score v absent room real parsed =
    Returns-bind (do_zadd-HasScore stod fuel g zadd k text name score v absent room real parsed)
      λ s (_, _, has). do_zscore-HasScore s.1.1 zscore k name out score has
