-- ===== src/Db/Del.antt =====
-- The command `del` of common.cpp: what it answers and what it leaves stored.
use redis_database_basic_imp.Prelude.{
  ℕ, ◌+◌, ◌≤◌, ◌≡◌, refl, inl, inr, Bool, true, ◌&&◌, Bool-cases, none, some, Option, List, arith,
  ◌==◌,
}
use redis_database_basic_imp.Prelude.Bytes.{Bytes}
use redis_database_basic_imp.Prelude.Count.{to_nat}
use redis_database_basic_imp.Prelude.Run.{Returns}
use redis_database_basic_imp.Serialisation.{out_int}
use redis_database_basic_imp.Connection.{res_ok}
use redis_database_basic_imp.HashTable.{HMap, k_resizing_work}
use redis_database_basic_imp.HashTable.Valid.{nodes}
use redis_database_basic_imp.HashTable.Lookup.{missing, found}
use redis_database_basic_imp.HashTable.Delete.{Deleted, hm_delete-Deleted}
use redis_database_basic_imp.Db.{
  Entry, GlobalData, entry_eq, lookup_key, hcode_of, word, entry_del, do_del, is_set, del_reply,
}
use redis_database_basic_imp.Db.Keys.{has_key, too_long, IsDb}

-- What `del` of the key `k` may answer: 0 and no entry less, or 1 and one entry with the key less.
pub data IsRemoval (g : GlobalData) (k out : Bytes) (g' : GlobalData) : Bytes → Type 0 where
  nothing :
      nodes (has_key k) g.db ≡ 0
      → ((p : Entry → Bool) → nodes p g'.db ≡ nodes p g.db)
      → IsRemoval g k out g' (out_int out 0)
  one :
      (e : Entry)
      → has_key k e ≡ true
      → ((p : Entry → Bool) → nodes p g'.db + to_nat (p e) ≡ nodes p g.db)
      → IsRemoval g k out g' (out_int out 1)

pub record Removed (g : GlobalData) (k out : Bytes) (r : ℕ × (Bytes × GlobalData)) : Type 0 where
  pub code : r.0 ≡ res_ok
  pub kept : IsDb r.1.1
  pub removal : IsRemoval g k out r.1.1 r.1.0

entry_del-db : (g : GlobalData) (e : Entry) → (entry_del g e).db ≡ g.db
unfolding entry_del
entry_del-db g e = elim (Bool-cases ((e.kind == 1) && is_set e.zset)) [
  | inl queued ↦ rw queued refl
  | inr freed ↦ rw freed refl
]

del_reply-Removed :
    (g : GlobalData) (k out : Bytes) (node : Option Entry) (db : HMap Entry)
    → IsDb g
    → Deleted hcode_of entry_eq (lookup_key k) g.db (node, db)
    → Returns (Removed g k out) (del_reply out g (node, db))
del_reply-Removed g k out none db d l = (
  _,
  refl,
  record {
    code = refl;
    kept = record { valid = l.valid; short = omega (arith, l.loses too_long, d.short) };
    removal = elim l.answer [ missing z ↦ nothing z (λ p. omega (arith, l.loses p)) ];
  },
)
del_reply-Removed g k out (some e) db d l =
    let same = entry_del-db (record g { db = db }) e in
    (
      _,
      refl,
      record {
        code = refl;
        kept = record {
          valid = rw same l.valid;
          short = rw same (omega (arith, l.loses too_long, d.short));
        };
        removal = elim l.answer [ found fits among ↦ one e fits (λ p. rw same (l.loses p)) ];
      },
    )

-- `del` on a valid state returns `RES_OK` and keeps the state valid: it takes just one entry with the
-- key out and answers 1, or, exactly if there is none, takes nothing out and answers 0. That holds
-- while the older table has at most `k_resizing_work` entries left.
pub do_del-Removed :
    (g : GlobalData) (cmd : List Bytes) (out : Bytes)
    → IsDb g
    → g.db.ht2.size ≤ k_resizing_work
    → Returns (Removed g (word cmd 1) out) (do_del cmd out g)
unfolding do_del
do_del-Removed g cmd out d few =
    let k = word cmd 1 in
    let ((node, db), run, l) =
      hm_delete-Deleted hcode_of entry_eq (lookup_key k) g.db d.valid few in
    rw run (del_reply-Removed g k out node db d l)
