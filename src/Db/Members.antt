-- ===== src/Db/Members.antt =====
-- `zadd`, `zrem` and `zscore`: a set that `zadd` makes, and the removal of its only name.
use redis_database_basic_imp.Prelude.{ℕ, ◌<◌, ◌≡◌, not, ◌&&◌}
use redis_database_basic_imp.Prelude.Bytes.{Bytes}
use redis_database_basic_imp.HashTable.Count.{anything}
use redis_database_basic_imp.HashTable.Valid.{IsValid, nodes}
use redis_database_basic_imp.Avl.{null}
use redis_database_basic_imp.Zset.{HNode}
use redis_database_basic_imp.Db.{GlobalData, hcode_of}
use redis_database_basic_imp.Db.Keys.{has_key}
use redis_database_basic_imp.Db.Scores.{is_set_of}

-- The entries with the key `k`, of which there are some, are the set `i`.
pub record HasSet (g : GlobalData) (k : Bytes) (i : ℕ) : Type 0 where
  pub entries : IsValid hcode_of g.db
  pub some_entry : 0 < nodes (has_key k) g.db
  pub only_entry : nodes (λ e. has_key k e && not (is_set_of i e)) g.db ≡ 0

-- What `zrem` of the only name leaves: the set `i` of the key, empty.
pub record IsEmptied (g : GlobalData) (k : Bytes) : Type 0 where
  pub set : ℕ
  pub keyed : HasSet g k set
  pub tree : (g.zsets.sets set).tree ≡ null
  pub names : IsValid (λ (x : HNode). x.hcode) (g.zsets.sets set).hmap
  pub none_left : nodes anything (g.zsets.sets set).hmap ≡ 0
