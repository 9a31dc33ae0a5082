-- ===== src/Db/Destroy.antt =====
-- common.cpp, `threaded_zset_destructor`: the job that a thread of the pool runs for an entry that
-- `entry_del` handed over.
use redis_database_basic_imp.Prelude.{ℕ, Option, none, some, List, []}
use redis_database_basic_imp.Prelude.Run.{Run, ok, ◌>>=◌}
use redis_database_basic_imp.Avl.{Ptr}
use redis_database_basic_imp.Zset.{ZSets}
use redis_database_basic_imp.Zset.Walk.{zset_free}
use redis_database_basic_imp.Db.{Entry}

-- The nodes that are freed, in the order of the calls of `free`, and the entry, which is freed last.
abbrev pub Freed : Type 0
Freed = List Ptr × ℕ

-- `delete ent->zset`
abbrev pub zset_nodes : ℕ → ZSets → Option ℕ → Run (List Ptr)
zset_nodes fuel z none = ok []
zset_nodes fuel z (some set) = zset_free fuel z.store.tnodes (z.sets set) >>= λ (freed, _). ok freed

unfoldable pub threaded_zset_destructor : ℕ → ZSets → Entry → Run Freed
threaded_zset_destructor fuel z ent = zset_nodes fuel z ent.zset >>= λ freed. ok (freed, ent.id)
