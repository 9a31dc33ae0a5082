-- ===== src/Tests/Databases.antt =====
-- The commands on concrete states.
use redis_database_basic_imp.Prelude.{
  ◌≡◌, zero, suc, inr, none, some, refl, List, [], ◌∷◌, inl, arith, ◌&&◌, ◌==◌, length,
}
use redis_database_basic_imp.Prelude.Bytes.{Bytes}
use redis_database_basic_imp.Prelude.Run.{Returns, ◌>>=◌}
use redis_database_basic_imp.Serialisation.{out_str, out_int, out_dbl}
use redis_database_basic_imp.Connection.{res_ok}
use redis_database_basic_imp.HashTable.{empty_map}
use redis_database_basic_imp.HashTable.Count.{count}
use redis_database_basic_imp.Prelude.Bits.{IsPowTwo, IsPowTwo-one, IsPowTwo-double}
use redis_database_basic_imp.HashTable.Valid.{IsPlaced}
use redis_database_basic_imp.Zset.{empty_set, RawEq}
use redis_database_basic_imp.Db.{
  Entry, hcode_of, str_hash, GlobalData, no_idx, do_get, do_set, do_del,
}
use redis_database_basic_imp.Db.Del.{Removed, do_del-Removed}
use redis_database_basic_imp.Db.Sets.{Stod, do_zadd, do_zscore}
use redis_database_basic_imp.Db.Scores.{do_zadd-do_zscore}
use redis_database_basic_imp.Db.Keys.{IsDb, Got, Stored, do_get-Got, do_set-Stored, do_set-do_get}

abbrev pub no_data : GlobalData
no_data = record {
  db = empty_map;
  heap = record { items = []; idx = λ e. no_idx };
  fresh = 0;
  queued = [];
  freed = [];
  zsets = record {
    sets = λ i. empty_set;
    fresh_set = 0;
    store = record {
      tnodes = λ p. record { depth = 0; count = 0; left = 0; right = 0; parent = 0 };
      znodes = λ p. record { score = 0; name = [] };
      fresh = 1;
    };
  };
}

pub no_data-IsDb : IsDb no_data
unfolding count
no_data-IsDb = record {
  valid = record {
    newer = record { counted = refl; placed = λ i. tt };
    older = record { counted = refl; placed = λ i. tt };
    begun = inl (refl, refl);
    shape = inl refl;
    moved = λ i h. refl;
    room = omega arith;
  };
  short = refl;
}

abbrev pub a : Bytes
a = b'a' ∷ []

abbrev pub b : Bytes
b = b'b' ∷ []

abbrev set_a : List Bytes
set_a = [] ∷ a ∷ b ∷ []

-- The entry of `a`, whose hash code is that of the bucket 0, in a table of four.
abbrev entry_a : Entry
entry_a = record { id = 0; hcode = str_hash a; key = a; val = b; kind = 0; zset = none }

abbrev one_entry : GlobalData
one_entry = record no_data {
  db = record {
    ht1 = record { tab = (entry_a ∷ []) ∷ [] ∷ [] ∷ [] ∷ []; size = 1; mask = 3 };
    ht2 = empty_map.ht2;
    resizing_pos = 0;
  };
  fresh = 1;
}

newer-IsPlaced : IsPlaced hcode_of one_entry.db.ht1
newer-IsPlaced zero = (refl, tt)
newer-IsPlaced (suc zero) = tt
newer-IsPlaced (suc (suc zero)) = tt
newer-IsPlaced (suc (suc (suc zero))) = tt
newer-IsPlaced (suc (suc (suc (suc i)))) = tt

IsPowTwo-four : IsPowTwo 4
IsPowTwo-four = IsPowTwo-double 2 (IsPowTwo-double 1 IsPowTwo-one)

one_entry-IsDb : IsDb one_entry
unfolding count
one_entry-IsDb = record {
  valid = record {
    newer = record { counted = refl; placed = newer-IsPlaced };
    older = record { counted = refl; placed = λ i. tt };
    begun = inr (refl, IsPowTwo-four);
    shape = inl refl;
    moved = λ i h. refl;
    room = omega arith;
  };
  short = refl;
}

do_get-Got_example : Returns (Got one_entry a []) (do_get ([] ∷ a ∷ []) [] one_entry)
do_get-Got_example = do_get-Got one_entry ([] ∷ a ∷ []) [] one_entry-IsDb

do_set-Stored_example :
    Returns
      (λ r. (r.0 ≡ res_ok) × (r.1.0 ≡ out_int [] res_ok) × Stored one_entry a b r.1.1)
      (do_set set_a [] one_entry)
do_set-Stored_example = do_set-Stored one_entry set_a [] one_entry-IsDb (omega arith) (omega arith)

do_set-do_get_example :
    Returns
      (λ r. (r.0 ≡ res_ok) × (r.1.0 ≡ out_str [] b))
      (do_set set_a [] no_data >>= λ s. do_get ([] ∷ a ∷ []) [] s.1.1)
unfolding count
do_set-do_get_example =
    do_set-do_get no_data [] [] a b [] no_data-IsDb refl (omega arith) (omega arith)

do_del-Removed_example : Returns (Removed one_entry a []) (do_del ([] ∷ a ∷ []) [] one_entry)
do_del-Removed_example = do_del-Removed one_entry ([] ∷ a ∷ []) [] one_entry-IsDb (omega arith)

-- A `std::stod` that reads every text as 1.
abbrev one_stod : Stod
one_stod text = some 4607182418800017408

do_zadd-do_zscore_example :
    Returns
      (λ r. (r.0 ≡ res_ok) × (r.1.0 ≡ out_dbl [] 4607182418800017408))
      (do_zadd one_stod 1 ([] ∷ b ∷ a ∷ a ∷ []) [] one_entry >>= λ s.
        do_zscore ([] ∷ b ∷ a ∷ []) [] s.1.1)
unfolding count
do_zadd-do_zscore_example =
    do_zadd-do_zscore one_stod 0 one_entry [] [] b a a [] 4607182418800017408 one_entry-IsDb.valid
      refl (omega arith) refl refl

-- Two nodes are taken for equal if their names are as long, and their scores are the same.
abbrev as_long : RawEq
as_long s lhs rhs =
    (length lhs.name == length rhs.name)
    && ((s.znodes lhs.owner).score == (s.znodes rhs.owner).score)
