-- ===== src/Db/Dispatch.antt =====
-- common.cpp, `do_request`: which handler a command goes to.
use redis_database_basic_imp.Prelude.{ℕ, Bool, ◌&&◌, List, [], ◌∷◌, ◌==◌, if◌then◌else◌, length}
use redis_database_basic_imp.Prelude.Bytes.{Bytes}
use redis_database_basic_imp.Prelude.Run.{ok}
use redis_database_basic_imp.Connection.{res_err}
use redis_database_basic_imp.Db.{
  GlobalData, Outcome, same_bytes, Strtoll, word, do_get, do_set, do_del, do_keys, do_expire,
  do_ttl,
}
use redis_database_basic_imp.Zset.{RawEq}
use redis_database_basic_imp.Db.Sets.{Stod, Stoll, do_zadd, do_zscore, do_zrem, do_query}

abbrev pub name_keys : Bytes
name_keys = b'k' ∷ b'e' ∷ b'y' ∷ b's' ∷ []

abbrev pub name_get : Bytes
name_get = b'g' ∷ b'e' ∷ b't' ∷ []

abbrev pub name_set : Bytes
name_set = b's' ∷ b'e' ∷ b't' ∷ []

abbrev pub name_del : Bytes
name_del = b'd' ∷ b'e' ∷ b'l' ∷ []

abbrev pub name_zadd : Bytes
name_zadd = b'z' ∷ b'a' ∷ b'd' ∷ b'd' ∷ []

abbrev pub name_zscore : Bytes
name_zscore = b'z' ∷ b's' ∷ b'c' ∷ b'o' ∷ b'r' ∷ b'e' ∷ []

abbrev pub name_zrem : Bytes
name_zrem = b'z' ∷ b'r' ∷ b'e' ∷ b'm' ∷ []

abbrev pub name_zquery : Bytes
name_zquery = b'z' ∷ b'q' ∷ b'u' ∷ b'e' ∷ b'r' ∷ b'y' ∷ []

abbrev pub name_expire : Bytes
name_expire = b'e' ∷ b'x' ∷ b'p' ∷ b'i' ∷ b'r' ∷ b'e' ∷ []

abbrev pub name_ttl : Bytes
name_ttl = b't' ∷ b't' ∷ b'l' ∷ []

-- `cmd[0] == name && cmd.size() == n`
abbrev pub is_command : List Bytes → Bytes → ℕ → Bool
is_command cmd name n = same_bytes (word cmd 0) name && (length cmd == n)

abbrev pub has_name : List Bytes → Bytes → Bool
has_name cmd name = same_bytes (word cmd 0) name

-- `fuel` is for the loops and calls of the commands on sorted sets.
module _ (strtoll : Strtoll) (stod : Stod) (stoll : Stoll) (raw_eq : RawEq) (fuel now : ℕ) where
  abbrev pub dispatch : List Bytes → Bytes → GlobalData → Outcome
  dispatch cmd out g =
      if is_command cmd name_keys 1
      then do_keys cmd out g
      else (if is_command cmd name_get 2
          then do_get cmd out g
          else (if is_command cmd name_set 3
              then do_set cmd out g
              else (if is_command cmd name_del 2
                  then do_del cmd out g
                  else (if has_name cmd name_zadd
                      then do_zadd stod fuel cmd out g
                      else (if has_name cmd name_zscore
                          then do_zscore cmd out g
                          else (if has_name cmd name_zrem
                              then do_zrem raw_eq fuel cmd out g
                              else (if has_name cmd name_zquery
                                  then do_query stod stoll fuel cmd out g
                                  else (if is_command cmd name_expire 3
                                      then do_expire strtoll now cmd out g
                                      else (if is_command cmd name_ttl 2
                                          then do_ttl now cmd out g
                                          else ok (res_err, (out, g)))))))))))

  unfoldable pub do_request : List Bytes → Bytes → GlobalData → Outcome
  do_request [] out g = ok (res_err, (out, g))
  do_request (name ∷ args) out g = dispatch (name ∷ args) out g
