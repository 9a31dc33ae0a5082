-- ===== src/Tests/Sessions.antt =====
-- A `set` and a `get` of the key a, in frames, on an empty map.
use mathlib.Core.Option
use redis_database_basic_imp.Prelude.{◌≡◌, refl, none, some, false, List, [], ◌∷◌, ◌++◌, arith}
use redis_database_basic_imp.Prelude.Bytes.{Bytes, le32}
use redis_database_basic_imp.Prelude.Run.{Returns, ok, ◌>>=◌}
use redis_database_basic_imp.Serialisation.{out_str, out_int}
use redis_database_basic_imp.Request.{frame_len, put_args, send_req}
use redis_database_basic_imp.Connection.{Conn, state_req, state_end, res_ok, res_nx, one_request}
use redis_database_basic_imp.HashTable.Count.{count}
use redis_database_basic_imp.Db.{Strtoll, GlobalData}
use redis_database_basic_imp.Zset.{RawEq}
use redis_database_basic_imp.Db.Sets.{Stod, Stoll}
use redis_database_basic_imp.Db.Dispatch.{name_set, name_get, do_request}
use redis_database_basic_imp.Session.Missing.{get_missing-dropped, many_words-refused}
use redis_database_basic_imp.Session.{recorder, round, reply_frame, set_get-served}
use redis_database_basic_imp.Tests.Databases.{no_data, no_data-IsDb, a, b}

abbrev set_frame : Bytes
set_frame =
    21 ∷ 0 ∷ 0 ∷ 0 ∷ 3 ∷ 0 ∷ 0 ∷ 0 ∷ 3 ∷ 0 ∷ 0 ∷ 0 ∷ b's' ∷ b'e' ∷ b't' ∷ 1 ∷ 0 ∷ 0 ∷ 0 ∷ b'a' ∷ 1
    ∷ 0 ∷ 0 ∷ 0 ∷ b'b' ∷ []

abbrev get_frame : Bytes
get_frame =
    16 ∷ 0 ∷ 0 ∷ 0 ∷ 2 ∷ 0 ∷ 0 ∷ 0 ∷ 3 ∷ 0 ∷ 0 ∷ 0 ∷ b'g' ∷ b'e' ∷ b't' ∷ 1 ∷ 0 ∷ 0 ∷ 0 ∷ b'a' ∷ []

send_set : send_req (name_set ∷ a ∷ b ∷ []) ≡ some set_frame
unfolding send_req frame_len put_args le32 Option.bind
send_set = refl

send_get : send_req (name_get ∷ a ∷ []) ≡ some get_frame
unfolding send_req frame_len put_args le32 Option.bind
send_get = refl

abbrev pub no_strtoll : Strtoll
no_strtoll s = (0, (0, false))

abbrev pub no_stod : Stod
no_stod s = none

abbrev pub no_stoll : Stoll
no_stoll s = none

-- The memory that it reads differs.
abbrev pub no_raw_eq : RawEq
no_raw_eq s lhs rhs = false

-- Both frames are in the buffer.
abbrev filled : Conn
filled = record {
  fd = 5;
  state = state_req;
  rbuf = set_frame ++ get_frame;
  wbuf = [];
  wbuf_sent = 0;
  idle_start = 0;
  idle_list = 2;
}

set_get-served_example :
    Returns
      (λ r.
        (r.1.1.1 ≡ reply_frame (out_str [] b) ∷ reply_frame (out_int [] res_ok) ∷ [])
        × (r.1.0.rbuf ≡ []))
      (round no_strtoll no_stod no_stoll no_raw_eq 0 0 0 filled no_data [] >>= λ r.
        round no_strtoll no_stod no_stoll no_raw_eq 0 0 0 r.1.0 r.1.1.0 r.1.1.1)
unfolding count
set_get-served_example =
    set_get-served no_strtoll no_stod no_stoll no_raw_eq 0 0 0 no_data filled [] a b set_frame
      get_frame [] no_data-IsDb refl (omega arith) (omega arith) (omega arith) send_set send_get
      refl refl

-- The frame of a `get` alone.
abbrev asked : Conn
asked = record filled { rbuf = get_frame }

get_missing-dropped_example :
    (g' : GlobalData) × (do_request no_strtoll no_stod no_stoll no_raw_eq 0 0
        (name_get ∷ a ∷ [])
        []
        no_data
      ≡ ok (res_nx, (out_int [] res_nx, g')))
    × (one_request recorder
          (do_request no_strtoll no_stod no_stoll no_raw_eq 0 0)
          1
          asked
          no_data
          []
        ≡ ok (false, (record asked { state = state_end }, (g', []))))
unfolding count
get_missing-dropped_example =
    get_missing-dropped recorder no_strtoll no_stod no_stoll no_raw_eq 0 0 1 no_data asked [] a
      get_frame [] no_data-IsDb refl (omega arith) send_get refl

-- Five empty words, which are one too many.
abbrev five_words : List Bytes
five_words = [] ∷ [] ∷ [] ∷ [] ∷ [] ∷ []

abbrev five_frame : Bytes
five_frame =
    24 ∷ 0 ∷ 0 ∷ 0 ∷ 5 ∷ 0 ∷ 0 ∷ 0 ∷ 0 ∷ 0 ∷ 0 ∷ 0 ∷ 0 ∷ 0 ∷ 0 ∷ 0 ∷ 0 ∷ 0 ∷ 0 ∷ 0 ∷ 0 ∷ 0 ∷ 0 ∷ 0
    ∷ 0 ∷ 0 ∷ 0 ∷ 0 ∷ []

send_five : send_req five_words ≡ some five_frame
unfolding send_req frame_len put_args le32 Option.bind
send_five = refl

abbrev crowded : Conn
crowded = record filled { rbuf = five_frame }

many_words-refused_example :
    one_request recorder (do_request no_strtoll no_stod no_stoll no_raw_eq 0 0) 1 crowded no_data []
    ≡ ok (false, (record crowded { state = state_end }, (no_data, [])))
many_words-refused_example =
    many_words-refused recorder (do_request no_strtoll no_stod no_stoll no_raw_eq 0 0) 1 crowded
      no_data [] five_words five_frame []
      (omega arith, (omega arith, (omega arith, (omega arith, (omega arith, tt))))) (omega arith)
      send_five refl
