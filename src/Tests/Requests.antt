-- ===== src/Tests/Requests.antt =====
-- The request format at a concrete command.
use redis_database_basic_imp.Prelude.{
  ◌+◌, ◌≡◌, refl, List, [], ◌∷◌, ◌++◌, none, some, arith, leb, if◌then◌else◌,
}
use redis_database_basic_imp.Prelude.Bytes.{Bytes, le32}
use redis_database_basic_imp.Prelude.Run.{ok, Returns}
use redis_database_basic_imp.Request.{parse_req, send_req, k_max_msg}
use redis_database_basic_imp.Request.Format.{encode_body, total}
use redis_database_basic_imp.Request.Parse.{parse_req-encode_body}
use redis_database_basic_imp.Request.Send.{send_req-frame}
use redis_database_basic_imp.Request.Sound.{IsParsed, parse_req-IsParsed}

-- `get a`
abbrev get_a : List Bytes
get_a = (b'g' ∷ b'e' ∷ b't' ∷ []) ∷ (b'a' ∷ []) ∷ []

abbrev get_a_bytes : Bytes
get_a_bytes = 2 ∷ 0 ∷ 0 ∷ 0 ∷ 3 ∷ 0 ∷ 0 ∷ 0 ∷ b'g' ∷ b'e' ∷ b't' ∷ 1 ∷ 0 ∷ 0 ∷ 0 ∷ b'a' ∷ []

encode_get_a : encode_body get_a ≡ get_a_bytes
unfolding encode_body le32
encode_get_a = refl

parse_req-encode_body_example :
    parse_req (encode_body get_a ++ (7 ∷ [])) (4 + total get_a) ≡ ok (some get_a)
parse_req-encode_body_example = parse_req-encode_body get_a (7 ∷ []) (omega arith) (omega arith)

-- `zquery` with its five arguments.

send_req-frame_example : send_req get_a ≡ (
    if leb (4 + total get_a) k_max_msg
    then some (le32 (4 + total get_a) ++ encode_body get_a)
    else none)
send_req-frame_example = send_req-frame get_a (omega arith)

parse_req-IsParsed_example : Returns (IsParsed get_a_bytes 16) (parse_req get_a_bytes 16)
parse_req-IsParsed_example =
    parse_req-IsParsed get_a_bytes 16 (omega arith) (omega arith) (omega arith)
