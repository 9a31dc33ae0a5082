-- ===== src/Session.antt =====
-- A `set` and a `get` of a client through `send_req` of client.cpp, `one_request` of utils.cpp and
-- `do_request` of common.cpp.
pub mod Handler
pub mod Expiry
pub mod Dangling
pub mod Missing
pub mod Remaining
use redis_database_basic_imp.Prelude.{
  ℕ, suc, ◌+◌, ◌≤◌, ◌<◌, ◌≡◌, ◌^◌, refl, sym, ap, ◌∙◌, List, [], ◌∷◌, ◌++◌, some, true, arith,
  length, length-append, Bool,
}
use redis_database_basic_imp.Prelude.Bytes.{Bytes, le32, be64, length-le32}
use redis_database_basic_imp.Prelude.Run.{Run, ok, Returns, ◌>>=◌}
use redis_database_basic_imp.Serialisation.{out_int, out_str}
use redis_database_basic_imp.Request.{send_req, k_max_msg}
use redis_database_basic_imp.Connection.{
  Conn, Kernel, done, would_block, state_req, res_ok, one_request,
}
use redis_database_basic_imp.Connection.Frame.{one_request-send_req}
use redis_database_basic_imp.HashTable.Valid.{nodes}
use redis_database_basic_imp.Db.{GlobalData, Strtoll, Outcome, do_get}
use redis_database_basic_imp.Db.Keys.{IsDb, has_key, do_set-do_get, do_set-Stored}
use redis_database_basic_imp.Zset.{RawEq}
use redis_database_basic_imp.Db.Sets.{Stod, Stoll}
use redis_database_basic_imp.Db.Dispatch.{name_set, name_get, do_request}

-- A kernel that takes every write whole. The last write comes first.
abbrev pub recorder : Kernel (List Bytes)
recorder = record {
  sys_read = λ n w. (would_block, w);
  sys_write = λ bytes w. (done (length bytes), bytes ∷ w);
}

-- The frame of a reply.
abbrev pub reply_frame : Bytes → Bytes
reply_frame out = le32 (length out) ++ out

length-reply_frame : (out : Bytes) → length (reply_frame out) ≡ 4 + length out
length-reply_frame out =
    omega (arith, length-append (le32 (length out)) out, length-le32 (length out))

length-out_str : (v : Bytes) → length (out_str [] v) ≡ 5 + length v
unfolding out_str le32
length-out_str v = omega arith

length-out_int : (n : ℕ) → length (out_int [] n) ≡ 9
unfolding out_int be64
length-out_int n = refl

module _ (strtoll : Strtoll) (stod : Stod) (stoll : Stoll) (raw_eq : RawEq)
    (zfuel now fuel : ℕ) where
  abbrev pub serve : List Bytes → Bytes → GlobalData → Outcome
  serve = do_request strtoll stod stoll raw_eq zfuel now

  -- A round of the server on the next frame in the buffer.
  abbrev pub round :
      Conn → GlobalData → List Bytes → Run (Bool × (Conn × (GlobalData × List Bytes)))
  round c g w = one_request recorder serve (suc fuel) c g w

  takes :
      (out : Bytes) (w : List Bytes)
      → recorder.sys_write (reply_frame out) w ≡ (done (4 + length out), reply_frame out ∷ w)
  takes out w = ap (λ n. (done n, reply_frame out ∷ w)) (length-reply_frame out)

  -- Where no entry has the key, and the map is not full: of the frames that `send_req` makes of a `set` and
  -- of a `get` of the key, one behind the other in the buffer, two calls of `one_request` send back the
  -- reply of the `set` and then the value that was set, for a kernel that takes every write whole, and
  -- leave in the buffer what was behind the frames. The value leaves room for its header in a message.
  pub set_get-served :
      (g : GlobalData) (c : Conn) (w : List Bytes) (k v set_frame get_frame rest : Bytes)
      → IsDb g
      → nodes (has_key k) g.db ≡ 0
      → g.db.ht1.size + g.db.ht2.size + 1 < 2 ^ 64
      → 9 + length v ≤ k_max_msg
      → length k < 2 ^ 31
      → send_req (name_set ∷ k ∷ v ∷ []) ≡ some set_frame
      → send_req (name_get ∷ k ∷ []) ≡ some get_frame
      → c.rbuf ≡ set_frame ++ (get_frame ++ rest)
      → c.wbuf_sent ≡ 0
      → Returns
          (λ r.
            (r.1.1.1 ≡ reply_frame (out_str [] v) ∷ reply_frame (out_int [] res_ok) ∷ w)
            × (r.1.0.rbuf ≡ rest))
          (round c g w >>= λ r. round r.1.0 r.1.1.0 r.1.1.1)
  unfolding do_request
  set_get-served g c w k v set_frame get_frame rest d absent room fits short sent_set sent_get
        buffered idle =
      let set_cmd : List Bytes = name_set ∷ k ∷ v ∷ [] in
      let get_cmd : List Bytes = name_get ∷ k ∷ [] in
      let ((code, (out, g1)), run, (e, f, stored)) =
        do_set-Stored g set_cmd [] d (omega (arith, fits)) room in
      let (r2, both, (e2, f2)) =
        do_set-do_get g name_set name_get k v [] d absent (omega (arith, fits)) room in
      let first : serve set_cmd [] g ≡ ok (res_ok, (out_int [] res_ok, g1)) =
        run ∙ ap (λ x. ok (x, (out, g1))) e ∙ ap (λ x. ok (res_ok, (x, g1))) f in
      let got : do_get get_cmd [] g1 ≡ ok r2 =
        sym (ap (λ m. m >>= λ s. do_get get_cmd [] s.1.1) run) ∙ both in
      let second : serve get_cmd [] g1 ≡ ok (res_ok, (out_str [] v, r2.1.1)) =
        got ∙ ap (λ x. ok (x, r2.1)) e2 ∙ ap (λ x. ok (res_ok, (x, r2.1.1))) f2 in
      let w1 : List Bytes = reply_frame (out_int [] res_ok) ∷ w in
      let c1 : Conn = record c {
        state = state_req;
        rbuf = get_frame ++ rest;
        wbuf = [];
        wbuf_sent = 0;
      } in
      let set_round =
        one_request-send_req recorder serve fuel c g g1 w w1 set_cmd set_frame (get_frame ++ rest)
          (out_int [] res_ok) (omega arith, (short, (omega (arith, fits), tt))) (omega arith)
          sent_set buffered idle first (omega (arith, length-out_int res_ok))
          (takes (out_int [] res_ok) w) in
      let get_round =
        one_request-send_req recorder serve fuel c1 g1 r2.1.1 w1 (reply_frame (out_str [] v) ∷ w1)
          get_cmd get_frame rest (out_str [] v) (omega arith, (short, tt)) (omega arith) sent_get
          refl refl second (omega (arith, length-out_str v, fits)) (takes (out_str [] v) w1) in
      let c2 : Conn = record c1 { state = state_req; rbuf = rest; wbuf = []; wbuf_sent = 0 } in
      (
        (true, (c2, (r2.1.1, reply_frame (out_str [] v) ∷ w1))),
        rw set_round get_round,
        (refl, refl),
      )
