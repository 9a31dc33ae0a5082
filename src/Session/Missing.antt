-- ===== src/Session/Missing.antt =====
-- Requests whose reply is not sent: a `get` of a key that is not there, and a request of more than
-- `k_max_args` words, through `send_req` of client.cpp, `one_request` of utils.cpp, and `parse_req` and
-- `do_request` of common.cpp.
use redis_database_basic_imp.Prelude.{
  ℕ, ◌+◌, ◌≤◌, none, ◌<◌, ◌^◌, ◌≡◌, refl, ap, ◌∙◌, false, List, [], ◌∷◌, ◌++◌, some, arith, length,
  ◌==◌,
}
use redis_database_basic_imp.Prelude.Bytes.{Bytes}
use redis_database_basic_imp.Prelude.Run.{Run, ok}
use redis_database_basic_imp.Serialisation.{out_int}
use redis_database_basic_imp.Request.{send_req, k_max_args}
use redis_database_basic_imp.Request.Format.{total, AreShort}
use redis_database_basic_imp.Request.Parse.{parse_req-many}
use redis_database_basic_imp.Connection.{
  Conn, Kernel, state_end, res_ok, res_nx, one_request, run_request,
}
use redis_database_basic_imp.Connection.Frame.{
  frame_of, sent_frame, one_request-parsed, one_request-frame,
}
use redis_database_basic_imp.HashTable.Valid.{nodes}
use redis_database_basic_imp.Db.{GlobalData, Strtoll}
use redis_database_basic_imp.Db.Keys.{IsDb, has_key, do_get-Got, answer_nx}
use redis_database_basic_imp.Zset.{RawEq}
use redis_database_basic_imp.Db.Sets.{Stod, Stoll}
use redis_database_basic_imp.Db.Dispatch.{name_get, do_request}

module _ {W : Type 0} (kernel : Kernel W) (strtoll : Strtoll) (stod : Stod) (stoll : Stoll)
    (raw_eq : RawEq) (zfuel now fuel : ℕ) where
  -- A result other than `RES_OK` marks the connection for deletion, and its reply is dropped.
  refused :
      (do_request : List Bytes → Bytes → GlobalData → Run (ℕ × (Bytes × GlobalData))) (c : Conn)
      (len : ℕ) (cmd : List Bytes) (g : GlobalData) (w : W) (code : ℕ) (out : Bytes)
      (g' : GlobalData)
      → do_request cmd [] g ≡ ok (code, (out, g'))
      → (code == res_ok) ≡ false
      → run_request kernel do_request fuel c len cmd g w
        ≡ ok (false, (record c { state = state_end }, (g', w)))
  unfolding run_request
  refused serve c len cmd g w code out g' run bad = rw (run, bad) refl

  -- Of the frame that `send_req` makes of a `get` of a key that no entry has, `do_request` returns
  -- `RES_NX` with a reply, but `one_request` sends nothing of it: it makes no call of the kernel, and marks
  -- the connection for deletion, whatever is buffered behind the frame.
  pub get_missing-dropped :
      (g : GlobalData) (c : Conn) (w : W) (k frame rest : Bytes)
      → IsDb g
      → nodes (has_key k) g.db ≡ 0
      → length k < 2 ^ 31
      → send_req (name_get ∷ k ∷ []) ≡ some frame
      → c.rbuf ≡ frame ++ rest
      → let serve = do_request strtoll stod stoll raw_eq zfuel now in
        (g' : GlobalData) × (serve (name_get ∷ k ∷ []) [] g ≡ ok (res_nx, (out_int [] res_nx, g')))
        × (one_request kernel serve fuel c g w
            ≡ ok (false, (record c { state = state_end }, (g', w))))
  unfolding do_request
  get_missing-dropped g c w k frame rest d absent short sent buffered =
      let cmd : List Bytes = name_get ∷ k ∷ [] in
      let serve = do_request strtoll stod stoll raw_eq zfuel now in
      let ((code, (out, g')), run, got) = do_get-Got g cmd [] d in
      let (nx, reply) = answer_nx g k [] code out absent got.answer in
      let served : serve cmd [] g ≡ ok (res_nx, (out_int [] res_nx, g')) =
        run ∙ ap (λ x. ok (x, (out, g'))) nx ∙ ap (λ x. ok (res_nx, (x, g'))) reply in
      let (small, is) = sent_frame cmd frame (omega arith, (short, tt)) sent in
      let framed : c.rbuf ≡ frame_of cmd ++ rest = buffered ∙ ap (λ f. f ++ rest) is in
      (
        g',
        served,
        one_request-frame kernel serve fuel c g w cmd rest (omega arith, (short, tt)) (omega arith)
              small framed
            ∙ refused serve c (4 + total cmd) cmd g w res_nx (out_int [] res_nx) g' served refl,
      )

length-total : (cmd : List Bytes) → length cmd ≤ total cmd
length-total [] = omega arith
length-total (arg ∷ cmd) = omega (arith, length-total cmd)

-- The frame that `send_req` makes of a request of more than `k_max_args` words, as `zquery` has them, is
-- refused by `one_request`: the connection is marked for deletion with no call of `do_request` or of the
-- kernel, whatever is buffered behind the frame. The words are shorter than 2 GiB.
pub many_words-refused :
    {W G : Type 0} (kernel : Kernel W) (do_request : List Bytes → Bytes → G → Run (ℕ × (Bytes × G)))
    (fuel : ℕ) (c : Conn) (g : G) (w : W) (cmd : List Bytes) (frame rest : Bytes)
    → AreShort cmd
    → k_max_args < length cmd
    → send_req cmd ≡ some frame
    → c.rbuf ≡ frame ++ rest
    → one_request kernel do_request fuel c g w
      ≡ ok (false, (record c { state = state_end }, (g, w)))
many_words-refused kernel do_request fuel c g w cmd frame rest short many sent buffered =
    let (small, is) = sent_frame cmd frame short sent in
    let framed : c.rbuf ≡ frame_of cmd ++ rest = buffered ∙ ap (λ f. f ++ rest) is in
    one_request-parsed kernel do_request fuel c g w cmd rest none small framed
      (parse_req-many cmd rest (4 + total cmd) many (omega (arith, length-total cmd, small)))
