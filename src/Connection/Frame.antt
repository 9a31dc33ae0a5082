-- ===== src/Connection/Frame.antt =====
-- A request that the client frames, through `one_request` and back out as a framed response.
use redis_database_basic_imp.Prelude.{
  ℕ, suc, ◌+◌, ◌-◌, ◌%◌, ◌^◌, ◌≤◌, ◌≡◌, refl, sym, ap, ◌∙◌, inl, inr, true, false, Bool-cases,
  Option, some, List, [], ◌++◌, arith, ltb, leb, ◌==◌, length, length-append, take, drop,
  drop-length_append, take-length_append,
}
use mathlib.Core.List.{append_assoc, append-nil}
use redis_database_basic_imp.Prelude.Bytes.{Bytes, le32, load32, load32-le32, length-le32}
use redis_database_basic_imp.Prelude.Run.{Run, ok}
use redis_database_basic_imp.Request.{send_req, parse_req, slice, k_max_args, k_max_msg}
use redis_database_basic_imp.Request.Format.{encode_body, AreShort, total, length-encode_body}
use redis_database_basic_imp.Request.Parse.{parse_req-encode_body}
use redis_database_basic_imp.Request.Send.{send_req-frame}
use redis_database_basic_imp.Connection.{
  state_req, Conn, buf_cap, done, Kernel, write_retry, try_flush_buffer, stateres, answered,
  run_request, parsed, one_request, res_ok,
}

-- The frame of a request.
abbrev pub frame_of : List Bytes → Bytes
frame_of cmd = le32 (4 + total cmd) ++ encode_body cmd

pub sent_frame :
    (cmd : List Bytes) (frame : Bytes)
    → AreShort cmd
    → send_req cmd ≡ some frame
    → (4 + total cmd ≤ k_max_msg) × (frame ≡ frame_of cmd)
sent_frame cmd frame short sent =
    let e = sym (send_req-frame cmd short) ∙ sent in
    elim (Bool-cases (leb (4 + total cmd) k_max_msg)) [
      | inl fits ↦ let e' = rw fits at e in (ground arith, grind (arith, e'))
      | inr big ↦ let e' = rw big at e in absurd (grind (arith, e'))
    ]

take-all : (xs : Bytes) → take (length xs) xs ≡ xs
take-all xs =
    ap (take (length xs)) (sym (append-nil xs)) ∙ take-length_append xs [] (length xs) refl

whole_slice : (buf : Bytes) (pos : ℕ) → pos ≡ 0 → slice buf pos (length buf - pos) ≡ ok buf
unfolding slice
whole_slice buf pos z =
    let inside : ltb (length buf) (pos + (length buf - pos)) ≡ false = ground arith in
    let size : length buf - pos ≡ length buf = omega arith in
    rw (inside, size, z) (ap ok (take-all buf))

behind :
    (cmd : List Bytes) (rest buf : Bytes)
    → buf ≡ frame_of cmd ++ rest
    → drop (4 + (4 + total cmd)) buf ≡ rest
behind cmd rest buf e = rw e (
    drop-length_append (frame_of cmd) rest (4 + (4 + total cmd)) 0 (
      omega (
        arith,
        length-append (le32 (4 + total cmd)) (encode_body cmd),
        length-le32 (4 + total cmd),
        length-encode_body cmd,
      )))

module _ {W : Type 0} (kernel : Kernel W) where
  -- The kernel takes the whole of `wbuf` at once.
  stateres-all :
      (fuel : ℕ) (c : Conn) (w w' : W)
      → c.wbuf_sent ≡ 0
      → kernel.sys_write c.wbuf w ≡ (done (length c.wbuf), w')
      → stateres kernel (suc fuel) c w
        ≡ ok (record c { state = state_req; wbuf = []; wbuf_sent = 0 }, w')
  unfolding stateres try_flush_buffer write_retry slice
  stateres-all fuel c w w' z takes =
      let n = length c.wbuf in
      let fits : leb (c.wbuf_sent + n) n ≡ true = ground arith in
      let all : (c.wbuf_sent + n == n) ≡ true = ground arith in
      rw (whole_slice c.wbuf c.wbuf_sent z, takes, fits, all) refl

  module _ {G : Type 0} (do_request : List Bytes → Bytes → G → Run (ℕ × (Bytes × G))) where
    -- The frame in the buffer is handed to `parse_req`, and what follows is as it says.
    pub one_request-parsed :
        (fuel : ℕ) (c : Conn) (g : G) (w : W) (cmd : List Bytes) (rest : Bytes)
        (p : Option (List Bytes))
        → 4 + total cmd ≤ k_max_msg
        → c.rbuf ≡ frame_of cmd ++ rest
        → parse_req (encode_body cmd ++ rest) (4 + total cmd) ≡ ok p
        → one_request kernel do_request fuel c g w
          ≡ parsed kernel do_request fuel c (4 + total cmd) g w p
    unfolding one_request
    one_request-parsed fuel c g w cmd rest p fits e parse =
        let n = 4 + total cmd in
        let size : length c.rbuf ≡ 4 + n + length rest = rw e (
          omega (
            arith,
            length-append (frame_of cmd) rest,
            length-append (le32 n) (encode_body cmd),
            length-le32 n,
            length-encode_body cmd,
          )) in
        let long : ltb (length c.rbuf) 4 ≡ false = ground arith in
        let small : ltb k_max_msg n ≡ false = ground arith in
        let whole : ltb (length c.rbuf) (4 + n) ≡ false = ground arith in
        let load : load32 c.rbuf ≡ some n =
          rw (e, append_assoc (le32 n) (encode_body cmd) rest)
            (load32-le32 n (encode_body cmd ++ rest) (omega (arith, fits))) in
        let body : drop 4 c.rbuf ≡ encode_body cmd ++ rest =
          rw (e, append_assoc (le32 n) (encode_body cmd) rest)
            (drop-length_append (le32 n) (encode_body cmd ++ rest) 4 0
              (omega (arith, length-le32 n))) in
        rw (long, load, small, whole, body, parse) refl

    pub one_request-frame :
        (fuel : ℕ) (c : Conn) (g : G) (w : W) (cmd : List Bytes) (rest : Bytes)
        → AreShort cmd
        → length cmd ≤ k_max_args
        → 4 + total cmd ≤ k_max_msg
        → c.rbuf ≡ frame_of cmd ++ rest
        → one_request kernel do_request fuel c g w
          ≡ run_request kernel do_request fuel c (4 + total cmd) cmd g w
    one_request-frame fuel c g w cmd rest short few fits e =
        one_request-parsed fuel c g w cmd rest (some cmd) fits e
          (parse_req-encode_body cmd rest short few)

    run_request-answer :
        (fuel : ℕ) (c : Conn) (g g' : G) (w w' : W) (len : ℕ) (cmd : List Bytes) (out : Bytes)
        → do_request cmd [] g ≡ ok (res_ok, (out, g'))
        → 4 + length out ≤ k_max_msg
        → c.wbuf_sent ≡ 0
        → kernel.sys_write (le32 (length out) ++ out) w ≡ (done (4 + length out), w')
        → run_request kernel do_request (suc fuel) c len cmd g w
          ≡ ok (
            true,
            (
              record c {
                state = state_req;
                rbuf = drop (4 + len) c.rbuf;
                wbuf = [];
                wbuf_sent = 0;
              },
              (g', w'),
            ),
          )
    unfolding run_request
    run_request-answer fuel c g g' w w' len cmd out serves fits idle takes =
        let small : length out % 2 ^ 32 ≡ length out = omega (arith, fits) in
        let within : ltb k_max_msg (4 + length out) ≡ false = ground arith in
        let room : leb (4 + length out) buf_cap ≡ true = ground arith in
        let size : 4 + length out ≡ length (le32 (length out) ++ out) =
          omega (arith, length-append (le32 (length out)) out, length-le32 (length out)) in
        let sent = takes ∙ ap (λ k. (done k, w')) size in
        let flush = stateres-all fuel (answered c len out) w w' idle (
          ap (λ k. kernel.sys_write (le32 k ++ out) w) small
          ∙ sent
          ∙ ap (λ k. (done (length (le32 k ++ out)), w')) (sym small)) in
        rw (serves, within, room, flush) refl

    -- A request that `send_req` frames is decoded and handed to `do_request`, whatever is buffered
    -- behind it, and if that succeeds with a response that fits and the kernel takes the whole frame
    -- of the response, `one_request` has sent that frame and leaves what was behind the request. The
    -- request has at most `k_max_args` arguments shorter than 2 GiB, and no response is pending.
    pub one_request-send_req :
        (fuel : ℕ) (c : Conn) (g g' : G) (w w' : W) (cmd : List Bytes) (frame rest out : Bytes)
        → AreShort cmd
        → length cmd ≤ k_max_args
        → send_req cmd ≡ some frame
        → c.rbuf ≡ frame ++ rest
        → c.wbuf_sent ≡ 0
        → do_request cmd [] g ≡ ok (res_ok, (out, g'))
        → 4 + length out ≤ k_max_msg
        → kernel.sys_write (le32 (length out) ++ out) w ≡ (done (4 + length out), w')
        → one_request kernel do_request (suc fuel) c g w
          ≡ ok (
            true,
            (record c { state = state_req; rbuf = rest; wbuf = []; wbuf_sent = 0 }, (g', w')),
          )
    one_request-send_req fuel c g g' w w' cmd frame rest out short few sent e idle serves fits
          takes =
        let (small, is) = sent_frame cmd frame short sent in
        let framed : c.rbuf ≡ frame_of cmd ++ rest = e ∙ ap (λ f. f ++ rest) is in
        one_request-frame (suc fuel) c g w cmd rest short few small framed
        ∙ run_request-answer fuel c g g' w w' (4 + total cmd) cmd out serves fits idle takes
        ∙ ap
            (λ r. ok (
              true,
              (record c { state = state_req; rbuf = r; wbuf = []; wbuf_sent = 0 }, (g', w')),
            ))
            (behind cmd rest c.rbuf framed)
