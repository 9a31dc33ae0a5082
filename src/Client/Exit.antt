-- ===== src/Client/Exit.antt =====
-- How `main` of the client ends when the server answers.
use mathlib.Core.Path.{subst}
use redis_database_basic_imp.Prelude.{
  ℕ, suc, ◌%◌, ◌^◌, ◌≤◌, ◌<◌, ◌≡◌, refl, sym, ap, ◌∙◌, inl, inr, ◌⊎◌, false, Option, none, some,
  Option-cases, List, [], ◌∷◌, ◌++◌, arith, ◌==◌, length, take, take-length_append, drop,
  drop-length_append,
}
use redis_database_basic_imp.Prelude.Bytes.{Bytes, le32, load32, length-le32, load32-le32}
use redis_database_basic_imp.Prelude.Run.{ok, Returns, Returns-bind}
use redis_database_basic_imp.Request.{send_req, k_max_msg}
use redis_database_basic_imp.Connection.{Kernel}
use redis_database_basic_imp.Connection.Step.{IsKernel}
use redis_database_basic_imp.SocketIo.{write_all}
use redis_database_basic_imp.SocketIo.Whole.{IsFront, IsResponse, read_resp-IsResponse}
use redis_database_basic_imp.SocketIo.Sent.{IsSocket, IsWritten, write_all-IsWritten}
use redis_database_basic_imp.Client.{Response}
use redis_database_basic_imp.Client.Replies.{
  Item, IsSmall, write_item, shown, on_response-write_item,
}
use redis_database_basic_imp.Client.Main.{
  Exit, exit_code, response_of, read_response, after_send, client_main,
}

-- The front of a stream is the frame of one body only.
frame_body :
    (a b s t : Bytes)
    → le32 (length a) ++ (a ++ s) ≡ le32 (length b) ++ (b ++ t)
    → length a ≤ k_max_msg
    → length b ≤ k_max_msg
    → a ≡ b
frame_body a b s t e ha hb =
    let la = load32-le32 (length a) (a ++ s) (omega (arith, ha)) in
    let lb = load32-le32 (length b) (b ++ t) (omega (arith, hb)) in
    let same : some (length a) ≡ some (length b) = sym la ∙ ap load32 e ∙ lb in
    let size : length a ≡ length b = grind arith in
    let behind : (x : Bytes) (n : ℕ) → drop 4 (le32 n ++ x) ≡ x =
      λ x n. drop-length_append (le32 n) x 4 0 (omega (arith, length-le32 n)) in
    let bodies : a ++ s ≡ b ++ t =
      sym (behind (a ++ s) (length a)) ∙ ap (drop 4) e ∙ behind (b ++ t) (length b) in
    sym (take-length_append a s (length a) refl)
    ∙ ap (take (length a)) bodies
    ∙ take-length_append b t (length a) size

module _ {W : Type 0} (kernel : Kernel W) (budget : W → ℕ) (law : IsKernel kernel budget)
    (sent stream : W → Bytes) (socket : IsSocket kernel sent stream)
    (in_order : (cap : ℕ) (w : W)
      → let r = kernel.sys_read cap w in IsFront (stream w) r.0 (stream r.1))
    (behind : ℕ → Bytes) (fuel depth : ℕ) where
  -- Nothing, or the item.
  abbrev IsShown : Item → Response × W → Type 0
  IsShown i r = (exit_code r.0.rv ≡ 1) × ((r.0.printed ≡ []) ⊎ (r.0.printed ≡ shown i ∷ []))

  response_of-IsShown :
      (s : Bytes) (i : Item) (rest : Bytes) (r : Option Bytes × W)
      → IsSmall i
      → length (write_item [] i) ≤ k_max_msg
      → s ≡ le32 (length (write_item [] i)) ++ (write_item [] i ++ rest)
      → IsResponse kernel budget law stream in_order s r
      → Returns (IsShown i) (response_of kernel behind fuel (suc depth) r)
  response_of-IsShown s i rest (none, w) small fits front h = (_, refl, (refl, inl refl))
  response_of-IsShown s i rest (some body, w) small fits front h =
      let out = write_item [] i in
      let z : body ≡ out = frame_body body out (stream w) rest (sym h.0 ∙ front) h.2 fits in
      let size : 1 ≤ length out = subst (λ x. 1 ≤ length x) z h.1 in
      let code : (length out % 2 ^ 32 == 0) ≡ false = ground (arith, size, fits) in
      let answered =
        on_response-write_item i depth (behind (length out)) (length out) small (omega arith) in
      let found : Response = record { rv = some (length out); printed = shown i ∷ [] } in
      ((found, w), rw (z, answered) refl, (rw code refl, inr refl))

  read_response-IsShown :
      (w : W) (i : Item) (rest : Bytes)
      → IsSmall i
      → length (write_item [] i) ≤ k_max_msg
      → stream w ≡ le32 (length (write_item [] i)) ++ (write_item [] i ++ rest)
      → budget w < fuel
      → Returns (IsShown i) (read_response kernel behind fuel (suc depth) w)
  unfolding read_response
  read_response-IsShown w i rest small fits front few =
      Returns-bind (read_resp-IsResponse kernel budget law stream in_order fuel w few)
        λ r h. response_of-IsShown (stream w) i rest r small fits front h

  -- What `client_main` ends in: the exit code 1, and nothing printed, or the item, after the frame of
  -- the command was sent.
  abbrev pub IsRefused : List Bytes → W → Item → Exit × W → Type 0
  IsRefused cmd w i r =
      (r.0.code ≡ 1)
      × ((r.0.lines ≡ [])
          ⊎ ((r.0.lines ≡ shown i ∷ [])
              × ((frame : Bytes) × (w' : W) × (send_req cmd ≡ some frame)
                  × (write_all kernel fuel frame w ≡ ok (some tt, w'))
                  × (sent w' ≡ sent w ++ frame))))

  sent-IsRefused :
      (cmd : List Bytes) (frame : Bytes) (w : W) (i : Item) (rest : Bytes)
      (a : Option (Unit {0}) × W)
      → send_req cmd ≡ some frame
      → IsSmall i
      → length (write_item [] i) ≤ k_max_msg
      → stream w ≡ le32 (length (write_item [] i)) ++ (write_item [] i ++ rest)
      → budget w < fuel
      → write_all kernel fuel frame w ≡ ok a
      → IsWritten kernel budget law sent stream socket (budget w) frame (sent w) (stream w) a
      → Returns (IsRefused cmd w i) (after_send kernel behind fuel (suc depth) a)
  sent-IsRefused cmd frame w i rest (none, w') framed small fits front few run p =
      (_, refl, (refl, inl refl))
  sent-IsRefused cmd frame w i rest (some x, w') framed small fits front few run p =
      Returns-bind
        (read_response-IsShown w' i rest small fits (p.apart ∙ front) (omega (arith, p.less, few)))
        λ r h. (
          _,
          refl,
          (
            h.0,
            elim h.1 [
              | inl none_shown ↦ inl none_shown
              | inr one ↦ inr (one, (frame, w', framed, run, p.whole refl))
            ],
          ),
        )

  -- Where the answer of the server is a value that the client reads back, in a frame at the front of
  -- what is to be read, `main` of the client ends, and with the exit code 1, as if it had failed: also
  -- when it sent the frame of the command whole and printed the value. That holds for a kernel within
  -- its bounds that gives the bytes in order, with fuel above the calls that it lets make progress.
  pub client_main-IsRefused :
      (cmd : List Bytes) (w : W) (i : Item) (rest : Bytes)
      → IsSmall i
      → length (write_item [] i) ≤ k_max_msg
      → stream w ≡ le32 (length (write_item [] i)) ++ (write_item [] i ++ rest)
      → budget w < fuel
      → Returns (IsRefused cmd w i) (client_main kernel behind fuel (suc depth) cmd w)
  unfolding client_main
  client_main-IsRefused cmd w i rest small fits front few = elim (Option-cases (send_req cmd)) [
    | inl long ↦ ((record { code = 1; lines = [] }, w), rw long refl, (refl, inl refl))
    | inr (frame, framed) ↦
        let (a, run, p) =
          write_all-IsWritten kernel budget law sent stream socket fuel frame w few in
        let (r, ran, k) = sent-IsRefused cmd frame w i rest a framed small fits front few run p in
        (r, rw (framed, run) ran, k)
  ]
