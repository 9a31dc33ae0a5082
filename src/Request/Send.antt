-- ===== src/Request/Send.antt =====
-- What `send_req` sends.
use mathlib.Core.List.{append_assoc, append-nil}
use mathlib.Core.Option
use redis_database_basic_imp.Prelude.{
  ℕ, ◌+◌, ◌%◌, ◌^◌, ◌≤◌, ◌≡◌, refl, sym, ap, ◌∙◌, List, [], ◌∷◌, ◌++◌, false, Bool-cases, none,
  some, arith, ltb, leb, if◌then◌else◌, length, length-append, inl, inr, take,
}
use redis_database_basic_imp.Prelude.Bytes.{Bytes, le32, length-le32}
use redis_database_basic_imp.Request.{frame_len, put_args, send_req, k_max_msg}
use redis_database_basic_imp.Request.Format.{
  encode_args, encode_body, AreShort, total, length-encode_args,
}

frame_len-total :
    (len : ℕ) (cmd : List Bytes)
    → AreShort cmd
    → len ≤ k_max_msg
    → frame_len len cmd ≡ (if leb (len + total cmd) k_max_msg then some (len + total cmd) else none)
unfolding frame_len
frame_len-total len [] h l = ground arith
frame_len-total len (arg ∷ cmd) h l =
    let size : length arg % 2 ^ 32 ≡ length arg = omega arith in
    let next : (len + (4 + length arg) % 2 ^ 32) % 2 ^ 32 ≡ len + (4 + length arg) = omega arith in
    rw (size, next) (ground (arith, frame_len-total (len + (4 + length arg)) cmd h.1))

take-length {ℓ} : {A : Type ℓ} (xs : List A) → take (length xs) xs ≡ xs
take-length [] = refl
take-length (x ∷ xs) = ap (◌∷◌ x) (take-length xs)

take-all {ℓ} : {A : Type ℓ} (n : ℕ) (xs : List A) → n ≡ length xs → take n xs ≡ xs
take-all n xs e = rw e (take-length xs)

put_args-encode :
    (cur : ℕ) (wbuf : Bytes) (cmd : List Bytes)
    → AreShort cmd
    → cur + total cmd ≤ 4 + k_max_msg
    → put_args cur wbuf cmd ≡ some (wbuf ++ encode_args cmd)
unfolding put_args encode_args
put_args-encode cur wbuf [] h l = ap some (sym (append-nil wbuf))
put_args-encode cur wbuf (arg ∷ cmd) h l =
    let size : length arg % 2 ^ 32 ≡ length arg = omega arith in
    let fits : ltb (4 + k_max_msg) (cur + 4 + length arg) ≡ false = ground arith in
    rw (size, fits, take-length arg)
      (put_args-encode (cur + (4 + length arg)) _ cmd h.1 (omega arith)
        ∙ ap some (simp append_assoc))

length-le-total : (cmd : List Bytes) → length cmd ≤ total cmd
length-le-total [] = omega arith
length-le-total (arg ∷ cmd) = omega (arith, length-le-total cmd)

-- `send_req` sends the length of the body and the body if the body has at most `k_max_msg` bytes,
-- and sends nothing and returns -1 otherwise, for arguments shorter than 2 GiB.
pub send_req-frame :
    (cmd : List Bytes)
    → AreShort cmd
    → send_req cmd ≡ (
        if leb (4 + total cmd) k_max_msg
        then some (le32 (4 + total cmd) ++ encode_body cmd)
        else none)
unfolding send_req Option.bind encode_body
send_req-frame cmd h = elim (Bool-cases (leb (4 + total cmd) k_max_msg)) [
  | inr no_room ↦ rw (frame_len-total 4 cmd h (omega arith), no_room)
  | inl room ↦
      let few : length cmd % 2 ^ 32 ≡ length cmd = ground (arith, length-le-total cmd) in
      let head = le32 (4 + total cmd) ++ le32 (length cmd) in
      rw
        (
          frame_len-total 4 cmd h (omega arith),
          room,
          few,
          put_args-encode 8 head cmd h (ground arith),
        )
        (ap some (
          take-all (4 + (4 + total cmd)) (head ++ encode_args cmd) (
            omega (
              arith,
              length-append head (encode_args cmd),
              length-append (le32 (4 + total cmd)) (le32 (length cmd)),
              length-le32 (4 + total cmd),
              length-le32 (length cmd),
              length-encode_args cmd,
            ))
          ∙ append_assoc (le32 (4 + total cmd)) (le32 (length cmd)) (encode_args cmd)))
]
