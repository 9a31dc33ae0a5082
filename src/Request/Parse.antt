-- ===== src/Request/Parse.antt =====
-- `parse_req` accepts the bodies of the format with at most `k_max_args` arguments, and no others.
use mathlib.Core.List.{append_assoc, append-nil}
use redis_database_basic_imp.Prelude.{
  ℕ, zero, suc, ◌+◌, ◌%◌, ◌^◌, ◌≤◌, ◌<◌, ◌≡◌, refl, ap, ◌∙◌, inl, inr, true, false, Bool-cases,
  List, [], ◌∷◌, ◌++◌, none, some, arith, ltb, ◌==◌, length, length-append, take-length_append,
  drop-length_append,
}
use redis_database_basic_imp.Prelude.Bytes.{Bytes, le32, length-le32, load32-le32}
use redis_database_basic_imp.Prelude.Run.{ok}
use redis_database_basic_imp.Request.{slice, parse_args, parse_req, k_max_args}
use redis_database_basic_imp.Request.Format.{encode_args, encode_body, AreShort, total}

slice-append :
    (pre arg rest : Bytes) (pos : ℕ)
    → pos ≡ length pre
    → slice (pre ++ (arg ++ rest)) pos (length arg) ≡ ok arg
unfolding slice
slice-append pre arg rest pos e =
    let there : ltb (length (pre ++ (arg ++ rest))) (pos + length arg) ≡ false =
      ground (arith, length-append pre (arg ++ rest), length-append arg rest) in
    rw (
      there,
      drop-length_append pre (arg ++ rest) pos 0 (omega arith),
      take-length_append arg rest (length arg) refl,
    )

-- The loop reads the arguments that are left, from where they begin to the end of the body.
parse_args-encode :
    (cmd : List Bytes) (n : ℕ) (pre rest : Bytes) (pos len : ℕ) (done : List Bytes)
    → AreShort cmd
    → n ≡ length cmd
    → pos ≡ length pre
    → len ≡ pos + total cmd
    → parse_args n (pre ++ (encode_args cmd ++ rest)) len pos done ≡ ok (some (done ++ cmd))
unfolding parse_args encode_args
parse_args-encode [] zero pre rest pos len done h en ep el =
    let stop : (pos == len) ≡ true = ground arith in rw (stop, append-nil)
parse_args-encode [] (suc n) pre rest pos len done h en ep el = absurd (omega arith)
parse_args-encode (arg ∷ cmd) zero pre rest pos len done h en ep el = absurd (omega arith)
parse_args-encode (arg ∷ cmd) (suc n) pre rest pos len done h en ep el =
    let lo : ltb len (pos + 4) ≡ false = ground arith in
    let hi : ltb len (pos + 4 + length arg) ≡ false = ground arith in
    let whole : (4 + length arg) % 2 ^ 32 ≡ 4 + length arg = omega arith in
    let tail = encode_args cmd ++ rest in
    let size = le32 (length arg) in
    let split : pre ++ ((size ++ (arg ++ encode_args cmd)) ++ rest)
        ≡ pre ++ (size ++ (arg ++ tail)) =
      simp append_assoc in
    rw
      (
        split,
        lo,
        drop-length_append pre (size ++ (arg ++ tail)) pos 0 (omega arith),
        load32-le32 (length arg) (arg ++ tail) (omega arith),
        hi,
      )
      (rw
        (
          ← append_assoc pre size (arg ++ tail),
          slice-append (pre ++ size) arg tail (pos + 4)
              (omega (arith, length-append pre size, length-le32 (length arg))),
          ← append_assoc (pre ++ size) arg tail,
          whole,
        )
        (parse_args-encode cmd n ((pre ++ size) ++ arg) rest (pos + (4 + length arg)) len
            (done ++ (arg ∷ [])) h.1 (omega arith)
            (omega (
              arith,
              length-append (pre ++ size) arg,
              length-append pre size,
              length-le32 (length arg),
            ))
            (omega arith)
          ∙ ap (λ c. ok (some c)) (append_assoc done (arg ∷ []) cmd)))

-- A body of at most `k_max_args` arguments is parsed back into them, whatever follows it in the
-- buffer, for arguments shorter than 2 GiB.
pub parse_req-encode_body :
    (cmd : List Bytes) (rest : Bytes)
    → AreShort cmd
    → length cmd ≤ k_max_args
    → parse_req (encode_body cmd ++ rest) (4 + total cmd) ≡ ok (some cmd)
unfolding parse_req encode_body
parse_req-encode_body cmd rest h few =
    let n = length cmd in
    let long : ltb (4 + total cmd) 4 ≡ false = ground arith in
    let short : ltb k_max_args n ≡ false = ground arith in
    rw
      (
        long,
        append_assoc (le32 n) (encode_args cmd) rest,
        load32-le32 n (encode_args cmd ++ rest) (omega arith),
        short,
      )
      (parse_args-encode cmd n (le32 n) rest 4 (4 + total cmd) [] h refl
        (omega (arith, length-le32 n)) refl)

-- A body that announces more than `k_max_args` arguments is refused.
pub parse_req-many :
    (cmd : List Bytes) (rest : Bytes) (len : ℕ)
    → k_max_args < length cmd
    → length cmd < 2 ^ 32
    → parse_req (encode_body cmd ++ rest) len ≡ ok none
unfolding parse_req encode_body
parse_req-many cmd rest len many fits = elim (Bool-cases (ltb len 4)) [
  | inl short ↦ rw short
  | inr long ↦
      let n = length cmd in
      let over : ltb k_max_args n ≡ true = ground arith in
      rw (
        long,
        append_assoc (le32 n) (encode_args cmd) rest,
        load32-le32 n (encode_args cmd ++ rest) fits,
        over,
      )
]
