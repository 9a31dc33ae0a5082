-- ===== src/Request/Sound.antt =====
-- `parse_req` never reads outside the request, and what it accepts is the format.
use mathlib.Core.List.{append_assoc, append-nil}
use redis_database_basic_imp.Prelude.{
  ℕ, zero, suc, ◌+◌, ◌*◌, ◌%◌, ◌^◌, ◌≤◌, ◌<◌, ◌≡◌, refl, sym, ap, ◌∙◌, inl, inr, false, Bool-cases,
  List, [], ◌∷◌, ◌++◌, Option, none, some, arith, ltb, ◌==◌, length, length-append, length-take,
  length-drop, take, drop, All,
}
use redis_database_basic_imp.Prelude.Bytes.{Bytes, le32, load32}
use redis_database_basic_imp.Prelude.Run.{ok, Returns}
use redis_database_basic_imp.Request.{slice, parse_args, parse_req, k_max_args}
use redis_database_basic_imp.Request.Format.{encode_args, encode_body}

abbrev pub AreBytes : Bytes → Type 0
AreBytes = All (λ b. b < 256)

take-nil {ℓ} : (A : Type ℓ) (n : ℕ) → take {A = A} n [] ≡ []
take-nil A zero = refl
take-nil A (suc n) = refl

drop-nil {ℓ} : (A : Type ℓ) (n : ℕ) → drop {A = A} n [] ≡ []
drop-nil A zero = refl
drop-nil A (suc n) = refl

module _ {ℓ} {A : Type ℓ} where
  take-add : (m n : ℕ) (xs : List A) → take (m + n) xs ≡ take m xs ++ take n (drop m xs)
  take-add zero n xs = ap (λ k. take k xs) (omega arith)
  take-add (suc m) n [] = simp take-nil
  take-add (suc m) n (x ∷ xs) =
      let e : suc m + n ≡ suc (m + n) = omega arith in rw e (ap (◌∷◌ x) (take-add m n xs))

  drop-add : (m n : ℕ) (xs : List A) → drop (m + n) xs ≡ drop n (drop m xs)
  drop-add zero n xs = ap (λ k. drop k xs) (omega arith)
  drop-add (suc m) n [] = simp drop-nil
  drop-add (suc m) n (x ∷ xs) =
      let e : suc m + n ≡ suc (m + n) = omega arith in rw e (drop-add m n xs)

  pub All-drop {κ} : (P : A → Type κ) (n : ℕ) (xs : List A) → All P xs → All P (drop n xs)
  All-drop P zero xs h = h
  All-drop P (suc n) [] h = tt
  All-drop P (suc n) (x ∷ xs) h = All-drop P n xs h.1

-- Four bytes are there, and they are the format of the number that they make.
pub load32-some :
    (xs : Bytes)
    → AreBytes xs
    → 4 ≤ length xs
    → (a : ℕ) × (load32 xs ≡ some a) × (take 4 xs ≡ le32 a) × (a < 2 ^ 32)
unfolding load32 le32
load32-some [] b h = absurd (omega arith)
load32-some (x ∷ []) b h = absurd (omega arith)
load32-some (x ∷ y ∷ []) b h = absurd (omega arith)
load32-some (x ∷ y ∷ z ∷ []) b h = absurd (omega arith)
load32-some (x ∷ y ∷ z ∷ w ∷ rest) b h =
    (x + 256 * y + 65536 * z + 16777216 * w, refl, ground arith, omega arith)

encode_args-append :
    (cmd : List Bytes) (arg : Bytes)
    → encode_args (cmd ++ (arg ∷ [])) ≡ encode_args cmd ++ (le32 (length arg) ++ arg)
unfolding encode_args
encode_args-append [] arg = ap (◌++◌ (le32 (length arg))) (append-nil arg)
encode_args-append (x ∷ cmd) arg = simp (encode_args-append cmd arg, append_assoc)

-- What the parser may answer: a refusal, or the arguments of the body that it read.
abbrev pub IsParsed : Bytes → ℕ → Option (List Bytes) → Type 0
IsParsed mem len none = Unit
IsParsed mem len (some cmd) = (take len mem ≡ encode_body cmd) × (length cmd ≤ k_max_args)

module _ (mem : Bytes) (len : ℕ) (bytes : AreBytes mem) (inside : len ≤ length mem)
    (narrow : len < 2 ^ 32) where
  -- The argument of `a` bytes behind the length at `pos`.
  abbrev arg_at : ℕ → ℕ → Bytes
  arg_at pos a = take a (drop (pos + 4) mem)

  length-arg_at : (pos a : ℕ) → pos + 4 + a ≤ length mem → length (arg_at pos a) ≡ a
  length-arg_at pos a h =
      omega (arith, length-take a (drop (pos + 4) mem), length-drop (pos + 4) mem)

  slice-arg_at : (pos a : ℕ) → pos + 4 + a ≤ length mem → slice mem (pos + 4) a ≡ ok (arg_at pos a)
  unfolding slice
  slice-arg_at pos a h =
      let there : ltb (length mem) (pos + 4 + a) ≡ false = ground arith in rw there

  length-push :
      (n : ℕ) (cmd : List Bytes) (arg : Bytes) → n + length (cmd ++ (arg ∷ [])) ≡ suc n + length cmd
  length-push n cmd arg = omega (arith, length-append cmd (arg ∷ []))

  read_arg :
      (n pos a : ℕ) (cmd : List Bytes)
      → pos + 4 + a ≤ length mem
      → take 4 (drop pos mem) ≡ le32 a
      → take pos mem ≡ le32 (suc n + length cmd) ++ encode_args cmd
      → take (pos + (4 + a)) mem
        ≡ le32 (n + length (cmd ++ (arg_at pos a ∷ []))) ++ encode_args (cmd ++ (arg_at pos a ∷ []))
  read_arg n pos a cmd h four e =
      let last : take (4 + a) (drop pos mem) ≡ le32 a ++ arg_at pos a =
        take-add 4 a (drop pos mem)
        ∙ ap (λ t. t ++ take a (drop 4 (drop pos mem))) four
        ∙ ap (λ d. le32 a ++ take a d) (sym (drop-add pos 4 mem)) in
      rw
        (
          length-push n cmd (arg_at pos a),
          encode_args-append cmd (arg_at pos a),
          length-arg_at pos a h,
          take-add pos (4 + a) mem,
          e,
          last,
        )
        (append_assoc (le32 (suc n + length cmd)) (encode_args cmd) (le32 a ++ arg_at pos a))

  -- The arguments from `pos` on, `n` of them, follow those of `cmd`.
  parse_args-IsParsed :
      (n pos : ℕ) (cmd : List Bytes)
      → pos ≤ len
      → n + length cmd ≤ k_max_args
      → take pos mem ≡ le32 (n + length cmd) ++ encode_args cmd
      → Returns (IsParsed mem len) (parse_args n mem len pos cmd)
  unfolding parse_args encode_body
  parse_args-IsParsed zero pos cmd l few e = elim (Bool-cases (pos == len)) [
    | inr n ↦ (none, rw n, tt)
    | inl y ↦
        let at_end : len ≡ pos = ground arith in
        let count : 0 + length cmd ≡ length cmd = omega arith in
        (some cmd, rw y, (rw at_end (rw count at e), omega arith))
  ]
  parse_args-IsParsed (suc n) pos cmd l few e = elim (Bool-cases (ltb len (pos + 4))) [
    | inl short ↦ (none, rw short, tt)
    | inr room ↦
        let (a, load, four, small) =
          load32-some (drop pos mem) (All-drop (λ b. b < 256) pos mem bytes)
            (ground (arith, length-drop pos mem)) in
        elim (Bool-cases (ltb len (pos + 4 + a))) [
          | inl short ↦ (none, rw (room, load, short), tt)
          | inr fits ↦
              let asked : pos + 4 + a ≤ len = ground arith in
              let held : pos + 4 + a ≤ length mem = omega arith in
              let whole : (4 + a) % 2 ^ 32 ≡ 4 + a = omega (arith, asked, narrow) in
              let arg = arg_at pos a in
              let (r, run, p) =
                parse_args-IsParsed n (pos + (4 + a)) (cmd ++ (arg ∷ [])) (ground arith)
                  (omega (arith, length-push n cmd arg)) (read_arg n pos a cmd held four e) in
              (r, rw (room, load, fits, slice-arg_at pos a held, whole) run, p)
        ]
  ]

  -- On `len` bytes that are there, fewer than 2^32, `parse_req` returns and reads nothing outside them, and where it
  -- succeeds those `len` bytes are the body of the arguments that it returns, at most `k_max_args`.
  pub parse_req-IsParsed : Returns (IsParsed mem len) (parse_req mem len)
  unfolding parse_req encode_args
  parse_req-IsParsed = elim (Bool-cases (ltb len 4)) [
    | inl short ↦ (none, rw short, tt)
    | inr long ↦
        let (n, load, four, small) = load32-some mem bytes (ground arith) in
        elim (Bool-cases (ltb k_max_args n)) [
          | inl many ↦ (none, rw (long, load, many), tt)
          | inr few ↦
              let none_yet : n + 0 ≡ n = omega arith in
              let (r, run, p) =
                parse_args-IsParsed n 4 [] (ground arith) (ground arith)
                  (rw (none_yet, append-nil) four) in
              (r, rw (long, load, few) run, p)
        ]
  ]
