-- ===== src/SocketIo/Whole.antt =====
-- `read_full` and `read_resp`: they end, and what they return is the next bytes of the stream.
use mathlib.Core.List.{append_assoc, append-nil}
use redis_database_basic_imp.Prelude.{
  ℕ, zero, suc, ◌+◌, ◌-◌, ◌≤◌, ◌<◌, ◌≡◌, refl, sym, ap, ◌∙◌, inl, inr, true, Bool-cases, Option,
  none, some, [], ◌∷◌, ◌++◌, arith, ltb, leb, ◌==◌, length, length-append, take, take-length_append,
}
use redis_database_basic_imp.Prelude.Bytes.{Bytes, le32}
use redis_database_basic_imp.Prelude.Run.{Run, Returns}
use redis_database_basic_imp.Request.{k_max_msg}
use redis_database_basic_imp.Request.Sound.{AreBytes, load32-some}
use redis_database_basic_imp.Connection.{Io, done, interrupted, would_block, failed, Kernel}
use redis_database_basic_imp.Connection.Step.{HasRead, IsKernel}
use redis_database_basic_imp.Connection.Request.{All-append}
use redis_database_basic_imp.SocketIo.{read_next, read_full, read_resp, read_body, checked}

-- What a `read` returns is the front of the stream, and any other end of the call leaves the stream.
abbrev pub IsFront : Bytes → Io Bytes → Bytes → Type 0
IsFront s (done bs) s' = s ≡ bs ++ s'
IsFront s interrupted s' = s' ≡ s
IsFront s would_block s' = Unit
IsFront s failed s' = Unit

pub take-length : (xs : Bytes) → take (length xs) xs ≡ xs
take-length xs =
    ap (take (length xs)) (sym (append-nil xs)) ∙ take-length_append xs [] (length xs) refl

head_is : (xs : Bytes) (n : ℕ) → length xs ≡ 4 → take 4 xs ≡ le32 n → xs ≡ le32 n
head_is xs n size four = sym (take-length xs) ∙ ap (λ k. take k xs) size ∙ four

module _ {W : Type 0} (kernel : Kernel W) (budget : W → ℕ) (law : IsKernel kernel budget)
    (stream : W → Bytes)
    (in_order : (cap : ℕ) (w : W)
      → let r = kernel.sys_read cap w in IsFront (stream w) r.0 (stream r.1)) where
  -- The bytes `buf` and the next `len` of the stream `s`, where the call succeeds.
  abbrev pub IsWhole : ℕ → Bytes → ℕ → Bytes → Option Bytes × W → Type 0
  IsWhole b buf len s (none, w) = budget w ≤ b
  IsWhole b buf len s (some bs, w) =
      (budget w ≤ b) × AreBytes bs × (length bs ≡ length buf + len) × (buf ++ s ≡ bs ++ stream w)

  IsWhole-push :
      (b len : ℕ) (buf got s : Bytes) (w : W) (r : Option Bytes × W)
      → s ≡ got ++ stream w
      → length got ≤ len
      → IsWhole b (buf ++ got) (len - length got) (stream w) r
      → IsWhole b buf len s r
  IsWhole-push b len buf got s w (none, w') f l p = p
  IsWhole-push b len buf got s w (some bs, w') f l (less, bytes, size, front) = (
    less,
    bytes,
    omega (arith, size, l, length-append buf got),
    ap (λ t. buf ++ t) f ∙ sym (append_assoc buf got (stream w)) ∙ front,
  )

  IsWhole-later :
      (b c : ℕ) (buf : Bytes) (len : ℕ) (s : Bytes) (r : Option Bytes × W)
      → b ≤ c
      → IsWhole b buf len s r
      → IsWhole c buf len s r
  IsWhole-later b c buf len s (none, w) l p = omega (arith, l, p)
  IsWhole-later b c buf len s (some bs, w) l (less, bytes, size, front) =
      (omega (arith, l, less), bytes, size, front)

  read_next-IsWhole :
      (loop : Bytes → ℕ → W → Run (Option Bytes × W)) (b : ℕ) (buf : Bytes) (len : ℕ) (s : Bytes)
      (r : Io Bytes × W)
      → ((buf' : Bytes) (len' : ℕ) (w : W)
          → AreBytes buf'
          → budget w < b
          → Returns (IsWhole b buf' len' (stream w)) (loop buf' len' w))
      → AreBytes buf
      → HasRead len b r.0 (budget r.1)
      → IsFront s r.0 (stream r.1)
      → Returns (IsWhole b buf len s) (read_next kernel loop buf len r)
  read_next-IsWhole loop b buf len s (done [], w) ih bytes h f =
      ((none, w), refl, omega (arith, h.2))
  read_next-IsWhole loop b buf len s (would_block, w) ih bytes h f = ((none, w), refl, h)
  read_next-IsWhole loop b buf len s (failed, w) ih bytes h f = ((none, w), refl, h)
  read_next-IsWhole loop b buf len s (interrupted, w) ih bytes h f =
      rw (sym f) (ih buf len w bytes h)
  read_next-IsWhole loop b buf len s (done (x ∷ xs), w) ih bytes h f =
      let fits : leb (length (x ∷ xs)) len ≡ true = ground (arith, h.0) in
      let (r, run, p) =
        ih (buf ++ (x ∷ xs)) (len - length (x ∷ xs)) w
          (All-append (λ b. b < 256) buf (x ∷ xs) bytes h.1) h.2 in
      (r, rw (fits, run) refl, IsWhole-push b len buf (x ∷ xs) s w r f h.0 p)

  read_full-IsWhole :
      (fuel : ℕ) (buf : Bytes) (len : ℕ) (w : W)
      → AreBytes buf
      → budget w < fuel
      → Returns (IsWhole (budget w) buf len (stream w)) (read_full kernel fuel buf len w)
  unfolding read_full
  read_full-IsWhole zero buf len w bytes l = absurd (omega (arith, l))
  read_full-IsWhole (suc fuel) buf len w bytes l = elim (Bool-cases (len == 0)) [
    | inl stop ↦
        let z : len ≡ 0 = ground arith in
        ((some buf, w), rw stop refl, (omega arith, bytes, omega (arith, z), refl))
    | inr more ↦
        let next =
          read_next-IsWhole (read_full kernel fuel) (budget w) buf len (stream w)
            (kernel.sys_read len w)
            (λ buf' len' w' bytes' l'.
              let (r, run, p) = read_full-IsWhole fuel buf' len' w' bytes' (omega (arith, l, l')) in
              (
                r,
                run,
                IsWhole-later (budget w') (budget w) buf' len' (stream w') r (omega (arith, l')) p,
              ))
            bytes (law.read_law len w) (in_order len w) in
        rw more next
  ]

  -- What `read_resp` returns of the stream `s`: the body of the frame at its front.
  abbrev pub IsResponse : Bytes → Option Bytes × W → Type 0
  IsResponse s (none, w) = Unit
  IsResponse s (some body, w) =
      (s ≡ le32 (length body) ++ (body ++ stream w)) × (1 ≤ length body) × (length body ≤ k_max_msg)

  checked-IsResponse :
      (s : Bytes) (w : W) (len b : ℕ) (r : Option Bytes × W)
      → s ≡ le32 len ++ stream w
      → len ≤ k_max_msg
      → IsWhole b [] len (stream w) r
      → Returns (IsResponse s) (checked kernel r)
  checked-IsResponse s w len b (none, w') e l p = (_, refl, tt)
  checked-IsResponse s w len b (some body, w') e l (less, bytes, size, front) =
      elim (Bool-cases (ltb (length body) 1)) [
        | inl empty ↦ ((none, w'), rw empty refl, tt)
        | inr full ↦ (
          (some body, w'),
          rw full refl,
          (
            e
                ∙ ap (λ n. le32 n ++ stream w) (omega (arith, size))
                ∙ ap (λ t. le32 (length body) ++ t) front,
            ground arith,
            omega (arith, size, l),
          ),
        )
      ]

  read_body-IsResponse :
      (fuel b : ℕ) (s : Bytes) (r : Option Bytes × W)
      → b < fuel
      → IsWhole b [] 4 s r
      → Returns (IsResponse s) (read_body kernel fuel r)
  read_body-IsResponse fuel b s (none, w) l p = (_, refl, tt)
  read_body-IsResponse fuel b s (some head, w) l (less, bytes, size, front) =
      let (len, load, four, small) = load32-some head bytes (omega (arith, size)) in
      elim (Bool-cases (ltb k_max_msg len)) [
        | inl big ↦ ((none, w), rw (load, big) refl, tt)
        | inr fits ↦
            let e : s ≡ le32 len ++ stream w =
              front ∙ ap (λ h. h ++ stream w) (head_is head len (omega (arith, size)) four) in
            let (r, run, p) = read_full-IsWhole fuel [] len w tt (omega (arith, l, less)) in
            let (r', run', q) = checked-IsResponse s w len (budget w) r e (ground arith) p in
            (r', rw (load, fits, run) run', q)
      ]

  -- `read_resp` ends within the calls that the kernel answers, and a response that it returns is the
  -- body of the frame at the front of the stream, whole, not empty and at most `k_max_msg` bytes, for
  -- a kernel within its bounds that gives the bytes of the stream in order.
  pub read_resp-IsResponse :
      (fuel : ℕ) (w : W)
      → budget w < fuel
      → Returns (IsResponse (stream w)) (read_resp kernel fuel w)
  unfolding read_resp
  read_resp-IsResponse fuel w l =
      let (r, run, p) = read_full-IsWhole fuel [] 4 w tt l in
      rw run (read_body-IsResponse fuel (budget w) (stream w) r l p)
