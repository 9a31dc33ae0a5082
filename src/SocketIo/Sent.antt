-- ===== src/SocketIo/Sent.antt =====
-- `write_all`: it ends, and it sends all of its bytes in order or fails.
use mathlib.Core.List.{append_assoc, append-nil}
use redis_database_basic_imp.Prelude.{
  ℕ, zero, suc, ◌≤◌, ◌<◌, ◌≡◌, refl, sym, ap, ◌∙◌, inl, inr, true, Bool-cases, Option, none, some,
  [], ◌∷◌, ◌++◌, arith, leb, ◌==◌, length, take, drop, take-append-drop,
}
use redis_database_basic_imp.Prelude.Bytes.{Bytes}
use redis_database_basic_imp.Prelude.Run.{Run, Returns}
use redis_database_basic_imp.Connection.{Io, done, interrupted, would_block, failed, Kernel}
use redis_database_basic_imp.Connection.Step.{HasWritten, IsKernel}
use redis_database_basic_imp.SocketIo.{write_next, write_all}

-- What a `write` of `buf` adds to the bytes that were sent.
abbrev pub IsSent : Bytes → Bytes → Io ℕ → Bytes → Type 0
IsSent buf s (done n) s' = s' ≡ s ++ take n buf
IsSent buf s interrupted s' = s' ≡ s
IsSent buf s would_block s' = Unit
IsSent buf s failed s' = Unit

-- The bytes that were sent, and those that are to be read, which no `write` changes.
pub record IsSocket {W : Type 0} (kernel : Kernel W) (sent stream : W → Bytes) : Type 0 where
  pub in_order :
      (buf : Bytes) (w : W) → let r = kernel.sys_write buf w in IsSent buf (sent w) r.0 (sent r.1)
  pub apart : (buf : Bytes) (w : W) → stream (kernel.sys_write buf w).1 ≡ stream w

nothing_left : (buf s : Bytes) → (length buf == 0) ≡ true → s ≡ s ++ buf
nothing_left [] s e = sym (append-nil s)
nothing_left (b ∷ buf) s e = absurd (ground arith)

module _ {W : Type 0} (kernel : Kernel W) (budget : W → ℕ) (law : IsKernel kernel budget)
    (sent stream : W → Bytes) (socket : IsSocket kernel sent stream) where
  -- Where `write_all` of `buf` ends, from a state where `s` was sent and `t` is to be read.
  pub record IsWritten (b : ℕ) (buf s t : Bytes) (r : Option (Unit {0}) × W) : Type 0 where
    pub less : budget r.1 ≤ b
    pub apart : stream r.1 ≡ t
    pub whole : r.0 ≡ some tt → sent r.1 ≡ s ++ buf

  stopped :
      (b : ℕ) (buf s t : Bytes) (w : W)
      → budget w ≤ b
      → stream w ≡ t
      → IsWritten b buf s t (none, w)
  stopped b buf s t w l e = record { less = l; apart = e; whole = λ z. absurd (grind arith) }

  write_next-IsWritten :
      (loop : Bytes → W → Run (Option (Unit {0}) × W)) (b : ℕ) (buf s t : Bytes) (r : Io ℕ × W)
      → ((buf' : Bytes) (w : W)
          → budget w < b
          → Returns (IsWritten (budget w) buf' (sent w) (stream w)) (loop buf' w))
      → HasWritten (length buf) b r.0 (budget r.1)
      → IsSent buf s r.0 (sent r.1)
      → stream r.1 ≡ t
      → Returns (IsWritten b buf s t) (write_next kernel loop buf r)
  write_next-IsWritten loop b buf s t (done zero, w) ih h f e =
      ((none, w), refl, stopped b buf s t w (omega (arith, h.1)) e)
  write_next-IsWritten loop b buf s t (would_block, w) ih h f e =
      ((none, w), refl, stopped b buf s t w h e)
  write_next-IsWritten loop b buf s t (failed, w) ih h f e =
      ((none, w), refl, stopped b buf s t w h e)
  write_next-IsWritten loop b buf s t (interrupted, w) ih h f e =
      let (r, run, p) = ih buf w h in
      (
        r,
        run,
        record {
          less = omega (arith, h, p.less);
          apart = p.apart ∙ e;
          whole = λ z. p.whole z ∙ ap (λ x. x ++ buf) f;
        },
      )
  write_next-IsWritten loop b buf s t (done (suc n), w) ih h f e =
      let fits : leb (suc n) (length buf) ≡ true = ground (arith, h.0) in
      let (r, run, p) = ih (drop (suc n) buf) w h.1 in
      (
        r,
        rw fits run,
        record {
          less = omega (arith, h.1, p.less);
          apart = p.apart ∙ e;
          whole = λ z.
              p.whole z
              ∙ ap (λ x. x ++ drop (suc n) buf) f
              ∙ append_assoc s (take (suc n) buf) (drop (suc n) buf)
              ∙ ap (λ x. s ++ x) (take-append-drop (suc n) buf);
        },
      )

  pub write_all-IsWritten :
      (fuel : ℕ) (buf : Bytes) (w : W)
      → budget w < fuel
      → Returns (IsWritten (budget w) buf (sent w) (stream w)) (write_all kernel fuel buf w)
  unfolding write_all
  write_all-IsWritten zero buf w l = absurd (omega (arith, l))
  write_all-IsWritten (suc fuel) buf w l = elim (Bool-cases (length buf == 0)) [
    | inl stop ↦ (
      (some tt, w),
      rw stop refl,
      record { less = omega arith; apart = refl; whole = λ z. nothing_left buf (sent w) stop },
    )
    | inr more ↦ rw more (
        write_next-IsWritten (write_all kernel fuel) (budget w) buf (sent w) (stream w)
          (kernel.sys_write buf w)
          (λ buf' w' l'. write_all-IsWritten fuel buf' w' (omega (arith, l, l')))
          (law.write_law buf w) (socket.in_order buf w) (socket.apart buf w))
  ]
