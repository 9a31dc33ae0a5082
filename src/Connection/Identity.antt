-- ===== src/Connection/Identity.antt =====
-- What the state machine never changes of a connection: its descriptor and its node in the idle list.
use redis_database_basic_imp.Prelude.{
  ℕ, zero, suc, ◌+◌, ◌-◌, ◌≡◌, refl, ◌∙◌, Bool, true, false, Option, none, some, List, [], ◌∷◌,
  ◌++◌, leb, ◌==◌, if◌then◌else◌, length, ltb, drop,
}
use redis_database_basic_imp.Prelude.Bytes.{Bytes, load32}
use redis_database_basic_imp.Prelude.Run.{
  Run, ok, or_fault, check, Ensures, Ensures-bind, Ensures-then, Ensures-weak,
}
use redis_database_basic_imp.DList.{Links, dlist_detach, list_insert_before}
use redis_database_basic_imp.Request.{slice, parse_req, k_max_msg}
use redis_database_basic_imp.Connection.{
  State, state_req, state_res, state_end, Conn, buf_cap, Io, done, interrupted, would_block, failed,
  Kernel, limited, answered, write_retry, flushed, try_flush_buffer, stateres, run_request, parsed,
  one_request, read_retry, request_loop, filled, try_fill_buffer, statereq, by_state, connection_io,
  res_ok,
}

abbrev pub IsSame : Conn → Conn → Type 0
IsSame c c' = (c'.fd ≡ c.fd) × (c'.idle_list ≡ c.idle_list)

IsSame-trans : (a b c : Conn) → IsSame a b → IsSame b c → IsSame a c
IsSame-trans a b c h k = (k.0 ∙ h.0, k.1 ∙ h.1)

Ensures-if :
    {A : Type 0} (P : A → Type 0) (b : Bool) (x y : Run A)
    → Ensures P x
    → Ensures P y
    → Ensures P (if b then x else y)
Ensures-if P true x y h k = h
Ensures-if P false x y h k = k

-- One more round of a loop, or its end.
next_round :
    {X : Type 0} (c : Conn) (loop : Conn → X → Run (Conn × X)) (a : Bool × (Conn × X))
    → IsSame c a.1.0
    → ((c' : Conn) (x : X) → Ensures (λ r. IsSame c' r.0) (loop c' x))
    → Ensures (λ r. IsSame c r.0) (if a.0 then loop a.1.0 a.1.1 else ok a.1)
next_round c loop (false, r) h ih = h
next_round c loop (true, (c', x)) h ih =
    Ensures-weak (λ r. IsSame c' r.0) (λ r. IsSame c r.0) (loop c' x) (ih c' x)
      λ r k. IsSame-trans c c' r.0 h k

module _ {W : Type 0} (kernel : Kernel W) where
  abbrev SameFlushed : Conn → Bool × (Conn × W) → Type 0
  SameFlushed c r = IsSame c r.1.0

  flushed-IsSame : (c : Conn) (r : Io ℕ × W) → Ensures (SameFlushed c) (flushed kernel c r)
  flushed-IsSame c (would_block, w) = (refl, refl)
  flushed-IsSame c (interrupted, w) = (refl, refl)
  flushed-IsSame c (failed, w) = (refl, refl)
  flushed-IsSame c (done n, w) =
      Ensures-then (SameFlushed c) (check (leb (c.wbuf_sent + n) (length c.wbuf))) _ λ _.
        Ensures-if (SameFlushed c) (c.wbuf_sent + n == length c.wbuf) _ _ (refl, refl) (refl, refl)

  try_flush_buffer-IsSame :
      (fuel : ℕ) (c : Conn) (w : W) → Ensures (SameFlushed c) (try_flush_buffer kernel fuel c w)
  unfolding try_flush_buffer
  try_flush_buffer-IsSame fuel c w =
      Ensures-then (SameFlushed c) (slice c.wbuf c.wbuf_sent (length c.wbuf - c.wbuf_sent)) _ λ buf.
        Ensures-then (SameFlushed c) (write_retry kernel fuel buf w) _ λ r. flushed-IsSame c r

  stateres-IsSame :
      (fuel : ℕ) (c : Conn) (w : W) → Ensures (λ r. IsSame c r.0) (stateres kernel fuel c w)
  unfolding stateres
  stateres-IsSame zero c w = tt
  stateres-IsSame (suc fuel) c w =
      Ensures-bind (SameFlushed c) (λ r. IsSame c r.0) (try_flush_buffer kernel (suc fuel) c w) _
        (try_flush_buffer-IsSame (suc fuel) c w)
        λ a h. next_round c (stateres kernel fuel) a h λ c' w'. stateres-IsSame fuel c' w'

  module _ {G : Type 0} (do_request : List Bytes → Bytes → G → Run (ℕ × (Bytes × G))) where
    abbrev SameAfter : Conn → Bool × (Conn × (G × W)) → Type 0
    SameAfter c r = IsSame c r.1.0

    run_request-IsSame :
        (fuel : ℕ) (c : Conn) (len : ℕ) (cmd : List Bytes) (g : G) (w : W)
        → Ensures (SameAfter c) (run_request kernel do_request fuel c len cmd g w)
    unfolding run_request
    run_request-IsSame fuel c len cmd g w = Ensures-then (SameAfter c) (do_request cmd [] g) _ λ a.
        let out = limited a.1.0 in
        Ensures-if (SameAfter c) (a.0 == res_ok) _ _
          (Ensures-then (SameAfter c) (check (leb (4 + length out) buf_cap)) _ λ _.
            Ensures-bind (λ r. IsSame c r.0) (SameAfter c)
              (stateres kernel fuel (answered c len out) w) _
              (stateres-IsSame fuel (answered c len out) w) λ r h. h)
          (refl, refl)

    parsed-IsSame :
        (fuel : ℕ) (c : Conn) (len : ℕ) (g : G) (w : W) (cmd : Option (List Bytes))
        → Ensures (SameAfter c) (parsed kernel do_request fuel c len g w cmd)
    parsed-IsSame fuel c len g w none = (refl, refl)
    parsed-IsSame fuel c len g w (some cmd) = run_request-IsSame fuel c len cmd g w

    one_request-IsSame :
        (fuel : ℕ) (c : Conn) (g : G) (w : W)
        → Ensures (SameAfter c) (one_request kernel do_request fuel c g w)
    unfolding one_request
    one_request-IsSame fuel c g w =
        Ensures-if (SameAfter c) (ltb (length c.rbuf) 4) _ _ (refl, refl)
          (Ensures-then (SameAfter c) (or_fault (load32 c.rbuf)) _ λ len.
            Ensures-if (SameAfter c) (ltb k_max_msg len) _ _ (refl, refl)
              (Ensures-if (SameAfter c) (ltb (length c.rbuf) (4 + len)) _ _ (refl, refl)
                (Ensures-then (SameAfter c) (parse_req (drop 4 c.rbuf) len) _
                  λ cmd. parsed-IsSame fuel c len g w cmd)))

    request_loop-IsSame :
        (fuel : ℕ) (c : Conn) (g : G) (w : W)
        → Ensures (λ r. IsSame c r.0) (request_loop kernel do_request fuel c g w)
    unfolding request_loop
    request_loop-IsSame zero c g w = tt
    request_loop-IsSame (suc fuel) c g w =
        Ensures-bind (SameAfter c) (λ r. IsSame c r.0)
          (one_request kernel do_request (suc fuel) c g w) _ (one_request-IsSame (suc fuel) c g w)
          λ a h.
            next_round c (λ c' x. request_loop kernel do_request fuel c' x.0 x.1) a h
              λ c' x. request_loop-IsSame fuel c' x.0 x.1

    filled-IsSame :
        (fuel : ℕ) (c : Conn) (g : G) (r : Io Bytes × W)
        → Ensures (SameAfter c) (filled kernel do_request fuel c g r)
    filled-IsSame fuel c g (would_block, w) = (refl, refl)
    filled-IsSame fuel c g (interrupted, w) = (refl, refl)
    filled-IsSame fuel c g (failed, w) = (refl, refl)
    filled-IsSame fuel c g (done [], w) = (refl, refl)
    filled-IsSame fuel c g (done (b ∷ bs), w) =
        let more = record c { rbuf = c.rbuf ++ (b ∷ bs) } in
        Ensures-then (SameAfter c) (check (leb (length more.rbuf) buf_cap)) _ λ _.
          Ensures-bind (λ r. IsSame c r.0) (SameAfter c)
            (request_loop kernel do_request fuel more g w) _ (request_loop-IsSame fuel more g w)
            λ r h. h

    try_fill_buffer-IsSame :
        (fuel : ℕ) (c : Conn) (g : G) (w : W)
        → Ensures (SameAfter c) (try_fill_buffer kernel do_request fuel c g w)
    unfolding try_fill_buffer
    try_fill_buffer-IsSame fuel c g w =
        Ensures-then (SameAfter c) (check (ltb (length c.rbuf) buf_cap)) _ λ _.
          Ensures-then (SameAfter c) (read_retry kernel fuel (buf_cap - length c.rbuf) w) _
            λ r. filled-IsSame fuel c g r

    statereq-IsSame :
        (fuel : ℕ) (c : Conn) (g : G) (w : W)
        → Ensures (λ r. IsSame c r.0) (statereq kernel do_request fuel c g w)
    unfolding statereq
    statereq-IsSame zero c g w = tt
    statereq-IsSame (suc fuel) c g w =
        Ensures-bind (SameAfter c) (λ r. IsSame c r.0)
          (try_fill_buffer kernel do_request (suc fuel) c g w) _
          (try_fill_buffer-IsSame (suc fuel) c g w)
          λ a h.
            next_round c (λ c' x. statereq kernel do_request fuel c' x.0 x.1) a h
              λ c' x. statereq-IsSame fuel c' x.0 x.1

    by_state-IsSame :
        (s : State) (fuel : ℕ) (c : Conn) (g : G) (w : W)
        → Ensures (λ r. IsSame c r.0) (by_state kernel do_request s fuel c g w)
    by_state-IsSame state_req fuel c g w = statereq-IsSame fuel c g w
    by_state-IsSame state_end fuel c g w = tt
    by_state-IsSame state_res fuel c g w =
        Ensures-bind (λ r. IsSame c r.0) (λ r. IsSame c r.0) (stateres kernel fuel c w) _
          (stateres-IsSame fuel c w) λ r h. h

    -- Where `connection_io` leaves the links, the descriptor and the node.
    abbrev pub IsRefreshed : ℕ → Links → Conn → Links × (Conn × (G × W)) → Type 0
    IsRefreshed head l c r =
        (r.0 ≡ list_insert_before (dlist_detach l c.idle_list) head c.idle_list) × IsSame c r.1.0

    pub connection_io-IsRefreshed :
        (fuel now head : ℕ) (l : Links) (c : Conn) (g : G) (w : W)
        → Ensures (IsRefreshed head l c) (connection_io kernel do_request fuel now head l c g w)
    unfolding connection_io
    connection_io-IsRefreshed fuel now head l c g w =
        Ensures-bind (λ r. IsSame c r.0) (IsRefreshed head l c) _ _
          (by_state-IsSame c.state fuel (record c { idle_start = now }) g w) λ r h. (refl, h)
