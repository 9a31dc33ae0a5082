-- ===== src/Connection/Refine.antt =====
-- The state machine with another `do_request`: where a call of it returns normally, it returns the same
-- with every `do_request` that returns what the first one returns.
use redis_database_basic_imp.Prelude.{
  ℕ, zero, suc, ◌+◌, ◌-◌, refl, Bool, true, false, Option, none, some, List, [], ◌∷◌, ◌++◌, leb,
  if◌then◌else◌, length, ltb, drop,
}
use redis_database_basic_imp.Prelude.Bytes.{Bytes, load32}
use redis_database_basic_imp.Prelude.Run.{
  Run, ok, or_fault, check, Refines, Refines-refl, Refines-bind, Refines-then, Refines-if,
}
use redis_database_basic_imp.DList.{Links}
use redis_database_basic_imp.Request.{parse_req, k_max_msg}
use redis_database_basic_imp.Connection.{
  State, state_req, state_res, state_end, Conn, buf_cap, Io, done, interrupted, would_block, failed,
  Kernel, run_request, parsed, one_request, read_retry, request_loop, filled, try_fill_buffer,
  statereq, by_state, connection_io,
}

-- One more round of a loop, or its end.
next_round :
    {X : Type 0} (loop loop' : Conn → X → Run (Conn × X)) (a : Bool × (Conn × X))
    → ((c : Conn) (x : X) → Refines (loop c x) (loop' c x))
    → Refines (if a.0 then loop a.1.0 a.1.1 else ok a.1) (if a.0 then loop' a.1.0 a.1.1 else ok a.1)
next_round loop loop' (false, r) ih = refl
next_round loop loop' (true, (c, x)) ih = ih c x

module _ {W : Type 0} (kernel : Kernel W) {G : Type 0}
    (do_request do_request' : List Bytes → Bytes → G → Run (ℕ × (Bytes × G)))
    (returns : (cmd : List Bytes) (out : Bytes) (g : G)
      → Refines (do_request cmd out g) (do_request' cmd out g)) where
  run_request-Refines :
      (fuel : ℕ) (c : Conn) (len : ℕ) (cmd : List Bytes) (g : G) (w : W)
      → Refines
          (run_request kernel do_request fuel c len cmd g w)
          (run_request kernel do_request' fuel c len cmd g w)
  unfolding run_request
  run_request-Refines fuel c len cmd g w =
      Refines-bind (do_request cmd [] g) (do_request' cmd [] g) _ _ (returns cmd [] g)
        λ a. Refines-refl _

  parsed-Refines :
      (fuel : ℕ) (c : Conn) (len : ℕ) (g : G) (w : W) (cmd : Option (List Bytes))
      → Refines
          (parsed kernel do_request fuel c len g w cmd)
          (parsed kernel do_request' fuel c len g w cmd)
  parsed-Refines fuel c len g w none = refl
  parsed-Refines fuel c len g w (some cmd) = run_request-Refines fuel c len cmd g w

  one_request-Refines :
      (fuel : ℕ) (c : Conn) (g : G) (w : W)
      → Refines
          (one_request kernel do_request fuel c g w)
          (one_request kernel do_request' fuel c g w)
  unfolding one_request
  one_request-Refines fuel c g w = Refines-if (ltb (length c.rbuf) 4) _ _ _ _ refl (
      Refines-then (or_fault (load32 c.rbuf)) _ _ λ len.
        Refines-if (ltb k_max_msg len) _ _ _ _ refl (
          Refines-if (ltb (length c.rbuf) (4 + len)) _ _ _ _ refl (
            Refines-then (parse_req (drop 4 c.rbuf) len) _ _
              λ cmd. parsed-Refines fuel c len g w cmd)))

  request_loop-Refines :
      (fuel : ℕ) (c : Conn) (g : G) (w : W)
      → Refines
          (request_loop kernel do_request fuel c g w)
          (request_loop kernel do_request' fuel c g w)
  unfolding request_loop
  request_loop-Refines zero c g w = tt
  request_loop-Refines (suc fuel) c g w =
      Refines-bind (one_request kernel do_request (suc fuel) c g w) _ _ _
        (one_request-Refines (suc fuel) c g w)
        λ a.
          next_round (λ c' x. request_loop kernel do_request fuel c' x.0 x.1)
            (λ c' x. request_loop kernel do_request' fuel c' x.0 x.1) a
            λ c' x. request_loop-Refines fuel c' x.0 x.1

  filled-Refines :
      (fuel : ℕ) (c : Conn) (g : G) (r : Io Bytes × W)
      → Refines (filled kernel do_request fuel c g r) (filled kernel do_request' fuel c g r)
  filled-Refines fuel c g (would_block, w) = refl
  filled-Refines fuel c g (interrupted, w) = refl
  filled-Refines fuel c g (failed, w) = refl
  filled-Refines fuel c g (done [], w) = refl
  filled-Refines fuel c g (done (b ∷ bs), w) =
      let more = record c { rbuf = c.rbuf ++ (b ∷ bs) } in
      Refines-then (check (leb (length more.rbuf) buf_cap)) _ _ λ _.
        Refines-bind (request_loop kernel do_request fuel more g w) _ _ _
          (request_loop-Refines fuel more g w) λ r. refl

  try_fill_buffer-Refines :
      (fuel : ℕ) (c : Conn) (g : G) (w : W)
      → Refines
          (try_fill_buffer kernel do_request fuel c g w)
          (try_fill_buffer kernel do_request' fuel c g w)
  unfolding try_fill_buffer
  try_fill_buffer-Refines fuel c g w = Refines-then (check (ltb (length c.rbuf) buf_cap)) _ _ λ _.
      Refines-then (read_retry kernel fuel (buf_cap - length c.rbuf) w) _ _
        λ r. filled-Refines fuel c g r

  statereq-Refines :
      (fuel : ℕ) (c : Conn) (g : G) (w : W)
      → Refines (statereq kernel do_request fuel c g w) (statereq kernel do_request' fuel c g w)
  unfolding statereq
  statereq-Refines zero c g w = tt
  statereq-Refines (suc fuel) c g w =
      Refines-bind (try_fill_buffer kernel do_request (suc fuel) c g w) _ _ _
        (try_fill_buffer-Refines (suc fuel) c g w)
        λ a.
          next_round (λ c' x. statereq kernel do_request fuel c' x.0 x.1)
            (λ c' x. statereq kernel do_request' fuel c' x.0 x.1) a
            λ c' x. statereq-Refines fuel c' x.0 x.1

  by_state-Refines :
      (s : State) (fuel : ℕ) (c : Conn) (g : G) (w : W)
      → Refines (by_state kernel do_request s fuel c g w) (by_state kernel do_request' s fuel c g w)
  by_state-Refines state_req fuel c g w = statereq-Refines fuel c g w
  by_state-Refines state_end fuel c g w = tt
  by_state-Refines state_res fuel c g w = Refines-refl _

  pub connection_io-Refines :
      (fuel now head : ℕ) (l : Links) (c : Conn) (g : G) (w : W)
      → Refines
          (connection_io kernel do_request fuel now head l c g w)
          (connection_io kernel do_request' fuel now head l c g w)
  unfolding connection_io
  connection_io-Refines fuel now head l c g w =
      let c' = record c { idle_start = now } in
      Refines-bind (by_state kernel do_request c.state fuel c' g w) _ _ _
        (by_state-Refines c.state fuel c' g w) λ r. refl
