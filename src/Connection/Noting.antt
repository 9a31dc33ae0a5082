-- ===== src/Connection/Noting.antt =====
-- The state machine with a `do_request` that notes the commands that it does not return from: where it
-- notes none, the state machine with the `do_request` itself does the same.
use redis_database_basic_imp.Prelude.{
  ℕ, zero, suc, ◌+◌, ◌-◌, ◌≡◌, ◌≢◌, refl, Bool, true, false, Option, none, some, List, [], ◌∷◌,
  ◌++◌, leb, if◌then◌else◌, length, ltb, drop, ◌==◌, arith,
}
use redis_database_basic_imp.Prelude.Bytes.{Bytes, load32}
use redis_database_basic_imp.Prelude.Run.{
  Run, ok, fault, out_of_fuel, or_fault, check, Ensures, Ensures-weak, ◌>>=◌,
}
use redis_database_basic_imp.DList.{Links, dlist_detach, list_insert_before}
use redis_database_basic_imp.Request.{parse_req, k_max_msg}
use redis_database_basic_imp.Connection.{
  State, state_req, state_res, state_end, Conn, buf_cap, Io, done, interrupted, would_block, failed,
  Kernel, run_request, parsed, one_request, read_retry, request_loop, filled, try_fill_buffer,
  statereq, by_state, connection_io, limited, stateres, answered, in_req, res_ok, res_err,
}

-- A state of `do_request`, and the calls that did not return: the command and the state.
abbrev pub Noted : Type 0 → Type 0
Noted G = G × List (List Bytes × G)

abbrev pub note_result :
    {G : Type 0} → List Bytes → Noted G → Run (ℕ × (Bytes × G)) → Run (ℕ × (Bytes × Noted G))
note_result cmd n (ok (code, (out, g))) = ok (code, (out, (g, n.1)))
note_result cmd n fault = ok (res_err, ([], (n.0, (cmd, n.0) ∷ n.1)))
note_result cmd n out_of_fuel = ok (res_err, ([], (n.0, (cmd, n.0) ∷ n.1)))

-- `do_request`, but a call that does not return is noted and refused.
abbrev pub noting :
    {G : Type 0}
    → (List Bytes → Bytes → G → Run (ℕ × (Bytes × G)))
    → List Bytes
    → Bytes
    → Noted G
    → Run (ℕ × (Bytes × Noted G))
noting do_request cmd out n = note_result cmd n (do_request cmd out n.0)

-- If `r'`, which starts with the notes `l`, ends without a note, there was none, and `r` ends the same.
abbrev pub Follows : {N A B : Type 0} → List N → (A → B) → (A → List N) → Run B → Run A → Type 0
Follows l forget notes r r' = Ensures (λ a. notes a ≡ [] → (l ≡ []) × (r ≡ ok (forget a))) r'

module _ {N A B C D : Type 0} (f : A → B) (n : A → List N) (f' : C → D) (n' : C → List N) where
  pub Follows-bind :
      (l : List N) (r : Run B) (r' : Run A) (k : B → Run D) (k' : A → Run C)
      → Follows l f n r r'
      → ((a : A) → Follows (n a) f' n' (k (f a)) (k' a))
      → Follows l f' n' (r >>= k) (r' >>= k')
  Follows-bind l r (ok a) k k' h t =
      Ensures-weak (λ c. n' c ≡ [] → (n a ≡ []) × (k (f a) ≡ ok (f' c)))
        (λ c. n' c ≡ [] → (l ≡ []) × ((r >>= k) ≡ ok (f' c))) (k' a) (t a)
        λ c later z.
          let (here, last) = later z in let (before, run) = h here in (before, rw run last)
  Follows-bind l r fault k k' h t = tt
  Follows-bind l r out_of_fuel k k' h t = tt

-- A call that both make.
pub Follows-then :
    {N X A B : Type 0} (f : A → B) (n : A → List N) (l : List N) (r : Run X) (k : X → Run B)
    (k' : X → Run A)
    → ((x : X) → Follows l f n (k x) (k' x))
    → Follows l f n (r >>= k) (r >>= k')
Follows-then f n l (ok x) k k' h = h x
Follows-then f n l fault k k' h = tt
Follows-then f n l out_of_fuel k k' h = tt

pub Follows-if :
    {N A B : Type 0} (f : A → B) (n : A → List N) (l : List N) (b : Bool) (x y : Run B)
    (x' y' : Run A)
    → Follows l f n x x'
    → Follows l f n y y'
    → Follows l f n (if b then x else y) (if b then x' else y')
Follows-if f n l true x y x' y' h k = h
Follows-if f n l false x y x' y' h k = k

pub Follows-ok :
    {N A B : Type 0} (f : A → B) (n : A → List N) (a : A) → Follows (n a) f n (ok (f a)) (ok a)
Follows-ok f n a z = (z, refl)

cons≢nil : {N : Type 0} (x : N) (l : List N) → x ∷ l ≢ []
cons≢nil x l e = absurd (grind arith)

note_result-Follows :
    {G : Type 0} (cmd : List Bytes) (g : G) (l : List (List Bytes × G)) (r : Run (ℕ × (Bytes × G)))
    → Follows l (λ a. (a.0, (a.1.0, a.1.1.0))) (λ a. a.1.1.1) r (note_result cmd (g, l) r)
note_result-Follows cmd g l (ok r) = λ z. (z, refl)
note_result-Follows cmd g l fault = λ z. absurd (cons≢nil (cmd, g) l z)
note_result-Follows cmd g l out_of_fuel = λ z. absurd (cons≢nil (cmd, g) l z)

module _ {W : Type 0} (kernel : Kernel W) {G : Type 0}
    (do_request : List Bytes → Bytes → G → Run (ℕ × (Bytes × G))) where
  abbrev pub unnoted : Conn × (Noted G × W) → Conn × (G × W)
  unnoted r = (r.0, (r.1.0.0, r.1.1))

  abbrev pub notes : Conn × (Noted G × W) → List (List Bytes × G)
  notes r = r.1.0.1

  abbrev flag : Bool × (Conn × (Noted G × W)) → Bool × (Conn × (G × W))
  flag a = (a.0, unnoted a.1)

  abbrev flag_notes : Bool × (Conn × (Noted G × W)) → List (List Bytes × G)
  flag_notes a = notes a.1

  abbrev noter : List Bytes → Bytes → Noted G → Run (ℕ × (Bytes × Noted G))
  noter = noting do_request

  -- One more round of a loop, or its end.
  next_round :
      (loop : Conn → G → W → Run (Conn × (G × W)))
      (loop' : Conn → Noted G → W → Run (Conn × (Noted G × W))) (a : Bool × (Conn × (Noted G × W)))
      → ((c : Conn) (n : Noted G) (w : W) → Follows n.1 unnoted notes (loop c n.0 w) (loop' c n w))
      → Follows
          (flag_notes a)
          unnoted
          notes
          (if a.0 then loop a.1.0 a.1.1.0.0 a.1.1.1 else ok (unnoted a.1))
          (if a.0 then loop' a.1.0 a.1.1.0 a.1.1.1 else ok a.1)
  next_round loop loop' (false, r) ih = Follows-ok unnoted notes r
  next_round loop loop' (true, r) ih = ih r.0 r.1.0 r.1.1

  run_request-Follows :
      (fuel : ℕ) (c : Conn) (len : ℕ) (cmd : List Bytes) (n : Noted G) (w : W)
      → Follows n.1 flag flag_notes
          (run_request kernel do_request fuel c len cmd n.0 w)
          (run_request kernel noter fuel c len cmd n w)
  unfolding run_request
  run_request-Follows fuel c len cmd n w =
      Follows-bind (λ a. (a.0, (a.1.0, a.1.1.0))) (λ a. a.1.1.1) flag flag_notes n.1
        (do_request cmd [] n.0) (noter cmd [] n) _ _
        (note_result-Follows cmd n.0 n.1 (do_request cmd [] n.0))
        λ a.
          Follows-if flag flag_notes a.1.1.1 (a.0 == res_ok) _ _ _ _
            (Follows-then flag flag_notes a.1.1.1 (check (leb (4 + length (limited a.1.0)) buf_cap))
              _ _
              λ _.
                Follows-then flag flag_notes a.1.1.1
                  (stateres kernel fuel (answered c len (limited a.1.0)) w) _ _
                  λ s. Follows-ok flag flag_notes (in_req s.0.state, (s.0, (a.1.1, s.1))))
            (Follows-ok flag flag_notes (false, (record c { state = state_end }, (a.1.1, w))))

  parsed-Follows :
      (fuel : ℕ) (c : Conn) (len : ℕ) (n : Noted G) (w : W) (cmd : Option (List Bytes))
      → Follows n.1 flag flag_notes
          (parsed kernel do_request fuel c len n.0 w cmd)
          (parsed kernel noter fuel c len n w cmd)
  parsed-Follows fuel c len n w none =
      Follows-ok flag flag_notes (false, (record c { state = state_end }, (n, w)))
  parsed-Follows fuel c len n w (some cmd) = run_request-Follows fuel c len cmd n w

  one_request-Follows :
      (fuel : ℕ) (c : Conn) (n : Noted G) (w : W)
      → Follows n.1 flag flag_notes
          (one_request kernel do_request fuel c n.0 w)
          (one_request kernel noter fuel c n w)
  unfolding one_request
  one_request-Follows fuel c n w =
      let rests = Follows-ok flag flag_notes (false, (c, (n, w))) in
      Follows-if flag flag_notes n.1 (ltb (length c.rbuf) 4) _ _ _ _ rests (
        Follows-then flag flag_notes n.1 (or_fault (load32 c.rbuf)) _ _ λ len.
          Follows-if flag flag_notes n.1 (ltb k_max_msg len) _ _ _ _
            (Follows-ok flag flag_notes (false, (record c { state = state_end }, (n, w))))
            (Follows-if flag flag_notes n.1 (ltb (length c.rbuf) (4 + len)) _ _ _ _ rests (
              Follows-then flag flag_notes n.1 (parse_req (drop 4 c.rbuf) len) _ _
                λ cmd. parsed-Follows fuel c len n w cmd)))

  request_loop-Follows :
      (fuel : ℕ) (c : Conn) (n : Noted G) (w : W)
      → Follows n.1 unnoted notes
          (request_loop kernel do_request fuel c n.0 w)
          (request_loop kernel noter fuel c n w)
  unfolding request_loop
  request_loop-Follows zero c n w = tt
  request_loop-Follows (suc fuel) c n w =
      Follows-bind flag flag_notes unnoted notes n.1
        (one_request kernel do_request (suc fuel) c n.0 w)
        (one_request kernel noter (suc fuel) c n w) _ _ (one_request-Follows (suc fuel) c n w)
        λ a.
          next_round (λ c' g w'. request_loop kernel do_request fuel c' g w')
            (λ c' m w'. request_loop kernel noter fuel c' m w') a
            λ c' m w'. request_loop-Follows fuel c' m w'

  filled-Follows :
      (fuel : ℕ) (c : Conn) (n : Noted G) (r : Io Bytes × W)
      → Follows n.1 flag flag_notes
          (filled kernel do_request fuel c n.0 r)
          (filled kernel noter fuel c n r)
  filled-Follows fuel c n (would_block, w) = Follows-ok flag flag_notes (false, (c, (n, w)))
  filled-Follows fuel c n (interrupted, w) =
      Follows-ok flag flag_notes (false, (record c { state = state_end }, (n, w)))
  filled-Follows fuel c n (failed, w) =
      Follows-ok flag flag_notes (false, (record c { state = state_end }, (n, w)))
  filled-Follows fuel c n (done [], w) =
      Follows-ok flag flag_notes (false, (record c { state = state_end }, (n, w)))
  filled-Follows fuel c n (done (b ∷ bs), w) =
      let more = record c { rbuf = c.rbuf ++ (b ∷ bs) } in
      Follows-then flag flag_notes n.1 (check (leb (length more.rbuf) buf_cap)) _ _ λ _.
        Follows-bind unnoted notes flag flag_notes n.1
          (request_loop kernel do_request fuel more n.0 w) (request_loop kernel noter fuel more n w)
          _ _ (request_loop-Follows fuel more n w)
          λ r. Follows-ok flag flag_notes (in_req r.0.state, r)

  try_fill_buffer-Follows :
      (fuel : ℕ) (c : Conn) (n : Noted G) (w : W)
      → Follows n.1 flag flag_notes
          (try_fill_buffer kernel do_request fuel c n.0 w)
          (try_fill_buffer kernel noter fuel c n w)
  unfolding try_fill_buffer
  try_fill_buffer-Follows fuel c n w =
      Follows-then flag flag_notes n.1 (check (ltb (length c.rbuf) buf_cap)) _ _ λ _.
        Follows-then flag flag_notes n.1 (read_retry kernel fuel (buf_cap - length c.rbuf) w) _ _
          λ r. filled-Follows fuel c n r

  statereq-Follows :
      (fuel : ℕ) (c : Conn) (n : Noted G) (w : W)
      → Follows n.1 unnoted notes
          (statereq kernel do_request fuel c n.0 w)
          (statereq kernel noter fuel c n w)
  unfolding statereq
  statereq-Follows zero c n w = tt
  statereq-Follows (suc fuel) c n w =
      Follows-bind flag flag_notes unnoted notes n.1
        (try_fill_buffer kernel do_request (suc fuel) c n.0 w)
        (try_fill_buffer kernel noter (suc fuel) c n w) _ _
        (try_fill_buffer-Follows (suc fuel) c n w)
        λ a.
          next_round (λ c' g w'. statereq kernel do_request fuel c' g w')
            (λ c' m w'. statereq kernel noter fuel c' m w') a
            λ c' m w'. statereq-Follows fuel c' m w'

  by_state-Follows :
      (s : State) (fuel : ℕ) (c : Conn) (n : Noted G) (w : W)
      → Follows n.1 unnoted notes
          (by_state kernel do_request s fuel c n.0 w)
          (by_state kernel noter s fuel c n w)
  by_state-Follows state_req fuel c n w = statereq-Follows fuel c n w
  by_state-Follows state_end fuel c n w = tt
  by_state-Follows state_res fuel c n w =
      Follows-then unnoted notes n.1 (stateres kernel fuel c w) _ _
        λ s. Follows-ok unnoted notes (s.0, (n, s.1))

  abbrev pub whole : Links × (Conn × (Noted G × W)) → Links × (Conn × (G × W))
  whole r = (r.0, unnoted r.1)

  abbrev pub whole_notes : Links × (Conn × (Noted G × W)) → List (List Bytes × G)
  whole_notes r = notes r.1

  pub connection_io-Follows :
      (fuel now head : ℕ) (l : Links) (c : Conn) (n : Noted G) (w : W)
      → Follows n.1
          (λ r. (r.0, unnoted r.1))
          (λ r. notes r.1)
          (connection_io kernel do_request fuel now head l c n.0 w)
          (connection_io kernel noter fuel now head l c n w)
  unfolding connection_io
  connection_io-Follows fuel now head l c n w =
      let c' = record c { idle_start = now } in
      let l' = list_insert_before (dlist_detach l c.idle_list) head c.idle_list in
      Follows-bind unnoted notes whole whole_notes n.1
        (by_state kernel do_request c.state fuel c' n.0 w)
        (by_state kernel noter c.state fuel c' n w) _ _ (by_state-Follows c.state fuel c' n w)
        λ r. Follows-ok whole whole_notes (l', r)
