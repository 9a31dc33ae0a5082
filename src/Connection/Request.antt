-- ===== src/Connection/Request.antt =====
-- `one_request`: every branch leaves the connection valid, and with room for the next read where it
-- stops the loop.
use redis_database_basic_imp.Prelude.{
  ℕ, ◌+◌, ◌%◌, ◌^◌, ◌≤◌, ◌<◌, ◌≡◌, ◌≢◌, ap, refl, inl, inr, ◌⊎◌, Bool, true, false, Bool-cases,
  Option, none, some, List, [], ◌∷◌, ◌++◌, arith, ltb, leb, ◌==◌, length, length-append,
  length-drop, drop, All,
}
use redis_database_basic_imp.Prelude.Bytes.{Bytes, le32, length-le32}
use redis_database_basic_imp.Prelude.Run.{Run, Returns, Returns-bind, ◌>>=◌}
use redis_database_basic_imp.Serialisation.{out_err}
use redis_database_basic_imp.Request.{parse_req, k_max_msg}
use redis_database_basic_imp.Request.Sound.{parse_req-IsParsed, All-drop, load32-some}
use redis_database_basic_imp.Connection.{
  State, state_req, state_res, state_end, in_req, Conn, buf_cap, Kernel, limited, answered,
  run_request, parsed, one_request, res_ok,
}
use redis_database_basic_imp.Connection.Step.{IsKernel, IsConn, HasRoom}
use redis_database_basic_imp.Connection.Flush.{Stopped, stateres-Stopped}

State-cases : (s : State) → (s ≡ state_req) ⊎ (s ≡ state_res) ⊎ (s ≡ state_end)
State-cases state_req = inl refl
State-cases state_res = inr (inl refl)
State-cases state_end = inr (inr refl)

end≢req : state_end ≢ state_req
end≢req e = absurd (grind arith)

res≢req : state_res ≢ state_req
res≢req e = absurd (grind arith)

pub All-append {ℓ κ} :
    {A : Type ℓ} (P : A → Type κ) (xs ys : List A) → All P xs → All P ys → All P (xs ++ ys)
All-append P [] ys h k = k
All-append P (x ∷ xs) ys h k = (h.0, All-append P xs ys h.1 k)

-- The response always fits the write buffer.
limited-fits : (out : Bytes) → 4 + length (limited out) ≤ k_max_msg
unfolding out_err le32
limited-fits out = elim (Bool-cases (ltb k_max_msg (4 + length out))) [
  | inl big ↦ rw big (omega arith)
  | inr fits ↦ rw fits (ground arith)
]

module _ {W : Type 0} (kernel : Kernel W) (budget : W → ℕ) (law : IsKernel kernel budget)
    {G : Type 0} (do_request : List Bytes → Bytes → G → Run (ℕ × (Bytes × G))) (IsGood : G → Type 0)
    (serves : (cmd : List Bytes) (g : G)
      → IsGood g
      → Returns (λ r. IsGood r.1.1) (do_request cmd [] g)) where
  -- Where the handling of a readable connection stops.
  pub record Rested (b : ℕ) (r : Conn × (G × W)) : Type 0 where
    pub conn : IsConn r.0
    pub room : HasRoom r.0
    pub good : IsGood r.1.0
    pub less : budget r.1.1 ≤ b

  -- It goes on in the request state.
  pub record Ready (b : ℕ) (r : Conn × (G × W)) : Type 0 where
    pub conn : IsConn r.0
    pub req : r.0.state ≡ state_req
    pub good : IsGood r.1.0
    pub less : budget r.1.1 < b

  abbrev pub Served : ℕ → Bool × (Conn × (G × W)) → Type 0
  Served b (true, r) = Ready b r
  Served b (false, r) = Rested b r

  pub ended-Rested :
      (c : Conn) (b : ℕ) (g : G) (w : W)
      → IsConn c
      → IsGood g
      → budget w ≤ b
      → Rested b (record c { state = state_end }, (g, w))
  ended-Rested c b g w v good l = record {
    conn = record {
      bytes = v.bytes;
      read = v.read;
      written = v.written;
      sent = v.sent;
      idle = λ e. absurd (end≢req e);
    };
    room = inl refl;
    good = good;
    less = l;
  }

  answered-IsConn :
      (c : Conn) (len : ℕ) (out : Bytes)
      → IsConn c
      → c.state ≡ state_req
      → 4 + length out ≤ k_max_msg
      → IsConn (answered c len out)
  answered-IsConn c len out v e l = record {
    bytes = All-drop (λ b. b < 256) (4 + len) c.rbuf v.bytes;
    read = omega (arith, length-drop (4 + len) c.rbuf, v.read);
    written = omega (
      arith,
      length-append (le32 (length out % 2 ^ 32)) out,
      length-le32 (length out % 2 ^ 32),
      l,
    );
    sent = omega (arith, v.idle e);
    idle = λ q. absurd (res≢req q);
  }

  -- After the response was sent, or as much of it as the kernel took.
  sent-Served :
      (c : Conn) (b : ℕ) (g : G) (r : Conn × W)
      → IsGood g
      → length c.rbuf < buf_cap
      → Stopped kernel budget law c b r
      → Served b (in_req r.0.state, (r.0, (g, r.1)))
  sent-Served c b g r good room s = elim (State-cases r.0.state) [
    | inl q ↦ rw (ap in_req q) (record { conn = s.conn; req = q; good = good; less = s.paid q })
    | inr (inl q) ↦
        rw (ap in_req q)
          (record { conn = s.conn; room = inr (rw s.kept room); good = good; less = s.less })
    | inr (inr q) ↦
        rw (ap in_req q) (record { conn = s.conn; room = inl q; good = good; less = s.less })
  ]

  limited-leb : (out : Bytes) → leb (4 + length (limited out)) buf_cap ≡ true
  limited-leb out = ground (arith, limited-fits out)

  run_request-Served :
      (fuel : ℕ) (c : Conn) (len : ℕ) (cmd : List Bytes) (g : G) (w : W)
      → IsConn c
      → c.state ≡ state_req
      → IsGood g
      → 4 + len ≤ length c.rbuf
      → budget w < fuel
      → Returns (Served (budget w)) (run_request kernel do_request fuel c len cmd g w)
  unfolding run_request
  run_request-Served fuel c len cmd g w v e good inside l =
      Returns-bind (serves cmd g good) λ a good'. elim (Bool-cases (a.0 == res_ok)) [
        | inr bad ↦ (
          (false, (record c { state = state_end }, (a.1.1, w))),
          rw bad refl,
          ended-Rested c (budget w) a.1.1 w v good' (omega arith),
        )
        | inl fine ↦
            let out = limited a.1.0 in
            let c' = answered c len out in
            let (r, run, s) =
              stateres-Stopped kernel budget law fuel c' w
                (answered-IsConn c len out v e (limited-fits a.1.0)) refl l in
            (
              (in_req r.0.state, (r.0, (a.1.1, r.1))),
              rw (fine, limited-leb a.1.0, run) refl,
              sent-Served c' (budget w) a.1.1 r good'
                  (omega (arith, length-drop (4 + len) c.rbuf, v.read)) s,
            )
      ]

  parsed-Served :
      (fuel : ℕ) (c : Conn) (len : ℕ) (g : G) (w : W)
      → IsConn c
      → c.state ≡ state_req
      → IsGood g
      → 4 + len ≤ length c.rbuf
      → budget w < fuel
      → (cmd : Option (List Bytes))
      → Returns (Served (budget w)) (parsed kernel do_request fuel c len g w cmd)
  parsed-Served fuel c len g w v e good inside l none =
      (_, refl, ended-Rested c (budget w) g w v good (omega arith))
  parsed-Served fuel c len g w v e good inside l (some cmd) =
      run_request-Served fuel c len cmd g w v e good inside l

  parse-Served :
      (fuel : ℕ) (c : Conn) (len : ℕ) (g : G) (w : W)
      → IsConn c
      → c.state ≡ state_req
      → IsGood g
      → 4 + len ≤ length c.rbuf
      → len < 2 ^ 32
      → budget w < fuel
      → Returns
          (Served (budget w))
          (parse_req (drop 4 c.rbuf) len >>= λ cmd. parsed kernel do_request fuel c len g w cmd)
  parse-Served fuel c len g w v e good inside narrow l =
      Returns-bind
        (parse_req-IsParsed (drop 4 c.rbuf) len (All-drop (λ b. b < 256) 4 c.rbuf v.bytes)
          (omega (arith, length-drop 4 c.rbuf, inside)) narrow)
        λ cmd _. parsed-Served fuel c len g w v e good inside l cmd

  -- Nothing happens until more of the request is there.
  waiting-Rested :
      (c : Conn) (g : G) (w : W)
      → IsConn c
      → IsGood g
      → length c.rbuf < buf_cap
      → Rested (budget w) (c, (g, w))
  waiting-Rested c g w v good room = record {
    conn = v;
    room = inr room;
    good = good;
    less = omega arith;
  }

  pub one_request-Served :
      (fuel : ℕ) (c : Conn) (g : G) (w : W)
      → IsConn c
      → c.state ≡ state_req
      → IsGood g
      → budget w < fuel
      → Returns (Served (budget w)) (one_request kernel do_request fuel c g w)
  unfolding one_request
  one_request-Served fuel c g w v e good l = elim (Bool-cases (ltb (length c.rbuf) 4)) [
    | inl short ↦ ((false, (c, (g, w))), rw short refl, waiting-Rested c g w v good (ground arith))
    | inr four ↦
        let (len, load, _, _) = load32-some c.rbuf v.bytes (ground arith) in
        elim (Bool-cases (ltb k_max_msg len)) [
          | inl big ↦ (
            (false, (record c { state = state_end }, (g, w))),
            rw (four, load, big) refl,
            ended-Rested c (budget w) g w v good (omega arith),
          )
          | inr fits ↦ elim (Bool-cases (ltb (length c.rbuf) (4 + len))) [
            | inl part ↦ (
              (false, (c, (g, w))),
              rw (four, load, fits, part) refl,
              waiting-Rested c g w v good (ground arith),
            )
            | inr whole ↦
                let (r, run, p) =
                  parse-Served fuel c len g w v e good (ground arith) (ground arith) l in
                (r, rw (four, load, fits, whole) run, p)
          ]
        ]
  ]
