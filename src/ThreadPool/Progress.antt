-- ===== src/ThreadPool/Progress.antt =====
-- The workers can always finish what was submitted: no state is a deadlock.
use mathlib.Core.List.{append-nil}
use redis_database_basic_imp.Prelude.{
  ℕ, zero, suc, ◌+◌, ◌*◌, ◌≤◌, ◌<◌, ◌≡◌, refl, sym, ap, ◌∙◌, ◌⊎◌, inl, inr, Bool, true, false,
  Bool-cases, List, [], ◌∷◌, ◌++◌, arith, length, ltb, ◌==◌, List-cases,
}
use redis_database_basic_imp.Prelude.Count.{count_in, to_nat}
use redis_database_basic_imp.ThreadPool.{
  Worker, outside, checking, waiting, woken, running, ThreadPool, is_waiting, Work, lock, relock,
  take, finish, work, Reach,
}
use redis_database_basic_imp.ThreadPool.Order.{
  IsPool, is_checking, is_awake, is_job, runs, count_in_swap, count_in-at, Reach-IsPool,
  Step-IsPool,
}

-- Steps of the workers alone, without a spurious wake-up: a worker that waits makes none.
pub data Works : ThreadPool → ThreadPool → Type 0 where
  stop : {s : ThreadPool} → Works s s
  go :
      {s t u : ThreadPool} (xs ys : List Worker) (p : Worker)
      → s.workers ≡ xs ++ (p ∷ ys)
      → is_waiting p ≡ false
      → Work s xs ys p t
      → Works t u
      → Works s u

abbrev is_running : Worker → Bool
is_running outside = false
is_running checking = false
is_running waiting = false
is_running woken = false
is_running (running w) = true

-- Where a worker that passes the test stands.
data At (p : Worker → Bool) (l : List Worker) : Type 0 where
  at : (xs ys : List Worker) (x : Worker) → l ≡ xs ++ (x ∷ ys) → p x ≡ true → At p l

find : (p : Worker → Bool) (l : List Worker) → 0 < count_in p l → At p l
unfolding count_in
find p [] h = absurd (omega (arith, h))
find p (x ∷ l) h = elim (Bool-cases (p x)) [
  | inl t ↦ at [] l x refl t
  | inr f ↦ elim (find p l (omega (arith, h, ap to_nat f))) [
    | at xs ys y e t ↦ at (x ∷ xs) ys y (ap (◌∷◌ x) e) t
  ]
]

-- Every job that was submitted is done, in the sense of the counts.
pub record IsDone (s : ThreadPool) : Type 0 where
  pub empty : s.queue ≡ []
  pub done : (j : ℕ) → count_in (is_job j) s.finished ≡ count_in (is_job j) s.submitted

-- How much is left to do.
abbrev left : ThreadPool → ℕ
left s = 2 * length s.queue + count_in is_running s.workers

to_nat-le : (b : Bool) → to_nat b ≤ 1
to_nat-le true = omega arith
to_nat-le false = omega arith

runs-less : (j : ℕ) (l : List Worker) → count_in (runs j) l ≤ count_in is_running l
unfolding count_in
runs-less j [] = omega arith
runs-less j (running w ∷ l) = omega (arith, runs-less j l, to_nat-le (w == j))
runs-less j (outside ∷ l) = omega (arith, runs-less j l)
runs-less j (checking ∷ l) = omega (arith, runs-less j l)
runs-less j (waiting ∷ l) = omega (arith, runs-less j l)
runs-less j (woken ∷ l) = omega (arith, runs-less j l)

-- Every worker waits, runs or is awake.
all_kinds :
    (l : List Worker)
    → length l ≡ count_in is_waiting l + count_in is_awake l + count_in is_running l
unfolding count_in
all_kinds [] = refl
all_kinds (running w ∷ l) = omega (arith, all_kinds l)
all_kinds (outside ∷ l) = omega (arith, all_kinds l)
all_kinds (checking ∷ l) = omega (arith, all_kinds l)
all_kinds (waiting ∷ l) = omega (arith, all_kinds l)
all_kinds (woken ∷ l) = omega (arith, all_kinds l)

-- What may come next: nothing is left; a job ends; a worker at the test takes one; or one goes there.
data Next (s : ThreadPool) : Type 0 where
  over : s.queue ≡ [] → count_in is_running s.workers ≡ 0 → Next s
  ends : (xs ys : List Worker) (w : ℕ) → s.workers ≡ xs ++ (running w ∷ ys) → Next s
  takes :
      (xs ys : List Worker) (w : ℕ) (rest : List ℕ)
      → s.workers ≡ xs ++ (checking ∷ ys)
      → s.queue ≡ w ∷ rest
      → Next s
  locks :
      (xs ys : List Worker) (p : Worker) (w : ℕ) (rest : List ℕ)
      → s.workers ≡ xs ++ (p ∷ ys)
      → (p ≡ outside) ⊎ (p ≡ woken)
      → s.mu ≡ false
      → s.queue ≡ w ∷ rest
      → Next s

awake_kind : (p : Worker) → is_awake p ≡ true → is_checking p ≡ false → (p ≡ outside) ⊎ (p ≡ woken)
awake_kind outside a c = inl refl
awake_kind woken a c = inr refl
awake_kind checking a c = absurd (cc)
awake_kind waiting a c = absurd (cc)
awake_kind (running w) a c = absurd (cc)

checking_kind : (p : Worker) → is_checking p ≡ true → p ≡ checking
checking_kind checking c = refl
checking_kind outside c = absurd (cc)
checking_kind woken c = absurd (cc)
checking_kind waiting c = absurd (cc)
checking_kind (running w) c = absurd (cc)

not_checking :
    (s : ThreadPool) (xs ys : List Worker) (p : Worker)
    → s.workers ≡ xs ++ (p ∷ ys)
    → count_in is_checking s.workers ≡ 0
    → is_checking p ≡ false
not_checking s xs ys p e z = elim (Bool-cases (is_checking p)) [
  | inr f ↦ f
  | inl t ↦
      absurd (
        omega (arith, z, ap (count_in is_checking) e, count_in-at is_checking xs ys p, ap to_nat t))
]

module _ (n : ℕ) (s : ThreadPool) (v : IsPool n s) (some_worker : 0 < n) (w : ℕ) (queued : List ℕ)
    (q : s.queue ≡ w ∷ queued) where
  next_held : s.mu ≡ true → Next s
  next_held h = elim (find is_checking s.workers (omega (arith, v.mutex, ap to_nat h))) [
    | at xs ys p e t ↦ takes xs ys w queued (e ∙ ap (λ p. xs ++ (p ∷ ys)) (checking_kind p t)) q
  ]

  some_awake : count_in is_running s.workers ≡ 0 → 0 < count_in is_awake s.workers
  some_awake z = elim v.awake [
    | inl none_waits ↦ omega (arith, all_kinds s.workers, v.width, some_worker, z, none_waits)
    | inr l ↦ omega (arith, l, ap length q)
  ]

  next_free : s.mu ≡ false → count_in is_running s.workers ≡ 0 → Next s
  next_free h z = elim (find is_awake s.workers (some_awake z)) [
    | at xs ys p e t ↦
        locks xs ys p w queued e
          (awake_kind p t (not_checking s xs ys p e (omega (arith, v.mutex, ap to_nat h)))) h q
  ]

not_running : (p : Worker) → (p ≡ outside) ⊎ (p ≡ woken) → is_running p ≡ false
not_running p (inl e) = rw e refl
not_running p (inr e) = rw e refl

not_waiting : (p : Worker) → (p ≡ outside) ⊎ (p ≡ woken) → is_waiting p ≡ false
not_waiting p (inl e) = rw e refl
not_waiting p (inr e) = rw e refl

running_kind : (p : Worker) → is_running p ≡ true → (w : ℕ) × (p ≡ running w)
running_kind (running w) c = (w, refl)
running_kind checking c = absurd (cc)
running_kind outside c = absurd (cc)
running_kind woken c = absurd (cc)
running_kind waiting c = absurd (cc)

next : (n : ℕ) (s : ThreadPool) → IsPool n s → 0 < n → Next s
next n s v some_worker = elim (Bool-cases (ltb 0 (count_in is_running s.workers))) [
  | inl busy ↦ elim (find is_running s.workers (ground arith)) [
    | at xs ys p e t ↦
        let (w, r) = running_kind p t in ends xs ys w (e ∙ ap (λ p. xs ++ (p ∷ ys)) r)
  ]
  | inr quiet ↦
      let z : count_in is_running s.workers ≡ 0 = ground arith in
      elim (List-cases s.queue) [
        | inl none_queued ↦ over none_queued z
        | inr (w, queued, q) ↦ elim (Bool-cases s.mu) [
          | inl held ↦ next_held n s v some_worker w queued q held
          | inr free ↦ next_free n s v some_worker w queued q free z
        ]
      ]
]

is_done :
    (n : ℕ) (s : ThreadPool)
    → IsPool n s
    → s.queue ≡ []
    → count_in is_running s.workers ≡ 0
    → IsDone s
is_done n s v none_queued z = record {
  empty = none_queued;
  done = λ j.
      let same = sym (append-nil s.taken) ∙ ap (λ q. s.taken ++ q) (sym none_queued) ∙ v.fifo in
      omega (arith, v.once j, runs-less j s.workers, z, ap (count_in (is_job j)) same);
}

-- From `s` the workers can finish everything.
abbrev Finishes : ThreadPool → Type 0
Finishes s = (t : ThreadPool) × Works s t × IsDone t

-- The states after the steps that `drain` takes.
abbrev ended : ThreadPool → List Worker → List Worker → ℕ → List ℕ → ThreadPool
ended s xs ys w rest = record s {
  workers = xs ++ (outside ∷ ys);
  finished = s.finished ++ (w ∷ []);
}

abbrev taken_one : ThreadPool → List Worker → List Worker → ℕ → List ℕ → ThreadPool
taken_one s xs ys w rest = record s {
  mu = false;
  queue = rest;
  workers = xs ++ (running w ∷ ys);
  taken = s.taken ++ (w ∷ []);
}

abbrev locked : ThreadPool → List Worker → List Worker → ℕ → List ℕ → ThreadPool
locked s xs ys w rest = record s { mu = true; workers = xs ++ (checking ∷ ys) }

module _ (s : ThreadPool) (xs ys : List Worker) (w : ℕ) (queued : List ℕ) where
  left-ended : s.workers ≡ xs ++ (running w ∷ ys) → left (ended s xs ys w queued) + 1 ≡ left s
  left-ended e = omega (arith, count_in_swap s xs ys (running w) e is_running outside)

  left-taken_one :
      s.workers ≡ xs ++ (checking ∷ ys)
      → s.queue ≡ w ∷ queued
      → left (taken_one s xs ys w queued) + 1 ≡ left s
  left-taken_one e q =
      omega (arith, count_in_swap s xs ys checking e is_running (running w), ap length q)

  locking :
      (p : Worker)
      → (p ≡ outside) ⊎ (p ≡ woken)
      → s.mu ≡ false
      → Work s xs ys p (locked s xs ys w queued)
  locking p (inl e) free = rw e (lock free)
  locking p (inr e) free = rw e (relock free)

  left-locked :
      (p : Worker)
      → (p ≡ outside) ⊎ (p ≡ woken)
      → s.workers ≡ xs ++ (p ∷ ys)
      → left (locked s xs ys w queued) ≡ left s
  left-locked p kind e =
      omega (arith, count_in_swap s xs ys p e is_running checking, ap to_nat (not_running p kind))

drain : (k n : ℕ) (s : ThreadPool) → left s ≤ k → 0 < n → IsPool n s → Finishes s
drain zero n s l some_worker v = elim (List-cases s.queue) [
  | inl none_queued ↦ (s, stop, is_done n s v none_queued (omega (arith, l)))
  | inr (w, queued, q) ↦ absurd (omega (arith, l, ap length q))
]
drain (suc k) n s l some_worker v = elim (next n s v some_worker) [
  | over none_queued z ↦ (s, stop, is_done n s v none_queued z)
  | ends xs ys w e ↦
      let st : Work s xs ys (running w) (ended s xs ys w []) = finish w in
      let (t, run, d) =
        drain k n (ended s xs ys w []) (omega (arith, l, left-ended s xs ys w [] e)) some_worker
          (Step-IsPool n s _ (work xs ys (running w) e st) v) in
      (t, go xs ys (running w) e refl st run, d)
  | takes xs ys w queued e q ↦
      let st : Work s xs ys checking (taken_one s xs ys w queued) = take w queued q in
      let (t, run, d) =
        drain k n (taken_one s xs ys w queued)
          (omega (arith, l, left-taken_one s xs ys w queued e q)) some_worker
          (Step-IsPool n s _ (work xs ys checking e st) v) in
      (t, go xs ys checking e refl st run, d)
  | locks xs ys p w queued e kind free q ↦
      let s' = locked s xs ys w queued in
      let st = locking s xs ys w queued p kind free in
      let v' = Step-IsPool n s s' (work xs ys p e st) v in
      let st' : Work s' xs ys checking (taken_one s' xs ys w queued) = take w queued q in
      let (t, run, d) =
        drain k n (taken_one s' xs ys w queued)
          (omega (
            arith,
            l,
            left-taken_one s' xs ys w queued refl q,
            left-locked s xs ys w queued p kind e,
          ))
          some_worker (Step-IsPool n s' _ (work xs ys checking refl st') v') in
      (t, go xs ys p e (not_waiting p kind) st (go xs ys checking refl refl st' run), d)
]

-- No state that the threads reach from `thread_pool_init` with at least one worker is a deadlock: the
-- workers alone have steps from it, none of them of a worker that sleeps (no spurious wake-up), to a
-- state in which no job is queued and each job was done as often as it was submitted.
pub Reach-Finishes :
    {n : ℕ} {s : ThreadPool} → 0 < n → Reach n s → (t : ThreadPool) × Works s t × IsDone t
Reach-Finishes {n} {s} some_worker r = drain (left s) n s (omega arith) some_worker (Reach-IsPool r)
