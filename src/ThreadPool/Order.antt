-- ===== src/ThreadPool/Order.antt =====
-- Every job that is submitted is taken once, in the order of the submissions, and no wake-up is lost.
use mathlib.Core.List.{append_assoc}
use redis_database_basic_imp.Prelude.{
  ℕ, zero, suc, ◌+◌, ◌≤◌, ◌≡◌, refl, sym, ap, ◌∙◌, ◌⊎◌, inl, inr, Bool, true, false, List, [], ◌∷◌,
  ◌++◌, arith, ◌==◌, length, length-append,
}
use redis_database_basic_imp.Prelude.Count.{count_in, count_in-append, to_nat}
use redis_database_basic_imp.ThreadPool.{
  Worker, outside, checking, waiting, woken, running, ThreadPool, is_waiting, outsiders,
  thread_pool_init, Work, lock, relock, wait, take, finish, wake, Step, work, queue_signal,
  queue_only, Reach, start, later,
}

abbrev pub is_checking : Worker → Bool
is_checking outside = false
is_checking checking = true
is_checking waiting = false
is_checking woken = false
is_checking (running w) = false

-- On the way to the test of the queue.
abbrev pub is_awake : Worker → Bool
is_awake outside = true
is_awake checking = true
is_awake waiting = false
is_awake woken = true
is_awake (running w) = false

-- Running the job `j`.
abbrev pub runs : ℕ → Worker → Bool
runs j outside = false
runs j checking = false
runs j waiting = false
runs j woken = false
runs j (running w) = w == j

abbrev pub is_job : ℕ → ℕ → Bool
is_job j w = w == j

-- The mutex is that of the worker at the test; what was taken and what is queued is what was
-- submitted, in order; each job is done or running as often as it was taken; and no worker sleeps
-- while there are more jobs than workers on their way to them.
pub record IsPool (n : ℕ) (s : ThreadPool) : Type 0 where
  pub width : length s.workers ≡ n
  pub mutex : count_in is_checking s.workers ≡ to_nat s.mu
  pub fifo : s.taken ++ s.queue ≡ s.submitted
  pub once :
      (j : ℕ)
      → count_in (is_job j) s.finished + count_in (runs j) s.workers ≡ count_in (is_job j) s.taken
  pub awake : (count_in is_waiting s.workers ≡ 0) ⊎ (length s.queue ≤ count_in is_awake s.workers)

-- One worker in the list.
pub count_in-at :
    (p : Worker → Bool) (xs ys : List Worker) (x : Worker)
    → count_in p (xs ++ (x ∷ ys)) ≡ count_in p xs + to_nat (p x) + count_in p ys
unfolding count_in
count_in-at p xs ys x = omega (arith, count_in-append p xs (x ∷ ys))

pub length-at :
    (xs ys : List Worker) (x : Worker) → length (xs ++ (x ∷ ys)) ≡ length xs + 1 + length ys
length-at xs ys x = omega (arith, length-append xs (x ∷ ys))

pub count_in-snoc :
    (p : ℕ → Bool) (xs : List ℕ) (w : ℕ)
    → count_in p (xs ++ (w ∷ [])) ≡ count_in p xs + to_nat (p w)
unfolding count_in
count_in-snoc p xs w = omega (arith, count_in-append p xs (w ∷ []))

to_nat-le : (b : Bool) → to_nat b ≤ 1
to_nat-le true = omega arith
to_nat-le false = omega arith

module _ (s : ThreadPool) (xs ys : List Worker) (x : Worker) (e : s.workers ≡ xs ++ (x ∷ ys)) where
  -- A worker `x` becomes `y`.
  pub count_in_swap :
      (p : Worker → Bool) (y : Worker)
      → count_in p (xs ++ (y ∷ ys)) + to_nat (p x) ≡ count_in p s.workers + to_nat (p y)
  count_in_swap p y = omega (arith, count_in-at p xs ys y, count_in-at p xs ys x, ap (count_in p) e)

  length_swap : (y : Worker) → length (xs ++ (y ∷ ys)) ≡ length s.workers
  length_swap y = omega (arith, length-at xs ys y, length-at xs ys x, ap length e)

  -- The lines of the invariant that a worker's step keeps if the queue is the same.
  module _ (n : ℕ) (v : IsPool n s) where
    width_swap : (y : Worker) → length (xs ++ (y ∷ ys)) ≡ n
    width_swap y = length_swap y ∙ v.width

    mutex_swap :
        (y : Worker) (m : Bool)
        → to_nat s.mu + to_nat (is_checking y) ≡ to_nat m + to_nat (is_checking x)
        → count_in is_checking (xs ++ (y ∷ ys)) ≡ to_nat m
    mutex_swap y m h = omega (arith, count_in_swap is_checking y, v.mutex, h)

    -- A worker at the test holds the mutex.
    held : is_checking x ≡ true → to_nat s.mu + 0 ≡ 0 + to_nat (is_checking x)
    held h = omega (arith, v.mutex, count_in_swap is_checking outside, ap to_nat h, to_nat-le s.mu)

    once_swap :
        (y : Worker)
        → ((j : ℕ) → runs j x ≡ false)
        → ((j : ℕ) → runs j y ≡ false)
        → (j : ℕ)
        → count_in (is_job j) s.finished + count_in (runs j) (xs ++ (y ∷ ys))
          ≡ count_in (is_job j) s.taken
    once_swap y hx hy j =
        omega (arith, count_in_swap (runs j) y, v.once j, ap to_nat (hx j), ap to_nat (hy j))

    awake_swap :
        (y : Worker)
        → to_nat (is_waiting y) ≤ to_nat (is_waiting x)
        → to_nat (is_awake x) ≤ to_nat (is_awake y)
        → (count_in is_waiting (xs ++ (y ∷ ys)) ≡ 0)
          ⊎ (length s.queue ≤ count_in is_awake (xs ++ (y ∷ ys)))
    awake_swap y hw ha = elim v.awake [
      | inl z ↦ inl (omega (arith, count_in_swap is_waiting y, z, hw))
      | inr l ↦ inr (omega (arith, count_in_swap is_awake y, l, ha))
    ]

Work-IsPool :
    (n : ℕ) (s : ThreadPool) (xs ys : List Worker) (p : Worker) (t : ThreadPool)
    → s.workers ≡ xs ++ (p ∷ ys)
    → Work s xs ys p t
    → IsPool n s
    → IsPool n t
Work-IsPool n s xs ys p _ e (lock free) v = record {
  width = width_swap s xs ys p e n v checking;
  mutex = mutex_swap s xs ys p e n v checking true (omega (arith, ap to_nat free));
  fifo = v.fifo;
  once = once_swap s xs ys p e n v checking (λ j. refl) (λ j. refl);
  awake = awake_swap s xs ys p e n v checking (omega arith) (omega arith);
}
Work-IsPool n s xs ys p _ e (relock free) v = record {
  width = width_swap s xs ys p e n v checking;
  mutex = mutex_swap s xs ys p e n v checking true (omega (arith, ap to_nat free));
  fifo = v.fifo;
  once = once_swap s xs ys p e n v checking (λ j. refl) (λ j. refl);
  awake = awake_swap s xs ys p e n v checking (omega arith) (omega arith);
}
Work-IsPool n s xs ys p _ e (wait none_queued) v = record {
  width = width_swap s xs ys p e n v waiting;
  mutex = mutex_swap s xs ys p e n v waiting false (held s xs ys p e n v refl);
  fifo = v.fifo;
  once = once_swap s xs ys p e n v waiting (λ j. refl) (λ j. refl);
  awake = inr (omega (arith, ap length none_queued));
}
Work-IsPool n s xs ys p _ e (take w rest q) v = record {
  width = width_swap s xs ys p e n v (running w);
  mutex = mutex_swap s xs ys p e n v (running w) false (held s xs ys p e n v refl);
  fifo = append_assoc s.taken (w ∷ []) rest ∙ ap (λ r. s.taken ++ r) (sym q) ∙ v.fifo;
  once = λ j. omega (
    arith,
    count_in_swap s xs ys p e (runs j) (running w),
    v.once j,
    count_in-snoc (is_job j) s.taken w,
  );
  awake = elim v.awake [
    | inl z ↦ inl (omega (arith, count_in_swap s xs ys p e is_waiting (running w), z))
    | inr l ↦ inr (omega (arith, count_in_swap s xs ys p e is_awake (running w), l, ap length q))
  ];
}
Work-IsPool n s xs ys p _ e (finish w) v = record {
  width = width_swap s xs ys p e n v outside;
  mutex = mutex_swap s xs ys p e n v outside s.mu refl;
  fifo = v.fifo;
  once = λ j. omega (
    arith,
    count_in_swap s xs ys p e (runs j) outside,
    v.once j,
    count_in-snoc (is_job j) s.finished w,
  );
  awake = awake_swap s xs ys p e n v outside (omega arith) (omega arith);
}
Work-IsPool n s xs ys p _ e wake v = record {
  width = width_swap s xs ys p e n v woken;
  mutex = mutex_swap s xs ys p e n v woken s.mu refl;
  fifo = v.fifo;
  once = once_swap s xs ys p e n v woken (λ j. refl) (λ j. refl);
  awake = awake_swap s xs ys p e n v woken (omega arith) (omega arith);
}

fifo_push :
    (n : ℕ) (s : ThreadPool) (w : ℕ)
    → IsPool n s
    → s.taken ++ (s.queue ++ (w ∷ [])) ≡ s.submitted ++ (w ∷ [])
fifo_push n s w v = sym (append_assoc s.taken s.queue (w ∷ [])) ∙ ap (λ q. q ++ (w ∷ [])) v.fifo

pub Step-IsPool : (n : ℕ) (s t : ThreadPool) → Step s t → IsPool n s → IsPool n t
Step-IsPool n s t (work xs ys p e w) v = Work-IsPool n s xs ys p t e w v
Step-IsPool n s _ (queue_signal w xs ys free e) v = record {
  width = width_swap s xs ys waiting e n v woken;
  mutex = mutex_swap s xs ys waiting e n v woken s.mu refl;
  fifo = fifo_push n s w v;
  once = once_swap s xs ys waiting e n v woken (λ j. refl) (λ j. refl);
  awake = elim v.awake [
    | inl z ↦ inl (omega (arith, count_in_swap s xs ys waiting e is_waiting woken, z))
    | inr l ↦ inr (
        omega (
          arith,
          count_in_swap s xs ys waiting e is_awake woken,
          l,
          length-append s.queue (w ∷ []),
        ))
  ];
}
Step-IsPool n s _ (queue_only w free none_waits) v = record {
  width = v.width;
  mutex = v.mutex;
  fifo = fifo_push n s w v;
  once = v.once;
  awake = inl none_waits;
}

length-outsiders : (n : ℕ) → length (outsiders n) ≡ n
length-outsiders zero = refl
length-outsiders (suc n) = ap suc (length-outsiders n)

count_in-outsiders :
    (p : Worker → Bool) → p outside ≡ false → (n : ℕ) → count_in p (outsiders n) ≡ 0
unfolding count_in
count_in-outsiders p h zero = refl
count_in-outsiders p h (suc n) = omega (arith, ap to_nat h, count_in-outsiders p h n)

thread_pool_init-IsPool : (n : ℕ) → IsPool n (thread_pool_init n)
unfolding count_in
thread_pool_init-IsPool n = record {
  width = length-outsiders n;
  mutex = count_in-outsiders is_checking refl n;
  fifo = refl;
  once = λ j. omega (arith, count_in-outsiders (runs j) refl n);
  awake = inl (count_in-outsiders is_waiting refl n);
}

-- In every state that the threads can reach from `thread_pool_init`, in any interleaving: the mutex is
-- held by exactly the worker at the test of the queue; the jobs taken and the jobs queued are the jobs
-- submitted, in order; each job was done or is running as often as it was taken; and if a worker
-- waits, then no more jobs are queued than workers are on their way to the queue.
pub Reach-IsPool : {n : ℕ} {s : ThreadPool} → Reach n s → IsPool n s
Reach-IsPool {n} start = thread_pool_init-IsPool n
Reach-IsPool {n} (later {s} {t} r st) = Step-IsPool n s t st (Reach-IsPool r)
