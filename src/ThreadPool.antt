-- ===== src/ThreadPool.antt =====
-- thread.h and thread.cpp: the queue of jobs, the threads that call `thread_pool_queue`, and the
-- workers, as a step relation.
--
-- A step is what one thread does between two points where others may run: the mutex is free at both,
-- or the thread holds it. `pthread_cond_wait` gives the mutex up and waits in one step, and returns
-- after a signal, or for no reason, once it has the mutex again. A signal wakes one of the waiting
-- threads, which POSIX does not name. A job is a number, which stands for `f` and `arg`.
pub mod Order
pub mod Progress
use redis_database_basic_imp.Prelude.{ℕ, zero, suc, Bool, true, false, ◌≡◌, List, [], ◌∷◌, ◌++◌}
use redis_database_basic_imp.Prelude.Count.{count_in}

-- Where a worker stands in its loop: before `pthread_mutex_lock`; at the test of the queue, with the
-- mutex; in `pthread_cond_wait`; woken in it, without the mutex; and in `w.f(w.arg)`.
pub data Worker : Type 0 where
  outside checking waiting woken : Worker
  running : ℕ → Worker

-- `queue` and `mu` are the pool's. The rest is the history: the jobs that were submitted, taken and
-- done, in that order.
pub record ThreadPool : Type 0 where
  pub workers : List Worker
  pub queue : List ℕ
  pub mu : Bool
  pub submitted : List ℕ
  pub taken : List ℕ
  pub finished : List ℕ

abbrev pub is_waiting : Worker → Bool
is_waiting outside = false
is_waiting checking = false
is_waiting waiting = true
is_waiting woken = false
is_waiting (running w) = false

-- `thread_pool_init` with `n` threads, which `assert(num_threads > 0)` admits.
abbrev pub outsiders : ℕ → List Worker
outsiders zero = []
outsiders (suc n) = outside ∷ outsiders n

abbrev pub thread_pool_init : ℕ → ThreadPool
thread_pool_init n = record {
  workers = outsiders n;
  queue = [];
  mu = false;
  submitted = [];
  taken = [];
  finished = [];
}

-- A step of a worker, which stands between the workers `xs` and `ys`.
pub data Work (s : ThreadPool) (xs ys : List Worker) : Worker → ThreadPool → Type 0 where
  lock :
      s.mu ≡ false → Work s xs ys outside (record s { mu = true; workers = xs ++ (checking ∷ ys) })
  relock :
      s.mu ≡ false → Work s xs ys woken (record s { mu = true; workers = xs ++ (checking ∷ ys) })
  wait :
      s.queue ≡ [] → Work s xs ys checking (record s { mu = false; workers = xs ++ (waiting ∷ ys) })
  take :
      (w : ℕ) (rest : List ℕ)
      → s.queue ≡ w ∷ rest
      → Work s xs ys checking (record s {
        mu = false;
        queue = rest;
        workers = xs ++ (running w ∷ ys);
        taken = s.taken ++ (w ∷ []);
      })
  finish :
      (w : ℕ)
      → Work s xs ys
          (running w)
          (record s { workers = xs ++ (outside ∷ ys); finished = s.finished ++ (w ∷ []) })
  wake : Work s xs ys waiting (record s { workers = xs ++ (woken ∷ ys) })

-- `queue.push_back(w)`
abbrev pub pushed : ThreadPool → ℕ → ThreadPool
pushed s w = record s { queue = s.queue ++ (w ∷ []); submitted = s.submitted ++ (w ∷ []) }

-- A step of a worker, or a whole `thread_pool_queue`, which holds the mutex throughout.
pub data Step (s : ThreadPool) : ThreadPool → Type 0 where
  work :
      {t : ThreadPool} (xs ys : List Worker) (p : Worker)
      → s.workers ≡ xs ++ (p ∷ ys)
      → Work s xs ys p t
      → Step s t
  queue_signal :
      (w : ℕ) (xs ys : List Worker)
      → s.mu ≡ false
      → s.workers ≡ xs ++ (waiting ∷ ys)
      → Step s (record (pushed s w) { workers = xs ++ (woken ∷ ys) })
  queue_only : (w : ℕ) → s.mu ≡ false → count_in is_waiting s.workers ≡ 0 → Step s (pushed s w)

pub data Reach (n : ℕ) : ThreadPool → Type 0 where
  start : Reach n (thread_pool_init n)
  later : {s t : ThreadPool} → Reach n s → Step s t → Reach n t
