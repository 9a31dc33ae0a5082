-- ===== src/Tests/Threads.antt =====
-- A run of the thread pool with one worker, which sleeps, is woken by a job and takes it.
use redis_database_basic_imp.Prelude.{refl, false, [], ◌∷◌, arith}
use redis_database_basic_imp.ThreadPool.{
  outside, checking, waiting, woken, running, ThreadPool, lock, relock, wait, take, work,
  queue_signal, Reach, start, later,
}
use redis_database_basic_imp.ThreadPool.Order.{IsPool, Reach-IsPool}
use redis_database_basic_imp.ThreadPool.Progress.{Works, IsDone, Reach-Finishes}

abbrev asleep : ThreadPool
asleep = record {
  workers = waiting ∷ [];
  queue = [];
  mu = false;
  submitted = [];
  taken = [];
  finished = [];
}

abbrev called : ThreadPool
called = record {
  workers = woken ∷ [];
  queue = 7 ∷ [];
  mu = false;
  submitted = 7 ∷ [];
  taken = [];
  finished = [];
}

abbrev busy : ThreadPool
busy = record {
  workers = running 7 ∷ [];
  queue = [];
  mu = false;
  submitted = 7 ∷ [];
  taken = 7 ∷ [];
  finished = [];
}

falls_asleep : Reach 1 asleep
falls_asleep =
    later (later start (work [] [] outside refl (lock refl))) (work [] [] checking refl (wait refl))

is_called : Reach 1 called
is_called = later falls_asleep (queue_signal 7 [] [] refl refl)

gets_busy : Reach 1 busy
gets_busy =
    later (later is_called (work [] [] woken refl (relock refl)))
      (work [] [] checking refl (take 7 [] refl))

Reach-IsPool_example : IsPool 1 busy
Reach-IsPool_example = Reach-IsPool gets_busy

Reach-Finishes_example : (t : ThreadPool) × Works called t × IsDone t
Reach-Finishes_example = Reach-Finishes (omega arith) is_called
