-- ===== src/Tests/Timers.antt =====
-- `next_timer_ms` with one connection, active at 2000, in the list.
use redis_database_basic_imp.Prelude.{
  ℕ, ◌+◌, ◌*◌, ◌≤◌, ◌<◌, ◌≡◌, refl, ◌⊎◌, arith, ◌==◌, if◌then◌else◌,
}
use redis_database_basic_imp.DList.{Links}
use redis_database_basic_imp.Timer.{next_timer_ms}
use redis_database_basic_imp.Timer.Sleep.{next_timer_ms-deadline}

-- The list's node is 1 and the connection's is 2.
abbrev ring : Links
ring = record { prev = λ n. if n == 1 then 2 else 1; next = λ n. if n == 1 then 2 else 1 }

abbrev starts : ℕ → ℕ
starts n = 2000

abbrev wait : ℕ
wait = next_timer_ms ring 1 starts 3500

next_timer_ms-deadline_example :
    (wait ≤ 5000)
    × (((5002000 ≤ 3500) × (wait ≡ 0))
        ⊎ ((3500 + wait * 1000 ≤ 5002000) × (5002000 < 3500 + (wait + 1) * 1000)))
next_timer_ms-deadline_example =
    next_timer_ms-deadline ring 1 starts 3500 refl (omega arith) (omega arith)

wait_is : wait ≡ 4998
unfolding next_timer_ms
wait_is = refl
