-- ===== src/Timer.antt =====
-- timer.h and timer.cpp: the clock, and `next_timer_ms`, how long the server may sleep.
--
-- `starts` is the `idle_start` of the connection of each node of the idle list, and `now_us` the
-- clock's reading.
pub mod Sleep
pub mod Process
pub mod Entries
pub mod Drop
pub mod Arm
pub mod Expire
pub mod Idle
use redis_database_basic_imp.Prelude.{ℕ, ◌+◌, ◌-◌, ◌*◌, ◌/◌, ◌%◌, ◌^◌, leb, if◌then◌else◌}
use redis_database_basic_imp.DList.{Links, d_list_empty}

abbrev pub k_idle_timeout_ms : ℕ
k_idle_timeout_ms = 5000

-- `next->idle_start + k_idle_timeout_ms * 1000`
abbrev pub idle_deadline : ℕ → ℕ
idle_deadline idle_start = (idle_start + k_idle_timeout_ms * 1000) % 2 ^ 64

-- The clock in microseconds; `clock_gettime` gives the seconds and the nanoseconds.
unfoldable pub get_monotonic_usec : ℕ → ℕ → ℕ
get_monotonic_usec tv_sec tv_nsec = (tv_sec * 1000000 % 2 ^ 64 + tv_nsec / 1000) % 2 ^ 64

unfoldable pub next_timer_ms : Links → ℕ → (ℕ → ℕ) → ℕ → ℕ
next_timer_ms l idle_list starts now_us =
    let next_us = idle_deadline (starts (l.next idle_list)) in
    let wait = (next_us - now_us) / 1000 % 2 ^ 32 in
    let timeout = if leb next_us now_us then 0 else wait in
    if d_list_empty l idle_list then 10000 else timeout
