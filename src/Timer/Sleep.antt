-- ===== src/Timer/Sleep.antt =====
-- The sleep that `next_timer_ms` allows, and the timeout of the connection at the front of the list.
use redis_database_basic_imp.Prelude.{
  ℕ, ◌+◌, ◌-◌, ◌*◌, ◌/◌, ◌%◌, ◌^◌, ◌≤◌, ◌<◌, ◌≡◌, refl, inl, inr, ◌⊎◌, false, Bool-cases, arith,
  leb,
}
use redis_database_basic_imp.DList.{Links, d_list_empty}
use redis_database_basic_imp.Timer.{idle_deadline, next_timer_ms}

-- With a connection at the front of the list, with a start no later than now, whose idle timeout of
-- five seconds after it is in 64 bits, the sleep is at most five seconds, and it ends at that timeout,
-- less than a millisecond early; it is zero if the timeout has passed.
pub next_timer_ms-deadline :
    (l : Links) (idle_list : ℕ) (starts : ℕ → ℕ) (now_us : ℕ)
    → d_list_empty l idle_list ≡ false
    → starts (l.next idle_list) ≤ now_us
    → starts (l.next idle_list) + 5000000 < 2 ^ 64
    → let end = starts (l.next idle_list) + 5000000 in
      let wait = next_timer_ms l idle_list starts now_us in
      (wait ≤ 5000)
      × (((end ≤ now_us) × (wait ≡ 0))
          ⊎ ((now_us + wait * 1000 ≤ end) × (end < now_us + (wait + 1) * 1000)))
unfolding next_timer_ms
next_timer_ms-deadline l idle_list starts now_us some_conn before room =
    let start = starts (l.next idle_list) in
    let due : idle_deadline start ≡ start + 5000000 = omega (arith, room) in
    elim (Bool-cases (leb (idle_deadline start) now_us)) [
      | inl passed ↦ rw (some_conn, passed) (omega arith, inl (ground (arith, due), refl))
      | inr ahead ↦
          let small : (idle_deadline start - now_us) / 1000 % 2 ^ 32
              ≡ (idle_deadline start - now_us) / 1000 =
            omega (arith, due, before) in
          let later : now_us < idle_deadline start = ground arith in
          rw (some_conn, ahead, small)
            (omega (arith, due, before), inr (omega (arith, due, later), omega (arith, due, later)))
    ]
