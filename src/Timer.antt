-- ===== src/Timer.antt =====
-- EdTimer (ednio/EdTimer.cpp): a timerfd and the time specification that was last given to it.
pub mod Pool
pub mod Sound
pub mod Fires
pub mod Schedule
pub mod Spec
pub mod TaskTimers
pub mod Arming
mod Tests
use ednio.Prelude.{
  ℕ, zero, suc, ◌+◌, ◌*◌, ◌/◌, ◌%◌, ◌^◌, ◌-◌, Bool, true, false, Option, none, some, ◌==◌,
  if◌then◌else◌,
}

-- `itimerspec`, its interval and its first value.
pub record TimerSpec : Type 0 where
  pub interval_sec : ℕ
  pub interval_nsec : ℕ
  pub value_sec : ℕ
  pub value_nsec : ℕ

-- What the timerfd does next: nothing, or expire after so many nanoseconds and then in the interval.
pub record Armed : Type 0 where
  pub after : ℕ
  pub every : ℕ

pub record EdTimer : Type 0 where
  pub is_open : Bool
  pub timer_spec : TimerSpec
  pub armed : Option Armed

abbrev pub new_timer : EdTimer
new_timer = record {
  is_open = false;
  timer_spec = record { interval_sec = 0; interval_nsec = 0; value_sec = 0; value_nsec = 0 };
  armed = none;
}

-- `timerfd_settime`: a value of 0 disarms the timer.
unfoldable pub timerfd_settime : TimerSpec → Option Armed
timerfd_settime s =
    let after = s.value_sec * 1000000000 + s.value_nsec in
    if after == 0
    then none
    else some record { after = after; every = s.interval_sec * 1000000000 + s.interval_nsec }

unfoldable pub set_usec : ℕ → ℕ → EdTimer → EdTimer
unfolding timerfd_settime
set_usec usec first_usec t =
    let iusec = if first_usec == 0 then usec else first_usec in
    let s : TimerSpec = record {
      interval_sec = usec / 1000000;
      interval_nsec = usec % 1000000 * 1000;
      value_sec = iusec / 1000000;
      value_nsec = iusec % 1000000 * 1000;
    } in
    record { is_open = true; timer_spec = s; armed = timerfd_settime s }

-- The products are of 32 bits.
unfoldable pub set : ℕ → ℕ → EdTimer → EdTimer
unfolding set_usec
set msec first_msec t = set_usec (msec * 1000 % 2 ^ 32) (first_msec * 1000 % 2 ^ 32) t

unfoldable pub kill : EdTimer → EdTimer
kill t = if t.is_open then record t { is_open = false; armed = none } else t

unfoldable pub pause : EdTimer → EdTimer
pause t = record t { armed = none }

unfoldable pub resume : EdTimer → EdTimer
unfolding timerfd_settime
resume t = record t { armed = timerfd_settime t.timer_spec }

unfoldable pub reset : EdTimer → EdTimer
unfolding pause resume
reset t = resume (pause t)
