-- ===== src/Timer/Tests.antt =====
-- Runs of EdTimer and EdTimerPool at concrete inputs.
use ednio.Prelude.{◌≡◌, refl, List, [], ◌∷◌, ◌++◌, arith, true, some, none}
use ednio.Timer.{new_timer}
use ednio.Timer.Pool.{
  TimerPool, open_pool, put, fire_earlier, new_handle, set_timer_us, sets, Listeners,
  schedule_timer,
}
use ednio.ObjList.Chain.{Distinct}
use ednio.Timer.TaskTimers.{TaskTimer, set_task_timer, kill_task_timer, find_timer}
use ednio.Timer.Arming.{ids, IsArmed, first_expiry, set_task_timer-kill_task_timer}
use ednio.Timer.Sound.{IsPool, set_timer_us-Keeps}
use ednio.Timer.Fires.{IsSetting}
use ednio.Timer.Spec.{
  any_late, is_late, expected_calls, schedule_timer-expected_calls, schedule_timer-any_late,
}

-- One timer after 1 ms every 2 ms, one after 9 ms every 5 ms.
unfoldable one_timer : TimerPool
one_timer = (set_timer_us 0 0 1000 2000 7 open_pool).0

unfoldable two_timers : TimerPool
two_timers = (set_timer_us 0 0 9000 5000 8 one_timer).0

open-IsPool : IsPool open_pool
open-IsPool = record { distinct = tt; timers = tt }

two_timers-IsPool : IsPool two_timers
unfolding two_timers one_timer
two_timers-IsPool =
    let k = set_timer_us-Keeps 0 0 1000 2000 7 open_pool (omega arith) open-IsPool in
    (set_timer_us-Keeps 0 0 9000 5000 8 one_timer (omega arith) k.sound).sound

-- Each listener sets a timer.
abbrev listeners : Listeners
listeners = record { acts = λ lis cnt p. sets 9500000 0 100 100 9 ∷ []; done = λ p. 9600000 }

listeners-IsSetting : IsSetting listeners
listeners-IsSetting lis cnt p = (omega arith, tt)

-- The first one is 8.5 ms late.
counts :
    expected_calls 9500000 two_timers.timer_map
    ≡ record { of = 1; count = 504 } ∷ record { of = 2; count = 500 } ∷ []
unfolding expected_calls two_timers one_timer set_timer_us put fire_earlier new_handle
counts = refl

schedule_timer-expected_calls_example :
    (p' : TimerPool) × (schedule_timer listeners 9500000 two_timers ≡ some p')
    × IsPool p'
    × (p'.fired ≡ two_timers.fired ++ expected_calls 9500000 two_timers.timer_map)
schedule_timer-expected_calls_example =
    schedule_timer-expected_calls listeners 9500000 two_timers listeners-IsSetting two_timers-IsPool

two_timers-any_late : any_late 9500000 two_timers.timer_map ≡ true
unfolding any_late is_late two_timers one_timer set_timer_us put fire_earlier new_handle
two_timers-any_late = refl

schedule_timer-any_late_example :
    (p' : TimerPool) × (schedule_timer listeners 9500000 two_timers ≡ some p')
    × (p'.main_timer.armed ≡ none)
schedule_timer-any_late_example =
    schedule_timer-any_late listeners 9500000 two_timers listeners-IsSetting (λ q. omega arith)
      two_timers-IsPool two_timers-any_late

abbrev some_timers : List TaskTimer
some_timers =
    record { timer_id = 3; timer = new_timer } ∷ record { timer_id = 4; timer = new_timer } ∷ []

set_task_timer-kill_task_timer_example :
    let us = set_task_timer 4 50 20 some_timers in
    IsArmed (find_timer 4 us) (first_expiry 50 20)
    × (find_timer 3 us ≡ find_timer 3 some_timers)
    × (find_timer 4 (kill_task_timer 4 us) ≡ none)
    × (find_timer 3 (kill_task_timer 4 us) ≡ find_timer 3 some_timers)
    × Distinct (ids us)
set_task_timer-kill_task_timer_example =
    set_task_timer-kill_task_timer 4 3 50 20 some_timers (omega arith) (omega arith) (omega arith)
      (refl, (refl, tt)) refl
