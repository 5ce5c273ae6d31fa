-- ===== src/Timer/TaskTimers.antt =====
-- The timers of an EdTask (ednio/EdTask.cpp): mTimerMap, with an EdTimer for each id.
use ednio.Prelude.{ℕ, List, [], ◌∷◌, Option, none, some, ◌==◌, if◌then◌else◌}
use ednio.Timer.{EdTimer, new_timer, set}

pub record TaskTimer : Type 0 where
  pub timer_id : ℕ
  pub timer : EdTimer

-- `EdTask::setTimer`: the timer of the id, or a new one, is set.
unfoldable pub set_task_timer : ℕ → ℕ → ℕ → List TaskTimer → List TaskTimer
unfolding set
set_task_timer id msec inittime [] =
    record { timer_id = id; timer = set msec inittime new_timer } ∷ []
set_task_timer id msec inittime (t ∷ ts) =
    let rest = set_task_timer id msec inittime ts in
    if t.timer_id == id then record t { timer = set msec inittime t.timer } ∷ ts else t ∷ rest

-- `EdTask::killTimer`: the timer of the id is killed and deleted.
unfoldable pub kill_task_timer : ℕ → List TaskTimer → List TaskTimer
kill_task_timer id [] = []
kill_task_timer id (t ∷ ts) =
    let rest = kill_task_timer id ts in if t.timer_id == id then ts else t ∷ rest

-- `EdTask::cleanupAllTimer`.
unfoldable pub cleanup_all_timer : List TaskTimer → List TaskTimer
cleanup_all_timer ts = []

-- `mTimerMap.find`.
unfoldable pub find_timer : ℕ → List TaskTimer → Option EdTimer
find_timer id [] = none
find_timer id (t ∷ ts) = if t.timer_id == id then some t.timer else find_timer id ts
