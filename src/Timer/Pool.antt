-- ===== src/Timer/Pool.antt =====
-- EdTimerPool (ednio/EdTimerPool.cpp): many timers over one EdTimer. Times are nanoseconds of the
-- steady clock, so small that no sum of a time and a period exceeds 63 bits.
use ednio.Prelude.{
  ℕ, ◌+◌, ◌*◌, ◌/◌, ◌%◌, ◌^◌, ◌-◌, List, [], ◌∷◌, ◌++◌, Bool, Option, none, some, ◌==◌, ltb,
  if◌then◌else◌, ◌>>=◌, ◌&&◌,
}
use ednio.Timer.{EdTimer, new_timer, set_usec, kill}

-- `TimerInfo`, at the node of the map that holds it; `lis` says which listener it has.
pub record TimerInfo : Type 0 where
  pub handle : ℕ
  pub fire_tp : ℕ
  pub period : ℕ
  pub lis : ℕ
  pub node : ℕ

-- An entry of `_fireList`: the count and the pointer to a node.
pub record FireInfo : Type 0 where
  pub cnt : ℕ
  pub ptr : ℕ

-- A call of a listener.
pub record Fired : Type 0 where
  pub of : ℕ
  pub count : ℕ

pub record TimerPool : Type 0 where
  pub main_timer : EdTimer
  pub near_tp : ℕ
  -- `_timerMap`, in the order in which it is gone through.
  pub timer_map : List TimerInfo
  pub handle_seed : ℕ
  -- The node that the map allocates next, and the calls made.
  pub next_node : ℕ
  pub fired : List Fired

-- `time_point::max()`.
abbrev pub time_max : ℕ
time_max = 2 ^ 63 - 1

-- The pool once `open` has been called.
abbrev pub open_pool : TimerPool
open_pool = record {
  main_timer = new_timer;
  near_tp = time_max;
  timer_map = [];
  handle_seed = 0;
  next_node = 1;
  fired = [];
}

unfoldable pub close_pool : TimerPool → TimerPool
unfolding kill
close_pool p = record p { main_timer = kill p.main_timer; timer_map = [] }

unfoldable pub new_handle : ℕ → ℕ
new_handle seed = let h = (seed + 1) % 2 ^ 32 in if h == 0 then 1 else h

-- `_timerMap[handle]` and the assignments to it.
unfoldable pub put : TimerInfo → List TimerInfo → List TimerInfo
put t [] = t ∷ []
put t (x ∷ xs) =
    let rest = put t xs in
    if x.handle == t.handle then record t { node = x.node } ∷ xs else x ∷ rest

unfoldable pub fire_earlier : ℕ → ℕ → TimerPool → TimerPool
unfolding set_usec
fire_earlier now tp p =
    if ltb tp p.near_tp
    then record p { near_tp = tp; main_timer = set_usec ((tp - now) / 1000) 0 p.main_timer }
    else p

-- `setTimerUs` at a time of the clock: the pool and the handle.
unfoldable pub set_timer_us : ℕ → ℕ → ℕ → ℕ → ℕ → TimerPool → TimerPool × ℕ
unfolding new_handle put fire_earlier
set_timer_us now handle firstus periodus lis p =
    let seed = if handle == 0 then new_handle p.handle_seed else p.handle_seed in
    let h = if handle == 0 then seed else handle in
    let tp = now + firstus * 1000 in
    let t : TimerInfo = record {
      handle = h;
      fire_tp = tp;
      period = periodus;
      lis = lis;
      node = p.next_node;
    } in
    (
      fire_earlier now tp record p {
        timer_map = put t p.timer_map;
        handle_seed = seed;
        next_node = p.next_node + 1;
      },
      h,
    )

unfoldable pub erase_timer : ℕ → List TimerInfo → List TimerInfo
erase_timer id [] = []
erase_timer id (x ∷ xs) = let rest = erase_timer id xs in if x.handle == id then xs else x ∷ rest

unfoldable pub kill_timer : ℕ → TimerPool → TimerPool
unfolding erase_timer
kill_timer id p = record p { timer_map = erase_timer id p.timer_map }

-- The casts to microseconds drop the fraction of either sign: `us >= 0` holds from one microsecond
-- before the time on.
unfoldable pub is_due : ℕ → TimerInfo → Bool
is_due now t = ltb t.fire_tp (now + 1000)

-- The count that a due timer's listener gets, in the 32 bits of an int.
unfoldable pub fire_count : ℕ → TimerInfo → ℕ
fire_count now t = let us = (now - t.fire_tp) / 1000 in (us / t.period + us % t.period) % 2 ^ 32

unfoldable pub advance : ℕ → TimerInfo → TimerInfo
unfolding is_due
advance now t = if is_due now t then record t { fire_tp = t.fire_tp + t.period * 1000 } else t

unfoldable pub nearer : ℕ → ℕ → ℕ
nearer tp near = if ltb tp near then tp else near

unfoldable pub add_fire : ℕ → TimerInfo → List FireInfo → List FireInfo
unfolding is_due fire_count
add_fire now t fs =
    if is_due now t then record { cnt = fire_count now t; ptr = t.node } ∷ fs else fs

-- The loop over the map: the timers with their next times, `_fireList` and `_nearTp`. A due timer
-- with a period of 0 divides by zero.
unfoldable pub visit : ℕ → List TimerInfo → ℕ → Option (List TimerInfo × List FireInfo × ℕ)
unfolding is_due advance nearer add_fire
visit now [] near = some ([], [], near)
visit now (t ∷ ts) near =
    let rest = visit now ts (nearer (advance now t).fire_tp near) in
    if is_due now t && t.period == 0
    then none
    else (do q ← rest; some (advance now t ∷ q.0, add_fire now t q.1, q.2))

-- A pointer to a node that is not in the map dangles.
unfoldable pub find_node : ℕ → List TimerInfo → Option TimerInfo
find_node n [] = none
find_node n (t ∷ ts) = if t.node == n then some t else find_node n ts

-- What a listener does with the pool, at the times of its calls.
pub data PoolCall : Type 0 where
  sets : (now handle firstus periodus lis : ℕ) → PoolCall
  kills : (id : ℕ) → PoolCall

unfoldable pub pool_call : PoolCall → TimerPool → TimerPool
unfolding set_timer_us kill_timer
pool_call (sets now handle firstus periodus lis) p =
    (set_timer_us now handle firstus periodus lis p).0
pool_call (kills id) p = kill_timer id p

unfoldable pub pool_calls : List PoolCall → TimerPool → TimerPool
unfolding pool_call
pool_calls [] p = p
pool_calls (c ∷ cs) p = pool_calls cs (pool_call c p)

-- The listeners, and the time at which the last one has returned.
pub record Listeners : Type 0 where
  pub acts : ℕ → ℕ → TimerPool → List PoolCall
  pub done : TimerPool → ℕ

module _ (w : Listeners) where
  unfoldable pub fire_all : List FireInfo → TimerPool → Option TimerPool
  unfolding find_node pool_calls
  fire_all [] p = some p
  fire_all (f ∷ fs) p = find_node f.ptr p.timer_map >>= λ t. fire_all fs (
      pool_calls (w.acts t.lis f.cnt p)
        record p { fired = p.fired ++ record { of = t.handle; count = f.cnt } ∷ [] })

  -- The end of `scheduleTimer`.
  unfoldable pub arm_next : TimerPool → TimerPool
  unfolding set_usec
  arm_next p = record p { main_timer = set_usec ((p.near_tp - w.done p) / 1000) 0 p.main_timer }

  unfoldable pub schedule_visited :
      TimerPool → List TimerInfo × List FireInfo × ℕ → Option TimerPool
  unfolding fire_all arm_next
  schedule_visited p q = do
    p' ← fire_all q.1 record p { timer_map = q.0; near_tp = q.2 }
    some (arm_next p')

  unfoldable pub schedule_timer : ℕ → TimerPool → Option TimerPool
  unfolding visit schedule_visited
  schedule_timer now p = elim p.timer_map [
    | [] ↦ some p
    | _ ∷ _ ↦ visit now p.timer_map time_max >>= schedule_visited p
  ]
