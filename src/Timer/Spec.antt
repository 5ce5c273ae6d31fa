-- ===== src/Timer/Spec.antt =====
-- EdTimer and EdTimerPool: what a call of scheduleTimer does, and when it leaves the timer unarmed.
use ednio.Prelude.{
  ℕ, ◌+◌, ◌*◌, ◌/◌, ◌%◌, ◌^◌, ◌-◌, ◌≤◌, ◌<◌, ◌≡◌, refl, sym, ap, ◌∙◌, subst, List, [], ◌∷◌, ◌++◌,
  Bool, true, false, Option, none, some, leb, ltb, if◌then◌else◌, ◌||◌, map, arith, Bool-cases, inl,
  inr, true≢false, ◌>>=◌, append-nil,
}
use ednio.ObjList.Chain.{Distinct}
use ednio.Timer.{EdTimer, set_usec, timerfd_settime}
use ednio.Timer.Pool.{
  TimerInfo, TimerPool, Fired, is_due, fire_count, advance, nearer, visit, Listeners, arm_next,
  schedule_visited, schedule_timer, time_max,
}
use ednio.Timer.Sound.{IsPool}
use ednio.Timer.Fires.{IsSetting, FiresAll, fire_all-FiresAll}
use ednio.Timer.Schedule.{
  calls_due, fires_due, nearest, visit_lem, nodes-advance, advance-AllTimers, located, nearer_lem,
  nearest_first,
}

-- The pool before the main timer is armed again.
Visited : Listeners → ℕ → TimerPool → Type 0
Visited w now p =
    (q : TimerPool) × ((visit now p.timer_map time_max >>= schedule_visited w p)
      ≡ some (arm_next w q))
    × IsPool q
    × (q.near_tp ≤ nearest now time_max p.timer_map)
    × (q.fired ≡ p.fired ++ calls_due now p.timer_map)

visited : (w : Listeners) (now : ℕ) (p : TimerPool) → IsSetting w → IsPool p → Visited w now p
unfolding Visited FiresAll schedule_visited
visited w now p s i =
    let ts = map (advance now) p.timer_map in
    let near = nearest now time_max p.timer_map in
    let p1 = record p { timer_map = ts; near_tp = near } in
    let (q, h, j, u, m) =
      fire_all-FiresAll w (fires_due now p.timer_map) (calls_due now p.timer_map) p1 s
        record {
          distinct = subst Distinct (sym (nodes-advance now p.timer_map)) i.distinct;
          timers = advance-AllTimers now time_max p.near_tp p.next_node p.timer_map i.timers;
        }
        (located now p.timer_map i.distinct) in
    (
      q,
      ap (λ o. o >>= schedule_visited w p)
            (visit_lem now time_max p.near_tp p.next_node p.timer_map i.timers)
          ∙ ap (λ o. o >>= λ x. some (arm_next w x)) h,
      j,
      u,
      m,
    )

schedule_empty :
    (w : Listeners) (now : ℕ) (p : TimerPool) → p.timer_map ≡ [] → schedule_timer w now p ≡ some p
unfolding schedule_timer
schedule_empty w now p e =
    ap
      (λ l. elim l as (λ _. Option TimerPool) [
        | [] ↦ some p
        | _ ∷ _ ↦ visit now p.timer_map time_max >>= schedule_visited w p
      ])
      e

schedule_some :
    (w : Listeners) (now : ℕ) (p : TimerPool) (t : TimerInfo) (ts : List TimerInfo)
    → p.timer_map ≡ t ∷ ts
    → schedule_timer w now p ≡ (visit now p.timer_map time_max >>= schedule_visited w p)
unfolding schedule_timer
schedule_some w now p t ts e =
    ap
      (λ l. elim l as (λ _. Option TimerPool) [
        | [] ↦ some p
        | _ ∷ _ ↦ visit now p.timer_map time_max >>= schedule_visited w p
      ])
      e

-- The due listeners are called, each once, and the pool is sound again.
Scheduled : Listeners → ℕ → TimerPool → Type 0
Scheduled w now p =
    (p' : TimerPool) × (schedule_timer w now p ≡ some p')
    × IsPool p'
    × (p'.fired ≡ p.fired ++ calls_due now p.timer_map)

calls_on :
    (w : Listeners) (now : ℕ) (p : TimerPool) (ts : List TimerInfo)
    → p.timer_map ≡ ts
    → IsSetting w
    → IsPool p
    → Scheduled w now p
unfolding Scheduled Visited calls_due arm_next
calls_on w now p [] e s i = (
  p,
  schedule_empty w now p e,
  i,
  sym (append-nil p.fired) ∙ ap (λ l. p.fired ++ calls_due now l) (sym e),
)
calls_on w now p (t ∷ ts) e s i =
    let (q, h, j, u, m) = visited w now p s i in
    (
      arm_next w q,
      schedule_some w now p t ts e ∙ h,
      record { distinct = j.distinct; timers = j.timers },
      m,
    )

-- The timers whose time has come, up to the microsecond, with the whole microseconds that have passed
-- since: their number of periods plus what is left over, as a number of 32 bits.
unfoldable pub expected_calls : ℕ → List TimerInfo → List Fired
expected_calls now [] = []
expected_calls now (t ∷ ts) =
    let rest = expected_calls now ts in
    let late = (now - t.fire_tp) / 1000 in
    if leb t.fire_tp (now + 999)
    then record { of = t.handle; count = (late / t.period + late % t.period) % 2 ^ 32 } ∷ rest
    else rest

due_test : (now : ℕ) (t : TimerInfo) → is_due now t ≡ leb t.fire_tp (now + 999)
unfolding is_due
due_test now t = ground arith

calls_due-expected_calls :
    (now : ℕ) (ts : List TimerInfo) → calls_due now ts ≡ expected_calls now ts
unfolding calls_due expected_calls fire_count
calls_due-expected_calls now [] = refl
calls_due-expected_calls now (t ∷ ts) =
    let c : Fired = record { of = t.handle; count = fire_count now t } in
    ap (λ b. if b then c ∷ calls_due now ts else calls_due now ts) (due_test now t)
    ∙ ap (λ l. if leb t.fire_tp (now + 999) then c ∷ l else l) (calls_due-expected_calls now ts)

-- For listeners that set timers with periods and kill none: from a sound pool, scheduleTimer faults
-- nowhere, calls the listener of each timer whose time has come, and no other, once, in the order of
-- the map, with its count, and leaves a sound pool: no timer fires before the near time.
pub schedule_timer-expected_calls :
    (w : Listeners) (now : ℕ) (p : TimerPool)
    → IsSetting w
    → IsPool p
    → (p' : TimerPool) × (schedule_timer w now p ≡ some p')
      × IsPool p'
      × (p'.fired ≡ p.fired ++ expected_calls now p.timer_map)
unfolding Scheduled
schedule_timer-expected_calls w now p s i =
    let (q, h, j, m) = calls_on w now p p.timer_map refl s i in
    (q, h, j, m ∙ ap (λ l. p.fired ++ l) (calls_due-expected_calls now p.timer_map))

-- A timer that is late by a whole period, up to the microsecond.
unfoldable pub is_late : ℕ → TimerInfo → Bool
is_late now t = ltb (t.fire_tp + t.period * 1000) (now + 1000)

unfoldable pub any_late : ℕ → List TimerInfo → Bool
unfolding is_late
any_late now [] = false
any_late now (t ∷ ts) = is_late now t || any_late now ts

late_tp : (now : ℕ) (t : TimerInfo) → is_late now t ≡ true → (advance now t).fire_tp < now + 1000
unfolding is_late advance is_due
late_tp now t h = ground arith

late_nearest :
    (now near : ℕ) (ts : List TimerInfo) → any_late now ts ≡ true → nearest now near ts < now + 1000
unfolding any_late nearest
late_nearest now near [] h = cc
late_nearest now near (t ∷ ts) h =
    let tp = (advance now t).fire_tp in
    elim (Bool-cases (is_late now t)) [
      | inl y ↦
          omega
            (arith, late_tp now t y, (nearer_lem tp near).0, nearest_first now (nearer tp near) ts)
      | inr n ↦ late_nearest now (nearer tp near) ts (rw n at h)
    ]

unarmed : (usec : ℕ) (t : EdTimer) → usec ≡ 0 → (set_usec usec 0 t).armed ≡ none
unfolding set_usec timerfd_settime
unarmed usec t e = ap (λ u. (set_usec u 0 t).armed) e

late_on :
    (w : Listeners) (now : ℕ) (p : TimerPool) (ts : List TimerInfo)
    → p.timer_map ≡ ts
    → IsSetting w
    → ((q : TimerPool) → now ≤ w.done q)
    → IsPool p
    → any_late now p.timer_map ≡ true
    → (p' : TimerPool) × (schedule_timer w now p ≡ some p') × (p'.main_timer.armed ≡ none)
unfolding Visited arm_next any_late
late_on w now p [] e s d i l = absurd (true≢false (sym l ∙ ap (any_late now) e))
late_on w now p (t ∷ ts) e s d i l =
    let (q, h, j, u, m) = visited w now p s i in
    (
      arm_next w q,
      schedule_some w now p t ts e ∙ h,
      unarmed ((q.near_tp - w.done q) / 1000) q.main_timer
          (omega (arith, u, d q, late_nearest now time_max p.timer_map l)),
    )

-- For listeners that set timers with periods and kill none: from a sound pool with a timer that is
-- late by a whole period, scheduleTimer leaves the main timer unarmed, whatever the listeners set.
pub schedule_timer-any_late :
    (w : Listeners) (now : ℕ) (p : TimerPool)
    → IsSetting w
    → ((q : TimerPool) → now ≤ w.done q)
    → IsPool p
    → any_late now p.timer_map ≡ true
    → (p' : TimerPool) × (schedule_timer w now p ≡ some p') × (p'.main_timer.armed ≡ none)
schedule_timer-any_late w now p s d i l = late_on w now p p.timer_map refl s d i l
