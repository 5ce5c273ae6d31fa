-- ===== src/Timer/Schedule.antt =====
-- EdTimerPool::scheduleTimer: which listeners it calls, and when the next call is due.
use ednio.Prelude.{
  ℕ, ◌≤◌, ◌≡◌, refl, ap, ◌∙◌, subst, List, [], ◌∷◌, false, Option, none, some, ◌==◌, if◌then◌else◌,
  ◌&&◌, map, arith, Bool-cases, inl, inr, ◌>>=◌,
}
use ednio.ObjList.Chain.{has, Distinct}
use ednio.Timer.Pool.{
  TimerInfo, FireInfo, Fired, is_due, fire_count, advance, nearer, add_fire, visit,
}
use ednio.Timer.Sound.{node_of, AllTimers, IsAt, IsAt-behind, IsAt-first}
use ednio.Timer.Fires.{Located}

-- The listeners of the due timers with their counts, in the order of the map.
unfoldable pub calls_due : ℕ → List TimerInfo → List Fired
unfolding is_due fire_count
calls_due now [] = []
calls_due now (t ∷ ts) =
    let rest = calls_due now ts in
    if is_due now t then record { of = t.handle; count = fire_count now t } ∷ rest else rest

pub fires_due : ℕ → List TimerInfo → List FireInfo
unfolding add_fire
fires_due now [] = []
fires_due now (t ∷ ts) = add_fire now t (fires_due now ts)

unfoldable pub nearest : ℕ → ℕ → List TimerInfo → ℕ
unfolding nearer advance
nearest now near [] = near
nearest now near (t ∷ ts) = nearest now (nearer (advance now t).fire_tp near) ts

pub visit_lem :
    (now near lo next : ℕ) (ts : List TimerInfo)
    → AllTimers lo next ts
    → visit now ts near ≡ some (map (advance now) ts, fires_due now ts, nearest now near ts)
unfolding visit fires_due nearest
visit_lem now near lo next [] a = refl
visit_lem now near lo next (t ∷ ts) (l, z, u, a) =
    let positive : (is_due now t && t.period == 0) ≡ false = ground arith in
    let h = visit_lem now (nearer (advance now t).fire_tp near) lo next ts a in
    let rest = visit now ts (nearer (advance now t).fire_tp near) in
    let whole : Option (List TimerInfo × List FireInfo × ℕ) =
      rest >>= λ q. some (advance now t ∷ q.0, add_fire now t q.1, q.2) in
    ap (λ b. if b then none else whole) positive
    ∙ ap (λ o. o >>= λ q. some (advance now t ∷ q.0, add_fire now t q.1, q.2)) h

pub advance_lem :
    (now : ℕ) (t : TimerInfo)
    → ((advance now t).period ≡ t.period)
      × ((advance now t).node ≡ t.node)
      × ((advance now t).handle ≡ t.handle)
unfolding advance
advance_lem now t = elim (Bool-cases (is_due now t)) [
  | inl y ↦ rw y (refl, refl, refl)
  | inr n ↦ rw n (refl, refl, refl)
]

pub nodes-advance :
    (now : ℕ) (ts : List TimerInfo) → map node_of (map (advance now) ts) ≡ map node_of ts
nodes-advance now [] = refl
nodes-advance now (t ∷ ts) =
    ap (λ l. (advance now t).node ∷ l) (nodes-advance now ts)
    ∙ ap (λ n. n ∷ map node_of ts) (advance_lem now t).1

pub nearer_lem : (a b : ℕ) → (nearer a b ≤ a) × (nearer a b ≤ b)
unfolding nearer
nearer_lem a b = ground arith

pub nearest_first : (now near : ℕ) (ts : List TimerInfo) → nearest now near ts ≤ near
unfolding nearest
nearest_first now near [] = omega arith
nearest_first now near (t ∷ ts) =
    let tp = (advance now t).fire_tp in
    omega (arith, (nearer_lem tp near).1, nearest_first now (nearer tp near) ts)

pub advance-AllTimers :
    (now near lo next : ℕ) (ts : List TimerInfo)
    → AllTimers lo next ts
    → AllTimers (nearest now near ts) next (map (advance now) ts)
unfolding nearest
advance-AllTimers now near lo next [] a = tt
advance-AllTimers now near lo next (t ∷ ts) (l, z, u, a) =
    let tp = (advance now t).fire_tp in
    let (e, n, h) = advance_lem now t in
    (
      omega (arith, (nearer_lem tp near).0, nearest_first now (nearer tp near) ts),
      omega (arith, e),
      omega (arith, n),
      advance-AllTimers now (nearer tp near) lo next ts a,
    )

behind_lem :
    (now : ℕ) (t : TimerInfo) (us ts : List TimerInfo)
    → has t.node (map node_of ts) ≡ false
    → Located us (fires_due now ts) (calls_due now ts)
    → Located (t ∷ us) (fires_due now ts) (calls_due now ts)
unfolding fires_due calls_due add_fire
behind_lem now t us [] o l = tt
behind_lem now t us (x ∷ ts) o l =
    let rest = behind_lem now t us ts (ground arith) in
    elim (Bool-cases (is_due now x)) [
      | inl y ↦
          let (a, e, k) = rw y at l in
          rw y (IsAt-behind x.node x.handle t us (ground arith) a, e, rest k)
      | inr n ↦ rw n (rest (rw n at l))
    ]

pub located :
    (now : ℕ) (ts : List TimerInfo)
    → Distinct (map node_of ts)
    → Located (map (advance now) ts) (fires_due now ts) (calls_due now ts)
unfolding fires_due calls_due add_fire
located now [] d = tt
located now (t ∷ ts) (o, d) =
    let (e, n, h) = advance_lem now t in
    let k =
      behind_lem now (advance now t) (map (advance now) ts) ts
        (ap (λ x. has x (map node_of ts)) n ∙ o) (located now ts d) in
    elim (Bool-cases (is_due now t)) [
      | inl y ↦ rw y (
        subst (λ x. IsAt t.node x (advance now t ∷ map (advance now) ts)) h
            (IsAt-first t.node (advance now t) (map (advance now) ts) n),
        refl,
        k,
      )
      | inr m ↦ rw m k
    ]
