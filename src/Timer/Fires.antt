-- ===== src/Timer/Fires.antt =====
-- EdTimerPool::scheduleTimer: the loop over the timers and the calls of the listeners.
use ednio.Prelude.{
  ℕ, ◌≤◌, ◌<◌, ◌≡◌, refl, sym, ap, ◌∙◌, List, [], ◌∷◌, ◌++◌, true, false, some, arith, ◌>>=◌,
  append_assoc, append-nil,
}
use ednio.Timer.Pool.{
  TimerInfo, TimerPool, FireInfo, Fired, PoolCall, sets, kills, pool_call, pool_calls, Listeners,
  fire_all,
}
use ednio.Timer.Sound.{IsPool, IsAt, Keeps, Keeps-refl, Keeps-trans, set_timer_us-Keeps}

-- Listeners that set timers with periods and kill none.
abbrev pub OnlySets : List PoolCall → Type 0
OnlySets [] = Unit {0}
OnlySets (sets now handle firstus periodus lis ∷ cs) = (0 < periodus) × OnlySets cs
OnlySets (kills id ∷ cs) = true ≡ false

abbrev pub IsSetting : Listeners → Type 0
IsSetting w = (lis cnt : ℕ) (p : TimerPool) → OnlySets (w.acts lis cnt p)

pub pool_calls-Keeps :
    (cs : List PoolCall) (p : TimerPool) → OnlySets cs → IsPool p → Keeps p (pool_calls cs p)
unfolding pool_calls pool_call
pool_calls-Keeps [] p o i = Keeps-refl p i
pool_calls-Keeps (sets now handle firstus periodus lis ∷ cs) p (z, o) i =
    let q = pool_call (sets now handle firstus periodus lis) p in
    let k = set_timer_us-Keeps now handle firstus periodus lis p z i in
    Keeps-trans p q (pool_calls cs q) k (pool_calls-Keeps cs q o k.sound)
pool_calls-Keeps (kills id ∷ cs) p o i = cc

-- The pointers lead to timers with the handles of the calls.
abbrev pub Located : List TimerInfo → List FireInfo → List Fired → Type 0
Located ts [] [] = Unit {0}
Located ts [] (c ∷ cs) = true ≡ false
Located ts (f ∷ fs) [] = true ≡ false
Located ts (f ∷ fs) (c ∷ cs) = IsAt f.ptr c.of ts × (f.cnt ≡ c.count) × Located ts fs cs

Located-kept :
    (ts us : List TimerInfo) (fs : List FireInfo) (cs : List Fired)
    → ((n h : ℕ) → IsAt n h ts → IsAt n h us)
    → Located ts fs cs
    → Located us fs cs
Located-kept ts us [] [] k l = tt
Located-kept ts us [] (c ∷ cs) k l = l
Located-kept ts us (f ∷ fs) [] k l = l
Located-kept ts us (f ∷ fs) (c ∷ cs) k (a, e, l) = (k f.ptr c.of a, e, Located-kept ts us fs cs k l)

unfoldable pub FiresAll : Listeners → List FireInfo → TimerPool → List Fired → Type 0
FiresAll w fs p cs =
    (p' : TimerPool) × (fire_all w fs p ≡ some p')
    × IsPool p'
    × (p'.near_tp ≤ p.near_tp)
    × (p'.fired ≡ p.fired ++ cs)

fired_eq : (h n : ℕ) (c : Fired) → h ≡ c.of → n ≡ c.count → record { of = h; count = n } ≡ c
fired_eq h n c e f = cc

pub fire_all-FiresAll :
    (w : Listeners) (fs : List FireInfo) (cs : List Fired) (p : TimerPool)
    → IsSetting w
    → IsPool p
    → Located p.timer_map fs cs
    → FiresAll w fs p cs
unfolding fire_all FiresAll IsAt
fire_all-FiresAll w [] [] p s i l = (p, refl, i, omega arith, sym (append-nil p.fired))
fire_all-FiresAll w [] (c ∷ cs) p s i l = cc
fire_all-FiresAll w (f ∷ fs) [] p s i l = cc
fire_all-FiresAll w (f ∷ fs) (c ∷ cs) p s i ((t, g, e), n, l) =
    let d : Fired = record { of = t.handle; count = f.cnt } in
    let p1 = record p { fired = p.fired ++ d ∷ [] } in
    let p2 = pool_calls (w.acts t.lis f.cnt p) p1 in
    let k =
      pool_calls-Keeps (w.acts t.lis f.cnt p) p1 (s t.lis f.cnt p)
        record { distinct = i.distinct; timers = i.timers } in
    let (p3, h, j, u, m) =
      fire_all-FiresAll w fs cs p2 s k.sound
        (Located-kept p.timer_map p2.timer_map fs cs k.nodes l) in
    (
      p3,
      ap
            (λ o. o >>= λ x. fire_all w fs (
              pool_calls (w.acts x.lis f.cnt p)
                record p { fired = p.fired ++ record { of = x.handle; count = f.cnt } ∷ [] }))
            g
          ∙ h,
      j,
      omega (arith, u, k.nearer),
      m
          ∙ ap (λ x. x ++ cs) k.calls
          ∙ append_assoc p.fired (d ∷ []) cs
          ∙ ap (λ x. p.fired ++ x ∷ cs) (fired_eq t.handle f.cnt c e n),
    )
