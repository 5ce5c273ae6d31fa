-- ===== src/Timer/Sound.antt =====
-- EdTimerPool: the state between its calls.
use mathlib.Core.Option.{some-injective}
use ednio.Prelude.{
  ℕ, ◌+◌, ◌*◌, ◌≤◌, ◌<◌, ◌≡◌, refl, sym, ap, ◌∙◌, subst, List, [], ◌∷◌, false, some, ◌==◌, ==_iff,
  ltb, if◌then◌else◌, map, arith, Bool-cases, inl, inr,
}
use ednio.ObjList.Chain.{has, Distinct}
use ednio.Timer.Pool.{TimerInfo, TimerPool, put, fire_earlier, set_timer_us, new_handle, find_node}

abbrev pub node_of : TimerInfo → ℕ
node_of t = t.node

-- No timer fires before the near time, periods are not 0 and nodes are below the next one.
abbrev pub AllTimers : ℕ → ℕ → List TimerInfo → Type 0
AllTimers near next [] = Unit {0}
AllTimers near next (t ∷ ts) =
    (near ≤ t.fire_tp) × (0 < t.period) × (t.node < next) × AllTimers near next ts

pub record IsPool (p : TimerPool) : Type 0 where
  pub distinct : Distinct (map node_of p.timer_map)
  pub timers : AllTimers p.near_tp p.next_node p.timer_map

put_outside :
    (t : TimerInfo) (x : ℕ) (ts : List TimerInfo)
    → (x == t.node) ≡ false
    → has x (map node_of ts) ≡ false
    → has x (map node_of (put t ts)) ≡ false
unfolding put
put_outside t x [] n o = ground arith
put_outside t x (u ∷ ts) n o = elim (Bool-cases (u.handle == t.handle)) [
  | inl y ↦ rw y o
  | inr k ↦ rw k (ground (arith, put_outside t x ts n))
]

put-Distinct :
    (t : TimerInfo) (ts : List TimerInfo)
    → Distinct (map node_of ts)
    → has t.node (map node_of ts) ≡ false
    → Distinct (map node_of (put t ts))
unfolding put
put-Distinct t [] d o = (refl, tt)
put-Distinct t (u ∷ ts) (e, d) o = elim (Bool-cases (u.handle == t.handle)) [
  | inl y ↦ rw y (e, d)
  | inr k ↦ rw k (put_outside t u.node ts (ground arith) e, put-Distinct t ts d (ground arith))
]

AllTimers-weaken :
    (near near' next next' : ℕ) (ts : List TimerInfo)
    → near' ≤ near
    → next ≤ next'
    → AllTimers near next ts
    → AllTimers near' next' ts
AllTimers-weaken near near' next next' [] l u a = tt
AllTimers-weaken near near' next next' (t ∷ ts) l u (a, z, b, k) =
    (omega arith, z, omega arith, AllTimers-weaken near near' next next' ts l u k)

put-AllTimers :
    (near next : ℕ) (t : TimerInfo) (ts : List TimerInfo)
    → near ≤ t.fire_tp
    → 0 < t.period
    → t.node < next
    → AllTimers near next ts
    → AllTimers near next (put t ts)
unfolding put
put-AllTimers near next t [] l z u a = (l, z, u, tt)
put-AllTimers near next t (x ∷ ts) l z u (a, z', b, k) = elim (Bool-cases (x.handle == t.handle)) [
  | inl y ↦ rw y (l, z, b, k)
  | inr o ↦ rw o (a, z', b, put-AllTimers near next t ts l z u k)
]

AllTimers-outside :
    (near next : ℕ) (ts : List TimerInfo)
    → AllTimers near next ts
    → has next (map node_of ts) ≡ false
AllTimers-outside near next [] a = refl
AllTimers-outside near next (t ∷ ts) (l, z, u, a) = ground (arith, AllTimers-outside near next ts a)

-- A node that is found, with its handle.
unfoldable pub IsAt : ℕ → ℕ → List TimerInfo → Type 0
IsAt n h ts = (t : TimerInfo) × (find_node n ts ≡ some t) × (t.handle ≡ h)

pub IsAt-behind :
    (n h : ℕ) (t : TimerInfo) (ts : List TimerInfo)
    → (t.node == n) ≡ false
    → IsAt n h ts
    → IsAt n h (t ∷ ts)
unfolding IsAt find_node
IsAt-behind n h t ts o (x, f, e) = (x, rw o f, e)

pub IsAt-first :
    (n : ℕ) (t : TimerInfo) (ts : List TimerInfo) → t.node ≡ n → IsAt n t.handle (t ∷ ts)
unfolding IsAt find_node
IsAt-first n t ts e = (t, rw ((==_iff t.node n).1 e) refl, refl)

put-IsAt : (n h : ℕ) (t : TimerInfo) (ts : List TimerInfo) → IsAt n h ts → IsAt n h (put t ts)
unfolding IsAt find_node put
put-IsAt n h t [] (x, f, e) = cc
put-IsAt n h t (u ∷ ts) (x, f, e) = elim (Bool-cases (u.node == n)) [
  | inl y ↦
      let same : u.handle ≡ h = ap (λ v. v.handle) (some-injective u x (rw y at f)) ∙ e in
      let at = (==_iff u.node n).0 y in
      elim (Bool-cases (u.handle == t.handle)) [
        | inl k ↦ rw k (
            subst (λ v. IsAt n v (record t { node = u.node } ∷ ts))
              (sym ((==_iff u.handle t.handle).0 k) ∙ same)
              (IsAt-first n (record t { node = u.node }) ts at))
        | inr k ↦ rw k (subst (λ v. IsAt n v (u ∷ put t ts)) same (IsAt-first n u (put t ts) at))
      ]
  | inr o ↦
      let later = rw o at f in
      elim (Bool-cases (u.handle == t.handle)) [
        | inl k ↦ rw k (IsAt-behind n h (record t { node = u.node }) ts o (x, later, e))
        | inr k ↦ rw k (IsAt-behind n h u (put t ts) o (put-IsAt n h t ts (x, later, e)))
      ]
]

-- What is kept: soundness, the nodes, and that nothing was called; the near time only gets earlier.
pub record Keeps (p p' : TimerPool) : Type 0 where
  pub sound : IsPool p'
  pub nodes : (n h : ℕ) → IsAt n h p.timer_map → IsAt n h p'.timer_map
  pub nearer : p'.near_tp ≤ p.near_tp
  pub calls : p'.fired ≡ p.fired

pub Keeps-refl : (p : TimerPool) → IsPool p → Keeps p p
Keeps-refl p i = record { sound = i; nodes = λ n h a. a; nearer = omega arith; calls = refl }

pub Keeps-trans : (p q r : TimerPool) → Keeps p q → Keeps q r → Keeps p r
Keeps-trans p q r a b = record {
  sound = b.sound;
  nodes = λ n h x. b.nodes n h (a.nodes n h x);
  nearer = omega (arith, a.nearer, b.nearer);
  calls = b.calls ∙ a.calls;
}

-- A timer is put into the map, and the near time moves if it must.
put-Keeps :
    (now seed : ℕ) (t : TimerInfo) (p : TimerPool)
    → t.node ≡ p.next_node
    → 0 < t.period
    → IsPool p
    → Keeps p (
        fire_earlier now t.fire_tp record p {
          timer_map = put t p.timer_map;
          handle_seed = seed;
          next_node = p.next_node + 1;
        })
unfolding fire_earlier
put-Keeps now seed t p e z i =
    let out =
      ap (λ n. has n (map node_of p.timer_map)) e
      ∙ AllTimers-outside p.near_tp p.next_node p.timer_map i.timers in
    let d = put-Distinct t p.timer_map i.distinct out in
    elim (Bool-cases (ltb t.fire_tp p.near_tp)) [
      | inl y ↦ rw y record {
        sound = record {
          distinct = d;
          timers =
              put-AllTimers t.fire_tp (p.next_node + 1) t p.timer_map (omega arith) z (omega arith)
                (AllTimers-weaken p.near_tp t.fire_tp p.next_node (p.next_node + 1) p.timer_map
                  (ground arith) (omega arith) i.timers);
        };
        nodes = λ n h a. put-IsAt n h t p.timer_map a;
        nearer = ground arith;
        calls = refl;
      }
      | inr o ↦ rw o record {
        sound = record {
          distinct = d;
          timers =
              put-AllTimers p.near_tp (p.next_node + 1) t p.timer_map (ground arith) z (omega arith)
                (AllTimers-weaken p.near_tp p.near_tp p.next_node (p.next_node + 1) p.timer_map
                  (omega arith) (omega arith) i.timers);
        };
        nodes = λ n h a. put-IsAt n h t p.timer_map a;
        nearer = omega arith;
        calls = refl;
      }
    ]

pub set_timer_us-Keeps :
    (now handle firstus periodus lis : ℕ) (p : TimerPool)
    → 0 < periodus
    → IsPool p
    → Keeps p (set_timer_us now handle firstus periodus lis p).0
unfolding set_timer_us
set_timer_us-Keeps now handle firstus periodus lis p z i =
    let seed = if handle == 0 then new_handle p.handle_seed else p.handle_seed in
    put-Keeps now seed
      record {
        handle = if handle == 0 then seed else handle;
        fire_tp = now + firstus * 1000;
        period = periodus;
        lis = lis;
        node = p.next_node;
      }
      p refl z i
