-- ===== src/Timer/Arming.antt =====
-- EdTimer and the timers of an EdTask: when a timer that was set expires.
use ednio.Prelude.{
  ℕ, ◌+◌, ◌*◌, ◌/◌, ◌%◌, ◌^◌, ◌<◌, ◌≡◌, refl, sym, ap, ◌∙◌, List, [], ◌∷◌, true, false, Option,
  none, some, ◌==◌, ==_iff, if◌then◌else◌, map, arith, Bool-cases, inl, inr,
}
use ednio.ObjList.Chain.{has, Distinct}
use ednio.Timer.{EdTimer, Armed, new_timer, set, set_usec, timerfd_settime, pause, resume, reset}
use ednio.Timer.TaskTimers.{TaskTimer, set_task_timer, kill_task_timer, find_timer}

armed_at : ℕ → ℕ → Option Armed
armed_at a e = if a == 0 then none else some record { after = a; every = e }

usec_nsec : (u : ℕ) → u / 1000000 * 1000000000 + u % 1000000 * 1000 ≡ u * 1000
usec_nsec u = omega arith

set_usec-armed :
    (usec first_usec : ℕ) (t : EdTimer)
    → (set_usec usec first_usec t).armed
      ≡ armed_at ((if first_usec == 0 then usec else first_usec) * 1000) (usec * 1000)
unfolding set_usec timerfd_settime armed_at
set_usec-armed usec first_usec t =
    let v = if first_usec == 0 then usec else first_usec in
    ap (λ a. armed_at a (usec / 1000000 * 1000000000 + usec % 1000000 * 1000)) (usec_nsec v)
    ∙ ap (armed_at (v * 1000)) (usec_nsec usec)

reset-armed :
    (usec first_usec : ℕ) (t : EdTimer)
    → (reset (set_usec usec first_usec t)).armed ≡ (set_usec usec first_usec t).armed
unfolding set_usec reset pause resume
reset-armed usec first_usec t = refl

armed_some : (a e : ℕ) → 0 < a → armed_at a e ≡ some record { after = a; every = e }
unfolding armed_at
armed_some a e z =
    let positive : (a == 0) ≡ false = ground arith in
    ap (λ b. if b then none else some record { after = a; every = e }) positive

unfoldable pub first_expiry : ℕ → ℕ → Armed
first_expiry msec first_msec = record {
  after = (if first_msec == 0 then msec else first_msec) * 1000000;
  every = msec * 1000000;
}

-- For a period that is not 0 and a first time whose microseconds have 32 bits.
set_lem :
    (msec first_msec : ℕ) (t : EdTimer)
    → 0 < msec
    → msec * 1000 < 2 ^ 32
    → first_msec * 1000 < 2 ^ 32
    → ((set msec first_msec t).armed ≡ some (first_expiry msec first_msec))
      × ((reset (set msec first_msec t)).armed ≡ some (first_expiry msec first_msec))
unfolding set first_expiry
set_lem msec first_msec t z u v =
    let m = msec * 1000 % 2 ^ 32 in
    let f = first_msec * 1000 % 2 ^ 32 in
    let e : m * 1000 ≡ msec * 1000000 = omega arith in
    let g : (if f == 0 then m else f) * 1000
        ≡ (if first_msec == 0 then msec else first_msec) * 1000000 =
      ground arith in
    let h =
      set_usec-armed m f t
      ∙ ap (λ a. armed_at a (m * 1000)) g
      ∙ ap (armed_at ((if first_msec == 0 then msec else first_msec) * 1000000)) e
      ∙ armed_some ((if first_msec == 0 then msec else first_msec) * 1000000) (msec * 1000000)
          (ground arith) in
    (h, reset-armed m f t ∙ h)

abbrev pub ids : List TaskTimer → List ℕ
ids ts = map (λ t. t.timer_id) ts

abbrev pub IsArmed : Option EdTimer → Armed → Type 0
IsArmed o a = (t : EdTimer) × (o ≡ some t) × (t.armed ≡ some a) × ((reset t).armed ≡ some a)

set_finds :
    (id msec first_msec : ℕ) (ts : List TaskTimer)
    → 0 < msec
    → msec * 1000 < 2 ^ 32
    → first_msec * 1000 < 2 ^ 32
    → IsArmed (find_timer id (set_task_timer id msec first_msec ts)) (first_expiry msec first_msec)
unfolding find_timer set_task_timer
set_finds id msec first_msec [] z u v =
    let same : (id == id) ≡ true = ground arith in
    let (a, b) = set_lem msec first_msec new_timer z u v in
    (set msec first_msec new_timer, rw same refl, a, b)
set_finds id msec first_msec (t ∷ ts) z u v = elim (Bool-cases (t.timer_id == id)) [
  | inl y ↦
      let (a, b) = set_lem msec first_msec t.timer z u v in
      rw y (set msec first_msec t.timer, rw y refl, a, b)
  | inr n ↦ let (x, f, a, b) = set_finds id msec first_msec ts z u v in rw n (x, rw n f, a, b)
]

set_others :
    (id j msec first_msec : ℕ) (ts : List TaskTimer)
    → (id == j) ≡ false
    → find_timer j (set_task_timer id msec first_msec ts) ≡ find_timer j ts
unfolding find_timer set_task_timer
set_others id j msec first_msec [] n = rw n refl
set_others id j msec first_msec (t ∷ ts) n = elim (Bool-cases (t.timer_id == id)) [
  | inl y ↦ let other : (t.timer_id == j) ≡ false = ground arith in rw y (rw other refl)
  | inr k ↦
      rw k (
        ap (λ o. if t.timer_id == j then some t.timer else o)
          (set_others id j msec first_msec ts n))
]

absent : (id : ℕ) (ts : List TaskTimer) → has id (ids ts) ≡ false → find_timer id ts ≡ none
unfolding find_timer
absent id [] o = refl
absent id (t ∷ ts) o = ground (arith, absent id ts)

kill_finds :
    (id : ℕ) (ts : List TaskTimer)
    → Distinct (ids ts)
    → find_timer id (kill_task_timer id ts) ≡ none
unfolding find_timer kill_task_timer
kill_finds id [] d = refl
kill_finds id (t ∷ ts) (o, d) = elim (Bool-cases (t.timer_id == id)) [
  | inl y ↦ rw y (absent id ts (ap (λ k. has k (ids ts)) (sym ((==_iff t.timer_id id).0 y)) ∙ o))
  | inr n ↦ rw n (rw n (kill_finds id ts d))
]

kill_others :
    (id j : ℕ) (ts : List TaskTimer)
    → (id == j) ≡ false
    → find_timer j (kill_task_timer id ts) ≡ find_timer j ts
unfolding find_timer kill_task_timer
kill_others id j [] n = refl
kill_others id j (t ∷ ts) n = elim (Bool-cases (t.timer_id == id)) [
  | inl y ↦ let other : (t.timer_id == j) ≡ false = ground arith in rw y (rw other refl)
  | inr k ↦ rw k (ap (λ o. if t.timer_id == j then some t.timer else o) (kill_others id j ts n))
]

set_outside :
    (id k msec first_msec : ℕ) (ts : List TaskTimer)
    → (k == id) ≡ false
    → has k (ids ts) ≡ false
    → has k (ids (set_task_timer id msec first_msec ts)) ≡ false
unfolding set_task_timer
set_outside id k msec first_msec [] n o = ground arith
set_outside id k msec first_msec (t ∷ ts) n o = elim (Bool-cases (t.timer_id == id)) [
  | inl y ↦ rw y o
  | inr m ↦ rw m (ground (arith, set_outside id k msec first_msec ts n))
]

set_Distinct :
    (id msec first_msec : ℕ) (ts : List TaskTimer)
    → Distinct (ids ts)
    → Distinct (ids (set_task_timer id msec first_msec ts))
unfolding set_task_timer
set_Distinct id msec first_msec [] d = (refl, tt)
set_Distinct id msec first_msec (t ∷ ts) (o, d) = elim (Bool-cases (t.timer_id == id)) [
  | inl y ↦ rw y (o, d)
  | inr m ↦
      rw m (set_outside id t.timer_id msec first_msec ts m o, set_Distinct id msec first_msec ts d)
]

-- Timers with distinct ids, a period that is not 0 and a first time, in milliseconds, whose
-- microseconds have 32 bits: setTimer leaves the timer of the id expiring after the first time, or
-- after a period if that is 0, and then in the period, also when it is reset; killTimer then removes
-- it; neither touches the timer of another id, and the ids stay distinct.
pub set_task_timer-kill_task_timer :
    (id j msec first_msec : ℕ) (ts : List TaskTimer)
    → 0 < msec
    → msec * 1000 < 2 ^ 32
    → first_msec * 1000 < 2 ^ 32
    → Distinct (ids ts)
    → (id == j) ≡ false
    → let us = set_task_timer id msec first_msec ts in
      IsArmed (find_timer id us) (first_expiry msec first_msec)
      × (find_timer j us ≡ find_timer j ts)
      × (find_timer id (kill_task_timer id us) ≡ none)
      × (find_timer j (kill_task_timer id us) ≡ find_timer j ts)
      × Distinct (ids us)
set_task_timer-kill_task_timer id j msec first_msec ts z u v d n =
    let us = set_task_timer id msec first_msec ts in
    let k = set_Distinct id msec first_msec ts d in
    (
      set_finds id msec first_msec ts z u v,
      set_others id j msec first_msec ts n,
      kill_finds id us k,
      kill_others id j us n ∙ set_others id j msec first_msec ts n,
      k,
    )
