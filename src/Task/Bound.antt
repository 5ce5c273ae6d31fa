-- ===== src/Task/Bound.antt =====
-- EdTask: the dispatching loop never finds the queue empty, and the number of message objects has
-- a bound.
use ednio.Prelude.{
  ℕ, ◌+◌, ◌-◌, ◌≤◌, ◌<◌, ◌≡◌, ◌⊎◌, refl, [], ◌∷◌, Bool, true, false, Option, none, some, arith,
  if◌then◌else◌, length, length-append,
}
use ednio.Task.{
  Code, closed, post_with, push_with, Task, Msg, Body, alloc_msg_obj, push_msg, post_ed_msg,
  send_push, send_write, msgevent_cb, take_msg, finish_msg, close_msg,
}
use ednio.Task.Step.{
  Step, posts, pushes, writes, reads, takes, finishes, closes, Reach, start, next,
}

-- The message object that the dispatching thread holds.
abbrev pub held : Option Msg → ℕ
held none = 0
held (some m) = 1

-- The rounds that the dispatching loop has to pop a message for.
abbrev pub pops : Task → ℕ
pops t = t.left - held t.in_hand

pub record Inv (max : ℕ) (t : Task) : Type 0 where
  pub backed :
      ((t.fd_open ≡ true) × (t.counter + t.unwritten + pops t ≤ length t.qued))
      ⊎ ((t.fd_open ≡ false) × (t.counter ≡ 0) × (t.left ≡ 0))
  pub objects : length t.qued + t.empties + held t.in_hand ≤ max + 1
  pub as_expected : t.unexpected ≡ false
  pub in_round : held t.in_hand ≤ t.left
  pub bound : t.max_size ≡ max

held_le : (o : Option Msg) → held o ≤ 1
held_le none = omega arith
held_le (some m) = omega arith

module _ {max : ℕ} {t : Task} (v : Inv max t) where
  -- An object is handed out from the pool, or as one more while the queue is below its size.
  alloc-Inv :
      (m : Msg) (u : Task)
      → alloc_msg_obj t ≡ some u
      → t.fd_open ≡ true
      → Inv max (push_msg u m)
        × (u.counter + u.unwritten + pops u < length (push_msg u m).qued)
        × (u.fd_open ≡ true)
  unfolding alloc_msg_obj push_msg
  alloc-Inv m u e o = ground (arith, length-append t.qued (m ∷ []), held_le t.in_hand)

  post_with-Inv :
      (wrote : Bool) (m : Msg) (o : Option Task)
      → alloc_msg_obj t ≡ o
      → t.fd_open ≡ true
      → Inv max (post_with wrote t m o).1
  unfolding post_with
  post_with-Inv wrote m none e o = v
  post_with-Inv wrote m (some u) e o =
      let (i, b, o') = alloc-Inv m u e o in
      ground (arith, i.backed, i.objects, i.as_expected, i.in_round, i.bound, b, o')

  push_with-Inv :
      (m : Msg) (o : Option Task)
      → alloc_msg_obj t ≡ o
      → t.fd_open ≡ true
      → Inv max (push_with t m o).1
  unfolding push_with
  push_with-Inv m none e o = v
  push_with-Inv m (some u) e o =
      let (i, b, o') = alloc-Inv m u e o in
      ground (arith, i.backed, i.objects, i.as_expected, i.in_round, i.bound, b, o')

  if_open :
      (r : Code × Task) (b : Bool)
      → t.fd_open ≡ b
      → (t.fd_open ≡ true → Inv max r.1)
      → Inv max (if b then r else (closed, t)).1
  if_open r true o h = h o
  if_open r false o h = v

  post_ed_msg-Inv :
      (wrote : Bool) (handle msgid : ℕ) (body : Body)
      → Inv max (post_ed_msg wrote t handle msgid body).1
  unfolding post_ed_msg
  post_ed_msg-Inv wrote handle msgid body =
      if_open _ t.fd_open refl (post_with-Inv wrote _ (alloc_msg_obj t) refl)

  send_push-Inv :
      (sender handle msgid : ℕ) (body : Body) → Inv max (send_push t sender handle msgid body).1
  unfolding send_push
  send_push-Inv sender handle msgid body =
      if_open _ t.fd_open refl (push_with-Inv _ (alloc_msg_obj t) refl)

  send_write-Inv : (wrote : Bool) → 0 < t.unwritten → Inv max (send_write wrote t).1
  unfolding send_write
  send_write-Inv wrote h = ground arith

  msgevent_cb-Inv : t.in_hand ≡ none → t.left ≡ 0 → Inv max (msgevent_cb t)
  unfolding msgevent_cb
  msgevent_cb-Inv h l = ground arith

  take_msg-Inv : t.in_hand ≡ none → 0 < t.left → Inv max (take_msg t)
  unfolding take_msg
  take_msg-Inv h l = ground arith

  finish_msg-Inv : (m : Msg) (code : ℕ) → t.in_hand ≡ some m → Inv max (finish_msg t m code)
  unfolding finish_msg
  finish_msg-Inv m code h = ground arith

  close_msg-Inv : t.in_hand ≡ none → t.left ≡ 0 → Inv max (close_msg t)
  unfolding close_msg
  close_msg-Inv h l = ground arith

-- Every step keeps the invariant, and a new task has it.
Step-Inv : {max : ℕ} {t u : Task} → Inv max t → Step t u → Inv max u
Step-Inv {max} v (posts wrote handle msgid body e) =
    rw e (post_ed_msg-Inv v wrote handle msgid body)
Step-Inv {max} v (pushes sender handle msgid body e) =
    rw e (send_push-Inv v sender handle msgid body)
Step-Inv {max} v (writes wrote h e) = rw e (send_write-Inv v wrote h)
Step-Inv {max} v (reads h l e) = rw e (msgevent_cb-Inv v h l)
Step-Inv {max} v (takes h l e) = rw e (take_msg-Inv v h l)
Step-Inv {max} v (finishes m code h e) = rw e (finish_msg-Inv v m code h)
Step-Inv {max} v (closes h l e) = rw e (close_msg-Inv v h l)

pub Reach-Inv : {max : ℕ} {t : Task} → Reach max t → Inv max t
Reach-Inv start = ground arith
Reach-Inv (next r st) = Step-Inv (Reach-Inv r) st

-- Whatever threads do and in whatever order, the dispatching loop never finds the queue empty when
-- it has a round left, so the branch "unexpected msg que error" is never taken.
pub Reach-as_expected : {max : ℕ} {t : Task} → Reach max t → t.unexpected ≡ false
Reach-as_expected r = (Reach-Inv r).as_expected

-- Nor are there ever more than one message object beyond the size of the queue: queued, in the pool,
-- or held by the dispatching loop.
pub Reach-objects :
    {max : ℕ} {t : Task} → Reach max t → length t.qued + t.empties + held t.in_hand ≤ max + 1
Reach-objects r = (Reach-Inv r).objects
