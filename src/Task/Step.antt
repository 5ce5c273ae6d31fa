-- ===== src/Task/Step.antt =====
-- EdTask: the interleavings of the threads that post, send and dispatch.
use ednio.Prelude.{ℕ, ◌<◌, ◌≡◌, Bool, none, some}
use ednio.Task.{
  Task, Msg, Body, init_msg, post_ed_msg, send_push, send_write, msgevent_cb, take_msg, finish_msg,
  close_msg,
}

-- One step of one thread. Any thread posts at any time, a callback of the task itself included.
-- The dispatching thread reads the event fd between two loops, and closes the queue only there. The
-- lock of a synchronous message, which its sender holds until it waits, holds no step up here, so that
-- these steps reach more states than the code does.
pub data Step (t u : Task) : Type 0 where
  posts :
      (wrote : Bool) (handle msgid : ℕ) (body : Body)
      → u ≡ (post_ed_msg wrote t handle msgid body).1
      → Step t u
  pushes :
      (sender handle msgid : ℕ) (body : Body)
      → u ≡ (send_push t sender handle msgid body).1
      → Step t u
  writes : (wrote : Bool) → 0 < t.unwritten → u ≡ (send_write wrote t).1 → Step t u
  reads : t.in_hand ≡ none → t.left ≡ 0 → u ≡ msgevent_cb t → Step t u
  takes : t.in_hand ≡ none → 0 < t.left → u ≡ take_msg t → Step t u
  finishes : (m : Msg) (code : ℕ) → t.in_hand ≡ some m → u ≡ finish_msg t m code → Step t u
  closes : t.in_hand ≡ none → t.left ≡ 0 → u ≡ close_msg t → Step t u

-- What a new task reaches.
pub data Reach (max : ℕ) : Task → Type 0 where
  start : Reach max (init_msg max)
  next : {t u : Task} → Reach max t → Step t u → Reach max u
