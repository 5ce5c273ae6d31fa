-- ===== src/Task/Close.antt =====
-- EdTask::closeMsg: what a closed queue does, and the race with a sender that has not yet written.
use ednio.Prelude.{
  ℕ, ◌+◌, ◌<◌, ◌≡◌, ◌⊎◌, refl, sym, ap, ◌∙◌, [], ◌++◌, Bool, true, false, none, some, ◌==◌,
  if◌then◌else◌, arith, append-nil, length,
}
use ednio.Task.{
  Task, Body, posted, closed, asserts, alloc_msg_obj, post_ed_msg, send_push, send_write, close_fd,
  discard_qued, discard_locked, close_msg,
}
use ednio.Task.Step.{pushes, closes, Reach, next}
use ednio.Task.Senders.{senders, woken_senders, hand}
use ednio.Task.Order.{Reach-InOrder}

-- Once the idle task has closed its queue, every sender whose message was ever accepted has been
-- notified, in order and once, and each later post or send is refused and changes nothing.
pub Reach-close_msg :
    {max : ℕ} {t : Task} (wrote : Bool) (sender handle msgid : ℕ) (body : Body)
    → Reach max t
    → t.in_hand ≡ none
    → t.left ≡ 0
    → let u = close_msg t in
      (woken_senders u ≡ senders u.history.accepted)
      × (post_ed_msg wrote u handle msgid body ≡ (closed, u))
      × (send_push u sender handle msgid body ≡ (closed, u))
unfolding close_msg post_ed_msg send_push
Reach-close_msg {t = t} wrote sender handle msgid body r h l = (
  sym (
      (Reach-InOrder (next r (closes h l refl))).waiting
      ∙ ap (λ o. woken_senders (close_msg t) ++ senders (hand o ++ [])) h
      ∙ append-nil _),
  refl,
  refl,
)

not_zero : (n : ℕ) → 0 < n → (n == 0) ≡ false
not_zero n w = ground arith

unfoldable pub HasRoom : Task → Type 0
HasRoom t = (0 < t.empties) ⊎ (t.empties + length t.qued < t.max_size)

pushed_idle :
    (t : Task) (sender handle msgid : ℕ) (body : Body)
    → t.fd_open ≡ true
    → HasRoom t
    → let u = send_push t sender handle msgid body in
      (u.0 ≡ posted) × (0 < u.1.unwritten) × (u.1.in_hand ≡ t.in_hand) × (u.1.left ≡ t.left)
unfolding send_push alloc_msg_obj HasRoom
pushed_idle t sender handle msgid body o room = ground arith

-- A sender lets go of the queue's lock before it writes. On a reachable idle task with an open queue
-- and room, a send queues its message; when the task then begins to close its queue, it closes the
-- event fd and is held up in its loop by the sender's own lock, and the sender's write, whatever it
-- returns, ends in the failing assertion.
pub Reach-send_race :
    {max : ℕ} {t : Task} (sender handle msgid : ℕ) (body : Body)
    → Reach max t
    → t.in_hand ≡ none
    → t.left ≡ 0
    → t.fd_open ≡ true
    → HasRoom t
    → let s = (send_push t sender handle msgid body).1 in
      Reach max s
      × ((send_push t sender handle msgid body).0 ≡ posted)
      × (s.in_hand ≡ none)
      × (s.left ≡ 0)
      × (discard_locked (close_fd s) ≡ none)
      × ((wrote : Bool) → (send_write wrote (close_fd s)).0 ≡ asserts)
unfolding discard_locked send_write
Reach-send_race {t = t} sender handle msgid body r h l o room =
    let s = (send_push t sender handle msgid body).1 in
    let (p, w, i, k) = pushed_idle t sender handle msgid body o room in
    (
      next r (pushes sender handle msgid body refl),
      p,
      i ∙ h,
      k ∙ l,
      ap (λ b. if b then some (discard_qued (close_fd s)) else none) (not_zero s.unwritten w),
      λ wrote. refl,
    )
