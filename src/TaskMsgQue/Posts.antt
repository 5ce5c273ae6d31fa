-- ===== src/TaskMsgQue/Posts.antt =====
-- EdTaskMsgQue: where what is posted to a queue goes.
use ednio.Prelude.{
  ℕ, ◌≡◌, ◌≢◌, ap, ◌∙◌, [], ◌∷◌, ◌++◌, true, false, none, some, ◌==◌, if◌then◌else◌, arith,
  Option-cases, inl, inr, ◌+◌,
}
use ednio.Task.{Task, Msg, Body, posted, closed, alloc_msg_obj, push_msg, post_with, post_ed_msg}
use ednio.Task.Order.{alloc_keeps}
use ednio.Task.Close.{HasRoom}
use ednio.Task.Views.{
  ViewInfo, ViewMap, create_task_msg_que, destroy_task_msg_que, listener, nowhere, route,
  create_routes,
}
use ednio.TaskMsgQue.{
  TaskMsgQue, open_que, close_que, pair_body, post_task_msg_que, guard_handle, que_post_msg,
}

nonzero_test : (h : ℕ) → h ≢ 0 → (h == 0) ≡ false
nonzero_test h n = ground arith

room : (t : Task) → HasRoom t → (u : Task) × (alloc_msg_obj t ≡ some u)
unfolding HasRoom alloc_msg_obj
room t r = elim (Option-cases (alloc_msg_obj t)) [
  | inl e ↦ absurd (no_room t r e)
  | inr found ↦ found
]
  where
    no_room : (t : Task) → HasRoom t → alloc_msg_obj t ≡ none → ⊥
    no_room t r e = ground arith

-- A task that is open and has room takes the message.
post-qued :
    (t : Task) (handle msgid : ℕ) (body : Body)
    → t.fd_open ≡ true
    → HasRoom t
    → (t' : Task) × (post_ed_msg true t handle msgid body ≡ (posted, t'))
      × (t'.qued
          ≡ t.qued
            ++ record { msgid = msgid; body = body; sync = none; taskque_handle = handle } ∷ [])
unfolding post_ed_msg post_with push_msg
post-qued t handle msgid body f r =
    let m : Msg = record { msgid = msgid; body = body; sync = none; taskque_handle = handle } in
    let (u, e) = room t r in
    (
      record (push_msg u m) { counter = u.counter + 1 },
      ap (λ b. if b then post_with true t m (alloc_msg_obj t) else (closed, t)) f
          ∙ ap (post_with true t m) e,
      ap (λ l. l ++ m ∷ []) (alloc_keeps t u e).1,
    )

-- A queue that is opened in a task, whatever the map holds: its handle is not 0 and leads to its
-- listener, and every other handle leads where it did. A message posted to it, when its task is
-- open and has room and the write succeeds, stands last in the task's queue, under that handle.
-- After the queue is closed the handle leads nowhere, every other one where it did, and posting to
-- the queue meets the assertion.
pub que_post_msg-qued :
    (task lis k msgid p1 p2 : ℕ) (q : TaskMsgQue) (v : ViewMap) (t : Task)
    → t.fd_open ≡ true
    → HasRoom t
    → let (h, q', v') = open_que (some task) lis q v in
      let (q'', v'') = close_que q' v' in
      (h ≢ 0)
      × (route v' h ≡ listener record { task = task; lis = lis })
      × (k ≢ h → route v' k ≡ route v k)
      × (t' : Task) × (que_post_msg true q' t msgid p1 p2 ≡ some (posted, t'))
      × (t'.qued
          ≡ t.qued
            ++ record { msgid = msgid; body = pair_body p1 p2; sync = none; taskque_handle = h }
              ∷ [])
      × (route v'' h ≡ nowhere)
      × (k ≢ h → route v'' k ≡ route v k)
      × (que_post_msg true q'' t' msgid p1 p2 ≡ none)
unfolding open_que close_que que_post_msg guard_handle post_task_msg_que
que_post_msg-qued task lis k msgid p1 p2 q v t f r =
    let info : ViewInfo = record { task = task; lis = lis } in
    let (n, small, here, others, gone, left) = create_routes v info k in
    let h = (create_task_msg_que v info).0 in
    let (t', e, d) = post-qued t h msgid (pair_body p1 p2) f r in
    let q' : TaskMsgQue = record { handle = h; task = some task } in
    let v' = (create_task_msg_que v info).1 in
    let z = nonzero_test h n in
    let shut : close_que q' v' ≡ (record q' { handle = 0 }, destroy_task_msg_que v' h) =
      ap (λ b. if b then (q', v') else (record q' { handle = 0 }, destroy_task_msg_que v' h)) z in
    (
      n,
      here,
      others,
      t',
      ap (λ b. if b then none else some (post_ed_msg true t h msgid (pair_body p1 p2))) z
          ∙ ap some e,
      d,
      ap (λ c. route c.1 h) shut ∙ gone,
      λ o. ap (λ c. route c.1 k) shut ∙ left o,
      ap (λ c. que_post_msg true c.0 t' msgid p1 p2) shut,
    )
