-- ===== src/TaskMsgQue/Tests.antt =====
-- A queue that is opened, used and closed.
use ednio.Prelude.{◌≡◌, ◌≢◌, ◌++◌, refl, [], ◌∷◌, none, some, true, arith, inr}
use ednio.Task.{Task, posted, init_msg}
use ednio.Task.Close.{HasRoom}
use ednio.Task.Views.{ViewMap, listener, nowhere, route}
use ednio.TaskMsgQue.{
  new_que, open_que, close_que, pair_body, que_post_msg, guard_handle, que_send_msg, que_post_obj,
  que_send_obj,
}
use ednio.TaskMsgQue.Posts.{que_post_msg-qued}

abbrev small_task : Task
small_task = init_msg 2

-- The next handle wraps around to 1.
abbrev last_map : ViewMap
last_map = record { seed = 4294967295; entries = [] }

small_task-HasRoom : HasRoom small_task
unfolding HasRoom
small_task-HasRoom = inr (omega arith)

no_task_no_handle : (open_que none 9 new_que last_map).0 ≡ 0
unfolding open_que
no_task_no_handle = refl

never_opened :
    (que_send_msg new_que small_task 1 5 0 0 ≡ none)
    × (que_post_obj true new_que small_task 5 0 ≡ none)
    × (que_send_obj new_que small_task 1 5 0 ≡ none)
unfolding que_send_msg que_post_obj que_send_obj guard_handle
never_opened = (refl, refl, refl)

que_post_msg-qued_example :
    let (h, q', v') = open_que (some 7) 9 new_que last_map in
    let (q'', v'') = close_que q' v' in
    (h ≢ 0)
    × (route v' h ≡ listener record { task = 7; lis = 9 })
    × (4 ≢ h → route v' 4 ≡ route last_map 4)
    × (t' : Task) × (que_post_msg true q' small_task 5 1 2 ≡ some (posted, t'))
    × (t'.qued
        ≡ small_task.qued
          ++ record { msgid = 5; body = pair_body 1 2; sync = none; taskque_handle = h } ∷ [])
    × (route v'' h ≡ nowhere)
    × (4 ≢ h → route v'' 4 ≡ route last_map 4)
    × (que_post_msg true q'' t' 5 1 2 ≡ none)
que_post_msg-qued_example =
    que_post_msg-qued 7 9 4 5 1 2 new_que last_map small_task refl small_task-HasRoom
