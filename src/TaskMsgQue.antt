-- ===== src/TaskMsgQue.antt =====
-- EdTaskMsgQue (ednio/EdTaskMsgQue.cpp): a message queue of its own inside a task, which is a handle
-- of the map of all handles, and the functions of EdTask (ednio/EdTask.cpp) that it calls.
pub mod Posts
mod Tests
use ednio.Prelude.{ℕ, ◌+◌, ◌*◌, ◌^◌, Bool, Option, none, some, ◌==◌, if◌then◌else◌}
use ednio.Task.{Task, Body, plain, Code, post_ed_msg, send_push}
use ednio.Task.Views.{ViewInfo, ViewMap, create_task_msg_que, destroy_task_msg_que}

pub record TaskMsgQue : Type 0 where
  pub handle : ℕ
  -- `mTask`, as an identity
  pub task : Option ℕ

-- The constructor.
abbrev pub new_que : TaskMsgQue
new_que = record { handle = 0; task = none }

-- `open`, with the current task of the thread: the handle, the queue and the map.
unfoldable pub open_que : Option ℕ → ℕ → TaskMsgQue → ViewMap → ℕ × TaskMsgQue × ViewMap
unfolding create_task_msg_que
open_que none lis q v = (0, record q { task = none }, v)
open_que (some task) lis q v =
    let (h, v') = create_task_msg_que v (record { task = task; lis = lis }) in
    (h, record { handle = h; task = some task }, v')

unfoldable pub close_que : TaskMsgQue → ViewMap → TaskMsgQue × ViewMap
unfolding destroy_task_msg_que
close_que q v =
    if q.handle == 0 then (q, v) else (record q { handle = 0 }, destroy_task_msg_que v q.handle)

-- The union that holds `p1` below `p2`.
abbrev pub pair_body : ℕ → ℕ → Body
pair_body p1 p2 = plain (p1 + p2 * 2 ^ 32)

-- `postTaskMsgQue`, `postTaskMsgObj`, `sendTaskMsgQue` and `sendTaskMsgObj` of EdTask; the last two up
-- to the write on the event fd, for the thread `sender`.
unfoldable pub post_task_msg_que : Bool → Task → ℕ → ℕ → ℕ → ℕ → Code × Task
unfolding post_ed_msg
post_task_msg_que wrote t handle msgid p1 p2 = post_ed_msg wrote t handle msgid (pair_body p1 p2)

unfoldable pub post_task_msg_obj : Bool → Task → ℕ → ℕ → ℕ → Code × Task
unfolding post_ed_msg
post_task_msg_obj wrote t handle msgid obj = post_ed_msg wrote t handle msgid (plain obj)

unfoldable pub send_task_msg_que : Task → ℕ → ℕ → ℕ → ℕ → ℕ → Code × Task
unfolding send_push
send_task_msg_que t sender handle msgid p1 p2 = send_push t sender handle msgid (pair_body p1 p2)

unfoldable pub send_task_msg_obj : Task → ℕ → ℕ → ℕ → ℕ → Code × Task
unfolding send_push
send_task_msg_obj t sender handle msgid obj = send_push t sender handle msgid (plain obj)

-- `postMsg`, `sendMsg`, `postObj` and `sendObj` of the queue: the assertion fails without a handle.
unfoldable pub guard_handle : TaskMsgQue → Code × Task → Option (Code × Task)
guard_handle q r = if q.handle == 0 then none else some r

unfoldable pub que_post_msg : Bool → TaskMsgQue → Task → ℕ → ℕ → ℕ → Option (Code × Task)
unfolding guard_handle post_task_msg_que
que_post_msg wrote q t msgid p1 p2 = guard_handle q (post_task_msg_que wrote t q.handle msgid p1 p2)

unfoldable pub que_send_msg : TaskMsgQue → Task → ℕ → ℕ → ℕ → ℕ → Option (Code × Task)
unfolding guard_handle send_task_msg_que
que_send_msg q t sender msgid p1 p2 =
    guard_handle q (send_task_msg_que t sender q.handle msgid p1 p2)

unfoldable pub que_post_obj : Bool → TaskMsgQue → Task → ℕ → ℕ → Option (Code × Task)
unfolding guard_handle post_task_msg_obj
que_post_obj wrote q t msgid obj = guard_handle q (post_task_msg_obj wrote t q.handle msgid obj)

unfoldable pub que_send_obj : TaskMsgQue → Task → ℕ → ℕ → ℕ → Option (Code × Task)
unfolding guard_handle send_task_msg_obj
que_send_obj q t sender msgid obj = guard_handle q (send_task_msg_obj t sender q.handle msgid obj)
