-- ===== src/Task.antt =====
-- EdTask (ednio/EdTask.cpp): the message queue of a task. Each function below is one section of the
-- code that no other thread can enter, so that threads interleave as sequences of such steps
-- (Task/Step). `wrote` says whether `write` on the event fd returned 8.
pub mod Views
pub mod Step
pub mod Bound
pub mod Senders
pub mod Order
pub mod Close
pub mod Drain
pub mod Reserve
pub mod Reserving
pub mod Freed
mod Tests
use ednio.Prelude.{
  ℕ, zero, suc, ◌+◌, ◌-◌, ◌*◌, ◌^◌, List, [], ◌∷◌, ◌++◌, Bool, true, false, Option, none, some, ltb,
  ◌==◌, if◌then◌else◌, length,
}
use ednio.Task.Views.{ViewMap, Target, task_proc, listener, nowhere, route}

-- The union of `p1` and `p2`, `obj` and `data`; or an owned object.
pub data Body : Type 0 where
  plain : ℕ → Body
  object : ℕ → Body

-- `EdMsg`. The sender of a synchronous message is the thread that waits for it: its result and
-- its condition variable.
pub record Msg : Type 0 where
  pub msgid : ℕ
  pub body : Body
  pub sync : Option ℕ
  pub taskque_handle : ℕ

-- What has happened so far. The code keeps no such record: it is here to state properties of runs.
pub record History : Type 0 where
  -- messages put into the queue
  pub accepted : List Msg
  -- messages taken out by `dispatchMsgs`, after their callback
  pub dispatched : List Msg
  -- messages thrown out by `closeMsg`
  pub discarded : List Msg
  -- senders notified, each with the result that it finds
  pub woken : List (ℕ × ℕ)

pub record Task : Type 0 where
  -- `mMsgFd >= 0`
  pub fd_open : Bool
  -- the event fd's counter
  pub counter : ℕ
  -- `mQuedMsgs`
  pub qued : List Msg
  -- the number of message objects in `mEmptyMsgs`
  pub empties : ℕ
  -- `mMaxMsqQueSize`
  pub max_size : ℕ
  -- the loop of `dispatchMsgs`: the rounds left, and the message of the current one
  pub left : ℕ
  pub in_hand : Option Msg
  -- the branch "unexpected msg que error" was taken
  pub unexpected : Bool
  -- `mCtx.exit_flag`
  pub exit_flag : Bool
  -- senders that have queued a message and not yet written to the event fd
  pub unwritten : ℕ
  pub history : History

abbrev pub edm_exit : ℕ
edm_exit = 5

abbrev pub no_history : History
no_history = record { accepted = []; dispatched = []; discarded = []; woken = [] }

-- The task after `initMsg`.
abbrev pub init_msg : ℕ → Task
init_msg max = record {
  fd_open = true;
  counter = 0;
  qued = [];
  empties = 0;
  max_size = max;
  left = 0;
  in_hand = none;
  unexpected = false;
  exit_flag = false;
  unwritten = 0;
  history = no_history;
}

-- `allocMsgObj`: the task without the object handed out, or no object.
unfoldable pub alloc_msg_obj : Task → Option Task
alloc_msg_obj t =
    if ltb 0 t.empties
    then some (record t { empties = t.empties - 1 })
    else (if ltb (t.empties + length t.qued) t.max_size then some t else none)

-- `mQuedMsgs.push_back(pmsg)`.
unfoldable pub push_msg : Task → Msg → Task
push_msg t m = record t {
  qued = t.qued ++ m ∷ [];
  history = record h { accepted = h.accepted ++ m ∷ [] };
}
  where
    open t use {history as h}

pub data Code : Type 0 where
  -- 0; -1 as the fd is closed; -2; `assert` fails as the queue is full
  posted closed not_written asserts : Code

-- `postEdMsg` with the object handed out, or none.
unfoldable pub post_with : Bool → Task → Msg → Option Task → Code × Task
unfolding push_msg
post_with wrote t m none = (asserts, t)
post_with wrote t m (some u) =
    if wrote
    then (posted, record (push_msg u m) { counter = u.counter + 1 })
    else (not_written, push_msg u m)

-- `postEdMsg`, all of it under the lock.
unfoldable pub post_ed_msg : Bool → Task → ℕ → ℕ → Body → Code × Task
unfolding post_with
post_ed_msg wrote t handle msgid body =
    let m : Msg = record { msgid = msgid; body = body; sync = none; taskque_handle = handle } in
    if t.fd_open then post_with wrote t m (alloc_msg_obj t) else (closed, t)

-- `postMsg`: the union holds `p1` below `p2`.
unfoldable pub post_msg : Bool → Task → ℕ → ℕ → ℕ → Code × Task
post_msg wrote t msgid p1 p2 = post_ed_msg wrote t 0 msgid (plain (p1 + p2 * 2 ^ 32))

-- The first half of `sendEdMsg` with the object handed out, or none.
unfoldable pub push_with : Task → Msg → Option Task → Code × Task
unfolding push_msg
push_with t m none = (asserts, t)
push_with t m (some u) = (posted, record (push_msg u m) { unwritten = u.unwritten + 1 })

-- The first half of `sendEdMsg`, under the lock. `posted` means that it goes on to write.
unfoldable pub send_push : Task → ℕ → ℕ → ℕ → Body → Code × Task
unfolding push_with
send_push t sender handle msgid body =
    let m : Msg = record {
      msgid = msgid;
      body = body;
      sync = some sender;
      taskque_handle = handle;
    } in
    if t.fd_open then push_with t m (alloc_msg_obj t) else (closed, t)

-- Its `write`, after the lock is released. `posted` means that it goes on to wait; a failure ends
-- in `assert(0)`.
unfoldable pub send_write : Bool → Task → Code × Task
send_write wrote t =
    let t' = record t { unwritten = t.unwritten - 1 } in
    if t.fd_open
    then (if wrote then (posted, record t' { counter = t.counter + 1 }) else (asserts, t'))
    else (asserts, t')

-- `msgevent_cb`: the read hands over the counter and resets it, and fails at 0.
unfoldable pub msgevent_cb : Task → Task
msgevent_cb t = if ltb 0 t.counter then record t { left = t.counter; counter = 0 } else t

-- `dispatchMsgs`, the start of a round: `pop_front` under the lock.
unfoldable pub take_msg : Task → Task
take_msg t = elim t.qued [
  | [] ↦ record t { left = 0; unexpected = true }
  | m ∷ rest ↦ record t { qued = rest; in_hand = some m }
]

-- The sender of a message is notified and finds the result `code`.
unfoldable pub notify : History → Msg → ℕ → History
notify h m code = elim m.sync [
  | none ↦ h
  | some sender ↦ record h { woken = h.woken ++ (sender, code) ∷ [] }
]

-- The end of a round, after the callback, which has left `code` for the sender.
unfoldable pub finish_msg : Task → Msg → ℕ → Task
unfolding notify
finish_msg t m code = record t {
  in_hand = none;
  left = t.left - 1;
  empties = t.empties + 1;
  exit_flag = if m.msgid == edm_exit then true else t.exit_flag;
  history = notify (record h { dispatched = h.dispatched ++ m ∷ [] }) m code;
}
  where
    open t use {history as h}

-- What a round does with its message before the sender is notified: EDM_EXIT reaches no callback,
-- nor does a message whose handle leads nowhere. A sender's result is 0 unless a callback sets it.
unfoldable pub handle_msg : (Target → Msg → Task → ℕ × Task) → ViewMap → Msg → Task → ℕ × Task
handle_msg callback views m t =
    if m.msgid == edm_exit
    then (0, t)
    else elim (route views m.taskque_handle) [ nowhere ↦ (0, t) | target ↦ callback target m t ]

-- The whole loop. A callback gives the sender's result and may change the task.
unfoldable pub dispatch_msgs : (Target → Msg → Task → ℕ × Task) → ViewMap → ℕ → Task → Task
dispatch_msgs callback views zero t = t
dispatch_msgs callback views (suc cnt) t = elim (take_msg t).in_hand [
  | none ↦ take_msg t
  | some m ↦
      let (code, t') = handle_msg callback views m (take_msg t) in
      dispatch_msgs callback views cnt (finish_msg t' m code)
]

-- -1000, as a bit pattern.
abbrev pub closed_result : ℕ
closed_result = 2 ^ 32 - 1000

-- The loop of `closeMsg` over the queued messages.
unfoldable pub discard_all : List Msg → History → History
unfolding notify
discard_all [] h = h
discard_all (m ∷ ms) h =
    discard_all ms (notify (record h { discarded = h.discarded ++ m ∷ [] }) m closed_result)

-- `closeMsg` up to its loops: the event fd is closed.
abbrev pub close_fd : Task → Task
close_fd t = record t { fd_open = false; counter = 0 }

-- The loops of `closeMsg`: the queue and the pool are emptied.
abbrev pub discard_qued : Task → Task
discard_qued t = record t { qued = []; empties = 0; history = discard_all t.qued t.history }

-- The loop locks `pmtx` of each synchronous message, which its sender holds from before it queues the
-- message until it waits, so that with the dispatching loop idle the loop goes through once no sender
-- has its write before it: until then it is held up, and there is none.
unfoldable pub discard_locked : Task → Option Task
discard_locked t = if t.unwritten == 0 then some (discard_qued t) else none

-- `closeMsg`, all of it under the lock of the queue, when no sender holds it up. The steps of
-- Task/Step let it go through at any time, so that they reach more states than the code does.
unfoldable pub close_msg : Task → Task
close_msg t = discard_qued (close_fd t)
