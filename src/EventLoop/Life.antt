-- ===== src/EventLoop/Life.antt =====
-- A task's thread, from its start to its end: EdTask::edEventLoop (ednio/EdTask.cpp).
use ednio.Prelude.{◌&&◌, ℕ, List, [], ◌∷◌, Bool, true, false, Option, some, if◌then◌else◌, ◌>>=◌}
use ednio.EventLoop.{
  the_task, Evt, Loop, Op, World, es_open, allocated, load, reg_ed_event, dereg_ed_event, run_ops,
  clean_up_event_resource, es_main,
}

-- The loop goes on, the assertion fails, or the function returns.
pub data LoopEnd : Type 0 where
  goes_on : LoopEnd
  aborts : LoopEnd
  returns : Loop → LoopEnd

unfoldable pub any_left : List Evt → Bool
any_left [] = false
any_left (e ∷ es) = true

-- The assertion that no event is left.
unfoldable pub check_left : Loop → LoopEnd
unfolding any_left
check_left s = if any_left s.evt_list then aborts else returns s

-- `regEdEvent` of the message queue's descriptor, which `epoll_ctl` accepts.
module _ (w : World) where
  abbrev pub msg_evt : ℕ → Evt
  msg_evt fd = record { addr = w.malloc []; fd = fd; user = the_task; is_reg = true }

  unfoldable pub begin_task : ℕ → Loop
  unfolding reg_ed_event
  begin_task fd = reg_ed_event (w.malloc (allocated es_open)) fd the_task true es_open

-- What `closes` says the listeners do on EDM_CLOSE.
module _ (w : World) (closes : Loop → List Op) where
  -- From the end of `esMain` on: `callMsgClose` and the end of the message queue's event; `del` says
  -- whether `epoll_ctl` takes its descriptor out.
  unfoldable pub end_task : Bool → Loop → Option LoopEnd
  unfolding load dereg_ed_event run_ops clean_up_event_resource check_left
  end_task del s = do
    s1 ← run_ops w (closes s) s
    e ← load s1 (w.malloc [])
    s2 ← dereg_ed_event (del && e.is_reg) e s1
    some (check_left (clean_up_event_resource s2))

  -- `edEventLoop`, for at most so many rounds, with the descriptor of the message queue.
  unfoldable pub ed_event_loop : Bool → ℕ → ℕ → Option LoopEnd
  unfolding es_main begin_task end_task
  ed_event_loop del n fd = do
    s ← es_main w n (begin_task w fd)
    if s.exit_flag then end_task del s else some goes_on
