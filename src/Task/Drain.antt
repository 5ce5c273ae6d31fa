-- ===== src/Task/Drain.antt =====
-- EdTask: one wake-up of the event loop dispatches all that was posted.
use ednio.Prelude.{
  ℕ, suc, ◌+◌, ◌≡◌, refl, sym, ap, ◌∙◌, List, [], ◌∷◌, ◌++◌, Bool, true, false, some, arith,
  append_assoc, append-nil, length, if◌then◌else◌, ◌==◌,
}
use ednio.Task.{
  Task, Msg, History, edm_exit, take_msg, finish_msg, notify, handle_msg, dispatch_msgs,
}
use ednio.Task.Views.{ViewMap, Target}

-- A callback that posts nothing: it gives a result and leaves the task as it is.
abbrev pub quiet : (Target → Msg → ℕ) → Target → Msg → Task → ℕ × Task
quiet result target m t = (result target m, t)

-- EDM_EXIT is among the messages.
pub has_exit : List Msg → Bool
has_exit [] = false
has_exit (m ∷ ms) = if m.msgid == edm_exit then true else has_exit ms

handle_msg-quiet :
    (result : Target → Msg → ℕ) (views : ViewMap) (m : Msg) (t : Task)
    → (handle_msg (quiet result) views m t).1 ≡ t
unfolding handle_msg
handle_msg-quiet result views m t = ground arith

notify-dispatched : (h : History) (m : Msg) (code : ℕ) → (notify h m code).dispatched ≡ h.dispatched
unfolding notify
notify-dispatched h m code = ground arith

-- One round with such a callback.
round_lem :
    (result : Target → Msg → ℕ) (views : ViewMap) (m : Msg) (ms : List Msg) (t : Task)
    → t.qued ≡ m ∷ ms
    → (u : Task) × ((cnt : ℕ)
        → dispatch_msgs (quiet result) views (suc cnt) t ≡ dispatch_msgs (quiet result) views cnt u)
      × (u.qued ≡ ms)
      × (u.history.dispatched ≡ t.history.dispatched ++ m ∷ [])
      × (u.empties ≡ t.empties + 1)
      × (u.unexpected ≡ t.unexpected)
      × (u.exit_flag ≡ (if m.msgid == edm_exit then true else t.exit_flag))
unfolding dispatch_msgs finish_msg take_msg
round_lem result views m ms t e =
    let taken : Task = record t { qued = ms; in_hand = some m } in
    let code = (handle_msg (quiet result) views m taken).0 in
    (
      finish_msg taken m code,
      λ cnt.
          rw (e, take_msg)
            (ap (λ x. dispatch_msgs (quiet result) views cnt (finish_msg x m code))
              (handle_msg-quiet result views m taken)),
      refl,
      notify-dispatched _ m code,
      refl,
      refl,
      refl,
    )

-- Dispatching as many rounds as messages are queued, with callbacks that post nothing, empties the
-- queue in order, returns every message object to the pool, and sets the exit flag if EDM_EXIT is
-- among the messages; those behind it are dispatched too.
pub dispatch_msgs-drains :
    (result : Target → Msg → ℕ) (views : ViewMap) (ms : List Msg) (t : Task)
    → t.qued ≡ ms
    → let u = dispatch_msgs (quiet result) views (length ms) t in
      (u.qued ≡ [])
      × (u.history.dispatched ≡ t.history.dispatched ++ ms)
      × (u.empties ≡ t.empties + length ms)
      × (u.unexpected ≡ t.unexpected)
      × (u.exit_flag ≡ (if has_exit ms then true else t.exit_flag))
unfolding dispatch_msgs has_exit
dispatch_msgs-drains result views [] t e = (e, sym (append-nil _), omega arith, refl, refl)
dispatch_msgs-drains result views (m ∷ ms) t e =
    let (u, step, q, d, k, x, f) = round_lem result views m ms t e in
    let (q', d', k', x', f') = dispatch_msgs-drains result views ms u q in
    rw (step (length ms)) (
      q',
      d' ∙ ap (λ l. l ++ ms) d ∙ append_assoc t.history.dispatched (m ∷ []) ms,
      omega arith,
      x' ∙ x,
      ground arith,
    )
