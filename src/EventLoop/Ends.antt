-- ===== src/EventLoop/Ends.antt =====
-- EdTask::edEventLoop: how it ends.
use ednio.Prelude.{
  ℕ, ◌≡◌, refl, sym, ap, ◌∙◌, subst, List, [], ◌∷◌, ◌++◌, Bool, true, false, Option, some,
  if◌then◌else◌, ◌>>=◌, ◌&&◌, ◌==◌, ==_iff, arith, length, length-append,
}
use ednio.EventLoop.{
  Evt, Loop, Op, World, load, find, remove, reg_ed_event, unlisted, dereg_ed_event, run_ops,
  clean_up_event_resource, es_main,
}
use ednio.EventLoop.Alive.{IsSound, IsLawful, AllAllowed, AllListed}
use ednio.EventLoop.Deregister.{Heads, Keeps}
use ednio.EventLoop.Calls.{run_ops-Returned}
use ednio.EventLoop.Rounds.{IsTidy, es_main-Kept}
use ednio.EventLoop.Life.{
  LoopEnd, goes_on, aborts, returns, any_left, msg_evt, begin_task, check_left, end_task,
  ed_event_loop,
}

-- Nothing is listed, waits to be freed or is allocated, and every call was of a listed event.
abbrev pub IsDone : Loop → Type 0
IsDone s = (s.evt_list ≡ []) × (s.dummy_list ≡ []) × (s.evt_alloc_cnt ≡ 0) × AllListed s.calls

-- By the exit flag and the events that are listed beside the task's own.
abbrev pub Ends : Bool → List Evt → Option LoopEnd → Type 0
Ends false rest o = o ≡ some goes_on
Ends true [] o = (s : Loop) × (o ≡ some (returns s)) × IsDone s
Ends true (e ∷ rest) o = o ≡ some aborts

guarded-Ends :
    (b : Bool) (rest : List Evt) (o : Option LoopEnd)
    → Ends true rest o
    → Ends b rest (if b then o else some goes_on)
guarded-Ends true rest o h = h
guarded-Ends false rest o h = refl

found_first : (e : Evt) (es : List Evt) → find e.addr (e ∷ es) ≡ some e
unfolding find
found_first e es = rw ((==_iff e.addr e.addr).1 refl) refl

removed_first : (e : Evt) (es : List Evt) → remove e.addr (e ∷ es) ≡ es
unfolding remove
removed_first e es = rw ((==_iff e.addr e.addr).1 refl) refl

module _ (w : World) (closes : Loop → List Op) where
  begin-IsTidy : (fd : ℕ) → (fd == 0) ≡ false → IsTidy (begin_task w fd)
  unfolding IsTidy begin_task reg_ed_event
  begin-IsTidy fd f = (
    record {
      registered = (refl, f, tt);
      waiting = tt;
      distinct = (refl, tt);
      counted = refl;
      alloc_counted = refl;
      all_listed = tt;
    },
    refl,
    refl,
  )

  begin-Heads : (fd : ℕ) → Heads (msg_evt w fd) (begin_task w fd)
  unfolding begin_task reg_ed_event
  begin-Heads fd = ([], refl)

  -- The state after the task's own event is gone.
  last_state : ℕ → Loop → Loop
  unfolding unlisted clean_up_event_resource
  last_state fd s = clean_up_event_resource (unlisted (msg_evt w fd) s)

  load_front :
      (fd : ℕ) (s : Loop) (rest : List Evt)
      → s.evt_list ≡ msg_evt w fd ∷ rest
      → load s (w.malloc []) ≡ some (msg_evt w fd)
  unfolding load find
  load_front fd s rest h =
      ap (λ l. find (w.malloc []) (l ++ s.dummy_list)) h
      ∙ found_first (msg_evt w fd) (rest ++ s.dummy_list)

  last_list :
      (fd : ℕ) (s : Loop) (rest : List Evt)
      → s.evt_list ≡ msg_evt w fd ∷ rest
      → (last_state fd s).evt_list ≡ rest
  unfolding last_state unlisted clean_up_event_resource remove
  last_list fd s rest h = ap (remove (w.malloc [])) h ∙ removed_first (msg_evt w fd) rest

  last-IsDone :
      (fd : ℕ) (s : Loop) → IsSound s → s.evt_list ≡ msg_evt w fd ∷ [] → IsDone (last_state fd s)
  unfolding last_state unlisted clean_up_event_resource
  last-IsDone fd s i h =
      let gone = record (msg_evt w fd) { is_reg = false } in
      (
        last_list fd s [] h,
        refl,
        omega (arith, i.alloc_counted, ap length h, length-append s.dummy_list (gone ∷ [])),
        i.all_listed,
      )

  checked-Ends :
      (fd : ℕ) (s : Loop) (rest : List Evt)
      → IsSound s
      → s.evt_list ≡ msg_evt w fd ∷ rest
      → Ends true rest (some (check_left (last_state fd s)))
  unfolding check_left any_left
  checked-Ends fd s [] i h = (
    last_state fd s,
    ap (λ l. some (if any_left l then aborts else returns (last_state fd s))) (last_list fd s [] h),
    last-IsDone fd s i h,
  )
  checked-Ends fd s (e ∷ rest) i h =
      ap (λ l. some (if any_left l then aborts else returns (last_state fd s)))
        (last_list fd s (e ∷ rest) h)

  end-Ends :
      (fd : ℕ) (s s1 : Loop) (rest : List Evt)
      → run_ops w (closes s) s ≡ some s1
      → IsSound s1
      → s1.evt_list ≡ msg_evt w fd ∷ rest
      → Ends true rest (end_task w closes true s)
  unfolding end_task dereg_ed_event last_state
  end-Ends fd s s1 rest r i h =
      let out : Loop → Option LoopEnd = λ x. some (check_left (clean_up_event_resource x)) in
      let go : Loop → Evt → Option LoopEnd = λ x e. dereg_ed_event (true && e.is_reg) e x >>= out in
      subst (Ends true rest)
        (sym (
          ap (λ o. o >>= λ x. load x (w.malloc []) >>= go x) r
          ∙ ap (λ o. o >>= go s1) (load_front fd s1 rest h)))
        (checked-Ends fd s1 rest i h)

  -- For memory that is given out where none is in use, event objects and listeners that do what is
  -- allowed (descriptors that are not 0, registering and deregistering between setFd and the end,
  -- deregistering descriptors that epoll_ctl takes out), reports of listed events, and a descriptor of
  -- the message queue that is not 0 and that epoll_ctl takes out: the thread of a task meets no fault
  -- and no assertion but the one at its end. After so many rounds and the listeners of EDM_CLOSE the
  -- task's own event still stands in front, and beside it those events that they leave. Without the
  -- exit flag the loop goes on; with it the function returns with nothing listed, waiting or
  -- allocated when there are no such events, and the assertion at its end fails when there are.
  pub ed_event_loop-Ends :
      (n fd : ℕ)
      → IsLawful w
      → ((s : Loop) → AllAllowed w (closes s) s)
      → (fd == 0) ≡ false
      → (s : Loop) × (s1 : Loop) × (rest : List Evt) × (es_main w n (begin_task w fd) ≡ some s)
        × (run_ops w (closes s) s ≡ some s1)
        × (s1.evt_list ≡ msg_evt w fd ∷ rest)
        × Ends s.exit_flag rest (ed_event_loop w closes true n fd)
  unfolding ed_event_loop IsTidy Keeps
  ed_event_loop-Ends n fd l z f =
      let m = msg_evt w fd in
      let (s, e, t, p) = es_main-Kept w n (begin_task w fd) l (begin-IsTidy fd f) in
      let (s1, r, ks) = run_ops-Returned w (closes s) s l (z s) t.0 in
      let (i, k, q) = ks in
      let (rest, h) = q m refl (p m refl (begin-Heads fd)) in
      let go : Loop → Option LoopEnd =
        λ x. if x.exit_flag then end_task w closes true x else some goes_on in
      (
        s,
        s1,
        rest,
        e,
        r,
        h,
        subst (Ends s.exit_flag rest) (sym (ap (λ o. o >>= go) e)) (
            guarded-Ends s.exit_flag rest (end_task w closes true s) (end-Ends fd s s1 rest r i h)),
      )
