-- ===== src/EventLoop/Tests.antt =====
-- Runs of EdTask's event loop: an event object that ends its own event, another one's and its thread.
use ednio.Prelude.{
  Bool, Bool-cases, inl, inr, ap, sym, ◌∙◌, if◌then◌else◌, false, ℕ, zero, suc, ◌+◌, ◌≡◌, refl,
  List, [], ◌∷◌, true, false, Option, none, some, ◌≤◌, map, arith,
}
use mathlib.Core.Option.{some-injective}
use ednio.ObjList.Chain.{has}
use ednio.ObjList.Refine.{erase}
use ednio.EventLoop.{
  Kind, User, the_task, object, on_read, on_hangup, on_write, Evt, Loop, addr_of, Op, sets_fd,
  registers, deregisters, exits, Ready, World, es_open, find, load, is_some, find_user, remove,
  reg_ed_event, dereg_ed_event, register_event, deregister_event, run_op, run_ops, fire, turn,
  handle, handle_all, clean_up_event_resource, es_main, register_new, unlisted,
}
use ednio.EventLoop.Alive.{AllAllowed, AllAt, IsLawful}
use ednio.EventLoop.Life.{
  LoopEnd, goes_on, aborts, returns, any_left, msg_evt, begin_task, check_left, end_task,
  ed_event_loop,
}
use ednio.EventLoop.Ends.{Ends, ed_event_loop-Ends}
use ednio.EventLoop.Rounds.{IsTidy, AllAt-kept, es_main-IsTidy}

unfoldable total : List ℕ → ℕ
total [] = 0
total (x ∷ xs) = x + total xs

unfoldable place : List ℕ → ℕ
unfolding total
place xs = total xs + 1

within : (y : ℕ) (xs : List ℕ) → has y xs ≡ true → y ≤ total xs
unfolding total
within y [] m = cc
within y (x ∷ xs) m = ground (arith, within y xs)

place_fresh : (xs : List ℕ) → has (place xs) xs ≡ false
unfolding place
place_fresh xs = ground (arith, within (total xs + 1) xs)

-- The first object ends the second one's event when it reads, and starts a third one when it writes.
unfoldable ends_second : Bool → List Op
ends_second true = deregisters 2 true ∷ []
ends_second false = []

unfoldable answers : User → Kind → Loop → List Op
unfolding ends_second
answers (object (suc zero)) on_read s = ends_second (has 2 s.attached)
answers (object (suc zero)) on_write s = sets_fd 3 ∷ registers 3 8 true ∷ []
answers (object (suc (suc (suc zero)))) on_write s = exits ∷ []
answers u k s = []

unfoldable ready : Evt → Ready
ready e = record { ptr = e.addr; readable = true; hung_up = false; writable = true }

unfoldable waits : ℕ → Loop → List Ready
unfolding ready
waits n s = map ready s.evt_list

all_ready : (es : List Evt) → AllAt (map addr_of es) (map ready es)
unfolding ready
all_ready [] = tt
all_ready (e ∷ es) = (
  ground arith,
  AllAt-kept (map addr_of es) (e.addr ∷ map addr_of es) (map ready es) (λ a m. ground arith)
      (all_ready es),
)

abbrev two_objects : World
two_objects = record { malloc = place; reacts = answers; epoll_wait = waits }

-- After `setFd` the object has the task.
attaches :
    (w : World) (u : ℕ) (s t : Loop) → run_op w (sets_fd u) s ≡ some t → has u t.attached ≡ true
unfolding run_op
attaches w u s t e = elim (Bool-cases (has u s.attached)) [
  | inl y ↦
      ap (λ x. has u x.attached)
        (some-injective t s (sym e ∙ ap (λ b. if b then some s else more) y))
      ∙ y
  | inr n ↦
      ap (λ x. has u x.attached)
        (some-injective t (attached_too u s) (sym e ∙ ap (λ b. if b then some s else more) n))
      ∙ first_of u s.attached
]
  where
    attached_too : ℕ → Loop → Loop
    attached_too u s = record s { attached = u ∷ s.attached }

    more : Option Loop
    more = some (attached_too u s)

    first_of : (u : ℕ) (us : List ℕ) → has u (u ∷ us) ≡ true
    first_of u us = ground arith

ends_second-AllAllowed :
    (w : World) (b : Bool) (s : Loop) → has 2 s.attached ≡ b → AllAllowed w (ends_second b) s
unfolding ends_second
ends_second-AllAllowed w true s e = ((e, refl), λ t h. tt)
ends_second-AllAllowed w false s e = tt

answers-AllAllowed : (u : User) (k : Kind) (s : Loop) → AllAllowed two_objects (answers u k s) s
unfolding answers
answers-AllAllowed the_task k s = tt
answers-AllAllowed (object zero) k s = tt
answers-AllAllowed (object (suc zero)) on_read s =
    ends_second-AllAllowed two_objects (has 2 s.attached) s refl
answers-AllAllowed (object (suc zero)) on_hangup s = tt
answers-AllAllowed (object (suc zero)) on_write s =
    (tt, λ t h. ((refl, attaches two_objects 3 s t h), λ u g. tt))
answers-AllAllowed (object (suc (suc zero))) k s = tt
answers-AllAllowed (object (suc (suc (suc zero)))) on_read s = tt
answers-AllAllowed (object (suc (suc (suc zero)))) on_hangup s = tt
answers-AllAllowed (object (suc (suc (suc zero)))) on_write s = (tt, λ t h. tt)
answers-AllAllowed (object (suc (suc (suc (suc u))))) k s = tt

two_objects-IsLawful : IsLawful two_objects
unfolding waits
two_objects-IsLawful = record {
  fresh = place_fresh;
  allowed = answers-AllAllowed;
  reports = λ n s. all_ready s.evt_list;
}

abbrev started : Loop
started = record es_open {
  evt_list =
      record { addr = 1; fd = 5; user = object 1; is_reg = true }
      ∷ record { addr = 2; fd = 6; user = object 2; is_reg = true }
      ∷ [];
  evt_count = 2;
  evt_alloc_cnt = 2;
  attached = 2 ∷ 1 ∷ [];
}

started_runs :
    run_ops two_objects
      (sets_fd 1 ∷ registers 1 5 true ∷ sets_fd 2 ∷ registers 2 6 true ∷ [])
      es_open
    ≡ some started
unfolding run_ops run_op register_event register_new reg_ed_event find_user place total
started_runs = refl

-- Registering without a descriptor, or deregistering twice, does not go through.
misused :
    (run_ops two_objects (registers 4 9 true ∷ []) started ≡ none)
    × (run_ops two_objects (deregisters 1 true ∷ deregisters 1 true ∷ []) started ≡ none)
unfolding run_ops run_op register_event register_new deregister_event dereg_ed_event unlisted
    find_user remove erase
misused = (refl, refl)

started-IsTidy : IsTidy started
unfolding IsTidy
started-IsTidy = (
  record {
    registered = (refl, refl, (refl, refl, tt));
    waiting = tt;
    distinct = (refl, (refl, tt));
    counted = refl;
    alloc_counted = refl;
    all_listed = tt;
  },
  refl,
  refl,
)

unfoldable callers : Option Loop → List User
callers none = []
callers (some s) = map (λ c. c.who) s.calls

-- The first round calls the first object only; the second one calls also the object that it
-- registered, which ends the loop.
calls_made :
    callers (es_main two_objects 3 started)
    ≡ object 1 ∷ object 1 ∷ object 1 ∷ object 1 ∷ object 3 ∷ object 3 ∷ []
unfolding callers es_main run_ops run_op register_event register_new deregister_event reg_ed_event
    dereg_ed_event unlisted find_user remove erase place total waits ready handle_all handle turn
    fire load find is_some answers ends_second clean_up_event_resource
calls_made = refl

es_main-IsTidy_example : (s' : Loop) × (es_main two_objects 3 started ≡ some s') × IsTidy s'
es_main-IsTidy_example = es_main-IsTidy two_objects 3 started two_objects-IsLawful started-IsTidy

-- A task whose message makes an event object register, which then ends the loop; on EDM_CLOSE the
-- object deregisters.
unfoldable task_answers : User → Kind → Loop → List Op
task_answers the_task on_read s = sets_fd 2 ∷ registers 2 5 true ∷ []
task_answers (object u) on_read s = exits ∷ []
task_answers u k s = []

abbrev task_world : World
task_world = record { malloc = place; reacts = task_answers; epoll_wait = waits }

task_answers-AllAllowed :
    (u : User) (k : Kind) (s : Loop) → AllAllowed task_world (task_answers u k s) s
unfolding task_answers
task_answers-AllAllowed the_task on_read s =
    (tt, λ t h. ((refl, attaches task_world 2 s t h), λ u g. tt))
task_answers-AllAllowed the_task on_hangup s = tt
task_answers-AllAllowed the_task on_write s = tt
task_answers-AllAllowed (object u) on_read s = (tt, λ t h. tt)
task_answers-AllAllowed (object u) on_hangup s = tt
task_answers-AllAllowed (object u) on_write s = tt

task_world-IsLawful : IsLawful task_world
unfolding waits
task_world-IsLawful = record {
  fresh = place_fresh;
  allowed = task_answers-AllAllowed;
  reports = λ n s. all_ready s.evt_list;
}

unfoldable closes_it : Loop → List Op
unfolding ends_second
closes_it s = ends_second (has 2 s.attached)

closes_it-AllAllowed : (s : Loop) → AllAllowed task_world (closes_it s) s
unfolding closes_it
closes_it-AllAllowed s = ends_second-AllAllowed task_world (has 2 s.attached) s refl

abbrev leaves_it : Loop → List Op
leaves_it s = []

unfoldable verdict : Option LoopEnd → ℕ
verdict none = 0
verdict (some goes_on) = 1
verdict (some aborts) = 2
verdict (some (returns s)) = 3

-- The task returns after two rounds, unless the object keeps its event; one round is too few.
task_runs :
    (verdict (ed_event_loop task_world closes_it true 3 4) ≡ 3)
    × (verdict (ed_event_loop task_world leaves_it true 3 4) ≡ 2)
    × (verdict (ed_event_loop task_world closes_it true 1 4) ≡ 1)
unfolding verdict ed_event_loop begin_task end_task check_left any_left es_main run_ops run_op
    register_event register_new deregister_event reg_ed_event dereg_ed_event unlisted find_user
    remove erase place total waits ready handle_all handle turn fire load find is_some task_answers
    closes_it ends_second clean_up_event_resource
task_runs = (refl, refl, refl)

ed_event_loop-Ends_example :
    (s : Loop) × (s1 : Loop) × (rest : List Evt) × (es_main task_world 3 (begin_task task_world 4)
      ≡ some s)
    × (run_ops task_world (closes_it s) s ≡ some s1)
    × (s1.evt_list ≡ msg_evt task_world 4 ∷ rest)
    × Ends s.exit_flag rest (ed_event_loop task_world closes_it true 3 4)
ed_event_loop-Ends_example =
    ed_event_loop-Ends task_world closes_it 3 4 task_world-IsLawful closes_it-AllAllowed refl
