-- ===== src/Task/Tests.antt =====
-- Runs of EdTask's message queue at concrete inputs.
use ednio.ObjList.Chain.{has}
use ednio.Prelude.{
  none, ℕ, List, ◌∷◌, some, ◌==◌, ◌&&◌, subst, sym, ==_iff, ◌+◌, ◌≤◌, ◌≡◌, inr, refl, [], ◌++◌,
  Bool, true, false, arith, length, if◌then◌else◌,
}
use ednio.Task.{
  Task, plain, posted, closed, asserts, init_msg, alloc_msg_obj, post_ed_msg, send_push, send_write,
  msgevent_cb, take_msg, dispatch_msgs, close_msg, close_fd, discard_locked,
}
use ednio.Task.Views.{ViewMap, ViewInfo}
use ednio.Task.Step.{posts, pushes, reads, takes, Reach, start, next}
use ednio.Task.Bound.{held, Reach-as_expected, Reach-objects}
use ednio.Task.Senders.{hand, senders, woken_senders}
use ednio.Task.Order.{Reach-order, Reach-waiting}
use ednio.Task.Close.{HasRoom, Reach-close_msg, Reach-send_race}
use ednio.Task.Reserve.{Objects, reserve_free, reserve_all, free_reserved_objs}
use ednio.Task.Reserving.{IsSound, UsesAlive}
use ednio.Task.Freed.{free_reserved_objs-IsSound}
use ednio.Task.Drain.{quiet, has_exit, dispatch_msgs-drains}

abbrev fresh : Task
fresh = init_msg 2

abbrev one_posted : Task
one_posted = (post_ed_msg true fresh 0 1000 (plain 7)).1

abbrev two_posted : Task
two_posted = (send_push one_posted 42 0 5 (plain 0)).1

abbrev in_round : Task
in_round = take_msg (msgevent_cb two_posted)

one_posted-Reach : Reach 2 one_posted
one_posted-Reach = next start (posts true 0 1000 (plain 7) refl)

two_posted-Reach : Reach 2 two_posted
two_posted-Reach = next one_posted-Reach (pushes 42 0 5 (plain 0) refl)

in_round-Reach : Reach 2 in_round
unfolding msgevent_cb take_msg post_ed_msg send_push alloc_msg_obj
in_round-Reach = next (next two_posted-Reach (reads refl refl refl)) (takes refl (omega arith) refl)

-- The queue of two holds two; a third post meets the assertion.
full : (post_ed_msg true two_posted 0 1000 (plain 8)).0 ≡ asserts
unfolding post_ed_msg send_push alloc_msg_obj
full = refl

-- While one is in hand, one more is accepted, so there are three objects.
Reach-objects_example : length in_round.qued + in_round.empties + held in_round.in_hand ≤ 3
Reach-objects_example = Reach-objects in_round-Reach

Reach-as_expected_example : in_round.unexpected ≡ false
Reach-as_expected_example = Reach-as_expected in_round-Reach

Reach-order_example :
    in_round.history.accepted
    ≡ in_round.history.dispatched
      ++ (in_round.history.discarded ++ (hand in_round.in_hand ++ in_round.qued))
Reach-order_example = Reach-order in_round-Reach

Reach-waiting_example :
    senders in_round.history.accepted
    ≡ woken_senders in_round ++ senders (hand in_round.in_hand ++ in_round.qued)
Reach-waiting_example = Reach-waiting in_round-Reach

Reach-close_msg_example :
    let u = close_msg two_posted in
    (woken_senders u ≡ senders u.history.accepted)
    × (post_ed_msg true u 0 1000 (plain 1) ≡ (closed, u))
    × (send_push u 9 0 1000 (plain 1) ≡ (closed, u))
unfolding post_ed_msg send_push alloc_msg_obj
Reach-close_msg_example = Reach-close_msg true 9 0 1000 (plain 1) two_posted-Reach refl refl

Reach-send_race_example :
    let s = (send_push one_posted 42 0 1000 (plain 0)).1 in
    Reach 2 s
    × ((send_push one_posted 42 0 1000 (plain 0)).0 ≡ posted)
    × (s.in_hand ≡ none)
    × (s.left ≡ 0)
    × (discard_locked (close_fd s) ≡ none)
    × ((wrote : Bool) → (send_write wrote (close_fd s)).0 ≡ asserts)
unfolding post_ed_msg alloc_msg_obj HasRoom
Reach-send_race_example =
    Reach-send_race 42 0 1000 (plain 0) one_posted-Reach refl refl refl (inr (omega arith))

abbrev views : ViewMap
views = record { seed = 3; entries = [] }

abbrev info : ViewInfo
info = record { task = 1; lis = 2 }

dispatch_msgs-drains_example :
    let u = dispatch_msgs (quiet (λ _ _. 0)) views (length two_posted.qued) two_posted in
    (u.qued ≡ [])
    × (u.history.dispatched ≡ two_posted.history.dispatched ++ two_posted.qued)
    × (u.empties ≡ two_posted.empties + length two_posted.qued)
    × (u.unexpected ≡ two_posted.unexpected)
    × (u.exit_flag ≡ (if has_exit two_posted.qued then true else two_posted.exit_flag))
dispatch_msgs-drains_example = dispatch_msgs-drains (λ _ _. 0) views two_posted.qued two_posted refl

-- Two reserved objects, the first of which reserves a third one.
abbrev two_reserved : Objects
two_reserved = record {
  alive = 1 ∷ 2 ∷ 3 ∷ [];
  deleted = [];
  is_free = 2 ∷ 1 ∷ [];
  reserve_free_list = 1 ∷ 2 ∷ [];
}

unfoldable reserves_third : ℕ → Objects → List ℕ
reserves_third x s = if x == 1 && has 3 s.alive then 3 ∷ [] else []

reserves_third-UsesAlive : UsesAlive reserves_third
unfolding reserves_third
reserves_third-UsesAlive x s y h = third (x == 1) (has 3 s.alive) y s.alive refl h
  where
    third :
        (a b : Bool) (y : ℕ) (xs : List ℕ)
        → has 3 xs ≡ b
        → has y (if a && b then 3 ∷ [] else []) ≡ true
        → has y xs ≡ true
    third true true y xs e h = subst (λ k. has k xs ≡ true) (sym ((==_iff y 3).0 (ground arith))) e
    third true false y xs e h = cc
    third false b y xs e h = cc

two_reserved-IsSound : IsSound [] two_reserved
two_reserved-IsSound = record {
  flagged = λ y h. ground arith;
  present = λ y h. ground arith;
  waiting = λ y h. refl;
  once = (refl, (refl, tt));
  separate = (refl, (refl, (refl, tt)));
}

all_deleted :
    reserve_all (1 ∷ 2 ∷ []) (record two_reserved { is_free = []; reserve_free_list = [] })
    ≡ some two_reserved
unfolding reserve_all reserve_free
all_deleted = refl

free_reserved_objs-IsSound_example :
    (u : Objects) × (free_reserved_objs reserves_third 3 two_reserved ≡ some u)
    × IsSound [] u
    × (u.reserve_free_list ≡ [])
    × (more : List ℕ) × (u.deleted ≡ [] ++ ((1 ∷ 2 ∷ []) ++ more))
free_reserved_objs-IsSound_example =
    free_reserved_objs-IsSound reserves_third 3 two_reserved reserves_third-UsesAlive
      two_reserved-IsSound (omega arith)
