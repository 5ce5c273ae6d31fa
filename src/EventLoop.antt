-- ===== src/EventLoop.antt =====
-- The event registry and the loop of EdTask (ednio/EdTask.cpp), as its event objects use them
-- (ednio/EdEvent.cpp): registered events stand in one list, deregistered ones in a second one until
-- the round is over, and only then are they freed. The lists are the sequences of ObjList.
pub mod Alive
pub mod Listed
pub mod Deregister
pub mod Calls
pub mod Rounds
pub mod Life
pub mod Ends
mod Tests
use ednio.Prelude.{
  ℕ, zero, suc, ◌+◌, ◌-◌, ◌≡◌, List, [], ◌∷◌, ◌++◌, Bool, true, false, Option, none, some, ◌==◌,
  if◌then◌else◌, ◌>>=◌, map, length, ◌||◌,
}
use ednio.ObjList.Chain.{has}
use ednio.ObjList.Refine.{erase}

-- What `user` of an event points to: the task itself, for its message queue, or an event object.
pub data User : Type 0 where
  the_task : User
  object : ℕ → User

-- `edevt_t` at its address.
pub record Evt : Type 0 where
  pub addr : ℕ
  pub fd : ℕ
  pub user : User
  pub is_reg : Bool

pub data Kind : Type 0 where
  on_read on_hangup on_write : Kind

-- A call of an event object, and whether its event was in `mEvtList` then.
pub record Called : Type 0 where
  pub who : User
  pub kind : Kind
  pub was_listed : Bool

pub record Loop : Type 0 where
  -- `mEvtList` and `mDummyEvtList`
  pub evt_list : List Evt
  pub dummy_list : List Evt
  -- `mCtx.evt_count`, `mCtx.evt_alloc_cnt` and `mCtx.exit_flag`
  pub evt_count : ℕ
  pub evt_alloc_cnt : ℕ
  pub exit_flag : Bool
  -- the event objects whose `mTask` is this task; it is NULL for the others
  pub attached : List ℕ
  -- the event objects whose `mIsReg` is set though `epoll_ctl` refused their event
  pub half : List ℕ
  -- how often `epoll_ctl` refused an event, and the calls made
  pub refused : ℕ
  pub calls : List Called

-- `esOpen`.
abbrev pub es_open : Loop
es_open = record {
  evt_list = [];
  dummy_list = [];
  evt_count = 0;
  evt_alloc_cnt = 0;
  exit_flag = false;
  attached = [];
  half = [];
  refused = 0;
  calls = [];
}

abbrev pub addr_of : Evt → ℕ
addr_of e = e.addr

-- The addresses that are allocated.
abbrev pub allocated : Loop → List ℕ
allocated s = map addr_of (s.evt_list ++ s.dummy_list)

-- The event at an address: a pointer that is not allocated is a fault.
unfoldable pub find : ℕ → List Evt → Option Evt
find a [] = none
find a (e ∷ es) = if a == e.addr then some e else find a es

unfoldable pub load : Loop → ℕ → Option Evt
unfolding find
load s a = find a (s.evt_list ++ s.dummy_list)

unfoldable pub is_some : Option Evt → Bool
is_some none = false
is_some (some _) = true

abbrev pub is_object : ℕ → User → Bool
is_object u the_task = false
is_object u (object v) = v == u

-- The event of an event object.
unfoldable pub find_user : ℕ → List Evt → Option Evt
find_user u [] = none
find_user u (e ∷ es) = if is_object u e.user then some e else find_user u es

unfoldable pub remove : ℕ → List Evt → List Evt
remove a [] = []
remove a (e ∷ es) = if a == e.addr then es else e ∷ remove a es

-- `allocEvent` and `regEdEvent`, at the address that the allocation gives; `ok` says whether
-- `epoll_ctl` accepts the event.
unfoldable pub reg_ed_event : ℕ → ℕ → User → Bool → Loop → Loop
reg_ed_event a fd user ok s =
    let e : Evt = record { addr = a; fd = fd; user = user; is_reg = true } in
    if ok
    then record s {
      evt_list = s.evt_list ++ e ∷ [];
      evt_count = s.evt_count + 1;
      evt_alloc_cnt = s.evt_alloc_cnt + 1;
    }
    else record s { evt_count = s.evt_count + 1; refused = s.refused + 1 }

-- `deregEdEvent`, once `epoll_ctl` has taken the descriptor out.
unfoldable pub unlisted : Evt → Loop → Loop
unfolding remove
unlisted e s = record s {
  evt_list = remove e.addr s.evt_list;
  dummy_list = s.dummy_list ++ record e { is_reg = false } ∷ [];
  evt_count = s.evt_count - 1;
}

-- `deregEdEvent`, where `del` says whether `epoll_ctl` takes the descriptor out; the assertion fails
-- if it does not.
unfoldable pub dereg_ed_event : Bool → Evt → Loop → Option Loop
unfolding unlisted
dereg_ed_event del e s = if del then some (unlisted e s) else none

-- `cleanUpEventResource`, with `freeEvent` of each.
unfoldable pub clean_up_event_resource : Loop → Loop
clean_up_event_resource s = record s {
  dummy_list = [];
  evt_alloc_cnt = s.evt_alloc_cnt - length s.dummy_list;
}

-- What an event object does when it is called: it, or another one, gets its descriptor
-- (`EdEvent::setFd`), registers its event (`EdEvent::registerEvent`), deregisters it
-- (`EdEvent::deregisterEvent`), or has the loop end. `epoll_ctl` answers with `ok` and `del`.
pub data Op : Type 0 where
  sets_fd : (user : ℕ) → Op
  registers : (user fd : ℕ) (ok : Bool) → Op
  deregisters : (user : ℕ) (del : Bool) → Op
  exits : Op

-- What is not the program's: how memory is given out, what the event objects do, and what
-- `epoll_wait` reports in a round.
pub record Ready : Type 0 where
  pub ptr : ℕ
  pub readable : Bool
  pub hung_up : Bool
  pub writable : Bool

pub record World : Type 0 where
  pub malloc : List ℕ → ℕ
  pub reacts : User → Kind → Loop → List Op
  pub epoll_wait : ℕ → Loop → List Ready

module _ (w : World) where
  -- `registerEvent` of an object whose `mIsReg` is not set: with no task it is a fault.
  unfoldable pub register_new : ℕ → ℕ → Bool → Loop → Option Loop
  unfolding reg_ed_event
  register_new user fd ok s =
      let s' = if ok then s else record s { half = user ∷ s.half } in
      if has user s.attached
      then some (reg_ed_event (w.malloc (allocated s)) fd (object user) ok s')
      else none

  -- `mIsReg` is set for an object with an event, and for one in `half`: then there is nothing to do.
  unfoldable pub register_event : ℕ → ℕ → Bool → Loop → Option Evt → Option Loop
  unfolding register_new
  register_event user fd ok s (some e) = some s
  register_event user fd ok s none = if has user s.half then some s else register_new user fd ok s

  -- `deregisterEvent` of an object that has this task: nothing if `mIsReg` is not set; else its event,
  -- if it has one, is deregistered, and `mTask` is NULL.
  unfoldable pub deregister_event : ℕ → Bool → Loop → Option Evt → Option Loop
  unfolding dereg_ed_event erase
  deregister_event user del s none =
      if has user s.half
      then some record s { half = erase user s.half; attached = erase user s.attached }
      else some s
  deregister_event user del s (some e) =
      dereg_ed_event del e (record s { attached = erase user s.attached })

  unfoldable pub run_op : Op → Loop → Option Loop
  unfolding register_event deregister_event find_user
  run_op (sets_fd user) s =
      if has user s.attached then some s else some record s { attached = user ∷ s.attached }
  run_op (registers user fd ok) s = register_event user fd ok s (find_user user s.evt_list)
  run_op (deregisters user del) s =
      if has user s.attached then deregister_event user del s (find_user user s.evt_list) else none
  run_op exits s = some record s { exit_flag = true }

  unfoldable pub run_ops : List Op → Loop → Option Loop
  unfolding run_op
  run_ops [] s = some s
  run_ops (o ∷ ops) s = do t ← run_op o s; run_ops ops t

  -- `evtcb`, which calls the event object.
  unfoldable pub fire : Kind → Evt → Loop → Option Loop
  unfolding run_ops is_some find
  fire kind e s =
      let c : Called = record {
        who = e.user;
        kind = kind;
        was_listed = is_some (find e.addr s.evt_list);
      } in
      let s' = record s { calls = s.calls ++ c ∷ [] } in run_ops (w.reacts e.user kind s') s'

  -- One kind of event of a reported pointer: nothing once it is deregistered.
  unfoldable pub turn : Kind → Bool → ℕ → Loop → Option Loop
  unfolding load fire
  turn kind on a s = do
    e ← load s a
    if e.is_reg then (if on then fire kind e s else some s) else some s

  -- One round of the loop over what `epoll_wait` reported; a descriptor of 0 meets the assertion.
  unfoldable pub handle : Ready → Loop → Option Loop
  unfolding load turn
  handle r s = do
    e ← load s r.ptr
    if e.fd == 0 then none else (do
      s1 ← turn on_read r.readable r.ptr s
      s2 ← turn on_hangup r.hung_up r.ptr s1
      turn on_write r.writable r.ptr s2)

  unfoldable pub handle_all : List Ready → Loop → Option Loop
  unfolding handle
  handle_all [] s = some s
  handle_all (r ∷ rs) s = do s' ← handle r s; handle_all rs s'

  -- `esMain`, for at most so many rounds.
  unfoldable pub es_main : ℕ → Loop → Option Loop
  unfolding handle_all clean_up_event_resource
  es_main zero s = some s
  es_main (suc n) s = elim s.exit_flag [
    | true ↦ some s
    | false ↦ handle_all (w.epoll_wait n s) s >>= λ s'. es_main n (clean_up_event_resource s')
  ]
