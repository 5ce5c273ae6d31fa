-- ===== src/EventLoop/Rounds.antt =====
-- EdTask::esMain: its rounds, whatever the event objects do when they are called.

use ednio.Prelude.{
  ℕ, zero, suc, ◌≡◌, refl, sym, ap, ◌∙◌, subst, List, [], ◌∷◌, Bool, true, false, Option, none,
  some, ◌==◌, arith, map, length, if◌then◌else◌, ◌||◌, ◌>>=◌, Bool-cases, inl, inr, append-nil,
}
use ednio.ObjList.Chain.{has, Distinct, has-append, Distinct-left}
use ednio.EventLoop.{
  Kind, the_task, on_read, on_hangup, on_write, Evt, Loop, addr_of, allocated, load, Ready, World,
  fire, turn, handle, handle_all, clean_up_event_resource, es_main,
}
use ednio.EventLoop.Alive.{IsSound, AllAt, IsLawful, map-addr_append}
use ednio.EventLoop.Deregister.{Heads, Returned, Keeps, Keeps-refl, Keeps-trans}
use ednio.EventLoop.Calls.{is_listed, is_waiting, stands, fire-Returned}

turn_fires :
    (w : World) (kind : Kind) (a : ℕ) (s : Loop) (e : Evt) (o : Option Loop)
    → load s a ≡ some e
    → e.is_reg ≡ true
    → fire w kind e s ≡ o
    → turn w kind true a s ≡ o
unfolding turn
turn_fires w kind a s e o h r g =
    ap (λ x. x >>= λ d. if d.is_reg then fire w kind d s else some s) h
    ∙ ap (λ b. if b then fire w kind e s else some s) r
    ∙ g

turn-Returned :
    (w : World) (kind : Kind) (on : Bool) (a : ℕ) (s : Loop)
    → IsLawful w
    → IsSound s
    → has a (allocated s) ≡ true
    → Returned s (turn w kind on a s)
unfolding turn
turn-Returned w kind on a s l i m = elim (stands a s i m) [
  | is_listed e h r f q ↦ elim on as (λ b. Returned s (turn w kind b a s)) [
    | true ↦
        let (t, g, k) = fire-Returned w kind e s l q i in
        (t, turn_fires w kind a s e (some t) h r g, k)
    | false ↦ (s, rw h (rw r refl), Keeps-refl s i)
  ]
  | is_waiting e h r f ↦ (s, rw h (rw r refl), Keeps-refl s i)
]

load-Returned :
    (a : ℕ) (s : Loop)
    → IsSound s
    → has a (allocated s) ≡ true
    → (e : Evt) × (load s a ≡ some e) × ((e.fd == 0) ≡ false)
load-Returned a s i m = elim (stands a s i m) [
  | is_listed e h r f q ↦ (e, h, f)
  | is_waiting e h r f ↦ (e, h, f)
]

handle_steps :
    (w : World) (r : Ready) (s s1 s2 : Loop) (o : Option Loop) (e : Evt)
    → load s r.ptr ≡ some e
    → (e.fd == 0) ≡ false
    → turn w on_read r.readable r.ptr s ≡ some s1
    → turn w on_hangup r.hung_up r.ptr s1 ≡ some s2
    → turn w on_write r.writable r.ptr s2 ≡ o
    → handle w r s ≡ o
unfolding handle
handle_steps w r s s1 s2 o e h f h1 h2 h3 =
    let last : Loop → Option Loop = λ t. turn w on_write r.writable r.ptr t in
    let rest : Loop → Option Loop = λ t. turn w on_hangup r.hung_up r.ptr t >>= last in
    let whole : Option Loop = turn w on_read r.readable r.ptr s >>= rest in
    ap (λ x. x >>= λ d. if d.fd == 0 then none else whole) h
    ∙ ap (λ b. if b then none else whole) f
    ∙ ap (λ x. x >>= rest) h1
    ∙ ap (λ x. x >>= last) h2
    ∙ h3

handle-Returned :
    (w : World) (r : Ready) (s : Loop)
    → IsLawful w
    → IsSound s
    → has r.ptr (allocated s) ≡ true
    → Returned s (handle w r s)
unfolding Keeps
handle-Returned w r s l i m =
    let (e, h, f) = load-Returned r.ptr s i m in
    let (s1, h1, k1) = turn-Returned w on_read r.readable r.ptr s l i m in
    let (s2, h2, k2) = turn-Returned w on_hangup r.hung_up r.ptr s1 l k1.0 (k1.1 r.ptr m) in
    let (s3, h3, k3) =
      turn-Returned w on_write r.writable r.ptr s2 l k2.0 (k2.1 r.ptr (k1.1 r.ptr m)) in
    (
      s3,
      handle_steps w r s s1 s2 (some s3) e h f h1 h2 h3,
      Keeps-trans s s1 s3 k1 (Keeps-trans s1 s2 s3 k2 k3),
    )

pub AllAt-kept :
    (xs ys : List ℕ) (rs : List Ready)
    → ((a : ℕ) → has a xs ≡ true → has a ys ≡ true)
    → AllAt xs rs
    → AllAt ys rs
AllAt-kept xs ys [] k p = tt
AllAt-kept xs ys (r ∷ rs) k (m, p) = (k r.ptr m, AllAt-kept xs ys rs k p)

handle_all-Returned :
    (w : World) (rs : List Ready) (s : Loop)
    → IsLawful w
    → IsSound s
    → AllAt (allocated s) rs
    → Returned s (handle_all w rs s)
unfolding handle_all Keeps
handle_all-Returned w [] s l i p = (s, refl, Keeps-refl s i)
handle_all-Returned w (r ∷ rs) s l i (m, p) =
    let (s1, h1, k1) = handle-Returned w r s l i m in
    let (s2, h2, k2) =
      handle_all-Returned w rs s1 l k1.0 (AllAt-kept (allocated s) (allocated s1) rs k1.1 p) in
    (s2, ap (λ o. o >>= λ t. handle_all w rs t) h1 ∙ h2, Keeps-trans s s1 s2 k1 k2)

listed_allocated :
    (s : Loop) (a : ℕ) → has a (map addr_of s.evt_list) ≡ true → has a (allocated s) ≡ true
listed_allocated s a m =
    ap (has a) (map-addr_append s.evt_list s.dummy_list)
    ∙ has-append a (map addr_of s.evt_list) (map addr_of s.dummy_list)
    ∙ ap (λ b. b || has a (map addr_of s.dummy_list)) m

-- After a round nothing waits to be freed, and as many events are allocated as are listed.
unfoldable pub IsTidy : Loop → Type 0
IsTidy s = IsSound s × (s.dummy_list ≡ []) × (s.evt_alloc_cnt ≡ length s.evt_list)

pub clean_up-IsTidy : (s : Loop) → IsSound s → IsTidy (clean_up_event_resource s)
unfolding IsTidy clean_up_event_resource
clean_up-IsTidy s i =
    let front =
      Distinct-left (map addr_of s.evt_list) (map addr_of s.dummy_list)
        (subst Distinct (map-addr_append s.evt_list s.dummy_list) i.distinct) in
    (
      record {
        registered = i.registered;
        waiting = tt;
        distinct = subst Distinct (sym (ap (map addr_of) (append-nil s.evt_list))) front;
        counted = i.counted;
        alloc_counted = omega (arith, i.alloc_counted);
        all_listed = i.all_listed;
      },
      refl,
      omega (arith, i.alloc_counted),
    )

cleaned-Heads : (m : Evt) (s : Loop) → Heads m s → Heads m (clean_up_event_resource s)
unfolding clean_up_event_resource
cleaned-Heads m s h = h

es_main-suc :
    (w : World) (n : ℕ) (s s' : Loop)
    → s.exit_flag ≡ false
    → handle_all w (w.epoll_wait n s) s ≡ some s'
    → es_main w (suc n) s ≡ es_main w n (clean_up_event_resource s')
unfolding es_main
es_main-suc w n s s' x h =
    let rest : Loop → Option Loop = λ t. es_main w n (clean_up_event_resource t) in
    ap
      (λ b. elim b as (λ _. Option Loop) [
        | true ↦ some s
        | false ↦ handle_all w (w.epoll_wait n s) s >>= rest
      ])
      x
    ∙ ap (λ o. o >>= rest) h

es_main-exit : (w : World) (n : ℕ) (s : Loop) → s.exit_flag ≡ true → es_main w n s ≡ some s
unfolding es_main
es_main-exit w zero s x = refl
es_main-exit w (suc n) s x = rw x refl

-- The rounds, with what they leave in front of the list.
pub es_main-Kept :
    (w : World) (n : ℕ) (s : Loop)
    → IsLawful w
    → IsTidy s
    → (s' : Loop) × (es_main w n s ≡ some s')
      × IsTidy s'
      × ((m : Evt) → m.user ≡ the_task → Heads m s → Heads m s')
unfolding IsTidy Keeps es_main
es_main-Kept w zero s l t = (s, refl, t, λ m u h. h)
es_main-Kept w (suc n) s l t = elim (Bool-cases s.exit_flag) [
  | inl x ↦ (s, es_main-exit w (suc n) s x, t, λ m u h. h)
  | inr x ↦
      let (s1, h, k) = handle_all-Returned w (w.epoll_wait n s) s l t.0 (
        AllAt-kept (map addr_of s.evt_list) (allocated s) (w.epoll_wait n s) (listed_allocated s)
          (l.reports n s)) in
      let (s2, g, t2, p) =
        es_main-Kept w n (clean_up_event_resource s1) l (clean_up-IsTidy s1 k.0) in
      (s2, es_main-suc w n s s1 x h ∙ g, t2, λ m u z. p m u (cleaned-Heads m s1 (k.2 m u z)))
]

-- For memory that is given out where none is in use, event objects that do what is allowed
-- (descriptors that are not 0, registering and deregistering between setFd and the end,
-- deregistering descriptors that epoll_ctl takes out) and reports of listed events: from a sound state
-- with nothing waiting to be freed, any number of rounds meets no freed event and no assertion,
-- whatever the event objects register and deregister when they are called; it ends in such a state,
-- in which every call was of an event listed then.
pub es_main-IsTidy :
    (w : World) (n : ℕ) (s : Loop)
    → IsLawful w
    → IsTidy s
    → (s' : Loop) × (es_main w n s ≡ some s') × IsTidy s'
es_main-IsTidy w n s l t = let (s', e, t', p) = es_main-Kept w n s l t in (s', e, t')
