-- ===== src/EventLoop/Calls.antt =====
-- EdTask's event loop: what a call of an event object does to the state.

use ednio.Prelude.{
  ℕ, ◌≡◌, refl, sym, ap, ◌∙◌, List, [], ◌∷◌, ◌++◌, Bool, true, false, Option, none, some, ◌==◌, map,
  if◌then◌else◌, ◌>>=◌, ◌||◌, Bool-cases, inl, inr,
}
use ednio.ObjList.Chain.{has, has-append}
use ednio.ObjList.Refine.{erase}
use ednio.EventLoop.{
  Kind, object, Evt, Loop, Called, addr_of, allocated, find, load, find_user, is_some, Op,
  registers, deregisters, exits, World, register_event, deregister_event, run_op, run_ops, fire,
  sets_fd, reg_ed_event, unlisted, dereg_ed_event, register_new,
}
use ednio.EventLoop.Alive.{
  IsSound, Allowed, AllAllowed, IsLawful, map-addr_append, AllListed-append, found,
  find-append_some, find-append_none,
}
use ednio.EventLoop.Deregister.{Returned, Keeps, Keeps-refl, Keeps-trans, reg-Keeps, dereg-Keeps}

-- The marks of the event objects say nothing of the events.
marks-IsSound :
    (s : Loop) (us ts : List ℕ) → IsSound s → IsSound (record s { half = us; attached = ts })
marks-IsSound s us ts i = record {
  registered = i.registered;
  waiting = i.waiting;
  distinct = i.distinct;
  counted = i.counted;
  alloc_counted = i.alloc_counted;
  all_listed = i.all_listed;
}

marks-Keeps :
    (s : Loop) (us ts : List ℕ) → IsSound s → Keeps s (record s { half = us; attached = ts })
unfolding Keeps
marks-Keeps s us ts i = (marks-IsSound s us ts i, λ a m. m, λ m t h. h)

new-Keeps :
    (w : World) (user fd : ℕ) (ok : Bool) (s : Loop)
    → IsLawful w
    → (fd == 0) ≡ false
    → IsSound s
    → Keeps s (
        reg_ed_event
          (w.malloc (allocated s))
          fd
          (object user)
          ok
          (if ok then s else record s { half = user ∷ s.half }))
unfolding Keeps
new-Keeps w user fd true s l f i = reg-Keeps w (object user) fd true s l f i
new-Keeps w user fd false s l f i =
    reg-Keeps w (object user) fd false (record s { half = user ∷ s.half }) l f
      (marks-IsSound s (user ∷ s.half) s.attached i)

register_event-Returned :
    (w : World) (user fd : ℕ) (ok : Bool) (s : Loop) (o : Option Evt)
    → IsLawful w
    → (fd == 0) ≡ false
    → has user s.attached ≡ true
    → IsSound s
    → Returned s (register_event w user fd ok s o)
unfolding register_event register_new
register_event-Returned w user fd ok s (some e) l f a i = (s, refl, Keeps-refl s i)
register_event-Returned w user fd ok s none l f a i =
    let t : Loop =
      reg_ed_event (w.malloc (allocated s)) fd (object user) ok
        (if ok then s else record s { half = user ∷ s.half }) in
    elim (has user s.half)
      as (λ b. Returned s (if b then some s else (if has user s.attached then some t else none))) [
        | true ↦ (s, refl, Keeps-refl s i)
        | false ↦ (t, ap (λ b. if b then some t else none) a, new-Keeps w user fd ok s l f i)
      ]

deregister_event-Returned :
    (w : World) (user : ℕ) (del : Bool) (s : Loop) (o : Option Evt)
    → del ≡ true
    → IsSound s
    → find_user user s.evt_list ≡ o
    → Returned s (deregister_event w user del s o)
unfolding deregister_event dereg_ed_event Keeps
deregister_event-Returned w user del s none d i h =
    let t = record s { half = erase user s.half; attached = erase user s.attached } in
    elim (has user s.half) as (λ b. Returned s (if b then some t else some s)) [
      | true ↦ (t, refl, marks-Keeps s (erase user s.half) (erase user s.attached) i)
      | false ↦ (s, refl, Keeps-refl s i)
    ]
deregister_event-Returned w user del s (some e) d i h =
    let t = record s { attached = erase user s.attached } in
    (
      unlisted e t,
      ap (λ b. if b then some (unlisted e t) else none) d,
      dereg-Keeps user t e (marks-IsSound s s.half (erase user s.attached) i) h,
    )

exits-Keeps : (s : Loop) → IsSound s → Keeps s (record s { exit_flag = true })
unfolding Keeps
exits-Keeps s i = (
  record {
    registered = i.registered;
    waiting = i.waiting;
    distinct = i.distinct;
    counted = i.counted;
    alloc_counted = i.alloc_counted;
    all_listed = i.all_listed;
  },
  λ a m. m,
  λ m t h. h,
)

op-Returned :
    (w : World) (o : Op) (s : Loop)
    → IsLawful w
    → Allowed o s
    → IsSound s
    → Returned s (run_op w o s)
unfolding run_op
op-Returned w (sets_fd user) s l a i =
    let t = record s { attached = user ∷ s.attached } in
    elim (has user s.attached) as (λ b. Returned s (if b then some s else some t)) [
      | true ↦ (s, refl, Keeps-refl s i)
      | false ↦ (t, refl, marks-Keeps s s.half (user ∷ s.attached) i)
    ]
op-Returned w (registers user fd ok) s l (f, a) i =
    register_event-Returned w user fd ok s (find_user user s.evt_list) l f a i
op-Returned w (deregisters user del) s l (a, d) i =
    let (t, e, k) = deregister_event-Returned w user del s (find_user user s.evt_list) d i refl in
    (
      t,
      ap (λ b. if b then deregister_event w user del s (find_user user s.evt_list) else none) a ∙ e,
      k,
    )
op-Returned w exits s l a i = (record s { exit_flag = true }, refl, exits-Keeps s i)

-- Whatever a called event object does that is allowed meets no assertion, and the loop's state stays
-- sound and no event is freed.
pub run_ops-Returned :
    (w : World) (ops : List Op) (s : Loop)
    → IsLawful w
    → AllAllowed w ops s
    → IsSound s
    → Returned s (run_ops w ops s)
unfolding run_ops Keeps
run_ops-Returned w [] s l a i = (s, refl, Keeps-refl s i)
run_ops-Returned w (o ∷ ops) s l (a, later) i =
    let (t, e, k) = op-Returned w o s l a i in
    let (u, f, m) = run_ops-Returned w ops t l (later t e) k.0 in
    (u, ap (λ x. x >>= run_ops w ops) e ∙ f, Keeps-trans s t u k m)

pub fire-Returned :
    (w : World) (kind : Kind) (e : Evt) (s : Loop)
    → IsLawful w
    → is_some (find e.addr s.evt_list) ≡ true
    → IsSound s
    → Returned s (fire w kind e s)
unfolding fire Keeps
fire-Returned w kind e s l h i =
    let c : Called = record {
      who = e.user;
      kind = kind;
      was_listed = is_some (find e.addr s.evt_list);
    } in
    let s' = record s { calls = s.calls ++ c ∷ [] } in
    run_ops-Returned w (w.reacts e.user kind s') s' l (l.allowed e.user kind s') record {
      registered = i.registered;
      waiting = i.waiting;
      distinct = i.distinct;
      counted = i.counted;
      alloc_counted = i.alloc_counted;
      all_listed = AllListed-append s.calls (c ∷ []) i.all_listed (h, tt);
    }

-- An allocated event is found; it is in `mEvtList` exactly when it is registered.
pub data Stands (a : ℕ) (s : Loop) : Type 0 where
  is_listed :
      (e : Evt)
      → load s a ≡ some e
      → e.is_reg ≡ true
      → (e.fd == 0) ≡ false
      → is_some (find e.addr s.evt_list) ≡ true
      → Stands a s
  is_waiting : (e : Evt) → load s a ≡ some e → e.is_reg ≡ false → (e.fd == 0) ≡ false → Stands a s

pub stands : (a : ℕ) (s : Loop) → IsSound s → has a (allocated s) ≡ true → Stands a s
unfolding load is_some
stands a s i m = elim (Bool-cases (has a (map addr_of s.evt_list))) [
  | inl y ↦
      let (e, g, r, f, q) = found true a s.evt_list i.registered y in
      is_listed e (find-append_some a s.evt_list s.dummy_list e g) r f
        (ap (λ k. is_some (find k s.evt_list)) q ∙ ap is_some g)
  | inr n ↦
      let here =
        sym (
          ap (has a) (map-addr_append s.evt_list s.dummy_list)
          ∙ has-append a (map addr_of s.evt_list) (map addr_of s.dummy_list)
          ∙ ap (λ b. b || has a (map addr_of s.dummy_list)) n)
        ∙ m in
      let (e, g, r, f, q) = found false a s.dummy_list i.waiting here in
      is_waiting e (find-append_none a s.evt_list s.dummy_list n ∙ g) r f
]
