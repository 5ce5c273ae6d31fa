-- ===== src/EventLoop/Deregister.antt =====
-- EdTask's event loop: registering and deregistering from within a call.

use ednio.Prelude.{
  ℕ, ◌≡◌, refl, sym, ap, ◌∙◌, subst, List, [], ◌∷◌, ◌++◌, Bool, true, false, Option, some, ◌==◌,
  arith, map, length-append,
}
use ednio.ObjList.Chain.{has, Distinct, Distinct-left}
use ednio.ObjList.Refine.{erase}
use ednio.ObjList.Erase.{moved_Distinct}
use ednio.EventLoop.{
  User, the_task, Evt, Loop, addr_of, allocated, find_user, remove, World, reg_ed_event, unlisted,
}
use ednio.EventLoop.Alive.{AllReg, IsSound, IsLawful, map-addr_append, AllReg-append, AllReg-remove}
use ednio.EventLoop.Listed.{
  find_user_lem, heads_remove, insert_Distinct, insert_has, length-remove, map-remove, moved_has,
}

-- An event in front of the list.
abbrev pub Heads : Evt → Loop → Type 0
Heads m s = (rest : List Evt) × (s.evt_list ≡ m ∷ rest)

-- Soundness is kept, and so are every allocated address and the task's own event, in front.
unfoldable pub Keeps : Loop → Loop → Type 0
Keeps s s' =
    IsSound s'
    × ((a : ℕ) → has a (allocated s) ≡ true → has a (allocated s') ≡ true)
    × ((m : Evt) → m.user ≡ the_task → Heads m s → Heads m s')

abbrev pub Returned : Loop → Option Loop → Type 0
Returned s o = (s' : Loop) × (o ≡ some s') × Keeps s s'

pub Keeps-refl : (s : Loop) → IsSound s → Keeps s s
unfolding Keeps
Keeps-refl s i = (i, λ a m. m, λ m t h. h)

pub Keeps-trans : (s t u : Loop) → Keeps s t → Keeps t u → Keeps s u
unfolding Keeps
Keeps-trans s t u (i, k, p) (j, m, q) = (j, λ a h. m a (k a h), λ e o h. q e o (p e o h))

pub reg-Keeps :
    (w : World) (user : User) (fd : ℕ) (ok : Bool) (s : Loop)
    → IsLawful w
    → (fd == 0) ≡ false
    → IsSound s
    → Keeps s (reg_ed_event (w.malloc (allocated s)) fd user ok s)
unfolding Keeps reg_ed_event
reg-Keeps w user fd false s l f i = (
  record {
    registered = i.registered;
    waiting = i.waiting;
    distinct = i.distinct;
    counted = omega (arith, i.counted);
    alloc_counted = i.alloc_counted;
    all_listed = i.all_listed;
  },
  λ a m. m,
  λ m t h. h,
)
reg-Keeps w user fd true s l f i =
    let x = w.malloc (allocated s) in
    let e : Evt = record { addr = x; fd = fd; user = user; is_reg = true } in
    let A = map addr_of s.evt_list in
    let D = map addr_of s.dummy_list in
    let parts = map-addr_append s.evt_list s.dummy_list in
    let whole =
      map-addr_append (s.evt_list ++ e ∷ []) s.dummy_list
      ∙ ap (λ k. k ++ D) (map-addr_append s.evt_list (e ∷ [])) in
    (
      record {
        registered = AllReg-append true s.evt_list (e ∷ []) i.registered (refl, f, tt);
        waiting = i.waiting;
        distinct = subst Distinct (sym whole) (
            insert_Distinct x A D (subst Distinct parts i.distinct)
              (ap (has x) (sym parts) ∙ l.fresh (allocated s)));
        counted = omega (arith, i.counted, length-append s.evt_list (e ∷ []));
        alloc_counted = omega (arith, i.alloc_counted, length-append s.evt_list (e ∷ []));
        all_listed = i.all_listed;
      },
      λ a m. ap (has a) whole ∙ insert_has a x A D (ap (has a) (sym parts) ∙ m),
      λ m t (rest, h). (rest ++ e ∷ [], ap (λ k. k ++ e ∷ []) h),
    )

dereg-Heads :
    (u : ℕ) (s : Loop) (m e : Evt)
    → IsSound s
    → find_user u s.evt_list ≡ some e
    → m.user ≡ the_task
    → Heads m s
    → Heads m (unlisted e s)
unfolding unlisted
dereg-Heads u s m e i h t (rest, k) =
    let D = map addr_of s.dummy_list in
    let front =
      Distinct-left (map addr_of s.evt_list) D
        (subst Distinct (map-addr_append s.evt_list s.dummy_list) i.distinct) in
    let (r, f, later) = subst (AllReg true) k i.registered in
    (
      remove e.addr rest,
      ap (remove e.addr) k
          ∙ heads_remove u m e rest t (subst (λ l. Distinct (map addr_of l)) k front) later
              (sym (ap (find_user u) k) ∙ h),
    )

pub dereg-Keeps :
    (u : ℕ) (s : Loop) (e : Evt)
    → IsSound s
    → find_user u s.evt_list ≡ some e
    → Keeps s (unlisted e s)
unfolding Keeps unlisted
dereg-Keeps u s e i h =
    let (m, f) = find_user_lem u s.evt_list e i.registered h in
    let e' = record e { is_reg = false } in
    let A = map addr_of s.evt_list in
    let D = map addr_of s.dummy_list in
    let parts = map-addr_append s.evt_list s.dummy_list in
    let whole =
      map-addr_append (remove e.addr s.evt_list) (s.dummy_list ++ e' ∷ [])
      ∙ ap (λ k. k ++ map addr_of (s.dummy_list ++ e' ∷ [])) (map-remove e.addr s.evt_list)
      ∙ ap (λ k. erase e.addr A ++ k) (map-addr_append s.dummy_list (e' ∷ [])) in
    (
      record {
        registered = AllReg-remove true e.addr s.evt_list i.registered;
        waiting = AllReg-append false s.dummy_list (e' ∷ []) i.waiting (refl, f, tt);
        distinct =
            subst Distinct (sym whole)
              (moved_Distinct e.addr A D m (subst Distinct parts i.distinct));
        counted = omega (arith, i.counted, length-remove e.addr s.evt_list m);
        alloc_counted = omega (
          arith,
          i.alloc_counted,
          length-remove e.addr s.evt_list m,
          length-append s.dummy_list (e' ∷ []),
        );
        all_listed = i.all_listed;
      },
      λ a k. ap (has a) whole ∙ moved_has a e.addr A D (ap (has a) (sym parts) ∙ k),
      λ m t k. dereg-Heads u s m e i h t k,
    )
