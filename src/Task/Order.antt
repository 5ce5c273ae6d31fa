-- ===== src/Task/Order.antt =====
-- EdTask: messages are dispatched in the order in which they were accepted, each once, and each
-- waiting sender is notified once.

use ednio.Prelude.{
  ℕ, ◌<◌, ◌≡◌, ◌⊎◌, inl, inr, refl, sym, ap, ap₂, ◌∙◌, List, [], ◌∷◌, ◌++◌, map, Bool, true, false,
  Option, none, some, arith, if◌then◌else◌, append_assoc, append-nil,
}
use ednio.Task.{
  Task, Msg, Body, Code, closed, alloc_msg_obj, push_msg, post_with, push_with, post_ed_msg,
  send_push, send_write, msgevent_cb, take_msg, finish_msg, discard_all, close_msg,
}
use ednio.Task.Senders.{
  hand, sender_of, senders, woken_senders, senders-append, notify_lem, discard_all_lem,
}
use ednio.Task.Step.{
  Step, posts, pushes, writes, reads, takes, finishes, closes, Reach, start, next,
}

pub record InOrder (t : Task) : Type 0 where
  pub order :
      t.history.accepted
      ≡ t.history.dispatched ++ (t.history.discarded ++ (hand t.in_hand ++ t.qued))
  pub waiting : senders t.history.accepted ≡ woken_senders t ++ senders (hand t.in_hand ++ t.qued)
  pub sealed :
      (t.history.discarded ≡ [])
      ⊎ ((t.fd_open ≡ false) × (t.counter ≡ 0) × (t.left ≡ 0) × (t.in_hand ≡ none) × (t.qued ≡ []))

snoc_regroup {ℓ} :
    {A : Type ℓ} (a d c h q x : List A)
    → a ≡ d ++ (c ++ (h ++ q))
    → a ++ x ≡ d ++ (c ++ (h ++ (q ++ x)))
snoc_regroup a d c h q x e = ap (λ t. t ++ x) e ∙ simp append_assoc

pub alloc_keeps :
    (t u : Task)
    → alloc_msg_obj t ≡ some u
    → (u.history ≡ t.history)
      × (u.qued ≡ t.qued)
      × (u.in_hand ≡ t.in_hand)
      × (u.fd_open ≡ t.fd_open)
unfolding alloc_msg_obj
alloc_keeps t u e = ground arith

open_sealed :
    (t : Task)
    → InOrder t
    → (t.fd_open ≡ true) ⊎ (0 < t.left) ⊎ ((m : Msg) × (t.in_hand ≡ some m))
    → t.history.discarded ≡ []
open_sealed t v w = ground (arith, v.sealed)

-- A message goes to the end of the queue and of the history.
push_msg-InOrder :
    (m : Msg) (t u : Task)
    → InOrder t
    → t.fd_open ≡ true
    → (u.history ≡ t.history)
      × (u.qued ≡ t.qued)
      × (u.in_hand ≡ t.in_hand)
      × (u.fd_open ≡ t.fd_open)
    → InOrder (push_msg u m)
unfolding push_msg
push_msg-InOrder m t u v o (hist, q, i, f) = record {
  order =
      rw (hist, q, i)
        (snoc_regroup t.history.accepted t.history.dispatched t.history.discarded (hand t.in_hand)
          t.qued (m ∷ []) v.order);
  waiting =
      rw (hist, q, i)
        (senders-append t.history.accepted (m ∷ [])
          ∙ ap (λ s. s ++ senders (m ∷ [])) v.waiting
          ∙ append_assoc (woken_senders t) _ _
          ∙ ap (λ s. woken_senders t ++ s)
              (sym (senders-append (hand t.in_hand ++ t.qued) (m ∷ []))
                ∙ ap senders (append_assoc (hand t.in_hand) t.qued (m ∷ []))));
  sealed = inl (ap (λ h. h.discarded) hist ∙ open_sealed t v (inl o));
}

module _ {t : Task} (v : InOrder t) where
  msgevent_cb-InOrder : t.in_hand ≡ none → t.left ≡ 0 → InOrder (msgevent_cb t)
  unfolding msgevent_cb
  msgevent_cb-InOrder h l = ground (arith, v.order, v.waiting, v.sealed)

  take_msg-InOrder : t.in_hand ≡ none → 0 < t.left → InOrder (take_msg t)
  unfolding take_msg
  take_msg-InOrder h l = ground (arith, v.order, v.waiting, v.sealed)

  finish_msg-InOrder : (m : Msg) (code : ℕ) → t.in_hand ≡ some m → InOrder (finish_msg t m code)
  unfolding finish_msg
  finish_msg-InOrder m code h =
      let h1 = record t.history { dispatched = t.history.dispatched ++ m ∷ [] } in
      let (a, d, c, w) = notify_lem h1 m code in
      let nothing = open_sealed t v (inr (inr (m, h))) in
      record {
        order =
            a
            ∙ v.order
            ∙ ap₂ (λ x o. t.history.dispatched ++ (x ++ (hand o ++ t.qued))) nothing h
            ∙ sym (append_assoc t.history.dispatched (m ∷ []) t.qued)
            ∙ sym (ap₂ (λ x y. x ++ (y ++ t.qued)) d (c ∙ nothing));
        waiting =
            ap senders a
            ∙ v.waiting
            ∙ ap (λ o. woken_senders t ++ senders (hand o ++ t.qued)) h
            ∙ sym (append_assoc (woken_senders t) (sender_of m.sync) (senders t.qued))
            ∙ sym (ap (λ x. x ++ senders t.qued) w);
        sealed = inl (c ∙ nothing);
      }

  close_msg-InOrder : t.in_hand ≡ none → t.left ≡ 0 → InOrder (close_msg t)
  unfolding close_msg
  close_msg-InOrder h l =
      let (a, d, c, w) = discard_all_lem t.qued t.history in
      record {
        order =
            a
            ∙ v.order
            ∙ ap (λ o. t.history.dispatched ++ (t.history.discarded ++ (hand o ++ t.qued))) h
            ∙ ap (λ x. t.history.dispatched ++ x) (sym (append-nil (t.history.discarded ++ t.qued)))
            ∙ sym (ap₂ (λ x y. x ++ (y ++ [])) d c)
            ∙ ap
                (λ o.
                  (discard_all t.qued t.history).dispatched
                  ++ ((discard_all t.qued t.history).discarded ++ (hand o ++ [])))
                (sym h);
        waiting =
            ap senders a
            ∙ v.waiting
            ∙ ap (λ o. woken_senders t ++ senders (hand o ++ t.qued)) h
            ∙ sym w
            ∙ sym (append-nil _)
            ∙ ap
                (λ o. map (λ p. p.0) (discard_all t.qued t.history).woken ++ senders (hand o ++ []))
                (sym h);
        sealed = inr (refl, refl, l, h, refl);
      }

  post_with-InOrder :
      (wrote : Bool) (m : Msg) (o : Option Task)
      → alloc_msg_obj t ≡ o
      → t.fd_open ≡ true
      → InOrder (post_with wrote t m o).1
  unfolding post_with push_msg
  post_with-InOrder wrote m none e o = v
  post_with-InOrder true m (some u) e o =
      let i = push_msg-InOrder m t u v o (alloc_keeps t u e) in
      record {
        order = i.order;
        waiting = i.waiting;
        sealed = inl (open_sealed (push_msg u m) i (inl (keeps.3 ∙ o)));
      }
    where
      keeps :
          (u.history ≡ t.history)
          × (u.qued ≡ t.qued)
          × (u.in_hand ≡ t.in_hand)
          × (u.fd_open ≡ t.fd_open)
      keeps = alloc_keeps t u e
  post_with-InOrder false m (some u) e o = push_msg-InOrder m t u v o (alloc_keeps t u e)

  push_with-InOrder :
      (m : Msg) (o : Option Task)
      → alloc_msg_obj t ≡ o
      → t.fd_open ≡ true
      → InOrder (push_with t m o).1
  unfolding push_with push_msg
  push_with-InOrder m none e o = v
  push_with-InOrder m (some u) e o =
      let i = push_msg-InOrder m t u v o (alloc_keeps t u e) in
      record { order = i.order; waiting = i.waiting; sealed = i.sealed }

  if_open :
      (r : Code × Task) (b : Bool)
      → t.fd_open ≡ b
      → (t.fd_open ≡ true → InOrder r.1)
      → InOrder (if b then r else (closed, t)).1
  if_open r true o h = h o
  if_open r false o h = v

  post_ed_msg-InOrder :
      (wrote : Bool) (handle msgid : ℕ) (body : Body)
      → InOrder (post_ed_msg wrote t handle msgid body).1
  unfolding post_ed_msg
  post_ed_msg-InOrder wrote handle msgid body =
      if_open _ t.fd_open refl (post_with-InOrder wrote _ (alloc_msg_obj t) refl)

  send_push-InOrder :
      (sender handle msgid : ℕ) (body : Body) → InOrder (send_push t sender handle msgid body).1
  unfolding send_push
  send_push-InOrder sender handle msgid body =
      if_open _ t.fd_open refl (push_with-InOrder _ (alloc_msg_obj t) refl)

  send_write-InOrder : (wrote : Bool) → InOrder (send_write wrote t).1
  unfolding send_write
  send_write-InOrder wrote = ground (arith, v.order, v.waiting, v.sealed)

Step-InOrder : {t u : Task} → InOrder t → Step t u → InOrder u
Step-InOrder v (posts wrote handle msgid body e) =
    rw e (post_ed_msg-InOrder v wrote handle msgid body)
Step-InOrder v (pushes sender handle msgid body e) =
    rw e (send_push-InOrder v sender handle msgid body)
Step-InOrder v (writes wrote h e) = rw e (send_write-InOrder v wrote)
Step-InOrder v (reads h l e) = rw e (msgevent_cb-InOrder v h l)
Step-InOrder v (takes h l e) = rw e (take_msg-InOrder v h l)
Step-InOrder v (finishes m code h e) = rw e (finish_msg-InOrder v m code h)
Step-InOrder v (closes h l e) = rw e (close_msg-InOrder v h l)

pub Reach-InOrder : {max : ℕ} {t : Task} → Reach max t → InOrder t
Reach-InOrder start = record { order = refl; waiting = refl; sealed = inl refl }
Reach-InOrder (next r st) = Step-InOrder (Reach-InOrder r) st

-- Whatever threads do and in whatever order, the messages accepted are those dispatched, then those
-- that closing the queue threw out, then the one in hand and those queued, in the order of acceptance.
pub Reach-order :
    {max : ℕ} {t : Task}
    → Reach max t
    → t.history.accepted
      ≡ t.history.dispatched ++ (t.history.discarded ++ (hand t.in_hand ++ t.qued))
Reach-order r = (Reach-InOrder r).order

-- The senders notified are, in order and each once, those of the messages accepted, without those
-- whose message is in hand or queued.
pub Reach-waiting :
    {max : ℕ} {t : Task}
    → Reach max t
    → senders t.history.accepted ≡ woken_senders t ++ senders (hand t.in_hand ++ t.qued)
Reach-waiting r = (Reach-InOrder r).waiting
