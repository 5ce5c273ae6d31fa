-- ===== src/SmartSocket/Stream.antt =====
-- EdSmartSocket: what a plain socket sends, over any sequence of copying sends and write events.
use ednio.Prelude.{
  ℕ, ◌+◌, ◌-◌, ◌≤◌, ◌≡◌, refl, sym, ap, ◌∙◌, List, [], ◌++◌, true, false, Option, none, some, arith,
  append_assoc, append-nil, length, take, drop, take_all, length-drop, length-take, drop-add, ltb,
  ◌==◌, if◌then◌else◌, leb→le, ==_iff, Bool-cases, inl, inr, subst, ap₂, take-drop,
}
use ednio.SmartSocket.{
  SmartSocket, Answer, wrote, again, failed, IsHonest, SendResult, send_ok, send_fail, send_pending,
  SslAnswer, fire, keep_rest, send_plain, send_ssl, send_with, send_packet, rest_of, wrote_pending,
  on_write_with, proc_normal_on_write, owed, owed_of,
}

-- What the caller handed over for good.
unfoldable pub accepted : SendResult → List ℕ → List ℕ
accepted send_ok buf = buf
accepted send_fail buf = []
accepted send_pending buf = buf

-- `Run s acc t`: sends of copied packets and write events lead from `s` to `t`, and `acc` are the
-- packets that were accepted.
pub data Run : SmartSocket → List ℕ → SmartSocket → Type 0 where
  done : {s : SmartSocket} → Run s [] s
  sends :
      {s t : SmartSocket} {acc : List ℕ}
      → Run s acc t
      → (answer : Answer) (ssl_answer : SslAnswer) (buf : List ℕ) → IsHonest (length buf) answer
      → Run s
          (acc ++ accepted (send_packet true answer ssl_answer t buf false).0 buf)
          (send_packet true answer ssl_answer t buf false).1
  ready :
      {s t : SmartSocket} {acc : List ℕ}
      → Run s acc t
      → (answer : Answer) → IsHonest (t.pending_size - t.pending_write_cnt) answer
      → Run s acc (proc_normal_on_write answer t)

-- A pending block has the size that the socket has noted, the part written is within it, and
-- the write event is watched.
pub Sized : SmartSocket → Option (List ℕ) → Type 0
Sized s none = Unit {0}
Sized s (some b) =
    (s.pending_size ≡ length b) × (s.pending_write_cnt ≤ length b) × (s.interest.write ≡ true)

pub IsSound : SmartSocket → Type 0
unfolding Sized
IsSound s = (s.secure ≡ false) × Sized s s.pending

-- A step from `s` to `u` keeps the socket sound and adds `acc` to what is sent or owed.
Keeps : SmartSocket → List ℕ → SmartSocket → Type 0
unfolding IsSound owed
Keeps s acc u = IsSound u × (u.sent ++ owed u ≡ (s.sent ++ owed s) ++ acc)

view :
    (u : SmartSocket) (o : Option (List ℕ)) (X : List ℕ)
    → u.pending ≡ o
    → u.secure ≡ false
    → Sized u o
    → u.sent ++ owed_of u o ≡ X
    → IsSound u × (u.sent ++ owed u ≡ X)
unfolding IsSound owed
view u o X p e z q = ((e, subst (Sized u) (sym p) z), ap (λ o. u.sent ++ owed_of u o) p ∙ q)

-- The bytes to write next are the block's, from the part written on.
rest_of_lem :
    (s : SmartSocket) (b : List ℕ) → Sized s (some b) → rest_of s b ≡ drop s.pending_write_cnt b
unfolding Sized
rest_of_lem s b (e, h, _) = take_all _ _ (omega (arith, length-drop s.pending_write_cnt b))

keep_rest_lem :
    (s : SmartSocket) (buf : List ℕ) (w : ℕ)
    → s.secure ≡ false
    → let (r, u) = keep_rest true s buf false w in
      IsSound u × (u.sent ++ owed u ≡ s.sent ++ drop w buf)
unfolding keep_rest owed_of Sized
keep_rest_lem s buf w e =
    view _ (some (drop w buf)) _ refl e (omega (arith, length-drop w buf), omega arith, refl)
      (ap (λ xs. s.sent ++ xs) (take_all _ _ (omega (arith, length-drop w buf))))

send_plain_lem :
    (answer : Answer) (s : SmartSocket) (buf : List ℕ)
    → s.secure ≡ false
    → s.pending ≡ none
    → IsHonest (length buf) answer
    → let (r, u) = send_plain true answer s buf false in
      IsSound u × (u.sent ++ owed u ≡ s.sent ++ accepted r buf)
unfolding send_plain owed_of Sized accepted
send_plain_lem (wrote n) s buf e p h = elim (Bool-cases (n == length buf)) [
  | inl q ↦ rw q (
      view _ none _ p e tt (
        append-nil _
        ∙ ap (λ xs. s.sent ++ xs) (take_all n buf (omega (arith, (==_iff n (length buf)).0 q)))))
  | inr q ↦ rw q (elim (Bool-cases (ltb 0 n)) [
    | inl r ↦ rw r (
        let (i, x) = keep_rest_lem (record s { sent = s.sent ++ take n buf }) buf n e in
        (i, (x ∙ append_assoc s.sent _ _ ∙ ap (λ xs. s.sent ++ xs) (take-drop n buf))))
    | inr r ↦ rw r (view s none _ p e tt refl)
  ])
]
send_plain_lem again s buf e p h = keep_rest_lem s buf 0 e
send_plain_lem failed s buf e p h = view s none _ p e tt refl

on_write_lem :
    (answer : Answer) (s : SmartSocket) (o : Option (List ℕ))
    → s.pending ≡ o
    → IsHonest (s.pending_size - s.pending_write_cnt) answer
    → s.secure ≡ false
    → Sized s o
    → let u = on_write_with answer s o in IsSound u × (u.sent ++ owed u ≡ s.sent ++ owed_of s o)
unfolding on_write_with Sized owed_of fire wrote_pending
on_write_lem answer s none p h e z = view _ none _ p e tt refl
on_write_lem (wrote n) s (some b) p h e z = elim (Bool-cases (ltb 0 n)) [
  | inl q ↦ rw q (elim (Bool-cases (s.pending_write_cnt + n == s.pending_size)) [
    | inl r ↦ rw r (
        view _ none _ refl e tt (
          append-nil _
          ∙ ap (λ xs. s.sent ++ xs)
              (take_all n _ (
                omega (
                  arith,
                  (==_iff (s.pending_write_cnt + n) s.pending_size).0 r,
                  length-take (s.pending_size - s.pending_write_cnt) (drop s.pending_write_cnt b),
                )))))
    | inr r ↦ rw r (
        view _ (some b) _ p e (z.0, (omega (arith, leb→le n _ h)), z.2)
          (append_assoc s.sent _ _
            ∙ ap (λ xs. s.sent ++ xs)
                (ap₂ (λ xs ys. take n xs ++ ys) (rest_of_lem s b z)
                    (rest_of_lem (record s { pending_write_cnt = s.pending_write_cnt + n }) b
                        (z.0, (omega (arith, leb→le n _ h)), z.2)
                      ∙ drop-add _ _ b)
                  ∙ take-drop n _
                  ∙ sym (rest_of_lem s b z))))
  ])
  | inr q ↦ rw q (view s (some b) _ p e z refl)
]
on_write_lem again s (some b) p h e z = view s (some b) _ p e z refl
on_write_lem failed s (some b) p h e z = view s (some b) _ p e z refl

on_send_lem :
    (answer : Answer) (ssl_answer : SslAnswer) (s : SmartSocket) (buf : List ℕ)
    (o : Option (List ℕ))
    → s.pending ≡ o
    → IsHonest (length buf) answer
    → s.secure ≡ false
    → Sized s o
    → let (r, u) = send_with true answer ssl_answer s buf false o in
      IsSound u × (u.sent ++ owed u ≡ (s.sent ++ owed_of s o) ++ accepted r buf)
unfolding send_with owed_of accepted
on_send_lem answer ssl_answer s buf none p h e z =
    let (i, x) = send_plain_lem answer s buf e p h in
    subst
      (λ c.
        let (r, u) = if c then send_ssl ssl_answer s buf else send_plain true answer s buf false in
        IsSound u × (u.sent ++ owed u ≡ (s.sent ++ []) ++ accepted r buf))
      (sym e)
      (
        i,
        x
            ∙ ap (λ xs. xs ++ accepted (send_plain true answer s buf false).0 buf)
                (sym (append-nil s.sent)),
      )
on_send_lem answer ssl_answer s buf (some b) p h e z = view s (some b) _ p e z (sym (append-nil _))

-- Whatever the kernel answers, a plain socket that starts with no pending block has after any
-- sends and write events sent or still owes, in order, just the packets that it accepted.
pub Run-stream :
    {s t : SmartSocket} {acc : List ℕ}
    → Run s acc t
    → s.secure ≡ false
    → s.pending ≡ none
    → IsSound t × (t.sent ++ owed t ≡ s.sent ++ acc)
unfolding IsSound owed send_packet proc_normal_on_write accepted Sized
Run-stream {s = s} done e p = view s none _ p e tt refl
Run-stream {s = s} (sends {t = t} {acc = acc} r answer ssl_answer buf h) e p =
    let ((e', z), x) = Run-stream r e p in
    let (i, y) = on_send_lem answer ssl_answer t buf t.pending refl h e' z in
    let new = accepted (send_packet true answer ssl_answer t buf false).0 buf in
    (i, y ∙ ap (λ xs. xs ++ new) x ∙ append_assoc s.sent acc new)
Run-stream (ready {t = t} r answer h) e p =
    let ((e', z), x) = Run-stream r e p in
    let (i, y) = on_write_lem answer t t.pending refl h e' z in (i, y ∙ x)
