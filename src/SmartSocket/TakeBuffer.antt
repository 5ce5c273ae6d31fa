-- ===== src/SmartSocket/TakeBuffer.antt =====
-- EdSmartSocket::sendPacket with takebuffer, on a plain socket: what becomes of the packet.
use ednio.Prelude.{
  ℕ, ◌-◌, ◌<◌, ◌≡◌, refl, ap, ◌∙◌, List, [], ◌∷◌, ◌++◌, Bool, true, false, none, some, arith,
  length, take, drop, ◌==◌, lt→ltb, take_all, length-drop,
}
use ednio.SmartSocket.{
  SmartSocket, Answer, wrote, again, failed, IsHonest, send_pending, SslAnswer, keep_rest,
  send_plain, send_with, send_packet, rest_of, on_write_with, proc_normal_on_write,
}

-- Write events, with the kernel's answers.
pub write_events : List Answer → SmartSocket → SmartSocket
write_events [] s = s
write_events (a ∷ answers) s = write_events answers (proc_normal_on_write a s)

-- Every answer keeps to a write of no bytes.
unfoldable pub TakesNone : List Answer → Type 0
TakesNone [] = Unit {0}
TakesNone (a ∷ answers) = IsHonest 0 a × TakesNone answers

nothing_left :
    (answer : Answer) (s : SmartSocket) (block : List ℕ)
    → s.pending_size ≡ s.pending_write_cnt
    → IsHonest 0 answer
    → on_write_with answer s (some block) ≡ s
unfolding on_write_with
nothing_left (wrote n) s block e h = ground arith
nothing_left again s block e h = refl
nothing_left failed s block e h = refl

write_events_stuck :
    (answers : List Answer) (s : SmartSocket) (block : List ℕ)
    → s.pending ≡ some block
    → s.pending_size ≡ s.pending_write_cnt
    → TakesNone answers
    → write_events answers s ≡ s
unfolding write_events TakesNone proc_normal_on_write
write_events_stuck [] s block p e h = refl
write_events_stuck (a ∷ answers) s block p e (h, hs) =
    let same = ap (on_write_with a s) p ∙ nothing_left a s block e h in
    ap (write_events answers) same ∙ write_events_stuck answers s block p e hs

-- A packet handed over with takebuffer on a plain socket that has no pending block, when the
-- kernel answers EAGAIN, is reported as pending and is offered to the kernel with no bytes left:
-- the write events that follow, answered with counts of at most the bytes offered, change nothing,
-- so that none of it is ever sent and the packet stays pending.
pub takebuffer-stuck :
    (mem : Bool) (ssl_answer : SslAnswer) (s : SmartSocket) (buf : List ℕ) (answers : List Answer)
    → s.secure ≡ false
    → s.pending ≡ none
    → TakesNone answers
    → let (r, u) = send_packet mem again ssl_answer s buf true in
      (r ≡ send_pending)
      × (u.pending ≡ some buf)
      × (u.sent ≡ s.sent)
      × (rest_of u buf ≡ [])
      × (write_events answers u ≡ u)
unfolding send_packet send_with send_plain keep_rest
takebuffer-stuck mem ssl_answer s buf answers e p h =
    rw (p, e)
      (
        refl,
        refl,
        refl,
        ap (λ k. take k (drop (length buf - 0) buf)) {y = 0} (omega arith),
        write_events_stuck answers _ buf refl (omega arith) h,
      )

-- After a partial write of `w` bytes of a packet handed over with takebuffer, the bytes offered
-- next are those from the size less `w` on, and not those from `w` on.
pub takebuffer-partial :
    (mem : Bool) (ssl_answer : SslAnswer) (s : SmartSocket) (buf : List ℕ) (w : ℕ)
    → s.secure ≡ false
    → s.pending ≡ none
    → 0 < w
    → w < length buf
    → let (r, u) = send_packet mem (wrote w) ssl_answer s buf true in
      (r ≡ send_pending)
      × (u.pending ≡ some buf)
      × (u.sent ≡ s.sent ++ take w buf)
      × (rest_of u buf ≡ drop (length buf - w) buf)
unfolding send_packet send_with send_plain keep_rest
takebuffer-partial mem ssl_answer s buf w e p h k =
    let full : (w == length buf) ≡ false = ground arith in
    rw (p, e, full, lt→ltb 0 w h)
      (refl, refl, refl, take_all _ _ (omega (arith, length-drop (length buf - w) buf)))
