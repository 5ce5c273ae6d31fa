-- ===== src/SmartSocket/Session.antt =====
-- EdSmartSocket with SSL: the handshake's outcomes, and writes that are tried again.
use ednio.Prelude.{
  ◌≡◌, refl, sym, ◌∙◌, ℕ, ◌+◌, ◌-◌, ◌<◌, List, [], ◌∷◌, ◌++◌, Bool, true, false, none, some, arith,
  ◌==◌, if◌then◌else◌, length, take, take_all, length-take, ap₂, lt→ltb, ◌⊎◌, subst,
}
use ednio.SmartSocket.{
  SmartSocket, Interest, Want, want_write, want_read, connected, disconnected, writable, nothing,
  SslError, zero_return, syscall, ssl_failure, wants_write, wants_read, other, ssl_wrote, ssl_error,
  send_pending, Answer, fire, change_ssl_sock_event, wrote_pending, rest_of, send_ssl, send_with,
  send_packet,
}
use ednio.SmartSocket.Ssl.{
  Listener, close, HandshakeAnswer, session_up, session_shut, handshake_error, ssl_write_with,
}

-- No descriptor, session or pending block is held.
abbrev pub Released : SmartSocket → Type 0
Released s = (s.fd_open ≡ false) × (s.ssl ≡ false) × (s.pending ≡ none)

-- A listener that is told of the end while `lastSockErrorNo` is set leaves it set, or has closed
-- the socket.
abbrev pub Obeys : Listener → Type 0
Obeys lis =
    (s : SmartSocket)
    → s.sock_error ≡ true
    → ((lis disconnected s).sock_error ≡ true) ⊎ Released (lis disconnected s)

-- How a handshake step ends, from `s` in `u`: with a session, of which the listener is told;
abbrev Up : Listener → SmartSocket → SmartSocket → Type 0
Up lis s u =
    (v : SmartSocket) × (u ≡ lis connected v)
    × (v.fired ≡ s.fired ++ connected ∷ [])
    × (v.session_connected ≡ true)
    × (v.sock_error ≡ false)
    × (v.fd_open ≡ s.fd_open)
    × (v.ssl ≡ s.ssl)

-- closed, after the listener was told;
abbrev Ended : Listener → SmartSocket → SmartSocket → Type 0
Ended lis s u =
    Released u
    × (v : SmartSocket) × ((u ≡ lis disconnected v) ⊎ (u ≡ close (lis disconnected v)))
    × (v.fired ≡ s.fired ++ disconnected ∷ [])
    × (v.sock_error ≡ true)
    × (v.fd_open ≡ s.fd_open)

-- or to be taken up again, with these events watched and nobody told.
abbrev Waits : Want → Interest → SmartSocket → SmartSocket → Type 0
Waits want interest s u =
    (u.ssl_want_event ≡ want)
    × (u.interest ≡ interest)
    × (u.fired ≡ s.fired)
    × (u.session_connected ≡ s.session_connected)
    × (u.sock_error ≡ false)
    × (u.fd_open ≡ s.fd_open)
    × (u.ssl ≡ s.ssl)

abbrev pub StepEnds : Listener → HandshakeAnswer → SmartSocket → SmartSocket → Type 0
StepEnds lis session_up s u = Up lis s u
StepEnds lis session_shut s u = Ended lis s u
StepEnds lis (handshake_error ssl_failure) s u = Ended lis s u
StepEnds lis (handshake_error zero_return) s u = Ended lis s u
StepEnds lis (handshake_error syscall) s u = Ended lis s u
StepEnds lis (handshake_error wants_write) s u =
    Waits want_write (record { read = false; write = true; hangup = true }) s u
StepEnds lis (handshake_error wants_read) s u =
    Waits want_read (record { read = true; write = false; hangup = true }) s u
StepEnds lis (handshake_error other) s u = Waits s.ssl_want_event s.interest s u

-- Write events answered with errors.
pub ssl_events : List SslError → SmartSocket → SmartSocket
ssl_events [] s = s
ssl_events (e ∷ errors) s = ssl_events errors (ssl_write_with (ssl_error e) s s.pending)

-- A block is pending, and the next write offers all of it.
Holds : List ℕ → List ℕ → SmartSocket → Type 0
Holds buf sent s =
    (s.pending ≡ some buf)
    × (s.pending_size ≡ length buf)
    × (s.pending_write_cnt ≡ 0)
    × (s.sent ≡ sent)

change-Holds :
    (buf sent : List ℕ) (s : SmartSocket) (e : SslError)
    → Holds buf sent s
    → Holds buf sent (change_ssl_sock_event s e)
unfolding Holds change_ssl_sock_event
change-Holds buf sent s wants_write h = h
change-Holds buf sent s wants_read h = h
change-Holds buf sent s zero_return h = h
change-Holds buf sent s syscall h = h
change-Holds buf sent s ssl_failure h = h
change-Holds buf sent s other h = h

ssl_events-Holds :
    (buf sent : List ℕ) (errors : List SslError) (s : SmartSocket)
    → Holds buf sent s
    → Holds buf sent (ssl_events errors s)
unfolding ssl_events ssl_write_with Holds
ssl_events-Holds buf sent [] s h = h
ssl_events-Holds buf sent (e ∷ errors) s h = ssl_events-Holds buf sent errors _ (
    subst (λ o. Holds buf sent (ssl_write_with (ssl_error e) s o)) (sym h.0)
      (change-Holds buf sent (record s { ssl_want_event = nothing }) e h))

send_Holds :
    (mem : Bool) (answer : Answer) (e : SslError) (s : SmartSocket) (buf : List ℕ)
    (takebuffer : Bool)
    → s.secure ≡ true
    → s.pending ≡ none
    → let (r, u) = send_packet mem answer (ssl_error e) s buf takebuffer in
      (r ≡ send_pending) × Holds buf s.sent u
unfolding send_packet send_with send_ssl Holds
send_Holds mem answer e s buf takebuffer h p =
    rw (p, h) (refl, change-Holds buf s.sent _ e (refl, refl, refl, refl))

Holds-rest : (buf sent : List ℕ) (s : SmartSocket) → Holds buf sent s → rest_of s buf ≡ buf
unfolding Holds
Holds-rest buf sent s (p, z, c, q) = rw (z, c) (take_all (length buf - 0) buf (omega arith))

Holds-taken :
    (buf sent : List ℕ) (s : SmartSocket)
    → Holds buf sent s
    → 0 < length buf
    → let w = ssl_write_with (ssl_wrote (length buf)) s s.pending in
      (w.sent ≡ sent ++ buf)
      × (w.pending ≡ none)
      × (w.interest.write ≡ false)
      × (w.fired ≡ (if s.has_listener then s.fired ++ writable ∷ [] else s.fired))
unfolding Holds ssl_write_with wrote_pending fire
Holds-taken buf sent s (p, z, c, q) l =
    let full : (0 + length buf == length buf) ≡ true = ground arith in
    rw (p, lt→ltb 0 (length buf) l, z, c, full)
      (
        ap₂ ◌++◌ q (
            take_all (length buf) (take (length buf - 0) buf)
              (omega (arith, length-take (length buf - 0) buf))
            ∙ take_all (length buf - 0) buf (omega arith)),
        refl,
        refl,
        refl,
      )

-- A packet sent on a secure socket with no pending block, to which SSL answers with an error, is
-- pending; whatever errors the write events meet, the next SSL write offers the same bytes from
-- the same block and nothing is counted as sent; when SSL then takes them all, they are sent once,
-- no block is pending, the write event is no longer watched, and a listener hears NETEV_WRITABLE.
pub ssl_retry :
    (mem : Bool) (answer : Answer) (e : SslError) (errors : List SslError) (s : SmartSocket)
    (buf : List ℕ) (takebuffer : Bool)
    → s.secure ≡ true
    → s.pending ≡ none
    → 0 < length buf
    → let (r, u) = send_packet mem answer (ssl_error e) s buf takebuffer in
      let v = ssl_events errors u in
      let w = ssl_write_with (ssl_wrote (length buf)) v v.pending in
      (r ≡ send_pending)
      × (v.pending ≡ some buf)
      × (rest_of v buf ≡ buf)
      × (v.sent ≡ s.sent)
      × (w.sent ≡ s.sent ++ buf)
      × (w.pending ≡ none)
      × (w.interest.write ≡ false)
      × (w.fired ≡ (if v.has_listener then v.fired ++ writable ∷ [] else v.fired))
unfolding send_packet send_with send_ssl ssl_write_with Holds wrote_pending fire
ssl_retry mem answer e errors s buf takebuffer h p l =
    let (r, i) = send_Holds mem answer e s buf takebuffer h p in
    let v = ssl_events errors (send_packet mem answer (ssl_error e) s buf takebuffer).1 in
    let j = ssl_events-Holds buf s.sent errors _ i in
    let (x, y, z, w) = Holds-taken buf s.sent v j l in
    (r, j.0, Holds-rest buf s.sent v j, j.3, x, y, z, w)
