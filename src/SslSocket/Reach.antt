-- ===== src/SslSocket/Reach.antt =====
-- EdSSLSocket: its calls and events, from the constructor on.
use mathlib.Core.Option.{some-injective}
use ednio.Prelude.{
  ◌≡◌, refl, sym, ap, ◌∙◌, subst, Bool, true, false, not, ◌&&◌, Option, none, some, if◌then◌else◌,
  ◌>>=◌,
}
use ednio.SmartSocket.{SslAnswer}
use ednio.SmartSocket.Ssl.{HandshakeAnswer, RecvAnswer}
use ednio.Socket.{
  Status, sock_disconnected, sock_connecting, sock_connected, Events, reads_hangup, change_event,
}
use ednio.SslSocket.{
  SslSocket, SslCb, ssl_read, fresh_ssl, close_base, close_ssl, open_ssl_client_sock,
  open_ssl_child_sock, connect_ssl, recv_with, recv_ssl, send_with, send_ssl, notify, shake,
  proc_ssl_connect, start_handshake, on_read, on_disconnected, after_ssl_read, on_event_read,
  event_write_with, on_event_write, on_event_hangup,
}
use ednio.SslSocket.Sound.{
  Registered, Connects, IsSound, KeepsSound, close_base-IsSound, close_ssl-IsSound, notify-IsSound,
  shake-IsSound, on_disconnected-IsSound, after_ssl_read-IsSound,
}
use ednio.SslSocket.Calls.{
  Returned, opened-IsSound, child-Returned, connect-IsSound, recv-IsSound, send-IsSound, guarded,
}

-- The calls of the owner, and the kernel's events.
pub data SslCall : Type 0 where
  opens_client : (fd : Bool) → SslCall
  opens_child : SslCall
  connects : (ret : Bool) → SslCall
  accepts : HandshakeAnswer → SslCall
  receives : RecvAnswer → SslCall
  sends : SslAnswer → SslCall
  closes : SslCall
  reads : HandshakeAnswer → SslCall
  writes : HandshakeAnswer → Bool → SslCall
  hangs_up : SslCall

unfoldable pub ssl_call : SslCb → SslCall → SslSocket → Option SslSocket
unfolding open_ssl_client_sock open_ssl_child_sock connect_ssl proc_ssl_connect recv_ssl send_ssl
    close_ssl on_event_read on_event_write on_event_hangup
ssl_call cb (opens_client fd) s = some (open_ssl_client_sock fd true s)
ssl_call cb opens_child s = open_ssl_child_sock true s
ssl_call cb (connects ret) s = some (connect_ssl true ret s)
ssl_call cb (accepts answer) s = proc_ssl_connect cb answer s
ssl_call cb (receives answer) s = recv_ssl answer s
ssl_call cb (sends answer) s = send_ssl answer s
ssl_call cb closes s = some (close_ssl s)
ssl_call cb (reads answer) s = on_event_read cb answer s
ssl_call cb (writes answer sockerr) s = on_event_write cb answer sockerr s
ssl_call cb hangs_up s = some (on_event_hangup cb s)

-- The read event is one that is watched.
abbrev pub WatchesRead : Option Events → Type 0
WatchesRead none = true ≡ false
WatchesRead (some e) = e.evt_read ≡ true

-- A socket that is not open is opened, one with a context connects, and SSL is used on an open one
-- with a session; the kernel reports a read event that is watched.
abbrev pub Allowed : SslCall → SslSocket → Type 0
Allowed (opens_client fd) s = s.base.fd_open ≡ false
Allowed opens_child s = s.base.fd_open ≡ false
Allowed (connects ret) s = s.ssl_ctx ≡ true
Allowed (accepts answer) s = (s.base.fd_open ≡ true) × (s.ssl ≡ true)
Allowed (receives answer) s = (s.base.fd_open ≡ true) × (s.ssl ≡ true)
Allowed (sends answer) s = (s.base.fd_open ≡ true) × (s.ssl ≡ true)
Allowed closes s = Unit {0}
Allowed (reads answer) s = WatchesRead s.base.registered
Allowed (writes answer sockerr) s = Unit {0}
Allowed hangs_up s = Unit {0}

pub data Reach (cb : SslCb) : SslSocket → Type 0 where
  begins : (listener : Bool) → Reach cb (fresh_ssl listener)
  calls :
      {s u : SslSocket} (c : SslCall)
      → Reach cb s
      → Allowed c s
      → ssl_call cb c s ≡ some u
      → Reach cb u

reading :
    (r : Option Events) (fd ssl : Bool)
    → WatchesRead r
    → Registered r fd ssl
    → (fd ≡ true) × (ssl ≡ true)
reading none fd ssl w p = cc
reading (some e) fd ssl w (h, k) = (h, k w)

no_session : (a b : Bool) → (not a && not b) ≡ false → (b ≡ true → a ≡ true) → a ≡ true
no_session true b h i = refl
no_session false true h i = i refl
no_session false false h i = cc

module _ (cb : SslCb) (keeps : KeepsSound cb) where
  start-Returned :
      (answer : HandshakeAnswer) (s : SslSocket) (e : Events)
      → s.base.registered ≡ some e
      → s.base.status ≡ sock_connected
      → s.base.fd_open ≡ true
      → s.ssl_ctx ≡ true
      → (s.session_connected ≡ true → s.ssl ≡ true)
      → Returned (start_handshake cb answer s)
  unfolding start_handshake proc_ssl_connect
  start-Returned answer s e r st f c i =
      let t = record s { ssl = s.ssl_ctx } in
      let sound : (u : SslSocket) → u.base ≡ s.base → u.ssl ≡ true → IsSound u = λ u b l. record {
        watched =
            subst (λ x. Registered x u.base.fd_open u.ssl) (sym (ap (λ x. x.registered) b ∙ r))
              (ap (λ x. x.fd_open) b ∙ f, λ _. l);
        connects =
            subst (λ x. Connects x u.base.fd_open u.ssl_ctx) (sym (ap (λ x. x.status) b ∙ st)) tt;
        in_session = λ _. l;
      } in
      let both = not s.ssl && not s.session_connected in
      (elim both
          as (λ k.
            both ≡ k
            → Returned (if k then (if t.ssl then some (shake cb answer t) else none) else some s)) [
              | true ↦ λ h.
                  guarded t.ssl (shake cb answer t) c
                    (shake-IsSound cb keeps answer t f c (sound t refl c))
              | false ↦ λ h. (s, refl, sound s refl (no_session s.ssl s.session_connected h i))
            ])
        refl

  write-Returned :
      (answer : HandshakeAnswer) (sockerr : Bool) (s : SslSocket) (st : Status)
      → s.base.status ≡ st
      → IsSound s
      → Returned (event_write_with cb answer sockerr s st)
  unfolding event_write_with change_event
  write-Returned answer sockerr s sock_connected e i = (s, refl, i)
  write-Returned answer sockerr s sock_disconnected e i = (s, refl, i)
  write-Returned answer true s sock_connecting e i =
      let t = close_base s in
      (on_disconnected cb t, refl, on_disconnected-IsSound cb keeps t (close_base-IsSound s i))
  write-Returned answer false s sock_connecting e i =
      let (f, c) = subst (λ x. Connects x s.base.fd_open s.ssl_ctx) e i.connects in
      start-Returned answer
        (record s {
          base = change_event reads_hangup (record (s.base) { status = sock_connected });
        })
        reads_hangup refl refl f c i.in_session

  read-Returned :
      (answer : HandshakeAnswer) (s : SslSocket)
      → WatchesRead s.base.registered
      → IsSound s
      → Returned (on_event_read cb answer s)
  unfolding on_event_read on_read proc_ssl_connect
  read-Returned answer s w i =
      let (f, l) = reading s.base.registered s.base.fd_open s.ssl w i.watched in
      let t = record s { base = record (s.base) { raise_disconnect = false } } in
      let j : IsSound t = record {
        watched = i.watched;
        connects = i.connects;
        in_session = i.in_session;
      } in
      let inner : Returned (on_read cb answer t) =
        elim s.session_connected
          as (λ k. Returned (
            if k
            then some (notify cb ssl_read t)
            else if s.ssl
            then some (shake cb answer t)
            else none)) [
              | true ↦ (notify cb ssl_read t, refl, notify-IsSound cb keeps ssl_read t j)
              | false ↦ guarded s.ssl (shake cb answer t) l (shake-IsSound cb keeps answer t f l j)
            ] in
      let (u, e, k) = inner in
      let rest : Option SslSocket = on_read cb answer t >>= λ x. some (after_ssl_read cb x) in
      elim s.base.is_listen as (λ b. Returned (if b then some s else rest)) [
        | true ↦ (s, refl, i)
        | false ↦ (
          after_ssl_read cb u,
          ap (λ o. o >>= λ x. some (after_ssl_read cb x)) e,
          after_ssl_read-IsSound cb keeps u k,
        )
      ]

  call-Returned :
      (c : SslCall) (s : SslSocket) → Allowed c s → IsSound s → Returned (ssl_call cb c s)
  unfolding ssl_call proc_ssl_connect recv_ssl send_ssl on_event_write on_event_hangup
  call-Returned (opens_client fd) s a i =
      (open_ssl_client_sock fd true s, refl, opened-IsSound fd s a i)
  call-Returned opens_child s a i = child-Returned s a i
  call-Returned (connects ret) s a i = (connect_ssl true ret s, refl, connect-IsSound ret s a i)
  call-Returned (accepts answer) s (f, l) i =
      guarded s.ssl (shake cb answer s) l (shake-IsSound cb keeps answer s f l i)
  call-Returned (receives answer) s (f, l) i =
      guarded s.ssl (recv_with answer s) l (recv-IsSound answer s f l i)
  call-Returned (sends answer) s (f, l) i =
      guarded s.ssl (send_with answer s) l (send-IsSound answer s f l i)
  call-Returned closes s a i = (close_ssl s, refl, close_ssl-IsSound s i)
  call-Returned (reads answer) s w i = read-Returned answer s w i
  call-Returned (writes answer sockerr) s a i = write-Returned answer sockerr s s.base.status refl i
  call-Returned hangs_up s a i =
      let t = close_base s in
      (on_disconnected cb t, refl, on_disconnected-IsSound cb keeps t (close_base-IsSound s i))

  reached-IsSound : {s : SslSocket} → Reach cb s → IsSound s
  reached-IsSound (begins listener) = record { watched = tt; connects = tt; in_session = λ e. cc }
  reached-IsSound (calls {s} {u} c r a e) =
      let (v, f, i) = call-Returned c s a (reached-IsSound r) in
      subst IsSound (some-injective v u (sym f ∙ e)) i

  -- For an owner that leaves sound sockets sound: on every socket reached from the constructor, each
  -- allowed call and event (opening one that is not open, connecting one with a context, accepting,
  -- reading and writing on an open one with a session, a watched read event) passes no null pointer
  -- to OpenSSL and leaves a sound socket: what it watches is open, a watched read event has a session,
  -- and a connecting socket has a context.
  pub Reach-Returned :
      (c : SslCall) (s : SslSocket)
      → Reach cb s
      → Allowed c s
      → (u : SslSocket) × (ssl_call cb c s ≡ some u) × IsSound u
  Reach-Returned c s r a = call-Returned c s a (reached-IsSound r)
