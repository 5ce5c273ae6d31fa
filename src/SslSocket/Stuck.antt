-- ===== src/SslSocket/Stuck.antt =====
-- EdSSLSocket: a handshake that wants to write, and a socket that is used again.
use ednio.Prelude.{
  ◌≡◌, refl, ap, ◌∙◌, List, [], ◌∷◌, Bool, true, false, not, ◌&&◌, Option, none, some,
  if◌then◌else◌, ◌>>=◌,
}
use ednio.SmartSocket.{wants_write}
use ednio.SmartSocket.Ssl.{HandshakeAnswer, handshake_error}
use ednio.Socket.{
  sock_disconnected, sock_connecting, sock_connected, reads_hangup, change_event, deregister_event,
  close, open_sock, connect, connect_with, connect_fd, register_event,
}
use ednio.SslSocket.{
  SslSocket, SslCb, writes_only, close_base, close_ssl, connect_ssl, change_ssl_sock_event, shake,
  proc_ssl_connect, start_handshake, on_read, after_ssl_read, on_event_read, event_write_with,
  on_event_write, notify, ssl_read,
}

-- Write events one after the other, with what OpenSSL and the kernel would answer.
unfoldable pub write_events : SslCb → List (HandshakeAnswer × Bool) → SslSocket → Option SslSocket
unfolding on_event_write
write_events cb [] s = some s
write_events cb ((answer, sockerr) ∷ es) s =
    on_event_write cb answer sockerr s >>= write_events cb es

idle_writes :
    (cb : SslCb) (es : List (HandshakeAnswer × Bool)) (s : SslSocket)
    → s.base.status ≡ sock_connected
    → write_events cb es s ≡ some s
unfolding write_events on_event_write event_write_with
idle_writes cb [] s e = refl
idle_writes cb ((answer, sockerr) ∷ es) s e =
    ap (λ st. event_write_with cb answer sockerr s st >>= write_events cb es) e
    ∙ idle_writes cb es s e

waiting : SslSocket → SslSocket
waiting s = record s {
  base = record (s.base) {
    raise_disconnect = false;
    registered = some writes_only;
    sock_error = false;
  };
}

wants_write_lem :
    (cb : SslCb) (s : SslSocket)
    → s.base.is_listen ≡ false
    → s.session_connected ≡ false
    → s.ssl ≡ true
    → on_event_read cb (handshake_error wants_write) s ≡ some (waiting s)
unfolding on_event_read on_read proc_ssl_connect shake after_ssl_read waiting change_ssl_sock_event
    change_event
wants_write_lem cb s h n l =
    let answer = handshake_error wants_write in
    let t = record s { base = record (s.base) { raise_disconnect = false } } in
    let after : Option SslSocket → Option SslSocket = λ o. o >>= λ x. some (after_ssl_read cb x) in
    let proc : Option SslSocket = if s.ssl then some (shake cb answer t) else none in
    ap (λ b. if b then some s else after (on_read cb answer t)) h
    ∙ ap (λ b. after (if b then some (notify cb ssl_read t) else proc)) n
    ∙ ap (λ b. after (if b then some (shake cb answer t) else none)) l

-- A connected socket whose session is not, and which does not listen: when its handshake answers a
-- read event with SSL_ERROR_WANT_WRITE, it watches its write event alone, and no write events,
-- whatever they would be answered, change it: the handshake is never taken up again.
pub handshake_stuck :
    (cb : SslCb) (s : SslSocket) (es : List (HandshakeAnswer × Bool))
    → s.base.is_listen ≡ false
    → s.base.status ≡ sock_connected
    → s.session_connected ≡ false
    → s.ssl ≡ true
    → (u : SslSocket) × (on_event_read cb (handshake_error wants_write) s ≡ some u)
      × (u.base.registered ≡ some writes_only)
      × (u.session_connected ≡ false)
      × (write_events cb es u ≡ some u)
unfolding waiting
handshake_stuck cb s es h st n l =
    (waiting s, wants_write_lem cb s h n l, refl, n, idle_writes cb es (waiting s) st)

-- A null context, when a connecting socket becomes connected.
null_context :
    (cb : SslCb) (answer : HandshakeAnswer) (u : SslSocket)
    → u.base.status ≡ sock_connecting
    → u.ssl ≡ false
    → u.session_connected ≡ false
    → u.ssl_ctx ≡ false
    → on_event_write cb answer false u ≡ none
unfolding on_event_write event_write_with start_handshake proc_ssl_connect
null_context cb answer u st l n c =
    let t : SslSocket = record u {
      base = change_event reads_hangup (record (u.base) { status = sock_connected });
    } in
    let go : SslSocket → Option SslSocket = λ v. if v.ssl then some (shake cb answer v) else none in
    ap (event_write_with cb answer false u) st
    ∙ ap
        (λ b.
          if not b && not u.session_connected then go (record t { ssl = u.ssl_ctx }) else some t)
        l
    ∙ ap (λ b. if not b then go (record t { ssl = u.ssl_ctx }) else some t) n
    ∙ ap (λ b. if b then some (shake cb answer (record t { ssl = b })) else none) c

closed : SslSocket → SslSocket
closed s = record s {
  base = record (s.base) {
    status = sock_disconnected;
    fd_open = false;
    is_binded = false;
    registered = none;
    sock_error = false;
  };
  ssl = false;
  ssl_ctx = false;
  session_connected = false;
}

close_ssl-closed : (s : SslSocket) → s.ssl ≡ true → s.base.fd_open ≡ true → close_ssl s ≡ closed s
unfolding close_ssl close_base close deregister_event closed
close_ssl-closed s l f =
    let t = record s { ssl = false; ssl_ctx = false; session_connected = false } in
    let shut = record (s.base) {
      status = sock_disconnected;
      fd_open = false;
      is_binded = false;
      registered = none;
      sock_error = false;
    } in
    ap (λ b. close_base (if b then t else s)) l
    ∙ ap (λ b. record t { base = if b then shut else record (s.base) { is_binded = false } }) f

-- An open socket with a session that is closed and connected again: `close` forgets the context, so
-- that the handshake uses a null session as soon as the connection is there.
pub reconnect_fault :
    (cb : SslCb) (answer : HandshakeAnswer) (ret : Bool) (s : SslSocket)
    → s.ssl ≡ true
    → s.base.fd_open ≡ true
    → on_event_write cb answer false (connect_ssl true ret (close_ssl s)) ≡ none
unfolding closed connect_ssl connect connect_with connect_fd register_event open_sock
reconnect_fault cb answer ret s l f =
    ap (λ v. on_event_write cb answer false (connect_ssl true ret v)) (close_ssl-closed s l f)
    ∙ null_context cb answer (connect_ssl true ret (closed s)) refl refl refl refl
