-- ===== src/SslSocket/Sound.antt =====
-- EdSSLSocket: the state between its calls.
use ednio.Prelude.{
  ◌≡◌, sym, ◌∙◌, Bool, true, false, Option, none, some, if◌then◌else◌, Bool-cases, inl, inr,
  true≢false,
}
use ednio.SmartSocket.{SslError, zero_return, syscall, ssl_failure, wants_write, wants_read, other}
use ednio.SmartSocket.Ssl.{HandshakeAnswer, session_up, session_shut, handshake_error}
use ednio.Socket.{
  Status, sock_disconnected, sock_connecting, sock_connected, Events, close, deregister_event,
  change_event, reads_only,
}
use ednio.SslSocket.{
  SslEvent, SslSocket, SslCb, ssl_disconnected, ssl_connected, with_error, close_base, close_ssl,
  change_ssl_sock_event, notify, close_need_end, shake, on_disconnected, after_ssl_read,
  writes_only,
}

-- What is registered is so for an open descriptor, and a read event only for one with a session.
abbrev pub Registered : Option Events → Bool → Bool → Type 0
Registered none fd ssl = Unit {0}
Registered (some e) fd ssl = (fd ≡ true) × (e.evt_read ≡ true → ssl ≡ true)

-- A connecting socket is open and has an SSL context.
abbrev pub Connects : Status → Bool → Bool → Type 0
Connects sock_connecting fd ctx = (fd ≡ true) × (ctx ≡ true)
Connects sock_connected fd ctx = Unit {0}
Connects sock_disconnected fd ctx = Unit {0}

pub record IsSound (s : SslSocket) : Type 0 where
  pub watched : Registered s.base.registered s.base.fd_open s.ssl
  pub connects : Connects s.base.status s.base.fd_open s.ssl_ctx
  pub in_session : s.session_connected ≡ true → s.ssl ≡ true

abbrev pub KeepsSound : SslCb → Type 0
KeepsSound cb = (e : SslEvent) (s : SslSocket) → IsSound s → IsSound (cb e s)

pub shut-Registered :
    (r : Option Events) (fd g a b : Bool) → fd ≡ false → Registered r fd a → Registered r g b
shut-Registered none fd g a b z p = tt
shut-Registered (some e) fd g a b z (h, k) = absurd (true≢false (sym h ∙ z))

pub shut-Connects :
    (st : Status) (fd g a b : Bool) → fd ≡ false → Connects st fd a → Connects st g b
shut-Connects sock_connecting fd g a b z (h, k) = absurd (true≢false (sym h ∙ z))
shut-Connects sock_connected fd g a b z p = tt
shut-Connects sock_disconnected fd g a b z p = tt

-- Closing the base of a socket that would be sound with some session and context.
pub close-IsSound :
    (s : SslSocket) (a b : Bool)
    → Registered s.base.registered s.base.fd_open a
    → Connects s.base.status s.base.fd_open b
    → (s.session_connected ≡ true → s.ssl ≡ true)
    → IsSound (close_base s)
unfolding close_base close deregister_event
close-IsSound s a b w c i = elim (Bool-cases s.base.fd_open) [
  | inl h ↦ rw h record { watched = tt; connects = tt; in_session = i }
  | inr h ↦ rw h record {
    watched = shut-Registered s.base.registered s.base.fd_open false a s.ssl h w;
    connects = shut-Connects s.base.status s.base.fd_open false b s.ssl_ctx h c;
    in_session = i;
  }
]

pub close_base-IsSound : (s : SslSocket) → IsSound s → IsSound (close_base s)
close_base-IsSound s i = close-IsSound s s.ssl s.ssl_ctx i.watched i.connects i.in_session

pub close_ssl-IsSound : (s : SslSocket) → IsSound s → IsSound (close_ssl s)
unfolding close_ssl
close_ssl-IsSound s i =
    let t = record s { ssl = false; ssl_ctx = false; session_connected = false } in
    elim s.ssl as (λ b. IsSound (close_base (if b then t else s))) [
      | true ↦ close-IsSound t s.ssl s.ssl_ctx i.watched i.connects (λ e. cc)
      | false ↦ close_base-IsSound s i
    ]

-- Of two sound states.
pub if-IsSound : (b : Bool) (s t : SslSocket) → IsSound s → IsSound t → IsSound (if b then s else t)
if-IsSound true s t i j = i
if-IsSound false s t i j = j

pub with_error-IsSound : (b : Bool) (s : SslSocket) → IsSound s → IsSound (with_error b s)
with_error-IsSound b s i = record {
  watched = i.watched;
  connects = i.connects;
  in_session = i.in_session;
}

-- An open socket with a session may watch anything.
change-IsSound :
    (e : Events) (s : SslSocket)
    → s.base.fd_open ≡ true
    → s.ssl ≡ true
    → IsSound s
    → IsSound (record s { base = change_event e s.base })
unfolding change_event
change-IsSound e s f l i = record {
  watched = (f, λ _. l);
  connects = i.connects;
  in_session = i.in_session;
}

pub change_ssl_sock_event-IsSound :
    (e : SslError) (s : SslSocket)
    → s.base.fd_open ≡ true
    → s.ssl ≡ true
    → IsSound s
    → IsSound (change_ssl_sock_event e s)
unfolding change_ssl_sock_event
change_ssl_sock_event-IsSound wants_write s f l i = change-IsSound writes_only s f l i
change_ssl_sock_event-IsSound wants_read s f l i = change-IsSound reads_only s f l i
change_ssl_sock_event-IsSound zero_return s f l i = i
change_ssl_sock_event-IsSound syscall s f l i = i
change_ssl_sock_event-IsSound ssl_failure s f l i = i
change_ssl_sock_event-IsSound other s f l i = i

-- An owner that leaves sound sockets sound.
module _ (cb : SslCb) (keeps : KeepsSound cb) where
  pub notify-IsSound : (e : SslEvent) (s : SslSocket) → IsSound s → IsSound (notify cb e s)
  unfolding notify
  notify-IsSound e s i = if-IsSound s.has_callback (cb e s) s (keeps e s i) i

  pub close_need_end-IsSound : (s : SslSocket) → IsSound s → IsSound (close_need_end cb s)
  unfolding close_need_end
  close_need_end-IsSound s i =
      let t = notify cb ssl_disconnected (with_error true s) in
      let j = notify-IsSound ssl_disconnected (with_error true s) (with_error-IsSound true s i) in
      if-IsSound t.base.sock_error (close_ssl t) t (close_ssl-IsSound t j) j

  pub shake-IsSound :
      (answer : HandshakeAnswer) (s : SslSocket)
      → s.base.fd_open ≡ true
      → s.ssl ≡ true
      → IsSound s
      → IsSound (shake cb answer s)
  unfolding shake
  shake-IsSound session_up s f l i =
      notify-IsSound ssl_connected (record s { session_connected = true })
        record { watched = i.watched; connects = i.connects; in_session = λ _. l }
  shake-IsSound session_shut s f l i = close_need_end-IsSound s i
  shake-IsSound (handshake_error ssl_failure) s f l i = close_need_end-IsSound s i
  shake-IsSound (handshake_error zero_return) s f l i = close_need_end-IsSound s i
  shake-IsSound (handshake_error syscall) s f l i = close_need_end-IsSound s i
  shake-IsSound (handshake_error wants_write) s f l i =
      with_error-IsSound false (change_ssl_sock_event wants_write s)
        (change_ssl_sock_event-IsSound wants_write s f l i)
  shake-IsSound (handshake_error wants_read) s f l i =
      with_error-IsSound false (change_ssl_sock_event wants_read s)
        (change_ssl_sock_event-IsSound wants_read s f l i)
  shake-IsSound (handshake_error other) s f l i = with_error-IsSound false s i

  pub on_disconnected-IsSound : (s : SslSocket) → IsSound s → IsSound (on_disconnected cb s)
  unfolding on_disconnected
  on_disconnected-IsSound s i =
      notify-IsSound ssl_disconnected (close_ssl s) (close_ssl-IsSound s i)

  pub after_ssl_read-IsSound : (s : SslSocket) → IsSound s → IsSound (after_ssl_read cb s)
  unfolding after_ssl_read
  after_ssl_read-IsSound s i =
      let t = on_disconnected cb s in
      let j = on_disconnected-IsSound s i in
      if-IsSound s.base.sock_error (if t.base.sock_error then close_base t else t) s
        (if-IsSound t.base.sock_error (close_base t) t (close_base-IsSound t j) j) i
