-- ===== src/SslSocket/Calls.antt =====
-- EdSSLSocket: opening, connecting, reading and writing.
use ednio.Prelude.{
  ◌≡◌, refl, sym, ap, ◌∙◌, Bool, true, false, Option, none, some, if◌then◌else◌, true≢false, ◌==◌,
}
use ednio.SmartSocket.{
  zero_return, syscall, ssl_failure, wants_write, wants_read, other, SslAnswer, ssl_wrote,
  ssl_error,
}
use ednio.SmartSocket.Ssl.{RecvAnswer, received, recv_error}
use ednio.Socket.{
  Socket, Status, sock_disconnected, sock_connecting, sock_connected, Events, SockType, tcp, udp,
  unix_stream, unix_dgram, reads_hangup, writes_hangup, register_over, register_event, open_sock,
  open_child_sock, connect, connect_with, connect_fd,
}
use ednio.SslSocket.{
  SslSocket, open_ssl_client_sock, open_ssl_child_sock, connect_ssl, recv_with, send_with,
}
use ednio.SslSocket.Sound.{
  Registered, Connects, IsSound, if-IsSound, with_error-IsSound, change_ssl_sock_event-IsSound,
  shut-Registered, shut-Connects,
}

abbrev pub Returned : Option SslSocket → Type 0
Returned o = (u : SslSocket) × (o ≡ some u) × IsSound u

pub opened-IsSound :
    (fd : Bool) (s : SslSocket)
    → s.base.fd_open ≡ false
    → IsSound s
    → IsSound (open_ssl_client_sock fd true s)
unfolding open_ssl_client_sock open_sock
opened-IsSound fd s z i =
    let s' = record s { base = open_sock tcp fd s.base } in
    if-IsSound fd (record s' { ssl_ctx = true; is_ssl_server = false }) s'
      record {
        watched = shut-Registered s.base.registered s.base.fd_open fd s.ssl s.ssl z i.watched;
        connects = shut-Connects s.base.status s.base.fd_open fd s.ssl_ctx true z i.connects;
        in_session = i.in_session;
      }
      record {
        watched = shut-Registered s.base.registered s.base.fd_open fd s.ssl s.ssl z i.watched;
        connects = shut-Connects s.base.status s.base.fd_open fd s.ssl_ctx s.ssl_ctx z i.connects;
        in_session = i.in_session;
      }

child-Registered :
    (r : Option Events) (fd a : Bool)
    → fd ≡ false
    → Registered r fd a
    → Registered (register_over reads_hangup r) true true
child-Registered none fd a z p = (refl, λ _. refl)
child-Registered (some e) fd a z (h, k) = absurd (true≢false (sym h ∙ z))

pub child-Returned :
    (s : SslSocket) → s.base.fd_open ≡ false → IsSound s → Returned (open_ssl_child_sock true s)
unfolding open_ssl_child_sock open_child_sock register_event
child-Returned s z i = (
  record s { base = open_child_sock s.base; ssl = true; ssl_ctx = true; is_ssl_server = true },
  refl,
  record {
    watched = child-Registered s.base.registered s.base.fd_open s.ssl z i.watched;
    connects = tt;
    in_session = λ _. refl;
  },
)

-- A base that would be sound with this session and context.
abbrev SoundBase : Bool → Bool → Socket → Type 0
SoundBase ssl ctx b = Registered b.registered b.fd_open ssl × Connects b.status b.fd_open ctx

over-Registered :
    (r : Option Events) (fd a : Bool)
    → fd ≡ true
    → Registered r fd a
    → Registered (register_over writes_hangup r) fd a
over-Registered none fd a f p = (f, λ e. cc)
over-Registered (some e) fd a f p = p

connect_fd-SoundBase :
    (ret ssl ctx : Bool) (b : Socket) (t : SockType)
    → b.fd_open ≡ true
    → ctx ≡ true
    → SoundBase ssl ctx b
    → SoundBase ssl ctx (connect_fd ret b t).1
unfolding connect_fd register_event
connect_fd-SoundBase ret ssl ctx b tcp f c (w, k) =
    (over-Registered b.registered b.fd_open ssl f w, (f, c))
connect_fd-SoundBase ret ssl ctx b udp f c p = p
connect_fd-SoundBase ret ssl ctx b unix_stream f c p = p
connect_fd-SoundBase ret ssl ctx b unix_dgram f c p = p

connect_with-SoundBase :
    (ret ssl ctx : Bool) (b : Socket) (st : Status)
    → ctx ≡ true
    → SoundBase ssl ctx b
    → SoundBase ssl ctx (connect_with true ret b st).1
unfolding connect_with open_sock
connect_with-SoundBase ret ssl ctx b sock_connected c p = p
connect_with-SoundBase ret ssl ctx b sock_connecting c p = p
connect_with-SoundBase ret ssl ctx b sock_disconnected c (w, k) =
    let go : Socket → Socket = λ u. (connect_fd ret u u.sock_type).1 in
    (elim b.fd_open
        as (λ f. b.fd_open ≡ f → SoundBase ssl ctx (go (if f then b else open_sock tcp true b))) [
          | true ↦ λ h. connect_fd-SoundBase ret ssl ctx b b.sock_type h c (w, k)
          | false ↦ λ h. connect_fd-SoundBase ret ssl ctx (open_sock tcp true b) tcp refl c (
            shut-Registered b.registered b.fd_open true ssl ssl h w,
            shut-Connects b.status b.fd_open true ctx ctx h k,
          )
        ])
      refl

pub connect-IsSound :
    (ret : Bool) (s : SslSocket) → s.ssl_ctx ≡ true → IsSound s → IsSound (connect_ssl true ret s)
unfolding connect_ssl connect
connect-IsSound ret s c i =
    let (w, k) =
      connect_with-SoundBase ret s.ssl s.ssl_ctx s.base s.base.status c (i.watched, i.connects) in
    record { watched = w; connects = k; in_session = i.in_session }

pub recv-IsSound :
    (answer : RecvAnswer) (s : SslSocket)
    → s.base.fd_open ≡ true
    → s.ssl ≡ true
    → IsSound s
    → IsSound (recv_with answer s)
unfolding recv_with
recv-IsSound (received n) s f l i = with_error-IsSound (n == 0) s i
recv-IsSound (recv_error zero_return) s f l i = with_error-IsSound true s i
recv-IsSound (recv_error wants_write) s f l i = change_ssl_sock_event-IsSound wants_write s f l i
recv-IsSound (recv_error wants_read) s f l i = change_ssl_sock_event-IsSound wants_read s f l i
recv-IsSound (recv_error syscall) s f l i = i
recv-IsSound (recv_error ssl_failure) s f l i = i
recv-IsSound (recv_error other) s f l i = i

pub send-IsSound :
    (answer : SslAnswer) (s : SslSocket)
    → s.base.fd_open ≡ true
    → s.ssl ≡ true
    → IsSound s
    → IsSound (send_with answer s)
unfolding send_with
send-IsSound (ssl_wrote n) s f l i = i
send-IsSound (ssl_error e) s f l i = change_ssl_sock_event-IsSound e s f l i

-- A guard that holds.
pub guarded :
    (b : Bool) (s : SslSocket) → b ≡ true → IsSound s → Returned (if b then some s else none)
guarded b s e i = (s, ap (λ x. if x then some s else none) e, i)
