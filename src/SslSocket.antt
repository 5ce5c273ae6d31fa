-- ===== src/SslSocket.antt =====
-- EdSSLSocket (ednio/edssl/EdSSLSocket.cpp): a raw socket (Socket) with an SSL session on it, and the
-- raw socket's events (ednio/EdSocket.cpp) with the functions that it overrides. The answers of
-- OpenSSL are arguments; a call of it with a null pointer is a fault.
pub mod Sound
pub mod Calls
pub mod Reach
pub mod Stuck
mod Tests
use ednio.Prelude.{
  ℕ, suc, List, [], ◌∷◌, Bool, true, false, not, ◌&&◌, Option, none, some, ◌==◌, ltb, if◌then◌else◌,
  ◌>>=◌,
}
use ednio.SmartSocket.{
  SslError, zero_return, syscall, ssl_failure, wants_write, wants_read, other, SslAnswer, ssl_wrote,
  ssl_error,
}
use ednio.SmartSocket.Ssl.{
  HandshakeAnswer, session_up, session_shut, handshake_error, RecvAnswer, received, recv_error,
}
use ednio.Socket.{
  Socket, Status, sock_disconnected, sock_connecting, sock_connected, tcp, Events, reads_only,
  reads_hangup, fresh, change_event, open_sock, open_child_sock, close, connect,
}

pub data SslEvent : Type 0 where
  ssl_disconnected ssl_connected ssl_read ssl_write : SslEvent

pub record SslSocket : Type 0 where
  pub base : Socket
  -- `mSSL`, `mSSLCtx` and `mSSLCallback` that are not null
  pub ssl : Bool
  pub ssl_ctx : Bool
  pub has_callback : Bool
  pub session_connected : Bool
  pub is_ssl_server : Bool

abbrev pub SslCb : Type 0
SslCb = SslEvent → SslSocket → SslSocket

-- The constructor, and `setOnSSLListener`.
abbrev pub fresh_ssl : Bool → SslSocket
fresh_ssl listener = record {
  base = fresh;
  ssl = false;
  ssl_ctx = false;
  has_callback = listener;
  session_connected = false;
  is_ssl_server = false;
}

abbrev pub writes_only : Events
writes_only = record { evt_read = false; evt_write = true; evt_hangup = false }

abbrev pub with_error : Bool → SslSocket → SslSocket
with_error b s = record s { base = record (s.base) { sock_error = b } }

-- `EdSocket::close`, which is not virtual.
unfoldable pub close_base : SslSocket → SslSocket
unfolding close
close_base s = record s { base = close s.base }

-- `close`.
unfoldable pub close_ssl : SslSocket → SslSocket
unfolding close_base
close_ssl s =
    close_base
      (if s.ssl then record s { ssl = false; ssl_ctx = false; session_connected = false } else s)

-- `changeSSLSockEvent`.
unfoldable pub change_ssl_sock_event : SslError → SslSocket → SslSocket
unfolding change_event
change_ssl_sock_event wants_write s = record s { base = change_event writes_only s.base }
change_ssl_sock_event wants_read s = record s { base = change_event reads_only s.base }
change_ssl_sock_event zero_return s = s
change_ssl_sock_event syscall s = s
change_ssl_sock_event ssl_failure s = s
change_ssl_sock_event other s = s

-- `openSSLClientSock`; `fd` says whether `socket` gives a descriptor, and `ctx` whether the context is
-- not null.
unfoldable pub open_ssl_client_sock : Bool → Bool → SslSocket → SslSocket
unfolding open_sock
open_ssl_client_sock fd ctx s =
    let s' = record s { base = open_sock tcp fd s.base } in
    if fd then record s' { ssl_ctx = ctx; is_ssl_server = false } else s'

-- `openSSLChildSock`.
unfoldable pub open_ssl_child_sock : Bool → SslSocket → Option SslSocket
unfolding open_child_sock
open_ssl_child_sock ctx s =
    if ctx
    then some
        record s { base = open_child_sock s.base; ssl = true; ssl_ctx = true; is_ssl_server = true }
    else none

-- `connect`, once the SSL library is initialised.
unfoldable pub connect_ssl : Bool → Bool → SslSocket → SslSocket
unfolding connect
connect_ssl fd ret s = record s { base = (connect fd ret s.base).1 }

-- `recv` and `send`.
unfoldable pub recv_with : RecvAnswer → SslSocket → SslSocket
unfolding change_ssl_sock_event
recv_with (received n) s = with_error (n == 0) s
recv_with (recv_error zero_return) s = with_error true s
recv_with (recv_error wants_write) s = change_ssl_sock_event wants_write s
recv_with (recv_error wants_read) s = change_ssl_sock_event wants_read s
recv_with (recv_error syscall) s = s
recv_with (recv_error ssl_failure) s = s
recv_with (recv_error other) s = s

unfoldable pub recv_ssl : RecvAnswer → SslSocket → Option SslSocket
unfolding recv_with
recv_ssl answer s = if s.ssl then some (recv_with answer s) else none

unfoldable pub send_with : SslAnswer → SslSocket → SslSocket
unfolding change_ssl_sock_event
send_with (ssl_wrote n) s = s
send_with (ssl_error e) s = change_ssl_sock_event e s

unfoldable pub send_ssl : SslAnswer → SslSocket → Option SslSocket
unfolding send_with
send_ssl answer s = if s.ssl then some (send_with answer s) else none

-- The owner, which may change the socket when it is called.
module _ (cb : SslCb) where
  -- `OnSSLConnected`, `OnSSLDisconnected` and `OnSSLRead`.
  unfoldable pub notify : SslEvent → SslSocket → SslSocket
  notify e s = if s.has_callback then cb e s else s

  -- `procSSLErrCloseNeedEnd`.
  unfoldable pub close_need_end : SslSocket → SslSocket
  unfolding notify close_ssl
  close_need_end s =
      let s' = notify ssl_disconnected (with_error true s) in
      if s'.base.sock_error then close_ssl s' else s'

  unfoldable pub shake : HandshakeAnswer → SslSocket → SslSocket
  unfolding notify close_need_end change_ssl_sock_event
  shake session_up s = notify ssl_connected (record s { session_connected = true })
  shake session_shut s = close_need_end s
  shake (handshake_error ssl_failure) s = close_need_end s
  shake (handshake_error zero_return) s = close_need_end s
  shake (handshake_error syscall) s = close_need_end s
  shake (handshake_error wants_write) s = with_error false (change_ssl_sock_event wants_write s)
  shake (handshake_error wants_read) s = with_error false (change_ssl_sock_event wants_read s)
  shake (handshake_error other) s = with_error false s

  -- `procSSLConnect`, also for `sslAccept`.
  unfoldable pub proc_ssl_connect : HandshakeAnswer → SslSocket → Option SslSocket
  unfolding shake
  proc_ssl_connect answer s = if s.ssl then some (shake answer s) else none

  -- `startHandshake`; `SSL_new` of a null context gives a null session.
  unfoldable pub start_handshake : HandshakeAnswer → SslSocket → Option SslSocket
  unfolding proc_ssl_connect
  start_handshake answer s =
      if not s.ssl && not s.session_connected
      then proc_ssl_connect answer (record s { ssl = s.ssl_ctx })
      else some s

  -- `OnRead`, with `procSSLRead`.
  unfoldable pub on_read : HandshakeAnswer → SslSocket → Option SslSocket
  unfolding notify proc_ssl_connect
  on_read answer s =
      if s.session_connected then some (notify ssl_read s) else proc_ssl_connect answer s

  -- `OnDisconnected`.
  unfoldable pub on_disconnected : SslSocket → SslSocket
  unfolding close_ssl notify
  on_disconnected s = notify ssl_disconnected (close_ssl s)

  -- `EdSocket::OnEventRead`.
  unfoldable pub after_ssl_read : SslSocket → SslSocket
  unfolding on_disconnected close_base
  after_ssl_read s =
      let s' = on_disconnected s in
      if s.base.sock_error then (if s'.base.sock_error then close_base s' else s') else s

  unfoldable pub on_event_read : HandshakeAnswer → SslSocket → Option SslSocket
  unfolding on_read after_ssl_read
  on_event_read answer s =
      if s.base.is_listen
      then some s
      else on_read answer (record s { base = record (s.base) { raise_disconnect = false } })
        >>= λ s'. some (after_ssl_read s')

  -- `EdSocket::OnEventWrite`, where `st` is the status; `OnWrite` does nothing.
  unfoldable pub event_write_with : HandshakeAnswer → Bool → SslSocket → Status → Option SslSocket
  unfolding close_base on_disconnected change_event start_handshake
  event_write_with answer sockerr s sock_connecting =
      if sockerr
      then some (on_disconnected (close_base s))
      else start_handshake answer (record s {
        base = change_event reads_hangup (record (s.base) { status = sock_connected });
      })
  event_write_with answer sockerr s sock_connected = some s
  event_write_with answer sockerr s sock_disconnected = some s

  unfoldable pub on_event_write : HandshakeAnswer → Bool → SslSocket → Option SslSocket
  unfolding event_write_with
  on_event_write answer sockerr s = event_write_with answer sockerr s s.base.status

  -- `EdSocket::OnEventHangup`.
  unfoldable pub on_event_hangup : SslSocket → SslSocket
  unfolding close_base on_disconnected
  on_event_hangup s = on_disconnected (close_base s)
