-- ===== src/SmartSocket/Ssl.antt =====
-- EdSmartSocket with SSL: opening and closing, the handshake, reading and writing. The SSL library's
-- answers are arguments; SSL_new of a context that is not null succeeds, and a null session is a
-- fault.
use ednio.Prelude.{
  ℕ, List, [], Bool, true, false, not, ◌&&◌, Option, none, some, ltb, ◌==◌, if◌then◌else◌,
}
use ednio.SmartSocket.{
  SmartSocket, NetEvent, connected, disconnected, readable, writable, nothing, want_write,
  want_read, SslError, zero_return, syscall, ssl_failure, wants_write, wants_read, other, SslAnswer,
  ssl_wrote, ssl_error, watch, fire, change_ssl_sock_event, wrote_pending, proc_normal_on_write,
  Answer,
}

-- The constructor.
abbrev pub fresh_socket : SmartSocket
fresh_socket = record {
  secure = false;
  pending = none;
  pending_size = 0;
  pending_write_cnt = 0;
  ssl = false;
  ssl_ctx = false;
  session_connected = false;
  is_server = false;
  ssl_want_event = nothing;
  fd_open = false;
  interest = record { read = false; write = false; hangup = false };
  has_listener = false;
  fired = [];
  sock_error = false;
  sent = [];
}

-- `openClient`, with the listener given or not; `fd` says whether `socket` gives a descriptor, and
-- `ctx` whether the default context is not null.
unfoldable pub open_client : Bool → Bool → Bool → Bool → SmartSocket → SmartSocket
open_client secure lis fd ctx s =
    let s' = record s {
      secure = secure;
      has_listener = if lis then true else s.has_listener;
      fd_open = fd;
    } in
    if secure && fd then record s' { ssl_ctx = ctx; is_server = false } else s'

-- `openChild` on a descriptor that `accept` gave, with a default context that is not null.
unfoldable pub child_sock : Bool → Bool → SmartSocket → SmartSocket
child_sock secure lis s =
    let s' =
      watch
        (record s {
          secure = secure;
          has_listener = if lis then true else s.has_listener;
          fd_open = true;
        })
        false in
    if secure then record s' { is_server = true; ssl = true; ssl_ctx = true } else s'

-- `openChild`, where `ctx` says whether the default context is not null.
unfoldable pub open_child : Bool → Bool → Bool → SmartSocket → Option SmartSocket
unfolding child_sock
open_child secure lis ctx s = if secure && not ctx then none else some (child_sock secure lis s)

-- `close`.
unfoldable pub close : SmartSocket → SmartSocket
close s = record s {
  ssl = false;
  ssl_ctx = if s.ssl then false else s.ssl_ctx;
  session_connected = if s.ssl then false else s.session_connected;
  fd_open = false;
  interest =
      if s.fd_open then record { read = false; write = false; hangup = false } else s.interest;
  sock_error = if s.fd_open then false else s.sock_error;
  pending = none;
}

-- What the listener does when it is called: it may change the socket, and `lastSockErrorNo`.
abbrev pub Listener : Type 0
Listener = NetEvent → SmartSocket → SmartSocket

-- What `SSL_connect` and `SSL_accept` answer: 1, 0, or less with an error.
pub data HandshakeAnswer : Type 0 where
  session_up session_shut : HandshakeAnswer
  handshake_error : SslError → HandshakeAnswer

module _ (lis : Listener) where
  unfoldable pub tell : SmartSocket → NetEvent → SmartSocket
  unfolding fire
  tell s e = if s.has_listener then lis e (fire s e) else s

  -- `procSSLErrCloseNeedEnd`: the listener hears of it, if there is one, and the socket is closed if
  -- `lastSockErrorNo` is still set.
  unfoldable pub proc_ssl_err_close_need_end : SmartSocket → SmartSocket
  unfolding tell close
  proc_ssl_err_close_need_end s =
      let s' = tell (record s { sock_error = true }) disconnected in
      if s'.sock_error then close s' else s'

  -- `procSSLConnect` and `sslAccept`.
  unfoldable pub shake : HandshakeAnswer → SmartSocket → SmartSocket
  unfolding tell proc_ssl_err_close_need_end change_ssl_sock_event
  shake session_up s = tell (record s { session_connected = true; sock_error = false }) connected
  shake session_shut s = proc_ssl_err_close_need_end s
  shake (handshake_error ssl_failure) s = proc_ssl_err_close_need_end s
  shake (handshake_error zero_return) s =
      proc_ssl_err_close_need_end (change_ssl_sock_event s zero_return)
  shake (handshake_error syscall) s = proc_ssl_err_close_need_end (change_ssl_sock_event s syscall)
  shake (handshake_error wants_write) s = record (change_ssl_sock_event s wants_write) {
    sock_error = false;
  }
  shake (handshake_error wants_read) s = record (change_ssl_sock_event s wants_read) {
    sock_error = false;
  }
  shake (handshake_error other) s = record (change_ssl_sock_event s other) { sock_error = false }

  unfoldable pub proc_ssl_connect : HandshakeAnswer → SmartSocket → Option SmartSocket
  unfolding shake
  proc_ssl_connect answer s = if s.ssl then some (shake answer s) else none

  -- `SSL_new` of a null context gives a null session.
  unfoldable pub start_handshake : HandshakeAnswer → SmartSocket → Option SmartSocket
  unfolding proc_ssl_connect
  start_handshake answer s =
      if not s.ssl && not s.session_connected
      then proc_ssl_connect answer (record s { ssl = s.ssl_ctx })
      else some s

  unfoldable pub proc_ssl_read : HandshakeAnswer → SmartSocket → Option SmartSocket
  unfolding proc_ssl_connect tell
  proc_ssl_read answer s =
      if s.session_connected then some (tell s readable) else proc_ssl_connect answer s

-- `procSSLOnWrite` once the session is connected, where `o` is the pending block.
unfoldable pub ssl_write_with : SslAnswer → SmartSocket → Option (List ℕ) → SmartSocket
unfolding fire wrote_pending change_ssl_sock_event
ssl_write_with (ssl_wrote n) s (some block) =
    let s' = record s { ssl_want_event = nothing } in
    if ltb 0 n then wrote_pending s' block n else s'
ssl_write_with (ssl_error e) s (some block) =
    change_ssl_sock_event (record s { ssl_want_event = nothing }) e
ssl_write_with answer s none = elim s.ssl_want_event [
  | want_write ↦ fire s writable
  | nothing ↦ fire (watch s false) writable
  | want_read ↦ fire (watch s false) writable
]

-- `procSSLOnWrite`, and `fireRead`, `fireWrite`, `fireConnected` and `fireDisconnected`, which the raw
-- socket calls.
module _ (lis : Listener) where
  unfoldable pub proc_ssl_on_write : HandshakeAnswer → SslAnswer → SmartSocket → Option SmartSocket
  unfolding proc_ssl_connect ssl_write_with
  proc_ssl_on_write handshake answer s =
      if s.session_connected
      then some (ssl_write_with answer s s.pending)
      else proc_ssl_connect lis handshake s

  unfoldable pub fire_read : HandshakeAnswer → SmartSocket → Option SmartSocket
  unfolding tell proc_ssl_read
  fire_read handshake s =
      if s.secure then proc_ssl_read lis handshake s else some (tell lis s readable)

  unfoldable pub fire_write :
      HandshakeAnswer → SslAnswer → Answer → SmartSocket → Option SmartSocket
  unfolding proc_ssl_on_write proc_normal_on_write
  fire_write handshake ssl_answer answer s =
      if s.secure
      then proc_ssl_on_write handshake ssl_answer s
      else some (proc_normal_on_write answer s)

  unfoldable pub fire_connected : HandshakeAnswer → SmartSocket → Option SmartSocket
  unfolding tell start_handshake
  fire_connected handshake s =
      if s.secure then start_handshake lis handshake s else some (tell lis s connected)

  unfoldable pub fire_disconnected : SmartSocket → SmartSocket
  unfolding tell
  fire_disconnected s =
      if not s.secure
      then tell lis s disconnected
      else (if s.session_connected then tell lis s disconnected else s)

-- What `read` and `SSL_read` answer: a count, or less with an error, which `read` leaves unread.
pub data RecvAnswer : Type 0 where
  received : ℕ → RecvAnswer
  recv_error : SslError → RecvAnswer

-- `recvPacket` on a plain socket, or on one with a session; no count stands for -1.
unfoldable pub recv_with : RecvAnswer → SmartSocket → Option ℕ × SmartSocket
unfolding change_ssl_sock_event
recv_with (received n) s =
    if s.secure
    then (some n, record s { ssl_want_event = nothing; sock_error = n == 0 })
    else (some n, record s { sock_error = if n == 0 then true else s.sock_error })
recv_with (recv_error e) s =
    if s.secure
    then (
      none,
      let s' = change_ssl_sock_event (record s { ssl_want_event = nothing }) e in
          record s' {
            sock_error = elim e [
              | zero_return ↦ true
              | wants_write ↦ s'.sock_error
              | wants_read ↦ s'.sock_error
              | syscall ↦ s'.sock_error
              | ssl_failure ↦ s'.sock_error
              | other ↦ s'.sock_error
            ];
          },
    )
    else (none, s)

unfoldable pub recv_packet : RecvAnswer → SmartSocket → Option (Option ℕ × SmartSocket)
unfolding recv_with
recv_packet answer s = if s.secure && not s.ssl then none else some (recv_with answer s)

-- `isWritable`.
unfoldable pub is_writable : SmartSocket → Bool
is_writable s = elim s.pending [ none ↦ true | some _ ↦ false ]

-- `reserveWrite`.
unfoldable pub reserve_write : SmartSocket → SmartSocket
reserve_write s = watch s true
