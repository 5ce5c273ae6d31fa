-- ===== src/SslSocket/Tests.antt =====
-- Runs of EdSSLSocket: a client that connects and shakes hands.
use ednio.Prelude.{◌≡◌, refl, [], ◌∷◌, true, false, some}
use ednio.SmartSocket.{wants_read, wants_write}
use ednio.SmartSocket.Ssl.{session_up, handshake_error}
use ednio.Socket.{
  sock_connected, open_sock, connect, connect_with, connect_fd, register_event, change_event,
}
use ednio.SslSocket.{
  SslSocket, SslCb, fresh_ssl, writes_only, open_ssl_client_sock, connect_ssl, on_event_write,
  event_write_with, start_handshake, proc_ssl_connect, shake, change_ssl_sock_event, on_event_read,
}
use ednio.SslSocket.Sound.{IsSound, KeepsSound}
use ednio.SslSocket.Reach.{
  opens_client, connects, writes, reads, ssl_call, Reach, begins, calls, Reach-Returned,
}
use ednio.SslSocket.Stuck.{write_events, handshake_stuck}

-- An owner that only looks on.
abbrev looks_on : SslCb
looks_on _ s = s

looks_on-KeepsSound : KeepsSound looks_on
looks_on-KeepsSound _ s i = i

abbrev opened : SslSocket
opened = open_ssl_client_sock true true (fresh_ssl true)

abbrev connecting : SslSocket
connecting = connect_ssl true true opened

-- The first answer wants to read.
abbrev shaking : SslSocket
shaking = record connecting {
  base = record (connecting.base) {
    status = sock_connected;
    registered = some record { evt_read = true; evt_write = false; evt_hangup = false };
  };
  ssl = true;
}

shaking-Reach : Reach looks_on shaking
unfolding ssl_call open_ssl_client_sock open_sock connect_ssl connect connect_with connect_fd
    register_event on_event_write event_write_with start_handshake proc_ssl_connect shake
    change_ssl_sock_event change_event
shaking-Reach =
    calls (writes (handshake_error wants_read) false)
      (calls (connects true) (calls (opens_client true) (begins true) refl refl) refl refl) tt refl

Reach-Returned_example :
    (u : SslSocket) × (ssl_call looks_on (reads session_up) shaking ≡ some u) × IsSound u
Reach-Returned_example =
    Reach-Returned looks_on looks_on-KeepsSound (reads session_up) shaking shaking-Reach refl

handshake_stuck_example :
    (u : SslSocket) × (on_event_read looks_on (handshake_error wants_write) shaking ≡ some u)
    × (u.base.registered ≡ some writes_only)
    × (u.session_connected ≡ false)
    × (write_events looks_on ((session_up, false) ∷ []) u ≡ some u)
unfolding open_ssl_client_sock open_sock connect_ssl connect connect_with connect_fd register_event
handshake_stuck_example =
    handshake_stuck looks_on shaking ((session_up, false) ∷ []) refl refl refl refl
