-- ===== src/Socket/Bound.antt =====
-- EdSocket: connecting a TCP socket that was bound.
use ednio.Prelude.{◌≡◌, refl, Bool, true, none, some}
use ednio.Socket.{
  Socket, sock_disconnected, sock_connecting, tcp, reads_only, register_event, open_sock, bind_sock,
  connect, connect_with, connect_fd,
}

-- A disconnected TCP socket with nothing registered, bound and then connected, is connecting with
-- just its read event registered: the write event, on which a connecting socket becomes connected,
-- is not.
pub connect_bound :
    (fd ret : Bool) (s : Socket)
    → s.status ≡ sock_disconnected
    → s.sock_type ≡ tcp
    → s.registered ≡ none
    → s.fd_open ≡ true
    → let u = (connect fd ret (bind_sock true true s).1).1 in
      (u.status ≡ sock_connecting) × (u.registered ≡ some reads_only)
unfolding connect connect_with connect_fd bind_sock register_event open_sock
connect_bound fd ret s p t e h = rw (h, p, t, e) (refl, refl)
