-- ===== src/Socket/Tests.antt =====
-- Runs of EdSocket at concrete inputs.
use ednio.Prelude.{◌≡◌, refl, true, false, some}
use ednio.Socket.{
  Socket, SocketCb, fresh, sock_connecting, tcp, reads_only, open_sock, bind_sock, connect,
  connect_with, connect_fd, register_event, recv, close, on_event_write, on_event_read,
  change_event, on_write_with, after_read,
}
use ednio.Socket.Bound.{connect_bound}

-- An owner that only looks on.
abbrev looks_on : SocketCb
looks_on _ s = s

abbrev opened : Socket
opened = open_sock tcp true fresh

abbrev up : Socket
up = on_event_write looks_on false (connect true true opened).1

-- After the end of the stream is read, with an owner that only looks on, the socket is closed.
after_end : (on_event_read looks_on (recv 0 up)).fd_open ≡ false
unfolding on_event_read after_read recv on_event_write on_write_with connect connect_with connect_fd
    open_sock register_event change_event close
after_end = refl

connect_bound_example :
    ((connect true true (bind_sock true true opened).1).1.status ≡ sock_connecting)
    × ((connect true true (bind_sock true true opened).1).1.registered ≡ some reads_only)
unfolding open_sock
connect_bound_example = connect_bound true true opened refl refl refl refl
