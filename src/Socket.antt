-- ===== src/Socket.antt =====
-- EdSocket (ednio/EdSocket.cpp) with the registration of its events (ednio/EdEvent.cpp): the status
-- of a socket under its operations and the kernel's events. What system calls answer is an argument
-- of the operation that makes them.
pub mod Lifecycle
pub mod Bound
pub mod Listen
mod Tests
use ednio.Prelude.{
  ℕ, List, [], ◌∷◌, ◌++◌, Bool, true, false, not, Option, none, some, if◌then◌else◌, ◌==◌,
}

pub data Status : Type 0 where
  sock_disconnected sock_connecting sock_connected : Status

pub data SockType : Type 0 where
  tcp udp unix_stream unix_dgram : SockType

pub data SockEvent : Type 0 where
  ev_read ev_write ev_connected ev_disconnected ev_incoming : SockEvent

-- `EVT_READ`, `EVT_WRITE` and `EVT_HANGUP`.
pub record Events : Type 0 where
  pub evt_read : Bool
  pub evt_write : Bool
  pub evt_hangup : Bool

pub record Socket : Type 0 where
  pub status : Status
  pub sock_type : SockType
  -- `mFd >= 0`
  pub fd_open : Bool
  pub is_listen : Bool
  pub is_binded : Bool
  pub raise_disconnect : Bool
  -- the events registered with the task, if `mIsReg`
  pub registered : Option Events
  -- the task's `lastSockErrorNo != 0`
  pub sock_error : Bool

abbrev pub reads_only : Events
reads_only = record { evt_read = true; evt_write = false; evt_hangup = false }

abbrev pub reads_hangup : Events
reads_hangup = record { evt_read = true; evt_write = false; evt_hangup = true }

abbrev pub writes_hangup : Events
writes_hangup = record { evt_read = false; evt_write = true; evt_hangup = true }

-- `EdEvent::registerEvent`: nothing happens if events are registered.
abbrev pub register_over : Events → Option Events → Option Events
register_over e none = some e
register_over e (some old) = some old

unfoldable pub register_event : Events → Socket → Socket
register_event e s = record s { registered = register_over e s.registered }

-- `EdEvent::deregisterEvent`.
unfoldable pub deregister_event : Socket → Socket
deregister_event s = record s { registered = none }

-- `EdEvent::changeEvent`: it registers what is not registered.
unfoldable pub change_event : Events → Socket → Socket
change_event e s = record s { registered = some e }

-- The constructor, with `clearInternal`.
abbrev pub fresh : Socket
fresh = record {
  status = sock_disconnected;
  sock_type = tcp;
  fd_open = false;
  is_listen = false;
  is_binded = false;
  raise_disconnect = false;
  registered = none;
  sock_error = false;
}

-- `openSock`, where `fd` says whether `socket` gives a descriptor.
unfoldable pub open_sock : SockType → Bool → Socket → Socket
open_sock type fd s = record s { sock_type = type; fd_open = fd }

-- `openChildSock` on a descriptor that `accept` gave.
unfoldable pub open_child_sock : Socket → Socket
unfolding register_event
open_child_sock s =
    register_event reads_hangup
      (record s { fd_open = true; status = sock_connected; sock_type = tcp })

-- `bindSock`: the TCP socket is opened first if there is none; `bound` says whether `bind` succeeds.
unfoldable pub bind_sock : Bool → Bool → Socket → Bool × Socket
unfolding open_sock register_event
bind_sock fd bound s =
    let s' = if s.fd_open then s else open_sock tcp fd s in
    if bound
    then (true, register_event reads_only (record s' { is_binded = true }))
    else (false, s')

-- `close`.
unfoldable pub close : Socket → Socket
unfolding deregister_event
close s =
    if s.fd_open
    then record (deregister_event s) {
      sock_error = false;
      fd_open = false;
      status = sock_disconnected;
      is_binded = false;
    }
    else record s { is_binded = false }

pub data ConnectResult : Type 0 where
  done_before already not_supported : ConnectResult
  connect_ret : Bool → ConnectResult

-- `connect` on a disconnected socket with a descriptor; `ret` says whether `::connect` returns 0.
unfoldable pub connect_fd : Bool → Socket → SockType → ConnectResult × Socket
unfolding register_event
connect_fd ret s tcp =
    (connect_ret ret, record (register_event writes_hangup s) { status = sock_connecting })
connect_fd ret s udp = (connect_ret ret, s)
connect_fd ret s unix_stream = (connect_ret false, s)
connect_fd ret s unix_dgram = (connect_ret false, s)

-- `connect` to an address and a port, where `st` is the status.
unfoldable pub connect_with : Bool → Bool → Socket → Status → ConnectResult × Socket
unfolding open_sock connect_fd
connect_with fd ret s sock_connected = (done_before, s)
connect_with fd ret s sock_connecting = (already, s)
connect_with fd ret s sock_disconnected =
    let s' = if s.fd_open then s else open_sock tcp fd s in connect_fd ret s' s'.sock_type

unfoldable pub connect : Bool → Bool → Socket → ConnectResult × Socket
unfolding connect_with
connect fd ret s = connect_with fd ret s s.status

-- What `::connect` to a path answers: 0, EINPROGRESS or another error.
pub data PathAnswer : Type 0 where
  path_connected path_in_progress path_error : PathAnswer

-- `connect` to a path, on a unix socket of this status.
unfoldable pub connect_path : PathAnswer → Socket → Status → ConnectResult × Socket
unfolding register_event
connect_path a s sock_connected = (already, s)
connect_path a s sock_connecting = (already, s)
connect_path path_connected s sock_disconnected =
    (connect_ret true, register_event reads_hangup (record s { status = sock_connected }))
connect_path path_in_progress s sock_disconnected =
    (connect_ret false, register_event reads_hangup (record s { status = sock_connecting }))
connect_path path_error s sock_disconnected = (connect_ret false, s)

-- `listen` on a bound socket; `ok` says whether it succeeds.
unfoldable pub listen_on : Bool → Socket → SockType → Bool × Socket
unfolding register_event
listen_on ok s tcp = if ok then (true, register_event reads_only s) else (false, s)
listen_on ok s unix_stream = if ok then (true, register_event reads_only s) else (false, s)
listen_on ok s udp = (false, s)
listen_on ok s unix_dgram = (false, s)

-- `listenSock`: the socket is bound first if it is not, and stays marked as listening if that fails.
unfoldable pub listen_sock : Bool → Bool → Bool → Socket → Bool × Socket
unfolding bind_sock listen_on
listen_sock fd bound ok s =
    let s0 = record s { is_listen = true } in
    let p = if s0.is_binded then (true, s0) else bind_sock fd bound s0 in
    if p.0 then listen_on ok p.1 p.1.sock_type else p

-- `acceptSock`, of the child; `given` says whether `accept` gives a descriptor.
unfoldable pub accept_sock : Bool → Socket → Bool × Socket
unfolding open_child_sock
accept_sock given child = if given then (true, open_child_sock child) else (false, child)

-- `recv`, of which `read` returns the count: the end of the stream is noted as an error.
unfoldable pub recv : ℕ → Socket → Socket
recv n s = record s { sock_error = if n == 0 then true else s.sock_error }

-- What the socket's owner does when it is called.
abbrev pub SocketCb : Type 0
SocketCb = SockEvent → Socket → Socket

-- `OnEventRead`.
unfoldable pub after_read : SocketCb → Socket → Socket
unfolding close
after_read cb s =
    if s.sock_error
    then (let s' = cb ev_disconnected s in if s'.sock_error then close s' else s')
    else s

unfoldable pub on_event_read : SocketCb → Socket → Socket
unfolding after_read
on_event_read cb s =
    if s.is_listen
    then cb ev_incoming s
    else after_read cb (cb ev_read (record s { raise_disconnect = false }))

-- `OnEventWrite`, where `st` is the status and `sockerr` says whether SO_ERROR is set.
unfoldable pub on_write_with : SocketCb → Bool → Socket → Status → Socket
unfolding close change_event
on_write_with cb sockerr s sock_connecting =
    if sockerr
    then cb ev_disconnected (close s)
    else cb ev_connected (change_event reads_hangup (record s { status = sock_connected }))
on_write_with cb sockerr s sock_connected = cb ev_write s
on_write_with cb sockerr s sock_disconnected = cb ev_write s

unfoldable pub on_event_write : SocketCb → Bool → Socket → Socket
unfolding on_write_with
on_event_write cb sockerr s = on_write_with cb sockerr s s.status

-- `OnEventHangup`.
unfoldable pub on_event_hangup : SocketCb → Socket → Socket
unfolding close
on_event_hangup cb s = cb ev_disconnected (close s)
