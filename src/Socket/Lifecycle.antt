-- ===== src/Socket/Lifecycle.antt =====
-- EdSocket: the events that a socket watches, by its status.
use ednio.Prelude.{◌≡◌, ℕ, Bool, true, false, Option, none, some}
use ednio.Socket.{
  Socket, Status, sock_disconnected, sock_connecting, sock_connected, SockType, SockEvent, SocketCb,
  Events, writes_hangup, fresh, change_event, open_sock, open_child_sock, close, connect, recv,
  on_event_read, on_event_write, on_event_hangup,
}

-- What is registered and open at a status: nothing registered when disconnected, the write and
-- hang-up events of an open socket when connecting, and at least the hang-up event when connected.
unfoldable pub Watches : Option Events → Bool → Status → Type 0
Watches reg fd sock_disconnected = reg ≡ none
Watches reg fd sock_connecting = (reg ≡ some writes_hangup) × (fd ≡ true)
Watches reg fd sock_connected =
    ((e : Events) × (reg ≡ some e) × (e.evt_hangup ≡ true)) × (fd ≡ true)

unfoldable pub IsSound : Socket → Type 0
unfolding Watches
IsSound s = Watches s.registered s.fd_open s.status

-- An owner that leaves every sound socket sound.
abbrev pub KeepsSound : SocketCb → Type 0
KeepsSound cb = (e : SockEvent) (s : Socket) → IsSound s → IsSound (cb e s)

-- The operations of a client's or a child's socket, and the kernel's events. `socket` gives a
-- descriptor.
pub data Step (s : Socket) : Socket → Type 0 where
  opens : (type : SockType) → s.fd_open ≡ false → Step s (open_sock type true s)
  accepts : s.fd_open ≡ false → Step s (open_child_sock s)
  connects : (ret : Bool) → Step s (connect true ret s).1
  receives : (n : ℕ) → Step s (recv n s)
  changes :
      (e : Events) → s.status ≡ sock_connected → e.evt_hangup ≡ true → Step s (change_event e s)
  closes : Step s (close s)
  reads : (cb : SocketCb) → KeepsSound cb → Step s (on_event_read cb s)
  writes : (cb : SocketCb) → KeepsSound cb → (sockerr : Bool) → Step s (on_event_write cb sockerr s)
  hangs_up : (cb : SocketCb) → KeepsSound cb → Step s (on_event_hangup cb s)

pub data Reach : Socket → Type 0 where
  start : Reach fresh
  next : {s u : Socket} → Reach s → Step s u → Reach u
