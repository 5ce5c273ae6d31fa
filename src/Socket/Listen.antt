-- ===== src/Socket/Listen.antt =====
-- EdSocket: listening, and a socket that is used again after it listened.
use ednio.Prelude.{◌≡◌, refl, ap, ◌∙◌, Bool, true, false, none, some, if◌then◌else◌}
use ednio.Socket.{
  Socket, SocketCb, SockType, tcp, udp, unix_stream, unix_dgram, sock_disconnected, sock_connecting,
  sock_connected, ev_incoming, ev_read, Status, register_over, after_read, reads_only,
  register_event, deregister_event, open_sock, bind_sock, listen_on, listen_sock, close, connect,
  connect_with, connect_fd, on_event_read,
}

-- The read event of a socket that is marked as listening.
read_listening :
    (cb : SocketCb) (u : Socket) → u.is_listen ≡ true → on_event_read cb u ≡ cb ev_incoming u
unfolding on_event_read
read_listening cb u l =
    ap
      (λ b.
        if b
        then cb ev_incoming u
        else after_read cb (cb ev_read (record u { raise_disconnect = false })))
      l

listen_bound_eq :
    (fd bound : Bool) (s : Socket)
    → s.is_binded ≡ true
    → s.sock_type ≡ tcp
    → listen_sock fd bound true s
      ≡ (true, register_event reads_only (record s { is_listen = true }))
unfolding listen_sock listen_on
listen_bound_eq fd bound s b t =
    let s0 = record s { is_listen = true } in
    let go : Bool × Socket → Bool × Socket =
      λ p. if p.0 then listen_on true p.1 p.1.sock_type else p in
    ap (λ k. go (if k then (true, s0) else bind_sock fd bound s0)) b ∙ ap (listen_on true s0) t

-- A bound socket with nothing registered listens: it watches its read event, and that event calls the
-- owner for an incoming connection.
pub listen_bound :
    (fd bound : Bool) (s : Socket) (cb : SocketCb)
    → s.is_binded ≡ true
    → s.sock_type ≡ tcp
    → s.registered ≡ none
    → let u = (listen_sock fd bound true s).1 in
      (u.registered ≡ some reads_only) × (on_event_read cb u ≡ cb ev_incoming u)
unfolding register_event
listen_bound fd bound s cb b t r =
    let e = listen_bound_eq fd bound s b t in
    (
      ap (λ p. p.1.registered) e ∙ ap (register_over reads_only) r,
      read_listening cb (listen_sock fd bound true s).1 (ap (λ p. p.1.is_listen) e),
    )

close_listen : (s : Socket) → (close s).is_listen ≡ s.is_listen
unfolding close deregister_event
close_listen s =
    elim s.fd_open
      as (λ b.
        (if b
          then record (deregister_event s) {
            sock_error = false;
            fd_open = false;
            status = sock_disconnected;
            is_binded = false;
          }
          else record s { is_binded = false }).is_listen
        ≡ s.is_listen) [ true ↦ refl | false ↦ refl ]

connect_fd_listen :
    (ret : Bool) (s : Socket) (t : SockType) → (connect_fd ret s t).1.is_listen ≡ s.is_listen
unfolding connect_fd register_event
connect_fd_listen ret s tcp = refl
connect_fd_listen ret s udp = refl
connect_fd_listen ret s unix_stream = refl
connect_fd_listen ret s unix_dgram = refl

connect_with_listen :
    (ret : Bool) (s : Socket) (st : Status)
    → s.fd_open ≡ true
    → (connect_with true ret s st).1.is_listen ≡ s.is_listen
unfolding connect_with
connect_with_listen ret s sock_connected h = refl
connect_with_listen ret s sock_connecting h = refl
connect_with_listen ret s sock_disconnected h =
    let go : Socket → Socket = λ u. (connect_fd ret u u.sock_type).1 in
    ap (λ b. (go (if b then s else open_sock tcp true s)).is_listen) h
    ∙ connect_fd_listen ret s s.sock_type

-- A listening socket that is closed, opened again and connected is still marked as listening: its
-- read event calls the owner for an incoming connection, and not for data to read.
pub listened_again :
    (cb : SocketCb) (ret : Bool) (s : Socket)
    → s.is_listen ≡ true
    → let u = (connect true ret (open_sock tcp true (close s))).1 in
      on_event_read cb u ≡ cb ev_incoming u
unfolding connect open_sock
listened_again cb ret s l =
    let v = open_sock tcp true (close s) in
    read_listening cb (connect true ret v).1
      (connect_with_listen ret v v.status refl ∙ close_listen s ∙ l)
