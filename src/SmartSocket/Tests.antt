-- ===== src/SmartSocket/Tests.antt =====
-- Runs of EdSmartSocket at concrete inputs.
use ednio.Prelude.{◌≡◌, refl, [], ◌∷◌, ◌++◌, true, false, none, some, arith, if◌then◌else◌}
use ednio.SmartSocket.{
  SmartSocket, connected, disconnected, readable, fire, writable, again, wrote, wants_read,
  wants_write, send_pending, ssl_wrote, ssl_error, syscall, other, send_packet,
  proc_normal_on_write, on_write_with, send_with, send_plain, keep_rest, wrote_pending, rest_of,
  owed, owed_of,
}
use ednio.SmartSocket.Ssl.{
  fresh_socket, child_sock, Listener, close, tell, proc_ssl_err_close_need_end, shake,
  proc_ssl_connect, handshake_error, ssl_write_with,
}
use ednio.SmartSocket.Stream.{Run, done, sends, ready, IsSound, accepted, Run-stream}
use ednio.SmartSocket.TakeBuffer.{TakesNone, write_events, takebuffer-stuck}
use ednio.SmartSocket.Session.{ssl_events, ssl_retry}

abbrev plain_socket : SmartSocket
plain_socket = child_sock false true fresh_socket

abbrev secure_socket : SmartSocket
secure_socket = child_sock true true fresh_socket

abbrev after_send : SmartSocket
after_send = (send_packet true (wrote 1) (ssl_error other) plain_socket (7 ∷ 8 ∷ 9 ∷ []) false).1

abbrev after_events : SmartSocket
after_events = proc_normal_on_write (wrote 1) (proc_normal_on_write again after_send)

-- One byte is written at once, one by a write event, and one is still owed.
after_events_sent : after_events.sent ≡ 7 ∷ 8 ∷ []
unfolding send_packet send_with send_plain keep_rest proc_normal_on_write on_write_with
    wrote_pending child_sock
after_events_sent = refl

after_events-owed : owed after_events ≡ 9 ∷ []
unfolding send_packet send_with send_plain keep_rest proc_normal_on_write on_write_with
    wrote_pending child_sock owed owed_of
after_events-owed = refl

plain-Run :
    Run plain_socket
      ([]
        ++ accepted
            (send_packet true (wrote 1) (ssl_error other) plain_socket (7 ∷ 8 ∷ 9 ∷ []) false).0
            (7 ∷ 8 ∷ 9 ∷ []))
      after_events
unfolding send_packet send_with send_plain keep_rest proc_normal_on_write on_write_with child_sock
plain-Run =
    ready (ready (sends done (wrote 1) (ssl_error other) (7 ∷ 8 ∷ 9 ∷ []) refl) again tt) (wrote 1)
      refl

Run-stream_example :
    IsSound after_events
    × (after_events.sent ++ owed after_events
        ≡ plain_socket.sent
          ++ ([]
              ++ accepted
                  (send_packet true
                    (wrote 1)
                    (ssl_error other)
                    plain_socket
                    (7 ∷ 8 ∷ 9 ∷ [])
                    false).0
                  (7 ∷ 8 ∷ 9 ∷ [])))
unfolding child_sock
Run-stream_example = Run-stream plain-Run refl refl

abbrev stuck : SmartSocket
stuck = (send_packet true again (ssl_error other) plain_socket (7 ∷ 8 ∷ []) true).1

takebuffer-stuck_example :
    ((send_packet true again (ssl_error other) plain_socket (7 ∷ 8 ∷ []) true).0 ≡ send_pending)
    × (stuck.pending ≡ some (7 ∷ 8 ∷ []))
    × (stuck.sent ≡ plain_socket.sent)
    × (rest_of stuck (7 ∷ 8 ∷ []) ≡ [])
    × (write_events (wrote 0 ∷ again ∷ []) stuck ≡ stuck)
unfolding child_sock TakesNone
takebuffer-stuck_example =
    takebuffer-stuck true (ssl_error other) plain_socket (7 ∷ 8 ∷ []) (wrote 0 ∷ again ∷ []) refl
      refl (refl, (tt, tt))

-- A listener that closes the socket on the end.
abbrev closes_it : Listener
closes_it disconnected s = close s
closes_it connected s = s
closes_it readable s = s
closes_it writable s = s

failed_step :
    (u : SmartSocket) × (proc_ssl_connect closes_it (handshake_error syscall) secure_socket
      ≡ some u)
    × (u.fd_open ≡ false)
unfolding proc_ssl_connect shake child_sock close proc_ssl_err_close_need_end tell fire
failed_step = (shake closes_it (handshake_error syscall) secure_socket, refl, refl)

abbrev retried : SmartSocket
retried =
    ssl_events (wants_read ∷ [])
      (send_packet true again (ssl_error wants_write) secure_socket (7 ∷ 8 ∷ []) false).1

abbrev written : SmartSocket
written = ssl_write_with (ssl_wrote 2) retried retried.pending

ssl_retry_example :
    ((send_packet true again (ssl_error wants_write) secure_socket (7 ∷ 8 ∷ []) false).0
      ≡ send_pending)
    × (retried.pending ≡ some (7 ∷ 8 ∷ []))
    × (rest_of retried (7 ∷ 8 ∷ []) ≡ 7 ∷ 8 ∷ [])
    × (retried.sent ≡ secure_socket.sent)
    × (written.sent ≡ secure_socket.sent ++ 7 ∷ 8 ∷ [])
    × (written.pending ≡ none)
    × (written.interest.write ≡ false)
    × (written.fired
        ≡ (if retried.has_listener then retried.fired ++ writable ∷ [] else retried.fired))
unfolding child_sock
ssl_retry_example =
    ssl_retry true again wants_write (wants_read ∷ []) secure_socket (7 ∷ 8 ∷ []) false refl refl
      (omega arith)
