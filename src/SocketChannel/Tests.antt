-- ===== src/SocketChannel/Tests.antt =====
-- Runs of EdSocketChannel at concrete inputs.
use ednio.Prelude.{◌≡◌, refl, [], ◌∷◌, ◌++◌, true, false, none, some, arith}
use ednio.SocketChannel.{
  SocketChannel, SrResult, sr_continue, sr_buf_full, room, no_write, init, open_channel,
  zero_chunks, new_chunk, send_packet, send_free, send_chunk, after_tx, tx, tx_with, tx_count,
  on_write, write_loop, finish_chunk, next_chunk, is_full,
}
use ednio.SocketChannel.Chunks.{
  no_cb, IsSound, AreFilled, IsFilled, pipeline, Waits, Keeps, owed, chunk_count,
}
use ednio.SocketChannel.Send.{accepted, refused}
use ednio.SocketChannel.Stream.{
  Run, opened, sends, writes, send_packet-Keeps, on_write-Keeps, Run-packets,
}
use ednio.SocketChannel.Reentry.{closing_cb, on_write_fault}

abbrev one_out : SocketChannel
one_out = record (open_channel (init 2)) {
  cur = some record (new_chunk (7 ∷ 8 ∷ []) 40 false) { cur_cnt = 1 };
  free_chks = record (new_chunk [] 0 true) { data_block = none } ∷ [];
  watches_write = true;
  sent = 7 ∷ [];
}

abbrev two_in : SocketChannel
two_in = record one_out { chks = new_chunk (9 ∷ []) 41 true ∷ []; free_chks = [] }

abbrev all_sent : SocketChannel
all_sent = record two_in {
  cur = none;
  chks = [];
  free_chks =
      record { data_block = none; size = 2; user = 40; cur_cnt = 2; allocated = false }
      ∷ record { data_block = some (9 ∷ []); size = 1; user = 41; cur_cnt = 1; allocated = false }
      ∷ [];
  watches_write = false;
  sent = 7 ∷ 8 ∷ 9 ∷ [];
}

-- A write takes one byte of two; the next packet is queued; a third is refused.
first_send :
    send_packet (room 1) (open_channel (init 2)) (7 ∷ 8 ∷ []) 40 false ≡ some (sr_continue, one_out)
unfolding send_packet send_free send_chunk after_tx tx tx_with tx_count init open_channel
    zero_chunks
first_send = refl

second_send : send_packet no_write one_out (9 ∷ []) 41 true ≡ some (sr_continue, two_in)
unfolding send_packet send_free send_chunk init open_channel zero_chunks
second_send = refl

third_send : send_packet no_write two_in (1 ∷ []) 42 true ≡ some (sr_buf_full, two_in)
unfolding send_packet send_free
third_send = refl

-- A write event for which there is room sends both.
both_out : on_write no_cb (room 9 ∷ room 9 ∷ []) two_in ≡ some all_sent
unfolding on_write write_loop finish_chunk next_chunk tx tx_with tx_count init open_channel
both_out = refl

all_sent-Run : Run 2 (([] ++ 7 ∷ 8 ∷ []) ++ 9 ∷ []) all_sent
unfolding accepted
all_sent-Run =
    writes
      (sends (sends opened (room 1) (7 ∷ 8 ∷ []) 40 false sr_continue one_out first_send) no_write
        (9 ∷ []) 41 true sr_continue two_in second_send)
      (room 9 ∷ room 9 ∷ []) all_sent both_out

Run-packets_example :
    IsSound all_sent
    × (all_sent.sent ++ owed all_sent ≡ 7 ∷ 8 ∷ 9 ∷ [])
    × (chunk_count all_sent ≡ 2)
Run-packets_example = Run-packets all_sent-Run

two_in-IsSound : IsSound two_in
unfolding IsSound AreFilled IsFilled pipeline Waits init open_channel
two_in-IsSound = (refl, ((refl, omega arith), ((refl, omega arith), tt)), refl)

send_packet-Keeps_example :
    (r : SrResult) × (u : SocketChannel) × (send_packet no_write two_in (1 ∷ []) 42 true
      ≡ some (r, u))
    × Keeps two_in (accepted r (1 ∷ [])) u
    × (refused r ≡ is_full two_in)
send_packet-Keeps_example = send_packet-Keeps no_write two_in (1 ∷ []) 42 true two_in-IsSound

on_write-Keeps_example :
    (u : SocketChannel) × (on_write no_cb (room 9 ∷ []) two_in ≡ some u) × Keeps two_in [] u
on_write-Keeps_example = on_write-Keeps (room 9 ∷ []) two_in two_in-IsSound

on_write_fault_example : on_write closing_cb (room 9 ∷ []) two_in ≡ none
unfolding init open_channel
on_write_fault_example =
    on_write_fault 9 [] two_in (record (new_chunk (7 ∷ 8 ∷ []) 40 false) { cur_cnt = 1 })
      (new_chunk (9 ∷ []) 41 true) [] refl refl refl (omega arith)
