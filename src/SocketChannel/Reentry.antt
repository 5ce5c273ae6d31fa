-- ===== src/SocketChannel/Reentry.antt =====
-- EdSocketChannel: a callback that closes the channel while OnWrite is in its loop.
use ednio.Prelude.{
  ◌≡◌, refl, ap, ap₂, ◌∙◌, ℕ, ◌+◌, ◌-◌, ◌≤◌, min, List, [], ◌∷◌, ◌++◌, true, false, none, some,
  ==_iff, if◌then◌else◌, take, arith,
}
use ednio.SocketChannel.{
  Chunk, SocketChannel, sr_complete, sr_continue, sr_buf_full, Room, room, tx_count, remain_of,
  tx_with, tx, next_chunk, finish_chunk, ChannelCb, write_loop, on_write, close_channel,
}

abbrev pub closing_cb : ChannelCb
closing_cb _ ch = close_channel ch

closed_fault :
    (answers : List Room) (ch : SocketChannel)
    → write_loop closing_cb answers (close_channel ch) true ≡ none
unfolding write_loop tx tx_with close_channel
closed_fault [] ch = refl
closed_fault (a ∷ answers) ch = refl

-- The current chunk when all of it is written.
abbrev done_chunk : Chunk → Chunk
done_chunk c = record {
  data_block = if c.allocated then none else c.data_block;
  size = c.size;
  user = c.user;
  cur_cnt = c.cur_cnt + (c.size - c.cur_cnt);
  allocated = false;
}

tx_count_all :
    (n : ℕ) (ch : SocketChannel) (c : Chunk)
    → n ≡ c.size - c.cur_cnt
    → tx_count n ch c ≡ (
      sr_complete,
      record ch { sent = ch.sent ++ take n (remain_of c); cur = some (done_chunk c) },
    )
unfolding tx_count
tx_count_all n ch c h = rw ((==_iff n (c.size - c.cur_cnt)).1 h) refl

loop_fault :
    (n : ℕ) (answers : List Room) (ch : SocketChannel) (c d : Chunk) (q : List Chunk)
    → c.size - c.cur_cnt ≤ n
    → write_loop closing_cb
        (room n ∷ answers)
        (record ch { cur = some c; chks = d ∷ q; fd_open = true })
        true
      ≡ none
unfolding write_loop tx tx_with finish_chunk next_chunk close_channel
loop_fault n answers ch c d q h =
    ap
      (λ r. elim r.0 [
        | sr_complete ↦
            write_loop closing_cb answers (close_channel (finish_chunk r.1).0) (finish_chunk r.1).1
        | sr_continue ↦ some r.1
        | sr_buf_full ↦ some r.1
      ])
      (tx_count_all (min n (c.size - c.cur_cnt))
        (record ch { cur = some c; chks = d ∷ q; fd_open = true }) c (omega arith))
    ∙ closed_fault answers
        (record ch { sent = ch.sent ++ take (min n (c.size - c.cur_cnt)) (remain_of c) })

-- On an open channel with a packet being written and another one queued, when the kernel takes all
-- that is left of the first and the callback closes the channel, the loop of OnWrite goes on with
-- no current chunk, which tx dereferences: a fault.
pub on_write_fault :
    (n : ℕ) (answers : List Room) (ch : SocketChannel) (c d : Chunk) (q : List Chunk)
    → ch.fd_open ≡ true
    → ch.cur ≡ some c
    → ch.chks ≡ d ∷ q
    → c.size - c.cur_cnt ≤ n
    → on_write closing_cb (room n ∷ answers) ch ≡ none
unfolding on_write
on_write_fault n answers ch c d q f p e h =
    ap (on_write closing_cb (room n ∷ answers)) (
      ap (λ b. record ch { fd_open = b }) f
      ∙ ap₂ (λ o l. record ch { fd_open = true; cur = o; chks = l }) p e)
    ∙ loop_fault n answers ch c d q h
