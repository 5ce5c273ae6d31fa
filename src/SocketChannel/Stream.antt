-- ===== src/SocketChannel/Stream.antt =====
-- EdSocketChannel: the byte stream and the number of chunks over any sends and write events.
use ednio.Prelude.{
  ◌≡◌, refl, sym, ap, ◌∙◌, subst, ℕ, zero, suc, List, [], ◌++◌, Bool, some, length, arith,
  append-nil,
}
use ednio.SocketChannel.{
  SocketChannel, SrResult, Room, init, open_channel, zero_chunks, send_packet, on_write, is_full,
}
use ednio.SocketChannel.Chunks.{
  AreFilled, bytes_left, pipeline, owed, chunk_count, Waits, IsSound, Keeps, no_cb,
}
use ednio.SocketChannel.Loop.{LoopResult, write_loop-Keeps}
use ednio.SocketChannel.Send.{accepted, refused, SendResult, send_free-Keeps}
use mathlib.Core.Option.{some-injective}

-- `Run maxchk acc ch`: sends and write events, with a callback that leaves the channel alone, lead
-- from an open channel with `maxchk` chunks to `ch`, and `acc` are the packets that were accepted.
pub data Run (maxchk : ℕ) : List ℕ → SocketChannel → Type 0 where
  opened : Run maxchk [] (open_channel (init maxchk))
  sends :
      {acc : List ℕ} {ch : SocketChannel}
      → Run maxchk acc ch
      → (answer : Room) (buf : List ℕ) (user : ℕ) (takebuf : Bool) (r : SrResult)
        (u : SocketChannel)
      → send_packet answer ch buf user takebuf ≡ some (r, u)
      → Run maxchk (acc ++ accepted r buf) u
  writes :
      {acc : List ℕ} {ch : SocketChannel}
      → Run maxchk acc ch
      → (answers : List Room) (u : SocketChannel) → on_write no_cb answers ch ≡ some u
      → Run maxchk acc u

init-free : (n : ℕ) → length (zero_chunks n) ≡ n
unfolding zero_chunks
init-free zero = refl
init-free (suc n) = ap suc (init-free n)

-- On a sound channel sendPacket faults nowhere, keeps the channel sound and the number of chunks,
-- refuses the packet just if the channel is full, and what it accepts is sent or owed after what
-- was before.
pub send_packet-Keeps :
    (answer : Room) (ch : SocketChannel) (buf : List ℕ) (user : ℕ) (takebuf : Bool)
    → IsSound ch
    → (r : SrResult) × (u : SocketChannel) × (send_packet answer ch buf user takebuf ≡ some (r, u))
      × Keeps ch (accepted r buf) u
      × (refused r ≡ is_full ch)
unfolding send_packet SendResult
send_packet-Keeps answer ch buf user takebuf i =
    send_free-Keeps answer ch ch.cur ch.chks ch.free_chks buf user takebuf i

-- On a sound channel, however much the kernel takes, the loop of OnWrite with a callback that leaves
-- the channel alone faults nowhere, keeps the channel sound and the number of chunks, and moves
-- bytes from what is owed to what is sent, in order.
pub on_write-Keeps :
    (answers : List Room) (ch : SocketChannel)
    → IsSound ch
    → (u : SocketChannel) × (on_write no_cb answers ch ≡ some u) × Keeps ch [] u
unfolding on_write LoopResult
on_write-Keeps answers ch i = write_loop-Keeps answers ch ch.cur ch.chks i

-- From a channel on that was initialised and opened, after any sends and write events, with any
-- answers of the kernel and a callback that leaves the channel alone, the bytes sent and then those
-- owed are the accepted packets in order, there are as many chunks as `init` made, nothing is queued
-- without a current chunk, and with one the write event is watched.
pub Run-packets :
    {maxchk : ℕ} {acc : List ℕ} {ch : SocketChannel}
    → Run maxchk acc ch
    → IsSound ch × (ch.sent ++ owed ch ≡ acc) × (chunk_count ch ≡ maxchk)
unfolding Keeps IsSound owed chunk_count pipeline Waits AreFilled bytes_left init open_channel
Run-packets {maxchk = maxchk} opened = ((refl, tt, refl), refl, omega (arith, init-free maxchk))
Run-packets (sends {acc = acc} {ch = ch} run answer buf user takebuf r u e) =
    let (i, x, n) = Run-packets run in
    let (r', u', e', k, _) = send_packet-Keeps answer ch buf user takebuf i in
    let same = some-injective (r', u') (r, u) (sym e' ∙ e) in
    let (j, y, m) = subst (λ z. Keeps ch (accepted z.0 buf) z.1) same k in
    (j, y ∙ ap (λ l. l ++ accepted r buf) x, m ∙ n)
Run-packets (writes {acc = acc} {ch = ch} run answers u e) =
    let (i, x, n) = Run-packets run in
    let (u', e', k) = on_write-Keeps answers ch i in
    let (j, y, m) = subst (Keeps ch []) (some-injective u' u (sym e' ∙ e)) k in
    (j, y ∙ append-nil _ ∙ x, m ∙ n)
