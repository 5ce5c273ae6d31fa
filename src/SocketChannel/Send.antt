-- ===== src/SocketChannel/Send.antt =====
-- EdSocketChannel: what sendPacket keeps.
use ednio.Prelude.{
  ◌≡◌, refl, sym, ap, ap₂, ◌∙◌, ℕ, ◌-◌, min, List, [], ◌∷◌, ◌++◌, Bool, true, false, Option, none,
  some, length, arith, append_assoc, append-nil, length-append, take_all,
}
use ednio.SocketChannel.{
  Chunk, SocketChannel, SrResult, sr_buf_full, sr_complete, sr_continue, Room, room, no_write,
  remain_of, tx_with, tx, new_chunk, after_tx, send_chunk, send_free, is_full,
}
use ednio.SocketChannel.Chunks.{
  IsFilled, AreFilled, bytes_left, pipeline, owed, chunk_count, Waits, IsSound, Keeps, TxOutcome,
  tx_count-TxOutcome, Keeps-refl, all_out, part_out,
}

-- What `sendPacket` takes from the caller.
unfoldable pub accepted : SrResult → List ℕ → List ℕ
accepted sr_buf_full buf = []
accepted sr_complete buf = buf
accepted sr_continue buf = buf

unfoldable pub refused : SrResult → Bool
refused sr_buf_full = true
refused sr_complete = false
refused sr_continue = false

AreFilled-append :
    (cs : List Chunk) (d : Chunk) → AreFilled cs → IsFilled d → AreFilled (cs ++ d ∷ [])
unfolding AreFilled
AreFilled-append [] d a i = (i, tt)
AreFilled-append (c ∷ cs) d (j, a) i = (j, AreFilled-append cs d a i)

bytes_left-append :
    (cs : List Chunk) (d : Chunk) → bytes_left (cs ++ d ∷ []) ≡ bytes_left cs ++ remain_of d
unfolding bytes_left
bytes_left-append [] d = append-nil (remain_of d)
bytes_left-append (c ∷ cs) d =
    ap (λ xs. remain_of c ++ xs) (bytes_left-append cs d)
    ∙ sym (append_assoc (remain_of c) (bytes_left cs) (remain_of d))

new-IsFilled : (buf : List ℕ) (user : ℕ) (takebuf : Bool) → IsFilled (new_chunk buf user takebuf)
unfolding IsFilled
new-IsFilled buf user takebuf = (refl, omega arith)

new_lem : (buf : List ℕ) (user : ℕ) (takebuf : Bool) → remain_of (new_chunk buf user takebuf) ≡ buf
new_lem buf user takebuf = take_all (length buf - 0) buf (omega arith)

unfoldable pub SendResult : SocketChannel → List ℕ → Option (SrResult × SocketChannel) → Type 0
SendResult s buf x =
    (r : SrResult) × (u : SocketChannel) × (x ≡ some (r, u))
    × Keeps s (accepted r buf) u
    × (refused r ≡ is_full s)

send_tx-Keeps :
    (ch : SocketChannel) (x : Chunk) (free : List Chunk) (buf : List ℕ) (user : ℕ) (takebuf : Bool)
    → ch.fd_open ≡ true
    → let t = record ch { cur = some (new_chunk buf user takebuf); chks = []; free_chks = free } in
      (r : SrResult) (u : SocketChannel)
      → TxOutcome t (new_chunk buf user takebuf) r u
      → SendResult
          (record ch { cur = none; chks = []; free_chks = x ∷ free })
          buf
          (after_tx (some (r, u)))
unfolding SendResult after_tx Keeps IsSound owed chunk_count pipeline AreFilled Waits bytes_left
    accepted refused is_full
send_tx-Keeps ch x free buf user takebuf f r _ (all_out d u e) = (
  sr_complete,
  _,
  ap (λ y. after_tx (some (sr_complete, y))) e,
  (
    (f, tt, refl),
    append-nil _ ∙ ap₂ ◌++◌ (sym (append-nil ch.sent)) (new_lem buf user takebuf),
    omega (arith, length-append free (d ∷ [])),
  ),
  refl,
)
send_tx-Keeps ch x free buf user takebuf f r _ (part_out d new u e i k) = (
  sr_continue,
  _,
  ap (λ y. after_tx (some (sr_continue, y))) e,
  (
    (f, (i, tt), refl),
    append_assoc ch.sent new (remain_of d ++ [])
        ∙ ap₂ ◌++◌ (sym (append-nil ch.sent))
            (ap (λ ys. new ++ ys) (append-nil (remain_of d)) ∙ k ∙ new_lem buf user takebuf),
    omega arith,
  ),
  refl,
)

pub send_free-Keeps :
    (answer : Room) (ch : SocketChannel) (o : Option Chunk) (q free : List Chunk) (buf : List ℕ)
    (user : ℕ) (takebuf : Bool)
    → let s = record ch { cur = o; chks = q; free_chks = free } in
      IsSound s → SendResult s buf (send_free answer s buf user takebuf free)
unfolding SendResult send_free send_chunk tx tx_with Keeps IsSound owed chunk_count pipeline
    AreFilled Waits bytes_left accepted refused is_full
send_free-Keeps answer ch o q [] buf user takebuf i =
    (sr_buf_full, _, refl, Keeps-refl (record ch { cur = o; chks = q; free_chks = [] }) i, refl)
send_free-Keeps answer ch (some c) q (x ∷ free) buf user takebuf (f, (j, a), w) = (
  sr_continue,
  _,
  refl,
  (
    (f, (j, AreFilled-append q _ a (new-IsFilled buf user takebuf)), w),
    ap (λ l. ch.sent ++ (remain_of c ++ l))
          (bytes_left-append q (new_chunk buf user takebuf)
            ∙ ap (λ ys. bytes_left q ++ ys) (new_lem buf user takebuf))
        ∙ ap (λ l. ch.sent ++ l) (sym (append_assoc (remain_of c) (bytes_left q) buf))
        ∙ sym (append_assoc ch.sent (remain_of c ++ bytes_left q) buf),
    omega (arith, length-append q (new_chunk buf user takebuf ∷ [])),
  ),
  refl,
)
send_free-Keeps answer ch none (c ∷ q) (x ∷ free) buf user takebuf (f, a, w) =
    absurd (omega (arith, ap length w))
send_free-Keeps no_write ch none [] (x ∷ free) buf user takebuf (f, a, w) =
    send_tx-Keeps ch x free buf user takebuf f sr_continue _ (
      part_out (new_chunk buf user takebuf) [] _
        (ap
          (λ xs. record ch {
            cur = some (new_chunk buf user takebuf);
            chks = [];
            free_chks = free;
            sent = xs;
          })
          (sym (append-nil ch.sent)))
        (new-IsFilled buf user takebuf) refl)
send_free-Keeps (room n) ch none [] (x ∷ free) buf user takebuf (f, a, w) =
    send_tx-Keeps ch x free buf user takebuf f _ _ (
      tx_count-TxOutcome (min n (length buf - 0)) _ (new_chunk buf user takebuf) refl
        (new-IsFilled buf user takebuf) (omega arith))
