-- ===== src/SocketChannel/Loop.antt =====
-- EdSocketChannel: the loop of OnWrite, with a callback that leaves the channel alone.
use ednio.Prelude.{
  ◌≡◌, refl, sym, ap, ◌∙◌, subst, ◌-◌, min, List, [], ◌∷◌, ◌++◌, Bool, Option, none, some, arith,
}
use ednio.SocketChannel.{
  Chunk, SocketChannel, SrResult, sr_buf_full, sr_complete, sr_continue, Room, room, no_write,
  remain_of, finish_chunk, write_loop, is_some,
}
use ednio.SocketChannel.Chunks.{
  IsFilled, AreFilled, pipeline, IsSound, Keeps, no_cb, TxOutcome, tx_count-TxOutcome, Keeps-refl,
  Keeps-next, part-Keeps, finish_chunk-Keeps, all_out, part_out,
}

-- The loop of OnWrite, however many bytes the kernel takes.
unfoldable pub LoopResult : List Room → SocketChannel → Bool → SocketChannel → Type 0
LoopResult answers ch go s =
    (u : SocketChannel) × (write_loop no_cb answers ch go ≡ some u) × Keeps s [] u

-- What the loop does with a round's outcome.
round_of : List Room → SrResult × SocketChannel → Option SocketChannel
unfolding write_loop
round_of answers r = elim r.0 [
  | sr_complete ↦ write_loop no_cb answers (finish_chunk r.1).0 (finish_chunk r.1).1
  | sr_continue ↦ some r.1
  | sr_buf_full ↦ some r.1
]

round_lem :
    (answers : List Room) (ch : SocketChannel) (c : Chunk) (q : List Chunk)
    → ((v : SocketChannel) → IsSound v → LoopResult answers v (is_some v.cur) v)
    → IsSound (record ch { cur = some c; chks = q })
    → (r : SrResult) (u : SocketChannel) → TxOutcome (record ch { cur = some c; chks = q }) c r u
    → (w : SocketChannel) × (round_of answers (r, u) ≡ some w)
      × Keeps (record ch { cur = some c; chks = q }) [] w
unfolding LoopResult round_of Keeps
round_lem answers ch c q ih i r _ (all_out d z e) =
    let (g, k) = finish_chunk-Keeps ch c d q i in
    let t = finish_chunk (record ch { cur = some d; chks = q; sent = ch.sent ++ remain_of c }) in
    let (w, x, y) = ih t.0 k.0 in
    (
      w,
      ap (λ y. round_of answers (sr_complete, y)) e ∙ ap (write_loop no_cb answers t.0) g ∙ x,
      Keeps-next (record ch { cur = some c; chks = q }) t.0 w k y,
    )
round_lem answers ch c q ih i r _ (part_out d new z e f x) = (
  z,
  refl,
  subst (Keeps (record ch { cur = some c; chks = q }) []) (sym e) (part-Keeps ch c d q new i f x),
)

filled :
    (ch : SocketChannel) (c : Chunk) (q : List Chunk)
    → IsSound (record ch { cur = some c; chks = q })
    → IsFilled c
unfolding IsSound AreFilled pipeline
filled ch c q (_, (f, _), _) = f

pub write_loop-Keeps :
    (answers : List Room) (ch : SocketChannel) (o : Option Chunk) (q : List Chunk)
    → let s = record ch { cur = o; chks = q } in IsSound s → LoopResult answers s (is_some o) s
unfolding write_loop LoopResult round_of
write_loop-Keeps answers ch none q i = (_, refl, Keeps-refl _ i)
write_loop-Keeps [] ch (some c) q i = (_, refl, Keeps-refl _ i)
write_loop-Keeps (no_write ∷ answers) ch (some c) q i = (_, refl, Keeps-refl _ i)
write_loop-Keeps (room n ∷ answers) ch (some c) q i =
    round_lem answers ch c q (λ v j. write_loop-Keeps answers v v.cur v.chks j) i _ _
      (tx_count-TxOutcome (min n (c.size - c.cur_cnt)) (record ch { cur = some c; chks = q }) c refl
        (filled ch c q i) (omega arith))
