-- ===== src/SocketChannel/Chunks.antt =====
-- EdSocketChannel: the chunks in use, what they still have to write, and what one round does.
use ednio.Prelude.{
  ◌≡◌, refl, sym, ap, ap₂, ◌∙◌, ℕ, ◌+◌, ◌-◌, ◌≤◌, List, [], ◌∷◌, ◌++◌, true, false, Option, none,
  some, ltb, ◌==◌, ==_iff, if◌then◌else◌, length, take, drop, arith, append_assoc, append-nil,
  length-append, take-drop, take_all, length-drop, drop-add, Bool-cases, inl, inr,
}
use ednio.SocketChannel.{
  Chunk, SocketChannel, SrResult, sr_complete, sr_continue, block_of, remain_of, tx_count,
  next_chunk, finish_chunk, ChannelCb, is_some,
}

-- A chunk that is written or queued: its size is its block's and what is written is within it.
unfoldable pub IsFilled : Chunk → Type 0
IsFilled c = (c.size ≡ length (block_of c.data_block)) × (c.cur_cnt ≤ c.size)

unfoldable pub AreFilled : List Chunk → Type 0
AreFilled [] = Unit {0}
AreFilled (c ∷ cs) = IsFilled c × AreFilled cs

-- The bytes that chunks still have to write.
unfoldable pub bytes_left : List Chunk → List ℕ
bytes_left [] = []
bytes_left (c ∷ cs) = remain_of c ++ bytes_left cs

unfoldable pub pipeline : Option Chunk → List Chunk → List Chunk
pipeline none cs = cs
pipeline (some c) cs = c ∷ cs

-- The bytes accepted and not yet written, and the chunks that there are.
unfoldable pub owed : SocketChannel → List ℕ
unfolding bytes_left pipeline
owed ch = bytes_left (pipeline ch.cur ch.chks)

unfoldable pub chunk_count : SocketChannel → ℕ
unfolding pipeline
chunk_count ch = length (pipeline ch.cur ch.chks) + length ch.free_chks

-- With no current chunk nothing is queued, and with one the write event is watched.
unfoldable pub Waits : SocketChannel → Option Chunk → Type 0
Waits ch none = ch.chks ≡ []
Waits ch (some c) = ch.watches_write ≡ true

unfoldable pub IsSound : SocketChannel → Type 0
unfolding AreFilled IsFilled pipeline Waits
IsSound ch = (ch.fd_open ≡ true) × AreFilled (pipeline ch.cur ch.chks) × Waits ch ch.cur

-- `u` comes from `ch` by a step that keeps the channel sound and the number of chunks, and after
-- which `acc` more bytes are sent or owed.
unfoldable pub Keeps : SocketChannel → List ℕ → SocketChannel → Type 0
unfolding IsSound owed chunk_count
Keeps ch acc u =
    IsSound u × (u.sent ++ owed u ≡ (ch.sent ++ owed ch) ++ acc) × (chunk_count u ≡ chunk_count ch)

pub remain_of_lem : (c : Chunk) → IsFilled c → remain_of c ≡ drop c.cur_cnt (block_of c.data_block)
unfolding IsFilled
remain_of_lem c (z, h) = take_all _ _ (omega (arith, length-drop c.cur_cnt (block_of c.data_block)))

pub length-remain_of : (c : Chunk) → IsFilled c → length (remain_of c) ≡ c.size - c.cur_cnt
unfolding IsFilled
length-remain_of c i =
    ap length (remain_of_lem c i)
    ∙ omega (arith, length-drop c.cur_cnt (block_of c.data_block), i.0)

-- The quiet callback.
abbrev pub no_cb : ChannelCb
no_cb _ ch = ch

-- What `tx` makes of a filled chunk.
pub data TxOutcome (ch : SocketChannel) (c : Chunk) : SrResult → SocketChannel → Type 0 where
  all_out :
      (d : Chunk) (u : SocketChannel)
      → u ≡ record ch { sent = ch.sent ++ remain_of c; cur = some d }
      → TxOutcome ch c sr_complete u
  part_out :
      (d : Chunk) (new : List ℕ) (u : SocketChannel)
      → u ≡ record ch { sent = ch.sent ++ new; cur = some d }
      → IsFilled d
      → new ++ remain_of d ≡ remain_of c
      → TxOutcome ch c sr_continue u

pub tx_count-TxOutcome :
    (n : ℕ) (ch : SocketChannel) (c : Chunk)
    → ch.cur ≡ some c
    → IsFilled c
    → n ≤ c.size - c.cur_cnt
    → TxOutcome ch c (tx_count n ch c).0 (tx_count n ch c).1
unfolding tx_count IsFilled
tx_count-TxOutcome n ch c p i h = elim (Bool-cases (n == c.size - c.cur_cnt)) [
  | inl q ↦ rw q (
      all_out _ _ (
        ap
          (λ xs. record ch {
            sent = ch.sent ++ xs;
            cur = some record {
              data_block = if c.allocated then none else c.data_block;
              size = c.size;
              user = c.user;
              cur_cnt = c.cur_cnt + (c.size - c.cur_cnt);
              allocated = false;
            };
          })
          (take_all n (remain_of c)
            (omega (arith, length-remain_of c i, (==_iff n (c.size - c.cur_cnt)).0 q)))))
  | inr q ↦ rw q (elim (Bool-cases (ltb 0 n)) [
    | inl r ↦ rw r (
        part_out _ _ _ refl (i.0, omega arith)
          (ap₂ (λ xs ys. take n xs ++ ys) (remain_of_lem c i)
              (remain_of_lem (record c { cur_cnt = c.cur_cnt + n }) (i.0, omega arith)
                ∙ drop-add c.cur_cnt n _)
            ∙ take-drop n _
            ∙ sym (remain_of_lem c i)))
    | inr r ↦ rw r (
        part_out c [] ch (ap₂ (λ xs o. record ch { sent = xs; cur = o }) (sym (append-nil _)) p) i
          refl)
  ])
]

pub Keeps-refl : (ch : SocketChannel) → IsSound ch → Keeps ch [] ch
unfolding Keeps
Keeps-refl ch i = (i, sym (append-nil _), refl)

pub Keeps-next : (s t u : SocketChannel) → Keeps s [] t → Keeps t [] u → Keeps s [] u
unfolding Keeps
Keeps-next s t u (i, x, m) (j, y, n) = (j, y ∙ append-nil _ ∙ x, n ∙ m)

pub shuffle :
    (a new r r' l : List ℕ) → new ++ r ≡ r' → (a ++ new) ++ (r ++ l) ≡ (a ++ (r' ++ l)) ++ []
shuffle a new r r' l e =
    append_assoc a new (r ++ l)
    ∙ ap (λ xs. a ++ xs) (sym (append_assoc new r l) ∙ ap (λ xs. xs ++ l) e)
    ∙ sym (append-nil _)

pub part-Keeps :
    (ch : SocketChannel) (c d : Chunk) (q : List Chunk) (new : List ℕ)
    → IsSound (record ch { cur = some c; chks = q })
    → IsFilled d
    → new ++ remain_of d ≡ remain_of c
    → Keeps
        (record ch { cur = some c; chks = q })
        []
        (record ch { cur = some d; chks = q; sent = ch.sent ++ new })
unfolding Keeps IsSound owed chunk_count pipeline AreFilled Waits bytes_left
part-Keeps ch c d q new (f, (_, a), w) i e =
    ((f, (i, a), w), shuffle ch.sent new (remain_of d) (remain_of c) (bytes_left q) e, refl)

pub finish_chunk-Keeps :
    (ch : SocketChannel) (c d : Chunk) (q : List Chunk)
    → IsSound (record ch { cur = some c; chks = q })
    → let (v, go) =
        finish_chunk (record ch { cur = some d; chks = q; sent = ch.sent ++ remain_of c }) in
      (go ≡ is_some v.cur) × Keeps (record ch { cur = some c; chks = q }) [] v
unfolding finish_chunk next_chunk Keeps IsSound owed chunk_count pipeline AreFilled Waits bytes_left
finish_chunk-Keeps ch c d [] (f, (_, a), w) = rw f (
  refl,
  (
    (refl, tt, refl),
    ap (λ xs. (ch.sent ++ xs) ++ []) (sym (append-nil (remain_of c))),
    omega (arith, length-append ch.free_chks (d ∷ [])),
  ),
)
finish_chunk-Keeps ch c d (c' ∷ q) (f, (_, a), w) = rw f (
  refl,
  (
    (refl, a, w),
    append_assoc ch.sent (remain_of c) _ ∙ sym (append-nil _),
    omega (arith, length-append ch.free_chks (d ∷ [])),
  ),
)
