-- ===== src/SocketChannel.antt =====
-- EdSocketChannel (ednio/EdSocketChannel.cpp): a socket with a fixed number of packet slots
-- (chunks), one being written, the others queued or free. What the kernel takes is an argument of
-- the operation that writes.
pub mod Chunks
pub mod Loop
pub mod Send
pub mod Stream
pub mod Reentry
mod Tests
use ednio.Prelude.{
  ℕ, zero, suc, ◌+◌, ◌-◌, min, List, [], ◌∷◌, ◌++◌, Bool, true, false, Option, none, some, ltb,
  ◌==◌, if◌then◌else◌, length, take, drop,
}

-- `ChunkInfo`, with the block that `data` points to.
pub record Chunk : Type 0 where
  pub data_block : Option (List ℕ)
  pub size : ℕ
  pub user : ℕ
  pub cur_cnt : ℕ
  pub allocated : Bool

pub record SocketChannel : Type 0 where
  pub max_chunk : ℕ
  -- `mCurChk`, `mChks`, `mFreeChks`
  pub cur : Option Chunk
  pub chks : List Chunk
  pub free_chks : List Chunk
  -- `getFd() >= 0`, and whether the write event is watched
  pub fd_open : Bool
  pub watches_write : Bool
  -- the bytes that the kernel has taken so far
  pub sent : List ℕ

pub data SrResult : Type 0 where
  sr_buf_full sr_complete sr_continue : SrResult

-- What `write` does with `n` bytes: an error, or it takes as many of them as there is room for.
pub data Room : Type 0 where
  room : ℕ → Room
  no_write : Room

-- `memset(chk, 0, sizeof(ChunkInfo))`.
abbrev pub zero_chunk : Chunk
zero_chunk = record { data_block = none; size = 0; user = 0; cur_cnt = 0; allocated = false }

-- The constructor and `init`; the socket is not open yet.
unfoldable pub zero_chunks : ℕ → List Chunk
zero_chunks zero = []
zero_chunks (suc n) = zero_chunk ∷ zero_chunks n

unfoldable pub init : ℕ → SocketChannel
unfolding zero_chunks
init maxchk = record {
  max_chunk = maxchk;
  cur = none;
  chks = [];
  free_chks = zero_chunks maxchk;
  fd_open = false;
  watches_write = false;
  sent = [];
}

-- The channel after `openSock` or `openChildSock` of EdSocket gave it a descriptor.
unfoldable pub open_channel : SocketChannel → SocketChannel
open_channel ch = record ch { fd_open = true }

-- The bytes of a chunk that are not yet written.
abbrev pub block_of : Option (List ℕ) → List ℕ
block_of none = []
block_of (some block) = block

abbrev pub remain_of : Chunk → List ℕ
remain_of c = take (c.size - c.cur_cnt) (drop c.cur_cnt (block_of c.data_block))

-- `tx` after `write` answers a count of `wcnt`.
unfoldable pub tx_count : ℕ → SocketChannel → Chunk → SrResult × SocketChannel
tx_count wcnt ch c =
    if wcnt == c.size - c.cur_cnt
    then (
      sr_complete,
      record ch {
        sent = ch.sent ++ take wcnt (remain_of c);
        cur = some record {
          data_block = if c.allocated then none else c.data_block;
          size = c.size;
          user = c.user;
          cur_cnt = c.cur_cnt + (c.size - c.cur_cnt);
          allocated = false;
        };
      },
    )
    else (if ltb 0 wcnt
        then (
          sr_continue,
          record ch {
            sent = ch.sent ++ take wcnt (remain_of c);
            cur = some record c { cur_cnt = c.cur_cnt + wcnt };
          },
        )
        else (sr_continue, ch))

-- `tx`, where `o` is the current chunk; without one it is a fault.
unfoldable pub tx_with : Room → SocketChannel → Option Chunk → Option (SrResult × SocketChannel)
unfolding tx_count
tx_with answer ch none = none
tx_with (room n) ch (some c) = some (tx_count (min n (c.size - c.cur_cnt)) ch c)
tx_with no_write ch (some c) = some (sr_continue, ch)

unfoldable pub tx : Room → SocketChannel → Option (SrResult × SocketChannel)
unfolding tx_with
tx answer ch = tx_with answer ch ch.cur

-- The new chunk of `sendPacket`.
abbrev pub new_chunk : List ℕ → ℕ → Bool → Chunk
new_chunk buf user takebuf = record {
  data_block = some buf;
  size = length buf;
  user = user;
  cur_cnt = 0;
  allocated = if takebuf then false else true;
}

-- `mFreeChks.push_back(mCurChk); mCurChk = NULL;`
abbrev pub push_free : Option Chunk → List Chunk → List Chunk
push_free none free = free
push_free (some c) free = free ++ c ∷ []

-- What `sendPacket` does after `tx`.
unfoldable pub after_tx : Option (SrResult × SocketChannel) → Option (SrResult × SocketChannel)
after_tx none = none
after_tx (some (sr_complete, ch)) =
    some (sr_complete, record ch { free_chks = push_free ch.cur ch.free_chks; cur = none })
after_tx (some (sr_continue, ch)) = some (sr_continue, record ch { watches_write = true })
after_tx (some (sr_buf_full, ch)) = some (sr_buf_full, record ch { watches_write = true })

-- `sendPacket` with a chunk taken from the free ones, where `o` is the current chunk.
unfoldable pub send_chunk :
    Room → SocketChannel → Chunk → Option Chunk → Option (SrResult × SocketChannel)
unfolding after_tx tx
send_chunk answer ch c (some _) = some (sr_continue, record ch { chks = ch.chks ++ c ∷ [] })
send_chunk answer ch c none = after_tx (tx answer (record ch { cur = some c }))

-- `sendPacket`, where `free` are the free chunks.
unfoldable pub send_free :
    Room → SocketChannel → List ℕ → ℕ → Bool → List Chunk → Option (SrResult × SocketChannel)
unfolding send_chunk
send_free answer ch buf user takebuf [] = some (sr_buf_full, ch)
send_free answer ch buf user takebuf (_ ∷ free) =
    send_chunk answer (record ch { free_chks = free }) (new_chunk buf user takebuf) ch.cur

unfoldable pub send_packet :
    Room → SocketChannel → List ℕ → ℕ → Bool → Option (SrResult × SocketChannel)
unfolding send_free
send_packet answer ch buf user takebuf = send_free answer ch buf user takebuf ch.free_chks

-- `OnWrite` after a chunk is complete, where `queued` are the chunks behind it: the new channel, and
-- whether the loop goes on.
unfoldable pub next_chunk : SocketChannel → List Chunk → SocketChannel × Bool
next_chunk ch [] = (
  record ch { free_chks = push_free ch.cur ch.free_chks; cur = none; watches_write = false },
  false,
)
next_chunk ch (c ∷ queued) =
    (record ch { free_chks = push_free ch.cur ch.free_chks; cur = some c; chks = queued }, true)

unfoldable pub finish_chunk : SocketChannel → SocketChannel × Bool
unfolding next_chunk
finish_chunk ch = if ch.fd_open then next_chunk ch ch.chks else (ch, true)

-- The user and the block of the chunk that is complete, which `OnTxComplete` passes on.
abbrev pub completed : Option Chunk → Option (List ℕ) × ℕ
completed none = (none, 0)
completed (some c) = (c.data_block, c.user)

-- `IOnSocketChannelBuffer`, with what it does to the channel.
abbrev pub ChannelCb : Type 0
ChannelCb = Option (List ℕ) × ℕ → SocketChannel → SocketChannel

-- The loop of `OnWrite`: `true` while `chk` is not NULL, one answer of the kernel a round, and none
-- left when it takes no more.
unfoldable pub write_loop : ChannelCb → List Room → SocketChannel → Bool → Option SocketChannel
unfolding tx finish_chunk
write_loop cb answers ch false = some ch
write_loop cb [] ch true = elim (tx no_write ch) [ none ↦ none | some r ↦ some r.1 ]
write_loop cb (a ∷ answers) ch true = elim (tx a ch) [
  | none ↦ none
  | some r ↦ elim r.0 [
    | sr_complete ↦
        write_loop cb answers (cb (completed r.1.cur) (finish_chunk r.1).0) (finish_chunk r.1).1
    | sr_continue ↦ some r.1
    | sr_buf_full ↦ some r.1
  ]
]

abbrev pub is_some : Option Chunk → Bool
is_some none = false
is_some (some _) = true

unfoldable pub on_write : ChannelCb → List Room → SocketChannel → Option SocketChannel
unfolding write_loop
on_write cb answers ch = write_loop cb answers ch (is_some ch.cur)

-- `closeChannel`.
unfoldable pub close_channel : SocketChannel → SocketChannel
close_channel ch = record ch {
  cur = none;
  chks = [];
  free_chks = [];
  fd_open = false;
  watches_write = false;
}

-- `isFull`.
unfoldable pub is_full : SocketChannel → Bool
is_full ch = elim ch.free_chks [ [] ↦ true | _ ∷ _ ↦ false ]
