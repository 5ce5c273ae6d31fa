-- ===== src/Ring.antt =====
-- EdRingQue (ednio/EdRingQue.cpp): a byte queue over a malloc'ed block, with peeking.
-- Sizes are the non-negative `int` values. An operation is `none` where the code would copy
-- outside a block or overflow an `int`. The mutex that the class inherits is not modelled.
pub mod Cycle
pub mod Inv
pub mod Fifo
pub mod Peek
mod Tests
use ednio.Prelude.{
  ℕ, ◌-◌, ◌%◌, ◌^◌, List, [], ◌++◌, Option, none, some, ltb, if◌then◌else◌, ◌>>=◌, int_add, length,
  take, drop, tabulate, copy_out, copy_in,
}

pub record RingQue : Type 0 where
  pub buf : List ℕ
  pub read_pos : ℕ
  pub write_pos : ℕ
  pub buf_size : ℕ
  pub data_size : ℕ
  pub last_peek_pos : ℕ
  pub last_peek_data_size : ℕ

-- `ESMIN`.
unfoldable pub es_min : ℕ → ℕ → ℕ
es_min a b = if ltb a b then a else b

-- The constructor. `malloc` returns a block of `bufsize` bytes, of any contents `junk`.
pub create : (ℕ → ℕ) → ℕ → RingQue
create junk bufsize = record {
  buf = tabulate junk bufsize;
  read_pos = 0;
  write_pos = 0;
  buf_size = bufsize;
  data_size = 0;
  last_peek_pos = 0;
  last_peek_data_size = 0;
}

-- `if (rdsize > 0) { memcpy(ptr, mBuf, rdsize); readpos += rdsize; }`
unfoldable pub read_rest : RingQue → ℕ → ℕ → Option (List ℕ)
read_rest r readpos rdsize =
    if ltb 0 rdsize
    then (do bytes ← copy_out r.buf 0 rdsize; _ ← int_add readpos rdsize; some bytes)
    else some []

-- `readPos`: the bytes written to the caller's buffer; their number is the result.
pub read_at : RingQue → ℕ → ℕ → ℕ → Option (List ℕ)
read_at r size readpos datasize = do
  let rdsize = es_min size datasize
  let c = es_min rdsize (r.buf_size - readpos)
  first ← copy_out r.buf readpos c
  next ← int_add readpos c
  rest ← read_rest r (next % r.buf_size) (rdsize - c)
  some (first ++ rest)

pub get : RingQue → ℕ → Option (List ℕ × RingQue)
get r size = do
  bytes ← read_at r size r.read_pos r.data_size
  next ← int_add r.read_pos (length bytes)
  some (bytes, record r { read_pos = next % r.buf_size; data_size = r.data_size - length bytes })

pub peek : RingQue → ℕ → Option (List ℕ × RingQue)
peek r size = do
  bytes ← read_at r size r.read_pos r.data_size
  next ← int_add r.read_pos (length bytes)
  some (
    bytes,
    record r {
      last_peek_pos = next % r.buf_size;
      last_peek_data_size = r.data_size - length bytes;
    },
  )

pub peek_next : RingQue → ℕ → Option (List ℕ × RingQue)
peek_next r size = do
  bytes ← read_at r size r.last_peek_pos r.last_peek_data_size
  next ← int_add r.last_peek_pos (length bytes)
  some (
    bytes,
    record r {
      last_peek_pos = next % r.buf_size;
      last_peek_data_size = r.last_peek_data_size - length bytes;
    },
  )

-- `if (wsize > 0) { memcpy(mBuf, ptr, wsize); mWritePos += wsize; }`
unfoldable pub write_rest : List ℕ → ℕ → List ℕ → ℕ → Option (List ℕ × ℕ)
write_rest buf writepos xs wsize =
    if ltb 0 wsize
    then (do buf' ← copy_in buf 0 (take wsize xs); pos ← int_add writepos wsize; some (buf', pos))
    else some (buf, writepos)

-- `put(buf, size)`, where `xs` are the `size` bytes at `buf`: the number of bytes stored.
pub put : RingQue → List ℕ → Option (ℕ × RingQue)
put r xs = do
  let wsize = es_min (length xs) (r.buf_size - r.data_size)
  let c = es_min wsize (r.buf_size - r.write_pos)
  buf' ← copy_in r.buf r.write_pos (take c xs)
  next ← int_add r.write_pos c
  (buf'', pos) ← write_rest buf' (next % r.buf_size) (drop c xs) (wsize - c)
  total ← int_add r.data_size wsize
  some (wsize, record r { buf = buf''; write_pos = pos; data_size = total })

pub get_data_size : RingQue → ℕ
get_data_size r = r.data_size

pub get_free_size : RingQue → ℕ
get_free_size r = r.buf_size - r.data_size
