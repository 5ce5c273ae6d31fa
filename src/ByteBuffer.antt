-- ===== src/ByteBuffer.antt =====
-- EdByteBuffer (ednio/EdByteBuffer.cpp and .h): a growing byte buffer with a read position and
-- typed reads and writes in host or network order. The host is little-endian, `size_t` has 64
-- bits, and the program's allocations succeed, as its code takes for granted. `none` is a copy
-- outside the block. A null `mBuf` is the empty block.
pub mod Numbers
pub mod Grow
pub mod Put
pub mod Take
pub mod Items
pub mod RoundTrip
pub mod Chars
mod Tests
use ednio.Prelude.{
  ℕ, zero, suc, ◌+◌, ◌-◌, ◌*◌, ◌/◌, ◌%◌, ◌^◌, min, List, [], Bool, true, false, not, Option, none,
  some, ltb, leb, ◌==◌, ◌&&◌, if◌then◌else◌, ◌>>=◌, length, tabulate, byte_at, copy_in, copy_out,
  add64, sub64,
}
use ednio.Prelude.Bytes.{le_bytes, from_le, from_be}

pub record ByteBuffer : Type 0 where
  pub size : ℕ
  pub capacity : ℕ
  pub read_pos : ℕ
  pub buf : List ℕ
  -- `mErr == -1`
  pub err : Bool
  -- `mOrder`: network order
  pub order : Bool

-- The constructor.
abbrev pub empty : ByteBuffer
empty = record { size = 0; capacity = 0; read_pos = 0; buf = []; err = false; order = false }

-- The move assignment `*this = move(other)` between two objects: this one and the other, after it.
unfoldable pub move_from : ByteBuffer → ByteBuffer × ByteBuffer
move_from other = (other, empty)

-- `realloc(p, n)`: the old bytes, as far as they fit, and then any bytes, `junk`.
unfoldable pub realloc : (ℕ → ℕ) → List ℕ → ℕ → List ℕ
realloc junk buf n = tabulate (λ i. if ltb i (length buf) then byte_at buf i else junk i) n

unfoldable pub reserve : (ℕ → ℕ) → ByteBuffer → ℕ → ByteBuffer
reserve junk b n = record b { buf = realloc junk b.buf n; capacity = n }

unfoldable pub enlarge : (ℕ → ℕ) → ByteBuffer → ℕ → ByteBuffer
enlarge junk b n = reserve junk b (add64 b.capacity n)

-- `for (; t < need && t < 16 * 1024; t *= 2);` with fuel; `none` means that the fuel ran out.
unfoldable pub double_up : ℕ → ℕ → ℕ → Option ℕ
double_up zero need t = none
double_up (suc fuel) need t = elim (ltb t need && ltb t 16384) [
  | true ↦ double_up fuel need (t * 2 % 2 ^ 64)
  | false ↦ some t
]

-- The capacity that `put` asks for when `need` bytes do not fit.
unfoldable pub next_capacity : ℕ → ℕ → Option ℕ
next_capacity capacity need = do
  t ← double_up 16384 need (if capacity == 0 then 4 else capacity)
  some (if ltb t need then (need / 128 + need % 128) * 128 % 2 ^ 64 else t)

-- The block of `put`, grown if the bytes do not fit.
unfoldable pub make_room : (ℕ → ℕ) → ByteBuffer → ℕ → Option ByteBuffer
make_room junk b n =
    if ltb b.capacity (add64 b.size n)
    then (do t ← next_capacity b.capacity (add64 b.size n); some (reserve junk b t))
    else some b

-- `put(buf, size)`, where `xs` are the bytes at `buf`. The result is the bit pattern of the `int`
-- that it returns.
unfoldable pub put : (ℕ → ℕ) → ByteBuffer → List ℕ → Option (ℕ × ByteBuffer)
put junk b xs = do
  room ← make_room junk b (length xs)
  block ← copy_in room.buf room.size xs
  let total = add64 room.size (length xs)
  some (total % 2 ^ 32, record room { buf = block; size = total })

unfoldable pub rewind : ByteBuffer → ByteBuffer
rewind b = record b { read_pos = 0 }

unfoldable pub remain : ByteBuffer → ℕ
remain b = sub64 b.size b.read_pos

unfoldable pub clear : ByteBuffer → ByteBuffer
clear b = record b { size = 0; read_pos = 0 }

unfoldable pub consume : ByteBuffer → ℕ → ByteBuffer
consume b len = record b { read_pos = add64 b.read_pos (min len b.size) }

-- `get(buf, count)`: the bytes copied out; their number is the result.
unfoldable pub get : ByteBuffer → ℕ → Option (List ℕ × ByteBuffer)
get b count = do
  let s = min count (sub64 b.size b.read_pos)
  bytes ← copy_out b.buf b.read_pos s
  some (bytes, record b { read_pos = add64 b.read_pos s })

-- `release`: the block handed over, and the buffer left.
unfoldable pub release : ByteBuffer → List ℕ × ByteBuffer
release b = (b.buf, record b { buf = []; capacity = 0; size = 0; read_pos = 0 })

unfoldable pub take_buffer : ByteBuffer → List ℕ → ℕ → ℕ → ByteBuffer
take_buffer b block datasize cap = record b {
  buf = block;
  read_pos = 0;
  capacity = cap;
  size = datasize;
}

unfoldable pub set_order : ByteBuffer → ℕ → ByteBuffer
set_order b o = record b { order = not (o == 0) }
