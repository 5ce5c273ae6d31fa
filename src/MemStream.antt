-- ===== src/MemStream.antt =====
-- EdMemReader and EdMemStreamWriter (ednio/EdMemReader.cpp, ednio/EdMemStreamWriter.cpp): reading
-- from a block of memory and writing into one.
pub mod Reads
pub mod Writes
mod Tests
use ednio.Prelude.{
  ℕ, ◌+◌, ◌-◌, min, List, [], Option, none, some, ltb, if◌then◌else◌, take, copy_out, copy_in,
}

pub record MemReader : Type 0 where
  -- the block that `mBuf` points to, and `mSize`
  pub buf : List ℕ
  pub size : ℕ
  pub read_cnt : ℕ

-- `setBuffer`.
unfoldable pub set_buffer : List ℕ → ℕ → MemReader
set_buffer block bsize = record { buf = block; size = bsize; read_cnt = 0 }

-- `EdMemReader::remain`.
unfoldable pub left_to_read : MemReader → ℕ
left_to_read r = r.size - r.read_cnt

-- `memcpy` and the new position, unless the copy is a fault.
unfoldable pub took : MemReader → ℕ → Option (List ℕ) → Option (List ℕ × MemReader)
took r rcnt none = none
took r rcnt (some bytes) = some (bytes, record r { read_cnt = r.read_cnt + rcnt })

-- `EdMemReader::read`: the bytes copied, which are as many as the count that it returns.
unfoldable pub read : MemReader → ℕ → Option (List ℕ × MemReader)
unfolding left_to_read took
read r bufsize =
    let rcnt = min bufsize (left_to_read r) in
    if ltb 0 rcnt then took r rcnt (copy_out r.buf r.read_cnt rcnt) else some ([], r)

pub record MemStreamWriter : Type 0 where
  -- the memory of `mVecBuf`, up to its capacity
  pub vec_buf : List ℕ
  pub capacity : ℕ
  pub write_pos : ℕ

-- `EdMemStreamWriter::remain`.
unfoldable pub left_to_write : MemStreamWriter → ℕ
left_to_write w = w.capacity - w.write_pos

unfoldable pub laid : MemStreamWriter → ℕ → Option (List ℕ) → Option (ℕ × MemStreamWriter)
laid w wcnt none = none
laid w wcnt (some block) = some (wcnt, record w { vec_buf = block })

-- `EdMemStreamWriter::write` of the first `len` bytes of `bytes`, with the count that it returns.
unfoldable pub write : MemStreamWriter → List ℕ → ℕ → Option (ℕ × MemStreamWriter)
unfolding left_to_write laid
write w bytes len =
    let wcnt = min len (left_to_write w) in
    laid w wcnt (copy_in w.vec_buf w.write_pos (take wcnt bytes))
