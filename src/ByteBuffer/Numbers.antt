-- ===== src/ByteBuffer/Numbers.antt =====
-- EdByteBuffer: the typed reads and writes, of 8, 16, 32 and 64 bits, in host or network order,
-- and the header's templates `get<T>`, `getNum<T>` and `putNum<T>` at an unsigned `T` of `n` bytes.
use Prim.Native.Nat.{bit_or}
use ednio.Prelude.{
  ℕ, ◌+◌, ◌-◌, ◌*◌, ◌%◌, ◌^◌, List, [], ◌∷◌, true, false, Option, some, ltb, leb, if◌then◌else◌,
  ◌>>=◌, copy_out, add64, length,
}
use ednio.Prelude.Bytes.{le_bytes, from_le, from_be}
use ednio.ByteBuffer.{ByteBuffer, put, remain}

-- A read that checks: a value and the buffer left, or the exception of `throw 1`.
pub data Read : Type 0 where
  value : ℕ → ByteBuffer → Read
  thrown : Read

-- `htons` and `htonl` on a little-endian host: the number whose bytes stand the other way round.
unfoldable pub htons : ℕ → ℕ
htons c = from_be (le_bytes 2 c)

unfoldable pub htonl : ℕ → ℕ
htonl c = from_be (le_bytes 4 c)

module _ (junk : ℕ → ℕ) where
  unfoldable pub put8 : ByteBuffer → ℕ → Option (ℕ × ByteBuffer)
  put8 b c = put junk b (le_bytes 1 c)

  unfoldable pub put16 : ByteBuffer → ℕ → Option (ℕ × ByteBuffer)
  unfolding htons
  put16 b c = if b.order then put junk b (le_bytes 2 (htons c)) else put junk b (le_bytes 2 c)

  unfoldable pub put32 : ByteBuffer → ℕ → Option (ℕ × ByteBuffer)
  unfolding htonl
  put32 b c = if b.order then put junk b (le_bytes 4 (htonl c)) else put junk b (le_bytes 4 c)

  unfoldable pub put64 : ByteBuffer → ℕ → Option (ℕ × ByteBuffer)
  put64 b c =
      if b.order
      then put junk b (le_bytes 8 (from_be (le_bytes 8 c)))
      else put junk b (le_bytes 8 c)

unfoldable pub get8 : ByteBuffer → Option Read
get8 b =
    if ltb b.read_pos b.size
    then (do
      bytes ← copy_out b.buf b.read_pos 1
      some (value (from_le bytes) (record b { read_pos = add64 b.read_pos 1 })))
    else some thrown

-- The body that `get16`, `get32` and `get64` share, at 2, 4 and 8 bytes.
unfoldable pub get_bytes : ℕ → ByteBuffer → Option Read
get_bytes n b =
    if leb n (remain b)
    then (do
      bytes ← copy_out b.buf b.read_pos n
      some (
          value (if b.order then from_be bytes else from_le bytes)
            (record b { read_pos = add64 b.read_pos n })))
    else some thrown

abbrev pub get16 : ByteBuffer → Option Read
get16 = get_bytes 2

abbrev pub get32 : ByteBuffer → Option Read
get32 = get_bytes 4

abbrev pub get64 : ByteBuffer → Option Read
get64 = get_bytes 8

-- `get<T>`: it reports a short buffer through `mErr`.
unfoldable pub get_raw : ℕ → ByteBuffer → Option (ℕ × ByteBuffer)
get_raw n b = if ltb (remain b) n then some (0, record b { err = true }) else (do
  bytes ← copy_out b.buf b.read_pos n
  some (from_le bytes, record b { read_pos = add64 b.read_pos n; err = false }))

-- `(T) ptr[i]` for a signed `char`: the sign goes into the bytes above.
unfoldable pub widen : ℕ → ℕ → ℕ
widen n b = if ltb b 128 then b else b + (256 ^ n - 256)

-- `ret |= ((T)(ptr[i])) << (bn - 1 - i) * 8`, for the bytes from `ptr[i]` on.
unfoldable pub or_chars : ℕ → ℕ → List ℕ → ℕ
or_chars n ret [] = ret
or_chars n ret (b ∷ bs) = or_chars n (bit_or ret (widen n b * 256 ^ length bs % 256 ^ n)) bs

-- `getNum<T>`.
unfoldable pub get_num : ℕ → ByteBuffer → Option Read
unfolding or_chars widen
get_num n b =
    if leb n (remain b)
    then (do
      bytes ← copy_out b.buf b.read_pos n
      some (
          value (if b.order then or_chars n 0 bytes else from_le bytes)
            (record b { read_pos = add64 b.read_pos n })))
    else some thrown

-- `putNum<T>`: its loop reads the bytes as `unsigned char`.
unfoldable pub put_num : (ℕ → ℕ) → ℕ → ByteBuffer → ℕ → Option (ℕ × ByteBuffer)
put_num junk n b v =
    if b.order then put junk b (le_bytes n (from_be (le_bytes n v))) else put junk b (le_bytes n v)
