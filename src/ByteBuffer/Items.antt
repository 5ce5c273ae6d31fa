-- ===== src/ByteBuffer/Items.antt =====
-- EdByteBuffer: numbers written are read back, in both byte orders.
use ednio.Prelude.{
  ℕ, ◌+◌, ◌^◌, ◌≤◌, ◌<◌, ◌≡◌, refl, sym, ap, ◌∙◌, List, ◌++◌, Bool, true, false, Option, some,
  arith, lt→ltb, le→leb, if◌then◌else◌, length, length-append, take, drop, take-append, drop-append,
  copy_out, copy_out_lem, add64,
}
use ednio.Prelude.Bytes.{
  le_bytes, from_be, encode, length-encode, length-le_bytes, from_le-le_bytes, encode_one,
  le_bytes-swap, decode-encode,
}
use ednio.ByteBuffer.{ByteBuffer, put, remain}
use ednio.ByteBuffer.Put.{IsValid, unread}
use ednio.ByteBuffer.Take.{remain-length, next_bytes, advance-IsValid, advance-unread}
use ednio.ByteBuffer.Numbers.{
  Read, value, put8, put16, put32, put64, get8, get_bytes, get16, get32, get64, htons, htonl,
}

-- A number and the width at which it is written.
pub data Item : Type 0 where
  u8 u16 u32 u64 : ℕ → Item

abbrev pub width : Item → ℕ
width (u8 c) = 1
width (u16 c) = 2
width (u32 c) = 4
width (u64 c) = 8

abbrev pub number : Item → ℕ
number (u8 c) = c
number (u16 c) = c
number (u32 c) = c
number (u64 c) = c

abbrev pub Fits : Item → Type 0
Fits x = number x < 256 ^ width x

module _ (junk : ℕ → ℕ) where
  put_ordered :
      (o : Bool) (b : ByteBuffer) (n c : ℕ)
      → (if o then put junk b (le_bytes n (from_be (le_bytes n c))) else put junk b (le_bytes n c))
        ≡ put junk b (encode o n c)
  unfolding encode
  put_ordered true b n c = ap (put junk b) (le_bytes-swap n c)
  put_ordered false b n c = refl

  unfoldable pub put_item : ByteBuffer → Item → Option (ℕ × ByteBuffer)
  put_item b (u8 c) = put8 junk b c
  put_item b (u16 c) = put16 junk b c
  put_item b (u32 c) = put32 junk b c
  put_item b (u64 c) = put64 junk b c

  -- Each of the four writes puts the bytes of its number, in the order of the buffer.
  pub put_item-encode :
      (b : ByteBuffer) (x : Item) → put_item b x ≡ put junk b (encode b.order (width x) (number x))
  unfolding put_item put8 put16 put32 put64 htons htonl
  put_item-encode b (u8 c) = ap (put junk b) (sym (encode_one b.order c))
  put_item-encode b (u16 c) = put_ordered b.order b 2 c
  put_item-encode b (u32 c) = put_ordered b.order b 4 c
  put_item-encode b (u64 c) = put_ordered b.order b 8 c

-- The read that belongs to an item's width.
unfoldable pub get_item : ByteBuffer → Item → Option Read
get_item b (u8 c) = get8 b
get_item b (u16 c) = get16 b
get_item b (u32 c) = get32 b
get_item b (u64 c) = get64 b

-- A buffer whose unread bytes begin with `n` given bytes, then `rest`.
module _ (b : ByteBuffer) (n : ℕ) (xs rest : List ℕ) (v : IsValid b) (l : length xs ≡ n)
    (e : unread b ≡ xs ++ rest) where
  pub enough : n ≤ remain b
  enough = omega (arith, remain-length b v, ap length e, length-append xs rest)

  inside : b.read_pos + n ≤ b.size
  unfolding remain
  inside = omega (arith, enough, v.read_in, v.small)

  pub copied : copy_out b.buf b.read_pos n ≡ some xs
  copied =
      copy_out_lem b.buf b.read_pos n (omega (arith, inside, v.storage, v.size_in))
      ∙ ap some (next_bytes b n v inside ∙ ap (take n) e ∙ take-append n xs rest l)

  left : unread (record b { read_pos = add64 b.read_pos n }) ≡ rest
  left = advance-unread b n v inside ∙ ap (drop n) e ∙ drop-append n xs rest l

  after-IsValid : IsValid (record b { read_pos = add64 b.read_pos n })
  after-IsValid = advance-IsValid b n v inside

-- Where the unread bytes begin with those of a number, its read gives the number and leaves the
-- rest.
get_bytes_lem :
    (b : ByteBuffer) (n c : ℕ) (rest : List ℕ)
    → IsValid b
    → c < 256 ^ n
    → unread b ≡ encode b.order n c ++ rest
    → (b' : ByteBuffer) × (get_bytes n b ≡ some (value c b'))
      × IsValid b'
      × (unread b' ≡ rest)
      × (b'.order ≡ b.order)
unfolding get_bytes
get_bytes_lem b n c rest v f e =
    let xs = encode b.order n c in
    let l = length-encode b.order n c in
    (
      record b { read_pos = add64 b.read_pos n },
      rw (
        le→leb n (remain b) (enough b n xs rest v l e),
        copied b n xs rest v l e,
        decode-encode b.order n c f,
      ),
      after-IsValid b n xs rest v l e,
      left b n xs rest v l e,
      refl,
    )

get8_lem :
    (b : ByteBuffer) (c : ℕ) (rest : List ℕ)
    → IsValid b
    → c < 256 ^ 1
    → unread b ≡ encode b.order 1 c ++ rest
    → (b' : ByteBuffer) × (get8 b ≡ some (value c b'))
      × IsValid b'
      × (unread b' ≡ rest)
      × (b'.order ≡ b.order)
unfolding get8
get8_lem b c rest v f e =
    let l = length-le_bytes 1 c in
    let e' = e ∙ ap (λ t. t ++ rest) (encode_one b.order c) in
    (
      record b { read_pos = add64 b.read_pos 1 },
      rw (
        lt→ltb b.read_pos b.size (omega (arith, inside b 1 (le_bytes 1 c) rest v l e')),
        copied b 1 (le_bytes 1 c) rest v l e',
        from_le-le_bytes 1 c f,
      ),
      after-IsValid b 1 (le_bytes 1 c) rest v l e',
      left b 1 (le_bytes 1 c) rest v l e',
      refl,
    )

-- The same for each of the four reads.
pub get_item_lem :
    (b : ByteBuffer) (x : Item) (rest : List ℕ)
    → IsValid b
    → Fits x
    → unread b ≡ encode b.order (width x) (number x) ++ rest
    → (b' : ByteBuffer) × (get_item b x ≡ some (value (number x) b'))
      × IsValid b'
      × (unread b' ≡ rest)
      × (b'.order ≡ b.order)
unfolding get_item
get_item_lem b (u8 c) rest v f e = get8_lem b c rest v f e
get_item_lem b (u16 c) rest v f e = get_bytes_lem b 2 c rest v f e
get_item_lem b (u32 c) rest v f e = get_bytes_lem b 4 c rest v f e
get_item_lem b (u64 c) rest v f e = get_bytes_lem b 8 c rest v f e
