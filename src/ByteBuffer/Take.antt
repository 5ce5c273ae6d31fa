-- ===== src/ByteBuffer/Take.antt =====
-- EdByteBuffer: `remain`, `get` and `consume`, which move the read position.
use ednio.Prelude.{
  ℕ, ◌+◌, ◌-◌, ◌^◌, ◌≤◌, ◌<◌, min, ◌≡◌, sym, ap, ◌∙◌, some, arith, length, take, drop, drop-add,
  take-tabulate, drop-tabulate, take-min, drop-min, length-drop, tabulate, byte_at, copy_out_lem,
  add64,
}
use ednio.ByteBuffer.{ByteBuffer, remain, get, consume}
use ednio.ByteBuffer.Put.{IsValid, stored, unread, length-stored}

-- `remain` counts the bytes not read, without wrapping.
pub remain-length : (b : ByteBuffer) → IsValid b → remain b ≡ length (unread b)
unfolding remain unread
remain-length b v = omega (arith, length-drop b.read_pos (stored b), length-stored b)

-- The next `n` unread bytes, as they stand in the block.
pub next_bytes :
    (b : ByteBuffer) (n : ℕ)
    → IsValid b
    → b.read_pos + n ≤ b.size
    → tabulate (λ i. byte_at b.buf (b.read_pos + i)) n ≡ take n (unread b)
unfolding unread
next_bytes b n v h = sym (
    ap (take n) (drop-tabulate b.read_pos b.size (byte_at b.buf) v.read_in)
    ∙ take-tabulate n (b.size - b.read_pos) _ (omega arith))

-- A buffer whose read position has moved on by `n` unread bytes.
pub advance-IsValid :
    (b : ByteBuffer) (n : ℕ)
    → IsValid b
    → b.read_pos + n ≤ b.size
    → IsValid (record b { read_pos = add64 b.read_pos n })
advance-IsValid b n v h = record {
  storage = v.storage;
  size_in = v.size_in;
  read_in = omega (arith, v.small);
  small = v.small;
}

pub advance-unread :
    (b : ByteBuffer) (n : ℕ)
    → IsValid b
    → b.read_pos + n ≤ b.size
    → unread (record b { read_pos = add64 b.read_pos n }) ≡ drop n (unread b)
unfolding unread
advance-unread b n v h =
    ap (λ k. drop k (stored b)) {y = b.read_pos + n} (omega (arith, v.small, v.read_in))
    ∙ drop-add b.read_pos n (stored b)

-- `get` never faults: it hands over the next `count` unread bytes, or all there are, and leaves
-- the rest.
pub get-unread :
    (b : ByteBuffer) (count : ℕ)
    → IsValid b
    → (b' : ByteBuffer) × (get b count ≡ some (take count (unread b), b'))
      × IsValid b'
      × (unread b' ≡ drop count (unread b))
unfolding get remain
get-unread b count v = (
  record b { read_pos = add64 b.read_pos n },
  rw
      (
        copy_out_lem b.buf b.read_pos n (omega (arith, v.storage, v.size_in)),
        next_bytes b n v inside,
      )
      (ap (λ t. some (t, record b { read_pos = add64 b.read_pos n }))
        (ap (λ k. take k (unread b)) count_is ∙ take-min count (unread b))),
  advance-IsValid b n v inside,
  advance-unread b n v inside ∙ ap (λ k. drop k (unread b)) count_is ∙ drop-min count (unread b),
)
  where
    n : ℕ
    n = min count (remain b)

    inside : b.read_pos + n ≤ b.size
    inside = omega (arith, v.read_in, v.small, remain-length b v)

    count_is : n ≡ min count (length (unread b))
    count_is = ap (min count) (remain-length b v)

-- `consume` skips unread bytes, as long as there are so many.
pub consume_lem :
    (b : ByteBuffer) (n : ℕ)
    → IsValid b
    → n ≤ remain b
    → IsValid (consume b n) × (unread (consume b n) ≡ drop n (unread b))
unfolding consume remain
consume_lem b n v h =
    let all : min n b.size ≡ n = omega (arith, v.read_in, v.small) in
    let inside : b.read_pos + n ≤ b.size = omega (arith, v.read_in, v.small) in
    rw all (advance-IsValid b n v inside, advance-unread b n v inside)

-- It clamps to `mSize` and not to what remains: asked for all of the data after a read, it moves
-- past the end, and `remain` wraps round.
pub consume_past_end :
    (b : ByteBuffer) (n : ℕ)
    → IsValid b
    → b.size ≤ n
    → 0 < b.read_pos
    → remain (consume b n) + b.read_pos ≡ 2 ^ 64
unfolding consume remain
consume_past_end b n v h g = omega (arith, v.read_in, v.small)
