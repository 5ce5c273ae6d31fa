-- ===== src/ByteBuffer/Put.antt =====
-- EdByteBuffer: the invariant, and what `put` and the operations on the whole buffer do to it.
use ednio.Prelude.{
  ℕ, ◌+◌, ◌%◌, ◌^◌, ◌≤◌, ◌≡◌, refl, ap, ap₂, ◌∙◌, List, ◌++◌, some, arith, ltb, ltb→lt, lt→ltb,
  if◌then◌else◌, Bool-cases, inl, inr, length, drop, tabulate, tabulate_ext, tabulate-append,
  tabulate-get_or, take_all, length-tabulate, get_or-tabulate, byte_at, copy_in_lem, splice,
  length-splice, byte_at-splice, add64,
}
use ednio.ByteBuffer.{ByteBuffer, realloc, reserve, make_room, put}
use ednio.ByteBuffer.Grow.{next_capacity_lem}

-- The largest sum of sizes that is considered.
abbrev pub max_total : ℕ
max_total = 2 ^ 62

pub record IsValid (b : ByteBuffer) : Type 0 where
  pub storage : length b.buf ≡ b.capacity
  pub size_in : b.size ≤ b.capacity
  pub read_in : b.read_pos ≤ b.size
  pub small : b.size ≤ max_total

-- The bytes put so far.
unfoldable pub stored : ByteBuffer → List ℕ
stored b = tabulate (byte_at b.buf) b.size

-- The bytes not read yet.
unfoldable pub unread : ByteBuffer → List ℕ
unfolding stored
unread b = drop b.read_pos (stored b)

pub length-stored : (b : ByteBuffer) → length (stored b) ≡ b.size
unfolding stored
length-stored b = length-tabulate _ _

module _ (junk : ℕ → ℕ) where
  -- A reallocation that does not shrink below the data keeps the data.
  pub reserve-stored :
      (b : ByteBuffer) (n : ℕ)
      → IsValid b
      → b.size ≤ n
      → IsValid (reserve junk b n) × (stored (reserve junk b n) ≡ stored b)
  unfolding reserve realloc stored
  reserve-stored b n v h = (
    record { storage = length-tabulate _ n; size_in = h; read_in = v.read_in; small = v.small },
    tabulate_ext _ (byte_at b.buf) b.size (λ i l.
        get_or-tabulate 0 n _ i (omega arith)
        ∙ ap (λ t. if t then byte_at b.buf i else junk i) (lt→ltb i _ (omega (arith, v.storage)))),
  )

  -- Room for `n` more bytes is made without touching the data.
  make_room_lem :
      (b : ByteBuffer) (n : ℕ)
      → IsValid b
      → b.size + n ≤ max_total
      → (room : ByteBuffer) × (make_room junk b n ≡ some room)
        × IsValid room
        × (stored room ≡ stored b)
        × (b.size + n ≤ room.capacity)
        × (room.size ≡ b.size)
        × (room.read_pos ≡ b.read_pos)
        × (room.order ≡ b.order)
  unfolding make_room reserve
  make_room_lem b n v h = elim (Bool-cases (ltb b.capacity (add64 b.size n))) [
    | inl more ↦
        let (t, e, l, _) =
          next_capacity_lem b.capacity (add64 b.size n) (ltb→lt _ _ more) (omega arith) in
        let (v', kept) = reserve-stored b t v (omega arith) in
        (reserve junk b t, rw (more, make_room, e), v', kept, omega arith, refl, refl, refl)
    | inr fits ↦ (b, rw (fits, make_room), v, refl, ground arith, refl, refl, refl)
  ]

  -- `put` never faults: it puts its bytes behind the data, grows the block when they do not fit,
  -- and leaves the read position and the byte order.
  pub put-stored :
      (b : ByteBuffer) (xs : List ℕ)
      → IsValid b
      → b.size + length xs ≤ 2 ^ 62
      → (b' : ByteBuffer) × (put junk b xs ≡ some (b'.size % 2 ^ 32, b'))
        × IsValid b'
        × (stored b' ≡ stored b ++ xs)
        × (b'.read_pos ≡ b.read_pos)
        × (b'.order ≡ b.order)
  unfolding put stored
  put-stored b xs v h =
      let (room, e, v', kept, enough, s, p, o) = make_room_lem b (length xs) v h in
      (
        record room { buf = splice room.buf room.size xs; size = add64 room.size (length xs) },
        rw (e, copy_in_lem room.buf room.size xs (omega (arith, v'.storage))),
        record {
          storage = length-splice room.buf room.size xs ∙ v'.storage;
          size_in = omega arith;
          read_in = omega (arith, v'.read_in);
          small = omega arith;
        },
        ap (tabulate (byte_at (splice room.buf room.size xs))) {y = room.size + length xs}
              (omega arith)
            ∙ tabulate-append (byte_at (splice room.buf room.size xs)) room.size (length xs)
            ∙ ap₂ ◌++◌
                (tabulate_ext _ (byte_at room.buf) room.size
                    (λ i l. ground (arith, v'.storage, byte_at-splice room.buf room.size xs i))
                  ∙ kept)
                (tabulate_ext _ (byte_at xs) (length xs) (λ i l.
                    ground
                      (arith, v'.storage, byte_at-splice room.buf room.size xs (room.size + i)))
                  ∙ tabulate-get_or 0 xs (length xs) (omega arith)
                  ∙ take_all (length xs) xs (omega arith)),
        p,
        o,
      )
