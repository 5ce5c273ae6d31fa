-- ===== src/ByteBuffer/Tests.antt =====
-- Runs of EdByteBuffer at concrete inputs.
use ednio.Prelude.{
  ℕ, ◌+◌, ◌%◌, ◌^◌, ◌≤◌, ◌<◌, ◌≡◌, refl, List, [], ◌∷◌, ◌++◌, true, some, arith, ◌>>=◌, copy_in,
  splice, add64,
}
use ednio.Prelude.Bytes.{le_bytes, from_be}
use ednio.ByteBuffer.{
  ByteBuffer, empty, put, make_room, next_capacity, double_up, reserve, realloc, remain, consume,
}
use ednio.ByteBuffer.Grow.{next_capacity_lem}
use ednio.ByteBuffer.Put.{IsValid, stored, unread, put-stored}
use ednio.ByteBuffer.Take.{consume_past_end}
use ednio.ByteBuffer.Numbers.{value, thrown, put16, get8, htons, get_num}
use ednio.ByteBuffer.Items.{Item, u8, u16, u32, u64, put_item}
use ednio.ByteBuffer.RoundTrip.{put_all, get_all, values, round_trip}
use ednio.ByteBuffer.Chars.{get_num_high_byte}

abbrev any_byte : ℕ → ℕ
any_byte i = 205

abbrev network : ByteBuffer
network = record empty { order = true }

-- The numbers of the unit test beside the source.
abbrev items : List Item
items = u32 0x11223344 ∷ u16 0x1122 ∷ u8 0xaa ∷ u64 0x1122334455667788 ∷ []

-- Four bytes, the first of which is read.
abbrev some_read : ByteBuffer
some_read = record network { size = 4; capacity = 4; read_pos = 1; buf = 7 ∷ 0x12 ∷ 0x83 ∷ 9 ∷ [] }

network-IsValid : IsValid network
network-IsValid = omega arith

some_read-IsValid : IsValid some_read
some_read-IsValid = omega arith

put_bytes :
    (put_item any_byte network (u16 0x1122) >>= λ (_, b). some b.buf)
    ≡ some (0x11 ∷ 0x22 ∷ 205 ∷ 205 ∷ [])
unfolding put_item put16 put make_room next_capacity double_up reserve realloc htons le_bytes
    from_be copy_in splice
put_bytes = refl

round_trip_example :
    (b' : ByteBuffer) × ((put_all any_byte network items >>= λ b1. get_all b1 items)
      ≡ some (values (0x11223344 ∷ 0x1122 ∷ 0xaa ∷ 0x1122334455667788 ∷ []) b'))
    × (remain b' ≡ 0)
    × (get8 b' ≡ some thrown)
unfolding unread
round_trip_example =
    round_trip any_byte network items network-IsValid refl (omega arith) (omega arith)

put-stored_example :
    (b' : ByteBuffer) × (put any_byte some_read (5 ∷ 6 ∷ []) ≡ some (b'.size % 2 ^ 32, b'))
    × IsValid b'
    × (stored b' ≡ stored some_read ++ 5 ∷ 6 ∷ [])
    × (b'.read_pos ≡ 1)
    × (b'.order ≡ true)
put-stored_example = put-stored any_byte some_read (5 ∷ 6 ∷ []) some_read-IsValid (omega arith)

next_capacity_lem_example : (t : ℕ) × (next_capacity 4 20000 ≡ some t) × (20000 ≤ t) × (t < 52768)
next_capacity_lem_example = next_capacity_lem 4 20000 (omega arith) (omega arith)

consume_past_end_example : remain (consume some_read 4) + 1 ≡ 2 ^ 64
consume_past_end_example =
    consume_past_end some_read 4 some_read-IsValid (omega arith) (omega arith)

get_num_high_byte_example :
    get_num 2 some_read ≡ some (value 0xff83 (record some_read { read_pos = add64 1 2 }))
unfolding unread
get_num_high_byte_example =
    get_num_high_byte some_read 0x12 3 (9 ∷ []) some_read-IsValid refl (omega arith) (omega arith)
      refl
