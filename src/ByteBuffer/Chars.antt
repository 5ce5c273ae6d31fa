-- ===== src/ByteBuffer/Chars.antt =====
-- EdByteBuffer::getNum in network order: it reads the bytes as signed `char`, so the sign of a low
-- byte overwrites the bytes above it.

use ednio.Prelude.{
  ℕ, zero, suc, ◌+◌, ◌<◌, ◌≡◌, refl, List, [], ◌∷◌, Bool, true, some, arith, ◌==◌, ==_iff, ◌&&◌,
  le→leb, add64,
}
use ednio.ByteBuffer.{ByteBuffer, remain}
use ednio.ByteBuffer.Put.{IsValid, unread}
use ednio.ByteBuffer.Numbers.{value, get_num, or_chars, widen}
use ednio.ByteBuffer.Items.{enough, copied}

-- Over a small range, check every value by evaluation.
all_below : ℕ → (ℕ → Bool) → Bool
all_below zero p = true
all_below (suc n) p = p n && all_below n p

all_below-at : (n : ℕ) (p : ℕ → Bool) (x : ℕ) → all_below n p ≡ true → x < n → p x ≡ true
unfolding all_below
all_below-at zero p x h lt = absurd (omega arith)
all_below-at (suc n) p x h lt = ground (arith, all_below-at n p x)

chars_table :
    all_below 256
      (λ hi. all_below 128 (λ lo. or_chars 2 0 (hi ∷ (lo + 128) ∷ []) == 65280 + (lo + 128)))
    ≡ true
unfolding all_below or_chars widen
chars_table = refl

or_chars_high :
    (hi lo : ℕ) → hi < 256 → lo < 128 → or_chars 2 0 (hi ∷ (lo + 128) ∷ []) ≡ 65280 + (lo + 128)
or_chars_high hi lo h g = (==_iff _ _).0 (
    all_below-at 128 (λ k. or_chars 2 0 (hi ∷ (k + 128) ∷ []) == 65280 + (k + 128)) lo
      (all_below-at 256 _ hi chars_table h) g)

-- In network order, a 16-bit number whose low byte is 128 or more is read by `getNum` with 0xff
-- for its high byte, whatever that byte was.
pub get_num_high_byte :
    (b : ByteBuffer) (hi lo : ℕ) (rest : List ℕ)
    → IsValid b
    → b.order ≡ true
    → hi < 256
    → lo < 128
    → unread b ≡ hi ∷ (lo + 128) ∷ rest
    → get_num 2 b ≡ some (value (65280 + (lo + 128)) (record b { read_pos = add64 b.read_pos 2 }))
unfolding get_num
get_num_high_byte b hi lo rest v o h g e = rw (
  le→leb 2 (remain b) (enough b 2 (hi ∷ (lo + 128) ∷ []) rest v refl e),
  copied b 2 (hi ∷ (lo + 128) ∷ []) rest v refl e,
  o,
  or_chars_high hi lo h g,
)
