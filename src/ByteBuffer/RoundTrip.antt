-- ===== src/ByteBuffer/RoundTrip.antt =====
-- EdByteBuffer: any sequence of typed writes is read back by the reads of the same widths.
use ednio.Prelude.{
  ℕ, ◌+◌, ◌%◌, ◌^◌, ◌≤◌, ◌≡◌, refl, sym, ap, ◌∙◌, List, [], ◌∷◌, ◌++◌, Bool, false, Option, some,
  arith, ◌>>=◌, ltb, append_assoc, append-nil, length, length-append, drop_within, map,
}
use ednio.Prelude.Bytes.{encode, length-encode}
use ednio.ByteBuffer.{ByteBuffer, remain}
use ednio.ByteBuffer.Put.{IsValid, stored, unread, length-stored, put-stored}
use ednio.ByteBuffer.Take.{remain-length}
use ednio.ByteBuffer.Numbers.{value, thrown, get8}
use ednio.ByteBuffer.Items.{
  Item, width, number, Fits, put_item, put_item-encode, get_item, get_item_lem,
}

abbrev pub AllFit : List Item → Type 0
AllFit [] = Unit {0}
AllFit (x ∷ xs) = Fits x × AllFit xs

abbrev pub total_width : List Item → ℕ
total_width [] = 0
total_width (x ∷ xs) = width x + total_width xs

abbrev encode_all : Bool → List Item → List ℕ
encode_all o [] = []
encode_all o (x ∷ xs) = encode o (width x) (number x) ++ encode_all o xs

-- The writes, one after the other.
unfoldable pub put_all : (ℕ → ℕ) → ByteBuffer → List Item → Option ByteBuffer
put_all junk b [] = some b
put_all junk b (x ∷ xs) = put_item junk b x >>= λ (_, b'). put_all junk b' xs

-- What a row of reads gives: the values, and the buffer left; or an exception.
pub data Row : Type 0 where
  values : List ℕ → ByteBuffer → Row
  stopped : Row

unfoldable pub cons_row : ℕ → Row → Row
cons_row c (values cs b) = values (c ∷ cs) b
cons_row c stopped = stopped

-- The reads, each at the width of its item.
unfoldable pub get_all : ByteBuffer → List Item → Option Row
get_all b [] = some (values [] b)
get_all b (x ∷ xs) = get_item b x >>= λ r. elim r [
  | value c b' ↦ get_all b' xs >>= λ row. some (cons_row c row)
  | thrown ↦ some stopped
]

module _ (junk : ℕ → ℕ) where
  put_item_lem :
      (b : ByteBuffer) (x : Item)
      → IsValid b
      → b.size + width x ≤ 2 ^ 62
      → (b' : ByteBuffer) × (put_item junk b x ≡ some (b'.size % 2 ^ 32, b'))
        × IsValid b'
        × (unread b' ≡ unread b ++ encode b.order (width x) (number x))
        × (b'.order ≡ b.order)
        × (b'.size ≡ b.size + width x)
  unfolding unread
  put_item_lem b x v h =
      let bytes = encode b.order (width x) (number x) in
      let l = length-encode b.order (width x) (number x) in
      let (b', e, v', s, p, o) = put-stored junk b bytes v (omega arith) in
      (
        b',
        rw (put_item-encode junk b x) e,
        v',
        rw (p, s)
            (drop_within b.read_pos (stored b) bytes (omega (arith, length-stored b, v.read_in))),
        o,
        omega
            (arith, length-stored b, length-stored b', ap length s, length-append (stored b) bytes),
      )

  put_all_lem :
      (b : ByteBuffer) (xs : List Item)
      → IsValid b
      → b.size + total_width xs ≤ 2 ^ 62
      → (b' : ByteBuffer) × (put_all junk b xs ≡ some b')
        × IsValid b'
        × (unread b' ≡ unread b ++ encode_all b.order xs)
        × (b'.order ≡ b.order)
  unfolding put_all
  put_all_lem b [] v h = (b, refl, v, sym (append-nil (unread b)), refl)
  put_all_lem b (x ∷ xs) v h =
      let (b1, e, v1, u, o, s) = put_item_lem b x v (omega arith) in
      let (b2, e2, v2, u2, o2) = put_all_lem b1 xs v1 (omega arith) in
      (b2, rw (e, e2), v2, rw (u2, u, o) (append_assoc (unread b) _ _), o2 ∙ o)

get_all_lem :
    (b : ByteBuffer) (xs : List Item) (rest : List ℕ)
    → IsValid b
    → AllFit xs
    → unread b ≡ encode_all b.order xs ++ rest
    → (b' : ByteBuffer) × (get_all b xs ≡ some (values (map number xs) b'))
      × IsValid b'
      × (unread b' ≡ rest)
unfolding get_all cons_row
get_all_lem b [] rest v f e = (b, refl, v, e)
get_all_lem b (x ∷ xs) rest v f e =
    let (b1, g, v1, u, o) =
      get_item_lem b x (encode_all b.order xs ++ rest) v f.0
        (e ∙ append_assoc (encode b.order (width x) (number x)) (encode_all b.order xs) rest) in
    let (b2, g2, v2, u2) =
      get_all_lem b1 xs rest v1 f.1 (u ∙ ap (λ t. encode_all t xs ++ rest) (sym o)) in
    (b2, rw (g, g2), v2, u2)

not_below : (m n : ℕ) → n ≤ m → ltb m n ≡ false
not_below m n h = ground arith

-- Nothing is left to read: every read throws.
drained : (b : ByteBuffer) → IsValid b → unread b ≡ [] → (remain b ≡ 0) × (get8 b ≡ some thrown)
unfolding get8 remain
drained b v e =
    let none_left : b.size ≡ b.read_pos =
      omega (arith, remain-length b v, ap length e, v.read_in, v.small) in
    (omega arith, rw (not_below b.read_pos b.size (omega arith)))

-- Any sequence of numbers written to a buffer with nothing left to read is read back by the reads
-- of the same widths, whatever the byte order. No write or read faults or throws. Afterwards
-- nothing remains, and a further read throws.
pub round_trip :
    (junk : ℕ → ℕ) (b : ByteBuffer) (xs : List Item)
    → IsValid b
    → unread b ≡ []
    → AllFit xs
    → b.size + total_width xs ≤ 2 ^ 62
    → (b' : ByteBuffer) × ((put_all junk b xs >>= λ b1. get_all b1 xs)
        ≡ some (values (map number xs) b'))
      × (remain b' ≡ 0)
      × (get8 b' ≡ some thrown)
round_trip junk b xs v e f h =
    let (b1, p, v1, u, o) = put_all_lem junk b xs v h in
    let (b2, g, v2, u2) = get_all_lem b1 xs [] v1 f (
      u
      ∙ ap (λ t. t ++ encode_all b.order xs) e
      ∙ ap (λ t. encode_all t xs) (sym o)
      ∙ sym (append-nil (encode_all b1.order xs))) in
    let (r, t) = drained b2 v2 u2 in (b2, rw (p, g), r, t)
