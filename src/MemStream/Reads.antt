-- ===== src/MemStream/Reads.antt =====
-- EdMemReader: any reads hand over the block in order.
use ednio.Prelude.{
  ℕ, ◌+◌, ◌-◌, ◌≤◌, ◌≡◌, sym, ap, ap₂, ◌∙◌, min, List, [], ◌∷◌, ◌++◌, Option, none, some, arith,
  ltb, length, take, drop, drop-add, copy_out_lem, tabulate, byte_at, Bool-cases, inl, inr,
  get_or-drop, tabulate_ext, tabulate-get_or, length-drop, take-min, take-add, drop-min,
}
use ednio.MemStream.{MemReader, left_to_read, took, read}

unfoldable pub joined : List ℕ → Option (List ℕ × MemReader) → Option (List ℕ × MemReader)
joined bytes none = none
joined bytes (some u) = some (bytes ++ u.0, u.1)

unfoldable pub after_read :
    Option (List ℕ × MemReader)
    → (MemReader → Option (List ℕ × MemReader))
    → Option (List ℕ × MemReader)
unfolding joined
after_read none rest = none
after_read (some t) rest = joined t.0 (rest t.1)

-- The reads with buffers of the sizes given, one after the other, with what they hand over joined.
unfoldable pub reads : MemReader → List ℕ → Option (List ℕ × MemReader)
unfolding read after_read
reads r [] = some ([], r)
reads r (n ∷ sizes) = after_read (read r n) (λ r'. reads r' sizes)

-- The position is within the block, which has the size noted.
unfoldable pub IsWithin : MemReader → Type 0
IsWithin r = (r.size ≡ length r.buf) × (r.read_cnt ≤ r.size)

rest_length : (r : MemReader) → IsWithin r → r.size - r.read_cnt ≡ length (drop r.read_cnt r.buf)
unfolding IsWithin
rest_length r (z, h) = omega (arith, length-drop r.read_cnt r.buf)

bytes_lem :
    (r : MemReader) (n : ℕ)
    → IsWithin r
    → take (min n (r.size - r.read_cnt)) (drop r.read_cnt r.buf) ≡ take n (drop r.read_cnt r.buf)
bytes_lem r n i =
    ap (λ k. take (min n k) (drop r.read_cnt r.buf)) (rest_length r i)
    ∙ take-min n (drop r.read_cnt r.buf)

copied :
    (r : MemReader) (n : ℕ)
    → IsWithin r
    → tabulate (λ i. byte_at r.buf (r.read_cnt + i)) (min n (r.size - r.read_cnt))
      ≡ take n (drop r.read_cnt r.buf)
copied r n i =
    tabulate_ext (λ i. byte_at r.buf (r.read_cnt + i)) (λ i. byte_at (drop r.read_cnt r.buf) i) _
      (λ k _. sym (get_or-drop 0 r.read_cnt r.buf k))
    ∙ tabulate-get_or 0 (drop r.read_cnt r.buf) (min n (r.size - r.read_cnt))
        (omega (arith, rest_length r i))
    ∙ bytes_lem r n i

-- A read on a reader within its block faults nowhere, hands over the next bytes, as many as there
-- is room for, and moves the position past them.
pub read_lem :
    (r : MemReader) (n : ℕ)
    → IsWithin r
    → read r n
      ≡ some (
        take n (drop r.read_cnt r.buf),
        record r { read_cnt = r.read_cnt + min n (r.size - r.read_cnt) },
      )
unfolding read left_to_read took IsWithin
read_lem r n (z, h) = elim (Bool-cases (ltb 0 (min n (r.size - r.read_cnt)))) [
  | inl q ↦
      rw (q, copy_out_lem r.buf r.read_cnt (min n (r.size - r.read_cnt)) (omega arith))
        (ap (λ xs. some (xs, record r { read_cnt = r.read_cnt + min n (r.size - r.read_cnt) }))
          (copied r n (z, h)))
  | inr q ↦ rw q (
      let none_left : min n (r.size - r.read_cnt) ≡ 0 = ground arith in
      ap₂ (λ xs c. some (xs, record r { read_cnt = c }))
        (ap (λ k. take k (drop r.read_cnt r.buf)) (sym none_left) ∙ bytes_lem r n (z, h))
        (omega arith))
]

next_bytes :
    (r : MemReader) (n : ℕ)
    → IsWithin r
    → drop (r.read_cnt + min n (r.size - r.read_cnt)) r.buf ≡ drop n (drop r.read_cnt r.buf)
next_bytes r n i =
    drop-add r.read_cnt (min n (r.size - r.read_cnt)) r.buf
    ∙ ap (λ k. drop (min n k) (drop r.read_cnt r.buf)) (rest_length r i)
    ∙ drop-min n (drop r.read_cnt r.buf)

unfoldable pub sum : List ℕ → ℕ
sum [] = 0
sum (n ∷ ns) = n + sum ns

-- On a reader within its block, any reads one after the other fault nowhere and hand over, joined,
-- the unread bytes in order, as many as the buffers' sizes add up to or all there are.
pub reads_lem :
    (r : MemReader) (sizes : List ℕ)
    → IsWithin r
    → reads r sizes
      ≡ some (
        take (sum sizes) (drop r.read_cnt r.buf),
        record r { read_cnt = r.read_cnt + min (sum sizes) (r.size - r.read_cnt) },
      )
unfolding reads sum IsWithin after_read joined
reads_lem r [] i = ap (λ c. some ([], record r { read_cnt = c })) (omega arith)
reads_lem r (n ∷ sizes) (z, h) =
    let next = record r { read_cnt = r.read_cnt + min n (r.size - r.read_cnt) } in
    ap (λ o. after_read o (λ r'. reads r' sizes)) (read_lem r n (z, h))
    ∙ ap (joined (take n (drop r.read_cnt r.buf))) (reads_lem next sizes (z, omega arith))
    ∙ ap₂ (λ xs c. some (xs, record r { read_cnt = c }))
        (ap (λ ys. take n (drop r.read_cnt r.buf) ++ take (sum sizes) ys) (next_bytes r n (z, h))
          ∙ sym (take-add n (sum sizes) (drop r.read_cnt r.buf)))
        (omega arith)
