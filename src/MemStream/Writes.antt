-- ===== src/MemStream/Writes.antt =====
-- EdMemStreamWriter: what a second write does.
use ednio.Prelude.{
  ℕ, ◌+◌, ◌-◌, ◌≤◌, ◌≡◌, refl, sym, ap, ap₂, ◌∙◌, min, List, some, arith, length, take, take_all,
  copy_in, copy_in_lem, splice, length-splice,
}
use ednio.MemStream.{MemStreamWriter, left_to_write, laid, write}

write_lem :
    (w : MemStreamWriter) (xs : List ℕ)
    → w.capacity ≡ length w.vec_buf
    → w.write_pos + length xs ≤ w.capacity
    → write w xs (length xs)
      ≡ some (length xs, record w { vec_buf = splice w.vec_buf w.write_pos xs })
unfolding write left_to_write laid
write_lem w xs z h =
    let all : min (length xs) (w.capacity - w.write_pos) ≡ length xs = omega arith in
    ap₂ (λ k bs. laid w k (copy_in w.vec_buf w.write_pos bs)) all
      (ap (λ k. take k xs) all ∙ take_all (length xs) xs (omega arith))
    ∙ ap (laid w (length xs)) (copy_in_lem w.vec_buf w.write_pos xs (omega arith))

-- A write within the capacity faults nowhere, lays the bytes over the memory from the write
-- position on, returns how many, and leaves the write position where it was, so that a second write
-- lays its bytes over those of the first and the room left is never less.
pub write_again :
    (w : MemStreamWriter) (xs ys : List ℕ)
    → w.capacity ≡ length w.vec_buf
    → w.write_pos + length xs ≤ w.capacity
    → w.write_pos + length ys ≤ w.capacity
    → let v = record w { vec_buf = splice w.vec_buf w.write_pos xs } in
      let u = record w { vec_buf = splice (splice w.vec_buf w.write_pos xs) w.write_pos ys } in
      (write w xs (length xs) ≡ some (length xs, v))
      × (write v ys (length ys) ≡ some (length ys, u))
      × (left_to_write u ≡ left_to_write w)
unfolding left_to_write
write_again w xs ys z h k =
    (write_lem w xs z h, write_lem _ ys (z ∙ sym (length-splice w.vec_buf w.write_pos xs)) k, refl)
