-- ===== src/Ring/Inv.antt =====
-- The representation invariant of EdRingQue, and what one call of `readPos` copies.
use ednio.Prelude.{
  ℕ, zero, suc, ◌+◌, ◌-◌, ◌%◌, ◌^◌, ◌≤◌, ◌<◌, min, ◌≡◌, refl, ap, ◌∙◌, ◌⊎◌, some, arith, lt→ltb,
  int_add_lem, length, tabulate, tabulate_ext, byte_at, copy_out_lem,
}
use native.Mathlib.Nat.{mod-lt}
use ednio.Ring.Cycle.{cycle, cycle_split}
use ednio.Ring.{RingQue, es_min, read_rest, read_at}

-- The largest block for which no `int` sum of the class overflows.
abbrev pub max_size : ℕ
max_size = 2 ^ 30

pub record IsValid (r : RingQue) : Type 0 where
  pub storage : length r.buf ≡ r.buf_size
  pub positive : 0 < r.buf_size
  pub small : r.buf_size ≤ max_size
  pub read_in : r.read_pos < r.buf_size
  pub data_in : r.data_size ≤ r.buf_size
  pub tail : r.write_pos ≡ (r.read_pos + r.data_size) % r.buf_size
  pub peek_in : r.last_peek_pos < r.buf_size
  pub peek_size : r.last_peek_data_size ≤ r.buf_size

pub es_min-eq : (a b : ℕ) → es_min a b ≡ min a b
unfolding es_min
es_min-eq a b = ground arith

read_rest_lem :
    (r : RingQue) (p k : ℕ)
    → k ≤ length r.buf
    → p + k < 2 ^ 31
    → read_rest r p k ≡ some (tabulate (byte_at r.buf) k)
unfolding read_rest
read_rest_lem r p zero h g = refl
read_rest_lem r p (suc k) h g =
    rw
      (
        lt→ltb 0 (suc k) (omega arith),
        copy_out_lem r.buf 0 (suc k) (omega arith),
        int_add_lem p (suc k) g,
      )
      (ap some (
        tabulate_ext (λ i. byte_at r.buf (0 + i)) (byte_at r.buf) (suc k)
          (λ i _. ap (byte_at r.buf) (omega arith))))

-- One `readPos` copies `min size n` bytes from `pos` on, and faults nowhere.
pub read_at_lem :
    {r : RingQue} (size pos n : ℕ)
    → IsValid r
    → pos < r.buf_size
    → n ≤ r.buf_size
    → read_at r size pos n ≡ some (cycle r.buf r.buf_size pos (min size n))
unfolding read_at
read_at_lem {r} size pos n v h g =
    rw
      (
        es_min-eq size n,
        es_min-eq (min size n) (r.buf_size - pos),
        copy_out_lem r.buf pos c (omega arith),
        int_add_lem pos c (omega arith),
        read_rest_lem r ((pos + c) % r.buf_size) k (omega arith)
            (omega (arith, mod-lt (pos + c) v.positive)),
      )
      (ap some (
        cycle_split r.buf r.buf_size pos c k (omega arith) (omega arith) ends
        ∙ ap (cycle r.buf r.buf_size pos) (omega arith)))
  where
    c : ℕ
    c = min (min size n) (r.buf_size - pos)

    k : ℕ
    k = min size n - c

    ends : (k ≡ 0) ⊎ (pos + c ≡ r.buf_size)
    ends = omega arith
