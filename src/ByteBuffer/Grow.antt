-- ===== src/ByteBuffer/Grow.antt =====
-- EdByteBuffer: the capacity that `put` computes.
use ednio.Prelude.{
  ℕ, zero, suc, ◌+◌, ◌*◌, ◌/◌, ◌%◌, ◌^◌, ◌≤◌, ◌<◌, ◌≡◌, refl, ◌⊎◌, inl, inr, some, true, arith, ltb,
  ◌==◌, if◌then◌else◌, ◌&&◌, Bool-cases,
}
use ednio.ByteBuffer.{double_up, next_capacity}

both_lt : (need t : ℕ) → (ltb t need && ltb t 16384) ≡ true → t < 16384
both_lt need t h = ground arith

-- The loop ends: with fuel for the way to 16384 it returns, at least where it began, below 32768
-- if it went on, and it stops only if the need is met or 16384 is reached.
double_up_lem :
    (fuel need t : ℕ)
    → 0 < t
    → 0 < fuel
    → 16384 < t + fuel
    → (r : ℕ) × (double_up fuel need t ≡ some r)
      × (t ≤ r)
      × ((r ≡ t) ⊎ (r < 32768))
      × ((need ≤ r) ⊎ (16384 ≤ r))
unfolding double_up
double_up_lem zero need t h p g = absurd (omega arith)
double_up_lem (suc fuel) need t h p g = elim (Bool-cases (ltb t need && ltb t 16384)) [
  | inl more ↦
      let small : t < 16384 = both_lt need t more in
      let (r, e, l, c, enough) =
        double_up_lem fuel need (t * 2 % 2 ^ 64) (omega arith) (omega arith) (omega arith) in
      (r, rw (more, double_up) e, omega arith, inr (omega arith), enough)
  | inr done ↦ (t, rw (done, double_up), omega arith, inl refl, ground arith)
]

-- The new capacity holds the bytes needed, and exceeds them by less than 16 KiB and 128 blocks
-- unless the old one did.
pub next_capacity_lem :
    (capacity need : ℕ)
    → capacity < need
    → need ≤ 2 ^ 62
    → (t : ℕ) × (next_capacity capacity need ≡ some t) × (need ≤ t) × (t < need + 32768)
unfolding next_capacity
next_capacity_lem capacity need h g =
    let start = if capacity == 0 then 4 else capacity in
    let positive : 0 < start = ground arith in
    let near : start < need + 4 = ground arith in
    let (r, e, l, c, enough) =
      double_up_lem 16384 need start positive (omega arith) (omega arith) in
    (
      if ltb r need then (need / 128 + need % 128) * 128 % 2 ^ 64 else r,
      rw e,
      ground arith,
      ground arith,
    )
