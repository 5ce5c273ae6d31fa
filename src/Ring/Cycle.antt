-- ===== src/Ring/Cycle.antt =====
-- Runs of bytes that go round the end of a block, as EdRingQue reads and writes them.
use ednio.Prelude.{
  ℕ, ◌+◌, ◌-◌, ◌%◌, ◌≤◌, ◌<◌, min, ◌≡◌, sym, ap, ap₂, ◌∙◌, ◌⊎◌, inl, inr, ◌&&◌, List, ◌++◌, arith,
  ltb, leb, if◌then◌else◌, length, take, drop, drop-min, tabulate, tabulate_ext, tabulate-append,
  take-tabulate, drop-tabulate, tabulate-get_or, length-tabulate, length-take, length-drop,
  get_or-take, get_or-drop, take_all, byte_at, splice, length-splice, byte_at-splice,
}
use native.Mathlib.Decide.{dec_lt, dec_le}
use native.Mathlib.Nat.{mod-eq_of_lt, mod-eq-sub-mod, mod-add-mod}

-- The `n` bytes of a block of `cap` bytes from `p` on, going round at its end.
unfoldable pub cycle : List ℕ → ℕ → ℕ → ℕ → List ℕ
cycle buf cap p n = tabulate (λ i. byte_at buf ((p + i) % cap)) n

wrap_low : {x cap : ℕ} → x < cap → x % cap ≡ x
wrap_low h = mod-eq_of_lt h

wrap_high : {x cap : ℕ} → cap ≤ x → x < cap + cap → x % cap ≡ x - cap
wrap_high {x} {cap} l h = mod-eq-sub-mod {n = x} {m = cap} l ∙ mod-eq_of_lt (omega arith)

-- A sum of two positions, brought back into the block.
pub wrap_cases :
    (x cap : ℕ) → x < cap + cap → ((x < cap) × (x % cap ≡ x)) ⊎ ((cap ≤ x) × (x % cap ≡ x - cap))
wrap_cases x cap h = elim (dec_lt x cap) [
  | yes l ↦ inl (l, wrap_low l)
  | no l ↦ inr (omega arith, wrap_high (omega arith) h)
]

-- The two runs of bytes that are copied make up one run round the block.
pub cycle_split :
    (buf : List ℕ) (cap p c k : ℕ)
    → p + c ≤ cap
    → k ≤ cap
    → (k ≡ 0) ⊎ (p + c ≡ cap)
    → tabulate (λ i. byte_at buf (p + i)) c ++ tabulate (byte_at buf) k ≡ cycle buf cap p (c + k)
unfolding cycle
cycle_split buf cap p c k h g e =
    ap₂ ◌++◌
      (tabulate_ext (λ i. byte_at buf (p + i)) (λ i. byte_at buf ((p + i) % cap)) c
        (λ i l. ap (byte_at buf) (sym (wrap_low (omega arith)))))
      (tabulate_ext (byte_at buf) (λ i. byte_at buf ((p + (c + i)) % cap)) k
        (λ i l. ap (byte_at buf) (back i l)))
    ∙ sym (tabulate-append (λ i. byte_at buf ((p + i) % cap)) c k)
  where
    back : (i : ℕ) → i < k → i ≡ (p + (c + i)) % cap
    back i l = omega (arith, wrap_high {x = p + (c + i)} {cap = cap} (omega arith) (omega arith))

pub length-cycle : (buf : List ℕ) (cap p n : ℕ) → length (cycle buf cap p n) ≡ n
unfolding cycle
length-cycle buf cap p n = length-tabulate _ n

pub take-cycle :
    (buf : List ℕ) (cap p s n : ℕ) → take s (cycle buf cap p n) ≡ cycle buf cap p (min s n)
unfolding cycle
take-cycle buf cap p s n = elim (dec_le s n) [
  | yes h ↦ take-tabulate s n _ h ∙ ap (tabulate _) (omega arith)
  | no h ↦
      take_all s (tabulate _ n) (omega (arith, length-tabulate f n)) ∙ ap (tabulate _) (omega arith)
]
  where
    f : ℕ → ℕ
    f i = byte_at buf ((p + i) % cap)

drop-cycle :
    (buf : List ℕ) (cap p s n : ℕ)
    → p < cap
    → n ≤ cap
    → s ≤ n
    → drop s (cycle buf cap p n) ≡ cycle buf cap ((p + s) % cap) (n - s)
unfolding cycle
drop-cycle buf cap p s n h g l =
    drop-tabulate s n _ l
    ∙ tabulate_ext (λ i. byte_at buf ((p + (s + i)) % cap))
        (λ i. byte_at buf (((p + s) % cap + i) % cap)) (n - s) (λ i _. ap (byte_at buf) (shift i))
  where
    shift : (i : ℕ) → (p + (s + i)) % cap ≡ ((p + s) % cap + i) % cap
    shift i = rw mod-add-mod (ap (λ k. k % cap) (omega arith))

-- What stays of a run after `min s n` of its bytes were read.
pub cycle-rest :
    (buf : List ℕ) (cap p s n : ℕ)
    → p < cap
    → n ≤ cap
    → cycle buf cap ((p + min s n) % cap) (n - min s n) ≡ drop s (cycle buf cap p n)
cycle-rest buf cap p s n h g =
    sym (drop-cycle buf cap p (min s n) n h g (omega arith))
    ∙ ap (λ k. drop (min s k) (cycle buf cap p n)) (sym (length-cycle buf cap p n))
    ∙ drop-min s (cycle buf cap p n)

-- What a copy in two parts leaves: `c` bytes from `wp` on, and `k` more at the start.
unfoldable pub laid : List ℕ → ℕ → List ℕ → ℕ → ℕ → List ℕ
laid buf wp xs c k = splice (splice buf wp (take c xs)) 0 (take k (drop c xs))

pub length-laid :
    (buf : List ℕ) (wp : ℕ) (xs : List ℕ) (c k : ℕ) → length (laid buf wp xs c k) ≡ length buf
unfolding laid
length-laid buf wp xs c k = length-splice _ 0 _ ∙ length-splice buf wp _

byte_at-laid :
    (buf : List ℕ) (wp : ℕ) (xs : List ℕ) (c k i : ℕ)
    → c + k ≤ length xs
    → i < length buf
    → byte_at (laid buf wp xs c k) i ≡ (
        if ltb i k
        then byte_at xs (c + i)
        else (if leb wp i && ltb i (wp + c) then byte_at xs (i - wp) else byte_at buf i))
unfolding laid
byte_at-laid buf wp xs c k i h l = ground (
  arith,
  byte_at-splice (splice buf wp (take c xs)) 0 (take k (drop c xs)) i,
  byte_at-splice buf wp (take c xs) i,
  length-splice buf wp (take c xs),
  length-take c xs,
  length-take k (drop c xs),
  length-drop c xs,
  get_or-take 0 c xs (i - wp),
  get_or-take 0 k (drop c xs) (i - 0),
  get_or-drop 0 c xs (i - 0),
  ap (λ t. byte_at xs (c + t)) {x = i - 0} {y = i} (omega arith),
)

-- A copy of `c + k` bytes in two parts, just behind a run of `n` bytes from `rp` on.
module _ (buf : List ℕ) (cap rp n wp : ℕ) (xs : List ℕ) (c k : ℕ) (hl : length buf ≡ cap)
    (hr : rp < cap) (hw : wp ≡ (rp + n) % cap) (hn : n + (c + k) ≤ cap) (hx : c + k ≤ length xs)
    (hc : wp + c ≤ cap) (hk : (k ≡ 0) ⊎ (wp + c ≡ cap)) where
  old_byte :
      (i : ℕ) → i < n → byte_at (laid buf wp xs c k) ((rp + i) % cap) ≡ byte_at buf ((rp + i) % cap)
  old_byte i l = ground (
    arith,
    byte_at-laid buf wp xs c k ((rp + i) % cap),
    wrap_cases (rp + i) cap (omega arith),
    wrap_cases (rp + n) cap (omega arith),
    hw,
    hk,
  )

  new_byte :
      (j : ℕ) → j < c + k → byte_at (laid buf wp xs c k) ((rp + (n + j)) % cap) ≡ byte_at xs j
  new_byte j l = ground (
    arith,
    byte_at-laid buf wp xs c k ((rp + (n + j)) % cap),
    wrap_cases (rp + (n + j)) cap (omega arith),
    wrap_cases (rp + n) cap (omega arith),
    hw,
    hk,
  )

  -- After such a copy the run holds the bytes copied too.
  pub cycle-laid :
      cycle (laid buf wp xs c k) cap rp (n + (c + k)) ≡ cycle buf cap rp n ++ take (c + k) xs
  unfolding cycle
  cycle-laid =
      tabulate-append _ n (c + k)
      ∙ ap₂ ◌++◌ (tabulate_ext _ (λ i. byte_at buf ((rp + i) % cap)) n old_byte)
          (tabulate_ext _ (byte_at xs) (c + k) new_byte ∙ tabulate-get_or 0 xs (c + k) hx)
