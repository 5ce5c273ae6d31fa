-- ===== src/Prelude/Memory.antt =====
-- A block of bytes, and the copies that the program makes into it and out of it.
use Prim.Native.Nat.{ℕ, zero, suc, ◌+◌, ◌-◌, ◌<◌, ◌≤◌}
use mathlib.Core.Path.{◌≡◌, refl, ap}
use mathlib.Core.Bool.{◌&&◌}
use mathlib.Core.Option.{Option, none, some}
use mathlib.Core.List.{List, [], ◌∷◌}
use native.Mathlib.Omega.{arith}
use ednio.Prelude.Tests.{ltb, leb, if◌then◌else◌, le→leb}
use ednio.Prelude.Lists.{length, get_or, tabulate}

-- Byte `i` of a block.
abbrev pub byte_at : List ℕ → ℕ → ℕ
byte_at m i = get_or m i 0

-- The block with `xs` laid over it from `p` on.
unfoldable pub splice : List ℕ → ℕ → List ℕ → List ℕ
splice [] p xs = []
splice (b ∷ m) zero [] = b ∷ m
splice (b ∷ m) zero (x ∷ xs) = x ∷ splice m zero xs
splice (b ∷ m) (suc p) xs = b ∷ splice m p xs

-- `memcpy(ptr, m + p, c)`: the bytes copied, or a fault outside the block.
unfoldable pub copy_out : List ℕ → ℕ → ℕ → Option (List ℕ)
copy_out m p c = if leb (p + c) (length m) then some (tabulate (λ i. byte_at m (p + i)) c) else none

-- `memcpy(m + p, ptr, length xs)`, where `xs` are the bytes at `ptr`.
unfoldable pub copy_in : List ℕ → ℕ → List ℕ → Option (List ℕ)
copy_in m p xs = if leb (p + length xs) (length m) then some (splice m p xs) else none

pub copy_out_lem :
    (m : List ℕ) (p c : ℕ)
    → p + c ≤ length m
    → copy_out m p c ≡ some (tabulate (λ i. byte_at m (p + i)) c)
unfolding copy_out
copy_out_lem m p c h =
    ap (λ t. if t then some (tabulate (λ i. byte_at m (p + i)) c) else none) (le→leb _ _ h)

pub copy_in_lem :
    (m : List ℕ) (p : ℕ) (xs : List ℕ)
    → p + length xs ≤ length m
    → copy_in m p xs ≡ some (splice m p xs)
unfolding copy_in
copy_in_lem m p xs h = ap (λ t. if t then some (splice m p xs) else none) (le→leb _ _ h)

pub length-splice : (m : List ℕ) (p : ℕ) (xs : List ℕ) → length (splice m p xs) ≡ length m
unfolding splice
length-splice [] p xs = refl
length-splice (b ∷ m) zero [] = refl
length-splice (b ∷ m) zero (x ∷ xs) = ap suc (length-splice m zero xs)
length-splice (b ∷ m) (suc p) xs = ap suc (length-splice m p xs)

-- What stands at `i` after the copy.
pub byte_at-splice :
    (m : List ℕ) (p : ℕ) (xs : List ℕ) (i : ℕ)
    → i < length m
    → byte_at (splice m p xs) i
      ≡ (if leb p i && ltb i (p + length xs) then byte_at xs (i - p) else byte_at m i)
unfolding splice
byte_at-splice [] p xs i h = absurd (omega arith)
byte_at-splice (b ∷ m) zero [] i h = ground arith
byte_at-splice (b ∷ m) zero (x ∷ xs) zero h = ground arith
byte_at-splice (b ∷ m) zero (x ∷ xs) (suc i) h =
    ground (arith, byte_at-splice m zero xs i (omega arith))
byte_at-splice (b ∷ m) (suc p) xs zero h = ground arith
byte_at-splice (b ∷ m) (suc p) xs (suc i) h = ground (arith, byte_at-splice m p xs i (omega arith))

pub splice-nil : (m : List ℕ) (p : ℕ) → splice m p [] ≡ m
unfolding splice
splice-nil [] p = refl
splice-nil (b ∷ m) zero = refl
splice-nil (b ∷ m) (suc p) = ap (λ t. b ∷ t) (splice-nil m p)
