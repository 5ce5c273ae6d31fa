-- ===== src/Prelude/Bytes.antt =====
-- Unsigned numbers as bytes, in both orders.
use Prim.Native.Nat.{ℕ, zero, suc, ◌+◌, ◌*◌, ◌/◌, ◌%◌, ◌^◌, ◌<◌}
use mathlib.Core.Path.{◌≡◌, refl, sym, ap, ap₂, ◌∙◌}
use mathlib.Core.List.{List, [], ◌∷◌, ◌++◌, reverse, reverse-cons, reverse-reverse}
use native.Mathlib.Nat.{pow-suc}
use native.Mathlib.Omega.{arith}
use mathlib.Core.Bool.{Bool, true, false}
use ednio.Prelude.Tests.{if◌then◌else◌}
use ednio.Prelude.Lists.{length, length-append}

-- The bytes of a number of `n` bytes in memory, the lowest first.
unfoldable pub le_bytes : ℕ → ℕ → List ℕ
le_bytes zero v = []
le_bytes (suc n) v = v % 256 ∷ le_bytes n (v / 256)

unfoldable pub from_le : List ℕ → ℕ
from_le [] = 0
from_le (b ∷ bs) = b + 256 * from_le bs

-- `ptr[0] << 8 * (n - 1) | … | ptr[n - 1]`, by Horner's rule: the operands share no bit.
unfoldable pub horner : ℕ → List ℕ → ℕ
horner acc [] = acc
horner acc (b ∷ bs) = horner (acc * 256 + b) bs

unfoldable pub from_be : List ℕ → ℕ
unfolding horner
from_be bs = horner 0 bs

abbrev pub AreBytes : List ℕ → Type 0
AreBytes [] = Unit {0}
AreBytes (b ∷ bs) = (b < 256) × AreBytes bs

pub length-le_bytes : (n v : ℕ) → length (le_bytes n v) ≡ n
unfolding le_bytes
length-le_bytes zero v = refl
length-le_bytes (suc n) v = ap suc (length-le_bytes n (v / 256))

pub le_bytes-AreBytes : (n v : ℕ) → AreBytes (le_bytes n v)
unfolding le_bytes
le_bytes-AreBytes zero v = tt
le_bytes-AreBytes (suc n) v = (omega arith, le_bytes-AreBytes n (v / 256))

pub from_le-le_bytes : (n v : ℕ) → v < 256 ^ n → from_le (le_bytes n v) ≡ v
unfolding le_bytes from_le
from_le-le_bytes zero v h = omega arith
from_le-le_bytes (suc n) v h =
    let smaller : v < 256 * 256 ^ n = omega (arith, pow-suc 256 n) in
    omega (arith, from_le-le_bytes n (v / 256) (omega arith))

horner-snoc : (acc : ℕ) (bs : List ℕ) (b : ℕ) → horner acc (bs ++ b ∷ []) ≡ horner acc bs * 256 + b
unfolding horner
horner-snoc acc [] b = refl
horner-snoc acc (c ∷ bs) b = horner-snoc (acc * 256 + c) bs b

-- Reading the bytes from the highest on is reading them from the lowest on, turned round.
pub from_be-reverse : (bs : List ℕ) → from_be (reverse bs) ≡ from_le bs
unfolding from_be from_le
from_be-reverse [] = refl
from_be-reverse (b ∷ bs) =
    rw (reverse-cons b bs, horner-snoc 0 (reverse bs) b) (omega (arith, from_be-reverse bs))

pub le_bytes-from_le : (bs : List ℕ) → AreBytes bs → le_bytes (length bs) (from_le bs) ≡ bs
unfolding le_bytes from_le
le_bytes-from_le [] h = refl
le_bytes-from_le (b ∷ bs) h =
    ap₂ ◌∷◌ (omega arith) (ap (le_bytes (length bs)) (omega arith) ∙ le_bytes-from_le bs h.1)

AreBytes-append : (xs ys : List ℕ) → AreBytes xs → AreBytes ys → AreBytes (xs ++ ys)
AreBytes-append [] ys h g = g
AreBytes-append (x ∷ xs) ys h g = (h.0, AreBytes-append xs ys h.1 g)

AreBytes-reverse : (xs : List ℕ) → AreBytes xs → AreBytes (reverse xs)
AreBytes-reverse [] h = tt
AreBytes-reverse (x ∷ xs) h =
    rw (reverse-cons x xs)
      (AreBytes-append (reverse xs) (x ∷ []) (AreBytes-reverse xs h.1) (h.0, tt))

length-reverse : (xs : List ℕ) → length (reverse xs) ≡ length xs
length-reverse [] = refl
length-reverse (x ∷ xs) =
    rw (reverse-cons x xs, length-append (reverse xs) (x ∷ [])) (omega (arith, length-reverse xs))

-- The bytes of `v` in the order that the flag asks for, the highest first if it is set.
unfoldable pub encode : Bool → ℕ → ℕ → List ℕ
encode true n v = reverse (le_bytes n v)
encode false n v = le_bytes n v

pub length-encode : (o : Bool) (n v : ℕ) → length (encode o n v) ≡ n
unfolding encode
length-encode true n v = length-reverse (le_bytes n v) ∙ length-le_bytes n v
length-encode false n v = length-le_bytes n v

-- Swapping the bytes of a number turns its bytes in memory round.
pub le_bytes-swap : (n v : ℕ) → le_bytes n (from_be (le_bytes n v)) ≡ encode true n v
unfolding encode
le_bytes-swap n v =
    ap (λ xs. le_bytes n (from_be xs)) (sym (reverse-reverse (le_bytes n v)))
    ∙ ap (le_bytes n) (from_be-reverse (reverse (le_bytes n v)))
    ∙ ap (λ k. le_bytes k (from_le (reverse (le_bytes n v)))) (sym (length-encode true n v))
    ∙ le_bytes-from_le (reverse (le_bytes n v)) (AreBytes-reverse _ (le_bytes-AreBytes n v))

-- Reading the bytes of a number in the order in which they were written gives it back.
pub decode-encode :
    (o : Bool) (n v : ℕ)
    → v < 256 ^ n
    → (if o then from_be (encode o n v) else from_le (encode o n v)) ≡ v
unfolding encode
decode-encode true n v h = from_be-reverse (le_bytes n v) ∙ from_le-le_bytes n v h
decode-encode false n v h = from_le-le_bytes n v h

-- A single byte has no order.
pub encode_one : (o : Bool) (c : ℕ) → encode o 1 c ≡ le_bytes 1 c
unfolding encode le_bytes
encode_one true c = reverse-cons (c % 256) []
encode_one false c = refl
