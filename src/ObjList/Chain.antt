-- ===== src/ObjList/Chain.antt =====
-- EdObjList: the objects of a list in order, as the links in the store give them.
use ednio.Prelude.{
  ℕ, ◌≡◌, ◌≢◌, refl, ◌∙◌, List, [], ◌∷◌, ◌++◌, Bool, true, false, ◌||◌, some, ◌==◌, arith, length,
  ◌%◌, ◌^◌,
}
use ednio.ObjList.{Store, ObjList, linked}

-- The first and the last of a list, or what stands behind or before it.
abbrev pub first : List ℕ → ℕ → ℕ
first [] n = n
first (x ∷ xs) n = x

abbrev pub last : ℕ → List ℕ → ℕ
last p [] = p
last p (x ∷ xs) = last x xs

abbrev pub has : ℕ → List ℕ → Bool
has a [] = false
has a (x ∷ xs) = (a == x) || has a xs

abbrev pub Distinct : List ℕ → Type 0
Distinct [] = Unit {0}
Distinct (x ∷ xs) = (has x xs ≡ false) × Distinct xs

-- The links lead through `xs`, between `p` before it and `n` behind it, and back.
abbrev pub Chain : Store → ObjList → ℕ → List ℕ → ℕ → Type 0
Chain h l p [] n = Unit {0}
Chain h l p (x ∷ xs) n = (h x ≡ some (linked l p (first xs n))) × Chain h l x xs n

pub record IsList (h : Store) (l : ObjList) (xs : List ℕ) : Type 0 where
  pub chain : Chain h l 0 xs 0
  pub at_head : l.head ≡ first xs 0
  pub at_tail : l.tail ≡ last 0 xs
  pub counted : l.size ≡ length xs % 2 ^ 32
  pub distinct : Distinct xs
  pub no_null : has 0 xs ≡ false
  -- The list has an address, so that no header that is in it looks free.
  pub named : l.self ≢ 0
  -- Its seed tells its headers from free ones.
  pub seeded : l.list_seed ≢ 0

-- The store outside `xs` is as before.
abbrev pub SameOutside : List ℕ → Store → Store → Type 0
SameOutside xs h g = (a : ℕ) → has a xs ≡ false → g a ≡ h a

pub has-append : (a : ℕ) (xs ys : List ℕ) → has a (xs ++ ys) ≡ (has a xs || has a ys)
has-append a [] ys = refl
has-append a (x ∷ xs) ys = ground (arith, has-append a xs ys)

pub frame :
    (h g : Store) (l : ObjList) (p : ℕ) (xs : List ℕ) (n : ℕ)
    → Chain h l p xs n
    → ((a : ℕ) → has a xs ≡ true → g a ≡ h a)
    → Chain g l p xs n
frame h g l p [] n c same = tt
frame h g l p (x ∷ xs) n (e, c) same =
    (same x (ground arith) ∙ e, frame h g l x xs n c (λ a i. same a (ground arith)))

pub Chain-append :
    (h : Store) (l : ObjList) (p : ℕ) (xs ys : List ℕ) (n : ℕ)
    → Chain h l p xs (first ys n)
    → Chain h l (last p xs) ys n
    → Chain h l p (xs ++ ys) n
Chain-append h l p [] ys n c d = d
Chain-append h l p (x ∷ []) ys n (e, c) d = (e, d)
Chain-append h l p (x ∷ y ∷ xs) ys n (e, c) d = (e, Chain-append h l x (y ∷ xs) ys n c d)

pub Chain-split :
    (h : Store) (l : ObjList) (p : ℕ) (xs ys : List ℕ) (n : ℕ)
    → Chain h l p (xs ++ ys) n
    → Chain h l p xs (first ys n) × Chain h l (last p xs) ys n
Chain-split h l p [] ys n c = (tt, c)
Chain-split h l p (x ∷ []) ys n (e, c) = ((e, tt), c)
Chain-split h l p (x ∷ y ∷ xs) ys n (e, c) =
    let (a, b) = Chain-split h l x (y ∷ xs) ys n c in ((e, a), b)

pub Distinct-left : (xs ys : List ℕ) → Distinct (xs ++ ys) → Distinct xs
Distinct-left [] ys d = tt
Distinct-left (x ∷ xs) ys (e, d) = (ground (arith, has-append x xs ys), Distinct-left xs ys d)

pub Distinct-right : (xs ys : List ℕ) → Distinct (xs ++ ys) → Distinct ys
Distinct-right [] ys d = d
Distinct-right (x ∷ xs) ys (e, d) = Distinct-right xs ys d

-- The two parts of a list of distinct addresses have none in common.
pub apart : (a : ℕ) (xs ys : List ℕ) → Distinct (xs ++ ys) → has a xs ≡ true → has a ys ≡ false
apart a [] ys d i = cc
apart a (x ∷ xs) ys (e, d) i = ground (arith, has-append x xs ys, apart a xs ys d)

pub has-last : (x : ℕ) (xs : List ℕ) → has (last x xs) (x ∷ xs) ≡ true
has-last x [] = ground arith
has-last x (y ∷ xs) = ground (arith, has-last y xs)
