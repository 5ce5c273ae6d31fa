-- ===== src/ObjList/Erase.antt =====
-- Sequences without repetition from which an entry is taken.
use ednio.Prelude.{
  ℕ, ◌+◌, ◌≡◌, refl, sym, ap, ◌∙◌, subst, List, [], ◌∷◌, ◌++◌, true, false, ◌==◌, arith, length,
  append_assoc, Bool-cases, inl, inr,
}
use ednio.ObjList.Chain.{has, Distinct}
use ednio.ObjList.Push.{Distinct-snoc}
use ednio.ObjList.Remove.{left_Distinct}
use ednio.ObjList.Refine.{erase, parted}

-- An entry that moves behind the rest.
pub moved_Distinct :
    (a : ℕ) (xs ys : List ℕ)
    → has a xs ≡ true
    → Distinct (xs ++ ys)
    → Distinct (erase a xs ++ (ys ++ a ∷ []))
moved_Distinct a xs ys m d =
    let (us, vs, e, f) = parted a xs m in
    let (d', o) =
      left_Distinct us (vs ++ ys) a
        (subst Distinct (ap (λ l. l ++ ys) e ∙ append_assoc us (a ∷ vs) ys) d) in
    subst Distinct
      (ap (λ l. l ++ a ∷ []) (sym (append_assoc us vs ys))
        ∙ append_assoc (us ++ vs) ys (a ∷ [])
        ∙ ap (λ l. l ++ (ys ++ a ∷ [])) (sym f))
      (Distinct-snoc (us ++ (vs ++ ys)) a d' o)

pub has-erase_other :
    (a b : ℕ) (xs : List ℕ) → (a == b) ≡ false → has a xs ≡ true → has a (erase b xs) ≡ true
unfolding erase
has-erase_other a b [] n m = cc
has-erase_other a b (x ∷ xs) n m = ground (arith, has-erase_other a b xs)

pub has-erase_within : (a b : ℕ) (xs : List ℕ) → has a (erase b xs) ≡ true → has a xs ≡ true
unfolding erase
has-erase_within a b [] m = m
has-erase_within a b (x ∷ xs) m = ground (arith, has-erase_within a b xs)

pub has-erase_self : (a : ℕ) (xs : List ℕ) → Distinct xs → has a (erase a xs) ≡ false
unfolding erase
has-erase_self a [] d = refl
has-erase_self a (x ∷ xs) (o, d) = ground (arith, has-erase_self a xs d)

pub length-erase : (a : ℕ) (xs : List ℕ) → has a xs ≡ true → length xs ≡ length (erase a xs) + 1
unfolding erase
length-erase a [] m = cc
length-erase a (x ∷ xs) m = elim (Bool-cases (a == x)) [
  | inl same ↦ rw same (omega arith)
  | inr other ↦ rw other (omega (arith, length-erase a xs (ground arith)))
]
