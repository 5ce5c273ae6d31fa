-- ===== src/ObjList/Link.antt =====
-- EdObjList: what a change of one link does to a chain.
use ednio.Prelude.{
  ℕ, ◌≡◌, refl, sym, ap, ◌∙◌, List, [], ◌∷◌, true, false, some, ◌==◌, ==_iff, arith, Bool-cases,
  true≢false, inl, inr,
}
use ednio.ObjList.{Hdr, Store, ObjList, write, linked, modify, set_next, set_prev}
use ednio.ObjList.Chain.{first, last, has, Distinct, Chain, SameOutside, frame, has-last}

pub write_ne : (h : Store) (a : ℕ) (v : Hdr) (b : ℕ) → (b == a) ≡ false → write h a v b ≡ h b
write_ne h a v b e = rw e refl

pub write_eq : (h : Store) (a : ℕ) (v : Hdr) → write h a v a ≡ some v
write_eq h a v = rw ((==_iff a a).1 refl) refl

pub modify-some :
    (h : Store) (a : ℕ) (f : Hdr → Hdr) (v : Hdr)
    → h a ≡ some v
    → modify h a f ≡ some (write h a (f v))
unfolding modify
modify-some h a f v e = rw (e, modify) refl

-- An address that is in a list differs from one that is not.
pub ne_of_has : (a b : ℕ) (xs : List ℕ) → has a xs ≡ false → has b xs ≡ true → (a == b) ≡ false
ne_of_has a b xs o i = elim (Bool-cases (a == b)) [
  | inl q ↦ absurd (true≢false (sym i ∙ ap (λ k. has k xs) (sym ((==_iff a b).0 q)) ∙ o))
  | inr q ↦ q
]

pub ne_head : (a x : ℕ) (xs : List ℕ) → has a (x ∷ xs) ≡ false → (a == x) ≡ false
ne_head a x xs o = ground arith

pub out_tail : (a x : ℕ) (xs : List ℕ) → has a (x ∷ xs) ≡ false → has a xs ≡ false
out_tail a x xs o = ground arith

pub ne_sym : (a b : ℕ) → (a == b) ≡ false → (b == a) ≡ false
ne_sym a b e = ground arith

pub ne_last : (a x : ℕ) (xs : List ℕ) → has a (x ∷ xs) ≡ false → (a == last x xs) ≡ false
ne_last a x xs o = ne_of_has a (last x xs) (x ∷ xs) o (has-last x xs)

-- Writing past the last object of a chain changes what stands behind it.
pub write_last :
    (h : Store) (l : ObjList) (p x : ℕ) (xs : List ℕ) (a b : ℕ)
    → Chain h l p (x ∷ xs) a
    → Distinct (x ∷ xs)
    → (v : Hdr) × (h (last x xs) ≡ some v)
      × Chain (write h (last x xs) (record v { next = b })) l p (x ∷ xs) b
write_last h l p x [] a b (e, _) d = (linked l p a, e, (write_eq h x (linked l p b), tt))
write_last h l p x (y ∷ xs) a b (e, c) (o, d) =
    let (v, f, k) = write_last h l x y xs a b c d in
    (v, f, (write_ne h (last y xs) (record v { next = b }) x (ne_last x y xs o) ∙ e, k))

pub set_next-some :
    (h : Store) (q b : ℕ) (v : Hdr)
    → (0 == q) ≡ false
    → h q ≡ some v
    → set_next h q b ≡ some (write h q (record v { next = b }))
unfolding set_next
set_next-some h q b v z e =
    let nonnull : (q == 0) ≡ false = ground arith in
    rw nonnull (modify-some h q (λ v. record v { next = b }) v e)

pub set_prev-some :
    (h : Store) (q b : ℕ) (v : Hdr)
    → (0 == q) ≡ false
    → h q ≡ some v
    → set_prev h q b ≡ some (write h q (record v { prev = b }))
unfolding set_prev
set_prev-some h q b v z e =
    let nonnull : (q == 0) ≡ false = ground arith in
    rw nonnull (modify-some h q (λ v. record v { prev = b }) v e)

-- `set_next` at the last object of a chain, or at NULL for an empty one.
pub set_next-Chain :
    (h : Store) (l : ObjList) (xs : List ℕ) (a b : ℕ)
    → Chain h l 0 xs a
    → Distinct xs
    → has 0 xs ≡ false
    → (g : Store) × (set_next h (last 0 xs) b ≡ some g) × Chain g l 0 xs b × SameOutside xs h g
unfolding set_next modify
set_next-Chain h l [] a b c d z = (h, refl, tt, λ y o. refl)
set_next-Chain h l (x ∷ xs) a b c d z =
    let (v, f, k) = write_last h l 0 x xs a b c d in
    (
      write h (last x xs) (record v { next = b }),
      set_next-some h (last x xs) b v (ne_last 0 x xs z) f,
      k,
      λ y o. write_ne h (last x xs) (record v { next = b }) y (ne_last y x xs o),
    )

-- `set_prev` at the first object of a chain, or at NULL for an empty one.
pub set_prev-Chain :
    (h : Store) (l : ObjList) (p : ℕ) (xs : List ℕ) (b : ℕ)
    → Chain h l p xs 0
    → Distinct xs
    → has 0 xs ≡ false
    → (g : Store) × (set_prev h (first xs 0) b ≡ some g) × Chain g l b xs 0 × SameOutside xs h g
unfolding set_prev modify
set_prev-Chain h l p [] b c d z = (h, refl, tt, λ y o. refl)
set_prev-Chain h l p (x ∷ xs) b (e, c) (o, d) z = (
  write h x (linked l b (first xs 0)),
  set_prev-some h x b (linked l p (first xs 0)) (ne_head 0 x xs z) e,
  (
    write_eq h x (linked l b (first xs 0)),
    frame h _ l x xs 0 c
        (λ y i. write_ne h x (linked l b (first xs 0)) y (ne_sym x y (ne_of_has x y xs o i))),
  ),
  λ y i. write_ne h x (linked l b (first xs 0)) y (ne_head y x xs i),
)
