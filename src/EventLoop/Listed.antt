-- ===== src/EventLoop/Listed.antt =====
-- EdTask's event loop: the lists of events and their addresses.
use mathlib.Core.Option.{some-injective}
use ednio.Prelude.{
  ℕ, ◌+◌, ◌≡◌, refl, sym, ap, ◌∙◌, List, [], ◌∷◌, ◌++◌, true, false, some, ◌==◌, arith, map, length,
  Bool-cases, inl, inr, ==_iff, true≢false, if◌then◌else◌,
}
use ednio.ObjList.Chain.{has, Distinct, has-append}
use ednio.ObjList.Refine.{erase}
use ednio.ObjList.Erase.{has-erase_other}
use ednio.EventLoop.{the_task, is_object, Evt, addr_of, find_user, remove}
use ednio.EventLoop.Alive.{AllReg}

pub insert_Distinct :
    (x : ℕ) (xs ys : List ℕ)
    → Distinct (xs ++ ys)
    → has x (xs ++ ys) ≡ false
    → Distinct ((xs ++ x ∷ []) ++ ys)
insert_Distinct x [] ys d o = (o, d)
insert_Distinct x (y ∷ xs) ys (e, d) o = (
  ground (arith, has-append y (xs ++ x ∷ []) ys, has-append y xs (x ∷ []), has-append y xs ys),
  insert_Distinct x xs ys d (ground arith),
)

pub insert_has :
    (a x : ℕ) (xs ys : List ℕ) → has a (xs ++ ys) ≡ true → has a ((xs ++ x ∷ []) ++ ys) ≡ true
insert_has a x xs ys m =
    ground (arith, has-append a (xs ++ x ∷ []) ys, has-append a xs (x ∷ []), has-append a xs ys)

pub map-remove : (a : ℕ) (es : List Evt) → map addr_of (remove a es) ≡ erase a (map addr_of es)
unfolding remove erase
map-remove a [] = refl
map-remove a (e ∷ es) = elim (Bool-cases (a == e.addr)) [
  | inl same ↦ rw same refl
  | inr other ↦ rw other (ap (λ l. e.addr ∷ l) (map-remove a es))
]

pub length-remove :
    (a : ℕ) (es : List Evt) → has a (map addr_of es) ≡ true → length es ≡ length (remove a es) + 1
unfolding remove
length-remove a [] m = cc
length-remove a (e ∷ es) m = elim (Bool-cases (a == e.addr)) [
  | inl same ↦ rw same (omega arith)
  | inr other ↦ rw other (omega (arith, length-remove a es (ground arith)))
]

pub moved_has :
    (a b : ℕ) (xs ys : List ℕ)
    → has a (xs ++ ys) ≡ true
    → has a (erase b xs ++ (ys ++ b ∷ [])) ≡ true
moved_has a b xs ys m = ground (
  arith,
  has-append a (erase b xs) (ys ++ b ∷ []),
  has-append a ys (b ∷ []),
  has-append a xs ys,
  has-erase_other a b xs,
)

has_head : (a : ℕ) (xs : List ℕ) → has a (a ∷ xs) ≡ true
has_head a xs = ground arith

has_tail : (a x : ℕ) (xs : List ℕ) → has a xs ≡ true → has a (x ∷ xs) ≡ true
has_tail a x xs m = ground arith

-- The event of an event object.
pub find_user_lem :
    (u : ℕ) (es : List Evt) (e : Evt)
    → AllReg true es
    → find_user u es ≡ some e
    → (has e.addr (map addr_of es) ≡ true) × ((e.fd == 0) ≡ false)
unfolding find_user
find_user_lem u [] e p h = cc
find_user_lem u (x ∷ xs) e (r, f, p) h = elim (Bool-cases (is_object u x.user)) [
  | inl same ↦
      let q = some-injective x e (rw same at h) in
      (
        ap (λ k. has k (map addr_of (x ∷ xs))) (sym (ap addr_of q))
            ∙ has_head x.addr (map addr_of xs),
        ap (λ k. k.fd == 0) (sym q) ∙ f,
      )
  | inr other ↦
      let (m, g) = find_user_lem u xs e p (rw other at h) in
      (has_tail e.addr x.addr (map addr_of xs) m, g)
]

apart : (a b : ℕ) (xs : List ℕ) → has b xs ≡ false → has a xs ≡ true → (a == b) ≡ false
apart a b xs o m = elim (Bool-cases (a == b)) [
  | inl y ↦ absurd (true≢false (sym (ap (λ k. has k xs) (sym ((==_iff a b).0 y)) ∙ m) ∙ o))
  | inr n ↦ n
]

-- The event of an event object is not the one in front, if that is the task's.
pub heads_remove :
    (u : ℕ) (m e : Evt) (rest : List Evt)
    → m.user ≡ the_task
    → Distinct (map addr_of (m ∷ rest))
    → AllReg true rest
    → find_user u (m ∷ rest) ≡ some e
    → remove e.addr (m ∷ rest) ≡ m ∷ remove e.addr rest
unfolding find_user remove
heads_remove u m e rest t (o, d) r h =
    let later : find_user u rest ≡ some e =
      sym (ap (λ k. if is_object u k then some m else find_user u rest) t) ∙ h in
    let (k, f) = find_user_lem u rest e r later in
    rw (apart e.addr m.addr (map addr_of rest) o k) refl
