-- ===== src/ObjList/Refine.antt =====
-- EdObjList: any calls of push_back, remove and pop_front do what the calls on a sequence of distinct
-- objects do.
use ednio.Prelude.{
  ℕ, ◌≡◌, ◌≢◌, refl, sym, ap, ◌∙◌, subst, List, [], ◌∷◌, ◌++◌, true, false, Option, some, ◌==◌,
  ==_iff, arith, if◌then◌else◌, ◌>>=◌, Bool-cases, inl, inr, true≢false,
}
use ednio.ObjList.{Hdr, Store, ObjList, linked, is_free, push_back, remove, pop_front}
use ednio.ObjList.Chain.{first, has, Chain, IsList, has-append}
use ednio.ObjList.Link.{ne_of_has}
use ednio.ObjList.Push.{push_back-IsList}
use ednio.ObjList.Remove.{remove-IsList}

pub data Call : Type 0 where
  push : ℕ → Call
  take_out : ℕ → Call
  pop_first : Call

-- One call in the program, with the address that a pop returns, or 0.
unfoldable pub call : Call → Store × ObjList → Option (ℕ × Store × ObjList)
unfolding push_back remove pop_front
call (push p) (h, l) = do r ← push_back h l p; some (0, r.0, r.1)
call (take_out p) (h, l) = do r ← remove h l p; some (0, r.0, r.1)
call pop_first (h, l) = pop_front h l

-- The sequence without an object.
unfoldable pub erase : ℕ → List ℕ → List ℕ
erase p [] = []
erase p (x ∷ xs) = if p == x then xs else x ∷ erase p xs

-- The same call on a sequence.
unfoldable pub spec : Call → List ℕ → ℕ × List ℕ
unfolding erase
spec (push p) xs = (0, if has p xs then xs else xs ++ p ∷ [])
spec (take_out p) xs = (0, erase p xs)
spec pop_first [] = (0, [])
spec pop_first (x ∷ xs) = (x, xs)

-- The objects `objs` are allocated and are in the list or look free; the list holds `xs`.
pub record World (objs : List ℕ) (h : Store) (l : ObjList) (xs : List ℕ) : Type 0 where
  pub is_list : IsList h l xs
  pub no_zero : has 0 objs ≡ false
  pub known :
      (a : ℕ)
      → has a objs ≡ true
      → (v : Hdr) × (h a ≡ some v) × (has a xs ≡ false → is_free v ≡ true)

-- The header of an object in a chain.
member :
    (h : Store) (l : ObjList) (q : ℕ) (xs : List ℕ) (n a : ℕ)
    → Chain h l q xs n
    → has a xs ≡ true
    → (p m : ℕ) × (h a ≡ some (linked l p m))
member h l q [] n a c i = cc
member h l q (x ∷ xs) n a (e, c) i = elim (Bool-cases (a == x)) [
  | inl same ↦ (q, first xs n, ap h ((==_iff a x).0 same) ∙ e)
  | inr other ↦ member h l x xs n a c (ground arith)
]

Allocated : Store → List ℕ → ℕ → Type 0
Allocated h xs a = (v : Hdr) × (h a ≡ some v) × (has a xs ≡ false → is_free v ≡ true)

-- What is known of an object after a call: it is in the list, or what is said of it when it is not.
again :
    (g : Store) (l : ObjList) (xs : List ℕ) (a : ℕ)
    → IsList g l xs
    → (has a xs ≡ false → Allocated g xs a)
    → Allocated g xs a
unfolding Allocated
again g l xs a i out = elim (Bool-cases (has a xs)) [
  | inl m ↦
      let (p, n, e) = member g l 0 xs 0 a i.chain m in
      (linked l p n, e, λ o. absurd (true≢false (sym m ∙ o)))
  | inr o ↦ out o
]

in_list-not-free : (l : ObjList) (p n : ℕ) → l.self ≢ 0 → is_free (linked l p n) ≡ false
in_list-not-free l p n s = ground arith

not_in_either :
    (a : ℕ) (xs : List ℕ) (p : ℕ) → has a (xs ++ p ∷ []) ≡ false → has a (p ∷ xs) ≡ false
not_in_either a xs p o = ground (arith, has-append a xs (p ∷ []))

not_in_front : (a : ℕ) (xs : List ℕ) (p : ℕ) → has a (xs ++ p ∷ []) ≡ false → has a xs ≡ false
not_in_front a xs p o = ground (arith, has-append a xs (p ∷ []))

unfoldable pub Pushed : List ℕ → Store → ObjList → List ℕ → ℕ → Type 0
Pushed objs h l xs p =
    (g : Store) × (l' : ObjList) × (push_back h l p ≡ some (g, l'))
    × World objs g l' (if has p xs then xs else xs ++ p ∷ [])

pub push_old :
    (objs : List ℕ) (h : Store) (l : ObjList) (xs : List ℕ) (p : ℕ)
    → World objs h l xs
    → has p xs ≡ true
    → Pushed objs h l xs p
unfolding Pushed push_back
push_old objs h l xs p w m =
    let (q, n, e) = member h l 0 xs 0 p w.is_list.chain m in
    (h, l, rw (e, in_list-not-free l q n w.is_list.named) refl, rw m w)

pub push_new :
    (objs : List ℕ) (h : Store) (l : ObjList) (xs : List ℕ) (p : ℕ)
    → World objs h l xs
    → has p objs ≡ true
    → has p xs ≡ false
    → Pushed objs h l xs p
unfolding Pushed Allocated
push_new objs h l xs p w k o =
    let (v, e, f) = w.known p k in
    let z : (0 == p) ≡ false = ne_of_has 0 p objs w.no_zero k in
    let (g, l', r, i, same) = push_back-IsList h l xs p v w.is_list e (f o) z in
    (
      g,
      l',
      r,
      rw o (record {
        is_list = i;
        no_zero = w.no_zero;
        known = λ a m. again g l' (xs ++ p ∷ []) a i (λ out.
            let (u, e', f') = w.known a m in
            (u, same a (not_in_either a xs p out) ∙ e', λ _. f' (not_in_front a xs p out)));
      }),
    )

-- A member parts the sequence, and erasing it leaves the two parts.
pub parted :
    (p : ℕ) (xs : List ℕ)
    → has p xs ≡ true
    → (ys zs : List ℕ) × (xs ≡ ys ++ p ∷ zs) × (erase p xs ≡ ys ++ zs)
unfolding erase
parted p [] m = cc
parted p (x ∷ xs) m = elim (Bool-cases (p == x)) [
  | inl same ↦ ([], xs, ap (λ a. a ∷ xs) (sym ((==_iff p x).0 same)), rw same refl)
  | inr other ↦
      let (ys, zs, e, f) = parted p xs (ground arith) in
      (x ∷ ys, zs, ap (λ l. x ∷ l) e, rw other (ap (λ l. x ∷ l) f))
]

erase_none : (p : ℕ) (xs : List ℕ) → has p xs ≡ false → erase p xs ≡ xs
unfolding erase
erase_none p [] o = refl
erase_none p (x ∷ xs) o = ground (arith, erase_none p xs)

not_in_parts :
    (a : ℕ) (ys zs : List ℕ) (p : ℕ)
    → (a == p) ≡ false
    → has a (ys ++ zs) ≡ false
    → has a (ys ++ p ∷ zs) ≡ false
not_in_parts a ys zs p e o = ground (arith, has-append a ys (p ∷ zs), has-append a ys zs)

free-unlike : (v : Hdr) (seed : ℕ) → is_free v ≡ true → seed ≢ 0 → (v.seed == seed) ≡ false
free-unlike v seed f s = ground arith

unfoldable pub Removed : List ℕ → Store → ObjList → List ℕ → ℕ → Type 0
Removed objs h l left p =
    (g : Store) × (l' : ObjList) × (remove h l p ≡ some (g, l')) × World objs g l' left

pub remove_parted :
    (objs : List ℕ) (h : Store) (l : ObjList) (ys zs : List ℕ) (p : ℕ)
    → World objs h l (ys ++ p ∷ zs)
    → Removed objs h l (ys ++ zs) p
unfolding Removed Allocated
remove_parted objs h l ys zs p w =
    let (g, l', v, r, i, e, f, same) = remove-IsList h l ys zs p w.is_list in
    (
      g,
      l',
      r,
      record {
        is_list = i;
        no_zero = w.no_zero;
        known = λ a m. again g l' (ys ++ zs) a i (λ out. elim (Bool-cases (a == p)) [
          | inl self ↦ (v, ap g ((==_iff a p).0 self) ∙ e, λ _. f)
          | inr other ↦
              let (u, e', f') = w.known a m in
              let gone = not_in_parts a ys zs p other out in (u, same a gone ∙ e', λ _. f' gone)
        ]);
      },
    )

-- An object that is in no list has a seed of 0, which is not the list's.
remove_other :
    (objs : List ℕ) (h : Store) (l : ObjList) (xs : List ℕ) (p : ℕ)
    → World objs h l xs
    → has p objs ≡ true
    → has p xs ≡ false
    → Removed objs h l xs p
unfolding Removed remove
remove_other objs h l xs p w k o =
    let (v, e, f) = w.known p k in
    let unlike = free-unlike v l.list_seed (f o) w.is_list.seeded in (h, l, rw (e, unlike) refl, w)

pub removed :
    (objs : List ℕ) (h : Store) (l : ObjList) (xs : List ℕ) (p : ℕ)
    → World objs h l xs
    → has p objs ≡ true
    → Removed objs h l (erase p xs) p
removed objs h l xs p w k = elim (Bool-cases (has p xs)) [
  | inl m ↦
      let (ys, zs, e, f) = parted p xs m in
      subst (λ left. Removed objs h l left p) (sym f)
        (remove_parted objs h l ys zs p (subst (World objs h l) e w))
  | inr o ↦
      subst (λ left. Removed objs h l left p) (sym (erase_none p xs o))
        (remove_other objs h l xs p w k o)
]
