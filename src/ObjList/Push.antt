-- ===== src/ObjList/Push.antt =====
-- EdObjList: push_back adds an object at the end of the sequence.
use ednio.Prelude.{
  ℕ, ◌≡◌, ◌≢◌, refl, sym, ap, ◌∙◌, subst, List, [], ◌∷◌, ◌++◌, true, false, some, ◌==◌, ==_iff,
  arith, Bool-cases, inl, inr, length-append, ◌>>=◌,
}
use mathlib.Core.Option.{some-injective}
use ednio.ObjList.{Hdr, Store, ObjList, write, linked, is_free, grow, link_back, push_back}
use ednio.ObjList.Chain.{
  first, last, has, Distinct, Chain, IsList, SameOutside, frame, has-append, Chain-append,
}
use ednio.ObjList.Link.{
  write_ne, write_eq, modify-some, ne_of_has, ne_last, ne_head, ne_sym, out_tail, write_last,
}

free_list : (v : Hdr) → is_free v ≡ true → v.list ≡ 0
free_list v f = ground arith

-- An object whose header looks free is in no list.
free-not_mem :
    (h : Store) (l : ObjList) (q : ℕ) (xs : List ℕ) (n p : ℕ) (v : Hdr)
    → Chain h l q xs n
    → l.self ≢ 0
    → h p ≡ some v
    → is_free v ≡ true
    → has p xs ≡ false
free-not_mem h l q [] n p v c s e f = refl
free-not_mem h l q (x ∷ xs) n p v (e', c) s e f = elim (Bool-cases (p == x)) [
  | inl same ↦ absurd (
      s (
        sym (
          ap (λ u. u.list)
            (some-injective v (linked l q (first xs n)) (sym e ∙ ap h ((==_iff p x).0 same) ∙ e')))
        ∙ free_list v f))
  | inr other ↦ rw other (free-not_mem h l x xs n p v c s e f)
]

first-snoc : (xs : List ℕ) (p n : ℕ) → first (xs ++ p ∷ []) n ≡ first xs p
first-snoc [] p n = refl
first-snoc (x ∷ xs) p n = refl

last-append : (q : ℕ) (xs ys : List ℕ) → last q (xs ++ ys) ≡ last (last q xs) ys
last-append q [] ys = refl
last-append q (x ∷ xs) ys = last-append x xs ys

pub Distinct-snoc : (xs : List ℕ) (p : ℕ) → Distinct xs → has p xs ≡ false → Distinct (xs ++ p ∷ [])
Distinct-snoc [] p d o = (refl, tt)
Distinct-snoc (x ∷ xs) p (e, d) o =
    (ground (arith, has-append x xs (p ∷ [])), Distinct-snoc xs p d (ground arith))

push_free :
    (h : Store) (l : ObjList) (p : ℕ) (v : Hdr)
    → h p ≡ some v
    → is_free v ≡ true
    → push_back h l p ≡ link_back h l p
unfolding push_back
push_free h l p v e f = rw (e, f) refl

-- The chain after an object is linked behind the last one.
link_back-Chain :
    (h : Store) (l : ObjList) (x : ℕ) (xs : List ℕ) (p : ℕ)
    → l.tail ≡ last x xs
    → Chain h l 0 (x ∷ xs) 0
    → Distinct (x ∷ xs)
    → has 0 (x ∷ xs) ≡ false
    → has p (x ∷ xs) ≡ false
    → (g : Store) × (link_back h l p ≡ some (g, grow (record l { tail = p })))
      × Chain g l 0 ((x ∷ xs) ++ p ∷ []) 0
      × SameOutside (p ∷ x ∷ xs) h g
unfolding link_back
link_back-Chain h l x xs p t c d z o =
    let h0 = write h p (linked l l.tail 0) in
    let c0 =
      frame h h0 l 0 (x ∷ xs) 0 c
        (λ a i. write_ne h p (linked l l.tail 0) a (ne_sym p a (ne_of_has p a (x ∷ xs) o i))) in
    let (v, f, k) = write_last h0 l 0 x xs 0 p c0 d in
    let g = write h0 l.tail (record v { next = p }) in
    let nonnull : (l.tail == 0) ≡ false =
      ap (λ a. a == 0) t ∙ ne_sym 0 (last x xs) (ne_last 0 x xs z) in
    let elsewhere : (p == l.tail) ≡ false = ap (λ a. p == a) t ∙ ne_last p x xs o in
    (
      g,
      rw nonnull (
          ap (λ m. m >>= λ h'. some (h', grow (record l { tail = p })))
            (modify-some h0 l.tail (λ u. record u { next = p }) v (ap h0 t ∙ f))),
      Chain-append g l 0 (x ∷ xs) (p ∷ []) 0
          (subst (λ a. Chain (write h0 a (record v { next = p })) l 0 (x ∷ xs) p) (sym t) k)
          (
            write_ne h0 l.tail (record v { next = p }) p elsewhere
                ∙ write_eq h p (linked l l.tail 0)
                ∙ ap (λ a. some (linked l a 0)) t,
            tt,
          ),
      λ y i.
          write_ne h0 l.tail (record v { next = p }) y
            (ap (λ a. y == a) t ∙ ne_last y x xs (out_tail y p (x ∷ xs) i))
          ∙ write_ne h p (linked l l.tail 0) y (ne_head y p (x ∷ xs) i),
    )

pushed :
    (h g : Store) (l : ObjList) (xs : List ℕ) (p a : ℕ)
    → IsList h l xs
    → has p xs ≡ false
    → (0 == p) ≡ false
    → a ≡ first xs p
    → Chain g l 0 (xs ++ p ∷ []) 0
    → IsList g (grow (record l { head = a; tail = p })) (xs ++ p ∷ [])
pushed h g l xs p a i o z e c = record {
  chain = c;
  at_head = e ∙ sym (first-snoc xs p 0);
  at_tail = sym (last-append 0 xs (p ∷ []));
  counted = omega (arith, i.counted, length-append xs (p ∷ []));
  distinct = Distinct-snoc xs p i.distinct o;
  no_null = ground (arith, has-append 0 xs (p ∷ []), i.no_null);
  named = i.named;
  seeded = i.seeded;
}

-- push_back of an allocated object that is in no list, on the sequence `xs`: it faults nowhere, and
-- the list is then `xs` with the object behind it; no header but the object's and the list's is
-- written.
pub push_back-IsList :
    (h : Store) (l : ObjList) (xs : List ℕ) (p : ℕ) (v : Hdr)
    → IsList h l xs
    → h p ≡ some v
    → is_free v ≡ true
    → (0 == p) ≡ false
    → (g : Store) × (l' : ObjList) × (push_back h l p ≡ some (g, l'))
      × IsList g l' (xs ++ p ∷ [])
      × SameOutside (p ∷ xs) h g
unfolding link_back
push_back-IsList h l [] p v i e f z =
    let empty : (l.tail == 0) ≡ true = (==_iff l.tail 0).1 i.at_tail in
    (
      write h p (linked l 0 0),
      grow (record l { head = p; tail = p }),
      push_free h l p v e f ∙ rw empty refl,
      pushed h _ l [] p p i refl z refl (write_eq h p (linked l 0 0), tt),
      λ y o. write_ne h p (linked l 0 0) y (ne_head y p [] o),
    )
push_back-IsList h l (x ∷ xs) p v i e f z =
    let out = free-not_mem h l 0 (x ∷ xs) 0 p v i.chain i.named e f in
    let (g, k, c, same) = link_back-Chain h l x xs p i.at_tail i.chain i.distinct i.no_null out in
    (
      g,
      grow (record l { tail = p }),
      push_free h l p v e f ∙ k,
      pushed h g l (x ∷ xs) p l.head i out z i.at_head c,
      same,
    )
