-- ===== src/ObjList/Remove.antt =====
-- EdObjList: remove takes an object out of the sequence.

use ednio.Prelude.{
  ℕ, ◌≡◌, refl, sym, ap, ◌∙◌, List, [], ◌∷◌, ◌++◌, true, false, Option, some, none, ◌==◌, ==_iff,
  arith, if◌then◌else◌, length-append, ◌>>=◌,
}
use ednio.ObjList.{
  Hdr, Store, ObjList, write, linked, modify, set_next, set_prev, is_free, shrink, unlink_prev,
  unlink_next, take_ends, freed, unlink, remove,
}
use ednio.ObjList.Chain.{
  first, last, has, Distinct, Chain, IsList, SameOutside, frame, has-append, Chain-append,
  Chain-split, Distinct-left, Distinct-right, apart,
}
use ednio.ObjList.Link.{
  write_ne, write_eq, modify-some, ne_of_has, ne_last, ne_head, ne_sym, set_next-Chain,
  set_prev-Chain,
}

-- Both halves of the unlinking, of an object between `ys` and `zs`.
relink : Store → ℕ → ℕ → Option Store
relink h cp cn = unlink_prev h cp cn >>= λ h1. unlink_next h1 cp cn

Relinked : Store → ObjList → List ℕ → List ℕ → Type 0
Relinked h l ys zs =
    (g : Store) × (relink h (last 0 ys) (first zs 0) ≡ some g)
    × Chain g l 0 ys (first zs 0)
    × Chain g l (last 0 ys) zs 0
    × SameOutside (ys ++ zs) h g

-- No test of an address in a list is met by NULL.
pub nonnull_last : (y : ℕ) (ys : List ℕ) → has 0 (y ∷ ys) ≡ false → (last y ys == 0) ≡ false
nonnull_last y ys z = ne_sym 0 (last y ys) (ne_last 0 y ys z)

pub nonnull_head : (y : ℕ) (ys : List ℕ) → has 0 (y ∷ ys) ≡ false → (y == 0) ≡ false
nonnull_head y ys z = ne_sym 0 y (ne_head 0 y ys z)

prev_some : (h : Store) (cp cn : ℕ) → (cp == 0) ≡ false → unlink_prev h cp cn ≡ set_next h cp cn
unfolding unlink_prev
prev_some h cp cn e = rw e refl

next_some : (h : Store) (cp cn : ℕ) → (cn == 0) ≡ false → unlink_next h cp cn ≡ set_prev h cn cp
unfolding unlink_next
next_some h cp cn e = rw e refl

-- The two halves, one after the other.
relink_lem :
    (h g1 g2 : Store) (cp cn : ℕ)
    → unlink_prev h cp cn ≡ some g1
    → unlink_next g1 cp cn ≡ some g2
    → relink h cp cn ≡ some g2
unfolding relink
relink_lem h g1 g2 cp cn e1 e2 = ap (λ m. m >>= λ h1. unlink_next h1 cp cn) e1 ∙ e2

out_left : (a : ℕ) (xs ys : List ℕ) → has a (xs ++ ys) ≡ false → has a xs ≡ false
out_left a xs ys o = ground (arith, has-append a xs ys)

out_right : (a : ℕ) (xs ys : List ℕ) → has a (xs ++ ys) ≡ false → has a ys ≡ false
out_right a xs ys o = ground (arith, has-append a xs ys)

apart_sym : (a : ℕ) (xs ys : List ℕ) → Distinct (xs ++ ys) → has a ys ≡ true → has a xs ≡ false
apart_sym a xs ys d i = ground (arith, apart a xs ys d)

relink_first :
    (h : Store) (l : ObjList) (p z : ℕ) (zs : List ℕ)
    → Chain h l p (z ∷ zs) 0
    → Distinct (z ∷ zs)
    → has 0 (z ∷ zs) ≡ false
    → Relinked h l [] (z ∷ zs)
unfolding Relinked unlink_prev unlink_next
relink_first h l p z zs c d o =
    let (g1, e1, c1, s1) = set_prev-Chain h l p (z ∷ zs) 0 c d o in
    let (g2, e2, c2, s2) = set_prev-Chain g1 l 0 (z ∷ zs) 0 c1 d o in
    let some_next = nonnull_head z zs o in
    (
      g2,
      relink_lem h g1 g2 0 z e1 (next_some g1 0 z some_next ∙ e2),
      tt,
      c2,
      λ a i. s2 a i ∙ s1 a i,
    )

relink_last :
    (h : Store) (l : ObjList) (p y : ℕ) (ys : List ℕ)
    → Chain h l 0 (y ∷ ys) p
    → Distinct (y ∷ ys)
    → has 0 (y ∷ ys) ≡ false
    → Relinked h l (y ∷ ys) []
unfolding Relinked unlink_prev unlink_next
relink_last h l p y ys c d o =
    let (g1, e1, c1, s1) = set_next-Chain h l (y ∷ ys) p 0 c d o in
    let (g2, e2, c2, s2) = set_next-Chain g1 l (y ∷ ys) 0 0 c1 d o in
    let some_prev = nonnull_last y ys o in
    (
      g2,
      relink_lem h g1 g2 (last y ys) 0 (prev_some h (last y ys) 0 some_prev ∙ e1) e2,
      c2,
      tt,
      λ a i. s2 a (out_left a (y ∷ ys) [] i) ∙ s1 a (out_left a (y ∷ ys) [] i),
    )

relink_both :
    (h : Store) (l : ObjList) (p y z : ℕ) (ys zs : List ℕ)
    → Chain h l 0 (y ∷ ys) p
    → Chain h l p (z ∷ zs) 0
    → Distinct ((y ∷ ys) ++ z ∷ zs)
    → has 0 ((y ∷ ys) ++ z ∷ zs) ≡ false
    → Relinked h l (y ∷ ys) (z ∷ zs)
unfolding Relinked unlink_prev unlink_next
relink_both h l p y z ys zs c k d o =
    let oy = out_left 0 (y ∷ ys) (z ∷ zs) o in
    let oz = out_right 0 (y ∷ ys) (z ∷ zs) o in
    let dz = Distinct-right (y ∷ ys) (z ∷ zs) d in
    let (g1, e1, c1, s1) =
      set_next-Chain h l (y ∷ ys) p z c (Distinct-left (y ∷ ys) (z ∷ zs) d) oy in
    let k1 = frame h g1 l p (z ∷ zs) 0 k (λ a i. s1 a (apart_sym a (y ∷ ys) (z ∷ zs) d i)) in
    let (g2, e2, c2, s2) = set_prev-Chain g1 l p (z ∷ zs) (last y ys) k1 dz oz in
    (
      g2,
      relink_lem h g1 g2 (last y ys) z (prev_some h (last y ys) z (nonnull_last y ys oy) ∙ e1)
          (next_some g1 (last y ys) z (nonnull_head z zs oz) ∙ e2),
      frame g1 g2 l 0 (y ∷ ys) z c1 (λ a i. s2 a (apart a (y ∷ ys) (z ∷ zs) d i)),
      c2,
      λ a i. s2 a (out_right a (y ∷ ys) (z ∷ zs) i) ∙ s1 a (out_left a (y ∷ ys) (z ∷ zs) i),
    )

relink-Chain :
    (h : Store) (l : ObjList) (p : ℕ) (ys zs : List ℕ)
    → Chain h l 0 ys p
    → Chain h l p zs 0
    → Distinct (ys ++ zs)
    → has 0 (ys ++ zs) ≡ false
    → Relinked h l ys zs
unfolding Relinked relink unlink_prev unlink_next set_prev
relink-Chain h l p [] [] c k d o = (h, refl, tt, tt, λ a i. refl)
relink-Chain h l p [] (z ∷ zs) c k d o = relink_first h l p z zs k d o
relink-Chain h l p (y ∷ ys) [] c k d o =
    relink_last h l p y ys c (Distinct-left (y ∷ ys) [] d) (out_left 0 (y ∷ ys) [] o)
relink-Chain h l p (y ∷ ys) (z ∷ zs) c k d o = relink_both h l p y z ys zs c k d o

out_mid : (a : ℕ) (ys zs : List ℕ) (p : ℕ) → has a (ys ++ p ∷ zs) ≡ false → has a (ys ++ zs) ≡ false
out_mid a ys zs p o = ground (arith, has-append a ys (p ∷ zs), has-append a ys zs)

-- The addresses that are left are distinct, and the object's is not among them.
pub left_Distinct :
    (ys zs : List ℕ) (p : ℕ)
    → Distinct (ys ++ p ∷ zs)
    → Distinct (ys ++ zs) × (has p (ys ++ zs) ≡ false)
left_Distinct [] zs p (e, d) = (d, e)
left_Distinct (y ∷ ys) zs p (e, d) =
    let (d', o) = left_Distinct ys zs p d in
    (
      (ground (arith, has-append y ys (p ∷ zs), has-append y ys zs), d'),
      ground (arith, has-append y ys (p ∷ zs)),
    )

ends_head :
    (l : ObjList) (ys zs : List ℕ) (p : ℕ)
    → l.head ≡ first (ys ++ p ∷ zs) 0
    → has 0 (ys ++ zs) ≡ false
    → (if last 0 ys == 0 then first zs 0 else l.head) ≡ first (ys ++ zs) 0
ends_head l [] zs p e o = refl
ends_head l (y ∷ ys) zs p e o = rw (nonnull_last y ys (out_left 0 (y ∷ ys) zs o)) e

pub last-append : (q : ℕ) (xs ys : List ℕ) → last q (xs ++ ys) ≡ last (last q xs) ys
last-append q [] ys = refl
last-append q (x ∷ xs) ys = last-append x xs ys

ends_tail :
    (l : ObjList) (ys zs : List ℕ) (p : ℕ)
    → l.tail ≡ last 0 (ys ++ p ∷ zs)
    → has 0 (ys ++ zs) ≡ false
    → (if first zs 0 == 0 then last 0 ys else l.tail) ≡ last 0 (ys ++ zs)
ends_tail l ys [] p e o = sym (last-append 0 ys [])
ends_tail l ys (z ∷ zs) p e o =
    rw (nonnull_head z zs (out_right 0 ys (z ∷ zs) o))
      (e ∙ last-append 0 ys (p ∷ z ∷ zs) ∙ sym (last-append 0 ys (z ∷ zs)))

bind_assoc :
    {A B C : Type 0} (m : Option A) (f : A → Option B) (k : B → Option C)
    → ((m >>= f) >>= k) ≡ (m >>= λ x. f x >>= k)
bind_assoc none f k = refl
bind_assoc (some x) f k = refl

-- What `remove` does after the links are changed.
finish : ObjList → ℕ → ℕ → ℕ → Store → Option (Store × ObjList)
finish l p cp cn h2 = modify h2 p freed >>= λ h3. some (h3, shrink (take_ends l cp cn))

remove_step :
    (h : Store) (l : ObjList) (p cp cn : ℕ)
    → h p ≡ some (linked l cp cn)
    → remove h l p ≡ unlink h l p cp cn
unfolding remove
remove_step h l p cp cn e =
    let same : (l.list_seed == l.list_seed) ≡ true = (==_iff l.list_seed l.list_seed).1 refl in
    rw (e, same) refl

unlink_step :
    (h : Store) (l : ObjList) (p cp cn : ℕ)
    → unlink h l p cp cn ≡ (relink h cp cn >>= finish l p cp cn)
unfolding unlink relink finish
unlink_step h l p cp cn =
    sym (bind_assoc (unlink_prev h cp cn) (λ h1. unlink_next h1 cp cn) (finish l p cp cn))

-- `remove` of an object that is in the list, by the unlinking of its neighbours.
remove-linked :
    (h h2 : Store) (l : ObjList) (p cp cn : ℕ)
    → h p ≡ some (linked l cp cn)
    → relink h cp cn ≡ some h2
    → h2 p ≡ some (linked l cp cn)
    → remove h l p ≡ some (write h2 p (freed (linked l cp cn)), shrink (take_ends l cp cn))
unfolding finish
remove-linked h h2 l p cp cn e r e2 =
    remove_step h l p cp cn e
    ∙ unlink_step h l p cp cn
    ∙ ap (λ m. m >>= finish l p cp cn) r
    ∙ ap (λ m. m >>= λ h3. some (h3, shrink (take_ends l cp cn)))
        (modify-some h2 p freed (linked l cp cn) e2)

-- remove of an object in the middle of the sequence, or at an end of it: it faults nowhere, the
-- list is then the sequence without the object, whose header looks free again, and no header
-- outside the list is written.
pub remove-IsList :
    (h : Store) (l : ObjList) (ys zs : List ℕ) (p : ℕ)
    → IsList h l (ys ++ p ∷ zs)
    → (g : Store) × (l' : ObjList) × (v : Hdr) × (remove h l p ≡ some (g, l'))
      × IsList g l' (ys ++ zs)
      × (g p ≡ some v)
      × (is_free v ≡ true)
      × SameOutside (ys ++ p ∷ zs) h g
unfolding Relinked
remove-IsList h l ys zs p i =
    let (c, (e, k)) = Chain-split h l 0 ys (p ∷ zs) 0 i.chain in
    let (d, o) = left_Distinct ys zs p i.distinct in
    let z = out_mid 0 ys zs p i.no_null in
    let (h2, r, c2, k2, same) = relink-Chain h l p ys zs c k d z in
    let cp = last 0 ys in
    let cn = first zs 0 in
    let v = freed (linked l cp cn) in
    let g = write h2 p v in
    let spared = λ (a : ℕ) (m : has a (ys ++ zs) ≡ true).
      write_ne h2 p v a (ne_sym p a (ne_of_has p a (ys ++ zs) o m)) in
    (
      g,
      shrink (take_ends l cp cn),
      v,
      remove-linked h h2 l p cp cn e r (same p o ∙ e),
      record {
        chain = frame h2 g l 0 (ys ++ zs) 0 (Chain-append h2 l 0 ys zs 0 c2 k2) spared;
        at_head = ends_head l ys zs p i.at_head z;
        at_tail = ends_tail l ys zs p i.at_tail z;
        counted = omega (arith, i.counted, length-append ys (p ∷ zs), length-append ys zs);
        distinct = d;
        no_null = z;
        named = i.named;
        seeded = i.seeded;
      },
      write_eq h2 p v,
      refl,
      λ a m.
          write_ne h2 p v a (ne_head a p zs (out_right a ys (p ∷ zs) m))
          ∙ same a (out_mid a ys zs p m),
    )
