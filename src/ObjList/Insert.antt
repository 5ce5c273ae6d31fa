-- ===== src/ObjList/Insert.antt =====
-- EdObjList: insert behind the last object.
use ednio.Prelude.{
  ℕ, ◌+◌, ◌%◌, ◌^◌, ◌≡◌, refl, ap, ◌∙◌, List, [], ◌∷◌, ◌++◌, true, false, some, ◌==◌, ==_iff, arith,
  ◌>>=◌, length, length-append,
}
use ednio.ObjList.{
  Hdr, Store, ObjList, write, linked, modify, set_prev, is_free, grow, link_back, push_back,
  link_after, insert, next_of,
}
use ednio.ObjList.Chain.{last, IsList, Chain-split}
use ednio.ObjList.Link.{write_ne, write_eq, modify-some, ne_sym}
use ednio.ObjList.Remove.{last-append}

-- insert behind the last object, whose next is NULL.
insert_last :
    (h : Store) (l : ObjList) (q p k : ℕ) (v : Hdr)
    → h q ≡ some (linked l k 0)
    → h p ≡ some v
    → is_free v ≡ true
    → (q == p) ≡ false
    → insert h l q p ≡ some (write (write h p (linked l q 0)) q (linked l k p), grow l)
unfolding insert link_after set_prev
insert_last h l q p k v e f free ne =
    let same : (l.list_seed == l.list_seed) ≡ true = (==_iff l.list_seed l.list_seed).1 refl in
    let h0 = write h p (linked l q 0) in
    rw (e, f, same, free)
      (ap (λ m. m >>= λ h1. some (h1, grow l))
        (modify-some h0 q (λ u. record u { next = p }) (linked l k 0)
          (write_ne h p (linked l q 0) q ne ∙ e)))

push_behind :
    (h : Store) (l : ObjList) (q r : ℕ) (u v : Hdr)
    → l.tail ≡ q
    → (q == 0) ≡ false
    → h q ≡ some u
    → h r ≡ some v
    → is_free v ≡ true
    → (q == r) ≡ false
    → push_back h l r
      ≡ some
          (write (write h r (linked l q 0)) q (record u { next = r }), grow (record l { tail = r }))
unfolding push_back link_back
push_behind h l q r u v t z e f free ne =
    let nonnull : (l.tail == 0) ≡ false = ap (λ a. a == 0) t ∙ z in
    rw (f, free, nonnull)
      (ap
          (λ a. modify (write h r (linked l a 0)) a (λ w. record w { next = r }) >>= λ h'.
            some (h', grow (record l { tail = r })))
          t
        ∙ ap (λ m. m >>= λ h'. some (h', grow (record l { tail = r })))
            (modify-some (write h r (linked l q 0)) q (λ w. record w { next = r }) u
              (write_ne h r (linked l q 0) q ne ∙ e)))

-- An object `p` inserted behind the last object `q` of a list, and another `r` pushed after it, both
-- free before and different: the link forward from `q` leads to `r`, the header of `p` still says
-- that it is in the list, behind `q`, the size counts it, and no other header is written. So no link
-- forward leads to `p`.
pub insert-push_back :
    (h : Store) (l : ObjList) (xs : List ℕ) (q p r : ℕ) (v w : Hdr)
    → IsList h l (xs ++ q ∷ [])
    → h p ≡ some v
    → is_free v ≡ true
    → h r ≡ some w
    → is_free w ≡ true
    → (p == r) ≡ false
    → (q == p) ≡ false
    → (q == r) ≡ false
    → (q == 0) ≡ false
    → (g : Store) × (l' : ObjList) × ((insert h l q p >>= λ s. push_back s.0 s.1 r) ≡ some (g, l'))
      × (next_of g q ≡ some r)
      × (g p ≡ some (linked l q 0))
      × (l'.tail ≡ r)
      × (l'.size ≡ (length xs + 3) % 2 ^ 32)
      × ((a : ℕ) → (a == p) ≡ false → (a == q) ≡ false → (a == r) ≡ false → g a ≡ h a)
unfolding next_of
insert-push_back h l xs q p r v w i e free f free' pr qp qr z =
    let (_, (k, _)) = Chain-split h l 0 xs (q ∷ []) 0 i.chain in
    let h0 = write h p (linked l q 0) in
    let u = linked l (last 0 xs) p in
    let h1 = write h0 q u in
    let h2 = write h1 r (linked l q 0) in
    let u' = linked l (last 0 xs) r in
    let g = write h2 q u' in
    let rp = ne_sym p r pr in
    let pq = ne_sym q p qp in
    let rq = ne_sym q r qr in
    let t = i.at_tail ∙ last-append 0 xs (q ∷ []) in
    let fresh = write_ne h0 q u r rq ∙ write_ne h p (linked l q 0) r rp ∙ f in
    (
      g,
      grow (record (grow l) { tail = r }),
      ap (λ m. m >>= λ s. push_back s.0 s.1 r) (insert_last h l q p (last 0 xs) v k e free qp)
          ∙ push_behind h1 (grow l) q r u w t z (write_eq h0 q u) fresh free' qr,
      ap (λ m. m >>= λ n. some n.next) (write_eq h2 q u'),
      write_ne h2 q u' p pq
          ∙ write_ne h1 r (linked l q 0) p pr
          ∙ write_ne h0 q u p pq
          ∙ write_eq h p (linked l q 0),
      refl,
      omega (arith, i.counted, length-append xs (q ∷ [])),
      λ a ap aq ar.
          write_ne h2 q u' a aq
          ∙ write_ne h1 r (linked l q 0) a ar
          ∙ write_ne h0 q u a aq
          ∙ write_ne h p (linked l q 0) a ap,
    )
