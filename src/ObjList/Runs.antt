-- ===== src/ObjList/Runs.antt =====
-- EdObjList: any calls of push_back, remove and pop_front do what the calls on a sequence of distinct
-- objects do.
use ednio.Prelude.{
  ℕ, ◌≡◌, refl, ap, ◌∙◌, List, [], ◌∷◌, true, false, Option, some, ◌==◌, ==_iff, ◌>>=◌, Bool-cases,
  inl, inr,
}
use ednio.ObjList.{Store, ObjList, remove, pop_front}
use ednio.ObjList.Chain.{has}
use ednio.ObjList.Remove.{nonnull_head}
use ednio.ObjList.Refine.{
  Call, push, take_out, pop_first, call, spec, World, Pushed, Removed, push_old, push_new, removed,
  remove_parted,
}

-- The object of a call is one of those given.
unfoldable pub Allows : List ℕ → Call → Type 0
Allows objs (push p) = has p objs ≡ true
Allows objs (take_out p) = has p objs ≡ true
Allows objs pop_first = Unit {0}

unfoldable pub AllAllows : List ℕ → List Call → Type 0
unfolding Allows
AllAllows objs [] = Unit {0}
AllAllows objs (c ∷ cs) = Allows objs c × AllAllows objs cs

Matches : List ℕ → Call → Store × ObjList → List ℕ → Type 0
Matches objs c s xs =
    (g : Store) × (l' : ObjList) × (call c s ≡ some ((spec c xs).0, g, l'))
    × World objs g l' (spec c xs).1

pop_front_lem :
    (h g : Store) (l l' : ObjList) (x : ℕ)
    → l.head ≡ x
    → (x == 0) ≡ false
    → remove h l x ≡ some (g, l')
    → pop_front h l ≡ some (x, g, l')
unfolding pop_front
pop_front_lem h g l l' x e z r =
    let nonnull : (l.head == 0) ≡ false = ap (λ a. a == 0) e ∙ z in
    rw nonnull (
      ap (λ a. remove h l a >>= λ q. some (a, q.0, q.1)) e
      ∙ ap (λ m. m >>= λ q. some (x, q.0, q.1)) r)

pop_front_none : (h : Store) (l : ObjList) → (l.head == 0) ≡ true → pop_front h l ≡ some (0, h, l)
unfolding pop_front
pop_front_none h l e = rw e refl

call-Matches :
    (objs : List ℕ) (c : Call) (h : Store) (l : ObjList) (xs : List ℕ)
    → World objs h l xs
    → Allows objs c
    → Matches objs c (h, l) xs
unfolding Matches call spec Allows Pushed Removed
call-Matches objs (push p) h l xs w k =
    let (g, l', r, w') = elim (Bool-cases (has p xs)) as (λ _. Pushed objs h l xs p) [
      | inl m ↦ push_old objs h l xs p w m
      | inr o ↦ push_new objs h l xs p w k o
    ] in
    (g, l', ap (λ m. m >>= λ q. some (0, q.0, q.1)) r, w')
call-Matches objs (take_out p) h l xs w k =
    let (g, l', r, w') = removed objs h l xs p w k in
    (g, l', ap (λ m. m >>= λ q. some (0, q.0, q.1)) r, w')
call-Matches objs pop_first h l [] w k =
    let null : (l.head == 0) ≡ true = (==_iff l.head 0).1 w.is_list.at_head in
    (h, l, pop_front_none h l null, w)
call-Matches objs pop_first h l (x ∷ xs) w k =
    let (g, l', r, w') = remove_parted objs h l [] xs x w in
    (g, l', pop_front_lem h g l l' x w.is_list.at_head (nonnull_head x xs w.is_list.no_null) r, w')

-- The calls one after the other, with what they return.
unfoldable pub run : List Call → Store × ObjList → Option (List ℕ × Store × ObjList)
unfolding call
run [] (h, l) = some ([], h, l)
run (c ∷ cs) s = do r ← call c s; q ← run cs (r.1, r.2); some (r.0 ∷ q.0, q.1, q.2)

unfoldable pub spec_run : List Call → List ℕ → List ℕ × List ℕ
unfolding spec
spec_run [] xs = ([], xs)
spec_run (c ∷ cs) xs = let q = spec_run cs (spec c xs).1 in ((spec c xs).0 ∷ q.0, q.1)

-- From a list that holds `xs`, with the objects `objs` allocated and each in the list or looking
-- free, any calls with those objects fault nowhere, return what the calls on the sequence return,
-- and leave a list that holds the sequence they leave, each object in it or looking free.
pub run-spec_run :
    (objs : List ℕ) (cs : List Call) (h : Store) (l : ObjList) (xs : List ℕ)
    → World objs h l xs
    → AllAllows objs cs
    → (g : Store) × (l' : ObjList) × (run cs (h, l) ≡ some ((spec_run cs xs).0, g, l'))
      × World objs g l' (spec_run cs xs).1
unfolding run spec_run AllAllows Matches
run-spec_run objs [] h l xs w k = (h, l, refl, w)
run-spec_run objs (c ∷ cs) h l xs w (k, ks) =
    let (g, l', e, w') = call-Matches objs c h l xs w k in
    let (g2, l2, e2, w2) = run-spec_run objs cs g l' (spec c xs).1 w' ks in
    (
      g2,
      l2,
      ap (λ m. m >>= λ r. run cs (r.1, r.2) >>= λ q. some (r.0 ∷ q.0, q.1, q.2)) e
          ∙ ap (λ m. m >>= λ q. some ((spec c xs).0 ∷ q.0, q.1, q.2)) e2,
      w2,
    )
