-- ===== src/Task/Freed.antt =====
-- EdTask: the objects that are reserved are deleted once each, and all of them.
use ednio.Prelude.{
  ℕ, zero, suc, ◌≤◌, ◌≡◌, refl, sym, ap, ap₂, ◌∙◌, subst, List, [], ◌∷◌, ◌++◌, true, false, ◌||◌,
  Option, none, some, if◌then◌else◌, ◌>>=◌, ◌==◌, Bool-cases, ==_iff, inl, inr, arith, length,
  true≢false, append_assoc, append-nil,
}
use ednio.ObjList.Chain.{has, Distinct, Distinct-left}
use ednio.ObjList.Refine.{erase}
use ednio.ObjList.Erase.{
  moved_Distinct, has-erase_other, has-erase_within, has-erase_self, length-erase,
}
use ednio.Task.Reserve.{Objects, reserve_all, delete_obj, free_reserved_objs}
use ednio.Task.Reserving.{IsSound, UsesAlive, has_head, has_tail, all-More}

-- The first object of the list is taken out, and its destructor is about to run.
taken-IsSound :
    (x : ℕ) (rest : List ℕ) (s : Objects)
    → s.reserve_free_list ≡ x ∷ rest
    → IsSound [] s
    → IsSound (x ∷ []) (record s { reserve_free_list = rest })
taken-IsSound x rest s e i =
    let (o, d) = subst Distinct e i.once in
    record {
      flagged = λ y h. ground (arith, i.flagged y h ∙ ap (has y) e);
      present = λ y h. i.present y (ap (has y) e ∙ has_tail y x rest h);
      waiting = λ y h. elim (Bool-cases (y == x)) [
        | inl k ↦ absurd (true≢false (sym h ∙ ap (λ z. has z rest) ((==_iff y x).0 k) ∙ o))
        | inr k ↦ rw k refl
      ];
      once = d;
      separate = i.separate;
    }

first_alive :
    (x : ℕ) (rest : List ℕ) (s : Objects)
    → s.reserve_free_list ≡ x ∷ rest
    → IsSound [] s
    → has x s.alive ≡ true
first_alive x rest s e i = i.present x (ap (has x) e ∙ has_head x rest)

-- The object is gone.
gone : ℕ → Objects → Objects
gone x t = record t { alive = erase x t.alive; deleted = t.deleted ++ x ∷ [] }

not_same : (y x : ℕ) → has y (x ∷ []) ≡ false → (y == x) ≡ false
not_same y x h = ground arith

apart_erased : (y x : ℕ) (xs : List ℕ) → Distinct xs → has y (erase x xs) ≡ true → (y == x) ≡ false
apart_erased y x xs d h = elim (Bool-cases (y == x)) [
  | inl k ↦
      absurd (
        true≢false
          (sym h ∙ ap (λ z. has z (erase x xs)) ((==_iff y x).0 k) ∙ has-erase_self x xs d))
  | inr k ↦ k
]

gone-IsSound :
    (x : ℕ) (t : Objects) → has x t.alive ≡ true → IsSound (x ∷ []) t → IsSound [] (gone x t)
unfolding gone
gone-IsSound x t a i = record {
  flagged = λ y h.
      i.flagged y (has-erase_within y x t.alive h)
      ∙ ap (λ b. (b || false) || has y t.reserve_free_list)
          (apart_erased y x t.alive (Distinct-left t.alive t.deleted i.separate) h);
  present = λ y h. has-erase_other y x t.alive (not_same y x (i.waiting y h)) (i.present y h);
  waiting = λ y h. refl;
  once = i.once;
  separate = moved_Distinct x t.alive t.deleted a i.separate;
}

delete-Sound :
    (destructor : ℕ → Objects → List ℕ) (x : ℕ) (rest : List ℕ) (s : Objects)
    → UsesAlive destructor
    → s.reserve_free_list ≡ x ∷ rest
    → IsSound [] s
    → (t : Objects) × (delete_obj destructor x (record s { reserve_free_list = rest }) ≡ some t)
      × IsSound [] t
      × (t.alive ≡ erase x s.alive)
      × (t.deleted ≡ s.deleted ++ x ∷ [])
      × (more : List ℕ) × (t.reserve_free_list ≡ rest ++ more)
unfolding delete_obj gone
delete-Sound destructor x rest s u e i =
    let r = record s { reserve_free_list = rest } in
    let a = first_alive x rest s e i in
    let (t, f, j, al, de, m, l) =
      all-More (x ∷ []) (destructor x r) r (u x r) (taken-IsSound x rest s e i) in
    (
      gone x t,
      ap (λ b. if b then (reserve_all (destructor x r) r >>= λ k. some (gone x k)) else none) a
          ∙ ap (λ o. o >>= λ k. some (gone x k)) f,
      gone-IsSound x t (ap (has x) al ∙ a) j,
      ap (erase x) al,
      ap (λ k. k ++ x ∷ []) de,
      m,
      l,
    )

loop_none :
    (destructor : ℕ → Objects → List ℕ) (n : ℕ) (s : Objects)
    → s.reserve_free_list ≡ []
    → free_reserved_objs destructor n s ≡ some s
unfolding free_reserved_objs
loop_none destructor zero s e =
    ap (λ l. elim l as (λ _. Option Objects) [ [] ↦ some s | x ∷ rest ↦ none ]) e
loop_none destructor (suc n) s e =
    ap
      (λ l. elim l as (λ _. Option Objects) [
        | [] ↦ some s
        | x ∷ rest ↦ delete_obj destructor x (record s { reserve_free_list = rest }) >>= λ t.
            free_reserved_objs destructor n t
      ])
      e

loop_some :
    (destructor : ℕ → Objects → List ℕ) (n x : ℕ) (rest : List ℕ) (s t : Objects)
    → s.reserve_free_list ≡ x ∷ rest
    → delete_obj destructor x (record s { reserve_free_list = rest }) ≡ some t
    → free_reserved_objs destructor (suc n) s ≡ free_reserved_objs destructor n t
unfolding free_reserved_objs
loop_some destructor n x rest s t e d =
    ap
      (λ l. elim l as (λ _. Option Objects) [
        | [] ↦ some s
        | x ∷ rest ↦ delete_obj destructor x (record s { reserve_free_list = rest }) >>= λ t.
            free_reserved_objs destructor n t
      ])
      e
    ∙ ap (λ o. o >>= λ t. free_reserved_objs destructor n t) d

ends :
    (destructor : ℕ → Objects → List ℕ) (n : ℕ) (s : Objects) (l : List ℕ)
    → UsesAlive destructor
    → IsSound [] s
    → length s.alive ≤ n
    → s.reserve_free_list ≡ l
    → (v : Objects) × (free_reserved_objs destructor n s ≡ some v)
      × IsSound [] v
      × (v.reserve_free_list ≡ [])
      × (more : List ℕ) × (v.deleted ≡ s.deleted ++ (l ++ more))
ends destructor n s [] u i h e =
    (s, loop_none destructor n s e, i, e, [], sym (append-nil s.deleted))
ends destructor zero s (x ∷ rest) u i h e =
    absurd (omega (arith, h, length-erase x s.alive (first_alive x rest s e i)))
ends destructor (suc n) s (x ∷ rest) u i h e =
    let (t, f, j, al, de, m, l) = delete-Sound destructor x rest s u e i in
    let (v, g, k, z, m', d) =
      ends destructor n t t.reserve_free_list u j
        (omega (arith, h, ap length al, length-erase x s.alive (first_alive x rest s e i))) refl in
    (
      v,
      loop_some destructor n x rest s t e f ∙ g,
      k,
      z,
      m ++ m',
      d
          ∙ ap₂ (λ a b. a ++ (b ++ m')) de l
          ∙ append_assoc s.deleted (x ∷ []) ((rest ++ m) ++ m')
          ∙ ap (λ k. s.deleted ++ x ∷ k) (append_assoc rest m m'),
    )

-- With destructors that use only objects that exist: from a sound state, where what is listed
-- exists and stands there once and no object exists twice, the loop ends after at most as many
-- rounds as objects exist, with an empty list in a sound state. It has deleted the listed objects
-- in their order and then those that the destructors reserved, none of them twice.
pub free_reserved_objs-IsSound :
    (destructor : ℕ → Objects → List ℕ) (n : ℕ) (s : Objects)
    → UsesAlive destructor
    → IsSound [] s
    → length s.alive ≤ n
    → (u : Objects) × (free_reserved_objs destructor n s ≡ some u)
      × IsSound [] u
      × (u.reserve_free_list ≡ [])
      × (more : List ℕ) × (u.deleted ≡ s.deleted ++ (s.reserve_free_list ++ more))
free_reserved_objs-IsSound destructor n s u i h = ends destructor n s s.reserve_free_list u i h refl
