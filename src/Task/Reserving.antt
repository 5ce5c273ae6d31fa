-- ===== src/Task/Reserving.antt =====
-- EdTask: the state of the reserved objects, and what a running destructor does to it.
use ednio.Prelude.{
  ℕ, ◌≡◌, refl, sym, ap, ◌∙◌, List, [], ◌∷◌, ◌++◌, Bool, true, false, ◌||◌, Option, some, ◌>>=◌,
  ◌==◌, Bool-cases, ◌⊎◌, ==_iff, inl, inr, arith, append_assoc, append-nil,
}
use ednio.ObjList.Chain.{has, Distinct, has-append}
use ednio.ObjList.Push.{Distinct-snoc}
use ednio.Task.Reserve.{Objects, reserve_free, reserve_all}

-- With the objects whose destructor runs: an object that exists has `mIsFree` set when it is one of
-- these or in the list; those in the list exist, each once, and their destructors do not run; and no
-- object is there twice, or exists and is deleted.
pub record IsSound (dying : List ℕ) (s : Objects) : Type 0 where
  pub flagged :
      (y : ℕ) → has y s.alive ≡ true → has y s.is_free ≡ (has y dying || has y s.reserve_free_list)
  pub present : (y : ℕ) → has y s.reserve_free_list ≡ true → has y s.alive ≡ true
  pub waiting : (y : ℕ) → has y s.reserve_free_list ≡ true → has y dying ≡ false
  pub once : Distinct s.reserve_free_list
  pub separate : Distinct (s.alive ++ s.deleted)

-- A destructor that runs uses objects that exist.
abbrev pub UsesAlive : (ℕ → Objects → List ℕ) → Type 0
UsesAlive destructor =
    (x : ℕ) (s : Objects) (y : ℕ) → has y (destructor x s) ≡ true → has y s.alive ≡ true

-- The same objects exist, and some more of them are in the list.
abbrev pub More : List ℕ → Objects → Option Objects → Type 0
More dying s o =
    (t : Objects) × (o ≡ some t)
    × IsSound dying t
    × (t.alive ≡ s.alive)
    × (t.deleted ≡ s.deleted)
    × (more : List ℕ) × (t.reserve_free_list ≡ s.reserve_free_list ++ more)

pub has_head : (x : ℕ) (xs : List ℕ) → has x (x ∷ xs) ≡ true
has_head x xs = ground arith

pub has_tail : (y x : ℕ) (xs : List ℕ) → has y xs ≡ true → has y (x ∷ xs) ≡ true
has_tail y x xs m = ground arith

neither : (a b : Bool) → (a || b) ≡ false → (a ≡ false) × (b ≡ false)
neither true b h = cc
neither false b h = (refl, h)

-- An entry of a longer list.
snoc_cases : (y x : ℕ) (xs : List ℕ) → has y (xs ++ x ∷ []) ≡ true → (has y xs ≡ true) ⊎ (y ≡ x)
snoc_cases y x xs m = elim (Bool-cases (y == x)) [
  | inl e ↦ inr ((==_iff y x).0 e)
  | inr e ↦ inl (ground (arith, has-append y xs (x ∷ [])))
]

pushed : ℕ → Objects → Objects
pushed x s = record s { is_free = x ∷ s.is_free; reserve_free_list = s.reserve_free_list ++ x ∷ [] }

pushed-IsSound :
    (dying : List ℕ) (x : ℕ) (s : Objects)
    → has x s.alive ≡ true
    → has x s.is_free ≡ false
    → IsSound dying s
    → IsSound dying (pushed x s)
unfolding pushed
pushed-IsSound dying x s a f i =
    let unknown = neither (has x dying) (has x s.reserve_free_list) (sym (i.flagged x a) ∙ f) in
    record {
      flagged = λ y h. ground (arith, i.flagged y h, has-append y s.reserve_free_list (x ∷ []));
      present = λ y h. elim (snoc_cases y x s.reserve_free_list h) [
        | inl m ↦ i.present y m
        | inr e ↦ ap (λ k. has k s.alive) e ∙ a
      ];
      waiting = λ y h. elim (snoc_cases y x s.reserve_free_list h) [
        | inl m ↦ i.waiting y m
        | inr e ↦ ap (λ k. has k dying) e ∙ unknown.0
      ];
      once = Distinct-snoc s.reserve_free_list x i.once unknown.1;
      separate = i.separate;
    }

reserve-More :
    (dying : List ℕ) (x : ℕ) (s : Objects)
    → has x s.alive ≡ true
    → IsSound dying s
    → More dying s (reserve_free x s)
unfolding reserve_free pushed
reserve-More dying x s a i = elim (Bool-cases (has x s.is_free)) [
  | inl f ↦ (s, rw (a, f) refl, i, refl, refl, [], sym (append-nil s.reserve_free_list))
  | inr f ↦ (pushed x s, rw (a, f) refl, pushed-IsSound dying x s a f i, refl, refl, x ∷ [], refl)
]

pub all-More :
    (dying xs : List ℕ) (s : Objects)
    → ((y : ℕ) → has y xs ≡ true → has y s.alive ≡ true)
    → IsSound dying s
    → More dying s (reserve_all xs s)
unfolding reserve_all
all-More dying [] s a i = (s, refl, i, refl, refl, [], sym (append-nil s.reserve_free_list))
all-More dying (x ∷ xs) s a i =
    let (t, e, j, al, de, m, l) = reserve-More dying x s (a x (has_head x xs)) i in
    let (u, f, k, al', de', m', l') =
      all-More dying xs t (λ y h. ap (has y) al ∙ a y (has_tail y x xs h)) j in
    (
      u,
      ap (λ o. o >>= reserve_all xs) e ∙ f,
      k,
      al' ∙ al,
      de' ∙ de,
      m ++ m',
      l' ∙ ap (λ k. k ++ m') l ∙ append_assoc s.reserve_free_list m m',
    )
