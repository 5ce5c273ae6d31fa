-- ===== src/Handles/Table.antt =====
-- EsHandleManager: which handles lead to an entry.
use ednio.Prelude.{
  ℕ, ◌+◌, ◌*◌, ◌%◌, ◌^◌, ◌<◌, ◌≡◌, refl, sym, ap, ◌∙◌, subst, List, [], ◌∷◌, ◌++◌, true, false,
  none, some, ◌==◌, ==_iff, ltb, if◌then◌else◌, arith, Bool-cases, inl, inr, true≢false,
}
use ednio.ObjList.Chain.{has, Distinct, has-append}
use ednio.ObjList.Push.{Distinct-snoc}
use ednio.Handles.{
  HandleInfo, HandleManager, write_info, handle_to_obj, next_handle_seed, alloc_from,
}

-- Free entries have the handle 0 and the others one that is not 0 and holds their index.
pub record IsTable (m : HandleManager) : Type 0 where
  pub limit : m.max_handle < 2 ^ 16
  pub distinct : Distinct m.free_list
  pub free_zero : (i : ℕ) → has i m.free_list ≡ true → (i < m.max_handle) × ((m.res i).handle ≡ 0)
  pub used :
      (i : ℕ)
      → i < m.max_handle
      → has i m.free_list ≡ false
      → ((m.res i).handle % 2 ^ 16 ≡ i) × (((m.res i).handle == 0) ≡ false)

-- Every other handle leads where it led.
abbrev pub SameOthers : ℕ → HandleManager → HandleManager → Type 0
SameOthers h m m' =
    (j : ℕ) → (j == 0) ≡ false → (j == h) ≡ false → handle_to_obj j m' ≡ handle_to_obj j m

pub has_first : (a : ℕ) (xs : List ℕ) → has a (a ∷ xs) ≡ true
has_first a xs = ground arith

handle_parts : (s i : ℕ) → i < 2 ^ 16 → (s * 2 ^ 16 + i) % 2 ^ 16 ≡ i
handle_parts s i l = omega arith

seed_positive : (s : ℕ) → 0 < next_handle_seed s
unfolding next_handle_seed
seed_positive s = ground arith

pub alloc_others :
    (m : HandleManager) (i : ℕ) (is : List ℕ)
    → (m.res i).handle ≡ 0
    → SameOthers (alloc_from m (i ∷ is)).0 m (alloc_from m (i ∷ is)).1
unfolding alloc_from handle_to_obj write_info
alloc_others m i is z j n o = ground arith

pub free_others :
    (m : HandleManager) (h i : ℕ)
    → (m.res i).handle ≡ h
    → SameOthers h m (record m {
      free_list = m.free_list ++ i ∷ [];
      res = write_info m.res i record (m.res i) { handle = 0 };
    })
unfolding handle_to_obj write_info
free_others m h i e j n o = ground arith

has_tail : (k i : ℕ) (is : List ℕ) → (k == i) ≡ false → has k (i ∷ is) ≡ has k is
has_tail k i is n = ground arith

alloc_free_zero :
    (m : HandleManager) (i : ℕ) (is : List ℕ) (k : ℕ)
    → m.free_list ≡ i ∷ is
    → Distinct (i ∷ is)
    → IsTable m
    → has k is ≡ true
    → (k < m.max_handle) × (((alloc_from m (i ∷ is)).1.res k).handle ≡ 0)
unfolding alloc_from write_info
alloc_free_zero m i is k e (o, d) t h = elim (Bool-cases (k == i)) [
  | inl y ↦ absurd (true≢false (sym h ∙ ap (λ x. has x is) ((==_iff k i).0 y) ∙ o))
  | inr n ↦ rw n (t.free_zero k (ap (has k) e ∙ has_tail k i is n ∙ h))
]

alloc_used :
    (m : HandleManager) (i : ℕ) (is : List ℕ) (k : ℕ)
    → m.free_list ≡ i ∷ is
    → i < m.max_handle
    → IsTable m
    → k < m.max_handle
    → has k is ≡ false
    → (((alloc_from m (i ∷ is)).1.res k).handle % 2 ^ 16 ≡ k)
      × ((((alloc_from m (i ∷ is)).1.res k).handle == 0) ≡ false)
unfolding alloc_from write_info
alloc_used m i is k e u t l o = elim (Bool-cases (k == i)) [
  | inl y ↦ rw y (
    handle_parts (next_handle_seed m.handle_seed) i (omega (arith, u, t.limit))
        ∙ sym ((==_iff k i).0 y),
    ground (arith, seed_positive m.handle_seed),
  )
  | inr n ↦ rw n (t.used k l (ap (has k) e ∙ has_tail k i is n ∙ o))
]

pub leads_none :
    (m : HandleManager) (h : ℕ)
    → (m.res (h % 2 ^ 16)).handle ≡ 0
    → (h == 0) ≡ false
    → handle_to_obj h m ≡ none
unfolding handle_to_obj
leads_none m h z n = ground arith

leads_some :
    (m : HandleManager) (h i : ℕ)
    → h % 2 ^ 16 ≡ i
    → i < m.max_handle
    → (m.res i).handle ≡ h
    → handle_to_obj h m ≡ some i
unfolding handle_to_obj
leads_some m h i e l z =
    let inside : ltb i m.max_handle ≡ true = ground arith in
    ap (λ k. if ltb k m.max_handle then (if (m.res k).handle == h then some k else none) else none)
      e
    ∙ ap (λ b. if b then (if (m.res i).handle == h then some i else none) else none) inside
    ∙ ap (λ b. if b then some i else none) ((==_iff (m.res i).handle h).1 z)

pub alloc-IsTable :
    (m : HandleManager) (i : ℕ) (is : List ℕ)
    → m.free_list ≡ i ∷ is
    → IsTable m
    → IsTable (alloc_from m (i ∷ is)).1
unfolding alloc_from write_info
alloc-IsTable m i is e t =
    let d = subst Distinct e t.distinct in
    let first = t.free_zero i (ap (has i) e ∙ has_first i is) in
    record {
      limit = t.limit;
      distinct = d.1;
      free_zero = λ k h. alloc_free_zero m i is k e d t h;
      used = λ k l o. alloc_used m i is k e first.0 t l o;
    }

pub written :
    (res : ℕ → HandleInfo) (i : ℕ) (x : HandleInfo) → (write_info res i x i).handle ≡ x.handle
unfolding write_info
written res i x = let same : (i == i) ≡ true = ground arith in rw same refl

pub alloc_leads :
    (m : HandleManager) (i : ℕ) (is : List ℕ)
    → m.free_list ≡ i ∷ is
    → IsTable m
    → (((alloc_from m (i ∷ is)).0 == 0) ≡ false)
      × (handle_to_obj (alloc_from m (i ∷ is)).0 m ≡ none)
      × (handle_to_obj (alloc_from m (i ∷ is)).0 (alloc_from m (i ∷ is)).1 ≡ some i)
unfolding alloc_from
alloc_leads m i is e t =
    let (l, z) = t.free_zero i (ap (has i) e ∙ has_first i is) in
    let s = next_handle_seed m.handle_seed in
    let positive = seed_positive m.handle_seed in
    let h = s * 2 ^ 16 + i in
    let nonzero : (h == 0) ≡ false = ground (arith, positive) in
    let low : (s * 2 ^ 16 + i) % 2 ^ 16 ≡ i = omega (arith, l, t.limit) in
    (
      nonzero,
      leads_none m h (ap (λ k. (m.res k).handle) low ∙ z) nonzero,
      leads_some (alloc_from m (i ∷ is)).1 h i low l
          (written m.res i record (m.res i) { handle = h }),
    )

unfoldable pub free_state : HandleManager → ℕ → HandleManager
free_state m i = record m {
  free_list = m.free_list ++ i ∷ [];
  res = write_info m.res i record (m.res i) { handle = 0 };
}

pub free-IsTable :
    (m : HandleManager) (i : ℕ)
    → i < m.max_handle
    → has i m.free_list ≡ false
    → IsTable m
    → IsTable (free_state m i)
unfolding free_state write_info
free-IsTable m i l o t = record {
  limit = t.limit;
  distinct = Distinct-snoc m.free_list i t.distinct o;
  free_zero = λ k h. elim (Bool-cases (k == i)) [
    | inl y ↦ rw y (omega (arith, l, (==_iff k i).0 y), refl)
    | inr n ↦ rw n (t.free_zero k (ground (arith, has-append k m.free_list (i ∷ []))))
  ];
  used = λ k u f. elim (Bool-cases (k == i)) [
    | inl y ↦ absurd (ground (arith, has-append k m.free_list (i ∷ [])))
    | inr n ↦ rw n (t.used k u (ground (arith, has-append k m.free_list (i ∷ []))))
  ];
}
