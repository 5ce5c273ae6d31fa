-- ===== src/Handles/Calls.antt =====
-- EsHandleManager: any call on a table of handles.
use mathlib.Core.Option.{some-injective}
use ednio.Prelude.{
  ℕ, zero, suc, ◌%◌, ◌^◌, ◌<◌, ◌≡◌, refl, sym, ap, ◌∙◌, List, [], ◌∷◌, true, false, Option, none,
  some, ◌==◌, ==_iff, ltb, ◌>>=◌, arith, Bool-cases, inl, inr, true≢false,
}
use ednio.ObjList.Chain.{has, Distinct, has-append}
use ednio.ObjList.Push.{Distinct-snoc}
use ednio.Handles.{
  HandleManager, indices, new_manager, handle_to_obj, alloc_from, alloc_handle, free_at,
  free_handle,
}
use ednio.Handles.Table.{
  IsTable, SameOthers, alloc-IsTable, free-IsTable, free_state, alloc_leads, alloc_others,
  free_others, leads_none, written, has_first,
}

pub data HandleCall : Type 0 where
  allocs : HandleCall
  frees : (handle : ℕ) → HandleCall

-- The handle of the call, and the table.
unfoldable pub handle_call : HandleCall → HandleManager → Option (ℕ × HandleManager)
unfolding alloc_handle free_handle
handle_call allocs m = some (alloc_handle m)
handle_call (frees h) m = do m' ← free_handle h m; some (h, m')

abbrev pub IsNonzero : HandleCall → Type 0
IsNonzero allocs = Unit {0}
IsNonzero (frees h) = (h == 0) ≡ false

-- What becomes of the handle of a call: a full table gives the handle 0 and stays as it is; else the
-- new handle is not 0, led nowhere and leads to the first free entry. A freed one leads nowhere.
abbrev pub Leads : HandleCall → List ℕ → HandleManager → ℕ × HandleManager → Type 0
Leads allocs [] m p = p ≡ (0, m)
Leads allocs (i ∷ is) m p =
    ((p.0 == 0) ≡ false) × (handle_to_obj p.0 m ≡ none) × (handle_to_obj p.0 p.1 ≡ some i)
Leads (frees h) is m p = handle_to_obj h p.1 ≡ none

abbrev pub Outcome : HandleCall → HandleManager → ℕ × HandleManager → Type 0
Outcome c m p = IsTable p.1 × SameOthers p.0 m p.1 × Leads c m.free_list m p

alloc_on :
    (m : HandleManager) (is : List ℕ)
    → m.free_list ≡ is
    → IsTable m
    → IsTable (alloc_from m is).1
      × SameOthers (alloc_from m is).0 m (alloc_from m is).1
      × Leads allocs is m (alloc_from m is)
unfolding alloc_from
alloc_on m [] e t = (t, λ j n o. refl, refl)
alloc_on m (i ∷ is) e t = (
  alloc-IsTable m i is e t,
  alloc_others m i is (t.free_zero i (ap (has i) e ∙ has_first i is)).1,
  alloc_leads m i is e t,
)

no_index : (i : ℕ) → none ≡ some i → true ≡ false
no_index i e = cc

leads_back :
    (m : HandleManager) (h i : ℕ)
    → handle_to_obj h m ≡ some i
    → (i < m.max_handle) × ((m.res i).handle ≡ h) × (h % 2 ^ 16 ≡ i)
unfolding handle_to_obj
leads_back m h i e =
    let k = h % 2 ^ 16 in
    elim (Bool-cases (ltb k m.max_handle)) [
      | inl y ↦ elim (Bool-cases ((m.res k).handle == h)) [
        | inl z ↦
            let q = some-injective k i (rw z at (rw y at e)) in
            (ground arith, ap (λ j. (m.res j).handle) (sym q) ∙ (==_iff (m.res k).handle h).0 z, q)
        | inr z ↦ absurd (true≢false (no_index i (rw z at (rw y at e))))
      ]
      | inr o ↦ absurd (true≢false (no_index i (rw o at e)))
    ]

not_free :
    (m : HandleManager) (h i : ℕ)
    → (m.res i).handle ≡ h
    → (h == 0) ≡ false
    → IsTable m
    → has i m.free_list ≡ false
not_free m h i z n t = elim (Bool-cases (has i m.free_list)) [
  | inl y ↦ absurd (ground (arith, (t.free_zero i y).1))
  | inr o ↦ o
]

free_on :
    (m : HandleManager) (h : ℕ) (o : Option ℕ)
    → handle_to_obj h m ≡ o
    → (h == 0) ≡ false
    → IsTable m
    → (m' : HandleManager) × (free_at m o ≡ some m')
      × IsTable m'
      × SameOthers h m m'
      × (handle_to_obj h m' ≡ none)
unfolding free_at free_state
free_on m h none e n t = (m, refl, t, λ j a b. refl, e)
free_on m h (some i) e n t =
    let (l, z, q) = leads_back m h i e in
    let busy = not_free m h i z n t in
    let zero_there = written m.res i record (m.res i) { handle = 0 } in
    (
      free_state m i,
      rw busy refl,
      free-IsTable m i l busy t,
      free_others m h i z,
      leads_none (free_state m i) h (ap (λ k. ((free_state m i).res k).handle) q ∙ zero_there) n,
    )

-- On a table, any call of allocHandle, and of freeHandle with a handle that is not 0, breaks nothing
-- and leaves a table, in which every other handle that is not 0 leads where it led. A full table
-- gives the handle 0; else the new handle is not 0, led nowhere before and leads to the first free
-- entry. A freed handle leads nowhere.
pub handle_call-Outcome :
    (c : HandleCall) (m : HandleManager)
    → IsNonzero c
    → IsTable m
    → (p : ℕ × HandleManager) × (handle_call c m ≡ some p) × Outcome c m p
unfolding handle_call alloc_handle free_handle
handle_call-Outcome allocs m z t = (alloc_handle m, refl, alloc_on m m.free_list refl t)
handle_call-Outcome (frees h) m z t =
    let (m', e, t', s, l) = free_on m h (handle_to_obj h m) refl z t in
    ((h, m'), ap (λ o. o >>= λ x. some (h, x)) e, (t', s, l))

has-indices : (k n : ℕ) → has k (indices n) ≡ ltb k n
unfolding indices
has-indices k zero = ground arith
has-indices k (suc n) = ground (arith, has-append k (indices n) (n ∷ []), has-indices k n)

indices-Distinct : (n : ℕ) → Distinct (indices n)
unfolding indices
indices-Distinct zero = tt
indices-Distinct (suc n) =
    Distinct-snoc (indices n) n (indices-Distinct n) (has-indices n n ∙ ground arith)

-- A new manager is a table.
pub new_manager-IsTable : (max seed : ℕ) → max < 2 ^ 16 → IsTable (new_manager max seed)
unfolding new_manager
new_manager-IsTable max seed l = record {
  limit = l;
  distinct = indices-Distinct max;
  free_zero = λ i h. (ground (arith, has-indices i max), refl);
  used = λ i u o. absurd (ground (arith, has-indices i max));
}
