-- ===== src/Task/Reserve.antt =====
-- EdTask (ednio/EdTask.cpp), EdObject (ednio/EdObject.h): objects that are reserved to be deleted when
-- the task closes. What a destructor reserves is an argument; using a deleted object is a fault.
use ednio.Prelude.{ℕ, zero, suc, List, [], ◌∷◌, ◌++◌, Option, none, some, if◌then◌else◌, ◌>>=◌}
use ednio.ObjList.Chain.{has}
use ednio.ObjList.Refine.{erase}

pub record Objects : Type 0 where
  -- the objects that exist, and those that were deleted
  pub alive : List ℕ
  pub deleted : List ℕ
  -- the objects whose `mIsFree` is set
  pub is_free : List ℕ
  -- `mReserveFreeList`
  pub reserve_free_list : List ℕ

-- `reserveFree`.
unfoldable pub reserve_free : ℕ → Objects → Option Objects
reserve_free x s =
    if has x s.alive
    then some (
        if has x s.is_free then s else record s {
          is_free = x ∷ s.is_free;
          reserve_free_list = s.reserve_free_list ++ x ∷ [];
        })
    else none

unfoldable pub reserve_all : List ℕ → Objects → Option Objects
unfolding reserve_free
reserve_all [] s = some s
reserve_all (x ∷ xs) s = reserve_free x s >>= reserve_all xs

-- The objects that the destructor of an object hands to `reserveFree`.
module _ (destructor : ℕ → Objects → List ℕ) where
  -- `delete`: the destructor, then the memory.
  unfoldable pub delete_obj : ℕ → Objects → Option Objects
  unfolding reserve_all erase
  delete_obj x s =
      if has x s.alive
      then (reserve_all (destructor x s) s >>= λ t.
          some record t { alive = erase x t.alive; deleted = t.deleted ++ x ∷ [] })
      else none

  -- `freeReservedObjs`, for at most so many objects.
  unfoldable pub free_reserved_objs : ℕ → Objects → Option Objects
  unfolding delete_obj
  free_reserved_objs zero s = elim s.reserve_free_list [ [] ↦ some s | x ∷ rest ↦ none ]
  free_reserved_objs (suc n) s = elim s.reserve_free_list [
    | [] ↦ some s
    | x ∷ rest ↦
        delete_obj x (record s { reserve_free_list = rest }) >>= λ t. free_reserved_objs n t
  ]
