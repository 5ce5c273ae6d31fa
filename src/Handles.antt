-- ===== src/Handles.antt =====
-- EsHandleManager (ednio/EsHandleManager.h): objects behind handles of 32 bits, of a seed and an index.
-- The list of free entries (ednio/EsList.h) is the sequence of their indices.
pub mod Table
pub mod Calls
mod Tests
use ednio.Prelude.{
  ℕ, zero, suc, ◌+◌, ◌*◌, ◌%◌, ◌^◌, ◌-◌, List, [], ◌∷◌, ◌++◌, Bool, true, false, Option, none, some,
  ◌==◌, ltb, if◌then◌else◌, ◌||◌, ◌>>=◌, length,
}
use ednio.ObjList.Chain.{has}

-- `handleinfo`; its index is its place in the block.
pub record HandleInfo : Type 0 where
  pub handle : ℕ
  pub obj : ℕ

pub record HandleManager : Type 0 where
  pub max_handle : ℕ
  pub free_list : List ℕ
  -- The entries of `mRes` below `max_handle`.
  pub res : ℕ → HandleInfo
  pub handle_seed : ℕ

unfoldable pub indices : ℕ → List ℕ
indices zero = []
indices (suc n) = indices n ++ n ∷ []

-- The constructor, without objects of its own.
unfoldable pub new_manager : ℕ → ℕ → HandleManager
unfolding indices
new_manager max seed = record {
  max_handle = max;
  free_list = indices max;
  res = λ i. record { handle = 0; obj = 0 };
  handle_seed = seed;
}

unfoldable pub write_info : (ℕ → HandleInfo) → ℕ → HandleInfo → ℕ → HandleInfo
write_info res i x j = if j == i then x else res j

-- `HANDLE_TO_OBJ`: the index of the entry.
unfoldable pub handle_to_obj : ℕ → HandleManager → Option ℕ
handle_to_obj h m =
    let i = h % 2 ^ 16 in
    if ltb i m.max_handle then (if (m.res i).handle == h then some i else none) else none

unfoldable pub next_handle_seed : ℕ → ℕ
next_handle_seed seed = let s = (seed + 1) % 2 ^ 16 in if s == 0 then 1 else s

unfoldable pub alloc_from : HandleManager → List ℕ → ℕ × HandleManager
unfolding next_handle_seed write_info
alloc_from m [] = (0, m)
alloc_from m (i ∷ is) =
    let seed = next_handle_seed m.handle_seed in
    let h = seed * 2 ^ 16 + i in
    (
      h,
      record m {
        free_list = is;
        handle_seed = seed;
        res = write_info m.res i record (m.res i) { handle = h };
      },
    )

unfoldable pub alloc_handle : HandleManager → ℕ × HandleManager
unfolding alloc_from
alloc_handle m = alloc_from m m.free_list

-- An entry that is free already and is added again breaks the links of the list.
unfoldable pub free_at : HandleManager → Option ℕ → Option HandleManager
unfolding write_info
free_at m none = some m
free_at m (some i) =
    if has i m.free_list
    then none
    else some record m {
      free_list = m.free_list ++ i ∷ [];
      res = write_info m.res i record (m.res i) { handle = 0 };
    }

unfoldable pub free_handle : ℕ → HandleManager → Option HandleManager
unfolding free_at handle_to_obj
free_handle h m = free_at m (handle_to_obj h m)

unfoldable pub get_handle_count : HandleManager → ℕ
get_handle_count m = m.max_handle - length m.free_list

unfoldable pub object_at : HandleManager → Option ℕ → ℕ
object_at m none = 0
object_at m (some i) = (m.res i).obj

-- `getObject`, with 0 for NULL.
unfoldable pub get_object : ℕ → HandleManager → ℕ
unfolding object_at handle_to_obj
get_object h m = object_at m (handle_to_obj h m)

unfoldable pub put_object : ℕ → HandleManager → Option ℕ → HandleManager
unfolding write_info
put_object obj m none = m
put_object obj m (some i) = record m { res = write_info m.res i record (m.res i) { obj = obj } }

unfoldable pub set_object : ℕ → ℕ → HandleManager → HandleManager
unfolding put_object handle_to_obj
set_object h obj m = put_object obj m (handle_to_obj h m)
