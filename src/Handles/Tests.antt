-- ===== src/Handles/Tests.antt =====
-- Runs of EsHandleManager: two entries, and the seed 7.
use mathlib.Core.Option.{some-injective}
use ednio.Prelude.{ℕ, ◌≡◌, refl, sym, subst, none, some, arith}
use ednio.Handles.{
  HandleManager, new_manager, indices, alloc_handle, alloc_from, next_handle_seed, write_info,
  handle_to_obj, free_handle, free_at, set_object, get_object, put_object, object_at,
}
use ednio.Handles.Table.{IsTable}
use ednio.Handles.Calls.{
  allocs, frees, handle_call, Outcome, handle_call-Outcome, new_manager-IsTable,
}

unfoldable one_used : HandleManager
one_used = (alloc_handle (new_manager 2 7)).1

one_used-IsTable : IsTable one_used
unfolding one_used handle_call
one_used-IsTable =
    let (p, e, o) =
      handle_call-Outcome allocs (new_manager 2 7) tt (new_manager-IsTable 2 7 (omega arith)) in
    subst (λ q. IsTable q.1) (sym (some-injective (alloc_handle (new_manager 2 7)) p e)) o.0

first_handle : (alloc_handle (new_manager 2 7)).0 ≡ 524288
unfolding alloc_handle alloc_from new_manager indices next_handle_seed
first_handle = refl

-- The handle 0 is taken for that of the first entry while that is free.
zero_freed : free_handle 0 (new_manager 2 7) ≡ none
unfolding free_handle free_at handle_to_obj new_manager indices
zero_freed = refl

kept_object : get_object 524288 (set_object 524288 99 one_used) ≡ 99
unfolding get_object object_at set_object put_object handle_to_obj one_used alloc_handle alloc_from
    new_manager indices next_handle_seed write_info
kept_object = refl

handle_call-Outcome_example :
    (p : ℕ × HandleManager) × (handle_call (frees 524288) one_used ≡ some p)
    × Outcome (frees 524288) one_used p
handle_call-Outcome_example = handle_call-Outcome (frees 524288) one_used refl one_used-IsTable
