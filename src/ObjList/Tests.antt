-- ===== src/ObjList/Tests.antt =====
-- Runs of EdObjList at concrete inputs.
use ednio.Prelude.{
  ℕ, ◌+◌, ◌%◌, ◌^◌, ◌≡◌, refl, List, [], ◌∷◌, ◌++◌, true, false, some, none, ◌==◌, arith, ◌>>=◌,
  length,
}
use ednio.ObjList.{
  Hdr, Store, ObjList, write, linked, new_list, push_back, link_back, next_of, insert,
}
use ednio.ObjList.Chain.{has, IsList}
use ednio.ObjList.Refine.{Call, push, take_out, pop_first, spec, erase, World}
use ednio.ObjList.Runs.{AllAllows, Allows, run, spec_run, run-spec_run}
use ednio.ObjList.Insert.{insert-push_back}

abbrev blank : Hdr
blank = record { prev = 0; next = 0; seed = 0; list = 0 }

-- Objects 1 to 4 are allocated.
abbrev memory : Store
memory = write (write (write (write (λ _. none) 1 blank) 2 blank) 3 blank) 4 blank

abbrev queue : ObjList
queue = new_list 400

queue-IsList : IsList memory queue []
queue-IsList = record {
  chain = tt;
  at_head = refl;
  at_tail = refl;
  counted = refl;
  distinct = tt;
  no_null = refl;
  named = omega arith;
  seeded = omega arith;
}

memory-blank : (a : ℕ) → has a (1 ∷ 2 ∷ 3 ∷ 4 ∷ []) ≡ true → memory a ≡ some blank
memory-blank a m = ground arith

queue-World : World (1 ∷ 2 ∷ 3 ∷ 4 ∷ []) memory queue []
queue-World = record {
  is_list = queue-IsList;
  no_zero = refl;
  known = λ a m. (blank, memory-blank a m, λ _. refl);
}

abbrev calls : List Call
calls = push 1 ∷ push 2 ∷ push 3 ∷ push 2 ∷ take_out 2 ∷ pop_first ∷ pop_first ∷ pop_first ∷ []

calls_spec : spec_run calls [] ≡ (0 ∷ 0 ∷ 0 ∷ 0 ∷ 0 ∷ 1 ∷ 3 ∷ 0 ∷ [], [])
unfolding spec_run spec erase
calls_spec = refl

run-spec_run_example :
    (g : Store) × (l' : ObjList) × (run calls (memory, queue) ≡ some ((spec_run calls []).0, g, l'))
    × World (1 ∷ 2 ∷ 3 ∷ 4 ∷ []) g l' (spec_run calls []).1
unfolding AllAllows Allows
run-spec_run_example =
    run-spec_run (1 ∷ 2 ∷ 3 ∷ 4 ∷ []) calls memory queue [] queue-World
      (refl, (refl, (refl, (refl, (refl, (tt, (tt, (tt, tt))))))))

abbrev one : Store
one = write memory 1 (linked queue 0 0)

abbrev queue_of_one : ObjList
queue_of_one = record queue { head = 1; tail = 1; size = 1 }

one_pushed : push_back memory queue 1 ≡ some (one, queue_of_one)
unfolding push_back link_back
one_pushed = refl

one-IsList : IsList one queue_of_one ([] ++ 1 ∷ [])
one-IsList = record {
  chain = (refl, tt);
  at_head = refl;
  at_tail = refl;
  counted = refl;
  distinct = (refl, tt);
  no_null = refl;
  named = omega arith;
  seeded = omega arith;
}

insert-push_back_example :
    (g : Store) × (l' : ObjList) × ((insert one queue_of_one 1 2 >>= λ s. push_back s.0 s.1 3)
      ≡ some (g, l'))
    × (next_of g 1 ≡ some 3)
    × (g 2 ≡ some (linked queue_of_one 1 0))
    × (l'.tail ≡ 3)
    × (l'.size ≡ (length {A = ℕ} [] + 3) % 2 ^ 32)
    × ((a : ℕ) → (a == 2) ≡ false → (a == 1) ≡ false → (a == 3) ≡ false → g a ≡ one a)
insert-push_back_example =
    insert-push_back one queue_of_one [] 1 2 3 blank blank one-IsList refl refl refl refl refl refl
      refl refl
