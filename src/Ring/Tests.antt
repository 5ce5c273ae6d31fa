-- ===== src/Ring/Tests.antt =====
-- Runs of EdRingQue at concrete inputs.
use ednio.Prelude.{
  ◌≡◌, refl, List, [], ◌∷◌, ◌++◌, some, arith, ◌>>=◌, int_add, take, copy_in, copy_out, splice,
}
use ednio.Ring.{RingQue, es_min, read_rest, read_at, get, peek, write_rest, put}
use ednio.Ring.Inv.{IsValid}
use ednio.Ring.Fifo.{Op, puts, gets, stored, bytes, run, run_queue, contents, run_refines}
use ednio.Ring.Peek.{peek_each, peek_all}

-- Four bytes in a block of five, round its end; the cursor has passed two.
abbrev wrapped : RingQue
wrapped = record {
  buf = 13 ∷ 14 ∷ 0 ∷ 11 ∷ 12 ∷ [];
  read_pos = 3;
  write_pos = 2;
  buf_size = 5;
  data_size = 4;
  last_peek_pos = 0;
  last_peek_data_size = 2;
}

abbrev script : List Op
script = puts (15 ∷ 16 ∷ []) ∷ gets 3 ∷ puts (17 ∷ []) ∷ gets 9 ∷ []

wrapped-IsValid : IsValid wrapped
wrapped-IsValid = omega arith

run-wrapped :
    run wrapped script
    ≡ some (stored 1 ∷ bytes (11 ∷ 12 ∷ 13 ∷ []) ∷ stored 1 ∷ bytes (14 ∷ 15 ∷ 17 ∷ []) ∷ [])
unfolding run put get read_at read_rest write_rest es_min int_add copy_in copy_out splice
run-wrapped = refl

run_refines_example : run wrapped script ≡ some (run_queue 5 (contents wrapped) script)
run_refines_example = run_refines script wrapped-IsValid

peek_all_example :
    (peek wrapped 1 >>= λ (xs, r'). peek_each r' (2 ∷ 9 ∷ []) >>= λ more. some (xs ++ more))
    ≡ some (take 12 (contents wrapped))
peek_all_example = peek_all 1 (2 ∷ 9 ∷ []) wrapped-IsValid
