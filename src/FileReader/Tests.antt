-- ===== src/FileReader/Tests.antt =====
-- Runs of EdBuffredFileReader on a small file.
use ednio.Prelude.{ℕ, ◌+◌, ◌≡◌, ◌≤◌, ◌<◌, refl, List, [], ◌∷◌, ◌++◌, min, arith, length, some}
use ednio.FileReader.{
  new_reader, open_reader, close_reader, get_data, fill, load_data, pop_block, read_ahead, raise,
  job_event, on_job, go_on,
}
use ednio.FileReader.Blocks.{IsFile, joined, ahead}
use ednio.FileReader.Content.{Step, gets, loops, run, gets_of, handed, run-ahead, run-content}

-- Two bytes at most, whatever is asked for.
unfoldable short : ℕ → List ℕ → ℕ
short n xs = min 2 (min n (length xs))

short-IsFile : IsFile short
unfolding short
short-IsFile = record {
  within = λ n xs. omega arith;
  asked = λ n xs. omega arith;
  progress = λ n xs p q. omega arith;
}

abbrev five : List ℕ
five = 10 ∷ 11 ∷ 12 ∷ 13 ∷ 14 ∷ []

abbrev some_calls : List Step
some_calls = gets ∷ loops ∷ gets ∷ gets ∷ loops ∷ gets ∷ gets ∷ loops ∷ gets ∷ []

blocks_handed :
    (run short some_calls (open_reader (some five) 1 3 new_reader).1).0
    ≡ (10 ∷ 11 ∷ []) ∷ (12 ∷ 13 ∷ []) ∷ (14 ∷ []) ∷ []
unfolding run short open_reader get_data fill load_data pop_block read_ahead raise job_event on_job
    go_on handed
blocks_handed = refl

run-ahead_example :
    let q =
      run short (gets ∷ loops ∷ []) (open_reader (some five) 1 3 (close_reader new_reader)).1 in
    (five ≡ joined q.0 ++ ahead q.1) × (length q.1.buf_list ≤ q.1.q_size + 1)
run-ahead_example =
    run-ahead short five 1 3 new_reader (gets ∷ loops ∷ []) short-IsFile (omega arith) (omega arith)

enough : length five < gets_of some_calls
unfolding gets_of
enough = omega arith

run-content_example :
    joined (run short some_calls (open_reader (some five) 1 3 (close_reader new_reader)).1).0 ≡ five
run-content_example =
    run-content short five 1 3 new_reader some_calls short-IsFile (omega arith) (omega arith) enough
