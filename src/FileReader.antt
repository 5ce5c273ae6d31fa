-- ===== src/FileReader.antt =====
-- EdBuffredFileReader (ednio/EdBuffredFileReader.cpp): blocks of a file, read ahead by a job on an
-- eventfd (ednio/EdEventFd.cpp) that the reader raises.
pub mod Blocks
pub mod Content
mod Tests
use ednio.Prelude.{
  ℕ, zero, suc, ◌+◌, ◌*◌, ◌≤◌, ◌<◌, List, [], ◌∷◌, ◌++◌, Bool, true, false, not, ◌&&◌, Option, none,
  some, ◌==◌, leb, ltb, if◌then◌else◌, length, take, drop,
}

pub record Reader : Type 0 where
  pub block_size : ℕ
  pub q_size : ℕ
  pub is_scheduled : Bool
  pub eof : Bool
  -- The blocks of the entries of `mBufList`.
  pub buf_list : List (List ℕ)
  -- The counter of `mJobEvent`.
  pub raised : ℕ
  -- The bytes of the file from its position on.
  pub rest : List ℕ

abbrev pub new_reader : Reader
new_reader = record {
  block_size = 0;
  q_size = 0;
  is_scheduled = false;
  eof = false;
  buf_list = [];
  raised = 0;
  rest = [];
}

-- `open`, of a file with these bytes or of none; `mEof` is left as it was. The block unit is below
-- 2 ^ 19, so that the size is an int.
unfoldable pub open_reader : Option (List ℕ) → ℕ → ℕ → Reader → Bool × Reader
open_reader none block_unit qsize r = (false, r)
open_reader (some content) block_unit qsize r = (
  true,
  record r { block_size = block_unit * 4 * 1024; q_size = qsize; raised = 0; rest = content },
)

-- `close`.
unfoldable pub close_reader : Reader → Reader
close_reader r = record r { buf_list = []; raised = 0; rest = [] }

unfoldable pub raise : Reader → Reader
raise r = record r { raised = r.raised + 1 }

-- The entry that `pop_front` gives, if there is one.
unfoldable pub pop_block : List (List ℕ) → Reader → Option (List ℕ) × Reader
pop_block [] r = (none, r)
pop_block (b ∷ bs) r = (some b, record r { buf_list = bs })

-- The raise at the end of `getData`.
unfoldable pub read_ahead : Reader → Reader
unfolding raise
read_ahead r = if leb (length r.buf_list) r.q_size && not r.eof then raise r else r

unfoldable pub go_on : ℕ → Reader → Reader
unfolding raise
go_on ret r =
    if ltb (length r.buf_list) r.q_size && ltb 0 ret
    then record (raise r) { is_scheduled = true }
    else r

-- How many bytes a read of at most so many gives of those that are left: 0 at the end of the file,
-- and where `read` fails.
module _ (read : ℕ → List ℕ → ℕ) where
  -- What is read, and the reader.
  unfoldable pub load_data : Reader → ℕ × Reader
  load_data r =
      let rcnt = read r.block_size r.rest in
      if ltb 0 rcnt
      then (
        rcnt,
        record r { buf_list = r.buf_list ++ take rcnt r.rest ∷ []; rest = drop rcnt r.rest },
      )
      else (0, record r { eof = true })

  unfoldable pub fill : Reader → Reader
  unfolding load_data
  fill r = if length r.buf_list == 0 then (load_data r).1 else r

  -- The block that is handed over, or none for a null buffer.
  unfoldable pub get_data : Reader → Option (List ℕ) × Reader
  unfolding fill pop_block read_ahead
  get_data r = let p = pop_block (fill r).buf_list (fill r) in (p.0, read_ahead p.1)

  -- The listener of `mJobEvent`, after the read of the counter has set it to 0.
  unfoldable pub on_job : Reader → Reader
  unfolding load_data go_on
  on_job r = let p = load_data (record r { is_scheduled = false; raised = 0 }) in go_on p.0 p.1

  -- The loop calls it only if the counter is not 0.
  unfoldable pub job_event : Reader → Reader
  unfolding on_job
  job_event r = if r.raised == 0 then r else on_job r
