-- ===== src/Ring/Peek.antt =====
-- EdRingQue::peek and peekNext: a cursor over the queue that takes nothing out.
use ednio.Prelude.{
  ℕ, ◌+◌, ◌-◌, ◌%◌, min, ◌≡◌, refl, List, [], ◌∷◌, ◌++◌, Option, some, arith, ◌>>=◌, int_add_lem,
  take, drop, take-add,
}
use native.Mathlib.Nat.{mod-lt}
use ednio.Ring.Cycle.{cycle, length-cycle, take-cycle, cycle-rest}
use ednio.Ring.{RingQue, peek, peek_next}
use ednio.Ring.Inv.{IsValid, read_at_lem}
use ednio.Ring.Fifo.{contents}

-- The bytes that the cursor has not passed.
pub unseen : RingQue → List ℕ
unseen r = cycle r.buf r.buf_size r.last_peek_pos r.last_peek_data_size

-- `peek` shows what `get` would take, sets the cursor behind it, and leaves the queue as it was.
pub peek-contents :
    {r : RingQue} (size : ℕ)
    → IsValid r
    → (r' : RingQue) × (peek r size ≡ some (take size (contents r), r'))
      × IsValid r'
      × (contents r' ≡ contents r)
      × (unseen r' ≡ drop size (contents r))
unfolding peek contents unseen
peek-contents {r} size v = (
  record r { last_peek_pos = (r.read_pos + n) % r.buf_size; last_peek_data_size = r.data_size - n },
  rw (
    read_at_lem size r.read_pos r.data_size v v.read_in v.data_in,
    length-cycle r.buf r.buf_size r.read_pos n,
    int_add_lem r.read_pos n (omega arith),
    take-cycle,
  ),
  record {
    storage = v.storage;
    positive = v.positive;
    small = v.small;
    read_in = v.read_in;
    data_in = v.data_in;
    tail = v.tail;
    peek_in = mod-lt (r.read_pos + n) v.positive;
    peek_size = omega arith;
  },
  refl,
  cycle-rest r.buf r.buf_size r.read_pos size r.data_size v.read_in v.data_in,
)
  where
    n : ℕ
    n = min size r.data_size

-- `peekNext` shows what the cursor has not passed, moves it on, and leaves the queue as it was.
pub peek_next-unseen :
    {r : RingQue} (size : ℕ)
    → IsValid r
    → (r' : RingQue) × (peek_next r size ≡ some (take size (unseen r), r'))
      × IsValid r'
      × (contents r' ≡ contents r)
      × (unseen r' ≡ drop size (unseen r))
unfolding peek_next contents unseen
peek_next-unseen {r} size v = (
  record r {
    last_peek_pos = (r.last_peek_pos + n) % r.buf_size;
    last_peek_data_size = r.last_peek_data_size - n;
  },
  rw (
    read_at_lem size r.last_peek_pos r.last_peek_data_size v v.peek_in v.peek_size,
    length-cycle r.buf r.buf_size r.last_peek_pos n,
    int_add_lem r.last_peek_pos n (omega arith),
    take-cycle,
  ),
  record {
    storage = v.storage;
    positive = v.positive;
    small = v.small;
    read_in = v.read_in;
    data_in = v.data_in;
    tail = v.tail;
    peek_in = mod-lt (r.last_peek_pos + n) v.positive;
    peek_size = omega arith;
  },
  refl,
  cycle-rest r.buf r.buf_size r.last_peek_pos size r.last_peek_data_size v.peek_in v.peek_size,
)
  where
    n : ℕ
    n = min size r.last_peek_data_size

-- `peekNext` for each of the sizes in turn: the bytes shown, joined.
pub peek_each : RingQue → List ℕ → Option (List ℕ)
peek_each r [] = some []
peek_each r (n ∷ sizes) =
    peek_next r n >>= λ (xs, r'). peek_each r' sizes >>= λ more. some (xs ++ more)

abbrev pub sum : List ℕ → ℕ
sum [] = 0
sum (n ∷ ns) = n + sum ns

peek_each_lem :
    (sizes : List ℕ) {r : RingQue}
    → IsValid r
    → peek_each r sizes ≡ some (take (sum sizes) (unseen r))
unfolding peek_each
peek_each_lem [] v = refl
peek_each_lem (n ∷ sizes) {r} v =
    let (r', call, v', _, u) = peek_next-unseen n v in
    rw (call, peek_each_lem sizes v', u, ← take-add n (sum sizes) (unseen r))

-- A `peek` and any number of `peekNext` calls show the queue's bytes once each, in order.
pub peek_all :
    (size : ℕ) (sizes : List ℕ) {r : RingQue}
    → IsValid r
    → (peek r size >>= λ (xs, r'). peek_each r' sizes >>= λ more. some (xs ++ more))
      ≡ some (take (size + sum sizes) (contents r))
peek_all size sizes {r} v =
    let (r', call, v', _, u) = peek-contents size v in
    rw (call, peek_each_lem sizes v', u, ← take-add size (sum sizes) (contents r))
