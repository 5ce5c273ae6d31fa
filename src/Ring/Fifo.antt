-- ===== src/Ring/Fifo.antt =====
-- EdRingQue::put and get: the class is a bounded first-in first-out queue of bytes.
use ednio.Prelude.{
  ℕ, zero, suc, ◌+◌, ◌-◌, ◌%◌, ◌^◌, ◌≤◌, ◌<◌, min, ◌≡◌, refl, sym, ap, ◌∙◌, ◌⊎◌, List, [], ◌++◌,
  ◌∷◌, Option, some, arith, ◌>>=◌, int_add_lem, lt→ltb, length, take, drop, length-tabulate,
  length_zero, length-take, splice, splice-nil, length-splice, copy_in_lem,
}
use native.Mathlib.Nat.{mod-lt, mod-eq_of_lt, mod-add-mod}
use ednio.Ring.Cycle.{
  cycle, length-cycle, take-cycle, cycle-rest, laid, length-laid, cycle-laid, wrap_cases,
}
use ednio.Ring.{RingQue, create, get, put, write_rest, get_free_size}
use ednio.Ring.Inv.{IsValid, es_min-eq, read_at_lem}

-- The bytes that the queue holds, oldest first.
unfoldable pub contents : RingQue → List ℕ
contents r = cycle r.buf r.buf_size r.read_pos r.data_size

pub length-contents : (r : RingQue) → length (contents r) ≡ r.data_size
unfolding contents
length-contents r = length-cycle _ _ _ _

-- A queue of up to 2 ^ 30 bytes starts valid and empty.
pub create-IsValid :
    (junk : ℕ → ℕ) (n : ℕ)
    → 0 < n
    → n ≤ 2 ^ 30
    → IsValid (create junk n) × (contents (create junk n) ≡ [])
unfolding create contents
create-IsValid junk n h g = (
  record {
    storage = length-tabulate junk n;
    positive = h;
    small = g;
    read_in = h;
    data_in = omega arith;
    tail = sym (mod-eq_of_lt (omega arith)) ∙ ap (λ k. k % n) (omega arith);
    peek_in = h;
    peek_size = omega arith;
  },
  length_zero _ (length-cycle _ _ 0 0),
)

-- `get` takes the oldest `size` bytes, or all there are, and leaves the rest.
pub get-contents :
    {r : RingQue} (size : ℕ)
    → IsValid r
    → (r' : RingQue) × (get r size ≡ some (take size (contents r), r'))
      × IsValid r'
      × (contents r' ≡ drop size (contents r))
      × (r'.buf_size ≡ r.buf_size)
unfolding get contents
get-contents {r} size v = (
  record r { read_pos = (r.read_pos + n) % r.buf_size; data_size = r.data_size - n },
  rw (
    read_at_lem size r.read_pos r.data_size v v.read_in v.data_in,
    length-cycle r.buf r.buf_size r.read_pos n,
    int_add_lem r.read_pos n (omega arith),
    take-cycle,
  ),
  record {
    storage = v.storage;
    positive = v.positive;
    small = v.small;
    read_in = mod-lt (r.read_pos + n) v.positive;
    data_in = omega arith;
    tail = rw mod-add-mod (v.tail ∙ ap (λ k. k % r.buf_size) (omega arith));
    peek_in = v.peek_in;
    peek_size = v.peek_size;
  },
  cycle-rest r.buf r.buf_size r.read_pos size r.data_size v.read_in v.data_in,
  refl,
)
  where
    n : ℕ
    n = min size r.data_size

write_rest_lem :
    (buf : List ℕ) (wp : ℕ) (xs : List ℕ) (k : ℕ)
    → length (take k xs) ≤ length buf
    → wp + k < 2 ^ 31
    → write_rest buf wp xs k ≡ some (splice buf 0 (take k xs), wp + k)
unfolding write_rest
write_rest_lem buf wp xs zero h g = rw splice-nil (ap (λ p. some (buf, p)) (omega arith))
write_rest_lem buf wp xs (suc k) h g =
    rw
      (
        lt→ltb 0 (suc k) (omega arith),
        int_add_lem wp (suc k) g,
        copy_in_lem buf 0 (take (suc k) xs) (omega arith),
      )
      refl

-- The position behind the bytes that `put` has copied.
tail_after :
    (rp n cap wp c k : ℕ)
    → rp < cap
    → wp ≡ (rp + n) % cap
    → n + (c + k) ≤ cap
    → wp + c ≤ cap
    → (k ≡ 0) ⊎ (wp + c ≡ cap)
    → (wp + c) % cap + k ≡ (rp + (n + (c + k))) % cap
tail_after rp n cap wp c k hr e hn hc hk = ground (
  arith,
  wrap_cases (rp + n) cap (omega arith),
  wrap_cases (rp + (n + (c + k))) cap (omega arith),
  wrap_cases (wp + c) cap (omega arith),
)

-- `put` stores what fits of its bytes, behind those that the queue holds.
pub put-contents :
    {r : RingQue} (xs : List ℕ)
    → IsValid r
    → let stored = min (length xs) (get_free_size r) in
      (r' : RingQue) × (put r xs ≡ some (stored, r'))
      × IsValid r'
      × (contents r' ≡ contents r ++ take stored xs)
      × (r'.buf_size ≡ r.buf_size)
unfolding put contents get_free_size laid
put-contents {r} xs v = (
  record r {
    buf = laid r.buf r.write_pos xs c k;
    write_pos = (r.write_pos + c) % r.buf_size + k;
    data_size = r.data_size + w;
  },
  rw (
    es_min-eq (length xs) (r.buf_size - r.data_size),
    es_min-eq w (r.buf_size - r.write_pos),
    copy_in_lem r.buf r.write_pos (take c xs) (omega (arith, length-take c xs)),
    int_add_lem r.write_pos c (omega arith),
    write_rest_lem (splice r.buf r.write_pos (take c xs)) ((r.write_pos + c) % r.buf_size)
        (drop c xs) k
        (omega (arith, length-take k (drop c xs), length-splice r.buf r.write_pos (take c xs)))
        (omega (arith, mod-lt (r.write_pos + c) v.positive)),
    int_add_lem r.data_size w (omega arith),
  ),
  record {
    storage = length-laid r.buf r.write_pos xs c k ∙ v.storage;
    positive = v.positive;
    small = v.small;
    read_in = v.read_in;
    data_in = omega arith;
    tail =
        tail_after r.read_pos r.data_size r.buf_size r.write_pos c k v.read_in v.tail (omega arith)
          (omega arith) ends
        ∙ ap (λ t. (r.read_pos + (r.data_size + t)) % r.buf_size) (omega arith);
    peek_in = v.peek_in;
    peek_size = v.peek_size;
  },
  ap (λ t. cycle (laid r.buf r.write_pos xs c k) r.buf_size r.read_pos (r.data_size + t)) {x = w}
        {y = c + k} (omega arith)
      ∙ cycle-laid r.buf r.buf_size r.read_pos r.data_size r.write_pos xs c k v.storage v.read_in
          v.tail (omega arith) (omega arith) (omega arith) ends
      ∙ ap (λ t. contents r ++ take t xs) (omega arith),
  refl,
)
  where
    w : ℕ
    w = min (length xs) (r.buf_size - r.data_size)

    c : ℕ
    c = min w (r.buf_size - r.write_pos)

    k : ℕ
    k = w - c

    ends : (k ≡ 0) ⊎ (r.write_pos + c ≡ r.buf_size)
    ends = omega arith

-- A client's calls, and what each returns: the count stored, or the bytes read.
pub data Op : Type 0 where
  puts : List ℕ → Op
  gets : ℕ → Op

pub data Reply : Type 0 where
  stored : ℕ → Reply
  bytes : List ℕ → Reply

unfoldable pub run : RingQue → List Op → Option (List Reply)
run r [] = some []
run r (puts xs ∷ ops) = put r xs >>= λ (n, r'). run r' ops >>= λ replies. some (stored n ∷ replies)
run r (gets n ∷ ops) = get r n >>= λ (xs, r'). run r' ops >>= λ replies. some (bytes xs ∷ replies)

-- The abstract queue: a list of at most `cap` bytes.
pub run_queue : ℕ → List ℕ → List Op → List Reply
run_queue cap q [] = []
run_queue cap q (puts xs ∷ ops) =
    let n = min (length xs) (cap - length q) in stored n ∷ run_queue cap (q ++ take n xs) ops
run_queue cap q (gets n ∷ ops) = bytes (take n q) ∷ run_queue cap (drop n q) ops

-- No sequence of calls faults, and each reply is the one of the bounded list.
pub run_refines :
    (ops : List Op) {r : RingQue}
    → IsValid r
    → run r ops ≡ some (run_queue r.buf_size (contents r) ops)
unfolding run run_queue get_free_size
run_refines [] v = refl
run_refines (puts xs ∷ ops) {r} v =
    let (r', call, v', c, s) = put-contents xs v in
    rw (call, run_refines ops v', c, s, length-contents r)
run_refines (gets n ∷ ops) v =
    let (r', call, v', c, s) = get-contents n v in rw (call, run_refines ops v', c, s)
