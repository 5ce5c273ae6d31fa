-- ===== src/FileReader/Blocks.antt =====
-- EdBuffredFileReader: what one call does to the bytes that are still to be handed over.
use ednio.Prelude.{
  ℕ, suc, ◌+◌, ◌≤◌, ◌<◌, ◌≡◌, refl, sym, ap, ◌∙◌, subst, List, [], ◌∷◌, ◌++◌, Bool, true, false,
  not, ◌&&◌, Option, none, some, ◌==◌, leb, ltb, if◌then◌else◌, length, take, drop, arith,
  length-take, append_assoc, append-nil, length-append, take-drop, Bool-cases, inl, inr,
}
use ednio.FileReader.{
  Reader, load_data, fill, pop_block, read_ahead, get_data, go_on, on_job, job_event, raise,
}

-- What is relied on: a read gives no more than it was asked for and than there is, and something
-- of a file that has not ended.
pub record IsFile (read : ℕ → List ℕ → ℕ) : Type 0 where
  pub within : (n : ℕ) (xs : List ℕ) → read n xs ≤ length xs
  pub asked : (n : ℕ) (xs : List ℕ) → read n xs ≤ n
  pub progress : (n : ℕ) (xs : List ℕ) → 0 < n → 0 < length xs → 0 < read n xs

unfoldable pub joined : List (List ℕ) → List ℕ
joined [] = []
joined (b ∷ bs) = b ++ joined bs

-- The bytes that are still to be handed over.
unfoldable pub ahead : Reader → List ℕ
unfolding joined
ahead r = joined r.buf_list ++ r.rest

abbrev pub AllBlocks : ℕ → List (List ℕ) → Type 0
AllBlocks n [] = Unit {0}
AllBlocks n (b ∷ bs) = (0 < length b) × (length b ≤ n) × AllBlocks n bs

-- Blocks are not empty and no longer than the block size; at most one more waits than the queue's
-- size, and no more than that size while the job is raised.
pub record IsRun (r : Reader) : Type 0 where
  pub sized : 0 < r.block_size
  pub blocks : AllBlocks r.block_size r.buf_list
  pub bounded : length r.buf_list ≤ r.q_size + 1
  pub room : 0 < r.raised → length r.buf_list ≤ r.q_size

pub joined-append : (bs cs : List (List ℕ)) → joined (bs ++ cs) ≡ joined bs ++ joined cs
unfolding joined
joined-append [] cs = refl
joined-append (b ∷ bs) cs =
    ap (λ l. b ++ l) (joined-append bs cs) ∙ sym (append_assoc b (joined bs) (joined cs))

AllBlocks-append :
    (n : ℕ) (bs cs : List (List ℕ)) → AllBlocks n bs → AllBlocks n cs → AllBlocks n (bs ++ cs)
AllBlocks-append n [] cs p q = q
AllBlocks-append n (b ∷ bs) cs (l, u, p) q = (l, u, AllBlocks-append n bs cs p q)

taken_ahead :
    (bs : List (List ℕ)) (n : ℕ) (xs : List ℕ)
    → joined (bs ++ take n xs ∷ []) ++ drop n xs ≡ joined bs ++ xs
unfolding joined
taken_ahead bs n xs =
    ap (λ l. l ++ drop n xs)
      (joined-append bs (take n xs ∷ []) ∙ ap (λ l. joined bs ++ l) (append-nil (take n xs)))
    ∙ append_assoc (joined bs) (take n xs) (drop n xs)
    ∙ ap (λ l. joined bs ++ l) (take-drop n xs)

pub load_data-ahead : (read : ℕ → List ℕ → ℕ) (r : Reader) → ahead (load_data read r).1 ≡ ahead r
unfolding ahead load_data
load_data-ahead read r = elim (Bool-cases (ltb 0 (read r.block_size r.rest))) [
  | inl y ↦ rw y (taken_ahead r.buf_list (read r.block_size r.rest) r.rest)
  | inr n ↦ rw n refl
]

read_ahead-ahead : (r : Reader) → ahead (read_ahead r) ≡ ahead r
unfolding ahead read_ahead raise
read_ahead-ahead r =
    elim (leb (length r.buf_list) r.q_size && not r.eof)
      as (λ b. ahead (if b then raise r else r) ≡ ahead r) [ true ↦ refl | false ↦ refl ]

raise-IsRun : (r : Reader) → IsRun r → length r.buf_list ≤ r.q_size → IsRun (raise r)
unfolding raise
raise-IsRun r i u = record {
  sized = i.sized;
  blocks = i.blocks;
  bounded = i.bounded;
  room = λ p. u;
}

read_ahead-IsRun : (r : Reader) → IsRun r → IsRun (read_ahead r)
unfolding read_ahead
read_ahead-IsRun r i = elim (Bool-cases (leb (length r.buf_list) r.q_size && not r.eof)) [
  | inl y ↦ rw y (raise-IsRun r i (ground arith))
  | inr n ↦ rw n i
]

-- What a call of `getData` hands over is the front of what is ahead; nothing is handed over only
-- when nothing is ahead.
unfoldable pub Gave : Reader → Option (List ℕ) → Reader → Type 0
Gave r none r' = (ahead r ≡ []) × (ahead r' ≡ []) × IsRun r'
Gave r (some b) r' = (ahead r ≡ b ++ ahead r') × (0 < length b) × IsRun r'

abbrev with_list : List (List ℕ) → Reader → Reader
with_list bs r = record r { buf_list = bs }

first_block :
    (b : List ℕ) (bs : List (List ℕ)) (r : Reader)
    → IsRun (with_list (b ∷ bs) r)
    → Gave (with_list (b ∷ bs) r) (some b) (read_ahead (with_list bs r))
unfolding Gave ahead joined
first_block b bs r i = (
  append_assoc b (joined bs) r.rest ∙ ap (λ l. b ++ l) (sym (read_ahead-ahead (with_list bs r))),
  i.blocks.0,
  read_ahead-IsRun (with_list bs r) record {
    sized = i.sized;
    blocks = i.blocks.2;
    bounded = omega (arith, i.bounded);
    room = λ p. omega (arith, i.room p);
  },
)

emptied-IsRun :
    (r : Reader) (xs : List ℕ) (b : Bool)
    → 0 < r.block_size
    → IsRun (record r { buf_list = []; rest = xs; eof = b })
emptied-IsRun r xs b z = record {
  sized = z;
  blocks = tt;
  bounded = omega arith;
  room = λ p. omega arith;
}

not_read :
    (read : ℕ → List ℕ → ℕ) (n : ℕ) (xs : List ℕ)
    → IsFile read
    → 0 < n
    → ltb 0 (read n xs) ≡ false
    → xs ≡ []
not_read read n [] f z e = refl
not_read read n (x ∷ xs) f z e = absurd (ground (arith, f.progress n (x ∷ xs) z (omega arith)))

loaded_block :
    (read : ℕ → List ℕ → ℕ) (r : Reader)
    → IsFile read
    → IsRun (with_list [] r)
    → Gave (with_list [] r) (get_data read (with_list [] r)).0 (get_data read (with_list [] r)).1
unfolding Gave get_data fill load_data pop_block ahead joined
loaded_block read r f i =
    let n = read r.block_size r.rest in
    let xs = drop n r.rest in
    elim (Bool-cases (ltb 0 n)) [
      | inl y ↦
          let t = record r { buf_list = []; rest = xs } in
          rw y (
            sym (take-drop n r.rest) ∙ ap (λ l. take n r.rest ++ l) (sym (read_ahead-ahead t)),
            ground (arith, length-take n r.rest, f.within r.block_size r.rest),
            read_ahead-IsRun t (emptied-IsRun r xs r.eof i.sized),
          )
      | inr o ↦
          let t = record r { buf_list = []; eof = true } in
          let e = not_read read r.block_size r.rest f i.sized o in
          rw o (e, read_ahead-ahead t ∙ e, read_ahead-IsRun t (emptied-IsRun r r.rest true i.sized))
    ]

fill_kept :
    (read : ℕ → List ℕ → ℕ) (b : List ℕ) (bs : List (List ℕ)) (r : Reader)
    → fill read (with_list (b ∷ bs) r) ≡ with_list (b ∷ bs) r
unfolding fill
fill_kept read b bs r =
    let e : (suc (length bs) == 0) ≡ false = ground arith in
    let t = with_list (b ∷ bs) r in ap (λ k. if k then (load_data read t).1 else t) e

get_on :
    (read : ℕ → List ℕ → ℕ) (bs : List (List ℕ)) (r : Reader)
    → IsFile read
    → IsRun (with_list bs r)
    → Gave (with_list bs r) (get_data read (with_list bs r)).0 (get_data read (with_list bs r)).1
unfolding get_data pop_block
get_on read [] r f i = loaded_block read r f i
get_on read (b ∷ bs) r f i =
    let w = with_list (b ∷ bs) r in
    subst (λ t. Gave w (pop_block t.buf_list t).0 (read_ahead (pop_block t.buf_list t).1))
      (sym (fill_kept read b bs r)) (first_block b bs r i)

pub get_data-Gave :
    (read : ℕ → List ℕ → ℕ) (r : Reader)
    → IsFile read
    → IsRun r
    → Gave r (get_data read r).0 (get_data read r).1
get_data-Gave read r f i = get_on read r.buf_list r f i

loaded-IsRun :
    (read : ℕ → List ℕ → ℕ) (r : Reader)
    → IsFile read
    → IsRun r
    → length r.buf_list ≤ r.q_size
    → r.raised ≡ 0
    → IsRun (load_data read r).1
unfolding load_data
loaded-IsRun read r f i u z =
    let n = read r.block_size r.rest in
    elim (Bool-cases (ltb 0 n)) [
      | inl y ↦ rw y record {
        sized = i.sized;
        blocks = AllBlocks-append r.block_size r.buf_list (take n r.rest ∷ []) i.blocks (
          ground (arith, length-take n r.rest, f.within r.block_size r.rest),
          omega (arith, length-take n r.rest, f.asked r.block_size r.rest),
          tt,
        );
        bounded = omega (arith, length-append r.buf_list (take n r.rest ∷ []));
        room = λ p. absurd (omega arith);
      }
      | inr o ↦
          rw o record { sized = i.sized; blocks = i.blocks; bounded = i.bounded; room = i.room }
    ]

go_on-IsRun : (ret : ℕ) (r : Reader) → IsRun r → IsRun (go_on ret r)
unfolding go_on raise
go_on-IsRun ret r i = elim (Bool-cases (ltb (length r.buf_list) r.q_size && ltb 0 ret)) [
  | inl y ↦
      rw y
        record { sized = i.sized; blocks = i.blocks; bounded = i.bounded; room = λ p. ground arith }
  | inr o ↦ rw o i
]

go_on-ahead : (ret : ℕ) (r : Reader) → ahead (go_on ret r) ≡ ahead r
unfolding ahead go_on raise
go_on-ahead ret r =
    elim (ltb (length r.buf_list) r.q_size && ltb 0 ret)
      as (λ b. ahead (if b then record (raise r) { is_scheduled = true } else r) ≡ ahead r) [
        | true ↦ refl
        | false ↦ refl
      ]

pub job_event-IsRun :
    (read : ℕ → List ℕ → ℕ) (r : Reader)
    → IsFile read
    → IsRun r
    → IsRun (job_event read r) × (ahead (job_event read r) ≡ ahead r)
unfolding job_event on_job ahead
job_event-IsRun read r f i =
    let t = record r { is_scheduled = false; raised = 0 } in
    let p = load_data read t in
    elim (Bool-cases (r.raised == 0)) [
      | inl z ↦ rw z (i, refl)
      | inr z ↦ rw z (
        go_on-IsRun p.0 p.1 (
            loaded-IsRun read t f
              record {
                sized = i.sized;
                blocks = i.blocks;
                bounded = i.bounded;
                room = λ k. absurd (omega arith);
              }
              (i.room (ground arith)) refl),
        go_on-ahead p.0 p.1 ∙ load_data-ahead read t,
      )
    ]
