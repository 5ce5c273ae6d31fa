-- ===== src/FileReader/Content.antt =====
-- EdBuffredFileReader: calls of getData, with the job running in between, and the file's content.
use ednio.Prelude.{
  ℕ, ◌+◌, ◌^◌, ◌≤◌, ◌<◌, ◌≡◌, refl, sym, ap, ◌∙◌, List, [], ◌∷◌, ◌++◌, Option, none, some, length,
  arith, append_assoc, length-append,
}
use ednio.FileReader.{Reader, open_reader, close_reader, get_data, job_event}
use ednio.FileReader.Blocks.{IsFile, IsRun, joined, ahead, Gave, get_data-Gave, job_event-IsRun}

-- A call of `getData`, or a turn of the loop in which the job may run.
pub data Step : Type 0 where
  gets loops : Step

unfoldable pub handed : Option (List ℕ) → List (List ℕ) → List (List ℕ)
handed none bs = bs
handed (some b) bs = b ∷ bs

-- The blocks handed over, in order, and the reader.
unfoldable pub run : (ℕ → List ℕ → ℕ) → List Step → Reader → List (List ℕ) × Reader
unfolding handed get_data job_event
run read [] r = ([], r)
run read (gets ∷ ss) r = let p = get_data read r in let q = run read ss p.1 in (handed p.0 q.0, q.1)
run read (loops ∷ ss) r = run read ss (job_event read r)

unfoldable pub gets_of : List Step → ℕ
gets_of [] = 0
gets_of (gets ∷ ss) = gets_of ss + 1
gets_of (loops ∷ ss) = gets_of ss

-- What was handed over is the front of what was ahead.
abbrev Split : Reader → List (List ℕ) × Reader → Type 0
Split r q = (ahead r ≡ joined q.0 ++ ahead q.1) × IsRun q.1

one_block :
    (r r' : Reader) (o : Option (List ℕ)) (q : List (List ℕ) × Reader)
    → Gave r o r'
    → Split r' q
    → Split r (handed o q.0, q.1)
unfolding Gave handed joined
one_block r r' none q (e, e', i) (s, j) = (e ∙ sym e' ∙ s, j)
one_block r r' (some b) q (e, z, i) (s, j) =
    (e ∙ ap (λ l. b ++ l) s ∙ sym (append_assoc b (joined q.0) (ahead q.1)), j)

Gave-IsRun : (r r' : Reader) (o : Option (List ℕ)) → Gave r o r' → IsRun r'
unfolding Gave
Gave-IsRun r r' none g = g.2
Gave-IsRun r r' (some b) g = g.2

run-Split :
    (read : ℕ → List ℕ → ℕ) (ss : List Step) (r : Reader)
    → IsFile read
    → IsRun r
    → Split r (run read ss r)
unfolding run joined
run-Split read [] r f i = (refl, i)
run-Split read (gets ∷ ss) r f i =
    let p = get_data read r in
    let g = get_data-Gave read r f i in
    one_block r p.1 p.0 (run read ss p.1) g (run-Split read ss p.1 f (Gave-IsRun r p.1 p.0 g))
run-Split read (loops ∷ ss) r f i =
    let (j, e) = job_event-IsRun read r f i in
    let (s, k) = run-Split read ss (job_event read r) f j in (sym e ∙ s, k)

left_nil : (xs ys : List ℕ) → [] ≡ xs ++ ys → xs ≡ []
left_nil [] ys e = refl
left_nil (x ∷ xs) ys e = cc

gets_end :
    (r r' : Reader) (o : Option (List ℕ)) (q : List (List ℕ) × Reader) (n : ℕ)
    → Gave r o r'
    → Split r' q
    → length (ahead r) < n + 1
    → (length (ahead r') < n → joined q.0 ≡ ahead r')
    → joined (handed o q.0) ≡ ahead r
unfolding Gave handed joined
gets_end r r' none q n (e, e', i) (s, j) l h =
    left_nil (joined q.0) (ahead q.1) (sym e' ∙ s) ∙ sym e
gets_end r r' (some b) q n (e, z, i) s l h =
    ap (λ x. b ++ x) (h (omega (arith, z, length-append b (ahead r'), ap (λ x. length x) e)))
    ∙ sym e

run_end :
    (read : ℕ → List ℕ → ℕ) (ss : List Step) (r : Reader)
    → IsFile read
    → IsRun r
    → length (ahead r) < gets_of ss
    → joined (run read ss r).0 ≡ ahead r
unfolding run gets_of
run_end read [] r f i l = absurd (omega arith)
run_end read (gets ∷ ss) r f i l =
    let p = get_data read r in
    let g = get_data-Gave read r f i in
    let j = Gave-IsRun r p.1 p.0 g in
    gets_end r p.1 p.0 (run read ss p.1) (gets_of ss) g (run-Split read ss p.1 f j) l
      (run_end read ss p.1 f j)
run_end read (loops ∷ ss) r f i l =
    let (j, e) = job_event-IsRun read r f i in
    run_end read ss (job_event read r) f j (omega (arith, ap (λ x. length x) e)) ∙ e

opened-IsRun :
    (content : List ℕ) (block_unit qsize : ℕ) (r : Reader)
    → 0 < block_unit
    → IsRun (open_reader (some content) block_unit qsize (close_reader r)).1
unfolding open_reader close_reader
opened-IsRun content block_unit qsize r z = record {
  sized = omega arith;
  blocks = tt;
  bounded = omega arith;
  room = λ p. absurd (omega arith);
}

opened_ahead :
    (content : List ℕ) (block_unit qsize : ℕ) (r : Reader)
    → ahead (open_reader (some content) block_unit qsize (close_reader r)).1 ≡ content
unfolding open_reader close_reader ahead joined
opened_ahead content block_unit qsize r = refl

-- For reads as of a file and blocks that are not empty and whose size is an int: a closed reader, new or used before, that is
-- opened on a file has, after any calls of getData with the job running in between, handed over in
-- order the front of the content, and the rest of it is what waits and what is not read; at most one
-- block more than the queue's size waits.
pub run-ahead :
    (read : ℕ → List ℕ → ℕ) (content : List ℕ) (block_unit qsize : ℕ) (r : Reader) (ss : List Step)
    → IsFile read
    → 0 < block_unit
    → block_unit < 2 ^ 19
    → let q = run read ss (open_reader (some content) block_unit qsize (close_reader r)).1 in
      (content ≡ joined q.0 ++ ahead q.1) × (length q.1.buf_list ≤ q.1.q_size + 1)
run-ahead read content block_unit qsize r ss f z u =
    let t = (open_reader (some content) block_unit qsize (close_reader r)).1 in
    let (s, i) = run-Split read ss t f (opened-IsRun content block_unit qsize r z) in
    (sym (opened_ahead content block_unit qsize r) ∙ s, i.bounded)

-- For reads as of a file and blocks that are not empty and whose size is an int: once getData has been called more often than
-- the file has bytes, with the job running in between or not, what it has handed over, in order, is
-- the file's content.
pub run-content :
    (read : ℕ → List ℕ → ℕ) (content : List ℕ) (block_unit qsize : ℕ) (r : Reader) (ss : List Step)
    → IsFile read
    → 0 < block_unit
    → block_unit < 2 ^ 19
    → length content < gets_of ss
    → joined (run read ss (open_reader (some content) block_unit qsize (close_reader r)).1).0
      ≡ content
run-content read content block_unit qsize r ss f z u l =
    let t = (open_reader (some content) block_unit qsize (close_reader r)).1 in
    let e = opened_ahead content block_unit qsize r in
    run_end read ss t f (opened-IsRun content block_unit qsize r z)
      (omega (arith, l, ap (λ x. length x) e))
    ∙ e
