-- ===== src/Prelude/Lists.antt =====
-- Lists measured and indexed by native numbers, under the library's names.
use Prim.Native.Nat.{ℕ, zero, suc, ◌+◌, ◌-◌, ◌<◌, ◌≤◌, min}
use mathlib.Core.Path.{◌≡◌, refl, sym, ap, ap₂, ◌∙◌}
use mathlib.Core.List.{List, [], ◌∷◌, ◌++◌}
use native.Mathlib.Decide.{dec_le}
use native.Mathlib.Omega.{arith}

module _ {ℓ} {A : Type ℓ} where
  abbrev pub length : List A → ℕ
  length [] = 0
  length (x ∷ xs) = suc (length xs)

  abbrev pub get_or : List A → ℕ → A → A
  get_or [] i d = d
  get_or (x ∷ xs) zero d = x
  get_or (x ∷ xs) (suc i) d = get_or xs i d

  abbrev pub take : ℕ → List A → List A
  take zero xs = []
  take (suc n) [] = []
  take (suc n) (x ∷ xs) = x ∷ take n xs

  abbrev pub drop : ℕ → List A → List A
  drop zero xs = xs
  drop (suc n) [] = []
  drop (suc n) (x ∷ xs) = drop n xs

  pub length-append : (xs ys : List A) → length (xs ++ ys) ≡ length xs + length ys
  length-append [] ys = omega arith
  length-append (x ∷ xs) ys = omega (arith, length-append xs ys)

  pub length-take : (n : ℕ) (xs : List A) → length (take n xs) ≡ min n (length xs)
  length-take zero xs = omega arith
  length-take (suc n) [] = omega arith
  length-take (suc n) (x ∷ xs) = omega (arith, length-take n xs)

  pub length-drop : (n : ℕ) (xs : List A) → length (drop n xs) ≡ length xs - n
  length-drop zero xs = omega arith
  length-drop (suc n) [] = omega arith
  length-drop (suc n) (x ∷ xs) = omega (arith, length-drop n xs)

  pub length_zero : (xs : List A) → length xs ≡ 0 → xs ≡ []
  length_zero [] h = refl
  length_zero (x ∷ xs) h = absurd (omega arith)

  pub take_all : (n : ℕ) (xs : List A) → length xs ≤ n → take n xs ≡ xs
  take_all zero [] h = refl
  take_all zero (x ∷ xs) h = absurd (omega arith)
  take_all (suc n) [] h = refl
  take_all (suc n) (x ∷ xs) h = ap (λ ys. x ∷ ys) (take_all n xs (omega arith))

  pub drop_all : (n : ℕ) (xs : List A) → length xs ≤ n → drop n xs ≡ []
  drop_all zero [] h = refl
  drop_all zero (x ∷ xs) h = absurd (omega arith)
  drop_all (suc n) [] h = refl
  drop_all (suc n) (x ∷ xs) h = drop_all n xs (omega arith)

  -- The entries of a function at 0, 1, …, as a list.
  abbrev pub tabulate : (ℕ → A) → ℕ → List A
  tabulate f zero = []
  tabulate f (suc n) = f 0 ∷ tabulate (λ i. f (suc i)) n

  pub length-tabulate : (f : ℕ → A) (n : ℕ) → length (tabulate f n) ≡ n
  length-tabulate f zero = refl
  length-tabulate f (suc n) = ap suc (length-tabulate (λ i. f (suc i)) n)

  pub tabulate_ext :
      (f g : ℕ → A) (n : ℕ) → ((i : ℕ) → i < n → f i ≡ g i) → tabulate f n ≡ tabulate g n
  tabulate_ext f g zero h = refl
  tabulate_ext f g (suc n) h =
      ap₂ ◌∷◌ (h 0 (omega arith))
        (tabulate_ext (λ i. f (suc i)) (λ i. g (suc i)) n (λ i k. h (suc i) (omega arith)))

  pub tabulate-append :
      (f : ℕ → A) (n m : ℕ) → tabulate f (n + m) ≡ tabulate f n ++ tabulate (λ i. f (n + i)) m
  tabulate-append f zero m =
      ap (tabulate f) {x = 0 + m} {y = m} (omega arith)
      ∙ tabulate_ext f (λ i. f (0 + i)) m (λ i h. ap f (omega arith))
  tabulate-append f (suc n) m =
      ap (tabulate f) {x = suc n + m} {y = suc (n + m)} (omega arith)
      ∙ ap (λ ys. f 0 ∷ ys)
          (tabulate-append (λ i. f (suc i)) n m
            ∙ ap (λ ys. tabulate (λ i. f (suc i)) n ++ ys)
                (tabulate_ext (λ i. f (suc (n + i))) (λ i. f (suc n + i)) m
                  (λ i h. ap f (omega arith))))

  pub take-tabulate : (k n : ℕ) (f : ℕ → A) → k ≤ n → take k (tabulate f n) ≡ tabulate f k
  take-tabulate zero n f h = refl
  take-tabulate (suc k) zero f h = absurd (omega arith)
  take-tabulate (suc k) (suc n) f h =
      ap (λ ys. f 0 ∷ ys) (take-tabulate k n (λ i. f (suc i)) (omega arith))

  pub drop-tabulate :
      (k n : ℕ) (f : ℕ → A) → k ≤ n → drop k (tabulate f n) ≡ tabulate (λ i. f (k + i)) (n - k)
  drop-tabulate zero n f h =
      ap (tabulate f) {x = n} {y = n - 0} (omega arith)
      ∙ tabulate_ext f (λ i. f (0 + i)) (n - 0) (λ i _. ap f (omega arith))
  drop-tabulate (suc k) zero f h = absurd (omega arith)
  drop-tabulate (suc k) (suc n) f h =
      drop-tabulate k n (λ i. f (suc i)) (omega arith)
      ∙ ap (tabulate (λ i. f (suc (k + i)))) {x = n - k} {y = suc n - suc k} (omega arith)
      ∙ tabulate_ext (λ i. f (suc (k + i))) (λ i. f (suc k + i)) (suc n - suc k)
          (λ i _. ap f (omega arith))

  pub tabulate-get_or :
      (d : A) (xs : List A) (n : ℕ) → n ≤ length xs → tabulate (λ i. get_or xs i d) n ≡ take n xs
  tabulate-get_or d xs zero h = refl
  tabulate-get_or d [] (suc n) h = absurd (omega arith)
  tabulate-get_or d (x ∷ xs) (suc n) h = ap (λ ys. x ∷ ys) (tabulate-get_or d xs n (omega arith))

  pub get_or-tabulate :
      (d : A) (n : ℕ) (f : ℕ → A) (i : ℕ) → i < n → get_or (tabulate f n) i d ≡ f i
  get_or-tabulate d zero f i h = absurd (omega arith)
  get_or-tabulate d (suc n) f zero h = refl
  get_or-tabulate d (suc n) f (suc i) h = get_or-tabulate d n (λ j. f (suc j)) i (omega arith)

  pub get_or-take :
      (d : A) (n : ℕ) (xs : List A) (i : ℕ) → i < n → get_or (take n xs) i d ≡ get_or xs i d
  get_or-take d zero xs i h = absurd (omega arith)
  get_or-take d (suc n) [] i h = refl
  get_or-take d (suc n) (x ∷ xs) zero h = refl
  get_or-take d (suc n) (x ∷ xs) (suc i) h = get_or-take d n xs i (omega arith)

  pub get_or-drop :
      (d : A) (n : ℕ) (xs : List A) (i : ℕ) → get_or (drop n xs) i d ≡ get_or xs (n + i) d
  get_or-drop d zero xs i = ap (λ k. get_or xs k d) (omega arith)
  get_or-drop d (suc n) [] i = refl
  get_or-drop d (suc n) (x ∷ xs) i =
      get_or-drop d n xs i ∙ ap (λ k. get_or (x ∷ xs) k d) {x = suc (n + i)} (omega arith)

  -- Dropping more than there is leaves nothing.
  pub drop-min : (n : ℕ) (xs : List A) → drop (min n (length xs)) xs ≡ drop n xs
  drop-min n xs = elim (dec_le n (length xs)) [
    | yes h ↦ ap (λ k. drop k xs) (omega arith)
    | no h ↦
        ap (λ k. drop k xs) {y = length xs} (omega arith)
        ∙ drop_all (length xs) xs (omega arith)
        ∙ sym (drop_all n xs (omega arith))
  ]

  take-nil : (n : ℕ) → take n [] ≡ []
  take-nil zero = refl
  take-nil (suc n) = refl

  pub take-add : (n m : ℕ) (xs : List A) → take (n + m) xs ≡ take n xs ++ take m (drop n xs)
  take-add zero m xs = ap (λ k. take k xs) {x = 0 + m} {y = m} (omega arith)
  take-add (suc n) m [] = take-nil (suc n + m) ∙ sym (take-nil m)
  take-add (suc n) m (x ∷ xs) =
      ap (λ k. take k (x ∷ xs)) {x = suc n + m} {y = suc (n + m)} (omega arith)
      ∙ ap (λ ys. x ∷ ys) (take-add n m xs)

  pub drop-add : (n m : ℕ) (xs : List A) → drop (n + m) xs ≡ drop m (drop n xs)
  drop-add zero m xs = ap (λ k. drop k xs) {x = 0 + m} {y = m} (omega arith)
  drop-add (suc n) m [] = drop_all (suc n + m) [] (omega arith) ∙ sym (drop_all m [] (omega arith))
  drop-add (suc n) m (x ∷ xs) =
      ap (λ k. drop k (x ∷ xs)) {x = suc n + m} {y = suc (n + m)} (omega arith) ∙ drop-add n m xs

  -- Taking more than there is takes all.
  pub take-min : (n : ℕ) (xs : List A) → take (min n (length xs)) xs ≡ take n xs
  take-min n xs = elim (dec_le n (length xs)) [
    | yes h ↦ ap (λ k. take k xs) (omega arith)
    | no h ↦
        ap (λ k. take k xs) {y = length xs} (omega arith)
        ∙ take_all (length xs) xs (omega arith)
        ∙ sym (take_all n xs (omega arith))
  ]

  pub take-append : (n : ℕ) (xs ys : List A) → length xs ≡ n → take n (xs ++ ys) ≡ xs
  take-append zero [] ys h = refl
  take-append zero (x ∷ xs) ys h = absurd (omega arith)
  take-append (suc n) [] ys h = absurd (omega arith)
  take-append (suc n) (x ∷ xs) ys h = ap (λ t. x ∷ t) (take-append n xs ys (omega arith))

  pub drop-append : (n : ℕ) (xs ys : List A) → length xs ≡ n → drop n (xs ++ ys) ≡ ys
  drop-append zero [] ys h = refl
  drop-append zero (x ∷ xs) ys h = absurd (omega arith)
  drop-append (suc n) [] ys h = absurd (omega arith)
  drop-append (suc n) (x ∷ xs) ys h = drop-append n xs ys (omega arith)

  pub drop_within : (n : ℕ) (xs ys : List A) → n ≤ length xs → drop n (xs ++ ys) ≡ drop n xs ++ ys
  drop_within zero xs ys h = refl
  drop_within (suc n) [] ys h = absurd (omega arith)
  drop_within (suc n) (x ∷ xs) ys h = drop_within n xs ys (omega arith)

  pub take-drop : (n : ℕ) (xs : List A) → take n xs ++ drop n xs ≡ xs
  take-drop zero xs = refl
  take-drop (suc n) [] = refl
  take-drop (suc n) (x ∷ xs) = ap (λ ys. x ∷ ys) (take-drop n xs)
