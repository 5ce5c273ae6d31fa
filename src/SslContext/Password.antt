-- ===== src/SslContext/Password.antt =====
-- EdSSLContext: the password that the callback hands over.
use ednio.Prelude.{
  ℕ, zero, suc, ◌+◌, ◌-◌, ◌≤◌, ◌<◌, ◌≡◌, refl, ap, ◌∙◌, List, [], ◌∷◌, ◌++◌, Bool, true, false,
  ◌||◌, none, some, ◌==◌, leb, ltb, if◌then◌else◌, ◌>>=◌, length, take, drop, byte_at, arith, inl,
  inr, append_assoc, append-nil, length_zero, ◌&&◌, Bool-cases,
}
use ednio.SslContext.{
  SslContext, passwd_size, text_at, zeros, copy_text, set_cert_password, password_cb,
}

-- A text of C: no byte of it is 0.
abbrev pub IsText : List ℕ → Type 0
IsText [] = Unit {0}
IsText (x ∷ xs) = ((x == 0) ≡ false) × IsText xs

take-IsText : (n : ℕ) (xs : List ℕ) → IsText xs → IsText (take n xs)
take-IsText zero xs h = tt
take-IsText (suc n) [] h = tt
take-IsText (suc n) (x ∷ xs) (p, h) = (p, take-IsText n xs h)

-- A text in front of other memory that holds a text, and of memory that holds none.
text_at-append : (t m r : List ℕ) → IsText t → text_at m ≡ some r → text_at (t ++ m) ≡ some (t ++ r)
unfolding text_at
text_at-append [] m r p h = h
text_at-append (x ∷ t) m r (n, p) h = rw (n, text_at-append t m r p h)

text_at-overrun : (t m : List ℕ) → IsText t → text_at m ≡ none → text_at (t ++ m) ≡ none
unfolding text_at
text_at-overrun [] m p h = h
text_at-overrun (x ∷ t) m (n, p) h = rw (n, text_at-overrun t m p h)

text_at-zeros : (k : ℕ) (m : List ℕ) → text_at (zeros (suc k) ++ m) ≡ some []
unfolding text_at
text_at-zeros k m = refl

-- Cut to fewer bytes than it has, or filled up with zeros.
take-zeros : (n k : ℕ) → n ≤ k → take n (zeros k) ≡ zeros n
take-zeros zero k h = refl
take-zeros (suc n) zero h = absurd (omega arith)
take-zeros (suc n) (suc k) h = ap (λ xs. 0 ∷ xs) (take-zeros n k (omega arith))

filled :
    (n k : ℕ) (pw : List ℕ) → n ≤ k → take n (pw ++ zeros k) ≡ take n pw ++ zeros (n - length pw)
filled zero k pw h = ap zeros {x = 0} {y = 0 - length pw} (omega arith)
filled (suc n) k [] h = take-zeros (suc n) k h ∙ ap zeros {x = suc n} {y = suc n - 0} (omega arith)
filled (suc n) k (x ∷ pw) h =
    ap (λ xs. x ∷ xs)
      (filled n k pw (omega arith)
        ∙ ap (λ i. take n pw ++ zeros i) {x = n - length pw} {y = suc n - suc (length pw)}
            (omega arith))

-- A text that was cut ends where the byte behind it is 0; a shorter one has a zero of its own.
cut_short :
    (t : List ℕ) (b : ℕ) → IsText t → text_at (t ++ (b ∷ [])) ≡ (if b == 0 then some t else none)
unfolding text_at
cut_short t b p = elim (Bool-cases (b == 0)) [
  | inl e ↦ rw (e, text_at-append t (b ∷ []) [] p (last_zero b e)) (ap some (append-nil t))
  | inr e ↦ rw (e) (text_at-overrun t (b ∷ []) p (last_byte b e))
]
  where
    last_zero : (b : ℕ) → (b == 0) ≡ true → text_at (b ∷ []) ≡ some []
    last_zero b e = rw (e) refl

    last_byte : (b : ℕ) → (b == 0) ≡ false → text_at (b ∷ []) ≡ none
    last_byte b e = rw (e) refl

padded : (t m : List ℕ) (k : ℕ) → 0 < k → IsText t → text_at ((t ++ zeros k) ++ m) ≡ some t
padded t m zero h p = absurd (omega arith)
padded t m (suc k) h p =
    ap text_at (append_assoc t (zeros (suc k)) m)
    ∙ text_at-append t (zeros (suc k) ++ m) [] p (text_at-zeros k m)
    ∙ ap some (append-nil t)

-- What is read back, from a memory with room for one byte more.
read_back :
    (n : ℕ) (pw m : List ℕ) (b : ℕ)
    → IsText pw
    → drop n m ≡ b ∷ []
    → text_at (copy_text n pw m) ≡ (if ltb (length pw) n || b == 0 then some (take n pw) else none)
unfolding copy_text
read_back n pw m b t h =
    rw (filled n n pw (omega arith), h)
      (elim (Bool-cases (ltb (length pw) n)) [
        | inl e ↦
            rw (e) (padded (take n pw) (b ∷ []) (n - length pw) (ground arith) (take-IsText n pw t))
        | inr e ↦ rw (e) (
            ap (λ k. text_at ((take n pw ++ zeros k) ++ (b ∷ []))) {x = n - length pw} {y = 0}
              (ground arith)
            ∙ ap (λ xs. text_at (xs ++ (b ∷ []))) (append-nil (take n pw))
            ∙ cut_short (take n pw) b (take-IsText n pw t))
      ])

last_entry : (n : ℕ) (m : List ℕ) → length m ≡ suc n → drop n m ≡ byte_at m n ∷ []
last_entry zero [] h = absurd (omega arith)
last_entry zero (x ∷ xs) h = ap (λ ys. x ∷ ys) (length_zero xs (omega arith))
last_entry (suc n) [] h = absurd (omega arith)
last_entry (suc n) (x ∷ xs) h = last_entry n xs (omega arith)

both_tests :
    (b : Bool) (room : List ℕ → Bool) (t : List ℕ)
    → ((if b then some t else none) >>= λ r. if room r then some r else none)
      ≡ (if b && room t then some t else none)
both_tests true room t = refl
both_tests false room t = refl

-- The callback after a password with no 0 was set in a context whose memory holds 20 bytes:
-- OpenSSL's buffer gets the first 19 bytes of the password, when the password has fewer than 19
-- bytes or the memory's last byte, which setting never writes, is 0, and the buffer has room for
-- these bytes and a 0; otherwise the callback reads or writes past the end of a memory.
pub password_cb-set_cert_password :
    (size : ℕ) (pw : List ℕ) (c : SslContext)
    → IsText pw
    → length c.passwd ≡ passwd_size
    → password_cb size (set_cert_password pw c) ≡ (
        if (ltb (length pw) (passwd_size - 1) || byte_at c.passwd (passwd_size - 1) == 0)
          && leb (length (take (passwd_size - 1) pw) + 1) size
        then some (take (passwd_size - 1) pw)
        else none)
unfolding password_cb set_cert_password
password_cb-set_cert_password size pw c t h =
    rw (read_back 19 pw c.passwd (byte_at c.passwd 19) t (last_entry 19 c.passwd h)) (
      both_tests (ltb (length pw) 19 || byte_at c.passwd 19 == 0) (λ t. leb (length t + 1) size)
        (take 19 pw))
