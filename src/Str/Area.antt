-- ===== src/Str/Area.antt =====
-- str.c: what `memcpy` into an area leaves.
use my_vps_config.Base.{
  ℕ, zero, suc, ◌+◌, ◌≤◌, ◌≡◌, refl, ap, ◌∙◌, some, [], ◌∷◌, ◌++◌, Bytes, length, take, drop, arith,
}
use my_vps_config.Str.{overwrite, write_at}

-- A written area has its length, and starts with what was there and what was written.
overwrite-Written :
    (src a : Bytes)
    → length src ≤ length a
    → (a' : Bytes) × (overwrite src a ≡ some a')
      × (length a' ≡ length a)
      × (take (length src) a' ≡ src)
unfolding overwrite
overwrite-Written [] a h = (a, refl, refl, refl)
overwrite-Written (s ∷ src) [] h = absurd (omega arith)
overwrite-Written (s ∷ src) (x ∷ a) h =
    let (a', e, l, t) = overwrite-Written src a (omega arith) in
    (s ∷ a', ground arith, ground arith, ground arith)

abbrev pub text_at : ℕ → ℕ → Bytes → Bytes
text_at offset n a = take n (drop offset a)

pub write_at-Written :
    (i offset n m : ℕ) (src a : Bytes)
    → i ≡ offset + n
    → m ≡ n + length src
    → i + length src ≤ length a
    → (a' : Bytes) × (write_at i src a ≡ some a')
      × (length a' ≡ length a)
      × (text_at offset m a' ≡ text_at offset n a ++ src)
unfolding write_at
write_at-Written zero zero zero m src a p q h =
    let (a', e, l, t) = overwrite-Written src a (omega arith) in
    let same : m ≡ length src = omega arith in (a', e, l, ap (λ j. take j a') same ∙ t)
write_at-Written zero zero (suc n) m src a p q h = absurd (omega arith)
write_at-Written zero (suc offset) n m src a p q h = absurd (omega arith)
write_at-Written (suc i) zero zero m src a p q h = absurd (omega arith)
write_at-Written (suc i) zero (suc n) zero src a p q h = absurd (omega arith)
write_at-Written (suc i) zero (suc n) (suc m) src [] p q h = absurd (omega arith)
write_at-Written (suc i) zero (suc n) (suc m) src (x ∷ a) p q h =
    let (a', e, l, t) =
      write_at-Written i zero n m src a (omega arith) (omega arith) (omega arith) in
    (x ∷ a', ground arith, ground arith, ap (λ u. x ∷ u) t)
write_at-Written (suc i) (suc offset) n m src [] p q h = absurd (omega arith)
write_at-Written (suc i) (suc offset) n m src (x ∷ a) p q h =
    let (a', e, l, t) =
      write_at-Written i offset n m src a (omega arith) (omega arith) (omega arith) in
    (x ∷ a', ground arith, ground arith, t)

pub take-append_all : (n : ℕ) (xs ys : Bytes) → length xs ≡ n → take n (xs ++ ys) ≡ xs
take-append_all zero [] ys h = refl
take-append_all zero (x ∷ xs) ys h = absurd (omega arith)
take-append_all (suc n) [] ys h = absurd (omega arith)
take-append_all (suc n) (x ∷ xs) ys h = ap (λ t. x ∷ t) (take-append_all n xs ys (omega arith))

pub text_at-take :
    (offset n k : ℕ) (a : Bytes) → offset + n ≤ k → text_at offset n (take k a) ≡ text_at offset n a
text_at-take zero zero k a h = refl
text_at-take zero (suc n) zero a h = absurd (omega arith)
text_at-take zero (suc n) (suc k) [] h = refl
text_at-take zero (suc n) (suc k) (x ∷ a) h =
    ap (λ t. x ∷ t) (text_at-take zero n k a (omega arith))
text_at-take (suc offset) n zero a h = absurd (omega arith)
text_at-take (suc offset) n (suc k) [] h = refl
text_at-take (suc offset) n (suc k) (x ∷ a) h = text_at-take offset n k a (omega arith)
