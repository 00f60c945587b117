-- ===== src/Tcp/Bytes.antt =====
-- Buffers of bytes, and the writes of `std::memcpy` and of a socket into them.
use libfranka.Prelude.{
  ℕ, zero, suc, ◌+◌, ◌≤◌, ◌≡◌, ◌∙◌, refl, ap, List, [], ◌∷◌, ◌++◌, length, length-append, take,
  drop, arith,
}

zero_more : (m : ℕ) → zero + m ≡ m
zero_more m = omega arith

suc_more : (n m : ℕ) → suc n + m ≡ suc (n + m)
suc_more n m = omega arith

module _ {A : Type 0} where
  -- The buffer with `bs` written from an offset on, which must fit.
  unfoldable pub write_at : (offset : ℕ) → (bs buffer : List A) → List A
  write_at offset bs buffer = take offset buffer ++ (bs ++ drop (offset + length bs) buffer)

  pub length-take_le : (n : ℕ) (xs : List A) → n ≤ length xs → length (take n xs) ≡ n
  length-take_le zero xs h = refl
  length-take_le (suc n) [] h = omega arith
  length-take_le (suc n) (x ∷ xs) h = ap suc (length-take_le n xs (omega (arith, h)))

  pub take-append : (n : ℕ) (xs ys : List A) → n ≤ length xs → take n (xs ++ ys) ≡ take n xs
  take-append zero xs ys h = refl
  take-append (suc n) [] ys h = absurd (no_more n h)
    where
      no_more : (n : ℕ) → suc n ≤ zero → ⊥
      no_more n h = omega arith
  take-append (suc n) (x ∷ xs) ys h = ap (λ l. x ∷ l) (take-append n xs ys (omega (arith, h)))

  pub take_all : (n : ℕ) (xs ys : List A) → length xs ≡ n → take n (xs ++ ys) ≡ xs
  take_all zero [] ys h = refl
  take_all zero (x ∷ xs) ys h = absurd (cc)
  take_all (suc n) [] ys h = absurd (cc)
  take_all (suc n) (x ∷ xs) ys h = ap (λ l. x ∷ l) (take_all n xs ys (omega (arith, h)))

  take_more : (n m : ℕ) (xs ys : List A) → length xs ≡ n → take (n + m) (xs ++ ys) ≡ xs ++ take m ys
  take_more zero m [] ys h = ap (λ k. take k ys) (zero_more m)
  take_more zero m (x ∷ xs) ys h = absurd (cc)
  take_more (suc n) m [] ys h = absurd (cc)
  take_more (suc n) m (x ∷ xs) ys h =
      ap (λ k. take k (x ∷ (xs ++ ys))) (suc_more n m)
      ∙ ap (λ l. x ∷ l) (take_more n m xs ys (omega (arith, h)))

  pub take-take : (m n : ℕ) (xs : List A) → m ≤ n → take m (take n xs) ≡ take m xs
  take-take zero n xs h = refl
  take-take (suc m) zero xs h = absurd (no_more m h)
    where
      no_more : (n : ℕ) → suc n ≤ zero → ⊥
      no_more n h = omega arith
  take-take (suc m) (suc n) [] h = refl
  take-take (suc m) (suc n) (x ∷ xs) h = ap (λ l. x ∷ l) (take-take m n xs (omega (arith, h)))

  length-drop : (n : ℕ) (xs : List A) → n ≤ length xs → n + length (drop n xs) ≡ length xs
  length-drop zero xs h = zero_more (length xs)
  length-drop (suc n) [] h = absurd (no_more n h)
    where
      no_more : (n : ℕ) → suc n ≤ zero → ⊥
      no_more n h = omega arith
  length-drop (suc n) (x ∷ xs) h = omega (arith, length-drop n xs (omega (arith, h)))

  pub length-write_at :
      (offset : ℕ) (bs buffer : List A)
      → offset + length bs ≤ length buffer
      → length (write_at offset bs buffer) ≡ length buffer
  unfolding write_at
  length-write_at offset bs buffer h = omega (
    arith,
    h,
    length-append (take offset buffer) (bs ++ drop (offset + length bs) buffer),
    length-append bs (drop (offset + length bs) buffer),
    length-take_le offset buffer (omega (arith, h)),
    length-drop (offset + length bs) buffer h,
  )

  -- What was there before the write and what was written.
  pub take-write_at :
      (offset : ℕ) (bs buffer : List A)
      → offset + length bs ≤ length buffer
      → take (offset + length bs) (write_at offset bs buffer) ≡ take offset buffer ++ bs
  unfolding write_at
  take-write_at offset bs buffer h =
      take_more offset (length bs) (take offset buffer) (bs ++ drop (offset + length bs) buffer)
        (length-take_le offset buffer (omega (arith, h)))
      ∙ ap (λ l. take offset buffer ++ l)
          (take_all (length bs) bs (drop (offset + length bs) buffer) refl)

  -- A write leaves what lies before it.
  pub take-write_at_before :
      (n offset : ℕ) (bs buffer : List A)
      → n ≤ offset
      → offset + length bs ≤ length buffer
      → take n (write_at offset bs buffer) ≡ take n buffer
  unfolding write_at
  take-write_at_before n offset bs buffer l h =
      take-append n (take offset buffer) (bs ++ drop (offset + length bs) buffer)
        (omega (arith, l, length-take_le offset buffer (omega (arith, h))))
      ∙ take-take n offset buffer l

  pub take-length : (xs : List A) → take (length xs) xs ≡ xs
  take-length [] = refl
  take-length (x ∷ xs) = ap (λ l. x ∷ l) (take-length xs)
