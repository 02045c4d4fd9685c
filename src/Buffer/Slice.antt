-- ===== src/Buffer/Slice.antt =====
-- Ranges of a byte array, for the vector of net/buffer.h.
use reactor_kv.Prelude.{
  ℕ, zero, suc, ◌+◌, ◌-◌, ◌≤◌, ◌≡◌, refl, List, [], ◌∷◌, ◌++◌, arith, length, drop, take, ap, ◌∙◌,
}

module _ {A : Type 0} where
  -- The elements from index `r` up to, not including, index `w`.
  unfoldable pub slice : ℕ → ℕ → List A → List A
  slice r w [] = []
  slice zero zero (x ∷ xs) = []
  slice zero (suc w) (x ∷ xs) = x ∷ slice zero w xs
  slice (suc r) zero (x ∷ xs) = []
  slice (suc r) (suc w) (x ∷ xs) = slice r w xs

  -- std::copy of `bs` to index `w`; what would lie past the end is dropped.
  unfoldable pub write_at : ℕ → List A → List A → List A
  write_at w bs [] = []
  write_at zero [] (x ∷ xs) = x ∷ xs
  write_at zero (b ∷ bs) (x ∷ xs) = b ∷ write_at zero bs xs
  write_at (suc w) bs (x ∷ xs) = x ∷ write_at w bs xs

  pub length-write_at : (w : ℕ) (bs xs : List A) → length (write_at w bs xs) ≡ length xs
  unfolding write_at
  length-write_at w bs [] = refl
  length-write_at zero [] (x ∷ xs) = refl
  length-write_at zero (b ∷ bs) (x ∷ xs) = ap suc (length-write_at zero bs xs)
  length-write_at (suc w) bs (x ∷ xs) = ap suc (length-write_at w bs xs)

  pub length-slice : (r w : ℕ) (xs : List A) → r ≤ w → w ≤ length xs → length (slice r w xs) ≡ w - r
  unfolding slice
  length-slice r w [] h k = omega arith
  length-slice zero zero (x ∷ xs) h k = refl
  length-slice zero (suc w) (x ∷ xs) h k = omega (arith, length-slice zero w xs)
  length-slice (suc r) zero (x ∷ xs) h k = absurd (omega arith)
  length-slice (suc r) (suc w) (x ∷ xs) h k = omega (arith, length-slice r w xs)

  pub slice-empty : (r : ℕ) (xs : List A) → slice r r xs ≡ []
  unfolding slice
  slice-empty r [] = refl
  slice-empty zero (x ∷ xs) = refl
  slice-empty (suc r) (x ∷ xs) = slice-empty r xs

  -- Bytes written behind a range extend it.
  pub slice-write_at :
      (r w v : ℕ) (bs xs : List A)
      → r ≤ w
      → v ≡ w + length bs
      → v ≤ length xs
      → slice r v (write_at w bs xs) ≡ slice r w xs ++ bs
  unfolding slice write_at
  slice-write_at r w v [] [] h e k = refl
  slice-write_at r w v (b ∷ bs) [] h e k = absurd (omega arith)
  slice-write_at zero zero zero [] (x ∷ xs) h e k = refl
  slice-write_at zero zero (suc v) [] (x ∷ xs) h e k = absurd (omega arith)
  slice-write_at zero zero zero (b ∷ bs) (x ∷ xs) h e k = absurd (omega arith)
  slice-write_at zero zero (suc v) (b ∷ bs) (x ∷ xs) h e k =
      ap (λ t. b ∷ t)
        (slice-write_at zero zero v bs xs h (omega arith) (omega arith)
          ∙ ap (λ t. t ++ bs) (slice-empty zero xs))
  slice-write_at zero (suc w) zero bs (x ∷ xs) h e k = absurd (omega arith)
  slice-write_at zero (suc w) (suc v) bs (x ∷ xs) h e k =
      ap (λ t. x ∷ t) (slice-write_at zero w v bs xs (omega arith) (omega arith) (omega arith))
  slice-write_at (suc r) zero v bs (x ∷ xs) h e k = absurd (omega arith)
  slice-write_at (suc r) (suc w) zero bs (x ∷ xs) h e k = absurd (omega arith)
  slice-write_at (suc r) (suc w) (suc v) bs (x ∷ xs) h e k =
      slice-write_at r w v bs xs (omega arith) (omega arith) (omega arith)

  -- Bytes written just before a range.
  pub slice-write_at_before :
      (q r w : ℕ) (bs xs : List A)
      → r ≡ q + length bs
      → r ≤ w
      → w ≤ length xs
      → slice q w (write_at q bs xs) ≡ bs ++ slice r w xs
  unfolding slice write_at
  slice-write_at_before q r w [] [] e h k = refl
  slice-write_at_before q r w (b ∷ bs) [] e h k = absurd (omega arith)
  slice-write_at_before zero zero w [] (x ∷ xs) e h k = refl
  slice-write_at_before zero (suc r) w [] (x ∷ xs) e h k = absurd (omega arith)
  slice-write_at_before zero zero w (b ∷ bs) (x ∷ xs) e h k = absurd (omega arith)
  slice-write_at_before zero (suc r) zero (b ∷ bs) (x ∷ xs) e h k = absurd (omega arith)
  slice-write_at_before zero (suc r) (suc w) (b ∷ bs) (x ∷ xs) e h k =
      ap (λ t. b ∷ t)
        (slice-write_at_before zero r w bs xs (omega arith) (omega arith) (omega arith))
  slice-write_at_before (suc q) zero w bs (x ∷ xs) e h k = absurd (omega arith)
  slice-write_at_before (suc q) (suc r) zero bs (x ∷ xs) e h k = absurd (omega arith)
  slice-write_at_before (suc q) (suc r) (suc w) bs (x ∷ xs) e h k =
      slice-write_at_before q r w bs xs (omega arith) (omega arith) (omega arith)

  -- A later start drops the first elements.
  pub slice-drop :
      (n r q w : ℕ) (xs : List A) → q ≡ r + n → q ≤ w → slice q w xs ≡ drop n (slice r w xs)
  unfolding slice
  slice-drop zero r q w xs e h = ap (λ t. slice t w xs) (omega arith)
  slice-drop (suc n) r q w [] e h = refl
  slice-drop (suc n) zero zero w (x ∷ xs) e h = absurd (omega arith)
  slice-drop (suc n) zero (suc q) zero (x ∷ xs) e h = absurd (omega arith)
  slice-drop (suc n) zero (suc q) (suc w) (x ∷ xs) e h =
      slice-drop n zero q w xs (omega arith) (omega arith)
  slice-drop (suc n) (suc r) zero w (x ∷ xs) e h = absurd (omega arith)
  slice-drop (suc n) (suc r) (suc q) zero (x ∷ xs) e h = absurd (omega arith)
  slice-drop (suc n) (suc r) (suc q) (suc w) (x ∷ xs) e h =
      slice-drop (suc n) r q w xs (omega arith) (omega arith)

  -- What is added at the end of the array is not in the range.
  pub slice-append :
      (r w : ℕ) (xs ys : List A) → r ≤ w → w ≤ length xs → slice r w (xs ++ ys) ≡ slice r w xs
  unfolding slice
  slice-append zero zero [] [] h k = refl
  slice-append zero zero [] (y ∷ ys) h k = refl
  slice-append zero (suc w) [] ys h k = absurd (omega arith)
  slice-append (suc r) w [] ys h k = absurd (omega arith)
  slice-append zero zero (x ∷ xs) ys h k = refl
  slice-append zero (suc w) (x ∷ xs) ys h k =
      ap (λ t. x ∷ t) (slice-append zero w xs ys (omega arith) (omega arith))
  slice-append (suc r) zero (x ∷ xs) ys h k = absurd (omega arith)
  slice-append (suc r) (suc w) (x ∷ xs) ys h k = slice-append r w xs ys (omega arith) (omega arith)

  -- An earlier end keeps the first elements.
  pub slice-take :
      (n r v w : ℕ) (xs : List A) → v ≡ r + n → v ≤ w → slice r v xs ≡ take n (slice r w xs)
  unfolding slice
  slice-take zero r v w xs e h =
      ap (λ t. slice r t xs) (let z : v ≡ r = omega arith in z) ∙ slice-empty r xs
  slice-take (suc n) r v w [] e h = refl
  slice-take (suc n) zero zero w (x ∷ xs) e h = absurd (omega arith)
  slice-take (suc n) zero (suc v) zero (x ∷ xs) e h = absurd (omega arith)
  slice-take (suc n) zero (suc v) (suc w) (x ∷ xs) e h =
      ap (λ t. x ∷ t) (slice-take n zero v w xs (omega arith) (omega arith))
  slice-take (suc n) (suc r) zero w (x ∷ xs) e h = absurd (omega arith)
  slice-take (suc n) (suc r) (suc v) zero (x ∷ xs) e h = absurd (omega arith)
  slice-take (suc n) (suc r) (suc v) (suc w) (x ∷ xs) e h =
      slice-take (suc n) r v w xs (omega arith) (omega arith)
