-- ===== src/Common/Lists.antt =====
-- Lists measured and indexed by native numbers, under the library's names.
use Prim.Native.Nat.{ℕ, zero, suc, ◌+◌, ◌-◌, ◌≤◌, min}
use mathlib.Core.Path.{◌≡◌, refl, sym, ap, ◌∙◌}
use mathlib.Core.List.{List, [], ◌∷◌, ◌++◌, append_assoc}
use mathlib.Core.Option.{Option, none, some}
use native.Mathlib.Omega.{arith}

module _ {ℓ} {A : Type ℓ} where
  abbrev pub length : List A → ℕ
  length [] = 0
  length (x ∷ xs) = suc (length xs)

  abbrev pub get_elem? : List A → ℕ → Option A
  get_elem? [] i = none
  get_elem? (x ∷ xs) zero = some x
  get_elem? (x ∷ xs) (suc i) = get_elem? xs i

  abbrev pub take : ℕ → List A → List A
  take zero xs = []
  take (suc n) [] = []
  take (suc n) (x ∷ xs) = x ∷ take n xs

  abbrev pub drop : ℕ → List A → List A
  drop zero xs = xs
  drop (suc n) [] = []
  drop (suc n) (x ∷ xs) = drop n xs

  abbrev pub replicate : ℕ → A → List A
  replicate zero a = []
  replicate (suc n) a = a ∷ replicate n a

  pub length-append : (xs ys : List A) → length (xs ++ ys) ≡ length xs + length ys
  length-append [] ys = omega arith
  length-append (x ∷ xs) ys = omega (arith, length-append xs ys)

  pub length-take : (n : ℕ) (xs : List A) → length (take n xs) ≡ min n (length xs)
  length-take zero xs = omega arith
  length-take (suc n) [] = omega arith
  length-take (suc n) (x ∷ xs) = omega (arith, length-take n xs)

  pub length-drop : (n : ℕ) (xs : List A) → length (drop n xs) ≡ length xs - n
  length-drop zero xs = omega arith
  length-drop (suc n) [] = omega arith
  length-drop (suc n) (x ∷ xs) = omega (arith, length-drop n xs)

  pub length-replicate : (n : ℕ) (a : A) → length (replicate n a) ≡ n
  length-replicate zero a = refl
  length-replicate (suc n) a = ap suc (length-replicate n a)

  pub take-append-drop : (n : ℕ) (xs : List A) → take n xs ++ drop n xs ≡ xs
  take-append-drop zero xs = refl
  take-append-drop (suc n) [] = refl
  take-append-drop (suc n) (x ∷ xs) = ap (◌∷◌ x) (take-append-drop n xs)

  -- At the border of an append.
  pub take-append_exact : (n : ℕ) (xs ys : List A) → n ≡ length xs → take n (xs ++ ys) ≡ xs
  take-append_exact zero [] ys e = refl
  take-append_exact zero (x ∷ xs) ys e = absurd (omega arith)
  take-append_exact (suc n) [] ys e = absurd (omega arith)
  take-append_exact (suc n) (x ∷ xs) ys e = ap (◌∷◌ x) (take-append_exact n xs ys (omega arith))

  pub drop-append_exact : (n : ℕ) (xs ys : List A) → n ≡ length xs → drop n (xs ++ ys) ≡ ys
  drop-append_exact zero [] ys e = refl
  drop-append_exact zero (x ∷ xs) ys e = absurd (omega arith)
  drop-append_exact (suc n) [] ys e = absurd (omega arith)
  drop-append_exact (suc n) (x ∷ xs) ys e = drop-append_exact n xs ys (omega arith)

  pub take-append_le : (n : ℕ) (xs ys : List A) → n ≤ length xs → take n (xs ++ ys) ≡ take n xs
  take-append_le zero xs ys h = refl
  take-append_le (suc n) [] ys h = absurd (omega arith)
  take-append_le (suc n) (x ∷ xs) ys h = ap (◌∷◌ x) (take-append_le n xs ys (omega arith))

  pub drop-append_le :
      (n : ℕ) (xs ys : List A) → n ≤ length xs → drop n (xs ++ ys) ≡ drop n xs ++ ys
  drop-append_le zero xs ys h = refl
  drop-append_le (suc n) [] ys h = absurd (omega arith)
  drop-append_le (suc n) (x ∷ xs) ys h = drop-append_le n xs ys (omega arith)

  pub take_all : (n : ℕ) (xs : List A) → length xs ≤ n → take n xs ≡ xs
  take_all zero [] h = refl
  take_all zero (x ∷ xs) h = absurd (omega arith)
  take_all (suc n) [] h = refl
  take_all (suc n) (x ∷ xs) h = ap (◌∷◌ x) (take_all n xs (omega arith))

  pub drop_all : (n : ℕ) (xs : List A) → length xs ≤ n → drop n xs ≡ []
  drop_all zero [] h = refl
  drop_all zero (x ∷ xs) h = absurd (omega arith)
  drop_all (suc n) [] h = refl
  drop_all (suc n) (x ∷ xs) h = drop_all n xs (omega arith)

  pub take-take : (n m : ℕ) (xs : List A) → n ≤ m → take n (take m xs) ≡ take n xs
  take-take zero m xs h = refl
  take-take (suc n) zero xs h = absurd (omega arith)
  take-take (suc n) (suc m) [] h = refl
  take-take (suc n) (suc m) (x ∷ xs) h = ap (◌∷◌ x) (take-take n m xs (omega arith))

  pub drop-drop : (m n : ℕ) (xs : List A) → drop m (drop n xs) ≡ drop (n + m) xs
  drop-drop m zero xs = ap (λ k. drop k xs) (omega arith)
  drop-drop zero (suc n) [] = sym (drop_all (suc n + zero) [] (omega arith))
  drop-drop (suc m) (suc n) [] = sym (drop_all (suc n + suc m) [] (omega arith))
  drop-drop m (suc n) (x ∷ xs) =
      drop-drop m n xs ∙ ap (λ k. drop k (x ∷ xs)) {x = suc (n + m)} (omega arith)

  -- A longer prefix is a prefix and the next block.
  pub take-add : (m n : ℕ) (xs : List A) → take (m + n) xs ≡ take m xs ++ take n (drop m xs)
  take-add zero n xs = ap (λ k. take k xs) (omega arith)
  take-add (suc m) zero [] = take_all (suc m + zero) [] (omega arith)
  take-add (suc m) (suc n) [] = take_all (suc m + suc n) [] (omega arith)
  take-add (suc m) n (x ∷ xs) =
      ap (λ k. take k (x ∷ xs)) {y = suc (m + n)} (omega arith) ∙ ap (◌∷◌ x) (take-add m n xs)

  pub append_nonempty_length : (xs : List A) → length xs ≡ 0 → xs ≡ []
  append_nonempty_length [] h = refl
  append_nonempty_length (x ∷ xs) h = absurd (omega arith)

module _ {ℓ} {A : Type ℓ} where
  pub drop-take : (r w : ℕ) (xs : List A) → drop r (take w xs) ≡ take (w - r) (drop r xs)
  drop-take zero w xs = ap (λ k. take k xs) (omega arith)
  drop-take (suc r) zero xs = ground (arith, take_all (zero - suc r) (drop (suc r) xs))
  drop-take (suc r) (suc w) [] = sym (take_all (suc w - suc r) [] (omega arith))
  drop-take (suc r) (suc w) (x ∷ xs) =
      drop-take r w xs ∙ ap (λ k. take k (drop r xs)) {x = w - r} (omega arith)

  -- A block written over `[n, n + length ys)`.
  abbrev pub patch : ℕ → List A → List A → List A
  patch n ys xs = take n xs ++ (ys ++ drop (n + length ys) xs)

  pub length-patch :
      (n : ℕ) (ys xs : List A) → n + length ys ≤ length xs → length (patch n ys xs) ≡ length xs
  length-patch n ys xs h = omega (
    arith,
    length-append (take n xs) (ys ++ drop (n + length ys) xs),
    length-append ys (drop (n + length ys) xs),
    length-take n xs,
    length-drop (n + length ys) xs,
  )

  -- What a patch holds from an index below it up to its end.
  pub take-drop-patch :
      (r n k : ℕ) (ys xs : List A)
      → r ≤ n
      → n ≤ length xs
      → k ≡ n - r + length ys
      → take k (drop r (patch n ys xs)) ≡ take (n - r) (drop r xs) ++ ys
  take-drop-patch r n k ys xs h g e =
      ap (take k) (drop-append_le r (take n xs) rest (omega (arith, length-take n xs)))
      ∙ ap (λ zs. take k (zs ++ rest)) (drop-take r n xs)
      ∙ ap (take k) (sym (append_assoc kept ys (drop (n + length ys) xs)))
      ∙ take-append_exact k (kept ++ ys) (drop (n + length ys) xs) sizes
    where
      rest : List A
      rest = ys ++ drop (n + length ys) xs

      kept : List A
      kept = take (n - r) (drop r xs)

      sizes : k ≡ length (kept ++ ys)
      sizes =
          omega (arith, length-append kept ys, length-take (n - r) (drop r xs), length-drop r xs)
