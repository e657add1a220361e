-- ===== src/Prelude/Slices.antt =====
-- The first elements of a list and the others, by native numbers.
use Prim.Native.Nat.{ℕ, zero, suc, ◌+◌, ◌-◌, ◌≤◌}
use mathlib.Core.Path.{◌≡◌, refl, ap}
use mathlib.Core.List.{List, [], ◌∷◌, ◌++◌}
use native.Mathlib.Omega.{arith}
use src_link.Prelude.Lists.{length}

module _ {ℓ} {A : Type ℓ} where
  unfoldable pub take : ℕ → List A → List A
  take n [] = []
  take zero (x ∷ xs) = []
  take (suc n) (x ∷ xs) = x ∷ take n xs

  unfoldable pub drop : ℕ → List A → List A
  drop n [] = []
  drop zero (x ∷ xs) = x ∷ xs
  drop (suc n) (x ∷ xs) = drop n xs

  pub take-zero : (xs : List A) → take 0 xs ≡ []
  unfolding take
  take-zero [] = refl
  take-zero (x ∷ xs) = refl

  pub drop-zero : (xs : List A) → drop 0 xs ≡ xs
  unfolding drop
  drop-zero [] = refl
  drop-zero (x ∷ xs) = refl

  pub length-drop : (n : ℕ) (xs : List A) → length (drop n xs) ≡ length xs - n
  unfolding drop
  length-drop n [] = ground arith
  length-drop zero (x ∷ xs) = ground arith
  length-drop (suc n) (x ∷ xs) = let rest = length-drop n xs in ground arith

  pub take_all : (n : ℕ) (xs : List A) → length xs ≤ n → take n xs ≡ xs
  unfolding take
  take_all n [] h = refl
  take_all zero (x ∷ xs) h = ground arith
  take_all (suc n) (x ∷ xs) h = ap (λ l. x ∷ l) (take_all n xs (ground arith))

  -- Of two lists in a row.
  pub take-past :
      (n : ℕ) (xs ys : List A) → length xs ≤ n → take n (xs ++ ys) ≡ xs ++ take (n - length xs) ys
  unfolding take
  take-past n [] ys h = let e : n - 0 ≡ n = ground arith in rw e refl
  take-past zero (x ∷ xs) ys h = ground arith
  take-past (suc n) (x ∷ xs) ys h =
      ap (λ l. x ∷ l)
        (let e : suc n - suc (length xs) ≡ n - length xs = ground arith in
          rw e (take-past n xs ys (ground arith)))

  pub drop-past :
      (n : ℕ) (xs ys : List A) → length xs ≤ n → drop n (xs ++ ys) ≡ drop (n - length xs) ys
  unfolding drop
  drop-past n [] ys h = let e : n - 0 ≡ n = ground arith in rw e refl
  drop-past zero (x ∷ xs) ys h = ground arith
  drop-past (suc n) (x ∷ xs) ys h =
      let e : suc n - suc (length xs) ≡ n - length xs = ground arith in
      rw e (drop-past n xs ys (ground arith))

  pub take-within : (n : ℕ) (xs ys : List A) → n ≤ length xs → take n (xs ++ ys) ≡ take n xs
  unfolding take
  take-within n [] ys h = let e : n ≡ 0 = ground arith in rw e (take-zero ys)
  take-within zero (x ∷ xs) ys h = refl
  take-within (suc n) (x ∷ xs) ys h = ap (λ l. x ∷ l) (take-within n xs ys (ground arith))

  pub drop-within : (n : ℕ) (xs ys : List A) → n ≤ length xs → drop n (xs ++ ys) ≡ drop n xs ++ ys
  unfolding drop
  drop-within n [] ys h = let e : n ≡ 0 = ground arith in rw e (drop-zero ys)
  drop-within zero (x ∷ xs) ys h = refl
  drop-within (suc n) (x ∷ xs) ys h = drop-within n xs ys (ground arith)

  pub drop-drop : (m n : ℕ) (xs : List A) → drop n (drop m xs) ≡ drop (m + n) xs
  unfolding drop
  drop-drop m n [] = refl
  drop-drop zero n (x ∷ xs) = let e : 0 + n ≡ n = ground arith in rw e refl
  drop-drop (suc m) n (x ∷ xs) =
      let e : suc m + n ≡ suc (m + n) = ground arith in rw e (drop-drop m n xs)
