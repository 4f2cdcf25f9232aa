-- ===== src/Common/Slices.antt =====
-- Laws of `take` and `drop` on lists that are joined or cut twice.
use ailes.Common.Lists.{length, take, drop}
use Prim.Native.Nat.{ℕ, zero, suc, ◌+◌, ◌-◌, ◌≤◌, min}
use mathlib.Core.Path.{◌≡◌, refl, ap}
use mathlib.Core.List.{List, [], ◌∷◌, ◌++◌}
use native.Mathlib.Omega.{arith}

module _ {ℓ} {A : Type ℓ} where
  pub drop-append : (n : ℕ) (xs ys : List A) → n ≤ length xs → drop n (xs ++ ys) ≡ drop n xs ++ ys
  drop-append zero xs ys h = refl
  drop-append (suc n) [] ys h = absurd (omega arith)
  drop-append (suc n) (x ∷ xs) ys h = drop-append n xs ys (omega arith)

  pub take-append : (n : ℕ) (xs ys : List A) → n ≤ length xs → take n (xs ++ ys) ≡ take n xs
  take-append zero xs ys h = refl
  take-append (suc n) [] ys h = absurd (omega arith)
  take-append (suc n) (x ∷ xs) ys h = ap (◌∷◌ x) (take-append n xs ys (omega arith))

  pub drop_all : (n : ℕ) (xs : List A) → length xs ≤ n → drop n xs ≡ []
  drop_all zero [] h = refl
  drop_all zero (x ∷ xs) h = absurd (omega arith)
  drop_all (suc n) [] h = refl
  drop_all (suc n) (x ∷ xs) h = drop_all n xs (omega arith)

  pub take_all : (n : ℕ) (xs : List A) → length xs ≤ n → take n xs ≡ xs
  take_all zero [] h = refl
  take_all zero (x ∷ xs) h = absurd (omega arith)
  take_all (suc n) [] h = refl
  take_all (suc n) (x ∷ xs) h = ap (◌∷◌ x) (take_all n xs (omega arith))

  pub drop-nil : (n : ℕ) → drop {A = A} n [] ≡ []
  drop-nil zero = refl
  drop-nil (suc n) = refl

  pub drop-drop : (n m : ℕ) (xs : List A) → drop n (drop m xs) ≡ drop (m + n) xs
  drop-drop n zero xs = ap (λ k. drop k xs) (omega arith)
  drop-drop n (suc m) [] = rw (drop-nil n, drop-nil (suc m + n))
  drop-drop n (suc m) (x ∷ xs) =
      rw (drop-drop n m xs) (ap (λ k. drop k (x ∷ xs)) {x = suc (m + n)} (omega arith))

  pub take-nil : (n : ℕ) → take {A = A} n [] ≡ []
  take-nil zero = refl
  take-nil (suc n) = refl

  pub take-add : (k m : ℕ) (xs : List A) → take k xs ++ take m (drop k xs) ≡ take (k + m) xs
  take-add zero m xs = ap (λ i. take i xs) (omega arith)
  take-add (suc k) m [] = rw (take-nil m, take-nil (suc k + m)) refl
  take-add (suc k) m (x ∷ xs) =
      rw (take-add k m xs) (ap (λ i. take i (x ∷ xs)) {x = suc (k + m)} (omega arith))

  pub take-take : (n m : ℕ) (xs : List A) → take n (take m xs) ≡ take (min n m) xs
  take-take zero m xs = ap (λ i. take i xs) {x = 0} (omega arith)
  take-take (suc n) zero xs = ap (λ i. take i xs) {x = 0} (omega arith)
  take-take (suc n) (suc m) [] = rw (take-nil (min (suc n) (suc m))) refl
  take-take (suc n) (suc m) (x ∷ xs) =
      rw (take-take n m xs) (ap (λ i. take i (x ∷ xs)) {x = suc (min n m)} (omega arith))

  pub drop-take : (n m : ℕ) (xs : List A) → drop n (take m xs) ≡ take (m - n) (drop n xs)
  drop-take zero m xs = ap (λ i. take i xs) (omega arith)
  drop-take (suc n) zero xs = ap (λ i. take i (drop (suc n) xs)) {x = 0} (omega arith)
  drop-take (suc n) (suc m) [] = rw (take-nil (suc m - suc n)) refl
  drop-take (suc n) (suc m) (x ∷ xs) =
      rw (drop-take n m xs) (ap (λ i. take i (drop n xs)) (omega arith))
