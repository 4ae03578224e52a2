-- ===== src/Common/Slices.antt =====
-- `take` and `drop` of appended lists.
use Prim.Native.Nat.{ℕ, zero, suc, ◌+◌, ◌≤◌}
use mathlib.Core.Path.{◌≡◌, refl, ap}
use mathlib.Core.List.{List, [], ◌∷◌, ◌++◌}
use native.Mathlib.Omega.{arith}
use package.skynet_server.Common.Lists.{length, take, drop}
use skynet_server.Common.{◌∙◌}

module _ {ℓ} {A : Type ℓ} where
  pub take-append_within : (n : ℕ) (xs ys : List A) → n ≤ length xs → take n (xs ++ ys) ≡ take n xs
  take-append_within zero xs ys h = refl
  take-append_within (suc n) [] ys h = absurd (omega arith)
  take-append_within (suc n) (x ∷ xs) ys h =
      ap (λ r. x ∷ r) (take-append_within n xs ys (omega arith))

  pub drop-append_within :
      (n : ℕ) (xs ys : List A) → n ≤ length xs → drop n (xs ++ ys) ≡ drop n xs ++ ys
  drop-append_within zero xs ys h = refl
  drop-append_within (suc n) [] ys h = absurd (omega arith)
  drop-append_within (suc n) (x ∷ xs) ys h = drop-append_within n xs ys (omega arith)

  pub take-append_past :
      (n : ℕ) (xs ys : List A) → take (length xs + n) (xs ++ ys) ≡ xs ++ take n ys
  take-append_past n [] ys = ap (λ k. take k ys) (let e : 0 + n ≡ n = omega arith in e)
  take-append_past n (x ∷ xs) ys =
      ap (λ k. take k (x ∷ xs ++ ys))
        (let e : suc (length xs) + n ≡ suc (length xs + n) = omega arith in e)
      ∙ ap (λ r. x ∷ r) (take-append_past n xs ys)

  pub drop-append_past : (n : ℕ) (xs ys : List A) → drop (length xs + n) (xs ++ ys) ≡ drop n ys
  drop-append_past n [] ys = ap (λ k. drop k ys) (let e : 0 + n ≡ n = omega arith in e)
  drop-append_past n (x ∷ xs) ys =
      ap (λ k. drop k (x ∷ xs ++ ys))
        (let e : suc (length xs) + n ≡ suc (length xs + n) = omega arith in e)
      ∙ drop-append_past n xs ys

  pub drop-drop : (n m : ℕ) (xs : List A) → drop (n + m) xs ≡ drop m (drop n xs)
  drop-drop zero m xs = ap (λ k. drop k xs) (let e : 0 + m ≡ m = omega arith in e)
  drop-drop (suc n) zero [] = ap (λ k. drop k []) (let e : suc n + 0 ≡ suc n = omega arith in e)
  drop-drop (suc n) (suc m) [] =
      ap (λ k. drop k []) (let e : suc n + suc m ≡ suc (n + suc m) = omega arith in e)
  drop-drop (suc n) m (x ∷ xs) =
      ap (λ k. drop k (x ∷ xs)) (let e : suc n + m ≡ suc (n + m) = omega arith in e)
      ∙ drop-drop n m xs

  pub take_whole : (xs : List A) → take (length xs) xs ≡ xs
  take_whole [] = refl
  take_whole (x ∷ xs) = ap (λ r. x ∷ r) (take_whole xs)
